-- ===== src/Examples/Server.antt =====
-- The server at concrete requests, next to an installed session: two measurements of one rule, and a
-- path that it does not know.
use ebpf_upf.Prelude.{ℕ, ℤ, pos, ◌≡◌, refl, List, [], ◌∷◌, Option, some, codes, length, arith}
use ebpf_upf.Python.{Result, ok}
use ebpf_upf.Python.Exec.{Exec, lift}
use ebpf_upf.Python.Struct.{Bytes}
use ebpf_upf.Maps.Logic.{Reaches, Triple-lift}
use ebpf_upf.Agent.Metrics.{DumpEntry}
use ebpf_upf.Agent.Http.Answers.{Report}
use ebpf_upf.Agent.Server.{serve}
use ebpf_upf.Agent.Frame.{ReadsOnly}
use ebpf_upf.Agent.Server.Spares.{Untouched, serve_spares}
use ebpf_upf.Examples.Start.{maps}
use ebpf_upf.Examples.Agent.{start, start-IsOpen}

abbrev ticks : ℕ → ℕ
ticks k = k

abbrev no_dump : {W : Type 0} → Exec W (List DumpEntry)
no_dump = lift (ok [])

no_dump_reads : ReadsOnly maps no_dump
no_dump_reads J = Triple-lift maps (ok []) (λ a m h j. j) (λ e m h j. j)

abbrev asked : Bytes → Option (List Bytes)
asked path = some (codes "1" ∷ [])

abbrev as_one : Bytes → Result ℤ
as_one text = ok (pos 1)

abbrev dumps : Report → Bytes
dumps r = codes "{}"

abbrev requests : List Bytes
requests = codes "/ruleupdate?n=1" ∷ codes "/favicon.ico" ∷ codes "/ruleupdate?n=1" ∷ []

serve_spares_example :
    Reaches maps
      (Untouched 0x1000 0x2000 (maps.content start))
      (λ answers m. (length answers ≡ 3) × Untouched 0x1000 0x2000 (maps.content start) m)
      (λ e m. ⊥)
      (serve maps ticks no_dump asked as_one dumps requests start)
serve_spares_example =
    serve_spares maps ticks no_dump asked as_one dumps requests 0x1000 0x2000 start no_dump_reads
      (omega arith) (omega arith) start-IsOpen refl
