-- ===== src/Agent/Bpftool.antt =====
-- `map_dump` of loader/agent.py and its kin: the call of bpftool. `subprocess.run` with its output
-- captured, and `json.loads`, are parameters; words and texts are lists of codes.
use ebpf_upf.Prelude.{String, List, [], ◌∷◌, ◌++◌, map, All, codes, Bool, true, ◌≡◌}
use ebpf_upf.Python.{Result, ok}
use ebpf_upf.Python.Exec.{Exec, lift, ◌>>=◌}
use ebpf_upf.Python.Struct.{Bytes, IsByte}
use ebpf_upf.Maps.{PinnedMaps}
use ebpf_upf.Maps.Logic.{Triple-bind, Triple-lift}
use ebpf_upf.Agent.Frame.{ReadsOnly}
use ebpf_upf.Agent.Metrics.{DumpEntry, literal_bytes}
use ebpf_upf.Agent.Metrics.Dump.{hex_text, literal_bytes-hex_text}

abbrev pub bytes_to_hexargs : Bytes → List Bytes
bytes_to_hexargs b = map hex_text b

module _ (M : PinnedMaps) (subprocess_run : List Bytes → Bool → Exec M.World Bytes)
    (loads : Bytes → Result (List DumpEntry)) (bpftool pin_base : Bytes) where
  -- `run(cmd)`, with its default `check=True`, and the captured output.
  abbrev pub run : List Bytes → Exec M.World Bytes
  run cmd = subprocess_run cmd true

  abbrev pub dump_command : String → List Bytes
  dump_command name =
      codes "sudo"
      ∷ bpftool
      ∷ codes "-j"
      ∷ codes "map"
      ∷ codes "dump"
      ∷ codes "pinned"
      ∷ (pin_base ++ (47 ∷ codes name))
      ∷ []

  unfoldable pub map_dump : String → Exec M.World (List DumpEntry)
  map_dump name = do out ← run (dump_command name); lift (loads out)

  -- If the subprocess writes no map, a dump writes none.
  map_dump-ReadsOnly :
      ((cmd : List Bytes) → ReadsOnly M (run cmd)) → (name : String) → ReadsOnly M (map_dump name)
  unfolding map_dump
  map_dump-ReadsOnly reads name J =
      Triple-bind M (reads (dump_command name) J)
        (λ out. Triple-lift M (loads out) (λ a m h j. j) (λ e m h j. j))

-- The arguments for bpftool are read back as they are printed by it.
literal_bytes-bytes_to_hexargs :
    (b : Bytes) → All IsByte b → literal_bytes (bytes_to_hexargs b) ≡ ok b
literal_bytes-bytes_to_hexargs b h = literal_bytes-hex_text b h
