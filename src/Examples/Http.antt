-- ===== src/Examples/Http.antt =====
-- The metrics and the request handler, on concrete dumps and on the running kernel.
use ebpf_upf.Prelude.{
  ℕ, ◌*◌, ℤ, pos, ◌≡◌, refl, ◌⊎◌, List, [], ◌∷◌, Option, some, codes, map, arith,
}
use ebpf_upf.Python.{Result, ok, err, os_error, index_error}
use ebpf_upf.Python.Exec.{Exec, lift}
use ebpf_upf.Python.Hex.{hex_digit}
use ebpf_upf.Python.Struct.{Bytes, unpack, from_bytes}
use ebpf_upf.Agent.Metrics.{DumpEntry, read_entries, read_metrics, dict_set, metric_names}
use ebpf_upf.Agent.Metrics.Dump.{entry_of, cell_text}
use ebpf_upf.Agent.Metrics.Totals.{totals}
use ebpf_upf.Agent.Metrics.Scrape.{read_scrape}
use ebpf_upf.Agent.Http.{do_get}
use ebpf_upf.Agent.Http.Answers.{Report, send, text_plain, starts_with, first_n}
use ebpf_upf.Agent.Http.Outcomes.{
  Reported, labelled, ruleupdate_reports, ruleupdate_none_refused, metrics_scraped,
}
use ebpf_upf.Examples.Start.{maps, fresh, fresh-IsOpen, fresh-Resolved}

-- Two CPUs: an entry twice, and one past the names.
abbrev counters : List (ℕ × List ℕ)
counters = (0, 7 ∷ 5 ∷ []) ∷ (3, 1 ∷ 0 ∷ []) ∷ (40, 9 ∷ 9 ∷ []) ∷ (3, 2 ∷ 300 ∷ []) ∷ []

test_read_metrics : read_metrics (map entry_of counters) ≡ ok (("rx_total", 12) ∷ ("hit", 302) ∷ [])
unfolding read_entries cell_text hex_digit unpack from_bytes dict_set
test_read_metrics = refl

abbrev ticks : ℕ → ℕ
ticks k = k * 5

abbrev dump : {W : Type 0} → Exec W (List DumpEntry)
dump = lift (ok (map entry_of counters))

abbrev asks_two : Bytes → Option (List Bytes)
asks_two path = some (codes "2" ∷ [])

abbrev as_two : Bytes → Result ℤ
as_two text = ok (pos 2)

abbrev as_zero : Bytes → Result ℤ
as_zero text = ok (pos 0)

abbrev dumps : Report → Bytes
dumps r = codes "{}"

ruleupdate_reports_example :
    Reported maps ticks dump asks_two as_two dumps
      (codes "/ruleupdate?n=2")
      fresh
      2
      (do_get maps ticks dump asks_two as_two dumps (codes "/ruleupdate?n=2") fresh).0
    ⊎ ((x : ℤ) × ((do_get maps ticks dump asks_two as_two dumps (codes "/ruleupdate?n=2") fresh).0
          ≡ err (os_error x)))
unfolding starts_with first_n
ruleupdate_reports_example =
    ruleupdate_reports maps ticks dump asks_two as_two dumps (codes "/ruleupdate?n=2") fresh 2
      (omega arith) (refl, (codes "2", refl, refl)) fresh-IsOpen tt fresh-Resolved (omega arith)

ruleupdate_none_refused_example :
    do_get maps ticks dump asks_two as_zero dumps (codes "/ruleupdate?n=0") fresh
    ≡ (err index_error, fresh)
unfolding starts_with first_n
ruleupdate_none_refused_example =
    ruleupdate_none_refused maps ticks dump asks_two as_zero dumps (codes "/ruleupdate?n=0") fresh
      (pos 0) refl (refl, (codes "2", refl, refl))

metrics_scraped_example :
    (text : Bytes) × (do_get maps ticks dump asks_two as_two dumps (codes "/metrics") fresh
      ≡ (ok (send 200 text text_plain), fresh))
    × (read_scrape text ≡ some (labelled metric_names (totals 0 metric_names counters)))
metrics_scraped_example =
    metrics_scraped maps ticks dump asks_two as_two dumps fresh fresh counters refl (omega arith)
