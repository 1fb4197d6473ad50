-- ===== src/Agent/Http.antt =====
-- The request handler of loader/agent.py. What the standard library does of a request is a
-- parameter: `query` is `parse_qs(urlparse(path).query).get("n")`, `int_of` is `int` of a text,
-- `dumps` is `json.dumps` of the report, and `dump` runs bpftool on the array `metrics` and parses
-- what it prints. Paths and bodies are ASCII text, as lists of codes, which `encode` leaves as they
-- are.
pub mod Answers
pub mod Outcomes
use ebpf_upf.Prelude.{ℕ, ℤ, List, codes, Option, if◌then◌else◌}
use ebpf_upf.Python.{Result}
use ebpf_upf.Python.Exec.{Exec, pure, lift, ◌>>=◌}
use ebpf_upf.Python.Struct.{Bytes}
use ebpf_upf.Maps.{PinnedMaps}
use ebpf_upf.Agent.Batches.{measure_rule_update}
use ebpf_upf.Agent.Metrics.{DumpEntry}
use ebpf_upf.Agent.Http.Answers.{
  Response, Report, text_plain, send, answer_metrics, answer_report, rounds, same_text, starts_with,
  first_n,
}

module _ (M : PinnedMaps) (clock : ℕ → ℕ) (dump : Exec M.World (List DumpEntry))
    (query : Bytes → Option (List Bytes)) (int_of : Bytes → Result ℤ) (dumps : Report → Bytes) where
  open M use {World}

  unfoldable pub get_metrics : Exec World Response
  unfolding answer_metrics
  get_metrics = do raw ← dump; lift (answer_metrics raw)

  unfoldable pub get_ruleupdate : Bytes → Exec World Response
  unfolding first_n answer_report
  get_ruleupdate path = do
    text ← lift (first_n (query path))
    n ← lift (int_of text)
    measured ← measure_rule_update M clock (rounds n)
    lift (answer_report dumps n measured)

  unfoldable pub do_get : Bytes → Exec World Response
  unfolding same_text starts_with send get_metrics get_ruleupdate
  do_get path =
      if same_text path (codes "/metrics")
      then get_metrics
      else if starts_with (codes "/ruleupdate") path
      then get_ruleupdate path
      else if same_text path (codes "/healthz")
      then pure (send 200 (codes "ok\n") text_plain)
      else pure (send 404 (codes "not found\n") text_plain)
