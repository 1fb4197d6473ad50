-- ===== src/Agent/Http/Outcomes.antt =====
-- What do_GET of loader/agent.py answers, on every branch that can fail.
use ebpf_upf.Prelude.{
  ℕ, zero, suc, ◌+◌, ◌-◌, ◌*◌, ◌/◌, ◌^◌, ◌≤◌, ◌<◌, ℤ, pos, ◌≡◌, refl, ap, ◌∙◌, ◌⊎◌, inl, inr,
  String, List, [], ◌∷◌, Option, some, codes, length, map, true, false, All, arith,
}
use ebpf_upf.Python.{Result, ok, err, os_error, index_error}
use ebpf_upf.Python.Exec.{Exec, lift, resume}
use ebpf_upf.Python.Struct.{Bytes}
use ebpf_upf.Python.Sorting.{
  sorted, item, HasRank, sorted-HasRank, length-sorted, get_elem?-below, min_of-HasRank,
  max_of-HasRank, item-get_elem?, min_of_total, max_of_total,
}
use ebpf_upf.Maps.{PinnedMaps}
use ebpf_upf.Agent.Sessions.Presence.{Resolved}
use ebpf_upf.Agent.Batches.{measure_rule_update, install_timed, remove_sessions}
use ebpf_upf.Agent.Batches.Samples.{between, Measured, measure_ends}
use ebpf_upf.Agent.Metrics.{
  DumpEntry, Dict, dict_get, read_metrics, metrics_text, prometheus_text, metric_names, or_zero,
}
use ebpf_upf.Agent.Metrics.Scrape.{read_scrape, read_out, read_scrape-metrics_text}
use ebpf_upf.Agent.Metrics.Dump.{entry_of}
use ebpf_upf.Agent.Metrics.Totals.{totals, Fits, read_metrics-printed}
use ebpf_upf.Agent.Http.{do_get, get_metrics, get_ruleupdate}
use ebpf_upf.Agent.Http.Answers.{
  Response, Report, send, answer_metrics, answer_report, report, percentile, middle, rounds,
  same_text, starts_with, first_n, application_json, text_plain,
}

-- What each field of the report is, among the samples as they were taken.
pub record Ranked (n : ℤ) (total : ℕ) (samples : List ℕ) (r : Report) : Type 0 where
  pub n_rules : r.n_rules ≡ n
  pub total_ns : r.total_ns ≡ total
  pub p50 : HasRank samples (length samples / 2) r.p50
  pub p95 : HasRank samples (length samples * 95 / 100) r.p95
  pub p99 : HasRank samples (length samples * 99 / 100) r.p99
  pub min_ns : HasRank samples 0 r.min_ns
  pub max_ns : HasRank samples (length samples - 1) r.max_ns

pub item-HasRank :
    (l : List ℕ) (k : ℕ) → k < length l → (v : ℕ) × (item (sorted l) k ≡ ok v) × HasRank l k v
item-HasRank l k h =
    let (v, found) = get_elem?-below (sorted l) k (omega (arith, length-sorted l)) in
    (v, item-get_elem? (sorted l) k v found, sorted-HasRank l k v found)

report-Ranked :
    (n : ℤ) (total : ℕ) (samples : List ℕ)
    → 0 < length samples
    → (r : Report) × (report n total samples ≡ ok r) × Ranked n total samples r
report-Ranked n total samples h =
    let (p50, e50, r50) = item-HasRank samples (length samples / 2) (omega arith) in
    let (p95, e95, r95) = item-HasRank samples (length samples * 95 / 100) (omega arith) in
    let (p99, e99, r99) = item-HasRank samples (length samples * 99 / 100) (omega arith) in
    let (low, e_low) = min_of_total samples h in
    let (high, e_high) = max_of_total samples h in
    (
      record {
        n_rules = n;
        total_ns = total;
        p50 = p50;
        p95 = p95;
        p99 = p99;
        min_ns = low;
        max_ns = high;
      },
      unfold report middle percentile in rw (e50, e95, e99, e_low, e_high),
      record {
        n_rules = refl;
        total_ns = refl;
        p50 = r50;
        p95 = r95;
        p99 = r99;
        min_ns = min_of-HasRank samples low e_low;
        max_ns = max_of-HasRank samples high e_high;
      },
    )

pub length-between : (clock : ℕ → ℕ) (n i : ℕ) → length (between clock n i) ≡ n
length-between clock zero i = refl
length-between clock (suc n) i = ap suc (length-between clock n (i + 1))

-- A path that starts with /ruleupdate is not /metrics.
not_metrics :
    (path : Bytes)
    → starts_with (codes "/ruleupdate") path ≡ true
    → same_text path (codes "/metrics") ≡ false
unfolding starts_with same_text
not_metrics [] h = refl
not_metrics (c ∷ []) h = ground arith
not_metrics (c ∷ d ∷ path) h = ground arith

answer_metrics_reads :
    (raw : List DumpEntry) (out : Dict)
    → read_metrics raw ≡ ok out
    → answer_metrics raw ≡ ok (send 200 (metrics_text out) text_plain)
unfolding answer_metrics prometheus_text
answer_metrics_reads raw out h = rw h

-- Each stage with its count, and 0 where there is none.
abbrev pub labelled : List String → List (Option ℕ) → List (Bytes × ℕ)
labelled [] counts = []
labelled (name ∷ names) [] = []
labelled (name ∷ names) (o ∷ counts) = (codes name, or_zero o) ∷ labelled names counts

read_out-labelled :
    (out : Dict) (names : List String)
    → map (read_out out) names ≡ labelled names (map (λ name. dict_get name out) names)
read_out-labelled out [] = refl
read_out-labelled out (name ∷ names) = ap (λ l. read_out out name ∷ l) (read_out-labelled out names)

module _ (M : PinnedMaps) (clock : ℕ → ℕ) (dump : Exec M.World (List DumpEntry))
    (query : Bytes → Option (List Bytes)) (int_of : Bytes → Result ℤ) (dumps : Report → Bytes)
    (path : Bytes) (w : M.World) where
  -- A request to measure `n` rules.
  abbrev pub Asks : ℤ → Type 0
  Asks n =
      (starts_with (codes "/ruleupdate") path ≡ true)
      × ((text : Bytes) × (first_n (query path) ≡ ok text) × (int_of text ≡ ok n))

  -- What is answered once the rules are measured.
  abbrev finish : ℤ → Result (ℕ × List ℕ) → M.World → Result Response × M.World
  finish n r = resume r (λ measured. lift (answer_report dumps n measured))

  ruleupdate_step :
      (n : ℤ)
      → Asks n
      → do_get M clock dump query int_of dumps path w
        ≡ finish n
            (measure_rule_update M clock (rounds n) w).0
            (measure_rule_update M clock (rounds n) w).1
  unfolding do_get get_ruleupdate
  ruleupdate_step n (starts, (text, given, parsed)) =
      rw (not_metrics path starts, starts, given, parsed)

  -- The answer with a report.
  abbrev pub Reported : ℕ → Result Response → Type 0
  Reported n result =
      (r : Report) × (result ≡ ok (send 200 (dumps r) application_json))
      × Ranked (pos n) (clock (1 + 2 * n) - clock 0) (between clock n 0) r

  finish_reports :
      (n : ℕ) (r : Result (ℕ × List ℕ)) (w' : M.World)
      → 0 < n
      → Measured M clock n r
      → Reported n (finish (pos n) r w').0
        ⊎ ((x : ℤ) × ((finish (pos n) r w').0 ≡ err (os_error x)))
  finish_reports n r w' h (inl done) =
      let (rep, made, ranked) =
        report-Ranked (pos n) (clock (1 + 2 * n) - clock 0) (between clock n 0)
          (omega (arith, length-between clock n 0)) in
      inl (rep, unfold answer_report in rw (done, made), ranked)
  finish_reports n r w' h (inr (x, failed)) = inr (x, rw failed)

  -- For a request of /ruleupdate that asks for n > 0 rules, as many as have identifiers of 32 bits,
  -- from any world where every session leads to a PDR and a bundle, whatever the kernel refuses:
  -- either an `OSError` is raised, or the answer is 200 with the JSON text of a report, and no
  -- index of a percentile is out of range. The report has the number that was asked for, the time
  -- of all installations, and of the n samples the elements of the ranks n / 2, n * 95 / 100 and
  -- n * 99 / 100, the smallest and the largest.
  pub ruleupdate_reports :
      (n : ℕ)
      → 0 < n
      → Asks (pos n)
      → M.IsOpen w
      → All Resolved (M.passed w)
      → Resolved (M.content w)
      → 0x20000 + n ≤ 2 ^ 32
      → Reported n (do_get M clock dump query int_of dumps path w).0
        ⊎ ((x : ℤ) × ((do_get M clock dump query int_of dumps path w).0 ≡ err (os_error x)))
  ruleupdate_reports n h asks o s c fits = rw (ruleupdate_step (pos n) asks) (
      finish_reports n (measure_rule_update M clock n w).0 (measure_rule_update M clock n w).1 h
        (measure_ends M clock n w o s c fits))

  -- A request of /ruleupdate that asks for no rule, or for a negative number of them, raises
  -- `IndexError` and changes nothing, whatever the world.
  pub ruleupdate_none_refused :
      (n : ℤ)
      → rounds n ≡ 0
      → Asks n
      → do_get M clock dump query int_of dumps path w ≡ (err index_error, w)
  unfolding measure_rule_update install_timed remove_sessions answer_report report middle item
      sorted
  ruleupdate_none_refused n h asks = rw (ruleupdate_step n asks, h)

-- What /metrics answers when bpftool prints the array metrics, with indices of 32 bits and counts
-- of 64 bits: the answer is 200, and a scraper reads from its body one sample for each of the 21
-- stages, in order, with the sum over the CPUs of the stage's last entry, or 0 if it has none.
pub metrics_scraped :
    (M : PinnedMaps) (clock : ℕ → ℕ) (dump : Exec M.World (List DumpEntry))
    (query : Bytes → Option (List Bytes)) (int_of : Bytes → Result ℤ) (dumps : Report → Bytes)
    (w w' : M.World) (es : List (ℕ × List ℕ))
    → dump w ≡ (ok (map entry_of es), w')
    → All Fits es
    → (text : Bytes) × (do_get M clock dump query int_of dumps (codes "/metrics") w
        ≡ (ok (send 200 text text_plain), w'))
      × (read_scrape text ≡ some (labelled metric_names (totals 0 metric_names es)))
unfolding do_get get_metrics same_text
metrics_scraped M clock dump query int_of dumps w w' es dumped fits =
    let (out, reads, same) = read_metrics-printed es fits in
    (
      metrics_text out,
      rw (dumped, answer_metrics_reads (map entry_of es) out reads),
      read_scrape-metrics_text out
          ∙ ap some (read_out-labelled out metric_names ∙ ap (labelled metric_names) same),
    )
