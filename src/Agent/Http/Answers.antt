-- ===== src/Agent/Http/Answers.antt =====
-- What the handler of loader/agent.py answers with, and the percentiles of /ruleupdate.
use ebpf_upf.Prelude.{
  ℕ, ◌*◌, ◌/◌, ℤ, pos, negsuc, List, [], ◌∷◌, Option, none, some, codes, length, ◌==◌, Bool, true,
  false, ◌&&◌,
}
use ebpf_upf.Python.{Result, ok, err, index_error, ◌>>=◌}
use ebpf_upf.Python.Struct.{Bytes}
use ebpf_upf.Python.Sorting.{sorted, item, min_of, max_of}
use ebpf_upf.Agent.Metrics.{DumpEntry, prometheus_text}
use ebpf_upf.Agent.Metrics.Decimal.{decimal}

-- What a handler writes: the status, the two headers and the body.
pub record Response : Type 0 where
  pub status : ℕ
  pub content_type : Bytes
  pub content_length : Bytes
  pub body : Bytes

abbrev pub text_plain : Bytes
text_plain = codes "text/plain; charset=utf-8"

abbrev pub application_json : Bytes
application_json = codes "application/json"

unfoldable pub send : ℕ → Bytes → Bytes → Response
unfolding decimal
send code b ctype = record {
  status = code;
  content_type = ctype;
  content_length = decimal (length b);
  body = b;
}

-- The fields of the body of /ruleupdate. Times are in nanoseconds: the division to milliseconds and
-- microseconds and the rounding are left to `dumps`.
pub record Report : Type 0 where
  pub n_rules : ℤ
  pub total_ns : ℕ
  pub p50 : ℕ
  pub p95 : ℕ
  pub p99 : ℕ
  pub min_ns : ℕ
  pub max_ns : ℕ

-- `sorted(per_us)[int(len(per_us) * 0.95)]` for q = 95. For a length below 2^45 the product of the
-- doubles has the same integer part as the exact one.
unfoldable pub percentile : List ℕ → ℕ → Result ℕ
unfolding sorted item
percentile per_ns q = item (sorted per_ns) (length per_ns * q / 100)

-- `sorted(per_us)[len(per_us)//2]`
unfoldable pub middle : List ℕ → Result ℕ
unfolding sorted item
middle per_ns = item (sorted per_ns) (length per_ns / 2)

unfoldable pub report : ℤ → ℕ → List ℕ → Result Report
unfolding percentile middle min_of max_of
report n total per_ns = do
  p50 ← middle per_ns
  p95 ← percentile per_ns 95
  p99 ← percentile per_ns 99
  least ← min_of per_ns
  greatest ← max_of per_ns
  ok record {
    n_rules = n;
    total_ns = total;
    p50 = p50;
    p95 = p95;
    p99 = p99;
    min_ns = least;
    max_ns = greatest;
  }

-- `range(n)` has no element for n below 0.
abbrev pub rounds : ℤ → ℕ
rounds (pos n) = n
rounds (negsuc n) = 0

unfoldable pub same_text : Bytes → Bytes → Bool
same_text [] [] = true
same_text [] (d ∷ t) = false
same_text (c ∷ s) [] = false
same_text (c ∷ s) (d ∷ t) = c == d && same_text s t

-- `path.startswith(prefix)`
unfoldable pub starts_with : Bytes → Bytes → Bool
starts_with [] s = true
starts_with (c ∷ p) [] = false
starts_with (c ∷ p) (d ∷ s) = c == d && starts_with p s

-- `q.get("n", ["100"])[0]`
unfoldable pub first_n : Option (List Bytes) → Result Bytes
first_n none = ok (codes "100")
first_n (some []) = err index_error
first_n (some (n ∷ ns)) = ok n

unfoldable pub answer_metrics : List DumpEntry → Result Response
unfolding send prometheus_text
answer_metrics raw = do text ← prometheus_text raw; ok (send 200 text text_plain)

unfoldable pub answer_report : (Report → Bytes) → ℤ → ℕ × List ℕ → Result Response
unfolding send report
answer_report dumps n (total, per_ns) = do
  r ← report n total per_ns
  ok (send 200 (dumps r) application_json)
