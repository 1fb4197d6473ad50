-- ===== src/Bench.antt =====
-- results_native/eupf_comparison/bench_eupf_ruleupdate.py: the update of a rule by a REST call, timed.
-- `clock k` is reading number k of `time.monotonic_ns`, and `request` is
-- `urlopen(Request(url, data=body, method="PUT", ...), timeout=5).read()`. Times stay in nanoseconds.
pub mod Ranks
pub mod Requests
use ebpf_upf.Prelude.{ℕ, zero, suc, ◌+◌, ◌-◌, ◌*◌, ◌/◌, List, [], ◌∷◌, ◌++◌, codes, length}
use ebpf_upf.Python.{Result, ok, err, zero_division_error, ◌>>=◌}
use ebpf_upf.Python.Sorting.{sorted, item}
use ebpf_upf.Python.Struct.{Bytes}
use ebpf_upf.Agent.Metrics.Decimal.{decimal}

abbrev pub base_url : Bytes
base_url = codes "http://127.0.0.1:8080/api/v1"

-- `json.dumps` of the rule.
unfoldable pub pdr_body : ℕ → ℕ → ℕ → Bytes
unfolding decimal
pdr_body pdr_id far_id qer_id =
    codes "{\"id\": "
    ++ (decimal pdr_id
        ++ (codes ", \"outer_header_removal\": 1, \"far_id\": "
            ++ (decimal far_id ++ (codes ", \"qer_id\": " ++ (decimal qer_id ++ codes "}")))))

unfoldable pub pdr_url : ℕ → Bytes
unfolding decimal
pdr_url pdr_id = base_url ++ (codes "/uplink_pdr_map/" ++ decimal pdr_id)

abbrev pub sum_of : List ℕ → ℕ
sum_of [] = 0
sum_of (x ∷ xs) = x + sum_of xs

-- What is printed. The mean is rounded down here.
pub record Summary : Type 0 where
  pub n : ℕ
  pub total_ns : ℕ
  pub mean_ns : ℕ
  pub min_ns : ℕ
  pub p50 : ℕ
  pub p95 : ℕ
  pub p99 : ℕ
  pub max_ns : ℕ

-- `ss[int(p * (n - 1))]` for p = q / 100.
unfoldable pub pct : ℕ → List ℕ → ℕ → Result ℕ
unfolding item
pct n ss q = item ss ((n - 1) * q / 100)

unfoldable pub summarise : ℕ → ℕ → List ℕ → List ℕ → Result Summary
unfolding pct item
summarise n total samples ss = do
  p_min ← item ss 0
  p50 ← pct n ss 50
  p95 ← pct n ss 95
  p99 ← pct n ss 99
  p_max ← item ss (length ss - 1)
  ok record {
    n = n;
    total_ns = total;
    mean_ns = sum_of samples / n;
    min_ns = p_min;
    p50 = p50;
    p95 = p95;
    p99 = p99;
    max_ns = p_max;
  }

-- `sum(samples_us) / n` comes first.
unfoldable pub summary_of : ℕ → ℕ → List ℕ → Result Summary
unfolding summarise sorted
summary_of zero total samples = err zero_division_error
summary_of (suc n) total samples = summarise (suc n) total samples (sorted samples)
