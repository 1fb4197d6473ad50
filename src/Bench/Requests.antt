-- ===== src/Bench/Requests.antt =====
-- The loop of results_native/eupf_comparison/bench_eupf_ruleupdate.py, over the server as a parameter.
use ebpf_upf.Prelude.{ℕ, zero, suc, ◌+◌, ◌-◌, ◌*◌, List, [], ◌∷◌}
use ebpf_upf.Python.Exec.{Exec, pure, lift, ◌>>=◌, ◌>>◌}
use ebpf_upf.Python.Struct.{Bytes}
use ebpf_upf.Bench.{pdr_url, pdr_body, Summary, summary_of}

module _ {S : Type 0} (request : Bytes → Bytes → Exec S Bytes) (clock : ℕ → ℕ) where
  unfoldable pub put_pdr : ℕ → ℕ → ℕ → Exec S (Unit {0})
  unfolding pdr_body pdr_url
  put_pdr pdr_id far_id qer_id = do
    request (pdr_url pdr_id) (pdr_body pdr_id far_id qer_id)
    pure tt

  unfoldable pub put_timed : ℕ → ℕ → ℕ → Exec S (List ℕ)
  unfolding put_pdr
  put_timed zero i base_id = pure []
  put_timed (suc n) i base_id = do
    let s = clock (1 + 2 * i)
    put_pdr (base_id + i) 2 0
    let e = clock (2 + 2 * i)
    samples ← put_timed n (i + 1) base_id
    pure ((e - s) ∷ samples)

  -- What is printed, and the samples that are returned.
  unfoldable pub bench : ℕ → ℕ → Exec S (Summary × List ℕ)
  unfolding put_timed summary_of
  bench n base_id = do
    let t_start = clock 0
    samples ← put_timed n 0 base_id
    let t_end = clock (1 + 2 * n)
    summary ← lift (summary_of n (t_end - t_start) samples)
    pure (summary, samples)
