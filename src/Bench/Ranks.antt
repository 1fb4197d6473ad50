-- ===== src/Bench/Ranks.antt =====
-- What bench_eupf_ruleupdate.py reports, and how it ends.
use ebpf_upf.Prelude.{
  ℕ, zero, suc, ◌+◌, ◌-◌, ◌*◌, ◌/◌, ◌<◌, ◌≡◌, ◌⊎◌, inl, inr, refl, List, ◌∷◌, length, arith,
}
use ebpf_upf.Python.{Exception, Result, ok, err}
use ebpf_upf.Python.Exec.{Exec, pure, lift, resume, exec_inv, ◌>>=◌}
use ebpf_upf.Python.Sorting.{sorted, HasRank, length-sorted}
use ebpf_upf.Python.Struct.{Bytes}
use ebpf_upf.Agent.Batches.Samples.{between}
use ebpf_upf.Agent.Http.Outcomes.{item-HasRank, length-between}
use ebpf_upf.Bench.{Summary, pct, summarise, summary_of, sum_of}
use ebpf_upf.Bench.Requests.{put_pdr, put_timed, bench}

pub record Ranked (n total : ℕ) (samples : List ℕ) (r : Summary) : Type 0 where
  pub count : r.n ≡ n
  pub total_ns : r.total_ns ≡ total
  pub mean_ns : r.mean_ns ≡ sum_of samples / n
  pub min_ns : HasRank samples 0 r.min_ns
  pub p50 : HasRank samples ((n - 1) * 50 / 100) r.p50
  pub p95 : HasRank samples ((n - 1) * 95 / 100) r.p95
  pub p99 : HasRank samples ((n - 1) * 99 / 100) r.p99
  pub max_ns : HasRank samples (n - 1) r.max_ns

summary-Ranked :
    (n total : ℕ) (samples : List ℕ)
    → length samples ≡ suc n
    → (r : Summary) × (summary_of (suc n) total samples ≡ ok r) × Ranked (suc n) total samples r
unfolding summary_of summarise pct
summary-Ranked n total samples len =
    let (low, e_low, r_low) = item-HasRank samples 0 (omega (arith, len)) in
    let (p50, e50, r50) = item-HasRank samples ((suc n - 1) * 50 / 100) (omega (arith, len)) in
    let (p95, e95, r95) = item-HasRank samples ((suc n - 1) * 95 / 100) (omega (arith, len)) in
    let (p99, e99, r99) = item-HasRank samples ((suc n - 1) * 99 / 100) (omega (arith, len)) in
    let (high, e_high, r_high) = item-HasRank samples (suc n - 1) (omega (arith, len)) in
    let last : length (sorted samples) - 1 ≡ suc n - 1 =
      omega (arith, length-sorted samples, len) in
    (
      record {
        n = suc n;
        total_ns = total;
        mean_ns = sum_of samples / suc n;
        min_ns = low;
        p50 = p50;
        p95 = p95;
        p99 = p99;
        max_ns = high;
      },
      rw (last, e_low, e50, e95, e99, e_high),
      record {
        count = refl;
        total_ns = refl;
        mean_ns = refl;
        min_ns = r_low;
        p50 = r50;
        p95 = r95;
        p99 = r99;
        max_ns = r_high;
      },
    )

module _ {S : Type 0} (request : Bytes → Bytes → Exec S Bytes) (clock : ℕ → ℕ) where
  put_timed-between :
      (n i base_id : ℕ) (s : S) {samples : List ℕ}
      → (put_timed request clock n i base_id s).0 ≡ ok samples
      → samples ≡ between clock n i
  unfolding put_timed
  put_timed-between zero i base_id s h = cc
  put_timed-between (suc n) i base_id s h =
      let sample : ℕ = clock (2 + 2 * i) - clock (1 + 2 * i) in
      let put = put_pdr request clock (base_id + i) 2 0 in
      let (u, hu, rest) =
        exec_inv put (λ _. put_timed request clock n (i + 1) base_id >>= λ l. pure (sample ∷ l)) s
          h in
      let (l, hl, last) =
        exec_inv (put_timed request clock n (i + 1) base_id) (λ l. pure (sample ∷ l)) (put s).1
          rest in
      let same : l ≡ between clock n (i + 1) = put_timed-between n (i + 1) base_id (put s).1 hl in
      cc

  -- The end of the run, by how the requests ended.
  abbrev finish : ℕ → Result (List ℕ) → S → Result (Summary × List ℕ) × S
  finish n r = resume r (λ samples.
      lift (summary_of n (clock (1 + 2 * n) - clock 0) samples) >>= λ summary.
      pure (summary, samples))

  -- The samples are returned with a summary that ranks them, or a request's exception is.
  abbrev pub Benched : ℕ → Result (List ℕ) → Result (Summary × List ℕ) → Type 0
  Benched n requests result =
      ((r : Summary) × (result ≡ ok (r, between clock n 0))
        × Ranked n (clock (1 + 2 * n) - clock 0) (between clock n 0) r)
      ⊎ ((e : Exception) × (requests ≡ err e) × (result ≡ err e))

  finish-Benched :
      (n : ℕ) (r : Result (List ℕ)) (s : S)
      → ((samples : List ℕ) → r ≡ ok samples → samples ≡ between clock (suc n) 0)
      → Benched (suc n) r (finish (suc n) r s).0
  finish-Benched n (err e) s h = inr (e, refl, refl)
  finish-Benched n (ok samples) s h =
      let same = h samples refl in
      let (r, made, ranked) =
        summary-Ranked n (clock (1 + 2 * suc n) - clock 0) (between clock (suc n) 0)
          (length-between clock (suc n) 0) in
      inl (r, rw (same, made), ranked)

  -- For n > 0 rules, any base and any server: either every request is answered, and the run returns
  -- the n times around them and reports their mean and the elements of the ranks 0, (n - 1) * 50 /
  -- 100, (n - 1) * 95 / 100, (n - 1) * 99 / 100 and n - 1, so that no index is out of range; or the
  -- exception of a request ends the run.
  pub bench-Benched :
      (n base_id : ℕ) (s : S)
      → 0 < n
      → Benched n (put_timed request clock n 0 base_id s).0 (bench request clock n base_id s).0
  unfolding bench
  bench-Benched zero base_id s h = absurd (omega arith)
  bench-Benched (suc n) base_id s h =
      finish-Benched n (put_timed request clock (suc n) 0 base_id s).0
        (put_timed request clock (suc n) 0 base_id s).1
        (λ samples e. put_timed-between (suc n) 0 base_id s e)
