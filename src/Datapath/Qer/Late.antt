-- ===== src/Datapath/Qer/Late.antt =====
-- What a late arrival does to the shared token bucket of bpf/upf_tc.c: a packet whose time was read
-- before that of the packet which had the lock before it.
use ebpf_upf.Prelude.{
  ℕ, zero, suc, ◌+◌, ◌-◌, ◌*◌, ◌≤◌, ◌<◌, ◌≡◌, refl, ap, ◌∙◌, List, [], ◌∷◌, Bool, true, false, leb,
  if◌then◌else◌, arith,
}
use ebpf_upf.Datapath.Tables.{QerVal}
use ebpf_upf.Datapath.Qer.{
  Bucket, shared_lock, elapsed, capped, refill, top_up, take_tokens, meter, meter_all,
}

abbrev pub empty_at : ℕ → Bucket
empty_at t = record { tokens_bytes = 0; last_ns = t }

-- So many times, a late packet of `l` bytes and one of `r` bytes in time.
abbrev pub late_pairs : ℕ → ℕ → ℕ → ℕ → ℕ → List (ℕ × ℕ)
late_pairs t1 l t2 r zero = []
late_pairs t1 l t2 r (suc n) = (t1, l) ∷ (t2, r) ∷ late_pairs t1 l t2 r n

no_refill : (mbr : ℕ) → refill (capped 0) mbr ≡ 0
unfolding refill capped
no_refill mbr = omega arith

late_top_up :
    (qv : QerVal) (t1 t2 : ℕ)
    → 0 < t2
    → t1 ≤ t2
    → top_up shared_lock qv t1 (empty_at t2) ≡ empty_at t1
unfolding top_up elapsed
late_top_up qv t1 t2 used late = ground (arith, no_refill qv.mbr_ul_bps)

timely_top_up :
    (qv : QerVal) (t1 t2 : ℕ)
    → 0 < t1
    → t1 < t2
    → qv.burst_bytes < 4294967296
    → refill (capped (t2 - t1)) qv.mbr_ul_bps ≤ qv.burst_bytes
    → top_up shared_lock qv t2 (empty_at t1)
      ≡ record { tokens_bytes = refill (capped (t2 - t1)) qv.mbr_ul_bps; last_ns = t2 }
unfolding top_up elapsed
timely_top_up qv t1 t2 used later small fits = ground arith

late_dropped :
    (qv : QerVal) (t1 l t2 : ℕ)
    → 0 < t2
    → t1 ≤ t2
    → 0 < l
    → meter shared_lock qv t1 l (empty_at t2) ≡ (empty_at t1, false)
unfolding meter take_tokens
late_dropped qv t1 l t2 used late some_bytes =
    let short : leb l 0 ≡ false = ground arith in rw (late_top_up qv t1 t2 used late, short) refl

timely_admitted :
    (qv : QerVal) (t1 t2 r : ℕ)
    → 0 < t1
    → t1 < t2
    → qv.burst_bytes < 4294967296
    → r ≤ qv.burst_bytes
    → refill (capped (t2 - t1)) qv.mbr_ul_bps ≡ r
    → meter shared_lock qv t2 r (empty_at t1) ≡ (empty_at t2, true)
unfolding meter take_tokens
timely_admitted qv t1 t2 r used later small fits granted =
    let full : leb r r ≡ true = ground arith in
    let spent : r - r ≡ 0 = omega arith in
    rw
      (timely_top_up qv t1 t2 used later small (omega (arith, granted, fits)), granted, full, spent)
      refl

meter_all_next :
    (qv : QerVal) (now pkt_len : ℕ) (ps : List (ℕ × ℕ)) (st st' : Bucket) (admitted : Bool)
    → meter shared_lock qv now pkt_len st ≡ (st', admitted)
    → (meter_all shared_lock qv ((now, pkt_len) ∷ ps) st).1
      ≡ (if admitted then pkt_len else 0) + (meter_all shared_lock qv ps st').1
unfolding meter_all
meter_all_next qv now pkt_len ps st st' admitted step = rw step refl

-- In the shared build, for times 0 < t1 < t2, a bucket that is empty at t2, and a burst of 32 bits
-- that is at least what the rate is worth between the two times: of n pairs of a packet that arrives
-- late, with the time t1, and one with the time t2 and the length that the interval is worth, all n
-- packets of the second kind are admitted. The interval is granted n times over.
pub late_arrivals_overshoot :
    (qv : QerVal) (t1 l t2 r n : ℕ)
    → 0 < t1
    → t1 < t2
    → 0 < l
    → qv.burst_bytes < 4294967296
    → r ≤ qv.burst_bytes
    → refill (capped (t2 - t1)) qv.mbr_ul_bps ≡ r
    → (meter_all shared_lock qv (late_pairs t1 l t2 r n) (empty_at t2)).1 ≡ n * r
late_arrivals_overshoot qv t1 l t2 r zero used later some_bytes small fits granted =
    unfold meter_all in omega arith
late_arrivals_overshoot qv t1 l t2 r (suc n) used later some_bytes small fits granted =
    let rest : List (ℕ × ℕ) = late_pairs t1 l t2 r n in
    meter_all_next qv t1 l ((t2, r) ∷ rest) (empty_at t2) (empty_at t1) false
      (late_dropped qv t1 l t2 (omega (arith, used, later)) (omega (arith, later)) some_bytes)
    ∙ ap (λ x. 0 + x)
        (meter_all_next qv t2 r rest (empty_at t1) (empty_at t2) true
          (timely_admitted qv t1 t2 r used later small fits granted))
    ∙ grind (arith, late_arrivals_overshoot qv t1 l t2 r n used later some_bytes small fits granted)
