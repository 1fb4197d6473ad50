-- ===== src/Datapath/Qer/Refill.antt =====
-- When a token bucket of bpf/upf_tc.c fills again, and when it does not.
use native.Mathlib.Nat.{mul-le-mul_right, mul-le-mul}
use ebpf_upf.Prelude.{
  ℕ, ◌-◌, ◌*◌, ◌/◌, ◌≤◌, ◌<◌, ◌≡◌, ap, sym, subst, ◌∙◌, List, [], ◌∷◌, true, arith,
}
use ebpf_upf.Datapath.Tables.{QerVal}
use ebpf_upf.Datapath.Qer.{
  Build, Bucket, u64_mod, elapsed, capped, refill, top_up, take_tokens, meter, meter_all,
}
use ebpf_upf.Datapath.Qer.Rate.{
  InOrder, elapsed_lem, capped-le, meter_pays, meter-last_ns, meter_all_step,
}

capped-le-second : (e : ℕ) → capped e ≤ 1000000000
unfolding capped
capped-le-second e = ground arith

-- Below 18.4 Gbit/s the product of a second and the rate fits 64 bits.
refill-exact :
    (e m : ℕ)
    → m ≤ 18446744073
    → (refill (capped e) m ≡ capped e * m / 8000000000) × (capped e * m / 8000000000 < 3000000000)
unfolding refill
refill-exact e m h =
    let bound : capped e * m ≤ 1000000000 * 18446744073 = mul-le-mul (capped-le-second e) h in
    (omega (arith, bound), omega (arith, bound))

top_up-ge :
    (build : Build) (qv : QerVal) (now : ℕ) (st : Bucket) (pkt_len : ℕ)
    → 0 < st.last_ns
    → st.tokens_bytes ≤ qv.burst_bytes
    → qv.burst_bytes < 4294967296
    → pkt_len ≤ qv.burst_bytes
    → refill (capped (elapsed build now st.last_ns)) qv.mbr_ul_bps < 3000000000
    → pkt_len ≤ refill (capped (elapsed build now st.last_ns)) qv.mbr_ul_bps
    → pkt_len ≤ (top_up build qv now st).tokens_bytes
unfolding top_up
top_up-ge build qv now st pkt_len used full small fits room enough = ground arith

meter-admits :
    (build : Build) (qv : QerVal) (now pkt_len : ℕ) (st : Bucket)
    → pkt_len ≤ (top_up build qv now st).tokens_bytes
    → (meter build qv now pkt_len st).1 ≡ true
unfolding meter take_tokens
meter-admits build qv now pkt_len st h = ground arith

-- In either build, for a rate up to 18446744073 bit/s, a burst of 32 bits, a bucket that has been
-- used and holds no more than the burst, and a clock of 64 bits that has not gone back: a packet
-- no longer than the burst is admitted once the time since the last packet, counted up to a
-- second, is worth the packet's bits at the rate, however empty the bucket was.
pub silence_refills :
    (build : Build) (qv : QerVal) (now pkt_len : ℕ) (st : Bucket)
    → 0 < st.last_ns
    → st.last_ns ≤ now
    → now < u64_mod
    → qv.mbr_ul_bps ≤ 18446744073
    → qv.burst_bytes < 4294967296
    → st.tokens_bytes ≤ qv.burst_bytes
    → pkt_len ≤ qv.burst_bytes
    → 8000000000 * pkt_len ≤ capped (now - st.last_ns) * qv.mbr_ul_bps
    → (meter build qv now pkt_len st).1 ≡ true
silence_refills build qv now pkt_len st used after fits slow small full room worth =
    let exact = elapsed_lem build now st.last_ns after fits in
    let (granted, bound) = refill-exact (now - st.last_ns) qv.mbr_ul_bps slow in
    let same : refill (capped (elapsed build now st.last_ns)) qv.mbr_ul_bps
        ≡ capped (now - st.last_ns) * qv.mbr_ul_bps / 8000000000 =
      ap (λ e. refill (capped e) qv.mbr_ul_bps) exact ∙ granted in
    meter-admits build qv now pkt_len st (
      top_up-ge build qv now st pkt_len used full small room (omega (arith, same, bound))
        (omega (arith, same, worth)))

-- Each packet follows the one before within less than a byte's worth of time at the rate.
abbrev pub Crowded : ℕ → ℕ → List (ℕ × ℕ) → Type 0
Crowded mbr t [] = Unit
Crowded mbr t ((now, pkt_len) ∷ ps) = ((now - t) * mbr < 8000000000) × Crowded mbr now ps

refill_nothing :
    (build : Build) (now last_ns m : ℕ)
    → last_ns ≤ now
    → now < u64_mod
    → (now - last_ns) * m < 8000000000
    → refill (capped (elapsed build now last_ns)) m ≡ 0
refill_nothing build now last_ns m after fits h =
    let e : ℕ = elapsed build now last_ns in
    let exact : e ≡ now - last_ns = elapsed_lem build now last_ns after fits in
    let within : capped e * m ≤ (now - last_ns) * m =
      mul-le-mul_right m (omega (arith, capped-le e, exact)) in
    unfold refill in omega (arith, within)

top_up-le_dense :
    (build : Build) (qv : QerVal) (now : ℕ) (st : Bucket)
    → 0 < st.last_ns
    → refill (capped (elapsed build now st.last_ns)) qv.mbr_ul_bps ≡ 0
    → (top_up build qv now st).tokens_bytes ≤ st.tokens_bytes
unfolding top_up
top_up-le_dense build qv now st used h = ground (arith, h)

-- In either build, at a bucket that has been used, and as long as the clock does not go back and
-- fits 64 bits: while each packet follows the one before so closely that the rate allows less than
-- a byte between them, the bucket never fills again. All that such a flow gets, however long it
-- lasts, is at most what the bucket held at its start.
pub dense_flow_starves :
    (build : Build) (qv : QerVal) (ps : List (ℕ × ℕ)) (st : Bucket)
    → 0 < st.last_ns
    → InOrder st.last_ns ps
    → Crowded qv.mbr_ul_bps st.last_ns ps
    → (meter_all build qv ps st).1 ≤ st.tokens_bytes
dense_flow_starves build qv [] st used order close = unfold meter_all in omega arith
dense_flow_starves build qv ((now, pkt_len) ∷ ps) st used (after, fits, order) (near, close) =
    let st' : Bucket = (meter build qv now pkt_len st).0 in
    let last : st'.last_ns ≡ now = meter-last_ns build qv now pkt_len st in
    let later =
      dense_flow_starves build qv ps st' (omega (arith, last))
        (subst (λ t. InOrder t ps) (sym last) order)
        (subst (λ t. Crowded qv.mbr_ul_bps t ps) (sym last) close) in
    let nothing = refill_nothing build now st.last_ns qv.mbr_ul_bps after fits near in
    omega (
      arith,
      later,
      meter_all_step build qv now pkt_len ps st,
      meter_pays build qv now pkt_len st,
      top_up-le_dense build qv now st used nothing,
    )
