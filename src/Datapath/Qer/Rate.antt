-- ===== src/Datapath/Qer/Rate.antt =====
-- How much a token bucket of bpf/upf_tc.c admits in any window of time.
use native.Mathlib.Nat.{mul-le-mul_right, add-mul}
use ebpf_upf.Prelude.{
  ℕ, ◌+◌, ◌-◌, ◌*◌, ◌≤◌, ◌<◌, ◌≡◌, refl, ap, sym, subst, List, [], ◌∷◌, if◌then◌else◌, arith,
}
use ebpf_upf.Datapath.Tables.{QerVal}
use ebpf_upf.Datapath.Qer.{
  Build, per_cpu, shared_lock, Bucket, u64_mod, elapsed, capped, refill, top_up, take_tokens, meter,
  meter_all,
}

-- Times of the clock, in order, from `t` on.
abbrev pub InOrder : ℕ → List (ℕ × ℕ) → Type 0
InOrder t [] = Unit
InOrder t ((now, pkt_len) ∷ ps) = (t ≤ now) × (now < u64_mod) × InOrder now ps

-- The time of the last packet.
abbrev pub final : ℕ → List (ℕ × ℕ) → ℕ
final t [] = t
final t ((now, pkt_len) ∷ ps) = final now ps

pub elapsed_lem :
    (build : Build) (now last_ns : ℕ)
    → last_ns ≤ now
    → now < u64_mod
    → elapsed build now last_ns ≡ now - last_ns
unfolding elapsed
elapsed_lem per_cpu now last_ns h fits = omega arith
elapsed_lem shared_lock now last_ns h fits = ground arith

refill-le : (e m : ℕ) → 8000000000 * refill e m ≤ e * m
unfolding refill
refill-le e m = omega arith

pub capped-le : (e : ℕ) → capped e ≤ e
unfolding capped
capped-le e = ground arith

-- What a bucket gets is at most the rate times the time that has passed.
granted-le :
    (build : Build) (now last_ns m : ℕ)
    → last_ns ≤ now
    → now < u64_mod
    → 8000000000 * refill (capped (elapsed build now last_ns)) m ≤ (now - last_ns) * m
granted-le build now last_ns m h fits =
    let e : ℕ = elapsed build now last_ns in
    let exact : e ≡ now - last_ns = elapsed_lem build now last_ns h fits in
    let within : capped e * m ≤ (now - last_ns) * m =
      mul-le-mul_right m (omega (arith, capped-le e, exact)) in
    omega (arith, refill-le (capped e) m, within)

top_up-le :
    (build : Build) (qv : QerVal) (now : ℕ) (st : Bucket)
    → 0 < st.last_ns
    → st.last_ns ≤ now
    → now < u64_mod
    → 8000000000 * (top_up build qv now st).tokens_bytes
      ≤ 8000000000 * st.tokens_bytes + (now - st.last_ns) * qv.mbr_ul_bps
unfolding top_up
top_up-le build qv now st used h fits =
    ground (arith, granted-le build now st.last_ns qv.mbr_ul_bps)

pub top_up-le-burst :
    (build : Build) (qv : QerVal) (now : ℕ) (st : Bucket)
    → (top_up build qv now st).tokens_bytes ≤ qv.burst_bytes
unfolding top_up
top_up-le-burst build qv now st = ground arith

pub top_up-last_ns :
    (build : Build) (qv : QerVal) (now : ℕ) (st : Bucket) → (top_up build qv now st).last_ns ≡ now
unfolding top_up
top_up-last_ns build qv now st = ground arith

-- A packet that is admitted is paid for, and no other is.
pub meter_pays :
    (build : Build) (qv : QerVal) (now pkt_len : ℕ) (st : Bucket)
    → (meter build qv now pkt_len st).0.tokens_bytes
        + (if (meter build qv now pkt_len st).1 then pkt_len else 0)
      ≡ (top_up build qv now st).tokens_bytes
unfolding meter take_tokens
meter_pays build qv now pkt_len st = ground arith

pub meter-last_ns :
    (build : Build) (qv : QerVal) (now pkt_len : ℕ) (st : Bucket)
    → (meter build qv now pkt_len st).0.last_ns ≡ now
unfolding meter take_tokens
meter-last_ns build qv now pkt_len st = ground (arith, top_up-last_ns build qv now st)

le-final : (t : ℕ) (ps : List (ℕ × ℕ)) → InOrder t ps → t ≤ final t ps
le-final t [] h = omega arith
le-final t ((now, pkt_len) ∷ ps) (h, fits, rest) = omega (arith, le-final now ps rest)

-- Two spans of time, one after the other.
add_spans : (a b c m : ℕ) → a ≤ b → b ≤ c → (b - a) * m + (c - b) * m ≡ (c - a) * m
add_spans a b c m h k =
    let e : (b - a) + (c - b) ≡ c - a = omega arith in
    omega (arith, add-mul (b - a) (c - b) m, ap (λ (x : ℕ). x * m) e)

pub meter_all_step :
    (build : Build) (qv : QerVal) (now pkt_len : ℕ) (ps : List (ℕ × ℕ)) (st : Bucket)
    → (meter_all build qv ((now, pkt_len) ∷ ps) st).1
      ≡ (if (meter build qv now pkt_len st).1 then pkt_len else 0)
        + (meter_all build qv ps (meter build qv now pkt_len st).0).1
unfolding meter_all
meter_all_step build qv now pkt_len ps st = refl

meter_all-le :
    (build : Build) (qv : QerVal) (ps : List (ℕ × ℕ)) (st : Bucket)
    → 0 < st.last_ns
    → InOrder st.last_ns ps
    → 8000000000 * (meter_all build qv ps st).1
      ≤ 8000000000 * st.tokens_bytes + (final st.last_ns ps - st.last_ns) * qv.mbr_ul_bps
meter_all-le build qv [] st used h = unfold meter_all in omega arith
meter_all-le build qv ((now, pkt_len) ∷ ps) st used (after, fits, rest) =
    let st' : Bucket = (meter build qv now pkt_len st).0 in
    let last : st'.last_ns ≡ now = meter-last_ns build qv now pkt_len st in
    let later =
      meter_all-le build qv ps st' (omega (arith, last))
        (subst (λ t. InOrder t ps) (sym last) rest) in
    let spans =
      add_spans st.last_ns now (final now ps) qv.mbr_ul_bps after (le-final now ps rest) in
    let same : (final st'.last_ns ps - st'.last_ns) * qv.mbr_ul_bps
        ≡ (final now ps - now) * qv.mbr_ul_bps =
      ap (λ t. (final t ps - t) * qv.mbr_ul_bps) last in
    omega (
      arith,
      later,
      same,
      spans,
      meter_all_step build qv now pkt_len ps st,
      meter_pays build qv now pkt_len st,
      top_up-le build qv now st used after fits,
    )

-- In either build, for every bucket in whatever state, and for every window of time that starts
-- with a packet after time 0, and in which the clock does not go back and fits 64 bits: the bytes
-- that the bucket admits are at most the burst and the rate times the length of the window,
-- although the arithmetic wraps.
pub rate_bounded :
    (build : Build) (qv : QerVal) (st : Bucket) (start pkt_len : ℕ) (ps : List (ℕ × ℕ))
    → 0 < start
    → InOrder start ps
    → 8000000000 * (meter_all build qv ((start, pkt_len) ∷ ps) st).1
      ≤ 8000000000 * qv.burst_bytes + (final start ps - start) * qv.mbr_ul_bps
rate_bounded build qv st start pkt_len ps h order =
    let st' : Bucket = (meter build qv start pkt_len st).0 in
    let last : st'.last_ns ≡ start = meter-last_ns build qv start pkt_len st in
    let later =
      meter_all-le build qv ps st' (omega (arith, last))
        (subst (λ t. InOrder t ps) (sym last) order) in
    let same : (final st'.last_ns ps - st'.last_ns) * qv.mbr_ul_bps
        ≡ (final start ps - start) * qv.mbr_ul_bps =
      ap (λ t. (final t ps - t) * qv.mbr_ul_bps) last in
    omega (
      arith,
      later,
      same,
      meter_all_step build qv start pkt_len ps st,
      meter_pays build qv start pkt_len st,
      top_up-le-burst build qv start st,
    )
