-- ===== src/Datapath/Qer/Builds.antt =====
-- The two builds of the token bucket of bpf/upf_tc.c against each other, at one bucket.
use ebpf_upf.Prelude.{
  ℕ, ◌+◌, ◌≤◌, ◌<◌, ◌≡◌, refl, ap, sym, subst, ◌∙◌, List, [], ◌∷◌, Bool, if◌then◌else◌,
}
use ebpf_upf.Datapath.Tables.{QerVal}
use ebpf_upf.Datapath.Qer.{
  Build, per_cpu, shared_lock, Bucket, u64_mod, elapsed, top_up, take_tokens, meter, meter_all,
}
use ebpf_upf.Datapath.Qer.Rate.{InOrder, elapsed_lem, meter-last_ns}

top_up_same :
    (qv : QerVal) (now : ℕ) (st : Bucket)
    → st.last_ns ≤ now
    → now < u64_mod
    → top_up per_cpu qv now st ≡ top_up shared_lock qv now st
unfolding top_up
top_up_same qv now st after fits =
    let same : elapsed per_cpu now st.last_ns ≡ elapsed shared_lock now st.last_ns =
      elapsed_lem per_cpu now st.last_ns after fits
      ∙ sym (elapsed_lem shared_lock now st.last_ns after fits) in
    rw same

meter_same :
    (qv : QerVal) (now pkt_len : ℕ) (st : Bucket)
    → st.last_ns ≤ now
    → now < u64_mod
    → meter per_cpu qv now pkt_len st ≡ meter shared_lock qv now pkt_len st
unfolding meter
meter_same qv now pkt_len st after fits =
    ap (take_tokens pkt_len) (top_up_same qv now st after fits)

abbrev after_first :
    (build : Build) (qv : QerVal) (pkt_len : ℕ) (ps : List (ℕ × ℕ)) → Bucket × Bool → Bucket × ℕ
after_first build qv pkt_len ps (st', admitted) =
    let (st'', bytes) = meter_all build qv ps st' in
    (st'', (if admitted then pkt_len else 0) + bytes)

-- At one bucket, and as long as the clock does not go back and fits 64 bits, the two builds admit
-- the same number of bytes and leave the same bucket: the shared build's guard makes a difference
-- only for late arrivals.
pub builds_agree :
    (qv : QerVal) (ps : List (ℕ × ℕ)) (st : Bucket)
    → InOrder st.last_ns ps
    → meter_all per_cpu qv ps st ≡ meter_all shared_lock qv ps st
unfolding meter_all
builds_agree qv [] st h = refl
builds_agree qv ((now, pkt_len) ∷ ps) st (after, fits, rest) =
    let st' : Bucket = (meter per_cpu qv now pkt_len st).0 in
    let last : st'.last_ns ≡ now = meter-last_ns per_cpu qv now pkt_len st in
    let later = builds_agree qv ps st' (subst (λ t. InOrder t ps) (sym last) rest) in
    ap
      (λ (r : Bucket × ℕ).
        (r.0, (if (meter per_cpu qv now pkt_len st).1 then pkt_len else 0) + r.1))
      later
    ∙ ap (after_first shared_lock qv pkt_len ps) (meter_same qv now pkt_len st after fits)
