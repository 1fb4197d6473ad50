-- ===== src/EndToEnd/Usage.antt =====
-- The usage of a URR across the system: what `upf_urr_update` of bpf/upf_tc.c counts on each CPU, as
-- bpftool prints it and `read_urr` of loader/agent.py adds it up.
pub mod Counted
use mathlib.Core.List.{map-append}
use ebpf_upf.Prelude.{
  ℕ, ◌+◌, ◌^◌, ◌<◌, ◌≡◌, refl, sym, ap, ◌∙◌, List, [], ◌∷◌, ◌++◌, some, map, All, Bool, true, false,
  ◌||◌, ◌==◌, ==_iff, Bool-cases, inl, inr, arith,
}
use ebpf_upf.Python.{ok}
use ebpf_upf.Datapath.Tables.{FarVal}
use ebpf_upf.Datapath.Ingress.{UrrVal, Urrs, Helpers, State, count_urr, redirect_out}
use ebpf_upf.Agent.Usage.{Usage, no_usage, read_urr}
use ebpf_upf.Agent.Usage.Printed.{
  IsUrr, IsEntry, add_usage, total_from, total, values_of, usage_entry, read_urr-printed,
}
use ebpf_upf.EndToEnd.Usage.Counted.{
  held, Grown, billed, count_urr-Grown, count_urr-IsUrr, redirect_out-urrs,
}

-- The dump of the entries of these URRs, over all CPUs.
abbrev pub printed : List ℕ → List Urrs → List (ℕ × List UrrVal)
printed ids cpus = map (λ i. (i, map (held i) cpus)) ids

abbrev pub usage_on : ℕ → List Urrs → Usage
usage_on i cpus = total_from no_usage (map (held i) cpus)

abbrev pub listed : ℕ → List ℕ → Bool
listed i [] = false
listed i (j ∷ js) = j == i || listed i js

values_of-printed :
    (i : ℕ) (ids : List ℕ) (cpus : List Urrs)
    → listed i ids ≡ true
    → values_of i (printed ids cpus) ≡ some (map (held i) cpus)
unfolding values_of
values_of-printed i [] cpus h = cc
values_of-printed i (j ∷ js) cpus h = elim (Bool-cases (j == i)) [
  | inl same ↦ rw (same, ap (λ k. some (map (held k) cpus)) ((==_iff j i).0 same)) refl
  | inr other ↦ rw (other, values_of-printed i js cpus (rw other at h)) refl
]

printed-IsEntry :
    (ids : List ℕ) (cpus : List Urrs)
    → All (λ i. (i < 2 ^ 32) × All IsUrr (map (held i) cpus)) ids
    → All IsEntry (printed ids cpus)
printed-IsEntry [] cpus h = tt
printed-IsEntry (i ∷ ids) cpus (h, hs) = (h, printed-IsEntry ids cpus hs)

-- What `read_urr` reports of all CPUs.
reported :
    (i : ℕ) (ids : List ℕ) (cpus : List Urrs)
    → listed i ids ≡ true
    → All (λ j. (j < 2 ^ 32) × All IsUrr (map (held j) cpus)) ids
    → read_urr i (map usage_entry (printed ids cpus)) ≡ ok (some (usage_on i cpus))
reported i ids cpus h valid =
    read_urr-printed i (printed ids cpus) (printed-IsEntry ids cpus valid)
    ∙ ap (λ vs. ok (total vs)) (values_of-printed i ids cpus h)

abbrev pub plus : Usage → ℕ → ℕ → Usage
plus u n k = record { bytes_ul = u.bytes_ul + n; pkts_ul = u.pkts_ul + k }

total_from-plus :
    (vs : List UrrVal) (u : Usage) (n k : ℕ)
    → total_from (plus u n k) vs ≡ plus (total_from u vs) n k
total_from-plus [] u n k = refl
total_from-plus (v ∷ vs) u n k =
    let b : u.bytes_ul + n + v.bytes_ul ≡ u.bytes_ul + v.bytes_ul + n = omega arith in
    let p : u.pkts_ul + k + v.pkts_ul ≡ u.pkts_ul + v.pkts_ul + k = omega arith in
    rw (b, p) (total_from-plus vs (add_usage u v) n k)

same_usage :
    {b c p q : ℕ}
    → b ≡ c
    → p ≡ q
    → ◌≡◌ {A = Usage} record { bytes_ul = b; pkts_ul = p } record { bytes_ul = c; pkts_ul = q }
same_usage hb hp = rw (hb, hp) refl

-- One value more by `n` bytes and `k` packets, whatever stands around it.
total_from-middle :
    (front back : List UrrVal) (v v' : UrrVal) (u : Usage) (n k : ℕ)
    → v'.bytes_ul ≡ v.bytes_ul + n
    → v'.pkts_ul ≡ v.pkts_ul + k
    → total_from u (front ++ (v' ∷ back)) ≡ plus (total_from u (front ++ (v ∷ back))) n k
total_from-middle [] back v v' u n k hb hp =
    let b : u.bytes_ul + v'.bytes_ul ≡ u.bytes_ul + v.bytes_ul + n = omega (arith, hb) in
    let p : u.pkts_ul + v'.pkts_ul ≡ u.pkts_ul + v.pkts_ul + k = omega (arith, hp) in
    ap (λ x. total_from x back) (same_usage b p) ∙ total_from-plus back (add_usage u v) n k
total_from-middle (f ∷ front) back v v' u n k hb hp =
    total_from-middle front back v v' (add_usage u f) n k hb hp

usage_on-middle :
    (i : ℕ) (front back : List Urrs) (u v : Urrs) (n k : ℕ)
    → Grown (held i u) (held i v) (n, k)
    → usage_on i (front ++ (u ∷ back)) ≡ plus (usage_on i (front ++ (v ∷ back))) n k
usage_on-middle i front back u v n k (b, p) =
    ap (total_from no_usage) (map-append (held i) front (u ∷ back))
    ∙ total_from-middle (map (held i) front) (map (held i) back) (held i v) (held i u) no_usage n k
        b p
    ∙ ap (λ vs. plus (total_from no_usage vs) n k) (sym (map-append (held i) front (v ∷ back)))

-- Every value that the dump prints is one that the kernel can hold.
abbrev pub Valid : List ℕ → List Urrs → Type 0
Valid ids cpus = All (λ j. (j < 2 ^ 32) × All IsUrr (map (held j) cpus)) ids

All-replace :
    (j : ℕ) (front back : List Urrs) (u v : Urrs)
    → (IsUrr (held j v) → IsUrr (held j u))
    → All IsUrr (map (held j) (front ++ (v ∷ back)))
    → All IsUrr (map (held j) (front ++ (u ∷ back)))
All-replace j [] back u v f (h, hs) = (f h, hs)
All-replace j (x ∷ front) back u v f (h, hs) = (h, All-replace j front back u v f hs)

Valid-replace :
    (ids : List ℕ) (front back : List Urrs) (u v : Urrs)
    → ((j : ℕ) → IsUrr (held j v) → IsUrr (held j u))
    → Valid ids (front ++ (v ∷ back))
    → Valid ids (front ++ (u ∷ back))
Valid-replace [] front back u v f h = tt
Valid-replace (j ∷ ids) front back u v f ((small, h), hs) =
    ((small, All-replace j front back u v (f j) h), Valid-replace ids front back u v f hs)

-- For every admitted packet that upf_far_forward sends on and bills to a URR, on any CPU: where the
-- helper accepts the URR's entry, and neither of the URR's counts on this CPU reaches 2^64, what
-- read_urr returns from the dump of the counters after the packet is what it returned before, and for
-- the packet's URR the inner length and one packet more. The dump is one that bpftool prints, with an
-- entry for the URR that is read, and the kernel's fields hold its values.
pub usage_billed :
    (h : Helpers) (far : FarVal) (urr_id i : ℕ) (s : State) (ids : List ℕ) (front back : List Urrs)
    → 0 < urr_id
    → h.urr_fits ≡ true
    → IsUrr (held urr_id s.urrs)
    → (held urr_id s.urrs).bytes_ul + h.inner_len < 2 ^ 64
    → (held urr_id s.urrs).pkts_ul + 1 < 2 ^ 64
    → listed i ids ≡ true
    → Valid ids (front ++ (s.urrs ∷ back))
    → let s' : State = (redirect_out h far urr_id s).state in
      let (bytes, pkts) = billed urr_id i h.inner_len in
      (u : Usage) × (read_urr i (map usage_entry (printed ids (front ++ (s.urrs ∷ back))))
        ≡ ok (some u))
      × (read_urr i (map usage_entry (printed ids (front ++ (s'.urrs ∷ back))))
          ≡ ok (some (plus u bytes pkts)))
usage_billed h far urr_id i s ids front back positive fits own bytes pkts there valid =
    let after : Urrs = count_urr h urr_id h.inner_len s.urrs in
    let same : (redirect_out h far urr_id s).state.urrs ≡ after =
      redirect_out-urrs h far urr_id s positive in
    let valid' : Valid ids (front ++ (after ∷ back)) =
      Valid-replace ids front back after s.urrs
        (λ j. count_urr-IsUrr h urr_id j h.inner_len s.urrs fits bytes pkts own) valid in
    (
      usage_on i (front ++ (s.urrs ∷ back)),
      reported i ids (front ++ (s.urrs ∷ back)) there valid,
      rw same (
          reported i ids (front ++ (after ∷ back)) there valid'
          ∙ ap (λ u. ok (some u))
              (usage_on-middle i front back after s.urrs (billed urr_id i h.inner_len).0
                (billed urr_id i h.inner_len).1
                (count_urr-Grown h urr_id i h.inner_len s.urrs fits bytes pkts))),
    )
