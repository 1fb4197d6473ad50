-- ===== src/EndToEnd/Transitions/Fate.antt =====
-- What the FAR and the URR that a tuple names do with a packet in bpf/upf_tc.c.
use mathlib.Core.Option
use native.Mathlib.Decide.{ℕ_discrete}
use ebpf_upf.Prelude.{
  ℕ, ◌+◌, ◌≡◌, ◌⊎◌, refl, ap, inl, inr, Option, none, some, [], ◌∷◌, Option-cases, Bool-cases, ◌==◌,
  if◌then◌else◌, arith,
}
use ebpf_upf.Maps.{Maps}
use ebpf_upf.Datapath.Tables.{FarVal, far_val, BundleSlot, map_lookup}
use ebpf_upf.Datapath.Qer.{Build, upf_qer_admit}
use ebpf_upf.Datapath.Stages.{m_tc_miss_far, m_tc_far_drop, m_tc_far_buffer, bumped}
use ebpf_upf.Datapath.Ingress.{
  Helpers, State, Outcome, UrrVal, Urrs, shot, police, redirect_out, upf_far_forward, apply_far,
  with_bundle, buffer_notice, upf_urr_update, count_urr, put_urr,
}

-- Whether the packet is a miss, dropped by its FAR or buffered, as numbers.
abbrev pub misses : Option FarVal → ℕ
misses none = 1
misses (some far) = 0

abbrev pub far_drops : Option FarVal → ℕ
far_drops none = 0
far_drops (some far) = if far.action == 0 then 1 else 0

abbrev pub far_buffers : Option FarVal → ℕ
far_buffers none = 0
far_buffers (some far) = if far.action == 2 then 1 else 0

-- A run that began in the state `s` did what the FAR says, and billed no URR but the tuple's.
pub record Decided (slot : BundleSlot) (far : Option FarVal) (s : State) (o : Outcome)
    : Type 0 where
  pub missed : bumped m_tc_miss_far o.bumps ≡ misses far
  pub dropped : bumped m_tc_far_drop o.bumps ≡ far_drops far
  pub buffered : bumped m_tc_far_buffer o.bumps ≡ far_buffers far
  pub billed : (i : ℕ) → (i ≡ slot.urr_id) ⊎ (o.state.urrs i ≡ s.urrs i)

-- The same of a run past the FAR's action.
record Forwarding (slot : BundleSlot) (s : State) (o : Outcome) : Type 0 where
  found : bumped m_tc_miss_far o.bumps ≡ 0
  allowed : bumped m_tc_far_drop o.bumps ≡ 0
  direct : bumped m_tc_far_buffer o.bumps ≡ 0
  billed : (i : ℕ) → (i ≡ slot.urr_id) ⊎ (o.state.urrs i ≡ s.urrs i)

other_urr :
    (i urr_id : ℕ) (uv : UrrVal) (urrs : Urrs) → (i ≡ urr_id) ⊎ (put_urr urr_id uv urrs i ≡ urrs i)
unfolding put_urr
other_urr i urr_id uv urrs = elim (ℕ_discrete i urr_id) [
  | yes same ↦ inl same
  | no ne ↦ inr (ground arith)
]

counted_urr :
    (h : Helpers) (i urr_id len : ℕ) (urrs : Urrs)
    → (i ≡ urr_id) ⊎ (count_urr h urr_id len urrs i ≡ urrs i)
unfolding count_urr
counted_urr h i urr_id len urrs = elim (Option-cases (urrs urr_id)) [
  | inl missing ↦ elim (Bool-cases h.urr_fits) [
    | inl fits ↦ rw (missing, count_urr) (rw fits (other_urr i urr_id _ urrs))
    | inr full ↦ rw (missing, count_urr) (rw full (inr refl))
  ]
  | inr (uv, found) ↦ rw (found, count_urr) (other_urr i urr_id _ urrs)
]

redirect_out-Forwarding :
    (h : Helpers) (far : FarVal) (cur : BundleSlot) (s : State)
    → Forwarding cur s (redirect_out h far cur.urr_id s)
unfolding redirect_out upf_urr_update
redirect_out-Forwarding h far cur s = elim (Bool-cases (cur.urr_id == 0)) [
  | inl no_urr ↦ elim (Bool-cases (h.redirect far.out_ifindex == 7)) [
    | inl done ↦
        rw (no_urr, done)
          record {
            found = ground arith;
            allowed = ground arith;
            direct = ground arith;
            billed = λ i. inr refl;
          }
    | inr failed ↦
        rw (no_urr, failed)
          record {
            found = ground arith;
            allowed = ground arith;
            direct = ground arith;
            billed = λ i. inr refl;
          }
  ]
  | inr urr ↦ elim (Bool-cases (h.redirect far.out_ifindex == 7)) [
    | inl done ↦
        rw (urr, done)
          record {
            found = ground arith;
            allowed = ground arith;
            direct = ground arith;
            billed = λ i. counted_urr h i cur.urr_id h.inner_len s.urrs;
          }
    | inr failed ↦
        rw (urr, failed)
          record {
            found = ground arith;
            allowed = ground arith;
            direct = ground arith;
            billed = λ i. counted_urr h i cur.urr_id h.inner_len s.urrs;
          }
  ]
]

-- A packet that is shot for a reason of its own.
shot-Forwarding :
    (cur : BundleSlot) (reason : ℕ) (s s' : State)
    → bumped m_tc_miss_far (reason ∷ []) ≡ 0
    → bumped m_tc_far_drop (reason ∷ []) ≡ 0
    → bumped m_tc_far_buffer (reason ∷ []) ≡ 0
    → s'.urrs ≡ s.urrs
    → Forwarding cur s (shot reason s')
shot-Forwarding cur reason s s' a b c e = record {
  found = a;
  allowed = b;
  direct = c;
  billed = λ i. inr (ap (λ (u : Urrs). u i) e);
}

police-Forwarding :
    (build : Build) (h : Helpers) (m : Maps) (far : FarVal) (cur : BundleSlot) (s : State)
    → Forwarding cur s (police build h m far cur s)
unfolding police
police-Forwarding build h m far cur s =
    elim (Bool-cases (upf_qer_admit build m h.now cur.qer_id h.inner_len s.buckets).1) [
      | inl admitted ↦
          let k = redirect_out-Forwarding h far cur record {
            buckets = (upf_qer_admit build m h.now cur.qer_id h.inner_len s.buckets).0;
            urrs = s.urrs;
          } in
          rw admitted
            record { found = k.found; allowed = k.allowed; direct = k.direct; billed = k.billed }
      | inr refused ↦ rw refused (shot-Forwarding cur _ s _ refl refl refl refl)
    ]

upf_far_forward-Forwarding :
    (build : Build) (h : Helpers) (seen : ℕ → Maps) (cur : BundleSlot) (len : ℕ) (s : State)
    → Forwarding cur s (upf_far_forward build h seen cur len s)
unfolding upf_far_forward
upf_far_forward-Forwarding build h seen cur len s = elim (Bool-cases (h.adjust_fails len)) [
  | inl failed ↦ rw failed (shot-Forwarding cur _ s s refl refl refl refl)
  | inr stripped ↦ elim (Option-cases (map_lookup (seen 3) "far_table" cur.far_id)) [
    | inl missing ↦ rw (stripped, missing) (shot-Forwarding cur _ s s refl refl refl refl)
    | inr (b, found) ↦ rw (stripped, found) (police-Forwarding build h (seen 4) (far_val b) cur s)
  ]
]

apply_far-Decided :
    (build : Build) (h : Helpers) (seen : ℕ → Maps) (ihl_bytes teid pdr_id : ℕ) (cur : BundleSlot)
    (far : FarVal) (s : State)
    → Decided cur (some far) s (apply_far build h seen ihl_bytes teid pdr_id cur far s)
unfolding apply_far buffer_notice
apply_far-Decided build h seen ihl_bytes teid pdr_id cur far s =
    elim (Bool-cases (far.action == 0)) [
      | inl drop ↦ rw drop record {
        missed = refl;
        dropped = rw drop refl;
        buffered = ground arith;
        billed = λ i. inr refl;
      }
      | inr not_drop ↦ elim (Bool-cases (far.action == 2)) [
        | inl buffer ↦
            rw (not_drop, buffer)
              record {
                missed = refl;
                dropped = rw not_drop refl;
                buffered = rw buffer refl;
                billed = λ i. inr refl;
              }
        | inr forward ↦
            let k = upf_far_forward-Forwarding build h seen cur (ihl_bytes + 8 + 8) s in
            rw (not_drop, forward)
              record {
                missed = k.found;
                dropped = rw not_drop k.allowed;
                buffered = rw forward k.direct;
                billed = k.billed;
              }
      ]
    ]

pub with_bundle-Decided :
    (build : Build) (h : Helpers) (seen : ℕ → Maps) (ihl_bytes teid pdr_id : ℕ) (cur : BundleSlot)
    (s : State)
    → Decided cur
        (Option.map far_val (map_lookup (seen 2) "far_table" cur.far_id))
        s
        (with_bundle build h seen ihl_bytes teid pdr_id cur s)
unfolding with_bundle
with_bundle-Decided build h seen ihl_bytes teid pdr_id cur s =
    elim (Option-cases (map_lookup (seen 2) "far_table" cur.far_id)) [
      | inl missing ↦
          rw (missing, with_bundle)
            record { missed = refl; dropped = refl; buffered = refl; billed = λ i. inr refl }
      | inr (b, found) ↦
          rw (found, with_bundle)
            (apply_far-Decided build h seen ihl_bytes teid pdr_id cur (far_val b) s)
    ]
