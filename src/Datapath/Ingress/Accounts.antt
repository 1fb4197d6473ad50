-- ===== src/Datapath/Ingress/Accounts.antt =====
-- Every G-PDU at the TC hook ends in one way, which is counted once.
use ebpf_upf.Prelude.{
  ℕ, ◌+◌, ◌≤◌, ◌≡◌, ◌⊎◌, refl, List, Option, none, some, ◌==◌, Option-cases, Bool-cases, inl, inr,
  arith,
}
use ebpf_upf.Python.Struct.{Bytes}
use ebpf_upf.Maps.{Maps}
use ebpf_upf.Datapath.Tables.{
  SessionVal, session_val, FarVal, far_val, BundleSlot, bundle_of, map_lookup,
}
use ebpf_upf.Datapath.Qer.{Build, upf_qer_admit}
use ebpf_upf.Datapath.Packet.{Parsed, other, short, non_gtp, short_gtp, control, gpdu, parse, ◌>>=◌}
use ebpf_upf.Datapath.Packet.Safety.{Within, parse-Within}
use ebpf_upf.Datapath.Stages.{
  m_tc_miss_far, m_tc_far_drop, m_tc_far_forward, m_tc_far_buffer, m_tc_decap_err,
  m_tc_redirect_err, m_tc_qer_pass, m_tc_qer_drop, m_tc_urr_updated, bumped,
}
use ebpf_upf.Datapath.Ingress.{
  tc_act_ok, tc_act_shot, tc_act_redirect, BufferEvent, Helpers, State, Outcome, upf_urr_update,
  redirect_out, police, upf_far_forward, buffer_notice, apply_far, with_bundle, with_session,
  enforce, upf_tc_ingress,
}

abbrev pub gpdus : Parsed → ℕ
gpdus (gpdu ihl_bytes teid) = 1
gpdus _ = 0

abbrev pub events : Option BufferEvent → ℕ
events none = 0
events (some e) = 1

-- The reasons for which a packet is dropped by the program itself.
abbrev pub drops : List ℕ → ℕ
drops b =
    bumped m_tc_far_drop b
    + bumped m_tc_far_buffer b
    + bumped m_tc_decap_err b
    + bumped m_tc_qer_drop b

-- The books of a run for a packet that is `n` G-PDUs, 0 or 1.
pub record Accounted (n : ℕ) (o : Outcome) : Type 0 where
  pub once : bumped m_tc_miss_far o.bumps + drops o.bumps + bumped m_tc_far_forward o.bumps ≡ n
  pub policed : bumped m_tc_qer_pass o.bumps ≡ bumped m_tc_far_forward o.bumps
  pub redirected : bumped m_tc_redirect_err o.bumps ≤ bumped m_tc_far_forward o.bumps
  pub reported : bumped m_tc_urr_updated o.bumps ≤ bumped m_tc_far_forward o.bumps
  pub notified : events o.event ≡ bumped m_tc_far_buffer o.bumps
  pub dropped : (drops o.bumps ≡ 0) ⊎ (o.action ≡ tc_act_shot)
  pub left : (bumped m_tc_miss_far o.bumps ≡ 0) ⊎ (o.action ≡ tc_act_ok)

redirect_out-Accounted :
    (h : Helpers) (far : FarVal) (urr_id : ℕ) (s : State)
    → Accounted 1 (redirect_out h far urr_id s)
unfolding redirect_out upf_urr_update
redirect_out-Accounted h far urr_id s = elim (Bool-cases (urr_id == 0)) [
  | inl no_urr ↦ elim (Bool-cases (h.redirect far.out_ifindex == tc_act_redirect)) [
    | inl done ↦ rw (no_urr, done) (ground arith)
    | inr failed ↦ rw (no_urr, failed) (ground arith)
  ]
  | inr urr ↦ elim (Bool-cases (h.redirect far.out_ifindex == tc_act_redirect)) [
    | inl done ↦ rw (urr, done) (ground arith)
    | inr failed ↦ rw (urr, failed) (ground arith)
  ]
]

police-Accounted :
    (build : Build) (h : Helpers) (m : Maps) (far : FarVal) (cur : BundleSlot) (s : State)
    → Accounted 1 (police build h m far cur s)
unfolding police
police-Accounted build h m far cur s =
    elim (Bool-cases (upf_qer_admit build m h.now cur.qer_id h.inner_len s.buckets).1) [
      | inl admitted ↦ rw admitted (redirect_out-Accounted h far cur.urr_id _)
      | inr refused ↦ rw refused (ground arith)
    ]

upf_far_forward-Accounted :
    (build : Build) (h : Helpers) (seen : ℕ → Maps) (cur : BundleSlot) (len : ℕ) (s : State)
    → Accounted 1 (upf_far_forward build h seen cur len s)
unfolding upf_far_forward
upf_far_forward-Accounted build h seen cur len s = elim (Bool-cases (h.adjust_fails len)) [
  | inl failed ↦ rw failed (ground arith)
  | inr stripped ↦ elim (Option-cases (map_lookup (seen 3) "far_table" cur.far_id)) [
    | inl missing ↦ rw (stripped, missing) (ground arith)
    | inr (b, found) ↦ rw (stripped, found) (police-Accounted build h (seen 4) (far_val b) cur s)
  ]
]

apply_far-Accounted :
    (build : Build) (h : Helpers) (seen : ℕ → Maps) (ihl_bytes teid pdr_id : ℕ) (cur : BundleSlot)
    (far : FarVal) (s : State)
    → Accounted 1 (apply_far build h seen ihl_bytes teid pdr_id cur far s)
unfolding apply_far buffer_notice
apply_far-Accounted build h seen ihl_bytes teid pdr_id cur far s =
    elim (Bool-cases (far.action == 0)) [
      | inl drop ↦ rw drop (ground arith)
      | inr not_drop ↦ elim (Bool-cases (far.action == 2)) [
        | inl buffer ↦ rw (not_drop, buffer) (ground arith)
        | inr forward ↦
            rw (not_drop, forward)
              (upf_far_forward-Accounted build h seen cur (ihl_bytes + 8 + 8) s)
      ]
    ]

with_bundle-Accounted :
    (build : Build) (h : Helpers) (seen : ℕ → Maps) (ihl_bytes teid pdr_id : ℕ) (cur : BundleSlot)
    (s : State)
    → Accounted 1 (with_bundle build h seen ihl_bytes teid pdr_id cur s)
unfolding with_bundle
with_bundle-Accounted build h seen ihl_bytes teid pdr_id cur s =
    elim (Option-cases (map_lookup (seen 2) "far_table" cur.far_id)) [
      | inl missing ↦ rw (missing, with_bundle) (ground arith)
      | inr (b, found) ↦
          rw (found, with_bundle)
            (apply_far-Accounted build h seen ihl_bytes teid pdr_id cur (far_val b) s)
    ]

with_session-Accounted :
    (build : Build) (h : Helpers) (seen : ℕ → Maps) (ihl_bytes teid : ℕ) (sess : SessionVal)
    (s : State)
    → Accounted 1 (with_session build h seen ihl_bytes teid sess s)
unfolding with_session
with_session-Accounted build h seen ihl_bytes teid sess s =
    elim (Option-cases (bundle_of (seen 1) sess.pdr_id)) [
      | inl missing ↦ rw (missing, with_session) (ground arith)
      | inr (cur, found) ↦
          rw (found, with_session)
            (with_bundle-Accounted build h seen ihl_bytes teid sess.pdr_id cur s)
    ]

enforce-Accounted :
    (build : Build) (h : Helpers) (seen : ℕ → Maps) (p : Parsed) (s : State)
    → Accounted (gpdus p) (enforce build h seen p s)
unfolding enforce
enforce-Accounted build h seen (gpdu ihl_bytes teid) s =
    elim (Option-cases (map_lookup (seen 0) "teid_session" teid)) [
      | inl missing ↦ rw (missing, enforce) (ground arith)
      | inr (b, found) ↦
          rw (found, enforce) (with_session-Accounted build h seen ihl_bytes teid (session_val b) s)
    ]
enforce-Accounted build h seen other s = ground arith
enforce-Accounted build h seen short s = ground arith
enforce-Accounted build h seen non_gtp s = ground arith
enforce-Accounted build h seen short_gtp s = ground arith
enforce-Accounted build h seen control s = ground arith

-- For every packet, in either build of the policing, whatever the kernel's helpers return and
-- whatever the agent writes between the lookups: the TC program ends without a read past the
-- packet's end. A G-PDU ends in exactly one way: as a miss, which leaves it to the stack, in one of
-- four reasons for a drop, or forwarded; anything else bumps none of these counters. A packet is
-- policed with success exactly if it is forwarded, usage and redirection errors are counted for
-- forwarded packets only, and an event is sent exactly for a buffered packet.
pub ingress-Accounted :
    (build : Build) (h : Helpers) (seen : ℕ → Maps) (d : Bytes) (s : State)
    → (p : Parsed) × (o : Outcome) × (parse d ≡ some p)
      × (upf_tc_ingress build h seen d s ≡ some o)
      × Accounted (gpdus p) o
unfolding upf_tc_ingress
ingress-Accounted build h seen d s = go (parse d) (parse-Within d)
  where
    go :
        (r : Option Parsed)
        → Within d r
        → (p : Parsed) × (o : Outcome) × (r ≡ some p)
          × ((do p ← r; some (enforce build h seen p s)) ≡ some o)
          × Accounted (gpdus p) o
    go none bad = absurd bad
    go (some p) ok = (p, enforce build h seen p s, refl, refl, enforce-Accounted build h seen p s)
