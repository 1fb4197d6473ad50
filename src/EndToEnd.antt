-- ===== src/EndToEnd.antt =====
-- The agent and the datapath together: what the packets of a session meet while loader/agent.py
-- installs it, in bpf/upf_xdp.c and bpf/upf_tc.c.
pub mod Transitions
pub mod Removal
pub mod Downlink
pub mod Usage
use mathlib.Core.Option
use ebpf_upf.Prelude.{
  ℕ, ◌≡◌, ◌⊎◌, refl, ap, ◌∙◌, List, [], ◌∷◌, Option, none, some, All, Option-cases, inl, inr, arith,
}
use ebpf_upf.Python.{Result, ok, err}
use ebpf_upf.Python.Struct.{Bytes, le_bytes}
use ebpf_upf.Maps.{Maps, PinnedMaps}
use ebpf_upf.Maps.Logic.{Reaches, Ends}
use ebpf_upf.Agent.Sessions.{install_session}
use ebpf_upf.Agent.Sessions.Presence.{Resolved, PdrThere}
use ebpf_upf.Agent.Sessions.Order.{Installed, Stopped, the_slot, install_session_ordered}
use ebpf_upf.Datapath.Tables.{SessionVal, session_val, BundleSlot, bundle_of, map_lookup}
use ebpf_upf.Datapath.Packet.{Parsed, other, short, non_gtp, short_gtp, control, gpdu}
use ebpf_upf.Datapath.Stages.{
  m_rx_total, m_rx_gtpu, m_rx_gpdu, m_hit, m_miss_pdr, m_miss_teid, bumped,
}
use ebpf_upf.Datapath.Uplink.{xdp_pass, xdp_drop, classify, look_up_session, look_up_pdr}
use ebpf_upf.Datapath.Qer.{Build}
use ebpf_upf.Datapath.Ingress.{Helpers, State, enforce, with_session, with_bundle}

-- No packet at the XDP hook is dropped because its session leads to no PDR.
abbrev pub NoPdrMiss : Maps → Type 0
NoPdrMiss m = (p : Parsed) → bumped m_miss_pdr (classify (λ k. m) p).1 ≡ 0

-- Every G-PDU of the session is a hit at the XDP hook, and the TC hook applies the tuple `slot` of
-- the session's PDR to it.
pub record ServedBy (teid pdr_id : ℕ) (slot : BundleSlot) (m : Maps) : Type 0 where
  pub hit :
      (ihl_bytes : ℕ)
      → classify (λ k. m) (gpdu ihl_bytes teid)
        ≡ (xdp_pass, m_rx_total ∷ m_rx_gtpu ∷ m_rx_gpdu ∷ m_hit ∷ [])
  pub applied :
      (build : Build) (h : Helpers) (ihl_bytes : ℕ) (s : State)
      → enforce build h (λ k. m) (gpdu ihl_bytes teid) s
        ≡ with_bundle build h (λ k. m) ihl_bytes teid pdr_id slot s

session_lookup :
    (m : Maps) (teid : ℕ)
    → Resolved m
    → (look_up_session (λ k. m) teid ≡ (xdp_drop, m_miss_teid ∷ []))
      ⊎ (look_up_session (λ k. m) teid ≡ (xdp_pass, m_hit ∷ []))
unfolding look_up_session look_up_pdr map_lookup
session_lookup m teid r = elim (Option-cases (map_lookup m "teid_session" teid)) [
  | inl missing ↦ inl (rw (missing, look_up_session))
  | inr (v, found) ↦
      let there = r.at _ v found in
      inr (rw (found, look_up_session) (rw (there.pdr.1, look_up_pdr)))
]

Resolved-NoPdrMiss : (m : Maps) → Resolved m → NoPdrMiss m
unfolding classify
Resolved-NoPdrMiss m r (gpdu ihl_bytes teid) = elim (session_lookup m teid r) [
  | inl missing ↦ rw (missing, classify)
  | inr found ↦ rw (found, classify)
]
Resolved-NoPdrMiss m r other = refl
Resolved-NoPdrMiss m r short = refl
Resolved-NoPdrMiss m r non_gtp = refl
Resolved-NoPdrMiss m r short_gtp = refl
Resolved-NoPdrMiss m r control = refl

map_inv :
    {A B : Type 0} (f : A → B) (o : Option A) {b : B}
    → Option.map f o ≡ some b
    → (a : A) × (o ≡ some a) × (f a ≡ b)
map_inv f none h = cc
map_inv f (some a) h = (a, refl, ground arith)

enforce_step :
    (build : Build) (h : Helpers) (m : Maps) (ihl_bytes teid : ℕ) (s : State) (v : Bytes)
    (slot : BundleSlot)
    → map_lookup m "teid_session" teid ≡ some v
    → bundle_of m (session_val v).pdr_id ≡ some slot
    → enforce build h (λ k. m) (gpdu ihl_bytes teid) s
      ≡ with_bundle build h (λ k. m) ihl_bytes teid (session_val v).pdr_id slot s
unfolding enforce with_session
enforce_step build h m ihl_bytes teid s v slot found bundle =
    rw (found, enforce) (rw (bundle, with_session))

found_there :
    (m : Maps) (teid : ℕ) (v : Bytes)
    → Resolved m
    → map_lookup m "teid_session" teid ≡ some v
    → PdrThere m (session_val v).pdr_id
unfolding map_lookup
found_there m teid v r found = r.at (le_bytes 4 teid) v found

session_hit :
    (m : Maps) (teid : ℕ) (v : Bytes)
    → Resolved m
    → map_lookup m "teid_session" teid ≡ some v
    → look_up_session (λ k. m) teid ≡ (xdp_pass, m_hit ∷ [])
unfolding look_up_session look_up_pdr
session_hit m teid v r found =
    let there = found_there m teid v r found in
    rw (found, look_up_session) (rw (there.pdr.1, look_up_pdr))

classify_hit :
    (m : Maps) (ihl_bytes teid : ℕ) (v : Bytes)
    → Resolved m
    → map_lookup m "teid_session" teid ≡ some v
    → classify (λ k. m) (gpdu ihl_bytes teid)
      ≡ (xdp_pass, m_rx_total ∷ m_rx_gtpu ∷ m_rx_gpdu ∷ m_hit ∷ [])
unfolding classify
classify_hit m ihl_bytes teid v r found = rw (session_hit m teid v r found, classify)

Installed-ServedBy :
    (M : PinnedMaps) (teid pdr_id qer_id far_id precedence urr_id : ℕ) (m : Maps)
    → Installed M teid pdr_id qer_id far_id precedence urr_id m
    → ServedBy teid pdr_id (the_slot M teid pdr_id qer_id far_id precedence urr_id) m
Installed-ServedBy M teid pdr_id qer_id far_id precedence urr_id m (r, pdr, bundle, session) =
    let (v, found, same) = map_inv session_val (map_lookup m "teid_session" teid) session in
    let slot : BundleSlot = the_slot M teid pdr_id qer_id far_id precedence urr_id in
    let id : (session_val v).pdr_id ≡ pdr_id = ap (λ (x : SessionVal). x.pdr_id) same in
    record {
      hit = λ ihl_bytes. classify_hit m ihl_bytes teid v r found;
      applied = λ build h ihl_bytes s.
          enforce_step build h m ihl_bytes teid s v _ found (ap (bundle_of m) id ∙ bundle)
          ∙ ap (λ i. with_bundle build h (λ k. m) ihl_bytes teid i slot s) id;
    }

All-NoPdrMiss : (ms : List Maps) → All Resolved ms → All NoPdrMiss ms
All-NoPdrMiss [] h = tt
All-NoPdrMiss (m ∷ ms) (r, rs) = (Resolved-NoPdrMiss m r, All-NoPdrMiss ms rs)

outcome_serves :
    (M : PinnedMaps) (teid pdr_id qer_id far_id precedence urr_id : ℕ) (out : Result (Unit {0}))
    (m : Maps)
    → Ends
        (λ _. Installed M teid pdr_id qer_id far_id precedence urr_id)
        (Stopped M teid pdr_id qer_id far_id precedence urr_id)
        out
        m
    → Ends
        (λ _ c.
          NoPdrMiss c
          × ServedBy teid pdr_id (the_slot M teid pdr_id qer_id far_id precedence urr_id) c)
        (λ e. NoPdrMiss)
        out
        m
outcome_serves M teid pdr_id qer_id far_id precedence urr_id (ok u) m h =
    (Resolved-NoPdrMiss m h.0, Installed-ServedBy M teid pdr_id qer_id far_id precedence urr_id m h)
outcome_serves M teid pdr_id qer_id far_id precedence urr_id (err e) m (r, why) =
    Resolved-NoPdrMiss m r

-- From a world where every session leads to a PDR and a bundle, and whatever the kernel refuses or
-- evicts: at every moment of `install_session`, and after it, normal or not, no packet at all is
-- dropped by the XDP program for a missing PDR. After a normal end every G-PDU of the TEID is a hit
-- there, and the TC program finds the given tuple in generation 0 and goes on to its FAR, as long
-- as the maps stay as they are.
pub install_session_serves :
    (M : PinnedMaps) (teid pdr_id qer_id far_id precedence urr_id : ℕ) (w : M.World)
    → M.IsOpen w
    → All Resolved (M.passed w)
    → Resolved (M.content w)
    → Reaches M NoPdrMiss
        (λ _ c.
          NoPdrMiss c
          × ServedBy teid pdr_id (the_slot M teid pdr_id qer_id far_id precedence urr_id) c)
        (λ e. NoPdrMiss)
        (install_session M teid pdr_id qer_id far_id precedence urr_id w)
install_session_serves M teid pdr_id qer_id far_id precedence urr_id w o s r =
    let k = install_session_ordered M teid pdr_id qer_id far_id precedence urr_id w o s r in
    record {
      opened = k.opened;
      seen = All-NoPdrMiss _ k.seen;
      ends = outcome_serves M teid pdr_id qer_id far_id precedence urr_id _ _ k.ends;
    }
