-- ===== src/EndToEnd/Transitions.antt =====
-- A modification of loader/agent.py as the packets in bpf/upf_tc.c meet it, while the other tables
-- may change too.
pub mod Named
pub mod Fate
use mathlib.Core.Option
use ebpf_upf.Prelude.{
  ℕ, ◌+◌, ◌≡◌, ◌⊎◌, inl, inr, List, [], ◌∷◌, Option, some, All, ◌==◌, if◌then◌else◌,
}
use ebpf_upf.Python.{Exception, Result, ok, err, os_error, struct_error}
use ebpf_upf.Python.Struct.{Bytes, le_bytes}
use ebpf_upf.Maps.{Maps, PinnedMaps}
use ebpf_upf.Maps.Logic.{Reaches, Ends}
use ebpf_upf.Agent.Slots.{modified}
use ebpf_upf.Agent.Modify.{modify_tc_bundle}
use ebpf_upf.Agent.Modify.Writes.{Shows, Failed}
use ebpf_upf.Agent.Modify.Atomic.{modify_tc_bundle_atomic}
use ebpf_upf.Datapath.Tables.{BundleSlot, far_val, bundle_of, current_slot, map_lookup}
use ebpf_upf.Datapath.Qer.{Build}
use ebpf_upf.Datapath.Ingress.{Helpers, State, Outcome, with_session, with_bundle}
use ebpf_upf.EndToEnd.Transitions.Named.{named_by, bundle_named}
use ebpf_upf.EndToEnd.Transitions.Fate.{Decided, with_bundle-Decided}

-- A run whose second lookup, that of the bundle, happens while the maps hold `m`.
abbrev pub at_bundle : Maps → (ℕ → Maps) → ℕ → Maps
at_bundle m seen k = if k == 1 then m else seen k

-- The run of a packet whose session leads to the PDR.
abbrev pub run_at : ℕ → Maps → Build → Helpers → (ℕ → Maps) → ℕ → ℕ → ℕ → ℕ → State → Outcome
run_at pdr_id m build h seen ihl_bytes teid qer_id far_id s =
    with_session build h (at_bundle m seen) ihl_bytes teid
      record { pdr_id = pdr_id; qer_id = qer_id; far_id = far_id } s

-- Each packet of a session of this PDR is handled by the tuple `slot`: as if no other FAR and no
-- other QER were in the maps, whatever its session says and its other lookups find; the tuple's FAR
-- decides its fate; and no URR but the tuple's is billed.
abbrev pub HandledBy : ℕ → BundleSlot → Maps → Type 0
HandledBy pdr_id slot m =
    (build : Build) (h : Helpers) (seen : ℕ → Maps) (ihl_bytes teid qer_id far_id : ℕ) (s : State)
    → (run_at pdr_id m build h seen ihl_bytes teid qer_id far_id s
        ≡ with_bundle build h (λ k. named_by slot (seen k)) ihl_bytes teid pdr_id slot s)
      × Decided slot (Option.map far_val (map_lookup (seen 2) "far_table" slot.far_id)) s
          (run_at pdr_id m build h seen ihl_bytes teid qer_id far_id s)

bundle_decides :
    (pdr_id : ℕ) (slot : BundleSlot) (m : Maps)
    → bundle_of m pdr_id ≡ some slot
    → HandledBy pdr_id slot m
unfolding with_session
bundle_decides pdr_id slot m found build h seen ihl_bytes teid qer_id far_id s =
    rw (found, with_session)
      (
        bundle_named build h (at_bundle m seen) ihl_bytes teid pdr_id slot s,
        with_bundle-Decided build h (at_bundle m seen) ihl_bytes teid pdr_id slot s,
      )

module _ (pdr_id : ℕ) (old new : BundleSlot) (m0 : Maps) where
  All-decide :
      (ms : List Maps)
      → All (λ m. Shows pdr_id old m0 m ⊎ Shows pdr_id new m0 m) ms
      → All (λ m. HandledBy pdr_id old m ⊎ HandledBy pdr_id new m) ms
  All-decide [] h = tt
  All-decide (m ∷ ms) (inl s, hs) = (inl (bundle_decides pdr_id old m s.bundle), All-decide ms hs)
  All-decide (m ∷ ms) (inr s, hs) = (inr (bundle_decides pdr_id new m s.bundle), All-decide ms hs)

  failure_decides :
      (e : Exception) (m : Maps) → Failed pdr_id old new m0 e m → HandledBy pdr_id old m
  failure_decides (os_error x) m s = bundle_decides pdr_id old m s.bundle
  failure_decides struct_error m (s, why) = bundle_decides pdr_id old m s.bundle
  failure_decides e m s = absurd s

  outcome_decides :
      (out : Result ℕ) (m : Maps)
      → Ends
          (λ g c. (g ≡ old.generation + 1) × Shows pdr_id new m0 c)
          (Failed pdr_id old new m0)
          out
          m
      → Ends (λ g. HandledBy pdr_id new) (λ e. HandledBy pdr_id old) out m
  outcome_decides (ok g) m (e, s) = bundle_decides pdr_id new m s.bundle
  outcome_decides (err e) m h = failure_decides e m h

-- From any world that holds a bundle for the PDR, and whatever the kernel refuses: a packet of the
-- PDR that reads the bundle at any moment of modify_tc_bundle is handled by the whole tuple from
-- before or by the whole new one, whatever its other lookups find in the meantime: it is forwarded,
-- policed and billed as if the maps held no FAR and no QER but the tuple's; it is counted as a miss,
-- as dropped by its FAR or as buffered exactly if the tuple's FAR is missing or says so; and no URR
-- but the tuple's is billed. After a normal end every packet is handled by the new tuple, after an
-- exception by the old one. The record of passed contents starts with the call.
pub modify_tc_bundle_decides :
    (M : PinnedMaps) (pdr_id : ℕ) (far_id qer_id urr_id precedence : Option ℕ) (w : M.World)
    (raw : Bytes)
    → M.IsOpen w
    → M.passed w ≡ M.content w ∷ []
    → M.content w "tc_bundle_map" (le_bytes 4 pdr_id) ≡ some raw
    → Reaches M
        (λ m.
          HandledBy pdr_id (current_slot raw) m
          ⊎ HandledBy pdr_id (modified (current_slot raw) far_id qer_id urr_id precedence) m)
        (λ g. HandledBy pdr_id (modified (current_slot raw) far_id qer_id urr_id precedence))
        (λ e. HandledBy pdr_id (current_slot raw))
        (modify_tc_bundle M pdr_id far_id qer_id urr_id precedence w)
modify_tc_bundle_decides M pdr_id far_id qer_id urr_id precedence w raw o fresh held =
    let old : BundleSlot = current_slot raw in
    let new : BundleSlot = modified old far_id qer_id urr_id precedence in
    let k = modify_tc_bundle_atomic M pdr_id far_id qer_id urr_id precedence w raw o fresh held in
    record {
      opened = k.opened;
      seen = All-decide pdr_id old new (M.content w) _ k.seen;
      ends = outcome_decides pdr_id old new (M.content w) _ _ k.ends;
    }
