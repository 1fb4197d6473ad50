-- ===== src/Analysis/Toggles.antt =====
-- What analyze.py counts of the decisions that test/toggle_bundle.py brings about.
use ebpf_upf.Prelude.{
  ℕ, zero, suc, ◌+◌, ◌%◌, ◌≡◌, refl, List, [], ◌∷◌, some, none, false, ◌==◌, if◌then◌else◌, arith,
}
use ebpf_upf.Datapath.Tables.{BundleSlot}
use ebpf_upf.Agent.Slots.{modified}
use ebpf_upf.Analysis.{Event, is_pair, is_torn, is_mismatch, count_events, torn, mismatches}

-- `pairs[i % 2]`, of which both members are alike: 1 and 3.
unfoldable pub pair_of : ℕ → ℕ
pair_of i = if i % 2 == 0 then 1 else 3

-- The tuple that round `i` commits over `slot`, by `modify_tc_bundle`.
unfoldable pub toggle : ℕ → BundleSlot → BundleSlot
unfolding modified pair_of
toggle i slot = modified slot (some (pair_of i)) (some (pair_of i)) none none

-- The event that bpf/upf_tc.c emits for a packet while `slot` is in force.
unfoldable pub decision_event : ℕ → BundleSlot → Event
decision_event pdr_id slot = record {
  far_id = slot.far_id;
  qer_id = slot.qer_id;
  generation = slot.generation;
  pdr_id = pdr_id;
}

-- One packet in each of `n` rounds, from round `i` on.
unfoldable pub toggled_events : ℕ → ℕ → ℕ → BundleSlot → List Event
unfolding toggle decision_event
toggled_events zero i pdr_id slot = []
toggled_events (suc n) i pdr_id slot =
    decision_event pdr_id (toggle i slot) ∷ toggled_events n (i + 1) pdr_id (toggle i slot)

toggle_mismatch :
    (i pdr_id : ℕ) (slot : BundleSlot)
    → is_mismatch (decision_event pdr_id (toggle i slot)) ≡ ((slot.generation + i) % 2 == 0)
unfolding is_mismatch is_pair decision_event toggle modified pair_of
toggle_mismatch i pdr_id slot = ground arith

toggle_torn :
    (i pdr_id : ℕ) (slot : BundleSlot) → is_torn (decision_event pdr_id (toggle i slot)) ≡ false
unfolding is_torn is_pair decision_event toggle modified pair_of
toggle_torn i pdr_id slot = ground arith

toggle_generation : (i : ℕ) (slot : BundleSlot) → (toggle i slot).generation ≡ slot.generation + 1
unfolding toggle modified
toggle_generation i slot = refl

toggled-mismatches :
    (n i pdr_id : ℕ) (slot : BundleSlot)
    → mismatches (toggled_events n i pdr_id slot)
      ≡ (if (slot.generation + i) % 2 == 0 then n else 0)
unfolding toggled_events count_events
toggled-mismatches zero i pdr_id slot = ground arith
toggled-mismatches (suc n) i pdr_id slot = ground (
  arith,
  toggle_mismatch i pdr_id slot,
  toggle_generation i slot,
  toggled-mismatches n (i + 1) pdr_id (toggle i slot),
)

toggled-torn : (n i pdr_id : ℕ) (slot : BundleSlot) → torn (toggled_events n i pdr_id slot) ≡ 0
unfolding toggled_events count_events
toggled-torn zero i pdr_id slot = refl
toggled-torn (suc n) i pdr_id slot =
    ground (arith, toggle_torn i pdr_id slot, toggled-torn n (i + 1) pdr_id (toggle i slot))

-- Of one packet in each of n rounds of the driver, from any bundle: the analysis finds no torn
-- event. It finds no mismatch if the generation at the start is odd. If it is even, as after
-- `install_session`, it takes every single event for a mismatch, although none is torn.
pub toggles_analysed :
    (n pdr_id : ℕ) (slot : BundleSlot)
    → (torn (toggled_events n 0 pdr_id slot) ≡ 0)
      × (mismatches (toggled_events n 0 pdr_id slot) ≡ (if slot.generation % 2 == 0 then n else 0))
toggles_analysed n pdr_id slot =
    (toggled-torn n 0 pdr_id slot, ground (arith, toggled-mismatches n 0 pdr_id slot))
