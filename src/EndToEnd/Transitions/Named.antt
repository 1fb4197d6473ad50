-- ===== src/EndToEnd/Transitions/Named.antt =====
-- Which entries of the maps decide about a packet in bpf/upf_tc.c, once its bundle is found: those
-- that the tuple names.
use ebpf_upf.Prelude.{
  ℕ, ◌+◌, ◌≡◌, refl, inl, inr, Option, none, Option-cases, str_eq, if◌then◌else◌,
}
use ebpf_upf.Python.Struct.{Bytes, le_bytes}
use ebpf_upf.Maps.{Maps}
use ebpf_upf.Agent.Sessions.Presence.{Bytes-discrete}
use ebpf_upf.Datapath.Tables.{FarVal, far_val, BundleSlot, map_lookup}
use ebpf_upf.Datapath.Qer.{Build, Buckets, upf_qer_admit}
use ebpf_upf.Datapath.Ingress.{Helpers, State, police, upf_far_forward, apply_far, with_bundle}

abbrev pub kept_if : {A : Type 0} → Dec A → Option Bytes → Option Bytes
kept_if (yes same) o = o
kept_if (no other) o = none

-- What is left of a map where only one entry is kept.
abbrev pub only : ℕ → (Bytes → Option Bytes) → Bytes → Option Bytes
only id c j = kept_if (Bytes-discrete j (le_bytes 4 id)) (c j)

-- What is left of the maps where only the FAR and the QER are kept that a tuple names.
abbrev pub named_by : BundleSlot → Maps → Maps
named_by slot m n =
    if str_eq n "far_table"
    then only slot.far_id (m n)
    else if str_eq n "qer_table"
    then only slot.qer_id (m n)
    else (λ j. none)

kept_if-true : {A : Type 0} (d : Dec A) (o : Option Bytes) → A → kept_if d o ≡ o
kept_if-true (yes same) o a = refl
kept_if-true (no other) o a = absurd (other a)

only-here : (id : ℕ) (c : Bytes → Option Bytes) → only id c (le_bytes 4 id) ≡ c (le_bytes 4 id)
only-here id c =
    kept_if-true (Bytes-discrete (le_bytes 4 id) (le_bytes 4 id)) (c (le_bytes 4 id)) refl

far_named :
    (slot : BundleSlot) (m : Maps)
    → map_lookup (named_by slot m) "far_table" slot.far_id ≡ map_lookup m "far_table" slot.far_id
unfolding map_lookup
far_named slot m = only-here slot.far_id (m "far_table")

qer_named :
    (slot : BundleSlot) (m : Maps)
    → map_lookup (named_by slot m) "qer_table" slot.qer_id ≡ map_lookup m "qer_table" slot.qer_id
unfolding map_lookup
qer_named slot m = only-here slot.qer_id (m "qer_table")

-- The policing looks at the QER that the tuple names.
admit_named :
    (build : Build) (m : Maps) (cur : BundleSlot) (now len : ℕ) (buckets : Buckets)
    → upf_qer_admit build m now cur.qer_id len buckets
      ≡ upf_qer_admit build (named_by cur m) now cur.qer_id len buckets
unfolding upf_qer_admit
admit_named build m cur now len buckets =
    elim (Option-cases (map_lookup m "qer_table" cur.qer_id)) [
      | inl missing ↦ rw (qer_named cur m, upf_qer_admit) (rw (missing, upf_qer_admit) refl)
      | inr (b, found) ↦ rw (qer_named cur m, upf_qer_admit) (rw (found, upf_qer_admit) refl)
    ]

police_named :
    (build : Build) (h : Helpers) (m : Maps) (far : FarVal) (cur : BundleSlot) (s : State)
    → police build h m far cur s ≡ police build h (named_by cur m) far cur s
unfolding police
police_named build h m far cur s = rw (admit_named build m cur h.now h.inner_len s.buckets) refl

forward_named :
    (build : Build) (h : Helpers) (seen : ℕ → Maps) (cur : BundleSlot) (len : ℕ) (s : State)
    → upf_far_forward build h seen cur len s
      ≡ upf_far_forward build h (λ k. named_by cur (seen k)) cur len s
unfolding upf_far_forward
forward_named build h seen cur len s =
    elim (Option-cases (map_lookup (seen 3) "far_table" cur.far_id)) [
      | inl missing ↦ rw (far_named cur (seen 3), missing) refl
      | inr (b, found) ↦
          rw (far_named cur (seen 3), found, police_named build h (seen 4) (far_val b) cur s) refl
    ]

apply_named :
    (build : Build) (h : Helpers) (seen : ℕ → Maps) (ihl_bytes teid pdr_id : ℕ) (cur : BundleSlot)
    (far : FarVal) (s : State)
    → apply_far build h seen ihl_bytes teid pdr_id cur far s
      ≡ apply_far build h (λ k. named_by cur (seen k)) ihl_bytes teid pdr_id cur far s
unfolding apply_far
apply_named build h seen ihl_bytes teid pdr_id cur far s =
    rw (forward_named build h seen cur (ihl_bytes + 8 + 8) s) refl

pub bundle_named :
    (build : Build) (h : Helpers) (seen : ℕ → Maps) (ihl_bytes teid pdr_id : ℕ) (cur : BundleSlot)
    (s : State)
    → with_bundle build h seen ihl_bytes teid pdr_id cur s
      ≡ with_bundle build h (λ k. named_by cur (seen k)) ihl_bytes teid pdr_id cur s
unfolding with_bundle
bundle_named build h seen ihl_bytes teid pdr_id cur s =
    elim (Option-cases (map_lookup (seen 2) "far_table" cur.far_id)) [
      | inl missing ↦ rw (far_named cur (seen 2), with_bundle) (rw (missing, with_bundle) refl)
      | inr (b, found) ↦
          rw (far_named cur (seen 2), with_bundle)
            (rw (found, with_bundle)
              (apply_named build h seen ihl_bytes teid pdr_id cur (far_val b) s))
    ]
