-- ===== src/Agent/Layout/Bundle.antt =====
-- `struct tc_bundle`: what the agent encodes is what the datapath reads.
use mathlib.Core.List.{append-nil, append_assoc}
use ebpf_upf.Prelude.{
  ℕ, ◌<◌, ◌≡◌, List, [], ◌∷◌, ◌++◌, length, drop, subst, length-append, drop-append, All, ◌==◌,
  if◌then◌else◌, arith,
}
use ebpf_upf.Python.{ok, bind_inv}
use ebpf_upf.Python.Struct.{IsByte, Bytes, little, pack, split}
use ebpf_upf.Python.Struct.RoundTrip.{All-append, pack-IsByte, pack-ok, split-pack, length-pack}
use ebpf_upf.Maps.{value_size}
use ebpf_upf.Datapath.Tables.{u32, BundleSlot, bundle_slot, current_slot}
use ebpf_upf.Agent.Encoders.{slot_format, pair_format, enc_bundle}
use ebpf_upf.Agent.Layout.{split_slot, split_pair}

abbrev pub slot_fields : BundleSlot → List ℕ
slot_fields s = s.far_id ∷ s.qer_id ∷ s.urr_id ∷ s.precedence ∷ s.generation ∷ 0 ∷ []

-- A packed slot at any offset of a buffer.
bundle_slot-pack :
    (s : BundleSlot) (front more : Bytes) {b : Bytes}
    → pack little slot_format (slot_fields s) ≡ ok b
    → bundle_slot (front ++ (b ++ more)) (length front) ≡ s
unfolding bundle_slot
bundle_slot-pack s front more {b} h =
    ground (arith, split_slot (front ++ (b ++ more)) (length front), whole)
  where
    whole : split little slot_format (drop (length front) (front ++ (b ++ more))) ≡ slot_fields s
    whole = rw drop-append (split-pack little slot_format (slot_fields s) more h)

-- What `enc_bundle` made of two packed slots, as the datapath reads it.
module _ (active : ℕ) (s0 s1 : BundleSlot) {b0 b1 b : Bytes}
    (packed0 : pack little slot_format (slot_fields s0) ≡ ok b0)
    (packed1 : pack little slot_format (slot_fields s1) ≡ ok b1)
    (packed : enc_bundle active b0 b1 ≡ ok b) where
  head_of :
      (hd : Bytes) × (pack little pair_format (active ∷ 0 ∷ []) ≡ ok hd) × (b ≡ hd ++ (b0 ++ b1))
  unfolding enc_bundle
  head_of =
      let (hd, e, whole) = bind_inv (pack little pair_format (active ∷ 0 ∷ [])) _ packed in
      (hd, e, cc (whole, append_assoc hd b0 b1))

  pub length-enc_bundle : length b ≡ value_size "tc_bundle_map"
  length-enc_bundle =
      let (hd, e, whole) = head_of in
      rw (
        whole,
        length-append hd (b0 ++ b1),
        length-append b0 b1,
        length-pack little pair_format _ e,
        length-pack little slot_format _ packed0,
        length-pack little slot_format _ packed1,
      )

  pub active-enc_bundle : u32 b 0 ≡ active
  active-enc_bundle =
      let (hd, e, whole) = head_of in
      let fields : split little pair_format b ≡ active ∷ 0 ∷ [] =
        rw whole (split-pack little pair_format _ (b0 ++ b1) e) in
      cc (fields, split_pair b)

  pub slot0-enc_bundle : bundle_slot b 8 ≡ s0
  slot0-enc_bundle =
      let (hd, e, whole) = head_of in
      rw whole (
        subst (λ n. bundle_slot (hd ++ (b0 ++ b1)) n ≡ s0) (length-pack little pair_format _ e)
          (bundle_slot-pack s0 hd b1 packed0))

  pub slot1-enc_bundle : bundle_slot b 32 ≡ s1
  slot1-enc_bundle =
      let (hd, e, whole) = head_of in
      let front : length (hd ++ b0) ≡ 32 = rw (
        length-append hd b0,
        length-pack little pair_format _ e,
        length-pack little slot_format _ packed0,
      ) in
      let whole' : b ≡ (hd ++ b0) ++ (b1 ++ []) =
        rw (whole, append_assoc hd b0 (b1 ++ []), append-nil) in
      rw whole' (
        subst (λ n. bundle_slot ((hd ++ b0) ++ (b1 ++ [])) n ≡ s1) front
          (bundle_slot-pack s1 (hd ++ b0) [] packed1))

  -- The slot that the datapath takes is the one that `active` names.
  pub current_slot-enc_bundle : active < 2 → current_slot b ≡ (if active == 0 then s0 else s1)
  unfolding current_slot
  current_slot-enc_bundle small =
      ground (arith, active-enc_bundle, slot0-enc_bundle, slot1-enc_bundle)

  pub enc_bundle-IsByte : All IsByte b
  enc_bundle-IsByte =
      let (hd, e, whole) = head_of in
      let slots =
        All-append b0 b1 (pack-IsByte little slot_format _ packed0)
          (pack-IsByte little slot_format _ packed1) in
      rw whole (All-append hd (b0 ++ b1) (pack-IsByte little pair_format _ e) slots)

-- The header is all that `enc_bundle` encodes itself.
pub enc_bundle_ok :
    (active : ℕ) (b0 b1 : Bytes) → active < 2 → (b : Bytes) × (enc_bundle active b0 b1 ≡ ok b)
unfolding enc_bundle
enc_bundle_ok active b0 b1 small =
    let (hd, e) = pack-ok little pair_format (active ∷ 0 ∷ []) (omega arith) in
    ((hd ++ b0) ++ b1, rw e)
