-- ===== src/Agent/Slots/Reading.antt =====
-- `modify_tc_bundle` reads the slot that the datapath reads, and its writes are what it means to write.
use native.Mathlib.Nat.{pow-suc, pow-le-pow_right}
use ebpf_upf.Prelude.{
  zero, suc, ◌≤◌, take, drop, All, length-take, ℕ, ◌+◌, ◌*◌, ◌%◌, ◌<◌, ◌^◌, ◌≡◌, refl, [], ◌∷◌, ◌⊎◌,
  inl, inr, length, ◌==◌, if◌then◌else◌, Bool-cases, arith,
}
use ebpf_upf.Python.{ok}
use ebpf_upf.Python.Struct.{Bytes, IsByte, le_value, little, unpack_from, pack}
use ebpf_upf.Python.Struct.RoundTrip.{InRange}
use ebpf_upf.Maps.{value_size}
use ebpf_upf.Datapath.Tables.{BundleSlot, u32, bundle_slot, current_slot}
use ebpf_upf.Agent.Encoders.{slot_format, enc_bundle_slot, enc_bundle}
use ebpf_upf.Agent.Layout.{split_slot, split_pair}
use ebpf_upf.Agent.Layout.Bundle.{
  slot_fields, current_slot-enc_bundle, length-enc_bundle, enc_bundle-IsByte, enc_bundle_ok,
}
use ebpf_upf.Agent.Slots.{read_active, read_slot, enc_slot, enc_prepared}

module _ (raw : Bytes) (sized : length raw ≡ 56) where
  pub read_active_lem : read_active raw ≡ ok (u32 raw 0 % 2)
  unfolding read_active unpack_from
  read_active_lem = ground (arith, split_pair raw)

  pub read_slot_lem : (a : ℕ) → a < 2 → read_slot raw a ≡ ok (bundle_slot raw (8 + a * 24))
  unfolding read_slot unpack_from bundle_slot
  read_slot_lem a h = ground (arith, split_slot raw (8 + a * 24))

le_value-lt : (bs : Bytes) → All IsByte bs → le_value bs < 256 ^ length bs
unfolding le_value
le_value-lt [] h = omega arith
le_value-lt (b ∷ bs) (hb, hbs) = omega (arith, le_value-lt bs hbs, pow-suc 256 (length bs))

All-drop : (n : ℕ) (bs : Bytes) → All IsByte bs → All IsByte (drop n bs)
All-drop zero bs h = h
All-drop (suc n) [] h = tt
All-drop (suc n) (b ∷ bs) (hb, hbs) = All-drop n bs hbs

All-take : (n : ℕ) (bs : Bytes) → All IsByte bs → All IsByte (take n bs)
All-take zero bs h = tt
All-take (suc n) [] h = tt
All-take (suc n) (b ∷ bs) (hb, hbs) = (hb, All-take n bs hbs)

pub u32-lt : (bs : Bytes) (off : ℕ) → All IsByte bs → u32 bs off < 2 ^ 32
unfolding u32
u32-lt bs off h =
    let word = take 4 (drop off bs) in
    let short : length word ≤ 4 = omega (arith, length-take 4 (drop off bs)) in
    let grown = pow-le-pow_right {n = 256} (omega arith) short in
    omega (arith, grown, le_value-lt word (All-take 4 (drop off bs) (All-drop off bs h)))

-- The slot that is read is encoded again without an error.
pub bundle_slot-InRange :
    (bs : Bytes) (off : ℕ) → All IsByte bs → InRange slot_format (slot_fields (bundle_slot bs off))
unfolding bundle_slot
bundle_slot-InRange bs off h = (
  u32-lt bs off h,
  (
    u32-lt bs (off + 4) h,
    (u32-lt bs (off + 8) h, (u32-lt bs (off + 12) h, (u32-lt bs (off + 16) h, (omega arith, tt)))),
  ),
)

pub enc_slot_lem : (s : BundleSlot) → enc_slot s ≡ pack little slot_format (slot_fields s)
unfolding enc_slot enc_bundle_slot
enc_slot_lem s = refl

-- The bundle that names `live` is read as the current slot if `live` is the active one, and as the
-- new slot if not.
module _ (live active : ℕ) (cur new : BundleSlot) {cur_bytes new_bytes b : Bytes}
    (small : active < 2) (small' : live < 2) (packed_cur : enc_slot cur ≡ ok cur_bytes)
    (packed_new : enc_slot new ≡ ok new_bytes)
    (packed : enc_prepared live active cur_bytes new_bytes ≡ ok b) where
  pc : pack little slot_format (slot_fields cur) ≡ ok cur_bytes
  pc = rw enc_slot_lem at packed_cur

  pn : pack little slot_format (slot_fields new) ≡ ok new_bytes
  pn = rw enc_slot_lem at packed_new

  order_cases :
      ((active ≡ 0) × (enc_bundle live cur_bytes new_bytes ≡ ok b))
      ⊎ ((active ≡ 1) × (enc_bundle live new_bytes cur_bytes ≡ ok b))
  unfolding enc_prepared
  order_cases = elim (Bool-cases (active == 0)) [
    | inl z ↦ inl (ground arith, rw z at packed)
    | inr o ↦ inr (ground arith, rw o at packed)
  ]

  pub current_slot-enc_prepared : current_slot b ≡ (if live == active then cur else new)
  current_slot-enc_prepared = elim order_cases [
    | inl (z, direct) ↦ ground (arith, current_slot-enc_bundle live cur new pc pn direct small')
    | inr (o, direct) ↦ ground (arith, current_slot-enc_bundle live new cur pn pc direct small')
  ]

  pub enc_prepared-Fits : (length b ≡ value_size "tc_bundle_map") × All IsByte b
  enc_prepared-Fits = elim order_cases [
    | inl (z, direct) ↦
        (length-enc_bundle live cur new pc pn direct, enc_bundle-IsByte live cur new pc pn direct)
    | inr (o, direct) ↦
        (length-enc_bundle live new cur pn pc direct, enc_bundle-IsByte live new cur pn pc direct)
  ]

pub enc_prepared_ok :
    (live active : ℕ) (cur new : Bytes)
    → live < 2
    → (b : Bytes) × (enc_prepared live active cur new ≡ ok b)
unfolding enc_prepared
enc_prepared_ok live active cur new small = elim (Bool-cases (active == 0)) [
  | inl z ↦ rw z (enc_bundle_ok live cur new small)
  | inr o ↦ rw o (enc_bundle_ok live new cur small)
]
