-- ===== src/Agent/Modify/Writes.antt =====
-- One write of `modify_tc_bundle`, and what the datapath reads after it.
use mathlib.Core.Option
use ebpf_upf.Prelude.{
  ℕ, ◌-◌, ◌<◌, ◌^◌, ◌≡◌, ◌≢◌, subst, some, ◌⊎◌, inl, inr, ◌==◌, if◌then◌else◌, true, false, String,
  arith, ap, ◌∙◌,
}
use ebpf_upf.Python.{Exception, ok, os_error, struct_error}
use ebpf_upf.Python.Struct.{Bytes, le_bytes}
use ebpf_upf.Python.Struct.RoundTrip.{InRange, length-le_bytes}
use ebpf_upf.Maps.{Maps, PinnedMaps, Wrote}
use ebpf_upf.Maps.Logic.{Triple, Triple-bind-lift, Triple-update}
use ebpf_upf.Datapath.Tables.{BundleSlot, current_slot, bundle_of}
use ebpf_upf.Agent.Encoders.{slot_format, enc_u32}
use ebpf_upf.Agent.Layout.{enc_u32-key, enc_u32_ok}
use ebpf_upf.Agent.Layout.Bundle.{slot_fields}
use ebpf_upf.Agent.Slots.{enc_slot, enc_prepared}
use ebpf_upf.Agent.Slots.Reading.{current_slot-enc_prepared, enc_prepared-Fits, enc_prepared_ok}
use ebpf_upf.Agent.Modify.{write_bundle}

abbrev pub bundle_map : String
bundle_map = "tc_bundle_map"

-- Nothing but the bundle of one PDR differs.
pub record OthersSame (pdr_id : ℕ) (m0 m : Maps) : Type 0 where
  pub maps : (n : String) → n ≢ bundle_map → m n ≡ m0 n
  pub keys : (j : Bytes) → j ≢ le_bytes 4 pdr_id → m bundle_map j ≡ m0 bundle_map j

-- The datapath reads `slot` for this PDR, and nothing else has changed since `m0`.
pub record Shows (pdr_id : ℕ) (slot : BundleSlot) (m0 m : Maps) : Type 0 where
  pub bundle : bundle_of m pdr_id ≡ some slot
  pub same : OthersSame pdr_id m0 m

-- The identifier and the new tuple fit their fields.
abbrev pub Encodable : ℕ → BundleSlot → Type 0
Encodable pdr_id new = (pdr_id < 2 ^ 32) × InRange slot_format (slot_fields new)

-- After an exception the tuple from before is in force. `struct.error` is raised only for an
-- argument that does not fit.
abbrev pub Failed : ℕ → BundleSlot → BundleSlot → Maps → Exception → Maps → Type 0
Failed pdr_id old new m0 (os_error x) m = Shows pdr_id old m0 m
Failed pdr_id old new m0 struct_error m = Shows pdr_id old m0 m × ¬ Encodable pdr_id new
Failed pdr_id old new m0 _ m = ⊥

pub bundle_of-key :
    (m : Maps) (pdr_id : ℕ) (b : Bytes)
    → m bundle_map (le_bytes 4 pdr_id) ≡ some b
    → bundle_of m pdr_id ≡ some (current_slot b)
unfolding bundle_of
bundle_of-key m pdr_id b h = ap (Option.map current_slot) h

Shows-Wrote :
    (pdr_id : ℕ) (slot slot' : BundleSlot) (m0 m m' : Maps) (b : Bytes)
    → Shows pdr_id slot m0 m
    → Wrote bundle_map (le_bytes 4 pdr_id) b m m'
    → current_slot b ≡ slot'
    → Shows pdr_id slot' m0 m'
Shows-Wrote pdr_id slot slot' m0 m m' b s w e = record {
  bundle = rw (bundle_of-key m' pdr_id b w.here, e);
  same = record {
    maps = λ n h. w.others n h ∙ s.same.maps n h;
    keys = λ j h. w.elsewhere j h ∙ s.same.keys j h;
  };
}

module _ (M : PinnedMaps) (pdr_id : ℕ) (old new : BundleSlot) (m0 : Maps) where
  abbrev pub Either : Maps → Type 0
  Either m = Shows pdr_id old m0 m ⊎ Shows pdr_id new m0 m

  abbrev pub E : Exception → Maps → Type 0
  E = Failed pdr_id old new m0

  -- One write of the prepared slots while the old tuple is in force.
  module _ (small : pdr_id < 2 ^ 32) (active : ℕ) (bit : active < 2) {old_bytes new_bytes : Bytes}
      (packed_old : enc_slot old ≡ ok old_bytes) (packed_new : enc_slot new ≡ ok new_bytes) where
    abbrev pub chosen : ℕ → BundleSlot
    chosen live = if live == active then old else new

    chosen-Either : (live : ℕ) (m : Maps) → Shows pdr_id (chosen live) m0 m → Either m
    chosen-Either live m =
        elim (live == active) as (λ b. Shows pdr_id (if b then old else new) m0 m → Either m) [
          | true ↦ λ s. inl s
          | false ↦ λ s. inr s
        ]

    update-Shows :
        (live : ℕ)
        → live < 2
        → (b : Bytes) → enc_prepared live active old_bytes new_bytes ≡ ok b
        → Triple M Either
            (Shows pdr_id old m0)
            (M.update bundle_map (le_bytes 4 pdr_id) b)
            (λ _. Shows pdr_id (chosen live) m0)
            E
    update-Shows live h b packed =
        Triple-update M bundle_map (le_bytes 4 pdr_id) b
          (
            length-le_bytes 4 pdr_id,
            (enc_prepared-Fits live active old new bit h packed_old packed_new packed).0,
            (enc_prepared-Fits live active old new bit h packed_old packed_new packed).1,
          )
          (λ m s. inl s) (chosen-Either live) (λ x m s. s)
          (λ m m' s w.
            Shows-Wrote pdr_id old (chosen live) m0 m m' b s w
              (current_slot-enc_prepared live active old new bit h packed_old packed_new packed))

    write-Shows :
        (live : ℕ)
        → live < 2
        → Triple M Either
            (Shows pdr_id old m0)
            (write_bundle M pdr_id live active old_bytes new_bytes)
            (λ _. Shows pdr_id (chosen live) m0)
            E
    unfolding write_bundle
    write-Shows live h =
        Triple-bind-lift M (enc_u32 pdr_id)
          (λ key hk.
            Triple-bind-lift M (enc_prepared live active old_bytes new_bytes)
              (λ b packed. rw (enc_u32-key pdr_id hk).0 (update-Shows live h b packed))
              (λ e fails. cc (fails, (enc_prepared_ok live active old_bytes new_bytes h).1)))
          (λ e fails. cc (fails, enc_u32_ok pdr_id small))

    -- The first write, under the header from before, leaves the old tuple in force.
    pub first_write :
        Triple M Either
          (Shows pdr_id old m0)
          (write_bundle M pdr_id active active old_bytes new_bytes)
          (λ _. Shows pdr_id old m0)
          E
    first_write =
        let e : chosen active ≡ old = ground arith in
        subst
          (λ s.
            Triple M Either (Shows pdr_id old m0)
              (write_bundle M pdr_id active active old_bytes new_bytes) (λ _. Shows pdr_id s m0) E)
          e (write-Shows active bit)

    -- The second, under the other header, puts the new one in force.
    pub second_write :
        Triple M Either
          (Shows pdr_id old m0)
          (write_bundle M pdr_id (1 - active) active old_bytes new_bytes)
          (λ _. Shows pdr_id new m0)
          E
    second_write =
        let e : chosen (1 - active) ≡ new = ground arith in
        subst
          (λ s.
            Triple M Either (Shows pdr_id old m0)
              (write_bundle M pdr_id (1 - active) active old_bytes new_bytes)
              (λ _. Shows pdr_id s m0) E)
          e (write-Shows (1 - active) (omega arith))
