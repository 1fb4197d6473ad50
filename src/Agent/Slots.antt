-- ===== src/Agent/Slots.antt =====
-- The parts of `modify_tc_bundle` of loader/agent.py that compute on bytes: reading the bundle
-- that the kernel returned, merging the requested fields, and encoding the new bundle.
pub mod Reading
use ebpf_upf.Prelude.{ℕ, ◌+◌, ◌*◌, ◌%◌, List, [], ◌∷◌, Option, none, some, ◌==◌, if◌then◌else◌}
use ebpf_upf.Python.{Result, ok, err, value_error, ◌>>=◌}
use ebpf_upf.Python.Struct.{Bytes, little, unpack_from}
use ebpf_upf.Datapath.Tables.{BundleSlot}
use ebpf_upf.Agent.Encoders.{pair_format, slot_format, enc_bundle_slot, enc_bundle}

-- `active, _pad = ...` and the assignment of six names.
unfoldable pub first_of_two : List ℕ → Result ℕ
first_of_two (a ∷ b ∷ []) = ok a
first_of_two _ = err value_error

unfoldable pub slot_of_six : List ℕ → Result BundleSlot
slot_of_six (f ∷ q ∷ u ∷ p ∷ g ∷ z ∷ []) =
    ok (record { far_id = f; qer_id = q; urr_id = u; precedence = p; generation = g })
slot_of_six _ = err value_error

-- `active & 1` of the bundle as read.
unfoldable pub read_active : Bytes → Result ℕ
unfolding first_of_two
read_active raw = do
  head ← unpack_from little pair_format raw 0
  active ← first_of_two head
  ok (active % 2)

unfoldable pub read_slot : Bytes → ℕ → Result BundleSlot
unfolding slot_of_six
read_slot raw active = do
  fields ← unpack_from little slot_format raw (8 + active * 24)
  slot_of_six fields

-- `new if new is not None else cur`
unfoldable pub given_or : Option ℕ → ℕ → ℕ
given_or none cur = cur
given_or (some new) cur = new

-- The tuple that a modification asks for.
unfoldable pub modified : BundleSlot → Option ℕ → Option ℕ → Option ℕ → Option ℕ → BundleSlot
unfolding given_or
modified cur far_id qer_id urr_id precedence = record {
  far_id = given_or far_id cur.far_id;
  qer_id = given_or qer_id cur.qer_id;
  urr_id = given_or urr_id cur.urr_id;
  precedence = given_or precedence cur.precedence;
  generation = cur.generation + 1;
}

unfoldable pub enc_slot : BundleSlot → Result Bytes
enc_slot s = enc_bundle_slot s.far_id s.qer_id s.urr_id s.precedence s.generation

-- `slots_prep[active] = cur; slots_prep[1 - active] = new`, and then the encoded bundle that names
-- `live`.
unfoldable pub enc_prepared : ℕ → ℕ → Bytes → Bytes → Result Bytes
enc_prepared live active cur new =
    if active == 0 then enc_bundle live cur new else enc_bundle live new cur
