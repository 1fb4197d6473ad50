-- ===== src/Examples/Agent.antt =====
-- The agent's operations at concrete inputs.
use ebpf_upf.Prelude.{
  arith, Bool-cases, inl, inr, sym, ℕ, ◌+◌, [], ◌∷◌, ◌++◌, ◌≡◌, ◌⊎◌, some, none, refl, replicate,
}
use ebpf_upf.Python.{ok, ◌>>=◌}
use ebpf_upf.Python.Struct.{Bytes, le_bytes, pack, to_bytes, unpack_from, from_bytes}
use ebpf_upf.Maps.{key_size, value_size}
use ebpf_upf.Maps.Logic.{Reaches}
use ebpf_upf.Kernel.Tables
use ebpf_upf.Kernel.Tables.{run, find, is_at, bytes_eq}
use ebpf_upf.Kernel.Tables.Laws.{bytes_eq_iff}
use ebpf_upf.Syscall.{
  World, update, delete, bpf_map_delete_elem, lookup, fd, bpf_obj_get, bpf_map_update_elem,
  bpf_map_lookup_elem,
}
use ebpf_upf.Datapath.Tables.{current_slot}
use ebpf_upf.Agent.Layout.Sizes.{Sized, encoders-Sized}
use ebpf_upf.Agent.Encoders.{
  enc_far, enc_qer, enc_u32, enc_pdr, enc_session, enc_bundle_slot, enc_bundle,
}
use ebpf_upf.Agent.Slots.{modified, read_active, read_slot, enc_slot, enc_prepared}
use ebpf_upf.Agent.Sessions.{remove_session, install_session, install_tc_bundle}
use ebpf_upf.Agent.Sessions.Presence.{Resolved}
use ebpf_upf.Agent.Sessions.Removal.Entries.{OnlyUser}
use ebpf_upf.Agent.Sessions.Removal.{InOrder, Removed, Unencoded, remove_session_safe}
use ebpf_upf.Agent.Sessions.Order.{Installed, Stopped, install_session_ordered}
use ebpf_upf.Agent.Modify.{modify_tc_bundle}
use ebpf_upf.Agent.Modify.Writes.{Shows, Failed}
use ebpf_upf.Agent.Modify.Atomic.{modify_tc_bundle_atomic}
use ebpf_upf.EndToEnd.Removal.{Spared, remove_session_spares}
use ebpf_upf.EndToEnd.Transitions.{HandledBy, modify_tc_bundle_decides}
use ebpf_upf.Examples.Start.{maps, fresh, fresh-IsOpen, fresh-Resolved, one_session}

-- All that a run of `install_session` computes with.
installs : ℕ
unfolding install_session install_tc_bundle enc_u32 enc_pdr enc_session enc_bundle_slot enc_bundle
    pack to_bytes update fd bpf_obj_get bpf_map_update_elem run
installs = 0

test_install_session : (install_session maps 0x1000 0x2000 1 1 100 1 fresh).0 ≡ ok tt
unfolding installs
test_install_session = refl

install_session_ordered_example :
    Reaches maps Resolved
      (λ _. Installed maps 0x1000 0x2000 1 1 100 1)
      (Stopped maps 0x1000 0x2000 1 1 100 1)
      (install_session maps 0x1000 0x2000 1 1 100 1 fresh)
install_session_ordered_example =
    install_session_ordered maps 0x1000 0x2000 1 1 100 1 fresh fresh-IsOpen tt fresh-Resolved

-- The bundle that `install_session` wrote: slot 0 is active, and both slots are alike.
abbrev slot_bytes : Bytes
slot_bytes = 1 ∷ 0 ∷ 0 ∷ 0 ∷ 1 ∷ 0 ∷ 0 ∷ 0 ∷ 1 ∷ 0 ∷ 0 ∷ 0 ∷ 100 ∷ replicate 11 0

abbrev bundle_bytes : Bytes
bundle_bytes = replicate 8 0 ++ (slot_bytes ++ slot_bytes)

-- The record of passed contents starts here.
abbrev pub start : World Tables.Tables
start = record one_session { trace = one_session.kernel ∷ [] }

pub start-IsOpen : maps.IsOpen start
start-IsOpen = record {
  valid = install_session_ordered_example.opened.valid;
  cached = install_session_ordered_example.opened.cached;
}

holds_bundle : maps.content start "tc_bundle_map" (le_bytes 4 0x2000) ≡ some bundle_bytes
unfolding installs
holds_bundle = refl

test_modify_tc_bundle : (modify_tc_bundle maps 0x2000 (some 3) (some 3) none none start).0 ≡ ok 1
unfolding modify_tc_bundle installs lookup bpf_map_lookup_elem read_active unpack_from read_slot
    from_bytes enc_slot modified enc_prepared
test_modify_tc_bundle = refl

modify_tc_bundle_atomic_example :
    Reaches maps
      (λ m.
        Shows 0x2000 (current_slot bundle_bytes) (maps.content start) m
        ⊎ Shows 0x2000
            (modified (current_slot bundle_bytes) (some 3) (some 3) none none)
            (maps.content start)
            m)
      (λ g m.
        (g ≡ (current_slot bundle_bytes).generation + 1)
        × Shows 0x2000
            (modified (current_slot bundle_bytes) (some 3) (some 3) none none)
            (maps.content start)
            m)
      (Failed 0x2000
        (current_slot bundle_bytes)
        (modified (current_slot bundle_bytes) (some 3) (some 3) none none)
        (maps.content start))
      (modify_tc_bundle maps 0x2000 (some 3) (some 3) none none start)
modify_tc_bundle_atomic_example =
    modify_tc_bundle_atomic maps 0x2000 (some 3) (some 3) none none start bundle_bytes start-IsOpen
      refl holds_bundle

start-Resolved : Resolved (maps.content start)
unfolding installs
start-Resolved = install_session_ordered_example.ends.0

start-OnlyUser : OnlyUser 0x1000 0x2000 (maps.content start)
unfolding installs is_at le_bytes
start-OnlyUser j (v, held, uses) =
    let key : Bytes = 0 ∷ 16 ∷ 0 ∷ 0 ∷ [] in
    elim (Bool-cases (bytes_eq key j)) [
      | inl same ↦ sym ((bytes_eq_iff key j).0 same)
      | inr other ↦ cc (rw other at held)
    ]

remove_session_safe_example :
    Reaches maps
      (InOrder maps 0x1000 0x2000 start)
      (λ _. Removed maps 0x1000 0x2000 start)
      (Unencoded maps 0x1000 0x2000 start)
      (remove_session maps 0x1000 0x2000 start)
remove_session_safe_example =
    remove_session_safe maps 0x1000 0x2000 start start-IsOpen refl start-Resolved start-OnlyUser

test_remove_session :
    maps.content (remove_session maps 0x1000 0x2000 start).1 "pdr_table" (le_bytes 4 0x2000) ≡ none
unfolding remove_session delete bpf_map_delete_elem installs
test_remove_session = refl

modify_tc_bundle_decides_example :
    Reaches maps
      (λ m.
        HandledBy 0x2000 (current_slot bundle_bytes) m
        ⊎ HandledBy 0x2000 (modified (current_slot bundle_bytes) (some 3) (some 3) none none) m)
      (λ g. HandledBy 0x2000 (modified (current_slot bundle_bytes) (some 3) (some 3) none none))
      (λ e. HandledBy 0x2000 (current_slot bundle_bytes))
      (modify_tc_bundle maps 0x2000 (some 3) (some 3) none none start)
modify_tc_bundle_decides_example =
    modify_tc_bundle_decides maps 0x2000 (some 3) (some 3) none none start bundle_bytes start-IsOpen
      refl holds_bundle

remove_session_spares_example :
    Reaches maps
      (Spared 0x1001 (maps.content start))
      (λ _. Spared 0x1001 (maps.content start))
      (λ e. Spared 0x1001 (maps.content start))
      (remove_session maps 0x1000 0x2000 start)
remove_session_spares_example =
    remove_session_spares maps 0x1000 0x2000 0x1001 start start-IsOpen refl start-Resolved
      start-OnlyUser (omega arith) (omega arith) (omega arith)

encoders-Sized_example :
    Sized key_size (enc_u32 1)
    × Sized (value_size "teid_session") (enc_session 1 2 3)
    × Sized (value_size "pdr_table") (enc_pdr 1 2 3 4)
    × Sized (value_size "far_table") (enc_far 1 2 3 4)
    × Sized (value_size "qer_table") (enc_qer 1 2 3)
    × Sized (value_size "tc_bundle_map") (do
      slot0 ← enc_bundle_slot 1 2 3 4 5
      slot1 ← enc_bundle_slot 6 7 8 9 10
      enc_bundle 0 slot0 slot1)
encoders-Sized_example = encoders-Sized 1 2 3 4 5 6 7 8 9 10 0
