-- ===== src/Agent/Modify.antt =====
-- `modify_tc_bundle` of loader/agent.py: the two writes of the double buffer.
pub mod Writes
pub mod Atomic
use ebpf_upf.Prelude.{ℕ, ◌+◌, ◌-◌, Option}
use ebpf_upf.Python.Exec.{Exec, lift, pure, ◌>>=◌, ◌>>◌}
use ebpf_upf.Python.Struct.{Bytes}
use ebpf_upf.Maps.{PinnedMaps}
use ebpf_upf.Agent.Encoders.{enc_u32}
use ebpf_upf.Agent.Slots.{read_active, read_slot, modified, enc_slot, enc_prepared}
use ebpf_upf.Agent.Tables.{map_update}

module _ (M : PinnedMaps) where
  open M use {World, lookup}

  -- One of the two writes: the prepared slots under the header that names `live`.
  unfoldable pub write_bundle : ℕ → ℕ → ℕ → Bytes → Bytes → Exec World (Unit {0})
  write_bundle pdr_id live active cur_bytes new_bytes = do
    key ← lift (enc_u32 pdr_id)
    val ← lift (enc_prepared live active cur_bytes new_bytes)
    map_update M "tc_bundle_map" key val

  -- Returns the new generation. `none` stands for an argument that is not given.
  unfoldable pub modify_tc_bundle : ℕ → Option ℕ → Option ℕ → Option ℕ → Option ℕ → Exec World ℕ
  unfolding write_bundle
  modify_tc_bundle pdr_id far_id qer_id urr_id precedence = do
    key ← lift (enc_u32 pdr_id)
    raw ← lookup "tc_bundle_map" key (4 + 4 + 24 + 24)
    active ← lift (read_active raw)
    cur ← lift (read_slot raw active)
    let inactive = 1 - active
    let new = modified cur far_id qer_id urr_id precedence
    cur_slot_bytes ← lift (enc_slot cur)
    new_slot_bytes ← lift (enc_slot new)
    write_bundle pdr_id active active cur_slot_bytes new_slot_bytes
    write_bundle pdr_id inactive active cur_slot_bytes new_slot_bytes
    pure new.generation
