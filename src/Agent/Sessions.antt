-- ===== src/Agent/Sessions.antt =====
-- Installing and removing one session, loader/agent.py: three maps in a fixed order.
pub mod Presence
pub mod Order
pub mod Removal
use ebpf_upf.Prelude.{ℕ}
use ebpf_upf.Python.Exec.{Exec, lift, ◌>>=◌, ◌>>◌}
use ebpf_upf.Maps.{PinnedMaps}
use ebpf_upf.Agent.Encoders.{enc_u32, enc_session, enc_pdr, enc_bundle_slot, enc_bundle}
use ebpf_upf.Agent.Tables.{map_update, map_delete}

module _ (M : PinnedMaps) where
  open M use {World}

  unfoldable pub install_tc_bundle : ℕ → ℕ → ℕ → ℕ → ℕ → ℕ → Exec World (Unit {0})
  install_tc_bundle pdr_id far_id qer_id urr_id precedence generation = do
    slot ← lift (enc_bundle_slot far_id qer_id urr_id precedence generation)
    key ← lift (enc_u32 pdr_id)
    val ← lift (enc_bundle 0 slot slot)
    map_update M "tc_bundle_map" key val

  unfoldable pub install_pdr : ℕ → ℕ → ℕ → ℕ → ℕ → Exec World (Unit {0})
  install_pdr pdr_id far_id qer_id precedence urr_id = do
    key ← lift (enc_u32 pdr_id)
    val ← lift (enc_pdr far_id qer_id precedence urr_id)
    map_update M "pdr_table" key val

  unfoldable pub install_teid : ℕ → ℕ → ℕ → ℕ → Exec World (Unit {0})
  install_teid teid pdr_id qer_id far_id = do
    key ← lift (enc_u32 teid)
    val ← lift (enc_session pdr_id qer_id far_id)
    map_update M "teid_session" key val

  unfoldable pub install_session : ℕ → ℕ → ℕ → ℕ → ℕ → ℕ → Exec World (Unit {0})
  unfolding install_pdr install_teid
  install_session teid pdr_id qer_id far_id precedence urr_id = do
    install_pdr pdr_id far_id qer_id precedence urr_id
    install_tc_bundle pdr_id far_id qer_id urr_id precedence 0
    install_teid teid pdr_id qer_id far_id

  unfoldable pub remove_session : ℕ → ℕ → Exec World (Unit {0})
  remove_session teid pdr_id = do
    key ← lift (enc_u32 teid)
    map_delete M "teid_session" key
    pdr_key ← lift (enc_u32 pdr_id)
    map_delete M "pdr_table" pdr_key
    bundle_key ← lift (enc_u32 pdr_id)
    map_delete M "tc_bundle_map" bundle_key
