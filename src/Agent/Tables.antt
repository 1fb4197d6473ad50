-- ===== src/Agent/Tables.antt =====
-- Map operations and the installation of single table entries, loader/agent.py.
pub mod Install
use ebpf_upf.Prelude.{ℕ, String}
use ebpf_upf.Python.Exec.{Exec, lift, except_os_error, ◌>>=◌}
use ebpf_upf.Python.Struct.{Bytes}
use ebpf_upf.Maps.{PinnedMaps}
use ebpf_upf.Agent.Encoders.{enc_u32, enc_far, enc_qer}

module _ (M : PinnedMaps) where
  open M use {World, update, delete}

  abbrev pub map_update : String → Bytes → Bytes → Exec World (Unit {0})
  map_update name key_bytes val_bytes = update name key_bytes val_bytes

  -- An `OSError` is ignored, also that of a map that cannot be opened.
  abbrev pub map_delete : String → Bytes → Exec World (Unit {0})
  map_delete name key_bytes = except_os_error (delete name key_bytes)

  unfoldable pub install_far : ℕ → ℕ → ℕ → ℕ → ℕ → Exec World (Unit {0})
  install_far far_id action out_ifindex peer_ipv4_be out_teid_be = do
    key ← lift (enc_u32 far_id)
    val ← lift (enc_far action out_ifindex peer_ipv4_be out_teid_be)
    map_update "far_table" key val

  unfoldable pub install_qer : ℕ → ℕ → ℕ → ℕ → Exec World (Unit {0})
  install_qer qer_id mbr_ul_bps mbr_dl_bps burst_bytes = do
    key ← lift (enc_u32 qer_id)
    val ← lift (enc_qer mbr_ul_bps mbr_dl_bps burst_bytes)
    map_update "qer_table" key val
