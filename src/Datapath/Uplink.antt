-- ===== src/Datapath/Uplink.antt =====
-- `upf_xdp_uplink` of bpf/upf_xdp.c. The agent may write between two lookups of one run: `seen k`
-- is what the maps hold at lookup number k.
pub mod Accounts
use ebpf_upf.Prelude.{ℕ, List, [], ◌∷◌, ◌++◌, Option, none, some}
use ebpf_upf.Python.Struct.{Bytes}
use ebpf_upf.Maps.{Maps}
use ebpf_upf.Datapath.Tables.{SessionVal, session_val, map_lookup}
use ebpf_upf.Datapath.Packet.{Parsed, other, short, non_gtp, short_gtp, control, gpdu, parse, ◌>>=◌}
use ebpf_upf.Datapath.Stages.{
  m_rx_total, m_rx_gtpu, m_rx_gpdu, m_hit, m_miss_teid, m_miss_pdr, m_pass_nongtp, m_pass_ctrl,
  m_drop_parse,
}

pub data XdpAction : Type 0 where
  xdp_drop xdp_pass : XdpAction

unfoldable pub look_up_pdr : Maps → ℕ → XdpAction × List ℕ
look_up_pdr m pdr_id = elim (map_lookup m "pdr_table" pdr_id) [
  | none ↦ (xdp_drop, m_miss_pdr ∷ [])
  | some pdr ↦ (xdp_pass, m_hit ∷ [])
]

unfoldable pub look_up_session : (ℕ → Maps) → ℕ → XdpAction × List ℕ
unfolding look_up_pdr
look_up_session seen teid = elim (map_lookup (seen 0) "teid_session" teid) [
  | none ↦ (xdp_drop, m_miss_teid ∷ [])
  | some sess ↦ look_up_pdr (seen 1) (session_val sess).pdr_id
]

unfoldable pub classify : (ℕ → Maps) → Parsed → XdpAction × List ℕ
unfolding look_up_session
classify seen other = (xdp_pass, m_rx_total ∷ [])
classify seen short = (xdp_drop, m_rx_total ∷ m_drop_parse ∷ [])
classify seen non_gtp = (xdp_pass, m_rx_total ∷ m_pass_nongtp ∷ [])
classify seen short_gtp = (xdp_drop, m_rx_total ∷ m_rx_gtpu ∷ m_drop_parse ∷ [])
classify seen control = (xdp_pass, m_rx_total ∷ m_rx_gtpu ∷ m_pass_ctrl ∷ [])
classify seen (gpdu ihl_bytes teid) =
    let (action, bumps) = look_up_session seen teid in
    (action, m_rx_total ∷ m_rx_gtpu ∷ m_rx_gpdu ∷ bumps)

unfoldable pub upf_xdp_uplink : (ℕ → Maps) → Bytes → Option (XdpAction × List ℕ)
unfolding parse classify
upf_xdp_uplink seen d = do p ← parse d; some (classify seen p)
