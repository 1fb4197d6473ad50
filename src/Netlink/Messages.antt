-- ===== src/Netlink/Messages.antt =====
-- `add_far` and `add_pdr` of results_native/gtp5g_baseline/gtp5g_genl.py: the attributes of the two
-- commands. An argument that is `None` is `none`.
pub mod Far
pub mod Pdr
use ebpf_upf.Prelude.{ℕ, [], ◌∷◌, ◌++◌, Option, none, some, true, ◌==◌, if◌then◌else◌}
use ebpf_upf.Python.{Result, ok, ◌>>=◌}
use ebpf_upf.Python.Struct.{Bytes}
use ebpf_upf.Netlink.Attributes.{nla_nested, nla_u8, nla_u16, nla_u32, nla_be32}

abbrev pub gtp5g_cmd_add_pdr : ℕ
gtp5g_cmd_add_pdr = 1

abbrev pub gtp5g_cmd_add_far : ℕ
gtp5g_cmd_add_far = 2

abbrev pub gtp5g_link : ℕ
gtp5g_link = 1

abbrev pub gtp5g_pdr_id : ℕ
gtp5g_pdr_id = 3

abbrev pub gtp5g_pdr_precedence : ℕ
gtp5g_pdr_precedence = 4

abbrev pub gtp5g_pdr_pdi : ℕ
gtp5g_pdr_pdi = 5

abbrev pub gtp5g_outer_header_removal : ℕ
gtp5g_outer_header_removal = 6

abbrev pub gtp5g_pdr_far_id : ℕ
gtp5g_pdr_far_id = 7

abbrev pub gtp5g_pdi_ue_addr_ipv4 : ℕ
gtp5g_pdi_ue_addr_ipv4 = 1

abbrev pub gtp5g_pdi_f_teid : ℕ
gtp5g_pdi_f_teid = 2

abbrev pub gtp5g_pdi_src_intf : ℕ
gtp5g_pdi_src_intf = 4

abbrev pub gtp5g_f_teid_i_teid : ℕ
gtp5g_f_teid_i_teid = 1

abbrev pub gtp5g_f_teid_gtpu_addr_ipv4 : ℕ
gtp5g_f_teid_gtpu_addr_ipv4 = 2

abbrev pub gtp5g_far_id : ℕ
gtp5g_far_id = 3

abbrev pub gtp5g_far_apply_action : ℕ
gtp5g_far_apply_action = 4

abbrev pub gtp5g_far_forwarding_parameter : ℕ
gtp5g_far_forwarding_parameter = 5

abbrev pub outer_header_creation : ℕ
outer_header_creation = 1

abbrev pub outer_header_creation_description : ℕ
outer_header_creation_description = 1

abbrev pub outer_header_creation_o_teid : ℕ
outer_header_creation_o_teid = 2

abbrev pub outer_header_creation_peer_addr_ipv4 : ℕ
outer_header_creation_peer_addr_ipv4 = 3

abbrev pub outer_header_creation_port : ℕ
outer_header_creation_port = 4

abbrev pub far_action_drop : ℕ
far_action_drop = 1

abbrev pub far_action_forw : ℕ
far_action_forw = 2

abbrev pub gtpu_udp_ipv4 : ℕ
gtpu_udp_ipv4 = 256

-- `if x is not None: attrs += nla(...)`
abbrev pub if_given : Option ℕ → (ℕ → Result Bytes) → Result Bytes
if_given none f = ok []
if_given (some x) f = f x

unfoldable pub outer_header : ℕ → ℕ → ℕ → Result Bytes
outer_header o_teid peer_ipv4 port = do
  description ← nla_u16 outer_header_creation_description gtpu_udp_ipv4
  teid ← nla_u32 outer_header_creation_o_teid o_teid
  peer ← nla_be32 outer_header_creation_peer_addr_ipv4 peer_ipv4
  port_attr ← nla_u16 outer_header_creation_port port
  ok (((description ++ teid) ++ peer) ++ port_attr)

-- The forwarding parameter, which only a forwarding FAR with both of its arguments has.
unfoldable pub forwarding : ℕ → Option ℕ → Option ℕ → ℕ → Result Bytes
unfolding outer_header
forwarding action (some o_teid) (some peer_ipv4) port =
    if action == far_action_forw
    then (do
      ohc ← outer_header o_teid peer_ipv4 port
      fwd_param ← nla_nested outer_header_creation (ohc ∷ [])
      nla_nested gtp5g_far_forwarding_parameter (fwd_param ∷ []))
    else ok []
forwarding action o_teid peer_ipv4 port = ok []

unfoldable pub far_attrs : ℕ → ℕ → ℕ → Option ℕ → Option ℕ → ℕ → Result Bytes
far_attrs ifindex far_id action o_teid peer_ipv4 port = do
  link ← nla_u32 gtp5g_link ifindex
  id ← nla_u32 gtp5g_far_id far_id
  apply ← nla_u16 gtp5g_far_apply_action action
  forward ← forwarding action o_teid peer_ipv4 port
  ok (((link ++ id) ++ apply) ++ forward)

unfoldable pub f_teid_attrs : Option ℕ → Option ℕ → Result Bytes
f_teid_attrs none none = ok []
f_teid_attrs i_teid gtpu_addr_ipv4 = do
  teid ← if_given i_teid (nla_u32 gtp5g_f_teid_i_teid)
  addr ← if_given gtpu_addr_ipv4 (nla_be32 gtp5g_f_teid_gtpu_addr_ipv4)
  nla_nested gtp5g_pdi_f_teid ((teid ++ addr) ∷ [])

unfoldable pub pdi_attrs : Option ℕ → Option ℕ → Option ℕ → Option ℕ → Result Bytes
pdi_attrs ue_addr_ipv4 i_teid gtpu_addr_ipv4 src_intf = do
  ue ← if_given ue_addr_ipv4 (nla_be32 gtp5g_pdi_ue_addr_ipv4)
  f_teid ← f_teid_attrs i_teid gtpu_addr_ipv4
  intf ← if_given src_intf (nla_u8 gtp5g_pdi_src_intf)
  ok ((ue ++ f_teid) ++ intf)

-- `if pdi: attrs += ...`
unfoldable pub pdi_nested : Bytes → Result Bytes
pdi_nested [] = ok []
pdi_nested (b ∷ bs) = nla_nested gtp5g_pdr_pdi ((b ∷ bs) ∷ [])

unfoldable pub pdr_attrs :
    ℕ → ℕ → ℕ → ℕ → Option ℕ → Option ℕ → Option ℕ → Option ℕ → Option ℕ → Result Bytes
pdr_attrs ifindex pdr_id precedence far_id ue_addr_ipv4 i_teid gtpu_addr_ipv4 src_intf
      outer_header_removal =
    do
      link ← nla_u32 gtp5g_link ifindex
      id ← nla_u16 gtp5g_pdr_id pdr_id
      prec ← nla_u32 gtp5g_pdr_precedence precedence
      removal ← if_given outer_header_removal (nla_u8 gtp5g_outer_header_removal)
      pdi ← pdi_attrs ue_addr_ipv4 i_teid gtpu_addr_ipv4 src_intf
      nested ← pdi_nested pdi
      far ← nla_u32 gtp5g_pdr_far_id far_id
      ok (((((link ++ id) ++ prec) ++ removal) ++ nested) ++ far)
