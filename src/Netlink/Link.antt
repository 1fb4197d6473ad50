-- ===== src/Netlink/Link.antt =====
-- results_native/gtp5g_baseline/gtp5g_link_add.py: a gtp5g network device is created by one rtnetlink
-- request, which hands the kernel a bound UDP socket. The script has its own attribute encoders.
pub mod Reading
pub mod Creation
pub mod Outcomes
use ebpf_upf.Prelude.{ℕ, ◌+◌, ◌%◌, ◌^◌, List, [], ◌∷◌, ◌++◌, length, replicate, codes}
use ebpf_upf.Python.{Result, ok, ◌>>=◌}
use ebpf_upf.Python.Struct.{Bytes, Format, little, pack}
use ebpf_upf.Netlink.Attributes.{nla_format, padding, join}
use ebpf_upf.Netlink.Replies.{nlmsghdr_format}

abbrev pub rtm_newlink : ℕ
rtm_newlink = 16

-- NLM_F_REQUEST | NLM_F_ACK | NLM_F_CREATE | NLM_F_EXCL
abbrev pub newlink_flags : ℕ
newlink_flags = 0x1 + 0x4 + 0x400 + 0x200

abbrev pub ifla_ifname : ℕ
ifla_ifname = 3

abbrev pub ifla_linkinfo : ℕ
ifla_linkinfo = 18

abbrev pub ifla_info_kind : ℕ
ifla_info_kind = 1

abbrev pub ifla_info_data : ℕ
ifla_info_data = 2

abbrev pub ifla_gtp5g_fd1 : ℕ
ifla_gtp5g_fd1 = 1

abbrev pub ifla_gtp5g_pdr_hashsize : ℕ
ifla_gtp5g_pdr_hashsize = 2

-- "=BBHiII"; the index is 0, so that its sign does not matter.
abbrev pub ifinfomsg_format : Format
ifinfomsg_format = 1 ∷ 1 ∷ 2 ∷ 4 ∷ 4 ∷ 4 ∷ []

unfoldable pub link_nla : ℕ → Bytes → Result Bytes
link_nla nla_type payload = do
  header ← pack little nla_format ((4 + length payload) ∷ nla_type ∷ [])
  ok ((header ++ payload) ++ replicate (padding (4 + length payload)) 0)

abbrev pub link_nested : ℕ → List Bytes → Result Bytes
link_nested nla_type attrs = link_nla nla_type (join attrs)

abbrev pub link_u32 : ℕ → ℕ → Result Bytes
link_u32 nla_type value = do payload ← pack little (4 ∷ []) (value ∷ []); link_nla nla_type payload

-- The text as `value.encode()` gives it, with a NUL behind it.
abbrev pub link_str : ℕ → Bytes → Result Bytes
link_str nla_type value = link_nla nla_type (value ++ (0 ∷ []))

unfoldable pub info_data : ℕ → ℕ → Result Bytes
info_data fd1 pdr_hashsize = do
  fd_attr ← link_u32 ifla_gtp5g_fd1 fd1
  hash_attr ← link_u32 ifla_gtp5g_pdr_hashsize pdr_hashsize
  link_nested ifla_info_data (fd_attr ∷ hash_attr ∷ [])

unfoldable pub link_info : ℕ → ℕ → Result Bytes
unfolding info_data
link_info fd1 pdr_hashsize = do
  inner ← info_data fd1 pdr_hashsize
  kind ← link_str ifla_info_kind (codes "gtp5g")
  link_nested ifla_linkinfo (kind ∷ inner ∷ [])

-- The whole request.
unfoldable pub link_message : Bytes → ℕ → ℕ → ℕ → Result Bytes
unfolding link_info
link_message ifname pdr_hashsize fd1 pid = do
  info ← link_info fd1 pdr_hashsize
  ifname_attr ← link_str ifla_ifname ifname
  ifinfomsg ← pack little ifinfomsg_format (0 ∷ 0 ∷ 0 ∷ 0 ∷ 0 ∷ 0 ∷ [])
  let payload = (ifinfomsg ++ ifname_attr) ++ info
  let seq = pid % 2 ^ 16
  nlmsghdr ←
      pack little nlmsghdr_format
        ((16 + length payload) ∷ rtm_newlink ∷ newlink_flags ∷ seq ∷ 0 ∷ [])
  ok (nlmsghdr ++ payload)
