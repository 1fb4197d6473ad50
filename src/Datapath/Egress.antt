-- ===== src/Datapath/Egress.antt =====
-- `upf_tc_egress` of bpf/upf_tc_egress.c: the downlink encapsulation. A packet is the bytes from
-- `data` to `data_end`; a read or a write past the end is `none`, a fault. `seen k` is what the
-- agent's maps hold at lookup number k. What the kernel's helper returns is a parameter.
pub mod Safety
pub mod Checksum
pub mod Plain
pub mod Grown
pub mod Tunnel
pub mod Lengths
use ebpf_upf.Prelude.{
  ℕ, ◌+◌, ◌-◌, ◌*◌, ◌/◌, ◌%◌, ◌^◌, List, [], ◌∷◌, ◌++◌, Option, none, some, leb, ltb, ◌==◌, Bool,
  false, ◌&&◌, if◌then◌else◌, length, take, drop,
}
use ebpf_upf.Python.Struct.{Bytes, big, le_bytes, le_value, to_bytes}
use ebpf_upf.Maps.{Maps}
use ebpf_upf.Datapath.Tables.{u32, map_lookup}
use ebpf_upf.Datapath.Packet.{be, ◌>>=◌}
use ebpf_upf.Datapath.Stages.{m_tc_dl_hit, m_tc_dl_miss, m_tc_dl_encap_err}
use ebpf_upf.Datapath.Ingress.{tc_act_ok, tc_act_shot}

-- `bpf_skb_adjust_room` by so many bytes between the MAC and the IP header: the packet afterwards,
-- or a failure. `len` is `skb->len` after it.
pub record Room : Type 0 where
  pub adjust_room : ℕ → Bytes → Option Bytes
  pub len : ℕ

-- What one run returns, the counters it bumps, and the packet it leaves.
pub record EgressRun : Type 0 where
  pub action : ℕ
  pub bumps : List ℕ
  pub packet : Bytes

pub record DlUeVal : Type 0 where
  pub teid_be : ℕ
  pub gnb_ipv4_be : ℕ
  pub qfi : ℕ

unfoldable pub dl_ue_val : Bytes → DlUeVal
unfolding u32 le_value
dl_ue_val b = record {
  teid_be = u32 b 0;
  gnb_ipv4_be = u32 b 4;
  qfi = le_value (take 2 (drop 8 b));
}

-- A `__u32` read in the byte order of the host.
unfoldable pub load32 : Bytes → ℕ → Option ℕ
unfolding u32
load32 d off = if leb (off + 4) (length d) then some (u32 d off) else none

unfoldable pub store : Bytes → ℕ → Bytes → Option Bytes
store d off bs =
    if leb (off + length bs) (length d)
    then some (take off d ++ (bs ++ drop (off + length bs) d))
    else none

-- A UDP packet to port 2152; the options of the IP header are skipped without a check of `ihl`.
unfoldable pub already_gtpu : Bytes → Option Bool
unfolding be
already_gtpu d = do
  protocol ← be d 23 1
  version_ihl ← be d 14 1
  let l4 = 14 + version_ihl % 16 * 4
  (if protocol == 17
      then (if leb (l4 + 8) (length d)
          then (do dest ← be d (l4 + 2) 2; some (dest == 2152))
          else some false)
      else some false)

-- The address to look up, or nothing for a packet that is left alone.
unfoldable pub destination_ip : Bytes → Option (Option ℕ)
unfolding already_gtpu load32
destination_ip d = if ltb (length d) 34 then some none else (do
  again ← already_gtpu d
  dst_ip ← load32 d 30
  some (if again then none else some dst_ip))

unfoldable pub destination : Bytes → Option (Option ℕ)
unfolding be destination_ip
destination d =
    if ltb (length d) 14
    then some none
    else (do proto ← be d 12 2; (if proto == 0x0800 then destination_ip d else some none))

-- The ten words of a header, in the byte order of the host. Their sum does not wrap at 32 bits.
unfoldable pub sum16 : Bytes → ℕ
sum16 [] = 0
sum16 (lo ∷ []) = lo
sum16 (lo ∷ hi ∷ rest) = lo + 256 * hi + sum16 rest

unfoldable pub fold16 : ℕ → ℕ
fold16 sum = sum % 65536 + sum / 65536

unfoldable pub ip_checksum20 : Bytes → ℕ
unfolding sum16 fold16
ip_checksum20 hdr = 65535 - fold16 (fold16 (sum16 hdr)) % 65536

-- The outer IPv4 header with the value `check` in the field of its name.
unfoldable pub outer_ip : ℕ → ℕ → ℕ → ℕ → Bytes
unfolding to_bytes le_bytes
outer_ip check total_len saddr daddr =
    0x45
    ∷ 0
    ∷ (to_bytes big 2 (total_len % 65536)
        ++ (0 ∷ 0 ∷ 0 ∷ 0 ∷ 64 ∷ 17 ∷ (le_bytes 2 check ++ (le_bytes 4 saddr ++ le_bytes 4 daddr))))

unfoldable pub outer_udp : ℕ → Bytes
unfolding to_bytes
outer_udp udp_len =
    to_bytes big 2 2152
    ++ (to_bytes big 2 2152 ++ (to_bytes big 2 (udp_len % 65536) ++ (0 ∷ 0 ∷ [])))

unfoldable pub gtp_header : ℕ → ℕ → Bytes
unfolding to_bytes le_bytes
gtp_header gtp_paylen teid_be =
    0x30 ∷ 0xff ∷ (to_bytes big 2 (gtp_paylen % 65536) ++ le_bytes 4 teid_be)

-- `a - b` of `__u32` values.
abbrev pub sub32 : ℕ → ℕ → ℕ
sub32 a b = (a + 2 ^ 32 - b) % 2 ^ 32

-- The 36 bytes after the Ethernet header.
unfoldable pub headers : ℕ → ℕ → DlUeVal → Bytes
unfolding outer_ip outer_udp gtp_header ip_checksum20
headers len n3_addr_be ue =
    let total_len = sub32 len 14 in
    let udp_len = sub32 total_len 20 in
    let gtp_paylen = sub32 (sub32 udp_len 8) 8 in
    let check = ip_checksum20 (outer_ip 0 total_len n3_addr_be ue.gnb_ipv4_be) in
    outer_ip check total_len n3_addr_be ue.gnb_ipv4_be
    ++ (outer_udp udp_len ++ gtp_header gtp_paylen ue.teid_be)

-- The checks on the grown packet: Ethernet, IPv4, UDP and GTP-U.
abbrev pub has_headers : Bytes → Bool
has_headers d = leb 14 (length d) && (leb 34 (length d) && (leb 42 (length d) && leb 50 (length d)))

abbrev pub encap_failed : Bytes → EgressRun
encap_failed d = record {
  action = tc_act_shot;
  bumps = m_tc_dl_hit ∷ m_tc_dl_encap_err ∷ [];
  packet = d;
}

unfoldable pub n3_address : Maps → ℕ
unfolding u32 map_lookup
n3_address m = elim (map_lookup m "upf_config_map" 0) [ none ↦ 0 | some b ↦ u32 b 0 ]

unfoldable pub write_headers : Room → ℕ → DlUeVal → Bytes → Option EgressRun
unfolding store headers
write_headers r n3_addr_be ue d =
    if has_headers d
    then (do
      e ← store d 14 (headers r.len n3_addr_be ue)
      some record { action = tc_act_ok; bumps = m_tc_dl_hit ∷ []; packet = e })
    else some (encap_failed d)

unfoldable pub encapsulate : Room → Maps → DlUeVal → Bytes → Option EgressRun
unfolding n3_address write_headers
encapsulate r m ue d = elim (r.adjust_room (20 + 8 + 8) d) [
  | none ↦ some (encap_failed d)
  | some d' ↦ write_headers r (n3_address m) ue d'
]

abbrev pub untouched : List ℕ → Bytes → EgressRun
untouched bumps d = record { action = tc_act_ok; bumps = bumps; packet = d }

unfoldable pub look_up_ue : Room → (ℕ → Maps) → ℕ → Bytes → Option EgressRun
unfolding encapsulate dl_ue_val map_lookup
look_up_ue r seen dst_ip d = elim (map_lookup (seen 0) "dl_ue_map" dst_ip) [
  | none ↦ some (untouched (m_tc_dl_miss ∷ []) d)
  | some b ↦ encapsulate r (seen 1) (dl_ue_val b) d
]

unfoldable pub upf_tc_egress : Room → (ℕ → Maps) → Bytes → Option EgressRun
unfolding destination look_up_ue
upf_tc_egress r seen d = do
  to ← destination d
  elim to [ none ↦ some (untouched [] d) | some dst_ip ↦ look_up_ue r seen dst_ip d ]
