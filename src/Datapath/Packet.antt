-- ===== src/Datapath/Packet.antt =====
-- The parsing of a packet that bpf/upf_xdp.c and bpf/upf_tc.c share line by line: Ethernet, IPv4
-- with options, UDP, GTP-U. A packet is the bytes from `data` to `data_end`; a read past the end is
-- `none`, a fault.
pub mod Safety
pub mod Slices
use ebpf_upf.Prelude.{
  ℕ, ◌+◌, ◌*◌, ◌%◌, List, Option, none, some, ltb, leb, ◌==◌, if◌then◌else◌, length, take, drop,
  not,
}
use ebpf_upf.Python.Struct.{Bytes, big, from_bytes}

infixl 10 ◌>>=◌
abbrev pub ◌>>=◌ : {A B : Type 0} → Option A → (A → Option B) → Option B
◌>>=◌ none f = none
◌>>=◌ (some a) f = f a

-- `n` bytes from the offset on, most significant first.
unfoldable pub be : Bytes → ℕ → ℕ → Option ℕ
be d off n = if leb (off + n) (length d) then some (from_bytes big (take n (drop off d))) else none

-- Which packet it is. `short` and `short_gtp` are cut off before and after the UDP header.
pub data Parsed : Type 0 where
  other short non_gtp short_gtp control : Parsed
  gpdu : ℕ → ℕ → Parsed

-- The GTP-U header at `gtp`; the packet's IP header has `ihl_bytes`.
unfoldable pub parse_gtp : Bytes → ℕ → ℕ → Option Parsed
unfolding be
parse_gtp d ihl_bytes gtp = if ltb (length d) (gtp + 8) then some short_gtp else (do
  msg_type ← be d (gtp + 1) 1
  teid ← be d (gtp + 4) 4
  some (if msg_type == 0xff then gpdu ihl_bytes teid else control))

-- The UDP header at `l4`.
unfoldable pub parse_udp : Bytes → ℕ → ℕ → Option Parsed
unfolding be parse_gtp
parse_udp d ihl_bytes l4 = if ltb (length d) (l4 + 8) then some short else (do
  dest ← be d (l4 + 2) 2
  (if dest == 2152 then parse_gtp d ihl_bytes (l4 + 8) else some non_gtp))

-- The IPv4 header at 14.
unfoldable pub parse_ip : Bytes → Option Parsed
unfolding be parse_udp
parse_ip d = if ltb (length d) 34 then some short else (do
  protocol ← be d 23 1
  version_ihl ← be d 14 1
  let ihl_bytes = version_ihl % 16 * 4
  (if protocol == 17
      then (if ltb ihl_bytes 20 then some short else parse_udp d ihl_bytes (14 + ihl_bytes))
      else some other))

unfoldable pub parse : Bytes → Option Parsed
unfolding be parse_ip
parse d =
    if ltb (length d) 14
    then some short
    else (do proto ← be d 12 2; (if proto == 0x0800 then parse_ip d else some other))
