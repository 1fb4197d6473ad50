-- ===== src/Datapath/Packet/Safety.antt =====
-- The bounds of the parser's reads, and what it finds in a packet of a gNB.
use ebpf_upf.Prelude.{
  ℕ, ◌+◌, ◌*◌, ◌%◌, ◌≤◌, ◌≡◌, refl, Option, none, some, ltb, ◌==◌, length, take, drop, Bool-cases,
  inl, inr, arith,
}
use ebpf_upf.Python.Struct.{Bytes, big, from_bytes}
use ebpf_upf.Datapath.Packet.{Parsed, gpdu, be, parse_gtp, parse_udp, parse_ip, parse}

-- What a parser may return: a packet, and for a G-PDU one that holds all the headers.
abbrev pub Within : Bytes → Option Parsed → Type 0
Within d none = ⊥
Within d (some (gpdu ihl_bytes teid)) =
    (20 ≤ ihl_bytes) × (ihl_bytes ≤ 60) × (14 + ihl_bytes + 16 ≤ length d)
Within d (some p) = Unit

pub be-in_bounds :
    (d : Bytes) (off n : ℕ)
    → off + n ≤ length d
    → be d off n ≡ some (from_bytes big (take n (drop off d)))
unfolding be
be-in_bounds d off n h = ground arith

parse_gtp-Within :
    (d : Bytes) (ihl_bytes gtp : ℕ)
    → 20 ≤ ihl_bytes
    → ihl_bytes ≤ 60
    → gtp ≡ 14 + ihl_bytes + 8
    → Within d (parse_gtp d ihl_bytes gtp)
unfolding parse_gtp
parse_gtp-Within d ihl_bytes gtp low high at = elim (Bool-cases (ltb (length d) (gtp + 8))) [
  | inl cut ↦ rw cut tt
  | inr whole ↦
      let room : gtp + 8 ≤ length d = ground arith in
      let msg : ℕ = from_bytes big (take 1 (drop (gtp + 1) d)) in
      rw
        (
          whole,
          be-in_bounds d (gtp + 1) 1 (omega (arith, room)),
          be-in_bounds d (gtp + 4) 4 (omega (arith, room)),
        )
        (elim (Bool-cases (msg == 0xff)) [
          | inl is_gpdu ↦ rw is_gpdu (low, high, omega (arith, room, at))
          | inr is_control ↦ rw is_control tt
        ])
]

parse_udp-Within :
    (d : Bytes) (ihl_bytes l4 : ℕ)
    → 20 ≤ ihl_bytes
    → ihl_bytes ≤ 60
    → l4 ≡ 14 + ihl_bytes
    → Within d (parse_udp d ihl_bytes l4)
unfolding parse_udp
parse_udp-Within d ihl_bytes l4 low high at = elim (Bool-cases (ltb (length d) (l4 + 8))) [
  | inl cut ↦ rw cut tt
  | inr whole ↦
      let room : l4 + 8 ≤ length d = ground arith in
      let dest : ℕ = from_bytes big (take 2 (drop (l4 + 2) d)) in
      rw (whole, be-in_bounds d (l4 + 2) 2 (omega (arith, room)))
        (elim (Bool-cases (dest == 2152)) [
          | inl ours ↦ rw ours (parse_gtp-Within d ihl_bytes (l4 + 8) low high (omega (arith, at)))
          | inr theirs ↦ rw theirs tt
        ])
]

parse_ip-Within : (d : Bytes) → Within d (parse_ip d)
unfolding parse_ip
parse_ip-Within d = elim (Bool-cases (ltb (length d) 34)) [
  | inl cut ↦ rw cut tt
  | inr whole ↦
      let room : 34 ≤ length d = ground arith in
      let protocol : ℕ = from_bytes big (take 1 (drop 23 d)) in
      let ihl : ℕ = from_bytes big (take 1 (drop 14 d)) % 16 * 4 in
      rw
        (
          whole,
          be-in_bounds d 23 1 (omega (arith, room)),
          be-in_bounds d 14 1 (omega (arith, room)),
        )
        (elim (Bool-cases (protocol == 17)) [
          | inl udp ↦ rw udp (elim (Bool-cases (ltb ihl 20)) [
            | inl small ↦ rw small tt
            | inr enough ↦
                let low : 20 ≤ ihl = ground arith in
                rw enough (parse_udp-Within d ihl (14 + ihl) low (omega arith) refl)
          ])
          | inr not_udp ↦ rw not_udp tt
        ])
]

-- For every sequence of bytes, however short and whatever its fields say: the parser reads no byte
-- past the end, and a packet that it takes for a G-PDU holds the Ethernet header, an IPv4 header of
-- 20 to 60 bytes, and the UDP and GTP-U headers whole.
pub parse-Within : (d : Bytes) → Within d (parse d)
unfolding parse
parse-Within d = elim (Bool-cases (ltb (length d) 14)) [
  | inl cut ↦ rw cut tt
  | inr whole ↦
      let room : 14 ≤ length d = ground arith in
      let proto : ℕ = from_bytes big (take 2 (drop 12 d)) in
      rw (whole, be-in_bounds d 12 2 (omega (arith, room)))
        (elim (Bool-cases (proto == 0x0800)) [
          | inl ip ↦ rw ip (parse_ip-Within d)
          | inr not_ip ↦ rw not_ip tt
        ])
]
