-- ===== src/Datapath/Egress/Lengths.antt =====
-- The three length fields of an encapsulated packet.
use ebpf_upf.Prelude.{ℕ, ◌+◌, ◌-◌, ◌%◌, ◌≤◌, ◌≡◌, refl, ◌∙◌, ap, some, length, arith}
use ebpf_upf.Python.Struct.{Bytes, big, from_bytes, to_bytes, le_bytes}
use ebpf_upf.Python.Struct.RoundTrip.{from_bytes-to_bytes}
use ebpf_upf.Maps.{Maps}
use ebpf_upf.Datapath.Tables.{map_lookup}
use ebpf_upf.Datapath.Packet.{be}
use ebpf_upf.Datapath.Egress.{
  Room, DlUeVal, dl_ue_val, destination, outer_ip, outer_udp, gtp_header, sub32, headers,
  n3_address, upf_tc_egress,
}
use ebpf_upf.Datapath.Egress.Safety.{length-headers}
use ebpf_upf.Datapath.Egress.Plain.{destination-Plain}
use ebpf_upf.Datapath.Egress.Grown.{
  tunnelled, Grows, sent_as, header_field, length-grown, egress_sends,
}

-- `tot_len`, the UDP length and the GTP-U length, and what they count: the packet without its
-- Ethernet header, without its IPv4 header, and without its GTP-U header.
pub record Measured (e : Bytes) : Type 0 where
  pub tot_len : be e 16 2 ≡ some (length e - 14)
  pub udp_len : be e 38 2 ≡ some (length e - 34)
  pub gtp_len : be e 44 2 ≡ some (length e - 50)

module _ (len n3_addr_be : ℕ) (ue : DlUeVal) where
  says_lengths :
      let total_len = sub32 len 14 in
      let udp_len = sub32 total_len 20 in
      let gtp_paylen = sub32 (sub32 udp_len 8) 8 in
      (be (headers len n3_addr_be ue) 2 2
        ≡ some (from_bytes big (to_bytes big 2 (total_len % 65536))))
      × (be (headers len n3_addr_be ue) 24 2
          ≡ some (from_bytes big (to_bytes big 2 (udp_len % 65536))))
      × (be (headers len n3_addr_be ue) 30 2
          ≡ some (from_bytes big (to_bytes big 2 (gtp_paylen % 65536))))
  unfolding be headers outer_ip outer_udp gtp_header to_bytes le_bytes from_bytes
  says_lengths = (refl, refl, refl)

field_value :
    (x n : ℕ) → x % 65536 ≡ n → some (from_bytes big (to_bytes big 2 (x % 65536))) ≡ some n
field_value x n h = ap some (from_bytes-to_bytes big 2 (x % 65536) (omega arith) ∙ h)

tunnelled-Measured :
    (len n3_addr_be : ℕ) (ue : DlUeVal) (d : Bytes)
    → len ≡ length d + 36
    → 14 ≤ length d
    → length d ≤ 65513
    → Measured (tunnelled len n3_addr_be ue d)
tunnelled-Measured len n3_addr_be ue d linear enough short_enough =
    let (tot_len, udp_len, gtp_len) = says_lengths len n3_addr_be ue in
    let hdr : Bytes = headers len n3_addr_be ue in
    let size : length (tunnelled len n3_addr_be ue d) ≡ length d + 36 =
      length-grown d hdr enough (length-headers len n3_addr_be ue) in
    let at = λ (off : ℕ) (h : off + 2 ≤ 36). header_field len n3_addr_be ue d off 2 enough h in
    let total : ℕ = sub32 len 14 in
    let payload : ℕ = sub32 total 20 in
    record {
      tot_len =
          at 2 (omega arith)
          ∙ tot_len
          ∙ field_value total (length (tunnelled len n3_addr_be ue d) - 14)
              (omega (arith, size, linear, enough, short_enough));
      udp_len =
          at 24 (omega arith)
          ∙ udp_len
          ∙ field_value payload (length (tunnelled len n3_addr_be ue d) - 34)
              (omega (arith, size, linear, enough, short_enough));
      gtp_len =
          at 30 (omega arith)
          ∙ gtp_len
          ∙ field_value (sub32 (sub32 payload 8) 8) (length (tunnelled len n3_addr_be ue d) - 50)
              (omega (arith, size, linear, enough, short_enough));
    }

-- For every packet of up to 65513 bytes with a destination to look up, an address that dl_ue_map
-- holds, and a helper that makes the room where its documentation says, in a linear buffer: the three
-- length fields of the packet that leaves count the bytes that they stand for.
pub egress-Measured :
    (r : Room) (seen : ℕ → Maps) (d : Bytes) (dst_ip : ℕ) (b : Bytes)
    → length d ≤ 65513
    → destination d ≡ some (some dst_ip)
    → map_lookup (seen 0) "dl_ue_map" dst_ip ≡ some b
    → Grows r d
    → (e : Bytes) × (upf_tc_egress r seen d ≡ some (sent_as e)) × Measured e
egress-Measured r seen d dst_ip b short_enough to found g =
    let enough : 14 ≤ length d = omega (arith, (destination-Plain d dst_ip to).room) in
    (
      _,
      egress_sends r seen d dst_ip b enough to found g,
      tunnelled-Measured r.len (n3_address (seen 1)) (dl_ue_val b) d g.linear enough short_enough,
    )
