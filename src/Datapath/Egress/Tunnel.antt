-- ===== src/Datapath/Egress/Tunnel.antt =====
-- The encapsulated packet as the other end of the tunnel reads it: by the parser of the uplink
-- programs, and by the removal of the headers in `upf_far_forward`.
use ebpf_upf.Prelude.{
  ℕ, ◌+◌, ◌≤◌, ◌≡◌, refl, sym, ◌∙◌, ap, subst, some, length, take, drop, length-take,
  take-append-drop, ◌++◌, arith,
}
use ebpf_upf.Python.Struct.{Bytes, big, from_bytes, le_bytes, to_bytes}
use ebpf_upf.Maps.{Maps}
use ebpf_upf.Datapath.Tables.{map_lookup}
use ebpf_upf.Datapath.Packet.{gpdu, be, parse}
use ebpf_upf.Datapath.Packet.Slices.{be_front, parse_gpdu}
use ebpf_upf.Datapath.Egress.{
  Room, DlUeVal, dl_ue_val, destination, outer_ip, outer_udp, gtp_header, sub32, ip_checksum20,
  headers, n3_address, upf_tc_egress,
}
use ebpf_upf.Datapath.Egress.Safety.{length-headers}
use ebpf_upf.Datapath.Egress.Checksum.{Verifies, outer_ip-Verifies}
use ebpf_upf.Datapath.Egress.Plain.{Plain, destination-Plain}
use ebpf_upf.Datapath.Egress.Grown.{
  tunnelled, Grows, sent_as, header_field, header_bytes, grown_front, grown_rest, length-grown,
  egress_sends,
}

module _ (len n3_addr_be : ℕ) (ue : DlUeVal) where
  -- What the headers say to the parser.
  says_gpdu :
      (be (headers len n3_addr_be ue) 0 1 ≡ some 0x45)
      × (be (headers len n3_addr_be ue) 9 1 ≡ some 17)
      × (be (headers len n3_addr_be ue) 22 2 ≡ some 2152)
      × (be (headers len n3_addr_be ue) 29 1 ≡ some 0xff)
      × (be (headers len n3_addr_be ue) 32 4 ≡ some (from_bytes big (le_bytes 4 ue.teid_be)))
  unfolding be headers outer_ip outer_udp gtp_header to_bytes le_bytes from_bytes
  says_gpdu = (refl, refl, refl, refl, refl)

  says_addresses :
      (take 4 (drop 12 (headers len n3_addr_be ue)) ≡ le_bytes 4 n3_addr_be)
      × (take 4 (drop 16 (headers len n3_addr_be ue)) ≡ le_bytes 4 ue.gnb_ipv4_be)
  unfolding headers outer_ip outer_udp gtp_header to_bytes le_bytes
  says_addresses = (refl, refl)

  first_header :
      take 20 (headers len n3_addr_be ue)
      ≡ outer_ip
          (ip_checksum20 (outer_ip 0 (sub32 len 14) n3_addr_be ue.gnb_ipv4_be))
          (sub32 len 14)
          n3_addr_be
          ue.gnb_ipv4_be
  unfolding headers outer_ip to_bytes le_bytes
  first_header = refl

  header-Verifies : Verifies (take 20 (headers len n3_addr_be ue))
  header-Verifies =
      subst Verifies (sym first_header) (outer_ip-Verifies (sub32 len 14) n3_addr_be ue.gnb_ipv4_be)

-- What the other end of the tunnel finds in a packet `e` that was `d`.
pub record Tunnelled (d : Bytes) (n3_addr_be : ℕ) (ue : DlUeVal) (e : Bytes) : Type 0 where
  -- the parser of the uplink programs
  pub parsed : parse e ≡ some (gpdu 20 (from_bytes big (le_bytes 4 ue.teid_be)))
  pub source : take 4 (drop 26 e) ≡ le_bytes 4 n3_addr_be
  pub peer : take 4 (drop 30 e) ≡ le_bytes 4 ue.gnb_ipv4_be
  pub verified : Verifies (take 20 (drop 14 e))
  -- the removal of the headers that the parser found
  pub inner : take 14 e ++ drop (14 + (20 + 8 + 8)) e ≡ d

tunnelled-Tunnelled :
    (len n3_addr_be : ℕ) (ue : DlUeVal) (d : Bytes) (dst_ip : ℕ)
    → Plain d dst_ip
    → Tunnelled d n3_addr_be ue (tunnelled len n3_addr_be ue d)
tunnelled-Tunnelled len n3_addr_be ue d dst_ip plain =
    let enough : 14 ≤ length d = omega (arith, plain.room) in
    let hdr : Bytes = headers len n3_addr_be ue in
    let e : Bytes = tunnelled len n3_addr_be ue d in
    let made : length hdr ≡ 36 = length-headers len n3_addr_be ue in
    let (version_ihl, protocol, dest, msg_type, teid) = says_gpdu len n3_addr_be ue in
    let (source, peer) = says_addresses len n3_addr_be ue in
    let at = λ (off n : ℕ) (h : off + n ≤ 36). header_field len n3_addr_be ue d off n enough h in
    let bytes = λ (off n : ℕ) (h : off + n ≤ 36). header_bytes len n3_addr_be ue d off n enough h in
    let front : 12 + 2 ≤ length (take 14 d) = omega (arith, length-take 14 d, enough) in
    let proto : be e 12 2 ≡ some 0x0800 =
      be_front (take 14 d) (hdr ++ drop 14 d) 12 2 front
      ∙ sym (be_front (take 14 d) (drop 14 d) 12 2 front)
      ∙ ap (λ x. be x 12 2) (take-append-drop 14 d)
      ∙ plain.proto in
    record {
      parsed =
          parse_gpdu e (from_bytes big (le_bytes 4 ue.teid_be))
            (omega (arith, length-grown d hdr enough made, plain.room)) proto
            (at 0 1 (omega arith) ∙ version_ihl) (at 9 1 (omega arith) ∙ protocol)
            (at 22 2 (omega arith) ∙ dest) (at 29 1 (omega arith) ∙ msg_type)
            (at 32 4 (omega arith) ∙ teid);
      source = bytes 12 4 (omega arith) ∙ source;
      peer = bytes 16 4 (omega arith) ∙ peer;
      verified =
          subst Verifies (sym (bytes 0 20 (omega arith))) (header-Verifies len n3_addr_be ue);
      inner =
          rw (grown_front d hdr enough made, grown_rest d hdr enough made) (take-append-drop 14 d);
    }

-- For every packet with a destination to look up, an address that dl_ue_map holds, and a helper that
-- makes the room where its documentation says: the program ends with a packet in a tunnel. The parser
-- of the uplink programs takes it for a G-PDU with the TEID of the entry, an IPv4 header of 20 bytes
-- and the addresses of the configuration and of the entry; the checksum of that header verifies; and
-- without the headers it is the packet that came.
pub egress-Tunnelled :
    (r : Room) (seen : ℕ → Maps) (d : Bytes) (dst_ip : ℕ) (b : Bytes)
    → destination d ≡ some (some dst_ip)
    → map_lookup (seen 0) "dl_ue_map" dst_ip ≡ some b
    → Grows r d
    → (e : Bytes) × (upf_tc_egress r seen d ≡ some (sent_as e))
      × Tunnelled d (n3_address (seen 1)) (dl_ue_val b) e
egress-Tunnelled r seen d dst_ip b to found g =
    let plain = destination-Plain d dst_ip to in
    (
      _,
      egress_sends r seen d dst_ip b (omega (arith, plain.room)) to found g,
      tunnelled-Tunnelled r.len (n3_address (seen 1)) (dl_ue_val b) d dst_ip plain,
    )
