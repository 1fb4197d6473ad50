-- ===== src/Datapath/Egress/Grown.antt =====
-- The packet between its growth and its way out, cut at the borders of the headers.
use ebpf_upf.Prelude.{
  ℕ, ◌+◌, ◌≤◌, ◌≡◌, refl, sym, ◌∙◌, ap, subst, some, length, take, drop, drop-drop, drop-append,
  take-append, length-append, length-take, length-drop, [], ◌∷◌, ◌++◌, true, arith,
}
use ebpf_upf.Python.Struct.{Bytes}
use ebpf_upf.Maps.{Maps}
use ebpf_upf.Datapath.Tables.{map_lookup}
use ebpf_upf.Datapath.Stages.{m_tc_dl_hit}
use ebpf_upf.Datapath.Packet.{be}
use ebpf_upf.Datapath.Packet.Slices.{be_middle, slice_middle}
use ebpf_upf.Datapath.Ingress.{tc_act_ok}
use ebpf_upf.Datapath.Egress.{
  Room, EgressRun, DlUeVal, dl_ue_val, destination, headers, has_headers, write_headers,
  encapsulate, n3_address, look_up_ue, upf_tc_egress,
}
use ebpf_upf.Datapath.Egress.Safety.{length-headers, write_headers_ok}

-- The packet that leaves.
abbrev pub tunnelled : ℕ → ℕ → DlUeVal → Bytes → Bytes
tunnelled len n3_addr_be ue d = take 14 d ++ (headers len n3_addr_be ue ++ drop 14 d)

module _ (d room : Bytes) (enough : 14 ≤ length d) (made : length room ≡ 36) where
  eth_size : length (take 14 d) ≡ 14
  eth_size = omega (arith, length-take 14 d, enough)

  pub grown_front : take 14 (take 14 d ++ (room ++ drop 14 d)) ≡ take 14 d
  grown_front =
      subst (λ n. take n (take 14 d ++ (room ++ drop 14 d)) ≡ take 14 d) eth_size
        (take-append (take 14 d) (room ++ drop 14 d))

  pub grown_rest : drop 50 (take 14 d ++ (room ++ drop 14 d)) ≡ drop 14 d
  grown_rest =
      sym (drop-drop 14 36 (take 14 d ++ (room ++ drop 14 d)))
      ∙ ap (drop 36) (
          subst (λ n. drop n (take 14 d ++ (room ++ drop 14 d)) ≡ room ++ drop 14 d) eth_size
            (drop-append (take 14 d) (room ++ drop 14 d)))
      ∙ subst (λ n. drop n (room ++ drop 14 d) ≡ drop 14 d) made (drop-append room (drop 14 d))

  pub length-grown : length (take 14 d ++ (room ++ drop 14 d)) ≡ length d + 36
  length-grown = omega (
    arith,
    length-append (take 14 d) (room ++ drop 14 d),
    length-append room (drop 14 d),
    eth_size,
    length-drop 14 d,
    made,
    enough,
  )

-- A field of the headers stands 14 bytes further on in the packet.
pub header_field :
    (len n3_addr_be : ℕ) (ue : DlUeVal) (d : Bytes) (off n : ℕ)
    → 14 ≤ length d
    → off + n ≤ 36
    → be (tunnelled len n3_addr_be ue d) (14 + off) n ≡ be (headers len n3_addr_be ue) off n
header_field len n3_addr_be ue d off n enough h =
    be_middle (take 14 d) (headers len n3_addr_be ue) (drop 14 d) 14 off n
      (omega (arith, length-take 14 d, enough)) (omega (arith, length-headers len n3_addr_be ue, h))

pub header_bytes :
    (len n3_addr_be : ℕ) (ue : DlUeVal) (d : Bytes) (off n : ℕ)
    → 14 ≤ length d
    → off + n ≤ 36
    → take n (drop (14 + off) (tunnelled len n3_addr_be ue d))
      ≡ take n (drop off (headers len n3_addr_be ue))
header_bytes len n3_addr_be ue d off n enough h =
    slice_middle (take 14 d) (headers len n3_addr_be ue) (drop 14 d) 14 off n
      (omega (arith, length-take 14 d, enough)) (omega (arith, length-headers len n3_addr_be ue, h))

-- `bpf_skb_adjust_room` made room for the headers between the Ethernet header and the rest, and the
-- packet lies in the linear part of the buffer.
pub record Grows (r : Room) (d : Bytes) : Type 0 where
  pub room : Bytes
  pub made : length room ≡ 36
  pub grew : r.adjust_room 36 d ≡ some (take 14 d ++ (room ++ drop 14 d))
  pub linear : r.len ≡ length d + 36

abbrev pub sent_as : Bytes → EgressRun
sent_as e = record { action = tc_act_ok; bumps = m_tc_dl_hit ∷ []; packet = e }

write_headers_grown :
    (r : Room) (n3_addr_be : ℕ) (ue : DlUeVal) (d room : Bytes)
    → 14 ≤ length d
    → length room ≡ 36
    → write_headers r n3_addr_be ue (take 14 d ++ (room ++ drop 14 d))
      ≡ some (sent_as (tunnelled r.len n3_addr_be ue d))
write_headers_grown r n3_addr_be ue d room enough made =
    let grown : Bytes = take 14 d ++ (room ++ drop 14 d) in
    let size : length grown ≡ length d + 36 = length-grown d room enough made in
    let whole : has_headers grown ≡ true = ground (arith, size) in
    write_headers_ok r n3_addr_be ue grown whole
    ∙ rw (grown_front d room enough made, grown_rest d room enough made) refl

-- The run for an address with a tunnel.
pub egress_sends :
    (r : Room) (seen : ℕ → Maps) (d : Bytes) (dst_ip : ℕ) (b : Bytes)
    → 14 ≤ length d
    → destination d ≡ some (some dst_ip)
    → map_lookup (seen 0) "dl_ue_map" dst_ip ≡ some b
    → Grows r d
    → upf_tc_egress r seen d
      ≡ some (sent_as (tunnelled r.len (n3_address (seen 1)) (dl_ue_val b) d))
unfolding upf_tc_egress
egress_sends r seen d dst_ip b enough to found g = rw to (
    rw (found, look_up_ue)
      (rw (g.grew, encapsulate)
        (write_headers_grown r (n3_address (seen 1)) (dl_ue_val b) d g.room enough g.made)))
