-- ===== src/Datapath/Egress/Safety.antt =====
-- What the downlink program does to any packet at all: its reads and writes stay inside, and each
-- packet is counted once.
use ebpf_upf.Prelude.{
  ℕ, ◌+◌, ◌*◌, ◌%◌, ◌≤◌, ◌≡◌, refl, inl, inr, Option, none, some, leb, ltb, ◌==◌, length, take,
  drop, [], ◌∷◌, ◌++◌, Bool, true, false, Bool-cases, Option-cases, arith,
}
use ebpf_upf.Python.Struct.{Bytes, big, from_bytes, le_bytes, to_bytes}
use ebpf_upf.Maps.{Maps}
use ebpf_upf.Datapath.Tables.{map_lookup}
use ebpf_upf.Datapath.Stages.{m_tc_dl_hit, m_tc_dl_miss, m_tc_dl_encap_err}
use ebpf_upf.Datapath.Packet.Safety.{be-in_bounds}
use ebpf_upf.Datapath.Ingress.{tc_act_ok, tc_act_shot}
use ebpf_upf.Datapath.Egress.{
  Room, EgressRun, DlUeVal, dl_ue_val, already_gtpu, load32, store, destination, destination_ip,
  outer_ip, outer_udp, gtp_header, headers, has_headers, write_headers, encap_failed, encapsulate,
  n3_address, look_up_ue, upf_tc_egress,
}

pub already_gtpu_ends : (d : Bytes) → 34 ≤ length d → (b : Bool) × (already_gtpu d ≡ some b)
unfolding already_gtpu
already_gtpu_ends d room =
    let protocol : ℕ = from_bytes big (take 1 (drop 23 d)) in
    let l4 : ℕ = 14 + from_bytes big (take 1 (drop 14 d)) % 16 * 4 in
    rw (be-in_bounds d 23 1 (omega (arith, room)), be-in_bounds d 14 1 (omega (arith, room)))
      (elim (Bool-cases (protocol == 17)) [
        | inl udp ↦ elim (Bool-cases (leb (l4 + 8) (length d))) [
          | inl whole ↦
              let fits : l4 + 2 + 2 ≤ length d = ground arith in
              rw (udp, whole, be-in_bounds d (l4 + 2) 2 fits) (_, refl)
          | inr cut ↦ rw (udp, cut) (_, refl)
        ]
        | inr not_udp ↦ rw not_udp (_, refl)
      ])

destination_ip_ends : (d : Bytes) → (to : Option ℕ) × (destination_ip d ≡ some to)
unfolding destination_ip load32
destination_ip_ends d = elim (Bool-cases (ltb (length d) 34)) [
  | inl cut ↦ rw cut (_, refl)
  | inr whole ↦
      let room : 34 ≤ length d = ground arith in
      let (again, known) = already_gtpu_ends d room in
      let inside : leb 34 (length d) ≡ true = ground arith in rw (whole, known, inside) (_, refl)
]

pub destination_ends : (d : Bytes) → (to : Option ℕ) × (destination d ≡ some to)
unfolding destination
destination_ends d = elim (Bool-cases (ltb (length d) 14)) [
  | inl cut ↦ rw cut (_, refl)
  | inr whole ↦
      let room : 14 ≤ length d = ground arith in
      let proto : ℕ = from_bytes big (take 2 (drop 12 d)) in
      let (to, known) = destination_ip_ends d in
      rw (whole, be-in_bounds d 12 2 (omega (arith, room)))
        (elim (Bool-cases (proto == 0x0800)) [
          | inl ip ↦ rw ip (to, known)
          | inr not_ip ↦ rw not_ip (_, refl)
        ])
]

length-outer_ip :
    (check total_len saddr daddr : ℕ) → length (outer_ip check total_len saddr daddr) ≡ 20
unfolding outer_ip to_bytes le_bytes
length-outer_ip check total_len saddr daddr = refl

pub length-headers : (len n3_addr_be : ℕ) (ue : DlUeVal) → length (headers len n3_addr_be ue) ≡ 36
unfolding headers outer_ip outer_udp gtp_header to_bytes le_bytes
length-headers len n3_addr_be ue = refl

store_ok :
    (d : Bytes) (off : ℕ) (bs : Bytes) (n : ℕ)
    → off + length bs ≡ n
    → n ≤ length d
    → store d off bs ≡ some (take off d ++ (bs ++ drop n d))
unfolding store
store_ok d off bs n at room =
    let inside : leb n (length d) ≡ true = ground arith in rw (at, inside) refl

-- A packet that holds the headers is written without a fault, and nothing else of it is changed.
pub write_headers_ok :
    (r : Room) (n3_addr_be : ℕ) (ue : DlUeVal) (d : Bytes)
    → has_headers d ≡ true
    → write_headers r n3_addr_be ue d
      ≡ some record {
        action = tc_act_ok;
        bumps = m_tc_dl_hit ∷ [];
        packet = take 14 d ++ (headers r.len n3_addr_be ue ++ drop 50 d);
      }
unfolding write_headers
write_headers_ok r n3_addr_be ue d whole =
    let hdr : Bytes = headers r.len n3_addr_be ue in
    let room : 50 ≤ length d = ground arith in
    rw (whole, store_ok d 14 hdr 50 (omega (arith, length-headers r.len n3_addr_be ue)) room) refl

write_headers_cut :
    (r : Room) (n3_addr_be : ℕ) (ue : DlUeVal) (d : Bytes)
    → has_headers d ≡ false
    → write_headers r n3_addr_be ue d ≡ some (encap_failed d)
unfolding write_headers
write_headers_cut r n3_addr_be ue d cut = rw cut refl

-- The runs that may be: a packet that is left alone, one for an address without a tunnel, one that
-- cannot grow, and one with headers between the Ethernet header and the rest of the grown packet.
pub data Counted (r : Room) (d : Bytes) : Option (Option ℕ) → EgressRun → Type 0 where
  alone : Counted r d (some none) record { action = tc_act_ok; bumps = []; packet = d }
  missed :
      {dst_ip : ℕ}
      → Counted r d
          (some (some dst_ip))
          record { action = tc_act_ok; bumps = m_tc_dl_miss ∷ []; packet = d }
  refused :
      {dst_ip : ℕ} {left : Bytes}
      → Counted r d (some (some dst_ip)) record {
        action = tc_act_shot;
        bumps = m_tc_dl_hit ∷ m_tc_dl_encap_err ∷ [];
        packet = left;
      }
  sent :
      {dst_ip : ℕ} (grown hdr : Bytes)
      → r.adjust_room 36 d ≡ some grown
      → 50 ≤ length grown
      → length hdr ≡ 36
      → Counted r d (some (some dst_ip)) record {
        action = tc_act_ok;
        bumps = m_tc_dl_hit ∷ [];
        packet = take 14 grown ++ (hdr ++ drop 50 grown);
      }

abbrev Runs : Room → Bytes → Option (Option ℕ) → Option EgressRun → Type 0
Runs r d to run = (o : EgressRun) × (run ≡ some o) × Counted r d to o

write_headers-Runs :
    (r : Room) (n3_addr_be : ℕ) (ue : DlUeVal) (dst_ip : ℕ) (d grown : Bytes)
    → r.adjust_room 36 d ≡ some grown
    → Runs r d (some (some dst_ip)) (write_headers r n3_addr_be ue grown)
write_headers-Runs r n3_addr_be ue dst_ip d grown grew = elim (Bool-cases (has_headers grown)) [
  | inl whole ↦
      let room : 50 ≤ length grown = ground arith in
      (
        _,
        write_headers_ok r n3_addr_be ue grown whole,
        sent grown _ grew room (length-headers r.len n3_addr_be ue),
      )
  | inr cut ↦ (_, write_headers_cut r n3_addr_be ue grown cut, refused)
]

encapsulate-Runs :
    (r : Room) (m : Maps) (ue : DlUeVal) (dst_ip : ℕ) (d : Bytes)
    → Runs r d (some (some dst_ip)) (encapsulate r m ue d)
unfolding encapsulate
encapsulate-Runs r m ue dst_ip d = elim (Option-cases (r.adjust_room 36 d)) [
  | inl fails ↦ rw (fails, encapsulate) (_, refl, refused)
  | inr (grown, grew) ↦
      rw (grew, encapsulate) (write_headers-Runs r (n3_address m) ue dst_ip d grown grew)
]

look_up_ue-Runs :
    (r : Room) (seen : ℕ → Maps) (dst_ip : ℕ) (d : Bytes)
    → Runs r d (some (some dst_ip)) (look_up_ue r seen dst_ip d)
unfolding look_up_ue
look_up_ue-Runs r seen dst_ip d = elim (Option-cases (map_lookup (seen 0) "dl_ue_map" dst_ip)) [
  | inl none_there ↦ rw (none_there, look_up_ue) (_, refl, missed)
  | inr (b, found) ↦ rw (found, look_up_ue) (encapsulate-Runs r (seen 1) (dl_ue_val b) dst_ip d)
]

egress_from :
    (r : Room) (seen : ℕ → Maps) (d : Bytes) (to : Option ℕ)
    → destination d ≡ some to
    → Runs r d (some to) (upf_tc_egress r seen d)
unfolding upf_tc_egress
egress_from r seen d none known = rw known (_, refl, alone)
egress_from r seen d (some dst_ip) known = rw known (look_up_ue-Runs r seen dst_ip d)

-- For every packet, whatever the kernel's helper returns and whatever the agent writes between the
-- lookups: the program ends without a read or a write past the packet's end. A packet without a
-- destination to look up passes unchanged and uncounted. Any other is counted as a miss, and passes
-- unchanged, or as a hit: then it is dropped, with the error counted, or passes on with 36 bytes of
-- headers, and all other bytes of the grown packet are as they were.
pub egress-Counted :
    (r : Room) (seen : ℕ → Maps) (d : Bytes)
    → (o : EgressRun) × (upf_tc_egress r seen d ≡ some o) × Counted r d (destination d) o
egress-Counted r seen d =
    let (to, known) = destination_ends d in
    let (o, ran, counted) = egress_from r seen d to known in (o, ran, rw known counted)
