-- ===== src/Datapath/Egress/Plain.antt =====
-- What the guards of `upf_tc_egress` say of a packet that they let through.
use ebpf_upf.Prelude.{
  ℕ, ◌≤◌, ◌≡◌, ◌∙◌, ap, inl, inr, none, some, leb, ltb, ◌==◌, ==_iff, length, take, drop, Bool,
  true, false, Bool-cases, arith, if◌then◌else◌,
}
use ebpf_upf.Python.Struct.{Bytes, big, from_bytes}
use ebpf_upf.Datapath.Tables.{u32}
use ebpf_upf.Datapath.Packet.{be}
use ebpf_upf.Datapath.Packet.Safety.{be-in_bounds}
use ebpf_upf.Datapath.Egress.{load32, destination, destination_ip}
use ebpf_upf.Datapath.Egress.Safety.{already_gtpu_ends}

-- What is known of a packet with a destination to look up.
pub record Plain (d : Bytes) (dst_ip : ℕ) : Type 0 where
  pub room : 34 ≤ length d
  pub proto : be d 12 2 ≡ some 0x0800
  pub address : dst_ip ≡ u32 d 30

taken_inv :
    (again : Bool) (x dst_ip : ℕ)
    → some (if again then none else some x) ≡ some (some dst_ip)
    → dst_ip ≡ x
taken_inv true x dst_ip h = cc
taken_inv false x dst_ip h = cc

destination_ip_inv :
    (d : Bytes) (dst_ip : ℕ)
    → destination_ip d ≡ some (some dst_ip)
    → (34 ≤ length d) × (dst_ip ≡ u32 d 30)
unfolding destination_ip load32
destination_ip_inv d dst_ip h = elim (Bool-cases (ltb (length d) 34)) [
  | inl cut ↦ cc (rw cut at h)
  | inr whole ↦
      let room : 34 ≤ length d = ground arith in
      let (again, known) = already_gtpu_ends d room in
      let inside : leb 34 (length d) ≡ true = ground arith in
      let taken : some (if again then none else some (u32 d 30)) ≡ some (some dst_ip) =
        rw (whole, known, inside) at h in
      (room, taken_inv again (u32 d 30) dst_ip taken)
]

pub destination-Plain :
    (d : Bytes) (dst_ip : ℕ) → destination d ≡ some (some dst_ip) → Plain d dst_ip
unfolding destination
destination-Plain d dst_ip h = elim (Bool-cases (ltb (length d) 14)) [
  | inl cut ↦ cc (rw cut at h)
  | inr whole ↦
      let read : be d 12 2 ≡ some (from_bytes big (take 2 (drop 12 d))) =
        be-in_bounds d 12 2 (ground arith) in
      elim (Bool-cases (from_bytes big (take 2 (drop 12 d)) == 0x0800)) [
        | inl ip ↦
            let (room, address) = destination_ip_inv d dst_ip (rw (whole, read, ip) at h) in
            record {
              room = room;
              proto = read ∙ ap some ((==_iff (from_bytes big (take 2 (drop 12 d))) 0x0800).0 ip);
              address = address;
            }
        | inr not_ip ↦ cc (rw (whole, read, not_ip) at h)
      ]
]
