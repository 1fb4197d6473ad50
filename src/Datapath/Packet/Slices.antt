-- ===== src/Datapath/Packet/Slices.antt =====
-- Reads of a packet that is put together from parts, and what the parser makes of the headers of a
-- tunnel.
use ebpf_upf.Prelude.{
  ℕ, ◌+◌, ◌≤◌, ◌≡◌, refl, sym, ◌∙◌, ap, ◌++◌, some, ltb, length, take, drop, drop-drop,
  length-append, length-drop, drop-append, drop-append-le, take-append-le, false, arith,
}
use ebpf_upf.Python.Struct.{Bytes, big, from_bytes}
use ebpf_upf.Datapath.Packet.{gpdu, be, parse_gtp, parse_udp, parse_ip, parse}
use ebpf_upf.Datapath.Packet.Safety.{be-in_bounds}

slice_front :
    (xs ys : Bytes) (off n : ℕ)
    → off + n ≤ length xs
    → take n (drop off (xs ++ ys)) ≡ take n (drop off xs)
slice_front xs ys off n h =
    ap (take n) (drop-append-le off xs ys (omega arith))
    ∙ take-append-le n (drop off xs) ys (omega (arith, length-drop off xs))

slice_behind :
    (xs ys : Bytes) (off n : ℕ) → take n (drop (length xs + off) (xs ++ ys)) ≡ take n (drop off ys)
slice_behind xs ys off n =
    ap (take n) (sym (drop-drop (length xs) off (xs ++ ys)) ∙ ap (drop off) (drop-append xs ys))

pub be_front : (xs ys : Bytes) (off n : ℕ) → off + n ≤ length xs → be (xs ++ ys) off n ≡ be xs off n
be_front xs ys off n h =
    be-in_bounds (xs ++ ys) off n (omega (arith, length-append xs ys))
    ∙ ap (λ bs. some (from_bytes big bs)) (slice_front xs ys off n h)
    ∙ sym (be-in_bounds xs off n h)

-- A field of the middle part.
pub slice_middle :
    (xs ys zs : Bytes) (m off n : ℕ)
    → length xs ≡ m
    → off + n ≤ length ys
    → take n (drop (m + off) (xs ++ (ys ++ zs))) ≡ take n (drop off ys)
slice_middle xs ys zs m off n hm h =
    ap (λ k. take n (drop (k + off) (xs ++ (ys ++ zs)))) (sym hm)
    ∙ slice_behind xs (ys ++ zs) off n
    ∙ slice_front ys zs off n h

pub be_middle :
    (xs ys zs : Bytes) (m off n : ℕ)
    → length xs ≡ m
    → off + n ≤ length ys
    → be (xs ++ (ys ++ zs)) (m + off) n ≡ be ys off n
be_middle xs ys zs m off n hm h =
    be-in_bounds (xs ++ (ys ++ zs)) (m + off) n
      (omega (arith, length-append xs (ys ++ zs), length-append ys zs))
    ∙ ap (λ bs. some (from_bytes big bs)) (slice_middle xs ys zs m off n hm h)
    ∙ sym (be-in_bounds ys off n h)

parse_gtp_gpdu :
    (e : Bytes) (teid : ℕ)
    → 50 ≤ length e
    → be e 43 1 ≡ some 0xff
    → be e 46 4 ≡ some teid
    → parse_gtp e 20 42 ≡ some (gpdu 20 teid)
unfolding parse_gtp
parse_gtp_gpdu e teid room msg_type tunnel =
    let whole : ltb (length e) 50 ≡ false = ground arith in rw (whole, msg_type, tunnel) refl

parse_udp_gpdu :
    (e : Bytes) (teid : ℕ)
    → 50 ≤ length e
    → be e 36 2 ≡ some 2152
    → be e 43 1 ≡ some 0xff
    → be e 46 4 ≡ some teid
    → parse_udp e 20 34 ≡ some (gpdu 20 teid)
unfolding parse_udp
parse_udp_gpdu e teid room dest msg_type tunnel =
    let whole : ltb (length e) 42 ≡ false = ground arith in
    rw (whole, dest) (parse_gtp_gpdu e teid room msg_type tunnel)

parse_ip_gpdu :
    (e : Bytes) (teid : ℕ)
    → 50 ≤ length e
    → be e 14 1 ≡ some 0x45
    → be e 23 1 ≡ some 17
    → be e 36 2 ≡ some 2152
    → be e 43 1 ≡ some 0xff
    → be e 46 4 ≡ some teid
    → parse_ip e ≡ some (gpdu 20 teid)
unfolding parse_ip
parse_ip_gpdu e teid room version_ihl protocol dest msg_type tunnel =
    let whole : ltb (length e) 34 ≡ false = ground arith in
    rw (whole, protocol, version_ihl) (parse_udp_gpdu e teid room dest msg_type tunnel)

-- A G-PDU in UDP in IPv4 without options.
pub parse_gpdu :
    (e : Bytes) (teid : ℕ)
    → 50 ≤ length e
    → be e 12 2 ≡ some 0x0800
    → be e 14 1 ≡ some 0x45
    → be e 23 1 ≡ some 17
    → be e 36 2 ≡ some 2152
    → be e 43 1 ≡ some 0xff
    → be e 46 4 ≡ some teid
    → parse e ≡ some (gpdu 20 teid)
unfolding parse
parse_gpdu e teid room proto version_ihl protocol dest msg_type tunnel =
    let whole : ltb (length e) 14 ≡ false = ground arith in
    rw (whole, proto) (parse_ip_gpdu e teid room version_ihl protocol dest msg_type tunnel)
