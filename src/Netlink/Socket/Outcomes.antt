-- ===== src/Netlink/Socket/Outcomes.antt =====
-- How `resolve_family` and `cmd` end, over any socket.
use ebpf_upf.Prelude.{
  ℕ, ◌+◌, ◌^◌, ◌<◌, pos, ◌≡◌, ◌≢◌, refl, subst, Bool, false, List, [], ◌∷◌, ◌++◌, Option, none,
  some, ◌==◌, if◌then◌else◌, replicate, length, length-append, arith,
}
use ebpf_upf.Python.{ok}
use ebpf_upf.Python.Exec.{Exec, pure, lift, resume_inv, exec_inv, ◌>>=◌, ◌>>◌}
use ebpf_upf.Python.Struct.{Bytes, little, pack}
use ebpf_upf.Python.Struct.RoundTrip.{pack-ok, length-pack}
use ebpf_upf.Netlink.Attributes.{nla_format, nla, padding, join}
use ebpf_upf.Netlink.Attributes.Reading.{Encoded, Attribute, length-nla}
use ebpf_upf.Netlink.Replies.{
  nlmsghdr_format, genlmsghdr_format, message_header, reply_type, r_len_from, errno_val,
  refuse_error, refuse_nonzero, family_found,
}
use ebpf_upf.Netlink.Socket.{Socket, GenlSocket, on_nl, send_recv, resolve_family, cmd, walk}
use ebpf_upf.Netlink.Socket.Walk.{Wide, last_family, walk_finds}

nla-ok :
    (t : ℕ) (payload : Bytes)
    → t < 65536
    → 4 + length payload < 65536
    → (a : Bytes) × (nla t payload ≡ ok a)
unfolding nla
nla-ok t payload ht hp =
    let (header, e) = pack-ok little nla_format ((4 + length payload) ∷ t ∷ []) (hp, (ht, tt)) in
    ((header ++ payload) ++ replicate (padding (4 + length payload)) 0, rw e refl)

message_header-ok :
    (t flags seq n : ℕ)
    → t < 65536
    → flags < 65536
    → seq < 2 ^ 32
    → 16 + n < 2 ^ 32
    → (hdr : Bytes) × (message_header (some t) flags seq n ≡ ok hdr)
unfolding message_header
message_header-ok t flags seq n ht hf hs hn =
    pack-ok little nlmsghdr_format ((16 + n) ∷ t ∷ flags ∷ seq ∷ 0 ∷ [])
      (hn, (ht, (hf, (hs, (omega arith, tt)))))

message_header-none : (flags seq n : ℕ) {hdr : Bytes} → ¬ (message_header none flags seq n ≡ ok hdr)
unfolding message_header
message_header-none flags seq n h = cc h

-- The socket takes every datagram, and then answers with this one.
pub record Answers (N : Socket) (nl : N.State) (resp : Bytes) : Type 0 where
  pub sends : (msg : Bytes) → (N.send msg nl).0 ≡ ok tt
  pub answers : (msg : Bytes) → (N.recv 65536 (N.send msg nl).1).0 ≡ ok resp

module _ (N : Socket) (s : GenlSocket N.State) (resp : Bytes) (a : Answers N s.nl resp) where
  -- A complete exchange of `_send_recv`.
  send_recv-Answers :
      (t flags : ℕ) (payload : Bytes) (r_type : ℕ)
      → t < 65536
      → flags < 65536
      → s.seq + 1 < 2 ^ 32
      → 16 + length payload < 2 ^ 32
      → reply_type resp ≡ ok r_type
      → (nl : N.State) × (send_recv N (some t) flags payload s
          ≡ (ok (r_type, resp), record s { seq = s.seq + 1; nl = nl }))
  unfolding send_recv
  send_recv-Answers t flags payload r_type ht hf hs hp rt =
      let (hdr, e) = message_header-ok t flags (s.seq + 1) (length payload) ht hf hs hp in
      let msg = hdr ++ payload in
      ((N.recv 65536 (N.send msg s.nl).1).1, rw (e, a.sends msg, a.answers msg, rt) refl)

-- What `_send_recv` returns has been decoded from the reply.
module _ (N : Socket) where
  abbrev decode : Bytes → Exec (GenlSocket N.State) (ℕ × Bytes)
  decode resp = lift (reply_type resp) >>= λ r_type. pure (r_type, resp)

  decode-reply_type :
      (resp : Bytes) (s : GenlSocket N.State) {r_type : ℕ} {out : Bytes}
      → (decode resp s).0 ≡ ok (r_type, out)
      → reply_type out ≡ ok r_type
  decode-reply_type resp s h =
      let (t, e, h') = resume_inv (reply_type resp) (λ t. pure (t, resp)) s h in cc (e, h')

  abbrev exchange : Bytes → Bytes → Exec (GenlSocket N.State) (ℕ × Bytes)
  exchange payload hdr = on_nl N (N.send (hdr ++ payload)) >> (on_nl N (N.recv 65536) >>= decode)

  send_recv-reply_type :
      (msg_type : Option ℕ) (flags : ℕ) (payload : Bytes) (s : GenlSocket N.State) {r_type : ℕ}
      {resp : Bytes}
      → (send_recv N msg_type flags payload s).0 ≡ ok (r_type, resp)
      → (msg_type ≢ none) × (reply_type resp ≡ ok r_type)
  unfolding send_recv
  send_recv-reply_type msg_type flags payload s h =
      let s1 = record s { seq = s.seq + 1 } in
      let (hdr, e, h1) =
        resume_inv (message_header msg_type flags (s.seq + 1) (length payload)) (exchange payload)
          s1 h in
      let (u, e1, h2) =
        exec_inv (on_nl N (N.send (hdr ++ payload))) (λ _. on_nl N (N.recv 65536) >>= decode) s1
          h1 in
      let s2 = (on_nl N (N.send (hdr ++ payload)) s1).1 in
      let (reply, e2, h3) = exec_inv (on_nl N (N.recv 65536)) decode s2 h2 in
      (
        λ nothing. message_header-none flags (s.seq + 1) (length payload) (rw nothing at e),
        decode-reply_type reply (on_nl N (N.recv 65536) s2).1 h3,
      )

pub refuse_nonzero-ok :
    (r_type : ℕ) (resp : Bytes) {u : Unit {0}}
    → refuse_nonzero r_type resp ≡ ok u
    → r_type ≡ 2
    → errno_val resp ≡ ok (pos 0)
unfolding refuse_nonzero
refuse_nonzero-ok r_type resp h e = ground arith

abbrev finish : (N : Socket) → ℕ × Bytes → Exec (GenlSocket N.State) Bytes
finish N (r_type, resp) = lift (refuse_nonzero r_type resp) >> pure resp

-- `cmd` returns only a reply of the kernel that is not an error, or is the error 0, by which it
-- acknowledges; any other error, and a socket whose family is not resolved, is an exception.
pub cmd_accepts :
    (N : Socket) (command : ℕ) (payload : Bytes) (ack : Bool) (s : GenlSocket N.State)
    {resp : Bytes}
    → (cmd N command payload ack s).0 ≡ ok resp
    → (r_type : ℕ) × (reply_type resp ≡ ok r_type)
      × (r_type ≡ 2 → errno_val resp ≡ ok (pos 0))
      × (s.family_id ≢ none)
unfolding cmd
cmd_accepts N command payload ack s {resp} h =
    let flags = if ack then 5 else 1 in
    let (genl, e1, h1) =
      resume_inv (pack little genlmsghdr_format (command ∷ 1 ∷ 0 ∷ []))
        (λ genl. λ s'. (send_recv N s'.family_id flags (genl ++ payload) >>= finish N) s') s h in
    let (both, e2, h2) =
      exec_inv (send_recv N s.family_id flags (genl ++ payload)) (finish N) s h1 in
    let s1 = (send_recv N s.family_id flags (genl ++ payload) s).1 in
    let (u, e3, h3) = resume_inv (refuse_nonzero both.0 both.1) (λ _. pure both.1) s1 h2 in
    let (family, decoded) =
      send_recv-reply_type N s.family_id flags (genl ++ payload) s {r_type = both.0} {resp = both.1}
        e2 in
    let same : both.1 ≡ resp = cc h3 in
    (both.0, rw same at decoded, rw same at (refuse_nonzero-ok both.0 both.1 e3), family)

-- Over any socket that takes every datagram and answers with `resp`, for a name of fewer than 65531
-- bytes and a sequence number that fits 32 bits: if the reply says of itself that it is no error
-- and how long it is, and consists of 20 bytes and of encoded attributes with identifiers of two
-- bytes at least, then `resolve_family` returns the last CTRL_ATTR_FAMILY_ID, or the family that
-- was resolved before if there is none, or raises `RuntimeError` if there is neither; and it keeps
-- that family for the commands.
pub resolve_family_finds :
    (N : Socket) (name : Bytes) (s : GenlSocket N.State) (front : Bytes) (xs : List Attribute)
    (bs : List Bytes) (r_type : ℕ)
    → Encoded xs bs
    → Wide xs
    → length front ≡ 20
    → reply_type (front ++ join bs) ≡ ok r_type
    → r_type ≢ 2
    → r_len_from (front ++ join bs) ≡ ok (length (front ++ join bs))
    → Answers N s.nl (front ++ join bs)
    → length name < 65531
    → s.seq + 1 < 2 ^ 32
    → ((resolve_family N name s).0 ≡ family_found (last_family xs s.family_id))
      × ((resolve_family N name s).1.family_id ≡ last_family xs s.family_id)
unfolding resolve_family refuse_error
resolve_family_finds N name s front xs bs r_type enc wide hf rt fine hl a small seq =
    let resp = front ++ join bs in
    let (genl, eg) =
      pack-ok little genlmsghdr_format (3 ∷ 1 ∷ 0 ∷ [])
        (omega arith, (omega arith, (omega arith, tt))) in
    let (attr, ea) =
      nla-ok 2 (name ++ (0 ∷ [])) (omega arith) (omega (arith, length-append name (0 ∷ []))) in
    let room : 16 + length (genl ++ attr) < 2 ^ 32 = omega (
      arith,
      length-append genl attr,
      length-pack little genlmsghdr_format _ eg,
      length-nla 2 (name ++ (0 ∷ [])) ea,
      length-append name (0 ∷ []),
    ) in
    let (nl, sent) =
      send_recv-Answers N s resp a 16 5 (genl ++ attr) r_type (omega arith) (omega arith) seq room
        rt in
    let found : walk (length resp) resp (length resp) 20 s.family_id
        ≡ (ok tt, last_family xs s.family_id) =
      subst
        (λ o.
          walk (length resp) resp (length resp) o s.family_id ≡ (ok tt, last_family xs s.family_id))
        hf (walk_finds xs bs front s.family_id enc wide) in
    let no_error : (r_type == 2) ≡ false = ground arith in
    rw (eg, ea, sent, no_error, hl, found) (refl, refl)
