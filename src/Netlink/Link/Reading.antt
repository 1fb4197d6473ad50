-- ===== src/Netlink/Link/Reading.antt =====
-- What the kernel reads from the request.
use mathlib.Core.List.{append-nil, append_assoc}
use ebpf_upf.Prelude.{
  ℕ, ◌+◌, ◌%◌, ◌^◌, ◌≡◌, refl, sym, ap, ◌∙◌, subst, [], ◌∷◌, ◌++◌, some, length, drop, codes,
  length-append, drop-append, arith,
}
use ebpf_upf.Python.{ok, bind_inv}
use ebpf_upf.Python.Struct.{Bytes, little, to_bytes, pack, unpack_from}
use ebpf_upf.Python.Struct.RoundTrip.{unpack_from-pack, length-pack}
use ebpf_upf.Netlink.Attributes.{nla, join}
use ebpf_upf.Netlink.Attributes.Reading.{Encodes, attributes, attributes-join}
use ebpf_upf.Netlink.Attributes.Carries.{field-Encodes}
use ebpf_upf.Netlink.Replies.{nlmsghdr_format}
use ebpf_upf.Netlink.Link.{
  ifinfomsg_format, link_nla, link_u32, link_str, info_data, link_info, link_message,
}

-- The encoder of this script and the one of gtp5g_genl.py write the same attribute for every type
-- and payload, and refuse the same.
pub link_nla-nla : (t : ℕ) (payload : Bytes) → link_nla t payload ≡ nla t payload
unfolding link_nla nla
link_nla-nla t payload = refl

link-Encodes :
    (t : ℕ) (payload : Bytes) {a : Bytes} → link_nla t payload ≡ ok a → Encodes (t, payload) a
link-Encodes t payload h = sym (link_nla-nla t payload) ∙ h

link_u32-Encodes : (t v : ℕ) {a : Bytes} → link_u32 t v ≡ ok a → Encodes (t, to_bytes little 4 v) a
unfolding link_nla nla
link_u32-Encodes t v {a} h = field-Encodes little 4 t v {a = a} h

-- A device's data that holds exactly the descriptor and the size of the hash table.
abbrev pub InfoData : ℕ → ℕ → Bytes → Type 0
InfoData fd1 pdr_hashsize b =
    attributes b ≡ some ((1, to_bytes little 4 fd1) ∷ (2, to_bytes little 4 pdr_hashsize) ∷ [])

info_data-Encodes :
    (fd1 pdr_hashsize : ℕ) {a : Bytes}
    → info_data fd1 pdr_hashsize ≡ ok a
    → (b : Bytes) × Encodes (2, b) a × InfoData fd1 pdr_hashsize b
unfolding info_data
info_data-Encodes fd1 pdr_hashsize {a} h =
    let (x, ex, h1) = bind_inv (link_u32 1 fd1) _ h in
    let (y, ey, h2) = bind_inv (link_u32 2 pdr_hashsize) _ h1 in
    (
      join (x ∷ y ∷ []),
      link-Encodes 2 (join (x ∷ y ∷ [])) h2,
      attributes-join _ (x ∷ y ∷ [])
          (link_u32-Encodes 1 fd1 ex, (link_u32-Encodes 2 pdr_hashsize ey, tt)),
    )

-- The link info names the kind, and nests the data.
abbrev pub LinkInfo : ℕ → ℕ → Bytes → Type 0
LinkInfo fd1 pdr_hashsize b =
    (inner : Bytes) × (attributes b ≡ some ((1, codes "gtp5g" ++ (0 ∷ [])) ∷ (2, inner) ∷ []))
    × InfoData fd1 pdr_hashsize inner

link_info-Encodes :
    (fd1 pdr_hashsize : ℕ) {a : Bytes}
    → link_info fd1 pdr_hashsize ≡ ok a
    → (b : Bytes) × Encodes (18, b) a × LinkInfo fd1 pdr_hashsize b
unfolding link_info
link_info-Encodes fd1 pdr_hashsize {a} h =
    let (x, ex, h1) = bind_inv (info_data fd1 pdr_hashsize) _ h in
    let (k, ek, h2) = bind_inv (link_str 1 (codes "gtp5g")) _ h1 in
    let (inner, encodes, reads) = info_data-Encodes fd1 pdr_hashsize ex in
    (
      join (k ∷ x ∷ []),
      link-Encodes 18 (join (k ∷ x ∷ [])) h2,
      (
        inner,
        attributes-join _ (k ∷ x ∷ [])
            (link-Encodes 1 (codes "gtp5g" ++ (0 ∷ [])) ek, (encodes, tt)),
        reads,
      ),
    )

-- What the request asks for: a header that tells the request's length, RTM_NEWLINK, the flags
-- 0x605, the sequence number and the process 0; sixteen bytes of `ifinfomsg`; and the attributes.
pub record Requests (ifname : Bytes) (pdr_hashsize fd1 pid : ℕ) (msg : Bytes) : Type 0 where
  pub header :
      unpack_from little nlmsghdr_format msg 0
      ≡ ok (length msg ∷ 16 ∷ 0x605 ∷ (pid % 2 ^ 16) ∷ 0 ∷ [])
  pub info : Bytes
  pub attrs : attributes (drop 32 msg) ≡ some ((3, ifname ++ (0 ∷ [])) ∷ (18, info) ∷ [])
  pub kind : LinkInfo fd1 pdr_hashsize info

-- The two headers in front of the attributes.
module _ (seq : ℕ) (hdr ifi name info msg : Bytes)
    (framed : pack little ifinfomsg_format (0 ∷ 0 ∷ 0 ∷ 0 ∷ 0 ∷ 0 ∷ []) ≡ ok ifi)
    (headed : pack little nlmsghdr_format
        ((16 + length ((ifi ++ name) ++ info)) ∷ 16 ∷ 0x605 ∷ seq ∷ 0 ∷ [])
      ≡ ok hdr)
    (whole : msg ≡ hdr ++ ((ifi ++ name) ++ info)) where
  length-hdr : length hdr ≡ 16
  length-hdr = length-pack little nlmsghdr_format _ headed

  total : length msg ≡ 16 + length ((ifi ++ name) ++ info)
  total = rw (whole, length-append hdr ((ifi ++ name) ++ info), length-hdr) refl

  header_read :
      unpack_from little nlmsghdr_format msg 0 ≡ ok (length msg ∷ 16 ∷ 0x605 ∷ seq ∷ 0 ∷ [])
  header_read =
      rw (total, whole)
        (unpack_from-pack little nlmsghdr_format _ [] ((ifi ++ name) ++ info) headed)

  attributes_behind : drop 32 msg ≡ join (name ∷ info ∷ [])
  attributes_behind =
      let n : length (hdr ++ ifi) ≡ 32 =
        omega (
          arith,
          length-append hdr ifi,
          length-hdr,
          length-pack little ifinfomsg_format _ framed,
        ) in
      let grouped : msg ≡ (hdr ++ ifi) ++ (name ++ info) =
        whole
        ∙ ap (λ b. hdr ++ b) (append_assoc ifi name info)
        ∙ sym (append_assoc hdr ifi (name ++ info)) in
      let tail : drop 32 ((hdr ++ ifi) ++ (name ++ info)) ≡ name ++ info =
        subst (λ k. drop k ((hdr ++ ifi) ++ (name ++ info)) ≡ name ++ info) n
          (drop-append (hdr ++ ifi) (name ++ info)) in
      ap (drop 32) grouped ∙ tail ∙ ap (λ b. name ++ b) (sym (append-nil info))

-- For every request that the script builds: an independent reader of the format takes from it the
-- right length, the type RTM_NEWLINK with create, exclusive and acknowledge, then the interface's
-- name and the link info, which holds the kind "gtp5g" and, nested, the socket's descriptor and the
-- size of the hash table.
pub link_message_read :
    (ifname : Bytes) (pdr_hashsize fd1 pid : ℕ) {msg : Bytes}
    → link_message ifname pdr_hashsize fd1 pid ≡ ok msg
    → Requests ifname pdr_hashsize fd1 pid msg
unfolding link_message
link_message_read ifname pdr_hashsize fd1 pid {msg} h =
    let (info, ei, h1) = bind_inv (link_info fd1 pdr_hashsize) _ h in
    let (name, en, h2) = bind_inv (link_str 3 ifname) _ h1 in
    let (ifi, ef, h3) = bind_inv (pack little ifinfomsg_format (0 ∷ 0 ∷ 0 ∷ 0 ∷ 0 ∷ 0 ∷ [])) _ h2 in
    let payload = (ifi ++ name) ++ info in
    let (hdr, eh, h4) =
      bind_inv
        (pack little nlmsghdr_format ((16 + length payload) ∷ 16 ∷ 0x605 ∷ (pid % 2 ^ 16) ∷ 0 ∷ []))
        (λ hdr. ok (hdr ++ payload)) h3 in
    let whole : msg ≡ hdr ++ payload = cc h4 in
    let (inner, encodes, reads) = link_info-Encodes fd1 pdr_hashsize ei in
    let there = attributes_behind (pid % 2 ^ 16) hdr ifi name info msg ef eh whole in
    record {
      header = header_read (pid % 2 ^ 16) hdr ifi name info msg ef eh whole;
      info = inner;
      attrs =
          ap attributes there
          ∙ attributes-join _ (name ∷ info ∷ [])
              (link-Encodes 3 (ifname ++ (0 ∷ [])) en, (encodes, tt));
      kind = reads;
    }
