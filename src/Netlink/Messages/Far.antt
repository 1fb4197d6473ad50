-- ===== src/Netlink/Messages/Far.antt =====
-- What the kernel reads from the attributes that `add_far` sends.
use ebpf_upf.Prelude.{
  ℕ, ◌≡◌, ◌≢◌, refl, List, [], ◌∷◌, Option, none, some, ◌⊎◌, inl, inr, ◌==◌, ==_iff, Bool-cases,
  arith,
}
use ebpf_upf.Python.{ok, bind_inv, ◌>>=◌}
use ebpf_upf.Python.Struct.{Bytes, little, big, to_bytes}
use ebpf_upf.Netlink.Attributes.{nla_u16, nla_u32, nla_be32, nla_nested}
use ebpf_upf.Netlink.Attributes.Reading.{Attribute, attributes}
use ebpf_upf.Netlink.Attributes.Carries.{
  field-Encodes, nested-Encodes, Carries, Carries-nil, Carries-ok, Carries-one, Carries-append,
  Carries-reads,
}
use ebpf_upf.Netlink.Messages.{outer_header, forwarding, far_attrs}

-- The outer header that a forwarding FAR adds, as a list of attributes.
abbrev pub header_attributes : ℕ → ℕ → ℕ → List Attribute
header_attributes o_teid peer_ipv4 port =
    (1, to_bytes little 2 256)
    ∷ (2, to_bytes little 4 o_teid)
    ∷ (3, to_bytes big 4 peer_ipv4)
    ∷ (4, to_bytes little 2 port)
    ∷ []

outer_header-Encoded :
    (o_teid peer_ipv4 port : ℕ) {ohc : Bytes}
    → outer_header o_teid peer_ipv4 port ≡ ok ohc
    → attributes ohc ≡ some (header_attributes o_teid peer_ipv4 port)
unfolding outer_header
outer_header-Encoded o_teid peer_ipv4 port {ohc} h =
    let (a, ea, h1) = bind_inv (nla_u16 1 256) _ h in
    let (b, eb, h2) = bind_inv (nla_u32 2 o_teid) _ h1 in
    let (c, ec, h3) = bind_inv (nla_be32 3 peer_ipv4) _ h2 in
    let (d, ed, h4) = bind_inv (nla_u16 4 port) _ h3 in
    let one =
      Carries-append (Carries-one _ (field-Encodes little 2 1 256 ea))
        (Carries-one _ (field-Encodes little 4 2 o_teid eb)) in
    let two = Carries-append one (Carries-one _ (field-Encodes big 4 3 peer_ipv4 ec)) in
    let all = Carries-append two (Carries-one _ (field-Encodes little 2 4 port ed)) in
    Carries-reads (Carries-ok h4 all)

-- A forwarding parameter that holds exactly this outer header.
abbrev pub Forwards : ℕ → ℕ → ℕ → List Attribute → Type 0
Forwards o_teid peer_ipv4 port xs =
    (param : Bytes) × (ohc : Bytes) × (xs ≡ (5, param) ∷ [])
    × (attributes param ≡ some ((1, ohc) ∷ []))
    × (attributes ohc ≡ some (header_attributes o_teid peer_ipv4 port))

-- What follows the first three attributes: the outer header for FAR_ACTION_FORW with a TEID and a
-- peer, and nothing otherwise.
abbrev pub Forwarding : ℕ → Option ℕ → Option ℕ → ℕ → List Attribute → Type 0
Forwarding action (some o_teid) (some peer_ipv4) port xs =
    ((action ≡ 2) × Forwards o_teid peer_ipv4 port xs) ⊎ ((action ≢ 2) × (xs ≡ []))
Forwarding action o_teid peer_ipv4 port xs = xs ≡ []

forwards :
    (o_teid peer_ipv4 port : ℕ) {b : Bytes}
    → (do
      ohc ← outer_header o_teid peer_ipv4 port
      fwd_param ← nla_nested 1 (ohc ∷ [])
      nla_nested 5 (fwd_param ∷ []))
      ≡ ok b
    → (xs : List Attribute) × Carries b xs × Forwards o_teid peer_ipv4 port xs
forwards o_teid peer_ipv4 port {b} h =
    let (ohc, eo, h1) = bind_inv (outer_header o_teid peer_ipv4 port) _ h in
    let (param, ep, eb) = bind_inv (nla_nested 1 (ohc ∷ [])) _ h1 in
    (
      (5, param) ∷ [],
      Carries-one (5, param) (nested-Encodes 5 param eb),
      (
        param,
        ohc,
        refl,
        Carries-reads (Carries-one (1, ohc) (nested-Encodes 1 ohc ep)),
        outer_header-Encoded o_teid peer_ipv4 port eo,
      ),
    )

-- The optional attribute at the end: it is there, or the bytes are empty.
forwarding-Encoded :
    (action : ℕ) (o_teid peer_ipv4 : Option ℕ) (port : ℕ) {b : Bytes}
    → forwarding action o_teid peer_ipv4 port ≡ ok b
    → (xs : List Attribute) × Carries b xs × Forwarding action o_teid peer_ipv4 port xs
unfolding forwarding
forwarding-Encoded action none p port h = ([], Carries-ok h Carries-nil, refl)
forwarding-Encoded action (some t) none port h = ([], Carries-ok h Carries-nil, refl)
forwarding-Encoded action (some t) (some p) port {b} h = elim (Bool-cases (action == 2)) [
  | inl yes' ↦
      let (xs, c, f) = forwards t p port (rw yes' at h) in
      (xs, c, inl ((==_iff action 2).0 yes', f))
  | inr no' ↦ ([], Carries-ok (rw no' at h) Carries-nil, inr (ground arith, refl))
]

-- For every FAR that `add_far` encodes: an independent reader of the netlink format takes from its
-- attributes the link, the FAR's identifier and the action in this order, and then, exactly for
-- FAR_ACTION_FORW with both a TEID and a peer, a forwarding parameter with one outer header, which
-- holds the description 0x100, the TEID, the peer in network byte order and the port.
pub far_attrs_read :
    (ifindex far_id action : ℕ) (o_teid peer_ipv4 : Option ℕ) (port : ℕ) {attrs : Bytes}
    → far_attrs ifindex far_id action o_teid peer_ipv4 port ≡ ok attrs
    → (xs : List Attribute) × (attributes attrs
        ≡ some (
            (1, to_bytes little 4 ifindex)
            ∷ (3, to_bytes little 4 far_id)
            ∷ (4, to_bytes little 2 action)
            ∷ xs))
      × Forwarding action o_teid peer_ipv4 port xs
unfolding far_attrs
far_attrs_read ifindex far_id action o_teid peer_ipv4 port {attrs} h =
    let (a, ea, h1) = bind_inv (nla_u32 1 ifindex) _ h in
    let (b, eb, h2) = bind_inv (nla_u32 3 far_id) _ h1 in
    let (c, ec, h3) = bind_inv (nla_u16 4 action) _ h2 in
    let (d, ed, h4) = bind_inv (forwarding action o_teid peer_ipv4 port) _ h3 in
    let (xs, tail, f) = forwarding-Encoded action o_teid peer_ipv4 port ed in
    let two =
      Carries-append (Carries-one _ (field-Encodes little 4 1 ifindex ea))
        (Carries-one _ (field-Encodes little 4 3 far_id eb)) in
    let three = Carries-append two (Carries-one _ (field-Encodes little 2 4 action ec)) in
    (xs, Carries-reads (Carries-ok h4 (Carries-append three tail)), f)
