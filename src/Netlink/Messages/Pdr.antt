-- ===== src/Netlink/Messages/Pdr.antt =====
-- What the kernel reads from the attributes that `add_pdr` sends.
use ebpf_upf.Prelude.{ℕ, ◌≡◌, refl, List, [], ◌∷◌, ◌++◌, Option, none, some}
use ebpf_upf.Python.{Result, ok, bind_inv, ◌>>=◌}
use ebpf_upf.Python.Struct.{Bytes, Order, little, big, to_bytes}
use ebpf_upf.Netlink.Attributes.{nla_u8, nla_u16, nla_u32, nla_be32, nla_nested}
use ebpf_upf.Netlink.Attributes.Reading.{Attribute, Encodes, attributes}
use ebpf_upf.Netlink.Attributes.Carries.{
  field-Encodes, nested-Encodes, Carries, Carries-nil, Carries-ok, Carries-one, Carries-append,
  Carries-reads, Carries-empty, Carries-nothing,
}
use ebpf_upf.Netlink.Messages.{if_given, f_teid_attrs, pdi_attrs, pdi_nested, pdr_attrs}

-- An optional argument is an attribute if it is given.
abbrev pub given : Order → ℕ → ℕ → Option ℕ → List Attribute
given o w t none = []
given o w t (some v) = (t, to_bytes o w v) ∷ []

if_given-Carries :
    (o : Order) (w t : ℕ) (x : Option ℕ) (f : ℕ → Result Bytes)
    → ((v : ℕ) (a : Bytes) → f v ≡ ok a → Encodes (t, to_bytes o w v) a)
    → {m : Bytes} → if_given x f ≡ ok m
    → Carries m (given o w t x)
if_given-Carries o w t none f enc h = Carries-ok h Carries-nil
if_given-Carries o w t (some v) f enc {m} h = Carries-one (t, to_bytes o w v) (enc v m h)

-- A nested attribute whose payload reads as these attributes.
abbrev pub Nested : ℕ → List Attribute → List Attribute → Type 0
Nested t inner xs = (payload : Bytes) × (xs ≡ (t, payload) ∷ []) × (attributes payload ≡ some inner)

-- The F-TEID is there if either of its parts is given.
abbrev pub FTeid : Option ℕ → Option ℕ → List Attribute → Type 0
FTeid none none xs = xs ≡ []
FTeid i_teid gtpu_addr_ipv4 xs =
    Nested 2 (given little 4 1 i_teid ++ given big 4 2 gtpu_addr_ipv4) xs

-- The PDI is there if it would hold anything.
abbrev pub Pdi : List Attribute → List Attribute → Type 0
Pdi [] xs = xs ≡ []
Pdi (y ∷ ys) xs = Nested 5 (y ∷ ys) xs

f_teid_parts :
    (i_teid gtpu_addr_ipv4 : Option ℕ) {m : Bytes}
    → (do
      teid ← if_given i_teid (nla_u32 1)
      addr ← if_given gtpu_addr_ipv4 (nla_be32 2)
      nla_nested 2 ((teid ++ addr) ∷ []))
      ≡ ok m
    → (xs : List Attribute) × Carries m xs
      × Nested 2 (given little 4 1 i_teid ++ given big 4 2 gtpu_addr_ipv4) xs
f_teid_parts i_teid gtpu_addr_ipv4 {m} h =
    let (teid, et, h1) = bind_inv (if_given i_teid (nla_u32 1)) _ h in
    let (addr, ea, h2) = bind_inv (if_given gtpu_addr_ipv4 (nla_be32 2)) _ h1 in
    let parts =
      Carries-append
        (if_given-Carries little 4 1 i_teid (nla_u32 1) (λ v a. field-Encodes little 4 1 v {a = a})
          et)
        (if_given-Carries big 4 2 gtpu_addr_ipv4 (nla_be32 2)
          (λ v a. field-Encodes big 4 2 v {a = a}) ea) in
    (
      (2, teid ++ addr) ∷ [],
      Carries-one (2, teid ++ addr) (nested-Encodes 2 (teid ++ addr) h2),
      (teid ++ addr, refl, Carries-reads parts),
    )

f_teid_attrs-Carries :
    (i_teid gtpu_addr_ipv4 : Option ℕ) {m : Bytes}
    → f_teid_attrs i_teid gtpu_addr_ipv4 ≡ ok m
    → (xs : List Attribute) × Carries m xs × FTeid i_teid gtpu_addr_ipv4 xs
unfolding f_teid_attrs
f_teid_attrs-Carries none none h = ([], Carries-ok h Carries-nil, refl)
f_teid_attrs-Carries (some i) g h = f_teid_parts (some i) g h
f_teid_attrs-Carries none (some g) h = f_teid_parts none (some g) h

pdi_attrs-Carries :
    (ue_addr_ipv4 i_teid gtpu_addr_ipv4 src_intf : Option ℕ) {m : Bytes}
    → pdi_attrs ue_addr_ipv4 i_teid gtpu_addr_ipv4 src_intf ≡ ok m
    → (f_teid : List Attribute) × FTeid i_teid gtpu_addr_ipv4 f_teid
      × Carries m ((given big 4 1 ue_addr_ipv4 ++ f_teid) ++ given little 1 4 src_intf)
unfolding pdi_attrs
pdi_attrs-Carries ue_addr_ipv4 i_teid gtpu_addr_ipv4 src_intf {m} h =
    let (ue, eu, h1) = bind_inv (if_given ue_addr_ipv4 (nla_be32 1)) _ h in
    let (ft, ef, h2) = bind_inv (f_teid_attrs i_teid gtpu_addr_ipv4) _ h1 in
    let (intf, ei, h3) = bind_inv (if_given src_intf (nla_u8 4)) _ h2 in
    let (xs, carried, f) = f_teid_attrs-Carries i_teid gtpu_addr_ipv4 ef in
    let front =
      Carries-append
        (if_given-Carries big 4 1 ue_addr_ipv4 (nla_be32 1) (λ v a. field-Encodes big 4 1 v {a = a})
          eu)
        carried in
    let all = Carries-append front (
      if_given-Carries little 1 4 src_intf (nla_u8 4) (λ v a. field-Encodes little 1 4 v {a = a})
        ei) in
    (xs, f, Carries-ok h3 all)

pdi_nested-Carries :
    (pdi : Bytes) (inner : List Attribute) {m : Bytes}
    → Carries pdi inner
    → pdi_nested pdi ≡ ok m
    → (xs : List Attribute) × Carries m xs × Pdi inner xs
unfolding pdi_nested
pdi_nested-Carries [] [] c h = ([], Carries-ok h Carries-nil, refl)
pdi_nested-Carries [] (y ∷ ys) c h = cc (Carries-empty c)
pdi_nested-Carries (b ∷ bs) [] c h = cc (Carries-nothing c)
pdi_nested-Carries (b ∷ bs) (y ∷ ys) c h = (
  (5, b ∷ bs) ∷ [],
  Carries-one (5, b ∷ bs) (nested-Encodes 5 (b ∷ bs) h),
  (b ∷ bs, refl, Carries-reads c),
)

-- For every PDR that `add_pdr` encodes: an independent reader of the netlink format takes from its
-- attributes the link, the identifier, the precedence, the outer header removal if it is given, the
-- PDI if it would hold anything, and the FAR's identifier, in this order. The PDI holds the UE
-- address, the F-TEID and the source interface as far as they are given, with addresses in network
-- byte order, and the F-TEID is there exactly if its TEID or its address is given.
pub pdr_attrs_read :
    (ifindex pdr_id precedence far_id : ℕ)
    (ue_addr_ipv4 i_teid gtpu_addr_ipv4 src_intf outer_header_removal : Option ℕ) {attrs : Bytes}
    → pdr_attrs ifindex pdr_id precedence far_id ue_addr_ipv4 i_teid gtpu_addr_ipv4 src_intf
        outer_header_removal
      ≡ ok attrs
    → (pdi f_teid : List Attribute) × (attributes attrs
        ≡ some (
            (((1, to_bytes little 4 ifindex)
                ∷ (3, to_bytes little 2 pdr_id)
                ∷ (4, to_bytes little 4 precedence)
                ∷ given little 1 6 outer_header_removal)
              ++ pdi)
            ++ ((7, to_bytes little 4 far_id) ∷ [])))
      × Pdi ((given big 4 1 ue_addr_ipv4 ++ f_teid) ++ given little 1 4 src_intf) pdi
      × FTeid i_teid gtpu_addr_ipv4 f_teid
unfolding pdr_attrs
pdr_attrs_read ifindex pdr_id precedence far_id ue_addr_ipv4 i_teid gtpu_addr_ipv4 src_intf
      outer_header_removal {attrs} h =
    let (a, ea, h1) = bind_inv (nla_u32 1 ifindex) _ h in
    let (b, eb, h2) = bind_inv (nla_u16 3 pdr_id) _ h1 in
    let (c, ec, h3) = bind_inv (nla_u32 4 precedence) _ h2 in
    let (d, ed, h4) = bind_inv (if_given outer_header_removal (nla_u8 6)) _ h3 in
    let (p, ep, h5) = bind_inv (pdi_attrs ue_addr_ipv4 i_teid gtpu_addr_ipv4 src_intf) _ h4 in
    let (n, en, h6) = bind_inv (pdi_nested p) _ h5 in
    let (f, ef, h7) = bind_inv (nla_u32 7 far_id) _ h6 in
    let (ft, is_ft, inner) = pdi_attrs-Carries ue_addr_ipv4 i_teid gtpu_addr_ipv4 src_intf ep in
    let (pdi, nested, is_pdi) = pdi_nested-Carries p _ inner en in
    let two =
      Carries-append (Carries-one _ (field-Encodes little 4 1 ifindex ea))
        (Carries-one _ (field-Encodes little 2 3 pdr_id eb)) in
    let three = Carries-append two (Carries-one _ (field-Encodes little 4 4 precedence ec)) in
    let removal =
      if_given-Carries little 1 6 outer_header_removal (nla_u8 6)
        (λ v x. field-Encodes little 1 6 v {a = x}) ed in
    let most = Carries-append (Carries-append three removal) nested in
    let all = Carries-append most (Carries-one _ (field-Encodes little 4 7 far_id ef)) in
    (pdi, ft, Carries-reads (Carries-ok h7 all), is_pdi, is_ft)
