-- ===== src/Netlink/Attributes/Carries.antt =====
-- Buffers that are the concatenation of encoded attributes, and how messages are put together.
use mathlib.Core.List.{append-nil, append_assoc}
use ebpf_upf.Prelude.{ℕ, ◌≡◌, refl, sym, ap, ◌∙◌, subst, List, [], ◌∷◌, ◌++◌, some}
use ebpf_upf.Python.{ok, bind_inv, ◌>>=◌}
use ebpf_upf.Python.Struct.{Bytes, Order, to_bytes, pack}
use ebpf_upf.Python.Struct.RoundTrip.{pack_inv}
use ebpf_upf.Netlink.Attributes.{nla, nla_nested, join}
use ebpf_upf.Netlink.Attributes.Reading.{
  Attribute, Encodes, Encoded, read, attributes, attributes-join,
}

-- An attribute with one packed field.
pub field-Encodes :
    (o : Order) (w t v : ℕ) {a : Bytes}
    → (pack o (w ∷ []) (v ∷ []) >>= λ payload. nla t payload) ≡ ok a
    → Encodes (t, to_bytes o w v) a
field-Encodes o w t v {a} h =
    let (payload, packed, e) = bind_inv (pack o (w ∷ []) (v ∷ [])) (λ payload. nla t payload) h in
    let (tl, small, none_left, whole) = pack_inv o w [] v [] packed in
    let empty : tl ≡ [] = unfold pack in cc none_left in
    let same : payload ≡ to_bytes o w v = rw (whole, empty) (append-nil (to_bytes o w v)) in
    rw same at e

-- Nesting a single buffer.
pub nested-Encodes :
    (t : ℕ) (x : Bytes) {a : Bytes} → nla_nested t (x ∷ []) ≡ ok a → Encodes (t, x) a
nested-Encodes t x {a} h = subst (λ p. nla t p ≡ ok a) (append-nil x) h

join-append : (bs cs : List Bytes) → join (bs ++ cs) ≡ join bs ++ join cs
join-append [] cs = refl
join-append (b ∷ bs) cs =
    ap (λ r. b ++ r) (join-append bs cs) ∙ sym (append_assoc b (join bs) (join cs))

Encoded-append :
    (xs ys : List Attribute) (bs cs : List Bytes)
    → Encoded xs bs
    → Encoded ys cs
    → Encoded (xs ++ ys) (bs ++ cs)
Encoded-append [] ys [] cs h k = k
Encoded-append [] ys (b ∷ bs) cs h k = absurd h
Encoded-append (x ∷ xs) ys [] cs h k = absurd h
Encoded-append (x ∷ xs) ys (b ∷ bs) cs (e, h) k = (e, Encoded-append xs ys bs cs h k)

-- The buffer is made of the encodings of these attributes.
pub record Carries (m : Bytes) (xs : List Attribute) : Type 0 where
  pub pieces : List Bytes
  pub encoded : Encoded xs pieces
  pub whole : m ≡ join pieces

pub Carries-nil : Carries [] []
Carries-nil = record { pieces = []; encoded = tt; whole = refl }

pub Carries-one : (x : Attribute) {m : Bytes} → Encodes x m → Carries m (x ∷ [])
Carries-one x {m} e = record { pieces = m ∷ []; encoded = (e, tt); whole = sym (append-nil m) }

pub Carries-append :
    {m n : Bytes} {xs ys : List Attribute}
    → Carries m xs
    → Carries n ys
    → Carries (m ++ n) (xs ++ ys)
Carries-append {xs} {ys} c d = record {
  pieces = c.pieces ++ d.pieces;
  encoded = Encoded-append xs ys c.pieces d.pieces c.encoded d.encoded;
  whole = rw (c.whole, d.whole) (sym (join-append c.pieces d.pieces));
}

-- The buffer that a function returned.
pub Carries-ok : {m n : Bytes} {xs : List Attribute} → ok m ≡ ok n → Carries m xs → Carries n xs
Carries-ok {m} {n} {xs} h c = let e : m ≡ n = cc h in subst (λ b. Carries b xs) e c

pub Carries-reads : {m : Bytes} {xs : List Attribute} → Carries m xs → attributes m ≡ some xs
Carries-reads {xs} c = rw c.whole (attributes-join xs c.pieces c.encoded)

-- Only no attributes make an empty buffer.
pub Carries-empty : {xs : List Attribute} → Carries [] xs → xs ≡ []
Carries-empty {xs} c = let e : some [] ≡ some xs = unfold read in Carries-reads c in cc e

no_pieces : (bs : List Bytes) → Encoded [] bs → join bs ≡ []
no_pieces [] h = refl
no_pieces (b ∷ bs) h = absurd h

pub Carries-nothing : {m : Bytes} → Carries m [] → m ≡ []
Carries-nothing c = c.whole ∙ no_pieces c.pieces c.encoded
