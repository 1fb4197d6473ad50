-- ===== src/Netlink/Attributes/Reading.antt =====
-- A reader of netlink attributes, written from the format and not from the client: it takes the
-- attributes off a buffer as the kernel's `nla_for_each_attr` does. What `nla` writes, it reads.
use mathlib.Core.Option
use mathlib.Core.List.{append_assoc}
use ebpf_upf.Prelude.{
  ℕ, zero, suc, ◌+◌, ◌-◌, ◌≤◌, ◌≡◌, refl, ap, ◌∙◌, subst, List, [], ◌∷◌, ◌++◌, length, take, drop,
  replicate, Option, none, some, false, ltb, ◌||◌, if◌then◌else◌, length-append, take-append,
  drop-append, length-replicate, arith,
}
use ebpf_upf.Python.{ok, bind_inv}
use ebpf_upf.Python.Struct.{Bytes, little, le_value, from_bytes, split, pack}
use ebpf_upf.Python.Struct.RoundTrip.{split-pack, length-pack}
use ebpf_upf.Netlink.Attributes.{nla_format, padding, nla, join}

-- A type and a payload.
abbrev pub Attribute : Type 0
Attribute = ℕ × Bytes

unfoldable pub u16 : Bytes → ℕ → ℕ
unfolding le_value
u16 b off = le_value (take 2 (drop off b))

-- At most `n` attributes; `none` for a buffer that is malformed or holds more.
unfoldable pub read : ℕ → Bytes → Option (List Attribute)
unfolding u16
read n [] = some []
read zero (b ∷ bs) = none
read (suc n) (b ∷ bs) =
    let buffer = b ∷ bs in
    let len = u16 buffer 0 in
    let rest = read n (drop (len + padding len) buffer) in
    if ltb len 4 || ltb (length buffer) len
    then none
    else Option.map (λ l. (u16 buffer 2, take (len - 4) (drop 4 buffer)) ∷ l) rest

split_header : (b : Bytes) → split little nla_format b ≡ u16 b 0 ∷ u16 b 2 ∷ []
unfolding split u16 from_bytes
split_header b = refl

-- A buffer that starts with a complete attribute.
read-first :
    (n t : ℕ) (payload more rest c : Bytes)
    → u16 c 0 ≡ 4 + length payload
    → u16 c 2 ≡ t
    → drop 4 c ≡ payload ++ more
    → drop ((4 + length payload) + padding (4 + length payload)) c ≡ rest
    → 4 + length payload ≤ length c
    → read (suc n) c ≡ Option.map (λ l. (t, payload) ∷ l) (read n rest)
unfolding read
read-first n t payload more rest [] hl ht hp hr room = absurd (omega arith)
read-first n t payload more rest (b ∷ bs) hl ht hp hr room =
    let long : ltb (4 + length payload) 4 ≡ false = ground arith in
    let fits : ltb (length (b ∷ bs)) (4 + length payload) ≡ false = ground arith in
    let less : (4 + length payload) - 4 ≡ length payload = omega arith in
    rw (hl, ht, long, fits, hr, hp, less, take-append payload more) refl

-- `a` is the attribute that `nla` makes of a type and a payload.
abbrev pub Encodes : Attribute → Bytes → Type 0
Encodes (t, payload) a = nla t payload ≡ ok a

module _ (t : ℕ) (payload : Bytes) {a : Bytes} (h : nla t payload ≡ ok a) where
  -- The parts of an encoded attribute.
  pub parts :
      (header : Bytes) × (pack little nla_format ((4 + length payload) ∷ t ∷ []) ≡ ok header)
      × (a ≡ (header ++ payload) ++ replicate (padding (4 + length payload)) 0)
  parts =
      let (header, e, whole) =
        bind_inv (pack little nla_format ((4 + length payload) ∷ t ∷ []))
          (λ header. ok ((header ++ payload) ++ replicate (padding (4 + length payload)) 0)) {y = a}
          (unfold nla in h) in
      (header, e, cc whole)

  abbrev header : Bytes
  header = parts.0

  abbrev pad : Bytes
  pad = replicate (padding (4 + length payload)) 0

  length-header : length header ≡ 4
  length-header = length-pack little nla_format _ parts.1

  spread : (rest : Bytes) → a ++ rest ≡ header ++ (payload ++ (pad ++ rest))
  spread rest =
      ap (λ b. b ++ rest) parts.2
      ∙ append_assoc (header ++ payload) pad rest
      ∙ append_assoc header payload (pad ++ rest)

  pub length-nla : length a ≡ (4 + length payload) + padding (4 + length payload)
  length-nla =
      rw
        (
          parts.2,
          length-append (header ++ payload) pad,
          length-append header payload,
          length-header,
          length-replicate {A = ℕ} (padding (4 + length payload)) 0,
        )
        refl

  pub drop-nla :
      (rest : Bytes) → drop ((4 + length payload) + padding (4 + length payload)) (a ++ rest) ≡ rest
  drop-nla rest = subst (λ n. drop n (a ++ rest) ≡ rest) length-nla (drop-append a rest)

  pub drop-header : (rest : Bytes) → drop 4 (a ++ rest) ≡ payload ++ (pad ++ rest)
  drop-header rest =
      ap (drop 4) (spread rest)
      ∙ subst (λ n. drop n (header ++ (payload ++ (pad ++ rest))) ≡ payload ++ (pad ++ rest))
          length-header (drop-append header _)

  fields : (rest : Bytes) → split little nla_format (a ++ rest) ≡ (4 + length payload) ∷ t ∷ []
  fields rest = rw (spread rest) (split-pack little nla_format _ (payload ++ (pad ++ rest)) parts.1)

  pub length-field : (rest : Bytes) → u16 (a ++ rest) 0 ≡ 4 + length payload
  length-field rest = cc (fields rest, split_header (a ++ rest))

  pub type-field : (rest : Bytes) → u16 (a ++ rest) 2 ≡ t
  type-field rest = cc (fields rest, split_header (a ++ rest))

  -- The reader takes an encoded attribute off the front, whatever follows.
  read-nla :
      (n : ℕ) (rest : Bytes)
      → read (suc n) (a ++ rest) ≡ Option.map (λ l. (t, payload) ∷ l) (read n rest)
  read-nla n rest =
      read-first n t payload (pad ++ rest) rest (a ++ rest) (length-field rest) (type-field rest)
        (drop-header rest) (drop-nla rest) (omega (arith, length-append a rest, length-nla))

-- A list of attributes and the encoding of each.
abbrev pub Encoded : List Attribute → List Bytes → Type 0
Encoded [] [] = Unit
Encoded [] (b ∷ bs) = ⊥
Encoded (x ∷ xs) [] = ⊥
Encoded (x ∷ xs) (b ∷ bs) = Encodes x b × Encoded xs bs

read-Encoded :
    (n : ℕ) (xs : List Attribute) (bs : List Bytes)
    → Encoded xs bs
    → length xs ≤ n
    → read n (join bs) ≡ some xs
read-Encoded n [] [] h room = unfold read in refl
read-Encoded n [] (b ∷ bs) h room = absurd h
read-Encoded n (x ∷ xs) [] h room = absurd h
read-Encoded zero (x ∷ xs) (b ∷ bs) h room = absurd (omega arith)
read-Encoded (suc n) ((t, payload) ∷ xs) (b ∷ bs) (e, h) room =
    rw (read-nla t payload e n (join bs), read-Encoded n xs bs h (omega arith)) refl

-- The attributes of a buffer: none is shorter than a byte.
abbrev pub attributes : Bytes → Option (List Attribute)
attributes b = read (length b) b

pub length-Encoded :
    (xs : List Attribute) (bs : List Bytes) → Encoded xs bs → length xs ≤ length (join bs)
length-Encoded [] [] h = omega arith
length-Encoded [] (b ∷ bs) h = absurd h
length-Encoded (x ∷ xs) [] h = absurd h
length-Encoded ((t, payload) ∷ xs) (b ∷ bs) (e, h) =
    omega (arith, length-append b (join bs), length-nla t payload e, length-Encoded xs bs h)

-- For every list of attributes that `nla` accepts: an independent reader of the netlink format
-- takes exactly these attributes, in order, off the joined encodings.
pub attributes-join :
    (xs : List Attribute) (bs : List Bytes) → Encoded xs bs → attributes (join bs) ≡ some xs
attributes-join xs bs h = read-Encoded (length (join bs)) xs bs h (length-Encoded xs bs h)
