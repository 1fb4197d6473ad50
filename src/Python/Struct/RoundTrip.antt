-- ===== src/Python/Struct/RoundTrip.antt =====
-- `unpack` reads back what `pack` wrote, for every format and both byte orders.
use mathlib.Core.List.{append-nil, append_assoc, reverse-append, reverse-reverse}
use native.Mathlib.Nat.{pow-suc}
use ebpf_upf.Prelude.{
  ℕ, zero, suc, ◌+◌, ◌/◌, ◌^◌, ◌<◌, ◌≡◌, refl, ap, sym, ◌∙◌, List, [], ◌∷◌, ◌++◌, reverse, ltb,
  if◌then◌else◌, length, take, drop, All, Bool, true, false, length-append, take-append,
  drop-append, Bool-cases, inl, inr, ltb→lt, lt→ltb, ==_iff, subst, arith,
}
use ebpf_upf.Python.{Exception, Result, ok, err, struct_error, ◌>>=◌}
use ebpf_upf.Python.Struct.{
  Bytes, IsByte, le_bytes, le_value, Order, little, big, to_bytes, from_bytes, Format, size, pack,
  unpack, unpack_from, split,
}

pub length-le_bytes : (w x : ℕ) → length (le_bytes w x) ≡ w
unfolding le_bytes
length-le_bytes zero x = refl
length-le_bytes (suc w) x = ap suc (length-le_bytes w (x / 256))

pub le_bytes-IsByte : (w x : ℕ) → All IsByte (le_bytes w x)
unfolding le_bytes
le_bytes-IsByte zero x = tt
le_bytes-IsByte (suc w) x = (omega arith, le_bytes-IsByte w (x / 256))

div_below : (w x : ℕ) → x < 256 ^ suc w → x / 256 < 256 ^ w
div_below w x h = omega (arith, pow-suc 256 w)

pub le_value-le_bytes : (w x : ℕ) → x < 256 ^ w → le_value (le_bytes w x) ≡ x
unfolding le_value le_bytes
le_value-le_bytes zero x h = omega arith
le_value-le_bytes (suc w) x h = omega (arith, le_value-le_bytes w (x / 256) (div_below w x h))

length-reverse : (xs : List ℕ) → length (reverse xs) ≡ length xs
length-reverse [] = refl
length-reverse (x ∷ xs) =
    ap length (reverse-append (x ∷ []) xs)
    ∙ length-append (reverse xs) (x ∷ [])
    ∙ omega (arith, length-reverse xs)

pub length-to_bytes : (o : Order) (w x : ℕ) → length (to_bytes o w x) ≡ w
unfolding to_bytes
length-to_bytes little w x = length-le_bytes w x
length-to_bytes big w x = length-reverse (le_bytes w x) ∙ length-le_bytes w x

pub from_bytes-to_bytes : (o : Order) (w x : ℕ) → x < 256 ^ w → from_bytes o (to_bytes o w x) ≡ x
unfolding from_bytes to_bytes
from_bytes-to_bytes little w x h = le_value-le_bytes w x h
from_bytes-to_bytes big w x h = rw reverse-reverse (le_value-le_bytes w x h)

-- Every value lies in its field's range, and there is one for each field.
abbrev pub InRange : Format → List ℕ → Type 0
InRange [] [] = Unit
InRange [] (x ∷ xs) = ⊥
InRange (w ∷ ws) [] = ⊥
InRange (w ∷ ws) (x ∷ xs) = (x < 256 ^ w) × InRange ws xs

pub pack-ok :
    (o : Order) (ws : Format) (xs : List ℕ) → InRange ws xs → (bs : Bytes) × (pack o ws xs ≡ ok bs)
unfolding pack
pack-ok o [] [] h = ([], refl)
pack-ok o [] (x ∷ xs) h = absurd h
pack-ok o (w ∷ ws) [] h = absurd h
pack-ok o (w ∷ ws) (x ∷ xs) (hx, hxs) =
    let (bs, e) = pack-ok o ws xs hxs in (to_bytes o w x ++ bs, rw (lt→ltb x (256 ^ w) hx, e))

-- What `pack` made of one field and the rest.
pub pack_inv :
    (o : Order) (w : ℕ) (ws : Format) (x : ℕ) (xs : List ℕ) {bs : Bytes}
    → pack o (w ∷ ws) (x ∷ xs) ≡ ok bs
    → (tl : Bytes) × (x < 256 ^ w) × (pack o ws xs ≡ ok tl) × (bs ≡ to_bytes o w x ++ tl)
unfolding pack
pack_inv o w ws x xs h = go (ltb x (256 ^ w)) refl (pack o ws xs) refl h
  where
    go :
        (b : Bool)
        → ltb x (256 ^ w) ≡ b
        → (r : Result Bytes) → pack o ws xs ≡ r
        → {bs : Bytes}
        → (if b then (do tl ← r; ok (to_bytes o w x ++ tl)) else err struct_error) ≡ ok bs
        → (tl : Bytes) × (x < 256 ^ w) × (pack o ws xs ≡ ok tl) × (bs ≡ to_bytes o w x ++ tl)
    go true hb (ok tl) hr e = (tl, ltb→lt x (256 ^ w) hb, hr, cc)
    go true hb (err x') hr e = cc
    go false hb r hr e = cc

pub length-pack :
    (o : Order) (ws : Format) (xs : List ℕ) {bs : Bytes}
    → pack o ws xs ≡ ok bs
    → length bs ≡ size ws
length-pack o [] [] h = unfold pack in ground arith
length-pack o [] (x ∷ xs) h = unfold pack in cc
length-pack o (w ∷ ws) [] h = unfold pack in cc
length-pack o (w ∷ ws) (x ∷ xs) h =
    let (tl, hx, htl, e) = pack_inv o w ws x xs h in
    rw (e, length-append (to_bytes o w x) tl, length-to_bytes o w x, length-pack o ws xs htl)

take_field : (o : Order) (w x : ℕ) (tl : Bytes) → take w (to_bytes o w x ++ tl) ≡ to_bytes o w x
take_field o w x tl =
    subst (λ n. take n (to_bytes o w x ++ tl) ≡ to_bytes o w x) (length-to_bytes o w x)
      (take-append (to_bytes o w x) tl)

drop_field : (o : Order) (w x : ℕ) (tl : Bytes) → drop w (to_bytes o w x ++ tl) ≡ tl
drop_field o w x tl =
    subst (λ n. drop n (to_bytes o w x ++ tl) ≡ tl) (length-to_bytes o w x)
      (drop-append (to_bytes o w x) tl)

-- A reader of a buffer that starts with a packed record finds its fields, whatever follows.
pub split-pack :
    (o : Order) (ws : Format) (xs : List ℕ) {bs : Bytes} (more : Bytes)
    → pack o ws xs ≡ ok bs
    → split o ws (bs ++ more) ≡ xs
unfolding split
split-pack o [] [] more h = refl
split-pack o [] (x ∷ xs) more h = unfold pack in cc
split-pack o (w ∷ ws) [] more h = unfold pack in cc
split-pack o (w ∷ ws) (x ∷ xs) {bs} more h =
    let (tl, hx, htl, e) = pack_inv o w ws x xs h in
    let assoc : bs ++ more ≡ to_bytes o w x ++ (tl ++ more) =
      rw e (append_assoc (to_bytes o w x) tl more) in
    rw (
      assoc,
      take_field o w x (tl ++ more),
      drop_field o w x (tl ++ more),
      from_bytes-to_bytes o w x hx,
      split-pack o ws xs more htl,
    )

-- For every format, byte order and list of values: what `struct.pack` accepts has the size of the
-- format, and `struct.unpack` of it returns the values.
pub unpack-pack :
    (o : Order) (ws : Format) (xs : List ℕ) {bs : Bytes}
    → pack o ws xs ≡ ok bs
    → (length bs ≡ size ws) × (unpack o ws bs ≡ ok xs)
unpack-pack o ws xs {bs} h =
    let n = length-pack o ws xs h in
    let whole : split o ws bs ≡ xs = rw append-nil at (split-pack o ws xs [] h) in
    (n, unfold unpack in rw ((==_iff (length bs) (size ws)).1 n, whole))

-- `struct.pack` accepts exactly the lists with one value in range for each field.
pub pack-InRange :
    (o : Order) (ws : Format) (xs : List ℕ) {bs : Bytes} → pack o ws xs ≡ ok bs → InRange ws xs
pack-InRange o [] [] h = tt
pack-InRange o [] (x ∷ xs) h = unfold pack in cc
pack-InRange o (w ∷ ws) [] h = unfold pack in cc
pack-InRange o (w ∷ ws) (x ∷ xs) h =
    let (tl, hx, htl, e) = pack_inv o w ws x xs h in (hx, pack-InRange o ws xs htl)

-- Every refusal of `pack` is a `struct.error`.
pub pack_err :
    (o : Order) (ws : Format) (xs : List ℕ) → ¬ InRange ws xs → pack o ws xs ≡ err struct_error
unfolding pack
pack_err o [] [] h = absurd (h tt)
pack_err o [] (x ∷ xs) h = refl
pack_err o (w ∷ ws) [] h = refl
pack_err o (w ∷ ws) (x ∷ xs) h = elim (Bool-cases (ltb x (256 ^ w))) [
  | inl small ↦ rw (small, pack_err o ws xs (λ t. h (ltb→lt x (256 ^ w) small, t)))
  | inr large ↦ rw large
]

-- A packed record that stands `length front` bytes into a buffer is read back from there.
pub unpack_from-pack :
    (o : Order) (ws : Format) (xs : List ℕ) {bs : Bytes} (front more : Bytes)
    → pack o ws xs ≡ ok bs
    → unpack_from o ws (front ++ (bs ++ more)) (length front) ≡ ok xs
unpack_from-pack o ws xs {bs} front more h =
    let room : ltb (length (front ++ (bs ++ more))) (length front + size ws) ≡ false =
      ground
        (arith, length-append front (bs ++ more), length-append bs more, length-pack o ws xs h) in
    unfold unpack_from in rw (room, drop-append front (bs ++ more), split-pack o ws xs more h)

pub All-append : (xs ys : Bytes) → All IsByte xs → All IsByte ys → All IsByte (xs ++ ys)
All-append [] ys hx hy = hy
All-append (x ∷ xs) ys (h, hx) hy = (h, All-append xs ys hx hy)

All-reverse : (xs : Bytes) → All IsByte xs → All IsByte (reverse xs)
All-reverse [] h = tt
All-reverse (x ∷ xs) (h, hx) =
    subst (All IsByte) (sym (reverse-append (x ∷ []) xs))
      (All-append (reverse xs) (x ∷ []) (All-reverse xs hx) (h, tt))

pub to_bytes-IsByte : (o : Order) (w x : ℕ) → All IsByte (to_bytes o w x)
unfolding to_bytes
to_bytes-IsByte little w x = le_bytes-IsByte w x
to_bytes-IsByte big w x = All-reverse (le_bytes w x) (le_bytes-IsByte w x)

pub pack-IsByte :
    (o : Order) (ws : Format) (xs : List ℕ) {bs : Bytes} → pack o ws xs ≡ ok bs → All IsByte bs
pack-IsByte o [] [] {bs} h = let e : [] ≡ bs = unfold pack in cc in subst (All IsByte) e tt
pack-IsByte o [] (x ∷ xs) h = unfold pack in cc
pack-IsByte o (w ∷ ws) [] h = unfold pack in cc
pack-IsByte o (w ∷ ws) (x ∷ xs) h =
    let (tl, hx, htl, e) = pack_inv o w ws x xs h in
    rw e (All-append (to_bytes o w x) tl (to_bytes-IsByte o w x) (pack-IsByte o ws xs htl))

-- A refused list of values has one that is out of range, or too few, or too many.
pub pack_fails :
    (o : Order) (ws : Format) (xs : List ℕ) {e : Exception}
    → pack o ws xs ≡ err e
    → (e ≡ struct_error) × ¬ InRange ws xs
pack_fails o ws xs {e} h =
    let no = λ (r : InRange ws xs). let bad : ⊥ = cc (h, (pack-ok o ws xs r).1) in bad in
    (cc (h, pack_err o ws xs no), no)
