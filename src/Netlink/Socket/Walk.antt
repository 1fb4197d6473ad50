-- ===== src/Netlink/Socket/Walk.antt =====
-- The loop of `resolve_family`: it ends, and on a well-formed reply it finds the family.
use ebpf_upf.Prelude.{
  ℕ, zero, suc, ◌+◌, ◌≤◌, ◌≡◌, refl, sym, ap, ◌∙◌, List, [], ◌∷◌, ◌++◌, Option, some, ltb, ◌==◌,
  true, false, if◌then◌else◌, Bool-cases, inl, inr, length, take, drop, ==_iff, length-append,
  drop-drop, take-append-le, drop-append, arith,
}
use ebpf_upf.Python.{Result, ok, err}
use ebpf_upf.Python.Exec.{Exec, pure, resume, ◌>>◌}
use ebpf_upf.Python.Struct.{Bytes, size, split, unpack_from, from_bytes, le_value}
use ebpf_upf.Netlink.Attributes.{nla_format, nla, padding, join}
use ebpf_upf.Netlink.Attributes.Reading.{
  Attribute, Encoded, length-nla, u16, length-field, type-field, drop-header, drop-nla,
  length-Encoded,
}
use ebpf_upf.Netlink.Replies.{attr_header, field}
use ebpf_upf.Netlink.Socket.{note_family, attribute_at, walk}

-- The body only uses the rest of the loop at least four bytes further on.
module _ (resp : Bytes) (off : ℕ) (next next' : ℕ → Exec (Option ℕ) (Unit {0}))
    (same : (o : ℕ) → off + 4 ≤ o → (s : Option ℕ) → next o s ≡ next' o s) where
  abbrev turn : (ℕ → Exec (Option ℕ) (Unit {0})) → ℕ × ℕ → Exec (Option ℕ) (Unit {0})
  turn more (a_len, a_type) =
      if ltb a_len 4
      then pure tt
      else (note_family resp off a_type >> more (off + (a_len + padding a_len)))

  resume-later :
      (r : Result (Unit {0})) (o : ℕ)
      → off + 4 ≤ o
      → (s : Option ℕ) → resume r (λ _. next o) s ≡ resume r (λ _. next' o) s
  resume-later (ok u) o later s = same o later s
  resume-later (err e) o later s = refl

  attribute_at-later : (s : Option ℕ) → attribute_at resp off next s ≡ attribute_at resp off next' s
  unfolding attribute_at
  attribute_at-later s =
      elim (attr_header resp off) as (λ r. resume r (turn next) s ≡ resume r (turn next') s) [
        | err e ↦ refl
        | ok (a_len, a_type) ↦ elim (Bool-cases (ltb a_len 4)) [
          | inl short ↦ rw short refl
          | inr long ↦
              let (r, s') = note_family resp off a_type s in
              rw long (resume-later r (off + (a_len + padding a_len)) (ground arith) s')
        ]
      ]

-- For every buffer, end and offset: with at least as many turns as bytes are left, the loop does
-- the same whatever the number of turns, so that the bound on the turns is never what ends it.
pub walk_enough :
    (n m : ℕ) (resp : Bytes) (end off : ℕ)
    → end ≤ off + n
    → end ≤ off + m
    → (family : Option ℕ) → walk n resp end off family ≡ walk m resp end off family
unfolding walk
walk_enough zero zero resp end off hn hm family = refl
walk_enough zero (suc m) resp end off hn hm family =
    let stop : ltb off end ≡ false = ground arith in rw stop refl
walk_enough (suc n) zero resp end off hn hm family =
    let stop : ltb off end ≡ false = ground arith in rw stop refl
walk_enough (suc n) (suc m) resp end off hn hm family = elim (Bool-cases (ltb off end)) [
  | inl more ↦ rw more (
      attribute_at-later resp off (walk n resp end) (walk m resp end)
        (λ o later s. walk_enough n m resp end o (omega arith) (omega arith) s) family)
  | inr stop ↦ rw stop refl
]

-- What the attributes say of the family: the value of the last `CTRL_ATTR_FAMILY_ID`.
abbrev pub last_family : List Attribute → Option ℕ → Option ℕ
last_family [] family = family
last_family ((t, payload) ∷ xs) family =
    last_family xs (if t == 1 then some (le_value (take 2 payload)) else family)

-- An identifier has two bytes at least.
abbrev pub Wide : List Attribute → Type 0
Wide [] = Unit
Wide ((t, payload) ∷ xs) = (t ≡ 1 → 2 ≤ length payload) × Wide xs

-- The loop at an encoded attribute.
module _ (t : ℕ) (payload : Bytes) {a : Bytes} (e : nla t payload ≡ ok a) (rest resp : Bytes)
    (off : ℕ) (here : drop off resp ≡ a ++ rest)
    (whole : length resp ≡ off + length (a ++ rest)) where
  reads-header : attr_header resp off ≡ ok (4 + length payload, t)
  unfolding attr_header unpack_from from_bytes
  reads-header =
      let len : le_value (take 2 (a ++ rest)) ≡ 4 + length payload =
        unfold u16 in length-field t payload e rest in
      let kind : le_value (take 2 (drop 2 (a ++ rest))) ≡ t =
        unfold u16 in type-field t payload e rest in
      let room : ltb (length resp) (off + size nla_format) ≡ false =
        ground (arith, length-append a rest, length-nla t payload e) in
      rw (room, here, len, kind) refl

  reads-id : 2 ≤ length payload → field 2 resp (off + 4) ≡ ok (le_value (take 2 payload))
  unfolding field unpack_from split from_bytes
  reads-id wide =
      let room : ltb (length resp) ((off + 4) + size (2 ∷ [])) ≡ false =
        ground (arith, length-append a rest, length-nla t payload e) in
      rw
        (
          room,
          sym (drop-drop off 4 resp),
          here,
          drop-header t payload e rest,
          take-append-le 2 payload _ wide,
        )
        refl

  notes-family :
      (t ≡ 1 → 2 ≤ length payload)
      → (family : Option ℕ)
      → note_family resp off t family
        ≡ (ok tt, if t == 1 then some (le_value (take 2 payload)) else family)
  unfolding note_family
  notes-family wide family = elim (Bool-cases (t == 1)) [
    | inl yes' ↦ rw (yes', reads-id (wide ((==_iff t 1).0 yes'))) refl
    | inr no' ↦ rw no' refl
  ]

  next-attribute : drop (off + ((4 + length payload) + padding (4 + length payload))) resp ≡ rest
  next-attribute =
      sym (drop-drop off ((4 + length payload) + padding (4 + length payload)) resp)
      ∙ ap (drop ((4 + length payload) + padding (4 + length payload))) here
      ∙ drop-nla t payload e rest

  attribute_at-nla :
      (next : ℕ → Exec (Option ℕ) (Unit {0})) (family : Option ℕ)
      → (t ≡ 1 → 2 ≤ length payload)
      → attribute_at resp off next family
        ≡ next
            (off + ((4 + length payload) + padding (4 + length payload)))
            (if t == 1 then some (le_value (take 2 payload)) else family)
  unfolding attribute_at
  attribute_at-nla next family wide =
      let long : ltb (4 + length payload) 4 ≡ false = ground arith in
      rw (reads-header, long, notes-family wide family) refl

-- A reply whose bytes from `off` on are encoded attributes, to its end.
walk-Encoded :
    (n : ℕ) (xs : List Attribute) (bs : List Bytes) (resp : Bytes) (off : ℕ) (family : Option ℕ)
    → Encoded xs bs
    → Wide xs
    → drop off resp ≡ join bs
    → length resp ≡ off + length (join bs)
    → length xs ≤ n
    → walk n resp (length resp) off family ≡ (ok tt, last_family xs family)
unfolding walk
walk-Encoded zero [] [] resp off family h wide here whole room = refl
walk-Encoded (suc n) [] [] resp off family h wide here whole room =
    let stop : ltb off (length resp) ≡ false = ground arith in rw stop refl
walk-Encoded n [] (b ∷ bs) resp off family h wide here whole room = absurd h
walk-Encoded n (x ∷ xs) [] resp off family h wide here whole room = absurd h
walk-Encoded zero (x ∷ xs) (b ∷ bs) resp off family h wide here whole room = absurd (omega arith)
walk-Encoded (suc n) ((t, payload) ∷ xs) (b ∷ bs) resp off family (e, h) (wide, wides) here whole
      room =
    let len = (4 + length payload) + padding (4 + length payload) in
    let size' = length-nla t payload e in
    let total = length-append b (join bs) in
    let more : ltb off (length resp) ≡ true = ground (arith, whole, size', total) in
    let whole' : length resp ≡ (off + len) + length (join bs) =
      omega (arith, whole, size', total) in
    rw
      (
        more,
        attribute_at-nla t payload e (join bs) resp off here whole (walk n resp (length resp))
            family wide,
      )
      (walk-Encoded n xs bs resp (off + len) _ h wides
        (next-attribute t payload e (join bs) resp off here whole) whole' (omega arith))

-- For every header of any bytes and every list of attributes that `nla` accepts, in which each
-- `CTRL_ATTR_FAMILY_ID` has two bytes at least: on the reply made of them, from the header's end to
-- the reply's, and with as many turns as the reply has bytes, the loop of `resolve_family` ends
-- normally with the value of the last `CTRL_ATTR_FAMILY_ID`, or the family from before if there is
-- none.
pub walk_finds :
    (xs : List Attribute) (bs : List Bytes) (front : Bytes) (family : Option ℕ)
    → Encoded xs bs
    → Wide xs
    → let resp = front ++ join bs in
      walk (length resp) resp (length resp) (length front) family ≡ (ok tt, last_family xs family)
walk_finds xs bs front family h wide =
    walk-Encoded (length (front ++ join bs)) xs bs (front ++ join bs) (length front) family h wide
      (drop-append front (join bs)) (length-append front (join bs))
      (omega (arith, length-append front (join bs), length-Encoded xs bs h))
