-- ===== src/Kernel/Tables/Laws.antt =====
-- What each command of the running kernel does to its entries.
use ebpf_upf.Prelude.{
  ℕ, zero, suc, ◌≡◌, refl, subst, ◌↔◌, inl, inr, String, Bool, true, ◌&&◌, List, [], ◌∷◌, ◌++◌,
  Option, none, some, length, take, get_elem?, All, ltb, ◌==◌, str_eq, eq_iff, if◌then◌else◌,
  Bool-cases, Option-cases, arith,
}
use ebpf_upf.Python.Struct.{Bytes, IsByte}
use ebpf_upf.Kernel.Tables.{
  Tables, Entry, bytes_eq, all_bytes, find, without, value_bytes, open_pinned, read_elem,
  write_elem, remove_elem,
}

pub bytes_eq_iff : (xs ys : Bytes) → (bytes_eq xs ys ≡ true) ↔ (xs ≡ ys)
unfolding bytes_eq
bytes_eq_iff [] [] = ground arith
bytes_eq_iff [] (y ∷ ys) = ground arith
bytes_eq_iff (x ∷ xs) [] = ground arith
bytes_eq_iff (x ∷ xs) (y ∷ ys) = ground (arith, bytes_eq_iff xs ys)

all_bytes-All : (xs : Bytes) → all_bytes xs ≡ true → All IsByte xs
unfolding all_bytes
all_bytes-All [] h = tt
all_bytes-All (x ∷ xs) h = (ground arith, all_bytes-All xs (ground arith))

pub All-all_bytes : (xs : Bytes) → All IsByte xs → all_bytes xs ≡ true
unfolding all_bytes
All-all_bytes [] h = refl
All-all_bytes (x ∷ xs) (hx, hxs) = ground (arith, All-all_bytes xs hxs)

pub All-take : (n : ℕ) (bs : Bytes) → All IsByte bs → All IsByte (take n bs)
All-take zero bs h = tt
All-take (suc n) [] h = tt
All-take (suc n) (b ∷ bs) (hb, hbs) = (hb, All-take n bs hbs)

-- Two places are the same.
abbrev pub same : String → Bytes → String → Bytes → Bool
same p k q j = str_eq p q && bytes_eq k j

pub find-without :
    (p : String) (k : Bytes) (q : String) (j : Bytes) (es : List Entry)
    → find q j (without p k es) ≡ (if same p k q j then none else find q j es)
unfolding find without
find-without p k q j [] = ground arith
find-without p k q j (e ∷ es) = ground (
  arith,
  find-without p k q j es,
  eq_iff p q,
  eq_iff e.path p,
  eq_iff e.path q,
  bytes_eq_iff k j,
  bytes_eq_iff e.key k,
  bytes_eq_iff e.key j,
)

pub find-cons :
    (p : String) (k v : Bytes) (q : String) (j : Bytes) (es : List Entry)
    → find q j (record { path = p; key = k; value = v } ∷ without p k es)
      ≡ (if same p k q j then some v else find q j es)
unfolding find
find-cons p k v q j es = ground (arith, find-without p k q j es)

pub get_elem?-append :
    (xs ys : List String) (i : ℕ) {p : String}
    → get_elem? xs i ≡ some p
    → get_elem? (xs ++ ys) i ≡ some p
get_elem?-append [] ys i h = cc
get_elem?-append (x ∷ xs) ys zero h = h
get_elem?-append (x ∷ xs) ys (suc i) h = get_elem?-append xs ys i h

pub get_elem?-last :
    (xs : List String) (p : String) → get_elem? (xs ++ (p ∷ [])) (length xs) ≡ some p
get_elem?-last [] p = refl
get_elem?-last (x ∷ xs) p = get_elem?-last xs p

module _ (pin_base : String) (capacity : ℕ) where
  -- Every stored value has its map's size.
  pub record IsValid (s : Tables) : Type 0 where
    pub sized :
        (p : String) (k v : Bytes)
        → find p k s.entries ≡ some v
        → (length v ≡ value_bytes pin_base capacity p) × All IsByte v

  pub same→eq :
      (p : String) (k : Bytes) (q : String) (j : Bytes) → same p k q j ≡ true → (p ≡ q) × (k ≡ j)
  same→eq p k q j h = ground (arith, eq_iff p q, bytes_eq_iff k j)

  cons-IsValid :
      (p : String) (k v : Bytes) (s : Tables)
      → (length v ≡ value_bytes pin_base capacity p) × All IsByte v
      → IsValid s
      → IsValid
          (record s { entries = record { path = p; key = k; value = v } ∷ without p k s.entries })
  cons-IsValid p k v s fits h = record {
    sized = λ q j x e.
        let e' = rw find-cons at e in
        elim (Bool-cases (same p k q j)) [
          | inl t ↦
              let (pq, kj) = same→eq p k q j t in
              let vx : v ≡ x = cc (rw t at e') in
              subst (λ y. (length y ≡ value_bytes pin_base capacity q) × All IsByte y) vx
                (subst (λ r. (length v ≡ value_bytes pin_base capacity r) × All IsByte v) pq fits)
          | inr f ↦ h.sized q j x (rw f at e')
        ];
  }

  without-IsValid :
      (p : String) (k : Bytes) (s : Tables)
      → IsValid s
      → IsValid (record s { entries = without p k s.entries })
  without-IsValid p k s h = record {
    sized = λ q j x e. h.sized q j x (ground (arith, find-without p k q j s.entries));
  }

  -- The tests of `write_elem`.
  abbrev pub accepted : String → Bytes → Bytes → Tables → Bool
  accepted p k v s =
      length v == value_bytes pin_base capacity p
      && (all_bytes v && ltb (length (without p k s.entries)) capacity)

  pub write-IsValid :
      (r : Option String) (k vb : Bytes) (s : Tables)
      → IsValid s
      → IsValid (write_elem pin_base capacity r k vb s).1
  unfolding write_elem
  write-IsValid none k vb s h = h
  write-IsValid (some p) k vb s h =
      let v = take (value_bytes pin_base capacity p) vb in
      elim (Bool-cases (accepted p k v s)) [
        | inl t ↦ rw t (cons-IsValid p k v s (ground arith, all_bytes-All v (ground arith)) h)
        | inr f ↦ rw f h
      ]

  pub remove-IsValid :
      (r : Option String) (k : Bytes) (s : Tables)
      → IsValid s
      → IsValid (remove_elem pin_base capacity r k s).1
  unfolding remove_elem
  remove-IsValid none k s h = h
  remove-IsValid (some p) k s h = elim (Option-cases (find p k s.entries)) [
    | inl e ↦ rw (e, remove_elem) h
    | inr (v, e) ↦ rw (e, remove_elem) (without-IsValid p k s h)
  ]

  pub open-IsValid :
      (p : String) (s : Tables) → IsValid s → IsValid (open_pinned pin_base capacity p s).1
  unfolding open_pinned
  open-IsValid p s h = elim (Bool-cases (value_bytes pin_base capacity p == 0)) [
    | inl t ↦ rw t h
    | inr f ↦ rw f (record { sized = h.sized })
  ]

  pub read-state :
      (r : Option String) (k : Bytes) (s : Tables) → (read_elem pin_base capacity r k s).1 ≡ s
  unfolding read_elem
  read-state none k s = refl
  read-state (some p) k s = ground arith
