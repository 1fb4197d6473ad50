-- ===== src/Python/Sorting.antt =====
-- `sorted`, `min` and `max` on lists of numbers, and the rank of an element of a sorted list.
use ebpf_upf.Prelude.{
  ℕ, zero, suc, ◌-◌, ◌≤◌, ◌<◌, ◌≡◌, refl, ap, ◌∙◌, List, [], ◌∷◌, none, some, Bool, true, false,
  ltb, leb, if◌then◌else◌, length, get_elem?, All, Bool-cases, inl, inr, subst, arith,
}
use ebpf_upf.Python.{Result, ok, err, index_error, value_error}

unfoldable pub insert : ℕ → List ℕ → List ℕ
insert x [] = x ∷ []
insert x (y ∷ ys) = let rest = insert x ys in if leb x y then x ∷ y ∷ ys else y ∷ rest

unfoldable pub sorted : List ℕ → List ℕ
unfolding insert
sorted [] = []
sorted (x ∷ xs) = insert x (sorted xs)

-- `l[i]` for an index that is not negative.
unfoldable pub item : {A : Type 0} → List A → ℕ → Result A
item l i = elim (get_elem? l i) [ none ↦ err index_error | some a ↦ ok a ]

unfoldable pub least : ℕ → List ℕ → ℕ
least m [] = m
least m (x ∷ xs) = least (if ltb x m then x else m) xs

unfoldable pub greatest : ℕ → List ℕ → ℕ
greatest m [] = m
greatest m (x ∷ xs) = greatest (if ltb m x then x else m) xs

unfoldable pub min_of : List ℕ → Result ℕ
unfolding least
min_of [] = err value_error
min_of (x ∷ xs) = ok (least x xs)

unfoldable pub max_of : List ℕ → Result ℕ
unfolding greatest
max_of [] = err value_error
max_of (x ∷ xs) = ok (greatest x xs)

-- How many elements pass the test.
abbrev pub count_if : (ℕ → Bool) → List ℕ → ℕ
count_if p [] = 0
count_if p (x ∷ xs) = let rest = count_if p xs in if p x then suc rest else rest

-- `v` has rank `k`: at most `k` elements are below it, and more than `k` are not above it.
abbrev pub HasRank : List ℕ → ℕ → ℕ → Type 0
HasRank l k v = (count_if (λ x. ltb x v) l ≤ k) × (k < count_if (λ x. leb x v) l)

abbrev IsSorted : List ℕ → Type 0
IsSorted [] = Unit
IsSorted (x ∷ xs) = All (λ y. x ≤ y) xs × IsSorted xs

All-insert : (P : ℕ → Type 0) (x : ℕ) (ys : List ℕ) → P x → All P ys → All P (insert x ys)
unfolding insert
All-insert P x [] hx h = (hx, tt)
All-insert P x (y ∷ ys) hx (hy, h) =
    elim (leb x y) as (λ b. All P (if b then x ∷ y ∷ ys else y ∷ insert x ys)) [
      | true ↦ (hx, (hy, h))
      | false ↦ (hy, All-insert P x ys hx h)
    ]

All-le : (x y : ℕ) (ys : List ℕ) → x ≤ y → All (λ z. y ≤ z) ys → All (λ z. x ≤ z) ys
All-le x y [] h hs = tt
All-le x y (z ∷ ys) h (hz, hs) = (omega arith, All-le x y ys h hs)

insert-IsSorted : (x : ℕ) (ys : List ℕ) → IsSorted ys → IsSorted (insert x ys)
unfolding insert
insert-IsSorted x [] h = (tt, tt)
insert-IsSorted x (y ∷ ys) (hy, h) = elim (Bool-cases (leb x y)) [
  | inl first ↦ let le : x ≤ y = ground arith in rw first ((le, All-le x y ys le hy), (hy, h))
  | inr later ↦
      let le : y ≤ x = ground arith in
      rw later (All-insert (λ z. y ≤ z) x ys le hy, insert-IsSorted x ys h)
]

sorted-IsSorted : (l : List ℕ) → IsSorted (sorted l)
unfolding sorted
sorted-IsSorted [] = tt
sorted-IsSorted (x ∷ xs) = insert-IsSorted x (sorted xs) (sorted-IsSorted xs)

count_if-insert :
    (p : ℕ → Bool) (x : ℕ) (ys : List ℕ) → count_if p (insert x ys) ≡ count_if p (x ∷ ys)
unfolding insert
count_if-insert p x [] = refl
count_if-insert p x (y ∷ ys) = ground (arith, count_if-insert p x ys)

count_if-sorted : (p : ℕ → Bool) (l : List ℕ) → count_if p (sorted l) ≡ count_if p l
unfolding sorted
count_if-sorted p [] = refl
count_if-sorted p (x ∷ xs) = count_if-insert p x (sorted xs) ∙ ground (arith, count_if-sorted p xs)

none_below : (v : ℕ) (xs : List ℕ) → All (λ y. v ≤ y) xs → count_if (λ x. ltb x v) xs ≡ 0
none_below v [] h = refl
none_below v (x ∷ xs) (h, hs) = ground (arith, none_below v xs hs)

All-get_elem? :
    (P : ℕ → Type 0) (xs : List ℕ) (k : ℕ) {v : ℕ} → All P xs → get_elem? xs k ≡ some v → P v
All-get_elem? P [] k h g = cc
All-get_elem? P (x ∷ xs) zero (h, hs) g = subst P (ground arith) h
All-get_elem? P (x ∷ xs) (suc k) (h, hs) g = All-get_elem? P xs k hs g

head-HasRank : (x : ℕ) (xs : List ℕ) → All (λ y. x ≤ y) xs → HasRank (x ∷ xs) 0 x
head-HasRank x xs h = (ground (arith, none_below x xs h), ground arith)

get_elem?-HasRank : (l : List ℕ) (k v : ℕ) → IsSorted l → get_elem? l k ≡ some v → HasRank l k v
get_elem?-HasRank [] k v s g = cc
get_elem?-HasRank (x ∷ xs) zero v (h, s) g =
    let e : x ≡ v = ground arith in subst (HasRank (x ∷ xs) 0) e (head-HasRank x xs h)
get_elem?-HasRank (x ∷ xs) (suc k) v (h, s) g =
    let le : x ≤ v = All-get_elem? (λ y. x ≤ y) xs k h g in
    let (low, high) = get_elem?-HasRank xs k v s g in (ground arith, ground arith)

-- The element at an index of the sorted list has that rank among the elements as they came.
pub sorted-HasRank : (l : List ℕ) (k v : ℕ) → get_elem? (sorted l) k ≡ some v → HasRank l k v
sorted-HasRank l k v g =
    let (low, high) = get_elem?-HasRank (sorted l) k v (sorted-IsSorted l) g in
    (
      omega (arith, count_if-sorted (λ x. ltb x v) l),
      omega (arith, count_if-sorted (λ x. leb x v) l),
    )

length-insert : (x : ℕ) (ys : List ℕ) → length (insert x ys) ≡ suc (length ys)
unfolding insert
length-insert x [] = refl
length-insert x (y ∷ ys) = ground (arith, length-insert x ys)

pub length-sorted : (l : List ℕ) → length (sorted l) ≡ length l
unfolding sorted
length-sorted [] = refl
length-sorted (x ∷ xs) = length-insert x (sorted xs) ∙ ap suc (length-sorted xs)

pub get_elem?-below :
    {A : Type 0} (l : List A) (k : ℕ) → k < length l → (a : A) × (get_elem? l k ≡ some a)
get_elem?-below [] k h = absurd (omega arith)
get_elem?-below (x ∷ xs) zero h = (x, refl)
get_elem?-below (x ∷ xs) (suc k) h = get_elem?-below xs k (omega arith)

count_if-le-length : (p : ℕ → Bool) (l : List ℕ) → count_if p l ≤ length l
count_if-le-length p [] = omega arith
count_if-le-length p (x ∷ xs) = ground (arith, count_if-le-length p xs)

-- Two elements in front, of which the walk keeps one.
module _ (m x v : ℕ) (xs : List ℕ) where
  pair_below :
      count_if (λ y. ltb y v) ((if ltb x m then x else m) ∷ xs) ≤ 0
      → count_if (λ y. ltb y v) (m ∷ x ∷ xs) ≤ 0
  pair_below h = ground arith

  pair_upto :
      0 < count_if (λ y. leb y v) ((if ltb x m then x else m) ∷ xs)
      → 0 < count_if (λ y. leb y v) (m ∷ x ∷ xs)
  pair_upto h = ground arith

  pair_some_below :
      count_if (λ y. ltb y v) ((if ltb m x then x else m) ∷ xs) ≤ length xs
      → count_if (λ y. ltb y v) (m ∷ x ∷ xs) ≤ suc (length xs)
  pair_some_below h = ground arith

  pair_all_upto :
      length xs < count_if (λ y. leb y v) ((if ltb m x then x else m) ∷ xs)
      → suc (length xs) < count_if (λ y. leb y v) (m ∷ x ∷ xs)
  pair_all_upto h = ground (arith, count_if-le-length (λ y. leb y v) xs)

least-HasRank : (m : ℕ) (xs : List ℕ) → HasRank (m ∷ xs) 0 (least m xs)
unfolding least
least-HasRank m [] = (ground arith, ground arith)
least-HasRank m (x ∷ xs) =
    let m' : ℕ = if ltb x m then x else m in
    let (low, high) = least-HasRank m' xs in
    (pair_below m x (least m' xs) xs low, pair_upto m x (least m' xs) xs high)

greatest-HasRank : (m : ℕ) (xs : List ℕ) → HasRank (m ∷ xs) (length xs) (greatest m xs)
unfolding greatest
greatest-HasRank m [] = (ground arith, ground arith)
greatest-HasRank m (x ∷ xs) =
    let m' : ℕ = if ltb m x then x else m in
    let (low, high) = greatest-HasRank m' xs in
    (pair_some_below m x (greatest m' xs) xs low, pair_all_upto m x (greatest m' xs) xs high)

-- The smallest element has rank 0.
pub min_of-HasRank : (l : List ℕ) (m : ℕ) → min_of l ≡ ok m → HasRank l 0 m
unfolding min_of
min_of-HasRank [] m h = cc
min_of-HasRank (x ∷ xs) m h =
    let e : least x xs ≡ m = ground arith in subst (HasRank (x ∷ xs) 0) e (least-HasRank x xs)

-- The largest element has the last rank.
pub max_of-HasRank : (l : List ℕ) (m : ℕ) → max_of l ≡ ok m → HasRank l (length l - 1) m
unfolding max_of
max_of-HasRank [] m h = cc
max_of-HasRank (x ∷ xs) m h =
    let e : greatest x xs ≡ m = ground arith in
    let n : length xs ≡ length (x ∷ xs) - 1 = omega arith in
    subst (λ k. HasRank (x ∷ xs) k m) n
      (subst (HasRank (x ∷ xs) (length xs)) e (greatest-HasRank x xs))

pub item-get_elem? :
    {A : Type 0} (l : List A) (i : ℕ) (a : A) → get_elem? l i ≡ some a → item l i ≡ ok a
unfolding item
item-get_elem? l i a h = rw (h, item)

pub min_of_total : (l : List ℕ) → 0 < length l → (m : ℕ) × (min_of l ≡ ok m)
unfolding min_of
min_of_total [] h = absurd (omega arith)
min_of_total (x ∷ xs) h = (_, refl)

pub max_of_total : (l : List ℕ) → 0 < length l → (m : ℕ) × (max_of l ≡ ok m)
unfolding max_of
max_of_total [] h = absurd (omega arith)
max_of_total (x ∷ xs) h = (_, refl)
