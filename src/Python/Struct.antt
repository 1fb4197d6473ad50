-- ===== src/Python/Struct.antt =====
-- The part of Python's `struct` module that the scripts call: unsigned fields of fixed width,
-- least significant byte first (`<`, and `=` on x86_64) or most significant first (`>`, `!`).
-- A byte string is a list of numbers.
pub mod RoundTrip
use ebpf_upf.Prelude.{
  ℕ, zero, suc, ◌+◌, ◌*◌, ◌/◌, ◌%◌, ◌^◌, ◌<◌, List, [], ◌∷◌, ◌++◌, reverse, ltb, length, take, drop,
  ◌==◌, if◌then◌else◌,
}
use ebpf_upf.Python.{Result, ok, err, struct_error, ◌>>=◌}

abbrev pub Bytes : Type 0
Bytes = List ℕ

abbrev pub IsByte : ℕ → Type 0
IsByte b = b < 256

unfoldable pub le_bytes : ℕ → ℕ → Bytes
le_bytes zero x = []
le_bytes (suc w) x = (x % 256) ∷ le_bytes w (x / 256)

unfoldable pub le_value : Bytes → ℕ
le_value [] = 0
le_value (b ∷ bs) = b + 256 * le_value bs

pub data Order : Type 0 where
  little big : Order

unfoldable pub to_bytes : Order → ℕ → ℕ → Bytes
unfolding le_bytes
to_bytes little w x = le_bytes w x
to_bytes big w x = reverse (le_bytes w x)

unfoldable pub from_bytes : Order → Bytes → ℕ
unfolding le_value
from_bytes little bs = le_value bs
from_bytes big bs = le_value (reverse bs)

-- A format is the list of its fields' widths in bytes: "<IIII" is little, 4 ∷ 4 ∷ 4 ∷ 4.
abbrev pub Format : Type 0
Format = List ℕ

abbrev pub size : Format → ℕ
size [] = 0
size (w ∷ ws) = w + size ws

-- `struct.pack`: a value out of its field's range, and a wrong number of values, are refused.
unfoldable pub pack : Order → Format → List ℕ → Result Bytes
pack o [] [] = ok []
pack o [] (x ∷ xs) = err struct_error
pack o (w ∷ ws) [] = err struct_error
pack o (w ∷ ws) (x ∷ xs) =
    let rest = pack o ws xs in
    if ltb x (256 ^ w) then (do bs ← rest; ok (to_bytes o w x ++ bs)) else err struct_error

unfoldable pub split : Order → Format → Bytes → List ℕ
split o [] bs = []
split o (w ∷ ws) bs = from_bytes o (take w bs) ∷ split o ws (drop w bs)

-- `struct.unpack` wants exactly the format's size.
unfoldable pub unpack : Order → Format → Bytes → Result (List ℕ)
unfolding split
unpack o ws bs = if length bs == size ws then ok (split o ws bs) else err struct_error

-- `struct.unpack_from` wants that size at least, from the offset on.
unfoldable pub unpack_from : Order → Format → Bytes → ℕ → Result (List ℕ)
unfolding split
unpack_from o ws bs off =
    if ltb (length bs) (off + size ws) then err struct_error else ok (split o ws (drop off bs))
