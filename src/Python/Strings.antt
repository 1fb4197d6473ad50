-- ===== src/Python/Strings.antt =====
-- Text methods of Python on lists of ASCII codes, and `bytes.fromhex`.
use ebpf_upf.Prelude.{
  ℕ, ◌+◌, ◌*◌, [], ◌∷◌, none, some, Bool, true, false, ◌&&◌, ◌||◌, leb, ◌==◌, if◌then◌else◌,
}
use ebpf_upf.Python.{Result, ok, err, value_error, ◌>>=◌}
use ebpf_upf.Python.Hex.{hex_digit}
use ebpf_upf.Python.Struct.{Bytes}

-- `isspace` of an ASCII code.
unfoldable pub is_space : ℕ → Bool
is_space c = c == 32 || (leb 9 c && leb c 13 || leb 28 c && leb c 31)

unfoldable pub lstrip : Bytes → Bytes
unfolding is_space
lstrip [] = []
lstrip (c ∷ s) = let rest = lstrip s in if is_space c then rest else c ∷ s

abbrev pub cons_unless : Bool → ℕ → Bytes → Bytes
cons_unless true c [] = []
cons_unless true c (d ∷ s) = c ∷ d ∷ s
cons_unless false c s = c ∷ s

unfoldable pub rstrip : Bytes → Bytes
unfolding is_space
rstrip [] = []
rstrip (c ∷ s) = cons_unless (is_space c) c (rstrip s)

-- `s.strip()`
unfoldable pub strip_spaces : Bytes → Bytes
unfolding lstrip rstrip
strip_spaces s = rstrip (lstrip s)

-- `s.replace(' ', '')`
unfoldable pub remove_spaces : Bytes → Bytes
remove_spaces [] = []
remove_spaces (c ∷ s) = let rest = remove_spaces s in if c == 32 then rest else c ∷ rest

unfoldable pub hex_pair : ℕ → ℕ → Result ℕ
unfolding hex_digit
hex_pair c d = elim (hex_digit c) [
  | none ↦ err value_error
  | some high ↦ elim (hex_digit d) [ none ↦ err value_error | some low ↦ ok (high * 16 + low) ]
]

-- What `bytes.fromhex` skips between pairs of digits.
unfoldable pub is_blank : ℕ → Bool
is_blank c = c == 32 || leb 9 c && leb c 13

-- `bytes.fromhex`
unfoldable pub from_hex : Bytes → Result Bytes
unfolding hex_pair is_blank
from_hex [] = ok []
from_hex (c ∷ []) = if is_blank c then ok [] else err value_error
from_hex (c ∷ d ∷ s) =
    let skipped = from_hex (d ∷ s) in
    let rest = from_hex s in
    if is_blank c then skipped else (do b ← hex_pair c d; bs ← rest; ok (b ∷ bs))
