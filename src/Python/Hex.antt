-- ===== src/Python/Hex.antt =====
-- Hexadecimal digits: how they are read, and how a printer writes them.
use ebpf_upf.Prelude.{
  ℕ, ◌+◌, ◌-◌, ◌<◌, ◌≡◌, Option, none, some, ltb, leb, ◌&&◌, if◌then◌else◌, arith,
}

unfoldable pub hex_digit : ℕ → Option ℕ
hex_digit c =
    if leb 48 c && leb c 57
    then some (c - 48)
    else if leb 97 c && leb c 102
    then some (c - 87)
    else if leb 65 c && leb c 70
    then some (c - 55)
    else none

unfoldable pub hex_char : ℕ → ℕ
hex_char d = if ltb d 10 then d + 48 else d + 87

pub hex_digit-hex_char : (d : ℕ) → d < 16 → hex_digit (hex_char d) ≡ some d
unfolding hex_digit hex_char
hex_digit-hex_char d h = ground arith
