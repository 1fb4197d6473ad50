-- ===== src/Agent/Metrics/Decimal.antt =====
-- Numbers in decimal: what `str` of a natural number gives, and a reader of it.
use ebpf_upf.Prelude.{
  ℕ, zero, suc, ◌+◌, ◌-◌, ◌*◌, ◌/◌, ◌%◌, ◌<◌, ◌≤◌, ◌≡◌, refl, [], ◌∷◌, Option, none, some, true,
  false, ltb, leb, ◌&&◌, Bool-cases, inl, inr, arith, ap, ◌∙◌, ltb→lt, ltb_false→le,
}
use ebpf_upf.Python.Struct.{Bytes}

-- The digits of `n` in front of `out`. A round takes one digit, so that `n` rounds are enough.
unfoldable pub put_digits : ℕ → ℕ → Bytes → Bytes
put_digits zero n out = (48 + n % 10) ∷ out
put_digits (suc fuel) n out = elim (ltb n 10) [
  | true ↦ (48 + n % 10) ∷ out
  | false ↦ put_digits fuel (n / 10) ((48 + n % 10) ∷ out)
]

unfoldable pub decimal : ℕ → Bytes
unfolding put_digits
decimal n = put_digits n n []

-- Every character must be a digit.
unfoldable pub read_digits : Bytes → ℕ → Option ℕ
read_digits [] n = some n
read_digits (c ∷ s) n = elim (leb 48 c && leb c 57) [
  | true ↦ read_digits s (n * 10 + (c - 48))
  | false ↦ none
]

digit_back : (n : ℕ) → leb 48 (48 + n % 10) && leb (48 + n % 10) 57 ≡ true
digit_back n = ground arith

pub read_digits_step :
    (c m : ℕ) (s : Bytes)
    → leb 48 c && leb c 57 ≡ true
    → read_digits (c ∷ s) m ≡ read_digits s (m * 10 + (c - 48))
unfolding read_digits
read_digits_step c m s h = ground arith

read_digit :
    (n m : ℕ) (s : Bytes) → read_digits ((48 + n % 10) ∷ s) m ≡ read_digits s (m * 10 + n % 10)
read_digit n m s =
    read_digits_step (48 + n % 10) m s (digit_back n) ∙ ap (read_digits s) (omega arith)

put_digits_small :
    (fuel n : ℕ) (out : Bytes) → n < 10 → put_digits (suc fuel) n out ≡ (48 + n % 10) ∷ out
unfolding put_digits
put_digits_small fuel n out h = ground arith

put_digits_large :
    (fuel n : ℕ) (out : Bytes)
    → 10 ≤ n
    → put_digits (suc fuel) n out ≡ put_digits fuel (n / 10) ((48 + n % 10) ∷ out)
unfolding put_digits
put_digits_large fuel n out h = ground arith

read-put_digits :
    (fuel n : ℕ) (out : Bytes)
    → n ≤ fuel
    → read_digits (put_digits fuel n out) 0 ≡ read_digits out n
read-put_digits zero n out h =
    unfold put_digits in read_digit n 0 out ∙ ap (read_digits out) (omega arith)
read-put_digits (suc fuel) n out h = elim (Bool-cases (ltb n 10)) [
  | inl small ↦
      let below : n < 10 = ltb→lt n 10 small in
      ap (λ s. read_digits s 0) (put_digits_small fuel n out below)
      ∙ read_digit n 0 out
      ∙ ap (read_digits out) (omega arith)
  | inr large ↦
      let above : 10 ≤ n = ltb_false→le n 10 large in
      ap (λ s. read_digits s 0) (put_digits_large fuel n out above)
      ∙ read-put_digits fuel (n / 10) ((48 + n % 10) ∷ out) (omega arith)
      ∙ read_digit n (n / 10) out
      ∙ ap (read_digits out) (omega arith)
]

-- Every number is read back from its decimal print.
pub read-decimal : (n : ℕ) → read_digits (decimal n) 0 ≡ some n
unfolding decimal
read-decimal n = read-put_digits n n [] (omega arith) ∙ unfold read_digits in refl
