-- ===== src/Agent/Metrics/Dump.antt =====
-- What `bpftool -j map dump` prints of the per-CPU array `metrics`, and how an entry is read.
use ebpf_upf.Prelude.{
  ℕ, ◌+◌, ◌*◌, ◌/◌, ◌%◌, ◌^◌, ◌<◌, ◌≡◌, refl, ap, ◌∙◌, List, [], ◌∷◌, some, map, All, length, arith,
  lt→ltb, take_all, ==_iff,
}
use ebpf_upf.Python.{ok}
use ebpf_upf.Python.Hex.{hex_digit, hex_char, hex_digit-hex_char}
use ebpf_upf.Python.Struct.{Bytes, IsByte, le_bytes, unpack, split, from_bytes}
use ebpf_upf.Python.Struct.RoundTrip.{length-le_bytes, le_bytes-IsByte, le_value-le_bytes}
use ebpf_upf.Agent.Metrics.{
  Sample, DumpEntry, hex_value, int_literal, literal_bytes, unpack_one, sum_samples,
}

-- "0x%02x"
unfoldable pub hex_text : ℕ → Bytes
unfolding hex_char
hex_text b = 48 ∷ 120 ∷ hex_char (b / 16) ∷ hex_char (b % 16) ∷ []

unfoldable pub cell_text : ℕ → ℕ → List Bytes
unfolding hex_text le_bytes
cell_text w x = map hex_text (le_bytes w x)

abbrev pub sample_of : ℕ → Sample
sample_of count = record { value = some (cell_text 8 count) }

-- The entry of index `idx`, with one count for each CPU.
abbrev pub entry_of : ℕ × List ℕ → DumpEntry
entry_of (idx, counts) = record {
  key = some (cell_text 4 idx);
  values = some (map sample_of counts);
}

hex_value_step :
    (c d : ℕ) (s : Bytes) (n : ℕ)
    → hex_digit c ≡ some d
    → hex_value (c ∷ s) n ≡ hex_value s (n * 16 + d)
unfolding hex_value
hex_value_step c d s n h = rw (h, hex_value)

int_literal-hex_text : (b : ℕ) → b < 256 → int_literal (hex_text b) ≡ ok b
unfolding int_literal hex_text
int_literal-hex_text b h =
    hex_value_step (hex_char (b / 16)) (b / 16) (hex_char (b % 16) ∷ []) 0
      (hex_digit-hex_char (b / 16) (omega arith))
    ∙ hex_value_step (hex_char (b % 16)) (b % 16) [] (0 * 16 + b / 16)
        (hex_digit-hex_char (b % 16) (omega arith))
    ∙ unfold hex_value in ap ok (omega arith)

pub literal_bytes-hex_text : (bs : Bytes) → All IsByte bs → literal_bytes (map hex_text bs) ≡ ok bs
unfolding literal_bytes
literal_bytes-hex_text [] h = refl
literal_bytes-hex_text (b ∷ bs) (h, hs) =
    rw (int_literal-hex_text b h, lt→ltb b 256 h, literal_bytes-hex_text bs hs)

pub unpack_one-le_bytes : (w x : ℕ) → x < 256 ^ w → unpack_one w (le_bytes w x) ≡ ok x
unfolding unpack_one unpack split from_bytes
unpack_one-le_bytes w x h =
    let n : length (le_bytes w x) ≡ w + 0 = length-le_bytes w x ∙ omega arith in
    rw (
      (==_iff (length (le_bytes w x)) (w + 0)).1 n,
      take_all w (le_bytes w x) (omega (arith, n)),
      le_value-le_bytes w x h,
    )

abbrev pub sum : List ℕ → ℕ
sum [] = 0
sum (c ∷ cs) = c + sum cs

pub literal_bytes-cell_text : (w x : ℕ) → literal_bytes (cell_text w x) ≡ ok (le_bytes w x)
unfolding cell_text
literal_bytes-cell_text w x = literal_bytes-hex_text (le_bytes w x) (le_bytes-IsByte w x)

pub sum_samples-counts :
    (counts : List ℕ) (total : ℕ)
    → All (λ c. c < 256 ^ 8) counts
    → sum_samples (map sample_of counts) total ≡ ok (total + sum counts)
unfolding sum_samples
sum_samples-counts [] total h = ap ok (omega arith)
sum_samples-counts (c ∷ cs) total (h, hs) =
    let e : total + c + sum cs ≡ total + (c + sum cs) = omega arith in
    rw (literal_bytes-cell_text 8 c, unpack_one-le_bytes 8 c h)
      (sum_samples-counts cs (total + c) hs ∙ ap ok e)
