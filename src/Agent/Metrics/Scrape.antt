-- ===== src/Agent/Metrics/Scrape.antt =====
-- What a scraper makes of the exposition text: a reader of the format, independent of the printer.
use ebpf_upf.Prelude.{
  ℕ, ◌+◌, ◌-◌, ◌*◌, ◌≡◌, refl, ap, ◌∙◌, String, List, [], ◌∷◌, ◌++◌, Option, none, some, map, codes,
  ◌==◌, Bool, true, false, ◌&&◌, not, if◌then◌else◌, All, arith,
}
use mathlib.Core.List.{append_assoc}
use ebpf_upf.Python.Struct.{Bytes}
use ebpf_upf.Agent.Metrics.{
  Dict, dict_get, or_zero, metric_names, sample_prefix, sample_middle, sample_line, join_lines,
  metrics_text,
}
use ebpf_upf.Agent.Metrics.Decimal.{decimal, read_digits, read-decimal}

unfoldable pub prepend : ℕ → List Bytes → List Bytes
prepend c [] = (c ∷ []) ∷ []
prepend c (l ∷ ls) = (c ∷ l) ∷ ls

-- The text cut at its newlines.
unfoldable pub split_lines : Bytes → List Bytes
unfolding prepend
split_lines [] = [] ∷ []
split_lines (c ∷ s) = let rest = split_lines s in if c == 10 then [] ∷ rest else prepend c rest

unfoldable pub strip : Bytes → Bytes → Option Bytes
strip [] s = some s
strip (c ∷ p) [] = none
strip (c ∷ p) (d ∷ s) = let rest = strip p s in if c == d then rest else none

-- The characters before the first `"`, and those after it.
unfoldable pub until_quote : Bytes → Option (Bytes × Bytes)
until_quote [] = none
until_quote (c ∷ s) =
    let rest = until_quote s in
    if c == 34 then some ([], s) else elim rest [ none ↦ none | some (l, r) ↦ some (c ∷ l, r) ]

unfoldable pub read_value : Bytes → Bytes → Option (Bytes × ℕ)
read_value label s = elim (read_digits s 0) [ none ↦ none | some v ↦ some (label, v) ]

unfoldable pub read_label : Bytes → Option (Bytes × ℕ)
unfolding until_quote strip read_value
read_label s = elim (until_quote s) [
  | none ↦ none
  | some (label, r) ↦ elim (strip (codes "} ") r) [ none ↦ none | some t ↦ read_value label t ]
]

-- One sample: the label of its stage, and its value.
unfoldable pub read_sample : Bytes → Option (Bytes × ℕ)
unfolding strip read_label
read_sample l = elim (strip (codes "upf_packets_total{stage=\"") l) [
  | none ↦ none
  | some s ↦ read_label s
]

-- An empty line, or one that starts with `#`.
abbrev pub is_comment : Bytes → Bool
is_comment [] = true
is_comment (c ∷ l) = c == 35

unfoldable pub read_lines : List Bytes → Option (List (Bytes × ℕ))
unfolding read_sample
read_lines [] = some []
read_lines (l ∷ ls) =
    let rest = read_lines ls in
    if is_comment l then rest else elim (read_sample l) [
      | none ↦ none
      | some p ↦ elim rest [ none ↦ none | some ps ↦ some (p ∷ ps) ]
    ]

unfoldable pub read_scrape : Bytes → Option (List (Bytes × ℕ))
unfolding split_lines read_lines
read_scrape text = read_lines (split_lines text)

-- No character of `s` is `c`.
unfoldable lacks : ℕ → Bytes → Bool
lacks c [] = true
lacks c (d ∷ s) = not (d == c) && lacks c s

lacks-append : (c : ℕ) (s t : Bytes) → lacks c s ≡ true → lacks c t ≡ true → lacks c (s ++ t) ≡ true
unfolding lacks
lacks-append c [] t hs ht = ht
lacks-append c (d ∷ s) t hs ht = ground (arith, lacks-append c s t)

digits_lack_newline : (s : Bytes) (n v : ℕ) → read_digits s n ≡ some v → lacks 10 s ≡ true
unfolding lacks read_digits
digits_lack_newline [] n v h = refl
digits_lack_newline (c ∷ s) n v h = ground (arith, digits_lack_newline s (n * 10 + (c - 48)) v)

decimal-lacks : (n : ℕ) → lacks 10 (decimal n) ≡ true
decimal-lacks n = digits_lack_newline (decimal n) 0 n (read-decimal n)

split_lines-line :
    (l s : Bytes) → lacks 10 l ≡ true → split_lines (l ++ (10 ∷ s)) ≡ l ∷ split_lines s
unfolding split_lines lacks
split_lines-line [] s h = refl
split_lines-line (c ∷ l) s h = ground (arith, split_lines-line l s)

-- Every line but the last, which is empty, ends in a newline.
split_lines-join_lines :
    (l : Bytes) (ls : List Bytes)
    → All (λ k. lacks 10 k ≡ true) (l ∷ ls)
    → split_lines (join_lines (l ∷ ls) ++ (10 ∷ [])) ≡ (l ∷ ls) ++ ([] ∷ [])
unfolding join_lines
split_lines-join_lines l [] (h, _) = split_lines-line l [] h ∙ unfold split_lines in refl
split_lines-join_lines l (k ∷ ls) (h, hs) =
    ap split_lines (append_assoc l (10 ∷ join_lines (k ∷ ls)) (10 ∷ []))
    ∙ split_lines-line l (join_lines (k ∷ ls) ++ (10 ∷ [])) h
    ∙ ap (λ r. l ∷ r) (split_lines-join_lines k ls hs)

strip-append : (p s : Bytes) → strip p (p ++ s) ≡ some s
unfolding strip
strip-append [] s = refl
strip-append (c ∷ p) s = ground (arith, strip-append p s)

until_quote-append : (l s : Bytes) → lacks 34 l ≡ true → until_quote (l ++ (34 ∷ s)) ≡ some (l, s)
unfolding until_quote lacks
until_quote-append [] s h = refl
until_quote-append (c ∷ l) s h = ground (arith, until_quote-append l s)

read_label_step :
    (label r t : Bytes) (s : Bytes) (v : ℕ)
    → until_quote s ≡ some (label, r)
    → strip (codes "} ") r ≡ some t
    → read_digits t 0 ≡ some v
    → read_label s ≡ some (label, v)
unfolding read_label
read_label_step label r t s v quoted stripped digits =
    rw (quoted, read_label) (rw stripped (rw (digits, read_value)))

read_sample_step :
    (l s : Bytes)
    → strip (codes "upf_packets_total{stage=\"") l ≡ some s
    → read_sample l ≡ read_label s
unfolding read_sample read_label
read_sample_step l s h = rw (h, read_sample)

read_sample-sample_line :
    (m : Dict) (name : String)
    → lacks 34 (codes name) ≡ true
    → read_sample (sample_line m name) ≡ some (codes name, or_zero (dict_get name m))
unfolding sample_line
read_sample-sample_line m name h =
    let n : ℕ = or_zero (dict_get name m) in
    let body : Bytes = codes name ++ (sample_middle ++ decimal n) in
    read_sample_step (sample_line m name) body (strip-append sample_prefix body)
    ∙ read_label_step (codes name) (codes "} " ++ decimal n) (decimal n) body n
        (until_quote-append (codes name) (codes "} " ++ decimal n) h)
        (strip-append (codes "} ") (decimal n)) (read-decimal n)

-- The labels that the two lines and the reader need: no quote and no newline.
abbrev Plain : String → Type 0
Plain name = (lacks 34 (codes name) ≡ true) × (lacks 10 (codes name) ≡ true)

sample_line-lacks : (m : Dict) (name : String) → Plain name → lacks 10 (sample_line m name) ≡ true
unfolding sample_line
sample_line-lacks m name (_, h) =
    let n : ℕ = or_zero (dict_get name m) in
    lacks-append 10 sample_prefix (codes name ++ (sample_middle ++ decimal n))
      (unfold lacks in refl)
      (lacks-append 10 (codes name) (sample_middle ++ decimal n) h
        (lacks-append 10 sample_middle (decimal n) (unfold lacks in refl) (decimal-lacks n)))

sample_lines-lack :
    (m : Dict) (names : List String)
    → All Plain names
    → All (λ k. lacks 10 k ≡ true) (map (sample_line m) names)
sample_lines-lack m [] h = tt
sample_lines-lack m (name ∷ names) (h, hs) =
    (sample_line-lacks m name h, sample_lines-lack m names hs)

abbrev pub read_out : Dict → String → Bytes × ℕ
read_out m name = (codes name, or_zero (dict_get name m))

sample_line-head : (m : Dict) (name : String) → is_comment (sample_line m name) ≡ false
unfolding sample_line
sample_line-head m name = refl

read_lines_step :
    (l : Bytes) (ls : List Bytes) (p : Bytes × ℕ) (ps : List (Bytes × ℕ))
    → is_comment l ≡ false
    → read_sample l ≡ some p
    → read_lines ls ≡ some ps
    → read_lines (l ∷ ls) ≡ some (p ∷ ps)
unfolding read_lines
read_lines_step l ls p ps code one rest = rw (code, read_lines) (rw one (rw rest))

read_lines-samples :
    (m : Dict) (names : List String)
    → All Plain names
    → read_lines (map (sample_line m) names ++ ([] ∷ [])) ≡ some (map (read_out m) names)
read_lines-samples m [] h = unfold read_lines in refl
read_lines-samples m (name ∷ names) ((h, h'), hs) =
    read_lines_step (sample_line m name) (map (sample_line m) names ++ ([] ∷ [])) (read_out m name)
      (map (read_out m) names) (sample_line-head m name) (read_sample-sample_line m name h)
      (read_lines-samples m names hs)

metric_names-Plain : All Plain metric_names
unfolding lacks
metric_names-Plain = search

-- A scraper reads from the text of the counters exactly one sample for every one of the 21 stages,
-- in the order of the list, with the number that stands for the stage in the dict, and 0 for a
-- stage that the dict does not have.
pub read_scrape-metrics_text :
    (m : Dict) → read_scrape (metrics_text m) ≡ some (map (read_out m) metric_names)
read_scrape-metrics_text m =
    unfold metrics_text read_scrape in
    ap read_lines (
      split_lines-join_lines (codes "# HELP upf_packets_total UPF packet counters by stage")
        (codes "# TYPE upf_packets_total counter" ∷ map (sample_line m) metric_names)
        (
          unfold lacks in refl,
          (unfold lacks in refl, sample_lines-lack m metric_names metric_names-Plain),
        ))
    ∙ unfold read_lines in read_lines-samples m metric_names metric_names-Plain
