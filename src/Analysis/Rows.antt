-- ===== src/Analysis/Rows.antt =====
-- The lines that `bpftool map event_pipe` prints of each event, and that analyze.py reads them back.
use mathlib.Core.List.{append-nil}
use ebpf_upf.Prelude.{
  ℕ, zero, suc, ◌+◌, ◌*◌, ◌/◌, ◌%◌, ◌^◌, ◌<◌, ◌≡◌, refl, ap, sym, ◌∙◌, subst, List, [], ◌∷◌, ◌++◌,
  map, true, false, ◌==◌, All, length, take, drop, replicate, length-append, take-append,
  drop-append, arith, some,
}
use ebpf_upf.Python.{ok}
use ebpf_upf.Python.Hex.{hex_char, hex_digit, hex_digit-hex_char}
use ebpf_upf.Python.Strings.{
  is_space, lstrip, cons_unless, rstrip, strip_spaces, remove_spaces, hex_pair, is_blank, from_hex,
}
use ebpf_upf.Python.Struct.{Bytes, IsByte, le_bytes, little, from_bytes, split}
use ebpf_upf.Python.Struct.RoundTrip.{length-le_bytes, le_value-le_bytes, All-append}
use ebpf_upf.Analysis.{Event, event_of, decode, digits, read_event, is_header, parse}

unfoldable pub hex_of : Bytes → Bytes
unfolding hex_char
hex_of [] = []
hex_of (b ∷ bs) = hex_char (b / 16) ∷ hex_char (b % 16) ∷ hex_of bs

-- A line of bytes, each followed by some number of spaces.
unfoldable pub row : List (ℕ × ℕ) → Bytes
unfolding hex_char
row [] = 10 ∷ []
row ((b, spaces) ∷ r) = hex_char (b / 16) ∷ hex_char (b % 16) ∷ (replicate spaces 32 ++ row r)

abbrev pub bytes_of : List (ℕ × ℕ) → Bytes
bytes_of [] = []
bytes_of ((b, spaces) ∷ r) = b ∷ bytes_of r

hex_char_plain :
    (d : ℕ)
    → d < 16
    → (is_space (hex_char d) ≡ false)
      × (is_blank (hex_char d) ≡ false)
      × ((hex_char d == 32) ≡ false)
unfolding is_space is_blank hex_char
hex_char_plain d h = (ground arith, ground arith, ground arith)

remove_spaces-cons_unless : (s : Bytes) → remove_spaces (cons_unless true 32 s) ≡ remove_spaces s
unfolding remove_spaces
remove_spaces-cons_unless [] = refl
remove_spaces-cons_unless (c ∷ s) = refl

rstrip_plain :
    (c : ℕ) (s : Bytes)
    → is_space c ≡ false
    → (c == 32) ≡ false
    → remove_spaces (rstrip (c ∷ s)) ≡ c ∷ remove_spaces (rstrip s)
unfolding rstrip remove_spaces
rstrip_plain c s h k = rw (h, k)

remove_spaces-rstrip :
    (n : ℕ) (r : List (ℕ × ℕ))
    → All IsByte (bytes_of r)
    → remove_spaces (rstrip (replicate n 32 ++ row r)) ≡ hex_of (bytes_of r)
unfolding row hex_of rstrip
remove_spaces-rstrip zero [] h = unfold remove_spaces is_space in refl
remove_spaces-rstrip zero ((b, spaces) ∷ r) (hb, h) =
    let (s1, b1, e1) = hex_char_plain (b / 16) (omega arith) in
    let (s2, b2, e2) = hex_char_plain (b % 16) (omega arith) in
    rstrip_plain (hex_char (b / 16)) (hex_char (b % 16) ∷ (replicate spaces 32 ++ row r)) s1 e1
    ∙ ap (λ l. hex_char (b / 16) ∷ l)
        (rstrip_plain (hex_char (b % 16)) (replicate spaces 32 ++ row r) s2 e2)
    ∙ ap (λ l. hex_char (b / 16) ∷ hex_char (b % 16) ∷ l) (remove_spaces-rstrip spaces r h)
remove_spaces-rstrip (suc n) r h =
    remove_spaces-cons_unless (rstrip (replicate n 32 ++ row r)) ∙ remove_spaces-rstrip n r h

lstrip_plain : (c : ℕ) (s : Bytes) → is_space c ≡ false → lstrip (c ∷ s) ≡ c ∷ s
unfolding lstrip
lstrip_plain c s h = rw h

digits-row : (r : List (ℕ × ℕ)) → All IsByte (bytes_of r) → digits (row r) ≡ hex_of (bytes_of r)
unfolding digits strip_spaces row
digits-row [] h = unfold lstrip rstrip remove_spaces is_space hex_of in refl
digits-row ((b, spaces) ∷ r) (hb, h) =
    let (plain, blank, e) = hex_char_plain (b / 16) (omega arith) in
    let tail : Bytes = hex_char (b % 16) ∷ (replicate spaces 32 ++ row r) in
    ap (λ l. remove_spaces (rstrip l)) (lstrip_plain (hex_char (b / 16)) tail plain)
    ∙ remove_spaces-rstrip 0 ((b, spaces) ∷ r) (hb, h)

hex_pair_step :
    (c d high low : ℕ)
    → hex_digit c ≡ some high
    → hex_digit d ≡ some low
    → hex_pair c d ≡ ok (high * 16 + low)
unfolding hex_pair
hex_pair_step c d high low p q = rw (p, hex_pair) (rw q)

hex_pair-hex_char : (b : ℕ) → b < 256 → hex_pair (hex_char (b / 16)) (hex_char (b % 16)) ≡ ok b
hex_pair-hex_char b h =
    hex_pair_step (hex_char (b / 16)) (hex_char (b % 16)) (b / 16) (b % 16)
      (hex_digit-hex_char (b / 16) (omega arith)) (hex_digit-hex_char (b % 16) (omega arith))
    ∙ ap ok (omega arith)

from_hex_step :
    (c d b : ℕ) (s bs : Bytes)
    → is_blank c ≡ false
    → hex_pair c d ≡ ok b
    → from_hex s ≡ ok bs
    → from_hex (c ∷ d ∷ s) ≡ ok (b ∷ bs)
unfolding from_hex
from_hex_step c d b s bs plain pair rest = rw (plain, pair, rest)

from_hex-hex_of : (bs : Bytes) → All IsByte bs → from_hex (hex_of bs) ≡ ok bs
unfolding hex_of
from_hex-hex_of [] h = unfold from_hex in refl
from_hex-hex_of (b ∷ bs) (hb, h) =
    let (plain, blank, e) = hex_char_plain (b / 16) (omega arith) in
    from_hex_step (hex_char (b / 16)) (hex_char (b % 16)) b (hex_of bs) bs blank
      (hex_pair-hex_char b hb) (from_hex-hex_of bs h)

hex_of-append : (xs ys : Bytes) → hex_of (xs ++ ys) ≡ hex_of xs ++ hex_of ys
unfolding hex_of
hex_of-append [] ys = refl
hex_of-append (x ∷ xs) ys =
    ap (λ l. hex_char (x / 16) ∷ hex_char (x % 16) ∷ l) (hex_of-append xs ys)

-- The sixteen bytes that the datapath emits: `struct decision_event` of bpf/upf_maps.h.
unfoldable pub event_bytes : Event → Bytes
unfolding le_bytes
event_bytes e =
    le_bytes 4 e.far_id ++ (le_bytes 4 e.qer_id ++ (le_bytes 4 e.generation ++ le_bytes 4 e.pdr_id))

abbrev pub Fields : Event → Type 0
Fields e =
    (e.far_id < 256 ^ 4) × (e.qer_id < 256 ^ 4) × (e.generation < 256 ^ 4) × (e.pdr_id < 256 ^ 4)

field_split :
    (ws : List ℕ) (x : ℕ) (tl : Bytes)
    → x < 256 ^ 4
    → split little (4 ∷ ws) (le_bytes 4 x ++ tl) ≡ x ∷ split little ws tl
unfolding split from_bytes
field_split ws x tl h =
    let n : length (le_bytes 4 x) ≡ 4 = length-le_bytes 4 x in
    let front : take 4 (le_bytes 4 x ++ tl) ≡ le_bytes 4 x =
      subst (λ k. take k (le_bytes 4 x ++ tl) ≡ le_bytes 4 x) n (take-append (le_bytes 4 x) tl) in
    let back : drop 4 (le_bytes 4 x ++ tl) ≡ tl =
      subst (λ k. drop k (le_bytes 4 x ++ tl) ≡ tl) n (drop-append (le_bytes 4 x) tl) in
    rw (front, back, le_value-le_bytes 4 x h)

split-event_bytes :
    (e : Event)
    → Fields e
    → split little (4 ∷ 4 ∷ 4 ∷ 4 ∷ []) (event_bytes e)
      ≡ e.far_id ∷ e.qer_id ∷ e.generation ∷ e.pdr_id ∷ []
unfolding event_bytes
split-event_bytes e (hf, hq, hg, hp) =
    let last : split little (4 ∷ []) (le_bytes 4 e.pdr_id) ≡ e.pdr_id ∷ [] =
      ap (split little (4 ∷ [])) (sym (append-nil (le_bytes 4 e.pdr_id)))
      ∙ field_split [] e.pdr_id [] hp
      ∙ unfold split in refl in
    field_split (4 ∷ 4 ∷ 4 ∷ []) e.far_id
      (le_bytes 4 e.qer_id ++ (le_bytes 4 e.generation ++ le_bytes 4 e.pdr_id)) hf
    ∙ ap (λ l. e.far_id ∷ l)
        (field_split (4 ∷ 4 ∷ []) e.qer_id (le_bytes 4 e.generation ++ le_bytes 4 e.pdr_id) hq)
    ∙ ap (λ l. e.far_id ∷ e.qer_id ∷ l) (field_split (4 ∷ []) e.generation (le_bytes 4 e.pdr_id) hg)
    ∙ ap (λ l. e.far_id ∷ e.qer_id ∷ e.generation ∷ l) last

decode-event_bytes : (e : Event) → Fields e → decode (event_bytes e) ≡ e
unfolding decode
decode-event_bytes e h = ap event_of (split-event_bytes e h)

length-event_bytes : (e : Event) → length (event_bytes e) ≡ 16
unfolding event_bytes
length-event_bytes e = omega (
  arith,
  length-append (le_bytes 4 e.far_id)
      (le_bytes 4 e.qer_id ++ (le_bytes 4 e.generation ++ le_bytes 4 e.pdr_id)),
  length-append (le_bytes 4 e.qer_id) (le_bytes 4 e.generation ++ le_bytes 4 e.pdr_id),
  length-append (le_bytes 4 e.generation) (le_bytes 4 e.pdr_id),
  length-le_bytes 4 e.far_id,
  length-le_bytes 4 e.qer_id,
  length-le_bytes 4 e.generation,
  length-le_bytes 4 e.pdr_id,
)

-- What bpftool prints of one event: a header, and the event's bytes with the padding behind them on
-- two lines.
pub record Capture : Type 0 where
  pub header : Bytes
  pub event : Event
  pub one : List (ℕ × ℕ)
  pub two : List (ℕ × ℕ)
  pub padding : Bytes

pub record IsPrinted (c : Capture) : Type 0 where
  pub headed : is_header c.header ≡ true
  pub fields : Fields c.event
  pub first_bytes : All IsByte (bytes_of c.one)
  pub second_bytes : All IsByte (bytes_of c.two)
  pub whole : bytes_of c.one ++ bytes_of c.two ≡ event_bytes c.event ++ c.padding

abbrev pub lines_of : List Capture → List Bytes
lines_of [] = []
lines_of (c ∷ cs) = c.header ∷ row c.one ∷ row c.two ∷ lines_of cs

read_event-rows :
    (c : Capture) → IsPrinted c → read_event (digits (row c.one)) (digits (row c.two)) ≡ ok c.event
unfolding read_event
read_event-rows c p =
    let raw : Bytes = bytes_of c.one ++ bytes_of c.two in
    let text : digits (row c.one) ++ digits (row c.two) ≡ hex_of raw =
      rw (digits-row c.one p.first_bytes, digits-row c.two p.second_bytes)
        (sym (hex_of-append (bytes_of c.one) (bytes_of c.two))) in
    let read : from_hex (digits (row c.one) ++ digits (row c.two)) ≡ ok raw =
      ap from_hex text
      ∙ from_hex-hex_of raw
          (All-append (bytes_of c.one) (bytes_of c.two) p.first_bytes p.second_bytes) in
    let cut : take 16 raw ≡ event_bytes c.event =
      ap (take 16) p.whole
      ∙ subst (λ k. take k (event_bytes c.event ++ c.padding) ≡ event_bytes c.event)
          (length-event_bytes c.event) (take-append (event_bytes c.event) c.padding) in
    rw (read, cut) (ap ok (decode-event_bytes c.event p.fields))

parse_step :
    (line one two : Bytes) (rest : List Bytes) (e : Event) (es : List Event)
    → is_header line ≡ true
    → read_event (digits one) (digits two) ≡ ok e
    → parse rest ≡ ok es
    → parse (line ∷ one ∷ two ∷ rest) ≡ ok (e ∷ es)
unfolding parse
parse_step line one two rest e es header event later = rw (header, event, later)

-- For every list of events with fields of 32 bits, printed as bpftool prints them: under a header
-- that starts with "==", the bytes of the event and whatever padding follows on two lines, cut
-- anywhere, with any number of spaces after each byte. `parse` returns exactly these events.
pub parse-lines :
    (cs : List Capture)
    → All IsPrinted cs
    → parse (lines_of cs) ≡ ok (map (λ (c : Capture). c.event) cs)
parse-lines [] h = unfold parse in refl
parse-lines (c ∷ cs) (p, ps) =
    parse_step c.header (row c.one) (row c.two) (lines_of cs) c.event
      (map (λ (c : Capture). c.event) cs) p.headed (read_event-rows c p) (parse-lines cs ps)
