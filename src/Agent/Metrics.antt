-- ===== src/Agent/Metrics.antt =====
-- The metrics of loader/agent.py: reading the counters that bpftool dumps, and the text that
-- Prometheus scrapes. The dump itself, a subprocess and a JSON parser, is a parameter of its users:
-- here it is the list of entries that they return.
pub mod Decimal
pub mod Scrape
pub mod Dump
pub mod Totals
use ebpf_upf.Prelude.{
  ℕ, zero, suc, ◌+◌, ◌*◌, String, List, [], ◌∷◌, ◌++◌, Option, none, some, length, get_elem?, map,
  str_eq, codes, ltb, leb, ◌==◌, true, false, ◌&&◌, if◌then◌else◌,
}
use ebpf_upf.Python.{Result, ok, err, index_error, key_error, value_error, ◌>>=◌}
use ebpf_upf.Python.Hex.{hex_digit}
use ebpf_upf.Python.Struct.{Bytes, little, unpack}
use ebpf_upf.Agent.Metrics.Decimal.{decimal}

abbrev pub metric_names : List String
metric_names =
    "rx_total" ∷ "rx_gtpu" ∷ "rx_gpdu" ∷ "hit" ∷ "miss_teid" ∷ "miss_pdr" ∷ "pass_nongtp"
    ∷ "pass_ctrl" ∷ "drop_parse" ∷ "tc_miss_far" ∷ "tc_far_drop" ∷ "tc_far_forward"
    ∷ "tc_far_buffer" ∷ "tc_decap_err" ∷ "tc_redirect_err" ∷ "tc_qer_pass" ∷ "tc_qer_drop"
    ∷ "tc_urr_updated" ∷ "tc_dl_hit" ∷ "tc_dl_miss" ∷ "tc_dl_encap_err" ∷ []

-- The JSON objects of the dump; `none` is a key that is not there.
pub record Sample : Type 0 where
  pub value : Option (List Bytes)

pub record DumpEntry : Type 0 where
  pub key : Option (List Bytes)
  pub values : Option (List Sample)

-- `d[key]` of an object.
abbrev pub member : {A : Type 0} → Option A → Result A
member none = err key_error
member (some a) = ok a

unfoldable pub hex_value : Bytes → ℕ → Result ℕ
hex_value [] n = ok n
hex_value (c ∷ s) n = elim (hex_digit c) [
  | none ↦ err value_error
  | some d ↦ hex_value s (n * 16 + d)
]

-- `int(b, 0)` of what bpftool prints: "0x" and hexadecimal digits. Other literals of Python, which
-- bpftool does not print, are refused here.
unfoldable pub int_literal : Bytes → Result ℕ
unfolding hex_value
int_literal (z ∷ x ∷ c ∷ s) = if z == 48 && x == 120 then hex_value (c ∷ s) 0 else err value_error
int_literal _ = err value_error

-- `bytes(int(b, 0) for b in ...)`
unfoldable pub literal_bytes : List Bytes → Result Bytes
unfolding int_literal
literal_bytes [] = ok []
literal_bytes (b ∷ bs) = do
  x ← int_literal b
  (if ltb x 256 then (do rest ← literal_bytes bs; ok (x ∷ rest)) else err value_error)

unfoldable pub unpack_one : ℕ → Bytes → Result ℕ
unpack_one w bs = do
  fields ← unpack little (w ∷ []) bs
  elim fields [ [] ↦ err index_error | x ∷ xs ↦ ok x ]

-- A dict that keeps the last value of a key.
abbrev pub Dict : Type 0
Dict = List (String × ℕ)

unfoldable pub dict_set : String → ℕ → Dict → Dict
dict_set k v [] = (k, v) ∷ []
dict_set k v ((j, w) ∷ d) = if str_eq j k then (j, v) ∷ d else (j, w) ∷ dict_set k v d

unfoldable pub dict_get : String → Dict → Option ℕ
dict_get k [] = none
dict_get k ((j, w) ∷ d) = if str_eq j k then some w else dict_get k d

-- `m.get(name, 0)`
abbrev pub or_zero : Option ℕ → ℕ
or_zero none = 0
or_zero (some v) = v

-- `entry.get("values", [])`
abbrev pub or_empty : {A : Type 0} → Option (List A) → List A
or_empty none = []
or_empty (some l) = l

unfoldable pub sum_samples : List Sample → ℕ → Result ℕ
sum_samples [] total = ok total
sum_samples (v ∷ vs) total = do
  texts ← member v.value
  raw ← literal_bytes texts
  count ← unpack_one 8 raw
  sum_samples vs (total + count)

unfoldable pub name_at : ℕ → Result String
name_at idx = elim (get_elem? metric_names idx) [ none ↦ err index_error | some name ↦ ok name ]

-- The body of the loop: an index past the names is skipped.
unfoldable pub read_entry : DumpEntry → Dict → Result Dict
unfolding literal_bytes unpack_one sum_samples name_at
read_entry entry out = do
  texts ← member entry.key
  raw ← literal_bytes texts
  idx ← unpack_one 4 raw
  (if leb (length metric_names) idx then ok out else (do
    total ← sum_samples (or_empty entry.values) 0
    name ← name_at idx
    ok (dict_set name total out)))

unfoldable pub read_entries : List DumpEntry → Dict → Result Dict
unfolding read_entry
read_entries [] out = ok out
read_entries (entry ∷ raw) out = do out' ← read_entry entry out; read_entries raw out'

abbrev pub read_metrics : List DumpEntry → Result Dict
read_metrics raw = read_entries raw []

-- `"\n".join(lines)`
unfoldable pub join_lines : List Bytes → Bytes
join_lines [] = []
join_lines (l ∷ []) = l
join_lines (l ∷ k ∷ ls) = l ++ (10 ∷ join_lines (k ∷ ls))

abbrev pub sample_prefix : Bytes
sample_prefix = codes "upf_packets_total{stage=\""

abbrev pub sample_middle : Bytes
sample_middle = codes "\"} "

unfoldable pub sample_line : Dict → String → Bytes
unfolding dict_get
sample_line m name =
    sample_prefix ++ (codes name ++ (sample_middle ++ decimal (or_zero (dict_get name m))))

unfoldable pub metrics_text : Dict → Bytes
unfolding join_lines sample_line
metrics_text m =
    join_lines (
      codes "# HELP upf_packets_total UPF packet counters by stage"
      ∷ codes "# TYPE upf_packets_total counter"
      ∷ map (sample_line m) metric_names)
    ++ (10 ∷ [])

unfoldable pub prometheus_text : List DumpEntry → Result Bytes
unfolding metrics_text
prometheus_text raw = do m ← read_metrics raw; ok (metrics_text m)
