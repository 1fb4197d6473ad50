-- ===== src/Analysis.antt =====
-- results_native/transactional_consistency/analyze.py: reading the decisions of the datapath that
-- bpftool captured, and the check for torn decisions; and the driver test/toggle_bundle.py whose
-- modifications it checks. The lines of the file are lists of ASCII codes.
pub mod Rows
pub mod Toggles
use ebpf_upf.Prelude.{
  ℕ, suc, ◌+◌, ◌%◌, List, [], ◌∷◌, ◌++◌, Bool, true, false, ◌&&◌, ◌||◌, not, ◌==◌, if◌then◌else◌,
  take, codes,
}
use ebpf_upf.Python.{Result, ok, err, index_error, ◌>>=◌}
use ebpf_upf.Python.Strings.{strip_spaces, remove_spaces, from_hex}
use ebpf_upf.Python.Struct.{Bytes, little, split}
use ebpf_upf.Agent.Http.Answers.{starts_with}

pub record Event : Type 0 where
  pub far_id : ℕ
  pub qer_id : ℕ
  pub generation : ℕ
  pub pdr_id : ℕ

-- The four fields of the tuple, each `int.from_bytes` of four bytes or of what there is of them.
abbrev pub event_of : List ℕ → Event
event_of (f ∷ q ∷ g ∷ p ∷ rest) = record { far_id = f; qer_id = q; generation = g; pdr_id = p }
event_of _ = record { far_id = 0; qer_id = 0; generation = 0; pdr_id = 0 }

unfoldable pub decode : Bytes → Event
unfolding split
decode raw = event_of (split little (4 ∷ 4 ∷ 4 ∷ 4 ∷ []) raw)

-- `line.strip().replace(' ', '')`
unfoldable pub digits : Bytes → Bytes
unfolding strip_spaces remove_spaces
digits line = remove_spaces (strip_spaces line)

-- The event in the two lines after its header.
unfoldable pub read_event : Bytes → Bytes → Result Event
unfolding digits from_hex decode
read_event hex1 hex2 = do raw ← from_hex (hex1 ++ hex2); ok (decode (take 16 raw))

abbrev pub is_header : Bytes → Bool
is_header line = starts_with (codes "==") line

-- A header as the last line has no event; one as the last but one has no second line.
unfoldable pub parse : List Bytes → Result (List Event)
unfolding starts_with read_event
parse [] = ok []
parse (line ∷ []) = if is_header line then err index_error else ok []
parse (line ∷ one ∷ []) =
    let others = parse (one ∷ []) in
    if is_header line then (do event ← read_event (digits one) []; ok (event ∷ [])) else others
parse (line ∷ one ∷ two ∷ rest) =
    let others = parse (one ∷ two ∷ rest) in
    let events = parse rest in
    if is_header line
    then (do event ← read_event (digits one) (digits two); later ← events; ok (event ∷ later))
    else others

unfoldable pub is_pair : ℕ → Event → Bool
is_pair n e = e.far_id == n && e.qer_id == n

-- `(far_id, qer_id) not in {(1, 1), (3, 3)}`
unfoldable pub is_torn : Event → Bool
unfolding is_pair
is_torn e = not (is_pair 1 e || is_pair 3 e)

-- `(far_id, qer_id) != ((1, 1) if gen % 2 == 0 else (3, 3))`
unfoldable pub is_mismatch : Event → Bool
unfolding is_pair
is_mismatch e = not (if e.generation % 2 == 0 then is_pair 1 e else is_pair 3 e)

unfoldable pub count_events : (Event → Bool) → List Event → ℕ
count_events p [] = 0
count_events p (e ∷ es) = (if p e then 1 else 0) + count_events p es

abbrev pub torn : List Event → ℕ
torn es = count_events is_torn es

abbrev pub mismatches : List Event → ℕ
mismatches es = count_events is_mismatch es
