-- ===== src/Agent/Metrics/Totals.antt =====
-- The dict of `read_metrics` against the counters that the dump prints.
use ebpf_upf.Prelude.{
  ℕ, zero, suc, ◌+◌, ◌^◌, ◌<◌, ◌≡◌, refl, ap, ◌∙◌, String, List, [], ◌∷◌, Option, none, some, map,
  get_elem?, length, str_eq, eq_iff, eq_refl, leb, ◌==◌, Bool, true, false, not, ◌&&◌,
  if◌then◌else◌, All, arith, inl, inr, Option-cases,
}
use ebpf_upf.Python.{ok}
use ebpf_upf.Agent.Metrics.{
  DumpEntry, Dict, dict_set, dict_get, metric_names, read_entry, read_entries, read_metrics,
  name_at, sum_samples,
}
use ebpf_upf.Agent.Metrics.Dump.{
  sample_of, entry_of, sum, sum_samples-counts, literal_bytes-cell_text, unpack_one-le_bytes,
}

-- The sum over the CPUs of the last entry of index `i`.
unfoldable pub total_of : ℕ → List (ℕ × List ℕ) → Option ℕ
total_of i [] = none
total_of i ((j, counts) ∷ es) = elim (total_of i es) [
  | some v ↦ some v
  | none ↦ (if j == i then some (sum counts) else none)
]

-- What the kernel can hold: a u32 index, and a u64 count for each CPU.
abbrev pub Fits : ℕ × List ℕ → Type 0
Fits (idx, counts) = (idx < 256 ^ 4) × All (λ c. c < 256 ^ 8) counts

abbrev pub or_else : Option ℕ → Option ℕ → Option ℕ
or_else none o = o
or_else (some v) o = some v

pub dict_get-dict_set :
    (k j : String) (v : ℕ) (d : Dict)
    → dict_get k (dict_set j v d) ≡ (if str_eq j k then some v else dict_get k d)
unfolding dict_get dict_set
dict_get-dict_set k j v [] = refl
dict_get-dict_set k j v ((h, w) ∷ d) =
    ground (arith, eq_iff h j, eq_iff h k, eq_iff j k, dict_get-dict_set k j v d)

-- Two texts differ, tested both ways round.
absent : String → List String → Bool
absent s [] = true
absent s (t ∷ ts) = not (str_eq s t) && (not (str_eq t s) && absent s ts)

distinct : List String → Bool
unfolding absent
distinct [] = true
distinct (s ∷ ts) = absent s ts && distinct ts

absent-get_elem? :
    (s : String) (ts : List String) (i : ℕ) (t : String)
    → absent s ts ≡ true
    → get_elem? ts i ≡ some t
    → (str_eq s t ≡ false) × (str_eq t s ≡ false)
unfolding absent
absent-get_elem? s [] i t h g = cc
absent-get_elem? s (u ∷ ts) zero t h g = ground arith
absent-get_elem? s (u ∷ ts) (suc i) t h g = ground (arith, absent-get_elem? s ts i t)

names_differ :
    (ts : List String) (i j : ℕ) (a b : String)
    → distinct ts ≡ true
    → get_elem? ts i ≡ some a
    → get_elem? ts j ≡ some b
    → str_eq a b ≡ (i == j)
unfolding distinct
names_differ [] i j a b h p q = cc
names_differ (s ∷ ts) zero zero a b h p q = ground (arith, eq_refl s)
names_differ (s ∷ ts) zero (suc j) a b h p q = ground (arith, absent-get_elem? s ts j b)
names_differ (s ∷ ts) (suc i) zero a b h p q = ground (arith, absent-get_elem? s ts i a)
names_differ (s ∷ ts) (suc i) (suc j) a b h p q = ground (arith, names_differ ts i j a b)

metric_names-distinct : distinct metric_names ≡ true
unfolding distinct absent
metric_names-distinct = refl

get_elem?-none-length :
    {A : Type 0} (xs : List A) (i : ℕ) → get_elem? xs i ≡ none → leb (length xs) i ≡ true
get_elem?-none-length [] i h = ground arith
get_elem?-none-length (x ∷ xs) zero h = cc
get_elem?-none-length (x ∷ xs) (suc i) h = ground (arith, get_elem?-none-length xs i h)

get_elem?-some-length :
    {A : Type 0} (xs : List A) (i : ℕ) (a : A) → get_elem? xs i ≡ some a → leb (length xs) i ≡ false
get_elem?-some-length [] i a h = cc
get_elem?-some-length (x ∷ xs) zero a h = ground arith
get_elem?-some-length (x ∷ xs) (suc i) a h = ground (arith, get_elem?-some-length xs i a h)

-- The dict after one entry.
set_total : ℕ × List ℕ → Dict → Dict
set_total (idx, counts) out = elim (get_elem? metric_names idx) [
  | none ↦ out
  | some name ↦ dict_set name (sum counts) out
]

read_entry-printed :
    (idx : ℕ) (counts : List ℕ) (out : Dict)
    → Fits (idx, counts)
    → read_entry (entry_of (idx, counts)) out ≡ ok (set_total (idx, counts) out)
unfolding read_entry name_at set_total
read_entry-printed idx counts out (h, hs) = elim (Option-cases (get_elem? metric_names idx)) [
  | inl missing ↦ rw (
    literal_bytes-cell_text 4 idx,
    unpack_one-le_bytes 4 idx h,
    get_elem?-none-length metric_names idx missing,
    missing,
  )
  | inr (name, found) ↦
      let total : sum_samples (map sample_of counts) 0 ≡ ok (sum counts) =
        sum_samples-counts counts 0 hs ∙ ap ok (omega arith) in
      rw (
        literal_bytes-cell_text 4 idx,
        unpack_one-le_bytes 4 idx h,
        get_elem?-some-length metric_names idx name found,
        total,
        found,
      )
]

-- One entry more in front changes what is under a name only where nothing later does.
dict_get-set_total :
    (i idx : ℕ) (counts : List ℕ) (name : String) (out : Dict)
    → get_elem? metric_names i ≡ some name
    → dict_get name (set_total (idx, counts) out)
      ≡ (if idx == i then some (sum counts) else dict_get name out)
unfolding set_total
dict_get-set_total i idx counts name out h = elim (Option-cases (get_elem? metric_names idx)) [
  | inl missing ↦ ground (arith, missing, h)
  | inr (other, found) ↦ rw (
    found,
    dict_get-dict_set name other (sum counts) out,
    names_differ metric_names idx i other name metric_names-distinct found h,
  )
]

total_of_step :
    (i idx : ℕ) (counts : List ℕ) (es : List (ℕ × List ℕ)) (o : Option ℕ)
    → or_else (total_of i es) (if idx == i then some (sum counts) else o)
      ≡ or_else (total_of i ((idx, counts) ∷ es)) o
unfolding total_of
total_of_step i idx counts es o = ground (arith, Option-cases (total_of i es))

or_else-none : (o : Option ℕ) → or_else o none ≡ o
or_else-none none = refl
or_else-none (some v) = refl

read_entries_step :
    (e : DumpEntry) (es : List DumpEntry) (out out' : Dict)
    → read_entry e out ≡ ok out'
    → read_entries (e ∷ es) out ≡ read_entries es out'
unfolding read_entries
read_entries_step e es out out' h = rw h

read_entries-printed :
    (es : List (ℕ × List ℕ)) (out : Dict)
    → All Fits es
    → (out' : Dict) × (read_entries (map entry_of es) out ≡ ok out')
      × ((i : ℕ) (name : String)
          → get_elem? metric_names i ≡ some name
          → dict_get name out' ≡ or_else (total_of i es) (dict_get name out))
read_entries-printed [] out h =
    (out, unfold read_entries in refl, λ i name at. unfold total_of in refl)
read_entries-printed ((idx, counts) ∷ es) out (h, hs) =
    let (out', reads, at_end) = read_entries-printed es (set_total (idx, counts) out) hs in
    (
      out',
      read_entries_step (entry_of (idx, counts)) (map entry_of es) out (set_total (idx, counts) out)
            (read_entry-printed idx counts out h)
          ∙ reads,
      λ i name found.
          at_end i name found
          ∙ ap (or_else (total_of i es)) (dict_get-set_total i idx counts name out found)
          ∙ total_of_step i idx counts es (dict_get name out),
    )

pub read_metrics_pointwise :
    (es : List (ℕ × List ℕ))
    → All Fits es
    → (out : Dict) × (read_metrics (map entry_of es) ≡ ok out)
      × ((i : ℕ) (name : String)
          → get_elem? metric_names i ≡ some name
          → dict_get name out ≡ total_of i es)
read_metrics_pointwise es h =
    let (out, reads, at_end) = read_entries-printed es [] h in
    (
      out,
      reads,
      λ i name found. at_end i name found ∙ unfold dict_get in or_else-none (total_of i es),
    )

-- The totals of the stages from number `i` on.
abbrev pub totals : ℕ → List String → List (ℕ × List ℕ) → List (Option ℕ)
totals i [] es = []
totals i (name ∷ names) es = total_of i es ∷ totals (i + 1) names es

pub map-totals :
    (d : String → Option ℕ) (es : List (ℕ × List ℕ)) (names : List String) (i : ℕ)
    → ((j : ℕ) (name : String) → get_elem? names j ≡ some name → d name ≡ total_of (i + j) es)
    → map d names ≡ totals i names es
map-totals d es [] i h = refl
map-totals d es (name ∷ names) i h =
    let first : d name ≡ total_of i es = h 0 name refl ∙ ap (λ k. total_of k es) (omega arith) in
    let rest : map d names ≡ totals (i + 1) names es =
      map-totals d es names (i + 1)
        (λ j n found. h (suc j) n found ∙ ap (λ k. total_of k es) (omega arith)) in
    rw (first, rest)

-- For every dump of the array metrics in the form that bpftool prints, with indices of 32 bits,
-- counts of 64 bits and any number of CPUs: read_metrics returns a dict, and under the name of
-- every stage stands the sum over the CPUs of the stage's last entry in the dump, as a number
-- without bound. A stage with no entry is not in the dict. Entries whose index is past the names
-- are not refused.
pub read_metrics-printed :
    (es : List (ℕ × List ℕ))
    → All Fits es
    → (out : Dict) × (read_metrics (map entry_of es) ≡ ok out)
      × (map (λ name. dict_get name out) metric_names ≡ totals 0 metric_names es)
read_metrics-printed es h =
    let (out, reads, at_end) = read_metrics_pointwise es h in
    (
      out,
      reads,
      map-totals (λ name. dict_get name out) es metric_names 0
          (λ j name found. at_end j name found ∙ ap (λ k. total_of k es) (omega arith)),
    )
