-- ===== src/Agent/Usage/Printed.antt =====
-- `read_urr` against what `bpftool -j map dump` prints of the per-CPU hash map `urr_counters`.
use ebpf_upf.Prelude.{
  ℕ, ◌+◌, ◌^◌, ◌<◌, ◌≡◌, refl, ◌∙◌, List, [], ◌∷◌, ◌++◌, Option, none, some, map, All, ◌==◌,
  if◌then◌else◌, lt→ltb, Bool-cases, inl, inr,
}
use ebpf_upf.Python.{ok}
use ebpf_upf.Python.Struct.{Bytes, little, le_bytes, to_bytes, pack}
use ebpf_upf.Python.Struct.RoundTrip.{unpack-pack, pack-IsByte}
use ebpf_upf.Datapath.Ingress.{UrrVal}
use ebpf_upf.Agent.Metrics.{Sample, DumpEntry}
use ebpf_upf.Agent.Metrics.Dump.{
  hex_text, cell_text, literal_bytes-hex_text, literal_bytes-cell_text, unpack_one-le_bytes,
}
use ebpf_upf.Agent.Usage.{Usage, urr_format, sum_usage, entry_key, no_usage, read_urr}

-- `struct urr_val` in memory.
unfoldable pub urr_bytes : UrrVal → Bytes
unfolding le_bytes
urr_bytes v =
    le_bytes 8 v.bytes_ul
    ++ (le_bytes 8 v.bytes_dl ++ (le_bytes 8 v.pkts_ul ++ (le_bytes 8 v.pkts_dl ++ [])))

abbrev pub usage_sample : UrrVal → Sample
usage_sample v = record { value = some (map hex_text (urr_bytes v)) }

-- The entry of a URR, with one value for each CPU.
abbrev pub usage_entry : ℕ × List UrrVal → DumpEntry
usage_entry (urr_id, vs) = record {
  key = some (cell_text 4 urr_id);
  values = some (map usage_sample vs);
}

-- What the kernel can hold.
abbrev pub IsUrr : UrrVal → Type 0
IsUrr v =
    (v.bytes_ul < 2 ^ 64) × (v.bytes_dl < 2 ^ 64) × (v.pkts_ul < 2 ^ 64) × (v.pkts_dl < 2 ^ 64)

abbrev pub add_usage : Usage → UrrVal → Usage
add_usage u v = record { bytes_ul = u.bytes_ul + v.bytes_ul; pkts_ul = u.pkts_ul + v.pkts_ul }

abbrev pub total_from : Usage → List UrrVal → Usage
total_from u [] = u
total_from u (v ∷ vs) = total_from (add_usage u v) vs

pack-urr_bytes :
    (v : UrrVal)
    → IsUrr v
    → pack little urr_format (v.bytes_ul ∷ v.bytes_dl ∷ v.pkts_ul ∷ v.pkts_dl ∷ [])
      ≡ ok (urr_bytes v)
unfolding pack to_bytes urr_bytes
pack-urr_bytes v (a, b, c, d) = rw (
  lt→ltb v.bytes_ul (256 ^ 8) a,
  lt→ltb v.bytes_dl (256 ^ 8) b,
  lt→ltb v.pkts_ul (256 ^ 8) c,
  lt→ltb v.pkts_dl (256 ^ 8) d,
)

sum_usage_step :
    (v : UrrVal) (vs : List Sample) (u : Usage)
    → IsUrr v
    → sum_usage (usage_sample v ∷ vs) u ≡ sum_usage vs (add_usage u v)
unfolding sum_usage
sum_usage_step v vs u h =
    let packed = pack-urr_bytes v h in
    let xs : List ℕ = v.bytes_ul ∷ v.bytes_dl ∷ v.pkts_ul ∷ v.pkts_dl ∷ [] in
    rw (
      literal_bytes-hex_text (urr_bytes v) (pack-IsByte little urr_format xs packed),
      (unpack-pack little urr_format xs packed).1,
    )

sum_usage-printed :
    (vs : List UrrVal) (u : Usage)
    → All IsUrr vs
    → sum_usage (map usage_sample vs) u ≡ ok (total_from u vs)
sum_usage-printed [] u h = unfold sum_usage in refl
sum_usage-printed (v ∷ vs) u (h, hs) =
    sum_usage_step v (map usage_sample vs) u h ∙ sum_usage-printed vs (add_usage u v) hs

entry_key-printed :
    (urr_id : ℕ) (vs : List UrrVal)
    → urr_id < 2 ^ 32
    → entry_key (usage_entry (urr_id, vs)) ≡ ok urr_id
unfolding entry_key
entry_key-printed urr_id vs h =
    rw (literal_bytes-cell_text 4 urr_id, unpack_one-le_bytes 4 urr_id h)

-- The values of the first entry of a URR.
unfoldable pub values_of : ℕ → List (ℕ × List UrrVal) → Option (List UrrVal)
values_of urr_id [] = none
values_of urr_id ((j, vs) ∷ es) =
    let rest = values_of urr_id es in if j == urr_id then some vs else rest

abbrev pub total : Option (List UrrVal) → Option Usage
total none = none
total (some vs) = some (total_from no_usage vs)

abbrev pub IsEntry : ℕ × List UrrVal → Type 0
IsEntry (urr_id, vs) = (urr_id < 2 ^ 32) × All IsUrr vs

-- For every dump of urr_counters in the form that bpftool prints, with identifiers of 32 bits, values
-- of 64 bits and any number of CPUs: read_urr returns the sums over the CPUs of the uplink bytes and
-- packets of the URR's first entry, as numbers without bound, and nothing for a URR without an entry.
pub read_urr-printed :
    (urr_id : ℕ) (es : List (ℕ × List UrrVal))
    → All IsEntry es
    → read_urr urr_id (map usage_entry es) ≡ ok (total (values_of urr_id es))
unfolding read_urr values_of
read_urr-printed urr_id [] h = refl
read_urr-printed urr_id ((j, vs) ∷ es) ((hj, hvs), hs) =
    rw (entry_key-printed j vs hj, read_urr-printed urr_id es hs)
      (elim (Bool-cases (j == urr_id)) [
        | inl same ↦ rw (same, sum_usage-printed vs no_usage hvs)
        | inr other ↦ rw other
      ])
