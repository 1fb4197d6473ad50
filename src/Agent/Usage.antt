-- ===== src/Agent/Usage.antt =====
-- `read_urr` of loader/agent.py: the usage of one URR, summed over the CPUs. The dump itself, a
-- subprocess and a JSON parser, is a parameter, as for the metrics.
pub mod Printed
use ebpf_upf.Prelude.{ℕ, ◌+◌, List, [], ◌∷◌, Option, none, some, ◌==◌, if◌then◌else◌}
use ebpf_upf.Python.{Result, ok, err, value_error, ◌>>=◌}
use ebpf_upf.Python.Struct.{Format, little, unpack}
use ebpf_upf.Agent.Metrics.{Sample, DumpEntry, member, literal_bytes, unpack_one, or_empty}

abbrev pub urr_format : Format
urr_format = 8 ∷ 8 ∷ 8 ∷ 8 ∷ []

pub record Usage : Type 0 where
  pub bytes_ul : ℕ
  pub pkts_ul : ℕ

-- `bul, bdl, pul, pdl = ...`; another number of values is a `ValueError`.
unfoldable pub uplink_of_four : List ℕ → Result Usage
uplink_of_four (bul ∷ bdl ∷ pul ∷ pdl ∷ []) = ok record { bytes_ul = bul; pkts_ul = pul }
uplink_of_four _ = err value_error

unfoldable pub sum_usage : List Sample → Usage → Result Usage
unfolding uplink_of_four
sum_usage [] u = ok u
sum_usage (v ∷ vs) u = do
  texts ← member v.value
  b ← literal_bytes texts
  fields ← unpack little urr_format b
  x ← uplink_of_four fields
  sum_usage vs record { bytes_ul = u.bytes_ul + x.bytes_ul; pkts_ul = u.pkts_ul + x.pkts_ul }

unfoldable pub entry_key : DumpEntry → Result ℕ
unfolding literal_bytes unpack_one
entry_key entry = do texts ← member entry.key; raw ← literal_bytes texts; unpack_one 4 raw

abbrev pub no_usage : Usage
no_usage = record { bytes_ul = 0; pkts_ul = 0 }

-- The first entry of this key; `none` if there is no entry.
unfoldable pub read_urr : ℕ → List DumpEntry → Result (Option Usage)
unfolding entry_key sum_usage
read_urr urr_id [] = ok none
read_urr urr_id (entry ∷ raw) =
    let rest = read_urr urr_id raw in
    (do
      key ← entry_key entry
      (if key == urr_id
          then (do u ← sum_usage (or_empty entry.values) no_usage; ok (some u))
          else rest))
