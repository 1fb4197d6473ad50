-- ===== src/Examples/Usage.antt =====
-- The usage of a URR on two CPUs.
use ebpf_upf.Prelude.{ℕ, ◌≡◌, refl, List, [], ◌∷◌, some, none, map, true, false, arith}
use ebpf_upf.Python.{ok}
use ebpf_upf.Python.Struct.{unpack, from_bytes}
use ebpf_upf.Datapath.Tables.{FarVal}
use ebpf_upf.Datapath.Ingress.{UrrVal, Urrs, Helpers, State, redirect_out}
use ebpf_upf.Python.Hex.{hex_digit}
use ebpf_upf.Agent.Metrics.Dump.{cell_text}
use ebpf_upf.Agent.Usage.{Usage, read_urr}
use ebpf_upf.Agent.Usage.Printed.{urr_bytes, usage_entry}
use ebpf_upf.EndToEnd.Usage.{plus, printed, usage_billed}
use ebpf_upf.EndToEnd.Usage.Counted.{billed}

abbrev some_usage : UrrVal
some_usage = record { bytes_ul = 1000; bytes_dl = 0; pkts_ul = 3; pkts_dl = 0 }

abbrev other_usage : UrrVal
other_usage = record { bytes_ul = 0xffff_ffff_ffff_ffff; bytes_dl = 0; pkts_ul = 2; pkts_dl = 0 }

abbrev entries : List (ℕ × List UrrVal)
entries = (2, some_usage ∷ []) ∷ (1, some_usage ∷ other_usage ∷ []) ∷ []

-- The sum has no bound.
test_read_urr :
    read_urr 1 (map usage_entry entries)
    ≡ ok (some record { bytes_ul = 0x1_0000_0000_0000_03e7; pkts_ul = 5 })
unfolding read_urr unpack from_bytes cell_text hex_digit urr_bytes
test_read_urr = refl

abbrev here : Urrs
here i = some some_usage

abbrev elsewhere : Urrs
elsewhere i = none

abbrev helpers : Helpers
helpers = record {
  len = 70;
  inner_len = 34;
  now = 1000;
  adjust_fails = λ n. false;
  urr_fits = true;
  redirect = λ i. 7;
}

abbrev far : FarVal
far = record { action = 1; out_ifindex = 2; peer_ipv4_be = 0; out_teid_be = 0 }

abbrev one_cpu : State
one_cpu = record { buckets = λ i. none; urrs = here }

usage_billed_example :
    (u : Usage) × (read_urr 1
        (map usage_entry (printed (1 ∷ 2 ∷ []) (elsewhere ∷ here ∷ elsewhere ∷ [])))
      ≡ ok (some u))
    × (read_urr 1 (
          map usage_entry (
            printed
              (1 ∷ 2 ∷ [])
              (elsewhere ∷ (redirect_out helpers far 1 one_cpu).state.urrs ∷ elsewhere ∷ [])))
        ≡ ok (some (plus u (billed 1 1 34).0 (billed 1 1 34).1)))
usage_billed_example =
    usage_billed helpers far 1 1 one_cpu (1 ∷ 2 ∷ []) (elsewhere ∷ []) (elsewhere ∷ [])
      (omega arith) refl (omega arith) (omega arith) (omega arith) refl (omega arith)
