-- ===== src/Examples/Analysis.antt =====
-- The analysis of captured decisions, at lines as bpftool prints them.
use ebpf_upf.Prelude.{◌%◌, ◌≡◌, refl, [], ◌∷◌, map, codes, if◌then◌else◌, ◌==◌, arith}
use ebpf_upf.Python.{ok}
use ebpf_upf.Python.Hex.{hex_digit}
use ebpf_upf.Python.Struct.{from_bytes}
use ebpf_upf.Datapath.Tables.{BundleSlot}
use ebpf_upf.Agent.Http.Answers.{starts_with}
use ebpf_upf.Analysis.{parse, torn, mismatches}
use ebpf_upf.Analysis.Rows.{Capture, IsPrinted, lines_of, event_bytes, parse-lines}
use ebpf_upf.Analysis.Toggles.{toggled_events, toggles_analysed}

test_parse_capture :
    parse (
      codes "== @377553.286885363 CPU: 19 index: 19 =====\n"
      ∷ codes "03 00 00 00 03 00 00 00  01 00 00 00 00 20 00 00\n"
      ∷ codes "00 00 00 00\n"
      ∷ [])
    ≡ ok (record { far_id = 3; qer_id = 3; generation = 1; pdr_id = 0x2000 } ∷ [])
unfolding parse hex_digit from_bytes
test_parse_capture = refl

-- The first event of the recorded file.
abbrev first : Capture
first = record {
  header = codes "== @377553.286885363 CPU: 19 index: 19 =====\n";
  event = record { far_id = 3; qer_id = 3; generation = 1; pdr_id = 0x2000 };
  one =
      (3, 1)
      ∷ (0, 1)
      ∷ (0, 1)
      ∷ (0, 1)
      ∷ (3, 1)
      ∷ (0, 1)
      ∷ (0, 1)
      ∷ (0, 2)
      ∷ (1, 1)
      ∷ (0, 1)
      ∷ (0, 1)
      ∷ (0, 1)
      ∷ (0, 1)
      ∷ (0x20, 1)
      ∷ (0, 1)
      ∷ (0, 0)
      ∷ [];
  two = (0, 1) ∷ (0, 1) ∷ (0, 1) ∷ (0, 0) ∷ [];
  padding = 0 ∷ 0 ∷ 0 ∷ 0 ∷ [];
}

first-IsPrinted : IsPrinted first
unfolding starts_with event_bytes
first-IsPrinted = record {
  headed = refl;
  fields = omega arith;
  first_bytes = omega arith;
  second_bytes = omega arith;
  whole = refl;
}

parse-lines_example :
    parse (lines_of (first ∷ [])) ≡ ok (map (λ (c : Capture). c.event) (first ∷ []))
parse-lines_example = parse-lines (first ∷ []) (first-IsPrinted, tt)

abbrev installed : BundleSlot
installed = record { far_id = 1; qer_id = 1; urr_id = 1; precedence = 100; generation = 0 }

toggles_analysed_example :
    (torn (toggled_events 5 0 0x2000 installed) ≡ 0)
    × (mismatches (toggled_events 5 0 0x2000 installed)
        ≡ (if installed.generation % 2 == 0 then 5 else 0))
toggles_analysed_example = toggles_analysed 5 0x2000 installed
