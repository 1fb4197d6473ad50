-- ===== src/Examples/Datapath.antt =====
-- The datapath at concrete packets, and the agent and the datapath together on the running kernel.
use ebpf_upf.Prelude.{
  ℕ, ◌+◌, ◌-◌, ◌*◌, ◌≤◌, ◌≡◌, refl, List, [], ◌∷◌, ◌++◌, none, some, replicate, true, false, arith,
}
use ebpf_upf.Python.Struct.{Bytes, from_bytes}
use ebpf_upf.Maps.{Maps}
use ebpf_upf.Maps.Logic.{Reaches}
use ebpf_upf.Datapath.Tables.{QerVal}
use ebpf_upf.Datapath.Qer.{per_cpu, shared_lock, Bucket, capped, refill, meter, meter_all}
use ebpf_upf.Datapath.Qer.Late.{empty_at, late_pairs, late_arrivals_overshoot}
use ebpf_upf.Datapath.Qer.Rate.{final, rate_bounded}
use ebpf_upf.Datapath.Qer.Builds.{builds_agree}
use ebpf_upf.Datapath.Qer.Refill.{silence_refills, dense_flow_starves}
use ebpf_upf.Datapath.Packet.{Parsed, gpdu, parse}
use ebpf_upf.Datapath.Packet.Safety.{Within, parse-Within}
use ebpf_upf.Datapath.Uplink.{XdpAction, upf_xdp_uplink}
use ebpf_upf.Datapath.Uplink.Accounts.{Balanced, uplink-Balanced}
use ebpf_upf.Datapath.Ingress.{Helpers, State, Outcome, upf_tc_ingress}
use ebpf_upf.Datapath.Ingress.Accounts.{gpdus, Accounted, ingress-Accounted}
use ebpf_upf.Agent.Sessions.{install_session}
use ebpf_upf.Agent.Sessions.Order.{the_slot}
use ebpf_upf.EndToEnd.{NoPdrMiss, ServedBy, install_session_serves}
use ebpf_upf.Examples.Start.{maps, fresh, fresh-IsOpen, fresh-Resolved}

-- Ethernet, IPv4 without options, UDP to port 2152, and a G-PDU of TEID 0x1001.
abbrev packet : Bytes
packet =
    replicate 12 0
    ++ (8 ∷ 0 ∷ 69 ∷ replicate 8 0
        ++ (17 ∷ replicate 10 0
            ++ (8
                ∷ 104
                ∷ 8
                ∷ 104
                ∷ 0
                ∷ 0
                ∷ 0
                ∷ 0
                ∷ 48
                ∷ 255
                ∷ 0
                ∷ 0
                ∷ 0
                ∷ 0
                ∷ 16
                ∷ 1
                ∷ replicate 20 0)))

test_parse : parse packet ≡ some (gpdu 20 0x1001)
unfolding parse from_bytes
test_parse = refl

parse-Within_example : Within packet (parse packet)
parse-Within_example = parse-Within packet

abbrev nothing : ℕ → Maps
nothing k n key = none

uplink-Balanced_example :
    (p : Parsed) × (run : XdpAction × List ℕ) × (parse packet ≡ some p)
    × (upf_xdp_uplink nothing packet ≡ some run)
    × Balanced p run
uplink-Balanced_example = uplink-Balanced nothing packet

abbrev helpers : Helpers
helpers = record {
  len = 70;
  inner_len = 34;
  now = 1000;
  adjust_fails = λ n. false;
  urr_fits = true;
  redirect = λ i. 7;
}

abbrev idle : State
idle = record { buckets = λ i. none; urrs = λ i. none }

ingress-Accounted_example :
    (p : Parsed) × (o : Outcome) × (parse packet ≡ some p)
    × (upf_tc_ingress per_cpu helpers nothing packet idle ≡ some o)
    × Accounted (gpdus p) o
ingress-Accounted_example = ingress-Accounted per_cpu helpers nothing packet idle

-- 8 Mbit/s, a megabyte a second, with a burst of 3000 bytes.
abbrev qer : QerVal
qer = record { mbr_ul_bps = 8000000; mbr_dl_bps = 0; burst_bytes = 3000 }

abbrev unused : Bucket
unused = record { tokens_bytes = 0; last_ns = 0 }

-- A packet each millisecond, of which each is worth a thousand bytes.
abbrev packets : List (ℕ × ℕ)
packets = (2000000, 1500) ∷ (3000000, 1500) ∷ (4000000, 1500) ∷ []

test_meter_all : (meter_all per_cpu qer ((1000000, 1500) ∷ packets) unused).1 ≡ 6000
unfolding meter_all meter
test_meter_all = refl

rate_bounded_example :
    8000000000 * (meter_all shared_lock qer ((1000000, 1500) ∷ packets) unused).1
    ≤ 8000000000 * qer.burst_bytes + (final 1000000 packets - 1000000) * qer.mbr_ul_bps
rate_bounded_example =
    rate_bounded shared_lock qer unused 1000000 1500 packets (omega arith) (omega arith)

abbrev empty : Bucket
empty = record { tokens_bytes = 0; last_ns = 1000000 }

silence_refills_example : (meter per_cpu qer 3000000 1500 empty).1 ≡ true
unfolding capped
silence_refills_example =
    silence_refills per_cpu qer 3000000 1500 empty (omega arith) (omega arith) (omega arith)
      (omega arith) (omega arith) (omega arith) (omega arith) (omega arith)

-- A packet each 900 nanoseconds, in which the rate is worth 0.9 bytes.
dense_flow_starves_example :
    (meter_all per_cpu qer ((1000900, 60) ∷ (1001800, 60) ∷ (1002700, 60) ∷ []) empty).1 ≤ 0
dense_flow_starves_example =
    dense_flow_starves per_cpu qer ((1000900, 60) ∷ (1001800, 60) ∷ (1002700, 60) ∷ []) empty
      (omega arith) (omega arith) (omega arith)

install_session_serves_example :
    Reaches maps NoPdrMiss
      (λ _ c. NoPdrMiss c × ServedBy 0x1000 0x2000 (the_slot maps 0x1000 0x2000 1 1 100 1) c)
      (λ e. NoPdrMiss)
      (install_session maps 0x1000 0x2000 1 1 100 1 fresh)
install_session_serves_example =
    install_session_serves maps 0x1000 0x2000 1 1 100 1 fresh fresh-IsOpen tt fresh-Resolved

builds_agree_example : meter_all per_cpu qer packets empty ≡ meter_all shared_lock qer packets empty
builds_agree_example = builds_agree qer packets empty (omega arith)

worth_a_millisecond : refill (capped (2000000 - 1000000)) qer.mbr_ul_bps ≡ 1000
unfolding refill capped
worth_a_millisecond = refl

late_arrivals_overshoot_example :
    (meter_all shared_lock qer (late_pairs 1000000 1500 2000000 1000 50) (empty_at 2000000)).1
    ≡ 50 * 1000
late_arrivals_overshoot_example =
    late_arrivals_overshoot qer 1000000 1500 2000000 1000 50 (omega arith) (omega arith)
      (omega arith) (omega arith) (omega arith) worth_a_millisecond
