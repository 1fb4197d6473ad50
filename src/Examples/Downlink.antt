-- ===== src/Examples/Downlink.antt =====
-- The downlink at a concrete packet: the program alone, and together with the agent on the running
-- kernel.
use ebpf_upf.Prelude.{
  ℕ, pos, ◌≡◌, ◌⊎◌, inl, inr, refl, String, str_eq, [], ◌∷◌, ◌++◌, some, none, replicate, take,
  drop, arith, length, All, Bool-cases, if◌then◌else◌,
}
use ebpf_upf.Python.{Exception, Result, ok, err, os_error}
use ebpf_upf.Python.Struct.{Bytes, IsByte, from_bytes, to_bytes, pack}
use ebpf_upf.Maps.{Maps}
use ebpf_upf.Maps.Logic.{Reaches}
use ebpf_upf.Kernel.Tables
use ebpf_upf.Kernel.Tables.{run}
use ebpf_upf.Syscall.{World, update, fd, bpf_obj_get, bpf_map_update_elem}
use ebpf_upf.Datapath.Tables.{map_lookup}
use ebpf_upf.Datapath.Packet.{gpdu, parse, ◌>>=◌}
use ebpf_upf.Datapath.Egress.{Room, EgressRun, dl_ue_val, destination, n3_address, upf_tc_egress}
use ebpf_upf.Datapath.Egress.Safety.{Counted, egress-Counted}
use ebpf_upf.Datapath.Egress.Grown.{Grows, sent_as}
use ebpf_upf.Datapath.Egress.Tunnel.{Tunnelled, egress-Tunnelled}
use ebpf_upf.Datapath.Egress.Lengths.{Measured, egress-Measured}
use ebpf_upf.Agent.Downlink.{Resolver, IsAddressError, install_dl_ue, install_upf_config}
use ebpf_upf.EndToEnd.Downlink.{Carried, Sourced, install_dl_ue_carries, install_upf_config_sources}
use ebpf_upf.Examples.Start.{maps, fresh, fresh-IsOpen}

-- Ethernet, and TCP in IPv4 to 10.60.0.1.
abbrev packet : Bytes
packet =
    replicate 12 0
    ++ (8 ∷ 0 ∷ 69 ∷ replicate 8 0
        ++ (6 ∷ 0 ∷ 0 ∷ 1 ∷ 1 ∷ 1 ∷ 1 ∷ 10 ∷ 60 ∷ 0 ∷ 1 ∷ replicate 20 7))

abbrev dst_ip : ℕ
dst_ip = 16792586

test_destination : destination packet ≡ some (some dst_ip)
unfolding destination from_bytes
test_destination = refl

-- A helper that makes room of zeros.
abbrev roomy : Room
roomy = record { adjust_room = λ n d. some (take 14 d ++ (replicate n 0 ++ drop 14 d)); len = 90 }

roomy-Grows : Grows roomy packet
roomy-Grows = record { room = replicate 36 0; made = refl; grew = refl; linear = refl }

-- The tunnel 0x1001 to 10.0.0.2.
abbrev entry : Bytes
entry = 0 ∷ 0 ∷ 16 ∷ 1 ∷ 10 ∷ 0 ∷ 0 ∷ 2 ∷ 1 ∷ 0 ∷ 0 ∷ 0 ∷ []

abbrev one_tunnel : ℕ → Maps
one_tunnel k n key = if str_eq n "dl_ue_map" then some entry else none

found : map_lookup (one_tunnel 0) "dl_ue_map" dst_ip ≡ some entry
unfolding map_lookup
found = refl

egress-Counted_example :
    (o : EgressRun) × (upf_tc_egress roomy one_tunnel packet ≡ some o)
    × Counted roomy packet (destination packet) o
egress-Counted_example = egress-Counted roomy one_tunnel packet

egress-Tunnelled_example :
    (e : Bytes) × (upf_tc_egress roomy one_tunnel packet ≡ some (sent_as e))
    × Tunnelled packet (n3_address (one_tunnel 1)) (dl_ue_val entry) e
egress-Tunnelled_example =
    egress-Tunnelled roomy one_tunnel packet dst_ip entry test_destination found roomy-Grows

test_tunnel :
    (upf_tc_egress roomy one_tunnel packet >>= λ o. parse o.packet) ≡ some (gpdu 20 0x1001)
unfolding upf_tc_egress parse from_bytes
test_tunnel = refl

egress-Measured_example :
    (e : Bytes) × (upf_tc_egress roomy one_tunnel packet ≡ some (sent_as e)) × Measured e
egress-Measured_example =
    egress-Measured roomy one_tunnel packet dst_ip entry (omega arith) test_destination found
      roomy-Grows

-- Two addresses that are known, and no other.
abbrev known : String → Result Bytes
known dotted =
    if str_eq dotted "10.60.0.1"
    then ok (10 ∷ 60 ∷ 0 ∷ 1 ∷ [])
    else if str_eq dotted "10.0.0.2"
    then ok (10 ∷ 0 ∷ 0 ∷ 2 ∷ [])
    else err (os_error (pos 22))

known_size : (dotted : String) (b : Bytes) → known dotted ≡ ok b → (length b ≡ 4) × All IsByte b
known_size dotted b h = ground arith

refused :
    (e : Exception) → ◌≡◌ {A = Result Bytes} (err (os_error (pos 22))) (err e) → IsAddressError e
refused e h = inl (pos 22, cc h)

known_error : (dotted : String) (e : Exception) → known dotted ≡ err e → IsAddressError e
known_error dotted e h = elim (Bool-cases (str_eq dotted "10.60.0.1")) [
  | inl ue ↦ cc (rw ue at h)
  | inr other ↦ elim (Bool-cases (str_eq dotted "10.0.0.2")) [
    | inl gnb ↦ cc (rw (other, gnb) at h)
    | inr neither ↦ refused e (rw (other, neither) at h)
  ]
]

abbrev resolver : Resolver
resolver = record { inet_aton = known; address_size = known_size; address_error = known_error }

-- No system call came before.
abbrev start : World Tables.Tables
start = record fresh { trace = Tables.empty ∷ [] }

start-IsOpen : maps.IsOpen start
start-IsOpen = record { valid = fresh-IsOpen.valid; cached = fresh-IsOpen.cached }

install_dl_ue_carries_example :
    Reaches maps
      (λ m. (m ≡ maps.content start) ⊎ Carried roomy packet (10 ∷ 0 ∷ 0 ∷ 2 ∷ []) 0x1001 m)
      (λ _. Carried roomy packet (10 ∷ 0 ∷ 0 ∷ 2 ∷ []) 0x1001)
      (λ e m. m ≡ maps.content start)
      (install_dl_ue maps resolver "10.60.0.1" 0x1001 "10.0.0.2" 1 start)
install_dl_ue_carries_example =
    install_dl_ue_carries maps resolver "10.60.0.1" 0x1001 "10.0.0.2" 1 (10 ∷ 60 ∷ 0 ∷ 1 ∷ [])
      (10 ∷ 0 ∷ 0 ∷ 2 ∷ []) roomy packet dst_ip start start-IsOpen refl refl refl test_destination
      refl roomy-Grows

-- The world after it.
abbrev tunnelled : World Tables.Tables
tunnelled = (install_dl_ue maps resolver "10.60.0.1" 0x1001 "10.0.0.2" 1 start).1

test_install_dl_ue : maps.content tunnelled "dl_ue_map" (10 ∷ 60 ∷ 0 ∷ 1 ∷ []) ≡ some entry
unfolding install_dl_ue pack to_bytes update fd bpf_obj_get bpf_map_update_elem run
test_install_dl_ue = refl

-- The record of passed contents starts here.
abbrev restarted : World Tables.Tables
restarted = record tunnelled { trace = tunnelled.kernel ∷ [] }

restarted-IsOpen : maps.IsOpen restarted
restarted-IsOpen = record {
  valid = install_dl_ue_carries_example.opened.valid;
  cached = install_dl_ue_carries_example.opened.cached;
}

has_tunnel : map_lookup (maps.content restarted) "dl_ue_map" dst_ip ≡ some entry
unfolding map_lookup test_install_dl_ue install_dl_ue pack to_bytes update fd bpf_obj_get
    bpf_map_update_elem run
has_tunnel = refl

install_upf_config_sources_example :
    Reaches maps
      (λ m. (m ≡ maps.content restarted) ⊎ Sourced roomy packet (10 ∷ 0 ∷ 0 ∷ 2 ∷ []) m)
      (λ _. Sourced roomy packet (10 ∷ 0 ∷ 0 ∷ 2 ∷ []))
      (λ e m. m ≡ maps.content restarted)
      (install_upf_config maps resolver "10.0.0.2" restarted)
install_upf_config_sources_example =
    install_upf_config_sources maps resolver "10.0.0.2" (10 ∷ 0 ∷ 0 ∷ 2 ∷ []) roomy packet dst_ip
      entry restarted restarted-IsOpen refl refl test_destination roomy-Grows has_tunnel
