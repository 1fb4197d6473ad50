-- ===== src/Examples/Batches.antt =====
-- Batches of sessions on the running kernel.
use ebpf_upf.Prelude.{ℕ, ◌+◌, ◌≤◌, ◌<◌, ◌^◌, ◌≡◌, refl, [], ◌∷◌}
use ebpf_upf.Python.{ok}
use ebpf_upf.Python.Struct.{pack, to_bytes}
use ebpf_upf.Maps.Logic.{Reaches}
use ebpf_upf.Kernel.Tables.{run}
use ebpf_upf.Syscall.{update, delete, fd, bpf_obj_get, bpf_map_update_elem, bpf_map_delete_elem}
use ebpf_upf.Agent.Encoders.{
  enc_u32, enc_pdr, enc_session, enc_bundle_slot, enc_bundle, enc_far, enc_qer,
}
use ebpf_upf.Agent.Tables.{install_far, install_qer}
use ebpf_upf.Agent.Sessions.{install_session, install_tc_bundle, remove_session}
use ebpf_upf.Agent.Sessions.Presence.{Resolved}
use ebpf_upf.Agent.Batches.{bootstrap_initial, measure_rule_update}
use ebpf_upf.Agent.Batches.Startup.{Halted, bootstrap_initial_serves}
use ebpf_upf.Agent.Batches.Startup.Entries.{There}
use ebpf_upf.Examples.Start.{maps, fresh, fresh-IsOpen, fresh-Resolved}

test_bootstrap_initial : (bootstrap_initial maps 2 2 fresh).0 ≡ ok tt
unfolding bootstrap_initial install_far install_qer enc_far enc_qer install_session
    install_tc_bundle enc_u32 enc_pdr enc_session enc_bundle_slot enc_bundle pack to_bytes update fd
    bpf_obj_get bpf_map_update_elem run
test_bootstrap_initial = refl

bootstrap_initial_serves_example :
    Reaches maps Resolved
      (λ _ m. Resolved m × There 2 2 m)
      (Halted ((2 < 2 ^ 32) × (0x2000 + 2 ≤ 2 ^ 32)))
      (bootstrap_initial maps 2 2 fresh)
bootstrap_initial_serves_example =
    bootstrap_initial_serves maps 2 2 fresh fresh-IsOpen tt fresh-Resolved

-- A clock that advances by five at each reading.
abbrev ticks : ℕ → ℕ
ticks k = k + (k + (k + (k + k)))

test_measure_rule_update : (measure_rule_update maps ticks 2 fresh).0 ≡ ok (25, 5 ∷ 5 ∷ [])
unfolding measure_rule_update remove_session delete bpf_map_delete_elem install_session
    install_tc_bundle enc_u32 enc_pdr enc_session enc_bundle_slot enc_bundle pack to_bytes update fd
    bpf_obj_get bpf_map_update_elem run
test_measure_rule_update = refl
