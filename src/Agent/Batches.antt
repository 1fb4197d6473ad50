-- ===== src/Agent/Batches.antt =====
-- Batches of sessions, loader/agent.py: the sessions of the start-up, and the measured update. The
-- clock is a parameter: `clock k` is reading number k of `time.monotonic_ns`. Times stay in
-- nanoseconds; the source divides them.
pub mod Startup
pub mod Samples
use ebpf_upf.Prelude.{ℕ, zero, suc, ◌+◌, ◌-◌, ◌*◌, List, [], ◌∷◌}
use ebpf_upf.Python.Exec.{Exec, pure, ◌>>=◌, ◌>>◌}
use ebpf_upf.Maps.{PinnedMaps}
use ebpf_upf.Agent.Tables.{install_far, install_qer}
use ebpf_upf.Agent.Sessions.{install_session, remove_session}

-- FAR_DROP, FAR_FORWARD, FAR_BUFFER = 0, 1, 2
abbrev pub far_forward : ℕ
far_forward = 1

module _ (M : PinnedMaps) where
  open M use {World}

  -- `install_session` with its defaults.
  unfoldable pub install_default : ℕ → ℕ → Exec World (Unit {0})
  install_default teid pdr_id = install_session M teid pdr_id 1 1 100 1

  -- `for i in range(n)`, from `i` on.
  unfoldable pub install_sessions : ℕ → ℕ → Exec World (Unit {0})
  unfolding install_default
  install_sessions zero i = pure tt
  install_sessions (suc n) i = do
    install_default (0x1000 + i) (0x2000 + i)
    install_sessions n (i + 1)

  unfoldable pub bootstrap_initial : ℕ → ℕ → Exec World (Unit {0})
  unfolding install_sessions
  bootstrap_initial n out_ifindex = do
    install_far M 1 far_forward out_ifindex 0 0
    install_qer M 1 0 0 0
    install_sessions n 0

  module _ (clock : ℕ → ℕ) where
    unfoldable pub install_timed : ℕ → ℕ → Exec World (List ℕ)
    unfolding install_default
    install_timed zero i = pure []
    install_timed (suc n) i = do
      let s = clock (1 + 2 * i)
      install_default (0x10000 + i) (0x20000 + i)
      let e = clock (2 + 2 * i)
      samples ← install_timed n (i + 1)
      pure ((e - s) ∷ samples)

    unfoldable pub remove_sessions : ℕ → ℕ → Exec World (Unit {0})
    remove_sessions zero i = pure tt
    remove_sessions (suc n) i = do
      remove_session M (0x10000 + i) (0x20000 + i)
      remove_sessions n (i + 1)

    unfoldable pub measure_rule_update : ℕ → Exec World (ℕ × List ℕ)
    unfolding install_timed remove_sessions
    measure_rule_update n_rules = do
      let t_start = clock 0
      samples ← install_timed n_rules 0
      let t_end = clock (1 + 2 * n_rules)
      remove_sessions n_rules 0
      pure (t_end - t_start, samples)
