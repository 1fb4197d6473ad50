-- ===== src/Agent/Server.antt =====
-- `serve` and `main` of loader/agent.py. `HTTPServer` handles one request after the other; an
-- exception of a handler is reported and the next request is handled. What the requests are is a
-- parameter: the list of their paths, of those that came so far.
pub mod Spares
use ebpf_upf.Prelude.{ℕ, ℤ, List, [], ◌∷◌, Option}
use ebpf_upf.Python.{Result, ok}
use ebpf_upf.Python.Exec.{Exec, pure, ◌>>=◌, ◌>>◌}
use ebpf_upf.Python.Struct.{Bytes}
use ebpf_upf.Maps.{PinnedMaps}
use ebpf_upf.Agent.Batches.{bootstrap_initial}
use ebpf_upf.Agent.Metrics.{DumpEntry}
use ebpf_upf.Agent.Http.{do_get}
use ebpf_upf.Agent.Http.Answers.{Response, Report}

-- The options `--initial` and `--out-ifindex`, as they are parsed or by default.
pub record Args : Type 0 where
  pub initial : ℕ
  pub out_ifindex : ℕ

abbrev pub default_args : Args
default_args = record { initial = 10; out_ifindex = 2 }

-- What the server does with an exception of a handler.
abbrev pub report_error : {S A : Type 0} → Exec S A → Exec S (Result A)
report_error m s = let (r, s') = m s in (ok r, s')

module _ (M : PinnedMaps) (clock : ℕ → ℕ) (dump : Exec M.World (List DumpEntry))
    (query : Bytes → Option (List Bytes)) (int_of : Bytes → Result ℤ) (dumps : Report → Bytes) where
  open M use {World}

  unfoldable pub serve : List Bytes → Exec World (List (Result Response))
  serve [] = pure []
  serve (path ∷ paths) = do
    answer ← report_error (do_get M clock dump query int_of dumps path)
    answers ← serve paths
    pure (answer ∷ answers)

  unfoldable pub main : Args → List Bytes → Exec World (List (Result Response))
  unfolding serve
  main args paths = do bootstrap_initial M args.initial args.out_ifindex; serve paths
