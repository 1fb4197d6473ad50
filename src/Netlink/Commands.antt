-- ===== src/Netlink/Commands.antt =====
-- The two commands of results_native/gtp5g_baseline/gtp5g_genl.py, sent through its socket.
use ebpf_upf.Prelude.{ℕ, String, Option, none, some, true, codes, str_eq, if◌then◌else◌}
use ebpf_upf.Python.Exec.{Exec, pure, lift, ◌>>=◌, ◌>>◌}
use ebpf_upf.Netlink.Socket.{Socket, GenlSocket, on_nl, resolve_family, cmd}
use ebpf_upf.Netlink.Messages.{
  far_action_drop, far_action_forw, gtp5g_cmd_add_far, gtp5g_cmd_add_pdr, far_attrs, pdr_attrs,
}

module _ (N : Socket) where
  open N use {State}

  unfoldable pub add_far : ℕ → ℕ → ℕ → Option ℕ → Option ℕ → ℕ → Exec (GenlSocket State) (Unit {0})
  add_far ifindex far_id action o_teid peer_ipv4 port = do
    attrs ← lift (far_attrs ifindex far_id action o_teid peer_ipv4 port)
    cmd N gtp5g_cmd_add_far attrs true
    pure tt

  unfoldable pub add_pdr :
      ℕ
      → ℕ
      → ℕ
      → ℕ
      → Option ℕ
      → Option ℕ
      → Option ℕ
      → Option ℕ
      → Option ℕ
      → Exec (GenlSocket State) (Unit {0})
  add_pdr ifindex pdr_id precedence far_id ue_addr_ipv4 i_teid gtpu_addr_ipv4 src_intf
        outer_header_removal =
      do
        attrs ← lift (
            pdr_attrs ifindex pdr_id precedence far_id ue_addr_ipv4 i_teid gtpu_addr_ipv4 src_intf
              outer_header_removal)
        cmd N gtp5g_cmd_add_pdr attrs true
        pure tt

  abbrev pub close : Exec (GenlSocket State) (Unit {0})
  close = on_nl N N.close

  -- The script's steps by name; the peer of `far_forw` is 10.0.0.2. Another name only prints.
  unfoldable pub run_step : String → ℕ → Exec (GenlSocket State) (Unit {0})
  unfolding add_far add_pdr
  run_step step ifindex =
      if str_eq step "far_drop"
      then add_far ifindex 1 far_action_drop none none 2152
      else if str_eq step "far_forw"
      then add_far ifindex 2 far_action_forw (some 0x1000) (some 0x0A000002) 2152
      else if str_eq step "pdr"
      then add_pdr ifindex 1 100 1 none none none none (some 0)
      else pure tt

  -- The script, after `if_nametoindex`.
  unfoldable pub run_script : String → ℕ → Exec (GenlSocket State) (Unit {0})
  unfolding run_step
  run_script step ifindex = do resolve_family N (codes "gtp5g"); run_step step ifindex; close
