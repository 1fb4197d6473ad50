-- ===== src/Netlink/Link/Creation.antt =====
-- `create_gtp5g_link` of results_native/gtp5g_baseline/gtp5g_link_add.py, over the operating system's
-- sockets as a parameter.
use ebpf_upf.Prelude.{ℕ, String}
use ebpf_upf.Python.Exec.{Exec, pure, lift, ◌>>=◌, ◌>>◌}
use ebpf_upf.Python.Struct.{Bytes}
use ebpf_upf.Netlink.Replies.{reply_type, refuse_nonzero}
use ebpf_upf.Netlink.Link.{link_message}

pub data Address : Type 0 where
  inet : String → ℕ → Address
  netlink : ℕ → ℕ → Address

-- `socket.socket` by family, type and protocol, the methods of a socket by its descriptor, and
-- `os.getpid()`.
pub record Os : Type 1 where
  pub State : Type 0
  pub socket : ℕ → ℕ → ℕ → Exec State ℕ
  pub setsockopt : ℕ → ℕ → ℕ → ℕ → Exec State (Unit {0})
  pub bind : ℕ → Address → Exec State (Unit {0})
  pub send : ℕ → Bytes → Exec State (Unit {0})
  pub recv : ℕ → ℕ → Exec State Bytes
  pub close : ℕ → Exec State (Unit {0})
  pub pid : ℕ

abbrev pub af_inet : ℕ
af_inet = 2

abbrev pub sock_dgram : ℕ
sock_dgram = 2

abbrev pub sol_socket : ℕ
sol_socket = 1

abbrev pub so_reuseaddr : ℕ
so_reuseaddr = 2

abbrev pub af_netlink : ℕ
af_netlink = 16

abbrev pub sock_raw : ℕ
sock_raw = 3

module _ (O : Os) where
  open O use {State, socket, setsockopt, bind, send, recv, close}

  -- The socket of the GTP-U port; its descriptor goes into the request.
  unfoldable pub gtpu_socket : ℕ → Exec State ℕ
  gtpu_socket gtpu_port = do
    sk ← socket af_inet sock_dgram 0
    setsockopt sk sol_socket so_reuseaddr 1
    bind sk (inet "0.0.0.0" gtpu_port)
    pure sk

  unfoldable pub netlink_socket : Exec State ℕ
  netlink_socket = do nl ← socket af_netlink sock_raw 0; bind nl (netlink 0 0); pure nl

  -- An acknowledgement with an error is raised, and the netlink socket is then left open.
  unfoldable pub acknowledge : ℕ → Bytes → Exec State (Unit {0})
  acknowledge nl resp = do
    r_type ← lift (reply_type resp)
    lift (refuse_nonzero r_type resp)
    close nl

  unfoldable pub create_gtp5g_link : Bytes → ℕ → ℕ → Exec State ℕ
  unfolding gtpu_socket netlink_socket acknowledge
  create_gtp5g_link ifname gtpu_port pdr_hashsize = do
    sk ← gtpu_socket gtpu_port
    msg ← lift (link_message ifname pdr_hashsize sk O.pid)
    nl ← netlink_socket
    send nl msg
    resp ← recv nl 65536
    acknowledge nl resp
    pure sk
