-- ===== src/Pfcp.antt =====
-- results_native/eupf_comparison/pfcp_session_establish.py: one session request to another UPF over
-- UDP. The sockets and the packet library, which encodes the request and decodes the reply, are
-- parameters.
pub mod Request
pub mod Once
use ebpf_upf.Prelude.{ℕ, String, Option, none, some}
use ebpf_upf.Python.{Result, ok, err, timeout}
use ebpf_upf.Python.Exec.{Exec, pure, lift, ◌>>=◌, ◌>>◌}
use ebpf_upf.Python.Struct.{Bytes}
use ebpf_upf.Pfcp.Request.{Message, sess_est}

-- What the script prints.
pub data Line : Type 0 where
  response : String → ℕ → Line
  timed_out : String → Line

-- The methods of a socket by its descriptor, `bytes` of a message, and `PFCP` of a datagram with the
-- type of the message in it.
pub record Network : Type 1 where
  pub State : Type 0
  pub Reply : Type 0
  pub socket : ℕ → ℕ → Exec State ℕ
  pub bind : ℕ → String → ℕ → Exec State (Unit {0})
  pub sendto : ℕ → Bytes → String → ℕ → Exec State (Unit {0})
  pub settimeout : ℕ → ℕ → Exec State (Unit {0})
  pub recvfrom : ℕ → ℕ → Exec State Bytes
  pub close : ℕ → Exec State (Unit {0})
  pub encode : Message → Result Bytes
  pub decode : Bytes → Result Reply
  pub message_type : Reply → Result ℕ
  pub print : Line → Exec State (Unit {0})

abbrev pub upf_host : String
upf_host = "127.0.0.1"

abbrev pub upf_port : ℕ
upf_port = 8805

-- `except socket.timeout`
abbrev pub on_timeout : {S A : Type 0} → Exec S A → Result A → Exec S A
on_timeout handler (ok a) s = (ok a, s)
on_timeout handler (err timeout) s = handler s
on_timeout handler (err e) s = (err e, s)

abbrev pub except_timeout : {S A : Type 0} → Exec S A → Exec S A → Exec S A
except_timeout body handler s = let (r, s') = body s in on_timeout handler r s'

module _ (N : Network) where
  open N use {State, Reply, socket, bind, sendto, settimeout, recvfrom, close, print}

  -- The body of the `try`.
  unfoldable pub receive : ℕ → String → Exec State (Option Reply)
  receive sock label = do
    data_in ← recvfrom sock 4096
    resp ← lift (N.decode data_in)
    kind ← lift (N.message_type resp)
    print (response label kind)
    pure (some resp)

  unfoldable pub give_up : String → Exec State (Option Reply)
  give_up label = do print (timed_out label); pure none

  unfoldable pub send_recv : Message → ℕ → String → Exec State (Option Reply)
  unfolding receive give_up
  send_recv pkt sock label = do
    request ← lift (N.encode pkt)
    sendto sock request upf_host upf_port
    settimeout sock 3
    except_timeout (receive sock label) (give_up label)

  -- AF_INET and SOCK_DGRAM are 2.
  unfoldable pub main : Exec State (Unit {0})
  unfolding send_recv
  main = do
    sock ← socket 2 2
    bind sock "0.0.0.0" 0
    reply ← send_recv sess_est sock "SessionEstablishmentRequest(plain-forward)"
    close sock
