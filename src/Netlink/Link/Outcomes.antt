-- ===== src/Netlink/Link/Outcomes.antt =====
-- What a normal end of `create_gtp5g_link` shows.
use ebpf_upf.Prelude.{ℕ, ◌≡◌, pos}
use ebpf_upf.Python.{ok}
use ebpf_upf.Python.Exec.{pure, lift, resume_inv, exec_inv, ◌>>=◌, ◌>>◌}
use ebpf_upf.Python.Struct.{Bytes}
use ebpf_upf.Netlink.Replies.{reply_type, errno_val, refuse_nonzero}
use ebpf_upf.Netlink.Socket.Outcomes.{refuse_nonzero-ok}
use ebpf_upf.Netlink.Link.{link_message}
use ebpf_upf.Netlink.Link.Creation.{Os, gtpu_socket, netlink_socket, acknowledge, create_gtp5g_link}
use ebpf_upf.Netlink.Link.Reading.{Requests, link_message_read}

module _ (O : Os) where
  open O use {State, send, recv, close}

  -- A reply that is no error, or the error 0.
  abbrev pub Accepted : Bytes → Type 0
  Accepted resp =
      (r_type : ℕ) × (reply_type resp ≡ ok r_type) × (r_type ≡ 2 → errno_val resp ≡ ok (pos 0))

  acknowledge-Accepted :
      (nl : ℕ) (resp : Bytes) (s : State) {u : Unit {0}}
      → (acknowledge O nl resp s).0 ≡ ok u
      → Accepted resp
  unfolding acknowledge
  acknowledge-Accepted nl resp s h =
      let (r_type, e, h1) =
        resume_inv (reply_type resp) (λ t. lift (refuse_nonzero t resp) >> close nl) s h in
      let (v, e1, h2) = resume_inv (refuse_nonzero r_type resp) (λ _. close nl) s h1 in
      (r_type, e, refuse_nonzero-ok r_type resp e1)

  -- One exchange: the request went out on the socket, and the kernel's reply accepts it.
  pub record Exchanged (ifname : Bytes) (pdr_hashsize sk : ℕ) : Type 0 where
    pub nl : ℕ
    pub msg : Bytes
    pub resp : Bytes
    pub before : State
    pub asks : Requests ifname pdr_hashsize sk O.pid msg
    pub sent : (send nl msg before).0 ≡ ok tt
    pub received : (recv nl 65536 (send nl msg before).1).0 ≡ ok resp
    pub accepted : Accepted resp

  created_after :
      (ifname : Bytes) (gtpu_port pdr_hashsize : ℕ) (s : State) {fd : ℕ}
      → (create_gtp5g_link O ifname gtpu_port pdr_hashsize s).0 ≡ ok fd
      → Exchanged ifname pdr_hashsize fd
  unfolding create_gtp5g_link
  created_after ifname gtpu_port pdr_hashsize s {fd} h =
      let finish = λ (sk nl : ℕ) (resp : Bytes). acknowledge O nl resp >> pure sk in
      let exchange =
        λ (sk : ℕ) (msg : Bytes) (nl : ℕ). send nl msg >> (recv nl 65536 >>= finish sk nl) in
      let (sk, e0, h0) =
        exec_inv (gtpu_socket O gtpu_port)
          (λ sk. lift (link_message ifname pdr_hashsize sk O.pid) >>= λ msg.
            netlink_socket O >>= exchange sk msg)
          s h in
      let s0 = (gtpu_socket O gtpu_port s).1 in
      let (msg, e1, h1) =
        resume_inv (link_message ifname pdr_hashsize sk O.pid)
          (λ msg. netlink_socket O >>= exchange sk msg) s0 h0 in
      let (nl, e2, h2) = exec_inv (netlink_socket O) (exchange sk msg) s0 h1 in
      let s1 = (netlink_socket O s0).1 in
      let (u, e3, h3) = exec_inv (send nl msg) (λ _. recv nl 65536 >>= finish sk nl) s1 h2 in
      let s2 = (send nl msg s1).1 in
      let (resp, e4, h4) = exec_inv (recv nl 65536) (finish sk nl) s2 h3 in
      let s3 = (recv nl 65536 s2).1 in
      let (v, e5, h5) = exec_inv (acknowledge O nl resp) (λ _. pure sk) s3 h4 in
      let same : sk ≡ fd = cc h5 in
      record {
        nl = nl;
        msg = msg;
        resp = resp;
        before = s1;
        asks = rw same at (link_message_read ifname pdr_hashsize sk O.pid e1);
        sent = e3;
        received = e4;
        accepted = acknowledge-Accepted nl resp s3 e5;
      }

-- Over any operating system: if `create_gtp5g_link` returns a socket, a request was sent that asks
-- for a new gtp5g device of this name and hash size with that socket's descriptor, and the kernel's
-- reply to it was no error, or the error 0.
pub create_gtp5g_link_asks :
    (O : Os) (ifname : Bytes) (gtpu_port pdr_hashsize : ℕ) (s : O.State) {fd : ℕ}
    → (create_gtp5g_link O ifname gtpu_port pdr_hashsize s).0 ≡ ok fd
    → Exchanged O ifname pdr_hashsize fd
create_gtp5g_link_asks O ifname gtpu_port pdr_hashsize s h =
    created_after O ifname gtpu_port pdr_hashsize s h
