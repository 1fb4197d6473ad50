-- ===== src/Examples/Pfcp.antt =====
-- The client of the other UPF, over a network whose UPF stays silent.
use ebpf_upf.Prelude.{ℕ, ◌≡◌, refl, ap, List, [], ◌∷◌}
use ebpf_upf.Python.{ok, timeout}
use ebpf_upf.Python.Exec.{pure, raise}
use ebpf_upf.Python.Runs.{Post}
use ebpf_upf.Pfcp.{Network, main}
use ebpf_upf.Pfcp.Once.{Datagram, Documented, SentOnce, Stopped, main_sends_once}

-- The state is what was sent.
abbrev silent : Network
silent = record {
  State = List Datagram;
  Reply = ℕ;
  socket = λ family type. pure 3;
  bind = λ sock host port. pure tt;
  sendto = λ sock b host port l. (ok tt, record { payload = b; host = host; port = port } ∷ l);
  settimeout = λ sock seconds. pure tt;
  recvfrom = λ sock size. raise timeout;
  close = λ sock. pure tt;
  encode = λ m. ok (m.version ∷ m.seq ∷ []);
  decode = λ b. ok 0;
  message_type = λ kind. ok kind;
  print = λ line. pure tt;
}

abbrev silent_documented : Documented silent
silent_documented = record {
  sent = λ l. l;
  socket_quiet = λ family type l. record { run = λ s h. h };
  bind_quiet = λ sock host port l. record { run = λ s h. h };
  settimeout_quiet = λ sock seconds l. record { run = λ s h. h };
  recvfrom_silent = λ sock size l. record { run = λ s h. h };
  close_quiet = λ sock l. record { run = λ s h. h };
  print_quiet = λ line l. record { run = λ s h. h };
  encode_other = λ m e h. cc h;
  sendto_once = λ sock b host port l. record {
    run = λ s h. ap (λ k. record { payload = b; host = host; port = port } ∷ k) h;
  };
}

test_main : (main silent []).0 ≡ ok tt
unfolding main
test_main = refl

main_sends_once_example :
    Post
      (λ u. SentOnce silent silent_documented [])
      (Stopped silent silent_documented [])
      (main silent []).0
      (main silent []).1
main_sends_once_example = main_sends_once silent silent_documented []
