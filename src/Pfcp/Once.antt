-- ===== src/Pfcp/Once.antt =====
-- The client sends its request once, and survives the silence of the UPF.
use ebpf_upf.Prelude.{ℕ, ◌≡◌, refl, String, List, ◌∷◌, ◌⊎◌, inl, inr}
use ebpf_upf.Python.{
  Exception, Result, ok, err, os_error, struct_error, index_error, key_error, value_error,
  type_error, runtime_error, zero_division_error, timeout,
}
use ebpf_upf.Python.Exec.{Exec}
use ebpf_upf.Python.Runs.{Post, Post-weaken, Run, Run-bind, Run-lift, Run-conclude}
use ebpf_upf.Python.Struct.{Bytes}
use ebpf_upf.Pfcp.Request.{Message, sess_est}
use ebpf_upf.Pfcp.{
  Line, Network, response, timed_out, upf_host, upf_port, on_timeout, except_timeout, receive,
  give_up, send_recv, main,
}

pub record Datagram : Type 0 where
  pub payload : Bytes
  pub host : String
  pub port : ℕ

-- An exception that no timeout is.
abbrev pub IsOther : Exception → Type 0
IsOther timeout = ⊥
IsOther e = Unit

-- An operation that sends nothing; on an exception that is no timeout, or on any.
abbrev pub Quiet : {S A : Type 0} → (S → List Datagram) → Exec S A → Type 0
Quiet {S} sent m =
    (l : List Datagram)
    → Run (λ s. sent s ≡ l) m (λ a s. sent s ≡ l) (λ e s. (sent s ≡ l) × IsOther e)

abbrev pub Silent : {S A : Type 0} → (S → List Datagram) → Exec S A → Type 0
Silent {S} sent m =
    (l : List Datagram) → Run (λ s. sent s ≡ l) m (λ a s. sent s ≡ l) (λ e s. sent s ≡ l)

-- What the documentation says of sockets, as far as it matters here: `sendto` sends its datagram, or
-- raises an exception and sends none; the other calls send nothing; and a timeout comes only out of
-- the receipt, since no timeout is set before it.
pub record Documented (N : Network) : Type 1 where
  pub sent : N.State → List Datagram
  pub socket_quiet : (family type : ℕ) → Quiet sent (N.socket family type)
  pub bind_quiet : (sock : ℕ) (host : String) (port : ℕ) → Quiet sent (N.bind sock host port)
  pub settimeout_quiet : (sock seconds : ℕ) → Quiet sent (N.settimeout sock seconds)
  pub recvfrom_silent : (sock size : ℕ) → Silent sent (N.recvfrom sock size)
  pub close_quiet : (sock : ℕ) → Quiet sent (N.close sock)
  pub print_quiet : (line : Line) → Quiet sent (N.print line)
  pub encode_other : (m : Message) (e : Exception) → N.encode m ≡ err e → IsOther e
  pub sendto_once :
      (sock : ℕ) (b : Bytes) (host : String) (port : ℕ) (l : List Datagram)
      → Run
          (λ s. sent s ≡ l)
          (N.sendto sock b host port)
          (λ u s. sent s ≡ record { payload = b; host = host; port = port } ∷ l)
          (λ e s. (sent s ≡ l) × IsOther e)

module _ (N : Network) (D : Documented N) (l : List Datagram) where
  -- The request went to the UPF, once.
  abbrev pub SentOnce : N.State → Type 0
  SentOnce s =
      (b : Bytes) × (N.encode sess_est ≡ ok b)
      × (D.sent s ≡ record { payload = b; host = upf_host; port = upf_port } ∷ l)

  abbrev pub Stopped : Exception → N.State → Type 0
  Stopped e s = ((D.sent s ≡ l) ⊎ SentOnce s) × IsOther e

  -- Before the request is sent.
  before :
      {A : Type 0} {m : Exec N.State A}
      → Quiet D.sent m
      → Run (λ s. D.sent s ≡ l) m (λ a s. D.sent s ≡ l) Stopped
  before q = Run-conclude (λ a s h. h) (λ e s h. (inl h.0, h.1)) (q l)

  -- After it was sent.
  behind :
      {A : Type 0} {m : Exec N.State A} → Quiet D.sent m → Run SentOnce m (λ a. SentOnce) Stopped
  behind {m} q = record {
    run = λ s (b, made, h).
        Post-weaken (λ a s' k. (b, made, k)) (λ e s' k. (inr (b, made, k.0), k.1)) (m s).0 (m s).1
          ((q (record { payload = b; host = upf_host; port = upf_port } ∷ l)).run s h);
  }

  silent :
      {A : Type 0} {m : Exec N.State A}
      → Silent D.sent m
      → Run SentOnce m (λ a. SentOnce) (λ e. SentOnce)
  silent {m} q = record {
    run = λ s (b, made, h).
        Post-weaken (λ a s' k. (b, made, k)) (λ e s' k. (b, made, k)) (m s).0 (m s).1
          ((q (record { payload = b; host = upf_host; port = upf_port } ∷ l)).run s h);
  }

  after_timeout :
      {A : Type 0} (handler : Exec N.State A)
      → Run SentOnce handler (λ a. SentOnce) Stopped
      → (r : Result A) (s : N.State) → Post (λ a. SentOnce) (λ e. SentOnce) r s
      → Post (λ a. SentOnce) Stopped (on_timeout handler r s).0 (on_timeout handler r s).1
  after_timeout handler h (ok a) s p = p
  after_timeout handler h (err timeout) s p = h.run s p
  after_timeout handler h (err (os_error x)) s p = (inr p, tt)
  after_timeout handler h (err struct_error) s p = (inr p, tt)
  after_timeout handler h (err index_error) s p = (inr p, tt)
  after_timeout handler h (err key_error) s p = (inr p, tt)
  after_timeout handler h (err value_error) s p = (inr p, tt)
  after_timeout handler h (err type_error) s p = (inr p, tt)
  after_timeout handler h (err runtime_error) s p = (inr p, tt)
  after_timeout handler h (err zero_division_error) s p = (inr p, tt)

  receives :
      (sock : ℕ) (label : String)
      → Run SentOnce (receive N sock label) (λ a. SentOnce) (λ e. SentOnce)
  unfolding receive
  receives sock label = Run-bind (silent (D.recvfrom_silent sock 4096)) (λ data_in.
      Run-lift (N.decode data_in)
        (λ resp made.
          Run-lift (N.message_type resp)
            (λ kind known.
              Run-bind
                (silent (λ k.
                  Run-conclude (λ a s h. h) (λ e s h. h.0) (D.print_quiet (response label kind) k)))
                (λ u. record { run = λ s h. h }))
            (λ e x s h. h))
        (λ e x s h. h))

  gives_up : (label : String) → Run SentOnce (give_up N label) (λ a. SentOnce) Stopped
  unfolding give_up
  gives_up label =
      Run-bind (behind (D.print_quiet (timed_out label))) (λ u. record { run = λ s h. h })

  exchanges :
      (sock : ℕ) (label : String)
      → Run SentOnce
          (except_timeout (receive N sock label) (give_up N label))
          (λ a. SentOnce)
          Stopped
  exchanges sock label = record {
    run = λ s h.
        let out = receive N sock label s in
        after_timeout (give_up N label) (gives_up label) out.0 out.1
          ((receives sock label).run s h);
  }

  sends :
      (sock : ℕ) (label : String)
      → Run (λ s. D.sent s ≡ l) (send_recv N sess_est sock label) (λ a. SentOnce) Stopped
  unfolding send_recv
  sends sock label =
      Run-lift (N.encode sess_est)
        (λ b made.
          Run-bind
            (Run-conclude (λ u s h. (b, made, h)) (λ e s h. (inl h.0, h.1))
              (D.sendto_once sock b upf_host upf_port l))
            (λ u. Run-bind (behind (D.settimeout_quiet sock 3)) (λ v. exchanges sock label)))
        (λ e bad s h. (inl h, D.encode_other sess_est e bad))

  runs : Run (λ s. D.sent s ≡ l) (main N) (λ u. SentOnce) Stopped
  unfolding main
  runs = Run-bind (before (D.socket_quiet 2 2)) (λ sock.
      Run-bind (before (D.bind_quiet sock "0.0.0.0" 0))
        (λ u. Run-bind (sends sock _) (λ reply. behind (D.close_quiet sock))))

-- Over any network with the documented behaviour, and whatever the other side answers: a normal end
-- of the client has sent its request, to port 8805 of this host, exactly once; an exception has sent
-- it once or not at all, and is no timeout: a UPF that stays silent does not stop the client.
pub main_sends_once :
    (N : Network) (D : Documented N) (s : N.State)
    → Post (λ u. SentOnce N D (D.sent s)) (Stopped N D (D.sent s)) (main N s).0 (main N s).1
main_sends_once N D s = (runs N D (D.sent s)).run s refl
