-- ===== src/Syscall/Effects.antt =====
-- What each wrapper of loader/bpf_syscall.py returns, raises and leaves behind.
use ebpf_upf.Prelude.{
  ℤ, pos, negsuc, ℕ, String, ◌≡◌, refl, ◌∷◌, none, some, ◌⊎◌, inl, inr, eq_iff, Option-cases, arith,
}
use ebpf_upf.Python.{Result, ok, err, os_error}
use ebpf_upf.Python.Exec.{pure, ◌>>=◌}
use ebpf_upf.Kernel.{Attr, obj, Reply, Kernel, IsSuccess, IsFailure}
use ebpf_upf.Syscall.{World, sizeof, bpf, find_fd, pinned_path, fd, bpf_obj_get}

module _ (K : Kernel) where
  open K use {State}

  abbrev pub reply_of : ℕ → Attr → World State → Reply
  reply_of cmd a w = (K.bpf cmd a (sizeof a) w.kernel).0

  -- The world after one system call, whether it succeeded or not.
  abbrev pub after : ℕ → Attr → World State → World State
  after cmd a w =
      let s = (K.bpf cmd a (sizeof a) w.kernel).1 in record w { kernel = s; trace = s ∷ w.trace }

  module _ {A : Type 0} (cmd : ℕ) (a : Attr) (f : Reply → A) (w : World State) where
    abbrev pub call : Result A × World State
    call = (bpf K cmd a >>= λ reply. pure (f reply)) w

    pub call_ok :
        IsSuccess (reply_of cmd a w).ret → call ≡ (ok (f (reply_of cmd a w)), after cmd a w)
    unfolding bpf
    call_ok (n, e) = ground arith

    pub call_err :
        IsFailure (reply_of cmd a w).ret
        → call ≡ (err (os_error (pos (reply_of cmd a w).errno)), after cmd a w)
    unfolding bpf
    call_err (n, e) = ground arith

    pub call_state : call.1 ≡ after cmd a w
    unfolding bpf
    call_state = ground arith

    pub call_cases : (IsSuccess (reply_of cmd a w).ret) ⊎ (IsFailure (reply_of cmd a w).ret)
    call_cases = elim (reply_of cmd a w).ret as (λ r. IsSuccess r ⊎ IsFailure r) [
      | pos n ↦ inl (n, refl)
      | negsuc n ↦ inr (n, refl)
    ]

  module _ (pin_base : String) where
    -- Every cached descriptor refers to the map that it is cached for.
    pub record IsOpen (w : World State) : Type 0 where
      pub valid : K.IsValid w.kernel
      pub cached :
          (name : String) (d : ℕ)
          → find_fd name w.fds ≡ some d
          → K.refers w.kernel d ≡ some (pinned_path K pin_base name)

    pub after-IsOpen : (cmd : ℕ) (a : Attr) (w : World State) → IsOpen w → IsOpen (after cmd a w)
    after-IsOpen cmd a w o = record {
      valid = K.bpf_IsValid cmd a (sizeof a) w.kernel o.valid;
      cached = λ name d h.
          K.refers_kept cmd a (sizeof a) w.kernel d (pinned_path K pin_base name)
            (o.cached name d h);
    }

    -- A cache miss adds the new descriptor.
    remember-IsOpen :
        (name : String) (d : ℕ) (w : World State)
        → IsOpen w
        → K.refers w.kernel d ≡ some (pinned_path K pin_base name)
        → IsOpen (record w { fds = (name, d) ∷ w.fds })
    remember-IsOpen name d w o e = record {
      valid = o.valid;
      cached = λ n x. unfold find_fd in (ground (arith, eq_iff name n, o.cached n x));
    }

    -- The outcome of `fd`.
    pub record Opened (name : String) (w : World State) (out : Result ℕ × World State)
        : Type 0 where
      pub opened : IsOpen out.1
      pub same : K.stored out.1.kernel ≡ K.stored w.kernel
      pub traced : (out.1.trace ≡ w.trace) ⊎ (out.1.trace ≡ out.1.kernel ∷ w.trace)
      pub result :
          ((d : ℕ) × (out.0 ≡ ok d)
            × (K.refers out.1.kernel d ≡ some (pinned_path K pin_base name)))
          ⊎ ((e : ℤ) × (out.0 ≡ err (os_error e)))

    pub fd_hit :
        (name : String) (w : World State) (d : ℕ)
        → find_fd name w.fds ≡ some d
        → fd K pin_base name w ≡ (ok d, w)
    unfolding fd
    fd_hit name w d h = rw h

    pub fd_miss_ok :
        (name : String) (w : World State) (d : ℕ)
        → find_fd name w.fds ≡ none
        → let a = obj (pinned_path K pin_base name) 0 0 in
          (reply_of 7 a w).ret ≡ pos d
          → fd K pin_base name w ≡ (ok d, record (after 7 a w) { fds = (name, d) ∷ w.fds })
    unfolding fd bpf_obj_get
    fd_miss_ok name w d h e = ground arith

    pub fd_miss_err :
        (name : String) (w : World State)
        → find_fd name w.fds ≡ none
        → let a = obj (pinned_path K pin_base name) 0 0 in
          IsFailure (reply_of 7 a w).ret
          → fd K pin_base name w ≡ (err (os_error (pos (reply_of 7 a w).errno)), after 7 a w)
    unfolding fd bpf_obj_get
    fd_miss_err name w h (n, e) = ground arith

    pub fd_opens :
        (name : String) (w : World State) → IsOpen w → Opened name w (fd K pin_base name w)
    fd_opens name w o = elim (Option-cases (find_fd name w.fds)) [
      | inr (d, h) ↦ rw (fd_hit name w d h) (record {
        opened = o;
        same = refl;
        traced = inl refl;
        result = inl (d, refl, o.cached name d h);
      })
      | inl h ↦
          let p = pinned_path K pin_base name in
          let (same, outcome) = K.obj_get_effect p w.kernel in
          let o' = after-IsOpen 7 (obj p 0 0) w o in
          elim outcome [
            | inl (d, e, r) ↦ rw (fd_miss_ok name w d h e) (record {
              opened = remember-IsOpen name d (after 7 (obj p 0 0) w) o' r;
              same = same;
              traced = inr refl;
              result = inl (d, refl, r);
            })
            | inr fails ↦ rw (fd_miss_err name w h fails) (record {
              opened = o';
              same = same;
              traced = inr refl;
              result = inr (pos (reply_of 7 (obj p 0 0) w).errno, refl);
            })
          ]
    ]
