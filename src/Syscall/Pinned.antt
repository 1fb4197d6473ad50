-- ===== src/Syscall/Pinned.antt =====
-- One call through the descriptor cache of loader/bpf_syscall.py, seen by the names of the maps.
use text.Mathlib.TextLemmas.{append_cancel_left}
use ebpf_upf.Prelude.{
  ℤ, ℕ, String, ◌≤◌, ◌≡◌, ◌≢◌, sym, ap, ◌∙◌, subst, List, [], ◌∷◌, ◌⊎◌, inl, inr, map, length,
  length-append, take, take-append, All, arith,
}
use ebpf_upf.Python.{Result, ok, err, os_error}
use ebpf_upf.Python.Exec.{Exec, pure, ◌>>=◌}
use ebpf_upf.Python.Struct.{Bytes}
use ebpf_upf.Maps.{Maps, WroteAs, Wrote, Erased, value_size, is_lru}
use ebpf_upf.Kernel.{Attr, Reply, Kernel}
use ebpf_upf.Syscall.{World, bpf, buffer_of, pinned_path, fd}
use ebpf_upf.Syscall.Effects.{IsOpen, Opened, fd_opens, after, after-IsOpen, call_state}

module _ (K : Kernel) (pin_base : String)
    (sizes : (n : String) → K.value_bytes (pinned_path K pin_base n) ≡ value_size n)
    (lrus : (n : String) → K.lru (pinned_path K pin_base n) ≡ is_lru n) where
  open K use {State}

  abbrev pub path : String → String
  path = pinned_path K pin_base

  -- The contents by name.
  abbrev pub named : State → Maps
  named s n = K.stored s (path n)

  abbrev pub content : World State → Maps
  content w = named w.kernel

  abbrev pub passed : World State → List Maps
  passed w = map named w.trace

  path-ne : {n n' : String} → n' ≢ n → path n' ≢ path n
  path-ne h e = h (append_cancel_left _ _ _ (append_cancel_left _ _ _ e))

  pub named-Wrote :
      (n : String) (k v : Bytes) (s s' : State)
      → WroteAs (K.lru (path n)) (path n) k v (K.stored s) (K.stored s')
      → Wrote n k v (named s) (named s')
  named-Wrote n k v s s' w = record {
    here = w.here;
    elsewhere = rw lrus at w.elsewhere;
    others = λ n' h. w.others (path n') (path-ne h);
  }

  pub named-Erased :
      (n : String) (k : Bytes) (s s' : State)
      → Erased (path n) k (K.stored s) (K.stored s')
      → Erased n k (named s) (named s')
  named-Erased n k s s' w = record {
    here = w.here;
    elsewhere = w.elsewhere;
    others = λ n' h. w.others (path n') (path-ne h);
  }

  -- The kernel reads the bytes of a buffer, and not the NUL behind them.
  pub take-buffer_of : (m : ℕ) (b : Bytes) → length b ≡ m → take m (buffer_of b) ≡ b
  take-buffer_of m b h = subst (λ n. take n (buffer_of b) ≡ b) h (take-append b (0 ∷ []))

  pub length-buffer_of : (b : Bytes) → length b ≤ length (buffer_of b)
  length-buffer_of b = omega (arith, length-append b (0 ∷ []))

  -- After `fd`: the contents are those from before, and so are any that were passed.
  module _ (n : String) (w : World State) (o : IsOpen K pin_base w) where
    abbrev pub opening : Opened K pin_base n w (fd K pin_base n w)
    opening = fd_opens K pin_base n w o

    abbrev pub w1 : World State
    w1 = (fd K pin_base n w).1

    pub content-fd : content w1 ≡ content w
    content-fd = ap {B = Maps} (λ (c : Maps) (m : String). c (path m)) opening.same

    pub passed-fd : (J : Maps → Type 0) → J (content w) → All J (passed w) → All J (passed w1)
    passed-fd J j s = elim opening.traced [ inl e ↦ rw e s | inr e ↦ rw e (rw content-fd j, s) ]

  -- A call through an opened descriptor ends in `after cmd a w1`; without one, in `w1`.
  module _ {A : Type 0} (n : String) (w : World State) (o : IsOpen K pin_base w)
      (f : ℕ → Exec (World State) A) where
    abbrev pub run : Result A × World State
    run = (fd K pin_base n >>= f) w

    pub run_ok : (d : ℕ) → (fd K pin_base n w).0 ≡ ok d → run ≡ f d (w1 n w o)
    run_ok d e = rw e

    pub run_err :
        (x : ℤ) → (fd K pin_base n w).0 ≡ err (os_error x) → run ≡ (err (os_error x), w1 n w o)
    run_err x e = rw e

    -- Either way, with the calls that `f` makes.
    module _ (cmd : ℕ) (a : ℕ → Attr) (g : Reply → A)
        (calls : (d : ℕ) (v : World State)
          → f d v ≡ (bpf K cmd (a d) >>= λ reply. pure (g reply)) v) where
      pub run_state : (run.1 ≡ w1 n w o) ⊎ ((d : ℕ) × (run.1 ≡ after K cmd (a d) (w1 n w o)))
      run_state = elim (opening n w o).result [
        | inl (d, e, r) ↦ inr (
          d,
          ap (λ (p : Result A × World State). p.1) (run_ok d e ∙ calls d (w1 n w o))
              ∙ call_state K cmd (a d) g (w1 n w o),
        )
        | inr (x, e) ↦ inl (ap (λ (p : Result A × World State). p.1) (run_err x e))
      ]

      pub run_IsOpen : IsOpen K pin_base run.1
      run_IsOpen = elim run_state [
        | inl e ↦ subst (IsOpen K pin_base) (sym e) (opening n w o).opened
        | inr (d, e) ↦
            subst (IsOpen K pin_base) (sym e)
              (after-IsOpen K pin_base cmd (a d) (w1 n w o) (opening n w o).opened)
      ]

      pub run_passed :
          (J : Maps → Type 0)
          → J (content w)
          → J (content run.1)
          → All J (passed w)
          → All J (passed run.1)
      run_passed J j j' s = elim run_state [
        | inl e ↦ subst (λ v. All J (passed v)) (sym e) (passed-fd n w o J j s)
        | inr (d, e) ↦
            subst (λ v. All J (passed v)) (sym e)
              (subst (λ v. J (content v)) e j', passed-fd n w o J j s)
      ]
