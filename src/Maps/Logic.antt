-- ===== src/Maps/Logic.antt =====
-- Rules for sequences of map operations, over any implementation of the interface.
use ebpf_upf.Prelude.{ℤ, String, List, [], ◌∷◌, ◌≡◌, refl, inl, inr, some, length, All}
use ebpf_upf.Python.{Exception, Result, ok, err, os_error}
use ebpf_upf.Python.Exec.{Exec, pure, raise, lift, resume, except_os_error, ◌>>=◌}
use ebpf_upf.Python.Struct.{Bytes, IsByte}
use ebpf_upf.Maps.{Maps, PinnedMaps, Fits, Wrote, Erased, key_size, value_size}

-- Where an action ends: normally with `Q`, or by an exception with `E`.
abbrev pub Ends :
    {A : Type 0} → (A → Maps → Type 0) → (Exception → Maps → Type 0) → Result A → Maps → Type 0
Ends Q E (ok a) m = Q a m
Ends Q E (err e) m = E e m

module _ (M : PinnedMaps) where
  open M use {World, update, lookup, delete, content, passed, IsOpen}

  -- All contents that packets could see satisfy `J`, and the last ones `Q` or `E`.
  pub record Reaches {A : Type 0} (J : Maps → Type 0) (Q : A → Maps → Type 0)
      (E : Exception → Maps → Type 0) (out : Result A × World) : Type 0 where
    pub opened : IsOpen out.1
    pub seen : All J (passed out.1)
    pub ends : Ends Q E out.0 (content out.1)

  -- Started in any world where all that was seen is fine and the contents satisfy `P`.
  pub record Triple {A : Type 0} (J P : Maps → Type 0) (m : Exec World A) (Q : A → Maps → Type 0)
      (E : Exception → Maps → Type 0) : Type 0 where
    pub run : (w : World) → IsOpen w → All J (passed w) → P (content w) → Reaches J Q E (m w)

  module _ {J : Maps → Type 0} {E : Exception → Maps → Type 0} where
    pub Triple-pure :
        {A : Type 0} {P : Maps → Type 0} {Q : A → Maps → Type 0} (a : A)
        → ((m : Maps) → P m → Q a m)
        → Triple J P (pure a) Q E
    Triple-pure a f = record {
      run = λ w o s p. record { opened = o; seen = s; ends = f (content w) p };
    }

    pub Triple-raise :
        {A : Type 0} {P : Maps → Type 0} {Q : A → Maps → Type 0} (e : Exception)
        → ((m : Maps) → P m → E e m)
        → Triple J P (raise {A = A} e) Q E
    Triple-raise e f = record {
      run = λ w o s p. record { opened = o; seen = s; ends = f (content w) p };
    }

    -- A computation outside the state, such as an encoding.
    pub Triple-lift :
        {A : Type 0} {P : Maps → Type 0} {Q : A → Maps → Type 0} (r : Result A)
        → ((a : A) (m : Maps) → r ≡ ok a → P m → Q a m)
        → ((e : Exception) (m : Maps) → r ≡ err e → P m → E e m)
        → Triple J P (lift r) Q E
    Triple-lift (ok a) f g = Triple-pure a (λ m p. f a m refl p)
    Triple-lift (err e) f g = Triple-raise e (λ m p. g e m refl p)

    Reaches-resume :
        {A B : Type 0} {Q : A → Maps → Type 0} {R : B → Maps → Type 0} (f : A → Exec World B)
        → ((a : A) → Triple J (Q a) (f a) R E)
        → (r : Result A) (w : World) → Reaches J Q E (r, w)
        → Reaches J R E (resume r f w)
    Reaches-resume f h (ok a) w k = (h a).run w k.opened k.seen k.ends
    Reaches-resume f h (err e) w k = record { opened = k.opened; seen = k.seen; ends = k.ends }

    pub Triple-bind :
        {A B : Type 0} {P : Maps → Type 0} {Q : A → Maps → Type 0} {R : B → Maps → Type 0}
        {m : Exec World A} {f : A → Exec World B}
        → Triple J P m Q E
        → ((a : A) → Triple J (Q a) (f a) R E)
        → Triple J P (m >>= f) R E
    Triple-bind {m} {f} hm hf = record {
      run = λ w o s p. Reaches-resume f hf (m w).0 (m w).1 (hm.run w o s p);
    }

    -- One update: from `P`, a successful write ends in `Q`, and `J` holds before and after.
    pub Triple-update :
        {P Q : Maps → Type 0} (n : String) (k v : Bytes)
        → Fits n k v
        → ((m : Maps) → P m → J m)
        → ((m : Maps) → Q m → J m)
        → ((e : ℤ) (m : Maps) → P m → E (os_error e) m)
        → ((m m' : Maps) → P m → Wrote n k v m m' → Q m')
        → Triple J P (update n k v) (λ _. Q) E
    Triple-update {P} {Q} n k v fits PJ QJ PE step = record {
      run = λ w o s p. elim (M.update_effect n k v w o fits) [
        | inl (e, wrote) ↦
            let q = step (content w) (content (update n k v w).1) p wrote in
            record {
              opened = M.update_IsOpen n k v w o;
              seen =
                  M.update_passed J n k v w o (PJ (content w) p) (QJ (content (update n k v w).1) q)
                    s;
              ends = rw e q;
            }
        | inr (x, e, same) ↦ record {
          opened = M.update_IsOpen n k v w o;
          seen = M.update_passed J n k v w o (PJ (content w) p) (rw same (PJ (content w) p)) s;
          ends = rw (e, same) (PE x (content w) p);
        }
      ];
    }

    -- One deletion whose `OSError` is ignored.
    pub Triple-delete :
        {P Q : Maps → Type 0} (n : String) (k : Bytes)
        → length k ≡ key_size
        → ((m : Maps) → P m → J m)
        → ((m : Maps) → Q m → J m)
        → ((m : Maps) → P m → Q m)
        → ((m m' : Maps) → P m → Erased n k m m' → Q m')
        → Triple J P (except_os_error (delete n k)) (λ _. Q) E
    Triple-delete {P} {Q} n k fits PJ QJ PQ step = record {
      run = λ w o s p. elim (M.delete_effect n k w o fits) [
        | inl (e, erased) ↦
            let q = step (content w) (content (delete n k w).1) p erased in
            record {
              opened = M.delete_IsOpen n k w o;
              seen =
                  M.delete_passed J n k w o (PJ (content w) p) (QJ (content (delete n k w).1) q) s;
              ends = rw e q;
            }
        | inr (x, e, same) ↦ record {
          opened = M.delete_IsOpen n k w o;
          seen = M.delete_passed J n k w o (PJ (content w) p) (rw same (PJ (content w) p)) s;
          ends = rw (e, same) (PQ (content w) p);
        }
      ];
    }

    -- A lookup returns what the map holds, or raises and has changed nothing.
    pub Triple-lookup :
        {P : Maps → Type 0} (n : String) (k : Bytes)
        → length k ≡ key_size
        → ((m : Maps) → P m → J m)
        → ((e : ℤ) (m : Maps) → P m → E (os_error e) m)
        → Triple J P
            (lookup n k (value_size n))
            (λ b m. P m × (m n k ≡ some b) × (length b ≡ value_size n) × All IsByte b)
            E
    Triple-lookup {P} n k fits PJ PE = record {
      run = λ w o s p.
          let z = value_size n in
          let same = M.lookup_content n k z w o in
          let j = PJ (content w) p in
          let sized = λ (b : Bytes) (h : content w n k ≡ some b). M.content_size n k b w o h in
          let seen' = M.lookup_passed J n k z w o j (rw same j) s in
          elim (M.lookup_effect n k w o fits) [
            | inl (b, e, found) ↦ record {
              opened = M.lookup_IsOpen n k z w o;
              seen = seen';
              ends = rw (e, same) (p, found, (sized b found).0, (sized b found).1);
            }
            | inr (x, e) ↦ record {
              opened = M.lookup_IsOpen n k z w o;
              seen = seen';
              ends = rw (e, same) (PE x (content w) p);
            }
          ];
    }

    pub Triple-weaken :
        {A : Type 0} {P P' : Maps → Type 0} {Q : A → Maps → Type 0} {m : Exec World A}
        → ((c : Maps) → P' c → P c)
        → Triple J P m Q E
        → Triple J P' m Q E
    Triple-weaken f t = record { run = λ w o s p. t.run w o s (f (content w) p) }

    -- A fact that the contents show may be used to continue.
    pub Triple-fact :
        {A F : Type 0} {P : Maps → Type 0} {Q : A → Maps → Type 0} {m : Exec World A}
        → ((c : Maps) → P c → F)
        → (F → Triple J P m Q E)
        → Triple J P m Q E
    Triple-fact f t = record { run = λ w o s p. (t (f (content w) p)).run w o s p }

    -- A block that begins with a computation outside the state goes on only if that succeeds.
    pub Triple-bind-lift :
        {A B : Type 0} {P : Maps → Type 0} {Q : B → Maps → Type 0} (r : Result A)
        {f : A → Exec World B}
        → ((a : A) → r ≡ ok a → Triple J P (f a) Q E)
        → ((e : Exception) → r ≡ err e → (m : Maps) → P m → E e m)
        → Triple J P (lift r >>= f) Q E
    Triple-bind-lift (ok a) go stop = record { run = λ w o s p. (go a refl).run w o s p }
    Triple-bind-lift (err e) go stop = record {
      run = λ w o s p. record { opened = o; seen = s; ends = stop e refl (content w) p };
    }

  module _ {A : Type 0} {Q Q' : A → Maps → Type 0} {E E' : Exception → Maps → Type 0}
      (q : (a : A) (c : Maps) → Q a c → Q' a c)
      (e : (x : Exception) (c : Maps) → E x c → E' x c) where
    Ends-weaker : (r : Result A) (c : Maps) → Ends Q E r c → Ends Q' E' r c
    Ends-weaker (ok a) c h = q a c h
    Ends-weaker (err x) c h = e x c h

    -- A weaker conclusion.
    pub Triple-conclude :
        {J P : Maps → Type 0} {m : Exec World A} → Triple J P m Q E → Triple J P m Q' E'
    Triple-conclude {m} t = record {
      run = λ w o s p.
          let k = t.run w o s p in
          record {
            opened = k.opened;
            seen = k.seen;
            ends = Ends-weaker (m w).0 (content (m w).1) k.ends;
          };
    }

  All-weaken :
      {J J' : Maps → Type 0} → ((c : Maps) → J c → J' c) → (cs : List Maps) → All J cs → All J' cs
  All-weaken f [] h = tt
  All-weaken f (c ∷ cs) (h, hs) = (f c h, All-weaken f cs hs)

  -- A weaker conclusion, about the contents on the way too.
  pub Reaches-weaken :
      {A : Type 0} {J J' : Maps → Type 0} {Q Q' : A → Maps → Type 0}
      {E E' : Exception → Maps → Type 0} {out : Result A × World}
      → ((c : Maps) → J c → J' c)
      → ((a : A) (c : Maps) → Q a c → Q' a c)
      → ((x : Exception) (c : Maps) → E x c → E' x c)
      → Reaches J Q E out
      → Reaches J' Q' E' out
  Reaches-weaken {out} j q e k = record {
    opened = k.opened;
    seen = All-weaken j (passed out.1) k.seen;
    ends = Ends-weaker q e out.0 (content out.1) k.ends;
  }
