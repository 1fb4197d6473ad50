-- ===== src/Maps/Worlds.antt =====
-- Rules that follow a run from one world to the next, and what holds beside a run's own account.
use ebpf_upf.Prelude.{List, [], ◌∷◌, ◌≡◌, refl, All}
use ebpf_upf.Python.{Exception, Result, ok, err}
use ebpf_upf.Python.Exec.{Exec, lift, resume, ◌>>=◌}
use ebpf_upf.Maps.{Maps, PinnedMaps}
use ebpf_upf.Maps.Logic.{Ends, Reaches, Triple}

module _ (M : PinnedMaps) where
  open M use {World, content, passed, IsOpen}

  All-trivial : (cs : List Maps) → All (λ _. Unit {0}) cs
  All-trivial [] = tt
  All-trivial (c ∷ cs) = (tt, All-trivial cs)

  -- What an action does at a normal end, beside what it does on the way.
  pub Triple-also :
      {A : Type 0} {J P : Maps → Type 0} {Q : A → Maps → Type 0} {E : Exception → Maps → Type 0}
      {G : Maps → Type 0} {G' : A → Maps → Type 0} (m : Exec World A)
      → Triple M J P m Q E
      → Triple M (λ _. Unit {0}) G m G' (λ e _. Unit {0})
      → Triple M J (λ c. P c × G c) m (λ a c. Q a c × G' a c) E
  Triple-also {A} {J} {P} {Q} {E} {G} {G'} m t u = record {
    run = λ w o s (p, g).
        let k = t.run w o s p in
        let l = u.run w o (All-trivial (passed w)) g in
        record { opened = k.opened; seen = k.seen; ends = both (m w).0 _ k.ends l.ends };
  }
    where
      both :
          (r : Result A) (c : Maps)
          → Ends Q E r c
          → Ends G' (λ e _. Unit {0}) r c
          → Ends (λ a d. Q a d × G' a d) E r c
      both (ok a) c h k = (h, k)
      both (err x) c h k = h

  -- A fact about the world where a run ended joins what its contents satisfy.
  pub Reaches-note :
      {A : Type 0} {F J : Maps → Type 0} {Q : A → Maps → Type 0} {E : Exception → Maps → Type 0}
      {out : Result A × World}
      → F (content out.1)
      → Reaches M J Q E out
      → Reaches M J (λ a m. Q a m × F m) E out
  Reaches-note {A} {F} {J} {Q} {E} {out} f k = record {
    opened = k.opened;
    seen = k.seen;
    ends = noted out.0 k.ends;
  }
    where
      noted :
          (r : Result A)
          → Ends Q E r (content out.1)
          → Ends (λ a m. Q a m × F m) E r (content out.1)
      noted (ok a) h = (h, f)
      noted (err x) h = h

  -- A block goes on in the very world where its first action ended.
  pub Reaches-bind :
      {A B : Type 0} {J : Maps → Type 0} {Q : A → Maps → Type 0} {R : B → Maps → Type 0}
      {E : Exception → Maps → Type 0} (m : Exec World A) (f : A → Exec World B) (w : World)
      → Reaches M J Q E (m w)
      → ((a : A)
          → IsOpen (m w).1
          → All J (passed (m w).1)
          → Q a (content (m w).1)
          → Reaches M J R E (f a (m w).1))
      → Reaches M J R E ((m >>= f) w)
  Reaches-bind {A} {B} {J} {Q} {R} {E} m f w k go = resumed (m w).0 k.ends
    where
      resumed : (r : Result A) → Ends Q E r (content (m w).1) → Reaches M J R E (resume r f (m w).1)
      resumed (ok a) h = go a k.opened k.seen h
      resumed (err x) h = record { opened = k.opened; seen = k.seen; ends = h }

  -- The same after a computation outside the state.
  pub Reaches-bind-lift :
      {A B : Type 0} {J : Maps → Type 0} {R : B → Maps → Type 0} {E : Exception → Maps → Type 0}
      (r : Result A) (f : A → Exec World B) (w : World)
      → IsOpen w
      → All J (passed w)
      → ((a : A) → r ≡ ok a → Reaches M J R E (f a w))
      → ((e : Exception) → r ≡ err e → E e (content w))
      → Reaches M J R E ((lift r >>= f) w)
  Reaches-bind-lift (ok a) f w o s go stop = go a refl
  Reaches-bind-lift (err e) f w o s go stop = record { opened = o; seen = s; ends = stop e refl }
