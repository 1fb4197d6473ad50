-- ===== src/Python/Runs.antt =====
-- Rules for actions on any state that may raise: where each ends from a state with `P`.
use ebpf_upf.Prelude.{◌≡◌, refl}
use ebpf_upf.Python.{Exception, Result, ok, err}
use ebpf_upf.Python.Exec.{Exec, lift, resume, ◌>>=◌}

-- A normal end satisfies `Q`, an exception `E`.
abbrev pub Post :
    {S A : Type 0} → (A → S → Type 0) → (Exception → S → Type 0) → Result A → S → Type 0
Post Q E (ok a) s = Q a s
Post Q E (err e) s = E e s

pub record Run {S A : Type 0} (P : S → Type 0) (m : Exec S A) (Q : A → S → Type 0)
    (E : Exception → S → Type 0) : Type 0 where
  pub run : (s : S) → P s → Post Q E (m s).0 (m s).1

module _ {S : Type 0} {E : Exception → S → Type 0} where
  resume_from :
      {A B : Type 0} {Q : A → S → Type 0} {R : B → S → Type 0} (f : A → Exec S B)
      → ((a : A) → Run (Q a) (f a) R E)
      → (r : Result A) (s : S) → Post Q E r s
      → Post R E (resume r f s).0 (resume r f s).1
  resume_from f h (ok a) s q = (h a).run s q
  resume_from f h (err e) s x = x

  pub Run-bind :
      {A B : Type 0} {P : S → Type 0} {Q : A → S → Type 0} {R : B → S → Type 0} {m : Exec S A}
      {f : A → Exec S B}
      → Run P m Q E
      → ((a : A) → Run (Q a) (f a) R E)
      → Run P (m >>= f) R E
  Run-bind {m} {f} hm hf = record { run = λ s p. resume_from f hf (m s).0 (m s).1 (hm.run s p) }

  -- A block that begins with a computation outside the state.
  pub Run-lift :
      {A B : Type 0} {P : S → Type 0} {R : B → S → Type 0} (r : Result A) {f : A → Exec S B}
      → ((a : A) → r ≡ ok a → Run P (f a) R E)
      → ((e : Exception) → r ≡ err e → (s : S) → P s → E e s)
      → Run P (lift r >>= f) R E
  Run-lift (ok a) go stop = record { run = λ s p. (go a refl).run s p }
  Run-lift (err e) go stop = record { run = λ s p. stop e refl s p }

pub Post-weaken :
    {S A : Type 0} {Q Q' : A → S → Type 0} {E E' : Exception → S → Type 0}
    → ((a : A) (s : S) → Q a s → Q' a s)
    → ((e : Exception) (s : S) → E e s → E' e s)
    → (r : Result A) (s : S) → Post Q E r s
    → Post Q' E' r s
Post-weaken q x (ok a) s h = q a s h
Post-weaken q x (err e) s h = x e s h

pub Run-conclude :
    {S A : Type 0} {P : S → Type 0} {Q Q' : A → S → Type 0} {E E' : Exception → S → Type 0}
    {m : Exec S A}
    → ((a : A) (s : S) → Q a s → Q' a s)
    → ((e : Exception) (s : S) → E e s → E' e s)
    → Run P m Q E
    → Run P m Q' E'
Run-conclude {m} q x h = record { run = λ s p. Post-weaken q x (m s).0 (m s).1 (h.run s p) }
