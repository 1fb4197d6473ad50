-- ===== src/Python/Exec.antt =====
-- Code that changes a state and may raise: what was done before the exception stays done, so the
-- state comes back beside the exception too.
use ebpf_upf.Prelude.{◌≡◌, refl}
use ebpf_upf.Python.{Exception, Result, ok, err, os_error}

abbrev pub Exec {ℓ} : Type ℓ → Type ℓ → Type ℓ
Exec S A = S → Result A × S

module _ {ℓ} {S A : Type ℓ} where
  abbrev pub pure : A → Exec S A
  pure a s = (ok a, s)

  abbrev pub raise : Exception → Exec S A
  raise e s = (err e, s)

  -- A computation that leaves the state alone.
  abbrev pub lift : Result A → Exec S A
  lift r s = (r, s)

module _ {ℓ} {S A B : Type ℓ} where
  -- The rest of a block runs only after a normal end.
  abbrev pub resume : Result A → (A → Exec S B) → Exec S B
  resume (ok a) f = f a
  resume (err e) f = raise e

  infixl 10 ◌>>=◌ ◌>>◌
  abbrev pub ◌>>=◌ : Exec S A → (A → Exec S B) → Exec S B
  ◌>>=◌ m f s = let (r, s') = m s in resume r f s'

  abbrev pub ◌>>◌ : Exec S A → Exec S B → Exec S B
  m >> k = m >>= λ _. k

  pub resume_inv :
      (r : Result A) (f : A → Exec S B) (s : S) {b : B}
      → (resume r f s).0 ≡ ok b
      → (a : A) × (r ≡ ok a) × ((f a s).0 ≡ ok b)
  resume_inv (ok a) f s h = (a, refl, h)
  resume_inv (err e) f s h = cc h

  -- What a block that ends normally went through.
  pub exec_inv :
      (m : Exec S A) (f : A → Exec S B) (s : S) {b : B}
      → ((m >>= f) s).0 ≡ ok b
      → (a : A) × ((m s).0 ≡ ok a) × ((f a (m s).1).0 ≡ ok b)
  exec_inv m f s h = resume_inv (m s).0 f (m s).1 h

-- `try: ... except OSError: pass`
abbrev pub ignore_os_error : Result (Unit {0}) → Result (Unit {0})
ignore_os_error (ok u) = ok u
ignore_os_error (err (os_error e)) = ok tt
ignore_os_error (err e) = err e

abbrev pub except_os_error : {S : Type 0} → Exec S (Unit {0}) → Exec S (Unit {0})
except_os_error m s = let (r, s') = m s in (ignore_os_error r, s')
