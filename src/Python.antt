-- ===== src/Python.antt =====
-- What the scripts use of Python: exceptions as values, and actions on an explicit state.
pub mod Struct
pub mod Exec
pub mod Runs
pub mod Sorting
pub mod Hex
pub mod Strings
use ebpf_upf.Prelude.{ℤ, ◌≡◌, refl}

-- The exceptions that the modelled code can meet.
pub data Exception : Type 0 where
  os_error : ℤ → Exception
  struct_error index_error key_error value_error type_error : Exception
  runtime_error zero_division_error timeout : Exception

pub data Result {ℓ} (A : Type ℓ) : Type ℓ where
  ok : A → Result A
  err : Exception → Result A

module _ {ℓ κ} {A : Type ℓ} {B : Type κ} where
  infixl 10 ◌>>=◌ ◌>>◌
  abbrev pub ◌>>=◌ : Result A → (A → Result B) → Result B
  ◌>>=◌ (err raised) next = err raised
  ◌>>=◌ (ok x) next = next x

  abbrev pub ◌>>◌ : Result A → Result B → Result B
  ◌>>◌ first second = first >>= λ _. second

  -- What a block that ends normally went through.
  pub bind_inv :
      (first : Result A) (next : A → Result B) {y : B}
      → (first >>= next) ≡ ok y
      → (x : A) × (first ≡ ok x) × (next x ≡ ok y)
  bind_inv (err raised) next h = cc
  bind_inv (ok x) next h = (x, refl, h)
