-- ===== src/Posix.antt =====
-- The system calls that the library makes. They are not part of the repository: the model takes them
-- as a parameter.
pub mod Errno
pub mod Sockets
use Prim.Native.String.{String}
use jnet_lib.Base.{ℕ, Option, List, ◌≡◌, ◌⊎◌, inl, inr, refl}
use jnet_lib.Base.Int.{ℤ}

-- What a call returns: its value, or -1 with `errno`.
pub data Outcome {ℓ} (A : Type ℓ) : Type ℓ where
  done : A → Outcome A
  failed : ℕ → Outcome A

-- To split on what a call returned.
pub Outcome-cases :
    {S A : Type 0} (p : S × Outcome A)
    → ((s : S) × (a : A) × (p ≡ (s, done a))) ⊎ ((s : S) × (e : ℕ) × (p ≡ (s, failed e)))
Outcome-cases (s, done a) = inl (s, a, refl)
Outcome-cases (s, failed e) = inr (s, e, refl)

-- A descriptor; `none` is -1.
abbrev pub Fd : Type 0
Fd = Option ℕ

-- Calls on file descriptors; a write is handed the bytes, and a read returns them.
pub record Files : Type 1 where
  pub State : Type 0
  pub open_file : State → String → ℕ → State × Outcome ℕ
  pub close : State → Fd → State × Outcome (Unit {0})
  pub lseek : State → Fd → ℤ → ℕ → State × Outcome ℕ
  pub fstat_size : State → Fd → State × Outcome ℕ
  pub ftruncate : State → Fd → ℕ → State × Outcome (Unit {0})
  pub fsync : State → Fd → State × Outcome (Unit {0})
  pub read : State → Fd → ℕ → State × Outcome (List ℕ)
  pub write : State → Fd → List ℕ → State × Outcome ℕ
