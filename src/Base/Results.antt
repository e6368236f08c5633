-- ===== src/Base/Results.antt =====
-- Go's (value, error) pair as a value. `panicked` stands for a run-time panic of the Go code.
use mathlib.Core.Path.{◌≡◌, refl}
use mathlib.Core.Logic.{◌⊎◌, inl, inr}

pub data Error : Type 0 where
  unexpected_eof : Error
  varint_overflow : Error
  bad_magic : Error
  count_mismatch : Error
  io_failure : Error
  dropped_partition : Error
  missing_series : Error
  panicked : Error
  out_of_rounds : Error
  bad_selector : Error
  bad_name : Error
  bad_matcher : Error
  bad_value : Error
  bad_parameter : Error

pub data Result {ℓ} (A : Type ℓ) : Type ℓ where
  err : Error → Result A
  ok : A → Result A

infixl 5 ◌>>=◌
abbrev pub ◌>>=◌ {ℓ κ} : {B : Type κ} {A : Type ℓ} → Result A → (A → Result B) → Result B
err failed >>= next = err failed
ok x >>= next = next x

pub Result-cases {ℓ} :
    {A : Type ℓ} (r : Result A) → ((a : A) × (r ≡ ok a)) ⊎ ((e : Error) × (r ≡ err e))
Result-cases (ok a) = inl (a, refl)
Result-cases (err e) = inr (e, refl)

pub eof_cases : (e : Error) → (e ≡ unexpected_eof) ⊎ (¬ (e ≡ unexpected_eof))
eof_cases unexpected_eof = inl refl
eof_cases _ = inr (λ h. cc)
