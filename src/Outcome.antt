-- ===== src/Outcome.antt =====
-- Calls that may throw. An exception, and a call of std::terminate, keep the state reached.
pub data Outcome {ℓ} (A : Type ℓ) : Type ℓ where
  ok : A → Outcome A
  threw : A → Outcome A
  -- an exception left a `noexcept` function
  aborted : A → Outcome A

infixl 5 ◌>>=◌
abbrev pub ◌>>=◌ {ℓ} : {A : Type ℓ} → Outcome A → (A → Outcome A) → Outcome A
ok a >>= f = f a
threw a >>= f = threw a
aborted a >>= f = aborted a

-- What a `noexcept` function makes of an exception in its body.
abbrev pub noexcept {ℓ} : {A : Type ℓ} → Outcome A → Outcome A
noexcept (ok a) = ok a
noexcept (threw a) = aborted a
noexcept (aborted a) = aborted a
