-- ===== src/Base/Run.antt =====
-- What a call in the driver can come to: a result, `error()` (a long jump to the recovery
-- context), `fatal()` (which aborts the driver), or behaviour that C leaves undefined.
use mathlib.Core.Path.{◌≡◌}

pub data Run {ℓ} (A : Type ℓ) : Type ℓ where
  ok : A → Run A
  error fatal undefined : Run A

infixl 5 ◌>>=◌ ◌>>◌
abbrev pub ◌>>=◌ {ℓ κ} : {A : Type ℓ} {B : Type κ} → Run A → (A → Run B) → Run B
ok a >>= f = f a
error >>= f = error
fatal >>= f = fatal
undefined >>= f = undefined

abbrev pub ◌>>◌ {ℓ} : {B : Type ℓ} → Run (Unit {0}) → Run B → Run B
m >> k = m >>= λ _. k

-- The call returns, and what it returns satisfies `P`.
abbrev pub Returns {ℓ κ} : {A : Type ℓ} → Run A → (A → Type κ) → Type (ℓ ⊔ κ)
Returns {A} m P = (a : A) × (m ≡ ok a) × P a
