-- ===== src/Common/Run.antt =====
-- Runs of code with loops on fuel and with pointers that may be NULL.
use mathlib.Core.Path.{◌≡◌, refl}

-- `fault` is undefined behaviour, a write through NULL; `timeout` means that the fuel ran out.
pub data Run {ℓ} (A : Type ℓ) : Type ℓ where
  ok : A → Run A
  fault : Run A
  timeout : Run A

-- The chaining of runs, for modules that use no other `◌>>=◌`.
infixl 5 ◌>>=◌
abbrev pub ◌>>=◌ {ℓ κ} : {A : Type ℓ} {B : Type κ} → Run A → (A → Run B) → Run B
ok a >>= f = f a
fault >>= f = fault
timeout >>= f = timeout

-- What holds of the result, if there is one.
abbrev pub After {ℓ} : {A : Type ℓ} → (A → Type 0) → Run A → Type 0
After P (ok a) = P a
After P fault = Unit
After P timeout = Unit

pub bind_After {ℓ κ} :
    {A : Type ℓ} {B : Type κ} (Q : A → Type 0) (P : B → Type 0) (r : Run A) (f : A → Run B)
    → After Q r
    → ((a : A) → Q a → After P (f a))
    → After P (r >>= f)
bind_After Q P (ok a) f q k = k a q
bind_After Q P fault f q k = tt
bind_After Q P timeout f q k = tt

pub any_After {ℓ} : {A : Type ℓ} (r : Run A) → After (λ a. Unit) r
any_After (ok a) = tt
any_After fault = tt
any_After timeout = tt

pub After-ok {ℓ} :
    {A : Type ℓ} (P : A → Type 0) (r : Run A) → ((a : A) → r ≡ ok a → P a) → After P r
After-ok P (ok a) h = h a refl
After-ok P fault h = tt
After-ok P timeout h = tt
