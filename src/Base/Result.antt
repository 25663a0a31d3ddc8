-- ===== src/Base/Result.antt =====
-- `Result<T>` with the errors of a component as values, and the outcome of code that may panic.
use mathlib.Core.Bool.{Bool, true, false}
use mathlib.Core.Option.{Option, none, some}

pub data Result {ℓ} (E A : Type ℓ) : Type ℓ where
  ok : A → Result E A
  err : E → Result E A

infixl 5 ◌>>=◌ ◌>>◌
abbrev pub ◌>>=◌ {ℓ} : {E A B : Type ℓ} → Result E A → (A → Result E B) → Result E B
ok a >>= f = f a
err e >>= f = err e

abbrev pub ◌>>◌ {ℓ} : {E B : Type ℓ} → Result E (Unit {ℓ}) → Result E B → Result E B
m >> k = m >>= λ _. k

-- `anyhow::ensure!`
abbrev pub ensure {ℓ} : {E : Type ℓ} → Bool → E → Result E (Unit {ℓ})
ensure true e = ok tt
ensure false e = err e

-- `bail!` when a map's `insert` gave back the value that it replaced.
abbrev pub ensure_none {ℓ} : {E A : Type ℓ} → Option A → (A → E) → Result E (Unit {ℓ})
ensure_none none e = ok tt
ensure_none (some a) e = err (e a)

-- `ensure!(a != b)`, by a decision.
abbrev pub ensure_not {ℓ} : {E P : Type ℓ} → Dec P → E → Result E (Unit {ℓ})
ensure_not (yes p) e = err e
ensure_not (no n) e = ok tt
