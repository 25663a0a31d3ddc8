-- ===== src/Base/Safe.antt =====
-- Postconditions of code that may panic: the result has a property, or there is none; no panic.
use Prim.Native.Nat.{ℕ, zero, suc, ◌<◌}
use mathlib.Core.Path.{◌≡◌, refl}
use mathlib.Core.Logic.{◌≢◌}
use mathlib.Core.Bool.{Bool, true, false}
use mathlib.Core.Option.{Option, none, some}
use mathlib.Core.List.{List, [], ◌∷◌}
use native.Mathlib.Omega.{arith}
use sleepytale.Base.Lists.{length, set}
use sleepytale.Base.Outcome.{Outcome, done, refuse, panic, ◌>>=◌, ◌>>◌, try, require, index}

abbrev pub Safe {ℓ} : {A : Type ℓ} → (A → Type 0) → Outcome A → Type 0
Safe P (done a) = P a
Safe P refuse = Unit
Safe P panic = ⊥

-- No property: only that the code does not panic.
abbrev pub Any {ℓ} : {A : Type ℓ} → A → Type 0
Any a = Unit

module _ {A B : Type 0} where
  pub Safe-bind :
      (P : A → Type 0) (Q : B → Type 0) (m : Outcome A) (f : A → Outcome B)
      → Safe P m
      → ((a : A) → P a → Safe Q (f a))
      → Safe Q (m >>= f)
  Safe-bind P Q (done a) f h k = k a h
  Safe-bind P Q refuse f h k = tt
  Safe-bind P Q panic f h k = absurd h

  pub Safe-try :
      (Q : B → Type 0) (o : Option A) (f : A → Outcome B)
      → ((a : A) → o ≡ some a → Safe Q (f a))
      → Safe Q (try o >>= f)
  Safe-try Q none f k = tt
  Safe-try Q (some a) f k = k a refl

  pub Safe-index :
      (Q : B → Type 0) (xs : List A) (i : ℕ) (f : A → Outcome B)
      → i < length xs
      → ((a : A) → Safe Q (f a))
      → Safe Q (index xs i >>= f)
  Safe-index Q [] i f h k = absurd (omega arith)
  Safe-index Q (x ∷ xs) zero f h k = k x
  Safe-index Q (x ∷ xs) (suc i) f h k = Safe-index Q xs i f (omega arith) k

  -- `while let Some(a) = m { … }`
  pub Safe-while_let :
      (P : A → Type 0) (Q : B → Type 0) (m : Outcome A) (stop : Outcome B) (body : A → Outcome B)
      → Safe P m
      → Safe Q stop
      → ((a : A) → P a → Safe Q (body a))
      → Safe Q (elim m [ refuse ↦ stop | panic ↦ panic | done a ↦ body a ])
  Safe-while_let P Q (done a) stop body h s k = k a h
  Safe-while_let P Q refuse stop body h s k = s
  Safe-while_let P Q panic stop body h s k = absurd h

module _ {A : Type 0} where
  pub Safe-require :
      (Q : A → Type 0) (b : Bool) (m : Outcome A) → (b ≡ true → Safe Q m) → Safe Q (require b >> m)
  Safe-require Q true m k = k refl
  Safe-require Q false m k = tt

  pub try-Safe : (Q : A → Type 0) (o : Option A) → ((a : A) → o ≡ some a → Q a) → Safe Q (try o)
  try-Safe Q none k = tt
  try-Safe Q (some a) k = k a refl

  pub Safe-weaken : (P Q : A → Type 0) (m : Outcome A) → Safe P m → ((a : A) → P a → Q a) → Safe Q m
  Safe-weaken P Q (done a) h k = k a h
  Safe-weaken P Q refuse h k = tt
  Safe-weaken P Q panic h k = absurd h

  pub Safe-done : (P : A → Type 0) (m : Outcome A) (a : A) → Safe P m → m ≡ done a → P a
  Safe-done P m a h e = rw e at h

  pub Safe-ne-panic : (P : A → Type 0) (m : Outcome A) → Safe P m → m ≢ panic
  Safe-ne-panic P (done a) h e = cc
  Safe-ne-panic P refuse h e = cc
  Safe-ne-panic P panic h e = absurd h

  pub length-set : (xs : List A) (i : ℕ) (v : A) → length (set xs i v) ≡ length xs
  length-set [] i v = refl
  length-set (x ∷ xs) zero v = refl
  length-set (x ∷ xs) (suc i) v = omega (arith, length-set xs i v)
