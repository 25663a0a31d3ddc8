-- ===== src/Base/Outcome.antt =====
-- A function that returns an `Option` and that indexes slices: `none` of the source is `refuse`,
-- and an index out of range is `panic`.
use Prim.Native.Nat.{ℕ, ◌-◌}
use mathlib.Core.Bool.{Bool, true, false, ◌&&◌}
use mathlib.Core.Option.{Option, none, some}
use mathlib.Core.List.{List}
use sleepytale.Base.Tests.{leb, if◌then◌else◌}
use sleepytale.Base.Lists.{length, get_elem?, take, drop}

pub data Outcome {ℓ} (A : Type ℓ) : Type ℓ where
  done : A → Outcome A
  refuse : Outcome A
  panic : Outcome A

infixl 5 ◌>>=◌ ◌>>◌
abbrev pub ◌>>=◌ {ℓ κ} : {A : Type ℓ} {B : Type κ} → Outcome A → (A → Outcome B) → Outcome B
done a >>= f = f a
refuse >>= f = refuse
panic >>= f = panic

abbrev pub ◌>>◌ {ℓ} : {B : Type ℓ} → Outcome (Unit {0}) → Outcome B → Outcome B
m >> k = m >>= λ _. k

-- `?` on an `Option`.
abbrev pub try {ℓ} : {A : Type ℓ} → Option A → Outcome A
try none = refuse
try (some a) = done a

-- `return None` unless the condition holds.
abbrev pub require : Bool → Outcome (Unit {0})
require true = done tt
require false = refuse

-- `xs[i]`
abbrev pub at_index {ℓ} : {A : Type ℓ} → Option A → Outcome A
at_index none = panic
at_index (some a) = done a

abbrev pub index {ℓ} : {A : Type ℓ} → List A → ℕ → Outcome A
index xs i = at_index (get_elem? xs i)

-- What the caller sees of a call that does not panic.
abbrev pub to_option {ℓ} : {A : Type ℓ} → Outcome A → Option A
to_option (done a) = some a
to_option refuse = none
to_option panic = none

-- `xs.get(from..to)`
abbrev pub get_range {ℓ} : {A : Type ℓ} → List A → ℕ → ℕ → Option (List A)
get_range xs from to =
    if leb from to && leb to (length xs) then some (take (to - from) (drop from xs)) else none
