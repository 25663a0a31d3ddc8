-- ===== src/Base/Bytes.antt =====
-- Byte strings. A `String`, a `&[u8]` and a `Vec<u8>` are lists of numbers below 256.
use Prim.Native.Nat.{ℕ, ◌<◌, compare, Ordering}
use Prim.Native.Char.{code}
use Prim.Native.String.{String}
use mathlib.Core.Path.{◌≡◌, refl}
use mathlib.Core.Bool.{Bool, true, false, ◌&&◌, false≢true}
use mathlib.Core.List.{List, [], ◌∷◌}
use native.Mathlib.Omega.{arith}
use sleepytale.Base.Tests.{◌==◌}
use sleepytale.Base.Lists.{All}
use sleepytale.Base.Map.{Key}

abbrev pub Bytes : Type 0
Bytes = List ℕ

abbrev pub IsByte : ℕ → Type 0
IsByte b = b < 256

abbrev pub AreBytes : Bytes → Type 0
AreBytes = All IsByte

-- The bytes of an ASCII literal.
abbrev pub ascii : String → Bytes
ascii String.[] = []
ascii (String.◌∷◌ c s) = code c ∷ ascii s

-- The derived lexicographic order.
unfoldable pub bytes_before : Bytes → Bytes → Bool
bytes_before a [] = false
bytes_before [] (d ∷ b) = true
bytes_before (c ∷ a) (d ∷ b) =
    let rest = bytes_before a b in
    elim (compare c d) [ Ordering.lt ↦ true | Ordering.eq ↦ rest | Ordering.gt ↦ false ]

-- Equality by a test that computes.
abbrev pub dec_of {ℓ} : {P : Type ℓ} (b : Bool) → (b ≡ true → P) → (P → b ≡ true) → Dec P
dec_of true f g = yes (f refl)
dec_of false f g = no (λ p. absurd (false≢true (g p)))

unfoldable pub bytes_eqb : Bytes → Bytes → Bool
bytes_eqb [] [] = true
bytes_eqb [] (d ∷ b) = false
bytes_eqb (c ∷ a) [] = false
bytes_eqb (c ∷ a) (d ∷ b) = (c == d) && bytes_eqb a b

pub bytes_eqb_sound : (a b : Bytes) → bytes_eqb a b ≡ true → a ≡ b
unfolding bytes_eqb
bytes_eqb_sound [] [] h = refl
bytes_eqb_sound [] (d ∷ b) h = cc
bytes_eqb_sound (c ∷ a) [] h = cc
bytes_eqb_sound (c ∷ a) (d ∷ b) h = ground (arith, bytes_eqb_sound a b)

pub bytes_eqb_refl : (a : Bytes) → bytes_eqb a a ≡ true
unfolding bytes_eqb
bytes_eqb_refl [] = refl
bytes_eqb_refl (c ∷ a) = ground (arith, bytes_eqb_refl a)

pub bytes_eqb_complete : (a b : Bytes) → a ≡ b → bytes_eqb a b ≡ true
bytes_eqb_complete a b e = rw e (bytes_eqb_refl b)

unfoldable pub bytes_dec : Discrete Bytes
unfolding bytes_eqb
bytes_dec a b = dec_of (bytes_eqb a b) (bytes_eqb_sound a b) (bytes_eqb_complete a b)

instance abbrev pub bytes_key : Key Bytes
bytes_key = record { eq = bytes_dec; before = bytes_before }
