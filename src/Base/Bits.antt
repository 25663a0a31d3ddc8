-- ===== src/Base/Bits.antt =====
-- Bits of a byte: `&` keeps no bit that the mask has not, and tables over the bytes.
use Prim.Native.Nat.{
  ℕ, zero, suc, ◌/◌, ◌%◌, ◌≤◌, ◌<◌, min, bit_and, bit_xor, digits, bit_and-bitwise,
}
use mathlib.Core.Path.{◌≡◌, refl}
use mathlib.Core.Bool.{Bool, true, ◌&&◌}
use native.Mathlib.Omega.{arith}
use sleepytale.Base.Tests.{◌==◌}

eq_of_test : (a b : ℕ) → (a == b) ≡ true → a ≡ b
eq_of_test a b h = ground arith

digits_le : (n a b : ℕ) → digits (λ b. zero) min n a b ≤ b
digits_le zero a b = omega arith
digits_le (suc n) zero b = omega arith
digits_le (suc n) (suc a) b = omega (arith, digits_le n (suc a / 2) (b / 2))

pub bit_and_le : (a b : ℕ) → bit_and a b ≤ b
bit_and_le a b = omega (arith, bit_and-bitwise a b, digits_le a a b)

-- A test that holds at every number below a bound.
module _ (test : ℕ → Bool) where
  table : ℕ → Bool
  table zero = true
  table (suc n) = table n && test n

  table→test : (n : ℕ) → table n ≡ true → (x : ℕ) → x < n → test x ≡ true
  unfolding table
  table→test zero h x small = absurd (omega arith)
  table→test (suc n) h x small = ground (arith, h, table→test n (ground arith) x)

pub bit_and_63 : (b : ℕ) → b < 256 → bit_and b 0x3f ≡ b % 64
unfolding table
bit_and_63 b small = ground (arith, table→test (λ b. bit_and b 0x3f == b % 64) 256 refl b small)

-- Two bytes, by a table of tables.
abbrev undone : ℕ → ℕ → Bool
undone a b = bit_xor (bit_xor a b) b == a

undone_table : table (λ a. table (undone a) 256) 256 ≡ true
unfolding table
undone_table = refl

undone_row : (a : ℕ) → a < 256 → table (undone a) 256 ≡ true
undone_row = table→test (λ a. table (undone a) 256) 256 undone_table

pub xor_twice : (a b : ℕ) → a < 256 → b < 256 → bit_xor (bit_xor a b) b ≡ a
xor_twice a b small_a small_b =
    eq_of_test (bit_xor (bit_xor a b) b) a
      (table→test (undone a) 256 (undone_row a small_a) b small_b)

-- A mask of the low four bits leaves the high four as they are.
abbrev kept : ℕ → ℕ → Bool
kept a x =
    (bit_and (bit_xor a x) 0xc0 == bit_and a 0xc0)
    && (bit_and (bit_xor a x) 0x30 == bit_and a 0x30)
    && (bit_and (bit_xor a x) 0xf0 == bit_and a 0xf0)

kept_table : table (λ a. table (kept a) 16) 256 ≡ true
unfolding table
kept_table = refl

kept_row : (a : ℕ) → a < 256 → table (kept a) 16 ≡ true
kept_row = table→test (λ a. table (kept a) 16) 256 kept_table

pub bit_and-bit_xor :
    (a x : ℕ)
    → a < 256
    → x < 16
    → (bit_and (bit_xor a x) 0xc0 ≡ bit_and a 0xc0)
      × (bit_and (bit_xor a x) 0x30 ≡ bit_and a 0x30)
      × (bit_and (bit_xor a x) 0xf0 ≡ bit_and a 0xf0)
bit_and-bit_xor a x small_a small_x =
    ground (arith, table→test (kept a) 16 (kept_row a small_a) x small_x)
