-- ===== src/Sni/Reader.antt =====
-- `Reader` of crates/sleepytale/src/sni.rs: a cursor over a byte slice. A `usize` has 64 bits.
-- A read returns the reader that follows; the source never reads on after a failed read.
pub mod Bounds
use Prim.Native.Nat.{bit_and}
use sleepytale.Base.{
  ℕ, ◌+◌, ◌-◌, ◌*◌, ◌/◌, ◌%◌, ◌^◌, Option, none, some, List, [], ◌∷◌, ltb, leb, not, if◌then◌else◌,
}
use sleepytale.Base.Bytes.{Bytes}
use sleepytale.Base.Outcome.{Outcome, done, ◌>>=◌, ◌>>◌, try, require, index, get_range}

abbrev pub usize_mod : ℕ
usize_mod = 2 ^ 64

abbrev pub max_cid : ℕ
max_cid = 20

pub record Reader : Type 0 where
  pub bytes : Bytes
  pub at : ℕ

abbrev pub Read : Type 0 → Type 0
Read A = Outcome (A × Reader)

unfoldable pub new : Bytes → Reader
new bytes = record { bytes = bytes; at = 0 }

abbrev pub checked_add : ℕ → ℕ → Option ℕ
checked_add a b = if ltb (a + b) usize_mod then some (a + b) else none

-- `usize::try_from` on a `u64`.
abbrev pub to_usize : ℕ → Option ℕ
to_usize n = if ltb n usize_mod then some n else none

unfoldable pub take : Reader → ℕ → Read Bytes
take r len = do
  end ← try (checked_add r.at len)
  slice ← try (get_range r.bytes r.at end)
  done (slice, record r { at = end })

unfoldable pub skip : Reader → ℕ → Outcome Reader
skip r len = do (slice, r') ← take r len; done r'

unfoldable pub u8 : Reader → Read ℕ
u8 r = do (b, r') ← take r 1; b0 ← index b 0; done (b0, r')

-- `from_be_bytes`, and `<<` joined by `|`, whose fields do not overlap.
unfoldable pub u16 : Reader → Read ℕ
u16 r = do (b, r') ← take r 2; b0 ← index b 0; b1 ← index b 1; done (b0 * 2 ^ 8 + b1, r')

unfoldable pub u24 : Reader → Read ℕ
u24 r = do
  (b, r') ← take r 3
  b0 ← index b 0
  b1 ← index b 1
  b2 ← index b 2
  done (b0 * 2 ^ 16 + b1 * 2 ^ 8 + b2, r')

unfoldable pub u32 : Reader → Read ℕ
u32 r = do
  (b, r') ← take r 4
  b0 ← index b 0
  b1 ← index b 1
  b2 ← index b 2
  b3 ← index b 3
  done (b0 * 2 ^ 24 + b1 * 2 ^ 16 + b2 * 2 ^ 8 + b3, r')

unfoldable pub cid : Reader → Read Bytes
cid r = do (len, r') ← u8 r; require (leb len max_cid); take r' len

-- `value = (value << 8) | byte` on a `u64`, for each byte.
unfoldable pub append_bytes : ℕ → Bytes → ℕ
append_bytes value [] = value
append_bytes value (byte ∷ bytes) = append_bytes (value * 2 ^ 8 % 2 ^ 64 + byte) bytes

unfoldable pub varint : Reader → Read ℕ
varint r = do
  (first, r1) ← u8 r
  (bytes, r2) ← take r1 (2 ^ (first / 2 ^ 6) - 1)
  done (append_bytes (bit_and first 0x3f) bytes, r2)
