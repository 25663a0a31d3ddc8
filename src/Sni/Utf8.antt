-- ===== src/Sni/Utf8.antt =====
-- `String::from_utf8`: the well-formed byte sequences of the Unicode standard, table 3-7.
use sleepytale.Base.{
  ℕ, zero, suc, Bool, true, false, ◌&&◌, Option, none, some, [], ◌∷◌, leb, ◌==◌, if◌then◌else◌,
}
use sleepytale.Base.Bytes.{Bytes}

-- How many bytes follow a lead byte, and the range of the first of them.
pub record Lead : Type 0 where
  pub follow : ℕ
  pub low : ℕ
  pub high : ℕ

abbrev pub within : ℕ → ℕ → ℕ → Bool
within lo hi b = leb lo b && leb b hi

abbrev pub lead : ℕ → Option Lead
lead b =
    if leb b 0x7f
    then some (record { follow = 0; low = 0; high = 0 })
    else if within 0xc2 0xdf b
    then some (record { follow = 1; low = 0x80; high = 0xbf })
    else if b == 0xe0
    then some (record { follow = 2; low = 0xa0; high = 0xbf })
    else if b == 0xed
    then some (record { follow = 2; low = 0x80; high = 0x9f })
    else if within 0xe1 0xef b
    then some (record { follow = 2; low = 0x80; high = 0xbf })
    else if b == 0xf0
    then some (record { follow = 3; low = 0x90; high = 0xbf })
    else if within 0xf1 0xf3 b
    then some (record { follow = 3; low = 0x80; high = 0xbf })
    else if b == 0xf4
    then some (record { follow = 3; low = 0x80; high = 0x8f })
    else none

-- `need` bytes of the current character are still to come, the first of them in the range.
unfoldable pub utf8_from : (need low high : ℕ) → Bytes → Bool
utf8_from zero low high [] = true
utf8_from (suc n) low high [] = false
utf8_from zero low high (b ∷ bs) = elim (lead b) [
  | none ↦ false
  | some l ↦ utf8_from l.follow l.low l.high bs
]
utf8_from (suc n) low high (b ∷ bs) = within low high b && utf8_from n 0x80 0xbf bs

unfoldable pub from_utf8 : Bytes → Option Bytes
unfolding utf8_from
from_utf8 bytes = if utf8_from 0 0 0 bytes then some bytes else none
