-- ===== src/Sni/Header.antt =====
-- `parse_long_header` of crates/sleepytale/src/sni.rs.
pub mod Bounds
use Prim.Native.Nat.{bit_and}
use sleepytale.Base.{
  ℕ, ◌+◌, ◌/◌, ◌^◌, Option, none, some, ltb, not, ◌==◌, ◌||◌, if◌then◌else◌, length,
}
use sleepytale.Base.Bytes.{Bytes}
use sleepytale.Base.Outcome.{Outcome, done, ◌>>=◌, ◌>>◌, try, require}
use sleepytale.Sni.Reader.{new, to_usize, skip, u8, u32, cid, varint}

-- The two versions, the length of an AEAD tag and of a header protection sample.
abbrev pub version1 : ℕ
version1 = 0x0000_0001

abbrev pub version2 : ℕ
version2 = 0x6b33_43cf

abbrev pub tag : ℕ
tag = 16

abbrev pub sample : ℕ
sample = 16

pub record Header : Type 0 where
  pub version : ℕ
  pub dcid : Bytes
  pub pn_offset : ℕ
  pub length : ℕ

-- The packet type of an Initial, by version.
abbrev pub initial_type : ℕ → Option ℕ
initial_type version =
    if version == version1 then some 0 else if version == version2 then some 1 else none

unfoldable pub parse_long_header : Bytes → Outcome Header
parse_long_header datagram = do
  (first, r1) ← u8 (new datagram)
  require (bit_and first 0xc0 == 0xc0)
  (version, r2) ← u32 r1
  wanted ← try (initial_type version)
  require (bit_and first 0x30 / 2 ^ 4 == wanted)
  (dcid, r3) ← cid r2
  (scid, r4) ← cid r3
  (token_len, r5) ← varint r4
  skipped ← try (to_usize token_len)
  r6 ← skip r5 skipped
  (long, r7) ← varint r6
  len ← try (to_usize long)
  require (not (ltb len (sample + tag) || ltb (length datagram) (r7.at + len)))
  done (record { version = version; dcid = dcid; pn_offset = r7.at; length = len })
