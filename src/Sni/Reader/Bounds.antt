-- ===== src/Sni/Reader/Bounds.antt =====
-- The indices of the reads of crates/sleepytale/src/sni.rs, and how far they go.
use sleepytale.Base.{
  ℕ, ◌+◌, ◌-◌, ◌≤◌, ◌^◌, ◌/◌, ◌≡◌, ◌∙◌, length, arith, leb, length-take, length-drop, drop,
}
use sleepytale.Base.Bytes.{Bytes}
use sleepytale.Base.Safe.{Safe, Safe-bind, Safe-index, Safe-require, Safe-weaken}
use sleepytale.Sni.Reader.{Reader, take, skip, u8, u16, u24, u32, cid, varint, max_cid}

-- The same bytes, read on at least so far, and not beyond their end.
abbrev pub After : ℕ → Reader → Reader → Type 0
After n r r' = (r'.bytes ≡ r.bytes) × (r.at + n ≤ r'.at) × (r'.at ≤ length r.bytes)

-- A read took at least so many bytes.
abbrev pub Took : {A : Type 0} → ℕ → Reader → A × Reader → Type 0
Took n r x = After n r x.1

abbrev pub Sliced : ℕ → Reader → Bytes × Reader → Type 0
Sliced n r x = After n r x.1 × (length x.0 ≡ n)

pub take-Safe : (r : Reader) (len : ℕ) → Safe (Sliced len r) (take r len)
unfolding take
take-Safe r len =
    ground (arith, length-take (r.at + len - r.at) (drop r.at r.bytes), length-drop r.at r.bytes)

pub skip-Safe : (r : Reader) (len : ℕ) → Safe (After len r) (skip r len)
unfolding skip
skip-Safe r len = Safe-bind (Sliced len r) (After len r) (take r len) _ (take-Safe r len) λ x h. h.0

pub u8-Safe : (r : Reader) → Safe (Took 1 r) (u8 r)
unfolding u8
u8-Safe r =
    Safe-bind (Sliced 1 r) (Took 1 r) (take r 1) _ (take-Safe r 1)
      λ x h. Safe-index (Took 1 r) x.0 0 _ (omega (arith, h.1)) λ b. h.0

pub u16-Safe : (r : Reader) → Safe (Took 2 r) (u16 r)
unfolding u16
u16-Safe r = Safe-bind (Sliced 2 r) (Took 2 r) (take r 2) _ (take-Safe r 2) λ x h.
    Safe-index (Took 2 r) x.0 0 _ (omega (arith, h.1))
      λ b0. Safe-index (Took 2 r) x.0 1 _ (omega (arith, h.1)) λ b1. h.0

pub u24-Safe : (r : Reader) → Safe (Took 3 r) (u24 r)
unfolding u24
u24-Safe r = Safe-bind (Sliced 3 r) (Took 3 r) (take r 3) _ (take-Safe r 3) λ x h.
    Safe-index (Took 3 r) x.0 0 _ (omega (arith, h.1)) λ b0.
      Safe-index (Took 3 r) x.0 1 _ (omega (arith, h.1))
        λ b1. Safe-index (Took 3 r) x.0 2 _ (omega (arith, h.1)) λ b2. h.0

pub u32-Safe : (r : Reader) → Safe (Took 4 r) (u32 r)
unfolding u32
u32-Safe r = Safe-bind (Sliced 4 r) (Took 4 r) (take r 4) _ (take-Safe r 4) λ x h.
    Safe-index (Took 4 r) x.0 0 _ (omega (arith, h.1)) λ b0.
      Safe-index (Took 4 r) x.0 1 _ (omega (arith, h.1)) λ b1.
        Safe-index (Took 4 r) x.0 2 _ (omega (arith, h.1))
          λ b2. Safe-index (Took 4 r) x.0 3 _ (omega (arith, h.1)) λ b3. h.0

-- A read that follows a read.
pub After-trans : (m n k : ℕ) (r s t : Reader) → After m r s → After n s t → k ≤ m + n → After k r t
After-trans m n k r s t a b le = (b.0 ∙ a.0, omega arith, rw a.0 at b.2)

abbrev pub CidRead : Reader → Bytes × Reader → Type 0
CidRead r x = After 1 r x.1 × (length x.0 ≤ max_cid)

pub cid-Safe : (r : Reader) → Safe (CidRead r) (cid r)
unfolding cid
cid-Safe r = Safe-bind (Took 1 r) (CidRead r) (u8 r) _ (u8-Safe r) λ x h.
    Safe-require (CidRead r) (leb x.0 max_cid) (take x.1 x.0) λ fits.
      Safe-weaken (Sliced x.0 x.1) (CidRead r) (take x.1 x.0) (take-Safe x.1 x.0)
        λ y k. (After-trans 1 x.0 1 r x.1 y.1 h k.0 (omega arith), ground (arith, k.1, fits))

pub varint-Safe : (r : Reader) → Safe (Took 1 r) (varint r)
unfolding varint
varint-Safe r = Safe-bind (Took 1 r) (Took 1 r) (u8 r) _ (u8-Safe r) λ x h.
    let n = 2 ^ (x.0 / 2 ^ 6) - 1 in
    Safe-bind (Sliced n x.1) (Took 1 r) (take x.1 n) _ (take-Safe x.1 n)
      λ y k. After-trans 1 n 1 r x.1 y.1 h k.0 (omega arith)
