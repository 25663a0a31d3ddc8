-- ===== src/Sni/Frames/Bounds.antt =====
-- The fuel and the indices of the walk over the frames in crates/sleepytale/src/sni.rs.
use sleepytale.Base.{
  ℕ, zero, suc, ◌+◌, ◌≤◌, ◌<◌, ◌≡◌, refl, List, [], ◌∷◌, ◌++◌, length, arith, if◌then◌else◌, ◌==◌,
}
use sleepytale.Base.Bytes.{Bytes}
use sleepytale.Base.Outcome.{Outcome, done, ◌>>=◌}
use sleepytale.Base.Safe.{Safe, Any, Safe-bind, Safe-try, Safe-weaken, Safe-while_let}
use sleepytale.Sni.Reader.{Reader, new, u8, varint, take, to_usize}
use sleepytale.Sni.Reader.Bounds.{Took, Sliced, u8-Safe, varint-Safe, take-Safe}
use sleepytale.Sni.Frames.{
  Frame, nothing, crypto, other, Piece, skip_varints, skip_ranges, read_ack, read_crypto,
  read_frame, walk, unless_empty, reassemble_crypto,
}

-- On the same bytes, and not behind the place where the reading began.
abbrev Onward : Reader → Reader → Type 0
Onward r r' = (r'.bytes ≡ r.bytes) × (r.at ≤ r'.at)

Onward-trans : (r s t : Reader) → Onward r s → Onward s t → Onward r t
Onward-trans r s t a b = (cc, omega (arith, a.1, b.1))

skip_varints-Safe : (n : ℕ) (r : Reader) → Safe (Onward r) (skip_varints n r)
unfolding skip_varints
skip_varints-Safe zero r = (refl, omega arith)
skip_varints-Safe (suc n) r = Safe-bind (Took 1 r) (Onward r) (varint r) _ (varint-Safe r) λ x h.
    Safe-weaken (Onward x.1) (Onward r) (skip_varints n x.1) (skip_varints-Safe n x.1)
      λ r' k. Onward-trans r x.1 r' (h.0, omega (arith, h.1)) k

skip_ranges-Safe : (n : ℕ) (r : Reader) → Safe (Onward r) (skip_ranges n r)
unfolding skip_ranges
skip_ranges-Safe zero r = (refl, omega arith)
skip_ranges-Safe (suc n) r =
    Safe-bind (Onward r) (Onward r) (skip_varints 2 r) _ (skip_varints-Safe 2 r) λ r1 h.
      Safe-weaken (Onward r1) (Onward r) (skip_ranges n r1) (skip_ranges-Safe n r1)
        λ r' k. Onward-trans r r1 r' h k

read_ack-Safe : (frame : ℕ) (r : Reader) → Safe (Onward r) (read_ack frame r)
unfolding read_ack
read_ack-Safe frame r =
    Safe-bind (Onward r) (Onward r) (skip_varints 2 r) _ (skip_varints-Safe 2 r) λ r1 h1.
      Safe-bind (Took 1 r1) (Onward r) (varint r1) _ (varint-Safe r1) λ x h2.
        Safe-bind (Onward x.1) (Onward r) (skip_varints 1 x.1) _ (skip_varints-Safe 1 x.1) λ r3 h3.
          Safe-bind (Onward r3) (Onward r) (skip_ranges x.0 r3) _ (skip_ranges-Safe x.0 r3) λ r4 h4.
            let n = if frame == 0x03 then 3 else 0 in
            Safe-weaken (Onward r4) (Onward r) (skip_varints n r4) (skip_varints-Safe n r4)
              λ r5 h5. (cc, omega (arith, h1.1, h2.1, h3.1, h4.1, h5.1))

abbrev Went : {A : Type 0} → Reader → A × Reader → Type 0
Went r x = Onward r x.1

read_crypto-Safe : (r : Reader) → Safe (Went r) (read_crypto r)
unfolding read_crypto
read_crypto-Safe r = Safe-bind (Took 1 r) (Went r) (varint r) _ (varint-Safe r) λ x1 h1.
    Safe-bind (Took 1 x1.1) (Went r) (varint x1.1) _ (varint-Safe x1.1) λ x2 h2.
      Safe-try (Went r) (to_usize x2.0) _ λ len l.
        Safe-bind (Sliced len x2.1) (Went r) (take x2.1 len) _ (take-Safe x2.1 len)
          λ x3 h3. (cc, omega (arith, h1.1, h2.1, h3.0.1))

ack_frame-Safe :
    (frame : ℕ) (r : Reader)
    → Safe {A = Frame × Reader} (Went r) (read_ack frame r >>= λ r'. done (nothing, r'))
ack_frame-Safe frame r =
    Safe-bind (Onward r) (Went r) (read_ack frame r) _ (read_ack-Safe frame r) λ r' h. h

read_frame-Safe : (frame : ℕ) (r : Reader) → Safe (Went r) (read_frame frame r)
unfolding read_frame
read_frame-Safe frame r = ground (arith, ack_frame-Safe frame r, read_crypto-Safe r)

next-Safe :
    (f : Frame) (on stop : Outcome (List Piece)) (joined : ℕ → Bytes → Outcome (List Piece))
    → Safe Any on
    → Safe Any stop
    → ((offset : ℕ) (bytes : Bytes) → Safe Any (joined offset bytes))
    → Safe Any (elim f [ nothing ↦ on | crypto offset bytes ↦ joined offset bytes | other ↦ stop ])
next-Safe nothing on stop joined h s k = h
next-Safe (crypto offset bytes) on stop joined h s k = k offset bytes
next-Safe other on stop joined h s k = s

-- Each round takes a byte.
pub walk-Safe :
    (fuel : ℕ) (r : Reader) (pieces : List Piece)
    → 1 ≤ fuel
    → length r.bytes < r.at + fuel
    → Safe Any (walk fuel r pieces)
unfolding walk
walk-Safe zero r pieces some_fuel enough = absurd (omega arith)
walk-Safe (suc fuel) r pieces some_fuel enough =
    Safe-while_let (Took 1 r) Any (u8 r) (done pieces) _ (u8-Safe r) tt λ x h.
      Safe-bind (Went x.1) Any (read_frame x.0 x.1) _ (read_frame-Safe x.0 x.1) λ y k.
        let on = λ (ps : List Piece).
          walk-Safe fuel y.1 ps (omega arith) (rw k.0 (rw h.0 (omega arith))) in
        next-Safe y.0 (walk fuel y.1 pieces) (done pieces) _ (on pieces) tt
          λ offset bytes. on (pieces ++ ((offset, bytes) ∷ []))

unless_empty-Safe : (bytes : Bytes) → Safe Any (unless_empty bytes)
unless_empty-Safe [] = tt
unless_empty-Safe (b ∷ bs) = tt

pub reassemble_crypto-Safe : (payload : Bytes) → Safe Any (reassemble_crypto payload)
unfolding reassemble_crypto new
reassemble_crypto-Safe payload =
    Safe-bind Any Any (walk (suc (length payload)) (new payload) []) _
      (walk-Safe (suc (length payload)) (new payload) [] (omega arith) (omega arith))
      λ pieces h. unless_empty-Safe _
