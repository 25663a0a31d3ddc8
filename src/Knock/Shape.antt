-- ===== src/Knock/Shape.antt =====
-- What crates/sleepytale/src/knock.rs takes for an Initial.
use Prim.Native.Nat.{bit_and}
use sleepytale.Base.{ℕ, ◌≤◌, ◌≡◌, ◌↔◌, ◌⊎◌, refl, true, [], ◌∷◌, ◌++◌, length, arith}
use sleepytale.Base.Bytes.{Bytes, bytes_eqb}
use sleepytale.Base.Outcome.{done}
use sleepytale.Knock.{min_initial, quic_v1, quic_v2, initial_shape, is_quic_initial}

-- A first byte with the given upper half, and the version.
abbrev pub OpensWith : ℕ → Bytes → Bytes → Type 0
OpensWith half version datagram =
    (first : ℕ) × (rest : Bytes) × (datagram ≡ first ∷ (version ++ rest))
    × (bit_and first 0b1111_0000 ≡ half)

-- `is_quic_initial` indexes nothing out of range.
pub initial_shape-done :
    (datagram : Bytes) → initial_shape datagram ≡ done (is_quic_initial datagram)
unfolding initial_shape is_quic_initial
initial_shape-done [] = refl
initial_shape-done (a ∷ []) = refl
initial_shape-done (a ∷ b ∷ []) = refl
initial_shape-done (a ∷ b ∷ c ∷ []) = refl
initial_shape-done (a ∷ b ∷ c ∷ d ∷ []) = refl
initial_shape-done (a ∷ b ∷ c ∷ d ∷ e ∷ rest) = ground arith

-- The comparison of the first five bytes.
opens_iff :
    (a b c d e : ℕ) (rest : Bytes) (half v w x y : ℕ)
    → ((bytes_eqb (b ∷ c ∷ d ∷ e ∷ []) (v ∷ w ∷ x ∷ y ∷ []) ≡ true)
        × (bit_and a 0b1111_0000 ≡ half))
      ↔ OpensWith half (v ∷ w ∷ x ∷ y ∷ []) (a ∷ b ∷ c ∷ d ∷ e ∷ rest)
unfolding bytes_eqb
opens_iff a b c d e rest half v w x y = (
  λ h. (a, rest, ground (arith, h.0), h.1),
  λ (first, tail, e, h). (ground (arith, e), ground (arith, e, h)),
)

-- A datagram counts as an Initial exactly when it has 1200 bytes at least and opens with the
-- long header of an Initial of QUIC version 1, or of version 2.
pub is_quic_initial_iff :
    (datagram : Bytes)
    → (is_quic_initial datagram ≡ true) ↔ (
        (min_initial ≤ length datagram)
        × (OpensWith 0b1100_0000 quic_v1 datagram ⊎ OpensWith 0b1101_0000 quic_v2 datagram))
unfolding initial_shape is_quic_initial
is_quic_initial_iff [] = (λ h. absurd cc, λ h. absurd (omega (arith, h.0)))
is_quic_initial_iff (a ∷ []) = (λ h. absurd cc, λ h. absurd (omega (arith, h.0)))
is_quic_initial_iff (a ∷ b ∷ []) = (λ h. absurd cc, λ h. absurd (omega (arith, h.0)))
is_quic_initial_iff (a ∷ b ∷ c ∷ []) = (λ h. absurd cc, λ h. absurd (omega (arith, h.0)))
is_quic_initial_iff (a ∷ b ∷ c ∷ d ∷ []) = (λ h. absurd cc, λ h. absurd (omega (arith, h.0)))
is_quic_initial_iff (a ∷ b ∷ c ∷ d ∷ e ∷ rest) =
    let one = opens_iff a b c d e rest 0b1100_0000 0x00 0x00 0x00 0x01 in
    let two = opens_iff a b c d e rest 0b1101_0000 0x6b 0x33 0x43 0xcf in
    ground (arith, one.0, one.1, two.0, two.1)
