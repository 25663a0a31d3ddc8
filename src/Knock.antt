-- ===== src/Knock.antt =====
-- crates/sleepytale/src/knock.rs: the shape of a client Initial.
pub mod Shape
use Prim.Native.Nat.{bit_and}
use sleepytale.Base.{ℕ, Bool, false, [], ◌∷◌, ◌&&◌, ◌||◌, leb, ◌==◌, if◌then◌else◌, length}
use sleepytale.Base.Bytes.{Bytes, bytes_eqb}
use sleepytale.Base.Outcome.{Outcome, done, refuse, panic, ◌>>=◌, index, get_range, at_index}

abbrev pub min_initial : ℕ
min_initial = 1200

abbrev pub quic_v1 : Bytes
quic_v1 = 0x00 ∷ 0x00 ∷ 0x00 ∷ 0x01 ∷ []

abbrev pub quic_v2 : Bytes
quic_v2 = 0x6b ∷ 0x33 ∷ 0x43 ∷ 0xcf ∷ []

-- The body of `is_quic_initial`; the slices are indexed only behind the test of the length.
unfoldable pub initial_shape : Bytes → Outcome Bool
unfolding bytes_eqb
initial_shape datagram =
    if leb min_initial (length datagram)
    then (do
      version ← at_index (get_range datagram 1 5)
      first ← index datagram 0
      done (
          (bytes_eqb version quic_v1 && bit_and first 0b1111_0000 == 0b1100_0000)
          || (bytes_eqb version quic_v2 && bit_and first 0b1111_0000 == 0b1101_0000)))
    else done false

abbrev holds : Outcome Bool → Bool
holds (done b) = b
holds refuse = false
holds panic = false

unfoldable pub is_quic_initial : Bytes → Bool
unfolding initial_shape
is_quic_initial datagram = holds (initial_shape datagram)
