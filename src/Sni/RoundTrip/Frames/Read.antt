-- ===== src/Sni/RoundTrip/Frames/Read.antt =====
-- The readers of the frames in crates/sleepytale/src/sni.rs on frames that are laid out by the parent.
use mathlib.Core.List.{append_assoc, append-nil}
use sleepytale.Base.{
  ℕ, zero, suc, ◌≤◌, ◌<◌, ◌^◌, ◌≡◌, ◌≢◌, refl, sym, ap, ◌∙◌, List, [], ◌∷◌, ◌++◌, length, arith,
  length-append, All, Option, none, some, ltb, true, ◌==◌, if◌then◌else◌,
}
use sleepytale.Base.Bytes.{Bytes}
use sleepytale.Base.Outcome.{done, refuse}
use sleepytale.Sni.Reader.{Reader, new, u8, varint, take}
use sleepytale.Sni.Frames.{
  Frame, nothing, crypto, other, Piece, skip_varints, skip_ranges, read_ack, read_crypto,
  read_frame, walk, unless_empty, reassemble_crypto,
}
use sleepytale.Sni.RoundTrip.{
  Ahead, Gives, Moves, Gives-bind, Moves-bind, u8-Gives, take-Gives, new-Ahead,
}
use sleepytale.Sni.RoundTrip.Stream.{IsSlice, Covers, join_pieces-sort_pieces}
use sleepytale.Sni.RoundTrip.Numbers.{varint_bytes, varint-varint_bytes}
use sleepytale.Sni.RoundTrip.Frames.{
  Ack, IsAck, IsNumber, IsSent, Number, Sent, ack, ack_bytes, ack_ecn, crypto_at, fields, frames,
  kind, number, numbers, own_piece, padding, piece_of, ping, ranges, sent_pieces,
}

skip_varints-Moves :
    (ns : List Number) (r : Reader) (rest : Bytes)
    → All IsNumber ns
    → Ahead r (numbers ns rest)
    → Moves (skip_varints (length ns) r) rest
unfolding skip_varints
skip_varints-Moves [] r rest ok h = (r, refl, h)
skip_varints-Moves (n ∷ ns) r rest (ok, oks) h =
    Gives-bind (λ o. Moves o rest) (varint r) _ n.1 (numbers ns rest)
      (varint-varint_bytes n.0 n.1 ok r _ h) λ r1 h1. skip_varints-Moves ns r1 rest oks h1

skip_ranges-Moves :
    (rs : List (Number × Number)) (r : Reader) (rest : Bytes)
    → All (λ r. IsNumber r.0 × IsNumber r.1) rs
    → Ahead r (ranges rs rest)
    → Moves (skip_ranges (length rs) r) rest
unfolding skip_ranges
skip_ranges-Moves [] r rest ok h = (r, refl, h)
skip_ranges-Moves ((gap, long) ∷ rs) r rest (ok, oks) h =
    Moves-bind (λ o. Moves o rest) (skip_varints 2 r) _ (ranges rs rest)
      (skip_varints-Moves (gap ∷ long ∷ []) r _ (ok.0, (ok.1, tt)) h)
      λ r1 h1. skip_ranges-Moves rs r1 rest oks h1

read_ack-Moves :
    (frame : ℕ) (counts : List Number) (a : Ack) (r : Reader) (rest : Bytes)
    → (if frame == 0x03 then 3 else 0) ≡ length counts
    → All IsNumber counts
    → IsAck a
    → Ahead r (ack_bytes a (numbers counts rest))
    → Moves (read_ack frame r) rest
unfolding read_ack
read_ack-Moves frame counts a r rest e oks ok h =
    let last = numbers counts rest in
    let third = number a.first (ranges a.further last) in
    Moves-bind (λ o. Moves o rest) (skip_varints 2 r) _
      (number (a.count_size, length a.further) third)
      (skip_varints-Moves (a.largest ∷ a.delay ∷ []) r _ (ok.0, (ok.1, tt)) h)
      λ r1 h1.
        Gives-bind (λ o. Moves o rest) (varint r1) _ (length a.further) third
          (varint-varint_bytes a.count_size (length a.further) ok.2 r1 third h1)
          λ r2 h2.
            Moves-bind (λ o. Moves o rest) (skip_varints 1 r2) _ (ranges a.further last)
              (skip_varints-Moves (a.first ∷ []) r2 _ (ok.3, tt) h2)
              λ r3 h3.
                Moves-bind (λ o. Moves o rest) (skip_ranges (length a.further) r3) _ last
                  (skip_ranges-Moves a.further r3 last ok.4 h3)
                  λ r4 h4. rw e (skip_varints-Moves counts r4 rest oks h4)

read_crypto-Gives :
    (offset : Number) (size : ℕ) (bytes : Bytes) (r : Reader) (rest : Bytes)
    → IsNumber offset
    → IsNumber (size, length bytes)
    → Ahead r (number offset (number (size, length bytes) (bytes ++ rest)))
    → Gives (read_crypto r) (crypto offset.1 bytes) rest
unfolding read_crypto
read_crypto-Gives offset size bytes r rest ok fits h =
    Gives-bind (λ o. Gives o (crypto offset.1 bytes) rest) (varint r) _ offset.1
      (number (size, length bytes) (bytes ++ rest)) (varint-varint_bytes offset.0 offset.1 ok r _ h)
      λ r1 h1.
        Gives-bind (λ o. Gives o (crypto offset.1 bytes) rest) (varint r1) _ (length bytes)
          (bytes ++ rest) (varint-varint_bytes size (length bytes) fits r1 _ h1)
          λ r2 h2.
            let fit : ltb (length bytes) (2 ^ 64) ≡ true =
              ground (arith, length-append bytes rest, h2.1, h2.2) in
            rw fit (
              Gives-bind (λ o. Gives o (crypto offset.1 bytes) rest) (take r2 (length bytes)) _
                bytes rest (take-Gives r2 bytes rest h2) λ r3 h3. (r3, refl, h3))

abbrev frame_of : Option Piece → Frame
frame_of none = nothing
frame_of (some p) = crypto p.0 p.1

read_frame-Gives :
    (s : Sent) (r : Reader) (rest : Bytes)
    → IsSent s
    → Ahead r (fields s rest)
    → Gives (read_frame (kind s) r) (frame_of (piece_of s)) rest
unfolding read_frame
read_frame-Gives padding r rest ok h = (r, refl, h)
read_frame-Gives ping r rest ok h = (r, refl, h)
read_frame-Gives (ack a) r rest ok h =
    Moves-bind (λ o. Gives o nothing rest) (read_ack 0x02 r) _ rest
      (read_ack-Moves 0x02 [] a r rest refl tt ok h) λ r' h'. (r', refl, h')
read_frame-Gives (ack_ecn a x y z) r rest ok h =
    Moves-bind (λ o. Gives o nothing rest) (read_ack 0x03 r) _ rest
      (read_ack-Moves 0x03 (x ∷ y ∷ z ∷ []) a r rest refl (ok.1, (ok.2, (ok.3, tt))) ok.0 h)
      λ r' h'. (r', refl, h')
read_frame-Gives (crypto_at offset size bytes) r rest ok h =
    read_crypto-Gives offset size bytes r rest ok.0 ok.1 h

module _ (fuel k : ℕ) (r r1 r2 : Reader) (pieces : List Piece) (taken : u8 r ≡ done (k, r1)) where
  walk_frame :
      (p : Option Piece)
      → read_frame k r1 ≡ done (frame_of p, r2)
      → walk (suc fuel) r pieces ≡ walk fuel r2 (pieces ++ own_piece p)
  unfolding walk
  walk_frame none h = rw (taken, walk, h, append-nil pieces)
  walk_frame (some p) h = rw (taken, walk, h)

append_size : (xs rest : Bytes) (n : ℕ) → n ≤ length rest → n ≤ length (xs ++ rest)
append_size xs rest n h = omega (arith, length-append xs rest)

numbers_size : (ns : List Number) (rest : Bytes) → length rest ≤ length (numbers ns rest)
numbers_size [] rest = omega arith
numbers_size (n ∷ ns) rest = append_size (varint_bytes n.0 n.1) _ _ (numbers_size ns rest)

ranges_size : (rs : List (Number × Number)) (rest : Bytes) → length rest ≤ length (ranges rs rest)
ranges_size [] rest = omega arith
ranges_size ((gap, long) ∷ rs) rest =
    append_size (varint_bytes gap.0 gap.1) _ _
      (append_size (varint_bytes long.0 long.1) _ _ (ranges_size rs rest))

ack_size : (a : Ack) (rest : Bytes) → length rest ≤ length (ack_bytes a rest)
ack_size a rest = omega (
  arith,
  ranges_size a.further rest,
  numbers_size (a.largest ∷ a.delay ∷ (a.count_size, length a.further) ∷ a.first ∷ [])
      (ranges a.further rest),
)

fields_size : (s : Sent) (rest : Bytes) → length rest ≤ length (fields s rest)
fields_size padding rest = omega arith
fields_size ping rest = omega arith
fields_size (ack a) rest = ack_size a rest
fields_size (ack_ecn a x y z) rest =
    omega (arith, ack_size a (numbers (x ∷ y ∷ z ∷ []) rest), numbers_size (x ∷ y ∷ z ∷ []) rest)
fields_size (crypto_at offset size bytes) rest = omega (
  arith,
  numbers_size (offset ∷ (size, length bytes) ∷ []) (bytes ++ rest),
  length-append bytes rest,
)

unless_empty_lem : (s : Bytes) → 1 ≤ length s → unless_empty s ≡ done s
unless_empty_lem [] h = absurd (omega arith)
unless_empty_lem (b ∷ s) h = refl

-- Nothing, or a frame that ends the walk.
abbrev pub Ended : Bytes → Type 0
Ended [] = Unit
Ended (b ∷ bs) = (b ≢ 0x00) × (b ≢ 0x01) × (b ≢ 0x02) × (b ≢ 0x03) × (b ≢ 0x06)

u8-Ahead : (r : Reader) → Ahead r [] → u8 r ≡ refuse
unfolding u8 take
u8-Ahead r h = ground (arith, h.1)

walk-Ended :
    (fuel : ℕ) (rest : Bytes) (r : Reader) (pieces : List Piece)
    → Ended rest
    → Ahead r rest
    → walk (suc fuel) r pieces ≡ done pieces
unfolding walk read_frame
walk-Ended fuel [] r pieces e h = rw (u8-Ahead r h, walk)
walk-Ended fuel (b ∷ bs) r pieces e h =
    let (r1, e1, h1) = u8-Gives r b bs h in
    let unknown : read_frame b r1 ≡ done (other, r1) = ground (arith, e.0, e.1, e.2, e.3, e.4) in
    rw (e1, walk) (rw unknown)

walk-frames :
    (fuel : ℕ) (ss : List Sent) (rest : Bytes) (r : Reader) (pieces : List Piece)
    → All IsSent ss
    → Ended rest
    → length (frames ss rest) < fuel
    → Ahead r (frames ss rest)
    → walk fuel r pieces ≡ done (pieces ++ sent_pieces ss)
walk-frames zero ss rest r pieces oks e enough h = absurd (omega arith)
walk-frames (suc fuel) [] rest r pieces oks e enough h =
    walk-Ended fuel rest r pieces e h ∙ ap done (sym (append-nil pieces))
walk-frames (suc fuel) (s ∷ ss) rest r pieces (ok, oks) e enough h =
    let own = own_piece (piece_of s) in
    let (r1, e1, h1) = u8-Gives r (kind s) _ h in
    let (r2, e2, h2) = read_frame-Gives s r1 (frames ss rest) ok h1 in
    let less : length (frames ss rest) < fuel = omega (arith, fields_size s (frames ss rest)) in
    walk_frame fuel (kind s) r r1 r2 pieces e1 (piece_of s) e2
    ∙ (walk-frames fuel ss rest r2 (pieces ++ own) oks e less h2
        ∙ ap done (append_assoc pieces own (sent_pieces ss)))

-- The frames of an Initial give the stream that their CRYPTO frames are pieces of.
pub reassemble_crypto-frames :
    (stream : Bytes) (ss : List Sent) (rest : Bytes)
    → All IsSent ss
    → Ended rest
    → All (IsSlice stream) (sent_pieces ss)
    → ((i : ℕ) → i < length stream → Covers (sent_pieces ss) i)
    → 1 ≤ length stream
    → length (frames ss rest) < 2 ^ 64
    → reassemble_crypto (frames ss rest) ≡ done stream
unfolding reassemble_crypto
reassemble_crypto-frames stream ss rest oks e slices covered some_bytes small =
    let payload = frames ss rest in
    rw
      (
        walk-frames (suc (length payload)) ss rest (new payload) [] oks e (omega arith)
            (new-Ahead payload small),
        join_pieces-sort_pieces stream (sent_pieces ss) slices covered,
      )
      (unless_empty_lem stream some_bytes)
