-- ===== src/Sni/RoundTrip/Frames.antt =====
-- The frames of an Initial as QUIC lays them out, for `reassemble_crypto` of
-- crates/sleepytale/src/sni.rs.
pub mod Read
use mathlib.Core.List.{append_assoc, append-nil}
use sleepytale.Base.{
  ℕ, zero, suc, ◌≤◌, ◌<◌, ◌^◌, ◌≡◌, ◌≢◌, refl, sym, ap, ◌∙◌, List, [], ◌∷◌, ◌++◌, length, arith,
  length-append, All, Option, none, some, ltb, true, ◌==◌, if◌then◌else◌,
}
use sleepytale.Base.Bytes.{Bytes}
use sleepytale.Base.Outcome.{done, refuse}
use sleepytale.Sni.Reader.{Reader, new, u8, varint, take}
use sleepytale.Sni.Frames.{
  Frame, nothing, crypto, other, Piece, skip_varints, skip_ranges, read_ack, read_crypto,
  read_frame, walk, unless_empty, reassemble_crypto,
}
use sleepytale.Sni.RoundTrip.{
  Ahead, Gives, Moves, Gives-bind, Moves-bind, u8-Gives, take-Gives, new-Ahead,
}
use sleepytale.Sni.RoundTrip.Stream.{IsSlice, Covers, join_pieces-sort_pieces}
use sleepytale.Sni.RoundTrip.Numbers.{varint_bytes, FitsVarint, varint-varint_bytes}

-- A number, behind the size that it is written with.
abbrev pub Number : Type 0
Number = ℕ × ℕ

abbrev pub IsNumber : Number → Type 0
IsNumber n = FitsVarint n.0 n.1

abbrev pub number : Number → Bytes → Bytes
number n rest = varint_bytes n.0 n.1 ++ rest

abbrev pub numbers : List Number → Bytes → Bytes
numbers [] rest = rest
numbers (n ∷ ns) rest = number n (numbers ns rest)

-- The gaps and lengths of the further ranges of an ACK.
abbrev pub ranges : List (Number × Number) → Bytes → Bytes
ranges [] rest = rest
ranges ((gap, long) ∷ rs) rest = number gap (number long (ranges rs rest))

pub record Ack : Type 0 where
  pub largest : Number
  pub delay : Number
  pub count_size : ℕ
  pub first : Number
  pub further : List (Number × Number)

pub data Sent : Type 0 where
  padding : Sent
  ping : Sent
  ack : Ack → Sent
  ack_ecn : Ack → Number → Number → Number → Sent
  crypto_at : Number → ℕ → Bytes → Sent

abbrev pub kind : Sent → ℕ
kind padding = 0x00
kind ping = 0x01
kind (ack a) = 0x02
kind (ack_ecn a x y z) = 0x03
kind (crypto_at offset size bytes) = 0x06

abbrev pub ack_bytes : Ack → Bytes → Bytes
ack_bytes a rest = number a.largest (
    number a.delay
      (number (a.count_size, length a.further) (number a.first (ranges a.further rest))))

abbrev pub fields : Sent → Bytes → Bytes
fields padding rest = rest
fields ping rest = rest
fields (ack a) rest = ack_bytes a rest
fields (ack_ecn a x y z) rest = ack_bytes a (numbers (x ∷ y ∷ z ∷ []) rest)
fields (crypto_at offset size bytes) rest =
    number offset (number (size, length bytes) (bytes ++ rest))

abbrev pub frames : List Sent → Bytes → Bytes
frames [] rest = rest
frames (s ∷ ss) rest = kind s ∷ fields s (frames ss rest)

abbrev pub piece_of : Sent → Option Piece
piece_of (crypto_at offset size bytes) = some (offset.1, bytes)
piece_of s = none

abbrev pub own_piece : Option Piece → List Piece
own_piece none = []
own_piece (some p) = p ∷ []

abbrev pub sent_pieces : List Sent → List Piece
sent_pieces [] = []
sent_pieces (s ∷ ss) = own_piece (piece_of s) ++ sent_pieces ss

abbrev pub IsAck : Ack → Type 0
IsAck a =
    IsNumber a.largest
    × IsNumber a.delay
    × IsNumber (a.count_size, length a.further)
    × IsNumber a.first
    × All (λ r. IsNumber r.0 × IsNumber r.1) a.further

-- The numbers fit into the sizes that they are written with.
abbrev pub IsSent : Sent → Type 0
IsSent padding = Unit
IsSent ping = Unit
IsSent (ack a) = IsAck a
IsSent (ack_ecn a x y z) = IsAck a × IsNumber x × IsNumber y × IsNumber z
IsSent (crypto_at offset size bytes) = IsNumber offset × IsNumber (size, length bytes)
