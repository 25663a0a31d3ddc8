-- ===== src/Sni/Frames.antt =====
-- `reassemble_crypto` of crates/sleepytale/src/sni.rs.
pub mod Bounds
use sleepytale.Base.{
  ℕ, zero, suc, ◌-◌, List, [], ◌∷◌, ◌++◌, ltb, leb, ◌==◌, ◌||◌, if◌then◌else◌, length, drop,
}
use sleepytale.Base.Bytes.{Bytes}
use sleepytale.Base.Outcome.{Outcome, done, refuse, panic, ◌>>=◌, try}
use sleepytale.Sni.Reader.{Reader, new, to_usize, take, u8, varint}

-- An offset of the stream, and the bytes of a CRYPTO frame.
abbrev pub Piece : Type 0
Piece = ℕ × Bytes

-- What a frame does to the walk: no piece, a piece, or the end of it.
pub data Frame : Type 0 where
  nothing : Frame
  crypto : ℕ → Bytes → Frame
  other : Frame

unfoldable pub skip_varints : ℕ → Reader → Outcome Reader
skip_varints zero r = done r
skip_varints (suc n) r = do (v, r') ← varint r; skip_varints n r'

-- `for _ in 0..ranges`
unfoldable pub skip_ranges : ℕ → Reader → Outcome Reader
skip_ranges zero r = done r
skip_ranges (suc n) r = do r' ← skip_varints 2 r; skip_ranges n r'

unfoldable pub read_ack : ℕ → Reader → Outcome Reader
unfolding skip_varints skip_ranges
read_ack frame r = do
  r1 ← skip_varints 2 r
  (ranges, r2) ← varint r1
  r3 ← skip_varints 1 r2
  r4 ← skip_ranges ranges r3
  skip_varints (if frame == 0x03 then 3 else 0) r4

unfoldable pub read_crypto : Reader → Outcome (Frame × Reader)
read_crypto r = do
  (offset, r1) ← varint r
  (long, r2) ← varint r1
  len ← try (to_usize long)
  (bytes, r3) ← take r2 len
  done (crypto offset bytes, r3)

-- The `match` on the type byte.
unfoldable pub read_frame : ℕ → Reader → Outcome (Frame × Reader)
unfolding read_ack read_crypto
read_frame frame r =
    if frame == 0x00 || frame == 0x01
    then done (nothing, r)
    else if frame == 0x02 || frame == 0x03
    then (do r' ← read_ack frame r; done (nothing, r'))
    else if frame == 0x06
    then read_crypto r
    else done (other, r)

-- `while let Some(frame) = r.u8()`; to run out of fuel counts as a panic.
unfoldable pub walk : ℕ → Reader → List Piece → Outcome (List Piece)
walk zero r pieces = panic
walk (suc fuel) r pieces = elim (u8 r) [
  | refuse ↦ done pieces
  | panic ↦ panic
  | done (frame, r1) ↦ do
    (f, r2) ← read_frame frame r1
    elim f [
      | nothing ↦ walk fuel r2 pieces
      | crypto offset bytes ↦ walk fuel r2 (pieces ++ ((offset, bytes) ∷ []))
      | other ↦ done pieces
    ]
]

-- `sort_by_key` by the offset, which is stable.
unfoldable pub insert_piece : Piece → List Piece → List Piece
insert_piece p [] = p ∷ []
insert_piece p (q ∷ qs) =
    let rest = q ∷ insert_piece p qs in if leb p.0 q.0 then p ∷ q ∷ qs else rest

unfoldable pub sort_pieces : List Piece → List Piece
unfolding insert_piece
sort_pieces [] = []
sort_pieces (p ∷ ps) = insert_piece p (sort_pieces ps)

-- The loop over the sorted pieces. `data.get(skip..)` beyond the end adds nothing, as `drop` does.
unfoldable pub join_pieces : Bytes → List Piece → Bytes
join_pieces have [] = have
join_pieces have ((offset, bytes) ∷ rest) =
    let joined = join_pieces (have ++ drop (length have - offset) bytes) rest in
    if ltb (length have) offset then have else joined

abbrev pub unless_empty : Bytes → Outcome Bytes
unless_empty [] = refuse
unless_empty (b ∷ bs) = done (b ∷ bs)

-- Each round takes a byte at least, and the last one finds none.
unfoldable pub reassemble_crypto : Bytes → Outcome Bytes
unfolding walk sort_pieces join_pieces
reassemble_crypto payload = do
  pieces ← walk (suc (length payload)) (new payload) []
  unless_empty (join_pieces [] (sort_pieces pieces))
