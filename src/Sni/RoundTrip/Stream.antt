-- ===== src/Sni/RoundTrip/Stream.antt =====
-- The pieces of a stream put together, for `reassemble_crypto` of crates/sleepytale/src/sni.rs.
use mathlib.Core.List.{append_assoc, append-nil}
use sleepytale.Base.{
  take-append-drop, ℕ, zero, suc, ◌+◌, ◌-◌, ◌≤◌, ◌<◌, ◌≡◌, refl, sym, ap, ◌∙◌, ◌⊎◌, inl, inr, List,
  [], ◌∷◌, ◌++◌, length, arith, length-append, length-drop, All, take, drop, drop-append, drop-drop,
  Bool-cases, ltb, leb,
}
use sleepytale.Base.Bytes.{Bytes}
use sleepytale.Sni.Frames.{Piece, insert_piece, sort_pieces, join_pieces}

-- The piece has the bytes that the stream has from its offset on.
abbrev pub IsSlice : Bytes → Piece → Type 0
IsSlice s (offset, bytes) = bytes ≡ take (length bytes) (drop offset s)

-- A piece has the byte at this place of the stream.
abbrev pub Covers : List Piece → ℕ → Type 0
Covers [] i = ⊥
Covers ((offset, bytes) ∷ ps) i = ((offset ≤ i) × (i < offset + length bytes)) ⊎ Covers ps i

abbrev IsSorted : List Piece → Type 0
IsSorted [] = Unit
IsSorted (p ∷ ps) = All (λ q. p.0 ≤ q.0) ps × IsSorted ps

All-insert_piece :
    (P : Piece → Type 0) (p : Piece) (ps : List Piece) → P p → All P ps → All P (insert_piece p ps)
unfolding insert_piece
All-insert_piece P p [] h hs = (h, tt)
All-insert_piece P p (q ∷ qs) h (k, ks) =
    let rest = All-insert_piece P p qs h ks in
    elim (Bool-cases (leb p.0 q.0)) [ inl e ↦ rw e (h, (k, ks)) | inr e ↦ rw e (k, rest) ]

lower_bound : (n m : ℕ) (ps : List Piece) → n ≤ m → All (λ q. m ≤ q.0) ps → All (λ q. n ≤ q.0) ps
lower_bound n m [] h hs = tt
lower_bound n m (q ∷ qs) h (k, ks) = (omega arith, lower_bound n m qs h ks)

insert_piece-IsSorted : (p : Piece) (ps : List Piece) → IsSorted ps → IsSorted (insert_piece p ps)
unfolding insert_piece
insert_piece-IsSorted p [] h = (tt, tt)
insert_piece-IsSorted p (q ∷ qs) (h, hs) =
    let rest = insert_piece-IsSorted p qs hs in
    elim (Bool-cases (leb p.0 q.0)) [
      | inl e ↦ rw e ((ground arith, lower_bound p.0 q.0 qs (ground arith) h), (h, hs))
      | inr e ↦ rw e (All-insert_piece (λ x. q.0 ≤ x.0) p qs (ground arith) h, rest)
    ]

Covers-insert_piece :
    (p : Piece) (ps : List Piece) (i : ℕ) → Covers (p ∷ ps) i → Covers (insert_piece p ps) i
unfolding insert_piece
Covers-insert_piece p [] i h = h
Covers-insert_piece p (q ∷ qs) i h = elim (Bool-cases (leb p.0 q.0)) [
  | inl e ↦ rw e h
  | inr e ↦ rw e (elim h [
    | inl own ↦ inr (Covers-insert_piece p qs i (inl own))
    | inr (inl other) ↦ inl other
    | inr (inr rest) ↦ inr (Covers-insert_piece p qs i (inr rest))
  ])
]

sort_pieces-IsSorted : (ps : List Piece) → IsSorted (sort_pieces ps)
unfolding sort_pieces
sort_pieces-IsSorted [] = tt
sort_pieces-IsSorted (p ∷ ps) = insert_piece-IsSorted p (sort_pieces ps) (sort_pieces-IsSorted ps)

All-sort_pieces : (P : Piece → Type 0) (ps : List Piece) → All P ps → All P (sort_pieces ps)
unfolding sort_pieces
All-sort_pieces P [] h = tt
All-sort_pieces P (p ∷ ps) (h, hs) =
    All-insert_piece P p (sort_pieces ps) h (All-sort_pieces P ps hs)

Covers-sort_pieces : (ps : List Piece) (i : ℕ) → Covers ps i → Covers (sort_pieces ps) i
unfolding sort_pieces
Covers-sort_pieces [] i h = h
Covers-sort_pieces (p ∷ ps) i h =
    Covers-insert_piece p (sort_pieces ps) i
      (elim h [ inl own ↦ inl own | inr rest ↦ inr (Covers-sort_pieces ps i rest) ])

take-nil : (n : ℕ) → ◌≡◌ {A = Bytes} (take n []) []
take-nil zero = refl
take-nil (suc n) = refl

as_long : (n m : ℕ) (xs : Bytes) → n ≡ m → take n xs ≡ take m xs
as_long n m xs e = ap (λ k. take k xs) e

drop-take : (n m : ℕ) (xs : Bytes) → drop n (take m xs) ≡ take (m - n) (drop n xs)
drop-take zero m xs = as_long m (m - 0) xs (omega arith)
drop-take (suc n) zero [] = sym (take-nil (0 - suc n))
drop-take (suc n) zero (x ∷ xs) = as_long 0 (0 - suc n) (drop n xs) (omega arith)
drop-take (suc n) (suc m) [] = sym (take-nil (suc m - suc n))
drop-take (suc n) (suc m) (x ∷ xs) =
    drop-take n m xs ∙ as_long (m - n) (suc m - suc n) (drop n xs) (omega arith)

module _ (s : Bytes) where
  -- What a piece adds to a front of the stream.
  added :
      (front rest : Bytes) (p : Piece)
      → s ≡ front ++ rest
      → IsSlice s p
      → p.0 ≤ length front
      → drop (length front - p.0) p.1 ≡ take (length p.1 - (length front - p.0)) rest
  added front rest p e slice near =
      let n = length front - p.0 in
      ap (drop n) slice
      ∙ (drop-take n (length p.1) (drop p.0 s)
          ∙ ap (take (length p.1 - n)) (
              drop-drop p.0 n s
              ∙ (ap (λ k. drop k s) (omega arith)
                  ∙ (ap (drop (length front)) e ∙ drop-append front rest))))

  Covers-far : (n : ℕ) (ps : List Piece) → All (λ q. n ≤ q.0) ps → (i : ℕ) → i < n → Covers ps i → ⊥
  Covers-far n [] h i small c = c
  Covers-far n (q ∷ qs) (h, hs) i small (inl own) = omega arith
  Covers-far n (q ∷ qs) (h, hs) i small (inr c) = Covers-far n qs hs i small c

  stops : (front rest : Bytes) → s ≡ front ++ rest → (length front < length s → ⊥) → front ≡ s
  stops front [] e h = sym (e ∙ append-nil front)
  stops front (x ∷ rest) e h =
      absurd (h (omega (arith, ap length e, length-append front (x ∷ rest))))

  -- Sorted pieces are joined behind a front of the stream, up to its end.
  join_pieces-Covers :
      (front rest : Bytes) (ps : List Piece)
      → s ≡ front ++ rest
      → IsSorted ps
      → All (IsSlice s) ps
      → ((i : ℕ) → length front ≤ i → i < length s → Covers ps i)
      → join_pieces front ps ≡ s
  unfolding join_pieces
  join_pieces-Covers front rest [] e order slices covered =
      stops front rest e (λ more. covered (length front) (omega arith) more)
  join_pieces-Covers front rest ((o, b) ∷ ps) e (low, order) (slice, slices) covered =
      let k = length front - o in
      let m = length b - k in
      elim (Bool-cases (ltb (length front) o)) [
        | inl gap ↦ rw gap (
            stops front rest e λ more. elim (covered (length front) (omega arith) more) [
              | inl own ↦ ground arith
              | inr c ↦ Covers-far o ps low (length front) (ground arith) c
            ])
        | inr near ↦
            let piece : drop k b ≡ take m rest = added front rest (o, b) e slice (ground arith) in
            let e' : s ≡ (front ++ drop k b) ++ drop m rest =
              rw (piece, append_assoc front (take m rest) (drop m rest), take-append-drop m rest)
                e in
            rw near (
              join_pieces-Covers (front ++ drop k b) (drop m rest) ps e' order slices
                λ i behind inside.
                  let size = length-append front (drop k b) in
                  elim (covered i (omega arith) inside) [
                    | inl own ↦ absurd (ground (arith, length-drop k b))
                    | inr c ↦ c
                  ])
      ]

-- Pieces of a stream that cover it give it back, whatever their order is and however they overlap.
pub join_pieces-sort_pieces :
    (s : Bytes) (ps : List Piece)
    → All (IsSlice s) ps
    → ((i : ℕ) → i < length s → Covers ps i)
    → join_pieces [] (sort_pieces ps) ≡ s
join_pieces-sort_pieces s ps slices covered =
    join_pieces-Covers s [] s (sort_pieces ps) refl (sort_pieces-IsSorted ps)
      (All-sort_pieces (IsSlice s) ps slices)
      λ i behind inside. Covers-sort_pieces ps i (covered i inside)
