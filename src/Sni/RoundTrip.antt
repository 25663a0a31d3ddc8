-- ===== src/Sni/RoundTrip.antt =====
-- Reading what was written, for the readers of crates/sleepytale/src/sni.rs: a reader with the bytes
-- that lie ahead of it. The children take the formats one by one.
pub mod Numbers
pub mod Hello
pub mod Stream
pub mod Frames
pub mod Packet
pub mod Protection
pub mod Message
use sleepytale.Base.{
  ℕ, ◌+◌, ◌-◌, ◌*◌, ◌≤◌, ◌<◌, ◌^◌, ◌≡◌, refl, sym, ap, ◌∙◌, List, [], ◌∷◌, ◌++◌, length, arith,
  drop-append, take-append, drop-drop, length-append, drop, ltb, leb, if◌then◌else◌, true,
}
use mathlib.Core.List.{append-nil}
use sleepytale.Base.{take as list_take, some}
use sleepytale.Base.Bytes.{Bytes}
use sleepytale.Base.Outcome.{Outcome, done, ◌>>=◌, try, index, get_range}
use sleepytale.Sni.Reader.{Reader, Read, new, take, skip, u8, u16, u24, u32, cid}

-- The rest of a reader's bytes, of which there are fewer than 2 to the 64.
abbrev pub Ahead : Reader → Bytes → Type 0
Ahead r rest =
    (drop r.at r.bytes ≡ rest) × (r.at + length rest ≡ length r.bytes) × (length r.bytes < 2 ^ 64)

-- A read gives a value, and leaves a rest ahead.
abbrev pub Gives : {A : Type 0} → Read A → A → Bytes → Type 0
Gives m a rest = (r : Reader) × (m ≡ done (a, r)) × Ahead r rest

abbrev pub Moves : Outcome Reader → Bytes → Type 0
Moves m rest = (r : Reader) × (m ≡ done r) × Ahead r rest

module _ {A B : Type 0} where
  pub Gives-bind :
      (P : Outcome B → Type 0) (m : Read A) (f : A × Reader → Outcome B) (a : A) (rest : Bytes)
      → Gives m a rest
      → ((r : Reader) → Ahead r rest → P (f (a, r)))
      → P (m >>= f)
  Gives-bind P m f a rest (r, e, h) k = rw e (k r h)

module _ {B : Type 0} where
  pub Moves-bind :
      (P : Outcome B → Type 0) (m : Outcome Reader) (f : Reader → Outcome B) (rest : Bytes)
      → Moves m rest
      → ((r : Reader) → Ahead r rest → P (f r))
      → P (m >>= f)
  Moves-bind P m f rest (r, e, h) k = rw e (k r h)

pub new-Ahead : (bytes : Bytes) → length bytes < 2 ^ 64 → Ahead (new bytes) bytes
unfolding new
new-Ahead bytes small = (refl, omega arith, small)

-- The slice between two places of a reader.
slice_ahead :
    (r : Reader) (body rest : Bytes)
    → drop r.at r.bytes ≡ body ++ rest
    → list_take (r.at + length body - r.at) (drop r.at r.bytes) ≡ body
slice_ahead r body rest e =
    let n : r.at + length body - r.at ≡ length body = omega arith in
    rw (n, e) (take-append body rest)

pub take-Gives :
    (r : Reader) (body rest : Bytes)
    → Ahead r (body ++ rest)
    → Gives (take r (length body)) body rest
unfolding take
take-Gives r body rest (e, sizes, small) =
    let parts = length-append body rest in
    (
      record r { at = r.at + length body },
      ground (arith, slice_ahead r body rest e, parts, sizes, small),
      (
        sym (drop-drop r.at (length body) r.bytes)
            ∙ (ap (drop (length body)) e ∙ drop-append body rest),
        omega (arith, parts, sizes),
        small,
      ),
    )

-- All that is left.
pub take-Gives_all :
    (r : Reader) (body : Bytes) → Ahead r body → Gives (take r (length body)) body []
take-Gives_all r body h = take-Gives r body [] (rw append-nil h)

-- As many bytes as a number says.
pub take-Gives_number :
    (r : Reader) (n : ℕ) (body rest : Bytes)
    → n ≡ length body
    → Ahead r (body ++ rest)
    → Gives (take r n) body rest
take-Gives_number r n body rest e h = rw e (take-Gives r body rest h)

pub skip-Moves :
    (r : Reader) (n : ℕ) (body rest : Bytes)
    → n ≡ length body
    → Ahead r (body ++ rest)
    → Moves (skip r n) rest
unfolding skip
skip-Moves r n body rest e h =
    Gives-bind (λ o. Moves o rest) (take r n) _ body rest (take-Gives_number r n body rest e h)
      λ r' k. (r', refl, k)

pub u8-Gives : (r : Reader) (b : ℕ) (rest : Bytes) → Ahead r (b ∷ rest) → Gives (u8 r) b rest
unfolding u8
u8-Gives r b rest h =
    Gives-bind (λ o. Gives o b rest) (take r 1) _ (b ∷ []) rest (take-Gives r (b ∷ []) rest h)
      λ r' k. (r', refl, k)

pub u16-Gives :
    (r : Reader) (a b : ℕ) (rest : Bytes)
    → Ahead r (a ∷ b ∷ rest)
    → Gives (u16 r) (a * 2 ^ 8 + b) rest
unfolding u16
u16-Gives r a b rest h =
    Gives-bind (λ o. Gives o (a * 2 ^ 8 + b) rest) (take r 2) _ (a ∷ b ∷ []) rest
      (take-Gives r (a ∷ b ∷ []) rest h) λ r' k. (r', refl, k)

pub u24-Gives :
    (r : Reader) (a b c : ℕ) (rest : Bytes)
    → Ahead r (a ∷ b ∷ c ∷ rest)
    → Gives (u24 r) (a * 2 ^ 16 + b * 2 ^ 8 + c) rest
unfolding u24
u24-Gives r a b c rest h =
    Gives-bind (λ o. Gives o (a * 2 ^ 16 + b * 2 ^ 8 + c) rest) (take r 3) _ (a ∷ b ∷ c ∷ []) rest
      (take-Gives r (a ∷ b ∷ c ∷ []) rest h) λ r' k. (r', refl, k)

pub u32-Gives :
    (r : Reader) (a b c d : ℕ) (rest : Bytes)
    → Ahead r (a ∷ b ∷ c ∷ d ∷ rest)
    → Gives (u32 r) (a * 2 ^ 24 + b * 2 ^ 16 + c * 2 ^ 8 + d) rest
unfolding u32
u32-Gives r a b c d rest h =
    Gives-bind (λ o. Gives o (a * 2 ^ 24 + b * 2 ^ 16 + c * 2 ^ 8 + d) rest) (take r 4) _
      (a ∷ b ∷ c ∷ d ∷ []) rest (take-Gives r (a ∷ b ∷ c ∷ d ∷ []) rest h) λ r' k. (r', refl, k)
