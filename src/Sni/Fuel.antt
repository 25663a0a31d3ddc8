-- ===== src/Sni/Fuel.antt =====
-- The loops of crates/sleepytale/src/sni.rs end: more fuel than bytes changes nothing.
use sleepytale.Base.{
  ℕ, zero, suc, ◌+◌, ◌≡◌, ◌≢◌, refl, sym, ap, ◌∙◌, Bool, true, false, List, [], ◌∷◌, ◌++◌, length,
  arith, ◌==◌, ◌&&◌, leb, if◌then◌else◌,
}
use sleepytale.Base.Bytes.{Bytes}
use sleepytale.Base.Outcome.{Outcome, done, refuse, panic, ◌>>=◌, try}
use sleepytale.Base.Safe.{Safe, Any, Safe-ne-panic}
use sleepytale.Sni.Reader.{Reader, new, u8, u16, take}
use sleepytale.Sni.Utf8.{from_utf8}
use sleepytale.Sni.Frames.{Frame, nothing, crypto, other, Piece, read_frame, walk}
use sleepytale.Sni.Frames.Bounds.{walk-Safe}
use sleepytale.Sni.Hello.{max_server_name, find_host_name, find_server_name, server_name_list}
use sleepytale.Sni.Hello.Bounds.{find_host_name-Safe, find_server_name-Safe}

-- The second is the first, unless that ran out.
abbrev Extends : {A : Type 0} → Outcome A → Outcome A → Type 0
Extends m m' = m ≢ panic → m' ≡ m

module _ {A B : Type 0} where
  Extends-bind :
      (m : Outcome A) (f g : A → Outcome B)
      → ((a : A) → Extends (f a) (g a))
      → Extends (m >>= f) (m >>= g)
  Extends-bind (done a) f g h n = h a n
  Extends-bind refuse f g h n = refl
  Extends-bind panic f g h n = refl

  Extends-while_let :
      (m : Outcome A) (stop : Outcome B) (f g : A → Outcome B)
      → ((a : A) → Extends (f a) (g a))
      → Extends
          (elim m [ refuse ↦ stop | panic ↦ panic | done a ↦ f a ])
          (elim m [ refuse ↦ stop | panic ↦ panic | done a ↦ g a ])
  Extends-while_let (done a) stop f g h n = h a n
  Extends-while_let refuse stop f g h n = refl
  Extends-while_let panic stop f g h n = refl

Extends-if :
    {B : Type 0} (b : Bool) (m n n' : Outcome B)
    → Extends n n'
    → Extends (if b then m else n) (if b then m else n')
Extends-if true m n n' h k = refl
Extends-if false m n n' h k = h k

next-Extends :
    (f : Frame) (on on' stop : Outcome (List Piece))
    (joined joined' : ℕ → Bytes → Outcome (List Piece))
    → Extends on on'
    → ((offset : ℕ) (bytes : Bytes) → Extends (joined offset bytes) (joined' offset bytes))
    → Extends
        (elim f [ nothing ↦ on | crypto offset bytes ↦ joined offset bytes | other ↦ stop ])
        (elim f [ nothing ↦ on' | crypto offset bytes ↦ joined' offset bytes | other ↦ stop ])
next-Extends nothing on on' stop joined joined' h k n = h n
next-Extends (crypto offset bytes) on on' stop joined joined' h k n = k offset bytes n
next-Extends other on on' stop joined joined' h k n = refl

walk-Extends :
    (fuel : ℕ) (r : Reader) (pieces : List Piece)
    → Extends (walk fuel r pieces) (walk (suc fuel) r pieces)
unfolding walk
walk-Extends zero r pieces n = absurd (n refl)
walk-Extends (suc fuel) r pieces n =
    let step = Extends-while_let (u8 r) (done pieces) _ _ λ x.
      Extends-bind (read_frame x.0 x.1) _ _ λ y.
        next-Extends y.0 (walk fuel y.1 pieces) (walk (suc fuel) y.1 pieces) (done pieces) _ _
          (walk-Extends fuel y.1 pieces)
          λ offset bytes. walk-Extends fuel y.1 (pieces ++ ((offset, bytes) ∷ [])) in
    step n

find_host_name-Extends :
    (fuel : ℕ) (r : Reader) → Extends (find_host_name fuel r) (find_host_name (suc fuel) r)
unfolding find_host_name
find_host_name-Extends zero r n = absurd (n refl)
find_host_name-Extends (suc fuel) r n =
    let step = Extends-while_let (u8 r) refuse _ _ λ x. Extends-bind (u16 x.1) _ _ λ y.
      Extends-bind (take y.1 y.0) _ _ λ z.
        Extends-if (x.0 == 0 && leb 1 (length z.0) && leb (length z.0) max_server_name)
          (try (from_utf8 z.0)) (find_host_name fuel z.1) (find_host_name (suc fuel) z.1)
          (find_host_name-Extends fuel z.1) in
    step n

find_server_name-Extends :
    (fuel : ℕ) (r : Reader) → Extends (find_server_name fuel r) (find_server_name (suc fuel) r)
unfolding find_server_name
find_server_name-Extends zero r n = absurd (n refl)
find_server_name-Extends (suc fuel) r n =
    let step = Extends-while_let (u16 r) refuse _ _ λ x. Extends-bind (u16 x.1) _ _ λ y.
      Extends-bind (take y.1 y.0) _ _ λ z.
        Extends-if (x.0 == 0) (server_name_list z.0) (find_server_name fuel z.1)
          (find_server_name (suc fuel) z.1) (find_server_name-Extends fuel z.1) in
    step n

-- With this fuel the loop does not run out, and with more it gives the same.
abbrev pub EndsBy : {A : Type 0} → (ℕ → Outcome A) → ℕ → Type 0
EndsBy loop fuel = (loop fuel ≢ panic) × ((more : ℕ) → loop (more + fuel) ≡ loop fuel)

more_fuel :
    {A : Type 0} (loop : ℕ → Outcome A) (fuel more : ℕ)
    → loop fuel ≢ panic
    → ((n : ℕ) → Extends (loop n) (loop (suc n)))
    → loop (more + fuel) ≡ loop fuel
more_fuel loop fuel zero enough h = ap loop (omega arith)
more_fuel loop fuel (suc more) enough h =
    let same = more_fuel loop fuel more enough h in
    let still : loop (more + fuel) ≢ panic = λ e. enough (sym same ∙ e) in
    ap loop (omega arith) ∙ (h (more + fuel) still ∙ same)

EndsBy-lem :
    {A : Type 0} (loop : ℕ → Outcome A) (fuel : ℕ)
    → Safe Any (loop fuel)
    → ((n : ℕ) → Extends (loop n) (loop (suc n)))
    → EndsBy loop fuel
EndsBy-lem loop fuel safe h =
    let enough = Safe-ne-panic Any (loop fuel) safe in
    (enough, λ more. more_fuel loop fuel more enough h)

-- The loops over the frames, over a list of server names and over the extensions end on any bytes,
-- in one round more than there are bytes: with that many none comes to a panic, and with more each
-- gives the same.
pub loops_end :
    (bytes : Bytes)
    → let rounds = suc (length bytes) in
      EndsBy (λ n. walk n (new bytes) []) rounds
      × EndsBy (λ n. find_host_name n (new bytes)) rounds
      × EndsBy (λ n. find_server_name n (new bytes)) rounds
unfolding new
loops_end bytes =
    let fuel = suc (length bytes) in
    (
      EndsBy-lem (λ n. walk n (new bytes) []) fuel
          (walk-Safe fuel (new bytes) [] (omega arith) (omega arith))
          (λ n. walk-Extends n (new bytes) []),
      EndsBy-lem (λ n. find_host_name n (new bytes)) fuel
          (find_host_name-Safe fuel (new bytes) (omega arith) (omega arith))
          (λ n. find_host_name-Extends n (new bytes)),
      EndsBy-lem (λ n. find_server_name n (new bytes)) fuel
          (find_server_name-Safe fuel (new bytes) (omega arith) (omega arith))
          (λ n. find_server_name-Extends n (new bytes)),
    )
