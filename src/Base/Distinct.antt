-- ===== src/Base/Distinct.antt =====
-- Entries whose keys are distinct and new to a map, as a loop that fills the map finds them.
use mathlib.Core.Path.{◌≡◌, refl}
use mathlib.Core.Logic.{◌≢◌, ◌↔◌}
use mathlib.Core.Option.{none}
use mathlib.Core.List.{List, [], ◌∷◌}
use native.Mathlib.Omega.{arith}
use sleepytale.Base.Lists.{All}
use sleepytale.Base.Map.{Map, Key, lookup, insert_sorted, lookup-insert_sorted}

module _ {X K : Type 0} (f : X → K) where
  -- No two entries have the same key.
  abbrev pub IsDistinct : List X → Type 0
  IsDistinct [] = Unit
  IsDistinct (x ∷ xs) = All (λ y. f x ≢ f y) xs × IsDistinct xs

module _ {X K V : Type 0} ⦃key : Key K⦄ (f : X → K) where
  -- No entry has an entry a key of the map.
  abbrev pub AreNew : Map K V → List X → Type 0
  AreNew m = All (λ x. lookup (f x) m ≡ none)

  pub AreNew-insert :
      (k : K) (v : V) (m : Map K V) (xs : List X)
      → AreNew (insert_sorted k v m) xs ↔ (All (λ y. k ≢ f y) xs × AreNew m xs)
  AreNew-insert k v m [] = (λ h. (tt, tt), λ h. tt)
  AreNew-insert k v m (x ∷ xs) =
      let ih = AreNew-insert k v m xs in
      (
        λ h. (
          (ground (arith, h.0, lookup-insert_sorted k (f x) v m), (ih.0 h.1).0),
          (ground (arith, h.0, lookup-insert_sorted k (f x) v m), (ih.0 h.1).1),
        ),
        λ h. (ground (arith, h.0.0, h.1.0, lookup-insert_sorted k (f x) v m), ih.1 (h.0.1, h.1.1)),
      )

  -- The loop's step: the entry is new, and the rest are new to the map with it.
  pub AreNew-cons :
      (v : V) (m : Map K V) (x : X) (xs : List X)
      → ((lookup (f x) m ≡ none) × AreNew (insert_sorted (f x) v m) xs × IsDistinct f xs)
        ↔ (AreNew m (x ∷ xs) × IsDistinct f (x ∷ xs))
  AreNew-cons v m x xs =
      let step = AreNew-insert (f x) v m xs in
      (
        λ h. ((h.0, (step.0 h.1).1), ((step.0 h.1).0, h.2)),
        λ h. (h.0.0, step.1 (h.1.0, h.0.1), h.1.1),
      )

module _ {X K : Type 0} (V : Type 0) ⦃key : Key K⦄ (f : X → K) where
  pub AreNew-nil : (xs : List X) → AreNew {V = V} f [] xs
  unfolding lookup
  AreNew-nil [] = tt
  AreNew-nil (x ∷ xs) = (refl, AreNew-nil xs)
