-- ===== src/Base/Map/Values.antt =====
-- What holds of all values of a map, when an entry is put in.
use sleepytale.Base.Tests.{Option-cases}
use sleepytale.Base.Lists.{All}
use sleepytale.Base.Map.{Map, IsUnique, Key, lookup, insert, insert_sorted, place, values}
use mathlib.Core.Path.{◌≡◌}
use mathlib.Core.Logic.{inl, inr}
use mathlib.Core.Option.{some}
use mathlib.Core.List.{[], ◌∷◌}
use native.Mathlib.Omega.{arith}

module _ {K V : Type 0} ⦃key : Key K⦄ (P : V → Type 0) where
  pub insert-All :
      (k : K) (v : V) (m : Map K V) → P v → All P (values m) → All P (values (insert k v m))
  unfolding insert values
  insert-All k v [] p h = (p, tt)
  insert-All k v ((j, w) ∷ m) p (q, h) = ground (arith, insert-All k v m p h, p, q, h)

  place-All : (k : K) (v : V) (m : Map K V) → P v → All P (values m) → All P (values (place k v m))
  unfolding place values
  place-All k v [] p h = (p, tt)
  place-All k v ((j, w) ∷ m) p (q, h) = ground (arith, place-All k v m p h, p, q, h)

  pub insert_sorted-All :
      (k : K) (v : V) (m : Map K V) → P v → All P (values m) → All P (values (insert_sorted k v m))
  unfolding insert_sorted
  insert_sorted-All k v m p h = elim (Option-cases (lookup k m)) [
    | inl e ↦ rw (e, insert_sorted) (place-All k v m p h)
    | inr (w, e) ↦ rw (e, insert_sorted) (insert-All k v m p h)
  ]

  pub lookup-All : (k : K) (v : V) (m : Map K V) → lookup k m ≡ some v → All P (values m) → P v
  unfolding lookup values
  lookup-All k v [] e h = cc
  lookup-All k v ((j, w) ∷ m) e (p, h) = ground (arith, e, p, lookup-All k v m)

  pub All-lookup :
      (m : Map K V) → IsUnique m → ((k : K) (v : V) → lookup k m ≡ some v → P v) → All P (values m)
  unfolding lookup values
  All-lookup [] u h = tt
  All-lookup ((j, w) ∷ m) (fresh, u) h =
      (h j w (ground arith), All-lookup m u (λ k v e. h k v (ground (arith, fresh, e))))
