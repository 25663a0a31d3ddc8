-- ===== src/Base/Map.antt =====
-- The standard library's maps as association lists without repeated keys. A `HashMap` iterates
-- in no documented order: its list is one such order. A `BTreeMap` keeps its keys in order.
use sleepytale.Base.Tests.{if◌then◌else◌, is_some, Option-cases}
use sleepytale.Base.Lists.{length}
use Prim.Native.Nat.{suc}
use mathlib.Core.Path.{◌≡◌, refl}
use mathlib.Core.Logic.{ite, ◌≢◌, inl, inr}
use mathlib.Core.Bool.{Bool}
use mathlib.Core.Option.{Option, none, some}
use mathlib.Core.List.{List, [], ◌∷◌}
use native.Mathlib.Omega.{arith}
pub mod Values

-- Equality of keys, and the order by which a `BTreeMap` sorts them.
pub record Key {ℓ} (K : Type ℓ) : Type ℓ where
  pub eq : Discrete K
  pub before : K → K → Bool

abbrev pub Map {ℓ} : Type ℓ → Type ℓ → Type ℓ
Map K V = List (K × V)

module _ {ℓ} {K V : Type ℓ} where
  -- `retain`
  unfoldable pub retain : (K → V → Bool) → Map K V → Map K V
  retain p [] = []
  retain p ((k, v) ∷ m) = let rest = retain p m in if p k v then (k, v) ∷ rest else rest

  -- `values()`, in the order of the map.
  unfoldable pub values : Map K V → List V
  values [] = []
  values ((k, v) ∷ m) = v ∷ values m

module _ {ℓ} {K V : Type ℓ} ⦃key : Key K⦄ where
  -- `get`, and with its result `contains_key`.
  unfoldable pub lookup : K → Map K V → Option V
  lookup k [] = none
  lookup k ((j, v) ∷ m) = ite (key.eq j k) (some v) (lookup k m)

  -- `HashMap::insert`, and a write through `get_mut` at a key that is present.
  unfoldable pub insert : K → V → Map K V → Map K V
  insert k v [] = (k, v) ∷ []
  insert k v ((j, w) ∷ m) = ite (key.eq j k) ((k, v) ∷ m) ((j, w) ∷ insert k v m)

  -- A key that is not present goes before the first larger one.
  place : K → V → Map K V → Map K V
  place k v [] = (k, v) ∷ []
  place k v ((j, w) ∷ m) =
      let rest = (j, w) ∷ place k v m in if key.before k j then (k, v) ∷ (j, w) ∷ m else rest

  -- `BTreeMap::insert`: an entry with the key keeps its place.
  unfoldable pub insert_sorted : K → V → Map K V → Map K V
  unfolding place
  insert_sorted k v m = elim (lookup k m) [ none ↦ place k v m | some w ↦ insert k v m ]

  -- No key stands twice.
  abbrev pub IsUnique : Map K V → Type ℓ
  IsUnique [] = Unit
  IsUnique ((k, v) ∷ m) = (lookup k m ≡ none) × IsUnique m

  -- `P` holds of every entry.
  abbrev pub AllValues : (K → V → Type ℓ) → Map K V → Type ℓ
  AllValues P m = (k : K) (v : V) → lookup k m ≡ some v → P k v

module _ {ℓ} {K V : Type ℓ} ⦃key : Key K⦄ where
  pub lookup-insert :
      (k j : K) (v : V) (m : Map K V)
      → lookup j (insert k v m) ≡ ite (key.eq k j) (some v) (lookup j m)
  unfolding lookup insert
  lookup-insert k j v [] = refl
  lookup-insert k j v ((i, w) ∷ m) = ground (arith, lookup-insert k j v m)

  pub lookup-insert_self : (k : K) (v : V) (m : Map K V) → lookup k (insert k v m) ≡ some v
  lookup-insert_self k v m = ground (arith, lookup-insert k k v m)

  pub lookup-insert_ne :
      (k j : K) (v : V) (m : Map K V) → k ≢ j → lookup j (insert k v m) ≡ lookup j m
  lookup-insert_ne k j v m h = ground (arith, lookup-insert k j v m)

  lookup-place :
      (k j : K) (v : V) (m : Map K V)
      → lookup k m ≡ none
      → lookup j (place k v m) ≡ ite (key.eq k j) (some v) (lookup j m)
  unfolding lookup place
  lookup-place k j v [] h = refl
  lookup-place k j v ((i, w) ∷ m) h = ground (arith, lookup-place k j v m)

  pub lookup-insert_sorted :
      (k j : K) (v : V) (m : Map K V)
      → lookup j (insert_sorted k v m) ≡ ite (key.eq k j) (some v) (lookup j m)
  unfolding insert_sorted
  lookup-insert_sorted k j v m = ground (arith, lookup-place k j v m, lookup-insert k j v m)

  pub insert-IsUnique : (k : K) (v : V) (m : Map K V) → IsUnique m → IsUnique (insert k v m)
  unfolding insert lookup
  insert-IsUnique k v [] u = (refl, tt)
  insert-IsUnique k v ((j, w) ∷ m) u =
      ground (arith, insert-IsUnique k v m u.1, lookup-insert k j v m)

  place-IsUnique :
      (k : K) (v : V) (m : Map K V) → lookup k m ≡ none → IsUnique m → IsUnique (place k v m)
  unfolding place lookup
  place-IsUnique k v [] h u = (refl, tt)
  place-IsUnique k v ((j, w) ∷ m) h u =
      ground (arith, place-IsUnique k v m (ground arith) u.1, lookup-place k j v m (ground arith))

  pub insert_sorted-IsUnique :
      (k : K) (v : V) (m : Map K V) → IsUnique m → IsUnique (insert_sorted k v m)
  unfolding insert_sorted
  insert_sorted-IsUnique k v m u = elim (Option-cases (lookup k m)) [
    | inl e ↦ rw (e, insert_sorted) (place-IsUnique k v m e u)
    | inr (w, e) ↦ rw (e, insert_sorted) (insert-IsUnique k v m u)
  ]

  abbrev pub keep : (K → V → Bool) → K → Option V → Option V
  keep p k none = none
  keep p k (some v) = if p k v then some v else none

  pub lookup-retain :
      (p : K → V → Bool) (k : K) (m : Map K V)
      → IsUnique m
      → lookup k (retain p m) ≡ keep p k (lookup k m)
  unfolding lookup retain
  lookup-retain p k [] u = refl
  lookup-retain p k ((j, w) ∷ m) u = ground (arith, lookup-retain p k m u.1)

  pub retain-IsUnique : (p : K → V → Bool) (m : Map K V) → IsUnique m → IsUnique (retain p m)
  unfolding retain
  retain-IsUnique p [] u = tt
  retain-IsUnique p ((j, w) ∷ m) u =
      ground (arith, retain-IsUnique p m u.1, lookup-retain p j m u.1)

  pub length-insert :
      (k : K) (v : V) (m : Map K V)
      → length (insert k v m) ≡ (if is_some (lookup k m) then length m else suc (length m))
  unfolding insert lookup
  length-insert k v [] = refl
  length-insert k v ((j, w) ∷ m) = ground (arith, length-insert k v m)

  pub insert-ne-nil : (k : K) (v : V) (m : Map K V) → insert k v m ≢ []
  unfolding insert
  insert-ne-nil k v [] e = cc
  insert-ne-nil k v ((j, w) ∷ m) e = ground arith
