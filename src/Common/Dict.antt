-- ===== src/Common/Dict.antt =====
-- Go's `map[K]V` as an association list. A key stands in it at most once (`HasDistinctKeys`);
-- `range` visits the entries in the list's order, since Go leaves its order open.
use mathlib.Core.Path.{◌≡◌, refl}
use mathlib.Core.Logic.{◌≢◌}
use mathlib.Core.List.{List, [], ◌∷◌}
use mathlib.Core.Option.{Option, none, some}
use native.Mathlib.Omega.{arith}
use p2p_update.Common.Tests.{if◌then◌else◌}
use p2p_update.Common.Equality.{Eq, ◌==◌, beq_refl}

abbrev pub Dict : Type 0 → Type 0 → Type 0
Dict K V = List (K × V)

module _ {K V : Type 0} ⦃e : Eq K⦄ where
  -- v, ok := m[k]
  abbrev pub lookup : K → Dict K V → Option V
  lookup k [] = none
  lookup k ((j, v) ∷ m) = if j == k then some v else lookup k m

  -- m[k] = v
  abbrev pub insert : K → V → Dict K V → Dict K V
  insert k v [] = (k, v) ∷ []
  insert k v ((j, w) ∷ m) = if j == k then (k, v) ∷ m else (j, w) ∷ insert k v m

  -- delete(m, k)
  abbrev pub delete : K → Dict K V → Dict K V
  delete k [] = []
  delete k ((j, w) ∷ m) = if j == k then m else (j, w) ∷ delete k m

  -- for k, v := range other { m[k] = v }
  abbrev pub merge : Dict K V → Dict K V → Dict K V
  merge m [] = m
  merge m ((k, v) ∷ other) = merge (insert k v m) other

  abbrev pub HasDistinctKeys : Dict K V → Type 0
  HasDistinctKeys [] = Unit
  HasDistinctKeys ((k, v) ∷ m) = (lookup k m ≡ none) × HasDistinctKeys m

  pub lookup-insert :
      (k j : K) (v : V) (m : Dict K V)
      → lookup j (insert k v m) ≡ (if k == j then some v else lookup j m)
  lookup-insert k j v [] = refl
  lookup-insert k j v ((i, w) ∷ m) =
      ground (arith, e.equals_iff k j, e.equals_iff i k, e.equals_iff i j, lookup-insert k j v m)

  pub lookup-insert_self : (k : K) (v : V) (m : Dict K V) → lookup k (insert k v m) ≡ some v
  lookup-insert_self k v m = rw (lookup-insert k k v m, beq_refl k)

  pub lookup-insert_ne :
      (k j : K) (v : V) (m : Dict K V) → k ≢ j → lookup j (insert k v m) ≡ lookup j m
  lookup-insert_ne k j v m h = ground (arith, lookup-insert k j v m, e.equals_iff k j)

  pub HasDistinctKeys-insert :
      (k : K) (v : V) (m : Dict K V) → HasDistinctKeys m → HasDistinctKeys (insert k v m)
  HasDistinctKeys-insert k v [] h = (refl, tt)
  HasDistinctKeys-insert k v ((i, w) ∷ m) h = ground (
    arith,
    e.equals_iff k i,
    e.equals_iff i k,
    lookup-insert k i v m,
    HasDistinctKeys-insert k v m,
  )

  pub lookup-delete :
      (k j : K) (m : Dict K V)
      → HasDistinctKeys m
      → lookup j (delete k m) ≡ (if k == j then none else lookup j m)
  lookup-delete k j [] h = ground arith
  lookup-delete k j ((i, w) ∷ m) h =
      ground (arith, e.equals_iff k j, e.equals_iff i k, e.equals_iff i j, lookup-delete k j m)

  pub HasDistinctKeys-delete :
      (k : K) (m : Dict K V) → HasDistinctKeys m → HasDistinctKeys (delete k m)
  HasDistinctKeys-delete k [] h = tt
  HasDistinctKeys-delete k ((i, w) ∷ m) h =
      ground
        (arith, e.equals_iff k i, e.equals_iff i k, lookup-delete k i m, HasDistinctKeys-delete k m)
