-- ===== src/Prelude/Map.antt =====
-- `HashMap` and `HashSet` as association lists and lists: only membership and lookup are observed.
use mathlib.Core.Path.{◌≡◌, refl}
use mathlib.Core.Bool.{Bool, false, ◌||◌}
use mathlib.Core.Option.{Option, none, some}
use mathlib.Core.List.{List, [], ◌∷◌}
use native.Mathlib.Omega.{arith}
use solana_snapshot_etl.Prelude.Tests.{if◌then◌else◌}
use solana_snapshot_etl.Prelude.Order.{Ord, eqb, eq_of_eqb, eqb_self}

module _ {ℓ κ} {K : Type ℓ} {V : Type κ} ⦃o : Ord K⦄ where
  -- `map.get(&k)`
  abbrev pub get : K → List (K × V) → Option V
  get k [] = none
  get k ((j, v) ∷ m) = if eqb k j then some v else get k m

  -- `map.entry(k)` with the new value computed from the one that is there, if any.
  abbrev pub upsert : K → (Option V → V) → List (K × V) → List (K × V)
  upsert k f [] = (k, f none) ∷ []
  upsert k f ((j, v) ∷ m) = if eqb k j then (j, f (some v)) ∷ m else (j, v) ∷ upsert k f m

  pub get-upsert :
      (j k : K) (f : Option V → V) (m : List (K × V))
      → get j (upsert k f m) ≡ (if eqb j k then some (f (get k m)) else get j m)
  get-upsert j k f [] = refl
  get-upsert j k f ((i, v) ∷ m) = ground (
    arith,
    eq_of_eqb k i,
    eq_of_eqb j i,
    eq_of_eqb j k,
    eqb_self k,
    eqb_self j,
    get-upsert j k f m,
  )

module _ {ℓ} {K : Type ℓ} ⦃o : Ord K⦄ where
  -- `set.contains(&k)`
  abbrev pub contains : K → List K → Bool
  contains k [] = false
  contains k (j ∷ s) = eqb k j || contains k s

  -- `set.insert(k)`, without its answer
  abbrev pub insert : K → List K → List K
  insert k s = if contains k s then s else k ∷ s

  pub contains-insert : (j k : K) (s : List K) → contains j (insert k s) ≡ (eqb j k || contains j s)
  contains-insert j k s = ground (arith, eq_of_eqb j k)
