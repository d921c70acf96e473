-- ===== src/Incremental/Generations.antt =====
-- main.rs: the choice of a full archive, and the candidates of an import.
use solana_snapshot_etl.Prelude.{
  ℕ, ◌≡◌, refl, sym, ap, ◌∙◌, Ordering, compare, Bool, true, ◌&&◌, List, [], ◌∷◌, ◌++◌, map, Option,
  none, some, head?, find, filter, arith, ltb, ◌==◌, if◌then◌else◌,
}
use solana_snapshot_etl.Prelude.Order.{IsTotal, via-IsTotal, then_with, eqb}
use solana_snapshot_etl.Prelude.Sort.{sort_by, insert_by}
use solana_snapshot_etl.Prelude.Result.{Result, ok, err}
use solana_snapshot_etl.Incremental.{
  FilePath, path_ord, IncrementalSnapshot, FullSnapshot, prefer, prefer_full, eligible_candidates,
  eligible_full_candidates,
}
use solana_snapshot_etl.Incremental.Selection.{WatchedSnapshot, incremental, full, prefer-IsTotal}

-- `Iterator::max_by`: the last of the greatest elements.
module _ {ℓ} {A : Type ℓ} (cmp : A → A → Ordering) where
  abbrev pub later_max : A → A → A
  later_max x y = elim (cmp x y) [ Ordering.gt ↦ x | _ ↦ y ]

  abbrev pub max_from : A → List A → A
  max_from x [] = x
  max_from x (y ∷ ys) = max_from (later_max x y) ys

  abbrev pub max_by : List A → Option A
  max_by [] = none
  max_by (x ∷ xs) = some (max_from x xs)

-- The comparator of `newest_full_generation`: the greater slot, then the lesser path.
abbrev pub newer : FullSnapshot → FullSnapshot → Ordering
newer left right = then_with (compare left.slot right.slot) (path_ord.cmp right.path left.path)

unfoldable pub newest_full_generation : List FullSnapshot → Option ℕ → Option FullSnapshot
newest_full_generation fulls active_full_slot = max_by newer (
    filter (λ snapshot. elim active_full_slot [ none ↦ true | some slot ↦ ltb slot snapshot.slot ])
      fulls)

-- The record of a full archive in the watcher's journal.
pub record FullSnapshotWatcherState : Type 0 where
  pub path : FilePath
  pub slot : ℕ

unfoldable pub full_snapshot_state : FullSnapshot → FullSnapshotWatcherState
full_snapshot_state snapshot = record { path = snapshot.path; slot = snapshot.slot }

-- The error names the recorded archive.
pub data MissingArchive : Type 0 where
  missing : FullSnapshotWatcherState → MissingArchive

unfoldable pub find_recorded_full :
    List FullSnapshot → FullSnapshotWatcherState → Result MissingArchive FullSnapshot
find_recorded_full fulls recorded =
    elim (find
      (λ snapshot. snapshot.slot == recorded.slot && eqb ⦃o = path_ord⦄ snapshot.path recorded.path)
      fulls) [ none ↦ err (missing recorded) | some snapshot ↦ ok snapshot ]

unfoldable pub watched_snapshot_candidates :
    List IncrementalSnapshot → List FullSnapshot → ℕ → Bool → List WatchedSnapshot
watched_snapshot_candidates incrementals fulls resume_slot bootstrap_pending =
    if bootstrap_pending
    then map full (eligible_full_candidates fulls resume_slot)
    else map incremental (eligible_candidates incrementals resume_slot)
      ++ map full (eligible_full_candidates fulls resume_slot)

prefer_full-IsTotal : IsTotal prefer_full
prefer_full-IsTotal =
    via-IsTotal (record { cmp = prefer; total = prefer-IsTotal })
      (λ (s : FullSnapshot). (s.slot, s.path))
      (λ (k : ℕ × FilePath). record { path = k.1; slot = k.0 }) (λ s. refl)

-- Taking the last maximum from the left, under an order `p` turned round, agrees with the head of
-- the list sorted by `p`.
module _ {ℓ} {A : Type ℓ} {p : A → A → Ordering} (t : IsTotal p) where
  abbrev turned : A → A → Ordering
  turned x y = p y x

  abbrev first : A → A → A
  first y z = elim (p y z) [ Ordering.gt ↦ z | _ ↦ y ]

  later_max_assoc :
      (x y z : A) → later_max turned (later_max turned x y) z ≡ later_max turned x (first y z)
  later_max_assoc x y z = ground (
    arith,
    t.cmp_flip x y,
    t.cmp_flip y z,
    t.cmp_flip x z,
    t.eq_of_cmp x y,
    t.eq_of_cmp y z,
    t.eq_of_cmp x z,
    t.cmp_trans x y z,
    t.cmp_trans z y x,
    t.cmp_self x,
  )

  head_first : (y z : A) (zs : List A) → head? (insert_by p y (z ∷ zs)) ≡ some (first y z)
  head_first y z zs =
      elim (p y z)
        as (λ o.
          head? (elim o [ Ordering.gt ↦ z ∷ insert_by p y zs | _ ↦ y ∷ z ∷ zs ])
          ≡ some (elim o [ Ordering.gt ↦ z | _ ↦ y ])) [ Ordering.gt ↦ refl | _ ↦ refl ]

  first-eq-later_max : (x z : A) → first x z ≡ later_max turned x z
  first-eq-later_max x z = ground (arith, t.cmp_flip x z, t.eq_of_cmp x z)

  abbrev best : A → Option A → A
  best x none = x
  best x (some y) = later_max turned x y

  best-insert_by :
      (x y : A) (zs : List A)
      → best (later_max turned x y) (head? zs) ≡ best x (head? (insert_by p y zs))
  best-insert_by x y [] = refl
  best-insert_by x y (z ∷ zs) = later_max_assoc x y z ∙ ap (best x) (sym (head_first y z zs))

  max_from-sort_by : (x : A) (xs : List A) → max_from turned x xs ≡ best x (head? (sort_by p xs))
  max_from-sort_by x [] = refl
  max_from-sort_by x (y ∷ ys) =
      max_from-sort_by (later_max turned x y) ys ∙ best-insert_by x y (sort_by p ys)

  head-insert_by : (x : A) (zs : List A) → head? (insert_by p x zs) ≡ some (best x (head? zs))
  head-insert_by x [] = refl
  head-insert_by x (z ∷ zs) = head_first x z zs ∙ ap some (first-eq-later_max x z)

  max_by-sort_by : (xs : List A) → max_by turned xs ≡ head? (sort_by p xs)
  max_by-sort_by [] = refl
  max_by-sort_by (x ∷ xs) = ap some (max_from-sort_by x xs) ∙ sym (head-insert_by x (sort_by p xs))

-- The full archive chosen against a generation's slot is the first of the candidates sorted for that
-- slot: the watcher and the import list prefer the same archive.
pub newest_full_generation-eligible_full_candidates :
    (fulls : List FullSnapshot) (slot : ℕ)
    → newest_full_generation fulls (some slot) ≡ head? (eligible_full_candidates fulls slot)
unfolding newest_full_generation eligible_full_candidates
newest_full_generation-eligible_full_candidates fulls slot =
    max_by-sort_by prefer_full-IsTotal (filter (λ snapshot. ltb slot snapshot.slot) fulls)
