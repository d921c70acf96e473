-- ===== src/Incremental/Selection.antt =====
-- incremental.rs and main.rs: which archive is chosen. The candidates are the archives that can
-- continue from the committed slot, the furthest first.
use mathlib.Core.List.{Mem, mem-cons, mem-cons_self, not-mem-nil}
use mathlib.Core.List.Perm
use mathlib.Core.HLevel.{¬_prop}
use mathlib.Core.Logic.Or
use native.Mathlib.Bridge.{le_prop}
use solana_snapshot_etl.Prelude.{
  ℕ, ◌≤◌, ◌<◌, ◌≡◌, refl, ◌↔◌, Ordering, Bool, ◌&&◌, List, [], ◌∷◌, Option, none, some, head?,
  filter, arith, ltb, leb, ◌⊎◌, inl, inr,
}
use solana_snapshot_etl.Prelude.Order.{IsTotal, list_ord, nat_ord}
use solana_snapshot_etl.Prelude.Sort.{sort_by-perm, IsSortedBy, sort_by-IsSortedBy, IsPreorder}
use solana_snapshot_etl.Prelude.Members.{mem-filter→, mem-filter←, All-mem}
use solana_snapshot_etl.Incremental.{
  path_ord, IncrementalSnapshot, FullSnapshot, prefer, prefer_incremental, eligible_candidates,
}

-- main.rs `newest_eligible_incremental`
unfoldable pub newest_eligible_incremental :
    List IncrementalSnapshot → ℕ → Option IncrementalSnapshot
newest_eligible_incremental incrementals committed_slot =
    head? (eligible_candidates incrementals committed_slot)

-- main.rs `WatchedSnapshot`
pub data WatchedSnapshot : Type 0 where
  incremental : IncrementalSnapshot → WatchedSnapshot
  full : FullSnapshot → WatchedSnapshot

-- The keys by which archives compare, and the order on them.
pub prefer-IsTotal : IsTotal prefer
prefer-IsTotal = record {
  cmp_self = λ x. ground (arith, path_ord.cmp_self x.1);
  eq_of_cmp = λ x y h. ground (arith, path_ord.eq_of_cmp x.1 y.1);
  cmp_flip = λ x y. ground (arith, path_ord.cmp_flip x.1 y.1);
  cmp_trans = λ x y z p q. ground (arith, path_ord.cmp_trans x.1 y.1 z.1);
}

pub IsTotal-IsPreorder :
    {A B : Type 0} {cmp : B → B → Ordering} (t : IsTotal cmp) (key : A → B)
    → IsPreorder (λ x y. cmp (key x) (key y))
IsTotal-IsPreorder t key = record {
  of_gt = λ a b h k. ground (arith, t.cmp_flip (key a) (key b));
  le_trans = λ a b c p q h. ground (
    arith,
    t.cmp_flip (key a) (key c),
    t.eq_of_cmp (key a) (key b),
    t.eq_of_cmp (key b) (key c),
    t.cmp_trans (key a) (key b) (key c),
    t.cmp_self (key a),
  );
}

prefer_incremental-IsPreorder : IsPreorder prefer_incremental
prefer_incremental-IsPreorder =
    IsTotal-IsPreorder prefer-IsTotal (λ (s : IncrementalSnapshot). (s.slot, s.path))

-- What the code asks of an incremental archive: it starts at a slot that is committed, and ends
-- beyond it.
abbrev pub Continues : ℕ → IncrementalSnapshot → Type 0
Continues committed s = (s.base_slot ≤ committed) × (committed < s.slot)

-- The candidates are exactly the archives of the list that start at or before the committed slot
-- and end after it, and they stand in the order of preference: the furthest slot first, and of
-- equal slots the lesser path.
pub eligible_candidates_lem :
    (snapshots : List IncrementalSnapshot) (last : ℕ)
    → IsSortedBy prefer_incremental (eligible_candidates snapshots last)
      × ((s : IncrementalSnapshot)
          → Mem s (eligible_candidates snapshots last) ↔ (Mem s snapshots × Continues last s))
unfolding eligible_candidates
eligible_candidates_lem snapshots last =
    let test : IncrementalSnapshot → Bool = λ s. leb s.base_slot last && ltb last s.slot in
    let perm = sort_by-perm prefer_incremental (filter test snapshots) in
    (
      sort_by-IsSortedBy prefer_incremental-IsPreorder (filter test snapshots),
      λ s. (
        λ m.
            let (member, passes) = mem-filter→ test s snapshots ((Perm.mem_iff perm).0 m) in
            (member, ground arith),
        λ (member, continues).
            (Perm.mem_iff perm).1 (mem-filter← test s snapshots member (ground arith)),
      ),
    )

-- The head of a sorted list that holds the archives that can continue.
newest_of :
    {P : IncrementalSnapshot → Type 0} {committed : ℕ} (candidates : List IncrementalSnapshot)
    → IsSortedBy prefer_incremental candidates
    → ((s : IncrementalSnapshot) → Mem s candidates ↔ (P s × Continues committed s))
    → ((head? candidates ≡ none) × ((s : IncrementalSnapshot) → P s → ¬ (Continues committed s)))
      ⊎ ((chosen : IncrementalSnapshot) × (head? candidates ≡ some chosen)
          × P chosen
          × Continues committed chosen
          × ((s : IncrementalSnapshot) → P s → Continues committed s → s.slot ≤ chosen.slot))
newest_of [] sorted members = inl (refl, λ s p c. not-mem-nil ((members s).1 (p, c)))
newest_of (x ∷ xs) sorted members =
    let (px, cx) = (members x).0 mem-cons_self in
    inr (
      x,
      refl,
      px,
      cx,
      λ s p c.
          Or.elim le_prop (mem-cons.0 ((members s).1 (p, c))) (λ e. rw e (omega arith))
            (λ m. furthest s (
              All-mem (λ y. ¬ (prefer_incremental x y ≡ Ordering.gt)) (λ y. ¬_prop) s xs sorted.0
                m)),
    )
  where
    furthest :
        (s : IncrementalSnapshot) → ¬ (prefer_incremental x s ≡ Ordering.gt) → s.slot ≤ x.slot
    furthest s h = ground arith

-- The archive that the watcher applies: none is chosen only if none can continue, and the chosen one
-- is of the list, can continue, and ends no earlier than any other that can.
pub newest_eligible_incremental_lem :
    (incrementals : List IncrementalSnapshot) (committed : ℕ)
    → ((newest_eligible_incremental incrementals committed ≡ none)
        × ((s : IncrementalSnapshot) → Mem s incrementals → ¬ (Continues committed s)))
      ⊎ ((chosen : IncrementalSnapshot) × (newest_eligible_incremental incrementals committed
            ≡ some chosen)
          × Mem chosen incrementals
          × Continues committed chosen
          × ((s : IncrementalSnapshot)
              → Mem s incrementals
              → Continues committed s
              → s.slot ≤ chosen.slot))
unfolding newest_eligible_incremental
newest_eligible_incremental_lem incrementals committed =
    let (sorted, members) = eligible_candidates_lem incrementals committed in
    newest_of (eligible_candidates incrementals committed) sorted members
