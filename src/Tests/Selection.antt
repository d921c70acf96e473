-- ===== src/Tests/Selection.antt =====
-- incremental.rs and main.rs: three incremental archives, two full ones and a directory.
use mathlib.Core.List.{Mem}
use solana_snapshot_etl.Prelude.{
  ◌≤◌, ◌≡◌, ◌++◌, refl, ap, ◌↔◌, ◌⊎◌, true, List, [], ◌∷◌, none, some, head?,
}
use solana_snapshot_etl.Prelude.Sort.{IsSortedBy}
use solana_snapshot_etl.Prelude.Result.{ok}
use solana_snapshot_etl.Prelude.Text.{bytes}
use solana_snapshot_etl.Incremental.{
  FilePath, IncrementalSnapshot, FullSnapshot, prefer_incremental, eligible_candidates,
  eligible_full_candidates, ArchiveNames, FileSystem, remove_processed,
}
use solana_snapshot_etl.Incremental.Selection.{
  Continues, newest_eligible_incremental, eligible_candidates_lem, newest_eligible_incremental_lem,
}
use solana_snapshot_etl.Incremental.Cleanup.{Stale, Removed, remove_processed-Stale}
use solana_snapshot_etl.Incremental.Generations.{
  newest_full_generation, newest_full_generation-eligible_full_candidates,
}

abbrev incrementals : List IncrementalSnapshot
incrementals =
    record { path = bytes "a" ∷ []; base_slot = 10; slot = 20 }
    ∷ record { path = bytes "b" ∷ []; base_slot = 10; slot = 30 }
    ∷ record { path = bytes "c" ∷ []; base_slot = 25; slot = 40 }
    ∷ []

abbrev fulls : List FullSnapshot
fulls =
    record { path = bytes "f" ∷ []; slot = 10 } ∷ record { path = bytes "g" ∷ []; slot = 50 } ∷ []

eligible_candidates_example :
    IsSortedBy prefer_incremental (eligible_candidates incrementals 15)
    × ((s : IncrementalSnapshot)
        → Mem s (eligible_candidates incrementals 15) ↔ (Mem s incrementals × Continues 15 s))
eligible_candidates_example = eligible_candidates_lem incrementals 15

newest_eligible_incremental_example :
    ((newest_eligible_incremental incrementals 15 ≡ none)
      × ((s : IncrementalSnapshot) → Mem s incrementals → ¬ (Continues 15 s)))
    ⊎ ((chosen : IncrementalSnapshot) × (newest_eligible_incremental incrementals 15 ≡ some chosen)
        × Mem chosen incrementals
        × Continues 15 chosen
        × ((s : IncrementalSnapshot) → Mem s incrementals → Continues 15 s → s.slot ≤ chosen.slot))
newest_eligible_incremental_example = newest_eligible_incremental_lem incrementals 15

newest_full_generation_example :
    newest_full_generation fulls (some 10) ≡ head? (eligible_full_candidates fulls 10)
newest_full_generation_example = newest_full_generation-eligible_full_candidates fulls 10

-- Each name is that of an incremental archive from slot 1 to slot 5.
abbrev names : ArchiveNames
names = record {
  full = λ path. none;
  incremental = λ path. some (record { path = path; base_slot = 1; slot = 5 });
}

-- A directory with one archive, whose state is the list of the removed paths.
abbrev directory : FileSystem (List FilePath)
directory = record {
  read_dir = λ removed. ok (ok (record { path = bytes "x.tar.zst" ∷ []; is_file = ok true }) ∷ []);
  remove_file = λ path removed. (ok tt, removed ++ path ∷ []);
}

remove_processed_example :
    Removed
      (λ removed s. s ≡ removed)
      (Stale directory names 9)
      (remove_processed directory names 9 [])
remove_processed_example =
    remove_processed-Stale directory names 9 (λ removed s. s ≡ removed)
      (λ path removed s stale k. ap (λ l. l ++ path ∷ []) k) [] refl
