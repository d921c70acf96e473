-- ===== src/Watcher/Gathered/Active.antt =====
-- main.rs `run_incremental_snapshots`: the recovery of the active group keeps what holds between the parts
-- of a round.
use solana_snapshot_etl.Prelude.{List, arith}
use solana_snapshot_etl.Incremental.{FullSnapshot, IncrementalSnapshot}
use solana_snapshot_etl.Watcher.{WatcherState, World}
use solana_snapshot_etl.Watcher.Staging.{Loop}
use solana_snapshot_etl.Watcher.Round.{active_full_merging, active_incremental_loading}
use solana_snapshot_etl.Watcher.Invariant.{
  Watching, Alone, LeavesAlone, BuildMatches, IncrementalMatches, Journaled, Consistent, StateKnown,
  SharedFits, BootstrapFits, LoadOnDisk, CutoverOnDisk, PendingFits,
}
use solana_snapshot_etl.Watcher.Gathered.{Ever, Going, Onward, gathered, Leaves-LeavesAlone}

module _ (base : WatcherState) (world : World) where
  pub active_full_merging-LeavesAlone :
      (l : Loop) → Watching base l → Alone base l → LeavesAlone base (active_full_merging world l)
  unfolding active_full_merging
  active_full_merging-LeavesAlone l h a =
      Leaves-LeavesAlone base (active_full_merging world l)
        (gathered base (active_full_merging world l) (ground (arith, h, a)) (ground (arith, h, a))
          (ground (arith, h, a)) (ground (arith, h, a)) (ground (arith, h, a))
          (ground (arith, h, a)) (ground (arith, h, a)) (ground (arith, h, a))
          (ground (arith, h, a)) (ground (arith, h, a)))
        (ground (arith, h, a))

  active_incremental_loading-Journaled :
      (incrementals : List IncrementalSnapshot) (fulls : List FullSnapshot) (l : Loop)
      → Journaled base l
      → StateKnown base l
      → CutoverOnDisk base l
      → Ever (Journaled base) (active_incremental_loading world incrementals fulls l)
  unfolding active_incremental_loading
  active_incremental_loading-Journaled incrementals fulls l j k c = ground (arith, j, k, c)

  active_incremental_loading-Consistent :
      (incrementals : List IncrementalSnapshot) (fulls : List FullSnapshot) (l : Loop)
      → Watching base l
      → Alone base l
      → Ever (Consistent base) (active_incremental_loading world incrementals fulls l)
  unfolding active_incremental_loading
  active_incremental_loading-Consistent incrementals fulls l h a = ground (arith, h, a)

  active_incremental_loading-StateKnown :
      (incrementals : List IncrementalSnapshot) (fulls : List FullSnapshot) (l : Loop)
      → StateKnown base l
      → CutoverOnDisk base l
      → Going (StateKnown base) (active_incremental_loading world incrementals fulls l)
  unfolding active_incremental_loading
  active_incremental_loading-StateKnown incrementals fulls l k c = ground (arith, k, c)

  active_incremental_loading-SharedFits :
      (incrementals : List IncrementalSnapshot) (fulls : List FullSnapshot) (l : Loop)
      → Watching base l
      → Alone base l
      → Going (SharedFits base) (active_incremental_loading world incrementals fulls l)
  unfolding active_incremental_loading
  active_incremental_loading-SharedFits incrementals fulls l h a = ground (arith, h, a)

  active_incremental_loading-BootstrapFits :
      (incrementals : List IncrementalSnapshot) (fulls : List FullSnapshot) (l : Loop)
      → Watching base l
      → Alone base l
      → Going (BootstrapFits base) (active_incremental_loading world incrementals fulls l)
  unfolding active_incremental_loading
  active_incremental_loading-BootstrapFits incrementals fulls l h a = ground (arith, h, a)

  active_incremental_loading-LoadOnDisk :
      (incrementals : List IncrementalSnapshot) (fulls : List FullSnapshot) (l : Loop)
      → Watching base l
      → Alone base l
      → Going (LoadOnDisk base) (active_incremental_loading world incrementals fulls l)
  unfolding active_incremental_loading
  active_incremental_loading-LoadOnDisk incrementals fulls l h a = ground (arith, h, a)

  active_incremental_loading-CutoverOnDisk :
      (incrementals : List IncrementalSnapshot) (fulls : List FullSnapshot) (l : Loop)
      → Watching base l
      → Alone base l
      → Going (CutoverOnDisk base) (active_incremental_loading world incrementals fulls l)
  unfolding active_incremental_loading
  active_incremental_loading-CutoverOnDisk incrementals fulls l h a = ground (arith, h, a)

  active_incremental_loading-BuildMatches :
      (incrementals : List IncrementalSnapshot) (fulls : List FullSnapshot) (l : Loop)
      → Watching base l
      → Alone base l
      → Going (BuildMatches base) (active_incremental_loading world incrementals fulls l)
  unfolding active_incremental_loading
  active_incremental_loading-BuildMatches incrementals fulls l h a = ground (arith, h, a)

  active_incremental_loading-IncrementalMatches :
      (incrementals : List IncrementalSnapshot) (fulls : List FullSnapshot) (l : Loop)
      → Watching base l
      → Alone base l
      → Going (IncrementalMatches base) (active_incremental_loading world incrementals fulls l)
  unfolding active_incremental_loading
  active_incremental_loading-IncrementalMatches incrementals fulls l h a = ground (arith, h, a)

  active_incremental_loading-PendingFits :
      (incrementals : List IncrementalSnapshot) (fulls : List FullSnapshot) (l : Loop)
      → Watching base l
      → Alone base l
      → Going (PendingFits base) (active_incremental_loading world incrementals fulls l)
  unfolding active_incremental_loading
  active_incremental_loading-PendingFits incrementals fulls l h a = ground (arith, h, a)

  active_incremental_loading-Alone :
      (incrementals : List IncrementalSnapshot) (fulls : List FullSnapshot) (l : Loop)
      → Watching base l
      → Alone base l
      → Onward (Alone base) (active_incremental_loading world incrementals fulls l)
  unfolding active_incremental_loading
  active_incremental_loading-Alone incrementals fulls l h a = ground (arith, h, a)

  pub active_incremental_loading-LeavesAlone :
      (incrementals : List IncrementalSnapshot) (fulls : List FullSnapshot) (l : Loop)
      → Watching base l
      → Alone base l
      → LeavesAlone base (active_incremental_loading world incrementals fulls l)
  active_incremental_loading-LeavesAlone incrementals fulls l h a =
      Leaves-LeavesAlone base (active_incremental_loading world incrementals fulls l)
        (gathered base (active_incremental_loading world incrementals fulls l)
          (active_incremental_loading-Journaled incrementals fulls l h.0.0 h.1.0 h.1.4)
          (active_incremental_loading-Consistent incrementals fulls l h a)
          (active_incremental_loading-StateKnown incrementals fulls l h.1.0 h.1.4)
          (active_incremental_loading-SharedFits incrementals fulls l h a)
          (active_incremental_loading-BootstrapFits incrementals fulls l h a)
          (active_incremental_loading-LoadOnDisk incrementals fulls l h a)
          (active_incremental_loading-CutoverOnDisk incrementals fulls l h a)
          (active_incremental_loading-BuildMatches incrementals fulls l h a)
          (active_incremental_loading-IncrementalMatches incrementals fulls l h a)
          (active_incremental_loading-PendingFits incrementals fulls l h a))
        (active_incremental_loading-Alone incrementals fulls l h a)
