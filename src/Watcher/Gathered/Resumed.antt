-- ===== src/Watcher/Gathered/Resumed.antt =====
-- main.rs `run_incremental_snapshots`: the recovery of the staging group keeps what holds between the
-- parts of a round.
use solana_snapshot_etl.Prelude.{List, arith}
use solana_snapshot_etl.Incremental.{FullSnapshot, IncrementalSnapshot}
use solana_snapshot_etl.Watcher.{WatcherState, World}
use solana_snapshot_etl.Watcher.Staging.{Loop}
use solana_snapshot_etl.Watcher.Loop.{Observation}
use solana_snapshot_etl.Watcher.Round.{
  resume_staging_full, resume_staging_merge, resume_staging_incremental,
}
use solana_snapshot_etl.Watcher.Invariant.{Watching, Alone, LeavesAlone}
use solana_snapshot_etl.Watcher.Gathered.{gathered, Leaves-LeavesAlone}

module _ (base : WatcherState) (world : World) where
  pub resume_staging_full-LeavesAlone :
      (obs : Observation) (fulls : List FullSnapshot) (l : Loop)
      → Watching base l
      → Alone base l
      → LeavesAlone base (resume_staging_full world obs fulls l)
  unfolding resume_staging_full
  resume_staging_full-LeavesAlone obs fulls l h a =
      Leaves-LeavesAlone base (resume_staging_full world obs fulls l)
        (gathered base (resume_staging_full world obs fulls l) (ground (arith, h, a))
          (ground (arith, h, a)) (ground (arith, h, a)) (ground (arith, h, a))
          (ground (arith, h, a)) (ground (arith, h, a)) (ground (arith, h, a))
          (ground (arith, h, a)) (ground (arith, h, a)) (ground (arith, h, a)))
        (ground (arith, h, a))

  pub resume_staging_merge-LeavesAlone :
      (obs : Observation) (l : Loop)
      → Watching base l
      → Alone base l
      → LeavesAlone base (resume_staging_merge world obs l)
  unfolding resume_staging_merge
  resume_staging_merge-LeavesAlone obs l h a =
      Leaves-LeavesAlone base (resume_staging_merge world obs l)
        (gathered base (resume_staging_merge world obs l) (ground (arith, h, a))
          (ground (arith, h, a)) (ground (arith, h, a)) (ground (arith, h, a))
          (ground (arith, h, a)) (ground (arith, h, a)) (ground (arith, h, a))
          (ground (arith, h, a)) (ground (arith, h, a)) (ground (arith, h, a)))
        (ground (arith, h, a))

  pub resume_staging_incremental-LeavesAlone :
      (obs : Observation) (incrementals : List IncrementalSnapshot) (l : Loop)
      → Watching base l
      → Alone base l
      → LeavesAlone base (resume_staging_incremental world obs incrementals l)
  unfolding resume_staging_incremental
  resume_staging_incremental-LeavesAlone obs incrementals l h a =
      Leaves-LeavesAlone base (resume_staging_incremental world obs incrementals l)
        (gathered base (resume_staging_incremental world obs incrementals l) (ground (arith, h, a))
          (ground (arith, h, a)) (ground (arith, h, a)) (ground (arith, h, a))
          (ground (arith, h, a)) (ground (arith, h, a)) (ground (arith, h, a))
          (ground (arith, h, a)) (ground (arith, h, a)) (ground (arith, h, a)))
        (ground (arith, h, a))
