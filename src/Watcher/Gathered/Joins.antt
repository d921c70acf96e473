-- ===== src/Watcher/Gathered/Joins.antt =====
-- main.rs `run_incremental_snapshots`: what the threads offer and answer keeps what holds between the
-- parts of a round, and so does the exchange of the groups.
use solana_snapshot_etl.Prelude.{arith}
use solana_snapshot_etl.Watcher.{WatcherState, World}
use solana_snapshot_etl.Watcher.Staging.{Loop, reset_failed_staging}
use solana_snapshot_etl.Watcher.Loop.{receive_full_import, join_build}
use solana_snapshot_etl.Watcher.Round.{join_incremental, cut_over}
use solana_snapshot_etl.Watcher.Invariant.{Watching, Leaves}
use solana_snapshot_etl.Watcher.Gathered.{gathered}

module _ (base : WatcherState) (world : World) where
  pub receive_full_import-Leaves :
      (l : Loop) → Watching base l → Leaves base (receive_full_import world l)
  unfolding receive_full_import
  receive_full_import-Leaves l h =
      gathered base (receive_full_import world l) (ground (arith, h)) (ground (arith, h))
        (ground (arith, h)) (ground (arith, h)) (ground (arith, h)) (ground (arith, h))
        (ground (arith, h)) (ground (arith, h)) (ground (arith, h)) (ground (arith, h))

  pub join_build-Leaves : (l : Loop) → Watching base l → Leaves base (join_build world l)
  unfolding join_build reset_failed_staging
  join_build-Leaves l h =
      gathered base (join_build world l) (ground (arith, h)) (ground (arith, h)) (ground (arith, h))
        (ground (arith, h)) (ground (arith, h)) (ground (arith, h)) (ground (arith, h))
        (ground (arith, h)) (ground (arith, h)) (ground (arith, h))

  pub join_incremental-Leaves :
      (l : Loop) → Watching base l → Leaves base (join_incremental world l)
  unfolding join_incremental
  join_incremental-Leaves l h =
      gathered base (join_incremental world l) (ground (arith, h)) (ground (arith, h))
        (ground (arith, h)) (ground (arith, h)) (ground (arith, h)) (ground (arith, h))
        (ground (arith, h)) (ground (arith, h)) (ground (arith, h)) (ground (arith, h))

  pub cut_over-Leaves : (l : Loop) → Watching base l → Leaves base (cut_over world l)
  unfolding cut_over
  cut_over-Leaves l h =
      gathered base (cut_over world l) (ground (arith, h)) (ground (arith, h)) (ground (arith, h))
        (ground (arith, h)) (ground (arith, h)) (ground (arith, h)) (ground (arith, h))
        (ground (arith, h)) (ground (arith, h)) (ground (arith, h))
