-- ===== src/Watcher/Threads.antt =====
-- main.rs: a step of a thread keeps what holds between the parts of a round.
use solana_snapshot_etl.Prelude.{Bool, arith}
use solana_snapshot_etl.Watcher.{WatcherState, World}
use solana_snapshot_etl.Watcher.Staging.{Loop, step_build, step_incremental}
use solana_snapshot_etl.Watcher.Invariant.{Watching}

module _ (base : WatcherState) (world : World) where
  pub step_build-Watching :
      (panics : Bool) (l : Loop) → Watching base l → Watching base (step_build world panics l)
  unfolding step_build
  step_build-Watching panics l h = (
    (ground (arith, h), ground (arith, h)),
    (ground (arith, h), ground (arith, h), ground (arith, h), ground (arith, h), ground (arith, h)),
    ground (arith, h),
    ground (arith, h),
    ground (arith, h),
  )

  pub step_incremental-Watching :
      (panics : Bool) (l : Loop) → Watching base l → Watching base (step_incremental world panics l)
  unfolding step_incremental
  step_incremental-Watching panics l h = (
    (ground (arith, h), ground (arith, h)),
    (ground (arith, h), ground (arith, h), ground (arith, h), ground (arith, h), ground (arith, h)),
    ground (arith, h),
    ground (arith, h),
    ground (arith, h),
  )
