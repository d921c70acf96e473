-- ===== src/Watcher/Workers.antt =====
-- main.rs: what the threads of the staging group do. Each has an output of its own, so of the shared
-- machine they change only what the outside has seen.
use solana_snapshot_etl.Prelude.{ℕ, List}
use solana_snapshot_etl.Prelude.Text.{Str}
use solana_snapshot_etl.Incremental.{FullSnapshot, IncrementalSnapshot}
use solana_snapshot_etl.Import.{backup}
use solana_snapshot_etl.Import
use solana_snapshot_etl.Watcher.{
  opened, processed, stopped_merges, reset, started_merges, settled, World, outside, Watch, ◌>>=◌,
  ◌>>◌, act, need, get, done,
}

module _ (world : World) where
  -- `build_staging_full`, up to the mints that it offers to the watcher.
  unfoldable pub build_staging_full : FullSnapshot → Watch (List Str)
  build_staging_full snapshot =
      act world (stopped_merges backup)
      >> act world (reset backup)
      >> act world (opened snapshot.path 0)
      >> act world (processed Import.full backup snapshot.slot)
      >> get
      >>= λ m. need outside (world.frozen_hot_mints m.events)

  -- The rest of it, behind the watcher's acknowledgement, is this function.
  unfoldable pub wait_for_staging_merges : Watch (Unit {0})
  wait_for_staging_merges = act world (started_merges backup) >> act world (settled backup)

  -- `process_incremental_in_background`, and the slot that `spawn_staging_incremental` answers.
  unfoldable pub process_incremental_in_background : IncrementalSnapshot → ℕ → Watch ℕ
  process_incremental_in_background snapshot resume_slot =
      act world (opened snapshot.path resume_slot)
      >> act world (processed Import.incremental backup snapshot.slot)
      >> done snapshot.slot
