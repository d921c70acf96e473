-- ===== src/Watcher/Loop.antt =====
-- main.rs `run_incremental_snapshots`: one round of the watcher's loop, part by part. What it finds in
-- the directory, and whether a thread starts, is an observation.
use solana_snapshot_etl.Prelude.{
  Bool, false, ◌&&◌, List, Option, none, some, if◌then◌else◌, unwrap_or,
}
use solana_snapshot_etl.Prelude.Result.{ok, err}
use solana_snapshot_etl.Prelude.Text.{Str}
use solana_snapshot_etl.Incremental.{FilePath, FullSnapshot, IncrementalSnapshot}
use solana_snapshot_etl.Incremental.Generations.{FullSnapshotWatcherState, find_recorded_full}
use solana_snapshot_etl.Watcher.{
  disabled, waiting_for_full, full_loading, full_merging, ready, incremental_loading,
  cutover_pending, PersistedSnapshotKind, full, incremental, LaneWatcherState, WatcherState,
  stopped_merges, reset, started_merges, settled, World, WatchError, outside, no_max_slot,
  no_inflight, no_full_snapshot, no_staging_hot_mints, no_acknowledgement,
  no_full_merging_checkpoint, conflicting_worker, not_incremental, missing_archive, merge_failed,
  staging_incremental_failed, worker_panicked, is_phase,
}
use solana_snapshot_etl.Watcher
use solana_snapshot_etl.Watcher.Staging.{
  Joined, finished, failed, panicked, BuildWorker, importing, offering, merging, StagingBuild,
  IncrementalWorker, running, Loop, state_of, Looping, ◌>>=◌, ◌>>◌, lift, done, fail, update,
  require, Flow, next, continue, ◌&>◌, do_act, do_persist, reset_failed_staging,
}
use solana_snapshot_etl.Watcher.Staging

pub record Observation : Type 0 where
  pub incrementals : Option (List IncrementalSnapshot)
  pub fulls : Option (List FullSnapshot)
  pub spawns : Bool
  pub exists : FilePath → Bool

abbrev pub staging_is : Watcher.LanePhase → Loop → Bool
staging_is phase l = is_phase (state_of l).staging.phase phase

abbrev pub active_is : Watcher.LanePhase → Loop → Bool
active_is phase l = is_phase (state_of l).active.phase phase

-- `active_slot = watcher_state.active.max_slot.unwrap_or(0)`
abbrev pub reread_active_slot : Looping (Unit {0})
reread_active_slot l = lift (Watcher.set_active_slot (unwrap_or (state_of l).active.max_slot 0)) l

abbrev pub set_bootstrapped : Looping (Unit {0})
set_bootstrapped l = (ok tt, record l { bootstrap_pending = false })

abbrev pub set_staging_hot_mints : Option (List Str) → Looping (Unit {0})
set_staging_hot_mints mints l = (ok tt, record l { staging_hot_mints = mints })

abbrev pub set_staging_build : Option StagingBuild → Looping (Unit {0})
set_staging_build build l = (ok tt, record l { staging_build = build })

abbrev pub set_staging_incremental : Option IncrementalWorker → Looping (Unit {0})
set_staging_incremental worker l = (ok tt, record l { staging_incremental = worker })

abbrev pub modify_active : (LaneWatcherState → LaneWatcherState) → Looping (Unit {0})
modify_active f = update λ s. record s { active = f s.active }

abbrev pub modify_staging : (LaneWatcherState → LaneWatcherState) → Looping (Unit {0})
modify_staging f = update λ s. record s { staging = f s.staging }

-- A lane that stops in the middle of an incremental waits for the next one.
abbrev pub back_to_ready : LaneWatcherState → LaneWatcherState
back_to_ready lane = record lane { phase = ready; inflight_incremental = none }

abbrev pub found : List FullSnapshot → FullSnapshotWatcherState → Looping FullSnapshot
found fulls recorded = elim (find_recorded_full fulls recorded) [
  | err _ ↦ fail missing_archive
  | ok snapshot ↦ done snapshot
]

-- A thread that waits for the merges of a full archive that was committed.
abbrev pub merge_wait : FullSnapshotWatcherState → StagingBuild
merge_wait snapshot = record {
  snapshot = snapshot;
  full_imported = false;
  full_import_ack = false;
  worker = merging;
}

module _ (world : World) where
  abbrev pub acknowledge : StagingBuild → Looping (Unit {0})
  acknowledge build =
      if build.full_import_ack
      then set_staging_build (some (record build { full_import_ack = false; worker = merging }))
      else fail no_acknowledgement

  abbrev pub accept_full_import : StagingBuild → List Str → Looping Flow
  accept_full_import build mints =
      lift (λ m. Watcher.need outside (world.persist_frozen_hot_mints m.events mints) m) >>= λ path.
      modify_staging (λ lane. record lane {
        phase = full_merging;
        max_slot = some build.snapshot.slot;
        hot_mints_path = some path;
        inflight_incremental = none;
      })
      >> do_persist world
      >> set_staging_hot_mints (some mints)
      >> acknowledge build
      >> done next

  -- `full_imported.try_recv()`
  unfoldable pub receive_full_import : Looping Flow
  receive_full_import l = elim l.staging_build [
    | none ↦ done next l
    | some build ↦ elim build.worker [
      | offering mints ↦
          (if staging_is full_loading l && build.full_imported
              then accept_full_import build mints
              else done next)
            l
      | _ ↦ done next l
    ]
  ]

  abbrev pub joined_build : StagingBuild → Joined (Unit {0}) → Looping Flow
  joined_build build (finished _) l =
      (if staging_is full_merging l
          then (modify_staging (λ lane. record lane { phase = ready })
              >> do_persist world
              >> done next)
          else fail no_full_merging_checkpoint)
        l
  joined_build build failed l =
      (if staging_is full_merging l
          then fail merge_failed
          else (reset_failed_staging world >> done next))
        l
  joined_build build panicked l =
      (if staging_is full_merging l
          then fail worker_panicked
          else (reset_failed_staging world >> done next))
        l

  unfoldable pub join_build : Looping Flow
  unfolding reset_failed_staging
  join_build l = elim l.staging_build [
    | none ↦ done next l
    | some build ↦ elim build.worker [
      | Staging.BuildWorker.ended outcome ↦ (set_staging_build none >> joined_build build outcome) l
      | _ ↦ done next l
    ]
  ]
