-- ===== src/Watcher/Round.antt =====
-- main.rs `run_incremental_snapshots`: the rest of a round, and the whole of it.
use solana_snapshot_etl.Prelude.{
  ℕ, Bool, true, false, not, ◌&&◌, ◌||◌, List, Option, none, some, if◌then◌else◌, is_none, is_some,
  head?,
}
use solana_snapshot_etl.Prelude.Result.{ok, err}
use solana_snapshot_etl.Incremental.{FullSnapshot, IncrementalSnapshot, eligible_full_candidates}
use solana_snapshot_etl.Incremental.Selection.{WatchedSnapshot, newest_eligible_incremental}
use solana_snapshot_etl.Incremental.Selection
use solana_snapshot_etl.Incremental.Generations.{
  FullSnapshotWatcherState, newest_full_generation, find_recorded_full, full_snapshot_state,
}
use solana_snapshot_etl.Import.{active, backup}
use solana_snapshot_etl.Watcher.{
  disabled, waiting_for_full, full_loading, full_merging, ready, incremental_loading,
  cutover_pending, PersistedSnapshotKind, full, incremental, LaneWatcherState, WatcherState,
  stopped_merges, reset, started_merges, settled, World, WatchError, outside, no_max_slot,
  no_inflight, no_full_snapshot, no_staging_hot_mints, no_acknowledgement,
  no_full_merging_checkpoint, conflicting_worker, not_incremental, missing_archive, merge_failed,
  staging_incremental_failed, worker_panicked, is_phase,
}
use solana_snapshot_etl.Watcher.Transitions.{
  apply_active_incremental, process_bootstrap_full, complete_shared_full_load, finish_cutover,
}
use solana_snapshot_etl.Watcher
use solana_snapshot_etl.Watcher.Staging.{
  Joined, finished, failed, panicked, BuildWorker, importing, offering, merging, StagingBuild,
  IncrementalWorker, running, Loop, state_of, Looping, ◌>>=◌, ◌>>◌, lift, done, fail, update,
  require, Flow, next, continue, ◌&>◌, do_act, do_persist, reset_failed_staging,
}
use solana_snapshot_etl.Watcher.Staging
use solana_snapshot_etl.Watcher.Loop.{
  Observation, staging_is, active_is, reread_active_slot, set_bootstrapped, set_staging_hot_mints,
  set_staging_build, set_staging_incremental, modify_active, modify_staging, back_to_ready, found,
  merge_wait,
}

module _ (world : World) where
  abbrev pub joined_incremental : Joined ℕ → Looping Flow
  joined_incremental (finished slot) =
      modify_staging (λ lane. record lane {
        max_slot = some slot;
        phase = cutover_pending;
        inflight_incremental = none;
      })
      >> modify_active
          (λ lane. record lane { phase = cutover_pending; inflight_incremental = none })
      >> do_persist world
      >> done next
  joined_incremental failed = fail staging_incremental_failed
  joined_incremental panicked = fail worker_panicked

  unfoldable pub join_incremental : Looping Flow
  join_incremental l = elim l.staging_incremental [
    | some (Staging.IncrementalWorker.ended outcome) ↦
        (set_staging_incremental none >> joined_incremental outcome) l
    | _ ↦ done next l
  ]

  abbrev pub exchange : Looping Flow
  exchange l =
      (require no_staging_hot_mints l.staging_hot_mints >>= λ mints.
      lift (finish_cutover world mints)
      >> reread_active_slot
      >> set_staging_hot_mints none
      >> done continue)
        l

  unfoldable pub cut_over : Looping Flow
  unfolding finish_cutover
  cut_over l =
      if active_is cutover_pending l && staging_is cutover_pending l
      then exchange l
      else done next l

  -- The shared checkpoint comes before the recovery of either lane.
  abbrev pub complete_shared : Bool → FullSnapshotWatcherState → FullSnapshot → Looping Flow
  complete_shared spawns recorded snapshot l =
      let (answer, l') = lift (complete_shared_full_load world snapshot) l in
      elim answer [
        | ok _ ↦
            (reread_active_slot
                >> set_staging_build (if spawns then some (merge_wait recorded) else none)
                >> done continue)
              l'
        | err _ ↦ (reset_failed_staging world >> done continue) l'
      ]

  -- A call whose failure starts the loop over behind a clean-up.
  abbrev pub or_reset : Watcher.Event → Looping Flow → Looping Flow
  or_reset event rest l =
      let (answer, l') = do_act world event l in
      elim answer [ ok _ ↦ rest l' | err _ ↦ (reset_failed_staging world >> done continue) l' ]

  abbrev pub load_shared : Bool → List FullSnapshot → FullSnapshotWatcherState → Looping Flow
  load_shared spawns fulls recorded l =
      (found fulls recorded >>= λ snapshot.
      require no_staging_hot_mints l.staging_hot_mints >> complete_shared spawns recorded snapshot)
        l

  unfoldable pub shared_full : Observation → List FullSnapshot → Looping Flow
  unfolding complete_shared_full_load reset_failed_staging find_recorded_full
  shared_full obs fulls l = elim (state_of l).shared_full_load [
    | none ↦ done next l
    | some shared ↦
        if is_some l.staging_build || is_some l.staging_incremental
        then fail conflicting_worker l
        else or_reset (stopped_merges backup)
            (or_reset (reset backup) (load_shared obs.spawns fulls shared.snapshot)) l
  ]

  abbrev pub settle_active : Looping Flow
  settle_active l =
      (require no_full_snapshot (state_of l).active.full_snapshot
          >> do_act world (started_merges active)
          >> do_act world (settled active)
          >> modify_active (λ lane. record lane { phase = ready })
          >> do_persist world
          >> reread_active_slot
          >> set_bootstrapped
          >> done continue)
        l

  unfoldable pub active_full_merging : Looping Flow
  active_full_merging l = if active_is full_merging l then settle_active l else done next l

  abbrev pub load_active : FullSnapshot → Looping Flow
  load_active snapshot = lift (process_bootstrap_full world snapshot) >>= λ slot.
      lift (Watcher.set_active_slot slot) >> set_bootstrapped >> done continue

  abbrev pub reload_active : List FullSnapshot → Looping Flow
  reload_active fulls l =
      (require no_full_snapshot (state_of l).active.full_snapshot >>= λ recorded.
      found fulls recorded >>= load_active)
        l

  unfoldable pub active_full_loading : List FullSnapshot → Looping Flow
  unfolding process_bootstrap_full find_recorded_full
  active_full_loading fulls l =
      if active_is full_loading l then reload_active fulls l else done next l

  -- The archive that an interrupted import of the active group continues with.
  abbrev pub resumed :
      PersistedSnapshotKind
      → List IncrementalSnapshot
      → List FullSnapshot
      → ℕ
      → Option WatchedSnapshot
  resumed full incrementals fulls slot = elim (head? (eligible_full_candidates fulls slot)) [
    | none ↦ none
    | some snapshot ↦ some (Selection.full snapshot)
  ]
  resumed incremental incrementals fulls slot =
      elim (newest_eligible_incremental incrementals slot) [
        | none ↦ none
        | some snapshot ↦ some (Selection.incremental snapshot)
      ]

  abbrev pub active_ready_again : Looping (Unit {0})
  active_ready_again = modify_active back_to_ready >> do_persist world

  abbrev pub ready_unless : Bool → Looping Flow
  ready_unless applied = if applied then done continue else (active_ready_again >> done continue)

  abbrev pub resume_active : Option WatchedSnapshot → Looping Flow
  resume_active none = active_ready_again >> done continue
  resume_active (some candidate) = lift (apply_active_incremental world candidate) >>= ready_unless

  unfoldable pub active_incremental_loading :
      List IncrementalSnapshot → List FullSnapshot → Looping Flow
  unfolding apply_active_incremental newest_eligible_incremental
  active_incremental_loading incrementals fulls l =
      if active_is incremental_loading l
      then ((require no_inflight (state_of l).active.inflight_incremental >>= λ recorded.
            resume_active (resumed recorded.kind incrementals fulls l.machine.active_slot))
          l)
      else done next l

  abbrev pub spawn_staging_full : Bool → FullSnapshot → Looping Flow
  spawn_staging_full false snapshot = fail outside
  spawn_staging_full true snapshot =
      set_staging_build (
        some (record {
          snapshot = full_snapshot_state snapshot;
          full_imported = true;
          full_import_ack = true;
          worker = importing snapshot;
        }))
      >> done next

  unfoldable pub resume_staging_full : Observation → List FullSnapshot → Looping Flow
  unfolding find_recorded_full full_snapshot_state
  resume_staging_full obs fulls l =
      if is_none l.staging_build && staging_is full_loading l
      then ((require no_full_snapshot (state_of l).staging.full_snapshot >>= λ recorded.
            found fulls recorded >>= spawn_staging_full obs.spawns)
          l)
      else done next l

  unfoldable pub resume_staging_merge : Observation → Looping Flow
  resume_staging_merge obs l =
      (if is_none l.staging_build && staging_is full_merging l
          then (require no_full_snapshot (state_of l).staging.full_snapshot >>= λ recorded.
              if obs.spawns
              then (set_staging_build (some (merge_wait recorded)) >> done next)
              else fail outside)
          else done next)
        l

  abbrev pub is_incremental : PersistedSnapshotKind → Bool
  is_incremental incremental = true
  is_incremental full = false

  abbrev pub restart_staging : Bool → ℕ → Option IncrementalSnapshot → Looping Flow
  restart_staging spawns stage_slot none l =
      (modify_staging back_to_ready >> do_persist world >> done continue) l
  restart_staging spawns stage_slot (some snapshot) l =
      (require no_staging_hot_mints l.staging_hot_mints
          >> (if spawns
              then (set_staging_incremental (some (running snapshot stage_slot)) >> done next)
              else fail outside))
        l

  unfoldable pub resume_staging_incremental : Observation → List IncrementalSnapshot → Looping Flow
  unfolding newest_eligible_incremental
  resume_staging_incremental obs incrementals l =
      if is_none l.staging_incremental && staging_is incremental_loading l
      then ((require no_inflight (state_of l).staging.inflight_incremental >>= λ recorded.
            require no_max_slot (state_of l).staging.max_slot >>= λ stage_slot.
            if not (is_incremental recorded.kind)
            then fail not_incremental
            else restart_staging obs.spawns stage_slot
                (newest_eligible_incremental incrementals stage_slot))
          l)
      else done next l

  abbrev pub first_full : Option FullSnapshot → Looping Flow
  first_full none = done next
  first_full (some snapshot) = load_active snapshot

  unfoldable pub bootstrap : List FullSnapshot → Looping Flow
  unfolding process_bootstrap_full newest_full_generation
  bootstrap fulls l =
      if l.bootstrap_pending || active_is waiting_for_full l
      then first_full (newest_full_generation fulls none) l
      else done next l
