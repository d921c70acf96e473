-- ===== src/Watcher/Gathered/Shared.antt =====
-- main.rs `run_incremental_snapshots`: the shared load of both groups keeps what holds between the parts
-- of a round.
use solana_snapshot_etl.Prelude.{
  List, ◌∷◌, Bool, true, false, Option, none, some, ◌≡◌, refl, arith, is_some, is_none, unwrap_or,
  ◌||◌, if◌then◌else◌,
}
use solana_snapshot_etl.Prelude.Result.{Result, ok, err}
use solana_snapshot_etl.Prelude.Text.{Str}
use solana_snapshot_etl.Import.{TableGroup, backup}
use solana_snapshot_etl.Incremental.Generations.{
  FullSnapshotWatcherState, MissingArchive, find_recorded_full,
}
use solana_snapshot_etl.Watcher.Transitions.{complete_shared_full_load}
use solana_snapshot_etl.Incremental.{FullSnapshot}
use solana_snapshot_etl.Watcher.{
  WatcherState, World, Event, stopped_merges, reset, WatchError, SharedFullLoadWatcherState,
  Machine, acted, is_phase, full_merging, missing_archive, no_staging_hot_mints, conflicting_worker,
}
use solana_snapshot_etl.Watcher.Staging.{
  StagingBuild, Loop, Looping, Flow, next, continue, state_of, ◌>>=◌, ◌>>◌, done, fail, require,
  reset_failed_staging,
}
use solana_snapshot_etl.Watcher.Loop.{
  Observation, reread_active_slot, set_staging_build, merge_wait,
}
use solana_snapshot_etl.Watcher.Round.{shared_full, complete_shared, or_reset, load_shared}
use solana_snapshot_etl.Watcher.Select.{begin_shared}
use solana_snapshot_etl.Watcher.Invariant.{
  Watching, Alone, LeavesAlone, loads_staging, BuildMatches, IncrementalMatches, Journaled,
  Consistent, StateKnown, SharedFits, BootstrapFits, LoadOnDisk, CutoverOnDisk, PendingFits,
}
use solana_snapshot_etl.Watcher.Gathered.{steady, gathered, Leaves-LeavesAlone}

-- The staging group is to be loaded, and no thread works for it.
abbrev Loading : Loop → Type 0
Loading l =
    (loads_staging (state_of l) ≡ true)
    × (is_none l.staging_build ≡ true)
    × (is_none l.staging_incremental ≡ true)

-- Whether the shared load came to its end.
abbrev Completed : Result WatchError (Unit {0}) × Machine → Type 0
Completed (ok _, m) =
    (is_phase m.state.staging.phase full_merging ≡ true) × (is_none m.state.shared_full_load ≡ true)
Completed (err _, m) = loads_staging m.state ≡ true

abbrev after : Event → Loop → Loop
after event l = record l { machine = record l.machine { events = event ∷ l.machine.events } }

module _ (base : WatcherState) (world : World) where
  abbrev completed : FullSnapshot → Loop → Loop
  completed snapshot l = record l {
    machine = (complete_shared_full_load (steady world) snapshot l.machine).1;
  }

  completed-Journaled :
      (snapshot : FullSnapshot) (l : Loop)
      → Watching base l
      → Loading l
      → Journaled base (completed snapshot l)
  unfolding complete_shared_full_load
  completed-Journaled snapshot l h e = ground (arith, h, e)

  completed-Consistent :
      (snapshot : FullSnapshot) (l : Loop)
      → Watching base l
      → Loading l
      → Consistent base (completed snapshot l)
  unfolding complete_shared_full_load
  completed-Consistent snapshot l h e = ground (arith, h, e)

  completed-StateKnown :
      (snapshot : FullSnapshot) (l : Loop)
      → Watching base l
      → Loading l
      → StateKnown base (completed snapshot l)
  unfolding complete_shared_full_load
  completed-StateKnown snapshot l h e = ground (arith, h, e)

  completed-SharedFits :
      (snapshot : FullSnapshot) (l : Loop)
      → Watching base l
      → Loading l
      → SharedFits base (completed snapshot l)
  unfolding complete_shared_full_load
  completed-SharedFits snapshot l h e = ground (arith, h, e)

  completed-BootstrapFits :
      (snapshot : FullSnapshot) (l : Loop)
      → Watching base l
      → Loading l
      → BootstrapFits base (completed snapshot l)
  unfolding complete_shared_full_load
  completed-BootstrapFits snapshot l h e = ground (arith, h, e)

  completed-LoadOnDisk :
      (snapshot : FullSnapshot) (l : Loop)
      → Watching base l
      → Loading l
      → LoadOnDisk base (completed snapshot l)
  unfolding complete_shared_full_load
  completed-LoadOnDisk snapshot l h e = ground (arith, h, e)

  completed-CutoverOnDisk :
      (snapshot : FullSnapshot) (l : Loop)
      → Watching base l
      → Loading l
      → CutoverOnDisk base (completed snapshot l)
  unfolding complete_shared_full_load
  completed-CutoverOnDisk snapshot l h e = ground (arith, h, e)

  completed-BuildMatches :
      (snapshot : FullSnapshot) (l : Loop)
      → Watching base l
      → Loading l
      → BuildMatches base (completed snapshot l)
  unfolding complete_shared_full_load
  completed-BuildMatches snapshot l h e = ground (arith, h, e)

  completed-IncrementalMatches :
      (snapshot : FullSnapshot) (l : Loop)
      → Watching base l
      → Loading l
      → IncrementalMatches base (completed snapshot l)
  unfolding complete_shared_full_load
  completed-IncrementalMatches snapshot l h e = ground (arith, h, e)

  completed-PendingFits :
      (snapshot : FullSnapshot) (l : Loop)
      → Watching base l
      → Loading l
      → PendingFits base (completed snapshot l)
  unfolding complete_shared_full_load
  completed-PendingFits snapshot l h e = ground (arith, h, e)

  completed-Watching :
      (snapshot : FullSnapshot) (l : Loop)
      → Watching base l
      → Loading l
      → Watching base (completed snapshot l)
  completed-Watching snapshot l h e = (
    (completed-Journaled snapshot l h e, completed-Consistent snapshot l h e),
    (
      completed-StateKnown snapshot l h e,
      completed-SharedFits snapshot l h e,
      completed-BootstrapFits snapshot l h e,
      completed-LoadOnDisk snapshot l h e,
      completed-CutoverOnDisk snapshot l h e,
    ),
    completed-BuildMatches snapshot l h e,
    completed-IncrementalMatches snapshot l h e,
    completed-PendingFits snapshot l h e,
  )

  complete_shared_full_load-Completed :
      (snapshot : FullSnapshot) (l : Loop)
      → Loading l
      → Completed (complete_shared_full_load (steady world) snapshot l.machine)
  unfolding complete_shared_full_load
  complete_shared_full_load-Completed snapshot l e = ground (arith, e)

  stopped-Watching :
      (group : TableGroup) (l : Loop)
      → Watching base l
      → Watching base (after (stopped_merges group) l)
  stopped-Watching group l h = (
    (ground (arith, h), ground (arith, h)),
    (ground (arith, h), ground (arith, h), ground (arith, h), ground (arith, h), ground (arith, h)),
    ground (arith, h),
    ground (arith, h),
    ground (arith, h),
  )

  reset-Watching : (l : Loop) → Watching base l → Loading l → Watching base (after (reset backup) l)
  reset-Watching l h e = (
    (ground (arith, h, e), ground (arith, h, e)),
    (
      ground (arith, h, e),
      ground (arith, h, e),
      ground (arith, h, e),
      ground (arith, h, e),
      ground (arith, h, e),
    ),
    ground (arith, h, e),
    ground (arith, h, e),
    ground (arith, h, e),
  )

  -- The clean-up of the staging group while it is to be loaded.
  reset_failed_staging-LeavesAlone :
      (l : Loop)
      → Watching base l
      → Loading l
      → LeavesAlone base ((reset_failed_staging (steady world) >> done continue) l)
  unfolding reset_failed_staging
  reset_failed_staging-LeavesAlone l h e =
      gathered base ((reset_failed_staging (steady world) >> done continue) l)
        (ground (arith, h, e)) (ground (arith, h, e)) (ground (arith, h, e)) (ground (arith, h, e))
        (ground (arith, h, e)) (ground (arith, h, e)) (ground (arith, h, e)) (ground (arith, h, e))
        (ground (arith, h, e)) (ground (arith, h, e))

  waiting-Watching :
      (o : Option StagingBuild) (recorded : FullSnapshotWatcherState) (spawns : Bool) (l : Loop)
      → Watching base l
      → is_phase (state_of l).staging.phase full_merging ≡ true
      → is_none (state_of l).shared_full_load ≡ true
      → Watching base (record l {
        machine = record l.machine { active_slot = unwrap_or (state_of l).active.max_slot 0 };
        staging_build = if spawns then some (merge_wait recorded) else none;
      })
  waiting-Watching o recorded true l h p q = (h.0, h.1, (p, q), h.3, h.4)
  waiting-Watching o recorded false l h p q = (h.0, h.1, tt, h.3, h.4)

  complete_shared-LeavesAlone :
      (spawns : Bool) (recorded : FullSnapshotWatcherState) (snapshot : FullSnapshot) (l : Loop)
      → Watching base l
      → Loading l
      → LeavesAlone base (complete_shared (steady world) spawns recorded snapshot l)
  complete_shared-LeavesAlone spawns recorded snapshot l h e =
      go (complete_shared_full_load (steady world) snapshot l.machine)
        (completed-Watching snapshot l h e) (complete_shared_full_load-Completed snapshot l e)
    where
      go :
          (r : Result WatchError (Unit {0}) × Machine)
          → Watching base (record l { machine = r.1 })
          → Completed r
          → LeavesAlone base (elim r.0 [
            | ok _ ↦
                (reread_active_slot
                    >> set_staging_build (if spawns then some (merge_wait recorded) else none)
                    >> done continue)
                  (record l { machine = r.1 })
            | err _ ↦
                (reset_failed_staging (steady world) >> done continue) (record l { machine = r.1 })
          ])
      go (ok _, m) w (p, q) = waiting-Watching none recorded spawns (record l { machine = m }) w p q
      go (err _, m) w c =
          reset_failed_staging-LeavesAlone (record l { machine = m }) w (c, e.1, e.2)

  load_shared-LeavesAlone :
      (spawns : Bool) (fulls : List FullSnapshot) (recorded : FullSnapshotWatcherState) (l : Loop)
      → Watching base l
      → Loading l
      → LeavesAlone base (load_shared (steady world) spawns fulls recorded l)
  load_shared-LeavesAlone spawns fulls recorded l h e =
      go (find_recorded_full fulls recorded) l.staging_hot_mints
    where
      go :
          (r : Result MissingArchive FullSnapshot) (mints : Option (List Str))
          → LeavesAlone base (
              (elim r as (λ _. Looping FullSnapshot) [
                | err _ ↦ fail missing_archive
                | ok snapshot ↦ done snapshot
              ]
                  >>= λ snapshot.
                      require no_staging_hot_mints mints
                      >> complete_shared (steady world) spawns recorded snapshot)
                l)
      go (err _) mints = h.0
      go (ok snapshot) none = h.0
      go (ok snapshot) (some mints) = complete_shared-LeavesAlone spawns recorded snapshot l h e

  or_reset-LeavesAlone :
      (event : Event) (rest : Looping Flow) (l : Loop)
      → Watching base l
      → Loading l
      → LeavesAlone base (rest (after event l))
      → LeavesAlone base (or_reset (steady world) event rest l)
  or_reset-LeavesAlone event rest l h e k = go ((steady world).succeeds l.machine.events event)
    where
      go :
          (b : Bool)
          → LeavesAlone base (
              let (answer, m) = acted event l.machine b in
              elim answer as (λ _. Result WatchError Flow × Loop) [
                | ok _ ↦ rest (record l { machine = m })
                | err _ ↦
                    (reset_failed_staging (steady world) >> done continue)
                      (record l { machine = m })
              ])
      go true = k
      go false = reset_failed_staging-LeavesAlone l h e

  pub shared_full-LeavesAlone :
      (obs : Observation) (fulls : List FullSnapshot) (l : Loop)
      → Watching base l
      → LeavesAlone base (shared_full (steady world) obs fulls l)
  unfolding shared_full
  shared_full-LeavesAlone obs fulls l h = go (state_of l).shared_full_load refl
    where
      start :
          (shared : SharedFullLoadWatcherState) (b : Bool)
          → (state_of l).shared_full_load ≡ some shared
          → (is_some l.staging_build || is_some l.staging_incremental) ≡ b
          → LeavesAlone base (
              if b
              then fail conflicting_worker l
              else or_reset
                  (steady world)
                  (stopped_merges backup)
                  (or_reset
                    (steady world)
                    (reset backup)
                    (load_shared (steady world) obs.spawns fulls shared.snapshot))
                  l)
      start shared true e c = h.0
      start shared false e c =
          let idle : Loading l = (ground (arith, h, e), ground (arith, c), ground (arith, c)) in
          or_reset-LeavesAlone (stopped_merges backup)
            (or_reset (steady world) (reset backup)
              (load_shared (steady world) obs.spawns fulls shared.snapshot))
            l h idle
            (or_reset-LeavesAlone (reset backup)
              (load_shared (steady world) obs.spawns fulls shared.snapshot)
              (after (stopped_merges backup) l) (stopped-Watching backup l h) idle
              (load_shared-LeavesAlone obs.spawns fulls shared.snapshot
                (after (reset backup) (after (stopped_merges backup) l))
                (reset-Watching (after (stopped_merges backup) l) (stopped-Watching backup l h)
                  idle)
                idle))

      go :
          (o : Option SharedFullLoadWatcherState)
          → (state_of l).shared_full_load ≡ o
          → LeavesAlone base (elim o as (λ _. Result WatchError Flow × Loop) [
            | none ↦ done next l
            | some shared ↦
                if is_some l.staging_build || is_some l.staging_incremental
                then fail conflicting_worker l
                else or_reset
                    (steady world)
                    (stopped_merges backup)
                    (or_reset
                      (steady world)
                      (reset backup)
                      (load_shared (steady world) obs.spawns fulls shared.snapshot))
                    l
          ])
      go none e = (h, ground (arith, e))
      go (some shared) e =
          start shared (is_some l.staging_build || is_some l.staging_incremental) e refl

  pub begin_shared-LeavesAlone :
      (fulls : List FullSnapshot) (l : Loop)
      → Watching base l
      → Alone base l
      → LeavesAlone base (begin_shared world fulls l)
  unfolding begin_shared
  begin_shared-LeavesAlone fulls l h a =
      Leaves-LeavesAlone base (begin_shared world fulls l)
        (gathered base (begin_shared world fulls l) (ground (arith, h, a)) (ground (arith, h, a))
          (ground (arith, h, a)) (ground (arith, h, a)) (ground (arith, h, a))
          (ground (arith, h, a)) (ground (arith, h, a)) (ground (arith, h, a))
          (ground (arith, h, a)) (ground (arith, h, a)))
        (ground (arith, h, a))
