-- ===== src/Watcher/Gathered/Bootstrap.antt =====
-- main.rs `run_incremental_snapshots`: the load of the active group's full archive keeps what holds between
-- the parts of a round.
use solana_snapshot_etl.Prelude.{
  List, Bool, true, false, ◌||◌, Option, none, some, if◌then◌else◌, ◌≡◌, refl, arith,
}
use solana_snapshot_etl.Prelude.Result.{Result, ok, err}
use solana_snapshot_etl.Incremental.{FullSnapshot}
use solana_snapshot_etl.Incremental.Generations.{
  FullSnapshotWatcherState, MissingArchive, find_recorded_full, newest_full_generation,
}
use solana_snapshot_etl.Watcher.{
  WatcherState, World, waiting_for_full, full_loading, no_full_snapshot, missing_archive,
}
use solana_snapshot_etl.Watcher.Transitions.{process_bootstrap_full}
use solana_snapshot_etl.Watcher.Staging.{
  Loop, Looping, Flow, next, state_of, ◌>>=◌, done, fail, require,
}
use solana_snapshot_etl.Watcher.Loop.{active_is}
use solana_snapshot_etl.Watcher.Round.{
  load_active, reload_active, first_full, active_full_loading, bootstrap,
}
use solana_snapshot_etl.Watcher.Invariant.{
  bootstraps, Watching, Alone, LeavesAlone, BuildMatches, IncrementalMatches, Journaled, Consistent,
  StateKnown, SharedFits, BootstrapFits, LoadOnDisk, CutoverOnDisk, PendingFits,
}
use solana_snapshot_etl.Watcher.Gathered.{Ever, Going, Onward, gathered, Leaves-LeavesAlone}

-- The active group has no full archive, and no shared load is on its way.
abbrev Bootstrapping : WatcherState → Loop → Type 0
Bootstrapping base l = Alone base l × (bootstraps (state_of l) ≡ true)

module _ (base : WatcherState) (world : World) where
  load_active-Journaled :
      (snapshot : FullSnapshot) (l : Loop)
      → Watching base l
      → Bootstrapping base l
      → Ever (Journaled base) (load_active world snapshot l)
  unfolding process_bootstrap_full
  load_active-Journaled snapshot l h a = ground (arith, h, a)

  load_active-Consistent :
      (snapshot : FullSnapshot) (l : Loop)
      → Watching base l
      → Bootstrapping base l
      → Ever (Consistent base) (load_active world snapshot l)
  unfolding process_bootstrap_full
  load_active-Consistent snapshot l h a = ground (arith, h, a)

  load_active-StateKnown :
      (snapshot : FullSnapshot) (l : Loop)
      → Watching base l
      → Bootstrapping base l
      → Going (StateKnown base) (load_active world snapshot l)
  unfolding process_bootstrap_full
  load_active-StateKnown snapshot l h a = ground (arith, h, a)

  load_active-SharedFits :
      (snapshot : FullSnapshot) (l : Loop)
      → Watching base l
      → Bootstrapping base l
      → Going (SharedFits base) (load_active world snapshot l)
  unfolding process_bootstrap_full
  load_active-SharedFits snapshot l h a = ground (arith, h, a)

  load_active-BootstrapFits :
      (snapshot : FullSnapshot) (l : Loop)
      → Watching base l
      → Bootstrapping base l
      → Going (BootstrapFits base) (load_active world snapshot l)
  unfolding process_bootstrap_full
  load_active-BootstrapFits snapshot l h a = ground (arith, h, a)

  load_active-LoadOnDisk :
      (snapshot : FullSnapshot) (l : Loop)
      → Watching base l
      → Bootstrapping base l
      → Going (LoadOnDisk base) (load_active world snapshot l)
  unfolding process_bootstrap_full
  load_active-LoadOnDisk snapshot l h a = ground (arith, h, a)

  load_active-CutoverOnDisk :
      (snapshot : FullSnapshot) (l : Loop)
      → Watching base l
      → Bootstrapping base l
      → Going (CutoverOnDisk base) (load_active world snapshot l)
  unfolding process_bootstrap_full
  load_active-CutoverOnDisk snapshot l h a = ground (arith, h, a)

  load_active-BuildMatches :
      (snapshot : FullSnapshot) (l : Loop)
      → Watching base l
      → Bootstrapping base l
      → Going (BuildMatches base) (load_active world snapshot l)
  unfolding process_bootstrap_full
  load_active-BuildMatches snapshot l h a = ground (arith, h, a)

  load_active-IncrementalMatches :
      (snapshot : FullSnapshot) (l : Loop)
      → Watching base l
      → Bootstrapping base l
      → Going (IncrementalMatches base) (load_active world snapshot l)
  unfolding process_bootstrap_full
  load_active-IncrementalMatches snapshot l h a = ground (arith, h, a)

  load_active-PendingFits :
      (snapshot : FullSnapshot) (l : Loop)
      → Watching base l
      → Bootstrapping base l
      → Going (PendingFits base) (load_active world snapshot l)
  unfolding process_bootstrap_full
  load_active-PendingFits snapshot l h a = ground (arith, h, a)

  load_active-Alone :
      (snapshot : FullSnapshot) (l : Loop)
      → Watching base l
      → Bootstrapping base l
      → Onward (Alone base) (load_active world snapshot l)
  unfolding process_bootstrap_full
  load_active-Alone snapshot l h a = ground (arith, h, a)

  load_active-LeavesAlone :
      (snapshot : FullSnapshot) (l : Loop)
      → Watching base l
      → Bootstrapping base l
      → LeavesAlone base (load_active world snapshot l)
  load_active-LeavesAlone snapshot l h a =
      Leaves-LeavesAlone base (load_active world snapshot l)
        (gathered base (load_active world snapshot l) (load_active-Journaled snapshot l h a)
          (load_active-Consistent snapshot l h a) (load_active-StateKnown snapshot l h a)
          (load_active-SharedFits snapshot l h a) (load_active-BootstrapFits snapshot l h a)
          (load_active-LoadOnDisk snapshot l h a) (load_active-CutoverOnDisk snapshot l h a)
          (load_active-BuildMatches snapshot l h a) (load_active-IncrementalMatches snapshot l h a)
          (load_active-PendingFits snapshot l h a))
        (load_active-Alone snapshot l h a)

  found_active-LeavesAlone :
      (recorded : Option FullSnapshotWatcherState) (fulls : List FullSnapshot) (l : Loop)
      → Watching base l
      → Bootstrapping base l
      → LeavesAlone base (
          (require no_full_snapshot recorded >>= λ snapshot.
          (elim (find_recorded_full fulls snapshot) as (λ _. Looping FullSnapshot) [
            | err _ ↦ fail missing_archive
            | ok found ↦ done found
          ])
          >>= load_active world)
            l)
  found_active-LeavesAlone none fulls l h a = h.0
  found_active-LeavesAlone (some recorded) fulls l h a = go (find_recorded_full fulls recorded)
    where
      go :
          (r : Result MissingArchive FullSnapshot)
          → LeavesAlone base (
              ((elim r as (λ _. Looping FullSnapshot) [
                | err _ ↦ fail missing_archive
                | ok found ↦ done found
              ])
                  >>= load_active world)
                l)
      go (err _) = h.0
      go (ok snapshot) = load_active-LeavesAlone snapshot l h a

  if_active-LeavesAlone :
      (b : Bool) (m : Looping Flow) (l : Loop)
      → Watching base l
      → Alone base l
      → (b ≡ true → LeavesAlone base (m l))
      → LeavesAlone base (if b then m l else done next l)
  if_active-LeavesAlone true m l h a k = k refl
  if_active-LeavesAlone false m l h a k = (h, a)

  pub active_full_loading-LeavesAlone :
      (fulls : List FullSnapshot) (l : Loop)
      → Watching base l
      → Alone base l
      → LeavesAlone base (active_full_loading world fulls l)
  unfolding active_full_loading
  active_full_loading-LeavesAlone fulls l h a =
      if_active-LeavesAlone (active_is full_loading l) (reload_active world fulls) l h a λ e.
        found_active-LeavesAlone (state_of l).active.full_snapshot fulls l h (a, ground (arith, e))

  first_full-LeavesAlone :
      (o : Option FullSnapshot) (l : Loop)
      → Watching base l
      → Bootstrapping base l
      → LeavesAlone base (first_full world o l)
  first_full-LeavesAlone none l h a = (h, a.0)
  first_full-LeavesAlone (some snapshot) l h a = load_active-LeavesAlone snapshot l h a

  pub bootstrap-LeavesAlone :
      (fulls : List FullSnapshot) (l : Loop)
      → Watching base l
      → Alone base l
      → LeavesAlone base (bootstrap world fulls l)
  unfolding bootstrap
  bootstrap-LeavesAlone fulls l h a =
      if_active-LeavesAlone (l.bootstrap_pending || active_is waiting_for_full l)
        (first_full world (newest_full_generation fulls none)) l h a
        λ e.
          first_full-LeavesAlone (newest_full_generation fulls none) l h (a, ground (arith, h.4, e))
