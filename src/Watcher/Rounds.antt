-- ===== src/Watcher/Rounds.antt =====
-- main.rs `run_incremental_snapshots`: a whole round, the steps of the threads, and the process that
-- ends with an error and is started again.
use solana_snapshot_etl.Prelude.{List, Option, none, some}
use solana_snapshot_etl.Prelude.Result.{Result, ok, err}
use solana_snapshot_etl.Incremental.{FullSnapshot, IncrementalSnapshot}
use solana_snapshot_etl.Watcher.{WatchError, WatcherState, World, outside}
use solana_snapshot_etl.Watcher.Staging.{Loop, Looping, Flow, next, continue, ◌>>=◌, ◌&>◌, require}
use solana_snapshot_etl.Watcher.Loop.{Observation, receive_full_import, join_build}
use solana_snapshot_etl.Watcher.Round.{
  join_incremental, cut_over, shared_full, active_full_merging, active_full_loading,
  active_incremental_loading, resume_staging_full, resume_staging_merge, resume_staging_incremental,
  bootstrap,
}
use solana_snapshot_etl.Watcher.Select.{begin_shared, select, round_in, discovered, round}
use solana_snapshot_etl.Watcher.Invariant.{Watching, Alone, Leaves, LeavesAlone}
use solana_snapshot_etl.Watcher.Gathered.{steady}
use solana_snapshot_etl.Watcher.Gathered.Joins.{
  receive_full_import-Leaves, join_build-Leaves, join_incremental-Leaves, cut_over-Leaves,
}
use solana_snapshot_etl.Watcher.Gathered.Shared.{shared_full-LeavesAlone, begin_shared-LeavesAlone}
use solana_snapshot_etl.Watcher.Gathered.Active.{
  active_full_merging-LeavesAlone, active_incremental_loading-LeavesAlone,
}
use solana_snapshot_etl.Watcher.Gathered.Bootstrap.{
  active_full_loading-LeavesAlone, bootstrap-LeavesAlone,
}
use solana_snapshot_etl.Watcher.Gathered.Resumed.{
  resume_staging_full-LeavesAlone, resume_staging_merge-LeavesAlone,
  resume_staging_incremental-LeavesAlone,
}
use solana_snapshot_etl.Watcher.Gathered.Chosen.{select-Leaves}

module _ (base : WatcherState) (world : World) where
  abbrev Steady : Looping Flow → Type 0
  Steady m = (l : Loop) → Watching base l → Leaves base (m l)

  abbrev SteadyAlone : Looping Flow → Type 0
  SteadyAlone m = (l : Loop) → Watching base l → Alone base l → LeavesAlone base (m l)

  -- The end of a round, where no shared load is on its way.
  abbrev SteadyEnd : Looping Flow → Type 0
  SteadyEnd m = (l : Loop) → Watching base l → Alone base l → Leaves base (m l)

  next-Leaves :
      (r : Result WatchError Flow × Loop) (q : Looping Flow)
      → Leaves base r
      → Steady q
      → Leaves base {A = Flow} (
          let (answer, l') = r in
          elim answer [ ok next ↦ q l' | ok continue ↦ (ok continue, l') | err e ↦ (err e, l') ])
  next-Leaves (ok next, l) q h k = k l h
  next-Leaves (ok continue, l) q h k = h
  next-Leaves (err e, l) q h k = h

  alone-Leaves :
      (r : Result WatchError Flow × Loop) (q : Looping Flow)
      → LeavesAlone base r
      → SteadyEnd q
      → Leaves base {A = Flow} (
          let (answer, l') = r in
          elim answer [ ok next ↦ q l' | ok continue ↦ (ok continue, l') | err e ↦ (err e, l') ])
  alone-Leaves (ok next, l) q (h, a) k = k l h a
  alone-Leaves (ok continue, l) q h k = h
  alone-Leaves (err e, l) q h k = h

  next-Steady : (p q : Looping Flow) → Steady p → Steady q → Steady (p &> q)
  next-Steady p q kp kq l h = next-Leaves (p l) q (kp l h) kq

  next-SteadyEnd : (p q : Looping Flow) → SteadyAlone p → SteadyEnd q → SteadyEnd (p &> q)
  next-SteadyEnd p q kp kq l h a = alone-Leaves (p l) q (kp l h a) kq

  -- The write behind a shared load does not fail.
  abbrev calm : World
  calm = steady world

  round_in-Leaves :
      (obs : Observation) (incrementals : List IncrementalSnapshot) (fulls : List FullSnapshot)
      → Steady (round_in calm obs incrementals fulls)
  unfolding round_in
  round_in-Leaves obs incrementals fulls l h =
      alone-Leaves (shared_full calm obs fulls l) _
        (shared_full-LeavesAlone base world obs fulls l h)
        (next-SteadyEnd (active_full_merging calm) _ (active_full_merging-LeavesAlone base calm) (
          next-SteadyEnd (active_full_loading calm fulls) _
            (active_full_loading-LeavesAlone base calm fulls)
            (next-SteadyEnd (active_incremental_loading calm incrementals fulls) _
              (active_incremental_loading-LeavesAlone base calm incrementals fulls)
              (next-SteadyEnd (resume_staging_full calm obs fulls) _
                (resume_staging_full-LeavesAlone base calm obs fulls)
                (next-SteadyEnd (resume_staging_merge calm obs) _
                  (resume_staging_merge-LeavesAlone base calm obs)
                  (next-SteadyEnd (resume_staging_incremental calm obs incrementals) _
                    (resume_staging_incremental-LeavesAlone base calm obs incrementals)
                    (next-SteadyEnd (bootstrap calm fulls) _ (bootstrap-LeavesAlone base calm fulls)
                      (next-SteadyEnd (begin_shared calm fulls) (select calm obs incrementals)
                        (begin_shared-LeavesAlone base calm fulls)
                        λ l h a. select-Leaves base calm obs incrementals l h))))))))

  listed-Leaves :
      (incrementals : Option (List IncrementalSnapshot)) (fulls : Option (List FullSnapshot))
      (obs : Observation)
      → Steady (
          require outside incrementals >>= λ is.
          require outside fulls >>= λ fs. round_in calm obs is fs)
  listed-Leaves none fulls obs l h = h.0
  listed-Leaves (some is) none obs l h = h.0
  listed-Leaves (some is) (some fs) obs l h = round_in-Leaves obs is fs l h

  -- A round keeps what holds between two of them, and an error leaves the disk fit for a restart.
  pub round-Leaves :
      (obs : Observation) (l : Loop) → Watching base l → Leaves base (round (steady world) obs l)
  unfolding round
  round-Leaves obs =
      next-Steady (receive_full_import calm) _ (receive_full_import-Leaves base calm) (
        next-Steady (join_build calm) _ (join_build-Leaves base calm) (
          next-Steady (join_incremental calm) _ (join_incremental-Leaves base calm) (
            next-Steady (cut_over calm) (discovered calm obs) (cut_over-Leaves base calm)
              (listed-Leaves obs.incrementals obs.fulls obs))))
