-- ===== src/Watcher/Failures/Parts.antt =====
-- main.rs `run_incremental_snapshots`: no part of a round that goes on fills the set of invalid archives.
use solana_snapshot_etl.Prelude.{List, [], ◌≡◌, arith}
use solana_snapshot_etl.Prelude.Text.{Str}
use solana_snapshot_etl.Incremental.{FullSnapshot, IncrementalSnapshot}
use solana_snapshot_etl.Watcher.{outside, need, World}
use solana_snapshot_etl.Watcher.Staging.{StagingBuild, Loop, require, reset_failed_staging}
use solana_snapshot_etl.Watcher.Loop.{
  Observation, accept_full_import, receive_full_import, join_build, acknowledge,
}
use solana_snapshot_etl.Watcher.Round.{
  join_incremental, cut_over, shared_full, active_full_merging, active_full_loading,
  active_incremental_loading, resume_staging_full, resume_staging_merge, resume_staging_incremental,
  bootstrap,
}
use solana_snapshot_etl.Watcher.Select.{begin_shared, select, round_in, discovered, round}
use solana_snapshot_etl.Watcher.Failures.{Goes, Keeps, lift-Keeps, bind-Keeps, next-Keeps}

module _ (world : World) where
  acknowledge-Keeps : (build : StagingBuild) → Keeps (acknowledge world build)
  acknowledge-Keeps build l h = ground (arith, h)

  accept_full_import-Keeps :
      (build : StagingBuild) (mints : List Str) → Keeps (accept_full_import world build mints)
  accept_full_import-Keeps build mints l h = ground (arith, h)

  pub receive_full_import-Keeps : Keeps (receive_full_import world)
  unfolding receive_full_import
  receive_full_import-Keeps l h = ground (arith, h)

  pub join_build-Keeps : Keeps (join_build world)
  unfolding join_build reset_failed_staging
  join_build-Keeps l h = ground (arith, h)

  pub join_incremental-Keeps : Keeps (join_incremental world)
  unfolding join_incremental
  join_incremental-Keeps l h = ground (arith, h)

  pub cut_over-Keeps : Keeps (cut_over world)
  unfolding cut_over
  cut_over-Keeps l h = ground (arith, h)

  pub shared_full-Keeps :
      (obs : Observation) (fulls : List FullSnapshot) → Keeps (shared_full world obs fulls)
  unfolding shared_full
  shared_full-Keeps obs fulls l h = ground (arith, h)

  pub active_full_merging-Keeps : Keeps (active_full_merging world)
  unfolding active_full_merging
  active_full_merging-Keeps l h = ground (arith, h)

  pub active_full_loading-Keeps :
      (fulls : List FullSnapshot) → Keeps (active_full_loading world fulls)
  unfolding active_full_loading
  active_full_loading-Keeps fulls l h = ground (arith, h)

  pub active_incremental_loading-Keeps :
      (incrementals : List IncrementalSnapshot) (fulls : List FullSnapshot)
      → Keeps (active_incremental_loading world incrementals fulls)
  unfolding active_incremental_loading
  active_incremental_loading-Keeps incrementals fulls l h = ground (arith, h)

  pub resume_staging_full-Keeps :
      (obs : Observation) (fulls : List FullSnapshot) → Keeps (resume_staging_full world obs fulls)
  unfolding resume_staging_full
  resume_staging_full-Keeps obs fulls l h = ground (arith, h)

  pub resume_staging_merge-Keeps : (obs : Observation) → Keeps (resume_staging_merge world obs)
  unfolding resume_staging_merge
  resume_staging_merge-Keeps obs l h = ground (arith, h)

  pub resume_staging_incremental-Keeps :
      (obs : Observation) (incrementals : List IncrementalSnapshot)
      → Keeps (resume_staging_incremental world obs incrementals)
  unfolding resume_staging_incremental
  resume_staging_incremental-Keeps obs incrementals l h = ground (arith, h)

  pub bootstrap-Keeps : (fulls : List FullSnapshot) → Keeps (bootstrap world fulls)
  unfolding bootstrap
  bootstrap-Keeps fulls l h = ground (arith, h)

  pub begin_shared-Keeps : (fulls : List FullSnapshot) → Keeps (begin_shared world fulls)
  unfolding begin_shared
  begin_shared-Keeps fulls l h = ground (arith, h)

  pub select-Keeps :
      (obs : Observation) (incrementals : List IncrementalSnapshot)
      → Keeps (select world obs incrementals)
  unfolding select
  select-Keeps obs incrementals l h = ground (arith, h)

  round_in-Keeps :
      (obs : Observation) (incrementals : List IncrementalSnapshot) (fulls : List FullSnapshot)
      → Keeps (round_in world obs incrementals fulls)
  unfolding round_in
  round_in-Keeps obs incrementals fulls =
      next-Keeps (shared_full world obs fulls) _ (shared_full-Keeps obs fulls) (
        next-Keeps (active_full_merging world) _ active_full_merging-Keeps (
          next-Keeps (active_full_loading world fulls) _ (active_full_loading-Keeps fulls) (
            next-Keeps (active_incremental_loading world incrementals fulls) _
              (active_incremental_loading-Keeps incrementals fulls)
              (next-Keeps (resume_staging_full world obs fulls) _
                (resume_staging_full-Keeps obs fulls)
                (next-Keeps (resume_staging_merge world obs) _ (resume_staging_merge-Keeps obs) (
                  next-Keeps (resume_staging_incremental world obs incrementals) _
                    (resume_staging_incremental-Keeps obs incrementals)
                    (next-Keeps (bootstrap world fulls) _ (bootstrap-Keeps fulls) (
                      next-Keeps (begin_shared world fulls) _ (begin_shared-Keeps fulls)
                        (select-Keeps obs incrementals)))))))))

  discovered-Keeps : (obs : Observation) → Keeps (discovered world obs)
  discovered-Keeps obs =
      bind-Keeps (require outside obs.incrementals) _ (lift-Keeps (need outside obs.incrementals))
        λ incrementals.
          bind-Keeps (require outside obs.fulls) _ (lift-Keeps (need outside obs.fulls))
            λ fulls. round_in-Keeps obs incrementals fulls

  -- A round of the loop that does not end it leaves the set of invalid archives empty if it was.
  pub round-Keeps :
      (obs : Observation) (l : Loop) → l.invalid_archives ≡ [] → Goes (round world obs l)
  unfolding round
  round-Keeps obs = next-Keeps (receive_full_import world) _ receive_full_import-Keeps (
      next-Keeps (join_build world) _ join_build-Keeps (
        next-Keeps (join_incremental world) _ join_incremental-Keeps
          (next-Keeps (cut_over world) _ cut_over-Keeps (discovered-Keeps obs))))
