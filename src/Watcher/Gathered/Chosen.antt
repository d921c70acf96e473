-- ===== src/Watcher/Gathered/Chosen.antt =====
-- main.rs `run_incremental_snapshots`: the choice of the next archive keeps what holds between the parts
-- of a round.
use solana_snapshot_etl.Prelude.{List, Option, none, some, if◌then◌else◌, arith}
use solana_snapshot_etl.Incremental.{IncrementalSnapshot}
use solana_snapshot_etl.Watcher.{WatcherState, World, ready}
use solana_snapshot_etl.Watcher.Staging.{Loop, continue, ◌>>◌, done}
use solana_snapshot_etl.Watcher.Loop.{Observation, active_is}
use solana_snapshot_etl.Watcher.Select.{
  select, start_staging_incremental, start_active_incremental, choose, waiting_slot, candidate_at,
  or_else,
}
use solana_snapshot_etl.Watcher.Invariant.{Watching, Leaves}
use solana_snapshot_etl.Watcher.Gathered.{gathered, then-Leaves}

module _ (base : WatcherState) (world : World) where
  start_staging_incremental-Leaves :
      (obs : Observation) (snapshot : IncrementalSnapshot) (l : Loop)
      → Watching base l
      → Leaves base (start_staging_incremental world obs snapshot l)
  unfolding start_staging_incremental
  start_staging_incremental-Leaves obs snapshot l h =
      gathered base (start_staging_incremental world obs snapshot l) (ground (arith, h))
        (ground (arith, h)) (ground (arith, h)) (ground (arith, h)) (ground (arith, h))
        (ground (arith, h)) (ground (arith, h)) (ground (arith, h)) (ground (arith, h))
        (ground (arith, h))

  start_active_incremental-Leaves :
      (snapshot : IncrementalSnapshot) (l : Loop)
      → Watching base l
      → Leaves base (start_active_incremental world snapshot l)
  unfolding start_active_incremental
  start_active_incremental-Leaves snapshot l h =
      gathered base (start_active_incremental world snapshot l) (ground (arith, h))
        (ground (arith, h)) (ground (arith, h)) (ground (arith, h)) (ground (arith, h))
        (ground (arith, h)) (ground (arith, h)) (ground (arith, h)) (ground (arith, h))
        (ground (arith, h))

  choose-Leaves :
      (obs : Observation) (candidate : Option IncrementalSnapshot) (l : Loop)
      → Watching base l
      → Leaves base (choose world obs candidate l)
  choose-Leaves obs none l h = h
  choose-Leaves obs (some snapshot) l h =
      then-Leaves base (start_staging_incremental world obs snapshot l)
        (λ u. start_active_incremental world snapshot >> done continue)
        (start_staging_incremental-Leaves obs snapshot l h)
        λ u k g.
          then-Leaves base (start_active_incremental world snapshot k) (λ v. done continue)
            (start_active_incremental-Leaves snapshot k g) λ v j f. f

  waiting_slot-Leaves : (l : Loop) → Watching base l → Leaves base (waiting_slot world l l)
  waiting_slot-Leaves l h = ground (arith, h)

  pub select-Leaves :
      (obs : Observation) (incrementals : List IncrementalSnapshot) (l : Loop)
      → Watching base l
      → Leaves base (select world obs incrementals l)
  unfolding select
  select-Leaves obs incrementals l h =
      then-Leaves base (waiting_slot world l l)
        (λ slot. choose world obs (
          or_else world (candidate_at world incrementals l slot) (
            candidate_at world incrementals l
              (if active_is ready l then some l.machine.active_slot else none))))
        (waiting_slot-Leaves l h)
        λ slot k g.
          choose-Leaves obs
            (or_else world (candidate_at world incrementals l slot) (
              candidate_at world incrementals l
                (if active_is ready l then some l.machine.active_slot else none)))
            k g
