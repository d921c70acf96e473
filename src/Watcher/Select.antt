-- ===== src/Watcher/Select.antt =====
-- main.rs `run_incremental_snapshots`: the choice of the next archive, and a whole round.
use solana_snapshot_etl.Prelude.{
  ℕ, Bool, false, not, ◌&&◌, List, Option, none, some, if◌then◌else◌, is_none, filter, head?, ltb,
  leb,
}
use solana_snapshot_etl.Prelude.Map.{contains, insert}
use solana_snapshot_etl.Prelude.Result.{Result, ok, err}
use solana_snapshot_etl.Incremental.{
  FilePath, path_ord, FullSnapshot, IncrementalSnapshot, eligible_candidates,
}
use solana_snapshot_etl.Incremental.Selection.{WatchedSnapshot, newest_eligible_incremental}
use solana_snapshot_etl.Incremental.Selection
use solana_snapshot_etl.Incremental.Generations.{newest_full_generation}
use solana_snapshot_etl.Watcher.{
  disabled, ready, incremental_loading, LaneWatcherState, World, WatchError, outside, no_max_slot,
  no_staging_hot_mints,
}
use solana_snapshot_etl.Watcher.Transitions.{
  inflight_snapshot, apply_active_incremental, begin_shared_full_load,
}
use solana_snapshot_etl.Watcher.Staging.{
  running, Loop, state_of, Looping, ◌>>=◌, ◌>>◌, lift, done, fail, require, Flow, next, continue,
  ◌&>◌, do_persist,
}
use solana_snapshot_etl.Watcher.Loop.{
  Observation, staging_is, active_is, set_staging_hot_mints, set_staging_incremental,
  modify_staging, receive_full_import, join_build,
}
use solana_snapshot_etl.Watcher.Round.{
  join_incremental, cut_over, shared_full, active_full_merging, active_full_loading,
  active_incremental_loading, resume_staging_full, resume_staging_merge, resume_staging_incremental,
  bootstrap,
}

module _ (world : World) where
  abbrev pub full_slot : LaneWatcherState → Option ℕ
  full_slot lane = elim lane.full_snapshot [ none ↦ none | some snapshot ↦ some snapshot.slot ]

  abbrev pub share : Option FullSnapshot → Looping Flow
  share none = done next
  share (some snapshot) = lift (begin_shared_full_load world snapshot) >>= λ mints.
      set_staging_hot_mints (some mints) >> done continue

  unfoldable pub begin_shared : List FullSnapshot → Looping Flow
  unfolding begin_shared_full_load newest_full_generation
  begin_shared fulls l =
      if staging_is disabled l && is_none l.staging_build
      then share (newest_full_generation fulls (full_slot (state_of l).active)) l
      else done next l

  abbrev pub candidate_for : List IncrementalSnapshot → Loop → ℕ → Option IncrementalSnapshot
  candidate_for incrementals l slot = head? (
      filter
        (λ snapshot.
          not (contains ⦃o = path_ord⦄ (IncrementalSnapshot.path snapshot) l.invalid_archives))
        (eligible_candidates incrementals slot))

  abbrev pub continues : IncrementalSnapshot → ℕ → Bool
  continues snapshot slot =
      ltb slot (IncrementalSnapshot.slot snapshot)
      && leb (IncrementalSnapshot.base_slot snapshot) slot

  abbrev pub staging_continues : IncrementalSnapshot → Option ℕ → Bool
  staging_continues snapshot none = false
  staging_continues snapshot (some slot) = continues snapshot slot

  abbrev pub load_staging : Bool → IncrementalSnapshot → Looping (Unit {0})
  load_staging spawns snapshot l =
      (require no_max_slot (state_of l).staging.max_slot >>= λ stage_slot.
      require no_staging_hot_mints l.staging_hot_mints
      >> modify_staging (λ lane. record lane {
        phase = incremental_loading;
        inflight_incremental = some (inflight_snapshot (Selection.incremental snapshot));
      })
      >> do_persist world
      >> (if spawns
          then set_staging_incremental (some (running snapshot stage_slot))
          else fail outside))
        l

  unfoldable pub start_staging_incremental : Observation → IncrementalSnapshot → Looping (Unit {0})
  unfolding inflight_snapshot
  start_staging_incremental obs snapshot l =
      if is_none l.staging_incremental
        && (staging_is ready l && staging_continues snapshot (state_of l).staging.max_slot)
      then load_staging obs.spawns snapshot l
      else done tt l

  abbrev pub note_failure :
      FilePath → Result WatchError Bool × Loop → Result WatchError (Unit {0}) × Loop
  note_failure path (ok _, l) = (ok tt, l)
  note_failure path (err e, l) =
      (err e, record l { invalid_archives = insert ⦃o = path_ord⦄ path l.invalid_archives })

  -- An archive that fails is noted, and the error ends the loop.
  unfoldable pub start_active_incremental : IncrementalSnapshot → Looping (Unit {0})
  unfolding apply_active_incremental
  start_active_incremental snapshot l =
      if active_is ready l && continues snapshot l.machine.active_slot
      then note_failure snapshot.path
          (lift (apply_active_incremental world (Selection.incremental snapshot)) l)
      else (ok tt, l)

  -- The slot that the staging group waits to continue from, if it waits.
  abbrev pub waiting_slot : Loop → Looping (Option ℕ)
  waiting_slot l =
      if is_none l.staging_incremental && staging_is ready l
      then (require no_max_slot (state_of l).staging.max_slot >>= λ slot. done (some slot))
      else done none

  abbrev pub or_else {ℓ} : {A : Type ℓ} → Option A → Option A → Option A
  or_else none b = b
  or_else (some a) b = some a

  abbrev pub choose : Observation → Option IncrementalSnapshot → Looping Flow
  choose obs none l =
      (ok continue, record l { invalid_archives = filter obs.exists l.invalid_archives })
  choose obs (some snapshot) l =
      (start_staging_incremental obs snapshot >> start_active_incremental snapshot >> done continue)
        l

  abbrev pub candidate_at : List IncrementalSnapshot → Loop → Option ℕ → Option IncrementalSnapshot
  candidate_at incrementals l none = none
  candidate_at incrementals l (some slot) = candidate_for incrementals l slot

  -- The staging group's candidate comes first.
  unfoldable pub select : Observation → List IncrementalSnapshot → Looping Flow
  unfolding start_staging_incremental start_active_incremental
  select obs incrementals l =
      let active_candidate =
        candidate_at incrementals l
          (if active_is ready l then some l.machine.active_slot else none) in
      (waiting_slot l >>= λ stage_slot.
      choose obs (or_else (candidate_at incrementals l stage_slot) active_candidate))
        l

  unfoldable pub round_in :
      Observation → List IncrementalSnapshot → List FullSnapshot → Looping Flow
  unfolding select begin_shared
  round_in obs incrementals fulls =
      shared_full world obs fulls
      &> active_full_merging world
      &> active_full_loading world fulls
      &> active_incremental_loading world incrementals fulls
      &> resume_staging_full world obs fulls
      &> resume_staging_merge world obs
      &> resume_staging_incremental world obs incrementals
      &> bootstrap world fulls
      &> begin_shared fulls
      &> select obs incrementals

  abbrev pub discovered : Observation → Looping Flow
  discovered obs = require outside obs.incrementals >>= λ incrementals.
      require outside obs.fulls >>= λ fulls. round_in obs incrementals fulls

  unfoldable pub round : Observation → Looping Flow
  unfolding round_in receive_full_import join_build join_incremental cut_over
  round obs =
      receive_full_import world
      &> join_build world
      &> join_incremental world
      &> cut_over world
      &> discovered obs
