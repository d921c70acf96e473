-- ===== src/Tests/Looping.antt =====
-- main.rs `run_incremental_snapshots`: the watcher's process in a world where one call fails, over the
-- whole way of a new full archive: begun, imported, merged, followed by an incremental, exchanged.
use solana_snapshot_etl.Prelude.{
  ◌≡◌, refl, ℕ, Bool, Option, true, false, List, [], ◌∷◌, length, none, some, ◌==◌, not,
}
use solana_snapshot_etl.Prelude.Text.{bytes}
use solana_snapshot_etl.Incremental.{FullSnapshot, IncrementalSnapshot, eligible_candidates}
use solana_snapshot_etl.Watcher.{
  Event, persisted, fanned_out, ready, disabled, LanePhase, WatcherState, World, disabled_lane,
}
use solana_snapshot_etl.Watcher.Staging.{state_of, step_build, step_incremental}
use solana_snapshot_etl.Watcher.Loop.{Observation, receive_full_import, join_build}
use solana_snapshot_etl.Watcher.Round.{
  join_incremental, cut_over, shared_full, active_full_merging, active_full_loading,
  active_incremental_loading, resume_staging_full, resume_staging_merge, resume_staging_incremental,
  bootstrap,
}
use solana_snapshot_etl.Watcher.Select.{round}
use solana_snapshot_etl.Import.{backup}
use solana_snapshot_etl.Watcher.Journal.{holds_slot, last_persisted}
use solana_snapshot_etl.Watcher.Gathered.{steady}
use solana_snapshot_etl.Watcher.Failures.{Goes}
use solana_snapshot_etl.Watcher.Failures.Parts.{round-Keeps}
use solana_snapshot_etl.Watcher.Runs.{
  Process, Move, rounds, builds, loads, crashes, starts, started, Fits, run, run-Fits,
}
use solana_snapshot_etl.Watcher.Runs

-- The fifth call fails.
abbrev world : World
world = record {
  succeeds = λ es e. not (length es == 4);
  reaches = λ es s. true;
  snapshot_hot_mints = λ es. some (bytes "M" ∷ []);
  frozen_hot_mints = λ es. some (bytes "M" ∷ []);
  persist_frozen_hot_mints = λ es mints. some (bytes "mints" ∷ []);
  table_group_identity = λ es group. some (record { tables = [] });
}

abbrev always : World
always = record world { succeeds = λ es e. true }

abbrev base : WatcherState
base = record {
  version = 3;
  active = record disabled_lane { phase = ready; max_slot = some 10 };
  staging = disabled_lane;
  cutover = none;
  shared_full_load = none;
}

abbrev full_archive : FullSnapshot
full_archive = record { path = bytes "f" ∷ []; slot = 30 }

abbrev incremental_archive : IncrementalSnapshot
incremental_archive = record { path = bytes "i" ∷ []; base_slot = 30; slot = 40 }

abbrev one_full : Observation
one_full = record {
  incrementals = some [];
  fulls = some (full_archive ∷ []);
  spawns = true;
  exists = λ path. true;
}

abbrev one_incremental : Observation
one_incremental = record one_full { incrementals = some (incremental_archive ∷ []) }

abbrev moves : List Move
moves =
    rounds one_full
    ∷ rounds one_full
    ∷ builds false
    ∷ crashes
    ∷ starts [] []
    ∷ rounds one_full
    ∷ builds false
    ∷ rounds one_incremental
    ∷ loads false
    ∷ rounds one_incremental
    ∷ rounds one_incremental
    ∷ []

abbrev at_start : Process
at_start = Runs.running (started base [] [] [])

run_example : Fits base (run base (steady world) moves at_start)
run_example =
    run-Fits base world moves at_start (refl, refl, refl, refl)
      ((tt, tt), ((refl, tt), refl, refl, (refl, refl), (refl, refl, refl, refl)), tt, tt, refl)

round-Keeps_example : Goes (round world one_full (started base [] [] []))
round-Keeps_example = round-Keeps world one_full (started base [] [] []) refl

-- Whether the process runs, with the active group's slot and the phases of both groups.
abbrev active_at : Process → Option ℕ × List LanePhase
active_at (Runs.running l) =
    ((state_of l).active.max_slot, (state_of l).active.phase ∷ (state_of l).staging.phase ∷ [])
active_at (Runs.down events) = (none, [])

all_succeed : active_at (run base always moves at_start) ≡ (some 40, ready ∷ disabled ∷ [])
unfolding round receive_full_import join_build join_incremental cut_over shared_full
    active_full_merging active_full_loading active_incremental_loading resume_staging_full
    resume_staging_merge resume_staging_incremental bootstrap step_build step_incremental
    eligible_candidates
all_succeed = refl

-- The write behind the import of both groups fails.
abbrev behind : List Event → Event → Bool
behind (fanned_out _ _ ∷ es) (persisted _) = true
behind _ _ = false

abbrev failing : World
failing = record world { succeeds = λ es e. not (behind es e); reaches = λ es s. false }

abbrev short_moves : List Move
short_moves =
    rounds one_full ∷ rounds one_full ∷ rounds one_full ∷ builds false ∷ rounds one_full ∷ []

-- Whether the tables of the staging group hold the slot, and what is recorded of that group.
abbrev staged_at : Process → Bool × Option ℕ × Option LanePhase
staged_at (Runs.running l) = (
  holds_slot base backup 30 l.machine.events,
  (last_persisted base l.machine.events).staging.max_slot,
  some (last_persisted base l.machine.events).staging.phase,
)
staged_at (Runs.down events) = (false, none, none)

-- The group is emptied, and is recorded as ready at the slot all the same.
write_fails : staged_at (run base failing short_moves at_start) ≡ (false, some 30, some ready)
unfolding round receive_full_import join_build join_incremental cut_over shared_full
    active_full_merging active_full_loading active_incremental_loading resume_staging_full
    resume_staging_merge resume_staging_incremental bootstrap step_build step_incremental
    eligible_candidates
write_fails = refl
