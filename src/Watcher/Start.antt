-- ===== src/Watcher/Start.antt =====
-- main.rs: the states that the watcher starts from: recovered from the tables, or read from a file of
-- this or of an older version. The text of the file is serde_json's.
use solana_snapshot_etl.Prelude.{
  ℕ, ◌-◌, Bool, true, false, ◌||◌, Option, none, some, is_none, is_some, if◌then◌else◌, refl, ◌==◌,
  arith,
}
use solana_snapshot_etl.Prelude.Result.{Result, ok, err}
use solana_snapshot_etl.Incremental.{FilePath}
use solana_snapshot_etl.Watcher.{
  LanePhase, disabled, ready, full_loading, incremental_loading, incremental,
  InflightSnapshotWatcherState, LaneWatcherState, WatcherState, disabled_lane, is_phase, World,
  WatchError, outside, Machine, Watch, ◌>>=◌, ◌>>◌, done, fail, modify, need, persist,
}
use solana_snapshot_etl.Watcher.Invariant.{IsConsistent}

abbrev pub watcher_state_version : ℕ
watcher_state_version = 5

-- The first incremental is kept as a mark that there is one.
pub record LegacyStagingWatcherStateV2 : Type 0 where
  pub full_snapshot_path : FilePath
  pub full_snapshot_slot : ℕ
  pub ready_slot : Option ℕ
  pub hot_mints_path : Option FilePath
  pub first_incremental : Bool
  pub first_incremental_completed : Bool

pub record LegacyWatcherStateV2 : Type 0 where
  pub active_slot : ℕ
  pub active_hot_mints_path : Option FilePath
  pub staging : Option LegacyStagingWatcherStateV2

-- What serde_json reads from a file: its version, and the state in each of the two layouts.
pub record StateFile : Type 0 where
  pub version : Option ℕ
  pub state : Option WatcherState
  pub legacy : Option LegacyWatcherStateV2

unfoldable pub recovered_active_only : ℕ → WatcherState
recovered_active_only max_slot = record {
  version = watcher_state_version;
  active = record {
    phase = ready;
    full_snapshot = none;
    max_slot = some max_slot;
    hot_mints_path = none;
    inflight_incremental = none;
  };
  staging = disabled_lane;
  cutover = none;
  shared_full_load = none;
}

unfoldable resume_slot_from_max_updated_slot : ℕ → ℕ → ℕ
resume_slot_from_max_updated_slot max_updated_slot rewind = max_updated_slot - rewind

abbrev migrated_inflight : Bool → Option InflightSnapshotWatcherState
migrated_inflight true = some (record { kind = incremental })
migrated_inflight false = none

abbrev migrated_phase : LegacyStagingWatcherStateV2 → LanePhase
migrated_phase staging =
    if is_none staging.ready_slot
    then full_loading
    else if staging.first_incremental_completed
    then ready
    else if is_some (migrated_inflight staging.first_incremental)
    then incremental_loading
    else ready

abbrev migrated_staging : Option LegacyStagingWatcherStateV2 → LaneWatcherState
migrated_staging none = disabled_lane
migrated_staging (some staging) = record {
  phase = migrated_phase staging;
  full_snapshot =
      some (record { path = staging.full_snapshot_path; slot = staging.full_snapshot_slot });
  max_slot = staging.ready_slot;
  hot_mints_path = staging.hot_mints_path;
  inflight_incremental = migrated_inflight staging.first_incremental;
}

unfoldable migrate_v2_state : LegacyWatcherStateV2 → WatcherState
migrate_v2_state legacy = record {
  version = watcher_state_version;
  active = record {
    phase = ready;
    full_snapshot = none;
    max_slot = some legacy.active_slot;
    hot_mints_path = legacy.active_hot_mints_path;
    inflight_incremental = none;
  };
  staging = migrated_staging legacy.staging;
  cutover = none;
  shared_full_load = none;
}

abbrev clear_lane : LaneWatcherState → LaneWatcherState
clear_lane lane =
    if is_phase lane.phase disabled then record lane { hot_mints_path = none } else lane

abbrev clears : LaneWatcherState → Bool
clears lane = if is_phase lane.phase disabled then is_some lane.hot_mints_path else false

unfoldable clear_disabled_hot_mints_paths : WatcherState → Bool × WatcherState
clear_disabled_hot_mints_paths s = (
  clears s.active || clears s.staging,
  record s { active = clear_lane s.active; staging = clear_lane s.staging },
)

-- A state that is recovered from the tables is consistent.
recovered_active_only-IsConsistent : (n : ℕ) → IsConsistent (recovered_active_only n)
unfolding recovered_active_only
recovered_active_only-IsConsistent n = (refl, refl, refl, refl)

-- Clearing the paths of disabled groups keeps a state consistent.
clear_disabled_hot_mints_paths-IsConsistent :
    (s : WatcherState) → IsConsistent s → IsConsistent (clear_disabled_hot_mints_paths s).1
unfolding clear_disabled_hot_mints_paths
clear_disabled_hot_mints_paths-IsConsistent s h =
    (ground (arith, h), ground (arith, h), ground (arith, h), ground (arith, h))

migrate_v2_state-IsConsistent :
    (legacy : LegacyWatcherStateV2) → IsConsistent (migrate_v2_state legacy)
unfolding migrate_v2_state
migrate_v2_state-IsConsistent legacy = (refl, refl, ground arith, refl)

module _ (world : World) where
  abbrev written : WatcherState → Watch (Option WatcherState)
  written s = modify (λ _. s) >> persist world >> done (some s)

  abbrev read_version : StateFile → ℕ → Watch (Option WatcherState)
  read_version file version =
      if version == watcher_state_version
      then (need outside file.state >>= λ s. done (some s))
      else if version == 4
      then (need outside file.state >>= λ s. written (record s { version = watcher_state_version }))
      else if version == 3
      then (need outside file.state >>= λ s.
          written (record s { version = watcher_state_version; shared_full_load = none }))
      else if version == 2
      then (need outside file.legacy >>= λ legacy. written (migrate_v2_state legacy))
      else fail outside

  unfoldable load_watcher_state : Option StateFile → Watch (Option WatcherState)
  unfolding migrate_v2_state
  load_watcher_state none = done none
  load_watcher_state (some file) = need outside file.version >>= read_version file

  abbrev StateFits : Option WatcherState → Type 0
  StateFits none = Unit
  StateFits (some s) = IsConsistent s

  abbrev AnswerFits : Result WatchError (Option WatcherState) × Machine → Type 0
  AnswerFits (ok s, m) = StateFits s
  AnswerFits (err _, m) = Unit

  -- Where a file of this version, of the fourth or of the third holds a consistent state, the state that is
  -- loaded is consistent, a migrated one included.
  load_watcher_state-AnswerFits :
      (version : Option ℕ) (state : Option WatcherState) (legacy : Option LegacyWatcherStateV2)
      (m : Machine)
      → StateFits state
      → AnswerFits (
          load_watcher_state
            (some (record { version = version; state = state; legacy = legacy }))
            m)
  unfolding load_watcher_state
  load_watcher_state-AnswerFits version state legacy m h = ground (arith, h)
