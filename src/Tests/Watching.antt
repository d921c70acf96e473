-- ===== src/Tests/Watching.antt =====
-- main.rs: the watcher in a world where two calls fail, and in one where all succeed.
use solana_snapshot_etl.Prelude.{◌≡◌, true, [], ◌∷◌, length, none, some, ◌==◌, not, ◌||◌, arith}
use solana_snapshot_etl.Prelude.Result.{ok}
use solana_snapshot_etl.Prelude.Text.{bytes}
use solana_snapshot_etl.Incremental.{FullSnapshot}
use solana_snapshot_etl.Incremental.Selection.{WatchedSnapshot}
use solana_snapshot_etl.Incremental.Selection
use solana_snapshot_etl.Import.{active}
use solana_snapshot_etl.Import
use solana_snapshot_etl.Watcher.{
  ready, incremental_loading, persisted, processed, opened, cutover_pending, LaneWatcherState,
  WatcherState, disabled_lane, World, Machine,
}
use solana_snapshot_etl.Watcher.Transitions.{
  inflight_snapshot, apply_active_incremental, begin_shared_full_load,
}
use solana_snapshot_etl.Watcher.Progress.{willing, apply_active_incremental_lem}

-- The third and the seventh call fail.
abbrev world : World
world = record {
  succeeds = λ es e. not (length es == 2 || length es == 6);
  reaches = λ es s. true;
  snapshot_hot_mints = λ es. some (bytes "M" ∷ []);
  frozen_hot_mints = λ es. some (bytes "M" ∷ []);
  persist_frozen_hot_mints = λ es mints. some (bytes "mints" ∷ []);
  table_group_identity = λ es group. some (record { tables = [] });
}

abbrev ready_lane : LaneWatcherState
ready_lane = record disabled_lane { phase = ready; max_slot = some 10 }

abbrev start : WatcherState
start = record {
  version = 3;
  active = ready_lane;
  staging = disabled_lane;
  cutover = none;
  shared_full_load = none;
}

abbrev machine : Machine
machine = record { state = start; active_slot = 10; hot_mints = []; events = [] }

abbrev archive : FullSnapshot
archive = record { path = bytes "f" ∷ []; slot = 30 }

abbrev next_archive : WatchedSnapshot
next_archive = Selection.incremental (record { path = bytes "i" ∷ []; base_slot = 10; slot = 20 })

apply_active_incremental_example :
    (let (answer, m') = apply_active_incremental (willing world) next_archive machine in
      (answer ≡ ok true)
      × (m'.active_slot ≡ 20)
      × (m'.state.active.max_slot ≡ some 20)
      × (m'.state.active.phase ≡ ready)
      × (m'.state.staging ≡ disabled_lane)
      × (m'.state.active.full_snapshot ≡ none)
      × (m'.events ≡ (
          persisted m'.state
          ∷ processed Import.incremental active 20
          ∷ persisted (record start {
            active = record ready_lane {
              phase = incremental_loading;
              inflight_incremental = some (inflight_snapshot next_archive);
            };
          })
          ∷ opened (bytes "i" ∷ []) 10
          ∷ [])))
apply_active_incremental_example =
    apply_active_incremental_lem world next_archive machine (omega arith)

abbrev begun : Machine
begun = (begin_shared_full_load (willing world) archive machine).1

abbrev pending : Machine
pending = record machine {
  state = record start {
    active = record ready_lane { phase = cutover_pending };
    staging = record ready_lane { phase = cutover_pending; max_slot = some 40 };
  };
}
