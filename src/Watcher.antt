-- ===== src/Watcher.antt =====
-- main.rs: the watcher's durable state and its transitions. What the watcher asks of the database,
-- of the archives and of the disk is an event; the world decides whether it succeeds, and the events
-- that did are kept, the newest first. An error leaves the state as it is at that point.
pub mod Transitions
pub mod Journal
pub mod Progress
pub mod Workers
pub mod Staging
pub mod Loop
pub mod Round
pub mod Select
pub mod Invariant
pub mod Gathered
pub mod Rounds
pub mod Threads
pub mod Runs
pub mod Start
pub mod Failures
use solana_snapshot_etl.Prelude.{ℕ, Bool, true, false, List, ◌∷◌, Option, none, some, ◌==◌}
use solana_snapshot_etl.Prelude.Result.{Result, ok, err}
use solana_snapshot_etl.Prelude.Text.{Str}
use solana_snapshot_etl.Incremental.{FilePath}
use solana_snapshot_etl.Incremental.Generations.{FullSnapshotWatcherState}
use solana_snapshot_etl.Import.{TableGroup, SnapshotKind}

pub data LanePhase : Type 0 where
  disabled waiting_for_full full_loading full_merging : LanePhase
  ready incremental_loading cutover_pending : LanePhase

pub data PersistedSnapshotKind : Type 0 where
  full incremental : PersistedSnapshotKind

pub record InflightSnapshotWatcherState : Type 0 where
  pub kind : PersistedSnapshotKind

pub record LaneWatcherState : Type 0 where
  pub phase : LanePhase
  pub full_snapshot : Option FullSnapshotWatcherState
  pub max_slot : Option ℕ
  pub hot_mints_path : Option FilePath
  pub inflight_incremental : Option InflightSnapshotWatcherState

-- A `BTreeMap` from names to identifiers.
pub record TableGroupIdentity : Type 0 where
  pub tables : List (Str × Str)

pub record CutoverWatcherState : Type 0 where
  pub active_tables : TableGroupIdentity
  pub staging_tables : TableGroupIdentity

pub record SharedFullLoadWatcherState : Type 0 where
  pub snapshot : FullSnapshotWatcherState
  pub active_resume_slot : ℕ

pub record WatcherState : Type 0 where
  pub version : ℕ
  pub active : LaneWatcherState
  pub staging : LaneWatcherState
  pub cutover : Option CutoverWatcherState
  pub shared_full_load : Option SharedFullLoadWatcherState

abbrev pub disabled_lane : LaneWatcherState
disabled_lane = record {
  phase = disabled;
  full_snapshot = none;
  max_slot = none;
  hot_mints_path = none;
  inflight_incremental = none;
}

abbrev pub full_loading_lane : FullSnapshotWatcherState → LaneWatcherState
full_loading_lane snapshot = record disabled_lane {
  phase = full_loading;
  full_snapshot = some snapshot;
}

abbrev pub is_phase : LanePhase → LanePhase → Bool
is_phase disabled disabled = true
is_phase waiting_for_full waiting_for_full = true
is_phase full_loading full_loading = true
is_phase full_merging full_merging = true
is_phase ready ready = true
is_phase incremental_loading incremental_loading = true
is_phase cutover_pending cutover_pending = true
is_phase _ _ = false

-- What succeeded.
pub data Event : Type 0 where
  persisted : WatcherState → Event
  opened : FilePath → ℕ → Event
  processed : SnapshotKind → TableGroup → ℕ → Event
  fanned_out : ℕ → ℕ → Event
  stopped_merges reset started_merges settled : TableGroup → Event
  validated : ℕ → Event
  exchanged : CutoverWatcherState → Event

-- `reaches` is asked where the write of a state fails: the new state may already be in place.
pub record World : Type 0 where
  pub succeeds : List Event → Event → Bool
  pub reaches : List Event → WatcherState → Bool
  pub snapshot_hot_mints : List Event → Option (List Str)
  pub frozen_hot_mints : List Event → Option (List Str)
  pub persist_frozen_hot_mints : List Event → List Str → Option FilePath
  pub table_group_identity : List Event → TableGroup → Option TableGroupIdentity

-- The source's errors are texts; those of the outside are one.
pub data WatchError : Type 0 where
  outside : WatchError
  staging_not_disabled active_not_ready no_max_slot no_checkpoint : WatchError
  incompatible_phases no_inflight other_archive other_max_slot : WatchError
  no_full_snapshot no_staging_hot_mints no_acknowledgement no_full_merging_checkpoint : WatchError
  conflicting_worker not_incremental : WatchError
  missing_archive merge_failed staging_incremental_failed worker_panicked : WatchError

pub record Machine : Type 0 where
  pub state : WatcherState
  pub active_slot : ℕ
  pub hot_mints : List Str
  pub events : List Event

abbrev pub Watch {ℓ} : Type ℓ → Type ℓ
Watch A = Machine → Result WatchError A × Machine

infixr 5 ◌>>=◌
abbrev pub ◌>>=◌ {ℓ κ} : {A : Type ℓ} {B : Type κ} → Watch A → (A → Watch B) → Watch B
(m >>= f) s = let (answer, s') = m s in elim answer [ ok a ↦ f a s' | err e ↦ (err e, s') ]

infixr 5 ◌>>◌
abbrev pub ◌>>◌ {ℓ κ} : {A : Type ℓ} {B : Type κ} → Watch A → Watch B → Watch B
m >> n = m >>= λ _. n

abbrev pub done {ℓ} : {A : Type ℓ} → A → Watch A
done a s = (ok a, s)

abbrev pub fail {ℓ} : {A : Type ℓ} → WatchError → Watch A
fail e s = (err e, s)

abbrev pub modify : (WatcherState → WatcherState) → Watch (Unit {0})
modify f s = (ok tt, record s { state = f s.state })

abbrev pub set_active_slot : ℕ → Watch (Unit {0})
set_active_slot n s = (ok tt, record s { active_slot = n })

abbrev pub set_hot_mints : List Str → Watch (Unit {0})
set_hot_mints mints s = (ok tt, record s { hot_mints = mints })

abbrev pub need {ℓ} : {A : Type ℓ} → WatchError → Option A → Watch A
need e none s = (err e, s)
need e (some a) s = (ok a, s)

abbrev pub get : Watch Machine
get s = (ok s, s)

abbrev pub acted : Event → Machine → Bool → Result WatchError (Unit {0}) × Machine
acted event s true = (ok tt, record s { events = event ∷ s.events })
acted event s false = (err outside, s)

module _ (world : World) where
  abbrev pub act : Event → Watch (Unit {0})
  act event s = acted event s (world.succeeds s.events event)

  abbrev pub renamed : Machine → Bool → Result WatchError (Unit {0}) × Machine
  renamed s true = (err outside, record s { events = persisted s.state ∷ s.events })
  renamed s false = (err outside, s)

  abbrev pub wrote : Machine → Bool → Result WatchError (Unit {0}) × Machine
  wrote s true = (ok tt, record s { events = persisted s.state ∷ s.events })
  wrote s false = renamed s (world.reaches s.events s.state)

  -- `persist_watcher_state`: behind the renaming of the file, the directory may still fail to be
  -- written.
  abbrev pub persist : Watch (Unit {0})
  persist s = wrote s (world.succeeds s.events (persisted s.state))
