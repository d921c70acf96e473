-- ===== src/Watcher/Staging.antt =====
-- main.rs: the worker threads of the staging group, and the state that the watcher's loop keeps next
-- to its journal. A thread is stepped between two rounds of the loop; a channel is what the thread
-- offers on it, and a thread that has ended keeps what it is joined with.
use solana_snapshot_etl.Prelude.{ℕ, Bool, List, Option, none, some, if◌then◌else◌}
use solana_snapshot_etl.Prelude.Result.{Result, ok, err}
use solana_snapshot_etl.Prelude.Text.{Str}
use solana_snapshot_etl.Incremental.{FilePath, FullSnapshot, IncrementalSnapshot}
use solana_snapshot_etl.Incremental.Generations.{FullSnapshotWatcherState}
use solana_snapshot_etl.Import.{backup}
use solana_snapshot_etl.Watcher.{
  Event, opened, processed, stopped_merges, reset, started_merges, settled, World, WatchError,
  outside, Machine, Watch, WatcherState, act, need, get,
}
use solana_snapshot_etl.Watcher
use solana_snapshot_etl.Watcher.Workers.{
  build_staging_full, wait_for_staging_merges, process_incremental_in_background,
}

-- What joining a thread answers.
pub data Joined {ℓ} (A : Type ℓ) : Type ℓ where
  finished : A → Joined A
  failed panicked : Joined A

pub data BuildWorker : Type 0 where
  importing : FullSnapshot → BuildWorker
  offering : List Str → BuildWorker
  merging : BuildWorker
  ended : Joined (Unit {0}) → BuildWorker

-- The two ends of the channels are there for a build that imports, not for one that waits.
pub record StagingBuild : Type 0 where
  pub snapshot : FullSnapshotWatcherState
  pub full_imported : Bool
  pub full_import_ack : Bool
  pub worker : BuildWorker

pub data IncrementalWorker : Type 0 where
  running : IncrementalSnapshot → ℕ → IncrementalWorker
  ended : Joined ℕ → IncrementalWorker

pub record Loop : Type 0 where
  pub machine : Machine
  pub bootstrap_pending : Bool
  pub staging_hot_mints : Option (List Str)
  pub staging_build : Option StagingBuild
  pub staging_incremental : Option IncrementalWorker
  pub invalid_archives : List FilePath

abbrev pub state_of : Loop → WatcherState
state_of l = l.machine.state

abbrev pub Looping {ℓ} : Type ℓ → Type ℓ
Looping A = Loop → Result WatchError A × Loop

infixr 5 ◌>>=◌
abbrev pub ◌>>=◌ {ℓ κ} : {A : Type ℓ} {B : Type κ} → Looping A → (A → Looping B) → Looping B
(m >>= f) l = let (answer, l') = m l in elim answer [ ok a ↦ f a l' | err e ↦ (err e, l') ]

infixr 5 ◌>>◌
abbrev pub ◌>>◌ {ℓ κ} : {A : Type ℓ} {B : Type κ} → Looping A → Looping B → Looping B
m >> n = m >>= λ _. n

abbrev pub lift {ℓ} : {A : Type ℓ} → Watch A → Looping A
lift w l = let (answer, m) = w l.machine in (answer, record l { machine = m })

abbrev pub done {ℓ} : {A : Type ℓ} → A → Looping A
done a l = (ok a, l)

abbrev pub fail {ℓ} : {A : Type ℓ} → WatchError → Looping A
fail e l = (err e, l)

-- The state in memory alone.
abbrev pub update : (WatcherState → WatcherState) → Looping (Unit {0})
update f = lift (Watcher.modify f)

abbrev pub require {ℓ} : {A : Type ℓ} → WatchError → Option A → Looping A
require e o = lift (need e o)

-- A failure is a warning.
abbrev pub attempt : Looping (Unit {0}) → Looping (Unit {0})
attempt m l = (ok tt, (m l).1)

-- Whether a round goes on to its next part, or the loop starts over.
pub data Flow : Type 0 where
  next continue : Flow

infixr 4 ◌&>◌
abbrev pub ◌&>◌ : Looping Flow → Looping Flow → Looping Flow
(p &> q) l =
    let (answer, l') = p l in
    elim answer [ ok next ↦ q l' | ok continue ↦ (ok continue, l') | err e ↦ (err e, l') ]

module _ (world : World) where
  abbrev pub do_act : Event → Looping (Unit {0})
  do_act event = lift (act world event)

  abbrev pub do_persist : Looping (Unit {0})
  do_persist = lift (Watcher.persist world)

  unfoldable pub reset_failed_staging : Looping (Unit {0})
  reset_failed_staging = attempt (do_act (stopped_merges backup)) >> attempt (do_act (reset backup))

-- One step of a thread, which may panic in it.
module _ (world : World) where
  unfoldable pub step_build : Bool → Loop → Loop
  unfolding build_staging_full wait_for_staging_merges
  step_build panics l = elim l.staging_build [
    | none ↦ l
    | some build ↦
        let become : BuildWorker → Loop → Loop =
          λ worker k. record k { staging_build = some (record build { worker = worker }) } in
        elim build.worker [
          | importing snapshot ↦
              let (answer, l') = lift (build_staging_full world snapshot) l in
              elim answer [
                | err e ↦ become (ended failed) l'
                | ok mints ↦ become (if panics then ended panicked else offering mints) l'
              ]
          | offering mints ↦ l
          | merging ↦
              let (answer, l') = lift (wait_for_staging_merges world) l in
              elim answer [
                | err e ↦ become (ended failed) l'
                | ok _ ↦ become (ended (if panics then panicked else finished tt)) l'
              ]
          | ended outcome ↦ l
        ]
  ]

  unfoldable pub step_incremental : Bool → Loop → Loop
  unfolding process_incremental_in_background
  step_incremental panics l = elim l.staging_incremental [
    | none ↦ l
    | some (ended outcome) ↦ l
    | some (running snapshot resume_slot) ↦
        let (answer, l') = lift (process_incremental_in_background world snapshot resume_slot) l in
        elim answer [
          | err e ↦ record l' { staging_incremental = some (ended failed) }
          | ok slot ↦ record l' {
            staging_incremental = some (ended (if panics then panicked else finished slot));
          }
        ]
  ]
