-- ===== src/Watcher/Invariant.antt =====
-- main.rs: what holds of the watcher's loop between the parts of a round, the state on disk included.
use solana_snapshot_etl.Prelude.{
  ℕ, Bool, true, not, ◌||◌, List, [], ◌∷◌, Option, none, some, is_none, ◌≡◌,
}
use solana_snapshot_etl.Prelude.Result.{Result, ok, err}
use solana_snapshot_etl.Import.{backup}
use solana_snapshot_etl.Watcher.{
  disabled, waiting_for_full, full_loading, full_merging, incremental_loading, LanePhase,
  WatcherState, Event, persisted, processed, fanned_out, opened, stopped_merges, reset,
  started_merges, settled, validated, exchanged, is_phase,
}
use solana_snapshot_etl.Watcher.Journal.{
  Journal, KnownState, Holds, last_persisted, moved, cutting, exchanging, awaits_full,
}
use solana_snapshot_etl.Watcher.Staging.{
  finished, failed, panicked, BuildWorker, importing, offering, merging, StagingBuild,
  IncrementalWorker, running, Loop, Looping, Flow, next, continue, state_of,
}
use solana_snapshot_etl.Watcher.Staging
use solana_snapshot_etl.Watcher

abbrev pub loads_staging : WatcherState → Bool
loads_staging s = is_phase s.staging.phase full_loading

-- The active group has no full archive yet.
abbrev pub bootstraps : WatcherState → Bool
bootstraps s = is_phase s.active.phase waiting_for_full || is_phase s.active.phase full_loading

-- A shared load is on its way only while the staging group is to be loaded.
abbrev pub shared_fits : WatcherState → Bool
shared_fits s = is_none s.shared_full_load || loads_staging s

-- There is no staging group while the active one has no full archive.
abbrev pub bootstrap_fits : WatcherState → Bool
bootstrap_fits s = not (bootstraps s) || is_phase s.staging.phase disabled

-- A group that is to be loaded has no committed slot yet.
abbrev pub load_fits : WatcherState → Bool
load_fits s = not (loads_staging s) || awaits_full s.staging

-- An exchange is named only while both groups are at the cutover.
abbrev pub cutover_fits : WatcherState → Bool
cutover_fits s = is_none s.cutover || cutting s

abbrev pub IsConsistent : WatcherState → Type 0
IsConsistent s =
    (shared_fits s ≡ true)
    × (bootstrap_fits s ≡ true)
    × (load_fits s ≡ true)
    × (cutover_fits s ≡ true)

-- Every state that was written to the disk is consistent.
abbrev pub AllConsistent : List Event → Type 0
AllConsistent [] = Unit
AllConsistent (persisted s ∷ es) = IsConsistent s × AllConsistent es
AllConsistent (processed _ _ _ ∷ es) = AllConsistent es
AllConsistent (fanned_out _ _ ∷ es) = AllConsistent es
AllConsistent (opened _ _ ∷ es) = AllConsistent es
AllConsistent (stopped_merges _ ∷ es) = AllConsistent es
AllConsistent (reset _ ∷ es) = AllConsistent es
AllConsistent (started_merges _ ∷ es) = AllConsistent es
AllConsistent (settled _ ∷ es) = AllConsistent es
AllConsistent (validated _ ∷ es) = AllConsistent es
AllConsistent (exchanged _ ∷ es) = AllConsistent es

module _ (base : WatcherState) where
  -- What a thread that builds the staging group has done, in a phase of that group.
  abbrev pub BuildIs : BuildWorker → ℕ → LanePhase → List Event → Type 0
  BuildIs (importing snapshot) slot phase es =
      (is_phase phase full_loading ≡ true) × (snapshot.slot ≡ slot)
  BuildIs (offering _) slot phase es =
      (is_phase phase full_loading ≡ true) × Holds base backup (some slot) es
  BuildIs merging slot phase es = is_phase phase full_merging ≡ true
  BuildIs (Staging.BuildWorker.ended _) slot phase es =
      (is_phase phase full_loading || is_phase phase full_merging) ≡ true

  abbrev pub BuildFits : Option StagingBuild → WatcherState → List Event → Type 0
  BuildFits none s es = Unit
  BuildFits (some build) s es =
      BuildIs build.worker build.snapshot.slot s.staging.phase es
      × (is_none s.shared_full_load ≡ true)

  abbrev pub IncrementalFits : Option IncrementalWorker → WatcherState → List Event → Type 0
  IncrementalFits none s es = Unit
  IncrementalFits (some (running _ _)) s es = is_phase s.staging.phase incremental_loading ≡ true
  IncrementalFits (some (Staging.IncrementalWorker.ended (finished slot))) s es =
      (is_phase s.staging.phase incremental_loading ≡ true) × Holds base backup (some slot) es
  IncrementalFits (some (Staging.IncrementalWorker.ended _)) s es =
      is_phase s.staging.phase incremental_loading ≡ true

  -- What a restart needs: the journal is right, and the states on disk are consistent.
  abbrev pub OnDisk : List Event → Type 0
  OnDisk es = Journal base es × AllConsistent es

  abbrev pub Journaled : Loop → Type 0
  Journaled l = Journal base l.machine.events

  abbrev pub Consistent : Loop → Type 0
  Consistent l = AllConsistent l.machine.events

  abbrev pub StateKnown : Loop → Type 0
  StateKnown l = KnownState base (state_of l) l.machine.events

  abbrev pub SharedFits : Loop → Type 0
  SharedFits l = shared_fits (state_of l) ≡ true

  abbrev pub BootstrapFits : Loop → Type 0
  BootstrapFits l = bootstrap_fits (state_of l) ≡ true

  -- Where the state in memory says that the staging group is to be loaded, so does the one on disk.
  abbrev pub LoadOnDisk : Loop → Type 0
  LoadOnDisk l =
      ((not (loads_staging (state_of l))
          || awaits_full (last_persisted base l.machine.events).staging)
        ≡ true)
      × (load_fits (state_of l) ≡ true)

  -- The tables to be exchanged are those that the state on disk names, and while they stand
  -- exchanged, memory has the exchange pending.
  abbrev pub CutoverOnDisk : Loop → Type 0
  CutoverOnDisk l =
      ((state_of l).cutover ≡ (last_persisted base l.machine.events).cutover)
      × (cutover_fits (last_persisted base l.machine.events) ≡ true)
      × (cutover_fits (state_of l) ≡ true)
      × ((not (moved l.machine.events) || exchanging (state_of l)) ≡ true)

  abbrev pub BuildMatches : Loop → Type 0
  BuildMatches l = BuildFits l.staging_build (state_of l) l.machine.events

  abbrev pub IncrementalMatches : Loop → Type 0
  IncrementalMatches l = IncrementalFits l.staging_incremental (state_of l) l.machine.events

  abbrev pub PendingFits : Loop → Type 0
  PendingFits l = (not l.bootstrap_pending || bootstraps (state_of l)) ≡ true

  abbrev pub Watching : Loop → Type 0
  Watching l =
      (Journaled l × Consistent l)
      × (StateKnown l × SharedFits l × BootstrapFits l × LoadOnDisk l × CutoverOnDisk l)
      × BuildMatches l
      × IncrementalMatches l
      × PendingFits l

  abbrev pub Alone : Loop → Type 0
  Alone l = is_none (state_of l).shared_full_load ≡ true

  -- What a part of a round leaves behind.
  abbrev pub Leaves {ℓ} : {A : Type ℓ} → Result Watcher.WatchError A × Loop → Type 0
  Leaves (ok _, l) = Watching l
  Leaves (err _, l) = OnDisk l.machine.events

  -- The same, behind which no shared load is on its way if the round goes on.
  abbrev pub LeavesAlone : Result Watcher.WatchError Flow × Loop → Type 0
  LeavesAlone (ok next, l) = Watching l × Alone l
  LeavesAlone (ok continue, l) = Watching l
  LeavesAlone (err _, l) = OnDisk l.machine.events
