-- ===== src/Watcher/Runs.antt =====
-- main.rs `run_incremental_snapshots`: the process over its rounds, the steps of its threads, its errors,
-- its crashes and its starts from the state on disk.
use solana_snapshot_etl.Prelude.{
  Bool, true, false, not, ◌||◌, List, [], ◌∷◌, none, some, if◌then◌else◌, unwrap_or, ◌≡◌, refl,
}
use solana_snapshot_etl.Prelude.Result.{Result, ok, err}
use solana_snapshot_etl.Prelude.Text.{Str}
use solana_snapshot_etl.Watcher.{
  disabled, WatcherState, Event, persisted, processed, fanned_out, opened, stopped_merges, reset,
  started_merges, settled, validated, exchanged, World, WatchError, is_phase,
}
use solana_snapshot_etl.Watcher.Journal.{
  last_persisted, last_persisted-Known, last_persisted-exchanging,
}
use solana_snapshot_etl.Watcher.Staging.{Loop, Flow, step_build, step_incremental}
use solana_snapshot_etl.Watcher.Loop.{Observation}
use solana_snapshot_etl.Watcher.Select.{round}
use solana_snapshot_etl.Watcher.Invariant.{
  bootstraps, IsConsistent, AllConsistent, OnDisk, Watching, Leaves,
}
use solana_snapshot_etl.Watcher.Gathered.{steady}
use solana_snapshot_etl.Watcher.Rounds.{round-Leaves}
use solana_snapshot_etl.Watcher.Threads.{step_build-Watching, step_incremental-Watching}

-- A process that runs, or what it left behind.
pub data Process : Type 0 where
  running : Loop → Process
  down : List Event → Process

pub data Move : Type 0 where
  rounds : Observation → Move
  builds loads : Bool → Move
  crashes : Move
  starts : List Str → List Str → Move

-- The loop behind a start that reads a state, with the hot mints of the active group and of the
-- staging group.
abbrev pub started : WatcherState → List Event → List Str → List Str → Loop
started state events mints staged = record {
  machine = record {
    state = state;
    active_slot = unwrap_or state.active.max_slot 0;
    hot_mints = if bootstraps state then [] else mints;
    events = events;
  };
  bootstrap_pending = bootstraps state;
  staging_hot_mints = if is_phase state.staging.phase disabled then none else some staged;
  staging_build = none;
  staging_incremental = none;
  invalid_archives = [];
}

abbrev ends_with : Result WatchError Flow × Loop → Process
ends_with (ok _, l) = running l
ends_with (err _, l) = down l.machine.events

module _ (base : WatcherState) where
  abbrev pub Fits : Process → Type 0
  Fits (running l) = Watching base l
  Fits (down events) = OnDisk base events

  abbrev pub move : World → Move → Process → Process
  move world (rounds obs) (running l) = ends_with (round world obs l)
  move world (builds panics) (running l) = running (step_build world panics l)
  move world (loads panics) (running l) = running (step_incremental world panics l)
  move world crashes (running l) = down l.machine.events
  move world (starts mints staged) (running l) = running l
  move world (rounds obs) (down events) = down events
  move world (builds panics) (down events) = down events
  move world (loads panics) (down events) = down events
  move world crashes (down events) = down events
  move world (starts mints staged) (down events) =
      running (started (last_persisted base events) events mints staged)

  abbrev pub run : World → List Move → Process → Process
  run world [] p = p
  run world (m ∷ ms) p = run world ms (move world m p)

  last_persisted-IsConsistent :
      (es : List Event)
      → IsConsistent base
      → AllConsistent es
      → IsConsistent (last_persisted base es)
  last_persisted-IsConsistent [] b a = b
  last_persisted-IsConsistent (persisted s ∷ es) b a = a.0
  last_persisted-IsConsistent (processed _ _ _ ∷ es) b a = last_persisted-IsConsistent es b a
  last_persisted-IsConsistent (fanned_out _ _ ∷ es) b a = last_persisted-IsConsistent es b a
  last_persisted-IsConsistent (opened _ _ ∷ es) b a = last_persisted-IsConsistent es b a
  last_persisted-IsConsistent (stopped_merges _ ∷ es) b a = last_persisted-IsConsistent es b a
  last_persisted-IsConsistent (reset _ ∷ es) b a = last_persisted-IsConsistent es b a
  last_persisted-IsConsistent (started_merges _ ∷ es) b a = last_persisted-IsConsistent es b a
  last_persisted-IsConsistent (settled _ ∷ es) b a = last_persisted-IsConsistent es b a
  last_persisted-IsConsistent (validated _ ∷ es) b a = last_persisted-IsConsistent es b a
  last_persisted-IsConsistent (exchanged _ ∷ es) b a = last_persisted-IsConsistent es b a

  either_way : (b : Bool) → (not b || b) ≡ true
  either_way true = refl
  either_way false = refl

  started-Watching :
      (events : List Event) (mints staged : List Str)
      → IsConsistent base
      → OnDisk base events
      → Watching base (started (last_persisted base events) events mints staged)
  started-Watching events mints staged b (j, a) =
      let (s, f, e, c) = last_persisted-IsConsistent events b a in
      (
        (j, a),
        (
          last_persisted-Known base events j,
          s,
          f,
          (e, e),
          (refl, c, c, last_persisted-exchanging base events j),
        ),
        tt,
        tt,
        either_way (bootstraps (last_persisted base events)),
      )

  ends_with-Fits : (r : Result WatchError Flow × Loop) → Leaves base r → Fits (ends_with r)
  ends_with-Fits (ok flow, l) h = h
  ends_with-Fits (err e, l) h = h

  move-Fits :
      (world : World) (m : Move) (p : Process)
      → IsConsistent base
      → Fits p
      → Fits (move (steady world) m p)
  move-Fits world (rounds obs) (running l) b h =
      ends_with-Fits (round (steady world) obs l) (round-Leaves base world obs l h)
  move-Fits world (builds panics) (running l) b h =
      step_build-Watching base (steady world) panics l h
  move-Fits world (loads panics) (running l) b h =
      step_incremental-Watching base (steady world) panics l h
  move-Fits world crashes (running l) b h = h.0
  move-Fits world (starts mints staged) (running l) b h = h
  move-Fits world (rounds obs) (down events) b h = h
  move-Fits world (builds panics) (down events) b h = h
  move-Fits world (loads panics) (down events) b h = h
  move-Fits world crashes (down events) b h = h
  move-Fits world (starts mints staged) (down events) b h = started-Watching events mints staged b h

  -- From a consistent state, however the watcher's process goes on, by rounds of its loop over whatever
  -- the directory holds, steps of its threads, panics, failed calls, failed writes of the state that
  -- reach the disk or not, errors, crashes and restarts from the state on disk, as long as the write of
  -- the state directly behind a shared load does not fail: a slot is written as a group's committed
  -- one only while the tables that are then the group's hold an import that ends at it, made into them
  -- since they were cleared last; a group is cleared only while the state on disk says that its full
  -- archive is to be loaded and records no slot of it; tables are exchanged only while the state on disk
  -- has both groups at the cutover and names the exchange; each state on disk is consistent; and while
  -- the process runs its threads fit its phases.
  pub run-Fits :
      (world : World) (ms : List Move) (p : Process)
      → IsConsistent base
      → Fits p
      → Fits (run (steady world) ms p)
  run-Fits world [] p b h = h
  run-Fits world (m ∷ ms) p b h =
      run-Fits world ms (move (steady world) m p) b (move-Fits world m p b h)
