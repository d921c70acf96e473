-- ===== src/Watcher/Gathered.antt =====
-- main.rs `run_incremental_snapshots`: what holds between the parts of a round, gathered from its
-- conditions, and carried from one part to the next.
pub mod Joins
pub mod Shared
pub mod Active
pub mod Bootstrap
pub mod Resumed
pub mod Chosen
use solana_snapshot_etl.Prelude.{ℕ, Bool, true, false, ◌||◌, List, ◌∷◌, ◌≡◌, Option}
use solana_snapshot_etl.Prelude.Result.{Result, ok, err}
use solana_snapshot_etl.Watcher.{WatchError, WatcherState, World, Event, persisted, fanned_out}
use solana_snapshot_etl.Watcher.Staging.{Loop, Looping, Flow, next, continue, ◌>>=◌, ◌>>◌, ◌&>◌}
use solana_snapshot_etl.Watcher.Invariant.{
  Journaled, Consistent, StateKnown, SharedFits, BootstrapFits, LoadOnDisk, CutoverOnDisk,
  BuildMatches, IncrementalMatches, PendingFits, Watching, Alone, Leaves, LeavesAlone,
}

-- The write of a state directly behind the import of both groups.
abbrev behind_fan_out : List Event → Event → Bool
behind_fan_out (fanned_out _ _ ∷ es) (persisted _) = true
behind_fan_out _ _ = false

-- The same world, where that write does not fail.
abbrev pub steady : World → World
steady world = record world { succeeds = λ es e. behind_fan_out es e || world.succeeds es e }

-- Of the loop, whatever is answered.
abbrev pub Ever {ℓ} : {A : Type ℓ} → (Loop → Type 0) → Result WatchError A × Loop → Type 0
Ever P (ok _, l) = P l
Ever P (err _, l) = P l

-- Of the loop, unless it ends.
abbrev pub Going {ℓ} : {A : Type ℓ} → (Loop → Type 0) → Result WatchError A × Loop → Type 0
Going P (ok _, l) = P l
Going P (err _, l) = Unit

-- Of the loop, if the round goes on.
abbrev pub Onward : (Loop → Type 0) → Result WatchError Flow × Loop → Type 0
Onward P (ok next, l) = P l
Onward P (ok continue, l) = Unit
Onward P (err _, l) = Unit

module _ (base : WatcherState) where
  pub gathered {ℓ} :
      {A : Type ℓ} (r : Result WatchError A × Loop)
      → Ever (Journaled base) r
      → Ever (Consistent base) r
      → Going (StateKnown base) r
      → Going (SharedFits base) r
      → Going (BootstrapFits base) r
      → Going (LoadOnDisk base) r
      → Going (CutoverOnDisk base) r
      → Going (BuildMatches base) r
      → Going (IncrementalMatches base) r
      → Going (PendingFits base) r
      → Leaves base r
  gathered (ok a, l) j c k s b o x t i p = ((j, c), (k, s, b, o, x), t, i, p)
  gathered (err e, l) j c k s b o x t i p = (j, c)

  pub Leaves-LeavesAlone :
      (r : Result WatchError Flow × Loop)
      → Leaves base r
      → Onward (Alone base) r
      → LeavesAlone base r
  Leaves-LeavesAlone (ok next, l) h a = (h, a)
  Leaves-LeavesAlone (ok continue, l) h a = h
  Leaves-LeavesAlone (err e, l) h a = h

  pub then-Leaves {ℓ κ} :
      {A : Type ℓ} {B : Type κ} (r : Result WatchError A × Loop) (f : A → Looping B)
      → Leaves base r
      → ((a : A) (l : Loop) → Watching base l → Leaves base (f a l))
      → Leaves base {A = B}
          (let (answer, l') = r in elim answer [ ok a ↦ f a l' | err e ↦ (err e, l') ])
  then-Leaves (ok a, l) f h k = k a l h
  then-Leaves (err e, l) f h k = h
