-- ===== src/Watcher/Progress.antt =====
-- main.rs: what the transitions achieve where the calls to the outside succeed.
use solana_snapshot_etl.Prelude.{ℕ, ◌<◌, true, List, ◌∷◌, none, some, ◌≡◌, arith}
use solana_snapshot_etl.Prelude.Result.{ok}
use solana_snapshot_etl.Incremental.Selection.{WatchedSnapshot}
use solana_snapshot_etl.Import.{active}
use solana_snapshot_etl.Import
use solana_snapshot_etl.Watcher.{
  ready, incremental_loading, TableGroupIdentity, CutoverWatcherState, Event, validated, persisted,
  processed, opened, World, Machine,
}
use solana_snapshot_etl.Watcher.Transitions.{
  apply_active_incremental, slot_of, path_of, inflight_snapshot,
}

-- The same world, where every call succeeds.
abbrev pub willing : World → World
willing world = record world { succeeds = λ es e. true }

-- Where the calls succeed, an archive beyond the active slot is opened to be read from that slot on,
-- the state that says so is written, the archive is imported into the active tables and no others,
-- and the state that is written behind it has the archive's slot as the committed one, with the
-- generation and the staging group as before. Nothing else is called.
pub apply_active_incremental_lem :
    (world : World) (candidate : WatchedSnapshot) (m : Machine)
    → m.active_slot < slot_of candidate
    → (let (answer, m') = apply_active_incremental (willing world) candidate m in
        (answer ≡ ok true)
        × (m'.active_slot ≡ slot_of candidate)
        × (m'.state.active.max_slot ≡ some (slot_of candidate))
        × (m'.state.active.phase ≡ ready)
        × (m'.state.staging ≡ m.state.staging)
        × (m'.state.active.full_snapshot ≡ m.state.active.full_snapshot)
        × (m'.events ≡ (
            persisted m'.state
            ∷ processed Import.incremental active (slot_of candidate)
            ∷ persisted (record m.state {
              active = record m.state.active {
                phase = incremental_loading;
                inflight_incremental = some (inflight_snapshot candidate);
              };
            })
            ∷ opened (path_of candidate) m.active_slot
            ∷ m.events)))
unfolding apply_active_incremental
apply_active_incremental_lem world candidate m h = ground arith

-- What is called before the exchange: nothing where the state already names the tables, and else the
-- check of the hot mints and the write of the state that names them.
abbrev pub prepared :
    TableGroupIdentity → TableGroupIdentity → ℕ → Machine → CutoverWatcherState × List Event
prepared a b n m = elim m.state.cutover [
  | some checkpoint ↦ (checkpoint, m.events)
  | none ↦
      let named : CutoverWatcherState = record { active_tables = a; staging_tables = b } in
      (named, persisted (record m.state { cutover = some named }) ∷ validated n ∷ m.events)
]
