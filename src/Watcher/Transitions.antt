-- ===== src/Watcher/Transitions.antt =====
-- main.rs: the transitions of the watcher.
use solana_snapshot_etl.Prelude.{
  ℕ, Bool, true, false, List, length, Option, none, some, if◌then◌else◌, ◌==◌, leb, ◌||◌, not,
}
use solana_snapshot_etl.Prelude.Order.{eqb}
use solana_snapshot_etl.Prelude.Text.{Str}
use solana_snapshot_etl.Incremental.{FilePath, path_ord, FullSnapshot}
use solana_snapshot_etl.Incremental.Selection.{WatchedSnapshot}
use solana_snapshot_etl.Incremental.Selection
use solana_snapshot_etl.Incremental.Generations.{full_snapshot_state}
use solana_snapshot_etl.Import.{active, backup}
use solana_snapshot_etl.Import
use solana_snapshot_etl.Watcher.{
  disabled, full_loading, full_merging, ready, incremental_loading, cutover_pending,
  PersistedSnapshotKind, full, incremental, InflightSnapshotWatcherState, CutoverWatcherState,
  disabled_lane, full_loading_lane, opened, processed, fanned_out, stopped_merges, reset,
  started_merges, settled, validated, exchanged, World, outside, staging_not_disabled,
  active_not_ready, no_max_slot, no_checkpoint, incompatible_phases, no_inflight, other_archive,
  other_max_slot, Watch, ◌>>=◌, ◌>>◌, done, fail, modify, need, get, set_active_slot, set_hot_mints,
  is_phase, act, persist,
}

abbrev pub slot_of : WatchedSnapshot → ℕ
slot_of (Selection.incremental s) = s.slot
slot_of (Selection.full s) = s.slot

abbrev pub path_of : WatchedSnapshot → FilePath
path_of (Selection.incremental s) = s.path
path_of (Selection.full s) = s.path

unfoldable pub inflight_snapshot : WatchedSnapshot → InflightSnapshotWatcherState
inflight_snapshot (Selection.incremental _) = record { kind = incremental }
inflight_snapshot (Selection.full _) = record { kind = full }

module _ (world : World) where
  unfoldable pub apply_active_incremental : WatchedSnapshot → Watch Bool
  unfolding inflight_snapshot
  apply_active_incremental candidate m =
      if leb (slot_of candidate) m.active_slot
      then (done false m)
      else (act world (opened (path_of candidate) m.active_slot)
            >> modify (λ s. record s {
              active = record s.active {
                phase = incremental_loading;
                inflight_incremental = some (inflight_snapshot candidate);
              };
            })
            >> persist world
            >> act world (processed Import.incremental active (slot_of candidate))
            >> set_active_slot (slot_of candidate)
            >> modify (λ s. record s {
              active = record s.active {
                max_slot = some (slot_of candidate);
                phase = ready;
                inflight_incremental = none;
              };
            })
            >> persist world
            >> done true)
          m

  unfoldable pub process_bootstrap_full : FullSnapshot → Watch ℕ
  unfolding full_snapshot_state
  process_bootstrap_full snapshot =
      modify (λ s. record s {
        active = full_loading_lane (full_snapshot_state snapshot);
        staging = disabled_lane;
        cutover = none;
      })
      >> persist world
      >> act world (stopped_merges active)
      >> act world (reset active)
      >> act world (opened snapshot.path 0)
      >> act world (processed Import.full active snapshot.slot)
      >> get
      >>= λ m. need outside (world.frozen_hot_mints m.events) >>= λ mints.
          need outside (world.persist_frozen_hot_mints m.events mints) >>= λ path.
          modify (λ s. record s {
            active = record s.active {
              phase = full_merging;
              max_slot = some snapshot.slot;
              hot_mints_path = some path;
              inflight_incremental = none;
            };
          })
          >> persist world
          >> act world (started_merges active)
          >> act world (settled active)
          >> modify (λ s. record s { active = record s.active { phase = ready } })
          >> persist world
          >> done snapshot.slot

  -- A failed clean-up of unused files is a warning, and is left out.
  unfoldable pub begin_shared_full_load : FullSnapshot → Watch (List Str)
  unfolding full_snapshot_state inflight_snapshot
  begin_shared_full_load snapshot m =
      if not (is_phase m.state.staging.phase disabled)
      then fail staging_not_disabled m
      else if not (is_phase m.state.active.phase ready)
      then fail active_not_ready m
      else (need no_max_slot m.state.active.max_slot >>= λ active_resume_slot.
            need outside (world.snapshot_hot_mints m.events) >>= λ staging_hot_mints.
            need outside (world.persist_frozen_hot_mints m.events staging_hot_mints) >>= λ path.
            modify (λ s. record s {
              staging = record (full_loading_lane (full_snapshot_state snapshot)) {
                hot_mints_path = some path;
              };
              active = record s.active {
                phase = incremental_loading;
                inflight_incremental = some (inflight_snapshot (Selection.full snapshot));
              };
              cutover = none;
              shared_full_load = some (record {
                snapshot = full_snapshot_state snapshot;
                active_resume_slot = active_resume_slot;
              });
            })
            >> persist world
            >> done staging_hot_mints)
          m

  abbrev is_full : PersistedSnapshotKind → Bool
  is_full full = true
  is_full incremental = false

  abbrev pub max_slot_is : Option ℕ → ℕ → Bool
  max_slot_is none n = false
  max_slot_is (some k) n = k == n

  -- The thread that waits for the merges is started behind the last step and changes no state.
  unfoldable pub complete_shared_full_load : FullSnapshot → Watch (Unit {0})
  complete_shared_full_load snapshot m =
      (need no_checkpoint m.state.shared_full_load >>= λ shared.
      if not (is_phase m.state.staging.phase full_loading)
        || not (is_phase m.state.active.phase incremental_loading)
      then fail incompatible_phases
      else (need no_inflight m.state.active.inflight_incremental >>= λ active_inflight.
          if not (is_full active_inflight.kind)
            || (not (eqb ⦃o = path_ord⦄ snapshot.path shared.snapshot.path)
                || not (snapshot.slot == shared.snapshot.slot))
          then fail other_archive
          else if not (max_slot_is m.state.active.max_slot shared.active_resume_slot)
          then fail other_max_slot
          else (act world (opened snapshot.path 0)
              >> act world (fanned_out snapshot.slot shared.active_resume_slot)
              >> modify (λ s. record s {
                active = record s.active {
                  max_slot = some snapshot.slot;
                  phase = ready;
                  inflight_incremental = none;
                };
                staging = record s.staging {
                  max_slot = some snapshot.slot;
                  phase = full_merging;
                  inflight_incremental = none;
                };
                shared_full_load = none;
              })
              >> persist world)))
        m

  -- The tables that are exchanged are those of the checkpoint, made before the first attempt.
  unfoldable pub checkpoint_cutover : List Str → Watch CutoverWatcherState
  checkpoint_cutover staging_hot_mints m = elim m.state.cutover [
    | some checkpoint ↦ done checkpoint m
    | none ↦
        (act world (validated (length staging_hot_mints)) >> get >>= λ k.
        need outside (world.table_group_identity k.events active) >>= λ a.
        need outside (world.table_group_identity k.events backup) >>= λ b.
        let checkpoint : CutoverWatcherState = record { active_tables = a; staging_tables = b } in
        modify (λ s. record s { cutover = some checkpoint }) >> persist world >> done checkpoint)
          m
  ]

  unfoldable pub finish_cutover : List Str → Watch (Unit {0})
  unfolding checkpoint_cutover
  finish_cutover staging_hot_mints m =
      if not (is_phase m.state.active.phase cutover_pending)
        || not (is_phase m.state.staging.phase cutover_pending)
      then done tt m
      else (need no_max_slot m.state.staging.max_slot >>= λ staging_slot.
            checkpoint_cutover staging_hot_mints >>= λ checkpoint.
            act world (exchanged checkpoint)
            >> set_hot_mints staging_hot_mints
            >> modify (λ s. record s {
              active = record s.staging { phase = ready; inflight_incremental = none };
              staging = record s.active {
                phase = disabled;
                inflight_incremental = none;
                hot_mints_path = none;
              };
              cutover = none;
              shared_full_load = none;
            })
            >> persist world)
          m
