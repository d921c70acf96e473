-- ===== src/Import/Equivalence/Accounts.antt =====
-- clickhouse.rs: what `insert_account` does behind the writes of the account row.
use solana_snapshot_etl.Prelude.{
  ℕ, Bool, true, false, ◌&&◌, Option, some, ◌>>=◌, if◌then◌else◌, ◌≡◌, refl, ap, arith,
}
use solana_snapshot_etl.AppendVec.{StoredAccountMeta}
use solana_snapshot_etl.Token2022.{same_pubkey}
use solana_snapshot_etl.Import.{Sink}
use solana_snapshot_etl.Import.Programs.{Programs}
use solana_snapshot_etl.Import.Worker.{Worker, WorkerConfig}
use solana_snapshot_etl.Import.Fanout.{FanoutConfig, FullFanoutWorker}
use solana_snapshot_etl.Import.Worker
use solana_snapshot_etl.Import.Fanout
use solana_snapshot_etl.Import.Fanout.Inserts
use solana_snapshot_etl.Import.Rows
use solana_snapshot_etl.Import.Equivalence.{
  full_config, tail_config, both, in_tail, fuse, step, insert_by_owner_lem,
  insert_token_metadata_lem,
}

in_tail_lem {ℓ} :
    {A : Type ℓ} (tail : Bool) (p : A → A) (f : A → Option A) (q : A → A) (a : A)
    → in_tail tail (λ x. f (p x) >>= λ y. some (q y)) a
      ≡ (in_tail tail f (if tail then p a else a) >>= λ y. some (if tail then q y else y))
in_tail_lem true p f q a = refl
in_tail_lem false p f q a = refl

module _ (programs : Programs) {S : Type 0} (io : Sink S) (config : FanoutConfig) (tail : Bool)
    (account : StoredAccountMeta) (account_slot : ℕ) where
  -- What follows the writes of the account row.
  abbrev worker_close : WorkerConfig → Worker S → Worker S
  worker_close c worker =
      if c.collect_close_tombstones && Rows.canonical_empty programs account
      then Worker.record_close_candidate programs io c account account_slot worker
      else worker

  abbrev worker_metadata : WorkerConfig → Worker S → Worker S
  worker_metadata c worker =
      if same_pubkey account.account_meta.owner programs.mpl_metadata_id
      then Worker.insert_token_metadata programs io c account account_slot worker
      else worker

  abbrev pub worker_rest : WorkerConfig → Worker S → Option (Worker S)
  worker_rest c worker =
      Worker.insert_by_owner programs io c account account_slot (worker_close c worker) >>= λ w.
      some (worker_metadata c w)

  abbrev fanout_close : FullFanoutWorker S → FullFanoutWorker S
  fanout_close worker =
      if tail && Rows.canonical_empty programs account
      then Fanout.record_active_close_candidate programs io config account account_slot worker
      else worker

  abbrev fanout_metadata : FullFanoutWorker S → FullFanoutWorker S
  fanout_metadata worker =
      if same_pubkey account.account_meta.owner programs.mpl_metadata_id
      then Inserts.insert_token_metadata programs io config account account_slot tail worker
      else worker

  abbrev pub fanout_rest : FullFanoutWorker S → Option (FullFanoutWorker S)
  fanout_rest worker =
      Inserts.insert_by_owner programs io config account account_slot tail (fanout_close worker)
      >>= λ w. some (fanout_metadata w)

  close_lem :
      (n z : ℕ) (ws wa : Worker S)
      → fanout_close (fuse n z ws wa)
        ≡ fuse n z ws (if tail then worker_close (tail_config config) wa else wa)
  unfolding Fanout.record_active_close_candidate Worker.record_close_candidate
  close_lem n z ws wa = ground arith

  metadata_lem :
      (n z : ℕ) (ws wa : Worker S)
      → fanout_metadata (fuse n z ws wa)
        ≡ fuse n z
            (worker_metadata (full_config config) ws)
            (if tail then worker_metadata (tail_config config) wa else wa)
  metadata_lem n z ws wa =
      ground
        (arith, insert_token_metadata_lem programs io config tail account account_slot n z ws wa)

  pub rest_lem :
      (n z : ℕ) (ws wa : Worker S)
      → fanout_rest (fuse n z ws wa)
        ≡ both
            (fuse n z)
            (worker_rest (full_config config) ws)
            (in_tail tail (worker_rest (tail_config config)) wa)
  rest_lem n z ws wa =
      let c : Worker S = if tail then worker_close (tail_config config) wa else wa in
      rw
        (
          close_lem n z ws wa,
          in_tail_lem tail (worker_close (tail_config config))
              (Worker.insert_by_owner programs io (tail_config config) account account_slot)
              (worker_metadata (tail_config config)) wa,
        )
        (step n z _ _ (λ w. some (fanout_metadata w))
          (λ w. some (worker_metadata (full_config config) w))
          (λ w. some (if tail then worker_metadata (tail_config config) w else w))
          (insert_by_owner_lem programs io config tail account account_slot n z ws c)
          (λ w a. ap some (metadata_lem n z w a)))
