-- ===== src/Import/Equivalence.antt =====
-- clickhouse.rs: one `FullFanoutWorker` against two `Worker`s, one for the full archive and one for
-- its tail.
pub mod Accounts
pub mod AppendVecs
use solana_snapshot_etl.Prelude.{
  inl, inr, Option-cases, ℕ, ◌+◌, Bool, true, false, Option, none, some, ◌>>=◌, if◌then◌else◌, ◌≡◌,
  arith,
}
use solana_snapshot_etl.Prelude.Order.{eq_of_eqb}
use solana_snapshot_etl.Prelude.Result.{ok, err}
use solana_snapshot_etl.Prelude.Text.{Str}
use solana_snapshot_etl.AppendVec.{Bytes, StoredAccountMeta}
use solana_snapshot_etl.Metadata.{str_ord, MetadataSource}
use solana_snapshot_etl.Token2022.{Token2022Metadata}
use solana_snapshot_etl.Import.{
  full, incremental, collect_close_tombstones, zero_balance_token_account_policy, Sink,
}
use solana_snapshot_etl.Import.Programs.{
  unpack_token_2022_base_state, base_account, base_mint, Programs, TokenAccount,
}
use solana_snapshot_etl.Import.Worker.{Worker, WorkerConfig}
use solana_snapshot_etl.Import.Fanout.{FanoutConfig, FullFanoutWorker}
use solana_snapshot_etl.Import.Worker
use solana_snapshot_etl.Import.Fanout
use solana_snapshot_etl.Import.Fanout.Inserts
use solana_snapshot_etl.Import.Rows

-- What a worker of the staging tables is configured with, and one of the active tables.
abbrev pub full_config : FanoutConfig → WorkerConfig
full_config config = record {
  snapshot_slot = config.snapshot_slot;
  collect_close_tombstones = collect_close_tombstones full;
  collect_affected_pairs = false;
  hot_mints = config.staging_hot_mints;
  zero_balance_token_account_policy = zero_balance_token_account_policy full;
}

abbrev pub tail_config : FanoutConfig → WorkerConfig
tail_config config = record {
  snapshot_slot = config.snapshot_slot;
  collect_close_tombstones = collect_close_tombstones incremental;
  collect_affected_pairs = true;
  hot_mints = config.active_hot_mints;
  zero_balance_token_account_policy = zero_balance_token_account_policy incremental;
}

-- Two results, where both are there.
abbrev pub both {ℓ κ μ} :
    {A : Type ℓ} {B : Type κ} {C : Type μ} → (A → B → C) → Option A → Option B → Option C
both f none _ = none
both f (some a) none = none
both f (some a) (some b) = some (f a b)

-- What is done in the tail only.
abbrev pub in_tail {ℓ} : {A : Type ℓ} → Bool → (A → Option A) → A → Option A
in_tail tail f a = if tail then f a else some a

module _ {S : Type 0} where
  -- Two workers as one: the sinks and the patches of both, the counters of the first, the
  -- candidates and the pairs of the second.
  abbrev pub fuse : ℕ → ℕ → Worker S → Worker S → FullFanoutWorker S
  fuse total nonempty ws wa = record {
    staging_sink = ws.sink;
    active_sink = wa.sink;
    active_metadata_patches = wa.metadata_patches;
    staging_metadata_patches = ws.metadata_patches;
    stats = record {
      append_vecs_total = total;
      nonempty_zero_account_append_vecs = nonempty;
      zero_balance_token_accounts_omitted_from_full_baseline =
          ws.zero_balance_token_accounts_omitted_from_full_baseline;
      spl_token_owner_accounts_seen = ws.spl_token_owner_accounts_seen;
      spl_token_accounts_parsed = ws.spl_token_accounts_parsed;
      spl_token_unexpected_size = ws.spl_token_unexpected_size;
      spl_token_unpack_failed = ws.spl_token_unpack_failed;
      token_2022_owner_accounts_seen = ws.token_2022_owner_accounts_seen;
      token_2022_accounts_parsed = ws.token_2022_accounts_parsed;
      token_2022_unexpected_size = ws.token_2022_unexpected_size;
      token_2022_unpack_failed = ws.token_2022_unpack_failed;
      closed_token_accounts = wa.closed_token_accounts;
      affected_pairs = wa.affected_pairs;
    };
  }

  pub step :
      (n z : ℕ) {x : Option (FullFanoutWorker S)} (m k : Option (Worker S))
      (h : FullFanoutWorker S → Option (FullFanoutWorker S)) (h1 h2 : Worker S → Option (Worker S))
      → x ≡ both (fuse n z) m k
      → ((ws wa : Worker S) → h (fuse n z ws wa) ≡ both (fuse n z) (h1 ws) (h2 wa))
      → (x >>= h) ≡ both (fuse n z) (m >>= h1) (k >>= h2)
  step n z none k h h1 h2 e s = rw e
  step n z (some a) none h h1 h2 e s = elim (Option-cases (h1 a)) [
    | inl f ↦ rw (e, f)
    | inr (_, f) ↦ rw (e, f)
  ]
  step n z (some a) (some b) h h1 h2 e s = rw e (s a b)

module _ (programs : Programs) {S : Type 0} (io : Sink S) (config : FanoutConfig) (tail : Bool)
    (account : StoredAccountMeta) (account_slot : ℕ) where
  write_token_account_row_lem :
      (n z : ℕ) (ws wa : Worker S) (t : TokenAccount)
      → Fanout.write_token_account_row programs io config account account_slot tail
          (programs.pubkey_string t.mint)
          (programs.pubkey_string t.owner)
          t
          (fuse n z ws wa)
        ≡ both
            (fuse n z)
            (Worker.write_hot_token_account programs io
              (full_config config)
              account
              account_slot
              t
              ws)
            (in_tail tail
              (Worker.write_hot_token_account programs io
                (tail_config config)
                account
                account_slot
                t)
              wa)
  unfolding Fanout.write_token_account_row Worker.write_hot_token_account_row
      Worker.remember_affected_pair
  write_token_account_row_lem n z ws wa t = ground arith

  insert_spl_token_lem :
      (n z : ℕ) (ws wa : Worker S)
      → Inserts.insert_spl_token programs io config account account_slot tail (fuse n z ws wa)
        ≡ both
            (fuse n z)
            (Worker.insert_spl_token programs io (full_config config) account account_slot ws)
            (in_tail tail
              (Worker.insert_spl_token programs io (tail_config config) account account_slot)
              wa)
  unfolding Inserts.insert_spl_token Worker.insert_spl_token Fanout.write_token_mint_row
      Worker.record_close_candidate Fanout.record_active_close_candidate
  insert_spl_token_lem n z ws wa = ground (arith, write_token_account_row_lem n z ws wa)

  pub insert_token_metadata_lem :
      (n z : ℕ) (ws wa : Worker S)
      → Inserts.insert_token_metadata programs io config account account_slot tail (fuse n z ws wa)
        ≡ fuse n z
            (Worker.insert_token_metadata programs io (full_config config) account account_slot ws)
            (if tail
              then Worker.insert_token_metadata programs io
                  (tail_config config)
                  account
                  account_slot
                  wa
              else wa)
  unfolding Inserts.insert_token_metadata Worker.insert_token_metadata
  insert_token_metadata_lem n z ws wa = ground arith

  record_token_2022_metadata_lem :
      (n z : ℕ) (ws wa : Worker S) (metadata : Token2022Metadata) (mint : Option Bytes)
      (source : MetadataSource) (source_account : Str)
      → Fanout.record_token_2022_metadata programs io config metadata mint account_slot source
          source_account tail
          (fuse n z ws wa)
        ≡ fuse n z
            (Worker.record_token_2022_metadata programs io
              (full_config config)
              metadata
              mint
              account_slot
              source
              source_account
              ws)
            (if tail
              then Worker.record_token_2022_metadata programs io
                  (tail_config config)
                  metadata
                  mint
                  account_slot
                  source
                  source_account
                  wa
              else wa)
  unfolding Fanout.record_token_2022_metadata Worker.record_token_2022_metadata
  record_token_2022_metadata_lem n z ws wa metadata mint source source_account = ground arith

  insert_token_2022_lem :
      (n z : ℕ) (ws wa : Worker S)
      → Inserts.insert_token_2022 programs io config account account_slot tail (fuse n z ws wa)
        ≡ both
            (fuse n z)
            (Worker.insert_token_2022 programs io (full_config config) account account_slot ws)
            (in_tail tail
              (Worker.insert_token_2022 programs io (tail_config config) account account_slot)
              wa)
  unfolding Inserts.insert_token_2022 Worker.insert_token_2022 Fanout.record_token_2022_metadata
      Worker.record_token_2022_metadata Fanout.write_token_mint_row Worker.record_close_candidate
      Fanout.record_active_close_candidate
  insert_token_2022_lem n z ws wa =
      elim (Option-cases (unpack_token_2022_base_state programs account.account_data)) [
        | inl e ↦ ground (arith, e)
        | inr (base_account t, e) ↦ ground (arith, e, write_token_account_row_lem n z ws wa t)
        | inr (base_mint t, e) ↦ elim (Option-cases (Rows.mint_extensions programs account)) [
          | inl f ↦ ground (arith, e, f)
          | inr (err _, f) ↦ ground (arith, e, f)
          | inr (ok parsed, f) ↦ elim (Option-cases parsed.token_metadata) [
            | inl g ↦ ground (arith, e, f, g)
            | inr (metadata, g) ↦
                ground (arith, e, f, g, eq_of_eqb ⦃o = str_ord⦄ metadata.mint account.meta.pubkey)
          ]
        ]
      ]

  pub insert_by_owner_lem :
      (n z : ℕ) (ws wa : Worker S)
      → Inserts.insert_by_owner programs io config account account_slot tail (fuse n z ws wa)
        ≡ both
            (fuse n z)
            (Worker.insert_by_owner programs io (full_config config) account account_slot ws)
            (in_tail tail
              (Worker.insert_by_owner programs io (tail_config config) account account_slot)
              wa)
  insert_by_owner_lem n z ws wa =
      let spl : Worker S → Worker S =
        λ w. record w { spl_token_owner_accounts_seen = w.spl_token_owner_accounts_seen + 1 } in
      let t22 : Worker S → Worker S =
        λ w. record w { token_2022_owner_accounts_seen = w.token_2022_owner_accounts_seen + 1 } in
      ground (
        arith,
        insert_spl_token_lem n z (spl ws) (spl wa),
        insert_spl_token_lem n z (spl ws) wa,
        insert_token_2022_lem n z (t22 ws) (t22 wa),
        insert_token_2022_lem n z (t22 ws) wa,
      )
