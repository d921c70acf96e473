-- ===== src/Import/Fanout.antt =====
-- clickhouse.rs: `FullFanoutWorker`, which reads a full archive once and writes it to the staging
-- tables, and its tail after a slot to the active ones. The fields that its methods only read are
-- in `FanoutConfig`. A call that returns an error is `none`.
pub mod Inserts
use solana_snapshot_etl.Prelude.{
  ℕ, ◌+◌, Bool, true, false, ◌&&◌, not, List, Option, some, ◌>>=◌, if◌then◌else◌,
}
use solana_snapshot_etl.Prelude.Text.{Str}
use solana_snapshot_etl.Prelude.Map.{insert}
use solana_snapshot_etl.AppendVec.{Bytes, StoredAccountMeta}
use solana_snapshot_etl.Metadata.{MetadataPatches, MetadataSource, record_metadata_fields}
use solana_snapshot_etl.Token2022.{Token2022Metadata}
use solana_snapshot_etl.Import.{
  writes_live_amount, exclude_from_full_baseline, Sink, token_pair_ord, ParallelWorkerStats,
  remember_close_candidate, is_close_tombstone_candidate,
}
use solana_snapshot_etl.Import.Programs.{Programs, TokenAccount, TokenMint}
use solana_snapshot_etl.Import.Rows.{
  is_hot, token_account_row, token_mint_row, names_other_mint, token_2022_candidate,
}

pub record FanoutConfig : Type 0 where
  pub snapshot_slot : ℕ
  pub active_resume_slot : ℕ
  pub active_hot_mints : List Str
  pub staging_hot_mints : List Str

pub record FullFanoutWorker (S : Type 0) : Type 0 where
  pub staging_sink : S
  pub active_sink : S
  pub active_metadata_patches : MetadataPatches
  pub staging_metadata_patches : MetadataPatches
  pub stats : ParallelWorkerStats

module _ (programs : Programs) {S : Type 0} (io : Sink S) (config : FanoutConfig) where
  abbrev pub with_stats :
      (ParallelWorkerStats → ParallelWorkerStats) → FullFanoutWorker S → FullFanoutWorker S
  with_stats f worker = record worker { stats = f worker.stats }

  abbrev pub on_staging : Bool → (S → Option S) → FullFanoutWorker S → Option (FullFanoutWorker S)
  on_staging false call worker = some worker
  on_staging true call worker =
      call worker.staging_sink >>= λ sink. some (record worker { staging_sink = sink })

  abbrev pub on_active : Bool → (S → Option S) → FullFanoutWorker S → Option (FullFanoutWorker S)
  on_active false call worker = some worker
  on_active true call worker =
      call worker.active_sink >>= λ sink. some (record worker { active_sink = sink })

  unfoldable pub record_active_close_candidate :
      StoredAccountMeta → ℕ → FullFanoutWorker S → FullFanoutWorker S
  record_active_close_candidate account account_slot = with_stats λ stats.
      if is_close_tombstone_candidate account.account_meta.lamports
      then record stats {
        closed_token_accounts =
            remember_close_candidate programs.pubkey_string stats.closed_token_accounts account
              account_slot;
      }
      else stats

  -- The baseline in staging leaves zero balances out, the tail in active keeps them.
  unfoldable pub write_token_account_row :
      StoredAccountMeta
      → ℕ
      → Bool
      → Str
      → Str
      → TokenAccount
      → FullFanoutWorker S
      → Option (FullFanoutWorker S)
  write_token_account_row account account_slot tail mint owner token_account worker =
      let hot = is_hot mint config.staging_hot_mints in
      let live = writes_live_amount exclude_from_full_baseline token_account.amount in
      let write_active = tail && is_hot mint config.active_hot_mints in
      let row = token_account_row programs account account_slot mint owner token_account in
      let omitted : FullFanoutWorker S =
        if hot && not live
        then with_stats
            (λ stats. record stats {
              zero_balance_token_accounts_omitted_from_full_baseline =
                  stats.zero_balance_token_accounts_omitted_from_full_baseline + 1;
            })
            worker
        else worker in
      let affected : FullFanoutWorker S =
        if write_active
        then with_stats
            (λ stats. record stats {
              affected_pairs = insert ⦃o = token_pair_ord⦄ (mint, owner) stats.affected_pairs;
            })
            omitted
        else omitted in
      on_staging (hot && live) (io.write_token_account row) affected
      >>= on_active write_active (io.write_token_account row)

  unfoldable pub write_token_mint_row :
      Bool → Str → TokenMint → FullFanoutWorker S → Option (FullFanoutWorker S)
  write_token_mint_row tail mint token_mint worker =
      let row = token_mint_row programs mint token_mint config.snapshot_slot in
      on_staging (is_hot mint config.staging_hot_mints) (io.write_token_mint row) worker
      >>= on_active (tail && is_hot mint config.active_hot_mints) (io.write_token_mint row)

  -- A change of the patches of the groups for which a mint is recorded.
  abbrev pub on_patches :
      Bool → Bool → (MetadataPatches → MetadataPatches) → FullFanoutWorker S → FullFanoutWorker S
  on_patches staging active f worker = record worker {
    staging_metadata_patches =
        if staging then f worker.staging_metadata_patches else worker.staging_metadata_patches;
    active_metadata_patches =
        if active then f worker.active_metadata_patches else worker.active_metadata_patches;
  }

  -- The source's answer only moves a progress bar.
  unfoldable pub record_token_2022_metadata :
      Token2022Metadata
      → Option Bytes
      → ℕ
      → MetadataSource
      → Str
      → Bool
      → FullFanoutWorker S
      → FullFanoutWorker S
  record_token_2022_metadata metadata expected_mint account_slot source source_account tail worker =
      let mint = programs.pubkey_string metadata.mint in
      let candidate = token_2022_candidate programs metadata account_slot source source_account in
      if names_other_mint programs metadata expected_mint
      then worker
      else on_patches (is_hot mint config.staging_hot_mints)
          (tail && is_hot mint config.active_hot_mints)
          (λ patches. record_metadata_fields patches mint candidate) worker
