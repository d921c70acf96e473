-- ===== src/Import/Worker.antt =====
-- clickhouse.rs: `Worker`, which writes the accounts of AppendVecs to one table group. The fields
-- that its methods only read are in `WorkerConfig`. A call that returns an error is `none`.
use solana_snapshot_etl.Prelude.{
  ℕ, ◌+◌, Bool, ◌&&◌, List, [], ◌∷◌, length, Option, none, some, ◌>>=◌, if◌then◌else◌, ◌==◌,
}
use solana_snapshot_etl.Prelude.Result.{Result, ok, err}
use solana_snapshot_etl.Prelude.Text.{Str}
use solana_snapshot_etl.Prelude.Map.{insert}
use solana_snapshot_etl.AppendVec.{Bytes, AppendVec, StoredAccountMeta}
use solana_snapshot_etl.AppendVec.Accounts.{
  done, panicked, out_of_fuel, append_vec_accounts, drain, enough,
}
use solana_snapshot_etl.Metadata.{
  MetadataPatches, MetadataSource, token_2022_embedded, token_2022_standalone,
  record_metadata_fields, record_extensions,
}
use solana_snapshot_etl.Token2022.{
  ParseError, Token2022Metadata, same_pubkey, parse_token_2022_metadata_value,
}
use solana_snapshot_etl.Token2022.Tlv.{ParsedToken2022MintExtensions}
use solana_snapshot_etl.Import.{
  ZeroBalanceTokenAccountPolicy, writes_live_amount, Sink, TokenPair, token_pair_ord,
  ClosedAccounts, remember_close_candidate, is_close_tombstone_candidate,
}
use solana_snapshot_etl.Import.Programs.{
  Programs, TokenAccount, TokenMint, base_account, base_mint, unpack_token_2022_base_state,
  read_metaplex,
}
use solana_snapshot_etl.Import.Rows.{
  is_hot, account_row, token_account_row, token_mint_row, names_other_mint, token_2022_candidate,
  metaplex_candidate, canonical_empty, mint_extensions,
}

pub record WorkerConfig : Type 0 where
  pub snapshot_slot : ℕ
  pub collect_close_tombstones : Bool
  pub collect_affected_pairs : Bool
  pub hot_mints : List Str
  pub zero_balance_token_account_policy : ZeroBalanceTokenAccountPolicy

pub record Worker (S : Type 0) : Type 0 where
  pub sink : S
  pub spl_token_owner_accounts_seen : ℕ
  pub spl_token_accounts_parsed : ℕ
  pub spl_token_unexpected_size : ℕ
  pub spl_token_unpack_failed : ℕ
  pub token_2022_owner_accounts_seen : ℕ
  pub token_2022_accounts_parsed : ℕ
  pub token_2022_unexpected_size : ℕ
  pub token_2022_unpack_failed : ℕ
  pub closed_token_accounts : ClosedAccounts
  pub affected_pairs : List TokenPair
  pub metadata_patches : MetadataPatches
  pub zero_balance_token_accounts_omitted_from_full_baseline : ℕ

-- What the iterator of an AppendVec yields.
unfoldable pub accounts_of : AppendVec → Option (List StoredAccountMeta)
accounts_of append_vec = elim (drain (enough append_vec) (append_vec_accounts append_vec)) [
  | done accounts ↦ some accounts
  | panicked ↦ none
  | out_of_fuel ↦ none
]

module _ (programs : Programs) {S : Type 0} (io : Sink S) (config : WorkerConfig) where
  unfoldable pub record_close_candidate : StoredAccountMeta → ℕ → Worker S → Worker S
  record_close_candidate account account_slot worker =
      if config.collect_close_tombstones
        && is_close_tombstone_candidate account.account_meta.lamports
      then record worker {
        closed_token_accounts =
            remember_close_candidate programs.pubkey_string worker.closed_token_accounts account
              account_slot;
      }
      else worker

  unfoldable pub remember_affected_pair : Str → Str → Worker S → Worker S
  remember_affected_pair mint owner worker =
      if config.collect_affected_pairs
      then record worker {
        affected_pairs = insert ⦃o = token_pair_ord⦄ (mint, owner) worker.affected_pairs;
      }
      else worker

  abbrev pub on_sink : (S → Option S) → Worker S → Option (Worker S)
  on_sink call worker = call worker.sink >>= λ sink. some (record worker { sink = sink })

  unfoldable pub write_hot_token_account_row :
      StoredAccountMeta → ℕ → Str → Str → TokenAccount → Worker S → Option (Worker S)
  unfolding remember_affected_pair
  write_hot_token_account_row account account_slot mint owner token_account worker =
      if writes_live_amount config.zero_balance_token_account_policy token_account.amount
      then on_sink
          (io.write_token_account
            (token_account_row programs account account_slot mint owner token_account))
          (remember_affected_pair mint owner worker)
      else some (record worker {
        zero_balance_token_accounts_omitted_from_full_baseline =
            worker.zero_balance_token_accounts_omitted_from_full_baseline + 1;
      })

  -- The source's answer only moves a progress bar.
  unfoldable pub record_token_2022_metadata :
      Token2022Metadata → Option Bytes → ℕ → MetadataSource → Str → Worker S → Worker S
  record_token_2022_metadata metadata expected_mint account_slot source source_account worker =
      let mint = programs.pubkey_string metadata.mint in
      if names_other_mint programs metadata expected_mint
      then worker
      else if is_hot mint config.hot_mints
      then record worker {
        metadata_patches =
            record_metadata_fields worker.metadata_patches mint
              (token_2022_candidate programs metadata account_slot source source_account);
      }
      else worker

  abbrev pub write_hot_token_account :
      StoredAccountMeta → ℕ → TokenAccount → Worker S → Option (Worker S)
  write_hot_token_account account account_slot token_account worker =
      let mint = programs.pubkey_string token_account.mint in
      let owner = programs.pubkey_string token_account.owner in
      if is_hot mint config.hot_mints
      then write_hot_token_account_row account account_slot mint owner token_account worker
      else some worker

  abbrev pub write_mint : Str → TokenMint → Worker S → Option (Worker S)
  write_mint mint token_mint =
      on_sink (io.write_token_mint (token_mint_row programs mint token_mint config.snapshot_slot))

  unfoldable pub insert_spl_token : StoredAccountMeta → ℕ → Worker S → Option (Worker S)
  unfolding write_hot_token_account_row record_close_candidate
  insert_spl_token account account_slot worker =
      let parsed : Worker S → Worker S =
        λ w. record w { spl_token_accounts_parsed = w.spl_token_accounts_parsed + 1 } in
      let failed : Worker S = record worker {
        spl_token_unpack_failed = worker.spl_token_unpack_failed + 1;
      } in
      if account.meta.data_len == programs.account_len
      then (elim (programs.unpack_account account.account_data) [
        | some token_account ↦
            write_hot_token_account account account_slot token_account worker >>= λ w.
            some (parsed w)
        | none ↦ some (record_close_candidate account account_slot failed)
      ])
      else if account.meta.data_len == programs.mint_len
      then (elim (programs.unpack_mint account.account_data) [
        | some token_mint ↦
            let mint = programs.pubkey_string account.meta.pubkey in
            (if is_hot mint config.hot_mints
              then write_mint mint token_mint worker
              else some worker)
            >>= λ w. some (parsed w)
        | none ↦ some failed
      ])
      else some (record worker { spl_token_unexpected_size = worker.spl_token_unexpected_size + 1 })

  -- What is recorded from the extensions of a mint. Invalid ones are skipped.
  abbrev pub record_mint_extensions :
      StoredAccountMeta
      → ℕ
      → Option (Result ParseError ParsedToken2022MintExtensions)
      → Worker S
      → Worker S
  record_mint_extensions account account_slot (some (ok parsed)) worker =
      let mint = programs.pubkey_string account.meta.pubkey in
      let extended : Worker S = record worker {
        metadata_patches =
            record_extensions worker.metadata_patches mint
              (record { account_slot = account_slot; json = parsed.json });
      } in
      elim parsed.token_metadata [
        | none ↦ extended
        | some metadata ↦
            record_token_2022_metadata metadata (some account.meta.pubkey) account_slot
              token_2022_embedded mint extended
      ]
  record_mint_extensions account account_slot (some (err _)) worker = worker
  record_mint_extensions account account_slot none worker = worker

  unfoldable pub insert_token_2022 : StoredAccountMeta → ℕ → Worker S → Option (Worker S)
  unfolding write_hot_token_account_row record_close_candidate record_token_2022_metadata
  insert_token_2022 account account_slot worker =
      let parsed : Worker S → Worker S =
        λ w. record w { token_2022_accounts_parsed = w.token_2022_accounts_parsed + 1 } in
      elim (unpack_token_2022_base_state programs account.account_data) [
        | some (base_account token_account) ↦
            write_hot_token_account account account_slot token_account worker >>= λ w.
            some (parsed w)
        | some (base_mint token_mint) ↦
            let mint = programs.pubkey_string account.meta.pubkey in
            (if is_hot mint config.hot_mints
              then (write_mint mint token_mint worker >>= λ w. some (
                  record_mint_extensions account account_slot (mint_extensions programs account) w))
              else some worker)
            >>= λ w. some (parsed w)
        | none ↦ elim (parse_token_2022_metadata_value account.account_data) [
          | ok metadata ↦ some (
              parsed (
                record_token_2022_metadata metadata none account_slot token_2022_standalone
                  (programs.pubkey_string account.meta.pubkey) worker))
          | err _ ↦ some (
              record_close_candidate account account_slot
                (record worker { token_2022_unpack_failed = worker.token_2022_unpack_failed + 1 }))
        ]
      ]

  unfoldable pub insert_token_metadata : StoredAccountMeta → ℕ → Worker S → Worker S
  insert_token_metadata account account_slot worker =
      elim (read_metaplex programs account.account_data) [
        | none ↦ worker
        | some (mint, fields) ↦
            if is_hot mint config.hot_mints
            then record worker {
              metadata_patches =
                  record_metadata_fields worker.metadata_patches mint
                    (metaplex_candidate programs account account_slot fields);
            }
            else worker
      ]

  abbrev pub insert_by_owner : StoredAccountMeta → ℕ → Worker S → Option (Worker S)
  insert_by_owner account account_slot worker =
      let owner = account.account_meta.owner in
      if same_pubkey owner programs.spl_token_id
      then insert_spl_token account account_slot (record worker {
        spl_token_owner_accounts_seen = worker.spl_token_owner_accounts_seen + 1;
      })
      else if same_pubkey owner programs.token_2022_program_id
      then insert_token_2022 account account_slot (record worker {
        token_2022_owner_accounts_seen = worker.token_2022_owner_accounts_seen + 1;
      })
      else some worker

  unfoldable pub insert_account : StoredAccountMeta → ℕ → Worker S → Option (Worker S)
  unfolding insert_spl_token insert_token_2022 insert_token_metadata record_close_candidate
  insert_account account account_slot worker = do
    committed ← on_sink io.maybe_force_commit worker
    written ←
        on_sink (io.write_account (account_row programs account config.snapshot_slot)) committed
    inserted ← insert_by_owner account account_slot (
        if config.collect_close_tombstones && canonical_empty programs account
        then record_close_candidate account account_slot written
        else written)
    some (
        if same_pubkey account.account_meta.owner programs.mpl_metadata_id
        then insert_token_metadata account account_slot inserted
        else inserted)

  -- The `for` loop over the accounts, which stops at the first error.
  unfoldable pub insert_accounts : List StoredAccountMeta → ℕ → Worker S → Option (Worker S)
  insert_accounts [] account_slot worker = some worker
  insert_accounts (account ∷ accounts) account_slot worker =
      insert_account account account_slot worker >>= insert_accounts accounts account_slot

  -- `none` also where the iterator panics.
  unfoldable pub on_append_vec_count : AppendVec → Worker S → Option (ℕ × Worker S)
  on_append_vec_count append_vec worker = do
    accounts ← accounts_of append_vec
    inserted ← insert_accounts accounts append_vec.slot worker
    some (length accounts, inserted)
