-- ===== src/Import/Fanout/Inserts.antt =====
-- clickhouse.rs: `FullFanoutWorker`, from the account's data to the calls that write and record.
use solana_snapshot_etl.Prelude.{
  ℕ, ◌+◌, Bool, true, ◌&&◌, ◌||◌, List, [], ◌∷◌, length, Option, none, some, ◌>>=◌, if◌then◌else◌,
  ◌==◌, ltb,
}
use solana_snapshot_etl.Prelude.Result.{Result, ok, err}
use solana_snapshot_etl.AppendVec.{AppendVec, StoredAccountMeta, len}
use solana_snapshot_etl.Metadata.{
  token_2022_embedded, token_2022_standalone, record_metadata_fields, record_extensions,
}
use solana_snapshot_etl.Token2022.{ParseError, same_pubkey, parse_token_2022_metadata_value}
use solana_snapshot_etl.Token2022.Tlv.{ParsedToken2022MintExtensions}
use solana_snapshot_etl.Import.{Sink, token_pair_ord}
use solana_snapshot_etl.Import.Programs.{
  Programs, base_account, base_mint, unpack_token_2022_base_state, read_metaplex,
}
use solana_snapshot_etl.Import.Worker.{accounts_of}
use solana_snapshot_etl.Import.Rows.{
  is_hot, account_row, metaplex_candidate, canonical_empty, mint_extensions,
}
use solana_snapshot_etl.Import.Fanout.{
  FanoutConfig, FullFanoutWorker, with_stats, on_staging, on_active, record_active_close_candidate,
  write_token_account_row, write_token_mint_row, on_patches, record_token_2022_metadata,
}

module _ (programs : Programs) {S : Type 0} (io : Sink S) (config : FanoutConfig) where
  unfoldable pub insert_spl_token :
      StoredAccountMeta → ℕ → Bool → FullFanoutWorker S → Option (FullFanoutWorker S)
  unfolding write_token_account_row write_token_mint_row record_active_close_candidate
  insert_spl_token account account_slot tail worker =
      let parsed : FullFanoutWorker S → FullFanoutWorker S =
        with_stats programs io config λ stats. record stats {
          spl_token_accounts_parsed = stats.spl_token_accounts_parsed + 1;
        } in
      let failed : FullFanoutWorker S =
        with_stats programs io config
          (λ stats. record stats { spl_token_unpack_failed = stats.spl_token_unpack_failed + 1 })
          worker in
      if account.meta.data_len == programs.account_len
      then (elim (programs.unpack_account account.account_data) [
        | some token_account ↦
            write_token_account_row programs io config account account_slot tail
              (programs.pubkey_string token_account.mint)
              (programs.pubkey_string token_account.owner) token_account worker
            >>= λ w. some (parsed w)
        | none ↦ some (
            if tail
            then record_active_close_candidate programs io config account account_slot failed
            else failed)
      ])
      else if account.meta.data_len == programs.mint_len
      then (elim (programs.unpack_mint account.account_data) [
        | some token_mint ↦
            write_token_mint_row programs io config tail
              (programs.pubkey_string account.meta.pubkey) token_mint worker
            >>= λ w. some (parsed w)
        | none ↦ some failed
      ])
      else some (
          with_stats programs io config
            (λ stats. record stats {
              spl_token_unexpected_size = stats.spl_token_unexpected_size + 1;
            })
            worker)

  -- What is recorded from the extensions of a mint. Invalid ones are skipped.
  abbrev pub record_mint_extensions :
      StoredAccountMeta
      → ℕ
      → Bool
      → Bool
      → Bool
      → Option (Result ParseError ParsedToken2022MintExtensions)
      → FullFanoutWorker S
      → FullFanoutWorker S
  record_mint_extensions account account_slot tail staging active (some (ok parsed)) worker =
      let mint = programs.pubkey_string account.meta.pubkey in
      let extended : FullFanoutWorker S =
        on_patches programs io config staging active
          (λ patches.
            record_extensions patches mint
              (record { account_slot = account_slot; json = parsed.json }))
          worker in
      elim parsed.token_metadata [
        | none ↦ extended
        | some metadata ↦
            record_token_2022_metadata programs io config metadata (some account.meta.pubkey)
              account_slot token_2022_embedded mint tail extended
      ]
  record_mint_extensions account account_slot tail staging active (some (err _)) worker = worker
  record_mint_extensions account account_slot tail staging active none worker = worker

  unfoldable pub insert_token_2022 :
      StoredAccountMeta → ℕ → Bool → FullFanoutWorker S → Option (FullFanoutWorker S)
  unfolding write_token_account_row write_token_mint_row record_active_close_candidate
      record_token_2022_metadata
  insert_token_2022 account account_slot tail worker =
      let parsed : FullFanoutWorker S → FullFanoutWorker S = with_stats programs io config λ stats.
        record stats { token_2022_accounts_parsed = stats.token_2022_accounts_parsed + 1 } in
      elim (unpack_token_2022_base_state programs account.account_data) [
        | some (base_account token_account) ↦
            write_token_account_row programs io config account account_slot tail
              (programs.pubkey_string token_account.mint)
              (programs.pubkey_string token_account.owner) token_account worker
            >>= λ w. some (parsed w)
        | some (base_mint token_mint) ↦
            let mint = programs.pubkey_string account.meta.pubkey in
            let staging = is_hot mint config.staging_hot_mints in
            let active = tail && is_hot mint config.active_hot_mints in
            write_token_mint_row programs io config tail mint token_mint worker >>= λ w. some (
              parsed (
                if staging || active
                then record_mint_extensions account account_slot tail staging active
                    (mint_extensions programs account) w
                else w))
        | none ↦ elim (parse_token_2022_metadata_value account.account_data) [
          | ok metadata ↦ some (
              parsed (
                record_token_2022_metadata programs io config metadata none account_slot
                  token_2022_standalone (programs.pubkey_string account.meta.pubkey) tail worker))
          | err _ ↦
              let failed : FullFanoutWorker S =
                with_stats programs io config
                  (λ stats. record stats {
                    token_2022_unpack_failed = stats.token_2022_unpack_failed + 1;
                  })
                  worker in
              some (
                if tail
                then record_active_close_candidate programs io config account account_slot failed
                else failed)
        ]
      ]

  unfoldable pub insert_token_metadata :
      StoredAccountMeta → ℕ → Bool → FullFanoutWorker S → FullFanoutWorker S
  insert_token_metadata account account_slot tail worker =
      elim (read_metaplex programs account.account_data) [
        | none ↦ worker
        | some (mint, fields) ↦
            on_patches programs io config (is_hot mint config.staging_hot_mints)
              (tail && is_hot mint config.active_hot_mints)
              (λ patches.
                record_metadata_fields patches mint
                  (metaplex_candidate programs account account_slot fields))
              worker
      ]

  abbrev pub insert_by_owner :
      StoredAccountMeta → ℕ → Bool → FullFanoutWorker S → Option (FullFanoutWorker S)
  insert_by_owner account account_slot tail worker =
      let owner = account.account_meta.owner in
      if same_pubkey owner programs.spl_token_id
      then insert_spl_token account account_slot tail (
          with_stats programs io config
            (λ stats. record stats {
              spl_token_owner_accounts_seen = stats.spl_token_owner_accounts_seen + 1;
            })
            worker)
      else if same_pubkey owner programs.token_2022_program_id
      then insert_token_2022 account account_slot tail (
          with_stats programs io config
            (λ stats. record stats {
              token_2022_owner_accounts_seen = stats.token_2022_owner_accounts_seen + 1;
            })
            worker)
      else some worker

  -- `tail` is the source's `write_active`.
  unfoldable pub insert_account :
      StoredAccountMeta → ℕ → Bool → FullFanoutWorker S → Option (FullFanoutWorker S)
  unfolding insert_spl_token insert_token_2022 insert_token_metadata record_active_close_candidate
  insert_account account account_slot tail worker = do
    committed1 ← on_active programs io config true io.maybe_force_commit worker
    committed2 ← on_staging programs io config true io.maybe_force_commit committed1
    let row = account_row programs account config.snapshot_slot
    written1 ← on_staging programs io config true (io.write_account row) committed2
    written2 ← on_active programs io config tail (io.write_account row) written1
    inserted ← insert_by_owner account account_slot tail (
        if tail && canonical_empty programs account
        then record_active_close_candidate programs io config account account_slot written2
        else written2)
    some (
        if same_pubkey account.account_meta.owner programs.mpl_metadata_id
        then insert_token_metadata account account_slot tail inserted
        else inserted)

  unfoldable pub insert_accounts :
      List StoredAccountMeta → ℕ → Bool → FullFanoutWorker S → Option (FullFanoutWorker S)
  insert_accounts [] account_slot tail worker = some worker
  insert_accounts (account ∷ accounts) account_slot tail worker =
      insert_account account account_slot tail worker >>= insert_accounts accounts account_slot tail

  -- `none` also where the iterator panics.
  unfoldable pub on_append_vec_count :
      AppendVec → FullFanoutWorker S → Option (ℕ × FullFanoutWorker S)
  unfolding insert_accounts
  on_append_vec_count append_vec worker = do
    accounts ← accounts_of append_vec
    inserted ←
        insert_accounts accounts append_vec.slot (ltb config.active_resume_slot append_vec.slot) (
          with_stats programs io config
            (λ stats. record stats { append_vecs_total = stats.append_vecs_total + 1 }) worker)
    let parsed_accounts = length accounts
    some (
      parsed_accounts,
      if ltb 0 (len append_vec) && parsed_accounts == 0
          then with_stats programs io config
              (λ stats. record stats {
                nonempty_zero_account_append_vecs = stats.nonempty_zero_account_append_vecs + 1;
              })
              inserted
          else inserted,
    )
