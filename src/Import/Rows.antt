-- ===== src/Import/Rows.antt =====
-- clickhouse.rs: the rows and the candidates that both kinds of workers build from an account.
use solana_snapshot_etl.Prelude.{ℕ, Bool, false, not, List, length, Option, none, some}
use solana_snapshot_etl.Prelude.Result.{Result}
use solana_snapshot_etl.Prelude.Text.{Str}
use solana_snapshot_etl.Prelude.Map.{contains}
use solana_snapshot_etl.AppendVec.{Bytes, StoredAccountMeta}
use solana_snapshot_etl.Metadata.{
  str_ord, MetadataSource, VersionedMetadataFields, TokenMetadataFields, metaplex,
}
use solana_snapshot_etl.Token2022.{
  ParseError, Token2022Metadata, same_pubkey, token_2022_metadata_fields,
}
use solana_snapshot_etl.Token2022.Extension.{map_option}
use solana_snapshot_etl.Token2022.Tlv.{
  ParsedToken2022MintExtensions, parse_token_2022_mint_extensions,
}
use solana_snapshot_etl.Import.{
  AccountRow, TokenAccountRow, TokenMintRow, token_pair_ord, is_canonical_empty_account,
}
use solana_snapshot_etl.Import.Programs.{Programs, TokenAccount, TokenMint}

abbrev pub is_hot : Str → List Str → Bool
is_hot mint hot_mints = contains ⦃o = str_ord⦄ mint hot_mints

module _ (programs : Programs) where
  abbrev pub account_row : StoredAccountMeta → ℕ → AccountRow
  account_row account snapshot_slot = record {
    pubkey = programs.pubkey_string account.meta.pubkey;
    owner = programs.pubkey_string account.account_meta.owner;
    lamports = account.account_meta.lamports;
    data_len = account.meta.data_len;
    executable = account.account_meta.executable;
    updated_slot = snapshot_slot;
  }

  abbrev pub token_account_row : StoredAccountMeta → ℕ → Str → Str → TokenAccount → TokenAccountRow
  token_account_row account account_slot mint owner token_account = record {
    pubkey = programs.pubkey_string account.meta.pubkey;
    mint = mint;
    owner = owner;
    amount = token_account.amount;
    delegate = map_option programs.pubkey_string token_account.delegate;
    delegated_amount = token_account.delegated_amount;
    state = token_account.state;
    close_authority = map_option programs.pubkey_string token_account.close_authority;
    is_deleted = 0;
    updated_slot = account_slot;
  }

  abbrev pub token_mint_row : Str → TokenMint → ℕ → TokenMintRow
  token_mint_row mint token_mint snapshot_slot = record {
    mint = mint;
    mint_authority = map_option programs.pubkey_string token_mint.mint_authority;
    supply = token_mint.supply;
    decimals = token_mint.decimals;
    is_initialized = token_mint.is_initialized;
    freeze_authority = map_option programs.pubkey_string token_mint.freeze_authority;
    updated_slot = snapshot_slot;
  }

  -- Metadata in a mint account must name that mint.
  abbrev pub names_other_mint : Token2022Metadata → Option Bytes → Bool
  names_other_mint metadata none = false
  names_other_mint metadata (some mint) = not (same_pubkey metadata.mint mint)

  abbrev pub token_2022_candidate :
      Token2022Metadata → ℕ → MetadataSource → Str → VersionedMetadataFields
  token_2022_candidate metadata account_slot source source_account = record {
    account_slot = account_slot;
    source = source;
    source_account = source_account;
    fields = token_2022_metadata_fields programs.pubkey_string metadata;
  }

  abbrev pub metaplex_candidate :
      StoredAccountMeta → ℕ → TokenMetadataFields → VersionedMetadataFields
  metaplex_candidate account account_slot fields = record {
    account_slot = account_slot;
    source = metaplex;
    source_account = programs.pubkey_string account.meta.pubkey;
    fields = fields;
  }

  abbrev pub canonical_empty : StoredAccountMeta → Bool
  canonical_empty account =
      is_canonical_empty_account account.meta.data_len account.account_meta.lamports
        account.account_meta.owner account.account_meta.executable

  -- The extensions of a mint, with as much fuel as it has bytes.
  abbrev pub mint_extensions :
      StoredAccountMeta → Option (Result ParseError ParsedToken2022MintExtensions)
  mint_extensions account =
      parse_token_2022_mint_extensions programs.pubkey_string programs.extensions_json
        (length account.account_data) account.account_data
