-- ===== src/Import/Programs.antt =====
-- mpl_metadata.rs, and what clickhouse.rs takes from the Solana crates: the identifiers of the
-- programs, `unpack` of the token states and the readers that Borsh derives. The records of the
-- token states have the fields that the code reads.
use solana_snapshot_etl.Prelude.{
  ℕ, Bool, true, false, List, [], ◌∷◌, map, Option, none, some, ◌>>=◌, unwrap_or, if◌then◌else◌,
}
use solana_snapshot_etl.Prelude.Text.{Str}
use solana_snapshot_etl.AppendVec.{Bytes}
use solana_snapshot_etl.Metadata.{TokenMetadataFields}
use solana_snapshot_etl.Token2022.Extension.{Extension}

-- `spl_token::state::Account`
pub record TokenAccount : Type 0 where
  pub mint : Bytes
  pub owner : Bytes
  pub amount : ℕ
  pub delegate : Option Bytes
  pub delegated_amount : ℕ
  pub state : ℕ
  pub close_authority : Option Bytes

-- `spl_token::state::Mint`
pub record TokenMint : Type 0 where
  pub mint_authority : Option Bytes
  pub supply : ℕ
  pub decimals : ℕ
  pub is_initialized : Bool
  pub freeze_authority : Option Bytes

pub data Token2022BaseState : Type 0 where
  base_account : TokenAccount → Token2022BaseState
  base_mint : TokenMint → Token2022BaseState

pub data AccountKey : Type 0 where
  uninitialized edition_v1 master_edition_v1 reservation_list_v1 metadata_v1 : AccountKey
  reservation_list_v2 master_edition_v2 edition_marker : AccountKey
  use_authority_record collection_authority_record : AccountKey

pub record Creator : Type 0 where
  pub address : Bytes
  pub verified : Bool
  pub share : ℕ

-- `Data`
pub record Contents : Type 0 where
  pub name : Str
  pub symbol : Str
  pub uri : Str
  pub seller_fee_basis_points : ℕ
  pub creators : Option (List Creator)

pub record Metadata : Type 0 where
  pub update_authority : Bytes
  pub mint : Bytes
  pub contents : Contents
  pub primary_sale_happened : Bool
  pub is_mutable : Bool

pub record MetadataExt : Type 0 where
  pub edition_nonce : Option ℕ

pub record Collection : Type 0 where
  pub verified : Bool
  pub key : Bytes

pub record Uses : Type 0 where
  pub use_method : ℕ
  pub remaining : ℕ
  pub total : ℕ

pub record MetadataExtV12 : Type 0 where
  pub token_standard : Option ℕ
  pub collection : Option Collection
  pub uses : Option Uses

-- A reader returns the value and the bytes behind it.
abbrev pub Reader : Type 0 → Type 0
Reader A = Bytes → Option (A × Bytes)

pub record Programs : Type 0 where
  pub pubkey_string : Bytes → Str
  pub spl_token_id : Bytes
  pub token_2022_program_id : Bytes
  pub mpl_metadata_id : Bytes
  pub account_len : ℕ
  pub mint_len : ℕ
  pub unpack_account : Bytes → Option TokenAccount
  pub unpack_mint : Bytes → Option TokenMint
  pub unpack_2022_account : Bytes → Option TokenAccount
  pub unpack_2022_mint : Bytes → Option TokenMint
  pub extensions_json : List Extension → Str
  pub account_key : Reader AccountKey
  pub metadata : Reader Metadata
  pub metadata_ext : Reader MetadataExt
  pub metadata_ext_v1_2 : Reader MetadataExtV12

unfoldable pub unpack_token_2022_base_state : Programs → Bytes → Option Token2022BaseState
unpack_token_2022_base_state programs contents = elim (programs.unpack_2022_account contents) [
  | some state ↦ some (base_account state)
  | none ↦ elim (programs.unpack_2022_mint contents) [
    | some state ↦ some (base_mint state)
    | none ↦ none
  ]
]

abbrev is_empty : Bytes → Bool
is_empty [] = true
is_empty (_ ∷ _) = false

abbrev is_metadata_v1 : AccountKey → Bool
is_metadata_v1 metadata_v1 = true
is_metadata_v1 _ = false

-- The extension of version 1.2, which is read behind the first extension only.
unfoldable pub read_extension : Programs → Bytes → Option MetadataExtV12
read_extension programs contents = do
  (_, rest) ← programs.metadata_ext contents
  (extension, _) ← programs.metadata_ext_v1_2 rest
  some extension

unfoldable pub metaplex_fields : Programs → Metadata → Option MetadataExtV12 → TokenMetadataFields
metaplex_fields programs found extension = record {
  name = found.contents.name;
  symbol = found.contents.symbol;
  uri = found.contents.uri;
  update_authority = programs.pubkey_string found.update_authority;
  is_mutable = found.is_mutable;
  token_standard = extension >>= λ e. e.token_standard;
  seller_fee_basis_points = found.contents.seller_fee_basis_points;
  creators =
      map (λ creator. programs.pubkey_string creator.address)
        (unwrap_or found.contents.creators []);
}

-- What `insert_token_metadata` reads from an account before it looks at the mint: `none` where it
-- returns early.
unfoldable pub read_metaplex : Programs → Bytes → Option (Str × TokenMetadataFields)
unfolding read_extension metaplex_fields
read_metaplex programs contents =
    if is_empty contents
    then none
    else (programs.account_key contents >>= λ (key, rest).
        if is_metadata_v1 key
        then (programs.metadata rest >>= λ (found, rest1). some (
          programs.pubkey_string found.mint,
          metaplex_fields programs found (read_extension programs rest1),
        ))
        else none)
