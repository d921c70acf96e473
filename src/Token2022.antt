-- ===== src/Token2022.antt =====
-- clickhouse.rs: the Borsh reader of Token-2022 metadata. The errors are the messages of the
-- source; those of a conversion of a slice whose length has just been checked cannot occur and have
-- no constructor.
pub mod Reader
pub mod Extension
pub mod Tlv
pub mod Loop
use solana_snapshot_etl.Prelude.{
  ℕ, zero, suc, ◌+◌, ◌-◌, ◌/◌, Bool, true, false, [], length, replicate, Option, none, some,
  if◌then◌else◌, ltb,
}
use solana_snapshot_etl.Prelude.Order.{eqb}
use solana_snapshot_etl.Prelude.Result.{Result, ok, err, ◌>>=◌, word}
use solana_snapshot_etl.Prelude.Text.{Str, is_utf8}
use solana_snapshot_etl.Prelude.Bytes.{from_le, get_range}
use solana_snapshot_etl.AppendVec.{Bytes}
use solana_snapshot_etl.Metadata.{TokenMetadataFields, str_ord}

pub data ParseError : Type 0 where
  metadata_offset_overflow truncated_metadata invalid_utf8 invalid_additional_length : ParseError
  invalid_extension_length truncated_extension_integer truncated_extension_pubkey : ParseError
  invalid_default_account_state unsupported_extension : ParseError
  header_overflow truncated_header length_overflow truncated_value : ParseError

-- `checked_add` of `usize`
abbrev pub checked_add : ℕ → ℕ → Option ℕ
checked_add a b = if ltb (a + b) word then some (a + b) else none

abbrev pub ok_or {ℓ} : {A : Type ℓ} → Option A → ParseError → Result ParseError A
ok_or none e = err e
ok_or (some a) e = ok a

-- `Token2022MetadataReader`
pub record MetadataReader : Type 0 where
  pub input : Bytes
  pub offset : ℕ

unfoldable pub read_exact : ℕ → MetadataReader → Result ParseError (Bytes × MetadataReader)
read_exact len reader = do
  end ← ok_or (checked_add reader.offset len) metadata_offset_overflow
  value ← ok_or (get_range reader.offset end reader.input) truncated_metadata
  ok (value, record reader { offset = end })

unfoldable pub read_u32 : MetadataReader → Result ParseError (ℕ × MetadataReader)
read_u32 reader = do (four, reader') ← read_exact 4 reader; ok (from_le four, reader')

unfoldable pub read_string : MetadataReader → Result ParseError (Str × MetadataReader)
read_string reader = do
  (len, reader1) ← read_u32 reader
  (value, reader2) ← read_exact len reader1
  if is_utf8 value then ok (value, reader2) else err invalid_utf8

unfoldable pub read_pubkey : MetadataReader → Result ParseError (Bytes × MetadataReader)
read_pubkey reader = read_exact 32 reader

-- The key-value pairs are read and dropped.
unfoldable pub skip_pairs : ℕ → MetadataReader → Result ParseError MetadataReader
skip_pairs zero reader = ok reader
skip_pairs (suc n) reader = do
  (_, reader1) ← read_string reader
  (_, reader2) ← read_string reader1
  skip_pairs n reader2

pub record Token2022Metadata : Type 0 where
  pub update_authority : Option Bytes
  pub mint : Bytes
  pub name : Str
  pub symbol : Str
  pub uri : Str

-- `Pubkey::default()`
abbrev pub default_pubkey : Bytes
default_pubkey = replicate 32 0

abbrev pub same_pubkey : Bytes → Bytes → Bool
same_pubkey a b = eqb ⦃o = str_ord⦄ a b

-- A key of zeros stands for no key.
abbrev pub optional_pubkey : Bytes → Option Bytes
optional_pubkey key = if same_pubkey key default_pubkey then none else some key

unfoldable pub parse_token_2022_metadata_value : Bytes → Result ParseError Token2022Metadata
parse_token_2022_metadata_value input = do
  (update_authority, r1) ← read_pubkey (record { input = input; offset = 0 })
  (mint, r2) ← read_pubkey r1
  (name, r3) ← read_string r2
  (symbol, r4) ← read_string r3
  (uri, r5) ← read_string r4
  (additional_metadata_len, r6) ← read_u32 r5
  if ltb ((length input - r6.offset) / 8) additional_metadata_len
      then err invalid_additional_length
      else (skip_pairs additional_metadata_len r6 >>= λ _. ok (record {
        update_authority = optional_pubkey update_authority;
        mint = mint;
        name = name;
        symbol = symbol;
        uri = uri;
      }))

-- The base-58 text of a key is the Solana SDK's.
module _ (pubkey_string : Bytes → Str) where
  unfoldable pub token_2022_metadata_fields : Token2022Metadata → TokenMetadataFields
  token_2022_metadata_fields metadata = record {
    name = metadata.name;
    symbol = metadata.symbol;
    uri = metadata.uri;
    update_authority = elim metadata.update_authority [ none ↦ [] | some key ↦ pubkey_string key ];
    is_mutable = elim metadata.update_authority [ none ↦ false | some _ ↦ true ];
    token_standard = none;
    seller_fee_basis_points = 0;
    creators = [];
  }
