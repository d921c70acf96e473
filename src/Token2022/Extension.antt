-- ===== src/Token2022/Extension.antt =====
-- clickhouse.rs: the extensions of a Token-2022 mint. A JSON value is kept as the fields that it is
-- built from.
use solana_snapshot_etl.Prelude.{
  ℕ, zero, suc, ◌+◌, Bool, ◌||◌, length, Option, none, some, if◌then◌else◌, ◌==◌, min, ◌^◌, ◌-◌,
}
use solana_snapshot_etl.Prelude.Result.{Result, ok, err, ◌>>=◌}
use solana_snapshot_etl.Prelude.Text.{Str}
use solana_snapshot_etl.Prelude.Bytes.{from_le, get_range}
use solana_snapshot_etl.AppendVec.{Bytes}
use solana_snapshot_etl.Token2022.{
  ParseError, invalid_extension_length, truncated_extension_integer, truncated_extension_pubkey,
  invalid_default_account_state, unsupported_extension, ok_or, Token2022Metadata, optional_pubkey,
  parse_token_2022_metadata_value,
}

abbrev pub transfer_fee_config_type : ℕ
transfer_fee_config_type = 1

abbrev pub mint_close_authority_type : ℕ
mint_close_authority_type = 3

abbrev pub default_account_state_type : ℕ
default_account_state_type = 6

abbrev pub non_transferable_type : ℕ
non_transferable_type = 9

abbrev pub permanent_delegate_type : ℕ
permanent_delegate_type = 12

abbrev pub transfer_hook_type : ℕ
transfer_hook_type = 14

abbrev pub metadata_pointer_type : ℕ
metadata_pointer_type = 18

abbrev pub metadata_type : ℕ
metadata_type = 19

pub data AccountState : Type 0 where
  uninitialized initialized frozen : AccountState

pub record TransferFee : Type 0 where
  pub authority : Option Str
  pub newer_basis_points : ℕ
  pub newer_maximum_fee : ℕ
  pub older_epoch : ℕ
  pub older_basis_points : ℕ
  pub older_maximum_fee : ℕ

-- The JSON objects, one constructor for each value of `"extension"`.
pub data Extension : Type 0 where
  transfer_fee_config : TransferFee → Extension
  default_account_state : AccountState → Extension
  non_transferable : Extension
  transfer_hook : Option Str → Option Str → Extension
  permanent_delegate : Option Str → Extension
  mint_close_authority : Option Str → Extension
  metadata_pointer : Option Str → Extension
  token_metadata : Str → Str → Str → Option Str → Extension

-- `saturating_add` of `usize`
abbrev saturating_add : ℕ → ℕ → ℕ
saturating_add a b = min (a + b) (2 ^ 64 - 1)

unfoldable pub extension_exact_len : Bytes → ℕ → Result ParseError Bytes
extension_exact_len value expected =
    if length value == expected then ok value else err invalid_extension_length

-- `extension_u64` and `extension_u16`, at eight bytes and at two.
unfoldable pub extension_uint : ℕ → Bytes → ℕ → Result ParseError ℕ
extension_uint width value offset = do
  found ← ok_or (get_range offset (saturating_add offset width) value) truncated_extension_integer
  ok (from_le found)

abbrev pub extension_u64 : Bytes → ℕ → Result ParseError ℕ
extension_u64 = extension_uint 8

abbrev pub extension_u16 : Bytes → ℕ → Result ParseError ℕ
extension_u16 = extension_uint 2

unfoldable pub is_supported_token_2022_extension : ℕ → Bool
is_supported_token_2022_extension t =
    t == transfer_fee_config_type
    || t == default_account_state_type
    || t == non_transferable_type
    || t == transfer_hook_type
    || t == permanent_delegate_type
    || t == mint_close_authority_type
    || t == metadata_pointer_type
    || t == metadata_type

unfoldable pub account_state : ℕ → Result ParseError AccountState
account_state zero = ok uninitialized
account_state (suc zero) = ok initialized
account_state (suc (suc zero)) = ok frozen
account_state (suc (suc (suc _))) = err invalid_default_account_state

abbrev pub map_option {ℓ κ} : {A : Type ℓ} {B : Type κ} → (A → B) → Option A → Option B
map_option f none = none
map_option f (some a) = some (f a)

module _ (pubkey_string : Bytes → Str) where
  unfoldable pub extension_optional_pubkey : Bytes → ℕ → Result ParseError (Option Str)
  extension_optional_pubkey value offset = do
    found ← ok_or (get_range offset (saturating_add offset 32) value) truncated_extension_pubkey
    ok (map_option pubkey_string (optional_pubkey found))

  unfoldable pub parse_transfer_fee_config : Bytes → Result ParseError Extension
  parse_transfer_fee_config bytes = do
    value ← extension_exact_len bytes 108
    authority ← extension_optional_pubkey value 0
    older_epoch ← extension_u64 value 72
    older_maximum_fee ← extension_u64 value 80
    older_basis_points ← extension_u16 value 88
    newer_maximum_fee ← extension_u64 value 98
    newer_basis_points ← extension_u16 value 106
    ok (
        transfer_fee_config (record {
          authority = authority;
          newer_basis_points = newer_basis_points;
          newer_maximum_fee = newer_maximum_fee;
          older_epoch = older_epoch;
          older_basis_points = older_basis_points;
          older_maximum_fee = older_maximum_fee;
        }))

  abbrev plain :
      Result ParseError Extension → Result ParseError (Extension × Option Token2022Metadata)
  plain r = r >>= λ extension. ok (extension, none)

  unfoldable pub parse_token_2022_extension :
      ℕ → Bytes → Result ParseError (Extension × Option Token2022Metadata)
  unfolding parse_transfer_fee_config account_state
  parse_token_2022_extension t bytes =
      if t == transfer_fee_config_type
      then plain (parse_transfer_fee_config bytes)
      else if t == default_account_state_type
      then plain (do
        value ← extension_exact_len bytes 1
        state ← account_state (from_le value)
        ok (default_account_state state))
      else if t == non_transferable_type
      then plain (extension_exact_len bytes 0 >>= λ _. ok non_transferable)
      else if t == transfer_hook_type
      then plain (do
        value ← extension_exact_len bytes 64
        authority ← extension_optional_pubkey value 0
        program_id ← extension_optional_pubkey value 32
        ok (transfer_hook authority program_id))
      else if t == permanent_delegate_type
      then plain (do
        value ← extension_exact_len bytes 32
        delegate ← extension_optional_pubkey value 0
        ok (permanent_delegate delegate))
      else if t == mint_close_authority_type
      then plain (do
        value ← extension_exact_len bytes 32
        authority ← extension_optional_pubkey value 0
        ok (mint_close_authority authority))
      else if t == metadata_pointer_type
      then plain (do
        value ← extension_exact_len bytes 64
        authority ← extension_optional_pubkey value 0
        ok (metadata_pointer authority))
      else if t == metadata_type
      then (do
        metadata ← parse_token_2022_metadata_value bytes
        ok (
          token_metadata metadata.name metadata.symbol metadata.uri
              (map_option pubkey_string metadata.update_authority),
          some metadata,
        ))
      else err unsupported_extension
