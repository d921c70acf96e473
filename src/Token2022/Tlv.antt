-- ===== src/Token2022/Tlv.antt =====
-- clickhouse.rs: the loop over the extensions behind a Token-2022 mint, each a type, a length and a
-- value. The loop takes fuel; `none` means that it ran out.
use solana_snapshot_etl.Prelude.{
  ℕ, zero, suc, ◌+◌, true, false, ◌&&◌, not, List, [], ◌∷◌, ◌++◌, length, Option, none, some,
  if◌then◌else◌, ◌==◌, leb, ltb,
}
use solana_snapshot_etl.Prelude.Order.{nat_ord}
use solana_snapshot_etl.Prelude.Map.{contains}
use solana_snapshot_etl.Prelude.Result.{Result, ok, err, ◌>>=◌}
use solana_snapshot_etl.Prelude.Text.{Str, bytes}
use solana_snapshot_etl.Prelude.Bytes.{from_le, get_range, slice}
use solana_snapshot_etl.AppendVec.{Bytes}
use solana_snapshot_etl.Token2022.{
  ParseError, header_overflow, truncated_header, length_overflow, truncated_value, checked_add,
  ok_or, Token2022Metadata,
}
use solana_snapshot_etl.Token2022.Extension.{
  Extension, is_supported_token_2022_extension, parse_token_2022_extension,
}

-- The length of the common account prefix, and one byte for the account type.
abbrev pub token_2022_tlv_start : ℕ
token_2022_tlv_start = 165 + 1

-- The variables of the loop.
pub record TlvState : Type 0 where
  pub offset : ℕ
  pub seen : List ℕ
  pub extensions : List Extension
  pub token_metadata : Option Token2022Metadata
  pub warnings : List (ℕ × ParseError)

abbrev pub or_else {ℓ} : {A : Type ℓ} → Option A → Option A → Option A
or_else none old = old
or_else (some a) old = some a

pub record ParsedToken2022MintExtensions : Type 0 where
  pub json : Str
  pub token_metadata : Option Token2022Metadata
  pub warnings : List (ℕ × ParseError)

module _ (pubkey_string : Bytes → Str) where
  -- What is done with the value of an extension.
  unfoldable pub take_extension : ℕ → Bytes → TlvState → TlvState
  take_extension extension_type value st =
      if is_supported_token_2022_extension extension_type && not (contains extension_type st.seen)
      then (elim (parse_token_2022_extension pubkey_string extension_type value) [
        | ok (extension, metadata) ↦ record st {
          seen = extension_type ∷ st.seen;
          extensions = st.extensions ++ extension ∷ [];
          token_metadata = or_else metadata st.token_metadata;
        }
        | err e ↦ record st {
          seen = extension_type ∷ st.seen;
          warnings = st.warnings ++ (extension_type, e) ∷ [];
        }
      ])
      else st

  -- One round: an error, the `break` of a zero type, or the state after the extension.
  unfoldable pub tlv_round : Bytes → TlvState → Result ParseError (Option TlvState)
  unfolding take_extension
  tlv_round input st = do
    header_end ← ok_or (checked_add st.offset 4) header_overflow
    header ← ok_or (get_range st.offset header_end input) truncated_header
    let extension_type = from_le (slice 0 2 header)
    let value_len = from_le (slice 2 2 header)
    if extension_type == 0
        then ok none
        else (ok_or (checked_add header_end value_len) length_overflow >>= λ value_end.
            ok_or (get_range header_end value_end input) truncated_value >>= λ value.
            ok (some (record (take_extension extension_type value st) { offset = value_end })))

  unfoldable pub tlv_loop : ℕ → Bytes → TlvState → Option (Result ParseError TlvState)
  tlv_loop zero input st = none
  tlv_loop (suc fuel) input st = elim (ltb st.offset (length input)) [
    | false ↦ some (ok st)
    | true ↦ elim (tlv_round input st) [
      | err e ↦ some (err e)
      | ok more ↦ elim more [ none ↦ some (ok st) | some st' ↦ tlv_loop fuel input st' ]
    ]
  ]

  abbrev pub tlv_start : TlvState
  tlv_start = record {
    offset = token_2022_tlv_start;
    seen = [];
    extensions = [];
    token_metadata = none;
    warnings = [];
  }

  -- The text of the JSON array is `serde_json`'s, which does not fail on such values.
  unfoldable pub parse_token_2022_mint_extensions :
      (List Extension → Str) → ℕ → Bytes → Option (Result ParseError ParsedToken2022MintExtensions)
  unfolding tlv_loop
  parse_token_2022_mint_extensions to_json fuel input =
      if leb (length input) token_2022_tlv_start
      then some (ok (record { json = bytes "[]"; token_metadata = none; warnings = [] }))
      else (elim (tlv_loop fuel input tlv_start) [
        | none ↦ none
        | some r ↦ some (
            r >>= λ st. ok (record {
              json = to_json st.extensions;
              token_metadata = st.token_metadata;
              warnings = st.warnings;
            }))
      ])
