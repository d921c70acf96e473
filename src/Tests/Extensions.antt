-- ===== src/Tests/Extensions.antt =====
-- clickhouse.rs: a mint with two extensions behind it, and the value of a metadata extension.
use solana_snapshot_etl.Prelude.{
  ℕ, ◌≡◌, ◌≢◌, refl, true, List, [], ◌∷◌, ◌++◌, length, replicate, some, is_some, arith,
}
use solana_snapshot_etl.Prelude.Result.{ok}
use solana_snapshot_etl.Prelude.Text.{Str, bytes, is_utf8}
use solana_snapshot_etl.AppendVec.{Bytes}
use solana_snapshot_etl.Token2022.{
  Token2022Metadata, default_pubkey, parse_token_2022_metadata_value,
}
use solana_snapshot_etl.Token2022.Extension.{Extension}
use solana_snapshot_etl.Token2022.Reader.{
  metadata_bytes, IsWritable, parse_token_2022_metadata_value-metadata_bytes,
}
use solana_snapshot_etl.Token2022.Tlv.{parse_token_2022_mint_extensions, tlv_start}
use solana_snapshot_etl.Token2022.Loop.{
  entries_bytes, take_entries, parse_token_2022_mint_extensions-ends,
  parse_token_2022_mint_extensions-entries_bytes,
}

abbrev coin : Token2022Metadata
coin = record {
  update_authority = some (replicate 32 1);
  mint = replicate 32 2;
  name = bytes "Coin";
  symbol = bytes "C";
  uri = [];
}

abbrev pairs : List (Str × Str)
pairs = (bytes "k", bytes "v") ∷ []

not_default : some (replicate 32 1) ≢ some default_pubkey
not_default = λ h. ground (arith, h)

coin-IsWritable : IsWritable coin pairs
unfolding is_utf8
coin-IsWritable = record {
  authority = refl;
  not_default = not_default;
  mint = refl;
  name = (refl, omega arith);
  symbol = (refl, omega arith);
  uri = (refl, omega arith);
  pairs = (((refl, omega arith), (refl, omega arith)), tt);
  count = omega arith;
}

parse_token_2022_metadata_value_example :
    parse_token_2022_metadata_value (metadata_bytes coin pairs (9 ∷ [])) ≡ ok coin
parse_token_2022_metadata_value_example =
    parse_token_2022_metadata_value-metadata_bytes coin pairs (9 ∷ []) coin-IsWritable (omega arith)

abbrev no_text : Bytes → Str
no_text key = []

abbrev no_json : List Extension → Str
no_json extensions = []

abbrev non_transferable : ℕ × Bytes
non_transferable = (9, [])

abbrev close_authority : ℕ × Bytes
close_authority = (3, replicate 32 1)

abbrev mint : Bytes
mint = replicate 166 0 ++ entries_bytes no_text (non_transferable ∷ close_authority ∷ [])

parse_token_2022_mint_extensions-ends_example :
    is_some (parse_token_2022_mint_extensions no_text no_json (length mint) mint) ≡ true
parse_token_2022_mint_extensions-ends_example =
    parse_token_2022_mint_extensions-ends no_text no_json mint

parse_token_2022_mint_extensions_example :
    parse_token_2022_mint_extensions no_text no_json (length mint) mint ≡ (
      let st = take_entries no_text (non_transferable ∷ close_authority ∷ []) (tlv_start no_text) in
      some (
        ok (record {
          json = no_json st.extensions;
          token_metadata = st.token_metadata;
          warnings = st.warnings;
        })))
parse_token_2022_mint_extensions_example =
    parse_token_2022_mint_extensions-entries_bytes no_text no_json (replicate 166 0)
      non_transferable (close_authority ∷ []) refl
      ((omega arith, omega arith, omega arith), ((omega arith, omega arith, omega arith), tt))
      (omega arith)
