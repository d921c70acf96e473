-- ===== src/Tests/Patches.antt =====
-- clickhouse.rs: recordings for one mint, and the merge of its patch.
use mathlib.Core.List.Perm
use solana_snapshot_etl.Prelude.{◌≡◌, true, [], ◌∷◌, none, some}
use solana_snapshot_etl.Prelude.Text.{Str, bytes}
use solana_snapshot_etl.Metadata.{
  TokenMetadataRow, VersionedMetadataFields, metaplex, token_2022_embedded, default_fields,
  default_patch, MetadataPatch, merge_metadata_patch,
}
use solana_snapshot_etl.Metadata.Recording.{fields, play, patch_of, holds, play-perm, play-newest}
use solana_snapshot_etl.Metadata.Merge.{overlay, merge_metadata_patch-overlay}

abbrev mint : Str
mint = bytes "M"

abbrev old : VersionedMetadataFields
old = record {
  account_slot = 3;
  source = metaplex;
  source_account = bytes "A";
  fields = default_fields;
}

abbrev new : VersionedMetadataFields
new = record {
  account_slot = 4;
  source = token_2022_embedded;
  source_account = bytes "B";
  fields = default_fields;
}

play-perm_example :
    patch_of mint (play (fields mint old ∷ fields mint new ∷ []) [])
    ≡ patch_of mint (play (fields mint new ∷ fields mint old ∷ []) [])
play-perm_example = play-perm [] mint (Perm.swap (fields mint new) (fields mint old) [])

play-newest_example :
    holds
      (fields mint new)
      (patch_of mint (play (fields mint old ∷ fields mint new ∷ fields mint old ∷ []) []))
    ≡ true
play-newest_example = play-newest (fields mint old ∷ []) (fields mint old ∷ []) (fields mint new) []

abbrev patch : MetadataPatch
patch = record {
  fields = none;
  extensions = some (record { account_slot = 5; json = bytes "[1]" });
}

abbrev row : TokenMetadataRow
row = record {
  mint = mint;
  name = bytes "N";
  symbol = [];
  uri = [];
  update_authority = [];
  is_mutable = true;
  token_standard = none;
  seller_fee_basis_points = 5;
  creators = [];
  extensions = bytes "[]";
  updated_slot = 2;
}

merge_metadata_patch-overlay_example :
    merge_metadata_patch mint default_patch (some (merge_metadata_patch mint patch (some row) 8)) 9
    ≡ merge_metadata_patch mint (overlay default_patch patch) (some row) 9
merge_metadata_patch-overlay_example =
    merge_metadata_patch-overlay mint patch default_patch (some row) 8 9
