-- ===== src/Metadata/Merge.antt =====
-- clickhouse.rs `merge_metadata_patch`: merging a patch into the stored row.
use solana_snapshot_etl.Prelude.{ℕ, Option, none, some, ◌≡◌, arith}
use solana_snapshot_etl.Prelude.Text.{Str}
use solana_snapshot_etl.Metadata.{TokenMetadataRow, MetadataPatch, merge_metadata_patch}

-- What the later of two patches holds, and the earlier one where it holds nothing.
abbrev over {ℓ} : {A : Type ℓ} → Option A → Option A → Option A
over none earlier = earlier
over (some a) earlier = some a

abbrev pub overlay : MetadataPatch → MetadataPatch → MetadataPatch
overlay later earlier = record {
  fields = over later.fields earlier.fields;
  extensions = over later.extensions earlier.extensions;
}

-- Merging two patches one after the other is merging the later one laid over the earlier one:
-- fields and extensions are taken independently, and the stored row counts only where neither patch
-- says anything.
pub merge_metadata_patch-overlay :
    (mint : Str) (earlier later : MetadataPatch) (previous : Option TokenMetadataRow) (s t : ℕ)
    → merge_metadata_patch mint later (some (merge_metadata_patch mint earlier previous s)) t
      ≡ merge_metadata_patch mint (overlay later earlier) previous t
unfolding merge_metadata_patch
merge_metadata_patch-overlay mint earlier later previous s t = ground arith
