-- ===== src/Metadata.antt =====
-- clickhouse.rs: token metadata. While an archive is read, the candidates for a mint's metadata and
-- for its extensions are kept in a map of patches, the newest of each; a patch is merged with the
-- stored row when it is written. The mutex around the map makes the recordings a sequence.
pub mod Recording
pub mod Merge
use solana_snapshot_etl.Prelude.{
  ℕ, zero, suc, Bool, false, List, [], Option, none, some, ◌≡◌, refl, if◌then◌else◌, unwrap_or,
}
use solana_snapshot_etl.Prelude.Order.{
  Ord, nat_ord, bool_ord, option_ord, list_ord, fields_ord, via, gtb,
}
use solana_snapshot_etl.Prelude.Text.{Str, bytes}
use solana_snapshot_etl.Prelude.Map.{upsert}

abbrev pub str_ord : Ord Str
str_ord = list_ord

pub record TokenMetadataRow : Type 0 where
  pub mint : Str
  pub name : Str
  pub symbol : Str
  pub uri : Str
  pub update_authority : Str
  pub is_mutable : Bool
  pub token_standard : Option ℕ
  pub seller_fee_basis_points : ℕ
  pub creators : List Str
  pub extensions : Str
  pub updated_slot : ℕ

pub record TokenMetadataFields : Type 0 where
  pub name : Str
  pub symbol : Str
  pub uri : Str
  pub update_authority : Str
  pub is_mutable : Bool
  pub token_standard : Option ℕ
  pub seller_fee_basis_points : ℕ
  pub creators : List Str

-- `Default`
abbrev pub default_fields : TokenMetadataFields
default_fields = record {
  name = [];
  symbol = [];
  uri = [];
  update_authority = [];
  is_mutable = false;
  token_standard = none;
  seller_fee_basis_points = 0;
  creators = [];
}

unfoldable pub from_row : TokenMetadataRow → TokenMetadataFields
from_row row = record {
  name = row.name;
  symbol = row.symbol;
  uri = row.uri;
  update_authority = row.update_authority;
  is_mutable = row.is_mutable;
  token_standard = row.token_standard;
  seller_fee_basis_points = row.seller_fee_basis_points;
  creators = row.creators;
}

unfoldable pub into_row : TokenMetadataFields → Str → Str → ℕ → TokenMetadataRow
into_row fields mint extensions updated_slot = record {
  mint = mint;
  name = fields.name;
  symbol = fields.symbol;
  uri = fields.uri;
  update_authority = fields.update_authority;
  is_mutable = fields.is_mutable;
  token_standard = fields.token_standard;
  seller_fee_basis_points = fields.seller_fee_basis_points;
  creators = fields.creators;
  extensions = extensions;
  updated_slot = updated_slot;
}

pub data MetadataSource : Type 0 where
  metaplex token_2022_standalone token_2022_embedded : MetadataSource

pub record VersionedMetadataFields : Type 0 where
  pub account_slot : ℕ
  pub source : MetadataSource
  pub source_account : Str
  pub fields : TokenMetadataFields

pub record VersionedExtensions : Type 0 where
  pub account_slot : ℕ
  pub json : Str

-- `derive(Ord)` compares the declared order of the variants, and fields from the first on.
abbrev variant : MetadataSource → ℕ
variant metaplex = 0
variant token_2022_standalone = 1
variant token_2022_embedded = 2

abbrev of_variant : ℕ → MetadataSource
of_variant zero = metaplex
of_variant (suc zero) = token_2022_standalone
of_variant (suc (suc _)) = token_2022_embedded

pub of_variant-variant : (s : MetadataSource) → of_variant (variant s) ≡ s
of_variant-variant metaplex = refl
of_variant-variant token_2022_standalone = refl
of_variant-variant token_2022_embedded = refl

instance abbrev pub source_ord : Ord MetadataSource
source_ord = via nat_ord variant of_variant of_variant-variant

abbrev Fields : Type 0
Fields = Str × (Str × (Str × (Str × (Bool × (Option ℕ × (ℕ × List Str))))))

instance abbrev pub metadata_fields_ord : Ord TokenMetadataFields
metadata_fields_ord =
    via {B = Fields} fields_ord
      (λ f. (
        f.name,
        (
          f.symbol,
          (
            f.uri,
            (
              f.update_authority,
              (f.is_mutable, (f.token_standard, (f.seller_fee_basis_points, f.creators))),
            ),
          ),
        ),
      ))
      (λ t. record {
        name = t.0;
        symbol = t.1.0;
        uri = t.1.1.0;
        update_authority = t.1.1.1.0;
        is_mutable = t.1.1.1.1.0;
        token_standard = t.1.1.1.1.1.0;
        seller_fee_basis_points = t.1.1.1.1.1.1.0;
        creators = t.1.1.1.1.1.1.1;
      })
      (λ f. refl)

instance abbrev pub versioned_fields_ord : Ord VersionedMetadataFields
versioned_fields_ord =
    via {B = ℕ × (MetadataSource × (Str × TokenMetadataFields))} fields_ord
      (λ v. (v.account_slot, (v.source, (v.source_account, v.fields))))
      (λ t. record {
        account_slot = t.0;
        source = t.1.0;
        source_account = t.1.1.0;
        fields = t.1.1.1;
      })
      (λ v. refl)

instance abbrev pub versioned_extensions_ord : Ord VersionedExtensions
versioned_extensions_ord =
    via {B = ℕ × Str} fields_ord (λ v. (v.account_slot, v.json))
      (λ t. record { account_slot = t.0; json = t.1 }) (λ v. refl)

pub record MetadataPatch : Type 0 where
  pub fields : Option VersionedMetadataFields
  pub extensions : Option VersionedExtensions

abbrev pub default_patch : MetadataPatch
default_patch = record { fields = none; extensions = none }

abbrev pub MetadataPatches : Type 0
MetadataPatches = List (Str × MetadataPatch)

-- The candidate replaces nothing, or what it is above.
module _ {ℓ} {A : Type ℓ} ⦃o : Ord A⦄ where
  unfoldable pub keep_newer : Option A → A → Option A
  keep_newer none candidate = some candidate
  keep_newer (some current) candidate =
      if gtb candidate current then some candidate else some current

abbrev pub patch_fields : VersionedMetadataFields → Option MetadataPatch → MetadataPatch
patch_fields candidate found =
    let patch = unwrap_or found default_patch in
    record patch { fields = keep_newer patch.fields candidate }

abbrev pub patch_extensions : VersionedExtensions → Option MetadataPatch → MetadataPatch
patch_extensions candidate found =
    let patch = unwrap_or found default_patch in
    record patch { extensions = keep_newer patch.extensions candidate }

unfoldable pub record_metadata_fields :
    MetadataPatches → Str → VersionedMetadataFields → MetadataPatches
unfolding keep_newer
record_metadata_fields patches mint candidate =
    upsert ⦃o = str_ord⦄ mint (patch_fields candidate) patches

unfoldable pub record_extensions : MetadataPatches → Str → VersionedExtensions → MetadataPatches
unfolding keep_newer
record_extensions patches mint candidate =
    upsert ⦃o = str_ord⦄ mint (patch_extensions candidate) patches

unfoldable pub merge_metadata_patch :
    Str → MetadataPatch → Option TokenMetadataRow → ℕ → TokenMetadataRow
unfolding from_row into_row
merge_metadata_patch mint patch previous snapshot_slot =
    let fields : TokenMetadataFields = elim patch.fields [
      | some versioned ↦ versioned.fields
      | none ↦ elim previous [ some row ↦ from_row row | none ↦ default_fields ]
    ] in
    let extensions : Str = elim patch.extensions [
      | some versioned ↦ versioned.json
      | none ↦ elim previous [ some row ↦ row.extensions | none ↦ bytes "[]" ]
    ] in
    into_row fields mint extensions snapshot_slot
