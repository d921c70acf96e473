-- ===== src/Streams/Count.antt =====
-- archived.rs `append_vec_count_hint`: the hint is right for an archive that is as its manifest says.
use mathlib.Core.List.{Perm}
use solana_snapshot_etl.Prelude.{
  ℕ, ◌%◌, ◌≡◌, refl, ap, sym, ◌∙◌, Bool, List, [], ◌∷◌, ◌++◌, map, Option, none, some, All, arith,
  filter, filter_map, length, unwrap_or, ◌>>=◌ as and_then,
}
use solana_snapshot_etl.Prelude.Perms.{length-filter-append, length-filter-map, length-filter-perm}
use solana_snapshot_etl.Prelude.Text.{Str}
use solana_snapshot_etl.Prelude.Result.{Result, ok, err, word}
use solana_snapshot_etl.AppendVec.{IoError}
use solana_snapshot_etl.AppendVec.Name.{parse_append_vec_name}
use solana_snapshot_etl.Streams.{SerializableAccountStorageEntry, Memory, sum}
use solana_snapshot_etl.Streams.Paths.{file_name}
use solana_snapshot_etl.Streams.Archived.{
  Entry, Entries, ArchiveSnapshotExtractor, unboxed_iter, append_vec_count_hint,
  should_process_append_vec_slot,
}
use solana_snapshot_etl.Streams.Yields.{round, unboxed_iter_lem}

-- The files that the manifest lists, by slot and id.
abbrev pub listed : List (ℕ × List SerializableAccountStorageEntry) → List (ℕ × ℕ)
listed [] = []
listed ((slot, entries) ∷ storages) =
    map (λ entry. (slot, SerializableAccountStorageEntry.id entry)) entries ++ listed storages

-- The slot and the id of an entry that is read and is named as an AppendVec.
abbrev pub name_of : Result IoError Entry → Option (ℕ × ℕ)
name_of (err why) = none
name_of (ok entry) = elim entry.path [
  | err why ↦ none
  | ok path ↦ and_then (file_name path) parse_append_vec_name
]

pub record IsReadable (e : Result IoError Entry) : Type 0 where
  pub entry : Entry
  pub path : Str
  pub read : e ≡ ok entry
  pub path_read : entry.path ≡ ok path

module _ (x : ArchiveSnapshotExtractor) where
  abbrev is_kept : ℕ × ℕ → Bool
  is_kept (slot, _) = should_process_append_vec_slot x.minimum_append_vec_slot slot

  abbrev is_kept_slot : ℕ × List SerializableAccountStorageEntry → Bool
  is_kept_slot (slot, _) = should_process_append_vec_slot x.minimum_append_vec_slot slot

  sum-listed :
      (storages : List (ℕ × List SerializableAccountStorageEntry))
      → sum (map (λ (_, entries). length entries) (filter is_kept_slot storages))
        ≡ length (filter is_kept (listed storages)) % word
  sum-listed [] = refl
  sum-listed ((slot, entries) ∷ storages) =
      let here : List (ℕ × ℕ) =
        map (λ entry. (slot, SerializableAccountStorageEntry.id entry)) entries in
      let keep = should_process_append_vec_slot x.minimum_append_vec_slot slot in
      let same =
        length-filter-map is_kept (λ entry. (slot, SerializableAccountStorageEntry.id entry)) keep
          (λ _. refl) entries in
      ground (arith, length-filter-append is_kept here (listed storages), same, sum-listed storages)

  module _ (memory : Memory) where
    length-round :
        (es : Entries)
        → All IsReadable es
        → length (filter_map (round memory x) es) ≡ length (filter is_kept (filter_map name_of es))
    length-round [] h = refl
    length-round (e ∷ es) (h, hs) = ground (arith, h.read, h.path_read, length-round es hs)

    -- Where every entry of the archive is read, and the entries that are named as AppendVecs are, in
    -- any order, the files that the manifest lists, the hint is the number of items that the
    -- iteration yields, as a `u64`.
    pub append_vec_count_hint_lem :
        All IsReadable (unwrap_or x.entries [])
        → Perm (filter_map name_of (unwrap_or x.entries [])) (listed x.accounts_db_fields.storages)
        → append_vec_count_hint x ≡ some (length (unboxed_iter memory x).0 % word)
    unfolding append_vec_count_hint
    append_vec_count_hint_lem readable same =
        let es = unwrap_or x.entries [] in
        ap some (
          sum-listed x.accounts_db_fields.storages
          ∙ ap (λ n. n % word)
              (sym (
                ap length (unboxed_iter_lem memory x).0
                ∙ length-round es readable
                ∙ length-filter-perm is_kept same)))
