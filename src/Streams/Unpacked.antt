-- ===== src/Streams/Unpacked.antt =====
-- unpacked.rs: a snapshot that was unarchived to a directory. What the file system answers is a
-- parameter, and so are the name of the status cache, which the validator fixes, and the progress
-- tracker. Logging is left out. A name that is not UTF-8 is no number and no AppendVec, whether or
-- not its bad bytes were replaced.
use solana_snapshot_etl.Prelude.{
  ℕ, Bool, max, List, [], ◌∷◌, Option, none, some, if◌then◌else◌, filter_map, length, map, is_some,
  filter, ◌>>=◌ as and_then,
}
use solana_snapshot_etl.Prelude.Text.{Str, bytes, parse_u64, to_string}
use solana_snapshot_etl.Prelude.Result.{Result, ok, err, map_err, ◌>>=◌, ◌>>◌}
use solana_snapshot_etl.AppendVec.{
  AppendVec, IoError, not_in_manifest, failed_to_open, FileView, new_from_file,
}
use solana_snapshot_etl.AppendVec.Name.{parse_append_vec_name}
use solana_snapshot_etl.Streams.{
  SnapshotError, io_error, no_status_cache, no_snapshot_manifest, io, bincode, Manifest, Reader,
  SerializableAccountStorageEntry, Deserializer, deserialize_from, known_vec, SnapshotExtractor,
}
use solana_snapshot_etl.Streams.Paths.{join}
use solana_snapshot_etl.Streams.Archived.{ok_or}

-- `read_dir` answers with the names of the entries that it finds.
pub record FileSystem : Type 0 where
  pub is_file : Str → Bool
  pub read_dir : Str → Result IoError (List (Result IoError Str))
  pub open_file : Str → Result IoError Reader
  pub metadata_len : Str → Result IoError ℕ
  pub view : Str → FileView

pub record UnpackedSnapshotExtractor : Type 0 where
  pub root : Str
  pub snapshot_slot : ℕ
  pub accounts_db_fields : Manifest

-- `Result::ok`, and `Iterator::max` of what there is.
abbrev pub ok? {ℓ κ} : {E : Type ℓ} {A : Type κ} → Result E A → Option A
ok? (ok a) = some a
ok? (err e) = none

abbrev pub maximum : List ℕ → Option ℕ
maximum [] = none
maximum (n ∷ ns) = elim (maximum ns) [ none ↦ some n | some m ↦ some (max n m) ]

-- The slots that name an entry of `snapshots`.
abbrev pub slots_of : List (Result IoError Str) → List ℕ
slots_of = filter_map λ entry. and_then (ok? entry) parse_u64

abbrev pub snapshots_dir : Str → Str
snapshots_dir path = join path (bytes "snapshots")

abbrev pub manifest_path : Str → ℕ → Str
manifest_path path slot = join (join (snapshots_dir path) (to_string slot)) (to_string slot)

module _ (fs : FileSystem) (status_cache_filename : Str)
    (new_read_progress_tracker : Str → Reader → ℕ → Reader) (read_bank : Deserializer ℕ)
    (read_fields : Deserializer Manifest) where
  -- `open`, once the manifest is known.
  unfoldable pub read_manifest : Str → Str → Result SnapshotError UnpackedSnapshotExtractor
  unfolding deserialize_from
  read_manifest path file = do
    opened ← io (fs.open_file file)
    file_len ← io (fs.metadata_len file)
    let tracked = new_read_progress_tracker file opened file_len
    (slot, reader) ← bincode (deserialize_from read_bank tracked)
    (fields, _) ← bincode (deserialize_from read_fields reader)
    ok (record { root = path; snapshot_slot = slot; accounts_db_fields = fields })

  unfoldable pub open_unpacked : Str → Result SnapshotError UnpackedSnapshotExtractor
  unfolding read_manifest parse_u64
  open_unpacked path =
      if fs.is_file (join (snapshots_dir path) status_cache_filename)
      then (do
        entries ← io (fs.read_dir (snapshots_dir path))
        latest ← ok_or (maximum (slots_of entries)) no_snapshot_manifest
        (if fs.is_file (manifest_path path latest)
            then read_manifest path (manifest_path path latest)
            else err no_snapshot_manifest))
      else err no_status_cache

module _ (fs : FileSystem) (x : UnpackedSnapshotExtractor) where
  unfoldable pub open_append_vec : ℕ → ℕ → Str → Result SnapshotError AppendVec
  unfolding known_vec new_from_file
  open_append_vec slot id path = elim (known_vec x.accounts_db_fields slot id) [
    | none ↦ err (io_error (not_in_manifest path slot id))
    | some vec ↦ do
      let expected_len = SerializableAccountStorageEntry.accounts_current_len vec
      io (fs.metadata_len path)
      io (
          map_err (failed_to_open path slot id expected_len)
            (new_from_file (fs.view path) expected_len slot id))
  ]

  abbrev pub accounts_dir : Str
  accounts_dir = join x.root (bytes "accounts")

  abbrev pub parsed_file : Result IoError Str → Option (ℕ × ℕ × Str)
  parsed_file entry = and_then (ok? entry) λ name.
      and_then (parse_append_vec_name name)
        λ (slot, version). some (slot, version, join accounts_dir name)

  unfoldable pub iter_streams : Result SnapshotError (List (Result SnapshotError AppendVec))
  unfolding open_append_vec parse_append_vec_name
  iter_streams = do
    entries ← io (fs.read_dir accounts_dir)
    ok (
        map (λ (slot, version, path). open_append_vec slot version path)
          (filter_map parsed_file entries))

  unfoldable pub unboxed_iter : List (Result SnapshotError AppendVec)
  unfolding iter_streams
  unboxed_iter = elim iter_streams [ ok items ↦ items | err why ↦ err why ∷ [] ]

  unfoldable pub append_vec_count_hint : Option ℕ
  unfolding parse_append_vec_name
  append_vec_count_hint = and_then (ok? (fs.read_dir accounts_dir)) λ entries.
      some (length (filter (λ name. is_some (parse_append_vec_name name)) (filter_map ok? entries)))

instance abbrev pub unpacked_extractor :
    ⦃fs : FileSystem⦄ → SnapshotExtractor UnpackedSnapshotExtractor
unpacked_extractor ⦃fs⦄ = record {
  iter = λ x. (unboxed_iter fs x, x);
  snapshot_slot = λ x. x.snapshot_slot;
  append_vec_count_hint = append_vec_count_hint fs;
}
