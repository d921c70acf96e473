-- ===== src/Streams/Archived.antt =====
-- archived.rs: a snapshot read from a stream. zstd and tar provide the entries, so what they answer
-- is a parameter. The debug log and the times that it prints are left out.
use solana_snapshot_etl.Prelude.{
  ℕ, zero, suc, Bool, true, List, [], ◌∷◌, Option, none, some, if◌then◌else◌, filter, length, map,
  ltb, unwrap_or, ◌>>=◌ as and_then,
}
use solana_snapshot_etl.Prelude.Text.{Str}
use solana_snapshot_etl.Prelude.Result.{Result, ok, err, ◌>>=◌, ◌>>◌}
use solana_snapshot_etl.AppendVec.{AppendVec, Bytes, IoError, new_from_reader}
use solana_snapshot_etl.AppendVec.Name.{parse_append_vec_name}
use solana_snapshot_etl.Streams.{
  SnapshotError, io_error, unexpected_append_vec, no_snapshot_manifest, io, bincode, Manifest,
  SerializableAccountStorageEntry, Deserializer, deserialize_from, known_vec, Memory, sum,
  SnapshotExtractor,
}
use solana_snapshot_etl.Streams.Paths.{file_name, is_snapshot_manifest_file, is_appendvec_file}

-- One entry of the archive: its path, its size, and what its first bytes are.
pub record Entry : Type 0 where
  pub path : Result IoError Str
  pub size : ℕ
  pub contents : ℕ → Result IoError Bytes

abbrev pub Entries : Type 0
Entries = List (Result IoError Entry)

-- What zstd and tar answer when they are opened.
pub record Archive : Type 0 where
  pub decoder : Result IoError (Unit {0})
  pub entries : Result IoError Entries

pub record ArchiveSnapshotExtractor : Type 0 where
  pub snapshot_slot : ℕ
  pub minimum_append_vec_slot : Option ℕ
  pub accounts_db_fields : Manifest
  pub entries : Option Entries

abbrev pub ok_or {ℓ κ} : {E : Type ℓ} {A : Type κ} → Option A → E → Result E A
ok_or none e = err e
ok_or (some a) e = ok a

-- The search for the manifest: the entry, if there is one, and the entries after it.
unfoldable pub search : Entries → Result SnapshotError (Option Entry × Entries)
unfolding is_snapshot_manifest_file is_appendvec_file
search [] = ok (none, [])
search (e ∷ es) =
    let more = search es in
    do
      entry ← io e
      path ← io entry.path
      (if is_snapshot_manifest_file path
          then ok (some entry, es)
          else if is_appendvec_file path
          then err unexpected_append_vec
          else more)

-- Of the bank only the slot is kept, so `read_bank` is bincode's reading of it up to there.
unfoldable pub from_reader :
    Deserializer ℕ → Deserializer Manifest → Archive → Result SnapshotError ArchiveSnapshotExtractor
unfolding search deserialize_from
from_reader read_bank read_fields archive = do
  io archive.decoder
  entries ← io archive.entries
  (found, rest) ← search entries
  snapshot_file ← ok_or found no_snapshot_manifest
  io snapshot_file.path
  (slot, reader) ← bincode (deserialize_from read_bank (snapshot_file.contents snapshot_file.size))
  (fields, _) ← bincode (deserialize_from read_fields reader)
  ok (record {
    snapshot_slot = slot;
    minimum_append_vec_slot = none;
    accounts_db_fields = fields;
    entries = some rest;
  })

-- `ArchiveSnapshotExtractor::open`, where `file` is what opening the path answers.
unfoldable pub open_archive :
    Deserializer ℕ
    → Deserializer Manifest
    → Result IoError Archive
    → Result SnapshotError ArchiveSnapshotExtractor
unfolding from_reader
open_archive read_bank read_fields file = io file >>= from_reader read_bank read_fields

unfoldable pub with_minimum_append_vec_slot :
    ArchiveSnapshotExtractor → ℕ → ArchiveSnapshotExtractor
with_minimum_append_vec_slot x slot = record x { minimum_append_vec_slot = some slot }

unfoldable pub should_process_append_vec_slot : Option ℕ → ℕ → Bool
should_process_append_vec_slot none slot = true
should_process_append_vec_slot (some minimum_slot) slot = ltb minimum_slot slot

module _ (memory : Memory) (x : ArchiveSnapshotExtractor) where
  unfoldable pub process_entry : Entry → ℕ → ℕ → Result SnapshotError AppendVec
  unfolding known_vec new_from_reader
  process_entry entry slot id = do
    vec ← ok_or (known_vec x.accounts_db_fields slot id) unexpected_append_vec
    io entry.path
    let expected_len = SerializableAccountStorageEntry.accounts_current_len vec
    io (
        new_from_reader memory.map_anon memory.make_read_only (entry.contents expected_len)
          expected_len slot id)

  -- The closure of `unboxed_iter`: the next item, and the entries after it.
  unfoldable pub next : Entries → Option (Result SnapshotError AppendVec × Entries)
  unfolding process_entry should_process_append_vec_slot file_name parse_append_vec_name
  next [] = none
  next (e ∷ es) =
      let skip = next es in
      elim e [
        | err why ↦ some (err (io_error why), es)
        | ok entry ↦ elim entry.path [
          | err why ↦ some (err (io_error why), es)
          | ok path ↦ elim (and_then (file_name path) parse_append_vec_name) [
            | none ↦ skip
            | some (slot, id) ↦
                if should_process_append_vec_slot x.minimum_append_vec_slot slot
                then some (process_entry entry slot id, es)
                else skip
          ]
        ]
      ]

  -- The items that `next` gives until it ends.
  unfoldable pub collect : ℕ → Entries → List (Result SnapshotError AppendVec)
  unfolding next
  collect zero es = []
  collect (suc fuel) es = elim (next es) [
    | none ↦ []
    | some (item, rest) ↦ item ∷ collect fuel rest
  ]

  -- `self.entries.take()` leaves no entries behind. Each item uses up an entry, so as many rounds
  -- as there are entries are enough.
  unfoldable pub unboxed_iter : List (Result SnapshotError AppendVec) × ArchiveSnapshotExtractor
  unfolding collect
  unboxed_iter =
      let entries = unwrap_or x.entries [] in
      (collect (length entries) entries, record x { entries = none })

unfoldable pub append_vec_count_hint : ArchiveSnapshotExtractor → Option ℕ
unfolding should_process_append_vec_slot
append_vec_count_hint x =
    let kept =
      filter (λ (slot, _). should_process_append_vec_slot x.minimum_append_vec_slot slot)
        x.accounts_db_fields.storages in
    some (sum (map (λ (_, entries). length entries) kept))

instance abbrev pub archive_extractor :
    ⦃memory : Memory⦄ → SnapshotExtractor ArchiveSnapshotExtractor
archive_extractor ⦃memory⦄ = record {
  iter = unboxed_iter memory;
  snapshot_slot = λ x. x.snapshot_slot;
  append_vec_count_hint = append_vec_count_hint;
}
