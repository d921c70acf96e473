-- ===== src/Tests/Extraction.antt =====
-- archived.rs and unpacked.rs: a snapshot of slot 7 with two storage files, as an archive and as a
-- directory.
use mathlib.Core.List.{Perm}
use mathlib.Core.List.Perm
use solana_snapshot_etl.Prelude.{
  ℕ, ◌+◌, ◌%◌, ◌-◌, ◌≡◌, refl, true, List, [], ◌∷◌, ◌++◌, none, some, All, arith, filter_map,
  if◌then◌else◌, leb, length, replicate, length-replicate, take, drop, map, ◌==◌,
}
use solana_snapshot_etl.Prelude.Order.{eqb}
use solana_snapshot_etl.Metadata.{str_ord}
use solana_snapshot_etl.AppendVec.Name.{parse_append_vec_name}
use solana_snapshot_etl.Prelude.Text.{Str, bytes, is_utf8}
use solana_snapshot_etl.Prelude.Result.{Result, ok, err, word}
use solana_snapshot_etl.AppendVec.{Bytes, IoError, os, FileView}
use solana_snapshot_etl.AppendVec.Open.{MapsWhole}
use solana_snapshot_etl.Streams.{Manifest, Deserializer, deserialize_from, Reader, Memory, io_error}
use solana_snapshot_etl.Streams.Paths.{
  is_snapshot_manifest_file, is_appendvec_file, file_name, join,
}
use solana_snapshot_etl.Streams.Printed.{
  snapshot_path, account_path, is_snapshot_manifest_file-snapshot_path,
}
use solana_snapshot_etl.Streams.Archived.{
  Entry, Entries, ArchiveSnapshotExtractor, from_reader, unboxed_iter, append_vec_count_hint,
}
use solana_snapshot_etl.Streams.Search.{IsOther, manifest, from_reader_lem}
use solana_snapshot_etl.Streams.Yields.{
  IsSound, round, unboxed_iter_lem, Accepted, unboxed_iter-IsAccepted,
}
use solana_snapshot_etl.Streams.Count.{IsReadable, name_of, listed, append_vec_count_hint_lem}
use solana_snapshot_etl.Streams.Progress.{Read, new, read, reads, counted, read_lem}
use solana_snapshot_etl.Streams.Unpacked as Unpacked
use solana_snapshot_etl.Streams.Unpacked.{
  FileSystem, UnpackedSnapshotExtractor, open_unpacked, slots_of, snapshots_dir, manifest_path,
  read_manifest, accounts_dir, open_append_vec, parsed_file,
}
use solana_snapshot_etl.Streams.Discovery as Discovery
use solana_snapshot_etl.Streams.Discovery.{
  IsGreatest, open_unpacked-IsGreatest, unboxed_iter-append_vec_count_hint,
  unpacked-unboxed_iter-IsAccepted,
}

is_snapshot_manifest_file_example :
    (is_snapshot_manifest_file (snapshot_path 7 8) ≡ (7 == 8))
    × (is_appendvec_file (account_path 3 1) ≡ true)
is_snapshot_manifest_file_example =
    is_snapshot_manifest_file-snapshot_path 7 8 3 1 (omega arith) (omega arith) (omega arith)
      (omega arith)

abbrev fields : Manifest
fields = record {
  storages =
      (3, record { id = 1; accounts_current_len = 2 } ∷ [])
      ∷ (5, record { id = 2; accounts_current_len = 1 } ∷ [])
      ∷ [];
  write_version = 0;
  slot = 7;
  bank_hash_info = [];
  roots = [];
  roots_with_hash = [];
}

abbrev read_bank : Deserializer ℕ
read_bank limit (ok (b ∷ bs)) = ok (b, ok bs)
read_bank limit _ = err 1

abbrev read_fields : Deserializer Manifest
read_fields limit (ok bs) = ok (fields, ok [])
read_fields limit (err e) = err 2

abbrev entry : Str → Bytes → Result IoError Entry
entry path found =
    ok (record { path = ok path; size = length found; contents = λ n. ok (take n found) })

abbrev others : Entries
others = entry (bytes "version") (49 ∷ []) ∷ []

abbrev accounts : Entries
accounts =
    entry (bytes "accounts/5.2") (8 ∷ 9 ∷ []) ∷ entry (bytes "accounts/3.1") (4 ∷ 6 ∷ 0 ∷ []) ∷ []

abbrev snapshots : Entries
snapshots = entry (bytes "snapshots/7/7") (7 ∷ []) ∷ accounts

others-IsOther : All IsOther others
unfolding is_snapshot_manifest_file is_appendvec_file
others-IsOther = (
  record {
    entry = record { path = ok (bytes "version"); size = 1; contents = λ n. ok (take n (49 ∷ [])) };
    path = bytes "version";
    read = refl;
    path_read = refl;
    not_manifest = refl;
    not_append_vec = refl;
  },
  tt,
)

manifest_entry : is_snapshot_manifest_file (bytes "snapshots/7/7") ≡ true
unfolding is_snapshot_manifest_file is_utf8
manifest_entry = refl

from_reader_example :
    from_reader read_bank read_fields
      (record { decoder = ok tt; entries = ok (others ++ snapshots) })
    ≡ ok (record {
      snapshot_slot = 7;
      minimum_append_vec_slot = none;
      accounts_db_fields = fields;
      entries = some accounts;
    })
unfolding deserialize_from
from_reader_example =
    from_reader_lem read_bank read_fields others snapshots accounts
      (manifest
        (record {
          path = ok (bytes "snapshots/7/7");
          size = 1;
          contents = λ n. ok (take n (7 ∷ []));
        })
        (bytes "snapshots/7/7"))
      others-IsOther (refl, refl, manifest_entry)

abbrev memory : Memory
memory = record {
  map_anon = λ n. if leb (n + 8) word then ok (replicate n 0) else err (os 12);
  make_read_only = λ bs. ok bs;
}

memory-IsSound : IsSound memory
memory-IsSound = record {
  sized = λ n bs e. ground (arith, length-replicate {A = ℕ} n 0, e);
  kept = λ bs cs e. ground (arith, e);
}

abbrev archive : ArchiveSnapshotExtractor
archive = record {
  snapshot_slot = 7;
  minimum_append_vec_slot = some 4;
  accounts_db_fields = fields;
  entries = some accounts;
}

unboxed_iter_example :
    ((unboxed_iter memory archive).0 ≡ filter_map (round memory archive) accounts)
    × ((unboxed_iter memory (unboxed_iter memory archive).1).0 ≡ [])
unboxed_iter_example = unboxed_iter_lem memory archive

unboxed_iter-IsAccepted_example :
    All (Accepted memory-IsSound archive) (unboxed_iter memory archive).0
unboxed_iter-IsAccepted_example = unboxed_iter-IsAccepted memory-IsSound archive

abbrev readable : (path found : Str) → IsReadable (entry path found)
readable path found = record {
  entry = record { path = ok path; size = length found; contents = λ n. ok (take n found) };
  path = path;
  read = refl;
  path_read = refl;
}

accounts-Perm : Perm (filter_map name_of accounts) (listed fields.storages)
unfolding file_name parse_append_vec_name is_utf8
accounts-Perm = Perm.swap (3, 1) (5, 2) []

append_vec_count_hint_example :
    append_vec_count_hint archive ≡ some (length (unboxed_iter memory archive).0 % word)
append_vec_count_hint_example =
    append_vec_count_hint_lem archive memory
      (
        readable (bytes "accounts/5.2") (8 ∷ 9 ∷ []),
        (readable (bytes "accounts/3.1") (4 ∷ 6 ∷ 0 ∷ []), tt),
      )
      accounts-Perm

hint_of_archive : append_vec_count_hint archive ≡ some 1
unfolding append_vec_count_hint
hint_of_archive = refl

abbrev two_at_a_time : Read Bytes
two_at_a_time size found = ok (take 2 (take size found), drop 2 (drop (size - 2) found))

read_example :
    reads (read two_at_a_time) (4 ∷ 1 ∷ []) (new (1 ∷ 2 ∷ 3 ∷ []) 7 1 3)
    ≡ counted (new (1 ∷ 2 ∷ 3 ∷ []) 7 1 3) (reads two_at_a_time (4 ∷ 1 ∷ []) (1 ∷ 2 ∷ 3 ∷ []))
read_example = read_lem two_at_a_time (4 ∷ 1 ∷ []) (1 ∷ 2 ∷ 3 ∷ []) 7 1 3

-- A directory with the snapshots of slots 7 and 12.
abbrev file : FileView
file = record { opened = ok tt; metadata_len = ok 3; mapped = ok (4 ∷ 6 ∷ 0 ∷ []) }

abbrev fs : FileSystem
fs = record {
  is_file = λ path. true;
  read_dir = λ path.
      if eqb ⦃o = str_ord⦄ path (bytes "/s/snapshots")
      then ok (ok (bytes "7") ∷ ok (bytes "status_cache") ∷ ok (bytes "12") ∷ err (os 5) ∷ [])
      else ok (ok (bytes "3.1") ∷ ok (bytes "lost+found") ∷ []);
  open_file = λ path. ok (ok (12 ∷ []));
  metadata_len = λ path. ok 3;
  view = λ path. file;
}

file-MapsWhole : MapsWhole file
file-MapsWhole n bs e f = ground (arith, e, f)

abbrev root : Str
root = bytes "/s"

abbrev unpacked : UnpackedSnapshotExtractor
unpacked = record { root = root; snapshot_slot = 12; accounts_db_fields = fields }

abbrev tracker : Str → Reader → ℕ → Reader
tracker path reader len = reader

opened : open_unpacked fs (bytes "status_cache") tracker read_bank read_fields root ≡ ok unpacked
unfolding open_unpacked
opened = refl

open_unpacked_example :
    (entries : List (Result IoError Str)) × (latest : ℕ) × (fs.is_file
        (join (snapshots_dir root) (bytes "status_cache"))
      ≡ true)
    × (fs.read_dir (snapshots_dir root) ≡ ok entries)
    × IsGreatest (slots_of entries) latest
    × (fs.is_file (manifest_path root latest) ≡ true)
    × (read_manifest fs
          (bytes "status_cache")
          tracker
          read_bank
          read_fields
          root
          (manifest_path root latest)
        ≡ ok unpacked)
open_unpacked_example =
    open_unpacked-IsGreatest fs (bytes "status_cache") tracker read_bank read_fields root opened

unpacked_hint_example :
    (Unpacked.unboxed_iter fs unpacked ≡ elim (fs.read_dir (accounts_dir fs unpacked)) [
      | err why ↦ err (io_error why) ∷ []
      | ok entries ↦
          map
            (λ (slot, id, path). open_append_vec fs unpacked slot id path)
            (filter_map (parsed_file fs unpacked) entries)
    ])
    × (Unpacked.append_vec_count_hint fs unpacked ≡ elim (fs.read_dir (accounts_dir fs unpacked)) [
      | err why ↦ none
      | ok entries ↦ some (length (Unpacked.unboxed_iter fs unpacked))
    ])
unpacked_hint_example = unboxed_iter-append_vec_count_hint fs unpacked

unpacked_hint : Unpacked.append_vec_count_hint fs unpacked ≡ some 1
unfolding Unpacked.append_vec_count_hint is_utf8
unpacked_hint = refl

unpacked-IsAccepted_example :
    All
      (Discovery.Accepted fs unpacked (λ path. file-MapsWhole))
      (Unpacked.unboxed_iter fs unpacked)
unpacked-IsAccepted_example = unpacked-unboxed_iter-IsAccepted fs unpacked (λ path. file-MapsWhole)
