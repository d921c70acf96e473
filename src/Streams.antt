-- ===== src/Streams.antt =====
-- lib.rs and solana.rs: the errors of a snapshot, its manifest, and what both extractors promise.
-- bincode reads the manifest, so its deserializers are parameters, and a map is an association list.
pub mod Paths
pub mod Printed
pub mod Archived
pub mod Search
pub mod Yields
pub mod Count
pub mod Unpacked
pub mod Discovery
pub mod Progress
use solana_snapshot_etl.Prelude.{ℕ, ◌+◌, ◌*◌, ◌%◌, List, [], ◌∷◌, ◌==◌, Option, find, unwrap_or}
use solana_snapshot_etl.Prelude.Order.{nat_ord}
use solana_snapshot_etl.Prelude.Map.{get}
use solana_snapshot_etl.Prelude.Result.{Result, ok, err, word}
use solana_snapshot_etl.AppendVec.{AppendVec, Bytes, IoError}

-- A bincode error is told by a number.
pub data SnapshotError : Type 0 where
  io_error : IoError → SnapshotError
  bincode_error : ℕ → SnapshotError
  no_status_cache no_snapshot_manifest unexpected_append_vec : SnapshotError

-- `?` on an I/O result and on a result of bincode.
abbrev pub io {ℓ} : {A : Type ℓ} → Result IoError A → Result SnapshotError A
io (ok a) = ok a
io (err e) = err (io_error e)

abbrev pub bincode {ℓ} : {A : Type ℓ} → Result ℕ A → Result SnapshotError A
bincode (ok a) = ok a
bincode (err e) = err (bincode_error e)

pub record SerializableAccountStorageEntry : Type 0 where
  pub id : ℕ
  pub accounts_current_len : ℕ

-- The fields of the tuple struct in its order; `bank_hash_info` is the validator's and stays bytes.
pub record AccountsDbFields (T : Type 0) : Type 0 where
  pub storages : List (ℕ × List T)
  pub write_version : ℕ
  pub slot : ℕ
  pub bank_hash_info : Bytes
  pub roots : List ℕ
  pub roots_with_hash : List (ℕ × Bytes)

abbrev pub Manifest : Type 0
Manifest = AccountsDbFields SerializableAccountStorageEntry

abbrev pub max_stream_size : ℕ
max_stream_size = 32 * 1024 * 1024 * 1024

-- A reader is what it yields until its end, or the error that it ends in.
abbrev pub Reader : Type 0
Reader = Result IoError Bytes

-- bincode, with its limit: the value that it reads, and what is left of the reader.
abbrev pub Deserializer : Type 0 → Type 0
Deserializer T = ℕ → Reader → Result ℕ (T × Reader)

unfoldable pub deserialize_from : {T : Type 0} → Deserializer T → Reader → Result ℕ (T × Reader)
deserialize_from deserialize reader = deserialize max_stream_size reader

-- The manifest's record of the storage file `<slot>.<id>`.
unfoldable pub known_vec : Manifest → ℕ → ℕ → Option SerializableAccountStorageEntry
known_vec fields slot id =
    let known_vecs = unwrap_or (get slot fields.storages) [] in
    find (λ entry. SerializableAccountStorageEntry.id entry == id) known_vecs

-- The operating system's anonymous memory maps.
pub record Memory : Type 0 where
  pub map_anon : ℕ → Result IoError Bytes
  pub make_read_only : Bytes → Result IoError Bytes

-- `Iterator::sum` of `u64`s, which wraps.
abbrev pub sum : List ℕ → ℕ
sum [] = 0
sum (n ∷ ns) = (n + sum ns) % word

-- What the importer asks of a snapshot. `iter` may use the extractor up, so it returns what is left.
pub record SnapshotExtractor (S : Type 0) : Type 0 where
  pub iter : S → List (Result SnapshotError AppendVec) × S
  pub snapshot_slot : S → ℕ
  pub append_vec_count_hint : S → Option ℕ
