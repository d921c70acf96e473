-- ===== src/Incremental.antt =====
-- incremental.rs: discovery, selection and removal of snapshot archives. The directory and the
-- removal of a file are the operating system's; the parser of a complete file name is that of the
-- `solana_runtime` crate. Both are parameters.
pub mod Selection
pub mod Cleanup
pub mod Generations
use solana_snapshot_etl.Prelude.{
  ℕ, Ordering, compare, Bool, ◌&&◌, List, [], ◌∷◌, ◌++◌, length, drop, ◌-◌, Option, none, some, map,
  if◌then◌else◌, leb, ltb, filter, filter_map, ◌>>=◌,
}
use solana_snapshot_etl.Prelude.Order.{Ord, list_ord, nat_ord, then_with, eqb}
use solana_snapshot_etl.Prelude.Sort.{sort_by}
use solana_snapshot_etl.Prelude.Text.{Str, bytes}
use solana_snapshot_etl.Prelude.Result.{Result, ok, err}

-- A path is the sequence of its components, which is how paths are compared.
abbrev pub FilePath : Type 0
FilePath = List Str

abbrev pub path_ord : Ord FilePath
path_ord = list_ord

pub record IncrementalSnapshot : Type 0 where
  pub path : FilePath
  pub base_slot : ℕ
  pub slot : ℕ

pub record FullSnapshot : Type 0 where
  pub path : FilePath
  pub slot : ℕ

-- `ends_with`
abbrev pub ends_with : Str → Str → Bool
ends_with s suffix =
    leb (length suffix) (length s) && eqb (drop (length s - length suffix) s) suffix

-- The last component carries the end of a path's text.
abbrev pub file_name : FilePath → Str
file_name [] = []
file_name (c ∷ []) = c
file_name (c ∷ d ∷ cs) = file_name (d ∷ cs)

-- What the crate's parser reads from a file name.
pub record FullInfo : Type 0 where
  pub path : FilePath
  pub slot : ℕ

pub record IncrementalInfo : Type 0 where
  pub path : FilePath
  pub base_slot : ℕ
  pub slot : ℕ

pub record ArchiveNames : Type 0 where
  pub full : FilePath → Option FullInfo
  pub incremental : FilePath → Option IncrementalInfo

-- `FullSnapshot::from_path`
unfoldable pub full_from_path : ArchiveNames → FilePath → Option FullSnapshot
full_from_path names path =
    if ends_with (file_name path) (bytes ".tar.zst")
    then (names.full path >>= λ info. some (record { path = info.path; slot = info.slot }))
    else none

-- `IncrementalSnapshot::from_path`
unfoldable pub incremental_from_path : ArchiveNames → FilePath → Option IncrementalSnapshot
incremental_from_path names path =
    if ends_with (file_name path) (bytes ".tar.zst")
    then (names.incremental path >>= λ info.
        some (record { path = info.path; base_slot = info.base_slot; slot = info.slot }))
    else none

-- The kinds of I/O error that are told apart.
pub data FsError : Type 0 where
  not_found : FsError
  other : ℕ → FsError

-- One result of `read_dir`: an error, or a path and whether it is a regular file, if that is known.
pub record DirEntry : Type 0 where
  pub path : FilePath
  pub is_file : Result FsError Bool

abbrev pub keep_ok {ℓ} : {A : Type ℓ} → Result FsError A → Option A
keep_ok (ok a) = some a
keep_ok (err _) = none

abbrev pub regular_file : DirEntry → Option FilePath
regular_file entry = elim entry.is_file [
  | ok b ↦ if b then some entry.path else none
  | err _ ↦ none
]

-- The paths of the entries that can be read and are regular files.
abbrev pub regular_files : List (Result FsError DirEntry) → List FilePath
regular_files entries = filter_map regular_file (filter_map keep_ok entries)

abbrev pub Listing : Type 0
Listing = Result FsError (List (Result FsError DirEntry))

abbrev map_listing {ℓ} :
    {A : Type ℓ} → (List (Result FsError DirEntry) → A) → Listing → Result FsError A
map_listing f (ok entries) = ok (f entries)
map_listing f (err e) = err e

unfoldable pub discover : ArchiveNames → Listing → Result FsError (List IncrementalSnapshot)
unfolding incremental_from_path
discover names listing =
    map_listing (λ entries. filter_map (incremental_from_path names) (regular_files entries))
      listing

unfoldable pub discover_full : ArchiveNames → Listing → Result FsError (List FullSnapshot)
unfolding full_from_path
discover_full names listing =
    map_listing (λ entries. filter_map (full_from_path names) (regular_files entries)) listing

-- The furthest slot first, then the path.
abbrev pub prefer : ℕ × FilePath → ℕ × FilePath → Ordering
prefer left right = then_with (compare right.0 left.0) (path_ord.cmp left.1 right.1)

abbrev pub prefer_incremental : IncrementalSnapshot → IncrementalSnapshot → Ordering
prefer_incremental left right = prefer (left.slot, left.path) (right.slot, right.path)

abbrev pub prefer_full : FullSnapshot → FullSnapshot → Ordering
prefer_full left right = prefer (left.slot, left.path) (right.slot, right.path)

unfoldable pub eligible_candidates : List IncrementalSnapshot → ℕ → List IncrementalSnapshot
eligible_candidates snapshots last_processed_slot = sort_by prefer_incremental (
    filter
      (λ snapshot.
        leb snapshot.base_slot last_processed_slot && ltb last_processed_slot snapshot.slot)
      snapshots)

unfoldable pub eligible_full_candidates : List FullSnapshot → ℕ → List FullSnapshot
eligible_full_candidates snapshots last_processed_slot =
    sort_by prefer_full (filter (λ snapshot. ltb last_processed_slot snapshot.slot) snapshots)

-- A file system: what it lists, and what removing a file answers and leaves.
pub record FileSystem (S : Type 0) : Type 0 where
  pub read_dir : S → Listing
  pub remove_file : FilePath → S → Result FsError (Unit {0}) × S

module _ {S : Type 0} (fs : FileSystem S) where
  -- The loop over one kind of archive, each a path and a slot, behind the files removed so far.
  unfoldable pub remove_stale :
      List (ℕ × FilePath) → ℕ → List FilePath → S → Result FsError (List FilePath) × S
  remove_stale [] last removed s = (ok removed, s)
  remove_stale ((slot, path) ∷ snapshots) last removed s =
      let (answer, s') = fs.remove_file path s in
      let kept = remove_stale snapshots last removed s in
      let gone = remove_stale snapshots last (removed ++ path ∷ []) s' in
      let missing = remove_stale snapshots last removed s' in
      if leb slot last
      then elim answer [
        | ok _ ↦ gone
        | err e ↦ elim e [ not_found ↦ missing | other k ↦ (err (other k), s') ]
      ]
      else kept

  -- The second loop, on what the first one answered.
  unfoldable pub remove_fulls :
      ArchiveNames → ℕ → Result FsError (List FilePath) × S → Result FsError (List FilePath) × S
  unfolding remove_stale discover_full
  remove_fulls names last (err e, s) = (err e, s)
  remove_fulls names last (ok removed, s) = elim (discover_full names (fs.read_dir s)) [
    | err e ↦ (err e, s)
    | ok fulls ↦ remove_stale (map (λ x. (x.slot, x.path)) fulls) last removed s
  ]

  -- The directory is listed once for each kind: the second listing sees what the first loop left.
  unfoldable pub remove_processed : ArchiveNames → ℕ → S → Result FsError (List FilePath) × S
  unfolding remove_fulls discover
  remove_processed names last s = elim (discover names (fs.read_dir s)) [
    | err e ↦ (err e, s)
    | ok incrementals ↦
        remove_fulls names last (remove_stale (map (λ x. (x.slot, x.path)) incrementals) last [] s)
  ]
