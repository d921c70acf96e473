-- ===== src/Incremental/Cleanup.antt =====
-- incremental.rs `remove_processed`: only archives that cannot add data are removed.
use mathlib.Core.List.{Mem, mem-cons}
use mathlib.Core.Logic.Or
use solana_snapshot_etl.Prelude.{
  ℕ, ◌≤◌, ◌≡◌, refl, Bool, true, false, List, [], ◌∷◌, ◌++◌, map, All, Option, none, some, arith,
  filter_map, leb, if◌then◌else◌,
}
use solana_snapshot_etl.Prelude.Result.{Result, ok, err}
use solana_snapshot_etl.Incremental.{
  FilePath, FileSystem, FsError, not_found, other, ArchiveNames, IncrementalSnapshot, FullSnapshot,
  full_from_path, incremental_from_path, discover, discover_full, remove_stale, remove_fulls,
  remove_processed, Listing, DirEntry, regular_files,
}

-- A path that a listing of the directory has as a regular file, and whose name parses as a supported
-- archive that ends at or before `last`. The parsed record carries the path that is removed.
pub data Stale {S : Type 0} (fs : FileSystem S) (names : ArchiveNames) (last : ℕ) (path : FilePath)
    : Type 0 where
  incremental :
      (s : S) (entries : List (Result FsError DirEntry)) (found : FilePath)
      (x : IncrementalSnapshot)
      → fs.read_dir s ≡ ok entries
      → Mem found (regular_files entries)
      → incremental_from_path names found ≡ some x
      → x.path ≡ path
      → x.slot ≤ last
      → Stale fs names last path
  full :
      (s : S) (entries : List (Result FsError DirEntry)) (found : FilePath) (x : FullSnapshot)
      → fs.read_dir s ≡ ok entries
      → Mem found (regular_files entries)
      → full_from_path names found ≡ some x
      → x.path ≡ path
      → x.slot ≤ last
      → Stale fs names last path

-- Each entry whose slot has been passed is one that may be removed.
abbrev Allowed : (FilePath → Type 0) → ℕ → List (ℕ × FilePath) → Type 0
Allowed P last entries = All (λ e. e.0 ≤ last → P e.1) entries

-- The entries of a listing, if there is one, as slots and paths.
abbrev AllowedIn {ℓ} :
    {A : Type ℓ} → (A → ℕ × FilePath) → (FilePath → Type 0) → ℕ → Result FsError (List A) → Type 0
AllowedIn f P last (ok found) = Allowed P last (map f found)
AllowedIn f P last (err _) = Unit

-- What one removal leaves behind the paths that were removed before it: a file that was removed is the
-- next of them.
abbrev pub Left :
    {S : Type 0}
    → (List FilePath → S → Type 0)
    → List FilePath
    → FilePath
    → Result FsError (Unit {0}) × S
    → Type 0
Left Keeps removed path (ok _, s) = Keeps (removed ++ path ∷ []) s
Left Keeps removed path (err _, s) = Keeps removed s

-- What holds of the answer: it is the list of the removed paths, or an error behind some of them.
abbrev pub Removed :
    {S : Type 0}
    → (List FilePath → S → Type 0)
    → (FilePath → Type 0)
    → Result FsError (List FilePath) × S
    → Type 0
Removed Keeps P (ok paths, s) = All P paths × Keeps paths s
Removed Keeps P (err _, s) = (paths : List FilePath) × All P paths × Keeps paths s

All-snoc :
    (P : FilePath → Type 0) (xs : List FilePath) (y : FilePath)
    → All P xs
    → P y
    → All P (xs ++ y ∷ [])
All-snoc P [] y a p = (p, tt)
All-snoc P (x ∷ xs) y a p = (a.0, All-snoc P xs y a.1 p)

module _ {S : Type 0} (fs : FileSystem S) (P : FilePath → Type 0)
    (Keeps : List FilePath → S → Type 0)
    (keep : (path : FilePath) (removed : List FilePath) (s : S)
      → P path
      → Keeps removed s
      → Left Keeps removed path (fs.remove_file path s)) where
  -- The rest of the loop, behind the removal of one file.
  abbrev Rest : List (ℕ × FilePath) → ℕ → Type 0
  Rest entries last =
      (gone : List FilePath) (t : S)
      → All P gone
      → Keeps gone t
      → Removed Keeps P (remove_stale fs entries last gone t)

  remove_stale-Removed :
      (entries : List (ℕ × FilePath)) (last : ℕ) (removed : List FilePath) (s : S)
      → Allowed P last entries
      → All P removed
      → Keeps removed s
      → Removed Keeps P (remove_stale fs entries last removed s)
  unfolding remove_stale
  remove_stale-Removed [] last removed s al r k = (r, k)
  remove_stale-Removed ((slot, path) ∷ entries) last removed s al r k =
      passed (λ gone t. remove_stale-Removed entries last gone t al.1) (leb slot last) refl
    where
      answered :
          Rest entries last
          → (a : Result FsError (Unit {0}) × S) → P path
          → Left Keeps removed path a
          → Removed Keeps P (elim a.0 as (λ _. Result FsError (List FilePath) × S) [
            | ok _ ↦ remove_stale fs entries last (removed ++ path ∷ []) a.1
            | err e ↦ elim e as (λ _. Result FsError (List FilePath) × S) [
              | not_found ↦ remove_stale fs entries last removed a.1
              | other n ↦ (err (other n), a.1)
            ]
          ])
      answered rest (ok _, t) p l = rest (removed ++ path ∷ []) t (All-snoc P removed path r p) l
      answered rest (err not_found, t) p l = rest removed t r l
      answered rest (err (other n), t) p l = (removed, r, l)

      passed :
          Rest entries last
          → (b : Bool) → leb slot last ≡ b
          → Removed Keeps P (
              if b
              then elim (fs.remove_file path s).0 as (λ _. Result FsError (List FilePath) × S) [
                | ok _ ↦
                    remove_stale fs entries last (removed ++ path ∷ []) (fs.remove_file path s).1
                | err e ↦ elim e as (λ _. Result FsError (List FilePath) × S) [
                  | not_found ↦ remove_stale fs entries last removed (fs.remove_file path s).1
                  | other n ↦ (err (other n), (fs.remove_file path s).1)
                ]
              ]
              else remove_stale fs entries last removed s)
      passed rest false e = rest removed s r k
      passed rest true e =
          let p : P path = al.0 (ground (arith, e)) in
          answered rest (fs.remove_file path s) p (keep path removed s p k)

All-filter_map {ℓ κ μ} :
    {A : Type ℓ} {B : Type κ} (P : B → Type μ) (f : A → Option B) (xs : List A)
    → ((x : A) (b : B) → Mem x xs → f x ≡ some b → P b)
    → All P (filter_map f xs)
All-filter_map P f [] h = tt
All-filter_map P f (x ∷ xs) h =
    go (f x) refl (All-filter_map P f xs (λ y b m. h y b (mem-cons.1 (Or.inr m))))
  where
    go :
        (o : Option _)
        → f x ≡ o
        → All P (filter_map f xs)
        → All P (elim o [ none ↦ filter_map f xs | some b ↦ b ∷ filter_map f xs ])
    go none e rest = rest
    go (some b) e rest = (h x b (mem-cons.1 (Or.inl refl)) e, rest)

All-map {ℓ κ μ} :
    {A : Type ℓ} {B : Type κ} (P : B → Type μ) (f : A → B) (xs : List A)
    → All (λ x. P (f x)) xs
    → All P (map f xs)
All-map P f [] a = tt
All-map P f (x ∷ xs) a = (a.0, All-map P f xs a.1)

module _ {S : Type 0} (fs : FileSystem S) (names : ArchiveNames) (last : ℕ) where
  discover-AllowedIn :
      (s : S) (listing : Listing)
      → fs.read_dir s ≡ listing
      → AllowedIn (λ x. (x.slot, x.path)) (Stale fs names last) last (discover names listing)
  unfolding discover
  discover-AllowedIn s (err x) e = tt
  discover-AllowedIn s (ok entries) e =
      All-map (λ e. e.0 ≤ last → Stale fs names last e.1)
        (λ (x : IncrementalSnapshot). (x.slot, x.path)) _
        (All-filter_map (λ x. x.slot ≤ last → Stale fs names last x.path)
          (incremental_from_path names) (regular_files entries)
          (λ path x m p le. incremental s entries path x e m p refl le))

  discover_full-AllowedIn :
      (s : S) (listing : Listing)
      → fs.read_dir s ≡ listing
      → AllowedIn (λ x. (x.slot, x.path)) (Stale fs names last) last (discover_full names listing)
  unfolding discover_full
  discover_full-AllowedIn s (err x) e = tt
  discover_full-AllowedIn s (ok entries) e =
      All-map (λ e. e.0 ≤ last → Stale fs names last e.1) (λ (x : FullSnapshot). (x.slot, x.path)) _
        (All-filter_map (λ x. x.slot ≤ last → Stale fs names last x.path) (full_from_path names)
          (regular_files entries) (λ path x m p le. full s entries path x e m p refl le))

  module _ (Keeps : List FilePath → S → Type 0)
      (keep : (path : FilePath) (removed : List FilePath) (s : S)
        → Stale fs names last path
        → Keeps removed s
        → Left Keeps removed path (fs.remove_file path s)) where
    abbrev Good : Result FsError (List FilePath) × S → Type 0
    Good r = Removed Keeps (Stale fs names last) r

    remove_fulls-Good :
        (r : Result FsError (List FilePath) × S) → Good r → Good (remove_fulls fs names last r)
    unfolding remove_fulls
    remove_fulls-Good (err x, s) g = g
    remove_fulls-Good (ok removed, s) g =
        go (discover_full names (fs.read_dir s)) (discover_full-AllowedIn s (fs.read_dir s) refl)
      where
        go :
            (r : Result FsError (List FullSnapshot))
            → AllowedIn (λ x. (x.slot, x.path)) (Stale fs names last) last r
            → Good (elim r [
              | err e ↦ (err e, s)
              | ok fulls ↦ remove_stale fs (map (λ x. (x.slot, x.path)) fulls) last removed s
            ])
        go (err e) a = (removed, g.0, g.1)
        go (ok fulls) a =
            remove_stale-Removed fs (Stale fs names last) Keeps keep
              (map (λ (x : FullSnapshot). (x.slot, x.path)) fulls) last removed s a g.0 g.1

    -- `remove_processed` changes the file system by removing, one after the other, paths that a
    -- listing has as regular files, whose names parse as archives and whose slot is at or before
    -- `last`, and in no other way; the paths that it answers with are exactly those it removed, in
    -- their order, and behind an error the removed ones are such paths too.
    pub remove_processed-Stale :
        (s : S)
        → Keeps [] s
        → Removed Keeps (Stale fs names last) (remove_processed fs names last s)
    unfolding remove_processed
    remove_processed-Stale s k =
        go (discover names (fs.read_dir s)) (discover-AllowedIn s (fs.read_dir s) refl)
      where
        go :
            (r : Result FsError (List IncrementalSnapshot))
            → AllowedIn (λ x. (x.slot, x.path)) (Stale fs names last) last r
            → Good (elim r [
              | err e ↦ (err e, s)
              | ok incrementals ↦
                  remove_fulls fs names last
                    (remove_stale fs (map (λ x. (x.slot, x.path)) incrementals) last [] s)
            ])
        go (err e) a = ([], tt, k)
        go (ok incrementals) a = remove_fulls-Good _ (
            remove_stale-Removed fs (Stale fs names last) Keeps keep
              (map (λ (x : IncrementalSnapshot). (x.slot, x.path)) incrementals) last [] s a tt k)
