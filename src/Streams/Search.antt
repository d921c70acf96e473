-- ===== src/Streams/Search.antt =====
-- archived.rs `from_reader`: what is found before the manifest decides.
use solana_snapshot_etl.Prelude.{ℕ, ◌≡◌, refl, true, false, [], ◌∷◌, ◌++◌, none, some, All}
use solana_snapshot_etl.Prelude.Text.{Str}
use solana_snapshot_etl.Prelude.Result.{Result, ok, err, ◌>>=◌}
use solana_snapshot_etl.AppendVec.{IoError}
use solana_snapshot_etl.Streams.{
  SnapshotError, io_error, unexpected_append_vec, no_snapshot_manifest, bincode, Manifest,
  Deserializer, deserialize_from,
}
use solana_snapshot_etl.Streams.Paths.{is_snapshot_manifest_file, is_appendvec_file}
use solana_snapshot_etl.Streams.Archived.{
  Entry, Entries, ArchiveSnapshotExtractor, search, from_reader,
}

-- An entry that is read, and is neither the manifest nor an AppendVec.
pub record IsOther (e : Result IoError Entry) : Type 0 where
  pub entry : Entry
  pub path : Str
  pub read : e ≡ ok entry
  pub path_read : entry.path ≡ ok path
  pub not_manifest : is_snapshot_manifest_file path ≡ false
  pub not_append_vec : is_appendvec_file path ≡ false

search-others : (others rest : Entries) → All IsOther others → search (others ++ rest) ≡ search rest
unfolding search
search-others [] rest h = refl
search-others (e ∷ others) rest (h, hs) =
    rw (h.read, h.path_read, h.not_manifest, h.not_append_vec, search-others others rest hs)

-- What decides, after the other entries.
pub data Decides : Type 0 where
  manifest append_vec : Entry → Str → Decides
  failed : IoError → Decides
  unreadable : Entry → IoError → Decides
  ended : Decides

-- Where it stands in the archive, and that it is what it is called.
abbrev pub Stands : Decides → Entries → Entries → Type 0
Stands (manifest entry path) rest after =
    (rest ≡ ok entry ∷ after) × (entry.path ≡ ok path) × (is_snapshot_manifest_file path ≡ true)
Stands (append_vec entry path) rest after =
    (rest ≡ ok entry ∷ after)
    × (entry.path ≡ ok path)
    × (is_snapshot_manifest_file path ≡ false)
    × (is_appendvec_file path ≡ true)
Stands (failed why) rest after = rest ≡ err why ∷ after
Stands (unreadable entry why) rest after = (rest ≡ ok entry ∷ after) × (entry.path ≡ err why)
Stands ended rest after = rest ≡ []

module _ (read_bank : Deserializer ℕ) (read_fields : Deserializer Manifest) where
  abbrev pub outcome : Decides → Entries → Result SnapshotError ArchiveSnapshotExtractor
  outcome (manifest entry path) after = do
    (slot, reader) ← bincode (deserialize_from read_bank (entry.contents entry.size))
    (fields, _) ← bincode (deserialize_from read_fields reader)
    ok (record {
      snapshot_slot = slot;
      minimum_append_vec_slot = none;
      accounts_db_fields = fields;
      entries = some after;
    })
  outcome (append_vec entry path) after = err unexpected_append_vec
  outcome (failed why) after = err (io_error why)
  outcome (unreadable entry why) after = err (io_error why)
  outcome ended after = err no_snapshot_manifest

  -- Opening a stream whose entries start with `others`, none of which is the manifest or an
  -- AppendVec: the entry after them decides. From the manifest the slot and the fields are read, no
  -- slot is excluded and the entries after it are kept for the iteration; an AppendVec is refused,
  -- an error is passed on, and at the end of the stream the manifest is missing.
  pub from_reader_lem :
      (others rest after : Entries) (decides : Decides)
      → All IsOther others
      → Stands decides rest after
      → from_reader read_bank read_fields
          (record { decoder = ok tt; entries = ok (others ++ rest) })
        ≡ outcome decides after
  unfolding from_reader search
  from_reader_lem others rest after (manifest entry path) h (e, p, m) =
      rw (search-others others rest h, e, p, m)
  from_reader_lem others rest after (append_vec entry path) h (e, p, m, a) =
      rw (search-others others rest h, e, p, m, a)
  from_reader_lem others rest after (failed why) h e = rw (search-others others rest h, e)
  from_reader_lem others rest after (unreadable entry why) h (e, p) =
      rw (search-others others rest h, e, p)
  from_reader_lem others rest after ended h e = rw (search-others others rest h, e)
