-- ===== src/Streams/Discovery.antt =====
-- unpacked.rs: which manifest `open` reads, and what the iteration yields.
use mathlib.Core.List.{Mem, mem-cons}
use mathlib.Core.Logic.Or
use native.Mathlib.Decide.{dec_le}
use solana_snapshot_etl.Prelude.{
  ℕ, ◌≤◌, ◌≡◌, refl, ap, sym, ◌∙◌, subst, true, max, List, [], ◌∷◌, Option, none, some, All,
  All-imp, arith, filter_map, filter, length, length-map, map, is_some, Option-cases, Bool-cases,
  inl, inr,
}
use solana_snapshot_etl.Prelude.Text.{Str}
use solana_snapshot_etl.Prelude.Result.{Result, ok, err, map_err, >>=-eq-ok, Result-cases}
use solana_snapshot_etl.AppendVec.{AppendVec, IoError}
use solana_snapshot_etl.AppendVec.Open.{MapsWhole, new_from_file-IsValid}
use solana_snapshot_etl.AppendVec.Name.{parse_append_vec_name}
use solana_snapshot_etl.Streams.{
  SnapshotError, io_error, no_snapshot_manifest, io, Manifest, Reader, Deserializer,
  SerializableAccountStorageEntry, known_vec,
}
use solana_snapshot_etl.Streams.Paths.{join}
use solana_snapshot_etl.Streams.Archived.{ok_or, should_process_append_vec_slot}
use solana_snapshot_etl.Streams.Unpacked.{
  FileSystem, UnpackedSnapshotExtractor, ok?, maximum, slots_of, snapshots_dir, manifest_path,
  read_manifest, open_unpacked, open_append_vec, accounts_dir, parsed_file, iter_streams,
  unboxed_iter, append_vec_count_hint,
}
use solana_snapshot_etl.Streams.Yields.{IsAccepted, IsAccepted-ok, io-eq-ok, ok_or-eq-ok}

-- A number of the list that no other is above.
pub record IsGreatest (ns : List ℕ) (m : ℕ) : Type 0 where
  pub member : Mem m ns
  pub above : All (λ n. n ≤ m) ns

-- What `maximum` promises of each answer.
abbrev Greatest : List ℕ → Option ℕ → Type 0
Greatest ns none = ns ≡ []
Greatest ns (some m) = IsGreatest ns m

cons-Greatest :
    (n : ℕ) (ns : List ℕ) (o : Option ℕ)
    → Greatest ns o
    → Greatest (n ∷ ns) (elim o [ none ↦ some n | some m ↦ some (max n m) ])
cons-Greatest n ns none e = record {
  member = mem-cons.1 (Or.inl refl);
  above = (omega arith, subst (All (λ k. k ≤ n)) (sym e) tt);
}
cons-Greatest n ns (some m) h = elim (dec_le n m) [
  | yes le ↦
      let e : m ≡ max n m = omega arith in
      subst (IsGreatest (n ∷ ns)) e
        (record { member = mem-cons.1 (Or.inr h.member); above = (le, h.above) })
  | no gt ↦
      let e : n ≡ max n m = omega arith in
      let below : All (λ k. k ≤ n) ns = All-imp ns (λ k k≤m. omega arith) h.above in
      subst (IsGreatest (n ∷ ns)) e
        (record { member = mem-cons.1 (Or.inl refl); above = (omega arith, below) })
]

maximum-Greatest : (ns : List ℕ) → Greatest ns (maximum ns)
maximum-Greatest [] = refl
maximum-Greatest (n ∷ ns) = cons-Greatest n ns (maximum ns) (maximum-Greatest ns)

maximum-IsGreatest : (ns : List ℕ) (m : ℕ) → maximum ns ≡ some m → IsGreatest ns m
maximum-IsGreatest ns m e = subst (Greatest ns) e (maximum-Greatest ns)

module _ (fs : FileSystem) (status_cache_filename : Str) (tracker : Str → Reader → ℕ → Reader)
    (read_bank : Deserializer ℕ) (read_fields : Deserializer Manifest) (path : Str) where
  -- A snapshot that opens has a status cache, and the manifest that was read is the one of the
  -- greatest slot that names an entry of its `snapshots`.
  pub open_unpacked-IsGreatest :
      {x : UnpackedSnapshotExtractor}
      → open_unpacked fs status_cache_filename tracker read_bank read_fields path ≡ ok x
      → (entries : List (Result IoError Str)) × (latest : ℕ) × (fs.is_file
            (join (snapshots_dir path) status_cache_filename)
          ≡ true)
        × (fs.read_dir (snapshots_dir path) ≡ ok entries)
        × IsGreatest (slots_of entries) latest
        × (fs.is_file (manifest_path path latest) ≡ true)
        × (read_manifest fs status_cache_filename tracker read_bank read_fields path
              (manifest_path path latest)
            ≡ ok x)
  unfolding open_unpacked
  open_unpacked-IsGreatest e =
      elim (Bool-cases (fs.is_file (join (snapshots_dir path) status_cache_filename))) [
        | inr without ↦ let impossible = rw without at e in cc
        | inl cached ↦
            let opened = rw cached at e in
            let (entries, listed, e1) =
              >>=-eq-ok (io (fs.read_dir (snapshots_dir path))) _ opened in
            let (latest, greatest, e2) =
              >>=-eq-ok (ok_or (maximum (slots_of entries)) no_snapshot_manifest) _ e1 in
            elim (Bool-cases (fs.is_file (manifest_path path latest))) [
              | inr without ↦ let impossible = rw without at e2 in cc
              | inl there ↦ (
                entries,
                latest,
                cached,
                io-eq-ok _ listed,
                maximum-IsGreatest _ _ (ok_or-eq-ok _ _ greatest),
                there,
                rw there at e2,
              )
            ]
      ]

map_err-eq-ok :
    {A : Type 0} (f : IoError → IoError) (r : Result IoError A) {a : A}
    → map_err f r ≡ ok a
    → r ≡ ok a
map_err-eq-ok f (ok b) e = cc
map_err-eq-ok f (err b) e = cc

module _ (fs : FileSystem) (x : UnpackedSnapshotExtractor) where
  length-parsed_file :
      (entries : List (Result IoError Str))
      → length (filter (λ name. is_some (parse_append_vec_name name)) (filter_map ok? entries))
        ≡ length (filter_map (parsed_file fs x) entries)
  length-parsed_file [] = refl
  length-parsed_file (err why ∷ entries) = length-parsed_file entries
  length-parsed_file (ok name ∷ entries) = ground (arith, length-parsed_file entries)

  unboxed_iter_lem : unboxed_iter fs x ≡ elim (fs.read_dir (accounts_dir fs x)) [
    | err why ↦ err (io_error why) ∷ []
    | ok entries ↦
        map
          (λ (slot, id, path). open_append_vec fs x slot id path)
          (filter_map (parsed_file fs x) entries)
  ]
  unfolding unboxed_iter iter_streams
  unboxed_iter_lem = elim (Result-cases (fs.read_dir (accounts_dir fs x))) [
    | inl (why, e) ↦ rw (e, unboxed_iter, iter_streams) refl
    | inr (entries, e) ↦ rw (e, unboxed_iter, iter_streams) refl
  ]

  -- Every file of the accounts directory that is named as an AppendVec is opened, in the order of
  -- the directory, and the hint is their number. Where the directory is not read, that error is the
  -- one item, and there is no hint.
  pub unboxed_iter-append_vec_count_hint :
      (unboxed_iter fs x ≡ elim (fs.read_dir (accounts_dir fs x)) [
        | err why ↦ err (io_error why) ∷ []
        | ok entries ↦
            map
              (λ (slot, id, path). open_append_vec fs x slot id path)
              (filter_map (parsed_file fs x) entries)
      ])
      × (append_vec_count_hint fs x ≡ elim (fs.read_dir (accounts_dir fs x)) [
        | err why ↦ none
        | ok entries ↦ some (length (unboxed_iter fs x))
      ])
  unfolding append_vec_count_hint
  unboxed_iter-append_vec_count_hint = (
    unboxed_iter_lem,
    elim (Result-cases (fs.read_dir (accounts_dir fs x))) [
      | inl (why, e) ↦ rw (e, append_vec_count_hint) refl
      | inr (entries, e) ↦
          let items = rw e at unboxed_iter_lem in
          rw (e, append_vec_count_hint)
            (ap some (
              length-parsed_file entries
              ∙ sym (
                  length-map (λ (slot, id, path). open_append_vec fs x slot id path)
                    (filter_map (parsed_file fs x) entries))
              ∙ ap length (sym items)))
    ],
  )

  module _ (whole : (path : Str) → MapsWhole (fs.view path)) where
    abbrev pub Accepted : Result SnapshotError AppendVec → Type 0
    Accepted = IsAccepted x.accounts_db_fields none

    open_append_vec-IsAccepted :
        (slot id : ℕ) (path : Str) → Accepted (open_append_vec fs x slot id path)
    unfolding open_append_vec should_process_append_vec_slot
    open_append_vec-IsAccepted slot id path =
        elim (Option-cases (known_vec x.accounts_db_fields slot id)) [
          | inl e ↦ rw (e, open_append_vec) tt
          | inr (vec, e) ↦ IsAccepted-ok _ _ (open_append_vec fs x slot id path) λ v opened.
              let len = SerializableAccountStorageEntry.accounts_current_len vec in
              let (_, _, e1) =
                >>=-eq-ok (io (fs.metadata_len path)) _ (rw (e, open_append_vec) at opened) in
              let (valid, es, ei, el, _, _) =
                new_from_file-IsValid (fs.view path) len slot id (whole path)
                  (map_err-eq-ok _ _ (io-eq-ok _ e1)) in
              (
                valid,
                record {
                  entry = vec;
                  known =
                      ap (λ k. known_vec x.accounts_db_fields k v.id) es
                      ∙ ap (known_vec x.accounts_db_fields slot) ei
                      ∙ e;
                  sized = el;
                  processed = tt;
                },
              )
        ]

    map-IsAccepted :
        (files : List (ℕ × ℕ × Str))
        → All Accepted (map (λ (slot, id, path). open_append_vec fs x slot id path) files)
    map-IsAccepted [] = tt
    map-IsAccepted ((slot, id, path) ∷ files) =
        (open_append_vec-IsAccepted slot id path, map-IsAccepted files)

    -- Where a map of a file covers it, every AppendVec of the iteration is well formed and stands
    -- in the manifest under its slot and its id with its length.
    pub unpacked-unboxed_iter-IsAccepted : All Accepted (unboxed_iter fs x)
    unpacked-unboxed_iter-IsAccepted = elim (Result-cases (fs.read_dir (accounts_dir fs x))) [
      | inl (why, e) ↦ subst (All Accepted) (sym (rw e at unboxed_iter_lem)) (tt, tt)
      | inr (entries, e) ↦
          subst (All Accepted) (sym (rw e at unboxed_iter_lem))
            (map-IsAccepted (filter_map (parsed_file fs x) entries))
    ]
