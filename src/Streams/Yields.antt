-- ===== src/Streams/Yields.antt =====
-- archived.rs and unpacked.rs: what an iteration yields, and that each AppendVec of it is sound.
use solana_snapshot_etl.Prelude.{
  ℕ, zero, suc, ◌+◌, ◌≤◌, ◌<◌, ◌≡◌, refl, ap, sym, subst, ◌∙◌, true, [], ◌∷◌, Option, none, some,
  All, arith, Option-cases, Bool-cases, inl, inr, filter_map, filter_map-eq, length, if◌then◌else◌,
  unwrap_or, ◌>>=◌ as and_then, take,
}
use solana_snapshot_etl.Prelude.Result.{Result, ok, err, word, >>=-eq-ok}
use solana_snapshot_etl.AppendVec.{AppendVec, IoError, new_from_reader, Bytes, copy_over}
use solana_snapshot_etl.AppendVec.Bounds.{IsValid}
use solana_snapshot_etl.AppendVec.Open.{length-copy_over}
use solana_snapshot_etl.AppendVec.Name.{parse_append_vec_name}
use solana_snapshot_etl.Streams.{
  SnapshotError, io_error, unexpected_append_vec, Manifest, SerializableAccountStorageEntry,
  known_vec, Memory, io,
}
use solana_snapshot_etl.Streams.Paths.{file_name}
use solana_snapshot_etl.Streams.Archived.{
  Entry, Entries, ArchiveSnapshotExtractor, process_entry, next, collect, unboxed_iter,
  should_process_append_vec_slot, ok_or,
}

-- An anonymous map has the length asked for, which fits the address space, and making it read-only
-- keeps it.
pub record IsSound (memory : Memory) : Type 0 where
  pub sized : (n : ℕ) (bs : Bytes) → memory.map_anon n ≡ ok bs → (length bs ≡ n) × (n + 8 ≤ word)
  pub kept : (bs cs : Bytes) → memory.make_read_only bs ≡ ok cs → cs ≡ bs

module _ (memory : Memory) (x : ArchiveSnapshotExtractor) where
  -- What one entry contributes, whatever stands around it.
  abbrev pub round : Result IoError Entry → Option (Result SnapshotError AppendVec)
  round (err why) = some (err (io_error why))
  round (ok entry) = elim entry.path [
    | err why ↦ some (err (io_error why))
    | ok path ↦ and_then (and_then (file_name path) parse_append_vec_name) λ (slot, id).
        if should_process_append_vec_slot x.minimum_append_vec_slot slot
        then some (process_entry memory x entry slot id)
        else none
  ]

  next-cons :
      (e : Result IoError Entry) (es : Entries)
      → next memory x (e ∷ es)
        ≡ elim (round e) [ none ↦ next memory x es | some item ↦ some (item, es) ]
  unfolding next
  next-cons (err why) es = refl
  next-cons (ok entry) es = ground arith

  next-round :
      (e : Result IoError Entry) (es : Entries) {o : Option (Result SnapshotError AppendVec)}
      → round e ≡ o
      → next memory x (e ∷ es) ≡ elim o [ none ↦ next memory x es | some item ↦ some (item, es) ]
  next-round e es r =
      next-cons e es ∙ ap (λ o. elim o [ none ↦ next memory x es | some item ↦ some (item, es) ]) r

  collect-suc :
      (fuel : ℕ) (es : Entries) {o : Option (Result SnapshotError AppendVec × Entries)}
      → next memory x es ≡ o
      → collect memory x (suc fuel) es
        ≡ elim o [ none ↦ [] | some (item, rest) ↦ item ∷ collect memory x fuel rest ]
  unfolding collect
  collect-suc fuel es =
      ap λ o. elim o [ none ↦ [] | some (item, rest) ↦ item ∷ collect memory x fuel rest ]

  collect-round :
      (fuel : ℕ) (es : Entries) → length es ≤ fuel → collect memory x fuel es ≡ filter_map round es
  unfolding collect
  collect-round zero [] h = refl
  collect-round zero (e ∷ es) h = absurd (omega arith)
  collect-round (suc fuel) [] h = refl
  collect-round (suc fuel) (e ∷ es) h = elim (Option-cases (round e)) [
    | inl r ↦
        collect-suc fuel (e ∷ es) (next-round e es r)
        ∙ collect-round (suc fuel) es (omega arith)
        ∙ sym (filter_map-eq round e es r)
    | inr (item, r) ↦
        collect-suc fuel (e ∷ es) (next-round e es r)
        ∙ ap (◌∷◌ item) (collect-round fuel es (omega arith))
        ∙ sym (filter_map-eq round e es r)
  ]

  -- The iteration ends, and yields what each entry contributes, in the order of the archive: an
  -- error for one that is not read, the AppendVec of one whose name is `<slot>.<id>` with a slot
  -- that is to be processed, and nothing for another. A second iteration yields nothing.
  pub unboxed_iter_lem :
      let (items, used) = unboxed_iter memory x in
      (items ≡ filter_map round (unwrap_or x.entries [])) × ((unboxed_iter memory used).0 ≡ [])
  unfolding unboxed_iter collect
  unboxed_iter_lem =
      let es = unwrap_or x.entries [] in (collect-round (length es) es (omega arith), refl)

-- Later than the minimum, if one was set.
abbrev pub Beyond : Option ℕ → ℕ → Type 0
Beyond none slot = Unit
Beyond (some minimum) slot = minimum < slot

should_process_append_vec_slot-Beyond :
    (minimum : Option ℕ) (slot : ℕ)
    → should_process_append_vec_slot minimum slot ≡ true
    → Beyond minimum slot
unfolding should_process_append_vec_slot
should_process_append_vec_slot-Beyond none slot h = tt
should_process_append_vec_slot-Beyond (some minimum) slot h = ground (arith, h)

-- The manifest records a file with this slot, id and length, and the slot is beyond the minimum.
pub record IsRecorded (fields : Manifest) (minimum : Option ℕ) (v : AppendVec) : Type 0 where
  pub entry : SerializableAccountStorageEntry
  pub known : known_vec fields v.slot v.id ≡ some entry
  pub sized : v.current_len ≡ entry.accounts_current_len
  pub processed : Beyond minimum v.slot

-- An item is an error, or an AppendVec that is well formed and recorded.
abbrev pub IsAccepted : Manifest → Option ℕ → Result SnapshotError AppendVec → Type 0
IsAccepted fields minimum (err why) = Unit
IsAccepted fields minimum (ok v) = IsValid v × IsRecorded fields minimum v

pub IsAccepted-ok :
    (fields : Manifest) (minimum : Option ℕ) (r : Result SnapshotError AppendVec)
    → ((v : AppendVec) → r ≡ ok v → IsAccepted fields minimum (ok v))
    → IsAccepted fields minimum r
IsAccepted-ok fields minimum (err why) f = tt
IsAccepted-ok fields minimum (ok v) f = f v refl

pub io-eq-ok : {A : Type 0} (r : Result IoError A) {a : A} → io r ≡ ok a → r ≡ ok a
io-eq-ok (ok b) e = cc
io-eq-ok (err b) e = cc

pub ok_or-eq-ok :
    {A : Type 0} (o : Option A) (why : SnapshotError) {a : A} → ok_or o why ≡ ok a → o ≡ some a
ok_or-eq-ok none why e = cc
ok_or-eq-ok (some b) why e = cc

module _ {memory : Memory} (sound : IsSound memory) where
  new_from_reader-IsValid :
      (source : Result IoError Bytes) (current_len slot id : ℕ) (v : AppendVec)
      → new_from_reader memory.map_anon memory.make_read_only source current_len slot id ≡ ok v
      → IsValid v × (v.slot ≡ slot) × (v.id ≡ id) × (v.current_len ≡ current_len)
  unfolding new_from_reader
  new_from_reader-IsValid source current_len slot id v e =
      let (buffer, e1, r1) = >>=-eq-ok (memory.map_anon current_len) _ e in
      let (read, e2, r2) = >>=-eq-ok source _ r1 in
      let (bs, e3, r3) =
        >>=-eq-ok (memory.make_read_only (copy_over buffer (take current_len read))) _ r2 in
      let (len, fits) = sound.sized current_len buffer e1 in
      let same = sound.kept (copy_over buffer (take current_len read)) bs e3 in
      ground (arith, ap length same, length-copy_over buffer (take current_len read))

  module _ (x : ArchiveSnapshotExtractor) where
    abbrev pub Accepted : Result SnapshotError AppendVec → Type 0
    Accepted = IsAccepted x.accounts_db_fields x.minimum_append_vec_slot

    process_entry-IsAccepted :
        (entry : Entry) (slot id : ℕ)
        → should_process_append_vec_slot x.minimum_append_vec_slot slot ≡ true
        → Accepted (process_entry memory x entry slot id)
    unfolding process_entry
    process_entry-IsAccepted entry slot id h =
        IsAccepted-ok _ _ (process_entry memory x entry slot id) λ v e.
          let (known, e1, r1) =
            >>=-eq-ok (ok_or (known_vec x.accounts_db_fields slot id) unexpected_append_vec) _ e in
          let (_, e2, r2) = >>=-eq-ok (io entry.path) _ r1 in
          let len = SerializableAccountStorageEntry.accounts_current_len known in
          let (valid, es, ei, el) =
            new_from_reader-IsValid (entry.contents len) len slot id v (io-eq-ok _ r2) in
          (
            valid,
            record {
              entry = known;
              known =
                  ap (λ k. known_vec x.accounts_db_fields k v.id) es
                  ∙ ap (known_vec x.accounts_db_fields slot) ei
                  ∙ ok_or-eq-ok _ _ e1;
              sized = el;
              processed =
                  should_process_append_vec_slot-Beyond x.minimum_append_vec_slot v.slot
                    (ap (should_process_append_vec_slot x.minimum_append_vec_slot) es ∙ h);
            },
          )

    abbrev AcceptedIfAny : Option (Result SnapshotError AppendVec) → Type 0
    AcceptedIfAny none = Unit
    AcceptedIfAny (some item) = Accepted item

    module _ (entry : Entry) where
      named-IsAccepted :
          (name : Option (ℕ × ℕ))
          → AcceptedIfAny (
              and_then name λ (slot, id).
                if should_process_append_vec_slot x.minimum_append_vec_slot slot
                then some (process_entry memory x entry slot id)
                else none)
      named-IsAccepted none = tt
      named-IsAccepted (some (slot, id)) =
          elim (Bool-cases (should_process_append_vec_slot x.minimum_append_vec_slot slot)) [
            | inl e ↦ rw e (process_entry-IsAccepted entry slot id e)
            | inr e ↦ rw e tt
          ]

    round-IsAccepted : (e : Result IoError Entry) → AcceptedIfAny (round memory x e)
    round-IsAccepted (err why) = tt
    round-IsAccepted (ok entry) =
        elim entry.path
          as (λ p. AcceptedIfAny (elim p [
            | err why ↦ some (err (io_error why))
            | ok path ↦ and_then (and_then (file_name path) parse_append_vec_name) λ (slot, id).
                if should_process_append_vec_slot x.minimum_append_vec_slot slot
                then some (process_entry memory x entry slot id)
                else none
          ])) [
            | err why ↦ tt
            | ok path ↦ named-IsAccepted entry (and_then (file_name path) parse_append_vec_name)
          ]

    filter_map-IsAccepted : (es : Entries) → All Accepted (filter_map (round memory x) es)
    filter_map-IsAccepted [] = tt
    filter_map-IsAccepted (e ∷ es) = ground (arith, round-IsAccepted e, filter_map-IsAccepted es)

    -- Where the memory maps are sound, every AppendVec of the iteration is well formed, stands in
    -- the manifest under its slot and its id with its length, and is of a slot that is greater than
    -- the minimum, if one was set.
    pub unboxed_iter-IsAccepted : All Accepted (unboxed_iter memory x).0
    unboxed_iter-IsAccepted =
        subst (All Accepted) (sym (unboxed_iter_lem memory x).0)
          (filter_map-IsAccepted (unwrap_or x.entries []))
