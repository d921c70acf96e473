-- ===== src/Import/Tombstones/Batches.antt =====
-- clickhouse.rs: the batches of tombstones against one pass over the keys in order.
use solana_snapshot_etl.Prelude.{
  take-drop-append, ℕ, zero, suc, ◌+◌, ◌≤◌, ◌<◌, List, [], ◌∷◌, ◌++◌, map, length, length-drop,
  take, drop, filter_map, All, All-imp, Option, none, some, ◌>>=◌, if◌then◌else◌, leb, ◌≡◌, refl,
  sym, ap, ◌∙◌, arith, Bool-cases, Option-cases, inl, inr, subst,
}
use solana_snapshot_etl.Prelude.Order.{eqb, eqb_self}
use solana_snapshot_etl.Prelude.Text.{Str}
use solana_snapshot_etl.Prelude.Map.{get, insert}
use solana_snapshot_etl.Prelude.Sort.{sort_by, All-sort_by}
use solana_snapshot_etl.Metadata.{str_ord}
use solana_snapshot_etl.Import.{
  TokenAccountRow, AccountVersion, TokenPair, token_pair_ord, ClosedAccounts,
}
use solana_snapshot_etl.Import.Tombstones.Live.{Answers, paired, get-previous_pairs}
use solana_snapshot_etl.Import.Tombstones.{
  HotTokenAccountPairRow, TombstoneWriteResult, close_tombstone_batch_size, chunks_from, chunks,
  previous_pairs, tombstone, Inserter, write_batch, write_batches,
  write_close_token_account_tombstones,
}

-- A key gets a tombstone if its live row is older than the candidate.
abbrev pub tombstone_of :
    ClosedAccounts → (Str → Option HotTokenAccountPairRow) → Str → Option TokenAccountRow
tombstone_of closed live pubkey = get ⦃o = str_ord⦄ pubkey closed >>= λ candidate.
    paired (live pubkey) >>= λ row.
    if leb candidate.updated_slot row.updated_slot
    then none
    else some (tombstone pubkey row candidate)

abbrev pub tombstones :
    ClosedAccounts → (Str → Option HotTokenAccountPairRow) → List Str → List TokenAccountRow
tombstones closed live pubkeys = filter_map (tombstone_of closed live) pubkeys

abbrev pub add_pairs : List TokenPair → List TokenAccountRow → List TokenPair
add_pairs pairs [] = pairs
add_pairs pairs (row ∷ rows) =
    add_pairs (insert ⦃o = token_pair_ord⦄ (row.mint, row.owner) pairs) rows

-- The result with some more rows.
abbrev pub with_rows : List TokenAccountRow → TombstoneWriteResult → TombstoneWriteResult
with_rows rows result = record {
  marked_deleted = result.marked_deleted + length rows;
  affected_pairs = add_pairs result.affected_pairs rows;
}

abbrev one_row : TokenAccountRow → TombstoneWriteResult → TombstoneWriteResult
one_row row result = record {
  marked_deleted = result.marked_deleted + 1;
  affected_pairs = insert ⦃o = token_pair_ord⦄ (row.mint, row.owner) result.affected_pairs;
}

with_rows-one_row :
    (row : TokenAccountRow) (rows : List TokenAccountRow) (result : TombstoneWriteResult)
    → with_rows rows (one_row row result) ≡ with_rows (row ∷ rows) result
with_rows-one_row row rows result =
    let e : result.marked_deleted + 1 + length rows ≡ result.marked_deleted + suc (length rows) =
      omega arith in
    rw e refl

with_rows-append :
    (a b : List TokenAccountRow) (result : TombstoneWriteResult)
    → with_rows b (with_rows a result) ≡ with_rows (a ++ b) result
with_rows-append [] b result = ground arith
with_rows-append (r ∷ a) b result =
    ap (with_rows b) (sym (with_rows-one_row r a result))
    ∙ with_rows-append a b (one_row r result)
    ∙ with_rows-one_row r (a ++ b) result

-- What is done to an inserter: the rows of a batch are written one by one.
module _ {S : Type 0} (io : Inserter S) where
  abbrev pub write_rows : List TokenAccountRow → S → Option S
  write_rows [] s = some s
  write_rows (row ∷ rows) s = io.write row s >>= write_rows rows

  -- Behind each batch, full or not, the inserter is made to commit.
  abbrev pub write_all : List (List TokenAccountRow) → S → Option S
  write_all [] s = some s
  write_all (batch ∷ batches) s = write_rows batch s >>= io.force_commit >>= write_all batches

HasCandidates : ClosedAccounts → List Str → Type 0
HasCandidates closed pubkeys =
    All (λ k. (c : AccountVersion) × (get ⦃o = str_ord⦄ k closed ≡ some c)) pubkeys

abbrev pub concat {ℓ} : {A : Type ℓ} → List (List A) → List A
concat [] = []
concat (l ∷ ls) = l ++ concat ls

concat-chunks_from {ℓ} :
    {A : Type ℓ} (fuel size : ℕ) (l : List A)
    → 0 < size
    → length l ≤ fuel
    → concat (chunks_from fuel size l) ≡ l
concat-chunks_from zero size [] p h = refl
concat-chunks_from zero size (a ∷ l) p h = absurd (omega arith)
concat-chunks_from (suc fuel) size [] p h = refl
concat-chunks_from (suc fuel) size (a ∷ l) p h =
    ap (λ t. take size (a ∷ l) ++ t)
      (concat-chunks_from fuel size (drop size (a ∷ l)) p (omega (arith, length-drop size (a ∷ l))))
    ∙ take-drop-append size (a ∷ l)

filter_map-append {ℓ κ} :
    {A : Type ℓ} {B : Type κ} (f : A → Option B) (a b : List A)
    → filter_map f (a ++ b) ≡ filter_map f a ++ filter_map f b
filter_map-append f [] b = refl
filter_map-append f (x ∷ a) b = ground (arith, filter_map-append f a b)

All-append← {ℓ κ} :
    {A : Type ℓ} (P : A → Type κ) (a b : List A) → All P (a ++ b) → All P a × All P b
All-append← P [] b h = (tt, h)
All-append← P (x ∷ a) b (p, h) = let (ha, hb) = All-append← P a b h in ((p, ha), hb)

module _ {S : Type 0} (io : Inserter S) (query : List Str → Option (List HotTokenAccountPairRow))
    (live : Str → Option HotTokenAccountPairRow) (closed : ClosedAccounts) where
  write_batch_lem :
      (previous : List (Str × HotTokenAccountPairRow)) (pubkeys : List Str)
      (result : TombstoneWriteResult) (s : S)
      → All (λ k. get ⦃o = str_ord⦄ k previous ≡ paired (live k)) pubkeys
      → HasCandidates closed pubkeys
      → write_batch io query closed previous pubkeys (result, s) ≡ (
          write_rows io (tombstones closed live pubkeys) s >>= λ s'.
          some (with_rows (tombstones closed live pubkeys) result, s'))
  unfolding write_batch HasCandidates
  write_batch_lem previous [] result s h c = ground arith
  write_batch_lem previous (k ∷ ks) result s (h, hs) ((v, c), cs) =
      elim (Option-cases (paired (live k))) [
        | inl e ↦ ground (arith, c, h, e, write_batch_lem previous ks result s hs cs)
        | inr (row, e) ↦
            let r = tombstone k row v in
            elim (Option-cases (io.write r s)) [
              | inl w ↦ ground (arith, c, h, e, w, write_batch_lem previous ks result s hs cs)
              | inr (s', w) ↦ ground (
                arith,
                c,
                h,
                e,
                w,
                write_batch_lem previous ks result s hs cs,
                write_batch_lem previous ks (one_row r result) s' hs cs,
                with_rows-one_row r (tombstones closed live ks) result,
              )
            ]
      ]

  batch_then :
      (a : Option S) (first rest : TombstoneWriteResult) (f : S → Option S)
      (go : TombstoneWriteResult → S → Option (TombstoneWriteResult × S))
      → ((t : S) → go first t ≡ (f t >>= λ u. some (rest, u)))
      → ((a >>= λ t. some (first, t)) >>= λ (r, t). io.force_commit t >>= go r)
        ≡ ((a >>= io.force_commit >>= f) >>= λ u. some (rest, u))
  batch_then none first rest f go h = refl
  batch_then (some t) first rest f go h = elim (Option-cases (io.force_commit t)) [
    | inl e ↦ rw e refl
    | inr (u, e) ↦ rw e (h u)
  ]

  write_batches_lem :
      Answers query live
      → (batches : List (List Str)) (result : TombstoneWriteResult) (s : S)
      → HasCandidates closed (concat batches)
      → write_batches io query closed batches (result, s) ≡ (
          write_all io (map (tombstones closed live) batches) s >>= λ s'.
          some (with_rows (tombstones closed live (concat batches)) result, s'))
  unfolding write_batches HasCandidates
  write_batches_lem answers [] result s c = ground arith
  write_batches_lem answers (batch ∷ batches) result s c =
      let (rows, q, lives, found) = answers batch in
      let (c1, c2) =
        All-append← (λ k. (v : AccountVersion) × (get ⦃o = str_ord⦄ k closed ≡ some v)) batch
          (concat batches) c in
      let first = tombstones closed live batch in
      let agree = All-imp batch (λ k f. get-previous_pairs live k rows lives f) found in
      rw (q, write_batch_lem (previous_pairs rows) batch result s agree c1)
        (batch_then (write_rows io first s) (with_rows first result)
          (with_rows (tombstones closed live (concat (batch ∷ batches))) result)
          (write_all io (map (tombstones closed live) batches))
          (λ r t. write_batches io query closed batches (r, t))
          λ t.
            write_batches_lem answers batches (with_rows first result) t c2
            ∙ ap (λ r. write_all io (map (tombstones closed live) batches) t >>= λ u. some (r, u))
                (with_rows-append first (tombstones closed live (concat batches)) result
                  ∙ ap (λ l. with_rows l result)
                      (sym (filter_map-append (tombstone_of closed live) batch (concat batches)))))

keys : ClosedAccounts → List Str
keys closed = map (λ entry. entry.0) closed

keys-HasCandidates : (closed : ClosedAccounts) → HasCandidates closed (keys closed)
unfolding HasCandidates keys
keys-HasCandidates [] = tt
keys-HasCandidates ((k, v) ∷ closed) = (
  (v, rw (eqb_self ⦃o = str_ord⦄ k) refl),
  All-imp (keys closed) (λ j (c, e). more j c e) (keys-HasCandidates closed),
)
  where
    more :
        (j : Str) (c : AccountVersion)
        → get ⦃o = str_ord⦄ j closed ≡ some c
        → (c' : AccountVersion) × (get ⦃o = str_ord⦄ j ((k, v) ∷ closed) ≡ some c')
    more j c e = elim (Bool-cases (eqb ⦃o = str_ord⦄ j k)) [
      | inl f ↦ (v, rw f refl)
      | inr f ↦ (c, rw f e)
    ]

abbrev both : {S : Type 0} → TombstoneWriteResult → S → Option (TombstoneWriteResult × S)
both result s = some (result, s)

end_too :
    {S : Type 0} (a : Option S) (result : TombstoneWriteResult) (end : S → Option S)
    → ((a >>= both result) >>= λ (r, t). end t >>= both r) ≡ (a >>= λ t. end t >>= both result)
end_too none result end = refl
end_too (some t) result end = refl

-- For whatever inserter, failures of it included: the writing of tombstones is that the tombstones of
-- the keys in order are written in batches, with a commit behind each batch, and the inserter is ended
-- once. A key has a tombstone if its live row names a mint and an owner and is older than its candidate.
-- The result counts the tombstones and has the pairs of their rows.
pub write_close_token_account_tombstones_lem :
    {S : Type 0} (io : Inserter S) (query : List Str → Option (List HotTokenAccountPairRow))
    (live : Str → Option HotTokenAccountPairRow) (entry : Str × AccountVersion)
    (closed : ClosedAccounts) (s : S)
    → Answers query live
    → (let sorted : List Str = sort_by str_ord.cmp (map (λ e. e.0) (entry ∷ closed)) in
        write_close_token_account_tombstones io query (entry ∷ closed) s ≡ (
          write_all io
            (map (tombstones (entry ∷ closed) live) (chunks close_tombstone_batch_size sorted))
            s
          >>= λ written. io.end written >>= λ ended. some (
            with_rows
                (tombstones (entry ∷ closed) live sorted)
                (record { marked_deleted = 0; affected_pairs = [] }),
            ended,
          )))
unfolding write_close_token_account_tombstones HasCandidates keys
write_close_token_account_tombstones_lem io query live entry closed s answers =
    let all = entry ∷ closed in
    let sorted : List Str = sort_by str_ord.cmp (map (λ e. e.0) all) in
    let e : concat (chunks close_tombstone_batch_size sorted) ≡ sorted =
      concat-chunks_from (length sorted) close_tombstone_batch_size sorted (omega arith)
        (omega arith) in
    let has : HasCandidates all sorted =
      All-sort_by str_ord.cmp (λ k. (v : AccountVersion) × (get ⦃o = str_ord⦄ k all ≡ some v))
        (map (λ e. e.0) all) (keys-HasCandidates all) in
    let empty : TombstoneWriteResult = record { marked_deleted = 0; affected_pairs = [] } in
    rw
      (
        write_batches_lem io query live all answers (chunks close_tombstone_batch_size sorted) empty
            s (subst (HasCandidates all) (sym e) has),
        e,
      )
      (end_too
        (write_all io (map (tombstones all live) (chunks close_tombstone_batch_size sorted)) s)
        (with_rows (tombstones all live sorted) empty) io.end)
