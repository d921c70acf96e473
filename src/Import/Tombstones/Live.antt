-- ===== src/Import/Tombstones/Live.antt =====
-- clickhouse.rs: what the query for the live rows of a batch is relied on to answer, and what the
-- program looks up in the answer.
use solana_snapshot_etl.Prelude.{
  List, [], ◌∷◌, filter, Bool, true, false, not, ◌&&◌, ◌||◌, All, Option, none, some, if◌then◌else◌,
  ◌≡◌, refl, ◌∙◌, arith, Bool-cases, Option-cases, inl, inr,
}
use solana_snapshot_etl.Prelude.Order.{eqb, eq_of_eqb}
use solana_snapshot_etl.Prelude.Text.{Str}
use solana_snapshot_etl.Prelude.Map.{get, get-upsert, upsert}
use solana_snapshot_etl.Metadata.{str_ord}
use solana_snapshot_etl.Import.{token_pair_ord}
use solana_snapshot_etl.Import.Tombstones.{
  HotTokenAccountPairRow, collect, is_empty, previous_pairs,
}

-- A row of the key is among the rows.
abbrev pub has_key : Str → List HotTokenAccountPairRow → Bool
has_key k [] = false
has_key k (row ∷ rows) = eqb ⦃o = str_ord⦄ k row.pubkey || has_key k rows

-- The row names a mint and an owner.
abbrev pub has_pair : HotTokenAccountPairRow → Bool
has_pair row = not (eqb ⦃o = str_ord⦄ row.mint []) && not (eqb ⦃o = str_ord⦄ row.owner [])

-- The query answers each batch with rows that are live in the table, and for each key of the batch
-- that is live with its row.
abbrev pub Answers :
    (List Str → Option (List HotTokenAccountPairRow))
    → (Str → Option HotTokenAccountPairRow)
    → Type 0
Answers query live =
    (batch : List Str)
    → (rows : List HotTokenAccountPairRow) × (query batch ≡ some rows)
      × All (λ row. live row.pubkey ≡ some row) rows
      × All (λ k. (row : HotTokenAccountPairRow) → live k ≡ some row → has_key k rows ≡ true) batch

-- A live row counts if it names a mint and an owner.
abbrev pub paired : Option HotTokenAccountPairRow → Option HotTokenAccountPairRow
paired none = none
paired (some row) = if has_pair row then some row else none

-- A row that is collected is found by its key.
get-collect :
    (live : Str → Option HotTokenAccountPairRow) (k : Str)
    (found : List (Str × HotTokenAccountPairRow)) (rows : List HotTokenAccountPairRow)
    → All (λ row. live row.pubkey ≡ some row) rows
    → get ⦃o = str_ord⦄ k (collect found rows)
      ≡ (if has_key k rows then live k else get ⦃o = str_ord⦄ k found)
get-collect live k found [] h = refl
get-collect live k found (row ∷ rows) (h, hs) = ground (
  arith,
  get-collect live k (upsert ⦃o = str_ord⦄ row.pubkey (λ _. row) found) rows hs,
  get-upsert ⦃o = str_ord⦄ k row.pubkey (λ _. row) found,
  eq_of_eqb ⦃o = str_ord⦄ k row.pubkey,
  h,
)

All-filter :
    (P : HotTokenAccountPairRow → Type 0) (p : HotTokenAccountPairRow → Bool)
    (rows : List HotTokenAccountPairRow)
    → All P rows
    → All P (filter p rows)
All-filter P p [] h = tt
All-filter P p (row ∷ rows) (h, hs) = elim (Bool-cases (p row)) [
  | inl e ↦ rw e (h, All-filter P p rows hs)
  | inr e ↦ rw e (All-filter P p rows hs)
]

-- A key whose live row names a mint and an owner is kept by the filter, and no other.
has_key-filter :
    (live : Str → Option HotTokenAccountPairRow) (p : HotTokenAccountPairRow → Bool) (k : Str)
    (row : HotTokenAccountPairRow) (rows : List HotTokenAccountPairRow)
    → All (λ row. live row.pubkey ≡ some row) rows
    → live k ≡ some row
    → has_key k (filter p rows) ≡ (p row && has_key k rows)
has_key-filter live p k row [] h e = ground arith
has_key-filter live p k row (r ∷ rows) (h, hs) e =
    ground (arith, has_key-filter live p k row rows hs e, eq_of_eqb ⦃o = str_ord⦄ k r.pubkey, h)

absent :
    (live : Str → Option HotTokenAccountPairRow) (k : Str) (rows : List HotTokenAccountPairRow)
    → All (λ row. live row.pubkey ≡ some row) rows
    → live k ≡ none
    → has_key k rows ≡ false
absent live k [] h e = refl
absent live k (r ∷ rows) (h, hs) e =
    ground (arith, absent live k rows hs e, eq_of_eqb ⦃o = str_ord⦄ k r.pubkey, h)

abbrev keeps : HotTokenAccountPairRow → Bool
keeps row = not (is_empty row.mint) && not (is_empty row.owner)

is_empty_eq : (s : Str) → is_empty s ≡ eqb ⦃o = str_ord⦄ s []
is_empty_eq [] = refl
is_empty_eq (c ∷ s) = ground arith

keeps_eq : (row : HotTokenAccountPairRow) → keeps row ≡ has_pair row
keeps_eq row = ground (arith, is_empty_eq row.mint, is_empty_eq row.owner)

pub get-previous_pairs :
    (live : Str → Option HotTokenAccountPairRow) (k : Str) (rows : List HotTokenAccountPairRow)
    → All (λ row. live row.pubkey ≡ some row) rows
    → ((row : HotTokenAccountPairRow) → live k ≡ some row → has_key k rows ≡ true)
    → get ⦃o = str_ord⦄ k (previous_pairs rows) ≡ paired (live k)
unfolding previous_pairs
get-previous_pairs live k rows h found =
    get-collect live k [] (filter keeps rows)
      (All-filter (λ row. live row.pubkey ≡ some row) keeps rows h)
    ∙ elim (Option-cases (live k)) [
      | inl e ↦
          rw
            (
              absent live k (filter keeps rows)
                  (All-filter (λ row. live row.pubkey ≡ some row) keeps rows h) e,
              e,
            )
            refl
      | inr (row, e) ↦
          ground (arith, has_key-filter live keeps k row rows h e, found row e, e, keeps_eq row)
    ]
