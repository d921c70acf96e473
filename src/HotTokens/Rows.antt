-- ===== src/HotTokens/Rows.antt =====
-- bin/import_hot_token/main.rs `import_csv`: which rows are written, and where an import stops.
use solana_snapshot_etl.Prelude.{
  ℕ, suc, ◌+◌, ◌≡◌, refl, ap, ◌∙◌, false, List, [], ◌∷◌, ◌++◌, Option, none, some, length,
  get_elem?, arith, inl, inr, subst,
}
use solana_snapshot_etl.Prelude.Order.{eqb}
use solana_snapshot_etl.Prelude.Text.{Str}
use solana_snapshot_etl.Prelude.Result.{Result, ok, err, map_err, ◌>>=◌, Result-cases}
use solana_snapshot_etl.Metadata.{str_ord}
use solana_snapshot_etl.HotTokens.{
  trim, ImportError, csv_line, no_second_column, mint_is_empty, clickhouse, database, table, Urls,
  Client, Record, mint_of, import_rows, import_csv, parse_clickhouse_connection_url,
}

-- A record that is read and whose second column, without white space around it, is this mint.
pub record IsMint (r : Result ℕ Record) (mint : Str) : Type 0 where
  pub row : Record
  pub column : Str
  pub read : r ≡ ok row
  pub found : get_elem? row 1 ≡ some column
  pub trimmed : trim column ≡ mint
  pub not_empty : eqb ⦃o = str_ord⦄ mint [] ≡ false

abbrev pub AllMints : List (Result ℕ Record) → List Str → Type 0
AllMints [] [] = Unit
AllMints (r ∷ rs) (mint ∷ mints) = IsMint r mint × AllMints rs mints
AllMints _ _ = ⊥

-- Why a record on this line is refused.
pub data IsRefused (line : ℕ) : Result ℕ Record → ImportError → Type 0 where
  unreadable : (e : ℕ) → IsRefused line (err e) (csv_line line e)
  short : (row : Record) → get_elem? row 1 ≡ none → IsRefused line (ok row) (no_second_column line)
  blank :
      (row : Record) (column : Str)
      → get_elem? row 1 ≡ some column
      → trim column ≡ []
      → IsRefused line (ok row) (mint_is_empty line)

-- What follows the records that were imported: the end of the file, or a record that is refused.
pub data Ends (line : ℕ) : List (Result ℕ Record) → Option ImportError → Type 0 where
  complete : Ends line [] none
  refused :
      (r : Result ℕ Record) (rest : List (Result ℕ Record)) (why : ImportError)
      → IsRefused line r why
      → Ends line (r ∷ rest) (some why)

module _ {W : Type 0} (client : Client W) where
  abbrev pub write_all : W → List Str → Result ℕ W
  write_all sink [] = ok sink
  write_all sink (mint ∷ mints) =
      client.write sink (record { mint = mint }) >>= λ written. write_all written mints

  abbrev pub finish : Option ImportError → ℕ → W → Result ImportError (W × ℕ)
  finish none imported sink = ok (sink, imported)
  finish (some why) imported sink = err why

  import_rows-Ends :
      (index imported : ℕ) (rs : List (Result ℕ Record)) (sink : W) {end : Option ImportError}
      → Ends (index + 2) rs end
      → import_rows client index rs sink imported ≡ finish end imported sink
  unfolding import_rows mint_of
  import_rows-Ends index imported rs sink complete = refl
  import_rows-Ends index imported rs sink (refused r rest why (unreadable e)) = refl
  import_rows-Ends index imported rs sink (refused r rest why (short row none_found)) =
      rw none_found refl
  import_rows-Ends index imported rs sink (refused r rest why (blank row column found empty)) =
      rw (found, empty) refl

  import_rows-AllMints :
      (index imported : ℕ) (rs more : List (Result ℕ Record)) (mints : List Str) (sink : W)
      {end : Option ImportError}
      → AllMints rs mints
      → Ends (index + length rs + 2) more end
      → import_rows client index (rs ++ more) sink imported
        ≡ (map_err clickhouse (write_all sink mints) >>= finish end (imported + length mints))
  unfolding import_rows mint_of
  import_rows-AllMints index imported [] more [] sink {end = end} h ends =
      let line : index + 0 + 2 ≡ index + 2 = omega arith in
      let count : imported ≡ imported + 0 = omega arith in
      import_rows-Ends index imported more sink (subst (λ k. Ends k more end) line ends)
      ∙ ap (λ k. finish end k sink) count
  import_rows-AllMints index imported [] more (mint ∷ mints) sink h ends = absurd h
  import_rows-AllMints index imported (r ∷ rs) more [] sink h ends = absurd h
  import_rows-AllMints index imported (r ∷ rs) more (mint ∷ mints) sink {end = end} (h, hs) ends =
      elim (Result-cases (client.write sink (record { mint = mint }))) [
        | inl (why, w) ↦ rw (h.read, h.found, h.trimmed, h.not_empty, w) refl
        | inr (written, w) ↦
            let line : index + suc (length rs) + 2 ≡ suc index + length rs + 2 = omega arith in
            let count : suc imported + length mints ≡ imported + suc (length mints) = omega arith in
            rw (h.read, h.found, h.trimmed, h.not_empty, w)
              (import_rows-AllMints (suc index) (suc imported) rs more mints written hs
                  (subst (λ k. Ends k more end) line ends)
                ∙ ap (λ k. map_err clickhouse (write_all written mints) >>= finish end k) count)
      ]

  module _ (urls : Urls) (percent_decode : Str → Result ℕ Str) where
    -- An import whose first records have mints, up to the end of the file or to a record that is
    -- refused: a connection is parsed, an insert opened and the mints written in order, where each
    -- of these may fail. At the end of the file the insert is ended and the number of mints is
    -- reported; a refused record is reported with its line, the header being line 1, and the insert
    -- is not ended.
    pub import_csv_lem :
        (clickhouse_url : Str) (rs more : List (Result ℕ Record)) (mints : List Str)
        {end : Option ImportError}
        → AllMints rs mints
        → Ends (length rs + 2) more end
        → import_csv client urls percent_decode (ok (rs ++ more)) clickhouse_url ≡ (do
          connection ← parse_clickhouse_connection_url urls percent_decode clickhouse_url
          insert ← map_err clickhouse (client.insert connection database table)
          written ← map_err clickhouse (write_all insert mints)
          (sink, imported) ← finish end (length mints) written
          ended ← map_err clickhouse (client.end sink)
          ok (ended, imported))
    unfolding import_csv
    import_csv_lem clickhouse_url rs more mints {end = end} h ends =
        elim (Result-cases (parse_clickhouse_connection_url urls percent_decode clickhouse_url)) [
          | inl (why, p) ↦ rw p refl
          | inr (connection, p) ↦ elim (Result-cases (client.insert connection database table)) [
            | inl (why, i) ↦ rw (p, i) refl
            | inr (insert, i) ↦
                let line : length rs + 2 ≡ 0 + length rs + 2 = omega arith in
                let count : 0 + length mints ≡ length mints = omega arith in
                let rows =
                  import_rows-AllMints 0 0 rs more mints insert h
                    (subst (λ k. Ends k more end) line ends)
                  ∙ ap (λ k. map_err clickhouse (write_all insert mints) >>= finish end k) count in
                elim (Result-cases (write_all insert mints)) [
                  | inl (why, w) ↦ rw (p, i, rows, w) refl
                  | inr (written, w) ↦ rw (p, i, rows, w) refl
                ]
          ]
        ]
