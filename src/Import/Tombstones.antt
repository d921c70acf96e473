-- ===== src/Import/Tombstones.antt =====
-- clickhouse.rs: the tombstones of closed token accounts, written after all regular rows. The
-- table is asked for the live rows of a batch of keys by `query`, and the rows go to an inserter
-- whose state is `S`; both may fail, which is `none`.
pub mod Live
pub mod Batches
use solana_snapshot_etl.Prelude.{
  ℕ, zero, suc, ◌+◌, ◌*◌, Bool, true, false, ◌&&◌, not, List, [], ◌∷◌, map, length, take, drop,
  filter, Option, none, some, ◌>>=◌, if◌then◌else◌, leb,
}
use solana_snapshot_etl.Prelude.Text.{Str}
use solana_snapshot_etl.Prelude.Map.{get, upsert, insert}
use solana_snapshot_etl.Prelude.Sort.{sort_by}
use solana_snapshot_etl.Metadata.{str_ord}
use solana_snapshot_etl.Import.{
  TokenAccountRow, AccountVersion, TokenPair, token_pair_ord, ClosedAccounts,
}

pub record HotTokenAccountPairRow : Type 0 where
  pub pubkey : Str
  pub mint : Str
  pub owner : Str
  pub updated_slot : ℕ

pub record TombstoneWriteResult : Type 0 where
  pub marked_deleted : ℕ
  pub affected_pairs : List TokenPair

abbrev pub close_tombstone_batch_size : ℕ
close_tombstone_batch_size = 100 * 1000

-- `chunks`, with as much fuel as there are elements.
abbrev pub chunks_from {ℓ} : {A : Type ℓ} → ℕ → ℕ → List A → List (List A)
chunks_from zero size l = []
chunks_from (suc fuel) size [] = []
chunks_from (suc fuel) size (a ∷ l) = take size (a ∷ l) ∷ chunks_from fuel size (drop size (a ∷ l))

abbrev pub chunks {ℓ} : {A : Type ℓ} → ℕ → List A → List (List A)
chunks size l = chunks_from (length l) size l

abbrev pub is_empty : Str → Bool
is_empty [] = true
is_empty (_ ∷ _) = false

-- The rows by key; a later row replaces an earlier one.
abbrev pub collect :
    List (Str × HotTokenAccountPairRow)
    → List HotTokenAccountPairRow
    → List (Str × HotTokenAccountPairRow)
collect found [] = found
collect found (row ∷ rows) = collect (upsert ⦃o = str_ord⦄ row.pubkey (λ _. row) found) rows

unfoldable pub previous_pairs : List HotTokenAccountPairRow → List (Str × HotTokenAccountPairRow)
previous_pairs rows =
    collect [] (filter (λ row. not (is_empty row.mint) && not (is_empty row.owner)) rows)

abbrev pub tombstone : Str → HotTokenAccountPairRow → AccountVersion → TokenAccountRow
tombstone pubkey previous candidate = record {
  pubkey = pubkey;
  mint = previous.mint;
  owner = previous.owner;
  amount = 0;
  delegate = none;
  delegated_amount = 0;
  state = 0;
  close_authority = none;
  is_deleted = 1;
  updated_slot = candidate.updated_slot;
}

pub record Inserter (S : Type 0) : Type 0 where
  pub write : TokenAccountRow → S → Option S
  pub force_commit : S → Option S
  pub end : S → Option S

module _ {S : Type 0} (io : Inserter S)
    (query : List Str → Option (List HotTokenAccountPairRow)) where
  -- The loop over the keys of a batch.
  unfoldable pub write_batch :
      ClosedAccounts
      → List (Str × HotTokenAccountPairRow)
      → List Str
      → TombstoneWriteResult × S
      → Option (TombstoneWriteResult × S)
  write_batch closed previous [] (result, s) = some (result, s)
  write_batch closed previous (pubkey ∷ pubkeys) (result, s) =
      let rest = write_batch closed previous pubkeys in
      get ⦃o = str_ord⦄ pubkey closed >>= λ candidate. elim (get ⦃o = str_ord⦄ pubkey previous) [
        | none ↦ rest (result, s)
        | some row ↦
            if leb candidate.updated_slot row.updated_slot
            then rest (result, s)
            else (io.write (tombstone pubkey row candidate) s >>= λ s'. rest (
              record {
                marked_deleted = result.marked_deleted + 1;
                affected_pairs =
                    insert ⦃o = token_pair_ord⦄ (row.mint, row.owner) result.affected_pairs;
              },
              s',
            ))
      ]

  unfoldable pub write_batches :
      ClosedAccounts
      → List (List Str)
      → TombstoneWriteResult × S
      → Option (TombstoneWriteResult × S)
  unfolding write_batch previous_pairs
  write_batches closed [] (result, s) = some (result, s)
  write_batches closed (batch ∷ batches) (result, s) = do
    rows ← query batch
    (result', s') ← write_batch closed (previous_pairs rows) batch (result, s)
    committed ← io.force_commit s'
    write_batches closed batches (result', committed)

  unfoldable pub write_close_token_account_tombstones :
      ClosedAccounts → S → Option (TombstoneWriteResult × S)
  unfolding write_batches
  write_close_token_account_tombstones [] s =
      some (record { marked_deleted = 0; affected_pairs = [] }, s)
  write_close_token_account_tombstones (c ∷ closed) s = do
    let pubkeys = sort_by str_ord.cmp (map (λ entry. entry.0) (c ∷ closed))
    (result, s') ←
        write_batches (c ∷ closed) (chunks close_tombstone_batch_size pubkeys)
          (record { marked_deleted = 0; affected_pairs = [] }, s)
    ended ← io.end s'
    some (result, ended)
