-- ===== src/Tests/Workers.antt =====
-- clickhouse.rs: the workers on one file, two statistics, and the tombstone of one account.
use solana_snapshot_etl.Prelude.{
  ℕ, ◌||◌, ◌≡◌, refl, arith, true, if◌then◌else◌, ◌>>=◌, List, [], ◌∷◌, ◌++◌, map, replicate,
  Option, none, some, All,
}
use solana_snapshot_etl.Prelude.Sort.{sort_by}
use solana_snapshot_etl.Prelude.Map.{get, contains}
use solana_snapshot_etl.Prelude.Text.{Str, bytes}
use solana_snapshot_etl.Prelude.Order.{eqb}
use solana_snapshot_etl.Metadata.{str_ord}
use solana_snapshot_etl.Import.{
  TokenAccountRow, Sink, ClosedAccounts, TokenPair, token_pair_ord, ParallelWorkerStats, merge,
}
use solana_snapshot_etl.Import.Programs.{Programs, TokenAccount}
use solana_snapshot_etl.Import.Worker.{Worker}
use solana_snapshot_etl.Import.Fanout.{FanoutConfig}
use solana_snapshot_etl.Import.Worker
use solana_snapshot_etl.Import.Fanout.Inserts
use solana_snapshot_etl.Import.Equivalence.{full_config, both, fuse}
use solana_snapshot_etl.Import.Equivalence.AppendVecs.{
  active_append_vec, counted, on_append_vec_count_lem,
}
use solana_snapshot_etl.Import.Stats.{SameStats, IsLatest, merge_comm}
use solana_snapshot_etl.Import.Tombstones.{
  HotTokenAccountPairRow, Inserter, chunks, close_tombstone_batch_size,
  write_close_token_account_tombstones,
}
use solana_snapshot_etl.Import.Tombstones.Live.{Answers, has_key}
use solana_snapshot_etl.Import.Tombstones.Batches.{
  tombstones, with_rows, write_all, write_close_token_account_tombstones_lem,
}
use solana_snapshot_etl.Tests.Archive.{one_account}

-- Every account is a token account of the mint of zeros.
abbrev token_account : TokenAccount
token_account = record {
  mint = replicate 32 0;
  owner = replicate 32 5;
  amount = 9;
  delegate = none;
  delegated_amount = 0;
  state = 1;
  close_authority = none;
}

abbrev programs : Programs
programs = record {
  pubkey_string = λ key. key;
  spl_token_id = replicate 32 0;
  token_2022_program_id = replicate 32 1;
  mpl_metadata_id = replicate 32 2;
  account_len = 3;
  mint_len = 82;
  unpack_account = λ data_bytes. some token_account;
  unpack_mint = λ data_bytes. none;
  unpack_2022_account = λ data_bytes. none;
  unpack_2022_mint = λ data_bytes. none;
  extensions_json = λ extensions. [];
  account_key = λ data_bytes. none;
  metadata = λ data_bytes. none;
  metadata_ext = λ data_bytes. none;
  metadata_ext_v1_2 = λ data_bytes. none;
}

-- The token account rows that were written.
abbrev sink : Sink (List TokenAccountRow)
sink = record {
  maybe_force_commit = λ rows. some rows;
  write_account = λ row rows. some rows;
  write_token_account = λ row rows. some (rows ++ row ∷ []);
  write_token_mint = λ row rows. some rows;
}

abbrev config : FanoutConfig
config = record {
  snapshot_slot = 100;
  active_resume_slot = 5;
  active_hot_mints = replicate 32 0 ∷ [];
  staging_hot_mints = replicate 32 0 ∷ [];
}

abbrev fresh : Worker (List TokenAccountRow)
fresh = record {
  sink = [];
  spl_token_owner_accounts_seen = 0;
  spl_token_accounts_parsed = 0;
  spl_token_unexpected_size = 0;
  spl_token_unpack_failed = 0;
  token_2022_owner_accounts_seen = 0;
  token_2022_accounts_parsed = 0;
  token_2022_unexpected_size = 0;
  token_2022_unpack_failed = 0;
  closed_token_accounts = [];
  affected_pairs = [];
  metadata_patches = [];
  zero_balance_token_accounts_omitted_from_full_baseline = 0;
}

on_append_vec_count_example :
    Inserts.on_append_vec_count programs sink config one_account (fuse 0 0 fresh fresh)
    ≡ both
        (counted programs sink config 0 0 one_account)
        (Worker.on_append_vec_count programs sink (full_config config) one_account fresh)
        (active_append_vec programs sink config one_account fresh)
on_append_vec_count_example =
    on_append_vec_count_lem programs sink config one_account 0 0 fresh fresh

abbrev stats : ℕ → ℕ → ParallelWorkerStats
stats seen slot = record {
  append_vecs_total = 1;
  nonempty_zero_account_append_vecs = 0;
  zero_balance_token_accounts_omitted_from_full_baseline = 0;
  spl_token_owner_accounts_seen = seen;
  spl_token_accounts_parsed = seen;
  spl_token_unexpected_size = 0;
  spl_token_unpack_failed = 0;
  token_2022_owner_accounts_seen = 0;
  token_2022_accounts_parsed = 0;
  token_2022_unexpected_size = 0;
  token_2022_unpack_failed = 0;
  closed_token_accounts = (bytes "A", record { updated_slot = slot }) ∷ [];
  affected_pairs = (bytes "M", bytes "O") ∷ [];
}

merge_comm_example :
    SameStats (merge (stats 2 8) (stats 3 9)) (merge (stats 3 9) (stats 2 8))
    × ((k : Str)
        → IsLatest
            (get ⦃o = str_ord⦄ k (stats 2 8).closed_token_accounts)
            (get ⦃o = str_ord⦄ k (stats 3 9).closed_token_accounts)
            (get ⦃o = str_ord⦄ k (merge (stats 2 8) (stats 3 9)).closed_token_accounts))
    × ((p : TokenPair)
        → contains ⦃o = token_pair_ord⦄ p (merge (stats 2 8) (stats 3 9)).affected_pairs ≡ (
            contains ⦃o = token_pair_ord⦄ p (stats 2 8).affected_pairs
            || contains ⦃o = token_pair_ord⦄ p (stats 3 9).affected_pairs))
merge_comm_example = merge_comm (stats 2 8) (stats 3 9) (refl, tt) (refl, tt)

-- A table with one live account.
abbrev live_row : HotTokenAccountPairRow
live_row = record { pubkey = bytes "A"; mint = bytes "M"; owner = bytes "O"; updated_slot = 4 }

abbrev rows : List HotTokenAccountPairRow
rows = live_row ∷ []

abbrev live : Str → Option HotTokenAccountPairRow
live pubkey = if eqb ⦃o = str_ord⦄ pubkey (bytes "A") then some live_row else none

live-has_key : (k : Str) (row : HotTokenAccountPairRow) → live k ≡ some row → has_key k rows ≡ true
live-has_key k row e = ground (arith, e)

All-live :
    (batch : List Str)
    → All (λ k. (row : HotTokenAccountPairRow) → live k ≡ some row → has_key k rows ≡ true) batch
All-live [] = tt
All-live (k ∷ batch) = (live-has_key k, All-live batch)

rows-Answers : Answers (λ batch. some rows) live
rows-Answers batch = (rows, refl, (refl, tt), All-live batch)

abbrev closed : ClosedAccounts
closed = (bytes "A", record { updated_slot = 7 }) ∷ []

-- An inserter that keeps the rows in a list.
abbrev log : Inserter (List TokenAccountRow)
log = record {
  write = λ row rows. some (rows ++ row ∷ []);
  force_commit = λ rows. some rows;
  end = λ rows. some rows;
}

write_close_token_account_tombstones_example :
    write_close_token_account_tombstones log
      (λ batch. some rows)
      ((bytes "B", record { updated_slot = 6 }) ∷ closed)
      []
    ≡ (write_all log
          (map (tombstones ((bytes "B", record { updated_slot = 6 }) ∷ closed) live) (
            chunks close_tombstone_batch_size (
              sort_by str_ord.cmp
                (map (λ e. e.0) ((bytes "B", record { updated_slot = 6 }) ∷ closed)))))
          []
        >>= λ written. log.end written >>= λ ended. some (
          with_rows
              (tombstones ((bytes "B", record { updated_slot = 6 }) ∷ closed) live (
                sort_by str_ord.cmp
                  (map (λ e. e.0) ((bytes "B", record { updated_slot = 6 }) ∷ closed))))
              (record { marked_deleted = 0; affected_pairs = [] }),
          ended,
        ))
write_close_token_account_tombstones_example =
    write_close_token_account_tombstones_lem log (λ batch. some rows) live
      (bytes "B", record { updated_slot = 6 }) closed [] rows-Answers
