-- ===== src/Import.antt =====
-- clickhouse.rs: what the importing workers share: the tables, the policies of a kind of snapshot,
-- the rows, the candidates for a tombstone and the statistics. Progress bars and log lines are left
-- out.
pub mod Programs
pub mod Rows
pub mod Worker
pub mod Fanout
pub mod Equivalence
pub mod Stats
pub mod Tombstones
use solana_snapshot_etl.Prelude.{
  ℕ, ◌+◌, Bool, true, false, ◌&&◌, ◌||◌, not, List, [], ◌∷◌, ◌++◌, Option, none, some,
  if◌then◌else◌, ◌==◌, ltb, refl,
}
use solana_snapshot_etl.Prelude.Order.{Ord, nat_ord, fields_ord, via, gtb}
use solana_snapshot_etl.Prelude.Text.{Str, bytes}
use solana_snapshot_etl.Prelude.Map.{upsert, insert}
use solana_snapshot_etl.AppendVec.{Bytes, StoredAccountMeta}
use solana_snapshot_etl.Metadata.{str_ord}
use solana_snapshot_etl.Token2022.{default_pubkey, same_pubkey}

pub data TableGroup : Type 0 where
  active backup : TableGroup

abbrev pub suffix : TableGroup → Str
suffix active = []
suffix backup = bytes "_bak"

abbrev pub table : TableGroup → Str → Str
table group base = base ++ suffix group

pub data ZeroBalanceTokenAccountPolicy : Type 0 where
  exclude_from_full_baseline retain : ZeroBalanceTokenAccountPolicy

pub data SnapshotKind : Type 0 where
  full incremental : SnapshotKind

abbrev pub collect_close_tombstones : SnapshotKind → Bool
collect_close_tombstones full = false
collect_close_tombstones incremental = true

abbrev pub zero_balance_token_account_policy : SnapshotKind → ZeroBalanceTokenAccountPolicy
zero_balance_token_account_policy full = exclude_from_full_baseline
zero_balance_token_account_policy incremental = retain

abbrev is_retain : ZeroBalanceTokenAccountPolicy → Bool
is_retain exclude_from_full_baseline = false
is_retain retain = true

abbrev pub writes_live_amount : ZeroBalanceTokenAccountPolicy → ℕ → Bool
writes_live_amount policy amount = ltb 0 amount || is_retain policy

pub record AccountRow : Type 0 where
  pub pubkey : Str
  pub owner : Str
  pub lamports : ℕ
  pub data_len : ℕ
  pub executable : Bool
  pub updated_slot : ℕ

pub record TokenAccountRow : Type 0 where
  pub pubkey : Str
  pub mint : Str
  pub owner : Str
  pub amount : ℕ
  pub delegate : Option Str
  pub delegated_amount : ℕ
  pub state : ℕ
  pub close_authority : Option Str
  pub is_deleted : ℕ
  pub updated_slot : ℕ

pub record TokenMintRow : Type 0 where
  pub mint : Str
  pub mint_authority : Option Str
  pub supply : ℕ
  pub decimals : ℕ
  pub is_initialized : Bool
  pub freeze_authority : Option Str
  pub updated_slot : ℕ

-- What a worker asks of its `ClickhouseSink`, whose state is `S`. A call that fails returns `none`.
pub record Sink (S : Type 0) : Type 0 where
  pub maybe_force_commit : S → Option S
  pub write_account : AccountRow → S → Option S
  pub write_token_account : TokenAccountRow → S → Option S
  pub write_token_mint : TokenMintRow → S → Option S

pub record AccountVersion : Type 0 where
  pub updated_slot : ℕ

instance abbrev pub account_version_ord : Ord AccountVersion
account_version_ord =
    via nat_ord (λ v. v.updated_slot) (λ n. record { updated_slot = n }) (λ v. refl)

abbrev pub TokenPair : Type 0
TokenPair = Str × Str

instance abbrev pub token_pair_ord : Ord TokenPair
token_pair_ord = fields_ord ⦃a = str_ord⦄ ⦃b = str_ord⦄

abbrev pub ClosedAccounts : Type 0
ClosedAccounts = List (Str × AccountVersion)

-- `and_modify` with the test of the newer version, `or_insert` with the candidate.
abbrev pub newer_version : AccountVersion → Option AccountVersion → AccountVersion
newer_version candidate none = candidate
newer_version candidate (some current) = if gtb candidate current then candidate else current

unfoldable pub remember_close_candidate :
    (Bytes → Str) → ClosedAccounts → StoredAccountMeta → ℕ → ClosedAccounts
remember_close_candidate pubkey_string candidates account account_slot =
    upsert ⦃o = str_ord⦄ (pubkey_string account.meta.pubkey)
      (newer_version (record { updated_slot = account_slot })) candidates

abbrev pub is_close_tombstone_candidate : ℕ → Bool
is_close_tombstone_candidate lamports = lamports == 0

abbrev pub is_canonical_empty_account : ℕ → ℕ → Bytes → Bool → Bool
is_canonical_empty_account data_len lamports owner executable =
    data_len == 0 && (lamports == 0 && (same_pubkey owner default_pubkey && not executable))

pub record ParallelWorkerStats : Type 0 where
  pub append_vecs_total : ℕ
  pub nonempty_zero_account_append_vecs : ℕ
  pub zero_balance_token_accounts_omitted_from_full_baseline : ℕ
  pub spl_token_owner_accounts_seen : ℕ
  pub spl_token_accounts_parsed : ℕ
  pub spl_token_unexpected_size : ℕ
  pub spl_token_unpack_failed : ℕ
  pub token_2022_owner_accounts_seen : ℕ
  pub token_2022_accounts_parsed : ℕ
  pub token_2022_unexpected_size : ℕ
  pub token_2022_unpack_failed : ℕ
  pub closed_token_accounts : ClosedAccounts
  pub affected_pairs : List TokenPair

abbrev pub merge_closed : ClosedAccounts → ClosedAccounts → ClosedAccounts
merge_closed own [] = own
merge_closed own ((pubkey, version) ∷ other) =
    merge_closed (upsert ⦃o = str_ord⦄ pubkey (newer_version version) own) other

abbrev pub extend : List TokenPair → List TokenPair → List TokenPair
extend own [] = own
extend own (pair ∷ other) = extend (insert ⦃o = token_pair_ord⦄ pair own) other

unfoldable pub merge : ParallelWorkerStats → ParallelWorkerStats → ParallelWorkerStats
merge own other = record {
  append_vecs_total = own.append_vecs_total + other.append_vecs_total;
  nonempty_zero_account_append_vecs =
      own.nonempty_zero_account_append_vecs + other.nonempty_zero_account_append_vecs;
  zero_balance_token_accounts_omitted_from_full_baseline =
      own.zero_balance_token_accounts_omitted_from_full_baseline
      + other.zero_balance_token_accounts_omitted_from_full_baseline;
  spl_token_owner_accounts_seen =
      own.spl_token_owner_accounts_seen + other.spl_token_owner_accounts_seen;
  spl_token_accounts_parsed = own.spl_token_accounts_parsed + other.spl_token_accounts_parsed;
  spl_token_unexpected_size = own.spl_token_unexpected_size + other.spl_token_unexpected_size;
  spl_token_unpack_failed = own.spl_token_unpack_failed + other.spl_token_unpack_failed;
  token_2022_owner_accounts_seen =
      own.token_2022_owner_accounts_seen + other.token_2022_owner_accounts_seen;
  token_2022_accounts_parsed = own.token_2022_accounts_parsed + other.token_2022_accounts_parsed;
  token_2022_unexpected_size = own.token_2022_unexpected_size + other.token_2022_unexpected_size;
  token_2022_unpack_failed = own.token_2022_unpack_failed + other.token_2022_unpack_failed;
  closed_token_accounts = merge_closed own.closed_token_accounts other.closed_token_accounts;
  affected_pairs = extend own.affected_pairs other.affected_pairs;
}
