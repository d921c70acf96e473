-- ===== src/AppendVec/Accounts.antt =====
-- lib.rs: the two ways to walk through the accounts of an AppendVec. The loops take fuel.
use solana_snapshot_etl.Prelude.{ℕ, zero, suc, List, [], ◌∷◌, map}
use solana_snapshot_etl.AppendVec.{
  AppendVec, StoredAccountMeta, Get, hit, miss, panic, and_then, get_account, len,
}

-- How a loop ends.
pub data Run {ℓ} (A : Type ℓ) : Type ℓ where
  done : A → Run A
  panicked out_of_fuel : Run A

abbrev pub map_run {ℓ κ} : {A : Type ℓ} {B : Type κ} → (A → B) → Run A → Run B
map_run f (done a) = done (f a)
map_run f panicked = panicked
map_run f out_of_fuel = out_of_fuel

pub record StoredAccountMetaHandle : Type 0 where
  pub append_vec : AppendVec
  pub offset : ℕ

abbrev pub access : StoredAccountMetaHandle → Get StoredAccountMeta
access handle = and_then (get_account handle.append_vec handle.offset) λ (account, _). hit account

-- The `loop` that collects the offsets.
unfoldable pub collect_offsets : ℕ → AppendVec → ℕ → Run (List ℕ)
collect_offsets zero append_vec offset = out_of_fuel
collect_offsets (suc fuel) append_vec offset = elim (get_account append_vec offset) [
  | miss ↦ done []
  | panic ↦ panicked
  | hit (_, next_offset) ↦ map_run (◌∷◌ offset) (collect_offsets fuel append_vec next_offset)
]

unfoldable pub append_vec_iter : ℕ → AppendVec → Run (List StoredAccountMetaHandle)
unfolding collect_offsets
append_vec_iter fuel append_vec =
    map_run (map (λ offset. record { append_vec = append_vec; offset = offset }))
      (collect_offsets fuel append_vec 0)

pub record AppendVecAccounts : Type 0 where
  pub append_vec : AppendVec
  pub offset : ℕ

-- `append_vec_accounts`
abbrev pub append_vec_accounts : AppendVec → AppendVecAccounts
append_vec_accounts append_vec = record { append_vec = append_vec; offset = 0 }

-- `Iterator::next`: the account and the iterator moved on.
unfoldable pub next : AppendVecAccounts → Get (StoredAccountMeta × AppendVecAccounts)
next it =
    and_then (get_account it.append_vec it.offset)
      λ (account, next_offset). hit (account, record it { offset = next_offset })

-- A `for` loop over the iterator.
unfoldable pub drain : ℕ → AppendVecAccounts → Run (List StoredAccountMeta)
unfolding next
drain zero it = out_of_fuel
drain (suc fuel) it = elim (next it) [
  | miss ↦ done []
  | panic ↦ panicked
  | hit (account, it') ↦ map_run (◌∷◌ account) (drain fuel it')
]

-- An account takes 136 bytes or more, so as many rounds as there are bytes are enough.
abbrev pub enough : AppendVec → ℕ
enough v = suc (len v)
