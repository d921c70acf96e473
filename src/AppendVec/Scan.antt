-- ===== src/AppendVec/Scan.antt =====
-- lib.rs: both walks over an AppendVec end, find the same accounts, and cover a run of records that
-- touch one another.
use native.Mathlib.Decide.{dec_le}
use solana_snapshot_etl.Prelude.{
  ℕ, zero, suc, ◌+◌, ◌*◌, ◌%◌, ◌≤◌, ◌<◌, ◌≡◌, refl, ap, sym, ◌∙◌, List, [], ◌∷◌, map, arith,
}
use solana_snapshot_etl.AppendVec.{
  AppendVec, StoredAccountMeta, hit, miss, and_then, get_account, len,
}
use solana_snapshot_etl.AppendVec.Bounds.{
  IsValid, align, meta_at, account_at, get_account-hit, get_account-miss,
}
use solana_snapshot_etl.AppendVec.Accounts.{
  done, map_run, StoredAccountMetaHandle, access, collect_offsets, append_vec_iter,
  append_vec_accounts, drain, enough,
}

module _ (v : AppendVec) where
  -- The record that starts at `offset` lies inside the file.
  abbrev pub Fits : ℕ → Type 0
  Fits offset = offset + 136 + (meta_at v offset).data_len ≤ len v

  -- Where the record after it starts.
  abbrev pub after : ℕ → ℕ
  after offset = offset + align (136 + (meta_at v offset).data_len)

  -- The offsets are those of the records from `offset` on, each where the one before ends, up to
  -- the first that does not fit.
  abbrev pub Chain : ℕ → List ℕ → Type 0
  Chain offset [] = ¬ (Fits offset)
  Chain offset (o ∷ os) = (o ≡ offset) × Fits offset × Chain (after offset) os

-- One round of each loop.
module _ (fuel : ℕ) (v : AppendVec) (offset : ℕ) where
  collect_offsets-miss : get_account v offset ≡ miss → collect_offsets (suc fuel) v offset ≡ done []
  unfolding collect_offsets
  collect_offsets-miss e = rw (e, collect_offsets)

  collect_offsets-hit :
      (a : StoredAccountMeta) (n : ℕ)
      → get_account v offset ≡ hit (a, n)
      → collect_offsets (suc fuel) v offset ≡ map_run (◌∷◌ offset) (collect_offsets fuel v n)
  unfolding collect_offsets
  collect_offsets-hit a n e = rw (e, collect_offsets)

  drain-miss :
      get_account v offset ≡ miss
      → drain (suc fuel) (record { append_vec = v; offset = offset }) ≡ done []
  unfolding drain
  drain-miss e = rw (e, drain)

  drain-hit :
      (a : StoredAccountMeta) (n : ℕ)
      → get_account v offset ≡ hit (a, n)
      → drain (suc fuel) (record { append_vec = v; offset = offset })
        ≡ map_run (◌∷◌ a) (drain fuel (record { append_vec = v; offset = n }))
  unfolding drain
  drain-hit a n e = rw (e, drain)

module _ (v : AppendVec) (h : IsValid v) where
  -- Rounds enough to reach the end of the file from `offset`.
  abbrev pub Enough : ℕ → ℕ → Type 0
  Enough fuel offset = (0 < fuel) × (len v < offset + fuel * 136)

  Enough-after :
      (fuel offset : ℕ) → Fits v offset → Enough (suc fuel) offset → Enough fuel (after v offset)
  Enough-after zero offset fits f = absurd (omega arith)
  Enough-after (suc fuel) offset fits f = omega arith

  after_aligned : (offset : ℕ) → offset % 8 ≡ 0 → after v offset % 8 ≡ 0
  after_aligned offset a = omega arith

  -- The offsets from an aligned start, with enough fuel.
  pub collect_offsets-Chain :
      (fuel offset : ℕ)
      → offset % 8 ≡ 0
      → Enough fuel offset
      → (offsets : List ℕ) × (collect_offsets fuel v offset ≡ done offsets) × Chain v offset offsets
  collect_offsets-Chain zero offset a f = absurd (omega arith)
  collect_offsets-Chain (suc fuel) offset a f =
      elim (dec_le (offset + 136 + (meta_at v offset).data_len) (len v)) [
        | no over ↦
            ([], collect_offsets-miss fuel v offset (get_account-miss v offset h a over), over)
        | yes fits ↦
            let (os, e, c) =
              collect_offsets-Chain fuel (after v offset) (after_aligned offset a)
                (Enough-after fuel offset fits f) in
            let step : collect_offsets (suc fuel) v offset
                ≡ map_run (◌∷◌ offset) (collect_offsets fuel v (after v offset)) =
              collect_offsets-hit fuel v offset (account_at v offset) (after v offset)
                (get_account-hit v offset h a fits) in
            (offset ∷ os, step ∙ ap (map_run (◌∷◌ offset)) e, (refl, fits, c))
      ]

  -- The iterator that parses each account once gives the account of each of those offsets.
  pub drain-Chain :
      (fuel offset : ℕ)
      → offset % 8 ≡ 0
      → Enough fuel offset
      → (offsets : List ℕ) → Chain v offset offsets
      → drain fuel (record { append_vec = v; offset = offset }) ≡ done (map (account_at v) offsets)
  drain-Chain zero offset a f os c = absurd (omega arith)
  drain-Chain (suc fuel) offset a f [] over =
      drain-miss fuel v offset (get_account-miss v offset h a over)
  drain-Chain (suc fuel) offset a f (o ∷ os) (e, fits, c) =
      drain-hit fuel v offset (account_at v offset) (after v offset)
        (get_account-hit v offset h a fits)
      ∙ ap (map_run (◌∷◌ (account_at v offset))) (
          drain-Chain fuel (after v offset) (after_aligned offset a)
            (Enough-after fuel offset fits f) os c)
      ∙ ap (λ k. done (account_at v k ∷ map (account_at v) os)) (sym e)

  abbrev handle : ℕ → StoredAccountMetaHandle
  handle o = record { append_vec = v; offset = o }

  access-Chain :
      (offset : ℕ) (offsets : List ℕ)
      → offset % 8 ≡ 0
      → Chain v offset offsets
      → map access (map handle offsets) ≡ map hit (map (account_at v) offsets)
  access-Chain offset [] a c = refl
  access-Chain offset (o ∷ os) a (e, fits, c) =
      let found : get_account v o ≡ hit (account_at v o, after v o) =
        get_account-hit v o h (rw e a) (rw e fits) in
      let rest : map access (map handle os) ≡ map hit (map (account_at v) os) =
        access-Chain (after v offset) os (after_aligned offset a) c in
      λ i. and_then (found i) (λ (account, _). hit account) ∷ rest i

  offset-account_at : (os : List ℕ) → map (λ a. a.offset) (map (account_at v) os) ≡ os
  offset-account_at [] = refl
  offset-account_at (o ∷ os) = ap (◌∷◌ o) (offset-account_at os)

  -- Both walks over a valid file end without a panic: `append_vec_iter` yields handles whose
  -- accesses succeed, `append_vec_accounts` yields the accounts that those accesses give, and the
  -- accounts are those of the records that stand end to end from the start of the file up to the
  -- first record that does not fit.
  pub append_vec_iter-append_vec_accounts :
      (offsets : List ℕ) × (handles : List StoredAccountMetaHandle) × (accounts : List
        StoredAccountMeta)
      × Chain v 0 offsets
      × (append_vec_iter (enough v) v ≡ done handles)
      × (drain (enough v) (append_vec_accounts v) ≡ done accounts)
      × (map access handles ≡ map hit accounts)
      × (map (λ a. a.offset) accounts ≡ offsets)
  unfolding append_vec_iter
  append_vec_iter-append_vec_accounts =
      let fuel : Enough (enough v) 0 = omega arith in
      let (os, e, c) = collect_offsets-Chain (enough v) 0 (omega arith) fuel in
      (
        os,
        map handle os,
        map (account_at v) os,
        c,
        ap (map_run (map handle)) e,
        drain-Chain (enough v) 0 (omega arith) fuel os c,
        access-Chain 0 os (omega arith) c,
        offset-account_at os,
      )
