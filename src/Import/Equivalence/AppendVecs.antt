-- ===== src/Import/Equivalence/AppendVecs.antt =====
-- clickhouse.rs: the accounts of an AppendVec, through one `FullFanoutWorker` and through two
-- `Worker`s.
use solana_snapshot_etl.Prelude.{
  ℕ, ◌+◌, Bool, true, false, ◌&&◌, List, [], ◌∷◌, Option, none, some, ◌>>=◌, if◌then◌else◌, ◌==◌,
  ltb, ◌≡◌, refl, ap, ◌∙◌, arith, Option-cases, inl, inr,
}
use solana_snapshot_etl.AppendVec.{AppendVec, StoredAccountMeta, len}
use solana_snapshot_etl.Import.{Sink}
use solana_snapshot_etl.Import.Programs.{Programs}
use solana_snapshot_etl.Import.Worker.{Worker, accounts_of, on_sink}
use solana_snapshot_etl.Import.Fanout.{FanoutConfig, FullFanoutWorker}
use solana_snapshot_etl.Import.Equivalence.{full_config, tail_config, both, in_tail, fuse, step}
use solana_snapshot_etl.Import.Equivalence.Accounts.{worker_rest, fanout_rest, rest_lem}
use solana_snapshot_etl.Import.Worker
use solana_snapshot_etl.Import.Fanout
use solana_snapshot_etl.Import.Fanout.Inserts
use solana_snapshot_etl.Import.Rows

in_tail->>= {ℓ} :
    {A : Type ℓ} (tail : Bool) (f g : A → Option A) (a : A)
    → in_tail tail (λ x. f x >>= g) a ≡ (in_tail tail f a >>= in_tail tail g)
in_tail->>= true f g a = refl
in_tail->>= false f g a = refl

>>=-some {ℓ κ} :
    {A : Type ℓ} {B : Type κ} (f : A → B) (m : Option A)
    → (m >>= (λ a. some (f a)) >>= some) ≡ (m >>= λ a. some (f a))
>>=-some f none = refl
>>=-some f (some a) = refl

module _ (programs : Programs) {S : Type 0} (io : Sink S) (config : FanoutConfig) where
  -- A worker of the active tables that only has its old rows committed.
  abbrev pub commit : Worker S → Option (Worker S)
  commit = on_sink programs io (tail_config config) io.maybe_force_commit

  abbrev pub active_account : Bool → StoredAccountMeta → ℕ → Worker S → Option (Worker S)
  active_account true account account_slot =
      Worker.insert_account programs io (tail_config config) account account_slot
  active_account false account account_slot = commit

  abbrev pub active_accounts : Bool → List StoredAccountMeta → ℕ → Worker S → Option (Worker S)
  active_accounts tail [] account_slot wa = some wa
  active_accounts tail (account ∷ accounts) account_slot wa =
      active_account tail account account_slot wa >>= active_accounts tail accounts account_slot

  -- One account, a call at a time, from the last.
  module _ (tail : Bool) (account : StoredAccountMeta) (account_slot n z : ℕ) where
    abbrev write : S → Option S
    write = io.write_account (Rows.account_row programs account config.snapshot_slot)

    abbrev full_rest : Worker S → Option (Worker S)
    full_rest = worker_rest programs io config tail account account_slot (full_config config)

    abbrev full_write : Worker S → Option (Worker S)
    full_write ws = on_sink programs io (full_config config) write ws >>= full_rest

    abbrev active_rest : Worker S → Option (Worker S)
    active_rest = worker_rest programs io config tail account account_slot (tail_config config)

    abbrev active_write : Worker S → Option (Worker S)
    active_write wa = on_sink programs io (tail_config config) write wa >>= active_rest

    abbrev fused_rest : FullFanoutWorker S → Option (FullFanoutWorker S)
    fused_rest = fanout_rest programs io config tail account account_slot

    abbrev after_staging : FullFanoutWorker S → Option (FullFanoutWorker S)
    after_staging w = Fanout.on_active programs io config tail write w >>= fused_rest

    abbrev after_commits : FullFanoutWorker S → Option (FullFanoutWorker S)
    after_commits w = Fanout.on_staging programs io config true write w >>= after_staging

    abbrev after_commit : FullFanoutWorker S → Option (FullFanoutWorker S)
    after_commit w =
        Fanout.on_staging programs io config true io.maybe_force_commit w >>= after_commits

    on_active_lem :
        (on : Bool) (call : S → Option S) (ws wa : Worker S)
        → Fanout.on_active programs io config on call (fuse n z ws wa)
          ≡ both
              (fuse n z)
              (some ws)
              (in_tail on (on_sink programs io (tail_config config) call) wa)
    on_active_lem on call ws wa = ground arith

    on_staging_lem :
        (call : S → Option S) (ws wa : Worker S)
        → Fanout.on_staging programs io config true call (fuse n z ws wa)
          ≡ both (fuse n z) (on_sink programs io (full_config config) call ws) (some wa)
    on_staging_lem call ws wa = ground arith

    after_staging_lem :
        (ws wa : Worker S)
        → after_staging (fuse n z ws wa)
          ≡ both (fuse n z) (full_rest ws) (in_tail tail active_write wa)
    after_staging_lem ws wa =
        rw (in_tail->>= tail (on_sink programs io (tail_config config) write) active_rest wa) (
          step n z (some ws) (in_tail tail (on_sink programs io (tail_config config) write) wa)
            fused_rest full_rest (in_tail tail active_rest) (on_active_lem tail write ws wa)
            (rest_lem programs io config tail account account_slot n z))

    after_commits_lem :
        (ws wa : Worker S)
        → after_commits (fuse n z ws wa)
          ≡ both (fuse n z) (full_write ws) (in_tail tail active_write wa)
    after_commits_lem ws wa =
        step n z (on_sink programs io (full_config config) write ws) (some wa) after_staging
          full_rest (in_tail tail active_write) (on_staging_lem write ws wa) after_staging_lem

    after_commit_lem :
        (ws wa : Worker S)
        → after_commit (fuse n z ws wa)
          ≡ both
              (fuse n z)
              (on_sink programs io (full_config config) io.maybe_force_commit ws >>= full_write)
              (in_tail tail active_write wa)
    after_commit_lem ws wa =
        step n z (on_sink programs io (full_config config) io.maybe_force_commit ws) (some wa)
          after_commits full_write (in_tail tail active_write)
          (on_staging_lem io.maybe_force_commit ws wa) after_commits_lem

    insert_account_tail :
        (ws wa : Worker S)
        → Inserts.insert_account programs io config account account_slot tail (fuse n z ws wa)
          ≡ both
              (fuse n z)
              (Worker.insert_account programs io (full_config config) account account_slot ws)
              (commit wa >>= in_tail tail active_write)
    unfolding Inserts.insert_account Worker.insert_account
    insert_account_tail ws wa =
        step n z (some ws) (commit wa) after_commit
          (λ w. on_sink programs io (full_config config) io.maybe_force_commit w >>= full_write)
          (in_tail tail active_write) (on_active_lem true io.maybe_force_commit ws wa)
          after_commit_lem

  insert_account_lem :
      (tail : Bool) (account : StoredAccountMeta) (account_slot n z : ℕ) (ws wa : Worker S)
      → Inserts.insert_account programs io config account account_slot tail (fuse n z ws wa)
        ≡ both
            (fuse n z)
            (Worker.insert_account programs io (full_config config) account account_slot ws)
            (active_account tail account account_slot wa)
  unfolding Worker.insert_account
  insert_account_lem true account account_slot n z ws wa =
      insert_account_tail true account account_slot n z ws wa
  insert_account_lem false account account_slot n z ws wa =
      insert_account_tail false account account_slot n z ws wa
      ∙ ap
          (both (fuse n z)
            (Worker.insert_account programs io (full_config config) account account_slot ws))
          (>>=-some (λ sink. record wa { sink = sink }) (io.maybe_force_commit wa.sink))

  insert_accounts_lem :
      (tail : Bool) (accounts : List StoredAccountMeta) (account_slot n z : ℕ) (ws wa : Worker S)
      → Inserts.insert_accounts programs io config accounts account_slot tail (fuse n z ws wa)
        ≡ both
            (fuse n z)
            (Worker.insert_accounts programs io (full_config config) accounts account_slot ws)
            (active_accounts tail accounts account_slot wa)
  unfolding Inserts.insert_accounts Worker.insert_accounts
  insert_accounts_lem tail [] account_slot n z ws wa = refl
  insert_accounts_lem tail (account ∷ accounts) account_slot n z ws wa =
      step n z (Worker.insert_account programs io (full_config config) account account_slot ws)
        (active_account tail account account_slot wa)
        (Inserts.insert_accounts programs io config accounts account_slot tail)
        (Worker.insert_accounts programs io (full_config config) accounts account_slot)
        (active_accounts tail accounts account_slot)
        (insert_account_lem tail account account_slot n z ws wa)
        (insert_accounts_lem tail accounts account_slot n z)

  -- The active worker with an AppendVec, if its slot is greater than the one to resume at.
  abbrev pub active_append_vec : AppendVec → Worker S → Option (Worker S)
  active_append_vec append_vec wa = accounts_of append_vec >>= λ accounts.
      active_accounts (ltb config.active_resume_slot append_vec.slot) accounts append_vec.slot wa

  -- One more AppendVec, and one without accounts where it is not empty.
  abbrev pub counted : ℕ → ℕ → AppendVec → ℕ × Worker S → Worker S → ℕ × FullFanoutWorker S
  counted n z append_vec (parsed_accounts, ws) wa = (
    parsed_accounts,
    fuse (n + 1) (if ltb 0 (len append_vec) && parsed_accounts == 0 then z + 1 else z) ws wa,
  )

  -- One shared worker does to an AppendVec what two workers do: a worker of the staging tables, and
  -- one of the active tables that takes the AppendVec only if its slot is greater than the one to
  -- resume at, and otherwise has its old rows committed. It fails exactly if one of them fails; the sinks
  -- and the patches are those of both, the counters are the first one's, the candidates for
  -- tombstones and the affected pairs the second one's.
  pub on_append_vec_count_lem :
      (append_vec : AppendVec) (n z : ℕ) (ws wa : Worker S)
      → Inserts.on_append_vec_count programs io config append_vec (fuse n z ws wa)
        ≡ both
            (counted n z append_vec)
            (Worker.on_append_vec_count programs io (full_config config) append_vec ws)
            (active_append_vec append_vec wa)
  unfolding Inserts.on_append_vec_count Worker.on_append_vec_count
  on_append_vec_count_lem append_vec n z ws wa = elim (Option-cases (accounts_of append_vec)) [
    | inl e ↦ rw e refl
    | inr (accounts, e) ↦
        let tail : Bool = ltb config.active_resume_slot append_vec.slot in
        ground (arith, e, insert_accounts_lem tail accounts append_vec.slot (n + 1) z ws wa)
  ]
