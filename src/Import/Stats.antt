-- ===== src/Import/Stats.antt =====
-- clickhouse.rs: the statistics of the workers, merged in the order in which the workers end.
use solana_snapshot_etl.Prelude.{
  leb, if◌then◌else◌, ◌||◌, List, [], ◌∷◌, Option, none, some, ◌≡◌, ◌∙◌, refl, arith,
}
use solana_snapshot_etl.Prelude.Order.{eq_of_eqb}
use solana_snapshot_etl.Prelude.Text.{Str}
use solana_snapshot_etl.Prelude.Map.{get, upsert, get-upsert, contains, insert, contains-insert}
use solana_snapshot_etl.Metadata.{str_ord}
use solana_snapshot_etl.Import.{
  AccountVersion, ClosedAccounts, TokenPair, token_pair_ord, newer_version, merge_closed, extend,
  ParallelWorkerStats, merge,
}

-- The map has one entry for a key.
abbrev pub IsMap : ClosedAccounts → Type 0
IsMap [] = Unit {0}
IsMap ((k, v) ∷ m) = (get ⦃o = str_ord⦄ k m ≡ none) × IsMap m

abbrev pub newest : Option AccountVersion → Option AccountVersion → Option AccountVersion
newest found none = found
newest found (some version) = some (newer_version version found)

newest_comm : (a b : Option AccountVersion) → newest a b ≡ newest b a
newest_comm a b = ground arith

get-merge_closed :
    (k : Str) (own other : ClosedAccounts)
    → IsMap other
    → get ⦃o = str_ord⦄ k (merge_closed own other)
      ≡ newest (get ⦃o = str_ord⦄ k own) (get ⦃o = str_ord⦄ k other)
get-merge_closed k own [] h = refl
get-merge_closed k own ((j, v) ∷ other) (fresh, h) =
    get-merge_closed k (upsert ⦃o = str_ord⦄ j (newer_version v) own) other h
    ∙ rw (get-upsert ⦃o = str_ord⦄ k j (newer_version v) own)
        (ground (arith, eq_of_eqb ⦃o = str_ord⦄ k j, fresh))

contains-extend :
    (p : TokenPair) (own other : List TokenPair)
    → contains ⦃o = token_pair_ord⦄ p (extend own other)
      ≡ (contains ⦃o = token_pair_ord⦄ p own || contains ⦃o = token_pair_ord⦄ p other)
contains-extend p own [] = ground arith
contains-extend p own (q ∷ other) =
    contains-extend p (insert ⦃o = token_pair_ord⦄ q own) other
    ∙ rw (contains-insert ⦃o = token_pair_ord⦄ p q own) (ground arith)

-- The same statistics: the order inside of the maps and the sets is not seen.
pub record SameStats (a b : ParallelWorkerStats) : Type 0 where
  pub counters :
      (record a { closed_token_accounts = []; affected_pairs = [] })
      ≡ (record b { closed_token_accounts = []; affected_pairs = [] })
  pub closed :
      (k : Str)
      → get ⦃o = str_ord⦄ k a.closed_token_accounts ≡ get ⦃o = str_ord⦄ k b.closed_token_accounts
  pub affected :
      (p : TokenPair)
      → contains ⦃o = token_pair_ord⦄ p a.affected_pairs
        ≡ contains ⦃o = token_pair_ord⦄ p b.affected_pairs

-- The later of the versions that there are, if any.
abbrev pub IsLatest : Option AccountVersion → Option AccountVersion → Option AccountVersion → Type 0
IsLatest none b found = found ≡ b
IsLatest (some v) none found = found ≡ some v
IsLatest (some v) (some w) found =
    found
    ≡ some (record {
      updated_slot = if leb v.updated_slot w.updated_slot then w.updated_slot else v.updated_slot;
    })

newest-IsLatest : (a b : Option AccountVersion) → IsLatest a b (newest a b)
newest-IsLatest none none = refl
newest-IsLatest none (some w) = refl
newest-IsLatest (some v) none = refl
newest-IsLatest (some v) (some w) = ground arith

-- Where the maps of closed accounts have one entry for a key, merging in either order gives the same
-- counters, the same versions of closed accounts and the same affected pairs; and of each closed
-- account the merge holds the version with the later slot of those that the two sides hold, if any,
-- and as affected pairs those of either side.
pub merge_comm :
    (a b : ParallelWorkerStats)
    → IsMap a.closed_token_accounts
    → IsMap b.closed_token_accounts
    → SameStats (merge a b) (merge b a)
      × ((k : Str)
          → IsLatest
              (get ⦃o = str_ord⦄ k a.closed_token_accounts)
              (get ⦃o = str_ord⦄ k b.closed_token_accounts)
              (get ⦃o = str_ord⦄ k (merge a b).closed_token_accounts))
      × ((p : TokenPair)
          → contains ⦃o = token_pair_ord⦄ p (merge a b).affected_pairs ≡ (
              contains ⦃o = token_pair_ord⦄ p a.affected_pairs
              || contains ⦃o = token_pair_ord⦄ p b.affected_pairs))
unfolding merge
merge_comm a b ha hb =
    (same_stats, latest, λ p. contains-extend p a.affected_pairs b.affected_pairs)
  where
    latest :
        (k : Str)
        → IsLatest
            (get ⦃o = str_ord⦄ k a.closed_token_accounts)
            (get ⦃o = str_ord⦄ k b.closed_token_accounts)
            (get ⦃o = str_ord⦄ k (merge a b).closed_token_accounts)
    latest k = rw (get-merge_closed k a.closed_token_accounts b.closed_token_accounts hb) (
        newest-IsLatest (get ⦃o = str_ord⦄ k a.closed_token_accounts)
          (get ⦃o = str_ord⦄ k b.closed_token_accounts))

    same_stats : SameStats (merge a b) (merge b a)
    same_stats = record {
      counters = ground arith;
      closed = λ k.
          rw
            (
              get-merge_closed k a.closed_token_accounts b.closed_token_accounts hb,
              get-merge_closed k b.closed_token_accounts a.closed_token_accounts ha,
            )
            (newest_comm (get ⦃o = str_ord⦄ k a.closed_token_accounts)
              (get ⦃o = str_ord⦄ k b.closed_token_accounts));
      affected = λ p.
          rw
            (
              contains-extend p a.affected_pairs b.affected_pairs,
              contains-extend p b.affected_pairs a.affected_pairs,
            )
            (ground arith);
    }
