-- ===== src/Watcher/Journal.antt =====
-- main.rs: what the watcher's journal says at every moment, also after an error or a crash. The journal
-- is the list of calls that took effect; which rows a group of tables holds is read off it.
use solana_snapshot_etl.Prelude.{
  ℕ, Bool, true, false, not, ◌&&◌, ◌||◌, List, [], ◌∷◌, Option, none, some, is_none, is_some, ◌≡◌,
  refl, ◌==◌, arith, if◌then◌else◌, subst, sym,
}
use solana_snapshot_etl.Import.{TableGroup, active, backup, SnapshotKind}
use solana_snapshot_etl.Watcher.{
  full_loading, cutover_pending, LaneWatcherState, WatcherState, Event, persisted, processed,
  fanned_out, opened, stopped_merges, reset, started_merges, settled, validated, exchanged,
  is_phase, CutoverWatcherState,
}

abbrev pub same_group : TableGroup → TableGroup → Bool
same_group active active = true
same_group backup backup = true
same_group _ _ = false

abbrev pub other : TableGroup → TableGroup
other active = backup
other backup = active

abbrev pub lane : TableGroup → WatcherState → LaneWatcherState
lane active s = s.active
lane backup s = s.staging

abbrev recorded : ℕ → Option ℕ → Bool
recorded n none = false
recorded n (some k) = k == n

-- The tables were exchanged, and no state was written since: the state on disk still names them the
-- other way round. Exchanging them again by the checkpoint then changes nothing.
abbrev pub moved : List Event → Bool
moved [] = false
moved (exchanged _ ∷ es) = true
moved (persisted _ ∷ es) = false
moved (processed _ _ _ ∷ es) = moved es
moved (fanned_out _ _ ∷ es) = moved es
moved (opened _ _ ∷ es) = moved es
moved (stopped_merges _ ∷ es) = moved es
moved (reset _ ∷ es) = moved es
moved (started_merges _ ∷ es) = moved es
moved (settled _ ∷ es) = moved es
moved (validated _ ∷ es) = moved es

-- The group is to be loaded, and none of it counts as committed.
abbrev pub awaits_full : LaneWatcherState → Bool
awaits_full l = is_phase l.phase full_loading && is_none l.max_slot

abbrev pub cutting : WatcherState → Bool
cutting s = is_phase s.active.phase cutover_pending && is_phase s.staging.phase cutover_pending

abbrev pub exchanging : WatcherState → Bool
exchanging s = cutting s && is_some s.cutover

-- `base` is the state that the watcher started from.
module _ (base : WatcherState) where
  -- The tables that are now the group's hold the import of an archive that ends at the slot: since
  -- they were cleared last, it was imported into them, or the watcher started with it.
  abbrev pub holds_slot : TableGroup → ℕ → List Event → Bool
  holds_slot g n [] = recorded n (lane g base).max_slot
  holds_slot g n (processed _ h k ∷ es) = (same_group g h && (k == n)) || holds_slot g n es
  holds_slot g n (fanned_out k _ ∷ es) = (k == n) || holds_slot g n es
  holds_slot g n (reset h ∷ es) = not (same_group g h) && holds_slot g n es
  holds_slot g n (exchanged _ ∷ es) =
      if moved es then holds_slot g n es else holds_slot (other g) n es
  holds_slot g n (persisted _ ∷ es) = holds_slot g n es
  holds_slot g n (opened _ _ ∷ es) = holds_slot g n es
  holds_slot g n (stopped_merges _ ∷ es) = holds_slot g n es
  holds_slot g n (started_merges _ ∷ es) = holds_slot g n es
  holds_slot g n (settled _ ∷ es) = holds_slot g n es
  holds_slot g n (validated _ ∷ es) = holds_slot g n es

  abbrev pub Holds : TableGroup → Option ℕ → List Event → Type 0
  Holds g none es = Unit
  Holds g (some n) es = holds_slot g n es ≡ true

  -- What a restart reads.
  abbrev pub last_persisted : List Event → WatcherState
  last_persisted [] = base
  last_persisted (persisted s ∷ es) = s
  last_persisted (processed _ _ _ ∷ es) = last_persisted es
  last_persisted (fanned_out _ _ ∷ es) = last_persisted es
  last_persisted (opened _ _ ∷ es) = last_persisted es
  last_persisted (stopped_merges _ ∷ es) = last_persisted es
  last_persisted (reset _ ∷ es) = last_persisted es
  last_persisted (started_merges _ ∷ es) = last_persisted es
  last_persisted (settled _ ∷ es) = last_persisted es
  last_persisted (validated _ ∷ es) = last_persisted es
  last_persisted (exchanged _ ∷ es) = last_persisted es

  -- A slot is recorded as a group's only while its tables hold the import; a group is cleared only
  -- while the state on disk says that its full archive is to be loaded; tables are exchanged only
  -- while the state on disk has both groups at the cutover and names the exchange.
  abbrev pub Allowed : Event → List Event → Type 0
  Allowed (persisted s) es = Holds active s.active.max_slot es × Holds backup s.staging.max_slot es
  Allowed (reset group) es =
      (awaits_full (lane group (last_persisted es)) ≡ true) × (moved es ≡ false)
  Allowed (exchanged checkpoint) es =
      ((last_persisted es).cutover ≡ some checkpoint) × (cutting (last_persisted es) ≡ true)
  Allowed (processed _ _ _) es = Unit
  Allowed (fanned_out _ _) es = Unit
  Allowed (opened _ _) es = Unit
  Allowed (stopped_merges _) es = Unit
  Allowed (started_merges _) es = Unit
  Allowed (settled _) es = Unit
  Allowed (validated _) es = Unit

  abbrev pub Journal : List Event → Type 0
  Journal [] = Unit
  Journal (e ∷ es) = Allowed e es × Journal es

  -- The tables hold what a state records, by its own names or, between the exchange and the next
  -- write, by the exchanged ones.
  abbrev pub HoldsBoth : Bool → WatcherState → List Event → Type 0
  HoldsBoth false s es = Holds active s.active.max_slot es × Holds backup s.staging.max_slot es
  HoldsBoth true s es = Holds backup s.active.max_slot es × Holds active s.staging.max_slot es

  abbrev pub KnownState : WatcherState → List Event → Type 0
  KnownState s es = HoldsBoth (moved es) s es

  Holds-processed :
      (g h : TableGroup) (kind : SnapshotKind) (k : ℕ) (slot : Option ℕ) (es : List Event)
      → Holds g slot es
      → Holds g slot (processed kind h k ∷ es)
  Holds-processed g h kind k none es p = tt
  Holds-processed g h kind k (some n) es p = ground (arith, p)

  Holds-fanned_out :
      (g : TableGroup) (j k : ℕ) (slot : Option ℕ) (es : List Event)
      → Holds g slot es
      → Holds g slot (fanned_out j k ∷ es)
  Holds-fanned_out g j k none es p = tt
  Holds-fanned_out g j k (some n) es p = ground (arith, p)

  KnownState-step :
      (s : WatcherState) (e : Event) (es : List Event)
      → moved (e ∷ es) ≡ moved es
      → ((g : TableGroup) (slot : Option ℕ) → Holds g slot es → Holds g slot (e ∷ es))
      → KnownState s es
      → KnownState s (e ∷ es)
  KnownState-step s e es m f k = subst (λ b. HoldsBoth b s (e ∷ es)) (sym m) (both (moved es) k)
    where
      both : (b : Bool) → HoldsBoth b s es → HoldsBoth b s (e ∷ es)
      both false (p, q) = (f active s.active.max_slot p, f backup s.staging.max_slot q)
      both true (p, q) = (f backup s.active.max_slot p, f active s.staging.max_slot q)

  -- An event that changes no tables.
  silent :
      (e : Event) (es : List Event)
      → ((g : TableGroup) (n : ℕ) → holds_slot g n (e ∷ es) ≡ holds_slot g n es)
      → (g : TableGroup) (slot : Option ℕ) → Holds g slot es
      → Holds g slot (e ∷ es)
  silent e es f g none p = tt
  silent e es f g (some n) p = rw (f g n) p

  Holds-base : (g : TableGroup) → Holds g (lane g base).max_slot []
  Holds-base g = recorded_self (lane g base).max_slot refl
    where
      recorded_self : (slot : Option ℕ) → (lane g base).max_slot ≡ slot → Holds g slot []
      recorded_self none e = tt
      recorded_self (some n) e = ground (arith, e)

  Holds-reset :
      (g h : TableGroup) (slot : Option ℕ) (es : List Event)
      → same_group g h ≡ false
      → Holds g slot es
      → Holds g slot (reset h ∷ es)
  Holds-reset g h none es e p = tt
  Holds-reset g h (some n) es e p = ground (arith, e, p)

  Holds-none :
      (g : TableGroup) (slot : Option ℕ) (es : List Event) → is_none slot ≡ true → Holds g slot es
  Holds-none g none es e = tt
  Holds-none g (some n) es e = cc

  KnownState-reset :
      (h : TableGroup) (s : WatcherState) (es : List Event)
      → awaits_full (lane h s) ≡ true
      → moved es ≡ false
      → KnownState s es
      → KnownState s (reset h ∷ es)
  KnownState-reset active s es a m k =
      let (_, q) = subst (λ b. HoldsBoth b s es) m k in
      subst (λ b. HoldsBoth b s (reset active ∷ es)) (sym m)
        (
          Holds-none active s.active.max_slot (reset active ∷ es) (ground (arith, a)),
          Holds-reset backup active s.staging.max_slot es refl q,
        )
  KnownState-reset backup s es a m k =
      let (p, _) = subst (λ b. HoldsBoth b s es) m k in
      subst (λ b. HoldsBoth b s (reset backup ∷ es)) (sym m)
        (
          Holds-reset active backup s.active.max_slot es refl p,
          Holds-none backup s.staging.max_slot (reset backup ∷ es) (ground (arith, a)),
        )

  Holds-exchanged :
      (g : TableGroup) (c : CutoverWatcherState) (slot : Option ℕ) (es : List Event)
      → Holds (if moved es then g else other g) slot es
      → Holds g slot (exchanged c ∷ es)
  Holds-exchanged g c none es p = tt
  Holds-exchanged g c (some n) es p = ground (arith, p)

  KnownState-exchanged :
      (c : CutoverWatcherState) (s : WatcherState) (es : List Event)
      → KnownState s es
      → KnownState s (exchanged c ∷ es)
  KnownState-exchanged c s es k =
      let (p, q) = placed (moved es) k in
      (
        Holds-exchanged backup c s.active.max_slot es p,
        Holds-exchanged active c s.staging.max_slot es q,
      )
    where
      placed :
          (b : Bool)
          → HoldsBoth b s es
          → Holds (if b then backup else active) s.active.max_slot es
            × Holds (if b then active else backup) s.staging.max_slot es
      placed true k = k
      placed false k = k

  pub last_persisted-Known : (es : List Event) → Journal es → KnownState (last_persisted es) es
  last_persisted-Known [] j = (Holds-base active, Holds-base backup)
  last_persisted-Known (persisted s ∷ es) (k, j) = (
    silent (persisted s) es (λ g n. refl) active s.active.max_slot k.0,
    silent (persisted s) es (λ g n. refl) backup s.staging.max_slot k.1,
  )
  last_persisted-Known (processed kind h k ∷ es) (_, j) =
      KnownState-step _ (processed kind h k) es refl (λ g slot. Holds-processed g h kind k slot es)
        (last_persisted-Known es j)
  last_persisted-Known (fanned_out a b ∷ es) (_, j) =
      KnownState-step _ (fanned_out a b) es refl (λ g slot. Holds-fanned_out g a b slot es)
        (last_persisted-Known es j)
  last_persisted-Known (reset h ∷ es) ((a, m), j) =
      KnownState-reset h (last_persisted es) es a m (last_persisted-Known es j)
  last_persisted-Known (exchanged c ∷ es) (_, j) =
      KnownState-exchanged c (last_persisted es) es (last_persisted-Known es j)
  last_persisted-Known (opened a b ∷ es) (_, j) =
      KnownState-step _ (opened a b) es refl (silent (opened a b) es (λ g n. refl))
        (last_persisted-Known es j)
  last_persisted-Known (stopped_merges a ∷ es) (_, j) =
      KnownState-step _ (stopped_merges a) es refl (silent (stopped_merges a) es (λ g n. refl))
        (last_persisted-Known es j)
  last_persisted-Known (started_merges a ∷ es) (_, j) =
      KnownState-step _ (started_merges a) es refl (silent (started_merges a) es (λ g n. refl))
        (last_persisted-Known es j)
  last_persisted-Known (settled a ∷ es) (_, j) =
      KnownState-step _ (settled a) es refl (silent (settled a) es (λ g n. refl))
        (last_persisted-Known es j)
  last_persisted-Known (validated a ∷ es) (_, j) =
      KnownState-step _ (validated a) es refl (silent (validated a) es (λ g n. refl))
        (last_persisted-Known es j)

  -- Between an exchange and the next write, the state on disk has both groups at the cutover and
  -- names the exchange.
  pub last_persisted-exchanging :
      (es : List Event) → Journal es → (not (moved es) || exchanging (last_persisted es)) ≡ true
  last_persisted-exchanging [] j = refl
  last_persisted-exchanging (persisted s ∷ es) j = refl
  last_persisted-exchanging (processed _ _ _ ∷ es) j = last_persisted-exchanging es j.1
  last_persisted-exchanging (fanned_out _ _ ∷ es) j = last_persisted-exchanging es j.1
  last_persisted-exchanging (reset _ ∷ es) j = last_persisted-exchanging es j.1
  last_persisted-exchanging (exchanged _ ∷ es) j = ground (arith, j.0)
  last_persisted-exchanging (opened _ _ ∷ es) j = last_persisted-exchanging es j.1
  last_persisted-exchanging (stopped_merges _ ∷ es) j = last_persisted-exchanging es j.1
  last_persisted-exchanging (started_merges _ ∷ es) j = last_persisted-exchanging es j.1
  last_persisted-exchanging (settled _ ∷ es) j = last_persisted-exchanging es j.1
  last_persisted-exchanging (validated _ ∷ es) j = last_persisted-exchanging es j.1
