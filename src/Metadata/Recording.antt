-- ===== src/Metadata/Recording.antt =====
-- clickhouse.rs `record_metadata_fields` and `record_extensions`: parser workers share one map of
-- patches, and the order in which their recordings arrive does not matter.
use mathlib.Core.Logic.{∥∥₁_elim}
use mathlib.Core.List.{Perm, Permᴰ}
use solana_snapshot_etl.Prelude.{
  Bool, not, true, false, List, [], ◌∷◌, ◌++◌, Option, none, some, ◌≡◌, refl, ap, ◌∙◌, arith,
  if◌then◌else◌, unwrap_or,
}
use solana_snapshot_etl.Prelude.Order.{Ord, gtb, eqb, eq_of_eqb, eqb_self}
use solana_snapshot_etl.Prelude.Text.{Str}
use solana_snapshot_etl.Prelude.Map.{get, get-upsert}
use solana_snapshot_etl.Metadata.{
  str_ord, VersionedMetadataFields, VersionedExtensions, MetadataPatch, MetadataPatches,
  versioned_fields_ord, versioned_extensions_ord, keep_newer, record_metadata_fields,
  record_extensions, patch_fields, patch_extensions, default_patch,
}

module _ {ℓ} {A : Type ℓ} ⦃o : Ord A⦄ where
  -- The greater of two candidates is kept whichever comes first.
  keep_newer_comm :
      (c : Option A) (a b : A) → keep_newer (keep_newer c a) b ≡ keep_newer (keep_newer c b) a
  unfolding keep_newer
  keep_newer_comm none a b = ground (arith, o.cmp_flip a b, o.eq_of_cmp a b)
  keep_newer_comm (some c) a b = ground (
    arith,
    o.cmp_flip a b,
    o.cmp_flip a c,
    o.cmp_flip b c,
    o.eq_of_cmp a b,
    o.eq_of_cmp a c,
    o.eq_of_cmp b c,
    o.cmp_trans a b c,
    o.cmp_trans b a c,
    o.cmp_trans c a b,
    o.cmp_trans c b a,
    o.cmp_trans a c b,
    o.cmp_trans b c a,
  )

  -- Something is kept, and `c` is not above it.
  abbrev pub covers : A → Option A → Bool
  covers c none = false
  covers c (some v) = not (gtb c v)

  covers-keep_newer :
      (c d : A) (kept : Option A) → covers c kept ≡ true → covers c (keep_newer kept d) ≡ true
  unfolding keep_newer
  covers-keep_newer c d none h = cc
  covers-keep_newer c d (some v) h = ground (
    arith,
    o.cmp_flip c v,
    o.cmp_flip d v,
    o.cmp_flip c d,
    o.eq_of_cmp c v,
    o.eq_of_cmp c d,
    o.eq_of_cmp d v,
    o.cmp_trans c v d,
    o.cmp_trans v d c,
    o.cmp_trans v c d,
    o.cmp_trans d c v,
  )

  covers-keep_newer_self : (c : A) (kept : Option A) → covers c (keep_newer kept c) ≡ true
  unfolding keep_newer
  covers-keep_newer_self c none = ground (arith, o.cmp_self c)
  covers-keep_newer_self c (some v) = ground (arith, o.cmp_self c)

-- One call of a recording function.
pub data Recording : Type 0 where
  fields : Str → VersionedMetadataFields → Recording
  extensions : Str → VersionedExtensions → Recording

abbrev pub mint_of : Recording → Str
mint_of (fields mint _) = mint
mint_of (extensions mint _) = mint

abbrev patched : Recording → Option MetadataPatch → MetadataPatch
patched (fields _ c) = patch_fields c
patched (extensions _ c) = patch_extensions c

abbrev pub play_one : Recording → MetadataPatches → MetadataPatches
play_one (fields mint c) patches = record_metadata_fields patches mint c
play_one (extensions mint c) patches = record_extensions patches mint c

abbrev pub play : List Recording → MetadataPatches → MetadataPatches
play [] patches = patches
play (r ∷ rs) patches = play rs (play_one r patches)

-- The patch of a mint.
abbrev pub patch_of : Str → MetadataPatches → Option MetadataPatch
patch_of j m = get ⦃o = str_ord⦄ j m

patch_of-play_one :
    (j : Str) (r : Recording) (m : MetadataPatches)
    → patch_of j (play_one r m) ≡ (
        if eqb ⦃o = str_ord⦄ j (mint_of r)
        then some (patched r (patch_of (mint_of r) m))
        else patch_of j m)
unfolding record_metadata_fields record_extensions
patch_of-play_one j (fields mint c) m = get-upsert ⦃o = str_ord⦄ j mint (patch_fields c) m
patch_of-play_one j (extensions mint c) m = get-upsert ⦃o = str_ord⦄ j mint (patch_extensions c) m

patched_comm :
    (a b : Recording) (found : Option MetadataPatch)
    → patched b (some (patched a found)) ≡ patched a (some (patched b found))
patched_comm (fields _ a) (fields _ b) found =
    ap (λ f. record { fields = f; extensions = (unwrap_or found default_patch).extensions })
      (keep_newer_comm (unwrap_or found default_patch).fields a b)
patched_comm (fields _ a) (extensions _ b) found = refl
patched_comm (extensions _ a) (fields _ b) found = refl
patched_comm (extensions _ a) (extensions _ b) found =
    ap (λ e. record { fields = (unwrap_or found default_patch).fields; extensions = e })
      (keep_newer_comm (unwrap_or found default_patch).extensions a b)

-- Two recordings may trade places.
play_one_comm :
    (j : Str) (a b : Recording) (m : MetadataPatches)
    → patch_of j (play_one b (play_one a m)) ≡ patch_of j (play_one a (play_one b m))
play_one_comm j a b m = ground (
  arith,
  patch_of-play_one j b (play_one a m),
  patch_of-play_one j a (play_one b m),
  patch_of-play_one j a m,
  patch_of-play_one j b m,
  patch_of-play_one (mint_of b) a m,
  patch_of-play_one (mint_of a) b m,
  eq_of_eqb ⦃o = str_ord⦄ j (mint_of a),
  eq_of_eqb ⦃o = str_ord⦄ j (mint_of b),
  eq_of_eqb ⦃o = str_ord⦄ (mint_of a) (mint_of b),
  eq_of_eqb ⦃o = str_ord⦄ (mint_of b) (mint_of a),
  eqb_self ⦃o = str_ord⦄ (mint_of a),
  patched_comm a b (patch_of (mint_of a) m),
)

-- Maps that read alike.
abbrev pub SamePatches : MetadataPatches → MetadataPatches → Type 0
SamePatches m n = (j : Str) → patch_of j m ≡ patch_of j n

play_one-SamePatches :
    (r : Recording) (m n : MetadataPatches)
    → SamePatches m n
    → SamePatches (play_one r m) (play_one r n)
play_one-SamePatches r m n h j =
    ground (arith, patch_of-play_one j r m, patch_of-play_one j r n, h j, h (mint_of r))

play-SamePatches :
    (rs : List Recording) (m n : MetadataPatches)
    → SamePatches m n
    → SamePatches (play rs m) (play rs n)
play-SamePatches [] m n h = h
play-SamePatches (r ∷ rs) m n h = play-SamePatches rs _ _ (play_one-SamePatches r m n h)

play-Permᴰ :
    {rs ss : List Recording}
    → Permᴰ rs ss
    → (m : MetadataPatches) → SamePatches (play rs m) (play ss m)
play-Permᴰ Permᴰ.nil m j = refl
play-Permᴰ (Permᴰ.cons {a = a} {l₂ = l₂} e p) m j =
    play-Permᴰ p (play_one a m) j ∙ ap (λ r. patch_of j (play l₂ (play_one r m))) e
play-Permᴰ (Permᴰ.swap {a = a} {b = b} {l = l} e f) m j =
    play-SamePatches l _ _ (λ k. play_one_comm k a b m) j
    ∙ (λ i. patch_of j (play l (play_one (e i) (play_one (f i) m))))
play-Permᴰ (Permᴰ.trans p q) m j = play-Permᴰ p m j ∙ play-Permᴰ q m j

patch_set : IsSet (Option MetadataPatch)
patch_set = hlevel

-- Recordings that arrive in another order leave the same patch for every mint.
pub play-perm :
    {rs ss : List Recording} (m : MetadataPatches) (mint : Str)
    → Perm rs ss
    → patch_of mint (play rs m) ≡ patch_of mint (play ss m)
play-perm m mint p = ∥∥₁_elim p (patch_set _ _) (λ d. play-Permᴰ d m mint)

-- The patch holds what was recorded, or what is above it.
abbrev pub holds : Recording → Option MetadataPatch → Bool
holds r none = false
holds (fields _ c) (some p) = covers c p.fields
holds (extensions _ c) (some p) = covers c p.extensions

patched-holds :
    (r c : Recording) (found : Option MetadataPatch)
    → holds c found ≡ true
    → holds c (some (patched r found)) ≡ true
patched-holds r c none h = cc
patched-holds (fields _ d) (fields _ c) (some p) h = covers-keep_newer c d p.fields h
patched-holds (fields _ _) (extensions _ _) (some p) h = h
patched-holds (extensions _ _) (fields _ _) (some p) h = h
patched-holds (extensions _ d) (extensions _ c) (some p) h = covers-keep_newer c d p.extensions h

patched-holds_self :
    (c : Recording) (found : Option MetadataPatch) → holds c (some (patched c found)) ≡ true
patched-holds_self (fields _ c) found =
    covers-keep_newer_self c (unwrap_or found default_patch).fields
patched-holds_self (extensions _ c) found =
    covers-keep_newer_self c (unwrap_or found default_patch).extensions

play-holds :
    (rs : List Recording) (mint : Str) (c : Recording) (m : MetadataPatches)
    → holds c (patch_of mint m) ≡ true
    → holds c (patch_of mint (play rs m)) ≡ true
play-holds [] mint c m h = h
play-holds (r ∷ rs) mint c m h = play-holds rs mint c (play_one r m) (
    ground (
      arith,
      patch_of-play_one mint r m,
      eq_of_eqb ⦃o = str_ord⦄ mint (mint_of r),
      patched-holds r c (patch_of mint m),
    ))

-- Whatever else is recorded before and after, the patch that a mint ends with is at least as new as
-- each candidate that was recorded for it, of fields or of extensions.
pub play-newest :
    (before later : List Recording) (c : Recording) (m : MetadataPatches)
    → holds c (patch_of (mint_of c) (play (before ++ c ∷ later) m)) ≡ true
play-newest [] later c m = play-holds later (mint_of c) c (play_one c m) (
    ground (
      arith,
      patch_of-play_one (mint_of c) c m,
      eqb_self ⦃o = str_ord⦄ (mint_of c),
      patched-holds_self c (patch_of (mint_of c) m),
    ))
play-newest (r ∷ rs) later c m = play-newest rs later c (play_one r m)
