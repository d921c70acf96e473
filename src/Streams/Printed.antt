-- ===== src/Streams/Printed.antt =====
-- archived.rs and unpacked.rs: the paths that a slot and an id print to are recognised.
use solana_snapshot_etl.Prelude.{
  ℕ, ◌≡◌, refl, ap, ◌≢◌, subst, if◌then◌else◌, ◌<◌, ◌∙◌, sym, true, List, [], ◌∷◌, ◌++◌, some, ◌==◌,
  arith, filter_map, filter_map-eq, Bool-cases, inl, inr, ==_iff,
}
use mathlib.Core.Option.{some-injective}
use mathlib.Core.List.{append-nil}
use solana_snapshot_etl.Prelude.Result.{word}
use solana_snapshot_etl.Prelude.Order.{eqb_self, eq_of_eqb}
use solana_snapshot_etl.Prelude.Text.{
  Str, bytes, parse_u64, to_string, IsDecimal, to_string-IsDecimal, to_string-ne-nil,
  parse_u64-to_string, is_utf8, is_utf8-IsDecimal,
}
use solana_snapshot_etl.AppendVec.Name.{parse_append_vec_name-print}
use solana_snapshot_etl.Metadata.{str_ord}
use solana_snapshot_etl.Streams.Paths.{
  Component, normal, cur_dir, split_all, component, components, is_text, is_snapshot_manifest_file,
  is_appendvec_file,
}

-- Text without a slash is one piece.
split_all-IsDecimal :
    (s t : Str)
    → IsDecimal s
    → split_all b'/' (s ++ b'/' ∷ t) ≡ (s, (split_all b'/' t).0 ∷ (split_all b'/' t).1)
split_all-IsDecimal [] t d = refl
split_all-IsDecimal (c ∷ s) t d = ground (arith, split_all-IsDecimal s t d.1)

split_all-last : (s : Str) → IsDecimal s → split_all b'/' s ≡ (s, [])
split_all-last [] d = refl
split_all-last (c ∷ s) d = ground (arith, split_all-last s d.1)

split_all-dotted :
    (s t : Str) → IsDecimal s → IsDecimal t → split_all b'/' (s ++ b'.' ∷ t) ≡ (s ++ b'.' ∷ t, [])
split_all-dotted [] t d e = rw (split_all-last t e) refl
split_all-dotted (c ∷ s) t d e = ground (arith, split_all-dotted s t d.1 e)

-- A piece that starts with a digit is a component.
component-IsDecimal :
    (s t : Str) → s ≢ [] → IsDecimal s → component (s ++ t) ≡ some (normal (s ++ t))
component-IsDecimal [] t ne d = absurd (ne refl)
component-IsDecimal (c ∷ s) t ne d = ground (arith, d.0)

-- `snapshots/<m>/<n>`
abbrev pub snapshot_path : ℕ → ℕ → Str
snapshot_path m n = bytes "snapshots" ++ b'/' ∷ (to_string m ++ b'/' ∷ to_string n)

-- `accounts/<slot>.<id>`
abbrev pub account_path : ℕ → ℕ → Str
account_path slot id = bytes "accounts" ++ b'/' ∷ (to_string slot ++ b'.' ∷ to_string id)

component-to_string : (n : ℕ) → n < word → component (to_string n) ≡ some (normal (to_string n))
component-to_string n h =
    subst (λ s. component s ≡ some (normal s)) (append-nil (to_string n))
      (component-IsDecimal (to_string n) [] (to_string-ne-nil n) (to_string-IsDecimal n h))

-- The components of a relative path whose first piece is `dir`.
abbrev relative : Str × List Str → List Component
relative found =
    if is_text found.0 (bytes ".")
    then cur_dir ∷ filter_map component found.1
    else filter_map component (found.0 ∷ found.1)

components-snapshot_path :
    (m n : ℕ)
    → m < word
    → n < word
    → components (snapshot_path m n)
      ≡ normal (bytes "snapshots") ∷ normal (to_string m) ∷ normal (to_string n) ∷ []
unfolding components
components-snapshot_path m n hm hn =
    let last = split_all-last (to_string n) (to_string-IsDecimal n hn) in
    let both =
      split_all-IsDecimal (to_string m) (to_string n) (to_string-IsDecimal m hm)
      ∙ ap (λ r. (to_string m, r.0 ∷ r.1)) last in
    ap (λ r. relative (bytes "snapshots", r.0 ∷ r.1)) both
    ∙ ap (λ cs. normal (bytes "snapshots") ∷ cs)
        (filter_map-eq component (to_string m) (to_string n ∷ []) (component-to_string m hm)
          ∙ ap (λ cs. normal (to_string m) ∷ cs)
              (filter_map-eq component (to_string n) [] (component-to_string n hn)))

components-account_path :
    (slot id : ℕ)
    → slot < word
    → id < word
    → components (account_path slot id)
      ≡ normal (bytes "accounts") ∷ normal (to_string slot ++ b'.' ∷ to_string id) ∷ []
unfolding components
components-account_path slot id hs hi =
    let ds = to_string-IsDecimal slot hs in
    let name : Str = to_string slot ++ b'.' ∷ to_string id in
    ap (λ r. relative (bytes "accounts", r.0 ∷ r.1))
      (split_all-dotted (to_string slot) (to_string id) ds (to_string-IsDecimal id hi))
    ∙ ap (λ cs. normal (bytes "accounts") ∷ cs)
        (filter_map-eq component name []
          (component-IsDecimal (to_string slot) (b'.' ∷ to_string id) (to_string-ne-nil slot) ds))

is_utf8-to_string : (n : ℕ) → n < word → is_utf8 (to_string n) ≡ true
unfolding is_utf8
is_utf8-to_string n h =
    ap is_utf8 (sym (append-nil (to_string n)))
    ∙ is_utf8-IsDecimal (to_string n) [] (to_string-IsDecimal n h)

-- Two numbers that print alike are the same.
is_text-to_string : (m n : ℕ) → m < word → n < word → is_text (to_string m) (to_string n) ≡ (m == n)
is_text-to_string m n hm hn = elim (Bool-cases (is_text (to_string m) (to_string n))) [
  | inl same ↦
      let e = eq_of_eqb ⦃o = str_ord⦄ (to_string m) (to_string n) same in
      let q : some m ≡ some n =
        sym (parse_u64-to_string m hm) ∙ ap parse_u64 e ∙ parse_u64-to_string n hn in
      same ∙ sym ((==_iff m n).1 (some-injective m n q))
  | inr other ↦ elim (Bool-cases (m == n)) [
    | inl e ↦
        let t = eqb_self ⦃o = str_ord⦄ (to_string n) in
        let u : is_text (to_string m) (to_string n) ≡ true =
          ap (λ k. is_text (to_string k) (to_string n)) ((==_iff m n).0 e) ∙ t in
        cc
    | inr e ↦ other ∙ sym e
  ]
]

-- Among the paths `snapshots/<m>/<n>` of two `u64` slots, those of the manifest are the ones that
-- name one slot twice, and the path `accounts/<slot>.<id>` of a `u64` slot and a `u64` id is that of
-- an AppendVec.
pub is_snapshot_manifest_file-snapshot_path :
    (m n slot id : ℕ)
    → m < word
    → n < word
    → slot < word
    → id < word
    → (is_snapshot_manifest_file (snapshot_path m n) ≡ (m == n))
      × (is_appendvec_file (account_path slot id) ≡ true)
unfolding is_snapshot_manifest_file is_appendvec_file
is_snapshot_manifest_file-snapshot_path m n slot id hm hn hs hi = (
  rw (components-snapshot_path m n hm hn, is_utf8-to_string m hm, parse_u64-to_string m hm)
      (is_text-to_string m n hm hn),
  rw (components-account_path slot id hs hi, parse_append_vec_name-print slot id hs hi),
)
