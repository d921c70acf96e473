-- ===== src/Token2022/Reader.antt =====
-- clickhouse.rs: what the metadata reader returns on bytes laid out as Borsh lays them out.
use mathlib.Core.List.{append_assoc}
use native.Mathlib.Nat.{add_assoc}
use solana_snapshot_etl.Prelude.{
  ltb→lt, Bool-cases, inl, inr, ℕ, ◌+◌, ◌-◌, ◌*◌, ◌/◌, ◌^◌, ◌≤◌, ◌<◌, ◌≡◌, ◌≢◌, refl, ap, subst,
  ◌∙◌, true, false, List, [], ◌∷◌, ◌++◌, length, length-append, take, drop, Option, none, some, ltb,
  arith, le→leb, lt→ltb, All,
}
use solana_snapshot_etl.Prelude.Order.{eq_of_eqb}
use solana_snapshot_etl.Prelude.Result.{ok, word}
use solana_snapshot_etl.Prelude.Text.{Str, is_utf8}
use solana_snapshot_etl.Prelude.Bytes.{
  to_le, from_le-to_le, get_range, drop-append, take-append, drop_add,
}
use solana_snapshot_etl.AppendVec.{Bytes}
use solana_snapshot_etl.Metadata.{str_ord}
use solana_snapshot_etl.Token2022.{
  checked_add, MetadataReader, read_exact, read_u32, read_string, read_pubkey, skip_pairs,
  Token2022Metadata, default_pubkey, same_pubkey, optional_pubkey, parse_token_2022_metadata_value,
}

-- The reader stands before `rest` and may address all of its input.
pub record At (r : MetadataReader) (rest : Bytes) : Type 0 where
  pub here : drop r.offset r.input ≡ rest
  pub fits : r.offset + length rest ≡ length r.input
  pub addressable : length r.input < word

-- The reader `n` bytes further on.
abbrev pub advance : MetadataReader → ℕ → MetadataReader
advance r n = record r { offset = r.offset + n }

pub advance-At :
    (r : MetadataReader) (x rest : Bytes) → At r (x ++ rest) → At (advance r (length x)) rest
advance-At r x rest a = record {
  here = drop_add r.offset (length x) r.input ∙ ap (drop (length x)) a.here ∙ drop-append x rest;
  fits = omega (arith, length-append x rest, a.fits);
  addressable = a.addressable;
}

pub checked_add-At :
    (r : MetadataReader) (x rest : Bytes)
    → At r (x ++ rest)
    → checked_add r.offset (length x) ≡ some (r.offset + length x)
checked_add-At r x rest a =
    let end : r.offset + length x ≤ length r.input = omega (arith, length-append x rest, a.fits) in
    rw (lt→ltb (r.offset + length x) word (omega (arith, a.addressable))) refl

pub get_range-At :
    (r : MetadataReader) (x rest : Bytes)
    → At r (x ++ rest)
    → get_range r.offset (r.offset + length x) r.input ≡ some x
get_range-At r x rest a =
    let e : take (length x) (drop r.offset r.input) ≡ x =
      ap (take (length x)) a.here ∙ take-append x rest in
    let d : r.offset + length x - r.offset ≡ length x = omega arith in
    let end : r.offset + length x ≤ length r.input = omega (arith, length-append x rest, a.fits) in
    rw
      (
        le→leb r.offset (r.offset + length x) (omega arith),
        le→leb (r.offset + length x) (length r.input) end,
        d,
        e,
      )
      refl

read_exact-At :
    (r : MetadataReader) (x rest : Bytes)
    → At r (x ++ rest)
    → read_exact (length x) r ≡ ok (x, advance r (length x))
unfolding read_exact
read_exact-At r x rest a = rw (checked_add-At r x rest a, get_range-At r x rest a) refl

-- `u32` and a length-prefixed text, as Borsh writes them.
abbrev pub u32_bytes : ℕ → Bytes
u32_bytes n = to_le 4 n

abbrev pub string_bytes : Str → Bytes
string_bytes s = u32_bytes (length s) ++ s

read_u32-At :
    (r : MetadataReader) (n : ℕ) (rest : Bytes)
    → n < 2 ^ 32
    → At r (u32_bytes n ++ rest)
    → read_u32 r ≡ ok (n, advance r 4)
unfolding read_u32
read_u32-At r n rest h a =
    rw (read_exact-At r (u32_bytes n) rest a, from_le-to_le 4 n (omega arith))

-- A text that the reader accepts.
abbrev pub IsText : Str → Type 0
IsText s = (is_utf8 s ≡ true) × (length s < 2 ^ 32)

read_string-At :
    (r : MetadataReader) (s : Str) (rest : Bytes)
    → IsText s
    → At r (string_bytes s ++ rest)
    → read_string r ≡ ok (s, advance r (length (string_bytes s)))
unfolding read_string
read_string-At r s rest (u, n) a =
    rw
      (
        read_u32-At r (length s) (s ++ rest) n a,
        read_exact-At (advance r 4) s rest (advance-At r (u32_bytes (length s)) (s ++ rest) a),
        u,
        add_assoc r.offset 4 (length s),
      )
      (ap (λ k. ok (s, record r { offset = r.offset + k })) four_more)
  where
    four_more : 4 + length s ≡ length (string_bytes s)
    four_more = omega arith

-- The additional pairs.
abbrev pub pairs_bytes : List (Str × Str) → Bytes
pairs_bytes [] = []
pairs_bytes ((k, v) ∷ ps) = string_bytes k ++ (string_bytes v ++ pairs_bytes ps)

abbrev pub AreTexts : List (Str × Str) → Type 0
AreTexts ps = All (λ p. IsText p.0 × IsText p.1) ps

skip_pairs-At :
    (r : MetadataReader) (ps : List (Str × Str)) (rest : Bytes)
    → AreTexts ps
    → At r (pairs_bytes ps ++ rest)
    → (r' : MetadataReader) × (skip_pairs (length ps) r ≡ ok r')
unfolding skip_pairs
skip_pairs-At r [] rest t a = (r, refl)
skip_pairs-At r ((k, v) ∷ ps) rest ((tk, tv), t) a =
    let more : Bytes = pairs_bytes ps ++ rest in
    let a1 : At r (string_bytes k ++ (string_bytes v ++ more)) =
      subst (At r)
        (append_assoc (string_bytes k) (string_bytes v ++ pairs_bytes ps) rest
          ∙ ap (λ l. string_bytes k ++ l) (append_assoc (string_bytes v) (pairs_bytes ps) rest))
        a in
    let r1 = advance r (length (string_bytes k)) in
    let a2 : At r1 (string_bytes v ++ more) = advance-At r (string_bytes k) _ a1 in
    let r2 = advance r1 (length (string_bytes v)) in
    let a3 : At r2 more = advance-At r1 (string_bytes v) more a2 in
    let (r', e) = skip_pairs-At r2 ps rest t a3 in
    (r', rw (read_string-At r k _ tk a1, read_string-At r1 v more tv a2, e))

pairs_room : (ps : List (Str × Str)) → length ps * 8 ≤ length (pairs_bytes ps)
pairs_room [] = omega arith
pairs_room ((k, v) ∷ ps) = omega (
  arith,
  pairs_room ps,
  length-append (string_bytes k) (string_bytes v ++ pairs_bytes ps),
  length-append (string_bytes v) (pairs_bytes ps),
)

read_pubkey-At :
    (r : MetadataReader) (key rest : Bytes)
    → length key ≡ 32
    → At r (key ++ rest)
    → read_pubkey r ≡ ok (key, advance r 32)
unfolding read_pubkey
read_pubkey-At r key rest n a =
    subst (λ k. read_exact k r ≡ ok (key, advance r k)) n (read_exact-At r key rest a)

-- What Borsh writes for `TokenMetadata`, with its additional pairs.
abbrev pub key_bytes : Option Bytes → Bytes
key_bytes none = default_pubkey
key_bytes (some key) = key

abbrev pub metadata_bytes : Token2022Metadata → List (Str × Str) → Bytes → Bytes
metadata_bytes m ps rest =
    key_bytes m.update_authority
    ++ (m.mint
        ++ (string_bytes m.name
            ++ (string_bytes m.symbol
                ++ (string_bytes m.uri ++ (u32_bytes (length ps) ++ (pairs_bytes ps ++ rest))))))

-- Keys of 32 bytes, an authority that is not the zero key, and texts.
pub record IsWritable (m : Token2022Metadata) (ps : List (Str × Str)) : Type 0 where
  pub authority : length (key_bytes m.update_authority) ≡ 32
  pub not_default : m.update_authority ≢ some default_pubkey
  pub mint : length m.mint ≡ 32
  pub name : IsText m.name
  pub symbol : IsText m.symbol
  pub uri : IsText m.uri
  pub pairs : AreTexts ps
  pub count : length ps < 2 ^ 32

optional_pubkey-key_bytes :
    (key : Option Bytes) → key ≢ some default_pubkey → optional_pubkey (key_bytes key) ≡ key
optional_pubkey-key_bytes none h = refl
optional_pubkey-key_bytes (some key) h = elim (Bool-cases (same_pubkey key default_pubkey)) [
  | inl e ↦ absurd (h (ap some (eq_of_eqb ⦃o = str_ord⦄ key default_pubkey e)))
  | inr e ↦ rw e
]

enough_room :
    (r : MetadataReader) (ps : List (Str × Str)) (rest : Bytes)
    → At r (pairs_bytes ps ++ rest)
    → ltb ((length r.input - r.offset) / 8) (length ps) ≡ false
enough_room r ps rest a =
    let room : (length ps ≤ (length r.input - r.offset) / 8) =
      omega (arith, a.fits, pairs_room ps, length-append (pairs_bytes ps) rest) in
    elim (Bool-cases (ltb ((length r.input - r.offset) / 8) (length ps))) [
      | inl e ↦ absurd (omega (arith, room, ltb→lt _ _ e))
      | inr e ↦ e
    ]

-- The parser returns the metadata that was written, whatever pairs it carries and whatever follows,
-- where the keys have 32 bytes, the authority is not the zero key, the texts are UTF-8, and the
-- lengths fit.
pub parse_token_2022_metadata_value-metadata_bytes :
    (m : Token2022Metadata) (ps : List (Str × Str)) (rest : Bytes)
    → IsWritable m ps
    → length (metadata_bytes m ps rest) < word
    → parse_token_2022_metadata_value (metadata_bytes m ps rest) ≡ ok m
unfolding parse_token_2022_metadata_value
parse_token_2022_metadata_value-metadata_bytes m ps rest w small =
    let b6 : Bytes = pairs_bytes ps ++ rest in
    let b5 : Bytes = u32_bytes (length ps) ++ b6 in
    let b4 : Bytes = string_bytes m.uri ++ b5 in
    let b3 : Bytes = string_bytes m.symbol ++ b4 in
    let b2 : Bytes = string_bytes m.name ++ b3 in
    let b1 : Bytes = m.mint ++ b2 in
    let r0 : MetadataReader = record { input = metadata_bytes m ps rest; offset = 0 } in
    let a0 : At r0 (key_bytes m.update_authority ++ b1) = record {
      here = refl;
      fits = omega arith;
      addressable = small;
    } in
    let r1 = advance r0 32 in
    let a1 : At r1 b1 =
      subst (λ k. At (advance r0 k) b1) w.authority
        (advance-At r0 (key_bytes m.update_authority) b1 a0) in
    let r2 = advance r1 32 in
    let a2 : At r2 b2 = subst (λ k. At (advance r1 k) b2) w.mint (advance-At r1 m.mint b2 a1) in
    let r3 = advance r2 (length (string_bytes m.name)) in
    let a3 : At r3 b3 = advance-At r2 (string_bytes m.name) b3 a2 in
    let r4 = advance r3 (length (string_bytes m.symbol)) in
    let a4 : At r4 b4 = advance-At r3 (string_bytes m.symbol) b4 a3 in
    let r5 = advance r4 (length (string_bytes m.uri)) in
    let a5 : At r5 b5 = advance-At r4 (string_bytes m.uri) b5 a4 in
    let r6 = advance r5 4 in
    let a6 : At r6 b6 = advance-At r5 (u32_bytes (length ps)) b6 a5 in
    let (r', e) = skip_pairs-At r6 ps rest w.pairs a6 in
    rw (
      read_pubkey-At r0 (key_bytes m.update_authority) b1 w.authority a0,
      read_pubkey-At r1 m.mint b2 w.mint a1,
      read_string-At r2 m.name b3 w.name a2,
      read_string-At r3 m.symbol b4 w.symbol a3,
      read_string-At r4 m.uri b5 w.uri a4,
      read_u32-At r5 (length ps) b6 w.count a5,
      enough_room r6 ps rest a6,
      e,
      optional_pubkey-key_bytes m.update_authority w.not_default,
    )
