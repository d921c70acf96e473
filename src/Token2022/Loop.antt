-- ===== src/Token2022/Loop.antt =====
-- clickhouse.rs: the loop over the extensions of a Token-2022 mint ends, and reads back extensions
-- that were laid out one after the other.
use solana_snapshot_etl.Prelude.{
  ℕ, zero, suc, ◌+◌, ◌≤◌, ◌<◌, ◌^◌, ◌≡◌, refl, subst, true, false, List, [], ◌∷◌, ◌++◌, length,
  length-append, drop, Option, none, some, ltb, leb, arith, Bool-cases, is_some, inl, inr, gt→leb,
  lt→ltb, ltb→lt, All,
}
use solana_snapshot_etl.Prelude.Result.{Result, ok, err, word}
use solana_snapshot_etl.Prelude.Text.{Str}
use solana_snapshot_etl.Prelude.Bytes.{to_le, from_le-to_le, drop-append}
use solana_snapshot_etl.AppendVec.{Bytes}
use solana_snapshot_etl.Token2022.{ParseError, MetadataReader}
use solana_snapshot_etl.Token2022.Reader.{At, advance, advance-At, checked_add-At, get_range-At}
use solana_snapshot_etl.Token2022.Extension.{Extension}
use solana_snapshot_etl.Token2022.Tlv.{
  TlvState, take_extension, tlv_round, tlv_loop, tlv_start, token_2022_tlv_start,
  parse_token_2022_mint_extensions,
}

-- How a round ends.
data RoundCases (m : Result ParseError (Option TlvState)) : Type 0 where
  stops : (x : ParseError) → m ≡ err x → RoundCases m
  breaks : m ≡ ok none → RoundCases m
  moves : (st : TlvState) → m ≡ ok (some st) → RoundCases m

round_cases : (m : Result ParseError (Option TlvState)) → RoundCases m
round_cases (err x) = stops x refl
round_cases (ok none) = breaks refl
round_cases (ok (some st)) = moves st refl

module _ (pubkey_string : Bytes → Str) where
  -- A round moves on by the four bytes of a header at least.
  tlv_round-advances :
      (input : Bytes) (st st' : TlvState)
      → tlv_round pubkey_string input st ≡ ok (some st')
      → st.offset + 4 ≤ st'.offset
  unfolding tlv_round
  tlv_round-advances input st st' h = ground arith

  tlv_loop-ends :
      (fuel : ℕ) (input : Bytes) (st : TlvState)
      → 0 < fuel
      → length input < fuel + st.offset
      → (r : Result ParseError TlvState) × (tlv_loop pubkey_string fuel input st ≡ some r)
  unfolding tlv_loop
  tlv_loop-ends zero input st p h = absurd (omega arith)
  tlv_loop-ends (suc fuel) input st p h = elim (Bool-cases (ltb st.offset (length input))) [
    | inr e ↦ (ok st, ground (arith, e))
    | inl e ↦ elim (round_cases (tlv_round pubkey_string input st)) [
      | stops x f ↦ (err x, ground (arith, e, f))
      | breaks f ↦ (ok st, ground (arith, e, f))
      | moves st' f ↦
          let lt : st.offset < length input = ltb→lt st.offset (length input) e in
          let up : st.offset + 4 ≤ st'.offset = tlv_round-advances input st st' f in
          let (r, g) = tlv_loop-ends fuel input st' (omega arith) (omega arith) in
          (r, ground (arith, e, f, g))
    ]
  ]

  -- The parser ends, on every input, with as much fuel as the input has bytes.
  pub parse_token_2022_mint_extensions-ends :
      (to_json : List Extension → Str) (input : Bytes)
      → is_some (parse_token_2022_mint_extensions pubkey_string to_json (length input) input) ≡ true
  unfolding parse_token_2022_mint_extensions
  parse_token_2022_mint_extensions-ends to_json input =
      elim (Bool-cases (leb (length input) token_2022_tlv_start)) [
        | inl e ↦ ground (arith, e)
        | inr e ↦
            let long : 166 < length input = ground (arith, e) in
            let (r, f) =
              tlv_loop-ends (length input) input (tlv_start pubkey_string) (omega arith)
                (omega arith) in
            ground (arith, e, f)
      ]

  -- An extension behind a mint: its type, the length of its value, and the value.
  abbrev pub entry_bytes : ℕ × Bytes → Bytes
  entry_bytes (t, value) = to_le 2 t ++ to_le 2 (length value) ++ value

  abbrev pub entries_bytes : List (ℕ × Bytes) → Bytes
  entries_bytes [] = []
  entries_bytes (e ∷ es) = entry_bytes e ++ entries_bytes es

  abbrev pub IsEntry : ℕ × Bytes → Type 0
  IsEntry (t, value) = (0 < t) × (t < 2 ^ 16) × (length value < 2 ^ 16)

  abbrev pub take_entry : ℕ × Bytes → TlvState → TlvState
  take_entry (t, value) st = record (take_extension pubkey_string t value st) {
    offset = st.offset + 4 + length value;
  }

  abbrev pub take_entries : List (ℕ × Bytes) → TlvState → TlvState
  take_entries [] st = st
  take_entries (e ∷ es) st = take_entries es (take_entry e st)

  abbrev reader : Bytes → TlvState → MetadataReader
  reader input st = record { input = input; offset = st.offset }

  tlv_round-entry_bytes :
      (input : Bytes) (st : TlvState) (e : ℕ × Bytes) (rest : Bytes)
      → IsEntry e
      → At (reader input st) (entry_bytes e ++ rest)
      → tlv_round pubkey_string input st ≡ ok (some (take_entry e st))
  unfolding tlv_round
  tlv_round-entry_bytes input st (t, value) rest (p, t_small, v_small) a =
      let header : Bytes = to_le 2 t ++ to_le 2 (length value) in
      let a0 : At (reader input st) (header ++ (value ++ rest)) =
        subst (At (reader input st)) refl a in
      let a1 = advance-At (reader input st) header (value ++ rest) a0 in
      rw
        (
          checked_add-At (reader input st) header (value ++ rest) a0,
          get_range-At (reader input st) header (value ++ rest) a0,
          from_le-to_le 2 t (omega arith),
          from_le-to_le 2 (length value) (omega arith),
          checked_add-At (advance (reader input st) 4) value rest a1,
          get_range-At (advance (reader input st) 4) value rest a1,
        )
        (ground arith)

  tlv_loop-entries_bytes :
      (fuel : ℕ) (input : Bytes) (es : List (ℕ × Bytes)) (st : TlvState)
      → All IsEntry es
      → At (reader input st) (entries_bytes es)
      → length (entries_bytes es) < fuel
      → tlv_loop pubkey_string fuel input st ≡ some (ok (take_entries es st))
  unfolding tlv_loop
  tlv_loop-entries_bytes zero input es st h a f = absurd (omega arith)
  tlv_loop-entries_bytes (suc fuel) input [] st h a f =
      let end : ltb st.offset (length input) ≡ false = ground (arith, a.fits) in ground (arith, end)
  tlv_loop-entries_bytes (suc fuel) input ((t, value) ∷ es) st (h, hs) a f =
      let e : ℕ × Bytes = (t, value) in
      let size : length (entry_bytes e ++ entries_bytes es)
          ≡ 4 + length value + length (entries_bytes es) =
        omega (arith, length-append value (entries_bytes es)) in
      let more : ltb st.offset (length input) ≡ true =
        lt→ltb st.offset (length input) (omega (arith, a.fits, size)) in
      let round = tlv_round-entry_bytes input st e (entries_bytes es) h a in
      let a' : At (reader input (take_entry e st)) (entries_bytes es) =
        subst (λ n. At (record { input = input; offset = n }) (entries_bytes es)) (omega arith)
          (advance-At (reader input st) (entry_bytes e) (entries_bytes es) a) in
      let rest =
        tlv_loop-entries_bytes fuel input es (take_entry e st) hs a' (omega (arith, size)) in
      ground (arith, more, round, rest)

  -- A mint with extensions laid out behind its common prefix, each of a type above zero and with a
  -- type and a length of two bytes, gives what taking the extensions one by one, in order, gives.
  pub parse_token_2022_mint_extensions-entries_bytes :
      (to_json : List Extension → Str) (base : Bytes) (e : ℕ × Bytes) (es : List (ℕ × Bytes))
      → length base ≡ token_2022_tlv_start
      → All IsEntry (e ∷ es)
      → length (base ++ entries_bytes (e ∷ es)) < word
      → parse_token_2022_mint_extensions pubkey_string to_json
          (length (base ++ entries_bytes (e ∷ es)))
          (base ++ entries_bytes (e ∷ es))
        ≡ (let st = take_entries (e ∷ es) (tlv_start pubkey_string) in
            some (
              ok (record {
                json = to_json st.extensions;
                token_metadata = st.token_metadata;
                warnings = st.warnings;
              })))
  unfolding parse_token_2022_mint_extensions
  parse_token_2022_mint_extensions-entries_bytes to_json base (t, value) es b h w =
      let e : ℕ × Bytes = (t, value) in
      let all : Bytes = entries_bytes (e ∷ es) in
      let size : length all ≡ 4 + length value + length (entries_bytes es) =
        omega (arith, length-append value (entries_bytes es)) in
      let total = length-append base all in
      let a : At (record { input = base ++ all; offset = token_2022_tlv_start }) all = record {
        here = subst (λ n. drop n (base ++ all) ≡ all) b (drop-append base all);
        fits = omega (arith, total);
        addressable = w;
      } in
      let long : leb (length (base ++ all)) token_2022_tlv_start ≡ false =
        gt→leb (length (base ++ all)) token_2022_tlv_start (omega (arith, total, size)) in
      let run =
        tlv_loop-entries_bytes (length (base ++ all)) (base ++ all) (e ∷ es)
          (tlv_start pubkey_string) h a (omega (arith, total, size)) in
      rw (long, run) refl
