-- ===== src/OpcodeStats/Counting.antt =====
-- bin/solana-opcode-stats/main.rs `from_program`: the loop ends, and counts each instruction once.
use solana_snapshot_etl.Prelude.{
  ℕ, zero, suc, ◌+◌, ◌*◌, ◌/◌, ◌%◌, ◌≤◌, ◌<◌, ◌≡◌, refl, ap, sym, ◌∙◌, false, List, [], ◌∷◌, ◌++◌,
  none, some, if◌then◌else◌, ltb, ◌==◌, arith, All, length, length-append, drop, get_or,
  length-replicate, get_or-replicate,
}
use solana_snapshot_etl.Prelude.Bytes.{drop-append}
use solana_snapshot_etl.Prelude.Result.{ok, word}
use solana_snapshot_etl.AppendVec.{Bytes}
use solana_snapshot_etl.OpcodeStats.{
  OpcodeStat, OpcodeStats, default, no_stats, done, update_at, count_insn, Ebpf, op_size,
  count_text, from_program,
}

-- The decoder reads the opcode from the first of eight bytes at least, and panics on fewer.
pub record IsDecoder (ebpf : Ebpf) : Type 0 where
  pub reads : (b : ℕ) (bs : Bytes) → 8 ≤ length (b ∷ bs) → ebpf.get_insn (b ∷ bs) ≡ some b
  pub panics : (text : Bytes) → length text < 8 → ebpf.get_insn text ≡ none

pub record Insn : Type 0 where
  pub opcode : ℕ
  pub operands : Bytes

pub record IsInsn (ebpf : Ebpf) (insn : Insn) : Type 0 where
  pub byte : insn.opcode < 256
  pub sized : length (insn.opcode ∷ insn.operands) ≡ op_size ebpf insn.opcode

-- Instructions end to end.
abbrev pub encode : List Insn → Bytes
encode [] = []
encode (insn ∷ insns) = (insn.opcode ∷ insn.operands) ++ encode insns

abbrev pub occurrences : ℕ → List Insn → ℕ
occurrences opc [] = 0
occurrences opc (insn ∷ insns) = (if insn.opcode == opc then 1 else 0) + occurrences opc insns

abbrev pub tally : List Insn → OpcodeStats → OpcodeStats
tally [] stats = stats
tally (insn ∷ insns) stats = tally insns (update_at insn.opcode count_insn stats)

-- `n` more instructions of an opcode.
abbrev pub counted : ℕ → OpcodeStat → OpcodeStat
counted zero stat = stat
counted (suc n) stat = record {
  num_programs = stat.num_programs / 2 * 2 + 1;
  num_instructions = (stat.num_instructions + suc n) % word;
}

length-update_at :
    (i : ℕ) (f : OpcodeStat → OpcodeStat) (stats : OpcodeStats)
    → length (update_at i f stats) ≡ length stats
length-update_at i f [] = refl
length-update_at zero f (s ∷ stats) = refl
length-update_at (suc i) f (s ∷ stats) = ap suc (length-update_at i f stats)

get_or-update_at :
    (i j : ℕ) (f : OpcodeStat → OpcodeStat) (stats : OpcodeStats)
    → j < length stats
    → get_or (update_at i f stats) j default
      ≡ (if i == j then f (get_or stats j default) else get_or stats j default)
get_or-update_at i j f [] h = absurd (omega arith)
get_or-update_at zero zero f (s ∷ stats) h = refl
get_or-update_at zero (suc j) f (s ∷ stats) h = ground arith
get_or-update_at (suc i) zero f (s ∷ stats) h = ground arith
get_or-update_at (suc i) (suc j) f (s ∷ stats) h =
    ground (arith, get_or-update_at i j f stats (omega arith))

counted-count_insn :
    (n : ℕ) (stat : OpcodeStat) → counted n (count_insn stat) ≡ counted (suc n) stat
unfolding count_insn
counted-count_insn zero stat = refl
counted-count_insn (suc n) stat = ground arith

length-tally : (insns : List Insn) (stats : OpcodeStats) → length (tally insns stats) ≡ length stats
length-tally [] stats = refl
length-tally (insn ∷ insns) stats =
    length-tally insns (update_at insn.opcode count_insn stats)
    ∙ length-update_at insn.opcode count_insn stats

get_or-tally :
    (insns : List Insn) (opc : ℕ) (stats : OpcodeStats)
    → opc < length stats
    → get_or (tally insns stats) opc default
      ≡ counted (occurrences opc insns) (get_or stats opc default)
get_or-tally [] opc stats h = refl
get_or-tally (insn ∷ insns) opc stats h =
    let bumped : OpcodeStats = update_at insn.opcode count_insn stats in
    let more =
      get_or-tally insns opc bumped (rw (length-update_at insn.opcode count_insn stats) h) in
    ground (
      arith,
      more,
      get_or-update_at insn.opcode opc count_insn stats h,
      counted-count_insn (occurrences opc insns) (get_or stats opc default),
    )

counted-default :
    (n : ℕ)
    → counted n default
      ≡ record { num_programs = if n == 0 then 0 else 1; num_instructions = n % word }
counted-default zero = refl
counted-default (suc n) = ground arith

module _ (ebpf : Ebpf) (decoder : IsDecoder ebpf) where
  module _ (fuel b : ℕ) (bs : Bytes) (stats : OpcodeStats) {E : Type 0} {opc : ℕ} where
    count_text-step :
        ebpf.get_insn (b ∷ bs) ≡ some opc
        → ltb (length (b ∷ bs)) (op_size ebpf opc) ≡ false
        → count_text ebpf {E = E} (suc fuel) (b ∷ bs) stats
          ≡ count_text ebpf fuel (drop (op_size ebpf opc) (b ∷ bs)) (update_at opc count_insn stats)
    unfolding count_text
    count_text-step e fits = ground (arith, e, fits)

  count_text-encode :
      {E : Type 0} (insns : List Insn) (fuel : ℕ) (stats : OpcodeStats)
      → All (IsInsn ebpf) insns
      → length (encode insns) < fuel
      → count_text ebpf {E = E} fuel (encode insns) stats ≡ done (tally insns stats)
  unfolding count_text
  count_text-encode insns zero stats h f = absurd (omega arith)
  count_text-encode [] (suc fuel) stats h f = refl
  count_text-encode (insn ∷ insns) (suc fuel) stats (h, hs) f =
      let here : Bytes = insn.opcode ∷ insn.operands in
      let whole = length-append here (encode insns) in
      let long : 8 ≤ length (here ++ encode insns) = ground (arith, h.sized, whole) in
      let fits : ltb (length (here ++ encode insns)) (op_size ebpf insn.opcode) ≡ false =
        ground (arith, h.sized, whole) in
      count_text-step fuel insn.opcode (insn.operands ++ encode insns) stats
        (decoder.reads insn.opcode (insn.operands ++ encode insns) long) fits
      ∙ ap (λ text. count_text ebpf fuel text (update_at insn.opcode count_insn stats))
          (ap (λ n. drop n (here ++ encode insns)) (sym h.sized) ∙ drop-append here (encode insns))
      ∙ count_text-encode insns fuel (update_at insn.opcode count_insn stats) hs
          (omega (arith, whole))

  -- A text section of whole instructions is counted: each opcode has one program if it occurs, and
  -- as many instructions as it occurs, as a `usize`.
  pub from_program-encode :
      (elf : Bytes) (insns : List Insn) (opc : ℕ)
      → ebpf.get_text_bytes elf ≡ ok (encode insns)
      → All (IsInsn ebpf) insns
      → opc < 256
      → (stats : OpcodeStats) × (from_program ebpf elf ≡ done stats)
        × (length stats ≡ 256)
        × (get_or stats opc default ≡ record {
          num_programs = if occurrences opc insns == 0 then 0 else 1;
          num_instructions = occurrences opc insns % word;
        })
  unfolding from_program
  from_program-encode elf insns opc e h small =
      let text : Bytes = encode insns in
      let counts = count_text-encode insns (suc (length text)) no_stats h (omega arith) in
      (
        tally insns no_stats,
        rw e counts,
        length-tally insns no_stats ∙ length-replicate 256 default,
        get_or-tally insns opc no_stats (omega arith)
            ∙ ap (counted (occurrences opc insns)) (get_or-replicate 256 opc default)
            ∙ counted-default (occurrences opc insns),
      )
