-- ===== src/OpcodeStats/Archive.antt =====
-- bin/solana-opcode-stats/main.rs `create_stats`: an archive's statistics are its programs' sums.
use solana_snapshot_etl.Prelude.{
  ℕ, zero, suc, ◌+◌, ◌%◌, ◌<◌, ◌≡◌, refl, ap, ap, sym, ◌∙◌, List, [], ◌∷◌, if◌then◌else◌, ◌==◌,
  arith, All, length, length-replicate, get_or, get_or-replicate,
}
use solana_snapshot_etl.Prelude.Text.{Str}
use solana_snapshot_etl.Prelude.Result.{Result, ok, word}
use solana_snapshot_etl.AppendVec.{Bytes}
use solana_snapshot_etl.OpcodeStats.{
  OpcodeStat, OpcodeStats, default, no_stats, add_assign, add_stats, done, Ebpf, Entry,
  process_entry, add_entries, create_stats,
}
use solana_snapshot_etl.OpcodeStats.Counting.{
  IsDecoder, Insn, IsInsn, encode, occurrences, from_program-encode,
}

-- An entry that is read, and whose text section is these instructions.
pub record Holds (ebpf : Ebpf) (e : Result ℕ Entry) (insns : List Insn) : Type 0 where
  pub entry : Entry
  pub path : Str
  pub elf : Bytes
  pub read : e ≡ ok entry
  pub path_read : entry.path ≡ ok path
  pub contents_read : entry.contents ≡ ok elf
  pub text : ebpf.get_text_bytes elf ≡ ok (encode insns)
  pub whole : All (IsInsn ebpf) insns

abbrev pub AllHold : Ebpf → List (Result ℕ Entry) → List (List Insn) → Type 0
AllHold ebpf [] [] = Unit
AllHold ebpf (e ∷ es) (insns ∷ programs) = Holds ebpf e insns × AllHold ebpf es programs
AllHold ebpf _ _ = ⊥

-- How many programs an opcode occurs in, and how often in all of them.
abbrev pub uses : ℕ → List (List Insn) → ℕ
uses opc [] = 0
uses opc (insns ∷ programs) = (if occurrences opc insns == 0 then 0 else 1) + uses opc programs

abbrev pub total : ℕ → List (List Insn) → ℕ
total opc [] = 0
total opc (insns ∷ programs) = occurrences opc insns + total opc programs

abbrev pub as_usize : ℕ → ℕ → OpcodeStat
as_usize programs insns = record { num_programs = programs % word; num_instructions = insns % word }

length-add_stats :
    (its rest : OpcodeStats) → length its ≡ length rest → length (add_stats its rest) ≡ length its
unfolding add_stats
length-add_stats [] [] h = refl
length-add_stats [] (r ∷ rest) h = refl
length-add_stats (i ∷ its) [] h = refl
length-add_stats (i ∷ its) (r ∷ rest) h = ap suc (length-add_stats its rest (omega arith))

get_or-add_stats :
    (its rest : OpcodeStats) (opc : ℕ)
    → length its ≡ length rest
    → opc < length its
    → get_or (add_stats its rest) opc default
      ≡ add_assign (get_or its opc default) (get_or rest opc default)
unfolding add_stats
get_or-add_stats [] rest opc h small = absurd (omega arith)
get_or-add_stats (i ∷ its) [] opc h small = absurd (omega arith)
get_or-add_stats (i ∷ its) (r ∷ rest) zero h small = refl
get_or-add_stats (i ∷ its) (r ∷ rest) (suc opc) h small =
    get_or-add_stats its rest opc (omega arith) (omega arith)

module _ (ebpf : Ebpf) (decoder : IsDecoder ebpf) (opc : ℕ) (small : opc < 256) where
  add_entries-AllHold :
      (es : List (Result ℕ Entry)) (programs : List (List Insn)) (stats : OpcodeStats) (p n : ℕ)
      → AllHold ebpf es programs
      → length stats ≡ 256
      → get_or stats opc default ≡ as_usize p n
      → (sums : OpcodeStats) × (add_entries ebpf stats es ≡ done sums)
        × (get_or sums opc default ≡ as_usize (p + uses opc programs) (n + total opc programs))
  unfolding add_entries process_entry add_assign
  add_entries-AllHold [] [] stats p n h len e = (stats, refl, ground (arith, e))
  add_entries-AllHold [] (insns ∷ programs) stats p n h len e = absurd h
  add_entries-AllHold (f ∷ es) [] stats p n h len e = absurd h
  add_entries-AllHold (f ∷ es) (insns ∷ programs) stats p n (h, hs) len e =
      let (program, counts, size, here) =
        from_program-encode ebpf decoder h.elf insns opc h.text h.whole small in
      let used : ℕ = if occurrences opc insns == 0 then 0 else 1 in
      let (sums, runs, all) =
        add_entries-AllHold es programs (add_stats stats program) (p + used)
          (n + occurrences opc insns) hs (length-add_stats stats program (len ∙ sym size) ∙ len)
          (get_or-add_stats stats program opc (len ∙ sym size) (rw len small)
            ∙ ap (λ s. add_assign s (get_or program opc default)) e
            ∙ ap (add_assign (as_usize p n)) here
            ∙ ground arith) in
      (sums, rw (h.read, h.path_read, h.contents_read, counts) runs, all ∙ ground arith)

  -- Where each entry of the archive is read and its text section is whole instructions, an opcode's
  -- programs are those in which it occurs, and its instructions are all its occurrences, both as a
  -- `usize`.
  pub create_stats_lem :
      (es : List (Result ℕ Entry)) (programs : List (List Insn))
      → AllHold ebpf es programs
      → (sums : OpcodeStats) × (create_stats ebpf (ok es) ≡ done sums)
        × (get_or sums opc default ≡ as_usize (uses opc programs) (total opc programs))
  unfolding create_stats
  create_stats_lem es programs h =
      let (sums, runs, all) =
        add_entries-AllHold es programs no_stats 0 0 h (length-replicate 256 default)
          (get_or-replicate 256 opc default) in
      (sums, runs, all ∙ ground arith)
