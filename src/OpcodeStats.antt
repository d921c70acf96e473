-- ===== src/OpcodeStats.antt =====
-- bin/solana-opcode-stats/main.rs: how often each eBPF opcode occurs in an archive of programs.
-- The ELF loader, the decoder of one instruction, the opcodes' numbers, tar and csv are parameters.
pub mod Counting
pub mod Archive
use solana_snapshot_etl.Prelude.{
  ℕ, zero, suc, ◌+◌, ◌*◌, ◌/◌, ◌%◌, Bool, List, [], ◌∷◌, ◌++◌, Option, none, some, if◌then◌else◌,
  ltb, ◌==◌, length, drop, replicate, find, unwrap_or,
}
use solana_snapshot_etl.Prelude.Text.{Str, bytes, to_string}
use solana_snapshot_etl.Prelude.Order.{eqb}
use solana_snapshot_etl.Prelude.Result.{Result, ok, err, word, ◌>>=◌, map_err}
use solana_snapshot_etl.AppendVec.{Bytes}

pub record OpcodeStat : Type 0 where
  pub num_programs : ℕ
  pub num_instructions : ℕ

abbrev pub default : OpcodeStat
default = record { num_programs = 0; num_instructions = 0 }

-- A `usize` wraps.
unfoldable pub add_assign : OpcodeStat → OpcodeStat → OpcodeStat
add_assign it rhs = record {
  num_programs = (it.num_programs + rhs.num_programs) % word;
  num_instructions = (it.num_instructions + rhs.num_instructions) % word;
}

-- One `OpcodeStat` for each of the 256 opcodes.
abbrev pub OpcodeStats : Type 0
OpcodeStats = List OpcodeStat

abbrev pub no_stats : OpcodeStats
no_stats = replicate 256 default

-- `OpcodeStats::add_assign`: index by index.
unfoldable pub add_stats : OpcodeStats → OpcodeStats → OpcodeStats
unfolding add_assign
add_stats (it ∷ its) (rhs ∷ rest) = add_assign it rhs ∷ add_stats its rest
add_stats its rest = its

-- How a run ends: with a value, with an error, in a panic, or not within its fuel.
pub data Run {ℓ κ} (E : Type ℓ) (A : Type κ) : Type (ℓ ⊔ κ) where
  done : A → Run E A
  failed : E → Run E A
  panic : Run E A
  out_of_fuel : Run E A

abbrev pub and_then {ℓ κ μ} :
    {E : Type ℓ} {A : Type κ} {B : Type μ} → Run E A → (A → Run E B) → Run E B
and_then (done a) f = f a
and_then (failed e) f = failed e
and_then panic f = panic
and_then out_of_fuel f = out_of_fuel

abbrev pub of_result {ℓ κ} : {E : Type ℓ} {A : Type κ} → Result E A → Run E A
of_result (ok a) = done a
of_result (err e) = failed e

abbrev pub update_at {ℓ} : {A : Type ℓ} → ℕ → (A → A) → List A → List A
update_at i f [] = []
update_at zero f (a ∷ as') = f a ∷ as'
update_at (suc i) f (a ∷ as') = a ∷ update_at i f as'

-- `num_programs |= 1` sets the lowest bit.
unfoldable pub count_insn : OpcodeStat → OpcodeStat
count_insn stat = record {
  num_programs = stat.num_programs / 2 * 2 + 1;
  num_instructions = (stat.num_instructions + 1) % word;
}

-- The ELF loader's text section, the opcode of the first instruction (a panic where the text is too
-- short for it), and the numbers of the opcodes.
pub record Ebpf : Type 0 where
  pub get_text_bytes : Bytes → Result ℕ Bytes
  pub get_insn : Bytes → Option ℕ
  pub opcode : Str → ℕ

module _ (ebpf : Ebpf) where
  abbrev pub op_size : ℕ → ℕ
  op_size opc = if opc == ebpf.opcode (bytes "LD_DW_IMM") then 16 else 8

  unfoldable pub count_text {ℓ} : {E : Type ℓ} → ℕ → Bytes → OpcodeStats → Run E OpcodeStats
  unfolding count_insn
  count_text zero text stats = out_of_fuel
  count_text (suc fuel) [] stats = done stats
  count_text (suc fuel) (b ∷ bs) stats = elim (ebpf.get_insn (b ∷ bs)) [
    | none ↦ panic
    | some opc ↦
        let rest = count_text fuel (drop (op_size opc) (b ∷ bs)) (update_at opc count_insn stats) in
        if ltb (length (b ∷ bs)) (op_size opc) then panic else rest
  ]

  -- A round takes eight bytes at least.
  unfoldable pub from_program : Bytes → Run ℕ OpcodeStats
  unfolding count_text
  from_program elf_bytes =
      and_then (of_result (ebpf.get_text_bytes elf_bytes))
        λ text. count_text (suc (length text)) text no_stats

-- What tar answers about an entry.
pub record Entry : Type 0 where
  pub path : Result ℕ Str
  pub contents : Result ℕ Bytes

pub data StatsError : Type 0 where
  tar_error : ℕ → StatsError
  in_entry : Str → ℕ → StatsError

abbrev pub map_error {ℓ κ μ} : {E : Type ℓ} {F : Type κ} {A : Type μ} → (E → F) → Run E A → Run F A
map_error f (done a) = done a
map_error f (failed e) = failed (f e)
map_error f panic = panic
map_error f out_of_fuel = out_of_fuel

module _ (ebpf : Ebpf) where
  unfoldable pub process_entry : OpcodeStats → Entry → Run ℕ OpcodeStats
  unfolding from_program add_stats
  process_entry stats entry = and_then (of_result entry.contents) λ elf_buffer.
      and_then (from_program ebpf elf_buffer) λ program. done (add_stats stats program)

  -- The loop of `create_stats`.
  unfoldable pub add_entries : OpcodeStats → List (Result ℕ Entry) → Run StatsError OpcodeStats
  unfolding process_entry
  add_entries stats [] = done stats
  add_entries stats (e ∷ es) = and_then (of_result (map_err tar_error e)) λ entry.
      and_then (of_result (map_err tar_error entry.path)) λ path.
        and_then (map_error (in_entry path) (process_entry stats entry)) λ more. add_entries more es

  unfoldable pub create_stats : Result ℕ (List (Result ℕ Entry)) → Run StatsError OpcodeStats
  unfolding add_entries
  create_stats entries =
      and_then (of_result (map_err tar_error entries)) λ es. add_entries no_stats es

-- The arms of `opcode_mnemonic`, in their order: each constant of the crate to its own name.
abbrev pub mnemonics : List Str
mnemonics =
    bytes "LD_ABS_B"
    ∷ bytes "LD_ABS_H"
    ∷ bytes "LD_ABS_W"
    ∷ bytes "LD_ABS_DW"
    ∷ bytes "LD_IND_B"
    ∷ bytes "LD_IND_H"
    ∷ bytes "LD_IND_W"
    ∷ bytes "LD_IND_DW"
    ∷ bytes "LD_DW_IMM"
    ∷ bytes "LD_B_REG"
    ∷ bytes "LD_H_REG"
    ∷ bytes "LD_W_REG"
    ∷ bytes "LD_DW_REG"
    ∷ bytes "ST_B_IMM"
    ∷ bytes "ST_H_IMM"
    ∷ bytes "ST_W_IMM"
    ∷ bytes "ST_DW_IMM"
    ∷ bytes "ST_B_REG"
    ∷ bytes "ST_H_REG"
    ∷ bytes "ST_W_REG"
    ∷ bytes "ST_DW_REG"
    ∷ bytes "ST_W_XADD"
    ∷ bytes "ST_DW_XADD"
    ∷ bytes "ADD32_IMM"
    ∷ bytes "ADD32_REG"
    ∷ bytes "SUB32_IMM"
    ∷ bytes "SUB32_REG"
    ∷ bytes "MUL32_IMM"
    ∷ bytes "MUL32_REG"
    ∷ bytes "DIV32_IMM"
    ∷ bytes "DIV32_REG"
    ∷ bytes "OR32_IMM"
    ∷ bytes "OR32_REG"
    ∷ bytes "AND32_IMM"
    ∷ bytes "AND32_REG"
    ∷ bytes "LSH32_IMM"
    ∷ bytes "LSH32_REG"
    ∷ bytes "RSH32_IMM"
    ∷ bytes "RSH32_REG"
    ∷ bytes "NEG32"
    ∷ bytes "MOD32_IMM"
    ∷ bytes "MOD32_REG"
    ∷ bytes "XOR32_IMM"
    ∷ bytes "XOR32_REG"
    ∷ bytes "MOV32_IMM"
    ∷ bytes "MOV32_REG"
    ∷ bytes "ARSH32_IMM"
    ∷ bytes "ARSH32_REG"
    ∷ bytes "SDIV32_IMM"
    ∷ bytes "SDIV32_REG"
    ∷ bytes "LE"
    ∷ bytes "BE"
    ∷ bytes "ADD64_IMM"
    ∷ bytes "ADD64_REG"
    ∷ bytes "SUB64_IMM"
    ∷ bytes "SUB64_REG"
    ∷ bytes "MUL64_IMM"
    ∷ bytes "MUL64_REG"
    ∷ bytes "DIV64_IMM"
    ∷ bytes "DIV64_REG"
    ∷ bytes "OR64_IMM"
    ∷ bytes "OR64_REG"
    ∷ bytes "AND64_IMM"
    ∷ bytes "AND64_REG"
    ∷ bytes "LSH64_IMM"
    ∷ bytes "LSH64_REG"
    ∷ bytes "RSH64_IMM"
    ∷ bytes "RSH64_REG"
    ∷ bytes "NEG64"
    ∷ bytes "MOD64_IMM"
    ∷ bytes "MOD64_REG"
    ∷ bytes "XOR64_IMM"
    ∷ bytes "XOR64_REG"
    ∷ bytes "MOV64_IMM"
    ∷ bytes "MOV64_REG"
    ∷ bytes "ARSH64_IMM"
    ∷ bytes "ARSH64_REG"
    ∷ bytes "SDIV64_IMM"
    ∷ bytes "SDIV64_REG"
    ∷ bytes "JA"
    ∷ bytes "JEQ_IMM"
    ∷ bytes "JEQ_REG"
    ∷ bytes "JGT_IMM"
    ∷ bytes "JGT_REG"
    ∷ bytes "JGE_IMM"
    ∷ bytes "JGE_REG"
    ∷ bytes "JLT_IMM"
    ∷ bytes "JLT_REG"
    ∷ bytes "JLE_IMM"
    ∷ bytes "JLE_REG"
    ∷ bytes "JSET_IMM"
    ∷ bytes "JSET_REG"
    ∷ bytes "JNE_IMM"
    ∷ bytes "JNE_REG"
    ∷ bytes "JSGT_IMM"
    ∷ bytes "JSGT_REG"
    ∷ bytes "JSGE_IMM"
    ∷ bytes "JSGE_REG"
    ∷ bytes "JSLT_IMM"
    ∷ bytes "JSLT_REG"
    ∷ bytes "JSLE_IMM"
    ∷ bytes "JSLE_REG"
    ∷ bytes "CALL_IMM"
    ∷ bytes "CALL_REG"
    ∷ bytes "EXIT"
    ∷ []

module _ (ebpf : Ebpf) where
  unfoldable pub opcode_mnemonic : ℕ → Str
  opcode_mnemonic opc =
      unwrap_or (find (λ name. ebpf.opcode name == opc) mnemonics) (bytes "invalid")

  abbrev pub hex_digit : ℕ → ℕ
  hex_digit n = if ltb n 10 then 48 + n else 87 + n

  -- The row of an opcode that occurs.
  abbrev pub csv_row : ℕ → OpcodeStat → List Str
  csv_row opc stat =
      (bytes "0x" ++ hex_digit (opc / 16) ∷ hex_digit (opc % 16) ∷ [])
      ∷ opcode_mnemonic opc
      ∷ to_string stat.num_programs
      ∷ to_string stat.num_instructions
      ∷ []

  module _ {W : Type 0} (write_record : W → List Str → Result ℕ W) where
    unfoldable pub write_rows : ℕ → OpcodeStats → W → Result ℕ W
    unfolding opcode_mnemonic
    write_rows opc [] writer = ok writer
    write_rows opc (stat ∷ stats) writer =
        let skip = write_rows (suc opc) stats writer in
        let written = write_record writer (csv_row opc stat) >>= write_rows (suc opc) stats in
        if stat.num_instructions == 0 then skip else written

    unfoldable pub write_csv : OpcodeStats → W → Result ℕ W
    unfolding write_rows
    write_csv stats writer =
        write_record writer
          (bytes "opcode" ∷ bytes "mnemonic" ∷ bytes "num_programs" ∷ bytes "num_insns" ∷ [])
        >>= write_rows 0 stats
