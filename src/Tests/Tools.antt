-- ===== src/Tests/Tools.antt =====
-- The tools: opcodes counted in an archive of two programs, and a CSV file of two mints.
use solana_snapshot_etl.Prelude.{
  ℕ, zero, suc, ◌+◌, ◌%◌, ◌<◌, ◌≡◌, refl, List, [], ◌∷◌, ◌++◌, Option, none, some, All, arith,
  get_or, length, replicate, if◌then◌else◌, ltb, ◌==◌,
}
use solana_snapshot_etl.Prelude.Order.{eqb}
use solana_snapshot_etl.Prelude.Text.{Str, bytes}
use solana_snapshot_etl.Prelude.Result.{Result, ok, err, word, ◌>>=◌}
use solana_snapshot_etl.Metadata.{str_ord}
use solana_snapshot_etl.AppendVec.{Bytes}
use solana_snapshot_etl.OpcodeStats.{
  OpcodeStats, default, done, Ebpf, Entry, from_program, create_stats,
}
use solana_snapshot_etl.OpcodeStats.Counting.{
  IsDecoder, Insn, IsInsn, encode, occurrences, from_program-encode,
}
use solana_snapshot_etl.OpcodeStats.Archive.{Holds, uses, total, as_usize, create_stats_lem}
use solana_snapshot_etl.HotTokens.{
  HotTokenRow, ClickhouseConnection, mint_is_empty, Urls, Client, Record, import_csv,
  parse_clickhouse_connection_url, trim,
}
use solana_snapshot_etl.HotTokens.Connection.{IsLawful, parse_clickhouse_connection_url_lem}
use solana_snapshot_etl.HotTokens.Rows.{IsMint, Ends, refused, blank, import_csv_lem}

-- A loader whose files are their text sections; 24 is the opcode of sixteen bytes.
abbrev decode : Bytes → Option ℕ
decode [] = none
decode (b ∷ bs) = if ltb (length (b ∷ bs)) 8 then none else some b

abbrev ebpf : Ebpf
ebpf = record {
  get_text_bytes = λ elf. ok elf;
  get_insn = decode;
  opcode = λ name. if eqb ⦃o = str_ord⦄ name (bytes "LD_DW_IMM") then 24 else 0;
}

decode-panics : (text : Bytes) → length text < 8 → decode text ≡ none
decode-panics [] h = refl
decode-panics (b ∷ bs) h = ground arith

ebpf-IsDecoder : IsDecoder ebpf
ebpf-IsDecoder = record { reads = λ b bs h. ground arith; panics = decode-panics }

abbrev load : Insn
load = record { opcode = 24; operands = replicate 15 0 }

abbrev exit : Insn
exit = record { opcode = 149; operands = replicate 7 0 }

abbrev program : List Insn
program = load ∷ exit ∷ exit ∷ []

program-IsInsn : All (IsInsn ebpf) program
program-IsInsn = (
  record { byte = omega arith; sized = refl },
  (record { byte = omega arith; sized = refl }, (record { byte = omega arith; sized = refl }, tt)),
)

from_program_example :
    (stats : OpcodeStats) × (from_program ebpf (encode program) ≡ done stats)
    × (length stats ≡ 256)
    × (get_or stats 149 default ≡ record {
      num_programs = if occurrences 149 program == 0 then 0 else 1;
      num_instructions = occurrences 149 program % word;
    })
from_program_example =
    from_program-encode ebpf ebpf-IsDecoder (encode program) program 149 refl program-IsInsn
      (omega arith)

abbrev cut_short : Bytes
cut_short = encode program ++ 24 ∷ replicate 8 0

abbrev entry : Result ℕ Entry
entry = ok (record { path = ok (bytes "p.so"); contents = ok (encode program) })

entry-Holds : Holds ebpf entry program
entry-Holds = record {
  entry = record { path = ok (bytes "p.so"); contents = ok (encode program) };
  path = bytes "p.so";
  elf = encode program;
  read = refl;
  path_read = refl;
  contents_read = refl;
  text = refl;
  whole = program-IsInsn;
}

create_stats_example :
    (sums : OpcodeStats) × (create_stats ebpf (ok (entry ∷ entry ∷ [])) ≡ done sums)
    × (get_or sums 149 default
        ≡ as_usize (uses 149 (program ∷ program ∷ [])) (total 149 (program ∷ program ∷ [])))
create_stats_example =
    create_stats_lem ebpf ebpf-IsDecoder 149 (omega arith) (entry ∷ entry ∷ [])
      (program ∷ program ∷ []) (entry-Holds, (entry-Holds, tt))

-- URLs of a user and a host, where each byte of the user's name is marked.
abbrev print_url : Str × Str → Str
print_url ([], host) = 0 ∷ host
print_url (c ∷ user, host) = 1 ∷ c ∷ print_url (user, host)

abbrev parse_url : Str → Result ℕ (Str × Str)
parse_url [] = err 1
parse_url (zero ∷ host) = ok ([], host)
parse_url (suc m ∷ []) = err 2
parse_url (suc m ∷ c ∷ s) = parse_url s >>= λ (user, host). ok (c ∷ user, host)

abbrev set_user : Str × Str → Str → Option (Str × Str)
set_user (user, host) name = some (name, host)

abbrev set_word : Str × Str → Option Str → Option (Str × Str)
set_word u none = some u
set_word u (some _) = none

abbrev urls : Urls
urls = record {
  Url = Str × Str;
  parse = parse_url;
  username = λ u. u.0;
  password = λ u. none;
  set_username = set_user;
  set_password = set_word;
  to_string = print_url;
}

parse_url-print_url : (user host : Str) → parse_url (print_url (user, host)) ≡ ok (user, host)
parse_url-print_url [] host = refl
parse_url-print_url (c ∷ user) host = rw (parse_url-print_url user host) refl

urls-IsLawful : IsLawful urls
urls-IsLawful = record {
  set_username_clears = λ u v e. (ground (arith, e), refl);
  set_password_clears = λ u v e. (refl, ground (arith, e));
  parse-to_string = λ u. parse_url-print_url u.0 u.1;
}

abbrev utf8 : Str → Result ℕ Str
utf8 s = ok s

abbrev with_user : Str
with_user = print_url (bytes "u", bytes "h")

abbrev connection : ClickhouseConnection
connection = record {
  endpoint = print_url ([], bytes "h");
  user = some (bytes "u");
  password = none;
}

connected : parse_clickhouse_connection_url urls utf8 with_user ≡ ok connection
unfolding parse_clickhouse_connection_url
connected = refl

parse_clickhouse_connection_url_example :
    parse_clickhouse_connection_url urls utf8 connection.endpoint
    ≡ ok (record { endpoint = connection.endpoint; user = none; password = none })
parse_clickhouse_connection_url_example =
    parse_clickhouse_connection_url_lem urls urls-IsLawful utf8 with_user connected

-- A table that keeps its mints.
abbrev client : Client (List Str)
client = record {
  insert = λ c base name. ok [];
  write = λ rows row. ok (HotTokenRow.mint row ∷ rows);
  end = λ rows. ok rows;
}

abbrev good_row : Record
good_row = bytes "name" ∷ bytes " mint " ∷ []

abbrev blank_row : Record
blank_row = bytes "name" ∷ bytes "  " ∷ []

good_row-IsMint : IsMint (ok good_row) (bytes "mint")
unfolding trim
good_row-IsMint = record {
  row = good_row;
  column = bytes " mint ";
  read = refl;
  found = refl;
  trimmed = refl;
  not_empty = refl;
}

blank_row-Ends :
    Ends
      (length {A = Result ℕ Record} (ok good_row ∷ []) + 2)
      (ok blank_row ∷ [])
      (some (mint_is_empty 3))
unfolding trim
blank_row-Ends =
    refused (ok blank_row) [] (mint_is_empty 3) (blank blank_row (bytes "  ") refl refl)

import_csv_example :
    import_csv client urls utf8 (ok ((ok good_row ∷ []) ++ ok blank_row ∷ [])) with_user
    ≡ err (mint_is_empty 3)
unfolding parse_clickhouse_connection_url
import_csv_example =
    import_csv_lem client urls utf8 with_user (ok good_row ∷ []) (ok blank_row ∷ [])
      (bytes "mint" ∷ []) (good_row-IsMint, tt) blank_row-Ends
