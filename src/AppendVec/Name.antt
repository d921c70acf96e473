-- ===== src/AppendVec/Name.antt =====
-- lib.rs: the name of an AppendVec file, `<slot>.<id>`.
use solana_snapshot_etl.Prelude.{
  ℕ, ◌<◌, ◌≡◌, [], ◌∷◌, ◌++◌, Option, none, some, ◌>>=◌, if◌then◌else◌, unwrap_or,
}
use solana_snapshot_etl.Prelude.Text.{
  Str, is_utf8, parse_u64, split_once, to_string, IsDecimal, is_utf8_dotted, to_string-IsDecimal,
  split_once-IsDecimal, parse_u64-to_string,
}
use solana_snapshot_etl.Prelude.Result.{word}

-- `OsStr::to_str`
abbrev pub to_str : Str → Option Str
to_str name = if is_utf8 name then some name else none

unfoldable pub parse_append_vec_name : Str → Option (ℕ × ℕ)
unfolding parse_u64
parse_append_vec_name os_name = do
  name ← to_str os_name
  let parts = split_once b'.' name
  slot ← parse_u64 parts.0
  id ← parse_u64 (unwrap_or parts.1 [])
  some (slot, id)

-- A name printed from a slot and an id parses back to them.
pub parse_append_vec_name-print :
    (slot id : ℕ)
    → slot < word
    → id < word
    → parse_append_vec_name (to_string slot ++ b'.' ∷ to_string id) ≡ some (slot, id)
unfolding parse_append_vec_name
parse_append_vec_name-print slot id hs hi =
    let ds : IsDecimal (to_string slot) = to_string-IsDecimal slot hs in
    let di : IsDecimal (to_string id) = to_string-IsDecimal id hi in
    rw (
      is_utf8_dotted (to_string slot) (to_string id) ds di,
      split_once-IsDecimal (to_string slot) (to_string id) ds,
      parse_u64-to_string slot hs,
      parse_u64-to_string id hi,
    )
