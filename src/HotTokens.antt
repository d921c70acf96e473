-- ===== src/HotTokens.antt =====
-- bin/import_hot_token/main.rs: the second column of a CSV file, written to a table. csv, the URL
-- type, percent decoding and the table's client are parameters.
pub mod Rows
pub mod Connection
use solana_snapshot_etl.Prelude.{
  ℕ, zero, suc, ◌+◌, Bool, true, false, not, ◌&&◌, ◌||◌, List, [], ◌∷◌, ◌++◌, Option, none, some,
  if◌then◌else◌, ◌==◌, length, get_elem?, find, drop, take, ◌-◌, is_some,
}
use solana_snapshot_etl.Prelude.Order.{eqb}
use solana_snapshot_etl.Prelude.Text.{Str, bytes}
use solana_snapshot_etl.Prelude.Result.{Result, ok, err, map_err, ◌>>=◌, ◌>>◌}
use solana_snapshot_etl.Metadata.{str_ord}

-- The characters of Unicode's White_Space, in UTF-8.
abbrev pub whitespace : List Str
whitespace =
    (9 ∷ [])
    ∷ (10 ∷ [])
    ∷ (11 ∷ [])
    ∷ (12 ∷ [])
    ∷ (13 ∷ [])
    ∷ (32 ∷ [])
    ∷ (0xc2 ∷ 0x85 ∷ [])
    ∷ (0xc2 ∷ 0xa0 ∷ [])
    ∷ (0xe1 ∷ 0x9a ∷ 0x80 ∷ [])
    ∷ (0xe2 ∷ 0x80 ∷ 0x80 ∷ [])
    ∷ (0xe2 ∷ 0x80 ∷ 0x81 ∷ [])
    ∷ (0xe2 ∷ 0x80 ∷ 0x82 ∷ [])
    ∷ (0xe2 ∷ 0x80 ∷ 0x83 ∷ [])
    ∷ (0xe2 ∷ 0x80 ∷ 0x84 ∷ [])
    ∷ (0xe2 ∷ 0x80 ∷ 0x85 ∷ [])
    ∷ (0xe2 ∷ 0x80 ∷ 0x86 ∷ [])
    ∷ (0xe2 ∷ 0x80 ∷ 0x87 ∷ [])
    ∷ (0xe2 ∷ 0x80 ∷ 0x88 ∷ [])
    ∷ (0xe2 ∷ 0x80 ∷ 0x89 ∷ [])
    ∷ (0xe2 ∷ 0x80 ∷ 0x8a ∷ [])
    ∷ (0xe2 ∷ 0x80 ∷ 0xa8 ∷ [])
    ∷ (0xe2 ∷ 0x80 ∷ 0xa9 ∷ [])
    ∷ (0xe2 ∷ 0x80 ∷ 0xaf ∷ [])
    ∷ (0xe2 ∷ 0x81 ∷ 0x9f ∷ [])
    ∷ (0xe3 ∷ 0x80 ∷ 0x80 ∷ [])
    ∷ []

abbrev is_text : Str → Str → Bool
is_text s t = eqb ⦃o = str_ord⦄ s t

-- White space at the start of a text, and at its end.
abbrev pub starts_with : Str → Str → Bool
starts_with s w = is_text (take (length w) s) w

abbrev pub ends_with : Str → Str → Bool
ends_with s w = is_text (drop (length s - length w) s) w

abbrev pub trim_start : ℕ → Str → Str
trim_start zero s = s
trim_start (suc fuel) s = elim (find (starts_with s) whitespace) [
  | none ↦ s
  | some w ↦ trim_start fuel (drop (length w) s)
]

abbrev pub trim_end : ℕ → Str → Str
trim_end zero s = s
trim_end (suc fuel) s = elim (find (ends_with s) whitespace) [
  | none ↦ s
  | some w ↦ trim_end fuel (take (length s - length w) s)
]

-- `str::trim`. Each round takes a byte at least, so the text's length is fuel enough.
unfoldable pub trim : Str → Str
trim s = let started = trim_start (length s) s in trim_end (length started) started

pub record HotTokenRow : Type 0 where
  pub mint : Str

abbrev pub table : Str
table = bytes "hot_token"

abbrev pub database : Str
database = bytes "solana"

pub record ClickhouseConnection : Type 0 where
  pub endpoint : Str
  pub user : Option Str
  pub password : Option Str

-- The errors, by their messages; a number stands for an error of a crate.
pub data ImportError : Type 0 where
  invalid_url : ℕ → ImportError
  not_utf8 : ℕ → ImportError
  invalid_username invalid_password : ImportError
  csv : ℕ → ImportError
  csv_line : ℕ → ℕ → ImportError
  no_second_column : ℕ → ImportError
  mint_is_empty : ℕ → ImportError
  clickhouse : ℕ → ImportError

-- The `url` crate: a parsed URL, what it answers, and its setters, which may refuse.
pub record Urls : Type 1 where
  pub Url : Type 0
  pub parse : Str → Result ℕ Url
  pub username : Url → Str
  pub password : Url → Option Str
  pub set_username : Url → Str → Option Url
  pub set_password : Url → Option Str → Option Url
  pub to_string : Url → Str

abbrev pub ok_or {ℓ} : {A : Type ℓ} → Option A → ImportError → Result ImportError A
ok_or none why = err why
ok_or (some a) why = ok a

-- `transpose` of an optional result.
abbrev pub transpose {ℓ κ} : {E : Type ℓ} {A : Type κ} → Option (Result E A) → Result E (Option A)
transpose none = ok none
transpose (some (ok a)) = ok (some a)
transpose (some (err e)) = err e

module _ (urls : Urls) (percent_decode : Str → Result ℕ Str) where
  unfoldable pub decode_url_component : Str → Result ImportError Str
  decode_url_component value = map_err not_utf8 (percent_decode value)

  abbrev pub decode_option : Option Str → Result ImportError (Option Str)
  decode_option none = ok none
  decode_option (some value) = transpose (some (decode_url_component value))

  -- The userinfo is cleared before the endpoint is printed.
  abbrev pub without_userinfo : Bool → Urls.Url urls → Result ImportError (Urls.Url urls)
  without_userinfo false endpoint = ok endpoint
  without_userinfo true endpoint = do
    anonymous ← ok_or (urls.set_username endpoint []) invalid_username
    ok_or (urls.set_password anonymous none) invalid_password

  unfoldable pub parse_clickhouse_connection_url : Str → Result ImportError ClickhouseConnection
  unfolding decode_url_component
  parse_clickhouse_connection_url connection_url = do
    endpoint ← map_err invalid_url (urls.parse connection_url)
    let named = not (is_text (urls.username endpoint) [])
    let has_userinfo = named || is_some (urls.password endpoint)
    user ← decode_option (if named then some (urls.username endpoint) else none)
    password ← decode_option (urls.password endpoint)
    stripped ← without_userinfo has_userinfo endpoint
    ok (record { endpoint = urls.to_string stripped; user = user; password = password })

-- The table's client: an insert is opened for a connection and a table, rows are written to it, and
-- its end commits them.
pub record Client (W : Type 0) : Type 0 where
  pub insert : ClickhouseConnection → Str → Str → Result ℕ W
  pub write : W → HotTokenRow → Result ℕ W
  pub end : W → Result ℕ W

abbrev pub Record : Type 0
Record = List Str

module _ {W : Type 0} (client : Client W) where
  -- The mint of a record, or why it is refused.
  unfoldable pub mint_of : ℕ → Record → Result ImportError Str
  unfolding trim
  mint_of line row = do
    column ← ok_or (get_elem? row 1) (no_second_column line)
    let mint = trim column
    if is_text mint [] then err (mint_is_empty line) else ok mint

  -- The loop over the records, which the count of imported rows goes through. Line 1 is the header.
  unfoldable pub import_rows : ℕ → List (Result ℕ Record) → W → ℕ → Result ImportError (W × ℕ)
  unfolding mint_of
  import_rows index [] sink imported = ok (sink, imported)
  import_rows index (r ∷ rs) sink imported = do
    let line = index + 2
    row ← map_err (csv_line line) r
    mint ← mint_of line row
    written ← map_err clickhouse (client.write sink (record { mint = mint }))
    import_rows (suc index) rs written (suc imported)

  module _ (urls : Urls) (percent_decode : Str → Result ℕ Str) where
    -- The sink at its end, and the number of rows that the message reports.
    unfoldable pub import_csv : Result ℕ (List (Result ℕ Record)) → Str → Result ImportError (W × ℕ)
    unfolding import_rows parse_clickhouse_connection_url
    import_csv reader clickhouse_url = do
      connection ← parse_clickhouse_connection_url urls percent_decode clickhouse_url
      records ← map_err csv reader
      insert ← map_err clickhouse (client.insert connection database table)
      (written, imported) ← import_rows 0 records insert 0
      ended ← map_err clickhouse (client.end written)
      ok (ended, imported)
