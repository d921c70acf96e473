-- ===== src/Tests/Archive.antt =====
-- append_vec.rs and lib.rs: one file with a single account of three bytes of data.
use solana_snapshot_etl.Prelude.{
  ℕ, ◌≤◌, ◌<◌, ◌≡◌, refl, ◌↔◌, List, [], ◌∷◌, ◌++◌, map, some, replicate, arith,
}
use solana_snapshot_etl.Prelude.Result.{Result, ok}
use solana_snapshot_etl.Prelude.Text.{bytes, to_string}
use solana_snapshot_etl.AppendVec.{
  AppendVec, Bytes, IoError, StoredAccountMeta, FileView, hit, get_slice, get_account,
  sanitize_len_and_size, maximum_append_vec_file_size, new_from_file, new_from_reader,
}
use solana_snapshot_etl.AppendVec.Bounds.{IsValid, account_at, get_slice_lem, get_account_lem}
use solana_snapshot_etl.AppendVec.Open.{
  sanitize_len_and_size_iff, MapsWhole, new_from_file-IsValid, new_from_reader_lem,
}
use solana_snapshot_etl.AppendVec.Name.{parse_append_vec_name, parse_append_vec_name-print}
use solana_snapshot_etl.AppendVec.Accounts.{
  StoredAccountMetaHandle, access, append_vec_iter, append_vec_accounts, drain, done, enough,
}
use solana_snapshot_etl.AppendVec.Scan.{Chain, append_vec_iter-append_vec_accounts}

abbrev pub one_account : AppendVec
one_account = record {
  slot = 7;
  id = 1;
  map = replicate 8 0 ++ 3 ∷ replicate 135 0;
  current_len = 144;
  file_size = 144;
}

one_account-IsValid : IsValid one_account
one_account-IsValid = record { mapped = omega arith; addressable = omega arith }

get_slice_example : get_slice one_account 8 8 ≡ hit (3 ∷ replicate 7 0, 16)
get_slice_example = get_slice_lem one_account 8 8 one_account-IsValid

get_account_example : get_account one_account 0 ≡ hit (account_at one_account 0, 144)
get_account_example = get_account_lem one_account 0 one_account-IsValid refl

append_vec_iter_example :
    (offsets : List ℕ) × (handles : List StoredAccountMetaHandle) × (accounts : List
      StoredAccountMeta)
    × Chain one_account 0 offsets
    × (append_vec_iter (enough one_account) one_account ≡ done handles)
    × (drain (enough one_account) (append_vec_accounts one_account) ≡ done accounts)
    × (map access handles ≡ map hit accounts)
    × (map (λ a. a.offset) accounts ≡ offsets)
append_vec_iter_example = append_vec_iter-append_vec_accounts one_account one_account-IsValid

sanitize_example :
    (sanitize_len_and_size 8 16 ≡ ok tt)
    ↔ ((0 < 16) × (16 ≤ maximum_append_vec_file_size) × (8 ≤ 16))
sanitize_example = sanitize_len_and_size_iff 8 16

abbrev file : FileView
file = record { opened = ok tt; metadata_len = ok 16; mapped = ok (replicate 16 0) }

abbrev opened : AppendVec
opened = record { slot = 3; id = 4; map = replicate 16 0; current_len = 8; file_size = 16 }

new_from_file_eq : new_from_file file 8 3 4 ≡ ok opened
unfolding new_from_file
new_from_file_eq = refl

file-MapsWhole : MapsWhole file
file-MapsWhole n bs e f = ground (arith, e, f)

new_from_file_example :
    IsValid opened
    × (opened.slot ≡ 3)
    × (opened.id ≡ 4)
    × (opened.current_len ≡ 8)
    × (file.metadata_len ≡ ok opened.file_size)
    × (0 < opened.file_size)
new_from_file_example = new_from_file-IsValid file 8 3 4 file-MapsWhole new_from_file_eq

abbrev zeros : ℕ → Result IoError Bytes
zeros n = ok (replicate n 0)

abbrev read_only : Bytes → Result IoError Bytes
read_only bs = ok bs

new_from_reader_example :
    (v : AppendVec) × (new_from_reader zeros read_only (ok (5 ∷ 6 ∷ [])) 3 7 1 ≡ ok v)
    × IsValid v
    × (v.slot ≡ 7)
    × (v.id ≡ 1)
    × (v.current_len ≡ 3)
    × (v.map ≡ 5 ∷ 6 ∷ 0 ∷ [])
new_from_reader_example =
    new_from_reader_lem zeros read_only (5 ∷ 6 ∷ []) 3 7 1 (λ n. refl) (λ bs. refl) (omega arith)

parse_append_vec_name_example : parse_append_vec_name (bytes "300.7") ≡ some (300, 7)
unfolding to_string
parse_append_vec_name_example = parse_append_vec_name-print 300 7 (omega arith) (omega arith)
