-- ===== src/AppendVec.antt =====
-- append_vec.rs: the file-backed block of accounts, and how one account is read from it.
-- `usize` is 64 bits wide. The memory map is its bytes; a file and the mapping of it are
-- parameters, since the operating system and the `memmap2` crate provide them.
pub mod Bounds
pub mod Name
pub mod Open
pub mod Accounts
pub mod Scan
use solana_snapshot_etl.Prelude.{
  ℕ, ◌+◌, ◌-◌, ◌*◌, ◌/◌, ◌%◌, Bool, ◌||◌, List, [], ◌∷◌, length, take, if◌then◌else◌, ltb, leb,
  ◌==◌,
}
use solana_snapshot_etl.Prelude.Result.{Result, ok, err, ◌>>=◌, ◌>>◌, word}
use solana_snapshot_etl.Prelude.Bytes.{from_le, slice}

abbrev pub Bytes : Type 0
Bytes = List ℕ

-- The errors are told apart by their message. Those of this file come first; `os` is any error of
-- the operating system, of the memory map or of the archive. unpacked.rs adds two messages, which name
-- the path, the slot, the id and, where a file does not open, the expected length and the cause.
pub data IoError : Type 0 where
  too_small too_large current_len_too_large : ℕ → IoError
  os : ℕ → IoError
  not_in_manifest : Bytes → ℕ → ℕ → IoError
  failed_to_open : Bytes → ℕ → ℕ → ℕ → IoError → IoError

abbrev pub align_boundary_offset : ℕ
align_boundary_offset = 8

-- `u64_align!`: clearing the low three bits is `/ 8 * 8`. The sum wraps.
unfoldable pub u64_align : ℕ → ℕ
u64_align addr =
    (addr + (align_boundary_offset - 1)) % word / align_boundary_offset * align_boundary_offset

abbrev pub maximum_append_vec_file_size : ℕ
maximum_append_vec_file_size = 16 * 1024 * 1024 * 1024

pub record StoredMeta : Type 0 where
  pub write_version : ℕ
  pub data_len : ℕ
  pub pubkey : Bytes

pub record AccountMeta : Type 0 where
  pub lamports : ℕ
  pub rent_epoch : ℕ
  pub owner : Bytes
  pub executable : Bool

pub record StoredAccountMeta : Type 0 where
  pub meta : StoredMeta
  pub account_meta : AccountMeta
  pub account_data : Bytes
  pub offset : ℕ
  pub stored_size : ℕ
  pub hash : Bytes

-- What `clone_account` copies.
pub record Account : Type 0 where
  pub lamports : ℕ
  pub owner : Bytes
  pub executable : Bool
  pub rent_epoch : ℕ
  pub contents : Bytes

pub clone_account : StoredAccountMeta → Account
clone_account a = record {
  lamports = a.account_meta.lamports;
  owner = a.account_meta.owner;
  executable = a.account_meta.executable;
  rent_epoch = a.account_meta.rent_epoch;
  contents = a.account_data;
}

pub record AppendVec : Type 0 where
  pub slot : ℕ
  pub id : ℕ
  pub map : Bytes
  pub current_len : ℕ
  pub file_size : ℕ

unfoldable pub sanitize_len_and_size : ℕ → ℕ → Result IoError (Unit {0})
sanitize_len_and_size current_len file_size =
    if file_size == 0
    then err (too_small file_size)
    else if ltb maximum_append_vec_file_size file_size
    then err (too_large file_size)
    else if ltb file_size current_len
    then err (current_len_too_large file_size)
    else ok tt

abbrev pub len : AppendVec → ℕ
len v = v.current_len

abbrev pub is_empty : AppendVec → Bool
is_empty v = len v == 0

abbrev pub capacity : AppendVec → ℕ
capacity v = v.file_size

-- `saturating_sub` is the subtraction of ℕ.
unfoldable pub remaining_bytes : AppendVec → ℕ
remaining_bytes v = capacity v - len v

-- What the operating system answers about a path: whether it opens for reading, its length, and
-- the bytes of a map of it.
pub record FileView : Type 0 where
  pub opened : Result IoError (Unit {0})
  pub metadata_len : Result IoError ℕ
  pub mapped : Result IoError Bytes

unfoldable pub new_from_file : FileView → ℕ → ℕ → ℕ → Result IoError AppendVec
unfolding sanitize_len_and_size
new_from_file file current_len slot id = do
  file.opened
  file_size ← file.metadata_len
  sanitize_len_and_size current_len file_size
  bytes ← file.mapped
  ok (record {
    slot = slot;
    id = id;
    map = bytes;
    current_len = current_len;
    file_size = file_size;
  })

-- `io::copy` of at most `limit` bytes to the front of a buffer.
abbrev pub copy_over : Bytes → Bytes → Bytes
copy_over [] source = []
copy_over (b ∷ buffer) [] = b ∷ buffer
copy_over (b ∷ buffer) (c ∷ source) = c ∷ copy_over buffer source

-- A reader is what it yields until its end, or the error that it ends in. `map_anon` and
-- `make_read_only` are the memory map's.
unfoldable pub new_from_reader :
    (ℕ → Result IoError Bytes)
    → (Bytes → Result IoError Bytes)
    → Result IoError Bytes
    → ℕ
    → ℕ
    → ℕ
    → Result IoError AppendVec
new_from_reader map_anon make_read_only reader current_len slot id = do
  buffer ← map_anon current_len
  source ← reader
  bytes ← make_read_only (copy_over buffer (take current_len source))
  ok (record {
    slot = slot;
    id = id;
    map = bytes;
    current_len = current_len;
    file_size = current_len;
  })

-- `Option`, and the panic of a slice out of bounds.
pub data Get {ℓ} (A : Type ℓ) : Type ℓ where
  hit : A → Get A
  miss : Get A
  panic : Get A

abbrev pub and_then {ℓ κ} : {A : Type ℓ} {B : Type κ} → Get A → (A → Get B) → Get B
and_then (hit a) f = f a
and_then miss f = miss
and_then panic f = panic

-- `overflowing_add`, the bound, and `&self.map[offset..next]`.
unfoldable pub get_slice : AppendVec → ℕ → ℕ → Get (Bytes × ℕ)
unfolding u64_align
get_slice v offset size =
    let next = (offset + size) % word in
    if leb word (offset + size) || ltb (len v) next
    then miss
    else if leb next (length v.map)
    then hit (slice offset size v.map, u64_align next)
    else panic

-- A type of the file: its size, and the value that its bytes stand for.
pub record Layout (T : Type 0) : Type 0 where
  pub size_of : ℕ
  pub read : Bytes → T

abbrev pub stored_meta : Layout StoredMeta
stored_meta = record {
  size_of = 48;
  read = λ b. record {
    write_version = from_le (slice 0 8 b);
    data_len = from_le (slice 8 8 b);
    pubkey = slice 16 32 b;
  };
}

-- Seven bytes of padding close the struct. Rust leaves a `bool` byte above 1 undefined; it reads as
-- true here.
abbrev pub account_meta : Layout AccountMeta
account_meta = record {
  size_of = 56;
  read = λ b. record {
    lamports = from_le (slice 0 8 b);
    rent_epoch = from_le (slice 8 8 b);
    owner = slice 16 32 b;
    executable = ltb 0 (from_le (slice 48 1 b));
  };
}

abbrev pub hash : Layout Bytes
hash = record { size_of = 32; read = λ b. b }

unfoldable pub get_type : {T : Type 0} → Layout T → AppendVec → ℕ → Get (T × ℕ)
get_type layout v offset =
    and_then (get_slice v offset layout.size_of) λ (found, next). hit (layout.read found, next)

unfoldable pub get_account : AppendVec → ℕ → Get (StoredAccountMeta × ℕ)
unfolding get_type
get_account v offset = and_then (get_type stored_meta v offset) λ (m, after_meta).
    and_then (get_type account_meta v after_meta) λ (a, after_account).
      and_then (get_type hash v after_account) λ (h, after_hash).
        and_then (get_slice v after_hash m.data_len) λ (found, next). hit (
          record {
            meta = m;
            account_meta = a;
            account_data = found;
            offset = offset;
            stored_size = (next + word - offset) % word;
            hash = h;
          },
          next,
        )
