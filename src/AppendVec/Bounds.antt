-- ===== src/AppendVec/Bounds.antt =====
-- append_vec.rs: `get_slice` and `get_account` stay inside the recorded length, and a file that
-- was opened is well formed.
use native.Mathlib.Decide.{dec_le}
use native.Mathlib.Nat.{add_assoc}
use solana_snapshot_etl.Prelude.{
  ℕ, ◌+◌, ◌-◌, ◌*◌, ◌/◌, ◌%◌, ◌≤◌, ◌<◌, ◌≡◌, length, if◌then◌else◌, leb, le→leb, arith,
}
use solana_snapshot_etl.Prelude.Result.{word}
use solana_snapshot_etl.Prelude.Bytes.{slice}
use solana_snapshot_etl.AppendVec.{
  AppendVec, StoredMeta, StoredAccountMeta, hit, miss, len, get_slice, get_account, stored_meta,
  account_meta,
}

-- The recorded length is backed by the map, and no address near the end of it wraps.
pub record IsValid (v : AppendVec) : Type 0 where
  pub mapped : v.current_len ≤ length v.map
  pub addressable : v.current_len + 8 ≤ word

-- The next multiple of eight.
abbrev pub align : ℕ → ℕ
align n = (n + 7) / 8 * 8

-- A slice is found exactly when it lies inside the recorded length.
pub get_slice_lem :
    (v : AppendVec) (offset size : ℕ)
    → IsValid v
    → get_slice v offset size ≡ (
        if leb (offset + size) (len v)
        then hit (slice offset size v.map, align (offset + size))
        else miss)
unfolding get_slice
get_slice_lem v offset size h = ground arith

module _ (v : AppendVec) (h : IsValid v) where
  get_slice-hit :
      (offset size : ℕ)
      → offset + size ≤ len v
      → get_slice v offset size ≡ hit (slice offset size v.map, align (offset + size))
  get_slice-hit offset size fits =
      rw (get_slice_lem v offset size h, le→leb (offset + size) (len v) fits)

  get_slice-miss : (offset size : ℕ) → ¬ (offset + size ≤ len v) → get_slice v offset size ≡ miss
  get_slice-miss offset size over = ground (arith, get_slice_lem v offset size h)

  -- At aligned ends the rounding does nothing.
  get_slice_aligned :
      (offset size : ℕ)
      → (offset + size) % 8 ≡ 0
      → offset + size ≤ len v
      → get_slice v offset size ≡ hit (slice offset size v.map, offset + size)
  get_slice_aligned offset size a fits =
      let e : align (offset + size) ≡ offset + size = omega arith in
      ground (arith, get_slice-hit offset size fits)

align_add : (m n : ℕ) → m % 8 ≡ 0 → align (m + n) ≡ m + align n
align_add m n h = omega arith

word_back : (m n : ℕ) → n < word → (m + n + word - m) % word ≡ n
word_back m n h = omega arith

-- The parts of the account that starts at `offset`, each at its distance from the start.
module _ (v : AppendVec) (offset : ℕ) where
  abbrev pub meta_at : StoredMeta
  meta_at = stored_meta.read (slice offset 48 v.map)

  abbrev pub account_at : StoredAccountMeta
  account_at = record {
    meta = meta_at;
    account_meta = account_meta.read (slice (offset + 48) 56 v.map);
    account_data = slice (offset + 136) meta_at.data_len v.map;
    offset = offset;
    stored_size = align (136 + meta_at.data_len);
    hash = slice (offset + 104) 32 v.map;
  }

  module _ (h : IsValid v) (aligned : offset % 8 ≡ 0) where
    pub get_account-hit :
        offset + 136 + meta_at.data_len ≤ len v
        → get_account v offset ≡ hit (account_at, offset + align (136 + meta_at.data_len))
    unfolding get_account
    get_account-hit fits =
        let size : ℕ = align (136 + meta_at.data_len) in
        let end : align (offset + 136 + meta_at.data_len) ≡ offset + size = omega arith in
        let small : size < word = omega (arith, h.addressable) in
        rw (
          get_slice_aligned v h offset 48 (omega arith) (omega arith),
          get_slice_aligned v h (offset + 48) 56 (omega arith) (omega arith),
          add_assoc offset 48 56,
          get_slice_aligned v h (offset + 104) 32 (omega arith) (omega arith),
          add_assoc offset 104 32,
          get_slice-hit v h (offset + 136) meta_at.data_len fits,
          end,
          word_back offset size small,
        )

    pub get_account-miss : ¬ (offset + 136 + meta_at.data_len ≤ len v) → get_account v offset ≡ miss
    unfolding get_account
    get_account-miss over = elim (dec_le (offset + 48) (len v)) [
      | no short ↦ rw (get_slice-miss v h offset 48 short)
      | yes first ↦
          rw (get_slice_aligned v h offset 48 (omega arith) first)
            (elim (dec_le (offset + 48 + 56) (len v)) [
              | no short ↦ rw (get_slice-miss v h (offset + 48) 56 short)
              | yes second ↦
                  rw
                    (
                      get_slice_aligned v h (offset + 48) 56 (omega arith) second,
                      add_assoc offset 48 56,
                    )
                    (elim (dec_le (offset + 104 + 32) (len v)) [
                      | no short ↦ rw (get_slice-miss v h (offset + 104) 32 short)
                      | yes third ↦ rw (
                        get_slice_aligned v h (offset + 104) 32 (omega arith) third,
                        add_assoc offset 104 32,
                        get_slice-miss v h (offset + 136) meta_at.data_len over,
                      )
                    ])
            ])
    ]

  -- In a valid file, at an aligned offset, `get_account` finds an account exactly when its header
  -- of 136 bytes and its data lie inside the recorded length; it never panics, and the next offset
  -- is the account's size, rounded up to eight, further on.
  pub get_account_lem :
      IsValid v
      → offset % 8 ≡ 0
      → get_account v offset ≡ (
          if leb (offset + 136 + meta_at.data_len) (len v)
          then hit (account_at, offset + align (136 + meta_at.data_len))
          else miss)
  get_account_lem h aligned = elim (dec_le (offset + 136 + meta_at.data_len) (len v)) [
    | yes fits ↦
        rw (le→leb (offset + 136 + meta_at.data_len) (len v) fits) (get_account-hit h aligned fits)
    | no over ↦ ground (arith, get_account-miss h aligned over)
  ]
