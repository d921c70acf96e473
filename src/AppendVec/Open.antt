-- ===== src/AppendVec/Open.antt =====
-- append_vec.rs: which files are accepted, and that an AppendVec that was opened is well formed.
use solana_snapshot_etl.Prelude.{
  ℕ, zero, suc, ◌+◌, ◌-◌, ◌≤◌, ◌<◌, ◌≡◌, refl, ◌∙◌, ◌↔◌, [], ◌∷◌, ◌++◌, length, take, replicate,
  length-replicate, ap, arith,
}
use solana_snapshot_etl.Prelude.Result.{Result, ok, >>=-eq-ok, word}
use solana_snapshot_etl.AppendVec.{
  AppendVec, Bytes, IoError, FileView, maximum_append_vec_file_size, sanitize_len_and_size,
  new_from_file, new_from_reader, copy_over,
}
use solana_snapshot_etl.AppendVec.Bounds.{IsValid}

-- A file is accepted exactly when it is not empty, not above sixteen GiB, and not shorter than the
-- length that the manifest records.
pub sanitize_len_and_size_iff :
    (current_len file_size : ℕ)
    → (sanitize_len_and_size current_len file_size ≡ ok tt)
      ↔ ((0 < file_size) × (file_size ≤ maximum_append_vec_file_size) × (current_len ≤ file_size))
unfolding sanitize_len_and_size
sanitize_len_and_size_iff current_len file_size = ground arith

-- A map holds as many bytes as the file has.
abbrev pub MapsWhole : FileView → Type 0
MapsWhole file =
    (n : ℕ) (bs : Bytes) → file.metadata_len ≡ ok n → file.mapped ≡ ok bs → length bs ≡ n

-- Where the map covers the file, an AppendVec that `new_from_file` returns is well formed, keeps the
-- slot, the id and the recorded length that were asked for, and has the size of the file.
pub new_from_file-IsValid :
    (file : FileView) (current_len slot id : ℕ) {v : AppendVec}
    → MapsWhole file
    → new_from_file file current_len slot id ≡ ok v
    → IsValid v
      × (v.slot ≡ slot)
      × (v.id ≡ id)
      × (v.current_len ≡ current_len)
      × (file.metadata_len ≡ ok v.file_size)
      × (0 < v.file_size)
unfolding new_from_file
new_from_file-IsValid file current_len slot id whole e =
    let (_, _, e1) = >>=-eq-ok file.opened _ e in
    let (n, en, e2) = >>=-eq-ok file.metadata_len _ e1 in
    let (_, es, e3) = >>=-eq-ok (sanitize_len_and_size current_len n) _ e2 in
    let (bs, eb, e4) = >>=-eq-ok file.mapped _ e3 in
    let sized = (sanitize_len_and_size_iff current_len n).0 es in ground (arith, whole n bs en eb)

pub length-copy_over : (buffer source : Bytes) → length (copy_over buffer source) ≡ length buffer
length-copy_over [] source = refl
length-copy_over (b ∷ buffer) [] = refl
length-copy_over (b ∷ buffer) (c ∷ source) = ap suc (length-copy_over buffer source)

copy_over-replicate :
    (n : ℕ) (source : Bytes)
    → copy_over (replicate n 0) (take n source) ≡ take n source ++ replicate (n - length source) 0
copy_over-replicate zero source =
    let e : 0 ≡ 0 - length source = omega arith in ap (λ k. replicate k 0) e
copy_over-replicate (suc n) [] =
    let e : suc n ≡ suc n - 0 = omega arith in ap (λ k. replicate k 0) e
copy_over-replicate (suc n) (c ∷ source) =
    let e : n - length source ≡ suc n - suc (length source) = omega arith in
    ap (◌∷◌ c) (copy_over-replicate n source ∙ ap (λ k. take n source ++ replicate k 0) e)

-- Where an anonymous map starts out as zeros and making it read-only keeps its bytes, an AppendVec
-- read from a stream is well formed, keeps the slot and the id, and is as long as the manifest
-- records: it holds the stream's first bytes. A stream that ends early is accepted, and the rest of
-- the map stays zero.
pub new_from_reader_lem :
    (map_anon : ℕ → Result IoError Bytes) (make_read_only : Bytes → Result IoError Bytes)
    (source : Bytes) (current_len slot id : ℕ)
    → ((n : ℕ) → map_anon n ≡ ok (replicate n 0))
    → ((bs : Bytes) → make_read_only bs ≡ ok bs)
    → current_len + 8 ≤ word
    → (v : AppendVec) × (new_from_reader map_anon make_read_only (ok source) current_len slot id
        ≡ ok v)
      × IsValid v
      × (v.slot ≡ slot)
      × (v.id ≡ id)
      × (v.current_len ≡ current_len)
      × (v.map ≡ take current_len source ++ replicate (current_len - length source) 0)
unfolding new_from_reader
new_from_reader_lem map_anon make_read_only source current_len slot id zeros keeps h =
    let bs : Bytes = copy_over (replicate current_len 0) (take current_len source) in
    let e : length bs ≡ current_len =
      length-copy_over (replicate current_len 0) (take current_len source)
      ∙ length-replicate current_len 0 in
    (
      record { slot = slot; id = id; map = bs; current_len = current_len; file_size = current_len },
      rw (zeros current_len, keeps bs),
      record { mapped = omega arith; addressable = h },
      refl,
      refl,
      refl,
      copy_over-replicate current_len source,
    )
