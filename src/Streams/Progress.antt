-- ===== src/Streams/Progress.antt =====
-- archived.rs `AppendVecReadProgress`: a reader that counts what passes through it. The times of its
-- log are left out.
use solana_snapshot_etl.Prelude.{
  ℕ, ◌+◌, ◌%◌, ◌<◌, ◌≡◌, refl, List, [], ◌∷◌, ◌++◌, length, length-append, arith, ap, inl, inr,
}
use solana_snapshot_etl.Prelude.Result.{Result, ok, err, Result-cases, ◌>>=◌, word}
use solana_snapshot_etl.AppendVec.{Bytes, IoError}

module _ {ℓ} where
  pub record AppendVecReadProgress (R : Type ℓ) : Type ℓ where
    pub reader : R
    pub slot : ℕ
    pub id : ℕ
    pub expected_len : ℕ
    pub bytes_read : ℕ

  -- `Read::read` with a buffer of some size: what was read, and the reader after it.
  abbrev pub Read : Type ℓ → Type ℓ
  Read R = ℕ → R → Result IoError (Bytes × R)

  module _ {R : Type ℓ} where
    unfoldable pub new : R → ℕ → ℕ → ℕ → AppendVecReadProgress R
    new reader slot id expected_len = record {
      reader = reader;
      slot = slot;
      id = id;
      expected_len = expected_len;
      bytes_read = 0;
    }

    unfoldable pub read : Read R → Read (AppendVecReadProgress R)
    read inner size it = do
      (bs, rest) ← inner size it.reader
      ok (bs, record it { reader = rest; bytes_read = (it.bytes_read + length bs) % word })

  -- Reads with buffers of these sizes, until one fails: all that was read.
  abbrev pub reads : {R : Type ℓ} → Read R → List ℕ → R → Result IoError (Bytes × R)
  reads inner [] r = ok ([], r)
  reads inner (size ∷ sizes) r = do
    (bs, s) ← inner size r
    (cs, t) ← reads inner sizes s
    ok (bs ++ cs, t)

  module _ {R : Type ℓ} where
    -- The answer of the reader inside, with its bytes counted.
    abbrev pub counted :
        AppendVecReadProgress R
        → Result IoError (Bytes × R)
        → Result IoError (Bytes × AppendVecReadProgress R)
    counted it (err why) = err why
    counted it (ok (bs, rest)) =
        ok (bs, record it { reader = rest; bytes_read = (it.bytes_read + length bs) % word })

  module _ {R : Type ℓ} (inner : Read R) where
    reads-read :
        (sizes : List ℕ) (it : AppendVecReadProgress R)
        → it.bytes_read < word
        → reads (read inner) sizes it ≡ counted it (reads inner sizes it.reader)
    unfolding read
    reads-read [] it h =
        let e : it.bytes_read ≡ (it.bytes_read + 0) % word = omega arith in
        ap (λ n. ok ([], record it { bytes_read = n })) e
    reads-read (size ∷ sizes) it h = elim (Result-cases (inner size it.reader)) [
      | inl (why, e) ↦ rw e refl
      | inr ((bs, s), e) ↦
          let after : AppendVecReadProgress R = record it {
            reader = s;
            bytes_read = (it.bytes_read + length bs) % word;
          } in
          let more = reads-read sizes after (omega arith) in
          elim (Result-cases (reads inner sizes s)) [
            | inl (why, f) ↦ rw (e, more, f) refl
            | inr ((cs, t), f) ↦
                let sum : (after.bytes_read + length cs) % word
                    ≡ (it.bytes_read + length (bs ++ cs)) % word =
                  omega (arith, length-append bs cs) in
                rw (e, more, f)
                  (ap (λ n. ok (bs ++ cs, record it { reader = t; bytes_read = n })) sum)
          ]
    ]

    -- Whatever buffers are used, the counting reader answers as the reader inside it does, errors
    -- included, and has counted the bytes that passed, as a `u64`.
    pub read_lem :
        (sizes : List ℕ) (reader : R) (slot id expected_len : ℕ)
        → let it = new reader slot id expected_len in
          reads (read inner) sizes it ≡ counted it (reads inner sizes reader)
    unfolding new
    read_lem sizes reader slot id expected_len =
        reads-read sizes (new reader slot id expected_len) (omega arith)
