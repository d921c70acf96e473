-- ===== src/Prelude/Bytes.antt =====
-- Little-endian integers and slices of byte strings.
use native.Mathlib.Nat.{zero-add, add-zero, suc-add, pow-suc}
use solana_snapshot_etl.Prelude.{
  ℕ, zero, suc, ◌+◌, ◌-◌, ◌*◌, ◌/◌, ◌%◌, ◌^◌, ◌<◌, ◌≡◌, refl, ap, ◌∙◌, List, [], ◌∷◌, ◌++◌, arith,
  length, take, drop, Option, none, some, if◌then◌else◌, leb,
}

-- `from_le_bytes`
abbrev pub from_le : List ℕ → ℕ
from_le [] = 0
from_le (b ∷ bs) = b + 256 * from_le bs

-- `to_le_bytes`, for an integer of `k` bytes.
abbrev pub to_le : ℕ → ℕ → List ℕ
to_le zero n = []
to_le (suc k) n = (n % 256) ∷ to_le k (n / 256)

-- The `size` bytes from `offset` on, cut at the end.
abbrev pub slice : ℕ → ℕ → List ℕ → List ℕ
slice offset size bs = take size (drop offset bs)

-- `bytes.get(from..to)`: nothing if the range is not inside.
abbrev pub get_range : ℕ → ℕ → List ℕ → Option (List ℕ)
get_range from to bs =
    if leb from to
    then if leb to (length bs) then some (slice from (to - from) bs) else none
    else none

pub length-to_le : (k n : ℕ) → length (to_le k n) ≡ k
length-to_le zero n = refl
length-to_le (suc k) n = ap suc (length-to_le k (n / 256))

pub drop-append : (xs ys : List ℕ) → drop (length xs) (xs ++ ys) ≡ ys
drop-append [] ys = refl
drop-append (x ∷ xs) ys = drop-append xs ys

pub take-append : (xs ys : List ℕ) → take (length xs) (xs ++ ys) ≡ xs
take-append [] ys = refl
take-append (x ∷ xs) ys = ap (◌∷◌ x) (take-append xs ys)

pub drop_add : (m n : ℕ) (xs : List ℕ) → drop (m + n) xs ≡ drop n (drop m xs)
drop_add zero n xs = ap (λ k. drop k xs) (zero-add n)
drop_add (suc m) zero [] = ap (λ k. drop {A = ℕ} k []) (add-zero (suc m))
drop_add (suc m) (suc n) [] = ap (λ k. drop {A = ℕ} k []) (suc-add m (suc n))
drop_add (suc m) n (x ∷ xs) = ap (λ k. drop k (x ∷ xs)) (suc-add m n) ∙ drop_add m n xs

pub from_le-to_le : (k n : ℕ) → n < 256 ^ k → from_le (to_le k n) ≡ n
from_le-to_le zero n h = omega arith
from_le-to_le (suc k) n h =
    let below : n / 256 < 256 ^ k = omega (arith, pow-suc 256 k) in
    omega (arith, from_le-to_le k (n / 256) below)
