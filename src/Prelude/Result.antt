-- ===== src/Prelude/Result.antt =====
-- `std::result::Result`, with `?` as bind, and machine words.
use Prim.Native.Nat.{ℕ, ◌^◌}
use mathlib.Core.Path.{◌≡◌, refl}
use mathlib.Core.Logic.{◌⊎◌, inl, inr}

pub data Result {ℓ κ} (E : Type ℓ) (A : Type κ) : Type (ℓ ⊔ κ) where
  err : E → Result E A
  ok : A → Result E A

abbrev pub map_err {ℓ κ μ} :
    {E : Type ℓ} {F : Type κ} {A : Type μ} → (E → F) → Result E A → Result F A
map_err f (ok a) = ok a
map_err f (err e) = err (f e)

-- An error ends a `do` block.
infixl 5 ◌>>=◌
abbrev pub ◌>>=◌ {ℓ κ μ} :
    {E : Type ℓ} {A : Type κ} {B : Type μ} → Result E A → (A → Result E B) → Result E B
err e >>= next = err e
ok a >>= next = next a

infixl 5 ◌>>◌
abbrev pub ◌>>◌ {ℓ κ μ} :
    {E : Type ℓ} {A : Type κ} {B : Type μ} → Result E A → Result E B → Result E B
first >> next = first >>= λ _. next

-- A chain that succeeds succeeds at its first call.
pub >>=-eq-ok {ℓ κ μ} :
    {E : Type ℓ} {A : Type κ} {B : Type μ} (first : Result E A) (next : A → Result E B) {last : B}
    → (first >>= next) ≡ ok last
    → (found : A) × (first ≡ ok found) × (next found ≡ ok last)
>>=-eq-ok (err e) next h = cc
>>=-eq-ok (ok found) next h = (found, refl, h)

-- `usize` and `u64` are 64 bits wide.
abbrev pub word : ℕ
word = 2 ^ 64

pub Result-cases {ℓ κ} :
    {E : Type ℓ} {A : Type κ} (r : Result E A)
    → ((why : E) × (r ≡ err why)) ⊎ ((a : A) × (r ≡ ok a))
Result-cases (err why) = inl (why, refl)
Result-cases (ok a) = inr (a, refl)
