-- ===== src/Prelude/Perms.antt =====
-- Counting the elements that pass a test: under append, and in another order.
use mathlib.Core.Logic.{∥∥₁_elim}
use mathlib.Core.List.{Perm, Permᴰ}
use native.Mathlib.Nat.{ℕ_set}
use solana_snapshot_etl.Prelude.{
  ◌+◌, ◌≡◌, refl, ◌∙◌, Bool, true, false, List, [], ◌∷◌, ◌++◌, map, arith, filter, length,
  if◌then◌else◌,
}

module _ {ℓ} {A : Type ℓ} (p : A → Bool) where
  pub length-filter-append :
      (xs ys : List A) → length (filter p (xs ++ ys)) ≡ length (filter p xs) + length (filter p ys)
  length-filter-append [] ys = omega arith
  length-filter-append (x ∷ xs) ys = ground (arith, length-filter-append xs ys)

  -- Elements on which the test agrees all pass, or none does.
  pub length-filter-map {κ} :
      {B : Type κ} (f : B → A) (b : Bool)
      → ((y : B) → p (f y) ≡ b)
      → (ys : List B) → length (filter p (map f ys)) ≡ (if b then length ys else 0)
  length-filter-map f true h [] = refl
  length-filter-map f false h [] = refl
  length-filter-map f true h (y ∷ ys) = ground (arith, h y, length-filter-map f true h ys)
  length-filter-map f false h (y ∷ ys) = ground (arith, h y, length-filter-map f false h ys)

  length-filter-Permᴰ : {xs ys : List A} → Permᴰ xs ys → length (filter p xs) ≡ length (filter p ys)
  length-filter-Permᴰ Permᴰ.nil = refl
  length-filter-Permᴰ (Permᴰ.cons e q) = ground (arith, e, length-filter-Permᴰ q)
  length-filter-Permᴰ (Permᴰ.swap e f) = ground (arith, e, f)
  length-filter-Permᴰ (Permᴰ.trans q r) = length-filter-Permᴰ q ∙ length-filter-Permᴰ r

  pub length-filter-perm :
      {xs ys : List A} → Perm xs ys → length (filter p xs) ≡ length (filter p ys)
  length-filter-perm q = ∥∥₁_elim q (ℕ_set _ _) length-filter-Permᴰ
