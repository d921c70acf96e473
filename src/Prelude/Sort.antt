-- ===== src/Prelude/Sort.antt =====
-- `slice::sort_by`: a stable sort by a comparator.
use Prim.Native.Nat.{Ordering}
use mathlib.Core.Path.{◌≡◌, refl}
use mathlib.Core.List.{List, [], ◌∷◌}
use mathlib.Core.List.{Perm}
use mathlib.Core.List.Perm
use native.Mathlib.Omega.{arith}
use solana_snapshot_etl.Prelude.Lists.{All, All-imp}

module _ {ℓ} {A : Type ℓ} (cmp : A → A → Ordering) where
  -- An element goes before the first one that is not below it, so equals keep their order.
  abbrev pub insert_by : A → List A → List A
  insert_by x [] = x ∷ []
  insert_by x (y ∷ ys) = elim (cmp x y) [ Ordering.gt ↦ y ∷ insert_by x ys | _ ↦ x ∷ y ∷ ys ]

  abbrev pub sort_by : List A → List A
  sort_by [] = []
  sort_by (x ∷ xs) = insert_by x (sort_by xs)

  -- No element is above a later one.
  abbrev pub IsSortedBy : List A → Type 0
  IsSortedBy [] = Unit
  IsSortedBy (x ∷ xs) = All (λ y. ¬ (cmp x y ≡ Ordering.gt)) xs × IsSortedBy xs

  pub insert_by-perm : (x : A) (ys : List A) → Perm (insert_by x ys) (x ∷ ys)
  insert_by-perm x [] = Perm.refl (x ∷ [])
  insert_by-perm x (y ∷ ys) =
      elim (cmp x y)
        as (λ o. Perm (elim o [ Ordering.gt ↦ y ∷ insert_by x ys | _ ↦ x ∷ y ∷ ys ]) (x ∷ y ∷ ys)) [
          | Ordering.gt ↦ Perm.trans (Perm.cons y (insert_by-perm x ys)) (Perm.swap x y ys)
          | _ ↦ Perm.refl (x ∷ y ∷ ys)
        ]

  pub sort_by-perm : (xs : List A) → Perm (sort_by xs) xs
  sort_by-perm [] = Perm.refl []
  sort_by-perm (x ∷ xs) = Perm.trans (insert_by-perm x (sort_by xs)) (Perm.cons x (sort_by-perm xs))

  pub All-insert_by {κ} :
      (P : A → Type κ) (x : A) (ys : List A) → P x → All P ys → All P (insert_by x ys)
  All-insert_by P x [] p ps = (p, tt)
  All-insert_by P x (y ∷ ys) p ps = ground (arith, All-insert_by P x ys p)

  pub All-sort_by {κ} : (P : A → Type κ) (xs : List A) → All P xs → All P (sort_by xs)
  All-sort_by P [] ps = tt
  All-sort_by P (x ∷ xs) ps = All-insert_by P x (sort_by xs) ps.0 (All-sort_by P xs ps.1)

-- What `sort_by` asks of its comparator.
pub record IsPreorder {ℓ} {A : Type ℓ} (cmp : A → A → Ordering) : Type ℓ where
  pub of_gt : (a b : A) → cmp a b ≡ Ordering.gt → ¬ (cmp b a ≡ Ordering.gt)
  pub le_trans :
      (a b c : A)
      → ¬ (cmp a b ≡ Ordering.gt)
      → ¬ (cmp b c ≡ Ordering.gt)
      → ¬ (cmp a c ≡ Ordering.gt)

module _ {ℓ} {A : Type ℓ} {cmp : A → A → Ordering} (p : IsPreorder cmp) where
  -- What no element of a sorted rest may do.
  abbrev Below : A → A → Type 0
  Below y z = ¬ (cmp y z ≡ Ordering.gt)

  above : (x y : A) (ys : List A) → Below x y → All (Below y) ys → All (Below x) (y ∷ ys)
  above x y ys h s = (h, All-imp ys (λ z k. p.le_trans x y z h k) s)

  insert_by-IsSortedBy :
      (x : A) (ys : List A) → IsSortedBy cmp ys → IsSortedBy cmp (insert_by cmp x ys)
  insert_by-IsSortedBy x [] s = (tt, tt)
  insert_by-IsSortedBy x (y ∷ ys) s = go (cmp x y) refl (insert_by-IsSortedBy x ys s.1)
    where
      go :
          (o : Ordering)
          → cmp x y ≡ o
          → IsSortedBy cmp (insert_by cmp x ys)
          → IsSortedBy cmp (elim o [ Ordering.gt ↦ y ∷ insert_by cmp x ys | _ ↦ x ∷ y ∷ ys ])
      go Ordering.gt e rest = (All-insert_by cmp (Below y) x ys (p.of_gt x y e) s.0, rest)
      go Ordering.lt e rest = (above x y ys (λ h. cc) s.0, s)
      go Ordering.eq e rest = (above x y ys (λ h. cc) s.0, s)

  pub sort_by-IsSortedBy : (xs : List A) → IsSortedBy cmp (sort_by cmp xs)
  sort_by-IsSortedBy [] = tt
  sort_by-IsSortedBy (x ∷ xs) = insert_by-IsSortedBy x (sort_by cmp xs) (sort_by-IsSortedBy xs)
