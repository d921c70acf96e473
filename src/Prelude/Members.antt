-- ===== src/Prelude/Members.antt =====
-- Membership in lists that a Boolean test has filtered, and in lists mapped by a partial function.
use mathlib.Core.List.{Mem, Mem-prop, mem-cons, not-mem-nil}
use mathlib.Core.HLevel.{×_prop}
use mathlib.Core.Logic.Or
use solana_snapshot_etl.Prelude.{
  ◌≡◌, sym, ◌∙◌, ap, subst, Bool, true, List, [], ◌∷◌, filter, Bool-cases, inl, inr, All,
}

module _ {ℓ} {A : Type ℓ} where
  pub mem-filter→ :
      (p : A → Bool) (x : A) (xs : List A) → Mem x (filter p xs) → Mem x xs × (p x ≡ true)
  mem-filter→ p x [] m = absurd (not-mem-nil m)
  mem-filter→ p x (y ∷ ys) m = elim (Bool-cases (p y)) [
    | inl e ↦
        Or.elim (×_prop Mem-prop hlevel) (mem-cons.0 (subst (λ l. Mem x l) (rw e) m))
          (λ xy. (mem-cons.1 (Or.inl xy), ap p xy ∙ e))
          (λ r. let (a, b) = mem-filter→ p x ys r in (mem-cons.1 (Or.inr a), b))
    | inr e ↦ let (a, b) = mem-filter→ p x ys (rw e at m) in (mem-cons.1 (Or.inr a), b)
  ]

  pub mem-filter← :
      (p : A → Bool) (x : A) (xs : List A) → Mem x xs → p x ≡ true → Mem x (filter p xs)
  mem-filter← p x [] m h = absurd (not-mem-nil m)
  mem-filter← p x (y ∷ ys) m h =
      Or.elim Mem-prop (mem-cons.0 m) (λ xy. rw (ap p (sym xy) ∙ h) (mem-cons.1 (Or.inl xy)))
        (λ r. elim (Bool-cases (p y)) [
          | inl e ↦ rw e (mem-cons.1 (Or.inr (mem-filter← p x ys r h)))
          | inr e ↦ rw e (mem-filter← p x ys r h)
        ])

  -- What holds of every element holds of a member.
  pub All-mem {κ} :
      (P : A → Type κ)
      → ((x : A) → IsProp (P x))
      → (x : A) (xs : List A) → All P xs
      → Mem x xs
      → P x
  All-mem P prop x [] a m = absurd (not-mem-nil m)
  All-mem P prop x (y ∷ ys) a m =
      Or.elim (prop x) (mem-cons.0 m) (λ e. subst P (sym e) a.0) (λ r. All-mem P prop x ys a.1 r)
