-- ===== src/Prelude/Order.antt =====
-- The trait `Ord`, with its laws, and the orders that `derive(Ord)` and the standard library give.
use Prim.Native.Nat.{ℕ, compare, Ordering}
use Prim.Native.Nat.Ordering.{lt, eq, gt}
use mathlib.Core.Path.{◌≡◌, refl, ap, sym, ◌∙◌}
use mathlib.Core.Bool.{Bool, true, false}
use mathlib.Core.Option.{Option, none, some}
use mathlib.Core.List.{List, [], ◌∷◌}
use native.Mathlib.Omega.{arith}

-- `Ordering::reverse`
abbrev pub reverse : Ordering → Ordering
reverse lt = gt
reverse eq = eq
reverse gt = lt

-- `Ordering::then_with`
abbrev pub then_with : Ordering → Ordering → Ordering
then_with lt o = lt
then_with eq o = o
then_with gt o = gt

-- The laws of `Ord`; equality is `≡`.
pub record IsTotal {ℓ} {A : Type ℓ} (cmp : A → A → Ordering) : Type ℓ where
  pub cmp_self : (a : A) → cmp a a ≡ eq
  pub eq_of_cmp : (a b : A) → cmp a b ≡ eq → a ≡ b
  pub cmp_flip : (a b : A) → cmp b a ≡ reverse (cmp a b)
  pub cmp_trans : (a b c : A) → cmp a b ≡ lt → cmp b c ≡ lt → cmp a c ≡ lt

pub record Ord {ℓ} (A : Type ℓ) : Type ℓ where
  pub cmp : A → A → Ordering
  pub total : IsTotal cmp
  pub open total use *

module _ {ℓ} {A : Type ℓ} ⦃o : Ord A⦄ where
  -- `>` and `==` through `cmp`
  abbrev pub gtb : A → A → Bool
  gtb a b = elim (o.cmp a b) [ gt ↦ true | _ ↦ false ]

  abbrev pub eqb : A → A → Bool
  eqb a b = elim (o.cmp a b) [ eq ↦ true | _ ↦ false ]

  pub eqb_self : (a : A) → eqb a a ≡ true
  eqb_self a = ground (arith, o.cmp_self a)

  pub eq_of_eqb : (a b : A) → eqb a b ≡ true → a ≡ b
  eq_of_eqb a b h = ground (arith, o.eq_of_cmp a b)

pub compare-IsTotal : IsTotal compare
compare-IsTotal = record {
  cmp_self = λ a. ground arith;
  eq_of_cmp = λ a b h. ground arith;
  cmp_flip = λ a b. ground arith;
  cmp_trans = λ a b c p q. ground arith;
}

instance abbrev pub nat_ord : Ord ℕ
nat_ord = record { cmp = compare; total = compare-IsTotal }

abbrev pub cmp_bool : Bool → Bool → Ordering
cmp_bool false true = lt
cmp_bool true false = gt
cmp_bool _ _ = eq

pub cmp_bool-IsTotal : IsTotal cmp_bool
cmp_bool-IsTotal = record {
  cmp_self = λ a. ground arith;
  eq_of_cmp = λ a b h. ground arith;
  cmp_flip = λ a b. ground arith;
  cmp_trans = λ a b c p q. ground arith;
}

instance abbrev pub bool_ord : Ord Bool
bool_ord = record { cmp = cmp_bool; total = cmp_bool-IsTotal }

module _ {ℓ} {A : Type ℓ} ⦃o : Ord A⦄ where
  -- `None` is below every `Some`.
  abbrev pub cmp_option : Option A → Option A → Ordering
  cmp_option none none = eq
  cmp_option none (some _) = lt
  cmp_option (some _) none = gt
  cmp_option (some a) (some b) = o.cmp a b

  cmp_option_self : (a : Option A) → cmp_option a a ≡ eq
  cmp_option_self none = refl
  cmp_option_self (some a) = o.cmp_self a

  eq_of_cmp_option : (a b : Option A) → cmp_option a b ≡ eq → a ≡ b
  eq_of_cmp_option none none h = refl
  eq_of_cmp_option none (some b) h = cc
  eq_of_cmp_option (some a) none h = cc
  eq_of_cmp_option (some a) (some b) h = ap some (o.eq_of_cmp a b h)

  cmp_option_flip : (a b : Option A) → cmp_option b a ≡ reverse (cmp_option a b)
  cmp_option_flip none none = refl
  cmp_option_flip none (some b) = refl
  cmp_option_flip (some a) none = refl
  cmp_option_flip (some a) (some b) = o.cmp_flip a b

  cmp_option_trans :
      (a b c : Option A) → cmp_option a b ≡ lt → cmp_option b c ≡ lt → cmp_option a c ≡ lt
  cmp_option_trans none none c p q = q
  cmp_option_trans none (some b) none p q = cc
  cmp_option_trans none (some b) (some c) p q = refl
  cmp_option_trans (some a) none c p q = cc
  cmp_option_trans (some a) (some b) none p q = q
  cmp_option_trans (some a) (some b) (some c) p q = o.cmp_trans a b c p q

  pub cmp_option-IsTotal : IsTotal cmp_option
  cmp_option-IsTotal = record {
    cmp_self = cmp_option_self;
    eq_of_cmp = eq_of_cmp_option;
    cmp_flip = cmp_option_flip;
    cmp_trans = cmp_option_trans;
  }

  instance abbrev pub option_ord : Ord (Option A)
  option_ord = record { cmp = cmp_option; total = cmp_option-IsTotal }

  -- Sequences compare element by element, and a proper prefix is below.
  abbrev pub cmp_list : List A → List A → Ordering
  cmp_list [] [] = eq
  cmp_list [] (b ∷ bs) = lt
  cmp_list (a ∷ as') [] = gt
  cmp_list (a ∷ as') (b ∷ bs) = then_with (o.cmp a b) (cmp_list as' bs)

  cmp_list_self : (a : List A) → cmp_list a a ≡ eq
  cmp_list_self [] = refl
  cmp_list_self (a ∷ xs) = ground (arith, o.cmp_self a, cmp_list_self xs)

  eq_of_cmp_list : (a b : List A) → cmp_list a b ≡ eq → a ≡ b
  eq_of_cmp_list [] [] h = refl
  eq_of_cmp_list [] (b ∷ bs) h = cc
  eq_of_cmp_list (a ∷ xs) [] h = cc
  eq_of_cmp_list (a ∷ xs) (b ∷ ys) h = ground (arith, o.eq_of_cmp a b, eq_of_cmp_list xs ys)

  cmp_list_flip : (a b : List A) → cmp_list b a ≡ reverse (cmp_list a b)
  cmp_list_flip [] [] = refl
  cmp_list_flip [] (b ∷ bs) = refl
  cmp_list_flip (a ∷ xs) [] = refl
  cmp_list_flip (a ∷ xs) (b ∷ ys) = ground (arith, o.cmp_flip a b, cmp_list_flip xs ys)

  cmp_list_trans : (a b c : List A) → cmp_list a b ≡ lt → cmp_list b c ≡ lt → cmp_list a c ≡ lt
  cmp_list_trans [] [] c p q = q
  cmp_list_trans [] (b ∷ ys) [] p q = cc
  cmp_list_trans [] (b ∷ ys) (c ∷ zs) p q = refl
  cmp_list_trans (a ∷ xs) [] c p q = cc
  cmp_list_trans (a ∷ xs) (b ∷ ys) [] p q = q
  cmp_list_trans (a ∷ xs) (b ∷ ys) (c ∷ zs) p q = ground (
    arith,
    o.eq_of_cmp a b,
    o.eq_of_cmp b c,
    o.cmp_self a,
    o.cmp_trans a b c,
    cmp_list_trans xs ys zs,
  )

  pub cmp_list-IsTotal : IsTotal cmp_list
  cmp_list-IsTotal = record {
    cmp_self = cmp_list_self;
    eq_of_cmp = eq_of_cmp_list;
    cmp_flip = cmp_list_flip;
    cmp_trans = cmp_list_trans;
  }

  instance abbrev pub list_ord : Ord (List A)
  list_ord = record { cmp = cmp_list; total = cmp_list-IsTotal }

module _ {ℓ κ} {A : Type ℓ} {B : Type κ} ⦃a : Ord A⦄ ⦃b : Ord B⦄ where
  -- `derive(Ord)` on a struct: its fields in the order of their declaration.
  abbrev pub cmp_fields : A × B → A × B → Ordering
  cmp_fields x y = then_with (a.cmp x.0 y.0) (b.cmp x.1 y.1)

  pub cmp_fields-IsTotal : IsTotal {A = A × B} cmp_fields
  cmp_fields-IsTotal = record {
    cmp_self = λ x. ground (arith, a.cmp_self x.0, b.cmp_self x.1);
    eq_of_cmp = λ x y h. ground (arith, a.eq_of_cmp x.0 y.0, b.eq_of_cmp x.1 y.1);
    cmp_flip = λ x y. ground (arith, a.cmp_flip x.0 y.0, b.cmp_flip x.1 y.1);
    cmp_trans = λ x y z p q. ground (
      arith,
      a.eq_of_cmp x.0 y.0,
      a.eq_of_cmp y.0 z.0,
      a.cmp_self x.0,
      a.cmp_trans x.0 y.0 z.0,
      b.cmp_trans x.1 y.1 z.1,
    );
  }

  instance abbrev pub fields_ord : Ord (A × B)
  fields_ord = record { cmp = cmp_fields; total = cmp_fields-IsTotal }

-- An order taken along a view `f` of the type from which the value is read back by `g`.
module _ {ℓ κ} {A : Type ℓ} {B : Type κ} (b : Ord B) (f : A → B) (g : B → A) where
  pub via-IsTotal : ((x : A) → g (f x) ≡ x) → IsTotal (λ x y. b.cmp (f x) (f y))
  via-IsTotal back = record {
    cmp_self = λ x. b.cmp_self (f x);
    eq_of_cmp = λ x y h. sym (back x) ∙ ap g (b.eq_of_cmp (f x) (f y) h) ∙ back y;
    cmp_flip = λ x y. b.cmp_flip (f x) (f y);
    cmp_trans = λ x y z p q. b.cmp_trans (f x) (f y) (f z) p q;
  }

  abbrev pub via : ((x : A) → g (f x) ≡ x) → Ord A
  via back = record { cmp = λ x y. b.cmp (f x) (f y); total = via-IsTotal back }
