-- ===== src/Table/Linear.antt =====
-- Linear orders by Boolean tests: texts, integers, and one order after another.
use kubetin.Common.{
  ◌≡◌, sym, ap, ◌∙◌, Bool, true, false, ◌&&◌, ◌==◌, str_eq, if◌then◌else◌, arith, eq_iff, ◌+◌,
}
use kubetin.Common.Int.{ℤ, ltb_ℤ, pos_part, neg_part, eq_of_parts}
use kubetin.Common.Text.{text_ltb, text_ltb_asymm, text_ltb_trans, text_ltb_total}

pub record IsLinear {A : Type 0} (less eq : A → A → Bool) : Type 0 where
  pub asym : (x y : A) → less x y ≡ true → less y x ≡ false
  pub trans : (x y z : A) → less x y ≡ true → less y z ≡ true → less x z ≡ true
  pub total : (x y : A) → less x y ≡ false → less y x ≡ false → x ≡ y
  pub sound : (x y : A) → eq x y ≡ true → x ≡ y
  pub self : (x : A) → eq x x ≡ true

module _ {A : Type 0} {less eq : A → A → Bool} (l : IsLinear less eq) where
  eq_left : (x y z : A) → eq x y ≡ true → eq x z ≡ eq y z
  eq_left x y z h = ap (λ t. eq t z) (l.sound x y h)

  eq_symm : (x y : A) → eq x y ≡ true → eq y x ≡ true
  eq_symm x y h = ap (λ t. eq t x) (sym (l.sound x y h)) ∙ l.self x

  pub less_left : (x y z : A) → eq x y ≡ true → less x z ≡ less y z
  less_left x y z h = ap (λ t. less t z) (l.sound x y h)

  pub less_right : (x y z : A) → eq x y ≡ true → less z x ≡ less z y
  less_right x y z h = ap (less z) (l.sound x y h)

  less_apart : (x y : A) → less x y ≡ true → eq x y ≡ false
  less_apart x y h = ground (arith, less_left x y y, less_right x y x, l.asym x x)

  -- Two members of which none is before the other are equal.
  pub eq_of_total : (x y : A) → less x y ≡ false → less y x ≡ false → eq x y ≡ true
  eq_of_total x y h k = ap (λ t. eq t y) (l.total x y h k) ∙ l.self y

pub text-IsLinear : IsLinear text_ltb str_eq
text-IsLinear = record {
  asym = text_ltb_asymm;
  trans = text_ltb_trans;
  total = text_ltb_total;
  sound = λ x y h. (eq_iff x y).0 h;
  self = λ x. ground (arith, eq_iff x x);
}

abbrev pub eq_ℤ : ℤ → ℤ → Bool
eq_ℤ a b = pos_part a + neg_part b == pos_part b + neg_part a

pub int-IsLinear : IsLinear ltb_ℤ eq_ℤ
int-IsLinear = record {
  asym = λ x y h. ground arith;
  trans = λ x y z h k. ground arith;
  total = λ x y h k. eq_of_parts x y (ground arith);
  sound = λ x y h. eq_of_parts x y (ground arith);
  self = λ x. ground arith;
}

-- By the first components, and by the second ones where the first are equal.
module _ {A B : Type 0} (less eq : A → A → Bool) (less' eq' : B → B → Bool) where
  abbrev pub then_less : A × B → A × B → Bool
  then_less x y = if eq x.0 y.0 then less' x.1 y.1 else less x.0 y.0

  abbrev pub then_eq : A × B → A × B → Bool
  then_eq x y = eq x.0 y.0 && eq' x.1 y.1

  pair_eq : (x y : A × B) → x.0 ≡ y.0 → x.1 ≡ y.1 → x ≡ y
  pair_eq x y a b = ap (λ t. (t, x.1)) a ∙ ap (λ t. (y.0, t)) b

  eq_of_first :
      IsLinear less eq
      → (x y : A × B) → then_less x y ≡ false
      → then_less y x ≡ false
      → eq x.0 y.0 ≡ true
  eq_of_first l x y h k = ground (arith, eq_of_total l x.0 y.0, eq_symm l y.0 x.0)

  pub then_less-IsLinear : IsLinear less eq → IsLinear less' eq' → IsLinear then_less then_eq
  then_less-IsLinear l l' = record {
    asym = λ x y h.
        ground (arith, l.asym x.0 y.0, l'.asym x.1 y.1, eq_symm l x.0 y.0, eq_symm l y.0 x.0);
    trans = λ x y z h k. ground (
      arith,
      l.trans x.0 y.0 z.0,
      l'.trans x.1 y.1 z.1,
      less_left l x.0 y.0 z.0,
      less_right l y.0 z.0 x.0,
      eq_left l x.0 y.0 z.0,
      eq_symm l y.0 z.0,
      eq_left l y.0 z.0 x.0,
      eq_symm l x.0 y.0,
      eq_symm l x.0 z.0,
      eq_symm l z.0 x.0,
      eq_left l x.0 z.0 y.0,
      less_apart l x.0 z.0,
    );
    total = λ x y h k.
        let e : eq x.0 y.0 ≡ true = eq_of_first l x y h k in
        pair_eq x y (l.sound x.0 y.0 e)
          (l'.total x.1 y.1 (ground (arith, e)) (ground (arith, eq_symm l x.0 y.0 e)));
    sound = λ x y h. pair_eq x y (l.sound x.0 y.0 (ground arith)) (l'.sound x.1 y.1 (ground arith));
    self = λ x. ground (arith, l.self x.0, l'.self x.1);
  }
