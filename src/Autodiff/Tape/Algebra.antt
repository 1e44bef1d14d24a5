-- ===== src/Autodiff/Tape/Algebra.antt =====
-- The operations by which the classes of terms are read: values for evaluate, values with their
-- changes for differentiate.
use supplementary.Base.{ℕ, Bool, true, ◌<◌, ◌≡◌, refl, ◌∙◌, ap, List, [], ◌∷◌, All}
use supplementary.Autodiff.Doubles.{Doubles}
use supplementary.Autodiff.Tape.{
  Kind, compiled_abs, compiled_cos, compiled_exp, compiled_log, compiled_sin, compiled_and,
  compiled_or, compiled_max, compiled_min, compiled_product, compiled_atan2, compiled_term_power,
  compiled_utility, compiled_lt, compiled_lte, compiled_sigmoid, compiled_reification,
  compiled_const_power, compiled_sum, compiled_constant, compiled_variable,
}
use supplementary.Autodiff.Tape.Evaluate.{
  std_max, std_min, and_value, or_value, utility_value, inequality_value, reification_value,
  sigmoid_value, sum_values, element_value,
}

pub record Algebra (D : Type 0) : Type 1 where
  pub X : Type 0
  pub abs : X → X
  pub cos : X → X
  pub exp : X → X
  pub log : X → X
  pub sin : X → X
  pub and_ : X → X → X
  pub or_ : X → X → X
  pub max : X → X → X
  pub min : X → X → X
  pub product : X → X → X
  pub atan2 : X → X → X
  pub term_power : X → X → X
  pub utility : X → X → X
  pub lt : D → X → X → X
  pub lte : D → X → X → X
  pub sigmoid : D → X → X → X
  pub reification : D → D → X → X → X
  pub const_power : D → X → X
  pub constant : D → X
  pub nil : X
  pub add : X → X → X

-- The indices that an element holds.
abbrev pub operands : {D : Type 0} → Kind D → List ℕ
operands (compiled_abs a) = a ∷ []
operands (compiled_cos a) = a ∷ []
operands (compiled_exp a) = a ∷ []
operands (compiled_log a) = a ∷ []
operands (compiled_sin a) = a ∷ []
operands (compiled_const_power a e) = a ∷ []
operands (compiled_and a b) = a ∷ b ∷ []
operands (compiled_or a b) = a ∷ b ∷ []
operands (compiled_max a b) = a ∷ b ∷ []
operands (compiled_min a b) = a ∷ b ∷ []
operands (compiled_product a b) = a ∷ b ∷ []
operands (compiled_atan2 a b) = a ∷ b ∷ []
operands (compiled_term_power a b) = a ∷ b ∷ []
operands (compiled_utility a b) = a ∷ b ∷ []
operands (compiled_lt a b s) = a ∷ b ∷ []
operands (compiled_lte a b s) = a ∷ b ∷ []
operands (compiled_sigmoid a b s) = a ∷ b ∷ []
operands (compiled_reification a b lo hi) = a ∷ b ∷ []
operands (compiled_sum is) = is
operands compiled_constant = []
operands compiled_variable = []

-- The classes whose weights a forward sweep sets by the operands alone, and with `every` all of them.
abbrev pub Allowed : {D : Type 0} → Bool → Kind D → Type 0
Allowed every (compiled_abs a) = every ≡ true
Allowed every (compiled_and a b) = every ≡ true
Allowed every (compiled_atan2 a b) = every ≡ true
Allowed every (compiled_sigmoid a b s) = every ≡ true
Allowed every _ = Unit

-- The operands stand before the place `n`.
abbrev pub Below : {D : Type 0} → ℕ → Kind D → Type 0
Below n k = All (λ a. a < n) (operands k)

module _ {D : Type 0} (A : Algebra D) where
  open A use {X}

  abbrev pub sum_up : X → (ℕ → X) → List ℕ → X
  sum_up acc v [] = acc
  sum_up acc v (i ∷ is) = sum_up (A.add acc (v i)) v is

  -- What an element stands for, given its operands and the number it was made with.
  abbrev pub apply : Kind D → (ℕ → X) → D → X
  apply (compiled_abs a) v old = A.abs (v a)
  apply (compiled_cos a) v old = A.cos (v a)
  apply (compiled_exp a) v old = A.exp (v a)
  apply (compiled_log a) v old = A.log (v a)
  apply (compiled_sin a) v old = A.sin (v a)
  apply (compiled_const_power a e) v old = A.const_power e (v a)
  apply (compiled_and a b) v old = A.and_ (v a) (v b)
  apply (compiled_or a b) v old = A.or_ (v a) (v b)
  apply (compiled_max a b) v old = A.max (v a) (v b)
  apply (compiled_min a b) v old = A.min (v a) (v b)
  apply (compiled_product a b) v old = A.product (v a) (v b)
  apply (compiled_atan2 a b) v old = A.atan2 (v a) (v b)
  apply (compiled_term_power a b) v old = A.term_power (v a) (v b)
  apply (compiled_utility a b) v old = A.utility (v a) (v b)
  apply (compiled_lt a b s) v old = A.lt s (v a) (v b)
  apply (compiled_lte a b s) v old = A.lte s (v a) (v b)
  apply (compiled_sigmoid a b s) v old = A.sigmoid s (v a) (v b)
  apply (compiled_reification a b lo hi) v old = A.reification lo hi (v a) (v b)
  apply (compiled_sum is) v old = sum_up A.nil v is
  apply compiled_constant v old = A.constant old
  apply compiled_variable v old = A.constant old

  -- An element depends on its operands only.
  module _ (n : ℕ) (v w : ℕ → X) (same : (j : ℕ) → j < n → v j ≡ w j) where
    sum_up_agree : (is : List ℕ) (acc : X) → All (λ a. a < n) is → sum_up acc v is ≡ sum_up acc w is
    sum_up_agree [] acc b = refl
    sum_up_agree (i ∷ is) acc b =
        ap (λ x. sum_up (A.add acc x) v is) (same i b.0) ∙ sum_up_agree is (A.add acc (w i)) b.1

    both_agree :
        (f : X → X → X) (a b : ℕ) → All (λ a. a < n) (a ∷ b ∷ []) → f (v a) (v b) ≡ f (w a) (w b)
    both_agree f a b h = ap (λ x. f x (v b)) (same a h.0) ∙ ap (f (w a)) (same b h.1.0)

    pub apply_agree : (k : Kind D) (old : D) → Below n k → apply k v old ≡ apply k w old
    apply_agree (compiled_abs a) old b = ap A.abs (same a b.0)
    apply_agree (compiled_cos a) old b = ap A.cos (same a b.0)
    apply_agree (compiled_exp a) old b = ap A.exp (same a b.0)
    apply_agree (compiled_log a) old b = ap A.log (same a b.0)
    apply_agree (compiled_sin a) old b = ap A.sin (same a b.0)
    apply_agree (compiled_const_power a e) old b = ap (A.const_power e) (same a b.0)
    apply_agree (compiled_and p q) old b = both_agree A.and_ p q b
    apply_agree (compiled_or p q) old b = both_agree A.or_ p q b
    apply_agree (compiled_max p q) old b = both_agree A.max p q b
    apply_agree (compiled_min p q) old b = both_agree A.min p q b
    apply_agree (compiled_product p q) old b = both_agree A.product p q b
    apply_agree (compiled_atan2 p q) old b = both_agree A.atan2 p q b
    apply_agree (compiled_term_power p q) old b = both_agree A.term_power p q b
    apply_agree (compiled_utility p q) old b = both_agree A.utility p q b
    apply_agree (compiled_lt p q s) old b = both_agree (A.lt s) p q b
    apply_agree (compiled_lte p q s) old b = both_agree (A.lte s) p q b
    apply_agree (compiled_sigmoid p q s) old b = both_agree (A.sigmoid s) p q b
    apply_agree (compiled_reification p q lo hi) old b = both_agree (A.reification lo hi) p q b
    apply_agree (compiled_sum is) old b = sum_up_agree is A.nil b
    apply_agree compiled_constant old b = refl
    apply_agree compiled_variable old b = refl

module _ (F : Doubles) where
  open F use {D}

  -- What evaluate computes.
  abbrev pub values : Algebra D
  values = record {
    X = D;
    abs = F.fabs;
    cos = F.cos;
    exp = F.exp;
    log = F.log;
    sin = F.sin;
    and_ = and_value F;
    or_ = or_value F;
    max = std_max F;
    min = std_min F;
    product = F.mul;
    atan2 = F.atan2;
    term_power = F.pow;
    utility = utility_value F;
    lt = inequality_value F;
    lte = inequality_value F;
    sigmoid = sigmoid_value F;
    reification = λ lo hi a b. reification_value F lo hi a;
    const_power = λ e a. F.pow a e;
    constant = λ d. d;
    nil = F.nil;
    add = F.add;
  }

  sum_values_up :
      (acc : D) (v : ℕ → D) (is : List ℕ) → sum_values F acc v is ≡ sum_up values acc v is
  unfolding sum_values
  sum_values_up acc v [] = refl
  sum_values_up acc v (i ∷ is) = sum_values_up (F.add acc (v i)) v is

  pub element_value-apply :
      (k : Kind D) (v : ℕ → D) (old : D) → element_value F k v old ≡ apply values k v old
  unfolding element_value
  element_value-apply (compiled_abs a) v old = refl
  element_value-apply (compiled_cos a) v old = refl
  element_value-apply (compiled_exp a) v old = refl
  element_value-apply (compiled_log a) v old = refl
  element_value-apply (compiled_sin a) v old = refl
  element_value-apply (compiled_const_power a e) v old = refl
  element_value-apply (compiled_and p q) v old = refl
  element_value-apply (compiled_or p q) v old = refl
  element_value-apply (compiled_max p q) v old = refl
  element_value-apply (compiled_min p q) v old = refl
  element_value-apply (compiled_product p q) v old = refl
  element_value-apply (compiled_atan2 p q) v old = refl
  element_value-apply (compiled_term_power p q) v old = refl
  element_value-apply (compiled_utility p q) v old = refl
  element_value-apply (compiled_lt p q s) v old = refl
  element_value-apply (compiled_lte p q s) v old = refl
  element_value-apply (compiled_sigmoid p q s) v old = refl
  element_value-apply (compiled_reification p q lo hi) v old = refl
  element_value-apply (compiled_sum is) v old = sum_values_up F.nil v is
  element_value-apply compiled_constant v old = refl
  element_value-apply compiled_variable v old = refl

  -- A value that is computed again counts only where it is kept.
  pub apply_again :
      (A : Algebra D) (k : Kind D) (v : ℕ → A.X) (w : ℕ → D) (old : D)
      → apply A k v (element_value F k w old) ≡ apply A k v old
  unfolding element_value
  apply_again A (compiled_abs a) v w old = refl
  apply_again A (compiled_cos a) v w old = refl
  apply_again A (compiled_exp a) v w old = refl
  apply_again A (compiled_log a) v w old = refl
  apply_again A (compiled_sin a) v w old = refl
  apply_again A (compiled_const_power a e) v w old = refl
  apply_again A (compiled_and p q) v w old = refl
  apply_again A (compiled_or p q) v w old = refl
  apply_again A (compiled_max p q) v w old = refl
  apply_again A (compiled_min p q) v w old = refl
  apply_again A (compiled_product p q) v w old = refl
  apply_again A (compiled_atan2 p q) v w old = refl
  apply_again A (compiled_term_power p q) v w old = refl
  apply_again A (compiled_utility p q) v w old = refl
  apply_again A (compiled_lt p q s) v w old = refl
  apply_again A (compiled_lte p q s) v w old = refl
  apply_again A (compiled_sigmoid p q s) v w old = refl
  apply_again A (compiled_reification p q lo hi) v w old = refl
  apply_again A (compiled_sum is) v w old = refl
  apply_again A compiled_constant v w old = refl
  apply_again A compiled_variable v w old = refl
