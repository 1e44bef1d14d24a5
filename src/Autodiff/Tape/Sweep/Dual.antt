-- ===== src/Autodiff/Tape/Sweep/Dual.antt =====
-- Values with their changes: the rule of differentiation of each class, and that the weights which
-- ForwardSweepVisitor sets give it.
use supplementary.Base.{
  ℕ, ◌≡◌, refl, sym, ◌∙◌, ap, Bool, true, false, ◌&&◌, ◌||◌, List, [], ◌∷◌, map, if◌then◌else◌,
  arith,
}
use supplementary.Autodiff.Doubles.{Doubles}
use supplementary.Autodiff.Tape.{
  Kind, Edge, compiled_abs, compiled_cos, compiled_exp, compiled_log, compiled_sin, compiled_and,
  compiled_or, compiled_max, compiled_min, compiled_product, compiled_atan2, compiled_term_power,
  compiled_utility, compiled_lt, compiled_lte, compiled_sigmoid, compiled_reification,
  compiled_const_power, compiled_sum, compiled_constant, compiled_variable,
}
use supplementary.Autodiff.Tape.Algebra.{Algebra, Allowed, apply, operands, sum_up}
use supplementary.Autodiff.Tape.Evaluate.{std_max, std_min, sigmoid_value, sum_values}
use supplementary.Autodiff.Tape.Sweep.{
  add_nonpositive, set_first, set_second, set_both, sweep_or, sweep_const_power, sweep_utility,
  sweep_inequality, sweep_max, sweep_min, sweep_reification, sweep_term_power, sweep_element,
}
use supplementary.Autodiff.Tape.Sweep.Adjoint.{Exact, edge_sum}

module _ (F : Doubles) where
  open F use {D}

  -- A sum of the operands that are not positive.
  abbrev nonpositive_parts : D × D → D × D → D × D
  nonpositive_parts x y = (
    add_nonpositive F (add_nonpositive F F.nil x.0) y.0,
    F.add (if F.le x.0 F.nil then x.1 else F.nil) (if F.le y.0 F.nil then y.1 else F.nil),
  )

  abbrev inequality : Bool → D → D × D → D × D → D × D
  inequality holds s x y =
      if holds
      then (F.one, F.nil)
      else (F.mul s (F.sub y.0 x.0), F.add (F.mul (F.neg s) x.1) (F.mul s y.1))

  -- The rule of each class: the value as differentiate computes it, and its change, which for a class
  -- with cases is that of the case at hand. A Reification is a step; the slope that stands for it is the
  -- distance of its two values, along the condition or the negated condition.
  abbrev pub dual : Algebra D
  dual = record {
    X = D × D;
    abs = λ x. (F.fabs x.0, if F.le F.nil x.0 then x.1 else F.neg x.1);
    cos = λ x. (F.cos x.0, F.mul (F.neg (F.sin x.0)) x.1);
    exp = λ x. (F.exp x.0, F.mul (F.exp x.0) x.1);
    log = λ x. (F.log x.0, F.mul (F.div F.one x.0) x.1);
    sin = λ x. (F.sin x.0, F.mul (F.cos x.0) x.1);
    and_ = λ x y.
        if F.lt F.three_quarters x.0 && F.lt F.three_quarters y.0
        then (F.one, F.nil)
        else nonpositive_parts x y;
    or_ = λ x y.
        if F.lt F.three_quarters x.0 || F.lt F.three_quarters y.0
        then (F.one, F.nil)
        else nonpositive_parts x y;
    max = λ x y. (std_max F x.0 y.0, if F.lt y.0 x.0 then x.1 else y.1);
    min = λ x y. (std_min F x.0 y.0, if F.lt x.0 y.0 then x.1 else y.1);
    product = λ x y. (F.mul x.0 y.0, F.add (F.mul y.0 x.1) (F.mul x.0 y.1));
    atan2 = λ x y.
        let denom = F.add (F.mul x.0 x.0) (F.mul y.0 y.0) in
        (
          F.atan2 x.0 y.0,
          F.add (F.mul (F.div y.0 denom) x.1) (F.mul (F.div (F.neg x.0) denom) y.1),
        );
    term_power = λ x y. (
      F.pow x.0 y.0,
      F.add (F.mul (F.mul y.0 (F.pow x.0 (F.sub y.0 F.one))) x.1)
          (F.mul (F.mul (F.pow x.0 y.0) (F.log x.0)) y.1),
    );
    utility = λ x y. if F.lt F.nil x.0 then y else x;
    lt = λ s x y. inequality (F.lt x.0 y.0) s x y;
    lte = λ s x y. inequality (F.le x.0 y.0) s x y;
    sigmoid = λ s x y.
        let v = sigmoid_value F s x.0 y.0 in
        (v, F.mul (F.mul s (F.mul v (F.sub F.one v))) (F.sub x.1 y.1));
    reification = λ lo hi x y.
        let d = F.sub hi lo in
        if F.lt F.nil x.0 then (hi, F.mul (F.neg d) y.1) else (lo, F.mul d x.1);
    const_power = λ e x. let r = F.pow x.0 (F.sub e F.one) in (F.mul r x.0, F.mul (F.mul e r) x.1);
    constant = λ d. (d, F.nil);
    nil = (F.nil, F.nil);
    add = λ x y. (F.add x.0 y.0, F.add x.1 y.1);
  }

  module _ (exact : Exact F) (t : ℕ → D) where
    -- A new value and the change that the new weights give.
    abbrev measure : D × List (Edge D) → D × D
    measure p = (p.0, edge_sum F t p.1)

    measure_if :
        (b : Bool) (p q : D × List (Edge D)) (x y : D × D)
        → x ≡ measure p
        → y ≡ measure q
        → (if b then x else y) ≡ measure (if b then p else q)
    measure_if true p q x y h k = h
    measure_if false p q x y h k = k

    edge_sum_if :
        (b : Bool) (p q : List (Edge D)) (x y : D)
        → x ≡ edge_sum F t p
        → y ≡ edge_sum F t q
        → (if b then x else y) ≡ edge_sum F t (if b then p else q)
    edge_sum_if true p q x y h k = h
    edge_sum_if false p q x y h k = k

    gate : (b : Bool) (x : D) → (if b then x else F.nil) ≡ F.mul (if b then F.one else F.nil) x
    gate true x = sym (exact.mul_one x)
    gate false x = sym (exact.nil_mul x)

    gates :
        (b c : Bool) (x y : D)
        → F.add (if b then x else F.nil) (if c then y else F.nil)
          ≡ F.add (F.mul (if b then F.one else F.nil) x) (F.mul (if c then F.one else F.nil) y)
    gates b c x y =
        ap (λ z. F.add z (if c then y else F.nil)) (gate b x)
        ∙ ap (F.add (F.mul (if b then F.one else F.nil) x)) (gate c y)

    nil_add : (x : D) → F.add F.nil x ≡ x
    nil_add x = exact.add_comm F.nil x ∙ exact.add_nil x

    edge_sum-set_first :
        (w : D) (a : ℕ) (es : List (Edge D))
        → map (λ (e : Edge D). e.index) es ≡ a ∷ []
        → F.mul w (t a) ≡ edge_sum F t (set_first F w es)
    unfolding set_first
    edge_sum-set_first w a [] h = ground (arith, h)
    edge_sum-set_first w a (e ∷ []) h =
        let same : e.index ≡ a = ground (arith, h) in
        ap (λ j. F.mul w (t j)) (sym same) ∙ sym (exact.add_nil (F.mul w (t e.index)))
    edge_sum-set_first w a (e ∷ f ∷ es) h = ground (arith, h)

    two_edges :
        (w x : D) (a b : ℕ) (es : List (Edge D))
        → map (λ (e : Edge D). e.index) es ≡ a ∷ b ∷ []
        → F.add (F.mul w (t a)) (F.mul x (t b)) ≡ edge_sum F t (set_both F w x es)
    unfolding set_both set_first set_second
    two_edges w x a b [] h = ground (arith, h)
    two_edges w x a b (e ∷ []) h = ground (arith, h)
    two_edges w x a b (e ∷ f ∷ []) h =
        let first : e.index ≡ a = ground (arith, h) in
        let second : f.index ≡ b = ground (arith, h) in
        ap (λ j. F.add (F.mul w (t j)) (F.mul x (t b))) (sym first)
        ∙ ap (λ j. F.add (F.mul w (t e.index)) (F.mul x (t j))) (sym second)
        ∙ ap (F.add (F.mul w (t e.index))) (sym (exact.add_nil (F.mul x (t f.index))))
    two_edges w x a b (e ∷ f ∷ g ∷ es) h = ground (arith, h)

    module _ (a b : ℕ) (es : List (Edge D))
        (held : map (λ (e : Edge D). e.index) es ≡ a ∷ b ∷ []) where
      edge_sum-set_both :
          (w x : D) → F.add (F.mul w (t a)) (F.mul x (t b)) ≡ edge_sum F t (set_both F w x es)
      edge_sum-set_both w x = two_edges w x a b es held

      first_only : (w : D) → F.mul w (t a) ≡ edge_sum F t (set_both F w F.nil es)
      first_only w =
          sym (exact.add_nil (F.mul w (t a)))
          ∙ ap (F.add (F.mul w (t a))) (sym (exact.nil_mul (t b)))
          ∙ edge_sum-set_both w F.nil

      second_only : (w : D) → F.mul w (t b) ≡ edge_sum F t (set_both F F.nil w es)
      second_only w =
          sym (nil_add (F.mul w (t b)))
          ∙ ap (λ y. F.add y (F.mul w (t b))) (sym (exact.nil_mul (t a)))
          ∙ edge_sum-set_both F.nil w

      neither : F.nil ≡ edge_sum F t (set_both F F.nil F.nil es)
      neither = sym (exact.nil_mul (t a)) ∙ first_only F.nil

      first_whole : t a ≡ edge_sum F t (set_both F F.one F.nil es)
      first_whole = sym (exact.mul_one (t a)) ∙ first_only F.one

      second_whole : t b ≡ edge_sum F t (set_both F F.nil F.one es)
      second_whole = sym (exact.mul_one (t b)) ∙ second_only F.one

    -- The changes that the edges of a sum give.
    sum_edges :
        (v : ℕ → D) (is : List ℕ) (es : List (Edge D)) (acc acc' : D)
        → map (λ (e : Edge D). e.index) es ≡ is
        → sum_up dual (acc, acc') (λ j. (v j, t j)) is ≡ (
          sum_values F acc v is,
          F.add acc'
              (edge_sum F t (map {A = Edge D} {B = Edge D} (λ e. record e { weight = F.one }) es)),
        )
    unfolding sum_values
    sum_edges v [] [] acc acc' h = ap (λ y. (acc, y)) (sym (exact.add_nil acc'))
    sum_edges v [] (e ∷ es) acc acc' h = ground (arith, h)
    sum_edges v (i ∷ is) [] acc acc' h = ground (arith, h)
    sum_edges v (i ∷ is) (e ∷ es) acc acc' h =
        let first : e.index ≡ i = ground (arith, h) in
        let rest : map (λ (e : Edge D). e.index) es ≡ is = ground (arith, h) in
        let others =
          edge_sum F t (map {A = Edge D} {B = Edge D} (λ e. record e { weight = F.one }) es) in
        sum_edges v is es (F.add acc (v i)) (F.add acc' (t i)) rest
        ∙ ap (λ y. (sum_values F (F.add acc (v i)) v is, y))
            (exact.add_assoc acc' (t i) others
              ∙ ap (λ y. F.add acc' (F.add y others))
                  (sym (exact.mul_one (t i)) ∙ ap (λ j. F.mul F.one (t j)) (sym first)))

    inequality_edges :
        (holds : Bool) (s : D) (v : ℕ → D) (a b : ℕ) (es : List (Edge D))
        → map (λ (e : Edge D). e.index) es ≡ a ∷ b ∷ []
        → inequality holds s (v a, t a) (v b, t b)
          ≡ measure (sweep_inequality F holds s (v a) (v b) es)
    unfolding sweep_inequality
    inequality_edges true s v a b es h = ap (λ y. (F.one, y)) (neither a b es h)
    inequality_edges false s v a b es h =
        ap (λ y. (F.mul s (F.sub (v b) (v a)), y)) (edge_sum-set_both a b es h (F.neg s) s)

    pub sweep_element-dual :
        (k : Kind D) (v : ℕ → D) (old : D) (es : List (Edge D))
        → Allowed false k
        → map (λ (e : Edge D). e.index) es ≡ operands k
        → apply dual k (λ j. (v j, t j)) old
          ≡ ((sweep_element F k v old es).0, edge_sum F t (sweep_element F k v old es).1)
    unfolding sweep_element sweep_or sweep_const_power sweep_utility sweep_inequality sweep_max
        sweep_min sweep_reification sweep_term_power
    sweep_element-dual (compiled_abs a) v old es ok h = ground (arith, ok)
    sweep_element-dual (compiled_and a b) v old es ok h = ground (arith, ok)
    sweep_element-dual (compiled_atan2 a b) v old es ok h = ground (arith, ok)
    sweep_element-dual (compiled_sigmoid a b s) v old es ok h = ground (arith, ok)
    sweep_element-dual (compiled_cos a) v old es ok h =
        ap (λ y. (F.cos (v a), y)) (edge_sum-set_first _ a es h)
    sweep_element-dual (compiled_exp a) v old es ok h =
        ap (λ y. (F.exp (v a), y)) (edge_sum-set_first _ a es h)
    sweep_element-dual (compiled_log a) v old es ok h =
        ap (λ y. (F.log (v a), y)) (edge_sum-set_first _ a es h)
    sweep_element-dual (compiled_sin a) v old es ok h =
        ap (λ y. (F.sin (v a), y)) (edge_sum-set_first _ a es h)
    sweep_element-dual (compiled_const_power a e) v old es ok h =
        ap (λ y. (F.mul (F.pow (v a) (F.sub e F.one)) (v a), y)) (edge_sum-set_first _ a es h)
    sweep_element-dual (compiled_or a b) v old es ok h =
        measure_if (F.lt F.three_quarters (v a) || F.lt F.three_quarters (v b)) _ _ _ _
          (ap (λ y. (F.one, y)) (neither a b es h))
          (ap (λ y. (add_nonpositive F (add_nonpositive F F.nil (v a)) (v b), y))
            (gates (F.le (v a) F.nil) (F.le (v b) F.nil) (t a) (t b)
              ∙ edge_sum-set_both a b es h _ _))
    sweep_element-dual (compiled_max a b) v old es ok h =
        ap (λ y. (std_max F (v a) (v b), y))
          (edge_sum_if (F.lt (v b) (v a)) _ _ _ _ (first_whole a b es h) (second_whole a b es h))
    sweep_element-dual (compiled_min a b) v old es ok h =
        ap (λ y. (std_min F (v a) (v b), y))
          (edge_sum_if (F.lt (v a) (v b)) _ _ _ _ (first_whole a b es h) (second_whole a b es h))
    sweep_element-dual (compiled_product a b) v old es ok h =
        ap (λ y. (F.mul (v a) (v b), y)) (edge_sum-set_both a b es h (v b) (v a))
    sweep_element-dual (compiled_term_power a b) v old es ok h =
        ap (λ y. (F.pow (v a) (v b), y)) (edge_sum-set_both a b es h _ _)
    sweep_element-dual (compiled_utility a b) v old es ok h =
        measure_if (F.lt F.nil (v a)) _ _ _ _ (ap (λ y. (v b, y)) (second_whole a b es h))
          (ap (λ y. (v a, y)) (first_whole a b es h))
    sweep_element-dual (compiled_lt a b s) v old es ok h =
        inequality_edges (F.lt (v a) (v b)) s v a b es h
    sweep_element-dual (compiled_lte a b s) v old es ok h =
        inequality_edges (F.le (v a) (v b)) s v a b es h
    sweep_element-dual (compiled_reification a b lo hi) v old es ok h =
        measure_if (F.lt F.nil (v a)) _ _ _ _ (ap (λ y. (hi, y)) (second_only a b es h _))
          (ap (λ y. (lo, y)) (first_only a b es h _))
    sweep_element-dual (compiled_sum is) v old es ok h =
        sum_edges v is es F.nil F.nil h ∙ ap (λ y. (sum_values F F.nil v is, y)) (nil_add _)
    sweep_element-dual compiled_constant v old [] ok h = refl
    sweep_element-dual compiled_constant v old (e ∷ es) ok h = ground (arith, h)
    sweep_element-dual compiled_variable v old [] ok h = refl
    sweep_element-dual compiled_variable v old (e ∷ es) ok h = ground (arith, h)
