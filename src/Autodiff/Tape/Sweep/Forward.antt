-- ===== src/Autodiff/Tape/Sweep/Forward.antt =====
-- The forward sweep: every element gets the value and the weights that its visit computes from the
-- final values of its operands, and edges keep their ends.
use supplementary.Base.{
  ℕ, zero, suc, ◌+◌, ◌-◌, ◌<◌, ◌≤◌, ◌≡◌, refl, sym, ◌∙◌, ap, subst, inl, inr, Bool, true, false,
  ◌&&◌, ◌||◌, List, [], ◌∷◌, map, if◌then◌else◌, update, arith, All, lt_or_eq,
}
use supplementary.Autodiff.Doubles.{Doubles}
use supplementary.Autodiff.Tape.{
  Kind, Edge, Tape, compiled_abs, compiled_cos, compiled_exp, compiled_log, compiled_sin,
  compiled_and, compiled_or, compiled_max, compiled_min, compiled_product, compiled_atan2,
  compiled_term_power, compiled_utility, compiled_lt, compiled_lte, compiled_sigmoid,
  compiled_reification, compiled_const_power, compiled_sum, compiled_constant, compiled_variable,
}
use supplementary.Autodiff.Tape.Algebra.{Algebra, Below, apply}
use supplementary.Autodiff.Tape.Evaluate.{load_arguments, sum_values}
use supplementary.Autodiff.Tape.Solve.{load_arguments_below, load_arguments_above, IsOrdered}
use supplementary.Autodiff.Tape.Sweep.{
  set_first, set_second, set_both, sweep_and, sweep_or, sweep_atan2, sweep_const_power,
  sweep_utility, sweep_inequality, sweep_max, sweep_min, sweep_reification, sweep_sigmoid,
  sweep_term_power, sweep_element, sweep_from, forward_sweep,
}

module _ (F : Doubles) where
  open F use {D}

  abbrev indices : List (Edge D) → List ℕ
  indices es = map (λ (e : Edge D). e.index) es

  indices-set_first : (w : D) (es : List (Edge D)) → indices (set_first F w es) ≡ indices es
  unfolding set_first
  indices-set_first w [] = refl
  indices-set_first w (e ∷ es) = refl

  indices-set_second : (w : D) (es : List (Edge D)) → indices (set_second F w es) ≡ indices es
  unfolding set_second
  indices-set_second w [] = refl
  indices-set_second w (e ∷ es) = ap (λ l. e.index ∷ l) (indices-set_first w es)

  indices-set_both : (w x : D) (es : List (Edge D)) → indices (set_both F w x es) ≡ indices es
  unfolding set_both
  indices-set_both w x es = indices-set_second x (set_first F w es) ∙ indices-set_first w es

  indices_if :
      (b : Bool) (is : List ℕ) (p q : List (Edge D))
      → indices p ≡ is
      → indices q ≡ is
      → indices (if b then p else q) ≡ is
  indices_if true is p q h k = h
  indices_if false is p q h k = k

  result_if :
      (b : Bool) (is : List ℕ) (p q : D × List (Edge D))
      → indices p.1 ≡ is
      → indices q.1 ≡ is
      → indices (if b then p else q).1 ≡ is
  result_if true is p q h k = h
  result_if false is p q h k = k

  ones :
      (es : List (Edge D))
      → indices (map {A = Edge D} {B = Edge D} (λ e. record e { weight = F.one }) es) ≡ indices es
  ones [] = refl
  ones (e ∷ es) = ap (λ l. e.index ∷ l) (ones es)

  pub indices-sweep_element :
      (k : Kind D) (v : ℕ → D) (old : D) (es : List (Edge D))
      → indices (sweep_element F k v old es).1 ≡ indices es
  unfolding sweep_element sweep_and sweep_or sweep_atan2 sweep_const_power sweep_utility
      sweep_inequality sweep_max sweep_min sweep_reification sweep_sigmoid sweep_term_power
  indices-sweep_element (compiled_abs a) v old es = refl
  indices-sweep_element (compiled_cos a) v old es = indices-set_first _ es
  indices-sweep_element (compiled_exp a) v old es = indices-set_first _ es
  indices-sweep_element (compiled_log a) v old es = indices-set_first _ es
  indices-sweep_element (compiled_sin a) v old es = indices-set_first _ es
  indices-sweep_element (compiled_const_power a e) v old es = indices-set_first _ es
  indices-sweep_element (compiled_and a b) v old es =
      let left = (if F.le (v a) F.nil then set_first F F.one es else es) in
      let kept : indices left ≡ indices es =
        indices_if (F.le (v a) F.nil) (indices es) _ _ (indices-set_first F.one es) refl in
      result_if (F.lt F.three_quarters (v a) && F.lt F.three_quarters (v b)) (indices es) _ _
        (indices-set_both _ _ es)
        (indices_if (F.le (v b) F.nil) (indices es) _ _ (indices-set_second F.one left ∙ kept) kept)
  indices-sweep_element (compiled_or a b) v old es =
      result_if (F.lt F.three_quarters (v a) || F.lt F.three_quarters (v b)) (indices es) _ _
        (indices-set_both _ _ es) (indices-set_both _ _ es)
  indices-sweep_element (compiled_max a b) v old es =
      indices_if (F.lt (v b) (v a)) (indices es) _ _ (indices-set_both _ _ es)
        (indices-set_both _ _ es)
  indices-sweep_element (compiled_min a b) v old es =
      indices_if (F.lt (v a) (v b)) (indices es) _ _ (indices-set_both _ _ es)
        (indices-set_both _ _ es)
  indices-sweep_element (compiled_product a b) v old es = indices-set_both _ _ es
  indices-sweep_element (compiled_atan2 a b) v old es = indices-set_both _ _ es
  indices-sweep_element (compiled_term_power a b) v old es = indices-set_both _ _ es
  indices-sweep_element (compiled_utility a b) v old es =
      result_if (F.lt F.nil (v a)) (indices es) _ _ (indices-set_both _ _ es)
        (indices-set_both _ _ es)
  indices-sweep_element (compiled_lt a b s) v old es =
      result_if (F.lt (v a) (v b)) (indices es) _ _ (indices-set_both _ _ es)
        (indices-set_both _ _ es)
  indices-sweep_element (compiled_lte a b s) v old es =
      result_if (F.le (v a) (v b)) (indices es) _ _ (indices-set_both _ _ es)
        (indices-set_both _ _ es)
  indices-sweep_element (compiled_sigmoid a b s) v old es =
      indices_if _ (indices es) _ _ (indices-set_both _ _ es) (indices-set_both _ _ es)
  indices-sweep_element (compiled_reification a b lo hi) v old es =
      result_if (F.lt F.nil (v a)) (indices es) _ _ (indices-set_both _ _ es)
        (indices-set_both _ _ es)
  indices-sweep_element (compiled_sum is) v old es = ones es
  indices-sweep_element compiled_constant v old es = refl
  indices-sweep_element compiled_variable v old es = refl

  pub sweep_element_again :
      (A : Algebra D) (k : Kind D) (x : ℕ → A.X) (v : ℕ → D) (old : D) (es : List (Edge D))
      → apply A k x (sweep_element F k v old es).0 ≡ apply A k x old
  unfolding sweep_element
  sweep_element_again A (compiled_abs a) x v old es = refl
  sweep_element_again A (compiled_cos a) x v old es = refl
  sweep_element_again A (compiled_exp a) x v old es = refl
  sweep_element_again A (compiled_log a) x v old es = refl
  sweep_element_again A (compiled_sin a) x v old es = refl
  sweep_element_again A (compiled_const_power a e) x v old es = refl
  sweep_element_again A (compiled_and p q) x v old es = refl
  sweep_element_again A (compiled_or p q) x v old es = refl
  sweep_element_again A (compiled_max p q) x v old es = refl
  sweep_element_again A (compiled_min p q) x v old es = refl
  sweep_element_again A (compiled_product p q) x v old es = refl
  sweep_element_again A (compiled_atan2 p q) x v old es = refl
  sweep_element_again A (compiled_term_power p q) x v old es = refl
  sweep_element_again A (compiled_utility p q) x v old es = refl
  sweep_element_again A (compiled_lt p q s) x v old es = refl
  sweep_element_again A (compiled_lte p q s) x v old es = refl
  sweep_element_again A (compiled_sigmoid p q s) x v old es = refl
  sweep_element_again A (compiled_reification p q lo hi) x v old es = refl
  sweep_element_again A (compiled_sum is) x v old es = refl
  sweep_element_again A compiled_constant x v old es = refl
  sweep_element_again A compiled_variable x v old es = refl

  module _ (n : ℕ) (v w : ℕ → D) (same : (j : ℕ) → j < n → v j ≡ w j) (old : D)
      (es : List (Edge D)) where
    one_agree : (f : D → D × List (Edge D)) (a : ℕ) → All (λ a. a < n) (a ∷ []) → f (v a) ≡ f (w a)
    one_agree f a h = ap f (same a h.0)

    two_agree :
        (f : D → D → D × List (Edge D)) (a b : ℕ)
        → All (λ a. a < n) (a ∷ b ∷ [])
        → f (v a) (v b) ≡ f (w a) (w b)
    two_agree f a b h = ap (λ x. f x (v b)) (same a h.0) ∙ ap (f (w a)) (same b h.1.0)

    sum_values_agree :
        (is : List ℕ) (acc : D)
        → All (λ a. a < n) is
        → sum_values F acc v is ≡ sum_values F acc w is
    unfolding sum_values
    sum_values_agree [] acc b = refl
    sum_values_agree (i ∷ is) acc b =
        ap (λ x. sum_values F (F.add acc x) v is) (same i b.0)
        ∙ sum_values_agree is (F.add acc (w i)) b.1

    sweep_element_agree :
        (k : Kind D) → Below n k → sweep_element F k v old es ≡ sweep_element F k w old es
    unfolding sweep_element
    sweep_element_agree (compiled_abs a) b = one_agree (λ x. (F.fabs x, es)) a b
    sweep_element_agree (compiled_cos a) b =
        one_agree (λ x. (F.cos x, set_first F (F.neg (F.sin x)) es)) a b
    sweep_element_agree (compiled_exp a) b =
        one_agree (λ x. (F.exp x, set_first F (F.exp x) es)) a b
    sweep_element_agree (compiled_log a) b =
        one_agree (λ x. (F.log x, set_first F (F.div F.one x) es)) a b
    sweep_element_agree (compiled_sin a) b =
        one_agree (λ x. (F.sin x, set_first F (F.cos x) es)) a b
    sweep_element_agree (compiled_const_power a e) b =
        one_agree (λ x. sweep_const_power F x e es) a b
    sweep_element_agree (compiled_and p q) b = two_agree (λ x y. sweep_and F x y es) p q b
    sweep_element_agree (compiled_or p q) b = two_agree (λ x y. sweep_or F x y es) p q b
    sweep_element_agree (compiled_max p q) b = two_agree (λ x y. sweep_max F x y es) p q b
    sweep_element_agree (compiled_min p q) b = two_agree (λ x y. sweep_min F x y es) p q b
    sweep_element_agree (compiled_product p q) b =
        two_agree (λ x y. (F.mul x y, set_both F y x es)) p q b
    sweep_element_agree (compiled_atan2 p q) b = two_agree (λ x y. sweep_atan2 F x y es) p q b
    sweep_element_agree (compiled_term_power p q) b =
        two_agree (λ x y. sweep_term_power F x y es) p q b
    sweep_element_agree (compiled_utility p q) b = two_agree (λ x y. sweep_utility F x y es) p q b
    sweep_element_agree (compiled_lt p q s) b =
        two_agree (λ x y. sweep_inequality F (F.lt x y) s x y es) p q b
    sweep_element_agree (compiled_lte p q s) b =
        two_agree (λ x y. sweep_inequality F (F.le x y) s x y es) p q b
    sweep_element_agree (compiled_sigmoid p q s) b =
        two_agree (λ x y. sweep_sigmoid F s x y es) p q b
    sweep_element_agree (compiled_reification p q lo hi) b =
        two_agree (λ x y. sweep_reification F lo hi x es) p q b
    sweep_element_agree (compiled_sum is) b =
        ap (λ x. (x, map {A = Edge D} {B = Edge D} (λ e. record e { weight = F.one }) es))
          (sum_values_agree is F.nil b)
    sweep_element_agree compiled_constant b = refl
    sweep_element_agree compiled_variable b = refl

  module _ (kind : ℕ → Kind D) where
    sweep_from_below :
        (n i : ℕ) (v : ℕ → D) (inputs : ℕ → List (Edge D)) (j : ℕ)
        → j < i
        → ((sweep_from F n i kind v inputs).0 j ≡ v j)
          × ((sweep_from F n i kind v inputs).1 j ≡ inputs j)
    unfolding sweep_from
    sweep_from_below zero i v inputs j b = (refl, refl)
    sweep_from_below (suc n) i v inputs j b =
        let (p, q) = sweep_from_below n (suc i) _ _ j (omega (arith, b)) in
        (p ∙ ground (arith, b), q ∙ ground (arith, b))

    -- An element after the sweep.
    abbrev pub Swept : ℕ → D → List (Edge D) → (ℕ → D) × (ℕ → List (Edge D)) → Type 0
    Swept j x es r =
        (r.0 j ≡ (sweep_element F (kind j) r.0 x es).0)
        × (r.1 j ≡ (sweep_element F (kind j) r.0 x es).1)

    sweep_from_first :
        (n i : ℕ) (v : ℕ → D) (inputs : ℕ → List (Edge D))
        → Below i (kind i)
        → Swept i (v i) (inputs i) (sweep_from F (suc n) i kind v inputs)
    unfolding sweep_from
    sweep_from_first n i v inputs b =
        let (p, q) = sweep_from_below n (suc i) _ _ i (omega arith) in
        let same =
          sweep_element_agree i v (sweep_from F (suc n) i kind v inputs).0
            (λ j l. sym (sweep_from_below (suc n) i v inputs j l).0) (v i) (inputs i) (kind i) b in
        (p ∙ ground arith ∙ ap (λ r. r.0) same, q ∙ ground arith ∙ ap (λ r. r.1) same)

    sweep_from_computed :
        (n i : ℕ) (v : ℕ → D) (inputs : ℕ → List (Edge D))
        → ((j : ℕ) → i ≤ j → j < i + n → Below j (kind j))
        → (j : ℕ) → i ≤ j
        → j < i + n
        → Swept j (v j) (inputs j) (sweep_from F n i kind v inputs)
    unfolding sweep_from
    sweep_from_computed zero i v inputs o j lo hi = absurd (omega (arith, lo, hi))
    sweep_from_computed (suc n) i v inputs o j lo hi = elim (lt_or_eq i j (omega (arith, lo))) [
      | inl l ↦
          let x = sweep_element F (kind i) v (v i) (inputs i) in
          let v' : ℕ → D = update v i x.0 in
          let inputs' : ℕ → List (Edge D) = update inputs i x.1 in
          let r = sweep_from F n (suc i) kind v' inputs' in
          let kept : v' j ≡ v j = ground (arith, l) in
          let kept_edges : inputs' j ≡ inputs j = ground (arith, l) in
          subst (λ y. Swept j y (inputs j) r) kept
            (subst (λ es. Swept j (v' j) es r) kept_edges
              (sweep_from_computed n (suc i) v' inputs'
                (λ m p q. o m (omega (arith, p)) (omega (arith, q))) j (omega (arith, l))
                (omega (arith, hi))))
      | inr e ↦
          subst (λ m. Swept m (v m) (inputs m) (sweep_from F (suc n) i kind v inputs)) e
            (sweep_from_first n i v inputs (o i (omega arith) (omega arith)))
    ]

  module _ (dimension : ℕ) (t : Tape D) (ordered : IsOrdered F dimension t)
      (sized : dimension ≤ t.size) (arg : ℕ → D) where
    pub forward_sweep-Swept :
        (i : ℕ)
        → dimension ≤ i
        → i < t.size
        → Swept t.kind i
            (t.value i)
            (t.inputs i)
            ((forward_sweep F dimension arg t).value, (forward_sweep F dimension arg t).inputs)
    unfolding forward_sweep
    forward_sweep-Swept i lo hi =
        let loaded = load_arguments F dimension arg t.value in
        subst
          (λ x.
            Swept t.kind i x (t.inputs i)
              (sweep_from F (t.size - dimension) dimension t.kind loaded t.inputs))
          (load_arguments_above F dimension arg t.value i lo)
          (sweep_from_computed t.kind (t.size - dimension) dimension loaded t.inputs
            (λ j p q. ordered j p (omega (arith, q, sized))) i lo (omega (arith, hi, sized)))

    pub forward_sweep_loaded :
        (i : ℕ) → i < dimension → (forward_sweep F dimension arg t).value i ≡ arg i
    unfolding forward_sweep
    forward_sweep_loaded i b =
        (sweep_from_below t.kind (t.size - dimension) dimension
          (load_arguments F dimension arg t.value) t.inputs i b).0
        ∙ load_arguments_below F dimension arg t.value i b
