-- ===== src/Autodiff/Tape/Sweep/Adjoint.antt =====
-- The reverse sweep: with the adjoints as coefficients the arguments' changes give the change of the
-- last element, for the arithmetic of a commutative semiring.
use supplementary.Base.{
  ℕ, zero, suc, ◌+◌, ◌-◌, ◌<◌, ◌≤◌, ◌≡◌, refl, sym, ◌∙◌, ap, subst, inl, inr, List, [], ◌∷◌, update,
  arith, All, lt_or_eq,
}
use supplementary.Autodiff.Doubles.{Doubles}
use supplementary.Autodiff.Tape.{Edge, Tape}
use supplementary.Autodiff.Tape.Sweep.{add_adjoints, accumulate, initial_adjoint, reverse_sweep}

-- What the sweep needs of `+` and `*`, rounding left aside.
pub record Exact (F : Doubles) : Type 0 where
  pub add_comm : (a b : F.D) → F.add a b ≡ F.add b a
  pub add_assoc : (a b c : F.D) → F.add (F.add a b) c ≡ F.add a (F.add b c)
  pub add_nil : (a : F.D) → F.add a F.nil ≡ a
  pub mul_assoc : (a b c : F.D) → F.mul (F.mul a b) c ≡ F.mul a (F.mul b c)
  pub mul_one : (a : F.D) → F.mul F.one a ≡ a
  pub nil_mul : (a : F.D) → F.mul F.nil a ≡ F.nil
  pub mul_nil : (a : F.D) → F.mul a F.nil ≡ F.nil
  pub mul_add : (a b c : F.D) → F.mul a (F.add b c) ≡ F.add (F.mul a b) (F.mul a c)
  pub add_mul : (a b c : F.D) → F.mul (F.add a b) c ≡ F.add (F.mul a c) (F.mul b c)

module _ (F : Doubles) where
  open F use {D}

  -- The change of an element whose operands change by `tangent`.
  abbrev pub edge_sum : (ℕ → D) → List (Edge D) → D
  edge_sum tangent [] = F.nil
  edge_sum tangent (e ∷ es) = F.add (F.mul e.weight (tangent e.index)) (edge_sum tangent es)

  abbrev pub dot : ℕ → (ℕ → D) → (ℕ → D) → D
  dot zero g x = F.nil
  dot (suc n) g x = F.add (dot n g x) (F.mul (g n) (x n))

  module _ (exact : Exact F) where
    add_swap : (a b c : D) → F.add (F.add a b) c ≡ F.add (F.add a c) b
    add_swap a b c =
        exact.add_assoc a b c ∙ ap (F.add a) (exact.add_comm b c) ∙ sym (exact.add_assoc a c b)

    dot_above : (n k : ℕ) (x : D) (g t : ℕ → D) → n ≤ k → dot n (update g k x) t ≡ dot n g t
    dot_above zero k x g t h = refl
    dot_above (suc n) k x g t h = ground (arith, h, dot_above n k x g t (omega (arith, h)))

    dot-update :
        (n k : ℕ) (x : D) (g t : ℕ → D)
        → k < n
        → dot n (update g k (F.add (g k) x)) t ≡ F.add (dot n g t) (F.mul x (t k))
    dot-update zero k x g t h = absurd (omega (arith, h))
    dot-update (suc n) k x g t h = elim (lt_or_eq k n h) [
      | inl l ↦
          ap (λ y. F.add y (F.mul (update g k (F.add (g k) x) n) (t n))) (dot-update n k x g t l)
          ∙ ap (λ y. F.add (F.add (dot n g t) (F.mul x (t k))) (F.mul y (t n))) (ground (arith, l))
          ∙ add_swap (dot n g t) (F.mul x (t k)) (F.mul (g n) (t n))
      | inr e ↦
          subst
            (λ m.
              dot (suc m) (update g k (F.add (g k) x)) t ≡ F.add (dot (suc m) g t) (F.mul x (t k)))
            e
            (ap (λ y. F.add y (F.mul (update g k (F.add (g k) x) k) (t k)))
                (dot_above k k (F.add (g k) x) g t (omega arith))
              ∙ ap (λ y. F.add (dot k g t) (F.mul y (t k))) (ground arith)
              ∙ ap (F.add (dot k g t)) (exact.add_mul (g k) x (t k))
              ∙ sym (exact.add_assoc (dot k g t) (F.mul (g k) (t k)) (F.mul x (t k))))
    ]

    dot-add_adjoints :
        (n : ℕ) (a : D) (es : List (Edge D)) (g t : ℕ → D)
        → All (λ e. e.index < n) es
        → dot n (add_adjoints F a es g) t ≡ F.add (dot n g t) (F.mul a (edge_sum t es))
    unfolding add_adjoints
    dot-add_adjoints n a [] g t h =
        sym (ap (F.add (dot n g t)) (exact.mul_nil a) ∙ exact.add_nil (dot n g t))
    dot-add_adjoints n a (e ∷ es) g t h =
        dot-add_adjoints n a es _ t h.1
        ∙ ap (λ y. F.add y (F.mul a (edge_sum t es)))
            (dot-update n e.index (F.mul a e.weight) g t h.0)
        ∙ exact.add_assoc (dot n g t) (F.mul (F.mul a e.weight) (t e.index))
            (F.mul a (edge_sum t es))
        ∙ ap (λ y. F.add (dot n g t) (F.add y (F.mul a (edge_sum t es))))
            (exact.mul_assoc a e.weight (t e.index))
        ∙ ap (F.add (dot n g t))
            (sym (exact.mul_add a (F.mul e.weight (t e.index)) (edge_sum t es)))

    module _ (dimension : ℕ) (inputs : ℕ → List (Edge D)) (tangent : ℕ → D) where
      -- Each element's operands stand before it, and it changes as its weights say.
      abbrev pub IsLinear : ℕ → Type 0
      IsLinear size =
          (i : ℕ)
          → dimension ≤ i
          → i < size
          → All (λ e. e.index < i) (inputs i) × (tangent i ≡ edge_sum tangent (inputs i))

      dot-accumulate :
          (n : ℕ) (g : ℕ → D)
          → IsLinear (dimension + n)
          → dot dimension (accumulate F n dimension inputs g) tangent
            ≡ dot (dimension + n) g tangent
      unfolding accumulate
      dot-accumulate zero g h =
          let e : dimension ≡ dimension + 0 = omega arith in ap (λ m. dot m g tangent) e
      dot-accumulate (suc n) g h =
          let next : suc (dimension + n) ≡ dimension + suc n = omega arith in
          let (below, changes) = h (dimension + n) (omega arith) (omega arith) in
          dot-accumulate n (add_adjoints F (g (dimension + n)) (inputs (dimension + n)) g)
            (λ i p q. h i p (omega (arith, q)))
          ∙ dot-add_adjoints (dimension + n) (g (dimension + n)) (inputs (dimension + n)) g tangent
              below
          ∙ ap (λ y. F.add (dot (dimension + n) g tangent) (F.mul (g (dimension + n)) y))
              (sym changes)
          ∙ ap (λ m. dot m g tangent) next

      dot_nil : (n : ℕ) (g : ℕ → D) → ((i : ℕ) → i < n → g i ≡ F.nil) → dot n g tangent ≡ F.nil
      dot_nil zero g h = refl
      dot_nil (suc n) g h =
          ap (λ y. F.add y (F.mul (g n) (tangent n))) (dot_nil n g (λ i l. h i (omega (arith, l))))
          ∙ ap (λ y. F.add F.nil (F.mul y (tangent n))) (h n (omega arith))
          ∙ ap (F.add F.nil) (exact.nil_mul (tangent n))
          ∙ exact.add_nil F.nil

      dot-initial_adjoint :
          (n : ℕ) (g : ℕ → D) → dot (suc n) (initial_adjoint F (suc n) g) tangent ≡ tangent n
      unfolding initial_adjoint
      dot-initial_adjoint n g =
          ap (λ y. F.add y (F.mul (initial_adjoint F (suc n) g n) (tangent n)))
            (dot_nil n (initial_adjoint F (suc n) g) (λ i l. ground (arith, l)))
          ∙ ap (λ y. F.add F.nil (F.mul y (tangent n))) (ground arith)
          ∙ exact.add_comm F.nil (F.mul F.one (tangent n))
          ∙ exact.add_nil (F.mul F.one (tangent n))
          ∙ exact.mul_one (tangent n)

    -- In exact arithmetic, let the tape not be empty, the operands of each element stand before it and `tangent`
    -- be the changes of all elements for changes of the arguments, each by the weights of its
    -- edges. Then the adjoints of the arguments after the reverse sweep, times the changes of the
    -- arguments, add up to the change of the last element.
    pub reverse_sweep_correct :
        (dimension : ℕ) (t : Tape D) (tangent : ℕ → D)
        → dimension ≤ t.size
        → 0 < t.size
        → IsLinear dimension t.inputs tangent t.size
        → dot dimension (reverse_sweep F dimension t).adjoint tangent ≡ tangent (t.size - 1)
    unfolding reverse_sweep
    reverse_sweep_correct dimension t tangent h filled linear =
        let whole : dimension + (t.size - dimension) ≡ t.size = omega (arith, h) in
        let last : t.size ≡ suc (t.size - 1) = omega (arith, filled) in
        dot-accumulate dimension t.inputs tangent (t.size - dimension)
          (initial_adjoint F t.size t.adjoint)
          (subst (IsLinear dimension t.inputs tangent) (sym whole) linear)
        ∙ ap (λ m. dot m (initial_adjoint F t.size t.adjoint) tangent) whole
        ∙ ap (λ m. dot m (initial_adjoint F m t.adjoint) tangent) last
        ∙ dot-initial_adjoint dimension t.inputs tangent (t.size - 1) t.adjoint
