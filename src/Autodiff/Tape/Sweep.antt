-- ===== src/Autodiff/Tape/Sweep.antt =====
-- CompiledDifferentiator::differentiate with its ForwardSweepVisitor. A weight that a visit does not
-- set stays what it was.
pub mod Adjoint
pub mod Dual
pub mod Correct
pub mod Forward
pub mod Tangent
use supplementary.Base.{
  ℕ, zero, suc, ◌+◌, ◌-◌, Bool, true, false, ◌&&◌, ◌||◌, List, [], ◌∷◌, map, length, if◌then◌else◌,
  update, ltb, ◌==◌,
}
use supplementary.Autodiff.Doubles.{Doubles}
use supplementary.Autodiff.Tape.{
  Kind, Edge, Tape, compiled_abs, compiled_cos, compiled_exp, compiled_log, compiled_sin,
  compiled_and, compiled_or, compiled_max, compiled_min, compiled_product, compiled_atan2,
  compiled_term_power, compiled_utility, compiled_lt, compiled_lte, compiled_sigmoid,
  compiled_reification, compiled_const_power, compiled_sum, compiled_constant, compiled_variable,
}
use supplementary.Autodiff.Tape.Evaluate.{
  std_max, std_min, sigmoid_value, sum_values, load_arguments, Differentiator,
}

module _ (F : Doubles) where
  open F use {D}

  -- elem->inputs[0].weight = w
  unfoldable pub set_first : D → List (Edge D) → List (Edge D)
  set_first w [] = []
  set_first w (e ∷ es) = record e { weight = w } ∷ es

  -- elem->inputs[1].weight = w
  unfoldable pub set_second : D → List (Edge D) → List (Edge D)
  unfolding set_first
  set_second w [] = []
  set_second w (e ∷ es) = e ∷ set_first w es

  unfoldable pub set_both : D → D → List (Edge D) → List (Edge D)
  unfolding set_first set_second
  set_both w x es = set_second x (set_first w es)

  -- A value that is not positive is added to the value of an And or Or.
  unfoldable pub add_nonpositive : D → D → D
  add_nonpositive acc x = if F.le x F.nil then F.add acc x else acc

  unfoldable pub sweep_and : D → D → List (Edge D) → D × List (Edge D)
  unfolding set_both set_first set_second add_nonpositive
  sweep_and l r es =
      if F.lt F.three_quarters l && F.lt F.three_quarters r
      then (F.one, set_both F.nil F.nil es)
      else (
        add_nonpositive (add_nonpositive F.nil l) r,
        let left = (if F.le l F.nil then set_first F.one es else es) in
            if F.le r F.nil then set_second F.one left else left,
      )

  unfoldable pub sweep_or : D → D → List (Edge D) → D × List (Edge D)
  unfolding set_both add_nonpositive
  sweep_or l r es =
      if F.lt F.three_quarters l || F.lt F.three_quarters r
      then (F.one, set_both F.nil F.nil es)
      else (
        add_nonpositive (add_nonpositive F.nil l) r,
        set_both (if F.le l F.nil then F.one else F.nil) (if F.le r F.nil then F.one else F.nil) es,
      )

  unfoldable pub sweep_atan2 : D → D → List (Edge D) → D × List (Edge D)
  unfolding set_both
  sweep_atan2 l r es =
      let denom = F.add (F.mul l l) (F.mul r r) in
      (F.atan2 l r, set_both (F.div (F.neg r) denom) (F.div l denom) es)

  unfoldable pub sweep_const_power : D → D → List (Edge D) → D × List (Edge D)
  unfolding set_first
  sweep_const_power b e es =
      let r = F.pow b (F.sub e F.one) in (F.mul r b, set_first (F.mul e r) es)

  unfoldable pub sweep_utility : D → D → List (Edge D) → D × List (Edge D)
  unfolding set_both
  sweep_utility c u es =
      if F.lt F.nil c then (u, set_both F.nil F.one es) else (c, set_both F.one F.nil es)

  -- Both inequalities, with the test of each.
  unfoldable pub sweep_inequality : Bool → D → D → D → List (Edge D) → D × List (Edge D)
  unfolding set_both
  sweep_inequality holds s l r es =
      if holds
      then (F.one, set_both F.nil F.nil es)
      else (F.mul s (F.sub r l), set_both (F.neg s) s es)

  unfoldable pub sweep_max : D → D → List (Edge D) → D × List (Edge D)
  unfolding set_both std_max
  sweep_max l r es =
      (std_max F l r, if F.lt r l then set_both F.one F.nil es else set_both F.nil F.one es)

  unfoldable pub sweep_min : D → D → List (Edge D) → D × List (Edge D)
  unfolding set_both std_min
  sweep_min l r es =
      (std_min F l r, if F.lt l r then set_both F.one F.nil es else set_both F.nil F.one es)

  unfoldable pub sweep_reification : D → D → D → List (Edge D) → D × List (Edge D)
  unfolding set_both
  sweep_reification lo hi condition es =
      let d = F.sub hi lo in
      if F.lt F.nil condition then (hi, set_both F.nil (F.neg d) es) else (lo, set_both d F.nil es)

  unfoldable pub sweep_sigmoid : D → D → D → List (Edge D) → D × List (Edge D)
  unfolding set_both sigmoid_value
  sweep_sigmoid s arg mid es =
      let e = F.exp (F.mul s (F.add (F.neg arg) mid)) in
      (
        sigmoid_value F s arg mid,
        if F.eq e F.nil || F.eq e F.infinity
            then set_both (F.mul s F.epsilon) (F.mul (F.neg s) F.epsilon) es
            else let e2 = F.div (F.mul s e) (F.mul (F.add e F.one) (F.add e F.one)) in
              set_both e2 (F.neg e2) es,
      )

  unfoldable pub sweep_term_power : D → D → List (Edge D) → D × List (Edge D)
  unfolding set_both
  sweep_term_power b e es =
      let value = F.pow b e in
      (value, set_both (F.mul e (F.pow b (F.sub e F.one))) (F.mul value (F.log b)) es)

  -- The visits of ForwardSweepVisitor: the new value of an element, and its inputs.
  unfoldable pub sweep_element : Kind D → (ℕ → D) → D → List (Edge D) → D × List (Edge D)
  unfolding set_first set_both sum_values sweep_and sweep_or sweep_atan2 sweep_const_power
      sweep_utility sweep_inequality sweep_max sweep_min sweep_reification sweep_sigmoid
      sweep_term_power
  sweep_element (compiled_abs a) v old es = (F.fabs (v a), es)
  sweep_element (compiled_cos a) v old es = (F.cos (v a), set_first (F.neg (F.sin (v a))) es)
  sweep_element (compiled_exp a) v old es = (F.exp (v a), set_first (F.exp (v a)) es)
  sweep_element (compiled_log a) v old es = (F.log (v a), set_first (F.div F.one (v a)) es)
  sweep_element (compiled_sin a) v old es = (F.sin (v a), set_first (F.cos (v a)) es)
  sweep_element (compiled_and a b) v old es = sweep_and (v a) (v b) es
  sweep_element (compiled_or a b) v old es = sweep_or (v a) (v b) es
  sweep_element (compiled_max a b) v old es = sweep_max (v a) (v b) es
  sweep_element (compiled_min a b) v old es = sweep_min (v a) (v b) es
  sweep_element (compiled_product a b) v old es = (F.mul (v a) (v b), set_both (v b) (v a) es)
  sweep_element (compiled_atan2 a b) v old es = sweep_atan2 (v a) (v b) es
  sweep_element (compiled_term_power a b) v old es = sweep_term_power (v a) (v b) es
  sweep_element (compiled_utility a b) v old es = sweep_utility (v a) (v b) es
  sweep_element (compiled_lt a b s) v old es = sweep_inequality (F.lt (v a) (v b)) s (v a) (v b) es
  sweep_element (compiled_lte a b s) v old es = sweep_inequality (F.le (v a) (v b)) s (v a) (v b) es
  sweep_element (compiled_sigmoid a b s) v old es = sweep_sigmoid s (v a) (v b) es
  sweep_element (compiled_reification a b lo hi) v old es = sweep_reification lo hi (v a) es
  sweep_element (compiled_const_power a e) v old es = sweep_const_power (v a) e es
  sweep_element (compiled_sum is) v old es =
      (sum_values F F.nil v is, map {A = Edge D} {B = Edge D} (λ e. record e { weight = F.one }) es)
  sweep_element compiled_constant v old es = (old, es)
  sweep_element compiled_variable v old es = (old, es)

  -- The second loop of forwardSweep: `n` elements are left, from `i` on.
  unfoldable pub sweep_from :
      ℕ → ℕ → (ℕ → Kind D) → (ℕ → D) → (ℕ → List (Edge D)) → (ℕ → D) × (ℕ → List (Edge D))
  sweep_from zero i kind v inputs = (v, inputs)
  sweep_from (suc n) i kind v inputs =
      let (x, es) = sweep_element (kind i) v (v i) (inputs i) in
      sweep_from n (suc i) kind (update v i x) (update inputs i es)

  unfoldable pub forward_sweep : ℕ → (ℕ → D) → Tape D → Tape D
  unfolding load_arguments sweep_from
  forward_sweep dimension arg t =
      let (v, inputs) =
        sweep_from (t.size - dimension) dimension t.kind (load_arguments F dimension arg t.value)
          t.inputs in
      record t { value = v; inputs = inputs }

  -- The inner loop of reverseSweep.
  unfoldable pub add_adjoints : D → List (Edge D) → (ℕ → D) → ℕ → D
  add_adjoints adjoint [] adj = adj
  add_adjoints adjoint (e ∷ es) adj =
      add_adjoints adjoint es (update adj e.index (F.add (adj e.index) (F.mul adjoint e.weight)))

  -- The outer loop, downwards: `n` elements are left, from the dimension on.
  unfoldable pub accumulate : ℕ → ℕ → (ℕ → List (Edge D)) → (ℕ → D) → ℕ → D
  unfolding add_adjoints
  accumulate zero dimension inputs adj = adj
  accumulate (suc n) dimension inputs adj =
      let i = dimension + n in accumulate n dimension inputs (add_adjoints (adj i) (inputs i) adj)

  -- The adjoints before the outer loop.
  unfoldable pub initial_adjoint : ℕ → (ℕ → D) → ℕ → D
  initial_adjoint zero adj = adj
  initial_adjoint (suc n) adj = λ i. if i == n then F.one else if ltb i n then F.nil else adj i

  unfoldable pub reverse_sweep : ℕ → Tape D → Tape D
  unfolding accumulate initial_adjoint
  reverse_sweep dimension t = record t {
    adjoint = accumulate (t.size - dimension) dimension t.inputs (initial_adjoint t.size t.adjoint);
  }

  -- The gradient, which has the dimension's many entries, the value, and the new state.
  unfoldable pub differentiate : (ℕ → D) → Differentiator D → ((ℕ → D) × D) × Differentiator D
  unfolding forward_sweep reverse_sweep
  differentiate arg d =
      let t = reverse_sweep d.dimension (forward_sweep d.dimension arg d.tape) in
      ((t.adjoint, t.value (t.size - 1)), record d { tape = t })
