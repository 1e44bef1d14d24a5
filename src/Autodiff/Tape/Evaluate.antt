-- ===== src/Autodiff/Tape/Evaluate.antt =====
-- CompiledDifferentiator::evaluate with its EvalVisitor.
use supplementary.Base.{
  ℕ, zero, suc, ◌-◌, Option, none, some, List, [], ◌∷◌, length, if◌then◌else◌, update,
}
use supplementary.Autodiff.Doubles.{Doubles}
use supplementary.Autodiff.Term.{Term, const_power, variable}
use supplementary.Autodiff.Tape.{
  Kind, Tape, Compiler, compiled_abs, compiled_cos, compiled_exp, compiled_log, compiled_sin,
  compiled_and, compiled_or, compiled_max, compiled_min, compiled_product, compiled_atan2,
  compiled_term_power, compiled_utility, compiled_lt, compiled_lte, compiled_sigmoid,
  compiled_reification, compiled_const_power, compiled_sum, compiled_constant, compiled_variable,
  compile, add_variables,
}

module _ (F : Doubles) where
  open F use {D}

  -- std::max and std::min
  unfoldable pub std_max : D → D → D
  std_max a b = if F.lt a b then b else a

  unfoldable pub std_min : D → D → D
  std_min a b = if F.lt b a then b else a

  unfoldable pub and_value : D → D → D
  and_value l r =
      if F.lt F.three_quarters l then r else if F.lt F.three_quarters r then l else F.add l r

  unfoldable pub or_value : D → D → D
  or_value l r =
      if F.lt F.three_quarters l then l else if F.lt F.three_quarters r then r else F.add l r

  unfoldable pub utility_value : D → D → D
  utility_value c u = if F.lt c F.almost_one then c else F.mul c u

  -- The value of both inequalities: EvalVisitor tests `<` for each.
  unfoldable pub inequality_value : D → D → D → D
  inequality_value s l r = if F.lt l r then F.one else F.mul s (F.sub r l)

  unfoldable pub reification_value : D → D → D → D
  reification_value lo hi condition = if F.lt F.nil condition then hi else lo

  -- The tail of the sigmoids, from `e` on.
  unfoldable pub logistic : D → D
  logistic e =
      let v = if F.eq e F.infinity then F.epsilon else F.div F.one (F.add F.one e) in
      if F.lt v F.epsilon then F.epsilon else v

  unfoldable pub sigmoid_value : D → D → D → D
  unfolding logistic
  sigmoid_value s arg mid = logistic (F.exp (F.mul s (F.add (F.neg arg) mid)))

  -- The loop of visit(CompiledSum), which begins at 0.
  unfoldable pub sum_values : D → (ℕ → D) → List ℕ → D
  sum_values acc v [] = acc
  sum_values acc v (i ∷ is) = sum_values (F.add acc (v i)) v is

  -- The visits of EvalVisitor: the new value of an element. A constant and a variable keep theirs.
  unfoldable pub element_value : Kind D → (ℕ → D) → D → D
  element_value (compiled_abs a) v old = F.fabs (v a)
  element_value (compiled_cos a) v old = F.cos (v a)
  element_value (compiled_exp a) v old = F.exp (v a)
  element_value (compiled_log a) v old = F.log (v a)
  element_value (compiled_sin a) v old = F.sin (v a)
  element_value (compiled_and a b) v old = and_value (v a) (v b)
  element_value (compiled_or a b) v old = or_value (v a) (v b)
  element_value (compiled_max a b) v old = std_max (v a) (v b)
  element_value (compiled_min a b) v old = std_min (v a) (v b)
  element_value (compiled_product a b) v old = F.mul (v a) (v b)
  element_value (compiled_atan2 a b) v old = F.atan2 (v a) (v b)
  element_value (compiled_term_power a b) v old = F.pow (v a) (v b)
  element_value (compiled_utility a b) v old = utility_value (v a) (v b)
  element_value (compiled_lt a b s) v old = inequality_value s (v a) (v b)
  element_value (compiled_lte a b s) v old = inequality_value s (v a) (v b)
  element_value (compiled_sigmoid a b s) v old = sigmoid_value s (v a) (v b)
  element_value (compiled_reification a b lo hi) v old = reification_value lo hi (v a)
  element_value (compiled_const_power a e) v old = F.pow (v a) e
  element_value (compiled_sum is) v old = sum_values F.nil v is
  element_value compiled_constant v old = old
  element_value compiled_variable v old = old

  -- The two loops of evaluateTape, on the values: `n` elements are left, from `i` on.
  unfoldable pub load_arguments : ℕ → (ℕ → D) → (ℕ → D) → ℕ → D
  load_arguments zero arg v = v
  load_arguments (suc n) arg v = update (load_arguments n arg v) n (arg n)

  unfoldable pub evaluate_from : ℕ → ℕ → (ℕ → Kind D) → (ℕ → D) → ℕ → D
  evaluate_from zero i kind v = v
  evaluate_from (suc n) i kind v =
      evaluate_from n (suc i) kind (update v i (element_value (kind i) v (v i)))

  unfoldable pub evaluate_tape : ℕ → (ℕ → D) → Tape D → Tape D
  unfolding load_arguments evaluate_from
  evaluate_tape dimension arg t = record t {
    value =
        evaluate_from (t.size - dimension) dimension t.kind (load_arguments dimension arg t.value);
  }

-- CompiledDifferentiator
pub record Differentiator (D : Type 0) : Type 0 where
  pub tape : Tape D
  pub dimension : ℕ

module _ (F : Doubles) where
  open F use {D}

  -- The constructor; `fresh` is the id of the ConstPower that is made for a lone variable.
  unfoldable pub wrap : ℕ → Term D → Term D
  wrap fresh (variable i) = const_power fresh (variable i) F.one
  wrap fresh t = t

  unfoldable pub no_tape : Compiler D
  no_tape = record {
    index_of = λ _. none;
    tape = record {
      size = 0;
      kind = λ _. compiled_variable;
      value = λ _. F.nil;
      adjoint = λ _. F.nil;
      inputs = λ _. [];
    };
  }

  unfoldable pub make_differentiator : ℕ → Term D → List ℕ → Option (Differentiator D)
  unfolding wrap compile add_variables no_tape
  make_differentiator fresh t variables =
      elim (compile F (wrap fresh t) (add_variables F variables no_tape)) [
        | none ↦ none
        | some (k, c) ↦ some (record { tape = c.tape; dimension = length variables })
      ]

  unfoldable pub evaluate : (ℕ → D) → Differentiator D → D × Differentiator D
  unfolding evaluate_tape
  evaluate arg d =
      let t = evaluate_tape F d.dimension arg d.tape in
      (t.value (t.size - 1), record d { tape = t })
