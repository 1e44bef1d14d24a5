-- ===== src/Autodiff/Tape/Make.antt =====
-- The constructor of CompiledDifferentiator gives a tape whose solutions have the meaning of the term
-- last, in any reading.
use supplementary.Base.{
  Bool, ℕ, ◌-◌, ◌<◌, ◌≤◌, ◌≡◌, refl, sym, ◌∙◌, ap, false, Option, none, some, List, length,
  get_elem?, arith,
}
use supplementary.Autodiff.Doubles.{Doubles}
use supplementary.Autodiff.Term.{
  Term, abs, cos, exp, log, sin, lin_sigmoid, and_, or_, max, min, product, atan2, term_power,
  constraint_utility, lt_constraint, lte_constraint, sigmoid, reification, const_power, constant,
  sum, variable, zero as zero_term, gp, get_id,
}
use supplementary.Autodiff.Tape.{Compiler, compile, add_variables}
use supplementary.Autodiff.Tape.Algebra.{Algebra, Allowed}
use supplementary.Autodiff.Tape.Calls.{IsDifferentiator}
use supplementary.Autodiff.Tape.Compile.{compile-Gives}
use supplementary.Autodiff.Tape.Evaluate.{Differentiator, wrap, no_tape, make_differentiator}
use supplementary.Autodiff.Tape.Extends.{Solves}
use supplementary.Autodiff.Tape.Meaning.{denote, Named}
use supplementary.Autodiff.Tape.Represents.{Gives, Kept}
use supplementary.Autodiff.Tape.Variables.{
  variables-AddedVariables, mem, IsLast, is_variable, compile-IsLast,
}

module _ (F : Doubles) where
  open F use {D}

  wrap-is_variable : (fresh : ℕ) (t : Term D) → is_variable F (wrap F fresh t) ≡ false
  unfolding wrap
  wrap-is_variable fresh (abs i t) = refl
  wrap-is_variable fresh (cos i t) = refl
  wrap-is_variable fresh (exp i t) = refl
  wrap-is_variable fresh (log i t) = refl
  wrap-is_variable fresh (sin i t) = refl
  wrap-is_variable fresh (lin_sigmoid i t) = refl
  wrap-is_variable fresh (and_ i l r) = refl
  wrap-is_variable fresh (or_ i l r) = refl
  wrap-is_variable fresh (max i l r) = refl
  wrap-is_variable fresh (min i l r) = refl
  wrap-is_variable fresh (product i l r) = refl
  wrap-is_variable fresh (atan2 i l r) = refl
  wrap-is_variable fresh (term_power i l r) = refl
  wrap-is_variable fresh (constraint_utility i l r) = refl
  wrap-is_variable fresh (lt_constraint i l r s) = refl
  wrap-is_variable fresh (lte_constraint i l r s) = refl
  wrap-is_variable fresh (sigmoid i l r s) = refl
  wrap-is_variable fresh (reification i l r lo hi) = refl
  wrap-is_variable fresh (const_power i t e) = refl
  wrap-is_variable fresh (constant i d) = refl
  wrap-is_variable fresh (sum i ts) = refl
  wrap-is_variable fresh (variable i) = refl
  wrap-is_variable fresh (zero_term i) = refl
  wrap-is_variable fresh (gp i) = refl

  module _ (A : Algebra D) (every : Bool) (fresh : ℕ) (t : Term D) (variables : List ℕ)
      (env meaning arg : ℕ → A.X)
      (loads : (k i : ℕ) → get_elem? variables k ≡ some i → (arg k ≡ env i) × (meaning i ≡ env i))
      (named : Named F A env every meaning (λ i. mem i variables) (wrap F fresh t))
      (new : mem (get_id (wrap F fresh t)) variables ≡ false) where
    open A use {X}

    -- What the constructor makes.
    pub record IsMade (d : Differentiator D) : Type 0 where
      pub made : make_differentiator F fresh t variables ≡ some d
      pub dimension : d.dimension ≡ length variables
      pub differentiator : IsDifferentiator F d
      pub allowed : (i : ℕ) → d.dimension ≤ i → i < d.tape.size → Allowed every (d.tape.kind i)
      pub valued :
          (x : ℕ → X)
          → Solves F A d.dimension arg d.tape x
          → x (d.tape.size - 1) ≡ denote F A env (wrap F fresh t)

    start : Compiler D
    start = add_variables F variables (no_tape F)

    start-Kept : Kept F A env (length variables) arg meaning (λ i. mem i variables) every start
    unfolding start
    start-Kept =
        let a = variables-AddedVariables F variables in
        record {
          sized = omega (arith, a.sized);
          entries = λ i k e. (
            omega (arith, a.sized, (a.entries i k e).0),
            λ v s.
                s.loaded k (a.entries i k e).0
                ∙ (loads k i (a.entries i k e).1).0
                ∙ sym (loads k i (a.entries i k e).1).1,
          );
          variables = a.known;
          ordered = λ i lo hi. absurd (omega (arith, a.sized, lo, hi));
          edged = λ i lo hi. absurd (omega (arith, a.sized, lo, hi));
          allowed = λ i lo hi. absurd (omega (arith, a.sized, lo, hi));
        }

    -- What make_differentiator gives for the compiled root.
    abbrev result : Option (ℕ × Compiler D) → Option (Differentiator D)
    result o = elim o [
      | none ↦ none
      | some (k, c) ↦ some (record { tape = c.tape; dimension = length variables })
    ]

    make_differentiator_rest :
        (o : Option (ℕ × Compiler D))
        → Gives F A env
            (length variables)
            arg
            meaning
            (λ i. mem i variables)
            every
            (denote F A env (wrap F fresh t))
            start
            o
        → IsLast F o
        → make_differentiator F fresh t variables ≡ result o
        → (d : Differentiator D) × IsMade d
    make_differentiator_rest none g l e = absurd g
    make_differentiator_rest (some (k, c)) g l e = (
      record { tape = c.tape; dimension = length variables },
      record {
        made = e;
        dimension = refl;
        differentiator = record {
          fits = g.compiles.sized;
          filled = omega (arith, g.placed);
          ordered = g.compiles.ordered;
          edged = g.compiles.edged;
        };
        allowed = g.compiles.allowed;
        valued = λ x s. ap x (omega (arith, l)) ∙ g.valued x s;
      },
    )

    pub make_differentiator-IsMade : (d : Differentiator D) × IsMade d
    unfolding make_differentiator start
    make_differentiator-IsMade =
        make_differentiator_rest (compile F (wrap F fresh t) start)
          (compile-Gives F A env (length variables) arg meaning (λ i. mem i variables) every
            (wrap F fresh t) start start-Kept named)
          (compile-IsLast F (wrap F fresh t) start (wrap-is_variable fresh t)
            ((variables-AddedVariables F variables).fresh (get_id (wrap F fresh t)) new))
          refl
