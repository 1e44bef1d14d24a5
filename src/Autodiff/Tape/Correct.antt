-- ===== src/Autodiff/Tape/Correct.antt =====
-- CompiledDifferentiator::evaluate gives the value of the term, at the first call and at every later
-- one.
use supplementary.Base.{ℕ, ◌-◌, ◌≡◌, ◌∙◌, ap, true, false, some, List, get_elem?}
use supplementary.Autodiff.Doubles.{Doubles}
use supplementary.Autodiff.Term.{Term, get_id}
use supplementary.Autodiff.Tape.Algebra.{values}
use supplementary.Autodiff.Tape.Calls.{Call, after_calls, after_calls-IsAfter}
use supplementary.Autodiff.Tape.Evaluate.{
  Differentiator, wrap, make_differentiator, evaluate, evaluate_tape,
}
use supplementary.Autodiff.Tape.Make.{make_differentiator-IsMade}
use supplementary.Autodiff.Tape.Meaning.{denote, Named}
use supplementary.Autodiff.Tape.Solve.{evaluate_tape-Solves}
use supplementary.Autodiff.Tape.Variables.{mem}

module _ (F : Doubles) where
  open F use {D}

  -- Let every id in the term have one value, the variables of the term be among the listed ones, no
  -- sigmoid and no gp occur, and the id of the root be new. Then the constructor succeeds, and
  -- `evaluate` gives the value of the term for the argument, whatever calls of `evaluate` and
  -- `differentiate` were before.
  pub evaluate_correct :
      (fresh : ℕ) (t : Term D) (variables : List ℕ) (env meaning arg : ℕ → D)
      → ((k i : ℕ) → get_elem? variables k ≡ some i → (arg k ≡ env i) × (meaning i ≡ env i))
      → Named F (values F) env true meaning (λ i. mem i variables) (wrap F fresh t)
      → mem (get_id (wrap F fresh t)) variables ≡ false
      → (earlier : List (Call D))
      → (d : Differentiator D) × (make_differentiator F fresh t variables ≡ some d)
        × ((evaluate F arg (after_calls F earlier d)).0 ≡ denote F (values F) env (wrap F fresh t))
  unfolding evaluate
  evaluate_correct fresh t variables env meaning arg loads named new earlier =
      let (d, m) =
        make_differentiator-IsMade F (values F) true fresh t variables env meaning arg loads named
          new in
      let later = after_calls-IsAfter F earlier d m.differentiator in
      let e = after_calls F earlier d in
      let w = (evaluate_tape F e.dimension arg e.tape).value in
      let solution =
        evaluate_tape-Solves F e.dimension e.tape later.differentiator.ordered
          later.differentiator.fits arg in
      (
        d,
        m.made,
        ap (λ n. w (n - 1)) later.size ∙ m.valued w (later.solved (values F) arg w solution),
      )
