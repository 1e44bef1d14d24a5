-- ===== src/Cnf/Transform/Variables.antt =====
-- The variables that transformToCNF gives to the atoms.
use supplementary.Base.{
  ℕ, zero, suc, ◌≡◌, inl, inr, subst, Bool, true, false, some, List, [], ◌∷◌, arith, Option-cases,
  Bool-cases,
}
use mathlib.Core.Logic.{◌↔◌}
use supplementary.Cnf.Formula.{
  Formula, get_id, max_term, min_term, and_term, or_term, lt_constraint, lte_constraint, constant,
  other,
}
use supplementary.Cnf.Clause.{Clause, assigned_true, assigned_false, add, empty_clause, make_lit}
use supplementary.Cnf.Transform.{
  State, Step, Outcome, done, thrown, out_of_fuel, Round, passed, replaced, visit, push,
  do_transform, reset, transform_to_cnf, new_lit, negate, finish_atom, split_or, split_and,
  step_formula, perform_step, take_temporary,
}
use supplementary.Cnf.Transform.Atoms.{
  StandsFor, HasVariables, new_lit-HasVariables, finish_lit-HasVariables, negate-HasVariables,
}

-- A predicate on the state of a step, a round or a run that ends.
abbrev AfterStep : {D : Type 0} → (State D → Type 0) → Outcome (Step D) → Type 0
AfterStep P (done (t, nc1, nc2)) = P t
AfterStep P _ = Unit

abbrev AfterRound : {D : Type 0} → (State D → Type 0) → Round D → Type 0
AfterRound P (passed d) = Unit
AfterRound P (replaced o) = AfterStep P o

abbrev AfterRun : {D : Type 0} → (State D → Type 0) → Outcome (State D × List Clause) → Type 0
AfterRun P (done (t, cs)) = P t
AfterRun P _ = Unit

module _ {D : Type 0} (nonpositive : D → Bool) where
  step_formula-HasVariables :
      (f : Formula D) (r : ℕ) (c : Clause) (s : State D)
      → HasVariables s
      → AfterStep HasVariables (step_formula nonpositive f r c s)
  unfolding step_formula split_or split_and finish_atom
  step_formula-HasVariables (max_term i f g) r c s w =
      new_lit-HasVariables g (new_lit f s) (new_lit-HasVariables f s w)
  step_formula-HasVariables (min_term i f g) r c s w =
      new_lit-HasVariables g (new_lit f s) (new_lit-HasVariables f s w)
  step_formula-HasVariables (and_term i f g) r c s w =
      new_lit-HasVariables g (new_lit f s) (new_lit-HasVariables f s w)
  step_formula-HasVariables (or_term i f g) r c s w =
      new_lit-HasVariables g (new_lit f s) (new_lit-HasVariables f s w)
  step_formula-HasVariables (lt_constraint i x y) r c s w =
      finish_lit-HasVariables r (lt_constraint i x y) assigned_true s w
  step_formula-HasVariables (lte_constraint i x y) r c s w =
      finish_lit-HasVariables r (negate i x y s).0 assigned_false (negate i x y s).1
        (negate-HasVariables i x y s w)
  step_formula-HasVariables (constant i v) r c s w = w
  step_formula-HasVariables (other i) r c s w = tt

  module _ (P : State D → Type 0)
      (keep : (f : Formula D) (r : ℕ) (c : Clause) (s : State D)
        → P s
        → AfterStep P (step_formula nonpositive f r c s)) where
    visit_keeps : (c : Clause) (s : State D) → P s → AfterRound P (visit nonpositive c s)
    unfolding visit perform_step
    visit_keeps c s p = elim (Bool-cases c.is_finished) [
      | inl e ↦ subst (AfterRound P) {x = passed c} (ground arith) tt
      | inr e ↦ elim (Option-cases (take_temporary s.lits c.literals)) [
        | inl k ↦
            subst (AfterRound P) {x = passed (record c { is_finished = true })} (ground arith) tt
        | inr ((r, rest), k) ↦
            subst (AfterRound P)
              {x = replaced
                (step_formula nonpositive (s.lits r).atom r (record c { literals = rest }) s)}
              (ground arith) (keep (s.lits r).atom r (record c { literals = rest }) s p)
      ]
    ]

    after_visit :
        (fuel : ℕ)
        → ((before rest : List Clause) (s : State D)
            → P s
            → AfterRun P (do_transform nonpositive fuel before rest s))
        → (before cs : List Clause) (s : State D) → P s
        → (o : Round D) → AfterRound P o
        → AfterRun P (elim o [
          | passed d ↦ do_transform nonpositive fuel (d ∷ before) cs s
          | replaced r ↦ elim r [
            | done (t, nc1, nc2) ↦ do_transform nonpositive fuel before (push nc2 (push nc1 cs)) t
            | thrown ↦ thrown
            | out_of_fuel ↦ out_of_fuel
          ]
        ])
    after_visit fuel ih before cs s p (passed d) a = ih (d ∷ before) cs s p
    after_visit fuel ih before cs s p (replaced (done (t, nc1, nc2))) a =
        ih before (push nc2 (push nc1 cs)) t a
    after_visit fuel ih before cs s p (replaced thrown) a = tt
    after_visit fuel ih before cs s p (replaced out_of_fuel) a = tt

    -- A predicate that every step keeps holds at the end of the loop.
    do_transform_keeps :
        (fuel : ℕ) (before rest : List Clause) (s : State D)
        → P s
        → AfterRun P (do_transform nonpositive fuel before rest s)
    unfolding do_transform
    do_transform_keeps zero before rest s p = tt
    do_transform_keeps (suc fuel) before [] s p = p
    do_transform_keeps (suc fuel) before (c ∷ cs) s p =
        after_visit fuel (do_transform_keeps fuel) before cs s p (visit nonpositive c s)
          (visit_keeps c s p)

  reset-HasVariables : (f : Formula D) (s : State D) → HasVariables (reset f s)
  unfolding reset make_lit
  reset-HasVariables f s = record {
    listed = λ i v e. absurd (ground arith);
    bound = λ r e. absurd (ground arith);
  }

  run-HasVariables :
      (fuel : ℕ) (f : Formula D) (s : State D)
      → AfterRun HasVariables (transform_to_cnf nonpositive fuel f s)
  unfolding transform_to_cnf
  run-HasVariables fuel f s =
      do_transform_keeps HasVariables step_formula-HasVariables fuel [] (add 0 empty_clause ∷ [])
        (reset f s) (reset-HasVariables f s)

  -- When transformToCNF ends, every finished literal has a variable of the solver that stands for
  -- its atom, and two finished literals share the variable exactly if their atoms have one id.
  pub transform_to_cnf_variables :
      (fuel : ℕ) (f : Formula D) (s t : State D) (cs : List Clause)
      → transform_to_cnf nonpositive fuel f s ≡ done (t, cs)
      → (r q : ℕ) → (t.lits r).is_temporary ≡ false
      → (t.lits q).is_temporary ≡ false
      → ((v : ℕ) × ((t.lits r).var ≡ some v) × StandsFor t.variables v (get_id (t.lits r).atom))
        × (((t.lits r).var ≡ (t.lits q).var) ↔ (get_id (t.lits r).atom ≡ get_id (t.lits q).atom))
  transform_to_cnf_variables fuel f s t cs e r q tr tq =
      let w : HasVariables t = subst (AfterRun HasVariables) e (run-HasVariables fuel f s) in
      let (v, var_v, at_v) = w.bound r tr in
      let (u, var_u, at_u) = w.bound q tq in
      let found_v = w.listed _ v at_v in
      let found_u = w.listed _ u at_u in
      (
        (v, var_v, found_v),
        (λ same. ground (arith, found_v.1, found_v.2, found_u.1, found_u.2), λ same. ground arith),
      )
