-- ===== src/Cnf/Tests.antt =====
-- Runs of the transformation, and the theorems at inputs that meet their hypotheses.
use mathlib.Core.Logic.{◌↔◌}
use supplementary.Base.{
  ℕ, ◌<◌, ◌==◌, ◌≡◌, refl, true, not, ltb, none, some, List, [], ◌∷◌, map, arith, if◌then◌else◌,
}
use supplementary.Cnf.Formula.{
  Formula, Operand, Reading, get_id, size, eval, and_term, or_term, lt_constraint, lte_constraint,
}
use supplementary.Cnf.Clause.{Clause, make_lit, unassigned, has_temporary, find_atom}
use supplementary.Cnf.Transform.{State, Outcome, done, transform_to_cnf}
use supplementary.Cnf.Transform.Steps.{pow2}
use supplementary.Cnf.Transform.Headline.{IsInput, Ends, transform_to_cnf_correct}
use supplementary.Cnf.Transform.Variables.{transform_to_cnf_variables}
use supplementary.Cnf.Transform.Atoms.{StandsFor}

abbrev operand : ℕ → Operand
operand t = record { term = t; variables = 1 }

-- Operands are compared by their number; a constant is positive if it is not 0.
abbrev sample_reading : Reading ℕ
sample_reading = record {
  nonpositive = λ d. d == 0;
  less = λ x y. ltb x.term y.term;
  less_equal = λ x y. not (ltb y.term x.term);
  less_equal_total = λ x y. refl;
}

-- (x < y and y <= z) or x < y, where both mentions of x < y are one node.
abbrev sample : Formula ℕ
sample =
    or_term 3
      (and_term 2 (lt_constraint 0 (operand 10) (operand 20))
        (lte_constraint 1 (operand 20) (operand 30)))
      (lt_constraint 0 (operand 10) (operand 20))

abbrev sample_node : ℕ → Formula ℕ
sample_node i =
    if i == 0
    then lt_constraint 0 (operand 10) (operand 20)
    else if i == 1
    then lte_constraint 1 (operand 20) (operand 30)
    else if i == 2
    then and_term 2 (lt_constraint 0 (operand 10) (operand 20))
        (lte_constraint 1 (operand 20) (operand 30))
    else sample

abbrev start : State ℕ
start = record {
  atoms = λ _. none;
  atom_occurrence = 0;
  variables = [];
  next_id = 4;
  negated_form = λ _. none;
  lits = λ _. make_lit sample unassigned true;
  next_lit = 1;
}

abbrev state_of : Outcome (State ℕ × List Clause) → State ℕ
state_of (done (t, cs)) = t
state_of _ = start

abbrev clauses_of : Outcome (State ℕ × List Clause) → List Clause
clauses_of (done (t, cs)) = cs
clauses_of _ = []

run : Outcome (State ℕ × List Clause)
run = transform_to_cnf sample_reading.nonpositive 65 sample start

-- The second mention of x < y is dropped; the first is one literal that both clauses share.
run_clauses : map (λ (c : Clause). c.literals) (clauses_of run) ≡ (2 ∷ []) ∷ (2 ∷ 4 ∷ []) ∷ []
unfolding run transform_to_cnf has_temporary find_atom
run_clauses = refl

sample-IsInput : IsInput sample_node sample start
sample-IsInput = record {
  tree = (
    omega arith,
    refl,
    (omega arith, refl, (omega arith, refl), (omega arith, refl)),
    (omega arith, refl),
  );
  negated = λ i p e. absurd (ground arith);
}

enough : pow2 (size sample) < 65
unfolding pow2 size
enough = omega arith

transform_to_cnf_correct_example :
    Ends sample_reading
      (eval sample_reading sample)
      (transform_to_cnf sample_reading.nonpositive 65 sample start)
transform_to_cnf_correct_example =
    transform_to_cnf_correct sample_reading sample_node sample start sample-IsInput 65 enough

transform_to_cnf_variables_example :
    ((v : ℕ) × (((state_of run).lits 2).var ≡ some v)
      × StandsFor (state_of run).variables v (get_id ((state_of run).lits 2).atom))
    × ((((state_of run).lits 2).var ≡ ((state_of run).lits 4).var)
        ↔ (get_id ((state_of run).lits 2).atom ≡ get_id ((state_of run).lits 4).atom))
unfolding run transform_to_cnf has_temporary find_atom
transform_to_cnf_variables_example =
    transform_to_cnf_variables sample_reading.nonpositive 65 sample start (state_of run)
      (clauses_of run) refl 2 4 refl refl
