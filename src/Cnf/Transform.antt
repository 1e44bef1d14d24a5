-- ===== src/Cnf/Transform.antt =====
-- FormulaTransform: the worklist that turns a formula into clauses. The state holds the transformer's
-- map from atoms to variables, the solver's variables, Term::m_nextId with the negated forms that
-- LTEConstraint::negate keeps, and the heap of literals. Console output is not modelled.
pub mod Keeps
pub mod Invariant
pub mod Steps
pub mod Split
pub mod Correct
pub mod Loop
pub mod Visit
pub mod Clauses
pub mod Total
pub mod Headline
pub mod Atoms
pub mod Variables
use supplementary.Base.{
  ℕ, zero, suc, ◌+◌, Bool, true, false, Option, none, some, List, [], ◌∷◌, ◌++◌, reverse, length,
  if◌then◌else◌, update,
}
use supplementary.Cnf.Formula.{
  Formula, Operand, max_term, min_term, and_term, or_term, lt_constraint, lte_constraint, constant,
  other, get_id,
}
use supplementary.Cnf.Clause.{
  Assignment, assigned_true, assigned_false, unassigned, Lit, Heap, Clause, make_lit,
  compute_variable_count, empty_clause, add, clone, add_checked,
}

pub record State (D : Type 0) : Type 0 where
  pub atoms : ℕ → Option ℕ
  pub atom_occurrence : ℕ
  pub variables : List (Formula D)
  pub next_id : ℕ
  pub negated_form : ℕ → Option (Formula D)
  pub lits : Heap D
  pub next_lit : ℕ

-- A run that the source ends by `throw` is `thrown`; `out_of_fuel` is a loop that goes on.
pub data Outcome (A : Type 0) : Type 0 where
  done : A → Outcome A
  thrown out_of_fuel : Outcome A

-- The results of performStep: the state and the two new clauses, if any.
abbrev pub Step : Type 0 → Type 0
Step D = State D × Option Clause × Option Clause

-- What one round of the loop in doTransform does with the clause at the iterator.
pub data Round (D : Type 0) : Type 0 where
  passed : Clause → Round D
  replaced : Outcome (Step D) → Round D

module _ {D : Type 0} where
  -- make_shared<Lit>(…), whose reference is the old `next_lit`.
  unfoldable pub new_lit : Formula D → State D → State D
  unfolding make_lit
  new_lit f s = record s {
    lits = update s.lits s.next_lit (make_lit f unassigned true);
    next_lit = suc s.next_lit;
  }

  -- LTEConstraint::negate, for the node `i` with operands `x` and `y`.
  unfoldable pub negate : ℕ → Operand → Operand → State D → Formula D × State D
  negate i x y s = elim (s.negated_form i) [
    | some p ↦ (p, s)
    | none ↦ (
      lt_constraint s.next_id y x,
      record s {
        next_id = suc s.next_id;
        negated_form =
            update (update s.negated_form i (some (lt_constraint s.next_id y x))) s.next_id
              (some (lte_constraint i x y));
      },
    )
  ]

  -- The lookup of an atom's variable, made by CNSat::newVar where the atom is new.
  unfoldable pub find_var : Formula D → State D → ℕ × State D
  unfolding get_id
  find_var p s = elim (s.atoms (get_id p)) [
    | some v ↦ (v, s)
    | none ↦ (
      length s.variables,
      record s {
        variables = s.variables ++ p ∷ [];
        atoms = update s.atoms (get_id p) (some (length s.variables));
      },
    )
  ]

  -- The writes to the literal `r`, whose atom becomes `p`.
  unfoldable pub finish_lit : ℕ → Formula D → Assignment → State D → State D
  unfolding find_var compute_variable_count
  finish_lit r p sign s =
      let (v, t) = find_var p s in
      record t {
        atom_occurrence = suc t.atom_occurrence;
        lits = update t.lits r (record (compute_variable_count (t.lits r)) {
          sign = sign;
          var = some v;
          is_temporary = false;
          atom = p;
        });
      }

  -- Max and Or: both operands join the clause.
  unfoldable pub split_or : Formula D → Formula D → Clause → State D → Step D
  unfolding new_lit add_checked
  split_or l r c s =
      let t = new_lit r (new_lit l s) in
      (t, some (add_checked t.lits (suc s.next_lit) (add_checked t.lits s.next_lit c)), none)

  -- And and Min: the clause and its clone take one operand each.
  unfoldable pub split_and : Formula D → Formula D → Clause → State D → Step D
  unfolding new_lit add_checked clone
  split_and l r c s =
      let t = new_lit r (new_lit l s) in
      (
        t,
        some (add_checked t.lits s.next_lit c),
        some (add_checked t.lits (suc s.next_lit) (clone c)),
      )

  -- The end of both inequality cases.
  unfoldable pub finish_atom : ℕ → Formula D → Assignment → Clause → State D → Step D
  unfolding finish_lit add_checked
  finish_atom r p sign c s =
      let t = finish_lit r p sign s in (t, some (add_checked t.lits r c), none)

module _ {D : Type 0} (nonpositive : D → Bool) where
  -- performStep on the literal `r`, whose atom is the formula; `c` no longer holds it.
  unfoldable pub step_formula : Formula D → ℕ → Clause → State D → Outcome (Step D)
  unfolding split_or split_and finish_atom negate
  step_formula (max_term i f g) r c s = done (split_or f g c s)
  step_formula (and_term i f g) r c s = done (split_and f g c s)
  step_formula (or_term i f g) r c s = done (split_or f g c s)
  step_formula (min_term i f g) r c s = done (split_and f g c s)
  step_formula (lt_constraint i x y) r c s =
      done (finish_atom r (lt_constraint i x y) assigned_true c s)
  step_formula (lte_constraint i x y) r c s =
      let (p, t) = negate i x y s in done (finish_atom r p assigned_false c t)
  step_formula (constant i v) r c s = done (s, (if nonpositive v then some c else none), none)
  step_formula (other i) r c s = thrown

  unfoldable pub perform_step : ℕ → Clause → State D → Outcome (Step D)
  unfolding step_formula
  perform_step r c s = step_formula (s.lits r).atom r c s

-- reset(), and the first literal. The literals of one transformation make up a heap of their own:
-- those of earlier ones are neither read nor written.
unfoldable pub reset : {D : Type 0} → Formula D → State D → State D
unfolding make_lit
reset f s = record s {
  atoms = λ _. none;
  atom_occurrence = 0;
  lits = λ _. make_lit f unassigned true;
  next_lit = 1;
}

-- The search for the first temporary literal, and the literals without it.
unfoldable pub take_temporary : {D : Type 0} → Heap D → List ℕ → Option (ℕ × List ℕ)
take_temporary h [] = none
take_temporary h (q ∷ qs) =
    if (h q).is_temporary
    then some (q, qs)
    else elim (take_temporary h qs) [ none ↦ none | some (r, rest) ↦ some (r, q ∷ rest) ]

-- clauses->push_back(nc), where nc is not null.
unfoldable pub push : Option Clause → List Clause → List Clause
push none cs = cs
push (some c) cs = cs ++ c ∷ []

module _ {D : Type 0} (nonpositive : D → Bool) where
  unfoldable pub visit : Clause → State D → Round D
  unfolding take_temporary perform_step
  visit c s = if c.is_finished then passed c else elim (take_temporary s.lits c.literals) [
    | none ↦ passed (record c { is_finished = true })
    | some (r, rest) ↦ replaced (perform_step nonpositive r (record c { literals = rest }) s)
  ]

  -- doTransform: the clauses before the iterator, in reverse, and those from it on.
  unfoldable pub do_transform :
      ℕ → List Clause → List Clause → State D → Outcome (State D × List Clause)
  unfolding visit push
  do_transform zero before rest s = out_of_fuel
  do_transform (suc fuel) before [] s = done (s, reverse before)
  do_transform (suc fuel) before (c ∷ cs) s = elim (visit c s) [
    | passed d ↦ do_transform fuel (d ∷ before) cs s
    | replaced o ↦ elim o [
      | done (t, nc1, nc2) ↦ do_transform fuel before (push nc2 (push nc1 cs)) t
      | thrown ↦ thrown
      | out_of_fuel ↦ out_of_fuel
    ]
  ]

  unfoldable pub transform_to_cnf : ℕ → Formula D → State D → Outcome (State D × List Clause)
  unfolding do_transform reset add empty_clause
  transform_to_cnf fuel f s = do_transform fuel [] (add 0 empty_clause ∷ []) (reset f s)
