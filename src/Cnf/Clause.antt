-- ===== src/Cnf/Clause.antt =====
-- types/Lit and types/Clause of the constraint solver. Clauses share Lit objects, so a clause holds
-- references into a heap of literals, and a write to a literal is seen by every clause that holds it.
pub mod Laws
pub mod Distinct
use supplementary.Base.{
  ℕ, ◌+◌, ◌==◌, ◌/◌, Bool, true, false, ◌||◌, Option, none, some, List, [], ◌∷◌, ◌++◌, length,
  if◌then◌else◌,
}
use supplementary.Cnf.Formula.{Formula, get_id, count_variables, Reading, eval}

pub data Assignment : Type 0 where
  assigned_false assigned_true unassigned : Assignment

unfoldable pub same_sign : Assignment → Assignment → Bool
same_sign assigned_false assigned_false = true
same_sign assigned_true assigned_true = true
same_sign unassigned unassigned = true
same_sign _ _ = false

-- `var` is the index of the variable; a temporary literal has none. A count that is not computed
-- yet, -1 in the source, is `none`.
pub record Lit (D : Type 0) : Type 0 where
  pub sign : Assignment
  pub var : Option ℕ
  pub variable_count : Option ℕ
  pub is_temporary : Bool
  pub atom : Formula D

abbrev pub Heap : Type 0 → Type 0
Heap D = ℕ → Lit D

-- Lit::Lit(shared_ptr<Term>, Assignment, bool)
unfoldable pub make_lit : {D : Type 0} → Formula D → Assignment → Bool → Lit D
make_lit t ass temp = record {
  sign = ass;
  var = none;
  variable_count = none;
  is_temporary = temp;
  atom = t;
}

unfoldable pub compute_variable_count : {D : Type 0} → Lit D → Lit D
unfolding count_variables
compute_variable_count l = record l { variable_count = some (count_variables l.atom) }

-- Lit::satisfied and Lit::conflicted, under the assignment of each variable.
unfoldable pub satisfied : {D : Type 0} → (ℕ → Assignment) → Lit D → Bool
unfolding same_sign
satisfied a l = elim l.var [ none ↦ false | some v ↦ same_sign l.sign (a v) ]

unfoldable pub conflicted : {D : Type 0} → (ℕ → Assignment) → Lit D → Bool
unfolding same_sign
conflicted a l = elim l.var [
  | none ↦ false
  | some v ↦
      if same_sign (a v) l.sign then false else if same_sign (a v) unassigned then false else true
]

pub record Clause : Type 0 where
  pub literals : List ℕ
  pub is_tautologic : Bool
  pub is_finished : Bool
  pub is_satisfied : Bool
  pub activity : ℕ

unfoldable pub empty_clause : Clause
empty_clause = record {
  literals = [];
  is_tautologic = false;
  is_finished = false;
  is_satisfied = false;
  activity = 0;
}

-- Clause::add
unfoldable pub add : ℕ → Clause → Clause
add r c = record c { literals = c.literals ++ r ∷ [] }

-- Clause::clone
unfoldable pub clone : Clause → Clause
unfolding empty_clause
clone c = record empty_clause {
  literals = c.literals;
  is_finished = c.is_finished;
  is_tautologic = c.is_tautologic;
}

module _ {D : Type 0} (h : Heap D) where
  -- Is there a temporary literal with the atom whose id is `i`?
  unfoldable pub has_temporary : ℕ → List ℕ → Bool
  has_temporary i [] = false
  has_temporary i (q ∷ qs) =
      if (h q).is_temporary
      then (if i == get_id (h q).atom then true else has_temporary i qs)
      else has_temporary i qs

  -- The first literal, temporary or not, with the atom whose id is `i`.
  unfoldable pub find_atom : ℕ → List ℕ → Option ℕ
  find_atom i [] = none
  find_atom i (q ∷ qs) = if i == get_id (h q).atom then some q else find_atom i qs

  -- The part of addChecked after the loop over the literals.
  unfoldable pub add_found : ℕ → Clause → Option ℕ → Clause
  unfolding add same_sign
  add_found r c none = add r c
  add_found r c (some q) =
      if same_sign (h r).sign (h q).sign
      then c
      else record c { is_tautologic = true; literals = [] }

  -- Clause::addChecked
  unfoldable pub add_checked : ℕ → Clause → Clause
  unfolding add add_found
  add_checked r c =
      if (h r).is_temporary
      then (if has_temporary (get_id (h r).atom) c.literals then c else add r c)
      else add_found r c (find_atom (get_id (h r).atom) c.literals)

  -- Clause::checkSatisfied
  unfoldable pub check_satisfied : (ℕ → Assignment) → List ℕ → Bool
  unfolding satisfied
  check_satisfied a [] = false
  check_satisfied a (q ∷ qs) = if satisfied a (h q) then true else check_satisfied a qs

-- The truth value of a literal: that of its atom, negated by the sign of a finished literal.
unfoldable pub lit_holds : {D : Type 0} → Reading D → Lit D → Bool
lit_holds m l = if l.is_temporary then eval m l.atom else elim l.sign [
  | assigned_true ↦ eval m l.atom
  | assigned_false ↦ (if eval m l.atom then false else true)
  | unassigned ↦ false
]

module _ {D : Type 0} (m : Reading D) (h : Heap D) where
  unfoldable pub any_lit : List ℕ → Bool
  any_lit [] = false
  any_lit (q ∷ qs) = lit_holds m (h q) || any_lit qs

  -- A clause holds if one of its literals does, or if it is marked tautologic.
  unfoldable pub clause_holds : Clause → Bool
  clause_holds c = c.is_tautologic || any_lit c.literals
