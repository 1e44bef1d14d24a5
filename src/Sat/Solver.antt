-- ===== src/Sat/Solver.antt =====
-- constraintsolver/src/CNSat.cpp with types/Var, types/Lit, types/Clause, types/Watcher and
-- types/DecisionLevel: the objects of the solver. Objects are numbered, a pointer is the number of
-- its object, and each field of a class is a function of the number.
use supplementary.Base.{
  ℕ, zero, suc, ◌==◌, Bool, true, false, ◌||◌, Option, none, some, List, [], ◌∷◌, ◌++◌, update,
  if◌then◌else◌,
}
use supplementary.Cnf.Clause.{Assignment, unassigned, same_sign}

-- What CNSat reads of a Lit. A count of -1, that is not computed, is `none`.
pub record Lit : Type 0 where
  pub var : ℕ
  pub sign : Assignment
  pub variable_count : Option ℕ

pub record Solver : Type 0 where
  -- CNSat
  pub variables : ℕ
  pub clauses : List ℕ
  pub sat_clauses : List ℕ
  pub t_clauses : List ℕ
  pub i_clauses : List ℕ
  pub decisions : List ℕ
  pub decision_level : List ℕ
  pub unit_decisions : ℕ
  pub recent_backtrack : Bool
  -- DecisionLevel
  pub level : ℕ → ℕ
  pub level_count : ℕ
  -- Var
  pub assignment : ℕ → Assignment
  pub locked : ℕ → Bool
  pub seen : ℕ → Bool
  pub reason : ℕ → Option ℕ
  pub var_level : ℕ → Option ℕ
  pub watch_list : ℕ → ℕ
  -- the vectors of watchers
  pub lists : ℕ → List ℕ
  pub list_count : ℕ
  -- Clause
  pub literals : ℕ → List Lit
  pub first : ℕ → ℕ
  pub second : ℕ → ℕ
  pub satisfied : ℕ → Bool
  pub activity : ℕ → ℕ
  pub last_mod_var : ℕ → Option ℕ
  -- Watcher
  pub watched : ℕ → Lit
  pub owner : ℕ → ℕ
  pub watcher_count : ℕ

unfoldable pub is_unassigned : Solver → ℕ → Bool
unfolding same_sign
is_unassigned s v = same_sign (s.assignment v) unassigned

-- Lit::satisfied
unfoldable pub lit_satisfied : Solver → Lit → Bool
unfolding same_sign
lit_satisfied s l = same_sign l.sign (s.assignment l.var)

unfoldable pub all_assigned : Solver → List Lit → Bool
unfolding is_unassigned
all_assigned s [] = true
all_assigned s (l ∷ ls) = if is_unassigned s l.var then false else all_assigned s ls

abbrev pub is_reason : Option ℕ → ℕ → Bool
is_reason none c = false
is_reason (some d) c = d == c

-- Var::setReason. It throws, `none`, when the reason is a new one with an unassigned literal.
unfoldable pub set_reason : ℕ → ℕ → Solver → Option Solver
unfolding all_assigned
set_reason v c s =
    if is_reason (s.reason v) c || all_assigned s (s.literals c)
    then some (record s { reason = update s.reason v (some c) })
    else none

-- Var::setReason(nullptr)
unfoldable pub clear_reason : ℕ → Solver → Solver
clear_reason v s = record s { reason = update s.reason v none }

abbrev pub last : List ℕ → Option ℕ
last [] = none
last (x ∷ []) = some x
last (x ∷ y ∷ ys) = last (y ∷ ys)

-- CNSat::newVar with Var::Var.
unfoldable pub new_var : Solver → Solver
new_var s = record s {
  variables = suc s.variables;
  assignment = update s.assignment s.variables unassigned;
  locked = update s.locked s.variables false;
  reason = update s.reason s.variables none;
  watch_list = update s.watch_list s.variables s.list_count;
  lists = update s.lists s.list_count [];
  list_count = suc s.list_count;
}

-- The first `n` elements; `none` is the exception of `at` where there are fewer.
unfoldable pub take : ℕ → List ℕ → Option (List ℕ)
take zero xs = some []
take (suc n) [] = none
take (suc n) (x ∷ xs) = elim (take n xs) [ none ↦ none | some ys ↦ some (x ∷ ys) ]

unfoldable pub drop : ℕ → List ℕ → List ℕ
drop zero xs = xs
drop (suc n) [] = []
drop (suc n) (x ∷ xs) = drop n xs

-- Watcher::Watcher
unfoldable pub new_watcher : Lit → ℕ → Solver → Solver
new_watcher l c s =
    let r : ℕ = s.watch_list l.var in
    record s {
      watched = update s.watched s.watcher_count l;
      owner = update s.owner s.watcher_count c;
      lists = update s.lists r (s.lists r ++ s.watcher_count ∷ []);
      watcher_count = suc s.watcher_count;
    }
