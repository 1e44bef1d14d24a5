-- ===== src/Sat/Decide/Activity.antt =====
-- constraintsolver/src/Decider.cpp: Decider::decideActivityBased, where the solver has a theory solver.
pub mod Correct
use supplementary.Base.{
  ℕ, zero, suc, ◌+◌, ◌%◌, ◌<◌, ◌≡◌, refl, sym, subst, ap, ◌∙◌, Bool, true, false, not, ◌&&◌, ◌||◌,
  Option, none, some, inl, inr, ◌⊎◌, List, [], ◌∷◌, ◌++◌, length, get_elem?, In, All-In, Bool-cases,
  Option-cases, if◌then◌else◌, arith, ◌≤◌, ◌-◌, lt_or_eq, lt_or_ge,
}
use native.Mathlib.Nat.{mod-eq_of_lt, add-mod_right}
use supplementary.Sat.Solver.{Lit, Solver, is_unassigned, lit_satisfied}
use supplementary.Sat.Invariant.{IsWellFormed, IsKnown}
use supplementary.Sat.Order.{IsTrail, IsGrounded}
use supplementary.Sat.Decide.{decide, decide_found}
use supplementary.Sat.Decide.State.{decide-IsWellFormed, decide-IsTrail, decide-IsGrounded}

-- literals->size() > 1
abbrev pub has_two : List Lit → Bool
has_two [] = false
has_two (l ∷ []) = false
has_two (l ∷ k ∷ ls) = true

-- The first of the two watched literals that is not satisfied, where the clause is open.
unfoldable pub pick : Solver → ℕ → Option Lit
unfolding lit_satisfied
pick s c =
    if not (s.satisfied c) && has_two (s.literals c)
    then if not (lit_satisfied s (s.watched (s.first c)))
      then some (s.watched (s.first c))
      else if not (lit_satisfied s (s.watched (s.second c)))
      then some (s.watched (s.second c))
      else none
    else none

abbrev pub or_else : Option Lit → Option Lit → Option Lit
or_else none o = o
or_else (some l) o = some l

abbrev pub pick_at : Solver → Option ℕ → Option Lit
pick_at s none = none
pick_at s (some c) = pick s c

-- The loop over the clauses, from the place `init` on and around, with `k` rounds to go. The index is in
-- range, as a remainder by the length.
unfoldable pub scan_clauses : Solver → ℕ → ℕ → ℕ → Option Lit
unfolding pick
scan_clauses s init zero i = none
scan_clauses s init (suc k) i =
    or_else (pick_at s (get_elem? s.clauses ((i + init) % length s.clauses)))
      (scan_clauses s init k (suc i))

-- `init` is what rand() makes of the number of clauses.
unfoldable pub decide_activity_based : ℕ → Solver → Solver × Option ℕ
unfolding scan_clauses decide_found
decide_activity_based init s = decide_found (scan_clauses s init (length s.clauses) 0) s
