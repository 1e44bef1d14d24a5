-- ===== src/Sat/Decide.antt =====
-- constraintsolver/src/Decider.cpp: Decider::decideVariableCountBased.
pub mod Search
pub mod State
pub mod Settled
pub mod Activity
pub mod Range
pub mod Correct
use supplementary.Base.{
  ℕ, zero, suc, ◌+◌, Bool, true, false, not, ◌||◌, ◌&&◌, Option, none, some, List, [], ◌∷◌, ◌++◌,
  length, ltb, update, if◌then◌else◌,
}
use supplementary.Cnf.Clause.{Assignment}
use supplementary.Sat.Solver.{Lit, Solver, is_unassigned, clear_reason}

-- minCount < variableCount, with the count of the best literal so far. A count of -1 beats nothing.
unfoldable pub beats : Option ℕ → Option Lit → Bool
beats none best = false
beats (some n) none = true
beats (some n) (some k) = elim k.variable_count [ none ↦ true | some m ↦ ltb m n ]

-- The loop over the watchers of a variable.
unfoldable pub scan_watchers : Solver → List ℕ → Option Lit → Option Lit
unfolding beats
scan_watchers s [] best = best
scan_watchers s (w ∷ ws) best = scan_watchers s ws (
    if not (s.satisfied (s.owner w)) && beats (s.watched w).variable_count best
    then some (s.watched w)
    else best)

-- The loop over the first `n` variables.
unfoldable pub scan_variables : Solver → ℕ → Option Lit
unfolding is_unassigned
scan_variables s zero = none
scan_variables s (suc n) =
    let best : Option Lit = scan_variables s n in
    if is_unassigned s n then scan_watchers s (s.lists (s.watch_list n)) best else best

-- A literal is decided at a new level.
unfoldable pub decide : Lit → Solver → Solver
unfolding clear_reason
decide l s = clear_reason l.var (record s {
  level = update s.level s.level_count (length s.decisions);
  level_count = suc s.level_count;
  decision_level = s.decision_level ++ s.level_count ∷ [];
  assignment = update s.assignment l.var l.sign;
  decisions = s.decisions ++ l.var ∷ [];
  var_level = update s.var_level l.var (some s.level_count);
})

unfoldable pub decide_found : Option Lit → Solver → Solver × Option ℕ
decide_found none s = (s, none)
decide_found (some l) s = (decide l s, some l.var)

unfoldable pub decide_variable_count_based : Solver → Solver × Option ℕ
unfolding decide_found
decide_variable_count_based s = decide_found (scan_variables s s.variables) s
