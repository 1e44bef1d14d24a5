-- ===== src/Sat/Backtrack.antt =====
-- constraintsolver/src/CNSat.cpp, both CNSat::backTrack and CNSat::removeRangeOfDecisions.

pub mod Restore
pub mod Levels
pub mod Correct
use supplementary.Base.{
  ℕ, zero, suc, ◌+◌, ◌-◌, ◌==◌, Bool, true, false, ◌||◌, Option, none, some, List, [], ◌∷◌, ◌++◌,
  length, ltb, update, if◌then◌else◌,
}
use supplementary.Cnf.Clause.{unassigned}
use supplementary.Sat.Solver.{Lit, Solver, lit_satisfied, clear_reason, take, drop}

unfoldable pub remove_range_of_decisions : ℕ → ℕ → Solver → Option Solver
remove_range_of_decisions index count s = elim (take index s.decisions) [
  | none ↦ none
  | some ys ↦ some (record s { decisions = ys ++ drop (index + count) s.decisions })
]

-- One of the two watched literals of a clause is satisfied.
unfoldable pub watched_satisfied : Solver → ℕ → Bool
unfolding lit_satisfied
watched_satisfied s c =
    lit_satisfied s (s.watched (s.first c)) || lit_satisfied s (s.watched (s.second c))

-- The flags of the clauses of a list of watchers, computed again.
unfoldable pub refresh : (ℕ → ℕ) → (ℕ → Bool) → List ℕ → (ℕ → Bool) → ℕ → Bool
refresh owner value [] f = f
refresh owner value (w ∷ ws) f = refresh owner value ws (update f (owner w) (value (owner w)))

unfoldable pub unassign : ℕ → Solver → Solver
unfolding refresh watched_satisfied clear_reason
unassign v s =
    let s' : Solver = clear_reason v (record s { assignment = update s.assignment v unassigned }) in
    record s' {
      satisfied = refresh s.owner (watched_satisfied s') (s.lists (s.watch_list v)) s.satisfied;
    }

unfoldable pub unassign_all : List ℕ → Solver → Solver
unassign_all [] s = s
unassign_all (v ∷ vs) s = unassign_all vs (unassign v s)

-- The levels up to `db`, and the one after it.
unfoldable pub next_level : ℕ → List ℕ → Option (List ℕ × ℕ)
next_level db [] = none
next_level db (x ∷ []) = none
next_level db (x ∷ y ∷ ys) =
    if x == db
    then some (x ∷ [], y)
    else elim (next_level db (y ∷ ys)) [ none ↦ none | some (keep, d) ↦ some (x ∷ keep, d) ]

-- CNSat::backTrack(shared_ptr<DecisionLevel>)
unfoldable pub back_track : ℕ → Solver → Option Solver
back_track db s =
    let s' : Solver = record s { recent_backtrack = true } in
    elim (next_level db s.decision_level) [
      | none ↦ some s'
      | some (keep, d) ↦
          let i : ℕ = s.level d in
          let t : Solver = unassign_all (drop i s.decisions) s' in
          elim (remove_range_of_decisions i (length s.decisions - i) t) [
            | none ↦ none
            | some u ↦ some (record u { decision_level = keep })
          ]
    ]

-- The flags of the clauses of a list of watchers, reset.
unfoldable pub unflag : (ℕ → ℕ) → List ℕ → (ℕ → Bool) → ℕ → Bool
unflag owner [] f = f
unflag owner (w ∷ ws) f = unflag owner ws (update f (owner w) false)

unfoldable pub unlock : ℕ → Solver → Solver
unfolding unflag clear_reason
unlock v s =
    let s' : Solver = clear_reason v (record s { assignment = update s.assignment v unassigned }) in
    record s' {
      locked = update s.locked v false;
      satisfied = unflag s.owner (s.lists (s.watch_list v)) s.satisfied;
    }

unfoldable pub unlock_all : List ℕ → Solver → Solver
unlock_all [] s = s
unlock_all (v ∷ vs) s = unlock_all vs (unlock v s)

-- decisionLevel->at(1)->level = decission, with a new level where there is one at most.
unfoldable pub level_one : ℕ → Solver → Option Solver
level_one i s = elim s.decision_level [
  | [] ↦ none
  | x ∷ ds ↦ elim ds [
    | [] ↦
        some (record s { level = update s.level s.level_count i; level_count = suc s.level_count })
    | y ∷ ys ↦ some (record s { level = update s.level y i })
  ]
]

-- The levels above the first are given up, and decisionLevelNull, the object 0, takes the number of
-- decisions that are left.
unfoldable pub leave_levels : List ℕ → Solver → Solver
leave_levels levels s = record s {
  decision_level = elim levels [ [] ↦ [] | x ∷ ds ↦ x ∷ [] ];
  level = update s.level 0 (length s.decisions);
}

-- CNSat::backTrack(int), for a decision that is not negative.
unfoldable pub back_track_to : ℕ → Solver → Option Solver
unfolding level_one leave_levels
back_track_to i s = elim (level_one i (record s { recent_backtrack = true })) [
  | none ↦ none
  | some r ↦
      let t : Solver = unlock_all (drop i s.decisions) r in
      let u : Option Solver =
        (if ltb i (length s.decisions)
          then remove_range_of_decisions i (length s.decisions - i) t
          else some t) in
      elim u [ none ↦ none | some x ↦ some (leave_levels s.decision_level x) ]
]
