-- ===== src/Sat/Clauses.antt =====
-- constraintsolver/src/CNSat.cpp: CNSat::addBasicClause, addSATClause, addTClause, preAddIUnitClause,
-- addIClause and init. The clause `c` is an object with its literals; `none` is an exception of `at`.
pub mod Watch
pub mod Added
use supplementary.Base.{
  ℕ, zero, suc, ◌+◌, ◌-◌, ◌==◌, Bool, true, false, not, ◌||◌, ◌&&◌, Option, none, some, List, [],
  ◌∷◌, ◌++◌, length, ltb, update, if◌then◌else◌,
}
use supplementary.Cnf.Clause.{Assignment, unassigned, same_sign}
use supplementary.Sat.Solver.{
  Lit, Solver, is_unassigned, lit_satisfied, clear_reason, new_watcher, drop,
}
use supplementary.Sat.Backtrack.{back_track}

-- The watchers of a clause on two of its literals.
unfoldable pub watch : ℕ → Lit → Lit → Solver → Solver
unfolding new_watcher
watch c l k s =
    let t : Solver = new_watcher k c (new_watcher l c s) in
    record t {
      first = update s.first c s.watcher_count;
      second = update s.second c (suc s.watcher_count);
    }

-- A variable takes the sign of a unit clause at level 0.
unfoldable pub assign_unit : ℕ → Assignment → ℕ → Solver → Solver
unfolding clear_reason
assign_unit v sign level s = clear_reason v (record s {
  assignment = update s.assignment v sign;
  var_level = update s.var_level v (some level);
})

unfoldable pub lock : ℕ → Solver → Solver
lock v s = record s { locked = update s.locked v true }

unfoldable pub add_basic_literals : ℕ → List Lit → Solver → Solver × Bool
unfolding assign_unit lock is_unassigned
add_basic_literals c [] s = (s, false)
add_basic_literals c (l ∷ k ∷ ks) s =
    let t : Solver = watch c l k s in (record t { clauses = s.clauses ++ c ∷ [] }, true)
add_basic_literals c (l ∷ []) s =
    if not (is_unassigned s l.var) && not (same_sign (s.assignment l.var) l.sign)
    then (s, false)
    else let t : Solver = lock l.var (assign_unit l.var l.sign 0 s) in
      (record t { decisions = s.decisions ++ l.var ∷ []; clauses = s.clauses ++ c ∷ [] }, true)

unfoldable pub add_basic_clause : ℕ → Solver → Solver × Bool
unfolding add_basic_literals
add_basic_clause c s = add_basic_literals c (s.literals c) s

unfoldable pub head : List ℕ → Option ℕ
head [] = none
head (x ∷ xs) = some x

abbrev pub last_lit : Lit → List Lit → Lit
last_lit l [] = l
last_lit l (k ∷ ks) = last_lit k ks

-- The last but one of the literals `l ∷ k ∷ ks`.
abbrev pub last_but_one : Lit → Lit → List Lit → Lit
last_but_one l k [] = l
last_but_one l k (j ∷ js) = last_but_one k j js

unfoldable pub insert_at : ℕ → ℕ → List ℕ → List ℕ
insert_at zero v xs = v ∷ xs
insert_at (suc n) v [] = v ∷ []
insert_at (suc n) v (x ∷ xs) = x ∷ insert_at n v xs

-- level++ of each level of the solver.
unfoldable pub shift_levels : List ℕ → (ℕ → ℕ) → ℕ → ℕ
shift_levels [] level = level
shift_levels (d ∷ ds) level = shift_levels ds (update level d (suc (level d)))

-- A unit clause at the place `i` of the trail, under every level.
unfoldable pub insert_unit : ℕ → Lit → Solver → Option Solver
unfolding head insert_at shift_levels assign_unit
insert_unit i l s = elim (head s.decision_level) [
  | none ↦ none
  | some d ↦
      let t : Solver = assign_unit l.var l.sign d s in
      some (record t {
        decisions = insert_at i l.var s.decisions;
        level = shift_levels s.decision_level s.level;
      })
]

abbrev locked_against : Solver → Lit → Bool
locked_against s l = s.locked l.var && not (same_sign l.sign (s.assignment l.var))

unfoldable pub add_sat_literals : ℕ → List Lit → Solver → Option (Solver × Bool)
unfolding insert_unit lock
add_sat_literals c [] s = none
add_sat_literals c (l ∷ k ∷ ks) s =
    let t : Solver = watch c l (last_lit k ks) s in
    some (record t { sat_clauses = s.sat_clauses ++ c ∷ [] }, true)
add_sat_literals c (l ∷ []) s =
    if locked_against s l
    then some (s, false)
    else elim (insert_unit (s.level 0) l s) [ none ↦ none | some t ↦ some (lock l.var t, true) ]

unfoldable pub add_sat_clause : ℕ → Solver → Option (Solver × Bool)
unfolding add_sat_literals
add_sat_clause c s = add_sat_literals c (s.literals c) s

-- backTrack(decisionLevel->at(0))
unfoldable pub back_to_start : Solver → Option Solver
unfolding head back_track
back_to_start s = elim (head s.decision_level) [ none ↦ none | some d ↦ back_track d s ]

unfoldable pub add_t_literals : ℕ → List Lit → Solver → Option (Solver × Bool)
unfolding insert_unit back_to_start
add_t_literals c [] s = none
add_t_literals c (l ∷ k ∷ ks) s =
    let t : Solver = watch c (last_but_one l k ks) (last_lit k ks) s in
    some (record t { t_clauses = s.t_clauses ++ c ∷ [] }, true)
add_t_literals c (l ∷ []) s =
    if locked_against s l then some (s, false) else elim (back_to_start s) [
      | none ↦ none
      | some t ↦ elim (insert_unit (t.level 0) l t) [ none ↦ none | some u ↦ some (u, true) ]
    ]

unfoldable pub add_t_clause : ℕ → Solver → Option (Solver × Bool)
unfolding add_t_literals
add_t_clause c s = add_t_literals c (s.literals c) s

unfoldable pub pre_add_i_unit_clause : ℕ → Assignment → Solver → Option (Solver × Bool)
unfolding assign_unit lock head is_unassigned
pre_add_i_unit_clause v ass s =
    if not (is_unassigned s v) && not (same_sign (s.assignment v) ass)
    then some (s, false)
    else elim (head s.decision_level) [
      | none ↦ none
      | some d ↦
          let t : Solver = lock v (assign_unit v ass d s) in
          some (
            record t {
              decisions = v ∷ s.decisions;
              level = update s.level d (suc (s.level d));
              unit_decisions = suc s.unit_decisions;
            },
            true,
          )
    ]

unfoldable pub add_i_literals : ℕ → List Lit → Solver → Option (Solver × Bool)
unfolding insert_unit lock back_to_start
add_i_literals c [] s = none
add_i_literals c (l ∷ k ∷ ks) s =
    let t : Solver = watch c l (last_lit k ks) s in
    some (record t { i_clauses = s.i_clauses ++ c ∷ [] }, true)
add_i_literals c (l ∷ []) s = elim (back_to_start s) [
  | none ↦ none
  | some t ↦ elim (insert_unit 0 l t) [
    | none ↦ none
    | some u ↦ some (lock l.var (record u { unit_decisions = suc u.unit_decisions }), true)
  ]
]

unfoldable pub add_i_clause : ℕ → Solver → Option (Solver × Bool)
unfolding add_i_literals
add_i_clause c s = add_i_literals c (s.literals c) s

-- The unit clauses among a list of clauses are satisfied.
unfoldable pub flag_units : (ℕ → List Lit) → List ℕ → (ℕ → Bool) → ℕ → Bool
flag_units literals [] f = f
flag_units literals (c ∷ cs) f =
    flag_units literals cs (if length (literals c) == 1 then update f c true else f)

unfoldable pub init : Solver → Solver
unfolding flag_units
init s = record s {
  unit_decisions = length s.decisions;
  decision_level = 0 ∷ [];
  level = update s.level 0 (length s.decisions);
  satisfied = flag_units s.literals s.clauses s.satisfied;
  recent_backtrack = false;
}
