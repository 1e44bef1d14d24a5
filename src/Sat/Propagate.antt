-- ===== src/Sat/Propagate.antt =====
-- constraintsolver/src/CNSat.cpp, CNSat::propagate: unit propagation over the watch lists.
pub mod Move
pub mod Walk
pub mod Settle
pub mod Settled
pub mod Correct
pub mod Visits
pub mod Outcomes
pub mod Imply
pub mod Unit
pub mod After
use supplementary.Base.{
  ℕ, zero, suc, ◌+◌, ◌*◌, ◌==◌, Bool, true, false, not, ◌||◌, ◌&&◌, Option, none, some, List, [],
  ◌∷◌, ◌++◌, length, get_elem?, update, if◌then◌else◌,
}
use supplementary.Cnf.Clause.{assigned_true, unassigned}
use supplementary.Sat.Solver.{
  Lit, Solver, is_unassigned, lit_satisfied, set_reason, last, all_assigned,
}

-- clause->satisfied = true
unfoldable pub mark : ℕ → Solver → Solver
mark c s = record s { satisfied = update s.satisfied c true }

-- The search of a new literal to watch, other than one of the variable `v`.
unfoldable pub find_watch : Solver → ℕ → List Lit → Option Lit
unfolding is_unassigned lit_satisfied
find_watch s v [] = none
find_watch s v (l ∷ ls) =
    if not (v == l.var) && (is_unassigned s l.var || lit_satisfied s l)
    then some l
    else find_watch s v ls

unfoldable pub without : ℕ → List ℕ → List ℕ
without w [] = []
without w (x ∷ xs) = if x == w then without w xs else x ∷ without w xs

-- The watcher `w` leaves a copy of its variable's list, which takes the place of the list, and watches `l`.
unfoldable pub move_watcher : ℕ → Lit → Solver → Solver
unfolding without lit_satisfied
move_watcher w l s =
    let v : ℕ = (s.watched w).var in
    let refs : ℕ → ℕ = update s.watch_list v s.list_count in
    let lists : ℕ → List ℕ = update s.lists s.list_count (without w (s.lists (s.watch_list v))) in
    record s {
      watch_list = refs;
      list_count = suc s.list_count;
      watched = update s.watched w l;
      lists = update lists (refs l.var) (lists (refs l.var) ++ w ∷ []);
      satisfied = if lit_satisfied s l then update s.satisfied (s.owner w) true else s.satisfied;
    }

-- lastModVar of the clauses that a list of watchers watches.
unfoldable pub touch : ℕ → List ℕ → (ℕ → ℕ) → (ℕ → Option ℕ) → ℕ → Option ℕ
touch v [] owner f = f
touch v (w ∷ ws) owner f = touch v ws owner (update f (owner w) (some v))

-- The end of a visit: the next watcher, the same place again, a conflict, or an exception.
pub data Visit : Type 0 where
  next : Solver → Visit
  again : Solver → Visit
  conflicting : ℕ → Solver → Visit
  thrown : Visit

-- The other watched literal is assigned to satisfy it.
unfoldable pub assign_lit : Lit → ℕ → ℕ → Solver → Solver
unfolding mark
assign_lit l d c s =
    let s' : Solver = mark c s in
    record s' {
      assignment = update s.assignment l.var l.sign;
      var_level = update s.var_level l.var (some d);
      decisions = s.decisions ++ l.var ∷ [];
    }

unfoldable pub imply : ℕ → ℕ → Solver → Visit
unfolding is_unassigned assign_lit set_reason touch
imply c other s =
    let l : Lit = s.watched other in
    if is_unassigned s l.var
    then elim (last s.decision_level) [
      | none ↦ thrown
      | some d ↦ elim (set_reason l.var c (assign_lit l d (s.owner other) s)) [
        | none ↦ thrown
        | some s' ↦ next (record s' {
          last_mod_var = touch l.var (s'.lists (s'.watch_list l.var)) s'.owner s'.last_mod_var;
        })
      ]
    ]
    else conflicting c s

-- c->activity++
unfoldable pub bump : ℕ → Solver → Solver
bump c s = record s { activity = update s.activity c (suc (s.activity c)) }

unfoldable pub other_watcher : Solver → ℕ → ℕ
other_watcher s w = let c : ℕ = s.owner w in if s.first c == w then s.second c else s.first c

-- No watched literal is satisfied and that of `w` is false: another is watched, or the clause is unit.
unfoldable pub rewatch : ℕ → Solver → Visit
unfolding other_watcher find_watch move_watcher imply bump
rewatch w s =
    let c : ℕ = s.owner w in
    let other : ℕ = other_watcher s w in
    elim (find_watch s (s.watched other).var (s.literals c)) [
      | some l ↦ again (move_watcher w l s)
      | none ↦ imply c other (bump c s)
    ]

unfoldable pub visit : ℕ → Solver → Visit
unfolding is_unassigned lit_satisfied mark other_watcher rewatch
visit w s =
    let c : ℕ = s.owner w in
    if s.satisfied c
    then next s
    else if lit_satisfied s (s.watched w)
    then next (mark c s)
    else if is_unassigned s (s.watched w).var
    then next s
    else if lit_satisfied s (s.watched (other_watcher s w))
    then next (mark c s)
    else rewatch w s

pub data Propagated : Type 0 where
  finished : Solver → Propagated
  conflict : ℕ → Solver → Propagated
  failed : Propagated
  out_of_fuel : Propagated

-- The loop over the vector `r` of watchers, from its place `j` on.
unfoldable pub walk : ℕ → ℕ → ℕ → Solver → Propagated
walk zero r j s = out_of_fuel
walk (suc fuel) r j s = elim (get_elem? (s.lists r) j) [
  | none ↦ finished s
  | some w ↦ elim (visit w s) [
    | next s' ↦ walk fuel r (suc j) s'
    | again s' ↦ walk fuel r j s'
    | conflicting c s' ↦ conflict c s'
    | thrown ↦ failed
  ]
]

-- The loop over the decisions, from the place `i` on.
unfoldable pub sweep : ℕ → ℕ → Solver → Propagated
sweep zero i s = out_of_fuel
sweep (suc fuel) i s = elim (get_elem? s.decisions i) [
  | none ↦ finished s
  | some v ↦ elim (walk (suc (2 * length (s.lists (s.watch_list v)))) (s.watch_list v) 0 s) [
    | finished s' ↦ sweep fuel (suc i) s'
    | conflict c s' ↦ conflict c s'
    | failed ↦ failed
    | out_of_fuel ↦ out_of_fuel
  ]
]

-- The place where propagate() starts: that of the last level, or 0 where only level 0 is there.
unfoldable pub start_place : Solver → ℕ
start_place s = elim s.decision_level [
  | [] ↦ 0
  | x ∷ ds ↦ elim (last ds) [ none ↦ 0 | some d ↦ s.level d ]
]

-- CNSat::propagate
unfoldable pub propagate : Solver → Propagated
propagate s = sweep (suc (length s.decisions + s.variables)) (start_place s) s
