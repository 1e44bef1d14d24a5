-- ===== src/Sat/Tests.antt =====
-- Runs of CNSat on two variables with the clauses x0 or x1, and x0 or not x1.
use supplementary.Base.{
  ℕ, zero, suc, ◌≡◌, ◌≤◌, inl, inr, refl, sym, subst, length, ltb, Bool, true, false, none, some,
  List, [], ◌∷◌, arith,
}
use supplementary.Cnf.Clause.{Assignment, assigned_true, assigned_false, unassigned}
use supplementary.Sat.Solver.{Lit, Solver, lit_satisfied, is_unassigned}
use supplementary.Sat.Invariant.{IsWellFormed, IsKnown, Fits, Models}
use supplementary.Sat.Order.{IsTrail, IsGrounded}
use supplementary.Sat.Trail.{EndsIn, propagate-IsTrail, propagate-IsGrounded}
use supplementary.Sat.Propagate.{
  propagate, Propagated, conflict, finished, failed, out_of_fuel, sweep, walk, visit, start_place,
}
use supplementary.Sat.Propagate.Correct.{propagate_correct, conflict_refutes}
use supplementary.Sat.Propagate.Walk.{Propagates}
use supplementary.Sat.Backtrack.{back_track, next_level}
use supplementary.Sat.Backtrack.Correct.{IsBacktracked, back_track_correct}
use supplementary.Sat.Clauses.{watch, add_basic_clause, add_sat_clause, add_t_clause, add_i_clause}
use supplementary.Sat.Clauses.Added.{IsNew, Adds, add_clause_correct, add_basic_clause-IsWellFormed}
use supplementary.Sat.Decide.{decide, decide_found, decide_variable_count_based}
use supplementary.Sat.Decide.State.{decide-IsWellFormed, decide-IsTrail, decide-IsGrounded}
use supplementary.Sat.Propagate.Settled.{IsSettled, IsSettledTo}
use supplementary.Sat.Decide.Settled.{first-IsSettledTo, IsSettled-decide}
use supplementary.Sat.Decide.Activity.{scan_clauses, pick, decide_activity_based}
use supplementary.Sat.Decide.Activity.Correct.{
  IsWatcher, AreWatched, Picks, decide_activity_based_correct,
}
use supplementary.Sat.Decide.Range.{
  choices, choose_watchers, stable_sort, insert, decide_range_based,
}
use supplementary.Sat.Decide.Range.Correct.{Ranges, decide_range_based_correct}
use supplementary.Sat.Decide.Correct.{Decides, decide_variable_count_based_correct}

abbrev lit : ℕ → Assignment → Lit
lit v a = record { var = v; sign = a; variable_count = some 1 }

abbrev clause_literals : ℕ → List Lit
clause_literals zero = lit 0 assigned_true ∷ lit 1 assigned_true ∷ []
clause_literals (suc c) = lit 0 assigned_true ∷ lit 1 assigned_false ∷ []

abbrev empty : Solver
empty = record {
  variables = 2;
  clauses = [];
  sat_clauses = [];
  t_clauses = [];
  i_clauses = [];
  decisions = [];
  decision_level = 0 ∷ [];
  unit_decisions = 0;
  recent_backtrack = false;
  level = λ _. 0;
  level_count = 1;
  assignment = λ _. unassigned;
  locked = λ _. false;
  seen = λ _. false;
  reason = λ _. none;
  var_level = λ _. none;
  watch_list = λ v. v;
  lists = λ _. [];
  list_count = 2;
  literals = clause_literals;
  first = λ _. 0;
  second = λ _. 0;
  satisfied = λ _. false;
  activity = λ _. 0;
  last_mod_var = λ _. none;
  watched = λ _. lit 0 assigned_true;
  owner = λ _. 0;
  watcher_count = 0;
}

empty-IsWellFormed : IsWellFormed empty
empty-IsWellFormed = record {
  list_known = λ v h. h;
  list_own = λ u v h k e. e;
  listed = λ v h. tt;
  watches = λ w h. elim h [ ];
  known = λ w h. elim h [ ];
  apart = λ w h. elim h [ ];
  paired = λ w h. elim h [ ];
  ends = λ w h. elim h [ ];
  placed = λ w h. elim h [ ];
  flagged = λ w h. elim h [ ];
  levelled = (0, [], refl);
  decided = tt;
}

abbrev one : Solver
one = (add_basic_clause 0 empty).0

abbrev two : Solver
two = (add_basic_clause 1 one).0

empty-IsNew : IsNew 0 (lit 0 assigned_true) (lit 1 assigned_true) [] empty
empty-IsNew = record {
  literals = refl;
  unwatched = λ w h. elim h [ ];
  known = ((omega arith, λ e. cc), ((omega arith, λ e. cc), tt));
  apart = (((λ (e : 1 ≡ 0). omega arith), tt), (tt, tt));
  unflagged = refl;
}

one-IsNew : IsNew 1 (lit 0 assigned_true) (lit 1 assigned_false) [] one
unfolding add_basic_clause watch
one-IsNew = record {
  literals = refl;
  unwatched = λ w h. ground arith;
  known = ((omega arith, λ e. cc), ((omega arith, λ e. cc), tt));
  apart = (((λ (e : 1 ≡ 0). omega arith), tt), (tt, tt));
  unflagged = refl;
}

one-IsWellFormed : IsWellFormed one
one-IsWellFormed =
    add_basic_clause-IsWellFormed 0 (lit 0 assigned_true) (lit 1 assigned_true) [] empty
      empty-IsWellFormed empty-IsNew

two-IsWellFormed : IsWellFormed two
two-IsWellFormed =
    add_basic_clause-IsWellFormed 1 (lit 0 assigned_true) (lit 1 assigned_false) [] one
      one-IsWellFormed one-IsNew

two-IsTrail : IsTrail two
unfolding add_basic_clause watch is_unassigned
two-IsTrail = record {
  assigned_on = λ v h. absurd (ground (arith, h));
  on_assigned = tt;
  once = tt;
  bounded = (omega arith, tt);
  allocated = (omega arith, tt);
  ascending = (tt, tt);
}

abbrev decided : Solver
decided = decide (lit 0 assigned_false) two

lit-IsKnown : IsKnown 2 (lit 0 assigned_false)
lit-IsKnown = (omega arith, λ e. cc)

decided-IsWellFormed : IsWellFormed decided
unfolding add_basic_clause watch is_unassigned
decided-IsWellFormed =
    decide-IsWellFormed two (lit 0 assigned_false) two-IsWellFormed lit-IsKnown refl

decided-IsTrail : IsTrail decided
unfolding add_basic_clause watch is_unassigned
decided-IsTrail =
    decide-IsTrail two (lit 0 assigned_false) two-IsWellFormed lit-IsKnown refl two-IsTrail

propagate_correct_example : Propagates decided (propagate decided)
propagate_correct_example = propagate_correct decided decided-IsWellFormed

propagate-IsTrail_example : EndsIn IsTrail (propagate decided)
propagate-IsTrail_example = propagate-IsTrail decided decided-IsWellFormed decided-IsTrail

two-IsGrounded : IsGrounded two
unfolding add_basic_clause watch is_unassigned
two-IsGrounded = record { unreasoned = λ v h. refl; based = λ v c xs ys e h. cc }

decided-IsGrounded : IsGrounded decided
unfolding add_basic_clause watch is_unassigned
decided-IsGrounded =
    decide-IsGrounded two (lit 0 assigned_false) two-IsWellFormed lit-IsKnown refl two-IsTrail
      two-IsGrounded

propagate-IsGrounded_example : EndsIn IsGrounded (propagate decided)
propagate-IsGrounded_example =
    propagate-IsGrounded decided decided-IsWellFormed decided-IsTrail decided-IsGrounded

abbrev left_state : Propagated → Solver
left_state (finished s) = s
left_state (conflict c s) = s
left_state failed = empty
left_state out_of_fuel = empty

-- x0 is decided to be false: the first clause implies x1, and the second is false.
decided_conflict : propagate decided ≡ conflict 1 (left_state (propagate decided))
unfolding propagate sweep walk visit start_place decide add_basic_clause watch is_unassigned
decided_conflict = refl

abbrev both : ℕ → Bool
both v = true

both-Models : Models both decided
unfolding decide add_basic_clause watch
both-Models zero h = (lit 0 assigned_true, inl refl, refl)
both-Models (suc zero) h = (lit 0 assigned_true, inl refl, refl)
both-Models (suc (suc zero)) h = (lit 0 assigned_true, inl refl, refl)
both-Models (suc (suc (suc zero))) h = (lit 0 assigned_true, inl refl, refl)
both-Models (suc (suc (suc (suc w)))) h = absurd (omega (arith, h))

conflict_refutes_example : ¬ Fits both decided
conflict_refutes_example =
    conflict_refutes decided 1 (left_state (propagate decided)) both decided-IsWellFormed
      decided_conflict both-Models

back_track_correct_example :
    (s' : Solver) × (back_track 0 decided ≡ some s') × IsBacktracked decided (0 ∷ []) 1 s'
unfolding decide add_basic_clause watch next_level
back_track_correct_example =
    back_track_correct 0 decided (0 ∷ []) 1 decided-IsWellFormed decided-IsTrail refl

add_clause_correct_example :
    Adds (λ t. t.clauses) 1 one (some (add_basic_clause 1 one))
    × Adds (λ t. t.sat_clauses) 1 one (add_sat_clause 1 one)
    × Adds (λ t. t.t_clauses) 1 one (add_t_clause 1 one)
    × Adds (λ t. t.i_clauses) 1 one (add_i_clause 1 one)
add_clause_correct_example =
    add_clause_correct 1 (lit 0 assigned_true) (lit 1 assigned_false) [] one one-IsWellFormed
      one-IsNew

decide_variable_count_based_correct_example : Decides two (decide_variable_count_based two)
decide_variable_count_based_correct_example =
    decide_variable_count_based_correct two two-IsWellFormed two-IsTrail

clauses_two : 1 ≤ length two.clauses
unfolding add_basic_clause watch
clauses_two = omega arith

abbrev BothWatch : ℕ → Type 0
BothWatch c = IsWatcher two c (two.first c) × IsWatcher two c (two.second c)

two-AreWatched : AreWatched two
unfolding add_basic_clause watch
two-AreWatched c (inl e) t = subst BothWatch (sym e) ((omega arith, refl), (omega arith, refl))
two-AreWatched c (inr (inl e)) t =
    subst BothWatch (sym e) ((omega arith, refl), (omega arith, refl))
two-AreWatched c (inr (inr e)) t = elim e [ ]

two_settled : IsSettledTo (start_place two) two
unfolding add_basic_clause watch
two_settled = first-IsSettledTo two 0 refl two-IsTrail

propagate-two : propagate two ≡ finished two
unfolding propagate sweep start_place add_basic_clause watch
propagate-two = refl

decide_activity_based_correct_example : Picks two (decide_activity_based 1 two)
decide_activity_based_correct_example =
    decide_activity_based_correct 1 two two two-IsWellFormed two-IsTrail two_settled propagate-two
      two-AreWatched clauses_two

-- x0 is decided to be true, which satisfies both clauses.
abbrev agreed : Solver
agreed = decide (lit 0 assigned_true) two

agreed-IsWellFormed : IsWellFormed agreed
unfolding add_basic_clause watch is_unassigned
agreed-IsWellFormed =
    decide-IsWellFormed two (lit 0 assigned_true) two-IsWellFormed (omega arith, λ e. cc) refl

agreed_settled : IsSettledTo (start_place agreed) agreed
agreed_settled =
    (IsSettled-decide two two (lit 0 assigned_true) two-IsWellFormed two_settled propagate-two).1

abbrev agreed_after : Solver
agreed_after = left_state (propagate agreed)

agreed_finished : propagate agreed ≡ finished agreed_after
unfolding propagate sweep walk visit start_place decide add_basic_clause watch is_unassigned
agreed_finished = refl

IsSettled-decide_example :
    IsSettled agreed_after
    × IsSettledTo
        (start_place (decide (lit 1 assigned_true) agreed_after))
        (decide (lit 1 assigned_true) agreed_after)
IsSettled-decide_example =
    IsSettled-decide agreed agreed_after (lit 1 assigned_true) agreed-IsWellFormed agreed_settled
      agreed_finished

-- From the second clause on, its first watched literal is the one decided.
decided_second : (decide_activity_based 1 two).1 ≡ some 0
unfolding decide_activity_based scan_clauses pick decide_found lit_satisfied add_basic_clause watch
decided_second = refl

-- Each variable's number stands for the size of its range.
abbrev size : ℕ → Assignment → ℕ
size v a = v

abbrev above : ℕ → ℕ → Bool
above a b = ltb b a

above_asym : (a b : ℕ) → above a b ≡ true → above b a ≡ false
above_asym a b h = ground arith

above_chain : (a b c : ℕ) → above a b ≡ false → above b c ≡ false → above a c ≡ false
above_chain a b c h k = ground arith

decide_range_based_correct_example :
    Ranges size above above_asym above_chain two (decide_range_based size above two)
decide_range_based_correct_example =
    decide_range_based_correct size above above_asym above_chain two two-IsWellFormed two-IsTrail

-- The variable of the smaller range is decided.
decided_smallest : (decide_range_based size above two).1 ≡ some 0
unfolding decide_range_based choices choose_watchers stable_sort insert decide_found is_unassigned
    add_basic_clause watch
decided_smallest = ground arith
