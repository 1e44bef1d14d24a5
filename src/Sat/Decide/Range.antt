-- ===== src/Sat/Decide/Range.antt =====
-- constraintsolver/src/Decider.cpp: Decider::decideRangeBased and litRangeCompare.
pub mod Cover
pub mod Sort
pub mod Correct
use supplementary.Base.{
  ℕ, zero, suc, Bool, true, false, ◌&&◌, Option, none, some, List, [], ◌∷◌, ◌++◌, if◌then◌else◌,
}
use supplementary.Cnf.Clause.{Assignment, assigned_true, same_sign}
use supplementary.Sat.Solver.{Lit, Solver, is_unassigned}
use supplementary.Sat.Decide.{decide_found}

-- The loop over the watchers of a variable, which ends when a literal of each sign was found.
unfoldable pub choose_watchers : Solver → Bool → Bool → List ℕ → List Lit
unfolding same_sign
choose_watchers s has_true has_false [] = []
choose_watchers s has_true has_false (w ∷ ws) =
    let skip : List Lit = choose_watchers s has_true has_false ws in
    let after_true : List Lit = choose_watchers s true has_false ws in
    let after_false : List Lit = choose_watchers s has_true true ws in
    if has_true && has_false
    then []
    else if s.satisfied (s.owner w)
    then skip
    else if same_sign (s.watched w).sign assigned_true
    then (if has_true then [] else s.watched w ∷ []) ++ after_true
    else (if has_false then [] else s.watched w ∷ []) ++ after_false

-- The loop over the first `n` variables.
unfoldable pub choices : Solver → ℕ → List Lit
unfolding is_unassigned choose_watchers
choices s zero = []
choices s (suc n) =
    choices s n
    ++ (if is_unassigned s n then choose_watchers s false false (s.lists (s.watch_list n)) else [])

abbrev pub last_choice : List Lit → Option Lit
last_choice [] = none
last_choice (l ∷ []) = some l
last_choice (l ∷ k ∷ ls) = last_choice (k ∷ ls)

-- The sizes of the ranges of a variable by the sign, real numbers, and the comparison of two of them.
module _ {D : Type 0} (range : ℕ → Assignment → D) (greater : D → D → Bool) where
  abbrev pub lit_range_compare : Lit → Lit → Bool
  lit_range_compare a b = greater (range a.var a.sign) (range b.var b.sign)

  -- std::stable_sort
  unfoldable pub insert : Lit → List Lit → List Lit
  insert l [] = l ∷ []
  insert l (k ∷ ls) =
      let rest : List Lit = insert l ls in if lit_range_compare k l then k ∷ rest else l ∷ k ∷ ls

  unfoldable pub stable_sort : List Lit → List Lit
  unfolding insert
  stable_sort [] = []
  stable_sort (l ∷ ls) = insert l (stable_sort ls)

  unfoldable pub decide_range_based : Solver → Solver × Option ℕ
  unfolding choices stable_sort decide_found
  decide_range_based s = decide_found (last_choice (stable_sort (choices s s.variables))) s
