-- ===== src/Sat/Propagate/Outcomes.antt =====
-- constraintsolver/src/CNSat.cpp, CNSat::propagate: the outcomes of the visit of a watcher.
use supplementary.Base.{
  ℕ, ◌<◌, ◌≤◌, ◌≡◌, refl, true, ◌||◌, some, List, [], ◌∷◌, inl, inr, All, Bool-cases, update,
}
use supplementary.Cnf.Clause.{Assignment, assigned_false, assigned_true, unassigned, same_sign}
use supplementary.Sat.Solver.{
  Solver, is_unassigned, lit_satisfied, all_assigned, set_reason, last, is_reason,
}
use supplementary.Sat.Invariant.{IsFalse, IsWellFormed}
use supplementary.Sat.Propagate.{Visit, next, again, conflicting, thrown}
use supplementary.Sat.Propagate.After.{IsAfter}

-- What a visit keeps, the vector `r` included.
pub record IsKept (r : ℕ) (s s' : Solver) : Type 0 where
  pub well_formed : IsWellFormed s'
  pub after : IsAfter s s'
  pub list : s'.lists r ≡ s.lists r
  pub list_count : s.list_count ≤ s'.list_count

-- The watched literal of `w` is not false, so that a visit of `w` goes on.
abbrev pub Rests : Solver → ℕ → Type 0
Rests s w = (is_unassigned s (s.watched w).var || lit_satisfied s (s.watched w)) ≡ true

-- A clause of the solver that is false.
abbrev pub IsConflict : Solver → ℕ → Type 0
IsConflict s c = All (IsFalse s) (s.literals c) × (w : ℕ) × (w < s.watcher_count) × (s.owner w ≡ c)

abbrev pub Visited : ℕ → ℕ → Solver → Visit → Type 0
Visited r w s (next s') = IsKept r s s'
Visited r w s (again s') = IsKept r s s' × Rests s' w
Visited r w s (conflicting c s') = IsWellFormed s' × IsAfter s s' × IsConflict s' c
Visited r w s thrown = ⊥

pub set_reason-some :
    (v c : ℕ) (s : Solver)
    → all_assigned s (s.literals c) ≡ true
    → set_reason v c s ≡ some (record s { reason = update s.reason v (some c) })
unfolding set_reason
set_reason-some v c s h = elim (Bool-cases (is_reason (s.reason v) c)) [
  | inl e ↦ rw e
  | inr e ↦ rw (e, h)
]

pub last-some : (d : ℕ) (ds : List ℕ) → (e : ℕ) × (last (d ∷ ds) ≡ some e)
last-some d [] = (d, refl)
last-some d (e ∷ ds) = last-some e ds

pub same_sign-eq : (a : Assignment) → same_sign a unassigned ≡ true → a ≡ unassigned
unfolding same_sign
same_sign-eq assigned_true h = cc
same_sign-eq assigned_false h = cc
same_sign-eq unassigned h = refl

pub same_sign_refl : (a : Assignment) → same_sign a a ≡ true
unfolding same_sign
same_sign_refl assigned_true = refl
same_sign_refl assigned_false = refl
same_sign_refl unassigned = refl

pub some_inj : (a b : ℕ) → some a ≡ some b → a ≡ b
some_inj a b e = cc
