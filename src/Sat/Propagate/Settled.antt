-- ===== src/Sat/Propagate/Settled.antt =====
-- constraintsolver/src/CNSat.cpp, CNSat::propagate: where it ends without a conflict, no open clause
-- watches a false literal.
pub mod Loops
use supplementary.Base.{
  ℕ, zero, suc, ◌+◌, ◌*◌, ◌<◌, ◌≤◌, ◌≡◌, ◌≢◌, ◌⊎◌, inl, inr, refl, sym, subst, ap, ◌∙◌, Bool, true,
  false, ◌||◌, Option, none, some, List, [], ◌∷◌, ◌++◌, length, In, All-In, Bool-cases,
  Option-cases, get_elem?, length-append, lt_or_eq, lt_or_ge, arith,
}
use supplementary.Cnf.Clause.{Assignment, unassigned, same_sign}
use supplementary.Sat.Solver.{Lit, Solver, is_unassigned, lit_satisfied}
use supplementary.Sat.Invariant.{IsWellFormed, IsKnown}
use supplementary.Sat.Order.{IsTrail}
use supplementary.Sat.Propagate.{
  Visit, next, again, conflicting, thrown, visit, Propagated, finished, conflict, failed,
  out_of_fuel, walk, sweep, propagate, start_place,
}
use supplementary.Sat.Propagate.After.{IsAfter}
use supplementary.Sat.Propagate.Outcomes.{Rests}
use supplementary.Sat.Propagate.Settle.{IsCalm, IsGentle, Settles, visit-Settles}

-- The variable of a watcher stands on the trail, from the place `i` on.
abbrev pub IsAhead : ℕ → Solver → ℕ → Type 0
IsAhead i s w = (j : ℕ) × (i ≤ j) × (get_elem? s.decisions j ≡ some (s.watched w).var)

-- What is left to do lies from the place `i` of the trail on.
abbrev pub IsSettledTo : ℕ → Solver → Type 0
IsSettledTo i s = (w : ℕ) → w < s.watcher_count → IsCalm s w ⊎ IsAhead i s w

abbrev pub IsSettled : Solver → Type 0
IsSettled s = (w : ℕ) → w < s.watcher_count → IsCalm s w

get-append : (xs ys : List ℕ) (j v : ℕ) → get_elem? xs j ≡ some v → get_elem? (xs ++ ys) j ≡ some v
get-append [] ys j v h = cc
get-append (x ∷ xs) ys zero v h = h
get-append (x ∷ xs) ys (suc j) v h = get-append xs ys j v h

get_new :
    (xs ys : List ℕ) (v : ℕ)
    → In v ys
    → (j : ℕ) × (length xs ≤ j) × (get_elem? (xs ++ ys) j ≡ some v)
get_new [] [] v h = absurd h
get_new [] (y ∷ ys) v (inl e) = (0, omega arith, ap some (sym e))
get_new [] (y ∷ ys) v (inr m) = let (j, le, e) = get_new [] ys v m in (suc j, omega arith, e)
get_new (x ∷ xs) ys v h = let (j, le, e) = get_new xs ys v h in (suc j, omega (arith, le), e)

pub get_none : (xs : List ℕ) (i j : ℕ) → get_elem? xs i ≡ none → i ≤ j → get_elem? xs j ≡ none
get_none [] i j h le = refl
get_none (x ∷ xs) zero j h le = cc
get_none (x ∷ xs) (suc i) zero h le = absurd (omega (arith, le))
get_none (x ∷ xs) (suc i) (suc j) h le = get_none xs i j h (omega (arith, le))

pub get_at : (xs : List ℕ) (x : ℕ) → In x xs → (j : ℕ) × (get_elem? xs j ≡ some x)
get_at [] x h = absurd h
get_at (y ∷ ys) x (inl e) = (0, ap some (sym e))
get_at (y ∷ ys) x (inr m) = let (j, e) = get_at ys x m in (suc j, e)

module _ (s t : Solver) (a : IsAfter s t) (g : IsGentle s t) where
  satisfied_kept :
      (l : Lit)
      → is_unassigned s l.var ≡ false
      → lit_satisfied s l ≡ true
      → lit_satisfied t l ≡ true
  unfolding lit_satisfied
  satisfied_kept l u h = rw (a.kept l.var u) h

  -- A literal that is not false stays so, or its variable is new on the trail.
  Rests-same :
      (x : ℕ) → t.watched x ≡ s.watched x → Rests s x → Rests t x ⊎ IsAhead (length s.decisions) t x
  Rests-same x e h = elim (Bool-cases (is_unassigned s (s.watched x).var)) [
    | inr u ↦
        let k : lit_satisfied t (s.watched x) ≡ true =
          satisfied_kept (s.watched x) u (ground (arith, u, h)) in
        inl (
          subst (λ l. (is_unassigned t l.var || lit_satisfied t l) ≡ true) (sym e)
            (ground (arith, k)))
    | inl u ↦ elim (Bool-cases (is_unassigned t (s.watched x).var)) [
      | inl v ↦ inl (
          subst (λ l. (is_unassigned t l.var || lit_satisfied t l) ≡ true) (sym e)
            (ground (arith, v)))
      | inr v ↦
          let (j, le, q) = get_new s.decisions a.new (s.watched x).var (a.new_all _ u v) in
          inr (j, le, ap (λ xs. get_elem? xs j) a.trail ∙ q ∙ ap (λ (l : Lit). some l.var) (sym e))
    ]
  ]

  flag_kept : (x : ℕ) → s.satisfied (s.owner x) ≡ true → t.satisfied (t.owner x) ≡ true
  flag_kept x h =
      subst (λ (f : ℕ → ℕ). t.satisfied (f x) ≡ true) (sym a.owner) (g.flags (s.owner x) h)

  pub IsCalm-kept : (x : ℕ) → IsCalm s x → IsCalm t x ⊎ IsAhead (length s.decisions) t x
  IsCalm-kept x (inl h) = inl (inl (flag_kept x h))
  IsCalm-kept x (inr h) = elim (g.watched x) [
    | inr k ↦ inl (inr k)
    | inl e ↦ elim (Rests-same x e h) [ inl k ↦ inl (inr k) | inr k ↦ inr k ]
  ]

  pub IsAhead-kept : (i x : ℕ) → IsAhead i s x → IsCalm t x ⊎ IsAhead i t x
  IsAhead-kept i x (j, le, q) = elim (g.watched x) [
    | inr k ↦ inl (inr k)
    | inl e ↦ inr (
      j,
      le,
      ap (λ xs. get_elem? xs j) a.trail
          ∙ get-append s.decisions a.new j (s.watched x).var q
          ∙ ap (λ (l : Lit). some l.var) (sym e),
    )
  ]
