-- ===== src/Sat/Propagate/Unit.antt =====
-- constraintsolver/src/CNSat.cpp, CNSat::propagate: a clause with no literal left to watch.
use supplementary.Base.{
  ℕ, ◌==◌, ◌≡◌, ◌≢◌, refl, sym, subst, Bool, true, false, not, ◌&&◌, ◌||◌, none, some, List, [],
  ◌∷◌, inl, ◌⊎◌, inr, All, In, Bool-cases, arith,
}
use supplementary.Cnf.Clause.{Assignment, assigned_false, assigned_true, unassigned, same_sign}
use supplementary.Sat.Solver.{Lit, Solver, is_unassigned, lit_satisfied, all_assigned}
use supplementary.Sat.Invariant.{Fit, Fits, Holds, Says, IsFalse}
use supplementary.Sat.Propagate.{assign_lit, find_watch}

-- What a failed search says of the literals.
abbrev pub IsLeft : Solver → ℕ → Lit → Type 0
IsLeft s v l = (v ≡ l.var) ⊎ IsFalse s l

pub find_watch-none :
    (s : Solver) (v : ℕ) (ls : List Lit) → find_watch s v ls ≡ none → All (IsLeft s v) ls
unfolding find_watch
find_watch-none s v [] h = tt
find_watch-none s v (l ∷ ls) h = elim (Bool-cases (v == l.var)) [
  | inl e ↦ (inl (ground arith), find_watch-none s v ls (ground arith))
  | inr e ↦ (inr (ground arith), find_watch-none s v ls (ground arith))
]

pub find_watch-some :
    (s : Solver) (v : ℕ) (ls : List Lit) (l : Lit)
    → find_watch s v ls ≡ some l
    → In l ls × ((is_unassigned s l.var || lit_satisfied s l) ≡ true)
unfolding find_watch
find_watch-some s v [] l h = cc
find_watch-some s v (k ∷ ls) l h =
    elim (Bool-cases (not (v == k.var) && (is_unassigned s k.var || lit_satisfied s k))) [
      | inl e ↦
          let p : k ≡ l = ground arith in
          (
            inl (sym p),
            subst (λ (x : Lit). (is_unassigned s x.var || lit_satisfied s x) ≡ true) p
                (ground arith),
          )
      | inr e ↦
          let r : In l ls × ((is_unassigned s l.var || lit_satisfied s l) ≡ true) =
            find_watch-some s v ls l (ground arith) in
          (inr r.0, r.1)
    ]

Says-Fit_same : (a : Assignment) (b : Bool) → Says a b → Fit a b
Says-Fit_same assigned_true b h = h
Says-Fit_same assigned_false b h = h
Says-Fit_same unassigned b h = tt

pub proper : (a : Assignment) → a ≢ unassigned → same_sign a unassigned ≡ false
unfolding same_sign
proper assigned_true h = refl
proper assigned_false h = refl
proper unassigned h = absurd (h refl)

module _ (s : Solver) (k : Lit) (d c : ℕ) (sign : k.sign ≢ unassigned) where
  pub all-assign_lit :
      (ls : List Lit) → All (IsLeft s k.var) ls → all_assigned (assign_lit k d c s) ls ≡ true
  unfolding all_assigned assign_lit is_unassigned
  all-assign_lit [] h = refl
  all-assign_lit (l ∷ ls) (inl e, h) = ground (arith, proper k.sign sign, all-assign_lit ls h)
  all-assign_lit (l ∷ ls) (inr e, h) = ground (arith, proper k.sign sign, all-assign_lit ls h)

  pub Fits-assign_lit : (m : ℕ → Bool) → Holds m k → Fits m s → Fits m (assign_lit k d c s)
  unfolding assign_lit
  Fits-assign_lit m h f v = elim (Bool-cases (v == k.var)) [
    | inl e ↦
        let q : v ≡ k.var = ground arith in
        rw e (subst (λ x. Fit k.sign (m x)) (sym q) (Says-Fit_same k.sign (m k.var) h))
    | inr e ↦ rw e (f v)
  ]
