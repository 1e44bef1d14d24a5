-- ===== src/Sat/Decide/Correct.antt =====
-- constraintsolver/src/Decider.cpp: Decider::decideVariableCountBased as a whole.
use supplementary.Base.{
  ℕ, ◌<◌, ◌≤◌, ◌≡◌, inl, inr, false, All, All-map, Option-cases, refl, sym, subst, ap, ◌∙◌, true,
  Option, none, some, [], ◌∷◌, ◌++◌, All-In, arith,
}
use supplementary.Sat.Solver.{Lit, Solver, is_unassigned}
use supplementary.Sat.Invariant.{IsWellFormed, IsKnown}
use supplementary.Sat.Order.{IsTrail, IsGrounded}
use supplementary.Sat.Decide.{
  beats, decide, decide_found, decide_variable_count_based, scan_variables,
}
use supplementary.Sat.Decide.Search.{IsOpen, IsChoice, IsBeaten, AllBeaten, scan_variables_lem}
use supplementary.Sat.Decide.State.{
  decide_value, decide-IsWellFormed, decide-IsTrail, decide-IsGrounded,
}

-- A count is no larger than that of the literal that is chosen; one that is not computed is below any.
abbrev pub IsBelow : Option ℕ → Option Lit → Type 0
IsBelow none best = Unit {0}
IsBelow (some n) none = ⊥
IsBelow (some n) (some l) = (m : ℕ) × (l.variable_count ≡ some m) × (n ≤ m)

-- So are the counts of the watchers of `u`, if it is unassigned, whose clauses are not flagged.
abbrev pub AllBelow : Solver → Option Lit → ℕ → Type 0
AllBelow s best u =
    is_unassigned s u ≡ true
    → All (λ w. s.satisfied (s.owner w) ≡ false → IsBelow (s.watched w).variable_count best)
        (s.lists (s.watch_list u))

beats-none : (n : ℕ) → beats (some n) none ≡ false → ⊥
unfolding beats
beats-none n h = cc

beats-IsBelow : (a : Option ℕ) (best : Option Lit) → beats a best ≡ false → IsBelow a best
unfolding beats
beats-IsBelow none best h = tt
beats-IsBelow (some n) none h = beats-none n h
beats-IsBelow (some n) (some l) h = elim (Option-cases l.variable_count) [
  | inl e ↦ absurd (ground (arith, e, h))
  | inr (m, e) ↦ (m, e, ground (arith, e, h))
]

AllBeaten-AllBelow :
    (s : Solver) (best : Option Lit) (u : ℕ) → AllBeaten s best u → AllBelow s best u
AllBeaten-AllBelow s best u h e =
    All-map (IsBeaten s best)
      (λ w. s.satisfied (s.owner w) ≡ false → IsBelow (s.watched w).variable_count best)
      (s.lists (s.watch_list u)) (λ w k f. beats-IsBelow (s.watched w).variable_count best (k f))
      (h e)

-- The literal of the watcher `w` is decided, and no other that could be has a larger count.
pub record IsDecision (s : Solver) (v : ℕ) (s' : Solver) : Type 0 where
  pub well_formed : IsWellFormed s'
  pub on_trail : IsTrail s'
  pub grounded : IsGrounded s → IsGrounded s'
  pub watcher : ℕ
  pub chosen : IsOpen s watcher
  pub counted : (n : ℕ) × ((s.watched watcher).variable_count ≡ some n)
  pub variable : (s.watched watcher).var ≡ v
  pub value : s'.assignment v ≡ (s.watched watcher).sign
  pub trail : s'.decisions ≡ s.decisions ++ v ∷ []
  pub largest : (u : ℕ) → u < s.variables → AllBelow s (some (s.watched watcher)) u

abbrev pub Decides : Solver → Solver × Option ℕ → Type 0
Decides s (s', none) = (s' ≡ s) × ((u : ℕ) → u < s.variables → AllBelow s none u)
Decides s (s', some v) = IsDecision s v s'

decide_none :
    (s : Solver) → scan_variables s s.variables ≡ none → decide_variable_count_based s ≡ (s, none)
unfolding decide_variable_count_based
decide_none s e = ap (λ r. decide_found r s) e

decide-some :
    (s : Solver) (l : Lit)
    → scan_variables s s.variables ≡ some l
    → decide_variable_count_based s ≡ (decide l s, some l.var)
unfolding decide_variable_count_based
decide-some s l e = ap (λ r. decide_found r s) e

decide_trail : (s : Solver) (l : Lit) → (decide l s).decisions ≡ s.decisions ++ l.var ∷ []
unfolding decide
decide_trail s l = refl

Decides-by :
    (s : Solver) (r : Option Lit)
    → IsWellFormed s
    → IsTrail s
    → scan_variables s s.variables ≡ r
    → IsChoice s r
    → ((u : ℕ) → u < s.variables → AllBeaten s r u)
    → Decides s (decide_variable_count_based s)
Decides-by s none wf t e c b =
    subst (Decides s) (sym (decide_none s e)) (refl, λ v h. AllBeaten-AllBelow s none v (b v h))
Decides-by s (some l) wf t e c b =
    let (w, p, o, counted) = c in
    let z : IsKnown s.variables (s.watched w) =
      All-In (IsKnown s.variables) (s.literals (s.owner w)) (s.watched w) (wf.known w o.0)
        (wf.watches w o.0) in
    let k : IsKnown s.variables l = subst (IsKnown s.variables) p z in
    let u : is_unassigned s l.var ≡ true =
      subst (λ (j : Lit). is_unassigned s j.var ≡ true) p o.2 in
    subst (Decides s) (sym (decide-some s l e)) (record {
      well_formed = decide-IsWellFormed s l wf k u;
      on_trail = decide-IsTrail s l wf k u t;
      grounded = decide-IsGrounded s l wf k u t;
      watcher = w;
      chosen = o;
      counted = (counted.0, ap (λ (j : Lit). j.variable_count) p ∙ counted.1);
      variable = ap (λ (j : Lit). j.var) p;
      value = decide_value s l ∙ sym (ap (λ (j : Lit). j.sign) p);
      trail = decide_trail s l;
      largest = λ v h.
          AllBeaten-AllBelow s (some (s.watched w)) v
            (subst (λ (j : Lit). AllBeaten s (some j) v) (sym p) (b v h));
    })

-- The search decides the literal of an open watcher, one of a clause that is not flagged and of an
-- unassigned variable, whose count is computed and no other reaches beyond; it finds none only where
-- each open watcher's literal has no computed count. The solver stays well-formed, the trail in order,
-- and an implication graph one.
pub decide_variable_count_based_correct :
    (s : Solver) → IsWellFormed s → IsTrail s → Decides s (decide_variable_count_based s)
decide_variable_count_based_correct s wf t =
    let (c, b) = scan_variables_lem s s.variables wf (omega arith) in
    Decides-by s (scan_variables s s.variables) wf t refl c b
