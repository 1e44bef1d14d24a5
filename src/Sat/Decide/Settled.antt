-- ===== src/Sat/Decide/Settled.antt =====
-- constraintsolver/src/CNSat.cpp and src/Decider.cpp: a round of propagation and decision, of which each
-- leaves the trail settled up to where the next propagation starts.
use supplementary.Base.{
  ℕ, ◌≤◌, ◌==◌, ◌≡◌, ◌⊎◌, inl, inr, refl, sym, subst, ap, ◌∙◌, none, some, List, [], ◌∷◌, ◌++◌,
  length, Bool-cases, get_elem?, arith,
}
use supplementary.Sat.Solver.{Lit, Solver, is_unassigned, lit_satisfied, last}
use supplementary.Sat.Invariant.{IsWellFormed}
use supplementary.Sat.Order.{IsTrail}
use supplementary.Sat.Propagate.{propagate, finished, start_place}
use supplementary.Sat.Propagate.Settle.{IsCalm}
use supplementary.Sat.Propagate.Settled.{IsAhead, IsSettledTo, IsSettled, get_at}
use supplementary.Sat.Propagate.Settled.Loops.{propagate-IsSettled}
use supplementary.Sat.Propagate.Correct.{propagate_correct}
use supplementary.Sat.Propagate.Walk.{Propagates}
use supplementary.Sat.Decide.{decide}

last-append : (ds : List ℕ) (d : ℕ) → last (ds ++ d ∷ []) ≡ some d
last-append [] d = refl
last-append (x ∷ []) d = refl
last-append (x ∷ y ∷ ds) d = last-append (y ∷ ds) d

-- The place where propagation starts, from the levels.
abbrev place_by : Solver → List ℕ → ℕ
place_by s [] = 0
place_by s (x ∷ ds) = elim (last ds) [ none ↦ 0 | some d ↦ s.level d ]

start_place_by : (s : Solver) (ls : List ℕ) → s.decision_level ≡ ls → start_place s ≡ place_by s ls
unfolding start_place
start_place_by s [] e = ground (arith, e)
start_place_by s (x ∷ ds) e = rw e refl

start_place-decide :
    (s : Solver) (l : Lit) → IsWellFormed s → start_place (decide l s) ≡ length s.decisions
unfolding decide
start_place-decide s l wf =
    let (d, ds, e) = wf.levelled in
    start_place_by (decide l s) (d ∷ (ds ++ s.level_count ∷ []))
      (ap (λ ls. ls ++ s.level_count ∷ []) e)
    ∙ ground (arith, last-append ds s.level_count)

get-length : (xs : List ℕ) (v : ℕ) → get_elem? (xs ++ v ∷ []) (length xs) ≡ some v
get-length [] v = refl
get-length (x ∷ xs) v = get-length xs v

decide-IsCalm :
    (s : Solver) (l : Lit) (x : ℕ)
    → IsCalm s x
    → IsCalm (decide l s) x ⊎ IsAhead (length s.decisions) (decide l s) x
unfolding decide is_unassigned lit_satisfied
decide-IsCalm s l x (inl h) = inl (inl h)
decide-IsCalm s l x (inr h) = elim (Bool-cases ((s.watched x).var == l.var)) [
  | inl e ↦
      let q : l.var ≡ (s.watched x).var = ground (arith, e) in
      inr (length s.decisions, omega arith, get-length s.decisions l.var ∙ ap some q)
  | inr e ↦ inl (inr (ground (arith, e, h)))
]

pub decide-IsSettledTo :
    (s : Solver) (l : Lit)
    → IsWellFormed s
    → IsSettled s
    → IsSettledTo (start_place (decide l s)) (decide l s)
unfolding decide
decide-IsSettledTo s l wf h =
    subst (λ n. IsSettledTo n (decide l s)) (sym (start_place-decide s l wf))
      (λ x hx. decide-IsCalm s l x (h x hx))

-- At level 0 propagation starts at the first place, and the whole trail is ahead.
pub first-IsSettledTo :
    (s : Solver) (d : ℕ) → s.decision_level ≡ d ∷ [] → IsTrail s → IsSettledTo (start_place s) s
first-IsSettledTo s d e t x hx = elim (Bool-cases (is_unassigned s (s.watched x).var)) [
  | inl u ↦ inl (inr (ground (arith, u)))
  | inr u ↦
      let (j, q) = get_at s.decisions (s.watched x).var (t.assigned_on (s.watched x).var u) in
      inr (j, subst (λ n. n ≤ j) (sym (start_place_by s (d ∷ []) e)) (omega arith), q)
]

-- If each watcher of a false literal and an open clause has its variable on the trail, at the place where
-- propagate() starts or later, and propagate() ends without a conflict, then no open clause watches
-- a false literal any more; and after any decision the first holds again, of the new level.
pub IsSettled-decide :
    (s t : Solver) (l : Lit)
    → IsWellFormed s
    → IsSettledTo (start_place s) s
    → propagate s ≡ finished t
    → IsSettled t × IsSettledTo (start_place (decide l t)) (decide l t)
IsSettled-decide s t l wf h e =
    let p : Propagates s (finished t) = subst (Propagates s) e (propagate_correct s wf) in
    let k : IsSettled t = propagate-IsSettled s t wf h e in (k, decide-IsSettledTo t l p.0 k)
