-- ===== src/Sat/Propagate/Correct.antt =====
-- constraintsolver/src/CNSat.cpp, CNSat::propagate: its loops end, and what they return.
use supplementary.Base.{
  ℕ, zero, suc, ◌+◌, ◌*◌, ◌<◌, ◌≤◌, ◌≡◌, refl, sym, subst, ap, ◌∙◌, Bool, none, some, length, inl,
  inr, All-In, All-get, In, Option-cases, get_elem?, arith,
}
use supplementary.Cnf.Clause.{Assignment}
use supplementary.Sat.Solver.{Solver}
use supplementary.Sat.Invariant.{IsFalse, IsWellFormed, Fits, Models, Holds-IsFalse}
use supplementary.Sat.Propagate.{
  Propagated, finished, conflict, failed, out_of_fuel, walk, sweep, propagate, start_place,
}
use supplementary.Sat.Propagate.After.{IsAfter, quiet, open_count, Models-after}
use supplementary.Sat.Propagate.Outcomes.{IsConflict}
use supplementary.Sat.Propagate.Walk.{Propagates, Propagates-from, lt_of_get, walk_all}

module _ (f i : ℕ) (s : Solver) where
  pub sweep_end : get_elem? s.decisions i ≡ none → sweep (suc f) i s ≡ finished s
  unfolding sweep
  sweep_end e = ground (arith, e)

  abbrev pub walk_of : ℕ → Propagated
  walk_of v = walk (suc (2 * length (s.lists (s.watch_list v)))) (s.watch_list v) 0 s

  pub sweep_next :
      (v : ℕ) (t : Solver)
      → get_elem? s.decisions i ≡ some v
      → walk_of v ≡ finished t
      → sweep (suc f) i s ≡ sweep f (suc i) t
  unfolding sweep
  sweep_next v t e p = ground (arith, e, p)

  pub sweep_conflict :
      (v c : ℕ) (t : Solver)
      → get_elem? s.decisions i ≡ some v
      → walk_of v ≡ conflict c t
      → sweep (suc f) i s ≡ conflict c t
  unfolding sweep
  sweep_conflict v c t e p = ground (arith, e, p)

-- What is left to do: the decisions made, and those that propagation may still add.
abbrev work : Solver → ℕ
work s = length s.decisions + open_count s.assignment s.variables

after-work : (s t : Solver) → IsAfter s t → work t ≡ work s
after-work s t a = ap (λ n. length t.decisions + open_count t.assignment n) a.variables ∙ a.counted

sweep_case :
    (f i v : ℕ) (s : Solver)
    → get_elem? s.decisions i ≡ some v
    → (x : Propagated) → walk (suc (2 * length (s.lists (s.watch_list v)))) (s.watch_list v) 0 s ≡ x
    → Propagates s x
    → ((t : Solver) → IsWellFormed t → IsAfter s t → Propagates t (sweep f (suc i) t))
    → Propagates s (sweep (suc f) i s)
sweep_case f i v s e (finished t) p h g =
    subst (Propagates s) (sym (sweep_next f i s v t e p))
      (Propagates-from s t h.1 (sweep f (suc i) t) (g t h.0 h.1))
sweep_case f i v s e (conflict c t) p h g =
    subst (Propagates s) (sym (sweep_conflict f i s v c t e p)) h
sweep_case f i v s e failed p h g = elim h [ ]
sweep_case f i v s e out_of_fuel p h g = elim h [ ]

sweep_lem :
    (f i : ℕ) (s : Solver)
    → IsWellFormed s
    → 0 < f
    → suc (work s) ≤ f + i
    → Propagates s (sweep f i s)
sweep_lem zero i s wf h b = absurd (omega arith)
sweep_lem (suc f) i s wf h b = elim (Option-cases (get_elem? s.decisions i)) [
  | inl p ↦
      subst (Propagates s) (sym (sweep_end f i s p))
        (wf, quiet s s refl refl refl refl refl refl refl refl refl refl)
  | inr (v, p) ↦
      sweep_case f i v s p (walk (suc (2 * length (s.lists (s.watch_list v)))) (s.watch_list v) 0 s)
        refl (walk_all v s (All-get (λ x. x < s.variables) s.decisions i v wf.decided p) wf)
        (λ t wt a.
          sweep_lem f (suc i) t wt (omega (arith, lt_of_get s.decisions i v p, after-work s t a))
            (omega (arith, after-work s t a)))
]

open_count-le : (a : ℕ → Assignment) (n : ℕ) → open_count a n ≤ n
unfolding open_count
open_count-le a zero = omega arith
open_count-le a (suc n) = ground (arith, open_count-le a n)

-- In a well-formed solver propagate() ends with no exception. It leaves a well-formed solver whose
-- trail extends the one before by variables that were unassigned, with every assignment kept and each
-- new one implied by the clauses and the old ones; a clause that it returns is false.
pub propagate_correct : (s : Solver) → IsWellFormed s → Propagates s (propagate s)
unfolding propagate
propagate_correct s wf =
    sweep_lem (suc (length s.decisions + s.variables)) (start_place s) s wf (omega arith)
      (omega (arith, open_count-le s.assignment s.variables))

false_clause : (s : Solver) (c : ℕ) (m : ℕ → Bool) → IsConflict s c → Models m s → ¬ Fits m s
false_clause s c m (h, w, hw, e) ms f =
    let (l, i, t) = ms w hw in
    Holds-IsFalse m s l f
      (All-In (IsFalse s) (s.literals c) l h (subst (λ x. In l (s.literals x)) e i)) t

-- A clause that propagate() returns refutes the assignments it started from: no valuation that
-- satisfies the clauses agrees with them.
pub conflict_refutes :
    (s : Solver) (c : ℕ) (s' : Solver) (m : ℕ → Bool)
    → IsWellFormed s
    → propagate s ≡ conflict c s'
    → Models m s
    → ¬ Fits m s
conflict_refutes s c s' m wf e ms f =
    let h : Propagates s (conflict c s') = subst (Propagates s) e (propagate_correct s wf) in
    false_clause s' c m h.2 (Models-after s s' m h.1 ms) (h.1.implied m ms f)
