-- ===== src/Cnf/Transform/Visit.antt =====
-- One round of doTransform, and lists of clauses under a change of the heap.
use supplementary.Base.{
  ℕ, ◌+◌, ◌<◌, ◌≤◌, ◌≡◌, refl, subst, Bool, true, false, ◌&&◌, Option, none, some, List, arith,
}
use supplementary.Cnf.Formula.{Reading}
use supplementary.Cnf.Clause.{Clause, clause_holds}
use supplementary.Cnf.Clause.Distinct.{IsClause}
use supplementary.Cnf.Transform.Keeps.{Keeps}
use supplementary.Cnf.Transform.Invariant.{IsState}
use supplementary.Cnf.Transform.Steps.{OptClause, weight, opt_weight}
use supplementary.Cnf.Transform.Steps.{OptUnfinished, opt_holds}
use supplementary.Cnf.Transform.Correct.{Steps, step_formula-Steps}
use supplementary.Cnf.Transform.Loop.{Finished, IsSplit, Splits, take_temporary-Splits}
use supplementary.Cnf.Transform.{
  State, Step, Outcome, done, thrown, out_of_fuel, perform_step, take_temporary, Round, passed,
  replaced, visit,
}

-- What a round that replaces the clause `c` gives.
pub record IsRound {D : Type 0} (m : Reading D) (c : Clause) (s t : State D)
    (nc1 nc2 : Option Clause) : Type 0 where
  pub value : ℕ → Bool
  pub state : IsState m value t
  pub keeps : Keeps m s.next_lit s.lits t.lits
  pub grows : s.next_lit ≤ t.next_lit
  pub first : OptClause t.lits t.next_lit nc1
  pub second : OptClause t.lits t.next_lit nc2
  pub meaning : (opt_holds m t.lits nc1 && opt_holds m t.lits nc2) ≡ clause_holds m s.lits c
  pub smaller : opt_weight t.lits nc1 + opt_weight t.lits nc2 < weight s.lits c
  pub unfinished : OptUnfinished nc1 × OptUnfinished nc2

abbrev pub Visits : {D : Type 0} → Reading D → Clause → State D → Round D → Type 0
Visits m c s (passed d) =
    (d.is_finished ≡ true)
    × (d.literals ≡ c.literals)
    × Finished s.lits d.literals
    × (clause_holds m s.lits d ≡ clause_holds m s.lits c)
Visits m c s (replaced (done (t, nc1, nc2))) = IsRound m c s t nc1 nc2
Visits m c s (replaced _) = ⊥

module _ {D : Type 0} (m : Reading D) (value : ℕ → Bool) (c : Clause) (s : State D)
    (v : IsState m value s) (known : IsClause s.lits s.next_lit c)
    (open_clause : c.is_finished ≡ false) where
  rest_clause : List ℕ → Clause
  rest_clause rest = record c { literals = rest }

  Visits-step :
      (r : ℕ) (rest : List ℕ) (w : IsSplit m s.lits s.next_lit c.literals r rest)
      (o : Outcome (Step D))
      → Steps m (s.lits r).atom (rest_clause rest) s o
      → Visits m c s (replaced o)
  unfolding rest_clause weight clause_holds
  Visits-step r rest w (done (t, nc1, nc2)) i = record {
    value = i.value;
    state = i.state;
    keeps = i.keeps;
    grows = i.grows;
    first = i.first;
    second = i.second;
    meaning = ground (arith, i.meaning, w.meaning);
    smaller = ground (arith, i.smaller, w.parts);
    unfinished = i.unfinished open_clause;
  }
  Visits-step r rest w thrown i = absurd i
  Visits-step r rest w out_of_fuel i = absurd i

  Visits-split :
      (o : Option (ℕ × List ℕ))
      → Splits m s.lits s.next_lit c.literals o
      → Visits m c s (elim o [
        | none ↦ passed (record c { is_finished = true })
        | some (r, rest) ↦ replaced (perform_step m.nonpositive r (record c { literals = rest }) s)
      ])
  unfolding perform_step clause_holds rest_clause
  Visits-split none w = (refl, refl, w, refl)
  Visits-split (some (r, rest)) w =
      Visits-step r rest w (perform_step m.nonpositive r (record c { literals = rest }) s) (
        step_formula-Steps m value r (record c { literals = rest }) s v
          (record {
            known = record { bounded = w.bounded; distinct = w.distinct };
            below = w.below;
            temporary = w.temporary;
            alone = w.alone;
          })
          (s.lits r).atom refl (v.literals r).named)

  open_visit :
      (elim (take_temporary s.lits c.literals) [
        | none ↦ passed (record c { is_finished = true })
        | some (r, rest) ↦ replaced (perform_step m.nonpositive r (record c { literals = rest }) s)
      ])
      ≡ visit m.nonpositive c s
  unfolding visit
  open_visit = ground arith

  pub visit-Visits : Visits m c s (visit m.nonpositive c s)
  visit-Visits = subst (Visits m c s) open_visit (
      Visits-split (take_temporary s.lits c.literals)
        (take_temporary-Splits m s.lits s.next_lit c.literals known.bounded known.distinct))
