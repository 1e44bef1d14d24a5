-- ===== src/Cnf/Transform/Total.antt =====
-- doTransform ends within the fuel that the formula's size gives, and keeps the meaning.
use supplementary.Base.{
  ℕ, zero, suc, ◌<◌, ◌≡◌, sym, subst, Bool, ◌&&◌, List, [], ◌∷◌, reverse, arith, All, All-map,
  All-append,
}
use mathlib.Core.List.{reverse-cons}
use supplementary.Cnf.Formula.{Reading}
use supplementary.Cnf.Clause.{Heap, Clause}
use supplementary.Cnf.Clause.Distinct.{IsClause, temporary_size}
use supplementary.Cnf.Transform.Invariant.{IsState}
use supplementary.Cnf.Transform.Steps.{weight}
use supplementary.Cnf.Transform.Steps.{pow2-pos}
use supplementary.Cnf.Transform.Visit.{Visits, visit-Visits}
use supplementary.Cnf.Transform.Clauses.{
  all_hold, all_hold-reverse, all_hold-push, all_hold_keeps, total_weight, total_weight-push,
  total_weight_keeps, IsPending, IsPending-push, IsPending-Keeps, IsPassed, IsPassed-Keeps,
}
use supplementary.Cnf.Transform.{
  State, Outcome, done, thrown, out_of_fuel, push, Round, passed, replaced, visit, do_transform,
}

-- The loop ends with clauses that are finished and mean `expected`.
abbrev pub IsRun : {D : Type 0} → Reading D → Bool → Outcome (State D × List Clause) → Type 0
IsRun m expected (done (t, cs)) =
    (value : ℕ → Bool) × IsState m value t
    × (all_hold m t.lits cs ≡ expected)
    × All (IsPassed t.lits t.next_lit) cs
IsRun m expected _ = ⊥

reverse-All {ℓ κ} : {A : Type ℓ} (P : A → Type κ) (xs : List A) → All P xs → All P (reverse xs)
reverse-All P [] h = tt
reverse-All P (x ∷ xs) h =
    subst (All P) (sym (reverse-cons x xs))
      (All-append P (reverse xs) (x ∷ []) (reverse-All P xs h.1) (h.0, tt))

IsClause-literals :
    {D : Type 0} (h : Heap D) (k : ℕ) (c d : Clause)
    → d.literals ≡ c.literals
    → IsClause h k c
    → IsClause h k d
IsClause-literals h k c d e v = record { bounded = rw e v.bounded; distinct = rw e v.distinct }

pub IsRun-eq :
    {D : Type 0} (m : Reading D) (a b : Bool) (o : Outcome (State D × List Clause))
    → a ≡ b
    → IsRun m a o
    → IsRun m b o
IsRun-eq m a b o e = subst (λ x. IsRun m x o) e

module _ {D : Type 0} (m : Reading D) where
  -- What the loop promises with some fuel.
  abbrev pub Promise : ℕ → Type 0
  Promise fuel =
      (before rest : List Clause) (s : State D) (value : ℕ → Bool)
      → IsState m value s
      → All (IsPassed s.lits s.next_lit) before
      → All (IsPending s.lits s.next_lit) rest
      → total_weight s.lits rest < fuel
      → IsRun m (all_hold m s.lits before && all_hold m s.lits rest)
          (do_transform m.nonpositive fuel before rest s)

  after_round :
      (fuel : ℕ)
      → Promise fuel
      → (before cs : List Clause) (c : Clause) (s : State D) (value : ℕ → Bool) → IsState m value s
      → All (IsPassed s.lits s.next_lit) before
      → All (IsPending s.lits s.next_lit) (c ∷ cs)
      → total_weight s.lits (c ∷ cs) < suc fuel
      → (o : Round D) → Visits m c s o
      → IsRun m (all_hold m s.lits before && all_hold m s.lits (c ∷ cs)) (elim o [
        | passed d ↦ do_transform m.nonpositive fuel (d ∷ before) cs s
        | replaced r ↦ elim r [
          | done (t, nc1, nc2) ↦ do_transform m.nonpositive fuel before (push nc2 (push nc1 cs)) t
          | thrown ↦ thrown
          | out_of_fuel ↦ out_of_fuel
        ]
      ])
  unfolding all_hold total_weight weight
  after_round fuel ih before cs c s value v p q w (passed d) i =
      IsRun-eq m (all_hold m s.lits (d ∷ before) && all_hold m s.lits cs) _ _ (ground (arith, i.3))
        (ih (d ∷ before) cs s value v
          (
            record {
              known = IsClause-literals s.lits s.next_lit c d i.1 q.0.known;
              flagged = i.0;
              finished = i.2;
            },
            p,
          )
          q.1 (omega (arith, w, pow2-pos (temporary_size s.lits c.literals))))
  after_round fuel ih before cs c s value v p q w (replaced (done (t, nc1, nc2))) i =
      let passed_known =
        All-map (IsPassed s.lits s.next_lit) (IsClause s.lits s.next_lit) before (λ d k. k.known)
          p in
      let pending_known =
        All-map (IsPending s.lits s.next_lit) (IsClause s.lits s.next_lit) cs (λ d k. k.known)
          q.1 in
      IsRun-eq m (all_hold m t.lits before && all_hold m t.lits (push nc2 (push nc1 cs))) _ _
        (ground (
          arith,
          all_hold-push m t.lits nc1 nc2 cs,
          i.meaning,
          all_hold_keeps m s.next_lit t.next_lit s.lits t.lits i.keeps i.grows before passed_known,
          all_hold_keeps m s.next_lit t.next_lit s.lits t.lits i.keeps i.grows cs pending_known,
        ))
        (ih before (push nc2 (push nc1 cs)) t i.value i.state
          (IsPassed-Keeps m s.next_lit t.next_lit s.lits t.lits i.keeps i.grows before p)
          (IsPending-push t.lits t.next_lit nc1 nc2 cs (i.first, i.second) i.unfinished
            (IsPending-Keeps m s.next_lit t.next_lit s.lits t.lits i.keeps i.grows cs q.1))
          (omega (
            arith,
            total_weight-push t.lits nc1 nc2 cs,
            total_weight_keeps m s.next_lit t.next_lit s.lits t.lits i.keeps i.grows cs
                pending_known,
            i.smaller,
            w,
          )))
  after_round fuel ih before cs c s value v p q w (replaced thrown) i = absurd i
  after_round fuel ih before cs c s value v p q w (replaced out_of_fuel) i = absurd i

  pub do_transform_total : (fuel : ℕ) → Promise fuel
  unfolding do_transform all_hold
  do_transform_total zero before rest s value v p q w = absurd (omega arith)
  do_transform_total (suc fuel) before [] s value v p q w = (
    value,
    v,
    ground (arith, all_hold-reverse m s.lits before),
    reverse-All (IsPassed s.lits s.next_lit) before p,
  )
  do_transform_total (suc fuel) before (c ∷ cs) s value v p q w =
      after_round fuel (do_transform_total fuel) before cs c s value v p q w
        (visit m.nonpositive c s) (visit-Visits m value c s v q.0.known q.0.unfinished)
