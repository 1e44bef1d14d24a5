-- ===== src/Cnf/Transform/Split.antt =====
-- Taking a conjunction or a disjunction apart: the two operands become temporary literals.
use supplementary.Base.{
  ℕ, suc, ◌+◌, ◌<◌, ◌≤◌, ◌≡◌, refl, sym, ap, ◌∙◌, Bool, true, ◌||◌, ◌&&◌, arith,
}
use supplementary.Cnf.Formula.{Formula, Reading, size, size-pos, IsNamed, eval}
use supplementary.Cnf.Clause.{unassigned, Lit, Clause, clause_holds, make_lit, clone, add_checked}
use supplementary.Cnf.Clause.Laws.{clause_holds-add_temporary}
use supplementary.Cnf.Clause.Distinct.{
  IsClause, temporary_size, add_checked-IsClause, temporary_size-add_checked,
}
use supplementary.Cnf.Transform.Keeps.{
  Keeps, clause_holds_keeps, IsClause-Keeps, temporary_size_keeps,
}
use supplementary.Cnf.Transform.Invariant.{IsState, new_lit-IsState}
use supplementary.Cnf.Transform.{State, new_lit, split_or, split_and}
use supplementary.Cnf.Transform.Steps.{
  weight, opt_weight, pow2, pow2-lt, pow2-add_lt, is_finished-add_checked, opt_holds, IsStep,
  IsClause-mono,
}

module _ {D : Type 0} (m : Reading D) (value : ℕ → Bool) (l r : Formula D) (c : Clause)
    (s : State D) (v : IsState m value s) (left : IsNamed m value s.next_id l)
    (right : IsNamed m value s.next_id r) (known : IsClause s.lits s.next_lit c) where
  -- The state with literals for both operands.
  both : State D
  both = new_lit r (new_lit l s)

  both-IsState : IsState m value both
  unfolding both new_lit
  both-IsState = new_lit-IsState m value r (new_lit l s) (new_lit-IsState m value l s v left) right

  both_next : both.next_lit ≡ suc (suc s.next_lit)
  unfolding both new_lit
  both_next = refl

  both-Keeps : Keeps m s.next_lit s.lits both.lits
  unfolding both new_lit
  both-Keeps q b = ground arith

  left_lit : both.lits s.next_lit ≡ make_lit l unassigned true
  unfolding both new_lit
  left_lit = ground arith

  right_lit : both.lits (suc s.next_lit) ≡ make_lit r unassigned true
  unfolding both new_lit
  right_lit = ground arith

  both-IsClause : (d : Clause) → IsClause s.lits s.next_lit d → IsClause both.lits both.next_lit d
  both-IsClause d w = rw both_next (
      IsClause-mono both.lits s.next_lit (suc (suc s.next_lit)) d (omega arith)
        (IsClause-Keeps m s.next_lit s.lits both.lits both-Keeps d w))

  -- Adding one of the two literals, `q` with the atom `f`, to a clause.
  module _ (q : ℕ) (f : Formula D) (at_q : both.lits q ≡ make_lit f unassigned true)
      (d : Clause) where
    added : Clause
    added = add_checked both.lits q d

    added_holds : clause_holds m both.lits added ≡ (clause_holds m both.lits d || eval m f)
    unfolding added make_lit
    added_holds = rw (ap (λ (x : Lit D). x.atom) (sym at_q)) (
        clause_holds-add_temporary m value both.next_id both.lits both-IsState.literals q d
          (ground (arith, at_q)))

    added_size :
        temporary_size both.lits added.literals ≤ temporary_size both.lits d.literals + size f
    unfolding added make_lit
    added_size = ground (arith, at_q, temporary_size-add_checked both.lits q d)

    added-IsClause :
        q < both.next_lit
        → IsClause both.lits both.next_lit d
        → IsClause both.lits both.next_lit added
    unfolding added
    added-IsClause b w = add_checked-IsClause both.lits both.next_lit q d w b

  -- The clause under the new heap: the old meaning, and no more temporary nodes.
  clause_holds-both : clause_holds m both.lits c ≡ clause_holds m s.lits c
  clause_holds-both = clause_holds_keeps m s.next_lit s.lits both.lits both-Keeps c known

  size-both : temporary_size both.lits c.literals ≤ temporary_size s.lits c.literals
  size-both = temporary_size_keeps m s.next_lit s.lits both.lits both-Keeps c.literals known.bounded

  or_clause : Clause
  or_clause = add_checked both.lits (suc s.next_lit) (add_checked both.lits s.next_lit c)

  or_weight :
      (f : Formula D)
      → size f ≡ suc (size l + size r)
      → weight both.lits or_clause + 0 < pow2 (temporary_size s.lits c.literals + size f)
  unfolding or_clause weight added
  or_weight f e =
      let first = added_size s.next_lit l left_lit c in
      let second = added_size (suc s.next_lit) r right_lit (add_checked both.lits s.next_lit c) in
      omega (
        arith,
        pow2-lt (temporary_size both.lits or_clause.literals)
            (temporary_size s.lits c.literals + size f) (omega (arith, first, second, size-both)),
      )

  or_holds :
      clause_holds m both.lits or_clause ≡ (clause_holds m s.lits c || (eval m l || eval m r))
  unfolding or_clause added
  or_holds = ground (
    arith,
    added_holds s.next_lit l left_lit c,
    added_holds (suc s.next_lit) r right_lit (add_checked both.lits s.next_lit c),
    clause_holds-both,
  )

  or_clause-IsClause : IsClause both.lits both.next_lit or_clause
  unfolding or_clause added
  or_clause-IsClause =
      added-IsClause (suc s.next_lit) r right_lit (add_checked both.lits s.next_lit c)
        (omega (arith, both_next))
        (added-IsClause s.next_lit l left_lit c (omega (arith, both_next)) (both-IsClause c known))

  pub split_or-IsStep :
      (f : Formula D)
      → size f ≡ suc (size l + size r)
      → eval m f ≡ (eval m l || eval m r)
      → IsStep m f c s (split_or l r c s).0 (split_or l r c s).1 (split_or l r c s).2
  unfolding split_or both or_clause opt_holds opt_weight
  split_or-IsStep f e meaning = record {
    value = value;
    state = both-IsState;
    keeps = both-Keeps;
    grows = omega (arith, both_next);
    first = or_clause-IsClause;
    second = tt;
    meaning = ground (arith, or_holds);
    smaller = or_weight f e;
    unfinished = λ u. (
      is_finished-add_checked both.lits (suc s.next_lit) (add_checked both.lits s.next_lit c)
          ∙ is_finished-add_checked both.lits s.next_lit c
          ∙ u,
      tt,
    );
  }

  and_left : Clause
  and_left = add_checked both.lits s.next_lit c

  and_right : Clause
  and_right = add_checked both.lits (suc s.next_lit) (clone c)

  -- The clone has the clause's literals and flag.
  clone_same : (clone c).literals ≡ c.literals
  unfolding clone
  clone_same = refl

  clone_holds : clause_holds m both.lits (clone c) ≡ clause_holds m both.lits c
  unfolding clause_holds clone
  clone_holds = refl

  clone_known : IsClause s.lits s.next_lit (clone c)
  unfolding clone
  clone_known = record { bounded = known.bounded; distinct = known.distinct }

  and_holds :
      (clause_holds m both.lits and_left && clause_holds m both.lits and_right)
      ≡ (clause_holds m s.lits c || (eval m l && eval m r))
  unfolding and_left and_right added
  and_holds = ground (
    arith,
    added_holds s.next_lit l left_lit c,
    added_holds (suc s.next_lit) r right_lit (clone c),
    clone_holds,
    clause_holds-both,
  )

  and_left-IsClause : IsClause both.lits both.next_lit and_left
  unfolding and_left added
  and_left-IsClause =
      added-IsClause s.next_lit l left_lit c (omega (arith, both_next)) (both-IsClause c known)

  and_right-IsClause : IsClause both.lits both.next_lit and_right
  unfolding and_right added
  and_right-IsClause =
      added-IsClause (suc s.next_lit) r right_lit (clone c) (omega (arith, both_next))
        (both-IsClause (clone c) clone_known)

  and_weight :
      (f : Formula D)
      → size f ≡ suc (size l + size r)
      → weight both.lits and_left + weight both.lits and_right
        < pow2 (temporary_size s.lits c.literals + size f)
  unfolding and_left and_right weight added clone
  and_weight f e =
      let first = added_size s.next_lit l left_lit c in
      let second = added_size (suc s.next_lit) r right_lit (clone c) in
      pow2-add_lt (temporary_size both.lits and_left.literals)
        (temporary_size both.lits and_right.literals) (temporary_size s.lits c.literals + size f)
        (omega (arith, first, size-both, size-pos l, size-pos r))
        (omega (arith, second, size-both, size-pos l, size-pos r))

  pub split_and-IsStep :
      (f : Formula D)
      → size f ≡ suc (size l + size r)
      → eval m f ≡ (eval m l && eval m r)
      → IsStep m f c s (split_and l r c s).0 (split_and l r c s).1 (split_and l r c s).2
  unfolding split_and both and_left and_right opt_holds opt_weight clone
  split_and-IsStep f e meaning = record {
    value = value;
    state = both-IsState;
    keeps = both-Keeps;
    grows = omega (arith, both_next);
    first = and_left-IsClause;
    second = and_right-IsClause;
    meaning = ground (arith, and_holds);
    smaller = and_weight f e;
    unfinished = λ u. (
      is_finished-add_checked both.lits s.next_lit c ∙ u,
      is_finished-add_checked both.lits (suc s.next_lit) (clone c) ∙ u,
    );
  }
