-- ===== src/Cnf/Transform/Correct.antt =====
-- Every performStep keeps the meaning of the clauses, the invariant and the measure.
use supplementary.Base.{
  ℕ, ◌+◌, ◌<◌, ◌≤◌, ◌≡◌, ◌⊎◌, inl, inr, refl, sym, ap, ◌∙◌, subst, Bool, true, false, not, ◌||◌,
  Option, arith,
}
use supplementary.Cnf.Formula.{
  Formula, Operand, get_id, Reading, size, size-pos, IsNamed, eval, max_term, min_term, and_term,
  or_term, lt_constraint, lte_constraint, constant, other,
}
use supplementary.Cnf.Clause.{
  Assignment, assigned_true, assigned_false, Heap, Clause, has_temporary, lit_holds, clause_holds,
  add_checked,
}
use supplementary.Cnf.Clause.Laws.{clause_holds-add_finished}
use supplementary.Cnf.Clause.Distinct.{
  IsClause, temporary_size, add_checked-IsClause, temporary_size-add_checked,
}
use supplementary.Cnf.Transform.Keeps.{
  Keeps, clause_holds_keeps, IsClause-Keeps, temporary_size_keeps, has_temporary_keeps,
}
use supplementary.Cnf.Transform.Invariant.{
  IsState, finish_lit-IsState, finish_lit-Keeps, finish_lit_frame, finish_lit-lits, negate-Negates,
}
use supplementary.Cnf.Transform.Split.{split_or-IsStep, split_and-IsStep}
use supplementary.Cnf.Transform.Steps.{weight, opt_weight}
use supplementary.Cnf.Transform.Steps.{
  IsStep, is_finished-add_checked, pow2, pow2-lt, pow2-pos, opt_holds,
}
use supplementary.Cnf.Transform.{
  State, Step, Outcome, done, finish_atom, finish_lit, negate, step_formula,
}

module _ {D : Type 0} (m : Reading D) (value : ℕ → Bool) (r : ℕ) (p : Formula D) (sign : Assignment)
    (c : Clause) (s : State D) (v : IsState m value s) (named : IsNamed m value s.next_id p)
    (known : IsClause s.lits s.next_lit c) (below : r < s.next_lit)
    (temporary : (s.lits r).is_temporary ≡ true)
    (alone : has_temporary s.lits (get_id (s.lits r).atom) c.literals ≡ false)
    (agrees : ((sign ≡ assigned_true) × (p ≡ (s.lits r).atom))
      ⊎ ((sign ≡ assigned_false) × (eval m p ≡ not (eval m (s.lits r).atom)))) where
  after : State D
  after = finish_lit r p sign s

  after-IsState : IsState m value after
  unfolding after
  after-IsState = finish_lit-IsState m value r p sign s v named (ground arith)

  after-Keeps : Keeps m s.next_lit s.lits after.lits
  unfolding after
  after-Keeps = finish_lit-Keeps m value r p sign s temporary (ground arith)

  after_next : after.next_lit ≡ s.next_lit
  unfolding after
  after_next = (finish_lit_frame m value r p sign s).2

  after_lit :
      ((after.lits r).is_temporary ≡ false)
      × ((after.lits r).sign ≡ sign)
      × ((after.lits r).atom ≡ p)
  unfolding after
  after_lit = ground (arith, finish_lit-lits m value r p sign s r)

  finished : Clause
  finished = add_checked after.lits r c

  lit_holds-after : lit_holds m (after.lits r) ≡ eval m (s.lits r).atom
  unfolding lit_holds
  lit_holds-after = ground (arith, after_lit)

  alone_after :
      (after.lits r).sign ≡ assigned_true
      → has_temporary after.lits (get_id (after.lits r).atom) c.literals ≡ false
  alone_after e =
      let kept =
        has_temporary_keeps m s.next_lit s.lits after.lits after-Keeps (get_id (s.lits r).atom)
          c.literals known.bounded alone in
      ground (arith, after_lit, kept)

  finished_holds :
      clause_holds m after.lits finished ≡ (clause_holds m s.lits c || eval m (s.lits r).atom)
  unfolding finished
  finished_holds = ground (
    arith,
    clause_holds-add_finished m value after.next_id after.lits after-IsState.literals r c
        after_lit.0 alone_after,
    clause_holds_keeps m s.next_lit s.lits after.lits after-Keeps c known,
    lit_holds-after,
  )

  finished_weight :
      weight after.lits finished + 0
      < pow2 (temporary_size s.lits c.literals + size (s.lits r).atom)
  unfolding finished weight
  finished_weight =
      let kept =
        temporary_size_keeps m s.next_lit s.lits after.lits after-Keeps c.literals known.bounded in
      let added : temporary_size after.lits (add_checked after.lits r c).literals
          ≤ temporary_size after.lits c.literals + 0 =
        ground (arith, temporary_size-add_checked after.lits r c, after_lit) in
      omega (
        arith,
        pow2-lt (temporary_size after.lits finished.literals)
            (temporary_size s.lits c.literals + size (s.lits r).atom)
            (omega (arith, kept, added, size-pos (s.lits r).atom)),
      )

  finish_atom-IsStep :
      IsStep m
        (s.lits r).atom
        c
        s
        (finish_atom r p sign c s).0
        (finish_atom r p sign c s).1
        (finish_atom r p sign c s).2
  unfolding finish_atom after finished opt_holds opt_weight
  finish_atom-IsStep = record {
    value = value;
    state = after-IsState;
    keeps = after-Keeps;
    grows = omega (arith, after_next);
    first =
        add_checked-IsClause after.lits after.next_lit r c
          (rw after_next (IsClause-Keeps m s.next_lit s.lits after.lits after-Keeps c known))
          (omega (arith, after_next));
    second = tt;
    meaning = ground (arith, finished_holds);
    smaller = finished_weight;
    unfinished = λ u. (is_finished-add_checked after.lits r c ∙ u, tt);
  }

-- The step ends without a throw, and is an `IsStep`.
abbrev pub Steps :
    {D : Type 0} → Reading D → Formula D → Clause → State D → Outcome (Step D) → Type 0
Steps m f c s (done (t, nc1, nc2)) = IsStep m f c s t nc1 nc2
Steps m f c s _ = ⊥

-- A literal `r` that was taken from a clause, which leaves `c`.
pub record IsTaken {D : Type 0} (r : ℕ) (c : Clause) (s : State D) : Type 0 where
  pub known : IsClause s.lits s.next_lit c
  pub below : r < s.next_lit
  pub temporary : (s.lits r).is_temporary ≡ true
  pub alone : has_temporary s.lits (get_id (s.lits r).atom) c.literals ≡ false

-- A step from a state that has the literals of `s` is a step from `s`.
IsStep-from :
    {D : Type 0} (m : Reading D) (c : Clause) (s t u : State D) (nc1 nc2 : Option Clause)
    → t.lits ≡ s.lits
    → t.next_lit ≡ s.next_lit
    → (g f : Formula D) → g ≡ f
    → IsStep m g c t u nc1 nc2
    → IsStep m f c s u nc1 nc2
IsStep-from m c s t u nc1 nc2 e k g f same w = record {
  value = w.value;
  state = w.state;
  keeps = rw (← e, ← k) w.keeps;
  grows = omega (arith, k, w.grows);
  first = w.first;
  second = w.second;
  meaning = rw (← e, ← same) w.meaning;
  smaller = rw (← e, ← same) w.smaller;
  unfinished = w.unfinished;
}

module _ {D : Type 0} (m : Reading D) (value : ℕ → Bool) (r : ℕ) (c : Clause) (s : State D)
    (v : IsState m value s) (taken : IsTaken r c s) where
  lt-IsStep :
      (p : Formula D)
      → (s.lits r).atom ≡ p
      → IsStep m p c s
          (finish_atom r p assigned_true c s).0
          (finish_atom r p assigned_true c s).1
          (finish_atom r p assigned_true c s).2
  lt-IsStep p e =
      subst
        (λ (f : Formula D).
          IsStep m f c s (finish_atom r f assigned_true c s).0 (finish_atom r f assigned_true c s).1
            (finish_atom r f assigned_true c s).2)
        e
        (finish_atom-IsStep m value r (s.lits r).atom assigned_true c s v (v.literals r).named
          taken.known taken.below taken.temporary taken.alone (inl (refl, refl)))

  lte-IsStep :
      (i : ℕ) (x y : Operand)
      → (s.lits r).atom ≡ lte_constraint i x y
      → IsNamed m value s.next_id (lte_constraint i x y)
      → Steps m (lte_constraint i x y) c s (step_formula m.nonpositive (lte_constraint i x y) r c s)
  unfolding step_formula eval
  lte-IsStep i x y e node =
      let n = negate-Negates m value i x y s v node in
      let (p, t) = negate i x y s in
      let known : IsClause t.lits t.next_lit c = rw (n.lits, n.next_lit) taken.known in
      IsStep-from m c s t _ _ _ n.lits n.next_lit (s.lits r).atom (lte_constraint i x y) e (
        rw (ap (λ (h : Heap D). (h r).atom) (sym n.lits)) (
          finish_atom-IsStep m n.value r p assigned_false c t n.state n.named known
            (rw n.next_lit taken.below) (rw n.lits taken.temporary) (rw n.lits taken.alone)
            (inr (refl, rw (n.lits, e) n.opposite))))

  constant-IsStep :
      (i : ℕ) (d : D) → Steps m (constant i d) c s (step_formula m.nonpositive (constant i d) r c s)
  unfolding step_formula opt_holds opt_weight weight eval size
  constant-IsStep i d = record {
    value = value;
    state = v;
    keeps = λ q b. inl refl;
    grows = omega arith;
    first = ground (arith, taken.known);
    second = tt;
    meaning = ground arith;
    smaller = ground (
      arith,
      pow2-pos (temporary_size s.lits c.literals + 1),
      pow2-lt (temporary_size s.lits c.literals) (temporary_size s.lits c.literals + 1),
    );
    unfinished = λ u. ground arith;
  }

  pub step_formula-Steps :
      (f : Formula D)
      → (s.lits r).atom ≡ f
      → IsNamed m value s.next_id f
      → Steps m f c s (step_formula m.nonpositive f r c s)
  unfolding step_formula eval size
  step_formula-Steps (max_term i f g) e n =
      split_or-IsStep m value f g c s v n.2 n.3 taken.known (max_term i f g) refl refl
  step_formula-Steps (and_term i f g) e n =
      split_and-IsStep m value f g c s v n.2 n.3 taken.known (and_term i f g) refl refl
  step_formula-Steps (or_term i f g) e n =
      split_or-IsStep m value f g c s v n.2 n.3 taken.known (or_term i f g) refl refl
  step_formula-Steps (min_term i f g) e n =
      split_and-IsStep m value f g c s v n.2 n.3 taken.known (min_term i f g) refl refl
  step_formula-Steps (lt_constraint i x y) e n = lt-IsStep (lt_constraint i x y) e
  step_formula-Steps (lte_constraint i x y) e n = lte-IsStep i x y e n
  step_formula-Steps (constant i d) e n = constant-IsStep i d
  step_formula-Steps (other i) e n = absurd n
