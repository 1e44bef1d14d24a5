-- ===== src/Cnf/Transform/Headline.antt =====
-- transformToCNF gives an equivalent conjunction of clauses.
use supplementary.Base.{ℕ, ◌+◌, ◌<◌, ◌≡◌, refl, Bool, not, some, List, [], ◌∷◌, arith, All, All-map}
use supplementary.Cnf.Formula.{
  Formula, Reading, size, eval, IsNamed, max_term, min_term, and_term, or_term, lt_constraint,
  lte_constraint, constant, other,
}
use supplementary.Cnf.Clause.{
  Clause, clause_holds, empty_clause, add, any_lit, lit_holds, has_temporary, make_lit,
}
use supplementary.Cnf.Clause.Distinct.{temporary_size}
use supplementary.Cnf.Transform.Invariant.{IsState}
use supplementary.Cnf.Transform.Steps.{weight}
use supplementary.Cnf.Transform.Steps.{pow2}
use supplementary.Cnf.Transform.Clauses.{all_hold, total_weight, IsPending, IsPassed}
use supplementary.Cnf.Transform.Loop.{Finished}
use supplementary.Cnf.Transform.Total.{IsRun, IsRun-eq, do_transform_total}
use supplementary.Cnf.Transform.{State, Outcome, done, thrown, out_of_fuel, reset, transform_to_cnf}

-- A formula of the classes that the transformation knows, whose nodes have the ids that `node` tells
-- apart: Term::getId is the same for two pointers only if they point to one object.
abbrev pub IsTree : {D : Type 0} → (ℕ → Formula D) → ℕ → Formula D → Type 0
IsTree node next (max_term i l r) =
    (i < next) × (node i ≡ max_term i l r) × IsTree node next l × IsTree node next r
IsTree node next (min_term i l r) =
    (i < next) × (node i ≡ min_term i l r) × IsTree node next l × IsTree node next r
IsTree node next (and_term i l r) =
    (i < next) × (node i ≡ and_term i l r) × IsTree node next l × IsTree node next r
IsTree node next (or_term i l r) =
    (i < next) × (node i ≡ or_term i l r) × IsTree node next l × IsTree node next r
IsTree node next (lt_constraint i x y) = (i < next) × (node i ≡ lt_constraint i x y)
IsTree node next (lte_constraint i x y) = (i < next) × (node i ≡ lte_constraint i x y)
IsTree node next (constant i v) = (i < next) × (node i ≡ constant i v)
IsTree node next (other i) = ⊥

-- The negated form that a node may have: the inequality the other way round.
abbrev pub IsNegation : {D : Type 0} → Formula D → Formula D → Type 0
IsNegation (lt_constraint i x y) p = (j : ℕ) × (p ≡ lte_constraint j y x)
IsNegation (lte_constraint i x y) p = (j : ℕ) × (p ≡ lt_constraint j y x)
IsNegation _ p = ⊥

-- The terms that exist when the transformation starts.
pub record IsInput {D : Type 0} (node : ℕ → Formula D) (f : Formula D) (s : State D) : Type 0 where
  pub tree : IsTree node s.next_id f
  pub negated :
      (i : ℕ) (p : Formula D)
      → s.negated_form i ≡ some p
      → IsTree node s.next_id p × IsNegation (node i) p

module _ {D : Type 0} (m : Reading D) (node : ℕ → Formula D) (next : ℕ) where
  node_value : ℕ → Bool
  node_value i = eval m (node i)

  IsTree-IsNamed : (f : Formula D) → IsTree node next f → IsNamed m node_value next f
  unfolding node_value eval
  IsTree-IsNamed (max_term i l r) t =
      (t.0, ground arith, IsTree-IsNamed l t.2, IsTree-IsNamed r t.3)
  IsTree-IsNamed (min_term i l r) t =
      (t.0, ground arith, IsTree-IsNamed l t.2, IsTree-IsNamed r t.3)
  IsTree-IsNamed (and_term i l r) t =
      (t.0, ground arith, IsTree-IsNamed l t.2, IsTree-IsNamed r t.3)
  IsTree-IsNamed (or_term i l r) t = (t.0, ground arith, IsTree-IsNamed l t.2, IsTree-IsNamed r t.3)
  IsTree-IsNamed (lt_constraint i x y) t = (t.0, ground arith)
  IsTree-IsNamed (lte_constraint i x y) t = (t.0, ground arith)
  IsTree-IsNamed (constant i v) t = (t.0, ground arith)
  IsTree-IsNamed (other i) t = absurd t

  eval-IsNegation : (g p : Formula D) → IsNegation g p → eval m g ≡ not (eval m p)
  unfolding eval
  eval-IsNegation (lt_constraint i x y) p n = rw n.1 (ground (arith, m.less_equal_total y x))
  eval-IsNegation (lte_constraint i x y) p n = rw n.1 (ground (arith, m.less_equal_total x y))
  eval-IsNegation (max_term i l r) p n = absurd n
  eval-IsNegation _ p n = absurd n

module _ {D : Type 0} (m : Reading D) (node : ℕ → Formula D) (f : Formula D) (s : State D)
    (input : IsInput node f s) where
  reset-IsState : IsState m (node_value m node s.next_id) (reset f s)
  unfolding reset node_value make_lit
  reset-IsState = record {
    literals = λ r. record {
      named = IsTree-IsNamed m node s.next_id f input.tree;
      signed = λ e. cc;
      unsigned = λ e. refl;
    };
    negated = λ i p e. (
      IsTree-IsNamed m node s.next_id p (input.negated i p e).0,
      eval-IsNegation m node s.next_id (node i) p (input.negated i p e).1,
    );
  }

  first-IsPending : All (IsPending (reset f s).lits (reset f s).next_lit) (add 0 empty_clause ∷ [])
  unfolding reset add empty_clause has_temporary
  first-IsPending = (
    record {
      known = record { bounded = (omega arith, tt); distinct = (λ e. refl, tt) };
      unfinished = refl;
    },
    tt,
  )

  first_weight : total_weight (reset f s).lits (add 0 empty_clause ∷ []) ≡ pow2 (size f)
  unfolding total_weight weight reset add empty_clause temporary_size make_lit
  first_weight = let e : size f + 0 ≡ size f = omega arith in rw e (omega arith)

  first_holds : all_hold m (reset f s).lits (add 0 empty_clause ∷ []) ≡ eval m f
  unfolding all_hold clause_holds any_lit lit_holds reset add empty_clause make_lit
  first_holds = ground arith

  IsRun-transform_to_cnf :
      (fuel : ℕ)
      → pow2 (size f) < fuel
      → IsRun m (eval m f) (transform_to_cnf m.nonpositive fuel f s)
  unfolding transform_to_cnf all_hold
  IsRun-transform_to_cnf fuel w = IsRun-eq m _ (eval m f) _ (ground (arith, first_holds)) (
      do_transform_total m fuel [] (add 0 empty_clause ∷ []) (reset f s)
        (node_value m node s.next_id) reset-IsState tt first-IsPending
        (omega (arith, first_weight)))

-- What a run that ends gives.
abbrev pub Ends : {D : Type 0} → Reading D → Bool → Outcome (State D × List Clause) → Type 0
Ends {D} m expected o =
    (t : State D) × (cs : List Clause) × (o ≡ done (t, cs))
    × (all_hold m t.lits cs ≡ expected)
    × All (λ c. Finished t.lits c.literals) cs

IsRun-Ends :
    {D : Type 0} (m : Reading D) (expected : Bool) (o : Outcome (State D × List Clause))
    → IsRun m expected o
    → Ends m expected o
IsRun-Ends m expected (done (t, cs)) r = (
  t,
  cs,
  refl,
  r.2,
  All-map (IsPassed t.lits t.next_lit) (λ c. Finished t.lits c.literals) cs (λ c p. p.finished) r.3,
)
IsRun-Ends m expected thrown r = absurd r
IsRun-Ends m expected out_of_fuel r = absurd r

-- For a formula of known classes whose ids tell its nodes apart, and with more fuel than 2 to the
-- power of its number of nodes, transformToCNF ends without a throw; no literal of the clauses is
-- temporary; and under every reading of the inequalities that agrees with the run on which
-- constants are nonpositive, all clauses hold exactly if the formula is true.
pub transform_to_cnf_correct :
    {D : Type 0} (m : Reading D) (node : ℕ → Formula D) (f : Formula D) (s : State D)
    → IsInput node f s
    → (fuel : ℕ) → pow2 (size f) < fuel
    → Ends m (eval m f) (transform_to_cnf m.nonpositive fuel f s)
transform_to_cnf_correct m node f s input fuel w =
    IsRun-Ends m (eval m f) (transform_to_cnf m.nonpositive fuel f s)
      (IsRun-transform_to_cnf m node f s input fuel w)
