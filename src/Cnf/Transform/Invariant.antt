-- ===== src/Cnf/Transform/Invariant.antt =====
-- The invariant of the transformation's state, and what its small operations do to it.
use supplementary.Base.{
  ℕ, suc, ◌==◌, ◌≡◌, ◌⊎◌, inl, inr, refl, subst, Bool, true, false, not, none, some, if◌then◌else◌,
  arith, update, Option-cases, Bool-cases,
}
use supplementary.Cnf.Formula.{
  Formula, Operand, Reading, IsNamed, eval, max_term, min_term, and_term, or_term, lt_constraint,
  lte_constraint, constant, other,
}
use supplementary.Cnf.Clause.{
  Assignment, assigned_true, assigned_false, Lit, lit_holds, compute_variable_count,
}
use supplementary.Cnf.Clause.Laws.{IsLit}
use supplementary.Cnf.Transform.Keeps.{Keeps, KeepsLit}
use supplementary.Cnf.Transform.{State, new_lit, negate, find_var, finish_lit}

-- Every atom is named, and a negated form has the opposite value of its node.
pub record IsState {D : Type 0} (m : Reading D) (value : ℕ → Bool) (s : State D) : Type 0 where
  pub literals : (r : ℕ) → IsLit m value s.next_id (s.lits r)
  pub negated :
      (i : ℕ) (p : Formula D)
      → s.negated_form i ≡ some p
      → IsNamed m value s.next_id p × (value i ≡ not (eval m p))

-- A name for the next id leaves the names below it.
IsNamed-update :
    {D : Type 0} (m : Reading D) (value : ℕ → Bool) (next : ℕ) (b : Bool) (f : Formula D)
    → IsNamed m value next f
    → IsNamed m (update value next b) (suc next) f
IsNamed-update m value next b (max_term i l r) n = (
  omega arith,
  ground arith,
  IsNamed-update m value next b l n.2,
  IsNamed-update m value next b r n.3,
)
IsNamed-update m value next b (min_term i l r) n = (
  omega arith,
  ground arith,
  IsNamed-update m value next b l n.2,
  IsNamed-update m value next b r n.3,
)
IsNamed-update m value next b (and_term i l r) n = (
  omega arith,
  ground arith,
  IsNamed-update m value next b l n.2,
  IsNamed-update m value next b r n.3,
)
IsNamed-update m value next b (or_term i l r) n = (
  omega arith,
  ground arith,
  IsNamed-update m value next b l n.2,
  IsNamed-update m value next b r n.3,
)
IsNamed-update m value next b (lt_constraint i x y) n = (omega arith, ground arith)
IsNamed-update m value next b (lte_constraint i x y) n = (omega arith, ground arith)
IsNamed-update m value next b (constant i v) n = (omega arith, ground arith)
IsNamed-update m value next b (other i) n = absurd n

module _ {D : Type 0} (m : Reading D) (value : ℕ → Bool) where
  pub new_lit-IsState :
      (f : Formula D) (s : State D)
      → IsState m value s
      → IsNamed m value s.next_id f
      → IsState m value (new_lit f s)
  unfolding new_lit
  new_lit-IsState f s v n = record { literals = fresh; negated = v.negated }
    where
      fresh : (r : ℕ) → IsLit m value s.next_id ((new_lit f s).lits r)
      fresh r = ground (arith, v.literals r, n)

  pub new_lit-Keeps : (f : Formula D) (s : State D) → Keeps m s.next_lit s.lits (new_lit f s).lits
  unfolding new_lit
  new_lit-Keeps f s r b = ground arith

  -- Looking up a variable changes no literal and no id.
  find_var_frame :
      (p : Formula D) (s : State D)
      → ((find_var p s).1.lits ≡ s.lits)
        × ((find_var p s).1.next_id ≡ s.next_id)
        × ((find_var p s).1.negated_form ≡ s.negated_form)
        × ((find_var p s).1.next_lit ≡ s.next_lit)
  unfolding find_var
  find_var_frame p s = ground arith

  -- What `finish_lit` does outside the maps of variables.
  pub finish_lit_frame :
      (r : ℕ) (p : Formula D) (sign : Assignment) (s : State D)
      → ((finish_lit r p sign s).next_id ≡ s.next_id)
        × ((finish_lit r p sign s).negated_form ≡ s.negated_form)
        × ((finish_lit r p sign s).next_lit ≡ s.next_lit)
  unfolding finish_lit
  finish_lit_frame r p sign s = ground (arith, find_var_frame p s)

  pub finish_lit-lits :
      (r : ℕ) (p : Formula D) (sign : Assignment) (s : State D) (q : ℕ)
      → (finish_lit r p sign s).lits q ≡ (
          if q == r
          then record (compute_variable_count (s.lits r)) {
            sign = sign;
            var = some (find_var p s).0;
            is_temporary = false;
            atom = p;
          }
          else s.lits q)
  unfolding finish_lit
  finish_lit-lits r p sign s q = ground (arith, find_var_frame p s)

  pub finish_lit-IsState :
      (r : ℕ) (p : Formula D) (sign : Assignment) (s : State D)
      → IsState m value s
      → IsNamed m value s.next_id p
      → (sign ≡ assigned_true) ⊎ (sign ≡ assigned_false)
      → IsState m value (finish_lit r p sign s)
  finish_lit-IsState r p sign s v n e =
      let frame = finish_lit_frame r p sign s in
      record {
        literals = λ q. rw (frame.0, finish_lit-lits r p sign s q) (ground (arith, v.literals q));
        negated = λ i f g. rw frame.0 (v.negated i f (ground (arith, frame)));
      }

  -- A finished literal that has the truth value of the temporary literal in its place.
  finished_KeepsLit :
      (old new : Lit D)
      → old.is_temporary ≡ true
      → new.is_temporary ≡ false
      → ((new.sign ≡ assigned_true) × (eval m new.atom ≡ eval m old.atom))
        ⊎ ((new.sign ≡ assigned_false) × (eval m new.atom ≡ not (eval m old.atom)))
      → KeepsLit m old new
  unfolding lit_holds
  finished_KeepsLit old new t u e = ground arith

  pub finish_lit-Keeps :
      (r : ℕ) (p : Formula D) (sign : Assignment) (s : State D)
      → (s.lits r).is_temporary ≡ true
      → ((sign ≡ assigned_true) × (eval m p ≡ eval m (s.lits r).atom))
        ⊎ ((sign ≡ assigned_false) × (eval m p ≡ not (eval m (s.lits r).atom)))
      → Keeps m s.next_lit s.lits (finish_lit r p sign s).lits
  finish_lit-Keeps r p sign s t e q b = elim (Bool-cases (q == r)) [
    | inl hit ↦
        finished_KeepsLit (s.lits q) ((finish_lit r p sign s).lits q) (ground arith)
          (rw (finish_lit-lits r p sign s q, hit) refl)
          (rw (finish_lit-lits r p sign s q, hit) (ground arith))
    | inr miss ↦ inl (rw (finish_lit-lits r p sign s q, miss) refl)
  ]

-- The result of negating a node with operands `x` and `y`: a formula that is false where the node is
-- true, and a state that still satisfies the invariant, under names that may be more.
pub record Negates {D : Type 0} (m : Reading D) (x y : Operand) (s : State D) (p : Formula D)
    (t : State D) : Type 0 where
  pub value : ℕ → Bool
  pub state : IsState m value t
  pub named : IsNamed m value t.next_id p
  pub opposite : eval m p ≡ not (m.less_equal x y)
  pub lits : t.lits ≡ s.lits
  pub next_lit : t.next_lit ≡ s.next_lit

module _ {D : Type 0} (m : Reading D) (value : ℕ → Bool) (i : ℕ) (x y : Operand) (s : State D)
    (v : IsState m value s) (node : IsNamed m value s.next_id (lte_constraint i x y)) where
  negate_old : (p : Formula D) → s.negated_form i ≡ some p → Negates m x y s p s
  negate_old p e = record {
    value = value;
    state = v;
    named = (v.negated i p e).0;
    opposite = ground (arith, v.negated i p e);
    lits = refl;
    next_lit = refl;
  }

  fresh_value : ℕ → Bool
  fresh_value = update value s.next_id (m.less y x)

  fresh_node : IsNamed m fresh_value (suc s.next_id) (lte_constraint i x y)
  unfolding fresh_value
  fresh_node = IsNamed-update m value s.next_id (m.less y x) (lte_constraint i x y) node

  fresh_form : IsNamed m fresh_value (suc s.next_id) (lt_constraint s.next_id y x)
  unfolding fresh_value
  fresh_form = (omega arith, ground arith)

  -- The claim that a negated form makes about the node `j`.
  abbrev IsForm : ℕ → Formula D → Type 0
  IsForm j p = IsNamed m fresh_value (suc s.next_id) p × (fresh_value j ≡ not (eval m p))

  fresh_negated :
      (j : ℕ) (p : Formula D)
      → (update
            (update s.negated_form i (some (lt_constraint s.next_id y x)))
            s.next_id
            (some (lte_constraint i x y))
            j
          ≡ some p)
      → IsForm j p
  unfolding fresh_value eval
  fresh_negated j p e = elim (Bool-cases (j == s.next_id)) [
    | inl new ↦
        subst (IsForm j) {x = lte_constraint i x y} (ground arith)
          (fresh_node, ground (arith, m.less_equal_total x y))
    | inr old ↦ elim (Bool-cases (j == i)) [
      | inl this ↦
          subst (IsForm j) {x = lt_constraint s.next_id y x} (ground arith)
            (fresh_form, ground (arith, m.less_equal_total x y, node))
      | inr apart ↦
          let form = v.negated j p (ground arith) in
          (IsNamed-update m value s.next_id (m.less y x) p form.0, ground (arith, form))
    ]
  ]

  fresh_literals : (r : ℕ) → IsLit m fresh_value (suc s.next_id) (s.lits r)
  unfolding fresh_value
  fresh_literals r = record {
    named = IsNamed-update m value s.next_id (m.less y x) (s.lits r).atom (v.literals r).named;
    signed = (v.literals r).signed;
    unsigned = (v.literals r).unsigned;
  }

  negate_new : s.negated_form i ≡ none → Negates m x y s (negate i x y s).0 (negate i x y s).1
  unfolding negate eval
  negate_new e =
      rw (e, negate)
        (record {
          value = fresh_value;
          state = record { literals = fresh_literals; negated = fresh_negated };
          named = fresh_form;
          opposite = ground (arith, m.less_equal_total x y);
          lits = refl;
          next_lit = refl;
        })

  pub negate-Negates : Negates m x y s (negate i x y s).0 (negate i x y s).1
  unfolding negate
  negate-Negates = elim (Option-cases (s.negated_form i)) [
    | inl e ↦ negate_new e
    | inr (p, e) ↦ rw (e, negate) (negate_old p e)
  ]
