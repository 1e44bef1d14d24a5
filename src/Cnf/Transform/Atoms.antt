-- ===== src/Cnf/Transform/Atoms.antt =====
-- constraintsolver/src/FormulaTransform.cpp: the variable that stands for the atom of a literal.
use supplementary.Base.{
  ℕ, zero, suc, ◌==◌, ◌≡◌, inl, inr, refl, false, none, some, List, [], ◌∷◌, ◌++◌, arith, get_elem?,
  length, update, Option-cases, Bool-cases,
}
use supplementary.Cnf.Formula.{Formula, Operand, get_id}
use supplementary.Cnf.Clause.{Assignment, make_lit}
use supplementary.Cnf.Transform.{State, new_lit, negate, find_var, finish_lit}

get_elem?-append {ℓ} :
    {A : Type ℓ} (xs ys : List A) (i : ℕ) (a : A)
    → get_elem? xs i ≡ some a
    → get_elem? (xs ++ ys) i ≡ some a
get_elem?-append [] ys i a e = cc
get_elem?-append (x ∷ xs) ys zero a e = e
get_elem?-append (x ∷ xs) ys (suc i) a e = get_elem?-append xs ys i a e

get_elem?-length {ℓ} :
    {A : Type ℓ} (xs : List A) (a : A) → get_elem? (xs ++ a ∷ []) (length xs) ≡ some a
get_elem?-length [] a = refl
get_elem?-length (x ∷ xs) a = get_elem?-length xs a

-- The variable `v` stands for an atom with the id `i`.
abbrev pub StandsFor : {D : Type 0} → List (Formula D) → ℕ → ℕ → Type 0
StandsFor {D} vs v i = (p : Formula D) × (get_elem? vs v ≡ some p) × (get_id p ≡ i)

-- The map of atoms gives variables of the solver that stand for them, and every finished literal
-- has the variable that the map gives to its atom.
pub record HasVariables {D : Type 0} (s : State D) : Type 0 where
  pub listed : (i v : ℕ) → s.atoms i ≡ some v → StandsFor s.variables v i
  pub bound :
      (r : ℕ)
      → (s.lits r).is_temporary ≡ false
      → (v : ℕ) × ((s.lits r).var ≡ some v) × (s.atoms (get_id (s.lits r).atom) ≡ some v)

module _ {D : Type 0} where
  pub new_lit-HasVariables :
      (f : Formula D) (s : State D) → HasVariables s → HasVariables (new_lit f s)
  unfolding new_lit make_lit
  new_lit-HasVariables f s w = record { listed = w.listed; bound = bound_new }
    where
      bound_new :
          (r : ℕ)
          → ((new_lit f s).lits r).is_temporary ≡ false
          → (v : ℕ) × (((new_lit f s).lits r).var ≡ some v)
            × (s.atoms (get_id ((new_lit f s).lits r).atom) ≡ some v)
      bound_new r e = elim (Bool-cases (r == s.next_lit)) [
        | inl new ↦ absurd (ground arith)
        | inr old ↦ ground (arith, w.bound r)
      ]

  -- Looking an atom up gives it a variable, and keeps the others.
  record IsFound (p : Formula D) (s : State D) (v : ℕ) (t : State D) : Type 0 where
    at : t.atoms (get_id p) ≡ some v
    kept : (i w : ℕ) → s.atoms i ≡ some w → t.atoms i ≡ some w
    listed : (i w : ℕ) → t.atoms i ≡ some w → StandsFor t.variables w i
    lits : t.lits ≡ s.lits

  find_var-IsFound_new :
      (p : Formula D) (s : State D)
      → HasVariables s
      → s.atoms (get_id p) ≡ none
      → IsFound p s (find_var p s).0 (find_var p s).1
  unfolding find_var
  find_var-IsFound_new p s w e =
      rw (e, find_var)
        (record {
          at = ground arith;
          kept = λ i v k. ground arith;
          listed = listed_new;
          lits = refl;
        })
    where
      listed_new :
          (i v : ℕ)
          → update s.atoms (get_id p) (some (length s.variables)) i ≡ some v
          → StandsFor (s.variables ++ p ∷ []) v i
      listed_new i v k = elim (Bool-cases (i == get_id p)) [
        | inl new ↦ (
          p,
          let e : length s.variables ≡ v = ground arith in
              rw (← e) (get_elem?-length s.variables p),
          ground arith,
        )
        | inr old ↦
            let (q, at_v, same) = w.listed i v (ground arith) in
            (q, get_elem?-append s.variables (p ∷ []) v q at_v, same)
      ]

  find_var-IsFound :
      (p : Formula D) (s : State D) → HasVariables s → IsFound p s (find_var p s).0 (find_var p s).1
  unfolding find_var
  find_var-IsFound p s w = elim (Option-cases (s.atoms (get_id p))) [
    | inl e ↦ find_var-IsFound_new p s w e
    | inr (v, e) ↦
        rw (e, find_var) (record { at = e; kept = λ i u k. k; listed = w.listed; lits = refl })
  ]

  pub finish_lit-HasVariables :
      (r : ℕ) (p : Formula D) (sign : Assignment) (s : State D)
      → HasVariables s
      → HasVariables (finish_lit r p sign s)
  unfolding finish_lit
  finish_lit-HasVariables r p sign s w = record { listed = found.listed; bound = bound_new }
    where
      found : IsFound p s (find_var p s).0 (find_var p s).1
      found = find_var-IsFound p s w

      bound_new :
          (q : ℕ)
          → ((finish_lit r p sign s).lits q).is_temporary ≡ false
          → (v : ℕ) × (((finish_lit r p sign s).lits q).var ≡ some v)
            × ((finish_lit r p sign s).atoms (get_id ((finish_lit r p sign s).lits q).atom)
                ≡ some v)
      bound_new q e = elim (Bool-cases (q == r)) [
        | inl hit ↦ ((find_var p s).0, ground arith, ground (arith, found.at))
        | inr miss ↦
            let (v, var_v, at_v) = w.bound q (ground (arith, found.lits)) in
            (v, ground (arith, found.lits), ground (arith, found.lits, found.kept _ v at_v))
      ]

  pub negate-HasVariables :
      (i : ℕ) (x y : Operand) (s : State D) → HasVariables s → HasVariables (negate i x y s).1
  unfolding negate
  negate-HasVariables i x y s w = elim (Option-cases (s.negated_form i)) [
    | inl e ↦ rw (e, negate) (record { listed = w.listed; bound = w.bound })
    | inr (p, e) ↦ rw (e, negate) w
  ]
