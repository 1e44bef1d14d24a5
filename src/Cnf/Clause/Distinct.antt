-- ===== src/Cnf/Clause/Distinct.antt =====
-- The temporary literals of a clause have different atoms, and Clause::addChecked keeps it so.
use supplementary.Base.{
  ℕ, ◌+◌, ◌<◌, ◌≤◌, ◌≡◌, refl, true, false, Option, none, some, List, [], ◌∷◌, ◌++◌, if◌then◌else◌,
  arith, All, All-append,
}
use supplementary.Cnf.Formula.{get_id, size}
use supplementary.Cnf.Clause.{Heap, Clause, add, has_temporary, find_atom, add_found, add_checked}

module _ {D : Type 0} (h : Heap D) where
  abbrev pub Distinct : List ℕ → Type 0
  Distinct [] = Unit
  Distinct (q ∷ qs) =
      ((h q).is_temporary ≡ true → has_temporary h (get_id (h q).atom) qs ≡ false) × Distinct qs

  -- The formulas that are still to be taken apart, by their nodes.
  unfoldable pub temporary_size : List ℕ → ℕ
  temporary_size [] = 0
  temporary_size (q ∷ qs) = (if (h q).is_temporary then size (h q).atom else 0) + temporary_size qs

  -- References are below `k`, and temporary literals differ.
  pub record IsClause (k : ℕ) (c : Clause) : Type 0 where
    pub bounded : All (λ q. q < k) c.literals
    pub distinct : Distinct c.literals

  has_temporary-append :
      (i : ℕ) (qs : List ℕ) (r : ℕ)
      → has_temporary h i qs ≡ false
      → ((h r).is_temporary ≡ true → get_id (h r).atom ≡ i → ⊥)
      → has_temporary h i (qs ++ r ∷ []) ≡ false
  unfolding has_temporary
  has_temporary-append i [] r e n = ground (arith, n)
  has_temporary-append i (q ∷ qs) r e n = ground (arith, has_temporary-append i qs r)

  Distinct-append :
      (qs : List ℕ) (r : ℕ)
      → Distinct qs
      → ((h r).is_temporary ≡ true → has_temporary h (get_id (h r).atom) qs ≡ false)
      → Distinct (qs ++ r ∷ [])
  unfolding has_temporary
  Distinct-append [] r d n = (λ _. refl, tt)
  Distinct-append (q ∷ qs) r d n = (
    λ t. has_temporary-append (get_id (h q).atom) qs r (d.0 t) (λ u e. ground (arith, n u)),
    Distinct-append qs r d.1 (λ u. ground (arith, n u)),
  )

  temporary_size-append :
      (qs : List ℕ) (r : ℕ)
      → temporary_size (qs ++ r ∷ [])
        ≡ temporary_size qs + (if (h r).is_temporary then size (h r).atom else 0)
  unfolding temporary_size
  temporary_size-append [] r = omega arith
  temporary_size-append (q ∷ qs) r = omega (arith, temporary_size-append qs r)

  -- The clause has at most the literal `r` more than before.
  pub add-IsClause :
      (k r : ℕ) (c : Clause)
      → IsClause k c
      → r < k
      → ((h r).is_temporary ≡ true → has_temporary h (get_id (h r).atom) c.literals ≡ false)
      → IsClause k (add r c)
  unfolding add
  add-IsClause k r c v b n = record {
    bounded = All-append (λ q. q < k) c.literals (r ∷ []) v.bounded (b, tt);
    distinct = Distinct-append c.literals r v.distinct n;
  }

  add_found-IsClause :
      (k r : ℕ) (c : Clause) (o : Option ℕ)
      → IsClause k c
      → r < k
      → (h r).is_temporary ≡ false
      → IsClause k (add_found h r c o)
  unfolding add_found
  add_found-IsClause k r c none v b t = add-IsClause k r c v b (λ u. ground arith)
  add_found-IsClause k r c (some q) v b t = ground arith

  pub add_checked-IsClause :
      (k r : ℕ) (c : Clause) → IsClause k c → r < k → IsClause k (add_checked h r c)
  unfolding add_checked
  add_checked-IsClause k r c v b = ground (
    arith,
    add-IsClause k r c v b,
    add_found-IsClause k r c (find_atom h (get_id (h r).atom) c.literals) v b,
  )

  pub temporary_size-add_checked :
      (r : ℕ) (c : Clause)
      → temporary_size (add_checked h r c).literals
        ≤ temporary_size c.literals + (if (h r).is_temporary then size (h r).atom else 0)
  unfolding add_checked add_found add temporary_size
  temporary_size-add_checked r c = ground (arith, temporary_size-append c.literals r)
