-- ===== src/Cnf/Transform/Keeps.antt =====
-- A step changes literals in place: a literal that other clauses share keeps its meaning, and can
-- only stop being temporary.
use supplementary.Base.{ℕ, ◌<◌, ◌≤◌, ◌≡◌, ◌⊎◌, refl, false, List, [], ◌∷◌, arith, All}
use supplementary.Cnf.Formula.{get_id, Reading}
use supplementary.Cnf.Clause.{Lit, Heap, Clause, has_temporary, lit_holds, any_lit, clause_holds}
use supplementary.Cnf.Clause.Distinct.{Distinct, temporary_size, IsClause}

abbrev pub KeepsLit : {D : Type 0} → Reading D → Lit D → Lit D → Type 0
KeepsLit m old new =
    (new ≡ old) ⊎ ((new.is_temporary ≡ false) × (lit_holds m new ≡ lit_holds m old))

-- Every literal below `k` is kept.
abbrev pub Keeps : {D : Type 0} → Reading D → ℕ → Heap D → Heap D → Type 0
Keeps m k g h = (r : ℕ) → r < k → KeepsLit m (g r) (h r)

module _ {D : Type 0} (m : Reading D) (k : ℕ) (g h : Heap D) (keeps : Keeps m k g h) where
  pub any_lit_keeps : (qs : List ℕ) → All (λ q. q < k) qs → any_lit m h qs ≡ any_lit m g qs
  unfolding any_lit
  any_lit_keeps [] b = refl
  any_lit_keeps (q ∷ qs) b = ground (arith, keeps q b.0, any_lit_keeps qs b.1)

  pub clause_holds_keeps : (c : Clause) → IsClause g k c → clause_holds m h c ≡ clause_holds m g c
  unfolding clause_holds
  clause_holds_keeps c v = ground (arith, any_lit_keeps c.literals v.bounded)

  pub has_temporary_keeps :
      (i : ℕ) (qs : List ℕ)
      → All (λ q. q < k) qs
      → has_temporary g i qs ≡ false
      → has_temporary h i qs ≡ false
  unfolding has_temporary
  has_temporary_keeps i [] b e = refl
  has_temporary_keeps i (q ∷ qs) b e = ground (arith, keeps q b.0, has_temporary_keeps i qs b.1)

  Distinct-Keeps : (qs : List ℕ) → All (λ q. q < k) qs → Distinct g qs → Distinct h qs
  Distinct-Keeps [] b d = tt
  Distinct-Keeps (q ∷ qs) b d = (
    λ t. ground (arith, keeps q b.0, d.0, has_temporary_keeps (get_id (g q).atom) qs b.1),
    Distinct-Keeps qs b.1 d.1,
  )

  pub IsClause-Keeps : (c : Clause) → IsClause g k c → IsClause h k c
  IsClause-Keeps c v = record {
    bounded = v.bounded;
    distinct = Distinct-Keeps c.literals v.bounded v.distinct;
  }

  pub temporary_size_keeps :
      (qs : List ℕ) → All (λ q. q < k) qs → temporary_size h qs ≤ temporary_size g qs
  unfolding temporary_size
  temporary_size_keeps [] b = omega arith
  temporary_size_keeps (q ∷ qs) b = ground (arith, keeps q b.0, temporary_size_keeps qs b.1)
