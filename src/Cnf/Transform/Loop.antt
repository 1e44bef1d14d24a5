-- ===== src/Cnf/Transform/Loop.antt =====
-- The worklist loop of doTransform: it ends, and the clauses keep their meaning all along.
use supplementary.Base.{
  ℕ, ◌+◌, ◌<◌, ◌≡◌, inl, inr, subst, true, false, ◌||◌, Option, none, some, List, [], ◌∷◌, arith,
  All, Bool-cases,
}
use supplementary.Cnf.Formula.{get_id, Reading, size, eval}
use supplementary.Cnf.Clause.{Heap, has_temporary, lit_holds, any_lit}
use supplementary.Cnf.Clause.Distinct.{Distinct, temporary_size}
use supplementary.Cnf.Transform.{take_temporary}

-- No literal of the clause is temporary.
abbrev pub Finished : {D : Type 0} → Heap D → List ℕ → Type 0
Finished h = All λ q. (h q).is_temporary ≡ false

module _ {D : Type 0} (m : Reading D) (h : Heap D) (k : ℕ) where
  -- The literal `r` that is taken out is temporary, and no other temporary literal has its atom.
  pub record IsSplit (qs : List ℕ) (r : ℕ) (rest : List ℕ) : Type 0 where
    pub bounded : All (λ q. q < k) rest
    pub distinct : Distinct h rest
    pub below : r < k
    pub temporary : (h r).is_temporary ≡ true
    pub alone : has_temporary h (get_id (h r).atom) rest ≡ false
    pub meaning : any_lit m h qs ≡ (any_lit m h rest || eval m (h r).atom)
    pub parts : temporary_size h qs ≡ temporary_size h rest + size (h r).atom

  abbrev pub Splits : List ℕ → Option (ℕ × List ℕ) → Type 0
  Splits qs none = Finished h qs
  Splits qs (some (r, rest)) = IsSplit qs r rest

  Splits-cons :
      (q : ℕ) (qs : List ℕ) (o : Option (ℕ × List ℕ))
      → q < k
      → (h q).is_temporary ≡ false
      → Splits qs o
      → Splits (q ∷ qs) (elim o [ none ↦ none | some (r, rest) ↦ some (r, q ∷ rest) ])
  unfolding has_temporary any_lit lit_holds temporary_size
  Splits-cons q qs none b t w = (t, w)
  Splits-cons q qs (some (r, rest)) b t w = record {
    bounded = (b, w.bounded);
    distinct = (λ u. ground arith, w.distinct);
    below = w.below;
    temporary = w.temporary;
    alone = ground (arith, w.alone);
    meaning = ground (arith, w.meaning);
    parts = ground (arith, w.parts);
  }

  Splits-here :
      (q : ℕ) (qs : List ℕ)
      → q < k
      → (h q).is_temporary ≡ true
      → All (λ p. p < k) qs
      → Distinct h (q ∷ qs)
      → IsSplit (q ∷ qs) q qs
  unfolding any_lit lit_holds temporary_size
  Splits-here q qs b t bs d = record {
    bounded = bs;
    distinct = d.1;
    below = b;
    temporary = t;
    alone = d.0 t;
    meaning = ground arith;
    parts = ground arith;
  }

  pub take_temporary-Splits :
      (qs : List ℕ) → All (λ q. q < k) qs → Distinct h qs → Splits qs (take_temporary h qs)
  unfolding take_temporary
  take_temporary-Splits [] b d = tt
  take_temporary-Splits (q ∷ qs) b d = elim (Bool-cases (h q).is_temporary) [
    | inl t ↦
        subst (Splits (q ∷ qs)) {x = some (q, qs)} (ground arith) (Splits-here q qs b.0 t b.1 d)
    | inr t ↦
        subst (Splits (q ∷ qs))
          {x = elim (take_temporary h qs) [ none ↦ none | some (r, rest) ↦ some (r, q ∷ rest) ]}
          (ground arith)
          (Splits-cons q qs (take_temporary h qs) b.0 t (take_temporary-Splits qs b.1 d.1))
  ]
