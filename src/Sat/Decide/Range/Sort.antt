-- ===== src/Sat/Decide/Range/Sort.antt =====
-- constraintsolver/src/Decider.cpp, Decider::decideRangeBased: the sorted choices and their last.
use supplementary.Base.{
  ℕ, ◌≡◌, inl, inr, refl, sym, subst, Bool, true, false, none, some, List, [], ◌∷◌, In, All, All-In,
  All-map, Bool-cases, if◌then◌else◌,
}
use supplementary.Cnf.Clause.{Assignment}
use supplementary.Sat.Solver.{Lit}
use supplementary.Sat.Decide.Range.{last_choice, lit_range_compare, insert, stable_sort}

pub last_choice-In : (ls : List Lit) (z : Lit) → last_choice ls ≡ some z → In z ls
last_choice-In [] z h = cc
last_choice-In (l ∷ []) z h = inl (cc)
last_choice-In (l ∷ k ∷ ls) z h = inr (last_choice-In (k ∷ ls) z h)

pub last_choice-none : (l : Lit) (ls : List Lit) → last_choice (l ∷ ls) ≡ none → ⊥
last_choice-none l [] h = cc
last_choice-none l (k ∷ ls) h = last_choice-none k ls h

pub insert-cons :
    {D : Type 0}
    → (range : ℕ → Assignment → D) (greater : D → D → Bool) (l : Lit) (ls : List Lit)
    → (k : Lit) × (ks : List Lit) × (insert range greater l ls ≡ k ∷ ks)
unfolding insert
insert-cons range greater l [] = (l, [], refl)
insert-cons range greater l (m ∷ ms) = elim (Bool-cases (lit_range_compare range greater m l)) [
  | inl e ↦ (m, insert range greater l ms, rw e refl)
  | inr e ↦ (l, m ∷ ms, rw e refl)
]

module _ {D : Type 0} (range : ℕ → Assignment → D) (greater : D → D → Bool)
    (asym : (a b : D) → greater a b ≡ true → greater b a ≡ false)
    (chain : (a b c : D) → greater a b ≡ false → greater b c ≡ false → greater a c ≡ false) where
  -- `l` is not put before `k`.
  abbrev pub IsNotGreater : Lit → Lit → Type 0
  IsNotGreater l k = lit_range_compare range greater l k ≡ false

  abbrev IsSorted : List Lit → Type 0
  IsSorted [] = Unit {0}
  IsSorted (l ∷ ls) = All (λ k. IsNotGreater k l) ls × IsSorted ls

  irreflexive : (a : D) → greater a a ≡ false
  irreflexive a = elim (Bool-cases (greater a a)) [ inl e ↦ asym a a e | inr e ↦ e ]

  insert-All :
      (P : Lit → Type 0) (l : Lit) (ls : List Lit)
      → P l
      → All P ls
      → All P (insert range greater l ls)
  unfolding insert
  insert-All P l [] p h = (p, tt)
  insert-All P l (k ∷ ls) p h = elim (Bool-cases (lit_range_compare range greater k l)) [
    | inl e ↦ rw e (h.0, insert-All P l ls p h.1)
    | inr e ↦ rw e (p, h)
  ]

  insert-All_back :
      (P : Lit → Type 0) (l : Lit) (ls : List Lit)
      → All P (insert range greater l ls)
      → P l × All P ls
  unfolding insert
  insert-All_back P l [] h = h
  insert-All_back P l (k ∷ ls) h = elim (Bool-cases (lit_range_compare range greater k l)) [
    | inl e ↦
        let q : All P (k ∷ insert range greater l ls) =
          subst (λ b. All P (if b then k ∷ insert range greater l ls else l ∷ k ∷ ls)) e h in
        let r : P l × All P ls = insert-All_back P l ls q.1 in (r.0, (q.0, r.1))
    | inr e ↦ subst (λ b. All P (if b then k ∷ insert range greater l ls else l ∷ k ∷ ls)) e h
  ]

  insert-IsSorted : (l : Lit) (ls : List Lit) → IsSorted ls → IsSorted (insert range greater l ls)
  unfolding insert
  insert-IsSorted l [] h = (tt, tt)
  insert-IsSorted l (k ∷ ls) h = elim (Bool-cases (lit_range_compare range greater k l)) [
    | inl e ↦ rw e (
      insert-All (λ m. IsNotGreater m k) l ls (asym (range k.var k.sign) (range l.var l.sign) e)
          h.0,
      insert-IsSorted l ls h.1,
    )
    | inr e ↦ rw e (
      (
        e,
        All-map (λ m. IsNotGreater m k) (λ m. IsNotGreater m l) ls
            (λ m q. chain (range m.var m.sign) (range k.var k.sign) (range l.var l.sign) q e) h.0,
      ),
      h,
    )
  ]

  pub stable_sort-IsSorted : (ls : List Lit) → IsSorted (stable_sort range greater ls)
  unfolding stable_sort
  stable_sort-IsSorted [] = tt
  stable_sort-IsSorted (l ∷ ls) =
      insert-IsSorted l (stable_sort range greater ls) (stable_sort-IsSorted ls)

  pub stable_sort-All :
      (P : Lit → Type 0) (ls : List Lit) → All P ls → All P (stable_sort range greater ls)
  unfolding stable_sort
  stable_sort-All P [] h = tt
  stable_sort-All P (l ∷ ls) h =
      insert-All P l (stable_sort range greater ls) h.0 (stable_sort-All P ls h.1)

  pub stable_sort-All_back :
      (P : Lit → Type 0) (ls : List Lit) → All P (stable_sort range greater ls) → All P ls
  unfolding stable_sort
  stable_sort-All_back P [] h = tt
  stable_sort-All_back P (l ∷ ls) h =
      let r : P l × All P (stable_sort range greater ls) =
        insert-All_back P l (stable_sort range greater ls) h in
      (r.0, stable_sort-All_back P ls r.1)

  pub last_least :
      (ls : List Lit) (z : Lit)
      → IsSorted ls
      → last_choice ls ≡ some z
      → All (λ l. IsNotGreater z l) ls
  last_least [] z h e = tt
  last_least (l ∷ []) z h e =
      let q : l ≡ z = cc in
      (subst (λ x. IsNotGreater z x) (sym q) (irreflexive (range z.var z.sign)), tt)
  last_least (l ∷ k ∷ ls) z h e = (
    All-In (λ m. IsNotGreater m l) (k ∷ ls) z h.0 (last_choice-In (k ∷ ls) z e),
    last_least (k ∷ ls) z h.1 e,
  )
