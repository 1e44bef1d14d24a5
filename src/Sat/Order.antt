-- ===== src/Sat/Order.antt =====
-- constraintsolver/src/CNSat.cpp: the list of decisions with its levels and reasons.
use supplementary.Base.{
  ℕ, ◌<◌, ◌≤◌, ◌≡◌, ◌⊎◌, inl, inr, refl, sym, subst, ap, ◌∙◌, true, false, Option, none, some, List,
  [], ◌∷◌, ◌++◌, length, In, All, All-In, All_of_In, In-append_right, Nodup,
}
use supplementary.Cnf.Clause.{Assignment, same_sign, unassigned}
use supplementary.Sat.Solver.{Lit, Solver, is_unassigned, lit_satisfied}
use supplementary.Sat.Invariant.{IsFalse}

abbrev pub IsAscending : (ℕ → ℕ) → List ℕ → Type 0
IsAscending level [] = Unit {0}
IsAscending level (d ∷ ds) = All (λ e. level d ≤ level e) ds × IsAscending level ds

-- Each assigned variable stands on the list once, and the places of the levels ascend.
pub record IsTrail (s : Solver) : Type 0 where
  pub assigned_on : (v : ℕ) → is_unassigned s v ≡ false → In v s.decisions
  pub on_assigned : All (λ v. is_unassigned s v ≡ false) s.decisions
  pub once : Nodup s.decisions
  pub bounded : All (λ d. s.level d ≤ length s.decisions) s.decision_level
  pub allocated : All (λ d. d < s.level_count) s.decision_level
  pub ascending : IsAscending s.level s.decision_level

-- A literal of the reason of `v`: it is the satisfied one of `v`, or false by a variable among `xs`.
abbrev pub IsSupport : Solver → ℕ → List ℕ → Lit → Type 0
IsSupport s v xs l = ((l.var ≡ v) × (lit_satisfied s l ≡ true)) ⊎ (In l.var xs × IsFalse s l)

-- Each reason is a clause that the variables before its own on the list make a unit clause.
pub record IsGrounded (s : Solver) : Type 0 where
  pub unreasoned : (v : ℕ) → is_unassigned s v ≡ true → s.reason v ≡ none
  pub based :
      (v c : ℕ) (xs ys : List ℕ)
      → s.decisions ≡ xs ++ v ∷ ys
      → s.reason v ≡ some c
      → All (IsSupport s v xs) (s.literals c)

-- The list of decisions after a variable was added, where a variable splits it.
pub snoc-split :
    (ds : List ℕ) (k : ℕ) (xs : List ℕ) (v : ℕ) (ys : List ℕ)
    → ds ++ k ∷ [] ≡ xs ++ v ∷ ys
    → ((ds ≡ xs) × (k ≡ v)) ⊎ ((zs : List ℕ) × (ds ≡ xs ++ v ∷ zs))
snoc-split [] k [] v ys e = inl (refl, cc)
snoc-split [] k (x ∷ []) v ys e = cc
snoc-split [] k (x ∷ y ∷ xs) v ys e = cc
snoc-split (d ∷ ds) k [] v ys e = let h : d ≡ v = cc in inr (ds, ap (λ y. y ∷ ds) h)
snoc-split (d ∷ ds) k (x ∷ xs) v ys e =
    let h : d ≡ x = cc in
    let t : ds ++ k ∷ [] ≡ xs ++ v ∷ ys = cc in
    elim (snoc-split ds k xs v ys t) [
      | inl (p, q) ↦ inl (ap (λ l. d ∷ l) p ∙ ap (λ y. y ∷ xs) h, q)
      | inr (zs, p) ↦ inr (zs, ap (λ l. d ∷ l) p ∙ ap (λ y. y ∷ xs ++ v ∷ zs) h)
    ]

module _ (s s' : Solver) where
  -- A literal of an assigned variable keeps its value with the variable.
  pub false_kept : (l : Lit) → s'.assignment l.var ≡ s.assignment l.var → IsFalse s l → IsFalse s' l
  unfolding is_unassigned lit_satisfied
  false_kept l e h = (rw e h.0, rw e h.1)

  satisfied_kept :
      (l : Lit)
      → s'.assignment l.var ≡ s.assignment l.var
      → lit_satisfied s l ≡ true
      → lit_satisfied s' l ≡ true
  unfolding lit_satisfied
  satisfied_kept l e h = rw e h

  pub IsSupport-kept :
      ((v : ℕ) → is_unassigned s v ≡ false → s'.assignment v ≡ s.assignment v)
      → (v : ℕ) (xs : List ℕ) (l : Lit) → is_unassigned s v ≡ false
      → IsSupport s v xs l
      → IsSupport s' v xs l
  IsSupport-kept k v xs l h (inl (e, t)) =
      inl (e, satisfied_kept l (k l.var (subst (λ u. is_unassigned s u ≡ false) (sym e) h)) t)
  IsSupport-kept k v xs l h (inr (i, f)) = inr (i, false_kept l (k l.var f.0) f)

  -- The same, where the variables up to `v` keep their assignment.
  pub IsSupport-local :
      (v : ℕ) (xs : List ℕ) (l : Lit)
      → s'.assignment v ≡ s.assignment v
      → ((u : ℕ) → In u xs → s'.assignment u ≡ s.assignment u)
      → IsSupport s v xs l
      → IsSupport s' v xs l
  IsSupport-local v xs l k h (inl (e, t)) =
      inl (e, satisfied_kept l (subst (λ u. s'.assignment u ≡ s.assignment u) (sym e) k) t)
  IsSupport-local v xs l k h (inr (i, f)) = inr (i, false_kept l (h l.var i) f)

  pub split_assigned :
      IsTrail s → (v : ℕ) (xs ys : List ℕ) → s.decisions ≡ xs ++ v ∷ ys → is_unassigned s v ≡ false
  split_assigned t v xs ys e =
      All-In (λ v. is_unassigned s v ≡ false) s.decisions v t.on_assigned
        (subst (In v) (sym e) (In-append_right v xs (v ∷ ys) (inl refl)))

  same_open :
      s'.assignment ≡ s.assignment → (v : ℕ) → is_unassigned s' v ≡ true → is_unassigned s v ≡ true
  unfolding is_unassigned
  same_open q v h = subst (λ (a : ℕ → Assignment). same_sign (a v) unassigned ≡ true) q h

  -- A step that changes no assignment and no reason.
  pub IsGrounded-same :
      s'.literals ≡ s.literals
      → s'.decisions ≡ s.decisions
      → s'.assignment ≡ s.assignment
      → s'.reason ≡ s.reason
      → IsTrail s
      → IsGrounded s
      → IsGrounded s'
  IsGrounded-same f p q r t g = record {
    unreasoned = λ v h. ap (λ (a : ℕ → Option ℕ). a v) r ∙ g.unreasoned v (same_open q v h);
    based = λ v c xs ys e h.
        let d : s.decisions ≡ xs ++ v ∷ ys = sym p ∙ e in
        let b : All (IsSupport s v xs) (s.literals c) =
          g.based v c xs ys d (ap (λ (a : ℕ → Option ℕ). a v) (sym r) ∙ h) in
        subst (λ (a : ℕ → List Lit). All (IsSupport s' v xs) (a c)) (sym f)
          (All_of_In (IsSupport s' v xs) (s.literals c) (λ l i.
            IsSupport-kept (λ u j. ap (λ (a : ℕ → Assignment). a u) q) v xs l
              (split_assigned t v xs ys d) (All-In (IsSupport s v xs) (s.literals c) l b i)));
  }
