-- ===== src/Sat/Invariant.antt =====
-- constraintsolver/src/CNSat.cpp: the state that CNSat's operations rely on, and what it means for
-- a Boolean valuation to agree with the assignment and to satisfy the clauses.
use supplementary.Base.{
  ℕ, ◌<◌, ◌≡◌, ◌≢◌, sym, subst, ◌∙◌, ap, ◌⊎◌, inl, inr, Bool, true, false, ◌||◌, List, [], ◌∷◌, All,
  In, All-In,
}
use supplementary.Cnf.Clause.{Assignment, assigned_false, assigned_true, unassigned, same_sign}
use supplementary.Sat.Solver.{Lit, Solver, is_unassigned, lit_satisfied}

-- A watcher in the vector of the variable `v`.
abbrev pub IsListed : Solver → ℕ → ℕ → Type 0
IsListed s v w = (w < s.watcher_count) × ((s.watched w).var ≡ v)

abbrev pub IsKnown : ℕ → Lit → Type 0
IsKnown n l = (l.var < n) × (l.sign ≢ unassigned)

-- No two literals of one variable.
abbrev pub IsDistinct : List Lit → Type 0
IsDistinct [] = Unit {0}
IsDistinct (l ∷ ls) = All (λ k. k.var ≢ l.var) ls × IsDistinct ls

abbrev pub IsPaired : Solver → ℕ → Type 0
IsPaired s w =
    (s.first (s.owner w) < s.watcher_count)
    × (s.owner (s.first (s.owner w)) ≡ s.owner w)
    × (s.second (s.owner w) < s.watcher_count)
    × (s.owner (s.second (s.owner w)) ≡ s.owner w)

-- A clause that is flagged as satisfied has a satisfied literal among its watched ones.
abbrev pub IsFlagged : Solver → ℕ → Type 0
IsFlagged s c =
    s.satisfied c ≡ true
    → (lit_satisfied s (s.watched (s.first c)) || lit_satisfied s (s.watched (s.second c))) ≡ true

pub record IsWellFormed (s : Solver) : Type 0 where
  pub list_known : (v : ℕ) → v < s.variables → s.watch_list v < s.list_count
  pub list_own :
      (u v : ℕ) → u < s.variables → v < s.variables → s.watch_list u ≡ s.watch_list v → u ≡ v
  pub listed : (v : ℕ) → v < s.variables → All (IsListed s v) (s.lists (s.watch_list v))
  pub watches : (w : ℕ) → w < s.watcher_count → In (s.watched w) (s.literals (s.owner w))
  pub known : (w : ℕ) → w < s.watcher_count → All (IsKnown s.variables) (s.literals (s.owner w))
  pub apart : (w : ℕ) → w < s.watcher_count → IsDistinct (s.literals (s.owner w))
  pub paired : (w : ℕ) → w < s.watcher_count → IsPaired s w
  pub ends : (w : ℕ) → w < s.watcher_count → (s.first (s.owner w) ≡ w) ⊎ (s.second (s.owner w) ≡ w)
  pub placed : (w : ℕ) → w < s.watcher_count → In w (s.lists (s.watch_list (s.watched w).var))
  pub flagged : (w : ℕ) → w < s.watcher_count → IsFlagged s (s.owner w)
  pub levelled : (d : ℕ) × (ds : List ℕ) × (s.decision_level ≡ d ∷ ds)
  pub decided : All (λ v. v < s.variables) s.decisions

-- A valuation agrees with an assignment.
abbrev pub Fit : Assignment → Bool → Type 0
Fit assigned_true b = b ≡ true
Fit assigned_false b = b ≡ false
Fit unassigned b = Unit {0}

abbrev pub Fits : (ℕ → Bool) → Solver → Type 0
Fits m s = (v : ℕ) → Fit (s.assignment v) (m v)

-- A valuation makes a literal true.
abbrev pub Says : Assignment → Bool → Type 0
Says assigned_true b = b ≡ true
Says assigned_false b = b ≡ false
Says unassigned b = ⊥

abbrev pub Holds : (ℕ → Bool) → Lit → Type 0
Holds m l = Says l.sign (m l.var)

-- A valuation satisfies the clause of each watcher.
abbrev pub Models : (ℕ → Bool) → Solver → Type 0
Models m s = (w : ℕ) → w < s.watcher_count → (l : Lit) × In l (s.literals (s.owner w)) × Holds m l

abbrev pub IsFalse : Solver → Lit → Type 0
IsFalse s l = (is_unassigned s l.var ≡ false) × (lit_satisfied s l ≡ false)

Says-Fit :
    (a b : Assignment) (x : Bool)
    → Says a x
    → Fit b x
    → same_sign b unassigned ≡ false
    → same_sign a b ≡ false
    → ⊥
unfolding same_sign
Says-Fit assigned_true assigned_true x h k p q = cc
Says-Fit assigned_true assigned_false x h k p q = cc
Says-Fit assigned_true unassigned x h k p q = cc
Says-Fit assigned_false assigned_true x h k p q = cc
Says-Fit assigned_false assigned_false x h k p q = cc
Says-Fit assigned_false unassigned x h k p q = cc
Says-Fit unassigned b x h k p q = h

-- A literal that is false is false in each valuation that agrees.
pub Holds-IsFalse : (m : ℕ → Bool) (s : Solver) (l : Lit) → Fits m s → IsFalse s l → ¬ Holds m l
unfolding is_unassigned lit_satisfied
Holds-IsFalse m s l f h k = Says-Fit l.sign (s.assignment l.var) (m l.var) k (f l.var) h.0 h.1

-- In a clause of distinct variables the variable determines the literal.
pub In-var : (ls : List Lit) (k l : Lit) → IsDistinct ls → In k ls → In l ls → k.var ≡ l.var → k ≡ l
In-var [] k l d h j e = elim h [ ]
In-var (x ∷ ls) k l d (inl p) (inl q) e = p ∙ sym q
In-var (x ∷ ls) k l d (inl p) (inr q) e =
    absurd (All-In (λ k. k.var ≢ x.var) ls l d.0 q (sym e ∙ ap (λ (y : Lit). y.var) p))
In-var (x ∷ ls) k l d (inr p) (inl q) e =
    absurd (All-In (λ k. k.var ≢ x.var) ls k d.0 p (e ∙ ap (λ (y : Lit). y.var) q))
In-var (x ∷ ls) k l d (inr p) (inr q) e = In-var ls k l d.1 p q e

-- The literal that is left of a clause whose others are false holds in each valuation that agrees.
pub unit-Holds :
    (m : ℕ → Bool) (s : Solver) (ls : List Lit) (k : Lit)
    → IsDistinct ls
    → In k ls
    → All (λ l. (k.var ≡ l.var) ⊎ IsFalse s l) ls
    → Fits m s
    → (l : Lit) × In l ls × Holds m l
    → Holds m k
unit-Holds m s ls k d i h f (l, j, t) =
    elim (All-In (λ l. (k.var ≡ l.var) ⊎ IsFalse s l) ls l h j) [
      | inl e ↦ subst (Holds m) (sym (In-var ls k l d i j e)) t
      | inr n ↦ absurd (Holds-IsFalse m s l f n t)
    ]
