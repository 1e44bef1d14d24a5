-- ===== src/Cnf/Transform/Steps.antt =====
-- constraintsolver/src/FormulaTransform.cpp: what a step on one literal of a clause has to keep.
use supplementary.Base.{
  ℕ, zero, suc, ◌+◌, ◌<◌, ◌≤◌, ◌≡◌, Bool, true, false, ◌||◌, ◌&&◌, Option, none, some, arith,
  All-map,
}
use supplementary.Cnf.Formula.{Formula, Reading, size, eval}
use supplementary.Cnf.Clause.{Heap, Clause, clause_holds, add, add_found, add_checked}
use supplementary.Cnf.Clause.Distinct.{IsClause, temporary_size}
use supplementary.Cnf.Transform.Keeps.{Keeps}
use supplementary.Cnf.Transform.Invariant.{IsState}
use supplementary.Cnf.Transform.{State}

-- 2 ^ n
unfoldable pub pow2 : ℕ → ℕ
pow2 zero = 1
pow2 (suc n) = pow2 n + pow2 n

pub pow2-pos : (n : ℕ) → 0 < pow2 n
unfolding pow2
pow2-pos zero = omega arith
pow2-pos (suc n) = omega (arith, pow2-pos n)

pub pow2_mono : (a b : ℕ) → a ≤ b → pow2 a ≤ pow2 b
unfolding pow2
pow2_mono zero b h = pow2-pos b
pow2_mono (suc a) zero h = absurd (omega arith)
pow2_mono (suc a) (suc b) h = omega (arith, pow2_mono a b (omega arith))

pub pow2-lt : (a b : ℕ) → a < b → pow2 a < pow2 b
unfolding pow2
pow2-lt a b h = omega (arith, pow2_mono (suc a) b h, pow2-pos a)

pub pow2-add_lt : (a b n : ℕ) → a + 2 ≤ n → b + 2 ≤ n → pow2 a + pow2 b < pow2 n
unfolding pow2
pow2-add_lt a b zero h k = absurd (omega arith)
pow2-add_lt a b (suc n) h k = omega (arith, pow2-lt a n (omega arith), pow2-lt b n (omega arith))

module _ {D : Type 0} (h : Heap D) where
  -- A bound on the rounds that a clause takes.
  unfoldable pub weight : Clause → ℕ
  weight c = pow2 (temporary_size h c.literals)

  unfoldable pub opt_weight : Option Clause → ℕ
  unfolding weight
  opt_weight none = 0
  opt_weight (some c) = weight c

  abbrev pub OptClause : ℕ → Option Clause → Type 0
  OptClause k none = Unit
  OptClause k (some c) = IsClause h k c

abbrev pub OptUnfinished : Option Clause → Type 0
OptUnfinished none = Unit
OptUnfinished (some c) = c.is_finished ≡ false

pub is_finished-add_checked :
    {D : Type 0} (h : Heap D) (r : ℕ) (c : Clause) → (add_checked h r c).is_finished ≡ c.is_finished
unfolding add_checked add_found add
is_finished-add_checked h r c = ground arith

unfoldable pub opt_holds : {D : Type 0} → Reading D → Heap D → Option Clause → Bool
opt_holds m h none = true
opt_holds m h (some c) = clause_holds m h c

-- One performStep on a literal with the atom `f` that was taken from the clause `c`.
pub record IsStep {D : Type 0} (m : Reading D) (f : Formula D) (c : Clause) (s t : State D)
    (nc1 nc2 : Option Clause) : Type 0 where
  pub value : ℕ → Bool
  pub state : IsState m value t
  pub keeps : Keeps m s.next_lit s.lits t.lits
  pub grows : s.next_lit ≤ t.next_lit
  pub first : OptClause t.lits t.next_lit nc1
  pub second : OptClause t.lits t.next_lit nc2
  pub meaning :
      (opt_holds m t.lits nc1 && opt_holds m t.lits nc2) ≡ (clause_holds m s.lits c || eval m f)
  pub smaller :
      opt_weight t.lits nc1 + opt_weight t.lits nc2
      < pow2 (temporary_size s.lits c.literals + size f)
  pub unfinished : c.is_finished ≡ false → OptUnfinished nc1 × OptUnfinished nc2

pub IsClause-mono :
    {D : Type 0} (h : Heap D) (k n : ℕ) (c : Clause) → k ≤ n → IsClause h k c → IsClause h n c
IsClause-mono h k n c le v = record {
  bounded = All-map (λ q. q < k) (λ q. q < n) c.literals (λ q b. omega arith) v.bounded;
  distinct = v.distinct;
}
