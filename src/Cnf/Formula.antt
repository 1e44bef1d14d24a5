-- ===== src/Cnf/Formula.antt =====
-- The formulas that FormulaTransform reads: the term classes of autodiff that it tells apart.
-- An operand of an inequality is an arithmetic term, of which only its identity and the number of
-- variables that occur in it are seen here. `id` is Term's m_id; two pointers to terms are equal
-- exactly if the ids are. `other` is a term of any other class.
use supplementary.Base.{ℕ, suc, ◌+◌, ◌<◌, ◌≡◌, Bool, false, not, ◌&&◌, ◌||◌, arith}

pub record Operand : Type 0 where
  pub term : ℕ
  pub variables : ℕ

-- `D` stands for double.
pub data Formula (D : Type 0) : Type 0 where
  max_term min_term and_term or_term : ℕ → Formula D → Formula D → Formula D
  lt_constraint lte_constraint : ℕ → Operand → Operand → Formula D
  constant : ℕ → D → Formula D
  other : ℕ → Formula D

-- Term::getId
unfoldable pub get_id : {D : Type 0} → Formula D → ℕ
get_id (max_term i l r) = i
get_id (min_term i l r) = i
get_id (and_term i l r) = i
get_id (or_term i l r) = i
get_id (lt_constraint i x y) = i
get_id (lte_constraint i x y) = i
get_id (constant i v) = i
get_id (other i) = i

-- The number of variable occurrences that a visit of the term counts.
unfoldable pub count_variables : {D : Type 0} → Formula D → ℕ
count_variables (max_term i l r) = count_variables l + count_variables r
count_variables (min_term i l r) = count_variables l + count_variables r
count_variables (and_term i l r) = count_variables l + count_variables r
count_variables (or_term i l r) = count_variables l + count_variables r
count_variables (lt_constraint i x y) = x.variables + y.variables
count_variables (lte_constraint i x y) = x.variables + y.variables
count_variables (constant i v) = 0
count_variables (other i) = 0

-- How the inequalities and constants are read: `less` and `less_equal` compare the values of two
-- operands, which are not NaN.
pub record Reading (D : Type 0) : Type 0 where
  pub nonpositive : D → Bool
  pub less : Operand → Operand → Bool
  pub less_equal : Operand → Operand → Bool
  pub less_equal_total : (x y : Operand) → less_equal x y ≡ not (less y x)

-- The truth value of a formula.
unfoldable pub eval : {D : Type 0} → Reading D → Formula D → Bool
eval m (max_term i l r) = eval m l || eval m r
eval m (min_term i l r) = eval m l && eval m r
eval m (and_term i l r) = eval m l && eval m r
eval m (or_term i l r) = eval m l || eval m r
eval m (lt_constraint i x y) = m.less x y
eval m (lte_constraint i x y) = m.less_equal x y
eval m (constant i v) = not (m.nonpositive v)
eval m (other i) = false

-- The number of nodes, which bounds the work that a formula needs.
unfoldable pub size : {D : Type 0} → Formula D → ℕ
size (max_term i l r) = suc (size l + size r)
size (min_term i l r) = suc (size l + size r)
size (and_term i l r) = suc (size l + size r)
size (or_term i l r) = suc (size l + size r)
size (lt_constraint i x y) = 1
size (lte_constraint i x y) = 1
size (constant i v) = 1
size (other i) = 1

pub size-pos : {D : Type 0} (f : Formula D) → 0 < size f
unfolding size
size-pos (max_term i l r) = omega arith
size-pos (min_term i l r) = omega arith
size-pos (and_term i l r) = omega arith
size-pos (or_term i l r) = omega arith
size-pos _ = omega arith

-- A formula of the classes that the transformation knows, whose nodes have ids below `next`, with
-- `value` the truth value of the node with an id.
abbrev pub IsNamed : {D : Type 0} → Reading D → (ℕ → Bool) → ℕ → Formula D → Type 0
IsNamed m value next (max_term i l r) =
    (i < next)
    × (value i ≡ (eval m l || eval m r))
    × IsNamed m value next l
    × IsNamed m value next r
IsNamed m value next (min_term i l r) =
    (i < next)
    × (value i ≡ (eval m l && eval m r))
    × IsNamed m value next l
    × IsNamed m value next r
IsNamed m value next (and_term i l r) =
    (i < next)
    × (value i ≡ (eval m l && eval m r))
    × IsNamed m value next l
    × IsNamed m value next r
IsNamed m value next (or_term i l r) =
    (i < next)
    × (value i ≡ (eval m l || eval m r))
    × IsNamed m value next l
    × IsNamed m value next r
IsNamed m value next (lt_constraint i x y) = (i < next) × (value i ≡ m.less x y)
IsNamed m value next (lte_constraint i x y) = (i < next) × (value i ≡ m.less_equal x y)
IsNamed m value next (constant i v) = (i < next) × (value i ≡ not (m.nonpositive v))
IsNamed m value next (other i) = ⊥
