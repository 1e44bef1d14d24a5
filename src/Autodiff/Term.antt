-- ===== src/Autodiff/Term.antt =====
-- The term classes of autodiff, each with its m_id.
use supplementary.Base.{ℕ}

mutual
  pub data Term (D : Type 0) : Type 0 where
    abs cos exp log sin lin_sigmoid : ℕ → Term D → Term D
    and_ or_ max min product atan2 term_power constraint_utility : ℕ → Term D → Term D → Term D
    lt_constraint lte_constraint : ℕ → Term D → Term D → D → Term D
    sigmoid : ℕ → Term D → Term D → D → Term D
    -- condition, negatedCondition, min, max
    reification : ℕ → Term D → Term D → D → D → Term D
    const_power : ℕ → Term D → D → Term D
    constant : ℕ → D → Term D
    sum : ℕ → Terms D → Term D
    variable zero gp : ℕ → Term D

  pub data Terms (D : Type 0) : Type 0 where
    nil : Terms D
    cons : Term D → Terms D → Terms D

-- Term::getId
unfoldable pub get_id : {D : Type 0} → Term D → ℕ
get_id (abs i t) = i
get_id (cos i t) = i
get_id (exp i t) = i
get_id (log i t) = i
get_id (sin i t) = i
get_id (lin_sigmoid i t) = i
get_id (and_ i l r) = i
get_id (or_ i l r) = i
get_id (max i l r) = i
get_id (min i l r) = i
get_id (product i l r) = i
get_id (atan2 i l r) = i
get_id (term_power i l r) = i
get_id (constraint_utility i l r) = i
get_id (lt_constraint i l r s) = i
get_id (lte_constraint i l r s) = i
get_id (sigmoid i l r s) = i
get_id (reification i l r lo hi) = i
get_id (const_power i t e) = i
get_id (constant i d) = i
get_id (sum i ts) = i
get_id (variable i) = i
get_id (zero i) = i
get_id (gp i) = i
