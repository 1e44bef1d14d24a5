-- ===== src/Autodiff/Tape/Meaning.antt =====
-- What a term stands for in a reading of the classes, by recursion on the tree.
use supplementary.Base.{ℕ, Bool, true, ◌≡◌}
use supplementary.Autodiff.Doubles.{Doubles}
use supplementary.Autodiff.Term.{
  Term, Terms, nil, cons, abs, cos, exp, log, sin, lin_sigmoid, and_, or_, max, min, product, atan2,
  term_power, constraint_utility, lt_constraint, lte_constraint, sigmoid, reification, const_power,
  constant, sum, variable, zero, gp,
}
use supplementary.Autodiff.Tape.Algebra.{Algebra}

module _ (F : Doubles) (A : Algebra F.D) (env : ℕ → A.X) where
  open F use {D}
  open A use {X}

  abbrev mutual
    pub denote : Term D → X
    denote (abs i t) = A.abs (denote t)
    denote (cos i t) = A.cos (denote t)
    denote (exp i t) = A.exp (denote t)
    denote (log i t) = A.log (denote t)
    denote (sin i t) = A.sin (denote t)
    denote (lin_sigmoid i t) = denote t
    denote (and_ i l r) = A.and_ (denote l) (denote r)
    denote (or_ i l r) = A.or_ (denote l) (denote r)
    denote (max i l r) = A.max (denote l) (denote r)
    denote (min i l r) = A.min (denote l) (denote r)
    denote (product i l r) = A.product (denote l) (denote r)
    denote (atan2 i l r) = A.atan2 (denote l) (denote r)
    denote (term_power i l r) = A.term_power (denote l) (denote r)
    denote (constraint_utility i l r) = A.utility (denote l) (denote r)
    denote (lt_constraint i l r s) = A.lt s (denote l) (denote r)
    denote (lte_constraint i l r s) = A.lte s (denote l) (denote r)
    denote (sigmoid i l r s) = A.sigmoid s (denote l) (denote r)
    denote (reification i l r lo hi) = A.reification lo hi (denote l) (denote r)
    denote (const_power i t e) = A.const_power e (denote t)
    denote (constant i d) = A.constant d
    denote (sum i ts) = denote_sum A.nil ts
    denote (variable i) = env i
    denote (zero i) = A.constant F.nil
    denote (gp i) = A.nil

    pub denote_sum : X → Terms D → X
    denote_sum acc nil = acc
    denote_sum acc (cons t ts) = denote_sum (A.add acc (denote t)) ts

  module _ (every : Bool) (meaning : ℕ → X) (known : ℕ → Bool) where
    -- An id has one value in the whole term, so that a term that is met again has the same. The
    -- variables are known, and there is no sigmoid and no gp, nor an abs, and or atan2 without `every`.
    abbrev mutual
      pub Named : Term D → Type 0
      Named (abs i t) = (every ≡ true) × (meaning i ≡ denote (abs i t)) × Named t
      Named (cos i t) = (meaning i ≡ denote (cos i t)) × Named t
      Named (exp i t) = (meaning i ≡ denote (exp i t)) × Named t
      Named (log i t) = (meaning i ≡ denote (log i t)) × Named t
      Named (sin i t) = (meaning i ≡ denote (sin i t)) × Named t
      Named (lin_sigmoid i t) = ⊥
      Named (and_ i l r) = (every ≡ true) × (meaning i ≡ denote (and_ i l r)) × Named l × Named r
      Named (or_ i l r) = (meaning i ≡ denote (or_ i l r)) × Named l × Named r
      Named (max i l r) = (meaning i ≡ denote (max i l r)) × Named l × Named r
      Named (min i l r) = (meaning i ≡ denote (min i l r)) × Named l × Named r
      Named (product i l r) = (meaning i ≡ denote (product i l r)) × Named l × Named r
      Named (atan2 i l r) = (every ≡ true) × (meaning i ≡ denote (atan2 i l r)) × Named l × Named r
      Named (term_power i l r) = (meaning i ≡ denote (term_power i l r)) × Named l × Named r
      Named (constraint_utility i l r) =
          (meaning i ≡ denote (constraint_utility i l r)) × Named l × Named r
      Named (lt_constraint i l r s) =
          (meaning i ≡ denote (lt_constraint i l r s)) × Named l × Named r
      Named (lte_constraint i l r s) =
          (meaning i ≡ denote (lte_constraint i l r s)) × Named l × Named r
      Named (sigmoid i l r s) = ⊥
      Named (reification i l r lo hi) =
          (meaning i ≡ denote (reification i l r lo hi)) × Named l × Named r
      Named (const_power i t e) = (meaning i ≡ denote (const_power i t e)) × Named t
      Named (constant i d) = meaning i ≡ A.constant d
      Named (sum i ts) = (meaning i ≡ denote_sum A.nil ts) × AllNamed ts
      Named (variable i) = (meaning i ≡ env i) × (known i ≡ true)
      Named (zero i) = meaning i ≡ A.constant F.nil
      Named (gp i) = ⊥

      pub AllNamed : Terms D → Type 0
      AllNamed nil = Unit
      AllNamed (cons t ts) = Named t × AllNamed ts
