-- ===== src/Autodiff/Tape/Solve.antt =====
-- evaluateTape gives a solution of the tape.
use supplementary.Base.{
  ℕ, zero, suc, ◌+◌, ◌-◌, ◌<◌, ◌≤◌, ◌≡◌, refl, sym, ◌∙◌, ap, subst, inl, inr, arith, lt_or_eq,
}
use supplementary.Autodiff.Doubles.{Doubles}
use supplementary.Autodiff.Tape.{Kind, Tape}
use supplementary.Autodiff.Tape.Algebra.{Below, apply_agree, values, element_value-apply}
use supplementary.Autodiff.Tape.Evaluate.{
  element_value, load_arguments, evaluate_from, evaluate_tape,
}
use supplementary.Autodiff.Tape.Extends.{Solves}

module _ (F : Doubles) where
  open F use {D}

  element_value_agree :
      (n : ℕ) (v w : ℕ → D)
      → ((j : ℕ) → j < n → v j ≡ w j)
      → (k : Kind D) (old : D) → Below n k
      → element_value F k v old ≡ element_value F k w old
  element_value_agree n v w same k old b =
      element_value-apply F k v old
      ∙ apply_agree (values F) n v w same k old b
      ∙ sym (element_value-apply F k w old)

  pub load_arguments_below :
      (n : ℕ) (arg v : ℕ → D) (j : ℕ) → j < n → load_arguments F n arg v j ≡ arg j
  unfolding load_arguments
  load_arguments_below zero arg v j b = ground (arith, b)
  load_arguments_below (suc n) arg v j b = elim (lt_or_eq j n b) [
    | inl l ↦ ground (arith, l, load_arguments_below n arg v j l)
    | inr e ↦ ground (arith, e)
  ]

  pub load_arguments_above :
      (n : ℕ) (arg v : ℕ → D) (j : ℕ) → n ≤ j → load_arguments F n arg v j ≡ v j
  unfolding load_arguments
  load_arguments_above zero arg v j b = refl
  load_arguments_above (suc n) arg v j b =
      ground (arith, b, load_arguments_above n arg v j (omega (arith, b)))

  module _ (kind : ℕ → Kind D) where
    evaluate_from_below : (n i : ℕ) (v : ℕ → D) (j : ℕ) → j < i → evaluate_from F n i kind v j ≡ v j
    unfolding evaluate_from
    evaluate_from_below zero i v j b = refl
    evaluate_from_below (suc n) i v j b =
        evaluate_from_below n (suc i) _ j (omega (arith, b)) ∙ ground (arith, b)

    -- The first element: what follows leaves it and its operands as they are.
    evaluate_from_first :
        (n i : ℕ) (v : ℕ → D)
        → Below i (kind i)
        → evaluate_from F (suc n) i kind v i
          ≡ element_value F (kind i) (evaluate_from F (suc n) i kind v) (v i)
    unfolding evaluate_from
    evaluate_from_first n i v b =
        evaluate_from_below n (suc i) _ i (omega arith)
        ∙ ground arith
        ∙ element_value_agree i v (evaluate_from F (suc n) i kind v)
            (λ j l. sym (evaluate_from_below (suc n) i v j l)) (kind i) (v i) b

    evaluate_from_computed :
        (n i : ℕ) (v : ℕ → D)
        → ((j : ℕ) → i ≤ j → j < i + n → Below j (kind j))
        → (j : ℕ) → i ≤ j
        → j < i + n
        → evaluate_from F n i kind v j ≡ element_value F (kind j) (evaluate_from F n i kind v) (v j)
    unfolding evaluate_from
    evaluate_from_computed zero i v o j lo hi = absurd (omega (arith, lo, hi))
    evaluate_from_computed (suc n) i v o j lo hi = elim (lt_or_eq i j (omega (arith, lo))) [
      | inl l ↦
          evaluate_from_computed n (suc i) _ (λ m p q. o m (omega (arith, p)) (omega (arith, q))) j
            (omega (arith, l)) (omega (arith, hi))
          ∙ ap (element_value F (kind j) (evaluate_from F (suc n) i kind v)) (ground (arith, l))
      | inr e ↦
          subst
            (λ m.
              evaluate_from F (suc n) i kind v m
              ≡ element_value F (kind m) (evaluate_from F (suc n) i kind v) (v m))
            e (evaluate_from_first n i v (o i (omega arith) (omega arith)))
    ]

  -- The elements of a tape stand behind their operands.
  abbrev pub IsOrdered : ℕ → Tape D → Type 0
  IsOrdered dimension t = (i : ℕ) → dimension ≤ i → i < t.size → Below i (t.kind i)

  module _ (dimension : ℕ) (t : Tape D) (ordered : IsOrdered dimension t)
      (sized : dimension ≤ t.size) where
    pub evaluate_tape-Solves :
        (arg : ℕ → D) → Solves F (values F) dimension arg t (evaluate_tape F dimension arg t).value
    unfolding evaluate_tape
    evaluate_tape-Solves arg = record {
      loaded = λ i b.
          evaluate_from_below t.kind (t.size - dimension) dimension
            (load_arguments F dimension arg t.value) i b
          ∙ load_arguments_below dimension arg t.value i b;
      computed = λ i lo hi.
          evaluate_from_computed t.kind (t.size - dimension) dimension
            (load_arguments F dimension arg t.value)
            (λ j p q. ordered j p (omega (arith, q, sized))) i lo (omega (arith, hi, sized))
          ∙ ap (element_value F (t.kind i) _) (load_arguments_above dimension arg t.value i lo)
          ∙ element_value-apply F (t.kind i) (evaluate_tape F dimension arg t).value (t.value i);
    }
