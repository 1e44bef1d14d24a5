-- ===== src/Autodiff/Tape/Sweep/Tangent.antt =====
-- The changes of all elements for changes of the arguments, forwards along the weighted edges.
use supplementary.Base.{
  ℕ, zero, suc, ◌+◌, ◌<◌, ◌≤◌, ◌≡◌, refl, sym, ◌∙◌, ap, subst, inl, inr, List, [], ◌∷◌, map, update,
  arith, All, lt_or_eq,
}
use supplementary.Autodiff.Doubles.{Doubles}
use supplementary.Autodiff.Tape.{Edge}
use supplementary.Autodiff.Tape.Sweep.Adjoint.{edge_sum}

pub All-indices :
    {D : Type 0} (n : ℕ) (es : List (Edge D)) (is : List ℕ)
    → map (λ (e : Edge D). e.index) es ≡ is
    → All (λ i. i < n) is
    → All (λ (e : Edge D). e.index < n) es
All-indices n [] is h b = tt
All-indices n (e ∷ es) [] h b = ground (arith, h)
All-indices {D} n (e ∷ es) (i ∷ is) h b =
    let first : e.index ≡ i = ground (arith, h) in
    let rest : map (λ (e : Edge D). e.index) es ≡ is = ground (arith, h) in
    (omega (arith, first, b.0), All-indices n es is rest b.1)

module _ (F : Doubles) where
  open F use {D}

  edge_sum_agree :
      (n : ℕ) (v w : ℕ → D)
      → ((j : ℕ) → j < n → v j ≡ w j)
      → (es : List (Edge D)) → All (λ e. e.index < n) es
      → edge_sum F v es ≡ edge_sum F w es
  edge_sum_agree n v w same [] b = refl
  edge_sum_agree n v w same (e ∷ es) b =
      ap (λ x. F.add (F.mul e.weight x) (edge_sum F v es)) (same e.index b.0)
      ∙ ap (F.add (F.mul e.weight (w e.index))) (edge_sum_agree n v w same es b.1)

  module _ (inputs : ℕ → List (Edge D)) where
    -- The changes of the `n` elements from `i` on.
    pub tangents_from : ℕ → ℕ → (ℕ → D) → ℕ → D
    tangents_from zero i t = t
    tangents_from (suc n) i t = tangents_from n (suc i) (update t i (edge_sum F t (inputs i)))

    pub tangents_from_below : (n i : ℕ) (t : ℕ → D) (j : ℕ) → j < i → tangents_from n i t j ≡ t j
    unfolding tangents_from
    tangents_from_below zero i t j b = refl
    tangents_from_below (suc n) i t j b =
        tangents_from_below n (suc i) _ j (omega (arith, b)) ∙ ground (arith, b)

    tangents_from_first :
        (n i : ℕ) (t : ℕ → D)
        → All (λ e. e.index < i) (inputs i)
        → tangents_from (suc n) i t i ≡ edge_sum F (tangents_from (suc n) i t) (inputs i)
    unfolding tangents_from
    tangents_from_first n i t b =
        tangents_from_below n (suc i) _ i (omega arith)
        ∙ ground arith
        ∙ edge_sum_agree i t (tangents_from (suc n) i t)
            (λ j l. sym (tangents_from_below (suc n) i t j l)) (inputs i) b

    pub tangents_from_computed :
        (n i : ℕ) (t : ℕ → D)
        → ((j : ℕ) → i ≤ j → j < i + n → All (λ e. e.index < j) (inputs j))
        → (j : ℕ) → i ≤ j
        → j < i + n
        → tangents_from n i t j ≡ edge_sum F (tangents_from n i t) (inputs j)
    unfolding tangents_from
    tangents_from_computed zero i t o j lo hi = absurd (omega (arith, lo, hi))
    tangents_from_computed (suc n) i t o j lo hi = elim (lt_or_eq i j (omega (arith, lo))) [
      | inl l ↦
          tangents_from_computed n (suc i) _ (λ m p q. o m (omega (arith, p)) (omega (arith, q))) j
            (omega (arith, l)) (omega (arith, hi))
      | inr e ↦
          subst
            (λ m. tangents_from (suc n) i t m ≡ edge_sum F (tangents_from (suc n) i t) (inputs m)) e
            (tangents_from_first n i t (o i (omega arith) (omega arith)))
    ]
