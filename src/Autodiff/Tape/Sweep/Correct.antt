-- ===== src/Autodiff/Tape/Sweep/Correct.antt =====
-- CompiledDifferentiator::differentiate gives the value and the gradient of the term, at the first
-- call and at every later one.
use supplementary.Base.{
  ℕ, zero, suc, ◌-◌, ◌<◌, ◌≤◌, ◌≡◌, refl, sym, ◌∙◌, ap, subst, false, some, List, get_elem?, length,
  map, arith,
}
use supplementary.Autodiff.Doubles.{Doubles}
use supplementary.Autodiff.Term.{Term, get_id}
use supplementary.Autodiff.Tape.{Edge, Tape}
use supplementary.Autodiff.Tape.Algebra.{Allowed, operands}
use supplementary.Autodiff.Tape.Calls.{Call, after_calls, after_calls-IsAfter, IsDifferentiator}
use supplementary.Autodiff.Tape.Evaluate.{Differentiator, wrap, make_differentiator}
use supplementary.Autodiff.Tape.Extends.{Solves}
use supplementary.Autodiff.Tape.Make.{make_differentiator-IsMade}
use supplementary.Autodiff.Tape.Meaning.{denote, Named}
use supplementary.Autodiff.Tape.Sweep.{differentiate, forward_sweep, reverse_sweep, sweep_element}
use supplementary.Autodiff.Tape.Sweep.Adjoint.{
  Exact, dot, edge_sum, IsLinear, reverse_sweep_correct,
}
use supplementary.Autodiff.Tape.Sweep.Dual.{dual, sweep_element-dual}
use supplementary.Autodiff.Tape.Sweep.Forward.{
  forward_sweep-Swept, forward_sweep_loaded, indices-sweep_element,
}
use supplementary.Autodiff.Tape.Sweep.Tangent.{
  All-indices, tangents_from, tangents_from_below, tangents_from_computed,
}
use supplementary.Autodiff.Tape.Variables.{mem}

module _ (F : Doubles) (exact : Exact F) where
  open F use {D}

  dot_agree : (n : ℕ) (g t u : ℕ → D) → ((j : ℕ) → j < n → t j ≡ u j) → dot F n g t ≡ dot F n g u
  dot_agree zero g t u same = refl
  dot_agree (suc n) g t u same =
      ap (λ y. F.add y (F.mul (g n) (t n))) (dot_agree n g t u (λ j b. same j (omega (arith, b))))
      ∙ ap (λ y. F.add (dot F n g u) (F.mul (g n) y)) (same n (omega arith))

  module _ (d : Differentiator D) (h : IsDifferentiator F d) (arg changes : ℕ → D)
      (allowed : (i : ℕ) → d.dimension ≤ i → i < d.tape.size → Allowed false (d.tape.kind i)) where
    swept : Tape D
    swept = forward_sweep F d.dimension arg d.tape

    tangent : ℕ → D
    tangent = tangents_from F swept.inputs (d.tape.size - d.dimension) d.dimension changes

    -- The final value of an element and its change, which its operands' give.
    both : ℕ → D × D
    both i = (swept.value i, tangent i)

    swept_edges :
        (i : ℕ)
        → d.dimension ≤ i
        → i < d.tape.size
        → map (λ (e : Edge D). e.index) (swept.inputs i) ≡ operands (d.tape.kind i)
    unfolding swept
    swept_edges i lo hi =
        ap (map (λ (e : Edge D). e.index))
          (forward_sweep-Swept F d.dimension d.tape h.ordered h.fits arg i lo hi).1
        ∙ indices-sweep_element F (d.tape.kind i) _ (d.tape.value i) (d.tape.inputs i)
        ∙ h.edged i lo hi

    tangent-IsLinear : IsLinear F exact d.dimension swept.inputs tangent d.tape.size
    unfolding tangent
    tangent-IsLinear i lo hi =
        let below = λ (j : ℕ) (p : d.dimension ≤ j) (q : j < d.tape.size).
          All-indices j (swept.inputs j) (operands (d.tape.kind j)) (swept_edges j p q)
            (h.ordered j p q) in
        (
          below i lo hi,
          tangents_from_computed F swept.inputs (d.tape.size - d.dimension) d.dimension changes
              (λ j p q. below j p (omega (arith, q, h.fits))) i lo (omega (arith, hi, h.fits)),
        )

    both-Solves : Solves F (dual F) d.dimension (λ k. (arg k, changes k)) d.tape both
    unfolding both swept tangent
    both-Solves = record {
      loaded = λ i b.
          ap (λ y. (y, tangent i))
            (forward_sweep_loaded F d.dimension d.tape h.ordered h.fits arg i b)
          ∙ ap (λ y. (arg i, y))
              (tangents_from_below F swept.inputs (d.tape.size - d.dimension) d.dimension changes i
                b);
      computed = λ i lo hi.
          let (p, q) = forward_sweep-Swept F d.dimension d.tape h.ordered h.fits arg i lo hi in
          ap (λ y. (swept.value i, y)) ((tangent-IsLinear i lo hi).1 ∙ ap (edge_sum F tangent) q)
          ∙ ap
              (λ y. (
                y,
                edge_sum F tangent
                    (sweep_element F (d.tape.kind i) swept.value (d.tape.value i)
                      (d.tape.inputs i)).1,
              ))
              p
          ∙ sym (
              sweep_element-dual F exact tangent (d.tape.kind i) swept.value (d.tape.value i)
                (d.tape.inputs i) (allowed i lo hi) (h.edged i lo hi));
    }

    gradient : dot F d.dimension (differentiate F arg d).0.0 changes ≡ tangent (d.tape.size - 1)
    unfolding differentiate swept forward_sweep tangent
    gradient =
        dot_agree d.dimension _ changes tangent (λ j b.
          sym (
            tangents_from_below F swept.inputs (d.tape.size - d.dimension) d.dimension changes j b))
        ∙ reverse_sweep_correct F exact d.dimension swept tangent h.fits h.filled tangent-IsLinear

    last_value : (differentiate F arg d).0.1 ≡ (both (d.tape.size - 1)).0
    unfolding differentiate both swept forward_sweep reverse_sweep
    last_value = refl

  -- In exact arithmetic, let every id in the term have one value and one change, the variables of the
  -- term be among the listed ones, no sigmoid, gp, abs, and or atan2 occur, and the id of the root be
  -- new. Then the constructor succeeds, and whatever calls of `evaluate` and `differentiate` were
  -- before, `differentiate` gives the value of the term for the argument, and a gradient that for all
  -- changes of the arguments gives the change of the term by the rules of
  -- differentiation, with the slope of `dual` for a Reification.
  pub differentiate_correct :
      (fresh : ℕ) (t : Term D) (variables : List ℕ) (env meaning : ℕ → D × D) (arg changes : ℕ → D)
      → ((k i : ℕ)
          → get_elem? variables k ≡ some i
          → ((arg k, changes k) ≡ env i) × (meaning i ≡ env i))
      → Named F (dual F) env false meaning (λ i. mem i variables) (wrap F fresh t)
      → mem (get_id (wrap F fresh t)) variables ≡ false
      → (earlier : List (Call D))
      → (d : Differentiator D) × (make_differentiator F fresh t variables ≡ some d)
        × ((differentiate F arg (after_calls F earlier d)).0.1
            ≡ (denote F (dual F) env (wrap F fresh t)).0)
        × (dot F (length variables) (differentiate F arg (after_calls F earlier d)).0.0 changes
            ≡ (denote F (dual F) env (wrap F fresh t)).1)
  unfolding both
  differentiate_correct fresh t variables env meaning arg changes loads named new earlier =
      let (d, m) =
        make_differentiator-IsMade F (dual F) false fresh t variables env meaning
          (λ k. (arg k, changes k)) loads named new in
      let e = after_calls F earlier d in
      let later = after_calls-IsAfter F earlier d m.differentiator in
      let allowed : (i : ℕ) → e.dimension ≤ i → i < e.tape.size → Allowed false (e.tape.kind i) =
        λ i lo hi.
          subst (Allowed false) (sym (later.kind i))
            (m.allowed i (omega (arith, lo, later.dimension)) (omega (arith, hi, later.size))) in
      let x = both e later.differentiator arg changes allowed in
      let same : e.tape.size - 1 ≡ d.tape.size - 1 = omega (arith, later.size) in
      let value =
        ap x same
        ∙ m.valued x
            (later.solved (dual F) _ x (both-Solves e later.differentiator arg changes allowed)) in
      let whole : length variables ≡ e.dimension = omega (arith, later.dimension, m.dimension) in
      (
        d,
        m.made,
        last_value e later.differentiator arg changes allowed ∙ ap (λ y. y.0) value,
        ap (λ n. dot F n (differentiate F arg e).0.0 changes) whole
            ∙ gradient e later.differentiator arg changes allowed
            ∙ ap (λ y. y.1) value,
      )
