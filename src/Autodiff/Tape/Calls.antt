-- ===== src/Autodiff/Tape/Calls.antt =====
-- A differentiator through calls of evaluate and differentiate: the tape keeps its elements, and a
-- solution of a later tape is one of the first.
use supplementary.Base.{ℕ, ◌<◌, ◌≤◌, ◌≡◌, refl, sym, ◌∙◌, ap, List, [], ◌∷◌, map}
use supplementary.Autodiff.Doubles.{Doubles}
use supplementary.Autodiff.Tape.{Edge}
use supplementary.Autodiff.Tape.Algebra.{Algebra, apply, operands, apply_again, element_value-apply}
use supplementary.Autodiff.Tape.Evaluate.{Differentiator, evaluate, evaluate_tape}
use supplementary.Autodiff.Tape.Extends.{Solves}
use supplementary.Autodiff.Tape.Solve.{evaluate_tape-Solves, IsOrdered}
use supplementary.Autodiff.Tape.Sweep.{differentiate, forward_sweep, reverse_sweep}
use supplementary.Autodiff.Tape.Sweep.Forward.{
  forward_sweep-Swept, indices-sweep_element, sweep_element_again,
}

-- A call, with its arguments.
pub data Call (D : Type 0) : Type 0 where
  evaluation differentiation : (ℕ → D) → Call D

module _ (F : Doubles) where
  open F use {D}

  -- The state after a call, and after the calls of a list in order.
  abbrev pub after_call : Call D → Differentiator D → Differentiator D
  after_call (evaluation arg) d = (evaluate F arg d).1
  after_call (differentiation arg) d = (differentiate F arg d).1

  abbrev pub after_calls : List (Call D) → Differentiator D → Differentiator D
  after_calls [] d = d
  after_calls (c ∷ cs) d = after_calls cs (after_call c d)

  -- Operands stand before their elements and are the ends of their edges, and the arguments fit.
  pub record IsDifferentiator (d : Differentiator D) : Type 0 where
    pub fits : d.dimension ≤ d.tape.size
    pub filled : 0 < d.tape.size
    pub ordered : IsOrdered F d.dimension d.tape
    pub edged :
        (i : ℕ)
        → d.dimension ≤ i
        → i < d.tape.size
        → map (λ (e : Edge D). e.index) (d.tape.inputs i) ≡ operands (d.tape.kind i)

  -- A later state `e`: the same elements, with no more solutions.
  pub record IsAfter (d e : Differentiator D) : Type 1 where
    pub differentiator : IsDifferentiator e
    pub dimension : e.dimension ≡ d.dimension
    pub size : e.tape.size ≡ d.tape.size
    pub kind : (i : ℕ) → e.tape.kind i ≡ d.tape.kind i
    pub solved :
        (A : Algebra D) (new x : ℕ → A.X)
        → Solves F A e.dimension new e.tape x
        → Solves F A d.dimension new d.tape x

  IsAfter-refl : (d : Differentiator D) → IsDifferentiator d → IsAfter d d
  IsAfter-refl d h = record {
    differentiator = h;
    dimension = refl;
    size = refl;
    kind = λ i. refl;
    solved = λ A new x s. s;
  }

  IsAfter-trans : {d e f : Differentiator D} → IsAfter d e → IsAfter e f → IsAfter d f
  IsAfter-trans p q = record {
    differentiator = q.differentiator;
    dimension = q.dimension ∙ p.dimension;
    size = q.size ∙ p.size;
    kind = λ i. q.kind i ∙ p.kind i;
    solved = λ A new x s. p.solved A new x (q.solved A new x s);
  }

  module _ (d : Differentiator D) (h : IsDifferentiator d) (arg : ℕ → D) where
    evaluate-IsAfter : IsAfter d (evaluate F arg d).1
    unfolding evaluate evaluate_tape
    evaluate-IsAfter =
        let first = evaluate_tape-Solves F d.dimension d.tape h.ordered h.fits arg in
        record {
          differentiator = record {
            fits = h.fits;
            filled = h.filled;
            ordered = h.ordered;
            edged = h.edged;
          };
          dimension = refl;
          size = refl;
          kind = λ i. refl;
          solved = λ A new x s. record {
            loaded = s.loaded;
            computed = λ i lo hi.
                s.computed i lo hi
                ∙ ap (apply A (d.tape.kind i) x) (
                    first.computed i lo hi
                    ∙ sym (element_value-apply F (d.tape.kind i) _ (d.tape.value i)))
                ∙ apply_again F A (d.tape.kind i) x _ (d.tape.value i);
          };
        }

    differentiate-IsAfter : IsAfter d (differentiate F arg d).1
    unfolding differentiate reverse_sweep forward_sweep
    differentiate-IsAfter =
        let swept = forward_sweep-Swept F d.dimension d.tape h.ordered h.fits arg in
        record {
          differentiator = record {
            fits = h.fits;
            filled = h.filled;
            ordered = h.ordered;
            edged = λ i lo hi.
                ap (map (λ (e : Edge D). e.index)) (swept i lo hi).1
                ∙ indices-sweep_element F (d.tape.kind i) _ (d.tape.value i) (d.tape.inputs i)
                ∙ h.edged i lo hi;
          };
          dimension = refl;
          size = refl;
          kind = λ i. refl;
          solved = λ A new x s. record {
            loaded = s.loaded;
            computed = λ i lo hi.
                s.computed i lo hi
                ∙ ap (apply A (d.tape.kind i) x) (swept i lo hi).0
                ∙ sweep_element_again F A (d.tape.kind i) x _ (d.tape.value i) (d.tape.inputs i);
          };
        }

  after_call-IsAfter :
      (c : Call D) (d : Differentiator D) → IsDifferentiator d → IsAfter d (after_call c d)
  after_call-IsAfter (evaluation arg) d h = evaluate-IsAfter d h arg
  after_call-IsAfter (differentiation arg) d h = differentiate-IsAfter d h arg

  pub after_calls-IsAfter :
      (cs : List (Call D)) (d : Differentiator D)
      → IsDifferentiator d
      → IsAfter d (after_calls cs d)
  after_calls-IsAfter [] d h = IsAfter-refl d h
  after_calls-IsAfter (c ∷ cs) d h =
      let first = after_call-IsAfter c d h in
      IsAfter-trans first (after_calls-IsAfter cs (after_call c d) first.differentiator)
