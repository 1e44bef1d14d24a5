-- ===== src/Autodiff/Tests.antt =====
-- The differentiator over whole numbers, on small terms.
use supplementary.Base.{
  ap, true, false, ℕ, zero, suc, ◌+◌, ◌-◌, ◌*◌, ◌/◌, ◌≡◌, refl, ◌==◌, ltb, leb, if◌then◌else◌,
  Option, none, some, [], ◌∷◌, get_elem?, arith,
}
use supplementary.Autodiff.Doubles.{Doubles}
use supplementary.Autodiff.Term.{Term, nil, cons, variable, constant, product, sum, max, gp, get_id}
use supplementary.Autodiff.Tape.{
  Tape, compile_variable, compile_binary, compile_sum, add_element, find_or_add, push_element,
  push_index,
}
use supplementary.Autodiff.Tape.Meaning.{Named}
use supplementary.Autodiff.Tape.Variables.{mem}
use supplementary.Autodiff.Tape.Evaluate.{
  Differentiator, make_differentiator, evaluate, wrap, no_tape, std_max,
}
use supplementary.Autodiff.Tape.Sweep.Adjoint.{Exact, IsLinear, dot, reverse_sweep_correct}
use supplementary.Autodiff.Tape.Sweep.{
  differentiate, forward_sweep, reverse_sweep, sweep_from, sweep_element, set_both, set_first,
  set_second,
}
use supplementary.Autodiff.Tape.Correct.{evaluate_correct}
use supplementary.Autodiff.Tape.Calls.{evaluation, differentiation, after_calls}
use supplementary.Autodiff.Tape.Algebra.{values}
use supplementary.Autodiff.Tape.Sweep.Dual.{dual}
use supplementary.Autodiff.Tape.Sweep.Correct.{differentiate_correct}

abbrev power : ℕ → ℕ → ℕ
power b zero = 1
power b (suc e) = b * power b e

-- Whole numbers in place of doubles: what has no value there is the argument.
abbrev whole : Doubles
whole = record {
  D = ℕ;
  nil = 0;
  one = 1;
  add = λ a b. a + b;
  mul = λ a b. a * b;
  sub = λ a b. a - b;
  div = λ a b. a / b;
  neg = λ a. a;
  fabs = λ a. a;
  sin = λ a. a;
  cos = λ a. a;
  exp = λ a. a;
  log = λ a. a;
  pow = power;
  atan2 = λ a b. a + b;
  lt = ltb;
  le = leb;
  eq = λ a b. a == b;
  infinity = 1000000;
  epsilon = 1;
  three_quarters = 1;
  almost_one = 1;
}

-- x * y + x * y, in which the product is one object, and the larger of that and 5.
abbrev shared : Term ℕ
shared = product 3 (variable 1) (variable 2)

abbrev twice : Term ℕ
twice = max 7 (sum 4 (cons shared (cons shared nil))) (constant 5 5)

abbrev three_four : ℕ → ℕ
three_four i = if i == 0 then 3 else 4

abbrev of_variable : ℕ → ℕ
of_variable i = if i == 1 then 3 else 4

abbrev of_term : ℕ → ℕ
of_term i =
    if i == 1 then 3 else if i == 2 then 4 else if i == 3 then 12 else if i == 5 then 5 else 24

abbrev sizes : Option (Differentiator ℕ) → Option ℕ
sizes none = none
sizes (some d) = some d.tape.size

-- Two variables, one product, the sum, the constant and the maximum.
twice_size : sizes (make_differentiator whole 9 twice (1 ∷ 2 ∷ [])) ≡ some 6
unfolding make_differentiator find_or_add compile_binary compile_sum compile_variable push_index
    add_element push_element no_tape
twice_size = refl

gp_size : sizes (make_differentiator whole 9 (gp 3) (1 ∷ 2 ∷ [])) ≡ none
unfolding make_differentiator
gp_size = refl

loads :
    (k i : ℕ)
    → get_elem? (1 ∷ 2 ∷ []) k ≡ some i
    → (three_four k ≡ of_variable i) × (of_term i ≡ of_variable i)
loads zero i e = ground (arith, e)
loads (suc zero) i e = ground (arith, e)
loads (suc (suc k)) i e = ground (arith, e)

shared-Named : Named whole (values whole) of_variable true of_term (λ i. mem i (1 ∷ 2 ∷ [])) shared
shared-Named = (refl, (refl, refl), (refl, refl))

evaluate_correct_example :
    (d : Differentiator ℕ) × (make_differentiator whole 9 twice (1 ∷ 2 ∷ []) ≡ some d)
    × ((evaluate whole three_four
          (after_calls whole (differentiation (λ i. i) ∷ evaluation (λ i. 5) ∷ []) d)).0
        ≡ 24)
unfolding wrap get_id std_max
evaluate_correct_example =
    evaluate_correct whole 9 twice (1 ∷ 2 ∷ []) of_variable of_term three_four loads
      (refl, (refl, (shared-Named, (shared-Named, tt))), refl) refl
      (differentiation (λ i. i) ∷ evaluation (λ i. 5) ∷ [])

whole_exact : Exact whole
whole_exact = record {
  add_comm = λ a b. omega arith;
  add_assoc = λ a b c. omega arith;
  add_nil = λ a. omega arith;
  mul_assoc = λ a b c. grind arith;
  mul_one = λ a. omega arith;
  nil_mul = λ a. omega arith;
  mul_nil = λ a. omega arith;
  mul_add = λ a b c. grind arith;
  add_mul = λ a b c. grind arith;
}

-- The tape of x * y + x * y with the weights at x = 3 and y = 4.
abbrev doubled : Term ℕ
doubled = sum 4 (cons shared (cons shared nil))

abbrev tape_of : Option (Differentiator ℕ) → Tape ℕ
tape_of none = (no_tape whole).tape
tape_of (some d) = d.tape

abbrev swept : Tape ℕ
unfolding make_differentiator forward_sweep
swept =
    forward_sweep whole 2 three_four (tape_of (make_differentiator whole 9 doubled (1 ∷ 2 ∷ [])))

-- The changes where x grows by 1 and y by 2.
abbrev changes : ℕ → ℕ
changes i = if i == 0 then 1 else if i == 1 then 2 else if i == 2 then 10 else 20

linear : IsLinear whole whole_exact 2 swept.inputs changes 4
unfolding swept make_differentiator find_or_add compile_sum push_index compile_binary
    compile_variable add_element push_element no_tape forward_sweep sweep_from sweep_element
    set_both set_first set_second
linear zero lo hi = absurd (omega (arith, lo))
linear (suc zero) lo hi = absurd (omega (arith, lo))
linear (suc (suc zero)) lo hi = ((omega arith, (omega arith, tt)), refl)
linear (suc (suc (suc zero))) lo hi = ((omega arith, (omega arith, tt)), refl)
linear (suc (suc (suc (suc i)))) lo hi = absurd (omega (arith, hi))

reverse_sweep_correct_example : dot whole 2 (reverse_sweep whole 2 swept).adjoint changes ≡ 20
unfolding swept make_differentiator find_or_add compile_sum push_index compile_binary
    compile_variable add_element push_element no_tape forward_sweep sweep_from sweep_element
    set_both set_first set_second
reverse_sweep_correct_example =
    reverse_sweep_correct whole whole_exact 2 swept changes (omega arith) (omega arith) linear

-- The values of x, y and the products, with their changes.
abbrev pair_of : ℕ → ℕ × ℕ
pair_of i =
    if i == 1 then (3, 1) else if i == 2 then (4, 2) else if i == 3 then (12, 10) else (24, 20)

abbrev one_two : ℕ → ℕ
one_two i = if i == 0 then 1 else 2

pairs :
    (k i : ℕ)
    → get_elem? (1 ∷ 2 ∷ []) k ≡ some i
    → ((three_four k, one_two k) ≡ pair_of i) × (pair_of i ≡ pair_of i)
pairs zero i e = let first : 1 ≡ i = ground (arith, e) in (ap pair_of first, refl)
pairs (suc zero) i e = let second : 2 ≡ i = ground (arith, e) in (ap pair_of second, refl)
pairs (suc (suc k)) i e = ground (arith, e)

shared-dual-Named : Named whole (dual whole) pair_of false pair_of (λ i. mem i (1 ∷ 2 ∷ [])) shared
shared-dual-Named = (refl, (refl, refl), (refl, refl))

differentiate_correct_example :
    (d : Differentiator ℕ) × (make_differentiator whole 9 doubled (1 ∷ 2 ∷ []) ≡ some d)
    × ((differentiate whole three_four (after_calls whole (differentiation (λ i. i) ∷ []) d)).0.1
        ≡ 24)
    × (dot whole 2
          (differentiate whole three_four (after_calls whole (differentiation (λ i. i) ∷ []) d)).0.0
          one_two
        ≡ 20)
unfolding wrap get_id
differentiate_correct_example =
    differentiate_correct whole whole_exact 9 doubled (1 ∷ 2 ∷ []) pair_of pair_of three_four
      one_two pairs (refl, (shared-dual-Named, (shared-dual-Named, tt))) refl
      (differentiation (λ i. i) ∷ [])
