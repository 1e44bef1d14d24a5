-- ===== src/Autodiff/Tape.antt =====
-- autodiff/src/CompiledDifferentiator.cpp: a term is compiled to a tape of elements, in which a term
-- that is met again is one element. A vector is a function with its size. What the visitors print
-- is not modelled.
pub mod Algebra
pub mod Calls
pub mod Compile
pub mod Correct
pub mod Evaluate
pub mod Extends
pub mod Make
pub mod Meaning
pub mod Represents
pub mod Solve
pub mod Sweep
pub mod Variables
use supplementary.Base.{
  ℕ, zero, suc, ◌+◌, ◌-◌, Bool, true, false, Option, none, some, List, [], ◌∷◌, map, length,
  if◌then◌else◌, update,
}
use supplementary.Autodiff.Doubles.{Doubles}
use supplementary.Autodiff.Term.{
  Term, Terms, nil, cons, abs, cos, exp, log, sin, lin_sigmoid, and_, or_, max, min, product, atan2,
  term_power, constraint_utility, lt_constraint, lte_constraint, sigmoid, reification, const_power,
  constant, sum, variable, zero as zero_term, gp, get_id,
}

-- The classes of TapeElement, with the indices and numbers that they hold. The value of a
-- CompiledConstant stands in the tape's values.
pub data Kind (D : Type 0) : Type 0 where
  compiled_abs compiled_cos compiled_exp compiled_log compiled_sin : ℕ → Kind D
  compiled_and compiled_or compiled_max compiled_min compiled_product compiled_atan2
        compiled_term_power compiled_utility :
      ℕ → ℕ → Kind D
  compiled_lt compiled_lte compiled_sigmoid : ℕ → ℕ → D → Kind D
  compiled_reification : ℕ → ℕ → D → D → Kind D
  compiled_const_power : ℕ → D → Kind D
  compiled_sum : List ℕ → Kind D
  compiled_constant compiled_variable : Kind D

pub record Edge (D : Type 0) : Type 0 where
  pub index : ℕ
  pub weight : D

pub record Tape (D : Type 0) : Type 0 where
  pub size : ℕ
  pub kind : ℕ → Kind D
  pub value : ℕ → D
  pub adjoint : ℕ → D
  pub inputs : ℕ → List (Edge D)

-- Compiler: `_indexOf` and `_tape`.
pub record Compiler (D : Type 0) : Type 0 where
  pub index_of : ℕ → Option ℕ
  pub tape : Tape D

module _ (F : Doubles) where
  open F use {D}

  -- tape->push_back(element): a new element's weights and adjoint are 0, and its value is 0 or that
  -- of a CompiledConstant.
  unfoldable pub push_element : Kind D → D → List ℕ → Tape D → Tape D
  push_element k v indices t = record {
    size = suc t.size;
    kind = update t.kind t.size k;
    value = update t.value t.size v;
    adjoint = update t.adjoint t.size F.nil;
    inputs = update t.inputs t.size (map (λ j. record { index = j; weight = F.nil }) indices);
  }

  -- The end of Compiler::compile(term, compiler): the element is pushed and its index inserted.
  unfoldable pub add_element : ℕ → Kind D → D → List ℕ → Compiler D → ℕ × Compiler D
  unfolding push_element
  add_element i k v indices c = (
    c.tape.size,
    record {
      index_of = elim (c.index_of i) [
        | some j ↦ c.index_of
        | none ↦ update c.index_of i (some c.tape.size)
      ];
      tape = push_element k v indices c.tape;
    },
  )

  -- The start of Compiler::compile(term, compiler): a term that is on the tape keeps its element.
  unfoldable pub find_or_add : ℕ → Compiler D → Option (ℕ × Compiler D) → Option (ℕ × Compiler D)
  find_or_add i c added = elim (c.index_of i) [ some j ↦ some (j, c) | none ↦ added ]

  -- The compilers that a visit hands to compile(): the operands first, then the element.
  unfoldable pub compile_unary :
      ℕ → (ℕ → Kind D) → Option (ℕ × Compiler D) → Option (ℕ × Compiler D)
  unfolding add_element
  compile_unary i k none = none
  compile_unary i k (some (a, c)) = some (add_element i (k a) F.nil (a ∷ []) c)

  unfoldable pub compile_binary :
      ℕ
      → (ℕ → ℕ → Kind D)
      → Option (ℕ × Compiler D)
      → (Compiler D → Option (ℕ × Compiler D))
      → Option (ℕ × Compiler D)
  unfolding add_element
  compile_binary i k none right = none
  compile_binary i k (some (a, c)) right = elim (right c) [
    | none ↦ none
    | some (b, d) ↦ some (add_element i (k a b) F.nil (a ∷ b ∷ []) d)
  ]

  -- LinSigmoid makes a CompiledSigmoid whose `_mid` and `_steepness` stay 0, with two inputs, the
  -- second of index 0; Sigmoid leaves `_steepness` at 0.
  unfoldable pub compile_lin_sigmoid : ℕ → Option (ℕ × Compiler D) → Option (ℕ × Compiler D)
  unfolding add_element
  compile_lin_sigmoid i none = none
  compile_lin_sigmoid i (some (a, c)) =
      some (add_element i (compiled_sigmoid a 0 F.nil) F.nil (a ∷ 0 ∷ []) c)

  unfoldable pub compile_sum : ℕ → Option (List ℕ × Compiler D) → Option (ℕ × Compiler D)
  unfolding add_element
  compile_sum i none = none
  compile_sum i (some (indices, c)) = some (add_element i (compiled_sum indices) F.nil indices c)

  -- visit(Variable): `_indexOf[id]` makes an entry 0 where there is none.
  unfoldable pub compile_variable : ℕ → Compiler D → Option (ℕ × Compiler D)
  compile_variable i c = elim (c.index_of i) [
    | some j ↦ some (j, c)
    | none ↦ some (0, record c { index_of = update c.index_of i (some 0) })
  ]

  unfoldable pub push_index :
      Option (ℕ × Compiler D)
      → (Compiler D → Option (List ℕ × Compiler D))
      → Option (List ℕ × Compiler D)
  push_index none rest = none
  push_index (some (a, c)) rest = elim (rest c) [ none ↦ none | some (is, d) ↦ some (a ∷ is, d) ]

  -- The visits of Compiler. `none` is the throw of visit(Gp).
  unfoldable mutual
    pub compile : Term D → Compiler D → Option (ℕ × Compiler D)
    compile (abs i t) c = find_or_add i c (compile_unary i compiled_abs (compile t c))
    compile (cos i t) c = find_or_add i c (compile_unary i compiled_cos (compile t c))
    compile (exp i t) c = find_or_add i c (compile_unary i compiled_exp (compile t c))
    compile (log i t) c = find_or_add i c (compile_unary i compiled_log (compile t c))
    compile (sin i t) c = find_or_add i c (compile_unary i compiled_sin (compile t c))
    compile (lin_sigmoid i t) c = find_or_add i c (compile_lin_sigmoid i (compile t c))
    compile (and_ i l r) c =
        find_or_add i c (compile_binary i compiled_and (compile l c) (compile r))
    compile (or_ i l r) c = find_or_add i c (compile_binary i compiled_or (compile l c) (compile r))
    compile (max i l r) c =
        find_or_add i c (compile_binary i compiled_max (compile l c) (compile r))
    compile (min i l r) c =
        find_or_add i c (compile_binary i compiled_min (compile l c) (compile r))
    compile (product i l r) c =
        find_or_add i c (compile_binary i compiled_product (compile l c) (compile r))
    compile (atan2 i l r) c =
        find_or_add i c (compile_binary i compiled_atan2 (compile l c) (compile r))
    compile (term_power i l r) c =
        find_or_add i c (compile_binary i compiled_term_power (compile l c) (compile r))
    compile (constraint_utility i l r) c =
        find_or_add i c (compile_binary i compiled_utility (compile l c) (compile r))
    compile (lt_constraint i l r s) c =
        find_or_add i c (compile_binary i (λ a b. compiled_lt a b s) (compile l c) (compile r))
    compile (lte_constraint i l r s) c =
        find_or_add i c (compile_binary i (λ a b. compiled_lte a b s) (compile l c) (compile r))
    compile (sigmoid i l r s) c =
        find_or_add i c
          (compile_binary i (λ a b. compiled_sigmoid a b F.nil) (compile l c) (compile r))
    compile (reification i l r lo hi) c =
        find_or_add i c
          (compile_binary i (λ a b. compiled_reification a b lo hi) (compile l c) (compile r))
    compile (const_power i t e) c =
        find_or_add i c (compile_unary i (λ a. compiled_const_power a e) (compile t c))
    compile (constant i d) c = find_or_add i c (some (add_element i compiled_constant d [] c))
    compile (sum i ts) c = find_or_add i c (compile_sum i (compile_all ts c))
    compile (variable i) c = compile_variable i c
    compile (zero_term i) c = find_or_add i c (some (add_element i compiled_constant F.nil [] c))
    compile (gp i) c = none

    pub compile_all : Terms D → Compiler D → Option (List ℕ × Compiler D)
    compile_all nil c = some ([], c)
    compile_all (cons t ts) c = push_index (compile t c) (compile_all ts)

  -- Compiler::Compiler: an element for each variable, by its id.
  unfoldable pub add_variables : List ℕ → Compiler D → Compiler D
  unfolding push_element
  add_variables [] c = c
  add_variables (i ∷ is) c = add_variables is (record {
    index_of = update c.index_of i (some c.tape.size);
    tape = push_element compiled_variable F.nil [] c.tape;
  })
