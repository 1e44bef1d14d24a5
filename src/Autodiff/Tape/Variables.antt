-- ===== src/Autodiff/Tape/Variables.antt =====
-- The compiler that the variables give, and where the root of the term comes to stand.
use supplementary.Base.{
  ℕ, zero, suc, ◌<◌, ◌==◌, ◌≡◌, refl, sym, ◌∙◌, ap, subst, inl, inr, Bool, true, false, ◌||◌,
  Option, none, some, List, [], ◌∷◌, ◌++◌, length, get_elem?, length-append, update, arith,
  Bool-cases, Option-cases, append_nil, append_cons,
}
use supplementary.Autodiff.Doubles.{Doubles}
use supplementary.Autodiff.Term.{
  Term, abs, cos, exp, log, sin, lin_sigmoid, and_, or_, max, min, product, atan2, term_power,
  constraint_utility, lt_constraint, lte_constraint, sigmoid, reification, const_power, constant,
  sum, variable, zero as zero_term, gp, get_id,
}
use supplementary.Autodiff.Tape.{
  Kind, Compiler, compiled_variable, push_element, add_variables, find_or_add, compile_unary,
  compile_binary, compile_lin_sigmoid, compile_sum, compile, compile_all, add_element,
}
use supplementary.Autodiff.Tape.Evaluate.{no_tape}

abbrev pub mem : ℕ → List ℕ → Bool
mem i [] = false
mem i (j ∷ js) = (i == j) || mem i js

mem-append : (i : ℕ) (js ks : List ℕ) → mem i (js ++ ks) ≡ (mem i js || mem i ks)
mem-append i [] ks = refl
mem-append i (j ∷ js) ks = ground (arith, mem-append i js ks)

get_elem?-append :
    {A : Type 0} (xs : List A) (x : A) (i : ℕ) (y : A)
    → get_elem? xs i ≡ some y
    → get_elem? (xs ++ x ∷ []) i ≡ some y
get_elem?-append [] x i y e = ground arith
get_elem?-append (z ∷ xs) x zero y e = e
get_elem?-append (z ∷ xs) x (suc i) y e = get_elem?-append xs x i y e

get_elem?_last : {A : Type 0} (xs : List A) (x : A) → get_elem? (xs ++ x ∷ []) (length xs) ≡ some x
get_elem?_last [] x = refl
get_elem?_last (z ∷ xs) x = get_elem?_last xs x

mem-last : (j i : ℕ) (js : List ℕ) → mem j (js ++ i ∷ []) ≡ (mem j js || (j == i))
mem-last j i js = mem-append j js (i ∷ []) ∙ ground arith

module _ (F : Doubles) where
  open F use {D}

  -- The compiler after the variables `js`.
  pub record AddedVariables (js : List ℕ) (c : Compiler D) : Type 0 where
    pub sized : c.tape.size ≡ length js
    pub entries : (i k : ℕ) → c.index_of i ≡ some k → (k < length js) × (get_elem? js k ≡ some i)
    pub known : (i : ℕ) → mem i js ≡ true → (k : ℕ) × (c.index_of i ≡ some k)
    pub fresh : (i : ℕ) → mem i js ≡ false → c.index_of i ≡ none

  add_variable : ℕ → Compiler D → Compiler D
  add_variable i c = record {
    index_of = update c.index_of i (some c.tape.size);
    tape = push_element F compiled_variable F.nil [] c.tape;
  }

  add_variable-AddedVariables :
      (i : ℕ) (js : List ℕ) (c : Compiler D)
      → AddedVariables js c
      → AddedVariables (js ++ i ∷ []) (add_variable i c)
  unfolding add_variable push_element
  add_variable-AddedVariables i js c h = record {
    sized = omega (arith, h.sized, length-append js (i ∷ []));
    entries = λ j k e. elim (Bool-cases (j == i)) [
      | inl q ↦
          let last : (k ≡ length js) × (j ≡ i) = ground (arith, q, e, h.sized) in
          (
            omega (arith, last.0, length-append js (i ∷ [])),
            ap (get_elem? (js ++ i ∷ [])) last.0 ∙ get_elem?_last js i ∙ ap some (sym last.1),
          )
      | inr q ↦
          let old : c.index_of j ≡ some k = ground (arith, q, e) in
          (
            omega (arith, (h.entries j k old).0, length-append js (i ∷ [])),
            get_elem?-append js i k j (h.entries j k old).1,
          )
    ];
    known = λ j m. elim (Bool-cases (j == i)) [
      | inl q ↦ (c.tape.size, ground (arith, q))
      | inr q ↦
          let (k, e) = h.known j (ground (arith, q, m, mem-last j i js)) in
          (k, ground (arith, q, e))
    ];
    fresh = λ j m. ground (arith, h.fresh j, mem-last j i js, m);
  }

  add_variables-AddedVariables :
      (js is : List ℕ) (c : Compiler D)
      → AddedVariables is c
      → AddedVariables (is ++ js) (add_variables F js c)
  unfolding add_variables add_variable
  add_variables-AddedVariables [] is c h = subst (λ l. AddedVariables l c) (sym (append_nil is)) h
  add_variables-AddedVariables (j ∷ js) is c h =
      subst (λ l. AddedVariables l (add_variables F js (add_variable j c))) (append_cons is j js)
        (add_variables-AddedVariables js (is ++ j ∷ []) (add_variable j c)
          (add_variable-AddedVariables j is c h))

  pub variables-AddedVariables : (js : List ℕ) → AddedVariables js (add_variables F js (no_tape F))
  unfolding no_tape
  variables-AddedVariables js = add_variables-AddedVariables js [] (no_tape F) (record {
    sized = refl;
    entries = λ i k e. ground (arith, e);
    known = λ i m. ground (arith, m);
    fresh = λ i m. refl;
  })

  -- The element of a root that is new is the last one.
  abbrev pub IsLast : Option (ℕ × Compiler D) → Type 0
  IsLast none = Unit
  IsLast (some (k, c)) = c.tape.size ≡ suc k

  find_or_add-IsLast :
      (i : ℕ) (c : Compiler D) (o : Option (ℕ × Compiler D))
      → c.index_of i ≡ none
      → IsLast o
      → IsLast (find_or_add F i c o)
  unfolding find_or_add
  find_or_add-IsLast i c o e h =
      subst (λ q. IsLast (elim q [ some j ↦ some (j, c) | none ↦ o ])) (sym e) h

  compile_unary-IsLast :
      (i : ℕ) (k : ℕ → Kind D) (o : Option (ℕ × Compiler D)) → IsLast (compile_unary F i k o)
  unfolding compile_unary add_element push_element
  compile_unary-IsLast i k none = tt
  compile_unary-IsLast i k (some (a, c)) = refl

  compile_lin_sigmoid-IsLast :
      (i : ℕ) (o : Option (ℕ × Compiler D)) → IsLast (compile_lin_sigmoid F i o)
  unfolding compile_lin_sigmoid add_element push_element
  compile_lin_sigmoid-IsLast i none = tt
  compile_lin_sigmoid-IsLast i (some (a, c)) = refl

  compile_sum-IsLast : (i : ℕ) (o : Option (List ℕ × Compiler D)) → IsLast (compile_sum F i o)
  unfolding compile_sum add_element push_element
  compile_sum-IsLast i none = tt
  compile_sum-IsLast i (some (a, c)) = refl

  compile_binary-IsLast :
      (i : ℕ) (k : ℕ → ℕ → Kind D) (o : Option (ℕ × Compiler D))
      (right : Compiler D → Option (ℕ × Compiler D))
      → IsLast (compile_binary F i k o right)
  unfolding compile_binary add_element push_element
  compile_binary-IsLast i k none right = tt
  compile_binary-IsLast i k (some (a, c)) right = elim (Option-cases (right c)) [
    | inl e ↦
        subst
          (λ q. IsLast (elim q [
            | none ↦ none
            | some (b, d) ↦ some (add_element F i (k a b) F.nil (a ∷ b ∷ []) d)
          ]))
          (sym e) tt
    | inr (x, e) ↦
        subst
          (λ q. IsLast (elim q [
            | none ↦ none
            | some (b, d) ↦ some (add_element F i (k a b) F.nil (a ∷ b ∷ []) d)
          ]))
          (sym e) refl
  ]

  abbrev pub is_variable : Term D → Bool
  is_variable (variable i) = true
  is_variable _ = false

  pub compile-IsLast :
      (t : Term D) (c : Compiler D)
      → is_variable t ≡ false
      → c.index_of (get_id t) ≡ none
      → IsLast (compile F t c)
  unfolding compile get_id add_element push_element
  compile-IsLast (abs i t) c v e =
      find_or_add-IsLast i c _ e (compile_unary-IsLast i _ (compile F t c))
  compile-IsLast (cos i t) c v e =
      find_or_add-IsLast i c _ e (compile_unary-IsLast i _ (compile F t c))
  compile-IsLast (exp i t) c v e =
      find_or_add-IsLast i c _ e (compile_unary-IsLast i _ (compile F t c))
  compile-IsLast (log i t) c v e =
      find_or_add-IsLast i c _ e (compile_unary-IsLast i _ (compile F t c))
  compile-IsLast (sin i t) c v e =
      find_or_add-IsLast i c _ e (compile_unary-IsLast i _ (compile F t c))
  compile-IsLast (lin_sigmoid i t) c v e =
      find_or_add-IsLast i c _ e (compile_lin_sigmoid-IsLast i (compile F t c))
  compile-IsLast (and_ i l r) c v e =
      find_or_add-IsLast i c _ e (compile_binary-IsLast i _ (compile F l c) (compile F r))
  compile-IsLast (or_ i l r) c v e =
      find_or_add-IsLast i c _ e (compile_binary-IsLast i _ (compile F l c) (compile F r))
  compile-IsLast (max i l r) c v e =
      find_or_add-IsLast i c _ e (compile_binary-IsLast i _ (compile F l c) (compile F r))
  compile-IsLast (min i l r) c v e =
      find_or_add-IsLast i c _ e (compile_binary-IsLast i _ (compile F l c) (compile F r))
  compile-IsLast (product i l r) c v e =
      find_or_add-IsLast i c _ e (compile_binary-IsLast i _ (compile F l c) (compile F r))
  compile-IsLast (atan2 i l r) c v e =
      find_or_add-IsLast i c _ e (compile_binary-IsLast i _ (compile F l c) (compile F r))
  compile-IsLast (term_power i l r) c v e =
      find_or_add-IsLast i c _ e (compile_binary-IsLast i _ (compile F l c) (compile F r))
  compile-IsLast (constraint_utility i l r) c v e =
      find_or_add-IsLast i c _ e (compile_binary-IsLast i _ (compile F l c) (compile F r))
  compile-IsLast (lt_constraint i l r s) c v e =
      find_or_add-IsLast i c _ e (compile_binary-IsLast i _ (compile F l c) (compile F r))
  compile-IsLast (lte_constraint i l r s) c v e =
      find_or_add-IsLast i c _ e (compile_binary-IsLast i _ (compile F l c) (compile F r))
  compile-IsLast (sigmoid i l r s) c v e =
      find_or_add-IsLast i c _ e (compile_binary-IsLast i _ (compile F l c) (compile F r))
  compile-IsLast (reification i l r lo hi) c v e =
      find_or_add-IsLast i c _ e (compile_binary-IsLast i _ (compile F l c) (compile F r))
  compile-IsLast (const_power i t x) c v e =
      find_or_add-IsLast i c _ e (compile_unary-IsLast i _ (compile F t c))
  compile-IsLast (constant i x) c v e = find_or_add-IsLast i c _ e (refl)
  compile-IsLast (sum i ts) c v e =
      find_or_add-IsLast i c _ e (compile_sum-IsLast i (compile_all F ts c))
  compile-IsLast (variable i) c v e = ground (arith, v)
  compile-IsLast (zero_term i) c v e = find_or_add-IsLast i c _ e (refl)
  compile-IsLast (gp i) c v e = tt
