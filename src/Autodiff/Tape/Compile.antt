-- ===== src/Autodiff/Tape/Compile.antt =====
-- Every visit of Compiler gives an element with the meaning of its term, in any reading.
use supplementary.Base.{ℕ, Bool, ◌≡◌, refl, [], ◌∷◌}
use supplementary.Autodiff.Doubles.{Doubles}
use supplementary.Autodiff.Term.{
  Term, Terms, nil, cons, abs, cos, exp, log, sin, lin_sigmoid, and_, or_, max, min, product, atan2,
  term_power, constraint_utility, lt_constraint, lte_constraint, sigmoid, reification, const_power,
  constant, sum, variable, zero as zero_term, gp,
}
use supplementary.Autodiff.Tape.{
  Kind, Compiler, compiled_abs, compiled_cos, compiled_exp, compiled_log, compiled_sin,
  compiled_and, compiled_or, compiled_max, compiled_min, compiled_product, compiled_atan2,
  compiled_term_power, compiled_utility, compiled_lt, compiled_lte, compiled_reification,
  compiled_const_power, compiled_constant, compile, compile_all, compile_unary, compile_binary,
  find_or_add,
}
use supplementary.Autodiff.Tape.Algebra.{Algebra, Allowed, apply, operands}
use supplementary.Autodiff.Tape.Meaning.{denote, Named, AllNamed}
use supplementary.Autodiff.Tape.Extends.{Extends-refl}
use supplementary.Autodiff.Tape.Represents.{
  Kept, Gives, GivesAll, find_or_add-Gives, next-Gives, compile_unary-Gives, compile_binary-Gives,
  compile_sum-Gives, compile_variable-Gives, push_index-GivesAll,
}

module _ (F : Doubles) (A : Algebra F.D) (env : ℕ → A.X) (dimension : ℕ) (arg meaning : ℕ → A.X)
    (known : ℕ → Bool) (every : Bool) where
  open F use {D}
  open A use {X}

  abbrev Compiled : Term D → Compiler D → Type 0
  Compiled t c =
      Gives F A env dimension arg meaning known every (denote F A env t) c (compile F t c)

  found_unary :
      (i : ℕ) (k : ℕ → Kind D) (f : X → X) (t : Term D) (y : X) (c : Compiler D)
      → ((a : ℕ) (v : ℕ → X) (old : D) → apply A (k a) v old ≡ f (v a))
      → ((a : ℕ) → (operands (k a) ≡ a ∷ []) × Allowed every (k a))
      → Kept F A env dimension arg meaning known every c
      → meaning i ≡ y
      → y ≡ f (denote F A env t)
      → Compiled t c
      → Gives F A env dimension arg meaning known every y c
          (find_or_add F i c (compile_unary F i k (compile F t c)))
  found_unary i k f t y c w b h m q g =
      find_or_add-Gives F A env dimension arg meaning known every i y c _ h m (
        compile_unary-Gives F A env dimension arg meaning known every i k f (denote F A env t) y c w
          b m q (compile F t c) g)

  found_binary :
      (i : ℕ) (k : ℕ → ℕ → Kind D) (f : X → X → X) (l r : Term D) (z : X) (c : Compiler D)
      → ((a b : ℕ) (v : ℕ → X) (old : D) → apply A (k a b) v old ≡ f (v a) (v b))
      → ((a b : ℕ) → (operands (k a b) ≡ a ∷ b ∷ []) × Allowed every (k a b))
      → Kept F A env dimension arg meaning known every c
      → meaning i ≡ z
      → z ≡ f (denote F A env l) (denote F A env r)
      → Compiled l c
      → ((d : Compiler D) → Kept F A env dimension arg meaning known every d → Compiled r d)
      → Gives F A env dimension arg meaning known every z c
          (find_or_add F i c (compile_binary F i k (compile F l c) (compile F r)))
  found_binary i k f l r z c w b h m q g e =
      find_or_add-Gives F A env dimension arg meaning known every i z c _ h m (
        compile_binary-Gives F A env dimension arg meaning known every i k f (denote F A env l)
          (denote F A env r) z c w b m q (compile F l c) (compile F r) g e)

  mutual
    unfolding compile compile_all

    pub compile-Gives :
        (t : Term D) (c : Compiler D)
        → Kept F A env dimension arg meaning known every c
        → Named F A env every meaning known t
        → Compiled t c
    compile-Gives (abs i t) c h n =
        found_unary i compiled_abs A.abs t _ c (λ a v old. refl) (λ a. (refl, n.0)) h n.1 refl
          (compile-Gives t c h n.2)
    compile-Gives (cos i t) c h n =
        found_unary i compiled_cos A.cos t _ c (λ a v old. refl) (λ a. (refl, tt)) h n.0 refl
          (compile-Gives t c h n.1)
    compile-Gives (exp i t) c h n =
        found_unary i compiled_exp A.exp t _ c (λ a v old. refl) (λ a. (refl, tt)) h n.0 refl
          (compile-Gives t c h n.1)
    compile-Gives (log i t) c h n =
        found_unary i compiled_log A.log t _ c (λ a v old. refl) (λ a. (refl, tt)) h n.0 refl
          (compile-Gives t c h n.1)
    compile-Gives (sin i t) c h n =
        found_unary i compiled_sin A.sin t _ c (λ a v old. refl) (λ a. (refl, tt)) h n.0 refl
          (compile-Gives t c h n.1)
    compile-Gives (lin_sigmoid i t) c h n = absurd n
    compile-Gives (and_ i l r) c h n =
        found_binary i compiled_and A.and_ l r _ c (λ a b v old. refl) (λ a b. (refl, n.0)) h n.1
          refl (compile-Gives l c h n.2) (λ d e. compile-Gives r d e n.3)
    compile-Gives (or_ i l r) c h n =
        found_binary i compiled_or A.or_ l r _ c (λ a b v old. refl) (λ a b. (refl, tt)) h n.0 refl
          (compile-Gives l c h n.1) (λ d e. compile-Gives r d e n.2)
    compile-Gives (max i l r) c h n =
        found_binary i compiled_max A.max l r _ c (λ a b v old. refl) (λ a b. (refl, tt)) h n.0 refl
          (compile-Gives l c h n.1) (λ d e. compile-Gives r d e n.2)
    compile-Gives (min i l r) c h n =
        found_binary i compiled_min A.min l r _ c (λ a b v old. refl) (λ a b. (refl, tt)) h n.0 refl
          (compile-Gives l c h n.1) (λ d e. compile-Gives r d e n.2)
    compile-Gives (product i l r) c h n =
        found_binary i compiled_product A.product l r _ c (λ a b v old. refl) (λ a b. (refl, tt)) h
          n.0 refl (compile-Gives l c h n.1) (λ d e. compile-Gives r d e n.2)
    compile-Gives (atan2 i l r) c h n =
        found_binary i compiled_atan2 A.atan2 l r _ c (λ a b v old. refl) (λ a b. (refl, n.0)) h n.1
          refl (compile-Gives l c h n.2) (λ d e. compile-Gives r d e n.3)
    compile-Gives (term_power i l r) c h n =
        found_binary i compiled_term_power A.term_power l r _ c (λ a b v old. refl)
          (λ a b. (refl, tt)) h n.0 refl (compile-Gives l c h n.1) (λ d e. compile-Gives r d e n.2)
    compile-Gives (constraint_utility i l r) c h n =
        found_binary i compiled_utility A.utility l r _ c (λ a b v old. refl) (λ a b. (refl, tt)) h
          n.0 refl (compile-Gives l c h n.1) (λ d e. compile-Gives r d e n.2)
    compile-Gives (lt_constraint i l r s) c h n =
        found_binary i (λ a b. compiled_lt a b s) (A.lt s) l r _ c (λ a b v old. refl)
          (λ a b. (refl, tt)) h n.0 refl (compile-Gives l c h n.1) (λ d e. compile-Gives r d e n.2)
    compile-Gives (lte_constraint i l r s) c h n =
        found_binary i (λ a b. compiled_lte a b s) (A.lte s) l r _ c (λ a b v old. refl)
          (λ a b. (refl, tt)) h n.0 refl (compile-Gives l c h n.1) (λ d e. compile-Gives r d e n.2)
    compile-Gives (sigmoid i l r s) c h n = absurd n
    compile-Gives (reification i l r lo hi) c h n =
        found_binary i (λ a b. compiled_reification a b lo hi) (A.reification lo hi) l r _ c
          (λ a b v old. refl) (λ a b. (refl, tt)) h n.0 refl (compile-Gives l c h n.1)
          (λ d e. compile-Gives r d e n.2)
    compile-Gives (const_power i t e) c h n =
        find_or_add-Gives F A env dimension arg meaning known every i
          (denote F A env (const_power i t e)) c _ h n.0
          (compile_unary-Gives F A env dimension arg meaning known every i
            (λ a. compiled_const_power a e) (A.const_power e) (denote F A env t) _ c
            (λ a v old. refl) (λ a. (refl, tt)) n.0 refl _ (compile-Gives t c h n.1))
    compile-Gives (constant i x) c h n =
        find_or_add-Gives F A env dimension arg meaning known every i (A.constant x) c _ h n (
          next-Gives F A env dimension arg meaning known every i compiled_constant x []
            (A.constant x) c c (Extends-refl c) h (refl, tt) tt n (λ v s. refl))
    compile-Gives (sum i ts) c h n =
        find_or_add-Gives F A env dimension arg meaning known every i _ c _ h n.0 (
          compile_sum-Gives F A env dimension arg meaning known every i ts c n.0 _
            (compile_all-GivesAll ts c h n.1))
    compile-Gives (variable i) c h n =
        compile_variable-Gives F A env dimension arg meaning known every i (env i) c h n.0 n.1
    compile-Gives (zero_term i) c h n =
        find_or_add-Gives F A env dimension arg meaning known every i (A.constant F.nil) c _ h n (
          next-Gives F A env dimension arg meaning known every i compiled_constant F.nil []
            (A.constant F.nil) c c (Extends-refl c) h (refl, tt) tt n (λ v s. refl))
    compile-Gives (gp i) c h n = absurd n

    compile_all-GivesAll :
        (ts : Terms D) (c : Compiler D)
        → Kept F A env dimension arg meaning known every c
        → AllNamed F A env every meaning known ts
        → GivesAll F A env dimension arg meaning known every ts c (compile_all F ts c)
    compile_all-GivesAll nil c h n = record {
      extends = Extends-refl c;
      compiles = h;
      placed = tt;
      valued = λ v s acc. refl;
    }
    compile_all-GivesAll (cons t ts) c h n =
        push_index-GivesAll F A env dimension arg meaning known every t ts c _ (compile_all F ts)
          (compile-Gives t c h n.0) (λ d e. compile_all-GivesAll ts d e n.1)
