-- ===== src/Autodiff/Tape/Extends.antt =====
-- What the compiler keeps: a tape only grows, every entry of the index map is the element of a
-- term, whose meaning any solution of the tape has, and edges end at the operands.
use supplementary.Base.{
  ℕ, suc, ◌<◌, ◌≤◌, ◌≡◌, refl, sym, ◌∙◌, subst, ◌⊎◌, inl, inr, Bool, true, some, List, arith,
  lt_or_eq, map, [], ◌∷◌, ap,
}
use supplementary.Autodiff.Doubles.{Doubles}
use supplementary.Autodiff.Tape.{Kind, Edge, Tape, Compiler, add_element}
use supplementary.Autodiff.Tape.Algebra.{Algebra, apply, operands, Below, Allowed}

pub record Extends {D : Type 0} (c d : Compiler D) : Type 0 where
  pub grows : c.tape.size ≤ d.tape.size
  pub kinds : (i : ℕ) → i < c.tape.size → d.tape.kind i ≡ c.tape.kind i
  pub values : (i : ℕ) → i < c.tape.size → d.tape.value i ≡ c.tape.value i
  pub entries : (i k : ℕ) → c.index_of i ≡ some k → d.index_of i ≡ some k

pub Extends-refl : {D : Type 0} (c : Compiler D) → Extends c c
Extends-refl c = record {
  grows = omega arith;
  kinds = λ i b. refl;
  values = λ i b. refl;
  entries = λ i k e. e;
}

pub Extends-trans : {D : Type 0} {c d e : Compiler D} → Extends c d → Extends d e → Extends c e
Extends-trans p q = record {
  grows = omega (arith, p.grows, q.grows);
  kinds = λ i b. q.kinds i (omega (arith, p.grows)) ∙ p.kinds i b;
  values = λ i b. q.values i (omega (arith, p.grows)) ∙ p.values i b;
  entries = λ i k e. q.entries i k (p.entries i k e);
}

-- New edges have the indices that they are made from.
map-indices :
    {D : Type 0} (w : D) (is : List ℕ)
    → map (λ (e : Edge D). e.index) (map (λ j. record { index = j; weight = w }) is) ≡ is
map-indices w [] = refl
map-indices w (i ∷ is) = ap (λ l. i ∷ l) (map-indices w is)

module _ (F : Doubles) (A : Algebra F.D) (dimension : ℕ) (arg : ℕ → A.X) where
  open F use {D}
  open A use {X}

  -- Values that agree with the arguments and with every element of the tape.
  pub record Solves (t : Tape D) (v : ℕ → X) : Type 0 where
    pub loaded : (i : ℕ) → i < dimension → v i ≡ arg i
    pub computed : (i : ℕ) → dimension ≤ i → i < t.size → v i ≡ apply A (t.kind i) v (t.value i)

  pub Solves-Extends :
      {c d : Compiler D} → Extends c d → (v : ℕ → X) → Solves d.tape v → Solves c.tape v
  Solves-Extends x v s = record {
    loaded = s.loaded;
    computed =
        λ i lo hi. rw (← x.kinds i hi, ← x.values i hi) (s.computed i lo (omega (arith, x.grows)));
  }

  module _ (meaning : ℕ → X) (known : ℕ → Bool) (every : Bool) where
    -- `meaning` is the value of the term with an id, and `known` says which variables were given.
    pub record Compiles (c : Compiler D) : Type 0 where
      pub sized : dimension ≤ c.tape.size
      pub entries :
          (i k : ℕ)
          → c.index_of i ≡ some k
          → (k < c.tape.size) × ((v : ℕ → X) → Solves c.tape v → v k ≡ meaning i)
      pub variables : (i : ℕ) → known i ≡ true → (k : ℕ) × (c.index_of i ≡ some k)
      pub ordered : (i : ℕ) → dimension ≤ i → i < c.tape.size → Below i (c.tape.kind i)
      pub edged :
          (i : ℕ)
          → dimension ≤ i
          → i < c.tape.size
          → map (λ (e : Edge D). e.index) (c.tape.inputs i) ≡ operands (c.tape.kind i)
      pub allowed : (i : ℕ) → dimension ≤ i → i < c.tape.size → Allowed every (c.tape.kind i)

    -- The outcome of compiling a term with the value `x`.
    pub record IsElement (x : X) (c : Compiler D) (k : ℕ) (d : Compiler D) : Type 0 where
      pub extends : Extends c d
      pub compiles : Compiles d
      pub placed : k < d.tape.size
      pub valued : (v : ℕ → X) → Solves d.tape v → v k ≡ x

    module _ (i : ℕ) (k : Kind D) (val : D) (indices : List ℕ) (c : Compiler D) (h : Compiles c)
        (held : operands k ≡ indices) (ok : Allowed every k) (below : Below c.tape.size k)
        (means : (v : ℕ → X) → Solves c.tape v → apply A k v val ≡ meaning i) where
      next : Compiler D
      next = (add_element F i k val indices c).1

      next-Extends : Extends c next
      unfolding next add_element
      next-Extends = record {
        grows = omega arith;
        kinds = λ j b. ground arith;
        values = λ j b. ground arith;
        entries = λ j n e. ground arith;
      }

      next-size : next.tape.size ≡ suc c.tape.size
      unfolding next add_element
      next-size = refl

      next-kind : next.tape.kind c.tape.size ≡ k
      unfolding next add_element
      next-kind = ground arith

      next-value : next.tape.value c.tape.size ≡ val
      unfolding next add_element
      next-value = ground arith

      next-valued : (v : ℕ → X) → Solves next.tape v → v c.tape.size ≡ meaning i
      next-valued v s =
          rw (next-kind, next-value) at (s.computed c.tape.size h.sized (omega (arith, next-size)))
          ∙ means v (Solves-Extends next-Extends v s)

      next_entry :
          (j n : ℕ)
          → next.index_of j ≡ some n
          → (c.index_of j ≡ some n) ⊎ ((j ≡ i) × (n ≡ c.tape.size))
      unfolding next add_element
      next_entry j n e = ground arith

      next-entered :
          (j n : ℕ)
          → (c.index_of j ≡ some n) ⊎ ((j ≡ i) × (n ≡ c.tape.size))
          → (n < next.tape.size) × ((v : ℕ → X) → Solves next.tape v → v n ≡ meaning j)
      next-entered j n (inl e) = (
        omega (arith, next-size, (h.entries j n e).0),
        λ v s. (h.entries j n e).1 v (Solves-Extends next-Extends v s),
      )
      next-entered j n (inr (p, q)) =
          (omega (arith, next-size, q), λ v s. rw (p, q) (next-valued v s))

      next-ordered : (j : ℕ) → dimension ≤ j → j < next.tape.size → Below j (next.tape.kind j)
      next-ordered j lo hi = elim (lt_or_eq j c.tape.size (rw next-size at hi)) [
        | inl b ↦ subst (Below j) (sym (next-Extends.kinds j b)) (h.ordered j lo b)
        | inr e ↦
            subst (λ n. Below n (next.tape.kind n)) (sym e)
              (subst (Below c.tape.size) (sym next-kind) below)
      ]

      next-inputs : (j : ℕ) → j < c.tape.size → next.tape.inputs j ≡ c.tape.inputs j
      unfolding next add_element
      next-inputs j b = ground arith

      next_input :
          next.tape.inputs c.tape.size ≡ map (λ j. record { index = j; weight = F.nil }) indices
      unfolding next add_element
      next_input = ground arith

      next-edged :
          (j : ℕ)
          → dimension ≤ j
          → j < next.tape.size
          → map (λ (e : Edge D). e.index) (next.tape.inputs j) ≡ operands (next.tape.kind j)
      next-edged j lo hi = elim (lt_or_eq j c.tape.size (rw next-size at hi)) [
        | inl b ↦
            ap (map (λ (e : Edge D). e.index)) (next-inputs j b)
            ∙ h.edged j lo b
            ∙ ap operands (sym (next-Extends.kinds j b))
        | inr e ↦
            subst
              (λ n.
                map (λ (e : Edge D). e.index) (next.tape.inputs n) ≡ operands (next.tape.kind n))
              (sym e)
              (ap (map (λ (e : Edge D). e.index)) next_input
                ∙ map-indices F.nil indices
                ∙ sym held
                ∙ ap operands (sym next-kind))
      ]

      next-Allowed : (j : ℕ) → dimension ≤ j → j < next.tape.size → Allowed every (next.tape.kind j)
      next-Allowed j lo hi = elim (lt_or_eq j c.tape.size (rw next-size at hi)) [
        | inl b ↦ subst (Allowed every) (sym (next-Extends.kinds j b)) (h.allowed j lo b)
        | inr e ↦
            subst (λ n. Allowed every (next.tape.kind n)) (sym e)
              (subst (Allowed every) (sym next-kind) ok)
      ]

      next-Compiles : Compiles next
      next-Compiles = record {
        sized = omega (arith, h.sized, next-size);
        entries = λ j n e. next-entered j n (next_entry j n e);
        variables = λ j kn. (
          (h.variables j kn).0,
          next-Extends.entries j (h.variables j kn).0 (h.variables j kn).1,
        );
        ordered = next-ordered;
        edged = next-edged;
        allowed = next-Allowed;
      }

      pub next-IsElement : IsElement (meaning i) c c.tape.size (add_element F i k val indices c).1
      unfolding next
      next-IsElement = record {
        extends = next-Extends;
        compiles = next-Compiles;
        placed = omega (arith, next-size);
        valued = next-valued;
      }
