-- ===== src/Autodiff/Tape/Represents.antt =====
-- Compiling a term succeeds, and the element it gives has the meaning of the term in any reading.
use supplementary.Base.{
  ℕ, update, ◌<◌, ◌≡◌, refl, sym, ◌∙◌, ap, subst, Bool, true, Option, none, some, List, [], ◌∷◌,
  arith, All, inl, inr, Option-cases,
}
use supplementary.Autodiff.Doubles.{Doubles}
use supplementary.Autodiff.Term.{Term, Terms, cons}
use supplementary.Autodiff.Tape.{
  Kind, Compiler, compiled_sum, add_element, find_or_add, compile_unary, compile_binary,
  compile_sum, compile_variable, push_index,
}
use supplementary.Autodiff.Tape.Algebra.{Algebra, Below, Allowed, apply, operands, sum_up}
use supplementary.Autodiff.Tape.Meaning.{denote, denote_sum}
use supplementary.Autodiff.Tape.Extends.{
  Extends, Extends-refl, Extends-trans, Solves, Solves-Extends, Compiles, IsElement, next-IsElement,
}

module _ (F : Doubles) (A : Algebra F.D) (env : ℕ → A.X) (dimension : ℕ) (arg meaning : ℕ → A.X)
    (known : ℕ → Bool) (every : Bool) where
  open F use {D}
  open A use {X}

  abbrev pub Kept : Compiler D → Type 0
  Kept c = Compiles F A dimension arg meaning known every c

  abbrev pub Gives : X → Compiler D → Option (ℕ × Compiler D) → Type 0
  Gives x c none = ⊥
  Gives x c (some (k, d)) = IsElement F A dimension arg meaning known every x c k d

  -- The elements of the terms of a sum.
  pub record AreElements (ts : Terms D) (c : Compiler D) (is : List ℕ) (d : Compiler D)
      : Type 0 where
    pub extends : Extends c d
    pub compiles : Kept d
    pub placed : All (λ k. k < d.tape.size) is
    pub valued :
        (v : ℕ → X)
        → Solves F A dimension arg d.tape v
        → (acc : X) → sum_up A acc v is ≡ denote_sum F A env acc ts

  abbrev pub GivesAll : Terms D → Compiler D → Option (List ℕ × Compiler D) → Type 0
  GivesAll ts c none = ⊥
  GivesAll ts c (some (is, d)) = AreElements ts c is d

  pub find_or_add-Gives :
      (i : ℕ) (x : X) (c : Compiler D) (o : Option (ℕ × Compiler D))
      → Kept c
      → meaning i ≡ x
      → Gives x c o
      → Gives x c (find_or_add F i c o)
  unfolding find_or_add
  find_or_add-Gives i x c o h m g = elim (Option-cases (c.index_of i)) [
    | inl e ↦ subst (λ q. Gives x c (elim q [ some j ↦ some (j, c) | none ↦ o ])) (sym e) g
    | inr (j, e) ↦
        subst (λ q. Gives x c (elim q [ some j ↦ some (j, c) | none ↦ o ])) (sym e)
          (record {
            extends = Extends-refl c;
            compiles = h;
            placed = (h.entries i j e).0;
            valued = λ v s. (h.entries i j e).1 v s ∙ m;
          })
  ]

  pub next-Gives :
      (i : ℕ) (k : Kind D) (val : D) (is : List ℕ) (x : X) (c d : Compiler D)
      → Extends c d
      → Kept d
      → (operands k ≡ is) × Allowed every k
      → Below d.tape.size k
      → meaning i ≡ x
      → ((v : ℕ → X) → Solves F A dimension arg d.tape v → apply A k v val ≡ x)
      → Gives x c (some (add_element F i k val is d))
  unfolding add_element
  next-Gives i k val is x c d e h l b m w =
      let n =
        next-IsElement F A dimension arg meaning known every i k val is d h l.0 l.1 b
          (λ v s. w v s ∙ sym m) in
      record {
        extends = Extends-trans e n.extends;
        compiles = n.compiles;
        placed = n.placed;
        valued = λ v s. n.valued v s ∙ m;
      }

  pub compile_unary-Gives :
      (i : ℕ) (k : ℕ → Kind D) (f : X → X) (x y : X) (c : Compiler D)
      → ((a : ℕ) (v : ℕ → X) (old : D) → apply A (k a) v old ≡ f (v a))
      → ((a : ℕ) → (operands (k a) ≡ a ∷ []) × Allowed every (k a))
      → meaning i ≡ y
      → y ≡ f x
      → (o : Option (ℕ × Compiler D)) → Gives x c o
      → Gives y c (compile_unary F i k o)
  unfolding compile_unary
  compile_unary-Gives i k f x y c w b m e none g = absurd g
  compile_unary-Gives i k f x y c w b m e (some (a, d)) g =
      next-Gives i (k a) F.nil (a ∷ []) y c d g.extends g.compiles (b a)
        (subst (All (λ j. j < d.tape.size)) (sym (b a).0) (g.placed, tt)) m
        (λ v s. w a v F.nil ∙ ap f (g.valued v s) ∙ sym e)

  module _ (i : ℕ) (k : ℕ → ℕ → Kind D) (f : X → X → X) (x y z : X) (c : Compiler D)
      (w : (a b : ℕ) (v : ℕ → X) (old : D) → apply A (k a b) v old ≡ f (v a) (v b))
      (held : (a b : ℕ) → (operands (k a b) ≡ a ∷ b ∷ []) × Allowed every (k a b))
      (m : meaning i ≡ z) (q : z ≡ f x y) where
    both-Gives :
        (a : ℕ) (d : Compiler D)
        → IsElement F A dimension arg meaning known every x c a d
        → (o : Option (ℕ × Compiler D)) → Gives y d o
        → Gives z c (elim o [
          | none ↦ none
          | some (b, e) ↦ some (add_element F i (k a b) F.nil (a ∷ b ∷ []) e)
        ])
    both-Gives a d g none r = absurd r
    both-Gives a d g (some (b, e)) r =
        next-Gives i (k a b) F.nil (a ∷ b ∷ []) z c e (Extends-trans g.extends r.extends) r.compiles
          (held a b)
          (subst (All (λ j. j < e.tape.size)) (sym (held a b).0)
            (omega (arith, g.placed, r.extends.grows), (r.placed, tt)))
          m
          (λ v s.
            w a b v F.nil
            ∙ ap (λ p. f p (v b)) (g.valued v (Solves-Extends F A dimension arg r.extends v s))
            ∙ ap (f x) (r.valued v s)
            ∙ sym q)

    pub compile_binary-Gives :
        (o : Option (ℕ × Compiler D)) (right : Compiler D → Option (ℕ × Compiler D))
        → Gives x c o
        → ((d : Compiler D) → Kept d → Gives y d (right d))
        → Gives z c (compile_binary F i k o right)
    unfolding compile_binary
    compile_binary-Gives none right g r = absurd g
    compile_binary-Gives (some (a, d)) right g r = both-Gives a d g (right d) (r d g.compiles)

  pub compile_sum-Gives :
      (i : ℕ) (ts : Terms D) (c : Compiler D)
      → meaning i ≡ denote_sum F A env A.nil ts
      → (o : Option (List ℕ × Compiler D)) → GivesAll ts c o
      → Gives (denote_sum F A env A.nil ts) c (compile_sum F i o)
  unfolding compile_sum
  compile_sum-Gives i ts c m none g = absurd g
  compile_sum-Gives i ts c m (some (is, d)) g =
      next-Gives i (compiled_sum is) F.nil is (denote_sum F A env A.nil ts) c d g.extends g.compiles
        (refl, tt) g.placed m (λ v s. g.valued v s A.nil)

  pub compile_variable-Gives :
      (i : ℕ) (x : X) (c : Compiler D)
      → Kept c
      → meaning i ≡ x
      → known i ≡ true
      → Gives x c (compile_variable F i c)
  unfolding compile_variable
  compile_variable-Gives i x c h m k =
      let (j, e) = h.variables i k in
      subst
        (λ q. Gives x c (elim q [
          | some j ↦ some (j, c)
          | none ↦ some (0, record c { index_of = update c.index_of i (some 0) })
        ]))
        (sym e)
        (record {
          extends = Extends-refl c;
          compiles = h;
          placed = (h.entries i j e).0;
          valued = λ v s. (h.entries i j e).1 v s ∙ m;
        })

  rest-GivesAll :
      (t : Term D) (ts : Terms D) (c : Compiler D) (a : ℕ) (d : Compiler D)
      → IsElement F A dimension arg meaning known every (denote F A env t) c a d
      → (o : Option (List ℕ × Compiler D)) → GivesAll ts d o
      → GivesAll (cons t ts) c (elim o [ none ↦ none | some (is, e) ↦ some (a ∷ is, e) ])
  rest-GivesAll t ts c a d g none r = absurd r
  rest-GivesAll t ts c a d g (some (is, e)) r = record {
    extends = Extends-trans g.extends r.extends;
    compiles = r.compiles;
    placed = (omega (arith, g.placed, r.extends.grows), r.placed);
    valued = λ v s acc.
        ap (λ p. sum_up A (A.add acc p) v is)
          (g.valued v (Solves-Extends F A dimension arg r.extends v s))
        ∙ r.valued v s (A.add acc (denote F A env t));
  }

  pub push_index-GivesAll :
      (t : Term D) (ts : Terms D) (c : Compiler D) (o : Option (ℕ × Compiler D))
      (rest : Compiler D → Option (List ℕ × Compiler D))
      → Gives (denote F A env t) c o
      → ((d : Compiler D) → Kept d → GivesAll ts d (rest d))
      → GivesAll (cons t ts) c (push_index F o rest)
  unfolding push_index
  push_index-GivesAll t ts c none rest g r = absurd g
  push_index-GivesAll t ts c (some (a, d)) rest g r =
      rest-GivesAll t ts c a d g (rest d) (r d g.compiles)
