-- ===== src/Config/Write/Nodes.antt =====
-- system_config/include/Configuration.h: what is at a place after set wrote another one.
use supplementary.Base.{
  ℕ, zero, suc, ◌≡◌, ◌≢◌, refl, ap, ◌∙◌, Option, none, some, List, [], ◌∷◌, ◌++◌, length, map,
  if◌then◌else◌, arith, ◌||◌,
}
use supplementary.Config.Words.{Word, equal}
use supplementary.Config.Node.{ConfigNode, section, leaf, comment, Children, nil, cons}
use supplementary.Config.Paths.{name_of, children_of, nodes, has_name}
use supplementary.Config.Write.{
  Pointer, named_places, try_places, collect_places, set_value, set_child, set_at,
}

-- What `f` finds in the child with an index.
abbrev pub at_child : {A : Type 0} → (ConfigNode → Option A) → ℕ → List ConfigNode → Option A
at_child f i [] = none
at_child f zero (c ∷ cs) = f c
at_child f (suc i) (c ∷ cs) = at_child f i cs

-- The node at a place.
unfoldable pub at : Pointer → ConfigNode → Option ConfigNode
at [] n = some n
at (i ∷ q) n = at_child (at q) i (nodes (children_of n))

-- A node without its children.
abbrev pub bare : ConfigNode → ConfigNode
bare (section n cs) = section n nil
bare (leaf n v) = leaf n v
bare (comment n) = comment n

unfoldable pub bare_at : Pointer → ConfigNode → Option ConfigNode
bare_at [] n = some (bare n)
bare_at (i ∷ q) n = at_child (bare_at q) i (nodes (children_of n))

name_set_value : (v : Word) (n : ConfigNode) → name_of (set_value v n) ≡ name_of n
unfolding set_value
name_set_value v (section n cs) = refl
name_set_value v (leaf n w) = refl
name_set_value v (comment n) = refl

pub children_set_value : (v : Word) (n : ConfigNode) → children_of (set_value v n) ≡ children_of n
unfolding set_value
children_set_value v (section n cs) = refl
children_set_value v (leaf n w) = refl
children_set_value v (comment n) = refl

pub set_value_twice : (v : Word) (n : ConfigNode) → set_value v (set_value v n) ≡ set_value v n
unfolding set_value
set_value_twice v (section n cs) = refl
set_value_twice v (leaf n w) = refl
set_value_twice v (comment n) = refl

name_set_at : (v : Word) (q : Pointer) (n : ConfigNode) → name_of (set_at v q n) ≡ name_of n
unfolding set_at
name_set_at v [] n = name_set_value v n
name_set_at v (i ∷ q) (section n cs) = refl
name_set_at v (i ∷ q) (leaf n w) = refl
name_set_at v (i ∷ q) (comment n) = refl

-- A child is written without a change of the result, where `f` does not see the change.
pub child_same :
    {A : Type 0}
    → (f : ConfigNode → Option A) (g : ConfigNode → ConfigNode) (i j : ℕ) (cs : Children)
    → (i ≡ j → (c : ConfigNode) → f (g c) ≡ f c)
    → at_child f j (nodes (set_child g i cs)) ≡ at_child f j (nodes cs)
child_same f g i j nil h = refl
child_same f g zero zero (cons c cs) h = h refl c
child_same f g zero (suc j) (cons c cs) h = refl
child_same f g (suc i) zero (cons c cs) h = refl
child_same f g (suc i) (suc j) (cons c cs) h = child_same f g i j cs (λ e. h (ap suc e))

child_kept :
    {A : Type 0}
    → (P : Option A → Type 0) (f : ConfigNode → Option A) (g : ConfigNode → ConfigNode) (i j : ℕ)
      (cs : Children)
    → ((c : ConfigNode) → P (f c) → P (f (g c)))
    → P (at_child f j (nodes cs))
    → P (at_child f j (nodes (set_child g i cs)))
child_kept P f g i j nil h e = e
child_kept P f g zero zero (cons c cs) h e = h c e
child_kept P f g zero (suc j) (cons c cs) h e = e
child_kept P f g (suc i) zero (cons c cs) h e = e
child_kept P f g (suc i) (suc j) (cons c cs) h e = child_kept P f g i j cs h e

child_set :
    {A : Type 0}
    → (f : ConfigNode → Option A) (g : ConfigNode → ConfigNode) (i : ℕ) (cs : Children) (m k : A)
    → ((c : ConfigNode) → f c ≡ some m → f (g c) ≡ some k)
    → at_child f i (nodes cs) ≡ some m
    → at_child f i (nodes (set_child g i cs)) ≡ some k
child_set f g i nil m k h e = cc
child_set f g zero (cons c cs) m k h e = h c e
child_set f g (suc i) (cons c cs) m k h e = child_set f g i cs m k h e

pub at-set_at :
    (v : Word) (q : Pointer) (n m : ConfigNode)
    → at q n ≡ some m
    → at q (set_at v q n) ≡ some (set_value v m)
unfolding at set_at
at-set_at v [] n m e = ap (λ o. elim o [ none ↦ none | some k ↦ some (set_value v k) ]) e
at-set_at v (i ∷ q) (section n cs) m e =
    child_set (at q) (set_at v q) i cs m (set_value v m) (λ c d. at-set_at v q c m d) e
at-set_at v (i ∷ q) (leaf n w) m e = cc
at-set_at v (i ∷ q) (comment n) m e = cc

-- What a write of its node keeps at a place is kept, whichever node as deep is written.
pub at-set_at_kept :
    (P : Option ConfigNode → Type 0) (v : Word)
    → ((n : ConfigNode) → P (some n) → P (some (set_value v n)))
    → (q p : Pointer) (n : ConfigNode) → length q ≡ length p
    → P (at q n)
    → P (at q (set_at v p n))
unfolding at set_at
at-set_at_kept P v h [] [] n l e = h n e
at-set_at_kept P v h [] (j ∷ p) n l e = absurd (omega arith)
at-set_at_kept P v h (i ∷ q) [] n l e = absurd (omega arith)
at-set_at_kept P v h (i ∷ q) (j ∷ p) (section n cs) l e =
    child_kept P (at q) (set_at v p) j i cs (λ c d. at-set_at_kept P v h q p c (omega arith) d) e
at-set_at_kept P v h (i ∷ q) (j ∷ p) (leaf n w) l e = e
at-set_at_kept P v h (i ∷ q) (j ∷ p) (comment n) l e = e

pub bare_at-set_at :
    (v : Word) (q p : Pointer) (n : ConfigNode) → p ≢ q → bare_at q (set_at v p n) ≡ bare_at q n
unfolding bare_at set_at
bare_at-set_at v [] [] n h = absurd (h refl)
bare_at-set_at v [] (j ∷ p) (section n cs) h = refl
bare_at-set_at v [] (j ∷ p) (leaf n w) h = refl
bare_at-set_at v [] (j ∷ p) (comment n) h = refl
bare_at-set_at v (i ∷ q) [] n h =
    ap (λ cs. at_child (bare_at q) i (nodes cs)) (children_set_value v n)
bare_at-set_at v (i ∷ q) (j ∷ p) (section n cs) h =
    child_same (bare_at q) (set_at v p) j i cs
      (λ e c. bare_at-set_at v q p c (λ d. h (ap (λ k. k ∷ p) e ∙ ap (λ r. i ∷ r) d)))
bare_at-set_at v (i ∷ q) (j ∷ p) (leaf n w) h = refl
bare_at-set_at v (i ∷ q) (j ∷ p) (comment n) h = refl

module _ (f : ConfigNode → List Pointer) (g : ConfigNode → ConfigNode)
    (same_name : (c : ConfigNode) → name_of (g c) ≡ name_of c)
    (same : (c : ConfigNode) → f (g c) ≡ f c) where
  has_name-set_child :
      (p : Word) (i : ℕ) (cs : Children)
      → has_name p (nodes (set_child g i cs)) ≡ has_name p (nodes cs)
  unfolding has_name
  has_name-set_child p i nil = refl
  has_name-set_child p zero (cons c cs) = ap (λ w. equal w p || has_name p (nodes cs)) (same_name c)
  has_name-set_child p (suc i) (cons c cs) =
      ap (λ b. equal (name_of c) p || b) (has_name-set_child p i cs)

  named_places-set_child :
      (p : Word) (k i : ℕ) (cs : Children)
      → named_places f p k (nodes (set_child g i cs)) ≡ named_places f p k (nodes cs)
  unfolding named_places
  named_places-set_child p k i nil = refl
  named_places-set_child p k zero (cons c cs) =
      ap
        (λ w.
          (if equal w p then map (λ q. k ∷ q) (f (g c)) else [])
          ++ named_places f p (suc k) (nodes cs))
        (same_name c)
      ∙ ap
          (λ qs.
            (if equal (name_of c) p then map (λ q. k ∷ q) qs else [])
            ++ named_places f p (suc k) (nodes cs))
          (same c)
  named_places-set_child p k (suc i) (cons c cs) =
      ap (λ qs. (if equal (name_of c) p then map (λ q. k ∷ q) (f c) else []) ++ qs)
        (named_places-set_child p (suc k) i cs)

  try_places-set_child :
      (ps : List Word) (i : ℕ) (cs : Children)
      → try_places f ps (nodes (set_child g i cs)) ≡ try_places f ps (nodes cs)
  unfolding try_places
  try_places-set_child [] i cs = refl
  try_places-set_child (p ∷ ps) i cs =
      ap
        (λ b.
          if b
          then named_places f p zero (nodes (set_child g i cs))
            ++ try_places f ps (nodes (set_child g i cs))
          else [])
        (has_name-set_child p i cs)
      ∙ ap
          (λ qs.
            if has_name p (nodes cs) then qs ++ try_places f ps (nodes (set_child g i cs)) else [])
          (named_places-set_child p zero i cs)
      ∙ ap (λ qs. if has_name p (nodes cs) then named_places f p zero (nodes cs) ++ qs else [])
          (try_places-set_child ps i cs)

-- The places that collect finds are the same after a write.
pub collect_places-set_at :
    (v : Word) (ps : List Word) (q : Pointer) (n : ConfigNode)
    → collect_places ps (set_at v q n) ≡ collect_places ps n
unfolding collect_places set_at
collect_places-set_at v [] q n = refl
collect_places-set_at v (p ∷ ps) [] n =
    ap (λ cs. try_places (collect_places ps) (p ∷ ps) (nodes cs)) (children_set_value v n)
collect_places-set_at v (p ∷ ps) (i ∷ q) (section n cs) =
    try_places-set_child (collect_places ps) (set_at v q) (name_set_at v q)
      (collect_places-set_at v ps q) (p ∷ ps) i cs
collect_places-set_at v (p ∷ ps) (i ∷ q) (leaf n w) = refl
collect_places-set_at v (p ∷ ps) (i ∷ q) (comment n) = refl
