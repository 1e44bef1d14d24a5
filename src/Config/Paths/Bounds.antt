-- ===== src/Config/Paths/Bounds.antt =====
-- system_config/src/Configuration.cpp: which nodes collect finds, and what get makes of them.
use supplementary.Base.{
  ◌≡◌, inl, inr, refl, sym, subst, ap, ◌∙◌, Bool, true, false, List, [], ◌∷◌, ◌++◌, In, In-append,
  In-append_left, In-append_right, Bool-cases, if◌then◌else◌, arith,
}
use supplementary.Config.Words.{Word, equal}
use supplementary.Config.Words.Laws.{equal_refl}
use supplementary.Config.Node.{ConfigNode}
use supplementary.Config.Paths.{
  name_of, children_of, nodes, has_name, collect_named, try_names, collect,
}

-- A node at a path: each name of the path is that of a child.
abbrev pub IsAt : List Word → ConfigNode → ConfigNode → Type 0
IsAt [] n x = x ≡ n
IsAt (p ∷ ps) n x = (c : ConfigNode) × In c (nodes (children_of n)) × (name_of c ≡ p) × IsAt ps c x

-- The same, where a child may have the name of a later part of the path.
abbrev pub IsNear : List Word → ConfigNode → ConfigNode → Type 0
IsNear [] n x = x ≡ n
IsNear (p ∷ ps) n x =
    (c : ConfigNode) × In c (nodes (children_of n)) × In (name_of c) (p ∷ ps) × IsNear ps c x

equal_sound : (a b : Word) → equal a b ≡ true → a ≡ b
unfolding equal
equal_sound [] [] h = refl
equal_sound [] (d ∷ b) h = cc
equal_sound (c ∷ a) [] h = cc
equal_sound (c ∷ a) (d ∷ b) h = ground (arith, h, equal_sound a b)

if_true : (b : Bool) (xs : List ConfigNode) → b ≡ true → (if b then xs else []) ≡ xs
if_true true xs h = refl
if_true false xs h = cc

if_false : (b : Bool) (xs : List ConfigNode) → b ≡ false → (if b then xs else []) ≡ []
if_false true xs h = cc
if_false false xs h = refl

module _ (f : ConfigNode → List ConfigNode) where
  named_In :
      (p : Word) (cs : List ConfigNode) (c x : ConfigNode)
      → In c cs
      → name_of c ≡ p
      → In x (f c)
      → In x (collect_named f p cs)
  unfolding collect_named
  named_In p [] c x m e h = elim m [ ]
  named_In p (d ∷ cs) c x (inl q) e h =
      let t : equal (name_of d) p ≡ true =
        subst (λ w. equal w p ≡ true) (sym e ∙ ap name_of q) (equal_refl p) in
      rw t (In-append_left x (f d) (collect_named f p cs) (subst (λ z. In x (f z)) q h))
  named_In p (d ∷ cs) c x (inr m) e h =
      In-append_right x (if equal (name_of d) p then f d else []) (collect_named f p cs)
        (named_In p cs c x m e h)

  named_from :
      (p : Word) (cs : List ConfigNode) (x : ConfigNode)
      → In x (collect_named f p cs)
      → (c : ConfigNode) × In c cs × (name_of c ≡ p) × In x (f c)
  unfolding collect_named
  named_from p [] x h = elim h [ ]
  named_from p (d ∷ cs) x h =
      elim (In-append x (if equal (name_of d) p then f d else []) (collect_named f p cs) h) [
        | inl m ↦ elim (Bool-cases (equal (name_of d) p)) [
          | inl e ↦ (
            d,
            inl refl,
            equal_sound (name_of d) p e,
            subst (In x) (if_true (equal (name_of d) p) (f d) e) m,
          )
          | inr e ↦ absurd (subst (In x) (if_false (equal (name_of d) p) (f d) e) m)
        ]
        | inr m ↦ let (c, i, e, k) = named_from p cs x m in (c, inr i, e, k)
      ]

  has_In :
      (p : Word) (cs : List ConfigNode) (c : ConfigNode)
      → In c cs
      → name_of c ≡ p
      → has_name p cs ≡ true
  unfolding has_name
  has_In p [] c m e = elim m [ ]
  has_In p (d ∷ cs) c (inl q) e =
      let t : equal (name_of d) p ≡ true =
        subst (λ w. equal w p ≡ true) (sym e ∙ ap name_of q) (equal_refl p) in
      rw t refl
  has_In p (d ∷ cs) c (inr m) e = ground (arith, has_In p cs c m e)

  pub try_from :
      (ps : List Word) (cs : List ConfigNode) (x : ConfigNode)
      → In x (try_names f ps cs)
      → (c : ConfigNode) × In c cs × In (name_of c) ps × In x (f c)
  unfolding try_names
  try_from [] cs x h = elim h [ ]
  try_from (p ∷ ps) cs x h = elim (Bool-cases (has_name p cs)) [
    | inr e ↦
        absurd
          (subst (In x) (if_false (has_name p cs) (collect_named f p cs ++ try_names f ps cs) e) h)
    | inl e ↦
        elim (In-append x (collect_named f p cs) (try_names f ps cs) (
          subst (In x) (if_true (has_name p cs) (collect_named f p cs ++ try_names f ps cs) e) h)) [
            | inl m ↦ let (c, i, q, k) = named_from p cs x m in (c, i, inl q, k)
            | inr m ↦ let (c, i, q, k) = try_from ps cs x m in (c, i, inr q, k)
          ]
  ]

  pub try_In :
      (p : Word) (ps : List Word) (cs : List ConfigNode) (c x : ConfigNode)
      → In c cs
      → name_of c ≡ p
      → In x (f c)
      → In x (try_names f (p ∷ ps) cs)
  unfolding try_names
  try_In p ps cs c x i e k =
      subst (In x)
        (sym
          (if_true (has_name p cs) (collect_named f p cs ++ try_names f ps cs) (has_In p cs c i e)))
        (In-append_left x (collect_named f p cs) (try_names f ps cs) (named_In p cs c x i e k))

pub IsAt-collect : (ps : List Word) (n x : ConfigNode) → IsAt ps n x → In x (collect ps n)
unfolding collect
IsAt-collect [] n x h = inl h
IsAt-collect (p ∷ ps) n x (c, i, e, k) =
    try_In (collect ps) p ps (nodes (children_of n)) c x i e (IsAt-collect ps c x k)

pub collect-IsNear : (ps : List Word) (n x : ConfigNode) → In x (collect ps n) → IsNear ps n x
unfolding collect
collect-IsNear [] n x (inl h) = h
collect-IsNear [] n x (inr h) = absurd h
collect-IsNear (p ∷ ps) n x h =
    let (c, i, e, k) = try_from (collect ps) (p ∷ ps) (nodes (children_of n)) x h in
    (c, i, e, collect-IsNear ps c x k)

one_name : (p : Word) (n x : ConfigNode) → In x (collect (p ∷ []) n) → IsAt (p ∷ []) n x
one_name p n x h =
    let (c, i, e, k) = collect-IsNear (p ∷ []) n x h in
    (c, i, elim e [ inl q ↦ q | inr f ↦ absurd f ], k)

-- collect finds every node at a path, and each node that it finds is reached by as many names, each of
-- which is the name of the path at its place or a later one; for a path of one name these are the
-- nodes at the path.
pub collect_bounds :
    (ps : List Word) (p : Word) (n x : ConfigNode)
    → (IsAt ps n x → In x (collect ps n))
      × (In x (collect ps n) → IsNear ps n x)
      × (In x (collect (p ∷ []) n) → IsAt (p ∷ []) n x)
collect_bounds ps p n x = (IsAt-collect ps n x, collect-IsNear ps n x, one_name p n x)
