-- ===== src/Config/Write/Places.antt =====
-- system_config/src/Configuration.cpp: the places that collect finds and the nodes at them.
use supplementary.Base.{
  ℕ, zero, suc, ◌+◌, ◌≡◌, refl, subst, ap, ◌∙◌, Bool, true, false, Option, some, List, [], ◌∷◌,
  ◌++◌, map, length, All, All-append, if◌then◌else◌, arith,
}
use supplementary.Config.Words.{Word, equal}
use supplementary.Config.Node.{ConfigNode}
use supplementary.Config.Paths.{
  name_of, children_of, nodes, has_name, collect_named, try_names, collect,
}
use supplementary.Config.Write.{Pointer, named_places, try_places, collect_places}
use supplementary.Config.Write.Nodes.{at_child, at}

-- The nodes at places, in their order.
abbrev pub IsFound : ConfigNode → List Pointer → List ConfigNode → Type 0
IsFound r [] [] = Unit
IsFound r [] (n ∷ ns) = ⊥
IsFound r (q ∷ qs) [] = ⊥
IsFound r (q ∷ qs) (n ∷ ns) = (at q r ≡ some n) × IsFound r qs ns

IsFound-append :
    (r : ConfigNode) (qs : List Pointer) (ns : List ConfigNode) (ps : List Pointer)
    (ms : List ConfigNode)
    → IsFound r qs ns
    → IsFound r ps ms
    → IsFound r (qs ++ ps) (ns ++ ms)
IsFound-append r [] [] ps ms h k = k
IsFound-append r [] (n ∷ ns) ps ms h k = absurd h
IsFound-append r (q ∷ qs) [] ps ms h k = absurd h
IsFound-append r (q ∷ qs) (n ∷ ns) ps ms h k = (h.0, IsFound-append r qs ns ps ms h.1 k)

IsFound-if :
    (b : Bool) (r : ConfigNode) (qs : List Pointer) (ns : List ConfigNode)
    → IsFound r qs ns
    → IsFound r (if b then qs else []) (if b then ns else [])
IsFound-if true r qs ns h = h
IsFound-if false r qs ns h = tt

pub same_nodes :
    (r : ConfigNode) (qs : List Pointer) (ns ms : List ConfigNode)
    → IsFound r qs ns
    → IsFound r qs ms
    → ns ≡ ms
same_nodes r [] [] [] h k = refl
same_nodes r [] [] (m ∷ ms) h k = absurd k
same_nodes r [] (n ∷ ns) ms h k = absurd h
same_nodes r (q ∷ qs) [] ms h k = absurd h
same_nodes r (q ∷ qs) (n ∷ ns) [] h k = absurd k
same_nodes r (q ∷ qs) (n ∷ ns) (m ∷ ms) h k =
    let e : n ≡ m = cc in ap (λ x. x ∷ ns) e ∙ ap (λ xs. m ∷ xs) (same_nodes r qs ns ms h.1 k.1)

below :
    (r c : ConfigNode) (i : ℕ) (qs : List Pointer) (ns : List ConfigNode)
    → ((f : ConfigNode → Option ConfigNode) → at_child f i (nodes (children_of r)) ≡ f c)
    → IsFound c qs ns
    → IsFound r (map (λ q. i ∷ q) qs) ns
unfolding at
below r c i [] [] h k = tt
below r c i [] (n ∷ ns) h k = absurd k
below r c i (q ∷ qs) [] h k = absurd k
below r c i (q ∷ qs) (n ∷ ns) h k = (h (at q) ∙ k.0, below r c i qs ns h k.1)

module _ (r : ConfigNode) (f : ConfigNode → List Pointer) (g : ConfigNode → List ConfigNode)
    (h : (c : ConfigNode) → IsFound c (f c) (g c)) where
  named-IsFound :
      (p : Word) (i : ℕ) (cs : List ConfigNode)
      → ((k : ConfigNode → Option ConfigNode) (j : ℕ)
          → at_child k (i + j) (nodes (children_of r)) ≡ at_child k j cs)
      → IsFound r (named_places f p i cs) (collect_named g p cs)
  unfolding named_places collect_named
  named-IsFound p i [] e = tt
  named-IsFound p i (c ∷ cs) e =
      IsFound-append r (if equal (name_of c) p then map (λ q. i ∷ q) (f c) else [])
        (if equal (name_of c) p then g c else []) (named_places f p (suc i) cs)
        (collect_named g p cs)
        (IsFound-if (equal (name_of c) p) r (map (λ q. i ∷ q) (f c)) (g c) (
          below r c i (f c) (g c)
            (λ k. subst (λ m. at_child k m (nodes (children_of r)) ≡ k c) (omega arith) (e k zero))
            (h c)))
        (named-IsFound p (suc i) cs (λ k j.
          subst (λ m. at_child k m (nodes (children_of r)) ≡ at_child k j cs) (omega arith)
            (e k (suc j))))

  try-IsFound :
      (ps : List Word)
      → IsFound r (try_places f ps (nodes (children_of r))) (try_names g ps (nodes (children_of r)))
  unfolding try_places try_names
  try-IsFound [] = tt
  try-IsFound (p ∷ ps) =
      let cs : List ConfigNode = nodes (children_of r) in
      IsFound-if (has_name p cs) r (named_places f p zero cs ++ try_places f ps cs)
        (collect_named g p cs ++ try_names g ps cs)
        (IsFound-append r (named_places f p zero cs) (collect_named g p cs) (try_places f ps cs)
          (try_names g ps cs)
          (named-IsFound p zero cs (λ k j. ap (λ m. at_child k m cs) (omega arith)))
          (try-IsFound ps))

pub collect-IsFound :
    (ps : List Word) (r : ConfigNode) → IsFound r (collect_places ps r) (collect ps r)
unfolding collect_places collect at
collect-IsFound [] r = (refl, tt)
collect-IsFound (p ∷ ps) r =
    try-IsFound r (collect_places ps) (collect ps) (collect-IsFound ps) (p ∷ ps)

-- Every place of a list has a depth.
abbrev pub IsDeep : ℕ → List Pointer → Type 0
IsDeep d qs = All (λ q. length q ≡ d) qs

IsDeep-if : (d : ℕ) (b : Bool) (qs : List Pointer) → IsDeep d qs → IsDeep d (if b then qs else [])
IsDeep-if d true qs h = h
IsDeep-if d false qs h = tt

IsDeep-map : (d i : ℕ) (qs : List Pointer) → IsDeep d qs → IsDeep (suc d) (map (λ q. i ∷ q) qs)
IsDeep-map d i [] h = tt
IsDeep-map d i (q ∷ qs) h = (ap suc h.0, IsDeep-map d i qs h.1)

module _ (d : ℕ) (f : ConfigNode → List Pointer) (h : (c : ConfigNode) → IsDeep d (f c)) where
  named-IsDeep : (p : Word) (i : ℕ) (cs : List ConfigNode) → IsDeep (suc d) (named_places f p i cs)
  unfolding named_places
  named-IsDeep p i [] = tt
  named-IsDeep p i (c ∷ cs) =
      All-append (λ q. length q ≡ suc d)
        (if equal (name_of c) p then map (λ q. i ∷ q) (f c) else []) (named_places f p (suc i) cs)
        (IsDeep-if (suc d) (equal (name_of c) p) (map (λ q. i ∷ q) (f c))
          (IsDeep-map d i (f c) (h c)))
        (named-IsDeep p (suc i) cs)

  try-IsDeep : (ps : List Word) (cs : List ConfigNode) → IsDeep (suc d) (try_places f ps cs)
  unfolding try_places
  try-IsDeep [] cs = tt
  try-IsDeep (p ∷ ps) cs =
      IsDeep-if (suc d) (has_name p cs) (named_places f p zero cs ++ try_places f ps cs) (
        All-append (λ q. length q ≡ suc d) (named_places f p zero cs) (try_places f ps cs)
          (named-IsDeep p zero cs) (try-IsDeep ps cs))

pub collect-IsDeep : (ps : List Word) (r : ConfigNode) → IsDeep (length ps) (collect_places ps r)
unfolding collect_places
collect-IsDeep [] r = (refl, tt)
collect-IsDeep (p ∷ ps) r =
    try-IsDeep (length ps) (collect_places ps) (collect-IsDeep ps) (p ∷ ps) (nodes (children_of r))
