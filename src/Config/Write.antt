-- ===== src/Config/Write.antt =====
-- system_config/include/Configuration.h: set, which writes the leaves that collect finds.
pub mod Nodes
pub mod Places
pub mod Correct
use supplementary.Base.{
  ℕ, zero, suc, Bool, true, false, Option, none, some, List, [], ◌∷◌, ◌++◌, map, if◌then◌else◌,
}
use supplementary.Config.Words.{Word, equal}
use supplementary.Config.Node.{ConfigNode, section, leaf, comment, Children, nil, cons}
use supplementary.Config.Paths.{name_of, children_of, nodes, has_name, get_params}

-- The pointer to a node, as the indices of the children that lead to it from the root.
abbrev pub Pointer : Type 0
Pointer = List ℕ

-- The inner loop of collect, from the child with the index `i` on.
unfoldable pub named_places :
    (ConfigNode → List Pointer) → Word → ℕ → List ConfigNode → List Pointer
unfolding equal
named_places f p i [] = []
named_places f p i (c ∷ cs) =
    (if equal (name_of c) p then map (λ q. i ∷ q) (f c) else []) ++ named_places f p (suc i) cs

unfoldable pub try_places : (ConfigNode → List Pointer) → List Word → List ConfigNode → List Pointer
unfolding has_name named_places
try_places f [] cs = []
try_places f (p ∷ ps) cs =
    if has_name p cs then named_places f p zero cs ++ try_places f ps cs else []

-- The pointers that collect puts into its result.
unfoldable pub collect_places : List Word → ConfigNode → List Pointer
unfolding try_places
collect_places [] n = [] ∷ []
collect_places (p ∷ ps) n = try_places (collect_places ps) (p ∷ ps) (nodes (children_of n))

-- setValue, which set calls for a Leaf only.
unfoldable pub set_value : Word → ConfigNode → ConfigNode
set_value v (section n cs) = section n cs
set_value v (leaf n w) = leaf n v
set_value v (comment n) = comment n

abbrev pub set_child : (ConfigNode → ConfigNode) → ℕ → Children → Children
set_child g i nil = nil
set_child g zero (cons c cs) = cons (g c) cs
set_child g (suc i) (cons c cs) = cons c (set_child g i cs)

abbrev pub with_child : (ConfigNode → ConfigNode) → ℕ → ConfigNode → ConfigNode
with_child g i (section n cs) = section n (set_child g i cs)
with_child g i (leaf n w) = leaf n w
with_child g i (comment n) = comment n

-- The tree, after the node at a place was written.
unfoldable pub set_at : Word → Pointer → ConfigNode → ConfigNode
unfolding set_value
set_at v [] n = set_value v n
set_at v (i ∷ q) n = with_child (set_at v q) i n

-- The loop over the nodes that were collected.
unfoldable pub set_all : Word → List Pointer → ConfigNode → ConfigNode
unfolding set_at
set_all v [] r = r
set_all v (q ∷ qs) r = set_all v qs (set_at v q r)

unfoldable pub set : Word → List Word → ConfigNode → ConfigNode
unfolding get_params collect_places set_all
set v path r = set_all v (collect_places (get_params b'.' path) r) r
