-- ===== src/Config/Node.antt =====
-- system_config/include/ConfigNode.h and Configuration::serialize_internal.
use supplementary.Base.{ℕ, zero, suc, [], ◌∷◌, ◌++◌}
use supplementary.Config.Words.{Word}

-- A node of each type; only a Node is ever given children.
mutual
  pub data ConfigNode : Type 0 where
    section : Word → Children → ConfigNode
    leaf : Word → Word → ConfigNode
    comment : Word → ConfigNode

  pub data Children : Type 0 where
    nil : Children
    cons : ConfigNode → Children → Children

-- children.push_back
unfoldable pub push : Children → ConfigNode → Children
push nil n = cons n nil
push (cons m ms) n = cons m (push ms n)

-- string(depth, '\t')
unfoldable pub tabs : ℕ → Word
tabs zero = []
tabs (suc d) = 9 ∷ tabs d

-- The tabs of a depth, a body and endl.
unfoldable pub put_line : ℕ → Word → Word
unfolding tabs
put_line d body = tabs d ++ (body ++ 10 ∷ [])

-- What a node writes, of which the depth is given.
unfoldable mutual
  pub serialize_internal : ℕ → ConfigNode → Word
  serialize_internal d (section n cs) =
      put_line d (b'[' ∷ (n ++ b']' ∷ []))
      ++ (serialize_children (suc d) cs ++ put_line d (b'[' ∷ b'!' ∷ (n ++ b']' ∷ [])))
  serialize_internal d (leaf n v) = put_line d (n ++ b' ' ∷ b'=' ∷ b' ' ∷ v)
  serialize_internal d (comment n) = put_line d (b'#' ∷ b' ' ∷ n)

  pub serialize_children : ℕ → Children → Word
  serialize_children d nil = []
  serialize_children d (cons n ns) = serialize_internal d n ++ serialize_children d ns

abbrev pub root : Word
root = b'r' ∷ b'o' ∷ b'o' ∷ b't' ∷ []

-- serialize_without_root and serialize of a configuration, by the children of its root.
unfoldable pub serialize_without_root : Children → Word
serialize_without_root cs = serialize_children 1 cs

unfoldable pub serialize : Children → Word
serialize cs = serialize_internal 0 (section root cs)
