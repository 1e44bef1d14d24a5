-- ===== src/Config/RoundTrip.antt =====
-- system_config/src/Configuration.cpp: load() reads what serialize_without_root and serialize write.
use supplementary.Base.{
  ℕ, suc, ◌≡◌, ◌≢◌, refl, sym, ap, ◌∙◌, List, [], ◌∷◌, ◌++◌, All, All-append, All-map, append_nil,
  arith,
}
use mathlib.Core.List.{append_assoc}
use supplementary.Config.Words.{Word, trim_left, lines_of}
use supplementary.Config.Node.{
  ConfigNode, section, leaf, comment, Children, nil, cons, push, put_line, serialize_internal,
  serialize_children, serialize_without_root, serialize, root,
}
use supplementary.Config.Load.{Frame, done, ◌>>=◌, scan_line, load_lines, finish, load, top}
use supplementary.Config.Load.Lines.{open_line, close_line, comment_line, entry_line}
use supplementary.Config.Load.Texts.{IsTag, IsKey, IsEntry, IsRemark, load-put_line}

-- The trees that a text keeps.
abbrev mutual
  pub IsPrintable : ConfigNode → Type 0
  IsPrintable (section n cs) = IsTag n × ArePrintable cs
  IsPrintable (leaf k v) = IsKey k × IsEntry v
  IsPrintable (comment t) = IsRemark t

  pub ArePrintable : Children → Type 0
  ArePrintable nil = Unit {0}
  ArePrintable (cons n ns) = IsPrintable n × ArePrintable ns

unfoldable pub push_all : Children → Children → Children
push_all cs nil = cs
push_all cs (cons n ns) = push_all (push cs n) ns

push_all-cons :
    (n : ConfigNode) (cs ns : Children) → push_all (cons n cs) ns ≡ cons n (push_all cs ns)
unfolding push_all push
push_all-cons n cs nil = refl
push_all-cons n cs (cons m ns) = push_all-cons n (push cs m) ns

pub push_all_nil : (ns : Children) → push_all nil ns ≡ ns
unfolding push_all push
push_all_nil nil = refl
push_all_nil (cons n ns) = push_all-cons n nil ns ∙ ap (cons n) (push_all_nil ns)

-- A line of which the loop makes one node, or a change of the frames.
pub step_line :
    (d : ℕ) (body rest : Word) (fs gs : List Frame)
    → All (λ c. c ≢ 10) body
    → trim_left body ≡ body
    → scan_line body fs ≡ done gs
    → load_lines (lines_of (put_line d body ++ rest)) fs ≡ load_lines (lines_of rest) gs
step_line d body rest fs gs h t e =
    load-put_line d body rest fs h
    ∙ ap (λ l. scan_line l fs >>= load_lines (lines_of rest)) t
    ∙ ap (λ o. o >>= load_lines (lines_of rest)) e

pub tag_plain : (n : Word) → IsTag n → All (λ c. c ≢ 10) (n ++ b']' ∷ [])
tag_plain [] h = elim h [ ]
tag_plain (c ∷ cs) h =
    All-append (λ c. c ≢ 10) (c ∷ cs) (b']' ∷ [])
      (All-map (λ d. (d ≢ b']') × (d ≢ 10)) (λ d. d ≢ 10) (c ∷ cs) (λ d k. k.1) h.2)
      ((λ (e : b']' ≡ 10). omega arith), tt)

pub key_plain : (k v : Word) → IsKey k → IsEntry v → All (λ c. c ≢ 10) (k ++ b' ' ∷ b'=' ∷ b' ' ∷ v)
key_plain [] v h e = elim h [ ]
key_plain (c ∷ cs) v h e =
    All-append (λ c. c ≢ 10) (c ∷ cs) (b' ' ∷ b'=' ∷ b' ' ∷ v)
      (All-map (λ d. (d ≢ b'=') × (d ≢ b'"') × (d ≢ 10)) (λ d. d ≢ 10) (c ∷ cs) (λ d z. z.2) h.5)
      (
        (λ (z : b' ' ≡ 10). omega arith),
        (
          (λ (z : b'=' ≡ 10). omega arith),
          (
            (λ (z : b' ' ≡ 10). omega arith),
            All-map (λ d. (d ≢ b'"') × (d ≢ 10)) (λ d. d ≢ 10) v (λ d z. z.1) e.1,
          ),
        ),
      )

remark_plain : (t : Word) → IsRemark t → All (λ c. c ≢ 10) (b'#' ∷ b' ' ∷ t)
remark_plain [] h = elim h [ ]
remark_plain (c ∷ cs) h =
    ((λ (e : b'#' ≡ 10). omega arith), ((λ (e : b' ' ≡ 10). omega arith), h.1))

three_parts : (a b c d : Word) → (a ++ (b ++ c)) ++ d ≡ a ++ (b ++ (c ++ d))
three_parts a b c d = append_assoc a (b ++ c) d ∙ ap (λ l. a ++ l) (append_assoc b c d)

pub key_left : (k l : Word) → IsKey k → trim_left (k ++ l) ≡ k ++ l
unfolding trim_left
key_left [] l h = elim h [ ]
key_left (c ∷ cs) l h = ground (arith, h.0)

pub tag_left : (l : Word) → trim_left (b'[' ∷ l) ≡ b'[' ∷ l
unfolding trim_left
tag_left l = refl

hash_left : (l : Word) → trim_left (b'#' ∷ l) ≡ b'#' ∷ l
unfolding trim_left
hash_left l = refl

abbrev pub filled : Frame → Children → Frame
filled f cs = record f { children = cs }

mutual
  unfolding serialize_internal push_all

  load_node :
      (d : ℕ) (n : ConfigNode) (rest : Word) (f : Frame) (fs : List Frame)
      → IsPrintable n
      → load_lines (lines_of (serialize_internal d n ++ rest)) (f ∷ fs)
        ≡ load_lines (lines_of rest) (filled f (push f.children n) ∷ fs)
  load_node d (section n cs) rest f fs h =
      let close : Word = put_line d (b'[' ∷ b'!' ∷ (n ++ b']' ∷ [])) in
      let kids : Word = serialize_children (suc d) cs in
      let fresh : Frame = record { name = n; children = nil } in
      ap (λ l. load_lines (lines_of l) (f ∷ fs))
        (three_parts (put_line d (b'[' ∷ (n ++ b']' ∷ []))) kids close rest)
      ∙ step_line d (b'[' ∷ (n ++ b']' ∷ [])) (kids ++ (close ++ rest)) (f ∷ fs) (fresh ∷ f ∷ fs)
          ((λ (e : b'[' ≡ 10). omega arith), tag_plain n h.0) (tag_left (n ++ b']' ∷ []))
          (open_line n f fs h.0)
      ∙ load_children (suc d) cs (close ++ rest) fresh (f ∷ fs) h.1
      ∙ step_line d (b'[' ∷ b'!' ∷ (n ++ b']' ∷ [])) rest (filled fresh (push_all nil cs) ∷ f ∷ fs)
          (filled f (push f.children (section n (push_all nil cs))) ∷ fs)
          ((λ (e : b'[' ≡ 10). omega arith), ((λ (e : b'!' ≡ 10). omega arith), tag_plain n h.0))
          (tag_left (b'!' ∷ (n ++ b']' ∷ []))) (close_line n (push_all nil cs) f fs h.0)
      ∙ ap (λ ks. load_lines (lines_of rest) (filled f (push f.children (section n ks)) ∷ fs))
          (push_all_nil cs)
  load_node d (leaf k v) rest f fs h =
      step_line d (k ++ b' ' ∷ b'=' ∷ b' ' ∷ v) rest (f ∷ fs) _ (key_plain k v h.0 h.1)
        (key_left k (b' ' ∷ b'=' ∷ b' ' ∷ v) h.0) (entry_line k v f fs h.0 h.1)
  load_node d (comment t) rest f fs h =
      step_line d (b'#' ∷ b' ' ∷ t) rest (f ∷ fs) _ (remark_plain t h) (hash_left (b' ' ∷ t))
        (comment_line t f fs h)

  pub load_children :
      (d : ℕ) (ns : Children) (rest : Word) (f : Frame) (fs : List Frame)
      → ArePrintable ns
      → load_lines (lines_of (serialize_children d ns ++ rest)) (f ∷ fs)
        ≡ load_lines (lines_of rest) (filled f (push_all f.children ns) ∷ fs)
  load_children d nil rest f fs h = refl
  load_children d (cons n ns) rest f fs h =
      ap (λ l. load_lines (lines_of l) (f ∷ fs))
        (append_assoc (serialize_internal d n) (serialize_children d ns) rest)
      ∙ load_node d n (serialize_children d ns ++ rest) f fs h.0
      ∙ load_children d ns rest (filled f (push f.children n)) fs h.1

-- The text of a file's nodes, read to its end.
load_file :
    (d : ℕ) (cs : Children)
    → ArePrintable cs
    → (load_lines (lines_of (serialize_children d cs)) (top nil ∷ []) >>= finish) ≡ done cs
unfolding load_lines lines_of scan_line finish trim_left
load_file d cs h =
    ap (λ l. load_lines (lines_of l) (top nil ∷ []) >>= finish)
      (sym (append_nil (serialize_children d cs)))
    ∙ ap (λ o. o >>= finish) (load_children d cs [] (top nil) [] h)
    ∙ ap done (push_all_nil cs)

-- What a configuration stores, its root left out, is loaded as the same tree: for tags, keys, values and
-- comments that IsPrintable admits.
pub load-serialize_without_root :
    (cs : Children) → ArePrintable cs → load (serialize_without_root cs) ≡ done cs
unfolding load serialize_without_root
load-serialize_without_root cs h = load_file 1 cs h

pub root-IsTag : IsTag root
root-IsTag = (
  (λ (e : b'r' ≡ b'/'). omega arith),
  (λ (e : b'r' ≡ b'!'). omega arith),
  (
    ((λ (e : b'r' ≡ b']'). omega arith), (λ (e : b'r' ≡ 10). omega arith)),
    (
      ((λ (e : b'o' ≡ b']'). omega arith), (λ (e : b'o' ≡ 10). omega arith)),
      (
        ((λ (e : b'o' ≡ b']'). omega arith), (λ (e : b'o' ≡ 10). omega arith)),
        (((λ (e : b't' ≡ b']'). omega arith), (λ (e : b't' ≡ 10). omega arith)), tt),
      ),
    ),
  ),
)

-- What serialize() writes is not loaded as the same tree: its nodes come to stand in a section "root"
-- below the root.
pub load-serialize :
    (cs : Children) → ArePrintable cs → load (serialize cs) ≡ done (cons (section root cs) nil)
unfolding load serialize serialize_internal
load-serialize cs h =
    ap (λ l. load_lines (lines_of l) (top nil ∷ []) >>= finish)
      (sym (append_nil (serialize_internal 0 (section root cs))))
    ∙ load_file 0 (cons (section root cs) nil) ((root-IsTag, h), tt)
