-- ===== src/Config/Load.antt =====
-- system_config/src/Configuration.cpp, Configuration::load.
pub mod Ends
pub mod Texts
pub mod Lines
use supplementary.Base.{
  ℕ, zero, suc, ◌+◌, ◌==◌, Bool, true, false, ◌||◌, ◌&&◌, Option, none, some, List, [], ◌∷◌, ◌++◌,
  length, ltb, if◌then◌else◌,
}
use supplementary.Config.Words.{Word, is_blank, trim_left, trim, find, equal, unquote, lines_of}
use supplementary.Config.Node.{ConfigNode, section, leaf, comment, Children, nil, cons, push, root}

-- A section that is not closed yet. The first of a list of frames is currentNode and the last one
-- configRoot; an empty list is a currentNode of NULL.
pub record Frame : Type 0 where
  pub name : Word
  pub children : Children

-- The exception of load() and, as `crashed`, a call on NULL.
pub data Outcome (A : Type 0) : Type 0 where
  done : A → Outcome A
  malformed : Outcome A
  crashed : Outcome A
  out_of_fuel : Outcome A

-- chrPos, the rest of the line, and the frames after one round of the inner loop.
pub record Cursor : Type 0 where
  pub chr_pos : ℕ
  pub line : Word
  pub frames : List Frame

unfoldable pub add_node : ConfigNode → List Frame → Outcome (List Frame)
unfolding push
add_node n [] = crashed
add_node n (f ∷ fs) = done (record f { children = push f.children n } ∷ fs)

unfoldable pub open_tag : Word → List Frame → Outcome (List Frame)
open_tag n [] = crashed
open_tag n (f ∷ fs) = done (record { name = n; children = nil } ∷ f ∷ fs)

unfoldable pub close_tag : Word → List Frame → Outcome (List Frame)
unfolding push equal
close_tag n [] = malformed
close_tag n (f ∷ []) = if equal n f.name then done [] else malformed
close_tag n (f ∷ g ∷ fs) =
    if equal n f.name
    then done (record g { children = push g.children (section f.name f.children) } ∷ fs)
    else malformed

-- The next step, where there was no exception.
infixl 5 ◌>>=◌
abbrev pub ◌>>=◌ : {A B : Type 0} → Outcome A → (A → Outcome B) → Outcome B
done a >>= f = f a
malformed >>= f = malformed
crashed >>= f = crashed
out_of_fuel >>= f = out_of_fuel

abbrev pub move_to : ℕ → Word → Outcome (List Frame) → Outcome Cursor
move_to p l o = o >>= λ fs. done (record { chr_pos = p; line = l; frames = fs })

-- find(']'), and find('>') if there is none.
unfoldable pub find_end : Word → Option (Word × Word)
unfolding find
find_end l = elim (find b']' l) [ none ↦ find b'>' l | some x ↦ some x ]

unfoldable pub tag : Word → List Frame → Outcome (List Frame)
unfolding open_tag close_tag
tag [] fs = malformed
tag (c ∷ cs) fs = if c == b'/' || c == b'!' then close_tag cs fs else open_tag (c ∷ cs) fs

abbrev pub rest_or : Word → Word → Word
rest_or [] line = line
rest_or (c ∷ cs) line = c ∷ cs

-- A line that starts with `c`, which opens a tag.
unfoldable pub read_tag : ℕ → ℕ → Word → List Frame → Outcome Cursor
read_tag p c cs fs = elim (find_end cs) [
  | none ↦ malformed
  | some (n, after) ↦ move_to (p + (suc (length n) + 1)) (rest_or after (c ∷ cs)) (tag n fs)
]

unfoldable pub key_value : Word → ConfigNode
unfolding find trim
key_value element = elim (find b'=' element) [
  | none ↦ leaf [] []
  | some (key, value) ↦ leaf (trim key) (trim value)
]

unfoldable pub read_element : ℕ → Word → List Frame → Outcome Cursor
read_element p line fs = move_to (p + length line) [] (add_node (key_value (unquote line)) fs)

-- The switch on the first character of the line. An empty line does not come to it.
unfoldable pub read_part : ℕ → Word → List Frame → Outcome Cursor
unfolding is_blank
read_part p [] fs = crashed
read_part p (c ∷ cs) fs =
    if c == b'#'
    then move_to (p + length cs) (c ∷ cs) (add_node (comment (trim cs)) fs)
    else if c == b'<' || c == b'['
    then read_tag p c cs fs
    else if is_blank c
    then done (record { chr_pos = suc p; line = cs; frames = fs })
    else read_element p (c ∷ cs) fs

-- The inner loop over a line of `len` characters.
unfoldable pub scan : ℕ → ℕ → Cursor → Outcome (List Frame)
scan zero len c = out_of_fuel
scan (suc fuel) len c = elim (ltb (suc c.chr_pos) len) [
  | false ↦ done c.frames
  | true ↦ read_part c.chr_pos c.line c.frames >>= scan fuel len
]

unfoldable pub scan_line : Word → List Frame → Outcome (List Frame)
scan_line [] fs = done fs
scan_line (c ∷ cs) fs =
    scan (suc (length (c ∷ cs))) (length (c ∷ cs))
      (record { chr_pos = 1; line = c ∷ cs; frames = fs })

unfoldable pub load_lines : List Word → List Frame → Outcome (List Frame)
load_lines [] fs = done fs
load_lines (l ∷ ls) fs = scan_line (trim_left l) fs >>= load_lines ls

-- The test of load() for a missing closing tag.
unfoldable pub finish : List Frame → Outcome Children
finish [] = malformed
finish (f ∷ []) = done f.children
finish (f ∷ g ∷ fs) = malformed

abbrev pub top : Children → Frame
top cs = record { name = root; children = cs }

-- load() into a new Configuration; the children of its root are the result.
unfoldable pub load : Word → Outcome Children
load content = load_lines (lines_of content) (top nil ∷ []) >>= finish
