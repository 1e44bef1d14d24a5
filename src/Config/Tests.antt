-- ===== src/Config/Tests.antt =====
-- Runs of Configuration on a section "ab" with the entry "k = v w", after a comment.
use supplementary.Base.{◌≡◌, ◌≢◌, ◌⊎◌, refl, List, [], ◌∷◌, ◌++◌, In, All, arith}
use supplementary.Config.Words.{Word, trim, trim_left, unquote, equal, lines_of}
use supplementary.Config.Node.{
  ConfigNode, section, leaf, comment, Children, nil, cons, serialize_without_root, serialize,
  serialize_children, root,
}
use supplementary.Config.Load.{
  load, done, malformed, crashed, scan_line, load_lines, read_part, read_element, scan, key_value,
  add_node, finish,
}
use supplementary.Config.Load.Ends.{Ends, load-Ends}
use supplementary.Config.Load.Texts.{IsTag, IsKey, IsEntry}
use supplementary.Config.RoundTrip.{ArePrintable, load-serialize_without_root, load-serialize}
use supplementary.Config.Errors.{open_text, close_text, entry_text, load-errors}
use supplementary.Config.Paths.{
  collect, get_params, get_sections, try_get_sections, get_names, try_get_names, found, get,
  try_get, get_all,
}
use supplementary.Config.Paths.Bounds.{IsAt, IsNear, collect_bounds}
use supplementary.Config.Paths.Get.{
  IsMissing, IsGot, get_correct, IsInside, IsNearInside, names_correct, join, get_params-join,
}
use supplementary.Config.Write.{Pointer, collect_places, set}
use supplementary.Config.Write.Nodes.{bare_at}
use supplementary.Config.Write.Correct.{AllWritten, set_correct, get-set, repeat}

abbrev ab : Word
ab = b'a' ∷ b'b' ∷ []

abbrev key : Word
key = b'k' ∷ []

abbrev value : Word
value = b'v' ∷ b' ' ∷ b'w' ∷ []

abbrev tree : Children
tree = cons (comment (b'h' ∷ b'i' ∷ [])) (cons (section ab (cons (leaf key value) nil)) nil)

tree-ArePrintable : ArePrintable tree
unfolding trim
tree-ArePrintable = ground arith

load-serialize_without_root_example : load (serialize_without_root tree) ≡ done tree
load-serialize_without_root_example = load-serialize_without_root tree tree-ArePrintable

load-serialize_example : load (serialize tree) ≡ done (cons (section root tree) nil)
load-serialize_example = load-serialize tree tree-ArePrintable

load-Ends_example : Ends (load (b'<' ∷ b'a' ∷ b'>' ∷ b'#' ∷ b'b' ∷ b'c' ∷ []))
load-Ends_example = load-Ends (b'<' ∷ b'a' ∷ b'>' ∷ b'#' ∷ b'b' ∷ b'c' ∷ [])

-- A comment of two characters is lost.
short_comment : load (b'#' ∷ b'x' ∷ 10 ∷ []) ≡ done nil
unfolding load lines_of scan_line load_lines scan read_part finish trim_left
short_comment = refl

-- A line with no '=' is an entry with an empty key.
no_equals : load (b'a' ∷ b'b' ∷ b'c' ∷ []) ≡ done (cons (leaf [] []) nil)
unfolding load lines_of scan_line load_lines scan read_part read_element key_value add_node finish
    unquote
no_equals = refl

ab-IsTag : IsTag ab
ab-IsTag = ground arith

key-IsTag : IsTag key
key-IsTag = ground arith

key-IsKey : IsKey key
unfolding trim
key-IsKey = ground arith

value-IsEntry : IsEntry value
unfolding trim
value-IsEntry = ground arith

load-errors_example :
    (load (open_text ab ++ serialize_children 2 tree) ≡ malformed)
    × (load (open_text ab ++ (serialize_children 2 tree ++ (close_text key ++ value))) ≡ malformed)
    × (load (serialize_children 1 tree ++ (close_text root ++ (entry_text key value ++ value)))
        ≡ crashed)
unfolding equal
load-errors_example =
    load-errors ab key tree key value value ab-IsTag key-IsTag refl tree-ArePrintable key-IsKey
      value-IsEntry

abbrev whole : ConfigNode
whole = section root tree

abbrev entry : ConfigNode
entry = leaf key value

collect_bounds_example :
    (IsAt (ab ∷ key ∷ []) whole entry → In entry (collect (ab ∷ key ∷ []) whole))
    × (In entry (collect (ab ∷ key ∷ []) whole) → IsNear (ab ∷ key ∷ []) whole entry)
    × (In entry (collect (ab ∷ []) whole) → IsAt (ab ∷ []) whole entry)
collect_bounds_example = collect_bounds (ab ∷ key ∷ []) ab whole entry

abbrev same : Word → Word
same w = w

get_correct_example :
    IsMissing same [] (ab ∷ key ∷ []) whole
    ⊎ ((x : ConfigNode) × (xs : List ConfigNode) × IsGot same [] (ab ∷ key ∷ []) whole x xs)
get_correct_example = get_correct same [] (ab ∷ key ∷ []) whole

names_correct_example :
    (IsInside (get_params b'.' (ab ∷ [])) whole (section key nil)
      → (get_sections (ab ∷ []) whole ≡ found (try_get_sections [] (ab ∷ []) whole))
        × In key (try_get_sections [] (ab ∷ []) whole))
    × (IsInside (get_params b'.' (ab ∷ [])) whole (leaf key value)
        → (get_names (ab ∷ []) whole ≡ found (try_get_names [] (ab ∷ []) whole))
          × In key (try_get_names [] (ab ∷ []) whole))
    × ((ns : List Word)
        → get_sections (ab ∷ []) whole ≡ found ns
        → (try_get_sections [] (ab ∷ []) whole ≡ ns)
          × (In key ns
              → (ks : Children) × IsNearInside (get_params b'.' (ab ∷ [])) whole (section key ks)))
    × ((ns : List Word)
        → get_names (ab ∷ []) whole ≡ found ns
        → (try_get_names [] (ab ∷ []) whole ≡ ns)
          × (In key ns → (w : Word) × IsNearInside (get_params b'.' (ab ∷ [])) whole (leaf key w)))
names_correct_example = names_correct [] (ab ∷ []) whole key value nil

ab_plain : All (λ c. c ≢ b'.') ab
ab_plain = ground arith

key_plain : All (All (λ c. c ≢ b'.')) (key ∷ [])
key_plain = ground arith

get_params-join_example :
    (get_params b'.' (join b'.' ab (key ∷ []) ∷ []) ≡ ab ∷ key ∷ [])
    × (get_params b'.' (ab ∷ key ∷ []) ≡ ab ∷ key ∷ [])
get_params-join_example = get_params-join b'.' ab (key ∷ []) ab_plain key_plain

-- An entry of a section "b" is collected for "a.b" where the section "a" has none.
near_match :
    collect ((b'a' ∷ []) ∷ (b'b' ∷ []) ∷ []) (
      section root (
        cons
          (section (b'a' ∷ []) nil)
          (cons (section (b'b' ∷ []) (cons (leaf (b'b' ∷ []) value) nil)) nil)))
    ≡ leaf (b'b' ∷ []) value ∷ []
unfolding collect
near_match = refl

set_correct_example :
    AllWritten key
      (collect (get_params b'.' (ab ∷ key ∷ [])) whole)
      (collect (get_params b'.' (ab ∷ key ∷ [])) (set key (ab ∷ key ∷ []) whole))
    × ((q : Pointer)
        → ¬ In q (collect_places (get_params b'.' (ab ∷ key ∷ [])) whole)
        → bare_at q (set key (ab ∷ key ∷ []) whole) ≡ bare_at q whole)
set_correct_example = set_correct key (ab ∷ key ∷ []) whole

collect-whole : collect (get_params b'.' (ab ∷ key ∷ [])) whole ≡ entry ∷ []
unfolding collect get_params
collect-whole = ground arith

get-set_example :
    (get same (ab ∷ key ∷ []) (set ab (ab ∷ key ∷ []) whole) ≡ found ab)
    × (try_get same [] (ab ∷ key ∷ []) (set ab (ab ∷ key ∷ []) whole) ≡ ab)
    × (get_all same (ab ∷ key ∷ []) (set ab (ab ∷ key ∷ []) whole) ≡ found (repeat ab (entry ∷ [])))
get-set_example = get-set same ab [] (ab ∷ key ∷ []) whole entry [] collect-whole (tt, tt)

-- The entry that set writes, at the first child of the second child of the root.
set_place : collect_places (ab ∷ key ∷ []) whole ≡ (1 ∷ 0 ∷ []) ∷ []
unfolding collect_places
set_place = ground arith
