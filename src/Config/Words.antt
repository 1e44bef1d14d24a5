-- ===== src/Config/Words.antt =====
-- system_config/src/Configuration.cpp: trimLeft, trim and the searches of std::string that load() uses.
-- A text is the list of its characters.
pub mod Laws
use supplementary.Base.{
  ℕ, zero, suc, ◌+◌, ◌==◌, Bool, true, false, ◌||◌, ◌&&◌, Option, none, some, List, [], ◌∷◌, ◌++◌,
  if◌then◌else◌,
}

abbrev pub Word : Type 0
Word = List ℕ

-- The whitespace of trim and trimLeft, " \t".
unfoldable pub is_blank : ℕ → Bool
is_blank c = c == b' ' || c == 9

unfoldable pub trim_left : Word → Word
unfolding is_blank
trim_left [] = []
trim_left (c ∷ cs) = if is_blank c then trim_left cs else c ∷ cs

unfoldable pub trim_right : Word → Word
unfolding is_blank
trim_right [] = []
trim_right (c ∷ cs) = elim (trim_right cs) [
  | [] ↦ if is_blank c then [] else c ∷ []
  | d ∷ ds ↦ c ∷ d ∷ ds
]

unfoldable pub trim : Word → Word
unfolding trim_left trim_right
trim s = trim_right (trim_left s)

-- find(c): the characters before and after the first `c`.
unfoldable pub find : ℕ → Word → Option (Word × Word)
find c [] = none
find c (d ∷ ds) = elim (d == c) [
  | true ↦ some ([], ds)
  | false ↦ elim (find c ds) [ none ↦ none | some (before, after) ↦ some (d ∷ before, after) ]
]

unfoldable pub equal : Word → Word → Bool
equal [] [] = true
equal [] (d ∷ ds) = false
equal (c ∷ cs) [] = false
equal (c ∷ cs) (d ∷ ds) = c == d && equal cs ds

-- A quote is left out, and the character after it is taken whatever it is.
unfoldable pub unquote : Word → Word
unquote [] = []
unquote (c ∷ []) = if c == b'"' then [] else c ∷ []
unquote (c ∷ d ∷ ds) = if c == b'"' then d ∷ unquote ds else c ∷ unquote (d ∷ ds)

-- A character before the first of the lines.
unfoldable pub add_char : ℕ → List Word → List Word
add_char c [] = (c ∷ []) ∷ []
add_char c (l ∷ ls) = (c ∷ l) ∷ ls

-- The lines that getline gives.
unfoldable pub lines_of : Word → List Word
unfolding add_char
lines_of [] = [] ∷ []
lines_of (c ∷ cs) = let rest = lines_of cs in if c == 10 then [] ∷ rest else add_char c rest
