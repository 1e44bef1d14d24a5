-- ===== src/Config/Paths.antt =====
-- system_config/src/Configuration.cpp and system_config/include/Configuration.h: the lookup of paths.
pub mod Bounds
pub mod Get
use supplementary.Base.{
  ℕ, zero, suc, ◌==◌, Bool, true, false, ◌||◌, Option, none, some, List, [], ◌∷◌, ◌++◌, map,
  if◌then◌else◌,
}
use supplementary.Config.Words.{Word, equal, add_char}
use supplementary.Config.Node.{ConfigNode, section, leaf, comment, Children, nil, cons, root}

-- getName, getValue, getChildren: each node has all three.
abbrev pub name_of : ConfigNode → Word
name_of (section n cs) = n
name_of (leaf n v) = n
name_of (comment n) = n

abbrev pub value_of : ConfigNode → Word
value_of (section n cs) = []
value_of (leaf n v) = v
value_of (comment n) = []

abbrev pub children_of : ConfigNode → Children
children_of (section n cs) = cs
children_of (leaf n v) = nil
children_of (comment n) = nil

abbrev pub nodes : Children → List ConfigNode
nodes nil = []
nodes (cons n ns) = n ∷ nodes ns

unfoldable pub has_name : Word → List ConfigNode → Bool
unfolding equal
has_name p [] = false
has_name p (c ∷ cs) = equal (name_of c) p || has_name p cs

-- What `f` collects from the nodes of a name.
unfoldable pub collect_named :
    (ConfigNode → List ConfigNode) → Word → List ConfigNode → List ConfigNode
unfolding equal
collect_named f p [] = []
collect_named f p (c ∷ cs) = (if equal (name_of c) p then f c else []) ++ collect_named f p cs

-- The loop over the names of the path: it ends at the first name that no child has.
unfoldable pub try_names :
    (ConfigNode → List ConfigNode) → List Word → List ConfigNode → List ConfigNode
unfolding has_name collect_named
try_names f [] cs = []
try_names f (p ∷ ps) cs = if has_name p cs then collect_named f p cs ++ try_names f ps cs else []

-- collect, where the path is given from its offset on.
unfoldable pub collect : List Word → ConfigNode → List ConfigNode
unfolding try_names
collect [] n = n ∷ []
collect (p ∷ ps) n = try_names (collect ps) (p ∷ ps) (nodes (children_of n))

unfoldable pub collect_sections : List Word → ConfigNode → List ConfigNode
unfolding try_names
collect_sections [] n = nodes (children_of n)
collect_sections (p ∷ ps) n = try_names (collect_sections ps) (p ∷ ps) (nodes (children_of n))

-- The parts of a text between the separators.
unfoldable pub split_on : ℕ → Word → List Word
unfolding add_char
split_on sep [] = [] ∷ []
split_on sep (c ∷ cs) =
    let rest = split_on sep cs in if c == sep then [] ∷ rest else add_char c rest

-- getParams, by its arguments.
unfoldable pub get_params : ℕ → List Word → List Word
unfolding split_on
get_params sep [] = []
get_params sep (s ∷ ss) = split_on sep s ++ get_params sep ss

-- A result, or the exception for a path that is not found.
pub data Lookup (A : Type 0) : Type 0 where
  found : A → Lookup A
  not_found : Lookup A

-- `convert` is the conversion of a value to the type that the caller asks for.
module _ {T : Type 0} (convert : Word → T) where
  abbrev pub first_value : List ConfigNode → Lookup T
  first_value [] = not_found
  first_value (n ∷ ns) = found (convert (value_of n))

  abbrev pub first_or : T → List ConfigNode → T
  first_or d [] = d
  first_or d (n ∷ ns) = convert (value_of n)

  abbrev pub all_values : List ConfigNode → List T
  all_values [] = []
  all_values (n ∷ ns) = convert (value_of n) ∷ all_values ns

  abbrev pub some_values : List ConfigNode → Lookup (List T)
  some_values [] = not_found
  some_values (n ∷ ns) = found (all_values (n ∷ ns))

  abbrev pub values_or : T → List ConfigNode → List T
  values_or d [] = d ∷ []
  values_or d (n ∷ ns) = all_values (n ∷ ns)

  unfoldable pub get : List Word → ConfigNode → Lookup T
  get path r = first_value (collect (get_params b'.' path) r)

  unfoldable pub try_get : T → List Word → ConfigNode → T
  try_get d path r = first_or d (collect (get_params b'.' path) r)

  unfoldable pub get_all : List Word → ConfigNode → Lookup (List T)
  get_all path r = some_values (collect (get_params b'.' path) r)

  unfoldable pub try_get_all : T → List Word → ConfigNode → List T
  try_get_all d path r = values_or d (collect (get_params b'.' path) r)

abbrev pub section_names : List ConfigNode → List Word
section_names [] = []
section_names (section n cs ∷ ns) = n ∷ section_names ns
section_names (leaf n v ∷ ns) = section_names ns
section_names (comment n ∷ ns) = section_names ns

abbrev pub leaf_names : List ConfigNode → List Word
leaf_names [] = []
leaf_names (section n cs ∷ ns) = leaf_names ns
leaf_names (leaf n v ∷ ns) = n ∷ leaf_names ns
leaf_names (comment n ∷ ns) = leaf_names ns

abbrev pub unless_empty : (List ConfigNode → List Word) → List ConfigNode → Lookup (List Word)
unless_empty f [] = not_found
unless_empty f (n ∷ ns) = found (f (n ∷ ns))

abbrev pub or_default : Word → (List ConfigNode → List Word) → List ConfigNode → List Word
or_default d f [] = d ∷ []
or_default d f (n ∷ ns) = f (n ∷ ns)

unfoldable pub get_sections : List Word → ConfigNode → Lookup (List Word)
get_sections path r = unless_empty section_names (collect_sections (get_params b'.' path) r)

unfoldable pub get_names : List Word → ConfigNode → Lookup (List Word)
get_names path r = unless_empty leaf_names (collect_sections (get_params b'.' path) r)

unfoldable pub try_get_sections : Word → List Word → ConfigNode → List Word
try_get_sections d path r = or_default d section_names (collect_sections (get_params b'.' path) r)

unfoldable pub try_get_names : Word → List Word → ConfigNode → List Word
try_get_names d path r = or_default d leaf_names (collect_sections (get_params b'.' path) r)
