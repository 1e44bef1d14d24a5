-- ===== src/Config/Paths/Get.antt =====
-- system_config/include/Configuration.h and system_config/src/Configuration.cpp: get, tryGet, getSections,
-- getNames and getParams.
use supplementary.Base.{
  ℕ, ◌≡◌, ◌≢◌, ◌⊎◌, inl, inr, refl, sym, subst, ap, ◌∙◌, List, [], ◌∷◌, ◌++◌, In, All, append_nil,
  arith,
}
use supplementary.Config.Words.{Word}
use supplementary.Config.Node.{ConfigNode, section, leaf, comment, Children}
use supplementary.Config.Paths.{
  name_of, value_of, children_of, nodes, collect, collect_sections, split_on, get_params, found,
  not_found, get, try_get, get_all, try_get_all, first_value, first_or, some_values, values_or,
  all_values, get_sections, get_names, section_names, leaf_names, unless_empty, try_get_sections,
  try_get_names, or_default,
}
use supplementary.Config.Paths.Bounds.{IsAt, IsNear, IsAt-collect, collect-IsNear, try_In, try_from}

module _ {T : Type 0} (convert : Word → T) (d : T) (path : List Word) (r : ConfigNode) where
  abbrev steps : List Word
  steps = get_params b'.' path

  -- get, tryGet, getAll and tryGetAll where nothing is found, and where `x` is found first.
  abbrev pub IsMissing : Type 0
  IsMissing =
      (get convert path r ≡ not_found)
      × (try_get convert d path r ≡ d)
      × (get_all convert path r ≡ not_found)
      × (try_get_all convert d path r ≡ d ∷ [])
      × ((x : ConfigNode) → ¬ IsAt steps r x)

  abbrev pub IsGot : ConfigNode → List ConfigNode → Type 0
  IsGot x xs =
      (get convert path r ≡ found (convert (value_of x)))
      × (try_get convert d path r ≡ convert (value_of x))
      × (get_all convert path r ≡ found (all_values convert (x ∷ xs)))
      × (try_get_all convert d path r ≡ all_values convert (x ∷ xs))
      × ((y : ConfigNode) → In y (x ∷ xs) → IsNear steps r y)
      × ((y : ConfigNode) → IsAt steps r y → In y (x ∷ xs))

  by_nodes :
      (ns : List ConfigNode)
      → collect steps r ≡ ns
      → IsMissing ⊎ ((x : ConfigNode) × (xs : List ConfigNode) × IsGot x xs)
  unfolding get try_get get_all try_get_all
  by_nodes [] e = inl (
    ap (first_value convert) e,
    ap (first_or convert d) e,
    ap (some_values convert) e,
    ap (values_or convert d) e,
    λ x h. subst (In x) e (IsAt-collect steps r x h),
  )
  by_nodes (x ∷ xs) e = inr (
    x,
    xs,
    (
      ap (first_value convert) e,
      ap (first_or convert d) e,
      ap (some_values convert) e,
      ap (values_or convert d) e,
      (λ y m. collect-IsNear steps r y (subst (In y) (sym e) m)),
      λ y h. subst (In y) e (IsAt-collect steps r y h),
    ),
  )

  -- Either get and getAll throw, tryGet and tryGetAll give the default and no node is at the path; or get
  -- and tryGet give the value of the first and getAll and tryGetAll those of all of the same nodes, which
  -- are near the path and have every node at it among them.
  pub get_correct : IsMissing ⊎ ((x : ConfigNode) × (xs : List ConfigNode) × IsGot x xs)
  get_correct = by_nodes (collect steps r) refl

-- A node in a section at a path.
abbrev pub IsInside : List Word → ConfigNode → ConfigNode → Type 0
IsInside ps r x = (n : ConfigNode) × IsAt ps r n × In x (nodes (children_of n))

IsInside-collect_sections :
    (ps : List Word) (r x : ConfigNode) → IsInside ps r x → In x (collect_sections ps r)
unfolding collect_sections
IsInside-collect_sections [] r x (n, e, m) = subst (λ k. In x (nodes (children_of k))) e m
IsInside-collect_sections (p ∷ ps) r x (n, (c, i, e, k), m) =
    try_In (collect_sections ps) p ps (nodes (children_of r)) c x i e
      (IsInside-collect_sections ps c x (n, k, m))

section_In :
    (n : Word) (cs : Children) (ns : List ConfigNode)
    → In (section n cs) ns
    → In n (section_names ns)
section_In n cs [] m = elim m [ ]
section_In n cs (section k ks ∷ ns) (inl e) = inl (ap name_of e)
section_In n cs (section k ks ∷ ns) (inr m) = inr (section_In n cs ns m)
section_In n cs (leaf k v ∷ ns) (inl e) = cc
section_In n cs (leaf k v ∷ ns) (inr m) = section_In n cs ns m
section_In n cs (comment k ∷ ns) (inl e) = cc
section_In n cs (comment k ∷ ns) (inr m) = section_In n cs ns m

leaf_In : (n v : Word) (ns : List ConfigNode) → In (leaf n v) ns → In n (leaf_names ns)
leaf_In n v [] m = elim m [ ]
leaf_In n v (section k ks ∷ ns) (inl e) = cc
leaf_In n v (section k ks ∷ ns) (inr m) = leaf_In n v ns m
leaf_In n v (leaf k w ∷ ns) (inl e) = inl (ap name_of e)
leaf_In n v (leaf k w ∷ ns) (inr m) = inr (leaf_In n v ns m)
leaf_In n v (comment k ∷ ns) (inl e) = cc
leaf_In n v (comment k ∷ ns) (inr m) = leaf_In n v ns m

listed :
    (f : List ConfigNode → List Word) (d n : Word) (x : ConfigNode) (ns : List ConfigNode)
    → In x ns
    → In n (f ns)
    → (unless_empty f ns ≡ found (or_default d f ns)) × In n (or_default d f ns)
listed f d n x [] m h = elim m [ ]
listed f d n x (k ∷ ns) m h = (refl, h)

-- A node in a node near a path.
abbrev pub IsNearInside : List Word → ConfigNode → ConfigNode → Type 0
IsNearInside ps r x = (n : ConfigNode) × IsNear ps r n × In x (nodes (children_of n))

collect_sections-IsNearInside :
    (ps : List Word) (r x : ConfigNode) → In x (collect_sections ps r) → IsNearInside ps r x
unfolding collect_sections
collect_sections-IsNearInside [] r x h = (r, refl, h)
collect_sections-IsNearInside (p ∷ ps) r x h =
    let (c, i, e, k) = try_from (collect_sections ps) (p ∷ ps) (nodes (children_of r)) x h in
    let (n, near, m) = collect_sections-IsNearInside ps c x k in (n, (c, i, e, near), m)

In-section_names :
    (n : Word) (ns : List ConfigNode)
    → In n (section_names ns)
    → (cs : Children) × In (section n cs) ns
In-section_names n [] m = absurd m
In-section_names n (section k ks ∷ ns) (inl e) = (ks, inl (ap (λ z. section z ks) e))
In-section_names n (section k ks ∷ ns) (inr m) =
    let (cs, i) = In-section_names n ns m in (cs, inr i)
In-section_names n (leaf k v ∷ ns) m = let (cs, i) = In-section_names n ns m in (cs, inr i)
In-section_names n (comment k ∷ ns) m = let (cs, i) = In-section_names n ns m in (cs, inr i)

In-leaf_names :
    (n : Word) (ns : List ConfigNode) → In n (leaf_names ns) → (v : Word) × In (leaf n v) ns
In-leaf_names n [] m = absurd m
In-leaf_names n (section k ks ∷ ns) m = let (v, i) = In-leaf_names n ns m in (v, inr i)
In-leaf_names n (leaf k w ∷ ns) (inl e) = (w, inl (ap (λ z. leaf z w) e))
In-leaf_names n (leaf k w ∷ ns) (inr m) = let (v, i) = In-leaf_names n ns m in (v, inr i)
In-leaf_names n (comment k ∷ ns) m = let (v, i) = In-leaf_names n ns m in (v, inr i)

-- What is found is what the names of the nodes are, for both variants.
found_names :
    (f : List ConfigNode → List Word) (d : Word) (ns : List ConfigNode) (ws : List Word)
    → unless_empty f ns ≡ found ws
    → (or_default d f ns ≡ ws) × (f ns ≡ ws)
found_names f d [] ws h = cc
found_names f d (n ∷ ns) ws h = let e : f (n ∷ ns) ≡ ws = cc in (e, e)

-- Each section in a section at a path is among the names that getSections and tryGetSections give, and
-- each key among those of getNames and tryGetNames; where there is one, none of them throws or takes
-- the default. Where getSections does not throw, tryGetSections gives the same names, each the name
-- of a section in a node near the path; and likewise getNames and tryGetNames, with keys.
pub names_correct :
    (d : Word) (path : List Word) (r : ConfigNode) (n v : Word) (cs : Children)
    → (IsInside (get_params b'.' path) r (section n cs)
        → (get_sections path r ≡ found (try_get_sections d path r))
          × In n (try_get_sections d path r))
      × (IsInside (get_params b'.' path) r (leaf n v)
          → (get_names path r ≡ found (try_get_names d path r)) × In n (try_get_names d path r))
      × ((ns : List Word)
          → get_sections path r ≡ found ns
          → (try_get_sections d path r ≡ ns)
            × (In n ns → (ks : Children) × IsNearInside (get_params b'.' path) r (section n ks)))
      × ((ns : List Word)
          → get_names path r ≡ found ns
          → (try_get_names d path r ≡ ns)
            × (In n ns → (w : Word) × IsNearInside (get_params b'.' path) r (leaf n w)))
unfolding get_sections get_names try_get_sections try_get_names
names_correct d path r n v cs =
    let ps : List Word = get_params b'.' path in
    let xs : List ConfigNode = collect_sections ps r in
    (
      λ h.
          let m : In (section n cs) xs = IsInside-collect_sections ps r (section n cs) h in
          listed section_names d n (section n cs) xs m (section_In n cs xs m),
      λ h.
          let m : In (leaf n v) xs = IsInside-collect_sections ps r (leaf n v) h in
          listed leaf_names d n (leaf n v) xs m (leaf_In n v xs m),
      λ ns e.
          let (same, all) = found_names section_names d xs ns e in
          (
            same,
            λ i.
                let (ks, j) = In-section_names n xs (subst (In n) (sym all) i) in
                (ks, collect_sections-IsNearInside ps r (section n ks) j),
          ),
      λ ns e.
          let (same, all) = found_names leaf_names d xs ns e in
          (
            same,
            λ i.
                let (w, j) = In-leaf_names n xs (subst (In n) (sym all) i) in
                (w, collect_sections-IsNearInside ps r (leaf n w) j),
          ),
    )

-- Words with a separator between each two.
unfoldable pub join : ℕ → Word → List Word → Word
join sep w [] = w
join sep w (v ∷ ws) = w ++ sep ∷ join sep v ws

split_on_plain : (sep : ℕ) (w : Word) → All (λ c. c ≢ sep) w → split_on sep w ≡ w ∷ []
unfolding split_on
split_on_plain sep [] h = refl
split_on_plain sep (c ∷ cs) h = ground (arith, h.0, split_on_plain sep cs h.1)

split_on-append :
    (sep : ℕ) (w rest : Word)
    → All (λ c. c ≢ sep) w
    → split_on sep (w ++ sep ∷ rest) ≡ w ∷ split_on sep rest
unfolding split_on
split_on-append sep [] rest h = ground arith
split_on-append sep (c ∷ cs) rest h = ground (arith, h.0, split_on-append sep cs rest h.1)

split_on-join :
    (sep : ℕ) (w : Word) (ws : List Word)
    → All (λ c. c ≢ sep) w
    → All (All (λ c. c ≢ sep)) ws
    → split_on sep (join sep w ws) ≡ w ∷ ws
unfolding join
split_on-join sep w [] h k = split_on_plain sep w h
split_on-join sep w (v ∷ ws) h k =
    split_on-append sep w (join sep v ws) h ∙ ap (λ l. w ∷ l) (split_on-join sep v ws k.0 k.1)

get_params_plain : (sep : ℕ) (ws : List Word) → All (All (λ c. c ≢ sep)) ws → get_params sep ws ≡ ws
unfolding get_params
get_params_plain sep [] h = refl
get_params_plain sep (w ∷ ws) h =
    ap (λ l. l ++ get_params sep ws) (split_on_plain sep w h.0)
    ∙ ap (λ l. w ∷ l) (get_params_plain sep ws h.1)

-- Names without the separator are the same path as one argument, joined by the separator, and as an
-- argument each.
pub get_params-join :
    (sep : ℕ) (w : Word) (ws : List Word)
    → All (λ c. c ≢ sep) w
    → All (All (λ c. c ≢ sep)) ws
    → (get_params sep (join sep w ws ∷ []) ≡ w ∷ ws) × (get_params sep (w ∷ ws) ≡ w ∷ ws)
unfolding get_params
get_params-join sep w ws h k = (
  append_nil (split_on sep (join sep w ws)) ∙ split_on-join sep w ws h k,
  get_params_plain sep (w ∷ ws) (h, k),
)
