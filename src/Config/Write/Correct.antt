-- ===== src/Config/Write/Correct.antt =====
-- system_config/include/Configuration.h: what set changes, and what get finds after it.
use supplementary.Base.{
  ℕ, ◌≡◌, inl, inr, refl, sym, subst, ap, ◌∙◌, Option, some, List, [], ◌∷◌, map, length, All, In,
  All-In,
}
use supplementary.Config.Words.{Word}
use supplementary.Config.Node.{ConfigNode, section, leaf, comment}
use supplementary.Config.Paths.{
  collect, get_params, found, get, try_get, get_all, first_value, first_or, some_values, all_values,
}
use supplementary.Config.Write.{Pointer, collect_places, set_value, set_at, set_all, set}
use supplementary.Config.Write.Nodes.{
  at, bare_at, set_value_twice, at-set_at, at-set_at_kept, bare_at-set_at, collect_places-set_at,
}
use supplementary.Config.Write.Places.{IsFound, same_nodes, collect-IsFound, IsDeep, collect-IsDeep}

collect_places-set_all :
    (v : Word) (ps : List Word) (qs : List Pointer) (r : ConfigNode)
    → collect_places ps (set_all v qs r) ≡ collect_places ps r
unfolding set_all
collect_places-set_all v ps [] r = refl
collect_places-set_all v ps (q ∷ qs) r =
    collect_places-set_all v ps qs (set_at v q r) ∙ collect_places-set_at v ps q r

at-set_all_kept :
    (P : Option ConfigNode → Type 0) (v : Word)
    → ((n : ConfigNode) → P (some n) → P (some (set_value v n)))
    → (q : Pointer) (qs : List Pointer) (r : ConfigNode) → IsDeep (length q) qs
    → P (at q r)
    → P (at q (set_all v qs r))
unfolding set_all
at-set_all_kept P v h q [] r d e = e
at-set_all_kept P v h q (p ∷ qs) r d e =
    at-set_all_kept P v h q qs (set_at v p r) d.1 (at-set_at_kept P v h q p r (sym d.0) e)

-- A node that writes as `m` does.
abbrev IsLike : Word → ConfigNode → Option ConfigNode → Type 0
IsLike v m o = (k : ConfigNode) × (o ≡ some k) × (set_value v k ≡ set_value v m)

some_inj : (n k : ConfigNode) → some n ≡ some k → n ≡ k
some_inj n k e = cc

IsLike-set_value :
    (v : Word) (m n : ConfigNode) → IsLike v m (some n) → IsLike v m (some (set_value v n))
IsLike-set_value v m n (k, e, f) =
    (set_value v n, refl, set_value_twice v n ∙ ap (set_value v) (some_inj n k e) ∙ f)

at-set_all :
    (v : Word) (q : Pointer) (m : ConfigNode) (qs : List Pointer) (r : ConfigNode)
    → IsDeep (length q) qs
    → In q qs
    → IsLike v m (at q r)
    → at q (set_all v qs r) ≡ some (set_value v m)
unfolding set_all
at-set_all v q m [] r d i e = absurd i
at-set_all v q m (p ∷ qs) r d (inl i) (k, e, f) =
    at-set_all_kept (λ o. o ≡ some (set_value v m)) v
      (λ n h.
        ap (λ x. some (set_value v x)) (some_inj n (set_value v m) h)
        ∙ ap some (set_value_twice v m))
      q qs (set_at v p r) d.1
      (subst (λ x. at q (set_at v x r) ≡ some (set_value v m)) i (at-set_at v q r k e ∙ ap some f))
at-set_all v q m (p ∷ qs) r d (inr i) e =
    at-set_all v q m qs (set_at v p r) d.1 i
      (at-set_at_kept (IsLike v m) v (IsLike-set_value v m) q p r (sym d.0) e)

set_all-IsFound :
    (v : Word) (r : ConfigNode) (d : ℕ) (all qs : List Pointer) (ns : List ConfigNode)
    → IsDeep d all
    → ((q : Pointer) → In q qs → In q all)
    → IsFound r qs ns
    → IsFound (set_all v all r) qs (map (set_value v) ns)
set_all-IsFound v r d all [] [] h i k = tt
set_all-IsFound v r d all [] (n ∷ ns) h i k = absurd k
set_all-IsFound v r d all (q ∷ qs) [] h i k = absurd k
set_all-IsFound v r d all (q ∷ qs) (n ∷ ns) h i k = (
  at-set_all v q n all r
      (subst (λ m. IsDeep m all) (sym (All-In (λ p. length p ≡ d) all q h (i q (inl refl)))) h)
      (i q (inl refl)) (n, k.0, refl),
  set_all-IsFound v r d all qs ns h (λ p m. i p (inr m)) k.1,
)

bare_at-set_all :
    (v : Word) (q : Pointer) (qs : List Pointer) (r : ConfigNode)
    → ¬ In q qs
    → bare_at q (set_all v qs r) ≡ bare_at q r
unfolding set_all
bare_at-set_all v q [] r h = refl
bare_at-set_all v q (p ∷ qs) r h =
    bare_at-set_all v q qs (set_at v p r) (λ m. h (inr m))
    ∙ bare_at-set_at v q p r (λ e. h (inl (sym e)))

collect-set :
    (v : Word) (path : List Word) (r : ConfigNode)
    → collect (get_params b'.' path) (set v path r)
      ≡ map (set_value v) (collect (get_params b'.' path) r)
unfolding set
collect-set v path r =
    let ps : List Word = get_params b'.' path in
    let qs : List Pointer = collect_places ps r in
    same_nodes (set_all v qs r) qs (collect ps (set_all v qs r)) (map (set_value v) (collect ps r))
      (subst (λ l. IsFound (set_all v qs r) l (collect ps (set_all v qs r)))
        (collect_places-set_all v ps qs r) (collect-IsFound ps (set_all v qs r)))
      (set_all-IsFound v r (length ps) qs qs (collect ps r) (collect-IsDeep ps r) (λ q m. m)
        (collect-IsFound ps r))

-- A node after the value was written: a leaf has it, and every other node is as it was.
abbrev pub IsWritten : Word → ConfigNode → ConfigNode → Type 0
IsWritten v (section n cs) m = m ≡ section n cs
IsWritten v (leaf n w) m = m ≡ leaf n v
IsWritten v (comment n) m = m ≡ comment n

abbrev pub AllWritten : Word → List ConfigNode → List ConfigNode → Type 0
AllWritten v [] [] = Unit {0}
AllWritten v [] (m ∷ ms) = ⊥
AllWritten v (n ∷ ns) [] = ⊥
AllWritten v (n ∷ ns) (m ∷ ms) = IsWritten v n m × AllWritten v ns ms

IsWritten-set_value : (v : Word) (n : ConfigNode) → IsWritten v n (set_value v n)
unfolding set_value
IsWritten-set_value v (section n cs) = refl
IsWritten-set_value v (leaf n w) = refl
IsWritten-set_value v (comment n) = refl

AllWritten-map : (v : Word) (ns : List ConfigNode) → AllWritten v ns (map (set_value v) ns)
AllWritten-map v [] = tt
AllWritten-map v (n ∷ ns) = (IsWritten-set_value v n, AllWritten-map v ns)

-- set writes the value into each leaf that collect finds for the path: afterwards collect finds as
-- many nodes in the same order, each leaf among them with its name and the new value and each other
-- node as it was; and the kind, the name and the value of every node at a place that collect
-- does not find stay as they were.
pub set_correct :
    (v : Word) (path : List Word) (r : ConfigNode)
    → AllWritten v
        (collect (get_params b'.' path) r)
        (collect (get_params b'.' path) (set v path r))
      × ((q : Pointer)
          → ¬ In q (collect_places (get_params b'.' path) r)
          → bare_at q (set v path r) ≡ bare_at q r)
unfolding set
set_correct v path r = (
  subst (AllWritten v (collect (get_params b'.' path) r)) (sym (collect-set v path r))
      (AllWritten-map v (collect (get_params b'.' path) r)),
  λ q h. bare_at-set_all v q (collect_places (get_params b'.' path) r) r h,
)

-- Every node is a leaf.
abbrev pub IsLeaf : ConfigNode → Type 0
IsLeaf (section n cs) = ⊥
IsLeaf (leaf n v) = Unit
IsLeaf (comment n) = ⊥

abbrev pub repeat : {T : Type 0} → T → List ConfigNode → List T
repeat x [] = []
repeat x (n ∷ ns) = x ∷ repeat x ns

module _ {T : Type 0} (convert : Word → T) where
  all_values_set :
      (v : Word) (ns : List ConfigNode)
      → All IsLeaf ns
      → all_values convert (map (set_value v) ns) ≡ repeat (convert v) ns
  unfolding set_value
  all_values_set v [] h = refl
  all_values_set v (section n cs ∷ ns) h = absurd h.0
  all_values_set v (leaf n w ∷ ns) h = ap (λ l. convert v ∷ l) (all_values_set v ns h.1)
  all_values_set v (comment n ∷ ns) h = absurd h.0

  -- Where all nodes that collect finds for a path are leaves, and there is one, get and tryGet read the
  -- value that set wrote, and getAll reads it once for each of them.
  pub get-set :
      (v : Word) (d : T) (path : List Word) (r x : ConfigNode) (xs : List ConfigNode)
      → collect (get_params b'.' path) r ≡ x ∷ xs
      → All IsLeaf (x ∷ xs)
      → (get convert path (set v path r) ≡ found (convert v))
        × (try_get convert d path (set v path r) ≡ convert v)
        × (get_all convert path (set v path r) ≡ found (repeat (convert v) (x ∷ xs)))
  unfolding get try_get get_all set_value
  get-set v d path r (section n cs) xs e h = absurd h.0
  get-set v d path r (comment n) xs e h = absurd h.0
  get-set v d path r (leaf n w) xs e h =
      let k : collect (get_params b'.' path) (set v path r) ≡ leaf n v ∷ map (set_value v) xs =
        collect-set v path r ∙ ap (map (set_value v)) e in
      (
        ap (first_value convert) k,
        ap (first_or convert d) k,
        ap (some_values convert) k ∙ ap (λ l. found (convert v ∷ l)) (all_values_set v xs h.1),
      )
