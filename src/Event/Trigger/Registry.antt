-- ===== src/Event/Trigger/Registry.antt =====
-- The registry as a map from condition variables to flags, whatever its order.
use supplementary.Base.{
  ℕ, ◌<◌, ◌≡◌, ◌==◌, refl, sym, ◌∙◌, ap, inl, inr, Bool, true, false, Option, none, some, List, [],
  ◌∷◌, map, ltb, if◌then◌else◌, arith, All, All-map, Option-cases, if_both, subst,
}
use supplementary.Event.Trigger.{
  Entry, assign, find, register_cv, is_notify_called, set_notify_called, notify_all,
}

-- The condition variables are in order, each once.
abbrev pub IsOrdered : List Entry → Type 0
IsOrdered [] = Unit
IsOrdered (e ∷ es) = All (λ (f : Entry). e.variable < f.variable) es × IsOrdered es

find_before : (i : ℕ) (es : List Entry) → All (λ (f : Entry). i < f.variable) es → find i es ≡ none
unfolding find
find_before i [] h = refl
find_before i (e ∷ es) h = ground (arith, h.0, find_before i es h.1)

find-assign :
    (i j : ℕ) (b : Bool) (es : List Entry)
    → IsOrdered es
    → find j (assign i b es) ≡ (if j == i then some b else find j es)
unfolding find assign
find-assign i j b [] h = ground arith
find-assign i j b (e ∷ es) h = ground (arith, find-assign i j b es h.1, h.0)

All-assign :
    (n i : ℕ) (b : Bool) (es : List Entry)
    → n < i
    → All (λ (f : Entry). n < f.variable) es
    → All (λ (f : Entry). n < f.variable) (assign i b es)
unfolding assign
All-assign n i b [] l h = (l, tt)
All-assign n i b (e ∷ es) l h =
    let P = All (λ (f : Entry). n < f.variable) in
    if_both P (i == e.variable) _ _ (λ q. (l, h.1))
      (λ q.
        if_both P (ltb i e.variable) _ _ (λ m. (l, (h.0, h.1)))
          (λ m. (h.0, All-assign n i b es l h.1)))

assign-IsOrdered : (i : ℕ) (b : Bool) (es : List Entry) → IsOrdered es → IsOrdered (assign i b es)
unfolding assign
assign-IsOrdered i b [] h = (tt, tt)
assign-IsOrdered i b (e ∷ es) h =
    if_both IsOrdered (i == e.variable) _ _
      (λ q. (subst (λ n. All (λ (f : Entry). n < f.variable) es) (ground (arith, q)) h.0, h.1))
      (λ q.
        if_both IsOrdered (ltb i e.variable) _ _
          (λ m. ((ground (arith, m), All-map _ _ es (λ f r. ground (arith, m, r)) h.0), (h.0, h.1)))
          (λ m.
            (All-assign e.variable i b es (ground (arith, q, m)) h.0, assign-IsOrdered i b es h.1)))

find-notify_all :
    (all : Bool) (i : ℕ) (es : List Entry)
    → find i (notify_all all es).1 ≡ elim (find i es) [ none ↦ none | some b ↦ some true ]
unfolding find notify_all
find-notify_all all i [] = refl
find-notify_all all i (e ∷ es) = ground (arith, find-notify_all all i es)

All-notify_all :
    (all : Bool) (n : ℕ) (es : List Entry)
    → All (λ (f : Entry). n < f.variable) es
    → All (λ (f : Entry). n < f.variable) (notify_all all es).1
unfolding notify_all
All-notify_all all n [] h = tt
All-notify_all all n (e ∷ es) h = (h.0, All-notify_all all n es h.1)

notify_all-IsOrdered :
    (all : Bool) (es : List Entry) → IsOrdered es → IsOrdered (notify_all all es).1
unfolding notify_all
notify_all-IsOrdered all [] h = tt
notify_all-IsOrdered all (e ∷ es) h =
    (All-notify_all all e.variable es h.0, notify_all-IsOrdered all es h.1)

notifications :
    (all : Bool) (es : List Entry)
    → (notify_all all es).0 ≡ map (λ (e : Entry). record { variable = e.variable; all = all }) es
unfolding notify_all
notifications all [] = refl
notifications all (e ∷ es) =
    ap (λ ns. record { variable = e.variable; all = all } ∷ ns) (notifications all es)

-- What a call does to the flag of each condition variable.
abbrev pub Flags : Type 0
Flags = ℕ → Option Bool

abbrev pub flags : List Entry → Flags
unfolding find
flags es = λ i. find i es

-- The calls on a trigger.
pub data Call : Type 0 where
  registering : ℕ → Call
  setting : Bool → ℕ → Call
  notifying : Bool → Call

unfoldable pub perform : Call → List Entry → List Entry
unfolding register_cv set_notify_called notify_all
perform (registering i) es = register_cv i es
perform (setting b i) es = set_notify_called b i es
perform (notifying all) es = (notify_all all es).1

-- The same on the flags alone.
abbrev pub specify : Call → Flags → Flags
specify (registering i) f = λ j. if j == i then some false else f j
specify (setting b i) f = λ j. if j == i then elim (f i) [ none ↦ none | some c ↦ some b ] else f j
specify (notifying all) f = λ j. elim (f j) [ none ↦ none | some b ↦ some true ]

perform-IsOrdered : (c : Call) (es : List Entry) → IsOrdered es → IsOrdered (perform c es)
unfolding perform register_cv set_notify_called
perform-IsOrdered (registering i) es h = assign-IsOrdered i false es h
perform-IsOrdered (setting b i) es h = elim (Option-cases (find i es)) [
  | inl e ↦ subst (λ q. IsOrdered (elim q [ none ↦ es | some c ↦ assign i b es ])) (sym e) h
  | inr (c, e) ↦
      subst (λ q. IsOrdered (elim q [ none ↦ es | some c ↦ assign i b es ])) (sym e)
        (assign-IsOrdered i b es h)
]
perform-IsOrdered (notifying all) es h = notify_all-IsOrdered all es h

perform-flags :
    (c : Call) (es : List Entry)
    → IsOrdered es
    → (j : ℕ) → flags (perform c es) j ≡ specify c (flags es) j
unfolding perform register_cv set_notify_called flags
perform-flags (registering i) es h j = find-assign i j false es h
perform-flags (setting b i) es h j = ground (arith, find-assign i j b es h)
perform-flags (notifying all) es h j = find-notify_all all j es

abbrev pub perform_all : List Call → List Entry → List Entry
perform_all [] es = es
perform_all (c ∷ cs) es = perform_all cs (perform c es)

abbrev pub specify_all : List Call → Flags → Flags
specify_all [] f = f
specify_all (c ∷ cs) f = specify_all cs (specify c f)

specify_agree :
    (c : Call) (f g : Flags) → ((j : ℕ) → f j ≡ g j) → (j : ℕ) → specify c f j ≡ specify c g j
specify_agree (registering i) f g same j = ap (λ q. if j == i then some false else q) (same j)
specify_agree (setting b i) f g same j =
    ap (λ q. if j == i then elim q [ none ↦ none | some c ↦ some b ] else f j) (same i)
    ∙ ap (λ q. if j == i then elim (g i) [ none ↦ none | some c ↦ some b ] else q) (same j)
specify_agree (notifying all) f g same j =
    ap (λ q. elim q [ none ↦ none | some b ↦ some true ]) (same j)

perform_all-flags :
    (cs : List Call) (es : List Entry) (f : Flags)
    → IsOrdered es
    → ((j : ℕ) → flags es j ≡ f j)
    → IsOrdered (perform_all cs es) × ((j : ℕ) → flags (perform_all cs es) j ≡ specify_all cs f j)
perform_all-flags [] es f h same = (h, same)
perform_all-flags (c ∷ cs) es f h same =
    perform_all-flags cs (perform c es) (specify c f) (perform-IsOrdered c es h)
      (λ j. perform-flags c es h j ∙ specify_agree c (flags es) f same j)

-- After any calls on a new trigger a condition variable is flagged as if each had its flag for itself:
-- registering clears it, setNotifyCalled sets it if it is registered, and notifyAll sets that of
-- every registered one. And notifyAll makes one notification for each registered, in the map's
-- order.
pub registry_correct :
    (cs : List Call) (j : ℕ) (all : Bool)
    → (is_notify_called j (perform_all cs [])
        ≡ elim (specify_all cs (λ _. none) j) [ none ↦ false | some b ↦ b ])
      × IsOrdered (perform_all cs [])
      × ((notify_all all (perform_all cs [])).0
          ≡ map (λ (e : Entry). record { variable = e.variable; all = all }) (perform_all cs []))
unfolding is_notify_called flags
registry_correct cs j all =
    let (ordered, same) = perform_all-flags cs [] (λ _. none) tt (λ j. refl) in
    (
      ap (λ q. elim q [ none ↦ false | some b ↦ b ]) (same j),
      ordered,
      notifications all (perform_all cs []),
    )
