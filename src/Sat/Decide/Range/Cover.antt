-- ===== src/Sat/Decide/Range/Cover.antt =====
-- constraintsolver/src/Decider.cpp, Decider::decideRangeBased: the choices have a literal of each variable
-- and sign that is watched for an open clause.
use supplementary.Base.{
  ℕ, zero, suc, ◌<◌, ◌≡◌, ◌≢◌, ◌⊎◌, inl, inr, refl, sym, subst, ◌∙◌, Bool, true, false, ◌&&◌, List,
  [], ◌∷◌, ◌++◌, In, In-append_left, In-append_right, All, All-In, All_of_In, All-map, Bool-cases,
  lt_or_eq, if◌then◌else◌, arith,
}
use supplementary.Cnf.Clause.{Assignment, assigned_true, assigned_false, unassigned, same_sign}
use supplementary.Sat.Solver.{Lit, Solver, is_unassigned}
use supplementary.Sat.Invariant.{IsWellFormed, IsKnown, IsListed}
use supplementary.Sat.Decide.Range.{choose_watchers, choices}

-- A literal of the variable `v` and the sign `a` is there, or was found before.
abbrev Covers : Bool → Assignment → ℕ → List Lit → Type 0
Covers b a v ls = (b ≡ true) ⊎ ((l : Lit) × In l ls × (l.var ≡ v) × (l.sign ≡ a))

abbrev IsSeen : Solver → Bool → Bool → ℕ → List Lit → ℕ → Type 0
IsSeen s t f v ls w =
    s.satisfied (s.owner w) ≡ false
    → (((s.watched w).sign ≡ assigned_true) × Covers t assigned_true v ls)
      ⊎ (((s.watched w).sign ≡ assigned_false) × Covers f assigned_false v ls)

Covers-here :
    (b : Bool) (a : Assignment) (v : ℕ) (l : Lit) (rest : List Lit)
    → l.var ≡ v
    → l.sign ≡ a
    → Covers b a v ((if b then [] else l ∷ []) ++ rest)
Covers-here true a v l rest p q = inl refl
Covers-here false a v l rest p q = inr (l, inl refl, p, q)

Covers-append :
    (b : Bool) (a : Assignment) (v : ℕ) (xs rest : List Lit)
    → Covers b a v rest
    → Covers b a v (xs ++ rest)
Covers-append b a v xs rest (inl e) = inl e
Covers-append b a v xs rest (inr (l, i, p, q)) = inr (l, In-append_right l xs rest i, p, q)

both_found : (t f : Bool) → (t && f) ≡ true → (t ≡ true) × (f ≡ true)
both_found true true h = (refl, refl)
both_found true false h = cc
both_found false f h = cc

sign_true : (a : Assignment) → same_sign a assigned_true ≡ true → a ≡ assigned_true
unfolding same_sign
sign_true assigned_true h = refl
sign_true assigned_false h = cc
sign_true unassigned h = cc

sign_false :
    (a : Assignment) → a ≢ unassigned → same_sign a assigned_true ≡ false → a ≡ assigned_false
unfolding same_sign
sign_false assigned_true n h = cc
sign_false assigned_false n h = refl
sign_false unassigned n h = absurd (n refl)

by_sign : (a : Assignment) → a ≢ unassigned → (a ≡ assigned_true) ⊎ (a ≡ assigned_false)
by_sign assigned_true n = inl refl
by_sign assigned_false n = inr refl
by_sign unassigned n = absurd (n refl)

module _ (s : Solver) (v : ℕ) where
  -- A watcher in the vector of `v`, of a literal with a sign.
  abbrev IsSigned : ℕ → Type 0
  IsSigned w = ((s.watched w).var ≡ v) × ((s.watched w).sign ≢ unassigned)

  module _ (w : ℕ) (ws : List ℕ) (t f : Bool) where
    choose_end : (t && f) ≡ true → choose_watchers s t f (w ∷ ws) ≡ []
    unfolding choose_watchers
    choose_end e = rw e refl

    choose_skip :
        (t && f) ≡ false
        → s.satisfied (s.owner w) ≡ true
        → choose_watchers s t f (w ∷ ws) ≡ choose_watchers s t f ws
    unfolding choose_watchers
    choose_skip e g = rw (e, g) refl

    choose_true :
        (t && f) ≡ false
        → s.satisfied (s.owner w) ≡ false
        → same_sign (s.watched w).sign assigned_true ≡ true
        → choose_watchers s t f (w ∷ ws)
          ≡ (if t then [] else s.watched w ∷ []) ++ choose_watchers s true f ws
    unfolding choose_watchers
    choose_true e g i = rw (e, g, i) refl

    choose_false :
        (t && f) ≡ false
        → s.satisfied (s.owner w) ≡ false
        → same_sign (s.watched w).sign assigned_true ≡ false
        → choose_watchers s t f (w ∷ ws)
          ≡ (if f then [] else s.watched w ∷ []) ++ choose_watchers s t true ws
    unfolding choose_watchers
    choose_false e g i = rw (e, g, i) refl

  abbrev AllSeen : Bool → Bool → List ℕ → List Lit → Type 0
  AllSeen t f ws ls = All (IsSeen s t f v ls) ws

  all_found : (t f : Bool) (ws : List ℕ) → (t && f) ≡ true → All IsSigned ws → AllSeen t f ws []
  all_found t f ws e h =
      let (x, y) = both_found t f e in
      All-map IsSigned (IsSeen s t f v []) ws
        (λ u k g. elim (by_sign (s.watched u).sign k.1) [
          | inl a ↦ inl (a, inl x)
          | inr a ↦ inr (a, inl y)
        ])
        h

  choose_watchers-IsSeen :
      (ws : List ℕ) (t f : Bool) → All IsSigned ws → AllSeen t f ws (choose_watchers s t f ws)
  choose_watchers-IsSeen [] t f h = tt
  choose_watchers-IsSeen (w ∷ ws) t f h = elim (Bool-cases (t && f)) [
    | inl e ↦
        subst (AllSeen t f (w ∷ ws)) (sym (choose_end w ws t f e)) (all_found t f (w ∷ ws) e h)
    | inr e ↦ elim (Bool-cases (s.satisfied (s.owner w))) [
      | inl g ↦
          subst (AllSeen t f (w ∷ ws)) (sym (choose_skip w ws t f e g))
            ((λ k. absurd (ground (arith, g, k))), choose_watchers-IsSeen ws t f h.1)
      | inr g ↦ elim (Bool-cases (same_sign (s.watched w).sign assigned_true)) [
        | inl i ↦
            let q : (s.watched w).sign ≡ assigned_true = sign_true (s.watched w).sign i in
            let rest : List Lit = choose_watchers s true f ws in
            let xs : List Lit = if t then [] else s.watched w ∷ [] in
            let here : Covers t assigned_true v (xs ++ rest) =
              Covers-here t assigned_true v (s.watched w) rest h.0.0 q in
            subst (AllSeen t f (w ∷ ws)) (sym (choose_true w ws t f e g i)) (
              (λ k. inl (q, here)),
              All-map (IsSeen s true f v rest) (IsSeen s t f v (xs ++ rest)) ws
                  (λ u m k. elim (m k) [
                    | inl (a, c) ↦ inl (a, here)
                    | inr (a, c) ↦ inr (a, Covers-append f assigned_false v xs rest c)
                  ])
                  (choose_watchers-IsSeen ws true f h.1),
            )
        | inr i ↦
            let q : (s.watched w).sign ≡ assigned_false = sign_false (s.watched w).sign h.0.1 i in
            let rest : List Lit = choose_watchers s t true ws in
            let xs : List Lit = if f then [] else s.watched w ∷ [] in
            let here : Covers f assigned_false v (xs ++ rest) =
              Covers-here f assigned_false v (s.watched w) rest h.0.0 q in
            subst (AllSeen t f (w ∷ ws)) (sym (choose_false w ws t f e g i)) (
              (λ k. inr (q, here)),
              All-map (IsSeen s t true v rest) (IsSeen s t f v (xs ++ rest)) ws
                  (λ u m k. elim (m k) [
                    | inl (a, c) ↦ inl (a, Covers-append t assigned_true v xs rest c)
                    | inr (a, c) ↦ inr (a, here)
                  ])
                  (choose_watchers-IsSeen ws t true h.1),
            )
      ]
    ]
  ]

-- The choices have a literal with the variable and the sign of the watcher `w`, if its clause is open.
abbrev pub IsCovered : Solver → List Lit → ℕ → Type 0
IsCovered s ls w =
    s.satisfied (s.owner w) ≡ false
    → (l : Lit) × In l ls × (l.var ≡ (s.watched w).var) × (l.sign ≡ (s.watched w).sign)

IsCovered-more :
    (s : Solver) (xs ys : List Lit) (w : ℕ) → IsCovered s xs w → IsCovered s (xs ++ ys) w
IsCovered-more s xs ys w h k = let (l, i, p, q) = h k in (l, In-append_left l xs ys i, p, q)

never : {A : Type 0} → false ≡ true → A
never e = cc

IsSeen-IsCovered :
    (s : Solver) (v : ℕ) (xs ls : List Lit) (w : ℕ)
    → (s.watched w).var ≡ v
    → IsSeen s false false v ls w
    → IsCovered s (xs ++ ls) w
IsSeen-IsCovered s v xs ls w p h k = elim (h k) [
  | inl (a, inl e) ↦ never e
  | inl (a, inr (l, i, q, r)) ↦ (l, In-append_right l xs ls i, q ∙ sym p, r ∙ sym a)
  | inr (a, inl e) ↦ never e
  | inr (a, inr (l, i, q, r)) ↦ (l, In-append_right l xs ls i, q ∙ sym p, r ∙ sym a)
]

-- The choices cover the watchers of each unassigned variable.
pub choices-IsCovered :
    (s : Solver) (n : ℕ)
    → IsWellFormed s
    → ((v : ℕ) → v < n → v < s.variables)
    → (v : ℕ) → v < n
    → is_unassigned s v ≡ true
    → All (IsCovered s (choices s n)) (s.lists (s.watch_list v))
unfolding choices
choices-IsCovered s zero wf h v k u = absurd (omega (arith, k))
choices-IsCovered s (suc n) wf h v k u =
    let new : List Lit =
      if is_unassigned s n then choose_watchers s false false (s.lists (s.watch_list n)) else [] in
    elim (lt_or_eq v n k) [
      | inl lt ↦
          All-map (IsCovered s (choices s n)) (IsCovered s (choices s n ++ new))
            (s.lists (s.watch_list v)) (λ w. IsCovered-more s (choices s n) new w)
            (choices-IsCovered s n wf (λ x y. h x (omega (arith, y))) v lt u)
      | inr e ↦
          let o : is_unassigned s n ≡ true = subst (λ x. is_unassigned s x ≡ true) e u in
          let ws : List ℕ = s.lists (s.watch_list n) in
          let cs : List Lit = choose_watchers s false false ws in
          let q : new ≡ cs = rw o refl in
          let l : All (IsListed s n) ws = wf.listed n (h n (omega arith)) in
          let seen : All (IsSeen s false false n cs) ws =
            choose_watchers-IsSeen s n ws false false (
              All-map (IsListed s n) (IsSigned s n) ws
                (λ w i. (
                  i.1,
                  (All-In (IsKnown s.variables) (s.literals (s.owner w)) (s.watched w)
                      (wf.known w i.0) (wf.watches w i.0)).1,
                ))
                l) in
          subst (λ x. All (IsCovered s (choices s n ++ new)) (s.lists (s.watch_list x))) (sym e)
            (subst (λ x. All (IsCovered s (choices s n ++ x)) ws) (sym q)
              (All_of_In (IsCovered s (choices s n ++ cs)) ws (λ w m.
                IsSeen-IsCovered s n (choices s n) cs w (All-In (IsListed s n) ws w l m).1
                  (All-In (IsSeen s false false n cs) ws w seen m))))
    ]
