-- ===== src/Sat/Decide/Range/Correct.antt =====
-- constraintsolver/src/Decider.cpp: what Decider::decideRangeBased decides.
use supplementary.Base.{
  ℕ, zero, suc, ◌<◌, ◌≡◌, inl, inr, refl, sym, subst, ap, ◌∙◌, Bool, true, false, Option, none,
  some, List, [], ◌∷◌, ◌++◌, All, All-In, All-map, All-append, Bool-cases, lt_or_eq, ◌&&◌, arith,
  if◌then◌else◌,
}
use supplementary.Cnf.Clause.{Assignment, assigned_true, same_sign}
use supplementary.Sat.Solver.{Lit, Solver, is_unassigned}
use supplementary.Sat.Invariant.{IsWellFormed, IsKnown, IsListed}
use supplementary.Sat.Order.{IsTrail, IsGrounded}
use supplementary.Sat.Decide.{decide_found}
use supplementary.Sat.Decide.State.{
  decide_value, decide-IsWellFormed, decide-IsTrail, decide-IsGrounded,
}
use supplementary.Sat.Decide.Range.{
  choose_watchers, choices, last_choice, lit_range_compare, insert, stable_sort, decide_range_based,
}
use supplementary.Sat.Decide.Range.Cover.{IsCovered, choices-IsCovered}
use supplementary.Sat.Decide.Range.Sort.{
  last_choice-In, last_choice-none, insert-cons, stable_sort-IsSorted, stable_sort-All,
  stable_sort-All_back, last_least,
}

-- A literal that is watched for an open clause, of an unassigned variable.
abbrev pub IsOpenLit : Solver → Lit → Type 0
IsOpenLit s l =
    (w : ℕ) × (w < s.watcher_count)
    × (s.watched w ≡ l)
    × (s.satisfied (s.owner w) ≡ false)
    × (is_unassigned s l.var ≡ true)

All-if :
    {A : Type 0}
    → (P : A → Type 0) (b : Bool) (xs : List A) → All P xs
    → All P (if b then [] else xs)
All-if P true xs h = tt
All-if P false xs h = h

All_then :
    {A : Type 0}
    → (P : A → Type 0) (b : Bool) (xs : List A) → (b ≡ true → All P xs)
    → All P (if b then xs else [])
All_then P true xs h = h refl
All_then P false xs h = tt

choose_watchers_open :
    (s : Solver) (v : ℕ)
    → is_unassigned s v ≡ true
    → (ws : List ℕ) (t f : Bool) → All (IsListed s v) ws
    → All (IsOpenLit s) (choose_watchers s t f ws)
unfolding choose_watchers
choose_watchers_open s v u [] t f h = tt
choose_watchers_open s v u (w ∷ ws) t f (h, hs) = elim (Bool-cases (t && f)) [
  | inl e ↦ rw e tt
  | inr e ↦ elim (Bool-cases (s.satisfied (s.owner w))) [
    | inl g ↦ rw (e, g) (choose_watchers_open s v u ws t f hs)
    | inr g ↦
        let o : IsOpenLit s (s.watched w) =
          (w, h.0, refl, g, subst (λ x. is_unassigned s x ≡ true) (sym h.1) u) in
        elim (Bool-cases (same_sign (s.watched w).sign assigned_true)) [
          | inl i ↦
              rw (e, g, i)
                (All-append (IsOpenLit s) (if t then [] else s.watched w ∷ [])
                  (choose_watchers s true f ws) (All-if (IsOpenLit s) t (s.watched w ∷ []) (o, tt))
                  (choose_watchers_open s v u ws true f hs))
          | inr i ↦
              rw (e, g, i)
                (All-append (IsOpenLit s) (if f then [] else s.watched w ∷ [])
                  (choose_watchers s t true ws) (All-if (IsOpenLit s) f (s.watched w ∷ []) (o, tt))
                  (choose_watchers_open s v u ws t true hs))
        ]
  ]
]

choices_open :
    (s : Solver) (n : ℕ)
    → IsWellFormed s
    → ((v : ℕ) → v < n → v < s.variables)
    → All (IsOpenLit s) (choices s n)
unfolding choices
choices_open s zero wf h = tt
choices_open s (suc n) wf h =
    All-append (IsOpenLit s) (choices s n)
      (if is_unassigned s n then choose_watchers s false false (s.lists (s.watch_list n)) else [])
      (choices_open s n wf (λ v k. h v (omega (arith, k))))
      (All_then (IsOpenLit s) (is_unassigned s n)
        (choose_watchers s false false (s.lists (s.watch_list n)))
        (λ u.
          choose_watchers_open s n u (s.lists (s.watch_list n)) false false
            (wf.listed n (h n (omega arith)))))

-- All watchers of a list are of clauses with a flag.
abbrev pub AllFlagged : Solver → List ℕ → Type 0
AllFlagged s ws = All (λ w. s.satisfied (s.owner w) ≡ true) ws

choose_watchers_none :
    (s : Solver) (ws : List ℕ) → choose_watchers s false false ws ≡ [] → AllFlagged s ws
unfolding choose_watchers
choose_watchers_none s [] h = tt
choose_watchers_none s (w ∷ ws) h = elim (Bool-cases (s.satisfied (s.owner w))) [
  | inl g ↦ (g, choose_watchers_none s ws (ground (arith, g, h)))
  | inr g ↦ absurd (elim (Bool-cases (same_sign (s.watched w).sign assigned_true)) [
    | inl i ↦ ground (arith, g, i, h)
    | inr i ↦ ground (arith, g, i, h)
  ])
]

append-empty : (xs ys : List Lit) → xs ++ ys ≡ [] → (xs ≡ []) × (ys ≡ [])
append-empty [] ys h = (refl, h)
append-empty (x ∷ xs) ys h = cc

choices_none :
    (s : Solver) (n : ℕ)
    → choices s n ≡ []
    → (v : ℕ) → v < n
    → is_unassigned s v ≡ true
    → AllFlagged s (s.lists (s.watch_list v))
unfolding choices
choices_none s zero h v k u = absurd (omega (arith, k))
choices_none s (suc n) h v k u =
    let (p, q) =
      append-empty (choices s n)
        (if is_unassigned s n then choose_watchers s false false (s.lists (s.watch_list n)) else [])
        h in
    elim (lt_or_eq v n k) [
      | inl lt ↦ choices_none s n p v lt u
      | inr e ↦
          let o : is_unassigned s n ≡ true = subst (λ x. is_unassigned s x ≡ true) e u in
          let c : choose_watchers s false false (s.lists (s.watch_list n)) ≡ [] =
            ground (arith, o, q) in
          subst (λ x. AllFlagged s (s.lists (s.watch_list x))) (sym e)
            (choose_watchers_none s (s.lists (s.watch_list n)) c)
    ]

module _ {D : Type 0} (range : ℕ → Assignment → D) (greater : D → D → Bool)
    (asym : (a b : D) → greater a b ≡ true → greater b a ≡ false)
    (chain : (a b c : D) → greater a b ≡ false → greater b c ≡ false → greater a c ≡ false) where
  sorted_none : (ls : List Lit) → last_choice (stable_sort range greater ls) ≡ none → ls ≡ []
  unfolding stable_sort insert
  sorted_none [] h = refl
  sorted_none (l ∷ ls) h =
      let (k, ks, e) = insert-cons range greater l (stable_sort range greater ls) in
      absurd (last_choice-none k ks (sym (ap last_choice e) ∙ h))

  -- The range of the literal `l` is not greater than that of the watcher `w`, if its clause is open.
  abbrev pub IsNoLess : Solver → Lit → ℕ → Type 0
  IsNoLess s l w =
      s.satisfied (s.owner w) ≡ false
      → greater (range l.var l.sign) (range (s.watched w).var (s.watched w).sign) ≡ false

  -- The literal of a choice whose range no other is below is decided.
  pub record IsRanged (s : Solver) (v : ℕ) (s' : Solver) : Type 0 where
    pub well_formed : IsWellFormed s'
    pub on_trail : IsTrail s'
    pub grounded : IsGrounded s → IsGrounded s'
    pub chosen : Lit
    pub is_open : IsOpenLit s chosen
    pub variable : chosen.var ≡ v
    pub value : s'.assignment v ≡ chosen.sign
    pub least :
        (u : ℕ)
        → u < s.variables
        → is_unassigned s u ≡ true
        → All (IsNoLess s chosen) (s.lists (s.watch_list u))

  abbrev pub Ranges : Solver → Solver × Option ℕ → Type 0
  Ranges s (s', none) =
      (s' ≡ s)
      × ((v : ℕ)
          → v < s.variables
          → is_unassigned s v ≡ true
          → AllFlagged s (s.lists (s.watch_list v)))
  Ranges s (s', some v) = IsRanged s v s'

  least_of :
      (s : Solver) (l : Lit)
      → IsWellFormed s
      → All (λ k. lit_range_compare range greater l k ≡ false) (choices s s.variables)
      → (u : ℕ) → u < s.variables
      → is_unassigned s u ≡ true
      → All (IsNoLess s l) (s.lists (s.watch_list u))
  least_of s l wf h u lt o =
      All-map (IsCovered s (choices s s.variables)) (IsNoLess s l) (s.lists (s.watch_list u))
        (λ w c k.
          let (j, i, p, q) = c k in
          let e : greater (range l.var l.sign) (range j.var j.sign) ≡ false =
            All-In (λ k. lit_range_compare range greater l k ≡ false) (choices s s.variables) j h
              i in
          subst (λ x. greater (range l.var l.sign) (range (s.watched w).var x) ≡ false) q
            (subst (λ x. greater (range l.var l.sign) (range x j.sign) ≡ false) p e))
        (choices-IsCovered s s.variables wf (λ v k. k) u lt o)

  Ranges-by :
      (s : Solver) (o : Option Lit)
      → IsWellFormed s
      → IsTrail s
      → last_choice (stable_sort range greater (choices s s.variables)) ≡ o
      → Ranges s (decide_found o s)
  unfolding decide_found
  Ranges-by s none wf t e =
      (refl, choices_none s s.variables (sorted_none (choices s s.variables) e))
  Ranges-by s (some l) wf t e =
      let cs : List Lit = stable_sort range greater (choices s s.variables) in
      let o : IsOpenLit s l =
        All-In (IsOpenLit s) cs l
          (stable_sort-All range greater asym chain (IsOpenLit s) (choices s s.variables)
            (choices_open s s.variables wf (λ v h. h)))
          (last_choice-In cs l e) in
      let (w, a, q, f, u) = o in
      let k : IsKnown s.variables l = subst (IsKnown s.variables) q (
        All-In (IsKnown s.variables) (s.literals (s.owner w)) (s.watched w) (wf.known w a)
          (wf.watches w a)) in
      record {
        well_formed = decide-IsWellFormed s l wf k u;
        on_trail = decide-IsTrail s l wf k u t;
        grounded = decide-IsGrounded s l wf k u t;
        chosen = l;
        is_open = o;
        variable = refl;
        value = decide_value s l;
        least = least_of s l wf (
            stable_sort-All_back range greater asym chain
              (λ k. lit_range_compare range greater l k ≡ false) (choices s s.variables)
              (last_least range greater asym chain cs l
                (stable_sort-IsSorted range greater asym chain (choices s s.variables)) e));
      }

  -- Where the sizes of the ranges are in order, decideRangeBased decides a literal that is watched for an
  -- open clause, of an unassigned variable, and whose range is not greater than that of any literal that
  -- an unassigned variable watches for an open clause; it decides none only where each clause that an
  -- unassigned variable watches is flagged. The solver stays well-formed, the trail in order, and an
  -- implication graph one.
  pub decide_range_based_correct :
      (s : Solver) → IsWellFormed s → IsTrail s → Ranges s (decide_range_based range greater s)
  unfolding decide_range_based
  decide_range_based_correct s wf t =
      Ranges-by s (last_choice (stable_sort range greater (choices s s.variables))) wf t refl
