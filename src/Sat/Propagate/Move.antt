-- ===== src/Sat/Propagate/Move.antt =====
-- constraintsolver/src/CNSat.cpp, CNSat::propagate: a watcher that moves to another literal.
use supplementary.Base.{
  ℕ, ◌<◌, ◌==◌, ◌≡◌, ◌≢◌, sym, subst, ◌∙◌, ap, refl, inl, inr, true, false, List, [], ◌∷◌, ◌++◌,
  All, In, All-In, All-append, In-append_left, In-append_right, All-map, Bool-cases, update, arith,
}
use supplementary.Sat.Solver.{Lit, Solver, lit_satisfied}
use supplementary.Sat.Propagate.{move_watcher, without}
use supplementary.Sat.Invariant.{IsWellFormed, IsListed, IsKnown, IsFlagged, IsPaired}

All-without {κ} :
    (P Q : ℕ → Type κ) (w : ℕ) (xs : List ℕ)
    → ((x : ℕ) → x ≢ w → P x → Q x)
    → All P xs
    → All Q (without w xs)
unfolding without
All-without P Q w [] f h = tt
All-without P Q w (x ∷ xs) f h = elim (Bool-cases (x == w)) [
  | inl e ↦ rw e (All-without P Q w xs f h.1)
  | inr e ↦ rw e (f x (ground arith) h.0, All-without P Q w xs f h.1)
]

In-without : (w x : ℕ) (xs : List ℕ) → x ≢ w → In x xs → In x (without w xs)
unfolding without
In-without w x [] ne h = h
In-without w x (y ∷ xs) ne (inl e) = elim (Bool-cases (y == w)) [
  | inl p ↦ absurd (ne (e ∙ ground arith))
  | inr p ↦ rw p (inl e)
]
In-without w x (y ∷ xs) ne (inr m) = elim (Bool-cases (y == w)) [
  | inl p ↦ rw p (In-without w x xs ne m)
  | inr p ↦ rw p (inr (In-without w x xs ne m))
]

module _ (s : Solver) (wf : IsWellFormed s) (w : ℕ) (l : Lit) (hw : w < s.watcher_count)
    (hl : l.var < s.variables) (hv : (s.watched w).var < s.variables)
    (hs : s.satisfied (s.owner w) ≡ false) where
  -- The vectors of other variables, and those of none, stay the same.
  pub lists-move_watcher :
      (r : ℕ)
      → r < s.list_count
      → ((u : ℕ) → u < s.variables → s.watch_list u ≡ r → (s.watched w).var ≡ u)
      → (move_watcher w l s).lists r ≡ s.lists r
  unfolding move_watcher
  lists-move_watcher r hr h = ground (arith, h l.var)

  watched-moved : (u x : ℕ) → x ≢ w → IsListed s u x → IsListed (move_watcher w l s) u x
  unfolding move_watcher
  watched-moved u x ne h = ground arith

  watched-other :
      (u x : ℕ) → u ≢ (s.watched w).var → IsListed s u x → IsListed (move_watcher w l s) u x
  unfolding move_watcher
  watched-other u x ne h = ground arith

  -- The vector of a variable before the watcher is appended.
  abbrev left : ℕ → List ℕ
  left u =
      update s.lists s.list_count (without w (s.lists (s.watch_list (s.watched w).var)))
        (update s.watch_list (s.watched w).var s.list_count u)

  left-IsListed : (u : ℕ) → u < s.variables → All (IsListed (move_watcher w l s) u) (left u)
  left-IsListed u hu = elim (Bool-cases (u == (s.watched w).var)) [
    | inl e ↦
        let p : left u ≡ without w (s.lists (s.watch_list (s.watched w).var)) = ground arith in
        subst (All (IsListed (move_watcher w l s) u)) (sym p) (
          All-without (IsListed s u) (IsListed (move_watcher w l s) u) w
            (s.lists (s.watch_list (s.watched w).var)) (watched-moved u)
            (let q : u ≡ (s.watched w).var = ground arith in
              subst (λ v. All (IsListed s u) (s.lists (s.watch_list v))) q (wf.listed u hu)))
    | inr e ↦
        let p : left u ≡ s.lists (s.watch_list u) = ground (arith, wf.list_known u hu) in
        subst (All (IsListed (move_watcher w l s) u)) (sym p) (
          All-map (IsListed s u) (IsListed (move_watcher w l s) u) (s.lists (s.watch_list u))
            (λ x h. watched-other u x (ground arith) h) (wf.listed u hu))
  ]

  own-move_watcher :
      (u v : ℕ)
      → u < s.variables
      → v < s.variables
      → (move_watcher w l s).watch_list u ≡ (move_watcher w l s).watch_list v
      → u ≡ v
  unfolding move_watcher
  own-move_watcher u v hu hv' e =
      ground (arith, wf.list_own u v, wf.list_known u hu, wf.list_known v hv')

  abbrev lists' : ℕ → List ℕ
  lists' u = (move_watcher w l s).lists ((move_watcher w l s).watch_list u)

  at_moved : (u : ℕ) → u ≡ l.var → lists' u ≡ left u ++ w ∷ []
  unfolding move_watcher
  at_moved u q = ground arith

  at_other : (u : ℕ) → u < s.variables → u ≢ l.var → lists' u ≡ left u
  unfolding move_watcher
  at_other u hu q = ground (arith, wf.list_own u l.var, wf.list_known u hu, wf.list_known l.var hl)

  moved-IsListed : (u : ℕ) → u ≡ l.var → IsListed (move_watcher w l s) u w
  unfolding move_watcher
  moved-IsListed u q = ground arith

  watches-move_watcher :
      In l (s.literals (s.owner w))
      → (x : ℕ) → x < s.watcher_count
      → In (update s.watched w l x) (s.literals (s.owner x))
  watches-move_watcher hin x hx = elim (Bool-cases (x == w)) [
    | inl e ↦
        let q : x ≡ w = ground arith in
        rw e (subst (λ y. In l (s.literals (s.owner y))) (sym q) hin)
    | inr e ↦ rw e (wf.watches x hx)
  ]

  IsListed-move_watcher :
      (u : ℕ)
      → u < s.variables
      → All
          (IsListed (move_watcher w l s) u)
          ((move_watcher w l s).lists ((move_watcher w l s).watch_list u))
  IsListed-move_watcher u hu = elim (Bool-cases (u == l.var)) [
    | inl e ↦
        let q : u ≡ l.var = ground arith in
        let p : lists' u ≡ left u ++ w ∷ [] = at_moved u q in
        subst (All (IsListed (move_watcher w l s) u)) (sym p) (
          All-append (IsListed (move_watcher w l s) u) (left u) (w ∷ []) (left-IsListed u hu)
            (moved-IsListed u q, tt))
    | inr e ↦
        subst (All (IsListed (move_watcher w l s) u)) (sym (at_other u hu (ground arith)))
          (left-IsListed u hu)
  ]

  var_known : (x : ℕ) → x < s.watcher_count → (s.watched x).var < s.variables
  var_known x hx =
      let k : IsKnown s.variables (s.watched x) =
        All-In (IsKnown s.variables) (s.literals (s.owner x)) (s.watched x) (wf.known x hx)
          (wf.watches x hx) in
      k.0

  In-left : (x : ℕ) → x ≢ w → x < s.watcher_count → In x (left (s.watched x).var)
  In-left x ne hx = elim (Bool-cases ((s.watched x).var == (s.watched w).var)) [
    | inl e ↦
        let p : left (s.watched x).var ≡ without w (s.lists (s.watch_list (s.watched w).var)) =
          ground arith in
        let q : (s.watched x).var ≡ (s.watched w).var = ground arith in
        subst (In x) (sym p) (
          In-without w x (s.lists (s.watch_list (s.watched w).var)) ne
            (subst (λ v. In x (s.lists (s.watch_list v))) q (wf.placed x hx)))
    | inr e ↦
        let p : left (s.watched x).var ≡ s.lists (s.watch_list (s.watched x).var) =
          ground (arith, wf.list_known (s.watched x).var (var_known x hx)) in
        subst (In x) (sym p) (wf.placed x hx)
  ]

  placed_left : (u x : ℕ) → u < s.variables → In x (left u) → In x (lists' u)
  placed_left u x hu h = elim (Bool-cases (u == l.var)) [
    | inl e ↦ subst (In x) (sym (at_moved u (ground arith))) (In-append_left x (left u) (w ∷ []) h)
    | inr e ↦ subst (In x) (sym (at_other u hu (ground arith))) h
  ]

  placed-move_watcher :
      (x : ℕ) → x < s.watcher_count → In x (lists' ((move_watcher w l s).watched x).var)
  unfolding move_watcher
  placed-move_watcher x hx = elim (Bool-cases (x == w)) [
    | inl e ↦
        let q : x ≡ w = ground arith in
        rw e (
          subst (In x) (sym (at_moved l.var refl))
            (In-append_right x (left l.var) (w ∷ []) (inl q)))
    | inr e ↦
        let ne : x ≢ w = ground arith in
        rw e (placed_left (s.watched x).var x (var_known x hx) (In-left x ne hx))
  ]

  flag_set : (move_watcher w l s).satisfied (s.owner w) ≡ true → lit_satisfied s l ≡ true
  unfolding move_watcher
  flag_set h = ground (arith, hs, h)

  flag_old :
      (c : ℕ) → c ≢ s.owner w → (move_watcher w l s).satisfied c ≡ true → s.satisfied c ≡ true
  unfolding move_watcher
  flag_old c ne h = ground (arith, h)

  sat-moved :
      (y : ℕ)
      → y ≢ w
      → lit_satisfied (move_watcher w l s) ((move_watcher w l s).watched y)
        ≡ lit_satisfied s (s.watched y)
  unfolding move_watcher lit_satisfied
  sat-moved y ne = ground arith

  sat-watched :
      lit_satisfied (move_watcher w l s) ((move_watcher w l s).watched w) ≡ lit_satisfied s l
  unfolding move_watcher lit_satisfied
  sat-watched = ground arith

  IsFlagged-move_watcher :
      (x : ℕ) → x < s.watcher_count → IsFlagged (move_watcher w l s) (s.owner x)
  unfolding move_watcher
  IsFlagged-move_watcher x hx h = elim (Bool-cases (s.owner x == s.owner w)) [
    | inl e ↦
        let q : s.owner x ≡ s.owner w = ground arith in
        let t : lit_satisfied s l ≡ true =
          flag_set (subst (λ c. (move_watcher w l s).satisfied c ≡ true) q h) in
        elim (wf.ends w hw) [
          | inl f ↦ ground (arith, ap s.first q ∙ f, t, sat-watched)
          | inr f ↦ ground (arith, ap s.second q ∙ f, t, sat-watched)
        ]
    | inr e ↦
        let g : IsPaired s x = wf.paired x hx in
        let n : s.owner x ≢ s.owner w = ground arith in
        let p : s.first (s.owner x) ≢ w = λ z. n (sym g.1 ∙ ap s.owner z) in
        let p' : s.second (s.owner x) ≢ w = λ z. n (sym g.3 ∙ ap s.owner z) in
        ground (
          arith,
          wf.flagged x hx (flag_old (s.owner x) n h),
          sat-moved (s.first (s.owner x)) p,
          sat-moved (s.second (s.owner x)) p',
        )
  ]

  pub move_watcher-IsWellFormed : In l (s.literals (s.owner w)) → IsWellFormed (move_watcher w l s)
  unfolding move_watcher
  move_watcher-IsWellFormed hin = record {
    list_known = λ v hv'. ground (arith, wf.list_known v hv');
    list_own = own-move_watcher;
    listed = IsListed-move_watcher;
    watches = λ x hx. watches-move_watcher hin x hx;
    known = wf.known;
    apart = wf.apart;
    paired = wf.paired;
    ends = wf.ends;
    placed = placed-move_watcher;
    flagged = IsFlagged-move_watcher;
    levelled = wf.levelled;
    decided = wf.decided;
  }
