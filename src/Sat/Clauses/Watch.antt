-- ===== src/Sat/Clauses/Watch.antt =====
-- constraintsolver/src/CNSat.cpp: a clause that gets its two watchers.
use supplementary.Base.{
  ℕ, suc, ◌<◌, ◌==◌, ◌≡◌, ◌≢◌, ◌⊎◌, inl, inr, refl, sym, subst, ap, ◌∙◌, Bool, false, List, [], ◌∷◌,
  ◌++◌, update, In, All, All-In, All-append, All-map, In-append_left, In-append_right, Bool-cases,
  lt_or_eq, arith,
}
use supplementary.Sat.Solver.{Lit, Solver, lit_satisfied}
use supplementary.Sat.Invariant.{
  IsWellFormed, IsListed, IsKnown, IsDistinct, IsPaired, IsFlagged, Models, Holds,
}
use supplementary.Sat.Clauses.{watch}

-- A vector that gets one element more.
abbrev grown : (ℕ → List ℕ) → ℕ → ℕ → ℕ → List ℕ
grown f r w = update f r (f r ++ w ∷ [])

grown-In : (f : ℕ → List ℕ) (r w q x : ℕ) → In x (f q) → In x (grown f r w q)
grown-In f r w q x h = elim (Bool-cases (q == r)) [
  | inl e ↦
      let p : q ≡ r = ground arith in
      rw e (In-append_left x (f r) (w ∷ []) (subst (λ z. In x (f z)) p h))
  | inr e ↦ rw e h
]

grown_new : (f : ℕ → List ℕ) (r w : ℕ) → In w (grown f r w r)
grown_new f r w = elim (Bool-cases (r == r)) [
  | inl e ↦ rw e (In-append_right w (f r) (w ∷ []) (inl refl))
  | inr e ↦ absurd (ground (arith, e))
]

grown_All {κ} :
    (P : ℕ → Type κ) (f : ℕ → List ℕ) (r w q : ℕ)
    → All P (f q)
    → (q ≡ r → P w)
    → All P (grown f r w q)
grown_All P f r w q h k = elim (Bool-cases (q == r)) [
  | inl e ↦
      let p : q ≡ r = ground arith in
      rw e (All-append P (f r) (w ∷ []) (subst (λ z. All P (f z)) p h) (k p, tt))
  | inr e ↦ rw e h
]

-- A clause that no watcher watches yet, with two of its literals.
pub record IsFresh (c : ℕ) (l k : Lit) (s : Solver) : Type 0 where
  pub unwatched : (w : ℕ) → w < s.watcher_count → s.owner w ≢ c
  pub known : All (IsKnown s.variables) (s.literals c)
  pub apart : IsDistinct (s.literals c)
  pub first : In l (s.literals c)
  pub second : In k (s.literals c)
  pub unflagged : s.satisfied c ≡ false

module _ (c : ℕ) (l k : Lit) (s : Solver) (wf : IsWellFormed s) (fr : IsFresh c l k s) where
  abbrev t : Solver
  t = watch c l k s

  abbrev n : ℕ
  n = s.watcher_count

  -- The watchers are the old ones and two new ones.
  split_watcher : (x : ℕ) → x < suc (suc n) → (x < n) ⊎ ((x ≡ n) ⊎ (x ≡ suc n))
  split_watcher x h = elim (lt_or_eq x (suc n) h) [
    | inl a ↦ elim (lt_or_eq x n a) [ inl b ↦ inl b | inr b ↦ inr (inl b) ]
    | inr a ↦ inr (inr a)
  ]

  -- What holds of the old and of the two new watchers holds of all.
  by_watcher :
      (P : ℕ → Type 0) → ((x : ℕ) → x < n → P x) → P n → P (suc n) → (x : ℕ) → x < suc (suc n) → P x
  by_watcher P f a b x h = elim (split_watcher x h) [
    | inl d ↦ f x d
    | inr d ↦ elim d [ inl e ↦ subst P (sym e) a | inr e ↦ subst P (sym e) b ]
  ]

  old_watcher : (x : ℕ) → x < n → (t.watched x ≡ s.watched x) × (t.owner x ≡ s.owner x)
  unfolding watch
  old_watcher x h = (ground arith, ground arith)

  new_watchers :
      (t.watched n ≡ l) × (t.owner n ≡ c) × (t.watched (suc n) ≡ k) × (t.owner (suc n) ≡ c)
  unfolding watch
  new_watchers = (ground arith, ground arith, ground arith, ground arith)

  old_clause :
      (x : ℕ)
      → x < n
      → (t.first (s.owner x) ≡ s.first (s.owner x)) × (t.second (s.owner x) ≡ s.second (s.owner x))
  unfolding watch
  old_clause x h = (ground (arith, fr.unwatched x h), ground (arith, fr.unwatched x h))

  new_clause : (t.first c ≡ n) × (t.second c ≡ suc n)
  unfolding watch
  new_clause = (ground arith, ground arith)

  first-IsKnown : IsKnown s.variables l
  first-IsKnown = All-In (IsKnown s.variables) (s.literals c) l fr.known fr.first

  second-IsKnown : IsKnown s.variables k
  second-IsKnown = All-In (IsKnown s.variables) (s.literals c) k fr.known fr.second

  IsListed-watch : (u : ℕ) → u < s.variables → All (IsListed t u) (t.lists (t.watch_list u))
  unfolding watch
  IsListed-watch u hu =
      let rl : ℕ = s.watch_list l.var in
      let rk : ℕ = s.watch_list k.var in
      grown_All (IsListed t u) (grown s.lists rl n) rk (suc n) (s.watch_list u)
        (grown_All (IsListed t u) s.lists rl n (s.watch_list u)
          (All-map (IsListed s u) (IsListed t u) (s.lists (s.watch_list u))
            (λ x h. (omega (arith, h.0), ap (λ (j : Lit). j.var) (old_watcher x h.0).0 ∙ h.1))
            (wf.listed u hu))
          (λ e. (
            omega arith,
            ap (λ (j : Lit). j.var) new_watchers.0 ∙ sym (wf.list_own u l.var hu first-IsKnown.0 e),
          )))
        (λ e. (
          omega arith,
          ap (λ (j : Lit). j.var) new_watchers.2 ∙ sym (wf.list_own u k.var hu second-IsKnown.0 e),
        ))

  abbrev Place : ℕ → Lit → Type 0
  Place x j = In x (t.lists (s.watch_list j.var))

  placed_old : (x : ℕ) → x < n → Place x (s.watched x)
  unfolding watch
  placed_old x h =
      let r : ℕ = s.watch_list (s.watched x).var in
      grown-In (grown s.lists (s.watch_list l.var) n) (s.watch_list k.var) (suc n) r x
        (grown-In s.lists (s.watch_list l.var) n r x (wf.placed x h))

  placed_first : Place n l
  unfolding watch
  placed_first =
      grown-In (grown s.lists (s.watch_list l.var) n) (s.watch_list k.var) (suc n)
        (s.watch_list l.var) n (grown_new s.lists (s.watch_list l.var) n)

  placed_second : Place (suc n) k
  unfolding watch
  placed_second = grown_new (grown s.lists (s.watch_list l.var) n) (s.watch_list k.var) (suc n)

  placed-watch : (x : ℕ) → x < suc (suc n) → In x (t.lists (s.watch_list (t.watched x).var))
  placed-watch =
      by_watcher (λ x. Place x (t.watched x))
        (λ x h. subst (Place x) (sym (old_watcher x h).0) (placed_old x h))
        (subst (Place n) (sym new_watchers.0) placed_first)
        (subst (Place (suc n)) (sym new_watchers.2) placed_second)

  -- What a property of each clause is, of the clause of each watcher.
  by_clause :
      (P : ℕ → Type 0)
      → ((x : ℕ) → x < n → P (s.owner x))
      → P c
      → (x : ℕ) → x < suc (suc n)
      → P (t.owner x)
  by_clause P f a =
      by_watcher (λ x. P (t.owner x)) (λ x h. subst P (sym (old_watcher x h).1) (f x h))
        (subst P (sym new_watchers.1) a) (subst P (sym new_watchers.3) a)

  abbrev Pair : ℕ → Type 0
  Pair d =
      (t.first d < suc (suc n))
      × (t.owner (t.first d) ≡ d)
      × (t.second d < suc (suc n))
      × (t.owner (t.second d) ≡ d)

  paired-watch : (x : ℕ) → x < suc (suc n) → Pair (t.owner x)
  paired-watch =
      by_clause Pair
        (λ x h.
          let p : IsPaired s x = wf.paired x h in
          let (f, g) = old_clause x h in
          (
            omega (arith, f, p.0),
            ap t.owner f ∙ (old_watcher (s.first (s.owner x)) p.0).1 ∙ p.1,
            omega (arith, g, p.2),
            ap t.owner g ∙ (old_watcher (s.second (s.owner x)) p.2).1 ∙ p.3,
          ))
        (
          omega (arith, new_clause.0),
          ap t.owner new_clause.0 ∙ new_watchers.1,
          omega (arith, new_clause.1),
          ap t.owner new_clause.1 ∙ new_watchers.3,
        )

  ends-watch : (x : ℕ) → x < suc (suc n) → (t.first (t.owner x) ≡ x) ⊎ (t.second (t.owner x) ≡ x)
  ends-watch =
      by_watcher (λ x. (t.first (t.owner x) ≡ x) ⊎ (t.second (t.owner x) ≡ x))
        (λ x h. elim (wf.ends x h) [
          | inl e ↦ inl (ap t.first (old_watcher x h).1 ∙ (old_clause x h).0 ∙ e)
          | inr e ↦ inr (ap t.second (old_watcher x h).1 ∙ (old_clause x h).1 ∙ e)
        ])
        (inl (ap t.first new_watchers.1 ∙ new_clause.0))
        (inr (ap t.second new_watchers.3 ∙ new_clause.1))

  same_satisfied : (x : ℕ) → x < n → lit_satisfied t (t.watched x) ≡ lit_satisfied s (s.watched x)
  unfolding watch lit_satisfied
  same_satisfied x h = ground arith

  flag_old : (x : ℕ) → x < n → IsFlagged t (s.owner x)
  unfolding watch
  flag_old x h e =
      let p : IsPaired s x = wf.paired x h in
      let (f, g) = old_clause x h in
      ground (
        arith,
        wf.flagged x h e,
        f,
        g,
        same_satisfied (s.first (s.owner x)) p.0,
        same_satisfied (s.second (s.owner x)) p.2,
      )

  flag_new : IsFlagged t c
  unfolding watch
  flag_new e = absurd (ground (arith, e, fr.unflagged))

  -- A new clause with its two watchers leaves the solver well-formed.
  pub watch-IsWellFormed : IsWellFormed (watch c l k s)
  unfolding watch
  watch-IsWellFormed = record {
    list_known = wf.list_known;
    list_own = wf.list_own;
    listed = IsListed-watch;
    watches =
        by_watcher (λ x. In (t.watched x) (s.literals (t.owner x)))
          (λ x h.
            subst (λ (j : Lit). In j (s.literals (t.owner x))) (sym (old_watcher x h).0)
              (subst (λ (d : ℕ). In (s.watched x) (s.literals d)) (sym (old_watcher x h).1)
                (wf.watches x h)))
          (subst (λ (j : Lit). In j (s.literals (t.owner n))) (sym new_watchers.0)
            (subst (λ (d : ℕ). In l (s.literals d)) (sym new_watchers.1) fr.first))
          (subst (λ (j : Lit). In j (s.literals (t.owner (suc n)))) (sym new_watchers.2)
            (subst (λ (d : ℕ). In k (s.literals d)) (sym new_watchers.3) fr.second));
    known = by_clause (λ d. All (IsKnown s.variables) (s.literals d)) wf.known fr.known;
    apart = by_clause (λ d. IsDistinct (s.literals d)) wf.apart fr.apart;
    paired = paired-watch;
    ends = ends-watch;
    placed = placed-watch;
    flagged = by_clause (IsFlagged t) flag_old flag_new;
    levelled = wf.levelled;
    decided = wf.decided;
  }

  -- The valuations that satisfy the clauses are those from before that satisfy the new clause.
  pub Models-watch :
      (m : ℕ → Bool)
      → (Models m t → Models m s × ((j : Lit) × In j (s.literals c) × Holds m j))
        × (Models m s → ((j : Lit) × In j (s.literals c) × Holds m j) → Models m t)
  unfolding watch
  Models-watch m = (
    λ h. (
      λ x hx.
          subst (λ (d : ℕ). (j : Lit) × In j (s.literals d) × Holds m j) (old_watcher x hx).1
            (h x (omega arith)),
      subst (λ (d : ℕ). (j : Lit) × In j (s.literals d) × Holds m j) new_watchers.1
          (h n (omega arith)),
    ),
    λ h new. by_clause (λ d. (j : Lit) × In j (s.literals d) × Holds m j) h new,
  )
