-- ===== src/Sat/Clauses/Added.antt =====
-- constraintsolver/src/CNSat.cpp: CNSat::addBasicClause, addSATClause, addTClause and addIClause, for
-- clauses of two literals or more.
use supplementary.Base.{
  ℕ, suc, ◌≤◌, ◌<◌, ◌≡◌, ◌≢◌, inl, inr, refl, sym, subst, ap, ◌∙◌, arith, Bool, true, false, Option,
  some, List, [], ◌∷◌, ◌++◌, In, All, All-In,
}
use supplementary.Sat.Solver.{Lit, Solver, lit_satisfied}
use supplementary.Sat.Invariant.{IsWellFormed, IsKnown, IsDistinct, Models, Holds}
use supplementary.Sat.Clauses.{
  watch, add_basic_literals, add_sat_literals, add_t_literals, add_i_literals, add_basic_clause,
  add_sat_clause, add_i_clause, add_t_clause, last_lit, last_but_one,
}
use supplementary.Sat.Clauses.Watch.{IsFresh, watch-IsWellFormed, Models-watch}

-- A clause of two literals or more that the solver does not watch yet.
pub record IsNew (c : ℕ) (l k : Lit) (ks : List Lit) (s : Solver) : Type 0 where
  pub literals : s.literals c ≡ l ∷ k ∷ ks
  pub unwatched : (w : ℕ) → w < s.watcher_count → s.owner w ≢ c
  pub known : All (IsKnown s.variables) (s.literals c)
  pub apart : IsDistinct (s.literals c)
  pub unflagged : s.satisfied c ≡ false

-- A watcher of the clause `c` that `t` has and `s` has not.
abbrev pub IsNewWatcher : ℕ → Solver → Solver → ℕ → Type 0
IsNewWatcher c s t w =
    (s.watcher_count ≤ w)
    × (w < t.watcher_count)
    × (t.owner w ≡ c)
    × In (t.watched w) (s.literals c)
    × In w (t.lists (t.watch_list (t.watched w).var))

-- Two new watchers of the clause, of two literals of the clause with different variables, each in the
-- vector of its variable.
abbrev pub IsWatchedTwice : ℕ → Solver → Solver → Type 0
IsWatchedTwice c s t =
    IsNewWatcher c s t (t.first c)
    × IsNewWatcher c s t (t.second c)
    × ((t.watched (t.first c)).var ≢ (t.watched (t.second c)).var)

-- The solver with one clause more.
pub record IsAdded (c : ℕ) (s t : Solver) : Type 0 where
  pub well_formed : IsWellFormed t
  pub weaker :
      (m : ℕ → Bool) → Models m t → Models m s × ((j : Lit) × In j (s.literals c) × Holds m j)
  pub stronger :
      (m : ℕ → Bool) → Models m s → ((j : Lit) × In j (s.literals c) × Holds m j) → Models m t
  pub assignment : t.assignment ≡ s.assignment
  pub decisions : t.decisions ≡ s.decisions
  pub watchers : IsWatchedTwice c s t

-- An operation succeeds and adds the clause, on the list `f` of the solver.
abbrev pub Adds : (Solver → List ℕ) → ℕ → Solver → Option (Solver × Bool) → Type 0
Adds f c s r = (t : Solver) × (r ≡ some (t, true)) × IsAdded c s t × (f t ≡ f s ++ c ∷ [])

last_lit-In : (l : Lit) (ls : List Lit) → In (last_lit l ls) (l ∷ ls)
last_lit-In l [] = inl refl
last_lit-In l (k ∷ ks) = inr (last_lit-In k ks)

last_but_one-In : (l k : Lit) (ks : List Lit) → In (last_but_one l k ks) (l ∷ k ∷ ks)
last_but_one-In l k [] = inl refl
last_but_one-In l k (j ∷ js) = inr (last_but_one-In k j js)

last_apart :
    (l : Lit) (k : Lit) (ks : List Lit)
    → All (λ j. j.var ≢ l.var) (k ∷ ks)
    → l.var ≢ (last_lit k ks).var
last_apart l k ks h e =
    All-In (λ j. j.var ≢ l.var) (k ∷ ks) (last_lit k ks) h (last_lit-In k ks) (sym e)

last_two_apart :
    (l k : Lit) (ks : List Lit)
    → IsDistinct (l ∷ k ∷ ks)
    → (last_but_one l k ks).var ≢ (last_lit k ks).var
last_two_apart l k [] d = λ e. d.0.0 (sym e)
last_two_apart l k (j ∷ js) d = last_two_apart k j js d.1

-- The fields of the two watchers that a clause gets.
watch_new :
    (c : ℕ) (a b : Lit) (s : Solver)
    → ((watch c a b s).first c ≡ s.watcher_count)
      × ((watch c a b s).second c ≡ suc s.watcher_count)
      × ((watch c a b s).watcher_count ≡ suc (suc s.watcher_count))
      × ((watch c a b s).owner s.watcher_count ≡ c)
      × ((watch c a b s).owner (suc s.watcher_count) ≡ c)
      × ((watch c a b s).watched s.watcher_count ≡ a)
      × ((watch c a b s).watched (suc s.watcher_count) ≡ b)
unfolding watch
watch_new c a b s =
    (ground arith, ground arith, refl, ground arith, ground arith, ground arith, ground arith)

module _ (c : ℕ) (l k : Lit) (ks : List Lit) (s : Solver) (wf : IsWellFormed s)
    (fr : IsNew c l k ks s) where
  fresh : (a b : Lit) → In a (l ∷ k ∷ ks) → In b (l ∷ k ∷ ks) → IsFresh c a b s
  fresh a b ha hb = record {
    unwatched = fr.unwatched;
    known = fr.known;
    apart = fr.apart;
    first = subst (In a) (sym fr.literals) ha;
    second = subst (In b) (sym fr.literals) hb;
    unflagged = fr.unflagged;
  }

  watched_new :
      (a b : Lit)
      → In a (l ∷ k ∷ ks)
      → In b (l ∷ k ∷ ks)
      → a.var ≢ b.var
      → IsWatchedTwice c s (watch c a b s)
  watched_new a b ha hb ne =
      let t : Solver = watch c a b s in
      let (p, q, n, x, y, u, v) = watch_new c a b s in
      let w : IsWellFormed t = watch-IsWellFormed c a b s wf (fresh a b ha hb) in
      (
        subst (IsNewWatcher c s t) (sym p) (
          omega arith,
          omega (arith, n),
          x,
          subst (λ z. In z (s.literals c)) (sym u) (subst (In a) (sym fr.literals) ha),
          w.placed s.watcher_count (omega (arith, n)),
        ),
        subst (IsNewWatcher c s t) (sym q) (
          omega arith,
          omega (arith, n),
          y,
          subst (λ z. In z (s.literals c)) (sym v) (subst (In b) (sym fr.literals) hb),
          w.placed (suc s.watcher_count) (omega (arith, n)),
        ),
        λ e. ne (
            ap (λ (z : Lit). z.var) (sym u ∙ ap t.watched (sym p))
            ∙ e
            ∙ ap (λ (z : Lit). z.var) (ap t.watched q ∙ v)),
      )

  -- The watched solver with its lists of clauses changed.
  abbrev listing : Lit → Lit → List ℕ → List ℕ → List ℕ → List ℕ → Solver
  listing a b p q x y = record (watch c a b s) {
    clauses = p;
    sat_clauses = q;
    t_clauses = x;
    i_clauses = y;
  }

  listing-IsAdded :
      (a b : Lit)
      → In a (l ∷ k ∷ ks)
      → In b (l ∷ k ∷ ks)
      → a.var ≢ b.var
      → (p q x y : List ℕ) → IsAdded c s (listing a b p q x y)
  unfolding watch lit_satisfied
  listing-IsAdded a b ha hb ne p q x y =
      let w : IsWellFormed (watch c a b s) = watch-IsWellFormed c a b s wf (fresh a b ha hb) in
      record {
        well_formed = record {
          list_known = w.list_known;
          list_own = w.list_own;
          listed = w.listed;
          watches = w.watches;
          known = w.known;
          apart = w.apart;
          paired = w.paired;
          ends = w.ends;
          placed = w.placed;
          flagged = w.flagged;
          levelled = w.levelled;
          decided = w.decided;
        };
        weaker = λ m. (Models-watch c a b s wf (fresh a b ha hb) m).0;
        stronger = λ m. (Models-watch c a b s wf (fresh a b ha hb) m).1;
        assignment = refl;
        decisions = refl;
        watchers = watched_new a b ha hb ne;
      }

  basic_eq :
      add_basic_clause c s
      ≡ (listing l k (s.clauses ++ c ∷ []) s.sat_clauses s.t_clauses s.i_clauses, true)
  unfolding add_basic_clause watch
  basic_eq = ap (λ ls. add_basic_literals c ls s) fr.literals

  sat_eq :
      add_sat_clause c s
      ≡ some (
        listing l (last_lit k ks) s.clauses (s.sat_clauses ++ c ∷ []) s.t_clauses s.i_clauses,
        true,
      )
  unfolding add_sat_clause watch
  sat_eq = ap (λ ls. add_sat_literals c ls s) fr.literals

  t_eq :
      add_t_clause c s
      ≡ some (
        listing
            (last_but_one l k ks)
            (last_lit k ks)
            s.clauses
            s.sat_clauses
            (s.t_clauses ++ c ∷ [])
            s.i_clauses,
        true,
      )
  unfolding add_t_clause watch
  t_eq = ap (λ ls. add_t_literals c ls s) fr.literals

  i_eq :
      add_i_clause c s
      ≡ some (
        listing l (last_lit k ks) s.clauses s.sat_clauses s.t_clauses (s.i_clauses ++ c ∷ []),
        true,
      )
  unfolding add_i_clause watch
  i_eq = ap (λ ls. add_i_literals c ls s) fr.literals

  -- A clause of two literals or more, of distinct variables that the solver knows, and not watched nor
  -- flagged yet, is added by each of addBasicClause, addSATClause, addTClause and addIClause: the
  -- operation succeeds, two new watchers are on two literals of the clause with different variables,
  -- in the vectors of those variables, the solver stays well-formed, the assignment and the decisions are unchanged, the
  -- clause stands last on its list, and the valuations that satisfy the watched clauses are those
  -- from before that satisfy the clause.
  pub add_clause_correct :
      Adds (λ t. t.clauses) c s (some (add_basic_clause c s))
      × Adds (λ t. t.sat_clauses) c s (add_sat_clause c s)
      × Adds (λ t. t.t_clauses) c s (add_t_clause c s)
      × Adds (λ t. t.i_clauses) c s (add_i_clause c s)
  unfolding watch
  add_clause_correct =
      let d : IsDistinct (l ∷ k ∷ ks) = subst IsDistinct fr.literals fr.apart in
      let n1 : l.var ≢ k.var = λ e. d.0.0 (sym e) in
      let hl : In l (l ∷ k ∷ ks) = inl refl in
      let hk : In k (l ∷ k ∷ ks) = inr (inl refl) in
      let he : In (last_lit k ks) (l ∷ k ∷ ks) = inr (last_lit-In k ks) in
      let hb : In (last_but_one l k ks) (l ∷ k ∷ ks) = last_but_one-In l k ks in
      let n2 : l.var ≢ (last_lit k ks).var = last_apart l k ks d.0 in
      let n3 : (last_but_one l k ks).var ≢ (last_lit k ks).var = last_two_apart l k ks d in
      (
        (_, ap some basic_eq, listing-IsAdded l k hl hk n1 _ _ _ _, refl),
        (_, sat_eq, listing-IsAdded l (last_lit k ks) hl he n2 _ _ _ _, refl),
        (_, t_eq, listing-IsAdded (last_but_one l k ks) (last_lit k ks) hb he n3 _ _ _ _, refl),
        (_, i_eq, listing-IsAdded l (last_lit k ks) hl he n2 _ _ _ _, refl),
      )

  pub add_basic_clause-IsWellFormed : IsWellFormed (add_basic_clause c s).0
  add_basic_clause-IsWellFormed =
      subst (λ (r : Solver × Bool). IsWellFormed r.0) (sym basic_eq)
        (listing-IsAdded l k (inl refl) (inr (inl refl))
          (λ e. (subst IsDistinct fr.literals fr.apart).0.0 (sym e)) (s.clauses ++ c ∷ [])
          s.sat_clauses s.t_clauses s.i_clauses).well_formed
