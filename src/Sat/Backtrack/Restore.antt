-- ===== src/Sat/Backtrack/Restore.antt =====
-- constraintsolver/src/CNSat.cpp, CNSat::backTrack: the loop that takes assignments back.
use supplementary.Base.{
  ℕ, ◌<◌, ◌==◌, ◌≡◌, ◌≢◌, ◌⊎◌, inl, inr, refl, sym, subst, ◌∙◌, Bool, true, none, List, [], ◌∷◌,
  update, In, Bool-cases, arith,
}
use supplementary.Cnf.Clause.{unassigned}
use supplementary.Sat.Solver.{Solver, lit_satisfied}
use supplementary.Sat.Invariant.{IsWellFormed, IsFlagged, IsPaired}
use supplementary.Sat.Backtrack.{refresh, unassign, unassign_all, watched_satisfied}

module _ (owner : ℕ → ℕ) (value : ℕ → Bool) where
  refresh_some :
      (ws : List ℕ) (f : ℕ → Bool) (c : ℕ)
      → refresh owner value ws f c ≡ true
      → (value c ≡ true) ⊎ (f c ≡ true)
  unfolding refresh
  refresh_some [] f c h = inr h
  refresh_some (w ∷ ws) f c h = elim (refresh_some ws (update f (owner w) (value (owner w))) c h) [
    | inl e ↦ inl e
    | inr e ↦ ground (arith, e)
  ]

  refresh_keeps :
      (ws : List ℕ) (f : ℕ → Bool) (c : ℕ) → f c ≡ value c → refresh owner value ws f c ≡ value c
  unfolding refresh
  refresh_keeps [] f c h = h
  refresh_keeps (w ∷ ws) f c h =
      refresh_keeps ws (update f (owner w) (value (owner w))) c (ground (arith, h))

  refresh-In :
      (ws : List ℕ) (f : ℕ → Bool) (w : ℕ)
      → In w ws
      → refresh owner value ws f (owner w) ≡ value (owner w)
  unfolding refresh
  refresh-In (x ∷ ws) f w (inl e) =
      refresh_keeps ws (update f (owner x) (value (owner x))) (owner w) (ground (arith, e))
  refresh-In (x ∷ ws) f w (inr m) = refresh-In ws (update f (owner x) (value (owner x))) w m
  refresh-In [] f w h = elim h [ ]

module _ (v : ℕ) (s : Solver) (wf : IsWellFormed s) where
  -- A watched literal that was satisfied still is, or its clause's flag was computed again.
  still :
      (x : ℕ)
      → x < s.watcher_count
      → lit_satisfied s (s.watched x) ≡ true
      → (lit_satisfied (unassign v s) (s.watched x) ≡ true) ⊎ In x (s.lists (s.watch_list v))
  unfolding unassign lit_satisfied
  still x hx h = elim (Bool-cases ((s.watched x).var == v)) [
    | inl e ↦
        let q : (s.watched x).var ≡ v = ground arith in
        inr (subst (λ u. In x (s.lists (s.watch_list u))) q (wf.placed x hx))
    | inr e ↦ inl (rw e h)
  ]

  refreshed :
      (x : ℕ)
      → In x (s.lists (s.watch_list v))
      → (unassign v s).satisfied (s.owner x) ≡ watched_satisfied (unassign v s) (s.owner x)
  unfolding unassign
  refreshed x h =
      refresh-In s.owner (watched_satisfied (unassign v s)) (s.lists (s.watch_list v)) s.satisfied x
        h

  flag_from :
      (w x : ℕ)
      → In x (s.lists (s.watch_list v))
      → s.owner x ≡ s.owner w
      → (unassign v s).satisfied (s.owner w) ≡ true
      → watched_satisfied (unassign v s) (s.owner w) ≡ true
  flag_from w x m e h =
      let p : (unassign v s).satisfied (s.owner w) ≡ watched_satisfied (unassign v s) (s.owner w) =
        subst (λ c. (unassign v s).satisfied c ≡ watched_satisfied (unassign v s) c) e
          (refreshed x m) in
      sym p ∙ h

  IsFlagged-unassign : (w : ℕ) → w < s.watcher_count → IsFlagged (unassign v s) (s.owner w)
  unfolding unassign watched_satisfied
  IsFlagged-unassign w hw h =
      let g : IsPaired s w = wf.paired w hw in
      let a : ℕ = s.first (s.owner w) in
      let b : ℕ = s.second (s.owner w) in
      elim (refresh_some s.owner (watched_satisfied (unassign v s)) (s.lists (s.watch_list v))
        s.satisfied (s.owner w) h) [
          | inl e ↦ e
          | inr e ↦ elim (Bool-cases (lit_satisfied s (s.watched a))) [
            | inl p ↦ elim (still a g.0 p) [
              | inl q ↦ ground (arith, q)
              | inr m ↦ flag_from w a m g.1 h
            ]
            | inr p ↦ elim (still b g.2 (ground (arith, wf.flagged w hw e, p))) [
              | inl q ↦ ground (arith, q)
              | inr m ↦ flag_from w b m g.3 h
            ]
          ]
        ]

  pub unassign-IsWellFormed : IsWellFormed (unassign v s)
  unfolding unassign
  unassign-IsWellFormed = record {
    list_known = wf.list_known;
    list_own = wf.list_own;
    listed = wf.listed;
    watches = wf.watches;
    known = wf.known;
    apart = wf.apart;
    paired = wf.paired;
    ends = wf.ends;
    placed = wf.placed;
    flagged = IsFlagged-unassign;
    levelled = wf.levelled;
    decided = wf.decided;
  }

-- What the loop over the variables `vs` leaves.
pub record IsTakenBack (vs : List ℕ) (s t : Solver) : Type 0 where
  pub well_formed : IsWellFormed t
  pub variables : t.variables ≡ s.variables
  pub literals : t.literals ≡ s.literals
  pub decisions : t.decisions ≡ s.decisions
  pub decision_level : t.decision_level ≡ s.decision_level
  pub level : t.level ≡ s.level
  pub level_count : t.level_count ≡ s.level_count
  pub taken : (v : ℕ) → In v vs → t.assignment v ≡ unassigned
  pub cleared : (v : ℕ) → In v vs → t.reason v ≡ none
  pub kept : (v : ℕ) → (¬ In v vs) → (t.assignment v ≡ s.assignment v) × (t.reason v ≡ s.reason v)

unassign_fields :
    (x : ℕ) (s : Solver)
    → ((unassign x s).variables ≡ s.variables)
      × ((unassign x s).decisions ≡ s.decisions)
      × ((unassign x s).decision_level ≡ s.decision_level)
      × ((unassign x s).level ≡ s.level)
      × ((unassign x s).level_count ≡ s.level_count)
      × ((unassign x s).literals ≡ s.literals)
unfolding unassign
unassign_fields x s = (refl, refl, refl, refl, refl, refl)

unassign_other :
    (x v : ℕ) (s : Solver)
    → v ≢ x
    → ((unassign x s).assignment v ≡ s.assignment v) × ((unassign x s).reason v ≡ s.reason v)
unfolding unassign
unassign_other x v s ne = (ground arith, ground arith)

unassign_same : (x : ℕ) (s : Solver) → (unassign x s).assignment x ≡ unassigned
unfolding unassign
unassign_same x s = ground arith

-- A variable stays unassigned.
unassign_all-unassigned :
    (vs : List ℕ) (v : ℕ) (s : Solver)
    → s.assignment v ≡ unassigned
    → (unassign_all vs s).assignment v ≡ unassigned
unfolding unassign_all
unassign_all-unassigned [] v s h = h
unassign_all-unassigned (x ∷ vs) v s h =
    unassign_all-unassigned vs v (unassign x s) (elim (Bool-cases (v == x)) [
      | inl e ↦
          let q : x ≡ v = ground arith in
          subst (λ y. (unassign x s).assignment y ≡ unassigned) q (unassign_same x s)
      | inr e ↦ (unassign_other x v s (ground arith)).0 ∙ h
    ])

unassign_cleared : (x : ℕ) (s : Solver) → (unassign x s).reason x ≡ none
unfolding unassign
unassign_cleared x s = ground arith

unassign_all_cleared :
    (vs : List ℕ) (v : ℕ) (s : Solver) → s.reason v ≡ none → (unassign_all vs s).reason v ≡ none
unfolding unassign_all
unassign_all_cleared [] v s h = h
unassign_all_cleared (x ∷ vs) v s h =
    unassign_all_cleared vs v (unassign x s) (elim (Bool-cases (v == x)) [
      | inl e ↦
          let q : x ≡ v = ground arith in
          subst (λ y. (unassign x s).reason y ≡ none) q (unassign_cleared x s)
      | inr e ↦ (unassign_other x v s (ground arith)).1 ∙ h
    ])

pub unassign_all-IsTakenBack :
    (vs : List ℕ) (s : Solver) → IsWellFormed s → IsTakenBack vs s (unassign_all vs s)
unfolding unassign_all
unassign_all-IsTakenBack [] s wf = record {
  well_formed = wf;
  variables = refl;
  literals = refl;
  decisions = refl;
  decision_level = refl;
  level = refl;
  level_count = refl;
  taken = λ v h. elim h [ ];
  cleared = λ v h. elim h [ ];
  kept = λ v h. (refl, refl);
}
unassign_all-IsTakenBack (x ∷ vs) s wf =
    let r : IsTakenBack vs (unassign x s) (unassign_all vs (unassign x s)) =
      unassign_all-IsTakenBack vs (unassign x s) (unassign-IsWellFormed x s wf) in
    record {
      well_formed = r.well_formed;
      variables = r.variables ∙ (unassign_fields x s).0;
      literals = r.literals ∙ (unassign_fields x s).5;
      decisions = r.decisions ∙ (unassign_fields x s).1;
      decision_level = r.decision_level ∙ (unassign_fields x s).2;
      level = r.level ∙ (unassign_fields x s).3;
      level_count = r.level_count ∙ (unassign_fields x s).4;
      taken = λ v h. elim h [
        | inl e ↦
            unassign_all-unassigned vs v (unassign x s)
              (subst (λ y. (unassign x s).assignment y ≡ unassigned) (sym e) (unassign_same x s))
        | inr m ↦ r.taken v m
      ];
      cleared = λ v h. elim h [
        | inl e ↦
            unassign_all_cleared vs v (unassign x s)
              (subst (λ y. (unassign x s).reason y ≡ none) (sym e) (unassign_cleared x s))
        | inr m ↦ r.cleared v m
      ];
      kept = λ v h.
          let k : (unassign_all vs (unassign x s)).assignment v ≡ (unassign x s).assignment v
              × ((unassign_all vs (unassign x s)).reason v ≡ (unassign x s).reason v) =
            r.kept v (λ m. h (inr m)) in
          let u : ((unassign x s).assignment v ≡ s.assignment v)
              × ((unassign x s).reason v ≡ s.reason v) =
            unassign_other x v s (λ e. h (inl e)) in
          (k.0 ∙ u.0, k.1 ∙ u.1);
    }
