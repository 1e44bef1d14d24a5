-- ===== src/Sat/Decide/State.antt =====
-- constraintsolver/src/Decider.cpp: a literal of an unassigned variable is decided at a new level.
use supplementary.Base.{
  ℕ, suc, ◌<◌, ◌≤◌, ◌==◌, ◌≡◌, ◌≢◌, inl, inr, sym, subst, ap, ◌∙◌, true, false, none, some, List,
  [], ◌∷◌, ◌++◌, length, In, All, All-In, All-append, All-map, All_of_In, Nodup-append,
  In-append_left, In-append_right, Bool-cases, length-append, arith,
}
use supplementary.Cnf.Clause.{unassigned, same_sign}
use supplementary.Sat.Solver.{Lit, Solver, is_unassigned, lit_satisfied}
use supplementary.Sat.Invariant.{IsWellFormed, IsKnown, IsPaired, IsFlagged}
use supplementary.Sat.Order.{
  IsTrail, IsAscending, IsGrounded, IsSupport, snoc-split, split_assigned, IsSupport-kept,
}
use supplementary.Sat.Propagate.After.{closed_open}
use supplementary.Sat.Propagate.Unit.{proper}
use supplementary.Sat.Propagate.Outcomes.{same_sign-eq}
use supplementary.Sat.Decide.{decide}

none-some : (c : ℕ) → none ≡ some c → ⊥
none-some c e = cc

pub decide_value : (s : Solver) (l : Lit) → (decide l s).assignment l.var ≡ l.sign
unfolding decide
decide_value s l = ground arith

module _ (s : Solver) (l : Lit) (wf : IsWellFormed s) (hl : IsKnown s.variables l)
    (u : is_unassigned s l.var ≡ true) where
  kept_lit :
      (x : ℕ)
      → x < s.watcher_count
      → lit_satisfied s (s.watched x) ≡ true
      → lit_satisfied (decide l s) (s.watched x) ≡ true
  unfolding decide is_unassigned lit_satisfied
  kept_lit x hx h =
      let z : IsKnown s.variables (s.watched x) =
        All-In (IsKnown s.variables) (s.literals (s.owner x)) (s.watched x) (wf.known x hx)
          (wf.watches x hx) in
      let q : same_sign (s.watched x).sign unassigned ≡ false = proper (s.watched x).sign z.1 in
      elim (Bool-cases ((s.watched x).var == l.var)) [
        | inl e ↦
            let b : same_sign (s.watched x).sign unassigned ≡ true =
              subst (λ a. same_sign (s.watched x).sign a ≡ true)
                (same_sign-eq (s.assignment l.var) u)
                (subst (λ v. same_sign (s.watched x).sign (s.assignment v) ≡ true) (ground arith)
                  h) in
            absurd (ground (arith, q, b))
        | inr e ↦ rw e h
      ]

  IsFlagged-decide : (x : ℕ) → x < s.watcher_count → IsFlagged (decide l s) (s.owner x)
  unfolding decide
  IsFlagged-decide x hx h =
      let g : IsPaired s x = wf.paired x hx in
      ground (
        arith,
        wf.flagged x hx h,
        kept_lit (s.first (s.owner x)) g.0,
        kept_lit (s.second (s.owner x)) g.2,
      )

  levelled-decide : (d : ℕ) × (ds : List ℕ) × (s.decision_level ++ s.level_count ∷ [] ≡ d ∷ ds)
  levelled-decide =
      let (d, ds, e) = wf.levelled in
      (d, ds ++ s.level_count ∷ [], ap (λ ls. ls ++ s.level_count ∷ []) e)

  pub decide-IsWellFormed : IsWellFormed (decide l s)
  unfolding decide
  decide-IsWellFormed = record {
    list_known = wf.list_known;
    list_own = wf.list_own;
    listed = wf.listed;
    watches = wf.watches;
    known = wf.known;
    apart = wf.apart;
    paired = wf.paired;
    ends = wf.ends;
    placed = wf.placed;
    flagged = IsFlagged-decide;
    levelled = levelled-decide;
    decided = All-append (λ v. v < s.variables) s.decisions (l.var ∷ []) wf.decided (hl.0, tt);
  }

  now_assigned : is_unassigned (decide l s) l.var ≡ false
  unfolding decide is_unassigned
  now_assigned = ground (arith, proper l.sign hl.1)

  still_assigned : (v : ℕ) → v ≢ l.var → is_unassigned (decide l s) v ≡ is_unassigned s v
  unfolding decide is_unassigned
  still_assigned v ne = ground arith

  new_level :
      (ds : List ℕ)
      → All (λ d. d < s.level_count) ds
      → All (λ d. s.level d ≤ length s.decisions) ds
      → IsAscending s.level ds
      → IsAscending (decide l s).level (ds ++ s.level_count ∷ [])
  unfolding decide
  new_level [] a b c = (tt, tt)
  new_level (d ∷ ds) a b c = (
    All-append (λ e. (decide l s).level d ≤ (decide l s).level e) ds (s.level_count ∷ [])
        (All_of_In (λ e. (decide l s).level d ≤ (decide l s).level e) ds
          (λ e m.
            let x : e < s.level_count = All-In (λ e. e < s.level_count) ds e a.1 m in
            let y : s.level d ≤ s.level e = All-In (λ e. s.level d ≤ s.level e) ds e c.0 m in
            ground arith))
        (ground (arith, a.0, b.0), tt),
    new_level ds a.1 b.1 c.1,
  )

  fresh_var : IsTrail s → ¬ In l.var s.decisions
  fresh_var t m =
      absurd (
        ground
          (arith, u, All-In (λ v. is_unassigned s v ≡ false) s.decisions l.var t.on_assigned m))

  pub decide-IsTrail : IsTrail s → IsTrail (decide l s)
  unfolding decide
  decide-IsTrail t = record {
    assigned_on = λ v h. elim (Bool-cases (v == l.var)) [
      | inl e ↦ In-append_right v s.decisions (l.var ∷ []) (inl (ground arith))
      | inr e ↦
          In-append_left v s.decisions (l.var ∷ [])
            (t.assigned_on v (sym (still_assigned v (ground arith)) ∙ h))
    ];
    on_assigned =
        All-append (λ v. is_unassigned (decide l s) v ≡ false) s.decisions (l.var ∷ [])
          (All_of_In (λ v. is_unassigned (decide l s) v ≡ false) s.decisions
            (λ v m.
              still_assigned v (λ e. fresh_var t (subst (λ x. In x s.decisions) e m))
              ∙ All-In (λ v. is_unassigned s v ≡ false) s.decisions v t.on_assigned m))
          (now_assigned, tt);
    once =
        Nodup-append s.decisions (l.var ∷ []) t.once ((λ h. h), tt)
          (λ v i j. elim j [ inl e ↦ fresh_var t (subst (λ x. In x s.decisions) e i) | inr f ↦ f ]);
    bounded =
        All-append (λ d. (decide l s).level d ≤ length (s.decisions ++ l.var ∷ [])) s.decision_level
          (s.level_count ∷ [])
          (All_of_In (λ d. (decide l s).level d ≤ length (s.decisions ++ l.var ∷ []))
            s.decision_level
            (λ d m.
              let x : d < s.level_count =
                All-In (λ e. e < s.level_count) s.decision_level d t.allocated m in
              let y : s.level d ≤ length s.decisions =
                All-In (λ e. s.level e ≤ length s.decisions) s.decision_level d t.bounded m in
              ground (arith, length-append {0} s.decisions (l.var ∷ []))))
          (ground (arith, length-append {0} s.decisions (l.var ∷ [])), tt);
    allocated =
        All-append (λ d. d < suc s.level_count) s.decision_level (s.level_count ∷ [])
          (All-map (λ d. d < s.level_count) (λ d. d < suc s.level_count) s.decision_level
            (λ d h. omega (arith, h)) t.allocated)
          (omega arith, tt);
    ascending = new_level s.decision_level t.allocated t.bounded t.ascending;
  }

  decide_kept : (v : ℕ) → is_unassigned s v ≡ false → (decide l s).assignment v ≡ s.assignment v
  unfolding decide
  decide_kept v h =
      let ne : v ≢ l.var =
        λ e. closed_open s l.var (subst (λ x. is_unassigned s x ≡ false) e h) u in
      ground (arith, ne)

  cleared : (decide l s).reason l.var ≡ none
  unfolding decide
  cleared = ground arith

  other_reason : (v : ℕ) → v ≢ l.var → (decide l s).reason v ≡ s.reason v
  unfolding decide
  other_reason v ne = ground arith

  pub decide-IsGrounded : IsTrail s → IsGrounded s → IsGrounded (decide l s)
  unfolding decide
  decide-IsGrounded t g = record {
    unreasoned = λ v h. elim (Bool-cases (v == l.var)) [
      | inl e ↦
          let q : l.var ≡ v = ground arith in subst (λ x. (decide l s).reason x ≡ none) q cleared
      | inr e ↦
          let ne : v ≢ l.var = ground arith in
          other_reason v ne ∙ g.unreasoned v (sym (still_assigned v ne) ∙ h)
    ];
    based = λ v c xs ys e h. elim (snoc-split s.decisions l.var xs v ys e) [
      | inl (p, q) ↦
          absurd (none-some c (sym cleared ∙ subst (λ x. (decide l s).reason x ≡ some c) (sym q) h))
      | inr (zs, p) ↦
          let a : is_unassigned s v ≡ false = split_assigned s s t v xs zs p in
          let ne : v ≢ l.var =
            λ q. closed_open s l.var (subst (λ x. is_unassigned s x ≡ false) q a) u in
          All-map (IsSupport s v xs) (IsSupport (decide l s) v xs) (s.literals c)
            (λ k i. IsSupport-kept s (decide l s) decide_kept v xs k a i)
            (g.based v c xs zs p (sym (other_reason v ne) ∙ h))
    ];
  }
