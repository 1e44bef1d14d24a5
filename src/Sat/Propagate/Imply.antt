-- ===== src/Sat/Propagate/Imply.antt =====
-- constraintsolver/src/CNSat.cpp, CNSat::propagate: the visit of one watcher.
use supplementary.Base.{
  ℕ, ◌<◌, ◌==◌, ◌≡◌, ◌≢◌, refl, sym, subst, ap, ◌∙◌, true, false, none, some, List, [], ◌∷◌, ◌++◌,
  inl, inr, All, In, All-In, All_of_In, All-map, All-append, Bool-cases, length-append, update,
  arith,
}
use supplementary.Cnf.Clause.{unassigned, same_sign}
use supplementary.Sat.Solver.{Lit, Solver, is_unassigned, lit_satisfied, last}
use supplementary.Sat.Invariant.{
  IsFalse, IsKnown, IsWellFormed, IsFlagged, IsPaired, unit-Holds, In-var,
}
use supplementary.Sat.Order.{
  IsTrail, IsGrounded, IsSupport, snoc-split, false_kept, IsSupport-kept, split_assigned,
}
use supplementary.Sat.Propagate.{next, conflicting, assign_lit, imply, touch}
use supplementary.Sat.Propagate.After.{IsAfter, open_count-update, quiet}
use supplementary.Sat.Propagate.Unit.{IsLeft, all-assign_lit, Fits-assign_lit, proper}
use supplementary.Sat.Propagate.Outcomes.{
  IsKept, Visited, set_reason-some, last-some, same_sign-eq, same_sign_refl, some_inj,
}

module _ (r w : ℕ) (s : Solver) (wf : IsWellFormed s) (other : ℕ) (ho : other < s.watcher_count)
    (left : All (IsLeft s (s.watched other).var) (s.literals (s.owner other)))
    (unsat : lit_satisfied s (s.watched other) ≡ false) where
  abbrev k : Lit
  k = s.watched other

  abbrev c : ℕ
  c = s.owner other

  k-IsKnown : IsKnown s.variables k
  k-IsKnown =
      All-In (IsKnown s.variables) (s.literals c) k (wf.known other ho) (wf.watches other ho)

  c-IsLeft : All (IsLeft s k.var) (s.literals c)
  c-IsLeft = left

  -- The state after the literal `k` was assigned at the level `d`.
  abbrev assigned : ℕ → Solver
  assigned d = assign_lit k d c s

  abbrev unit_state : ℕ → Solver
  unit_state d = record (assigned d) {
    reason = update (assigned d).reason k.var (some c);
    last_mod_var =
        touch k.var ((assigned d).lists ((assigned d).watch_list k.var)) (assigned d).owner
          (assigned d).last_mod_var;
  }

  closed : (d : ℕ) → is_unassigned (unit_state d) k.var ≡ false
  unfolding assign_lit is_unassigned
  closed d = ground (arith, proper k.sign k-IsKnown.1)

  sat_unit : (d : ℕ) → lit_satisfied (unit_state d) k ≡ true
  unfolding assign_lit lit_satisfied
  sat_unit d =
      let r : same_sign k.sign k.sign ≡ true = same_sign_refl k.sign in
      elim (Bool-cases (k.var == k.var)) [ inl e ↦ rw e r | inr e ↦ absurd (ground (arith, e)) ]

  open_apart : (v : ℕ) → is_unassigned s k.var ≡ true → is_unassigned s v ≡ false → v ≢ k.var
  open_apart v u h e = ground (arith, u, subst (λ x. is_unassigned s x ≡ false) e h)

  unit_kept :
      (d : ℕ)
      → is_unassigned s k.var ≡ true
      → (v : ℕ) → is_unassigned s v ≡ false
      → (unit_state d).assignment v ≡ s.assignment v
  unfolding assign_lit
  unit_kept d u v h = ground (arith, open_apart v u h)

  -- The clause is the reason of the variable that is assigned last.
  unit-IsSupport :
      (d : ℕ)
      → is_unassigned s k.var ≡ true
      → IsTrail s
      → (l : Lit) → In l (s.literals c)
      → IsSupport (unit_state d) k.var s.decisions l
  unit-IsSupport d u t l i = elim (All-In (IsLeft s k.var) (s.literals c) l left i) [
    | inl e ↦
        let q : k ≡ l = In-var (s.literals c) k l (wf.apart other ho) (wf.watches other ho) i e in
        inl (sym e, subst (λ x. lit_satisfied (unit_state d) x ≡ true) q (sat_unit d))
    | inr f ↦
        inr (t.assigned_on l.var f.0, false_kept s (unit_state d) l (unit_kept d u l.var f.0) f)
  ]

  reason_here : (d : ℕ) → (unit_state d).reason k.var ≡ some c
  reason_here d = ground arith

  reason_else : (d v : ℕ) → v ≢ k.var → (unit_state d).reason v ≡ s.reason v
  unfolding assign_lit
  reason_else d v h = ground (arith, h)

  else_unreasoned :
      (d : ℕ)
      → IsGrounded s
      → (v : ℕ) → is_unassigned (unit_state d) v ≡ true
      → (unit_state d).reason v ≡ none
  unfolding assign_lit is_unassigned
  else_unreasoned d g v h = elim (Bool-cases (v == k.var)) [
    | inl e ↦ absurd (ground (arith, h, e, proper k.sign k-IsKnown.1))
    | inr e ↦ rw e (g.unreasoned v (ground (arith, h, e)))
  ]

  last-IsBased :
      (d : ℕ)
      → is_unassigned s k.var ≡ true
      → IsTrail s
      → (v b : ℕ) (xs : List ℕ) → s.decisions ≡ xs
      → k.var ≡ v
      → (unit_state d).reason v ≡ some b
      → All (IsSupport (unit_state d) v xs) (s.literals b)
  last-IsBased d u t v b xs p q h =
      let e : c ≡ b =
        some_inj c b
          (sym (reason_here d) ∙ subst (λ x. (unit_state d).reason x ≡ some b) (sym q) h) in
      subst (λ z. All (IsSupport (unit_state d) v xs) (s.literals z)) e
        (subst (λ x. All (IsSupport (unit_state d) x xs) (s.literals c)) q
          (subst (λ l. All (IsSupport (unit_state d) k.var l) (s.literals c)) p
            (All_of_In (IsSupport (unit_state d) k.var s.decisions) (s.literals c)
              (unit-IsSupport d u t))))

  earlier-IsBased :
      (d : ℕ)
      → is_unassigned s k.var ≡ true
      → IsTrail s
      → IsGrounded s
      → (v b : ℕ) (xs zs : List ℕ) → s.decisions ≡ xs ++ v ∷ zs
      → (unit_state d).reason v ≡ some b
      → All (IsSupport (unit_state d) v xs) (s.literals b)
  earlier-IsBased d u t g v b xs zs p h =
      let a : is_unassigned s v ≡ false = split_assigned s s t v xs zs p in
      All-map (IsSupport s v xs) (IsSupport (unit_state d) v xs) (s.literals b)
        (λ l i. IsSupport-kept s (unit_state d) (unit_kept d u) v xs l a i)
        (g.based v b xs zs p (sym (reason_else d v (open_apart v u a)) ∙ h))

  unit_state-IsGrounded :
      (d : ℕ) → is_unassigned s k.var ≡ true → IsTrail s → IsGrounded s → IsGrounded (unit_state d)
  unfolding assign_lit
  unit_state-IsGrounded d u t g = record {
    unreasoned = else_unreasoned d g;
    based = λ v b xs ys e h. elim (snoc-split s.decisions k.var xs v ys e) [
      | inl (p, q) ↦ last-IsBased d u t v b xs p q h
      | inr (zs, p) ↦ earlier-IsBased d u t g v b xs zs p h
    ];
  }

  unit_state-IsAfter : (d : ℕ) → is_unassigned s k.var ≡ true → IsAfter s (unit_state d)
  unfolding assign_lit is_unassigned
  unit_state-IsAfter d u = record {
    variables = refl;
    literals = refl;
    owner = refl;
    watcher_count = refl;
    decision_level = refl;
    level = refl;
    level_count = refl;
    new = k.var ∷ [];
    trail = refl;
    new_open = (u, tt);
    new_closed = (closed d, tt);
    new_all = λ v h h'. inl (ground (arith, h, h'));
    new_once = (λ h. h, tt);
    kept = λ v h. ground (arith, u, h);
    implied = λ m ms f.
        Fits-assign_lit s k d c k-IsKnown.1 m
          (unit-Holds m s (s.literals c) k (wf.apart other ho) (wf.watches other ho) left f
            (ms other ho))
          f;
    grounded = unit_state-IsGrounded d u;
    counted = omega (
      arith,
      length-append {0} s.decisions (k.var ∷ []),
      open_count-update s.assignment k.var k.sign s.variables k-IsKnown.0 u
          (proper k.sign k-IsKnown.1),
    );
  }

  -- A satisfied literal of a clause stays satisfied.
  sat_kept :
      (d x : ℕ)
      → x < s.watcher_count
      → is_unassigned s k.var ≡ true
      → lit_satisfied s (s.watched x) ≡ true
      → lit_satisfied (unit_state d) (s.watched x) ≡ true
  unfolding assign_lit is_unassigned lit_satisfied
  sat_kept d x hx u h =
      let z : IsKnown s.variables (s.watched x) =
        All-In (IsKnown s.variables) (s.literals (s.owner x)) (s.watched x) (wf.known x hx)
          (wf.watches x hx) in
      let q : same_sign (s.watched x).sign unassigned ≡ false = proper (s.watched x).sign z.1 in
      elim (Bool-cases ((s.watched x).var == k.var)) [
        | inl e ↦
            let b : same_sign (s.watched x).sign unassigned ≡ true =
              subst (λ a. same_sign (s.watched x).sign a ≡ true)
                (same_sign-eq (s.assignment k.var) u)
                (subst (λ v. same_sign (s.watched x).sign (s.assignment v) ≡ true) (ground arith)
                  h) in
            absurd (ground (arith, q, b))
        | inr e ↦ rw e h
      ]

  flag_kept :
      (d : ℕ)
      → is_unassigned s k.var ≡ true
      → (x : ℕ) → x < s.watcher_count
      → IsFlagged (unit_state d) (s.owner x)
  unfolding assign_lit
  flag_kept d u x hx h = elim (Bool-cases (s.owner x == c)) [
    | inl e ↦
        let q : s.owner x ≡ c = ground arith in
        elim (wf.ends other ho) [
          | inl f ↦ ground (arith, ap s.first q ∙ f, sat_unit d)
          | inr f ↦ ground (arith, ap s.second q ∙ f, sat_unit d)
        ]
    | inr e ↦
        let g : IsPaired s x = wf.paired x hx in
        ground (
          arith,
          wf.flagged x hx,
          sat_kept d (s.first (s.owner x)) g.0 u,
          sat_kept d (s.second (s.owner x)) g.2 u,
        )
  ]

  unit_state-IsWellFormed : (d : ℕ) → is_unassigned s k.var ≡ true → IsWellFormed (unit_state d)
  unfolding assign_lit
  unit_state-IsWellFormed d u = record {
    list_known = wf.list_known;
    list_own = wf.list_own;
    listed = wf.listed;
    watches = wf.watches;
    known = wf.known;
    apart = wf.apart;
    paired = wf.paired;
    ends = wf.ends;
    placed = wf.placed;
    flagged = λ x hx. flag_kept d u x hx;
    levelled = wf.levelled;
    decided =
        All-append (λ v. v < s.variables) s.decisions (k.var ∷ []) wf.decided (k-IsKnown.0, tt);
  }

  unit_state-IsKept : (d : ℕ) → is_unassigned s k.var ≡ true → IsKept r s (unit_state d)
  unfolding assign_lit
  unit_state-IsKept d u = record {
    well_formed = unit_state-IsWellFormed d u;
    after = unit_state-IsAfter d u;
    list = refl;
    list_count = omega arith;
  }

  imply_unit :
      (d : ℕ)
      → is_unassigned s k.var ≡ true
      → last s.decision_level ≡ some d
      → imply c other s ≡ next (unit_state d)
  unfolding imply
  imply_unit d u e = rw (
    u,
    e,
    set_reason-some k.var c (assigned d) (all-assign_lit s k d c k-IsKnown.1 (s.literals c) left),
  )

  conflicted : is_unassigned s k.var ≡ false → All (IsFalse s) (s.literals c)
  conflicted u = All_of_In (IsFalse s) (s.literals c) (λ l h.
      elim (All-In (IsLeft s k.var) (s.literals c) l left h) [
        | inl e ↦
            subst (IsFalse s)
              (In-var (s.literals c) k l (wf.apart other ho) (wf.watches other ho) h e) (u, unsat)
        | inr f ↦ f
      ])

  imply_conflict : is_unassigned s k.var ≡ false → imply c other s ≡ conflicting c s
  unfolding imply
  imply_conflict u = rw u

  pub imply-Visited : Visited r w s (imply c other s)
  imply-Visited = elim (Bool-cases (is_unassigned s k.var)) [
    | inl u ↦
        let (d, ds, e) = wf.levelled in
        let (x, p) = last-some d ds in
        subst (Visited r w s) (sym (imply_unit x u (ap last e ∙ p))) (unit_state-IsKept x u)
    | inr u ↦ subst (Visited r w s) (sym (imply_conflict u)) (
      wf,
      quiet s s refl refl refl refl refl refl refl refl refl refl,
      (conflicted u, other, ho, refl),
    )
  ]
