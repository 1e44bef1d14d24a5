-- ===== src/Sat/Backtrack/Correct.antt =====
-- constraintsolver/src/CNSat.cpp, CNSat::backTrack(shared_ptr<DecisionLevel>): what is left of the trail.
use supplementary.Base.{
  ℕ, ◌-◌, ◌<◌, ◌≤◌, ◌≡◌, inl, inr, refl, sym, subst, ap, ◌∙◌, true, false, some, List, ◌∷◌, ◌++◌,
  length, In, All, All-In, All-map, All_of_In, Nodup, Nodup-left, Nodup-apart, In-append,
  In-append_left, In-append_right, Bool-cases, arith,
}
use mathlib.Core.List.{append_assoc}
use supplementary.Cnf.Clause.{unassigned, same_sign}
use supplementary.Sat.Solver.{Lit, Solver, is_unassigned, lit_satisfied, take, drop}
use supplementary.Sat.Invariant.{IsWellFormed}
use supplementary.Sat.Order.{IsTrail, IsAscending, IsGrounded, IsSupport, IsSupport-local}
use supplementary.Sat.Propagate.After.{closed_open}
use supplementary.Sat.Backtrack.{next_level, back_track, unassign_all}
use supplementary.Sat.Backtrack.Restore.{IsTakenBack, unassign_all-IsTakenBack}
use supplementary.Sat.Backtrack.Levels.{take-drop, IsNext, next_level_lem, remove_range-eq}

-- The state that backtracking leaves.
pub record IsBacktracked (s : Solver) (keep : List ℕ) (d : ℕ) (s' : Solver) : Type 0 where
  pub well_formed : IsWellFormed s'
  pub on_trail : IsTrail s'
  pub grounded : IsGrounded s → IsGrounded s'
  pub levels : s'.decision_level ≡ keep
  pub dropped : List ℕ
  pub trail : s.decisions ≡ s'.decisions ++ dropped
  pub place : length s'.decisions ≡ s.level d
  pub taken : (v : ℕ) → In v dropped → is_unassigned s' v ≡ true
  pub kept :
      (v : ℕ) → (¬ In v dropped) → (s'.assignment v ≡ s.assignment v) × (s'.reason v ≡ s.reason v)

abbrev marked : Solver → Solver
marked s = record s { recent_backtrack = true }

marked-IsWellFormed : (s : Solver) → IsWellFormed s → IsWellFormed (marked s)
unfolding lit_satisfied
marked-IsWellFormed s wf = record {
  list_known = wf.list_known;
  list_own = wf.list_own;
  listed = wf.listed;
  watches = wf.watches;
  known = wf.known;
  apart = wf.apart;
  paired = wf.paired;
  ends = wf.ends;
  placed = wf.placed;
  flagged = wf.flagged;
  levelled = wf.levelled;
  decided = wf.decided;
}

abbrev rest_of : Solver → ℕ → Solver
rest_of s i = unassign_all (drop i s.decisions) (marked s)

abbrev left_by : Solver → ℕ → List ℕ → List ℕ → Solver
left_by s i ys keep = record (rest_of s i) { decisions = ys; decision_level = keep }

back_track-eq :
    (db : ℕ) (s : Solver) (keep : List ℕ) (d : ℕ) (ys : List ℕ)
    → next_level db s.decision_level ≡ some (keep, d)
    → take (s.level d) s.decisions ≡ some ys
    → IsTakenBack (drop (s.level d) s.decisions) (marked s) (rest_of s (s.level d))
    → back_track db s ≡ some (left_by s (s.level d) ys keep)
unfolding back_track
back_track-eq db s keep d ys e p r = ground (
  arith,
  e,
  remove_range-eq (s.level d) (length s.decisions - s.level d) (rest_of s (s.level d)) ys
      (subst (λ l. take (s.level d) l ≡ some ys) (sym r.decisions) p)
      (omega (arith, ap length r.decisions)),
)

open_of :
    (s : Solver) (i : ℕ) (ys keep : List ℕ) (v : ℕ)
    → (rest_of s i).assignment v ≡ unassigned
    → is_unassigned (left_by s i ys keep) v ≡ true
unfolding is_unassigned same_sign
open_of s i ys keep v h = rw h

module _ (s : Solver) (keep : List ℕ) (d : ℕ) (ys : List ℕ)
    (r : IsTakenBack (drop (s.level d) s.decisions) (marked s) (rest_of s (s.level d)))
    (q : s.decisions ≡ ys ++ drop (s.level d) s.decisions)
    (next : IsNext s.level s.decision_level keep d) where
  abbrev left : Solver
  left = left_by s (s.level d) ys keep

  abbrev gone : List ℕ
  gone = drop (s.level d) s.decisions

  left_by-IsWellFormed : IsWellFormed s → IsWellFormed left
  unfolding lit_satisfied
  left_by-IsWellFormed wf =
      let w : IsWellFormed (rest_of s (s.level d)) = r.well_formed in
      record {
        list_known = w.list_known;
        list_own = w.list_own;
        listed = w.listed;
        watches = w.watches;
        known = w.known;
        apart = w.apart;
        paired = w.paired;
        ends = w.ends;
        placed = w.placed;
        flagged = w.flagged;
        levelled = next.3;
        decided =
            subst (λ n. All (λ v. v < n) ys) (sym r.variables)
              (All_of_In (λ v. v < s.variables) ys
                (λ v m.
                  All-In (λ v. v < s.variables) s.decisions v wf.decided
                    (subst (In v) (sym q) (In-append_left v ys gone m))));
      }

  same_state : (v : ℕ) → (¬ In v gone) → is_unassigned left v ≡ is_unassigned s v
  unfolding is_unassigned
  same_state v n = ap (λ a. same_sign a unassigned) (r.kept v n).0

  same_before : IsTrail s → (v : ℕ) → In v ys → is_unassigned left v ≡ is_unassigned s v
  same_before t v m = same_state v (λ g. Nodup-apart ys gone v (subst Nodup q t.once) m g)

  left_by-IsTrail : IsTrail s → length ys ≡ s.level d → IsTrail left
  left_by-IsTrail t len = record {
    assigned_on = λ v h. elim (Bool-cases (is_unassigned s v)) [
      | inl e ↦
          let n : ¬ In v gone = λ m. absurd (
            ground (
              arith,
              e,
              All-In (λ v. is_unassigned s v ≡ false) s.decisions v t.on_assigned
                  (subst (In v) (sym q) (In-append_right v ys gone m)),
            )) in
          absurd (ground (arith, h, e, same_state v n))
      | inr e ↦ elim (In-append v ys gone (subst (In v) q (t.assigned_on v e))) [
        | inl m ↦ m
        | inr m ↦ absurd (ground (arith, h, open_of s (s.level d) ys keep v (r.taken v m)))
      ]
    ];
    on_assigned =
        All_of_In (λ v. is_unassigned left v ≡ false) ys
          (λ v m.
            same_before t v m
            ∙ All-In (λ v. is_unassigned s v ≡ false) s.decisions v t.on_assigned
                (subst (In v) (sym q) (In-append_left v ys gone m)));
    once = Nodup-left ys gone (subst Nodup q t.once);
    bounded =
        subst (λ (f : ℕ → ℕ). All (λ e. f e ≤ length ys) keep) (sym r.level)
          (All_of_In (λ e. s.level e ≤ length ys) keep
            (λ e m. let le : s.level e ≤ s.level d = (next.0 e m).1 in omega (arith, len, le)));
    allocated =
        subst (λ n. All (λ e. e < n) keep) (sym r.level_count)
          (All_of_In (λ e. e < s.level_count) keep
            (λ e m. All-In (λ e. e < s.level_count) s.decision_level e t.allocated (next.0 e m).0));
    ascending = subst (λ (f : ℕ → ℕ). IsAscending f keep) (sym r.level) next.2;
  }

  ys_kept :
      IsTrail s
      → (v : ℕ) → In v ys
      → (left.assignment v ≡ s.assignment v) × (left.reason v ≡ s.reason v)
  ys_kept t v m = r.kept v (λ g. Nodup-apart ys gone v (subst Nodup q t.once) m g)

  left_by-IsGrounded : IsTrail s → IsGrounded s → IsGrounded left
  left_by-IsGrounded t g = record {
    unreasoned = λ v h. elim (Bool-cases (is_unassigned s v)) [
      | inl e ↦
          let n : ¬ In v gone = λ m.
            closed_open s v
              (All-In (λ v. is_unassigned s v ≡ false) s.decisions v t.on_assigned
                (subst (In v) (sym q) (In-append_right v ys gone m)))
              e in
          (r.kept v n).1 ∙ g.unreasoned v e
      | inr e ↦ elim (In-append v ys gone (subst (In v) q (t.assigned_on v e))) [
        | inl m ↦ absurd (closed_open left v (same_before t v m ∙ e) h)
        | inr m ↦ r.cleared v m
      ]
    ];
    based = λ v c xs zs e h.
        let inner : (u : ℕ) → In u (xs ++ v ∷ zs) → In u ys = λ u m. subst (In u) (sym e) m in
        let at_v : In v ys = inner v (In-append_right v xs (v ∷ zs) (inl refl)) in
        let d' : s.decisions ≡ xs ++ v ∷ (zs ++ gone) =
          q ∙ ap (λ l. l ++ gone) e ∙ append_assoc xs (v ∷ zs) gone in
        subst (λ (f : ℕ → List Lit). All (IsSupport left v xs) (f c)) (sym r.literals)
          (All-map (IsSupport s v xs) (IsSupport left v xs) (s.literals c)
            (λ l i.
              IsSupport-local s left v xs l (ys_kept t v at_v).0
                (λ u m. (ys_kept t u (inner u (In-append_left u xs (v ∷ zs) m))).0) i)
            (g.based v c xs (zs ++ gone) d' (sym (ys_kept t v at_v).1 ∙ h)));
  }

-- backTrack(db), where a level `d` stands after `db`, throws no exception and leaves the levels up to
-- `db` and the decisions before the place of `d`: the variables of the others are unassigned and the
-- rest keep assignment and reason. The solver stays well-formed, its clause flags computed
-- again, the trail in order, and an implication graph one.
pub back_track_correct :
    (db : ℕ) (s : Solver) (keep : List ℕ) (d : ℕ)
    → IsWellFormed s
    → IsTrail s
    → next_level db s.decision_level ≡ some (keep, d)
    → (s' : Solver) × (back_track db s ≡ some s') × IsBacktracked s keep d s'
back_track_correct db s keep d wf t e =
    let next : IsNext s.level s.decision_level keep d =
      next_level_lem s.level db s.decision_level keep d t.ascending e in
    let i : ℕ = s.level d in
    let le : i ≤ length s.decisions =
      All-In (λ x. s.level x ≤ length s.decisions) s.decision_level d t.bounded next.1 in
    let (ys, p, q, len) = take-drop i s.decisions le in
    let r : IsTakenBack (drop i s.decisions) (marked s) (rest_of s i) =
      unassign_all-IsTakenBack (drop i s.decisions) (marked s) (marked-IsWellFormed s wf) in
    (
      left_by s i ys keep,
      back_track-eq db s keep d ys e p r,
      record {
        well_formed = left_by-IsWellFormed s keep d ys r q next wf;
        on_trail = left_by-IsTrail s keep d ys r q next t len;
        grounded = left_by-IsGrounded s keep d ys r q next t;
        levels = refl;
        dropped = drop i s.decisions;
        trail = q;
        place = len;
        taken = λ v m. open_of s i ys keep v (r.taken v m);
        kept = r.kept;
      },
    )
