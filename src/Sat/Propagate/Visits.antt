-- ===== src/Sat/Propagate/Visits.antt =====
-- constraintsolver/src/CNSat.cpp, CNSat::propagate: the visit of a watcher, on each of its branches.
use supplementary.Base.{
  ℕ, ◌<◌, ◌==◌, ◌≡◌, refl, sym, subst, ◌∙◌, true, false, ◌||◌, none, inl, inr, All, In, All-In,
  Bool-cases, option_both, arith,
}
use supplementary.Sat.Solver.{Lit, Solver, is_unassigned, lit_satisfied}
use supplementary.Sat.Invariant.{IsKnown, IsWellFormed, IsFlagged}
use supplementary.Sat.Propagate.{
  Visit, next, again, conflicting, thrown, imply, find_watch, bump, mark, rewatch, visit,
  other_watcher, move_watcher,
}
use supplementary.Sat.Propagate.Move.{move_watcher-IsWellFormed, lists-move_watcher}
use supplementary.Sat.Propagate.After.{IsAfter_trans, quiet}
use supplementary.Sat.Propagate.Unit.{IsLeft, find_watch-none, find_watch-some}
use supplementary.Sat.Propagate.Imply.{imply-Visited}
use supplementary.Sat.Propagate.Outcomes.{IsKept, Rests, Visited}

pub IsKept-trans : (r : ℕ) (s t u : Solver) → IsKept r s t → IsKept r t u → IsKept r s u
IsKept-trans r s t u a b = record {
  well_formed = b.well_formed;
  after = IsAfter_trans s t u a.after b.after;
  list = b.list ∙ a.list;
  list_count = omega (arith, a.list_count, b.list_count);
}

Visited-from :
    (r w : ℕ) (s t : Solver) → IsKept r s t → (x : Visit) → Visited r w t x → Visited r w s x
Visited-from r w s t k (next u) h = IsKept-trans r s t u k h
Visited-from r w s t k (again u) h = (IsKept-trans r s t u k h.0, h.1)
Visited-from r w s t k (conflicting c u) h = (h.0, IsAfter_trans s t u k.after h.1, h.2)
Visited-from r w s t k thrown h = h

-- One of the watched literals of a clause is satisfied.
abbrev IsWatchedSatisfied : Solver → ℕ → Type 0
IsWatchedSatisfied s c =
    (lit_satisfied s (s.watched (s.first c)) || lit_satisfied s (s.watched (s.second c))) ≡ true

IsFlagged-mark :
    (s : Solver) (c : ℕ)
    → IsWellFormed s
    → IsWatchedSatisfied s c
    → (x : ℕ) → x < s.watcher_count
    → IsFlagged (mark c s) (s.owner x)
unfolding mark lit_satisfied
IsFlagged-mark s c wf sat x hx h = elim (Bool-cases (s.owner x == c)) [
  | inl e ↦ let q : c ≡ s.owner x = ground arith in subst (IsWatchedSatisfied s) q sat
  | inr e ↦ wf.flagged x hx (ground (arith, h))
]

mark-IsKept :
    (r c : ℕ) (s : Solver) → IsWellFormed s → IsWatchedSatisfied s c → IsKept r s (mark c s)
unfolding mark lit_satisfied
mark-IsKept r c s wf sat = record {
  well_formed = record {
    list_known = wf.list_known;
    list_own = wf.list_own;
    listed = wf.listed;
    watches = wf.watches;
    known = wf.known;
    apart = wf.apart;
    paired = wf.paired;
    ends = wf.ends;
    placed = wf.placed;
    flagged = λ x hx. IsFlagged-mark s c wf sat x hx;
    levelled = wf.levelled;
    decided = wf.decided;
  };
  after = quiet s (mark c s) refl refl refl refl refl refl refl refl refl refl;
  list = refl;
  list_count = omega arith;
}

bump-IsKept : (r c : ℕ) (s : Solver) → IsWellFormed s → IsKept r s (bump c s)
unfolding bump lit_satisfied
bump-IsKept r c s wf = record {
  well_formed = record {
    list_known = wf.list_known;
    list_own = wf.list_own;
    listed = wf.listed;
    watches = wf.watches;
    known = wf.known;
    apart = wf.apart;
    paired = wf.paired;
    ends = wf.ends;
    placed = wf.placed;
    flagged = wf.flagged;
    levelled = wf.levelled;
    decided = wf.decided;
  };
  after = quiet s (bump c s) refl refl refl refl refl refl refl refl refl refl;
  list = refl;
  list_count = omega arith;
}

pub self-IsKept : (r : ℕ) (s : Solver) → IsWellFormed s → IsKept r s s
self-IsKept r s wf = record {
  well_formed = wf;
  after = quiet s s refl refl refl refl refl refl refl refl refl refl;
  list = refl;
  list_count = omega arith;
}

module _ (r w : ℕ) (s : Solver) (wf : IsWellFormed s) (hw : w < s.watcher_count)
    (hr : r < s.list_count)
    (home : (u : ℕ) → u < s.variables → s.watch_list u ≡ r → (s.watched w).var ≡ u) where
  other_known : (other_watcher s w < s.watcher_count) × (s.owner (other_watcher s w) ≡ s.owner w)
  unfolding other_watcher
  other_known = ground (arith, wf.paired w hw)

  own_satisfied : lit_satisfied s (s.watched w) ≡ true → IsWatchedSatisfied s (s.owner w)
  own_satisfied h = elim (wf.ends w hw) [
    | inl f ↦ ground (arith, f, h)
    | inr f ↦ ground (arith, f, h)
  ]

  other_satisfied :
      lit_satisfied s (s.watched (other_watcher s w)) ≡ true → IsWatchedSatisfied s (s.owner w)
  unfolding other_watcher
  other_satisfied h = ground (arith, h)

  moved :
      s.satisfied (s.owner w) ≡ false
      → (l : Lit) → In l (s.literals (s.owner w))
      → (is_unassigned s l.var || lit_satisfied s l) ≡ true
      → Visited r w s (again (move_watcher w l s))
  unfolding move_watcher is_unassigned lit_satisfied
  moved hs l hin rest =
      let known : All (IsKnown s.variables) (s.literals (s.owner w)) = wf.known w hw in
      let hl : IsKnown s.variables l =
        All-In (IsKnown s.variables) (s.literals (s.owner w)) l known hin in
      let hv : IsKnown s.variables (s.watched w) =
        All-In (IsKnown s.variables) (s.literals (s.owner w)) (s.watched w) known
          (wf.watches w hw) in
      (
        record {
          well_formed = move_watcher-IsWellFormed s wf w l hw hl.0 hv.0 hs hin;
          after = quiet s (move_watcher w l s) refl refl refl refl refl refl refl refl refl refl;
          list = lists-move_watcher s wf w l hw hl.0 hv.0 hs r hr home;
          list_count = omega arith;
        },
        ground arith,
      )

  unit-Visited :
      lit_satisfied s (s.watched (other_watcher s w)) ≡ false
      → find_watch s (s.watched (other_watcher s w)).var (s.literals (s.owner w)) ≡ none
      → Visited r w s (imply (s.owner w) (other_watcher s w) (bump (s.owner w) s))
  unfolding bump is_unassigned lit_satisfied
  unit-Visited h e =
      let t : Solver = bump (s.owner w) s in
      let o : ℕ = other_watcher s w in
      let k : IsKept r s t = bump-IsKept r (s.owner w) s wf in
      Visited-from r w s t k (imply (s.owner w) o t) (
        subst (λ c. Visited r w t (imply c o t)) other_known.1
          (imply-Visited r w t k.well_formed o other_known.0
            (subst (λ c. All (IsLeft s (s.watched o).var) (s.literals c)) (sym other_known.1)
              (find_watch-none s (s.watched o).var (s.literals (s.owner w)) e))
            h))

  rewatch-Visited :
      s.satisfied (s.owner w) ≡ false
      → lit_satisfied s (s.watched (other_watcher s w)) ≡ false
      → Visited r w s (rewatch w s)
  unfolding rewatch
  rewatch-Visited hs h = option_both (Visited r w s) _ _ _ (unit-Visited h) (λ l e.
      let (hin, rest) =
        find_watch-some s (s.watched (other_watcher s w)).var (s.literals (s.owner w)) l e in
      moved hs l hin rest)

  pub visit-Visited : Visited r w s (visit w s)
  unfolding visit
  visit-Visited = elim (Bool-cases (s.satisfied (s.owner w))) [
    | inl a ↦ rw a (self-IsKept r s wf)
    | inr a ↦ elim (Bool-cases (lit_satisfied s (s.watched w))) [
      | inl b ↦ rw (a, b) (mark-IsKept r (s.owner w) s wf (own_satisfied b))
      | inr b ↦ elim (Bool-cases (is_unassigned s (s.watched w).var)) [
        | inl c ↦ rw (a, b, c) (self-IsKept r s wf)
        | inr c ↦ elim (Bool-cases (lit_satisfied s (s.watched (other_watcher s w)))) [
          | inl d ↦ rw (a, b, c, d) (mark-IsKept r (s.owner w) s wf (other_satisfied d))
          | inr d ↦ rw (a, b, c, d) (rewatch-Visited a d)
        ]
      ]
    ]
  ]

-- A watcher that is at rest is passed by.
pub visit-Rests : (s : Solver) (w : ℕ) → Rests s w → (s' : Solver) × (visit w s ≡ next s')
unfolding visit
visit-Rests s w h = elim (Bool-cases (s.satisfied (s.owner w))) [
  | inl a ↦ (s, rw a)
  | inr a ↦ elim (Bool-cases (lit_satisfied s (s.watched w))) [
    | inl b ↦ (mark (s.owner w) s, rw (a, b))
    | inr b ↦ elim (Bool-cases (is_unassigned s (s.watched w).var)) [
      | inl c ↦ (s, rw (a, b, c))
      | inr c ↦ absurd (ground (arith, b, c, h))
    ]
  ]
]
