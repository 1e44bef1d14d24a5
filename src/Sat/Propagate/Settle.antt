-- ===== src/Sat/Propagate/Settle.antt =====
-- constraintsolver/src/CNSat.cpp, CNSat::propagate: a visit leaves its watcher settled, and the settled
-- ones settled or their variables on the trail.
use supplementary.Base.{
  ℕ, ◌<◌, ◌==◌, ◌≡◌, ◌⊎◌, inl, inr, refl, sym, ap, ◌∙◌, Bool, true, ◌||◌, Option, some, Bool-cases,
  Option-cases, option_both, update, arith,
}
use supplementary.Sat.Solver.{
  Lit, Solver, is_unassigned, lit_satisfied, set_reason, all_assigned, last, is_reason,
}
use supplementary.Sat.Invariant.{IsWellFormed}
use supplementary.Sat.Propagate.{
  Visit, next, again, conflicting, thrown, imply, assign_lit, bump, mark, rewatch, visit,
  other_watcher, move_watcher,
}
use supplementary.Sat.Propagate.Unit.{find_watch-some}
use supplementary.Sat.Propagate.Outcomes.{Rests}

-- A watcher with nothing to do: its clause is flagged, or its literal is not false.
abbrev pub IsCalm : Solver → ℕ → Type 0
IsCalm s w = (s.satisfied (s.owner w) ≡ true) ⊎ Rests s w

-- A step keeps the flags that are set, and a watcher that it moves does not watch a false literal.
pub record IsGentle (s t : Solver) : Type 0 where
  pub flags : (c : ℕ) → s.satisfied c ≡ true → t.satisfied c ≡ true
  pub watched : (x : ℕ) → (t.watched x ≡ s.watched x) ⊎ Rests t x

abbrev pub Settles : ℕ → Solver → Visit → Type 0
Settles w s (next t) = IsGentle s t × IsCalm t w
Settles w s (again t) = IsGentle s t × Rests t w
Settles w s (conflicting c t) = Unit {0}
Settles w s thrown = Unit {0}

self-IsGentle : (s : Solver) → IsGentle s s
self-IsGentle s = record { flags = λ c h. h; watched = λ x. inl refl }

mark-IsGentle : (s : Solver) (c : ℕ) → IsGentle s (mark c s)
unfolding mark
mark-IsGentle s c = record { flags = λ d h. ground (arith, h); watched = λ x. inl refl }

mark-IsCalm : (s : Solver) (w : ℕ) → IsCalm (mark (s.owner w) s) w
unfolding mark
mark-IsCalm s w = inl (ground arith)

set_reason-fields :
    (v c : ℕ) (s t : Solver)
    → set_reason v c s ≡ some t
    → (t.satisfied ≡ s.satisfied) × (t.watched ≡ s.watched) × (t.owner ≡ s.owner)
unfolding set_reason
set_reason-fields v c s t h =
    elim (Bool-cases (is_reason (s.reason v) c || all_assigned s (s.literals c))) [
      | inl e ↦
          let q : record s { reason = update s.reason v (some c) } ≡ t = ground (arith, e, h) in
          (
            ap (λ (x : Solver). x.satisfied) (sym q),
            ap (λ (x : Solver). x.watched) (sym q),
            ap (λ (x : Solver). x.owner) (sym q),
          )
      | inr e ↦ absurd (ground (arith, e, h))
    ]

moved-Settles :
    (s : Solver) (w : ℕ) (l : Lit)
    → (is_unassigned s l.var || lit_satisfied s l) ≡ true
    → Settles w s (again (move_watcher w l s))
unfolding move_watcher is_unassigned lit_satisfied
moved-Settles s w l rest = (
  record {
    flags = λ c h. ground (arith, h);
    watched = λ x. elim (Bool-cases (x == w)) [
      | inl e ↦ inr (ground (arith, e, rest))
      | inr e ↦ inl (ground (arith, e))
    ];
  },
  ground (arith, rest),
)

module _ (s : Solver) (w other : ℕ) (own : s.owner other ≡ s.owner w) where
  abbrev l : Lit
  l = s.watched other

  implied-Settles :
      (c d : ℕ) (t : Solver) (f : ℕ → Option ℕ)
      → set_reason l.var c (assign_lit l d (s.owner other) s) ≡ some t
      → Settles w s (next (record t { last_mod_var = f }))
  unfolding assign_lit mark
  implied-Settles c d t f h =
      let (p, q, o) = set_reason-fields l.var c (assign_lit l d (s.owner other) s) t h in
      let e : t.satisfied (t.owner w) ≡ true =
        ap (λ (g : ℕ → ℕ). t.satisfied (g w)) o
        ∙ ap (λ (g : ℕ → Bool). g (s.owner w)) p
        ∙ (ground (arith, own)) in
      (
        record {
          flags = λ x k. ap (λ (g : ℕ → Bool). g x) p ∙ ground (arith, k);
          watched = λ x. inl (ap (λ (g : ℕ → Lit). g x) q);
        },
        inl e,
      )

  imply-Settles : (c : ℕ) → Settles w s (imply c other s)
  unfolding imply
  imply-Settles c = elim (Bool-cases (is_unassigned s l.var)) [
    | inr u ↦ rw u tt
    | inl u ↦ elim (Option-cases (last s.decision_level)) [
      | inl e ↦ rw (u, e) tt
      | inr (d, e) ↦ elim (Option-cases (set_reason l.var c (assign_lit l d (s.owner other) s))) [
        | inl h ↦ rw (u, e, h) tt
        | inr (t, h) ↦ rw (u, e, h) (implied-Settles c d t _ h)
      ]
    ]
  ]

Settles-bump : (s : Solver) (w c : ℕ) (x : Visit) → Settles w (bump c s) x → Settles w s x
unfolding bump
Settles-bump s w c (next t) (g, h) = (record { flags = g.flags; watched = g.watched }, h)
Settles-bump s w c (again t) (g, h) = (record { flags = g.flags; watched = g.watched }, h)
Settles-bump s w c (conflicting d t) h = tt
Settles-bump s w c thrown h = tt

other-owner :
    (s : Solver) (w : ℕ)
    → IsWellFormed s
    → w < s.watcher_count
    → s.owner (other_watcher s w) ≡ s.owner w
unfolding other_watcher
other-owner s w wf hw = ground (arith, wf.paired w hw)

bumped :
    (s : Solver) (w o : ℕ)
    → s.owner o ≡ s.owner w
    → Settles w (bump (s.owner w) s) (imply (s.owner w) o (bump (s.owner w) s))
unfolding bump
bumped s w o own = imply-Settles (bump (s.owner w) s) w o own (s.owner w)

rewatch-Settles :
    (s : Solver) (w : ℕ) → IsWellFormed s → w < s.watcher_count → Settles w s (rewatch w s)
unfolding rewatch
rewatch-Settles s w wf hw =
    let o : ℕ = other_watcher s w in
    option_both (Settles w s) _ _ _
      (λ e.
        Settles-bump s w (s.owner w) (imply (s.owner w) o (bump (s.owner w) s))
          (bumped s w o (other-owner s w wf hw)))
      (λ k e.
        moved-Settles s w k (find_watch-some s (s.watched o).var (s.literals (s.owner w)) k e).1)

-- A visit leaves the watcher settled, and moves none to a false literal.
pub visit-Settles :
    (s : Solver) (w : ℕ) → IsWellFormed s → w < s.watcher_count → Settles w s (visit w s)
unfolding visit
visit-Settles s w wf hw = elim (Bool-cases (s.satisfied (s.owner w))) [
  | inl a ↦ rw a (self-IsGentle s, inl a)
  | inr a ↦ elim (Bool-cases (lit_satisfied s (s.watched w))) [
    | inl b ↦ rw (a, b) (mark-IsGentle s (s.owner w), mark-IsCalm s w)
    | inr b ↦ elim (Bool-cases (is_unassigned s (s.watched w).var)) [
      | inl c ↦ rw (a, b, c) (self-IsGentle s, inr (ground (arith, c)))
      | inr c ↦ elim (Bool-cases (lit_satisfied s (s.watched (other_watcher s w)))) [
        | inl d ↦ rw (a, b, c, d) (mark-IsGentle s (s.owner w), mark-IsCalm s w)
        | inr d ↦ rw (a, b, c, d) (rewatch-Settles s w wf hw)
      ]
    ]
  ]
]
