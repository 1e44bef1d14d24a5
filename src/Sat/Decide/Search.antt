-- ===== src/Sat/Decide/Search.antt =====
-- constraintsolver/src/Decider.cpp, Decider::decideVariableCountBased: which literal is decided.
use supplementary.Base.{
  ℕ, zero, suc, ◌<◌, ◌≤◌, ◌≡◌, inl, inr, refl, sym, subst, true, false, not, ◌&&◌, Option, none,
  some, List, [], ◌∷◌, if◌then◌else◌, All, All-map, Bool-cases, Option-cases, lt_or_eq, arith,
}
use supplementary.Sat.Solver.{Lit, Solver, is_unassigned}
use supplementary.Sat.Invariant.{IsWellFormed, IsListed}
use supplementary.Sat.Decide.{beats, scan_watchers, scan_variables}

-- A watcher that the search may choose: its clause is not flagged, and its variable is unassigned.
abbrev pub IsOpen : Solver → ℕ → Type 0
IsOpen s w =
    (w < s.watcher_count)
    × (s.satisfied (s.owner w) ≡ false)
    × (is_unassigned s (s.watched w).var ≡ true)

-- No watcher with a computed count beats the literal found so far.
abbrev pub IsBeaten : Solver → Option Lit → ℕ → Type 0
IsBeaten s best w =
    s.satisfied (s.owner w) ≡ false → beats (s.watched w).variable_count best ≡ false

abbrev pub IsChoice : Solver → Option Lit → Type 0
IsChoice s none = Unit {0}
IsChoice s (some l) =
    (w : ℕ) × (s.watched w ≡ l) × IsOpen s w × ((n : ℕ) × (l.variable_count ≡ some n))

beats-some : (a : Option ℕ) (b : Option Lit) → beats a b ≡ true → (n : ℕ) × (a ≡ some n)
unfolding beats
beats-some none b h = cc
beats-some (some n) b h = (n, refl)

beats_trans :
    (a : Option ℕ) (l : Lit) (b : Option Lit)
    → beats l.variable_count b ≡ true
    → beats a b ≡ false
    → beats a (some l) ≡ false
unfolding beats
beats_trans none l b h k = refl
beats_trans (some n) l none h k = cc
beats_trans (some n) l (some j) h k = ground arith

beats_irrefl : (l : Lit) → beats l.variable_count (some l) ≡ false
unfolding beats
beats_irrefl l = elim (Option-cases l.variable_count) [
  | inl e ↦ ground (arith, e)
  | inr (n, e) ↦ ground (arith, e)
]

-- A search goes from `best` to `r`: what was beaten still is.
abbrev Grows : Option Lit → Option Lit → Type 0
Grows best r = (a : Option ℕ) → beats a best ≡ false → beats a r ≡ false

scan_step : Solver → ℕ → Option Lit → Option Lit
scan_step s w best =
    if not (s.satisfied (s.owner w)) && beats (s.watched w).variable_count best
    then some (s.watched w)
    else best

scan_step_lem :
    (s : Solver) (w : ℕ) (best : Option Lit)
    → w < s.watcher_count
    → is_unassigned s (s.watched w).var ≡ true
    → IsChoice s best
    → IsChoice s (scan_step s w best)
      × Grows best (scan_step s w best)
      × IsBeaten s (scan_step s w best) w
unfolding scan_step
scan_step_lem s w best hw u c = elim (Bool-cases (s.satisfied (s.owner w))) [
  | inl e ↦ rw e (c, λ a h. h, λ f. absurd (ground (arith, e, f)))
  | inr e ↦ elim (Bool-cases (beats (s.watched w).variable_count best)) [
    | inl b ↦
        rw (e, b)
          (
            (w, refl, (hw, e, u), beats-some (s.watched w).variable_count best b),
            λ a h. beats_trans a (s.watched w) best b h,
            λ f. beats_irrefl (s.watched w),
          )
    | inr b ↦ rw (e, b) (c, λ a h. h, λ f. b)
  ]
]

scan_watchers_lem :
    (s : Solver) (ws : List ℕ) (best : Option Lit)
    → All (λ w. (w < s.watcher_count) × (is_unassigned s (s.watched w).var ≡ true)) ws
    → IsChoice s best
    → IsChoice s (scan_watchers s ws best)
      × Grows best (scan_watchers s ws best)
      × All (IsBeaten s (scan_watchers s ws best)) ws
unfolding scan_watchers scan_step
scan_watchers_lem s [] best h c = (c, λ a k. k, tt)
scan_watchers_lem s (w ∷ ws) best h c =
    let x : IsChoice s (scan_step s w best)
        × Grows best (scan_step s w best)
        × IsBeaten s (scan_step s w best) w =
      scan_step_lem s w best h.0.0 h.0.1 c in
    let r : IsChoice s (scan_watchers s ws (scan_step s w best))
        × Grows (scan_step s w best) (scan_watchers s ws (scan_step s w best))
        × All (IsBeaten s (scan_watchers s ws (scan_step s w best))) ws =
      scan_watchers_lem s ws (scan_step s w best) h.1 x.0 in
    (r.0, λ a k. r.1 a (x.1 a k), (λ f. r.1 (s.watched w).variable_count (x.2 f), r.2))

-- The watchers of an unassigned variable.
abbrev pub AllBeaten : Solver → Option Lit → ℕ → Type 0
AllBeaten s r v = is_unassigned s v ≡ true → All (IsBeaten s r) (s.lists (s.watch_list v))

pub scan_variables_lem :
    (s : Solver) (n : ℕ)
    → IsWellFormed s
    → n ≤ s.variables
    → IsChoice s (scan_variables s n) × ((v : ℕ) → v < n → AllBeaten s (scan_variables s n) v)
unfolding scan_variables
scan_variables_lem s zero wf h = (tt, λ v hv. absurd (omega arith))
scan_variables_lem s (suc n) wf h =
    let best : Option Lit = scan_variables s n in
    let ih : IsChoice s best × ((v : ℕ) → v < n → AllBeaten s best v) =
      scan_variables_lem s n wf (omega arith) in
    elim (Bool-cases (is_unassigned s n)) [
      | inr e ↦ rw e (
        ih.0,
        λ v hv u. elim (lt_or_eq v n hv) [
          | inl a ↦ ih.1 v a u
          | inr a ↦ absurd (ground (arith, e, u, a))
        ],
      )
      | inl e ↦
          let ws : List ℕ = s.lists (s.watch_list n) in
          let r : IsChoice s (scan_watchers s ws best)
              × Grows best (scan_watchers s ws best)
              × All (IsBeaten s (scan_watchers s ws best)) ws =
            scan_watchers_lem s ws best
              (All-map (IsListed s n)
                (λ w. (w < s.watcher_count) × (is_unassigned s (s.watched w).var ≡ true)) ws
                (λ w k. (k.0, subst (λ u. is_unassigned s u ≡ true) (sym k.1) e))
                (wf.listed n (omega arith)))
              ih.0 in
          rw e (
            r.0,
            λ v hv u. elim (lt_or_eq v n hv) [
              | inl a ↦
                  All-map (IsBeaten s best) (IsBeaten s (scan_watchers s ws best))
                    (s.lists (s.watch_list v)) (λ w k f. r.1 (s.watched w).variable_count (k f))
                    (ih.1 v a u)
              | inr a ↦
                  subst (λ i. All (IsBeaten s (scan_watchers s ws best)) (s.lists (s.watch_list i)))
                    (sym a) r.2
            ],
          )
    ]
