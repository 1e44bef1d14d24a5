-- ===== src/Sat/Decide/Activity/Correct.antt =====
-- constraintsolver/src/Decider.cpp: what Decider::decideActivityBased decides, and where it decides none.
use supplementary.Base.{
  ℕ, zero, suc, ◌+◌, ◌%◌, ◌<◌, ◌≡◌, refl, sym, subst, ap, ◌∙◌, true, false, Option, none, some, inl,
  inr, ◌⊎◌, List, [], ◌∷◌, length, get_elem?, In, All-In, Bool-cases, Option-cases, arith, ◌≤◌, ◌-◌,
  lt_or_eq, lt_or_ge,
}
use native.Mathlib.Nat.{mod-eq_of_lt, add-mod_right}
use supplementary.Sat.Solver.{Lit, Solver, is_unassigned, lit_satisfied}
use supplementary.Sat.Invariant.{IsWellFormed, IsKnown}
use supplementary.Sat.Order.{IsTrail, IsGrounded}
use supplementary.Sat.Decide.{decide_found}
use supplementary.Sat.Decide.State.{
  decide_value, decide-IsWellFormed, decide-IsTrail, decide-IsGrounded,
}
use supplementary.Sat.Propagate.{propagate, finished, start_place}
use supplementary.Sat.Propagate.Outcomes.{Rests}
use supplementary.Sat.Propagate.Settle.{IsCalm}
use supplementary.Sat.Propagate.Settled.{IsSettledTo, IsSettled}
use supplementary.Sat.Propagate.Settled.Loops.{propagate-IsSettled}
use supplementary.Sat.Propagate.Correct.{propagate_correct}
use supplementary.Sat.Propagate.Walk.{Propagates}
use supplementary.Sat.Trail.{EndsIn, propagate-IsTrail}
use supplementary.Sat.Decide.Settled.{decide-IsSettledTo}
use supplementary.Sat.Decide.Activity.{
  has_two, pick, or_else, pick_at, scan_clauses, decide_activity_based,
}

abbrev pub IsWatcher : Solver → ℕ → ℕ → Type 0
IsWatcher s c w = (w < s.watcher_count) × (s.owner w ≡ c)

-- The clauses of the list with two literals or more are watched.
abbrev pub AreWatched : Solver → Type 0
AreWatched s =
    (c : ℕ)
    → In c s.clauses
    → has_two (s.literals c) ≡ true
    → IsWatcher s c (s.first c) × IsWatcher s c (s.second c)

-- A watcher of a clause that does not watch a false literal.
abbrev IsWatch : Solver → ℕ → ℕ → Type 0
IsWatch s c w = (w < s.watcher_count) × (s.owner w ≡ c) × Rests s w

-- The open clauses of the list are watched, and not by false literals.
abbrev WatchesRest : Solver → Type 0
WatchesRest s =
    (c : ℕ)
    → In c s.clauses
    → s.satisfied c ≡ false
    → has_two (s.literals c) ≡ true
    → IsWatch s c (s.first c) × IsWatch s c (s.second c)

calm-Rests : (s : Solver) (w : ℕ) → s.satisfied (s.owner w) ≡ false → IsCalm s w → Rests s w
calm-Rests s w h (inl e) = absurd (ground (arith, h, e))
calm-Rests s w h (inr k) = k

watcher-IsWatch :
    (s : Solver) (c w : ℕ) → s.satisfied c ≡ false → IsSettled s → IsWatcher s c w → IsWatch s c w
watcher-IsWatch s c w f h (a, e) = (a, e, calm-Rests s w (ap s.satisfied e ∙ f) (h w a))

settled-WatchesRest : (s : Solver) → IsSettled s → AreWatched s → WatchesRest s
settled-WatchesRest s h k c m f t =
    let (p, q) = k c m t in
    (watcher-IsWatch s c (s.first c) f h p, watcher-IsWatch s c (s.second c) f h q)

-- A literal that is watched for an open clause of the list, and its variable unassigned.
abbrev pub IsPick : Solver → Lit → Type 0
IsPick s l =
    (c : ℕ) × (w : ℕ) × In c s.clauses
    × (s.satisfied c ≡ false)
    × (w < s.watcher_count)
    × (s.owner w ≡ c)
    × (s.watched w ≡ l)
    × (is_unassigned s l.var ≡ true)

none-some_lit : (l : Lit) → none ≡ some l → ⊥
none-some_lit l e = cc

get-In : (xs : List ℕ) (i x : ℕ) → get_elem? xs i ≡ some x → In x xs
get-In [] i x h = cc
get-In (y ∷ ys) zero x h = inl (cc)
get-In (y ∷ ys) (suc i) x h = inr (get-In ys i x h)

watch-IsPick :
    (s : Solver) (c w : ℕ)
    → In c s.clauses
    → s.satisfied c ≡ false
    → IsWatch s c w
    → lit_satisfied s (s.watched w) ≡ false
    → IsPick s (s.watched w)
watch-IsPick s c w m f (a, b, r) u = (c, w, m, f, a, b, refl, ground (arith, r, u))

pick-IsPick :
    (s : Solver) (c : ℕ) (l : Lit) → WatchesRest s → In c s.clauses → pick s c ≡ some l → IsPick s l
unfolding pick
pick-IsPick s c l h m e = elim (Bool-cases (s.satisfied c)) [
  | inl f ↦ absurd (ground (arith, e, f))
  | inr f ↦ elim (Bool-cases (has_two (s.literals c))) [
    | inr t ↦ absurd (ground (arith, e, f, t))
    | inl t ↦
        let (p, q) = h c m f t in
        elim (Bool-cases (lit_satisfied s (s.watched (s.first c)))) [
          | inr u ↦
              subst (IsPick s) (ground (arith, e, f, t, u)) (watch-IsPick s c (s.first c) m f p u)
          | inl u ↦ elim (Bool-cases (lit_satisfied s (s.watched (s.second c)))) [
            | inr v ↦
                subst (IsPick s) (ground (arith, e, f, t, u, v))
                  (watch-IsPick s c (s.second c) m f q v)
            | inl v ↦ absurd (ground (arith, e, f, t, u, v))
          ]
        ]
  ]
]

-- A clause with nothing to decide: its flag is set, it has one literal at most, or both watched literals
-- are satisfied.
abbrev pub IsDone : Solver → ℕ → Type 0
IsDone s c =
    (s.satisfied c ≡ true)
    ⊎ (has_two (s.literals c) ≡ false)
    ⊎ (lit_satisfied s (s.watched (s.first c)) ≡ true)
      × (lit_satisfied s (s.watched (s.second c)) ≡ true)

pick-IsDone : (s : Solver) (c : ℕ) → pick s c ≡ none → IsDone s c
unfolding pick
pick-IsDone s c e = elim (Bool-cases (s.satisfied c)) [
  | inl f ↦ inl f
  | inr f ↦ elim (Bool-cases (has_two (s.literals c))) [
    | inr t ↦ inr (inl t)
    | inl t ↦ inr (
        inr (
          elim (Bool-cases (lit_satisfied s (s.watched (s.first c)))) [
            | inl u ↦ u
            | inr u ↦ absurd (ground (arith, e, f, t, u))
          ],
          elim (Bool-cases (lit_satisfied s (s.watched (s.second c)))) [
            | inl u ↦ u
            | inr u ↦ absurd (ground (arith, e, f, t, u))
          ],
        ))
  ]
]

pick_at-IsPick :
    (s : Solver) (i : ℕ) (l : Lit)
    → WatchesRest s
    → pick_at s (get_elem? s.clauses i) ≡ some l
    → IsPick s l
pick_at-IsPick s i l h e = elim (Option-cases (get_elem? s.clauses i)) [
  | inl n ↦ absurd (none-some_lit l (sym (ap (pick_at s) n) ∙ e))
  | inr (c, n) ↦ pick-IsPick s c l h (get-In s.clauses i c n) (sym (ap (pick_at s) n) ∙ e)
]

-- No round from `i` on finds a literal.
abbrev AllDone : Solver → ℕ → ℕ → ℕ → Type 0
AllDone s init k i =
    (j c : ℕ)
    → i ≤ j
    → j < i + k
    → get_elem? s.clauses ((j + init) % length s.clauses) ≡ some c
    → IsDone s c

abbrev IsScanned : Solver → ℕ → ℕ → ℕ → Option Lit → Type 0
IsScanned s init k i none = AllDone s init k i
IsScanned s init k i (some l) = IsPick s l

scanned :
    (s : Solver) (init k i : ℕ) (o r : Option Lit)
    → WatchesRest s
    → pick_at s (get_elem? s.clauses ((i + init) % length s.clauses)) ≡ o
    → IsScanned s init k (suc i) r
    → IsScanned s init (suc k) i (or_else o r)
scanned s init k i (some l) r h e d = pick_at-IsPick s ((i + init) % length s.clauses) l h e
scanned s init k i none (some l) h e d = d
scanned s init k i none none h e d = λ j c lo hi g. elim (lt_or_eq i j (omega (arith, lo))) [
  | inl lt ↦ d j c (omega arith) (omega arith) g
  | inr q ↦ pick-IsDone s c (
      sym (ap (pick_at s) g)
      ∙ subst (λ x. pick_at s (get_elem? s.clauses ((x + init) % length s.clauses)) ≡ none) q e)
]

scan_clauses_lem :
    (s : Solver) (init k i : ℕ) → WatchesRest s → IsScanned s init k i (scan_clauses s init k i)
unfolding scan_clauses
scan_clauses_lem s init zero i h = λ j c lo hi g. absurd (omega (arith, lo, hi))
scan_clauses_lem s init (suc k) i h =
    scanned s init k i (pick_at s (get_elem? s.clauses ((i + init) % length s.clauses)))
      (scan_clauses s init k (suc i)) h refl (scan_clauses_lem s init k (suc i) h)

-- The rounds reach each place of the list.
reach : (n init j : ℕ) → init ≤ n → j < n → (i : ℕ) × (i < n) × ((i + init) % n ≡ j)
reach n init j h k = elim (lt_or_ge j init) [
  | inl a ↦
      let i : ℕ = (j + n) - init in
      let e : i + init ≡ j + n = omega (arith, a, h) in
      (i, omega (arith, a, h, k), ap (λ x. x % n) e ∙ add-mod_right j n ∙ mod-eq_of_lt k)
  | inr a ↦
      let e : (j - init) + init ≡ j = omega (arith, a) in
      (j - init, omega (arith, k), ap (λ x. x % n) e ∙ mod-eq_of_lt k)
]

place_of : (xs : List ℕ) (x : ℕ) → In x xs → (j : ℕ) × (j < length xs) × (get_elem? xs j ≡ some x)
place_of [] x h = absurd h
place_of (y ∷ ys) x (inl e) = (0, omega arith, ap some (sym e))
place_of (y ∷ ys) x (inr m) = let (j, lt, e) = place_of ys x m in (suc j, omega (arith, lt), e)

all_done :
    (s : Solver) (init : ℕ)
    → init ≤ length s.clauses
    → AllDone s init (length s.clauses) 0
    → (c : ℕ) → In c s.clauses
    → IsDone s c
all_done s init b d c m =
    let (j, lt, e) = place_of s.clauses c m in
    let (i, hi, r) = reach (length s.clauses) init j b lt in
    d i c (omega arith) (omega (arith, hi)) (ap (λ x. get_elem? s.clauses x) r ∙ e)

-- A literal that is picked is decided at a new level.
pub record IsPicked (s : Solver) (v : ℕ) (s' : Solver) : Type 0 where
  pub well_formed : IsWellFormed s'
  pub on_trail : IsTrail s'
  pub grounded : IsGrounded s → IsGrounded s'
  pub settled_to : IsSettledTo (start_place s') s'
  pub picked : Lit
  pub is_pick : IsPick s picked
  pub variable : picked.var ≡ v
  pub value : s'.assignment v ≡ picked.sign

abbrev pub Picks : Solver → Solver × Option ℕ → Type 0
Picks s (s', none) = (s' ≡ s) × ((c : ℕ) → In c s.clauses → IsDone s c)
Picks s (s', some v) = IsPicked s v s'

Picks-by :
    (s : Solver) (init : ℕ) (o : Option Lit)
    → IsWellFormed s
    → IsTrail s
    → IsSettled s
    → init ≤ length s.clauses
    → IsScanned s init (length s.clauses) 0 o
    → Picks s (decide_found o s)
unfolding decide_found
Picks-by s init none wf t z b h = (refl, all_done s init b h)
Picks-by s init (some l) wf t z r h =
    let (c, w, m, f, a, b, e, u) = h in
    let k : IsKnown s.variables l = subst (IsKnown s.variables) e (
      All-In (IsKnown s.variables) (s.literals (s.owner w)) (s.watched w) (wf.known w a)
        (wf.watches w a)) in
    record {
      well_formed = decide-IsWellFormed s l wf k u;
      on_trail = decide-IsTrail s l wf k u t;
      grounded = decide-IsGrounded s l wf k u t;
      settled_to = decide-IsSettledTo s l wf z;
      picked = l;
      is_pick = h;
      variable = refl;
      value = decide_value s l;
    }

-- After a propagation that ended without a conflict, decideActivityBased, with a theory solver and from
-- any place of the list, decides a literal that is watched for an open clause of the list and whose
-- variable is unassigned; it decides none only where each clause of the list is flagged, has one
-- literal at most, or has both watched literals satisfied. The solver stays well-formed, the trail
-- in order and settled up to where the next propagation starts, and an implication graph one. The
-- clauses of the list with two literals or more are watched.
pub decide_activity_based_correct :
    (init : ℕ) (s t : Solver)
    → IsWellFormed s
    → IsTrail s
    → IsSettledTo (start_place s) s
    → propagate s ≡ finished t
    → AreWatched t
    → init ≤ length t.clauses
    → Picks t (decide_activity_based init t)
unfolding decide_activity_based
decide_activity_based_correct init s t wf tr h e k b =
    let p : Propagates s (finished t) = subst (Propagates s) e (propagate_correct s wf) in
    let x : IsTrail t = subst (EndsIn IsTrail) e (propagate-IsTrail s wf tr) in
    let z : IsSettled t = propagate-IsSettled s t wf h e in
    Picks-by t init (scan_clauses t init (length t.clauses) 0) p.0 x z b
      (scan_clauses_lem t init (length t.clauses) 0 (settled-WatchesRest t z k))
