-- ===== src/Sat/Propagate/Settled/Loops.antt =====
-- constraintsolver/src/CNSat.cpp, CNSat::propagate: what its loops leave settled.
use supplementary.Base.{
  ℕ, zero, suc, ◌+◌, ◌*◌, ◌<◌, ◌≤◌, ◌≡◌, ◌⊎◌, inl, inr, refl, sym, subst, ap, ◌∙◌, some, length,
  All-get, Option-cases, get_elem?, length-append, lt_or_eq, arith,
}
use supplementary.Sat.Solver.{Solver}
use supplementary.Sat.Invariant.{IsWellFormed}
use supplementary.Sat.Propagate.{
  Visit, next, again, conflicting, thrown, visit, Propagated, finished, conflict, failed,
  out_of_fuel, walk, sweep, propagate, start_place,
}
use supplementary.Sat.Propagate.After.{IsAfter}
use supplementary.Sat.Propagate.Outcomes.{IsKept, Visited}
use supplementary.Sat.Propagate.Settle.{IsCalm, IsGentle, Settles, visit-Settles}
use supplementary.Sat.Propagate.Settled.{
  IsAhead, IsSettledTo, IsSettled, get_none, get_at, IsCalm-kept, IsAhead-kept,
}
use supplementary.Sat.Propagate.Walk.{
  IsWalkable, kept-IsWalkable, visited, walk_end, walk-next, walk_again, walk_conflict,
  vector-IsWalkable, walk_all, Propagates, lt_of_get,
}
use supplementary.Sat.Propagate.Correct.{sweep_end, sweep_next, sweep_conflict, walk_of}

-- At the place `j` of the vector `r`, which is that of the variable at the place `i` of the trail.
abbrev IsWalked : ℕ → ℕ → ℕ → Solver → Type 0
IsWalked i r j s =
    (x : ℕ)
    → x < s.watcher_count
    → IsCalm s x ⊎ IsAhead (suc i) s x ⊎ ((k : ℕ) × (j ≤ k) × (get_elem? (s.lists r) k ≡ some x))

some_inj : (a b : ℕ) → some a ≡ some b → a ≡ b
some_inj a b e = cc

finished_inj : (s t : Solver) → finished s ≡ finished t → s ≡ t
finished_inj s t e = cc

no_conflict : {A : Type 0} → (c : ℕ) (s t : Solver) → conflict c s ≡ finished t → A
no_conflict c s t e = cc

never_finished : {A : Type 0} → (r j : ℕ) (s t : Solver) → walk zero r j s ≡ finished t → A
unfolding walk
never_finished r j s t e = cc

never_swept : {A : Type 0} → (i : ℕ) (s t : Solver) → sweep zero i s ≡ finished t → A
unfolding sweep
never_swept i s t e = cc

longer : (s t : Solver) → IsAfter s t → length s.decisions ≤ length t.decisions
longer s t a = omega (arith, ap length a.trail, length-append {0} s.decisions a.new)

module _ (i r j : ℕ) (s t : Solver) where
  keep-IsWalked :
      i < length s.decisions → IsKept r s t → IsGentle s t → IsWalked i r j s → IsWalked i r j t
  keep-IsWalked hi k g h x hx = elim (h x (subst (λ n. x < n) k.after.watcher_count hx)) [
    | inl c ↦ elim (IsCalm-kept s t k.after g x c) [
      | inl d ↦ inl d
      | inr (p, le, q) ↦ inr (inl (p, omega (arith, hi, le), q))
    ]
    | inr (inl c) ↦ elim (IsAhead-kept s t k.after g (suc i) x c) [
      | inl d ↦ inl d
      | inr d ↦ inr (inl d)
    ]
    | inr (inr (m, le, q)) ↦ inr (inr (m, le, ap (λ xs. get_elem? xs m) k.list ∙ q))
  ]

  pass-IsWalked :
      (w : ℕ)
      → get_elem? (t.lists r) j ≡ some w
      → IsCalm t w
      → IsWalked i r j t
      → IsWalked i r (suc j) t
  pass-IsWalked w e c h x hx = elim (h x hx) [
    | inl d ↦ inl d
    | inr (inl d) ↦ inr (inl d)
    | inr (inr (m, le, q)) ↦ elim (lt_or_eq j m (omega (arith, le))) [
      | inl lt ↦ inr (inr (m, omega (arith, lt), q))
      | inr p ↦
          inl (subst (IsCalm t) (some_inj w x (sym e ∙ ap (λ n. get_elem? (t.lists r) n) p ∙ q)) c)
    ]
  ]

walk_by :
    (f i r j w : ℕ) (s t : Solver)
    → i < length s.decisions
    → IsWalked i r j s
    → get_elem? (s.lists r) j ≡ some w
    → (x : Visit) → visit w s ≡ x
    → Visited r w s x
    → Settles w s x
    → ((u : Solver)
        → IsKept r s u
        → IsWalked i r (suc j) u
        → walk f r (suc j) u ≡ finished t
        → IsSettledTo (suc i) t)
    → ((u : Solver)
        → IsKept r s u
        → IsWalked i r j u
        → walk f r j u ≡ finished t
        → IsSettledTo (suc i) t)
    → walk (suc f) r j s ≡ finished t
    → IsSettledTo (suc i) t
walk_by f i r j w s t hi h e (next u) v k g on stay p =
    on u k
      (pass-IsWalked i r j s u w (ap (λ xs. get_elem? xs j) k.list ∙ e) g.1
        (keep-IsWalked i r j s u hi k g.0 h))
      (sym (walk-next f r j s w u e v) ∙ p)
walk_by f i r j w s t hi h e (again u) v k g on stay p =
    stay u k.0 (keep-IsWalked i r j s u hi k.0 g.0 h) (sym (walk_again f r j s w u e v) ∙ p)
walk_by f i r j w s t hi h e (conflicting c u) v k g on stay p =
    no_conflict c u t (sym (walk_conflict f r j s w c u e v) ∙ p)
walk_by f i r j w s t hi h e thrown v k g on stay p = absurd k

walk_settled :
    (f i r j : ℕ) (s t : Solver)
    → IsWalkable r s
    → i < length s.decisions
    → IsWalked i r j s
    → walk f r j s ≡ finished t
    → IsSettledTo (suc i) t
walk_settled zero i r j s t wk hi h p = never_finished r j s t p
walk_settled (suc f) i r j s t wk hi h p = elim (Option-cases (get_elem? (s.lists r) j)) [
  | inl n ↦ subst (IsSettledTo (suc i)) (finished_inj s t (sym (walk_end f r j s n) ∙ p)) (λ x hx.
      elim (h x hx) [
        | inl c ↦ inl c
        | inr (inl c) ↦ inr c
        | inr (inr (k, le, q)) ↦ absurd (ground (arith, q, get_none (s.lists r) j k n le))
      ])
  | inr (w, e) ↦
      let hw : w < s.watcher_count =
        All-get (λ x. x < s.watcher_count) (s.lists r) j w wk.listed e in
      walk_by f i r j w s t hi h e (visit w s) refl (visited r j w s wk e)
        (visit-Settles s w wk.well_formed hw)
        (λ u k m q.
          walk_settled f i r (suc j) u t (kept-IsWalkable r s u wk k)
            (omega (arith, hi, longer s u k.after)) m q)
        (λ u k m q.
          walk_settled f i r j u t (kept-IsWalkable r s u wk k)
            (omega (arith, hi, longer s u k.after)) m q)
        p
]

start-IsWalked :
    (i v : ℕ) (s : Solver)
    → IsWellFormed s
    → get_elem? s.decisions i ≡ some v
    → IsSettledTo i s
    → IsWalked i (s.watch_list v) 0 s
start-IsWalked i v s wf e h x hx = elim (h x hx) [
  | inl c ↦ inl c
  | inr (j, le, q) ↦ elim (lt_or_eq i j (omega (arith, le))) [
    | inl lt ↦ inr (inl (j, omega (arith, lt), q))
    | inr p ↦
        let same : (s.watched x).var ≡ v =
          some_inj (s.watched x).var v (sym q ∙ ap (get_elem? s.decisions) (sym p) ∙ e) in
        let (k, m) = get_at (s.lists (s.watch_list (s.watched x).var)) x (wf.placed x hx) in
        inr (
          inr (k, omega arith, subst (λ u. get_elem? (s.lists (s.watch_list u)) k ≡ some x) same m))
  ]
]

sweep_by :
    (f i v : ℕ) (s t : Solver)
    → get_elem? s.decisions i ≡ some v
    → (x : Propagated) → walk_of f i s v ≡ x
    → Propagates s x
    → ((u : Solver) → walk_of f i s v ≡ finished u → IsSettledTo (suc i) u)
    → ((u : Solver)
        → IsWellFormed u
        → IsSettledTo (suc i) u
        → sweep f (suc i) u ≡ finished t
        → IsSettled t)
    → sweep (suc f) i s ≡ finished t
    → IsSettled t
sweep_by f i v s t e (finished u) p k g on q = on u k.0 (g u p) (sym (sweep_next f i s v u e p) ∙ q)
sweep_by f i v s t e (conflict c u) p k g on q =
    no_conflict c u t (sym (sweep_conflict f i s v c u e p) ∙ q)
sweep_by f i v s t e failed p k g on q = absurd k
sweep_by f i v s t e out_of_fuel p k g on q = absurd k

sweep-IsSettled :
    (f i : ℕ) (s t : Solver)
    → IsWellFormed s
    → IsSettledTo i s
    → sweep f i s ≡ finished t
    → IsSettled t
sweep-IsSettled zero i s t wf h p = never_swept i s t p
sweep-IsSettled (suc f) i s t wf h p = elim (Option-cases (get_elem? s.decisions i)) [
  | inl n ↦ subst IsSettled (finished_inj s t (sym (sweep_end f i s n) ∙ p)) (λ x hx.
      elim (h x hx) [
        | inl c ↦ c
        | inr (j, le, q) ↦ absurd (ground (arith, q, get_none s.decisions i j n le))
      ])
  | inr (v, e) ↦
      let hv : v < s.variables = All-get (λ x. x < s.variables) s.decisions i v wf.decided e in
      sweep_by f i v s t e (walk_of f i s v) refl (walk_all v s hv wf)
        (λ u q.
          walk_settled (suc (2 * length (s.lists (s.watch_list v)))) i (s.watch_list v) 0 s u
            (vector-IsWalkable v s hv wf) (lt_of_get s.decisions i v e)
            (start-IsWalked i v s wf e h) q)
        (λ u wu hu q. sweep-IsSettled f (suc i) u t wu hu q) p
]

-- Where no open clause watches a false literal but of the variables on the trail from the place where
-- propagate() starts, and propagate() ends without a conflict, no open clause watches a false literal
-- any more.
pub propagate-IsSettled :
    (s t : Solver)
    → IsWellFormed s
    → IsSettledTo (start_place s) s
    → propagate s ≡ finished t
    → IsSettled t
unfolding propagate
propagate-IsSettled s t wf h p =
    sweep-IsSettled (suc (length s.decisions + s.variables)) (start_place s) s t wf h p
