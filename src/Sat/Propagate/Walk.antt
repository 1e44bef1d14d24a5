-- ===== src/Sat/Propagate/Walk.antt =====
-- constraintsolver/src/CNSat.cpp, CNSat::propagate: the loop over a vector of watchers.
use supplementary.Base.{
  ℕ, zero, suc, ◌+◌, ◌*◌, ◌<◌, ◌≤◌, ◌≡◌, refl, sym, subst, ap, ◌∙◌, none, some, List, [], ◌∷◌,
  length, inl, inr, All, All-get, All-map, Option-cases, get_elem?, arith,
}
use supplementary.Sat.Solver.{Solver}
use supplementary.Sat.Invariant.{IsWellFormed, IsListed}
use supplementary.Sat.Propagate.{
  Visit, next, again, conflicting, thrown, visit, Propagated, finished, conflict, failed,
  out_of_fuel, walk,
}
use supplementary.Sat.Propagate.After.{IsAfter, IsAfter_trans, quiet}
use supplementary.Sat.Propagate.Outcomes.{IsKept, IsConflict, Visited}
use supplementary.Sat.Propagate.Visits.{IsKept-trans, visit-Visited, visit-Rests}

-- The loops end with no exception, and with a false clause where they report a conflict.
abbrev pub Propagates : Solver → Propagated → Type 0
Propagates s (finished s') = IsWellFormed s' × IsAfter s s'
Propagates s (conflict c s') = IsWellFormed s' × IsAfter s s' × IsConflict s' c
Propagates s failed = ⊥
Propagates s out_of_fuel = ⊥

pub Propagates-from :
    (s t : Solver) → IsAfter s t → (x : Propagated) → Propagates t x → Propagates s x
Propagates-from s t a (finished u) h = (h.0, IsAfter_trans s t u a h.1)
Propagates-from s t a (conflict c u) h = (h.0, IsAfter_trans s t u a h.1, h.2)
Propagates-from s t a failed h = h
Propagates-from s t a out_of_fuel h = h

pub lt_of_get : (xs : List ℕ) (i x : ℕ) → get_elem? xs i ≡ some x → i < length xs
lt_of_get [] i x h = absurd (ground (arith, h))
lt_of_get (y ∷ ys) zero x h = omega arith
lt_of_get (y ∷ ys) (suc i) x h = omega (arith, lt_of_get ys i x h)

-- What the loop over the vector `r` relies on.
pub record IsWalkable (r : ℕ) (s : Solver) : Type 0 where
  pub well_formed : IsWellFormed s
  pub list_known : r < s.list_count
  pub listed : All (λ w. w < s.watcher_count) (s.lists r)

pub kept-IsWalkable : (r : ℕ) (s t : Solver) → IsWalkable r s → IsKept r s t → IsWalkable r t
kept-IsWalkable r s t h k = record {
  well_formed = k.well_formed;
  list_known = omega (arith, h.list_known, k.list_count);
  listed =
      subst (All (λ w. w < t.watcher_count)) (sym k.list)
        (subst (λ n. All (λ w. w < n) (s.lists r)) (sym k.after.watcher_count) h.listed);
}

pub visited :
    (r j w : ℕ) (s : Solver)
    → IsWalkable r s
    → get_elem? (s.lists r) j ≡ some w
    → Visited r w s (visit w s)
visited r j w s h e =
    visit-Visited r w s h.well_formed
      (All-get (λ w. w < s.watcher_count) (s.lists r) j w h.listed e) h.list_known
      (λ u hu p.
        let x : IsListed s u w =
          All-get (IsListed s u) (s.lists r) j w
            (subst (λ i. All (IsListed s u) (s.lists i)) p (h.well_formed.listed u hu)) e in
        x.1)

-- One round of each loop, by what it finds.
module _ (f r j : ℕ) (s : Solver) where
  pub walk_end : get_elem? (s.lists r) j ≡ none → walk (suc f) r j s ≡ finished s
  unfolding walk
  walk_end e = ground (arith, e)

  pub walk-next :
      (w : ℕ) (t : Solver)
      → get_elem? (s.lists r) j ≡ some w
      → visit w s ≡ next t
      → walk (suc f) r j s ≡ walk f r (suc j) t
  unfolding walk
  walk-next w t e v = ground (arith, e, v)

  pub walk_again :
      (w : ℕ) (t : Solver)
      → get_elem? (s.lists r) j ≡ some w
      → visit w s ≡ again t
      → walk (suc f) r j s ≡ walk f r j t
  unfolding walk
  walk_again w t e v = ground (arith, e, v)

  pub walk_conflict :
      (w c : ℕ) (t : Solver)
      → get_elem? (s.lists r) j ≡ some w
      → visit w s ≡ conflicting c t
      → walk (suc f) r j s ≡ conflict c t
  unfolding walk
  walk_conflict w c t e v = ground (arith, e, v)

-- Two rounds at least are left, so that a watcher that moved is passed by.
walk_case :
    (r f j w : ℕ) (s : Solver)
    → get_elem? (s.lists r) j ≡ some w
    → (x : Visit) → visit w s ≡ x
    → Visited r w s x
    → ((t : Solver) → IsKept r s t → Propagates t (walk (suc f) r (suc j) t))
    → ((t : Solver) → IsKept r s t → Propagates t (walk f r (suc j) t))
    → ((t : Solver) → IsKept r s t → get_elem? (t.lists r) j ≡ some w → Visited r w t (visit w t))
    → Propagates s (walk (suc (suc f)) r j s)
walk_case r f j w s e (next t) v k g h again_visited =
    subst (Propagates s) (sym (walk-next (suc f) r j s w t e v))
      (Propagates-from s t k.after (walk (suc f) r (suc j) t) (g t k))
walk_case r f j w s e (again t) v k g h again_visited =
    let (u, p) = visit-Rests t w k.1 in
    let q : get_elem? (t.lists r) j ≡ some w = ap (λ xs. get_elem? xs j) k.0.list ∙ e in
    let x : Visited r w t (next u) = subst (Visited r w t) p (again_visited t k.0 q) in
    subst (Propagates s) (sym (walk_again (suc f) r j s w t e v ∙ walk-next f r j t w u q p)) (
      Propagates-from s u (IsAfter_trans s t u k.0.after x.after) (walk f r (suc j) u)
        (h u (IsKept-trans r s t u k.0 x)))
walk_case r f j w s e (conflicting c t) v k g h again_visited =
    subst (Propagates s) (sym (walk_conflict (suc f) r j s w c t e v)) k
walk_case r f j w s e thrown v k g h again_visited = elim k [ ]

walk_lem :
    (r f j : ℕ) (s : Solver)
    → IsWalkable r s
    → j ≤ length (s.lists r)
    → suc (2 * length (s.lists r)) ≤ 2 * j + f
    → Propagates s (walk f r j s)
walk_lem r zero j s h b e = absurd (omega arith)
walk_lem r (suc zero) j s h b e = elim (Option-cases (get_elem? (s.lists r) j)) [
  | inl p ↦
      subst (Propagates s) (sym (walk_end 0 r j s p))
        (h.well_formed, quiet s s refl refl refl refl refl refl refl refl refl refl)
  | inr (w, p) ↦ absurd (omega (arith, lt_of_get (s.lists r) j w p))
]
walk_lem r (suc (suc f)) j s h b e = elim (Option-cases (get_elem? (s.lists r) j)) [
  | inl p ↦
      subst (Propagates s) (sym (walk_end (suc f) r j s p))
        (h.well_formed, quiet s s refl refl refl refl refl refl refl refl refl refl)
  | inr (w, p) ↦
      let lt : j < length (s.lists r) = lt_of_get (s.lists r) j w p in
      walk_case r f j w s p (visit w s) refl (visited r j w s h p)
        (λ t k.
          let n : length (t.lists r) ≡ length (s.lists r) = ap length k.list in
          walk_lem r (suc f) (suc j) t (kept-IsWalkable r s t h k) (omega arith) (omega arith))
        (λ t k.
          let n : length (t.lists r) ≡ length (s.lists r) = ap length k.list in
          walk_lem r f (suc j) t (kept-IsWalkable r s t h k) (omega arith) (omega arith))
        (λ t k q. visited r j w t (kept-IsWalkable r s t h k) q)
]

pub vector-IsWalkable :
    (v : ℕ) (s : Solver) → v < s.variables → IsWellFormed s → IsWalkable (s.watch_list v) s
vector-IsWalkable v s hv wf = record {
  well_formed = wf;
  list_known = wf.list_known v hv;
  listed =
      All-map (IsListed s v) (λ w. w < s.watcher_count) (s.lists (s.watch_list v)) (λ w h. h.0)
        (wf.listed v hv);
}

-- The loop over the vector of a variable.
pub walk_all :
    (v : ℕ) (s : Solver)
    → v < s.variables
    → IsWellFormed s
    → Propagates s (walk (suc (2 * length (s.lists (s.watch_list v)))) (s.watch_list v) 0 s)
walk_all v s hv wf =
    walk_lem (s.watch_list v) (suc (2 * length (s.lists (s.watch_list v)))) 0 s
      (vector-IsWalkable v s hv wf) (omega arith) (omega arith)
