-- ===== src/Sat/Backtrack/Levels.antt =====
-- constraintsolver/src/CNSat.cpp, CNSat::backTrack: the levels that are kept and the place of the next.
use supplementary.Base.{
  ℕ, zero, suc, ◌+◌, ◌≤◌, ◌==◌, ◌≡◌, inl, inr, refl, sym, subst, ap, some, List, [], ◌∷◌, ◌++◌,
  length, In, All-In, All_of_In, Bool-cases, Option-cases, append_nil, arith,
}
use supplementary.Sat.Solver.{Solver, take, drop}
use supplementary.Sat.Order.{IsAscending}
use supplementary.Sat.Backtrack.{next_level, remove_range_of_decisions}

-- A list splits at each place up to its length.
pub take-drop :
    (n : ℕ) (xs : List ℕ)
    → n ≤ length xs
    → (ys : List ℕ) × (take n xs ≡ some ys) × (xs ≡ ys ++ drop n xs) × (length ys ≡ n)
unfolding take drop
take-drop zero xs h = ([], refl, refl, refl)
take-drop (suc n) [] h = absurd (omega arith)
take-drop (suc n) (x ∷ xs) h =
    let (ys, p, q, r) = take-drop n xs (omega arith) in
    (x ∷ ys, rw p, ap (λ l. x ∷ l) q, omega (arith, r))

drop_all : (n : ℕ) (xs : List ℕ) → length xs ≤ n → drop n xs ≡ []
unfolding drop
drop_all zero [] h = refl
drop_all zero (x ∷ xs) h = absurd (omega arith)
drop_all (suc n) [] h = refl
drop_all (suc n) (x ∷ xs) h = drop_all n xs (omega arith)

-- Of the levels up to `db` each is kept, and none starts after the next one.
abbrev pub IsNext : (ℕ → ℕ) → List ℕ → List ℕ → ℕ → Type 0
IsNext level levels keep d =
    ((e : ℕ) → In e keep → In e levels × (level e ≤ level d))
    × In d levels
    × IsAscending level keep
    × ((x : ℕ) × (xs : List ℕ) × (keep ≡ x ∷ xs))

pub next_level_lem :
    (level : ℕ → ℕ) (db : ℕ) (levels keep : List ℕ) (d : ℕ)
    → IsAscending level levels
    → next_level db levels ≡ some (keep, d)
    → IsNext level levels keep d
unfolding next_level
next_level_lem level db [] keep d a h = cc
next_level_lem level db (x ∷ []) keep d a h = cc
next_level_lem level db (x ∷ y ∷ ys) keep d a h = elim (Bool-cases (x == db)) [
  | inl e ↦
      let k : x ∷ [] ≡ keep = ground (arith, e, h) in
      let q : y ≡ d = ground (arith, e, h) in
      let le : level x ≤ level y = a.0.0 in
      (
        λ z m. elim (subst (In z) (sym k) m) [
          | inl p ↦
              (inl p, subst (λ w. level z ≤ level w) q (subst (λ w. level w ≤ level y) (sym p) le))
          | inr p ↦ absurd p
        ],
        inr (inl (sym q)),
        subst (IsAscending level) k (tt, tt),
        (x, [], sym k),
      )
  | inr e ↦ elim (Option-cases (next_level db (y ∷ ys))) [
    | inl n ↦ absurd (ground (arith, e, n, h))
    | inr ((ks, d'), n) ↦
        let k : x ∷ ks ≡ keep = ground (arith, e, n, h) in
        let q : d' ≡ d = ground (arith, e, n, h) in
        let r : IsNext level (y ∷ ys) ks d =
          next_level_lem level db (y ∷ ys) ks d a.1
            (subst (λ w. next_level db (y ∷ ys) ≡ some (ks, w)) q n) in
        (
          λ z m. elim (subst (In z) (sym k) m) [
            | inl p ↦ (
              inl p,
              subst (λ w. level w ≤ level d) (sym p)
                  (All-In (λ w. level x ≤ level w) (y ∷ ys) d a.0 r.1),
            )
            | inr p ↦ (inr (r.0 z p).0, (r.0 z p).1)
          ],
          inr r.1,
          subst (IsAscending level) k (
            All_of_In (λ w. level x ≤ level w) ks
                (λ w m. All-In (λ v. level x ≤ level v) (y ∷ ys) w a.0 (r.0 w m).0),
            r.2,
          ),
          (x, ks, sym k),
        )
  ]
]

pub remove_range-eq :
    (i c : ℕ) (s : Solver) (ys : List ℕ)
    → take i s.decisions ≡ some ys
    → length s.decisions ≤ i + c
    → remove_range_of_decisions i c s ≡ some (record s { decisions = ys })
unfolding remove_range_of_decisions
remove_range-eq i c s ys e h = ground (arith, e, drop_all (i + c) s.decisions h, append_nil ys)
