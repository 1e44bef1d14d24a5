-- ===== src/Cnf/Transform/Clauses.antt =====
-- Lists of clauses: their conjunction, their weight, and a change of the heap.
use supplementary.Base.{
  ℕ, ◌+◌, ◌<◌, ◌≤◌, ◌≡◌, refl, Bool, true, false, ◌&&◌, Option, none, some, List, [], ◌∷◌, ◌++◌,
  reverse, arith, All, All-map, All-append,
}
use mathlib.Core.List.{reverse-cons}
use supplementary.Cnf.Formula.{Reading}
use supplementary.Cnf.Clause.{Heap, Clause, clause_holds}
use supplementary.Cnf.Clause.Distinct.{IsClause, temporary_size}
use supplementary.Cnf.Transform.Keeps.{
  Keeps, clause_holds_keeps, IsClause-Keeps, temporary_size_keeps,
}
use supplementary.Cnf.Transform.Steps.{OptClause, weight, opt_weight}
use supplementary.Cnf.Transform.Steps.{IsClause-mono, OptUnfinished, pow2_mono, opt_holds}
use supplementary.Cnf.Transform.Loop.{Finished}
use supplementary.Cnf.Transform.{push}

module _ {D : Type 0} (m : Reading D) (h : Heap D) where
  unfoldable pub all_hold : List Clause → Bool
  all_hold [] = true
  all_hold (c ∷ cs) = clause_holds m h c && all_hold cs

  all_hold-append : (cs ds : List Clause) → all_hold (cs ++ ds) ≡ (all_hold cs && all_hold ds)
  unfolding all_hold
  all_hold-append [] ds = refl
  all_hold-append (c ∷ cs) ds = ground (arith, all_hold-append cs ds)

  pub all_hold-reverse : (cs : List Clause) → all_hold (reverse cs) ≡ all_hold cs
  unfolding all_hold
  all_hold-reverse [] = refl
  all_hold-reverse (c ∷ cs) =
      rw (reverse-cons c cs)
        (ground (arith, all_hold-append (reverse cs) (c ∷ []), all_hold-reverse cs))

  pub all_hold-push :
      (nc1 nc2 : Option Clause) (cs : List Clause)
      → all_hold (push nc2 (push nc1 cs))
        ≡ (all_hold cs && (opt_holds m h nc1 && opt_holds m h nc2))
  unfolding all_hold push opt_holds
  all_hold-push none none cs = ground arith
  all_hold-push (some c) none cs = ground (arith, all_hold-append cs (c ∷ []))
  all_hold-push none (some d) cs = ground (arith, all_hold-append cs (d ∷ []))
  all_hold-push (some c) (some d) cs =
      ground (arith, all_hold-append cs (c ∷ []), all_hold-append (cs ++ c ∷ []) (d ∷ []))

module _ {D : Type 0} (h : Heap D) where
  unfoldable pub total_weight : List Clause → ℕ
  total_weight [] = 0
  total_weight (c ∷ cs) = weight h c + total_weight cs

  total_weight-append :
      (cs ds : List Clause) → total_weight (cs ++ ds) ≡ total_weight cs + total_weight ds
  unfolding total_weight
  total_weight-append [] ds = omega arith
  total_weight-append (c ∷ cs) ds = omega (arith, total_weight-append cs ds)

  pub total_weight-push :
      (nc1 nc2 : Option Clause) (cs : List Clause)
      → total_weight (push nc2 (push nc1 cs))
        ≡ total_weight cs + (opt_weight h nc1 + opt_weight h nc2)
  unfolding total_weight push opt_weight
  total_weight-push none none cs = omega arith
  total_weight-push (some c) none cs = omega (arith, total_weight-append cs (c ∷ []))
  total_weight-push none (some d) cs = omega (arith, total_weight-append cs (d ∷ []))
  total_weight-push (some c) (some d) cs =
      omega (arith, total_weight-append cs (c ∷ []), total_weight-append (cs ++ c ∷ []) (d ∷ []))

  -- A clause that the loop has yet to look at, and one that it has passed.
  pub record IsPending (k : ℕ) (c : Clause) : Type 0 where
    pub known : IsClause h k c
    pub unfinished : c.is_finished ≡ false

  pub record IsPassed (k : ℕ) (c : Clause) : Type 0 where
    pub known : IsClause h k c
    pub flagged : c.is_finished ≡ true
    pub finished : Finished h c.literals

  push_one :
      (k : ℕ) (o : Option Clause) (cs : List Clause)
      → OptClause h k o
      → OptUnfinished o
      → All (IsPending k) cs
      → All (IsPending k) (push o cs)
  unfolding push
  push_one k none cs a u w = w
  push_one k (some c) cs a u w =
      All-append (IsPending k) cs (c ∷ []) w (record { known = a; unfinished = u }, tt)

  pub IsPending-push :
      (k : ℕ) (nc1 nc2 : Option Clause) (cs : List Clause)
      → OptClause h k nc1 × OptClause h k nc2
      → OptUnfinished nc1 × OptUnfinished nc2
      → All (IsPending k) cs
      → All (IsPending k) (push nc2 (push nc1 cs))
  IsPending-push k nc1 nc2 cs a u w =
      push_one k nc2 (push nc1 cs) a.1 u.1 (push_one k nc1 cs a.0 u.0 w)

module _ {D : Type 0} (m : Reading D) (k n : ℕ) (g h : Heap D) (keeps : Keeps m k g h)
    (le : k ≤ n) where
  known_keeps : (c : Clause) → IsClause g k c → IsClause h n c
  known_keeps c v = IsClause-mono h k n c le (IsClause-Keeps m k g h keeps c v)

  Finished-Keeps : (qs : List ℕ) → All (λ q. q < k) qs → Finished g qs → Finished h qs
  Finished-Keeps [] b f = tt
  Finished-Keeps (q ∷ qs) b f = (ground (arith, keeps q b.0, f.0), Finished-Keeps qs b.1 f.1)

  pub IsPending-Keeps : (cs : List Clause) → All (IsPending g k) cs → All (IsPending h n) cs
  IsPending-Keeps cs =
      All-map (IsPending g k) (IsPending h n) cs
        λ c p. record { known = known_keeps c p.known; unfinished = p.unfinished }

  pub IsPassed-Keeps : (cs : List Clause) → All (IsPassed g k) cs → All (IsPassed h n) cs
  IsPassed-Keeps cs = All-map (IsPassed g k) (IsPassed h n) cs λ c p. record {
    known = known_keeps c p.known;
    flagged = p.flagged;
    finished = Finished-Keeps c.literals p.known.bounded p.finished;
  }

  pub all_hold_keeps :
      (cs : List Clause) → All (IsClause g k) cs → all_hold m h cs ≡ all_hold m g cs
  unfolding all_hold
  all_hold_keeps [] v = refl
  all_hold_keeps (c ∷ cs) v =
      ground (arith, clause_holds_keeps m k g h keeps c v.0, all_hold_keeps cs v.1)

  pub total_weight_keeps :
      (cs : List Clause) → All (IsClause g k) cs → total_weight h cs ≤ total_weight g cs
  unfolding total_weight weight
  total_weight_keeps [] v = omega arith
  total_weight_keeps (c ∷ cs) v = omega (
    arith,
    pow2_mono (temporary_size h c.literals) (temporary_size g c.literals)
        (temporary_size_keeps m k g h keeps c.literals v.0.bounded),
    total_weight_keeps cs v.1,
  )
