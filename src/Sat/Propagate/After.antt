-- ===== src/Sat/Propagate/After.antt =====
-- constraintsolver/src/CNSat.cpp, CNSat::propagate: what a step of propagation keeps and what it adds.
use supplementary.Base.{
  ℕ, zero, suc, ◌+◌, ◌<◌, ◌≤◌, ◌≡◌, refl, sym, subst, ap, ◌∙◌, Bool, true, false, List, [], ◌++◌,
  length, inl, inr, All, In, All-In, In-append_left, In-append_right, Nodup, Nodup-append,
  All-append, All-map, Bool-cases, append_nil, length-append, update, if◌then◌else◌, arith,
}
use mathlib.Core.List.{append_assoc}
use supplementary.Cnf.Clause.{Assignment, unassigned, same_sign}
use supplementary.Sat.Solver.{Lit, Solver, is_unassigned}
use supplementary.Sat.Invariant.{Fit, Fits, Models, Holds}
use supplementary.Sat.Order.{IsAscending, IsTrail, IsGrounded, IsGrounded-same}

-- The unassigned variables below a number.
unfoldable pub open_count : (ℕ → Assignment) → ℕ → ℕ
unfolding same_sign
open_count a zero = 0
open_count a (suc n) = (if same_sign (a n) unassigned then 1 else 0) + open_count a n

pub record IsAfter (s s' : Solver) : Type 0 where
  pub variables : s'.variables ≡ s.variables
  pub literals : s'.literals ≡ s.literals
  pub owner : s'.owner ≡ s.owner
  pub watcher_count : s'.watcher_count ≡ s.watcher_count
  pub decision_level : s'.decision_level ≡ s.decision_level
  pub level : s'.level ≡ s.level
  pub level_count : s'.level_count ≡ s.level_count
  pub new : List ℕ
  pub trail : s'.decisions ≡ s.decisions ++ new
  pub new_open : All (λ v. is_unassigned s v ≡ true) new
  pub new_closed : All (λ v. is_unassigned s' v ≡ false) new
  pub new_all : (v : ℕ) → is_unassigned s v ≡ true → is_unassigned s' v ≡ false → In v new
  pub new_once : Nodup new
  pub kept : (v : ℕ) → is_unassigned s v ≡ false → s'.assignment v ≡ s.assignment v
  pub implied : (m : ℕ → Bool) → Models m s → Fits m s → Fits m s'
  pub grounded : IsTrail s → IsGrounded s → IsGrounded s'
  pub counted :
      length s'.decisions + open_count s'.assignment s.variables
      ≡ length s.decisions + open_count s.assignment s.variables

assigned_same :
    (s s' : Solver) (v : ℕ)
    → s'.assignment ≡ s.assignment
    → is_unassigned s v ≡ true
    → is_unassigned s' v ≡ false
    → ⊥
unfolding is_unassigned
assigned_same s s' v q h k =
    let e : s'.assignment v ≡ s.assignment v = ap (λ (a : ℕ → Assignment). a v) q in
    ground (arith, h, k, e)

-- A step that changes no assignment.
pub quiet :
    (s s' : Solver)
    → s'.variables ≡ s.variables
    → s'.literals ≡ s.literals
    → s'.owner ≡ s.owner
    → s'.watcher_count ≡ s.watcher_count
    → s'.decision_level ≡ s.decision_level
    → s'.level ≡ s.level
    → s'.level_count ≡ s.level_count
    → s'.decisions ≡ s.decisions
    → s'.assignment ≡ s.assignment
    → s'.reason ≡ s.reason
    → IsAfter s s'
quiet s s' e f g h k j o p q r = record {
  variables = e;
  literals = f;
  owner = g;
  watcher_count = h;
  decision_level = k;
  level = j;
  level_count = o;
  new = [];
  trail = p ∙ sym (append_nil s.decisions);
  new_open = tt;
  new_closed = tt;
  new_all = λ v h h'. absurd (assigned_same s s' v q h h');
  new_once = tt;
  kept = λ v u. ap (λ (a : ℕ → Assignment). a v) q;
  implied = λ m ms f v. subst (λ (a : ℕ → Assignment). Fit (a v) (m v)) (sym q) (f v);
  grounded = IsGrounded-same s s' f p q r;
  counted = rw (p, q);
}

pub Models-after : (s s' : Solver) (m : ℕ → Bool) → IsAfter s s' → Models m s → Models m s'
Models-after s s' m a h w hw =
    let e : s'.literals (s'.owner w) ≡ s.literals (s.owner w) =
      ap (λ (f : ℕ → List Lit). f (s'.owner w)) a.literals
      ∙ ap (λ (f : ℕ → ℕ). s.literals (f w)) a.owner in
    let x : (l : Lit) × In l (s.literals (s.owner w)) × Holds m l =
      h w (subst (λ (n : ℕ). w < n) a.watcher_count hw) in
    (x.0, subst (In x.0) (sym e) x.1, x.2)

pub still_assigned :
    (s s' : Solver) (v : ℕ) → IsAfter s s' → is_unassigned s v ≡ false → is_unassigned s' v ≡ false
unfolding is_unassigned
still_assigned s s' v a h = rw (a.kept v h) h

pub was_open :
    (s s' : Solver) (v : ℕ) → IsAfter s s' → is_unassigned s' v ≡ true → is_unassigned s v ≡ true
was_open s s' v a h = elim (Bool-cases (is_unassigned s v)) [
  | inl e ↦ e
  | inr e ↦ absurd (ground (arith, still_assigned s s' v a e))
]

pub closed_open : (s : Solver) (v : ℕ) → is_unassigned s v ≡ false → is_unassigned s v ≡ true → ⊥
closed_open s v h k = ground (arith, h, k)

-- A step of propagation keeps the trail in order.
pub after-IsTrail : (s s' : Solver) → IsAfter s s' → IsTrail s → IsTrail s'
after-IsTrail s s' a t =
    let len : length s.decisions ≤ length s'.decisions =
      omega (arith, ap length a.trail, length-append {0} s.decisions a.new) in
    record {
      assigned_on = λ v h. subst (In v) (sym a.trail) (elim (Bool-cases (is_unassigned s v)) [
        | inl e ↦ In-append_right v s.decisions a.new (a.new_all v e h)
        | inr e ↦ In-append_left v s.decisions a.new (t.assigned_on v e)
      ]);
      on_assigned = subst (All (λ v. is_unassigned s' v ≡ false)) (sym a.trail) (
          All-append (λ v. is_unassigned s' v ≡ false) s.decisions a.new
            (All-map (λ v. is_unassigned s v ≡ false) (λ v. is_unassigned s' v ≡ false) s.decisions
              (λ v h. still_assigned s s' v a h) t.on_assigned)
            a.new_closed);
      once = subst Nodup (sym a.trail) (
          Nodup-append s.decisions a.new t.once a.new_once (λ v i j. ground (
            arith,
            All-In (λ v. is_unassigned s v ≡ false) s.decisions v t.on_assigned i,
            All-In (λ v. is_unassigned s v ≡ true) a.new v a.new_open j,
          )));
      bounded =
          subst (λ ds. All (λ d. s'.level d ≤ length s'.decisions) ds) (sym a.decision_level)
            (subst (λ f. All (λ d. f d ≤ length s'.decisions) s.decision_level) (sym a.level)
              (All-map (λ d. s.level d ≤ length s.decisions) (λ d. s.level d ≤ length s'.decisions)
                s.decision_level (λ d h. omega (arith, len, h)) t.bounded));
      allocated =
          subst (All (λ d. d < s'.level_count)) (sym a.decision_level)
            (subst (λ n. All (λ d. d < n) s.decision_level) (sym a.level_count) t.allocated);
      ascending =
          subst (IsAscending s'.level) (sym a.decision_level)
            (subst (λ f. IsAscending f s.decision_level) (sym a.level) t.ascending);
    }

pub IsAfter_trans : (s t u : Solver) → IsAfter s t → IsAfter t u → IsAfter s u
IsAfter_trans s t u a b = record {
  variables = b.variables ∙ a.variables;
  literals = b.literals ∙ a.literals;
  owner = b.owner ∙ a.owner;
  watcher_count = b.watcher_count ∙ a.watcher_count;
  decision_level = b.decision_level ∙ a.decision_level;
  level = b.level ∙ a.level;
  level_count = b.level_count ∙ a.level_count;
  new = a.new ++ b.new;
  trail = b.trail ∙ ap (λ l. l ++ b.new) a.trail ∙ append_assoc s.decisions a.new b.new;
  new_open =
      All-append (λ v. is_unassigned s v ≡ true) a.new b.new a.new_open
        (All-map (λ v. is_unassigned t v ≡ true) (λ v. is_unassigned s v ≡ true) b.new
          (λ v h. was_open s t v a h) b.new_open);
  new_closed =
      All-append (λ v. is_unassigned u v ≡ false) a.new b.new
        (All-map (λ v. is_unassigned t v ≡ false) (λ v. is_unassigned u v ≡ false) a.new
          (λ v h. still_assigned t u v b h) a.new_closed)
        b.new_closed;
  new_all = λ v h k. elim (Bool-cases (is_unassigned t v)) [
    | inl e ↦ In-append_right v a.new b.new (b.new_all v e k)
    | inr e ↦ In-append_left v a.new b.new (a.new_all v h e)
  ];
  new_once = Nodup-append a.new b.new a.new_once b.new_once (λ v i j.
      closed_open t v (All-In (λ v. is_unassigned t v ≡ false) a.new v a.new_closed i)
        (All-In (λ v. is_unassigned t v ≡ true) b.new v b.new_open j));
  kept = λ v h. b.kept v (still_assigned s t v a h) ∙ a.kept v h;
  grounded = λ h g. b.grounded (after-IsTrail s t a h) (a.grounded h g);
  implied = λ m ms f. b.implied m (Models-after s t m a ms) (a.implied m ms f);
  counted =
      subst
        (λ (n : ℕ).
          length u.decisions + open_count u.assignment n
          ≡ length t.decisions + open_count t.assignment n)
        a.variables b.counted
      ∙ a.counted;
}

open_count-above :
    (a : ℕ → Assignment) (v : ℕ) (x : Assignment) (n : ℕ)
    → n ≤ v
    → open_count (update a v x) n ≡ open_count a n
unfolding open_count
open_count-above a v x zero h = refl
open_count-above a v x (suc n) h = ground (arith, open_count-above a v x n)

-- An unassigned variable that is assigned is one less.
pub open_count-update :
    (a : ℕ → Assignment) (v : ℕ) (x : Assignment) (n : ℕ)
    → v < n
    → same_sign (a v) unassigned ≡ true
    → same_sign x unassigned ≡ false
    → suc (open_count (update a v x) n) ≡ open_count a n
unfolding open_count
open_count-update a v x zero h p q = elim h [ ]
open_count-update a v x (suc n) h p q =
    ground (arith, open_count-above a v x n, open_count-update a v x n)
