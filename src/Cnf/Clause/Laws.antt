-- ===== src/Cnf/Clause/Laws.antt =====
-- Clause::addChecked keeps the meaning of a clause.
use supplementary.Base.{
  ℕ, ◌≡◌, refl, sym, ap, ◌∙◌, ◌⊎◌, Bool, true, false, ◌||◌, Option, none, some, List, [], ◌∷◌, ◌++◌,
  arith,
}
use supplementary.Cnf.Formula.{Formula, get_id, Reading, eval, IsNamed}
use supplementary.Cnf.Clause.{
  assigned_true, assigned_false, unassigned, same_sign, Lit, Heap, Clause, add, has_temporary,
  find_atom, add_found, add_checked, lit_holds, any_lit, clause_holds,
}

-- A literal that is finished has a sign, and its atom is named.
pub record IsLit {D : Type 0} (m : Reading D) (value : ℕ → Bool) (next : ℕ) (l : Lit D)
    : Type 0 where
  pub named : IsNamed m value next l.atom
  pub signed : l.is_temporary ≡ false → (l.sign ≡ assigned_true) ⊎ (l.sign ≡ assigned_false)
  pub unsigned : l.is_temporary ≡ true → l.sign ≡ unassigned

-- The id of a named formula determines its value.
pub eval-value :
    {D : Type 0} (m : Reading D) (value : ℕ → Bool) (next : ℕ) (f : Formula D)
    → IsNamed m value next f
    → eval m f ≡ value (get_id f)
unfolding eval get_id
eval-value m value next f n = ground arith

any_lit-append :
    {D : Type 0} (m : Reading D) (h : Heap D) (qs ps : List ℕ)
    → any_lit m h (qs ++ ps) ≡ (any_lit m h qs || any_lit m h ps)
unfolding any_lit
any_lit-append m h [] ps = refl
any_lit-append m h (q ∷ qs) ps = ground (arith, any_lit-append m h qs ps)

module _ {D : Type 0} (m : Reading D) (value : ℕ → Bool) (next : ℕ) (h : Heap D)
    (lits : (r : ℕ) → IsLit m value next (h r)) where
  -- Literals whose atoms have one id agree on the atom.
  eval-get_id :
      (r q : ℕ) → get_id (h r).atom ≡ get_id (h q).atom → eval m (h r).atom ≡ eval m (h q).atom
  eval-get_id r q e =
      eval-value m value next (h r).atom (lits r).named
      ∙ ap value e
      ∙ sym (eval-value m value next (h q).atom (lits q).named)

  has_temporary_holds :
      (r : ℕ) (qs : List ℕ)
      → has_temporary h (get_id (h r).atom) qs ≡ true
      → eval m (h r).atom ≡ true
      → any_lit m h qs ≡ true
  unfolding has_temporary any_lit lit_holds
  has_temporary_holds r [] e k = cc
  has_temporary_holds r (q ∷ qs) e k = ground (arith, eval-get_id r q, has_temporary_holds r qs)

  find_atom-get_id :
      (i : ℕ) (qs : List ℕ) (q : ℕ) → find_atom h i qs ≡ some q → i ≡ get_id (h q).atom
  unfolding find_atom
  find_atom-get_id i [] q e = cc
  find_atom-get_id i (p ∷ qs) q e = ground (arith, find_atom-get_id i qs q)

  find_atom_holds :
      (i : ℕ) (qs : List ℕ) (q : ℕ)
      → find_atom h i qs ≡ some q
      → lit_holds m (h q) ≡ true
      → any_lit m h qs ≡ true
  unfolding find_atom any_lit
  find_atom_holds i [] q e k = cc
  find_atom_holds i (p ∷ qs) q e k = ground (arith, find_atom_holds i qs q)

  find_atom_finished :
      (i : ℕ) (qs : List ℕ) (q : ℕ)
      → has_temporary h i qs ≡ false
      → find_atom h i qs ≡ some q
      → (h q).is_temporary ≡ false
  unfolding find_atom has_temporary
  find_atom_finished i [] q n e = cc
  find_atom_finished i (p ∷ qs) q n e = ground (arith, find_atom_finished i qs q)

  clause_holds-add :
      (r : ℕ) (c : Clause) → clause_holds m h (add r c) ≡ (clause_holds m h c || lit_holds m (h r))
  unfolding clause_holds add any_lit
  clause_holds-add r c = ground (arith, any_lit-append m h c.literals (r ∷ []))

  -- Adding a temporary literal adds its formula to the disjunction.
  pub clause_holds-add_temporary :
      (r : ℕ) (c : Clause)
      → (h r).is_temporary ≡ true
      → clause_holds m h (add_checked h r c) ≡ (clause_holds m h c || eval m (h r).atom)
  unfolding add_checked clause_holds lit_holds
  clause_holds-add_temporary r c t =
      ground (arith, has_temporary_holds r c.literals, clause_holds-add r c)

  -- Two finished literals over one atom with opposite signs make a disjunction true.
  opposite_holds :
      (r q : ℕ)
      → (h r).is_temporary ≡ false
      → ((h r).sign ≡ assigned_true → (h q).is_temporary ≡ false)
      → get_id (h r).atom ≡ get_id (h q).atom
      → same_sign (h r).sign (h q).sign ≡ false
      → (lit_holds m (h q) || lit_holds m (h r)) ≡ true
  unfolding same_sign lit_holds
  opposite_holds r q t n e s =
      ground (arith, eval-get_id r q e, (lits r).signed t, (lits q).signed, (lits q).unsigned)

  same_holds :
      (r q : ℕ)
      → (h r).is_temporary ≡ false
      → get_id (h r).atom ≡ get_id (h q).atom
      → same_sign (h r).sign (h q).sign ≡ true
      → lit_holds m (h q) ≡ lit_holds m (h r)
  unfolding same_sign lit_holds
  same_holds r q t e s =
      ground (arith, eval-get_id r q e, (lits r).signed t, (lits q).signed, (lits q).unsigned)

  clause_holds-add_found :
      (r : ℕ) (c : Clause) (o : Option ℕ)
      → (h r).is_temporary ≡ false
      → ((h r).sign ≡ assigned_true → has_temporary h (get_id (h r).atom) c.literals ≡ false)
      → find_atom h (get_id (h r).atom) c.literals ≡ o
      → clause_holds m h (add_found h r c o) ≡ (clause_holds m h c || lit_holds m (h r))
  unfolding add_found clause_holds
  clause_holds-add_found r c none t n e = clause_holds-add r c
  clause_holds-add_found r c (some q) t n e = ground (
    arith,
    opposite_holds r q t,
    same_holds r q t,
    find_atom-get_id (get_id (h r).atom) c.literals q e,
    find_atom_holds (get_id (h r).atom) c.literals q e,
    find_atom_finished (get_id (h r).atom) c.literals q,
  )

  -- Adding a finished literal adds its truth value to the disjunction, provided that no temporary
  -- literal of the clause has the atom of a positive one.
  pub clause_holds-add_finished :
      (r : ℕ) (c : Clause)
      → (h r).is_temporary ≡ false
      → ((h r).sign ≡ assigned_true → has_temporary h (get_id (h r).atom) c.literals ≡ false)
      → clause_holds m h (add_checked h r c) ≡ (clause_holds m h c || lit_holds m (h r))
  unfolding add_checked
  clause_holds-add_finished r c t n =
      ground
        (arith, clause_holds-add_found r c (find_atom h (get_id (h r).atom) c.literals) t n refl)
