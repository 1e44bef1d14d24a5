-- ===== src/Event/Trigger.antt =====
-- event_handling/include/ITrigger.h and src/EventTrigger.cpp: condition variables that
-- are notified together. A condition variable is its address, by which the map registeredCVs is
-- ordered.
pub mod Registry
use supplementary.Base.{
  ℕ, ◌≡◌, ◌==◌, Bool, true, false, ◌&&◌, ◌||◌, not, Option, none, some, List, [], ◌∷◌, map, length,
  ltb, if◌then◌else◌,
}

-- An entry of registeredCVs: the condition variable, and if notify was called.
pub record Entry : Type 0 where
  pub variable : ℕ
  pub called : Bool

-- registeredCVs[i] = b
unfoldable pub assign : ℕ → Bool → List Entry → List Entry
assign i b [] = record { variable = i; called = b } ∷ []
assign i b (e ∷ es) =
    let rest = assign i b es in
    if i == e.variable
    then record { variable = i; called = b } ∷ es
    else if ltb i e.variable
    then record { variable = i; called = b } ∷ e ∷ es
    else e ∷ rest

-- registeredCVs.find(i)
unfoldable pub find : ℕ → List Entry → Option Bool
find i [] = none
find i (e ∷ es) = if i == e.variable then some e.called else find i es

-- ITrigger::registerCV
unfoldable pub register_cv : ℕ → List Entry → List Entry
unfolding assign
register_cv i es = assign i false es

-- ITrigger::isNotifyCalled
unfoldable pub is_notify_called : ℕ → List Entry → Bool
unfolding find
is_notify_called i es = elim (find i es) [ none ↦ false | some b ↦ b ]

-- ITrigger::setNotifyCalled
unfoldable pub set_notify_called : Bool → ℕ → List Entry → List Entry
unfolding find assign
set_notify_called b i es = elim (find i es) [ none ↦ es | some c ↦ assign i b es ]

-- A call of notify_all or notify_one.
pub record Notification : Type 0 where
  pub variable : ℕ
  pub all : Bool

-- ITrigger::notifyAll, with the notifications that it makes.
unfoldable pub notify_all : Bool → List Entry → List Notification × List Entry
notify_all all [] = ([], [])
notify_all all (e ∷ es) =
    let (ns, rest) = notify_all all es in
    (record { variable = e.variable; all = all } ∷ ns, record e { called = true } ∷ rest)
