-- ===== src/Sat/Trail.antt =====
-- constraintsolver/src/CNSat.cpp: the list of decisions and its levels. Each assigned variable stands on
-- the list once, and the places of the levels ascend.
use supplementary.Sat.Solver.{Solver}
use supplementary.Sat.Invariant.{IsWellFormed}
use supplementary.Sat.Propagate.{propagate, finished, conflict, failed, out_of_fuel, Propagated}
use supplementary.Sat.Order.{IsTrail, IsGrounded}
use supplementary.Sat.Propagate.After.{after-IsTrail}
use supplementary.Sat.Propagate.Correct.{propagate_correct}
use supplementary.Sat.Propagate.Walk.{Propagates}

-- The state that propagate() leaves, where it ends.
abbrev pub EndsIn : (Solver → Type 0) → Propagated → Type 0
EndsIn P (finished s) = P s
EndsIn P (conflict c s) = P s
EndsIn P failed = ⊥
EndsIn P out_of_fuel = ⊥

after_propagate : (s : Solver) (x : Propagated) → IsTrail s → Propagates s x → EndsIn IsTrail x
after_propagate s (finished u) t h = after-IsTrail s u h.1 t
after_propagate s (conflict c u) t h = after-IsTrail s u h.1 t
after_propagate s failed t h = h
after_propagate s out_of_fuel t h = h

-- propagate() keeps the trail in order: each assigned variable stands on it once, nothing else does,
-- and the places of the levels ascend and do not pass its end.
pub propagate-IsTrail : (s : Solver) → IsWellFormed s → IsTrail s → EndsIn IsTrail (propagate s)
propagate-IsTrail s wf t = after_propagate s (propagate s) t (propagate_correct s wf)

IsGrounded-by :
    (s : Solver) (x : Propagated) → IsTrail s → IsGrounded s → Propagates s x → EndsIn IsGrounded x
IsGrounded-by s (finished u) t g h = h.1.grounded t g
IsGrounded-by s (conflict c u) t g h = h.1.grounded t g
IsGrounded-by s failed t g h = h
IsGrounded-by s out_of_fuel t g h = h

-- propagate() keeps the implication graph: where a variable on the trail has a reason, the literal of
-- the variable in that clause is satisfied, and each other literal of it is false by a variable that
-- stands before on the trail; an unassigned variable has no reason.
pub propagate-IsGrounded :
    (s : Solver) → IsWellFormed s → IsTrail s → IsGrounded s → EndsIn IsGrounded (propagate s)
propagate-IsGrounded s wf t g = IsGrounded-by s (propagate s) t g (propagate_correct s wf)
