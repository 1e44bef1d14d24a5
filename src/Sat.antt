-- ===== src/Sat.antt =====
-- constraintsolver's CNSat: a conflict-driven solver over clauses with two watched literals.
pub mod Solver
pub mod Invariant
pub mod Order
pub mod Propagate
pub mod Trail
pub mod Backtrack
pub mod Clauses
pub mod Decide
mod Tests
