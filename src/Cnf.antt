-- ===== src/Cnf.antt =====
-- constraintsolver/src/FormulaTransform.cpp with types/Clause and types/Lit: a constraint formula
-- becomes a list of clauses.
pub mod Formula
pub mod Clause
pub mod Transform
mod Tests
