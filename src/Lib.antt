-- ===== src/Lib.antt =====
-- A verification of the supplementary libraries: the normal form and the SAT solver of the constraint
-- solver, the differentiator that evaluates its terms, the events and triggers that threads wait for,
-- the processes that a robot runs, and the configuration files it reads.
--
-- The parts. autodiff has terms, and compiles a term to a tape that computes its value and its
-- gradient. constraintsolver turns a formula of such terms into clauses, which its SAT solver and its
-- local search work on. Its local search evaluates and differentiates terms by the tape.
-- event_handling, process_manager and system_config stand by themselves.
--
-- Cnf: constraintsolver/src/FormulaTransform.cpp with types/Lit.cpp and types/Clause.cpp.
--   Cnf/Formula has the classes of terms that FormulaTransform::performStep tells apart, each with its
--   m_id, and their truth value under a Reading of the constants and comparisons, which are parameters.
--   Cnf/Clause has Lit on a heap and Clause, with addChecked, add, clone and checkSatisfied;
--   Cnf/Clause/Laws and Cnf/Clause/Distinct are its lemmas.
--   Cnf/Transform has performStep, doTransform and transformToCNF with the map of atoms and
--   CNSat::newVar. doTransform runs on fuel: Cnf/Transform/Total gives a bound from the sizes of the
--   formulas in the clauses that is always enough. Below it, Keeps says how the heap changes, Invariant
--   what a state keeps, Steps, Split and Correct what a step of performStep does, Loop, Visit and Clauses
--   what a round of the loop does, Headline the whole, and Atoms and Variables which variables the literals
--   get.
--
-- Autodiff: autodiff/src/CompiledDifferentiator.cpp with autodiff/include/compiled.
--   Autodiff/Doubles is the arithmetic, a parameter. Autodiff/Term has the term classes.
--   Autodiff/Tape is the Compiler with its map of indices; Autodiff/Tape/Evaluate is evaluate with the
--   EvalVisitor, Autodiff/Tape/Sweep is differentiate with the ForwardSweepVisitor and reverseSweep.
--   Autodiff/Tape/Algebra has the two readings of the term classes that the theorems use: values for
--   evaluate, and in Sweep/Dual values with their changes, the rules of differentiation. Meaning reads
--   a term by recursion on the tree. Extends says what the compiler keeps, Represents and Compile that
--   each visit represents its term in any reading, Variables what the variables give, Make what the
--   constructor makes, Solve that evaluateTape gives a solution of the tape, Calls that a sequence of
--   calls keeps the tape, and Correct the whole of evaluate. Of the sweeps, Forward says what
--   forwardSweep sets, Tangent has the changes of all elements, Adjoint is about reverseSweep, and
--   Sweep/Correct is the whole of differentiate. Every loop there is structural.
--   The compiler leaves the steepness of a sigmoid at 0, and the weights of an Abs and an And do not
--   depend on the operands alone, which is why the theorems leave these classes out; the weights of an
--   Atan2 have the other sign.
--
-- Event: event_handling/src/AutoResetEvent.cpp and event_handling/include/ITrigger.h.
--   Event/AutoReset has the calls as steps of threads that hold and give up the mutex, with the
--   reachable states as a relation that counts calls, entries and exits; the counter of waiting
--   threads is the 32 bits of an int, which wrap around. Event/AutoReset/Invariant says what every reachable state has.
--   Event/Trigger has the registry of condition variables in the order of their addresses, and
--   notifyAll; Event/Trigger/Registry compares the registry with a map.
--
-- Process: process_manager/src/ManagedExecutable.cpp.
--   Process/Executable has update(), changeDesiredState and startProcess on the wanted and the managed
--   process, with the signals and forks as a list of actions. What the system says (the result of
--   fork, the time since the last start, what a command line matches) is an argument.
--   Process/Executable/Update is about the processes that are queued, and Process/Executable/Manual
--   about a process that was started by hand.
--
-- Sat: constraintsolver/src/CNSat.cpp with constraintsolver/src/types, and constraintsolver/src/Decider.cpp.
--   Sat/Solver has the objects: they are numbered, and each field of a class is a function of the number,
--   so that a vector of watchers is an object too, which a variable can exchange. Sat/Propagate has
--   propagate(), Sat/Backtrack both backTrack, Sat/Clauses the operations that add clauses, Sat/Decide
--   decideVariableCountBased, and Sat/Decide/Activity decideActivityBased with a theory solver, from a
--   place that is an argument; Sat/Decide/Range has decideRangeBased, with the sizes of the ranges and
--   their comparison as arguments. An exception of `at`, or of Var::setReason, is a value of the result.
--   Sat/Invariant says what a well-formed solver is, and Sat/Order what a trail in order and its implication
--   graph are; Sat/Trail has them for propagate().
--   The loop over a vector of watchers takes twice its length as fuel, since a watcher that moves is
--   looked at twice; the loop over the decisions takes their number and that of the variables. Below
--   Sat/Propagate, Move is about a watcher that moves, After about what a step keeps, Unit and Imply about
--   unit clauses, Outcomes and Visits about all branches, Walk about the inner loop, and Correct about both;
--   Settle, Settled and Settled/Loops are about the watchers that they leave settled, and Sat/Decide/Settled
--   about a round of propagate() and a decision.
--   Below Sat/Backtrack, Levels is about the list of levels and Restore about the clause flags.
--
-- Config: system_config/src/Configuration.cpp, system_config/include/Configuration.h and
--   system_config/include/ConfigNode.h.
--   Config/Words has the trimming and the searches, over texts as lists of characters, Config/Node the tree
--   with what is written of it, and Config/Load the loop of load() with currentNode and its ancestors as a
--   list of frames; a call on a currentNode of NULL is the outcome `crashed`. The loop over a line
--   takes its length as fuel. Config/Paths has the lookups: getParams, collect, get and the others, with the
--   conversion of values as an argument. Config/Write has set, where a pointer to a node is its place: the
--   indices of the children that lead to it from the root.
--   Below Config/Load, Ends is about the end of the loop, Texts about the parts of a line and Lines
--   about single lines; Config/RoundTrip, Config/Errors, Config/Paths/Bounds and Get and Config/Write/Correct have the theorems, the last over
--   Nodes, what a write of one node keeps, and Places, the places that collect finds.
--
-- Not modelled: rounding, where a theorem asks for exact arithmetic (the laws of a semiring, in
-- Sweep/Adjoint); console output; a Gp, which the compiler refuses by a throw, has no value; the other
-- components of the repository: the conflict analysis and the loop of the SAT solver, the searches,
-- interval propagation, setCreateIfNotExistent of a configuration, the loop of a Timer, the scan of
-- /proc, and what only calls ROS, Qt or the operating system.
pub mod Base
pub mod Cnf
pub mod Autodiff
pub mod Event
pub mod Process
pub mod Sat
pub mod Config
