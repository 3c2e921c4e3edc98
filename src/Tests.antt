-- ===== src/Tests.antt =====
-- Runs of the model at concrete inputs, and the theorems at inputs that meet their hypotheses.
mod Intervals
mod CircularDeque
mod Expr
mod Varint
mod Automaton
mod Algorithms
mod LinearSet
mod Regexesque
mod Pack
mod AutomatonBase
mod BoundedQueue
mod Codec
mod NCopies
mod Gadget
mod Predicates
mod TransformReduce
mod Parallel
