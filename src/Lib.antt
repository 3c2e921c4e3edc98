-- ===== src/Lib.antt =====
-- Motion planning gadget search: models of its core libraries and the theorems about them.
--
-- The program searches for gadgets of motion-planning games up to equivalence: a gadget is
-- an automaton, built from regular expressions, and sets of gadget numbers are interval lists
-- that the predicates keep in a database. This library models the containers and algebras that
-- the search stands on. Paths are from the repository's root.
--
-- Common: lists, options and Boolean tests over the native numbers, machine words with their
--   wrap-around written out (Common/Words), and integers over the native numbers (Common/Int).
-- Intervals models src/intervals.hpp at 64-bit unsigned ends: a vector of pairs is a list, and
--   `ret` is the list of what a loop pushes. Intervals/Sets has the meaning of a list of intervals
--   (`covers x l`, x is in one of them) and the well-formedness that the code relies on:
--   IsDisjoint (sorted, nonempty, not overlapping) and IsMaximal (not touching either, so that
--   a set has one list). Merge is interval_coalesce and interval_union, Sweep is
--   interval_overlap, interval_intersection and interval_difference, Points is
--   maximal_intervals, interval_inflate and interval_size, Search is interval_contains, Chunk is
--   interval_chunk, and Accumulator is the class interval_accumulator.
-- CircularDeque models src/circular_deque.hpp and src/circular_deque.tcc at a 32-bit size_type:
--   the storage is a list of slots with `none` where no element lives, and Inv says when a deque
--   represents a list. Sizes from the allocator (sizeof and nallocx) are a parameter.
-- Expr models src/expr.hpp and src/expr.cpp: the class hierarchy is a data type, Language gives
--   each expression the set of its words, and the simplifying factories are compared with it.
-- Varint models the namespace varint64 of src/varint.hpp on lists of bytes.
-- Automaton models the class Automaton of src/automaton.hpp and src/automaton.tcc: transitions by
--   state, each with a next state and a bitset of symbols (src/bitset.hpp, as the list of its
--   bits), step and stepDeterministic, addState, addTrans with a mask, addEpsilon and setAccept.
--   Rows is one state's edges, Build what the methods change, Deterministic and Flags the test
--   isStateDeterministic and the flag deterministic_.
-- LinearSet models src/linear_set.hpp (find, count, insert, insert_absent, and erase of a key) and
--   Algorithms merge_unique of src/algoutils.hpp, both at numbers.
-- Regexesque models src/automaton-regexesque-basic.hpp, and of src/automaton-regexesque.hpp any, cat,
--   alt, star, nCopies, nOrMore and plus, with Automaton::append of src/automaton.tcc, do_lit of
--   src/automaton.cpp and run of src/automatonbase.cpp. Nfa says which words an automaton accepts
--   from a state (a walk along its steps to an accepting state), Steps that the automata of the
--   model are such, Run compares run with it, and the other children the automata that the
--   operations build: Catenation and Cat, Alternation and Alt, Star and Closure, Atoms. The hash set
--   of run (tsl::hopscotch_set) is a parameter: a record of its operations and of what run relies on.
-- AutomatonBase models the queries of src/automatonbase.cpp (labels, outgoing, destinations,
--   for_each_transition, the sizes and activeAlphabet) over a record of the pure virtual functions of
--   src/automatonbase.hpp. Collect is the sets that loops collect, Queries and Counts what is
--   returned.
-- Pack models PackWriter and PackReader of src/pack-detail.hpp: the memory is a list of bytes, and a
--   pointer an offset. Memory is what writes leave, RoundTrip the variable-length integers. Codec
--   models pack and packed_size of src/pack.cpp, and Unpack models unpack, whose loop runs on fuel,
--   one for each state, and may not end (CutOff).
-- BoundedQueue models src/bounded_queue.hpp as a step relation: each section of a call that holds the
--   mutex is a step, the threads that wait and those woken are part of the state, and
--   boost::circular_buffer is a parameter, a record of its operations and documented laws.
-- NCopies models src/n_copies_iterator.hpp in a debug build, with a failed assertion as none.
-- Intervals/Stored models src/toggles/lmdb-interval-list.cpp: interval lists as the bytes of a value.
--   LMDB (the vendored lmdb++.h) is a parameter, a record of get and put with their laws.
-- Gadget models src/toggles/runner/gadget-encoding.cpp and src/toggles/gadget-encoding-stats.cpp: the
--   header, the codes of edges with their 32-bit wrap-around, encode from its two lists of edges on,
--   and decode_to_slls. Header, Codes and Compressed are the three layers of the round trip.
-- SelectById models src/toggles/select-by-id.cpp: the lookup of ids in the pages of the index, on fuel
--   (one round for each id and one more, since a page has the id that it was found for), and of their
--   hashes in the hash table. The two databases are parameters, the results of a cursor's get. Pages
--   is about the index, Rows about the hash table and what both must hold (Indexed).
-- Predicates models src/toggles/predicates.cpp. Update has the accumulators and the scan in batches
--   (on fuel, one round for each demanded id and one more; each batch is not empty), Database the
--   commit and the queries. Buckets, Correct and Batches are about the scan, Commit, Stuff, Result and
--   Validity about the commit, Demanded and Refresh about both, Parallel about the scan by threads,
--   Queries about the queries.
-- TransformReduce models src/transform_reduce.hpp: a state of the results, the pointers in the implicit
--   tree, the place of each thread and the index dispenser, and an interleaving as the list of the
--   threads that take a step. Tree is the value of the tree, Phases the invariant, which Publish,
--   Merge and Dispense keep, Result what is returned, Ends that the threads get there, and Any a
--   tree of Boolean answers.
-- Tests has the witnesses of the theorems at concrete inputs, and tests.
--
-- Loops are structural recursion where the code walks a container. interval_difference,
-- interval_inflate, interval_chunk and interval_contains run on fuel, since a round may leave both
-- lists as they are; their theorems say that the fuel given in the definition is enough: twice the
-- number of intervals and one for interval_difference, 2 ^ 64 + 1 rounds per interval for
-- interval_inflate, the length of an interval and two for interval_chunk, and the length of the
-- list for interval_contains, whose round halves it. linear_set's erase of a key calls itself, and
-- its fuel is the number of calls allowed.
--
-- Not modelled: the products of automata and their minimisation, the search for a gadget's edges in
-- its automaton and its canonical form, the drivers with their processes and messages, text and
-- file utilities, the example puzzles, and the vendored code. Exceptions are values of Option.
-- Allocation failure, element constructors that throw, and reference counts are not modelled.
pub mod Common
pub mod Algorithms
pub mod LinearSet
pub mod Intervals
pub mod CircularDeque
pub mod Varint
pub mod Automaton
pub mod Regexesque
pub mod Expr
pub mod AutomatonBase
pub mod Pack
pub mod BoundedQueue
pub mod NCopies
pub mod Gadget
pub mod SelectById
pub mod Predicates
pub mod TransformReduce
pub mod Tests
