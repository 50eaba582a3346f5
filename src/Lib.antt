-- ===== src/Lib.antt =====
-- Sicada is a library of weighted finite-state transducers (FSTs), a port of OpenFst in Rust.
-- These modules model its core and prove what it promises.
--
-- The parts and how they meet:
-- - Prelude: the names that all modules share, the Boolean tests on numbers, lists indexed by the
--   native numbers, and chains of fallible steps.
-- - IntervalSet (sicada/src/data_structures/interval_set.rs): sets of integers as sorted lists of
--   half-open intervals, which the label reachability data is made of. One function per method
--   (`normalize`, `member`, `intersect`, `complement`, `difference`, `overlaps`,
--   `strictly_overlaps`, `contains`). Its children hold the proofs, one module per method; what a
--   set means is `covers` of IntervalSet.Members, and `IsNormalized` is the form that every method
--   but `normalize` asks for.
-- - Weight (sicada/src/weight.rs): the trait as a record that the others take as an instance.
-- - Arc and Symbols (sicada/src/arc.rs, sicada/src/symbol_table.rs): arcs over `usize` labels and
--   state ids, and what the compatibility of symbol tables reads.
-- - Properties (sicada/src/properties.rs): the 64 bits that an FST caches about itself, as a
--   function from flags to Bool, and the functions that say which bits survive a change.
-- - VectorFst (sicada/src/fsts/vector_fst.rs): the mutable FST. State holds one state and its
--   cached epsilon counts, Defs the methods of the FST, Delete the method `delete_states`, and Edit
--   the calls as data, so that theorems speak of any sequence of them; States says what each makes of
--   the states, and Counted and Epsilons what becomes of the counts. What a caller writes through
--   `arcs_mut` is an argument of it, and the mutator of `mutate_arcs` a function of the arc.
--
-- - Fst (sicada/src/fst.rs): the trait as a record, with what the algorithms rely on (`IsFst`);
--   VectorFst.AsFst fills it.
-- - Filters (sicada/src/algorithms/compose_filter.rs): Defs holds the filters, Paths the labels of
--   a path, Runs what it means that a filter accepts a sequence of moves, Sequence the
--   properties of `SequenceComposeFilter`, and Mirror and Alternate those of its mirror image.
-- - UnionFind (sicada/src/data_structures/union_find.rs): the disjoint sets. Forest says what the
--   parents mean (`Root`), Bound that no chain is longer than the table, which is the fuel that
--   `find_set` runs on, Compress and Attach what the two kinds of writes keep.
--
-- - Rational (sicada/src/algorithms/union.rs, closure.rs, concat.rs): Union holds the calls that `union` makes. Graph reads
--   an FST as its final weights and arcs, Runs says what it accepts, Copy and Positions follow the
--   copying loop, Shift, Language and Join the paths, and UnionCalls and UnionCorrect put the two
--   together. Exits is what closure and concatenation share, an epsilon arc out of each final state;
--   Sequel and Rounds say what such graphs accept, and Closure and Concat hold the calls and the
--   languages of the two operations.
-- - ArcMap (sicada/src/algorithms/arc_map.rs, invert.rs, project.rs): Defs holds `arc_map`, which rewrites the
--   arcs in place, with its three actions on final weights; Invert holds `invert` and
--   Project `project`, which run it. An error of the source carries the FST as the error left it.
--   Loop follows the rounds under a mapper that leaves the final weights alone, InvertGraph and
--   ProjectGraph say what the arcs become, and InvertLanguage and ProjectLanguage what the FST then
--   accepts.
-- - Matchers (sicada/src/matcher.rs): Sorted holds `SortedMatcher` and the loop over its matches,
--   Order what it asks of the arcs, Collect the loop, and Exact what a whole search finds.
-- - BiTable (sicada/src/data_structures/bi_table.rs, state_table.rs): numbers for entries. Spec is the
--   list of the entries, Contract what every table promises of it and what a client gets for that.
--   Hash, Compact, Vector and VectorHash hold one table each and fill the contract; Keys and Slots
--   are the two stores that they share. Erasable holds the table whose entries can be erased, with
--   its own promises in Find and Erase. Fingerprint holds the tuples of a composition and their
--   fingerprints, and StateTables the tables over them.
-- - CompactSet (sicada/src/data_structures/compact_set.rs): a sorted vector of keys with its bounds.
--   Keys says what the writes at the place of a binary search make of the vector, Members which keys
--   are then in it, Dense why a full interval needs no search, and Correct, Erase and Many what the
--   operations do to the set.
-- - BitSet (sicada/src/data_structures/bit_set.rs): the fixed and the growing set of numbers as words
--   of bits. Words follows the bits of one word, Growing those of the whole set, Change the writes of
--   one number, Update the words that two sets meet in, and Relations the operations on two sets.
--
-- Conventions. Numbers are the natural numbers: labels, state ids and counts are `usize` in the
-- source, and nothing here adds up to its bound but the fingerprints of BiTable and the slots that
-- they need, which write the wrap at 2 ^ 64 out, the size that a BitSet grows to, whose overflow is a
-- panic, and the span of CompactSet, which may be no word. The ranks of UnionFind wrap at 2 ^ 8.
-- Memory never runs out: a vector longer than any that the source could allocate, as twice an element
-- from 2 ^ 63 on in `make_set`, is as long as asked for. A word of BitSet is the list of
-- its 64 bits. The empty slots that the source marks with
-- the largest word are `none`. A panic is `none` of an Option. Loops over a vector by index are
-- recursion on the list; the two loops of `find_set` run on as much fuel as there are elements,
-- which is proved to be enough.
--
-- Not modelled: file formats and memory mapping, symbol table contents, the lazy FSTs and their
-- caches, floating-point weights, the decoder, and the benchmarks.
pub mod Prelude
pub mod IntervalSet
pub mod Properties
pub mod Weight
pub mod Arc
pub mod Symbols
pub mod VectorFst
pub mod Fst
pub mod Filters
pub mod UnionFind
pub mod Rational
pub mod ArcMap
pub mod Matchers
pub mod BiTable
pub mod CompactSet
pub mod BitSet
