-- ===== src/Lib.antt =====
-- Colm: the finite state machines that scan the tokens of a grammar, the input that a parser
-- reads, and the maps and lists of programs that run.
--
-- A lexer definition of a colm program becomes a graph of states (src/fsmgraph.h). A state keeps
-- its transitions as a list of key ranges that ascend and do not overlap. The operations on
-- graphs (src/fsmgraph.cc, src/fsmmin.cc, src/fsmstate.cc, src/fsmap.cc) walk the lists of two
-- states side by side with one iterator, `PairIter`, which breaks ranges where they overlap in
-- part. Minimization compares states with it. The finished graph is copied into a reduced machine
-- (src/redfsm.h, src/redfsm.cc), which decides how the transitions are stored in the generated
-- code: single characters, ranges, a default, or a flat table.
--
-- At run time a parser reads an input (src/input.c), a queue of streams and of trees. A stream
-- (src/stream.c) keeps what it has fetched in buffers. What the parser consumed can be sent back, to
-- backtrack, so the input keeps consumed streams and trees in a stash; each operation on a stream
-- and on the input has one that undoes it.
--
-- Programs keep values in lists (src/list.c) and in maps (src/map.c), whose elements stand inside
-- of the structures of the program. A map is an AVL tree, ordered by the comparison of trees
-- (src/tree.c), and each of its elements stands in a linked list, too, with the same functions
-- for its pointers as a list has. The iterators (src/iter.c) step along that list. Elements of one
-- size, such as trees, are allocated from a pool (src/pool.c), which keeps what is given back.
--
-- The files:
--   Prelude, Prelude/*      library names passed on, Boolean tests, lists over native numbers
--   Key                     src/keyops.h: keys, `increment`, `decrement`, `span`
--   Ranges                  lists of key ranges and what a key finds in one
--   PairIter                src/fsmgraph.h: `NextTrans`, `PairIter` and the coroutine `findNext`
--   PairIter/Walk           the loop of its users as a list of segments
--   PairIter/Merge          the specification: a plain merge of two ascending lists
--   PairIter/Refines        the iterator computes the merge
--   PairIter/Cover          the merge shows on every key what the lists hold
--   PairIter/Partition      both together
--   PairIter/Loop           the loops that return early
--   Compare, Compare/Laws   src/aapl/compare.h: `CmpOrd`, `CmpTable`, `CmpSTable`
--   Fsm, Fsm/Order          src/fsmgraph.h: transitions, states, and comparisons of table elements
--   Fsm/Compare, Fsm/Equal  src/fsmap.cc, src/fsmstate.cc: comparisons of transitions and states
--   Fsm/Partition           `PartitionCompare` of src/fsmstate.cc
--   PairIter/Decide         what a loop decides that returns on the keys where two lists differ
--   Compress, Compress/*    `compressTransitions` (src/fsmmin.cc)
--   MarkIndex, MarkIndex/*  src/fsmstate.cc: `MarkIndex`, the pairs of states known to differ
--   Mark, Mark/Targets      src/fsmstate.cc: `shouldMarkPtr`, `MarkCompare`
--   Mark/Rounds             src/fsmmin.cc: `initialMarkRound`, `markRound` and the loop of
--                           `minimizeStable`
--   Mark/Walk, /Run, /Initial, /Fixpoint, /Minimize, /Words
--                           which pairs the rounds mark
--   Priors, Priors/*        src/fsmap.cc: `PriorTable`, `comparePrior`
--   Gaps, Gaps/*            `fillGaps` (src/fsmap.cc), `outListCovers` (src/fsmmin.cc) and
--                           `alphabetCovered` (src/redfsm.cc)
--   RedFsm, RedFsm/*        src/redfsm.cc: `canExtend`, `moveTransToSingle`, `moveToDefault`,
--                           `makeFlat`, `chooseDefaultSpan`, `chooseDefaultNumRanges`
--   Stream, Stream/*        src/stream.c: the position (Position), the buffers (Buffers), consuming,
--                           sending back and appending (Data), looking ahead (Read)
--   Stream/Restore          what `undo_position_data` restores
--   Stream/Consume, /Undo, /Append, /Walk, /Peek
--                           what each operation does to the text that a stream holds
--   Stream/Roundtrip        consuming, and sending back behind it
--   Input, Input/Seq        src/input.h: the functions of a stream as an interface, `seq_buf` and
--                           `input_impl_seq`
--   Input/Data, Input/Trees src/input.c: the operations on text, and those on trees and streams
--   Input/ConsumeLaws, /AppendLaws, /TreeLaws
--                           what the operations do to the text and the trees that an input holds
--   Input/PutBack, /Restore, /Roundtrip
--                           `input_undo_consume_data` behind `input_consume_data`
--   Input/DataStream        the streams of src/stream.c as the streams of an input
--   Links                   src/map.c, src/list.c: the pointers of a doubly linked list
--   Links/Chain, /Sequence  the sequence of elements that the pointers stand for
--   Links/Before, /After, /Detach
--                           what each operation on the pointers does to the sequence
--   Links/Iter              src/iter.c: the iterators over lists and maps
--   ColmList                src/list.c: lists of elements, and lists of values
--   ColmList/Ends, /Deque   the operations at the two ends, and lists as sequences of values
--   ColmMap                 src/map.c: the tree, the heights, the rotations
--   ColmMap/Insert, /Detach src/map.c: insertion, search and detachment
--   ColmMap/Balance, /Rotate, /Settle, /Grow
--                           heights and balance above a subtree that has grown
--   ColmMap/Turn, /Shrink   the same above a subtree that has lost a level
--   ColmMap/Order, /Attach, /Search, /TakeOut, /Find, /Keys, /Roundtrip, /Depth
--                           what the operations do to the elements of a map and to their order
--   TreeCompare, TreeCompare/Weak, /Order, /Same
--                           src/tree.c, src/string.c, src/map.c: the comparison of trees and keys
--   Pool, Pool/Use          src/pool.c: the pools of memory, and what is in use of them
--   Pool/Take, /Free        what the operations on a pool do
--   Examples/*              the functions on concrete data
--
-- Keys are `long` in the source and are kept as the number 2^63 above, so that they are natural
-- numbers in the same order; arithmetic on them wraps at 2^64. Pointers that are only compared are
-- kept as addresses, with 0 for null. A pointer into a list is the rest of the list. The lists of
-- `FsmTrans` are ascending by construction, which theorems take as the hypothesis `IsAscending`.
--
-- A stream is a record whose queue is the list of its buffers; bytes are numbers; `long` and `int`
-- members wrap. `get_data_source` of a file reads from outside, so the source is a parameter that
-- gives at most as many bytes as it is asked for. The input is modelled over any streams with the
-- functions of `struct stream_funcs`, and its theorems rely on `StreamLaws`, which the streams of
-- src/stream.c keep. Trees are addresses, and their reference counts are not modelled there.
--
-- The elements of lists and maps are addresses, and their members `next` and `prev` memories, so
-- that the linked lists are modelled pointer by pointer. The pointers `left`, `right` and `parent`
-- of the elements of a map are kept as a tree, and a pointer to an element is its place: the
-- subtree below it and the frames of the way up. A height is a number that does not wrap, while
-- `list_len` and `tree_size` do. `malloc` answers a parameter of the allocation from a pool, a
-- block that does not overlap the others. Memory that is written outside of its bounds, a null
-- pointer that is followed, an assertion that fails and, where the model counts in one, an `int` that
-- overflows are `none`. The number of pairs in a `MarkIndex` is such an `int`, so that its theorems
-- hold for up to 46340 states. What a stream holds is what it has fetched into its buffers; the rest
-- is in its source.
--
-- Loops that are not structural run on fuel and answer `none` without enough of it: the loop over
-- `PairIter` is given `walk_rounds`, four rounds for each range of the two lists and five more; the
-- loop of `moveTransToSingle` one round for each range and one more, since every round removes a
-- range or moves past one; that of `comparePrior` one round for each element of the two tables and
-- one more; that of `minimizeStable` one round for each pair of state numbers and one more, since
-- every round but the last marks a pair; the rounds of `data_get_data` that fetch one for each byte
-- that is wanted and one more, since each gets a byte; the loop of `map_detach` that rebalances one
-- for each element on the way up and one more, since the next one starts above the last; a loop
-- over an iterator one step for each element and one more, and so the walk along the free elements
-- of a pool. That this is enough is part of the theorems.
--
-- Not modelled: the construction of graphs with their in lists, the partition rounds of
-- minimization and the fusing of states, the grammar automaton, the rest of the parser run time,
-- the files and descriptors behind streams and the options of streams and inputs, the structures
-- around the elements of lists and maps with their allocation, the operations on maps of values,
-- the iterators over trees, the byte code, the compiler front end and the output of code. The aapl
-- containers, a source distribution of their own, appear as plain lists; of aapl only the table
-- comparisons are modelled. src/libfsm is the library of ragel and is not modelled.
pub mod Prelude
pub mod Key
pub mod Ranges
pub mod PairIter
pub mod Compare
pub mod Fsm
pub mod Gaps
pub mod RedFsm
pub mod Input
pub mod Stream
pub mod Priors
pub mod Mark
pub mod MarkIndex
pub mod Compress
pub mod Links
pub mod ColmList
pub mod ColmMap
pub mod TreeCompare
pub mod Pool
pub mod Examples
