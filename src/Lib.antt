-- ===== src/Lib.antt =====
-- The skipvector of disco-skip: an ordered index of layers of nodes, which a client of disaggregated
-- memory keeps as a cache of remote structure. A node holds a vector of entries and a sequence lock.
-- This development models these parts and proves them correct, each against a description that does
-- not mention its representation.
--
-- The parts and their files. Paths without a directory named first are below disco-skip/include/include-cache.
-- * SvLock models lock/sv_lock.h. A lock is its 64-bit word, and each method is the function of the same
--   name from the word found to the word left; `none` is a failed assertion. The busy-waits `acquire`
--   and `freeze` are given round by round (`acquire_round`, `freeze_round`), with a weak exchange that
--   may fail; SvLock.Acquire has the whole loop of `acquire`, against a list of the words that its
--   rounds find. SvLock.Words has the states of a word, SvLock.Protocol interleaves threads over one lock
--   and the data that it protects, SvLock.Invariant and SvLock.Safety say what that guarantees. A run is
--   bounded by the number of its steps, so that the counter does not pass 2^64; the bound is about
--   2^61 steps.
-- * SeqLock models lock/seq_lock.h, the lock without freezing and orphans, in the same way.
-- * HazardPointers models the two slots of a thread in hp/hp_thread_context.h, and HazardPointers.Queue
--   compares them with a queue. The zombies and their sweep are not modelled.
-- * Vector.Slots models the array of common/entry.h entries in vector/atomic_kv.h slots, with its moves
--   and `memcpy`. A key is a natural number and a value is only moved.
-- * Vector.Entries is the specification: lists of entries as finite maps.
-- * Vector.Sorted models vector/vector_sfra.h, method by method under its names; a method with a victim
--   returns the new state of both vectors. The loop of `find` takes the width of its range as fuel,
--   which suffices since each round shrinks the range. The children prove what the methods do:
--   Find, Place, Shift, Insert, Remove, Split, Steal, Halve, Verify, and Visit for `for_each` and
--   `range`, whose callback is a function that passes on a state of the caller.
-- * Vector.Unsorted models vector/vector_umfra.h, whose array holds the entries in any order but for the
--   least and the greatest key in slots 0 and 1; Transfer and Visit have its other methods, with
--   std::nth_element and std::sort as arguments, and Check has `verify`. Tracked has the invariant, and
--   Insert, Remove, Lookup, Verify and Merge the methods. Scan, Part, Divided, StealAll, StealSome and
--   StealPart are the loops and cases of `split_insert`, which SplitInsert joins; the last loop has the
--   victim's size as fuel, which is enough since each round passes or takes an element. Restore, Halving
--   and Shares are the steps of StealHalf and StealInsert; Halving states what is documented of
--   std::nth_element, and SortRange has a function that does it. Order has `sort` and `at`, and what is
--   documented of std::sort. An empty victim is left out of `steal_half_and_insert`: its size_t
--   arithmetic would wrap there, and it is meant for a victim that is full. Vector.Counts compares
--   entries in any order: for every test on entries, as many pass before as after.
--
-- * Skipvector models disco-skip/include/skipvector_disco.h with the sorted vector, the choice of
--   disco-skip/src/ds_cache.hpp. Skipvector.Nodes has the nodes: a node holds the word of an SvLock and a
--   Vector.Sorted vector, and a layer is the list of its nodes from the head on. Skipvector.Descent has
--   `check_next`, `follow`, the descents and `locate_data`, Skipvector.Mirror the updates. A loop that
--   starts over is given as one attempt, which can end in `retry`; an attempt passes on the new
--   structure. The child Layers says when a layer at rest is well formed and which map it stands for,
--   Walk and Locate prove the reads against that map, Stored the insertion into a node and Install that
--   into a structure, and Split the three branches of `mirror_split_at_level`. Gather and Heights have `gather_prevs` and `random_height`,
--   their models and their proofs.
--   Updates, Targets and Pointers say what an update of one node keeps of the pointers into its layer, and
--   Closed which structures are closed under down pointers. Boundaries lists the non-orphans of a layer,
--   and Boundaries.Replaced what an update does to that list; Nested says which structures are whole, as
--   verify_index checks: the entries of an index layer are the boundaries of the layer below. While a new
--   node has no parent yet, its entry is pending there. Steps is the update of one level; Building,
--   Insertion, Climbing and Repair compose the steps to `mirror_insert` and `mirror_reconcile`. The
--   bounds there are those of the call: no more levels than layers, and a remote address for each.
--   Reconcile models `mirror_reconcile`, `set_head_remote_addrs`, `for_each_node`, `node_count`
--   and `get_size`.
--
-- Not modelled: output, thread yielding, and memory orders. Atomic accesses are taken to be
-- sequentially consistent; the copies by `memcpy`, which the source fences by hand, happen under the
-- lock of the node. Of the skipvector, the merging of orphans and the reclamation of nodes are left
-- out, and the constants of the build that switch them off are taken as given (PROMOTE_INDEX_ORPHANS
-- is false). An attempt that another thread disturbs ends in `retry`; the theorems on the skipvector
-- are about structures at rest.
pub mod Prelude
pub mod Vector
pub mod SvLock
pub mod HazardPointers
pub mod SeqLock
pub mod Skipvector
