-- ===== src/Lib.antt =====
-- atomic-ptr-plus: lock-free code and deferred reclamation.
--
-- The program's parts. fastsmr/ defers work until no reader can see an object any more: an item
-- that a client hands to smr_defer waits on the ring of RCU nodes (rcuscan.c) for two quiescent
-- points of each node, then on smr_queue until no hazard pointer refers to its object (smrscan.c),
-- then on the ring for a second time, and goes to ready_queue, from which the polling thread
-- (fastsmr.c) calls its function. All queues are those of fifo.c. stpc/ is an independent scheme:
-- readers take references to the tail of a queue of nodes, counted beside the tail pointer, and
-- data queued on a node is deleted once every older node is released. rcpc/ is a variant of stpc/
-- in which the tail pointer and the sequence number are separate words, a node is told the numbers
-- between which it was the tail, and a released node is reused only after maxLatency others.
-- atomic-ptr/ is a C++ class of shared pointers with two counts for each object, one for the
-- shared pointers and one for the loads.
--
-- Which file models which part.
-- - Fifo: fastsmr/fifo.c over an explicit map of `next` fields, function by function. Fifo/Chain
--   says what a queue stands for, Fifo/Refines proves each operation.
-- - Rcu/State: the structures and globals of fastsmr. A queue is the list of its items, which Fifo
--   justifies; the ring of RCU nodes is the list that starts at current_node and follows `next`,
--   which Rcu/Linked justifies.
-- - Rcu/Enqueue: rcu_enqueue, smr_enqueue, rcu_requeue. Rcu/Scan: rcu_add_node, rcu_delete_node,
--   rcu_scan, rcu_shutdown2, rcu_incoming. Rcu/Hazard: smr_acquire, smr_alloc, smr_dealloc,
--   smr_check, smr_release. Rcu/SmrScan: smr_scan, smr_tracecb. Rcu/Poll: smr_defer, process_work
--   with the calls of the deferred functions, rcu_xxxx, rcu_poll, rcu_check, rcu_shutdown.
-- - Rcu/Linked: rcuscan.c once more, on the ring as its nodes are linked in memory, with the
--   writes to next and prev. Rcu/Linked/Chains and Relink: such rings; View: the list that a ring
--   stands for; Rounds and Scan, Add, Find, Steps, Taken and Delete, Shutdown: each operation and
--   that on the list.
-- - Rcu/Startup: rcu_startup, smr_startup, smr_shutdown, copyStats. Rcu/Clock: utime.h and the
--   minimum wait. Rcu/Hazard/Pairs and Release: the pair of a thread, and its exit.
-- - Rcu/Conserve: work is neither lost nor duplicated. Rcu/Grace: how long work stays on the ring.
--   Rcu/SmrScan/Safety: what a scan of hazard pointers keeps. Rcu/Waiting: an item whose object a
--   thread refers to, through the scans (Ring and Smr), and from smr_defer on in any order of
--   calls (Safety). Rcu/Poll/Accounts, Work and Stop: the account of deferred work, and the end of
--   the polling thread.
-- - Stpc: stpc/stpc.c and stpc/stpc.h, one function for each of the source's, and one for each
--   loop body; Stpc/Calls has _newNode and the calls that use it. Stpc/Reference: the count of the
--   tail. Stpc/Delete: stpcDeferredDelete. Stpc/Drop: the release of older nodes. Stpc/Nodes: the
--   number of nodes. Stpc/Exhaust: failed allocations. Stpc/Teardown: stpcDeleteProxy.
--   Stpc/Threads: the same calls again, interleaved at their accesses to shared memory; in its
--   children, Dues, Shape and Chain to Log are the invariant and that each step keeps it, Reached
--   puts them together, Safety and Progress are what follows, Matches and Alone compare the steps
--   with the calls, and Limit adds numNodes and maxNodes.
-- - Rcpc: rcpc/rcpc.c, with the statistics of rcpc/rcpc.h; Rcpc/Calls has _newNode, _addNode and
--   the calls that use them. Rcpc/Reference: the count of the tail. Rcpc/Settle: setNodeSequence.
--   Rcpc/Add: rcpcAddNode. Rcpc/Release: the last reference to a node. Rcpc/Deferred:
--   rcpcDeferredDelete. Rcpc/Teardown: rcpcDeleteProxy. Rcpc/Stats: _freeStats.
-- - AtomicPtr: atomic-ptr/atomic_ptr.h, one function for each constructor, destructor and swap.
--   AtomicPtr/Counts, Ledger and Moves: the account of a ref. AtomicPtr/Locals and Atomics: each
--   operation keeps it. AtomicPtr/Runs and Lifetime: the interleavings, and how long a ref lives.
--   AtomicPtr/Destroy: the two destructors. AtomicPtr/Cas, Assign, Recycle and Compare: cas, the
--   assignments, the use of a ref from a pool, and the comparisons.
--
-- Conventions. Pointers are numbers and null is 0. A C function that may call abort() returns an
-- Outcome. Unsigned fields keep their wrap-around (`% 2 ^ 32`), and a `long` of stpc or rcpc is
-- its 64-bit pattern; the statistics counters of fastsmr are unbounded. What the platform answers
-- (the clock, qcount_get, qcount_self, malloc, realloc), the macro smrnull, the functions of the
-- deferred items, their forrefs, and what other threads do while the mutex is released are
-- parameters. In Stpc/Threads memory is sequentially consistent, the number of freeHead does not
-- wrap between two accesses of one call, and fewer than 2 ^ 30 references are taken from one tail,
-- beyond which the adjustment does not fit its int. The count of nodes and its limit, which stays
-- as it is there, are added to the steps by Stpc/Threads/Limit.
--
-- Fuel. shutdown_rounds has one round for each node, which is enough. process_work has a number of
-- rounds, since other threads may keep adding work; one more than it takes until a round adds none
-- are enough. rcu_poll has a list of what its rounds meet, of any length. drop_loop and
-- rcpc_drop_proxy_node_reference have one round more than nodes are released, and free_nodes one
-- more than there are nodes. walk needs one more step than there are items. find_linked and
-- scan_rounds have a round for each node of the ring, and shutdown_linked one more.
--
-- Not modelled: in rcpc/, the interleaving of calls (a call is one step, so a compare-exchange
-- fails only as often as its count of attempts says); the getters of stpc/ and rcpc/; the atomic
-- primitives of stdatomic/, which are assembly and compiler builtins, thread creation, mutexes and
-- condition variables, and the stress programs under test/.
pub mod Base
pub mod Fifo
pub mod Rcu
pub mod Stpc
pub mod AtomicPtr
pub mod Rcpc
