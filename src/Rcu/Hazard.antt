-- ===== src/Rcu/Hazard.antt =====
-- fastsmr/smrscan.c: the hazard pointers of a thread. `smr_acquire`, `smr_alloc`, `smr_dealloc`,
-- `smr_check`, `smr_release`. The thread-specific key holds a node exactly for the threads whose node
-- is on `smr_node_queue`, so the node of a thread is looked up there.
pub mod Release
pub mod Pairs
use atomic_ptr_plus.Base.{
  ℕ, ◌+◌, ◌-◌, ◌*◌, ◌%◌, ◌^◌, List, [], ◌∷◌, Bool, false, not, Option, none, some, ◌==◌, ltb,
  if◌then◌else◌,
}
use atomic_ptr_plus.Fifo.{Ptr, null}
use atomic_ptr_plus.Rcu.State.{pass2, SmrNode, World, is_nil}
use atomic_ptr_plus.Rcu.Enqueue.{rcu_enqueue}
use atomic_ptr_plus.Rcu.Scan.{Answers, rcu_add_node, rcu_delete_node}

-- The result of a call: `abort()`, or a value.
pub data Outcome {ℓ} (A : Type ℓ) : Type ℓ where
  aborted : Outcome A
  returned : A → Outcome A

-- `pthread_getspecific(smr_key)` in thread `tid`
abbrev pub node_of : ℕ → List SmrNode → Option SmrNode
node_of tid [] = none
node_of tid (n ∷ ns) = if n.tid == tid then some n else node_of tid ns

-- The node of thread `tid` with `ndx` hazard pointers in use.
abbrev pub set_ndx : ℕ → ℕ → List SmrNode → List SmrNode
set_ndx tid ndx [] = []
set_ndx tid ndx (n ∷ ns) =
    if n.tid == tid then record n { ndx = ndx } ∷ ns else n ∷ set_ndx tid ndx ns

abbrev pub with_ndx : ℕ → ℕ → World → World
with_ndx tid ndx w = record w { smr_nodes = set_ndx tid ndx w.smr_nodes }

-- The two hazard pointers of a thread, named by their index in `hptr[2]`.
abbrev pub Slot : Type 0
Slot = ℕ

-- `smr_acquire`, once the thread has a node: the next pair of hazard pointers.
unfoldable pub acquire_slot : ℕ → World → Outcome (World × Option Slot)
acquire_slot tid w = elim (node_of tid w.smr_nodes) [
  | none ↦ aborted
  | some node ↦
      if ltb node.ndx node.hcount
      then returned (with_ndx tid ((node.ndx + 2) % 2 ^ 32) w, some node.ndx)
      else aborted
]

-- What the platform answers: do the two calls of `malloc` and `pthread_setspecific` succeed, and what
-- does `qcount_self` give.
pub record Platform : Type 0 where
  pub malloc_ok : Bool
  pub rcu_malloc_ok : Bool
  pub setspecific_ok : Bool
  pub qhandle : ℕ
  pub is_new : Bool

-- If `qcount_self` made a new handle the thread gets an RCU node; `rcu_add_node` aborts without memory.
unfoldable pub poll_thread : Platform → Answers → World → Outcome World
unfolding rcu_add_node
poll_thread on ask w =
    if on.is_new
    then (if on.rcu_malloc_ok then returned (rcu_add_node on.qhandle ask w) else aborted)
    else returned w

-- A new node goes to the front of `smr_node_queue`.
unfoldable pub push_node : ℕ → Platform → World → Outcome World
push_node tid on w =
    if on.setspecific_ok
    then returned (record w {
      smr_nodes =
          record {
            tid = tid;
            qhandle = on.qhandle;
            ndx = 0;
            hcount = 2;
            hptr0 = null;
            hptr1 = null;
          }
          ∷ w.smr_nodes;
    })
    else aborted

unfoldable pub register : ℕ → Platform → Answers → World → Outcome World
unfolding poll_thread push_node
register tid on ask w = elim (poll_thread on ask w) [
  | aborted ↦ aborted
  | returned w' ↦ push_node tid on w'
]

-- A pair of hazard pointers for the thread, which registers first if it has no node.
unfoldable pub smr_acquire : ℕ → Platform → Answers → World → Outcome (World × Option Slot)
unfolding acquire_slot register
smr_acquire tid on ask w = elim (node_of tid w.smr_nodes) [
  | some _ ↦ acquire_slot tid w
  | none ↦
      if on.malloc_ok
      then elim (register tid on ask w) [ aborted ↦ aborted | returned w' ↦ acquire_slot tid w' ]
      else returned (w, none)
]

unfoldable pub smr_alloc : ℕ → World → Outcome (World × Option Slot)
smr_alloc tid w = elim (node_of tid w.smr_nodes) [
  | none ↦ returned (w, none)
  | some node ↦
      if ltb node.ndx node.hcount
      then returned (with_ndx tid ((node.ndx + 2) % 2 ^ 32) w, some (2 * node.ndx % 2 ^ 32))
      else aborted
]

-- `smrnull`, a macro of a header that is not in the repository: what it makes of the two hazard
-- pointers of a node when it is given the address of one.
abbrev pub Smrnull : Type 0
Smrnull = Slot → Ptr × Ptr → Ptr × Ptr

abbrev pub null_slot : Smrnull → Slot → ℕ → List SmrNode → List SmrNode
null_slot smrnull slot tid [] = []
null_slot smrnull slot tid (n ∷ ns) =
    if n.tid == tid
    then (let after = smrnull slot (n.hptr0, n.hptr1) in
        record n { hptr0 = after.0; hptr1 = after.1 } ∷ ns)
    else n ∷ null_slot smrnull slot tid ns

-- The end of `smr_dealloc`: the pair that was taken last is given back.
unfoldable pub pop_slot : Slot → ℕ → Option SmrNode → World → Outcome World
pop_slot slot tid none w = returned w
pop_slot slot tid (some node) w =
    let ndx = (node.ndx + 2 ^ 32 - 2) % 2 ^ 32 in
    if node.ndx == 0
    then returned w
    else if slot == 2 * ndx % 2 ^ 32
    then returned (with_ndx tid ndx w)
    else aborted

-- The slot is one of the calling thread, or null.
unfoldable pub smr_dealloc : Smrnull → ℕ → Option Slot → World → Outcome World
unfolding pop_slot
smr_dealloc smrnull tid none w = returned w
smr_dealloc smrnull tid (some slot) w =
    pop_slot slot tid (node_of tid w.smr_nodes)
      (record w { smr_nodes = null_slot smrnull slot tid w.smr_nodes })

-- Does the calling thread hold hazard pointers? `smr_check` returns 1 if it does.
unfoldable pub smr_check : ℕ → World → Bool
smr_check tid w = elim (node_of tid w.smr_nodes) [ none ↦ false | some node ↦ not (node.ndx == 0) ]

-- The loop of `smr_release` over the work that waited for hazard pointers.
unfoldable pub release_work : List Ptr → World → World
unfolding rcu_enqueue
release_work [] w = w
release_work (work ∷ queue) w =
    let w' = rcu_enqueue work pass2 w in
    release_work queue (record w' { smr_count = w'.smr_count - 1 })

abbrev pub unlink_node : ℕ → List SmrNode → List SmrNode
unlink_node tid [] = []
unlink_node tid (n ∷ ns) = if n.tid == tid then ns else n ∷ unlink_node tid ns

-- `smr_release`, at the exit of thread `tid`: it aborts if the thread has no node.
unfoldable pub smr_release : ℕ → World → Outcome World
unfolding release_work rcu_delete_node
smr_release tid w = elim (node_of tid w.smr_nodes) [
  | none ↦ aborted
  | some node ↦
      let left = record w { smr_nodes = unlink_node tid w.smr_nodes } in
      let drained =
        if is_nil left.smr_nodes
        then release_work left.smr_queue (record left { smr_queue = [] })
        else left in
      returned (rcu_delete_node node.qhandle drained)
]
