-- ===== src/Rcu/Linked.antt =====
-- fastsmr/rcuscan.c on the ring as it is linked in memory: each node has the fields `next` and
-- `prev`, and `current_node` points to one of them. Its children relate this to the lists of nodes
-- that the other modules of Rcu work on.
pub mod Calls
pub mod Chains
pub mod Relink
pub mod View
pub mod Rounds
pub mod Scan
pub mod Add
pub mod Find
pub mod Taken
pub mod Steps
pub mod Delete
pub mod Shutdown
mod Examples
use atomic_ptr_plus.Base.{
  ℕ, zero, suc, ◌+◌, List, [], ◌∷◌, ◌++◌, Bool, true, false, not, Option, none, some, ◌&&◌, ◌==◌,
  if◌then◌else◌,
}
use atomic_ptr_plus.Fifo.{Ptr, null, Links, write}
use atomic_ptr_plus.Rcu.State.{
  DeferState, smr, pass2, state_none, state_idle, RcuNode, World, is_pass1, is_nil, update,
  set_state,
}
use atomic_ptr_plus.Rcu.Enqueue.{put_ready}
use atomic_ptr_plus.Rcu.Scan.{Answer, Answers, quiesced, note_node, note_stats}
use atomic_ptr_plus.Rcu.Hazard.{Outcome, aborted, returned}

-- The fields of each node but `next` and `prev`, and the other globals. The field `nodes` of the
-- latter is not used.
pub record Store : Type 0 where
  pub node : Ptr → RcuNode
  pub globals : World

pub record Ring : Type 0 where
  pub next : Links
  pub prev : Links
  pub current_node : Ptr
  pub store : Store

abbrev pub set_node : Ptr → RcuNode → Store → Store
set_node p n s = record s { node = update s.node p n }

-- `fifo_enqueue(&(node->queue0), work)`
abbrev pub enqueue_at : Ptr → Ptr → Store → Store
enqueue_at p work s = set_node p (record (s.node p) { queue0 = (s.node p).queue0 ++ work ∷ [] }) s

-- The body of `rcu_enqueue`, with the call of `smr_enqueue` as a parameter.
unfoldable pub place_linked :
    (Ptr → Store → Store) → (current_node work : Ptr) → DeferState → Store → Store
unfolding put_ready
place_linked to_smr current_node work state s =
    let s = record s { globals = set_state work state s.globals } in
    if current_node == null
    then (if is_pass1 state then to_smr work s else record s { globals = put_ready work s.globals })
    else enqueue_at current_node work s

-- With no SMR node the work goes to `rcu_enqueue` at `pass2`, which does not come back here.
unfoldable pub smr_enqueue_linked : (current_node work : Ptr) → Store → Store
unfolding place_linked
smr_enqueue_linked current_node work s =
    if is_nil s.globals.smr_nodes
    then place_linked (λ _ s. s) current_node work pass2 s
    else record s {
      globals = record (set_state work smr s.globals) {
        smr_queue = s.globals.smr_queue ++ work ∷ [];
        smr_count = s.globals.smr_count + 1;
      };
    }

unfoldable pub enqueue_linked : (current_node work : Ptr) → DeferState → Store → Store
unfolding place_linked
enqueue_linked current_node = place_linked (smr_enqueue_linked current_node) current_node

-- The body of the loop of `rcu_requeue`.
unfoldable pub requeue_one_linked : (current_node work : Ptr) → Store → Store
unfolding smr_enqueue_linked put_ready
requeue_one_linked current_node work s =
    if is_pass1 (s.globals.heap work).state
    then smr_enqueue_linked current_node work s
    else record s { globals = put_ready work s.globals }

-- `rcu_requeue` over the items that `fifo_dequeueall` took from the queue.
unfoldable pub requeue_linked : (current_node : Ptr) → List Ptr → Store → Store
unfolding requeue_one_linked
requeue_linked current_node [] s = s
requeue_linked current_node (work ∷ queue) s =
    requeue_linked current_node queue (requeue_one_linked current_node work s)

-- `rcu_requeue(&(node->queue0))` and `rcu_requeue(&(node->queue1))`
unfoldable pub requeue_queue0 : (current_node p : Ptr) → Store → Store
unfolding requeue_linked
requeue_queue0 current_node p s =
    requeue_linked current_node (s.node p).queue0 (set_node p (record (s.node p) { queue0 = [] }) s)

unfoldable pub requeue_queue1 : (current_node p : Ptr) → Store → Store
unfolding requeue_linked
requeue_queue1 current_node p s =
    requeue_linked current_node (s.node p).queue1 (set_node p (record (s.node p) { queue1 = [] }) s)
