-- ===== src/Rcu/Enqueue.antt =====
-- fastsmr/rcuscan.c `rcu_enqueue` and `rcu_requeue`, fastsmr/smrscan.c `smr_enqueue`.
use atomic_ptr_plus.Base.{◌+◌, ◌≡◌, List, [], ◌∷◌, ◌++◌, arith, if◌then◌else◌}
use atomic_ptr_plus.Fifo.{Ptr}
use atomic_ptr_plus.Rcu.State.{DeferState, smr, pass2, RcuNode, World, is_pass1, is_nil, set_state}

-- `fifo_enqueue(&ready_queue, work)`
unfoldable pub put_ready : Ptr → World → World
put_ready work w = record w { ready_queue = w.ready_queue ++ work ∷ [] }

-- `fifo_enqueue(&(current_node->queue0), work)`
abbrev pub put_queue0 : Ptr → List RcuNode → List RcuNode
put_queue0 work [] = []
put_queue0 work (n ∷ rest) = record n { queue0 = n.queue0 ++ work ∷ [] } ∷ rest

-- The body of `rcu_enqueue`, with the call of `smr_enqueue` as a parameter.
unfoldable pub rcu_place : (Ptr → World → World) → Ptr → DeferState → World → World
unfolding put_ready
rcu_place to_smr work state w =
    let w = set_state work state w in
    if is_nil w.nodes
    then (if is_pass1 state then to_smr work w else put_ready work w)
    else record w { nodes = put_queue0 work w.nodes }

-- With no SMR node the work goes to `rcu_enqueue` at `pass2`, which does not come back here.
unfoldable pub smr_enqueue : Ptr → World → World
unfolding rcu_place
smr_enqueue work w =
    if is_nil w.smr_nodes
    then rcu_place (λ _ w. w) work pass2 w
    else record (set_state work smr w) {
      smr_queue = w.smr_queue ++ work ∷ [];
      smr_count = w.smr_count + 1;
    }

unfoldable pub rcu_enqueue : Ptr → DeferState → World → World
unfolding rcu_place
rcu_enqueue = rcu_place smr_enqueue

-- The body of the loop of `rcu_requeue`.
unfoldable pub requeue_one : Ptr → World → World
unfolding smr_enqueue put_ready
requeue_one work w = if is_pass1 (w.heap work).state then smr_enqueue work w else put_ready work w

-- `rcu_requeue` over the items that `fifo_dequeueall` took from the queue.
unfoldable pub rcu_requeue : List Ptr → World → World
unfolding requeue_one
rcu_requeue [] w = w
rcu_requeue (work ∷ queue) w = rcu_requeue queue (requeue_one work w)

-- The two functions call one another as in the source.
pub smr_enqueue_lem :
    (work : Ptr) (w : World)
    → smr_enqueue work w ≡ (
        if is_nil w.smr_nodes then rcu_enqueue work pass2 w else record (set_state work smr w) {
          smr_queue = w.smr_queue ++ work ∷ [];
          smr_count = w.smr_count + 1;
        })
unfolding rcu_enqueue smr_enqueue
smr_enqueue_lem work w = ground arith
