-- ===== src/Rcu/Shutdown.antt =====
-- fastsmr/rcuscan.c `rcu_shutdown2`: the loop ends, with no node left.
use atomic_ptr_plus.Base.{
  ℕ, zero, suc, ◌≡◌, refl, ap, List, [], ◌∷◌, inl, inr, arith, Option-cases, length, ◌≢◌, none,
  some, ◌+◌, count, ==_refl,
}
use mathlib.Core.Path.{subst}
use atomic_ptr_plus.Fifo.{Ptr}
use atomic_ptr_plus.Rcu.State.{RcuNode, World}
use atomic_ptr_plus.Rcu.Conserve.{Test, count_nodes, queued}
use atomic_ptr_plus.Rcu.Conserve.Ring.{queued-rcu_shutdown2}
use atomic_ptr_plus.Rcu.Enqueue.{put_ready, rcu_place, smr_enqueue, requeue_one, rcu_requeue}
use atomic_ptr_plus.Rcu.Scan.{
  give_last, delete_from, rcu_delete_node, shutdown_rounds, rcu_shutdown2, handle_of,
  shutdown_rounds-some,
}

requeue_one-nodes_nil : (work : Ptr) (w : World) → w.nodes ≡ [] → (requeue_one work w).nodes ≡ []
unfolding requeue_one smr_enqueue rcu_place put_ready
requeue_one-nodes_nil work w e = ground arith

rcu_requeue-nodes_nil :
    (queue : List Ptr) (w : World) → w.nodes ≡ [] → (rcu_requeue queue w).nodes ≡ []
unfolding rcu_requeue
rcu_requeue-nodes_nil [] w e = e
rcu_requeue-nodes_nil (work ∷ queue) w e =
    rcu_requeue-nodes_nil queue (requeue_one work w) (requeue_one-nodes_nil work w e)

length-give_last :
    (node n : RcuNode) (ns : List RcuNode) → length (give_last node (n ∷ ns)) ≡ length (n ∷ ns)
length-give_last node n [] = refl
length-give_last node n (m ∷ ns) = ap suc (length-give_last node m ns)

module _ (first : RcuNode) where
  length-delete_from :
      (ns : List RcuNode) (w : World)
      → length (delete_from first.qhandle (first ∷ ns) w).nodes ≡ length ns
  unfolding delete_from
  length-delete_from [] w = rw (
    ==_refl first.qhandle,
    rcu_requeue-nodes_nil first.queue1 (rcu_requeue first.queue0 emptied)
        (rcu_requeue-nodes_nil first.queue0 emptied refl),
  )
    where
      emptied : World
      emptied = record w { nodes = [] }
  length-delete_from (n ∷ ns) w = rw (==_refl first.qhandle) (length-give_last first n ns)

-- Deleting the current node takes one node off the ring.
length-delete_current :
    (qhandle : ℕ) (nodes : List RcuNode) (w : World)
    → handle_of nodes ≡ some qhandle
    → suc (length (delete_from qhandle nodes w).nodes) ≡ length nodes
length-delete_current qhandle [] w at = cc
length-delete_current qhandle (first ∷ ns) w at =
    let same : first.qhandle ≡ qhandle = cc in
    subst (λ q. suc (length (delete_from q (first ∷ ns) w).nodes) ≡ suc (length ns)) same
      (ap suc (length-delete_from first ns w))

pub length-rcu_delete_node :
    (qhandle : ℕ) (w : World)
    → handle_of w.nodes ≡ some qhandle
    → suc (length (rcu_delete_node qhandle w).nodes) ≡ length w.nodes
unfolding rcu_delete_node
length-rcu_delete_node qhandle w at = length-delete_current qhandle w.nodes w at

shutdown_rounds-empties :
    (fuel : ℕ) (w : World) → length w.nodes ≡ fuel → length (shutdown_rounds fuel w).nodes ≡ 0
unfolding shutdown_rounds
shutdown_rounds-empties zero w e = e
shutdown_rounds-empties (suc fuel) w e = elim (Option-cases (handle_of w.nodes)) [
  | inl none_left ↦ absurd (has_handle w.nodes e none_left)
  | inr (qhandle, at) ↦ rw (shutdown_rounds-some fuel w qhandle at) (
      shutdown_rounds-empties fuel (rcu_delete_node qhandle w)
        (omega (arith, length-rcu_delete_node qhandle w at)))
]
  where
    has_handle : (ns : List RcuNode) → length ns ≡ suc fuel → handle_of ns ≢ none
    has_handle [] l = absurd (omega arith)
    has_handle (n ∷ ns) l = cc

count_nodes-none : (a : Test) (ns : List RcuNode) → length ns ≡ 0 → count_nodes a ns ≡ 0
count_nodes-none a [] e = refl
count_nodes-none a (n ∷ ns) e = absurd (omega arith)

-- The shutdown ends with no node left, and each item is then queued as often as before on the queue
-- for the scan of hazard pointers and the ready queue together.
pub rcu_shutdown2-empties :
    (a : Test) (w : World)
    → let w' = rcu_shutdown2 w in
      (length w'.nodes ≡ 0) × (count a w'.smr_queue + count a w'.ready_queue ≡ queued a w)
rcu_shutdown2-empties a w = (
  empties,
  omega (arith, queued-rcu_shutdown2 a w, count_nodes-none a (rcu_shutdown2 w).nodes empties),
)
  where
    empties : length (rcu_shutdown2 w).nodes ≡ 0
    empties = unfold rcu_shutdown2 in shutdown_rounds-empties (length w.nodes) w refl
