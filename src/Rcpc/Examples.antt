-- ===== src/Rcpc/Examples.antt =====
-- A small proxy, and the results about it at concrete inputs.
use atomic_ptr_plus.Base.{ℕ, List, ◌≡◌, refl, none, some, arith, ◌∷◌, [], true, Option, update}
use atomic_ptr_plus.Rcpc.{
  RcpcNode, RcpcProxy, zero_node, no_stats, rcpc_new_proxy, rcpc_init_proxy,
  rcpc_drop_proxy_node_reference, latent_nodes, rcpc_get_proxy_node_reference, find_node,
  set_node_sequence, close_node, follow_node, count_node, delete_data,
}
use atomic_ptr_plus.Rcpc.Calls.{
  rcpc_add_node, rcpc_deferred_delete, wait_node, new_node, add_until, add_node, add_from,
}
use atomic_ptr_plus.Rcpc.Deferred.{Deleted, rcpc_deferred_delete-at_once}
use atomic_ptr_plus.Rcpc.Add.{Added, rcpc_add_node-Refs}

abbrev current : RcpcNode
current = record zero_node { prev_sequence = 1; count = 3 }

abbrev before : ℕ → RcpcNode
before node = record zero_node { next = node }

-- A new proxy with the current node at 1 and three latent ones.
abbrev started : RcpcProxy
started = record {
  heap =
      update (update (update (update (λ _. zero_node) 1 current) 2 (before 1)) 3 (before 2)) 4
        (before 3);
  sequence = 1;
  tail = 1;
  free_tail = 4;
  free_head = 4;
  max_latency = 3;
  latency = 1;
  max_nodes = 4294967295;
  num_nodes = 0;
  initialized = true;
  stats = no_stats;
  deleted = [];
  returned_nodes = [];
}

started-new : rcpc_init_proxy 1 (2 ∷ 3 ∷ 4 ∷ []) rcpc_new_proxy ≡ started
unfolding rcpc_init_proxy latent_nodes rcpc_new_proxy
started-new = refl

-- A thread holds a reference.
abbrev held_once : RcpcProxy
held_once = record started { sequence = 3 }

rcpc_add_node-Refs_example :
    (t : RcpcProxy) × (rcpc_add_node 2 5 held_once ≡ some (true, t)) × Added 1 5 2 held_once t
rcpc_add_node-Refs_example =
    rcpc_add_node-Refs 0 5 held_once 0 (omega arith) (λ e. absurd (omega arith))
      (λ e. absurd (omega arith)) refl (refl, refl, refl, refl, omega arith, refl)

-- The node at 5 follows, with a delete queued on it, and one reference to the node at 1 is left.
abbrev two_nodes : RcpcProxy
two_nodes = record held_once {
  heap =
      update (update started.heap 1 (record current { next = 5; sequence = 5; count = 2 })) 5
        (record zero_node { prev_sequence = 5; count = 5; free_data = 7; payload = 9 });
  sequence = 5;
  tail = 5;
  free_tail = 2;
}

-- With nothing outstanding, `rcpcDeferredDelete` deletes the data before it returns.
outcome : Option RcpcProxy → List (ℕ × ℕ) × ℕ
outcome none = ([], 0)
outcome (some s) = (s.deleted, s.free_tail)

rcpc_deferred_delete-now :
    outcome (rcpc_deferred_delete 1 3 (5 ∷ []) 7 9 started) ≡ ((7, 9) ∷ [], 3)
unfolding rcpc_deferred_delete wait_node rcpc_get_proxy_node_reference find_node new_node add_until
    add_node add_from set_node_sequence close_node follow_node count_node
    rcpc_drop_proxy_node_reference delete_data outcome
rcpc_deferred_delete-now = refl

rcpc_deferred_delete-at_once_example :
    (t : RcpcProxy) × (rcpc_deferred_delete 1 3 (5 ∷ []) 7 9 started ≡ some t)
    × Deleted 5 7 9 started t
rcpc_deferred_delete-at_once_example =
    rcpc_deferred_delete-at_once 0 1 5 [] 7 9 started refl refl (λ e. absurd (omega arith))
      (λ e. absurd (omega arith)) (λ e. absurd (omega arith)) (λ e. absurd (omega arith))
      (refl, refl, refl, refl, omega arith, refl)

-- `allocMem` fails once, and the next round goes on.
rcpc_deferred_delete-retry :
    outcome (rcpc_deferred_delete 1 3 (0 ∷ 5 ∷ []) 7 9 started) ≡ ((7, 9) ∷ [], 3)
unfolding rcpc_deferred_delete wait_node rcpc_get_proxy_node_reference find_node new_node add_until
    add_node add_from set_node_sequence close_node follow_node count_node
    rcpc_drop_proxy_node_reference delete_data outcome
rcpc_deferred_delete-retry = refl
