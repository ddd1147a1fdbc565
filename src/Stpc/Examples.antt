-- ===== src/Stpc/Examples.antt =====
-- A small proxy, and the results about it at concrete inputs.
use atomic_ptr_plus.Base.{◌+◌, ◌≡◌, ◌<◌, ◌↔◌, refl, none, some, arith, ◌∷◌, [], length}
use atomic_ptr_plus.Fifo.{null}
use atomic_ptr_plus.Stpc.{
  StpcNode, StpcProxy, zero_node, no_stats, put_node, stpc_new_proxy,
  stpc_drop_proxy_node_reference,
}
use atomic_ptr_plus.Stpc.Calls.{
  stpc_deferred_delete, deferred_delete, stpc_try_delete_proxy_nodes, return_node, take_free,
}
use atomic_ptr_plus.Stpc.Reference.{Refs}
use atomic_ptr_plus.Stpc.Delete.{deferred_delete-at_once}
use atomic_ptr_plus.Stpc.Drop.{Waiting, stpc_drop_proxy_node_reference-frees}
use atomic_ptr_plus.Stpc.Nodes.{
  HasFree, HasOnly, to_delete, stpc_try_delete_proxy_nodes-faults,
  stpc_try_delete_proxy_nodes-counts,
}
use atomic_ptr_plus.Stpc.Exhaust.{stpc_deferred_delete-exhausted}

abbrev plain : StpcNode
plain = record zero_node { count = 3 }

-- A new proxy with the node at 1; a thread then holds a reference to it.
abbrev one_node : StpcProxy
one_node = record {
  heap = put_node 1 plain (λ _. zero_node);
  tail = 1;
  sequence = 0;
  free_tail = 1;
  free_head = 1;
  free_sequence = 0;
  max_nodes = 8;
  num_nodes = 1;
  local = none;
  stats = no_stats;
  deleted = [];
  returned_nodes = [];
}

abbrev held_once : StpcProxy
held_once = record one_node { sequence = 2 }

one_node-new : record one_node { max_nodes = 4294967295 } ≡ stpc_new_proxy 1
unfolding stpc_new_proxy
one_node-new = refl

deferred_delete-at_once_example :
    (t : StpcProxy) × (deferred_delete 2 1 70 9 2 one_node ≡ some t)
    × (t.deleted ≡ (70, 9) ∷ [])
    × (t.free_tail ≡ 2)
    × (t.tail ≡ 2)
    × Refs t 0
deferred_delete-at_once_example =
    deferred_delete-at_once 0 1 70 9 2 one_node (omega arith) (omega arith) (omega arith)
      (omega arith) (omega arith) refl (refl, refl, omega arith)

-- The node 1 has one reference left, 2 waits for it, and 3 is the tail.
abbrev waiting : StpcProxy
waiting = record one_node {
  heap =
      put_node 1 (record zero_node { next = 2; count = 2 })
        (put_node 2 (record { next = 3; count = 2; free_data = 70; payload = 9 })
          (put_node 3 (record { next = 0; count = 5; free_data = 70; payload = 8 })
            (λ _. zero_node)));
  tail = 3;
  num_nodes = 3;
}

stpc_drop_proxy_node_reference-frees_example :
    (t : StpcProxy) × (stpc_drop_proxy_node_reference 3 1 waiting ≡ some t)
    × (t.deleted ≡ (70, 9) ∷ (70, 8) ∷ [])
    × (t.free_tail ≡ 3)
unfolding Waiting
stpc_drop_proxy_node_reference-frees_example =
    stpc_drop_proxy_node_reference-frees (2 ∷ 3 ∷ []) 1 waiting
      (refl, refl, omega arith, (refl, refl, omega arith, (λ e. absurd (omega arith)))) refl refl

-- The nodes 1 and 2 are free.
abbrev two_free : StpcProxy
two_free = record waiting { free_tail = 3 }

stpc_try_delete_proxy_nodes-counts_example :
    (t : StpcProxy) × (stpc_try_delete_proxy_nodes 5 two_free ≡ some (2, t))
    × (t.num_nodes + 2 ≡ 3)
    × (length t.returned_nodes ≡ 0 + 2)
unfolding HasFree to_delete return_node take_free
stpc_try_delete_proxy_nodes-counts_example =
    stpc_try_delete_proxy_nodes-counts 5 two_free (omega arith)
      (omega arith, omega arith, (omega arith, omega arith, _))

-- One of the three nodes is free.
abbrev one_free : StpcProxy
one_free = record waiting { free_tail = 2 }

stpc_try_delete_proxy_nodes-faults_example :
    (stpc_try_delete_proxy_nodes 5 one_free ≡ none) ↔ (1 < to_delete 5 3)
unfolding HasOnly return_node take_free
stpc_try_delete_proxy_nodes-faults_example =
    stpc_try_delete_proxy_nodes-faults 5 1 one_free (omega arith) (omega arith, omega arith, refl)

-- Room for two nodes more; `allocMem` fails twice, and gives a node from then on.
abbrev scarce : StpcProxy
scarce = record one_node { max_nodes = 3 }

stpc_deferred_delete-exhausted_example :
    stpc_deferred_delete (null ∷ null ∷ 5 ∷ 6 ∷ []) 4 1 70 9 scarce ≡ none
stpc_deferred_delete-exhausted_example =
    stpc_deferred_delete-exhausted 2 (5 ∷ 6 ∷ []) 4 1 70 9 scarce refl refl
