-- ===== src/Stpc/Exhaust.antt =====
-- stpc/stpc.c `_newNode` and `stpcDeferredDelete` when `allocMem` fails.
use atomic_ptr_plus.Base.{
  ==_yes, ℕ, zero, suc, ◌+◌, ◌≤◌, ◌≡◌, refl, true, none, some, arith, ◌++◌, ◌∷◌, List, [],
}
use atomic_ptr_plus.Fifo.{Ptr, null}
use atomic_ptr_plus.Stpc.{StpcProxy}
use atomic_ptr_plus.Stpc.Calls.{new_node, stpc_deferred_delete}
use atomic_ptr_plus.Stpc.Nodes.{ltb_yes, ltb_no}

-- `k` answers NULL of `allocMem`
abbrev pub failures : ℕ → List Ptr
failures zero = []
failures (suc k) = null ∷ failures k

new_node-full :
    (fresh : Ptr) (s : StpcProxy)
    → s.free_head ≡ s.free_tail
    → s.max_nodes ≤ s.num_nodes
    → new_node fresh true s ≡ some (null, s)
unfolding new_node
new_node-full fresh s empty full =
    rw (==_yes s.free_head s.free_tail empty, ltb_no s.num_nodes s.max_nodes full) refl

new_node-fails :
    (s : StpcProxy)
    → s.free_head ≡ s.free_tail
    → suc s.num_nodes ≤ s.max_nodes
    → new_node null true s ≡ some (null, record s { num_nodes = s.num_nodes + 1 })
unfolding new_node
new_node-fails s empty room =
    rw (==_yes s.free_head s.free_tail empty, ltb_yes s.num_nodes s.max_nodes room) refl

deferred-full :
    (answers : List Ptr) (fuel attempts free_data payload : ℕ) (s : StpcProxy)
    → s.free_head ≡ s.free_tail
    → s.max_nodes ≤ s.num_nodes
    → stpc_deferred_delete answers fuel attempts free_data payload s ≡ none
unfolding stpc_deferred_delete
deferred-full [] fuel attempts free_data payload s empty full = refl
deferred-full (p ∷ answers) fuel attempts free_data payload s empty full =
    rw (new_node-full p s empty full, stpc_deferred_delete)
      (deferred-full answers fuel attempts free_data payload s empty full)

-- With no free node, once `allocMem` has failed as often as `numNodes` is below `maxNodes`, no later
-- round of the call queues the data, whatever `allocMem` answers, for any fuel and number of rounds.
pub stpc_deferred_delete-exhausted :
    (k : ℕ) (answers : List Ptr) (fuel attempts free_data payload : ℕ) (s : StpcProxy)
    → s.free_head ≡ s.free_tail
    → s.num_nodes + k ≡ s.max_nodes
    → stpc_deferred_delete (failures k ++ answers) fuel attempts free_data payload s ≡ none
unfolding stpc_deferred_delete
stpc_deferred_delete-exhausted zero answers fuel attempts free_data payload s empty gap =
    deferred-full answers fuel attempts free_data payload s empty (omega arith)
stpc_deferred_delete-exhausted (suc k) answers fuel attempts free_data payload s empty gap =
    rw (new_node-fails s empty (omega arith), stpc_deferred_delete)
      (stpc_deferred_delete-exhausted k answers fuel attempts free_data payload
        (record s { num_nodes = s.num_nodes + 1 }) empty (omega arith))
