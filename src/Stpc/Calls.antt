-- ===== src/Stpc/Calls.antt =====
-- stpc/stpc.c `_newNode`, `stpcDeferredDelete` and `stpcTryDeleteProxyNodes`.
use atomic_ptr_plus.Base.{
  add_word, ℕ, zero, suc, ◌+◌, ◌-◌, List, [], ◌∷◌, ◌++◌, Bool, true, false, Option, none, some, ltb,
  ◌==◌, if◌then◌else◌,
}
use atomic_ptr_plus.Fifo.{Ptr, null}
use atomic_ptr_plus.Stpc.{StpcProxy, put_node, zero_node, stpc_get_local_stats, queue_node}

-- `_newNode` takes the oldest free node.
unfoldable pub take_free : StpcProxy → StpcProxy
take_free s =
    let l = stpc_get_local_stats s in
    record s {
      free_head = (s.heap s.free_head).next;
      free_sequence = add_word s.free_sequence 1;
      heap = put_node s.free_head zero_node s.heap;
      local = some (record l { reuse = add_word l.reuse 1 });
    }

-- `_newNode`, with the answer of `allocMem` (which is asked only when no node is free). The result
-- is the node or NULL; none is the `memset` of NULL. A failed allocation leaves `numNodes` counted.
unfoldable pub new_node : Ptr → Bool → StpcProxy → Option (Ptr × StpcProxy)
new_node fresh alloc s =
    if s.free_head == s.free_tail
    then (if alloc
        then (if ltb s.num_nodes s.max_nodes
            then (if fresh == null
                then some (null, record s { num_nodes = s.num_nodes + 1 })
                else some (
                  fresh,
                  record s { num_nodes = s.num_nodes + 1; heap = put_node fresh zero_node s.heap },
                ))
            else some (null, s))
        else none)
    else some (s.free_head, take_free s)

-- `stpcDeferredDelete`, once `_newNode` has given a node.
unfoldable pub deferred_delete : ℕ → ℕ → Ptr → Ptr → Ptr → StpcProxy → Option StpcProxy
deferred_delete fuel attempts free_data payload node s = queue_node fuel attempts node (record s {
  heap = put_node node (record (s.heap node) { free_data = free_data; payload = payload }) s.heap;
})

-- The loop of `stpcDeferredDelete` on its `backoff`: `fresh` has the answers of `allocMem`, one for
-- each round, and none is the end of them or a fault.
unfoldable pub stpc_deferred_delete : List Ptr → ℕ → ℕ → Ptr → Ptr → StpcProxy → Option StpcProxy
stpc_deferred_delete [] fuel attempts free_data payload s = none
stpc_deferred_delete (p ∷ fresh) fuel attempts free_data payload s = elim (new_node p true s) [
  | none ↦ none
  | some (node, t) ↦
      let retry = stpc_deferred_delete fresh fuel attempts free_data payload t in
      if node == null then retry else deferred_delete fuel attempts free_data payload node t
]

-- The body of the loop of `stpcTryDeleteProxyNodes`, for a node that `_newNode` gave.
unfoldable pub return_node : Ptr → StpcProxy → StpcProxy
return_node node s = record s {
  returned_nodes = s.returned_nodes ++ node ∷ [];
  num_nodes = s.num_nodes - 1;
}

-- The loop, with the rounds left and the `n` counted so far.
unfoldable pub delete_nodes : ℕ → ℕ → StpcProxy → Option (ℕ × StpcProxy)
delete_nodes zero n s = some (n, s)
delete_nodes (suc left) n s =
    if ltb 1 s.num_nodes
    then elim (new_node null false s) [
      | none ↦ none
      | some (node, t) ↦
          let rest = delete_nodes left (n + 1) (return_node node t) in
          if node == null then some (n, t) else rest
    ]
    else some (n, s)

-- `stpcTryDeleteProxyNodes`
unfoldable pub stpc_try_delete_proxy_nodes : ℕ → StpcProxy → Option (ℕ × StpcProxy)
stpc_try_delete_proxy_nodes count s = delete_nodes count 0 s
