-- ===== src/Rcpc/Calls.antt =====
-- rcpc/rcpc.c: the calls that take and add nodes.
use atomic_ptr_plus.Base.{
  List, ℕ, zero, suc, ◌+◌, ◌-◌, [], ◌∷◌, ◌++◌, Bool, true, false, Option, none, some, ltb, leb,
  ◌==◌, if◌then◌else◌, add_word,
}
use atomic_ptr_plus.Fifo.{Ptr, null}
use atomic_ptr_plus.Rcpc.{
  reference, guard_bit, RcpcProxy, zero_node, put_node, set_node_sequence,
  rcpc_get_proxy_node_reference, rcpc_drop_proxy_node_reference,
}

-- `_newNode` takes the oldest free node.
unfoldable pub take_free : RcpcProxy → RcpcProxy
take_free s = record (put_node s.free_head zero_node s) {
  free_head = (s.heap s.free_head).next;
  stats = record s.stats { reuse = add_word s.stats.reuse 1 };
}

-- `_newNode`, with the answer of `allocMem`: the node or NULL; none is the `memset` of NULL.
unfoldable pub new_node : Ptr → Bool → RcpcProxy → Option (Ptr × RcpcProxy)
new_node fresh alloc s =
    if s.free_head == s.free_tail
    then (if alloc
        then (if ltb s.num_nodes s.max_nodes
            then (if fresh == null
                then some (null, record s { num_nodes = s.num_nodes + 1 })
                else some
                    (fresh, record (put_node fresh zero_node s) { num_nodes = s.num_nodes + 1 }))
            else some (null, s))
        else none)
    else some (s.free_head, take_free s)

-- `rcpcNewNode`: the proxy is held while a node is taken.
unfoldable pub rcpc_new_node : ℕ → Ptr → Bool → RcpcProxy → Option (Ptr × RcpcProxy)
rcpc_new_node fuel fresh alloc s = elim (rcpc_get_proxy_node_reference fuel s) [
  | none ↦ none
  | some (ref_node, latency, t) ↦ elim (new_node fresh alloc t) [
    | none ↦ none
    | some (node, u) ↦ elim (rcpc_drop_proxy_node_reference fuel ref_node u) [
      | none ↦ none
      | some v ↦ some (node, v)
    ]
  ]
]

-- The loop of `_addNode`: whether the node was added, the attempts, and the proxy.
unfoldable pub add_from : ℕ → Ptr → ℕ → ℕ → Ptr → RcpcProxy → Option (Bool × ℕ × RcpcProxy)
add_from zero tail_node latency attempts node s = none
add_from (suc fuel) tail_node latency attempts node s =
    let n = s.heap tail_node in
    let linked = put_node tail_node (record n { next = node }) s in
    let walk = λ (t : RcpcProxy). add_from fuel n.next (latency + 1) (attempts + 1) node t in
    if leb latency s.latency
    then (if n.next == null
        then elim (set_node_sequence fuel tail_node linked) [
          | none ↦ none
          | some t ↦ some (true, attempts + 1, t)
        ]
        else elim (set_node_sequence fuel tail_node s) [ none ↦ none | some t ↦ walk t ])
    else some (false, attempts, s)

-- `_addNode`
unfoldable pub add_node : ℕ → Ptr → ℕ → Ptr → RcpcProxy → Option (Bool × RcpcProxy)
add_node fuel ref_node latency node s =
    let fresh = record (s.heap node) {
      sequence = 0;
      count = guard_bit + (reference + reference);
    } in
    elim (add_from fuel ref_node latency 0 node (put_node node fresh s)) [
      | none ↦ none
      | some (added, attempts, t) ↦ some (
        added,
        record t {
          stats = record t.stats {
            tries = add_word t.stats.tries 1;
            successful = if added then add_word t.stats.successful 1 else t.stats.successful;
            attempts = add_word t.stats.attempts attempts;
          };
        },
      )
    ]

-- `rcpcAddNode`
unfoldable pub rcpc_add_node : ℕ → Ptr → RcpcProxy → Option (Bool × RcpcProxy)
rcpc_add_node fuel node s = elim (rcpc_get_proxy_node_reference fuel s) [
  | none ↦ none
  | some (ref_node, latency, t) ↦ elim (add_node fuel ref_node latency node t) [
    | none ↦ none
    | some (added, u) ↦ elim (rcpc_drop_proxy_node_reference fuel ref_node u) [
      | none ↦ none
      | some v ↦ some (added, v)
    ]
  ]
]

-- The second loop of `rcpcDeferredDelete`, with the reference held; `rounds` bounds its retries.
unfoldable pub add_until : ℕ → ℕ → Ptr → ℕ → Ptr → RcpcProxy → Option RcpcProxy
add_until zero fuel ref_node latency node s = none
add_until (suc rounds) fuel ref_node latency node s = elim (add_node fuel ref_node latency node s) [
  | none ↦ none
  | some (added, t) ↦ elim (rcpc_drop_proxy_node_reference fuel ref_node t) [
    | none ↦ none
    | some u ↦
        let retry = elim (rcpc_get_proxy_node_reference fuel u) as (λ _. Option RcpcProxy) [
          | none ↦ none
          | some (ref_node', latency', v) ↦ add_until rounds fuel ref_node' latency' node v
        ] in
        if added then some u else retry
  ]
]

-- The first loop of `rcpcDeferredDelete`, with the answers of `allocMem`: the reference, its latency,
-- the new node and the proxy; none also where the answers run out.
unfoldable pub wait_node : List Ptr → ℕ → RcpcProxy → Option (Ptr × ℕ × Ptr × RcpcProxy)
wait_node [] fuel s = none
wait_node (p ∷ answers) fuel s = elim (rcpc_get_proxy_node_reference fuel s) [
  | none ↦ none
  | some (ref_node, latency, t) ↦ elim (new_node p true t) [
    | none ↦ none
    | some (node, u) ↦
        let retry =
          elim (rcpc_drop_proxy_node_reference fuel ref_node u)
            as (λ _. Option (Ptr × ℕ × Ptr × RcpcProxy)) [
              | none ↦ none
              | some v ↦ wait_node answers fuel v
            ] in
        if node == null then retry else some (ref_node, latency, node, u)
  ]
]

-- `rcpcDeferredDelete`
unfoldable pub rcpc_deferred_delete : ℕ → ℕ → List Ptr → Ptr → Ptr → RcpcProxy → Option RcpcProxy
rcpc_deferred_delete rounds fuel answers free_data payload s = elim (wait_node answers fuel s) [
  | none ↦ none
  | some (ref_node, latency, node, t) ↦
      let filled =
        put_node node (record (t.heap node) { free_data = free_data; payload = payload }) t in
      add_until rounds fuel ref_node latency node filled
]

-- The loop of `rcpcTryDeleteProxyNodes`, with the rounds left and the `n` counted so far.
unfoldable pub delete_nodes : ℕ → ℕ → ℕ → RcpcProxy → Option (ℕ × RcpcProxy)
delete_nodes zero fuel n s = some (n, s)
delete_nodes (suc left) fuel n s =
    if ltb 1 s.num_nodes
    then elim (rcpc_new_node fuel null false s) [
      | none ↦ none
      | some (node, t) ↦
          let rest = delete_nodes left fuel (n + 1) (record t {
            returned_nodes = t.returned_nodes ++ node ∷ [];
            num_nodes = t.num_nodes - 1;
          }) in
          if node == null then some (n, t) else rest
    ]
    else some (n, s)

-- `rcpcTryDeleteProxyNodes`
unfoldable pub rcpc_try_delete_proxy_nodes : ℕ → ℕ → RcpcProxy → Option (ℕ × RcpcProxy)
rcpc_try_delete_proxy_nodes count fuel s = delete_nodes count fuel 0 s
