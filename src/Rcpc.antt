-- ===== src/Rcpc.antt =====
-- rcpc/rcpc.c: the proxy whose references are counted by one `sequence` word beside the tail pointer.
-- A call is one step, in which a compare-exchange fails only where another value was put by the call
-- itself. The nodes are without their two debug fields, and a `long` is its 64-bit pattern.
pub mod Calls
pub mod Reference
pub mod Settle
pub mod Add
pub mod Release
pub mod Deferred
pub mod Teardown
pub mod Stats
mod Examples
use atomic_ptr_plus.Base.{
  ℕ, zero, suc, ◌+◌, ◌-◌, ◌%◌, List, [], ◌∷◌, ◌++◌, Bool, true, false, Option, none, some, ltb, leb,
  ◌==◌, if◌then◌else◌, word, add_word, sub_word, update,
}
use atomic_ptr_plus.Fifo.{Ptr, null}

abbrev pub reference : ℕ
reference = 2

abbrev pub guard_bit : ℕ
guard_bit = 1

abbrev pub initial_sequence : ℕ
initial_sequence = 1

abbrev pub default_latency : ℕ
default_latency = 1

pub record RcpcNode : Type 0 where
  pub next : Ptr
  pub sequence : ℕ
  pub prev_sequence : ℕ
  pub count : ℕ
  pub free_data : Ptr
  pub payload : Ptr

abbrev pub zero_node : RcpcNode
zero_node = record {
  next = null;
  sequence = 0;
  prev_sequence = 0;
  count = 0;
  free_data = null;
  payload = null;
}

-- `stats_t` of rcpc.h, of the calling thread. `latency` counts the references by the distance of
-- their node from the tail pointer.
pub record RcpcStats : Type 0 where
  pub tries : ℕ
  pub successful : ℕ
  pub attempts : ℕ
  pub reuse : ℕ
  pub data_frees : ℕ
  pub latency : ℕ → ℕ

-- `deleted` are the calls of the clients' `freeData`, `returned_nodes` the nodes given to `freeMem`.
pub record RcpcProxy : Type 0 where
  pub heap : Ptr → RcpcNode
  pub sequence : ℕ
  pub tail : Ptr
  pub free_tail : Ptr
  pub free_head : Ptr
  pub max_latency : ℕ
  pub latency : ℕ
  pub max_nodes : ℕ
  pub num_nodes : ℕ
  pub initialized : Bool
  pub stats : RcpcStats
  pub deleted : List (Ptr × Ptr)
  pub returned_nodes : List Ptr

abbrev pub no_stats : RcpcStats
no_stats = record {
  tries = 0;
  successful = 0;
  attempts = 0;
  reuse = 0;
  data_frees = 0;
  latency = λ _. 0;
}

abbrev pub put_node : Ptr → RcpcNode → RcpcProxy → RcpcProxy
put_node p n s = record s { heap = update s.heap p n }

-- `rcpcNewProxyM`
unfoldable pub rcpc_new_proxy : RcpcProxy
rcpc_new_proxy = record {
  heap = λ _. zero_node;
  sequence = initial_sequence;
  tail = null;
  free_tail = null;
  free_head = null;
  max_latency = 0;
  latency = default_latency;
  max_nodes = 4294967295;
  num_nodes = 0;
  initialized = false;
  stats = no_stats;
  deleted = [];
  returned_nodes = [];
}

-- `rcpcSetLatency` and `rcpcSetMaxNodes`
unfoldable pub rcpc_set_latency : ℕ → RcpcProxy → RcpcProxy
rcpc_set_latency latency s = if s.initialized then s else record s { latency = latency }

unfoldable pub rcpc_set_max_nodes : ℕ → RcpcProxy → RcpcProxy
rcpc_set_max_nodes limit s = if ltb 1 limit then record s { max_nodes = limit } else s

-- The loop of `rcpcInitProxy` that puts the latent nodes before the current one, from the addresses
-- that `allocMem` gives: the first of them all, and the proxy.
unfoldable pub latent_nodes : List Ptr → Ptr → RcpcProxy → Ptr × RcpcProxy
latent_nodes [] node s = (node, s)
latent_nodes (p ∷ fresh) node s =
    latent_nodes fresh p (put_node p (record zero_node { next = node }) s)

-- `rcpcInitProxy`, given the address of the current node and those of the `maxLatency` latent ones.
unfoldable pub rcpc_init_proxy : Ptr → List Ptr → RcpcProxy → RcpcProxy
unfolding latent_nodes
rcpc_init_proxy node fresh s =
    let current = record zero_node {
      prev_sequence = initial_sequence;
      count = guard_bit + reference;
    } in
    let max_latency = (s.latency + 2) % 4294967296 in
    let (first, t) =
      latent_nodes fresh node
        (put_node node current (record s { max_latency = max_latency; tail = node })) in
    if s.initialized
    then s
    else record t { free_tail = first; free_head = first; initialized = true }

-- The data queued on a node whose predecessor was released.
unfoldable pub delete_data : Ptr → RcpcProxy → RcpcProxy
delete_data node s =
    let n = s.heap node in
    if n.free_data == null
    then s
    else if n.payload == null
    then s
    else record (put_node node (record n { payload = null }) s) {
      deleted = s.deleted ++ (n.free_data, n.payload) ∷ [];
      stats = record s.stats { data_frees = add_word s.stats.data_frees 1 };
    }

-- `rcpcDropProxyNodeReference` on fuel; none also where it follows NULL.
unfoldable pub rcpc_drop_proxy_node_reference : ℕ → Ptr → RcpcProxy → Option RcpcProxy
rcpc_drop_proxy_node_reference zero node s = none
rcpc_drop_proxy_node_reference (suc fuel) node s =
    let n = s.heap node in
    let dropped = put_node node (record n { count = sub_word n.count reference }) s in
    let released = record dropped { free_tail = (dropped.heap dropped.free_tail).next } in
    let rest = rcpc_drop_proxy_node_reference fuel n.next (delete_data n.next released) in
    if n.count == reference then (if n.next == null then none else rest) else some dropped

-- The steps of `setNodeSequence` before its last test. The node gets the sequence number at which
-- the next node follows, unless it has one;
unfoldable pub close_node : Ptr → RcpcProxy → RcpcProxy
close_node node s =
    let n = s.heap node in
    put_node node (record n { sequence = if n.sequence == 0 then s.sequence else n.sequence }) s

-- the next node starts there;
unfoldable pub follow_node : Ptr → RcpcProxy → RcpcProxy
follow_node node s =
    let n = s.heap node in put_node n.next (record (s.heap n.next) { prev_sequence = n.sequence }) s

-- and the references taken from one to the other are added to the count, once.
unfoldable pub count_node : Ptr → RcpcProxy → RcpcProxy
count_node node s =
    let n = s.heap node in
    let adjust = sub_word (sub_word n.sequence n.prev_sequence) guard_bit in
    if n.count % 2 == 0 then s else put_node node (record n { count = add_word n.count adjust }) s

abbrev pub settle_node : Ptr → RcpcProxy → RcpcProxy
settle_node node s = count_node node (follow_node node (close_node node s))

-- `setNodeSequence`, with fuel for the drop of the reference from the tail pointer.
unfoldable pub set_node_sequence : ℕ → Ptr → RcpcProxy → Option RcpcProxy
set_node_sequence fuel node s =
    let next = (s.heap node).next in
    let t = settle_node node s in
    if next == null
    then some s
    else if s.tail == node
    then rcpc_drop_proxy_node_reference fuel node (record t { tail = next })
    else some t

-- `COMPARE(a, b) <= 0`
abbrev pub compare_le : ℕ → ℕ → Bool
compare_le a b = if a == b then true else leb 9223372036854775808 (sub_word a b)

-- The loop of `rcpcGetProxyNodeReference` from `node`, with the `n` counted so far.
unfoldable pub find_node : ℕ → ℕ → Ptr → ℕ → RcpcProxy → Option (Ptr × ℕ × RcpcProxy)
find_node zero new_sequence node n s = none
find_node (suc fuel) new_sequence node n s =
    let next = (s.heap node).next in
    let walk = λ (t : RcpcProxy).
      (let rest = find_node fuel new_sequence next (n + 1) t in
        if compare_le new_sequence (t.heap node).sequence then some (node, n, t) else rest) in
    if next == null
    then some (node, n, s)
    else elim (set_node_sequence fuel node s) [ none ↦ none | some t ↦ walk t ]

-- `rcpcGetProxyNodeReference`: the node, its latency, and the proxy.
unfoldable pub rcpc_get_proxy_node_reference : ℕ → RcpcProxy → Option (Ptr × ℕ × RcpcProxy)
rcpc_get_proxy_node_reference fuel s =
    let new_sequence = add_word s.sequence reference in
    elim (find_node fuel new_sequence s.tail 0 (record s { sequence = new_sequence })) [
      | none ↦ none
      | some (node, n, t) ↦ some (
        node,
        n,
        record t {
          stats = record t.stats {
            latency = update t.stats.latency n (add_word (t.stats.latency n) 1);
          };
        },
      )
    ]
