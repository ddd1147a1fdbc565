-- ===== src/Stpc.antt =====
-- stpc/stpc.c and stpc/stpc.h: the proxy whose tail pointer carries a reference count. A call is one
-- step: each loop on a compare-exchange is its last, successful round, which decides what it does.
pub mod Calls
pub mod Reference
pub mod Data
pub mod Delete
pub mod Drop
pub mod Nodes
pub mod Exhaust
pub mod Teardown
pub mod Threads
mod Examples
use atomic_ptr_plus.Base.{
  word, add_word, sub_word, to_int, ℕ, zero, suc, ◌+◌, ◌-◌, ◌%◌, List, [], ◌∷◌, ◌++◌, Bool, true,
  false, Option, none, some, ltb, ◌==◌, if◌then◌else◌,
}
use atomic_ptr_plus.Fifo.{Ptr, null}

abbrev pub reference : ℕ
reference = 2

abbrev pub guard_bit : ℕ
guard_bit = 1

pub record StpcNode : Type 0 where
  pub next : Ptr
  pub count : ℕ
  pub free_data : Ptr
  pub payload : Ptr

pub record ProxyStats : Type 0 where
  pub tries : ℕ
  pub attempts : ℕ
  pub reuse : ℕ
  pub data_frees : ℕ

abbrev pub no_stats : ProxyStats
no_stats = record { tries = 0; attempts = 0; reuse = 0; data_frees = 0 }

-- The proxy with the memory of its nodes. `local` is what the calling thread has at `statsKey`,
-- `deleted` the calls of the clients' `freeData` in order, with the function and its argument, and
-- `returned_nodes` the nodes given to `freeMem`.
pub record StpcProxy : Type 0 where
  pub heap : Ptr → StpcNode
  pub tail : Ptr
  pub sequence : ℕ
  pub free_tail : Ptr
  pub free_head : Ptr
  pub free_sequence : ℕ
  pub max_nodes : ℕ
  pub num_nodes : ℕ
  pub local : Option ProxyStats
  pub stats : ProxyStats
  pub deleted : List (Ptr × Ptr)
  pub returned_nodes : List Ptr

abbrev pub put_node : Ptr → StpcNode → (Ptr → StpcNode) → Ptr → StpcNode
put_node p n h q = if p == q then n else h q

-- `memset(node, 0, sizeof(stpcNode))`
abbrev pub zero_node : StpcNode
zero_node = record { next = null; count = 0; free_data = null; payload = null }

-- `stpcNewProxyM`, with the node that `malloc` gave.
unfoldable pub stpc_new_proxy : Ptr → StpcProxy
stpc_new_proxy node = record {
  heap = put_node node (record zero_node { count = guard_bit + reference }) (λ _. zero_node);
  tail = node;
  sequence = 0;
  free_tail = node;
  free_head = node;
  free_sequence = 0;
  max_nodes = 4294967295;
  num_nodes = 1;
  local = none;
  stats = no_stats;
  deleted = [];
  returned_nodes = [];
}

-- `stpcGetLocalStats`, which allocates them at the first call of the thread.
abbrev pub stpc_get_local_stats : StpcProxy → ProxyStats
stpc_get_local_stats s = elim s.local [ none ↦ no_stats | some l ↦ l ]

-- `_freeStats` at the end of a thread
unfoldable pub free_stats : ProxyStats → StpcProxy → StpcProxy
free_stats l s = record s {
  local = none;
  stats = record {
    attempts = add_word s.stats.attempts l.attempts;
    data_frees = add_word s.stats.data_frees l.data_frees;
    tries = add_word s.stats.tries l.tries;
    reuse = add_word s.stats.reuse l.reuse;
  };
}

-- `stpcSetMaxNodes`
unfoldable pub stpc_set_max_nodes : ℕ → StpcProxy → StpcProxy
stpc_set_max_nodes limit s = if ltb 1 limit then record s { max_nodes = limit } else s

-- `stpcGetProxyNodeReference`: the node that was the tail, and the proxy after.
unfoldable pub stpc_get_proxy_node_reference : StpcProxy → Ptr × StpcProxy
stpc_get_proxy_node_reference s = (s.tail, record s { sequence = add_word s.sequence reference })

-- The data queued on a node whose predecessor was released: `freeData` is called once.
unfoldable pub delete_data : Ptr → StpcProxy → StpcProxy
delete_data node s =
    let n = s.heap node in
    let l = stpc_get_local_stats s in
    if n.free_data == null then s else if n.payload == null then s else record s {
      heap = put_node node (record n { payload = null }) s.heap;
      deleted = s.deleted ++ (n.free_data, n.payload) ∷ [];
      local = some (record l { data_frees = add_word l.data_frees 1 });
    }

-- `freeTail` moves to its successor.
unfoldable pub release_node : StpcProxy → StpcProxy
release_node s = record s { free_tail = (s.heap s.free_tail).next }

-- The loop of `_dropProxyNodeReference` with `rcount` on fuel; none also where it follows NULL.
unfoldable pub drop_loop : ℕ → Ptr → ℕ → StpcProxy → Option StpcProxy
drop_loop zero node rcount s = none
drop_loop (suc fuel) node rcount s =
    let n = s.heap node in
    let rest = drop_loop fuel n.next reference (delete_data n.next (release_node s)) in
    if n.count == rcount % word
    then (if n.next == null then none else rest)
    else some
        (record s { heap = put_node node (record n { count = sub_word n.count rcount }) s.heap })

-- `_dropProxyNodeReference`
unfoldable pub drop_proxy_node_reference : ℕ → Ptr → ℕ → StpcProxy → Option StpcProxy
drop_proxy_node_reference fuel node adjust s = drop_loop fuel node (sub_word reference adjust) s

-- `stpcDropProxyNodeReference`
unfoldable pub stpc_drop_proxy_node_reference : ℕ → Ptr → StpcProxy → Option StpcProxy
stpc_drop_proxy_node_reference fuel node s = drop_proxy_node_reference fuel node 0 s

-- `_queueNode` up to the drop: the new tail, the exchange of the tail and the link to it.
unfoldable pub link_node : Ptr → StpcProxy → StpcProxy
link_node node s =
    let cleared =
      put_node node (record (s.heap node) { count = guard_bit + (reference + reference) }) s.heap in
    record s {
      heap = put_node s.tail (record (cleared s.tail) { next = node }) cleared;
      tail = node;
      sequence = 0;
    }

-- The statistics at the end of `_queueNode`.
unfoldable pub count_try : ℕ → StpcProxy → StpcProxy
count_try attempts s =
    let l = stpc_get_local_stats s in
    record s {
      local =
          some (record l { tries = add_word l.tries 1; attempts = add_word l.attempts attempts });
    }

-- `adjust` is an `int`.
abbrev pub adjust_of : StpcProxy → ℕ
adjust_of s = to_int (sub_word s.sequence guard_bit)

-- `_queueNode`, whose compare-exchange succeeds at the given attempt.
unfoldable pub queue_node : ℕ → ℕ → Ptr → StpcProxy → Option StpcProxy
queue_node fuel attempts node s =
    elim (drop_proxy_node_reference fuel s.tail (adjust_of s) (link_node node s)) [
      | none ↦ none
      | some dropped ↦ some (count_try attempts dropped)
    ]
