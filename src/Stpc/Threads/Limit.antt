-- ===== src/Stpc/Threads/Limit.antt =====
-- stpc/stpc.c: the steps of the calls with the count of the nodes, numNodes, and its limit, maxNodes,
-- which stays as it is. What `_newNode` and `stpcTryDeleteProxyNodes` do with these is not in the
-- steps of Threads, whose agents are idle meanwhile.
pub mod Accounts
mod Examples
use atomic_ptr_plus.Base.{ℕ, ◌+◌, ◌%◌, ◌<◌, ◌≤◌, ◌≡◌, ◌≢◌, Bool, true, false, update}
use atomic_ptr_plus.Fifo.{Ptr}
use atomic_ptr_plus.Stpc.{zero_node}
use atomic_ptr_plus.Stpc.Threads.{
  Shared, Pc, Move, System, Unused, idle, filled, get, drop, check_last, check_more, subtract_last,
  subtract_more, release, delete, pop, give_back, alloc, swap, link, put, new_tail, taken,
  new_system,
}

-- Where an agent stands between its accesses to numNodes. In `_newNode`: it has seen no free node, or
-- has counted a node that `allocMem` is to give. In `stpcTryDeleteProxyNodes`: `current` is above 1,
-- or a node is given to `freeMem` and still counted.
pub data Phase : Type 0 where
  outside saw_none reserved trying freeing : Phase

-- `failed` is of the proof: how often `allocMem` gave NULL.
pub record Limited : Type 0 where
  pub system : System
  pub phase : ℕ → Phase
  pub num_nodes : ℕ  -- unsigned int
  pub failed : ℕ

-- The steps that do not belong to a phase.
abbrev pub plain : {pcs : ℕ → Pc} {m m' : Shared} {p p' : Pc} → Move pcs m p m' p' → Bool
plain (get few) = true
plain drop = true
plain (check_last g) = true
plain (check_more g) = true
plain (subtract_last g) = true
plain (subtract_more g) = true
plain release = true
plain delete = true
plain (pop free_data payload g) = true
plain (give_back g) = false
plain (alloc p free_data payload g) = false
plain swap = true
plain link = true

abbrev pub enter : ℕ → Phase → Limited → Limited
enter i p l = record l { phase = update l.phase i p }

abbrev pub act : ℕ → Shared → Pc → Limited → Limited
act i m p l = record l { system = record { mem = m; pc = update l.system.pc i p } }

-- One step of agent `i`.
pub data Act (max_nodes : ℕ) (l : Limited) (i : ℕ) : Limited → Type 0 where
  plainly :
      {m : Shared} {p : Pc}
      → l.phase i ≡ outside
      → (mv : Move l.system.pc l.system.mem (l.system.pc i) m p) → plain mv ≡ true
      → Act max_nodes l i (act i m p l)
  see_none :
      l.phase i ≡ outside
      → l.system.pc i ≡ idle
      → l.system.mem.free_head ≡ l.system.mem.free_tail
      → Act max_nodes l i (enter i saw_none l)
  reserve :
      l.phase i ≡ saw_none
      → l.num_nodes < max_nodes
      → Act max_nodes l i
          (record (enter i reserved l) { num_nodes = (l.num_nodes + 1) % 4294967296 })
  refuse : l.phase i ≡ saw_none → max_nodes ≤ l.num_nodes → Act max_nodes l i (enter i outside l)
  alloc_node :
      (p free_data payload : Ptr)
      → l.phase i ≡ reserved
      → Unused l.system.pc l.system.mem p
      → Act max_nodes l i
          (act i (put p (new_tail free_data payload) l.system.mem) (filled p) (enter i outside l))
  alloc_null :
      l.phase i ≡ reserved
      → Act max_nodes l i (record (enter i outside l) { failed = l.failed + 1 })
  try_delete :
      l.phase i ≡ outside
      → l.system.pc i ≡ idle
      → 1 < l.num_nodes
      → Act max_nodes l i (enter i trying l)
  give_up : l.phase i ≡ trying → Act max_nodes l i (enter i outside l)
  free_node :
      l.phase i ≡ trying
      → l.system.mem.free_head ≢ l.system.mem.free_tail
      → Act max_nodes l i (act i (taken zero_node l.system.mem) idle (enter i freeing l))
  subtract_end :
      l.phase i ≡ freeing
      → Act max_nodes l i
          (record (enter i outside l) { num_nodes = (l.num_nodes + 4294967295) % 4294967296 })
  subtract_again :
      l.phase i ≡ freeing
      → 1 < (l.num_nodes + 4294967295) % 4294967296
      → Act max_nodes l i
          (record (enter i trying l) { num_nodes = (l.num_nodes + 4294967295) % 4294967296 })

abbrev pub new_limited : Ptr → Limited
new_limited node = record {
  system = new_system node;
  phase = λ _. outside;
  num_nodes = 1;
  failed = 0;
}

-- What `n` agents can do.
pub data Counted (n max_nodes : ℕ) (node : Ptr) : Limited → Type 0 where
  begin : Counted n max_nodes node (new_limited node)
  follow :
      {l l' : Limited} (i : ℕ)
      → Counted n max_nodes node l
      → i < n
      → Act max_nodes l i l'
      → Counted n max_nodes node l'
