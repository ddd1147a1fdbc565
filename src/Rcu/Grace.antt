-- ===== src/Rcu/Grace.antt =====
-- fastsmr/rcuscan.c: how long an item stays on the ring of nodes, in quiescent points.
pub mod Shift
pub mod Scan
pub mod Rotate
pub mod Wait
use atomic_ptr_plus.Base.{
  ℕ, ◌+◌, ◌-◌, ◌≡◌, List, [], Bool, true, none, some, ◌==◌, leb, if◌then◌else◌, has, get_elem?,
}
use atomic_ptr_plus.Fifo.{Ptr}
use atomic_ptr_plus.Rcu.State.{RcuNode}
use atomic_ptr_plus.Rcu.Scan.{queue1_at}

abbrev pub queue0_at : ℕ → List RcuNode → List Ptr
queue0_at i ns = elim (get_elem? ns i) [ none ↦ [] | some n ↦ n.queue0 ]

-- The item is on node `p` of the ring: on `queue0` if it is fresh, else on `queue1`.
abbrev pub Located : Ptr → ℕ → Bool → List RcuNode → Type 0
Located x p fresh ns = has x (if fresh then queue0_at p ns else queue1_at p ns) ≡ true

-- How many nodes a scan of `n` nodes that stands at node `i` passes before it shifts the work of
-- node `p`: a node's work is shifted when the node before it has been passed.
abbrev pub distance : (n i p : ℕ) → ℕ
distance n i p = if leb p i then (if p + n == i then n else p + n - i) else p - i

-- How many quiescent points keep the item on the ring: fresh work is shifted twice.
abbrev pub delay : (n i p : ℕ) → Bool → ℕ
delay n i p fresh = distance n i p + (if fresh then n else 0)
