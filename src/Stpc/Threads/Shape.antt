-- ===== src/Stpc/Threads/Shape.antt =====
-- The chain of the nodes of stpc/stpc.c, and what the agents and the counts say of it.
use atomic_ptr_plus.Base.{
  ℕ, zero, suc, ◌+◌, ◌-◌, ◌*◌, ◌%◌, ◌≤◌, ◌<◌, ◌≡◌, ◌≢◌, ◌⊎◌, word, ltb, ◌==◌, if◌then◌else◌, sum_to,
  List, [], ◌++◌,
}
use atomic_ptr_plus.Fifo.{Ptr, null}
use atomic_ptr_plus.Stpc.Threads.{
  Shared, Pc, idle, holds, checking, subtracting, releasing, deleting, filled, linking, calls,
}
use atomic_ptr_plus.Stpc.Threads.Dues.{HasDue, dues, odd_dues, leaves, deletes}

-- A node that is not released.
abbrev pub InQueue : Shared → Ptr → Type 0
InQueue m p = (k : ℕ) × (m.first ≤ k) × (k ≤ m.last) × (m.node_at k ≡ p)

-- Two successive ones.
abbrev pub InChain : Shared → Ptr → Ptr → Type 0
InChain m p q = (k : ℕ) × (m.first ≤ k) × (k < m.last) × (m.node_at k ≡ p) × (m.node_at (suc k) ≡ q)

abbrev pub Outside : Shared → Ptr → Type 0
Outside m p = (k : ℕ) → m.free ≤ k → k ≤ m.last → m.node_at k ≢ p

-- What the variables of an agent say about shared memory.
abbrev pub Stands : Shared → Pc → Type 0
Stands m idle = Unit {0}
Stands m (holds p) = InQueue m p
Stands m (checking p r) = InQueue m p
Stands m (subtracting p r) = InQueue m p
Stands m (releasing p) = p ≡ m.node_at m.first
Stands m (deleting p) = p ≡ m.node_at m.first
Stands m (filled p) = (p ≢ null) × ((m.heap p).count ≡ 5) × Outside m p
Stands m (linking old p r) = InChain m old p

-- The dues of an agent that links are odd.
abbrev pub OddLink : Pc → Type 0
OddLink (linking old p r) = r % 2 ≡ 1
OddLink p = Unit {0}

-- The reference from the node before, unless that is released, and at the tail the guard bit, the
-- reference of the tail pointer, and less those that were taken from it.
abbrev pub before : Shared → ℕ → ℕ
before m k = if ltb m.first k then 1 else 0

abbrev pub at_tail : Shared → ℕ → ℕ
at_tail m k = if k == m.last then 1 else 0

abbrev pub kept : Shared → ℕ → ℕ
kept m k = 2 * before m k + at_tail m k * (3 + (word - m.sequence))

-- An agent that still has to link the `k`th node to the next one.
abbrev pub LinkLeft : ℕ → Shared → (ℕ → Pc) → ℕ → Type 0
LinkLeft n m pcs k =
    (j : ℕ) × (r : ℕ) × (j < n) × (pcs j ≡ linking (m.node_at k) (m.node_at (suc k)) r) × (1 ≤ r)

-- The deletes queued with the first `k` nodes behind the initial one.
unfoldable pub collected : (ℕ → Ptr × Ptr) → ℕ → List (Ptr × Ptr)
collected queued zero = []
collected queued (suc k) = collected queued k ++ calls (queued (suc k)).0 (queued (suc k)).1

abbrev pub leaving : ℕ → (ℕ → Pc) → ℕ
leaving n pcs = sum_to leaves n pcs

abbrev pub in_delete : ℕ → (ℕ → Pc) → ℕ
in_delete n pcs = sum_to deletes n pcs

-- The chain of nodes.
pub record Chained (m : Shared) : Type 0 where
  pub free-le : m.free ≤ m.first
  pub first-le : m.first ≤ m.last
  pub real : (k : ℕ) → m.free ≤ k → k ≤ m.last → m.node_at k ≢ null
  pub distinct :
      (j k : ℕ)
      → m.free ≤ j
      → j ≤ m.last
      → m.free ≤ k
      → k ≤ m.last
      → m.node_at j ≡ m.node_at k
      → j ≡ k
  pub is_tail : m.tail ≡ m.node_at m.last
  pub is_free_head : m.free_head ≡ m.node_at m.free
  pub is_free_tail : m.free_tail ≡ m.node_at m.first
  pub even : m.sequence % 2 ≡ 0
  pub few : m.sequence < 2147483648

-- The counts of its nodes, and the agents that have them.
pub record Balanced (n : ℕ) (m : Shared) (pcs : ℕ → Pc) : Type 0 where
  pub balance :
      (k : ℕ)
      → m.first + leaving n pcs ≤ k
      → k ≤ m.last
      → (m.heap (m.node_at k)).count ≡ (dues (m.node_at k) n pcs + kept m k) % word
  pub single : (k : ℕ) → m.first ≤ k → k ≤ m.last → odd_dues (m.node_at k) n pcs + at_tail m k ≤ 1
  pub alone :
      0 < leaving n pcs
      → (leaving n pcs ≡ 1) × (dues (m.node_at m.first) n pcs ≡ 0) × (m.first < m.last)
  pub charge : m.first < m.last → 0 < leaving n pcs + dues (m.node_at m.first) n pcs

-- The data queued with the nodes.
pub record Logged (n : ℕ) (m : Shared) (pcs : ℕ → Pc) : Type 0 where
  pub counted : m.finished + in_delete n pcs ≡ m.first
  pub one : in_delete n pcs ≤ 1
  pub log : m.deleted ≡ collected m.queued m.finished
  pub waits :
      (k : ℕ)
      → m.finished < k
      → k ≤ m.last
      → ((m.heap (m.node_at k)).free_data ≡ (m.queued k).0)
        × ((m.heap (m.node_at k)).payload ≡ (m.queued k).1)

-- Each agent.
pub record Sound (n : ℕ) (m : Shared) (pcs : ℕ → Pc) : Type 0 where
  pub stands : (i : ℕ) → Stands m (pcs i)
  pub has_due : (i : ℕ) → HasDue (pcs i)
  pub odd_link : (i : ℕ) → OddLink (pcs i)
  pub beyond : (i : ℕ) → n ≤ i → pcs i ≡ idle
  pub unlike : (i j : ℕ) (p : Ptr) → pcs i ≡ filled p → pcs j ≡ filled p → i ≡ j

pub record Inv (n : ℕ) (m : Shared) (pcs : ℕ → Pc) : Type 0 where
  pub agents : n < 4611686018427387904
  pub chained : Chained m
  pub balanced : Balanced n m pcs
  pub sound : Sound n m pcs
  pub logged : Logged n m pcs
  pub linked :
      (k : ℕ)
      → m.free ≤ k
      → k < m.last
      → ((m.heap (m.node_at k)).next ≡ m.node_at (suc k)) ⊎ LinkLeft n m pcs k
