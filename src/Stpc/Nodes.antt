-- ===== src/Stpc/Nodes.antt =====
-- stpc/stpc.c `_newNode`, `stpcSetMaxNodes` and `stpcTryDeleteProxyNodes`: the number of nodes.
use atomic_ptr_plus.Base.{
  ==_yes, ==_no, ℕ, zero, suc, ◌+◌, ◌-◌, ◌≤◌, ◌<◌, ◌≡◌, ◌≢◌, ◌↔◌, refl, sym, ◌∙◌, ap, Option, inl,
  inr, Bool, true, false, none, some, arith, ltb, if◌then◌else◌, Bool-cases, ◌∷◌, [], length,
  length-append,
}
use native.Mathlib.Decide.{dec_lt}
use atomic_ptr_plus.Fifo.{Ptr, null}
use atomic_ptr_plus.Stpc.{StpcProxy}
use atomic_ptr_plus.Stpc.Calls.{
  take_free, new_node, return_node, delete_nodes, stpc_try_delete_proxy_nodes,
}

-- At least `k` nodes can be taken from the free nodes, none of them NULL.
unfoldable pub HasFree : ℕ → StpcProxy → Type 0
HasFree zero s = Unit
HasFree (suc k) s =
    (s.free_head ≢ s.free_tail)
    × (s.free_head ≢ null)
    × HasFree k (return_node s.free_head (take_free s))

-- Exactly `k` nodes can be taken from the free nodes, none of them NULL; then no node is free.
unfoldable pub HasOnly : ℕ → StpcProxy → Type 0
HasOnly zero s = s.free_head ≡ s.free_tail
HasOnly (suc k) s =
    (s.free_head ≢ s.free_tail)
    × (s.free_head ≢ null)
    × HasOnly k (return_node s.free_head (take_free s))

-- The nodes to delete: `count` of them, but one node stays.
unfoldable pub to_delete : ℕ → ℕ → ℕ
to_delete count nodes = if ltb count nodes then count else nodes - 1

new_node-free :
    (fresh : Ptr) (alloc : Bool) (s : StpcProxy)
    → s.free_head ≢ s.free_tail
    → new_node fresh alloc s ≡ some (s.free_head, take_free s)
unfolding new_node
new_node-free fresh alloc s free = rw (==_no s.free_head s.free_tail free) refl

-- A call of `_newNode` that returns, with a node or NULL, keeps `numNodes` within `maxNodes`, raises
-- it by one at most, and leaves `maxNodes` as it is.
pub new_node-bounded :
    (fresh : Ptr) (alloc : Bool) (s t : StpcProxy) (node : Ptr)
    → s.num_nodes ≤ s.max_nodes
    → new_node fresh alloc s ≡ some (node, t)
    → (t.num_nodes ≤ t.max_nodes) × (t.num_nodes ≤ s.num_nodes + 1) × (t.max_nodes ≡ s.max_nodes)
unfolding new_node take_free
new_node-bounded fresh alloc s t node room e = ground arith

new_node-empty : (s : StpcProxy) → s.free_head ≡ s.free_tail → new_node null false s ≡ none
unfolding new_node
new_node-empty s empty = rw (==_yes s.free_head s.free_tail empty) refl

pub ltb_yes : (a b : ℕ) → a < b → ltb a b ≡ true
ltb_yes a b h = ground arith

pub ltb_no : (a b : ℕ) → b ≤ a → ltb a b ≡ false
ltb_no a b h = ground arith

to_delete-several : (count nodes k : ℕ) → k < to_delete count nodes → 1 < nodes
unfolding to_delete
to_delete-several count nodes k h = ground arith

to_delete-zero : (nodes : ℕ) → 1 ≤ nodes → to_delete 0 nodes ≡ 0
unfolding to_delete
to_delete-zero nodes one = ground arith

to_delete-none : (nodes k : ℕ) → k < to_delete 0 nodes → ⊥
unfolding to_delete
to_delete-none nodes k h = ground arith

to_delete-one : (left nodes : ℕ) → nodes ≡ 1 → to_delete (suc left) nodes ≡ 0
unfolding to_delete
to_delete-one left nodes one = ground arith

to_delete-suc :
    (left nodes : ℕ) → 1 < nodes → to_delete (suc left) nodes ≡ suc (to_delete left (nodes - 1))
unfolding to_delete
to_delete-suc left nodes several = ground arith

-- One round of the loop.
delete_nodes-step :
    (left n : ℕ) (s : StpcProxy)
    → 1 < s.num_nodes
    → s.free_head ≢ s.free_tail
    → s.free_head ≢ null
    → delete_nodes (suc left) n s
      ≡ delete_nodes left (n + 1) (return_node s.free_head (take_free s))
unfolding delete_nodes
delete_nodes-step left n s several free real =
    rw (ltb_yes 1 s.num_nodes several, new_node-free null false s free, delete_nodes)
      (rw (==_no s.free_head null real) refl)

-- What the loop has done to a proxy that gives `k` nodes.
Deleted : ℕ → ℕ → ℕ → StpcProxy → Type 0
Deleted left n k s =
    (t : StpcProxy) × (delete_nodes left n s ≡ some (n + k, t))
    × (t.num_nodes + k ≡ s.num_nodes)
    × (length t.returned_nodes ≡ length s.returned_nodes + k)

HasFree-suc :
    (k : ℕ) (s : StpcProxy)
    → HasFree (suc k) s
    → (s.free_head ≢ s.free_tail)
      × (s.free_head ≢ null)
      × HasFree k (return_node s.free_head (take_free s))
unfolding HasFree
HasFree-suc k s h = h

nothing_done :
    (left n : ℕ) (s : StpcProxy) → delete_nodes left n s ≡ some (n, s) → Deleted left n 0 s
unfolding Deleted
nothing_done left n s e = (s, rw e (ap (λ k. some (k, s)) (omega arith)), omega arith, omega arith)

stopped :
    (left n : ℕ) (s : StpcProxy)
    → ltb 1 s.num_nodes ≡ false
    → delete_nodes (suc left) n s ≡ some (n, s)
unfolding delete_nodes
stopped left n s e = rw e refl

after_round :
    (left n k : ℕ) (s : StpcProxy)
    → 1 < s.num_nodes
    → s.free_head ≢ s.free_tail
    → s.free_head ≢ null
    → Deleted left (n + 1) k (return_node s.free_head (take_free s))
    → Deleted (suc left) n (suc k) s
unfolding Deleted return_node take_free
after_round left n k s several free real (t, run, counted, longer) = (
  t,
  delete_nodes-step left n s several free real ∙ run ∙ ap (λ j. some (j, t)) (omega arith),
  omega arith,
  omega (arith, length-append s.returned_nodes (s.free_head ∷ [])),
)

delete_nodes-Deleted :
    (left n : ℕ) (s : StpcProxy)
    → 1 ≤ s.num_nodes
    → HasFree (to_delete left s.num_nodes) s
    → Deleted left n (to_delete left s.num_nodes) s
unfolding return_node take_free
delete_nodes-Deleted zero n s one free =
    rw (to_delete-zero s.num_nodes one) (nothing_done zero n s (unfold delete_nodes in refl))
delete_nodes-Deleted (suc left) n s one free = elim (Bool-cases (ltb 1 s.num_nodes)) [
  | inl several ↦
      let more : 1 < s.num_nodes = ground arith in
      let less = to_delete-suc left s.num_nodes more in
      let (apart, real, rest) =
        HasFree-suc (to_delete left (s.num_nodes - 1)) s (rw less at free) in
      let t = return_node s.free_head (take_free s) in
      let fewer : t.num_nodes ≡ s.num_nodes - 1 = unfold return_node take_free in refl in
      rw less (
        after_round left n (to_delete left (s.num_nodes - 1)) s more apart real (
          rw fewer at
            (delete_nodes-Deleted left (n + 1) t (rw fewer (omega arith)) (rw fewer rest))))
  | inr one_left ↦
      let single : s.num_nodes ≡ 1 = ground arith in
      rw (to_delete-one left s.num_nodes single)
        (nothing_done (suc left) n s (stopped left n s one_left))
]

-- With enough free nodes, as many nodes as asked for are given back to `freeMem`, but one stays:
-- that number is returned, and `numNodes` is lowered by it.
pub stpc_try_delete_proxy_nodes-counts :
    (count : ℕ) (s : StpcProxy)
    → 1 ≤ s.num_nodes
    → HasFree (to_delete count s.num_nodes) s
    → (t : StpcProxy) × (stpc_try_delete_proxy_nodes count s
        ≡ some (to_delete count s.num_nodes, t))
      × (t.num_nodes + to_delete count s.num_nodes ≡ s.num_nodes)
      × (length t.returned_nodes ≡ length s.returned_nodes + to_delete count s.num_nodes)
unfolding stpc_try_delete_proxy_nodes Deleted
stpc_try_delete_proxy_nodes-counts count s one free =
    let (t, run, counted, longer) = delete_nodes-Deleted count 0 s one free in
    (t, run ∙ ap (λ k. some (k, t)) (omega arith), counted, longer)

HasOnly-HasFree : (j k : ℕ) (s : StpcProxy) → j ≤ k → HasOnly k s → HasFree j s
unfolding HasOnly HasFree
HasOnly-HasFree zero k s le only = _
HasOnly-HasFree (suc j) zero s le only = absurd (omega arith)
HasOnly-HasFree (suc j) (suc k) s le (apart, real, rest) =
    (apart, real, HasOnly-HasFree j k (return_node s.free_head (take_free s)) (omega arith) rest)

delete_nodes-fault :
    (left n : ℕ) (s : StpcProxy)
    → 1 < s.num_nodes
    → s.free_head ≡ s.free_tail
    → delete_nodes (suc left) n s ≡ none
unfolding delete_nodes
delete_nodes-fault left n s several empty =
    rw (ltb_yes 1 s.num_nodes several, new_node-empty s empty) refl

-- The loop goes on while more than one node is counted and it is asked for a node, so a short free
-- list is taken whole, and then `_newNode` faults.
delete_nodes-faults :
    (left n k : ℕ) (s : StpcProxy)
    → k < to_delete left s.num_nodes
    → HasOnly k s
    → delete_nodes left n s ≡ none
unfolding HasOnly
delete_nodes-faults zero n k s short only = absurd (to_delete-none s.num_nodes k short)
delete_nodes-faults (suc left) n zero s short only =
    delete_nodes-fault left n s (to_delete-several (suc left) s.num_nodes 0 short) only
delete_nodes-faults (suc left) n (suc k) s short (apart, real, rest) =
    let several = to_delete-several (suc left) s.num_nodes (suc k) short in
    let t = return_node s.free_head (take_free s) in
    let fewer : t.num_nodes ≡ s.num_nodes - 1 = unfold return_node take_free in refl in
    delete_nodes-step left n s several apart real
    ∙ delete_nodes-faults left (n + 1) k t
        (rw fewer (omega (arith, to_delete-suc left s.num_nodes several, short))) rest

-- With `k` free nodes the call clears NULL, where it is not defined any more, exactly if `k` is less
-- than the nodes that it is to delete: as many as asked for, but one stays.
pub stpc_try_delete_proxy_nodes-faults :
    (count k : ℕ) (s : StpcProxy)
    → 1 ≤ s.num_nodes
    → HasOnly k s
    → (stpc_try_delete_proxy_nodes count s ≡ none) ↔ (k < to_delete count s.num_nodes)
unfolding stpc_try_delete_proxy_nodes
stpc_try_delete_proxy_nodes-faults count k s one only = (
  λ faulted. elim (dec_lt k (to_delete count s.num_nodes)) [
    | yes short ↦ short
    | no enough ↦
        let (t, run, _, _) =
          stpc_try_delete_proxy_nodes-counts count s one
            (HasOnly-HasFree (to_delete count s.num_nodes) k s (omega arith) only) in
        absurd (none-ne-some (sym faulted ∙ run))
  ],
  λ short. delete_nodes-faults count 0 k s short only,
)
  where
    none-ne-some : {r : ℕ × StpcProxy} → ◌≡◌ {A = Option (ℕ × StpcProxy)} none (some r) → ⊥
    none-ne-some e = cc
