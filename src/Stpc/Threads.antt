-- ===== src/Stpc/Threads.antt =====
-- stpc/stpc.c with its calls interleaved at their accesses to shared memory, the statistics
-- aside; the count of the nodes and its limit are in Limit.
-- An agent is a call under way, or a reference that is held. An exchange of the tail or of `freeHead`
-- is one step: a failed round of its loop changes nothing, and `freeHead` carries a number that each
-- exchange raises. The accesses of `freeTail` in a release are one step too, as no one else writes it.
pub mod Dues
pub mod Shape
pub mod Chain
pub mod Agents
pub mod Release
pub mod Own
pub mod Counts
pub mod Paid
pub mod Queued
pub mod Balance
pub mod Links
pub mod Log
pub mod Reached
pub mod Safety
pub mod Progress
pub mod Matches
pub mod Alone
pub mod Limit
mod Examples
use atomic_ptr_plus.Base.{
  ℕ, suc, ◌+◌, ◌^◌, ◌≤◌, ◌<◌, ◌≡◌, ◌≢◌, List, [], ◌++◌, ◌∷◌, add_word, sub_word, to_int, update,
  ◌==◌, if◌then◌else◌,
}
use atomic_ptr_plus.Fifo.{Ptr, null}
use atomic_ptr_plus.Stpc.{StpcNode, zero_node, reference, guard_bit}

-- The proxy. The last six fields are of the proof, and of the steps only the promise of `allocMem`
-- reads them: the nodes in the order in which they become the tail, of which those from `free` on
-- and before `first` are free, and those from `first` to `last` are not released; what was queued
-- with each; and the number of deletes run.
pub record Shared : Type 0 where
  pub heap : Ptr → StpcNode
  pub tail : Ptr
  pub sequence : ℕ
  pub free_tail : Ptr
  pub free_head : Ptr
  pub deleted : List (Ptr × Ptr)
  pub node_at : ℕ → Ptr
  pub queued : ℕ → Ptr × Ptr
  pub free : ℕ
  pub first : ℕ
  pub last : ℕ
  pub finished : ℕ

-- Where an agent stands, with its live variables; `rcount` is the 64-bit pattern of a `long`.
pub data Pc : Type 0 where
  idle : Pc
  holds : (node : Ptr) → Pc
  checking : (node : Ptr) (rcount : ℕ) → Pc
  subtracting : (node : Ptr) (rcount : ℕ) → Pc
  releasing : (node : Ptr) → Pc
  deleting : (node : Ptr) → Pc
  filled : (node : Ptr) → Pc
  linking : (old node : Ptr) (rcount : ℕ) → Pc

-- `REFERENCE - adjust` for the old tail; the adjustment is an `int`.
unfoldable pub rcount_of : ℕ → ℕ
rcount_of sequence = sub_word reference (to_int (sub_word sequence guard_bit))

-- A node as `_queueNode` hands it to the exchange.
abbrev pub new_tail : Ptr → Ptr → StpcNode
new_tail free_data payload = record zero_node {
  count = guard_bit + (reference + reference);
  free_data = free_data;
  payload = payload;
}

abbrev pub put : Ptr → StpcNode → Shared → Shared
put p n m = record m { heap = update m.heap p n }

-- The call of `freeData`, if one is queued.
abbrev pub calls : Ptr → Ptr → List (Ptr × Ptr)
calls free_data payload =
    if free_data == null then [] else if payload == null then [] else (free_data, payload) ∷ []

-- The exchange of the tail that takes a reference.
abbrev pub with_reference : Shared → Shared
with_reference m = record m { sequence = add_word m.sequence reference }

abbrev pub subtracted : Ptr → ℕ → Shared → Shared
subtracted p r m = put p (record (m.heap p) { count = sub_word (m.heap p).count r }) m

-- `freeTail` moves to its successor.
abbrev pub moved_on : Shared → Shared
moved_on m = record m { free_tail = (m.heap m.free_tail).next; first = m.first + 1 }

-- The oldest free node is taken, and filled.
abbrev pub taken : StpcNode → Shared → Shared
taken n m = record (put m.free_head n m) {
  free_head = (m.heap m.free_head).next;
  free = m.free + 1;
}

-- The exchange of the tail in `_queueNode`.
abbrev pub with_tail : Ptr → Shared → Shared
with_tail p m = record m {
  tail = p;
  sequence = 0;
  node_at = update m.node_at (suc m.last) p;
  queued = update m.queued (suc m.last) ((m.heap p).free_data, (m.heap p).payload);
  last = suc m.last;
}

abbrev pub linked_to : Ptr → Ptr → Shared → Shared
linked_to old p m = put old (record (m.heap old) { next = p }) m

abbrev pub run_delete : Ptr → Shared → Shared
run_delete p m =
    let n = m.heap p in
    let called = record n { payload = if n.free_data == null then n.payload else null } in
    record m {
      heap = update m.heap p called;
      deleted = m.deleted ++ calls n.free_data n.payload;
      finished = m.finished + 1;
    }

-- What `allocMem` promises: the node is not one in use.
pub record Unused (pcs : ℕ → Pc) (m : Shared) (p : Ptr) : Type 0 where
  pub real : p ≢ null
  pub not_queued : (k : ℕ) → m.free ≤ k → k ≤ m.last → m.node_at k ≢ p
  pub not_filled : (j : ℕ) (q : Ptr) → pcs j ≡ filled q → q ≢ p

-- One step of one agent. `few` bounds the references taken from one tail, so that they fit an `int`.
pub data Move (pcs : ℕ → Pc) (m : Shared) : Pc → Shared → Pc → Type 0 where
  get : (few : m.sequence + 4 < 2147483648) → Move pcs m idle (with_reference m) (holds m.tail)
  drop : {p : Ptr} → Move pcs m (holds p) m (checking p reference)
  check_last : {p : Ptr} {r : ℕ} → (m.heap p).count ≡ r → Move pcs m (checking p r) m (releasing p)
  check_more :
      {p : Ptr} {r : ℕ} → (m.heap p).count ≢ r → Move pcs m (checking p r) m (subtracting p r)
  subtract_last :
      {p : Ptr} {r : ℕ}
      → (m.heap p).count ≡ r
      → Move pcs m (subtracting p r) (subtracted p r m) (releasing p)
  subtract_more :
      {p : Ptr} {r : ℕ}
      → (m.heap p).count ≢ r
      → Move pcs m (subtracting p r) (subtracted p r m) idle
  release : {p : Ptr} → Move pcs m (releasing p) (moved_on m) (deleting (m.heap p).next)
  delete : {p : Ptr} → Move pcs m (deleting p) (run_delete p m) (checking p reference)
  pop :
      (free_data payload : Ptr)
      → m.free_head ≢ m.free_tail
      → Move pcs m idle (taken (new_tail free_data payload) m) (filled m.free_head)
  give_back : m.free_head ≢ m.free_tail → Move pcs m idle (taken zero_node m) idle
  alloc :
      (p free_data payload : Ptr)
      → Unused pcs m p
      → Move pcs m idle (put p (new_tail free_data payload) m) (filled p)
  swap : {p : Ptr} → Move pcs m (filled p) (with_tail p m) (linking m.tail p (rcount_of m.sequence))
  link : {old p : Ptr} {r : ℕ} → Move pcs m (linking old p r) (linked_to old p m) (checking old r)

pub record System : Type 0 where
  pub mem : Shared
  pub pc : ℕ → Pc

-- A step of one of `n` agents; from `n` on they stay idle.
pub data Step (n : ℕ) (s : System) : System → Type 0 where
  pick :
      (i : ℕ) {m : Shared} {p : Pc}
      → i < n
      → Move s.pc s.mem (s.pc i) m p
      → Step n s (record { mem = m; pc = update s.pc i p })

-- `stpcNewProxyM`, with the address of its node.
abbrev pub new_system : Ptr → System
new_system node = record {
  mem = record {
    heap = update (λ _. zero_node) node (record zero_node { count = guard_bit + reference });
    tail = node;
    sequence = 0;
    free_tail = node;
    free_head = node;
    deleted = [];
    node_at = λ _. node;
    queued = λ _. (null, null);
    free = 0;
    first = 0;
    last = 0;
    finished = 0;
  };
  pc = λ _. idle;
}

pub data Reach (n : ℕ) (node : Ptr) : System → Type 0 where
  start : Reach n node (new_system node)
  later : {s t : System} → Reach n node s → Step n s t → Reach n node t
