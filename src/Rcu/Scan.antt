-- ===== src/Rcu/Scan.antt =====
-- fastsmr/rcuscan.c: the ring of RCU nodes. `rcu_add_node`, `rcu_delete_node`, `rcu_scan`,
-- `rcu_shutdown2` and `rcu_incoming`.
use atomic_ptr_plus.Base.{
  ℕ, zero, suc, ◌+◌, ◌≡◌, List, [], ◌∷◌, ◌++◌, Bool, true, false, not, Option, none, some, ◌==◌,
  if◌then◌else◌, length, modify, get_elem?, drop, take,
}
use atomic_ptr_plus.Fifo.{Ptr}
use atomic_ptr_plus.Rcu.State.{
  state_none, state_explicit, state_norun, state_idle, RcuNode, World, is_nil,
}
use atomic_ptr_plus.Rcu.Enqueue.{rcu_requeue}

-- What the clock and the quiesce counter of the platform (`getutimeofday`, `qcount_get`) answer when
-- a scan asks for a node. One scan asks for each node once.
pub record Answer : Type 0 where
  pub now : ℕ
  pub qcount : ℕ  -- uint32_t
  pub runstate : Bool

abbrev pub Answers : Type 0
Answers = ℕ → Answer

-- Once `malloc` has given the node: it stands before the current one, which is last in ring order.
-- Without memory the call aborts, in `add_linked` on the linked ring and in `poll_thread`.
unfoldable pub rcu_add_node : ℕ → Answers → World → World
rcu_add_node qhandle ask w = record w {
  nodes =
      w.nodes
      ++ record {
        qhandle = qhandle;
        last_qcount = (ask qhandle).qcount;
        queue0 = [];
        queue1 = [];
        last_time = 0;
        state = state_none;
      }
        ∷ [];
}

-- `fifo_requeue(&(node->prev->queueN), &(node->queueN))` for both queues, at the last of a list.
abbrev pub give_last : RcuNode → List RcuNode → List RcuNode
give_last node [] = []
give_last node (n ∷ []) =
    record n { queue0 = n.queue0 ++ node.queue0; queue1 = n.queue1 ++ node.queue1 } ∷ []
give_last node (n ∷ m ∷ ns) = n ∷ give_last node (m ∷ ns)

-- The ring from `prev` on, without the first node behind it whose handle is `qhandle`: the work of
-- that node went to the node before it. A ring with no such node stays as it is.
abbrev pub unlink_after : ℕ → RcuNode → List RcuNode → List RcuNode
unlink_after qhandle prev [] = prev ∷ []
unlink_after qhandle prev (n ∷ ns) =
    let rest = unlink_after qhandle n ns in
    if n.qhandle == qhandle
    then record prev { queue0 = prev.queue0 ++ n.queue0; queue1 = prev.queue1 ++ n.queue1 } ∷ ns
    else prev ∷ rest

-- `rcu_delete_node` at the ring `nodes`. The queues of a node that is taken off are empty at the end,
-- so the source's two calls of `abort` are not reached.
unfoldable pub delete_from : ℕ → List RcuNode → World → World
delete_from qhandle [] w = w
delete_from qhandle (first ∷ []) w =
    if first.qhandle == qhandle
    then rcu_requeue first.queue1 (rcu_requeue first.queue0 (record w { nodes = [] }))
    else w
delete_from qhandle (first ∷ n ∷ ns) w = record w {
  nodes =
      (if first.qhandle == qhandle
        then give_last first (n ∷ ns)
        else unlink_after qhandle first (n ∷ ns));
}

unfoldable pub rcu_delete_node : ℕ → World → World
unfolding delete_from
rcu_delete_node qhandle w = delete_from qhandle w.nodes w

-- `current_node->qhandle`, if there is a current node.
abbrev pub handle_of : List RcuNode → Option ℕ
handle_of [] = none
handle_of (first ∷ _) = some first.qhandle

-- The loop of `rcu_shutdown2`: deletes the current node until none is left. One round for each node
-- is enough.
unfoldable pub shutdown_rounds : ℕ → World → World
unfolding rcu_delete_node
shutdown_rounds zero w = w
shutdown_rounds (suc fuel) w = elim (handle_of w.nodes) [
  | none ↦ w
  | some qhandle ↦ shutdown_rounds fuel (rcu_delete_node qhandle w)
]

unfoldable pub rcu_shutdown2 : World → World
unfolding shutdown_rounds
rcu_shutdown2 w = shutdown_rounds (length w.nodes) w

abbrev pub has_queue0 : List RcuNode → Bool
has_queue0 [] = false
has_queue0 (n ∷ ns) = not (is_nil n.queue0)

-- Is there new work on the current node?
unfoldable pub rcu_incoming : World → Bool
rcu_incoming w = has_queue0 w.nodes

-- The node has passed a quiescent point: it is not running, or its counter has moved.
abbrev pub quiesced : Answer → RcuNode → Bool
quiesced p n = if p.runstate then not (p.qcount == n.last_qcount) else true

-- The node and the statistics after a quiescent point.
abbrev pub note_node : Answer → RcuNode → RcuNode
note_node p n = record n {
  state = if p.runstate then state_explicit else state_norun;
  last_qcount = p.qcount;
  last_time = p.now;
}

abbrev pub note_stats : Answer → World → World
note_stats p w = record w {
  stats = record w.stats {
    norun = (if p.runstate then w.stats.norun else w.stats.norun + 1);
    qexplicit = (if p.runstate then w.stats.qexplicit + 1 else w.stats.qexplicit);
    qpoints = w.stats.qpoints + 1;
  };
}

abbrev pub queue1_at : ℕ → List RcuNode → List Ptr
queue1_at i ns = elim (get_elem? ns i) [ none ↦ [] | some n ↦ n.queue1 ]

-- Shifts the work of node `i`: `rcu_requeue(&(node->queue1))` and then
-- `fifo_requeue(&(node->queue1), &(node->queue0))`.
unfoldable pub shift_work : ℕ → World → World
shift_work i w =
    let taken =
      rcu_requeue (queue1_at i w.nodes)
        (record w { nodes = modify i (λ n. record n { queue1 = [] }) w.nodes }) in
    record taken {
      nodes = modify i (λ n. record n { queue1 = n.queue1 ++ n.queue0; queue0 = [] }) taken.nodes;
    }

-- A node that has passed a quiescent point: it is noted, and the work of the next node shifted,
-- which is the current node again if no node is left.
unfoldable pub pass_node : (left i : ℕ) → Answer → World → World
unfolding shift_work
pass_node left i p w =
    shift_work (elim left [ zero ↦ 0 | suc _ ↦ suc i ])
      (record (note_stats p w) { nodes = modify i (note_node p) w.nodes })

-- A node that has not.
unfoldable pub stall_node : ℕ → World → World
stall_node i w = record w {
  nodes = modify i (λ m. record m { state = state_idle }) w.nodes;
  stats = record w.stats { idle = w.stats.idle + 1 };
}

-- The loop of `rcu_scan`, standing at node `i` of the ring with `left` nodes before it is back at
-- the current node: the state, and where it stopped.
unfoldable pub scan_from : (left i : ℕ) → Answers → World → World × ℕ
unfolding pass_node stall_node
scan_from zero i ask w = (w, i)
scan_from (suc left) i ask w = elim (get_elem? w.nodes i) [
  | none ↦ (w, i)
  | some n ↦
      let rest = scan_from left (suc i) ask (pass_node left i (ask n.qhandle) w) in
      if quiesced (ask n.qhandle) n then rest else (stall_node i w, i)
]

-- `current_node = node`: the ring is read from node `i` on.
abbrev pub rotate {ℓ} : {A : Type ℓ} → ℕ → List A → List A
rotate i ns = drop i ns ++ take i ns

unfoldable pub rcu_scan : Answers → World → World
unfolding scan_from
rcu_scan ask w =
    let (w', i) = scan_from (length w.nodes) 0 ask w in record w' { nodes = rotate i w'.nodes }

-- The rounds of the loop of `rcu_scan`.
module _ (left i : ℕ) (ask : Answers) (w : World) where
  pub scan_from-out : get_elem? w.nodes i ≡ none → scan_from (suc left) i ask w ≡ (w, i)
  unfolding scan_from
  scan_from-out out = rw (out, scan_from)

  pub scan_from-pass :
      (n : RcuNode)
      → get_elem? w.nodes i ≡ some n
      → quiesced (ask n.qhandle) n ≡ true
      → scan_from (suc left) i ask w
        ≡ scan_from left (suc i) ask (pass_node left i (ask n.qhandle) w)
  unfolding scan_from
  scan_from-pass n at passed = rw (at, scan_from, passed)

  pub scan_from-stall :
      (n : RcuNode)
      → get_elem? w.nodes i ≡ some n
      → quiesced (ask n.qhandle) n ≡ false
      → scan_from (suc left) i ask w ≡ (stall_node i w, i)
  unfolding scan_from
  scan_from-stall n at not_passed = rw (at, scan_from, not_passed)

-- The rounds of the loop of `rcu_shutdown2`.
module _ (fuel : ℕ) (w : World) where
  pub shutdown_rounds-none : handle_of w.nodes ≡ none → shutdown_rounds (suc fuel) w ≡ w
  unfolding shutdown_rounds
  shutdown_rounds-none e = rw (e, shutdown_rounds)

  pub shutdown_rounds-some :
      (qhandle : ℕ)
      → handle_of w.nodes ≡ some qhandle
      → shutdown_rounds (suc fuel) w ≡ shutdown_rounds fuel (rcu_delete_node qhandle w)
  unfolding shutdown_rounds
  shutdown_rounds-some qhandle e = rw (e, shutdown_rounds)
