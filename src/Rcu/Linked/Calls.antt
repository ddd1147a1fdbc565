-- ===== src/Rcu/Linked/Calls.antt =====
-- The functions of fastsmr/rcuscan.c on the ring as it is linked in memory.
use atomic_ptr_plus.Base.{
  ℕ, zero, suc, ◌+◌, [], ◌++◌, Bool, true, false, not, Option, none, some, ◌&&◌, ◌==◌,
  if◌then◌else◌,
}
use atomic_ptr_plus.Fifo.{Ptr, null, Links, write}
use atomic_ptr_plus.Rcu.State.{state_none, state_idle, is_nil}
use atomic_ptr_plus.Rcu.Scan.{Answer, Answers, quiesced, note_node, note_stats}
use atomic_ptr_plus.Rcu.Hazard.{Outcome, aborted, returned}
use atomic_ptr_plus.Rcu.Linked.{Store, Ring, set_node, requeue_queue0, requeue_queue1}

-- `rcu_add_node`; `malloc` gives `node`.
unfoldable pub add_linked : (node : Ptr) (qhandle : ℕ) → Answers → Ring → Outcome Ring
add_linked node qhandle ask r =
    let store =
      set_node node
        (record {
          qhandle = qhandle;
          last_qcount = (ask qhandle).qcount;
          queue0 = [];
          queue1 = [];
          last_time = 0;
          state = state_none;
        })
        r.store in
    if node == null
    then aborted
    else if r.current_node == null
    then returned (record {
      next = write r.next node node;
      prev = write r.prev node node;
      current_node = node;
      store = store;
    })
    else (let prev = write (write r.prev node (r.prev r.current_node)) r.current_node node in
        returned (record r {
          next = write (write r.next node r.current_node) (prev node) node;
          prev = prev;
          store = store;
        }))

-- The lookup of `rcu_delete_node`, standing at `node`: the node with the handle, or the current
-- node again. `none` is out of fuel.
unfoldable pub find_linked : ℕ → (qhandle : ℕ) → Ring → (node : Ptr) → Option Ptr
find_linked zero qhandle r node = none
find_linked (suc fuel) qhandle r node =
    let rest = find_linked fuel qhandle r (r.next node) in
    if (r.store.node node).qhandle == qhandle
    then some node
    else if r.next node == r.current_node
    then some (r.next node)
    else rest

-- The two calls of `fifo_requeue`: the work of `p` goes behind that of `q`.
abbrev pub give_work : (q p : Ptr) → Store → Store
give_work q p s =
    let s =
      set_node p (record (s.node p) { queue0 = [] })
        (set_node q (record (s.node q) { queue0 = (s.node q).queue0 ++ (s.node p).queue0 }) s) in
    set_node p (record (s.node p) { queue1 = [] })
      (set_node q (record (s.node q) { queue1 = (s.node q).queue1 ++ (s.node p).queue1 }) s)

-- The only node is taken off.
unfoldable pub delete_last : Ptr → Ring → Ring
unfolding requeue_queue0 requeue_queue1
delete_last node r = record r {
  current_node = null;
  store = requeue_queue1 null node (requeue_queue0 null node r.store);
}

-- One node of several is taken off.
unfoldable pub unlink : Ptr → Ring → Ring
unlink node r =
    let next = write r.next (r.prev node) (r.next node) in
    let prev = write r.prev (next node) (r.prev node) in
    record {
      next = next;
      prev = prev;
      current_node = (if r.current_node == node then r.next node else r.current_node);
      store = give_work (prev node) node r.store;
    }

-- The two checks of the queues at the end of `rcu_delete_node`.
unfoldable pub checked : Ptr → Ring → Outcome Ring
checked node r =
    if is_nil (r.store.node node).queue0 && is_nil (r.store.node node).queue1
    then returned r
    else aborted

-- `rcu_delete_node` from the end of the lookup on.
unfoldable pub delete_found : ℕ → Ptr → Ring → Outcome Ring
unfolding delete_last unlink checked
delete_found qhandle node r =
    if (r.store.node node).qhandle == qhandle
    then checked node (if r.next node == node then delete_last node r else unlink node r)
    else returned r

unfoldable pub delete_linked : (fuel qhandle : ℕ) → Ring → Option (Outcome Ring)
unfolding find_linked delete_found
delete_linked fuel qhandle r =
    if r.current_node == null
    then some (returned r)
    else elim (find_linked fuel qhandle r r.current_node) [
      | none ↦ none
      | some node ↦ some (delete_found qhandle node r)
    ]

-- The loop of `rcu_shutdown2`, with fuel for its rounds and for the lookup of each.
unfoldable pub shutdown_linked : (fuel lookups : ℕ) → Ring → Option (Outcome Ring)
unfolding delete_linked
shutdown_linked zero lookups r = none
shutdown_linked (suc fuel) lookups r = elim (r.current_node == null) [
  | true ↦ some (returned r)
  | false ↦ elim (delete_linked lookups (r.store.node r.current_node).qhandle r) [
    | none ↦ none
    | some aborted ↦ some aborted
    | some (returned r') ↦ shutdown_linked fuel lookups r'
  ]
]

-- `rcu_incoming`: is there new work on the current node?
unfoldable pub incoming_linked : Ring → Bool
incoming_linked r =
    if r.current_node == null then false else not (is_nil (r.store.node r.current_node).queue0)

-- `rcu_requeue(&(node->queue1))` and then `fifo_requeue(&(node->queue1), &(node->queue0))`.
unfoldable pub shift_linked : (current_node p : Ptr) → Store → Store
unfolding requeue_queue1
shift_linked current_node p s =
    let s = requeue_queue1 current_node p s in
    set_node p (record (s.node p) { queue1 = (s.node p).queue1 ++ (s.node p).queue0; queue0 = [] })
      s

-- A node that has passed a quiescent point, and one that has not.
unfoldable pub note_linked : Answer → Ptr → Store → Store
note_linked p node s =
    set_node node (note_node p (s.node node)) (record s { globals = note_stats p s.globals })

unfoldable pub stall_linked : Ptr → Store → Store
stall_linked node s =
    set_node node (record (s.node node) { state = state_idle })
      (record s {
        globals = record s.globals {
          stats = record s.globals.stats { idle = s.globals.stats.idle + 1 };
        };
      })

-- The loop of `rcu_scan`, standing at `node`: the store, and where the loop stopped.
unfoldable pub scan_rounds :
    ℕ → Answers → Links → (current_node node : Ptr) → Store → Option (Store × Ptr)
unfolding shift_linked note_linked stall_linked
scan_rounds zero ask next current_node node s = none
scan_rounds (suc fuel) ask next current_node node s =
    let p = ask (s.node node).qhandle in
    let s' = shift_linked current_node (next node) (note_linked p node s) in
    let rest = scan_rounds fuel ask next current_node (next node) s' in
    if quiesced p (s.node node)
    then (if next node == current_node then some (s', next node) else rest)
    else some (stall_linked node s, node)

unfoldable pub scan_linked : ℕ → Answers → Ring → Option Ring
unfolding scan_rounds
scan_linked fuel ask r =
    if r.current_node == null
    then some r
    else elim (scan_rounds fuel ask r.next r.current_node r.current_node r.store) [
      | none ↦ none
      | some (store, node) ↦ some (record r { current_node = node; store = store })
    ]
