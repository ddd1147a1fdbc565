-- ===== src/Rcu/Linked/Examples.antt =====
-- The linked ring of fastsmr/rcuscan.c at small inputs.
use atomic_ptr_plus.Base.{
  ◌≡◌, none, some, refl, true, false, [], ◌∷◌, arith, ◌+◌, ◌*◌, ◌==◌, if◌then◌else◌,
}
use atomic_ptr_plus.Fifo.{Ptr, null, write}
use atomic_ptr_plus.Rcu.State.{pass1, fifo, state_none, Defer, RcuNode, Stats, World}
use atomic_ptr_plus.Rcu.Scan.{Answers, rcu_add_node, rcu_shutdown2}
use atomic_ptr_plus.Rcu.Hazard.{returned}
use atomic_ptr_plus.Rcu.Linked.{Ring}
use atomic_ptr_plus.Rcu.Linked.Calls.{scan_linked, add_linked}
use atomic_ptr_plus.Rcu.Linked.View.{view, Represents}
use atomic_ptr_plus.Rcu.Linked.Add.{add_linked-Represents}
use atomic_ptr_plus.Rcu.Linked.Scan.{Scanned, scan_linked-Represents}
use atomic_ptr_plus.Rcu.Linked.Delete.{Deleted, delete_linked-Represents}
use atomic_ptr_plus.Rcu.Linked.Shutdown.{Emptied, shutdown_linked-Emptied}

abbrev items : Ptr → Defer
items p = record {
  func = 1;
  arg = 100 + p;
  forrefs = 2;
  sequence = 0;
  psequence = 500;
  type = fifo;
  state = pass1;
}

abbrev no_stats : Stats
no_stats = record {
  qpoints = 0;
  qexplicit = 0;
  norun = 0;
  qwaits = 0;
  wwaits = 0;
  qtime = 0;
  wtime = 0;
  defers = 0;
  undefers = 0;
  defersigs = 0;
  idle = 0;
  smrempty = 0;
  smrfull = 0;
  smrpartial = 0;
}

-- Node `p` is for the thread `10 * p`; node 3 has work.
abbrev nodes : Ptr → RcuNode
nodes p = record {
  qhandle = 10 * p;
  last_qcount = 0;
  queue0 = (if p == 3 then 5 ∷ [] else []);
  queue1 = (if p == 3 then 6 ∷ 7 ∷ [] else []);
  last_time = 0;
  state = state_none;
}

-- The ring 2 -> 3 -> 4 -> 2.
abbrev three : Ring
three = record {
  next = write (write (write (λ _. null) 2 3) 3 4) 4 2;
  prev = write (write (write (λ _. null) 2 4) 3 2) 4 3;
  current_node = 2;
  store = record {
    node = nodes;
    globals = record {
      heap = items;
      sequences = λ _. 0;
      nodes = [];
      smr_nodes = [];
      smr_queue = [];
      ready_queue = [];
      current = 7;
      smr_count = 0;
      hptr = [];
      hsize = 50;
      deferred_work = 3;
      rcu_stop = false;
      stats = no_stats;
    };
  };
}

abbrev as_list : World
as_list = view (2 ∷ 3 ∷ 4 ∷ []) three.store

three-Represents : Represents three (2 ∷ 3 ∷ 4 ∷ []) as_list
three-Represents = record {
  ring = record {
    forward = (refl, omega arith, refl, (refl, omega arith, refl, (refl, omega arith, refl, refl)));
    backward = (refl, (refl, (refl, tt)));
  };
  same = refl;
}

-- All threads but 40 have passed a quiescent point.
abbrev ask : Answers
ask qhandle = record { now = 1000; qcount = (if qhandle == 40 then 0 else 1); runstate = true }

scan_linked-Represents_example : Scanned 3 ask three as_list
scan_linked-Represents_example =
    scan_linked-Represents 3 ask three (2 ∷ 3 ∷ 4 ∷ []) as_list three-Represents (omega arith)

delete_linked-Represents_example : Deleted 3 30 three as_list
delete_linked-Represents_example =
    delete_linked-Represents 3 30 three (2 ∷ 3 ∷ 4 ∷ []) as_list three-Represents (omega arith)

shutdown_linked-Emptied_example : Emptied 4 3 three (rcu_shutdown2 as_list)
shutdown_linked-Emptied_example =
    shutdown_linked-Emptied 4 3 three (2 ∷ 3 ∷ 4 ∷ []) as_list three-Represents (omega arith)
      (omega arith)

add_linked-Represents_example :
    (r' : Ring) × (add_linked 9 90 ask three ≡ returned r')
    × Represents r' (2 ∷ 3 ∷ 4 ∷ 9 ∷ []) (rcu_add_node 90 ask as_list)
add_linked-Represents_example =
    add_linked-Represents 9 90 ask three (2 ∷ 3 ∷ 4 ∷ []) as_list three-Represents (omega arith)
      refl

-- A scan passes the nodes 2 and 3, and stops at 4: the work of 3 is shifted, that of 4 too.
scan_result : elim (scan_linked 3 ask three) [ none ↦ null | some r ↦ r.current_node ] ≡ 4
unfolding scan_linked
scan_result = refl
