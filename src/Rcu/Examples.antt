-- ===== src/Rcu/Examples.antt =====
-- fastsmr at small inputs.
use atomic_ptr_plus.Base.{
  ℕ, ◌+◌, ◌≡◌, ◌<◌, refl, true, false, some, List, [], ◌∷◌, Bool, arith, ◌==◌, if◌then◌else◌, has,
  length, count,
}
use atomic_ptr_plus.Fifo.{Ptr, null}
use atomic_ptr_plus.Rcu.State.{pass1, fifo, state_none, Defer, RcuNode, Stats, World}
use atomic_ptr_plus.Rcu.Enqueue.{rcu_enqueue, rcu_requeue}
use atomic_ptr_plus.Rcu.Scan.{Answers, rcu_scan, rcu_shutdown2}
use atomic_ptr_plus.Rcu.Hazard.{
  returned, aborted, node_of, smr_alloc, smr_dealloc, smr_check, smr_release,
}
use atomic_ptr_plus.Rcu.Hazard.Pairs.{smr_dealloc-smr_alloc}
use atomic_ptr_plus.Rcu.Hazard.Release.{queued-smr_release}
use atomic_ptr_plus.Rcu.SmrScan.{Client, smr_scan}
use atomic_ptr_plus.Rcu.Conserve.{Test, queued, one_if}
use atomic_ptr_plus.Rcu.Conserve.Ring.{queued-rcu_scan}
use atomic_ptr_plus.Rcu.SmrScan.Safety.{smr_scan-keeps, smr_scan-smr_count}
use atomic_ptr_plus.Rcu.Shutdown.{rcu_shutdown2-empties}
use atomic_ptr_plus.Rcu.Grace.{Located, delay}
use atomic_ptr_plus.Rcu.Grace.Wait.{rcu_scan-waits, rcu_scans, rcu_enqueue-waits}
use atomic_ptr_plus.Rcu.Poll.Accounts.{all}

-- Item `p` is about the object `100 + p`.
abbrev pub items : Ptr → Defer
items p = record {
  func = 1;
  arg = 100 + p;
  forrefs = 2;
  sequence = 0;
  psequence = 500;
  type = fifo;
  state = pass1;
}

abbrev no_stats : Stats
no_stats = record {
  qpoints = 0;
  qexplicit = 0;
  norun = 0;
  qwaits = 0;
  wwaits = 0;
  qtime = 0;
  wtime = 0;
  defers = 0;
  undefers = 0;
  defersigs = 0;
  idle = 0;
  smrempty = 0;
  smrfull = 0;
  smrpartial = 0;
}

abbrev pub node : ℕ → List Ptr → List Ptr → RcuNode
node qhandle q0 q1 = record {
  qhandle = qhandle;
  last_qcount = 0;
  queue0 = q0;
  queue1 = q1;
  last_time = 0;
  state = state_none;
}

-- Two nodes; one thread holds the object of item 3; items 3 and 4 wait for hazard pointers.
abbrev pub busy : World
busy = record {
  heap = items;
  sequences = λ _. 0;
  nodes = node 1 (5 ∷ []) [] ∷ node 2 [] (6 ∷ []) ∷ [];
  smr_nodes = record { tid = 1; qhandle = 1; ndx = 2; hcount = 2; hptr0 = 103; hptr1 = null } ∷ [];
  smr_queue = 3 ∷ 4 ∷ [];
  ready_queue = [];
  current = 7;
  smr_count = 2;
  hptr = [];
  hsize = 50;
  deferred_work = 4;
  rcu_stop = false;
  stats = no_stats;
}

abbrev pub client : Client
client = record { refs = λ f a s. []; realloc_ok = λ n. true }

-- The first node has passed a quiescent point, the second has not.
abbrev pub answers : Answers
answers h = record { now = 9; qcount = if h == 1 then 1 else 0; runstate = true }

abbrev scanned : World
unfolding smr_scan
scanned = elim (smr_scan client busy) [ aborted ↦ busy | returned w ↦ w ]

smr_scan-keeps_example : has 3 scanned.smr_queue ≡ true
unfolding smr_scan
smr_scan-keeps_example = smr_scan-keeps client busy scanned 3 refl refl refl refl

-- Item 4 belongs to the same queue as item 3, and waits behind it.
smr_scan_result : scanned.smr_queue ≡ 3 ∷ 4 ∷ []
unfolding smr_scan
smr_scan_result = refl

smr_scan-smr_count_example :
    (scanned.smr_count ≡ 2) × (scanned.stats.smrfull ≡ 0) × (scanned.deferred_work ≡ 4)
unfolding smr_scan
smr_scan-smr_count_example = smr_scan-smr_count client busy scanned refl

queued-rcu_scan_example : queued all (rcu_scan answers busy) ≡ 4
queued-rcu_scan_example = queued-rcu_scan all answers busy

rcu_shutdown2-empties_example :
    let w = rcu_shutdown2 busy in
    (length w.nodes ≡ 0) × (count all w.smr_queue + count all w.ready_queue ≡ 4)
rcu_shutdown2-empties_example = rcu_shutdown2-empties all busy

-- The scan passes the first node, shifts the second and stops there.
rcu_scan_result :
    let w = rcu_scan answers busy in (w.stats.qpoints ≡ 1) × (w.smr_queue ≡ 3 ∷ 4 ∷ 6 ∷ [])
unfolding rcu_scan rcu_requeue
rcu_scan_result = (refl, refl)

rcu_scan-waits_example :
    let w = rcu_scan answers busy in
    (length w.nodes ≡ 2)
    × ((p : ℕ) × (fresh : Bool) × (p < 2)
        × Located 5 p fresh w.nodes
        × (delay 2 0 p fresh + w.stats.qpoints ≡ 4))
unfolding rcu_scan rcu_requeue
rcu_scan-waits_example = rcu_scan-waits answers busy 5 0 true (omega arith) refl (omega arith)

-- Two scans follow that note one quiescent point each.
rcu_enqueue-waits_example :
    let w = rcu_scans (answers ∷ answers ∷ []) (rcu_enqueue 9 pass1 busy) in
    (((rcu_enqueue 9 pass1 busy).heap 9).state ≡ pass1)
    × ((a : Test) → queued a w ≡ queued a busy + one_if a 9)
    × (length w.nodes ≡ 2)
    × ((p : ℕ) × (fresh : Bool) × (p < 2)
        × Located 9 p fresh w.nodes
        × (delay 2 0 p fresh + w.stats.qpoints ≡ 4))
unfolding rcu_scan rcu_requeue rcu_scans rcu_enqueue
rcu_enqueue-waits_example =
    rcu_enqueue-waits 9 pass1 (answers ∷ answers ∷ []) busy (omega arith) (omega arith)

-- The thread 1 has a node with a free pair.
abbrev unused : World
unused = record busy {
  smr_nodes = record { tid = 1; qhandle = 1; ndx = 0; hcount = 2; hptr0 = null; hptr1 = null } ∷ [];
}

smr_dealloc-smr_alloc_example :
    (taken : World) × (smr_alloc 1 unused ≡ returned (taken, some 0))
    × (smr_alloc 1 taken ≡ aborted)
    × (smr_check 1 taken ≡ true)
    × (given : World) × (smr_dealloc (λ slot h. (null, null)) 1 (some 0) taken ≡ returned given)
    × (node_of 1 given.smr_nodes
        ≡ some (record { tid = 1; qhandle = 1; ndx = 0; hcount = 2; hptr0 = null; hptr1 = null }))
    × (smr_check 1 given ≡ false)
smr_dealloc-smr_alloc_example =
    smr_dealloc-smr_alloc (λ slot h. (null, null)) 1 unused
      (record { tid = 1; qhandle = 1; ndx = 0; hcount = 2; hptr0 = null; hptr1 = null }) refl refl
      refl

queued-smr_release_example :
    (w' : World) × (smr_release 1 unused ≡ returned w') × (queued all w' ≡ queued all unused)
queued-smr_release_example =
    queued-smr_release all 1 unused
      (record { tid = 1; qhandle = 1; ndx = 0; hcount = 2; hptr0 = null; hptr1 = null }) refl
