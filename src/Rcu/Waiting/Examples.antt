-- ===== src/Rcu/Waiting/Examples.antt =====
-- fastsmr: an item that is deferred while a hazard pointer refers to its object, at small inputs.
use atomic_ptr_plus.Base.{ℕ, ◌≤◌, ◌≡◌, refl, true, [], ◌∷◌, arith, count}
use atomic_ptr_plus.Fifo.{Ptr}
use atomic_ptr_plus.Rcu.State.{World}
use atomic_ptr_plus.Rcu.Enqueue.{rcu_enqueue, rcu_requeue}
use atomic_ptr_plus.Rcu.Scan.{Answers, rcu_scan}
use atomic_ptr_plus.Rcu.Conserve.{queued}
use atomic_ptr_plus.Rcu.Hazard.{returned, aborted}
use atomic_ptr_plus.Rcu.SmrScan.{smr_scan}
use atomic_ptr_plus.Rcu.Poll.{smr_defer}
use atomic_ptr_plus.Rcu.Waiting.{is}
use atomic_ptr_plus.Rcu.Waiting.Safety.{
  Turns, none_yet, then_one, scan_ring, scan_hazards, take_ready, defer, held-uncalled,
}
use atomic_ptr_plus.Rcu.Examples.{node, busy, client}

-- Only item 4 waits. The hazard pointer of the one thread refers to the object of item 3.
abbrev early : World
early = record busy {
  nodes = node 1 [] [] ∷ node 2 [] [] ∷ [];
  smr_queue = 4 ∷ [];
  smr_count = 1;
  deferred_work = 1;
}

-- Both nodes have passed a quiescent point since their count was lower.
abbrev passed : ℕ → Answers
passed seen _ = record { now = 9; qcount = seen; runstate = true }

abbrev on_ring : World
unfolding smr_defer rcu_scan rcu_requeue rcu_enqueue
on_ring = (smr_defer 9 (rcu_scan (passed 1) (smr_defer 3 early).0)).0

abbrev off_ring : World
unfolding rcu_scan rcu_requeue
off_ring = rcu_scan (passed 2) on_ring

abbrev scanned : World
unfolding smr_scan
scanned = elim (smr_scan client off_ring) [ aborted ↦ off_ring | returned w ↦ w ]

once_each : (p : Ptr) → queued (is p) early ≤ 1
once_each p = ground arith

what_follows : Turns 3 (smr_defer 3 early).0 (record scanned { ready_queue = [] })
unfolding smr_defer rcu_scan rcu_requeue rcu_enqueue smr_scan
what_follows =
    then_one
      (then_one
        (then_one (then_one (then_one none_yet (scan_ring (passed 1))) (defer 9 refl))
          (scan_ring (passed 2)))
        (scan_hazards client refl))
      take_ready

-- The item has left the ring.
scanned_result : scanned.smr_queue ≡ 3 ∷ []
unfolding smr_defer rcu_scan rcu_requeue rcu_enqueue smr_scan
scanned_result = refl

held-uncalled_example :
    (count (is 3) [] ≡ 0) × (queued (is 3) (record scanned { ready_queue = [] }) ≡ 1)
held-uncalled_example =
    held-uncalled 3 early (record scanned { ready_queue = [] }) once_each refl refl what_follows
