-- ===== src/Rcu/Poll/Accounts.antt =====
-- fastsmr/fastsmr.c: `deferred_work` is the number of items that are queued.
use atomic_ptr_plus.Base.{◌+◌, ◌≡◌, true, arith, length}
use atomic_ptr_plus.Fifo.{Ptr}
use atomic_ptr_plus.Rcu.State.{pass1, World}
use atomic_ptr_plus.Rcu.Enqueue.{put_ready, rcu_place, smr_enqueue, rcu_enqueue}
use atomic_ptr_plus.Rcu.Scan.{Answers, rcu_scan}
use atomic_ptr_plus.Rcu.Tallies.{tally-scan_from}
use atomic_ptr_plus.Rcu.SmrScan.{Client, smr_scan}
use atomic_ptr_plus.Rcu.SmrScan.Safety.{queued-smr_scan, smr_scan-smr_count}
use atomic_ptr_plus.Rcu.Conserve.{Test, queued, queued-rcu_enqueue}
use atomic_ptr_plus.Rcu.Conserve.Ring.{queued-rcu_scan}
use atomic_ptr_plus.Rcu.Hazard.{returned}
use atomic_ptr_plus.Rcu.Poll.{dated, smr_defer}

abbrev pub all : Test
all _ = true

-- As many items are queued as `deferred_work` counts.
abbrev pub Accounted : World → Type 0
Accounted w = w.deferred_work ≡ queued all w

rcu_enqueue-deferred_work :
    (work : Ptr) (w : World) → (rcu_enqueue work pass1 w).deferred_work ≡ w.deferred_work
unfolding rcu_enqueue rcu_place smr_enqueue put_ready
rcu_enqueue-deferred_work work w = ground arith

pub rcu_scan-deferred_work :
    (ask : Answers) (w : World) → (rcu_scan ask w).deferred_work ≡ w.deferred_work
unfolding rcu_scan
rcu_scan-deferred_work ask w = (tally-scan_from (length w.nodes) 0 ask w).0

-- An item that is deferred is queued and counted.
pub smr_defer-fair :
    (work : Ptr) (w : World)
    → (smr_defer work w).0.deferred_work + queued all w
      ≡ w.deferred_work + queued all (smr_defer work w).0
unfolding smr_defer
smr_defer-fair work w = omega (
  arith,
  rcu_enqueue-deferred_work work (dated work w),
  queued-rcu_enqueue all work pass1 (dated work w),
)

-- Deferring an item keeps the account.
pub smr_defer-Accounted : (work : Ptr) (w : World) → Accounted w → Accounted (smr_defer work w).0
smr_defer-Accounted work w acc = omega (arith, smr_defer-fair work w)

-- A scan of the ring, and a scan of the hazard pointers that returns, keep the account.
pub rcu_scan-Accounted : (ask : Answers) (w : World) → Accounted w → Accounted (rcu_scan ask w)
rcu_scan-Accounted ask w acc =
    omega (arith, rcu_scan-deferred_work ask w, queued-rcu_scan all ask w)

pub smr_scan-Accounted :
    (c : Client) (w w' : World) → Accounted w → smr_scan c w ≡ returned w' → Accounted w'
smr_scan-Accounted c w w' acc done =
    omega (arith, queued-smr_scan c w w' all done, (smr_scan-smr_count c w w' done).2)
