-- ===== src/Rcu/SmrScan/Safety.antt =====
-- fastsmr/smrscan.c `smr_scan`: what a scan guarantees of the items that wait for hazard pointers.
use atomic_ptr_plus.Base.{
  ◌+◌, ◌≡◌, refl, ◌∙◌, ap, inl, inr, List, [], ◌++◌, arith, true, false, Bool-cases, ◌==◌, ◌%◌, ◌^◌,
  has, has-append, has-keep, nodup, keep,
}
use atomic_ptr_plus.Fifo.{Ptr}
use atomic_ptr_plus.Rcu.State.{World}
use atomic_ptr_plus.Rcu.Conserve.{Test, queued}
use atomic_ptr_plus.Rcu.Hazard.{returned}
use atomic_ptr_plus.Rcu.SmrScan.{
  Client, copy_nodes, mark_all, sort_all, count_scan, scan_queue, smr_scan,
}
use atomic_ptr_plus.Rcu.SmrScan.Ensures.{Ensures, Ensures-bind, Ensures-mono, Ensures-returned}
use atomic_ptr_plus.Rcu.SmrScan.Frame.{unmarked, unmarked-mark_all}
use atomic_ptr_plus.Rcu.SmrScan.Marked.{Marked, Marked-mark_all_held}
use atomic_ptr_plus.Rcu.SmrScan.Copy.{hazards, IsCopy, copy_nodes-IsCopy}
use atomic_ptr_plus.Rcu.SmrScan.Sort.{
  is_marked, sort_all-smr_queue, counters, counters-sort_all, queued-sort_all,
}

-- The state in which a scan copies the hazard pointers, and the state in which it marks.
abbrev pub begun : World → World
begun w = record w { current = (w.current + 1) % 2 ^ 32; hptr = [] }

abbrev pub emptied : World → World
emptied u = record u { smr_queue = [] }

module _ (c : Client) (w : World) where
  -- A scan of the queue in its three parts: what holds of every marked state holds at the end.
  pub scan_queue-Ensures :
      (Q : World → Type 0)
      → ((u : World)
          → IsCopy (hazards w.smr_nodes) (begun w) u
          → Ensures (λ m. Q (sort_all u.smr_queue m)) (mark_all c u.smr_queue (emptied u)))
      → Ensures Q (scan_queue c w)
  unfolding scan_queue
  scan_queue-Ensures Q marked =
      Ensures-bind (IsCopy (hazards w.smr_nodes) (begun w)) Q (copy_nodes c w.smr_nodes (begun w)) _
        (copy_nodes-IsCopy c w.smr_nodes (begun w))
        λ u copied.
          Ensures-bind (λ m. Q (sort_all u.smr_queue m)) Q (mark_all c u.smr_queue (emptied u)) _
            (marked u copied) λ m q. q

  scan_queue-keeps :
      (x : Ptr)
      → has x w.smr_queue ≡ true
      → nodup w.smr_queue ≡ true
      → has (w.heap x).arg (hazards w.smr_nodes) ≡ true
      → Ensures (λ w'. has x w'.smr_queue ≡ true) (scan_queue c w)
  scan_queue-keeps x on once held =
      scan_queue-Ensures (λ w'. has x w'.smr_queue ≡ true)
        λ u copied.
          let same_queue : u.smr_queue ≡ w.smr_queue = ap (λ v. v.smr_queue) copied in
          let still : has x u.smr_queue ≡ true = ap (has x) same_queue ∙ on in
          Ensures-mono (Marked x) (λ m. has x (sort_all u.smr_queue m).smr_queue ≡ true)
            (mark_all c u.smr_queue (emptied u))
            (Marked-mark_all_held c x u.smr_queue (emptied u) still (ap nodup same_queue ∙ once)
              (ap (λ v. has (v.heap x).arg v.hptr) copied ∙ held))
            λ m mark.
              ap (has x) (sort_all-smr_queue u.smr_queue m) ∙ has-kept m u.smr_queue still mark
    where
      has-kept :
          (m : World) (queue : List Ptr)
          → has x queue ≡ true
          → Marked x m
          → has x (m.smr_queue ++ keep (is_marked m) queue) ≡ true
      has-kept m queue still mark =
          has-append x m.smr_queue (keep (is_marked m) queue)
          ∙ ground (arith, has-keep (is_marked m) x queue)

  counters-scan_queue : Ensures (λ w'. counters w' ≡ counters w) (scan_queue c w)
  counters-scan_queue =
      scan_queue-Ensures (λ w'. counters w' ≡ counters w)
        λ u copied.
          Ensures-mono (λ m. unmarked m ≡ unmarked (emptied u))
            (λ m. counters (sort_all u.smr_queue m) ≡ counters w)
            (mark_all c u.smr_queue (emptied u)) (unmarked-mark_all c u.smr_queue (emptied u))
            λ m same. counters-sort_all u.smr_queue m ∙ ap counters same ∙ ap counters copied

  queued-scan_queue : (a : Test) → Ensures (λ w'. queued a w' ≡ queued a w) (scan_queue c w)
  queued-scan_queue a =
      scan_queue-Ensures (λ w'. queued a w' ≡ queued a w)
        λ u copied.
          Ensures-mono (λ m. unmarked m ≡ unmarked (emptied u))
            (λ m. queued a (sort_all u.smr_queue m) ≡ queued a w)
            (mark_all c u.smr_queue (emptied u)) (unmarked-mark_all c u.smr_queue (emptied u))
            λ m same.
              omega
                (arith, queued-sort_all a u.smr_queue m, ap (queued a) same, ap (queued a) copied)

  abbrev pub idled : World
  idled = record w { stats = record w.stats { smrempty = w.stats.smrempty + 1 } }

  -- A scan with nothing to do only counts that; any other ends by counting what it found.
  pub smr_scan-Ensures :
      (Q : World → Type 0)
      → Q idled
      → ((w.smr_count == 0) ≡ false → Ensures (λ s. Q (count_scan s)) (scan_queue c w))
      → Ensures Q (smr_scan c w)
  unfolding smr_scan
  smr_scan-Ensures Q idle scanned = elim (Bool-cases (w.smr_count == 0)) [
    | inl none_counted ↦ rw none_counted idle
    | inr some_counted ↦
        rw some_counted (
          Ensures-bind (λ s. Q (count_scan s)) Q (scan_queue c w) _ (scanned some_counted) λ s q. q)
  ]

  -- A scan that returns keeps every waiting item whose `arg` is one of the hazard pointers in use:
  -- the item still waits. No item is on the queue twice.
  pub smr_scan-keeps :
      (w' : World) (x : Ptr)
      → smr_scan c w ≡ returned w'
      → has x w.smr_queue ≡ true
      → nodup w.smr_queue ≡ true
      → has (w.heap x).arg (hazards w.smr_nodes) ≡ true
      → has x w'.smr_queue ≡ true
  smr_scan-keeps w' x done on once held =
      Ensures-returned (λ v. has x v.smr_queue ≡ true) (smr_scan c w) w'
        (smr_scan-Ensures (λ v. has x v.smr_queue ≡ true) on
          λ _.
            Ensures-mono (λ s. has x s.smr_queue ≡ true)
              (λ s. has x (count_scan s).smr_queue ≡ true) (scan_queue c w)
              (scan_queue-keeps x on once held) λ s still. ap (has x) (queue_kept s) ∙ still)
        done
    where
      queue_kept : (s : World) → (count_scan s).smr_queue ≡ s.smr_queue
      queue_kept s = unfold count_scan in ground arith

  -- A scan that returns queues each item as often as before.
  pub queued-smr_scan :
      (w' : World) (a : Test) → smr_scan c w ≡ returned w' → queued a w' ≡ queued a w
  queued-smr_scan w' a done =
      Ensures-returned (λ v. queued a v ≡ queued a w) (smr_scan c w) w'
        (smr_scan-Ensures (λ v. queued a v ≡ queued a w) refl
          λ _.
            Ensures-mono (λ s. queued a s ≡ queued a w) (λ s. queued a (count_scan s) ≡ queued a w)
              (scan_queue c w) (queued-scan_queue a) λ s same. queue_kept s ∙ same)
        done
    where
      queue_kept : (s : World) → queued a (count_scan s) ≡ queued a s
      queue_kept s = unfold count_scan in ground arith

  -- No scan takes from `smr_count`, whatever it passes on, and so none counts as full. Nor does a
  -- scan change how much deferred work is counted.
  pub smr_scan-smr_count :
      (w' : World)
      → smr_scan c w ≡ returned w'
      → (w'.smr_count ≡ w.smr_count)
        × (w'.stats.smrfull ≡ w.stats.smrfull)
        × (w'.deferred_work ≡ w.deferred_work)
  smr_scan-smr_count w' done =
      Ensures-returned Same (smr_scan c w) w'
        (smr_scan-Ensures Same (refl, refl, refl)
          λ some_counted.
            Ensures-mono (λ s. counters s ≡ counters w) (λ s. Same (count_scan s)) (scan_queue c w)
              counters-scan_queue
              λ s same.
                counted s some_counted (ap (λ t. t.0) same) (ap (λ t. t.1) same)
                  (ap (λ t. t.2.smrfull) same))
        done
    where
      Same : World → Type 0
      Same v =
          (v.smr_count ≡ w.smr_count)
          × (v.stats.smrfull ≡ w.stats.smrfull)
          × (v.deferred_work ≡ w.deferred_work)

      counted :
          (s : World)
          → (w.smr_count == 0) ≡ false
          → s.smr_count ≡ w.smr_count
          → s.deferred_work ≡ w.deferred_work
          → s.stats.smrfull ≡ w.stats.smrfull
          → Same (count_scan s)
      counted s some_counted counts work full = unfold count_scan in ground arith
