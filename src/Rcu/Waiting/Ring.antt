-- ===== src/Rcu/Waiting/Ring.antt =====
-- fastsmr/rcuscan.c `rcu_scan`: an item that waits goes on waiting.
use atomic_ptr_plus.Base.{
  ℕ, zero, suc, ◌≤◌, refl, [], inl, inr, arith, Bool-cases, Option-cases, get_elem?, modify, length,
}
use atomic_ptr_plus.Fifo.{Ptr}
use atomic_ptr_plus.Rcu.State.{World}
use atomic_ptr_plus.Rcu.Conserve.{queued}
use atomic_ptr_plus.Rcu.Conserve.Ring.{
  queued-pass_node, count_nodes-take_queue1, count_nodes-modify,
}
use atomic_ptr_plus.Rcu.Scan.{
  Answer, Answers, quiesced, note_node, note_stats, queue1_at, shift_work, pass_node, stall_node,
  scan_from, rcu_scan, scan_from-out, scan_from-pass, scan_from-stall,
}
use atomic_ptr_plus.Rcu.Waiting.{is, Waits, Waits-rcu_requeue}

module _ (x : Ptr) where
  Waits-shift_work :
      (i : ℕ) (w : World) → Waits x w → queued (is x) w ≤ 1 → Waits x (shift_work i w)
  unfolding shift_work
  Waits-shift_work i w h once =
      Waits-rcu_requeue x (queue1_at i w.nodes)
        (record w { nodes = modify i (λ n. record n { queue1 = [] }) w.nodes }) h
        (omega (arith, count_nodes-take_queue1 (is x) i w.nodes))

  Waits-pass_node :
      (left i : ℕ) (p : Answer) (w : World)
      → Waits x w
      → queued (is x) w ≤ 1
      → Waits x (pass_node left i p w)
  unfolding pass_node
  Waits-pass_node left i p w h once =
      Waits-shift_work (elim left [ zero ↦ 0 | suc _ ↦ suc i ])
        (record (note_stats p w) { nodes = modify i (note_node p) w.nodes }) h
        (omega (arith, count_nodes-modify (is x) (note_node p) i w.nodes (λ n. refl)))

  Waits-scan_from :
      (left i : ℕ) (ask : Answers) (w : World)
      → Waits x w
      → queued (is x) w ≤ 1
      → Waits x (scan_from left i ask w).0
  unfolding scan_from stall_node
  Waits-scan_from zero i ask w h once = h
  Waits-scan_from (suc left) i ask w h once = elim (Option-cases (get_elem? w.nodes i)) [
    | inl out ↦ rw (scan_from-out left i ask w out) h
    | inr (n, at) ↦ elim (Bool-cases (quiesced (ask n.qhandle) n)) [
      | inl passed ↦
          let p = ask n.qhandle in
          rw (scan_from-pass left i ask w n at passed) (
            Waits-scan_from left (suc i) ask (pass_node left i p w)
              (Waits-pass_node left i p w h once)
              (omega (arith, queued-pass_node (is x) left i p w)))
      | inr not_passed ↦ rw (scan_from-stall left i ask w n at not_passed) h
    ]
  ]

  pub Waits-rcu_scan :
      (ask : Answers) (w : World) → Waits x w → queued (is x) w ≤ 1 → Waits x (rcu_scan ask w)
  unfolding rcu_scan
  Waits-rcu_scan ask w h once = Waits-scan_from (length w.nodes) 0 ask w h once
