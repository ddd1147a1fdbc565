-- ===== src/Rcu/Tallies.antt =====
-- fastsmr/rcuscan.c: shifting work changes no counter, and a scan keeps the length of the ring.
use atomic_ptr_plus.Base.{
  ℕ, zero, suc, ◌+◌, ◌≡◌, refl, ◌∙◌, ap, inl, inr, List, [], ◌∷◌, ◌++◌, arith, Bool-cases,
  Option-cases, length, modify, get_elem?, ◌≤◌,
}
use atomic_ptr_plus.Fifo.{Ptr}
use atomic_ptr_plus.Rcu.State.{RcuNode, Stats, World, state_idle}
use atomic_ptr_plus.Rcu.Enqueue.{
  put_ready, put_queue0, rcu_place, smr_enqueue, requeue_one, rcu_requeue,
}
use atomic_ptr_plus.Rcu.Scan.{
  Answer, Answers, quiesced, note_node, note_stats, queue1_at, shift_work, pass_node, stall_node,
  scan_from, scan_from-out, scan_from-pass, scan_from-stall,
}

-- The counters, and the length of the ring.
abbrev pub tallies : World → ℕ × Stats × ℕ
tallies w = (w.deferred_work, w.stats, length w.nodes)

length-put_queue0 : (work : Ptr) (ns : List RcuNode) → length (put_queue0 work ns) ≡ length ns
length-put_queue0 work [] = refl
length-put_queue0 work (n ∷ ns) = refl

length-modify :
    (i : ℕ) (f : RcuNode → RcuNode) (ns : List RcuNode) → length (modify i f ns) ≡ length ns
length-modify i f [] = refl
length-modify zero f (n ∷ ns) = refl
length-modify (suc i) f (n ∷ ns) = ap suc (length-modify i f ns)

tallies-requeue_one : (work : Ptr) (w : World) → tallies (requeue_one work w) ≡ tallies w
unfolding requeue_one smr_enqueue rcu_place put_ready
tallies-requeue_one work w = ground (arith, length-put_queue0 work w.nodes)

pub tallies-rcu_requeue : (queue : List Ptr) (w : World) → tallies (rcu_requeue queue w) ≡ tallies w
unfolding rcu_requeue
tallies-rcu_requeue [] w = refl
tallies-rcu_requeue (work ∷ queue) w =
    tallies-rcu_requeue queue (requeue_one work w) ∙ tallies-requeue_one work w

pub tallies-shift_work : (i : ℕ) (w : World) → tallies (shift_work i w) ≡ tallies w
unfolding shift_work
tallies-shift_work i w = ground (
  arith,
  tallies-rcu_requeue (queue1_at i w.nodes) emptied,
  length-modify i (λ n. record n { queue1 = n.queue1 ++ n.queue0; queue0 = [] })
      (rcu_requeue (queue1_at i w.nodes) emptied).nodes,
  length-modify i (λ n. record n { queue1 = [] }) w.nodes,
)
  where
    emptied : World
    emptied = record w { nodes = modify i (λ n. record n { queue1 = [] }) w.nodes }

-- What a pass changes: one more quiescent point.
abbrev tally : World → ℕ × ℕ × ℕ
tally w = (w.deferred_work, w.stats.qpoints, length w.nodes)

pub tally-pass_node :
    (left i : ℕ) (a : Answer) (w : World)
    → tally (pass_node left i a w) ≡ (w.deferred_work, w.stats.qpoints + 1, length w.nodes)
unfolding pass_node
tally-pass_node left i a w = ground (
  arith,
  tallies-shift_work (elim left [ zero ↦ 0 | suc _ ↦ suc i ])
      (record (note_stats a w) { nodes = modify i (note_node a) w.nodes }),
  length-modify i (note_node a) w.nodes,
)

pub tally-stall_node : (i : ℕ) (w : World) → tally (stall_node i w) ≡ tally w
unfolding stall_node
tally-stall_node i w =
    ground (arith, length-modify i (λ m. record m { state = state_idle }) w.nodes)

-- A scan counts one quiescent point for each node that it passes.
pub tally-scan_from :
    (left i : ℕ) (ask : Answers) (w : World)
    → let (w', j) = scan_from left i ask w in
      (w'.deferred_work ≡ w.deferred_work)
      × (w'.stats.qpoints + i ≡ w.stats.qpoints + j)
      × (length w'.nodes ≡ length w.nodes)
      × (i ≤ j)
      × (j ≤ i + left)
unfolding scan_from
tally-scan_from zero i ask w = omega arith
tally-scan_from (suc left) i ask w = elim (Option-cases (get_elem? w.nodes i)) [
  | inl out ↦ rw (scan_from-out left i ask w out) (omega arith)
  | inr (n, at) ↦ elim (Bool-cases (quiesced (ask n.qhandle) n)) [
    | inl passed ↦ rw (scan_from-pass left i ask w n at passed) (
        ground (
          arith,
          tally-scan_from left (suc i) ask (pass_node left i (ask n.qhandle) w),
          tally-pass_node left i (ask n.qhandle) w,
        ))
    | inr not_passed ↦
        rw (scan_from-stall left i ask w n at not_passed) (ground (arith, tally-stall_node i w))
  ]
]
