-- ===== src/Rcu/Hazard/Release.antt =====
-- fastsmr/smrscan.c `smr_release`: what becomes of the work when a thread exits.
use atomic_ptr_plus.Base.{
  ℕ, ◌+◌, ◌-◌, ◌≡◌, refl, List, [], ◌∷◌, some, inl, inr, arith, count, Bool-cases,
}
use atomic_ptr_plus.Fifo.{Ptr}
use atomic_ptr_plus.Rcu.State.{pass2, SmrNode, World, is_nil}
use atomic_ptr_plus.Rcu.Enqueue.{rcu_enqueue}
use atomic_ptr_plus.Rcu.Scan.{rcu_delete_node}
use atomic_ptr_plus.Rcu.Conserve.{Test, queued, queued-rcu_enqueue}
use atomic_ptr_plus.Rcu.Conserve.Ring.{queued-rcu_delete_node}
use atomic_ptr_plus.Rcu.Hazard.{returned, node_of, unlink_node, release_work, smr_release}

queued-release_work :
    (a : Test) (queue : List Ptr) (w : World)
    → queued a (release_work queue w) ≡ queued a w + count a queue
unfolding release_work
queued-release_work a [] w = omega arith
queued-release_work a (work ∷ queue) w =
    let w' = rcu_enqueue work pass2 w in
    omega (
      arith,
      queued-release_work a queue (record w' { smr_count = w'.smr_count - 1 }),
      queued-rcu_enqueue a work pass2 w,
    )

-- A thread that has a node and exits does not abort, and the work is queued as often as before: what
-- waited for hazard pointers goes on when the last node goes, and so does the work of its RCU node.
pub queued-smr_release :
    (a : Test) (tid : ℕ) (w : World) (node : SmrNode)
    → node_of tid w.smr_nodes ≡ some node
    → (w' : World) × (smr_release tid w ≡ returned w') × (queued a w' ≡ queued a w)
unfolding smr_release
queued-smr_release a tid w node here =
    let left = record w { smr_nodes = unlink_node tid w.smr_nodes } in
    elim (Bool-cases (is_nil left.smr_nodes)) [
      | inl last ↦
          let drained = release_work left.smr_queue (record left { smr_queue = [] }) in
          (
            rcu_delete_node node.qhandle drained,
            rw (here, last, smr_release) refl,
            omega (
              arith,
              queued-rcu_delete_node a node.qhandle drained,
              queued-release_work a left.smr_queue (record left { smr_queue = [] }),
            ),
          )
      | inr others ↦ (
        rcu_delete_node node.qhandle left,
        rw (here, others, smr_release) refl,
        queued-rcu_delete_node a node.qhandle left,
      )
    ]
