-- ===== src/Rcu/Grace/Shift.antt =====
-- fastsmr/rcuscan.c: passing one node shifts the work of the next, and moves no other item.
use atomic_ptr_plus.Base.{
  ℕ, zero, suc, ◌≡◌, ◌≢◌, refl, ◌∙◌, ap, ◌⊎◌, inl, inr, List, [], ◌∷◌, ◌++◌, Bool, true, false,
  arith, has-append, modify,
}
use atomic_ptr_plus.Fifo.{Ptr}
use atomic_ptr_plus.Rcu.State.{state_idle, RcuNode, World}
use atomic_ptr_plus.Rcu.Enqueue.{
  put_ready, put_queue0, rcu_place, smr_enqueue, requeue_one, rcu_requeue,
}
use atomic_ptr_plus.Rcu.Scan.{Answer, note_node, queue1_at, shift_work, stall_node}
use atomic_ptr_plus.Rcu.Grace.{Located}

module _ (x : Ptr) (p : ℕ) (fresh : Bool) where
  Located-put_queue0 :
      (work : Ptr) (ns : List RcuNode)
      → Located x p fresh ns
      → Located x p fresh (put_queue0 work ns)
  Located-put_queue0 work [] at = at
  Located-put_queue0 work (n ∷ ns) at = go p fresh at
    where
      go :
          (p : ℕ) (fresh : Bool)
          → Located x p fresh (n ∷ ns)
          → Located x p fresh (put_queue0 work (n ∷ ns))
      go zero true at = has-append x n.queue0 (work ∷ []) ∙ ground arith
      go zero false at = at
      go (suc p) fresh at = at

  -- A change of one node that keeps its queues.
  Located-modify_same :
      (f : RcuNode → RcuNode)
      → ((n : RcuNode) → ((f n).queue0 ≡ n.queue0) × ((f n).queue1 ≡ n.queue1))
      → (i : ℕ) (ns : List RcuNode) → Located x p fresh ns
      → Located x p fresh (modify i f ns)
  Located-modify_same f same i ns at = go p i ns at
    where
      go : (p i : ℕ) (ns : List RcuNode) → Located x p fresh ns → Located x p fresh (modify i f ns)
      go p i [] at = at
      go zero zero (n ∷ ns) at = ground (arith, same n)
      go (suc p) zero (n ∷ ns) at = at
      go zero (suc i) (n ∷ ns) at = at
      go (suc p) (suc i) (n ∷ ns) at = go p i ns at

  -- A change of another node.
  Located-modify_ne :
      (f : RcuNode → RcuNode) (i : ℕ) (ns : List RcuNode)
      → i ≢ p
      → Located x p fresh ns
      → Located x p fresh (modify i f ns)
  Located-modify_ne f i ns ne at = go p i ns ne at
    where
      go :
          (p i : ℕ) (ns : List RcuNode)
          → i ≢ p
          → Located x p fresh ns
          → Located x p fresh (modify i f ns)
      go p i [] ne at = at
      go zero zero (n ∷ ns) ne at = absurd (ne refl)
      go (suc p) zero (n ∷ ns) ne at = at
      go zero (suc i) (n ∷ ns) ne at = at
      go (suc p) (suc i) (n ∷ ns) ne at = go p i ns (λ e. ne (ap suc e)) at

requeue_one-nodes :
    (work : Ptr) (w : World)
    → ((requeue_one work w).nodes ≡ w.nodes)
      ⊎ ((requeue_one work w).nodes ≡ put_queue0 work w.nodes)
unfolding requeue_one smr_enqueue rcu_place put_ready
requeue_one-nodes work w = ground arith

-- Passing other items on moves no item of the ring.
Located-rcu_requeue :
    (x : Ptr) (p : ℕ) (fresh : Bool) (queue : List Ptr) (w : World)
    → Located x p fresh w.nodes
    → Located x p fresh (rcu_requeue queue w).nodes
unfolding rcu_requeue
Located-rcu_requeue x p fresh [] w at = at
Located-rcu_requeue x p fresh (work ∷ queue) w at =
    Located-rcu_requeue x p fresh queue (requeue_one work w) (elim (requeue_one-nodes work w) [
      | inl same ↦ rw same at
      | inr put ↦ rw put (Located-put_queue0 x p fresh work w.nodes at)
    ])

module _ (x : Ptr) (p : ℕ) where
  Located-join :
      (ns : List RcuNode)
      → Located x p true ns
      → Located x p false
          (modify p (λ n. record n { queue1 = n.queue1 ++ n.queue0; queue0 = [] }) ns)
  Located-join ns at = go p ns at
    where
      go :
          (p : ℕ) (ns : List RcuNode)
          → Located x p true ns
          → Located x p false
              (modify p (λ n. record n { queue1 = n.queue1 ++ n.queue0; queue0 = [] }) ns)
      go p [] at = at
      go zero (n ∷ ns) at = has-append x n.queue1 n.queue0 ∙ ground arith
      go (suc p) (n ∷ ns) at = go p ns at

  Located-clear :
      (i : ℕ) (ns : List RcuNode)
      → Located x p true ns
      → Located x p true (modify i (λ n. record n { queue1 = [] }) ns)
  Located-clear i ns at = go p i ns at
    where
      go :
          (p i : ℕ) (ns : List RcuNode)
          → Located x p true ns
          → Located x p true (modify i (λ n. record n { queue1 = [] }) ns)
      go p i [] at = at
      go zero zero (n ∷ ns) at = at
      go (suc p) zero (n ∷ ns) at = at
      go zero (suc i) (n ∷ ns) at = at
      go (suc p) (suc i) (n ∷ ns) at = go p i ns at

  pub Located-shift_work_self :
      (w : World) → Located x p true w.nodes → Located x p false (shift_work p w).nodes
  unfolding shift_work
  Located-shift_work_self w at =
      Located-join (rcu_requeue (queue1_at p w.nodes) emptied).nodes
        (Located-rcu_requeue x p true (queue1_at p w.nodes) emptied (Located-clear p w.nodes at))
    where
      emptied : World
      emptied = record w { nodes = modify p (λ n. record n { queue1 = [] }) w.nodes }

  pub Located-shift_work_ne :
      (fresh : Bool) (i : ℕ) (w : World)
      → i ≢ p
      → Located x p fresh w.nodes
      → Located x p fresh (shift_work i w).nodes
  unfolding shift_work
  Located-shift_work_ne fresh i w ne at =
      Located-modify_ne x p fresh (λ n. record n { queue1 = n.queue1 ++ n.queue0; queue0 = [] }) i
        (rcu_requeue (queue1_at i w.nodes) emptied).nodes ne
        (Located-rcu_requeue x p fresh (queue1_at i w.nodes) emptied
          (Located-modify_ne x p fresh (λ n. record n { queue1 = [] }) i w.nodes ne at))
    where
      emptied : World
      emptied = record w { nodes = modify i (λ n. record n { queue1 = [] }) w.nodes }

  -- The notes on a node that was passed, or not, move no item.
  pub Located-note_node :
      (fresh : Bool) (a : Answer) (i : ℕ) (ns : List RcuNode)
      → Located x p fresh ns
      → Located x p fresh (modify i (note_node a) ns)
  Located-note_node fresh a = Located-modify_same x p fresh (note_node a) (λ n. (refl, refl))

  pub Located-stall_node :
      (fresh : Bool) (i : ℕ) (w : World)
      → Located x p fresh w.nodes
      → Located x p fresh (stall_node i w).nodes
  unfolding stall_node
  Located-stall_node fresh i w =
      Located-modify_same x p fresh (λ m. record m { state = state_idle }) (λ n. (refl, refl)) i
        w.nodes
