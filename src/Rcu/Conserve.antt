-- ===== src/Rcu/Conserve.antt =====
-- No operation of fastsmr loses or duplicates deferred work: how often items are queued.
pub mod Ring
use atomic_ptr_plus.Base.{
  ℕ, ◌+◌, ◌≡◌, List, [], ◌∷◌, true, false, inl, inr, arith, if◌then◌else◌, Bool, count,
  count-append, Bool-cases,
}
use atomic_ptr_plus.Fifo.{Ptr}
use atomic_ptr_plus.Rcu.State.{DeferState, pass2, RcuNode, World, is_nil, is_pass1, set_state}
use atomic_ptr_plus.Rcu.Enqueue.{
  put_ready, put_queue0, rcu_place, smr_enqueue, rcu_enqueue, requeue_one, rcu_requeue,
}

-- A choice of items: all of them, or one, or those of a kind.
abbrev pub Test : Type 0
Test = Ptr → Bool

-- How many chosen items are on the queues of the nodes.
abbrev pub count_nodes : Test → List RcuNode → ℕ
count_nodes a [] = 0
count_nodes a (n ∷ ns) = count a n.queue0 + count a n.queue1 + count_nodes a ns

-- How many chosen items are queued anywhere, each as often as it is queued.
abbrev pub queued : Test → World → ℕ
queued a w = count_nodes a w.nodes + count a w.smr_queue + count a w.ready_queue

-- 1 for a chosen item.
abbrev pub one_if : Test → Ptr → ℕ
one_if a work = if a work then 1 else 0

count_nodes-put_queue0 :
    (a : Test) (work : Ptr) (ns : List RcuNode)
    → is_nil ns ≡ false
    → count_nodes a (put_queue0 work ns) ≡ count_nodes a ns + one_if a work
count_nodes-put_queue0 a work [] some_node = cc
count_nodes-put_queue0 a work (n ∷ ns) some_node =
    omega (arith, count-append a n.queue0 (work ∷ []))

queued-put_ready :
    (a : Test) (work : Ptr) (w : World) → queued a (put_ready work w) ≡ queued a w + one_if a work
unfolding put_ready
queued-put_ready a work w = omega (arith, count-append a w.ready_queue (work ∷ []))

queued-rcu_place :
    (a : Test) (work : Ptr) (to_smr : Ptr → World → World) (state : DeferState) (w : World)
    → ((u : World) → is_pass1 state ≡ true → queued a (to_smr work u) ≡ queued a u + one_if a work)
    → queued a (rcu_place to_smr work state w) ≡ queued a w + one_if a work
unfolding rcu_place
queued-rcu_place a work to_smr state w step = elim (Bool-cases (is_nil w.nodes)) [
  | inl none_left ↦ elim (Bool-cases (is_pass1 state)) [
    | inl to ↦ rw (none_left, to) (step (set_state work state w) to)
    | inr not_to ↦ rw (none_left, not_to) (queued-put_ready a work (set_state work state w))
  ]
  | inr some_left ↦ rw some_left (omega (arith, count_nodes-put_queue0 a work w.nodes some_left))
]

queued-smr_enqueue :
    (a : Test) (work : Ptr) (w : World) → queued a (smr_enqueue work w) ≡ queued a w + one_if a work
unfolding smr_enqueue
queued-smr_enqueue a work w = elim (Bool-cases (is_nil w.smr_nodes)) [
  | inl none_left ↦ rw none_left (queued-rcu_place a work (λ _ u. u) pass2 w (λ u. cc))
  | inr some_left ↦ rw some_left (omega (arith, count-append a w.smr_queue (work ∷ [])))
]

-- Enqueueing queues the item once more, and any other item as often as before.
pub queued-rcu_enqueue :
    (a : Test) (work : Ptr) (state : DeferState) (w : World)
    → queued a (rcu_enqueue work state w) ≡ queued a w + one_if a work
unfolding rcu_enqueue
queued-rcu_enqueue a work state w =
    queued-rcu_place a work smr_enqueue state w (λ u _. queued-smr_enqueue a work u)

pub queued-requeue_one :
    (a : Test) (work : Ptr) (w : World) → queued a (requeue_one work w) ≡ queued a w + one_if a work
unfolding requeue_one
queued-requeue_one a work w = elim (Bool-cases (is_pass1 (w.heap work).state)) [
  | inl to ↦ rw to (queued-smr_enqueue a work w)
  | inr not_to ↦ rw not_to (queued-put_ready a work w)
]

-- Passing the items of a queue on puts each back once.
pub queued-rcu_requeue :
    (a : Test) (queue : List Ptr) (w : World)
    → queued a (rcu_requeue queue w) ≡ queued a w + count a queue
unfolding rcu_requeue
queued-rcu_requeue a [] w = omega arith
queued-rcu_requeue a (work ∷ queue) w =
    omega (arith, queued-rcu_requeue a queue (requeue_one work w), queued-requeue_one a work w)
