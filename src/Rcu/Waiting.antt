-- ===== src/Rcu/Waiting.antt =====
-- fastsmr: a deferred item whose object a thread keeps a hazard pointer to, from its first time on
-- the ring on. Its children follow it through the scans.
pub mod Ring
pub mod Smr
pub mod Defer
pub mod Safety
pub mod Examples
use atomic_ptr_plus.Base.{
  ◌+◌, ◌≤◌, ◌≡◌, refl, List, [], ◌∷◌, true, false, inl, inr, arith, Bool, Bool-cases, ◌==◌, count,
  count-append, has,
}
use atomic_ptr_plus.Fifo.{Ptr}
use atomic_ptr_plus.Rcu.State.{DeferState, smr, SmrNode, World, set_state, is_pass1, is_nil}
use atomic_ptr_plus.Rcu.Conserve.{Test, queued, queued-requeue_one}
use atomic_ptr_plus.Rcu.Enqueue.{put_ready, smr_enqueue, requeue_one, rcu_requeue}
use atomic_ptr_plus.Rcu.SmrScan.Copy.{hazards}

abbrev pub is : Ptr → Test
is x p = x == p

-- The item is not ready; it waits for hazard pointers, or is to do so after its time on the ring; and
-- a hazard pointer refers to its object.
abbrev pub Waits : Ptr → World → Type 0
Waits x w =
    (count (is x) w.ready_queue ≡ 0)
    × (count (is x) w.smr_queue ≡ 0 → is_pass1 (w.heap x).state ≡ true)
    × (has (w.heap x).arg (hazards w.smr_nodes) ≡ true)

pub hazards-some : (p : Ptr) (ns : List SmrNode) → has p (hazards ns) ≡ true → is_nil ns ≡ false
hazards-some p [] h = cc
hazards-some p (n ∷ ns) h = refl

pub arg-set_state :
    (work x : Ptr) (state : DeferState) (w : World)
    → ((set_state work state w).heap x).arg ≡ (w.heap x).arg
arg-set_state work x state w = ground arith

-- A requeued item is waiting then, or is another one.
Waits-requeue_one :
    (x work : Ptr) (w : World)
    → Waits x w
    → count (is x) (work ∷ []) + queued (is x) w ≤ 1
    → Waits x (requeue_one work w)
unfolding requeue_one smr_enqueue put_ready
Waits-requeue_one x work w h once = elim (Bool-cases (is_pass1 (w.heap work).state)) [
  | inl first ↦
      rw (first, hazards-some (w.heap x).arg w.smr_nodes h.2)
        (
          h.0,
          λ none_waits. ground (arith, count-append (is x) w.smr_queue (work ∷ []), h.1),
          rw (arg-set_state work x smr w) h.2,
        )
  | inr later ↦
      rw later (ground (arith, count-append (is x) w.ready_queue (work ∷ []), h.0, h.1), h.1, h.2)
]

pub Waits-rcu_requeue :
    (x : Ptr) (queue : List Ptr) (w : World)
    → Waits x w
    → count (is x) queue + queued (is x) w ≤ 1
    → Waits x (rcu_requeue queue w)
unfolding rcu_requeue
Waits-rcu_requeue x [] w h once = h
Waits-rcu_requeue x (work ∷ queue) w h once =
    Waits-rcu_requeue x queue (requeue_one work w) (Waits-requeue_one x work w h (omega arith))
      (omega (arith, queued-requeue_one (is x) work w))
