-- ===== src/Rcu/Waiting/Defer.antt =====
-- fastsmr/fastsmr.c `smr_defer`: the deferred item waits if a hazard pointer refers to its object, and
-- another item goes on waiting.
use atomic_ptr_plus.Base.{
  ◌+◌, ◌≤◌, ◌≡◌, ◌≢◌, ◌∙◌, ap, [], ◌∷◌, true, false, inl, inr, arith, Bool-cases, ◌==◌,
  count-append, has,
}
use atomic_ptr_plus.Fifo.{Ptr}
use atomic_ptr_plus.Rcu.State.{DeferState, pass1, smr, World, is_nil, is_pass1, set_state}
use atomic_ptr_plus.Rcu.Enqueue.{put_ready, rcu_place, smr_enqueue, rcu_enqueue}
use atomic_ptr_plus.Rcu.Conserve.{queued, one_if, queued-rcu_enqueue}
use atomic_ptr_plus.Rcu.SmrScan.Copy.{hazards}
use atomic_ptr_plus.Rcu.Poll.{dated, smr_defer}
use atomic_ptr_plus.Rcu.Waiting.{is, Waits, hazards-some, arg-set_state}
use atomic_ptr_plus.Rcu.Waiting.Smr.{Placed, Waits-Placed}

pub one_if-other : (p work : Ptr) → p ≢ work → one_if (is p) work ≡ 0
one_if-other p work other = ground arith

pub one_if-same : (p : Ptr) → one_if (is p) p ≡ 1
one_if-same p = ground arith

-- An item that was not queued is queued once afterwards, and no other item is queued more often.
pub one_if-fresh :
    (p work : Ptr) (w : World)
    → queued (is work) w ≡ 0
    → queued (is p) w ≤ 1
    → queued (is p) w + one_if (is p) work ≤ 1
one_if-fresh p work w fresh once = elim (Bool-cases (p == work)) [
  | inl same ↦
      let e : p ≡ work = ground arith in rw same (omega (arith, ap (λ q. queued (is q) w) e))
  | inr other ↦ rw other (omega arith)
]

module _ (x : Ptr) where
  Placed-smr_defer :
      (work : Ptr) (w : World)
      → x ≢ work
      → is_nil w.smr_nodes ≡ false
      → Placed x (smr_defer work w).0 ≡ Placed x w
  unfolding smr_defer rcu_enqueue rcu_place smr_enqueue put_ready
  Placed-smr_defer work w other some_node =
      ground (arith, count-append (is x) w.smr_queue (work ∷ []))

  pub queued-smr_defer :
      (p work : Ptr) (w : World)
      → queued (is p) (smr_defer work w).0 ≡ queued (is p) w + one_if (is p) work
  unfolding smr_defer
  queued-smr_defer p work w = queued-rcu_enqueue (is p) work pass1 (dated work w)

  pub Waits-smr_defer :
      (work : Ptr) (w : World) → x ≢ work → Waits x w → Waits x (smr_defer work w).0
  Waits-smr_defer work w other h =
      let same : Placed x (smr_defer work w).0 ≡ Placed x w =
        Placed-smr_defer work w other (hazards-some (w.heap x).arg w.smr_nodes h.2) in
      Waits-Placed x w (smr_defer work w).0 same h

  arg-dated : (work : Ptr) (w : World) → ((dated work w).heap work).arg ≡ (w.heap work).arg
  arg-dated work w = ground arith

  state-set_state :
      (work : Ptr) (state : DeferState) (w : World)
      → is_pass1 ((set_state work state w).heap work).state ≡ is_pass1 state
  state-set_state work state w = ground arith

  -- The item goes to the ring at its first pass, or to the items that wait for hazard pointers.
  pub Waits-deferred :
      (w : World)
      → queued (is x) w ≡ 0
      → has (w.heap x).arg (hazards w.smr_nodes) ≡ true
      → Waits x (smr_defer x w).0
  unfolding smr_defer rcu_enqueue rcu_place smr_enqueue
  Waits-deferred w fresh kept =
      let some_node : is_nil w.smr_nodes ≡ false = hazards-some (w.heap x).arg w.smr_nodes kept in
      let first : World = set_state x pass1 (dated x w) in
      let arg_kept : (first.heap x).arg ≡ (w.heap x).arg =
        arg-set_state x x pass1 (dated x w) ∙ arg-dated x w in
      elim (Bool-cases (is_nil w.nodes)) [
        | inl none_left ↦
            rw (none_left, some_node)
              (
                omega arith,
                λ none_waits. ground (arith, count-append (is x) w.smr_queue (x ∷ [])),
                ap (λ p. has p (hazards w.smr_nodes)) (arg-set_state x x smr first ∙ arg_kept)
                    ∙ kept,
              )
        | inr some_left ↦ rw some_left (
          omega arith,
          λ none_waits. state-set_state x pass1 (dated x w),
          ap (λ p. has p (hazards w.smr_nodes)) arg_kept ∙ kept,
        )
      ]
