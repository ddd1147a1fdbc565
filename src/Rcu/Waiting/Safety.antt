-- ===== src/Rcu/Waiting/Safety.antt =====
-- fastsmr: the scans, and the calls between them, in any order, while a thread keeps its hazard
-- pointer to the object of an item that waits.
use atomic_ptr_plus.Base.{
  ℕ, ◌+◌, ◌≤◌, ◌≡◌, ◌≢◌, refl, ◌∙◌, ap, List, [], ◌∷◌, true, inl, inr, arith, Bool-cases, ◌==◌,
  count, has,
}
use atomic_ptr_plus.Fifo.{Ptr}
use atomic_ptr_plus.Rcu.State.{Defer, RcuNode, SmrNode, World, is_pass1, update}
use atomic_ptr_plus.Rcu.Enqueue.{rcu_requeue}
use atomic_ptr_plus.Rcu.Scan.{Answers, rcu_scan, rcu_add_node, delete_from, rcu_delete_node}
use atomic_ptr_plus.Rcu.Conserve.{count_nodes, queued, queued-rcu_requeue}
use atomic_ptr_plus.Rcu.Conserve.Ring.{queued-rcu_scan, queued-rcu_add_node, queued-rcu_delete_node}
use atomic_ptr_plus.Rcu.Hazard.{returned}
use atomic_ptr_plus.Rcu.SmrScan.{Client, smr_scan}
use atomic_ptr_plus.Rcu.SmrScan.Copy.{hazards}
use atomic_ptr_plus.Rcu.SmrScan.Safety.{queued-smr_scan}
use atomic_ptr_plus.Rcu.Poll.{smr_defer, finish_round}
use atomic_ptr_plus.Rcu.Waiting.{is, Waits, Waits-rcu_requeue}
use atomic_ptr_plus.Rcu.Waiting.Ring.{Waits-rcu_scan}
use atomic_ptr_plus.Rcu.Waiting.Smr.{Waits-smr_scan}
use atomic_ptr_plus.Rcu.Waiting.Defer.{
  one_if-other, one_if-same, one_if-fresh, queued-smr_defer, Waits-smr_defer, Waits-deferred,
}

-- What the threads do under the mutex, one thing at a time, in any order. An item is deferred, or its
-- fields are written by a client, while it is not queued. The hazard pointers, and the nodes that hold
-- them, change in any way, but one stays that refers to the object of `x`.
pub data Turn (x : Ptr) (w : World) : World → Type 0 where
  scan_ring : (ask : Answers) → Turn x w (rcu_scan ask w)
  scan_hazards : (c : Client) {w' : World} → smr_scan c w ≡ returned w' → Turn x w w'
  take_ready : Turn x w (record w { ready_queue = [] })
  end_round : (workcount : ℕ) → Turn x w (finish_round workcount w)
  defer : (work : Ptr) → queued (is work) w ≡ 0 → Turn x w (smr_defer work w).0
  fill :
      (work : Ptr) (fields : Defer)
      → queued (is work) w ≡ 0
      → Turn x w (record w { heap = update w.heap work fields })
  add_node : (qhandle : ℕ) (ask : Answers) → Turn x w (rcu_add_node qhandle ask w)
  delete_node : (qhandle : ℕ) → Turn x w (rcu_delete_node qhandle w)
  set_hazards :
      (nodes : List SmrNode)
      → has (w.heap x).arg (hazards nodes) ≡ true
      → Turn x w (record w { smr_nodes = nodes })

pub data Turns (x : Ptr) (w : World) : World → Type 0 where
  none_yet : Turns x w w
  then_one : {u v : World} → Turns x w u → Turn x u v → Turns x w v

-- No item is queued twice, and `x` is queued and waits.
abbrev pub Guarded : Ptr → World → Type 0
Guarded x w = ((p : Ptr) → queued (is p) w ≤ 1) × (queued (is x) w ≡ 1) × Waits x w

module _ (x : Ptr) where
  Waits-delete_from :
      (qhandle : ℕ) (nodes : List RcuNode) (w : World)
      → w.nodes ≡ nodes
      → Waits x w
      → queued (is x) w ≤ 1
      → Waits x (delete_from qhandle nodes w)
  unfolding delete_from
  Waits-delete_from qhandle [] w e h once = h
  Waits-delete_from qhandle (first ∷ []) w e h once = elim (Bool-cases (first.qhandle == qhandle)) [
    | inl hit ↦
        let left : World = record w { nodes = [] } in
        let items : count_nodes (is x) w.nodes
            ≡ count (is x) first.queue0 + count (is x) first.queue1 + 0 =
          ap (count_nodes (is x)) e in
        rw hit (
          Waits-rcu_requeue x first.queue1 (rcu_requeue first.queue0 left)
            (Waits-rcu_requeue x first.queue0 left h (omega arith))
            (omega (arith, queued-rcu_requeue (is x) first.queue0 left)))
    | inr miss ↦ rw miss h
  ]
  Waits-delete_from qhandle (first ∷ n ∷ ns) w e h once = h

  Guarded-Turn : {w w' : World} → Turn x w w' → Guarded x w → Guarded x w'
  Guarded-Turn {w} (scan_ring ask) (each, one, h) = (
    λ p. omega (arith, each p, queued-rcu_scan (is p) ask w),
    queued-rcu_scan (is x) ask w ∙ one,
    Waits-rcu_scan x ask w h (each x),
  )
  Guarded-Turn {w} {w'} (scan_hazards c done) (each, one, h) = (
    λ p. omega (arith, each p, queued-smr_scan c w w' (is p) done),
    queued-smr_scan c w w' (is x) done ∙ one,
    Waits-smr_scan c x w w' done h each,
  )
  Guarded-Turn {w} take_ready (each, one, h) =
      (λ p. omega (arith, each p), omega (arith, h.0), (refl, h.1, h.2))
  Guarded-Turn (end_round workcount) guarded = guarded
  Guarded-Turn {w} (defer work fresh) (each, one, h) =
      let other : x ≢ work = λ e. omega (arith, ap (λ q. queued (is q) w) e) in
      (
        λ p. omega (arith, queued-smr_defer x p work w, one_if-fresh p work w fresh (each p)),
        omega (arith, queued-smr_defer x x work w, one_if-other x work other),
        Waits-smr_defer x work w other h,
      )
  Guarded-Turn {w} (fill work fields fresh) (each, one, h) =
      let other : x ≢ work = λ e. omega (arith, ap (λ q. queued (is q) w) e) in
      let kept : update w.heap work fields x ≡ w.heap x = ground arith in
      (
        each,
        one,
        (
          h.0,
          λ none_waits. ap (λ (d : Defer). is_pass1 d.state) kept ∙ h.1 none_waits,
          ap (λ (d : Defer). has d.arg (hazards w.smr_nodes)) kept ∙ h.2,
        ),
      )
  Guarded-Turn {w} (add_node qhandle ask) (each, one, h) = (
    λ p. omega (arith, each p, queued-rcu_add_node (is p) qhandle ask w),
    queued-rcu_add_node (is x) qhandle ask w ∙ one,
    unfold rcu_add_node in h,
  )
  Guarded-Turn {w} (delete_node qhandle) (each, one, h) = (
    λ p. omega (arith, each p, queued-rcu_delete_node (is p) qhandle w),
    queued-rcu_delete_node (is x) qhandle w ∙ one,
    unfold rcu_delete_node in Waits-delete_from qhandle w.nodes w refl h (each x),
  )
  Guarded-Turn {w} (set_hazards nodes kept) (each, one, h) = (each, one, (h.0, h.1, kept))

  Guarded-Turns : {w w' : World} → Turns x w w' → Guarded x w → Guarded x w'
  Guarded-Turns none_yet guarded = guarded
  Guarded-Turns (then_one earlier turn) guarded = Guarded-Turn turn (Guarded-Turns earlier guarded)

  Guarded-deferred :
      (w : World)
      → ((p : Ptr) → queued (is p) w ≤ 1)
      → queued (is x) w ≡ 0
      → has (w.heap x).arg (hazards w.smr_nodes) ≡ true
      → Guarded x (smr_defer x w).0
  Guarded-deferred w each fresh kept = (
    λ p. omega (arith, queued-smr_defer x p x w, one_if-fresh p x w fresh (each p)),
    omega (arith, queued-smr_defer x x x w, one_if-same x),
    Waits-deferred x w fresh kept,
  )

  -- An item is deferred that is not queued, while no item is queued twice, and a hazard pointer refers
  -- to its object. As long as such a hazard pointer is kept, the item never becomes ready, whatever
  -- else the threads do and in whatever order; it stays queued, once.
  pub held-uncalled :
      (w w' : World)
      → ((p : Ptr) → queued (is p) w ≤ 1)
      → queued (is x) w ≡ 0
      → has (w.heap x).arg (hazards w.smr_nodes) ≡ true
      → Turns x (smr_defer x w).0 w'
      → (count (is x) w'.ready_queue ≡ 0) × (queued (is x) w' ≡ 1)
  held-uncalled w w' each fresh kept turns =
      let after : Guarded x w' = Guarded-Turns turns (Guarded-deferred w each fresh kept) in
      (after.2.0, after.1)
