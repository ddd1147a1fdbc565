-- ===== src/Rcu/SmrScan/Sort.antt =====
-- fastsmr/smrscan.c: where the items go at the end of a scan.
use mathlib.Core.Path.{fun_ext}
use atomic_ptr_plus.Base.{
  ℕ, ◌+◌, ◌≡◌, refl, sym, ◌∙◌, ap, inl, inr, List, [], ◌∷◌, ◌++◌, append-nil, append_assoc, arith,
  Bool, Bool-cases, ◌==◌, keep, true, false, count, count-append,
}
use atomic_ptr_plus.Fifo.{Ptr}
use atomic_ptr_plus.Rcu.State.{live, pass2, Defer, Stats, World, is_nil, update}
use atomic_ptr_plus.Rcu.Enqueue.{rcu_place, put_ready, rcu_enqueue}
use atomic_ptr_plus.Rcu.Conserve.{Test, queued, queued-rcu_enqueue}
use atomic_ptr_plus.Rcu.SmrScan.{sort_one, sort_all}

-- The parts of the state that an enqueueing at the second pass does not write.
abbrev pub unplaced_item : Defer → Defer
unplaced_item d = record d { state = live }

abbrev pub unplaced : World → World
unplaced w = record w { heap = λ p. unplaced_item (w.heap p); nodes = []; ready_queue = [] }

unplaced-rcu_enqueue : (work : Ptr) (w : World) → unplaced (rcu_enqueue work pass2 w) ≡ unplaced w
unfolding rcu_enqueue rcu_place put_ready
unplaced-rcu_enqueue work w = elim (Bool-cases (is_nil w.nodes)) [
  | inl none_left ↦ rw none_left states
  | inr some_left ↦ rw some_left states
]
  where
    states :
        unplaced (record w { heap = update w.heap work (record (w.heap work) { state = pass2 }) })
        ≡ unplaced w
    states = ap (λ h. record (unplaced w) { heap = h }) (fun_ext λ p. ground arith)

-- Has the scan in progress marked the item?
abbrev pub is_marked : World → Ptr → Bool
is_marked w x = (w.heap x).sequence == w.current

module _ (work : Ptr) (w : World) where
  sort_one-marked :
      is_marked w work ≡ true → sort_one work w ≡ record w { smr_queue = w.smr_queue ++ work ∷ [] }
  unfolding sort_one
  sort_one-marked marked = rw marked

  sort_one-unmarked : is_marked w work ≡ false → sort_one work w ≡ rcu_enqueue work pass2 w
  unfolding sort_one
  sort_one-unmarked not_marked = rw not_marked

-- The queue afterwards: what it held, and behind it the marked items, in their order.
pub sort_all-smr_queue :
    (queue : List Ptr) (w : World)
    → (sort_all queue w).smr_queue ≡ w.smr_queue ++ keep (is_marked w) queue
unfolding sort_all
sort_all-smr_queue [] w = sym (append-nil w.smr_queue)
sort_all-smr_queue (work ∷ queue) w = elim (Bool-cases (is_marked w work)) [
  | inl marked ↦
      rw (sort_one-marked work w marked, marked, sort_all)
        (sort_all-smr_queue queue (record w { smr_queue = w.smr_queue ++ work ∷ [] })
          ∙ append_assoc w.smr_queue (work ∷ []) (keep (is_marked w) queue))
  | inr not_marked ↦
      rw (sort_one-unmarked work w not_marked, not_marked, sort_all)
        (sort_all-smr_queue queue (rcu_enqueue work pass2 w)
          ∙ ap (λ v. v.smr_queue ++ keep (is_marked v) queue) (unplaced-rcu_enqueue work w))
]

-- The counters, which neither marking nor sorting changes.
abbrev pub counters : World → ℕ × ℕ × Stats
counters w = (w.smr_count, w.deferred_work, w.stats)

pub counters-sort_all : (queue : List Ptr) (w : World) → counters (sort_all queue w) ≡ counters w
unfolding sort_all
counters-sort_all [] w = refl
counters-sort_all (work ∷ queue) w = elim (Bool-cases (is_marked w work)) [
  | inl marked ↦
      rw (sort_one-marked work w marked, sort_all)
        (counters-sort_all queue (record w { smr_queue = w.smr_queue ++ work ∷ [] }))
  | inr not_marked ↦
      rw (sort_one-unmarked work w not_marked, sort_all)
        (counters-sort_all queue (rcu_enqueue work pass2 w)
          ∙ ap counters (unplaced-rcu_enqueue work w))
]

-- Sorting queues each item of the list once.
pub queued-sort_all :
    (a : Test) (queue : List Ptr) (w : World)
    → queued a (sort_all queue w) ≡ queued a w + count a queue
unfolding sort_all
queued-sort_all a [] w = omega arith
queued-sort_all a (work ∷ queue) w = elim (Bool-cases (is_marked w work)) [
  | inl marked ↦
      rw (sort_one-marked work w marked, sort_all)
        (omega (
          arith,
          queued-sort_all a queue (record w { smr_queue = w.smr_queue ++ work ∷ [] }),
          count-append a w.smr_queue (work ∷ []),
        ))
  | inr not_marked ↦
      rw (sort_one-unmarked work w not_marked, sort_all)
        (omega (
          arith,
          queued-sort_all a queue (rcu_enqueue work pass2 w),
          queued-rcu_enqueue a work pass2 w,
        ))
]
