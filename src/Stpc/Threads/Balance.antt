-- ===== src/Stpc/Threads/Balance.antt =====
-- A step of an agent of stpc/stpc.c keeps the counts of the nodes in balance with what the agents
-- have to subtract.
use atomic_ptr_plus.Base.{ℕ, ◌≤◌, ◌<◌, ◌≡◌, ◌≢◌, refl, sym, ◌∙◌, arith, update}
use atomic_ptr_plus.Stpc.{zero_node}
use atomic_ptr_plus.Stpc.Threads.{
  Shared, Pc, Move, idle, checking, subtracting, filled, get, drop, check_last, check_more,
  subtract_last, subtract_more, release, delete, pop, give_back, alloc, swap, link, put, run_delete,
  new_tail, subtracted, taken, linked_to,
}
use atomic_ptr_plus.Stpc.Threads.Dues.{HasDue}
use atomic_ptr_plus.Stpc.Threads.Shape.{Inv, Stands, Balanced}
use atomic_ptr_plus.Stpc.Threads.Chain.{not_empty}
use atomic_ptr_plus.Stpc.Threads.Counts.{Balanced-kept, Balanced-get}
use atomic_ptr_plus.Stpc.Threads.Paid.{Balanced-entry, Balanced-subtract, Balanced-release}
use atomic_ptr_plus.Stpc.Threads.Queued.{Balanced-swap}

module _ {n : ℕ} {m : Shared} {pcs : ℕ → Pc} (inv : Inv n m pcs) (i : ℕ) (lt : i < n) where
  open inv use {chained, balanced, sound}

  -- A free node is not in the queue.
  pub free_differs :
      m.free_head ≢ m.free_tail → (k : ℕ) → m.first ≤ k → k ≤ m.last → m.free_head ≢ m.node_at k
  free_differs g k from to same =
      let below = not_empty inv g in
      let equal =
        chained.distinct m.free k (omega arith) (omega (arith, chained.first-le)) (omega arith) to
          (sym chained.is_free_head ∙ same) in
      absurd (omega arith)

  pub Move-Balanced :
      {p p' : Pc} {m' : Shared} → pcs i ≡ p → Move pcs m p m' p' → Balanced n m' (update pcs i p')
  Move-Balanced e (get few) = Balanced-get inv i lt e few
  Move-Balanced e (drop {p}) =
      Balanced-kept inv i lt m.heap m.free_head m.free m.deleted m.finished (checking p 2) e
        (λ a. refl) refl (λ k from to. refl)
  Move-Balanced e (check_last {p} {r} g) =
      let stands : Stands m (checking p r) = rw e at (sound.stands i) in
      let has : HasDue (checking p r) = rw e at (sound.has_due i) in
      Balanced-entry inv i lt p r (checking p r) e (ground arith) (λ a other. ground arith) refl has
        stands g m.heap (λ a other. refl)
  Move-Balanced e (check_more {p} {r} g) =
      Balanced-kept inv i lt m.heap m.free_head m.free m.deleted m.finished (subtracting p r) e
        (λ a. refl) refl (λ k from to. refl)
  Move-Balanced e (subtract_last {p} {r} g) =
      let stands : Stands m (subtracting p r) = rw e at (sound.stands i) in
      let has : HasDue (subtracting p r) = rw e at (sound.has_due i) in
      Balanced-entry inv i lt p r (subtracting p r) e (ground arith) (λ a other. ground arith) refl
        has stands g (subtracted p r m).heap (λ a other. ground arith)
  Move-Balanced e (subtract_more {p} {r} g) = Balanced-subtract inv i lt p r e g
  Move-Balanced e (release {p}) = Balanced-release inv i lt p e
  Move-Balanced e (delete {p}) =
      let after = run_delete p m in
      Balanced-kept inv i lt after.heap m.free_head m.free after.deleted after.finished
        (checking p 2) e (λ a. refl) refl (λ k from to. ground arith)
  Move-Balanced e (pop free_data payload g) =
      let after = taken (new_tail free_data payload) m in
      Balanced-kept inv i lt after.heap after.free_head after.free m.deleted m.finished
        (filled m.free_head) e (λ a. refl) refl
        (λ k from to. ground (arith, free_differs g k from to))
  Move-Balanced e (give_back g) =
      let after = taken zero_node m in
      Balanced-kept inv i lt after.heap after.free_head after.free m.deleted m.finished idle e
        (λ a. refl) refl (λ k from to. ground (arith, free_differs g k from to))
  Move-Balanced e (alloc p free_data payload g) =
      Balanced-kept inv i lt (put p (new_tail free_data payload) m).heap m.free_head m.free
        m.deleted m.finished (filled p) e (λ a. refl) refl
        (λ k from to. ground (arith, g.not_queued k (omega (arith, chained.free-le)) to))
  Move-Balanced e (swap {p}) = Balanced-swap inv i lt p e
  Move-Balanced e (link {old} {p} {r}) =
      Balanced-kept inv i lt (linked_to old p m).heap m.free_head m.free m.deleted m.finished
        (checking old r) e (λ a. refl) refl (λ k from to. ground arith)
