-- ===== src/Stpc/Threads/Log.antt =====
-- A step of an agent of stpc/stpc.c, and the deletes that were queued and run.
use atomic_ptr_plus.Base.{
  ℕ, zero, suc, ◌+◌, ◌≤◌, ◌<◌, ◌≡◌, ◌≢◌, inl, inr, refl, sym, ◌∙◌, ap, arith, update, update-other,
  ◌==◌, Bool-cases, sum_to-update, sum_to-found, weigh-le-sum_to,
}
use atomic_ptr_plus.Fifo.{Ptr}
use atomic_ptr_plus.Stpc.{zero_node, StpcNode}
use atomic_ptr_plus.Stpc.Threads.{
  Shared, Pc, Move, idle, holds, checking, subtracting, releasing, deleting, filled, linking, get,
  drop, check_last, check_more, subtract_last, subtract_more, release, delete, pop, give_back,
  alloc, swap, link, put, run_delete, new_tail, with_reference, subtracted, moved_on, taken,
  with_tail, linked_to, rcount_of,
}
use atomic_ptr_plus.Stpc.Threads.Dues.{due, dues, deletes}
use atomic_ptr_plus.Stpc.Threads.Shape.{Inv, Stands, Logged, in_delete, collected}
use atomic_ptr_plus.Stpc.Threads.Chain.{releases}
use atomic_ptr_plus.Stpc.Threads.Balance.{free_differs}

-- What is queued later is not among the first ones.
pub collected-later :
    (queued : ℕ → Ptr × Ptr) (k j : ℕ) (x : Ptr × Ptr)
    → k < j
    → collected (update queued j x) k ≡ collected queued k
unfolding collected
collected-later queued zero j x below = refl
collected-later queued (suc k) j x below =
    rw
      (
        update-other queued j (suc k) x (λ e. absurd (omega arith)),
        collected-later queued k j x (omega arith),
      )
      refl

module _ {n : ℕ} {m : Shared} {pcs : ℕ → Pc} (inv : Inv n m pcs) (i : ℕ) (lt : i < n) where
  open inv use {chained, balanced, sound, logged}

  moved_deletes :
      (p' : Pc) → deletes (pcs i) + in_delete n (update pcs i p') ≡ deletes p' + in_delete n pcs
  moved_deletes p' = sum_to-update deletes n pcs i p' lt

  -- A node of the queue behind the first one, or the first one before its delete.
  waiting_above : (k : ℕ) → m.finished < k → m.first ≤ k
  waiting_above k waits = omega (arith, logged.counted, logged.one)

  SameData : (Ptr → StpcNode) → Type 0
  SameData h =
      (k : ℕ)
      → m.first ≤ k
      → k ≤ m.last
      → ((h (m.node_at k)).free_data ≡ (m.heap (m.node_at k)).free_data)
        × ((h (m.node_at k)).payload ≡ (m.heap (m.node_at k)).payload)

  Logged-kept :
      (h : Ptr → StpcNode) (x : Ptr) (y s : ℕ) {p : Pc} (p' : Pc)
      → pcs i ≡ p
      → deletes p ≡ 0
      → deletes p' ≡ 0
      → SameData h
      → Logged n (record m { heap = h; free_head = x; free = y; sequence = s }) (update pcs i p')
  unfolding SameData
  Logged-kept h x y s p' e before after same =
      let count : in_delete n (update pcs i p') ≡ in_delete n pcs =
        omega (arith, moved_deletes p', ap deletes e) in
      record {
        counted = omega (arith, count, logged.counted);
        one = omega (arith, count, logged.one);
        log = logged.log;
        waits = λ k from to.
            let (same_data, same_payload) = same k (waiting_above k from) to in
            let (data_k, payload_k) = logged.waits k from to in
            (same_data ∙ data_k, same_payload ∙ payload_k);
      }

  -- An agent that deletes has a due on the first node.
  deleting_due : (q : Pc) → Stands m q → 0 < deletes q → 2 ≤ due (m.node_at m.first) q
  deleting_due (deleting p) st some_delete = ground arith
  deleting_due idle st some_delete = absurd (omega arith)
  deleting_due (holds p) st some_delete = absurd (omega arith)
  deleting_due (checking p r) st some_delete = absurd (omega arith)
  deleting_due (subtracting p r) st some_delete = absurd (omega arith)
  deleting_due (releasing p) st some_delete = absurd (omega arith)
  deleting_due (filled p) st some_delete = absurd (omega arith)
  deleting_due (linking old p r) st some_delete = absurd (omega arith)

  no_deletes : dues (m.node_at m.first) n pcs ≡ 0 → in_delete n pcs ≡ 0
  no_deletes none_left = elim (Bool-cases (in_delete n pcs == 0)) [
    | inl empty ↦ ground arith
    | inr some_delete ↦
        let (j, below, found) = sum_to-found deletes n pcs (ground arith) in
        absurd (
          omega (
            arith,
            deleting_due (pcs j) (sound.stands j) found,
            weigh-le-sum_to (due (m.node_at m.first)) n pcs j below,
          ))
  ]

  Logged-release :
      (p : Ptr)
      → pcs i ≡ releasing p
      → Logged n (moved_on m) (update pcs i (deleting (m.heap p).next))
  Logged-release p e =
      let (at_first, below, alone, none_left) = releases inv i p lt e in
      let count = moved_deletes (deleting (m.heap p).next) in
      let none_deletes : in_delete n pcs ≡ 0 = no_deletes none_left in
      record {
        counted = omega (arith, count, ap deletes e, logged.counted);
        one = omega (arith, count, ap deletes e);
        log = logged.log;
        waits = logged.waits;
      }

  Logged-delete :
      (p : Ptr) → pcs i ≡ deleting p → Logged n (run_delete p m) (update pcs i (checking p 2))
  unfolding collected
  Logged-delete p e =
      let at_first : Stands m (deleting p) = rw e at (sound.stands i) in
      let count = moved_deletes (checking p 2) in
      let running : in_delete n pcs ≡ 1 = omega (arith, count, ap deletes e, logged.one) in
      let next : m.finished + 1 ≡ suc m.finished = omega arith in
      let is_first : m.first ≡ suc m.finished = omega (arith, logged.counted) in
      let (its_data, its_payload) =
        logged.waits (suc m.finished) (omega arith) (omega (arith, chained.first-le)) in
      let here : p ≡ m.node_at (suc m.finished) = at_first ∙ ap m.node_at is_first in
      record {
        counted = omega (arith, count, ap deletes e, logged.counted);
        one = omega (arith, count, ap deletes e);
        log = rw (next, logged.log, here, its_data, its_payload) refl;
        waits = λ k from to.
            let away : p ≢ m.node_at k = λ same.
              let equal =
                chained.distinct m.first k chained.free-le chained.first-le
                  (omega (arith, chained.free-le)) to (sym at_first ∙ same) in
              absurd (omega arith) in
            ground (arith, logged.waits k (omega arith) to, away);
      }

  Logged-swap :
      (p : Ptr)
      → pcs i ≡ filled p
      → Logged n (with_tail p m) (update pcs i (linking m.tail p (rcount_of m.sequence)))
  Logged-swap p e =
      let count : in_delete n (update pcs i (linking m.tail p (rcount_of m.sequence)))
          ≡ in_delete n pcs =
        omega (arith, moved_deletes (linking m.tail p (rcount_of m.sequence)), ap deletes e) in
      let new : Ptr × Ptr = ((m.heap p).free_data, (m.heap p).payload) in
      record {
        counted = omega (arith, count, logged.counted);
        one = omega (arith, count, logged.one);
        log =
            logged.log
            ∙ sym (
                collected-later m.queued m.finished (suc m.last) new
                  (omega (arith, logged.counted, chained.first-le)));
        waits = λ k from to. elim (Bool-cases (suc m.last == k)) [
          | inl last ↦ rw (last) (refl, refl)
          | inr old ↦ rw old (logged.waits k from (ground arith))
        ];
      }

  pub Move-Logged :
      {p p' : Pc} {m' : Shared} → pcs i ≡ p → Move pcs m p m' p' → Logged n m' (update pcs i p')
  unfolding SameData
  Move-Logged e (get few) =
      Logged-kept m.heap m.free_head m.free (with_reference m).sequence (holds m.tail) e refl refl
        (λ k from to. (refl, refl))
  Move-Logged e (drop {p}) =
      Logged-kept m.heap m.free_head m.free m.sequence (checking p 2) e refl refl
        (λ k from to. (refl, refl))
  Move-Logged e (check_last {p} g) =
      Logged-kept m.heap m.free_head m.free m.sequence (releasing p) e refl refl
        (λ k from to. (refl, refl))
  Move-Logged e (check_more {p} {r} g) =
      Logged-kept m.heap m.free_head m.free m.sequence (subtracting p r) e refl refl
        (λ k from to. (refl, refl))
  Move-Logged e (subtract_last {p} {r} g) =
      Logged-kept (subtracted p r m).heap m.free_head m.free m.sequence (releasing p) e refl refl
        (λ k from to. ground arith)
  Move-Logged e (subtract_more {p} {r} g) =
      Logged-kept (subtracted p r m).heap m.free_head m.free m.sequence idle e refl refl
        (λ k from to. ground arith)
  Move-Logged e (release {p}) = Logged-release p e
  Move-Logged e (delete {p}) = Logged-delete p e
  Move-Logged e (pop free_data payload g) =
      let after = taken (new_tail free_data payload) m in
      Logged-kept after.heap after.free_head after.free m.sequence (filled m.free_head) e refl refl
        (λ k from to. ground (arith, free_differs inv i lt g k from to))
  Move-Logged e (give_back g) =
      let after = taken zero_node m in
      Logged-kept after.heap after.free_head after.free m.sequence idle e refl refl
        (λ k from to. ground (arith, free_differs inv i lt g k from to))
  Move-Logged e (alloc p free_data payload g) =
      Logged-kept (put p (new_tail free_data payload) m).heap m.free_head m.free m.sequence
        (filled p) e refl refl
        (λ k from to. ground (arith, g.not_queued k (omega (arith, chained.free-le)) to))
  Move-Logged e (swap {p}) = Logged-swap p e
  Move-Logged e (link {old} {p} {r}) =
      Logged-kept (linked_to old p m).heap m.free_head m.free m.sequence (checking old r) e refl
        refl (λ k from to. ground arith)
