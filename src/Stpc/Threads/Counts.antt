-- ===== src/Stpc/Threads/Counts.antt =====
-- The counts of the nodes of stpc/stpc.c: steps that change no due, and a reference that is taken.
use atomic_ptr_plus.Base.{
  ℕ, ◌+◌, ◌%◌, ◌≤◌, ◌<◌, ◌≡◌, sym, ◌∙◌, ap, arith, update, List, sum_to-update,
}
use atomic_ptr_plus.Fifo.{Ptr}
use atomic_ptr_plus.Stpc.{StpcNode}
use atomic_ptr_plus.Stpc.Threads.{Shared, Pc, idle, holds, with_reference}
use atomic_ptr_plus.Stpc.Threads.Dues.{due, odd_due, dues, odd_dues, leaves}
use atomic_ptr_plus.Stpc.Threads.Shape.{Inv, Balanced, leaving}

module _ {n : ℕ} {m : Shared} {pcs : ℕ → Pc} (inv : Inv n m pcs) (i : ℕ) (lt : i < n) where
  open inv use {chained, balanced, sound}

  pub moved_dues :
      (a : Ptr) (p' : Pc) → due a (pcs i) + dues a n (update pcs i p') ≡ due a p' + dues a n pcs
  moved_dues a p' = sum_to-update (due a) n pcs i p' lt

  pub moved_odds :
      (a : Ptr) (p' : Pc)
      → odd_due a (pcs i) + odd_dues a n (update pcs i p') ≡ odd_due a p' + odd_dues a n pcs
  moved_odds a p' = sum_to-update (odd_due a) n pcs i p' lt

  pub moved_leaving :
      (p' : Pc) → leaves (pcs i) + leaving n (update pcs i p') ≡ leaves p' + leaving n pcs
  moved_leaving p' = sum_to-update leaves n pcs i p' lt

  -- A step that changes no due, and no count of a node of the queue.
  module _ (h : Ptr → StpcNode) (x : Ptr) (y : ℕ) (d : List (Ptr × Ptr)) (f : ℕ) {p : Pc} (p' : Pc)
      (e : pcs i ≡ p) (same_due : (a : Ptr) → due a p' ≡ due a p)
      (same_leaves : leaves p' ≡ leaves p)
      (same_count : (k : ℕ)
        → m.first ≤ k
        → k ≤ m.last
        → (h (m.node_at k)).count ≡ (m.heap (m.node_at k)).count) where
    dues-kept : (a : Ptr) → dues a n (update pcs i p') ≡ dues a n pcs
    dues-kept a = omega (arith, moved_dues a p', ap (due a) e, same_due a)

    odds-kept : (a : Ptr) → odd_dues a n (update pcs i p') ≡ odd_dues a n pcs
    odds-kept a =
        omega (arith, moved_odds a p', ap (odd_due a) e, ap (λ (x' : ℕ). x' % 2) (same_due a))

    leaving-kept : leaving n (update pcs i p') ≡ leaving n pcs
    leaving-kept = omega (arith, moved_leaving p', ap leaves e, same_leaves)

    pub Balanced-kept :
        Balanced n
          (record m { heap = h; free_head = x; free = y; deleted = d; finished = f })
          (update pcs i p')
    Balanced-kept = record {
      balance = λ k from to.
          same_count k (omega (arith, leaving-kept)) to
          ∙ rw (dues-kept (m.node_at k)) (balanced.balance k (omega (arith, leaving-kept)) to);
      single = λ k from to. rw (odds-kept (m.node_at k)) (balanced.single k from to);
      alone = λ some_leave.
          rw (leaving-kept, dues-kept (m.node_at m.first))
            (balanced.alone (omega (arith, leaving-kept)));
      charge = λ below. rw (leaving-kept, dues-kept (m.node_at m.first)) (balanced.charge below);
    }

  -- The nodes of the queue are distinct.
  pub one_node :
      (j k : ℕ)
      → m.first ≤ j
      → j ≤ m.last
      → m.first ≤ k
      → k ≤ m.last
      → m.node_at j ≡ m.node_at k
      → j ≡ k
  one_node j k fj tj fk tk =
      chained.distinct j k (omega (arith, chained.free-le)) tj (omega (arith, chained.free-le)) tk

  pub tail_only : (k : ℕ) → m.first ≤ k → k ≤ m.last → m.tail ≡ m.node_at k → k ≡ m.last
  tail_only k from to same =
      one_node k m.last from to chained.first-le (omega arith) (sym same ∙ chained.is_tail)

  -- A reference is taken.
  module _ (e : pcs i ≡ idle) where
    taking :
        (a : Ptr) → dues a n (update pcs i (holds m.tail)) ≡ due a (holds m.tail) + dues a n pcs
    taking a = omega (arith, moved_dues a (holds m.tail), ap (due a) e)

    taking_odd : (a : Ptr) → odd_dues a n (update pcs i (holds m.tail)) ≡ odd_dues a n pcs
    taking_odd a = ground (arith, moved_odds a (holds m.tail), ap (odd_due a) e)

    taking_leaves : leaving n (update pcs i (holds m.tail)) ≡ leaving n pcs
    taking_leaves = omega (arith, moved_leaving (holds m.tail), ap leaves e)

    pub Balanced-get :
        m.sequence + 4 < 2147483648 → Balanced n (with_reference m) (update pcs i (holds m.tail))
    Balanced-get few = record {
      balance = λ k from to. ground (
        arith,
        balanced.balance k (omega (arith, taking_leaves)) to,
        taking (m.node_at k),
        tail_only k (omega arith) to,
        chained.is_tail,
      );
      single = λ k from to. rw (taking_odd (m.node_at k)) (balanced.single k from to);
      alone = λ some_leave.
          let (one, none_left, below) = balanced.alone (omega (arith, taking_leaves)) in
          (
            omega (arith, taking_leaves),
            ground (
              arith,
              taking (m.node_at m.first),
              tail_only m.first (omega arith) chained.first-le,
            ),
            below,
          );
      charge =
          λ below. omega (arith, balanced.charge below, taking (m.node_at m.first), taking_leaves);
    }
