-- ===== src/Stpc/Threads/Paid.antt =====
-- The counts of the nodes of stpc/stpc.c, when a due is subtracted or a node is released.
use atomic_ptr_plus.Base.{
  ℕ, ◌+◌, ◌≤◌, ◌<◌, ◌≡◌, ◌≢◌, inl, inr, sym, ◌∙◌, ap, arith, update, ◌==◌, Bool-cases,
}
use atomic_ptr_plus.Fifo.{Ptr}
use atomic_ptr_plus.Stpc.{StpcNode}
use atomic_ptr_plus.Stpc.Threads.{
  Shared, Pc, idle, subtracting, releasing, deleting, subtracted, moved_on,
}
use atomic_ptr_plus.Stpc.Threads.Dues.{due, odd_due, dues, odd_dues, leaves, HasDue, IsDue}
use atomic_ptr_plus.Stpc.Threads.Shape.{Inv, InQueue, Balanced, leaving}
use atomic_ptr_plus.Stpc.Threads.Chain.{releases, first_linked}
use atomic_ptr_plus.Stpc.Threads.Release.{last_one}
use atomic_ptr_plus.Stpc.Threads.Counts.{moved_dues, moved_odds, moved_leaving, one_node}

module _ {n : ℕ} {m : Shared} {pcs : ℕ → Pc} (inv : Inv n m pcs) (i : ℕ) (lt : i < n) where
  open inv use {chained, balanced, sound}

  -- The last due of a node is found; its count may change.
  module _ (p : Ptr) (r : ℕ) (q : Pc) (e : pcs i ≡ q) (own : due p q ≡ r)
      (elsewhere : (a : Ptr) → a ≢ p → due a q ≡ 0) (stays : leaves q ≡ 0) (has : IsDue r)
      (stands : InQueue m p) (last : (m.heap p).count ≡ r) (h : Ptr → StpcNode)
      (same_count : (a : Ptr) → a ≢ p → (h a).count ≡ (m.heap a).count) where
    entry :
        (p ≡ m.node_at m.first)
        × (m.first < m.last)
        × (leaving n pcs ≡ 0)
        × (dues p n (update pcs i idle) ≡ 0)
    entry = last_one inv i lt p r (rw e own) has stands last

    entry_dues : dues p n (update pcs i (releasing p)) ≡ 0
    entry_dues =
        let (at_first, below, stay, rest) = entry in
        omega (arith, moved_dues inv i lt p idle, moved_dues inv i lt p (releasing p))

    entry_other : (a : Ptr) → a ≢ p → dues a n (update pcs i (releasing p)) ≡ dues a n pcs
    entry_other a other =
        omega (arith, moved_dues inv i lt a (releasing p), ap (due a) e, elsewhere a other)

    entry_odds : (a : Ptr) → odd_dues a n (update pcs i (releasing p)) ≤ odd_dues a n pcs
    entry_odds a = omega (arith, moved_odds inv i lt a (releasing p))

    entry_leaves : leaving n (update pcs i (releasing p)) ≡ 1
    entry_leaves =
        let (at_first, below, stay, rest) = entry in
        omega (arith, moved_leaving inv i lt (releasing p), ap leaves e)

    pub Balanced-entry : Balanced n (record m { heap = h }) (update pcs i (releasing p))
    Balanced-entry =
        let (at_first, below, stay, rest) = entry in
        let away : (k : ℕ) → m.first + 1 ≤ k → k ≤ m.last → m.node_at k ≢ p = λ k from to same.
          let equal =
            one_node inv i lt k m.first (omega arith) to (omega arith) chained.first-le
              (same ∙ at_first) in
          absurd (omega arith) in
        record {
          balance = λ k from to.
              let above : m.first + 1 ≤ k = omega (arith, entry_leaves) in
              same_count (m.node_at k) (away k above to)
              ∙ rw (entry_other (m.node_at k) (away k above to))
                  (balanced.balance k (omega arith) to);
          single = λ k from to. omega (arith, balanced.single k from to, entry_odds (m.node_at k));
          alone = λ some_leave. (entry_leaves, rw (← at_first) entry_dues, below);
          charge = λ below'. omega (arith, entry_leaves);
        }

  -- A due is subtracted that is not the last one.
  module _ (p : Ptr) (r : ℕ) (e : pcs i ≡ subtracting p r) (more : (m.heap p).count ≢ r) where
    paid : (a : Ptr) → due a (subtracting p r) + dues a n (update pcs i idle) ≡ dues a n pcs
    paid a = omega (arith, moved_dues inv i lt a idle, ap (due a) e)

    paid_odds : (a : Ptr) → odd_dues a n (update pcs i idle) ≤ odd_dues a n pcs
    paid_odds a = omega (arith, moved_odds inv i lt a idle)

    paid_leaves : leaving n (update pcs i idle) ≡ leaving n pcs
    paid_leaves = omega (arith, moved_leaving inv i lt idle, ap leaves e)

    pub Balanced-subtract : Balanced n (subtracted p r m) (update pcs i idle)
    Balanced-subtract =
        let has : HasDue (subtracting p r) = rw e at (sound.has_due i) in
        record {
          balance = λ k from to.
              ground
                (arith, balanced.balance k (omega (arith, paid_leaves)) to, paid (m.node_at k));
          single = λ k from to. omega (arith, balanced.single k from to, paid_odds (m.node_at k));
          alone = λ some_leave.
              let (one, none_left, below) = balanced.alone (omega (arith, paid_leaves)) in
              (omega (arith, paid_leaves), omega (arith, paid (m.node_at m.first)), below);
          charge = λ below. elim (Bool-cases (leaving n pcs == 0)) [
            | inl none_leaves ↦ ground (
              arith,
              balanced.balance m.first (ground arith) chained.first-le,
              balanced.charge below,
              paid (m.node_at m.first),
              paid_leaves,
            )
            | inr some_leave ↦ ground (arith, paid_leaves)
          ];
        }

  -- The first node is released.
  module _ (p : Ptr) (e : pcs i ≡ releasing p) where
    abbrev next : Ptr
    next = (m.heap p).next

    at_next : next ≡ m.node_at (m.first + 1)
    at_next =
        let (at_first, below, alone, none_left) = releases inv i p lt e in
        rw at_first (first_linked inv i p lt e ∙ ap m.node_at (omega arith))

    left_dues :
        (a : Ptr) → dues a n (update pcs i (deleting next)) ≡ due a (deleting next) + dues a n pcs
    left_dues a = omega (arith, moved_dues inv i lt a (deleting next), ap (due a) e)

    left_odds : (a : Ptr) → odd_dues a n (update pcs i (deleting next)) ≡ odd_dues a n pcs
    left_odds a = ground (arith, moved_odds inv i lt a (deleting next), ap (odd_due a) e)

    left_leaves : leaving n (update pcs i (deleting next)) ≡ 0
    left_leaves =
        let (at_first, below, alone, none_left) = releases inv i p lt e in
        omega (arith, moved_leaving inv i lt (deleting next), ap leaves e)

    pub Balanced-release : Balanced n (moved_on m) (update pcs i (deleting next))
    Balanced-release =
        let (at_first, below, alone, none_left) = releases inv i p lt e in
        let is_next : (k : ℕ)
            → m.first + 1 ≤ k
            → k ≤ m.last
            → next ≡ m.node_at k
            → k ≡ m.first + 1 =
          λ k from to same.
            one_node inv i lt k (m.first + 1) (omega arith) to (omega arith) (omega arith)
              (sym same ∙ at_next) in
        record {
          balance = λ k from to.
              let above : m.first + 1 ≤ k = omega arith in
              ground (
                arith,
                balanced.balance k (omega arith) to,
                left_dues (m.node_at k),
                is_next k above to,
                at_next,
              );
          single = λ k from to. rw (left_odds (m.node_at k)) (balanced.single k (omega arith) to);
          alone = λ some_leave. absurd (omega (arith, left_leaves));
          charge = λ below'. ground (arith, left_dues (m.node_at (m.first + 1)), at_next);
        }
