-- ===== src/Stpc/Threads/Queued.antt =====
-- The counts of the nodes of stpc/stpc.c, when a node becomes the tail.
use atomic_ptr_plus.Base.{
  ℕ, suc, ◌+◌, ◌%◌, ◌≤◌, ◌<◌, ◌≡◌, ◌≢◌, inl, inr, sym, ◌∙◌, ap, arith, update, update-same, ◌==◌,
  Bool-cases, word, sum_to-found,
}
use atomic_ptr_plus.Fifo.{Ptr}
use atomic_ptr_plus.Stpc.Threads.{
  Shared, Pc, idle, holds, checking, subtracting, releasing, deleting, filled, linking, with_tail,
  rcount_of,
}
use atomic_ptr_plus.Stpc.Threads.Dues.{due, odd_due, dues, odd_dues, leaves, rcount_of_lem}
use atomic_ptr_plus.Stpc.Threads.Shape.{
  Inv, InQueue, Stands, Balanced, Outside, leaving, kept, at_tail,
}
use atomic_ptr_plus.Stpc.Threads.Agents.{older}
use atomic_ptr_plus.Stpc.Threads.Counts.{moved_dues, moved_odds, moved_leaving, tail_only}

module _ {n : ℕ} {m : Shared} {pcs : ℕ → Pc} (inv : Inv n m pcs) (i : ℕ) (lt : i < n) where
  open inv use {chained, balanced, sound}

  -- A node with a due is in the queue.
  pub due-InQueue : (a : Ptr) (q : Pc) → Stands m q → 0 < due a q → InQueue m a
  due-InQueue a idle st some_due = absurd (omega arith)
  due-InQueue a (holds p) (k, from, to, at_k) some_due = (k, from, to, ground arith)
  due-InQueue a (checking p r) (k, from, to, at_k) some_due = (k, from, to, ground arith)
  due-InQueue a (subtracting p r) (k, from, to, at_k) some_due = (k, from, to, ground arith)
  due-InQueue a (releasing p) st some_due = absurd (omega arith)
  due-InQueue a (deleting p) st some_due = (m.first, omega arith, chained.first-le, ground arith)
  due-InQueue a (filled p) st some_due = absurd (omega arith)
  due-InQueue a (linking old p r) (k, from, to, at_k, at_next) some_due =
      (k, from, omega arith, ground arith)

  not_queued : (a : Ptr) → Outside m a → ¬ InQueue m a
  not_queued a outside (k, from, to, at_k) = outside k (omega (arith, chained.free-le)) to at_k

  no_dues : (a : Ptr) → Outside m a → dues a n pcs ≡ 0
  no_dues a outside = elim (Bool-cases (dues a n pcs == 0)) [
    | inl empty ↦ ground arith
    | inr some_due ↦
        let (j, below, found) = sum_to-found (due a) n pcs (ground arith) in
        absurd (not_queued a outside (due-InQueue a (pcs j) (sound.stands j) found))
  ]

  no_odds : (a : Ptr) → Outside m a → odd_dues a n pcs ≡ 0
  no_odds a outside = elim (Bool-cases (odd_dues a n pcs == 0)) [
    | inl empty ↦ ground arith
    | inr some_due ↦
        let (j, below, found) = sum_to-found (odd_due a) n pcs (ground arith) in
        absurd (not_queued a outside (due-InQueue a (pcs j) (sound.stands j) (omega arith)))
  ]

  -- A node becomes the tail.
  module _ (p : Ptr) (e : pcs i ≡ filled p) where
    abbrev link_pc : Pc
    link_pc = linking m.tail p (rcount_of m.sequence)

    swap_dues : (a : Ptr) → dues a n (update pcs i link_pc) ≡ due a link_pc + dues a n pcs
    swap_dues a = omega (arith, moved_dues inv i lt a link_pc, ap (due a) e)

    swap_odds :
        (a : Ptr) → odd_dues a n (update pcs i link_pc) ≡ odd_due a link_pc + odd_dues a n pcs
    swap_odds a = omega (arith, moved_odds inv i lt a link_pc, ap (odd_due a) e)

    swap_leaves : leaving n (update pcs i link_pc) ≡ leaving n pcs
    swap_leaves = omega (arith, moved_leaving inv i lt link_pc, ap leaves e)

    filled-Stands : Stands m (filled p)
    filled-Stands = rw e at (sound.stands i)

    tail_apart : m.tail ≢ p
    tail_apart same =
        let (real, count, outside) = filled-Stands in
        outside m.last (omega (arith, chained.free-le, chained.first-le)) (omega arith)
          (sym chained.is_tail ∙ same)

    abbrev Expected : ℕ → Type 0
    Expected k =
        let m' = with_tail p m in
        (m'.heap (m'.node_at k)).count
        ≡ (dues (m'.node_at k) n (update pcs i link_pc) + kept m' k) % word

    at_new : Expected (suc m.last)
    at_new =
        let (real, count, outside) = filled-Stands in
        rw (update-same m.node_at (suc m.last) p)
          (ground (arith, no_dues p outside, swap_dues p, tail_apart, chained.first-le))

    at_old : (k : ℕ) → m.first + leaving n pcs ≤ k → k ≤ m.last → Expected k
    at_old k from to = rw (older m chained p k to) (
        ground (
          arith,
          balanced.balance k from to,
          swap_dues (m.node_at k),
          tail_only inv i lt k (omega arith) to,
          chained.is_tail,
          rcount_of_lem m.sequence chained.even chained.few,
          chained.even,
          chained.few,
        ))

    abbrev Fair : ℕ → Type 0
    Fair k =
        let m' = with_tail p m in
        odd_dues (m'.node_at k) n (update pcs i link_pc) + at_tail m' k ≤ 1

    Fair-new : Fair (suc m.last)
    Fair-new =
        let (real, count, outside) = filled-Stands in
        rw (update-same m.node_at (suc m.last) p)
          (ground (arith, no_odds p outside, swap_odds p, tail_apart))

    Fair-old : (k : ℕ) → m.first ≤ k → k ≤ m.last → Fair k
    Fair-old k from to = rw (older m chained p k to) (
        ground
          (arith, balanced.single k from to, swap_odds (m.node_at k), tail_only inv i lt k from to))

    pub Balanced-swap : Balanced n (with_tail p m) (update pcs i link_pc)
    Balanced-swap = record {
      balance = λ k from to. elim (Bool-cases (k == suc m.last)) [
        | inl new ↦ let equal : k ≡ suc m.last = ground arith in rw equal at_new
        | inr old ↦ at_old k (omega (arith, swap_leaves)) (ground arith)
      ];
      single = λ k from to. elim (Bool-cases (k == suc m.last)) [
        | inl new ↦ let equal : k ≡ suc m.last = ground arith in rw equal Fair-new
        | inr old ↦ Fair-old k from (ground arith)
      ];
      alone = λ some_leave.
          let (one, none_left, below) = balanced.alone (omega (arith, swap_leaves)) in
          (
            omega (arith, swap_leaves),
            rw (older m chained p m.first chained.first-le) (
                ground (
                  arith,
                  swap_dues (m.node_at m.first),
                  tail_only inv i lt m.first (omega arith) chained.first-le,
                )),
            omega arith,
          );
      charge = λ below.
          let sum = swap_dues (m.node_at m.first) in
          rw (older m chained p m.first chained.first-le) (elim (Bool-cases (m.first == m.last)) [
            | inl empty ↦
                let equal : m.first ≡ m.last = ground arith in
                let here : m.tail ≡ m.node_at m.first =
                  chained.is_tail ∙ ap m.node_at (sym equal) in
                ground (
                  arith,
                  sum,
                  here,
                  rcount_of_lem m.sequence chained.even chained.few,
                  chained.even,
                  chained.few,
                )
            | inr some_queued ↦
                omega (arith, sum, swap_leaves, balanced.charge (ground (arith, chained.first-le)))
          ]);
    }
