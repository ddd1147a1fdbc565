-- ===== src/Stpc/Threads/Chain.antt =====
-- A step of an agent keeps the chain of the nodes of stpc/stpc.c.
use atomic_ptr_plus.Base.{
  ℕ, suc, ◌+◌, ◌≤◌, ◌<◌, ◌≡◌, ◌≢◌, inl, inr, refl, sym, ◌∙◌, ap, arith, update-same, update-other,
  List, weigh-le-sum_to,
}
use atomic_ptr_plus.Fifo.{Ptr, null}
use atomic_ptr_plus.Stpc.{StpcNode}
use atomic_ptr_plus.Stpc.Threads.{
  Shared, Pc, Move, releasing, filled, get, drop, check_last, check_more, subtract_last,
  subtract_more, release, delete, pop, give_back, alloc, swap, link, taken, with_tail, moved_on,
}
use atomic_ptr_plus.Stpc.Threads.Dues.{due, dues, leaves}
use atomic_ptr_plus.Stpc.Threads.Shape.{Chained, Inv, InChain, LinkLeft, Stands, leaving, Outside}

Chained-same :
    (m : Shared) (h : Ptr → StpcNode) (d : List (Ptr × Ptr)) (f : ℕ)
    → Chained m
    → Chained (record m { heap = h; deleted = d; finished = f })
Chained-same m h d f c = record {
  free-le = c.free-le;
  first-le = c.first-le;
  real = c.real;
  distinct = c.distinct;
  is_tail = c.is_tail;
  is_free_head = c.is_free_head;
  is_free_tail = c.is_free_tail;
  even = c.even;
  few = c.few;
}

module _ {n : ℕ} {m : Shared} {pcs : ℕ → Pc} (inv : Inv n m pcs) where
  open inv use {chained, balanced, sound, linked}

  -- An agent that releases is alone at the first node, which is linked to the next one.
  pub releases :
      (i : ℕ) (p : Ptr)
      → i < n
      → pcs i ≡ releasing p
      → (p ≡ m.node_at m.first)
        × (m.first < m.last)
        × (leaving n pcs ≡ 1)
        × (dues (m.node_at m.first) n pcs ≡ 0)
  releases i p lt e =
      let one : 1 ≤ leaving n pcs = ground (arith, weigh-le-sum_to leaves n pcs i) in
      let at_first : Stands m (releasing p) = rw e at (sound.stands i) in
      let (alone, none_left, below) = balanced.alone (omega arith) in
      (at_first, below, alone, none_left)

  -- An agent that links has a due.
  pub LinkLeft-due : (k : ℕ) → LinkLeft n m pcs k → 1 ≤ dues (m.node_at k) n pcs
  LinkLeft-due k (j, r, lt, e, some_due) =
      ground (arith, weigh-le-sum_to (due (m.node_at k)) n pcs j)

  pub first_linked :
      (i : ℕ) (p : Ptr)
      → i < n
      → pcs i ≡ releasing p
      → (m.heap (m.node_at m.first)).next ≡ m.node_at (suc m.first)
  first_linked i p lt e =
      let (at_first, below, alone, none_left) = releases i p lt e in
      elim (linked m.first chained.free-le below) [
        | inl next ↦ next
        | inr left ↦ absurd (omega (arith, LinkLeft-due m.first left))
      ]

  -- A free node is linked.
  pub free_linked : m.free < m.first → (m.heap (m.node_at m.free)).next ≡ m.node_at (suc m.free)
  free_linked below = elim (linked m.free (omega arith) (omega (arith, chained.first-le))) [
    | inl next ↦ next
    | inr (j, r, lt, e, some_due) ↦
        let stands : InChain m (m.node_at m.free) (m.node_at (suc m.free)) =
          rw e at (sound.stands j) in
        let (k, from_first, before_last, same, next) = stands in
        let at_free =
          chained.distinct k m.free (omega (arith, chained.free-le)) (omega arith) (omega arith)
            (omega (arith, chained.first-le)) same in
        absurd (omega arith)
  ]

  pub not_empty : m.free_head ≢ m.free_tail → m.free < m.first
  not_empty some_free = ground (arith, chained.is_free_head, chained.is_free_tail, chained.free-le)

  popped : (x : StpcNode) → m.free_head ≢ m.free_tail → Chained (taken x m)
  popped x some_free =
      let below = not_empty some_free in
      let next : (m.heap m.free_head).next ≡ m.node_at (m.free + 1) =
        rw chained.is_free_head (free_linked below ∙ ap m.node_at (omega arith)) in
      record {
        free-le = omega arith;
        first-le = chained.first-le;
        real = λ k from to. chained.real k (omega arith) to;
        distinct = λ j k fj tj fk tk e. chained.distinct j k (omega arith) tj (omega arith) tk e;
        is_tail = chained.is_tail;
        is_free_head = next;
        is_free_tail = chained.is_free_tail;
        even = chained.even;
        few = chained.few;
      }

  swapped : (p : Ptr) → p ≢ null → Outside m p → Chained (with_tail p m)
  swapped p some_node outside = record {
    free-le = chained.free-le;
    first-le = omega (arith, chained.first-le);
    real = λ k from to. ground (arith, chained.real k);
    distinct = λ j k fj tj fk tk e. ground (arith, chained.distinct j k, outside j, outside k);
    is_tail = sym (update-same m.node_at (suc m.last) p);
    is_free_head =
        chained.is_free_head
        ∙ sym (
            update-other m.node_at (suc m.last) m.free p
              (λ e. absurd (omega (arith, chained.free-le, chained.first-le))));
    is_free_tail =
        chained.is_free_tail
        ∙ sym (
            update-other m.node_at (suc m.last) m.first p
              (λ e. absurd (omega (arith, chained.first-le))));
    even = refl;
    few = omega arith;
  }

  released : (i : ℕ) (p : Ptr) → i < n → pcs i ≡ releasing p → Chained (moved_on m)
  released i p lt e =
      let (at_first, below, alone, none_left) = releases i p lt e in
      record {
        free-le = omega (arith, chained.free-le);
        first-le = omega arith;
        real = chained.real;
        distinct = chained.distinct;
        is_tail = chained.is_tail;
        is_free_head = chained.is_free_head;
        is_free_tail = rw chained.is_free_tail (first_linked i p lt e ∙ ap m.node_at (omega arith));
        even = chained.even;
        few = chained.few;
      }

  pub Move-Chained :
      (i : ℕ) {p p' : Pc} {m' : Shared} → i < n → pcs i ≡ p → Move pcs m p m' p' → Chained m'
  Move-Chained i lt e (get few) = record {
    free-le = chained.free-le;
    first-le = chained.first-le;
    real = chained.real;
    distinct = chained.distinct;
    is_tail = chained.is_tail;
    is_free_head = chained.is_free_head;
    is_free_tail = chained.is_free_tail;
    even = omega (arith, chained.even);
    few = omega arith;
  }
  Move-Chained i lt e drop = chained
  Move-Chained i lt e (check_last g) = chained
  Move-Chained i lt e (check_more g) = chained
  Move-Chained i lt e (subtract_last {p} {r} g) = Chained-same m _ m.deleted m.finished chained
  Move-Chained i lt e (subtract_more {p} {r} g) = Chained-same m _ m.deleted m.finished chained
  Move-Chained i lt e (release {p}) = released i p lt e
  Move-Chained i lt e (delete {p}) = Chained-same m _ _ _ chained
  Move-Chained i lt e (pop free_data payload g) = popped _ g
  Move-Chained i lt e (give_back g) = popped _ g
  Move-Chained i lt e (alloc p free_data payload g) = Chained-same m _ m.deleted m.finished chained
  Move-Chained i lt e (swap {p}) =
      let stands : Stands m (filled p) = rw e at (sound.stands i) in
      let (some_node, count, outside) = stands in swapped p some_node outside
  Move-Chained i lt e (link {old} {p} {r}) = Chained-same m _ m.deleted m.finished chained
