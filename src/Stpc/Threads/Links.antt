-- ===== src/Stpc/Threads/Links.antt =====
-- A step of an agent of stpc/stpc.c keeps the links of the nodes.
use atomic_ptr_plus.Base.{
  ℕ, suc, ◌+◌, ◌≤◌, ◌<◌, ◌≡◌, ◌≢◌, ◌⊎◌, inl, inr, refl, sym, ◌∙◌, ap, arith, update, update-same,
  ◌==◌, ==_refl, Bool-cases, true, false, Bool,
}
use atomic_ptr_plus.Fifo.{Ptr}
use atomic_ptr_plus.Stpc.{zero_node, StpcNode}
use atomic_ptr_plus.Stpc.Threads.{
  Shared, Pc, Move, idle, holds, checking, subtracting, releasing, deleting, filled, linking, get,
  drop, check_last, check_more, subtract_last, subtract_more, release, delete, pop, give_back,
  alloc, swap, link, put, run_delete, new_tail, subtracted, taken, with_tail, linked_to, rcount_of,
}
use atomic_ptr_plus.Stpc.Threads.Dues.{rcount_of_lem}
use atomic_ptr_plus.Stpc.Threads.Shape.{Inv, InChain, LinkLeft}
use atomic_ptr_plus.Stpc.Threads.Chain.{not_empty}
use atomic_ptr_plus.Stpc.Threads.Agents.{older}

abbrev pub Linked : ℕ → Shared → (ℕ → Pc) → Type 0
Linked n m pcs =
    (k : ℕ)
    → m.free ≤ k
    → k < m.last
    → ((m.heap (m.node_at k)).next ≡ m.node_at (suc k)) ⊎ LinkLeft n m pcs k

abbrev links_from : Ptr → Pc → Bool
links_from a (linking old p r) = old == a
links_from a _ = false

false-ne-true : false ≢ true
false-ne-true e = cc

module _ {n : ℕ} {m : Shared} {pcs : ℕ → Pc} (inv : Inv n m pcs) (i : ℕ) (lt : i < n) where
  open inv use {chained, sound, linked}

  LinkLeft-other :
      {p : Pc} (p' : Pc) (k : ℕ)
      → pcs i ≡ p
      → links_from (m.node_at k) p ≡ false
      → LinkLeft n m pcs k
      → LinkLeft n m (update pcs i p') k
  LinkLeft-other p' k own other (j, r, below, e, some_due) = (
    j,
    r,
    below,
    elim (Bool-cases (i == j)) [
      | inl self ↦
          let same : i ≡ j = ground arith in
          let from : links_from (m.node_at k) (pcs j) ≡ true = rw e (==_refl (m.node_at k)) in
          absurd (
            false-ne-true
              (sym other ∙ ap (links_from (m.node_at k)) (sym own ∙ ap pcs same) ∙ from))
      | inr away ↦ rw away e
    ],
    some_due,
  )

  -- A step that links no node.
  Linked-kept :
      (h : Ptr → StpcNode) {p : Pc} (p' : Pc) (lower : ℕ)
      → pcs i ≡ p
      → ((a : Ptr) → links_from a p ≡ false)
      → m.free ≤ lower
      → ((k : ℕ) → lower ≤ k → k ≤ m.last → (h (m.node_at k)).next ≡ (m.heap (m.node_at k)).next)
      → (k : ℕ) → lower ≤ k
      → k < m.last
      → ((h (m.node_at k)).next ≡ m.node_at (suc k)) ⊎ LinkLeft n m (update pcs i p') k
  Linked-kept h p' lower own no_link low same k from below = elim (linked k (omega arith) below) [
    | inl next ↦ inl (same k from (omega arith) ∙ next)
    | inr left ↦ inr (LinkLeft-other p' k own (no_link (m.node_at k)) left)
  ]

  Linked-swap :
      (p : Ptr)
      → pcs i ≡ filled p
      → Linked n (with_tail p m) (update pcs i (linking m.tail p (rcount_of m.sequence)))
  Linked-swap p own k from below = elim (Bool-cases (k == m.last)) [
    | inl end ↦
        let equal : k ≡ m.last = ground arith in
        let m' = with_tail p m in
        let r = rcount_of m.sequence in
        let at_old : m.tail ≡ m'.node_at k =
          chained.is_tail ∙ ap m.node_at (sym equal) ∙ sym (older m chained p k (omega arith)) in
        let at_new : p ≡ m'.node_at (suc k) =
          sym (ap (λ (x : ℕ). m'.node_at (suc x)) equal ∙ update-same m.node_at (suc m.last) p) in
        let here = update-same pcs i (linking m.tail p r) in
        inr (
          i,
          r,
          lt,
          here ∙ ap (λ x. linking x p r) at_old ∙ ap (λ y. linking (m'.node_at k) y r) at_new,
          omega
              (arith, rcount_of_lem m.sequence chained.even chained.few, chained.even, chained.few),
        )
    | inr inner ↦
        let lower : k < m.last = ground arith in
        rw (older m chained p k (omega arith), older m chained p (suc k) (omega arith))
          (elim (linked k from lower) [
            | inl next ↦ inl next
            | inr left ↦
                inr (LinkLeft-other (linking m.tail p (rcount_of m.sequence)) k own refl left)
          ])
  ]

  Linked-link :
      (old p : Ptr) (r : ℕ)
      → pcs i ≡ linking old p r
      → Linked n (linked_to old p m) (update pcs i (checking old r))
  Linked-link old p r own k from below = elim (Bool-cases (old == m.node_at k)) [
    | inl here ↦
        let stands : InChain m old p = rw own at (sound.stands i) in
        let (k', from', below', at_k, at_next) = stands in
        let same : k ≡ k' =
          chained.distinct k k' from (omega arith) (omega (arith, chained.free-le)) (omega arith)
            (ground arith) in
        inl (ground (arith, at_next, ap (λ (x : ℕ). m.node_at (suc x)) same))
    | inr away ↦ elim (linked k from below) [
      | inl next ↦ inl (rw away next)
      | inr left ↦ inr (LinkLeft-other (checking old r) k own away left)
    ]
  ]

  later_apart :
      m.free_head ≢ m.free_tail → (k : ℕ) → m.free + 1 ≤ k → k ≤ m.last → m.free_head ≢ m.node_at k
  later_apart g k from to same =
      let below = not_empty inv g in
      let equal =
        chained.distinct m.free k (omega arith) (omega (arith, chained.first-le)) (omega arith) to
          (sym chained.is_free_head ∙ same) in
      absurd (omega arith)

  pub Move-Linked :
      {p p' : Pc} {m' : Shared} → pcs i ≡ p → Move pcs m p m' p' → Linked n m' (update pcs i p')
  Move-Linked e (get few) =
      Linked-kept m.heap (holds m.tail) m.free e (λ a. refl) (omega arith) (λ k from to. refl)
  Move-Linked e (drop {p}) =
      Linked-kept m.heap (checking p 2) m.free e (λ a. refl) (omega arith) (λ k from to. refl)
  Move-Linked e (check_last {p} g) =
      Linked-kept m.heap (releasing p) m.free e (λ a. refl) (omega arith) (λ k from to. refl)
  Move-Linked e (check_more {p} {r} g) =
      Linked-kept m.heap (subtracting p r) m.free e (λ a. refl) (omega arith) (λ k from to. refl)
  Move-Linked e (subtract_last {p} {r} g) =
      Linked-kept (subtracted p r m).heap (releasing p) m.free e (λ a. refl) (omega arith)
        (λ k from to. ground arith)
  Move-Linked e (subtract_more {p} {r} g) =
      Linked-kept (subtracted p r m).heap idle m.free e (λ a. refl) (omega arith)
        (λ k from to. ground arith)
  Move-Linked e (release {p}) =
      Linked-kept m.heap (deleting (m.heap p).next) m.free e (λ a. refl) (omega arith)
        (λ k from to. refl)
  Move-Linked e (delete {p}) =
      Linked-kept (run_delete p m).heap (checking p 2) m.free e (λ a. refl) (omega arith)
        (λ k from to. ground arith)
  Move-Linked e (pop free_data payload g) =
      let after = taken (new_tail free_data payload) m in
      Linked-kept after.heap (filled m.free_head) after.free e (λ a. refl) (omega arith)
        (λ k from to. ground (arith, later_apart g k from to))
  Move-Linked e (give_back g) =
      let after = taken zero_node m in
      Linked-kept after.heap idle after.free e (λ a. refl) (omega arith)
        (λ k from to. ground (arith, later_apart g k from to))
  Move-Linked e (alloc p free_data payload g) =
      Linked-kept (put p (new_tail free_data payload) m).heap (filled p) m.free e (λ a. refl)
        (omega arith) (λ k from to. ground (arith, g.not_queued k from to))
  Move-Linked e (swap {p}) = Linked-swap p e
  Move-Linked e (link {old} {p} {r}) = Linked-link old p r e
