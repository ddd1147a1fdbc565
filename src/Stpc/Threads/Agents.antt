-- ===== src/Stpc/Threads/Agents.antt =====
-- A step of an agent of stpc/stpc.c, and what the other agents know of the nodes.
use atomic_ptr_plus.Base.{
  ℕ, suc, ◌≤◌, ◌<◌, ◌≡◌, ◌≢◌, inl, inr, refl, sym, ◌∙◌, ap, arith, update, update-other, List,
  weigh-le-sum_to, sum_to-update, ◌==◌, Bool-cases, ltb,
}
use atomic_ptr_plus.Fifo.{Ptr}
use atomic_ptr_plus.Stpc.{StpcNode, zero_node}
use atomic_ptr_plus.Stpc.Threads.{
  Shared, Pc, Move, idle, holds, checking, subtracting, releasing, deleting, filled, linking, get,
  drop, check_last, check_more, subtract_last, subtract_more, release, delete, pop, give_back,
  alloc, swap, link, put, run_delete, new_tail, with_reference, subtracted, moved_on, taken,
  with_tail, linked_to,
}
use atomic_ptr_plus.Stpc.Threads.Dues.{due, dues, leaves, HasDue}
use atomic_ptr_plus.Stpc.Threads.Shape.{Chained, Inv, Stands, leaving, Outside, InQueue}
use atomic_ptr_plus.Stpc.Threads.Chain.{releases, not_empty}

-- The heap may change, but not the count of a node that an agent has filled.
Stands-heap :
    (m : Shared) (h : Ptr → StpcNode) (d : List (Ptr × Ptr)) (f s : ℕ) (q : Pc)
    → ((p : Ptr) → q ≡ filled p → (h p).count ≡ (m.heap p).count)
    → Stands m q
    → Stands (record m { heap = h; deleted = d; finished = f; sequence = s }) q
Stands-heap m h d f s idle same st = st
Stands-heap m h d f s (holds p) same st = st
Stands-heap m h d f s (checking p r) same st = st
Stands-heap m h d f s (subtracting p r) same st = st
Stands-heap m h d f s (releasing p) same st = st
Stands-heap m h d f s (deleting p) same st = st
Stands-heap m h d f s (filled p) same (real, count, outside) = (real, same p refl ∙ count, outside)
Stands-heap m h d f s (linking old p r) same st = st

Stands-pop :
    (m : Shared) (x : StpcNode) (q : Pc)
    → ((p : Ptr) → q ≡ filled p → Outside m p → p ≢ m.free_head)
    → Stands m q
    → Stands (taken x m) q
Stands-pop m x idle same st = st
Stands-pop m x (holds p) same st = st
Stands-pop m x (checking p r) same st = st
Stands-pop m x (subtracting p r) same st = st
Stands-pop m x (releasing p) same st = st
Stands-pop m x (deleting p) same st = st
Stands-pop m x (filled p) same (real, count, outside) =
    (real, ground (arith, same p refl outside), λ k from to. outside k (omega arith) to)
Stands-pop m x (linking old p r) same st = st

-- A new tail.
module _ (m : Shared) (c : Chained m) (p : Ptr) where
  pub older : (k : ℕ) → k ≤ m.last → (with_tail p m).node_at k ≡ m.node_at k
  older k le = update-other m.node_at (suc m.last) k p (λ e. absurd (omega arith))

  InQueue-swap : (a : Ptr) → InQueue m a → InQueue (with_tail p m) a
  InQueue-swap a (k, from, to, at_k) = (k, from, omega arith, older k to ∙ at_k)

  Stands-swap :
      (q : Pc) → ((a : Ptr) → q ≡ filled a → a ≢ p) → Stands m q → Stands (with_tail p m) q
  Stands-swap idle other st = st
  Stands-swap (holds a) other st = InQueue-swap a st
  Stands-swap (checking a r) other st = InQueue-swap a st
  Stands-swap (subtracting a r) other st = InQueue-swap a st
  Stands-swap (releasing a) other st = st ∙ sym (older m.first c.first-le)
  Stands-swap (deleting a) other st = st ∙ sym (older m.first c.first-le)
  Stands-swap (filled a) other (real, count, outside) =
      (real, count, λ k from to. ground (arith, outside k, other a refl))
  Stands-swap (linking old a r) other (k, from, to, at_k, at_next) =
      (k, from, omega arith, older k (omega arith) ∙ at_k, older (suc k) (omega arith) ∙ at_next)

-- The first node is released, to which no agent has a due, and which no other agent releases.
module _ (m : Shared) where
  InQueue-release : (a : Ptr) → a ≢ m.node_at m.first → InQueue m a → InQueue (moved_on m) a
  InQueue-release a other (k, from, to, at_k) = (
    k,
    elim (Bool-cases (k == m.first)) [
      | inl here ↦
          let same : k ≡ m.first = ground arith in absurd (other (sym at_k ∙ ap m.node_at same))
      | inr away ↦ ground arith
    ],
    to,
    at_k,
  )

  Stands-release :
      (q : Pc)
      → due (m.node_at m.first) q ≡ 0
      → leaves q ≡ 0
      → HasDue q
      → Stands m q
      → Stands (moved_on m) q
  unfolding InQueue-release
  Stands-release idle none_due stays has st = st
  Stands-release (holds a) none_due stays has st = InQueue-release a (λ e. ground arith) st
  Stands-release (checking a r) none_due stays has st = InQueue-release a (λ e. ground arith) st
  Stands-release (subtracting a r) none_due stays has st = InQueue-release a (λ e. ground arith) st
  Stands-release (releasing a) none_due stays has st = absurd (omega arith)
  Stands-release (deleting a) none_due stays has st = absurd (ground arith)
  Stands-release (filled a) none_due stays has st = st
  Stands-release (linking old a r) none_due stays has (k, from, to, at_k, at_next) =
      let (k', from', to', at_k') =
        InQueue-release old (λ e. ground arith) (k, from, omega arith, at_k) in
      (k, from', to, at_k, at_next)

module _ {n : ℕ} {m : Shared} {pcs : ℕ → Pc} (inv : Inv n m pcs) where
  open inv use {chained, balanced, sound, linked}

  pub busy : (j : ℕ) → pcs j ≢ idle → j < n
  busy j some_work = elim (Bool-cases (ltb j n)) [
    | inl below ↦ ground arith
    | inr above ↦ absurd (some_work (sound.beyond j (ground arith)))
  ]

  pub due-zero : (a : Ptr) (j : ℕ) → dues a n pcs ≡ 0 → due a (pcs j) ≡ 0
  due-zero a j none_left = elim (Bool-cases (ltb j n)) [
    | inl below ↦ omega (arith, weigh-le-sum_to (due a) n pcs j (ground arith))
    | inr above ↦ rw (sound.beyond j (ground arith)) refl
  ]

  leaves-zero :
      (i j : ℕ) (p : Ptr)
      → i < n
      → pcs i ≡ releasing p
      → j ≢ i
      → leaving n pcs ≡ 1
      → leaves (pcs j) ≡ 0
  leaves-zero i j p lt e other alone = elim (Bool-cases (ltb j n)) [
    | inl below ↦ omega (
      arith,
      sum_to-update leaves n pcs i idle lt,
      weigh-le-sum_to leaves n (update pcs i idle) j (ground arith),
      ap leaves e,
      ap leaves (update-other pcs i j idle other),
    )
    | inr above ↦ rw (sound.beyond j (ground arith)) refl
  ]

  -- A node that is not released is not one that an agent has filled.
  pub queued_apart : (j : ℕ) (a q : Ptr) → pcs j ≡ filled q → InQueue m a → q ≢ a
  queued_apart j a q f (k, from, to, at_k) e =
      let stands : Stands m (filled q) = rw f at (sound.stands j) in
      let (real, count, outside) = stands in
      outside k (omega (arith, chained.free-le)) to (at_k ∙ sym e)

  pub free_apart : m.free_head ≢ m.free_tail → (q : Ptr) → Outside m q → q ≢ m.free_head
  free_apart some_free q outside e =
      outside m.free (omega arith) (omega (arith, not_empty inv some_free, chained.first-le))
        (sym (e ∙ chained.is_free_head))

  -- Another agent stands as before.
  pub Stands-other :
      (i j : ℕ) {p p' : Pc} {m' : Shared}
      → i < n
      → j ≢ i
      → pcs i ≡ p
      → Move pcs m p m' p'
      → Stands m' (pcs j)
  Stands-other i j lt other e (get few) =
      Stands-heap m m.heap m.deleted m.finished (with_reference m).sequence (pcs j) (λ p f. refl)
        (sound.stands j)
  Stands-other i j lt other e drop = sound.stands j
  Stands-other i j lt other e (check_last g) = sound.stands j
  Stands-other i j lt other e (check_more g) = sound.stands j
  Stands-other i j lt other e (subtract_last {p} {r} g) =
      let own : Stands m (subtracting p r) = rw e at (sound.stands i) in
      Stands-heap m (subtracted p r m).heap m.deleted m.finished m.sequence (pcs j)
        (λ q f. ground (arith, queued_apart j p q f own)) (sound.stands j)
  Stands-other i j lt other e (subtract_more {p} {r} g) =
      let own : Stands m (subtracting p r) = rw e at (sound.stands i) in
      Stands-heap m (subtracted p r m).heap m.deleted m.finished m.sequence (pcs j)
        (λ q f. ground (arith, queued_apart j p q f own)) (sound.stands j)
  Stands-other i j lt other e (release {p}) =
      let (at_first, below, alone, none_left) = releases inv i p lt e in
      Stands-release m (pcs j) (due-zero (m.node_at m.first) j none_left)
        (leaves-zero i j p lt e other alone) (sound.has_due j) (sound.stands j)
  Stands-other i j lt other e (delete {p}) =
      let after = run_delete p m in
      Stands-heap m after.heap after.deleted after.finished m.sequence (pcs j) (λ q f. ground arith)
        (sound.stands j)
  Stands-other i j lt other e (pop free_data payload g) =
      Stands-pop m (new_tail free_data payload) (pcs j) (λ q f outside. free_apart g q outside)
        (sound.stands j)
  Stands-other i j lt other e (give_back g) =
      Stands-pop m zero_node (pcs j) (λ q f outside. free_apart g q outside) (sound.stands j)
  Stands-other i j lt other e (alloc p free_data payload g) =
      Stands-heap m (put p (new_tail free_data payload) m).heap m.deleted m.finished m.sequence
        (pcs j) (λ q f. ground (arith, g.not_filled j q f)) (sound.stands j)
  Stands-other i j lt other e (swap {p}) =
      Stands-swap m chained p (pcs j)
        (λ a f same. other (sound.unlike j i p (f ∙ ap filled same) e)) (sound.stands j)
  Stands-other i j lt other e (link {old} {p} {r}) =
      Stands-heap m (linked_to old p m).heap m.deleted m.finished m.sequence (pcs j)
        (λ q f. ground arith) (sound.stands j)
