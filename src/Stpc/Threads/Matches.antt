-- ===== src/Stpc/Threads/Matches.antt =====
-- stpc/stpc.c: when the proxy whose calls are single steps and the one with interleaved calls agree.
use atomic_ptr_plus.Base.{
  ℕ, ◌+◌, ◌≡◌, refl, ◌∙◌, ap, arith, sub_word, ◌==◌, Bool-cases, inl, inr, append-nil,
}
use atomic_ptr_plus.Fifo.{Ptr, null}
use atomic_ptr_plus.Stpc.{
  StpcProxy, put_node, delete_data, release_node, reference, guard_bit, link_node, count_try,
}
use atomic_ptr_plus.Stpc.Threads.{Shared, run_delete, moved_on, subtracted, linked_to, with_tail}

-- The two models of a proxy agree.
abbrev pub Matches : StpcProxy → Shared → Type 0
Matches s m =
    ((a : Ptr) → m.heap a ≡ s.heap a)
    × (m.tail ≡ s.tail)
    × (m.sequence ≡ s.sequence)
    × (m.free_tail ≡ s.free_tail)
    × (m.free_head ≡ s.free_head)
    × (m.deleted ≡ s.deleted)

pub release-Matches :
    (s : StpcProxy) (m : Shared) → Matches s m → Matches (release_node s) (moved_on m)
unfolding release_node
release-Matches s m (heap, tail, sequence, free_tail, free_head, deleted) = (
  heap,
  tail,
  sequence,
  ap (λ x. x.next) (heap m.free_tail) ∙ ap (λ x. (s.heap x).next) free_tail,
  free_head,
  deleted,
)

pub delete-Matches :
    (p : Ptr) (s : StpcProxy) (m : Shared)
    → Matches s m
    → Matches (delete_data p s) (run_delete p m)
unfolding delete_data
delete-Matches p s m (heap, tail, sequence, free_tail, free_head, deleted) =
    elim (Bool-cases ((s.heap p).free_data == null)) [
      | inl no_function ↦ rw no_function (
        λ a. ground (arith, heap p, heap a),
        tail,
        sequence,
        free_tail,
        free_head,
        rw (heap p, no_function) (append-nil m.deleted ∙ deleted),
      )
      | inr function ↦ elim (Bool-cases ((s.heap p).payload == null)) [
        | inl no_payload ↦
            rw (function, no_payload)
              (
                λ a. ground (arith, heap p, heap a),
                tail,
                sequence,
                free_tail,
                free_head,
                rw (heap p, function, no_payload) (append-nil m.deleted ∙ deleted),
              )
        | inr some_payload ↦
            rw (function, some_payload)
              (
                λ a. ground (arith, heap p, heap a),
                tail,
                sequence,
                free_tail,
                free_head,
                rw (heap p, function, some_payload, deleted) refl,
              )
      ]
    ]

pub subtract-Matches :
    (p : Ptr) (r : ℕ) (s : StpcProxy) (m : Shared)
    → Matches s m
    → Matches
        (record s {
          heap = put_node p (record (s.heap p) { count = sub_word (s.heap p).count r }) s.heap;
        })
        (subtracted p r m)
subtract-Matches p r s m (heap, tail, sequence, free_tail, free_head, deleted) =
    (λ a. ground (arith, heap p, heap a), tail, sequence, free_tail, free_head, deleted)

-- The proxy with the count of a node set for the queue.
abbrev pub counted : Ptr → StpcProxy → StpcProxy
counted node s = record s {
  heap =
      put_node node (record (s.heap node) { count = guard_bit + (reference + reference) }) s.heap;
}

pub linked-Matches :
    (p : Ptr) (s : StpcProxy) (m : Shared)
    → Matches (counted p s) m
    → Matches (link_node p s) (linked_to m.tail p (with_tail p m))
unfolding link_node
linked-Matches p s m (heap, tail, sequence, free_tail, free_head, deleted) =
    (λ a. ground (arith, heap m.tail, heap a, tail), refl, refl, free_tail, free_head, deleted)

pub count_try-Matches :
    (attempts : ℕ) (s : StpcProxy) (m : Shared) → Matches s m → Matches (count_try attempts s) m
unfolding count_try
count_try-Matches attempts s m matches = matches
