-- ===== src/Rcpc/Add.antt =====
-- rcpc/rcpc.c `_addNode` and `rcpcAddNode`: a node becomes the tail.
use atomic_ptr_plus.Base.{
  ℕ, suc, ◌+◌, ◌*◌, ◌%◌, ◌<◌, ◌≡◌, ◌≢◌, refl, sym, ◌∙◌, ap, some, arith, ==_yes, true, word,
  add_word, sub_word, update-same, update-other, leb,
}
use atomic_ptr_plus.Fifo.{Ptr, null}
use atomic_ptr_plus.Rcpc.{
  reference, guard_bit, RcpcNode, RcpcProxy, put_node, set_node_sequence,
  rcpc_drop_proxy_node_reference,
}
use atomic_ptr_plus.Rcpc.Calls.{add_from, add_node, rcpc_add_node}
use atomic_ptr_plus.Rcpc.Reference.{
  Refs, drop-held, drop_one, referenced, get-tail, referenced-Refs,
}
use atomic_ptr_plus.Rcpc.Settle.{settled, follows, Swung, set_node_sequence-Swung}

-- The node as `_addNode` links it.
abbrev linking : RcpcNode → RcpcNode
linking m = record m { sequence = 0; count = guard_bit + (reference + reference) }

abbrev linked : Ptr → Ptr → RcpcProxy → RcpcProxy
linked old node s =
    let t = put_node node (linking (s.heap node)) s in
    put_node old (record (t.heap old) { next = node }) t

leb_zero : (k : ℕ) → leb 0 k ≡ true
leb_zero k = ground arith

add_from-tail :
    (fuel : ℕ) (old node : Ptr) (s u : RcpcProxy)
    → (s.heap old).next ≡ null
    → set_node_sequence fuel old (put_node old (record (s.heap old) { next = node }) s) ≡ some u
    → add_from (suc fuel) old 0 0 node s ≡ some (true, 1, u)
unfolding add_from
add_from-tail fuel old node s u last set =
    rw (leb_zero s.latency, ==_yes (s.heap old).next null last, set) refl

-- The tail is the new node, to which the old one and the tail pointer refer; `owed` is what is left
-- of the count of the old one.
abbrev pub Added : Ptr → Ptr → ℕ → RcpcProxy → RcpcProxy → Type 0
Added old node owed s t =
    ((t.heap old).count ≡ owed)
    × ((t.heap old).next ≡ node)
    × (t.tail ≡ node)
    × (t.deleted ≡ s.deleted)
    × ((t.heap node).payload ≡ (s.heap node).payload)
    × ((t.heap node).free_data ≡ (s.heap node).free_data)
    × Refs t 1

settled_count :
    (c q p held : ℕ)
    → reference * held + 5 < word
    → (c + sub_word q p) % word ≡ guard_bit + reference + reference * held
    → add_word c (sub_word (sub_word q p) guard_bit) ≡ reference + reference * held
settled_count c q p held small h = omega arith

linking_count :
    (q : ℕ)
    → (guard_bit + (reference + reference) + sub_word q q) % word
      ≡ guard_bit + reference + reference * 1
linking_count q = omega arith

Swung-Added :
    (old node : Ptr) (n m : RcpcNode) (s v u : RcpcProxy) (held : ℕ)
    → n.next ≡ node
    → add_word n.count (sub_word (sub_word v.sequence n.prev_sequence) guard_bit)
      ≡ reference + reference * suc held
    → reference * suc held + 5 < word
    → m ≡ linking (s.heap node)
    → (s.heap node).next ≡ null
    → v.sequence % 2 ≡ 1
    → v.deleted ≡ s.deleted
    → Swung old n m v u
    → Added old node (reference * suc held) s u
Swung-Added old node n m s v u held next total small m_node fresh odd deleted
      (u_old, u_next, tail, seq, kept) =
    let u_node : u.heap node ≡ follows (linking (s.heap node)) v.sequence =
      ap u.heap (sym next) ∙ u_next ∙ ap (λ x. follows x v.sequence) m_node in
    (
      rw (u_old, total) (omega arith),
      rw u_old next,
      tail ∙ next,
      kept ∙ deleted,
      rw u_node refl,
      rw u_node refl,
      rw (tail ∙ next, u_node, seq) (fresh, refl, linking_count v.sequence, refl, omega arith, odd),
    )

pub add_node-Added :
    (fuel : ℕ) (node : Ptr) (s : RcpcProxy) (held : ℕ)
    → reference * suc held + 5 < word
    → node ≢ null
    → node ≢ s.tail
    → (s.heap node).next ≡ null
    → Refs s (suc held)
    → (t : RcpcProxy) × (add_node (suc (suc fuel)) s.tail 0 node s ≡ some (true, t))
      × Added s.tail node (reference * suc held) s t
unfolding add_node
add_node-Added fuel node s held small real apart fresh (last, unset, sum, odd, bound, odd_seq) =
    let n = s.heap s.tail in
    let m = linking (s.heap node) in
    let n1 : RcpcNode = record n { next = node } in
    let s0 = put_node node m s in
    let at_old : s0.heap s.tail ≡ n = update-other s.heap node s.tail m (λ e. apart (sym e)) in
    let v = put_node s.tail n1 s0 in
    let v_old : v.heap s.tail ≡ n1 = update-same s0.heap s.tail n1 in
    let v_node : v.heap node ≡ m =
      update-other s0.heap s.tail node n1 apart ∙ update-same s.heap node m in
    let total = settled_count n.count s.sequence n.prev_sequence (suc held) small sum in
    let more : (settled n1 s.sequence).count ≢ reference = rw total (λ e. absurd (omega arith)) in
    let (u, set, swung) =
      set_node_sequence-Swung fuel s.tail v n1 m v_old v_node refl apart real unset odd more in
    let walked : add_from (suc (suc fuel)) s.tail 0 0 node s0 ≡ some (true, 1, u) =
      add_from-tail (suc fuel) s.tail node s0 u (rw at_old last) (rw at_old set) in
    (
      record u {
        stats = record u.stats {
          tries = add_word u.stats.tries 1;
          successful = add_word u.stats.successful 1;
          attempts = add_word u.stats.attempts 1;
        };
      },
      rw (walked, add_node) refl,
      Swung-Added s.tail node n1 m s v u held refl total small refl fresh odd_seq refl swung,
    )

-- A drop of a reference to the old tail that is not the last one.
drop_one-Added :
    (old node : Ptr) (held : ℕ) (s u : RcpcProxy)
    → reference * suc held < word
    → node ≢ old
    → Added old node (reference * suc held) s u
    → Added old node (reference * held) s (drop_one old u)
drop_one-Added old node held s u small apart (count, next, tail, kept, payload, free_data, refs) =
    let n = u.heap old in
    let n' : RcpcNode = record n { count = sub_word n.count reference } in
    let v = drop_one old u in
    let v_old : v.heap old ≡ n' = update-same u.heap old n' in
    let v_node : v.heap node ≡ u.heap node = update-other u.heap old node n' apart in
    let v_tail : v.heap u.tail ≡ u.heap u.tail =
      update-other u.heap old u.tail n' (rw tail apart) in
    (
      rw (v_old, count) (omega arith),
      rw v_old next,
      tail,
      kept,
      rw v_node payload,
      rw v_node free_data,
      rw v_tail refs,
    )

rcpc_add_node-steps :
    (fuel : ℕ) (node : Ptr) (s u v : RcpcProxy)
    → (s.heap s.tail).next ≡ null
    → add_node (suc fuel) s.tail 0 node (referenced s) ≡ some (true, u)
    → rcpc_drop_proxy_node_reference (suc fuel) s.tail u ≡ some v
    → rcpc_add_node (suc fuel) node s ≡ some (true, v)
unfolding rcpc_add_node
rcpc_add_node-steps fuel node s u v last add drop =
    rw (get-tail fuel s last, rcpc_add_node, add, drop) refl

-- With the tail pointer up to date and other references to the tail outstanding, `rcpcAddNode` puts
-- the node there at the first attempt: it is the tail, with the data it had and one reference to it,
-- that of the old tail; to the old tail exactly the outstanding references are left; and nothing is
-- deleted.
pub rcpc_add_node-Refs :
    (fuel : ℕ) (node : Ptr) (s : RcpcProxy) (others : ℕ)
    → reference * suc (suc others) + 5 < word
    → node ≢ null
    → node ≢ s.tail
    → (s.heap node).next ≡ null
    → Refs s (suc others)
    → (t : RcpcProxy) × (rcpc_add_node (suc (suc fuel)) node s ≡ some (true, t))
      × Added s.tail node (reference * suc others) s t
rcpc_add_node-Refs fuel node s others small real apart fresh refs =
    let r = referenced s in
    let (u, add, added) =
      add_node-Added fuel node r (suc others) small real apart fresh
        (referenced-Refs s (suc others) (omega arith) refs) in
    (
      drop_one s.tail u,
      rcpc_add_node-steps (suc fuel) node s u (drop_one s.tail u) (refs.0) add
          (drop-held (suc fuel) s.tail u (rw (added.0) (λ e. absurd (omega arith)))),
      drop_one-Added s.tail node (suc others) s u (omega arith) apart added,
    )
