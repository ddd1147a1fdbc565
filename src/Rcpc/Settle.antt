-- ===== src/Rcpc/Settle.antt =====
-- rcpc/rcpc.c `setNodeSequence`: the tail pointer moves to the next node.
use atomic_ptr_plus.Base.{
  ℕ, suc, ◌%◌, ◌≡◌, ◌≢◌, refl, sym, ◌∙◌, some, ==_no, ==_yes, ◌==◌, false, add_word, sub_word,
  update-same, update-other,
}
use atomic_ptr_plus.Fifo.{Ptr, null}
use atomic_ptr_plus.Rcpc.{
  reference, guard_bit, RcpcNode, RcpcProxy, put_node, close_node, follow_node, count_node,
  settle_node, set_node_sequence, rcpc_drop_proxy_node_reference,
}
use atomic_ptr_plus.Rcpc.Reference.{drop-held}

-- The old tail, with its last sequence number and the references taken until it, and the new one.
abbrev pub settled : RcpcNode → ℕ → RcpcNode
settled n seq = record n {
  sequence = seq;
  count = add_word n.count (sub_word (sub_word seq n.prev_sequence) guard_bit);
}

abbrev pub follows : RcpcNode → ℕ → RcpcNode
follows n seq = record n { prev_sequence = seq }

close_node-heap :
    (old : Ptr) (s : RcpcProxy)
    → (s.heap old).sequence ≡ 0
    → close_node old s ≡ put_node old (record (s.heap old) { sequence = s.sequence }) s
unfolding close_node
close_node-heap old s unset = rw (==_yes (s.heap old).sequence 0 unset) refl

follow_node-heap :
    (old : Ptr) (s : RcpcProxy) (n m : RcpcNode)
    → s.heap old ≡ n
    → s.heap n.next ≡ m
    → follow_node old s ≡ put_node n.next (follows m n.sequence) s
unfolding follow_node
follow_node-heap old s n m at_old at_next = rw (at_old, at_next) refl

count_node-heap :
    (old : Ptr) (s : RcpcProxy)
    → (s.heap old).count % 2 ≡ 1
    → count_node old s ≡ put_node old (settled (s.heap old) (s.heap old).sequence) s
unfolding count_node
count_node-heap old s odd =
    let uneven : ((s.heap old).count % 2 == 0) ≡ false = rw odd refl in rw uneven refl

-- The proxy after these steps, from the node `n` and the next one `m`.
abbrev after_settle : Ptr → RcpcNode → RcpcNode → RcpcProxy → RcpcProxy
after_settle old n m s =
    put_node old (settled n s.sequence)
      (put_node n.next (follows m s.sequence) (put_node old (record n { sequence = s.sequence }) s))

settle_node-after :
    (old : Ptr) (s : RcpcProxy) (n m : RcpcNode)
    → s.heap old ≡ n
    → s.heap n.next ≡ m
    → n.next ≢ old
    → n.sequence ≡ 0
    → n.count % 2 ≡ 1
    → settle_node old s ≡ after_settle old n m s
settle_node-after old s n m at_old at_next apart unset odd =
    let n1 : RcpcNode = record n { sequence = s.sequence } in
    let m1 = follows m s.sequence in
    let s1 = put_node old n1 s in
    let s2 = put_node n.next m1 s1 in
    let at1 : s1.heap old ≡ n1 = update-same s.heap old n1 in
    let next1 : s1.heap n.next ≡ m = update-other s.heap old n.next n1 apart ∙ at_next in
    let at2 : s2.heap old ≡ n1 = update-other s1.heap n.next old m1 (λ e. apart (sym e)) ∙ at1 in
    let closed : close_node old s ≡ s1 = close_node-heap old s (rw at_old unset) ∙ rw at_old refl in
    let followed : follow_node old s1 ≡ s2 = follow_node-heap old s1 n1 m at1 next1 in
    rw (closed, followed, count_node-heap old s2 (rw at2 odd), at2) refl

-- The old tail and the new one, after `setNodeSequence`.
abbrev pub Swung : Ptr → RcpcNode → RcpcNode → RcpcProxy → RcpcProxy → Type 0
Swung old n m s u =
    let n' = settled n s.sequence in
    (u.heap old ≡ record n' { count = sub_word n'.count reference })
    × (u.heap n.next ≡ follows m s.sequence)
    × (u.tail ≡ n.next)
    × (u.sequence ≡ s.sequence)
    × (u.deleted ≡ s.deleted)

pub set_node_sequence-Swung :
    (fuel : ℕ) (old : Ptr) (s : RcpcProxy) (n m : RcpcNode)
    → s.heap old ≡ n
    → s.heap n.next ≡ m
    → s.tail ≡ old
    → n.next ≢ old
    → n.next ≢ null
    → n.sequence ≡ 0
    → n.count % 2 ≡ 1
    → (settled n s.sequence).count ≢ reference
    → (u : RcpcProxy) × (set_node_sequence (suc fuel) old s ≡ some u) × Swung old n m s u
unfolding set_node_sequence
set_node_sequence-Swung fuel old s n m at_old at_next tail apart real unset odd more =
    let n' = settled n s.sequence in
    let left : RcpcNode = record n' { count = sub_word n'.count reference } in
    let m' = follows m s.sequence in
    let v = record (after_settle old n m s) { tail = n.next } in
    let u = put_node old left v in
    let s1 = put_node old (record n { sequence = s.sequence }) s in
    let s2 = put_node n.next m' s1 in
    let v_old : v.heap old ≡ n' = update-same s2.heap old n' in
    let u_next : u.heap n.next ≡ m' =
      update-other v.heap old n.next left apart
      ∙ update-other s2.heap old n.next n' apart
      ∙ update-same s1.heap n.next m' in
    let dropped : rcpc_drop_proxy_node_reference (suc fuel) old v ≡ some u =
      drop-held fuel old v (rw v_old more) ∙ rw v_old refl in
    let settle = settle_node-after old s n m at_old at_next apart unset odd in
    (
      u,
      rw (settle, at_old, ==_no n.next null real, ==_yes s.tail old tail) dropped,
      (update-same v.heap old left, u_next, refl, refl, refl),
    )
