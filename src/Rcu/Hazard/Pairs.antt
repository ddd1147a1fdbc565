-- ===== src/Rcu/Hazard/Pairs.antt =====
-- fastsmr/smrscan.c `smr_alloc` and `smr_dealloc`: the pair of hazard pointers of a thread.
use atomic_ptr_plus.Base.{
  ℕ, ◌≡◌, refl, sym, ◌∙◌, ap, List, [], ◌∷◌, true, false, not, Option, some, inl, inr, arith,
  Bool-cases, ◌==◌, ltb,
}
use atomic_ptr_plus.Rcu.State.{SmrNode, World}
use atomic_ptr_plus.Rcu.Hazard.{
  returned, aborted, Slot, Smrnull, node_of, set_ndx, with_ndx, null_slot, smr_alloc, smr_dealloc,
  pop_slot, smr_check,
}

node_of-tid : (tid : ℕ) (ns : List SmrNode) (n : SmrNode) → node_of tid ns ≡ some n → n.tid ≡ tid
node_of-tid tid [] n here = cc
node_of-tid tid (m ∷ ns) n here = elim (Bool-cases (m.tid == tid)) [
  | inl e ↦
      let same : m ≡ n =
        (let at_head : ◌≡◌ {A = Option SmrNode} (some m) (some n) = rw e at here in cc) in
      rw (← same) (ground arith)
  | inr e ↦ node_of-tid tid ns n (rw e at here)
]

abbrev with_index : ℕ → SmrNode → SmrNode
with_index ndx n = record n { ndx = ndx }

node_of-set_ndx :
    (tid ndx : ℕ) (ns : List SmrNode) (n : SmrNode)
    → node_of tid ns ≡ some n
    → node_of tid (set_ndx tid ndx ns) ≡ some (record n { ndx = ndx })
node_of-set_ndx tid ndx [] n here = cc
node_of-set_ndx tid ndx (m ∷ ns) n here = elim (Bool-cases (m.tid == tid)) [
  | inl e ↦
      let same : m ≡ n =
        (let at_head : ◌≡◌ {A = Option SmrNode} (some m) (some n) = rw e at here in cc) in
      rw e (rw e (ap (λ (k : SmrNode). some (with_index ndx k)) same))
  | inr e ↦ rw e (rw e (node_of-set_ndx tid ndx ns n (rw e at here)))
]

-- The node with what `smrnull` makes of its two hazard pointers.
abbrev pub nulled : Smrnull → Slot → SmrNode → SmrNode
nulled smrnull slot n = record n {
  hptr0 = (smrnull slot (n.hptr0, n.hptr1)).0;
  hptr1 = (smrnull slot (n.hptr0, n.hptr1)).1;
}

node_of-null_slot :
    (smrnull : Smrnull) (slot : Slot) (tid : ℕ) (ns : List SmrNode) (n : SmrNode)
    → node_of tid ns ≡ some n
    → node_of tid (null_slot smrnull slot tid ns) ≡ some (nulled smrnull slot n)
node_of-null_slot smrnull slot tid [] n here = cc
node_of-null_slot smrnull slot tid (m ∷ ns) n here = elim (Bool-cases (m.tid == tid)) [
  | inl e ↦
      let same : m ≡ n =
        (let at_head : ◌≡◌ {A = Option SmrNode} (some m) (some n) = rw e at here in cc) in
      rw e (rw e (ap (λ (k : SmrNode). some (nulled smrnull slot k)) same))
  | inr e ↦ rw e (rw e (node_of-null_slot smrnull slot tid ns n (rw e at here)))
]

smr_alloc-free :
    (tid : ℕ) (w : World) (n : SmrNode)
    → node_of tid w.smr_nodes ≡ some n
    → n.ndx ≡ 0
    → n.hcount ≡ 2
    → smr_alloc tid w ≡ returned (with_ndx tid 2 w, some 0)
unfolding smr_alloc
smr_alloc-free tid w n here free pair = rw (here, smr_alloc) (rw (free, pair) refl)

smr_alloc-taken :
    (tid : ℕ) (w : World) (n : SmrNode)
    → node_of tid w.smr_nodes ≡ some n
    → ltb n.ndx n.hcount ≡ false
    → smr_alloc tid w ≡ aborted
unfolding smr_alloc
smr_alloc-taken tid w n here full = rw (here, smr_alloc) (rw full refl)

smr_check-node_of :
    (tid : ℕ) (w : World) (n : SmrNode)
    → node_of tid w.smr_nodes ≡ some n
    → smr_check tid w ≡ not (n.ndx == 0)
unfolding smr_check
smr_check-node_of tid w n here = rw (here, smr_check) refl

pop_slot-two :
    (tid : ℕ) (n : SmrNode) (w : World)
    → n.ndx ≡ 2
    → pop_slot 0 tid (some n) w ≡ returned (with_ndx tid 0 w)
unfolding pop_slot
pop_slot-two tid n w two = rw two refl

smr_dealloc-node_of :
    (smrnull : Smrnull) (tid : ℕ) (w : World) (n : SmrNode)
    → node_of tid w.smr_nodes ≡ some n
    → n.ndx ≡ 2
    → smr_dealloc smrnull tid (some 0) w
      ≡ returned (with_ndx tid 0 (record w { smr_nodes = null_slot smrnull 0 tid w.smr_nodes }))
unfolding smr_dealloc
smr_dealloc-node_of smrnull tid w n here two =
    let nodes' = null_slot smrnull 0 tid w.smr_nodes in
    ap (λ o. pop_slot 0 tid o (record w { smr_nodes = nodes' })) here
    ∙ pop_slot-two tid n (record w { smr_nodes = nodes' }) two

-- A thread with a node whose pair is free gets the slot 0, and only once; when it gives the slot back
-- the pair is free again, its hazard pointers are as `smrnull` leaves them, and `smr_check` says so.
pub smr_dealloc-smr_alloc :
    (smrnull : Smrnull) (tid : ℕ) (w : World) (n : SmrNode)
    → node_of tid w.smr_nodes ≡ some n
    → n.ndx ≡ 0
    → n.hcount ≡ 2
    → (taken : World) × (smr_alloc tid w ≡ returned (taken, some 0))
      × (smr_alloc tid taken ≡ aborted)
      × (smr_check tid taken ≡ true)
      × (given : World) × (smr_dealloc smrnull tid (some 0) taken ≡ returned given)
      × (node_of tid given.smr_nodes ≡ some (nulled smrnull 0 n))
      × (smr_check tid given ≡ false)
smr_dealloc-smr_alloc smrnull tid w n here free pair =
    let taken = with_ndx tid 2 w in
    let at_taken = node_of-set_ndx tid 2 w.smr_nodes n here in
    let nodes' = null_slot smrnull 0 tid taken.smr_nodes in
    let at_nulled =
      node_of-null_slot smrnull 0 tid taken.smr_nodes (record n { ndx = 2 }) at_taken in
    let given = with_ndx tid 0 (record taken { smr_nodes = nodes' }) in
    let at_given =
      node_of-set_ndx tid 0 nodes' (nulled smrnull 0 (record n { ndx = 2 })) at_nulled in
    (
      taken,
      smr_alloc-free tid w n here free pair,
      smr_alloc-taken tid taken (with_index 2 n) at_taken (rw pair refl),
      smr_check-node_of tid taken (with_index 2 n) at_taken,
      given,
      smr_dealloc-node_of smrnull tid taken (with_index 2 n) at_taken refl,
      at_given ∙ ap (λ (k : ℕ). some (with_index k (nulled smrnull 0 n))) (sym free),
      smr_check-node_of tid given (with_index 0 (nulled smrnull 0 n)) at_given,
    )
