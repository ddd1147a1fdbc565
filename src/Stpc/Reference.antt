-- ===== src/Stpc/Reference.antt =====
-- stpc/stpc.c: references to the tail of the queue of a proxy, and what becomes of them.
use atomic_ptr_plus.Base.{
  ==_yes, ==_no, word, sub_word, add_word, ℕ, suc, ◌+◌, ◌*◌, ◌%◌, ◌<◌, ◌≡◌, refl, some, arith,
  ==_refl, ◌≢◌,
}
use atomic_ptr_plus.Fifo.{Ptr, null}
use atomic_ptr_plus.Stpc.{
  put_node, delete_data, release_node, reference, guard_bit, StpcProxy, stpc_new_proxy, drop_loop,
  stpc_get_proxy_node_reference, drop_proxy_node_reference, stpc_drop_proxy_node_reference,
}

-- `held` references to the tail are outstanding: its count and the `sequence` beside the pointer to
-- it add up to the guard bit, the reference of the tail pointer, and theirs.
abbrev pub Refs : StpcProxy → ℕ → Type 0
Refs s held =
    (((s.heap s.tail).count + s.sequence) % word ≡ guard_bit + reference + reference * held)
    × ((s.heap s.tail).count % 2 ≡ 1)
    × ((s.heap s.tail).count < word)

pub stpc_new_proxy-Refs : (node : Ptr) → Refs (stpc_new_proxy node) 0
unfolding stpc_new_proxy
stpc_new_proxy-Refs node = ground (arith, ==_refl node)

add_reference :
    (c q held : ℕ)
    → reference * held + 5 < word
    → (c + q) % word ≡ guard_bit + reference + reference * held
    → (c + add_word q reference) % word ≡ guard_bit + reference + reference * suc held
add_reference c q held small h = omega arith

drop_reference :
    (c q held : ℕ)
    → reference * held + 5 < word
    → (c + q) % word ≡ guard_bit + reference + reference * suc held
    → (sub_word c reference + q) % word ≡ guard_bit + reference + reference * held
drop_reference c q held small h = omega arith

drop_odd : (c : ℕ) → c % 2 ≡ 1 → sub_word c reference % 2 ≡ 1
drop_odd c h = omega arith

pub settle :
    (c q held : ℕ)
    → reference * held + 5 < word
    → (c + q) % word ≡ guard_bit + reference + reference * held
    → sub_word c (sub_word reference (sub_word q guard_bit)) ≡ reference * held
settle c q held small h = omega arith

pub settle_at :
    (c q held : ℕ)
    → reference * held + 5 < word
    → c < word
    → (c + q) % word ≡ guard_bit + reference + reference * 0
    → c ≡ sub_word reference (sub_word q guard_bit) % word
settle_at c q held small b h = omega arith

-- A thread that takes a reference gets the tail, and one reference more is outstanding; the bound
-- keeps the counts within 64 bits.
pub stpc_get_proxy_node_reference-Refs :
    (s : StpcProxy) (held : ℕ)
    → reference * held + 5 < word
    → Refs s held
    → ((stpc_get_proxy_node_reference s).0 ≡ s.tail)
      × Refs (stpc_get_proxy_node_reference s).1 (suc held)
unfolding stpc_get_proxy_node_reference
stpc_get_proxy_node_reference-Refs s held small (sum, odd, bound) =
    (refl, (add_reference (s.heap s.tail).count s.sequence held small sum, odd, bound))

pub drop_loop-held :
    (fuel : ℕ) (node : Ptr) (rcount : ℕ) (s : StpcProxy)
    → (s.heap node).count ≢ rcount % word
    → drop_loop (suc fuel) node rcount s
      ≡ some (record s {
        heap =
            put_node node
              (record (s.heap node) { count = sub_word (s.heap node).count rcount })
              s.heap;
      })
unfolding drop_loop
drop_loop-held fuel node rcount s more = rw (==_no (s.heap node).count (rcount % word) more) refl

pub drop_loop-last :
    (fuel : ℕ) (node : Ptr) (rcount : ℕ) (s : StpcProxy)
    → (s.heap node).count ≡ rcount % word
    → (s.heap node).next ≢ null
    → drop_loop (suc fuel) node rcount s
      ≡ drop_loop fuel
          (s.heap node).next
          reference
          (delete_data (s.heap node).next (release_node s))
unfolding drop_loop
drop_loop-last fuel node rcount s last more =
    rw (==_yes (s.heap node).count (rcount % word) last, ==_no (s.heap node).next null more) refl

-- The outcome of a call that deletes no data and releases no node.
abbrev pub Kept : StpcProxy → StpcProxy → Type 0
Kept s t =
    (t.deleted ≡ s.deleted)
    × (t.free_tail ≡ s.free_tail)
    × (t.free_head ≡ s.free_head)
    × (t.num_nodes ≡ s.num_nodes)

-- While a node is the tail and references to it are outstanding, a drop of one returns after one
-- round, deletes no data and releases no node, and one reference less is outstanding.
pub stpc_drop_proxy_node_reference-Refs :
    (fuel : ℕ) (s : StpcProxy) (held : ℕ)
    → reference * held + 5 < word
    → Refs s (suc held)
    → (t : StpcProxy) × (stpc_drop_proxy_node_reference (suc fuel) s.tail s ≡ some t)
      × Refs t held
      × Kept s t
unfolding stpc_drop_proxy_node_reference drop_proxy_node_reference
stpc_drop_proxy_node_reference-Refs fuel s held small (sum, odd, bound) =
    let c = (s.heap s.tail).count in
    let t = record s {
      heap = put_node s.tail (record (s.heap s.tail) { count = sub_word c reference }) s.heap;
    } in
    let at : (t.heap s.tail).count ≡ sub_word c reference = ground (arith, ==_refl s.tail) in
    let even : c ≢ reference % word = λ e. absurd (omega arith) in
    let in_word : sub_word c reference < word = omega arith in
    let refs : Refs t held =
      rw at (drop_reference c s.sequence held small sum, drop_odd c odd, in_word) in
    (t, drop_loop-held fuel s.tail reference s even, refs, (refl, refl, refl, refl))
