-- ===== src/Rcpc/Reference.antt =====
-- rcpc/rcpc.c: references to the tail of a proxy, and its words of 64 bits.
use atomic_ptr_plus.Base.{
  ℕ, suc, ◌+◌, ◌*◌, ◌%◌, ◌<◌, ◌≡◌, ◌≢◌, refl, some, arith, ==_no, ==_yes, word, add_word, sub_word,
  update, update-same,
}
use atomic_ptr_plus.Fifo.{Ptr, null}
use atomic_ptr_plus.Rcpc.{
  reference, guard_bit, RcpcNode, RcpcProxy, put_node, find_node, rcpc_get_proxy_node_reference,
  rcpc_drop_proxy_node_reference,
}

-- The tail pointer is up to date, and `held` references to the tail are outstanding, that of the node
-- before it among them: its count and the references taken since it became the tail add up to the
-- guard bit, the reference of the tail pointer, and theirs.
abbrev pub Refs : RcpcProxy → ℕ → Type 0
Refs s held =
    ((s.heap s.tail).next ≡ null)
    × ((s.heap s.tail).sequence ≡ 0)
    × (((s.heap s.tail).count + sub_word s.sequence (s.heap s.tail).prev_sequence) % word
        ≡ guard_bit + reference + reference * held)
    × ((s.heap s.tail).count % 2 ≡ 1)
    × ((s.heap s.tail).count < word)
    × (s.sequence % 2 ≡ 1)

take_reference :
    (c q p held : ℕ)
    → reference * held + 5 < word
    → (c + sub_word q p) % word ≡ guard_bit + reference + reference * held
    → (c + sub_word (add_word q reference) p) % word ≡ guard_bit + reference + reference * suc held
take_reference c q p held small h = omega arith

leave_reference :
    (c q held : ℕ)
    → reference * held + 5 < word
    → (c + q) % word ≡ guard_bit + reference + reference * suc held
    → (sub_word c reference + q) % word ≡ guard_bit + reference + reference * held
leave_reference c q held small h = omega arith

find_node-tail :
    (fuel new_sequence : ℕ) (node : Ptr) (s : RcpcProxy)
    → (s.heap node).next ≡ null
    → find_node (suc fuel) new_sequence node 0 s ≡ some (node, 0, s)
unfolding find_node
find_node-tail fuel new_sequence node s last =
    rw (==_yes (s.heap node).next null last, find_node) refl

-- The proxy with one more reference to the tail.
abbrev pub referenced : RcpcProxy → RcpcProxy
referenced s = record s {
  sequence = add_word s.sequence reference;
  stats = record s.stats { latency = update s.stats.latency 0 (add_word (s.stats.latency 0) 1) };
}

pub get-tail :
    (fuel : ℕ) (s : RcpcProxy)
    → (s.heap s.tail).next ≡ null
    → rcpc_get_proxy_node_reference (suc fuel) s ≡ some (s.tail, 0, referenced s)
unfolding rcpc_get_proxy_node_reference
get-tail fuel s last =
    let moved = record s { sequence = add_word s.sequence reference } in
    let found = find_node-tail fuel moved.sequence s.tail moved last in
    rw (found, rcpc_get_proxy_node_reference) refl

pub referenced-Refs :
    (s : RcpcProxy) (held : ℕ)
    → reference * held + 5 < word
    → Refs s held
    → Refs (referenced s) (suc held)
referenced-Refs s held small (last, unset, sum, odd, bound, odd_seq) =
    let n = s.heap s.tail in
    (
      last,
      unset,
      take_reference n.count s.sequence n.prev_sequence held small sum,
      odd,
      bound,
      omega arith,
    )

-- The proxy with one reference less in the count of a node.
abbrev pub drop_one : Ptr → RcpcProxy → RcpcProxy
drop_one node s =
    let n = s.heap node in put_node node (record n { count = sub_word n.count reference }) s

pub drop-held :
    (fuel : ℕ) (node : Ptr) (s : RcpcProxy)
    → (s.heap node).count ≢ reference
    → rcpc_drop_proxy_node_reference (suc fuel) node s ≡ some (drop_one node s)
unfolding rcpc_drop_proxy_node_reference
drop-held fuel node s more =
    rw (==_no (s.heap node).count reference more, rcpc_drop_proxy_node_reference) refl

pub drop_one-Refs :
    (s : RcpcProxy) (held : ℕ)
    → reference * held + 5 < word
    → Refs s (suc held)
    → Refs (drop_one s.tail s) held
drop_one-Refs s held small (last, unset, sum, odd, bound, odd_seq) =
    let n = s.heap s.tail in
    let n' : RcpcNode = record n { count = sub_word n.count reference } in
    let left = leave_reference n.count (sub_word s.sequence n.prev_sequence) held small sum in
    let at_tail : (drop_one s.tail s).heap s.tail ≡ n' = update-same s.heap s.tail n' in
    rw at_tail (last, unset, left, omega arith, omega arith, odd_seq)

pub drop-tail :
    (fuel : ℕ) (s : RcpcProxy) (held : ℕ)
    → Refs s held
    → rcpc_drop_proxy_node_reference (suc fuel) s.tail s ≡ some (drop_one s.tail s)
drop-tail fuel s held (last, unset, sum, odd, bound, odd_seq) =
    drop-held fuel s.tail s (λ e. absurd (omega arith))
