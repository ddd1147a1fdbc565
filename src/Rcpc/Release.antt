-- ===== src/Rcpc/Release.antt =====
-- rcpc/rcpc.c `rcpcDropProxyNodeReference`: the last reference to a node, and the delete queued on the
-- next one.
use atomic_ptr_plus.Base.{
  ℕ, suc, ◌+◌, ◌*◌, ◌<◌, ◌≡◌, ◌≢◌, refl, ◌∙◌, ap, some, arith, ==_no, ==_yes, ◌==◌, Bool-cases, inl,
  inr, word, add_word, sub_word, update-same, update-other, [], ◌∷◌, ◌++◌,
}
use atomic_ptr_plus.Fifo.{Ptr, null}
use atomic_ptr_plus.Rcpc.{
  reference, RcpcNode, RcpcProxy, put_node, delete_data, rcpc_drop_proxy_node_reference,
}
use atomic_ptr_plus.Rcpc.Reference.{Refs, drop_one, drop_one-Refs, drop-tail}

-- The proxy once the last reference to the node before the tail is dropped.
abbrev pub Released : Ptr → ℕ → RcpcProxy → RcpcProxy → Type 0
Released old held s t =
    (t.free_tail ≡ (s.heap s.free_tail).next)
    × (t.tail ≡ s.tail)
    × (t.deleted ≡ s.deleted ++ ((s.heap s.tail).free_data, (s.heap s.tail).payload) ∷ [])
    × ((t.heap s.tail).payload ≡ null)
    × Refs t held

-- The queued delete of a node, run.
abbrev deleted_one : Ptr → RcpcProxy → RcpcProxy
deleted_one node s =
    let n = s.heap node in
    record (put_node node (record n { payload = null }) s) {
      deleted = s.deleted ++ (n.free_data, n.payload) ∷ [];
      stats = record s.stats { data_frees = add_word s.stats.data_frees 1 };
    }

delete_data-one :
    (node : Ptr) (s : RcpcProxy)
    → (s.heap node).free_data ≢ null
    → (s.heap node).payload ≢ null
    → delete_data node s ≡ deleted_one node s
unfolding delete_data
delete_data-one node s free_data payload =
    rw (==_no (s.heap node).free_data null free_data, ==_no (s.heap node).payload null payload) refl

drop_one-next : (node p : Ptr) (s : RcpcProxy) → ((drop_one node s).heap p).next ≡ (s.heap p).next
drop_one-next node p s = elim (Bool-cases (node == p)) [
  | inl here ↦ let same : node ≡ p = ground arith in rw (here, same) refl
  | inr other ↦ rw other refl
]

-- The proxy before the second round of the drop.
abbrev first_round : Ptr → RcpcProxy → RcpcProxy
first_round old s =
    let dropped = drop_one old s in
    record dropped { free_tail = (dropped.heap dropped.free_tail).next }

drop-released :
    (fuel : ℕ) (old node : Ptr) (s : RcpcProxy)
    → (s.heap old).count ≡ reference
    → (s.heap old).next ≡ node
    → node ≢ null
    → rcpc_drop_proxy_node_reference (suc fuel) old s
      ≡ rcpc_drop_proxy_node_reference fuel node (delete_data node (first_round old s))
unfolding rcpc_drop_proxy_node_reference
drop-released fuel old node s count next real =
    rw (==_yes (s.heap old).count reference count, next, ==_no node null real) refl

-- With a deferred delete queued on the tail, the drop of the last reference to the node before it
-- moves `freeTail` on by one node, runs that delete and takes it from the tail, and drops the
-- reference that the node had to the tail; it stops there, after two rounds.
pub rcpc_drop_proxy_node_reference-Released :
    (fuel : ℕ) (old : Ptr) (s : RcpcProxy) (held : ℕ)
    → reference * held + 5 < word
    → (s.heap old).count ≡ reference
    → (s.heap old).next ≡ s.tail
    → s.tail ≢ null
    → s.tail ≢ old
    → (s.heap s.tail).free_data ≢ null
    → (s.heap s.tail).payload ≢ null
    → Refs s (suc held)
    → (t : RcpcProxy) × (rcpc_drop_proxy_node_reference (suc (suc fuel)) old s ≡ some t)
      × Released old held s t
rcpc_drop_proxy_node_reference-Released fuel old s held small count next real apart free_data
      payload refs =
    let n = s.heap s.tail in
    let n' : RcpcNode = record n { payload = null } in
    let w = first_round old s in
    let left : RcpcNode = record (s.heap old) { count = sub_word (s.heap old).count reference } in
    let w_tail : w.heap s.tail ≡ n = update-other s.heap old s.tail left apart in
    let x = deleted_one s.tail w in
    let x_tail : x.heap s.tail ≡ n' =
      update-same w.heap s.tail (record (w.heap s.tail) { payload = null }) ∙ rw w_tail refl in
    let run : delete_data s.tail w ≡ x =
      delete_data-one s.tail w (rw w_tail free_data) (rw w_tail payload) in
    let x_refs : Refs x (suc held) = rw x_tail refs in
    let done =
      update-same x.heap s.tail
        (record (x.heap s.tail) { count = sub_word (x.heap s.tail).count reference }) in
    (
      drop_one s.tail x,
      drop-released (suc fuel) old s.tail s count next real
          ∙ ap (rcpc_drop_proxy_node_reference (suc fuel) s.tail) run
          ∙ drop-tail fuel x (suc held) x_refs,
      (
        drop_one-next old s.free_tail s,
        refl,
        rw w_tail refl,
        rw (done, x_tail) refl,
        drop_one-Refs x held small x_refs,
      ),
    )
