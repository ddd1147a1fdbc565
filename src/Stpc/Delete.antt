-- ===== src/Stpc/Delete.antt =====
-- stpc/stpc.c `stpcDeferredDelete`: when the data of a node is deleted.
use atomic_ptr_plus.Base.{
  ==_no, word, sub_word, to_int, ℕ, suc, ◌+◌, ◌*◌, ◌%◌, ◌<◌, ◌≤◌, ◌≡◌, ◌≢◌, refl, sym, ◌∙◌, some,
  arith, ==_refl, ◌∷◌, [], ◌++◌,
}
use atomic_ptr_plus.Fifo.{Ptr, null}
use atomic_ptr_plus.Stpc.{
  adjust_of, put_node, delete_data, release_node, reference, guard_bit, StpcProxy, drop_loop,
  drop_proxy_node_reference, link_node, count_try, queue_node,
}
use atomic_ptr_plus.Stpc.Calls.{deferred_delete}
use atomic_ptr_plus.Stpc.Data.{
  put_node-same, put_node-other, delete_data-count, delete_data-same, delete_data-deleted,
}
use atomic_ptr_plus.Stpc.Reference.{Refs, settle, settle_at, drop_loop-held, drop_loop-last}

-- The proxy just before the drop of `_queueNode`.
abbrev linked : Ptr → Ptr → Ptr → StpcProxy → StpcProxy
linked free_data payload node s = link_node node (record s {
  heap = put_node node (record (s.heap node) { free_data = free_data; payload = payload }) s.heap;
})

linked-old :
    (f d node : Ptr) (s : StpcProxy)
    → node ≢ s.tail
    → (((linked f d node s).heap s.tail).count ≡ (s.heap s.tail).count)
      × (((linked f d node s).heap s.tail).next ≡ node)
unfolding link_node
linked-old f d node s fresh = ground (arith, ==_refl s.tail, ==_no node s.tail fresh)

linked-new :
    (f d node : Ptr) (s : StpcProxy)
    → node ≢ s.tail
    → (((linked f d node s).heap node).count ≡ 5)
      × (((linked f d node s).heap node).free_data ≡ f)
      × (((linked f d node s).heap node).payload ≡ d)
unfolding link_node
linked-new f d node s fresh =
    ground (arith, ==_refl node, ==_no s.tail node (λ e. absurd (omega arith)))

-- Below this bound the conversion of `adjust` keeps its value.
adjust_of-sequence :
    (s : StpcProxy) → s.sequence ≤ 2147483648 → adjust_of s ≡ sub_word s.sequence guard_bit
unfolding to_int
adjust_of-sequence s few = ground arith

queue_node-dropped :
    (fuel attempts node : ℕ) (s t : StpcProxy)
    → drop_proxy_node_reference fuel s.tail (adjust_of s) (link_node node s) ≡ some t
    → queue_node fuel attempts node s ≡ some (count_try attempts t)
unfolding queue_node
queue_node-dropped fuel attempts node s t e = rw (e, queue_node) refl

deferred_delete-dropped :
    (fuel attempts f d node : ℕ) (s t : StpcProxy)
    → drop_loop fuel s.tail (sub_word reference (adjust_of s)) (linked f d node s) ≡ some t
    → deferred_delete fuel attempts f d node s ≡ some (count_try attempts t)
unfolding deferred_delete drop_proxy_node_reference
deferred_delete-dropped fuel attempts f d node s t e = queue_node-dropped fuel attempts node _ t e

-- The drop of `_queueNode` when references to the old tail are left.
drop_old-waits :
    (fuel old node rcount held : ℕ) (u : StpcProxy)
    → old ≢ node
    → (u.heap old).count ≢ rcount % word
    → sub_word (u.heap old).count rcount ≡ held
    → (u.heap node).count ≡ 5
    → u.tail ≡ node
    → u.sequence ≡ 0
    → (t : StpcProxy) × (drop_loop (suc fuel) old rcount u ≡ some t)
      × ((t.heap old).count ≡ held)
      × (t.tail ≡ node)
      × Refs t 1
      × (t.deleted ≡ u.deleted)
      × (t.free_tail ≡ u.free_tail)
drop_old-waits fuel old node rcount held u apart more left five at_tail at_start =
    let n = record (u.heap old) { count = sub_word (u.heap old).count rcount } in
    let t = record u { heap = put_node old n u.heap } in
    let at_old : (t.heap old).count ≡ held = rw (put_node-same old n u.heap) left in
    let at_new : (t.heap u.tail).count ≡ 5 =
      rw (at_tail, put_node-other old node n u.heap apart) five in
    let refs : Refs t 1 = rw (at_new, at_start) (refl, refl, omega arith) in
    (t, drop_loop-held fuel old rcount u more, at_old, at_tail, refs, refl, refl)

-- The drop of `_queueNode` when none is left: the old tail, the oldest node, is released.
drop_old-at_once :
    (fuel old node rcount : ℕ) (u : StpcProxy)
    → (u.heap old).count ≡ rcount % word
    → (u.heap old).next ≡ node
    → node ≢ null
    → (u.heap node).count ≡ 5
    → (u.heap node).free_data ≢ null
    → (u.heap node).payload ≢ null
    → u.tail ≡ node
    → u.sequence ≡ 0
    → u.free_tail ≡ old
    → (t : StpcProxy) × (drop_loop (suc (suc fuel)) old rcount u ≡ some t)
      × (t.deleted ≡ u.deleted ++ ((u.heap node).free_data, (u.heap node).payload) ∷ [])
      × (t.free_tail ≡ node)
      × (t.tail ≡ node)
      × Refs t 0
drop_old-at_once fuel old node rcount u last after real five func some_data at_tail at_start first =
    let r = release_node u in
    let v = delete_data node r in
    let (tail_v, sequence_v, free_tail_v) = delete_data-same node r in
    let heap_r : r.heap ≡ u.heap = unfold release_node in refl in
    let five_v : (v.heap node).count ≡ 5 =
      delete_data-count node node r ∙ (unfold release_node in five) in
    let n = record (v.heap node) { count = sub_word (v.heap node).count reference } in
    let t = record v { heap = put_node node n v.heap } in
    let tail_t : v.tail ≡ node = tail_v ∙ (unfold release_node in at_tail) in
    let start_t : v.sequence ≡ 0 = sequence_v ∙ (unfold release_node in at_start) in
    let three : (t.heap node).count ≡ 3 = rw (put_node-same node n v.heap, five_v) refl in
    let at_three : (t.heap t.tail).count ≡ 3 = rw tail_t three in
    let next_null : (u.heap old).next ≢ null = rw after real in
    let run : drop_loop (suc (suc fuel)) old rcount u ≡ some t =
      drop_loop-last (suc fuel) old rcount u last next_null
      ∙ (rw after (drop_loop-held fuel node reference v (λ e. absurd (omega arith)))) in
    (
      t,
      run,
      delete_data-deleted node r (unfold release_node in func) (unfold release_node in some_data)
          ∙ (unfold release_node in refl),
      free_tail_v ∙ (unfold release_node in (rw first after)),
      tail_t,
      (rw (at_three, start_t) (refl, refl, omega arith)),
    )

-- Data that is queued while references to the tail are outstanding (that of an older node that is not
-- released among them) is not deleted by the call, which returns: the old tail keeps the count of
-- those references and is not released, and the new tail has one, that of the old. The new node is
-- not the tail, and `sequence` is at most 2^31, so that the adjustment fits an `int`.
pub deferred_delete-waits :
    (fuel attempts free_data payload node : ℕ) (s : StpcProxy) (held : ℕ)
    → reference * suc held + 5 < word
    → s.sequence ≤ 2147483648
    → node ≢ s.tail
    → Refs s (suc held)
    → (t : StpcProxy) × (deferred_delete (suc fuel) attempts free_data payload node s ≡ some t)
      × ((t.heap s.tail).count ≡ reference * suc held)
      × (t.tail ≡ node)
      × Refs t 1
      × (t.deleted ≡ s.deleted)
      × (t.free_tail ≡ s.free_tail)
unfolding count_try
deferred_delete-waits fuel attempts free_data payload node s held small few fresh
      (sum, odd, bound) =
    let u = linked free_data payload node s in
    let c = (s.heap s.tail).count in
    let adjust = adjust_of-sequence s few in
    let rcount = sub_word reference (adjust_of s) in
    let (old, after) = linked-old free_data payload node s fresh in
    let (new, new_data, new_payload) = linked-new free_data payload node s fresh in
    let left : sub_word c rcount ≡ reference * suc held =
      rw adjust (settle c s.sequence (suc held) small sum) in
    let more : c ≢ rcount % word = λ e. absurd (omega arith) in
    let (t, run, at_old, at_tail, refs, kept, first) =
      drop_old-waits fuel s.tail node rcount (reference * suc held) u (λ e. fresh (sym e))
        (rw old more) (rw old left) new (unfold link_node in refl) (unfold link_node in refl) in
    (
      count_try attempts t,
      deferred_delete-dropped (suc fuel) attempts free_data payload node s t run,
      at_old,
      at_tail,
      refs,
      kept ∙ (unfold link_node in refl),
      first ∙ (unfold link_node in refl),
    )

-- Data that is queued while no reference is outstanding and the tail is the oldest node is deleted
-- before the call returns, by one call of its function; the old tail is released, and no reference to
-- the new one is outstanding. The data and its function are not NULL, the new node is neither NULL
-- nor the tail, and `sequence` is at most 2^31.
pub deferred_delete-at_once :
    (fuel attempts free_data payload node : ℕ) (s : StpcProxy)
    → s.sequence ≤ 2147483648
    → node ≢ s.tail
    → node ≢ null
    → free_data ≢ null
    → payload ≢ null
    → s.free_tail ≡ s.tail
    → Refs s 0
    → (t : StpcProxy) × (deferred_delete (suc (suc fuel)) attempts free_data payload node s
        ≡ some t)
      × (t.deleted ≡ s.deleted ++ (free_data, payload) ∷ [])
      × (t.free_tail ≡ node)
      × (t.tail ≡ node)
      × Refs t 0
unfolding count_try
deferred_delete-at_once fuel attempts free_data payload node s few fresh real func some_data first
      (sum, odd, bound) =
    let u = linked free_data payload node s in
    let c = (s.heap s.tail).count in
    let adjust = adjust_of-sequence s few in
    let rcount = sub_word reference (adjust_of s) in
    let (old, after) = linked-old free_data payload node s fresh in
    let (new, new_data, new_payload) = linked-new free_data payload node s fresh in
    let last : c ≡ rcount % word = rw adjust (settle_at c s.sequence 0 (omega arith) bound sum) in
    let (t, run, gone, first_t, at_tail, refs) =
      drop_old-at_once fuel s.tail node rcount u (old ∙ last) after real new (rw new_data func)
        (rw new_payload some_data) (unfold link_node in refl) (unfold link_node in refl)
        (unfold link_node in first) in
    (
      count_try attempts t,
      deferred_delete-dropped (suc (suc fuel)) attempts free_data payload node s t run,
      gone ∙ (rw (new_data, new_payload) (unfold link_node in refl)),
      first_t,
      at_tail,
      refs,
    )
