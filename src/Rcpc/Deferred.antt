-- ===== src/Rcpc/Deferred.antt =====
-- rcpc/rcpc.c `rcpcDeferredDelete`, when no reference is outstanding.
use atomic_ptr_plus.Base.{
  List, ℕ, suc, ◌+◌, ◌≡◌, ◌≢◌, refl, sym, ◌∙◌, ap, [], ◌∷◌, ◌++◌, true, some, arith, ==_no, ==_yes,
  ltb, update, update-same, update-other,
}
use atomic_ptr_plus.Fifo.{Ptr, null}
use atomic_ptr_plus.Rcpc.{
  reference, RcpcNode, RcpcProxy, zero_node, put_node, rcpc_drop_proxy_node_reference,
}
use atomic_ptr_plus.Rcpc.Calls.{new_node, add_node, add_until, rcpc_deferred_delete, wait_node}
use atomic_ptr_plus.Rcpc.Reference.{Refs, referenced, referenced-Refs, get-tail}
use atomic_ptr_plus.Rcpc.Add.{Added, add_node-Added}
use atomic_ptr_plus.Rcpc.Release.{Released, rcpc_drop_proxy_node_reference-Released}

add_until-added :
    (rounds fuel : ℕ) (old : Ptr) (latency : ℕ) (node : Ptr) (s t v : RcpcProxy)
    → add_node fuel old latency node s ≡ some (true, t)
    → rcpc_drop_proxy_node_reference fuel old t ≡ some v
    → add_until (suc rounds) fuel old latency node s ≡ some v
unfolding add_until
add_until-added rounds fuel old latency node s t v add drop =
    rw (add, add_until) (rw (drop, add_until) refl)

-- The data of `node` was deleted, and it is the tail, with nothing outstanding.
abbrev pub Deleted : Ptr → Ptr → Ptr → RcpcProxy → RcpcProxy → Type 0
Deleted node free_data payload s t =
    (t.tail ≡ node)
    × (t.deleted ≡ s.deleted ++ (free_data, payload) ∷ [])
    × ((t.heap node).payload ≡ null)
    × Refs t 0

Released-Deleted :
    (old node free_data payload : Ptr) (s t v : RcpcProxy)
    → (s.heap node).free_data ≡ free_data
    → (s.heap node).payload ≡ payload
    → Added old node reference s t
    → Released old 0 t v
    → Deleted node free_data payload s v
Released-Deleted old node free_data payload s t v its_data its_payload
      (count, next, tail, kept, same_payload, same_data, refs) (moved, same, deleted, taken, held) =
    let at_tail = ap t.heap tail in
    (
      same ∙ tail,
      rw (deleted, at_tail, kept, same_data, same_payload, its_data, its_payload) refl,
      ap (λ p. (v.heap p).payload) (sym tail) ∙ taken,
      held,
    )

-- The caller's reference to the old tail is the last one.
last_drop :
    (fuel : ℕ) (old node free_data payload : Ptr) (s t : RcpcProxy)
    → node ≢ null
    → node ≢ old
    → (s.heap node).free_data ≡ free_data
    → (s.heap node).payload ≡ payload
    → free_data ≢ null
    → payload ≢ null
    → Added old node reference s t
    → (v : RcpcProxy) × (rcpc_drop_proxy_node_reference (suc (suc fuel)) old t ≡ some v)
      × Deleted node free_data payload s v
last_drop fuel old node free_data payload s t real apart its_data its_payload some_data some_payload
      added =
    let (count, next, tail, kept, same_payload, same_data, refs) = added in
    let at_tail = ap t.heap tail in
    let (v, drop, released) =
      rcpc_drop_proxy_node_reference-Released fuel old t 0 (omega arith) count (next ∙ sym tail)
        (rw tail real) (rw tail apart) (rw (at_tail, same_data, its_data) some_data)
        (rw (at_tail, same_payload, its_payload) some_payload) refs in
    (v, drop, Released-Deleted old node free_data payload s t v its_data its_payload added released)

add_until-Deleted :
    (rounds fuel : ℕ) (node free_data payload : Ptr) (s : RcpcProxy)
    → node ≢ null
    → node ≢ s.tail
    → (s.heap node).next ≡ null
    → (s.heap node).free_data ≡ free_data
    → (s.heap node).payload ≡ payload
    → free_data ≢ null
    → payload ≢ null
    → Refs s 1
    → (v : RcpcProxy) × (add_until (suc rounds) (suc (suc fuel)) s.tail 0 node s ≡ some v)
      × Deleted node free_data payload s v
add_until-Deleted rounds fuel node free_data payload s real apart fresh its_data its_payload
      some_data some_payload refs =
    let (t, add, added) = add_node-Added fuel node s 0 (omega arith) real apart fresh refs in
    let (v, drop, deleted) =
      last_drop fuel s.tail node free_data payload s t real apart its_data its_payload some_data
        some_payload added in
    (v, add_until-added rounds (suc (suc fuel)) s.tail 0 node s t v add drop, deleted)

-- The proxy with a reference taken and a new node filled.
abbrev filled : Ptr → Ptr → Ptr → RcpcProxy → RcpcProxy
filled node free_data payload s =
    let r = referenced s in
    let u = record (put_node node zero_node r) { num_nodes = s.num_nodes + 1 } in
    put_node node (record (u.heap node) { free_data = free_data; payload = payload }) u

new_node-allocated :
    (fresh : Ptr) (s : RcpcProxy)
    → s.free_head ≡ s.free_tail
    → ltb s.num_nodes s.max_nodes ≡ true
    → fresh ≢ null
    → new_node fresh true s
      ≡ some (fresh, record (put_node fresh zero_node s) { num_nodes = s.num_nodes + 1 })
unfolding new_node
new_node-allocated fresh s empty room real =
    rw (==_yes s.free_head s.free_tail empty, room, ==_no fresh null real) refl

wait_node-first :
    (fuel : ℕ) (fresh : Ptr) (answers : List Ptr) (s : RcpcProxy)
    → (s.heap s.tail).next ≡ null
    → s.free_head ≡ s.free_tail
    → ltb s.num_nodes s.max_nodes ≡ true
    → fresh ≢ null
    → wait_node (fresh ∷ answers) (suc fuel) s
      ≡ some (
        s.tail,
        0,
        fresh,
        record (put_node fresh zero_node (referenced s)) { num_nodes = s.num_nodes + 1 },
      )
unfolding wait_node
wait_node-first fuel fresh answers s last empty room real =
    rw (get-tail fuel s last, wait_node)
      (rw (new_node-allocated fresh (referenced s) empty room real, wait_node)
        (rw (==_no fresh null real) refl))

deferred_delete-filled :
    (rounds fuel : ℕ) (fresh : Ptr) (answers : List Ptr) (free_data payload : Ptr) (s : RcpcProxy)
    → (s.heap s.tail).next ≡ null
    → s.free_head ≡ s.free_tail
    → ltb s.num_nodes s.max_nodes ≡ true
    → fresh ≢ null
    → rcpc_deferred_delete rounds (suc fuel) (fresh ∷ answers) free_data payload s
      ≡ add_until rounds (suc fuel) s.tail 0 fresh (filled fresh free_data payload s)
unfolding rcpc_deferred_delete
deferred_delete-filled rounds fuel fresh answers free_data payload s last empty room real =
    rw (wait_node-first fuel fresh answers s last empty room real, rcpc_deferred_delete) refl

-- With nothing outstanding, no free node, and room for a node that `allocMem` gives,
-- `rcpcDeferredDelete` adds that node at the first attempt and deletes the data before it returns:
-- the node is the tail, and nothing is outstanding.
pub rcpc_deferred_delete-at_once :
    (rounds fuel : ℕ) (fresh : Ptr) (answers : List Ptr) (free_data payload : Ptr) (s : RcpcProxy)
    → s.free_head ≡ s.free_tail
    → ltb s.num_nodes s.max_nodes ≡ true
    → fresh ≢ null
    → fresh ≢ s.tail
    → free_data ≢ null
    → payload ≢ null
    → Refs s 0
    → (t : RcpcProxy) × (rcpc_deferred_delete
          (suc rounds)
          (suc (suc fuel))
          (fresh ∷ answers)
          free_data
          payload
          s
        ≡ some t)
      × Deleted fresh free_data payload s t
rcpc_deferred_delete-at_once rounds fuel fresh answers free_data payload s empty room real apart
      some_data some_payload refs =
    let r = referenced s in
    let node : RcpcNode = record zero_node { free_data = free_data; payload = payload } in
    let h = update r.heap fresh zero_node in
    let blank : h fresh ≡ zero_node = update-same r.heap fresh zero_node in
    let n : RcpcNode = record (h fresh) { free_data = free_data; payload = payload } in
    let f = filled fresh free_data payload s in
    let f_node : f.heap fresh ≡ node = update-same h fresh n ∙ rw blank refl in
    let away : s.tail ≢ fresh = λ e. apart (sym e) in
    let f_tail : f.heap s.tail ≡ s.heap s.tail =
      update-other h fresh s.tail n away ∙ update-other r.heap fresh s.tail zero_node away in
    let f_refs : Refs f 1 = rw f_tail (referenced-Refs s 0 (omega arith) refs) in
    let (t, added, deleted) =
      add_until-Deleted rounds fuel fresh free_data payload f real apart (rw f_node refl)
        (rw f_node refl) (rw f_node refl) some_data some_payload f_refs in
    (
      t,
      deferred_delete-filled (suc rounds) (suc fuel) fresh answers free_data payload s (refs.0)
            empty room real
          ∙ added,
      deleted,
    )
