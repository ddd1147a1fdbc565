-- ===== src/Stpc/Drop.antt =====
-- stpc/stpc.c `stpcDropProxyNodeReference` on a node that is no longer the tail.
use atomic_ptr_plus.Base.{
  sub_word, suc, ◌≡◌, ◌≢◌, refl, sym, ◌∙◌, true, false, some, arith, ◌==◌, if◌then◌else◌, ◌++◌, ◌∷◌,
  List, [], length, has, nodup, append-nil, append_assoc,
}
use atomic_ptr_plus.Fifo.{Ptr, null}
use atomic_ptr_plus.Stpc.{
  StpcNode, StpcProxy, drop_loop, delete_data, release_node, reference, put_node,
  stpc_drop_proxy_node_reference, drop_proxy_node_reference,
}
use atomic_ptr_plus.Stpc.Reference.{drop_loop-held, drop_loop-last}
use atomic_ptr_plus.Stpc.Data.{
  delete_data-count, delete_data-same, delete_data-next, delete_data-other,
}

-- The last reference to `node` is about to be dropped, and so, one after the other, those to the
-- nodes of the list but its last, which other references keep.
unfoldable pub Waiting : (Ptr → StpcNode) → Ptr → List Ptr → Type 0
Waiting h node [] = (h node).count ≢ reference
Waiting h node (m ∷ ms) =
    ((h node).count ≡ reference) × ((h node).next ≡ m) × (m ≢ null) × Waiting h m ms

abbrev pub last_of : Ptr → List Ptr → Ptr
last_of node [] = node
last_of node (m ∷ ms) = last_of m ms

-- The data queued on a node, if any.
abbrev pub data_of : StpcNode → List (Ptr × Ptr)
data_of n =
    if n.free_data == null
    then []
    else if n.payload == null
    then []
    else (n.free_data, n.payload) ∷ []

abbrev pub data_on : (Ptr → StpcNode) → List Ptr → List (Ptr × Ptr)
data_on h [] = []
data_on h (m ∷ ms) = data_of (h m) ++ data_on h ms

delete_data-adds :
    (p : Ptr) (s : StpcProxy) → (delete_data p s).deleted ≡ s.deleted ++ data_of (s.heap p)
unfolding delete_data
delete_data-adds p s = ground (arith, append-nil s.deleted)

Waiting-delete_data :
    (p node : Ptr) (ms : List Ptr) (s : StpcProxy)
    → Waiting s.heap node ms
    → Waiting (delete_data p s).heap node ms
unfolding Waiting
Waiting-delete_data p node [] s w = rw (delete_data-count p node s) w
Waiting-delete_data p node (m ∷ ms) s (last, next, real, w) = (
  delete_data-count p node s ∙ last,
  delete_data-next p node s ∙ next,
  real,
  Waiting-delete_data p m ms s w,
)

data_on-delete_data :
    (p : Ptr) (ms : List Ptr) (s : StpcProxy)
    → has p ms ≡ false
    → data_on (delete_data p s).heap ms ≡ data_on s.heap ms
data_on-delete_data p [] s out = refl
data_on-delete_data p (m ∷ ms) s out =
    let apart : p ≢ m = λ e. absurd (ground arith) in
    let rest : has p ms ≡ false = ground arith in
    rw (delete_data-other p m s apart, data_on-delete_data p ms s rest) refl

-- One round: the node of the last reference is released, and the data of its successor deleted.
release_next :
    (node m : Ptr) (ms : List Ptr) (s : StpcProxy)
    → (s.heap node).next ≡ m
    → s.free_tail ≡ node
    → Waiting s.heap m ms
    → nodup (m ∷ ms) ≡ true
    → Waiting (delete_data m (release_node s)).heap m ms
      × ((delete_data m (release_node s)).free_tail ≡ m)
      × ((delete_data m (release_node s)).deleted
            ++ data_on (delete_data m (release_node s)).heap ms
          ≡ s.deleted ++ data_on s.heap (m ∷ ms))
unfolding release_node
release_next node m ms s next first w apart =
    let r = release_node s in
    let (same_tail, same_sequence, same_free) = delete_data-same m r in
    let out : has m ms ≡ false = ground arith in
    (
      Waiting-delete_data m m ms r w,
      same_free ∙ (rw first next),
      (rw (delete_data-adds m r, data_on-delete_data m ms r out)
          (append_assoc s.deleted (data_of (s.heap m)) (data_on s.heap ms))),
    )

-- The loop ends after as many rounds as nodes are released.
drop_loop-frees :
    (ms : List Ptr) (node : Ptr) (s : StpcProxy)
    → Waiting s.heap node ms
    → nodup ms ≡ true
    → s.free_tail ≡ node
    → (t : StpcProxy) × (drop_loop (suc (length ms)) node reference s ≡ some t)
      × (t.deleted ≡ s.deleted ++ data_on s.heap ms)
      × (t.free_tail ≡ last_of node ms)
unfolding Waiting
drop_loop-frees [] node s more apart first = (
  record s {
    heap =
        put_node node (record (s.heap node) { count = sub_word (s.heap node).count reference })
          s.heap;
  },
  drop_loop-held 0 node reference s more,
  sym (append-nil s.deleted),
  first,
)
drop_loop-frees (m ∷ ms) node s (last, next, real, w) apart first =
    let (w', first', all) = release_next node m ms s next first w apart in
    let rest : nodup ms ≡ true = ground arith in
    let (t, run, gone, at_last) =
      drop_loop-frees ms m (delete_data m (release_node s)) w' rest first' in
    (
      t,
      drop_loop-last (suc (length ms)) node reference s last (rw next real) ∙ (rw next run),
      gone ∙ all,
      at_last,
    )

-- A drop of a reference to the oldest node, which is the last if nodes wait for it, deletes the data
-- of those nodes, each once and oldest first, up to and with the first node that other references
-- keep; that node is then the end of the free nodes. As many rounds are enough as nodes are released,
-- and one. The waiting nodes differ from one another.
pub stpc_drop_proxy_node_reference-frees :
    (ms : List Ptr) (node : Ptr) (s : StpcProxy)
    → Waiting s.heap node ms
    → nodup ms ≡ true
    → s.free_tail ≡ node
    → (t : StpcProxy) × (stpc_drop_proxy_node_reference (suc (length ms)) node s ≡ some t)
      × (t.deleted ≡ s.deleted ++ data_on s.heap ms)
      × (t.free_tail ≡ last_of node ms)
unfolding stpc_drop_proxy_node_reference drop_proxy_node_reference
stpc_drop_proxy_node_reference-frees ms node s w apart first =
    drop_loop-frees ms node s w apart first
