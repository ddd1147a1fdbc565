-- ===== src/Stpc/Data.antt =====
-- stpc/stpc.c `_dropProxyNodeReference`: what deleting the data of a node changes.
use atomic_ptr_plus.Base.{==_no, ◌≡◌, ◌≢◌, refl, arith, ==_refl, ◌∷◌, [], ◌++◌}
use atomic_ptr_plus.Fifo.{Ptr, null}
use atomic_ptr_plus.Stpc.{put_node, delete_data, StpcNode, StpcProxy}

pub put_node-same : (p : Ptr) (n : StpcNode) (h : Ptr → StpcNode) → put_node p n h p ≡ n
put_node-same p n h = rw (==_refl p) refl

pub put_node-other :
    (p q : Ptr) (n : StpcNode) (h : Ptr → StpcNode) → p ≢ q → put_node p n h q ≡ h q
put_node-other p q n h apart = rw (==_no p q apart) refl

pub delete_data-count :
    (p q : Ptr) (s : StpcProxy) → ((delete_data p s).heap q).count ≡ (s.heap q).count
unfolding delete_data
delete_data-count p q s = ground arith

pub delete_data-same :
    (p : Ptr) (s : StpcProxy)
    → ((delete_data p s).tail ≡ s.tail)
      × ((delete_data p s).sequence ≡ s.sequence)
      × ((delete_data p s).free_tail ≡ s.free_tail)
unfolding delete_data
delete_data-same p s = ground arith

pub delete_data-deleted :
    (p : Ptr) (s : StpcProxy)
    → (s.heap p).free_data ≢ null
    → (s.heap p).payload ≢ null
    → (delete_data p s).deleted ≡ s.deleted ++ ((s.heap p).free_data, (s.heap p).payload) ∷ []
unfolding delete_data
delete_data-deleted p s a b = rw (==_no _ null a, ==_no _ null b) refl

pub delete_data-next :
    (p q : Ptr) (s : StpcProxy) → ((delete_data p s).heap q).next ≡ (s.heap q).next
unfolding delete_data
delete_data-next p q s = ground arith

pub delete_data-other : (p q : Ptr) (s : StpcProxy) → p ≢ q → (delete_data p s).heap q ≡ s.heap q
unfolding delete_data
delete_data-other p q s apart =
    ground (arith, put_node-other p q (record (s.heap p) { payload = null }) s.heap apart)
