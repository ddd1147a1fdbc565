-- ===== src/Stpc/Teardown.antt =====
-- stpc/stpc.c `stpcDeleteProxy`: every node goes back to the client's `freeMem`.
use atomic_ptr_plus.Base.{
  ℕ, zero, suc, ◌+◌, ◌≡◌, refl, ◌∙◌, ap, List, [], ◌∷◌, ◌++◌, Option, none, some, ◌==◌,
  if◌then◌else◌, ==_yes, ==_no, length, arith, append-nil, append_assoc,
}
use atomic_ptr_plus.Fifo.{Ptr, null}
use atomic_ptr_plus.Fifo.Chain.{Chain}
use atomic_ptr_plus.Stpc.{StpcProxy, stpc_new_proxy}

-- The loop of `stpcDeleteProxy` on fuel, with the `n` counted so far.
unfoldable pub free_nodes : ℕ → Ptr → ℕ → StpcProxy → Option (ℕ × StpcProxy)
free_nodes zero node n s = none
free_nodes (suc fuel) node n s =
    let next = (s.heap node).next in
    let rest =
      free_nodes fuel next (n + 1) (record s { returned_nodes = s.returned_nodes ++ node ∷ [] }) in
    if node == null then some (n, s) else rest

-- `stpcDeleteProxy`: the number of nodes freed, and what is left; the proxy is freed with them.
unfoldable pub stpc_delete_proxy : ℕ → StpcProxy → Option (ℕ × StpcProxy)
stpc_delete_proxy fuel s = free_nodes fuel s.free_head 0 s

free_nodes-Chain :
    (nodes : List Ptr) (node : Ptr) (n : ℕ) (s : StpcProxy)
    → Chain (λ p. (s.heap p).next) node nodes null
    → free_nodes (suc (length nodes)) node n s
      ≡ some (n + length nodes, record s { returned_nodes = s.returned_nodes ++ nodes })
unfolding free_nodes
free_nodes-Chain [] node n s end =
    let all : n ≡ n + 0 = omega arith in
    rw (==_yes node null end, append-nil s.returned_nodes) (ap (λ k. some (k, s)) all)
free_nodes-Chain (x ∷ nodes) node n s (here, real, distinct, rest) =
    let s' = record s { returned_nodes = s.returned_nodes ++ x ∷ [] } in
    let all : n + 1 + length nodes ≡ n + suc (length nodes) = omega arith in
    let order = append_assoc s.returned_nodes (x ∷ []) nodes in
    rw (here, ==_no x null real)
      (free_nodes-Chain nodes (s.heap x).next (n + 1) s' rest ∙ rw (order, all) refl)

-- Enough fuel is one round more than there are nodes from `freeHead` on: each of
-- them, and nothing else, is given to `freeMem`, once, in their order.
stpc_delete_proxy-Chain :
    (nodes : List Ptr) (s : StpcProxy)
    → Chain (λ p. (s.heap p).next) s.free_head nodes null
    → (stpc_delete_proxy (suc (length nodes)) s
        ≡ some (length nodes, record s { returned_nodes = s.returned_nodes ++ nodes }))
unfolding stpc_delete_proxy
stpc_delete_proxy-Chain nodes s linked =
    let all : 0 + length nodes ≡ length nodes = omega arith in
    free_nodes-Chain nodes s.free_head 0 s linked ∙ rw all refl

-- A proxy with one node.
stpc_delete_proxy-one :
    stpc_delete_proxy 2 (stpc_new_proxy 1)
    ≡ some (1, record (stpc_new_proxy 1) { returned_nodes = 1 ∷ [] })
unfolding stpc_new_proxy
stpc_delete_proxy-one =
    stpc_delete_proxy-Chain (1 ∷ []) (stpc_new_proxy 1)
      (refl, (λ e. absurd (omega arith)), refl, refl)
