-- ===== src/Rcpc/Teardown.antt =====
-- rcpc/rcpc.c `rcpcDeleteProxy`: every node goes back to the client's `freeMem`.
use atomic_ptr_plus.Base.{
  ℕ, zero, suc, ◌+◌, ◌≡◌, refl, ◌∙◌, ap, List, [], ◌∷◌, ◌++◌, Option, none, some, ◌==◌,
  if◌then◌else◌, ==_yes, ==_no, length, arith, append-nil, append_assoc,
}
use atomic_ptr_plus.Fifo.{Ptr, null}
use atomic_ptr_plus.Fifo.Chain.{Chain}
use atomic_ptr_plus.Rcpc.{RcpcProxy}

-- The loop of `rcpcDeleteProxy` on fuel, with the `n` counted so far.
unfoldable pub free_nodes : ℕ → Ptr → ℕ → RcpcProxy → Option (ℕ × RcpcProxy)
free_nodes zero node n s = none
free_nodes (suc fuel) node n s =
    let next = (s.heap node).next in
    let rest =
      free_nodes fuel next (n + 1) (record s { returned_nodes = s.returned_nodes ++ node ∷ [] }) in
    if node == null then some (n, s) else rest

-- `rcpcDeleteProxy`; the statistics and the proxy are freed with the nodes.
unfoldable pub rcpc_delete_proxy : ℕ → RcpcProxy → Option RcpcProxy
rcpc_delete_proxy fuel s = elim (free_nodes fuel s.free_head 0 s) [
  | none ↦ none
  | some (n, t) ↦ some t
]

free_nodes-Chain :
    (nodes : List Ptr) (node : Ptr) (n : ℕ) (s : RcpcProxy)
    → Chain (λ p. (s.heap p).next) node nodes null
    → free_nodes (suc (length nodes)) node n s
      ≡ some (n + length nodes, record s { returned_nodes = s.returned_nodes ++ nodes })
unfolding free_nodes
free_nodes-Chain [] node n s end =
    let all : n ≡ n + 0 = omega arith in
    rw (==_yes node null end, append-nil s.returned_nodes) (ap (λ k. some (k, s)) all)
free_nodes-Chain (x ∷ nodes) node n s (here, real, distinct, rest) =
    let s' = record s { returned_nodes = s.returned_nodes ++ x ∷ [] } in
    let all : n + 1 + length nodes ≡ n + suc (length nodes) = omega arith in
    let order = append_assoc s.returned_nodes (x ∷ []) nodes in
    rw (here, ==_no x null real)
      (free_nodes-Chain nodes (s.heap x).next (n + 1) s' rest ∙ rw (order, all) refl)

-- Enough fuel is one round more than there are nodes from `freeHead` on: each of
-- them, and nothing else, is given to `freeMem`, once, in their order.
rcpc_delete_proxy-Chain :
    (nodes : List Ptr) (s : RcpcProxy)
    → Chain (λ p. (s.heap p).next) s.free_head nodes null
    → (rcpc_delete_proxy (suc (length nodes)) s
        ≡ some (record s { returned_nodes = s.returned_nodes ++ nodes }))
unfolding rcpc_delete_proxy
rcpc_delete_proxy-Chain nodes s linked =
    rw (free_nodes-Chain nodes s.free_head 0 s linked, rcpc_delete_proxy) refl
