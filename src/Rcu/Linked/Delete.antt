-- ===== src/Rcu/Linked/Delete.antt =====
-- `rcu_delete_node` of fastsmr/rcuscan.c on the linked ring and on the list of its nodes.
use mathlib.Core.Path.{subst}
use atomic_ptr_plus.Base.{
  ℕ, ◌<◌, ◌≤◌, ◌≡◌, ◌≢◌, refl, sym, ◌∙◌, ap, true, false, List, [], ◌∷◌, ◌++◌, arith, has, some,
  length, length-append, inl, inr, ==_yes, ==_no, ==_refl, ◌==◌,
}
use atomic_ptr_plus.Fifo.{Ptr, null, write}
use atomic_ptr_plus.Fifo.Chain.{Chain, last, has-last}
use atomic_ptr_plus.Rcu.State.{RcuNode, World}
use atomic_ptr_plus.Rcu.Scan.{delete_from, rcu_delete_node}
use atomic_ptr_plus.Rcu.Hazard.{Outcome, returned}
use atomic_ptr_plus.Rcu.Linked.{Ring}
use atomic_ptr_plus.Rcu.Linked.Calls.{delete_last, delete_linked}
use atomic_ptr_plus.Rcu.Linked.Chains.{IsRing, IsRing-first, Chain-nodup}
use atomic_ptr_plus.Rcu.Linked.Relink.{
  IsRing-tail, IsRing-remove, prev-at, ne-last, ne-first, next-ne, out_of_rest,
}
use atomic_ptr_plus.Rcu.Linked.View.{view, Represents}
use atomic_ptr_plus.Rcu.Linked.Find.{
  Absent, Found, Found-cases, find_linked-Found, find_linked-Absent,
}
use atomic_ptr_plus.Rcu.Linked.Taken.{
  map-give_work, delete_from-Absent, delete_from-first, delete_from-other,
}
use atomic_ptr_plus.Rcu.Linked.Steps.{
  delete_linked-find, delete_found-miss, delete_found-last, view-delete_last, relinked,
  delete_found-relinked,
}

-- What the deletion of a node gives: it returns, and leaves the ring as on the list.
abbrev pub Deleted : (fuel qhandle : ℕ) → Ring → World → Type 0
Deleted fuel qhandle r w =
    (r' : Ring) × (ps' : List Ptr) × (delete_linked fuel qhandle r ≡ some (returned r'))
    × Represents r' ps' (rcu_delete_node qhandle w)

module _ (fuel qhandle : ℕ) (r : Ring) where
  Deleted-none : IsRing r.next r.prev r.current_node [] → Deleted fuel qhandle r (view [] r.store)
  unfolding delete_linked rcu_delete_node
  Deleted-none ring = (
    r,
    [],
    rw (==_yes r.current_node null ring.forward) refl,
    record { ring = ring; same = refl },
  )

  some_current :
      (x : Ptr) (xs : List Ptr)
      → IsRing r.next r.prev r.current_node (x ∷ xs)
      → Chain r.next r.current_node (x ∷ xs) r.current_node
        × (has r.current_node xs ≡ false)
        × (r.current_node ≢ null)
  some_current x xs ring = (
    rw ring.forward.0 (IsRing-first r.next r.prev r.current_node x xs ring).forward,
    rw ring.forward.0 ring.forward.2,
    rw ring.forward.0 ring.forward.1,
  )

  Deleted-Absent :
      (x : Ptr) (xs : List Ptr)
      → IsRing r.next r.prev r.current_node (x ∷ xs)
      → Absent qhandle r.store.node (x ∷ xs)
      → length xs < fuel
      → Deleted fuel qhandle r (view (x ∷ xs) r.store)
  unfolding rcu_delete_node
  Deleted-Absent x xs ring misses enough =
      let (chain, once, ne) = some_current x xs ring in
      (
        r,
        x ∷ xs,
        delete_linked-find qhandle r.current_node r fuel ne
              (find_linked-Absent qhandle r fuel r.current_node x xs chain once misses enough)
            ∙ ap (λ (o : Outcome Ring). some o)
                (delete_found-miss qhandle r.current_node r (rw ring.forward.0 misses.0)),
        record {
          ring = ring;
          same = sym (delete_from-Absent r.store.node qhandle r.store.globals (x ∷ xs) misses);
        },
      )

  -- The only node has the handle.
  Deleted-last :
      (d : Ptr)
      → IsRing r.next r.prev r.current_node (d ∷ [])
      → ((r.store.node d).qhandle == qhandle) ≡ true
      → 0 < fuel
      → Deleted fuel qhandle r (view (d ∷ []) r.store)
  unfolding rcu_delete_node delete_from delete_last
  Deleted-last d ring hit enough =
      let (chain, once, ne) = some_current d [] ring in
      (
        delete_last d r,
        [],
        delete_linked-find qhandle d r fuel ne
              (find_linked-Found qhandle r fuel r.current_node [] d [] chain once tt hit enough)
            ∙ ap (λ (o : Outcome Ring). some o) (delete_found-last qhandle d r hit ring.forward.3),
        record {
          ring = record { forward = refl; backward = tt };
          same = view-delete_last qhandle d r ∙ (rw hit refl);
        },
      )

  -- The current node has the handle, and there are others.
  Deleted-first :
      (x y : Ptr) (ys : List Ptr)
      → IsRing r.next r.prev r.current_node (x ∷ y ∷ ys)
      → ((r.store.node x).qhandle == qhandle) ≡ true
      → 0 < fuel
      → Deleted fuel qhandle r (view (x ∷ y ∷ ys) r.store)
  unfolding rcu_delete_node
  Deleted-first x y ys ring hit enough =
      let (chain, once, ne) = some_current x (y ∷ ys) ring in
      let apart : x ≢ last (y ∷ ys) = λ e. ground (arith, has-last y ys, ring.forward.2) in
      let nodes = Chain-nodup r.next (r.next x) (y ∷ ys) x ring.forward.3 in
      (
        relinked x r (last (y ∷ ys)) (r.next x) (last (y ∷ ys)) (r.next x),
        y ∷ ys,
        delete_linked-find qhandle x r fuel ne (
              find_linked-Found qhandle r fuel r.current_node [] x (y ∷ ys) chain once tt hit
                enough)
            ∙ ap (λ (o : Outcome Ring). some o)
                (delete_found-relinked x r qhandle (last (y ∷ ys)) ring.backward.0 apart
                  (λ e. ground (arith, ring.forward.3.0, ring.forward.2)) hit),
        record {
          ring =
              rw (ring.forward.0, ==_refl x, ring.forward.3.0)
                (IsRing-tail r.next r.prev x y ys
                  (IsRing-first r.next r.prev r.current_node x (y ∷ ys) ring));
          same =
              ap (λ (ns : List RcuNode). record r.store.globals { nodes = ns })
                (map-give_work (last (y ∷ ys)) x r.store (λ e. apart (sym e)) (y ∷ ys)
                  ring.forward.2)
              ∙ sym (delete_from-first r.store.node qhandle r.store.globals x y ys hit nodes);
        },
      )

  -- Another node has the handle.
  Deleted-other :
      (x : Ptr) (xs : List Ptr) (d : Ptr) (ys : List Ptr)
      → IsRing r.next r.prev r.current_node ((x ∷ xs) ++ d ∷ ys)
      → Absent qhandle r.store.node (x ∷ xs)
      → ((r.store.node d).qhandle == qhandle) ≡ true
      → length (x ∷ xs) < fuel
      → Deleted fuel qhandle r (view ((x ∷ xs) ++ d ∷ ys) r.store)
  unfolding rcu_delete_node
  Deleted-other x xs d ys ring misses hit enough =
      let (chain, once, ne) = some_current x (xs ++ d ∷ ys) ring in
      let first = IsRing-first r.next r.prev r.current_node x (xs ++ d ∷ ys) ring in
      let apart = ne-last r.next r.prev x xs d ys first in
      let l = last (x ∷ xs) in
      let rest = IsRing-remove r.next r.prev x xs d ys first in
      (
        relinked d r l (r.next d) l (r.next d),
        (x ∷ xs) ++ ys,
        delete_linked-find qhandle d r fuel ne (
              find_linked-Found qhandle r fuel r.current_node (x ∷ xs) d ys chain once misses hit
                enough)
            ∙ ap (λ (o : Outcome Ring). some o)
                (delete_found-relinked d r qhandle l (prev-at r.next r.prev x xs d ys first) apart
                  (next-ne r.next r.prev x xs d ys first) hit),
        record {
          ring =
              rw
                (
                  ring.forward.0,
                  ==_no x d (λ (e : x ≡ d). ne-first r.next r.prev x xs d ys first (sym e)),
                )
                rest;
          same =
              ap (λ (ns : List RcuNode). record r.store.globals { nodes = ns })
                (map-give_work l d r.store (λ e. apart (sym e)) ((x ∷ xs) ++ ys)
                  (out_of_rest r.next r.prev x xs d ys first))
              ∙ sym (
                  delete_from-other r.store.node qhandle r.store.globals x xs d ys misses hit
                    (Chain-nodup (write r.next l (r.next d)) x ((x ∷ xs) ++ ys) x rest.forward));
        },
      )

  Deleted-shapes :
      (before : List Ptr) (d : Ptr) (behind : List Ptr)
      → IsRing r.next r.prev r.current_node (before ++ d ∷ behind)
      → Absent qhandle r.store.node before
      → ((r.store.node d).qhandle == qhandle) ≡ true
      → length before < fuel
      → Deleted fuel qhandle r (view (before ++ d ∷ behind) r.store)
  Deleted-shapes [] d [] ring misses hit enough = Deleted-last d ring hit enough
  Deleted-shapes [] d (y ∷ ys) ring misses hit enough = Deleted-first d y ys ring hit enough
  Deleted-shapes (x ∷ xs) d ys ring misses hit enough =
      Deleted-other x xs d ys ring misses hit enough

  Deleted-Found :
      (ps : List Ptr)
      → IsRing r.next r.prev r.current_node ps
      → length ps ≤ fuel
      → Found qhandle r.store.node ps
      → Deleted fuel qhandle r (view ps r.store)
  Deleted-Found ps ring enough found =
      subst (λ (t : List Ptr). Deleted fuel qhandle r (view t r.store)) (sym found.whole)
        (Deleted-shapes found.before found.d found.behind
          (subst (λ (t : List Ptr). IsRing r.next r.prev r.current_node t) found.whole ring)
          found.misses found.hit
          (omega (
            arith,
            length-append {0} found.before (found.d ∷ found.behind),
            ap (length {0}) found.whole,
          )))

  Deleted-view :
      (ps : List Ptr)
      → IsRing r.next r.prev r.current_node ps
      → length ps ≤ fuel
      → Deleted fuel qhandle r (view ps r.store)
  Deleted-view [] ring enough = Deleted-none ring
  Deleted-view (x ∷ xs) ring enough = elim (Found-cases qhandle r.store.node (x ∷ xs)) [
    | inl misses ↦ Deleted-Absent x xs ring misses (omega arith)
    | inr found ↦ Deleted-Found (x ∷ xs) ring enough found
  ]

-- The deletion of the node with a handle from a linked ring returns, with fuel for each node; it
-- leaves a ring that is linked in both directions, and the nodes of which, and all else, are what
-- the deletion from the list gives, whether the node is the current one, the only one, another one,
-- or there is none.
pub delete_linked-Represents :
    (fuel qhandle : ℕ) (r : Ring) (ps : List Ptr) (w : World)
    → Represents r ps w
    → length ps ≤ fuel
    → Deleted fuel qhandle r w
delete_linked-Represents fuel qhandle r ps w h enough =
    rw (← h.same) (Deleted-view fuel qhandle r ps h.ring enough)
