-- ===== src/Rcu/Linked/Steps.antt =====
-- The branches of `rcu_delete_node` of fastsmr/rcuscan.c on the linked ring.
use atomic_ptr_plus.Base.{
  ℕ, ◌≡◌, ◌≢◌, refl, sym, ◌∙◌, ap, true, false, List, [], ◌∷◌, arith, some, ==_yes, ==_no, ==_refl,
  ◌==◌, if◌then◌else◌,
}
use atomic_ptr_plus.Fifo.{Ptr, null, write}
use atomic_ptr_plus.Rcu.State.{update}
use atomic_ptr_plus.Rcu.Enqueue.{rcu_requeue}
use atomic_ptr_plus.Rcu.Hazard.{returned}
use atomic_ptr_plus.Rcu.Linked.{
  Store, Ring, set_node, requeue_one_linked, requeue_linked, requeue_queue0, requeue_queue1,
}
use atomic_ptr_plus.Rcu.Linked.Calls.{
  give_work, delete_last, unlink, checked, find_linked, delete_found, delete_linked,
}
use atomic_ptr_plus.Rcu.Linked.View.{view, view-requeue}
use atomic_ptr_plus.Rcu.Linked.Taken.{give_work-emptied}

-- With no current node left, requeued work goes to no node.
requeue_one-no_node : (work : Ptr) (s : Store) → (requeue_one_linked null work s).node ≡ s.node
unfolding requeue_one_linked
requeue_one-no_node work s = ground arith

requeue-no_node : (queue : List Ptr) (s : Store) → (requeue_linked null queue s).node ≡ s.node
unfolding requeue_linked
requeue-no_node [] s = refl
requeue-no_node (work ∷ queue) s =
    requeue-no_node queue (requeue_one_linked null work s) ∙ requeue_one-no_node work s

checked_lem :
    (node : Ptr) (r : Ring)
    → (r.store.node node).queue0 ≡ []
    → (r.store.node node).queue1 ≡ []
    → checked node r ≡ returned r
unfolding checked
checked_lem node r e f = rw (e, f) refl

module _ (p : Ptr) (s : Store) where
  requeue_queue0-node :
      (requeue_queue0 null p s).node ≡ update s.node p (record (s.node p) { queue0 = [] })
  unfolding requeue_queue0
  requeue_queue0-node =
      requeue-no_node (s.node p).queue0 (set_node p (record (s.node p) { queue0 = [] }) s)

  requeue_queue1-node :
      (requeue_queue1 null p s).node ≡ update s.node p (record (s.node p) { queue1 = [] })
  unfolding requeue_queue1
  requeue_queue1-node =
      requeue-no_node (s.node p).queue1 (set_node p (record (s.node p) { queue1 = [] }) s)

module _ (qhandle : ℕ) (node : Ptr) (r : Ring) where
  pub delete_linked-find :
      (fuel : ℕ)
      → r.current_node ≢ null
      → find_linked fuel qhandle r r.current_node ≡ some node
      → delete_linked fuel qhandle r ≡ some (delete_found qhandle node r)
  unfolding delete_linked
  delete_linked-find fuel ne found = rw (==_no r.current_node null ne, found) refl

  pub delete_found-miss :
      ((r.store.node node).qhandle == qhandle) ≡ false → delete_found qhandle node r ≡ returned r
  unfolding delete_found
  delete_found-miss miss = rw miss refl

  -- The only node.
  last_emptied :
      (((delete_last node r).store.node node).queue0 ≡ [])
      × (((delete_last node r).store.node node).queue1 ≡ [])
  unfolding delete_last
  last_emptied =
      rw
        (
          requeue_queue1-node node (requeue_queue0 null node r.store),
          requeue_queue0-node node r.store,
          ==_refl node,
        )
        (refl, refl)

  pub delete_found-last :
      ((r.store.node node).qhandle == qhandle) ≡ true
      → r.next node ≡ node
      → delete_found qhandle node r ≡ returned (delete_last node r)
  unfolding delete_found
  delete_found-last hit e =
      rw (hit, ==_yes (r.next node) node e)
        (checked_lem node (delete_last node r) last_emptied.0 last_emptied.1)

  pub view-delete_last :
      view [] (delete_last node r).store
      ≡ rcu_requeue
          (r.store.node node).queue1
          (rcu_requeue (r.store.node node).queue0 (view [] r.store))
  unfolding delete_last requeue_queue0 requeue_queue1
  view-delete_last =
      view-requeue null [] (s1.node node).queue1
        (set_node node (record (s1.node node) { queue1 = [] }) s1) refl
      ∙ rw kept (
          ap (rcu_requeue (r.store.node node).queue1) (
            view-requeue null [] (r.store.node node).queue0
              (set_node node (record (r.store.node node) { queue0 = [] }) r.store) refl))
    where
      s1 : Store
      s1 = requeue_queue0 null node r.store

      kept : (s1.node node).queue1 ≡ (r.store.node node).queue1
      kept = rw (requeue_queue0-node node r.store, ==_refl node) refl

  delete_found-unlink :
      ((r.store.node node).qhandle == qhandle) ≡ true
      → r.next node ≢ node
      → delete_found qhandle node r ≡ checked node (unlink node r)
  unfolding delete_found
  delete_found-unlink hit more = rw (hit, ==_no (r.next node) node more) refl

-- One node of several, between `l` and `q`.
module _ (node : Ptr) (r : Ring) where
  abbrev pub relinked : (l q l' q' : Ptr) → Ring
  relinked l q l' q' = record {
    next = write r.next l q;
    prev = write r.prev q' l;
    current_node = (if r.current_node == node then q else r.current_node);
    store = give_work l' node r.store;
  }

  unlink_lem :
      (l : Ptr)
      → r.prev node ≡ l
      → node ≢ l
      → r.next node ≢ node
      → unlink node r ≡ relinked l (r.next node) l (r.next node)
  unfolding unlink
  unlink_lem l back ne more = λ i. relinked (back i) (r.next node) (prev_kept i) (next_kept i)
    where
      next_kept : write r.next (r.prev node) (r.next node) node ≡ r.next node
      next_kept = rw (back, ==_no l node (λ (e : l ≡ node). ne (sym e))) refl

      prev_kept :
          write r.prev (write r.next (r.prev node) (r.next node) node) (r.prev node) node ≡ l
      prev_kept = rw (next_kept, ==_no (r.next node) node more) back

  pub delete_found-relinked :
      (qhandle l : ℕ)
      → r.prev node ≡ l
      → node ≢ l
      → r.next node ≢ node
      → ((r.store.node node).qhandle == qhandle) ≡ true
      → delete_found qhandle node r ≡ returned (relinked l (r.next node) l (r.next node))
  delete_found-relinked qhandle l back ne more hit =
      let (none0, none1) = give_work-emptied l node r.store (λ (e : l ≡ node). ne (sym e)) in
      delete_found-unlink qhandle node r hit more
      ∙ ap (checked node) (unlink_lem l back ne more)
      ∙ checked_lem node (relinked l (r.next node) l (r.next node)) none0 none1
