-- ===== src/Rcu/Linked/Add.antt =====
-- `rcu_add_node` of fastsmr/rcuscan.c on the linked ring and on the list of its nodes.
use atomic_ptr_plus.Base.{
  ℕ, ◌≡◌, ◌≢◌, refl, sym, ap, false, List, [], ◌∷◌, ◌++◌, arith, has, ==_yes, ==_no, ==_refl,
}
use atomic_ptr_plus.Fifo.{Ptr, null, write}
use atomic_ptr_plus.Fifo.Chain.{last}
use atomic_ptr_plus.Rcu.State.{World, RcuNode, state_none}
use atomic_ptr_plus.Rcu.Scan.{Answers, rcu_add_node}
use atomic_ptr_plus.Rcu.Hazard.{returned}
use atomic_ptr_plus.Rcu.Linked.{Store, Ring, set_node}
use atomic_ptr_plus.Rcu.Linked.Calls.{add_linked}
use atomic_ptr_plus.Rcu.Linked.Chains.{IsRing, IsRing-first}
use atomic_ptr_plus.Rcu.Linked.Relink.{IsRing-insert}
use atomic_ptr_plus.Rcu.Linked.View.{view, Represents, map-insert}

module _ (node : Ptr) (qhandle : ℕ) (ask : Answers) (r : Ring) (some_node : node ≢ null) where
  abbrev new_node : RcuNode
  new_node = record {
    qhandle = qhandle;
    last_qcount = (ask qhandle).qcount;
    queue0 = [];
    queue1 = [];
    last_time = 0;
    state = state_none;
  }

  abbrev added : Store
  added = set_node node new_node r.store

  view-added :
      (ps : List Ptr)
      → has node ps ≡ false
      → view (ps ++ node ∷ []) added ≡ rcu_add_node qhandle ask (view ps r.store)
  unfolding rcu_add_node
  view-added ps new =
      ap (λ (ns : List RcuNode). record (view ps r.store) { nodes = ns })
        (map-insert r.store.node node new_node ps new)

  add_linked-null :
      r.current_node ≡ null
      → add_linked node qhandle ask r
        ≡ returned (record {
          next = write r.next node node;
          prev = write r.prev node node;
          current_node = node;
          store = added;
        })
  unfolding add_linked
  add_linked-null e = rw (==_no node null some_node, ==_yes r.current_node null e) refl

  add_linked-some :
      (x l : Ptr)
      → r.current_node ≡ x
      → x ≢ null
      → r.prev x ≡ l
      → node ≢ x
      → add_linked node qhandle ask r
        ≡ returned (record {
          next = write (write r.next node x) l node;
          prev = write (write r.prev node l) x node;
          current_node = x;
          store = added;
        })
  unfolding add_linked
  add_linked-some x l e ne back new =
      rw
        (
          ==_no node null some_node,
          e,
          ==_no x null ne,
          ==_no x node (λ (same : x ≡ node). new (sym same)),
          ==_refl node,
          back,
        )
        refl

  Added-view :
      (ps : List Ptr)
      → IsRing r.next r.prev r.current_node ps
      → has node ps ≡ false
      → (r' : Ring) × (add_linked node qhandle ask r ≡ returned r')
        × Represents r' (ps ++ node ∷ []) (rcu_add_node qhandle ask (view ps r.store))
  Added-view [] ring new = (
    record {
      next = write r.next node node;
      prev = write r.prev node node;
      current_node = node;
      store = added;
    },
    add_linked-null ring.forward,
    record {
      ring = record {
        forward = (refl, some_node, refl, ground arith);
        backward = (ground arith, tt);
      };
      same = view-added [] new;
    },
  )
  Added-view (x ∷ xs) ring new =
      let l : Ptr = last (x ∷ xs) in
      (
        record {
          next = write (write r.next node x) l node;
          prev = write (write r.prev node l) x node;
          current_node = x;
          store = added;
        },
        add_linked-some x l ring.forward.0 ring.forward.1 ring.backward.0 (ground arith),
        record {
          ring =
              IsRing-insert r.next r.prev x xs node
                (IsRing-first r.next r.prev r.current_node x xs ring) some_node new;
          same = view-added (x ∷ xs) new;
        },
      )

-- A new node that is not null and not of the ring is linked in before the current node, in both
-- directions; the list of nodes, and all else, is then as after the registration on the list.
pub add_linked-Represents :
    (node qhandle : ℕ) (ask : Answers) (r : Ring) (ps : List Ptr) (w : World)
    → Represents r ps w
    → node ≢ null
    → has node ps ≡ false
    → (r' : Ring) × (add_linked node qhandle ask r ≡ returned r')
      × Represents r' (ps ++ node ∷ []) (rcu_add_node qhandle ask w)
add_linked-Represents node qhandle ask r ps w h some_node new =
    rw (← h.same) (Added-view node qhandle ask r some_node ps h.ring new)
