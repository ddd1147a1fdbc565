-- ===== src/Rcu/Linked/Shutdown.antt =====
-- `rcu_shutdown2` and `rcu_incoming` of fastsmr/rcuscan.c on the linked ring and on the list.
use atomic_ptr_plus.Base.{
  ℕ, zero, suc, ◌<◌, ◌≤◌, ◌≡◌, ◌≢◌, refl, sym, ◌∙◌, ap, List, [], ◌∷◌, arith, some, length, ==_yes,
  ==_no,
}
use atomic_ptr_plus.Fifo.{Ptr, null}
use atomic_ptr_plus.Rcu.State.{World}
use atomic_ptr_plus.Rcu.Scan.{
  rcu_delete_node, handle_of, shutdown_rounds, rcu_shutdown2, rcu_incoming, shutdown_rounds-some,
}
use atomic_ptr_plus.Rcu.Shutdown.{length-rcu_delete_node}
use atomic_ptr_plus.Rcu.Hazard.{returned}
use atomic_ptr_plus.Rcu.Linked.{Ring}
use atomic_ptr_plus.Rcu.Linked.Calls.{delete_linked, shutdown_linked, incoming_linked}
use atomic_ptr_plus.Rcu.Linked.Chains.{IsRing}
use atomic_ptr_plus.Rcu.Linked.View.{view, Represents}
use atomic_ptr_plus.Rcu.Linked.Scan.{length-map}
use atomic_ptr_plus.Rcu.Linked.Delete.{delete_linked-Represents}

module _ (fuel lookups : ℕ) (r : Ring) where
  shutdown_linked-null :
      r.current_node ≡ null → shutdown_linked (suc fuel) lookups r ≡ some (returned r)
  unfolding shutdown_linked
  shutdown_linked-null e = rw (==_yes r.current_node null e, shutdown_linked) refl

  shutdown_linked-some :
      (r' : Ring)
      → r.current_node ≢ null
      → delete_linked lookups (r.store.node r.current_node).qhandle r ≡ some (returned r')
      → shutdown_linked (suc fuel) lookups r ≡ shutdown_linked fuel lookups r'
  unfolding shutdown_linked
  shutdown_linked-some r' ne deleted =
      rw (==_no r.current_node null ne, deleted, shutdown_linked) refl

-- The shutdown ends with no node left, and as on the list.
abbrev pub Emptied : (fuel lookups : ℕ) → Ring → World → Type 0
Emptied fuel lookups r w =
    (r' : Ring) × (shutdown_linked fuel lookups r ≡ some (returned r'))
    × (r'.current_node ≡ null)
    × Represents r' [] w

Represents-length :
    (r : Ring) (ps : List Ptr) (w : World) → Represents r ps w → length ps ≡ length w.nodes
Represents-length r ps w h =
    sym (length-map r.store.node ps) ∙ ap (λ (v : World). length v.nodes) h.same

Emptied-rounds :
    (rounds fuel lookups : ℕ) (r : Ring) (ps : List Ptr) (w : World)
    → Represents r ps w
    → length ps ≡ rounds
    → rounds < fuel
    → rounds ≤ lookups
    → Emptied fuel lookups r (shutdown_rounds rounds w)
unfolding shutdown_rounds
Emptied-rounds rounds zero lookups r ps w h e enough looks = absurd (omega arith)
Emptied-rounds zero (suc fuel) lookups r [] w h e enough looks =
    (r, shutdown_linked-null fuel lookups r h.ring.forward, h.ring.forward, h)
Emptied-rounds zero (suc fuel) lookups r (x ∷ xs) w h e enough looks = absurd (omega arith)
Emptied-rounds (suc rounds) (suc fuel) lookups r [] w h e enough looks = absurd (omega arith)
Emptied-rounds (suc rounds) (suc fuel) lookups r (x ∷ xs) w h e enough looks =
    let q = (r.store.node r.current_node).qhandle in
    let at : handle_of w.nodes ≡ some q =
      ap (λ (v : World). handle_of v.nodes) (sym h.same) ∙ (rw h.ring.forward.0 refl) in
    let (r1, ps1, deleted, h1) = delete_linked-Represents lookups q r (x ∷ xs) w h (omega arith) in
    let left : length ps1 ≡ rounds = omega (
      arith,
      Represents-length r1 ps1 (rcu_delete_node q w) h1,
      length-rcu_delete_node q w at,
      Represents-length r (x ∷ xs) w h,
    ) in
    let (r', run, none_left, h') =
      Emptied-rounds rounds fuel lookups r1 ps1 (rcu_delete_node q w) h1 left (omega arith)
        (omega arith) in
    rw (shutdown_rounds-some rounds w q at) (
      r',
      shutdown_linked-some fuel lookups r r1 (λ n. h.ring.forward.1 (ground arith)) deleted ∙ run,
      none_left,
      h',
    )

-- The shutdown of a linked ring ends, with fuel for one round more than it has nodes and lookups for
-- each; no deletion aborts, no node is left, and all else is what the shutdown of the list gives.
pub shutdown_linked-Emptied :
    (fuel lookups : ℕ) (r : Ring) (ps : List Ptr) (w : World)
    → Represents r ps w
    → length ps < fuel
    → length ps ≤ lookups
    → Emptied fuel lookups r (rcu_shutdown2 w)
unfolding rcu_shutdown2
shutdown_linked-Emptied fuel lookups r ps w h enough looks =
    let e = Represents-length r ps w h in
    Emptied-rounds (length w.nodes) fuel lookups r ps w h e (omega arith) (omega arith)

incoming-view :
    (r : Ring) (ps : List Ptr)
    → IsRing r.next r.prev r.current_node ps
    → incoming_linked r ≡ rcu_incoming (view ps r.store)
unfolding incoming_linked rcu_incoming
incoming-view r [] ring = rw (==_yes r.current_node null ring.forward) refl
incoming-view r (x ∷ xs) ring =
    rw (ring.forward.0, ==_no x null (λ e. ring.forward.1 (ground arith))) refl

-- The linked ring and the list tell alike whether there is new work.
incoming_linked-rcu_incoming :
    (r : Ring) (ps : List Ptr) (w : World) → Represents r ps w → incoming_linked r ≡ rcu_incoming w
incoming_linked-rcu_incoming r ps w h = rw (← h.same) (incoming-view r ps h.ring)
