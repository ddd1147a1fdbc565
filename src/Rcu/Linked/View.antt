-- ===== src/Rcu/Linked/View.antt =====
-- The ring as the list of its nodes, and the queues of work on either.
use atomic_ptr_plus.Base.{
  ℕ, zero, suc, ◌≡◌, ◌≢◌, refl, ◌∙◌, ap, true, false, List, [], ◌∷◌, ◌++◌, arith, has, nodup, map,
  some, get_elem?, modify, Bool-cases, inl, inr, ==_yes, ==_no,
}
use atomic_ptr_plus.Fifo.{Ptr, null, Links}
use atomic_ptr_plus.Rcu.State.{
  DeferState, pass2, RcuNode, World, is_pass1, is_nil, update, set_state,
}
use atomic_ptr_plus.Rcu.Enqueue.{
  put_ready, put_queue0, rcu_place, smr_enqueue, rcu_enqueue, requeue_one, rcu_requeue,
}
use atomic_ptr_plus.Rcu.Linked.Chains.{IsRing}
use atomic_ptr_plus.Rcu.Linked.{
  Store, Ring, set_node, enqueue_at, place_linked, smr_enqueue_linked, enqueue_linked,
  requeue_one_linked, requeue_linked,
}

-- The store as the other modules of Rcu have it, where the ring has the nodes `ps`.
abbrev pub view : List Ptr → Store → World
view ps s = record s.globals { nodes = map s.node ps }

-- In memory the ring has the nodes `ps`, and all else is as in `w`.
pub record Represents (r : Ring) (ps : List Ptr) (w : World) : Type 0 where
  pub ring : IsRing r.next r.prev r.current_node ps
  pub same : view ps r.store ≡ w

-- `p` is the first of the distinct nodes, or null if there are none.
abbrev pub Heads : Ptr → List Ptr → Type 0
Heads p [] = p ≡ null
Heads p (x ∷ xs) = (p ≡ x) × (x ≢ null) × (has x xs ≡ false)

pub IsRing-Heads :
    {next prev : Links} {p : Ptr} (ps : List Ptr) → IsRing next prev p ps → Heads p ps
IsRing-Heads [] ring = ring.forward
IsRing-Heads (x ∷ xs) ring = (ring.forward.0, ring.forward.1, ring.forward.2)

pub map-update {ℓ} :
    {A : Type ℓ} (f : Ptr → A) (p : Ptr) (v : A) (ps : List Ptr)
    → has p ps ≡ false
    → map (update f p v) ps ≡ map f ps
map-update f p v [] out = refl
map-update f p v (x ∷ xs) out =
    rw (map-update f p v xs (ground arith), ==_no p x (ground arith)) refl

pub map-insert {ℓ} :
    {A : Type ℓ} (f : Ptr → A) (p : Ptr) (v : A) (ps : List Ptr)
    → has p ps ≡ false
    → map (update f p v) (ps ++ p ∷ []) ≡ map f ps ++ v ∷ []
map-insert f p v [] out = rw (==_yes p p refl) refl
map-insert f p v (x ∷ xs) out =
    rw (map-insert f p v xs (ground arith), ==_no p x (ground arith)) refl

pub has-get_elem? : (ps : List Ptr) (i : ℕ) (p : Ptr) → get_elem? ps i ≡ some p → has p ps ≡ true
has-get_elem? [] i p at = ground arith
has-get_elem? (x ∷ xs) zero p at = ground arith
has-get_elem? (x ∷ xs) (suc i) p at = ground (arith, has-get_elem? xs i p at)

pub modify-map {ℓ} :
    {A : Type ℓ} (g : Ptr → A) (f : A → A) (i : ℕ) (p : Ptr) (ps : List Ptr)
    → get_elem? ps i ≡ some p
    → nodup ps ≡ true
    → modify i f (map g ps) ≡ map (update g p (f (g p))) ps
modify-map g f i p [] at once = refl
modify-map g f zero p (x ∷ xs) at once =
    rw (map-update g p (f (g p)) xs (ground arith), ==_yes p x (ground arith)) (ground arith)
modify-map g f (suc i) p (x ∷ xs) at once =
    rw
      (modify-map g f i p xs at (ground arith), ==_no p x (ground (arith, has-get_elem? xs i p at)))
      refl

pub get_elem?-map {ℓ} :
    {A : Type ℓ} (g : Ptr → A) (ps : List Ptr) (i : ℕ) (p : Ptr)
    → get_elem? ps i ≡ some p
    → get_elem? (map g ps) i ≡ some (g p)
get_elem?-map g [] i p at = ground arith
get_elem?-map g (x ∷ xs) zero p at = ground arith
get_elem?-map g (x ∷ xs) (suc i) p at = get_elem?-map g xs i p at

-- A change of the `i`th node.
pub view-set_node :
    (ps : List Ptr) (i : ℕ) (p : Ptr) (f : RcuNode → RcuNode) (s : Store)
    → get_elem? ps i ≡ some p
    → nodup ps ≡ true
    → view ps (set_node p (f (s.node p)) s)
      ≡ record (view ps s) { nodes = modify i f (view ps s).nodes }
view-set_node ps i p f s at once = rw (modify-map s.node f i p ps at once) refl

view-enqueue_at :
    (x : Ptr) (xs : List Ptr) (work : Ptr) (s : Store)
    → has x xs ≡ false
    → view (x ∷ xs) (enqueue_at x work s)
      ≡ record (view (x ∷ xs) s) { nodes = put_queue0 work (view (x ∷ xs) s).nodes }
view-enqueue_at x xs work s out =
    rw
      (
        map-update s.node x (record (s.node x) { queue0 = (s.node x).queue0 ++ work ∷ [] }) xs out,
        ==_yes x x refl,
      )
      refl

module _ (current_node : Ptr) where
  place_linked-enqueue_at :
      (to_smr : Ptr → Store → Store) (work : Ptr) (state : DeferState) (s : Store) (x : Ptr)
      → current_node ≡ x
      → x ≢ null
      → place_linked to_smr current_node work state s
        ≡ enqueue_at x work (record s { globals = set_state work state s.globals })
  unfolding place_linked
  place_linked-enqueue_at to_smr work state s x e ne = rw (e, ==_no x null ne) refl

  view-place :
      (ps : List Ptr) (to_smr : Ptr → Store → Store) (to_smr' : Ptr → World → World)
      → ((work : Ptr) (s : Store) → view ps (to_smr work s) ≡ to_smr' work (view ps s))
      → (work : Ptr) (state : DeferState) (s : Store) → Heads current_node ps
      → view ps (place_linked to_smr current_node work state s)
        ≡ rcu_place to_smr' work state (view ps s)
  unfolding place_linked rcu_place put_ready
  view-place [] to_smr to_smr' same work state s h =
      rw (==_yes current_node null h) (elim (Bool-cases (is_pass1 state)) [
        | inl first ↦ rw first (same work (record s { globals = set_state work state s.globals }))
        | inr later ↦ rw later refl
      ])
  view-place (x ∷ xs) to_smr to_smr' same work state s h =
      ap (view (x ∷ xs)) (place_linked-enqueue_at to_smr work state s x h.0 h.1)
      ∙ (view-enqueue_at x xs work (record s { globals = set_state work state s.globals }) h.2)

  view-smr_enqueue :
      (ps : List Ptr) (work : Ptr) (s : Store)
      → Heads current_node ps
      → view ps (smr_enqueue_linked current_node work s) ≡ smr_enqueue work (view ps s)
  unfolding smr_enqueue_linked smr_enqueue
  view-smr_enqueue ps work s h = elim (Bool-cases (is_nil s.globals.smr_nodes)) [
    | inl without ↦ rw without (view-place ps (λ _ s. s) (λ _ w. w) (λ _ s. refl) work pass2 s h)
    | inr nodes ↦ rw nodes refl
  ]

  -- `rcu_enqueue` on the linked ring is that on the list.
  pub view-enqueue :
      (ps : List Ptr) (work : Ptr) (state : DeferState) (s : Store)
      → Heads current_node ps
      → view ps (enqueue_linked current_node work state s) ≡ rcu_enqueue work state (view ps s)
  unfolding enqueue_linked rcu_enqueue
  view-enqueue ps work state s h =
      view-place ps (smr_enqueue_linked current_node) smr_enqueue
        (λ work s. view-smr_enqueue ps work s h) work state s h

  view-requeue_one :
      (ps : List Ptr) (work : Ptr) (s : Store)
      → Heads current_node ps
      → view ps (requeue_one_linked current_node work s) ≡ requeue_one work (view ps s)
  unfolding requeue_one_linked requeue_one put_ready
  view-requeue_one ps work s h = elim (Bool-cases (is_pass1 (s.globals.heap work).state)) [
    | inl first ↦ rw first (view-smr_enqueue ps work s h)
    | inr later ↦ rw later refl
  ]

  -- So is `rcu_requeue`.
  pub view-requeue :
      (ps : List Ptr) (queue : List Ptr) (s : Store)
      → Heads current_node ps
      → view ps (requeue_linked current_node queue s) ≡ rcu_requeue queue (view ps s)
  unfolding requeue_linked rcu_requeue
  view-requeue ps [] s h = refl
  view-requeue ps (work ∷ queue) s h =
      view-requeue ps queue (requeue_one_linked current_node work s) h
      ∙ ap (rcu_requeue queue) (view-requeue_one ps work s h)
