-- ===== src/Rcu/Linked/Scan.antt =====
-- `rcu_scan` of fastsmr/rcuscan.c on the linked ring and on the list of its nodes.
use atomic_ptr_plus.Base.{
  ℕ, zero, suc, ◌≤◌, ◌≡◌, refl, sym, ◌∙◌, ap, List, [], ◌∷◌, ◌++◌, arith, map, some, ◌≢◌, get_elem?,
  drop, take, length, inl, inr, ==_yes, ==_no, append-nil,
}
use mathlib.Core.List.{map-append}
use atomic_ptr_plus.Fifo.{Ptr, null, Links}
use atomic_ptr_plus.Rcu.State.{World}
use atomic_ptr_plus.Rcu.Scan.{Answers, scan_from, rotate, rcu_scan}
use atomic_ptr_plus.Rcu.Linked.{Store, Ring}
use atomic_ptr_plus.Rcu.Linked.Calls.{scan_rounds, scan_linked}
use atomic_ptr_plus.Rcu.Linked.Chains.{IsRing, IsRing-first}
use atomic_ptr_plus.Rcu.Linked.Relink.{IsRing-turn}
use atomic_ptr_plus.Rcu.Linked.View.{view, Represents}
use atomic_ptr_plus.Rcu.Linked.Rounds.{Stops, Agrees, scan_rounds-Agrees}

module _ {ℓ} {A : Type ℓ} where
  drop-at :
      (ps : List A) (j : ℕ) (q : A) → get_elem? ps j ≡ some q → drop j ps ≡ q ∷ drop (suc j) ps
  drop-at [] j q at = ground arith
  drop-at (x ∷ ps) zero q at = ground arith
  drop-at (x ∷ ps) (suc j) q at = drop-at ps j q at

  take-drop : (ps : List A) (j : ℕ) → take j ps ++ drop j ps ≡ ps
  take-drop ps zero = refl
  take-drop [] (suc j) = refl
  take-drop (x ∷ ps) (suc j) = ap (λ (t : List A). x ∷ t) (take-drop ps j)

  rotate-length : (ps : List A) → rotate (length ps) ps ≡ ps
  rotate-length ps = rw (drop-all ps) (take-all ps)
    where
      drop-all : (ps : List A) → drop (length ps) ps ≡ []
      drop-all [] = refl
      drop-all (x ∷ ps) = drop-all ps

      take-all : (ps : List A) → take (length ps) ps ≡ ps
      take-all [] = refl
      take-all (x ∷ ps) = ap (λ (t : List A). x ∷ t) (take-all ps)

map-rotate {ℓ κ} :
    {A : Type ℓ} {B : Type κ} (f : A → B) (j : ℕ) (ps : List A)
    → map f (rotate j ps) ≡ rotate j (map f ps)
map-rotate {A} {B} f j ps =
    map-append f (drop j ps) (take j ps) ∙ rw (map-drop j ps, map-take j ps) refl
  where
    map-drop : (j : ℕ) (ps : List A) → map f (drop j ps) ≡ drop j (map f ps)
    map-drop zero ps = refl
    map-drop (suc j) [] = refl
    map-drop (suc j) (x ∷ ps) = map-drop j ps

    map-take : (j : ℕ) (ps : List A) → map f (take j ps) ≡ take j (map f ps)
    map-take zero ps = refl
    map-take (suc j) [] = refl
    map-take (suc j) (x ∷ ps) = ap (λ (t : List B). f x ∷ t) (map-take j ps)

-- The ring read from the `j`th node on.
IsRing-rotate :
    (next prev : Links) (p : Ptr) (ps : List Ptr) (j : ℕ) (q : Ptr)
    → IsRing next prev p ps
    → get_elem? ps j ≡ some q
    → IsRing next prev q (rotate j ps)
IsRing-rotate next prev p [] j q ring at = ground arith
IsRing-rotate next prev p (x ∷ xs) zero q ring at =
    let e : x ≡ q = ground arith in rw (append-nil, ← e) (IsRing-first next prev p x xs ring)
IsRing-rotate next prev p (x ∷ xs) (suc j) q ring at = rw (drop-at xs j q at) (
    IsRing-turn next prev x (take j xs) q (drop (suc j) xs)
      (rw (← drop-at xs j q at, take-drop xs j) (IsRing-first next prev p x xs ring)))

IsRing-Stops :
    (next prev : Links) (x : Ptr) (xs : List Ptr) (j : ℕ) (q : Ptr)
    → IsRing next prev x (x ∷ xs)
    → Stops (x ∷ xs) x j q
    → IsRing next prev q (rotate j (x ∷ xs))
IsRing-Stops next prev x xs j q ring (inl at) = IsRing-rotate next prev x (x ∷ xs) j q ring at
IsRing-Stops next prev x xs j q ring (inr (end, e)) = rw (end, e, rotate-length (x ∷ xs)) ring

scan_linked-null :
    (fuel : ℕ) (ask : Answers) (r : Ring) → r.current_node ≡ null → scan_linked fuel ask r ≡ some r
unfolding scan_linked
scan_linked-null fuel ask r e = rw (==_yes r.current_node null e) refl

scan_linked-some :
    (fuel : ℕ) (ask : Answers) (r : Ring) (x : Ptr) (s' : Store) (q : Ptr)
    → r.current_node ≡ x
    → x ≢ null
    → scan_rounds fuel ask r.next x x r.store ≡ some (s', q)
    → scan_linked fuel ask r ≡ some (record r { current_node = q; store = s' })
unfolding scan_linked
scan_linked-some fuel ask r x s' q e ne run = rw (e, ==_no x null ne, run) refl

pub length-map {ℓ κ} :
    {A : Type ℓ} {B : Type κ} (f : A → B) (ps : List A) → length (map f ps) ≡ length ps
length-map f [] = refl
length-map f (x ∷ ps) = ap suc (length-map f ps)

rcu_scan-scan_from :
    (ask : Answers) (w w' : World) (j : ℕ)
    → scan_from (length w.nodes) 0 ask w ≡ (w', j)
    → rcu_scan ask w ≡ record w' { nodes = rotate j w'.nodes }
unfolding rcu_scan
rcu_scan-scan_from ask w w' j e = rw e refl

-- What a scan of a linked ring gives: it ends, and as on the list.
abbrev pub Scanned : ℕ → Answers → Ring → World → Type 0
Scanned fuel ask r w =
    (r' : Ring) × (ps' : List Ptr) × (scan_linked fuel ask r ≡ some r')
    × Represents r' ps' (rcu_scan ask w)

Scanned-Agrees :
    (fuel : ℕ) (ask : Answers) (r : Ring) (x : Ptr) (xs : List Ptr)
    → IsRing r.next r.prev r.current_node (x ∷ xs)
    → Agrees fuel (length xs) 0 ask r.next (x ∷ xs) x x r.store
    → Scanned fuel ask r (view (x ∷ xs) r.store)
Scanned-Agrees fuel ask r x xs ring run = (
  record r { current_node = run.q; store = run.s' },
  rotate run.j (x ∷ xs),
  scan_linked-some fuel ask r x run.s' run.q ring.forward.0 ring.forward.1 run.linked,
  record {
    ring =
        IsRing-Stops r.next r.prev x xs run.j run.q
          (IsRing-first r.next r.prev r.current_node x xs ring) run.stops;
    same = rw (map-rotate run.s'.node run.j (x ∷ xs)) (
        sym (
          rcu_scan-scan_from ask (view (x ∷ xs) r.store) (view (x ∷ xs) run.s') run.j
            (rw (length-map r.store.node xs) run.listed)));
  },
)

Scanned-view :
    (fuel : ℕ) (ask : Answers) (r : Ring) (ps : List Ptr)
    → IsRing r.next r.prev r.current_node ps
    → length ps ≤ fuel
    → Scanned fuel ask r (view ps r.store)
unfolding scan_from
Scanned-view fuel ask r [] ring enough = (
  r,
  [],
  scan_linked-null fuel ask r ring.forward,
  record {
    ring = ring;
    same = sym (rcu_scan-scan_from ask (view [] r.store) (view [] r.store) 0 refl);
  },
)
Scanned-view fuel ask r (x ∷ xs) ring enough = Scanned-Agrees fuel ask r x xs ring (
    scan_rounds-Agrees r.next x xs (IsRing-first r.next r.prev r.current_node x xs ring).forward
      fuel (length xs) 0 ask x r.store refl (omega arith) (omega arith))

-- A scan of a linked ring, with fuel for each of its nodes, ends; it leaves a ring that is linked in
-- both directions, and the nodes of which, and all else, are what the scan of the list gives.
pub scan_linked-Represents :
    (fuel : ℕ) (ask : Answers) (r : Ring) (ps : List Ptr) (w : World)
    → Represents r ps w
    → length ps ≤ fuel
    → Scanned fuel ask r w
scan_linked-Represents fuel ask r ps w h enough =
    rw (← h.same) (Scanned-view fuel ask r ps h.ring enough)
