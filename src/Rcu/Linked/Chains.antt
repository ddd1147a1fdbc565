-- ===== src/Rcu/Linked/Chains.antt =====
-- Rings of distinct nodes, linked in both directions.
use atomic_ptr_plus.Base.{
  ◌≡◌, refl, true, false, List, [], ◌∷◌, ◌++◌, arith, has, has-append, nodup,
}
use atomic_ptr_plus.Fifo.{Ptr, null, Links, write}
use atomic_ptr_plus.Fifo.Chain.{Chain, Disjoint, last}

-- The `prev` fields of `xs` lead back, the first to `p`.
abbrev pub Back : Links → Ptr → List Ptr → Type 0
Back h p [] = Unit {0}
Back h p (x ∷ xs) = (h x ≡ p) × Back h x xs

abbrev pub first : List Ptr → Ptr
first [] = null
first (x ∷ xs) = x

-- From `p` on the ring has the nodes `ps`; `p` is null if there are none.
pub record IsRing (next prev : Links) (p : Ptr) (ps : List Ptr) : Type 0 where
  pub forward : Chain next p ps (first ps)
  pub backward : Back prev (last ps) ps

pub IsRing-first :
    (next prev : Links) (p x : Ptr) (xs : List Ptr)
    → IsRing next prev p (x ∷ xs)
    → IsRing next prev x (x ∷ xs)
IsRing-first next prev p x xs ring = record {
  forward = (refl, ring.forward.1, ring.forward.2, ring.forward.3);
  backward = ring.backward;
}

pub Back-frame :
    (h g : Links) (p : Ptr) (xs : List Ptr)
    → Back h p xs
    → ((a : Ptr) → has a xs ≡ true → g a ≡ h a)
    → Back g p xs
Back-frame h g p [] b same = b
Back-frame h g p (x ∷ xs) b same =
    (rw (same x (ground arith)) b.0, Back-frame h g x xs b.1 (λ a i. same a (ground arith)))

pub Back-write :
    (h : Links) (p : Ptr) (xs : List Ptr) (a v : Ptr)
    → Back h p xs
    → has a xs ≡ false
    → Back (write h a v) p xs
Back-write h p xs a v b out = Back-frame h (write h a v) p xs b (λ c i. ground arith)

pub Back-append :
    (h : Links) (p : Ptr) (xs : List Ptr) (q : Ptr) (ys : List Ptr)
    → Back h p xs
    → last (p ∷ xs) ≡ q
    → Back h q ys
    → Back h p (xs ++ ys)
Back-append h p [] q ys b e c = rw e c
Back-append h p (x ∷ xs) q ys b e c = (b.0, Back-append h x xs q ys b.1 e c)

-- The parts of a ring before and from a node on.
pub Back-split :
    (h : Links) (p : Ptr) (xs ys : List Ptr)
    → Back h p (xs ++ ys)
    → Back h p xs × Back h (last (p ∷ xs)) ys
Back-split h p [] ys b = (tt, b)
Back-split h p (x ∷ xs) ys b = let rest = Back-split h x xs ys b.1 in ((b.0, rest.0), rest.1)

pub Chain-split :
    (h : Links) (p : Ptr) (xs : List Ptr) (y : Ptr) (ys : List Ptr) (stop : Ptr)
    → Chain h p (xs ++ y ∷ ys) stop
    → Chain h p xs y × Chain h y (y ∷ ys) stop
Chain-split h p [] y ys stop c = (c.0, (refl, c.1, c.2, c.3))
Chain-split h p (x ∷ xs) y ys stop c =
    let rest = Chain-split h (h x) xs y ys stop c.3 in
    ((c.0, c.1, ground (arith, has-append x xs (y ∷ ys)), rest.0), rest.1)

pub Chain-append :
    (h : Links) (p : Ptr) (xs : List Ptr) (q : Ptr) (ys : List Ptr) (stop : Ptr)
    → Chain h p xs q
    → Chain h q ys stop
    → Disjoint xs ys
    → Chain h p (xs ++ ys) stop
Chain-append h p [] q ys stop c d apart = rw c d
Chain-append h p (x ∷ xs) q ys stop c d apart = (
  c.0,
  c.1,
  rw (has-append x xs ys) (ground (arith, apart x)),
  Chain-append h (h x) xs q ys stop c.3 d (λ a i. apart a (ground arith)),
)

-- The nodes of a chain are distinct.
pub Chain-nodup :
    (h : Links) (p : Ptr) (xs : List Ptr) (stop : Ptr) → Chain h p xs stop → nodup xs ≡ true
Chain-nodup h p [] stop c = refl
Chain-nodup h p (x ∷ xs) stop c = ground (arith, Chain-nodup h (h x) xs stop c.3)

pub Chain-disjoint :
    (h : Links) (p : Ptr) (xs ys : List Ptr) (stop : Ptr)
    → Chain h p (xs ++ ys) stop
    → Disjoint xs ys
Chain-disjoint h p [] ys stop c = λ a i. ground arith
Chain-disjoint h p (x ∷ xs) ys stop c =
    λ a i. ground (arith, has-append x xs ys, Chain-disjoint h (h x) xs ys stop c.3 a)
