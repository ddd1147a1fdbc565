-- ===== src/Rcu/Linked/Relink.antt =====
-- The writes of fastsmr/rcuscan.c to `next` and `prev` when a node is added or taken off the ring.
use atomic_ptr_plus.Base.{
  ◌≡◌, ◌≢◌, refl, sym, ◌∙◌, false, List, [], ◌∷◌, ◌++◌, arith, has, has-append, append-nil,
}
use atomic_ptr_plus.Fifo.{Ptr, null, Links, write}
use atomic_ptr_plus.Fifo.Chain.{
  Chain, Disjoint, last, has-last, last-append, Chain-write, Chain-link,
}
use atomic_ptr_plus.Rcu.Linked.Chains.{
  Back, IsRing, Back-frame, Back-write, Back-append, Back-split, Chain-split, Chain-append,
  Chain-disjoint,
}

write-same : (h : Links) (a v : Ptr) → write h a v a ≡ v
write-same h a v = ground arith

write-at : (h : Links) (a v b : Ptr) → a ≡ b → write h a v b ≡ v
write-at h a v b e = ground arith

write-other : (h : Links) (a v b : Ptr) → b ≢ a → write h a v b ≡ h b
write-other h a v b ne = ground arith

-- A new node stands before the node `x`, as the last of the ring.
pub IsRing-insert :
    (next prev : Links) (x : Ptr) (xs : List Ptr) (n : Ptr)
    → IsRing next prev x (x ∷ xs)
    → n ≢ null
    → has n (x ∷ xs) ≡ false
    → let l = last (x ∷ xs) in
      IsRing (write (write next n x) l n) (write (write prev n l) x n) x ((x ∷ xs) ++ n ∷ [])
IsRing-insert next prev x xs n ring some_node new = record {
  forward =
      Chain-link (write next n x) x x xs x n (n ∷ []) x
        (Chain-write next x (x ∷ xs) x n x ring.forward new)
        (refl, some_node, refl, write-same next n x) (λ a i. ground arith);
  backward = (
    write-same (write prev n l) x n ∙ sym (last-append (x ∷ xs) n []),
    Back-append prev' x xs l (n ∷ [])
        (Back-frame prev prev' x xs ring.backward.1 (λ a i. ground (arith, ring.forward.2))) refl
        (ground arith, tt),
  );
}
  where
    l : Ptr
    l = last (x ∷ xs)

    prev' : Links
    prev' = write (write prev n (last (x ∷ xs))) x n

-- The first node of several is taken off.
pub IsRing-tail :
    (next prev : Links) (x y : Ptr) (ys : List Ptr)
    → IsRing next prev x (x ∷ y ∷ ys)
    → let l = last (y ∷ ys) in IsRing (write next l y) (write prev y l) y (y ∷ ys)
IsRing-tail next prev x y ys ring = record {
  forward =
      rw append-nil at (
        Chain-link next y y ys x y [] y (rw ring.forward.3.0 at ring.forward.3) refl (λ a i. refl));
  backward = (
    write-same prev y (last (y ∷ ys)),
    Back-write prev y ys y (last (y ∷ ys)) ring.backward.1.1 ring.forward.3.2,
  );
}

Chain-start-ne :
    (h : Links) (p : Ptr) (xs : List Ptr) (stop d : Ptr)
    → Chain h p xs stop
    → has d xs ≡ false
    → stop ≢ d
    → p ≢ d
Chain-start-ne h p [] stop d c out ne = λ e. ground arith
Chain-start-ne h p (x ∷ xs) stop d c out ne = λ e. ground arith

-- The nodes of a ring before and from the node `d` on.
module _ (next prev : Links) (x : Ptr) (xs : List Ptr) (d : Ptr) (ys : List Ptr)
    (ring : IsRing next prev x ((x ∷ xs) ++ d ∷ ys)) where
  before : Chain next x (x ∷ xs) d
  before = (Chain-split next x (x ∷ xs) d ys x ring.forward).0

  from : Chain next d (d ∷ ys) x
  from = (Chain-split next x (x ∷ xs) d ys x ring.forward).1

  apart : Disjoint (x ∷ xs) (d ∷ ys)
  apart = Chain-disjoint next x (x ∷ xs) (d ∷ ys) x ring.forward

  back : Back prev x xs × Back prev (last (x ∷ xs)) (d ∷ ys)
  back = Back-split prev x xs (d ∷ ys) ring.backward.1

  to_end : prev x ≡ last (d ∷ ys)
  to_end = ring.backward.0 ∙ last-append (x ∷ xs) d ys

  pub prev-at : prev d ≡ last (x ∷ xs)
  prev-at = back.1.0

  pub ne-last : d ≢ last (x ∷ xs)
  ne-last = ground (arith, has-last x xs, apart d, apart (last (x ∷ xs)))

  pub ne-first : d ≢ x
  ne-first = ground (arith, apart x)

  pub next-ne : next d ≢ d
  next-ne = Chain-start-ne next (next d) ys x d from.3 from.2 (λ e. ne-first (sym e))

  pub out_of_rest : has d ((x ∷ xs) ++ ys) ≡ false
  out_of_rest = ground (arith, has-append d xs ys, apart d, from.2)

  -- The ring read from `d` on.
  pub IsRing-turn : IsRing next prev d ((d ∷ ys) ++ x ∷ xs)
  IsRing-turn = record {
    forward =
        Chain-append next d (d ∷ ys) x (x ∷ xs) d from before (λ a i. ground (arith, apart a));
    backward = (
      back.1.0 ∙ sym (last-append (d ∷ ys) x xs),
      Back-append prev d ys (last (d ∷ ys)) (x ∷ xs) back.1.1 refl (to_end, back.0),
    );
  }

-- A node other than the first is taken off.
pub IsRing-remove :
    (next prev : Links) (x : Ptr) (xs : List Ptr) (d : Ptr) (ys : List Ptr)
    → IsRing next prev x ((x ∷ xs) ++ d ∷ ys)
    → let l = last (x ∷ xs) in
      IsRing (write next l (next d)) (write prev (next d) l) x ((x ∷ xs) ++ ys)
unfolding before from apart back to_end
IsRing-remove next prev x xs d [] ring = record {
  forward =
      Chain-link next x x xs d (next d) [] x (before next prev x xs d [] ring)
        (from next prev x xs d [] ring).3 (λ a i. refl);
  backward = rw append-nil (
    write-at prev (next d) (last (x ∷ xs)) x (from next prev x xs d [] ring).3,
    Back-write prev x xs (next d) (last (x ∷ xs)) (back next prev x xs d [] ring).0
        (rw (from next prev x xs d [] ring).3 (before next prev x xs d [] ring).2),
  );
}
IsRing-remove next prev x xs d (y ∷ ys) ring = record {
  forward =
      Chain-link next x x xs d (next d) (y ∷ ys) x (before next prev x xs d (y ∷ ys) ring)
        (from next prev x xs d (y ∷ ys) ring).3
        (λ a i. ground (arith, apart next prev x xs d (y ∷ ys) ring a));
  backward = rw (last-append (x ∷ xs) y ys) (
    write-other prev (next d) (last (x ∷ xs)) x (
          ground (
            arith,
            (from next prev x xs d (y ∷ ys) ring).3.0,
            apart next prev x xs d (y ∷ ys) ring x,
          ))
        ∙ to_end next prev x xs d (y ∷ ys) ring,
    Back-append (write prev (next d) (last (x ∷ xs))) x xs (last (x ∷ xs)) (y ∷ ys)
        (Back-frame prev (write prev (next d) (last (x ∷ xs))) x xs
          (back next prev x xs d (y ∷ ys) ring).0
          (λ a i. ground (
            arith,
            (from next prev x xs d (y ∷ ys) ring).3.0,
            apart next prev x xs d (y ∷ ys) ring a,
          )))
        refl
        (
          write-at prev (next d) (last (x ∷ xs)) y (from next prev x xs d (y ∷ ys) ring).3.0,
          Back-write prev y ys (next d) (last (x ∷ xs)) (back next prev x xs d (y ∷ ys) ring).1.1.1
              (rw (from next prev x xs d (y ∷ ys) ring).3.0
                (from next prev x xs d (y ∷ ys) ring).3.2),
        ),
  );
}
