-- ===== src/Fifo/Refines.antt =====
-- The operations of fastsmr/fifo.c on the items that a queue holds.
use atomic_ptr_plus.Base.{
  ℕ, zero, suc, ◌<◌, ◌≡◌, ◌≢◌, refl, sym, ◌∙◌, true, false, some, List, [], ◌∷◌, ◌++◌, append-nil,
  arith, ◌==◌, has, length,
}
use atomic_ptr_plus.Fifo.{
  Ptr, null, Links, write, Fifo, fifo_enqueue, fifo_dequeue, fifo_dequeueall, fifo_requeue, walk,
}
use atomic_ptr_plus.Fifo.Chain.{
  Chain, Disjoint, SameOutside, IsFifo, has-last, last-append, last-ne-null, Chain-write,
  Chain-link,
}

module _ {h : Links} {q : Fifo} where
  IsFifo-head_null : IsFifo h q [] → (q.head == null) ≡ true
  IsFifo-head_null f = ground arith

  IsFifo-head_some : {x : Ptr} {xs : List Ptr} → IsFifo h q (x ∷ xs) → (q.head == null) ≡ false
  IsFifo-head_some {x} {xs} f = ground (arith, last-ne-null h q.tail x xs f.chain)

-- An item that is on no queue goes behind the items of the queue, its own `next` is cleared, and
-- only the links of the item and of items of the queue change.
pub fifo_enqueue-IsFifo :
    (h : Links) (q : Fifo) (item : Ptr) (xs : List Ptr)
    → IsFifo h q xs
    → item ≢ null
    → has item xs ≡ false
    → let (h', q') = fifo_enqueue h q item in
      IsFifo h' q' (xs ++ item ∷ []) × (h' item ≡ null) × SameOutside (item ∷ xs) h h'
unfolding fifo_enqueue
fifo_enqueue-IsFifo h q item [] f some_item out = rw (IsFifo-head_null f) (
  record { chain = (refl, some_item, refl, ground arith); newest = refl },
  ground arith,
  λ a. ground arith,
)
fifo_enqueue-IsFifo h q item (x ∷ xs) f some_item out =
    rw (IsFifo-head_some f, f.newest)
      (
        record {
          chain =
              Chain-link (write h item null) q.tail x xs null item (item ∷ []) null
                (Chain-write h q.tail (x ∷ xs) null item null f.chain out)
                (refl, some_item, refl, ground arith) (λ a i. ground arith);
          newest = sym (last-append (x ∷ xs) item []);
        },
        ground (arith, has-last x xs),
        λ a. ground (arith, has-last x xs),
      )

-- What `fifo_dequeue` gives: null and the same queue if it was empty, else the oldest item.
abbrev pub Taken : Links → Fifo → List Ptr → Fifo × Ptr → Type 0
Taken h q [] (q', item) = (q' ≡ q) × (item ≡ null)
Taken h q (x ∷ xs) (q', item) = IsFifo h q' xs × (item ≡ x) × (item ≢ null)

-- Taking from an empty queue gives null and changes nothing; from any other queue it gives the
-- oldest item, which is not null, and the queue then holds the others in their order.
pub fifo_dequeue-Taken :
    (h : Links) (q : Fifo) (xs : List Ptr) → IsFifo h q xs → Taken h q xs (fifo_dequeue h q)
unfolding fifo_dequeue
fifo_dequeue-Taken h q [] f = ground arith
fifo_dequeue-Taken h q (x ∷ []) f = ground arith
fifo_dequeue-Taken h q (x ∷ y ∷ xs) f =
    rw (some_tail, more)
      (
        record { chain = rw f.chain.0 f.chain.3; newest = f.newest },
        f.chain.0,
        rw f.chain.0 f.chain.1,
      )
  where
    some_tail : (q.tail == null) ≡ false
    some_tail = ground arith

    more : (h q.tail == null) ≡ false
    more = ground arith

-- The walk of a consumer over a chain meets its items in order, and ends with more fuel than items.
pub walk-Chain :
    (fuel : ℕ) (h : Links) (p : Ptr) (xs : List Ptr)
    → Chain h p xs null
    → length xs < fuel
    → walk fuel h p ≡ some xs
unfolding walk
walk-Chain zero h p xs c enough = absurd (omega arith)
walk-Chain (suc fuel) h p [] c enough = ground arith
walk-Chain (suc fuel) h p (x ∷ xs) c enough =
    ground (arith, walk-Chain fuel h (h x) xs c.3 (omega arith))

-- Emptying a queue leaves it empty and hands out all its items, the oldest first: the consumer's
-- walk from the pointer handed out meets exactly these, given more fuel than there are items.
pub fifo_dequeueall-walk :
    (h : Links) (q : Fifo) (xs : List Ptr) (fuel : ℕ)
    → IsFifo h q xs
    → length xs < fuel
    → let (q', work) = fifo_dequeueall q in IsFifo h q' [] × (walk fuel h work ≡ some xs)
unfolding fifo_dequeueall
fifo_dequeueall-walk h q xs fuel f enough =
    (record { chain = refl; newest = refl }, walk-Chain fuel h q.tail xs f.chain enough)

-- Moving the work of `src` behind that of `dst`: `dst` then holds both, in order, `src` nothing,
-- and only links of items of `dst` change. The queues share no item.
pub fifo_requeue-append :
    (h : Links) (dst src : Fifo) (xs ys : List Ptr)
    → IsFifo h dst xs
    → IsFifo h src ys
    → Disjoint xs ys
    → let (h', dst', src') = fifo_requeue h dst src in
      IsFifo h' dst' (xs ++ ys) × IsFifo h' src' [] × SameOutside xs h h'
unfolding fifo_requeue
fifo_requeue-append h dst src [] ys f g apart = rw (IsFifo-head_null f) (
  record { chain = g.chain; newest = g.newest },
  record { chain = refl; newest = refl },
  λ a. refl,
)
fifo_requeue-append h dst src (x ∷ xs) [] f g apart =
    rw (IsFifo-head_some f, IsFifo-head_null g, append-nil)
      (f, record { chain = refl; newest = refl }, λ a. ground arith)
fifo_requeue-append h dst src (x ∷ xs) (y ∷ ys) f g apart =
    rw (IsFifo-head_some f, IsFifo-head_some g, f.newest)
      (
        record {
          chain = Chain-link h dst.tail x xs null src.tail (y ∷ ys) null f.chain g.chain apart;
          newest = g.newest ∙ sym (last-append (x ∷ xs) y ys);
        },
        record { chain = refl; newest = refl },
        λ a. ground (arith, has-last x xs),
      )
