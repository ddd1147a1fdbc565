-- ===== src/Fifo/Examples.antt =====
-- The queue of fastsmr/fifo.c at small inputs.
use atomic_ptr_plus.Base.{◌≡◌, refl, some, [], ◌∷◌, arith}
use atomic_ptr_plus.Fifo.{
  null, Links, write, Fifo, fifo_init, fifo_enqueue, fifo_dequeueall, fifo_requeue, walk,
}
use atomic_ptr_plus.Fifo.Chain.{IsFifo, SameOutside}
use atomic_ptr_plus.Fifo.Refines.{fifo_dequeueall-walk, fifo_requeue-append}

-- 7 -> 8 -> 0 and 9 -> 0
abbrev links : Links
links = write (λ _. null) 7 8

abbrev two : Fifo
two = record { head = 8; tail = 7 }

abbrev one : Fifo
one = record { head = 9; tail = 9 }

two-IsFifo : IsFifo links two (7 ∷ 8 ∷ [])
two-IsFifo = record {
  chain = (refl, omega arith, refl, (refl, omega arith, refl, refl));
  newest = refl;
}

one-IsFifo : IsFifo links one (9 ∷ [])
one-IsFifo = record { chain = (refl, omega arith, refl, refl); newest = refl }

-- Two items that are queued one after the other come out in this order.
enqueue_twice :
    let (h, q) = fifo_enqueue (λ _. 5) fifo_init 3 in
    let (h', q') = fifo_enqueue h q 4 in walk 3 h' (fifo_dequeueall q').1 ≡ some (3 ∷ 4 ∷ [])
unfolding fifo_enqueue fifo_init fifo_dequeueall walk
enqueue_twice = refl

fifo_dequeueall-walk_example :
    let (q', work) = fifo_dequeueall two in
    IsFifo links q' [] × (walk 3 links work ≡ some (7 ∷ 8 ∷ []))
fifo_dequeueall-walk_example =
    fifo_dequeueall-walk links two (7 ∷ 8 ∷ []) 3 two-IsFifo (omega arith)

fifo_requeue-append_example :
    let (h', dst', src') = fifo_requeue links two one in
    IsFifo h' dst' (7 ∷ 8 ∷ 9 ∷ []) × IsFifo h' src' [] × SameOutside (7 ∷ 8 ∷ []) links h'
fifo_requeue-append_example =
    fifo_requeue-append links two one (7 ∷ 8 ∷ []) (9 ∷ []) two-IsFifo one-IsFifo
      (λ a i. ground arith)
