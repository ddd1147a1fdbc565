-- ===== src/Fifo.antt =====
-- fastsmr/fifo.c and `fifo_t` of fastsmr/userrcu.h: the queue of deferred work, linked through the
-- `next` fields of its items. `tail` is the oldest item and `head` the newest, as in the source.
pub mod Chain
pub mod Refines
mod Examples
use atomic_ptr_plus.Base.{ℕ, zero, suc, List, [], ◌∷◌, Option, none, some, ◌==◌, if◌then◌else◌}

abbrev pub Ptr : Type 0
Ptr = ℕ

abbrev pub null : Ptr
null = 0

-- The field `next` of each `rcu_defer_t`.
abbrev pub Links : Type 0
Links = Ptr → Ptr

abbrev pub write : Links → Ptr → Ptr → Links
write h p v q = if p == q then v else h q

pub record Fifo : Type 0 where
  pub head : Ptr
  pub tail : Ptr

unfoldable pub fifo_init : Fifo
fifo_init = record { head = null; tail = null }

unfoldable pub fifo_enqueue : Links → Fifo → Ptr → Links × Fifo
fifo_enqueue h q item =
    let cleared = write h item null in
    if q.head == null
    then (cleared, record { head = item; tail = item })
    else (write cleared q.head item, record q { head = item })

-- The queue left, and the item taken (null if there is none).
unfoldable pub fifo_dequeue : Links → Fifo → Fifo × Ptr
fifo_dequeue h q =
    if q.tail == null
    then (q, null)
    else if h q.tail == null
    then (record { head = null; tail = h q.tail }, q.tail)
    else (record q { tail = h q.tail }, q.tail)

-- The queue left, and the first item of the chain taken.
unfoldable pub fifo_dequeueall : Fifo → Fifo × Ptr
fifo_dequeueall q = (record { head = null; tail = null }, q.tail)

-- `dst` and `src` after the work of `src` went behind that of `dst`.
unfoldable pub fifo_requeue : Links → Fifo → Fifo → Links × Fifo × Fifo
fifo_requeue h dst src =
    let empty : Fifo = record { head = null; tail = null } in
    if dst.head == null
    then (h, record { head = src.head; tail = src.tail }, empty)
    else if src.head == null
    then (h, dst, empty)
    else (write h dst.head src.tail, record dst { head = src.head }, empty)

-- `while ((work = workqueue) != NULL) workqueue = work->next;`, the loop that every consumer of
-- `fifo_dequeueall` runs: the items in the order in which it meets them. `none` is out of fuel.
unfoldable pub walk : ℕ → Links → Ptr → Option (List Ptr)
walk zero h work = none
walk (suc fuel) h work =
    let rest = walk fuel h (h work) in
    if work == null then some [] else elim rest [ none ↦ none | some xs ↦ some (work ∷ xs) ]
