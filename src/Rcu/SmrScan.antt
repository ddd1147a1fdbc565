-- ===== src/Rcu/SmrScan.antt =====
-- fastsmr/smrscan.c `smr_scan`, `smr_tracecb` and `smr_startup`: which deferred work is still
-- reachable from a hazard pointer.
pub mod Ensures
pub mod Frame
pub mod Marked
pub mod Copy
pub mod Sort
pub mod Safety
use atomic_ptr_plus.Base.{
  ℕ, ◌+◌, ◌-◌, ◌*◌, ◌%◌, ◌^◌, List, [], ◌∷◌, ◌++◌, Bool, true, false, ◌==◌, ltb, if◌then◌else◌, has,
  length,
}
use atomic_ptr_plus.Fifo.{Ptr}
use atomic_ptr_plus.Rcu.State.{
  DeferState, live, pass2, RefType, fifo, trace, other, SmrNode, World, update, set_sequence,
}
use atomic_ptr_plus.Rcu.Enqueue.{rcu_enqueue}
use atomic_ptr_plus.Rcu.Hazard.{Outcome, aborted, returned}

infixl 5 ◌>>=◌
abbrev pub ◌>>=◌ {ℓ κ} : {A : Type ℓ} {B : Type κ} → Outcome A → (A → Outcome B) → Outcome B
aborted >>= f = aborted
returned a >>= f = f a

-- Code that the caller supplies, and what the allocator answers.
pub record Client : Type 0 where
  -- the items on which the function `forrefs` of an item calls back, given its address, its
  -- argument, and the states of all items, on which the answers of the callback depend
  pub refs : Ptr → Ptr → (Ptr → DeferState) → List Ptr
  -- does `realloc` to so many pointers succeed?
  pub realloc_ok : ℕ → Bool

abbrev pub is_live : DeferState → Bool
is_live live = true
is_live _ = false

-- `smr_tracecb`: marks an item that is reachable and deferred, and says whether it did.
unfoldable pub smr_tracecb : Ptr → World → World × Bool
smr_tracecb defer w =
    if is_live (w.heap defer).state then (w, false) else (set_sequence defer w.current w, true)

-- The calls of `smr_tracecb` that `forrefs` makes.
unfoldable pub trace_all : List Ptr → World → World
unfolding smr_tracecb
trace_all [] w = w
trace_all (defer ∷ defers) w = trace_all defers (smr_tracecb defer w).0

-- The hazard pointers of a node that are in use. `smr_acquire` and `smr_alloc` let `ndx` be 0 or 2.
abbrev pub in_use : SmrNode → List Ptr
in_use n = if n.ndx == 0 then [] else n.hptr0 ∷ n.hptr1 ∷ []

-- Copies the hazard pointers of one node; the array grows if it is too small.
unfoldable pub copy_node : Client → SmrNode → World → Outcome World
copy_node c n w =
    let hsize = (w.hsize * 2 + n.ndx) % 2 ^ 32 in
    if ltb ((w.hsize + 2 ^ 32 - length w.hptr) % 2 ^ 32) n.ndx
    then (if c.realloc_ok hsize
        then returned (record w { hsize = hsize; hptr = w.hptr ++ in_use n })
        else aborted)
    else returned (record w { hptr = w.hptr ++ in_use n })

unfoldable pub copy_nodes : Client → List SmrNode → World → Outcome World
unfolding copy_node
copy_nodes c [] w = returned w
copy_nodes c (n ∷ ns) w = copy_node c n w >>= copy_nodes c ns

-- `*(work->psequence) = sequence`
abbrev pub store_psequence : Ptr → ℕ → World → World
store_psequence work sequence w = record w {
  sequences = update w.sequences (w.heap work).psequence sequence;
}

-- What `work->forrefs(work->arg, &smr_tracecb)` calls back on.
abbrev pub refs_of : Client → Ptr → World → List Ptr
refs_of c work w = c.refs (w.heap work).forrefs (w.heap work).arg (λ p. (w.heap p).state)

-- An item whose `arg` is in the copied array.
unfoldable pub mark_referenced : Client → RefType → Ptr → World → Outcome World
unfolding trace_all
mark_referenced c trace work w =
    let marked = set_sequence work w.current w in
    returned (trace_all (refs_of c work marked) marked)
mark_referenced c fifo work w =
    returned (store_psequence work w.current (set_sequence work w.current w))
mark_referenced c other work w = aborted

-- An item whose `arg` is not.
unfoldable pub mark_unreferenced : RefType → Ptr → World → World
mark_unreferenced fifo work w = set_sequence work (w.sequences (w.heap work).psequence) w
mark_unreferenced trace work w = w
mark_unreferenced other work w = w

unfoldable pub mark_one : Client → Ptr → World → Outcome World
unfolding mark_referenced mark_unreferenced
mark_one c work w =
    if has (w.heap work).arg w.hptr
    then mark_referenced c (w.heap work).type work w
    else returned (mark_unreferenced (w.heap work).type work w)

-- Marks all reachable items of the queue that was taken.
unfoldable pub mark_all : Client → List Ptr → World → Outcome World
unfolding mark_one
mark_all c [] w = returned w
mark_all c (work ∷ queue) w = mark_one c work w >>= mark_all c queue

-- An item marked in this scan waits on; any other goes to its second RCU pass.
unfoldable pub sort_one : Ptr → World → World
unfolding rcu_enqueue
sort_one work w =
    if (w.heap work).sequence == w.current
    then record w { smr_queue = w.smr_queue ++ work ∷ [] }
    else rcu_enqueue work pass2 w

unfoldable pub sort_all : List Ptr → World → World
sort_all [] w = w
sort_all (work ∷ queue) w = sort_all queue (sort_one work w)

-- The statistics at the end of a scan.
unfoldable pub count_scan : World → World
count_scan w =
    if w.smr_count == 0
    then record w { stats = record w.stats { smrfull = w.stats.smrfull + 1 } }
    else record w { stats = record w.stats { smrpartial = w.stats.smrpartial + 1 } }

-- The part of `smr_scan` behind its test for work, the statistics excepted.
unfoldable pub scan_queue : Client → World → Outcome World
unfolding copy_nodes mark_all sort_all sort_one
scan_queue c w =
    copy_nodes c w.smr_nodes (record w { current = (w.current + 1) % 2 ^ 32; hptr = [] })
    >>= (λ copied. mark_all c copied.smr_queue (record copied { smr_queue = [] }) >>= λ marked.
        returned (sort_all copied.smr_queue marked))

unfoldable pub smr_scan : Client → World → Outcome World
unfolding scan_queue count_scan
smr_scan c w =
    if w.smr_count == 0
    then returned (record w { stats = record w.stats { smrempty = w.stats.smrempty + 1 } })
    else (scan_queue c w >>= λ scanned. returned (count_scan scanned))
