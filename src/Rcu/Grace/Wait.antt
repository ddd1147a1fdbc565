-- ===== src/Rcu/Grace/Wait.antt =====
-- fastsmr/rcuscan.c: deferred work waits for two quiescent points of each node.
use atomic_ptr_plus.Base.{
  ℕ, ◌+◌, ◌*◌, ◌≡◌, ◌≤◌, ◌<◌, refl, sym, ◌∙◌, ap, List, [], ◌∷◌, Bool, true, arith, length, has,
  has-append, false,
}
use mathlib.Core.Path.{subst}
use atomic_ptr_plus.Fifo.{Ptr}
use atomic_ptr_plus.Rcu.State.{DeferState, RcuNode, World, is_nil}
use atomic_ptr_plus.Rcu.Enqueue.{put_queue0, rcu_place, rcu_enqueue}
use atomic_ptr_plus.Rcu.Conserve.{Test, queued, one_if, queued-rcu_enqueue}
use atomic_ptr_plus.Rcu.Conserve.Ring.{queued-rcu_scan}
use atomic_ptr_plus.Rcu.Scan.{Answers, scan_from, rotate, rcu_scan}
use atomic_ptr_plus.Rcu.Tallies.{tally-scan_from}
use atomic_ptr_plus.Rcu.Grace.{queue0_at, Located, delay}
use atomic_ptr_plus.Rcu.Grace.Rotate.{turned, delay-turned, Located-rotate, length-rotate}
use atomic_ptr_plus.Rcu.Grace.Scan.{scan_from-StillThere}

-- An item on the ring stays there through a scan that notes fewer quiescent points than its delay,
-- and its delay is less by those points afterwards. The ring keeps its length.
pub rcu_scan-waits :
    (ask : Answers) (w : World) (x : Ptr) (p : ℕ) (fresh : Bool)
    → p < length w.nodes
    → Located x p fresh w.nodes
    → (rcu_scan ask w).stats.qpoints < w.stats.qpoints + delay (length w.nodes) 0 p fresh
    → let w' = rcu_scan ask w in
      let n = length w.nodes in
      (length w'.nodes ≡ n)
      × ((p' : ℕ) × (fresh' : Bool) × (p' < n)
          × Located x p' fresh' w'.nodes
          × (delay n 0 p' fresh' + w'.stats.qpoints ≡ delay n 0 p fresh + w.stats.qpoints))
unfolding rcu_scan
rcu_scan-waits ask w x p fresh p_lt at few =
    let n = length w.nodes in
    let (work, points, same, ge, le) = tally-scan_from n 0 ask w in
    let (w1, j) = scan_from n 0 ask w in
    let (fresh', at', less) =
      scan_from-StillThere x n p p_lt n 0 fresh ask w (omega arith) at (omega arith) in
    let (turned_lt, kept) = delay-turned n j p fresh' (omega arith) p_lt in
    let j_le : j ≤ length w1.nodes = omega arith in
    let p_lt' : p < length w1.nodes = omega arith in
    (
      length-rotate x j p fresh' w1.nodes j_le p_lt' ∙ same,
      (
        turned n j p,
        fresh',
        turned_lt,
        subst (λ k. Located x (turned k j p) fresh' (rotate j w1.nodes)) same
            (Located-rotate x j p fresh' w1.nodes j_le p_lt' at'),
        omega arith,
      ),
    )

-- A scan counts no quiescent point less.
rcu_scan-qpoints : (ask : Answers) (w : World) → w.stats.qpoints ≤ (rcu_scan ask w).stats.qpoints
unfolding rcu_scan
rcu_scan-qpoints ask w = omega (arith, tally-scan_from (length w.nodes) 0 ask w)

-- Some scans, one after the other.
unfoldable pub rcu_scans : List Answers → World → World
rcu_scans [] w = w
rcu_scans (ask ∷ asks) w = rcu_scans asks (rcu_scan ask w)

rcu_scans-qpoints :
    (asks : List Answers) (w : World) → w.stats.qpoints ≤ (rcu_scans asks w).stats.qpoints
unfolding rcu_scans
rcu_scans-qpoints [] w = omega arith
rcu_scans-qpoints (ask ∷ asks) w =
    omega (arith, rcu_scans-qpoints asks (rcu_scan ask w), rcu_scan-qpoints ask w)

-- The item `x` is on the ring of `n` nodes, with so many quiescent points noted or still before it.
OnRing : Ptr → ℕ → ℕ → World → Type 0
OnRing x n due w =
    (length w.nodes ≡ n)
    × ((p : ℕ) × (fresh : Bool) × (p < n)
        × Located x p fresh w.nodes
        × (delay n 0 p fresh + w.stats.qpoints ≡ due))

OnRing-rcu_scan :
    (x : Ptr) (n due : ℕ) (ask : Answers) (w : World)
    → OnRing x n due w
    → (rcu_scan ask w).stats.qpoints < due
    → OnRing x n due (rcu_scan ask w)
unfolding OnRing
OnRing-rcu_scan x n due ask w (size, (p, fresh, lt, at, dues)) few =
    let dues_here : delay (length w.nodes) 0 p fresh + w.stats.qpoints ≡ due =
      ap (λ k. delay k 0 p fresh + w.stats.qpoints) size ∙ dues in
    let (same, (p', fresh', lt', at', dues')) =
      rcu_scan-waits ask w x p fresh (omega arith) at (omega arith) in
    (
      same ∙ size,
      (
        p',
        fresh',
        omega arith,
        at',
        ap (λ k. delay k 0 p' fresh' + (rcu_scan ask w).stats.qpoints) (sym size)
            ∙ dues'
            ∙ dues_here,
      ),
    )

OnRing-rcu_scans :
    (x : Ptr) (n due : ℕ) (asks : List Answers) (w : World)
    → OnRing x n due w
    → (rcu_scans asks w).stats.qpoints < due
    → OnRing x n due (rcu_scans asks w)
unfolding rcu_scans
OnRing-rcu_scans x n due [] w on few = on
OnRing-rcu_scans x n due (ask ∷ asks) w on few =
    OnRing-rcu_scans x n due asks (rcu_scan ask w)
      (OnRing-rcu_scan x n due ask w on
        (omega (arith, rcu_scans-qpoints asks (rcu_scan ask w), few)))
      few

queued-rcu_scans :
    (a : Test) (asks : List Answers) (w : World) → queued a (rcu_scans asks w) ≡ queued a w
unfolding rcu_scans
queued-rcu_scans a [] w = refl
queued-rcu_scans a (ask ∷ asks) w =
    queued-rcu_scans a asks (rcu_scan ask w) ∙ queued-rcu_scan a ask w

put_queue0-waits :
    (work : Ptr) (ns : List RcuNode)
    → 0 < length ns
    → (length (put_queue0 work ns) ≡ length ns) × Located work 0 true (put_queue0 work ns)
put_queue0-waits work [] some_node = absurd (omega arith)
put_queue0-waits work (n ∷ ns) some_node =
    (refl, has-append work n.queue0 (work ∷ []) ∙ ground arith)

rcu_enqueue-parts :
    (work : Ptr) (state : DeferState) (w : World)
    → is_nil w.nodes ≡ false
    → ((rcu_enqueue work state w).nodes ≡ put_queue0 work w.nodes)
      × ((rcu_enqueue work state w).stats ≡ w.stats)
      × (((rcu_enqueue work state w).heap work).state ≡ state)
unfolding rcu_enqueue rcu_place
rcu_enqueue-parts work state w some_node = rw some_node (refl, refl, ground arith)

OnRing-rcu_enqueue :
    (work : Ptr) (state : DeferState) (w : World)
    → 0 < length w.nodes
    → OnRing work (length w.nodes) (w.stats.qpoints + 2 * length w.nodes) (rcu_enqueue work state w)
unfolding OnRing
OnRing-rcu_enqueue work state w some_node =
    let (e, same, _) = rcu_enqueue-parts work state w (ground arith) in
    let (size, at) = put_queue0-waits work w.nodes some_node in
    (
      ap length e ∙ size,
      (0, true, some_node, ap (λ ns. has work (queue0_at 0 ns)) e ∙ at, rw same (ground arith)),
    )

-- An item is enqueued while there are nodes: it gets its state. It is then queued once more, and every
-- other item as often as before, also after any scans that follow. As long as these note less than
-- two quiescent points of each node, the item is on the ring, and what is left of its delay and the
-- points noted since are two for each node.
pub rcu_enqueue-waits :
    (work : Ptr) (state : DeferState) (asks : List Answers) (w : World)
    → 0 < length w.nodes
    → let w' = rcu_scans asks (rcu_enqueue work state w) in
      let n = length w.nodes in
      w'.stats.qpoints < w.stats.qpoints + 2 * n
      → (((rcu_enqueue work state w).heap work).state ≡ state)
        × ((a : Test) → queued a w' ≡ queued a w + one_if a work)
        × (length w'.nodes ≡ n)
        × ((p : ℕ) × (fresh : Bool) × (p < n)
            × Located work p fresh w'.nodes
            × (delay n 0 p fresh + w'.stats.qpoints ≡ w.stats.qpoints + 2 * n))
unfolding OnRing
rcu_enqueue-waits work state asks w some_node few =
    let entered = rcu_enqueue work state w in
    let (_, _, stored) = rcu_enqueue-parts work state w (ground arith) in
    let (size, there) =
      OnRing-rcu_scans work (length w.nodes) (w.stats.qpoints + 2 * length w.nodes) asks entered
        (OnRing-rcu_enqueue work state w some_node) few in
    (stored, λ a. queued-rcu_scans a asks entered ∙ queued-rcu_enqueue a work state w, size, there)
