-- ===== src/AtomicPtr/Recycle.antt =====
-- atomic-ptr/atomic_ptr.h: `recycle`, which makes a pointer refer to a ref that a pool gives back, and
-- `getPool`.
use atomic_ptr_plus.Base.{
  update, ==_no, ℕ, ◌<◌, ◌≡◌, ◌≢◌, false, refl, ◌∙◌, List, [], ◌∷◌, Option, none, some, word, ◌==◌,
  if◌then◌else◌,
}
use atomic_ptr_plus.Fifo.{Ptr, null}
use atomic_ptr_plus.AtomicPtr.{Memory, null_ptr, put_atomic, put_ref, atomic_recycle, atomic_drop}
use atomic_ptr_plus.AtomicPtr.Ledger.{Inv}
use atomic_ptr_plus.AtomicPtr.Runs.{
  Event, step, recycle_local, recycle_atomic, swap_local, swap_atomic, drop_local, drop_atomic,
}
use atomic_ptr_plus.AtomicPtr.Atomics.{atomic_recycle-Keeps, atomic_swap-Keeps, atomic_drop-Keeps}
use atomic_ptr_plus.AtomicPtr.Assign.{
  run, Sets-some, atomic_drop-Sets, swap-sets, run-step, exchanged,
}

-- `local_ptr::recycle` and `atomic_ptr::recyle`, with the temporary `t`
unfoldable pub recycle_into : ℕ → Ptr → ℕ → List Event
recycle_into i src t = recycle_local t src ∷ swap_local i t ∷ drop_local t ∷ []

unfoldable pub atomic_recycle_into : ℕ → Ptr → ℕ → List Event
atomic_recycle_into a src t = recycle_atomic t src ∷ swap_atomic a t ∷ drop_atomic t ∷ []

-- `local_ptr::getPool`; a null pointer faults.
unfoldable pub get_pool : ℕ → Memory → Option Ptr
get_pool i m = let p = m.locals i in if p == null then none else some (m.refs p).pool

recycle-sets :
    (m : Memory) (t : ℕ) (p : Ptr) (m' : Memory)
    → p ≢ null
    → atomic_recycle t p m ≡ some m'
    → m'.atomics ≡ update m.atomics t (record { count = 0; ref = p })
unfolding atomic_recycle
recycle-sets m t p m' real ran =
    let made : Memory =
      put_atomic t (record { count = 0; ref = p })
        (put_ref p (record (m.refs p) { ecount = 0; rcount = 1 }) m) in
    let x : atomic_recycle t p m ≡ some made = rw (==_no p null real, atomic_recycle) refl in
    let e : made ≡ m' = cc in rw (← e) refl

-- An atomic_ptr to which a ref is given that a pool had back, and that no pointer refers to: the
-- operation succeeds, keeps the account, and the atomic_ptr refers to that ref, with no count of its
-- own; what it referred to before has lost it, and the temporary is null.
pub atomic_recycle_into-ref :
    (n : ℕ) (m : Memory) (a t : ℕ) (p : Ptr)
    → n < word
    → Inv n m
    → a < n
    → t < n
    → t ≢ a
    → (m.atomics t).ref ≡ null
    → p ≢ null
    → m.live p ≡ false
    → (m' : Memory) × (run (atomic_recycle_into a p t) m ≡ some m')
      × Inv n m'
      × (m'.atomics a ≡ record { count = 0; ref = p })
      × (m'.atomics t ≡ null_ptr)
unfolding atomic_recycle_into
atomic_recycle_into-ref n m a t p fits inv la lt apart fresh real dead =
    let (m1, ran1, inv1) = atomic_recycle-Keeps n m t p inv lt fresh real dead in
    let (m2, ran2, inv2) = atomic_swap-Keeps n m1 a t inv1 la lt in
    let (atoms2, locs2) = swap-sets m1 a t m2 ran2 in
    let (m3, ran3, inv3) = atomic_drop-Keeps n m2 t fits inv2 lt in
    let (atoms3, locs3) = Sets-some _ _ (atomic_drop t m2) m3 (atomic_drop-Sets t m2) ran3 in
    let (at_a, at_t) =
      exchanged m m1 m2 m3 a t (record { count = 0; ref = p }) apart
        (recycle-sets m t p m1 real ran1) atoms2 atoms3 in
    (
      m3,
      run-step (recycle_atomic t p) (swap_atomic a t ∷ drop_atomic t ∷ []) m m1
            (unfold step in ran1)
          ∙ run-step (swap_atomic a t) (drop_atomic t ∷ []) m1 m2 (unfold step in ran2)
          ∙ run-step (drop_atomic t) [] m2 m3 (unfold step in ran3)
          ∙ (unfold run in refl),
      inv3,
      at_a,
      at_t,
    )
