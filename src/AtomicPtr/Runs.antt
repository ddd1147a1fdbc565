-- ===== src/AtomicPtr/Runs.antt =====
-- The operations as events: threads interleave theirs in any order.
use atomic_ptr_plus.Base.{ℕ, ◌<◌, ◌≡◌, ◌≢◌, false, Option, word}
use atomic_ptr_plus.Fifo.{Ptr, null}
use atomic_ptr_plus.AtomicPtr.{
  Memory, local_new, local_copy, local_load, local_recycle, local_drop, local_swap, set_pool,
  atomic_new, atomic_of_local, adopt, atomic_recycle, atomic_drop, atomic_swap,
}
use atomic_ptr_plus.AtomicPtr.Ledger.{Inv}
use atomic_ptr_plus.AtomicPtr.Locals.{
  Keeps, local_new-Keeps, local_copy-Keeps, local_load-Keeps, local_recycle-Keeps, local_drop-Keeps,
  local_swap-Keeps,
}
use atomic_ptr_plus.AtomicPtr.Atomics.{
  set_pool-Keeps, atomic_new-Keeps, atomic_of_local-Keeps, adopt-Keeps, atomic_recycle-Keeps,
  atomic_drop-Keeps, atomic_swap-Keeps,
}

pub data Event : Type 0 where
  new_local : (i : ℕ) (obj p : Ptr) → Event
  copy_local : (i src : ℕ) → Event
  load : (i a : ℕ) → Event
  recycle_local : (i : ℕ) (p : Ptr) → Event
  drop_local : (i : ℕ) → Event
  swap_local : (i j : ℕ) → Event
  pool_of : (i : ℕ) (pool : Ptr) → Event
  new_atomic : (a : ℕ) (obj p : Ptr) → Event
  store : (a i : ℕ) → Event
  take : (a i : ℕ) → Event
  recycle_atomic : (a : ℕ) (p : Ptr) → Event
  drop_atomic : (a : ℕ) → Event
  swap_atomic : (a b : ℕ) → Event

unfoldable pub step : Event → Memory → Option Memory
step (new_local i obj p) m = local_new i obj p m
step (copy_local i src) m = local_copy i src m
step (load i a) m = local_load i a m
step (recycle_local i p) m = local_recycle i p m
step (drop_local i) m = local_drop i m
step (swap_local i j) m = local_swap i j m
step (pool_of i pool) m = set_pool i pool m
step (new_atomic a obj p) m = atomic_new a obj p m
step (store a i) m = atomic_of_local a i m
step (take a i) m = adopt a i m
step (recycle_atomic a p) m = atomic_recycle a p m
step (drop_atomic a) m = atomic_drop a m
step (swap_atomic a b) m = atomic_swap a b m

-- What the language and the allocator give: a constructor works on a variable that is not in use, a
-- new ref or one that a pool gives back is not in use, and `setPool` is called on a pointer to a ref.
abbrev pub Enabled : ℕ → Event → Memory → Type 0
Enabled n (new_local i obj p) m = (i < n) × (m.locals i ≡ null) × (p ≢ null) × (m.live p ≡ false)
Enabled n (copy_local i src) m = (i < n) × (src < n) × (m.locals i ≡ null)
Enabled n (load i a) m = (i < n) × (a < n) × (m.locals i ≡ null)
Enabled n (recycle_local i p) m = (i < n) × (m.locals i ≡ null) × (p ≢ null) × (m.live p ≡ false)
Enabled n (drop_local i) m = i < n
Enabled n (swap_local i j) m = (i < n) × (j < n)
Enabled n (pool_of i pool) m = m.locals i ≢ null
Enabled n (new_atomic a obj p) m =
    (a < n) × ((m.atomics a).ref ≡ null) × (p ≢ null) × (m.live p ≡ false)
Enabled n (store a i) m = (a < n) × (i < n) × ((m.atomics a).ref ≡ null)
Enabled n (take a i) m = (a < n) × (i < n) × ((m.atomics a).ref ≡ null)
Enabled n (recycle_atomic a p) m =
    (a < n) × ((m.atomics a).ref ≡ null) × (p ≢ null) × (m.live p ≡ false)
Enabled n (drop_atomic a) m = a < n
Enabled n (swap_atomic a b) m = (a < n) × (b < n)

-- Each operation of each thread succeeds, that is, touches no ref that was deleted, and leaves the
-- account of every ref in balance, if there are less than 2 ^ 64 variables of each kind.
pub step-Keeps :
    (n : ℕ) (e : Event) (m : Memory) → n < word → Inv n m → Enabled n e m → Keeps n (step e m)
unfolding step
step-Keeps n (new_local i obj p) m fits inv (lt, fresh, real, dead) =
    local_new-Keeps n m i obj p fits inv lt fresh real dead
step-Keeps n (copy_local i src) m fits inv (lt, lt', fresh) =
    local_copy-Keeps n m i src fits inv lt lt' fresh
step-Keeps n (load i a) m fits inv (lt, lt', fresh) = local_load-Keeps n m i a fits inv lt lt' fresh
step-Keeps n (recycle_local i p) m fits inv (lt, fresh, real, dead) =
    local_recycle-Keeps n m i p fits inv lt fresh real dead
step-Keeps n (drop_local i) m fits inv lt = local_drop-Keeps n m i fits inv lt
step-Keeps n (swap_local i j) m fits inv (lt, lt') = local_swap-Keeps n m i j inv lt lt'
step-Keeps n (pool_of i pool) m fits inv held = set_pool-Keeps n m i pool inv held
step-Keeps n (new_atomic a obj p) m fits inv (lt, fresh, real, dead) =
    atomic_new-Keeps n m a obj p inv lt fresh real dead
step-Keeps n (store a i) m fits inv (lt, lt', fresh) =
    atomic_of_local-Keeps n m a i fits inv lt lt' fresh
step-Keeps n (take a i) m fits inv (lt, lt', fresh) = adopt-Keeps n m a i fits inv lt lt' fresh
step-Keeps n (recycle_atomic a p) m fits inv (lt, fresh, real, dead) =
    atomic_recycle-Keeps n m a p inv lt fresh real dead
step-Keeps n (drop_atomic a) m fits inv lt = atomic_drop-Keeps n m a fits inv lt
step-Keeps n (swap_atomic a b) m fits inv (lt, lt') = atomic_swap-Keeps n m a b inv lt lt'
