-- ===== src/AtomicPtr/Examples.antt =====
-- A small memory, and the results about it at concrete inputs.
use atomic_ptr_plus.Base.{update, ℕ, ◌≡◌, ◌↔◌, refl, [], ◌∷◌, true, none, some, arith}
use atomic_ptr_plus.Fifo.{null}
use atomic_ptr_plus.AtomicPtr.{
  Memory, null_ptr, put_local, put_atomic, put_ref, new_ref, local_drop, atomic_drop, local_get,
  atomic_new, local_load, getrefptr, drop_ref, adjust, release,
}
use atomic_ptr_plus.AtomicPtr.Ledger.{Inv}
use atomic_ptr_plus.AtomicPtr.Locals.{Keeps}
use atomic_ptr_plus.AtomicPtr.Runs.{step, step-Keeps, load, new_atomic}
use atomic_ptr_plus.AtomicPtr.Lifetime.{start, Reach, begin, after, Reach-Inv, Referred, Reach-live}
use atomic_ptr_plus.AtomicPtr.Destroy.{Ended, atomic_drop-Ended}
use atomic_ptr_plus.AtomicPtr.Cas.{
  cas, cas_loop, after_attempt, cas_attempt, Atomic, cas-Atomic, cas-quiet,
}
use atomic_ptr_plus.AtomicPtr.Assign.{run, atomic_assign, atomic_assign-ref, load-new_atomic}
use atomic_ptr_plus.AtomicPtr.Compare.{atomic_eq_object, atomic_eq_object-object_of}

-- The atomic_ptr 0 refers to the ref at 1, with the object at 50.
abbrev made : Memory
made = put_atomic 0 (record { count = 0; ref = 1 }) (put_ref 1 (new_ref 50) start)

made-Reach : Reach 4 made
unfolding step atomic_new
made-Reach = after begin (new_atomic 0 50 1) (omega arith, refl, omega arith, refl) refl

-- A thread has loaded it into the local_ptr 0.
abbrev loaded : Memory
loaded = put_local 0 1 (put_atomic 0 (record { count = 1; ref = 1 }) made)

loaded-Reach : Reach 4 loaded
unfolding step local_load getrefptr
loaded-Reach = after made-Reach (load 0 0) (omega arith, omega arith, refl) refl

step-Keeps_example : Keeps 4 (step (load 0 0) made)
step-Keeps_example =
    step-Keeps 4 (load 0 0) made (omega arith) (Reach-Inv (omega arith) made-Reach)
      (omega arith, omega arith, refl)

Reach-live_example : (made.live 1 ≡ true) ↔ Referred 4 made 1
Reach-live_example = Reach-live 4 made 1 (omega arith) made-Reach (omega arith)

atomic_drop-Ended_example :
    (m' : Memory) × (atomic_drop 0 made ≡ some m') × Ended 4 1 (put_atomic 0 null_ptr made) made m'
atomic_drop-Ended_example =
    atomic_drop-Ended 4 made 0 (omega arith) (Reach-Inv (omega arith) made-Reach) (omega arith)
      (omega arith)

-- The last pointer is a local_ptr: the atomic_ptr was destroyed first.
abbrev held : Memory
held = record start {
  refs = update start.refs 1 (record (new_ref 50) { ecount = 1; rcount = 0 });
  live = update start.live 1 true;
  locals = update start.locals 0 1;
}

abbrev released : Memory
unfolding local_drop drop_ref adjust release
released = elim (local_drop 0 held) [ none ↦ held | some m ↦ m ]

local_drop_deletes : released.deleted ≡ 50 ∷ []
unfolding local_drop drop_ref adjust release
local_drop_deletes = refl

-- The atomic_ptr 2 is the one to put in place; another thread loads from 0 before the first attempt.
abbrev meddling : ℕ → Memory → Memory
meddling left m = put_atomic 0 (record { count = 7; ref = 1 }) m

abbrev after_cas : Memory
after_cas =
    put_atomic 2 (record { count = 7; ref = 1 })
      (put_atomic 0 null_ptr (meddling 0 (meddling 1 loaded)))

cas-Atomic_example : Atomic meddling 0 2 1 2 3 loaded (true, after_cas)
unfolding cas cas_loop after_attempt cas_attempt
cas-Atomic_example = cas-Atomic meddling 0 2 1 2 3 loaded (true, after_cas) refl

cas-quiet_example :
    cas 2 (λ left m. m) 0 2 1 9 loaded
    ≡ some (true, put_atomic 2 (record { count = 1; ref = 1 }) (put_atomic 0 null_ptr loaded))
cas-quiet_example = cas-quiet (λ left m. m) 0 2 1 9 loaded (λ k t. refl)

atomic_assign-ref_example :
    (m' : Memory) × (run (atomic_assign 1 0 2 3) loaded ≡ some m')
    × Inv 4 m'
    × (m'.atomics 1 ≡ record { count = 0; ref = 1 })
    × (m'.atomics 3 ≡ null_ptr)
    × (m'.locals ≡ update (update loaded.locals 2 1) 2 null)
atomic_assign-ref_example =
    atomic_assign-ref 4 loaded 1 0 2 3 (omega arith) (Reach-Inv (omega arith) loaded-Reach)
      (omega arith) (omega arith) (omega arith) (omega arith) (omega arith) refl refl (omega arith)

load-new_atomic_example :
    (m' : Memory) × (run (new_atomic 0 50 1 ∷ load 0 0 ∷ []) start ≡ some m')
    × (local_get 0 m' ≡ 50)
load-new_atomic_example = load-new_atomic 0 0 50 1 start (omega arith)

atomic_eq_object-object_of_example :
    (m' : Memory) × (atomic_eq_object 0 50 1 loaded ≡ some (true, m')) × Inv 4 m'
atomic_eq_object-object_of_example =
    atomic_eq_object-object_of 4 loaded 0 1 50 (omega arith) (Reach-Inv (omega arith) loaded-Reach)
      (omega arith) (omega arith) refl
