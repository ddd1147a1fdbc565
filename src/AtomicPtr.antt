-- ===== src/AtomicPtr.antt =====
-- atomic-ptr/atomic_ptr.h: reference counted pointers that are copied without a lock. The variables
-- of type atomic_ptr and local_ptr, temporaries included, are numbered; one that is not constructed,
-- or that was destroyed, holds null. Each function makes one atomic change to shared memory.
pub mod Counts
pub mod Ledger
pub mod Moves
pub mod Locals
pub mod Atomics
pub mod Runs
pub mod Lifetime
pub mod Destroy
pub mod Cas
pub mod Assign
pub mod Recycle
pub mod Compare
mod Examples
use atomic_ptr_plus.Base.{
  update, ℕ, word, add_word, sub_word, List, [], ◌∷◌, ◌++◌, Bool, true, false, Option, none, some,
  ◌==◌, if◌then◌else◌,
}
use atomic_ptr_plus.Fifo.{Ptr, null}

-- `atomic_ptr_ref`, with the two counts of its `refcount`. `next` is the pools' own.
pub record AtomicPtrRef : Type 0 where
  pub ecount : ℕ
  pub rcount : ℕ
  pub object : Ptr
  pub pool : Ptr

-- `differentialReference`
pub record AtomicPtr : Type 0 where
  pub count : ℕ
  pub ref : Ptr

abbrev pub null_ptr : AtomicPtr
null_ptr = record { count = 0; ref = null }

-- `live` says which atomic_ptr_ref are allocated and not in a pool. `deleted` are the objects that
-- were deleted, `pooled` the calls of a pool with the atomic_ptr_ref given.
pub record Memory : Type 0 where
  pub refs : Ptr → AtomicPtrRef
  pub live : Ptr → Bool
  pub atomics : ℕ → AtomicPtr
  pub locals : ℕ → Ptr
  pub deleted : List Ptr
  pub pooled : List (Ptr × Ptr)

abbrev pub put_local : ℕ → Ptr → Memory → Memory
put_local i p m = record m { locals = update m.locals i p }

abbrev pub put_atomic : ℕ → AtomicPtr → Memory → Memory
put_atomic a c m = record m { atomics = update m.atomics a c }

-- A ref with these counts at `p`: a new one, or one that a pool gives back.
abbrev pub put_ref : Ptr → AtomicPtrRef → Memory → Memory
put_ref p r m = record m { refs = update m.refs p r; live = update m.live p true }

-- `new atomic_ptr_ref<T>(obj)` at an address that the allocator chose
abbrev pub new_ref : Ptr → AtomicPtrRef
new_ref obj = record { ecount = 0; rcount = 1; object = obj; pool = null }

-- `atomic_ptr_ref::adjust` and `adjust_mb`: the int that is returned, and the memory; none is an
-- access to a ref that was deleted.
unfoldable pub adjust : Ptr → ℕ → ℕ → Memory → Option (ℕ × Memory)
adjust p ephemeral reference m =
    let r = m.refs p in
    let e = add_word r.ecount ephemeral in
    let c = add_word r.rcount reference in
    let changed = record m { refs = update m.refs p (record r { ecount = e; rcount = c }) } in
    if m.live p then some (if e == 0 then (if c == 0 then 0 else 1) else 1, changed) else none

-- The destructors' `delete refptr`, which deletes the object too, or `pool(refptr)`.
unfoldable pub release : Ptr → Memory → Memory
release p m =
    let r = m.refs p in
    let gone = record m { live = update m.live p false } in
    if r.pool == null
    then record gone { deleted = m.deleted ++ r.object ∷ [] }
    else record gone { pooled = m.pooled ++ (r.pool, p) ∷ [] }

-- A destructor's test: the one that brings both counts to 0 deletes the ref.
unfoldable pub drop_ref : Ptr → ℕ → ℕ → Memory → Option Memory
drop_ref p ephemeral reference m = elim (adjust p ephemeral reference m) [
  | none ↦ none
  | some (left, m') ↦ some (if left == 0 then release p m' else m')
]

-- `adjust`, the result not used
unfoldable pub adjust_ref : Ptr → ℕ → ℕ → Memory → Option Memory
adjust_ref p ephemeral reference m = elim (adjust p ephemeral reference m) [
  | none ↦ none
  | some (left, m') ↦ some m'
]

abbrev pub minus_one : ℕ
minus_one = 18446744073709551615

-- `local_ptr(T * obj)`, with the address of the new ref
unfoldable pub local_new : ℕ → Ptr → Ptr → Memory → Option Memory
local_new i obj p m = some (
    if obj == null
    then put_local i null m
    else put_local i p (put_ref p (record (new_ref obj) { ecount = 1; rcount = 0 }) m))

-- `local_ptr(const local_ptr<T> & src)`
unfoldable pub local_copy : ℕ → ℕ → Memory → Option Memory
local_copy i src m =
    let p = m.locals src in
    let copied = put_local i p m in if p == null then some copied else adjust_ref p 1 0 copied

-- `atomic_ptr::getrefptr`
unfoldable pub getrefptr : ℕ → Memory → Ptr × Memory
getrefptr a m =
    let c = m.atomics a in (c.ref, put_atomic a (record c { count = add_word c.count 1 }) m)

-- `local_ptr(atomic_ptr<T> & src)`
unfoldable pub local_load : ℕ → ℕ → Memory → Option Memory
local_load i src m = let (p, m') = getrefptr src m in some (put_local i p m')

-- `local_ptr(atomic_ptr_ref<T> * src)`, for a ref from a pool
unfoldable pub local_recycle : ℕ → Ptr → Memory → Option Memory
local_recycle i src m = some (
    if src == null
    then put_local i null m
    else put_local i src (put_ref src (record (m.refs src) { ecount = 1; rcount = 0 }) m))

-- `~local_ptr`
unfoldable pub local_drop : ℕ → Memory → Option Memory
local_drop i m =
    let p = m.locals i in
    let gone = put_local i null m in if p == null then some gone else drop_ref p minus_one 0 gone

-- `local_ptr::swap`
unfoldable pub local_swap : ℕ → ℕ → Memory → Option Memory
local_swap i j m = some (put_local j (m.locals i) (put_local i (m.locals j) m))

-- `local_ptr::get`
unfoldable pub local_get : ℕ → Memory → Ptr
local_get i m = let p = m.locals i in if p == null then null else (m.refs p).object

-- `local_ptr::setPool`; a null pointer faults.
unfoldable pub set_pool : ℕ → Ptr → Memory → Option Memory
set_pool i pool m =
    let p = m.locals i in
    if p == null
    then none
    else some (record m { refs = update m.refs p (record (m.refs p) { pool = pool }) })

-- `atomic_ptr(T * obj)`
unfoldable pub atomic_new : ℕ → Ptr → Ptr → Memory → Option Memory
atomic_new a obj p m = some (
    if obj == null
    then put_atomic a null_ptr m
    else put_atomic a (record { count = 0; ref = p }) (put_ref p (new_ref obj) m))

-- `atomic_ptr(local_ptr<T> & src)`
unfoldable pub atomic_of_local : ℕ → ℕ → Memory → Option Memory
atomic_of_local a src m =
    let p = m.locals src in
    let copied = put_atomic a (record { count = 0; ref = p }) m in
    if p == null then some copied else adjust_ref p 0 1 copied

-- `atomic_ptr(atomic_ptr<T> & src)` behind its `getrefptr`, which left the pointer in `i`.
unfoldable pub adopt : ℕ → ℕ → Memory → Option Memory
adopt a i m =
    let p = m.locals i in
    let taken = put_local i null (put_atomic a (record { count = 0; ref = p }) m) in
    if p == null then some taken else adjust_ref p minus_one 1 taken

-- `atomic_ptr(atomic_ptr_ref<T> * src)`, for a ref from a pool
unfoldable pub atomic_recycle : ℕ → Ptr → Memory → Option Memory
atomic_recycle a src m = some (
    if src == null
    then put_atomic a null_ptr m
    else put_atomic a (record { count = 0; ref = src })
        (put_ref src (record (m.refs src) { ecount = 0; rcount = 1 }) m))

-- `~atomic_ptr`
unfoldable pub atomic_drop : ℕ → Memory → Option Memory
atomic_drop a m =
    let c = m.atomics a in
    let gone = put_atomic a null_ptr m in
    if c.ref == null then some gone else drop_ref c.ref c.count minus_one gone

-- `atomic_ptr::swap`, and a compare-exchange of `cas` that succeeds
unfoldable pub atomic_swap : ℕ → ℕ → Memory → Option Memory
atomic_swap a b m = some (put_atomic b (m.atomics a) (put_atomic a (m.atomics b) m))
