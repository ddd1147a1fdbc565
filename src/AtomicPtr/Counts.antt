-- ===== src/AtomicPtr/Counts.antt =====
-- How many variables refer to a ref, and what they have counted: sums over the first `n` variables.
use atomic_ptr_plus.Base.{sum_to, ℕ, zero, suc, ◌≡◌, refl, arith, ◌==◌, if◌then◌else◌}
use atomic_ptr_plus.Fifo.{Ptr}
use atomic_ptr_plus.AtomicPtr.{AtomicPtr, Memory}

-- An atomic_ptr to the ref `o`, its ephemeral count, and a local_ptr to it.
abbrev pub refers : Ptr → AtomicPtr → ℕ
refers o c = if c.ref == o then 1 else 0

abbrev pub lends : Ptr → AtomicPtr → ℕ
lends o c = if c.ref == o then c.count else 0

abbrev pub holds : Ptr → Ptr → ℕ
holds o p = if p == o then 1 else 0

abbrev pub owners : ℕ → Memory → Ptr → ℕ
owners n m o = sum_to (refers o) n m.atomics

abbrev pub loans : ℕ → Memory → Ptr → ℕ
loans n m o = sum_to (lends o) n m.atomics

abbrev pub users : ℕ → Memory → Ptr → ℕ
users n m o = sum_to (holds o) n m.locals

none_lent :
    (o : Ptr) (k : ℕ) (f : ℕ → AtomicPtr) → sum_to (refers o) k f ≡ 0 → sum_to (lends o) k f ≡ 0
unfolding sum_to
none_lent o zero f h = refl
none_lent o (suc k) f h = ground (arith, none_lent o k f)

-- Without an atomic_ptr to it, nothing is counted for a ref.
pub loans-zero : (n : ℕ) (m : Memory) (o : Ptr) → owners n m o ≡ 0 → loans n m o ≡ 0
loans-zero n m o h = none_lent o n m.atomics h
