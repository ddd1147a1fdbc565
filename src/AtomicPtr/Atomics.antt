-- ===== src/AtomicPtr/Atomics.antt =====
-- Each operation of an atomic_ptr succeeds and keeps the account.
use atomic_ptr_plus.Base.{
  update, update-other, update-same, ℕ, ◌+◌, ◌<◌, ◌≡◌, ◌≢◌, refl, arith, inl, inr, Bool, true,
  false, Bool-cases, ◌==◌, word,
}
use atomic_ptr_plus.Fifo.{Ptr, null}
use atomic_ptr_plus.AtomicPtr.{
  AtomicPtrRef, AtomicPtr, null_ptr, Memory, put_local, put_atomic, put_ref, new_ref, minus_one,
  set_pool, atomic_new, atomic_of_local, adopt, atomic_recycle, atomic_drop, atomic_swap,
}
use atomic_ptr_plus.AtomicPtr.Counts.{refers, lends, owners, loans, users, loans-zero}
use atomic_ptr_plus.AtomicPtr.Ledger.{Balanced, Inv, adjust_ref-Inv, drop_ref-Inv}
use atomic_ptr_plus.AtomicPtr.Moves.{
  owners-le, local-used, atomic-owned, Off-moved, Inv-moved, Inv-put_ref, Inv-dead,
}
use atomic_ptr_plus.AtomicPtr.Locals.{Keeps, local-delta, atomic-delta}

-- What a null atomic_ptr that is overwritten by `c` adds to the sums of `o`.
fresh-delta :
    (n a : ℕ) (c : AtomicPtr) (m : Memory) (o : Ptr)
    → a < n
    → (m.atomics a).ref ≡ null
    → o ≢ null
    → (owners n (put_atomic a c m) o ≡ refers o c + owners n m o)
      × (loans n (put_atomic a c m) o ≡ lends o c + loans n m o)
fresh-delta n a c m o lt fresh real = ground (arith, atomic-delta n a c m o lt)

pub atomic_of_local-Keeps :
    (n : ℕ) (m : Memory) (a i : ℕ)
    → n < word
    → Inv n m
    → a < n
    → i < n
    → (m.atomics a).ref ≡ null
    → Keeps n (atomic_of_local a i m)
unfolding atomic_of_local
atomic_of_local-Keeps n m a i fits inv lt lt' fresh =
    let p = m.locals i in
    let c : AtomicPtr = record { count = 0; ref = p } in
    let v = fresh-delta n a c m in
    elim (Bool-cases (p == null)) [
      | inl e ↦ (
        put_atomic a c m,
        rw (e, atomic_of_local) refl,
        Inv-moved n m (update m.atomics a c) m.locals inv (λ o real.
            (ground (arith, v o lt fresh real), ground (arith, v o lt fresh real), refl)),
      )
      | inr e ↦
          let real : p ≢ null = ground arith in
          let some_left : 0 < owners n m p + users n m p = omega (arith, local-used n m i lt') in
          let off =
            Off-moved n m (update m.atomics a c) m.locals p 0 1 fits inv real some_left
              (λ o r apart. (ground (arith, v o lt fresh r), ground (arith, v o lt fresh r), refl))
              (ground (arith, v p lt fresh real, owners-le n (put_atomic a c m) p))
              (ground (arith, v p lt fresh real)) in
          let (m', run, inv') =
            adjust_ref-Inv n (put_atomic a c m) p 0 1 off (ground (arith, v p lt fresh real)) in
          (m', rw (e, atomic_of_local) run, inv')
    ]

pub adopt-Keeps :
    (n : ℕ) (m : Memory) (a i : ℕ)
    → n < word
    → Inv n m
    → a < n
    → i < n
    → (m.atomics a).ref ≡ null
    → Keeps n (adopt a i m)
unfolding adopt
adopt-Keeps n m a i fits inv lt lt' fresh =
    let p = m.locals i in
    let c : AtomicPtr = record { count = 0; ref = p } in
    let v = fresh-delta n a c m in
    let u = local-delta n i null m in
    let taken = put_local i null (put_atomic a c m) in
    elim (Bool-cases (p == null)) [
      | inl e ↦ (
        taken,
        rw (e, adopt) refl,
        Inv-moved n m (update m.atomics a c) (update m.locals i null) inv (λ o real. (
          ground (arith, v o lt fresh real),
          ground (arith, v o lt fresh real),
          ground (arith, u o lt'),
        )),
      )
      | inr e ↦
          let real : p ≢ null = ground arith in
          let some_left : 0 < owners n m p + users n m p = omega (arith, local-used n m i lt') in
          let off =
            Off-moved n m (update m.atomics a c) (update m.locals i null) p minus_one 1 fits inv
              real some_left
              (λ o r apart. (
                ground (arith, v o lt fresh r),
                ground (arith, v o lt fresh r),
                ground (arith, u o lt'),
              ))
              (ground (arith, v p lt fresh real, owners-le n (put_atomic a c m) p))
              (ground (arith, v p lt fresh real, u p lt')) in
          let (m', run, inv') =
            adjust_ref-Inv n taken p minus_one 1 off (ground (arith, v p lt fresh real)) in
          (m', rw (e, adopt) run, inv')
    ]

pub atomic_drop-Keeps :
    (n : ℕ) (m : Memory) (a : ℕ) → n < word → Inv n m → a < n → Keeps n (atomic_drop a m)
unfolding atomic_drop
atomic_drop-Keeps n m a fits inv lt =
    let c = m.atomics a in
    let p = c.ref in
    let v = atomic-delta n a null_ptr m in
    let gone = put_atomic a null_ptr m in
    elim (Bool-cases (p == null)) [
      | inl e ↦ (
        gone,
        rw (e, atomic_drop) refl,
        Inv-moved n m (update m.atomics a null_ptr) m.locals inv
            (λ o real. (ground (arith, v o lt), ground (arith, v o lt), refl)),
      )
      | inr e ↦
          let real : p ≢ null = ground arith in
          let owned = atomic-owned n m a lt in
          let some_left : 0 < owners n m p + users n m p = omega arith in
          let off =
            Off-moved n m (update m.atomics a null_ptr) m.locals p c.count minus_one fits inv real
              some_left (λ o r apart. (ground (arith, v o lt), ground (arith, v o lt), refl))
              (ground (arith, v p lt, owners-le n m p)) (ground (arith, v p lt)) in
          let (m', run, inv') = drop_ref-Inv n gone p c.count minus_one off in
          (m', rw (e, atomic_drop) run, inv')
    ]

pub atomic_swap-Keeps :
    (n : ℕ) (m : Memory) (a b : ℕ) → Inv n m → a < n → b < n → Keeps n (atomic_swap a b m)
unfolding atomic_swap
atomic_swap-Keeps n m a b inv lt lt' =
    let first = put_atomic a (m.atomics b) m in
    let v = λ (o : Ptr). atomic-delta n a (m.atomics b) m o lt in
    let w = λ (o : Ptr). atomic-delta n b (m.atomics a) first o lt' in
    (
      put_atomic b (m.atomics a) first,
      refl,
      Inv-moved n m (update (update m.atomics a (m.atomics b)) b (m.atomics a)) m.locals inv
          (λ o real. (ground (arith, v o, w o), ground (arith, v o, w o), refl)),
    )

-- The counts 0 and 1 of a ref whose first pointer is an atomic_ptr.
first_owner :
    (n : ℕ) (m : Memory) (a : ℕ) (p : Ptr) (r : AtomicPtrRef)
    → a < n
    → (m.atomics a).ref ≡ null
    → p ≢ null
    → owners n m p ≡ 0
    → users n m p ≡ 0
    → r.ecount ≡ 0
    → r.rcount ≡ 1
    → Balanced true r
        (owners n (put_atomic a (record { count = 0; ref = p }) m) p)
        (loans n (put_atomic a (record { count = 0; ref = p }) m) p)
        (users n m p)
first_owner n m a p r lt fresh real no_own no_use none_local one_atomic =
    let c : AtomicPtr = record { count = 0; ref = p } in
    let (own, lent) = fresh-delta n a c m p lt fresh real in
    let none_lent = loans-zero n m p no_own in
    (ground arith, ground arith, omega arith, ground arith)

pub atomic_new-Keeps :
    (n : ℕ) (m : Memory) (a : ℕ) (obj p : Ptr)
    → Inv n m
    → a < n
    → (m.atomics a).ref ≡ null
    → p ≢ null
    → m.live p ≡ false
    → Keeps n (atomic_new a obj p m)
unfolding atomic_new
atomic_new-Keeps n m a obj p inv lt fresh real dead =
    let c : AtomicPtr = record { count = 0; ref = p } in
    let v = fresh-delta n a c m in
    let (no_own, no_use) = Inv-dead n m p inv real dead in
    elim (Bool-cases (obj == null)) [
      | inl e ↦
          let w = fresh-delta n a null_ptr m in
          (
            put_atomic a null_ptr m,
            rw (e, atomic_new) refl,
            Inv-moved n m (update m.atomics a null_ptr) m.locals inv
                (λ o r. (ground (arith, w o lt fresh r), ground (arith, w o lt fresh r), refl)),
          )
      | inr e ↦ (
        put_atomic a c (put_ref p (new_ref obj) m),
        rw (e, atomic_new) refl,
        Inv-put_ref n m (update m.atomics a c) m.locals p (new_ref obj) inv
            (λ o r apart. (ground (arith, v o lt fresh r), ground (arith, v o lt fresh r), refl))
            (first_owner n m a p (new_ref obj) lt fresh real no_own no_use refl refl),
      )
    ]

pub atomic_recycle-Keeps :
    (n : ℕ) (m : Memory) (a : ℕ) (p : Ptr)
    → Inv n m
    → a < n
    → (m.atomics a).ref ≡ null
    → p ≢ null
    → m.live p ≡ false
    → Keeps n (atomic_recycle a p m)
unfolding atomic_recycle
atomic_recycle-Keeps n m a p inv lt fresh real dead =
    let c : AtomicPtr = record { count = 0; ref = p } in
    let v = fresh-delta n a c m in
    let r = record (m.refs p) { ecount = 0; rcount = 1 } in
    let (no_own, no_use) = Inv-dead n m p inv real dead in
    let e : (p == null) ≡ false = ground arith in
    (
      put_atomic a c (put_ref p r m),
      rw (e, atomic_recycle) refl,
      Inv-put_ref n m (update m.atomics a c) m.locals p r inv
          (λ o r apart. (ground (arith, v o lt fresh r), ground (arith, v o lt fresh r), refl))
          (first_owner n m a p r lt fresh real no_own no_use refl refl),
    )

Balanced-pool :
    (alive : Bool) (r : AtomicPtrRef) (pool : Ptr) (own lent held : ℕ)
    → Balanced alive r own lent held
    → Balanced alive (record r { pool = pool }) own lent held
Balanced-pool true r pool own lent held b = b
Balanced-pool false r pool own lent held b = b

pub set_pool-Keeps :
    (n : ℕ) (m : Memory) (i : ℕ) (pool : Ptr)
    → Inv n m
    → m.locals i ≢ null
    → Keeps n (set_pool i pool m)
unfolding set_pool
set_pool-Keeps n m i pool inv held =
    let p = m.locals i in
    let r = record (m.refs p) { pool = pool } in
    let e : (p == null) ≡ false = ground arith in
    (
      record m { refs = update m.refs p r },
      rw (e, set_pool) refl,
      λ o real. elim (Bool-cases (o == p)) [
        | inl here ↦
            let same : o ≡ p = ground arith in
            rw (same, update-same m.refs p r)
              (Balanced-pool (m.live p) (m.refs p) pool (owners n m p) (loans n m p) (users n m p)
                (rw same at (inv o real)))
        | inr other ↦
            let apart : o ≢ p = ground arith in rw (update-other m.refs p o r apart) (inv o real)
      ],
    )
