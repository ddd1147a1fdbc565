-- ===== src/AtomicPtr/Locals.antt =====
-- Each operation of a local_ptr succeeds and keeps the account.
use atomic_ptr_plus.Base.{
  sum_to-update, update, ℕ, ◌+◌, ◌<◌, ◌≡◌, ◌≢◌, refl, arith, inl, inr, false, Bool-cases, ◌==◌,
  word, add_word, Option, some,
}
use atomic_ptr_plus.Fifo.{Ptr, null}
use atomic_ptr_plus.AtomicPtr.{
  AtomicPtr, Memory, put_local, put_atomic, local_copy, local_drop, minus_one, local_load,
  local_new, local_recycle, new_ref, put_ref, local_swap, getrefptr,
}
use atomic_ptr_plus.AtomicPtr.Counts.{refers, lends, holds, owners, loans, users, loans-zero}
use atomic_ptr_plus.AtomicPtr.Ledger.{Inv, adjust_ref-Inv, drop_ref-Inv}
use atomic_ptr_plus.AtomicPtr.Moves.{
  owners-le, moved, local-used, atomic-owned, Off-moved, Inv-moved, Inv-Shifted, Inv-put_ref,
  Inv-dead,
}

-- The outcome of an operation that succeeds and keeps the account.
abbrev pub Keeps : ℕ → Option Memory → Type 0
Keeps n result = (m' : Memory) × (result ≡ some m') × Inv n m'

pub local-delta :
    (n i : ℕ) (q : Ptr) (m : Memory) (o : Ptr)
    → i < n
    → holds o (m.locals i) + users n (put_local i q m) o ≡ holds o q + users n m o
local-delta n i q m o lt = sum_to-update (holds o) n m.locals i q lt

pub local_copy-Keeps :
    (n : ℕ) (m : Memory) (i src : ℕ)
    → n < word
    → Inv n m
    → i < n
    → src < n
    → m.locals i ≡ null
    → Keeps n (local_copy i src m)
unfolding local_copy
local_copy-Keeps n m i src fits inv lt lt' fresh =
    let p = m.locals src in
    let u = local-delta n i p m in
    elim (Bool-cases (p == null)) [
      | inl e ↦ (
        put_local i p m,
        rw (e, local_copy) refl,
        Inv-moved n m m.atomics (update m.locals i p) inv
            (λ o real. (refl, refl, ground (arith, u o lt))),
      )
      | inr e ↦
          let real : p ≢ null = ground arith in
          let some_left : 0 < owners n m p + users n m p = omega (arith, local-used n m src lt') in
          let off =
            Off-moved n m m.atomics (update m.locals i p) p 1 0 fits inv real some_left
              (λ o r apart. (refl, refl, ground (arith, u o lt))) (omega (arith, owners-le n m p))
              (ground (arith, u p lt)) in
          let (m', run, inv') =
            adjust_ref-Inv n (put_local i p m) p 1 0 off (ground (arith, u p lt)) in
          (m', rw (e, local_copy) run, inv')
    ]

pub local_drop-Keeps :
    (n : ℕ) (m : Memory) (i : ℕ) → n < word → Inv n m → i < n → Keeps n (local_drop i m)
unfolding local_drop
local_drop-Keeps n m i fits inv lt =
    let p = m.locals i in
    let u = local-delta n i null m in
    elim (Bool-cases (p == null)) [
      | inl e ↦ (
        put_local i null m,
        rw (e, local_drop) refl,
        Inv-moved n m m.atomics (update m.locals i null) inv
            (λ o real. (refl, refl, ground (arith, u o lt))),
      )
      | inr e ↦
          let real : p ≢ null = ground arith in
          let some_left : 0 < owners n m p + users n m p = omega (arith, local-used n m i lt) in
          let off =
            Off-moved n m m.atomics (update m.locals i null) p minus_one 0 fits inv real some_left
              (λ o r apart. (refl, refl, ground (arith, u o lt))) (omega (arith, owners-le n m p))
              (ground (arith, u p lt)) in
          let (m', run, inv') = drop_ref-Inv n (put_local i null m) p minus_one 0 off in
          (m', rw (e, local_drop) run, inv')
    ]

pub atomic-delta :
    (n a : ℕ) (c : AtomicPtr) (m : Memory) (o : Ptr)
    → a < n
    → (refers o (m.atomics a) + owners n (put_atomic a c m) o ≡ refers o c + owners n m o)
      × (lends o (m.atomics a) + loans n (put_atomic a c m) o ≡ lends o c + loans n m o)
atomic-delta n a c m o lt =
    (sum_to-update (refers o) n m.atomics a c lt, sum_to-update (lends o) n m.atomics a c lt)

pub local_load-Keeps :
    (n : ℕ) (m : Memory) (i a : ℕ)
    → n < word
    → Inv n m
    → i < n
    → a < n
    → m.locals i ≡ null
    → Keeps n (local_load i a m)
unfolding local_load getrefptr
local_load-Keeps n m i a fits inv lt lt' fresh =
    let c = m.atomics a in
    let lent : AtomicPtr = record c { count = add_word c.count 1 } in
    let u = local-delta n i c.ref m in
    let v = atomic-delta n a lent m in
    (
      moved (update m.atomics a lent) (update m.locals i c.ref) m,
      refl,
      Inv-Shifted n m (update m.atomics a lent) (update m.locals i c.ref) fits inv (λ o real.
          elim (Bool-cases (c.ref == o)) [
            | inl here ↦
                let owned : 0 < owners n m o = ground (arith, atomic-owned n m a lt') in
                (ground (arith, v o lt'), ground (arith, v o lt', u o lt), inr owned)
            | inr other ↦ (
              ground (arith, v o lt'),
              ground (arith, v o lt', u o lt),
              inl (ground (arith, u o lt)),
            )
          ]),
    )

pub local_swap-Keeps :
    (n : ℕ) (m : Memory) (i j : ℕ) → Inv n m → i < n → j < n → Keeps n (local_swap i j m)
unfolding local_swap
local_swap-Keeps n m i j inv lt lt' =
    let first = put_local i (m.locals j) m in
    (
      put_local j (m.locals i) first,
      refl,
      Inv-moved n m m.atomics (update (update m.locals i (m.locals j)) j (m.locals i)) inv
          (λ o real. (
            refl,
            refl,
            ground (
              arith,
              local-delta n i (m.locals j) m o lt,
              local-delta n j (m.locals i) first o lt',
            ),
          )),
    )

pub local_new-Keeps :
    (n : ℕ) (m : Memory) (i : ℕ) (obj p : Ptr)
    → n < word
    → Inv n m
    → i < n
    → m.locals i ≡ null
    → p ≢ null
    → m.live p ≡ false
    → Keeps n (local_new i obj p m)
unfolding local_new
local_new-Keeps n m i obj p fits inv lt fresh real dead =
    let r = record (new_ref obj) { ecount = 1; rcount = 0 } in
    let u = local-delta n i p m in
    let (no_own, no_use) = Inv-dead n m p inv real dead in
    elim (Bool-cases (obj == null)) [
      | inl e ↦ (
        put_local i null m,
        rw (e, local_new) refl,
        Inv-moved n m m.atomics (update m.locals i null) inv
            (λ o r. (refl, refl, ground (arith, local-delta n i null m o lt))),
      )
      | inr e ↦ (
        put_local i p (put_ref p r m),
        rw (e, local_new) refl,
        Inv-put_ref n m m.atomics (update m.locals i p) p r inv
            (λ o r apart. (refl, refl, ground (arith, u o lt)))
            (
              ground arith,
              ground (arith, loans-zero n m p no_own, u p lt),
              omega arith,
              ground (arith, u p lt),
            ),
      )
    ]

pub local_recycle-Keeps :
    (n : ℕ) (m : Memory) (i : ℕ) (p : Ptr)
    → n < word
    → Inv n m
    → i < n
    → m.locals i ≡ null
    → p ≢ null
    → m.live p ≡ false
    → Keeps n (local_recycle i p m)
unfolding local_recycle
local_recycle-Keeps n m i p fits inv lt fresh real dead =
    let r = record (m.refs p) { ecount = 1; rcount = 0 } in
    let u = local-delta n i p m in
    let (no_own, no_use) = Inv-dead n m p inv real dead in
    let e : (p == null) ≡ false = ground arith in
    (
      put_local i p (put_ref p r m),
      rw (e, local_recycle) refl,
      Inv-put_ref n m m.atomics (update m.locals i p) p r inv
          (λ o r apart. (refl, refl, ground (arith, u o lt)))
          (
            ground arith,
            ground (arith, loans-zero n m p no_own, u p lt),
            omega arith,
            ground (arith, u p lt),
          ),
    )
