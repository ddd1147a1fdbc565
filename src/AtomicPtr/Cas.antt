-- ===== src/AtomicPtr/Cas.antt =====
-- atomic-ptr/atomic_ptr.h `atomic_ptr::cas`: a loop on a compare-exchange, between whose attempts
-- other threads act.
use atomic_ptr_plus.Base.{
  ℕ, zero, suc, ◌≡◌, ◌≢◌, refl, sym, ◌∙◌, ap, arith, Bool, true, false, Option, none, some, inl,
  inr, Bool-cases, ◌&&◌, ◌==◌, ==_refl, if◌then◌else◌,
}
use atomic_ptr_plus.Fifo.{Ptr}
use atomic_ptr_plus.AtomicPtr.{Memory, AtomicPtr, put_atomic}

-- What other threads do before an attempt, by the attempts left.
abbrev pub Others : Type 0
Others = ℕ → Memory → Memory

-- The compare-exchange with `temp`, and `xchg.ref = temp`: whether it succeeded, `temp` after it,
-- and the memory.
unfoldable pub cas_attempt : ℕ → ℕ → AtomicPtr → Memory → Bool × AtomicPtr × Memory
cas_attempt a xchg temp m =
    let c = m.atomics a in
    let swapped = put_atomic xchg temp (put_atomic a (m.atomics xchg) m) in
    if c.count == temp.count
    then (if c.ref == temp.ref then (true, temp, swapped) else (false, c, m))
    else (false, c, m)

-- The loop goes on while `temp` refers to the ref of `cmp`.
unfoldable pub after_attempt :
    Ptr
    → (AtomicPtr → Memory → Option (Bool × Memory))
    → Bool × AtomicPtr × Memory
    → Option (Bool × Memory)
after_attempt cmp again (true, temp, m) = some (true, m)
after_attempt cmp again (false, temp, m) = if cmp == temp.ref then again temp m else some (false, m)

-- The loop, with the ref that `cmp` points to; none is the end of the fuel.
unfoldable pub cas_loop : ℕ → Others → ℕ → ℕ → Ptr → AtomicPtr → Memory → Option (Bool × Memory)
cas_loop zero others a xchg cmp temp m = none
cas_loop (suc fuel) others a xchg cmp temp m =
    after_attempt cmp (cas_loop fuel others a xchg cmp) (cas_attempt a xchg temp (others fuel m))

-- `atomic_ptr::cas`, with the `ecount` that the first read gave.
unfoldable pub cas : ℕ → Others → ℕ → ℕ → Ptr → ℕ → Memory → Option (Bool × Memory)
cas fuel others a xchg cmp ecount m =
    cas_loop fuel others a xchg cmp (record { count = ecount; ref = cmp }) m

-- The atomic_ptr and `xchg` have exchanged their contents.
abbrev pub exchange : ℕ → ℕ → Memory → Memory
exchange a xchg t = put_atomic xchg (t.atomics a) (put_atomic a (t.atomics xchg) t)

-- How a loop may end that expects the count `ecount`. Each attempt takes place in the memory that
-- the other threads have made of the one after the attempt before it. It exchanges the contents if
-- the atomic_ptr has there the ref of `cmp` and the count, and ends; it ends with nothing changed if
-- the atomic_ptr has another ref. The next attempt follows, with nothing changed and with the count
-- that was found, only if the ref was that of `cmp` and the count another one.
pub data Atomic (others : Others) (a xchg : ℕ) (cmp : Ptr)
    : ℕ → ℕ → Memory → Bool × Memory → Type 0 where
  exchanged :
      {fuel : ℕ} {m : Memory} (ecount : ℕ)
      → (others fuel m).atomics a ≡ record { count = ecount; ref = cmp }
      → Atomic others a xchg cmp (suc fuel) ecount m (true, exchange a xchg (others fuel m))
  refused :
      {fuel : ℕ} {m : Memory} (ecount : ℕ)
      → ((others fuel m).atomics a).ref ≢ cmp
      → Atomic others a xchg cmp (suc fuel) ecount m (false, others fuel m)
  retried :
      {fuel : ℕ} {m : Memory} {r : Bool × Memory} (ecount : ℕ)
      → ((others fuel m).atomics a).ref ≡ cmp
      → ((others fuel m).atomics a).count ≢ ecount
      → Atomic others a xchg cmp fuel ((others fuel m).atomics a).count (others fuel m) r
      → Atomic others a xchg cmp (suc fuel) ecount m r

-- An attempt with what the atomic_ptr holds, and with another count or ref.
attempt_self :
    (a xchg : ℕ) (m : Memory)
    → cas_attempt a xchg (m.atomics a) m
      ≡ (true, m.atomics a, put_atomic xchg (m.atomics a) (put_atomic a (m.atomics xchg) m))
unfolding cas_attempt
attempt_self a xchg m = rw (==_refl (m.atomics a).count, ==_refl (m.atomics a).ref) refl

attempt_other :
    (a xchg : ℕ) (temp : AtomicPtr) (m : Memory)
    → ((m.atomics a).count == temp.count && (m.atomics a).ref == temp.ref) ≡ false
    → cas_attempt a xchg temp m ≡ (false, m.atomics a, m)
unfolding cas_attempt
attempt_other a xchg temp m differs = elim (Bool-cases ((m.atomics a).count == temp.count)) [
  | inl same ↦
      let other : ((m.atomics a).ref == temp.ref) ≡ false = rw same at differs in
      rw (same, other) refl
  | inr other ↦ rw other refl
]

module _ (others : Others) (a xchg : ℕ) (cmp : Ptr) where
  loop-exchanged :
      (fuel ecount : ℕ) (m : Memory)
      → (others fuel m).atomics a ≡ record { count = ecount; ref = cmp }
      → cas_loop (suc fuel) others a xchg cmp (record { count = ecount; ref = cmp }) m
        ≡ some (true, exchange a xchg (others fuel m))
  unfolding cas_loop after_attempt
  loop-exchanged fuel ecount m same =
      rw (sym same, attempt_self a xchg (others fuel m), after_attempt) refl

  loop-refused :
      (fuel ecount : ℕ) (m : Memory)
      → ((others fuel m).atomics a).ref ≢ cmp
      → cas_loop (suc fuel) others a xchg cmp (record { count = ecount; ref = cmp }) m
        ≡ some (false, others fuel m)
  unfolding cas_loop after_attempt
  loop-refused fuel ecount m other =
      let t = others fuel m in
      let apart : (cmp == (t.atomics a).ref) ≡ false = ground arith in
      rw
        (
          attempt_other a xchg (record { count = ecount; ref = cmp }) t (ground arith),
          after_attempt,
          apart,
        )
        refl

  loop-again :
      (fuel ecount : ℕ) (m : Memory)
      → ((others fuel m).atomics a).ref ≡ cmp
      → ((others fuel m).atomics a).count ≢ ecount
      → cas_loop (suc fuel) others a xchg cmp (record { count = ecount; ref = cmp }) m
        ≡ cas_loop fuel others a xchg cmp ((others fuel m).atomics a) (others fuel m)
  unfolding cas_loop after_attempt
  loop-again fuel ecount m same stale =
      let t = others fuel m in
      let back : (cmp == (t.atomics a).ref) ≡ true = ground arith in
      rw
        (
          attempt_other a xchg (record { count = ecount; ref = cmp }) t (ground arith),
          after_attempt,
          back,
        )
        refl

  cas_loop-Atomic :
      (fuel ecount : ℕ) (m : Memory) (r : Bool × Memory)
      → cas_loop fuel others a xchg cmp (record { count = ecount; ref = cmp }) m ≡ some r
      → Atomic others a xchg cmp fuel ecount m r
  cas_loop-Atomic zero ecount m r run = unfold cas_loop in cc
  cas_loop-Atomic (suc fuel) ecount m r run =
      let c = (others fuel m).atomics a in
      elim (Bool-cases (c.ref == cmp)) [
        | inl here ↦ elim (Bool-cases (c.count == ecount)) [
          | inl fresh ↦
              let same : c ≡ record { count = ecount; ref = cmp } = ground arith in
              let e : (true, exchange a xchg (others fuel m)) ≡ r =
                some-inj (sym (loop-exchanged fuel ecount m same) ∙ run) in
              rw (← e) (exchanged ecount same)
          | inr stale ↦
              let same_ref : c.ref ≡ cmp = ground arith in
              let stale' : c.count ≢ ecount = ground arith in
              let next : cas_loop fuel others a xchg cmp (record { count = c.count; ref = cmp })
                    (others fuel m)
                  ≡ some r =
                ap
                  (λ p.
                    cas_loop fuel others a xchg cmp (record { count = c.count; ref = p })
                      (others fuel m))
                  (sym same_ref)
                ∙ sym (loop-again fuel ecount m same_ref stale')
                ∙ run in
              retried ecount same_ref stale' (cas_loop-Atomic fuel c.count (others fuel m) r next)
        ]
        | inr other ↦
            let apart : c.ref ≢ cmp = ground arith in
            let e : (false, others fuel m) ≡ r =
              some-inj (sym (loop-refused fuel ecount m apart) ∙ run) in
            rw (← e) (refused ecount apart)
      ]
    where
      some-inj : {s t : Bool × Memory} → ◌≡◌ {A = Option (Bool × Memory)} (some s) (some t) → s ≡ t
      some-inj e = cc

  -- `cas` with any interference of other threads before each attempt: when it returns, it was one
  -- exchange in the memory of its last attempt, which had the ref of `cmp` and the count that was
  -- expected, or it changed nothing and the last attempt found another ref, as `Atomic` says.
  pub cas-Atomic :
      (fuel ecount : ℕ) (m : Memory) (r : Bool × Memory)
      → cas fuel others a xchg cmp ecount m ≡ some r
      → Atomic others a xchg cmp fuel ecount m r
  unfolding cas
  cas-Atomic fuel ecount m r run = cas_loop-Atomic fuel ecount m r run

-- Two attempts are enough when the other threads leave the memory alone, whatever count the first
-- read gave: `cas` returns true if the atomic_ptr refers to the ref of `cmp`, and else false.
pub cas-quiet :
    (others : Others) (a xchg : ℕ) (cmp : Ptr) (ecount : ℕ) (m : Memory)
    → ((k : ℕ) (t : Memory) → others k t ≡ t)
    → cas 2 others a xchg cmp ecount m
      ≡ some (
          if (m.atomics a).ref == cmp
          then (true, put_atomic xchg (m.atomics a) (put_atomic a (m.atomics xchg) m))
          else (false, m))
unfolding cas cas_loop after_attempt
cas-quiet others a xchg cmp ecount m quiet =
    let c = m.atomics a in
    let temp : AtomicPtr = record { count = ecount; ref = cmp } in
    elim (Bool-cases (c.ref == cmp)) [
      | inl here ↦ elim (Bool-cases (c.count == ecount)) [
        | inl fresh ↦
            let same : temp ≡ c = ground arith in
            rw (here, quiet 1 m, same, attempt_self a xchg m, after_attempt) refl
        | inr stale ↦
            let back : (cmp == c.ref) ≡ true = ground arith in
            let fails = attempt_other a xchg temp m (rw stale refl) in
            rw (here, quiet 1 m, fails, after_attempt, back, quiet 0 m, attempt_self a xchg m) refl
      ]
      | inr other ↦
          let apart : (cmp == c.ref) ≡ false = ground arith in
          let fails = attempt_other a xchg temp m (ground arith) in
          rw (other, quiet 1 m, fails, after_attempt, apart) refl
    ]
