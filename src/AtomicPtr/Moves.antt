-- ===== src/AtomicPtr/Moves.antt =====
-- What becomes of the account when only variables change, before the counts of a ref follow.
use atomic_ptr_plus.Base.{
  sum_to-le, update-other, update-same, weigh-le-sum_to, ℕ, ◌+◌, ◌%◌, ◌≤◌, ◌<◌, ◌≡◌, ◌≢◌, refl,
  arith, inl, inr, ◌⊎◌, Bool, true, false, Bool-cases, ◌==◌, ==_refl, word,
}
use atomic_ptr_plus.Fifo.{Ptr, null}
use atomic_ptr_plus.AtomicPtr.{AtomicPtrRef, AtomicPtr, Memory, put_ref}
use atomic_ptr_plus.AtomicPtr.Counts.{refers, holds, owners, loans, users}
use atomic_ptr_plus.AtomicPtr.Ledger.{Balanced, Counted, Inv, Off}

abbrev pub moved : (ℕ → AtomicPtr) → (ℕ → Ptr) → Memory → Memory
moved atoms locs m = record m { atomics = atoms; locals = locs }

Balanced-move :
    (alive : Bool) (r : AtomicPtrRef) (own lent held lent' held' : ℕ)
    → (held + lent') % word ≡ (held' + lent) % word
    → held' < word
    → (own ≡ 0 → held ≡ 0 → held' ≡ 0)
    → (0 < own + held → 0 < own + held')
    → Balanced alive r own lent held
    → Balanced alive r own lent' held'
Balanced-move true r own lent held lent' held' same fits empty full (rc, ec, bound, some_left) =
    (rc, omega arith, bound, full some_left)
Balanced-move false r own lent held lent' held' same fits empty full (no_own, no_use) =
    (no_own, empty no_own no_use)

Balanced-alive :
    (alive : Bool) (r : AtomicPtrRef) (own lent held : ℕ)
    → Balanced alive r own lent held
    → 0 < own + held
    → alive ≡ true
Balanced-alive true r own lent held b some_left = refl
Balanced-alive false r own lent held b some_left = absurd (omega arith)

pub users-le : (n : ℕ) (m : Memory) (o : Ptr) → users n m o ≤ n
users-le n m o = sum_to-le (holds o) (λ p. ground arith) n m.locals

pub owners-le : (n : ℕ) (m : Memory) (o : Ptr) → owners n m o ≤ n
owners-le n m o = sum_to-le (refers o) (λ c. ground arith) n m.atomics

-- A ref to which a variable refers is live.
pub Inv-live :
    (n : ℕ) (m : Memory) (o : Ptr)
    → Inv n m
    → o ≢ null
    → 0 < owners n m o + users n m o
    → m.live o ≡ true
Inv-live n m o inv real some_left =
    Balanced-alive (m.live o) (m.refs o) (owners n m o) (loans n m o) (users n m o) (inv o real)
      some_left

pub local-used : (n : ℕ) (m : Memory) (i : ℕ) → i < n → 0 < users n m (m.locals i)
local-used n m i lt = omega (arith, weigh-le-sum_to (holds (m.locals i)) n m.locals i lt, one)
  where
    one : holds (m.locals i) (m.locals i) ≡ 1
    one = rw (==_refl (m.locals i)) refl

pub atomic-owned : (n : ℕ) (m : Memory) (a : ℕ) → a < n → 0 < owners n m (m.atomics a).ref
atomic-owned n m a lt =
    omega (arith, weigh-le-sum_to (refers (m.atomics a).ref) n m.atomics a lt, one)
  where
    one : refers (m.atomics a).ref (m.atomics a) ≡ 1
    one = rw (==_refl (m.atomics a).ref) refl

-- The sums of a ref are as before.
abbrev pub Same : ℕ → Memory → Memory → Ptr → Type 0
Same n m m' o =
    (owners n m' o ≡ owners n m o) × (loans n m' o ≡ loans n m o) × (users n m' o ≡ users n m o)

Counted-Same :
    (n : ℕ) (m : Memory) (atoms : ℕ → AtomicPtr) (locs : ℕ → Ptr) (o : Ptr)
    → Same n m (moved atoms locs m) o
    → Counted n m o
    → Counted n (moved atoms locs m) o
Counted-Same n m atoms locs o (own, lent, held) c = rw (own, lent, held) c

-- The variables have changed, and the counts of `p` have to follow.
pub Off-moved :
    (n : ℕ) (m : Memory) (atoms : ℕ → AtomicPtr) (locs : ℕ → Ptr) (p : Ptr) (de dr : ℕ)
    → n < word
    → Inv n m
    → p ≢ null
    → 0 < owners n m p + users n m p
    → ((o : Ptr) → o ≢ null → o ≢ p → Same n m (moved atoms locs m) o)
    → (owners n m p + dr) % word ≡ owners n (moved atoms locs m) p
    → (users n m p + de + loans n (moved atoms locs m) p) % word
      ≡ (users n (moved atoms locs m) p + loans n m p) % word
    → Off n (moved atoms locs m) p de dr
Off-moved n m atoms locs p de dr fits inv real some_left same own held =
    let alive = Inv-live n m p inv real some_left in
    let (rc, ec, bound, left) : Balanced true (m.refs p) (owners n m p) (loans n m p)
        (users n m p) =
      rw alive at (inv p real) in
    record {
      others = λ o r apart. Counted-Same n m atoms locs o (same o r apart) (inv o r);
      alive = alive;
      owned = omega arith;
      used = omega (arith, users-le n (moved atoms locs m) p);
    }

-- The variables have changed, and no counts need to follow.
pub Inv-moved :
    (n : ℕ) (m : Memory) (atoms : ℕ → AtomicPtr) (locs : ℕ → Ptr)
    → Inv n m
    → ((o : Ptr) → o ≢ null → Same n m (moved atoms locs m) o)
    → Inv n (moved atoms locs m)
Inv-moved n m atoms locs inv same o real = Counted-Same n m atoms locs o (same o real) (inv o real)

-- Loans and users of a ref have changed together.
abbrev pub Shifted : ℕ → Memory → Memory → Ptr → Type 0
Shifted n m m' o =
    (owners n m' o ≡ owners n m o)
    × ((users n m o + loans n m' o) % word ≡ (users n m' o + loans n m o) % word)
    × ((users n m' o ≡ users n m o) ⊎ (0 < owners n m o))

pub Inv-Shifted :
    (n : ℕ) (m : Memory) (atoms : ℕ → AtomicPtr) (locs : ℕ → Ptr)
    → n < word
    → Inv n m
    → ((o : Ptr) → o ≢ null → Shifted n m (moved atoms locs m) o)
    → Inv n (moved atoms locs m)
Inv-Shifted n m atoms locs fits inv shifted o real =
    let (own, shift, kept) = shifted o real in
    rw own (
      Balanced-move (m.live o) (m.refs o) (owners n m o) (loans n m o) (users n m o)
        (loans n (moved atoms locs m) o) (users n (moved atoms locs m) o) shift
        (omega (arith, users-le n (moved atoms locs m) o)) (λ a b. ground arith) (λ c. ground arith)
        (inv o real))

-- A ref at `p` is set up, and a variable refers to it.
pub Inv-put_ref :
    (n : ℕ) (m : Memory) (atoms : ℕ → AtomicPtr) (locs : ℕ → Ptr) (p : Ptr) (r : AtomicPtrRef)
    → Inv n m
    → ((o : Ptr) → o ≢ null → o ≢ p → Same n m (moved atoms locs m) o)
    → Balanced true r
        (owners n (moved atoms locs m) p)
        (loans n (moved atoms locs m) p)
        (users n (moved atoms locs m) p)
    → Inv n (moved atoms locs (put_ref p r m))
Inv-put_ref n m atoms locs p r inv same fine o real = elim (Bool-cases (o == p)) [
  | inl here ↦
      let e : o ≡ p = ground arith in rw (e, update-same m.refs p r, update-same m.live p true) fine
  | inr other ↦
      let apart : o ≢ p = ground arith in
      rw (update-other m.refs p o r apart, update-other m.live p o true apart)
        (Counted-Same n m atoms locs o (same o real apart) (inv o real))
]

-- To a ref that is not live, no variable refers.
pub Inv-dead :
    (n : ℕ) (m : Memory) (p : Ptr)
    → Inv n m
    → p ≢ null
    → m.live p ≡ false
    → (owners n m p ≡ 0) × (users n m p ≡ 0)
Inv-dead n m p inv real dead = rw dead at (inv p real)
