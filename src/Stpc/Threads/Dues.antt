-- ===== src/Stpc/Threads/Dues.antt =====
-- What the agents still have to subtract from the count of a node.
use atomic_ptr_plus.Base.{
  ℕ, zero, suc, ◌+◌, ◌-◌, ◌*◌, ◌%◌, ◌≤◌, ◌<◌, ◌≡◌, refl, arith, word, ◌==◌, if◌then◌else◌, sum_to,
  to_int,
}
use atomic_ptr_plus.Fifo.{Ptr}
use atomic_ptr_plus.Stpc.Threads.{
  Pc, idle, holds, checking, subtracting, releasing, deleting, filled, linking, rcount_of,
}

abbrev pub on : Ptr → Ptr → ℕ → ℕ
on a p due = if p == a then due else 0

abbrev pub due : Ptr → Pc → ℕ
due a idle = 0
due a (holds p) = on a p 2
due a (checking p r) = on a p r
due a (subtracting p r) = on a p r
due a (releasing p) = 0
due a (deleting p) = on a p 2
due a (filled p) = 0
due a (linking old p r) = on a old r

abbrev pub odd_due : Ptr → Pc → ℕ
odd_due a p = due a p % 2

abbrev pub leaves : Pc → ℕ
leaves (releasing p) = 1
leaves _ = 0

abbrev pub deletes : Pc → ℕ
deletes (deleting p) = 1
deletes _ = 0

-- A due is a reference, or odd.
abbrev pub IsDue : ℕ → Type 0
IsDue r = (1 ≤ r) × (r < word) × (r ≤ 2 + word * (r % 2))

abbrev pub HasDue : Pc → Type 0
HasDue (checking p r) = IsDue r
HasDue (subtracting p r) = IsDue r
HasDue (linking old p r) = IsDue r
HasDue p = Unit {0}

due-le : (a : Ptr) (p : Pc) → HasDue p → due a p ≤ 2 + word * odd_due a p
due-le a idle h = omega arith
due-le a (holds p) h = ground arith
due-le a (checking p r) h = ground arith
due-le a (subtracting p r) h = ground arith
due-le a (releasing p) h = omega arith
due-le a (deleting p) h = ground arith
due-le a (filled p) h = omega arith
due-le a (linking old p r) h = ground arith

abbrev pub dues : Ptr → ℕ → (ℕ → Pc) → ℕ
dues a n pcs = sum_to (due a) n pcs

abbrev pub odd_dues : Ptr → ℕ → (ℕ → Pc) → ℕ
odd_dues a n pcs = sum_to (odd_due a) n pcs

-- A sum is odd as often as the number of its odd parts.
pub dues-parity : (a : Ptr) (n : ℕ) (pcs : ℕ → Pc) → dues a n pcs % 2 ≡ odd_dues a n pcs % 2
unfolding sum_to
dues-parity a zero pcs = refl
dues-parity a (suc n) pcs = omega (arith, dues-parity a n pcs)

pub dues-le :
    (a : Ptr) (n : ℕ) (pcs : ℕ → Pc)
    → ((i : ℕ) → HasDue (pcs i))
    → dues a n pcs ≤ 2 * n + word * odd_dues a n pcs
unfolding sum_to
dues-le a zero pcs h = omega arith
dues-le a (suc n) pcs h = omega (arith, due-le a (pcs n) (h n), dues-le a n pcs h)

-- The due of the old tail, and that of its guard bit and its references, cancel.
pub rcount_of_lem :
    (sequence : ℕ)
    → sequence % 2 ≡ 0
    → sequence < 2147483648
    → rcount_of sequence ≡ (3 + (word - sequence)) % word
unfolding rcount_of to_int
rcount_of_lem sequence even few = ground arith

-- The count of a node that is at most one due away from 0, without other dues of odd size: the
-- other agents owe nothing.
pub nothing_else :
    (n rest odds extra : ℕ)
    → n < 4611686018427387904
    → rest ≤ 2 * n + word * odds
    → rest % 2 ≡ odds % 2
    → odds ≡ 0
    → (rest + 2 * extra) % word ≡ 0
    → extra ≤ 1
    → (rest ≡ 0) × (extra ≡ 0)
nothing_else n rest odds extra few most parity even zero_sum one = omega arith
