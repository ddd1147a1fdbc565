-- ===== src/Stpc/Threads/Release.antt =====
-- The agent of stpc/stpc.c that finds the count of a node equal to its own due has the last one: the
-- node is the first that is not released, and it is not the tail.
use atomic_ptr_plus.Base.{
  ℕ, ◌+◌, ◌-◌, ◌*◌, ◌%◌, ◌≤◌, ◌<◌, ◌≡◌, ◌≢◌, inl, inr, sym, ◌∙◌, ap, arith, update, sum_to-update,
  ◌==◌, Bool-cases, true, word,
}
use atomic_ptr_plus.Fifo.{Ptr}
use atomic_ptr_plus.Stpc.Threads.{Shared, Pc, idle}
use atomic_ptr_plus.Stpc.Threads.Dues.{
  due, odd_due, dues, odd_dues, HasDue, IsDue, leaves, dues-le, dues-parity, nothing_else,
}
use atomic_ptr_plus.Stpc.Threads.Shape.{Inv, InQueue, leaving, kept, before}

not_at_tail :
    (r rest total extra b s : ℕ)
    → r < word
    → rest % 2 ≡ 0
    → s % 2 ≡ 0
    → s < 2147483648
    → r + rest ≡ total
    → extra ≡ 2 * b + (3 + (word - s))
    → r ≢ (total + extra) % word
not_at_tail r rest total extra b s bound even seq few split e_extra e = absurd (omega arith)

kept-tail :
    (m : Shared) (k : ℕ)
    → (k == m.last) ≡ true
    → kept m k ≡ 2 * before m k + (3 + (word - m.sequence))
kept-tail m k end = rw end (omega arith)

last_due :
    (n r rest odds b : ℕ)
    → n < 4611686018427387904
    → r < word
    → rest ≤ 2 * n + word * odds
    → rest % 2 ≡ odds % 2
    → odds ≤ 1
    → r ≡ (r + rest + 2 * b) % word
    → b ≤ 1
    → (rest ≡ 0) × (b ≡ 0)
last_due n r rest odds b few bound most parity single e one =
    nothing_else n rest odds b few most parity (omega arith) (omega arith) one

module _ {n : ℕ} {m : Shared} {pcs : ℕ → Pc} (inv : Inv n m pcs) (i : ℕ) (lt : i < n) (p : Ptr)
    (r : ℕ) where
  open inv use {chained, balanced, sound}

  abbrev others : ℕ → Pc
  others = update pcs i idle

  others-HasDue : (j : ℕ) → HasDue (others j)
  others-HasDue j = elim (Bool-cases (i == j)) [
    | inl self ↦ rw self tt
    | inr other ↦ rw other (sound.has_due j)
  ]

  pub rest_of : due p (pcs i) ≡ r → r + dues p n others ≡ dues p n pcs
  rest_of own = omega (arith, sum_to-update (due p) n pcs i idle lt)

  odd_rest : due p (pcs i) ≡ r → r % 2 + odd_dues p n others ≡ odd_dues p n pcs
  odd_rest own = omega (arith, sum_to-update (odd_due p) n pcs i idle lt, ap (λ x. x % 2) own)

  -- A node with a due is not one that is being released.
  pub not_leaving :
      (k : ℕ)
      → due p (pcs i) ≡ r
      → 1 ≤ r
      → m.first ≤ k
      → m.node_at k ≡ p
      → m.first + leaving n pcs ≤ k
  not_leaving k own some_due from at_k = elim (Bool-cases (leaving n pcs == 0)) [
    | inl none_leaves ↦ ground arith
    | inr leaves ↦
        let (one, none_left, below) = balanced.alone (ground arith) in
        elim (Bool-cases (k == m.first)) [
          | inl here ↦
              let same : k ≡ m.first = ground arith in
              let empty : dues p n pcs ≡ 0 = rw (sym (ap m.node_at same) ∙ at_k) at none_left in
              absurd (omega (arith, rest_of own))
          | inr away ↦ ground arith
        ]
  ]

  pub last_one :
      due p (pcs i) ≡ r
      → IsDue r
      → InQueue m p
      → (m.heap p).count ≡ r
      → (p ≡ m.node_at m.first) × (m.first < m.last) × (leaving n pcs ≡ 0) × (dues p n others ≡ 0)
  last_one own (some_due, bound, size) (k, from, to, at_k) count =
      let above = not_leaving k own some_due from at_k in
      let balance = rw (at_k, count) at (balanced.balance k above to) in
      let single = rw at_k at (balanced.single k from to) in
      let parity = dues-parity p n others in
      let most = dues-le p n others others-HasDue in
      let split = rest_of own in
      let odds = odd_rest own in
      elim (Bool-cases (k == m.last)) [
        | inl end ↦ absurd (
            not_at_tail r (dues p n others) (dues p n pcs) (kept m k) (before m k) m.sequence bound
              (ground arith) chained.even chained.few split (kept-tail m k end) balance)
        | inr inner ↦
            let (rest, first) =
              last_due n r (dues p n others) (odd_dues p n others) (before m k) inv.agents bound
                most parity (omega arith) (ground arith) (ground arith) in
            let here : k ≡ m.first = ground arith in
            (sym at_k ∙ ap m.node_at here, ground arith, omega arith, rest)
      ]
