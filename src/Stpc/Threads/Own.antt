-- ===== src/Stpc/Threads/Own.antt =====
-- A step of an agent of stpc/stpc.c, and what the agent itself knows of the nodes.
use atomic_ptr_plus.Base.{
  ℕ, suc, ◌%◌, ◌<◌, ◌≡◌, ◌≢◌, inl, inr, sym, ◌∙◌, ap, arith, update, update-same, ◌==◌, Bool-cases,
}
use atomic_ptr_plus.Fifo.{Ptr}
use atomic_ptr_plus.Stpc.Threads.{
  Shared, Pc, Move, checking, subtracting, deleting, filled, linking, get, drop, check_last,
  check_more, subtract_last, subtract_more, release, delete, pop, give_back, alloc, swap, link,
  new_tail, taken, rcount_of,
}
use atomic_ptr_plus.Stpc.Threads.Dues.{due, HasDue, IsDue, rcount_of_lem}
use atomic_ptr_plus.Stpc.Threads.Shape.{Inv, Stands, OddLink, Sound, Outside}
use atomic_ptr_plus.Stpc.Threads.Chain.{releases, first_linked, not_empty}
use atomic_ptr_plus.Stpc.Threads.Agents.{Stands-other, older, free_apart}
use atomic_ptr_plus.Stpc.Threads.Release.{last_one}

rcount_odd : (s : ℕ) → s % 2 ≡ 0 → s < 2147483648 → rcount_of s % 2 ≡ 1
rcount_odd s even few = omega (arith, rcount_of_lem s even few)

rcount-IsDue : (s : ℕ) → s % 2 ≡ 0 → s < 2147483648 → IsDue (rcount_of s)
rcount-IsDue s even few = omega (arith, rcount_of_lem s even few, rcount_odd s even few)

module _ {n : ℕ} {m : Shared} {pcs : ℕ → Pc} (inv : Inv n m pcs) (i : ℕ) (lt : i < n) where
  open inv use {chained, balanced, sound}

  due-here : (p : Ptr) (q : Pc) (r : ℕ) → pcs i ≡ q → due p q ≡ r → due p (pcs i) ≡ r
  due-here p q r e own = rw e own

  Stands-own : {p p' : Pc} {m' : Shared} → pcs i ≡ p → Move pcs m p m' p' → Stands m' p'
  Stands-own e (get few) = (m.last, chained.first-le, omega arith, sym chained.is_tail)
  Stands-own e (drop {p}) = rw e at (sound.stands i)
  Stands-own e (check_last {p} {r} g) =
      let stands : Stands m (checking p r) = rw e at (sound.stands i) in
      let has : HasDue (checking p r) = rw e at (sound.has_due i) in
      let own : due p (pcs i) ≡ r = rw e (ground arith) in
      (last_one inv i lt p r own has stands g).0
  Stands-own e (check_more g) = rw e at (sound.stands i)
  Stands-own e (subtract_last {p} {r} g) =
      let stands : Stands m (subtracting p r) = rw e at (sound.stands i) in
      let has : HasDue (subtracting p r) = rw e at (sound.has_due i) in
      let own : due p (pcs i) ≡ r = rw e (ground arith) in
      (last_one inv i lt p r own has stands g).0
  Stands-own e (subtract_more g) = tt
  Stands-own e (release {p}) =
      let (at_first, below, alone, none_left) = releases inv i p lt e in
      rw at_first (first_linked inv i p lt e ∙ ap m.node_at (omega arith))
  Stands-own e (delete {p}) =
      let stands : Stands m (deleting p) = rw e at (sound.stands i) in
      (m.first, omega arith, chained.first-le, sym stands)
  Stands-own e (pop free_data payload g) =
      let below = not_empty inv g in
      let real = chained.real m.free (omega arith) (omega (arith, chained.first-le)) in
      let outside : Outside (taken (new_tail free_data payload) m) m.free_head = λ k from to same.
        let at_free =
          chained.distinct k m.free (omega arith) to (omega arith) (omega (arith, chained.first-le))
            (same ∙ chained.is_free_head) in
        absurd (omega arith) in
      (rw chained.is_free_head real, ground (arith), outside)
  Stands-own e (give_back g) = tt
  Stands-own e (alloc p free_data payload g) = (g.real, ground arith, g.not_queued)
  Stands-own e (swap {p}) = (
    m.last,
    chained.first-le,
    omega arith,
    older m chained p m.last (omega arith) ∙ sym chained.is_tail,
    update-same m.node_at (suc m.last) p,
  )
  Stands-own e (link {old} {p} {r}) =
      let stands : Stands m (linking old p r) = rw e at (sound.stands i) in
      let (k, from, to, at_k, at_next) = stands in (k, from, omega arith, at_k)

  HasDue-own : {p p' : Pc} {m' : Shared} → pcs i ≡ p → Move pcs m p m' p' → HasDue p'
  HasDue-own e (get few) = tt
  HasDue-own e drop = omega arith
  HasDue-own e (check_last g) = tt
  HasDue-own e (check_more g) = rw e at (sound.has_due i)
  HasDue-own e (subtract_last g) = tt
  HasDue-own e (subtract_more g) = tt
  HasDue-own e release = tt
  HasDue-own e delete = omega arith
  HasDue-own e (pop free_data payload g) = tt
  HasDue-own e (give_back g) = tt
  HasDue-own e (alloc p free_data payload g) = tt
  HasDue-own e swap = rcount-IsDue m.sequence chained.even chained.few
  HasDue-own e link = rw e at (sound.has_due i)

  OddLink-own : {p p' : Pc} {m' : Shared} → pcs i ≡ p → Move pcs m p m' p' → OddLink p'
  OddLink-own e (get few) = tt
  OddLink-own e drop = tt
  OddLink-own e (check_last g) = tt
  OddLink-own e (check_more g) = tt
  OddLink-own e (subtract_last g) = tt
  OddLink-own e (subtract_more g) = tt
  OddLink-own e release = tt
  OddLink-own e delete = tt
  OddLink-own e (pop free_data payload g) = tt
  OddLink-own e (give_back g) = tt
  OddLink-own e (alloc p free_data payload g) = tt
  OddLink-own e swap = rcount_odd m.sequence chained.even chained.few
  OddLink-own e link = tt

  -- No two agents fill the same node.
  filled-other :
      {p p' : Pc} {m' : Shared}
      → pcs i ≡ p
      → Move pcs m p m' p'
      → (j : ℕ) (q : Ptr) → pcs j ≡ filled q
      → p' ≢ filled q
  filled-other e (get few) j q f same = cc
  filled-other e drop j q f same = cc
  filled-other e (check_last g) j q f same = cc
  filled-other e (check_more g) j q f same = cc
  filled-other e (subtract_last g) j q f same = cc
  filled-other e (subtract_more g) j q f same = cc
  filled-other e release j q f same = cc
  filled-other e delete j q f same = cc
  filled-other e (pop free_data payload g) j q f same =
      let stands : Stands m (filled q) = rw f at (sound.stands j) in
      let (real, count, outside) = stands in
      let equal : q ≡ m.free_head = cc in free_apart inv g q outside equal
  filled-other e (give_back g) j q f same = cc
  filled-other e (alloc p free_data payload g) j q f same =
      let equal : q ≡ p = cc in g.not_filled j q f equal
  filled-other e swap j q f same = cc
  filled-other e link j q f same = cc

  pub Move-Sound :
      {p p' : Pc} {m' : Shared} → pcs i ≡ p → Move pcs m p m' p' → Sound n m' (update pcs i p')
  Move-Sound {p} {p'} {m'} e mv = record {
    stands = λ j. elim (Bool-cases (i == j)) [
      | inl self ↦ rw self (Stands-own e mv)
      | inr other ↦ rw other (Stands-other inv i j lt (λ same. ground (arith)) e mv)
    ];
    has_due = λ j. elim (Bool-cases (i == j)) [
      | inl self ↦ rw self (HasDue-own e mv)
      | inr other ↦ rw other (sound.has_due j)
    ];
    odd_link = λ j. elim (Bool-cases (i == j)) [
      | inl self ↦ rw self (OddLink-own e mv)
      | inr other ↦ rw other (sound.odd_link j)
    ];
    beyond = λ j out. ground (arith, sound.beyond j);
    unlike = λ j k q fj fk.
        ground (arith, sound.unlike j k q, filled-other e mv j q, filled-other e mv k q);
  }
