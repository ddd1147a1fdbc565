-- ===== src/AtomicPtr/Ledger.antt =====
-- The account that the two counts of a ref keep, and how a change of the counts restores it.
use atomic_ptr_plus.Base.{
  update, update-other, update-same, ℕ, ◌+◌, ◌%◌, ◌<◌, ◌≡◌, ◌≢◌, refl, arith, inl, inr, Bool, true,
  false, some, Bool-cases, ◌==◌, word, add_word,
}
use atomic_ptr_plus.Fifo.{Ptr, null}
use atomic_ptr_plus.AtomicPtr.{AtomicPtrRef, Memory, adjust, release, drop_ref, adjust_ref}
use atomic_ptr_plus.AtomicPtr.Counts.{owners, loans, users, loans-zero}

-- A live ref counts the atomic_ptr to it in `rcount`; its `ecount`, with what those have counted for
-- it, is the number of local_ptr to it, modulo 2 ^ 64. A ref is live as long as one refers to it.
abbrev pub Balanced : Bool → AtomicPtrRef → ℕ → ℕ → ℕ → Type 0
Balanced true r own lent held =
    (r.rcount ≡ own) × ((r.ecount + lent) % word ≡ held) × (r.ecount < word) × (0 < own + held)
Balanced false r own lent held = (own ≡ 0) × (held ≡ 0)

abbrev pub Counted : ℕ → Memory → Ptr → Type 0
Counted n m o = Balanced (m.live o) (m.refs o) (owners n m o) (loans n m o) (users n m o)

abbrev pub Inv : ℕ → Memory → Type 0
Inv n m = (o : Ptr) → o ≢ null → Counted n m o

-- The pointers have changed, and the counts of `p` are still to be changed by the two amounts.
pub record Off (n : ℕ) (m : Memory) (p : Ptr) (ephemeral reference : ℕ) : Type 0 where
  pub others : (o : Ptr) → o ≢ null → o ≢ p → Counted n m o
  pub alive : m.live p ≡ true
  pub owned : add_word (m.refs p).rcount reference ≡ owners n m p
  pub used : (add_word (m.refs p).ecount ephemeral + loans n m p) % word ≡ users n m p

abbrev pub counts_of : Ptr → ℕ → ℕ → Memory → AtomicPtrRef
counts_of p ephemeral reference m = record (m.refs p) {
  ecount = add_word (m.refs p).ecount ephemeral;
  rcount = add_word (m.refs p).rcount reference;
}

abbrev pub adjusted : Ptr → ℕ → ℕ → Memory → Memory
adjusted p ephemeral reference m = record m {
  refs = update m.refs p (counts_of p ephemeral reference m);
}

adjusted_others :
    (n : ℕ) (m : Memory) (p : Ptr) (de dr : ℕ) (o : Ptr)
    → o ≢ p
    → Counted n m o
    → Counted n (adjusted p de dr m) o
adjusted_others n m p de dr o apart c = rw (update-other m.refs p o (counts_of p de dr m) apart) c

adjusted_self :
    (n : ℕ) (m : Memory) (p : Ptr) (de dr : ℕ)
    → Off n m p de dr
    → 0 < owners n m p + users n m p
    → Counted n (adjusted p de dr m) p
adjusted_self n m p de dr off some_left =
    rw (off.alive, update-same m.refs p (counts_of p de dr m))
      (off.owned, off.used, omega arith, some_left)

adjusted-Inv :
    (n : ℕ) (m : Memory) (p : Ptr) (de dr : ℕ)
    → Off n m p de dr
    → 0 < owners n m p + users n m p
    → Inv n (adjusted p de dr m)
adjusted-Inv n m p de dr off some_left o real = elim (Bool-cases (o == p)) [
  | inl same ↦ let e : o ≡ p = ground arith in rw e (adjusted_self n m p de dr off some_left)
  | inr other ↦
      let apart : o ≢ p = ground arith in
      adjusted_others n m p de dr o apart (off.others o real apart)
]

pub adjust_ref-Inv :
    (n : ℕ) (m : Memory) (p : Ptr) (de dr : ℕ)
    → Off n m p de dr
    → 0 < owners n m p + users n m p
    → (m' : Memory) × (adjust_ref p de dr m ≡ some m') × Inv n m'
unfolding adjust_ref adjust
adjust_ref-Inv n m p de dr off some_left =
    (adjusted p de dr m, rw (off.alive, adjust_ref) refl, adjusted-Inv n m p de dr off some_left)

release-live : (p : Ptr) (m : Memory) → (release p m).live ≡ update m.live p false
unfolding release
release-live p m = elim (Bool-cases ((m.refs p).pool == null)) [
  | inl e ↦ rw e refl
  | inr e ↦ rw e refl
]

release-refs : (p : Ptr) (m : Memory) → (release p m).refs ≡ m.refs
unfolding release
release-refs p m = elim (Bool-cases ((m.refs p).pool == null)) [
  | inl e ↦ rw e refl
  | inr e ↦ rw e refl
]

release-atomics : (p : Ptr) (m : Memory) → (release p m).atomics ≡ m.atomics
unfolding release
release-atomics p m = elim (Bool-cases ((m.refs p).pool == null)) [
  | inl e ↦ rw e refl
  | inr e ↦ rw e refl
]

release-locals : (p : Ptr) (m : Memory) → (release p m).locals ≡ m.locals
unfolding release
release-locals p m = elim (Bool-cases ((m.refs p).pool == null)) [
  | inl e ↦ rw e refl
  | inr e ↦ rw e refl
]

-- Deleting a ref that no pointer refers to.
pub release-Inv :
    (n : ℕ) (m : Memory) (p : Ptr)
    → ((o : Ptr) → o ≢ null → o ≢ p → Counted n m o)
    → owners n m p ≡ 0
    → users n m p ≡ 0
    → Inv n (release p m)
release-Inv n m p others none_own none_use o real =
    rw (release-live p m, release-refs p m, release-atomics p m, release-locals p m)
      (elim (Bool-cases (o == p)) [
        | inl same ↦
            let e : o ≡ p = ground arith in rw (e, update-same m.live p false) (none_own, none_use)
        | inr other ↦
            let apart : o ≢ p = ground arith in
            rw (update-other m.live p o false apart) (others o real apart)
      ])

-- An ephemeral count that is not 0 is that of a local_ptr, if no atomic_ptr is left.
some_left :
    (n : ℕ) (m : Memory) (p : Ptr) (de dr : ℕ)
    → Off n m p de dr
    → (add_word (m.refs p).ecount de == 0) ≡ false
    → 0 < owners n m p + users n m p
some_left n m p de dr off local = elim (Bool-cases (owners n m p == 0)) [
  | inl no_atomic ↦
      let lent = loans-zero n m p (ground arith) in
      let held : users n m p ≢ 0 = ground (arith, off.used) in omega arith
  | inr atomic ↦ ground arith
]

pub drop_ref-Inv :
    (n : ℕ) (m : Memory) (p : Ptr) (de dr : ℕ)
    → Off n m p de dr
    → (m' : Memory) × (drop_ref p de dr m ≡ some m') × Inv n m'
unfolding drop_ref adjust
drop_ref-Inv n m p de dr off = elim (Bool-cases (add_word (m.refs p).ecount de == 0)) [
  | inl no_local ↦ elim (Bool-cases (add_word (m.refs p).rcount dr == 0)) [
    | inl no_atomic ↦
        let own : owners n m p ≡ 0 = ground (arith, off.owned) in
        let lent = loans-zero n m p own in
        let held : users n m p ≡ 0 = ground (arith, off.used) in
        (
          release p (adjusted p de dr m),
          rw (off.alive, no_local, no_atomic, drop_ref) refl,
          release-Inv n (adjusted p de dr m) p
              (λ o real apart. adjusted_others n m p de dr o apart (off.others o real apart)) own
              held,
        )
    | inr atomic ↦
        let own : 0 < owners n m p = ground (arith, off.owned) in
        (
          adjusted p de dr m,
          rw (off.alive, no_local, atomic, drop_ref) refl,
          adjusted-Inv n m p de dr off (omega arith),
        )
  ]
  | inr local ↦ (
    adjusted p de dr m,
    rw (off.alive, local, drop_ref) refl,
    adjusted-Inv n m p de dr off (some_left n m p de dr off local),
  )
]
