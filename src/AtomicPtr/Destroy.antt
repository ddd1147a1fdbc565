-- ===== src/AtomicPtr/Destroy.antt =====
-- atomic-ptr/atomic_ptr.h: what the two destructors do to the ref that they let go.
use atomic_ptr_plus.Base.{
  update-same, ℕ, ◌<◌, ◌≡◌, ◌≢◌, refl, sym, ◌∙◌, ap, [], ◌∷◌, ◌++◌, true, false, Option, none, some,
  ◌⊎◌, inl, inr, word, add_word, arith, Bool-cases, ◌==◌,
}
use atomic_ptr_plus.Fifo.{Ptr, null}
use atomic_ptr_plus.AtomicPtr.{
  AtomicPtr, Memory, null_ptr, adjust, release, drop_ref, local_drop, atomic_drop, minus_one,
  put_local, put_atomic,
}
use atomic_ptr_plus.AtomicPtr.Ledger.{Inv, adjusted, counts_of}
use atomic_ptr_plus.AtomicPtr.Moves.{Inv-live}
use atomic_ptr_plus.AtomicPtr.Locals.{local_drop-Keeps}
use atomic_ptr_plus.AtomicPtr.Atomics.{atomic_drop-Keeps}
use atomic_ptr_plus.AtomicPtr.Lifetime.{Referred, referred, live-found}

-- What a drop of a ref may do: the ref stays, or it is deleted, or given to its pool.
abbrev Dropped : Ptr → Memory → Memory → Type 0
Dropped p m m' =
    ((m'.live p ≡ true) × (m'.deleted ≡ m.deleted) × (m'.pooled ≡ m.pooled))
    ⊎ ((m'.live p ≡ false)
        × ((m.refs p).pool ≡ null)
        × (m'.deleted ≡ m.deleted ++ (m.refs p).object ∷ [])
        × (m'.pooled ≡ m.pooled))
    ⊎ ((m'.live p ≡ false)
        × ((m.refs p).pool ≢ null)
        × (m'.deleted ≡ m.deleted)
        × (m'.pooled ≡ m.pooled ++ ((m.refs p).pool, p) ∷ []))

release-Dropped :
    (p : Ptr) (m a : Memory)
    → (a.refs p).object ≡ (m.refs p).object
    → (a.refs p).pool ≡ (m.refs p).pool
    → a.deleted ≡ m.deleted
    → a.pooled ≡ m.pooled
    → Dropped p m (release p a)
unfolding release
release-Dropped p m a obj pool old_deleted old_pooled =
    elim (Bool-cases ((a.refs p).pool == null)) [
      | inl e ↦
          let no_pool : (m.refs p).pool ≡ null = ground arith in
          rw e (
            inr (inl (update-same a.live p false, no_pool, rw (old_deleted, obj) refl, old_pooled)))
      | inr e ↦
          let a_pool : (m.refs p).pool ≢ null = ground arith in
          rw e (
            inr (inr (update-same a.live p false, a_pool, old_deleted, rw (old_pooled, pool) refl)))
    ]

-- A drop either keeps the changed counts or releases the ref.
drop_ref-cases :
    (p : Ptr) (de dr : ℕ) (m : Memory)
    → m.live p ≡ true
    → (drop_ref p de dr m ≡ some (adjusted p de dr m))
      ⊎ (drop_ref p de dr m ≡ some (release p (adjusted p de dr m)))
unfolding drop_ref adjust
drop_ref-cases p de dr m alive = elim (Bool-cases (add_word (m.refs p).ecount de == 0)) [
  | inl no_local ↦ elim (Bool-cases (add_word (m.refs p).rcount dr == 0)) [
    | inl no_atomic ↦ inr (rw (alive, no_local, no_atomic, drop_ref) refl)
    | inr atomic ↦ inl (rw (alive, no_local, atomic, drop_ref) refl)
  ]
  | inr local ↦ inl (rw (alive, local, drop_ref) refl)
]

drop_ref-dead : (p : Ptr) (de dr : ℕ) (m : Memory) → m.live p ≡ false → drop_ref p de dr m ≡ none
unfolding drop_ref adjust
drop_ref-dead p de dr m dead = rw (dead, drop_ref) refl

drop_ref-Dropped :
    (p : Ptr) (de dr : ℕ) (m m' : Memory) → drop_ref p de dr m ≡ some m' → Dropped p m m'
drop_ref-Dropped p de dr m m' run = elim (Bool-cases (m.live p)) [
  | inl alive ↦ elim (drop_ref-cases p de dr m alive) [
    | inl kept ↦ let same : adjusted p de dr m ≡ m' = cc in rw (← same) (inl (alive, refl, refl))
    | inr gone ↦
        let same : release p (adjusted p de dr m) ≡ m' = cc in
        rw (← same) (
          release-Dropped p m (adjusted p de dr m)
            (rw (update-same m.refs p (counts_of p de dr m)) refl)
            (rw (update-same m.refs p (counts_of p de dr m)) refl) refl refl)
  ]
  | inr dead ↦ absurd (none-ne-some m' (sym (drop_ref-dead p de dr m dead) ∙ run))
]
  where
    none-ne-some : (t : Memory) → ◌≡◌ {A = Option Memory} none (some t) → ⊥
    none-ne-some t e = cc

-- What a destructor does to the ref `p` that it lets go, when `gone` is the memory in which only the
-- variable no longer refers to it. The ref stays, with nothing deleted, exactly as long as some
-- variable still refers to it. Else its object is deleted, or if it has a pool it is given to that.
abbrev pub Ended : ℕ → Ptr → Memory → Memory → Memory → Type 0
Ended n p gone m m' =
    (Referred n gone p × (m'.live p ≡ true) × (m'.deleted ≡ m.deleted) × (m'.pooled ≡ m.pooled))
    ⊎ (¬ Referred n gone p
        × (m'.live p ≡ false)
        × ((m.refs p).pool ≡ null)
        × (m'.deleted ≡ m.deleted ++ (m.refs p).object ∷ [])
        × (m'.pooled ≡ m.pooled))
    ⊎ (¬ Referred n gone p
        × (m'.live p ≡ false)
        × ((m.refs p).pool ≢ null)
        × (m'.deleted ≡ m.deleted)
        × (m'.pooled ≡ m.pooled ++ ((m.refs p).pool, p) ∷ []))

-- The variables that refer to refs.
abbrev pointers : Memory → (ℕ → AtomicPtr) × (ℕ → Ptr)
pointers m = (m.atomics, m.locals)

drop_ref-pointers :
    (p : Ptr) (de dr : ℕ) (m m' : Memory) → drop_ref p de dr m ≡ some m' → pointers m' ≡ pointers m
unfolding drop_ref adjust release
drop_ref-pointers p de dr m m' run = ground arith

Referred-pointers :
    (n : ℕ) (p : Ptr) (m m' : Memory) → pointers m' ≡ pointers m → Referred n m p → Referred n m' p
Referred-pointers n p m m' same (inl (a, lt, here)) =
    inl (a, lt, ap (λ (s : (ℕ → AtomicPtr) × (ℕ → Ptr)). (s.0 a).ref) same ∙ here)
Referred-pointers n p m m' same (inr (i, lt, here)) =
    inr (i, lt, ap (λ (s : (ℕ → AtomicPtr) × (ℕ → Ptr)). s.1 i) same ∙ here)

live-dead : (m : Memory) (p : Ptr) → m.live p ≡ true → m.live p ≡ false → ⊥
live-dead m p alive dead = cc

-- The account says which it is.
ended :
    (n : ℕ) (p : Ptr) (gone m m' : Memory)
    → p ≢ null
    → Inv n m'
    → pointers m' ≡ pointers gone
    → Dropped p m m'
    → Ended n p gone m m'
ended n p gone m m' real inv same (inl (alive, kept, given)) = inl (
  Referred-pointers n p m' gone (sym same) (live-found n m' p inv real alive),
  alive,
  kept,
  given,
)
ended n p gone m m' real inv same (inr (inl (dead, pool, kept, given))) = inr (
    inl (
      λ here.
          live-dead m' p
            (Inv-live n m' p inv real (referred n m' p (Referred-pointers n p gone m' same here)))
            dead,
      dead,
      pool,
      kept,
      given,
    ))
ended n p gone m m' real inv same (inr (inr (dead, pool, kept, given))) = inr (
    inr (
      λ here.
          live-dead m' p
            (Inv-live n m' p inv real (referred n m' p (Referred-pointers n p gone m' same here)))
            dead,
      dead,
      pool,
      kept,
      given,
    ))

-- The destructor of a local_ptr that refers to a ref succeeds, and ends as `Ended` says: it deletes,
-- or gives to its pool, if and only if no other variable refers to the ref. The counts of all refs
-- are in balance, and there are less than 2 ^ 64 variables of each kind.
local_drop-Ended :
    (n : ℕ) (m : Memory) (i : ℕ)
    → n < word
    → Inv n m
    → i < n
    → m.locals i ≢ null
    → (m' : Memory) × (local_drop i m ≡ some m') × Ended n (m.locals i) (put_local i null m) m m'
unfolding local_drop
local_drop-Ended n m i fits inv lt real =
    let (m', run, inv') = local_drop-Keeps n m i fits inv lt in
    let p = m.locals i in
    let e : (p == null) ≡ false = ground arith in
    let drop : drop_ref p minus_one 0 (put_local i null m) ≡ some m' =
      (rw (e, local_drop) at run) in
    (
      m',
      run,
      ended n p (put_local i null m) m m' real inv'
          (drop_ref-pointers p minus_one 0 (put_local i null m) m' drop)
          (drop_ref-Dropped p minus_one 0 (put_local i null m) m' drop),
    )

-- The destructor of an atomic_ptr that refers to a ref succeeds, and ends as `Ended` says: it deletes,
-- or gives to its pool, if and only if no other variable refers to the ref. The counts of all refs
-- are in balance, and there are less than 2 ^ 64 variables of each kind.
pub atomic_drop-Ended :
    (n : ℕ) (m : Memory) (a : ℕ)
    → n < word
    → Inv n m
    → a < n
    → (m.atomics a).ref ≢ null
    → (m' : Memory) × (atomic_drop a m ≡ some m')
      × Ended n (m.atomics a).ref (put_atomic a null_ptr m) m m'
unfolding atomic_drop
atomic_drop-Ended n m a fits inv lt real =
    let (m', run, inv') = atomic_drop-Keeps n m a fits inv lt in
    let c = m.atomics a in
    let gone = put_atomic a null_ptr m in
    let e : (c.ref == null) ≡ false = ground arith in
    let drop : drop_ref c.ref c.count minus_one gone ≡ some m' = (rw (e, atomic_drop) at run) in
    (
      m',
      run,
      ended n c.ref gone m m' real inv' (drop_ref-pointers c.ref c.count minus_one gone m' drop)
          (drop_ref-Dropped c.ref c.count minus_one gone m' drop),
    )
