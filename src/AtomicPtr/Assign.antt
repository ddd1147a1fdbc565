-- ===== src/AtomicPtr/Assign.antt =====
-- atomic-ptr/atomic_ptr.h: the assignments of both classes, each a temporary, a swap and a
-- destructor, and what is read back.
use atomic_ptr_plus.Base.{
  update, update-other, update-same, ==_no, ℕ, ◌<◌, ◌≡◌, ◌≢◌, refl, sym, ◌∙◌, ap, List, [], ◌∷◌,
  Option, none, some, inl, inr, word, add_word, arith, Bool-cases, ◌==◌,
}
use atomic_ptr_plus.Fifo.{Ptr, null}
use atomic_ptr_plus.AtomicPtr.{
  Memory, AtomicPtr, null_ptr, put_local, put_atomic, adjust, adjust_ref, release, drop_ref, adopt,
  atomic_drop, atomic_swap, local_load, getrefptr, local_get, atomic_new, put_ref, new_ref,
}
use atomic_ptr_plus.AtomicPtr.Ledger.{Inv, adjusted}
use atomic_ptr_plus.AtomicPtr.Runs.{
  Event, step, new_local, copy_local, load, drop_local, swap_local, new_atomic, store, take,
  drop_atomic, swap_atomic,
}
use atomic_ptr_plus.AtomicPtr.Locals.{local_load-Keeps}
use atomic_ptr_plus.AtomicPtr.Atomics.{adopt-Keeps, atomic_swap-Keeps, atomic_drop-Keeps}

-- A thread's operations one after the other.
unfoldable pub run : List Event → Memory → Option Memory
run [] m = some m
run (e ∷ es) m = elim (step e m) [ none ↦ none | some m' ↦ run es m' ]

-- `operator =` of atomic_ptr, with the temporaries `t` and `i`
unfoldable pub atomic_assign_object : ℕ → Ptr → Ptr → ℕ → List Event
atomic_assign_object a obj p t = new_atomic t obj p ∷ swap_atomic a t ∷ drop_atomic t ∷ []

unfoldable pub atomic_assign_local : ℕ → ℕ → ℕ → List Event
atomic_assign_local a src t = store t src ∷ swap_atomic a t ∷ drop_atomic t ∷ []

unfoldable pub atomic_assign : ℕ → ℕ → ℕ → ℕ → List Event
atomic_assign a src i t = load i src ∷ take t i ∷ swap_atomic a t ∷ drop_atomic t ∷ []

-- `operator =` of local_ptr, with the temporary `t`
unfoldable pub local_assign_object : ℕ → Ptr → Ptr → ℕ → List Event
local_assign_object i obj p t = new_local t obj p ∷ swap_local i t ∷ drop_local t ∷ []

unfoldable pub local_assign : ℕ → ℕ → ℕ → List Event
local_assign i src t = copy_local t src ∷ swap_local i t ∷ drop_local t ∷ []

unfoldable pub local_assign_atomic : ℕ → ℕ → ℕ → List Event
local_assign_atomic i src t = load t src ∷ swap_local i t ∷ drop_local t ∷ []

-- The variables after an operation, if it succeeds.
unfoldable pub Sets : (ℕ → AtomicPtr) → (ℕ → Ptr) → Option Memory → Type 0
Sets atoms locs none = Unit
Sets atoms locs (some m) = (m.atomics ≡ atoms) × (m.locals ≡ locs)

pub Sets-some :
    (atoms : ℕ → AtomicPtr) (locs : ℕ → Ptr) (o : Option Memory) (m : Memory)
    → Sets atoms locs o
    → o ≡ some m
    → (m.atomics ≡ atoms) × (m.locals ≡ locs)
unfolding Sets
Sets-some atoms locs o m sets ran = rw ran at sets

adjust_ref-Sets :
    (p : Ptr) (de dr : ℕ) (m : Memory) → Sets m.atomics m.locals (adjust_ref p de dr m)
unfolding Sets adjust_ref adjust
adjust_ref-Sets p de dr m = elim (Bool-cases (m.live p)) [
  | inl alive ↦ rw (alive, adjust_ref) (refl, refl)
  | inr dead ↦ rw (dead, adjust_ref) _
]

release-Sets : (p : Ptr) (m : Memory) → Sets m.atomics m.locals (some (release p m))
unfolding Sets release
release-Sets p m = elim (Bool-cases ((m.refs p).pool == null)) [
  | inl e ↦ rw e (refl, refl)
  | inr e ↦ rw e (refl, refl)
]

drop_ref-Sets : (p : Ptr) (de dr : ℕ) (m : Memory) → Sets m.atomics m.locals (drop_ref p de dr m)
unfolding Sets drop_ref adjust
drop_ref-Sets p de dr m = elim (Bool-cases (m.live p)) [
  | inl alive ↦ elim (Bool-cases (add_word (m.refs p).ecount de == 0)) [
    | inl no_local ↦ elim (Bool-cases (add_word (m.refs p).rcount dr == 0)) [
      | inl no_atomic ↦
          rw (alive, no_local, no_atomic, drop_ref) (release-Sets p (adjusted p de dr m))
      | inr atomic ↦ rw (alive, no_local, atomic, drop_ref) (refl, refl)
    ]
    | inr local ↦ rw (alive, local, drop_ref) (refl, refl)
  ]
  | inr dead ↦ rw (dead, drop_ref) _
]

adopt-Sets :
    (a i : ℕ) (m : Memory)
    → Sets
        (update m.atomics a (record { count = 0; ref = m.locals i }))
        (update m.locals i null)
        (adopt a i m)
unfolding adopt
adopt-Sets a i m = elim (Bool-cases (m.locals i == null)) [
  | inl e ↦ rw (e, adopt) (unfold Sets in (refl, refl))
  | inr e ↦ rw (e, adopt) (adjust_ref-Sets (m.locals i) _ _ _)
]

pub atomic_drop-Sets :
    (a : ℕ) (m : Memory) → Sets (update m.atomics a null_ptr) m.locals (atomic_drop a m)
unfolding atomic_drop
atomic_drop-Sets a m = elim (Bool-cases ((m.atomics a).ref == null)) [
  | inl e ↦ rw (e, atomic_drop) (unfold Sets in (refl, refl))
  | inr e ↦ rw (e, atomic_drop) (drop_ref-Sets (m.atomics a).ref _ _ _)
]

load-sets :
    (m : Memory) (i a : ℕ) (m' : Memory)
    → local_load i a m ≡ some m'
    → (m'.atomics
        ≡ update m.atomics a (record (m.atomics a) { count = add_word (m.atomics a).count 1 }))
      × (m'.locals ≡ update m.locals i (m.atomics a).ref)
unfolding local_load getrefptr
load-sets m i a m' ran = (cc, cc)

pub swap-sets :
    (m : Memory) (a b : ℕ) (m' : Memory)
    → atomic_swap a b m ≡ some m'
    → (m'.atomics ≡ update (update m.atomics a (m.atomics b)) b (m.atomics a))
      × (m'.locals ≡ m.locals)
unfolding atomic_swap
swap-sets m a b m' ran = (cc, cc)

pub run-step :
    (e : Event) (es : List Event) (m m' : Memory) → step e m ≡ some m' → run (e ∷ es) m ≡ run es m'
unfolding run
run-step e es m m' ran = rw (ran, run) refl

-- Four operations in a row.
run-four :
    (a b c d : Event) (m m1 m2 m3 m4 : Memory)
    → step a m ≡ some m1
    → step b m1 ≡ some m2
    → step c m2 ≡ some m3
    → step d m3 ≡ some m4
    → run (a ∷ b ∷ c ∷ d ∷ []) m ≡ some m4
run-four a b c d m m1 m2 m3 m4 ra rb rc rd =
    run-step a (b ∷ c ∷ d ∷ []) m m1 ra
    ∙ run-step b (c ∷ d ∷ []) m1 m2 rb
    ∙ run-step c (d ∷ []) m2 m3 rc
    ∙ run-step d [] m3 m4 rd
    ∙ (unfold run in refl)

-- What is in `a` and `t` after the pointer in `t` was exchanged with `a`, and `t` destroyed.
pub exchanged :
    (m1 m2 m3 m4 : Memory) (a t : ℕ) (c : AtomicPtr)
    → t ≢ a
    → m2.atomics ≡ update m1.atomics t c
    → m3.atomics ≡ update (update m2.atomics a (m2.atomics t)) t (m2.atomics a)
    → m4.atomics ≡ update m3.atomics t null_ptr
    → (m4.atomics a ≡ c) × (m4.atomics t ≡ null_ptr)
exchanged m1 m2 m3 m4 a t c apart e2 e3 e4 =
    let swapped : m2.atomics t ≡ c = rw (e2, update-same m1.atomics t c) refl in
    (
      rw
          (
            e4,
            update-other m3.atomics t a null_ptr (λ e. apart (sym e)),
            e3,
            update-other (update m2.atomics a (m2.atomics t)) t a (m2.atomics a)
                (λ e. apart (sym e)),
            update-same m2.atomics a (m2.atomics t),
          )
          swapped,
      rw (e4, update-same m3.atomics t null_ptr) refl,
    )

-- An assignment of one atomic_ptr to another succeeds, keeps the account, and makes the one refer to
-- what the other referred to, with no count of its own; the temporaries are null again.
pub atomic_assign-ref :
    (n : ℕ) (m : Memory) (a b i t : ℕ)
    → n < word
    → Inv n m
    → a < n
    → b < n
    → i < n
    → t < n
    → t ≢ a
    → m.locals i ≡ null
    → (m.atomics t).ref ≡ null
    → t ≢ b
    → (m' : Memory) × (run (atomic_assign a b i t) m ≡ some m')
      × Inv n m'
      × (m'.atomics a ≡ record { count = 0; ref = (m.atomics b).ref })
      × (m'.atomics t ≡ null_ptr)
      × (m'.locals ≡ update (update m.locals i (m.atomics b).ref) i null)
unfolding atomic_assign
atomic_assign-ref n m a b i t fits inv la lb li lt apart fresh_i fresh_t apart_b =
    let p = (m.atomics b).ref in
    let (m1, ran1, inv1) = local_load-Keeps n m i b fits inv li lb fresh_i in
    let (atoms1, locs1) = load-sets m i b m1 ran1 in
    let free1 : (m1.atomics t).ref ≡ null =
      rw
        (
          atoms1,
          update-other m.atomics b t
              (record (m.atomics b) { count = add_word (m.atomics b).count 1 }) apart_b,
        )
        fresh_t in
    let (m2, ran2, inv2) = adopt-Keeps n m1 t i fits inv1 lt li free1 in
    let (atoms2, locs2) = Sets-some _ _ (adopt t i m1) m2 (adopt-Sets t i m1) ran2 in
    let (m3, ran3, inv3) = atomic_swap-Keeps n m2 a t inv2 la lt in
    let (atoms3, locs3) = swap-sets m2 a t m3 ran3 in
    let (m4, ran4, inv4) = atomic_drop-Keeps n m3 t fits inv3 lt in
    let (atoms4, locs4) = Sets-some _ _ (atomic_drop t m3) m4 (atomic_drop-Sets t m3) ran4 in
    let (at_a, at_t) =
      exchanged m1 m2 m3 m4 a t (record { count = 0; ref = m1.locals i }) apart atoms2 atoms3
        atoms4 in
    let held : m1.locals i ≡ p = rw (locs1, update-same m.locals i p) refl in
    (
      m4,
      run-four (load i b) (take t i) (swap_atomic a t) (drop_atomic t) m m1 m2 m3 m4
          (unfold step in ran1) (unfold step in ran2) (unfold step in ran3) (unfold step in ran4),
      inv4,
      rw held at at_a,
      at_t,
      locs4 ∙ locs3 ∙ locs2 ∙ ap (λ f. update f i null) locs1,
    )

-- A local_ptr that is loaded from an atomic_ptr constructed from an object gives that object back,
-- NULL included; the address of the new ref is not NULL.
pub load-new_atomic :
    (a i : ℕ) (obj p : Ptr) (m : Memory)
    → p ≢ null
    → (m' : Memory) × (run (new_atomic a obj p ∷ load i a ∷ []) m ≡ some m')
      × (local_get i m' ≡ obj)
unfolding run step atomic_new local_load getrefptr local_get
load-new_atomic a i obj p m real = elim (Bool-cases (obj == null)) [
  | inl e ↦ (
    put_local i null (put_atomic a (record { count = 1; ref = null }) (put_atomic a null_ptr m)),
    rw (e, run, update-same m.atomics a null_ptr) refl,
    rw (update-same m.locals i null) (let none_here : obj ≡ null = ground arith in sym none_here),
  )
  | inr e ↦
      let c : AtomicPtr = record { count = 0; ref = p } in
      let made = put_atomic a c (put_ref p (new_ref obj) m) in
      (
        put_local i p (put_atomic a (record { count = 1; ref = p }) made),
        rw (e, run, update-same m.atomics a c) refl,
        rw (update-same m.locals i p, ==_no p null real, update-same m.refs p (new_ref obj)) refl,
      )
]
