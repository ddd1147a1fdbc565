-- ===== src/AtomicPtr/Compare.antt =====
-- atomic-ptr/atomic_ptr.h: the comparisons. Those of an atomic_ptr load it into a temporary
-- local_ptr `t`, so that the ref lives while it is read.
use atomic_ptr_plus.Base.{
  arith, update, update-same, update-other, ◌≢◌, sym, ℕ, ◌<◌, ◌≡◌, refl, ◌∙◌, ap, Bool, not, Option,
  none, some, inl, inr, word, add_word, Bool-cases, ◌==◌, if◌then◌else◌,
}
use atomic_ptr_plus.Fifo.{Ptr, null}
use atomic_ptr_plus.AtomicPtr.{
  Memory, put_local, put_atomic, local_load, getrefptr, local_drop, local_get,
}
use atomic_ptr_plus.AtomicPtr.Ledger.{Inv}
use atomic_ptr_plus.AtomicPtr.Locals.{local_load-Keeps, local_drop-Keeps}

-- `local_ptr == T *`, `local_ptr == local_ptr` and `local_ptr == atomic_ptr`
unfoldable pub local_eq_object : ℕ → Ptr → Memory → Bool
local_eq_object i obj m = obj == local_get i m

unfoldable pub local_eq : ℕ → ℕ → Memory → Bool
local_eq i j m = m.locals i == m.locals j

unfoldable pub local_eq_atomic : ℕ → ℕ → Memory → Bool
local_eq_atomic i a m = m.locals i == (m.atomics a).ref

-- A comparison on a temporary, which is destroyed then.
unfoldable pub with_temp : ℕ → ℕ → (Memory → Bool) → Memory → Option (Bool × Memory)
with_temp t a test m = elim (local_load t a m) [
  | none ↦ none
  | some m1 ↦ elim (local_drop t m1) [ none ↦ none | some m2 ↦ some (test m1, m2) ]
]

-- `atomic_ptr == T *`
unfoldable pub atomic_eq_object : ℕ → Ptr → ℕ → Memory → Option (Bool × Memory)
atomic_eq_object a obj t m =
    if obj == null
    then some ((m.atomics a).ref == null, m)
    else with_temp t a (local_eq_object t obj) m

-- `atomic_ptr == local_ptr`
unfoldable pub atomic_eq_local : ℕ → ℕ → ℕ → Memory → Option (Bool × Memory)
atomic_eq_local a i t m = with_temp t a (local_eq t i) m

-- `atomic_ptr == atomic_ptr`, with a temporary for each
unfoldable pub atomic_eq : (a b t u : ℕ) → Memory → Option (Bool × Memory)
atomic_eq a b t u m = elim (local_load t a m) [
  | none ↦ none
  | some m1 ↦ elim (local_load u b m1) [
    | none ↦ none
    | some m2 ↦ elim (local_drop u m2) [
      | none ↦ none
      | some m3 ↦ elim (local_drop t m3) [ none ↦ none | some m4 ↦ some (local_eq t u m2, m4) ]
    ]
  ]
]

-- The operators `!=` give the opposite, and leave the same memory.
unfoldable pub negated : Option (Bool × Memory) → Option (Bool × Memory)
negated none = none
negated (some (equal, m)) = some (not equal, m)

-- The object that an atomic_ptr refers to.
abbrev pub object_of : ℕ → Memory → Ptr
object_of a m = let p = (m.atomics a).ref in if p == null then null else (m.refs p).object

with_temp-some :
    (t a : ℕ) (test : Memory → Bool) (m m1 m2 : Memory)
    → local_load t a m ≡ some m1
    → local_drop t m1 ≡ some m2
    → with_temp t a test m ≡ some (test m1, m2)
unfolding with_temp
with_temp-some t a test m m1 m2 r1 r2 = rw (r1, with_temp) (rw r2 refl)

loaded-get : (t a : ℕ) (m m1 : Memory) → local_load t a m ≡ some m1 → local_get t m1 ≡ object_of a m
unfolding local_load getrefptr local_get
loaded-get t a m m1 ran =
    let c = m.atomics a in
    let seen : Memory =
      put_local t c.ref (put_atomic a (record c { count = add_word c.count 1 }) m) in
    let e : seen ≡ m1 = cc in rw (← e) (rw (update-same m.locals t c.ref) refl)

-- A comparison of an atomic_ptr with an object succeeds, keeps the account, and tells whether the
-- atomic_ptr referred to that object when it was read; NULL is compared without a temporary.
pub atomic_eq_object-object_of :
    (n : ℕ) (m : Memory) (a t : ℕ) (obj : Ptr)
    → n < word
    → Inv n m
    → a < n
    → t < n
    → m.locals t ≡ null
    → (m' : Memory) × (atomic_eq_object a obj t m
        ≡ some (if obj == null then (m.atomics a).ref == null else obj == object_of a m, m'))
      × Inv n m'
unfolding atomic_eq_object
atomic_eq_object-object_of n m a t obj fits inv la lt fresh = elim (Bool-cases (obj == null)) [
  | inl e ↦ (m, rw (e, atomic_eq_object) refl, inv)
  | inr e ↦
      let (m1, ran1, inv1) = local_load-Keeps n m t a fits inv lt la fresh in
      let (m2, ran2, inv2) = local_drop-Keeps n m1 t fits inv1 lt in
      let same : local_eq_object t obj m1 ≡ (obj == object_of a m) =
        unfold local_eq_object in ap (λ p. obj == p) (loaded-get t a m m1 ran1) in
      (
        m2,
        rw (e, atomic_eq_object)
            (with_temp-some t a (local_eq_object t obj) m m1 m2 ran1 ran2
              ∙ ap (λ b. some (b, m2)) same),
        inv2,
      )
]

atomic_eq-some :
    (a b t u : ℕ) (m m1 m2 m3 m4 : Memory)
    → local_load t a m ≡ some m1
    → local_load u b m1 ≡ some m2
    → local_drop u m2 ≡ some m3
    → local_drop t m3 ≡ some m4
    → atomic_eq a b t u m ≡ some (local_eq t u m2, m4)
unfolding atomic_eq
atomic_eq-some a b t u m m1 m2 m3 m4 r1 r2 r3 r4 = rw (r1, atomic_eq) (rw r2 (rw r3 (rw r4 refl)))

loaded :
    (t a : ℕ) (m m1 : Memory)
    → local_load t a m ≡ some m1
    → (m1.locals ≡ update m.locals t (m.atomics a).ref)
      × ((b : ℕ) → (m1.atomics b).ref ≡ (m.atomics b).ref)
unfolding local_load getrefptr
loaded t a m m1 ran =
    let c = m.atomics a in
    let seen : Memory =
      put_local t c.ref (put_atomic a (record c { count = add_word c.count 1 }) m) in
    let e : seen ≡ m1 = cc in rw (← e) (refl, λ b. ground arith)

local_eq-refs :
    (i j : ℕ) (p q : Ptr) (m : Memory) → m.locals i ≡ p → m.locals j ≡ q → local_eq i j m ≡ (p == q)
unfolding local_eq
local_eq-refs i j p q m e f = rw (e, f) refl

-- A comparison of two atomic_ptr succeeds, keeps the account, and tells whether they referred to the
-- same ref.
pub atomic_eq-ref :
    (n : ℕ) (m : Memory) (a b t u : ℕ)
    → n < word
    → Inv n m
    → a < n
    → b < n
    → t < n
    → u < n
    → t ≢ u
    → m.locals t ≡ null
    → m.locals u ≡ null
    → (m' : Memory) × (atomic_eq a b t u m ≡ some ((m.atomics a).ref == (m.atomics b).ref, m'))
      × Inv n m'
atomic_eq-ref n m a b t u fits inv la lb lt lu apart fresh_t fresh_u =
    let (m1, ran1, inv1) = local_load-Keeps n m t a fits inv lt la fresh_t in
    let (locs1, refs1) = loaded t a m m1 ran1 in
    let free1 : m1.locals u ≡ null =
      rw (locs1, update-other m.locals t u (m.atomics a).ref (λ e. apart (sym e))) fresh_u in
    let (m2, ran2, inv2) = local_load-Keeps n m1 u b fits inv1 lu lb free1 in
    let (locs2, refs2) = loaded u b m1 m2 ran2 in
    let (m3, ran3, inv3) = local_drop-Keeps n m2 u fits inv2 lu in
    let (m4, ran4, inv4) = local_drop-Keeps n m3 t fits inv3 lt in
    let held_t : m2.locals t ≡ (m.atomics a).ref =
      rw
        (
          locs2,
          update-other m1.locals u t (m1.atomics b).ref apart,
          locs1,
          update-same m.locals t (m.atomics a).ref,
        )
        refl in
    let held_u : m2.locals u ≡ (m.atomics b).ref =
      rw (locs2, update-same m1.locals u (m1.atomics b).ref) (refs1 b) in
    (
      m4,
      atomic_eq-some a b t u m m1 m2 m3 m4 ran1 ran2 ran3 ran4
          ∙ ap (λ (e : Bool). some (e, m4))
              (local_eq-refs t u (m.atomics a).ref (m.atomics b).ref m2 held_t held_u),
      inv4,
    )
