-- ===== src/Stpc/Threads/Progress.antt =====
-- stpc/stpc.c with its calls interleaved: all calls end, and all deletes are run.
use atomic_ptr_plus.Base.{
  ℕ, zero, suc, ◌+◌, ◌-◌, ◌*◌, ◌≤◌, ◌<◌, ◌≡◌, ◌≢◌, inl, inr, refl, ap, arith, update, ◌==◌,
  Bool-cases, sum_to, sum_to-update, sum_to-found, weigh-le-sum_to,
}
use atomic_ptr_plus.Fifo.{Ptr, null}
use atomic_ptr_plus.Stpc.Threads.{
  Shared, Pc, System, pick, Reach, later, Move, idle, holds, checking, subtracting, releasing,
  deleting, filled, linking, get, drop, check_last, check_more, subtract_last, subtract_more,
  release, delete, pop, give_back, alloc, swap, link,
}
use atomic_ptr_plus.Stpc.Threads.Shape.{Inv, collected}
use atomic_ptr_plus.Stpc.Threads.Chain.{releases}
use atomic_ptr_plus.Stpc.Threads.Safety.{quiet-deleted}
use atomic_ptr_plus.Stpc.Threads.Reached.{Reach-Inv}

-- The steps that an agent may still take, those for nodes not yet released aside.
abbrev pub steps_of : Pc → ℕ
steps_of idle = 0
steps_of (holds p) = 3
steps_of (checking p r) = 2
steps_of (subtracting p r) = 1
steps_of (releasing p) = 0
steps_of (deleting p) = 3
steps_of (filled p) = 8
steps_of (linking old p r) = 3

abbrev pub work : ℕ → System → ℕ
work n s = 4 * (s.mem.last - s.mem.first) + sum_to steps_of n s.pc

-- Steps of calls under way: no call is begun.
pub data Finishing (n : ℕ) (s : System) : ℕ → System → Type 0 where
  so_far : Finishing n s zero s
  and_then :
      {k : ℕ} {t : System} (i : ℕ) {m : Shared} {p : Pc}
      → Finishing n s k t
      → i < n
      → t.pc i ≢ idle
      → Move t.pc t.mem (t.pc i) m p
      → Finishing n s (suc k) (record { mem = m; pc = update t.pc i p })

-- Each step of a call that is under way leaves less work.
Move-work :
    {n : ℕ} {m m' : Shared} {pcs : ℕ → Pc} {p p' : Pc} (inv : Inv n m pcs) (i : ℕ)
    → i < n
    → pcs i ≡ p
    → p ≢ idle
    → Move pcs m p m' p'
    → 4 * (m'.last - m'.first) + steps_of p' < 4 * (m.last - m.first) + steps_of p
Move-work inv i lt e busy (get few) = absurd (busy refl)
Move-work inv i lt e busy drop = omega arith
Move-work inv i lt e busy (check_last g) = omega arith
Move-work inv i lt e busy (check_more g) = omega arith
Move-work inv i lt e busy (subtract_last g) = omega arith
Move-work inv i lt e busy (subtract_more g) = omega arith
Move-work inv i lt e busy (release {p}) =
    let (at_first, below, alone, none_left) = releases inv i p lt e in omega arith
Move-work inv i lt e busy delete = omega arith
Move-work inv i lt e busy (pop free_data payload g) = absurd (busy refl)
Move-work inv i lt e busy (give_back g) = absurd (busy refl)
Move-work inv i lt e busy (alloc p free_data payload g) = absurd (busy refl)
Move-work inv i lt e busy swap = omega (arith, inv.chained.first-le)
Move-work inv i lt e busy link = omega arith

-- An agent in a call can always take a step.
enabled :
    (pcs : ℕ → Pc) (m : Shared) (p : Pc) → p ≢ idle → (m' : Shared) × (p' : Pc) × Move pcs m p m' p'
enabled pcs m idle busy = absurd (busy refl)
enabled pcs m (holds p) busy = (m, checking p 2, drop)
enabled pcs m (checking p r) busy = elim (Bool-cases ((m.heap p).count == r)) [
  | inl last ↦ (m, releasing p, check_last (ground arith))
  | inr more ↦ (m, subtracting p r, check_more (ground arith))
]
enabled pcs m (subtracting p r) busy = elim (Bool-cases ((m.heap p).count == r)) [
  | inl last ↦ (_, releasing p, subtract_last (ground arith))
  | inr more ↦ (_, idle, subtract_more (ground arith))
]
enabled pcs m (releasing p) busy = (_, _, release)
enabled pcs m (deleting p) busy = (_, _, delete)
enabled pcs m (filled p) busy = (_, _, swap)
enabled pcs m (linking old p r) busy = (_, _, link)

Step-work :
    {n : ℕ} {t : System} (inv : Inv n t.mem t.pc) (i : ℕ) {m : Shared} {p : Pc}
    → i < n
    → t.pc i ≢ idle
    → Move t.pc t.mem (t.pc i) m p
    → work n (record { mem = m; pc = update t.pc i p }) < work n t
Step-work {n} {t} inv i {m} {p} lt busy mv =
    omega (arith, Move-work inv i lt refl busy mv, sum_to-update steps_of n t.pc i p lt)

Finishing-Reach :
    {n : ℕ} {node : Ptr} {s : System} {k : ℕ} {t : System}
    → Reach n node s
    → Finishing n s k t
    → Reach n node t
Finishing-Reach r so_far = r
Finishing-Reach r (and_then i f lt busy mv) = later (Finishing-Reach r f) (pick i lt mv)

-- The agents that hold a reference or are in a call take a bounded number of steps, in whatever
-- order, until they begin another call.
pub Finishing-bounded :
    {n : ℕ} {node : Ptr} {s : System} {k : ℕ} {t : System}
    → n < 4611686018427387904
    → node ≢ null
    → Reach n node s
    → Finishing n s k t
    → k + work n t ≤ work n s
Finishing-bounded few real r so_far = omega arith
Finishing-bounded {n} few real r (and_then i f lt busy mv) =
    let inv = Reach-Inv few real (Finishing-Reach r f) in
    omega (arith, Finishing-bounded few real r f, Step-work inv i lt busy mv)

abbrev active : Pc → ℕ
active idle = 0
active _ = 1

active-idle : (p : Pc) → active p ≡ 0 → p ≡ idle
active-idle idle e = refl
active-idle (holds p) e = absurd (omega arith)
active-idle (checking p r) e = absurd (omega arith)
active-idle (subtracting p r) e = absurd (omega arith)
active-idle (releasing p) e = absurd (omega arith)
active-idle (deleting p) e = absurd (omega arith)
active-idle (filled p) e = absurd (omega arith)
active-idle (linking old p r) e = absurd (omega arith)

finish_from :
    (fuel n : ℕ) (node : Ptr) (s t : System) (k : ℕ)
    → n < 4611686018427387904
    → node ≢ null
    → Reach n node s
    → Finishing n s k t
    → work n t < fuel
    → (j : ℕ) × (u : System) × Finishing n s j u × ((i : ℕ) → i < n → u.pc i ≡ idle)
finish_from zero n node s t k few real r f enough = absurd (omega arith)
finish_from (suc fuel) n node s t k few real r f enough =
    elim (Bool-cases (sum_to active n t.pc == 0)) [
      | inl quiet ↦ (
        k,
        t,
        f,
        λ i lt. active-idle (t.pc i) (ground (arith, weigh-le-sum_to active n t.pc i lt)),
      )
      | inr some_active ↦
          let (i, lt, found) = sum_to-found active n t.pc (ground arith) in
          let busy : t.pc i ≢ idle = λ e. absurd (omega (arith, ap active e)) in
          let (m, p, mv) = enabled t.pc t.mem (t.pc i) busy in
          let inv = Reach-Inv few real (Finishing-Reach r f) in
          finish_from fuel n node s (record { mem = m; pc = update t.pc i p }) (suc k) few real r
            (and_then i f lt busy mv) (omega (arith, Step-work inv i lt busy mv))
    ]

-- Whatever was done so far, the references can be dropped and the calls under way end: then all
-- agents are idle, and every delete that was queued was run, once each and in their order.
pub calls-finish :
    (n : ℕ) (node : Ptr) (s : System)
    → n < 4611686018427387904
    → node ≢ null
    → Reach n node s
    → (k : ℕ) × (t : System) × Finishing n s k t
      × ((i : ℕ) → i < n → t.pc i ≡ idle)
      × (k ≤ work n s)
      × (t.mem.deleted ≡ collected t.mem.queued t.mem.last)
calls-finish n node s few real r =
    let (k, t, f, quiet) =
      finish_from (suc (work n s)) n node s s zero few real r so_far (omega arith) in
    let (deleted, at_tail) = quiet-deleted n node t few real (Finishing-Reach r f) quiet in
    (k, t, f, quiet, omega (arith, Finishing-bounded few real r f), deleted)
