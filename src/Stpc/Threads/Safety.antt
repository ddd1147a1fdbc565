-- ===== src/Stpc/Threads/Safety.antt =====
-- stpc/stpc.c with its calls interleaved: what a reference guarantees, and what is deleted.
use atomic_ptr_plus.Base.{
  ℕ, zero, suc, ◌≤◌, ◌<◌, ◌≡◌, ◌≢◌, inl, inr, refl, sym, ◌∙◌, ap, arith, update-other, ◌==◌,
  Bool-cases, sum_to, sum_to-found,
}
use atomic_ptr_plus.Fifo.{Ptr, null}
use atomic_ptr_plus.Stpc.Threads.{
  Shared, Pc, System, Step, pick, Reach, Move, idle, holds, releasing, filled, get, drop,
  check_last, check_more, subtract_last, subtract_more, release, delete, pop, give_back, alloc,
  swap, link,
}
use atomic_ptr_plus.Stpc.Threads.Dues.{due, leaves, deletes}
use atomic_ptr_plus.Stpc.Threads.Shape.{InQueue, Inv, Stands, collected}
use atomic_ptr_plus.Stpc.Threads.Chain.{releases}
use atomic_ptr_plus.Stpc.Threads.Agents.{busy, older, queued_apart, due-zero}
use atomic_ptr_plus.Stpc.Threads.Queued.{due-InQueue}
use atomic_ptr_plus.Stpc.Threads.Balance.{free_differs}
use atomic_ptr_plus.Stpc.Threads.Reached.{Reach-Inv, Step-Inv}

-- Agent `j` holds its reference to `p` all along.
pub data While (n j : ℕ) (p : Ptr) (s : System) : System → Type 0 where
  begin : s.pc j ≡ holds p → While n j p s s
  next : {t u : System} → While n j p s t → Step n t u → u.pc j ≡ holds p → While n j p s u

-- The `k`th node is `p`, is not released, and no delete behind it was run.
abbrev Kept : ℕ → Ptr → Shared → Type 0
Kept k p m = (m.first ≤ k) × (k ≤ m.last) × (m.node_at k ≡ p)

Move-Kept :
    {n : ℕ} {m m' : Shared} {pcs : ℕ → Pc} {q q' : Pc} (inv : Inv n m pcs) (i j : ℕ) (p : Ptr)
    (k : ℕ)
    → i < n
    → pcs i ≡ q
    → Move pcs m q m' q'
    → pcs j ≡ holds p
    → Kept k p m
    → Kept k p m'
Move-Kept {n} {m} {m'} {pcs} inv i j p k lt e (release {p = a}) h (from, to, at_k) =
    let (at_first, below, alone, none_left) = releases inv i a lt e in
    let none_due = due-zero inv (m.node_at m.first) j none_left in
    let away : k ≢ m.first = λ same.
      let here : m.node_at m.first ≡ p = ap m.node_at (sym same) ∙ at_k in
      let two : due (m.node_at m.first) (holds p) ≡ 2 = ground arith in
      absurd (omega (arith, none_due, ap (due (m.node_at m.first)) h, two)) in
    (omega arith, to, at_k)
Move-Kept {n} {m} inv i j p k lt e (swap {p = a}) h (from, to, at_k) =
    (from, omega arith, older m inv.chained a k to ∙ at_k)
Move-Kept inv i j p k lt e (get few) h kept = kept
Move-Kept inv i j p k lt e drop h kept = kept
Move-Kept inv i j p k lt e (check_last g) h kept = kept
Move-Kept inv i j p k lt e (check_more g) h kept = kept
Move-Kept inv i j p k lt e (subtract_last g) h kept = kept
Move-Kept inv i j p k lt e (subtract_more g) h kept = kept
Move-Kept inv i j p k lt e delete h kept = kept
Move-Kept inv i j p k lt e (pop free_data payload g) h kept = kept
Move-Kept inv i j p k lt e (give_back g) h kept = kept
Move-Kept inv i j p k lt e (alloc a free_data payload g) h kept = kept
Move-Kept inv i j p k lt e link h kept = kept

-- What was queued stays so.
abbrev Extends : Shared → Shared → Type 0
Extends m m' = (m.last ≤ m'.last) × ((k : ℕ) → k ≤ m.last → m'.queued k ≡ m.queued k)

Move-Extends : {m m' : Shared} {pcs : ℕ → Pc} {q q' : Pc} → Move pcs m q m' q' → Extends m m'
Move-Extends {m} (swap {p}) = (
  omega arith,
  λ k le.
      update-other m.queued (suc m.last) k ((m.heap p).free_data, (m.heap p).payload)
        (λ e. absurd (omega arith)),
)
Move-Extends (get few) = (omega arith, λ k le. refl)
Move-Extends drop = (omega arith, λ k le. refl)
Move-Extends (check_last g) = (omega arith, λ k le. refl)
Move-Extends (check_more g) = (omega arith, λ k le. refl)
Move-Extends (subtract_last g) = (omega arith, λ k le. refl)
Move-Extends (subtract_more g) = (omega arith, λ k le. refl)
Move-Extends release = (omega arith, λ k le. refl)
Move-Extends delete = (omega arith, λ k le. refl)
Move-Extends (pop free_data payload g) = (omega arith, λ k le. refl)
Move-Extends (give_back g) = (omega arith, λ k le. refl)
Move-Extends (alloc a free_data payload g) = (omega arith, λ k le. refl)
Move-Extends link = (omega arith, λ k le. refl)

-- The same deletes are collected from what was queued.
collected-same :
    (f g : ℕ → Ptr × Ptr) (k : ℕ) → ((i : ℕ) → i ≤ k → g i ≡ f i) → collected g k ≡ collected f k
unfolding collected
collected-same f g zero same = refl
collected-same f g (suc k) same =
    rw (same (suc k) (omega arith), collected-same f g k (λ i le. same i (omega arith))) refl

Later : ℕ → Ptr → ℕ → Shared → System → Type 0
Later n p k m t = Inv n t.mem t.pc × Kept k p t.mem × Extends m t.mem

Step-Later :
    {n j : ℕ} (k : ℕ) (p : Ptr) (m : Shared) {t u : System}
    → Later n p k m t
    → Step n t u
    → t.pc j ≡ holds p
    → Later n p k m u
unfolding Later
Step-Later {n} {j} k p m {t} (inv, kept, (longer, same)) (pick i lt mv) h =
    let (longer', same') = Move-Extends mv in
    (
      Step-Inv (pick i lt mv) inv,
      Move-Kept inv i j p k lt refl mv h kept,
      (omega arith, λ a le. same' a (omega arith) ∙ same a le),
    )

While-Later :
    {n j : ℕ} (k : ℕ) {p : Ptr} {s t : System}
    → Inv n s.mem s.pc
    → Kept k p s.mem
    → While n j p s t
    → Later n p k s.mem t × (t.pc j ≡ holds p)
unfolding Later
While-Later k inv kept (begin h) = ((inv, kept, (omega arith, λ a le. refl)), h)
While-Later k {p} {s} inv kept (next w st h) =
    let (before, held) = While-Later k inv kept w in (Step-Later k p s.mem before st held, h)

-- The promise of a reference. While an agent holds a reference to a node, whatever the others do, the
-- deletes that are run are of those queued with the nodes up to that one, in their order: none that
-- was queued after the reference was taken.
pub held-waits :
    (n j : ℕ) (node p : Ptr) (s t : System)
    → n < 4611686018427387904
    → node ≢ null
    → Reach n node s
    → While n j p s t
    → s.pc j ≡ holds p
    → (k c : ℕ) × (s.mem.node_at k ≡ p)
      × (c ≤ k)
      × (k ≤ s.mem.last)
      × (t.mem.deleted ≡ collected s.mem.queued c)
unfolding Later
held-waits n j node p s t few real r w h =
    let inv = Reach-Inv few real r in
    let stands : Stands s.mem (holds p) = rw h at (inv.sound.stands j) in
    let (k, from, to, at_k) = stands in
    let ((inv', (from', to', at_k'), (longer, same)), held) =
      While-Later k inv (from, to, at_k) w in
    let before : t.mem.finished ≤ k = omega (arith, inv'.logged.counted) in
    (
      k,
      t.mem.finished,
      at_k,
      before,
      to,
      inv'.logged.log
          ∙ collected-same s.mem.queued t.mem.queued t.mem.finished (λ i le. same i (omega arith)),
    )

all_zero :
    (weigh : Pc → ℕ) (n : ℕ) (pcs : ℕ → Pc)
    → weigh idle ≡ 0
    → ((i : ℕ) → i < n → pcs i ≡ idle)
    → sum_to weigh n pcs ≡ 0
all_zero weigh n pcs light quiet = elim (Bool-cases (sum_to weigh n pcs == 0)) [
  | inl empty ↦ ground arith
  | inr some_weight ↦
      let (i, lt, found) = sum_to-found weigh n pcs (ground arith) in
      absurd (omega (arith, ap weigh (quiet i lt), light))
]

-- When all agents are idle, every delete that was queued was run, once each and in their order, and
-- no node but the tail is left in the queue.
pub quiet-deleted :
    (n : ℕ) (node : Ptr) (s : System)
    → n < 4611686018427387904
    → node ≢ null
    → Reach n node s
    → ((i : ℕ) → i < n → s.pc i ≡ idle)
    → (s.mem.deleted ≡ collected s.mem.queued s.mem.last) × (s.mem.free_tail ≡ s.mem.tail)
quiet-deleted n node s few real r quiet =
    let inv = Reach-Inv few real r in
    let no_dues = all_zero (due (s.mem.node_at s.mem.first)) n s.pc refl quiet in
    let none_leaves = all_zero leaves n s.pc refl quiet in
    let none_deletes = all_zero deletes n s.pc refl quiet in
    let at_end : s.mem.first ≡ s.mem.last = elim (Bool-cases (s.mem.first == s.mem.last)) [
      | inl empty ↦ ground arith
      | inr below ↦ absurd (
          omega (
            arith,
            no_dues,
            none_leaves,
            inv.balanced.charge (ground (arith, inv.chained.first-le)),
          ))
    ] in
    let all_run : s.mem.finished ≡ s.mem.last = omega (arith, none_deletes, inv.logged.counted) in
    (
      inv.logged.log ∙ ap (collected s.mem.queued) all_run,
      inv.chained.is_free_tail ∙ ap s.mem.node_at at_end ∙ sym inv.chained.is_tail,
    )

-- A node to which an agent has a due, so one that it holds, reads or writes in a call, is not about
-- to be released, is not the node that `_newNode` takes next, and is not one that an agent has taken.
pub due-apart :
    (n : ℕ) (node : Ptr) (s : System) (i j : ℕ) (p : Ptr)
    → n < 4611686018427387904
    → node ≢ null
    → Reach n node s
    → 0 < due p (s.pc i)
    → (s.pc j ≢ releasing p)
      × (s.pc j ≢ filled p)
      × (s.mem.free_head ≢ s.mem.free_tail → s.mem.free_head ≢ p)
due-apart n node s i j p few real r some_due =
    let inv = Reach-Inv few real r in
    let lt = busy inv i (λ e. absurd (omega (arith, ap (due p) e))) in
    let (k, from, to, at_k) = due-InQueue inv i lt p (s.pc i) (inv.sound.stands i) some_due in
    let stands : InQueue s.mem p = (k, from, to, at_k) in
    (
      (λ f.
          let (at_first, below, alone, none_left) = releases inv j p (busy inv j (λ e. cc)) f in
          let none_due = due-zero inv (s.mem.node_at s.mem.first) i none_left in
          let here : due p (s.pc i) ≡ 0 = ap (λ x. due x (s.pc i)) at_first ∙ none_due in
          absurd (omega arith)),
      (λ f. absurd (queued_apart inv j p p f stands refl)),
      (λ some_free same. free_differs inv i lt some_free k from to (same ∙ sym at_k)),
    )
