-- ===== src/Rcu/Poll/Work.antt =====
-- fastsmr/fastsmr.c `process_work`: the calls of the deferred functions.
use atomic_ptr_plus.Base.{
  ℕ, zero, suc, ◌+◌, ◌≡◌, refl, sym, ◌∙◌, ap, inl, inr, List, [], ◌∷◌, ◌++◌, true, false, Option,
  none, some, arith, Bool-cases, length, count,
}
use atomic_ptr_plus.Fifo.{Ptr}
use atomic_ptr_plus.Rcu.State.{World, is_nil}
use atomic_ptr_plus.Rcu.Conserve.{queued}
use atomic_ptr_plus.Rcu.Poll.{Calls, call_items, prepend, after_round, process_work}
use atomic_ptr_plus.Rcu.Poll.Accounts.{all, Accounted}

-- Code that other threads and the deferred functions run may queue items and defer new ones, but they
-- queue as much more as they count in `deferred_work`.
abbrev pub IsFair : (World → World) → Type 0
IsFair others =
    (w : World) → (others w).deferred_work + queued all w ≡ w.deferred_work + queued all (others w)

abbrev pub AreFair : Calls → Type 0
AreFair calls = (rounds : ℕ) (func arg : Ptr) → IsFair (calls rounds func arg)

count-all : (xs : List Ptr) → count all xs ≡ length xs
count-all [] = refl
count-all (x ∷ xs) = omega (arith, count-all xs)

-- The walk calls each item of the queue once, in order, and counts them.
pub call_items-called :
    (call : Ptr → Ptr → World → World) (queue : List Ptr) (n : ℕ) (w : World)
    → ((call_items call queue n w).1 ≡ n + length queue) × ((call_items call queue n w).2 ≡ queue)
unfolding call_items
call_items-called call [] n w = (omega arith, refl)
call_items-called call (work ∷ queue) n w =
    let (counted, called) =
      call_items-called call queue (n + 1) (call (w.heap work).func (w.heap work).arg w) in
    (omega arith, ap (λ xs. work ∷ xs) called)

call_items-IsFair :
    (call : Ptr → Ptr → World → World) (queue : List Ptr) (n : ℕ)
    → ((func arg : Ptr) → IsFair (call func arg))
    → IsFair (λ w. (call_items call queue n w).0)
unfolding call_items
call_items-IsFair call [] n fair w = refl
call_items-IsFair call (work ∷ queue) n fair w =
    let next = call (w.heap work).func (w.heap work).arg w in
    omega (
      arith,
      fair (w.heap work).func (w.heap work).arg w,
      call_items-IsFair call queue (n + 1) fair next,
    )

call_items-quiet :
    (call : Ptr → Ptr → World → World) (queue : List Ptr) (n : ℕ) (w : World)
    → ((func arg : Ptr) (u : World) → (call func arg u).ready_queue ≡ u.ready_queue)
    → (call_items call queue n w).0.ready_queue ≡ w.ready_queue
unfolding call_items
call_items-quiet call [] n w quiet = refl
call_items-quiet call (work ∷ queue) n w quiet =
    call_items-quiet call queue (n + 1) (call (w.heap work).func (w.heap work).arg w) quiet
    ∙ quiet (w.heap work).func (w.heap work).arg w

after_round-Accounted :
    (rounds : ℕ) (calls : Calls) (w : World)
    → AreFair calls
    → Accounted w
    → Accounted (after_round rounds calls w).0
after_round-Accounted rounds calls w fair acc =
    let taken : World = record w { ready_queue = [] } in
    omega (
      arith,
      call_items-IsFair (calls rounds) w.ready_queue 0 (fair rounds) taken,
      call_items-called (calls rounds) w.ready_queue 0 taken,
      count-all w.ready_queue,
    )

prepend-eq-some :
    (queue : List Ptr) (o : Option (World × List Ptr)) (w' : World) (called : List Ptr)
    → prepend queue o ≡ some (w', called)
    → (rest : List Ptr) × (o ≡ some (w', rest)) × (called ≡ queue ++ rest)
prepend-eq-some queue none w' called e = cc
prepend-eq-some queue (some (u, rest)) w' called e = (rest, cc, cc)

module _ (rounds : ℕ) (calls : Calls) (w : World) where
  process_work-end : is_nil w.ready_queue ≡ true → process_work (suc rounds) calls w ≡ some (w, [])
  unfolding process_work
  process_work-end empty = rw empty

  process_work-round :
      is_nil w.ready_queue ≡ false
      → process_work (suc rounds) calls w
        ≡ prepend
            (after_round rounds calls w).1
            (process_work rounds calls (after_round rounds calls w).0)
  unfolding process_work
  process_work-round ready = rw ready

pub is_nil→nil : (xs : List Ptr) → is_nil xs ≡ true → xs ≡ []
is_nil→nil [] e = refl
is_nil→nil (x ∷ xs) e = cc

-- `process_work` that ends leaves no ready work, and keeps the account.
pub process_work-Accounted :
    (rounds : ℕ) (calls : Calls) (w w' : World) (called : List Ptr)
    → AreFair calls
    → Accounted w
    → process_work rounds calls w ≡ some (w', called)
    → Accounted w' × (w'.ready_queue ≡ [])
process_work-Accounted zero calls w w' called fair acc done = unfold process_work in cc
process_work-Accounted (suc rounds) calls w w' called fair acc done =
    elim (Bool-cases (is_nil w.ready_queue)) [
      | inl empty ↦
          let same : w ≡ w' = some_state (sym (process_work-end rounds calls w empty) ∙ done) in
          (rw (← same) acc, ap (λ u. u.ready_queue) (sym same) ∙ is_nil→nil w.ready_queue empty)
      | inr ready ↦
          let (next, walked) = after_round rounds calls w in
          let (rest, ended, _) =
            prepend-eq-some walked _ w' called
              (sym (process_work-round rounds calls w ready) ∙ done) in
          process_work-Accounted rounds calls next w' rest fair
            (after_round-Accounted rounds calls w fair acc) ended
    ]
  where
    some_state :
        {u : World} {xs : List Ptr}
        → ◌≡◌ {A = Option (World × List Ptr)} (some (u, xs)) (some (w', called))
        → u ≡ w'
    some_state e = cc

-- The ending of a call, if it has one: the ready items were called first.
abbrev pub Ends : ℕ → Calls → World → Type 0
Ends rounds calls w =
    (w' : World) × (rest : List Ptr) × (process_work rounds calls w
      ≡ some (w', w.ready_queue ++ rest))
    × (w'.ready_queue ≡ [])

Ends-empty :
    (rounds : ℕ) (calls : Calls) (w : World)
    → is_nil w.ready_queue ≡ true
    → Ends (suc rounds) calls w
Ends-empty rounds calls w empty =
    let nil = is_nil→nil w.ready_queue empty in
    (w, [], process_work-end rounds calls w empty ∙ ap (λ xs. some (w, xs ++ [])) (sym nil), nil)

Ends-round :
    (rounds : ℕ) (calls : Calls) (w : World)
    → is_nil w.ready_queue ≡ false
    → Ends rounds calls (after_round rounds calls w).0
    → Ends (suc rounds) calls w
Ends-round rounds calls w ready (w', rest, run, empty) =
    let (next, walked) = after_round rounds calls w in
    let (_, called) =
      call_items-called (calls rounds) w.ready_queue 0 (record w { ready_queue = [] }) in
    (
      w',
      next.ready_queue ++ rest,
      process_work-round rounds calls w ready
          ∙ ap (prepend walked) run
          ∙ ap (λ xs. some (w', xs ++ (next.ready_queue ++ rest))) called,
      empty,
    )

process_work-Ends :
    (rounds : ℕ) (calls : Calls) (w : World)
    → ((func arg : Ptr) (u : World) → (calls 1 func arg u).ready_queue ≡ u.ready_queue)
    → Ends (suc (suc rounds)) calls w
process_work-Ends zero calls w quiet = elim (Bool-cases (is_nil w.ready_queue)) [
  | inl empty ↦ Ends-empty 1 calls w empty
  | inr ready ↦ Ends-round 1 calls w ready (
      Ends-empty 0 calls (after_round 1 calls w).0 (
        ap is_nil
          (call_items-quiet (calls 1) w.ready_queue 0 (record w { ready_queue = [] }) quiet)))
]
process_work-Ends (suc rounds) calls w quiet = elim (Bool-cases (is_nil w.ready_queue)) [
  | inl empty ↦ Ends-empty (suc (suc rounds)) calls w empty
  | inr ready ↦
      Ends-round (suc (suc rounds)) calls w ready
        (process_work-Ends rounds calls (after_round (suc (suc rounds)) calls w).0 quiet)
]

-- `process_work` ends if after any number of rounds, in which the functions and the other threads may
-- make any work ready, there is one in which they leave the ready queue alone. The items that were
-- ready are called first, each once and in order; no item is ready at the end, and `deferred_work`
-- still counts the items that are queued, as the others queue as much as they count.
pub process_work-ends :
    (rounds : ℕ) (calls : Calls) (w : World)
    → AreFair calls
    → Accounted w
    → ((func arg : Ptr) (u : World) → (calls 1 func arg u).ready_queue ≡ u.ready_queue)
    → (w' : World) × (rest : List Ptr) × (process_work (suc (suc rounds)) calls w
        ≡ some (w', w.ready_queue ++ rest))
      × (w'.ready_queue ≡ [])
      × (w'.deferred_work ≡ queued all w')
process_work-ends rounds calls w fair acc quiet =
    let (w', rest, run, empty) = process_work-Ends rounds calls w quiet in
    (
      w',
      rest,
      run,
      empty,
      (process_work-Accounted (suc (suc rounds)) calls w w' (w.ready_queue ++ rest) fair acc run).0,
    )
