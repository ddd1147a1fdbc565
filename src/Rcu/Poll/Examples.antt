-- ===== src/Rcu/Poll/Examples.antt =====
-- The polling thread at small inputs.
use atomic_ptr_plus.Base.{
  ◌≡◌, refl, true, none, some, List, [], ◌∷◌, ◌++◌, inl, inr, ◌==◌, if◌then◌else◌, Bool-cases,
}
use atomic_ptr_plus.Fifo.{Ptr}
use atomic_ptr_plus.Rcu.State.{World}
use atomic_ptr_plus.Rcu.Enqueue.{smr_enqueue}
use atomic_ptr_plus.Rcu.Conserve.{queued}
use atomic_ptr_plus.Rcu.Hazard.{returned, aborted}
use atomic_ptr_plus.Rcu.Poll.{Calls, Round, smr_defer, process_work, poll_rounds, rcu_poll}
use atomic_ptr_plus.Rcu.Poll.Accounts.{all, smr_defer-fair}
use atomic_ptr_plus.Rcu.Poll.Work.{AreFair, process_work-ends}
use atomic_ptr_plus.Rcu.Poll.Stop.{rcu_poll-stop}
use atomic_ptr_plus.Rcu.Examples.{busy, answers, client}

-- There is no node, so an item is ready as soon as it is deferred.
abbrev ready : World
ready = record busy {
  nodes = [];
  smr_nodes = [];
  smr_queue = [];
  ready_queue = 5 ∷ 6 ∷ [];
  smr_count = 0;
  deferred_work = 2;
  rcu_stop = true;
}

-- In the first of three rounds the function of item 5 defers item 9.
abbrev deferring : Calls
deferring rounds func arg w =
    let later = (smr_defer 9 w).0 in if rounds == 2 then (if arg == 105 then later else w) else w

deferring-AreFair : AreFair deferring
deferring-AreFair rounds func arg w = elim (Bool-cases (rounds == 2)) [
  | inl first ↦ elim (Bool-cases (arg == 105)) [
    | inl of_five ↦ rw (first, of_five) (smr_defer-fair 9 w)
    | inr other ↦ rw (first, other) refl
  ]
  | inr last ↦ rw last refl
]

process_work_result : (w : World) × (process_work 3 deferring ready ≡ some (w, 5 ∷ 6 ∷ 9 ∷ []))
unfolding process_work smr_defer smr_enqueue
process_work_result = (_, refl)

process_work-ends_example :
    (w' : World) × (rest : List Ptr) × (process_work 3 deferring ready
      ≡ some (w', (5 ∷ 6 ∷ []) ++ rest))
    × (w'.ready_queue ≡ [])
    × (w'.deferred_work ≡ queued all w')
process_work-ends_example =
    process_work-ends 1 deferring ready deferring-AreFair refl (λ func arg u. refl)

abbrev round : Round
round = record {
  ask = answers;
  client = client;
  rounds = 3;
  calls = deferring;
  meanwhile = λ w. w;
  elapsed = 0;
}

-- The first round calls the items, the second finds none and stops.
abbrev two_rounds : List Round
two_rounds = round ∷ round ∷ []

abbrev polled : World
unfolding poll_rounds smr_defer smr_enqueue
polled = elim (poll_rounds two_rounds ready) [
  | aborted ↦ ready
  | returned r ↦ elim r [ none ↦ ready | some w ↦ w ]
]

rcu_poll-stop_example :
    (rcu_poll two_rounds ready ≡ returned (some polled))
    × (queued all polled ≡ 0)
    × (polled.rcu_stop ≡ true)
unfolding poll_rounds smr_defer smr_enqueue
rcu_poll-stop_example =
    rcu_poll-stop two_rounds ready polled
      ((deferring-AreFair, λ w. refl), ((deferring-AreFair, λ w. refl), _)) refl refl
