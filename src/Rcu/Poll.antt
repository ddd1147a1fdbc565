-- ===== src/Rcu/Poll.antt =====
-- fastsmr/fastsmr.c: the polling thread and the calls of its clients. `smr_defer`, `process_work`,
-- `rcu_xxxx`, `rcu_poll`, `rcu_check`, `rcu_shutdown`.
pub mod Accounts
pub mod Work
pub mod Stop
pub mod Examples
use atomic_ptr_plus.Base.{
  ℕ, zero, suc, ◌+◌, ◌-◌, ◌%◌, ◌^◌, List, [], ◌∷◌, ◌++◌, Bool, true, false, not, ◌||◌, Option, none,
  some, ◌==◌, ltb, if◌then◌else◌, length,
}
use atomic_ptr_plus.Fifo.{Ptr}
use atomic_ptr_plus.Rcu.State.{pass1, World, is_nil, set_sequence}
use atomic_ptr_plus.Rcu.Enqueue.{rcu_enqueue}
use atomic_ptr_plus.Rcu.Scan.{Answers, rcu_scan, rcu_shutdown2}
use atomic_ptr_plus.Rcu.Hazard.{Outcome, aborted, returned, smr_check}
use atomic_ptr_plus.Rcu.SmrScan.{◌>>=◌, Client, smr_scan}

-- An item that is deferred starts at the sequence number before the current one.
abbrev pub dated : Ptr → World → World
dated work w =
    set_sequence work ((w.current + 2 ^ 32 - 1) % 2 ^ 32)
      (record w { stats = record w.stats { defers = w.stats.defers + 1 } })

-- `smr_defer`: the state after, and whether the polling thread is signalled.
unfoldable pub smr_defer : Ptr → World → World × Bool
unfolding rcu_enqueue
smr_defer work w =
    let placed = rcu_enqueue work pass1 (dated work w) in
    let first = placed.deferred_work == 0 in
    (
      record placed {
        deferred_work = placed.deferred_work + 1;
        stats = record placed.stats {
          defersigs = if first then placed.stats.defersigs + 1 else placed.stats.defersigs;
        };
      },
      first,
    )

-- What a call of a deferred function with its argument does, and what other threads do meanwhile, as
-- the mutex is released. Given the rounds left.
abbrev pub Calls : Type 0
Calls = ℕ → Ptr → Ptr → World → World

-- The inner loop of `process_work` over the items that were taken, each with its `next` read before
-- its function is called: the state after, the work counted, and the items whose functions were
-- called, in order.
unfoldable pub call_items :
    (Ptr → Ptr → World → World) → List Ptr → ℕ → World → World × ℕ × List Ptr
call_items call [] workcount w = (w, workcount, [])
call_items call (work ∷ queue) workcount w =
    let (after, total, called) =
      call_items call queue (workcount + 1) (call (w.heap work).func (w.heap work).arg w) in
    (after, total, work ∷ called)

-- The end of a round, with the mutex taken again.
abbrev pub finish_round : ℕ → World → World
finish_round workcount w = record w {
  deferred_work = w.deferred_work - workcount;
  stats = record w.stats { undefers = w.stats.undefers + workcount };
}

-- A round: the ready queue is taken and its items are called.
abbrev pub after_round : ℕ → Calls → World → World × List Ptr
after_round rounds calls w =
    let (after, workcount, called) =
      call_items (calls rounds) w.ready_queue 0 (record w { ready_queue = [] }) in
    (finish_round workcount after, called)

abbrev pub prepend : List Ptr → Option (World × List Ptr) → Option (World × List Ptr)
prepend queue none = none
prepend queue (some (w, called)) = some (w, queue ++ called)

-- `process_work` for so many rounds at most: the state after, and the items whose functions were
-- called, in order. `none`: there was ready work again after all the rounds.
unfoldable pub process_work : ℕ → Calls → World → Option (World × List Ptr)
unfolding call_items
process_work zero calls w = none
process_work (suc rounds) calls w =
    let (next, called) = after_round rounds calls w in
    let rest = process_work rounds calls next in
    if is_nil w.ready_queue then some (w, []) else prepend called rest

-- The end of `rcu_xxxx`: the state, the items called, and the result 1 or 0.
abbrev pub Polled : Type 0
Polled = Option (World × List Ptr × Bool)

abbrev pub with_result : Bool → Option (World × List Ptr) → Polled
with_result worked none = none
with_result worked (some (w, called)) = some (w, called, worked)

unfoldable pub run_ready : ℕ → Calls → World → Polled
unfolding process_work
run_ready rounds calls w =
    if is_nil w.ready_queue
    then some (w, [], false)
    else with_result true (process_work rounds calls w)

unfoldable pub rcu_xxxx : Answers → Client → ℕ → Calls → World → Outcome Polled
unfolding rcu_scan smr_scan run_ready
rcu_xxxx ask c rounds calls w =
    smr_scan c (rcu_scan ask w) >>= λ scanned. returned (run_ready rounds calls scanned)

-- What `rcu_poll` does after a call of `rcu_xxxx`, before its next round.
pub data PollNext : Type 0 where
  again : PollNext  -- work was done: poll once more
  wait_quiesce : PollNext  -- wait for `rcu_minWait` at most
  stop : PollNext  -- leave the loop
  wait_work : PollNext  -- wait until signalled

unfoldable pub poll_next : Bool → World → PollNext
poll_next worked w =
    if worked
    then again
    else if ltb 0 w.deferred_work
    then wait_quiesce
    else if w.rcu_stop
    then stop
    else wait_work

-- The statistics of the two waits, given how long they took.
unfoldable pub waited : PollNext → ℕ → World → World
waited wait_quiesce elapsed w = record w {
  stats = record w.stats { qwaits = w.stats.qwaits + 1; qtime = w.stats.qtime + elapsed };
}
waited wait_work elapsed w = record w {
  stats = record w.stats { wwaits = w.stats.wwaits + 1; wtime = w.stats.wtime + elapsed };
}
waited again elapsed w = w
waited stop elapsed w = w

-- The end of `rcu_poll`: it aborts if work is left.
unfoldable pub poll_exit : World → Outcome World
poll_exit w =
    if not (is_nil w.ready_queue) || not (w.deferred_work == 0) then aborted else returned w

-- What a round of `rcu_poll` meets: what the platform and the clients answer, the calls, and what
-- other threads do while it waits, and for how long it does.
pub record Round : Type 0 where
  pub ask : Answers
  pub client : Client
  pub rounds : ℕ
  pub calls : Calls
  pub meanwhile : World → World
  pub elapsed : ℕ

-- The branches of a round behind `rcu_xxxx`, with the further rounds as a parameter.
unfoldable pub poll_branch :
    (World → Outcome (Option World)) → Round → PollNext → World → Outcome (Option World)
unfolding waited
poll_branch more r again w = more w
poll_branch more r wait_quiesce w = more (waited wait_quiesce r.elapsed (r.meanwhile w))
poll_branch more r stop w = returned (some w)
poll_branch more r wait_work w = more (waited wait_work r.elapsed (r.meanwhile w))

unfoldable pub poll_polled :
    (World → Outcome (Option World)) → Round → Polled → Outcome (Option World)
unfolding poll_branch poll_next
poll_polled more r none = returned none
poll_polled more r (some (w, called, worked)) = poll_branch more r (poll_next worked w) w

-- The loop of `rcu_poll`, with what each round meets: the state in which it is left. `none`: the
-- rounds are at an end, or those of a call of `process_work`.
unfoldable pub poll_rounds : List Round → World → Outcome (Option World)
unfolding rcu_xxxx poll_polled
poll_rounds [] w = returned none
poll_rounds (r ∷ more) w =
    rcu_xxxx r.ask r.client r.rounds r.calls w >>= poll_polled (poll_rounds more) r

unfoldable pub finish_poll : Option World → Outcome (Option World)
unfolding poll_exit
finish_poll none = returned none
finish_poll (some w) = poll_exit w >>= λ left. returned (some left)

-- `rcu_poll`
unfoldable pub rcu_poll : List Round → World → Outcome (Option World)
unfolding poll_rounds finish_poll
rcu_poll rounds w = poll_rounds rounds w >>= finish_poll

-- `rcu_check`, when it gets the mutex: it polls if there is deferred work.
unfoldable pub rcu_check : Answers → Client → ℕ → Calls → World → Outcome Polled
unfolding rcu_xxxx
rcu_check ask c rounds calls w =
    if ltb 0 w.deferred_work then rcu_xxxx ask c rounds calls w else returned (some (w, [], false))

-- `rcu_shutdown` of thread `tid`: asks the polling thread to stop; `joined` is what that thread, and
-- the clients, do until it has ended.
unfoldable pub rcu_shutdown : ℕ → (World → World) → World → Outcome World
unfolding rcu_shutdown2
rcu_shutdown tid joined w =
    if smr_check tid w
    then aborted
    else returned (rcu_shutdown2 (joined (record w { rcu_stop = true })))
