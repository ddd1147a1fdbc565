-- ===== src/Rcu/Poll/Stop.antt =====
-- fastsmr/fastsmr.c `rcu_poll`: the state in which the polling thread leaves its loop.
use atomic_ptr_plus.Base.{
  ℕ, ◌≡◌, refl, sym, ◌∙◌, ap, inl, inr, ◌⊎◌, List, [], ◌∷◌, Bool, true, false, Option, none, some,
  arith, Bool-cases,
}
use atomic_ptr_plus.Fifo.{Ptr}
use atomic_ptr_plus.Rcu.State.{World, is_nil}
use atomic_ptr_plus.Rcu.Scan.{Answers, rcu_scan}
use atomic_ptr_plus.Rcu.Conserve.{queued}
use atomic_ptr_plus.Rcu.Hazard.{Outcome, returned}
use atomic_ptr_plus.Rcu.SmrScan.{◌>>=◌, Client, smr_scan}
use atomic_ptr_plus.Rcu.SmrScan.Ensures.{>>=-eq-returned}
use atomic_ptr_plus.Rcu.Poll.{
  Calls, Round, Polled, with_result, process_work, run_ready, rcu_xxxx, PollNext, again,
  wait_quiesce, stop, wait_work, poll_next, poll_exit, waited, poll_branch, poll_polled,
  poll_rounds, finish_poll, rcu_poll,
}
use atomic_ptr_plus.Rcu.Poll.Accounts.{all, Accounted, rcu_scan-Accounted, smr_scan-Accounted}
use atomic_ptr_plus.Rcu.Poll.Work.{IsFair, AreFair, process_work-Accounted, is_nil→nil}

run_ready-Accounted :
    (rounds : ℕ) (calls : Calls) (w w' : World) (called : List Ptr) (worked : Bool)
    → AreFair calls
    → Accounted w
    → run_ready rounds calls w ≡ some (w', called, worked)
    → Accounted w' × (w'.ready_queue ≡ [])
unfolding run_ready
run_ready-Accounted rounds calls w w' called worked fair acc done =
    elim (Bool-cases (is_nil w.ready_queue)) [
      | inl empty ↦
          let same : w ≡ w' = at_once (rw empty at done) in
          (rw (← same) acc, ap (λ u. u.ready_queue) (sym same) ∙ is_nil→nil w.ready_queue empty)
      | inr ready ↦
          process_work-Accounted rounds calls w w' called fair acc
            (ended (process_work rounds calls w) (rw ready at done))
    ]
  where
    at_once : ◌≡◌ {A = Polled} (some (w, [], false)) (some (w', called, worked)) → w ≡ w'
    at_once e = cc

    ended :
        (o : Option (World × List Ptr))
        → with_result true o ≡ some (w', called, worked)
        → o ≡ some (w', called)
    ended none e = cc
    ended (some (u, xs)) e = cc

rcu_xxxx-parts :
    (ask : Answers) (c : Client) (rounds : ℕ) (calls : Calls) (w : World) (r : Polled)
    → rcu_xxxx ask c rounds calls w ≡ returned r
    → (scanned : World) × (smr_scan c (rcu_scan ask w) ≡ returned scanned)
      × (run_ready rounds calls scanned ≡ r)
rcu_xxxx-parts ask c rounds calls w r done =
    let (scanned, scan, ran) =
      >>=-eq-returned (smr_scan c (rcu_scan ask w)) (λ s. returned (run_ready rounds calls s))
        (body ∙ done) in
    (scanned, scan, cc)
  where
    body :
        (smr_scan c (rcu_scan ask w) >>= λ s. returned (run_ready rounds calls s))
        ≡ rcu_xxxx ask c rounds calls w
    body = unfold rcu_xxxx in refl

-- A call of `rcu_xxxx` that ends leaves no ready work, and keeps the account.
pub rcu_xxxx-Accounted :
    (ask : Answers) (c : Client) (rounds : ℕ) (calls : Calls) (w w' : World) (called : List Ptr)
    (worked : Bool)
    → AreFair calls
    → Accounted w
    → rcu_xxxx ask c rounds calls w ≡ returned (some (w', called, worked))
    → Accounted w' × (w'.ready_queue ≡ [])
rcu_xxxx-Accounted ask c rounds calls w w' called worked fair acc done =
    let (scanned, scan, ran) =
      rcu_xxxx-parts ask c rounds calls w (some (w', called, worked)) done in
    run_ready-Accounted rounds calls scanned w' called worked fair
      (smr_scan-Accounted c (rcu_scan ask w) scanned (rcu_scan-Accounted ask w acc) scan) ran

-- What other threads do while the polling thread is in a call or waits is fair.
abbrev pub IsFairRound : Round → Type 0
IsFairRound r = AreFair r.calls × IsFair r.meanwhile

abbrev pub AreFairRounds : List Round → Type 0
AreFairRounds [] = Unit
AreFairRounds (r ∷ more) = IsFairRound r × AreFairRounds more

-- What holds in the state in which the loop is left.
abbrev Stopped : World → Type 0
Stopped w = (w.deferred_work ≡ 0) × (queued all w ≡ 0) × (w.ready_queue ≡ []) × (w.rcu_stop ≡ true)

waited-Accounted :
    (next : PollNext) (elapsed : ℕ) (others : World → World) (w : World)
    → IsFair others
    → Accounted w
    → Accounted (waited next elapsed (others w))
unfolding waited
waited-Accounted again elapsed others w fair acc = omega (arith, fair w)
waited-Accounted wait_quiesce elapsed others w fair acc = omega (arith, fair w)
waited-Accounted stop elapsed others w fair acc = omega (arith, fair w)
waited-Accounted wait_work elapsed others w fair acc = omega (arith, fair w)

PollNext-cases :
    (next : PollNext) → (next ≡ again) ⊎ (next ≡ wait_quiesce) ⊎ (next ≡ stop) ⊎ (next ≡ wait_work)
PollNext-cases again = inl refl
PollNext-cases wait_quiesce = inr (inl refl)
PollNext-cases stop = inr (inr (inl refl))
PollNext-cases wait_work = inr (inr (inr refl))

poll_next-stop :
    (worked : Bool) (w : World)
    → poll_next worked w ≡ stop
    → (w.deferred_work ≡ 0) × (w.rcu_stop ≡ true)
unfolding poll_next
poll_next-stop worked w stops = ground arith

module _ (r : Round) (more : World → Outcome (Option World)) (w' : World)
    (fair : IsFair r.meanwhile)
    (next : (u : World) → Accounted u → more u ≡ returned (some w') → Stopped w') where
  poll_branch-Stopped :
      (worked : Bool) (w : World)
      → Accounted w
      → w.ready_queue ≡ []
      → poll_branch more r (poll_next worked w) w ≡ returned (some w')
      → Stopped w'
  unfolding poll_branch
  poll_branch-Stopped worked w acc empty run = elim (PollNext-cases (poll_next worked w)) [
    | inl e ↦ next w acc (rw (e, poll_branch) at run)
    | inr (inl e) ↦
        next (waited wait_quiesce r.elapsed (r.meanwhile w))
          (waited-Accounted wait_quiesce r.elapsed r.meanwhile w fair acc)
          (rw (e, poll_branch) at run)
    | inr (inr (inl e)) ↦
        let (none_left, asked) = poll_next-stop worked w e in
        let ended : returned (some w) ≡ returned (some w') = (rw (e, poll_branch) at run) in
        let same : w ≡ w' = left ended in rw (← same) (none_left, omega arith, empty, asked)
    | inr (inr (inr e)) ↦
        next (waited wait_work r.elapsed (r.meanwhile w))
          (waited-Accounted wait_work r.elapsed r.meanwhile w fair acc) (rw (e, poll_branch) at run)
  ]
    where
      left :
          {s t : World}
          → ◌≡◌ {A = Outcome (Option World)} (returned (some s)) (returned (some t))
          → s ≡ t
      left e = cc

  poll_polled-Stopped :
      (p : Polled)
      → ((w : World) (called : List Ptr) (worked : Bool)
          → p ≡ some (w, called, worked)
          → Accounted w × (w.ready_queue ≡ []))
      → poll_polled more r p ≡ returned (some w')
      → Stopped w'
  unfolding poll_polled
  poll_polled-Stopped none known run = absurd (open_end run)
    where
      open_end : ◌≡◌ {A = Outcome (Option World)} (returned none) (returned (some w')) → ⊥
      open_end e = cc
  poll_polled-Stopped (some (w, called, worked)) known run =
      let (acc, empty) = known w called worked refl in poll_branch-Stopped worked w acc empty run

poll_rounds-Stopped :
    (rounds : List Round) (w w' : World)
    → AreFairRounds rounds
    → Accounted w
    → poll_rounds rounds w ≡ returned (some w')
    → Stopped w'
unfolding poll_rounds
poll_rounds-Stopped [] w w' fair acc run = absurd (open_end run)
  where
    open_end : ◌≡◌ {A = Outcome (Option World)} (returned none) (returned (some w')) → ⊥
    open_end e = cc
poll_rounds-Stopped (r ∷ more) w w' ((calls, meanwhile), fair) acc run =
    let (p, polled, rest) =
      >>=-eq-returned (rcu_xxxx r.ask r.client r.rounds r.calls w)
        (poll_polled (poll_rounds more) r) run in
    poll_polled-Stopped r (poll_rounds more) w' meanwhile
      (λ u acc'. poll_rounds-Stopped more u w' fair acc') p
      (λ u called worked e.
        rcu_xxxx-Accounted r.ask r.client r.rounds r.calls w u called worked calls acc
          (polled ∙ ap returned e))
      rest

-- The polling thread starts with as many items queued as `deferred_work` counts, and the other
-- threads and the deferred functions always queue as much as they count. Whatever it meets, in as
-- many rounds as it may take: when it leaves its loop its last test does not abort, it was asked to
-- stop, and no deferred item is queued anywhere.
pub rcu_poll-stop :
    (rounds : List Round) (w w' : World)
    → AreFairRounds rounds
    → Accounted w
    → poll_rounds rounds w ≡ returned (some w')
    → (rcu_poll rounds w ≡ returned (some w')) × (queued all w' ≡ 0) × (w'.rcu_stop ≡ true)
unfolding rcu_poll finish_poll poll_exit
rcu_poll-stop rounds w w' fair acc run =
    let (none_left, none_queued, empty, asked) = poll_rounds-Stopped rounds w w' fair acc run in
    (rw (run, empty, none_left) refl, none_queued, asked)
