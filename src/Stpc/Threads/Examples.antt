-- ===== src/Stpc/Threads/Examples.antt =====
-- Two agents on a new proxy: one takes a reference, and the other queues a delete meanwhile.
use atomic_ptr_plus.Base.{
  to_int, Option, some, none, ℕ, ◌+◌, ◌≤◌, ◌<◌, ◌≡◌, ◌≢◌, refl, arith, update,
}
use atomic_ptr_plus.Stpc.{
  StpcProxy, stpc_new_proxy, put_node, zero_node, queue_node, drop_proxy_node_reference, drop_loop,
  link_node, delete_data, release_node, count_try,
}
use atomic_ptr_plus.Stpc.Threads.Matches.{Matches, counted}
use atomic_ptr_plus.Stpc.Threads.Alone.{Ran, queue_node-Ran}
use atomic_ptr_plus.Stpc.Threads.{
  Shared, System, Step, pick, Reach, start, later, new_system, Unused, idle, holds, releasing,
  deleting, checking, subtracting, filled, linking, get, check_last, release, delete, check_more,
  subtract_more, alloc, swap, link, with_reference, put, new_tail, with_tail, linked_to, subtracted,
  moved_on, run_delete, Pc, rcount_of,
}
use atomic_ptr_plus.Stpc.Threads.Shape.{Inv, collected}
use atomic_ptr_plus.Stpc.Threads.Reached.{Reach-Inv}
use atomic_ptr_plus.Stpc.Threads.Safety.{While, begin, next, held-waits, due-apart, quiet-deleted}
use atomic_ptr_plus.Stpc.Threads.Progress.{
  Finishing, so_far, and_then, work, Finishing-bounded, calls-finish,
}

abbrev w0 : System
w0 = new_system 1

abbrev w1 : System
w1 = record { mem = with_reference w0.mem; pc = update w0.pc 0 (holds 1) }

abbrev w2 : System
w2 = record { mem = put 5 (new_tail 7 9) w1.mem; pc = update w1.pc 1 (filled 5) }

abbrev w3 : System
w3 = record { mem = with_tail 5 w2.mem; pc = update w2.pc 1 (linking 1 5 (rcount_of 2)) }

reach1 : Reach 2 1 w1
reach1 = later start (pick 0 (omega arith) (get (omega arith)))

unused5 : Unused w1.pc w1.mem 5
unused5 = record {
  real = λ e. absurd (omega arith);
  not_queued = λ k from to e. absurd (omega arith);
  not_filled = λ j q f. ground arith;
}

step2 : Step 2 w1 w2
step2 = pick 1 (omega arith) (alloc 5 7 9 unused5)

step3 : Step 2 w2 w3
step3 = pick 1 (omega arith) swap

reach3 : Reach 2 1 w3
reach3 = later (later reach1 step2) step3

held_meanwhile : While 2 0 1 w1 w3
held_meanwhile = next (next (begin refl) step2 refl) step3 refl

-- One agent alone: its delete is run before it is idle again.
abbrev act : Shared → Pc → System → System
act m p s = record { mem = m; pc = update s.pc 0 p }

abbrev v1 : System
v1 = act (put 5 (new_tail 7 9) w0.mem) (filled 5) w0

abbrev v2 : System
v2 = act (with_tail 5 v1.mem) (linking 1 5 (rcount_of 0)) v1

abbrev v3 : System
v3 = act (linked_to 1 5 v2.mem) (checking 1 (rcount_of 0)) v2

abbrev v4 : System
v4 = act v3.mem (releasing 1) v3

abbrev v5 : System
v5 = act (moved_on v4.mem) (deleting 5) v4

abbrev v6 : System
v6 = act (run_delete 5 v5.mem) (checking 5 2) v5

abbrev v7 : System
v7 = act v6.mem (subtracting 5 2) v6

abbrev v8 : System
v8 = act (subtracted 5 2 v7.mem) idle v7

unused : Unused w0.pc w0.mem 5
unused = record {
  real = λ e. absurd (omega arith);
  not_queued = λ k from to e. absurd (omega arith);
  not_filled = λ j q f. absurd (cc);
}

reach8 : Reach 2 1 v8
unfolding rcount_of to_int
reach8 =
    let r1 : Reach 2 1 v1 = later start (pick 0 (omega arith) (alloc 5 7 9 unused)) in
    let r2 : Reach 2 1 v2 = later r1 (pick 0 (omega arith) swap) in
    let r3 : Reach 2 1 v3 = later r2 (pick 0 (omega arith) link) in
    let r4 : Reach 2 1 v4 = later r3 (pick 0 (omega arith) (check_last refl)) in
    let r5 : Reach 2 1 v5 = later r4 (pick 0 (omega arith) release) in
    let r6 : Reach 2 1 v6 = later r5 (pick 0 (omega arith) delete) in
    let r7 : Reach 2 1 v7 =
      later r6 (pick 0 (omega arith) (check_more (λ e. absurd (omega arith)))) in
    later r7 (pick 0 (omega arith) (subtract_more (λ e. absurd (omega arith))))

quiet8 : (i : ℕ) → i < 2 → v8.pc i ≡ idle
quiet8 i lt = ground arith

quiet-deleted_example :
    (v8.mem.deleted ≡ collected v8.mem.queued v8.mem.last) × (v8.mem.free_tail ≡ v8.mem.tail)
quiet-deleted_example = quiet-deleted 2 1 v8 (omega arith) (λ e. absurd (omega arith)) reach8 quiet8

held-waits_example :
    (k c : ℕ) × (w1.mem.node_at k ≡ 1)
    × (c ≤ k)
    × (k ≤ w1.mem.last)
    × (w3.mem.deleted ≡ collected w1.mem.queued c)
held-waits_example =
    held-waits 2 0 1 1 w1 w3 (omega arith) (λ e. absurd (omega arith)) reach1 held_meanwhile refl

due-apart_example :
    (w2.pc 1 ≢ releasing 1)
    × (w2.pc 1 ≢ filled 1)
    × (w2.mem.free_head ≢ w2.mem.free_tail → w2.mem.free_head ≢ 1)
due-apart_example =
    due-apart 2 1 w2 0 1 1 (omega arith) (λ e. absurd (omega arith)) (later reach1 step2)
      (omega arith)

Reach-Inv_example : Inv 2 w3.mem w3.pc
Reach-Inv_example = Reach-Inv (omega arith) (λ e. absurd (omega arith)) reach3

Finishing-bounded_example :
    (1
        + work 2
            (record { mem = linked_to 1 5 w3.mem; pc = update w3.pc 1 (checking 1 (rcount_of 2)) })
      ≤ work 2 w3)
Finishing-bounded_example =
    Finishing-bounded (omega arith) (λ e. absurd (omega arith)) reach3
      (and_then 1 so_far (omega arith) (λ e. absurd (cc)) link)

calls-finish_example :
    (k : ℕ) × (t : System) × Finishing 2 w3 k t
    × ((i : ℕ) → i < 2 → t.pc i ≡ idle)
    × (k ≤ work 2 w3)
    × (t.mem.deleted ≡ collected t.mem.queued t.mem.last)
calls-finish_example = calls-finish 2 1 w3 (omega arith) (λ e. absurd (omega arith)) reach3

-- The proxy as a call of its own meets it: the node at 5 is filled.
abbrev before : StpcProxy
before = record (stpc_new_proxy 1) {
  heap =
      put_node 5 (record zero_node { free_data = 7; payload = 9 })
        (put_node 1 (record zero_node { count = 3 }) (λ _. zero_node));
}

abbrev or_same : StpcProxy → Option StpcProxy → StpcProxy
or_same s none = s
or_same s (some t) = t

abbrev after : StpcProxy
after = or_same before (queue_node 3 1 5 before)

before-Matches : Matches (counted 5 before) v1.mem
unfolding stpc_new_proxy
before-Matches = (λ a. ground arith, refl, refl, refl, refl, refl)

queue_node-Ran_example : Ran 2 v1 v1.pc 0 after
unfolding queue_node drop_proxy_node_reference drop_loop link_node delete_data release_node
    count_try to_int stpc_new_proxy
queue_node-Ran_example =
    queue_node-Ran 3 1 2 0 5 before after v1 (omega arith) refl before-Matches refl
