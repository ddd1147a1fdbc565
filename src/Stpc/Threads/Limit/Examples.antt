-- ===== src/Stpc/Threads/Limit/Examples.antt =====
-- stpc/stpc.c with a limit of two nodes, at small inputs.
use atomic_ptr_plus.Base.{◌+◌, ◌%◌, ◌≡◌, ◌≤◌, ◌<◌, refl, arith, sum_to}
use atomic_ptr_plus.Stpc.Threads.{Reach}
use atomic_ptr_plus.Stpc.Threads.Limit.{
  outside, saw_none, reserved, Limited, enter, see_none, reserve, refuse, alloc_null, new_limited,
  Counted, begin, follow,
}
use atomic_ptr_plus.Stpc.Threads.Limit.Accounts.{fills, pending, Counted-num_nodes}

-- Two agents see no free node; the first counts one, which `allocMem` does not give.
abbrev l0 : Limited
l0 = new_limited 1

abbrev l1 : Limited
l1 = enter 0 saw_none l0

abbrev l2 : Limited
l2 = enter 1 saw_none l1

abbrev l3 : Limited
l3 = record (enter 0 reserved l2) { num_nodes = (l2.num_nodes + 1) % 4294967296 }

abbrev l4 : Limited
l4 = record (enter 0 outside l3) { failed = l3.failed + 1 }

-- The second agent then has no node to count.
abbrev l5 : Limited
l5 = enter 1 outside l4

counted5 : Counted 2 2 1 l5
counted5 =
    let c1 : Counted 2 2 1 l1 = follow 0 begin (omega arith) (see_none refl refl refl) in
    let c2 : Counted 2 2 1 l2 = follow 1 c1 (omega arith) (see_none refl refl refl) in
    let c3 : Counted 2 2 1 l3 = follow 0 c2 (omega arith) (reserve refl (omega arith)) in
    let c4 : Counted 2 2 1 l4 = follow 0 c3 (omega arith) (alloc_null refl) in
    follow 1 c4 (omega arith) (refuse refl (omega arith))

Counted-num_nodes_example :
    Reach 2 1 l5.system
    × (l5.system.mem.last + 1 + sum_to fills 2 l5.system.pc + sum_to pending 2 l5.phase + 1 ≡ 2)
    × (l5.num_nodes ≤ 2)
    × (l5.failed < 2)
Counted-num_nodes_example =
    Counted-num_nodes 2 2 1 l5 (omega arith) (λ e. absurd (omega arith)) (omega arith) (omega arith)
      counted5
