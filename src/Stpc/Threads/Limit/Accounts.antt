-- ===== src/Stpc/Threads/Limit/Accounts.antt =====
-- The account of the nodes of stpc/stpc.c: what numNodes counts.
use atomic_ptr_plus.Base.{
  ℕ, ◌+◌, ◌<◌, ◌≤◌, ◌≡◌, ◌≢◌, refl, true, arith, update, sum_to, sum_to-update, sum_to-zero, ap,
}
use atomic_ptr_plus.Fifo.{Ptr, null}
use atomic_ptr_plus.Stpc.Threads.{
  Shared, Pc, Move, pick, Reach, start, later, idle, filled, get, drop, check_last, check_more,
  subtract_last, subtract_more, release, delete, pop, give_back, alloc, swap, link,
}
use atomic_ptr_plus.Stpc.Threads.Reached.{Reach-Inv}
use atomic_ptr_plus.Stpc.Threads.Limit.{
  Phase, outside, saw_none, reserved, trying, freeing, Limited, plain, Act, plainly, see_none,
  reserve, refuse, alloc_node, alloc_null, try_delete, give_up, free_node, subtract_end,
  subtract_again, Counted, begin, follow,
}

-- The nodes that agents have in their hands: filled, counted but not there yet, or freed but still
-- counted.
abbrev pub fills : Pc → ℕ
fills (filled p) = 1
fills _ = 0

abbrev pub pending : Phase → ℕ
pending reserved = 1
pending freeing = 1
pending _ = 0

pub record Accounts (n max_nodes : ℕ) (l : Limited) : Type 0 where
  pub idle_in : (i : ℕ) → l.phase i ≢ outside → l.system.pc i ≡ idle
  pub account :
      l.system.mem.last + 1 + sum_to fills n l.system.pc + sum_to pending n l.phase + l.failed
      ≡ l.num_nodes + l.system.mem.free
  pub bound : l.num_nodes ≤ max_nodes

-- A step outside of the phases moves nodes, but makes and frees none.
Move-nodes :
    {pcs : ℕ → Pc} {m m' : Shared} {p p' : Pc} (mv : Move pcs m p m' p')
    → plain mv ≡ true
    → m'.last + fills p' + m.free ≡ m.last + fills p + m'.free
Move-nodes (get few) e = refl
Move-nodes drop e = refl
Move-nodes (check_last g) e = refl
Move-nodes (check_more g) e = refl
Move-nodes (subtract_last g) e = refl
Move-nodes (subtract_more g) e = refl
Move-nodes release e = refl
Move-nodes delete e = refl
Move-nodes (pop free_data payload g) e = omega arith
Move-nodes (give_back g) e = absurd (cc)
Move-nodes (alloc p free_data payload g) e = absurd (cc)
Move-nodes swap e = omega arith
Move-nodes link e = refl

-- The steps of the phases are steps of the calls, or leave the proxy alone but for numNodes.
module _ {n max_nodes : ℕ} {node : Ptr} where
  Act-Reach :
      {l : Limited} (i : ℕ) {l' : Limited}
      → ((j : ℕ) → l.phase j ≢ outside → l.system.pc j ≡ idle)
      → i < n
      → Reach n node l.system
      → Act max_nodes l i l'
      → Reach n node l'.system
  Act-Reach i is_idle lt r (plainly e mv pl) = later r (pick i lt mv)
  Act-Reach i is_idle lt r (see_none e f g) = r
  Act-Reach i is_idle lt r (reserve e g) = r
  Act-Reach i is_idle lt r (refuse e g) = r
  Act-Reach {l} i is_idle lt r (alloc_node p free_data payload e g) =
      let at : l.system.pc i ≡ idle = is_idle i (λ o. cc) in
      later r (pick i lt (rw at (alloc p free_data payload g)))
  Act-Reach i is_idle lt r (alloc_null e) = r
  Act-Reach i is_idle lt r (try_delete e f g) = r
  Act-Reach i is_idle lt r (give_up e) = r
  Act-Reach {l} i is_idle lt r (free_node e g) =
      let at : l.system.pc i ≡ idle = is_idle i (λ o. cc) in
      later r (pick i lt (rw at (give_back g)))
  Act-Reach i is_idle lt r (subtract_end e) = r
  Act-Reach i is_idle lt r (subtract_again e g) = r

Act-idle_in :
    {max_nodes : ℕ} {l : Limited} (i : ℕ) {l' : Limited}
    → ((j : ℕ) → l.phase j ≢ outside → l.system.pc j ≡ idle)
    → Act max_nodes l i l'
    → (j : ℕ) → l'.phase j ≢ outside
    → l'.system.pc j ≡ idle
Act-idle_in i is_idle (plainly e mv pl) j some_phase = ground (arith, is_idle j)
Act-idle_in i is_idle (see_none e f g) j some_phase = ground (arith, is_idle j)
Act-idle_in i is_idle (reserve e g) j some_phase = ground (arith, is_idle j)
Act-idle_in i is_idle (refuse e g) j some_phase = ground (arith, is_idle j)
Act-idle_in i is_idle (alloc_node p free_data payload e g) j some_phase = ground (arith, is_idle j)
Act-idle_in i is_idle (alloc_null e) j some_phase = ground (arith, is_idle j)
Act-idle_in i is_idle (try_delete e f g) j some_phase = ground (arith, is_idle j)
Act-idle_in i is_idle (give_up e) j some_phase = ground (arith, is_idle j)
Act-idle_in i is_idle (free_node e g) j some_phase = ground (arith, is_idle j)
Act-idle_in i is_idle (subtract_end e) j some_phase = ground (arith, is_idle j)
Act-idle_in i is_idle (subtract_again e g) j some_phase = ground (arith, is_idle j)

-- The account and its bound, after one step of an agent.
module _ {n max_nodes : ℕ} {l : Limited} (i : ℕ) (lt : i < n) (small : max_nodes < 4294967296)
    (inv : Accounts n max_nodes l) (below : l.system.mem.free ≤ l.system.mem.last) where
  open inv use {idle_in, account, bound}

  abbrev Counts : Limited → Type 0
  Counts l' =
      (l'.system.mem.last + 1 + sum_to fills n l'.system.pc + sum_to pending n l'.phase + l'.failed
        ≡ l'.num_nodes + l'.system.mem.free)
      × (l'.num_nodes ≤ max_nodes)

  phases :
      (p : Phase)
      → pending (l.phase i) + sum_to pending n (update l.phase i p)
        ≡ pending p + sum_to pending n l.phase
  phases p = sum_to-update pending n l.phase i p lt

  hands :
      (p : Pc)
      → fills (l.system.pc i) + sum_to fills n (update l.system.pc i p)
        ≡ fills p + sum_to fills n l.system.pc
  hands p = sum_to-update fills n l.system.pc i p lt

  Act-Counts : {l' : Limited} → Act max_nodes l i l' → Counts l'
  Act-Counts (plainly {m} {p} e mv pl) = (omega (arith, account, hands p, Move-nodes mv pl), bound)
  Act-Counts (see_none e f g) = (omega (arith, account, phases saw_none, ap pending e), bound)
  Act-Counts (reserve e g) =
      (omega (arith, account, phases reserved, ap pending e), omega (arith, g, bound))
  Act-Counts (refuse e g) = (omega (arith, account, phases outside, ap pending e), bound)
  Act-Counts (alloc_node p free_data payload e g) = (
    omega (
      arith,
      account,
      phases outside,
      ap pending e,
      hands (filled p),
      ap fills (idle_in i (λ o. cc)),
    ),
    bound,
  )
  Act-Counts (alloc_null e) = (omega (arith, account, phases outside, ap pending e), bound)
  Act-Counts (try_delete e f g) = (omega (arith, account, phases trying, ap pending e), bound)
  Act-Counts (give_up e) = (omega (arith, account, phases outside, ap pending e), bound)
  Act-Counts (free_node e g) = (
    omega
        (arith, account, phases freeing, ap pending e, hands idle, ap fills (idle_in i (λ o. cc))),
    bound,
  )
  Act-Counts (subtract_end e) = (
    omega (arith, account, bound, below, phases outside, ap pending e),
    omega (arith, account, bound, below),
  )
  Act-Counts (subtract_again e g) = (
    omega (arith, account, bound, below, phases trying, ap pending e),
    omega (arith, account, bound, below),
  )

  Act-Accounts : {l' : Limited} → Act max_nodes l i l' → Accounts n max_nodes l'
  Act-Accounts a = record {
    idle_in = Act-idle_in i idle_in a;
    account = (Act-Counts a).0;
    bound = (Act-Counts a).1;
  }

module _ {n max_nodes : ℕ} {node : Ptr} where
  Counted-Accounts :
      {l : Limited}
      → n < 4611686018427387904
      → node ≢ null
      → 1 ≤ max_nodes
      → max_nodes < 4294967296
      → Counted n max_nodes node l
      → Reach n node l.system × Accounts n max_nodes l
  Counted-Accounts few real some_room small begin = (
    start,
    record {
      idle_in = λ i o. refl;
      account = omega (arith, sum_to-zero fills n idle refl, sum_to-zero pending n outside refl);
      bound = some_room;
    },
  )
  Counted-Accounts few real some_room small (follow {l} i c lt a) =
      let (r, inv) = Counted-Accounts few real some_room small c in
      let chained = (Reach-Inv few real r).chained in
      (
        Act-Reach i inv.idle_in lt r a,
        Act-Accounts i lt small inv (omega (arith, chained.free-le, chained.first-le)) a,
      )

-- In every state that is reached, whatever the agents do and in any order: the proxy is in a state
-- that the calls reach without a limit; numNodes is the number of nodes of the chain and in the hands
-- of agents, and of the failures of `allocMem`; it is at most maxNodes, so `allocMem` has failed less
-- often than that.
pub Counted-num_nodes :
    (n max_nodes : ℕ) (node : Ptr) (l : Limited)
    → n < 4611686018427387904
    → node ≢ null
    → 1 ≤ max_nodes
    → max_nodes < 4294967296
    → Counted n max_nodes node l
    → Reach n node l.system
      × (l.system.mem.last + 1 + sum_to fills n l.system.pc + sum_to pending n l.phase + l.failed
          ≡ l.num_nodes + l.system.mem.free)
      × (l.num_nodes ≤ max_nodes)
      × (l.failed < max_nodes)
Counted-num_nodes n max_nodes node l few real some_room small c =
    let (r, inv) = Counted-Accounts few real some_room small c in
    let chained = (Reach-Inv few real r).chained in
    (
      r,
      inv.account,
      inv.bound,
      omega (arith, inv.account, inv.bound, chained.free-le, chained.first-le),
    )
