-- ===== src/Stpc/Threads/Reached.antt =====
-- stpc/stpc.c: what holds whatever the agents do, in any order.
use atomic_ptr_plus.Base.{ℕ, ◌<◌, ◌≢◌, refl, arith, sum_to-zero}
use atomic_ptr_plus.Fifo.{Ptr, null}
use atomic_ptr_plus.Stpc.Threads.{System, Step, pick, Reach, start, later, new_system, idle}
use atomic_ptr_plus.Stpc.Threads.Dues.{due, odd_due, leaves, deletes}
use atomic_ptr_plus.Stpc.Threads.Shape.{Inv, collected}
use atomic_ptr_plus.Stpc.Threads.Chain.{Move-Chained}
use atomic_ptr_plus.Stpc.Threads.Own.{Move-Sound}
use atomic_ptr_plus.Stpc.Threads.Balance.{Move-Balanced}
use atomic_ptr_plus.Stpc.Threads.Links.{Move-Linked}
use atomic_ptr_plus.Stpc.Threads.Log.{Move-Logged}

new_system-Inv :
    (n : ℕ) (node : Ptr)
    → n < 4611686018427387904
    → node ≢ null
    → Inv n (new_system node).mem (new_system node).pc
unfolding collected
new_system-Inv n node few real = record {
  agents = few;
  chained = record {
    free-le = omega arith;
    first-le = omega arith;
    real = λ k from to. real;
    distinct = λ j k fj tj fk tk e. omega arith;
    is_tail = refl;
    is_free_head = refl;
    is_free_tail = refl;
    even = refl;
    few = omega arith;
  };
  balanced = record {
    balance = λ k from to. ground (arith, sum_to-zero (due node) n idle refl);
    single = λ k from to. ground (arith, sum_to-zero (odd_due node) n idle refl);
    alone = λ some_leave. absurd (omega (arith, sum_to-zero leaves n idle refl));
    charge = λ below. absurd (omega arith);
  };
  sound = record {
    stands = λ i. tt;
    has_due = λ i. tt;
    odd_link = λ i. tt;
    beyond = λ i out. refl;
    unlike = λ i j p fi fj. absurd (cc);
  };
  logged = record {
    counted = omega (arith, sum_to-zero deletes n idle refl);
    one = omega (arith, sum_to-zero deletes n idle refl);
    log = refl;
    waits = λ k from to. absurd (omega arith);
  };
  linked = λ k from below. absurd (omega arith);
}

pub Step-Inv : {n : ℕ} {s t : System} → Step n s t → Inv n s.mem s.pc → Inv n t.mem t.pc
Step-Inv (pick i lt mv) inv = record {
  agents = inv.agents;
  chained = Move-Chained inv i lt refl mv;
  balanced = Move-Balanced inv i lt refl mv;
  sound = Move-Sound inv i lt refl mv;
  logged = Move-Logged inv i lt refl mv;
  linked = Move-Linked inv i lt refl mv;
}

-- In every state that is reached, whatever the agents do and in any order, the nodes form a chain,
-- and the count of each agrees with the references held and the work under way.
pub Reach-Inv :
    {n : ℕ} {node : Ptr} {s : System}
    → n < 4611686018427387904
    → node ≢ null
    → Reach n node s
    → Inv n s.mem s.pc
Reach-Inv {n} {node} few real start = new_system-Inv n node few real
Reach-Inv few real (later r st) = Step-Inv st (Reach-Inv few real r)
