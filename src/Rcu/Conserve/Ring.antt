-- ===== src/Rcu/Conserve/Ring.antt =====
-- fastsmr/rcuscan.c: the operations on the ring of nodes neither lose nor duplicate work.
use atomic_ptr_plus.Base.{
  ℕ, zero, suc, ◌+◌, ◌≡◌, refl, ◌∙◌, List, [], ◌∷◌, ◌++◌, inl, inr, arith, ◌==◌, count,
  count-append, Bool-cases, Option-cases, length, modify, get_elem?, drop, take,
}
use atomic_ptr_plus.Rcu.State.{RcuNode, World, state_idle}
use atomic_ptr_plus.Rcu.Enqueue.{rcu_requeue}
use atomic_ptr_plus.Rcu.Scan.{
  Answer, Answers, pass_node, stall_node, rcu_add_node, give_last, unlink_after, delete_from,
  rcu_delete_node, shutdown_rounds, rcu_shutdown2, quiesced, note_node, note_stats, queue1_at,
  shift_work, scan_from, rotate, rcu_scan, scan_from-out, scan_from-pass, scan_from-stall,
  handle_of, shutdown_rounds-none, shutdown_rounds-some,
}
use atomic_ptr_plus.Rcu.Conserve.{Test, count_nodes, queued, queued-rcu_requeue}

module _ (a : Test) where
  abbrev count_node : RcuNode → ℕ
  count_node n = count a n.queue0 + count a n.queue1

  count_nodes-append :
      (ns ms : List RcuNode) → count_nodes a (ns ++ ms) ≡ count_nodes a ns + count_nodes a ms
  count_nodes-append [] ms = omega arith
  count_nodes-append (n ∷ ns) ms = omega (arith, count_nodes-append ns ms)

  count_nodes-rotate : (i : ℕ) (ns : List RcuNode) → count_nodes a (rotate i ns) ≡ count_nodes a ns
  count_nodes-rotate i ns = omega (arith, count_nodes-append (drop i ns) (take i ns), split i ns)
    where
      split :
          (i : ℕ) (ns : List RcuNode)
          → count_nodes a (drop i ns) + count_nodes a (take i ns) ≡ count_nodes a ns
      split zero ns = omega arith
      split (suc i) [] = omega arith
      split (suc i) (n ∷ ns) = omega (arith, split i ns)

  -- A change that keeps how many chosen items are on the node.
  pub count_nodes-modify :
      (f : RcuNode → RcuNode) (i : ℕ) (ns : List RcuNode)
      → ((n : RcuNode) → count_node (f n) ≡ count_node n)
      → count_nodes a (modify i f ns) ≡ count_nodes a ns
  count_nodes-modify f i [] same = refl
  count_nodes-modify f zero (n ∷ ns) same = omega (arith, same n)
  count_nodes-modify f (suc i) (n ∷ ns) same = omega (arith, count_nodes-modify f i ns same)

  pub count_nodes-take_queue1 :
      (i : ℕ) (ns : List RcuNode)
      → count_nodes a (modify i (λ n. record n { queue1 = [] }) ns) + count a (queue1_at i ns)
        ≡ count_nodes a ns
  count_nodes-take_queue1 i [] = refl
  count_nodes-take_queue1 zero (n ∷ ns) = omega arith
  count_nodes-take_queue1 (suc i) (n ∷ ns) = omega (arith, count_nodes-take_queue1 i ns)

  pub queued-shift_work : (i : ℕ) (w : World) → queued a (shift_work i w) ≡ queued a w
  unfolding shift_work
  queued-shift_work i w = omega (
    arith,
    count_nodes-modify (λ n. record n { queue1 = n.queue1 ++ n.queue0; queue0 = [] }) i
        (rcu_requeue (queue1_at i w.nodes) emptied).nodes
        (λ n. omega (arith, count-append a n.queue1 n.queue0)),
    queued-rcu_requeue a (queue1_at i w.nodes) emptied,
    count_nodes-take_queue1 i w.nodes,
  )
    where
      emptied : World
      emptied = record w { nodes = modify i (λ n. record n { queue1 = [] }) w.nodes }

  pub queued-pass_node :
      (left i : ℕ) (p : Answer) (w : World) → queued a (pass_node left i p w) ≡ queued a w
  unfolding pass_node
  queued-pass_node left i p w = omega (
    arith,
    queued-shift_work (elim left [ zero ↦ 0 | suc _ ↦ suc i ])
        (record (note_stats p w) { nodes = modify i (note_node p) w.nodes }),
    count_nodes-modify (note_node p) i w.nodes (λ n. refl),
  )

  pub queued-stall_node : (i : ℕ) (w : World) → queued a (stall_node i w) ≡ queued a w
  unfolding stall_node
  queued-stall_node i w =
      omega (arith, count_nodes-modify (λ m. record m { state = state_idle }) i w.nodes (λ n. refl))

  queued-scan_from :
      (left i : ℕ) (ask : Answers) (w : World) → queued a (scan_from left i ask w).0 ≡ queued a w
  unfolding scan_from
  queued-scan_from zero i ask w = refl
  queued-scan_from (suc left) i ask w = elim (Option-cases (get_elem? w.nodes i)) [
    | inl out ↦ rw (scan_from-out left i ask w out) refl
    | inr (n, at) ↦ elim (Bool-cases (quiesced (ask n.qhandle) n)) [
      | inl passed ↦ rw (scan_from-pass left i ask w n at passed) (
          queued-scan_from left (suc i) ask (pass_node left i (ask n.qhandle) w)
          ∙ queued-pass_node left i (ask n.qhandle) w)
      | inr not_passed ↦ rw (scan_from-stall left i ask w n at not_passed) (queued-stall_node i w)
    ]
  ]

  -- A scan for quiescent points moves work between queues, but queues each item as often as before.
  pub queued-rcu_scan : (ask : Answers) (w : World) → queued a (rcu_scan ask w) ≡ queued a w
  unfolding rcu_scan
  queued-rcu_scan ask w = omega (
    arith,
    queued-scan_from (length w.nodes) 0 ask w,
    count_nodes-rotate (scan_from (length w.nodes) 0 ask w).1
        (scan_from (length w.nodes) 0 ask w).0.nodes,
  )

  -- So does the registration of a node.
  pub queued-rcu_add_node :
      (qhandle : ℕ) (ask : Answers) (w : World) → queued a (rcu_add_node qhandle ask w) ≡ queued a w
  unfolding rcu_add_node
  queued-rcu_add_node qhandle ask w = omega (arith, count_nodes-append w.nodes)

  count_nodes-give_last :
      (node : RcuNode) (n : RcuNode) (ns : List RcuNode)
      → count_nodes a (give_last node (n ∷ ns)) ≡ count_node node + count_nodes a (n ∷ ns)
  count_nodes-give_last node n [] =
      omega (arith, count-append a n.queue0 node.queue0, count-append a n.queue1 node.queue1)
  count_nodes-give_last node n (m ∷ ns) = omega (arith, count_nodes-give_last node m ns)

  count_nodes-unlink_after :
      (qhandle : ℕ) (prev : RcuNode) (ns : List RcuNode)
      → count_nodes a (unlink_after qhandle prev ns) ≡ count_nodes a (prev ∷ ns)
  count_nodes-unlink_after qhandle prev [] = refl
  count_nodes-unlink_after qhandle prev (n ∷ ns) = elim (Bool-cases (n.qhandle == qhandle)) [
    | inl hit ↦
        rw hit
          (omega (arith, count-append a prev.queue0 n.queue0, count-append a prev.queue1 n.queue1))
    | inr miss ↦ rw miss (omega (arith, count_nodes-unlink_after qhandle n ns))
  ]

  queued-delete_from :
      (qhandle : ℕ) (nodes : List RcuNode) (w : World)
      → w.nodes ≡ nodes
      → queued a (delete_from qhandle nodes w) ≡ queued a w
  unfolding delete_from
  queued-delete_from qhandle [] w e = refl
  queued-delete_from qhandle (first ∷ []) w e = elim (Bool-cases (first.qhandle == qhandle)) [
    | inl hit ↦
        rw (hit, e)
          (omega (
            arith,
            queued-rcu_requeue a first.queue1 (rcu_requeue first.queue0 (record w { nodes = [] })),
            queued-rcu_requeue a first.queue0 (record w { nodes = [] }),
          ))
    | inr miss ↦ rw miss refl
  ]
  queued-delete_from qhandle (first ∷ n ∷ ns) w e = elim (Bool-cases (first.qhandle == qhandle)) [
    | inl hit ↦ rw (hit, e) (omega (arith, count_nodes-give_last first n ns))
    | inr miss ↦ rw (miss, e) (omega (arith, count_nodes-unlink_after qhandle first (n ∷ ns)))
  ]

  -- Deleting a node passes its work on: each item is queued as often as before.
  pub queued-rcu_delete_node :
      (qhandle : ℕ) (w : World) → queued a (rcu_delete_node qhandle w) ≡ queued a w
  unfolding rcu_delete_node
  queued-rcu_delete_node qhandle w = queued-delete_from qhandle w.nodes w refl

  queued-shutdown_rounds : (fuel : ℕ) (w : World) → queued a (shutdown_rounds fuel w) ≡ queued a w
  unfolding shutdown_rounds
  queued-shutdown_rounds zero w = refl
  queued-shutdown_rounds (suc fuel) w = elim (Option-cases (handle_of w.nodes)) [
    | inl none_left ↦ rw (shutdown_rounds-none fuel w none_left) refl
    | inr (qhandle, at) ↦
        rw (shutdown_rounds-some fuel w qhandle at) (
          queued-shutdown_rounds fuel (rcu_delete_node qhandle w)
          ∙ queued-rcu_delete_node qhandle w)
  ]

  -- The shutdown of all nodes loses no work.
  pub queued-rcu_shutdown2 : (w : World) → queued a (rcu_shutdown2 w) ≡ queued a w
  unfolding rcu_shutdown2
  queued-rcu_shutdown2 w = queued-shutdown_rounds (length w.nodes) w
