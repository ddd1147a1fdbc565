-- ===== src/Rcu/Linked/Rounds.antt =====
-- The loop of `rcu_scan` of fastsmr/rcuscan.c on the linked ring and on the list of its nodes.
use atomic_ptr_plus.Base.{
  ℕ, zero, suc, ◌+◌, ◌<◌, ◌≡◌, ◌≢◌, ◌⊎◌, refl, sym, ◌∙◌, ap, true, false, List, [], ◌∷◌, ◌++◌,
  arith, nodup, some, get_elem?, modify, length, Bool-cases, inl, inr, ==_yes, ==_no,
}
use atomic_ptr_plus.Fifo.{Ptr, Links}
use atomic_ptr_plus.Fifo.Chain.{Chain}
use atomic_ptr_plus.Rcu.State.{World, state_idle}
use atomic_ptr_plus.Rcu.Enqueue.{rcu_requeue}
use atomic_ptr_plus.Rcu.Scan.{
  Answer, Answers, quiesced, note_node, note_stats, queue1_at, shift_work, pass_node, stall_node,
  scan_from, scan_from-pass, scan_from-stall,
}
use atomic_ptr_plus.Rcu.Linked.{Store, set_node, requeue_queue1}
use atomic_ptr_plus.Rcu.Linked.Calls.{shift_linked, note_linked, stall_linked, scan_rounds}
use atomic_ptr_plus.Rcu.Linked.Chains.{Chain-nodup}
use atomic_ptr_plus.Rcu.Linked.View.{
  view, Heads, has-get_elem?, get_elem?-map, view-set_node, view-requeue,
}

-- `next` leads from the `i`th node to the one behind it, and from the last out of the chain.
Chain-next :
    (h : Links) (c : Ptr) (ps : List Ptr) (stop : Ptr) (i : ℕ) (p : Ptr)
    → Chain h c ps stop
    → get_elem? ps i ≡ some p
    → (get_elem? ps (suc i) ≡ some (h p)) ⊎ ((suc i ≡ length ps) × (h p ≡ stop))
Chain-next h c [] stop i p chain at = ground arith
Chain-next h c (x ∷ []) stop zero p chain at = inr (refl, ground arith)
Chain-next h c (x ∷ y ∷ ps) stop zero p chain at = inl (ground arith)
Chain-next h c (x ∷ ps) stop (suc i) p chain at = elim (Chain-next h (h x) ps stop i p chain.3 at) [
  | inl next ↦ inl next
  | inr (end, out) ↦ inr (ap suc end, out)
]

get_elem?-lt : (ps : List Ptr) (i : ℕ) (p : Ptr) → get_elem? ps i ≡ some p → i < length ps
get_elem?-lt [] i p at = ground arith
get_elem?-lt (x ∷ ps) zero p at = omega arith
get_elem?-lt (x ∷ ps) (suc i) p at = omega (arith, get_elem?-lt ps i p at)

-- What happens to one node, where it is the `i`th of the distinct nodes `ps`.
module _ (ps : List Ptr) (current_node : Ptr) (h : Heads current_node ps)
    (once : nodup ps ≡ true) where
  pub view-shift :
      (i : ℕ) (p : Ptr) (s : Store)
      → get_elem? ps i ≡ some p
      → view ps (shift_linked current_node p s) ≡ shift_work i (view ps s)
  unfolding shift_linked requeue_queue1 shift_work
  view-shift i p s at =
      view-set_node ps i p (λ n. record n { queue1 = n.queue1 ++ n.queue0; queue0 = [] })
        (requeue_queue1 current_node p s) at once
      ∙ ap
          (λ (w : World). record w {
            nodes = modify i (λ n. record n { queue1 = n.queue1 ++ n.queue0; queue0 = [] }) w.nodes;
          })
          requeued
    where
      emptied : Store
      emptied = set_node p (record (s.node p) { queue1 = [] }) s

      requeued :
          view ps (requeue_queue1 current_node p s)
          ≡ rcu_requeue (queue1_at i (view ps s).nodes) (record (view ps s) {
            nodes = modify i (λ n. record n { queue1 = [] }) (view ps s).nodes;
          })
      requeued =
          view-requeue current_node ps (s.node p).queue1 emptied h
          ∙ rw (get_elem?-map s.node ps i p at, queue1_at)
              (ap (rcu_requeue (s.node p).queue1)
                (view-set_node ps i p (λ n. record n { queue1 = [] }) s at once))

  view-pass :
      (left i : ℕ) (a : Answer) (p q : Ptr) (s : Store)
      → get_elem? ps i ≡ some p
      → get_elem? ps (elim left [ zero ↦ 0 | suc _ ↦ suc i ]) ≡ some q
      → view ps (shift_linked current_node q (note_linked a p s)) ≡ pass_node left i a (view ps s)
  unfolding pass_node note_linked
  view-pass left i a p q s at to =
      view-shift (elim left [ zero ↦ 0 | suc _ ↦ suc i ]) q (note_linked a p s) to
      ∙ ap (shift_work (elim left [ zero ↦ 0 | suc _ ↦ suc i ])) (
          view-set_node ps i p (note_node a) (record s { globals = note_stats a s.globals }) at
            once)

  view-stall :
      (i : ℕ) (p : Ptr) (s : Store)
      → get_elem? ps i ≡ some p
      → view ps (stall_linked p s) ≡ stall_node i (view ps s)
  unfolding stall_linked stall_node
  view-stall i p s at =
      view-set_node ps i p (λ n. record n { state = state_idle })
        (record s {
          globals = record s.globals {
            stats = record s.globals.stats { idle = s.globals.stats.idle + 1 };
          };
        })
        at once

-- Where the loop stopped: at the `j`th node, or behind the last, which is the current node again.
abbrev pub Stops : List Ptr → Ptr → ℕ → Ptr → Type 0
Stops ps current_node j q = (get_elem? ps j ≡ some q) ⊎ ((j ≡ length ps) × (q ≡ current_node))

-- The loop on the linked ring from `node` on, and that on the list from `i` on.
pub record Agrees (fuel left i : ℕ) (ask : Answers) (next : Links) (ps : List Ptr)
    (current_node node : Ptr) (s : Store) : Type 0 where
  pub s' : Store
  pub q : Ptr
  pub j : ℕ
  pub linked : scan_rounds fuel ask next current_node node s ≡ some (s', q)
  pub listed : scan_from (suc left) i ask (view ps s) ≡ (view ps s', j)
  pub stops : Stops ps current_node j q

module _ (next : Links) (x : Ptr) (xs : List Ptr) (chain : Chain next x (x ∷ xs) x) where
  abbrev ps : List Ptr
  ps = x ∷ xs

  once : nodup (x ∷ xs) ≡ true
  once = Chain-nodup next x (x ∷ xs) x chain

  heads : Heads x (x ∷ xs)
  heads = (refl, chain.1, chain.2)

  -- The store after the round of a node that has passed a quiescent point.
  abbrev shifted : Answers → Ptr → Store → Store
  shifted ask node s = shift_linked x (next node) (note_linked (ask (s.node node).qhandle) node s)

  module _ (fuel : ℕ) (ask : Answers) (node : Ptr) (s : Store) where
    scan_rounds-stall :
        quiesced (ask (s.node node).qhandle) (s.node node) ≡ false
        → scan_rounds (suc fuel) ask next x node s ≡ some (stall_linked node s, node)
    unfolding scan_rounds
    scan_rounds-stall not_passed = rw not_passed refl

    scan_rounds-end :
        quiesced (ask (s.node node).qhandle) (s.node node) ≡ true
        → next node ≡ x
        → scan_rounds (suc fuel) ask next x node s ≡ some (shifted ask node s, next node)
    unfolding scan_rounds
    scan_rounds-end passed e = rw (passed, ==_yes (next node) x e) refl

    scan_rounds-next :
        quiesced (ask (s.node node).qhandle) (s.node node) ≡ true
        → next node ≢ x
        → scan_rounds (suc fuel) ask next x node s
          ≡ scan_rounds fuel ask next x (next node) (shifted ask node s)
    unfolding scan_rounds
    scan_rounds-next passed ne = rw (passed, ==_no (next node) x ne) refl

  -- A round that stops the loop, a round at the last node, and any other.
  Agrees-stall :
      (fuel left i : ℕ) (ask : Answers) (node : Ptr) (s : Store)
      → get_elem? (x ∷ xs) i ≡ some node
      → quiesced (ask (s.node node).qhandle) (s.node node) ≡ false
      → Agrees (suc fuel) left i ask next (x ∷ xs) x node s
  Agrees-stall fuel left i ask node s at not_passed = record {
    s' = stall_linked node s;
    q = node;
    j = i;
    linked = scan_rounds-stall fuel ask node s not_passed;
    listed =
        scan_from-stall left i ask (view (x ∷ xs) s) (s.node node)
          (get_elem?-map s.node (x ∷ xs) i node at) not_passed
        ∙ ap (λ (w : World). (w, i)) (sym (view-stall (x ∷ xs) x heads once i node s at));
    stops = inl at;
  }

  Agrees-end :
      (fuel i : ℕ) (ask : Answers) (node : Ptr) (s : Store)
      → get_elem? (x ∷ xs) i ≡ some node
      → quiesced (ask (s.node node).qhandle) (s.node node) ≡ true
      → suc i ≡ length (x ∷ xs)
      → next node ≡ x
      → Agrees (suc fuel) zero i ask next (x ∷ xs) x node s
  unfolding scan_from
  Agrees-end fuel i ask node s at passed end e = record {
    s' = shifted ask node s;
    q = next node;
    j = suc i;
    linked = scan_rounds-end fuel ask node s passed e;
    listed =
        scan_from-pass zero i ask (view (x ∷ xs) s) (s.node node)
          (get_elem?-map s.node (x ∷ xs) i node at) passed
        ∙ ap (λ (w : World). (w, suc i))
            (sym (
              view-pass (x ∷ xs) x heads once zero i (ask (s.node node).qhandle) node (next node) s
                at (ground (arith, e))));
    stops = inr (end, e);
  }

  Agrees-next :
      (fuel left i : ℕ) (ask : Answers) (node : Ptr) (s : Store)
      → get_elem? (x ∷ xs) i ≡ some node
      → quiesced (ask (s.node node).qhandle) (s.node node) ≡ true
      → get_elem? xs i ≡ some (next node)
      → Agrees fuel left (suc i) ask next (x ∷ xs) x (next node) (shifted ask node s)
      → Agrees (suc fuel) (suc left) i ask next (x ∷ xs) x node s
  Agrees-next fuel left i ask node s at passed to rest = record {
    s' = rest.s';
    q = rest.q;
    j = rest.j;
    linked =
        scan_rounds-next fuel ask node s passed
          (λ e. ground (arith, has-get_elem? xs i (next node) to, chain.2))
        ∙ rest.linked;
    listed =
        scan_from-pass (suc left) i ask (view (x ∷ xs) s) (s.node node)
          (get_elem?-map s.node (x ∷ xs) i node at) passed
        ∙ ap (scan_from (suc left) (suc i) ask) (
            sym (
              view-pass (x ∷ xs) x heads once (suc left) i (ask (s.node node).qhandle) node
                (next node) s at to))
        ∙ rest.listed;
    stops = rest.stops;
  }

  -- The two loops agree, with fuel for each node left.
  pub scan_rounds-Agrees :
      (fuel left i : ℕ) (ask : Answers) (node : Ptr) (s : Store)
      → get_elem? (x ∷ xs) i ≡ some node
      → suc i + left ≡ length (x ∷ xs)
      → left < fuel
      → Agrees fuel left i ask next (x ∷ xs) x node s
  scan_rounds-Agrees zero left i ask node s at room enough = absurd (omega arith)
  scan_rounds-Agrees (suc fuel) zero i ask node s at room enough =
      elim (Bool-cases (quiesced (ask (s.node node).qhandle) (s.node node))) [
        | inl passed ↦ elim (Chain-next next x (x ∷ xs) x i node chain at) [
          | inl more ↦ absurd (omega (arith, get_elem?-lt (x ∷ xs) (suc i) (next node) more))
          | inr (end, e) ↦ Agrees-end fuel i ask node s at passed end e
        ]
        | inr not_passed ↦ Agrees-stall fuel zero i ask node s at not_passed
      ]
  scan_rounds-Agrees (suc fuel) (suc left) i ask node s at room enough =
      elim (Bool-cases (quiesced (ask (s.node node).qhandle) (s.node node))) [
        | inl passed ↦ elim (Chain-next next x (x ∷ xs) x i node chain at) [
          | inl more ↦ Agrees-next fuel left i ask node s at passed more (
              scan_rounds-Agrees fuel left (suc i) ask (next node) (shifted ask node s) more
                (omega arith) (omega arith))
          | inr (end, e) ↦ absurd (omega arith)
        ]
        | inr not_passed ↦ Agrees-stall fuel (suc left) i ask node s at not_passed
      ]
