-- ===== src/Stpc/Threads/Alone.antt =====
-- stpc/stpc.c: a call that is not interrupted, as a step of its own and as the steps of one agent.
use atomic_ptr_plus.Base.{
  ℕ, zero, suc, ◌%◌, ◌<◌, ◌≡◌, ◌≢◌, ◌∙◌, ap, arith, update, update-same, update-other, word,
  sub_word, ◌==◌, ==_refl, Bool-cases, Option-cases, true, false, inl, inr, Option, none, some,
}
use mathlib.Core.Path.{subst}
use atomic_ptr_plus.Fifo.{Ptr, null}
use atomic_ptr_plus.Stpc.{
  StpcProxy, put_node, delete_data, release_node, drop_loop, reference,
  stpc_drop_proxy_node_reference, drop_proxy_node_reference, queue_node, link_node, count_try,
}
use atomic_ptr_plus.Stpc.Threads.{
  Shared, Pc, System, idle, holds, checking, subtracting, releasing, deleting, filled, linking,
  drop, check_last, check_more, subtract_more, release, delete, swap, link, run_delete, moved_on,
  subtracted, linked_to, with_tail, rcount_of,
}
use atomic_ptr_plus.Stpc.Threads.Progress.{Finishing, so_far, and_then}
use atomic_ptr_plus.Stpc.Threads.Matches.{
  Matches, counted, release-Matches, delete-Matches, subtract-Matches, linked-Matches,
  count_try-Matches,
}

-- The agent `i` has gone on from `w` to a state in which it is idle, and the others have not moved.
abbrev pub Ran : ℕ → System → (ℕ → Pc) → ℕ → StpcProxy → Type 0
Ran n w pcs i s' =
    (k : ℕ) × (t : System) × Finishing n w k t
    × Matches s' t.mem
    × (t.pc i ≡ idle)
    × ((j : ℕ) → j ≢ i → t.pc j ≡ pcs j)

some-injective : (s t : StpcProxy) → ◌≡◌ {A = Option StpcProxy} (some s) (some t) → s ≡ t
some-injective s t e = cc

drop_loop-last :
    (fuel : ℕ) (p : Ptr) (r : ℕ) (s s' : StpcProxy)
    → r < word
    → (s.heap p).count ≡ r
    → drop_loop (suc fuel) p r s ≡ some s'
    → drop_loop fuel (s.heap p).next reference (delete_data (s.heap p).next (release_node s))
      ≡ some s'
unfolding drop_loop
drop_loop-last fuel p r s s' bound last out =
    let small : r % word ≡ r = omega arith in
    let taken : ((s.heap p).count == r % word) ≡ true = rw (small, last) (==_refl r) in
    elim (Bool-cases ((s.heap p).next == null)) [
      | inl end ↦ let nothing : none ≡ some s' = rw (taken, end) at out in absurd (cc)
      | inr more ↦ rw (taken, more) at out
    ]

drop_loop-more :
    (fuel : ℕ) (p : Ptr) (r : ℕ) (s s' : StpcProxy)
    → r < word
    → ((s.heap p).count == r) ≡ false
    → drop_loop (suc fuel) p r s ≡ some s'
    → record s {
      heap = put_node p (record (s.heap p) { count = sub_word (s.heap p).count r }) s.heap;
    }
      ≡ s'
unfolding drop_loop
drop_loop-more fuel p r s s' bound more out =
    let small : r % word ≡ r = omega arith in
    let other : ((s.heap p).count == r % word) ≡ false = rw small more in
    some-injective _ s' (rw other at out)

-- The loop of a drop that starts with the test of the count.
drop_loop-Ran :
    (fuel n i k : ℕ) (p : Ptr) (r : ℕ) (w : System) (s s' : StpcProxy) (m : Shared) (pcs : ℕ → Pc)
    → i < n
    → r < word
    → Finishing n w k (record { mem = m; pc = pcs })
    → pcs i ≡ checking p r
    → Matches s m
    → drop_loop fuel p r s ≡ some s'
    → Ran n w pcs i s'
unfolding drop_loop
drop_loop-Ran zero n i k p r w s s' m pcs lt bound f e matches out = absurd (cc)
drop_loop-Ran (suc fuel) n i k p r w s s' m pcs lt bound f e matches out =
    let heap = matches.0 in
    elim (Bool-cases ((s.heap p).count == r)) [
      | inl same ↦
          let last : (s.heap p).count ≡ r = ground arith in
          let next = (m.heap p).next in
          let p1 = update pcs i (releasing p) in
          let p2 = update p1 i (deleting next) in
          let p3 = update p2 i (checking next reference) in
          let m3 = run_delete next (moved_on m) in
          let f1 : Finishing n w (suc k) (record { mem = m; pc = p1 }) =
            and_then i f lt (λ idles. absurd (cc))
              (rw e (check_last (ap (λ x. x.count) (heap p) ∙ last))) in
          let f2 : Finishing n w (suc (suc k)) (record { mem = moved_on m; pc = p2 }) =
            and_then i f1 lt (λ idles. absurd (cc (update-same pcs i (releasing p))))
              (rw (update-same pcs i (releasing p)) release) in
          let f3 : Finishing n w (suc (suc (suc k))) (record { mem = m3; pc = p3 }) =
            and_then i f2 lt (λ idles. absurd (cc (update-same p1 i (deleting next))))
              (rw (update-same p1 i (deleting next)) delete) in
          let same_next : next ≡ (s.heap p).next = ap (λ x. x.next) (heap p) in
          let s3 = delete_data next (release_node s) in
          let matches3 : Matches s3 m3 =
            delete-Matches next (release_node s) (moved_on m) (release-Matches s m matches) in
          let out3 : drop_loop fuel next reference s3 ≡ some s' =
            rw same_next (drop_loop-last fuel p r s s' bound last out) in
          let (j, t, f4, matches4, idles, kept) =
            drop_loop-Ran fuel n i (suc (suc (suc k))) next reference w s3 s' m3 p3 lt (omega arith)
              f3 (update-same p2 i (checking next reference)) matches3 out3 in
          (
            j,
            t,
            f4,
            matches4,
            idles,
            λ a other.
                kept a other
                ∙ update-other p2 i a (checking next reference) other
                ∙ update-other p1 i a (deleting next) other
                ∙ update-other pcs i a (releasing p) other,
          )
      | inr more ↦
          let differs : (m.heap p).count ≢ r = λ same. absurd (ground (arith, heap p)) in
          let p1 = update pcs i (subtracting p r) in
          let f1 : Finishing n w (suc k) (record { mem = m; pc = p1 }) =
            and_then i f lt (λ idles. absurd (cc)) (rw e (check_more differs)) in
          let f2 : Finishing n w (suc (suc k))
              (record { mem = subtracted p r m; pc = update p1 i idle }) =
            and_then i f1 lt (λ idles. absurd (cc (update-same pcs i (subtracting p r))))
              (rw (update-same pcs i (subtracting p r)) (subtract_more differs)) in
          (
            suc (suc k),
            record { mem = subtracted p r m; pc = update p1 i idle },
            f2,
            subst (λ x. Matches x (subtracted p r m)) (drop_loop-more fuel p r s s' bound more out)
                (subtract-Matches p r s m matches),
            update-same p1 i idle,
            λ a other.
                update-other p1 i a idle other ∙ update-other pcs i a (subtracting p r) other,
          )
    ]

-- A drop that is not interrupted: whenever `stpcDropProxyNodeReference`, as one step, gives a proxy,
-- the steps of an agent that holds the reference lead there too, and leave the other agents alone.
pub stpc_drop_proxy_node_reference-Ran :
    (fuel n i : ℕ) (p : Ptr) (s s' : StpcProxy) (w : System)
    → i < n
    → w.pc i ≡ holds p
    → Matches s w.mem
    → stpc_drop_proxy_node_reference fuel p s ≡ some s'
    → Ran n w w.pc i s'
unfolding stpc_drop_proxy_node_reference drop_proxy_node_reference
stpc_drop_proxy_node_reference-Ran fuel n i p s s' w lt e matches out =
    let p1 = update w.pc i (checking p reference) in
    let f1 : Finishing n w 1 (record { mem = w.mem; pc = p1 }) =
      and_then i so_far lt (λ idles. absurd (cc)) (rw e drop) in
    let (k, t, f, after, idles, kept) =
      drop_loop-Ran fuel n i 1 p reference w s s' w.mem p1 lt (omega arith) f1
        (update-same w.pc i (checking p reference)) matches out in
    (
      k,
      t,
      f,
      after,
      idles,
      λ a other. kept a other ∙ update-other w.pc i a (checking p reference) other,
    )

queue_node-dropped :
    (fuel attempts : ℕ) (p : Ptr) (s s' : StpcProxy)
    → queue_node fuel attempts p s ≡ some s'
    → (d : StpcProxy) × (drop_loop fuel s.tail (rcount_of s.sequence) (link_node p s) ≡ some d)
      × (count_try attempts d ≡ s')
unfolding queue_node drop_proxy_node_reference rcount_of
queue_node-dropped fuel attempts p s s' out =
    elim (Option-cases (drop_loop fuel s.tail (rcount_of s.sequence) (link_node p s))) [
      | inl fails ↦ let nothing : none ≡ some s' = rw (fails, queue_node) at out in absurd (cc)
      | inr (d, drops) ↦
          (d, drops, some-injective (count_try attempts d) s' (rw (drops, queue_node) at out))
    ]

rcount_of-lt : (sequence : ℕ) → rcount_of sequence < word
unfolding rcount_of
rcount_of-lt sequence = omega arith

-- A new tail that is queued without an interruption: whenever `_queueNode`, as one step, gives a
-- proxy, the steps of an agent that has filled the node lead there too, the statistics aside, and
-- leave the other agents alone.
pub queue_node-Ran :
    (fuel attempts n i : ℕ) (p : Ptr) (s s' : StpcProxy) (w : System)
    → i < n
    → w.pc i ≡ filled p
    → Matches (counted p s) w.mem
    → queue_node fuel attempts p s ≡ some s'
    → Ran n w w.pc i s'
queue_node-Ran fuel attempts n i p s s' w lt e matches out =
    let (d, drops, counts) = queue_node-dropped fuel attempts p s s' out in
    let m = w.mem in
    let same_sequence : m.sequence ≡ s.sequence = matches.2 in
    let r = rcount_of m.sequence in
    let p1 = update w.pc i (linking m.tail p r) in
    let p2 = update p1 i (checking m.tail r) in
    let m2 = linked_to m.tail p (with_tail p m) in
    let f1 : Finishing n w 1 (record { mem = with_tail p m; pc = p1 }) =
      and_then i so_far lt (λ idles. absurd (cc)) (rw e swap) in
    let f2 : Finishing n w 2 (record { mem = m2; pc = p2 }) =
      and_then i f1 lt (λ idles. absurd (cc (update-same w.pc i (linking m.tail p r))))
        (rw (update-same w.pc i (linking m.tail p r)) link) in
    let drops' : drop_loop fuel m.tail r (link_node p s) ≡ some d =
      rw (same_sequence, matches.1) drops in
    let (k, t, f, after, idles, kept) =
      drop_loop-Ran fuel n i 2 m.tail r w (link_node p s) d m2 p2 lt (rcount_of-lt m.sequence) f2
        (update-same p1 i (checking m.tail r)) (linked-Matches p s m matches) drops' in
    (
      k,
      t,
      f,
      subst (λ x. Matches x t.mem) counts (count_try-Matches attempts d t.mem after),
      idles,
      λ a other.
          kept a other
          ∙ update-other p1 i a (checking m.tail r) other
          ∙ update-other w.pc i a (linking m.tail p r) other,
    )
