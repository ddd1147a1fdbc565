-- ===== src/Rcu/SmrScan/Marked.antt =====
-- fastsmr/smrscan.c: an item that a scan has marked stays marked.
use mathlib.Core.Path.{subst}
use atomic_ptr_plus.Base.{
  ◌≡◌, ◌⊎◌, sym, ◌∙◌, ap, inl, inr, List, [], ◌∷◌, arith, Bool-cases, ◌==◌, has, true, false, nodup,
}
use atomic_ptr_plus.Fifo.{Ptr}
use atomic_ptr_plus.Rcu.State.{RefType, fifo, trace, other, World, set_sequence}
use atomic_ptr_plus.Rcu.SmrScan.{
  Client, smr_tracecb, trace_all, mark_referenced, mark_unreferenced, mark_one, mark_all, refs_of,
}
use atomic_ptr_plus.Rcu.SmrScan.Ensures.{Ensures, Ensures-bind}
use atomic_ptr_plus.Rcu.SmrScan.Frame.{unmarked, unmarked-mark_one}

-- The scan in progress has marked the item.
abbrev pub Marked : Ptr → World → Type 0
Marked x w = (w.heap x).sequence ≡ w.current

pub Marked-trace_all :
    (x : Ptr) (defers : List Ptr) (w : World) → Marked x w → Marked x (trace_all defers w)
unfolding trace_all smr_tracecb
Marked-trace_all x [] w m = m
Marked-trace_all x (defer ∷ defers) w m = Marked-trace_all x defers (smr_tracecb defer w).0 one
  where
    one : Marked x (smr_tracecb defer w).0
    one = ground arith

module _ (c : Client) (x : Ptr) where
  Marked-mark_referenced :
      (type : RefType) (work : Ptr) (w : World)
      → (work ≡ x) ⊎ Marked x w
      → Ensures (Marked x) (mark_referenced c type work w)
  unfolding mark_referenced
  Marked-mark_referenced trace work w m =
      let marked = set_sequence work w.current w in
      Marked-trace_all x (refs_of c work marked) marked (ground arith)
  Marked-mark_referenced fifo work w m = ground arith
  Marked-mark_referenced other work w m = tt

  Marked-mark_unreferenced :
      (type : RefType) (work : Ptr) (w : World)
      → (work == x) ≡ false
      → Marked x w
      → Marked x (mark_unreferenced type work w)
  unfolding mark_unreferenced
  Marked-mark_unreferenced fifo work w ne m = ground arith
  Marked-mark_unreferenced trace work w ne m = m
  Marked-mark_unreferenced other work w ne m = m

  -- Marking another item keeps the mark.
  pub Marked-mark_one :
      (work : Ptr) (w : World)
      → (work == x) ≡ false
      → Marked x w
      → Ensures (Marked x) (mark_one c work w)
  unfolding mark_one
  Marked-mark_one work w ne m = elim (Bool-cases (has (w.heap work).arg w.hptr)) [
    | inl held ↦ rw held (Marked-mark_referenced (w.heap work).type work w (inr m))
    | inr free ↦ rw free (Marked-mark_unreferenced (w.heap work).type work w ne m)
  ]

  -- An item that a hazard pointer refers to is marked.
  Marked-mark_one_self :
      (work : Ptr) (w : World)
      → work ≡ x
      → has (w.heap x).arg w.hptr ≡ true
      → Ensures (Marked x) (mark_one c work w)
  unfolding mark_one
  Marked-mark_one_self work w e held =
      let held_work : has (w.heap work).arg w.hptr ≡ true =
        subst (λ p. has (w.heap p).arg w.hptr ≡ true) (sym e) held in
      rw held_work (Marked-mark_referenced (w.heap work).type work w (inl e))

  pub Marked-mark_all :
      (queue : List Ptr) (w : World)
      → has x queue ≡ false
      → Marked x w
      → Ensures (Marked x) (mark_all c queue w)
  unfolding mark_all
  Marked-mark_all [] w out m = m
  Marked-mark_all (work ∷ queue) w out m =
      Ensures-bind (Marked x) (Marked x) (mark_one c work w) (mark_all c queue)
        (Marked-mark_one work w (ground arith) m) λ u m'. Marked-mark_all queue u (ground arith) m'

  -- So an item of the queue that a hazard pointer refers to is marked at the end.
  pub Marked-mark_all_held :
      (queue : List Ptr) (w : World)
      → has x queue ≡ true
      → nodup queue ≡ true
      → has (w.heap x).arg w.hptr ≡ true
      → Ensures (Marked x) (mark_all c queue w)
  unfolding mark_all
  Marked-mark_all_held [] w on once held = cc
  Marked-mark_all_held (work ∷ queue) w on once held = elim (Bool-cases (work == x)) [
    | inl here ↦
        let e : work ≡ x = ground arith in
        Ensures-bind (Marked x) (Marked x) (mark_one c work w) (mark_all c queue)
          (Marked-mark_one_self work w e held) λ u m. Marked-mark_all queue u (ground arith) m
    | inr there ↦
        Ensures-bind (λ u. unmarked u ≡ unmarked w) (Marked x) (mark_one c work w)
          (mark_all c queue) (unmarked-mark_one c work w)
          λ u same.
            Marked-mark_all_held queue u (ground arith) (ground arith)
              (ap (λ v. has (v.heap x).arg v.hptr) same ∙ held)
  ]
