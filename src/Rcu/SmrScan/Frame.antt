-- ===== src/Rcu/SmrScan/Frame.antt =====
-- fastsmr/smrscan.c: what the marking of a scan leaves alone.
use mathlib.Core.Path.{fun_ext}
use atomic_ptr_plus.Base.{ℕ, ◌≡◌, refl, ◌∙◌, ap, inl, inr, List, [], ◌∷◌, arith, Bool-cases, has}
use atomic_ptr_plus.Fifo.{Ptr}
use atomic_ptr_plus.Rcu.State.{RefType, fifo, trace, other, Defer, World, set_sequence}
use atomic_ptr_plus.Rcu.SmrScan.Ensures.{Ensures, Ensures-bind, Ensures-mono}
use atomic_ptr_plus.Rcu.SmrScan.{
  Client, is_live, smr_tracecb, trace_all, mark_referenced, mark_unreferenced, mark_one, mark_all,
  refs_of,
}

-- The parts of the state that marking does not write: all but the sequence numbers.
abbrev pub unmarked_item : Defer → Defer
unmarked_item d = record d { sequence = 0 }

abbrev pub unmarked : World → World
unmarked w = record w { heap = λ p. unmarked_item (w.heap p); sequences = λ _. 0 }

pub unmarked-set_sequence :
    (work : Ptr) (sequence : ℕ) (w : World) → unmarked (set_sequence work sequence w) ≡ unmarked w
unmarked-set_sequence work sequence w =
    ap (λ h. record (unmarked w) { heap = h }) (fun_ext λ p. ground arith)

pub unmarked-trace_all :
    (defers : List Ptr) (w : World) → unmarked (trace_all defers w) ≡ unmarked w
unfolding trace_all
unmarked-trace_all [] w = refl
unmarked-trace_all (defer ∷ defers) w = unmarked-trace_all defers (smr_tracecb defer w).0 ∙ one
  where
    one : unmarked (smr_tracecb defer w).0 ≡ unmarked w
    one = elim (Bool-cases (is_live (w.heap defer).state)) [
      | inl live ↦ rw live refl
      | inr deferred ↦ rw deferred (unmarked-set_sequence defer w.current w)
    ]

module _ (c : Client) where
  unmarked-mark_referenced :
      (type : RefType) (work : Ptr) (w : World)
      → Ensures (λ w'. unmarked w' ≡ unmarked w) (mark_referenced c type work w)
  unfolding mark_referenced
  unmarked-mark_referenced trace work w =
      unmarked-trace_all (refs_of c work (set_sequence work w.current w))
        (set_sequence work w.current w)
      ∙ unmarked-set_sequence work w.current w
  unmarked-mark_referenced fifo work w = unmarked-set_sequence work w.current w
  unmarked-mark_referenced other work w = tt

  unmarked-mark_unreferenced :
      (type : RefType) (work : Ptr) (w : World)
      → unmarked (mark_unreferenced type work w) ≡ unmarked w
  unfolding mark_unreferenced
  unmarked-mark_unreferenced fifo work w =
      unmarked-set_sequence work (w.sequences (w.heap work).psequence) w
  unmarked-mark_unreferenced trace work w = refl
  unmarked-mark_unreferenced other work w = refl

  pub unmarked-mark_one :
      (work : Ptr) (w : World) → Ensures (λ w'. unmarked w' ≡ unmarked w) (mark_one c work w)
  unfolding mark_one
  unmarked-mark_one work w = elim (Bool-cases (has (w.heap work).arg w.hptr)) [
    | inl held ↦ rw held (unmarked-mark_referenced (w.heap work).type work w)
    | inr free ↦ rw free (unmarked-mark_unreferenced (w.heap work).type work w)
  ]

  pub unmarked-mark_all :
      (queue : List Ptr) (w : World) → Ensures (λ w'. unmarked w' ≡ unmarked w) (mark_all c queue w)
  unfolding mark_all
  unmarked-mark_all [] w = refl
  unmarked-mark_all (work ∷ queue) w =
      Ensures-bind (λ u. unmarked u ≡ unmarked w) (λ u. unmarked u ≡ unmarked w) (mark_one c work w)
        (mark_all c queue) (unmarked-mark_one work w)
        λ u same.
          Ensures-mono (λ v. unmarked v ≡ unmarked u) (λ v. unmarked v ≡ unmarked w)
            (mark_all c queue u) (unmarked-mark_all queue u) λ v same'. same' ∙ same
