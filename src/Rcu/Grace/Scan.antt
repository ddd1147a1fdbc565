-- ===== src/Rcu/Grace/Scan.antt =====
-- fastsmr/rcuscan.c `rcu_scan`: an item leaves the ring only after its quiescent points.
use atomic_ptr_plus.Base.{
  ℕ, zero, suc, ◌+◌, ◌≡◌, ◌≤◌, ◌<◌, refl, sym, ◌⊎◌, inl, inr, Bool, true, false, arith, Bool-cases,
  Option-cases, get_elem?,
}
use mathlib.Core.Path.{subst}
use native.Mathlib.Decide.{ℕ_discrete}
use atomic_ptr_plus.Fifo.{Ptr}
use atomic_ptr_plus.Rcu.State.{World}
use atomic_ptr_plus.Rcu.Scan.{
  Answer, Answers, quiesced, shift_work, pass_node, scan_from, scan_from-out, scan_from-pass,
  scan_from-stall,
}
use atomic_ptr_plus.Rcu.Tallies.{tally-scan_from}
use atomic_ptr_plus.Rcu.Grace.{Located, delay}
use atomic_ptr_plus.Rcu.Grace.Shift.{
  Located-shift_work_self, Located-shift_work_ne, Located-note_node, Located-stall_node,
}

module _ (x : Ptr) (n p : ℕ) (p_lt : p < n) where
  -- What one pass leaves of the delay.
  abbrev pub StillThere : ℕ → Bool → ℕ → World → Type 0
  StillThere i fresh j w =
      (fresh' : Bool) × Located x p fresh' w.nodes
      × (delay n j p fresh' + j ≡ delay n i p fresh + i)

  -- The node whose work is shifted when node `i` is passed.
  abbrev IsNext : ℕ → ℕ → Type 0
  IsNext i t = ((t ≡ suc i) × (suc i < n)) ⊎ ((t ≡ 0) × (suc i ≡ n))

  shift_work-hit :
      (i : ℕ) (fresh : Bool) (w : World)
      → IsNext i p
      → Located x p fresh w.nodes
      → 1 < delay n i p fresh
      → StillThere i fresh (suc i) (shift_work p w)
  shift_work-hit i true w next at more = (false, Located-shift_work_self x p w at, ground arith)
  shift_work-hit i false w next at more = absurd (ground arith)

  shift_work-StillThere :
      (i t : ℕ) (fresh : Bool) (w : World)
      → IsNext i t
      → Located x p fresh w.nodes
      → 1 < delay n i p fresh
      → StillThere i fresh (suc i) (shift_work t w)
  shift_work-StillThere i t fresh w next at more = elim (ℕ_discrete t p) [
    | yes e ↦
        subst (λ q. StillThere i fresh (suc i) (shift_work q w)) (sym e)
          (shift_work-hit i fresh w (subst (IsNext i) e next) at more)
    | no ne ↦ (fresh, Located-shift_work_ne x p fresh t w ne at, ground arith)
  ]

  pass_node-StillThere :
      (left i : ℕ) (fresh : Bool) (a : Answer) (w : World)
      → i + suc left ≡ n
      → Located x p fresh w.nodes
      → 1 < delay n i p fresh
      → StillThere i fresh (suc i) (pass_node left i a w)
  unfolding pass_node
  pass_node-StillThere zero i fresh a w at_i at more =
      shift_work-StillThere i 0 fresh _ (inr (refl, omega arith))
        (Located-note_node x p fresh a i w.nodes at) more
  pass_node-StillThere (suc left) i fresh a w at_i at more =
      shift_work-StillThere i (suc i) fresh _ (inl (refl, omega arith))
        (Located-note_node x p fresh a i w.nodes at) more

  -- A scan that passes fewer nodes than the delay leaves the item on the ring, the delay less by the
  -- nodes passed.
  pub scan_from-StillThere :
      (left i : ℕ) (fresh : Bool) (ask : Answers) (w : World)
      → i + left ≡ n
      → Located x p fresh w.nodes
      → (scan_from left i ask w).1 < i + delay n i p fresh
      → StillThere i fresh (scan_from left i ask w).1 (scan_from left i ask w).0
  scan_from-StillThere zero i fresh ask w at_i at few = unfold scan_from in (fresh, at, refl)
  scan_from-StillThere (suc left) i fresh ask w at_i at few =
      elim (Option-cases (get_elem? w.nodes i)) [
        | inl out ↦ rw (scan_from-out left i ask w out) (fresh, at, refl)
        | inr (m, found) ↦ elim (Bool-cases (quiesced (ask m.qhandle) m)) [
          | inl passed ↦
              let u = pass_node left i (ask m.qhandle) w in
              let e = scan_from-pass left i ask w m found passed in
              let few' : (scan_from left (suc i) ask u).1 < i + delay n i p fresh = rw e at few in
              let ge : suc i ≤ (scan_from left (suc i) ask u).1 =
                (tally-scan_from left (suc i) ask u).3 in
              let (fresh1, at1, less1) =
                pass_node-StillThere left i fresh (ask m.qhandle) w at_i at (omega arith) in
              let (fresh2, at2, less2) =
                scan_from-StillThere left (suc i) fresh1 ask u (omega arith) at1 (omega arith) in
              rw e (fresh2, at2, omega arith)
          | inr not_passed ↦
              rw (scan_from-stall left i ask w m found not_passed)
                (fresh, Located-stall_node x p fresh i w at, refl)
        ]
      ]
