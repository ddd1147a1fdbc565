-- ===== src/Rcu/Waiting/Smr.antt =====
-- fastsmr/smrscan.c `smr_scan`: an item that waits goes on waiting, and is still queued once.
use atomic_ptr_plus.Base.{
  ℕ, ◌≤◌, ◌≡◌, ◌≢◌, refl, ◌∙◌, ap, sym, List, [], ◌∷◌, true, false, inl, inr, arith, Bool-cases,
  count, count-append, has, nodup, ◌==◌,
}
use atomic_ptr_plus.Fifo.{Ptr}
use atomic_ptr_plus.Rcu.State.{DeferState, pass2, SmrNode, World, is_pass1}
use atomic_ptr_plus.Rcu.Enqueue.{put_ready, rcu_place, rcu_enqueue}
use atomic_ptr_plus.Rcu.Conserve.{queued}
use atomic_ptr_plus.Rcu.Hazard.{returned}
use atomic_ptr_plus.Rcu.SmrScan.{
  Client, scan_queue, mark_all, sort_one, sort_all, count_scan, smr_scan,
}
use atomic_ptr_plus.Rcu.SmrScan.Ensures.{Ensures-mono, Ensures-returned}
use atomic_ptr_plus.Rcu.SmrScan.Frame.{unmarked, unmarked-mark_all}
use atomic_ptr_plus.Rcu.SmrScan.Copy.{hazards}
use atomic_ptr_plus.Rcu.SmrScan.Safety.{
  scan_queue-Ensures, smr_scan-Ensures, smr_scan-keeps, queued-smr_scan, emptied,
}
use atomic_ptr_plus.Rcu.Waiting.{is, Waits}

-- An item that is not on the list keeps its place, its state and its argument when the list is sorted.
abbrev pub Placed : Ptr → World → DeferState × Ptr × List SmrNode × ℕ × ℕ
Placed x w = (
  (w.heap x).state,
  (w.heap x).arg,
  w.smr_nodes,
  count (is x) w.smr_queue,
  count (is x) w.ready_queue,
)

Placed-rcu_enqueue :
    (x work : Ptr) (w : World) → x ≢ work → Placed x (rcu_enqueue work pass2 w) ≡ Placed x w
unfolding rcu_enqueue rcu_place put_ready
Placed-rcu_enqueue x work w other = ground (arith, count-append (is x) w.ready_queue (work ∷ []))

Placed-sort_one : (x work : Ptr) (w : World) → x ≢ work → Placed x (sort_one work w) ≡ Placed x w
unfolding sort_one
Placed-sort_one x work w other = elim (Bool-cases ((w.heap work).sequence == w.current)) [
  | inl marked ↦ rw marked (ground (arith, count-append (is x) w.smr_queue (work ∷ [])))
  | inr not_marked ↦ rw not_marked (Placed-rcu_enqueue x work w other)
]

Placed-sort_all :
    (x : Ptr) (queue : List Ptr) (w : World)
    → count (is x) queue ≡ 0
    → Placed x (sort_all queue w) ≡ Placed x w
unfolding sort_all
Placed-sort_all x [] w out = refl
Placed-sort_all x (work ∷ queue) w out =
    Placed-sort_all x queue (sort_one work w) (ground arith)
    ∙ Placed-sort_one x work w (λ e. ground arith)

-- The hazard pointers and the arguments stay as they are, for the items on the list too.
abbrev Held : Ptr → World → Ptr × List SmrNode
Held x w = ((w.heap x).arg, w.smr_nodes)

Held-sort_one : (x work : Ptr) (w : World) → Held x (sort_one work w) ≡ Held x w
unfolding sort_one rcu_enqueue rcu_place put_ready
Held-sort_one x work w = ground arith

Held-sort_all : (x : Ptr) (queue : List Ptr) (w : World) → Held x (sort_all queue w) ≡ Held x w
unfolding sort_all
Held-sort_all x [] w = refl
Held-sort_all x (work ∷ queue) w = Held-sort_all x queue (sort_one work w) ∙ Held-sort_one x work w

count-has : (x : Ptr) (xs : List Ptr) → has x xs ≡ true → 1 ≤ count (is x) xs
count-has x [] h = cc
count-has x (y ∷ xs) h = ground (arith, count-has x xs)

has-count : (x : Ptr) (xs : List Ptr) → count (is x) xs ≡ 0 → has x xs ≡ false
has-count x [] h = refl
has-count x (y ∷ xs) h = ground (arith, has-count x xs)

count-some : (x : Ptr) (xs : List Ptr) → (count (is x) xs == 0) ≡ false → has x xs ≡ true
count-some x [] h = ground arith
count-some x (y ∷ xs) h = ground (arith, count-some x xs)

nodup-count : (xs : List Ptr) → ((p : Ptr) → count (is p) xs ≤ 1) → nodup xs ≡ true
nodup-count [] once = refl
nodup-count (x ∷ xs) once =
    ground (arith, once x, has-count x xs, nodup-count xs (λ p. ground (arith, once p)))

pub Waits-Placed : (x : Ptr) (w w' : World) → Placed x w' ≡ Placed x w → Waits x w → Waits x w'
Waits-Placed x w w' same h = (
  ap (λ (s : DeferState × Ptr × List SmrNode × ℕ × ℕ). s.4) same ∙ h.0,
  λ none_waits.
      ap (λ (s : DeferState × Ptr × List SmrNode × ℕ × ℕ). is_pass1 s.0) same
      ∙ h.1 (sym (ap (λ (s : DeferState × Ptr × List SmrNode × ℕ × ℕ). s.3) same) ∙ none_waits),
  ap (λ (s : DeferState × Ptr × List SmrNode × ℕ × ℕ). has s.1 (hazards s.2)) same ∙ h.2,
)

module _ (c : Client) (x : Ptr) (w : World) (w' : World) (done : smr_scan c w ≡ returned w') where
  count_scan-Placed : (s : World) → Placed x (count_scan s) ≡ Placed x s
  unfolding count_scan
  count_scan-Placed s = ground arith

  count_scan-Held : (s : World) → Held x (count_scan s) ≡ Held x s
  unfolding count_scan
  count_scan-Held s = ground arith

  smr_scan-Held : Held x w' ≡ Held x w
  smr_scan-Held =
      Ensures-returned (λ v. Held x v ≡ Held x w) (smr_scan c w) w'
        (smr_scan-Ensures c w (λ v. Held x v ≡ Held x w) refl
          λ some_counted.
            Ensures-mono (λ s. Held x s ≡ Held x w) (λ s. Held x (count_scan s) ≡ Held x w)
              (scan_queue c w)
              (scan_queue-Ensures c w (λ s. Held x s ≡ Held x w)
                λ u copied.
                  Ensures-mono (λ m. unmarked m ≡ unmarked (emptied u))
                    (λ m. Held x (sort_all u.smr_queue m) ≡ Held x w)
                    (mark_all c u.smr_queue (emptied u))
                    (unmarked-mark_all c u.smr_queue (emptied u))
                    λ m same. Held-sort_all x u.smr_queue m ∙ ap (Held x) same ∙ ap (Held x) copied)
              λ s e. count_scan-Held s ∙ e)
        done

  smr_scan-Placed : count (is x) w.smr_queue ≡ 0 → Placed x w' ≡ Placed x w
  smr_scan-Placed out =
      Ensures-returned (λ v. Placed x v ≡ Placed x w) (smr_scan c w) w'
        (smr_scan-Ensures c w (λ v. Placed x v ≡ Placed x w) refl
          λ some_counted.
            Ensures-mono (λ s. Placed x s ≡ Placed x w) (λ s. Placed x (count_scan s) ≡ Placed x w)
              (scan_queue c w)
              (scan_queue-Ensures c w (λ s. Placed x s ≡ Placed x w)
                λ u copied.
                  Ensures-mono (λ m. unmarked m ≡ unmarked (emptied u))
                    (λ m. Placed x (sort_all u.smr_queue m) ≡ Placed x w)
                    (mark_all c u.smr_queue (emptied u))
                    (unmarked-mark_all c u.smr_queue (emptied u))
                    λ m same.
                      Placed-sort_all x u.smr_queue m
                        (ap (λ (v : World). count (is x) v.smr_queue) copied ∙ out)
                      ∙ ap (Placed x) same
                      ∙ ap (λ (v : World). Placed x (emptied v)) copied
                      ∙ ap
                          (λ (k : ℕ). (
                            (w.heap x).state,
                            (w.heap x).arg,
                            w.smr_nodes,
                            k,
                            count (is x) w.ready_queue,
                          ))
                          (sym out))
              λ s e. count_scan-Placed s ∙ e)
        done

  -- The item is on the list from its second pass on, and no scan takes it off.
  Waits-kept :
      Waits x w
      → (count (is x) w.smr_queue == 0) ≡ false
      → ((p : Ptr) → queued (is p) w ≤ 1)
      → Waits x w'
  Waits-kept h on once =
      let still : 1 ≤ count (is x) w'.smr_queue = count-has x w'.smr_queue (
        smr_scan-keeps c w w' x done (count-some x w.smr_queue on)
          (nodup-count w.smr_queue λ p. omega (arith, once p)) h.2) in
      let as_often : queued (is x) w' ≡ queued (is x) w = queued-smr_scan c w w' (is x) done in
      let just_once : queued (is x) w ≤ 1 = once x in
      (
        omega arith,
        λ none_waits. ground arith,
        ap (λ (s : Ptr × List SmrNode). has s.0 (hazards s.1)) smr_scan-Held ∙ h.2,
      )

  pub Waits-smr_scan : Waits x w → ((p : Ptr) → queued (is p) w ≤ 1) → Waits x w'
  Waits-smr_scan h once = elim (Bool-cases (count (is x) w.smr_queue == 0)) [
    | inl none ↦ Waits-Placed x w w' (smr_scan-Placed (ground arith)) h
    | inr on ↦ Waits-kept h on once
  ]
