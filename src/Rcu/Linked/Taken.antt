-- ===== src/Rcu/Linked/Taken.antt =====
-- The list of nodes without one of them, whose work goes to the node before it: the list operations
-- of `rcu_delete_node` against the store that the linked ring leaves.
use mathlib.Core.Path.{subst}
use atomic_ptr_plus.Base.{
  ℕ, ◌≡◌, ◌≢◌, refl, sym, ◌∙◌, ap, true, false, List, [], ◌∷◌, ◌++◌, arith, has, has-append, nodup,
  map, ==_no, ==_refl, ◌==◌, Bool-cases, inl, inr,
}
use atomic_ptr_plus.Fifo.{Ptr}
use atomic_ptr_plus.Fifo.Chain.{last, has-last}
use atomic_ptr_plus.Rcu.State.{RcuNode, World, update}
use atomic_ptr_plus.Rcu.Scan.{give_last, unlink_after, delete_from}
use atomic_ptr_plus.Rcu.Linked.{Store}
use atomic_ptr_plus.Rcu.Linked.Calls.{give_work}
use atomic_ptr_plus.Rcu.Linked.View.{map-update}
use atomic_ptr_plus.Rcu.Linked.Find.{Absent}

-- `n` with the work of `m` behind its own.
abbrev pub joined : RcuNode → RcuNode → RcuNode
joined n m = record n { queue0 = n.queue0 ++ m.queue0; queue1 = n.queue1 ++ m.queue1 }

eq_of : (a b : Ptr) → (a == b) ≡ true → a ≡ b
eq_of a b e = ground arith

module _ (l d : Ptr) (s : Store) (ne : l ≢ d) where
  give_work-last : (give_work l d s).node l ≡ joined (s.node l) (s.node d)
  give_work-last =
      rw (==_no d l (λ (e : d ≡ l). ne (sym e)), ==_no l d ne, ==_refl l, ==_refl d) refl

  give_work-other : (a : Ptr) → a ≢ l → a ≢ d → (give_work l d s).node a ≡ s.node a
  give_work-other a other kept =
      rw (==_no d a (λ (e : d ≡ a). kept (sym e)), ==_no l a (λ (e : l ≡ a). other (sym e))) refl

  give_work-at :
      (a : Ptr)
      → a ≢ d
      → (give_work l d s).node a ≡ update s.node l (joined (s.node l) (s.node d)) a
  give_work-at a kept = elim (Bool-cases (l == a)) [
    | inl same ↦
        subst
          (λ (x : Ptr). (give_work l d s).node x ≡ update s.node l (joined (s.node l) (s.node d)) x)
          (eq_of l a same) (give_work-last ∙ (rw (==_refl l) refl))
    | inr other ↦ give_work-other a (λ e. ground arith) kept ∙ (rw other refl)
  ]

  -- The node that was taken off has no work left.
  pub give_work-emptied :
      (((give_work l d s).node d).queue0 ≡ []) × (((give_work l d s).node d).queue1 ≡ [])
  give_work-emptied = rw (==_no l d ne, ==_refl d) (refl, refl)

  -- The other nodes after `d` gave its work to `l`.
  pub map-give_work :
      (ps : List Ptr)
      → has d ps ≡ false
      → map (give_work l d s).node ps ≡ map (update s.node l (joined (s.node l) (s.node d))) ps
  map-give_work [] out = refl
  map-give_work (x ∷ xs) out =
      λ i. give_work-at x (λ e. ground arith) i ∷ map-give_work xs (ground arith) i

module _ (g : Ptr → RcuNode) (qhandle : ℕ) where
  pub unlink_after-Absent :
      (p : Ptr) (ps : List Ptr)
      → Absent qhandle g ps
      → unlink_after qhandle (g p) (map g ps) ≡ map g (p ∷ ps)
  unlink_after-Absent p [] misses = refl
  unlink_after-Absent p (x ∷ xs) misses =
      rw misses.0 (ap (λ (t : List RcuNode). g p ∷ t) (unlink_after-Absent x xs misses.1))

  pub unlink_after-Found :
      (p : Ptr) (before : List Ptr) (d : Ptr) (behind : List Ptr)
      → Absent qhandle g before
      → ((g d).qhandle == qhandle) ≡ true
      → nodup (p ∷ before ++ behind) ≡ true
      → let l = last (p ∷ before) in
        unlink_after qhandle (g p) (map g (before ++ d ∷ behind))
        ≡ map (update g l (joined (g l) (g d))) (p ∷ before ++ behind)
  unlink_after-Found p [] d behind misses hit once =
      rw (hit, map-update g p (joined (g p) (g d)) behind (ground arith), ==_refl p) refl
  unlink_after-Found p (x ∷ before) d behind misses hit once =
      let apart : last (x ∷ before) ≢ p =
        λ e. ground (arith, has-last x before, has-append p (x ∷ before) behind) in
      rw (misses.0, ==_no (last (x ∷ before)) p apart)
        (ap (λ (t : List RcuNode). g p ∷ t)
          (unlink_after-Found x before d behind misses.1 hit (ground arith)))

pub give_last-map :
    (g : Ptr → RcuNode) (m : RcuNode) (p : Ptr) (ps : List Ptr)
    → nodup (p ∷ ps) ≡ true
    → let l = last (p ∷ ps) in
      give_last m (map g (p ∷ ps)) ≡ map (update g l (joined (g l) m)) (p ∷ ps)
give_last-map g m p [] once = rw (==_refl p) refl
give_last-map g m p (x ∷ ps) once =
    let apart : last (x ∷ ps) ≢ p = λ e. ground (arith, has-last x ps) in
    rw (==_no (last (x ∷ ps)) p apart)
      (ap (λ (t : List RcuNode). g p ∷ t) (give_last-map g m x ps (ground arith)))

-- The list operation where no node has the handle, where the first of several has it, and where
-- another has it.
module _ (g : Ptr → RcuNode) (qhandle : ℕ) (w : World) where
  pub delete_from-Absent :
      (ps : List Ptr)
      → Absent qhandle g ps
      → delete_from qhandle (map g ps) (record w { nodes = map g ps })
        ≡ record w { nodes = map g ps }
  unfolding delete_from
  delete_from-Absent [] misses = refl
  delete_from-Absent (x ∷ []) misses = rw misses.0 refl
  delete_from-Absent (x ∷ y ∷ ps) misses = rw misses.0 (
      ap (λ (ns : List RcuNode). record w { nodes = ns })
        (unlink_after-Absent g qhandle x (y ∷ ps) misses.1))

  pub delete_from-first :
      (x y : Ptr) (ys : List Ptr)
      → ((g x).qhandle == qhandle) ≡ true
      → nodup (y ∷ ys) ≡ true
      → let l = last (y ∷ ys) in
        delete_from qhandle (map g (x ∷ y ∷ ys)) (record w { nodes = map g (x ∷ y ∷ ys) })
        ≡ record w { nodes = map (update g l (joined (g l) (g x))) (y ∷ ys) }
  unfolding delete_from
  delete_from-first x y ys hit once =
      rw hit (ap (λ (ns : List RcuNode). record w { nodes = ns }) (give_last-map g (g x) y ys once))

  pub delete_from-other :
      (x : Ptr) (xs : List Ptr) (d : Ptr) (ys : List Ptr)
      → Absent qhandle g (x ∷ xs)
      → ((g d).qhandle == qhandle) ≡ true
      → nodup ((x ∷ xs) ++ ys) ≡ true
      → let l = last (x ∷ xs) in
        let nodes = map g ((x ∷ xs) ++ d ∷ ys) in
        delete_from qhandle nodes (record w { nodes = nodes })
        ≡ record w { nodes = map (update g l (joined (g l) (g d))) ((x ∷ xs) ++ ys) }
  unfolding delete_from
  delete_from-other x [] d ys misses hit once = rw misses.0 (
      ap (λ (ns : List RcuNode). record w { nodes = ns })
        (unlink_after-Found g qhandle x [] d ys tt hit once))
  delete_from-other x (y ∷ xs) d ys misses hit once = rw misses.0 (
      ap (λ (ns : List RcuNode). record w { nodes = ns })
        (unlink_after-Found g qhandle x (y ∷ xs) d ys misses.1 hit once))
