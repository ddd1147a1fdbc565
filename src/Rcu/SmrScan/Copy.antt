-- ===== src/Rcu/SmrScan/Copy.antt =====
-- fastsmr/smrscan.c: the copy of the hazard pointers that a scan makes.
use atomic_ptr_plus.Base.{
  ℕ, ◌+◌, ◌*◌, ◌≡◌, ◌≤◌, ◌<◌, ◌^◌, refl, sym, ◌∙◌, ap, inl, inr, List, [], ◌∷◌, ◌++◌, append-nil,
  append_assoc, arith, Bool-cases, ltb, length, length-append, ◌-◌, ◌%◌, ◌⊎◌,
}
use atomic_ptr_plus.Fifo.{Ptr}
use atomic_ptr_plus.Rcu.State.{SmrNode, World}
use atomic_ptr_plus.Rcu.SmrScan.{Client, in_use, copy_node, copy_nodes}
use atomic_ptr_plus.Rcu.SmrScan.Ensures.{Ensures, Ensures-bind, Ensures-mono}

-- The hazard pointers in use, in the order of the nodes.
abbrev pub hazards : List SmrNode → List Ptr
hazards [] = []
hazards (n ∷ ns) = in_use n ++ hazards ns

abbrev pub IsCopy : List Ptr → World → World → Type 0
IsCopy more w u = u ≡ record w { hptr = w.hptr ++ more; hsize = u.hsize }

module _ (c : Client) where
  copy_node-IsCopy : (n : SmrNode) (w : World) → Ensures (IsCopy (in_use n) w) (copy_node c n w)
  unfolding copy_node
  copy_node-IsCopy n w =
      elim (Bool-cases (ltb ((w.hsize + 2 ^ 32 - length w.hptr) % 2 ^ 32) n.ndx)) [
        | inl full ↦ elim (Bool-cases (c.realloc_ok ((w.hsize * 2 + n.ndx) % 2 ^ 32))) [
          | inl grown ↦ rw (full, grown) refl
          | inr failed ↦ rw (full, failed) tt
        ]
        | inr room ↦ rw room refl
      ]

  -- A copy that returns has appended all hazard pointers in use, and changed nothing but the array.
  pub copy_nodes-IsCopy :
      (ns : List SmrNode) (w : World) → Ensures (IsCopy (hazards ns) w) (copy_nodes c ns w)
  unfolding copy_nodes
  copy_nodes-IsCopy [] w = ap (λ h. record w { hptr = h }) (sym (append-nil w.hptr))
  copy_nodes-IsCopy (n ∷ ns) w =
      Ensures-bind (IsCopy (in_use n) w) (IsCopy (in_use n ++ hazards ns) w) (copy_node c n w)
        (copy_nodes c ns) (copy_node-IsCopy n w)
        λ u e.
          Ensures-mono (IsCopy (hazards ns) u) (IsCopy (in_use n ++ hazards ns) w)
            (copy_nodes c ns u) (copy_nodes-IsCopy ns u)
            λ v e'.
              e'
              ∙ ap (extended v.hsize) e
              ∙ ap (resized v.hsize) (append_assoc w.hptr (in_use n) (hazards ns))
    where
      extended : ℕ → World → World
      extended hsize u = record u { hptr = u.hptr ++ hazards ns; hsize = hsize }

      resized : ℕ → List Ptr → World
      resized hsize h = record w { hptr = h; hsize = hsize }

  -- The array in use stays within its allocated size.
  abbrev Fits : World → Type 0
  Fits w = length w.hptr ≤ w.hsize

  -- Each node of the list has none or both of its hazard pointers in use.
  abbrev pub ArePairs : List SmrNode → Type 0
  ArePairs [] = Unit
  ArePairs (n ∷ ns) = ((n.ndx ≡ 0) ⊎ (n.ndx ≡ 2)) × ArePairs ns

  copy_node-Fits :
      (n : SmrNode) (w : World)
      → ((n.ndx ≡ 0) ⊎ (n.ndx ≡ 2))
      → Fits w
      → w.hsize < 2 ^ 30
      → Ensures
          (λ u.
            Fits u × (u.hsize ≤ w.hsize + length w.hptr + 4) × (length u.hptr ≤ length w.hptr + 2))
          (copy_node c n w)
  unfolding copy_node
  copy_node-Fits n w pair fits small = ground (arith, length-append w.hptr (in_use n))
