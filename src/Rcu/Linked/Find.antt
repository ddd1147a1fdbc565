-- ===== src/Rcu/Linked/Find.antt =====
-- The lookup of `rcu_delete_node` of fastsmr/rcuscan.c on the linked ring.
use atomic_ptr_plus.Base.{
  ℕ, zero, suc, ◌<◌, ◌≡◌, ◌≢◌, ◌⊎◌, refl, true, false, List, [], ◌∷◌, ◌++◌, arith, has, some,
  length, inl, inr, ==_yes, ==_no, ◌==◌, Bool-cases, ap,
}
use atomic_ptr_plus.Fifo.{Ptr, Links}
use atomic_ptr_plus.Fifo.Chain.{Chain}
use atomic_ptr_plus.Rcu.State.{RcuNode}
use atomic_ptr_plus.Rcu.Linked.{Ring}
use atomic_ptr_plus.Rcu.Linked.Calls.{find_linked}

-- None of the nodes has the handle.
abbrev pub Absent : ℕ → (Ptr → RcuNode) → List Ptr → Type 0
Absent qhandle node [] = Unit {0}
Absent qhandle node (p ∷ ps) = (((node p).qhandle == qhandle) ≡ false) × Absent qhandle node ps

-- The first of the nodes with the handle.
pub record Found (qhandle : ℕ) (node : Ptr → RcuNode) (ps : List Ptr) : Type 0 where
  pub before : List Ptr
  pub d : Ptr
  pub behind : List Ptr
  pub whole : ps ≡ before ++ d ∷ behind
  pub misses : Absent qhandle node before
  pub hit : ((node d).qhandle == qhandle) ≡ true

pub Found-cases :
    (qhandle : ℕ) (node : Ptr → RcuNode) (ps : List Ptr)
    → Absent qhandle node ps ⊎ Found qhandle node ps
Found-cases qhandle node [] = inl tt
Found-cases qhandle node (p ∷ ps) = elim (Bool-cases ((node p).qhandle == qhandle)) [
  | inl hit ↦ inr (record { before = []; d = p; behind = ps; whole = refl; misses = tt; hit = hit })
  | inr miss ↦ elim (Found-cases qhandle node ps) [
    | inl none_of ↦ inl (miss, none_of)
    | inr found ↦ inr (record {
      before = p ∷ found.before;
      d = found.d;
      behind = found.behind;
      whole = ap (λ (t : List Ptr). p ∷ t) found.whole;
      misses = (miss, found.misses);
      hit = found.hit;
    })
  ]
]

-- The chain does not start at a node that it does not have.
Chain-ne :
    (h : Links) (p : Ptr) (xs : List Ptr) (d : Ptr) (ys : List Ptr) (stop c : Ptr)
    → Chain h p (xs ++ d ∷ ys) stop
    → has c (xs ++ d ∷ ys) ≡ false
    → p ≢ c
Chain-ne h p [] d ys stop c chain out = λ e. ground arith
Chain-ne h p (x ∷ xs) d ys stop c chain out = λ e. ground arith

abbrev pub tail : List Ptr → List Ptr
tail [] = []
tail (x ∷ xs) = xs

has-tail : (c : Ptr) (xs : List Ptr) → has c xs ≡ false → has c (tail xs) ≡ false
has-tail c [] out = refl
has-tail c (x ∷ xs) out = ground arith

module _ (qhandle : ℕ) (r : Ring) where
  find_linked-hit :
      (fuel : ℕ) (p : Ptr)
      → ((r.store.node p).qhandle == qhandle) ≡ true
      → find_linked (suc fuel) qhandle r p ≡ some p
  unfolding find_linked
  find_linked-hit fuel p hit = rw hit refl

  find_linked-end :
      (fuel : ℕ) (p : Ptr)
      → ((r.store.node p).qhandle == qhandle) ≡ false
      → r.next p ≡ r.current_node
      → find_linked (suc fuel) qhandle r p ≡ some r.current_node
  unfolding find_linked
  find_linked-end fuel p miss e =
      rw (miss, ==_yes (r.next p) r.current_node e) (ap (λ (q : Ptr). some q) e)

  find_linked-next :
      (fuel : ℕ) (p : Ptr)
      → ((r.store.node p).qhandle == qhandle) ≡ false
      → r.next p ≢ r.current_node
      → find_linked (suc fuel) qhandle r p ≡ find_linked fuel qhandle r (r.next p)
  unfolding find_linked
  find_linked-next fuel p miss ne = rw (miss, ==_no (r.next p) r.current_node ne) refl

  -- The lookup meets the first node with the handle.
  pub find_linked-Found :
      (fuel : ℕ) (p : Ptr) (before : List Ptr) (d : Ptr) (behind : List Ptr)
      → Chain r.next p (before ++ d ∷ behind) r.current_node
      → has r.current_node (tail (before ++ d ∷ behind)) ≡ false
      → Absent qhandle r.store.node before
      → ((r.store.node d).qhandle == qhandle) ≡ true
      → length before < fuel
      → find_linked fuel qhandle r p ≡ some d
  find_linked-Found zero p before d behind chain once misses hit enough = absurd (omega arith)
  find_linked-Found (suc fuel) p [] d behind chain once misses hit enough =
      rw chain.0 (find_linked-hit fuel d hit)
  find_linked-Found (suc fuel) p (x ∷ before) d behind chain once misses hit enough =
      let ne : r.next x ≢ r.current_node =
        Chain-ne r.next (r.next x) before d behind r.current_node r.current_node chain.3 once in
      rw (chain.0, find_linked-next fuel x misses.0 ne)
        (find_linked-Found fuel (r.next x) before d behind chain.3
          (has-tail r.current_node (before ++ d ∷ behind) once) misses.1 hit (omega arith))

  -- If there is none, it ends at the current node.
  pub find_linked-Absent :
      (fuel : ℕ) (p x : Ptr) (xs : List Ptr)
      → Chain r.next p (x ∷ xs) r.current_node
      → has r.current_node xs ≡ false
      → Absent qhandle r.store.node (x ∷ xs)
      → length xs < fuel
      → find_linked fuel qhandle r p ≡ some r.current_node
  find_linked-Absent zero p x xs chain once misses enough = absurd (omega arith)
  find_linked-Absent (suc fuel) p x [] chain once misses enough =
      rw chain.0 (find_linked-end fuel x misses.0 chain.3)
  find_linked-Absent (suc fuel) p x (y ∷ xs) chain once misses enough =
      let ne : r.next x ≢ r.current_node =
        Chain-ne r.next (r.next x) [] y xs r.current_node r.current_node chain.3 once in
      rw (chain.0, find_linked-next fuel x misses.0 ne)
        (find_linked-Absent fuel (r.next x) y xs chain.3 (ground arith) misses.1 (omega arith))
