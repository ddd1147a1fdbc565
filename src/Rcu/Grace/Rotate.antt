-- ===== src/Rcu/Grace/Rotate.antt =====
-- fastsmr/rcuscan.c: a scan leaves the ring at another current node; where the nodes are then.
use atomic_ptr_plus.Base.{
  ℕ, zero, suc, ◌+◌, ◌-◌, ◌≡◌, ◌≤◌, ◌<◌, refl, sym, ◌∙◌, ap, List, [], ◌∷◌, ◌++◌, Bool, true,
  Option, none, some, arith, length, length-append, has, get_elem?, drop, take, leb, if◌then◌else◌,
}
use mathlib.Core.Path.{subst}
use native.Mathlib.Decide.{dec_le}
use atomic_ptr_plus.Fifo.{Ptr}
use atomic_ptr_plus.Rcu.State.{RcuNode}
use atomic_ptr_plus.Rcu.Scan.{rotate}
use atomic_ptr_plus.Rcu.Grace.{Located, delay}

-- Where the node with index `p` stands when the ring is read from node `i` on.
abbrev pub turned : (n i p : ℕ) → ℕ
turned n i p = if leb i p then p - i else p + n - i

module _ {ℓ} {A : Type ℓ} where
  get_elem?-append_left :
      (xs ys : List A) (k : ℕ) → k < length xs → get_elem? (xs ++ ys) k ≡ get_elem? xs k
  get_elem?-append_left [] ys k lt = absurd (omega arith)
  get_elem?-append_left (x ∷ xs) ys zero lt = refl
  get_elem?-append_left (x ∷ xs) ys (suc k) lt = get_elem?-append_left xs ys k (omega arith)

  get_elem?-append_right :
      (xs ys : List A) (k : ℕ) → get_elem? (xs ++ ys) (length xs + k) ≡ get_elem? ys k
  get_elem?-append_right [] ys k = ap (get_elem? ys) (omega arith)
  get_elem?-append_right (x ∷ xs) ys k =
      ap (get_elem? ((x ∷ xs) ++ ys)) (unary (length xs) k) ∙ get_elem?-append_right xs ys k
    where
      unary : (a b : ℕ) → suc a + b ≡ suc (a + b)
      unary a b = omega arith

  get_elem?-drop : (i k : ℕ) (xs : List A) → get_elem? (drop i xs) k ≡ get_elem? xs (k + i)
  get_elem?-drop zero k xs = ap (get_elem? xs) (omega arith)
  get_elem?-drop (suc i) k [] = refl
  get_elem?-drop (suc i) k (x ∷ xs) = get_elem?-drop i k xs ∙ ap (get_elem? (x ∷ xs)) (unary k i)
    where
      unary : (a b : ℕ) → suc (a + b) ≡ a + suc b
      unary a b = omega arith

  get_elem?-take : (i k : ℕ) (xs : List A) → k < i → get_elem? (take i xs) k ≡ get_elem? xs k
  get_elem?-take zero k xs lt = absurd (omega arith)
  get_elem?-take (suc i) k [] lt = refl
  get_elem?-take (suc i) zero (x ∷ xs) lt = refl
  get_elem?-take (suc i) (suc k) (x ∷ xs) lt = get_elem?-take i k xs (omega arith)

  length-drop : (i : ℕ) (xs : List A) → length (drop i xs) ≡ length xs - i
  length-drop zero xs = omega arith
  length-drop (suc i) [] = omega arith
  length-drop (suc i) (x ∷ xs) = omega (arith, length-drop i xs)

  length-take : (i : ℕ) (xs : List A) → i ≤ length xs → length (take i xs) ≡ i
  length-take zero xs le = refl
  length-take (suc i) [] le = absurd (omega arith)
  length-take (suc i) (x ∷ xs) le = ap suc (length-take i xs (omega arith))

  get_elem?-rotate :
      (i p : ℕ) (xs : List A)
      → i ≤ length xs
      → p < length xs
      → get_elem? (rotate i xs) (turned (length xs) i p) ≡ get_elem? xs p
  get_elem?-rotate i p xs i_le p_lt = elim (dec_le i p) [
    | yes ahead ↦
        ap (get_elem? (rotate i xs)) (ground arith)
        ∙ get_elem?-append_left (drop i xs) (take i xs) (p - i) (omega (arith, length-drop i xs))
        ∙ get_elem?-drop i (p - i) xs
        ∙ ap (get_elem? xs) (omega arith)
    | no behind ↦
        ap (get_elem? (rotate i xs)) (ground (arith, length-drop i xs))
        ∙ get_elem?-append_right (drop i xs) (take i xs) p
        ∙ get_elem?-take i p xs (omega arith)
  ]

-- Neither the delay nor the range of an index depends on where the reading starts.
pub delay-turned :
    (n i p : ℕ) (fresh : Bool)
    → i ≤ n
    → p < n
    → (turned n i p < n) × (delay n 0 (turned n i p) fresh ≡ delay n i p fresh)
delay-turned n i p fresh i_le p_lt = ground arith

-- Reading the ring from node `i` on renames the nodes.
module _ (x : Ptr) (i p : ℕ) (fresh : Bool) (ns : List RcuNode) (i_le : i ≤ length ns)
    (p_lt : p < length ns) where
  pub Located-rotate : Located x p fresh ns → Located x (turned (length ns) i p) fresh (rotate i ns)
  Located-rotate at =
      subst (λ o. has_in fresh o ≡ true) (sym (get_elem?-rotate i p ns i_le p_lt)) at
    where
      has_in : Bool → Option RcuNode → Bool
      has_in fresh o = has x (
          if fresh
          then elim o [ none ↦ [] | some n ↦ n.queue0 ]
          else elim o [ none ↦ [] | some n ↦ n.queue1 ])

  pub length-rotate : length (rotate i ns) ≡ length ns
  length-rotate =
      omega (arith, length-append (drop i ns) (take i ns), length-drop i ns, length-take i ns)
