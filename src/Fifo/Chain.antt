-- ===== src/Fifo/Chain.antt =====
-- Chains of `next` fields, and what a queue of fastsmr/fifo.c stands for.
use atomic_ptr_plus.Base.{
  ◌≡◌, ◌≢◌, refl, true, false, List, [], ◌∷◌, ◌++◌, arith, has, has-append, if◌then◌else◌,
}
use atomic_ptr_plus.Fifo.{Ptr, null, Links, write, Fifo}

-- From `p` the `next` fields lead through the distinct items `xs` to `stop`.
abbrev pub Chain : Links → Ptr → List Ptr → Ptr → Type 0
Chain h p [] stop = p ≡ stop
Chain h p (x ∷ xs) stop = (p ≡ x) × (x ≢ null) × (has x xs ≡ false) × Chain h (h x) xs stop

abbrev pub Disjoint : List Ptr → List Ptr → Type 0
Disjoint xs ys = (a : Ptr) → has a xs ≡ true → has a ys ≡ false

-- The last item, null for an empty list.
abbrev pub last : List Ptr → Ptr
last [] = null
last (x ∷ []) = x
last (x ∷ y ∷ xs) = last (y ∷ xs)

-- `g` differs from `h` at most at the items of `xs`.
abbrev pub SameOutside : List Ptr → Links → Links → Type 0
SameOutside xs h g = (a : Ptr) → g a ≡ (if has a xs then g a else h a)

-- The queue `q` holds the items `xs`, the oldest first.
pub record IsFifo (h : Links) (q : Fifo) (xs : List Ptr) : Type 0 where
  pub chain : Chain h q.tail xs null
  pub newest : q.head ≡ last xs

pub has-last : (x : Ptr) (xs : List Ptr) → has (last (x ∷ xs)) (x ∷ xs) ≡ true
has-last x [] = ground arith
has-last x (y ∷ xs) = ground (arith, has-last y xs)

pub last-append : (xs : List Ptr) (y : Ptr) (ys : List Ptr) → last (xs ++ y ∷ ys) ≡ last (y ∷ ys)
last-append [] y ys = refl
last-append (x ∷ []) y ys = refl
last-append (x ∷ x' ∷ xs) y ys = last-append (x' ∷ xs) y ys

-- The last item of a chain is an item, so it is not null.
pub last-ne-null :
    (h : Links) (p x : Ptr) (xs : List Ptr) → Chain h p (x ∷ xs) null → last (x ∷ xs) ≢ null
last-ne-null h p x [] c = c.1
last-ne-null h p x (y ∷ xs) c = last-ne-null h (h x) y xs c.3

-- A chain survives any change that spares its own items.
pub Chain-frame :
    (h g : Links) (p : Ptr) (xs : List Ptr) (stop : Ptr)
    → Chain h p xs stop
    → ((a : Ptr) → has a xs ≡ true → g a ≡ h a)
    → Chain g p xs stop
Chain-frame h g p [] stop c same = c
Chain-frame h g p (x ∷ xs) stop c same = (
  c.0,
  c.1,
  c.2,
  rw (same x (ground arith)) (Chain-frame h g (h x) xs stop c.3 (λ a i. same a (ground arith))),
)

pub Chain-write :
    (h : Links) (p : Ptr) (xs : List Ptr) (stop a v : Ptr)
    → Chain h p xs stop
    → has a xs ≡ false
    → Chain (write h a v) p xs stop
Chain-write h p xs stop a v c out = Chain-frame h (write h a v) p xs stop c (λ b i. ground arith)

-- The items of `ys` go behind those of `x ∷ xs` by one write to the last item.
pub Chain-link :
    (h : Links) (p x : Ptr) (xs : List Ptr) (old target : Ptr) (ys : List Ptr) (stop : Ptr)
    → Chain h p (x ∷ xs) old
    → Chain h target ys stop
    → Disjoint (x ∷ xs) ys
    → Chain (write h (last (x ∷ xs)) target) p ((x ∷ xs) ++ ys) stop
Chain-link h p x [] old target ys stop c d apart = (
  c.0,
  c.1,
  apart x (ground arith),
  rw (written x) (Chain-write h target ys stop x target d (apart x (ground arith))),
)
  where
    written : (a : Ptr) → write h a target a ≡ target
    written a = ground arith
Chain-link h p x (y ∷ xs) old target ys stop c d apart = (
  c.0,
  c.1,
  rw (has-append x (y ∷ xs) ys) (ground (arith, apart x)),
  rw kept (Chain-link h (h x) y xs old target ys stop c.3 d (λ a i. apart a (ground arith))),
)
  where
    kept : write h (last (y ∷ xs)) target x ≡ h x
    kept = ground (arith, has-last y xs, c.2)
