-- ===== src/Base/Lists.antt =====
-- Lists measured by native numbers, membership as a Boolean, and counting of pointers.
use Prim.Native.Nat.{ℕ, zero, suc, ◌+◌}
use mathlib.Core.Path.{◌≡◌, refl}
use mathlib.Core.Bool.{Bool, true, false, not, ◌||◌, ◌&&◌}
use mathlib.Core.List.{List, [], ◌∷◌, ◌++◌}
use mathlib.Core.Option.{Option, none, some}
use native.Mathlib.Omega.{arith}
use atomic_ptr_plus.Base.Tests.{◌==◌, if◌then◌else◌}

module _ {ℓ} {A : Type ℓ} where
  abbrev pub length : List A → ℕ
  length [] = 0
  length (x ∷ xs) = suc (length xs)

  -- The element at an index changed by `f`; an index out of range changes nothing.
  abbrev pub modify : ℕ → (A → A) → List A → List A
  modify i f [] = []
  modify zero f (x ∷ xs) = f x ∷ xs
  modify (suc i) f (x ∷ xs) = x ∷ modify i f xs

  abbrev pub get_elem? : List A → ℕ → Option A
  get_elem? [] i = none
  get_elem? (x ∷ xs) zero = some x
  get_elem? (x ∷ xs) (suc i) = get_elem? xs i

  abbrev pub drop : ℕ → List A → List A
  drop zero xs = xs
  drop (suc n) [] = []
  drop (suc n) (x ∷ xs) = drop n xs

  abbrev pub take : ℕ → List A → List A
  take zero xs = []
  take (suc n) [] = []
  take (suc n) (x ∷ xs) = x ∷ take n xs

  pub length-append : (xs ys : List A) → length (xs ++ ys) ≡ length xs + length ys
  length-append [] ys = omega arith
  length-append (x ∷ xs) ys = omega (arith, length-append xs ys)

-- Membership of a pointer.
abbrev pub has : ℕ → List ℕ → Bool
has a [] = false
has a (x ∷ xs) = (a == x) || has a xs

pub has-append : (a : ℕ) (front back : List ℕ) → has a (front ++ back) ≡ (has a front || has a back)
has-append a [] back = refl
has-append a (p ∷ front) back = ground (arith, has-append a front back)

-- How many elements pass a test.
abbrev pub count : (ℕ → Bool) → List ℕ → ℕ
count test [] = 0
count test (x ∷ xs) = (if test x then 1 else 0) + count test xs

pub count-append :
    (test : ℕ → Bool) (front back : List ℕ)
    → count test (front ++ back) ≡ count test front + count test back
count-append test [] back = omega arith
count-append test (p ∷ front) back = omega (arith, count-append test front back)

-- No pointer occurs twice.
abbrev pub nodup : List ℕ → Bool
nodup [] = true
nodup (x ∷ xs) = not (has x xs) && nodup xs

-- The elements that pass a test, in order.
abbrev pub keep {ℓ} : {A : Type ℓ} → (A → Bool) → List A → List A
keep test [] = []
keep test (x ∷ xs) = if test x then x ∷ keep test xs else keep test xs

pub has-keep : (test : ℕ → Bool) (a : ℕ) (xs : List ℕ) → has a (keep test xs) ≡ (test a && has a xs)
has-keep test a [] = ground arith
has-keep test a (x ∷ xs) = ground (arith, has-keep test a xs)
