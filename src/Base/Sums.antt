-- ===== src/Base/Sums.antt =====
-- Families indexed by variables or threads: update at one index, and sums of weights.
use Prim.Native.Nat.{ℕ, zero, suc, ◌+◌, ◌≤◌, ◌<◌}
use mathlib.Core.Path.{◌≡◌, refl, sym}
use mathlib.Core.Logic.{◌≢◌, inl, inr}
use native.Mathlib.Omega.{arith}
use atomic_ptr_plus.Base.Tests.{◌==◌, if◌then◌else◌, Bool-cases, ==_refl, ==_no}

abbrev pub update {ℓ} : {A : Type ℓ} → (ℕ → A) → ℕ → A → ℕ → A
update f i v j = if i == j then v else f j

pub update-same {ℓ} : {A : Type ℓ} (f : ℕ → A) (i : ℕ) (v : A) → update f i v i ≡ v
update-same f i v = rw (==_refl i) refl

pub update-other {ℓ} : {A : Type ℓ} (f : ℕ → A) (i j : ℕ) (v : A) → j ≢ i → update f i v j ≡ f j
update-other f i j v h = rw (==_no i j (λ e. h (sym e))) refl

module _ {ℓ} {A : Type ℓ} (weigh : A → ℕ) where
  unfoldable pub sum_to : ℕ → (ℕ → A) → ℕ
  sum_to zero f = 0
  sum_to (suc k) f = weigh (f k) + sum_to k f

  -- A variable beyond the sum does not count.
  sum_to-beyond : (k : ℕ) (f : ℕ → A) (i : ℕ) (v : A) → k ≤ i → sum_to k (update f i v) ≡ sum_to k f
  unfolding sum_to
  sum_to-beyond zero f i v out = refl
  sum_to-beyond (suc k) f i v out = ground (arith, sum_to-beyond k f i v)

  pub sum_to-update :
      (k : ℕ) (f : ℕ → A) (i : ℕ) (v : A)
      → i < k
      → weigh (f i) + sum_to k (update f i v) ≡ weigh v + sum_to k f
  unfolding sum_to
  sum_to-update zero f i v out = absurd (omega arith)
  sum_to-update (suc k) f i v lt = elim (Bool-cases (i == k)) [
    | inl last ↦ ground (arith, sum_to-beyond k f i v)
    | inr below ↦ ground (arith, sum_to-update k f i v)
  ]

  pub weigh-le-sum_to : (k : ℕ) (f : ℕ → A) (i : ℕ) → i < k → weigh (f i) ≤ sum_to k f
  unfolding sum_to
  weigh-le-sum_to zero f i out = absurd (omega arith)
  weigh-le-sum_to (suc k) f i lt = elim (Bool-cases (i == k)) [
    | inl last ↦ ground arith
    | inr below ↦ ground (arith, weigh-le-sum_to k f i)
  ]

  -- A positive sum has a variable that counts.
  pub sum_to-found : (k : ℕ) (f : ℕ → A) → 0 < sum_to k f → (i : ℕ) × (i < k) × (0 < weigh (f i))
  unfolding sum_to
  sum_to-found zero f some_weight = absurd (omega arith)
  sum_to-found (suc k) f some_weight = elim (Bool-cases (weigh (f k) == 0)) [
    | inl none_here ↦
        let (i, lt, found) = sum_to-found k f (ground arith) in (i, omega arith, found)
    | inr here ↦ (k, omega arith, ground arith)
  ]

  pub sum_to-zero : (k : ℕ) (v : A) → weigh v ≡ 0 → sum_to k (λ _. v) ≡ 0
  unfolding sum_to
  sum_to-zero zero v e = refl
  sum_to-zero (suc k) v e = omega (arith, sum_to-zero k v e)

  pub sum_to-le : ((v : A) → weigh v ≤ 1) → (k : ℕ) (f : ℕ → A) → sum_to k f ≤ k
  unfolding sum_to
  sum_to-le one zero f = omega arith
  sum_to-le one (suc k) f = omega (arith, one (f k), sum_to-le one k f)
