-- ===== src/Rcu/SmrScan/Ensures.antt =====
-- Calls that may abort: what holds of the state that they return, if they return.
use atomic_ptr_plus.Base.{◌≡◌, refl}
use atomic_ptr_plus.Rcu.Hazard.{Outcome, aborted, returned}
use atomic_ptr_plus.Rcu.SmrScan.{◌>>=◌}

abbrev pub Ensures {ℓ} : {A : Type ℓ} → (A → Type 0) → Outcome A → Type 0
Ensures P aborted = Unit
Ensures P (returned a) = P a

module _ {ℓ} {A : Type ℓ} (P : A → Type 0) where
  pub Ensures-bind {κ} :
      {B : Type κ} (Q : B → Type 0) (m : Outcome A) (f : A → Outcome B)
      → Ensures P m
      → ((a : A) → P a → Ensures Q (f a))
      → Ensures Q (m >>= f)
  Ensures-bind Q aborted f h next = tt
  Ensures-bind Q (returned a) f h next = next a h

  pub Ensures-mono :
      (Q : A → Type 0) (m : Outcome A) → Ensures P m → ((a : A) → P a → Q a) → Ensures Q m
  Ensures-mono Q aborted h weaken = tt
  Ensures-mono Q (returned a) h weaken = weaken a h

  pub Ensures-returned : (m : Outcome A) (a : A) → Ensures P m → m ≡ returned a → P a
  Ensures-returned m a h e = rw e at h

-- A chain of calls that returned: each part did.
pub >>=-eq-returned {ℓ κ} :
    {A : Type ℓ} {B : Type κ} (m : Outcome A) (f : A → Outcome B) {b : B}
    → (m >>= f) ≡ returned b
    → (a : A) × (m ≡ returned a) × (f a ≡ returned b)
>>=-eq-returned aborted f e = cc
>>=-eq-returned (returned a) f e = (a, refl, e)
