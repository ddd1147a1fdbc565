-- ===== src/AtomicPtr/Lifetime.antt =====
-- How long an atomic_ptr_ref lives: reachable memories.
use atomic_ptr_plus.Base.{
  sum_to-found, sum_to-zero, ℕ, ◌+◌, ◌<◌, ◌≡◌, ◌≢◌, [], true, false, some, ◌⊎◌, inl, inr, ◌↔◌, word,
  arith, Bool-cases, ◌==◌,
}
use atomic_ptr_plus.Fifo.{Ptr, null}
use atomic_ptr_plus.AtomicPtr.{Memory, null_ptr}
use atomic_ptr_plus.AtomicPtr.Counts.{refers, holds, owners, users, loans}
use atomic_ptr_plus.AtomicPtr.Ledger.{Balanced, Inv}
use atomic_ptr_plus.AtomicPtr.Moves.{Inv-live, local-used, atomic-owned}
use atomic_ptr_plus.AtomicPtr.Runs.{Event, step, Enabled, step-Keeps}

-- Before any variable is constructed.
abbrev pub start : Memory
start = record {
  refs = λ _. record { ecount = 0; rcount = 0; object = null; pool = null };
  live = λ _. false;
  atomics = λ _. null_ptr;
  locals = λ _. null;
  deleted = [];
  pooled = [];
}

pub data Reach (n : ℕ) : Memory → Type 0 where
  begin : Reach n start
  after :
      {m m' : Memory} → Reach n m → (e : Event) → Enabled n e m → step e m ≡ some m' → Reach n m'

start-Inv : (n : ℕ) → Inv n start
start-Inv n o real =
    (sum_to-zero (refers o) n null_ptr (ground arith), sum_to-zero (holds o) n null (ground arith))

step-Inv :
    (n : ℕ) (m m' : Memory) (e : Event)
    → n < word
    → Inv n m
    → Enabled n e m
    → step e m ≡ some m'
    → Inv n m'
step-Inv n m m' e fits inv enabled ran =
    let (t, run, kept) = step-Keeps n e m fits inv enabled in
    let same : t ≡ m' = cc in rw (← same) kept

pub Reach-Inv : {n : ℕ} {m : Memory} → n < word → Reach n m → Inv n m
Reach-Inv {n} fits begin = start-Inv n
Reach-Inv {n} fits (after {m} {m'} r e enabled ran) =
    step-Inv n m m' e fits (Reach-Inv fits r) enabled ran

-- Some variable refers to the ref.
abbrev pub Referred : ℕ → Memory → Ptr → Type 0
Referred n m o =
    ((a : ℕ) × (a < n) × ((m.atomics a).ref ≡ o)) ⊎ ((i : ℕ) × (i < n) × (m.locals i ≡ o))

found : (n : ℕ) (m : Memory) (o : Ptr) → 0 < owners n m o + users n m o → Referred n m o
found n m o some_left = elim (Bool-cases (owners n m o == 0)) [
  | inl no_own ↦
      let (i, lt, here) = sum_to-found (holds o) n m.locals (ground arith) in
      inr (i, lt, ground arith)
  | inr own ↦
      let (a, lt, here) = sum_to-found (refers o) n m.atomics (ground arith) in
      inl (a, lt, ground arith)
]

pub referred : (n : ℕ) (m : Memory) (o : Ptr) → Referred n m o → 0 < owners n m o + users n m o
referred n m o (inl (a, lt, here)) =
    let owned : 0 < owners n m o = rw here at (atomic-owned n m a lt) in omega arith
referred n m o (inr (i, lt, here)) =
    let used : 0 < users n m o = rw here at (local-used n m i lt) in omega arith

pub live-found :
    (n : ℕ) (m : Memory) (o : Ptr) → Inv n m → o ≢ null → m.live o ≡ true → Referred n m o
live-found n m o inv real alive =
    let (rc, ec, bound, left) : Balanced true (m.refs o) (owners n m o) (loans n m o)
        (users n m o) =
      rw alive at (inv o real) in
    found n m o left

-- Whatever the threads do, in any order: a ref is live exactly as long as an atomic_ptr or a
-- local_ptr refers to it. It is neither deleted too early nor leaked. There are less than 2 ^ 64
-- variables of each kind.
pub Reach-live :
    (n : ℕ) (m : Memory) (o : Ptr)
    → n < word
    → Reach n m
    → o ≢ null
    → (m.live o ≡ true) ↔ Referred n m o
Reach-live n m o fits r real =
    let inv = Reach-Inv fits r in
    (
      λ alive. live-found n m o inv real alive,
      λ here. Inv-live n m o inv real (referred n m o here),
    )

-- No step of a reachable memory touches a ref that was deleted: an enabled one has a result.
pub Reach-step :
    (n : ℕ) (m : Memory) (e : Event)
    → n < word
    → Reach n m
    → Enabled n e m
    → (m' : Memory) × (step e m ≡ some m')
Reach-step n m e fits r enabled =
    let (m', run, inv) = step-Keeps n e m fits (Reach-Inv fits r) enabled in (m', run)
