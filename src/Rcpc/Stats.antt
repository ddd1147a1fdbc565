-- ===== src/Rcpc/Stats.antt =====
-- rcpc/rcpc.c `_freeStats`: the statistics of a thread that ends are added to those of the proxy.
use atomic_ptr_plus.Base.{ℕ, zero, suc, ◌≡◌, arith, add_word, update, if◌then◌else◌, ltb}
use atomic_ptr_plus.Rcpc.{RcpcStats}

-- The loop over `latency`, with the rounds left; the rounds are made from the last index down.
unfoldable pub add_latencies : ℕ → (ℕ → ℕ) → (ℕ → ℕ) → ℕ → ℕ
add_latencies zero l p = p
add_latencies (suc j) l p = add_latencies j l (update p j (add_word (p j) (l j)))

unfoldable pub rcpc_free_stats : ℕ → RcpcStats → RcpcStats → RcpcStats
rcpc_free_stats max_latency l p = record {
  tries = add_word p.tries l.tries;
  successful = add_word p.successful l.successful;
  attempts = add_word p.attempts l.attempts;
  reuse = add_word p.reuse l.reuse;
  data_frees = add_word p.data_frees l.data_frees;
  latency = add_latencies (suc max_latency) l.latency p.latency;
}

add_latencies-at :
    (k : ℕ) (l p : ℕ → ℕ) (j : ℕ)
    → add_latencies k l p j ≡ (if ltb j k then add_word (p j) (l j) else p j)
unfolding add_latencies
add_latencies-at zero l p j = ground arith
add_latencies-at (suc k) l p j =
    ground (arith, add_latencies-at k l (update p k (add_word (p k) (l k))) j)

-- Each latency up to the maximum is added once, and the others are left alone.
latency-rcpc_free_stats :
    (max_latency : ℕ) (l p : RcpcStats) (j : ℕ)
    → (rcpc_free_stats max_latency l p).latency j
      ≡ (if ltb j (suc max_latency) then add_word (p.latency j) (l.latency j) else p.latency j)
unfolding rcpc_free_stats
latency-rcpc_free_stats max_latency l p j = add_latencies-at (suc max_latency) l.latency p.latency j
