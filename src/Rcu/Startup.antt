-- ===== src/Rcu/Startup.antt =====
-- fastsmr/fastsmr.c `rcu_startup` and `copyStats`, fastsmr/smrscan.c `smr_startup` and `smr_shutdown`.
use atomic_ptr_plus.Base.{ℕ, zero, suc, [], Option, none, some, if◌then◌else◌}
use atomic_ptr_plus.Rcu.State.{Stats, World, is_nil}

abbrev no_stats : Stats
no_stats = record {
  qpoints = 0;
  qexplicit = 0;
  norun = 0;
  qwaits = 0;
  wwaits = 0;
  qtime = 0;
  wtime = 0;
  defers = 0;
  undefers = 0;
  defersigs = 0;
  idle = 0;
  smrempty = 0;
  smrfull = 0;
  smrpartial = 0;
}

-- `smr_startup`: an array for 50 hazard pointers, none in it yet.
unfoldable pub smr_startup : World → World
smr_startup w = record w { hptr = []; hsize = 50 }

-- `rcu_startup`, but for the start of the polling thread.
unfoldable pub rcu_startup : World → World
unfolding smr_startup
rcu_startup w = record (smr_startup w) { stats = no_stats }

-- `copyStats`: the statistics and the field `deferred_work` of the copy.
unfoldable pub copy_stats : World → Stats × ℕ
copy_stats w = (w.stats, w.deferred_work)

-- The loop of `smr_shutdown`; `others` is what other threads do during a wait, and none means that
-- threads with hazard pointers were left for all the rounds.
unfoldable pub smr_shutdown : ℕ → (ℕ → World → World) → World → Option World
smr_shutdown zero others w = none
smr_shutdown (suc rounds) others w =
    let rest = smr_shutdown rounds others (others rounds w) in
    if is_nil w.smr_nodes then some w else rest
