-- ===== src/Rcu/Clock.antt =====
-- fastsmr/utime.h, and the time in fastsmr/fastsmr.c: `rcu_setMinWait`, `rcu_getMinWait` and the
-- deadline of a timed wait. A `utime_t` has 64 bits and counts microseconds; an `int` is given as the
-- 64-bit pattern that it extends to.
use atomic_ptr_plus.Base.{ℕ, ◌+◌, ◌*◌, ◌/◌, ◌%◌, ◌≤◌, ◌<◌, ◌≡◌, arith, to_int, word}

abbrev pub microsec : ℕ
microsec = 1000000

unfoldable pub utime_sec : ℕ → ℕ
utime_sec t = to_int (t / microsec)

unfoldable pub utime_usec : ℕ → ℕ
utime_usec t = to_int (t % microsec)

unfoldable pub utime_nsec : ℕ → ℕ
utime_nsec t = to_int (t % microsec * 1000)

unfoldable pub mtime_utime : ℕ → ℕ
mtime_utime t = to_int (t * 1000)

unfoldable pub utime_mtime : ℕ → ℕ
utime_mtime t = to_int (t / 1000)

unfoldable pub timeval_utime : ℕ → ℕ → ℕ
timeval_utime tv_sec tv_usec = (tv_sec * microsec + tv_usec) % word

-- `getutimeofday`, from what `gettimeofday` gives.
unfoldable pub getutimeofday : ℕ × ℕ → ℕ
getutimeofday (tv_sec, tv_usec) = timeval_utime tv_sec tv_usec

-- `rcu_setMinWait`: the new value of `rcu_minWait`.
unfoldable pub rcu_set_min_wait : ℕ → ℕ
rcu_set_min_wait val = mtime_utime val

unfoldable pub rcu_get_min_wait : ℕ → ℕ
rcu_get_min_wait rcu_min_wait = utime_mtime rcu_min_wait

-- The `nexttime` of a timed wait that starts at `now`: its tv_sec and tv_nsec.
unfoldable pub deadline : ℕ → ℕ → ℕ × ℕ
deadline now wait = let next = (now + wait) % word in (utime_sec next, utime_nsec next)

-- The minimum wait is read back as it was set, up to 2147483 milliseconds: a longer one does not fit
-- the `int` in which it is turned into microseconds.
pub rcu_get_min_wait-rcu_set_min_wait :
    (val : ℕ) → val ≤ 2147483 → rcu_get_min_wait (rcu_set_min_wait val) ≡ val
unfolding rcu_get_min_wait rcu_set_min_wait mtime_utime utime_mtime to_int
rcu_get_min_wait-rcu_set_min_wait val fits = ground arith

-- The seconds and microseconds of the clock are read back from its time.
getutimeofday_parts :
    (tv_sec tv_usec : ℕ)
    → tv_sec < 2147483648
    → tv_usec < microsec
    → (utime_sec (getutimeofday (tv_sec, tv_usec)) ≡ tv_sec)
      × (utime_usec (getutimeofday (tv_sec, tv_usec)) ≡ tv_usec)
unfolding getutimeofday utime_sec utime_usec timeval_utime to_int
getutimeofday_parts tv_sec tv_usec sec usec = ground arith

-- The deadline of a timed wait is the time of its start plus the wait, to the nanosecond, and well
-- formed, as long as it lies before 2 ^ 31 seconds (in the year 2038).
pub deadline_exact :
    (now wait : ℕ)
    → now + wait < 2147483648 * microsec
    → ((deadline now wait).0 * 1000000000 + (deadline now wait).1 ≡ (now + wait) * 1000)
      × ((deadline now wait).1 < 1000000000)
unfolding deadline utime_sec utime_nsec to_int
deadline_exact now wait before = ground arith
