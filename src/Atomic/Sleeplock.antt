-- ===== src/Atomic/Sleeplock.antt =====
-- Sleep locks, kernel/atomic/sleeplock.c, with thread_sleep and thread_wakeup_chan of
-- kernel/sched/thread.c. Each call is a stretch under the lock's spin lock, up to a sleep or its end.
pub mod Order
pub mod Reach
mod Tests
use re_xvapor.Base.{ℕ, Bool, true, false, not, ◌&&◌, update, ltb, ◌==◌, if◌then◌else◌}
use re_xvapor.Atomic.Semaphore.{ThreadState, runnable, running, sleeping, is_sleeping}

pub record Sleeplock : Type 0 where
  pub locked : Bool
  pub pid : ℕ

-- The threads as the two functions of the scheduler see them.
pub record Threads : Type 0 where
  pub state : ℕ → ThreadState
  pub chan : ℕ → ℕ

abbrev pub initsleeplock : Sleeplock
initsleeplock = record { locked = false; pid = 0 }

-- Up to thread_sched, with no timeout.
unfoldable pub thread_sleep : ℕ → ℕ → Threads → Threads
thread_sleep chan t s = record { state = update s.state t sleeping; chan = update s.chan t chan }

-- Behind thread_sched.
unfoldable pub thread_slept : ℕ → Threads → Threads
thread_slept t s = record { state = update s.state t running; chan = update s.chan t 0 }

-- By the thread `cur`; the pool has `nthreads` threads.
unfoldable pub thread_wakeup_chan : ℕ → ℕ → ℕ → Threads → Threads
thread_wakeup_chan nthreads chan cur s = record s {
  state = λ t.
      if ltb t nthreads && (not (t == cur) && (s.chan t == chan && is_sleeping (s.state t)))
      then runnable
      else s.state t;
}

-- A round of acquiresleep's loop, with the lock if it is free; `lk` is the lock's address.
unfoldable pub acquiresleep : ℕ → ℕ → ℕ → Sleeplock → Threads → Bool × Sleeplock × Threads
unfolding thread_sleep
acquiresleep lk t pid l s =
    if l.locked
    then (false, l, thread_sleep lk t s)
    else (true, record { locked = true; pid = pid }, s)

unfoldable pub releasesleep : ℕ → ℕ → ℕ → Sleeplock → Threads → Sleeplock × Threads
unfolding thread_wakeup_chan
releasesleep nthreads lk t l s =
    (record { locked = false; pid = 0 }, thread_wakeup_chan nthreads lk t s)

unfoldable pub holdingsleep : ℕ → Sleeplock → Bool
holdingsleep pid l = l.locked && l.pid == pid
