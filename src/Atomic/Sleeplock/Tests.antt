-- ===== src/Atomic/Sleeplock/Tests.antt =====
-- One thread holds a sleep lock and another waits for it.
use re_xvapor.Base.{ℕ, ◌≡◌, refl, arith}
use re_xvapor.Atomic.Semaphore.{running, runnable, sleeping}
use re_xvapor.Atomic.Sleeplock.{
  Threads, thread_sleep, thread_wakeup_chan, acquiresleep, releasesleep,
}
use re_xvapor.Atomic.Sleeplock.Order.{waits, inside, System, attempts, releases}
use re_xvapor.Atomic.Sleeplock.Reach.{enters, initial, Reach, starts, steps, Reach-holder}

abbrev all_run : Threads
all_run = record { state = λ t. running; chan = λ t. 0 }

abbrev begin : System
begin = initial all_run

abbrev held : System
held = attempts 64 1 11 begin.threads begin

abbrev contended : System
contended = attempts 64 2 12 held.threads held

contended-Reach : Reach 8 64 all_run contended
unfolding attempts acquiresleep
contended-Reach =
    steps held contended (steps begin held starts (enters 1 11 (omega arith) refl refl))
      (enters 2 12 (omega arith) refl refl)

Reach-holder_example :
    ((t u : ℕ) → contended.place t ≡ inside → contended.place u ≡ inside → t ≡ u)
    × ((t : ℕ)
        → contended.place t ≡ waits
        → contended.threads.state t ≡ sleeping
        → (u : ℕ) × (contended.place u ≡ inside))
Reach-holder_example = Reach-holder 8 64 all_run contended contended-Reach

-- The release wakes the second thread.
second_sleeps : contended.threads.state 2 ≡ sleeping
unfolding attempts acquiresleep thread_sleep
second_sleeps = refl

second_woken : (releases 8 64 1 contended).threads.state 2 ≡ runnable
unfolding releases releasesleep thread_wakeup_chan attempts acquiresleep thread_sleep
second_woken = refl
