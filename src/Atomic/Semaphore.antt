-- ===== src/Atomic/Semaphore.antt =====
-- Semaphores and conditions, kernel/atomic/semaphore.c and kernel/atomic/cond.c, on the queue of
-- kernel/lib/queue.c, read as the list of its threads. A call is cut where it holds no lock: sema_wait
-- is a stretch up to the sleep and one for each return from it. A thread leaves the queue by a signal
-- alone: the wake-up of a sleeping thread by thread_send_signal, which leaves it queued, is not here.
pub mod Balance
pub mod Waiting
pub mod Signalling
pub mod Reach
mod Tests
use re_xvapor.Base.{
  ℕ, ◌+◌, ◌-◌, ◌%◌, ◌^◌, Bool, true, false, ◌&&◌, ◌||◌, Option, none, some, List, [], ◌∷◌, ◌++◌,
  update, leb, ◌==◌, if◌then◌else◌,
}

pub data ThreadState : Type 0 where
  unused : ThreadState
  used : ThreadState
  runnable : ThreadState
  running : ThreadState
  sleeping : ThreadState

abbrev pub is_sleeping : ThreadState → Bool
is_sleeping unused = false
is_sleeping used = false
is_sleeping runnable = false
is_sleeping running = false
is_sleeping sleeping = true

-- `struct semaphore` with the fields of the threads that it uses: `chan` is whether wait_chan_entry
-- is set. `value` and `wakeup` are ints.
pub record Sema : Type 0 where
  pub value : ℕ
  pub wakeup : ℕ
  pub waiting : List ℕ
  pub state : ℕ → ThreadState
  pub chan : ℕ → Bool

abbrev pub negative : ℕ → Bool
negative v = leb (2 ^ 31) v

abbrev pub inc : ℕ → ℕ
inc v = (v + 1) % 2 ^ 32

abbrev pub dec : ℕ → ℕ
dec v = (v + (2 ^ 32 - 1)) % 2 ^ 32

abbrev pub sema_init : ℕ → (ℕ → ThreadState) → (ℕ → Bool) → Sema
sema_init value state chan = record {
  value = value;
  wakeup = 0;
  waiting = [];
  state = state;
  chan = chan;
}

-- Up to thread_sched.
unfoldable pub cond_wait : ℕ → Sema → Sema
cond_wait t s = record s {
  state = update s.state t sleeping;
  waiting = s.waiting ++ t ∷ [];
  chan = update s.chan t true;
}

-- A sleeping thread is taken off the queue; `none` is a panic.
unfoldable pub wake : ℕ → List ℕ → Sema → Option Sema
wake t rest s =
    if is_sleeping (s.state t) && s.chan t
    then some (record s {
      waiting = rest;
      chan = update s.chan t false;
      state = update s.state t runnable;
    })
    else none

unfoldable pub cond_signal : Sema → Option Sema
unfolding wake
cond_signal s = elim s.waiting [ [] ↦ some s | t ∷ rest ↦ wake t rest s ]

-- The loop of cond_broadcast on the queue `ts`.
unfoldable pub broadcast_from : List ℕ → Sema → Option Sema
unfolding wake
broadcast_from [] s = some s
broadcast_from (t ∷ ts) s = elim (wake t ts s) [ none ↦ none | some s' ↦ broadcast_from ts s' ]

unfoldable pub cond_broadcast : Sema → Option Sema
unfolding broadcast_from
cond_broadcast s = broadcast_from s.waiting s

-- Whether the call returns at once; it sleeps if not.
unfoldable pub sema_wait : ℕ → Sema → Bool × Sema
unfolding cond_wait
sema_wait t s =
    let v = dec s.value in
    if negative v
    then (false, cond_wait t (record s { value = v }))
    else (true, record s { value = v })

-- Behind cond_wait, for a thread that is not killed.
unfoldable pub sema_wait_woken : ℕ → Sema → Bool × Sema
unfolding cond_wait
sema_wait_woken t s =
    if s.wakeup == 0 then (false, cond_wait t s) else (true, record s { wakeup = dec s.wakeup })

unfoldable pub sema_signal : Sema → Option Sema
unfolding cond_signal
sema_signal s =
    let v = inc s.value in
    if v == 0 || negative v
    then cond_signal (record s { value = v; wakeup = inc s.wakeup })
    else some (record s { value = v })
