-- ===== src/Atomic/Sleeplock/Reach.antt =====
-- A sleep lock (atomic/sleeplock.c) and its threads through any interleaving of their stretches.
use re_xvapor.Base.{ℕ, ◌<◌, ◌≡◌, ◌≢◌, refl, sym, ◌∙◌, subst, update_ne}
use re_xvapor.Atomic.Semaphore.{runnable, running, sleeping}
use re_xvapor.Atomic.Sleeplock.{Threads, initsleeplock, thread_slept}
use re_xvapor.Atomic.Sleeplock.Order.{
  outside, waits, inside, System, attempts, releases, IsOrdered, attempts-IsOrdered,
  leaves-IsOrdered, releases_lem,
}

pub data Step (nthreads lk : ℕ) (y y' : System) : Type 0 where
  enters :
      (t pid : ℕ)
      → t < nthreads
      → y.place t ≡ outside
      → y' ≡ attempts lk t pid y.threads y
      → Step nthreads lk y y'
  -- Woken, by the lock or by anything else.
  retries :
      (t pid : ℕ)
      → y.place t ≡ waits
      → y.threads.state t ≡ runnable
      → y' ≡ attempts lk t pid (thread_slept t y.threads) y
      → Step nthreads lk y y'
  leaves : (t : ℕ) → y.place t ≡ inside → y' ≡ releases nthreads lk t y → Step nthreads lk y y'
  -- The rest of the kernel wakes threads, and does anything with those that do not wait here.
  elsewhere :
      (s : Threads)
      → ((t : ℕ)
          → y.place t ≡ waits
          → s.state t ≡ sleeping
          → (y.threads.state t ≡ sleeping) × (s.chan t ≡ y.threads.chan t))
      → y' ≡ record y { threads = s }
      → Step nthreads lk y y'

abbrev pub initial : Threads → System
initial s = record { lock = initsleeplock; threads = s; place = λ t. outside }

pub data Reach (nthreads lk : ℕ) (s : Threads) : System → Type 0 where
  starts : Reach nthreads lk s (initial s)
  steps : (y y' : System) → Reach nthreads lk s y → Step nthreads lk y y' → Reach nthreads lk s y'

slept_same :
    (t : ℕ) (s : Threads) (u : ℕ)
    → t ≢ u
    → ((thread_slept t s).state u ≡ s.state u) × ((thread_slept t s).chan u ≡ s.chan u)
unfolding thread_slept
slept_same t s u ne = (update_ne s.state t u running ne, update_ne s.chan t u 0 ne)

Step-IsOrdered :
    (nthreads lk : ℕ) (y y' : System)
    → IsOrdered nthreads lk y
    → Step nthreads lk y y'
    → IsOrdered nthreads lk y'
Step-IsOrdered nthreads lk y y' h (enters t pid low out e) = subst (IsOrdered nthreads lk) (sym e) (
    attempts-IsOrdered nthreads lk t y h pid y.threads low (λ i. cc (sym out ∙ i))
      (λ u ne. (refl, refl)))
Step-IsOrdered nthreads lk y y' h (retries t pid at run e) = subst (IsOrdered nthreads lk) (sym e) (
    attempts-IsOrdered nthreads lk t y h pid (thread_slept t y.threads) (h.known t at)
      (λ i. cc (sym at ∙ i)) (slept_same t y.threads))
Step-IsOrdered nthreads lk y y' h (leaves t here e) =
    subst (IsOrdered nthreads lk) (sym (e ∙ releases_lem nthreads lk t y))
      (leaves-IsOrdered nthreads lk t y h here)
Step-IsOrdered nthreads lk y y' h (elsewhere s same e) =
    subst (IsOrdered nthreads lk) (sym e) (record {
      holder = h.holder;
      alone = h.alone;
      free = h.free;
      asleep = λ u at z.
          let (was, chan) = same u at z in let old = h.asleep u at was in (chan ∙ old.0, old.1);
      known = h.known;
    })

module _ (nthreads lk : ℕ) (s : Threads) where
  Reach-IsOrdered : (y : System) → Reach nthreads lk s y → IsOrdered nthreads lk y
  Reach-IsOrdered y starts = record {
    holder = λ e. cc e;
    alone = λ t u e e'. cc e;
    free = λ e t e'. cc e';
    asleep = λ t e e'. cc e;
    known = λ t e. cc e;
  }
  Reach-IsOrdered y (steps x z r e) = Step-IsOrdered nthreads lk x z (Reach-IsOrdered x r) e

  -- In every reached state of a sleep lock, at most one thread is between acquiresleep and
  -- releasesleep, and a thread sleeps in acquiresleep only while some thread is.
  pub Reach-holder :
      (y : System)
      → Reach nthreads lk s y
      → ((t u : ℕ) → y.place t ≡ inside → y.place u ≡ inside → t ≡ u)
        × ((t : ℕ)
            → y.place t ≡ waits
            → y.threads.state t ≡ sleeping
            → (u : ℕ) × (y.place u ≡ inside))
  Reach-holder y r =
      let h = Reach-IsOrdered y r in (h.alone, (λ t at z. h.holder (h.asleep t at z).1))
