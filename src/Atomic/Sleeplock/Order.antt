-- ===== src/Atomic/Sleeplock/Order.antt =====
-- A sleep lock with its threads (atomic/sleeplock.c), and what its calls keep.
use re_xvapor.Base.{
  ℕ, ◌<◌, ◌≡◌, ◌≢◌, refl, sym, ◌∙◌, ap, subst, true, false, Bool-cases, update, update_self,
  update_eq, update_ne, ltb, ◌==◌, ==→eq, ==→ne, if◌then◌else◌, arith, inl, inr, ◌⊎◌,
}
use re_xvapor.Atomic.Semaphore.{ThreadState, unused, used, runnable, running, sleeping, is_sleeping}
use re_xvapor.Atomic.Sleeplock.{
  Sleeplock, Threads, initsleeplock, thread_sleep, thread_wakeup_chan, acquiresleep, releasesleep,
}

pub data Place : Type 0 where
  outside : Place
  waits : Place
  inside : Place

pub record System : Type 0 where
  pub lock : Sleeplock
  pub threads : Threads
  pub place : ℕ → Place

-- A thread in the loop of acquiresleep.
unfoldable pub attempts : ℕ → ℕ → ℕ → Threads → System → System
unfolding acquiresleep
attempts lk t pid s y =
    let r = acquiresleep lk t pid y.lock s in
    record { lock = r.1; threads = r.2; place = update y.place t (if r.0 then inside else waits) }

unfoldable pub releases : ℕ → ℕ → ℕ → System → System
unfolding releasesleep
releases nthreads lk t y =
    let r = releasesleep nthreads lk t y.lock y.threads in
    record { lock = r.0; threads = r.1; place = update y.place t outside }

-- What holds between the calls.
pub record IsOrdered (nthreads lk : ℕ) (y : System) : Type 0 where
  pub holder : y.lock.locked ≡ true → (u : ℕ) × (y.place u ≡ inside)
  pub alone : (t u : ℕ) → y.place t ≡ inside → y.place u ≡ inside → t ≡ u
  pub free : y.lock.locked ≡ false → (t : ℕ) → y.place t ≢ inside
  pub asleep :
      (t : ℕ)
      → y.place t ≡ waits
      → y.threads.state t ≡ sleeping
      → (y.threads.chan t ≡ lk) × (y.lock.locked ≡ true)
  pub known : (t : ℕ) → y.place t ≡ waits → t < nthreads

-- The place of another thread, and of this one.
place_cases :
    (p : ℕ → Place) (t u : ℕ) (a b : Place)
    → update p t a u ≡ b
    → ((t ≡ u) × (a ≡ b)) ⊎ ((t ≢ u) × (p u ≡ b))
place_cases p t u a b e = elim (Bool-cases (t == u)) [
  | inl at ↦ inl (==→eq t u at, sym (update_eq p t u a (==→eq t u at)) ∙ e)
  | inr ne ↦ inr (==→ne t u ne, sym (update_ne p t u a (==→ne t u ne)) ∙ e)
]

sleeping_lem : (a : ThreadState) → is_sleeping a ≡ true → a ≡ sleeping
sleeping_lem unused e = cc e
sleeping_lem used e = cc e
sleeping_lem runnable e = cc e
sleeping_lem running e = cc e
sleeping_lem sleeping e = refl

module _ (nthreads lk t : ℕ) (y : System) (h : IsOrdered nthreads lk y) where
  -- The lock is held: the thread sleeps.
  sleeps-IsOrdered :
      (s : Threads)
      → t < nthreads
      → y.lock.locked ≡ true
      → y.place t ≢ inside
      → ((u : ℕ) → t ≢ u → (s.state u ≡ y.threads.state u) × (s.chan u ≡ y.threads.chan u))
      → IsOrdered nthreads lk
          (record { lock = y.lock; threads = thread_sleep lk t s; place = update y.place t waits })
  unfolding thread_sleep
  sleeps-IsOrdered s low held out same = record {
    holder = λ e.
        let (u, at) = h.holder e in
        (u, update_ne y.place t u waits (λ same. out (ap y.place same ∙ at)) ∙ at);
    alone = λ u v e e'. elim (place_cases y.place t u waits inside e) [
      | inl (at, k) ↦ cc k
      | inr (ne, k) ↦ elim (place_cases y.place t v waits inside e') [
        | inl (at', k') ↦ cc k'
        | inr (ne', k') ↦ h.alone u v k k'
      ]
    ];
    free = λ e. cc (sym held ∙ e);
    asleep = λ u e e'. elim (place_cases y.place t u waits waits e) [
      | inl (at, k) ↦ (update_eq s.chan t u lk at, held)
      | inr (ne, k) ↦
          let was : y.threads.state u ≡ sleeping =
            sym (same u ne).0 ∙ (sym (update_ne s.state t u sleeping ne) ∙ e') in
          (update_ne s.chan t u lk ne ∙ ((same u ne).1 ∙ (h.asleep u k was).0), held)
    ];
    known = λ u e. elim (place_cases y.place t u waits waits e) [
      | inl (at, k) ↦ subst (λ (v : ℕ). v < nthreads) at low
      | inr (ne, k) ↦ h.known u k
    ];
  }

  -- The lock is free: the thread takes it.
  takes-IsOrdered :
      (s : Threads) (pid : ℕ)
      → y.lock.locked ≡ false
      → ((u : ℕ) → t ≢ u → (s.state u ≡ y.threads.state u) × (s.chan u ≡ y.threads.chan u))
      → IsOrdered nthreads lk (record {
        lock = record { locked = true; pid = pid };
        threads = s;
        place = update y.place t inside;
      })
  takes-IsOrdered s pid none_inside same = record {
    holder = λ e. (t, update_self y.place t inside);
    alone = λ u v e e'. elim (place_cases y.place t u inside inside e) [
      | inl (at, k) ↦ elim (place_cases y.place t v inside inside e') [
        | inl (at', k') ↦ sym at ∙ at'
        | inr (ne', k') ↦ absurd (h.free none_inside v k')
      ]
      | inr (ne, k) ↦ absurd (h.free none_inside u k)
    ];
    free = λ e. cc e;
    asleep = λ u e e'. elim (place_cases y.place t u inside waits e) [
      | inl (at, k) ↦ cc k
      | inr (ne, k) ↦
          let was = h.asleep u k (sym (same u ne).0 ∙ e') in ((same u ne).1 ∙ was.0, refl)
    ];
    known = λ u e. elim (place_cases y.place t u inside waits e) [
      | inl (at, k) ↦ cc k
      | inr (ne, k) ↦ h.known u k
    ];
  }

  attempts_sleeps :
      (pid : ℕ) (s : Threads)
      → y.lock.locked ≡ true
      → attempts lk t pid s y
        ≡ record { lock = y.lock; threads = thread_sleep lk t s; place = update y.place t waits }
  unfolding attempts acquiresleep
  attempts_sleeps pid s e = rw e refl

  attempts_takes :
      (pid : ℕ) (s : Threads)
      → y.lock.locked ≡ false
      → attempts lk t pid s y ≡ record {
        lock = record { locked = true; pid = pid };
        threads = s;
        place = update y.place t inside;
      }
  unfolding attempts acquiresleep
  attempts_takes pid s e = rw e refl

  pub attempts-IsOrdered :
      (pid : ℕ) (s : Threads)
      → t < nthreads
      → y.place t ≢ inside
      → ((u : ℕ) → t ≢ u → (s.state u ≡ y.threads.state u) × (s.chan u ≡ y.threads.chan u))
      → IsOrdered nthreads lk (attempts lk t pid s y)
  attempts-IsOrdered pid s low out same = elim (Bool-cases y.lock.locked) [
    | inl held ↦
        subst (IsOrdered nthreads lk) (sym (attempts_sleeps pid s held))
          (sleeps-IsOrdered s low held out same)
    | inr none_inside ↦
        subst (IsOrdered nthreads lk) (sym (attempts_takes pid s none_inside))
          (takes-IsOrdered s pid none_inside same)
  ]

  unwoken :
      (u : ℕ)
      → is_sleeping (y.threads.state u) ≡ false
      → (thread_wakeup_chan nthreads lk t y.threads).state u ≡ y.threads.state u
  unfolding thread_wakeup_chan
  unwoken u up = rw up (ground arith)

  -- No thread that waits is left asleep.
  awake :
      (u : ℕ)
      → t ≢ u
      → y.place u ≡ waits
      → (thread_wakeup_chan nthreads lk t y.threads).state u ≢ sleeping
  unfolding thread_wakeup_chan
  awake u ne at e = elim (Bool-cases (is_sleeping (y.threads.state u))) [
    | inl asleep ↦
        let here = h.asleep u at (sleeping_lem _ asleep) in
        let low : ltb u nthreads ≡ true = ground (arith, h.known u at) in
        let other : (u == t) ≡ false = ground (arith, ne) in
        let chan : (y.threads.chan u == lk) ≡ true = ground (arith, here.0) in
        let woken : (thread_wakeup_chan nthreads lk t y.threads).state u ≡ runnable =
          rw (low, other, chan, asleep) refl in
        cc (sym woken ∙ e)
    | inr up ↦
        let kept : (thread_wakeup_chan nthreads lk t y.threads).state u ≡ y.threads.state u =
          unwoken u up in
        cc (sym up ∙ ap is_sleeping (sym kept ∙ e))
  ]

  pub leaves-IsOrdered :
      y.place t ≡ inside
      → IsOrdered nthreads lk (record {
        lock = initsleeplock;
        threads = thread_wakeup_chan nthreads lk t y.threads;
        place = update y.place t outside;
      })
  leaves-IsOrdered here = record {
    holder = λ e. cc e;
    alone = λ u v e e'. elim (place_cases y.place t u outside inside e) [
      | inl (at, k) ↦ cc k
      | inr (ne, k) ↦ absurd (ne (h.alone t u here k))
    ];
    free = λ e u e'. elim (place_cases y.place t u outside inside e') [
      | inl (at, k) ↦ cc k
      | inr (ne, k) ↦ ne (h.alone t u here k)
    ];
    asleep = λ u e e'. elim (place_cases y.place t u outside waits e) [
      | inl (at, k) ↦ cc k
      | inr (ne, k) ↦ absurd (awake u ne k e')
    ];
    known = λ u e. elim (place_cases y.place t u outside waits e) [
      | inl (at, k) ↦ cc k
      | inr (ne, k) ↦ h.known u k
    ];
  }

pub releases_lem :
    (nthreads lk t : ℕ) (y : System)
    → releases nthreads lk t y ≡ record {
      lock = initsleeplock;
      threads = thread_wakeup_chan nthreads lk t y.threads;
      place = update y.place t outside;
    }
unfolding releases releasesleep
releases_lem nthreads lk t y = refl
