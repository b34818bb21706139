-- ===== src/Atomic/Semaphore/Signalling.antt =====
-- sema_signal (atomic/semaphore.c) does not panic, and keeps the counts and the queue in order.
use re_xvapor.Base.{
  ℕ, suc, ◌+◌, ◌-◌, ◌^◌, ◌<◌, ◌≡◌, ◌≢◌, refl, sym, ◌∙◌, ap, Bool, true, false, Bool-cases, ◌||◌,
  some, List, [], ◌∷◌, ◌++◌, length, take, update, update_self, update_ne, ◌==◌, arith, inl, inr,
}
use re_xvapor.Atomic.Semaphore.{
  ThreadState, sleeping, runnable, Sema, negative, inc, wake, cond_signal, sema_signal,
}
use re_xvapor.Atomic.Semaphore.Balance.{
  System, signals_step, deficit, surplus, IsAsleep, IsReady, IsSound, All-besides, NotIn-state,
}

signals_step_lem :
    (y : System) (s : Sema)
    → sema_signal y.sema ≡ some s
    → signals_step y
      ≡ some (record y {
        sema = s;
        woken = take (length y.sema.waiting - length s.waiting) y.sema.waiting ++ y.woken;
        signals = y.signals + 1;
      })
unfolding signals_step
signals_step_lem y s e = rw (signals_step, e) refl

none_left : (w : List ℕ) → take (length w - length w) w ≡ []
none_left w = let same : length w - length w ≡ 0 = omega arith in rw same refl

one_left : (t : ℕ) (rest : List ℕ) → take (suc (length rest) - length rest) (t ∷ rest) ≡ t ∷ []
one_left t rest = let one : suc (length rest) - length rest ≡ 1 = omega arith in rw one refl

module _ (v k : ℕ) (state : ℕ → ThreadState) (chan : ℕ → Bool) where
  abbrev sema : List ℕ → Sema
  sema w = record { value = v; wakeup = k; waiting = w; state = state; chan = chan }

  abbrev test : Bool
  test = inc v == 0 || negative (inc v)

  signal_plain :
      (w : List ℕ) → test ≡ false → sema_signal (sema w) ≡ some (record (sema w) { value = inc v })
  unfolding sema_signal
  signal_plain w e = rw (sema_signal, e) refl

  signal_empty :
      test ≡ true
      → sema_signal (sema []) ≡ some (record (sema []) { value = inc v; wakeup = inc k })
  unfolding sema_signal cond_signal
  signal_empty e = rw (sema_signal, e) refl

  signal_wakes :
      (t : ℕ) (rest : List ℕ)
      → test ≡ true
      → state t ≡ sleeping
      → chan t ≡ true
      → sema_signal (sema (t ∷ rest))
        ≡ some (record {
          value = inc v;
          wakeup = inc k;
          waiting = rest;
          chan = update chan t false;
          state = update state t runnable;
        })
  unfolding sema_signal cond_signal wake
  signal_wakes t rest e asleep there = rw (sema_signal, e, asleep, there) refl

module _ (n v k : ℕ) (state : ℕ → ThreadState) (chan : ℕ → Bool) (woken : List ℕ) (p g l : ℕ) where
  abbrev before : List ℕ → System
  before w = record {
    sema = sema v k state chan w;
    woken = woken;
    passed = p;
    signals = g;
    lost = l;
  }

  abbrev Next : List ℕ → Type 0
  Next w = (y : System) × (signals_step (before w) ≡ some y) × IsSound n y

  plain-Next :
      (w : List ℕ) → IsSound n (before w) → v ≢ 2 ^ 31 - 1 → test v k state chan ≡ false → Next w
  plain-Next w h fits e =
      let after = record (sema v k state chan w) { value = inc v } in
      let same : deficit (inc v) ≡ deficit v = ground (arith, h.value_fits) in
      let more : surplus (inc v) ≡ surplus v + 1 = ground (arith, h.value_fits) in
      (
        record { sema = after; woken = woken; passed = p; signals = g + 1; lost = l },
        signals_step_lem (before w) after (signal_plain v k state chan w e)
            ∙ ap
                (λ (ts : List ℕ). some (record {
                  sema = after;
                  woken = ts ++ woken;
                  passed = p;
                  signals = g + 1;
                  lost = l;
                }))
                (none_left w),
        record {
          value_fits = omega arith;
          wakeup_fits = h.wakeup_fits;
          balance = omega (arith, same, h.balance);
          permits = omega (arith, more, h.permits);
          owed = h.owed;
          asleep = h.asleep;
          ready = h.ready;
          distinct = h.distinct;
          distinct_woken = h.distinct_woken;
        },
      )

  -- What holds of the counts where a wake-up is due.
  module _ (w : List ℕ) (h : IsSound n (before w)) (fits : v ≢ 2 ^ 31 - 1) (fits' : k ≢ 2 ^ 31 - 1)
      (e : test v k state chan ≡ true) where
    counts :
        (inc k ≡ k + 1)
        × (inc k < 2 ^ 31)
        × (inc v < 2 ^ 32)
        × (deficit (inc v) + 1 ≡ deficit v)
        × (surplus (inc v) ≡ surplus v)
    counts = ground (arith, h.value_fits, h.wakeup_fits)

  empty-Next :
      IsSound n (before []) → v ≢ 2 ^ 31 - 1 → k ≢ 2 ^ 31 - 1 → test v k state chan ≡ true → Next []
  empty-Next h fits fits' e =
      let after = record (sema v k state chan []) { value = inc v; wakeup = inc k } in
      let c = counts [] h fits fits' e in
      (
        record { sema = after; woken = woken; passed = p; signals = g + 1; lost = l },
        signals_step_lem (before []) after (signal_empty v k state chan e),
        record {
          value_fits = c.2;
          wakeup_fits = c.1;
          balance = omega (arith, c, h.balance);
          permits = omega (arith, c, h.permits);
          owed = omega (arith, c, h.balance);
          asleep = tt;
          ready = h.ready;
          distinct = tt;
          distinct_woken = h.distinct_woken;
        },
      )

  wakes-Next :
      (t : ℕ) (rest : List ℕ)
      → IsSound n (before (t ∷ rest))
      → v ≢ 2 ^ 31 - 1
      → k ≢ 2 ^ 31 - 1
      → test v k state chan ≡ true
      → Next (t ∷ rest)
  wakes-Next t rest h fits fits' e =
      let after : Sema = record {
        value = inc v;
        wakeup = inc k;
        waiting = rest;
        chan = update chan t false;
        state = update state t runnable;
      } in
      let c = counts (t ∷ rest) h fits fits' e in
      let asleep : state t ≡ sleeping = h.asleep.0.0 in
      let fresh =
        NotIn-state state runnable (IsReady (before (t ∷ rest)).sema) t woken (λ x r. r)
          (λ r. cc (sym asleep ∙ r)) h.ready in
      (
        record { sema = after; woken = t ∷ woken; passed = p; signals = g + 1; lost = l },
        signals_step_lem (before (t ∷ rest)) after
              (signal_wakes v k state chan t rest e asleep h.asleep.0.1)
            ∙ ap
                (λ (ts : List ℕ). some (record {
                  sema = after;
                  woken = ts ++ woken;
                  passed = p;
                  signals = g + 1;
                  lost = l;
                }))
                (one_left t rest),
        record {
          value_fits = c.2;
          wakeup_fits = c.1;
          balance = omega (arith, c, h.balance);
          permits = omega (arith, c, h.permits);
          owed = omega (arith, c, h.owed);
          asleep =
              All-besides (IsAsleep (before (t ∷ rest)).sema) _ t rest h.distinct.0
                (λ x ne a.
                  (update_ne state t x runnable ne ∙ a.0, update_ne chan t x false ne ∙ a.1))
                h.asleep.1;
          ready = (
            update_self state t runnable,
            All-besides (IsReady (before (t ∷ rest)).sema) _ t woken fresh
                (λ x ne a. update_ne state t x runnable ne ∙ a) h.ready,
          );
          distinct = h.distinct.1;
          distinct_woken = (fresh, h.distinct_woken);
        },
      )

  all-Next : (w : List ℕ) → IsSound n (before w) → v ≢ 2 ^ 31 - 1 → k ≢ 2 ^ 31 - 1 → Next w
  all-Next [] h fits fits' = elim (Bool-cases (test v k state chan)) [
    | inl e ↦ empty-Next h fits fits' e
    | inr e ↦ plain-Next [] h fits e
  ]
  all-Next (t ∷ rest) h fits fits' = elim (Bool-cases (test v k state chan)) [
    | inl e ↦ wakes-Next t rest h fits fits' e
    | inr e ↦ plain-Next (t ∷ rest) h fits e
  ]

pub signals_step-IsSound :
    (n : ℕ) (y : System)
    → IsSound n y
    → y.sema.value ≢ 2 ^ 31 - 1
    → y.sema.wakeup ≢ 2 ^ 31 - 1
    → (y' : System) × (signals_step y ≡ some y') × IsSound n y'
signals_step-IsSound n y h fits fits' =
    all-Next n y.sema.value y.sema.wakeup y.sema.state y.sema.chan y.woken y.passed y.signals y.lost
      y.sema.waiting h fits fits'
