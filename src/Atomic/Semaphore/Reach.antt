-- ===== src/Atomic/Semaphore/Reach.antt =====
-- A semaphore (atomic/semaphore.c) through any interleaving of the stretches of its callers. An int
-- does not overflow, which C leaves undefined.
use re_xvapor.Base.{
  ℕ, ◌+◌, ◌-◌, ◌^◌, ◌≤◌, ◌<◌, ◌≡◌, ◌≢◌, refl, sym, ◌∙◌, ap, subst, Bool, some, List, [], ◌∷◌, ◌++◌,
  length, if◌then◌else◌, arith,
}
use re_xvapor.Atomic.Semaphore.{running, sema_init, negative}
use re_xvapor.Atomic.Semaphore.Balance.{
  System, waits, resumes, signals_step, deficit, surplus, IsSound,
}
use re_xvapor.Atomic.Semaphore.Waiting.{waits-IsSound, resumes-IsSound}
use re_xvapor.Atomic.Semaphore.Signalling.{signals_step-IsSound}

pub data Step (y y' : System) : Type 0 where
  waiting_call :
      (t : ℕ) → y.sema.state t ≡ running → y.sema.value ≢ 2 ^ 31 → y' ≡ waits t y → Step y y'
  return_call :
      (t : ℕ) (killed : Bool) (xs ys : List ℕ)
      → y.woken ≡ xs ++ t ∷ ys
      → y' ≡ resumes t killed (xs ++ ys) y
      → Step y y'
  signal_call :
      y.sema.value ≢ 2 ^ 31 - 1 → y.sema.wakeup ≢ 2 ^ 31 - 1 → signals_step y ≡ some y' → Step y y'

-- After sema_init, with no thread in a call.
abbrev pub initial : ℕ → (ℕ → Bool) → System
initial n chan = record {
  sema = sema_init n (λ t. running) chan;
  woken = [];
  passed = 0;
  signals = 0;
  lost = 0;
}

pub data Reach (n : ℕ) (chan : ℕ → Bool) : System → Type 0 where
  starts : Reach n chan (initial n chan)
  steps : (y y' : System) → Reach n chan y → Step y y' → Reach n chan y'

some_system : (y y' : System) → some y ≡ some y' → y ≡ y'
some_system y y' e = cc e

module _ (n : ℕ) (chan : ℕ → Bool) (fits : n < 2 ^ 31) where
  initial-IsSound : IsSound n (initial n chan)
  initial-IsSound =
      let no_deficit : deficit n ≡ 0 = ground arith in
      let all : surplus n ≡ n = ground arith in
      record {
        value_fits = omega arith;
        wakeup_fits = omega arith;
        balance = omega (arith, no_deficit);
        permits = omega (arith, all);
        owed = omega arith;
        asleep = tt;
        ready = tt;
        distinct = tt;
        distinct_woken = tt;
      }

  Step-IsSound : (y y' : System) → IsSound n y → Step y y' → IsSound n y'
  Step-IsSound y y' h (waiting_call t run low e) =
      subst (IsSound n) (sym e) (waits-IsSound n t y h run low)
  Step-IsSound y y' h (return_call t killed xs ys split e) =
      subst (IsSound n) (sym e) (resumes-IsSound n t xs ys y h split killed)
  Step-IsSound y y' h (signal_call low low' e) =
      let (z, e', k) = signals_step-IsSound n y h low low' in
      subst (IsSound n) (some_system z y' (sym e' ∙ e)) k

  pub Reach-IsSound : (y : System) → Reach n chan y → IsSound n y
  Reach-IsSound y starts = initial-IsSound
  Reach-IsSound y (steps x z r s) = Step-IsSound x z (Reach-IsSound x r) s

  -- In every reached state of a semaphore made with `n` permits, no more calls of sema_wait have
  -- returned than there were permits and signals. The difference is the value, where that is not
  -- negative, with the wake-ups owed.
  pub permits-Reach :
      (y : System)
      → Reach n chan y
      → (y.passed ≤ n + y.signals)
        × (y.passed + (if negative y.sema.value then 0 else y.sema.value) + y.sema.wakeup
            ≡ n + y.signals)
  permits-Reach y r = let h = Reach-IsSound y r in (omega (arith, h.permits), h.permits)

  -- In every reached state in which no thread was killed behind cond_wait, if a thread sleeps in the
  -- semaphore's queue and none is on its way out of cond_wait, all permits and signals are used up.
  pub no_lost_wakeup :
      (y : System)
      → Reach n chan y
      → y.lost ≡ 0
      → y.woken ≡ []
      → y.sema.waiting ≢ []
      → y.passed ≡ n + y.signals
  no_lost_wakeup y r alive none_woken asleep =
      let h = Reach-IsSound y r in
      let no_woken : length y.woken ≡ 0 = ap length none_woken in
      let some_waiting : 0 < length y.sema.waiting = nonempty y.sema.waiting asleep in
      let negative_value : surplus y.sema.value ≡ 0 =
        ground (arith, h.balance, h.owed, alive, no_woken, some_waiting) in
      omega (arith, h.permits, h.owed, alive, no_woken, negative_value)
    where
      nonempty : (w : List ℕ) → w ≢ [] → 0 < length w
      nonempty [] ne = absurd (ne refl)
      nonempty (x ∷ w) ne = omega arith

  -- A signal does not panic.
  pub signals_without_panic :
      (y : System)
      → Reach n chan y
      → y.sema.value ≢ 2 ^ 31 - 1
      → y.sema.wakeup ≢ 2 ^ 31 - 1
      → (y' : System) × (signals_step y ≡ some y')
  signals_without_panic y r low low' =
      let (z, e, k) = signals_step-IsSound n y (Reach-IsSound y r) low low' in (z, e)
