-- ===== src/Atomic/Semaphore/Balance.antt =====
-- A semaphore (atomic/semaphore.c) with its threads, and what holds of the counts and the queue.
use re_xvapor.Base.{
  ℕ, ◌+◌, ◌-◌, ◌^◌, ◌≤◌, ◌<◌, ◌≡◌, ◌≢◌, sym, ◌∙◌, ap, Bool, true, Option, none, some, List, [], ◌∷◌,
  ◌++◌, length, take, length-append, All, NotIn, Distinct, update, update_self, update_ne,
  if◌then◌else◌,
}
use re_xvapor.Atomic.Semaphore.{
  ThreadState, running, sleeping, runnable, Sema, negative, cond_wait, sema_wait, sema_wait_woken,
  sema_signal,
}

-- A semaphore with its threads: those taken off the queue and not yet back from cond_wait, and the
-- numbers of calls of sema_wait that returned, of signals, and of threads killed behind cond_wait.
pub record System : Type 0 where
  pub sema : Sema
  pub woken : List ℕ
  pub passed : ℕ
  pub signals : ℕ
  pub lost : ℕ

-- A thread enters sema_wait.
unfoldable pub waits : ℕ → System → System
unfolding sema_wait
waits t y =
    let r = sema_wait t y.sema in
    record y { sema = r.1; passed = if r.0 then y.passed + 1 else y.passed }

-- The scheduler runs a thread that a signal has woken: the rest of cond_wait, where a killed one exits, and
-- the rest of sema_wait.
unfoldable pub resumes : ℕ → Bool → List ℕ → System → System
unfolding sema_wait_woken
resumes t killed rest y =
    let s = record (y.sema) { state = update y.sema.state t running } in
    let r = sema_wait_woken t s in
    if killed
    then record y { sema = s; woken = rest; lost = y.lost + 1 }
    else record y { sema = r.1; woken = rest; passed = if r.0 then y.passed + 1 else y.passed }

-- The threads that left the front of the queue are woken.
unfoldable pub signals_step : System → Option System
signals_step y = elim (sema_signal y.sema) [
  | none ↦ none
  | some s ↦ some (record y {
    sema = s;
    woken = take (length y.sema.waiting - length s.waiting) y.sema.waiting ++ y.woken;
    signals = y.signals + 1;
  })
]

abbrev pub deficit : ℕ → ℕ
deficit v = if negative v then 2 ^ 32 - v else 0

abbrev pub surplus : ℕ → ℕ
surplus v = if negative v then 0 else v

abbrev pub IsAsleep : Sema → ℕ → Type 0
IsAsleep s t = (s.state t ≡ sleeping) × (s.chan t ≡ true)

abbrev pub IsReady : Sema → ℕ → Type 0
IsReady s t = s.state t ≡ runnable

pub record IsSound (n : ℕ) (y : System) : Type 0 where
  pub value_fits : y.sema.value < 2 ^ 32
  pub wakeup_fits : y.sema.wakeup < 2 ^ 31
  pub balance :
      length y.sema.waiting + length y.woken + y.lost ≡ y.sema.wakeup + deficit y.sema.value
  pub permits : y.passed + surplus y.sema.value + y.sema.wakeup ≡ n + y.signals
  pub owed : y.sema.wakeup ≤ length y.woken + y.lost
  pub asleep : All (IsAsleep y.sema) y.sema.waiting
  pub ready : All (IsReady y.sema) y.woken
  pub distinct : Distinct y.sema.waiting
  pub distinct_woken : Distinct y.woken

-- A property of all elements carries over where it does so for those other than `t`.
pub All-besides :
    (P Q : ℕ → Type 0) (t : ℕ) (xs : List ℕ)
    → NotIn t xs
    → ((x : ℕ) → t ≢ x → P x → Q x)
    → All P xs
    → All Q xs
All-besides P Q t [] out f h = tt
All-besides P Q t (x ∷ xs) out f h = (f x out.0 h.0, All-besides P Q t xs out.1 f h.1)

-- A thread in another state is not in the list.
pub NotIn-state :
    (s : ℕ → ThreadState) (a : ThreadState) (P : ℕ → Type 0) (t : ℕ) (xs : List ℕ)
    → ((x : ℕ) → P x → s x ≡ a)
    → s t ≢ a
    → All P xs
    → NotIn t xs
NotIn-state s a P t [] f ne h = tt
NotIn-state s a P t (x ∷ xs) f ne h =
    ((λ e. ne (ap s e ∙ f x h.0)), NotIn-state s a P t xs f ne h.1)

All-snoc : (P : ℕ → Type 0) (t : ℕ) (xs : List ℕ) → All P xs → P t → All P (xs ++ t ∷ [])
All-snoc P t [] h p = (p, tt)
All-snoc P t (x ∷ xs) h p = (h.0, All-snoc P t xs h.1 p)

NotIn-snoc : (x t : ℕ) (xs : List ℕ) → NotIn x xs → x ≢ t → NotIn x (xs ++ t ∷ [])
NotIn-snoc x t [] h ne = (ne, tt)
NotIn-snoc x t (y ∷ xs) h ne = (h.0, NotIn-snoc x t xs h.1 ne)

Distinct-snoc : (t : ℕ) (xs : List ℕ) → Distinct xs → NotIn t xs → Distinct (xs ++ t ∷ [])
Distinct-snoc t [] h out = (tt, tt)
Distinct-snoc t (x ∷ xs) h out =
    (NotIn-snoc x t xs h.0 (λ e. out.0 (sym e)), Distinct-snoc t xs h.1 out.1)

pub length-snoc : (t : ℕ) (xs : List ℕ) → length (xs ++ t ∷ []) ≡ length xs + 1
length-snoc t xs = length-append xs (t ∷ [])

state_ne : (s : ℕ → ThreadState) (t : ℕ) → s t ≡ running → (s t ≢ sleeping) × (s t ≢ runnable)
state_ne s t e = ((λ e'. cc (sym e ∙ e')), (λ e'. cc (sym e ∙ e')))

-- cond_wait keeps the threads in order.
module _ (s : Sema) (t v : ℕ) (woken : List ℕ) (asleep : All (IsAsleep s) s.waiting)
    (ready : All (IsReady s) woken) (distinct : Distinct s.waiting)
    (run : s.state t ≡ running) where
  abbrev slept : Sema
  slept = cond_wait t (record s { value = v })

  fresh : NotIn t s.waiting × NotIn t woken
  fresh = (
    NotIn-state s.state sleeping (IsAsleep s) t s.waiting (λ x h. h.0) (state_ne s.state t run).0
        asleep,
    NotIn-state s.state runnable (IsReady s) t woken (λ x h. h) (state_ne s.state t run).1 ready,
  )

  pub cond_wait_threads :
      All (IsAsleep slept) (s.waiting ++ t ∷ [])
      × All (IsReady slept) woken
      × Distinct (s.waiting ++ t ∷ [])
  unfolding cond_wait
  cond_wait_threads = (
    All-snoc _ t s.waiting
        (All-besides (IsAsleep s) _ t s.waiting fresh.0
          (λ x ne h. (update_ne s.state t x sleeping ne ∙ h.0, update_ne s.chan t x true ne ∙ h.1))
          asleep)
        (update_self s.state t sleeping, update_self s.chan t true),
    All-besides (IsReady s) _ t woken fresh.1 (λ x ne h. update_ne s.state t x sleeping ne ∙ h)
        ready,
    Distinct-snoc t s.waiting distinct fresh.0,
  )
