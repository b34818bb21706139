-- ===== src/Atomic/Semaphore/Tests.antt =====
-- A semaphore made with no permit: two threads wait and one signal wakes the first.
use re_xvapor.Base.{
  ℕ, ◌+◌, ◌≤◌, ◌≡◌, ◌≢◌, refl, true, false, Option, none, some, List, [], ◌∷◌, if◌then◌else◌, arith,
}
use re_xvapor.Atomic.Semaphore.{negative, cond_wait, cond_signal, wake, sema_wait, sema_signal}
use re_xvapor.Atomic.Semaphore.Balance.{System, waits, resumes, signals_step}
use re_xvapor.Atomic.Semaphore.Reach.{
  waiting_call, Reach, starts, steps, initial, permits-Reach, no_lost_wakeup,
}

abbrev begin : System
begin = initial 0 (λ t. false)

abbrev first_waits : System
first_waits = waits 1 begin

abbrev both_wait : System
both_wait = waits 2 first_waits

begin-Reach : Reach 0 (λ t. false) begin
begin-Reach = starts

both_wait-Reach : Reach 0 (λ t. false) both_wait
unfolding waits sema_wait cond_wait
both_wait-Reach =
    steps first_waits both_wait
      (steps begin first_waits starts (waiting_call 1 refl (λ e. absurd (omega (arith, e))) refl))
      (waiting_call 2 refl (λ e. absurd (omega (arith, e))) refl)

permits-Reach_example :
    (both_wait.passed ≤ 0 + both_wait.signals)
    × (both_wait.passed
          + (if negative both_wait.sema.value then 0 else both_wait.sema.value)
          + both_wait.sema.wakeup
        ≡ 0 + both_wait.signals)
permits-Reach_example = permits-Reach 0 (λ t. false) (omega arith) both_wait both_wait-Reach

no_woken : both_wait.woken ≡ []
unfolding waits
no_woken = refl

asleep : both_wait.sema.waiting ≢ []
unfolding waits sema_wait cond_wait
asleep e = cc e

alive : both_wait.lost ≡ 0
unfolding waits
alive = refl

no_lost_wakeup_example : both_wait.passed ≡ 0 + both_wait.signals
no_lost_wakeup_example =
    no_lost_wakeup 0 (λ t. false) (omega arith) both_wait both_wait-Reach alive no_woken asleep

-- One signal wakes the first thread; it is killed before it runs, and the second sleeps on with a
-- wake-up owed to nobody.
abbrev wake_lost : Option System → ℕ × ℕ × List ℕ × List ℕ
wake_lost o = elim o [
  | none ↦ (0, 0, [], [])
  | some y ↦ let z = resumes 1 true [] y in (z.sema.wakeup, z.passed, z.woken, z.sema.waiting)
]

killed_waiter : wake_lost (signals_step both_wait) ≡ (1, 0, [], 2 ∷ [])
unfolding waits sema_wait cond_wait signals_step sema_signal cond_signal wake resumes
killed_waiter = refl
