-- ===== src/Atomic/Spinlock/Tests.antt =====
-- Two CPUs at one spin lock (kernel/atomic/spinlock.c), and the theorems there.
use re_xvapor.Base.{ℕ, ◌≡◌, refl, true, false, some, none, update, arith}
use re_xvapor.Atomic.Spinlock.{
  Cpu, push_off, spinning, locking, System, goes, acquire_enter, acquire_swap, holding,
}
use re_xvapor.Atomic.Spinlock.Reach.{enters, swaps, Reach, starts, steps, fresh, mutual_exclusion}
use re_xvapor.Atomic.Spinlock.Nesting.{pushes, pops, noted, pops-pushes}

-- With interrupts on.
abbrev idle : Cpu
idle = record { noff = 0; intena = false; intr = true }

abbrev all_idle : ℕ → Cpu
all_idle c = idle

abbrev one_spins : System
one_spins = goes 0 spinning (record (fresh all_idle) {
  cpus = update all_idle 0 (record { noff = 1; intena = true; intr = false });
})

abbrev one_locks : System
one_locks = goes 0 locking (record one_spins { lock = record { locked = true; cpu = none } })

one_enters : acquire_enter 0 (fresh all_idle) ≡ some one_spins
unfolding acquire_enter holding push_off
one_enters = refl

one_swaps : one_locks ≡ acquire_swap 0 one_spins
unfolding acquire_swap
one_swaps = refl

one_locks-Reach : Reach all_idle one_locks
one_locks-Reach =
    steps one_spins one_locks (steps (fresh all_idle) one_spins starts (enters 0 refl one_enters))
      (swaps 0 refl one_swaps)

-- The second CPU to come finds the lock taken.
other_waits : acquire_swap 1 (goes 1 spinning one_locks) ≡ goes 1 spinning one_locks
unfolding acquire_swap
other_waits = refl

abbrev first_cpu : ℕ
first_cpu = 0

mutual_exclusion_example : first_cpu ≡ first_cpu
mutual_exclusion_example =
    mutual_exclusion all_idle one_locks first_cpu first_cpu one_locks-Reach refl refl

pops-pushes_example : pops 3 (pushes 3 idle) ≡ some (noted idle)
pops-pushes_example = pops-pushes 2 idle (λ h. absurd (omega (arith, h)))
