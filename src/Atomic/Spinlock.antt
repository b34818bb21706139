-- ===== src/Atomic/Spinlock.antt =====
-- Spin locks, kernel/atomic/spinlock.c, on any number of CPUs. acquire and release are cut where
-- another CPU can see the lock: acquire before and after its atomic swap, release between its two
-- stores.
pub mod Exclusion
pub mod Reach
pub mod Nesting
mod Tests
use re_xvapor.Base.{
  ℕ, zero, suc, ◌+◌, ◌-◌, Bool, true, false, not, ◌&&◌, Option, none, some, update, ltb, ◌==◌,
  if◌then◌else◌,
}

-- The fields of `struct cpu` that the locks use, and whether interrupts are on.
pub record Cpu : Type 0 where
  pub noff : ℕ
  pub intena : Bool
  pub intr : Bool

pub record Spinlock : Type 0 where
  pub locked : Bool
  pub cpu : Option ℕ

abbrev pub initlock : Spinlock
initlock = record { locked = false; cpu = none }

abbrev pub is_cpu : ℕ → Option ℕ → Bool
is_cpu c none = false
is_cpu c (some d) = d == c

unfoldable pub holding : ℕ → Spinlock → Bool
holding c lk = lk.locked && is_cpu c lk.cpu

unfoldable pub push_off : Cpu → Cpu
push_off k = record {
  noff = k.noff + 1;
  intena = if k.noff == 0 then k.intr else k.intena;
  intr = false;
}

-- `none` is a panic.
unfoldable pub pop_off : Cpu → Option Cpu
pop_off k =
    if k.intr
    then none
    else if ltb k.noff 1
    then none
    else some (record k { noff = k.noff - 1; intr = k.noff - 1 == 0 && k.intena })

-- Where a CPU is: outside, in the loop of acquire, behind it, with the lock, between the two stores
-- of release.
pub data Place : Type 0 where
  outside : Place
  spinning : Place
  locking : Place
  inside : Place
  releasing : Place

pub record System : Type 0 where
  pub lock : Spinlock
  pub cpus : ℕ → Cpu
  pub place : ℕ → Place

abbrev pub goes : ℕ → Place → System → System
goes c p s = record s { place = update s.place c p }

-- acquire up to its loop.
unfoldable pub acquire_enter : ℕ → System → Option System
acquire_enter c s =
    if holding c s.lock
    then none
    else some (goes c spinning (record s { cpus = update s.cpus c (push_off (s.cpus c)) }))

-- One round of the loop: the atomic swap.
unfoldable pub acquire_swap : ℕ → System → System
acquire_swap c s =
    if s.lock.locked
    then s
    else goes c locking (record s { lock = record (s.lock) { locked = true } })

unfoldable pub acquire_record : ℕ → System → System
acquire_record c s = goes c inside (record s { lock = record (s.lock) { cpu = some c } })

unfoldable pub release_enter : ℕ → System → Option System
release_enter c s =
    if not (holding c s.lock)
    then none
    else some (goes c releasing (record s { lock = record (s.lock) { cpu = none } }))

unfoldable pub release_leave : ℕ → System → Option System
release_leave c s = elim (pop_off (s.cpus c)) [
  | none ↦ none
  | some k ↦ some (
      goes c outside
        (record s { lock = record (s.lock) { locked = false }; cpus = update s.cpus c k }))
]
