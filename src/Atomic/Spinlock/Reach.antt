-- ===== src/Atomic/Spinlock/Reach.antt =====
-- A spin lock (kernel/atomic/spinlock.c) and its CPUs through any interleaving of their steps.
use re_xvapor.Base.{
  ℕ, ◌≡◌, ◌≢◌, refl, sym, ◌∙◌, ap, subst, true, false, Bool-cases, Option, none, some, update,
  arith, inl, inr,
}
use re_xvapor.Atomic.Spinlock.{
  Cpu, initlock, holding, push_off, pop_off, outside, spinning, locking, inside, releasing, System,
  goes, acquire_enter, acquire_swap, acquire_record, release_enter, release_leave,
}
use re_xvapor.Atomic.Spinlock.Exclusion.{
  busy, is_inside, IsExclusive, quiet, swapped-IsExclusive, moved-IsExclusive, left-IsExclusive,
}

-- Any step of any CPU.
pub data Step (s s' : System) : Type 0 where
  enters : (c : ℕ) → s.place c ≡ outside → acquire_enter c s ≡ some s' → Step s s'
  swaps : (c : ℕ) → s.place c ≡ spinning → s' ≡ acquire_swap c s → Step s s'
  records : (c : ℕ) → s.place c ≡ locking → s' ≡ acquire_record c s → Step s s'
  releases : (c : ℕ) → s.place c ≡ inside → release_enter c s ≡ some s' → Step s s'
  leaves : (c : ℕ) → s.place c ≡ releasing → release_leave c s ≡ some s' → Step s s'

-- The lock after initlock, and all CPUs outside.
abbrev pub fresh : (ℕ → Cpu) → System
fresh cpus = record { lock = initlock; cpus = cpus; place = λ c. outside }

pub data Reach (cpus : ℕ → Cpu) : System → Type 0 where
  starts : Reach cpus (fresh cpus)
  steps : (s s' : System) → Reach cpus s → Step s s' → Reach cpus s'

fresh-IsExclusive : (cpus : ℕ → Cpu) → IsExclusive (fresh cpus)
fresh-IsExclusive cpus = record {
  nobody = λ e c. refl;
  alone = λ c d b b'. cc b;
  owner = λ c. refl;
}

some_state : (s s' : System) → some s ≡ some s' → s ≡ s'
some_state s s' e = cc e

none_state : (s : System) → none ≢ some s
none_state s e = cc e

module _ (s : System) (c : ℕ) (h : IsExclusive s) where
  holding_inside : s.place c ≡ inside → holding c s.lock ≡ true
  unfolding holding
  holding_inside at = elim (Bool-cases s.lock.locked) [
    | inl l ↦ rw l (h.owner c ∙ ap is_inside at)
    | inr l ↦ cc (sym (h.nobody l c) ∙ ap busy at)
  ]

  holding_outside : s.place c ≡ outside → holding c s.lock ≡ false
  unfolding holding
  holding_outside at = ground (arith, h.owner c ∙ ap is_inside at)

  -- acquire outside does not panic.
  enters_lem :
      s.place c ≡ outside
      → acquire_enter c s
        ≡ some (goes c spinning (record s { cpus = update s.cpus c (push_off (s.cpus c)) }))
  unfolding acquire_enter
  enters_lem at = rw (holding_outside at) refl

  releases_lem :
      s.place c ≡ inside
      → release_enter c s
        ≡ some (goes c releasing (record s { lock = record (s.lock) { cpu = none } }))
  unfolding release_enter
  releases_lem at = rw (holding_inside at) refl

  records_lem :
      acquire_record c s ≡ goes c inside (record s { lock = record (s.lock) { cpu = some c } })
  unfolding acquire_record
  records_lem = refl

  swap_free :
      s.lock.locked ≡ false
      → acquire_swap c s ≡ goes c locking (record s { lock = record (s.lock) { locked = true } })
  unfolding acquire_swap
  swap_free e = rw e refl

  swap_taken : s.lock.locked ≡ true → acquire_swap c s ≡ s
  unfolding acquire_swap
  swap_taken e = rw e refl

  leaves_lem :
      (k : Option Cpu) (s' : System)
      → pop_off (s.cpus c) ≡ k
      → s.place c ≡ releasing
      → release_leave c s ≡ some s'
      → IsExclusive s'
  unfolding release_leave
  leaves_lem none s' e at q = absurd (none_state s' (sym (rw (e, release_leave) refl) ∙ q))
  leaves_lem (some k) s' e at q =
      subst IsExclusive (some_state _ s' (sym left ∙ q))
        (left-IsExclusive s c (update s.cpus c k) at h)
    where
      left :
          release_leave c s
          ≡ some (
              goes c outside
                (record s { lock = record (s.lock) { locked = false }; cpus = update s.cpus c k }))
      left = rw (e, release_leave) refl

Step-IsExclusive : (s s' : System) → IsExclusive s → Step s s' → IsExclusive s'
Step-IsExclusive s s' h (enters c at e) =
    subst IsExclusive (some_state _ s' (sym (enters_lem s c h at) ∙ e))
      (quiet s c spinning _ (sym (ap busy at)) (sym (ap is_inside at)) h)
Step-IsExclusive s s' h (swaps c at e) = elim (Bool-cases s.lock.locked) [
  | inl l ↦ subst IsExclusive (sym (e ∙ swap_taken s c h l)) h
  | inr l ↦ subst IsExclusive (sym (e ∙ swap_free s c h l)) (swapped-IsExclusive s c at l h)
]
Step-IsExclusive s s' h (records c at e) = subst IsExclusive (sym (e ∙ records_lem s c h)) (
    moved-IsExclusive s c inside (some c) (ap busy at) refl (ground arith) (λ d ne. ground arith) h)
Step-IsExclusive s s' h (releases c at e) =
    subst IsExclusive (some_state _ s' (sym (releases_lem s c h at) ∙ e))
      (moved-IsExclusive s c releasing none (ap busy at) refl refl (λ d ne. refl) h)
Step-IsExclusive s s' h (leaves c at e) = leaves_lem s c h (pop_off (s.cpus c)) s' refl at e

pub Reach-IsExclusive : (cpus : ℕ → Cpu) (s : System) → Reach cpus s → IsExclusive s
Reach-IsExclusive cpus s starts = fresh-IsExclusive cpus
Reach-IsExclusive cpus s (steps s₀ t r st) = Step-IsExclusive s₀ s (Reach-IsExclusive cpus s₀ r) st

-- Through any interleaving of the steps of acquire and release on any number of CPUs, no two CPUs
-- are between the swap that takes the lock and the store that frees it.
pub mutual_exclusion :
    (cpus : ℕ → Cpu) (s : System) (c d : ℕ)
    → Reach cpus s
    → busy (s.place c) ≡ true
    → busy (s.place d) ≡ true
    → c ≡ d
mutual_exclusion cpus s c d r b b' = IsExclusive.alone (Reach-IsExclusive cpus s r) c d b b'

-- In every reached state, a CPU outside can enter acquire and a CPU with the lock can enter release,
-- with no panic.
pub enters_without_panic :
    (cpus : ℕ → Cpu) (s : System) (c : ℕ)
    → Reach cpus s
    → (s.place c ≡ outside → acquire_enter c s ≢ none)
      × (s.place c ≡ inside → release_enter c s ≢ none)
enters_without_panic cpus s c r =
    let h = Reach-IsExclusive cpus s r in
    (
      (λ at e. none_state _ (sym e ∙ enters_lem s c h at)),
      (λ at e. none_state _ (sym e ∙ releases_lem s c h at)),
    )
