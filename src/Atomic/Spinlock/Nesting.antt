-- ===== src/Atomic/Spinlock/Nesting.antt =====
-- push_off and pop_off in pairs (kernel/atomic/spinlock.c).
use re_xvapor.Base.{
  ℕ, zero, suc, ◌+◌, ◌-◌, ◌≤◌, ◌≡◌, refl, sym, ◌∙◌, ap, false, ◌&&◌, Bool-cases, Option, none, some,
  ltb, ◌==◌, if◌then◌else◌, arith, inl, inr,
}
use re_xvapor.Atomic.Spinlock.{Cpu, push_off, pop_off}

-- `n` nested calls of push_off, and the calls of pop_off that match them; `none` is a panic.
unfoldable pub pushes : ℕ → Cpu → Cpu
pushes zero k = k
pushes (suc n) k = pushes n (push_off k)

abbrev then_pop : Option Cpu → Option Cpu
then_pop none = none
then_pop (some k) = pop_off k

unfoldable pub pops : ℕ → Cpu → Option Cpu
pops zero k = some k
pops (suc n) k = then_pop (pops n k)

-- The CPU with the interrupt state that the outermost push_off notes.
abbrev pub noted : Cpu → Cpu
noted k = record k { intena = if k.noff == 0 then k.intr else k.intena }

-- Interrupts are off inside a push_off.
abbrev pub IsMasked : Cpu → Type 0
IsMasked k = 1 ≤ k.noff → k.intr ≡ false

restored :
    (k : Cpu) → IsMasked k → (k.noff == 0 && (if k.noff == 0 then k.intr else k.intena)) ≡ k.intr
restored k h = elim (Bool-cases (k.noff == 0)) [
  | inl e ↦ rw e refl
  | inr e ↦ rw e (sym (h (ground arith)))
]

pair : (k : Cpu) → IsMasked k → pop_off (push_off k) ≡ some (noted k)
unfolding push_off pop_off
pair k h =
    let deep : ltb (k.noff + 1) 1 ≡ false = ground arith in
    let back : k.noff + 1 - 1 ≡ k.noff = omega arith in rw (deep, back, restored k h) refl

pushed_noted : (k : Cpu) → noted (push_off k) ≡ push_off k
unfolding push_off
pushed_noted k = let deep : (k.noff + 1 == 0) ≡ false = ground arith in rw deep refl

pushed-IsMasked : (k : Cpu) → IsMasked (push_off k)
unfolding push_off
pushed-IsMasked k h = refl

-- Any number of nested push_offs, one at least, and as many pop_offs do not panic and give back the
-- nesting depth and the interrupt state from before.
pub pops-pushes : (n : ℕ) (k : Cpu) → IsMasked k → pops (suc n) (pushes (suc n) k) ≡ some (noted k)
unfolding pops pushes
pops-pushes zero k h = pair k h
pops-pushes (suc n) k h =
    ap then_pop (pops-pushes n (push_off k) (pushed-IsMasked k) ∙ ap some (pushed_noted k))
    ∙ pair k h
