-- ===== src/Mm/Vm/Copy.antt =====
-- Copies between the kernel and user memory: copyin, copyout and copyinstr of the RISC-V half of
-- kernel/mm/vm.c. `b` is the memory outside the page tables, byte by byte; the tables are read by
-- walkaddr. A result is whether the code returns 0, with the memory it leaves.
pub mod Laws
pub mod Outward
pub mod RoundTrip
use re_xvapor.Base.{
  ℕ, zero, suc, ◌+◌, ◌-◌, ◌*◌, ◌/◌, ◌%◌, ◌^◌, Bool, true, false, not, update, ltb, ◌==◌,
  if◌then◌else◌,
}
use re_xvapor.Runtime.Bytes.{memmove}
use re_xvapor.Mm.Kalloc.{pgsize}
use re_xvapor.Mm.Pte.{pg_round_down}
use re_xvapor.Mm.Vm.{Outcome, M, ◌>>=◌, pure, loops, walkaddr}

abbrev pub Bytes : Type 0
Bytes = ℕ → ℕ

-- n = PGSIZE - (va - va0), at most `len`.
abbrev pub chunk : ℕ → ℕ → ℕ
chunk va len = let room = pgsize - (va - pg_round_down va) in if ltb len room then len else room

pub copyout_from : ℕ → ℕ → ℕ → ℕ → ℕ → Bytes → M (Bool × Bytes)
copyout_from zero pagetable dstva src len b = λ s. loops
copyout_from (suc fuel) pagetable dstva src len b =
    let va0 = pg_round_down dstva in
    let n = chunk dstva len in
    let next = λ (pa0 : ℕ).
      copyout_from fuel pagetable ((va0 + pgsize) % 2 ^ 64) (src + n) (len - n)
        (memmove (pa0 + (dstva - va0)) src n b) in
    if len == 0
    then pure (true, b)
    else walkaddr pagetable va0 >>= λ pa0. if pa0 == 0 then pure (false, b) else next pa0

-- A round is a page, of which the range touches at most two that it does not fill.
pub copyout : ℕ → ℕ → ℕ → ℕ → Bytes → M (Bool × Bytes)
copyout pagetable dstva src len b = copyout_from (len / pgsize + 3) pagetable dstva src len b

pub copyin_from : ℕ → ℕ → ℕ → ℕ → ℕ → Bytes → M (Bool × Bytes)
copyin_from zero pagetable dst srcva len b = λ s. loops
copyin_from (suc fuel) pagetable dst srcva len b =
    let va0 = pg_round_down srcva in
    let n = chunk srcva len in
    let next = λ (pa0 : ℕ).
      copyin_from fuel pagetable (dst + n) ((va0 + pgsize) % 2 ^ 64) (len - n)
        (memmove dst (pa0 + (srcva - va0)) n b) in
    if len == 0
    then pure (true, b)
    else walkaddr pagetable va0 >>= λ pa0. if pa0 == 0 then pure (false, b) else next pa0

pub copyin : ℕ → ℕ → ℕ → ℕ → Bytes → M (Bool × Bytes)
copyin pagetable dst srcva len b = copyin_from (len / pgsize + 3) pagetable dst srcva len b

-- The inner loop of copyinstr: got_null, dst, max and the memory.
pub copy_string : ℕ → ℕ → ℕ → ℕ → Bytes → Bool × ℕ × ℕ × Bytes
copy_string zero p dst max b = (false, dst, max, b)
copy_string (suc n) p dst max b =
    let rest = copy_string n (p + 1) (dst + 1) (max - 1) (update b dst (b p)) in
    if b p == 0 then (true, dst, max, update b dst 0) else rest

pub copyinstr_from : ℕ → ℕ → ℕ → ℕ → ℕ → Bytes → M (Bool × Bytes)
unfolding copy_string
copyinstr_from zero pagetable dst srcva max b = λ s. loops
copyinstr_from (suc fuel) pagetable dst srcva max b =
    let va0 = pg_round_down srcva in
    let n = chunk srcva max in
    let page = λ (pa0 : ℕ). copy_string n (pa0 + (srcva - va0)) dst max b in
    let next = λ (pa0 : ℕ).
      copyinstr_from fuel pagetable (page pa0).1 ((va0 + pgsize) % 2 ^ 64) (page pa0).2
        (page pa0).3 in
    if max == 0
    then pure (false, b)
    else walkaddr pagetable va0 >>= λ pa0.
        if pa0 == 0
        then pure (false, b)
        else if (page pa0).0
        then pure (true, (page pa0).3)
        else next pa0

pub copyinstr : ℕ → ℕ → ℕ → ℕ → Bytes → M (Bool × Bytes)
unfolding copyinstr_from
copyinstr pagetable dst srcva max b = copyinstr_from (max / pgsize + 3) pagetable dst srcva max b
