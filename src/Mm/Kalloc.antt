-- ===== src/Mm/Kalloc.antt =====
-- The physical page allocator, kernel/mm/kalloc.c (the RISC-V branch of kinit and kfree).
-- Memory is a function from byte addresses to the 64-bit words that start there; the free list is
-- the linked list that the code threads through the first word of each free page. Each function
-- is one critical section of kmem.lock, so it is atomic.
pub mod Chain
pub mod Laws
pub mod Owners
mod Tests
use re_xvapor.Base.{
  ℕ, zero, suc, ◌+◌, ◌-◌, ◌*◌, ◌/◌, ◌%◌, ◌^◌, Bool, true, false, not, ◌&&◌, ◌||◌, Option, none,
  some, update, ltb, leb, ◌==◌, if◌then◌else◌,
}

abbrev pub pgsize : ℕ
pgsize = 4096

-- PGROUNDUP on a uint64.
abbrev pub pg_round_up : ℕ → ℕ
pg_round_up sz = (sz + pgsize - 1) % 2 ^ 64 / pgsize * pgsize

-- `kmem` with the memory that it manages, and `g_freecnt` (a 32-bit counter).
pub record Kmem : Type 0 where
  pub mem : ℕ → ℕ
  pub freelist : ℕ
  pub freecnt : ℕ

-- memset(pa, c, PGSIZE), where `word` is eight bytes `c`.
abbrev pub memset_page : (ℕ → ℕ) → ℕ → ℕ → ℕ → ℕ
memset_page mem pa word a = if leb pa a && ltb a (pa + pgsize) then word else mem a

abbrev pub junk : ℕ
junk = 0x0101010101010101

-- atomic_inc_return
abbrev pub inc : ℕ → ℕ
inc n = (n + 1) % 2 ^ 32

pub kalloc : Kmem → ℕ × Kmem
kalloc s =
    let r = s.freelist in
    if r == 0
    then (r, record s { freecnt = inc s.freecnt })
    else (r, record s { freelist = s.mem r; mem = memset_page s.mem r 0; freecnt = inc s.freecnt })

pub kzalloc : Kmem → ℕ × Kmem
kzalloc s =
    let r = s.freelist in
    if r == 0
    then (r, record s { freecnt = inc s.freecnt })
    else (r, record s { freelist = s.mem r; mem = memset_page s.mem r 0; freecnt = inc s.freecnt })

pub kmalloc : ℕ → Kmem → ℕ × Kmem
unfolding kalloc
kmalloc size s = if ltb pgsize size then (0, s) else kalloc s

-- `n * size` is computed in 32 bits.
pub kcalloc : ℕ → ℕ → Kmem → ℕ × Kmem
unfolding kalloc
kcalloc n size s = if ltb pgsize (n * size % 2 ^ 32) then (0, s) else kalloc s

-- An `int` value converted to uint64.
abbrev pub sign_extend : ℕ → ℕ
sign_extend n = if ltb n (2 ^ 31) then n else 2 ^ 64 - 2 ^ 32 + n

pub freemem_pages : Kmem → ℕ
freemem_pages s = sign_extend s.freecnt

-- The product is an `int`.
pub freemem_bytes : Kmem → ℕ
freemem_bytes s = sign_extend (s.freecnt * pgsize % 2 ^ 32)

-- `kernel_end` is the address `end` of the linker script, `phystop` is PHYSTOP.
module _ (kernel_end phystop : ℕ) where
  pub totalram_bytes : ℕ
  totalram_bytes = (phystop + 2 ^ 64 - kernel_end) % 2 ^ 64

  -- `none` is panic("kfree").
  pub kfree : ℕ → Kmem → Option Kmem
  kfree pa s =
      if not (pa % pgsize == 0) || (ltb pa kernel_end || leb phystop pa)
      then none
      else some (record s {
        mem = update (memset_page s.mem pa junk) pa s.freelist;
        freelist = pa;
        freecnt = inc s.freecnt;
      })

  -- for (; p + PGSIZE <= pa_end; p += PGSIZE) kfree(p), on fuel.
  pub free_from : ℕ → ℕ → ℕ → Kmem → Option Kmem
  free_from zero p pa_end s = none
  free_from (suc fuel) p pa_end s = elim (leb (p + pgsize) pa_end) [
    | true ↦ elim (kfree p s) [ none ↦ none | some s' ↦ free_from fuel (p + pgsize) pa_end s' ]
    | false ↦ some s
  ]

  -- A round needs a page below `pa_end`, so this fuel lasts (Laws.freerange_lem).
  pub freerange : ℕ → ℕ → Kmem → Option Kmem
  unfolding free_from
  freerange pa_start pa_end s = free_from (pa_end / pgsize + 1) (pg_round_up pa_start) pa_end s

  -- The allocator's variables start as zero; `mem` is what the memory holds at boot.
  pub kinit : (ℕ → ℕ) → Option Kmem
  unfolding freerange
  kinit mem = freerange kernel_end phystop (record { mem = mem; freelist = 0; freecnt = 0 })
