-- ===== src/Mm/Vm.antt =====
-- Page tables, the RISC-V half of kernel/mm/vm.c: walking, mapping and unmapping.
-- Page tables are pages of the allocator's memory. A function takes and returns the allocator's
-- state and may panic; a loop has fuel, and `loops` is its end.
pub mod Table
pub mod Write
pub mod Linked
pub mod Grow
pub mod Walk
pub mod Space
pub mod Map
pub mod Range
pub mod Mapping
mod Tests
pub mod User
pub mod Copy
use re_xvapor.Base.{
  ℕ, zero, suc, ◌+◌, ◌-◌, ◌*◌, ◌/◌, ◌%◌, ◌^◌, Bool, true, false, not, ◌&&◌, Option, none, some,
  update, ltb, leb, ◌==◌, if◌then◌else◌,
}
use re_xvapor.Mm.Kalloc.{Kmem, pgsize, memset_page, kalloc, kfree}
use re_xvapor.Mm.Pte.{
  is_valid, is_user, pte_to_pa, pte_flags, pte_v, px, maxva, pg_round_down, leaf_pte, table_pte,
}

pub data Outcome (A : Type 0) : Type 0 where
  returns : A → Kmem → Outcome A
  panics : Outcome A
  loops : Outcome A

abbrev pub M : Type 0 → Type 0
M A = Kmem → Outcome A

infixl 5 ◌>>=◌ ◌>>◌
abbrev pub ◌>>=◌ : {A B : Type 0} → M A → (A → M B) → M B
◌>>=◌ m f s = elim (m s) [ returns a t ↦ f a t | panics ↦ panics | loops ↦ loops ]

abbrev pub ◌>>◌ : {A B : Type 0} → M A → M B → M B
m >> k = m >>= λ _. k

abbrev pub pure : {A : Type 0} → A → M A
pure a s = returns a s

abbrev pub panic : {A : Type 0} → M A
panic s = panics

abbrev pub unless : Bool → M (Unit {0})
unless ok = if ok then pure tt else panic

abbrev pub load : ℕ → M ℕ
load a s = returns (s.mem a) s

abbrev pub store : ℕ → ℕ → M (Unit {0})
store a v s = returns tt (record s { mem = update s.mem a v })

abbrev pub alloc : M ℕ
alloc s = returns (kalloc s).0 (kalloc s).1

abbrev pub clear_page : ℕ → M (Unit {0})
clear_page p s = returns tt (record s { mem = memset_page s.mem p 0 })

-- &pagetable[PX(level, va)]
abbrev pub slot : ℕ → ℕ → ℕ → ℕ
slot pagetable level va = pagetable + 8 * px level va

-- `*pte = PA2PTE(pagetable) | PTE_V` behind a successful kalloc.
abbrev pub link_table : ℕ → ℕ → M (Unit {0})
link_table at q = do clear_page q; store at (table_pte q)

-- The loop of walk, with `level` rounds left; `none` is NULL.
pub walk_from : ℕ → ℕ → ℕ → Bool → M (Option ℕ)
walk_from zero pagetable va create = pure (some (slot pagetable 0 va))
walk_from (suc level) pagetable va create =
    let at = slot pagetable (suc level) va in
    load at >>= λ pte.
    let down = walk_from level (pte_to_pa pte) va create in
    let added = alloc >>= λ q.
    (let next = link_table at q >> walk_from level q va create in
      if q == 0 then pure none else next) in
    if is_valid pte then down else if not create then pure none else added

pub walk : ℕ → ℕ → Bool → M (Option ℕ)
walk pagetable va create = if leb maxva va then panic else walk_from 2 pagetable va create

-- 0 if there is no user page.
pub walkaddr : ℕ → ℕ → M ℕ
walkaddr pagetable va =
    if leb maxva va
    then pure 0
    else walk pagetable va false >>= λ found. elim found [
      | none ↦ pure 0
      | some at ↦
          load at >>= λ pte. if is_valid pte && is_user pte then pure (pte_to_pa pte) else pure 0
    ]

-- The loop of mappages, with fuel.
pub map_from : ℕ → ℕ → ℕ → ℕ → ℕ → ℕ → M Bool
map_from zero pagetable a last pa perm = λ s. loops
map_from (suc fuel) pagetable a last pa perm =
    let next = map_from fuel pagetable ((a + pgsize) % 2 ^ 64) last ((pa + pgsize) % 2 ^ 64) perm in
    walk pagetable a true >>= λ found. elim found [
      | none ↦ pure false
      | some at ↦ load at >>= λ pte.
          if is_valid pte
          then panic
          else store at (leaf_pte pa perm) >> (if a == last then pure true else next)
    ]

-- `false` is -1. A round is a page, so the fuel lasts (Map.mappages_lem).
pub mappages : ℕ → ℕ → ℕ → ℕ → ℕ → M Bool
mappages pagetable va size pa perm =
    let a = pg_round_down va in
    let last = pg_round_down ((va + size + 2 ^ 64 - 1) % 2 ^ 64) in
    if size == 0 then panic else map_from ((last - a) / pgsize + 1) pagetable a last pa perm

pub kvmmap : ℕ → ℕ → ℕ → ℕ → ℕ → M (Unit {0})
kvmmap kpgtbl va pa sz perm = mappages kpgtbl va sz pa perm >>= λ ok. unless ok
