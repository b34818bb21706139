-- ===== src/Mm/Kalloc/Tests.antt =====
-- Runs of the allocator (mm/kalloc.c) on a machine with three pages, and the theorems at them.
use mathlib.Core.Option
use re_xvapor.Base.{ℕ, ◌≡◌, refl, List, [], ◌∷◌, Option, some, arith, ◌==◌, if◌then◌else◌}
use re_xvapor.Mm.Kalloc.{
  Kmem, kalloc, kzalloc, kmalloc, kcalloc, kfree, free_from, freerange, kinit, freemem_pages,
  freemem_bytes, totalram_bytes,
}
use re_xvapor.Mm.Kalloc.Chain.{IsFree}
use re_xvapor.Mm.Kalloc.Laws.{kinit_frees_all}
use re_xvapor.Mm.Kalloc.Owners.{Owners, Reach, Step, Shared, Reach-Shared}

abbrev kernel_end : ℕ
kernel_end = 5000

abbrev phystop : ℕ
phystop = 20480

abbrev after_boot : Option Kmem
after_boot = kinit kernel_end phystop (λ _. 0)

-- Two free pages, 0x3000 linked to 0x2000.
abbrev two_free : Kmem
two_free = record { mem = λ a. if a == 0x3000 then 0x2000 else 0; freelist = 0x3000; freecnt = 2 }

boots :
    Option.map {B = List ℕ} (λ s. s.freelist ∷ s.mem s.freelist ∷ freemem_pages s ∷ []) after_boot
    ≡ some (0x4000 ∷ 0x3000 ∷ 3 ∷ [])
unfolding kinit freerange free_from kfree freemem_pages
boots = refl

allocates_zeroed : ((kalloc two_free).0 ≡ 0x3000) × ((kalloc two_free).1.mem 0x3008 ≡ 0)
unfolding kalloc
allocates_zeroed = (refl, refl)

kzalloc_same : (kzalloc two_free).0 ≡ (kalloc two_free).0
unfolding kzalloc kalloc
kzalloc_same = refl

too_large : (kmalloc 4097 two_free).0 ≡ 0
unfolding kmalloc
too_large = refl

-- 65536 * 65536 wraps to 0, which is not more than a page.
product_wraps : (kcalloc 65536 65536 two_free).0 ≡ 0x3000
unfolding kcalloc kalloc
product_wraps = refl

bytes_of_pages : freemem_bytes two_free ≡ 8192
unfolding freemem_bytes
bytes_of_pages = refl

ram : totalram_bytes kernel_end phystop ≡ 15480
unfolding totalram_bytes
ram = refl

-- All pages of the range, the last one first, as kinit leaves them.
abbrev pages : List ℕ
pages = 0x4000 ∷ 0x3000 ∷ 0x2000 ∷ []

abbrev three_free : Kmem
three_free = record {
  mem = λ a. if a == 0x4000 then 0x3000 else if a == 0x3000 then 0x2000 else 0;
  freelist = 0x4000;
  freecnt = 3;
}

three_free-IsFree : IsFree kernel_end phystop three_free pages
three_free-IsFree = record {
  chain = (refl, omega arith, (refl, omega arith, (refl, omega arith, refl)));
  pages = omega arith;
  distinct = omega arith;
}

kinit_frees_all_example :
    (s : Kmem) × (kinit kernel_end phystop (λ _. 0) ≡ some s)
    × IsFree kernel_end phystop s (0x4000 ∷ 0x3000 ∷ 0x2000 ∷ [])
kinit_frees_all_example = kinit_frees_all kernel_end phystop (omega arith) (λ _. 0) (omega arith)

abbrev started : Owners
started = record { kmem = three_free; held = [] }

abbrev allocated : Owners
allocated = record { kmem = (kalloc three_free).1; held = (kalloc three_free).0 ∷ [] }

one_allocation : Reach kernel_end phystop started allocated
unfolding kalloc
one_allocation = Reach.next Reach.here (Step.allocates (omega arith) refl refl)

Reach-Shared_example : Shared kernel_end phystop pages allocated
Reach-Shared_example =
    Reach-Shared kernel_end phystop (omega arith) pages refl three_free-IsFree one_allocation
