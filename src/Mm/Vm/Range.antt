-- ===== src/Mm/Vm/Range.antt =====
-- mappages (mm/vm.c) on any range below MAXVA: the pages that the range touches.
use re_xvapor.Base.{
  ℕ, suc, ◌+◌, ◌-◌, ◌*◌, ◌/◌, ◌%◌, ◌^◌, ◌≤◌, ◌<◌, ◌≡◌, refl, false, List, ◌==◌, arith,
}
use re_xvapor.Mm.Kalloc.{Kmem, pgsize}
use re_xvapor.Mm.Pte.{maxva, pg_round_down}
use re_xvapor.Mm.Vm.{map_from, mappages}
use re_xvapor.Mm.Vm.Table.{Label}
use re_xvapor.Mm.Vm.Space.{IsSpace}
use re_xvapor.Mm.Vm.Map.{Mapped, Unmapped, map_from-Mapped}

-- The pages after the first.
abbrev pub more_pages : ℕ → ℕ → ℕ
more_pages va size = (va + (size - 1)) / pgsize - va / pgsize

mappages_rounds :
    (pt va size pa perm : ℕ) (s : Kmem)
    → 0 < size
    → va + size ≤ maxva
    → mappages pt va size pa perm s
      ≡ map_from
          (suc (more_pages va size))
          pt
          (pg_round_down va)
          (pg_round_down va + more_pages va size * pgsize)
          pa
          perm
          s
unfolding mappages
mappages_rounds pt va size pa perm s more low =
    let full : (size == 0) ≡ false = ground arith in
    let last : pg_round_down ((va + size + 2 ^ 64 - 1) % 2 ^ 64)
        ≡ pg_round_down va + more_pages va size * pgsize =
      omega arith in
    let rounds : (pg_round_down va + more_pages va size * pgsize - pg_round_down va) / pgsize + 1
        ≡ suc (more_pages va size) =
      omega arith in
    rw (full, last, rounds) refl

module _ (kernel_end phystop : ℕ) (small : phystop ≤ 2 ^ 56) where
  -- On a sound address space (a tree of labelled tables apart from the free list), for a range of at
  -- least one byte that ends at MAXVA or below, whose pages have no valid entry, and physical
  -- addresses that do not wrap, mappages neither panics nor runs out of rounds, and leaves the space
  -- sound. If it returns 0, each page of the range has a leaf entry for its page from `pa` on; if -1,
  -- no page is free; the entries of all other addresses below MAXVA stay.
  pub mappages-Mapped :
      (pt va size pa perm : ℕ) (s : Kmem) (owner : ℕ → Label) (xs : List ℕ)
      → IsSpace kernel_end phystop s pt owner xs
      → 0 < size
      → va + size ≤ maxva
      → pa + suc (more_pages va size) * pgsize ≤ 2 ^ 64
      → Unmapped s pt (pg_round_down va) (suc (more_pages va size))
      → Mapped kernel_end phystop s pt
          (pg_round_down va)
          (suc (more_pages va size))
          pa
          perm
          (mappages pt va size pa perm s)
  mappages-Mapped pt va size pa perm s owner xs h more low room free =
      rw (mappages_rounds pt va size pa perm s more low) (
        map_from-Mapped kernel_end phystop small (more_pages va size) pt (pg_round_down va)
          (pg_round_down va + more_pages va size * pgsize) pa perm s owner xs h (omega arith) refl
          (omega arith) room free)
