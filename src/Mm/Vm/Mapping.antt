-- ===== src/Mm/Vm/Mapping.antt =====
-- What walkaddr finds behind a mappages (mm/vm.c).
use re_xvapor.Base.{
  ℕ, suc, ◌+◌, ◌-◌, ◌*◌, ◌/◌, ◌%◌, ◌^◌, ◌≤◌, ◌<◌, ◌≡◌, refl, ◌∙◌, ap, Bool, true, List, ltb,
  Bool-cases, inl, inr, if◌then◌else◌, arith, ◌⊎◌,
}
use re_xvapor.Base.Bits.{bit}
use re_xvapor.Mm.Kalloc.{Kmem, pgsize}
use re_xvapor.Mm.Pte.{maxva, pg_round_down, leaf_pte}
use re_xvapor.Mm.Pte.Laws.{leaf_pte-is_valid, leaf_pte-is_user, pte_to_pa-leaf_pte}
use re_xvapor.Mm.Vm.{returns, mappages, walkaddr}
use re_xvapor.Mm.Vm.Table.{Label}
use re_xvapor.Mm.Vm.Space.{lookup, user_page, IsSpace, walkaddr_lem}
use re_xvapor.Mm.Vm.Map.{Unmapped}
use re_xvapor.Mm.Vm.Range.{more_pages, mappages-Mapped}

user_page-leaf_pte :
    (pa perm : ℕ)
    → pa % 4096 ≡ 0
    → pa < 2 ^ 56
    → perm < 2 ^ 10
    → user_page (leaf_pte pa perm) ≡ (if bit perm 4 then pa else 0)
user_page-leaf_pte pa perm al low h =
    rw (leaf_pte-is_valid pa perm, leaf_pte-is_user pa perm, pte_to_pa-leaf_pte pa al low perm h)
      refl

module _ (kernel_end phystop : ℕ) (small : phystop ≤ 2 ^ 56) where
  -- On a sound address space, for a range of at least one byte that ends at MAXVA or below, whose
  -- pages have no valid entry, with a page-aligned `pa`, a range of physical addresses that ends at
  -- 2 ^ 56 or below, and ten bits of flags: if mappages returns 0, walkaddr finds for each address of
  -- the range its page from `pa` on if the flags have PTE_U, and 0 if not; outside the pages of the
  -- range it finds in any case what the entries before give.
  pub walkaddr-mappages :
      (pt va size pa perm : ℕ) (s : Kmem) (owner : ℕ → Label) (xs : List ℕ)
      → IsSpace kernel_end phystop s pt owner xs
      → 0 < size
      → va + size ≤ maxva
      → pa % pgsize ≡ 0
      → pa + suc (more_pages va size) * pgsize ≤ 2 ^ 56
      → perm < 2 ^ 10
      → Unmapped s pt (pg_round_down va) (suc (more_pages va size))
      → (ok : Bool) × (t : Kmem) × (mappages pt va size pa perm s ≡ returns ok t)
        × (ok ≡ true
            → (va' : ℕ) → pg_round_down va ≤ va'
            → va' < va + size
            → walkaddr pt va' t
              ≡ returns (if bit perm 4 then pa + (pg_round_down va' - pg_round_down va) else 0) t)
        × ((va' : ℕ)
            → (va' < pg_round_down va)
              ⊎ (pg_round_down va + suc (more_pages va size) * pgsize ≤ va')
            → walkaddr pt va' t
              ≡ returns (if ltb va' maxva then user_page (lookup pt s va') else 0) t)
  walkaddr-mappages pt va size pa perm s owner xs h more low al room flags free =
      let m =
        mappages-Mapped kernel_end phystop small pt va size pa perm s owner xs h more low
          (omega arith) free in
      (
        m.ok,
        m.state,
        m.runs,
        (λ t va' lo hi.
            let page = pa + (va' - pg_round_down va) / pgsize * pgsize in
            let in_range : (ltb va' maxva) ≡ true = ground arith in
            let entry = m.inside t va' lo (omega arith) in
            let at : page ≡ pa + (pg_round_down va' - pg_round_down va) = omega arith in
            walkaddr_lem pt va' m.state
            ∙ ap (λ (a : ℕ). returns a m.state)
                (rw in_range (
                  ap user_page entry
                  ∙ (user_page-leaf_pte page perm (omega arith) (omega arith) flags
                      ∙ ap (λ (p : ℕ). if bit perm 4 then p else 0) at)))),
        (λ va' out.
            walkaddr_lem pt va' m.state
            ∙ ap (λ (a : ℕ). returns a m.state)
                (kept pt va' s m.state (λ inside. m.outside va' inside out))),
      )
    where
      kept :
          (pt va' : ℕ) (s t : Kmem)
          → (va' < maxva → lookup pt t va' ≡ lookup pt s va')
          → (if ltb va' maxva then user_page (lookup pt t va') else 0)
            ≡ (if ltb va' maxva then user_page (lookup pt s va') else 0)
      kept pt va' s t same = elim (Bool-cases (ltb va' maxva)) [
        | inl inside ↦ rw (inside, same (ground arith)) refl
        | inr high ↦ rw high refl
      ]
