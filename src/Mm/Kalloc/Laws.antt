-- ===== src/Mm/Kalloc/Laws.antt =====
-- What the allocator's operations do to the free list (mm/kalloc.c).
use re_xvapor.Base.{
  ℕ, zero, suc, ◌+◌, ◌-◌, ◌*◌, ◌/◌, ◌%◌, ◌^◌, ◌≤◌, ◌<◌, ◌≡◌, refl, sym, ◌∙◌, ap, Option, ◌≢◌, ◌↔◌,
  ◌⊎◌, inl, inr, true, false, List, [], ◌∷◌, none, some, NotIn, update, update_self, arith, leb,
  subst, Option-cases, Bool-cases,
}
use re_xvapor.Mm.Kalloc.{
  Kmem, pgsize, pg_round_up, memset_page, junk, inc, kalloc, kfree, free_from, freerange, kinit,
  freemem_pages,
}
use re_xvapor.Mm.Kalloc.Chain.{Chain, IsPage, IsFree, aligned, Chain-memset_page, Chain-update}

-- The state after a page is taken from, or put on, the list.
abbrev taken : Kmem → Kmem
taken s = record s {
  freelist = s.mem s.freelist;
  mem = memset_page s.mem s.freelist 0;
  freecnt = inc s.freecnt;
}

abbrev freed : ℕ → Kmem → Kmem
freed p s = record s {
  mem = update (memset_page s.mem p junk) p s.freelist;
  freelist = p;
  freecnt = inc s.freecnt;
}

kalloc-taken : (s : Kmem) → s.freelist ≢ 0 → kalloc s ≡ (s.freelist, taken s)
unfolding kalloc
kalloc-taken s h = ground arith

pub kalloc-failed :
    (s : Kmem) → (kalloc s).0 ≡ 0 → kalloc s ≡ (s.freelist, record s { freecnt = inc s.freecnt })
unfolding kalloc
kalloc-failed s h = ground arith

module _ (kernel_end phystop : ℕ) where
  abbrev Free : Kmem → List ℕ → Type 0
  Free = IsFree kernel_end phystop

  taken-IsFree : (s : Kmem) (x : ℕ) (xs : List ℕ) → Free s (x ∷ xs) → Free (taken s) xs
  taken-IsFree s x xs h = record {
    chain = rw (h.chain.0) next;
    pages = h.pages.1;
    distinct = h.distinct.1;
  }
    where
      next : Chain (memset_page s.mem x 0) (s.mem x) xs
      next =
          Chain-memset_page s.mem x 0 (s.mem x) xs h.pages.0.0
            (aligned kernel_end phystop xs h.pages.1) h.distinct.0 h.chain.2

  -- On a list with head `x`, kalloc returns `x`, leaves the rest of the list, hands the page out
  -- zeroed and changes no memory outside it.
  pub kalloc_takes_head :
      (s : Kmem) (x : ℕ) (xs : List ℕ)
      → Free s (x ∷ xs)
      → ((kalloc s).0 ≡ x)
        × Free (kalloc s).1 xs
        × ((a : ℕ) → x ≤ a → a < x + pgsize → (kalloc s).1.mem a ≡ 0)
        × ((a : ℕ) → (a < x) ⊎ (x + pgsize ≤ a) → (kalloc s).1.mem a ≡ s.mem a)
  kalloc_takes_head s x xs h =
      rw (kalloc-taken s h.chain.1)
        (h.chain.0, taken-IsFree s x xs h, (λ a lo hi. ground arith), (λ a out. ground arith))

  -- kalloc returns NULL exactly when the list is empty.
  pub kalloc-null : (s : Kmem) (xs : List ℕ) → Free s xs → ((kalloc s).0 ≡ 0) ↔ (xs ≡ [])
  unfolding kalloc
  kalloc-null s [] h = ((λ e. refl), (λ e. ground arith))
  kalloc-null s (x ∷ xs) h = ((λ e. ground arith), (λ e. cc))

  kfree-freed :
      (p : ℕ) (s : Kmem)
      → IsPage kernel_end phystop p
      → kfree kernel_end phystop p s ≡ some (freed p s)
  unfolding kfree
  kfree-freed p s h = ground arith

  kfree-IsPage :
      (p : ℕ) (s s' : Kmem) → kfree kernel_end phystop p s ≡ some s' → IsPage kernel_end phystop p
  unfolding kfree
  kfree-IsPage p s s' e = ground arith

  -- kfree panics on exactly the addresses that are no page of the managed range.
  pub kfree-panics :
      (p : ℕ) (s : Kmem) → (kfree kernel_end phystop p s ≡ none) ↔ (¬ IsPage kernel_end phystop p)
  unfolding kfree
  kfree-panics p s = (
    (λ e h. ground arith),
    (λ h. elim (Option-cases (kfree kernel_end phystop p s)) [
      | inl e ↦ e
      | inr (s', e) ↦ absurd (h (kfree-IsPage p s s' e))
    ]),
  )

  pub kfree-outside :
      (p : ℕ) (s s' : Kmem) (a : ℕ)
      → kfree kernel_end phystop p s ≡ some s'
      → (a < p) ⊎ (p + pgsize ≤ a)
      → s'.mem a ≡ s.mem a
  kfree-outside p s s' a e out =
      let same = sym (kfree-freed p s (kfree-IsPage p s s' e)) ∙ e in
      sym (ap (λ (o : Option Kmem). elim o [ none ↦ 0 | some t ↦ t.mem a ]) same) ∙ ground arith

  module _ (pos : 0 < kernel_end) where
    freed-IsFree :
        (p : ℕ) (s : Kmem) (xs : List ℕ)
        → IsPage kernel_end phystop p
        → NotIn p xs
        → Free s xs
        → Free (freed p s) (p ∷ xs)
    freed-IsFree p s xs hp out h = record {
      chain = (refl, omega arith, rw (update_self (memset_page s.mem p junk) p s.freelist) next);
      pages = (hp, h.pages);
      distinct = (out, h.distinct);
    }
      where
        next : Chain (update (memset_page s.mem p junk) p s.freelist) s.freelist xs
        next = Chain-update (memset_page s.mem p junk) p s.freelist s.freelist xs out (
            Chain-memset_page s.mem p junk s.freelist xs hp.0
              (aligned kernel_end phystop xs h.pages) out h.chain)

    -- Freeing a page of the range that is not free puts it at the head of the list.
    pub kfree_adds_head :
        (p : ℕ) (s : Kmem) (xs : List ℕ)
        → IsPage kernel_end phystop p
        → NotIn p xs
        → Free s xs
        → (s' : Kmem) × (kfree kernel_end phystop p s ≡ some s') × Free s' (p ∷ xs)
    kfree_adds_head p s xs hp out h = (freed p s, kfree-freed p s hp, freed-IsFree p s xs hp out h)

-- The `n` pages from `p` on, the last one first.
abbrev pub page_list : ℕ → ℕ → List ℕ
page_list p zero = []
page_list p (suc n) = (p + n * pgsize) ∷ page_list p n

page_list-NotIn : (p n j : ℕ) → n ≤ j → NotIn (p + j * pgsize) (page_list p n)
page_list-NotIn p zero j h = tt
page_list-NotIn p (suc n) j h = (omega arith, page_list-NotIn p n j (omega arith))

module _ (kernel_end phystop : ℕ) (pos : 0 < kernel_end) where
  free_from-round :
      (fuel p pa_end : ℕ) (s : Kmem)
      → leb (p + pgsize) pa_end ≡ true
      → IsPage kernel_end phystop p
      → free_from kernel_end phystop (suc fuel) p pa_end s
        ≡ free_from kernel_end phystop fuel (p + pgsize) pa_end (freed p s)
  unfolding free_from
  free_from-round fuel p pa_end s more page =
      ground (arith, kfree-freed kernel_end phystop p s page)

  free_from-stop :
      (fuel p pa_end : ℕ) (s : Kmem)
      → leb (p + pgsize) pa_end ≡ false
      → free_from kernel_end phystop (suc fuel) p pa_end s ≡ some s
  unfolding free_from
  free_from-stop fuel p pa_end s stop = rw (stop, free_from)

  module _ (first pa_end k : ℕ) (al : first % pgsize ≡ 0) (lo : kernel_end ≤ first)
      (hi : pa_end ≤ phystop) (rounds : k ≡ (pa_end - first) / pgsize) where
    -- Round `i` of the loop, with `k` rounds in all.
    free_from_lem :
        (fuel i p : ℕ) (s : Kmem)
        → k < fuel + i
        → i ≤ k
        → p ≡ first + i * pgsize
        → IsFree kernel_end phystop s (page_list first i)
        → (s' : Kmem) × (free_from kernel_end phystop fuel p pa_end s ≡ some s')
          × IsFree kernel_end phystop s' (page_list first k)
    free_from_lem zero i p s f ik at h = absurd (omega arith)
    free_from_lem (suc fuel) i p s f ik at h = elim (Bool-cases (leb (p + pgsize) pa_end)) [
      | inl more ↦
          let below : p + pgsize ≤ pa_end = ground arith in
          let page : IsPage kernel_end phystop p = omega arith in
          let fresh : NotIn p (page_list first i) =
            rw at (page_list-NotIn first i i (omega arith)) in
          let next : IsFree kernel_end phystop (freed p s) (p ∷ page_list first i) =
            freed-IsFree kernel_end phystop pos p s (page_list first i) page fresh h in
          rw (free_from-round fuel p pa_end s more page) (
            free_from_lem fuel (suc i) (p + pgsize) (freed p s) (omega arith) (omega arith)
              (omega arith)
              (subst (λ q. IsFree kernel_end phystop (freed p s) (q ∷ page_list first i)) at next))
      | inr stop ↦
          let above : pa_end < p + pgsize = ground arith in
          let all : i ≡ k = omega arith in
          (
            s,
            free_from-stop fuel p pa_end s stop,
            subst (λ n. IsFree kernel_end phystop s (page_list first n)) all h,
          )
    ]

  -- freerange on an empty list frees every whole page between its two addresses, the last one
  -- first in the list, and no other: it neither panics nor runs out of rounds.
  pub freerange_frees :
      (pa_start pa_end : ℕ) (s : Kmem)
      → pa_start + pgsize ≤ 2 ^ 64
      → kernel_end ≤ pa_start
      → pa_end ≤ phystop
      → IsFree kernel_end phystop s []
      → let first = (pa_start + (pgsize - 1)) / pgsize * pgsize in
        (s' : Kmem) × (freerange kernel_end phystop pa_start pa_end s ≡ some s')
        × IsFree kernel_end phystop s' (page_list first ((pa_end - first) / pgsize))
  unfolding freerange
  freerange_frees pa_start pa_end s nowrap lo hi h =
      let first : ℕ = (pa_start + (pgsize - 1)) / pgsize * pgsize in
      let same : pg_round_up pa_start ≡ first = omega arith in
      rw same (
        free_from_lem first pa_end ((pa_end - first) / pgsize) (omega arith) (omega arith) hi refl
          (pa_end / pgsize + 1) 0 first s (omega arith) (omega arith) (omega arith) h)

  -- After kinit the free list holds every whole page between the kernel's end and PHYSTOP.
  pub kinit_frees_all :
      (mem : ℕ → ℕ)
      → kernel_end + pgsize ≤ 2 ^ 64
      → let first = (kernel_end + (pgsize - 1)) / pgsize * pgsize in
        (s : Kmem) × (kinit kernel_end phystop mem ≡ some s)
        × IsFree kernel_end phystop s (page_list first ((phystop - first) / pgsize))
  unfolding kinit
  kinit_frees_all mem nowrap =
      freerange_frees kernel_end phystop (record { mem = mem; freelist = 0; freecnt = 0 }) nowrap
        (omega arith) (omega arith) (record { chain = refl; pages = tt; distinct = tt })

-- freemem_pages is raised by an allocation, as it is by a free: it counts calls, not free pages.
pub freemem_pages-kalloc :
    (s : Kmem) → s.freecnt + 1 < 2 ^ 31 → freemem_pages (kalloc s).1 ≡ freemem_pages s + 1
unfolding kalloc freemem_pages
freemem_pages-kalloc s h = ground arith
