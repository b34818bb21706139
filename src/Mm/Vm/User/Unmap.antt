-- ===== src/Mm/Vm/User/Unmap.antt =====
-- uvmunmap (mm/vm.c): the entries of a range are cleared and, with do_free, their pages freed.
use re_xvapor.Base.{
  ℕ, zero, suc, ◌+◌, ◌-◌, ◌*◌, ◌/◌, ◌%◌, ◌^◌, ◌≤◌, ◌<◌, ◌≡◌, ◌≢◌, refl, sym, ◌∙◌, ap, subst, Bool,
  true, false, Bool-cases, Option, none, some, List, ◌∷◌, NotIn, update, ltb, ◌==◌, if◌then◌else◌,
  arith, inl, inr, ◌⊎◌,
}
use re_xvapor.Mm.Kalloc.{Kmem, pgsize, kfree}
use re_xvapor.Mm.Kalloc.Chain.{IsPage}
use re_xvapor.Mm.Pte.{is_valid, pte_to_pa, pte_flags, pte_v, maxva}
use re_xvapor.Mm.Vm.{Outcome, returns, ◌>>=◌, ◌>>◌, walk}
use re_xvapor.Mm.Vm.Table.{Label}
use re_xvapor.Mm.Vm.Write.{Leads, entry-Leads, entry_same_page}
use re_xvapor.Mm.Vm.Walk.{Found, leads_to, missing}
use re_xvapor.Mm.Vm.Space.{lookup, IsSpace, walk-Found, slot_store}
use re_xvapor.Mm.Vm.Map.{page_ne, page_eq}
use re_xvapor.Mm.Vm.User.{unmap_page, unmap_from, uvmunmap}
use re_xvapor.Mm.Vm.User.Frame.{kfree-Freed}

-- A valid entry with a permission or another flag.
abbrev pub IsLeaf : ℕ → Type 0
IsLeaf pte = (is_valid pte ≡ true) × (pte_flags pte ≢ pte_v)

slot_of :
    (pt va : ℕ) (s : Kmem)
    → va < maxva
    → is_valid (lookup pt s va) ≡ true
    → (a : ℕ) × (walk pt va false s ≡ returns (some a) s) × Leads s.mem 2 pt va a
slot_of pt va s low valid = let (o, e, f) = walk-Found pt va s low in given o e f
  where
    given :
        (o : Option ℕ)
        → walk pt va false s ≡ returns o s
        → Found s.mem 2 pt va o
        → (a : ℕ) × (walk pt va false s ≡ returns (some a) s) × Leads s.mem 2 pt va a
    given o e (leads_to a l) = (a, e, l)
    given o e (missing z) = cc (sym valid ∙ ap is_valid z)

-- The page of the address `a`, aligned, and the range of `n` pages from it.
abbrev pub IsPageOf : ℕ → ℕ → ℕ → Type 0
IsPageOf a n va = (a ≤ va) × (va < a + n * pgsize) × (va % pgsize ≡ 0)

-- The free list after the pages that `old` maps the range to are freed, the last one first.
abbrev pub freed_pages : Bool → (ℕ → ℕ) → ℕ → ℕ → List ℕ → List ℕ
freed_pages do_free old a zero xs = xs
freed_pages do_free old a (suc n) xs =
    freed_pages do_free old (a + pgsize) n (if do_free then pte_to_pa (old a) ∷ xs else xs)

module _ (kernel_end phystop : ℕ) where
  -- The pages of a range are pages of the allocator, each another one, not free and no tables.
  pub record IsOwned (old : ℕ → ℕ) (a n : ℕ) (owner : ℕ → Label) (xs : List ℕ) : Type 0 where
    pub page : (va : ℕ) → IsPageOf a n va → IsPage kernel_end phystop (pte_to_pa (old va))
    pub apart : (va : ℕ) → IsPageOf a n va → owner (pte_to_pa (old va)) ≡ none
    pub fresh : (va : ℕ) → IsPageOf a n va → NotIn (pte_to_pa (old va)) xs
    pub distinct :
        (va va' : ℕ)
        → IsPageOf a n va
        → IsPageOf a n va'
        → va ≢ va'
        → pte_to_pa (old va) ≢ pte_to_pa (old va')

  pub record Cleared (s : Kmem) (pt a n : ℕ) (owner : ℕ → Label) (free : List ℕ)
      (g : Outcome (Unit {0})) : Type 0 where
    pub state : Kmem
    pub runs : g ≡ returns tt state
    pub space : IsSpace kernel_end phystop state pt owner free
    pub inside : (va : ℕ) → a ≤ va → va < a + n * pgsize → lookup pt state va ≡ 0
    pub outside :
        (va : ℕ)
        → va < maxva
        → (va < a) ⊎ (a + n * pgsize ≤ va)
        → lookup pt state va ≡ lookup pt s va

unmap_runs :
    (kernel_end phystop pt a at : ℕ) (do_free : Bool) (s t : Kmem)
    → walk pt a false s ≡ returns (some at) s
    → IsLeaf (s.mem at)
    → (do_free ≡ true → kfree kernel_end phystop (pte_to_pa (s.mem at)) s ≡ some t)
    → (do_free ≡ false → t ≡ s)
    → unmap_page kernel_end phystop pt a do_free s
      ≡ returns tt (record t { mem = update t.mem at 0 })
unfolding unmap_page
unmap_runs kernel_end phystop pt a at true s t e leaf freed kept =
    let flags : (pte_flags (s.mem at) == pte_v) ≡ false = ground (arith, leaf.1) in
    rw (e, ◌>>=◌, leaf.0, flags, freed refl) refl
unmap_runs kernel_end phystop pt a at false s t e leaf freed kept =
    let flags : (pte_flags (s.mem at) == pte_v) ≡ false = ground (arith, leaf.1) in
    rw (e, ◌>>=◌, leaf.0, flags, kept refl) refl

module _ (kernel_end phystop : ℕ) (small : phystop ≤ 2 ^ 56) where
  -- The store of 0 that ends a round, from the state `t`.
  stored-Cleared :
      (s t : Kmem) (pt a at : ℕ) (owner : ℕ → Label) (xs : List ℕ) (g : Outcome (Unit {0}))
      → a % pgsize ≡ 0
      → a + pgsize ≤ maxva
      → IsSpace kernel_end phystop t pt owner xs
      → ((va : ℕ) → va < maxva → lookup pt t va ≡ lookup pt s va)
      → Leads t.mem 2 pt a at
      → g ≡ returns tt (record t { mem = update t.mem at 0 })
      → Cleared kernel_end phystop s pt a 1 owner xs g
  stored-Cleared s t pt a at owner xs g al low h same l e =
      let after = slot_store kernel_end phystop small t pt a at 0 owner xs h (omega arith) l in
      record {
        state = record t { mem = update t.mem at 0 };
        runs = e;
        space = after.0;
        inside = λ va lo hi.
            sym (
              entry_same_page (update t.mem at 0) 2 pt a va (omega arith)
                (page_eq a va al lo (omega arith)))
            ∙ after.1;
        outside = λ va below out. after.2 va below (page_ne a va al out) ∙ same va below;
      }

  module _ (pos : 0 < kernel_end) where
    unmap_page-Cleared :
        (pt a : ℕ) (do_free : Bool) (s : Kmem) (owner : ℕ → Label) (xs : List ℕ) (pte : ℕ)
        → IsSpace kernel_end phystop s pt owner xs
        → a % pgsize ≡ 0
        → a + pgsize ≤ maxva
        → lookup pt s a ≡ pte
        → IsLeaf pte
        → (do_free ≡ true
            → IsPage kernel_end phystop (pte_to_pa pte)
              × NotIn (pte_to_pa pte) xs
              × (owner (pte_to_pa pte) ≡ none))
        → Cleared kernel_end phystop s pt a 1 owner
            (if do_free then pte_to_pa pte ∷ xs else xs)
            (unmap_page kernel_end phystop pt a do_free s)
    unmap_page-Cleared pt a true s owner xs pte h al low is leaf own =
        let (at, e, l) = slot_of pt a s (omega arith) (ap is_valid is ∙ leaf.0) in
        let word : s.mem at ≡ pte = sym (entry-Leads s.mem 2 pt a at l) ∙ is in
        let f =
          kfree-Freed kernel_end phystop small pos s pt (pte_to_pa pte) owner xs h (own refl).0
            (own refl).1 (own refl).2 in
        stored-Cleared s f.state pt a at owner (pte_to_pa pte ∷ xs) _ al low f.space f.same
          (f.leads a at (omega arith) l)
          (unmap_runs kernel_end phystop pt a at true s f.state e (subst IsLeaf (sym word) leaf)
            (λ r. ap (λ (q : ℕ). kfree kernel_end phystop (pte_to_pa q) s) word ∙ f.runs)
            (λ r. cc r))
    unmap_page-Cleared pt a false s owner xs pte h al low is leaf own =
        let (at, e, l) = slot_of pt a s (omega arith) (ap is_valid is ∙ leaf.0) in
        let word : s.mem at ≡ pte = sym (entry-Leads s.mem 2 pt a at l) ∙ is in
        stored-Cleared s s pt a at owner xs _ al low h (λ va below. refl) l
          (unmap_runs kernel_end phystop pt a at false s s e (subst IsLeaf (sym word) leaf)
            (λ r. cc r) (λ r. refl))

    unmap_none :
        (pt a : ℕ) (do_free : Bool) (s : Kmem)
        → unmap_from kernel_end phystop 0 pt a do_free s ≡ returns tt s
    unfolding unmap_from
    unmap_none pt a do_free s = refl

    unmap_round :
        (n pt a : ℕ) (do_free : Bool) (s t : Kmem)
        → unmap_page kernel_end phystop pt a do_free s ≡ returns tt t
        → unmap_from kernel_end phystop (suc n) pt a do_free s
          ≡ unmap_from kernel_end phystop n pt (a + pgsize) do_free t
    unfolding unmap_from
    unmap_round n pt a do_free s t e = rw (◌>>◌, e, ◌>>=◌) refl

    IsOwned-rest :
        (old : ℕ → ℕ) (a n : ℕ) (owner : ℕ → Label) (xs : List ℕ)
        → a % pgsize ≡ 0
        → IsOwned kernel_end phystop old a (suc n) owner xs
        → IsOwned kernel_end phystop old (a + pgsize) n owner (pte_to_pa (old a) ∷ xs)
    IsOwned-rest old a n owner xs al h = record {
      page = λ va r. h.page va (later va r);
      apart = λ va r. h.apart va (later va r);
      fresh = λ va r. (
        h.distinct va a (later va r) (omega arith) (λ e. absurd (omega (arith, e, r))),
        h.fresh va (later va r),
      );
      distinct = λ va va' r r' ne. h.distinct va va' (later va r) (later va' r') ne;
    }
      where
        later : (va : ℕ) → IsPageOf (a + pgsize) n va → IsPageOf a (suc n) va
        later va r = omega arith

    pub unmap_from-Cleared :
        (n pt a : ℕ) (do_free : Bool) (s : Kmem) (owner : ℕ → Label) (xs : List ℕ) (old : ℕ → ℕ)
        → IsSpace kernel_end phystop s pt owner xs
        → a % pgsize ≡ 0
        → a + n * pgsize ≤ maxva
        → ((va : ℕ) → IsPageOf a n va → lookup pt s va ≡ old va)
        → ((va : ℕ) → IsPageOf a n va → IsLeaf (old va))
        → (do_free ≡ true → IsOwned kernel_end phystop old a n owner xs)
        → Cleared kernel_end phystop s pt a n owner
            (freed_pages do_free old a n xs)
            (unmap_from kernel_end phystop n pt a do_free s)
    unmap_from-Cleared zero pt a do_free s owner xs old h al low view leaf own = record {
      state = s;
      runs = unmap_none pt a do_free s;
      space = h;
      inside = λ va lo hi. absurd (omega arith);
      outside = λ va below out. refl;
    }
    unmap_from-Cleared (suc n) pt a do_free s owner xs old h al low view leaf own =
        let here : IsPageOf a (suc n) a = omega arith in
        let first =
          unmap_page-Cleared pt a do_free s owner xs (old a) h al (omega arith) (view a here)
            (leaf a here)
            (λ e. ((own e).page a here, (own e).fresh a here, (own e).apart a here)) in
        let rest =
          unmap_from-Cleared n pt (a + pgsize) do_free first.state owner _ old first.space
            (omega arith) (omega arith)
            (λ va r. first.outside va (omega arith) (inr (omega arith)) ∙ view va (omega arith))
            (λ va r. leaf va (omega arith))
            (λ e. rw e (IsOwned-rest old a n owner xs al (own e))) in
        record {
          state = rest.state;
          runs = unmap_round n pt a do_free s first.state first.runs ∙ rest.runs;
          space = rest.space;
          inside = λ va lo hi. elim (Bool-cases (ltb va (a + pgsize))) [
            | inl now ↦
                rest.outside va (ground arith) (inl (ground arith))
                ∙ first.inside va lo (ground arith)
            | inr later ↦ rest.inside va (ground arith) (ground arith)
          ];
          outside = λ va below out.
              rest.outside va below (ground arith) ∙ first.outside va below (ground arith);
        }

    uvmunmap_rounds :
        (n pt a : ℕ) (do_free : Bool) (s : Kmem)
        → a % pgsize ≡ 0
        → a + n * pgsize ≤ maxva
        → uvmunmap kernel_end phystop pt a n do_free s
          ≡ unmap_from kernel_end phystop n pt a do_free s
    unfolding uvmunmap
    uvmunmap_rounds n pt a do_free s al low =
        let ok : (a % pgsize == 0) ≡ true = ground (arith, al) in
        let rounds : ((a + n * pgsize) % 2 ^ 64 - a) / pgsize ≡ n = omega arith in
        rw (ok, rounds) refl

    -- On a sound address space, for a page-aligned range that ends at MAXVA or below, in which every
    -- page has a leaf entry, and with do_free only where these entries have different pages of the
    -- allocator, not free and no tables, uvmunmap does not panic: it leaves the space sound, the
    -- entries of the range 0 and all others below MAXVA as they were. The free list is the old one,
    -- and with do_free the pages of the range in front of it, the last one first.
    pub uvmunmap-Cleared :
        (n pt a : ℕ) (do_free : Bool) (s : Kmem) (owner : ℕ → Label) (xs : List ℕ)
        → IsSpace kernel_end phystop s pt owner xs
        → a % pgsize ≡ 0
        → a + n * pgsize ≤ maxva
        → ((va : ℕ) → IsPageOf a n va → IsLeaf (lookup pt s va))
        → (do_free ≡ true → IsOwned kernel_end phystop (lookup pt s) a n owner xs)
        → Cleared kernel_end phystop s pt a n owner
            (freed_pages do_free (lookup pt s) a n xs)
            (uvmunmap kernel_end phystop pt a n do_free s)
    uvmunmap-Cleared n pt a do_free s owner xs h al low leaf own =
        rw (uvmunmap_rounds n pt a do_free s al low) (
          unmap_from-Cleared n pt a do_free s owner xs (lookup pt s) h al low (λ va r. refl) leaf
            own)
