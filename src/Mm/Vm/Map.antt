-- ===== src/Mm/Vm/Map.antt =====
-- mappages (mm/vm.c) on a range of pages that have no mapping.
use re_xvapor.Base.{
  ℕ, zero, suc, ◌+◌, ◌-◌, ◌*◌, ◌/◌, ◌%◌, ◌^◌, ◌≤◌, ◌<◌, ◌≡◌, ◌≢◌, refl, sym, ◌∙◌, ap, Bool, true,
  false, Bool-cases, Option, none, some, List, [], update, ltb, ◌==◌, arith, inl, inr, ◌⊎◌,
}
use mathlib.Core.Path.{ap₂}
use re_xvapor.Mm.Kalloc.{Kmem, pgsize}
use re_xvapor.Mm.Pte.{is_valid, vpn, maxva, leaf_pte}
use re_xvapor.Mm.Vm.{Outcome, returns, panics, ◌>>=◌, walk, map_from}
use re_xvapor.Mm.Vm.Table.{Label}
use re_xvapor.Mm.Vm.Write.{entry-Leads, entry_same_page}
use re_xvapor.Mm.Vm.Space.{lookup, vpn_page, IsSpace, slot_store, Walked, walk-Walked}

-- One round of map_from.
module _ (fuel pt a last pa perm : ℕ) (s t : Kmem) where
  round_full :
      walk pt a true s ≡ returns none t → map_from (suc fuel) pt a last pa perm s ≡ returns false t
  unfolding map_from
  round_full e = rw (e, ◌>>=◌) refl

  module _ (at : ℕ) (e : walk pt a true s ≡ returns (some at) t) where
    abbrev stored : Kmem
    stored = record t { mem = update t.mem at (leaf_pte pa perm) }

    round_remaps : is_valid (t.mem at) ≡ true → map_from (suc fuel) pt a last pa perm s ≡ panics
    unfolding map_from
    round_remaps v = rw (e, ◌>>=◌, v) refl

    round_last :
        is_valid (t.mem at) ≡ false
        → (a == last) ≡ true
        → map_from (suc fuel) pt a last pa perm s ≡ returns true stored
    unfolding map_from
    round_last v l = rw (e, ◌>>=◌, v, l) refl

    round_next :
        is_valid (t.mem at) ≡ false
        → (a == last) ≡ false
        → map_from (suc fuel) pt a last pa perm s
          ≡ map_from fuel pt ((a + pgsize) % 2 ^ 64) last ((pa + pgsize) % 2 ^ 64) perm stored
    unfolding map_from
    round_next v l = rw (e, ◌>>=◌, v, l) refl

-- Whether two addresses are of one page.
pub page_ne : (a va : ℕ) → a % pgsize ≡ 0 → (va < a) ⊎ (a + pgsize ≤ va) → vpn 0 a ≢ vpn 0 va
page_ne a va al out e = ground (arith, vpn_page a, vpn_page va, e)

pub page_eq : (a va : ℕ) → a % pgsize ≡ 0 → a ≤ va → va < a + pgsize → vpn 0 a ≡ vpn 0 va
page_eq a va al lo hi = omega (arith, vpn_page a, vpn_page va)

-- No page of the range has a valid entry.
abbrev pub Unmapped : Kmem → ℕ → ℕ → ℕ → Type 0
Unmapped s pt a n = (va : ℕ) → a ≤ va → va < a + n * pgsize → is_valid (lookup pt s va) ≡ false

module _ (kernel_end phystop : ℕ) where
  -- The `n` pages from `a` on are mapped to the pages from `pa` on, or no page is free; no other
  -- address changes.
  pub record Mapped (s : Kmem) (pt a n pa perm : ℕ) (g : Outcome Bool) : Type 0 where
    pub ok : Bool
    pub state : Kmem
    pub owner' : ℕ → Label
    pub free : List ℕ
    pub runs : g ≡ returns ok state
    pub space : IsSpace kernel_end phystop state pt owner' free
    pub full : ok ≡ false → free ≡ []
    pub inside :
        ok ≡ true
        → (va : ℕ) → a ≤ va
        → va < a + n * pgsize
        → lookup pt state va ≡ leaf_pte (pa + (va - a) / pgsize * pgsize) perm
    pub outside :
        (va : ℕ)
        → va < maxva
        → (va < a) ⊎ (a + n * pgsize ≤ va)
        → lookup pt state va ≡ lookup pt s va

module _ (kernel_end phystop : ℕ) (small : phystop ≤ 2 ^ 56) where
  -- The walk has found no free page.
  full-Mapped :
      (fuel k pt a last pa perm : ℕ) (s : Kmem) (w : Walked kernel_end phystop small s pt a)
      → w.result ≡ none
      → Mapped kernel_end phystop s pt a k pa perm (map_from (suc fuel) pt a last pa perm s)
  full-Mapped fuel k pt a last pa perm s w e = record {
    ok = false;
    state = w.state;
    owner' = w.owner';
    free = w.free;
    runs = round_full fuel pt a last pa perm s w.state (w.runs ∙ ap (λ o. returns o w.state) e);
    space = w.space;
    full = λ f. w.full e;
    inside = λ t. cc t;
    outside = λ va low out. w.same va low;
  }

  module _ (pt a pa perm at : ℕ) (s : Kmem) (w : Walked kernel_end phystop small s pt a)
      (e : w.result ≡ some at) (al : a % pgsize ≡ 0) (low : a + pgsize ≤ maxva)
      (free : is_valid (lookup pt s a) ≡ false) where
    abbrev mapped : Kmem
    mapped = record (w.state) { mem = update w.state.mem at (leaf_pte pa perm) }

    runs_to : walk pt a true s ≡ returns (some at) w.state
    runs_to = w.runs ∙ ap (λ o. returns o w.state) e

    invalid_there : is_valid (w.state.mem at) ≡ false
    invalid_there =
        ap is_valid
          (sym (entry-Leads w.state.mem 2 pt a at (w.leads at e)) ∙ w.same a (omega arith))
        ∙ free

    after_store :
        IsSpace kernel_end phystop mapped pt w.owner' w.free
        × (lookup pt mapped a ≡ leaf_pte pa perm)
        × ((va' : ℕ)
            → va' < maxva
            → vpn 0 a ≢ vpn 0 va'
            → lookup pt mapped va' ≡ lookup pt w.state va')
    after_store =
        slot_store kernel_end phystop small w.state pt a at (leaf_pte pa perm) w.owner' w.free
          w.space (omega arith) (w.leads at e)

    -- The page itself, and any other address.
    there : (va : ℕ) → a ≤ va → va < a + pgsize → lookup pt mapped va ≡ leaf_pte pa perm
    there va lo hi =
        sym (entry_same_page mapped.mem 2 pt a va (omega arith) (page_eq a va al lo hi))
        ∙ after_store.1

    elsewhere :
        (va : ℕ) → va < maxva → (va < a) ⊎ (a + pgsize ≤ va) → lookup pt mapped va ≡ lookup pt s va
    elsewhere va inside out = after_store.2 va inside (page_ne a va al out) ∙ w.same va inside

    last-Mapped :
        (fuel last : ℕ)
        → a ≡ last
        → Mapped kernel_end phystop s pt a 1 pa perm (map_from (suc fuel) pt a last pa perm s)
    last-Mapped fuel last here = record {
      ok = true;
      state = mapped;
      owner' = w.owner';
      free = w.free;
      runs =
          round_last fuel pt a last pa perm s w.state at runs_to invalid_there
            (ground (arith, here));
      space = after_store.0;
      full = λ f. cc f;
      inside = λ t va lo hi.
          let first : pa + (va - a) / pgsize * pgsize ≡ pa = omega arith in
          there va lo (omega arith) ∙ ap (λ (q : ℕ). leaf_pte q perm) (sym first);
      outside = λ va inside out. elsewhere va inside (ground arith);
    }

    next-Mapped :
        (fuel k last : ℕ)
        → a < last
        → a + pgsize < 2 ^ 64
        → pa + pgsize < 2 ^ 64
        → Mapped kernel_end phystop mapped pt
            (a + pgsize)
            k
            (pa + pgsize)
            perm
            (map_from fuel pt (a + pgsize) last (pa + pgsize) perm mapped)
        → Mapped kernel_end phystop s pt a (suc k) pa perm (map_from (suc fuel) pt a last pa perm s)
    next-Mapped fuel k last more nowrap nowrap' r =
        let a' : (a + pgsize) % 2 ^ 64 ≡ a + pgsize = omega arith in
        let pa' : (pa + pgsize) % 2 ^ 64 ≡ pa + pgsize = omega arith in
        record {
          ok = r.ok;
          state = r.state;
          owner' = r.owner';
          free = r.free;
          runs =
              round_next fuel pt a last pa perm s w.state at runs_to invalid_there
                (ground (arith, more))
              ∙ (ap₂ (λ (x y : ℕ). map_from fuel pt x last y perm mapped) a' pa' ∙ r.runs);
          space = r.space;
          full = r.full;
          inside = λ t va lo hi. elim (Bool-cases (ltb va (a + pgsize))) [
            | inl first ↦
                let page : pa + (va - a) / pgsize * pgsize ≡ pa = ground arith in
                r.outside va (ground arith) (inl (ground arith))
                ∙ (there va lo (ground arith) ∙ ap (λ (q : ℕ). leaf_pte q perm) (sym page))
            | inr later ↦
                let page : pa + pgsize + (va - (a + pgsize)) / pgsize * pgsize
                    ≡ pa + (va - a) / pgsize * pgsize =
                  ground arith in
                r.inside t va (ground arith) (ground arith) ∙ ap (λ (q : ℕ). leaf_pte q perm) page
          ];
          outside = λ va inside out.
              r.outside va inside (ground arith) ∙ elsewhere va inside (ground arith);
        }

  option_cases : {A : Type 0} (o : Option A) → (o ≡ none) ⊎ ((x : A) × (o ≡ some x))
  option_cases none = inl refl
  option_cases (some x) = inr (x, refl)

  pub map_from-Mapped :
      (k pt a last pa perm : ℕ) (s : Kmem) (owner : ℕ → Label) (xs : List ℕ)
      → IsSpace kernel_end phystop s pt owner xs
      → a % pgsize ≡ 0
      → last ≡ a + k * pgsize
      → a + suc k * pgsize ≤ maxva
      → pa + suc k * pgsize ≤ 2 ^ 64
      → Unmapped s pt a (suc k)
      → Mapped kernel_end phystop s pt a (suc k) pa perm (map_from (suc k) pt a last pa perm s)
  map_from-Mapped zero pt a last pa perm s owner xs h al at_end low room free =
      let w = walk-Walked kernel_end phystop small s pt a owner xs h (omega arith) in
      elim (option_cases w.result) [
        | inl e ↦ full-Mapped 0 1 pt a last pa perm s w e
        | inr (at, e) ↦
            last-Mapped pt a pa perm at s w e al (omega arith) (free a (omega arith) (omega arith))
              0 last (omega arith)
      ]
  map_from-Mapped (suc k) pt a last pa perm s owner xs h al at_end low room free =
      let w = walk-Walked kernel_end phystop small s pt a owner xs h (omega arith) in
      elim (option_cases w.result) [
        | inl e ↦ full-Mapped (suc k) (suc (suc k)) pt a last pa perm s w e
        | inr (at, e) ↦
            let low' : a + pgsize ≤ maxva = omega arith in
            let here = free a (omega arith) (omega arith) in
            let away = elsewhere pt a pa perm at s w e al low' here in
            next-Mapped pt a pa perm at s w e al low' here (suc k) (suc k) last (omega arith)
              (omega arith) (omega arith)
              (map_from-Mapped k pt (a + pgsize) last (pa + pgsize) perm
                (mapped pt a pa perm at s w e al low' here) w.owner' w.free
                (after_store pt a pa perm at s w e al low' here).0 (omega arith) (omega arith)
                (omega arith) (omega arith)
                (λ va lo hi.
                  ap is_valid (away va (omega arith) (inr lo))
                  ∙ free va (omega arith) (omega arith)))
      ]
