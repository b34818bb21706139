-- ===== src/Mm/Vm/Walk.antt =====
-- What walk, walk with allocation and walkaddr (mm/vm.c) return.
use re_xvapor.Base.{
  ℕ, zero, suc, ◌^◌, ◌≤◌, ◌<◌, ◌≡◌, ◌≢◌, refl, sym, ◌∙◌, ap, subst, Bool, true, false, Bool-cases,
  Option, none, some, List, [], ◌∷◌, update, update_self, ◌==◌, arith, inl, inr,
}
use re_xvapor.Mm.Kalloc.{Kmem, kalloc}
use re_xvapor.Mm.Kalloc.Laws.{kalloc-null, kalloc-failed}
use re_xvapor.Mm.Pte.{is_valid, pte_to_pa, px}
use re_xvapor.Mm.Pte.Laws.{px-lt, table_pte-is_valid, pte_to_pa-table_pte}
use re_xvapor.Mm.Vm.{returns, slot, walk_from}
use re_xvapor.Mm.Vm.Table.{entry, Label, label, child_label, entry-valid, entry-invalid}
use re_xvapor.Mm.Vm.Write.{Leads}
use re_xvapor.Mm.Vm.Grow.{IsVm, Grows, linked_state, added-IsVm}

-- One round of walk_from.
module _ (level pt va : ℕ) (s : Kmem) where
  walk_down :
      (create : Bool)
      → is_valid (s.mem (slot pt (suc level) va)) ≡ true
      → walk_from (suc level) pt va create s
        ≡ walk_from level (pte_to_pa (s.mem (slot pt (suc level) va))) va create s
  unfolding walk_from
  walk_down create e = rw e refl

  walk_missing :
      is_valid (s.mem (slot pt (suc level) va)) ≡ false
      → walk_from (suc level) pt va false s ≡ returns none s
  unfolding walk_from
  walk_missing e = rw e refl

  walk_full :
      is_valid (s.mem (slot pt (suc level) va)) ≡ false
      → (kalloc s).0 ≡ 0
      → walk_from (suc level) pt va true s ≡ returns none (kalloc s).1
  unfolding walk_from
  walk_full e f = rw (e, f) refl

  walk_added :
      (x : ℕ)
      → is_valid (s.mem (slot pt (suc level) va)) ≡ false
      → (kalloc s).0 ≡ x
      → x ≢ 0
      → walk_from (suc level) pt va true s
        ≡ walk_from level x va true (linked_state (kalloc s).1 (slot pt (suc level) va) x)
  unfolding walk_from
  walk_added x e f ne = let more : (x == 0) ≡ false = ground arith in rw (e, f, more) refl

-- What a walk finds, without allocation.
pub data Found (mem : ℕ → ℕ) (level pt va : ℕ) : Option ℕ → Type 0 where
  leads_to : (a : ℕ) → Leads mem level pt va a → Found mem level pt va (some a)
  missing : entry level pt va mem ≡ 0 → Found mem level pt va none

pub walk_from-Found :
    (level pt va : ℕ) (s : Kmem)
    → (o : Option ℕ) × (walk_from level pt va false s ≡ returns o s) × Found s.mem level pt va o
unfolding walk_from
walk_from-Found zero pt va s = (some (slot pt 0 va), refl, leads_to (slot pt 0 va) refl)
walk_from-Found (suc level) pt va s =
    let a = slot pt (suc level) va in
    elim (Bool-cases (is_valid (s.mem a))) [
      | inl valid ↦
          let (o, e, f) = walk_from-Found level (pte_to_pa (s.mem a)) va s in
          (o, walk_down level pt va s false valid ∙ e, deeper o valid f)
      | inr invalid ↦ (
        none,
        walk_missing level pt va s invalid,
        missing (entry-invalid s.mem level pt va invalid),
      )
    ]
  where
    deeper :
        (o : Option ℕ)
        → is_valid (s.mem (slot pt (suc level) va)) ≡ true
        → Found s.mem level (pte_to_pa (s.mem (slot pt (suc level) va))) va o
        → Found s.mem (suc level) pt va o
    deeper o valid (leads_to a l) = leads_to a (valid, l)
    deeper o valid (missing e) = missing (entry-valid s.mem level pt va valid ∙ e)

module _ (kernel_end phystop : ℕ) (small : phystop ≤ 2 ^ 56) where
  -- A walk with allocation: the slot, or NULL when no page is free; no entry changes.
  pub record Reached (level pt va : ℕ) (s : Kmem) (owner : ℕ → Label) : Type 0 where
    pub result : Option ℕ
    pub state : Kmem
    pub owner' : ℕ → Label
    pub free : List ℕ
    pub runs : walk_from level pt va true s ≡ returns result state
    pub vm : IsVm kernel_end phystop state owner' free
    pub grows : Grows s state owner owner'
    pub full : result ≡ none → free ≡ []
    pub leads : (a : ℕ) → result ≡ some a → Leads state.mem level pt va a

  Grows-self : (s : Kmem) (owner : ℕ → Label) → Grows s s owner owner
  Grows-self s owner = record {
    labels = λ p y e. e;
    kept = λ p i y e li v. refl;
    entries = λ level p va low e. refl;
  }

  pub Grows-trans :
      (s t u : Kmem) (o o' o'' : ℕ → Label) → Grows s t o o' → Grows t u o' o'' → Grows s u o o''
  Grows-trans s t u o o' o'' g g' = record {
    labels = λ p y e. g'.labels p y (g.labels p y e);
    kept = λ p i y e li v.
        let first = g.kept p i y e li v in
        g'.kept p i y (g.labels p y e) li (ap is_valid first ∙ v) ∙ first;
    entries =
        λ level p va low e. g'.entries level p va low (g.labels p _ e) ∙ g.entries level p va low e;
  }

  -- From the walk below a valid word to the walk through it.
  through :
      (level pt va : ℕ) (s t : Kmem) (a : ℕ)
      → is_valid (s.mem (slot pt (suc level) va)) ≡ true
      → t.mem (slot pt (suc level) va) ≡ s.mem (slot pt (suc level) va)
      → Leads t.mem level (pte_to_pa (s.mem (slot pt (suc level) va))) va a
      → Leads t.mem (suc level) pt va a
  through level pt va s t a valid kept l = (
    ap is_valid kept ∙ valid,
    subst (λ (pte : ℕ). Leads t.mem level (pte_to_pa pte) va a) (sym kept) l,
  )

  full-Reached :
      (level pt va : ℕ) (s : Kmem) (owner : ℕ → Label)
      → IsVm kernel_end phystop s owner []
      → is_valid (s.mem (slot pt (suc level) va)) ≡ false
      → Reached (suc level) pt va s owner
  full-Reached level pt va s owner h invalid =
      let null = (kalloc-null kernel_end phystop s [] h.free).1 refl in
      record {
        result = none;
        state = (kalloc s).1;
        owner' = owner;
        free = [];
        runs = walk_full level pt va s invalid null;
        vm = rw (kalloc-failed s null) (record {
          table = h.table;
          free = record { chain = h.free.chain; pages = tt; distinct = tt };
          apart = tt;
        });
        grows = rw (kalloc-failed s null) (record {
          labels = λ p y e. e;
          kept = λ p i y e li v. refl;
          entries = λ level p va low e. refl;
        });
        full = λ e. refl;
        leads = λ a e. cc e;
      }

  below-Reached :
      (level pt va : ℕ) (s : Kmem) (owner : ℕ → Label)
      → owner pt ≡ label (suc level) va
      → is_valid (s.mem (slot pt (suc level) va)) ≡ true
      → Reached level (pte_to_pa (s.mem (slot pt (suc level) va))) va s owner
      → Reached (suc level) pt va s owner
  below-Reached level pt va s owner mine valid r = record {
    result = r.result;
    state = r.state;
    owner' = r.owner';
    free = r.free;
    runs = walk_down level pt va s true valid ∙ r.runs;
    vm = r.vm;
    grows = r.grows;
    full = r.full;
    leads = λ a e.
        through level pt va s r.state a valid
          (r.grows.kept pt (px (suc level) va) _ mine (px-lt (suc level) va) valid) (r.leads a e);
  }

  added-Reached :
      (level pt va x : ℕ) (s : Kmem) (owner : ℕ → Label) (xs : List ℕ)
      → IsVm kernel_end phystop s owner (x ∷ xs)
      → level < 2
      → owner pt ≡ label (suc level) va
      → is_valid (s.mem (slot pt (suc level) va)) ≡ false
      → Reached level x va
          (linked_state (kalloc s).1 (slot pt (suc level) va) x)
          (update owner x (label level va))
      → Reached (suc level) pt va s owner
  added-Reached level pt va x s owner xs h low mine invalid r =
      let at = slot pt (suc level) va in
      let (got, vm, grown, word) =
        added-IsVm kernel_end phystop small s owner pt level va x xs h low mine invalid in
      let page = h.free.pages.0 in
      let valid : is_valid ((linked_state (kalloc s).1 at x).mem at) ≡ true =
        ap is_valid word ∙ table_pte-is_valid x in
      let child : pte_to_pa ((linked_state (kalloc s).1 at x).mem at) ≡ x =
        ap pte_to_pa word ∙ pte_to_pa-table_pte x page.0 (omega (arith, page.2)) in
      let kept =
        r.grows.kept pt (px (suc level) va) _ (grown.labels pt _ mine) (px-lt (suc level) va)
          valid in
      record {
        result = r.result;
        state = r.state;
        owner' = r.owner';
        free = r.free;
        runs =
            walk_added level pt va s x invalid got (λ e. h.free.chain.1 (h.free.chain.0 ∙ e))
            ∙ r.runs;
        vm = r.vm;
        grows = Grows-trans s _ r.state owner _ r.owner' grown r.grows;
        full = r.full;
        leads = λ a e.
            through level pt va (linked_state (kalloc s).1 at x) r.state a valid kept
              (subst (λ (q : ℕ). Leads r.state.mem level q va a) (sym child) (r.leads a e));
      }

  pub walk_from-Reached :
      (level pt va : ℕ) (s : Kmem) (owner : ℕ → Label) (xs : List ℕ)
      → IsVm kernel_end phystop s owner xs
      → level < 3
      → owner pt ≡ label level va
      → Reached level pt va s owner
  unfolding walk_from
  walk_from-Reached zero pt va s owner xs h low mine = record {
    result = some (slot pt 0 va);
    state = s;
    owner' = owner;
    free = xs;
    runs = refl;
    vm = h;
    grows = Grows-self s owner;
    full = λ e. cc e;
    leads = λ a e. cc e;
  }
  walk_from-Reached (suc level) pt va s owner xs h low mine =
      elim (Bool-cases (is_valid (s.mem (slot pt (suc level) va)))) [
        | inl valid ↦
            let below = child_label s.mem owner pt level va h.table (omega arith) mine valid in
            below-Reached level pt va s owner mine valid (
              walk_from-Reached level (pte_to_pa (s.mem (slot pt (suc level) va))) va s owner xs h
                (omega arith) below)
        | inr invalid ↦
            extended level pt va s owner xs h (omega arith) mine invalid (walk_from-Reached level)
      ]
    where
      extended :
          (level pt va : ℕ) (s : Kmem) (owner : ℕ → Label) (xs : List ℕ)
          → IsVm kernel_end phystop s owner xs
          → level < 2
          → owner pt ≡ label (suc level) va
          → is_valid (s.mem (slot pt (suc level) va)) ≡ false
          → ((pt va : ℕ) (s : Kmem) (owner : ℕ → Label) (xs : List ℕ)
              → IsVm kernel_end phystop s owner xs
              → level < 3
              → owner pt ≡ label level va
              → Reached level pt va s owner)
          → Reached (suc level) pt va s owner
      extended level pt va s owner [] h low mine invalid walk_below =
          full-Reached level pt va s owner h invalid
      extended level pt va s owner (x ∷ xs) h low mine invalid walk_below =
          let (got, vm, grown, word) =
            added-IsVm kernel_end phystop small s owner pt level va x xs h low mine invalid in
          added-Reached level pt va x s owner xs h low mine invalid (
            walk_below x va (linked_state (kalloc s).1 (slot pt (suc level) va) x)
              (update owner x (label level va)) xs vm (omega arith)
              (update_self owner x (label level va)))
