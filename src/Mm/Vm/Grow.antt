-- ===== src/Mm/Vm/Grow.antt =====
-- A new table page (the kalloc in walk of mm/vm.c): the tree gets a page and no entry changes.
use re_xvapor.Base.{
  ℕ, suc, ◌+◌, ◌*◌, ◌%◌, ◌^◌, ◌≤◌, ◌<◌, ◌≡◌, ◌≢◌, sym, ◌∙◌, ap, true, false, none, some, List, [],
  ◌∷◌, All, NotIn, update, update_self, update_ne, arith, ◌⊎◌,
}
use re_xvapor.Mm.Kalloc.{Kmem, pgsize, memset_page, kalloc}
use re_xvapor.Mm.Kalloc.Chain.{IsFree, IsPage, Chain-memset_page, Chain-update, aligned}
use re_xvapor.Mm.Kalloc.Laws.{kalloc_takes_head}
use re_xvapor.Mm.Pte.{is_valid, px, table_pte}
use re_xvapor.Mm.Pte.Laws.{px-lt}
use re_xvapor.Mm.Vm.{slot}
use re_xvapor.Mm.Vm.Table.{entry, Label, label, IsTable}
use re_xvapor.Mm.Vm.Linked.{Added, kept_label, kept_added, IsTable-added, entries_added}

-- The tables stand in labelled pages, none of them free.
module _ (kernel_end phystop : ℕ) where
  pub record IsVm (s : Kmem) (owner : ℕ → Label) (xs : List ℕ) : Type 0 where
    pub table : IsTable s.mem owner
    pub free : IsFree kernel_end phystop s xs
    pub apart : All (λ q. owner q ≡ none) xs

-- The later state keeps the labels, the valid words of labelled pages and the entries from them.
pub record Grows (s t : Kmem) (owner owner' : ℕ → Label) : Type 0 where
  pub labels : (p : ℕ) (y : ℕ × ℕ) → owner p ≡ some y → owner' p ≡ some y
  pub kept :
      (p i : ℕ) (y : ℕ × ℕ)
      → owner p ≡ some y
      → i < 512
      → is_valid (s.mem (p + 8 * i)) ≡ true
      → t.mem (p + 8 * i) ≡ s.mem (p + 8 * i)
  pub entries :
      (level p va : ℕ)
      → level < 3
      → owner p ≡ label level va
      → entry level p va t.mem ≡ entry level p va s.mem

-- The state behind `*pte = PA2PTE(x) | PTE_V`.
abbrev pub linked_state : Kmem → ℕ → ℕ → Kmem
linked_state t at x = record t { mem = update (memset_page t.mem x 0) at (table_pte x) }

All_none-update :
    (owner : ℕ → Label) (x : ℕ) (y : Label) (xs : List ℕ)
    → NotIn x xs
    → All (λ q. owner q ≡ none) xs
    → All (λ q. update owner x y q ≡ none) xs
All_none-update owner x y [] out h = tt
All_none-update owner x y (q ∷ xs) out h =
    (update_ne owner x q y out.0 ∙ h.0, All_none-update owner x y xs out.1 h.1)

module _ (kernel_end phystop : ℕ) (small : phystop ≤ 2 ^ 56) where
  pub at_NotIn :
      (p i : ℕ) (y : ℕ × ℕ) (mem : ℕ → ℕ) (owner : ℕ → Label) (xs : List ℕ)
      → IsTable mem owner
      → owner p ≡ some y
      → i < 512
      → All (IsPage kernel_end phystop) xs
      → All (λ q. owner q ≡ none) xs
      → NotIn (p + 8 * i) xs
  at_NotIn p i y mem owner [] h e li pages free = tt
  at_NotIn p i y mem owner (q ∷ xs) h e li pages free = (
    (λ same. clash (sym free.0 ∙ (ap owner (omega (arith, same, pages.0.0, h.aligned p y e)) ∙ e))),
    at_NotIn p i y mem owner xs h e li pages.1 free.1,
  )
    where
      clash : none ≡ some y → ⊥
      clash e = cc e

  -- A table page from the free list: everything stays in order, and no entry changes.
  pub added-IsVm :
      (s : Kmem) (owner : ℕ → Label) (pt level va x : ℕ) (xs : List ℕ)
      → IsVm kernel_end phystop s owner (x ∷ xs)
      → level < 2
      → owner pt ≡ label (suc level) va
      → is_valid (s.mem (slot pt (suc level) va)) ≡ false
      → let t = linked_state (kalloc s).1 (slot pt (suc level) va) x in
        let owner' = update owner x (label level va) in
        ((kalloc s).0 ≡ x)
        × IsVm kernel_end phystop t owner' xs
        × Grows s t owner owner'
        × (t.mem (slot pt (suc level) va) ≡ table_pte x)
  added-IsVm s owner pt level va x xs h low mine missing =
      let at = slot pt (suc level) va in
      let (got, free, zero_in, same_out) = kalloc_takes_head kernel_end phystop s x xs h.free in
      let t = (kalloc s).1 in
      let page = h.free.pages.0 in
      let away : NotIn at (x ∷ xs) =
        at_NotIn pt (px (suc level) va) _ s.mem owner (x ∷ xs) h.table mine (px-lt (suc level) va)
          h.free.pages h.apart in
      let out : (at < x) ⊎ (x + pgsize ≤ at) =
        outside_page pt x (px (suc level) va) (h.table.aligned pt _ mine) page.0
          (px-lt (suc level) va) (λ e. clash (sym h.apart.0 ∙ (ap owner e ∙ mine))) in
      let after = added_mem s.mem t.mem at x out zero_in same_out in
      (
        got,
        record {
          table =
              IsTable-added s.mem _ owner pt x level va h.table low mine missing page.0
                (omega (arith, page.2)) h.apart.0 after;
          free = record {
            chain = Chain-update _ at (table_pte x) t.freelist xs away.1 (
                Chain-memset_page t.mem x 0 t.freelist xs page.0
                  (aligned kernel_end phystop xs free.pages) h.free.distinct.0 free.chain);
            pages = free.pages;
            distinct = free.distinct;
          };
          apart = All_none-update owner x (label level va) xs h.free.distinct.0 h.apart.1;
        },
        record {
          labels =
              kept_label s.mem _ owner pt x level va h.table low mine missing page.0
                (omega (arith, page.2)) h.apart.0 after;
          kept =
              kept_added s.mem _ owner pt x level va h.table low mine missing page.0
                (omega (arith, page.2)) h.apart.0 after;
          entries =
              entries_added s.mem _ owner pt x level va h.table low mine missing page.0
                (omega (arith, page.2)) h.apart.0 after;
        },
        update_self (memset_page t.mem x 0) at (table_pte x),
      )
    where
      clash : none ≡ label (suc level) va → ⊥
      clash e = cc e

      outside_page :
          (p x i : ℕ)
          → p % 4096 ≡ 0
          → x % 4096 ≡ 0
          → i < 512
          → x ≢ p
          → (p + 8 * i < x) ⊎ (x + pgsize ≤ p + 8 * i)
      outside_page p x i a a' li ne = ground (arith, ne)

      added_mem :
          (mem m : ℕ → ℕ) (at x : ℕ)
          → (at < x) ⊎ (x + pgsize ≤ at)
          → ((a : ℕ) → x ≤ a → a < x + pgsize → m a ≡ 0)
          → ((a : ℕ) → (a < x) ⊎ (x + pgsize ≤ a) → m a ≡ mem a)
          → Added mem (update (memset_page m x 0) at (table_pte x)) at x
      added_mem mem m at x out z same = record {
        linked = update_self (memset_page m x 0) at (table_pte x);
        zeroed = λ a lo hi.
            update_ne (memset_page m x 0) at a (table_pte x) (ground arith) ∙ ground arith;
        elsewhere = λ a ne o.
            update_ne (memset_page m x 0) at a (table_pte x) (λ e. ne (sym e))
            ∙ ground (arith, same a o);
      }
