-- ===== src/Mm/Vm/User/Frame.antt =====
-- Writes to pages that hold no table (kfree in mm/vm.c): the page tables stay as they are.
use re_xvapor.Base.{
  ℕ, zero, suc, ◌+◌, ◌*◌, ◌^◌, ◌≤◌, ◌<◌, ◌≡◌, ◌≢◌, refl, sym, ◌∙◌, ap, subst, Bool-cases, none,
  some, List, ◌∷◌, NotIn, arith, inl, inr,
}
use re_xvapor.Mm.Kalloc.{Kmem, kfree}
use re_xvapor.Mm.Kalloc.Chain.{IsPage}
use re_xvapor.Mm.Kalloc.Laws.{kfree_adds_head, kfree-outside}
use re_xvapor.Mm.Pte.{is_valid, pte_to_pa, px, maxva}
use re_xvapor.Mm.Pte.Laws.{px-lt}
use re_xvapor.Mm.Vm.{slot}
use re_xvapor.Mm.Vm.Table.{entry, Label, label, IsTable, child_label}
use re_xvapor.Mm.Vm.Write.{Leads}
use re_xvapor.Mm.Vm.Space.{lookup, IsSpace, root_label}

-- Memory `m` has the words of labelled pages that `mem` has.
module _ (mem m : ℕ → ℕ) (owner : ℕ → Label) (h : IsTable mem owner)
    (same : (p i : ℕ) (y : ℕ × ℕ)
      → owner p ≡ some y
      → i < 512
      → m (p + 8 * i) ≡ mem (p + 8 * i)) where
  IsTable-frame : IsTable m owner
  IsTable-frame = record {
    aligned = h.aligned;
    child = λ p level x i e low valid.
        let word = same p i _ e low in
        ap (λ (w : ℕ). owner (pte_to_pa w)) word
        ∙ h.child p level x i e low (ap is_valid (sym word) ∙ valid);
  }

  entry-frame :
      (level p va : ℕ)
      → level < 3
      → owner p ≡ label level va
      → entry level p va m ≡ entry level p va mem
  unfolding entry
  entry-frame zero p va low e = same p (px 0 va) _ e (px-lt 0 va)
  entry-frame (suc level) p va low e =
      let word = same p (px (suc level) va) _ e (px-lt (suc level) va) in
      elim (Bool-cases (is_valid (mem (slot p (suc level) va)))) [
        | inl valid ↦
            let below = child_label mem owner p level va h (omega arith) e valid in
            rw (word, valid) (entry-frame level _ va (omega arith) below)
        | inr no_table ↦ rw (word, no_table) refl
      ]

  Leads-frame :
      (level p va a : ℕ)
      → level < 3
      → owner p ≡ label level va
      → Leads mem level p va a
      → Leads m level p va a
  Leads-frame zero p va a low e l = l
  Leads-frame (suc level) p va a low e (valid, l) =
      let word = same p (px (suc level) va) _ e (px-lt (suc level) va) in
      let below = child_label mem owner p level va h (omega arith) e valid in
      (
        ap is_valid word ∙ valid,
        subst (λ (pte : ℕ). Leads m level (pte_to_pa pte) va a) (sym word)
            (Leads-frame level _ va a (omega arith) below l),
      )

module _ (kernel_end phystop : ℕ) (small : phystop ≤ 2 ^ 56) (pos : 0 < kernel_end) where
  -- A page with no table is freed: it is first in the free list, and the tables stay.
  pub record Freed (s : Kmem) (pt p : ℕ) (owner : ℕ → Label) (xs : List ℕ) : Type 0 where
    pub state : Kmem
    pub runs : kfree kernel_end phystop p s ≡ some state
    pub space : IsSpace kernel_end phystop state pt owner (p ∷ xs)
    pub same : (va : ℕ) → va < maxva → lookup pt state va ≡ lookup pt s va
    pub leads : (va a : ℕ) → va < maxva → Leads s.mem 2 pt va a → Leads state.mem 2 pt va a

  label_ne : (owner : ℕ → Label) (p q : ℕ) (y : ℕ × ℕ) → owner p ≡ none → owner q ≡ some y → p ≢ q
  label_ne owner p q y e e' same = clash (sym e ∙ (ap owner same ∙ e'))
    where
      clash : none ≡ some y → ⊥
      clash e = cc e

  pub kfree-Freed :
      (s : Kmem) (pt p : ℕ) (owner : ℕ → Label) (xs : List ℕ)
      → IsSpace kernel_end phystop s pt owner xs
      → IsPage kernel_end phystop p
      → NotIn p xs
      → owner p ≡ none
      → Freed s pt p owner xs
  kfree-Freed s pt p owner xs h page fresh apart =
      let (t, e, free) = kfree_adds_head kernel_end phystop pos p s xs page fresh h.vm.free in
      let words : (q i : ℕ) (y : ℕ × ℕ)
          → owner q ≡ some y
          → i < 512
          → t.mem (q + 8 * i) ≡ s.mem (q + 8 * i) =
        λ q i y e' low.
          kfree-outside kernel_end phystop p s t (q + 8 * i) e
            (ground (arith, page.0, h.vm.table.aligned q y e', label_ne owner p q y apart e')) in
      record {
        state = t;
        runs = e;
        space = record {
          vm = record {
            table = IsTable-frame s.mem t.mem owner h.vm.table words;
            free = free;
            apart = (apart, h.vm.apart);
          };
          root = h.root;
        };
        same = λ va low.
            entry-frame s.mem t.mem owner h.vm.table words 2 pt va (omega arith)
              (root_label kernel_end phystop small s pt va owner xs h low);
        leads = λ va a low l.
            Leads-frame s.mem t.mem owner h.vm.table words 2 pt va a (omega arith)
              (root_label kernel_end phystop small s pt va owner xs h low) l;
      }
