-- ===== src/Mm/Vm/Write.antt =====
-- A store to the slot of a virtual address (mm/vm.c): it sets the entry of that page and of no other.
use re_xvapor.Base.{
  ℕ, zero, suc, ◌+◌, ◌*◌, ◌<◌, ◌≡◌, ◌≢◌, refl, sym, ◌∙◌, ap, subst, true, Bool-cases, some, update,
  update_eq, update_ne, arith, inl, inr,
}
use re_xvapor.Mm.Pte.{is_valid, pte_to_pa, px, vpn}
use re_xvapor.Mm.Pte.Laws.{px_lem, px-lt, px_same}
use re_xvapor.Mm.Vm.{slot}
use re_xvapor.Mm.Vm.Table.{entry, Label, label, IsTable, child_label, same_word, entry-valid}

-- From a page of `level` the tables lead to the slot `a` for `va`.
abbrev pub Leads : (ℕ → ℕ) → ℕ → ℕ → ℕ → ℕ → Type 0
Leads mem zero p va a = a ≡ slot p 0 va
Leads mem (suc level) p va a =
    (is_valid (mem (slot p (suc level) va)) ≡ true)
    × Leads mem level (pte_to_pa (mem (slot p (suc level) va))) va a

-- Addresses of one page have one entry.
pub entry_same_page :
    (mem : ℕ → ℕ) (level p va va' : ℕ)
    → level < 3
    → vpn 0 va ≡ vpn 0 va'
    → entry level p va mem ≡ entry level p va' mem
unfolding entry
entry_same_page mem zero p va va' low e = rw (px_same 0 va va' low e) refl
entry_same_page mem (suc level) p va va' low e =
    rw (px_same (suc level) va va' low e, entry_same_page mem level _ va va' (omega arith) e) refl

pub entry-Leads :
    (mem : ℕ → ℕ) (level p va a : ℕ) → Leads mem level p va a → entry level p va mem ≡ mem a
unfolding entry
entry-Leads mem zero p va a l = ap mem (sym l)
entry-Leads mem (suc level) p va a (valid, l) =
    entry-valid mem level p va valid ∙ entry-Leads mem level _ va a l

module _ (mem : ℕ → ℕ) (owner : ℕ → Label) (h : IsTable mem owner) where
  pub Leads-leaf :
      (level p va a : ℕ)
      → level < 3
      → owner p ≡ label level va
      → Leads mem level p va a
      → (q : ℕ) × (owner q ≡ label 0 va) × (a ≡ slot q 0 va)
  Leads-leaf zero p va a low e l = (p, e, l)
  Leads-leaf (suc level) p va a low e (valid, l) =
      Leads-leaf level (pte_to_pa (mem (slot p (suc level) va))) va a (omega arith)
        (child_label mem owner p level va h (omega arith) e valid) l

  -- A word of a page above the leaves is no slot.
  above_slot :
      (level x p q i va : ℕ)
      → owner p ≡ some (suc level, x)
      → owner q ≡ label 0 va
      → i < 512
      → slot q 0 va ≢ p + 8 * i
  above_slot level x p q i va e e' low same =
      let one = (same_word mem owner q p (px 0 va) i _ _ h e' e (px-lt 0 va) low same).0 in
      levels (sym e' ∙ (ap owner one ∙ e))
    where
      levels : label 0 va ≡ some (suc level, x) → ⊥
      levels e = cc e

  module _ (q va a v : ℕ) (leaf : owner q ≡ label 0 va) (at : a ≡ slot q 0 va) where
    above_ne :
        (level p va' : ℕ)
        → owner p ≡ label (suc level) va'
        → update mem a v (slot p (suc level) va') ≡ mem (slot p (suc level) va')
    above_ne level p va' e = update_ne mem a (slot p (suc level) va') v (λ same.
        above_slot level _ p q (px (suc level) va') va e leaf (px-lt (suc level) va')
          (sym at ∙ same))

    pub IsTable-store : IsTable (update mem a v) owner
    IsTable-store = record {
      aligned = h.aligned;
      child = λ p level x i e low.
          let same : update mem a v (p + 8 * i) ≡ mem (p + 8 * i) =
            update_ne mem a (p + 8 * i) v
              (λ eq. above_slot level x p q i va e leaf low (sym at ∙ eq)) in
          rw same (h.child p level x i e low);
    }

    leaf_other :
        (p va' : ℕ)
        → owner p ≡ label 0 va'
        → vpn 0 va ≢ vpn 0 va'
        → update mem a v (slot p 0 va') ≡ mem (slot p 0 va')
    leaf_other p va' e ne = update_ne mem a (slot p 0 va') v (λ same.
        let (one, index) =
          same_word mem owner q p (px 0 va) (px 0 va') _ _ h leaf e (px-lt 0 va) (px-lt 0 va')
            (sym at ∙ same) in
        ne (pages (sym leaf ∙ (ap owner one ∙ e)) index))
      where
        prefix : label 0 va ≡ label 0 va' → vpn 1 va ≡ vpn 1 va'
        prefix e = cc e

        pages : label 0 va ≡ label 0 va' → px 0 va ≡ px 0 va' → vpn 0 va ≡ vpn 0 va'
        pages e i =
            omega (arith, px_lem 0 va (omega arith), px_lem 0 va' (omega arith), prefix e, i)

    -- Other pages keep their entries.
    pub entry-store_other :
        (level p va' : ℕ)
        → level < 3
        → owner p ≡ label level va'
        → vpn 0 va ≢ vpn 0 va'
        → entry level p va' (update mem a v) ≡ entry level p va' mem
    unfolding entry
    entry-store_other zero p va' low e ne = leaf_other p va' e ne
    entry-store_other (suc level) p va' low e ne =
        let same = above_ne level p va' e in
        elim (Bool-cases (is_valid (mem (slot p (suc level) va')))) [
          | inl valid ↦
              let below = child_label mem owner p level va' h (omega arith) e valid in
              rw (same, valid) (entry-store_other level _ va' (omega arith) below ne)
          | inr no_table ↦ rw (same, no_table) refl
        ]

    Leads-store :
        (level p : ℕ)
        → level < 3
        → owner p ≡ label level va
        → Leads mem level p va a
        → Leads (update mem a v) level p va a
    Leads-store zero p low e l = l
    Leads-store (suc level) p low e (valid, l) =
        let same = above_ne level p va e in
        let below = child_label mem owner p level va h (omega arith) e valid in
        (
          ap is_valid same ∙ valid,
          subst (λ (pte : ℕ). Leads (update mem a v) level (pte_to_pa pte) va a) (sym same)
              (Leads-store level _ (omega arith) below l),
        )

-- The entries from a page on after a store to the slot of `va`.
pub entry-store :
    (mem : ℕ → ℕ) (owner : ℕ → Label) (level p va a v : ℕ)
    → IsTable mem owner
    → level < 3
    → owner p ≡ label level va
    → Leads mem level p va a
    → (IsTable (update mem a v) owner)
      × (entry level p va (update mem a v) ≡ v)
      × ((root va' : ℕ)
          → owner root ≡ label 2 va'
          → vpn 0 va ≢ vpn 0 va'
          → entry 2 root va' (update mem a v) ≡ entry 2 root va' mem)
entry-store mem owner level p va a v h low e l =
    let (q, leaf, at) = Leads-leaf mem owner h level p va a low e l in
    let kept = IsTable-store mem owner h q va a v leaf at in
    (
      kept,
      entry-Leads (update mem a v) level p va a
            (Leads-store mem owner h q va a v leaf at level p low e l)
          ∙ update_eq mem a a v refl,
      λ root va' e' ne.
          entry-store_other mem owner h q va a v leaf at 2 root va' (omega arith) e' ne,
    )
