-- ===== src/Mm/Vm/Linked.antt =====
-- Memory behind a new table page (walk in mm/vm.c): the tables with one more page, which is zero.
use re_xvapor.Base.{
  ℕ, zero, suc, ◌+◌, ◌*◌, ◌%◌, ◌^◌, ◌≤◌, ◌<◌, ◌≡◌, ◌≢◌, refl, sym, ◌∙◌, ap, true, false, Bool-cases,
  none, some, update, update_self, update_ne, ◌==◌, ==→eq, ==→ne, arith, inl, inr, ◌⊎◌,
}
use mathlib.Core.Path.{ap₂}
use re_xvapor.Mm.Kalloc.{pgsize}
use re_xvapor.Mm.Pte.{is_valid, pte_to_pa, px, vpn, table_pte}
use re_xvapor.Mm.Pte.Laws.{px_lem, px-lt, table_pte-is_valid, pte_to_pa-table_pte}
use re_xvapor.Mm.Vm.{slot}
use re_xvapor.Mm.Vm.Table.{
  entry, Label, label, IsTable, child_label, same_word, entry-valid, entry-invalid,
}

-- Memory `m` behind the new page `x`, which is zero, and its entry at `at`.
pub record Added (mem m : ℕ → ℕ) (at x : ℕ) : Type 0 where
  pub linked : m at ≡ table_pte x
  pub zeroed : (a : ℕ) → x ≤ a → a < x + pgsize → m a ≡ 0
  pub elsewhere : (a : ℕ) → a ≢ at → (a < x) ⊎ (x + pgsize ≤ a) → m a ≡ mem a

-- All entries of a zero page are 0.
entry_zero :
    (m : ℕ → ℕ) (x level va : ℕ)
    → level < 3
    → ((a : ℕ) → x ≤ a → a < x + pgsize → m a ≡ 0)
    → entry level x va m ≡ 0
unfolding entry
entry_zero m x zero va low z = z (slot x 0 va) (omega arith) (omega (arith, px-lt 0 va))
entry_zero m x (suc level) va low z =
    let word : m (slot x (suc level) va) ≡ 0 =
      z (slot x (suc level) va) (omega arith) (omega (arith, px-lt (suc level) va)) in
    rw word refl

module _ (mem m : ℕ → ℕ) (owner : ℕ → Label) (pt x level va : ℕ) (h : IsTable mem owner)
    (low : level < 2) (mine : owner pt ≡ label (suc level) va)
    (missing : is_valid (mem (slot pt (suc level) va)) ≡ false) (page : x % 4096 ≡ 0)
    (bound : x < 2 ^ 56) (new : owner x ≡ none)
    (after : Added mem m (slot pt (suc level) va) x) where
  abbrev owner' : ℕ → Label
  owner' = update owner x (label level va)

  labelled_ne : (p : ℕ) (y : ℕ × ℕ) → owner p ≡ some y → x ≢ p
  labelled_ne p y e same = clash (sym new ∙ (ap owner same ∙ e))
    where
      clash : none ≡ some y → ⊥
      clash e = cc e

  pub kept_label : (p : ℕ) (y : ℕ × ℕ) → owner p ≡ some y → owner' p ≡ some y
  kept_label p y e = update_ne owner x p (label level va) (labelled_ne p y e) ∙ e

  outside :
      (p i : ℕ) (y : ℕ × ℕ)
      → owner p ≡ some y
      → i < 512
      → (p + 8 * i < x) ⊎ (x + pgsize ≤ p + 8 * i)
  outside p i y e li = ground (arith, h.aligned p y e, labelled_ne p y e)

  same_or_at :
      (p i : ℕ) (y : ℕ × ℕ)
      → owner p ≡ some y
      → i < 512
      → (p + 8 * i ≡ slot pt (suc level) va) ⊎ (m (p + 8 * i) ≡ mem (p + 8 * i))
  same_or_at p i y e li = elim (Bool-cases (p + 8 * i == slot pt (suc level) va)) [
    | inl eq ↦ inl (==→eq _ _ eq)
    | inr ne ↦ inr (after.elsewhere (p + 8 * i) (==→ne _ _ ne) (outside p i y e li))
  ]

  pub kept_added :
      (p i : ℕ) (y : ℕ × ℕ)
      → owner p ≡ some y
      → i < 512
      → is_valid (mem (p + 8 * i)) ≡ true
      → m (p + 8 * i) ≡ mem (p + 8 * i)
  kept_added p i y e li valid = elim (same_or_at p i y e li) [
    | inl eq ↦ cc (sym valid ∙ (ap (λ w. is_valid (mem w)) eq ∙ missing))
    | inr same ↦ same
  ]

  added_child : owner' (pte_to_pa (table_pte x)) ≡ label level va
  added_child = ap owner' (pte_to_pa-table_pte x page bound) ∙ update_self owner x (label level va)

  at_parts :
      (p i level' x' : ℕ)
      → owner p ≡ some (suc level', x')
      → i < 512
      → p + 8 * i ≡ slot pt (suc level) va
      → label level va ≡ some (level', x' * 512 + i)
  at_parts p i level' x' e li eq =
      let (one, index) =
        same_word mem owner p pt i (px (suc level) va) _ _ h e mine li (px-lt (suc level) va) eq in
      parts (sym e ∙ (ap owner one ∙ mine)) index
    where
      first : some (suc level', x') ≡ label (suc level) va → level' ≡ level
      first e = cc e

      second : some (suc level', x') ≡ label (suc level) va → x' ≡ vpn (suc (suc level)) va
      second e = cc e

      parts :
          some (suc level', x') ≡ label (suc level) va
          → i ≡ px (suc level) va
          → label level va ≡ some (level', x' * 512 + i)
      parts e index =
          let number : vpn (suc level) va ≡ x' * 512 + i =
            omega (arith, px_lem (suc level) va (omega arith), second e, index) in
          ap₂ (λ (l n : ℕ). some (l, n)) (sym (first e)) number

  old_label : (p : ℕ) (y : ℕ × ℕ) → x ≢ p → owner' p ≡ some y → owner p ≡ some y
  old_label p y ne e = sym (update_ne owner x p (label level va) ne) ∙ e

  child_after :
      (p level' x' i : ℕ)
      → owner' p ≡ some (suc level', x')
      → i < 512
      → is_valid (m (p + 8 * i)) ≡ true
      → owner' (pte_to_pa (m (p + 8 * i))) ≡ some (level', x' * 512 + i)
  child_after p level' x' i e li valid = elim (Bool-cases (x == p)) [
    | inl eq ↦
        let same = ==→eq x p eq in
        let word : m (p + 8 * i) ≡ 0 =
          after.zeroed (p + 8 * i) (omega (arith, same)) (omega (arith, same)) in
        cc (sym valid ∙ ap is_valid word)
    | inr ne ↦
        let old = old_label p (suc level', x') (==→ne x p ne) e in
        elim (same_or_at p i (suc level', x') old li) [
          | inl eq ↦
              ap (λ w. owner' (pte_to_pa (m w))) eq
              ∙ (ap (λ w. owner' (pte_to_pa w)) after.linked
                  ∙ (added_child ∙ at_parts p i level' x' old li eq))
          | inr same ↦
              ap (λ w. owner' (pte_to_pa w)) same
              ∙ kept_label _ _ (h.child p level' x' i old li (ap is_valid (sym same) ∙ valid))
        ]
  ]

  pub IsTable-added : IsTable m owner'
  IsTable-added = record {
    aligned = λ p y e. elim (Bool-cases (x == p)) [
      | inl eq ↦ omega (arith, ==→eq x p eq, page)
      | inr ne ↦ h.aligned p y (old_label p y (==→ne x p ne) e)
    ];
    child = child_after;
  }

  pub entries_added :
      (level' p va' : ℕ)
      → level' < 3
      → owner p ≡ label level' va'
      → entry level' p va' m ≡ entry level' p va' mem
  unfolding entry
  entries_added zero p va' low' e = elim (same_or_at p (px 0 va') _ e (px-lt 0 va')) [
    | inl eq ↦ absurd (
        levels (
          sym e
          ∙ (ap owner
                (same_word mem owner p pt _ _ _ _ h e mine (px-lt 0 va') (px-lt (suc level) va)
                  eq).0
              ∙ mine)))
    | inr same ↦ same
  ]
    where
      levels : label 0 va' ≡ label (suc level) va → ⊥
      levels e = cc e
  entries_added (suc level') p va' low' e =
      elim (same_or_at p (px (suc level') va') _ e (px-lt (suc level') va')) [
        | inl eq ↦
            entry_linked level' p va' (omega arith) (ap m eq ∙ after.linked)
            ∙ sym (entry-invalid mem level' p va' (ap (λ w. is_valid (mem w)) eq ∙ missing))
        | inr same ↦ elim (Bool-cases (is_valid (mem (slot p (suc level') va')))) [
          | inl valid ↦
              let below = child_label mem owner p level' va' h (omega arith) e valid in
              rw (same, valid) (entries_added level' _ va' (omega arith) below)
          | inr invalid ↦ rw (same, invalid) refl
        ]
      ]
    where
      entry_linked :
          (level' p va' : ℕ)
          → level' < 3
          → m (slot p (suc level') va') ≡ table_pte x
          → entry (suc level') p va' m ≡ 0
      entry_linked level' p va' low e =
          entry-valid m level' p va' (ap is_valid e ∙ table_pte-is_valid x)
          ∙ (ap (λ (pte : ℕ). entry level' (pte_to_pa pte) va' m) e
              ∙ (ap (λ (q : ℕ). entry level' q va' m) (pte_to_pa-table_pte x page bound)
                  ∙ entry_zero m x level' va' low after.zeroed))
