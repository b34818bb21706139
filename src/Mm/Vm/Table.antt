-- ===== src/Mm/Vm/Table.antt =====
-- Page tables as maps from addresses to entries (mm/vm.c). A table page is labelled with its level and
-- the part of the virtual page number that leads to it, which keeps the pages of a tree apart.
use re_xvapor.Base.{
  ℕ, zero, suc, ◌+◌, ◌*◌, ◌%◌, ◌<◌, ◌≡◌, refl, sym, ◌∙◌, ap, true, false, Option, some,
  if◌then◌else◌, arith,
}
use re_xvapor.Mm.Pte.{is_valid, pte_to_pa, px, vpn}
use re_xvapor.Mm.Pte.Laws.{px_lem, px-lt}
use re_xvapor.Mm.Vm.{slot}

-- The entry that a walk from a page of `level` finds for `va`; 0 where it ends early.
unfoldable pub entry : ℕ → ℕ → ℕ → (ℕ → ℕ) → ℕ
entry zero p va mem = mem (slot p 0 va)
entry (suc level) p va mem =
    let pte = mem (slot p (suc level) va) in
    let below = entry level (pte_to_pa pte) va mem in if is_valid pte then below else 0

abbrev pub Label : Type 0
Label = Option (ℕ × ℕ)

-- The label of the page of `level` on the way to `va`.
abbrev pub label : ℕ → ℕ → Label
label level va = some (level, vpn (suc level) va)

pub record IsTable (mem : ℕ → ℕ) (owner : ℕ → Label) : Type 0 where
  pub aligned : (p : ℕ) (y : ℕ × ℕ) → owner p ≡ some y → p % 4096 ≡ 0
  pub child :
      (p level x i : ℕ)
      → owner p ≡ some (suc level, x)
      → i < 512
      → is_valid (mem (p + 8 * i)) ≡ true
      → owner (pte_to_pa (mem (p + 8 * i))) ≡ some (level, x * 512 + i)

-- The walk's next page is labelled for `va` if this one is.
pub child_label :
    (mem : ℕ → ℕ) (owner : ℕ → Label) (p level va : ℕ)
    → IsTable mem owner
    → level < 2
    → owner p ≡ label (suc level) va
    → is_valid (mem (slot p (suc level) va)) ≡ true
    → owner (pte_to_pa (mem (slot p (suc level) va))) ≡ label level va
child_label mem owner p level va h low e valid =
    h.child p level (vpn (suc (suc level)) va) (px (suc level) va) e (px-lt (suc level) va) valid
    ∙ ap (λ (x : ℕ). some (level, x)) (sym (px_lem (suc level) va (omega arith)))

-- Two words of labelled pages are one word only in one page, at one index.
pub same_word :
    (mem : ℕ → ℕ) (owner : ℕ → Label) (p q i j : ℕ) (y z : ℕ × ℕ)
    → IsTable mem owner
    → owner p ≡ some y
    → owner q ≡ some z
    → i < 512
    → j < 512
    → p + 8 * i ≡ q + 8 * j
    → (p ≡ q) × (i ≡ j)
same_word mem owner p q i j y z h e e' li lj same = omega (arith, h.aligned p y e, h.aligned q z e')

module _ (mem : ℕ → ℕ) where
  pub entry-valid :
      (level p va : ℕ)
      → is_valid (mem (slot p (suc level) va)) ≡ true
      → entry (suc level) p va mem ≡ entry level (pte_to_pa (mem (slot p (suc level) va))) va mem
  unfolding entry
  entry-valid level p va e = rw e refl

  pub entry-invalid :
      (level p va : ℕ)
      → is_valid (mem (slot p (suc level) va)) ≡ false
      → entry (suc level) p va mem ≡ 0
  unfolding entry
  entry-invalid level p va e = rw e refl
