-- ===== src/Mm/Pte/Laws.antt =====
-- Entries give back the address that they were made of, and the parts of a virtual page number.
use re_xvapor.Base.{
  ℕ, zero, suc, ◌+◌, ◌*◌, ◌/◌, ◌%◌, ◌^◌, ◌≤◌, ◌<◌, ◌≡◌, refl, sym, ◌∙◌, ap, true, bit_or, arith,
}
use native.Mathlib.Nat.{pow-suc, mul_comm, div-div-eq-div-mul}
use re_xvapor.Base.Bits.{bit, bit-or, halves-or, bit_or_step}
use re_xvapor.Mm.Pte.{is_valid, pa_to_pte, pte_to_pa, leaf_pte, table_pte, vpn, px, pte_v, is_user}

bit_or_zero_below : (n a : ℕ) → a ≤ n → bit_or a 0 ≡ a
bit_or_zero_below zero zero h = refl
bit_or_zero_below zero (suc a) h = elim h [ ]
bit_or_zero_below (suc n) a h =
    omega (arith, bit_or_step a 0, bit_or_zero_below n (a / 2) (omega arith))

bit_or_zero : (a : ℕ) → bit_or a 0 ≡ a
bit_or_zero a = bit_or_zero_below a a (omega arith)

halved : (k a : ℕ) → a / 2 ^ suc k ≡ a / 2 / 2 ^ k
halved k a =
    ap (λ (n : ℕ). a / n) (pow-suc 2 k ∙ mul_comm (2 ^ k) 2) ∙ sym (div-div-eq-div-mul a 2 (2 ^ k))

bit_or_halves : (k a b : ℕ) → b < 2 ^ k → bit_or a b / 2 ^ k ≡ a / 2 ^ k
bit_or_halves zero a b h =
    let none_left : b ≡ 0 = omega arith in rw none_left (omega (arith, bit_or_zero a))
bit_or_halves (suc k) a b h =
    halved k (bit_or a b)
    ∙ (ap (λ (n : ℕ). n / 2 ^ k) (halves-or a b)
        ∙ (bit_or_halves k (a / 2) (b / 2) (omega (arith, pow-suc 2 k)) ∙ sym (halved k a)))

-- An entry made of a page's address leads back to the page.
module _ (pa : ℕ) (aligned : pa % 4096 ≡ 0) (low : pa < 2 ^ 56) where
  pub pte_to_pa-table_pte : pte_to_pa (table_pte pa) ≡ pa
  unfolding pte_to_pa table_pte pa_to_pte
  pte_to_pa-table_pte = omega (arith, bit_or_halves 10 (pa / 2 ^ 12 * 2 ^ 10) 1 (omega arith))

  pub pte_to_pa-leaf_pte : (perm : ℕ) → perm < 2 ^ 10 → pte_to_pa (leaf_pte pa perm) ≡ pa
  unfolding pte_to_pa leaf_pte pa_to_pte
  pte_to_pa-leaf_pte perm h = omega (
    arith,
    bit_or_halves 10 (bit_or (pa / 2 ^ 12 * 2 ^ 10) perm) 1 (omega arith),
    bit_or_halves 10 (pa / 2 ^ 12 * 2 ^ 10) perm h,
  )

pub table_pte-is_valid : (pa : ℕ) → is_valid (table_pte pa) ≡ true
unfolding table_pte
table_pte-is_valid pa = bit-or 0 (pa_to_pte pa) pte_v ∙ ground arith

pub leaf_pte-is_valid : (pa perm : ℕ) → is_valid (leaf_pte pa perm) ≡ true
unfolding leaf_pte
leaf_pte-is_valid pa perm = bit-or 0 (bit_or (pa_to_pte pa) perm) pte_v ∙ ground arith

-- The permission bits are those given: here PTE_U.
pub leaf_pte-is_user : (pa perm : ℕ) → is_user (leaf_pte pa perm) ≡ bit perm 4
unfolding leaf_pte pa_to_pte
leaf_pte-is_user pa perm =
    bit-or 4 (bit_or (pa_to_pte pa) perm) pte_v ∙ ground (arith, bit-or 4 (pa_to_pte pa) perm)

pub vpn-suc : (l va : ℕ) → l < 3 → vpn (suc l) va ≡ vpn l va / 512
unfolding vpn
vpn-suc zero va h = omega arith
vpn-suc (suc zero) va h = omega arith
vpn-suc (suc (suc zero)) va h = omega arith
vpn-suc (suc (suc (suc l))) va h = absurd (omega arith)

pub px_lem : (l va : ℕ) → l < 3 → vpn l va ≡ vpn (suc l) va * 512 + px l va
unfolding px
px_lem l va h = omega (arith, vpn-suc l va h)

pub px-lt : (l va : ℕ) → px l va < 512
unfolding px
px-lt l va = omega arith

-- The indices on the way to an address depend on its page alone.
pub px_same : (l va va' : ℕ) → l < 3 → vpn 0 va ≡ vpn 0 va' → px l va ≡ px l va'
unfolding px vpn
px_same zero va va' h e = omega (arith, e)
px_same (suc zero) va va' h e = omega (arith, e)
px_same (suc (suc zero)) va va' h e = omega (arith, e)
px_same (suc (suc (suc l))) va va' h e = absurd (omega arith)
