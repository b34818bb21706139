-- ===== src/Base/Bits/Digits.antt =====
-- `bit_and` and `bit_or` at their lowest digit. The native operations mean `bitwise`, which hands a
-- number as fuel to a recursion on binary digits; beyond that number more fuel changes nothing.
use Prim.Native.Nat.{
  ℕ, zero, suc, ◌+◌, ◌*◌, ◌/◌, ◌%◌, ◌≤◌, min, max, digits, bit_and, bit_or, bit_and-bitwise,
  bit_or-bitwise,
}
use mathlib.Core.Path.{◌≡◌, refl, ap, ◌∙◌}
use native.Mathlib.Decide.{dec_le}
use native.Mathlib.Omega.{arith}

-- A recursion on the digits of its first number, for any treatment of a digit.
module _ (stop : ℕ → ℕ) (join : ℕ → ℕ → ℕ) where
  abbrev go : ℕ → ℕ → ℕ → ℕ
  go fuel x y = digits stop join fuel x y

  one_more : (fuel x y : ℕ) → x ≤ fuel → go (suc fuel) x y ≡ go fuel x y
  one_more zero zero y h = refl
  one_more zero (suc x) y h = elim h [ ]
  one_more (suc fuel) zero y h = refl
  one_more (suc fuel) (suc x) y h =
      ap (λ (high : ℕ). high * 2 + join (suc x % 2) (y % 2))
        (one_more fuel (suc x / 2) (y / 2) (omega arith))

  settled : (more fuel x y : ℕ) → x ≤ fuel → fuel ≤ more → go more x y ≡ go fuel x y
  settled zero fuel x y h k = let same : zero ≡ fuel = omega arith in ap (λ (n : ℕ). go n x y) same
  settled (suc more) fuel x y h k = elim (dec_le fuel more) [
    | yes below ↦ one_more more x y (omega arith) ∙ settled more fuel x y h below
    | no above ↦ let same : suc more ≡ fuel = omega arith in ap (λ (n : ℕ). go n x y) same
  ]

and_unfolded :
    (x y : ℕ)
    → bit_and (suc x) y ≡ digits (λ _. 0) min x (suc x / 2) (y / 2) * 2 + min (suc x % 2) (y % 2)
and_unfolded x y = bit_and-bitwise (suc x) y

or_unfolded :
    (x y : ℕ)
    → bit_or (suc x) y ≡ digits (λ b. b) max x (suc x / 2) (y / 2) * 2 + max (suc x % 2) (y % 2)
or_unfolded x y = bit_or-bitwise (suc x) y

pub bit_and_step : (x y : ℕ) → bit_and x y ≡ bit_and (x / 2) (y / 2) * 2 + min (x % 2) (y % 2)
bit_and_step zero y = omega (arith, bit_and-bitwise 0 y, bit_and-bitwise 0 (y / 2))
bit_and_step (suc x) y =
    let half = suc x / 2 in
    let enough = settled (λ _. 0) min x half half (y / 2) (omega arith) (omega arith) in
    omega (arith, and_unfolded x y, bit_and-bitwise half (y / 2), enough)

pub bit_or_step : (x y : ℕ) → bit_or x y ≡ bit_or (x / 2) (y / 2) * 2 + max (x % 2) (y % 2)
bit_or_step zero y = omega (arith, bit_or-bitwise 0 y, bit_or-bitwise 0 (y / 2))
bit_or_step (suc x) y =
    let half = suc x / 2 in
    let enough = settled (λ b. b) max x half half (y / 2) (omega arith) (omega arith) in
    omega (arith, or_unfolded x y, bit_or-bitwise half (y / 2), enough)
