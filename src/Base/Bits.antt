-- ===== src/Base/Bits.antt =====
-- Single bits of a machine word, and what `&`, `|` and a shifted one do to each of them.
mod Digits
pub use Digits.{bit_or_step, bit_and_step}
use Prim.Native.Nat.{
  ℕ, zero, suc, ◌+◌, ◌-◌, ◌*◌, ◌/◌, ◌%◌, ◌^◌, ◌≤◌, ◌<◌, min, max, bit_and, bit_or,
}
use mathlib.Core.Path.{◌≡◌, refl, ap}
use mathlib.Core.Bool.{Bool, true, false, not, ◌&&◌, ◌||◌}
use mathlib.Core.Logic.{◌≢◌}
use native.Mathlib.Nat.{pow-suc}
use native.Mathlib.Omega.{arith}
use re_xvapor.Base.Tests.{◌==◌}

-- Bit `i` of `x`: 1 & (x >> i).
abbrev pub bit : ℕ → ℕ → Bool
bit x zero = x % 2 == 1
bit x (suc i) = bit (x / 2) i

pub halves-or : (a b : ℕ) → bit_or a b / 2 ≡ bit_or (a / 2) (b / 2)
halves-or a b = omega (arith, bit_or_step a b)

halves-and : (a b : ℕ) → bit_and a b / 2 ≡ bit_and (a / 2) (b / 2)
halves-and a b = omega (arith, bit_and_step a b)

pub bit-or : (i a b : ℕ) → bit (bit_or a b) i ≡ (bit a i || bit b i)
bit-or zero a b = ground (arith, bit_or_step a b)
bit-or (suc i) a b = rw (halves-or a b) (bit-or i (a / 2) (b / 2))

pub bit-and : (i a b : ℕ) → bit (bit_and a b) i ≡ (bit a i && bit b i)
bit-and zero a b = ground (arith, bit_and_step a b)
bit-and (suc i) a b = rw (halves-and a b) (bit-and i (a / 2) (b / 2))

bit-zero : (i : ℕ) → bit 0 i ≡ false
bit-zero zero = refl
bit-zero (suc i) = bit-zero i

pow_half : (k : ℕ) → 2 ^ suc k / 2 ≡ 2 ^ k
pow_half k = omega (arith, pow-suc 2 k)

-- `1 << k` has bit `k` and no other.
pub bit-pow : (i k : ℕ) → bit (2 ^ k) i ≡ (i == k)
bit-pow zero zero = refl
bit-pow zero (suc k) = ground (arith, pow-suc 2 k)
bit-pow (suc i) zero = ground (arith, bit-zero i)
bit-pow (suc i) (suc k) = rw (pow_half k) (ground (arith, bit-pow i k))

-- ~x on a word of `k` bits.
abbrev pub complement : ℕ → ℕ → ℕ
complement k x = 2 ^ k - 1 - x

-- Within the word, each bit of ~x is the other one.
pub bit-complement : (i k x : ℕ) → i < k → x < 2 ^ k → bit (complement k x) i ≡ not (bit x i)
bit-complement i zero x h fits = elim h [ ]
bit-complement zero (suc k) x h fits = ground (arith, pow-suc 2 k)
bit-complement (suc i) (suc k) x h fits =
    let halves : complement (suc k) x / 2 ≡ complement k (x / 2) = omega (arith, pow-suc 2 k) in
    rw halves (bit-complement i k (x / 2) (omega arith) (omega (arith, pow-suc 2 k)))
