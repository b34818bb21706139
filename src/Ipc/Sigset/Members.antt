-- ===== src/Ipc/Sigset/Members.antt =====
-- The members of signal sets after the macros of include/signal.h.
use native.Mathlib.Nat.{pow-suc, one-le-pow}
use re_xvapor.Base.{
  ℕ, zero, suc, ◌-◌, ◌^◌, ◌≤◌, ◌<◌, ◌≡◌, ◌≢◌, ◌∙◌, not, ◌&&◌, ◌||◌, bit_or, ◌==◌, arith,
}
use re_xvapor.Base.Bits.{bit-or, bit-and, bit-pow, bit-complement, complement}
use re_xvapor.Ipc.Sigset.{
  nsig, sig_gen_mask, sig_add_set, sig_del_set_mask, sig_del_set_mask_or, sig_is_member,
}

abbrev pub IsSignal : ℕ → Type 0
IsSignal n = (1 ≤ n) × (n ≤ nsig)

pow_lt : (k m : ℕ) → k < m → 2 ^ k < 2 ^ m
pow_lt k zero h = elim h [ ]
pow_lt zero (suc m) h = omega (arith, pow-suc 2 m, one-le-pow m 2)
pow_lt (suc k) (suc m) h = omega (arith, pow-suc 2 m, pow-suc 2 k, pow_lt k m (omega arith))

-- Adding a signal adds that member and no other.
pub member-add :
    (set s n : ℕ)
    → IsSignal s
    → IsSignal n
    → sig_is_member (sig_add_set set s) n ≡ (sig_is_member set n || (n == s))
unfolding sig_add_set
member-add set s n hs hn =
    bit-or (n - 1) set (2 ^ (s - 1)) ∙ ground (arith, bit-pow (n - 1) (s - 1))

-- Deleting a signal's mask deletes that member and no other.
pub member-del :
    (set s n : ℕ)
    → IsSignal s
    → IsSignal n
    → sig_is_member (sig_del_set_mask set (sig_gen_mask s)) n
      ≡ (sig_is_member set n && not (n == s))
unfolding sig_del_set_mask
member-del set s n hs hn =
    bit-and (n - 1) set (complement 64 (2 ^ (s - 1)))
    ∙ ground (
      arith,
      bit-complement (n - 1) 64 (2 ^ (s - 1)) (omega arith) (pow_lt (s - 1) 64 (omega arith)),
      bit-pow (n - 1) (s - 1),
    )

-- Deleting the union of two different signals' masks deletes the first alone.
pub member-del_or :
    (set s r n : ℕ)
    → IsSignal s
    → IsSignal r
    → IsSignal n
    → s ≢ r
    → sig_is_member (sig_del_set_mask_or set (sig_gen_mask s) (sig_gen_mask r)) n
      ≡ (sig_is_member set n && not (n == s))
unfolding sig_del_set_mask_or
member-del_or set s r n hs hr hn ne =
    bit-and (n - 1) set (bit_or (complement 64 (2 ^ (s - 1))) (2 ^ (r - 1)))
    ∙ ground (
      arith,
      bit-or (n - 1) (complement 64 (2 ^ (s - 1))) (2 ^ (r - 1)),
      bit-complement (n - 1) 64 (2 ^ (s - 1)) (omega arith) (pow_lt (s - 1) 64 (omega arith)),
      bit-pow (n - 1) (s - 1),
      bit-pow (n - 1) (r - 1),
    )
