-- ===== src/Ipc/Sigset.antt =====
-- Signal sets, the macros of kernel/include/signal.h: a set is a 64-bit word, signal `n` its bit n - 1.
pub mod Members
use re_xvapor.Base.{
  ℕ, zero, suc, ◌+◌, ◌-◌, ◌^◌, Bool, true, false, not, ◌&&◌, ◌||◌, bit_and, bit_or, leb, ◌==◌,
  if◌then◌else◌,
}
use re_xvapor.Base.Bits.{bit, complement}

abbrev pub nsig : ℕ
nsig = 64

abbrev pub sigiot : ℕ
sigiot = 6

abbrev pub sigkill : ℕ
sigkill = 9

abbrev pub sigterm : ℕ
sigterm = 15

abbrev pub sigchld : ℕ
sigchld = 17

abbrev pub sigstop : ℕ
sigstop = 19

abbrev pub valid_signal : ℕ → Bool
valid_signal sig = leb sig nsig && leb 1 sig

abbrev pub sig_gen_mask : ℕ → ℕ
sig_gen_mask sig = 2 ^ (sig - 1)

unfoldable pub sig_add_set : ℕ → ℕ → ℕ
sig_add_set set signo = bit_or set (2 ^ (signo - 1))

-- sig_del_set_mask(set, mask) with a `mask` that is one operand.
unfoldable pub sig_del_set_mask : ℕ → ℕ → ℕ
sig_del_set_mask set mask = bit_and set (complement 64 mask)

-- sig_del_set_mask(set, a | b): the macro's body is (~mask), with no parentheses round mask, so
-- that only `a` is complemented.
unfoldable pub sig_del_set_mask_or : ℕ → ℕ → ℕ → ℕ
sig_del_set_mask_or set a b = bit_and set (bit_or (complement 64 a) b)

abbrev pub sig_is_member : ℕ → ℕ → Bool
sig_is_member set n = bit set (n - 1)

abbrev pub sig_test_mask : ℕ → ℕ → Bool
sig_test_mask set mask = not (bit_and set mask == 0)

abbrev pub sig_test_empty : ℕ → Bool
sig_test_empty set = set == 0

-- The loop of sig_first_member, with `k` rounds left at index `i`.
unfoldable pub first_from : ℕ → ℕ → ℕ → ℕ
first_from zero i set = i
first_from (suc k) i set =
    let rest = first_from k (i + 1) set in if sig_is_member set (i + 1) then i else rest

unfoldable pub sig_first_member : ℕ → ℕ
sig_first_member set = first_from nsig 0 set + 1
