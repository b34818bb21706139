-- ===== src/Ipc/Signal/Masks.antt =====
-- The signal mask (do_sigprocmask of ipc/signal.c).
use re_xvapor.Base.{
  ℕ, zero, suc, Option-cases, inl, inr, ◌⊎◌, ◌^◌, ◌≤◌, ◌<◌, ◌≡◌, ◌≢◌, refl, ◌∙◌, ap, Bool, true,
  false, not, ◌&&◌, ◌||◌, Option, none, some, ◌==◌, if◌then◌else◌, bit_and, bit_or, arith, ◌-◌,
}
use re_xvapor.Base.Bits.{bit-or, bit-and, bit-complement, complement}
use re_xvapor.Ipc.Sigset.{sig_is_member, sigkill, sigstop}
use re_xvapor.Ipc.Sigset.Members.{IsSignal, member-del_or}
use re_xvapor.Ipc.Signal.{Tcb, change_mask, mask_set, do_sigprocmask}

-- Whether a signal is to be blocked, from whether it is blocked and is in the set.
abbrev pub wanted : ℕ → Bool → Bool → Bool
wanted how old new = if how == 0 then old || new else if how == 1 then old && not new else new

change_mask_lem :
    (how set blocked : ℕ)
    → how ≤ 2
    → (mask : ℕ) × (change_mask how set blocked ≡ some mask)
      × ((n : ℕ)
          → IsSignal n
          → set < 2 ^ 64
          → sig_is_member mask n ≡ wanted how (sig_is_member blocked n) (sig_is_member set n))
unfolding change_mask
change_mask_lem zero set blocked h = (bit_or blocked set, refl, λ n s w. bit-or (n - 1) blocked set)
change_mask_lem (suc zero) set blocked h = (
  bit_and blocked (complement 64 set),
  refl,
  λ n s w.
      bit-and (n - 1) blocked (complement 64 set)
      ∙ ap (λ b. sig_is_member blocked n && b) (bit-complement (n - 1) 64 set (omega arith) w),
)
change_mask_lem (suc (suc zero)) set blocked h = (set, refl, λ n s w. refl)
change_mask_lem (suc (suc (suc how))) set blocked h = absurd (omega arith)

mask_set_lem :
    (mask : ℕ) (t : Tcb) (n : ℕ)
    → IsSignal n
    → sig_is_member (mask_set mask t).blocked n ≡ (sig_is_member mask n && not (n == sigkill))
mask_set_lem mask t n h =
    member-del_or mask sigkill sigstop n (omega arith) (omega arith) h (omega arith)

-- As the code stands, SIGKILL alone is kept out of the new mask.
do_sigprocmask_keeps :
    (how set : ℕ) (want_old : Bool) (t : Tcb) (n : ℕ)
    → how ≤ 2
    → set < 2 ^ 64
    → IsSignal n
    → sig_is_member (do_sigprocmask how (some set) want_old t).2.blocked n
      ≡ (wanted how (sig_is_member t.blocked n) (sig_is_member set n) && not (n == sigkill))
unfolding do_sigprocmask
do_sigprocmask_keeps how set want_old t n h word hn =
    let (mask, e, members) = change_mask_lem how set t.blocked h in
    rw (e, do_sigprocmask)
      (mask_set_lem mask t n hn ∙ ap (λ b. b && not (n == sigkill)) (members n hn word))

-- do_sigprocmask with a set and a valid `how` blocks, of the signals other than SIGSTOP, exactly those
-- that `how` asks for, less SIGKILL: the union with the old mask, the old mask without the set, or the
-- set.
pub do_sigprocmask_members :
    (how set : ℕ) (want_old : Bool) (t : Tcb) (n : ℕ)
    → how ≤ 2
    → set < 2 ^ 64
    → IsSignal n
    → n ≢ sigstop
    → sig_is_member (do_sigprocmask how (some set) want_old t).2.blocked n
      ≡ (wanted how (sig_is_member t.blocked n) (sig_is_member set n) && not (n == sigkill))
do_sigprocmask_members how set want_old t n h word hn other =
    do_sigprocmask_keeps how set want_old t n h word hn

-- Whatever the arguments, SIGKILL is not blocked afterwards if it was not before.
pub sigkill_unblocked :
    (how : ℕ) (set : Option ℕ) (want_old : Bool) (t : Tcb)
    → sig_is_member t.blocked sigkill ≡ false
    → sig_is_member (do_sigprocmask how set want_old t).2.blocked sigkill ≡ false
unfolding do_sigprocmask
sigkill_unblocked how none want_old t h =
    mask_set_lem t.blocked t sigkill (omega arith) ∙ ground arith
sigkill_unblocked how (some set) want_old t h =
    elim (Option-cases (change_mask how set t.blocked)) [
      | inl e ↦ rw (e, do_sigprocmask) h
      | inr (mask, e) ↦
          rw (e, do_sigprocmask) (mask_set_lem mask t sigkill (omega arith) ∙ ground arith)
    ]

-- A set with SIGSTOP, added to the mask or put in its place, leaves SIGSTOP blocked, although the
-- code means to exclude it with SIGKILL.
pub sigstop_blockable :
    (how set : ℕ) (want_old : Bool) (t : Tcb)
    → (how ≡ 0) ⊎ (how ≡ 2)
    → set < 2 ^ 64
    → sig_is_member set sigstop ≡ true
    → sig_is_member (do_sigprocmask how (some set) want_old t).2.blocked sigstop ≡ true
sigstop_blockable how set want_old t h word member =
    do_sigprocmask_keeps how set want_old t sigstop (omega arith) word (omega arith) ∙ ground arith

-- With a set and a valid `how`, the mask that a caller gets as the old one is not the old one but
-- what `how` makes of it and the set.
pub oldset_is_new :
    (how set : ℕ) (t : Tcb)
    → how ≤ 2
    → set < 2 ^ 64
    → (mask : ℕ) × ((do_sigprocmask how (some set) true t).1 ≡ some mask)
      × ((n : ℕ)
          → IsSignal n
          → sig_is_member mask n ≡ wanted how (sig_is_member t.blocked n) (sig_is_member set n))
unfolding do_sigprocmask
oldset_is_new how set t h word =
    let (mask, e, members) = change_mask_lem how set t.blocked h in
    (mask, rw (e, do_sigprocmask) refl, λ n hn. members n hn word)
