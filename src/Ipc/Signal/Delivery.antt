-- ===== src/Ipc/Signal/Delivery.antt =====
-- Delivery of pending signals (signal_handle of ipc/signal.c).
use re_xvapor.Base.{
  ℕ, suc, ◌+◌, ◌%◌, ◌^◌, ◌≡◌, ◌≢◌, refl, sym, ◌∙◌, ap, Bool, true, false, not, ◌&&◌, ◌||◌, Option,
  some, List, [], ◌∷◌, length, All, Among, LiftedEmpty, ◌==◌, arith, Bool-cases, inl, inr, ltb,
}
use re_xvapor.Ipc.Sigset.{sig_is_member, valid_signal}
use re_xvapor.Ipc.Signal.{
  Tcb, Siginfo, Platform, Sigaction, sig_action, sig_ignored, signal_default, signal_frame_setup,
  setup_rt_frame, Handled, panics, handled, keep, decrement, delivered, handle_from,
}
use re_xvapor.Ipc.Signal.Queue.{IsValidInfo, Once}

-- What the loop leaves of the entries `qs` of a thread `t`: with `before` kept in front of them the
-- count stays right; set and mask are as they were; what stays was there, what is blocked stays.
pub record Loop (before : ℕ) (t : Tcb) (qs left : List Siginfo) (t' : Tcb) : Type 1 where
  pub counted : t'.pending_cnt ≡ (before + length left) % 2 ^ 32
  pub same_set : t'.signal ≡ t.signal
  pub same_mask : t'.blocked ≡ t.blocked
  pub only : (P : Siginfo → Type 0) → All P qs → All P left
  pub once : Once qs → Once left
  pub stays : (q : Siginfo) → Among q qs → sig_ignored t q.si_signo ≡ true → Among q left

-- An end of the loop that is no panic.
abbrev pub Ends : ℕ → Tcb → List Siginfo → Handled → Type 1
Ends before t qs panics = LiftedEmpty
Ends before t qs (handled ok left ret t') = Loop before t qs left t'

signal_default_keeps :
    (t : Tcb) (n : ℕ)
    → ((signal_default t n).signal ≡ t.signal)
      × ((signal_default t n).blocked ≡ t.blocked)
      × ((signal_default t n).pending_cnt ≡ t.pending_cnt)
unfolding signal_default
signal_default_keeps t n = ground arith

module _ (os : Platform) where
  setup_rt_frame_keeps :
      (act : Sigaction) (n : ℕ) (t : Tcb)
      → let t' = (setup_rt_frame os act n t).1 in
        (t'.signal ≡ t.signal) × (t'.blocked ≡ t.blocked) × (t'.pending_cnt ≡ t.pending_cnt)
  unfolding setup_rt_frame signal_frame_setup
  setup_rt_frame_keeps act n t = ground arith

module _ (before : ℕ) (t : Tcb) (q : Siginfo) (qs : List Siginfo) where
  -- An entry that is passed over stays in front of what the rest of the loop leaves.
  keep-Ends : (r : Handled) → Ends (suc before) t qs r → Ends before t (q ∷ qs) (keep q r)
  keep-Ends panics h = h
  keep-Ends (handled ok left ret t') h = record {
    counted = omega (arith, h.counted);
    same_set = h.same_set;
    same_mask = h.same_mask;
    only = λ P all. (all.0, h.only P all.1);
    once = λ o. (h.only (λ r. q.si_signo ≢ r.si_signo) o.0, h.once o.1);
    stays = stays;
  }
    where
      stays :
          (p : Siginfo) → Among p (q ∷ qs) → sig_ignored t p.si_signo ≡ true → Among p (q ∷ left)
      stays p (inl e) b = inl e
      stays p (inr m) b = inr (h.stays p m b)

  gone :
      (left : List Siginfo) (p : Siginfo)
      → sig_ignored t q.si_signo ≡ false
      → p ≡ q
      → sig_ignored t p.si_signo ≡ true
      → Among p left
  gone left p free e b = cc (sym b ∙ (ap (λ r. sig_ignored t (Siginfo.si_signo r)) e ∙ free))

  -- An entry that is taken out, by a step that leaves the thread as `u`.
  drop-Ends :
      (u : Tcb) (r : Handled)
      → u.signal ≡ t.signal
      → u.blocked ≡ t.blocked
      → sig_ignored t q.si_signo ≡ false
      → Ends before u qs r
      → Ends before t (q ∷ qs) r
  drop-Ends u panics es eb free h = h
  drop-Ends u (handled ok left ret t') es eb free h = record {
    counted = h.counted;
    same_set = h.same_set ∙ es;
    same_mask = h.same_mask ∙ eb;
    only = λ P all. h.only P all.1;
    once = λ o. h.once o.1;
    stays = stays;
  }
    where
      stays : (p : Siginfo) → Among p (q ∷ qs) → sig_ignored t p.si_signo ≡ true → Among p left
      stays p (inl e) b = gone left p free e b
      stays p (inr m) b = h.stays p m (ap (λ set. sig_is_member set p.si_signo) eb ∙ b)

abbrev passed_over : ℕ → Siginfo → Bool
passed_over sig q = ltb 0 sig && not (q.si_signo == sig)

abbrev held_back : Tcb → Siginfo → Bool
held_back t q = sig_ignored t q.si_signo || (sig_action t q.si_signo).sa_handler == 1

abbrev by_default : Tcb → Siginfo → Tcb
by_default t q = decrement (signal_default t q.si_signo)

module _ (os : Platform) (sig : ℕ) (q : Siginfo) (qs : List Siginfo) (ret : Option Siginfo)
    (t : Tcb) where
  skips :
      passed_over sig q ≡ true
      → handle_from os sig (q ∷ qs) ret t ≡ keep q (handle_from os sig qs ret t)
  unfolding handle_from
  skips a = rw a refl

  module _ (wanted : passed_over sig q ≡ false) (valid : valid_signal q.si_signo ≡ true) where
    ignores :
        held_back t q ≡ true
        → handle_from os sig (q ∷ qs) ret t ≡ keep q (handle_from os sig qs (some q) t)
    unfolding handle_from
    ignores b = rw (wanted, valid, b) refl

    defaults :
        held_back t q ≡ false
        → ((sig_action t q.si_signo).sa_handler == 0) ≡ true
        → handle_from os sig (q ∷ qs) ret t ≡ handle_from os sig qs (some q) (by_default t q)
    unfolding handle_from
    defaults b c = rw (wanted, valid, b, c) refl

    delivers :
        held_back t q ≡ false
        → ((sig_action t q.si_signo).sa_handler == 0) ≡ false
        → handle_from os sig (q ∷ qs) ret t
          ≡ delivered q qs (setup_rt_frame os (sig_action t q.si_signo) q.si_signo t)
    unfolding handle_from
    delivers b c = rw (wanted, valid, b, c) refl

free_of : (t : Tcb) (q : Siginfo) → held_back t q ≡ false → sig_ignored t q.si_signo ≡ false
free_of t q h = ground arith

delivered-Ends :
    (before : ℕ) (t : Tcb) (q : Siginfo) (qs : List Siginfo) (r : Bool × Tcb)
    → sig_ignored t q.si_signo ≡ false
    → t.pending_cnt ≡ (before + length (q ∷ qs)) % 2 ^ 32
    → (r.1.signal ≡ t.signal) × (r.1.blocked ≡ t.blocked) × (r.1.pending_cnt ≡ t.pending_cnt)
    → Ends before t (q ∷ qs) (delivered q qs r)
delivered-Ends before t q qs (false, u) free c same = record {
  counted = same.2 ∙ c;
  same_set = same.0;
  same_mask = same.1;
  only = λ P all. all;
  once = λ o. o;
  stays = λ p m b. m;
}
delivered-Ends before t q qs (true, u) free c same = record {
  counted = omega (arith, same.2, c);
  same_set = same.0;
  same_mask = same.1;
  only = λ P all. all.1;
  once = λ o. o.1;
  stays = λ p m b. elim m [ inl e ↦ gone before t q qs qs p free e b | inr m' ↦ m' ];
}

module _ (os : Platform) where
  handle_from-nil :
      (sig : ℕ) (ret : Option Siginfo) (t : Tcb)
      → handle_from os sig [] ret t ≡ handled true [] ret t
  unfolding handle_from
  handle_from-nil sig ret t = refl

  pub handle_from-Ends :
      (sig before : ℕ) (qs : List Siginfo) (ret : Option Siginfo) (t : Tcb)
      → All IsValidInfo qs
      → t.pending_cnt ≡ (before + length qs) % 2 ^ 32
      → Ends before t qs (handle_from os sig qs ret t)
  handle_from-Ends sig before [] ret t v c = rw (handle_from-nil sig ret t) (record {
    counted = c;
    same_set = refl;
    same_mask = refl;
    only = λ P all. all;
    once = λ o. o;
    stays = λ p m b. m;
  })
  handle_from-Ends sig before (q ∷ qs) ret t v c = elim (Bool-cases (passed_over sig q)) [
    | inl a ↦ rw (skips os sig q qs ret t a) (
        keep-Ends before t q qs (handle_from os sig qs ret t)
          (handle_from-Ends sig (suc before) qs ret t v.1 (omega (arith, c))))
    | inr a ↦
        let valid : valid_signal q.si_signo ≡ true = ground arith in
        elim (Bool-cases (held_back t q)) [
          | inl b ↦ rw (ignores os sig q qs ret t a valid b) (
              keep-Ends before t q qs (handle_from os sig qs (some q) t)
                (handle_from-Ends sig (suc before) qs (some q) t v.1 (omega (arith, c))))
          | inr b ↦
              let free : sig_ignored t q.si_signo ≡ false = free_of t q b in
              elim (Bool-cases ((sig_action t q.si_signo).sa_handler == 0)) [
                | inl d ↦
                    let k = signal_default_keeps t q.si_signo in
                    rw (defaults os sig q qs ret t a valid b d) (
                      drop-Ends before t q qs (by_default t q)
                        (handle_from os sig qs (some q) (by_default t q)) k.0 k.1 free
                        (handle_from-Ends sig before qs (some q) (by_default t q) v.1
                          (omega (arith, c, k.2))))
                | inr d ↦ rw (delivers os sig q qs ret t a valid b d) (
                    delivered-Ends before t q qs
                      (setup_rt_frame os (sig_action t q.si_signo) q.si_signo t) free c
                      (setup_rt_frame_keeps os (sig_action t q.si_signo) q.si_signo t))
              ]
        ]
  ]
