-- ===== src/Ipc/Signal/Queue.antt =====
-- The pending signals of a thread (signal_send of ipc/signal.c): the list and the set together.
use re_xvapor.Base.{
  ℕ, ◌+◌, ◌%◌, ◌^◌, ◌≡◌, ◌≢◌, refl, sym, ◌∙◌, ap, Bool, true, false, ◌||◌, List, [], ◌∷◌, ◌++◌,
  length, length-append, All, All-append, ◌==◌, arith, Bool-cases, inl, inr,
}
use re_xvapor.Ipc.Sigset.{sig_is_member, sig_add_set, valid_signal, sigkill, sigstop, sigterm}
use re_xvapor.Ipc.Sigset.Members.{IsSignal, member-add}
use re_xvapor.Ipc.Signal.{Tcb, Siginfo, sig_existed, signal_send}

abbrev pub IsValidInfo : Siginfo → Type 0
IsValidInfo q = IsSignal q.si_signo

abbrev pub Present : ℕ → Siginfo → Type 0
Present set q = sig_is_member set q.si_signo ≡ true

-- No two of the list are the same signal.
abbrev pub Once : List Siginfo → Type 0
Once [] = Unit
Once (q ∷ qs) = All (λ r. q.si_signo ≢ r.si_signo) qs × Once qs

-- The count is the length of the list, whose signals are valid, in the pending set, and different.
pub record IsQueued (t : Tcb) : Type 0 where
  pub counted : t.pending_cnt ≡ length t.list % 2 ^ 32
  pub valid : All IsValidInfo t.list
  pub present : All (Present t.signal) t.list
  pub once : Once t.list

-- The thread after a signal is queued.
abbrev queued : Siginfo → Tcb → Tcb
queued info t = record t {
  killed =
      t.killed
      || (info.si_signo == sigkill || (info.si_signo == sigstop || info.si_signo == sigterm));
  list = t.list ++ info ∷ [];
  signal = sig_add_set t.signal info.si_signo;
  pending_cnt = (t.pending_cnt + 1) % 2 ^ 32;
}

valid_signal_iff : (n : ℕ) → IsSignal n → valid_signal n ≡ true
valid_signal_iff n h = ground arith

-- A valid signal that is not pending is queued, if there is memory.
send_new :
    (info : Siginfo) (t : Tcb)
    → IsSignal info.si_signo
    → sig_existed t info.si_signo ≡ false
    → signal_send true info t ≡ (true, queued info t)
unfolding signal_send
send_new info t h e = rw (valid_signal_iff info.si_signo h, e) refl

-- A signal that is pending is refused, with no change.
pub send_pending :
    (space : Bool) (info : Siginfo) (t : Tcb)
    → sig_existed t info.si_signo ≡ true
    → signal_send space info t ≡ (false, t)
unfolding signal_send
send_pending space info t e = elim (Bool-cases (valid_signal info.si_signo)) [
  | inl v ↦ rw (v, e) refl
  | inr v ↦ rw v refl
]

Present-add :
    (set s : ℕ) (q : Siginfo)
    → IsSignal s
    → IsSignal q.si_signo
    → Present set q
    → Present (sig_add_set set s) q
Present-add set s q hs hq h = member-add set s q.si_signo hs hq ∙ ground arith

Present-add_all :
    (set s : ℕ) (qs : List Siginfo)
    → IsSignal s
    → All IsValidInfo qs
    → All (Present set) qs
    → All (Present (sig_add_set set s)) qs
Present-add_all set s [] hs v h = tt
Present-add_all set s (q ∷ qs) hs v h =
    (Present-add set s q hs v.0 h.0, Present-add_all set s qs hs v.1 h.1)

-- A signal outside the set is none of the list.
absent :
    (set n : ℕ) (qs : List Siginfo)
    → sig_is_member set n ≡ false
    → All (Present set) qs
    → All (λ r. r.si_signo ≢ n) qs
absent set n [] e h = tt
absent set n (q ∷ qs) e h = ((λ same. clash (ap (sig_is_member set) same)), absent set n qs e h.1)
  where
    clash : sig_is_member set q.si_signo ≡ sig_is_member set n → ⊥
    clash same = cc (sym h.0 ∙ (same ∙ e))

Once-snoc :
    (qs : List Siginfo) (info : Siginfo)
    → All (λ r. r.si_signo ≢ info.si_signo) qs
    → Once qs
    → Once (qs ++ info ∷ [])
Once-snoc [] info h o = (tt, tt)
Once-snoc (q ∷ qs) info h o = (
  All-append (λ r. q.si_signo ≢ r.si_signo) qs (info ∷ []) o.0 (h.0, tt),
  Once-snoc qs info h.1 o.1,
)

-- signal_send of a valid signal that is not pending, with memory, puts it at the end of the list
-- and into the set, with the list and the set still in step.
pub signal_send_queues :
    (info : Siginfo) (t : Tcb)
    → IsQueued t
    → IsSignal info.si_signo
    → sig_existed t info.si_signo ≡ false
    → let r = signal_send true info t in
      (r.0 ≡ true)
      × (r.1.list ≡ t.list ++ info ∷ [])
      × ((n : ℕ) → IsSignal n → sig_existed r.1 n ≡ (sig_existed t n || (n == info.si_signo)))
      × IsQueued r.1
signal_send_queues info t v h e = rw (send_new info t h e) (
  refl,
  refl,
  (λ n hn. member-add t.signal info.si_signo n h hn),
  record {
    counted = omega (arith, v.counted, length-append t.list (info ∷ []));
    valid = All-append IsValidInfo t.list (info ∷ []) v.valid (h, tt);
    present =
        All-append (Present (sig_add_set t.signal info.si_signo)) t.list (info ∷ [])
          (Present-add_all t.signal info.si_signo t.list h v.valid v.present)
          ((member-add t.signal info.si_signo info.si_signo h h ∙ ground arith), tt);
    once = Once-snoc t.list info (absent t.signal info.si_signo t.list e v.present) v.once;
  },
)

-- A signal that has been queued once is refused the second time: a thread has at most one pending
-- instance of a signal.
pub signal_send-signal_send :
    (space : Bool) (info again : Siginfo) (t : Tcb)
    → IsSignal info.si_signo
    → again.si_signo ≡ info.si_signo
    → sig_existed t info.si_signo ≡ false
    → let t' = (signal_send true info t).1 in signal_send space again t' ≡ (false, t')
signal_send-signal_send space info again t h same e = rw (send_new info t h e) (
    send_pending space again (queued info t) (
      ap (sig_existed (queued info t)) same
      ∙ (member-add t.signal info.si_signo info.si_signo h h ∙ ground arith)))
