-- ===== src/Ipc/Signal/Outcome.antt =====
-- What a delivery leaves pending (signal_handle of ipc/signal.c).
use re_xvapor.Base.{
  ℕ, ◌≡◌, refl, Bool, true, Option, none, some, Among, ◌==◌, arith, Bool-cases, inl, inr,
}
use re_xvapor.Ipc.Signal.{
  Tcb, Siginfo, Platform, sig_ignored, Handled, panics, handled, handle_from, with_list,
  signal_handle,
}
use re_xvapor.Ipc.Signal.Queue.{Present, IsQueued}
use re_xvapor.Ipc.Signal.Delivery.{Ends, handle_from-Ends}

-- The queue of `t'` is in step; set and mask are those of `t`; the blocked entries of `t` are there.
pub record Served (t t' : Tcb) : Type 0 where
  pub queue : IsQueued t'
  pub same_set : t'.signal ≡ t.signal
  pub same_mask : t'.blocked ≡ t.blocked
  pub stays : (q : Siginfo) → Among q t.list → sig_ignored t q.si_signo ≡ true → Among q t'.list

abbrev pub Result : Type 0
Result = Bool × Option Siginfo × Tcb

with_list-Served :
    (t : Tcb) (r : Handled)
    → IsQueued t
    → Ends 0 t t.list r
    → (o : Result) × (with_list r ≡ some o) × Served t o.2
with_list-Served t panics v h = elim h [ ]
with_list-Served t (handled ok left ret t') v h = (
  (ok, ret, record t' { list = left }),
  refl,
  record {
    queue = record {
      counted = omega (arith, h.counted);
      valid = h.only _ v.valid;
      present = rw h.same_set (h.only (Present t.signal) v.present);
      once = h.once v.once;
    };
    same_set = h.same_set;
    same_mask = h.same_mask;
    stays = h.stays;
  },
)

-- signal_handle, of all signals or of one, never panics on a queue in step, whatever the handlers
-- and wherever copying a frame fails: the queue stays in step, the pending set and the mask stay,
-- and a blocked signal stays queued.
pub signal_handle_ends :
    (os : Platform) (sig : ℕ) (t : Tcb)
    → IsQueued t
    → (o : Result) × (signal_handle os sig t ≡ some o) × Served t o.2
unfolding signal_handle
signal_handle_ends os sig t v = elim (Bool-cases (t.pending_cnt == 0)) [
  | inl e ↦ (
    (true, none, t),
    rw e refl,
    record { queue = v; same_set = refl; same_mask = refl; stays = λ q m b. m },
  )
  | inr e ↦
      let (o, eq, served) =
        with_list-Served t (handle_from os sig t.list none t) v
          (handle_from-Ends os sig 0 t.list none t v.valid (omega (arith, v.counted))) in
      (o, rw e eq, served)
]
