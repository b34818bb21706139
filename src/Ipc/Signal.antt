-- ===== src/Ipc/Signal.antt =====
-- Signals, kernel/ipc/signal.c, and sys_sigreturn of kernel/ipc/syssig.c.
-- Each function takes the thread and returns it changed; a result of -1 is `false`. The user's stack
-- is a map from addresses to signal frames, of which the kernel reads and writes whole ones.
pub mod Masks
pub mod Queue
pub mod Delivery
pub mod Outcome
pub mod Frames
mod Tests
use re_xvapor.Base.{
  ℕ, zero, suc, ◌+◌, ◌-◌, ◌*◌, ◌/◌, ◌%◌, ◌^◌, Bool, true, false, not, ◌&&◌, ◌||◌, Option, none,
  some, List, [], ◌∷◌, ◌++◌, update, bit_and, bit_or, ltb, ◌==◌, if◌then◌else◌,
}
use re_xvapor.Base.Bits.{complement}
use re_xvapor.Ipc.Sigset.{
  valid_signal, sig_gen_mask, sig_add_set, sig_del_set_mask, sig_del_set_mask_or, sig_is_member,
  sig_test_mask, sigiot, sigkill, sigterm, sigstop,
}

-- `sa_handler` and `sa_sigaction` are one field: 0 is SIG_DFL, 1 is SIG_IGN.
pub record Sigaction : Type 0 where
  pub sa_handler : ℕ
  pub sa_mask : ℕ
  pub sa_flags : ℕ
  pub sa_restorer : ℕ

pub record Siginfo : Type 0 where
  pub si_signo : ℕ
  pub si_code : ℕ
  pub si_errno : ℕ

-- The registers that delivery changes; `others` holds the rest.
pub record Trapframe : Type 0 where
  pub ra : ℕ
  pub sp : ℕ
  pub epc : ℕ
  pub a0 : ℕ
  pub a1 : ℕ
  pub a2 : ℕ
  pub others : ℕ → ℕ

-- `struct rt_sigframe`: its `uc`, and the pc (`__gregs[0]`) of its `uc_riscv`.
pub record RtSigframe : Type 0 where
  pub tf : Trapframe
  pub uc_sigmask : ℕ
  pub sigprocessing : ℕ
  pub riscv_pc : ℕ

-- The fields of `struct tcb` that signals use; `sig_pending` is `signal` and `list`.
pub record Tcb : Type 0 where
  pub blocked : ℕ
  pub signal : ℕ
  pub list : List Siginfo
  pub pending_cnt : ℕ
  pub sig_processing : ℕ
  pub killed : Bool
  pub actions : ℕ → Sigaction
  pub trapframe : Trapframe
  pub stack : ℕ → RtSigframe

-- sig_action(t, signo)
abbrev pub sig_action : Tcb → ℕ → Sigaction
sig_action t signo = t.actions (signo - 1)

abbrev pub sig_ignored : Tcb → ℕ → Bool
sig_ignored t sig = sig_is_member t.blocked sig

abbrev pub sig_existed : Tcb → ℕ → Bool
sig_existed t sig = sig_is_member t.signal sig

abbrev pub mask_action : Sigaction → Sigaction
mask_action act = record act {
  sa_mask = sig_del_set_mask_or act.sa_mask (sig_gen_mask sigkill) (sig_gen_mask sigstop);
}

-- The result, what is stored in *oldact, the thread. A null pointer is `none`.
pub do_sigaction : ℕ → Option Sigaction → Bool → Tcb → Bool × Option Sigaction × Tcb
do_sigaction signum act want_old t = if not (valid_signal signum) then (false, none, t) else (
  true,
  (if want_old then some (sig_action t signum) else none),
  elim act [
    | none ↦ t
    | some a ↦ record t { actions = update t.actions (signum - 1) (mask_action a) }
  ],
)

-- The switch on `how`: SIG_BLOCK, SIG_UNBLOCK, SIG_SETMASK.
pub change_mask : ℕ → ℕ → ℕ → Option ℕ
change_mask how set blocked =
    if how == 0
    then some (bit_or blocked set)
    else if how == 1
    then some (bit_and blocked (complement 64 set))
    else if how == 2
    then some set
    else none

abbrev pub mask_set : ℕ → Tcb → Tcb
mask_set mask t = record t {
  blocked = sig_del_set_mask_or mask (sig_gen_mask sigkill) (sig_gen_mask sigstop);
}

-- The result, what is stored in *oldset, the thread.
pub do_sigprocmask : ℕ → Option ℕ → Bool → Tcb → Bool × Option ℕ × Tcb
do_sigprocmask how none want_old t =
    (true, (if want_old then some t.blocked else none), mask_set t.blocked t)
do_sigprocmask how (some set) want_old t = elim (change_mask how set t.blocked) [
  | none ↦ (false, none, t)
  | some mask ↦ (true, (if want_old then some mask else none), mask_set mask t)
]

abbrev pub thread_setkilled : Tcb → Tcb
thread_setkilled t = record t { killed = true }

pub signal_default : Tcb → ℕ → Tcb
signal_default t sig_no =
    if sig_no == sigkill
    then thread_setkilled t
    else if sig_no == sigiot
    then thread_setkilled t
    else t

-- `space` says whether kalloc finds a page.
pub signal_send : Bool → Siginfo → Tcb → Bool × Tcb
signal_send space info t =
    let sig = info.si_signo in
    let t' = record t {
      killed = t.killed || (sig == sigkill || (sig == sigstop || sig == sigterm));
    } in
    if not (valid_signal sig)
    then (false, t)
    else if sig_existed t sig
    then (false, t)
    else if not space
    then (false, t')
    else (
      true,
      record t' {
        list = t.list ++ info ∷ [];
        signal = sig_add_set t.signal sig;
        pending_cnt = (t.pending_cnt + 1) % 2 ^ 32;
      },
    )

pub delete_masked : ℕ → List Siginfo → List Siginfo
delete_masked mask [] = []
delete_masked mask (q ∷ qs) =
    if valid_signal q.si_signo && not (bit_and mask (sig_gen_mask q.si_signo) == 0)
    then delete_masked mask qs
    else q ∷ delete_masked mask qs

pub signal_queue_delete : ℕ → Tcb → Bool × Tcb
signal_queue_delete mask t = if not (sig_test_mask t.signal mask) then (false, t) else (
  true,
  record t { signal = sig_del_set_mask t.signal mask; list = delete_masked mask t.list },
)

pub signal_queue_flush : Tcb → Tcb
signal_queue_flush t = record t { signal = 0; list = [] }

abbrev pub sa_siginfo : ℕ
sa_siginfo = 4

-- What the layout of `struct rt_sigframe`, the memory map and the user's memory determine. The
-- field `info` is the first, at offset 0.
pub record Platform : Type 0 where
  pub framesize : ℕ
  pub uc_offset : ℕ
  pub riscv_offset : ℕ
  pub sigreturn : ℕ
  pub copyout : ℕ → Bool
  pub copyin : ℕ → Bool

-- How the loop of signal_handle ends: by a panic on an invalid number, or with its result, what
-- stays in the list from here on, *retinfo, and the thread.
pub data Handled : Type 0 where
  panics : Handled
  handled : Bool → List Siginfo → Option Siginfo → Tcb → Handled

abbrev pub keep : Siginfo → Handled → Handled
keep q panics = panics
keep q (handled ok left ret t) = handled ok (q ∷ left) ret t

abbrev pub decrement : Tcb → Tcb
decrement t = record t { pending_cnt = (t.pending_cnt + 2 ^ 32 - 1) % 2 ^ 32 }

abbrev pub delivered : Siginfo → List Siginfo → Bool × Tcb → Handled
delivered q qs (false, t) = handled false (q ∷ qs) (some q) t
delivered q qs (true, t) =
    handled true qs (some q) (record (decrement t) { sig_processing = q.si_signo })

abbrev pub with_list : Handled → Option (Bool × Option Siginfo × Tcb)
with_list panics = none
with_list (handled ok left ret t) = some (ok, ret, record t { list = left })

module _ (os : Platform) where
  pub get_sigframe : Trapframe → ℕ
  get_sigframe tf = (tf.sp + 2 ^ 64 - os.framesize) % 2 ^ 64 / 16 * 16

  pub signal_frame_setup : ℕ → ℕ → Tcb → Bool × Tcb
  signal_frame_setup rtf signo t =
      let uc = record (t.stack rtf) {
        tf = t.trapframe;
        uc_sigmask = t.blocked;
        sigprocessing = signo;
      } in
      if not (os.copyout (rtf + os.uc_offset))
      then (false, t)
      else if not (os.copyout (rtf + os.riscv_offset))
      then (false, record t { stack = update t.stack rtf uc })
      else (true, record t { stack = update t.stack rtf (record uc { riscv_pc = 0 }) })

  abbrev pub enter_handler : Sigaction → ℕ → ℕ → Trapframe → Trapframe
  enter_handler sig signo frame tf =
      let siginfo = not (bit_and sig.sa_flags sa_siginfo == 0) in
      record tf {
        ra = os.sigreturn;
        sp = frame;
        epc = sig.sa_handler;
        a0 = signo;
        a1 = if siginfo then frame else 0;
        a2 = if siginfo then frame + os.uc_offset else 0;
      }

  pub setup_rt_frame : Sigaction → ℕ → Tcb → Bool × Tcb
  setup_rt_frame sig signo t =
      let frame = get_sigframe t.trapframe in
      let (ok, t') = signal_frame_setup frame signo t in
      if ok
      then (true, record t' { trapframe = enter_handler sig signo frame t'.trapframe })
      else (false, t')

  pub handle_from : ℕ → List Siginfo → Option Siginfo → Tcb → Handled
  handle_from sig [] ret t = handled true [] ret t
  handle_from sig (q ∷ qs) ret t =
      let signo = q.si_signo in
      let act = sig_action t signo in
      let skip = keep q (handle_from sig qs ret t) in
      let ignore = keep q (handle_from sig qs (some q) t) in
      let default = handle_from sig qs (some q) (decrement (signal_default t signo)) in
      if ltb 0 sig && not (signo == sig)
      then skip
      else if not (valid_signal signo)
      then panics
      else if sig_ignored t signo || act.sa_handler == 1
      then ignore
      else if act.sa_handler == 0
      then default
      else delivered q qs (setup_rt_frame act signo t)

  -- `none` is the panic.
  pub signal_handle : ℕ → Tcb → Option (Bool × Option Siginfo × Tcb)
  signal_handle sig t =
      if t.pending_cnt == 0 then some (true, none, t) else with_list (handle_from sig t.list none t)

  pub signal_frame_restore : ℕ → Tcb → Bool × Tcb
  signal_frame_restore rtf t =
      let uc = t.stack rtf in
      let t' = record t {
        blocked = uc.uc_sigmask;
        trapframe = uc.tf;
        sig_processing = uc.sigprocessing;
      } in
      if not (os.copyin (rtf + os.uc_offset))
      then (false, t)
      else if not (os.copyin (rtf + os.riscv_offset))
      then (false, t')
      else if uc.riscv_pc == 0
      then (true, t')
      else (true, record t' { trapframe = record (uc.tf) { epc = uc.riscv_pc } })

  -- The result is the restored a0.
  pub sys_sigreturn : Tcb → ℕ × Tcb
  sys_sigreturn t =
      let t' = (signal_frame_restore t.trapframe.sp t).1 in
      (
        t'.trapframe.a0,
        record t' { signal = sig_del_set_mask t'.signal (sig_gen_mask t'.sig_processing) },
      )
