-- ===== src/Ipc/Signal/Tests.antt =====
-- Runs of ipc/signal.c on a thread with two pending signals, and the theorems at them.
use re_xvapor.Base.{
  ℕ, ◌+◌, ◌≡◌, refl, [], ◌∷◌, true, false, not, ◌&&◌, ◌||◌, some, arith, update, ◌==◌,
}
use re_xvapor.Ipc.Sigset.{sig_is_member, sig_first_member, first_from, sig_add_set, sigkill}
use re_xvapor.Ipc.Sigset.Members.{IsSignal}
use re_xvapor.Ipc.Signal.{
  Sigaction, Siginfo, Trapframe, RtSigframe, Tcb, Platform, do_sigprocmask, sig_existed,
  signal_send, signal_default, signal_handle, handle_from, setup_rt_frame, get_sigframe,
  signal_frame_setup, sys_sigreturn, signal_queue_delete, delete_masked,
}
use re_xvapor.Ipc.Signal.Masks.{wanted, do_sigprocmask_members}
use re_xvapor.Ipc.Signal.Queue.{IsQueued, signal_send_queues}
use re_xvapor.Ipc.Signal.Outcome.{Result, Served, signal_handle_ends}
use re_xvapor.Ipc.Signal.Frames.{IsLeft, Resumed, sys_sigreturn-setup_rt_frame}

abbrev by_default : Sigaction
by_default = record { sa_handler = 0; sa_mask = 0; sa_flags = 0; sa_restorer = 0 }

-- A handler at 4096 that asks for the signal's information.
abbrev catches : Sigaction
catches = record { sa_handler = 4096; sa_mask = 0; sa_flags = 4; sa_restorer = 0 }

abbrev registers : Trapframe
registers = record { ra = 7; sp = 65536; epc = 512; a0 = 11; a1 = 12; a2 = 13; others = λ n. n }

abbrev blank : RtSigframe
blank = record { tf = registers; uc_sigmask = 0; sigprocessing = 0; riscv_pc = 0 }

abbrev info : ℕ → Siginfo
info n = record { si_signo = n; si_code = 0; si_errno = 0 }

-- SIGUSR1, number 10, has the handler.
abbrev idle : Tcb
idle = record {
  blocked = 0;
  signal = 0;
  list = [];
  pending_cnt = 0;
  sig_processing = 0;
  killed = false;
  actions = update (λ n. by_default) 9 catches;
  trapframe = registers;
  stack = λ a. blank;
}

-- Signal 2, which has no handler, and SIGUSR1 are pending.
abbrev two_pending : Tcb
two_pending = record idle { list = info 2 ∷ info 10 ∷ []; signal = 2 + 512; pending_cnt = 2 }

abbrev os : Platform
os = record {
  framesize = 1200;
  uc_offset = 128;
  riscv_offset = 800;
  sigreturn = 8192;
  copyout = λ a. true;
  copyin = λ a. true;
}

sends_two : (signal_send true (info 10) (signal_send true (info 2) idle).1).1 ≡ two_pending
unfolding signal_send sig_add_set
sends_two = refl

first_pending : sig_first_member two_pending.signal ≡ 2
unfolding sig_first_member first_from
first_pending = refl

-- Signal 2 is taken off the list and SIGUSR1's handler is entered; both stay in the set.
delivered_two :
    signal_handle os 0 two_pending
    ≡ some (
      true,
      some (info 10),
      record (setup_rt_frame os catches 10 two_pending).1 {
        list = [];
        pending_cnt = 0;
        sig_processing = 10;
      },
    )
unfolding signal_handle handle_from signal_default setup_rt_frame signal_frame_setup
delivered_two = refl

deletes_one : (signal_queue_delete 2 two_pending).1.list ≡ info 10 ∷ []
unfolding signal_queue_delete delete_masked
deletes_one = refl

two_pending-IsQueued : IsQueued two_pending
two_pending-IsQueued = record {
  counted = refl;
  valid = (omega arith, (omega arith, tt));
  present = (refl, (refl, tt));
  once = ((omega arith, tt), (tt, tt));
}

do_sigprocmask_members_example :
    sig_is_member (do_sigprocmask 0 (some 256) true idle).2.blocked sigkill ≡ (
      wanted 0 (sig_is_member idle.blocked sigkill) (sig_is_member 256 sigkill)
      && not (sigkill == sigkill))
do_sigprocmask_members_example =
    do_sigprocmask_members 0 256 true idle sigkill (omega arith) (omega arith) (omega arith)
      (omega arith)

signal_send_queues_example :
    let r = signal_send true (info 15) two_pending in
    (r.0 ≡ true)
    × (r.1.list ≡ info 2 ∷ info 10 ∷ info 15 ∷ [])
    × ((n : ℕ) → IsSignal n → sig_existed r.1 n ≡ (sig_existed two_pending n || (n == 15)))
    × IsQueued r.1
signal_send_queues_example =
    signal_send_queues (info 15) two_pending two_pending-IsQueued (omega arith) refl

signal_handle_ends_example :
    (o : Result) × (signal_handle os 0 two_pending ≡ some o) × Served two_pending o.2
signal_handle_ends_example = signal_handle_ends os 0 two_pending two_pending-IsQueued

-- The handler has changed its mask, three registers and the pending set.
abbrev after_handler : Tcb
after_handler = record (setup_rt_frame os catches 10 two_pending).1 {
  blocked = 99;
  signal = 512 + 4;
  trapframe = record registers { sp = get_sigframe os registers; a0 = 1; epc = 4200 };
}

after_handler-IsLeft : IsLeft os (setup_rt_frame os catches 10 two_pending).1 after_handler
unfolding setup_rt_frame signal_frame_setup
after_handler-IsLeft = record { same_sp = refl; same_frame = refl }

sys_sigreturn-setup_rt_frame_example :
    let (ok, u) = setup_rt_frame os catches 10 two_pending in
    (ok ≡ true)
    × (u.trapframe.epc ≡ 4096)
    × (u.trapframe.a0 ≡ 10)
    × ((sys_sigreturn os after_handler).0 ≡ 11)
    × Resumed os 10 two_pending after_handler (sys_sigreturn os after_handler).1
sys_sigreturn-setup_rt_frame_example =
    sys_sigreturn-setup_rt_frame os catches 10 two_pending after_handler (refl, refl, refl, refl)
      after_handler-IsLeft
