-- ===== src/Ipc/Signal/Frames.antt =====
-- The frame that delivery puts on the user's stack and sigreturn reads back (setup_rt_frame,
-- get_sigframe and signal_frame_restore of ipc/signal.c, sys_sigreturn of ipc/syssig.c).
use re_xvapor.Base.{
  ℕ, ◌+◌, ◌%◌, ◌^◌, ◌≤◌, ◌<◌, ◌≡◌, refl, ◌∙◌, ap, subst, true, update, update_self, arith,
}
use re_xvapor.Ipc.Sigset.{sig_gen_mask, sig_del_set_mask}
use re_xvapor.Ipc.Signal.{
  Tcb, Sigaction, Trapframe, RtSigframe, Platform, get_sigframe, enter_handler, signal_frame_setup,
  setup_rt_frame, signal_frame_restore, sys_sigreturn,
}

module _ (os : Platform) where
  -- The frame lies below the stack pointer, with room for all of it, and is aligned to 16 bytes.
  pub get_sigframe_bounds :
      (tf : Trapframe)
      → os.framesize + 16 ≤ tf.sp
      → tf.sp < 2 ^ 64
      → let frame = get_sigframe os tf in
        (frame % 16 ≡ 0) × (frame + os.framesize ≤ tf.sp) × (tf.sp < frame + os.framesize + 16)
  unfolding get_sigframe
  get_sigframe_bounds tf room word = (omega arith, omega arith, omega arith)

  -- What is in the frame.
  abbrev saved : ℕ → ℕ → Tcb → RtSigframe
  saved frame signo t = record (t.stack frame) {
    tf = t.trapframe;
    uc_sigmask = t.blocked;
    sigprocessing = signo;
    riscv_pc = 0;
  }

  -- The copies between kernel and user that concern the frame all succeed.
  abbrev pub Copies : ℕ → Type 0
  Copies frame =
      (os.copyout (frame + os.uc_offset) ≡ true)
      × (os.copyout (frame + os.riscv_offset) ≡ true)
      × (os.copyin (frame + os.uc_offset) ≡ true)
      × (os.copyin (frame + os.riscv_offset) ≡ true)

  abbrev entered : Sigaction → ℕ → ℕ → Tcb → Tcb
  entered act signo frame t = record t {
    stack = update t.stack frame (saved frame signo t);
    trapframe = enter_handler os act signo frame t.trapframe;
  }

  frame_setup_lem :
      (frame signo : ℕ) (t : Tcb)
      → Copies frame
      → signal_frame_setup os frame signo t
        ≡ (true, record t { stack = update t.stack frame (saved frame signo t) })
  unfolding signal_frame_setup
  frame_setup_lem frame signo t c = rw (c.0, c.1) refl

  setup_lem :
      (act : Sigaction) (signo : ℕ) (t : Tcb)
      → Copies (get_sigframe os t.trapframe)
      → setup_rt_frame os act signo t ≡ (true, entered act signo (get_sigframe os t.trapframe) t)
  unfolding setup_rt_frame
  setup_lem act signo t c = rw (frame_setup_lem (get_sigframe os t.trapframe) signo t c) refl

  abbrev returned : RtSigframe → Tcb → Tcb
  returned uc t = record t {
    blocked = uc.uc_sigmask;
    trapframe = uc.tf;
    sig_processing = uc.sigprocessing;
  }

  restore_lem :
      (frame : ℕ) (t : Tcb)
      → Copies frame
      → (t.stack frame).riscv_pc ≡ 0
      → signal_frame_restore os frame t ≡ (true, returned (t.stack frame) t)
  unfolding signal_frame_restore
  restore_lem frame t c e = rw (c.2, c.3, e) refl

  -- The thread as the handler leaves it: anything may have changed but the stack pointer and the frame.
  pub record IsLeft (entry exit : Tcb) : Type 0 where
    pub same_sp : exit.trapframe.sp ≡ entry.trapframe.sp
    pub same_frame : exit.stack entry.trapframe.sp ≡ entry.stack entry.trapframe.sp

  pub record Resumed (signo : ℕ) (t v s : Tcb) : Type 0 where
    pub registers : s.trapframe ≡ t.trapframe
    pub mask : s.blocked ≡ t.blocked
    pub last : s.sig_processing ≡ signo
    pub pending : s.signal ≡ sig_del_set_mask v.signal (sig_gen_mask signo)
    pub same_stack : s.stack ≡ v.stack
    pub same_list : s.list ≡ v.list

  sigreturn_lem :
      (signo : ℕ) (t v : Tcb)
      → Copies v.trapframe.sp
      → v.stack v.trapframe.sp ≡ saved v.trapframe.sp signo t
      → ((sys_sigreturn os v).0 ≡ t.trapframe.a0) × Resumed signo t v (sys_sigreturn os v).1
  unfolding sys_sigreturn
  sigreturn_lem signo t v c e =
      let pc : (v.stack v.trapframe.sp).riscv_pc ≡ 0 = ap RtSigframe.riscv_pc e in
      let uc : (v.stack v.trapframe.sp).tf ≡ t.trapframe = ap RtSigframe.tf e in
      let mask : (v.stack v.trapframe.sp).uc_sigmask ≡ t.blocked = ap RtSigframe.uc_sigmask e in
      let no : (v.stack v.trapframe.sp).sigprocessing ≡ signo = ap RtSigframe.sigprocessing e in
      rw (restore_lem v.trapframe.sp v c pc, sys_sigreturn)
        (
          (ap Trapframe.a0 uc),
          record {
            registers = uc;
            mask = mask;
            last = no;
            pending = ap (λ n. sig_del_set_mask v.signal (sig_gen_mask n)) no;
            same_stack = refl;
            same_list = refl;
          },
        )

  -- Where the copies succeed, delivery enters the handler with the signal's number. When the handler
  -- returns, with stack pointer and frame as it got them, sigreturn restores all registers and the
  -- mask that the thread had, and takes the signal out of the pending set as it is then; its result
  -- is the restored a0.
  pub sys_sigreturn-setup_rt_frame :
      (act : Sigaction) (signo : ℕ) (t v : Tcb)
      → Copies (get_sigframe os t.trapframe)
      → IsLeft (setup_rt_frame os act signo t).1 v
      → let (ok, u) = setup_rt_frame os act signo t in
        (ok ≡ true)
        × (u.trapframe.epc ≡ act.sa_handler)
        × (u.trapframe.a0 ≡ signo)
        × ((sys_sigreturn os v).0 ≡ t.trapframe.a0)
        × Resumed signo t v (sys_sigreturn os v).1
  sys_sigreturn-setup_rt_frame act signo t v c h =
      let frame = get_sigframe os t.trapframe in
      let now = setup_lem act signo t c in
      let left = subst (λ r. IsLeft r.1 v) now h in
      let sp : v.trapframe.sp ≡ frame = left.same_sp in
      let there : v.stack frame ≡ saved frame signo t =
        left.same_frame ∙ update_self t.stack frame (saved frame signo t) in
      let back = sigreturn_lem signo t v (rw sp c) (rw sp there) in
      rw now (refl, refl, refl, back.0, back.1)
