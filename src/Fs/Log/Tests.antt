-- ===== src/Fs/Log/Tests.antt =====
-- A transaction of one block (fs/log.c), crashed and recovered, and the theorems at it.
use re_xvapor.Base.{
  ℕ, ◌≡◌, refl, sym, ◌≢◌, ◌⊎◌, inl, inr, [], ◌∷◌, none, false, arith, update, update_ne,
}
use re_xvapor.Fs.Log.{
  Log, Block, boot, initlog, recover_from_log, read_head, load_blocks, write_head, store_blocks,
  install_trans, install_from, write_log, write_log_from, commit, begin_op, log_write,
}
use re_xvapor.Fs.Log.Crash.{SameHome}
use re_xvapor.Fs.Log.Commit.{IsReady}
use re_xvapor.Fs.Log.Atomic.{Reboots, commit_atomic, commit_installs}
use re_xvapor.Fs.Log.Reserve.{Ops, Reach, Step, IsReserved, Reach-IsReserved, no_panic_in_budget}

abbrev sevens : Block
sevens = λ _. 7

-- Block 40 has been changed to sevens; the log area is blocks 2 to 32.
abbrev changed : Log
changed = record (boot (λ _ _. 0)) {
  start = 2;
  size = 31;
  n = 1;
  block = λ _. 40;
  cache = update (λ _ _. 0) 40 sevens;
}

-- The disk once block 40 is installed and the header not yet erased.
abbrev interrupted : ℕ → Block
interrupted = (install_trans false (write_head (write_log changed))).disk

abbrev rebooted : ℕ → Block
rebooted = (initlog 1 (record { logstart = 2; nlog = 31 }) (boot interrupted)).disk

-- The disk once the header is written, and what a recovery makes of it.
header_written : (write_head (write_log changed)).disk 2 0 ≡ 1
unfolding write_head write_log write_log_from store_blocks
header_written = refl

not_yet_home : (write_head (write_log changed)).disk 40 5 ≡ 0
unfolding write_head write_log write_log_from store_blocks
not_yet_home = refl

recovered_home :
    (initlog 1
        (record { logstart = 2; nlog = 31 })
        (boot (write_head (write_log changed)).disk)).disk
      40 5
    ≡ 7
unfolding initlog recover_from_log read_head load_blocks install_trans install_from write_head
    write_log write_log_from store_blocks
recovered_home = refl

changed-IsReady : IsReady changed
changed-IsReady = record {
  fresh = refl;
  fits = omega arith;
  homes = λ j h. inr (omega arith);
  empty = refl;
  clean = λ b home out. update_ne (λ _ _. 0) 40 b sevens (λ e. out 0 (omega arith) (sym e));
}

commit_atomic_example :
    SameHome 2 31 rebooted (λ _ _. 0) ⊎ SameHome 2 31 rebooted (update (λ _ _. 0) 40 sevens)
unfolding commit write_head
commit_atomic_example =
    commit_atomic changed 1 {d = interrupted} {r = rebooted} changed-IsReady (inr (inl refl))
      (Reboots.recovers refl)

commit_installs_example :
    SameHome 2 31 (commit changed).disk (update (λ _ _. 0) 40 sevens)
    × ((commit changed).disk 2 0 ≡ 0)
    × ((commit changed).n ≡ 0)
commit_installs_example = commit_installs changed changed-IsReady

abbrev idle : Ops
idle = record { log = record (boot (λ _ _. 0)) { start = 2; size = 31 }; budgets = [] }

abbrev begun : Ops
begun = record { log = record (idle.log) { outstanding = 1 }; budgets = 10 ∷ [] }

one_operation : Reach idle begun
unfolding begin_op
one_operation = Reach.next Reach.here (Step.begins refl refl)

Reach-IsReserved_example : IsReserved begun
Reach-IsReserved_example = Reach-IsReserved (refl, refl, refl) one_operation

no_panic_in_budget_example : log_write 40 begun.log ≢ none
no_panic_in_budget_example =
    no_panic_in_budget 40 9 [] [] (refl, refl, refl) one_operation (omega arith) refl
