-- ===== src/Ipc/Pipe.antt =====
-- Pipes, kernel/ipc/pipe.c. A function is one stretch of a call during which pi->lock is held: from
-- its start, or from the return of thread_sleep, to its end or to the next thread_sleep.
-- A byte count is an `int` that is not negative (one that is counts as 0 in both loops).
-- `copyin i` is what either_copyin reads at addr + i (`none` for -1), `copyout i ch` is true if
-- either_copyout stores the byte at addr + i, and `killed i` is what proc_killed says in round i.
pub mod Contents
pub mod Write
pub mod Read
pub mod Stream
pub mod Ends
mod Tests
use re_xvapor.Base.{
  ℕ, zero, suc, ◌+◌, ◌%◌, ◌^◌, Bool, true, false, not, ◌&&◌, ◌||◌, Option, none, some, List, [],
  ◌∷◌, update, ◌==◌, if◌then◌else◌,
}
use re_xvapor.Fs.File.{File, fd_pipe, set_readable, set_writable, unset_readable, unset_writable}

abbrev pub pipesize : ℕ
pipesize = 512

-- The two counters are `uint`s, and wrap.
pub record Pipe : Type 0 where
  pub buf : ℕ → ℕ
  pub nread : ℕ
  pub nwrite : ℕ
  pub readopen : Bool
  pub writeopen : Bool

-- The pipe that pipealloc makes in a page with contents `buf`.
abbrev pub fresh : (ℕ → ℕ) → Pipe
fresh buf = record { buf = buf; nread = 0; nwrite = 0; readopen = true; writeopen = true }

-- A slot of the table of open files, and what is in it.
abbrev pub Slot : Type 0
Slot = ℕ × File

-- What pipealloc does with the files and the page that it gets: a pipe between two files, or -1
-- after closing the files that it had got.
pub data Alloc : Type 0 where
  made : Slot → Slot → Pipe → Alloc
  bad : List ℕ → Alloc

-- The two ends of the pipe at `pi`.
abbrev pub read_end : ℕ → File → File
read_end pi f = record f {
  type = fd_pipe;
  flags = unset_writable (set_readable f.flags);
  pipe = pi;
}

abbrev pub write_end : ℕ → File → File
write_end pi f = record f {
  type = fd_pipe;
  flags = set_writable (unset_readable f.flags);
  pipe = pi;
}

-- The second filealloc is called if the first succeeds, kalloc if both do; the page has its address and
-- its bytes.
pub pipealloc : Option Slot → Option Slot → Option (ℕ × (ℕ → ℕ)) → Alloc
pipealloc none second page = bad []
pipealloc (some f0) none page = bad (f0.0 ∷ [])
pipealloc (some f0) (some f1) none = bad (f0.0 ∷ f1.0 ∷ [])
pipealloc (some f0) (some f1) (some (pi, buf)) =
    made (f0.0, read_end pi f0.1) (f1.0, write_end pi f1.1) (fresh buf)

-- Close one end; true if the pipe's page is freed.
pub pipeclose : Bool → Pipe → Bool × Pipe
pipeclose writable p =
    let p' = if writable then record p { writeopen = false } else record p { readopen = false } in
    (not p'.readopen && not p'.writeopen, p')

-- How a stretch of pipewrite ends, with the number of bytes written so far: it returns that number
-- or -1, or it sleeps on &pi->nwrite. The first and the last wake the readers.
pub data Wrote : Type 0 where
  wrote write_failed write_sleeps : ℕ → Pipe → Wrote

abbrev pub put : ℕ → Pipe → Pipe
put ch p = record p {
  buf = update p.buf (p.nwrite % pipesize) ch;
  nwrite = (p.nwrite + 1) % 2 ^ 32;
}

-- `k` bytes are left to write, the next one is byte `i`.
pub pipewrite_from : (ℕ → Bool) → (ℕ → Option ℕ) → ℕ → ℕ → Pipe → Wrote
pipewrite_from killed copyin zero i p = wrote i p
pipewrite_from killed copyin (suc k) i p =
    let next : Wrote = elim (copyin i) [
      | none ↦ wrote i p
      | some ch ↦ pipewrite_from killed copyin k (i + 1) (put ch p)
    ] in
    if not p.readopen || killed i
    then write_failed i p
    else if p.nwrite == (p.nread + pipesize) % 2 ^ 32
    then write_sleeps i p
    else next

pub pipewrite : (ℕ → Bool) → (ℕ → Option ℕ) → ℕ → Pipe → Wrote
pipewrite killed copyin n p = pipewrite_from killed copyin n 0 p

-- How a stretch of piperead ends: it returns the number of bytes stored, which are listed, or -1,
-- or it sleeps on &pi->nread. The first wakes the writers.
pub data Got : Type 0 where
  got : ℕ → List ℕ → Pipe → Got
  read_failed read_sleeps : Pipe → Got

abbrev pub head_byte : Pipe → ℕ
head_byte p = p.buf (p.nread % pipesize)

abbrev pub skip_byte : Pipe → Pipe
skip_byte p = record p { nread = (p.nread + 1) % 2 ^ 32 }

abbrev pub prepend : ℕ → ℕ × List ℕ × Pipe → ℕ × List ℕ × Pipe
prepend ch (i, bytes, p) = (i, ch ∷ bytes, p)

-- The copying loop, with `k` rounds left: its count, the bytes stored from byte `i` on, the pipe.
pub piperead_from : (ℕ → ℕ → Bool) → ℕ → ℕ → Pipe → ℕ × List ℕ × Pipe
piperead_from copyout zero i p = (i, [], p)
piperead_from copyout (suc k) i p =
    let next =
      if copyout i (head_byte p)
      then prepend (head_byte p) (piperead_from copyout k (i + 1) (skip_byte p))
      else (i, [], skip_byte p) in
    if p.nread == p.nwrite then (i, [], p) else next

abbrev pub as_got : ℕ × List ℕ × Pipe → Got
as_got (i, bytes, p) = got i bytes p

pub piperead : Bool → (ℕ → ℕ → Bool) → ℕ → Pipe → Got
piperead killed copyout n p =
    if p.nread == p.nwrite && p.writeopen
    then (if killed then read_failed p else read_sleeps p)
    else as_got (piperead_from copyout n 0 p)
