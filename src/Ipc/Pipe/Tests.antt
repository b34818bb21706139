-- ===== src/Ipc/Pipe/Tests.antt =====
-- Runs of a pipe (ipc/pipe.c), one of them across the wrap of its counters, and the theorems at them.
use re_xvapor.Base.{
  ℕ, ◌+◌, ◌-◌, ◌^◌, ◌≡◌, refl, List, [], ◌∷◌, ◌++◌, true, false, Option, none, some, Bool, arith,
  ltb, if◌then◌else◌,
}
use re_xvapor.Ipc.Pipe.{
  Pipe, fresh, pipealloc, pipeclose, pipewrite, pipewrite_from, piperead, piperead_from, wrote, bad,
  put,
}
use re_xvapor.Fs.File.{File, fd_none, no_info, opened as fresh_file}
use re_xvapor.Ipc.Pipe.Contents.{contents, IsValid}
use re_xvapor.Ipc.Pipe.Write.{Writes, pipewrite_appends}
use re_xvapor.Ipc.Pipe.Read.{Reads, Writable, piperead-Reads}
use re_xvapor.Ipc.Pipe.Stream.{Stream, Step, Reach, pipe_fifo}

-- Empty, with both counters about to wrap.
abbrev late : Pipe
late = record (fresh (λ _. 0)) { nread = 2 ^ 32 - 1; nwrite = 2 ^ 32 - 1 }

-- The source holds 5, 6, 7, … and cannot be read from byte 3 on.
abbrev source_bytes : ℕ → Option ℕ
source_bytes i = if ltb i 3 then some (i + 5) else none

abbrev alive : ℕ → Bool
alive _ = false

abbrev filled : Pipe
filled = put 7 (put 6 (put 5 late))

wraps : pipewrite alive source_bytes 10 late ≡ wrote 3 filled
unfolding pipewrite pipewrite_from
wraps = refl

in_order : contents filled ≡ 5 ∷ 6 ∷ 7 ∷ []
in_order = refl

reads_two : piperead_from (λ _ _. true) 2 0 filled ≡ (2, 5 ∷ 6 ∷ [], record filled { nread = 1 })
unfolding piperead_from
reads_two = refl

abbrev blank : File
blank = record {
  type = fd_none;
  ref = 0;
  flags = 0;
  omode = 0;
  pipe = 0;
  ip = 0;
  off = 0;
  major = 0;
  fops = 0;
  private_data = 0;
  info = no_info;
  fpos = 0;
  dir = 0;
  removed = false;
  istmp = false;
}

second_file_missing : pipealloc (some (3, blank)) none none ≡ bad (3 ∷ [])
unfolding pipealloc
second_file_missing = refl

freed_with_both_ends : (pipeclose true (pipeclose false late).1).0 ≡ true
unfolding pipeclose
freed_with_both_ends = refl

late-IsValid : IsValid late
late-IsValid = omega arith

filled-IsValid : IsValid filled
filled-IsValid = omega arith

always : Writable (λ _ _. true)
always i ch = refl

pipewrite_appends_example :
    (bytes : List ℕ) × Writes alive source_bytes 10 0 late
      (pipewrite_from alive source_bytes 10 0 late)
      bytes
pipewrite_appends_example = pipewrite_appends alive source_bytes 10 0 late late-IsValid

piperead-Reads_example : Reads (λ _ _. true) false 2 filled (piperead false (λ _ _. true) 2 filled)
piperead-Reads_example = piperead-Reads (λ _ _. true) false 2 filled always filled-IsValid

abbrev opened : Stream
opened = record { pipe = fresh (λ _. 0); sent = []; received = [] }

abbrev written : Stream
written = record {
  pipe = put 7 (put 6 (put 5 (fresh (λ _. 0))));
  sent = 5 ∷ 6 ∷ 7 ∷ [];
  received = [];
}

one_write : Reach opened written
unfolding pipewrite_from
one_write = Reach.next Reach.here (Step.writes alive source_bytes 10 0 refl refl refl)

pipe_fifo_example : written.received ++ contents written.pipe ≡ written.sent
pipe_fifo_example = pipe_fifo (λ _. 0) refl refl refl one_write
