-- ===== src/Fs/File/Tests.antt =====
-- A file is opened, its handle copied, and both are closed.
use re_xvapor.Base.{
  ℕ, ◌-◌, ◌^◌, ◌<◌, ◌≡◌, ◌≢◌, refl, true, false, Option, none, some, List, [], ◌∷◌, ◌++◌, update,
  arith, Bool, if◌then◌else◌,
}
use re_xvapor.Fs.File.{
  fd_none, fd_pipe, File, Ftable, Call, opens, pipe_close, opened, no_info, alloc_from, filealloc,
  filedup, close_calls, pipe_calls, close_slot, fileclose, fileread, filewrite,
}
use re_xvapor.Fs.File.Counts.{
  System, allocates, duplicates, stores, Reach, starts, steps, Reach-handles,
}

abbrev blank : File
blank = record {
  type = fd_none;
  ref = 0;
  flags = 0;
  omode = 0;
  pipe = 0;
  ip = 0;
  off = 0;
  major = 0;
  fops = 0;
  private_data = 0;
  info = no_info;
  fpos = 0;
  dir = 0;
  removed = false;
  istmp = false;
}

abbrev table : Ftable
table i = blank

abbrev ext4 : Option (ℕ × ℕ)
ext4 = some (7, 8)

abbrev one_open : System
one_open = record { ft = update table 0 (opened (7, 8) blank); held = update (λ i. 0) 0 1 }

-- The write end of the pipe 5.
abbrev pipe_end : File
pipe_end = record (opened (7, 8) blank) { type = fd_pipe; pipe = 5; flags = 1 }

abbrev as_pipe : System
as_pipe = record { ft = update one_open.ft 0 pipe_end; held = one_open.held }

abbrev two_handles : System
two_handles = record {
  ft = update as_pipe.ft 0 (record pipe_end { ref = 2 });
  held = update as_pipe.held 0 2;
}

first_open : filealloc ext4 table ≡ opens 0 one_open.ft
unfolding filealloc alloc_from
first_open = refl

copied : filedup 0 as_pipe.ft ≡ some two_handles.ft
unfolding filedup
copied = refl

two_handles-Reach : Reach ext4 table two_handles
two_handles-Reach =
    steps as_pipe two_handles
      (steps one_open as_pipe (steps _ one_open starts (allocates 0 one_open.ft first_open refl))
        (stores 0 pipe_end (omega arith) refl refl))
      (duplicates 0 two_handles.ft (omega arith) (omega arith) copied refl)

Reach-handles_example :
    ((i : ℕ) (ft' : Ftable) → filealloc ext4 two_handles.ft ≡ opens i ft' → two_handles.held i ≡ 0)
    × ((i : ℕ) → 0 < two_handles.held i → filedup i two_handles.ft ≢ none)
    × ((i cnt : ℕ) (drop : Bool)
        → cnt < 2 ^ 31
        → (drop ≡ true → 0 < cnt)
        → (1 < two_handles.held i
            → (ft' : Ftable) × (fileclose i drop cnt two_handles.ft
                ≡ some (cnt - (if drop then 1 else 0), ft', []))
              × ((ft' i).ref ≡ two_handles.held i - 1))
          × (two_handles.held i ≡ 1
              → (ft' : Ftable) × (fileclose i drop cnt two_handles.ft
                  ≡ some (
                    cnt - (if drop then 1 else 0),
                    ft',
                    close_calls i (two_handles.ft i) ++ pipe_calls (two_handles.ft i),
                  ))
                × ((ft' i).ref ≡ 0)))
    × ((i : ℕ) → fileclose i true 0 two_handles.ft ≡ none)
Reach-handles_example = Reach-handles ext4 table (λ i. refl) two_handles two_handles-Reach

-- The last close of the write end closes it in the pipe.
abbrev calls_of : Option (ℕ × Ftable × List Call) → ℕ × List Call
calls_of o = elim o [ none ↦ (0, []) | some r ↦ (r.0, r.2) ]

last_close : calls_of (fileclose 0 true 3 as_pipe.ft) ≡ (2, pipe_close 5 true ∷ [])
unfolding fileclose close_slot
last_close = refl

not_last : calls_of (fileclose 0 true 3 two_handles.ft) ≡ (2, [])
unfolding fileclose close_slot
not_last = refl

write_only : fileread (λ d. true) (λ c. 4) 0 pipe_end ≡ some (2 ^ 64 - 1)
unfolding fileread
write_only = refl

writes_pipe : filewrite (λ d. true) (λ c. 4) 0 pipe_end ≡ some 4
unfolding filewrite
writes_pipe = refl
