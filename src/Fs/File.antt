-- ===== src/Fs/File.antt =====
-- Open files, kernel/fs/file.c: the table with its reference counts, and the choice of the function
-- that reads or writes. Each of filealloc, filedup and fileclose is one critical section of the
-- table's lock. The calls of the file system and of the pipe are recorded as values; they leave the
-- fields of the table that the code reads afterwards as they are.
pub mod Slots
pub mod Counts
mod Tests
use re_xvapor.Base.{
  ℕ, zero, suc, ◌+◌, ◌-◌, ◌*◌, ◌/◌, ◌%◌, ◌^◌, Bool, true, false, not, ◌&&◌, ◌||◌, Option, none,
  some, List, [], ◌∷◌, ◌++◌, update, ltb, leb, ◌==◌, if◌then◌else◌,
}
use re_xvapor.Mm.Kalloc.{sign_extend}

abbrev pub nfile : ℕ
nfile = 1024

abbrev pub ndev : ℕ
ndev = 10

pub data FileType : Type 0 where
  fd_none : FileType
  fd_pipe : FileType
  fd_inode : FileType
  fd_device : FileType
  fd_softlink : FileType
  fd_socket : FileType
  fd_dir : FileType
  fd_spec : FileType

pub record FileInfo : Type 0 where
  pub path : List ℕ
  pub fs : ℕ
  pub data_ptr : ℕ

-- Pointers are addresses, 0 for NULL; `major` is the short as 16 bits.
pub record File : Type 0 where
  pub type : FileType
  pub ref : ℕ
  pub flags : ℕ
  pub omode : ℕ
  pub pipe : ℕ
  pub ip : ℕ
  pub off : ℕ
  pub major : ℕ
  pub fops : ℕ
  pub private_data : ℕ
  pub info : FileInfo
  pub fpos : ℕ
  pub dir : ℕ
  pub removed : Bool
  pub istmp : Bool

abbrev pub Ftable : Type 0
Ftable = ℕ → File

-- A call out of fileclose.
pub data Call : Type 0 where
  fops_close : ℕ → Call
  fsops_unlink : ℕ → List ℕ → Call
  fops_cleansf : ℕ → Call
  pipe_close : ℕ → Bool → Call

abbrev pub is_readable : ℕ → Bool
is_readable flags = not (flags % 4 == 1)

abbrev pub is_writable : ℕ → Bool
is_writable flags = not (flags % 4 == 0)

-- flags & ~O_ACCMODE
abbrev pub without_mode : ℕ → ℕ
without_mode flags = flags - flags % 4

-- The macros that change the access mode: 0 is O_RDONLY, 1 O_WRONLY and 2 O_RDWR.
abbrev pub set_readable : ℕ → ℕ
set_readable flags =
    if flags % 4 == 1
    then without_mode flags + 2
    else if flags % 4 == 0
    then without_mode flags
    else flags

abbrev pub set_writable : ℕ → ℕ
set_writable flags =
    if flags % 4 == 0
    then without_mode flags + 2
    else if flags % 4 == 0
    then without_mode flags + 1
    else flags

abbrev pub unset_readable : ℕ → ℕ
unset_readable flags =
    if flags % 4 == 0
    then without_mode flags
    else if flags % 4 == 2
    then without_mode flags + 1
    else flags

abbrev pub unset_writable : ℕ → ℕ
unset_writable flags =
    if flags % 4 == 1
    then without_mode flags
    else if flags % 4 == 2
    then without_mode flags
    else flags

-- f->ref < 1
abbrev pub unreferenced : ℕ → Bool
unreferenced ref = ref == 0 || leb (2 ^ 31) ref

-- The fields that filealloc sets; `fs` is the file system and its operations.
abbrev pub opened : ℕ × ℕ → File → File
opened fs f = record f {
  ref = 1;
  fops = fs.1;
  private_data = 0;
  flags = 0;
  omode = 0;
  info = record (f.info) { fs = fs.0 };
  fpos = 0;
  istmp = false;
}

abbrev pub no_info : FileInfo
no_info = record { path = []; fs = 0; data_ptr = 0 }

abbrev pub closed : File → File
closed f = record f {
  ref = 0;
  flags = 0;
  omode = 0;
  type = fd_none;
  fops = 0;
  fpos = 0;
  private_data = 0;
  info = no_info;
  dir = 0;
}

pub data Alloc : Type 0 where
  opens : ℕ → Ftable → Alloc
  full : Alloc
  no_fs : Alloc

-- The loop of filealloc with `n` slots left, `i` the next one. `fs` is what getfs returns.
pub alloc_from : Option (ℕ × ℕ) → ℕ → ℕ → Ftable → Alloc
alloc_from fs zero i ft = full
alloc_from fs (suc n) i ft =
    let rest = alloc_from fs n (i + 1) ft in
    if (ft i).ref == 0
    then elim fs [ none ↦ no_fs | some ops ↦ opens i (update ft i (opened ops (ft i))) ]
    else rest

pub filealloc : Option (ℕ × ℕ) → Ftable → Alloc
unfolding alloc_from
filealloc fs ft = alloc_from fs nfile 0 ft

-- `none` is a panic.
pub filedup : ℕ → Ftable → Option Ftable
filedup i ft =
    if unreferenced (ft i).ref
    then none
    else some (update ft i (record (ft i) { ref = ((ft i).ref + 1) % 2 ^ 32 }))

-- The calls before the slot is cleared, and the one behind the lock.
abbrev pub close_calls : ℕ → File → List Call
close_calls i f =
    if not (f.private_data == 0)
    then fops_close i
      ∷ ((if f.istmp then fsops_unlink f.info.fs f.info.path ∷ [] else []) ++ fops_cleansf i ∷ [])
    else []

abbrev pub pipe_calls : File → List Call
pipe_calls f = elim f.type [
  | fd_none ↦ []
  | fd_pipe ↦ pipe_close f.pipe (is_writable f.flags) ∷ []
  | fd_inode ↦ []
  | fd_device ↦ []
  | fd_softlink ↦ []
  | fd_socket ↦ []
  | fd_dir ↦ []
  | fd_spec ↦ []
]

-- From the acquire on.
pub close_slot : ℕ → Ftable → Option (Ftable × List Call)
close_slot i ft =
    let left = ((ft i).ref + (2 ^ 32 - 1)) % 2 ^ 32 in
    if unreferenced (ft i).ref
    then none
    else if ltb 0 left && ltb left (2 ^ 31)
    then some (update ft i (record (ft i) { ref = left }), [])
    else some (update ft i (closed (ft i)), close_calls i (ft i) ++ pipe_calls (ft i))

-- `cnt` is the process's ofile_cnt, an int.
pub fileclose : ℕ → Bool → ℕ → Ftable → Option (ℕ × Ftable × List Call)
unfolding close_slot
fileclose i drop_ofile_cnt cnt ft =
    let cnt' = if drop_ofile_cnt then (cnt + (2 ^ 32 - 1)) % 2 ^ 32 else cnt in
    if leb (2 ^ 31) cnt'
    then none
    else elim (close_slot i ft) [ none ↦ none | some r ↦ some (cnt', r.0, r.1) ]

-- What fileread and filewrite call, by the pipe, the device or the slot.
pub data Callee : Type 0 where
  pipe_callee : ℕ → Callee
  device_callee : ℕ → Callee
  file_callee : ℕ → Callee
  spec_callee : ℕ → Callee

-- `has` is whether devsw of a device has the function.
abbrev pub no_device : (ℕ → Bool) → ℕ → Bool
no_device has major = leb (2 ^ 15) major || (leb ndev major || not (has major))

-- `run` gives what the callee returns, an int, and for files and special files the count that read
-- stores. The result is a size_t; `none` is a panic.
unfoldable pub fileread : (ℕ → Bool) → (Callee → ℕ) → ℕ → File → Option ℕ
fileread has run i f = if not (is_readable f.flags) then some (2 ^ 64 - 1) else elim f.type [
  | fd_none ↦ none
  | fd_pipe ↦ some (sign_extend (run (pipe_callee f.pipe)))
  | fd_inode ↦ some (run (file_callee i))
  | fd_device ↦
      if no_device has f.major
      then some (2 ^ 64 - 1)
      else some (sign_extend (run (device_callee f.major)))
  | fd_softlink ↦ none
  | fd_socket ↦ none
  | fd_dir ↦ none
  | fd_spec ↦ some (run (spec_callee i))
]

-- Here `run` gives for a file the count that write stores, and for a special file what write returns.
-- The result is an int.
unfoldable pub filewrite : (ℕ → Bool) → (Callee → ℕ) → ℕ → File → Option ℕ
filewrite has run i f = if not (is_writable f.flags) then some (2 ^ 32 - 1) else elim f.type [
  | fd_none ↦ none
  | fd_pipe ↦ some (run (pipe_callee f.pipe))
  | fd_inode ↦
      some (if ltb 0 (run (file_callee i)) then run (file_callee i) % 2 ^ 32 else 2 ^ 32 - 1)
  | fd_device ↦
      if no_device has f.major then some (2 ^ 32 - 1) else some (run (device_callee f.major))
  | fd_softlink ↦ none
  | fd_socket ↦ none
  | fd_dir ↦ none
  | fd_spec ↦ some (run (spec_callee i))
]

-- The comparison with the limit is in 64 bits, and the count is an int.
pub is_exc_rcfile : ℕ → ℕ → Bool
is_exc_rcfile cnt rlim_cur = leb rlim_cur (sign_extend cnt) || (ltb cnt (2 ^ 31) && leb 256 cnt)
