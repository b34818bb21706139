-- ===== src/Fs/Log.antt =====
-- The redo log of the xv6 file system, kernel/fs/log.c, in a build with __USE_XV6FS.
-- A block is its 32-bit words. bread yields the cached copy of a block (`cache`); bwrite copies it
-- to the disk and records in `history` the disk that the write replaced, so that `disk ∷ history`
-- are the disks that a crash can leave. `outstanding` is the bit pattern of an `int`; `n` is a
-- count that is not negative, also where read_head takes it from the disk.
pub mod Head
pub mod Crash
pub mod Recovery
pub mod Commit
pub mod Frame
pub mod Atomic
pub mod Reserve
mod Tests
use re_xvapor.Base.{
  ℕ, zero, suc, ◌+◌, ◌-◌, ◌*◌, ◌%◌, ◌^◌, Bool, true, false, ◌&&◌, ◌||◌, Option, none, some, List,
  [], ◌∷◌, update, ltb, leb, ◌==◌, if◌then◌else◌,
}

abbrev pub maxopblocks : ℕ
maxopblocks = 10

abbrev pub logsize : ℕ
logsize = maxopblocks * 3

abbrev pub Block : Type 0
Block = ℕ → ℕ

-- `struct log` with `lh.n` and `lh.block` as `n` and `block`; the buffer cache and the disk of the
-- log's device; `pins` holds the references that bpin has added to each block's buffer.
pub record Log : Type 0 where
  pub start : ℕ
  pub size : ℕ
  pub dev : ℕ
  pub outstanding : ℕ
  pub committing : Bool
  pub n : ℕ
  pub block : ℕ → ℕ
  pub pins : ℕ → ℕ
  pub cache : ℕ → Block
  pub disk : ℕ → Block
  pub history : List (ℕ → Block)

pub record Superblock : Type 0 where
  pub logstart : ℕ
  pub nlog : ℕ

-- Change the cached copy of block `b` to `v`, then bwrite.
abbrev pub bwrite : ℕ → Block → Log → Log
bwrite b v s = record s {
  cache = update s.cache b v;
  disk = update s.disk b v;
  history = s.disk ∷ s.history;
}

abbrev pub bpin : ℕ → Log → Log
bpin b s = record s { pins = update s.pins b ((s.pins b + 1) % 2 ^ 32) }

-- The count is a `uint`.
abbrev pub bunpin : ℕ → Log → Log
bunpin b s = record s { pins = update s.pins b ((s.pins b + 2 ^ 32 - 1) % 2 ^ 32) }

-- The body of install_trans's loop.
abbrev pub install_one : ℕ → Bool → Log → Log
install_one tail recovering s =
    let dst = s.block tail in
    let s' = bwrite dst (s.cache (s.start + tail + 1)) s in if recovering then s' else bunpin dst s'

-- `k` rounds from index `tail` on.
pub install_from : ℕ → ℕ → Bool → Log → Log
install_from zero tail recovering s = s
install_from (suc k) tail recovering s =
    install_from k (tail + 1) recovering (install_one tail recovering s)

pub install_trans : Bool → Log → Log
install_trans recovering s = install_from s.n 0 recovering s

-- lh->block[i] is the word after lh->n and the `i` block numbers before it.
pub load_blocks : ℕ → ℕ → Block → (ℕ → ℕ) → ℕ → ℕ
load_blocks zero i hb block = block
load_blocks (suc k) i hb block = load_blocks k (i + 1) hb (update block i (hb (i + 1)))

pub store_blocks : ℕ → ℕ → (ℕ → ℕ) → Block → Block
store_blocks zero i block hb = hb
store_blocks (suc k) i block hb = store_blocks k (i + 1) block (update hb (i + 1) (block i))

pub read_head : Log → Log
read_head s =
    let hb = s.cache s.start in record s { n = hb 0; block = load_blocks (hb 0) 0 hb s.block }

pub write_head : Log → Log
write_head s = bwrite s.start (store_blocks s.n 0 s.block (update (s.cache s.start) 0 s.n)) s

pub recover_from_log : Log → Log
recover_from_log s = write_head (record (install_trans true (read_head s)) { n = 0 })

-- The panics of initlog are on a header larger than a block and on a null superblock.
pub initlog : ℕ → Superblock → Log → Log
initlog dev sb s = recover_from_log (record s { start = sb.logstart; size = sb.nlog; dev = dev })

-- The body of write_log's loop.
abbrev pub log_one : ℕ → Log → Log
log_one tail s = bwrite (s.start + tail + 1) (s.cache (s.block tail)) s

pub write_log_from : ℕ → ℕ → Log → Log
write_log_from zero tail s = s
write_log_from (suc k) tail s = write_log_from k (tail + 1) (log_one tail s)

pub write_log : Log → Log
write_log s = write_log_from s.n 0 s

pub commit : Log → Log
commit s =
    if ltb 0 s.n
    then write_head (record (install_trans false (write_head (write_log s))) { n = 0 })
    else s

-- One round of begin_op's loop: `none` sleeps, with the log as it was.
pub begin_op : Log → Option Log
begin_op s =
    if s.committing
    then none
    else (let reserved = (s.n + (s.outstanding + 1) * maxopblocks) % 2 ^ 32 in
        if ltb logsize reserved && ltb reserved (2 ^ 31)
        then none
        else some (record s { outstanding = (s.outstanding + 1) % 2 ^ 32 }))

-- The first critical section of end_op, with `do_commit`; `none` is panic("log.committing").
pub end_op_enter : Log → Option (Bool × Log)
end_op_enter s =
    if s.committing
    then none
    else (let left = (s.outstanding + 2 ^ 32 - 1) % 2 ^ 32 in
        if left == 0
        then some (true, record s { outstanding = left; committing = true })
        else some (false, record s { outstanding = left }))

-- What end_op does once `do_commit` is set.
pub end_op_commit : Log → Log
end_op_commit s = record (commit s) { committing = false }

-- The index of `b` among the block numbers from `i` on, or the index behind the last of them.
unfoldable pub find_block : ℕ → ℕ → (ℕ → ℕ) → ℕ → ℕ
find_block zero i block b = i
find_block (suc k) i block b =
    let rest = find_block k (i + 1) block b in if block i == b then i else rest

-- `none` is one of the two panics.
unfoldable pub log_write : ℕ → Log → Option Log
log_write b s =
    if leb logsize s.n || leb (s.size - 1) s.n
    then none
    else if s.outstanding == 0 || leb (2 ^ 31) s.outstanding
    then none
    else (let i = find_block s.n 0 s.block b in
        let s' = record s { block = update s.block i b } in
        some (if i == s.n then bpin b (record s' { n = s.n + 1 }) else s'))

-- A machine that starts with disk `d`, before initlog runs.
abbrev pub boot : (ℕ → Block) → Log
boot d = record {
  start = 0;
  size = 0;
  dev = 0;
  outstanding = 0;
  committing = false;
  n = 0;
  block = λ _. 0;
  pins = λ _. 0;
  cache = d;
  disk = d;
  history = [];
}
