-- ===== src/Fs/Xv6/Data.antt =====
-- Reading and writing a file's bytes, and directories, in the xv6 file system (fs/xv6fs.c). Kernel or
-- user memory is a function from addresses to bytes; `fails a m` says whether either_copyout or
-- either_copyin of `m` bytes at `a` fails, and behind how many bytes.
pub mod Bytes
pub mod Stored
pub mod Piece
pub mod Write
pub mod Writei
pub mod Read
pub mod Readi
pub mod Writes
pub mod Trans
pub mod Dirent
pub mod Lookup
use re_xvapor.Base.{
  ℕ, zero, suc, ◌+◌, ◌-◌, ◌*◌, ◌/◌, ◌%◌, ◌^◌, Bool, true, false, not, ◌&&◌, ◌||◌, Option, none,
  some, List, [], ◌∷◌, update, ltb, leb, ◌==◌, if◌then◌else◌,
}
use re_xvapor.Fs.File.{ndev}
use re_xvapor.Fs.Xv6.{Block, Volume, bsize, half_at, write_block}
use re_xvapor.Fs.Xv6.Inode.{Inode, bmap, iupdate}

abbrev pub maxfile : ℕ
maxfile = 140

abbrev pub Memory : Type 0
Memory = ℕ → ℕ

-- A copy of `m` bytes from block offset `o` to memory, and back.
abbrev pub to_memory : ℕ → ℕ → ℕ → Block → Memory → Memory
to_memory dst o m d b a = if leb dst a && ltb a (dst + m) then d (o + (a - dst)) else b a

abbrev pub to_block : ℕ → ℕ → ℕ → Memory → Block → Block
to_block src o m b d a = if leb o a && ltb a (o + m) then b (src + (a - o)) else d a

-- min(n - tot, BSIZE - off%BSIZE)
abbrev pub piece : ℕ → ℕ → ℕ
piece left off = if ltb left (bsize - off % bsize) then left else bsize - off % bsize

-- What a transfer leaves: the count, an int's pattern, the inode, the volume and the memory.
pub record Transfer : Type 0 where
  pub count : ℕ
  pub inode : Inode
  pub volume : Volume
  pub memory : Memory
  -- The offset that the loop reached.
  pub offset : ℕ

-- The loop of readi, on fuel, with `left` bytes to go; `none` is a panic of bmap.
unfoldable pub readi_from :
    (ℕ → ℕ → Option ℕ) → ℕ → ℕ → ℕ → ℕ → ℕ → Inode → Volume → Memory → Option Transfer
readi_from fails zero tot dst off left ip v b = none
readi_from fails (suc fuel) tot dst off left ip v b =
    let m = piece left off in
    let stop = λ (n : ℕ) (ip : Inode) (v : Volume) (b : Memory).
      some (record { count = n; inode = ip; volume = v; memory = b; offset = off }) in
    let next = λ (addr : ℕ) (ip : Inode) (v : Volume).
      readi_from fails fuel (tot + m) (dst + m) (off + m) (left - m) ip v
        (to_memory dst (off % bsize) m (v.block addr) b) in
    if left == 0 then stop tot ip v b else elim (bmap (off / bsize) ip v) [
      | none ↦ none
      | some r ↦ if r.0 == 0 then stop tot r.1 r.2 b else elim (fails dst m) [
        | none ↦ next r.0 r.1 r.2
        | some j ↦ stop (2 ^ 32 - 1) r.1 r.2 (to_memory dst (off % bsize) j (r.2.block r.0) b)
      ]
    ]

-- off + n is a uint. A round moves a byte at least, so the fuel lasts.
unfoldable pub readi : (ℕ → ℕ → Option ℕ) → ℕ → ℕ → ℕ → Inode → Volume → Memory → Option Transfer
unfolding readi_from
readi fails dst off n ip v b =
    let last = (off + n) % 2 ^ 32 in
    let left = if ltb ip.size last then ip.size - off else n in
    if ltb ip.size off || ltb last off
    then some (record { count = 0; inode = ip; volume = v; memory = b; offset = off })
    else readi_from fails (left + 1) 0 dst off left ip v b

-- The cached block where either_copyin failed behind `j` bytes; it is not logged.
abbrev spoil_block : ℕ → ℕ → ℕ → ℕ → Memory → Volume → Volume
spoil_block addr src o j b v = record v {
  block = update v.block addr (to_block src o j b (v.block addr));
}

unfoldable pub writei_from :
    (ℕ → ℕ → Option ℕ) → ℕ → ℕ → ℕ → ℕ → ℕ → Inode → Volume → Memory → Option Transfer
writei_from fails zero tot src off left ip v b = none
writei_from fails (suc fuel) tot src off left ip v b =
    let m = piece left off in
    let stop = λ (ip : Inode) (v : Volume).
      some (record { count = tot; inode = ip; volume = v; memory = b; offset = off }) in
    let next = λ (addr : ℕ) (ip : Inode) (v : Volume).
      writei_from fails fuel (tot + m) (src + m) (off + m) (left - m) ip
        (write_block addr (to_block src (off % bsize) m b (v.block addr)) v) b in
    if left == 0 then stop ip v else elim (bmap (off / bsize) ip v) [
      | none ↦ none
      | some r ↦ if r.0 == 0 then stop r.1 r.2 else elim (fails src m) [
        | none ↦ next r.0 r.1 r.2
        | some j ↦ stop r.1 (spoil_block r.0 src (off % bsize) j b r.2)
      ]
    ]

-- The size of a file that grew, and iupdate.
unfoldable pub finish_write : Transfer → Transfer
finish_write t =
    let ip = if ltb t.inode.size t.offset then record (t.inode) { size = t.offset } else t.inode in
    record t { inode = ip; volume = iupdate ip t.volume }

-- The write functions of devsw, by major number: of a source and a count, to an int's pattern.
abbrev pub Devices : Type 0
Devices = ℕ → Option (ℕ → ℕ → ℕ)

-- The branch for T_DEVICE; `major` is the short as 16 bits.
unfoldable pub device_write : Devices → ℕ → ℕ → ℕ → ℕ
device_write devsw major src n =
    if leb (2 ^ 15) major || leb ndev major
    then 2 ^ 32 - 1
    else elim (devsw major) [ none ↦ 2 ^ 32 - 1 | some write ↦ write src n ]

unfoldable pub writei :
    Devices → (ℕ → ℕ → Option ℕ) → ℕ → ℕ → ℕ → Inode → Volume → Memory → Option Transfer
unfolding writei_from finish_write device_write
writei devsw fails src off n ip v b =
    let last = (off + n) % 2 ^ 32 in
    if ip.type == 17
    then some (record {
      count = device_write devsw ip.major src n;
      inode = ip;
      volume = v;
      memory = b;
      offset = off;
    })
    else if (ltb ip.size off || ltb last off) || ltb (maxfile * bsize) last
    then some (record { count = 2 ^ 32 - 1; inode = ip; volume = v; memory = b; offset = off })
    else elim (writei_from fails (n + 1) 0 src off n ip v b) [
      | none ↦ none
      | some t ↦ some (finish_write t)
    ]

-- A directory entry: an inode number and 14 bytes of name.
abbrev pub dirent_size : ℕ
dirent_size = 16

-- strncmp(s, t, DIRSIZ) == 0
unfoldable pub same_name : ℕ → Memory → Memory → ℕ → ℕ → Bool
same_name zero s t i j = true
same_name (suc n) s t i j =
    let rest = same_name n s t (i + 1) (j + 1) in
    if not (s i == t j) then false else if s i == 0 then true else rest

-- The entry at `off` in a buffer of its own; `none` is a panic. A read may fill a hole.
unfoldable pub read_dirent : ℕ → Inode → Volume → Option (Memory × Inode × Volume)
read_dirent off dp v = elim (readi (λ a m. none) 0 off dirent_size dp v (λ a. 0)) [
  | none ↦ none
  | some t ↦ if t.count == dirent_size then some (t.memory, t.inode, t.volume) else none
]

-- The loop of dirlookup, on fuel: the offset and the number of the entry named by `name`.
unfoldable pub dirlookup_from :
    Memory → ℕ → ℕ → Inode → Volume → Option (Option (ℕ × ℕ) × Inode × Volume)
dirlookup_from name zero off dp v = none
dirlookup_from name (suc fuel) off dp v =
    let next = λ (dp : Inode) (v : Volume). dirlookup_from name fuel (off + dirent_size) dp v in
    if leb dp.size off then some (none, dp, v) else elim (read_dirent off dp v) [
      | none ↦ none
      | some r ↦
          if half_at r.0 0 == 0
          then next r.1 r.2
          else if same_name 14 name r.0 0 2
          then some (some (off, half_at r.0 0), r.1, r.2)
          else next r.1 r.2
    ]

-- T_FILE is 16 and T_DEVICE 17.
unfoldable pub dirlookup : Memory → Inode → Volume → Option (Option (ℕ × ℕ) × Inode × Volume)
dirlookup name dp v =
    if dp.type == 16 || dp.type == 17
    then none
    else dirlookup_from name (dp.size / dirent_size + 2) 0 dp v

unfoldable pub empty_from : ℕ → ℕ → Inode → Volume → Option (Bool × Inode × Volume)
empty_from zero off dp v = none
empty_from (suc fuel) off dp v =
    let next = λ (dp : Inode) (v : Volume). empty_from fuel (off + dirent_size) dp v in
    if leb dp.size off then some (true, dp, v) else elim (read_dirent off dp v) [
      | none ↦ none
      | some r ↦ if not (half_at r.0 0 == 0) then some (false, r.1, r.2) else next r.1 r.2
    ]

-- From the third entry on.
unfoldable pub isdirempty : Inode → Volume → Option (Bool × Inode × Volume)
isdirempty dp v = empty_from (dp.size / dirent_size + 2) (2 * dirent_size) dp v

-- An entry of zeros; `false` is -1.
unfoldable pub unlink : Devices → ℕ → Inode → Volume → Option (Bool × Inode × Volume)
unfolding writei
unlink devsw off dp v = elim (writei devsw (λ a m. none) 0 off dirent_size dp v (λ a. 0)) [
  | none ↦ none
  | some t ↦ some (t.count == dirent_size, t.inode, t.volume)
]
