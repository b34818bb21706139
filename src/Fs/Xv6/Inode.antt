-- ===== src/Fs/Xv6/Inode.antt =====
-- Inodes of the xv6 file system (fs/xv6fs.c): their place on disk, and the map from a file's blocks to
-- the disk's. An inode in core is a value; the lock of the inode and the cache of inodes are not here.
pub mod Map
pub mod Grow
pub mod Addr
pub mod Entry
pub mod Bmap
pub mod Leak
pub mod Disk
pub mod Trunc
pub mod Itrunc
pub mod Truncated
use re_xvapor.Base.{
  ℕ, zero, suc, ◌+◌, ◌-◌, ◌*◌, ◌/◌, ◌%◌, ◌^◌, Bool, true, false, not, ◌&&◌, ◌||◌, Option, none,
  some, List, [], ◌∷◌, update, ltb, leb, ◌==◌, if◌then◌else◌,
}
use re_xvapor.Fs.Xv6.{
  Block, Volume, Superblock, word_at, half_at, set_word, set_half, write_block, balloc, bfree,
}

abbrev pub ndirect : ℕ
ndirect = 12

abbrev pub nindirect : ℕ
nindirect = 128

-- Inodes per block.
abbrev pub ipb : ℕ
ipb = 8

-- The fields of `struct inode` and of its xv6fs_inode.
pub record Inode : Type 0 where
  pub inum : ℕ
  pub valid : Bool
  pub type : ℕ
  pub major : ℕ
  pub minor : ℕ
  pub nlink : ℕ
  pub size : ℕ
  pub addrs : ℕ → ℕ

abbrev pub iblock : ℕ → Superblock → ℕ
iblock i sb = i / ipb + sb.inodestart

-- The offset of an xv6fs_dinode in its block.
abbrev pub dinode_at : ℕ → ℕ
dinode_at inum = inum % ipb * 64

-- memset(dip, 0, sizeof(*dip))
abbrev pub clear_dinode : ℕ → Block → Block
clear_dinode at d a = if leb at a && ltb a (at + 64) then 0 else d a

-- The loop of ialloc from `inum` on, with `n` inodes left; the result is the number that iget gets.
unfoldable pub ialloc_from : ℕ → ℕ → ℕ → Volume → Option (ℕ × Volume)
ialloc_from zero inum type v = none
ialloc_from (suc n) inum type v =
    let rest = ialloc_from n (inum + 1) type v in
    let b = iblock inum v.sb in
    let at = dinode_at inum in
    if half_at (v.block b) at == 0
    then some (inum, write_block b (set_half at type (clear_dinode at (v.block b))) v)
    else rest

unfoldable pub ialloc : ℕ → Volume → Option (ℕ × Volume)
unfolding ialloc_from
ialloc type v = ialloc_from (v.sb.ninodes - 1) 1 type v

-- memmove between the addresses in core and on disk, `n` of them left.
unfoldable pub store_addrs : ℕ → ℕ → ℕ → (ℕ → ℕ) → Block → Block
store_addrs zero i at addrs d = d
store_addrs (suc n) i at addrs d =
    store_addrs n (i + 1) at addrs (set_word (at + 12 + 4 * i) (addrs i) d)

-- The fields of an xv6fs_dinode at `at`.
unfoldable pub put_dinode : ℕ → Inode → Block → Block
unfolding store_addrs
put_dinode at ip d =
    let d1 = set_half at ip.type d in
    let d2 = set_half (at + 2) ip.major d1 in
    let d3 = set_half (at + 4) ip.minor d2 in
    let d4 = set_half (at + 6) ip.nlink d3 in
    let d5 = set_word (at + 8) ip.size d4 in store_addrs 13 0 at ip.addrs d5

unfoldable pub iupdate : Inode → Volume → Volume
iupdate ip v =
    let b = iblock ip.inum v.sb in write_block b (put_dinode (dinode_at ip.inum) ip (v.block b)) v

-- ilock of an inode with a reference, behind acquiresleep; `none` is a panic.
unfoldable pub ilock : Inode → Volume → Option Inode
ilock ip v =
    let d = v.block (iblock ip.inum v.sb) in
    let at = dinode_at ip.inum in
    if ip.valid
    then some ip
    else if half_at d at == 0
    then none
    else some (record {
      inum = ip.inum;
      valid = true;
      type = half_at d at;
      major = half_at d (at + 2);
      minor = half_at d (at + 4);
      nlink = half_at d (at + 6);
      size = word_at d (at + 8);
      addrs = λ i. if ltb i 13 then word_at d (at + 12 + 4 * i) else ip.addrs i;
    })

abbrev pub with_addr : ℕ → ℕ → Inode → Inode
with_addr i a ip = record ip { addrs = update ip.addrs i a }

-- The entry `i` of the indirect block `ind`, which is allocated twice over if it is missing: the
-- second block is stored.
unfoldable pub bmap_entry : Inode → ℕ → ℕ → Volume → Option (ℕ × Inode × Volume)
bmap_entry ip ind i v =
    let old = word_at (v.block ind) (4 * i) in
    if not (old == 0) then some (old, ip, v) else elim (balloc v) [
      | none ↦ none
      | some first ↦ if first.0 == 0 then some (0, ip, first.1) else elim (balloc first.1) [
        | none ↦ none
        | some second ↦ some (
          second.0,
          ip,
          write_block ind (set_word (4 * i) second.0 (second.1.block ind)) second.1,
        )
      ]
    ]

-- `none` is a panic.
unfoldable pub bmap : ℕ → Inode → Volume → Option (ℕ × Inode × Volume)
bmap bn ip v =
    if ltb bn ndirect
    then (if not (ip.addrs bn == 0)
        then some (ip.addrs bn, ip, v)
        else elim (balloc v) [ none ↦ none | some r ↦ some (r.0, with_addr bn r.0 ip, r.1) ])
    else if ltb (bn - ndirect) nindirect
    then (if not (ip.addrs ndirect == 0)
        then bmap_entry ip (ip.addrs ndirect) (bn - ndirect) v
        else elim (balloc v) [
          | none ↦ none
          | some r ↦
              if r.0 == 0
              then some (0, ip, r.1)
              else bmap_entry (with_addr ndirect r.0 ip) r.0 (bn - ndirect) r.1
        ])
    else none

-- The loop over the direct blocks in itrunc, `n` of them left.
unfoldable pub free_direct : ℕ → ℕ → Inode → Volume → Option (Inode × Volume)
free_direct zero i ip v = some (ip, v)
free_direct (suc n) i ip v =
    let skip = free_direct n (i + 1) ip v in
    let free : Option (Inode × Volume) = elim (bfree (ip.addrs i) v) [
      | none ↦ none
      | some w ↦ free_direct n (i + 1) (with_addr i 0 ip) w
    ] in
    if ip.addrs i == 0 then skip else free

-- The loop over the entries of the indirect block `ind`.
unfoldable pub free_indirect : ℕ → ℕ → ℕ → Volume → Option Volume
free_indirect zero j ind v = some v
free_indirect (suc n) j ind v =
    let a = word_at (v.block ind) (4 * j) in
    let skip = free_indirect n (j + 1) ind v in
    let free : Option Volume = elim (bfree a v) [
      | none ↦ none
      | some w ↦ free_indirect n (j + 1) ind w
    ] in
    if a == 0 then skip else free

unfoldable pub itrunc_indirect : Inode → Volume → Option (Inode × Volume)
itrunc_indirect ip v =
    let ind = ip.addrs ndirect in
    if ind == 0 then some (ip, v) else elim (free_indirect nindirect 0 ind v) [
      | none ↦ none
      | some w ↦ elim (bfree ind w) [ none ↦ none | some u ↦ some (with_addr ndirect 0 ip, u) ]
    ]

unfoldable pub itrunc : Inode → Volume → Option (Inode × Volume)
itrunc ip v = elim (free_direct ndirect 0 ip v) [
  | none ↦ none
  | some r ↦ elim (itrunc_indirect r.0 r.1) [
    | none ↦ none
    | some q ↦ some (record (q.0) { size = 0 }, iupdate (record (q.0) { size = 0 }) q.1)
  ]
]
