-- ===== src/Fs/Xv6.antt =====
-- The xv6 file system, kernel/fs/xv6fs.c on one device: blocks and their allocator. A block is its
-- bytes, as bread gives it; a block that is changed goes to log_write, which the list `logged`
-- records, the last one first. The operations themselves do not model the panics of log_write, on a
-- full log and outside a transaction: they are meant within a transaction whose log has room, and
-- Data.Trans puts the recorded blocks through log_write, panics included.
pub mod Bitmap
pub mod Blocks
pub mod Free
pub mod Logged
pub mod Words
pub mod Inode
pub mod Data
mod Tests
use re_xvapor.Base.{
  ℕ, zero, suc, ◌+◌, ◌-◌, ◌*◌, ◌/◌, ◌%◌, ◌^◌, Bool, true, false, not, ◌&&◌, ◌||◌, Option, none,
  some, List, [], ◌∷◌, bit_or, bit_and, update, ltb, leb, ◌==◌, if◌then◌else◌,
}
use re_xvapor.Base.Bits.{bit, complement}

abbrev pub bsize : ℕ
bsize = 512

-- Bitmap bits per block.
abbrev pub bpb : ℕ
bpb = bsize * 8

abbrev pub Block : Type 0
Block = ℕ → ℕ

-- uint and short in a block, low byte first.
abbrev pub word_at : Block → ℕ → ℕ
word_at d a = d a + 256 * d (a + 1) + 2 ^ 16 * d (a + 2) + 2 ^ 24 * d (a + 3)

abbrev pub half_at : Block → ℕ → ℕ
half_at d a = d a + 256 * d (a + 1)

abbrev pub set_word : ℕ → ℕ → Block → Block
set_word a w d =
    update
      (update (update (update d a (w % 256)) (a + 1) (w / 256 % 256)) (a + 2) (w / 2 ^ 16 % 256))
      (a + 3) (w / 2 ^ 24 % 256)

abbrev pub set_half : ℕ → ℕ → Block → Block
set_half a w d = update (update d a (w % 256)) (a + 1) (w / 256 % 256)

-- The fields of xv6fs_superblock that this file uses.
pub record Superblock : Type 0 where
  pub size : ℕ
  pub ninodes : ℕ
  pub inodestart : ℕ
  pub bmapstart : ℕ

pub record Volume : Type 0 where
  pub sb : Superblock
  pub block : ℕ → Block
  pub logged : List ℕ

-- The fields as they stand in block 1.
abbrev pub superblock_of : Block → Superblock
superblock_of d = record {
  size = word_at d 4;
  ninodes = word_at d 12;
  inodestart = word_at d 24;
  bmapstart = word_at d 28;
}

unfoldable pub readsb : Volume → Volume
readsb v = record v { sb = superblock_of (v.block 1) }

-- Change the cached block and record it for log_write, whose panics Data.Trans adds.
abbrev pub write_block : ℕ → Block → Volume → Volume
write_block b d v = record v { block = update v.block b d; logged = b ∷ v.logged }

abbrev pub bblock : ℕ → Superblock → ℕ
bblock b sb = b / bpb + sb.bmapstart

unfoldable pub bzero : ℕ → Volume → Volume
bzero bno v = write_block bno (λ a. 0) v

-- data[bi/8] & m, |= m and &= ~m, where m = 1 << (bi % 8).
abbrev pub bit_of : Block → ℕ → Bool
bit_of d bi = bit (d (bi / 8)) (bi % 8)

abbrev pub mark : ℕ → Block → Block
mark bi d = update d (bi / 8) (bit_or (d (bi / 8)) (2 ^ (bi % 8)))

abbrev pub unmark : ℕ → Block → Block
unmark bi d = update d (bi / 8) (bit_and (d (bi / 8)) (complement 8 (2 ^ (bi % 8))))

-- The inner loop of balloc, with `n` bits left in the block: a free bit.
unfoldable pub find_free : ℕ → ℕ → ℕ → ℕ → Block → Option ℕ
find_free zero bi b size d = none
find_free (suc n) bi b size d =
    let rest = find_free n (bi + 1) b size d in
    if not (ltb (b + bi) size) then none else if bit_of d bi then rest else some bi

-- The outer loop, on fuel; `none` is a panic.
unfoldable pub balloc_from : ℕ → ℕ → Volume → Option (ℕ × Volume)
unfolding bzero
balloc_from zero b v = none
balloc_from (suc fuel) b v =
    let rest = balloc_from fuel (b + bpb) v in
    let d = v.block (bblock b v.sb) in
    if not (ltb b v.sb.size) then none else elim (find_free bpb 0 b v.sb.size d) [
      | none ↦ rest
      | some bi ↦ some (b + bi, bzero (b + bi) (write_block (bblock b v.sb) (mark bi d) v))
    ]

-- A round is a block of the bitmap, so the fuel lasts.
unfoldable pub balloc : Volume → Option (ℕ × Volume)
unfolding balloc_from
balloc v = balloc_from (v.sb.size / bpb + 1) 0 v

-- readsb reads the superblock again, in place.
unfoldable pub bfree : ℕ → Volume → Option Volume
bfree b v =
    let r = readsb v in
    let at = bblock b r.sb in
    let d = r.block at in
    if not (bit_of d (b % bpb)) then none else some (write_block at (unmark (b % bpb) d) r)
