-- ===== src/Fs/Xv6/Tests.antt =====
-- A small volume of fs/xv6fs.c with one file, on which the theorems are applied.
use re_xvapor.Base.{
  ℕ, zero, suc, ◌+◌, ◌-◌, ◌^◌, ◌%◌, ◌<◌, ◌≡◌, ◌≢◌, refl, sym, ◌∙◌, ap, subst, Bool, true, false,
  ◌&&◌, ◌||◌, Bool-cases, Option, none, some, List, [], ◌∷◌, ltb, ◌==◌, ==→eq, ==→ne, if◌then◌else◌,
  arith, inl, inr,
}
use mathlib.Core.Option
use re_xvapor.Fs.Xv6.{Block, Volume, Superblock, bblock, balloc, bfree}
use re_xvapor.Fs.Xv6.Bitmap.{used}
use re_xvapor.Fs.Xv6.Blocks.{IsLayout, Given, Freed, balloc-Given, bfree-Freed}
use re_xvapor.Fs.Xv6.{balloc_from, find_free, bzero}
use re_xvapor.Fs.Xv6.Logged.{Logged, last, second, unlogged_kept}
use re_xvapor.Fs.Xv6.Inode.{
  ialloc, Inode, put_dinode, store_addrs, bmap, bmap_entry, itrunc, ilock, iupdate,
}
use re_xvapor.Fs.Xv6.Inode.Entry.{Bmapped}
use re_xvapor.Fs.Xv6.Inode.Bmap.{bmap-Bmapped}
use re_xvapor.Fs.Xv6.Inode.Truncated.{Truncated, itrunc-Truncated}
use re_xvapor.Fs.Xv6.Inode.Disk.{FitsDisk, ilock-iupdate}
use re_xvapor.Fs.Xv6.Data.{
  Memory, Transfer, Devices, device_write, readi, readi_from, writei, writei_from, finish_write,
  read_dirent, same_name, dirlookup, dirlookup_from,
}
use re_xvapor.Fs.Xv6.Data.Trans.{in_log, log_writes}
use re_xvapor.Fs.Log.{Log, boot, log_write, find_block}
use re_xvapor.Fs.Xv6.Data.Readi.{readi-writei}
use re_xvapor.Fs.Xv6.Inode.Map.{owned, IsFile}

-- 100 blocks, inodes from block 10 on, the bitmap in block 20.
abbrev super : Superblock
super = record { size = 100; ninodes = 16; inodestart = 10; bmapstart = 20 }

abbrev super_block : Block
super_block a =
    if a == 4
    then 100
    else if a == 12
    then 16
    else if a == 24
    then 10
    else if a == 28
    then 20
    else 0

-- Blocks 0 to 29 are in use.
abbrev map_block : Block
map_block a = if ltb a 3 then 255 else if a == 3 then 63 else 0

-- Block 26 is the file's indirect one, with one entry.
abbrev indirect_block : Block
indirect_block a = if a == 0 then 27 else 0

-- The file's first block: an entry `a` for inode 7.
abbrev dir_block : Block
dir_block a = if a == 0 then 7 else if a == 2 then 97 else 0

abbrev disk : Volume
disk = record {
  sb = super;
  block = λ b.
      if b == 1
      then super_block
      else if b == 20
      then map_block
      else if b == 26
      then indirect_block
      else if b == 25
      then dir_block
      else (λ a. 0);
  logged = [];
}

abbrev node : Inode
node = record {
  inum = 1;
  valid = true;
  type = 15;
  major = 0;
  minor = 0;
  nlink = 1;
  size = 16;
  addrs = λ i. if i == 0 then 25 else if i == 12 then 26 else 0;
}

-- A test of all numbers below `n`.
all_below : ℕ → (ℕ → Bool) → Bool
all_below zero f = true
all_below (suc n) f = f n && all_below n f

and_left : (a b : Bool) → (a && b) ≡ true → a ≡ true
and_left true b e = refl
and_left false b e = e

and_right : (a b : Bool) → (a && b) ≡ true → b ≡ true
and_right true b e = e
and_right false b e = cc e

all_below-holds : (n : ℕ) (f : ℕ → Bool) (i : ℕ) → all_below n f ≡ true → i < n → f i ≡ true
unfolding all_below
all_below-holds zero f i e lo = absurd (omega arith)
all_below-holds (suc n) f i e lo = elim (Bool-cases (n == i)) [
  | inl this ↦ ap f (sym (==→eq n i this)) ∙ and_left (f n) (all_below n f) e
  | inr other ↦ all_below-holds n f i (and_right (f n) (all_below n f) e) (ground arith)
]

map_at : (c : ℕ) → c < 100 → bblock c super ≡ 20
map_at c lo = omega arith

layout : IsLayout disk
layout = record {
  bitmap = λ c lo. ap (used disk) (map_at c lo);
  inside = λ c lo. omega arith;
  first = refl;
  same = refl;
  apart = λ c lo e. omega arith;
  one_inside = omega arith;
}

-- The blocks that the file owns.
abbrev place : ℕ → ℕ
place p =
    if p == 0
    then 25
    else if p == 12
    then 26
    else if p == 13
    then 27
    else if p == 141
    then 10
    else 0

owned_place : (p : ℕ) → p < 142 → owned disk node p ≡ place p
unfolding all_below
owned_place p lo = ==→eq _ _ (all_below-holds 142 (λ q. owned disk node q == place q) p checked lo)
  where
    checked : all_below 142 (λ q. owned disk node q == place q) ≡ true
    checked = refl

place_used : (p : ℕ) → p < 142 → place p ≢ 0 → used disk (place p) ≡ true
unfolding all_below
place_used p lo nz =
    or_zero (place p) (==→ne _ _ (ne_e nz))
      (all_below-holds 142 (λ q. place q == 0 || used disk (place q)) p checked lo)
  where
    checked : all_below 142 (λ q. place q == 0 || used disk (place q)) ≡ true
    checked = refl

    ne_e : place p ≢ 0 → (place p == 0) ≡ false
    ne_e nz = ground (arith, nz)

    or_zero : (b : ℕ) → b ≢ 0 → (b == 0 || used disk b) ≡ true → used disk b ≡ true
    or_zero b ne e =
        let z : (b == 0) ≡ false = ground (arith, ne) in
        subst (λ (x : Bool). (x || used disk b) ≡ true) z e

file : IsFile disk node
file = record {
  layout = layout;
  narrow = omega arith;
  boot = refl;
  stored = omega arith;
  busy = λ p lo nz.
      ap (used disk) (owned_place p lo) ∙ place_used p lo (λ z. nz (owned_place p lo ∙ z));
  inside = λ p lo. subst (λ (x : ℕ). x < 100) (sym (owned_place p lo)) (ground arith);
  not_super = λ p lo e. place_ne p 1 (sym (owned_place p lo) ∙ e);
  not_map = λ p c lo nz in_size e. place_ne20 p (sym (owned_place p lo) ∙ (e ∙ map_at c in_size));
  apart = λ p q lo lo' ne nz e.
      place_apart p q ne (λ z. nz (owned_place p lo ∙ z))
        (sym (owned_place p lo) ∙ (e ∙ owned_place q lo'));
}
  where
    place_ne : (p x : ℕ) → place p ≢ 1
    place_ne p x e = ground (arith, e)

    place_ne20 : (p : ℕ) → place p ≢ 20
    place_ne20 p e = ground (arith, e)

    place_apart : (p q : ℕ) → p ≢ q → place p ≢ 0 → place p ≢ place q
    place_apart p q ne nz e = ground (arith, ne, nz, e)

balloc_test : Option.map (λ (r : ℕ × Volume). r.0) (balloc disk) ≡ some 30
unfolding balloc balloc_from find_free bzero
balloc_test = refl

balloc-Given_example : Given disk (balloc disk)
balloc-Given_example = balloc-Given disk layout

bfree-Freed_example :
    (used disk 27 ≡ true → (v' : Volume) × (bfree 27 disk ≡ some v') × Freed disk 27 v')
    × (used disk 27 ≡ false → bfree 27 disk ≡ none)
bfree-Freed_example = bfree-Freed 27 disk layout (omega arith) (omega arith) away
  where
    away : (c : ℕ) → c < 100 → 27 ≢ bblock c super
    away c lo e = omega arith

-- Block 13 of the file is missing: blocks 30 and 31 are taken for it, and 31 is its.
bmap_test :
    Option.map {B = ℕ × Bool × Bool}
      (λ (r : ℕ × Inode × Volume). (r.0, used (r.2) 30, used (r.2) 31))
      (bmap 13 node disk)
    ≡ some (31, true, true)
unfolding bmap bmap_entry balloc balloc_from find_free bzero
bmap_test = refl

bmap-Bmapped_example : Bmapped disk node 13 2 (bmap 13 node disk)
bmap-Bmapped_example = bmap-Bmapped disk node 13 file (omega arith)

itrunc-Truncated_example :
    (ip' : Inode) × (v' : Volume) × (itrunc node disk ≡ some (ip', v')) × Truncated disk node v' ip'
itrunc-Truncated_example = itrunc-Truncated disk node file

fits : FitsDisk node
fits = record {
  type_narrow = omega arith;
  major_narrow = omega arith;
  minor_narrow = omega arith;
  nlink_narrow = omega arith;
  size_narrow = omega arith;
  addrs_narrow = λ i lo. ground arith;
  has_type = omega arith;
}

ilock-iupdate_example : ilock (record node { valid = false }) (iupdate node disk) ≡ some node
ilock-iupdate_example = ilock-iupdate node disk fits

-- The name "a".
abbrev name_a : Memory
name_a a = if a == 0 then 97 else 0

dirlookup_test :
    Option.map (λ (r : Option (ℕ × ℕ) × Inode × Volume). r.0) (dirlookup name_a node disk)
    ≡ some (some (0, 7))
unfolding dirlookup dirlookup_from read_dirent readi readi_from bmap same_name
dirlookup_test = refl

-- Copies that do not fail.
abbrev copies : ℕ → ℕ → Option ℕ
copies a m = none

-- One device, with major number 1, that takes all.
abbrev devices : Devices
devices major = if major == 1 then some (λ src n. n) else none

-- A write to it, and one to a device that is not there.
device_test :
    (device_write devices 1 300 20 ≡ 20)
    × (device_write devices 2 300 20 ≡ 2 ^ 32 - 1)
    × (device_write devices (2 ^ 16 - 1) 300 20 ≡ 2 ^ 32 - 1)
unfolding device_write
device_test = (refl, refl, refl)

-- Memory that holds at each address its low byte.
abbrev low_bytes : Memory
low_bytes a = a % 256

abbrev empty_memory : Memory
empty_memory a = 0

-- A log of 31 blocks in which one operation is in progress and block 20 has been logged.
abbrev running : Log
running = record (boot (λ b a. 0)) {
  start = 40;
  size = 32;
  outstanding = 1;
  n = 1;
  block = λ i. 20;
}

-- The write logs its block and the inode's; with the log full, or with no operation in progress, it
-- panics.
abbrev logs_of : Option (Transfer × Log) → ℕ × List ℕ
logs_of o = elim o [ none ↦ (99, []) | some r ↦ (r.1.n, r.0.volume.logged) ]

write_of_twenty : Log → ℕ × List ℕ
unfolding in_log log_writes
write_of_twenty s =
    logs_of (in_log Transfer.volume s (writei devices copies 300 10 20 node disk low_bytes))

write_logs :
    (write_of_twenty running ≡ (3, 10 ∷ 25 ∷ []))
    × (write_of_twenty (record running { n = 29 }) ≡ (99, []))
    × (write_of_twenty (record running { outstanding = 0 }) ≡ (99, []))
unfolding write_of_twenty in_log log_writes log_write find_block writei writei_from finish_write
    iupdate bmap put_dinode store_addrs
write_logs = (refl, refl, refl)

-- The write that the next theorem reads back.
abbrev behind : Transfer
unfolding writei writei_from finish_write bmap
behind = elim (writei devices copies 300 10 20 node disk low_bytes) [
  | none ↦ record { count = 0; inode = node; volume = disk; memory = empty_memory; offset = 0 }
  | some t ↦ t
]

runs : writei devices copies 300 10 20 node disk low_bytes ≡ some behind
unfolding writei writei_from finish_write bmap behind
runs = refl

readi-writei_example :
    (r : Transfer) × (readi copies 700 10 20 behind.inode behind.volume empty_memory ≡ some r)
    × (r.count ≡ 20)
    × ((x : ℕ) → x < 20 → r.memory (700 + x) ≡ low_bytes (300 + x))
readi-writei_example =
    readi-writei copies 300 700 10 20 node disk low_bytes empty_memory devices behind file
      (omega arith) (omega arith) (omega arith) (omega arith) (λ x m lo hi. refl)
      (λ x m lo hi. refl) runs

unlogged_kept_example :
    Logged Transfer.volume disk (writei devices copies 300 10 20 node disk low_bytes)
    × Logged last disk (itrunc node disk)
    × Logged second disk (ialloc 15 disk)
unlogged_kept_example =
    unlogged_kept devices copies 300 10 20 15 node disk low_bytes (λ x m lo hi. refl)
