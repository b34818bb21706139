-- ===== src/Fs/Xv6/Data/Writei.antt =====
-- writei (fs/xv6fs.c) as a whole, and what ilock reads of the inode that it stores.
use re_xvapor.Base.{
  ℕ, ◌+◌, ◌*◌, ◌/◌, ◌%◌, ◌^◌, ◌≤◌, ◌<◌, ◌≡◌, ◌≢◌, refl, sym, ap, subst, false, Bool-cases, Option,
  none, some, ltb, ◌==◌, ne→==, if◌then◌else◌, arith, inl, inr,
}
use re_xvapor.Fs.Xv6.{Volume, bsize}
use re_xvapor.Fs.Xv6.Free.{free}
use re_xvapor.Fs.Xv6.Inode.{Inode, iupdate}
use re_xvapor.Fs.Xv6.Inode.Map.{mapped, IsFile}
use re_xvapor.Fs.Xv6.Inode.Grow.{byte}
use re_xvapor.Fs.Xv6.Data.{
  Memory, to_block, Transfer, writei_from, writei, Devices, finish_write, maxfile,
}
use re_xvapor.Fs.Xv6.Data.Stored.{
  blocks, NoRoom, iupdate-free, Stored, Stored-trans, iupdate-Stored, size-Stored,
}
use re_xvapor.Fs.Xv6.Data.Piece.{Copies}
use re_xvapor.Fs.Xv6.Data.Write.{Wrote, wrote, ran_out, loop-Wrote}

-- What writei of `n` bytes at `off` gives.
pub data Written (src off n : ℕ) (b : Memory) (v : Volume) (ip : Inode)
    : Option Transfer → Type 0 where
  written :
      (t : Transfer) (size : ℕ)
      → t.count ≡ n
      → t.memory ≡ b
      → (if ltb ip.size (off + n) then off + n else ip.size) ≡ size
      → Stored v (record ip { size = size }) t.volume t.inode (to_block src off n b (byte v ip))
      → ((i : ℕ) → off ≤ i → i < off + n → mapped t.volume t.inode (i / 512) ≢ 0)
      → free v ≤ free t.volume + 3 * blocks off n
      → Written src off n b v ip (some t)
  out_of_blocks : NoRoom off n v ip (3 * blocks off n) → Written src off n b v ip none

abbrev longer : ℕ → ℕ → ℕ
longer size last = if ltb size last then last else size

-- finish_write's branches as one.
finished :
    (count off : ℕ) (ip : Inode) (v : Volume) (b : Memory)
    → finish_write (record { count = count; inode = ip; volume = v; memory = b; offset = off }) ≡ (
        let jp = record ip { size = longer ip.size off } in
        record { count = count; inode = jp; volume = iupdate jp v; memory = b; offset = off })
unfolding finish_write
finished count off ip v b = elim (Bool-cases (ltb ip.size off)) [
  | inl e ↦ rw e refl
  | inr e ↦ rw e refl
]

module _ (fails : ℕ → ℕ → Option ℕ) (src off n : ℕ) (ip : Inode) (v : Volume) (b : Memory) where
  finished-Written :
      (o : Option Transfer)
      → off + n ≤ maxfile * bsize
      → Wrote src off n 0 b v ip o
      → Written src off n b v ip (elim o [ none ↦ none | some t ↦ some (finish_write t) ])
  finished-Written o fits (ran_out r) = out_of_blocks r
  finished-Written o fits (wrote v' ip' s there cost) =
      let size = longer ip'.size (off + n) in
      let jp = record ip' { size = size } in
      let same_size : ip'.size ≡ ip.size = ap (λ (j : Inode). j.size) s.fields in
      let grown = size-Stored v ip v' ip' _ size s in
      let stored =
        Stored-trans v (record ip { size = size }) v' jp (iupdate jp v') jp _ _ _ grown
          (iupdate-Stored v' jp grown.file) (λ i lo bytes. bytes i lo) in
      subst (λ (t : Transfer). Written src off n b v ip (some t))
        (sym (finished (0 + n) (off + n) ip' v' b))
        (written _ size (omega arith) refl (ap (λ (x : ℕ). longer x (off + n)) (sym same_size))
          stored
          (λ i lo hi.
            (iupdate-Stored v' jp grown.file).mapped_stays (i / 512) (omega arith) (there i lo hi))
          (omega (arith, cost, iupdate-free v' jp grown.file)))

  writei_runs :
      (devsw : Devices)
      → ip.type ≢ 17
      → (off + n < 2 ^ 32)
      → off ≤ ip.size
      → off + n ≤ maxfile * bsize
      → writei devsw fails src off n ip v b ≡ elim (writei_from fails (n + 1) 0 src off n ip v b) [
        | none ↦ none
        | some t ↦ some (finish_write t)
      ]
  unfolding writei
  writei_runs devsw file narrow start fits =
      let d : (ip.type == 17) ≡ false = ne→== _ _ file in
      let last : (off + n) % 2 ^ 32 ≡ off + n = omega arith in
      let a : ltb ip.size off ≡ false = ground arith in
      let c : ltb (off + n) off ≡ false = ground arith in
      let e : ltb (maxfile * bsize) (off + n) ≡ false = ground arith in rw (d, last, a, c, e) refl

  -- writei of `n` bytes at `off` in a sound file that is no device, at most at its end and within the largest file, where no
  -- copy fails: it returns `n` and the file has the bytes of memory in that range and its old ones
  -- elsewhere, it is as long as the range needs and stays sound, and a block in use that is neither the
  -- bitmap's nor the file's keeps its contents; it takes at most three blocks for each block of the
  -- range. It panics only for a block of the range that was missing, where at most three blocks for each
  -- of the range are free.
  pub writei-Written :
      (devsw : Devices)
      → IsFile v ip
      → ip.type ≢ 17
      → off ≤ ip.size
      → off + n ≤ maxfile * bsize
      → Copies fails src n
      → Written src off n b v ip (writei devsw fails src off n ip v b)
  writei-Written devsw h file start fits ok =
      subst (Written src off n b v ip) (sym (writei_runs devsw file (omega arith) start fits)) (
        finished-Written _ fits
          (loop-Wrote fails b (n + 1) 0 src off n ip v h fits (omega arith) ok))
