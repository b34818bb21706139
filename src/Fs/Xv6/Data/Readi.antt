-- ===== src/Fs/Xv6/Data/Readi.antt =====
-- readi (fs/xv6fs.c) as a whole, and a read behind a write.
use re_xvapor.Base.{
  ℕ, ◌+◌, ◌-◌, ◌*◌, ◌/◌, ◌%◌, ◌^◌, ◌≤◌, ◌<◌, ◌≡◌, ◌≢◌, refl, sym, ◌∙◌, ap, subst, true, false, ◌&&◌,
  Option, some, ltb, leb, if◌then◌else◌, arith,
}
use re_xvapor.Fs.Xv6.{Volume, bsize}
use re_xvapor.Fs.Xv6.Inode.{Inode}
use re_xvapor.Fs.Xv6.Inode.Map.{mapped, IsFile}
use re_xvapor.Fs.Xv6.Inode.Grow.{byte}
use re_xvapor.Fs.Xv6.Data.{Memory, to_block, Transfer, Devices, writei, readi_from, readi, maxfile}
use re_xvapor.Fs.Xv6.Data.Piece.{Copies}
use re_xvapor.Fs.Xv6.Data.Writei.{Written, written, writei-Written}
use re_xvapor.Fs.Xv6.Data.Read.{Got, got_bytes, ran_out, loop-Got}

-- How many of `n` bytes at `off` the file has.
abbrev pub available : ℕ → ℕ → ℕ → ℕ
available size off n = if ltb size (off + n) then size - off else n

module _ (fails : ℕ → ℕ → Option ℕ) (dst off n : ℕ) (ip : Inode) (v : Volume) (b : Memory) where
  readi_runs :
      off + n < 2 ^ 32
      → off ≤ ip.size
      → readi fails dst off n ip v b
        ≡ readi_from fails (available ip.size off n + 1) 0 dst off (available ip.size off n) ip v b
  unfolding readi
  readi_runs narrow start =
      let last : (off + n) % 2 ^ 32 ≡ off + n = omega arith in
      let a : ltb ip.size off ≡ false = ground arith in
      let c : ltb (off + n) off ≡ false = ground arith in rw (last, a, c) refl

  -- readi of `n` bytes at `off` in a sound file of at most the largest size, at most at its end, where no
  -- copy fails: it returns how many of the bytes the file has, memory has the file's bytes there and
  -- its old ones elsewhere, and the file keeps its bytes, as do the blocks of others. A hole that is read
  -- may be filled; it panics only for a hole, where at most three blocks for each block of the range are
  -- free.
  pub readi-Got :
      IsFile v ip
      → ip.size ≤ maxfile * bsize
      → off ≤ ip.size
      → off + n < 2 ^ 32
      → Copies fails dst n
      → Got dst off (available ip.size off n) 0 b v ip (readi fails dst off n ip v b)
  readi-Got h small start narrow ok =
      subst (Got dst off (available ip.size off n) 0 b v ip) (sym (readi_runs narrow start)) (
        loop-Got fails (available ip.size off n + 1) 0 dst off (available ip.size off n) ip v b h
          (ground arith) (omega arith) (λ x m lo hi. ok x m lo (ground arith)))

-- What a read of `n` bytes that the file has gives, where none is in a hole.
read_back :
    (dst off n : ℕ) (ip : Inode) (v : Volume) (b : Memory) (o : Option Transfer)
    → off + n ≤ maxfile * bsize
    → ((i : ℕ) → off ≤ i → i < off + n → mapped v ip (i / 512) ≢ 0)
    → Got dst off n 0 b v ip o
    → (r : Transfer) × (o ≡ some r)
      × (r.count ≡ n)
      × ((x : ℕ) → x < n → r.memory (dst + x) ≡ byte v ip (off + x))
read_back dst off n ip v b o fits there (got_bytes v' ip' b' s mem cost) = (
  _,
  refl,
  omega arith,
  λ x lo.
      let in_range : (leb dst (dst + x) && ltb (dst + x) (dst + n)) ≡ true = ground arith in
      let index : off + (dst + x - dst) ≡ off + x = omega arith in
      mem (dst + x) ∙ rw (in_range, index) refl,
)
read_back dst off n ip v b o fits there (ran_out r) =
    absurd (there r.hole r.start r.below r.missing)

module _ (fails : ℕ → ℕ → Option ℕ) (src dst off n : ℕ) (ip : Inode) (v : Volume)
    (b c : Memory) where
  after_write :
      (t : Transfer)
      → ip.size ≤ maxfile * bsize
      → off + n ≤ maxfile * bsize
      → Copies fails dst n
      → Written src off n b v ip (some t)
      → (r : Transfer) × (readi fails dst off n t.inode t.volume c ≡ some r)
        × (r.count ≡ n)
        × ((x : ℕ) → x < n → r.memory (dst + x) ≡ b (src + x))
  after_write t small fits ok (written u size count same grown s there cost) =
      let own : t.inode.size ≡ size = ap (λ (j : Inode). j.size) s.fields in
      let bound : size ≤ maxfile * bsize = ground (arith, grown) in
      let holds : off + n ≤ size = ground (arith, grown) in
      let all : available t.inode.size off n ≡ n =
        ap (λ (x : ℕ). available x off n) own ∙ whole size holds in
      let g =
        readi-Got fails dst off n t.inode t.volume c s.file (omega (arith, own, bound))
          (omega (arith, own, holds)) (omega arith) ok in
      let back = read_back dst off n t.inode t.volume c _ fits there (
        subst
          (λ (k : ℕ). Got dst off k 0 c t.volume t.inode (readi fails dst off n t.inode t.volume c))
          all g) in
      (
        back.0,
        back.1,
        back.2,
        λ x lo. back.3 x lo ∙ (s.bytes (off + x) (omega arith) ∙ stored x lo),
      )
    where
      whole : (size : ℕ) → off + n ≤ size → available size off n ≡ n
      whole size holds = ground arith

      stored : (x : ℕ) → x < n → to_block src off n b (byte v ip) (off + x) ≡ b (src + x)
      stored x lo =
          let in_range : (leb off (off + x) && ltb (off + x) (off + n)) ≡ true = ground arith in
          let index : src + (off + x - off) ≡ src + x = omega arith in rw (in_range, index) refl

  -- What writei stored readi reads back: behind a writei of `n` bytes that returned, on the conditions of
  -- writei-Written and for a file of at most the largest size, a readi of the same range, whose copies
  -- do not fail, returns `n` and puts the bytes written at its destination.
  pub readi-writei :
      (devsw : Devices) (t : Transfer)
      → IsFile v ip
      → ip.type ≢ 17
      → ip.size ≤ maxfile * bsize
      → off ≤ ip.size
      → off + n ≤ maxfile * bsize
      → Copies fails src n
      → Copies fails dst n
      → writei devsw fails src off n ip v b ≡ some t
      → (r : Transfer) × (readi fails dst off n t.inode t.volume c ≡ some r)
        × (r.count ≡ n)
        × ((x : ℕ) → x < n → r.memory (dst + x) ≡ b (src + x))
  readi-writei devsw t h file small start fits ok ok' e = after_write t small fits ok' (
      subst (Written src off n b v ip) e
        (writei-Written fails src off n ip v b devsw h file start fits ok))
