-- ===== src/Fs/Xv6/Data/Dirent.antt =====
-- The entries of a directory (fs/xv6fs.c) in its bytes, and what a read of one gives.
use re_xvapor.Base.{
  ℕ, zero, suc, ◌+◌, ◌*◌, ◌%◌, ◌≤◌, ◌<◌, ◌≡◌, refl, sym, ◌∙◌, ap, subst, Bool, true, not, ◌&&◌,
  Option, none, some, ltb, leb, ◌==◌, if◌then◌else◌, arith,
}
use re_xvapor.Fs.Xv6.{Volume, bsize, half_at}
use re_xvapor.Fs.Xv6.Free.{free}
use re_xvapor.Fs.Xv6.Inode.{Inode}
use re_xvapor.Fs.Xv6.Inode.Map.{IsFile}
use re_xvapor.Fs.Xv6.Inode.Grow.{byte}
use re_xvapor.Fs.Xv6.Data.{
  Memory, to_memory, Transfer, readi, maxfile, dirent_size, same_name, read_dirent,
}
use re_xvapor.Fs.Xv6.Data.Stored.{NoRoom, Stored}
use re_xvapor.Fs.Xv6.Data.Piece.{one_block}
use re_xvapor.Fs.Xv6.Data.Read.{Got, got_bytes, ran_out}
use re_xvapor.Fs.Xv6.Data.Readi.{available, readi-Got}

-- The inode number of the entry at `off` of a directory with the bytes `f`.
abbrev pub number_at : (ℕ → ℕ) → ℕ → ℕ
number_at f off = f off + 256 * f (off + 1)

-- Whether it is in use and has the name.
abbrev pub is_named : Memory → (ℕ → ℕ) → ℕ → Bool
is_named name f off = not (number_at f off == 0) && same_name 14 name f 0 (off + 2)

-- What read_dirent gives at `off`.
pub data Entry (off : ℕ) (v : Volume) (dp : Inode) : Option (Memory × Inode × Volume) → Type 0 where
  entry_read :
      (b : Memory) (dp' : Inode) (v' : Volume)
      → Stored v dp v' dp' (byte v dp)
      → ((x : ℕ) → x < 16 → b x ≡ byte v dp (off + x))
      → free v ≤ free v' + 3
      → Entry off v dp (some (b, dp', v'))
  no_room : NoRoom off 16 v dp 3 → Entry off v dp none

abbrev pub checked : Option Transfer → Option (Memory × Inode × Volume)
checked none = none
checked (some t) = if t.count == dirent_size then some (t.memory, t.inode, t.volume) else none

read_dirent-checked :
    (off : ℕ) (dp : Inode) (v : Volume)
    → read_dirent off dp v ≡ checked (readi (λ a m. none) 0 off dirent_size dp v (λ a. 0))
unfolding read_dirent
read_dirent-checked off dp v = refl

checked-Entry :
    (off : ℕ) (v : Volume) (dp : Inode) (o : Option Transfer)
    → off % 16 ≡ 0
    → off + 16 ≤ dp.size
    → Got 0 off 16 0 (λ a. 0) v dp o
    → Entry off v dp (checked o)
checked-Entry off v dp o al fits (got_bytes v' dp' b s mem cost) =
    entry_read b dp' v' s (λ x lo. mem x ∙ near x lo) (omega (arith, cost, one_block off al))
  where
    near : (x : ℕ) → x < 16 → to_memory 0 off 16 (byte v dp) (λ a. 0) x ≡ byte v dp (off + x)
    near x lo =
        let in_range : (leb 0 x && ltb x (0 + 16)) ≡ true = ground arith in
        rw in_range (ap (λ (y : ℕ). byte v dp (off + y)) (omega arith))
checked-Entry off v dp o al fits (ran_out r) = no_room (record {
  hole = r.hole;
  start = r.start;
  below = r.below;
  missing = r.missing;
  few = omega (arith, r.few, one_block off al);
})

pub read_dirent-Entry :
    (off : ℕ) (v : Volume) (dp : Inode)
    → IsFile v dp
    → dp.size ≤ maxfile * bsize
    → off % 16 ≡ 0
    → off + 16 ≤ dp.size
    → Entry off v dp (read_dirent off dp v)
read_dirent-Entry off v dp h small al fits =
    let all : available dp.size off 16 ≡ 16 = ground arith in
    subst (Entry off v dp) (sym (read_dirent-checked off dp v)) (
      checked-Entry off v dp _ al fits (
        subst
          (λ (n : ℕ).
            Got 0 off n 0 (λ a. 0) v dp (readi (λ a m. none) 0 off dirent_size dp v (λ a. 0)))
          all
          (readi-Got (λ a m. none) 0 off 16 dp v (λ a. 0) h small (omega arith) (omega arith)
            (λ x m lo hi. refl))))

-- Names and numbers depend on the entry's bytes alone.
same_name_ext :
    (n : ℕ) (s t t' : Memory) (i j k : ℕ)
    → ((x : ℕ) → x < n → t (j + x) ≡ t' (k + x))
    → same_name n s t i j ≡ same_name n s t' i k
unfolding same_name
same_name_ext zero s t t' i j k e = refl
same_name_ext (suc n) s t t' i j k e =
    let first : t j ≡ t' k = ap t (omega arith) ∙ (e 0 (omega arith) ∙ ap t' (omega arith)) in
    let rest =
      same_name_ext n s t t' (i + 1) (j + 1) (k + 1)
        (λ x lo. ap t (plus j x) ∙ (e (x + 1) (omega arith) ∙ ap t' (sym (plus k x)))) in
    rw (first, rest) refl
  where
    plus : (j x : ℕ) → j + 1 + x ≡ j + (x + 1)
    plus j x = omega arith

pub number_ext :
    (f g : ℕ → ℕ) (off k : ℕ)
    → ((x : ℕ) → x < 16 → f (off + x) ≡ g (k + x))
    → number_at f off ≡ number_at g k
number_ext f g off k e =
    let first : f off ≡ g k = ap f (omega arith) ∙ (e 0 (omega arith) ∙ ap g (omega arith)) in
    rw (first, e 1 (omega arith)) refl

pub is_named_ext :
    (name : Memory) (f g : ℕ → ℕ) (off k : ℕ)
    → ((x : ℕ) → x < 16 → f (off + x) ≡ g (k + x))
    → is_named name f off ≡ is_named name g k
is_named_ext name f g off k e =
    rw
      (
        number_ext f g off k e,
        same_name_ext 14 name f g 0 (off + 2) (k + 2)
            (λ x lo. ap f (plus off x) ∙ (e (x + 2) (omega arith) ∙ ap g (sym (plus k x)))),
      )
      refl
  where
    plus : (j x : ℕ) → j + 2 + x ≡ j + (x + 2)
    plus j x = omega arith

-- What was read is the entry.
pub read_number :
    (b : Memory) (f : ℕ → ℕ) (off : ℕ)
    → ((x : ℕ) → x < 16 → b x ≡ f (off + x))
    → half_at b 0 ≡ number_at f off
read_number b f off e = number_ext b f 0 off (λ x lo. ap b (omega arith) ∙ e x lo)

pub read_named :
    (name b : Memory) (f : ℕ → ℕ) (off : ℕ)
    → ((x : ℕ) → x < 16 → b x ≡ f (off + x))
    → (not (half_at b 0 == 0) && same_name 14 name b 0 2) ≡ is_named name f off
read_named name b f off e = is_named_ext name b f 0 off (λ x lo. ap b (omega arith) ∙ e x lo)
