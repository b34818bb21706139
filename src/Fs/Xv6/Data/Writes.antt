-- ===== src/Fs/Xv6/Data/Writes.antt =====
-- How often the operations of fs/xv6fs.c call log_write.
use re_xvapor.Base.{
  ℕ, zero, suc, ◌+◌, ◌-◌, ◌*◌, ◌/◌, ◌%◌, ◌^◌, ◌≤◌, ◌≡◌, Bool, true, false, not, ◌||◌, refl, Option,
  none, some, length, ltb, leb, ◌==◌, ==→ne, if◌then◌else◌, arith,
}
use re_xvapor.Fs.Xv6.{Volume, bsize, half_at, bzero, balloc}
use re_xvapor.Fs.Xv6.Bitmap.{taken, Chosen, chosen, exhausted, balloc-Chosen}
use re_xvapor.Fs.Xv6.Inode.{Inode, ndirect, nindirect, with_addr, bmap_entry, bmap, iupdate}
use re_xvapor.Fs.Xv6.Data.{
  Memory, Transfer, Devices, piece, readi_from, readi, writei_from, writei, finish_write,
  read_dirent, dirlookup_from, dirlookup, same_name,
}
use re_xvapor.Fs.Xv6.Data.Stored.{blocks}
use re_xvapor.Fs.Xv6.Data.Piece.{one_block, blocks_step}

-- At most `k` more blocks are logged by a call that may panic.
pub data Within {A : Type 0} (volume : A → Volume) (k : ℕ) (v : Volume) : Option A → Type 0 where
  panics : Within volume k v none
  returns : (a : A) → length (volume a).logged ≤ length v.logged + k → Within volume k v (some a)

module _ {A : Type 0} (volume : A → Volume) (k : ℕ) where
  if-Within :
      (v : Volume) (b : Bool) (x y : Option A)
      → Within volume k v x
      → Within volume k v y
      → Within volume k v (if b then x else y)
  if-Within v true x y p q = p
  if-Within v false x y p q = q

  cases-Within :
      (v : Volume) (b : Bool) (x y : Option A)
      → (b ≡ true → Within volume k v x)
      → (b ≡ false → Within volume k v y)
      → Within volume k v (if b then x else y)
  cases-Within v true x y p q = p refl
  cases-Within v false x y p q = q refl

  -- Behind a part that logged at most `j`, of `n` in all.
  Within-after :
      (j n : ℕ) (v v1 : Volume) (o : Option A)
      → length v1.logged ≤ length v.logged + j
      → j + k ≤ n
      → Within volume k v1 o
      → Within volume n v o
  Within-after j n v v1 o s fits panics = panics
  Within-after j n v v1 o s fits (returns a s') = returns a (omega (arith, s, s', fits))

module _ {A B : Type 0} (vol : A → Volume) (vol' : B → Volume) (j k n : ℕ) (fits : j + k ≤ n)
    (v : Volume) where
  then-Within :
      (f : A → Option B) (o : Option A)
      → Within vol j v o
      → ((a : A) → Within vol' k (vol a) (f a))
      → Within vol' n v (elim o [ none ↦ none | some a ↦ f a ])
  then-Within f o panics rest = panics
  then-Within f o (returns a s) rest = Within-after vol' k j n v (vol a) (f a) s fits (rest a)

abbrev second : ℕ × Volume → Volume
second r = r.1

abbrev pub third : {A : Type 0} → A × Inode × Volume → Volume
third r = r.2

balloc-Within : (v : Volume) → Within second 2 v (balloc v)
unfolding bzero
balloc-Within v = go (balloc v) (balloc-Chosen v)
  where
    go : (o : Option (ℕ × Volume)) → Chosen 0 v o → Within second 2 v o
    go o (chosen k lo inside idle before) = returns (k, taken k v) (omega arith)
    go o (exhausted all) = panics

bmap_entry-Within : (ip : Inode) (ind i : ℕ) (v : Volume) → Within third 5 v (bmap_entry ip ind i v)
unfolding bmap_entry
bmap_entry-Within ip ind i v = if-Within third 5 v _ _ _ (returns _ (omega arith)) (
    then-Within second third 2 3 5 (omega arith) v _ _ (balloc-Within v) (λ first.
      if-Within third 3 (first.1) _ _ _ (returns _ (omega arith)) (
        then-Within second third 2 1 3 (omega arith) (first.1) _ _ (balloc-Within (first.1))
          (λ l. returns _ (omega arith)))))

bmap-Within : (bn : ℕ) (ip : Inode) (v : Volume) → Within third 7 v (bmap bn ip v)
unfolding bmap
bmap-Within bn ip v =
    if-Within third 7 v (ltb bn ndirect) _ _ near
      (if-Within third 7 v (ltb (bn - ndirect) nindirect) _ _ far panics)
  where
    near : Within third 7 v (
        if not (ip.addrs bn == 0)
        then some (ip.addrs bn, ip, v)
        else elim (balloc v) [ none ↦ none | some r ↦ some (r.0, with_addr bn r.0 ip, r.1) ])
    near =
        if-Within third 7 v (not (ip.addrs bn == 0)) _ _
          (returns (ip.addrs bn, ip, v) (omega arith))
          (then-Within second third 2 0 7 (omega arith) v _ _ (balloc-Within v)
            (λ r. returns (r.0, with_addr bn r.0 ip, r.1) (omega arith)))

    far : Within third 7 v (
        if not (ip.addrs ndirect == 0)
        then bmap_entry ip (ip.addrs ndirect) (bn - ndirect) v
        else elim (balloc v) [
          | none ↦ none
          | some r ↦
              if r.0 == 0
              then some (0, ip, r.1)
              else bmap_entry (with_addr ndirect r.0 ip) r.0 (bn - ndirect) r.1
        ])
    far =
        if-Within third 7 v (not (ip.addrs ndirect == 0)) _ _
          (Within-after third 5 0 7 v v _ (omega arith) (omega arith)
            (bmap_entry-Within ip (ip.addrs ndirect) (bn - ndirect) v))
          (then-Within second third 2 5 7 (omega arith) v _ _ (balloc-Within v) (λ r.
            if-Within third 5 (r.1) (r.0 == 0) _ _ (returns (0, ip, r.1) (omega arith))
              (bmap_entry-Within (with_addr ndirect r.0 ip) (r.0) (bn - ndirect) (r.1))))

elim-Within :
    (k : ℕ) (v : Volume) (o : Option ℕ) (x : Option Transfer) (f : ℕ → Option Transfer)
    → Within Transfer.volume k v x
    → ((j : ℕ) → Within Transfer.volume k v (f j))
    → Within Transfer.volume k v (elim o [ none ↦ x | some j ↦ f j ])
elim-Within k v none x f p q = p
elim-Within k v (some j) x f p q = q j

module _ (fails : ℕ → ℕ → Option ℕ) where
  readi_from-Within :
      (fuel tot dst off left : ℕ) (ip : Inode) (v : Volume) (b : Memory)
      → Within Transfer.volume
          (7 * blocks off left)
          v
          (readi_from fails fuel tot dst off left ip v b)
  unfolding readi_from
  readi_from-Within zero tot dst off left ip v b = panics
  readi_from-Within (suc fuel) tot dst off left ip v b =
      cases-Within Transfer.volume (7 * blocks off left) v (left == 0) _ _
        (λ done. returns _ (omega arith))
        (λ more.
          let step = blocks_step left off (==→ne _ _ more) in
          let rest = 7 * blocks (off + piece left off) (left - piece left off) in
          (then-Within third Transfer.volume 7 rest (7 * blocks off left) (omega (arith, step)) v _
            _ (bmap-Within (off / bsize) ip v)
            (λ r. if-Within Transfer.volume rest (r.2) (r.0 == 0) _ _ (returns _ (omega arith)) (
              elim-Within rest (r.2) (fails dst (piece left off)) _ _
                (readi_from-Within fuel _ _ _ _ _ _ _) (λ j. returns _ (omega arith))))))

  writei_from-Within :
      (fuel tot src off left : ℕ) (ip : Inode) (v : Volume) (b : Memory)
      → Within Transfer.volume
          (8 * blocks off left)
          v
          (writei_from fails fuel tot src off left ip v b)
  unfolding writei_from
  writei_from-Within zero tot src off left ip v b = panics
  writei_from-Within (suc fuel) tot src off left ip v b =
      cases-Within Transfer.volume (8 * blocks off left) v (left == 0) _ _
        (λ done. returns _ (omega arith))
        (λ more.
          let step = blocks_step left off (==→ne _ _ more) in
          let later = 8 * blocks (off + piece left off) (left - piece left off) in
          let rest = 1 + later in
          (then-Within third Transfer.volume 7 rest (8 * blocks off left) (omega (arith, step)) v _
            _ (bmap-Within (off / bsize) ip v)
            (λ r. if-Within Transfer.volume rest (r.2) (r.0 == 0) _ _ (returns _ (omega arith)) (
              elim-Within rest (r.2) (fails src (piece left off)) _ _
                (Within-after Transfer.volume later 1 rest (r.2) _ _ (omega arith) (omega arith)
                  (writei_from-Within fuel _ _ _ _ _ _ _))
                (λ j. returns _ (omega arith))))))

-- readi logs at most 7 blocks for each block of the range, writei 8, and the inode's.
pub readi-Within :
    (fails : ℕ → ℕ → Option ℕ) (dst off n : ℕ) (ip : Inode) (v : Volume) (b : Memory)
    → Within Transfer.volume (7 * blocks off n) v (readi fails dst off n ip v b)
unfolding readi
readi-Within fails dst off n ip v b =
    let last = (off + n) % 2 ^ 32 in
    let left = if ltb ip.size last then ip.size - off else n in
    cases-Within Transfer.volume (7 * blocks off n) v (ltb ip.size off || ltb last off) _ _
      (λ out. returns _ (omega arith))
      (λ in_file.
        Within-after Transfer.volume (7 * blocks off left) 0 (7 * blocks off n) v v _ (omega arith)
          (shorter in_file) (readi_from-Within fails (left + 1) 0 dst off left ip v b))
  where
    shorter :
        (ltb ip.size off || ltb ((off + n) % 2 ^ 32) off) ≡ false
        → 0 + 7 * blocks off (if ltb ip.size ((off + n) % 2 ^ 32) then ip.size - off else n)
          ≤ 7 * blocks off n
    shorter e = ground (arith, e)

pub writei-Within :
    (devsw : Devices) (fails : ℕ → ℕ → Option ℕ) (src off n : ℕ) (ip : Inode) (v : Volume)
    (b : Memory)
    → Within Transfer.volume (8 * blocks off n + 1) v (writei devsw fails src off n ip v b)
unfolding writei finish_write iupdate
writei-Within devsw fails src off n ip v b =
    if-Within Transfer.volume _ v (ip.type == 17) _ _ (returns _ (omega arith)) (
      if-Within Transfer.volume _ v _ _ _ (returns _ (omega arith)) (
        then-Within Transfer.volume Transfer.volume (8 * blocks off n) 1 _ (omega arith) v _ _
          (writei_from-Within fails (n + 1) 0 src off n ip v b) (λ t. returns _ (omega arith))))

read_dirent-Within :
    (off : ℕ) (dp : Inode) (v : Volume) → off % 16 ≡ 0 → Within third 7 v (read_dirent off dp v)
unfolding read_dirent
read_dirent-Within off dp v al =
    then-Within Transfer.volume third (7 * blocks off 16) 0 7 (omega (arith, one_block off al)) v _
      _ (readi-Within (λ a m. none) 0 off 16 dp v (λ a. 0))
      (λ t. if-Within third 0 t.volume (t.count == 16) _ _ (returns _ (omega arith)) panics)

dirlookup_from-Within :
    (name : Memory) (fuel off : ℕ) (dp : Inode) (v : Volume)
    → off % 16 ≡ 0
    → Within third (7 * fuel) v (dirlookup_from name fuel off dp v)
unfolding dirlookup_from
dirlookup_from-Within name zero off dp v al = panics
dirlookup_from-Within name (suc fuel) off dp v al =
    let later = λ (w : Volume) (jp : Inode).
      dirlookup_from-Within name fuel (off + 16) jp w (omega (arith, al)) in
    if-Within third (7 * suc fuel) v (leb dp.size off) _ _ (returns _ (omega arith)) (
      then-Within third third 7 (7 * fuel) (7 * suc fuel) (omega arith) v _ _
        (read_dirent-Within off dp v al)
        (λ r. if-Within third (7 * fuel) (r.2) (half_at (r.0) 0 == 0) _ _ (later (r.2) (r.1)) (
          if-Within third (7 * fuel) (r.2) (same_name 14 name (r.0) 0 2) _ _
            (returns _ (omega arith)) (later (r.2) (r.1)))))

-- dirlookup logs at most 7 blocks for each entry, counting two more.
pub dirlookup-Within :
    (name : Memory) (dp : Inode) (v : Volume)
    → Within third (7 * (dp.size / 16 + 2)) v (dirlookup name dp v)
unfolding dirlookup
dirlookup-Within name dp v =
    if-Within third (7 * (dp.size / 16 + 2)) v _ _ _ panics
      (dirlookup_from-Within name (dp.size / 16 + 2) 0 dp v (omega arith))
