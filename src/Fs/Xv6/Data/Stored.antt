-- ===== src/Fs/Xv6/Data/Stored.antt =====
-- What a part of writei (fs/xv6fs.c) leaves of a volume and an inode, as the file's bytes.
use re_xvapor.Base.{
  ℕ, ◌+◌, ◌*◌, ◌/◌, ◌%◌, ◌≤◌, ◌<◌, ◌≡◌, ◌≢◌, refl, sym, ◌∙◌, ap, subst, true, Bool-cases, update_ne,
  ◌==◌, ==→eq, ==→ne, if◌then◌else◌, arith, inl, inr,
}
use re_xvapor.Fs.Xv6.{Block, Volume, Superblock, bblock, write_block}
use re_xvapor.Fs.Xv6.Bitmap.{used}
use re_xvapor.Fs.Xv6.Free.{free, free_same}
use re_xvapor.Fs.Xv6.Inode.{Inode, iblock, dinode_at, put_dinode, iupdate}
use re_xvapor.Fs.Xv6.Inode.Map.{owned, slot, mapped, IsFile}
use re_xvapor.Fs.Xv6.Inode.Grow.{byte, Grows, Grows-refl}
use re_xvapor.Fs.Xv6.Data.Bytes.{owned_write, used_write, write-IsFile, byte_else, size-IsFile}

-- Volume and inode behind a part of a write: the bytes are `f`, and a block in use that is not of the
-- bitmap nor the file's keeps its contents.
pub record Stored (v : Volume) (ip : Inode) (v' : Volume) (ip' : Inode) (f : ℕ → ℕ) : Type 0 where
  pub file : IsFile v' ip'
  pub same_sb : v'.sb ≡ v.sb
  pub fields : ip' ≡ record ip { addrs = ip'.addrs }
  pub bytes : (i : ℕ) → i < 140 * 512 → byte v' ip' i ≡ f i
  pub used_stays : (c : ℕ) → c < v.sb.size → used v c ≡ true → used v' c ≡ true
  pub foreign :
      (c : ℕ)
      → c < v.sb.size
      → used v c ≡ true
      → ((d : ℕ) → d < v.sb.size → c ≢ bblock d v.sb)
      → ((p : ℕ) → p < 142 → c ≢ owned v ip p)
      → (v'.block c ≡ v.block c) × ((p : ℕ) → p < 142 → c ≢ owned v' ip' p)
  pub mapped_stays : (bn : ℕ) → bn < 140 → mapped v ip bn ≢ 0 → mapped v' ip' bn ≢ 0

pub Stored-refl : (v : Volume) (ip : Inode) → IsFile v ip → Stored v ip v ip (byte v ip)
Stored-refl v ip h = record {
  file = h;
  same_sb = refl;
  fields = refl;
  bytes = λ i lo. refl;
  used_stays = λ c lo e. e;
  foreign = λ c lo e far ne. (refl, ne);
  mapped_stays = λ bn lo nz. nz;
}

pub Stored-trans :
    (v : Volume) (ip : Inode) (v1 : Volume) (ip1 : Inode) (v2 : Volume) (ip2 : Inode)
    (f g f' : ℕ → ℕ)
    → Stored v ip v1 ip1 f
    → Stored v1 ip1 v2 ip2 g
    → ((i : ℕ) → i < 140 * 512 → ((j : ℕ) → j < 140 * 512 → byte v1 ip1 j ≡ f j) → g i ≡ f' i)
    → Stored v ip v2 ip2 f'
Stored-trans v ip v1 ip1 v2 ip2 f g f' s s' e =
    let size_eq : v1.sb.size ≡ v.sb.size = ap (λ (s : Superblock). s.size) s.same_sb in
    let low = λ (c : ℕ) (lo : c < v.sb.size). subst (λ (n : ℕ). c < n) (sym size_eq) lo in
    record {
      file = s'.file;
      same_sb = s'.same_sb ∙ s.same_sb;
      fields = s'.fields ∙ ap (λ (j : Inode). record j { addrs = ip2.addrs }) s.fields;
      bytes = λ i lo. s'.bytes i lo ∙ e i lo s.bytes;
      used_stays = λ c lo e. s'.used_stays c (low c lo) (s.used_stays c lo e);
      foreign = λ c lo e far ne.
          let first = s.foreign c lo e far ne in
          let far' = λ (d : ℕ) (in_size : d < v1.sb.size) (same : c ≡ bblock d v1.sb).
            far d (subst (λ (n : ℕ). d < n) size_eq in_size) (same ∙ ap (bblock d) s.same_sb) in
          let second = s'.foreign c (low c lo) (s.used_stays c lo e) far' first.1 in
          (second.0 ∙ first.0, second.1);
      mapped_stays = λ bn lo nz. s'.mapped_stays bn lo (s.mapped_stays bn lo nz);
    }

-- A bmap, then a write of the block `d` to the slot `q`.
module _ (v : Volume) (ip : Inode) (v1 : Volume) (ip1 : Inode) (q : ℕ) (d : Block) (f : ℕ → ℕ)
    (g : Grows v ip v1 ip1) (low : q < 142) (ne : q ≢ 12) (nz : owned v1 ip1 q ≢ 0)
    (bytes : (i : ℕ) → i < 140 * 512 → byte (write_block (owned v1 ip1 q) d v1) ip1 i ≡ f i) where
  abbrev end : Volume
  end = write_block (owned v1 ip1 q) d v1

  owned_differs :
      (c : ℕ)
      → used v c ≡ true
      → ((p : ℕ) → p < 142 → c ≢ owned v ip p)
      → (p : ℕ) → p < 142
      → c ≢ owned v1 ip1 p
  owned_differs c busy ne p lo e = elim (g.slots p lo) [
    | inl same ↦ ne p lo (e ∙ same)
    | inr free ↦ cc (busy, free, e)
  ]

  pub grown-Stored : Stored v ip end ip1 f
  grown-Stored =
      let size_eq : v1.sb.size ≡ v.sb.size = ap (λ (s : Superblock). s.size) g.same_sb in
      record {
        file = write-IsFile v1 ip1 q d g.file low ne nz;
        same_sb = g.same_sb;
        fields = g.fields;
        bytes = bytes;
        used_stays = λ c lo e.
            used_write v1 ip1 q d g.file low ne nz c (subst (λ (n : ℕ). c < n) (sym size_eq) lo)
            ∙ g.used_stays c lo e;
        foreign = λ c lo e far other. (
          update_ne v1.block (owned v1 ip1 q) c d (λ same. owned_differs c e other q low (sym same))
              ∙ (g.keeps c lo e far (other 12 (omega arith))).0,
          λ p in_slots same.
              owned_differs c e other p in_slots (same ∙ owned_write v1 ip1 q d g.file low ne nz p),
        );
        mapped_stays = λ bn lo nz' z. nz' (
            sym (g.mapped_stays bn lo nz')
            ∙ (sym (owned_write v1 ip1 q d g.file low ne nz (slot bn)) ∙ z));
      }

  pub end_free : free end ≡ free v1
  end_free = free_same v1.sb.size v1 end (λ c lo. used_write v1 ip1 q d g.file low ne nz c lo)

-- The blocks that `n` bytes at `off` touch.
abbrev pub blocks : ℕ → ℕ → ℕ
blocks off n = if n == 0 then 0 else (off % 512 + n + 511) / 512

-- A file block in the range was missing, and at most `limit` disk blocks are free.
pub record NoRoom (off n : ℕ) (v : Volume) (ip : Inode) (limit : ℕ) : Type 0 where
  pub hole : ℕ
  pub start : off ≤ hole
  pub below : hole < off + n
  pub missing : mapped v ip (hole / 512) ≡ 0
  pub few : free v ≤ limit

-- The range is part of a larger one, behind a first part that took `c` blocks.
pub NoRoom-before :
    (off n off1 n1 : ℕ) (v : Volume) (ip : Inode) (v1 : Volume) (ip1 : Inode) (f : ℕ → ℕ)
    (l c limit : ℕ)
    → Stored v ip v1 ip1 f
    → off ≤ off1
    → off1 + n1 ≤ off + n
    → off + n ≤ 140 * 512
    → free v ≤ free v1 + c
    → l + c ≤ limit
    → NoRoom off1 n1 v1 ip1 l
    → NoRoom off n v ip limit
NoRoom-before off n off1 n1 v ip v1 ip1 f l c limit s lo hi fits cost enough r = record {
  hole = r.hole;
  start = omega (arith, r.start);
  below = omega (arith, r.below);
  missing = was_hole (r.hole / 512) (omega (arith, r.below)) r.missing;
  few = omega (arith, r.few);
}
  where
    was_hole : (bn : ℕ) → bn < 140 → mapped v1 ip1 bn ≡ 0 → mapped v ip bn ≡ 0
    was_hole bn lo e = elim (Bool-cases (mapped v ip bn == 0)) [
      | inl hole ↦ ==→eq _ _ hole
      | inr there ↦ absurd (s.mapped_stays bn lo (==→ne _ _ there) e)
    ]

-- A bmap alone.
pub Grows-Stored :
    (v : Volume) (ip : Inode) (v1 : Volume) (ip1 : Inode)
    → Grows v ip v1 ip1
    → Stored v ip v1 ip1 (byte v ip)
Grows-Stored v ip v1 ip1 g = record {
  file = g.file;
  same_sb = g.same_sb;
  fields = g.fields;
  bytes = g.bytes;
  used_stays = g.used_stays;
  foreign = λ c lo e far ne. (
    (g.keeps c lo e far (ne 12 (omega arith))).0,
    λ p in_slots same. elim (g.slots p in_slots) [
      | inl old ↦ ne p in_slots (same ∙ old)
      | inr free ↦ cc (e, free, same)
    ],
  );
  mapped_stays = λ bn lo nz z. nz (sym (g.mapped_stays bn lo nz) ∙ z);
}

-- The inode on disk is no part of the file's bytes.
pub iupdate-Stored :
    (v : Volume) (ip : Inode) → IsFile v ip → Stored v ip (iupdate ip v) ip (byte v ip)
unfolding iupdate
iupdate-Stored v ip h =
    grown-Stored v ip v ip 141 (put_dinode (dinode_at ip.inum) ip (v.block (iblock ip.inum v.sb))) _
      (Grows-refl v ip h) (omega arith) (omega arith) h.stored
      (λ i lo. byte_else v ip 141 _ h (omega arith) (omega arith) h.stored i lo (ground arith))

pub iupdate-free : (v : Volume) (ip : Inode) → IsFile v ip → free (iupdate ip v) ≡ free v
unfolding iupdate
iupdate-free v ip h =
    free_same v.sb.size v (iupdate ip v)
      (λ c lo. used_write v ip 141 _ h (omega arith) (omega arith) h.stored c lo)

-- The size is none either.
pub size-Stored :
    (v : Volume) (ip : Inode) (v' : Volume) (ip' : Inode) (f : ℕ → ℕ) (n : ℕ)
    → Stored v ip v' ip' f
    → Stored v (record ip { size = n }) v' (record ip' { size = n }) f
size-Stored v ip v' ip' f n s = record {
  file = size-IsFile v' ip' n s.file;
  same_sb = s.same_sb;
  fields = ap (λ (j : Inode). record j { size = n }) s.fields;
  bytes = s.bytes;
  used_stays = s.used_stays;
  foreign = s.foreign;
  mapped_stays = s.mapped_stays;
}
