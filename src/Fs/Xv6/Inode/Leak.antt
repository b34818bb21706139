-- ===== src/Fs/Xv6/Inode/Leak.antt =====
-- bmap of fs/xv6fs.c where an entry of the indirect block is missing: of the two blocks that it allocates
-- one is lost.
use re_xvapor.Base.{
  ℕ, ◌+◌, ◌*◌, ◌<◌, ◌≡◌, ◌≢◌, refl, sym, ◌∙◌, ap, subst, Bool, true, false, or-true, Bool-cases,
  Option, none, some, ◌==◌, ==→eq, ==→ne, eq→==, ne→==, if◌then◌else◌, arith, inl, inr,
}
use re_xvapor.Fs.Xv6.{Volume, Superblock, word_at, set_word, write_block, balloc}
use re_xvapor.Fs.Xv6.Bitmap.{used}
use re_xvapor.Fs.Xv6.Blocks.{Allocated, Given, given, none_free, balloc-Given}
use re_xvapor.Fs.Xv6.Inode.{Inode, bmap_entry, bmap}
use re_xvapor.Fs.Xv6.Inode.Map.{entry, owned, IsFile, owned_old, owned_stays, owned_alloc}
use re_xvapor.Fs.Xv6.Inode.Addr.{lost-Grows, stored_used, owned_here, owned_other}
use re_xvapor.Fs.Xv6.Inode.Entry.{entry_none, entry_one, entry_two}
use re_xvapor.Fs.Xv6.Inode.Bmap.{bmap_far}

-- What a balloc leaves free.
free_left :
    (v v1 : Volume) (k : ℕ)
    → Allocated v k v1
    → (j : ℕ) → j < v.sb.size
    → used v j ≡ false
    → j ≢ k
    → (j < v1.sb.size) × (used v1 j ≡ false)
free_left v v1 k al j lo free ne =
    let other : (k == j) ≡ false = ground (arith, ne) in
    ((
      subst (λ (s : Superblock). j < s.size) (sym al.same_sb) lo,
      al.marked j lo ∙ rw (free, other) refl,
    ))

none_left :
    (v : Volume) (j : ℕ)
    → ((i : ℕ) → i < v.sb.size → used v i ≡ true)
    → j < v.sb.size
    → used v j ≢ false
none_left v j all lo free = cc (all j lo, free)

-- A block that was free, is in use and has no place in the file.
pub record Lost (v : Volume) (ip : Inode) (v' : Volume) : Type 0 where
  pub block : ℕ
  pub inside : block < v.sb.size
  pub was_free : used v block ≡ false
  pub now_used : used v' block ≡ true
  pub nowhere : (p : ℕ) → p < 142 → owned v' ip p ≢ block

pub data Leaks (v : Volume) : Option (ℕ × Inode × Volume) → Type 0 where
  leaks : (a : ℕ) (ip' : Inode) (v' : Volume) → Lost v ip' v' → Leaks v (some (a, ip', v'))
  panics : (k : ℕ) → ((j : ℕ) → j < v.sb.size → used v j ≡ false → j ≡ k) → Leaks v none

module _ (v : Volume) (ip : Inode) (i : ℕ) (h : IsFile v ip) (low : i < 128)
    (there : ip.addrs 12 ≢ 0) (missing : entry v ip i ≡ 0) where
  word_missing : (word_at (v.block (ip.addrs 12)) (4 * i) == 0) ≡ true
  word_missing = eq→== _ _ (
      subst (λ (b : Bool). (if b then 0 else word_at (v.block (ip.addrs 12)) (4 * i)) ≡ 0)
        (ne→== _ _ there) missing)

  module _ (k l : ℕ) (v1 v2 : Volume) (al : Allocated v k v1) (al2 : Allocated v1 l v2) where
    abbrev stored : Volume
    stored = write_block (ip.addrs 12) (set_word (4 * i) l (v2.block (ip.addrs 12))) v2

    file1 : IsFile v1 ip
    file1 = (lost-Grows v v1 k ip h al).file

    missing1 : entry v1 ip i ≡ 0
    missing1 =
        let nz : (ip.addrs 12 == 0) ≡ false = ne→== _ _ there in
        rw (nz, owned_stays v v1 k ip h al 12 (omega arith) there) (==→eq _ _ word_missing)

    k_used : used v1 k ≡ true
    k_used =
        let self : (k == k) ≡ true = ground arith in
        al.marked k al.inside ∙ rw self (or-true (used v k))

    first-Lost : Lost v ip stored
    first-Lost = record {
      block = k;
      inside = al.inside;
      was_free = al.free;
      now_used =
          let low1 : k < v1.sb.size =
            subst (λ (s : Superblock). k < s.size) (sym al.same_sb) al.inside in
          stored_used v1 v2 l ip file1 al2 i low there missing1 k low1
          ∙ (al2.marked k low1 ∙ rw k_used refl);
      nowhere = λ p lo e. elim (Bool-cases (p == 13 + i)) [
        | inl this ↦
            let at : owned stored ip p ≡ l =
              ap (owned stored ip) (==→eq _ _ this)
              ∙ owned_here v1 v2 l ip file1 al2 i low there missing1 in
            cc (k_used, al2.free, e, at)
        | inr other ↦ owned_old v v1 k ip h al p lo (
            sym (
              owned_other v1 v2 l ip file1 al2 i low there missing1 p lo (==→ne _ _ other)
              ∙ owned_alloc v v1 k ip h al p lo)
            ∙ e)
      ];
    }

  second-Leaks :
      (k : ℕ) (v1 : Volume) (o : Option (ℕ × Volume))
      → Allocated v k v1
      → balloc v ≡ some (k, v1)
      → balloc v1 ≡ o
      → Given v1 o
      → Leaks v (bmap_entry ip (ip.addrs 12) i v)
  second-Leaks k v1 o al f g (none_free all) =
      subst (Leaks v) (sym (entry_one v ip i h low there k v1 al word_missing f g)) (
        panics k (λ j lo free. elim (Bool-cases (j == k)) [
          | inl this ↦ ==→eq _ _ this
          | inr other ↦
              let left = free_left v v1 k al j lo free (==→ne _ _ other) in
              absurd (none_left v1 j all left.0 left.1)
        ]))
  second-Leaks k v1 o al f g (given l v2 al2) =
      subst (Leaks v) (sym (entry_two v ip i h low there k v1 al l v2 word_missing f g))
        (leaks l ip (stored k l v1 v2 al al2) (first-Lost k l v1 v2 al al2))

  entry-Leaks :
      (o : Option (ℕ × Volume))
      → balloc v ≡ o
      → Given v o
      → Leaks v (bmap_entry ip (ip.addrs 12) i v)
  entry-Leaks o f (none_free all) =
      subst (Leaks v) (sym (entry_none v ip i h low there word_missing f))
        (panics 0 (λ j lo free. absurd (none_left v j all lo free)))
  entry-Leaks o f (given k v1 al) =
      second-Leaks k v1 (balloc v1) al f refl (balloc-Given v1 al.layout)

  -- Where the indirect block of a sound file is there and its entry `i` is missing, bmap, unless it
  -- panics with at most one block free, leaves a block in use that was free and that the file does not
  -- own.
  pub bmap-Leaks : Leaks v (bmap (12 + i) ip v)
  bmap-Leaks =
      subst (Leaks v) (sym (bmap_far v ip h i low (ne→== _ _ there)))
        (entry-Leaks (balloc v) refl (balloc-Given v h.layout))
