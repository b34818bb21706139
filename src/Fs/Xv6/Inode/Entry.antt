-- ===== src/Fs/Xv6/Inode/Entry.antt =====
-- What bmap (fs/xv6fs.c) gives, and where the indirect block of the file is there.
use re_xvapor.Base.{
  ℕ, suc, ◌≤◌, ◌+◌, ◌-◌, ◌*◌, ◌<◌, ◌≡◌, ◌≢◌, refl, sym, ◌∙◌, subst, true, false, Bool-cases, Option,
  none, some, ltb, ◌==◌, ==→eq, ==→ne, arith, inl, inr,
}
use re_xvapor.Fs.Xv6.{Volume, Superblock, word_at, set_word, write_block, balloc}
use re_xvapor.Fs.Xv6.Blocks.{Allocated, Given, given, none_free, balloc-Given}
use re_xvapor.Fs.Xv6.Free.{free, Allocated-free, none_free-free, free_same}
use re_xvapor.Fs.Xv6.Inode.{Inode, bmap_entry}
use re_xvapor.Fs.Xv6.Inode.Map.{entry, slot, mapped, IsFile, new_nonzero, owned_alloc}
use re_xvapor.Fs.Xv6.Inode.Grow.{Grows, Grows-refl, Grows-trans}
use re_xvapor.Fs.Xv6.Inode.Addr.{lost-Grows, entry-Grows, entry_here, stored_used}

-- What bmap leaves for file block `bn`. It takes at most `limit` + 1 blocks, and panics with at most
-- `limit` free.
pub data Bmapped (v : Volume) (ip : Inode) (bn limit : ℕ)
    : Option (ℕ × Inode × Volume) → Type 0 where
  got :
      (a : ℕ) (ip' : Inode) (v' : Volume)
      → Grows v ip v' ip'
      → mapped v' ip' bn ≡ a
      → a ≢ 0
      → (mapped v ip bn ≢ 0 → (ip' ≡ ip) × (v' ≡ v))
      → free v ≤ free v' + suc limit
      → Bmapped v ip bn limit (some (a, ip', v'))
  full : mapped v ip bn ≡ 0 → free v ≤ limit → Bmapped v ip bn limit none

pub Bmapped-weaken :
    (v : Volume) (ip : Inode) (bn l m : ℕ) (o : Option (ℕ × Inode × Volume))
    → l ≤ m
    → Bmapped v ip bn l o
    → Bmapped v ip bn m o
Bmapped-weaken v ip bn l m o lo (got a ip' v' g here nz stays cost) =
    got a ip' v' g here nz stays (omega arith)
Bmapped-weaken v ip bn l m o lo (full hole few) = full hole (omega arith)

-- With the indirect block in place.
module _ (v : Volume) (ip : Inode) (i : ℕ) (h : IsFile v ip) (low : i < 128)
    (there : ip.addrs 12 ≢ 0) where
  ind_nz : (ip.addrs 12 == 0) ≡ false
  ind_nz = ground (arith, there)

  pub slot_entry : (w : Volume) → mapped w ip (12 + i) ≡ entry w ip i
  slot_entry w =
      let a : ltb (12 + i) 12 ≡ false = ground arith in
      let b : ltb (12 + i + 1) 13 ≡ false = ground arith in
      let c : ltb (12 + i + 1) 141 ≡ true = ground arith in
      let e : 12 + i + 1 - 13 ≡ i = omega arith in rw (a, b, c, e) refl

  at_entry : mapped v ip (12 + i) ≡ entry v ip i
  at_entry = slot_entry v

  -- The branches of bmap_entry.
  pub entry_old :
      (word_at (v.block (ip.addrs 12)) (4 * i) == 0) ≡ false
      → bmap_entry ip (ip.addrs 12) i v ≡ some (word_at (v.block (ip.addrs 12)) (4 * i), ip, v)
  unfolding bmap_entry
  entry_old e = rw e refl

  pub entry_none :
      (word_at (v.block (ip.addrs 12)) (4 * i) == 0) ≡ true
      → balloc v ≡ none
      → bmap_entry ip (ip.addrs 12) i v ≡ none
  unfolding bmap_entry
  entry_none e f = rw (e, f) refl

  module _ (k : ℕ) (v1 : Volume) (al : Allocated v k v1) where
    k_nz : (k == 0) ≡ false
    k_nz = ground (arith, new_nonzero v v1 k ip h al)

    pub entry_one :
        (word_at (v.block (ip.addrs 12)) (4 * i) == 0) ≡ true
        → balloc v ≡ some (k, v1)
        → balloc v1 ≡ none
        → bmap_entry ip (ip.addrs 12) i v ≡ none
    unfolding bmap_entry
    entry_one e f g = rw (e, f, k_nz, g) refl

    pub entry_two :
        (l : ℕ) (v2 : Volume)
        → (word_at (v.block (ip.addrs 12)) (4 * i) == 0) ≡ true
        → balloc v ≡ some (k, v1)
        → balloc v1 ≡ some (l, v2)
        → bmap_entry ip (ip.addrs 12) i v
          ≡ some (l, ip, write_block (ip.addrs 12) (set_word (4 * i) l (v2.block (ip.addrs 12))) v2)
    unfolding bmap_entry
    entry_two l v2 e f g = rw (e, f, k_nz, g) refl

  -- Two blocks are taken.
  cost :
      (k : ℕ) (v1 : Volume) (l : ℕ) (v2 : Volume)
      → Allocated v k v1
      → (al2 : Allocated v1 l v2) → IsFile v1 ip
      → entry v1 ip i ≡ 0
      → free v
        ≤ free (write_block (ip.addrs 12) (set_word (4 * i) l (v2.block (ip.addrs 12))) v2) + 2
  cost k v1 l v2 al al2 h1 e =
      let same =
        free_same v2.sb.size v2
          (write_block (ip.addrs 12) (set_word (4 * i) l (v2.block (ip.addrs 12))) v2)
          (λ c lo.
            stored_used v1 v2 l ip h1 al2 i low there e c
              (subst (λ (s : Superblock). c < s.size) al2.same_sb lo)) in
      omega (arith, Allocated-free v k v1 al, Allocated-free v1 l v2 al2, same)

  -- The second balloc.
  second-Bmapped :
      (k : ℕ) (v1 : Volume) (o : Option (ℕ × Volume))
      → Allocated v k v1
      → (word_at (v.block (ip.addrs 12)) (4 * i) == 0) ≡ true
      → balloc v ≡ some (k, v1)
      → balloc v1 ≡ o
      → Given v1 o
      → Bmapped v ip (12 + i) 1 (bmap_entry ip (ip.addrs 12) i v)
  second-Bmapped k v1 o al e f g (none_free all) =
      subst (Bmapped v ip (12 + i) 1) (sym (entry_one k v1 al e f g)) (
        full (at_entry ∙ rw ind_nz (==→eq _ _ e))
          (omega (arith, Allocated-free v k v1 al, none_free-free v1 all)))
  second-Bmapped k v1 o al e f g (given l v2 al2) =
      let first = lost-Grows v v1 k ip h al in
      let empty : entry v ip i ≡ 0 = rw ind_nz (==→eq _ _ e) in
      let empty1 : entry v1 ip i ≡ 0 =
        sym (slot_entry v1)
        ∙ (owned_alloc v v1 k ip h al (slot (12 + i)) (ground arith) ∙ (at_entry ∙ empty)) in
      subst (Bmapped v ip (12 + i) 1) (sym (entry_two k v1 al l v2 e f g)) (
        got l ip (write_block (ip.addrs 12) (set_word (4 * i) l (v2.block (ip.addrs 12))) v2)
          (Grows-trans v ip v1 ip _ ip first
            (entry-Grows v1 v2 l ip first.file al2 i low there empty1))
          (slot_entry (write_block (ip.addrs 12) (set_word (4 * i) l (v2.block (ip.addrs 12))) v2)
            ∙ entry_here v1 v2 l ip first.file al2 i low there empty1)
          (new_nonzero v1 v2 l ip first.file al2) (λ ne. absurd (ne (at_entry ∙ empty)))
          (cost k v1 l v2 al al2 first.file empty1))

  pub entry-Bmapped : Bmapped v ip (12 + i) 1 (bmap_entry ip (ip.addrs 12) i v)
  entry-Bmapped = elim (Bool-cases (word_at (v.block (ip.addrs 12)) (4 * i) == 0)) [
    | inr there ↦ subst (Bmapped v ip (12 + i) 1) (sym (entry_old there)) (
        got _ ip v (Grows-refl v ip h) (at_entry ∙ rw ind_nz refl) (==→ne _ _ there)
          (λ ne. (refl, refl)) (omega arith))
    | inl missing ↦ first (balloc v) missing refl (balloc-Given v h.layout)
  ]
    where
      first :
          (o : Option (ℕ × Volume))
          → (word_at (v.block (ip.addrs 12)) (4 * i) == 0) ≡ true
          → balloc v ≡ o
          → Given v o
          → Bmapped v ip (12 + i) 1 (bmap_entry ip (ip.addrs 12) i v)
      first o e f (none_free all) =
          subst (Bmapped v ip (12 + i) 1) (sym (entry_none e f))
            (full (at_entry ∙ rw ind_nz (==→eq _ _ e)) (omega (arith, none_free-free v all)))
      first o e f (given k v1 al) =
          second-Bmapped k v1 (balloc v1) al e f refl (balloc-Given v1 al.layout)
