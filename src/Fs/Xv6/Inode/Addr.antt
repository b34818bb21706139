-- ===== src/Fs/Xv6/Inode/Addr.antt =====
-- A new block in each of the places of an inode of fs/xv6fs.c: none, an address, an entry of the indirect
-- block.
use re_xvapor.Base.{
  ℕ, ◌+◌, ◌-◌, ◌*◌, ◌%◌, ◌≤◌, ◌<◌, ◌≡◌, ◌≢◌, refl, sym, ◌∙◌, ap, subst, true, false, Bool-cases,
  update, update_self, update_ne, ltb, ◌==◌, ==→eq, ==→ne, arith, ◌⊎◌, inl, inr,
}
use re_xvapor.Fs.Xv6.{
  Block, Volume, Superblock, superblock_of, bblock, bpb, bit_of, set_word, write_block,
}
use re_xvapor.Fs.Xv6.Bitmap.{used}
use re_xvapor.Fs.Xv6.Blocks.{IsLayout, Allocated}
use re_xvapor.Fs.Xv6.Words.{word_at-set_word, word_at-set_word_else}
use re_xvapor.Fs.Xv6.Inode.{Inode, with_addr}
use re_xvapor.Fs.Xv6.Inode.Map.{
  entry, owned, IsFile, new_nonzero, owned_old, owned_stays, owned_alloc,
}
use re_xvapor.Fs.Xv6.Inode.Grow.{Grows, put-Grows}

module _ (v v1 : Volume) (k : ℕ) (ip : Inode) (h : IsFile v ip) (al : Allocated v k v1) where
  -- Blocks in use keep their contents.
  kept :
      (c : ℕ)
      → c < v.sb.size
      → used v c ≡ true
      → ((d : ℕ) → d < v.sb.size → c ≢ bblock d v.sb)
      → v1.block c ≡ v.block c
  kept c lo e far = al.others c (λ same. cc (e, al.free, same)) (far k al.inside)

  -- A block that no slot holds.
  pub lost-Grows : Grows v ip v1 ip
  lost-Grows =
      put-Grows v v1 v1 k 142 ip ip h al
        (record {
          same_sb = al.same_sb;
          same_inum = refl;
          layout = al.layout;
          marked = al.marked;
          here = λ lo. absurd (omega arith);
          others = λ q lo ne. owned_alloc v v1 k ip h al q lo;
        })
        refl (λ lo. absurd (omega arith)) (λ x lo ne. absurd (omega arith))
        (λ c lo e far ne. kept c lo e far)

  -- One of the thirteen addresses in the inode.
  module _ (p : ℕ) (direct : p < 13) (empty : ip.addrs p ≡ 0) where
    addr_here : owned v1 (with_addr p k ip) p ≡ k
    addr_here = let is : ltb p 13 ≡ true = ground arith in rw is (update_self ip.addrs p k)

    addr_else : (q : ℕ) → q < 13 → q ≢ p → owned v1 (with_addr p k ip) q ≡ owned v ip q
    addr_else q lo ne =
        let is : ltb q 13 ≡ true = ground arith in
        rw is (update_ne ip.addrs p q k (λ e. ne (sym e)))

    entry_else : (i : ℕ) → i < 128 → entry v1 (with_addr p k ip) i ≡ entry v ip i
    entry_else i lo = elim (Bool-cases (p == 12)) [
      | inl this ↦
          let e : p ≡ 12 = ==→eq _ _ this in
          let hole : ip.addrs 12 ≡ 0 = ap ip.addrs (sym e) ∙ empty in
          let new : update ip.addrs p k 12 ≡ k =
            ap (update ip.addrs p k) (sym e) ∙ update_self ip.addrs p k in
          let nz : (k == 0) ≡ false = ground (arith, new_nonzero v v1 k ip h al) in
          rw
            (
              new,
              nz,
              hole,
              al.zeroed (4 * i),
              al.zeroed (4 * i + 1),
              al.zeroed (4 * i + 2),
              al.zeroed (4 * i + 3),
            )
            refl
      | inr other ↦
          let same : update ip.addrs p k 12 ≡ ip.addrs 12 =
            update_ne ip.addrs p 12 k (==→ne _ _ other) in
          rw same (elim (Bool-cases (ip.addrs 12 == 0)) [
            | inl hole ↦ rw hole refl
            | inr there ↦
                rw (there, owned_stays v v1 k ip h al 12 (omega arith) (==→ne _ _ there)) refl
          ])
    ]

    owned_else : (q : ℕ) → q < 142 → q ≢ p → owned v1 (with_addr p k ip) q ≡ owned v ip q
    owned_else q lo ne = elim (Bool-cases (ltb q 13)) [
      | inl near ↦ addr_else q (ground arith) ne
      | inr far ↦ elim (Bool-cases (ltb q 141)) [
        | inl indirect ↦ rw (far, indirect) (entry_else (q - 13) (ground arith))
        | inr last ↦ rw (far, last, al.same_sb) refl
      ]
    ]

    pub addr-Grows : Grows v ip v1 (with_addr p k ip)
    addr-Grows =
        put-Grows v v1 v1 k p ip (with_addr p k ip) h al
          (record {
            same_sb = al.same_sb;
            same_inum = refl;
            layout = al.layout;
            marked = al.marked;
            here = λ lo. addr_here;
            others = owned_else;
          })
          refl (λ lo. let is : ltb p 13 ≡ true = ground arith in rw is empty)
          (λ x lo ne. al.zeroed x) (λ c lo e far ne. kept c lo e far)

  -- An entry of the indirect block.
  module _ (i : ℕ) (low : i < 128) (there : ip.addrs 12 ≢ 0) (empty : entry v ip i ≡ 0) where
    abbrev ind : ℕ
    ind = ip.addrs 12

    abbrev stored : Volume
    stored = write_block ind (set_word (4 * i) k (v1.block ind)) v1

    same_block : v1.block ind ≡ v.block ind
    same_block = owned_stays v v1 k ip h al 12 (omega arith) there

    stored_else : (c : ℕ) → c ≢ ind → stored.block c ≡ v1.block c
    stored_else c ne = update_ne v1.block ind c _ (λ e. ne (sym e))

    stored_at : stored.block ind ≡ set_word (4 * i) k (v1.block ind)
    stored_at = update_self v1.block ind _

    not_bitmap : (c : ℕ) → c < v.sb.size → bblock c v.sb ≢ ind
    not_bitmap c lo e = h.not_map 12 c (omega arith) there lo (sym e)

    pub stored_used : (c : ℕ) → c < v.sb.size → used stored c ≡ used v1 c
    stored_used c lo =
        ap (λ (d : Block). bit_of d (c % bpb))
          (stored_else (bblock c v1.sb) (λ e. not_bitmap c lo (ap (bblock c) (sym al.same_sb) ∙ e)))

    size_low : (c : ℕ) → c < v1.sb.size → c < v.sb.size
    size_low c lo = subst (λ (s : Superblock). c < s.size) al.same_sb lo

    stored-IsLayout : IsLayout stored
    stored-IsLayout =
        let l = al.layout in
        record {
          bitmap = λ c lo.
              stored_used (bblock c v1.sb) (size_low (bblock c v1.sb) (l.inside c lo))
              ∙ l.bitmap c lo;
          inside = l.inside;
          first = stored_used 1 h.layout.one_inside ∙ l.first;
          same =
              ap superblock_of (stored_else 1 (λ e. h.not_super 12 (omega arith) (sym e))) ∙ l.same;
          apart = l.apart;
          one_inside = l.one_inside;
        }

    pub entry_here : entry stored ip i ≡ k
    entry_here =
        let nz : (ind == 0) ≡ false = ground (arith, there) in
        rw (nz, stored_at)
          (word_at-set_word (4 * i) k (v1.block ind) (omega (arith, al.inside, h.narrow)))

    entry_other : (j : ℕ) → j ≢ i → entry stored ip j ≡ entry v ip j
    entry_other j ne =
        let nz : (ind == 0) ≡ false = ground (arith, there) in
        rw (nz, stored_at, same_block)
          (word_at-set_word_else (4 * i) k (v.block ind) (4 * j) (side (Bool-cases (ltb j i))))
      where
        side : (ltb j i ≡ true) ⊎ (ltb j i ≡ false) → 4 * j + 4 ≤ 4 * i ⊎ 4 * i + 4 ≤ 4 * j
        side (inl before) = inl (ground arith)
        side (inr after) = inr (ground (arith, ne))

    pub owned_here : owned stored ip (13 + i) ≡ k
    owned_here =
        let far : ltb (13 + i) 13 ≡ false = ground arith in
        let near : ltb (13 + i) 141 ≡ true = ground arith in
        let index : 13 + i - 13 ≡ i = omega arith in rw (far, near, index) entry_here

    pub owned_other : (q : ℕ) → q < 142 → q ≢ 13 + i → owned stored ip q ≡ owned v ip q
    owned_other q lo ne = elim (Bool-cases (ltb q 13)) [
      | inl near ↦ rw near refl
      | inr far ↦ elim (Bool-cases (ltb q 141)) [
        | inl indirect ↦ rw (far, indirect) (entry_other (q - 13) (ground (arith, ne)))
        | inr last ↦ rw (far, last, al.same_sb) refl
      ]
    ]

    pub entry-Grows : Grows v ip stored ip
    entry-Grows =
        put-Grows v v1 stored k (13 + i) ip ip h al
          (record {
            same_sb = al.same_sb;
            same_inum = refl;
            layout = stored-IsLayout;
            marked = λ c lo. stored_used c lo ∙ al.marked c lo;
            here = λ lo. owned_here;
            others = owned_other;
          })
          refl
          (λ lo.
            let far : ltb (13 + i) 13 ≡ false = ground arith in
            let near : ltb (13 + i) 141 ≡ true = ground arith in
            let index : 13 + i - 13 ≡ i = omega arith in rw (far, near, index) empty)
          (λ x lo ne.
            ap (λ (d : Block). d x)
              (stored_else k (λ e. owned_old v v1 k ip h al 12 (omega arith) (sym e)))
            ∙ al.zeroed x)
          (λ c lo e far ne. stored_else c ne ∙ kept c lo e far)
