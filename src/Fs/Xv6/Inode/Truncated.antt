-- ===== src/Fs/Xv6/Inode/Truncated.antt =====
-- itrunc of fs/xv6fs.c as a whole: it frees what the file owns and nothing else.
use re_xvapor.Base.{
  ℕ, zero, suc, ◌+◌, ◌-◌, ◌^◌, ◌≤◌, ◌<◌, ◌≡◌, ◌≢◌, refl, sym, ◌∙◌, ap, subst, true, false, and-true,
  and-false, Bool-cases, some, update, update_ne, update_eq, ltb, ◌==◌, ==→eq, ==→ne, ne→==, arith,
  ◌⊎◌, inl, inr,
}
use re_xvapor.Fs.Xv6.{Volume, Superblock, bblock, bfree}
use re_xvapor.Fs.Xv6.Bitmap.{used}
use re_xvapor.Fs.Xv6.Inode.{
  Inode, iblock, ndirect, nindirect, with_addr, iupdate, put_dinode, dinode_at, free_direct,
  free_indirect, itrunc_indirect, itrunc,
}
use re_xvapor.Fs.Xv6.Inode.Map.{owned, slot, mapped, IsFile}
use re_xvapor.Fs.Xv6.Inode.Trunc.{
  ord, ord_low, gone, gone_miss, gone_hit, Freeing, nothing-Freeing, skip-Freeing, free-Freeing,
}
use re_xvapor.Fs.Xv6.Data.Bytes.{used_write, write-IsFile}
use re_xvapor.Fs.Xv6.Inode.Itrunc.{with_addrs, Cleared, at_indirect, direct_loop, indirect_loop}

-- The branches of itrunc.
indirect_none : (ip : Inode) (w : Volume) → ip.addrs 12 ≡ 0 → itrunc_indirect ip w ≡ some (ip, w)
unfolding itrunc_indirect
indirect_none ip w e = rw e refl

indirect_runs :
    (ip : Inode) (w u t : Volume)
    → ip.addrs 12 ≢ 0
    → free_indirect nindirect 0 (ip.addrs 12) w ≡ some u
    → bfree (ip.addrs 12) u ≡ some t
    → itrunc_indirect ip w ≡ some (with_addr 12 0 ip, t)
unfolding itrunc_indirect
indirect_runs ip w u t nz e f =
    let there : (ip.addrs 12 == 0) ≡ false = ne→== _ _ nz in rw (there, e, f) refl

itrunc_runs :
    (ip jp kp : Inode) (v w u : Volume)
    → free_direct ndirect 0 ip v ≡ some (jp, w)
    → itrunc_indirect jp w ≡ some (kp, u)
    → itrunc ip v ≡ some (record kp { size = 0 }, iupdate (record kp { size = 0 }) u)
unfolding itrunc
itrunc_runs ip jp kp v w u e f = rw (itrunc, e, f) refl

module _ (v : Volume) (ip : Inode) (h : IsFile v ip) where
  -- Without an indirect block its entries are holes.
  holes_loop :
      (n j : ℕ) (w : Volume)
      → ip.addrs 12 ≡ 0
      → n + j ≡ 128
      → Freeing v ip (12 + j) w
      → Freeing v ip 140 w
  holes_loop zero j w hole sum f =
      let last : 12 + j ≡ 140 = omega arith in subst (λ (k : ℕ). Freeing v ip k w) last f
  holes_loop (suc n) j w hole sum f =
      let next : suc (12 + j) ≡ 12 + (j + 1) = omega arith in
      let empty : owned v ip (ord (12 + j)) ≡ 0 =
        at_indirect v ip h j (omega arith) ∙ rw hole refl in
      holes_loop n (j + 1) w hole (omega arith) (
        subst (λ (k : ℕ). Freeing v ip k w) next
          (skip-Freeing v ip h (12 + j) w (omega arith) f empty))

  indirect_part :
      (a : ℕ → ℕ) (w : Volume)
      → Freeing v ip 12 w
      → Cleared v ip h 12 a
      → (a' : ℕ → ℕ) × (u : Volume) × (itrunc_indirect (with_addrs v ip h a) w
          ≡ some (with_addrs v ip h a', u))
        × Freeing v ip 141 u
        × ((j : ℕ) → j < 13 → a' j ≡ 0)
  indirect_part a w f cl = elim (Bool-cases (ip.addrs 12 == 0)) [
    | inl e ↦
        let hole : ip.addrs 12 ≡ 0 = ==→eq _ _ e in
        let g = holes_loop 128 0 w hole (omega arith) f in
        (
          a,
          w,
          indirect_none (with_addrs v ip h a) w (cl 12 ∙ hole),
          skip-Freeing v ip h 140 w (omega arith) g hole,
          λ j lo. elim (Bool-cases (j == 12)) [
            | inl last ↦ ap a (==→eq _ _ last) ∙ (cl 12 ∙ hole)
            | inr other ↦ cleared j (ground (arith, ==→ne _ _ other))
          ],
        )
    | inr e ↦
        let there : ip.addrs 12 ≢ 0 = ==→ne _ _ e in
        let g = indirect_loop v ip h there 128 0 w (omega arith) f in
        let k = free-Freeing v ip h 140 (g.0) (omega arith) g.2 there in
        let same : a 12 ≡ ip.addrs 12 = cl 12 in
        (
          update a 12 0,
          k.0,
          indirect_runs (with_addrs v ip h a) w (g.0) (k.0) (λ z. there (sym same ∙ z))
              (ap (λ (b : ℕ). free_indirect nindirect 0 b w) same ∙ g.1)
              (ap (λ (b : ℕ). bfree b (g.0)) same ∙ k.1),
          k.2,
          λ j lo. elim (Bool-cases (j == 12)) [
            | inl last ↦ update_eq a 12 j 0 (sym (==→eq _ _ last))
            | inr other ↦
                update_ne a 12 j 0 (λ z. ==→ne _ _ other (sym z))
                ∙ cleared j (ground (arith, ==→ne _ _ other))
          ],
        )
  ]
    where
      cleared : (j : ℕ) → j < 12 → a j ≡ 0
      cleared j lo = let b : ltb j 12 ≡ true = ground arith in cl j ∙ rw b refl

-- What itrunc leaves: an empty file, with its blocks free.
pub record Truncated (v : Volume) (ip : Inode) (v' : Volume) (ip' : Inode) : Type 0 where
  pub file : IsFile v' ip'
  pub same_sb : v'.sb ≡ v.sb
  pub fields : ip' ≡ record ip { size = 0; addrs = ip'.addrs }
  pub empty : (bn : ℕ) → bn < 140 → mapped v' ip' bn ≡ 0
  pub freed : (p : ℕ) → p < 141 → owned v ip p ≢ 0 → used v' (owned v ip p) ≡ false
  pub kept : (c : ℕ) → c < v.sb.size → ((p : ℕ) → p < 141 → owned v ip p ≢ c) → used v' c ≡ used v c
  pub contents :
      (c : ℕ)
      → ((d : ℕ) → d < v.sb.size → c ≢ bblock d v.sb)
      → c ≢ iblock ip.inum v.sb
      → v'.block c ≡ v.block c

-- With all blocks freed and the addresses cleared.
module _ (v : Volume) (ip : Inode) (u : Volume) (a : ℕ → ℕ) (h : IsFile v ip)
    (f : Freeing v ip 141 u) (zeros : (j : ℕ) → j < 13 → a j ≡ 0) where
  abbrev end : Inode
  end = record ip { size = 0; addrs = a }

  owned_zero : (w : Volume) (p : ℕ) → p < 141 → owned w end p ≡ 0
  owned_zero w p lo = elim (Bool-cases (ltb p 13)) [
    | inl near ↦ rw near (zeros p (ground arith))
    | inr far ↦ let b : ltb p 141 ≡ true = ground arith in rw (far, b, zeros 12 (omega arith)) refl
  ]

  -- A slot holds nothing, or it is that of the inode.
  slot_cases :
      (p : ℕ) → p < 142 → (owned u end p ≡ 0) ⊎ (p ≡ 141) × (owned u end p ≡ iblock ip.inum v.sb)
  slot_cases p lo = elim (Bool-cases (ltb p 141)) [
    | inl early ↦ inl (owned_zero u p (ground arith))
    | inr last ↦
        let e : p ≡ 141 = ground arith in
        let far : ltb p 13 ≡ false = ground arith in inr ((e, rw (far, last, f.same_sb) refl))
  ]

  not_gone :
      (c : ℕ) → ((p : ℕ) → p < 141 → owned v ip p ≢ 0 → owned v ip p ≢ c) → gone v ip 141 c ≡ false
  not_gone c ne = gone_miss v ip 141 c (λ k lo nz. ne (ord k) (ord_low k lo) nz)

  used_kept :
      (c : ℕ)
      → c < v.sb.size
      → ((p : ℕ) → p < 141 → owned v ip p ≢ 0 → owned v ip p ≢ c)
      → used u c ≡ used v c
  used_kept c lo ne = f.cleared c lo ∙ rw (not_gone c ne) (and-true (used v c))

  inode_used : used u (iblock ip.inum v.sb) ≡ true
  inode_used =
      used_kept (iblock ip.inum v.sb) (h.inside 141 (omega arith))
        (λ p lo nz. h.apart p 141 (omega arith) (omega arith) (omega arith) nz)
      ∙ h.busy 141 (omega arith) h.stored

  size_eq : u.sb.size ≡ v.sb.size
  size_eq = ap (λ (s : Superblock). s.size) f.same_sb

  empty-IsFile : IsFile u end
  empty-IsFile = record {
    layout = f.layout;
    narrow = subst (λ (s : Superblock). s.size ≤ 2 ^ 32) (sym f.same_sb) h.narrow;
    boot = used_kept 0 (omega (arith, h.layout.one_inside)) (λ p lo nz. nz) ∙ h.boot;
    stored = rw f.same_sb h.stored;
    busy = λ p lo nz. elim (slot_cases p lo) [
      | inl hole ↦ absurd (nz hole)
      | inr last ↦ ap (used u) (last.1) ∙ inode_used
    ];
    inside = λ p lo.
        subst (λ (n : ℕ). owned u end p < n) (sym size_eq)
          (elim (slot_cases p lo) [
            | inl hole ↦
                subst (λ (x : ℕ). x < v.sb.size) (sym hole) (omega (arith, h.layout.one_inside))
            | inr last ↦ subst (λ (x : ℕ). x < v.sb.size) (sym last.1) (h.inside 141 (omega arith))
          ]);
    not_super = λ p lo e. elim (slot_cases p lo) [
      | inl hole ↦ let none_e : 0 ≡ 1 = sym hole ∙ e in omega (arith, none_e)
      | inr last ↦ h.not_super 141 (omega arith) (sym last.1 ∙ e)
    ];
    not_map = λ p c lo nz in_size e. elim (slot_cases p lo) [
      | inl hole ↦ nz hole
      | inr last ↦
          h.not_map 141 c (omega arith) h.stored (subst (λ (n : ℕ). c < n) size_eq in_size)
            (sym last.1 ∙ (e ∙ ap (bblock c) f.same_sb))
    ];
    apart = λ p q lo lo' ne nz e. elim (slot_cases p lo) [
      | inl hole ↦ nz hole
      | inr last ↦ elim (slot_cases q lo') [
        | inl hole ↦ nz (e ∙ hole)
        | inr last' ↦ ne (last.0 ∙ sym last'.0)
      ]
    ];
  }

  abbrev kept_inode : Volume
  kept_inode = iupdate end u

  stored_inode : owned u end 141 ≢ 0
  stored_inode = empty-IsFile.stored

  all-Truncated : Truncated v ip kept_inode end
  unfolding iupdate
  all-Truncated =
      let d = put_dinode (dinode_at ip.inum) end (u.block (iblock ip.inum u.sb)) in
      let same_used = λ (c : ℕ) (lo : c < v.sb.size).
        used_write u end 141 d empty-IsFile (omega arith) (omega arith) stored_inode c
          (subst (λ (n : ℕ). c < n) (sym size_eq) lo) in
      record {
        file = write-IsFile u end 141 d empty-IsFile (omega arith) (omega arith) stored_inode;
        same_sb = f.same_sb;
        fields = refl;
        empty = λ bn lo. owned_zero kept_inode (slot bn) (ground arith);
        freed = λ p lo nz.
            same_used (owned v ip p) (h.inside p (omega arith))
            ∙ (f.cleared (owned v ip p) (h.inside p (omega arith))
                ∙ rw (all_gone p lo nz) (and-false (used v (owned v ip p))));
        kept = λ c lo ne. same_used c lo ∙ used_kept c lo (λ p in_slots nz. ne p in_slots);
        contents = λ c far ne.
            update_ne u.block (iblock ip.inum u.sb) c d
              (λ e. ne (sym e ∙ ap (iblock ip.inum) f.same_sb))
            ∙ f.others c far;
      }
    where
      -- Each slot has its turn.
      turn : (p : ℕ) → p < 141 → (k : ℕ) × (k < 141) × (ord k ≡ p)
      turn p lo = elim (Bool-cases (ltb p 12)) [
        | inl low ↦ (p, (ground arith), ground arith)
        | inr high ↦ elim (Bool-cases (p == 12)) [
          | inl this ↦ (140, (omega arith), sym (==→eq _ _ this))
          | inr other ↦ (p - 1, (omega arith), ground arith)
        ]
      ]

      all_gone : (p : ℕ) → p < 141 → owned v ip p ≢ 0 → gone v ip 141 (owned v ip p) ≡ true
      all_gone p lo nz =
          let t = turn p lo in
          gone_hit v ip 141 (owned v ip p) (t.0) t.1 (λ z. nz (sym (ap (owned v ip) t.2) ∙ z))
            (ap (owned v ip) t.2)

-- On a sound file itrunc runs through: it leaves a sound, empty file of size 0, frees the blocks that the
-- file had and no other, and changes no block but the bitmap's and the inode's.
pub itrunc-Truncated :
    (v : Volume) (ip : Inode)
    → IsFile v ip
    → (ip' : Inode) × (v' : Volume) × (itrunc ip v ≡ some (ip', v')) × Truncated v ip v' ip'
itrunc-Truncated v ip h =
    let d =
      direct_loop v ip h 12 0 ip.addrs v (omega arith) (nothing-Freeing v ip h)
        (λ j. let b : ltb j 0 ≡ false = ground arith in rw b refl) in
    let i = indirect_part v ip h (d.0) (d.1) d.3 d.4 in
    (
      record ip { size = 0; addrs = i.0 },
      iupdate (record ip { size = 0; addrs = i.0 }) (i.1),
      itrunc_runs ip (record ip { addrs = d.0 }) (record ip { addrs = i.0 }) v (d.1) (i.1) d.2 i.2,
      all-Truncated v ip (i.1) (i.0) h i.3 i.4,
    )
