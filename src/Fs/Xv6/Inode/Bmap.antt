-- ===== src/Fs/Xv6/Inode/Bmap.antt =====
-- bmap of fs/xv6fs.c: it gives a file's block a disk block, and changes nothing else of the file.
use re_xvapor.Base.{
  ℕ, ◌+◌, ◌-◌, ◌<◌, ◌≡◌, refl, sym, ◌∙◌, ap, subst, true, false, Bool-cases, Option, none, some,
  update, update_self, ltb, ◌==◌, ==→eq, ==→ne, arith, inl, inr,
}
use re_xvapor.Fs.Xv6.{Volume, balloc}
use re_xvapor.Fs.Xv6.Blocks.{Allocated, Given, given, none_free, balloc-Given}
use re_xvapor.Fs.Xv6.Free.{Allocated-free, none_free-free}
use re_xvapor.Fs.Xv6.Inode.{Inode, with_addr, bmap_entry, bmap}
use re_xvapor.Fs.Xv6.Inode.Map.{mapped, IsFile, new_nonzero}
use re_xvapor.Fs.Xv6.Inode.Grow.{Grows, Grows-refl, Grows-trans}
use re_xvapor.Fs.Xv6.Inode.Addr.{addr-Grows}
use re_xvapor.Fs.Xv6.Inode.Entry.{Bmapped, got, full, Bmapped-weaken, entry-Bmapped}

-- Behind a first step.
later-Bmapped :
    (v : Volume) (ip : Inode) (v1 : Volume) (ip1 : Inode) (bn k : ℕ)
    (o : Option (ℕ × Inode × Volume))
    → bn < 140
    → Grows v ip v1 ip1
    → Allocated v k v1
    → mapped v ip bn ≡ 0
    → Bmapped v1 ip1 bn 1 o
    → Bmapped v ip bn 2 o
later-Bmapped v ip v1 ip1 bn k o low g al hole (got a ip2 v2 g2 here nz stays cost) =
    got a ip2 v2 (Grows-trans v ip v1 ip1 v2 ip2 g g2) here nz (λ ne. absurd (ne hole))
      (omega (arith, Allocated-free v k v1 al))
later-Bmapped v ip v1 ip1 bn k o low g al hole (full hole1 few) =
    full hole (omega (arith, Allocated-free v k v1 al))

module _ (v : Volume) (ip : Inode) (h : IsFile v ip) where
  -- A direct block.
  direct_slot : (bn : ℕ) → bn < 12 → (w : Volume) (jp : Inode) → mapped w jp bn ≡ jp.addrs bn
  direct_slot bn lo w jp =
      let a : ltb bn 12 ≡ true = ground arith in
      let b : ltb bn 13 ≡ true = ground arith in rw (a, b) refl

  module _ (bn : ℕ) (lo : bn < 12) where
    direct_old : (ip.addrs bn == 0) ≡ false → bmap bn ip v ≡ some (ip.addrs bn, ip, v)
    unfolding bmap
    direct_old e = let a : ltb bn 12 ≡ true = ground arith in rw (a, e) refl

    direct_new :
        (o : Option (ℕ × Volume))
        → (ip.addrs bn == 0) ≡ true
        → balloc v ≡ o
        → Given v o
        → Bmapped v ip bn 2 (bmap bn ip v)
    unfolding bmap
    direct_new o e f (none_free all) =
        let a : ltb bn 12 ≡ true = ground arith in
        rw (a, e, f)
          (full (direct_slot bn lo v ip ∙ ==→eq _ _ e) (omega (arith, none_free-free v all)))
    direct_new o e f (given k v1 al) =
        let a : ltb bn 12 ≡ true = ground arith in
        rw (a, e, f)
          (got k (with_addr bn k ip) v1 (addr-Grows v v1 k ip h al bn (omega arith) (==→eq _ _ e))
            (direct_slot bn lo v1 (with_addr bn k ip) ∙ update_self ip.addrs bn k)
            (new_nonzero v v1 k ip h al) (λ ne. absurd (ne (direct_slot bn lo v ip ∙ ==→eq _ _ e)))
            (omega (arith, Allocated-free v k v1 al)))

  -- A block beyond them.
  module _ (i : ℕ) (lo : i < 128) where
    pub bmap_far : (ip.addrs 12 == 0) ≡ false → bmap (12 + i) ip v ≡ bmap_entry ip (ip.addrs 12) i v
    unfolding bmap
    bmap_far e =
        let a : ltb (12 + i) 12 ≡ false = ground arith in
        let b : 12 + i - 12 ≡ i = omega arith in
        let c : ltb i 128 ≡ true = ground arith in rw (a, b, c, e) refl

    far_none : (ip.addrs 12 == 0) ≡ true → balloc v ≡ none → bmap (12 + i) ip v ≡ none
    unfolding bmap
    far_none e f =
        let a : ltb (12 + i) 12 ≡ false = ground arith in
        let b : 12 + i - 12 ≡ i = omega arith in
        let c : ltb i 128 ≡ true = ground arith in rw (a, b, c, e, f) refl

    far_some :
        (k : ℕ) (v1 : Volume)
        → (k == 0) ≡ false
        → (ip.addrs 12 == 0) ≡ true
        → balloc v ≡ some (k, v1)
        → bmap (12 + i) ip v ≡ bmap_entry (with_addr 12 k ip) k i v1
    unfolding bmap
    far_some k v1 nz e f =
        let a : ltb (12 + i) 12 ≡ false = ground arith in
        let b : 12 + i - 12 ≡ i = omega arith in
        let c : ltb i 128 ≡ true = ground arith in
        rw (a, b, c, e, f, nz) (ap (λ (x : ℕ). bmap_entry (with_addr 12 k ip) k x v1) b)

    -- Without the indirect block its entries are holes.
    far_hole : (ip.addrs 12 == 0) ≡ true → mapped v ip (12 + i) ≡ 0
    far_hole e =
        let a : ltb (12 + i) 12 ≡ false = ground arith in
        let b : ltb (12 + i + 1) 13 ≡ false = ground arith in
        let c : ltb (12 + i + 1) 141 ≡ true = ground arith in rw (a, b, c, e) refl

    far_new :
        (o : Option (ℕ × Volume))
        → (ip.addrs 12 == 0) ≡ true
        → balloc v ≡ o
        → Given v o
        → Bmapped v ip (12 + i) 2 (bmap (12 + i) ip v)
    far_new o e f (none_free all) =
        subst (Bmapped v ip (12 + i) 2) (sym (far_none e f))
          (full (far_hole e) (omega (arith, none_free-free v all)))
    far_new o e f (given k v1 al) =
        let nz = new_nonzero v v1 k ip h al in
        let g = addr-Grows v v1 k ip h al 12 (omega arith) (==→eq _ _ e) in
        let new : update ip.addrs 12 k 12 ≡ k = update_self ip.addrs 12 k in
        subst (Bmapped v ip (12 + i) 2) (sym (far_some k v1 (ground (arith, nz)) e f)) (
          later-Bmapped v ip v1 (with_addr 12 k ip) (12 + i) k _ (omega arith) g al (far_hole e) (
            subst
              (λ (x : ℕ).
                Bmapped v1 (with_addr 12 k ip) (12 + i) 1 (bmap_entry (with_addr 12 k ip) x i v1))
              new (entry-Bmapped v1 (with_addr 12 k ip) i g.file lo (λ z. nz (sym new ∙ z)))))

  any-Bmapped : (bn : ℕ) → bn < 140 → Bmapped v ip bn 2 (bmap bn ip v)
  any-Bmapped bn lo = elim (Bool-cases (ltb bn 12)) [
    | inl direct ↦
        let low : bn < 12 = ground arith in
        elim (Bool-cases (ip.addrs bn == 0)) [
          | inl empty ↦ direct_new bn low (balloc v) empty refl (balloc-Given v h.layout)
          | inr there ↦ subst (Bmapped v ip bn 2) (sym (direct_old bn low there)) (
              got (ip.addrs bn) ip v (Grows-refl v ip h) (direct_slot bn low v ip) (==→ne _ _ there)
                (λ ne. (refl, refl)) (omega arith))
        ]
    | inr far ↦
        let shift : 12 + (bn - 12) ≡ bn = ground arith in
        subst (λ (b : ℕ). Bmapped v ip b 2 (bmap b ip v)) shift (beyond (bn - 12) (ground arith))
  ]
    where
      beyond : (i : ℕ) → i < 128 → Bmapped v ip (12 + i) 2 (bmap (12 + i) ip v)
      beyond i low = elim (Bool-cases (ip.addrs 12 == 0)) [
        | inl empty ↦ far_new i low (balloc v) empty refl (balloc-Given v h.layout)
        | inr there ↦ subst (Bmapped v ip (12 + i) 2) (sym (bmap_far i low there)) (
            Bmapped-weaken v ip (12 + i) 1 2 _ (omega arith)
              (entry-Bmapped v ip i h low (==→ne _ _ there)))
      ]

-- For a file block below 140 of a sound file, bmap returns its disk block, nonzero, as the map then has
-- it. If the block was there nothing changes. Otherwise the file keeps its bytes and other blocks, it
-- stays sound, the blocks that were in use, but for the bitmap and the file's indirect one, keep their
-- contents, and at most three blocks are taken. bmap panics only when the block was missing and at most
-- two blocks are free.
pub bmap-Bmapped :
    (v : Volume) (ip : Inode) (bn : ℕ) → IsFile v ip → bn < 140 → Bmapped v ip bn 2 (bmap bn ip v)
bmap-Bmapped v ip bn h lo = any-Bmapped v ip h bn lo
