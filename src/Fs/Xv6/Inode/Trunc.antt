-- ===== src/Fs/Xv6/Inode/Trunc.antt =====
-- itrunc of fs/xv6fs.c: the blocks that it frees, in its order.
use re_xvapor.Base.{
  ℕ, zero, suc, ◌<◌, ◌≡◌, ◌≢◌, refl, sym, ◌∙◌, ap, subst, Bool, true, false, not, ◌&&◌, ◌||◌,
  and-true, or-true, or-false, Bool-cases, some, ltb, ◌==◌, ==→eq, ==→ne, eq→==, ne→==,
  if◌then◌else◌, arith, inl, inr,
}
use re_xvapor.Fs.Xv6.{Volume, Superblock, bblock, bfree}
use re_xvapor.Fs.Xv6.Bitmap.{used}
use re_xvapor.Fs.Xv6.Blocks.{IsLayout, Freed, bfree-Freed}
use re_xvapor.Fs.Xv6.Inode.{Inode}
use re_xvapor.Fs.Xv6.Inode.Map.{owned, slot, IsFile}

-- The order: the direct blocks, the entries of the indirect block, and that block.
abbrev pub ord : ℕ → ℕ
ord k = if ltb k 140 then slot k else 12

-- Whether `c` is one of the first `n`.
pub gone : Volume → Inode → ℕ → ℕ → Bool
gone v ip zero c = false
gone v ip (suc n) c = gone v ip n c || not (owned v ip (ord n) == 0) && owned v ip (ord n) == c

module _ (v : Volume) (ip : Inode) where
  pub gone_miss :
      (n c : ℕ)
      → ((k : ℕ) → k < n → owned v ip (ord k) ≢ 0 → owned v ip (ord k) ≢ c)
      → gone v ip n c ≡ false
  unfolding gone
  gone_miss zero c h = refl
  gone_miss (suc n) c h =
      rw (gone_miss n c (λ k lo. h k (omega arith))) (elim (Bool-cases (owned v ip (ord n) == 0)) [
        | inl hole ↦ rw hole refl
        | inr there ↦
            let e : (owned v ip (ord n) == c) ≡ false =
              ne→== _ _ (h n (omega arith) (==→ne _ _ there)) in
            rw (there, e) refl
      ])

  pub gone_hit :
      (n c k : ℕ) → k < n → owned v ip (ord k) ≢ 0 → owned v ip (ord k) ≡ c → gone v ip n c ≡ true
  unfolding gone
  gone_hit zero c k lo nz e = absurd (omega arith)
  gone_hit (suc n) c k lo nz e = elim (Bool-cases (n == k)) [
    | inl this ↦
        let at : n ≡ k = ==→eq _ _ this in
        let there : (owned v ip (ord n) == 0) ≡ false =
          ne→== _ _ (λ z. nz (ap (λ (j : ℕ). owned v ip (ord j)) (sym at) ∙ z)) in
        let same : (owned v ip (ord n) == c) ≡ true =
          eq→== _ _ (ap (λ (j : ℕ). owned v ip (ord j)) at ∙ e) in
        rw (there, same) (or-true (gone v ip n c))
    | inr other ↦ rw (gone_hit n c k (ground arith) nz e) refl
  ]

  -- A hole adds none.
  pub gone_hole : (n c : ℕ) → owned v ip (ord n) ≡ 0 → gone v ip (suc n) c ≡ gone v ip n c
  unfolding gone
  gone_hole n c e = rw e (or-false (gone v ip n c))

  pub gone_block :
      (n c : ℕ)
      → owned v ip (ord n) ≢ 0
      → gone v ip (suc n) c ≡ (gone v ip n c || owned v ip (ord n) == c)
  unfolding gone
  gone_block n c nz = let there : (owned v ip (ord n) == 0) ≡ false = ne→== _ _ nz in rw there refl

-- `w` is `v` with the first `n` blocks freed.
pub record Freeing (v : Volume) (ip : Inode) (n : ℕ) (w : Volume) : Type 0 where
  pub same_sb : w.sb ≡ v.sb
  pub layout : IsLayout w
  pub cleared : (c : ℕ) → c < v.sb.size → used w c ≡ (used v c && not (gone v ip n c))
  pub others : (c : ℕ) → ((d : ℕ) → d < v.sb.size → c ≢ bblock d v.sb) → w.block c ≡ v.block c

pub ord_low : (k : ℕ) → k < 141 → ord k < 141
ord_low k lo = ground arith

ord_differs : (j k : ℕ) → j < k → k < 141 → ord j ≢ ord k
ord_differs j k lo hi = ground arith

module _ (v : Volume) (ip : Inode) (h : IsFile v ip) where
  pub nothing-Freeing : Freeing v ip 0 v
  unfolding gone
  nothing-Freeing = record {
    same_sb = refl;
    layout = h.layout;
    cleared = λ c lo. (sym (and-true (used v c)));
    others = λ c far. refl;
  }

  module _ (n : ℕ) (w : Volume) (low : n < 141) (f : Freeing v ip n w) where
    pub skip-Freeing : owned v ip (ord n) ≡ 0 → Freeing v ip (suc n) w
    skip-Freeing e = record {
      same_sb = f.same_sb;
      layout = f.layout;
      cleared = λ c lo.
          f.cleared c lo ∙ ap (λ (b : Bool). used v c && not b) (sym (gone_hole v ip n c e));
      others = f.others;
    }

    module _ (nz : owned v ip (ord n) ≢ 0) where
      abbrev b : ℕ
      b = owned v ip (ord n)

      b_slot : ord n < 142
      b_slot = omega (arith, ord_low n low)

      still_there : used w b ≡ true
      still_there =
          let before : gone v ip n b ≡ false = gone_miss v ip n b (λ k lo ne.
            h.apart (ord k) (ord n) (omega (arith, ord_low k (omega arith))) b_slot
              (ord_differs k n lo low) ne) in
          f.cleared b (h.inside (ord n) b_slot) ∙ rw (h.busy (ord n) b_slot nz, before) refl

      size_low : (c : ℕ) → c < v.sb.size → c < w.sb.size
      size_low c lo = subst (λ (s : Superblock). c < s.size) (sym f.same_sb) lo

      not_map : (c : ℕ) → c < w.sb.size → b ≢ bblock c w.sb
      not_map c lo e =
          h.not_map (ord n) c b_slot nz (subst (λ (s : Superblock). c < s.size) f.same_sb lo)
            (e ∙ ap (bblock c) f.same_sb)

      pub free-Freeing : (w' : Volume) × (bfree b w ≡ some w') × Freeing v ip (suc n) w'
      free-Freeing =
          let r =
            (bfree-Freed b w f.layout (size_low b (h.inside (ord n) b_slot))
                (h.not_super (ord n) b_slot) not_map).0
              still_there in
          let g : Freed w b (r.0) = r.2 in
          (
            r.0,
            r.1,
            record {
              same_sb = g.same_sb ∙ f.same_sb;
              layout = g.layout;
              cleared = λ c lo.
                  g.cleared c (size_low c lo)
                  ∙ (ap (λ (x : Bool). x && not (b == c)) (f.cleared c lo)
                      ∙ (assoc (used v c) (gone v ip n c) (b == c)
                          ∙ ap (λ (x : Bool). used v c && not x) (sym (gone_block v ip n c nz))));
              others = λ c far.
                  g.others c (λ e. far b (h.inside (ord n) b_slot) (e ∙ ap (bblock b) f.same_sb))
                  ∙ f.others c far;
            },
          )
        where
          assoc : (x y z : Bool) → ((x && not y) && not z) ≡ (x && not (y || z))
          assoc true true z = refl
          assoc true false z = refl
          assoc false y z = refl
