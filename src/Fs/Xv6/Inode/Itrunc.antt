-- ===== src/Fs/Xv6/Inode/Itrunc.antt =====
-- The two loops of itrunc (fs/xv6fs.c): they run through, and free what stands in the inode and in its
-- indirect block.
use re_xvapor.Base.{
  ℕ, zero, suc, ◌+◌, ◌-◌, ◌*◌, ◌<◌, ◌≡◌, ◌≢◌, refl, sym, ◌∙◌, ap, subst, true, false, Bool-cases,
  some, update, update_ne, update_eq, ltb, ◌==◌, ==→eq, ==→ne, ne→==, if◌then◌else◌, arith, inl,
  inr,
}
use re_xvapor.Fs.Xv6.{Volume, word_at, bfree}
use re_xvapor.Fs.Xv6.Inode.{Inode, with_addr, free_direct, free_indirect}
use re_xvapor.Fs.Xv6.Inode.Map.{entry, owned, IsFile}
use re_xvapor.Fs.Xv6.Inode.Trunc.{ord, Freeing, skip-Freeing, free-Freeing}

-- The steps of the two loops.
module _ (n i : ℕ) (ip : Inode) (w : Volume) where
  direct_skip : (ip.addrs i == 0) ≡ true → free_direct (suc n) i ip w ≡ free_direct n (i + 1) ip w
  unfolding free_direct
  direct_skip e = rw e refl

  direct_free :
      (w' : Volume)
      → (ip.addrs i == 0) ≡ false
      → bfree (ip.addrs i) w ≡ some w'
      → free_direct (suc n) i ip w ≡ free_direct n (i + 1) (with_addr i 0 ip) w'
  unfolding free_direct
  direct_free w' e f = rw (e, f) refl

module _ (n j ind : ℕ) (w : Volume) where
  indirect_skip :
      (word_at (w.block ind) (4 * j) == 0) ≡ true
      → free_indirect (suc n) j ind w ≡ free_indirect n (j + 1) ind w
  unfolding free_indirect
  indirect_skip e = rw e refl

  indirect_free :
      (w' : Volume)
      → (word_at (w.block ind) (4 * j) == 0) ≡ false
      → bfree (word_at (w.block ind) (4 * j)) w ≡ some w'
      → free_indirect (suc n) j ind w ≡ free_indirect n (j + 1) ind w'
  unfolding free_indirect
  indirect_free w' e f = rw (e, f) refl

module _ (v : Volume) (ip : Inode) (h : IsFile v ip) where
  abbrev pub with_addrs : (ℕ → ℕ) → Inode
  with_addrs a = record ip { addrs = a }

  -- Addresses below `i` are cleared.
  abbrev pub Cleared : ℕ → (ℕ → ℕ) → Type 0
  Cleared i a = (j : ℕ) → a j ≡ (if ltb j i then 0 else ip.addrs j)

  at_direct : (i : ℕ) → i < 12 → owned v ip (ord i) ≡ ip.addrs i
  at_direct i lo =
      let a : ltb i 140 ≡ true = ground arith in
      let b : ltb i 12 ≡ true = ground arith in
      let c : ltb i 13 ≡ true = ground arith in rw (a, b, c) refl

  pub at_indirect : (j : ℕ) → j < 128 → owned v ip (ord (12 + j)) ≡ entry v ip j
  at_indirect j lo =
      let a : ltb (12 + j) 140 ≡ true = ground arith in
      let b : ltb (12 + j) 12 ≡ false = ground arith in
      let c : ltb (12 + j + 1) 13 ≡ false = ground arith in
      let d : ltb (12 + j + 1) 141 ≡ true = ground arith in
      let e : 12 + j + 1 - 13 ≡ j = omega arith in rw (a, b, c, d, e) refl

  Cleared-skip : (i : ℕ) (a : ℕ → ℕ) → Cleared i a → ip.addrs i ≡ 0 → Cleared (i + 1) a
  Cleared-skip i a cl e j = elim (Bool-cases (i == j)) [
    | inl this ↦
        let at : i ≡ j = ==→eq _ _ this in
        let lo : ltb j i ≡ false = ground arith in
        let hi : ltb j (i + 1) ≡ true = ground arith in
        cl j ∙ rw (lo, hi) (ap ip.addrs (sym at) ∙ e)
    | inr other ↦
        let same : ltb j (i + 1) ≡ ltb j i = ground (arith, ==→ne _ _ other) in cl j ∙ rw same refl
  ]

  Cleared-free : (i : ℕ) (a : ℕ → ℕ) → Cleared i a → Cleared (i + 1) (update a i 0)
  Cleared-free i a cl j = elim (Bool-cases (i == j)) [
    | inl this ↦
        let at : i ≡ j = ==→eq _ _ this in
        let hi : ltb j (i + 1) ≡ true = ground arith in update_eq a i j 0 at ∙ rw hi refl
    | inr other ↦
        let same : ltb j (i + 1) ≡ ltb j i = ground (arith, ==→ne _ _ other) in
        update_ne a i j 0 (==→ne _ _ other) ∙ (cl j ∙ rw same refl)
  ]

  pub direct_loop :
      (n i : ℕ) (a : ℕ → ℕ) (w : Volume)
      → n + i ≡ 12
      → Freeing v ip i w
      → Cleared i a
      → (a' : ℕ → ℕ) × (w' : Volume) × (free_direct n i (with_addrs a) w ≡ some (with_addrs a', w'))
        × Freeing v ip 12 w'
        × Cleared 12 a'
  unfolding free_direct
  direct_loop zero i a w sum f cl =
      let last : i ≡ 12 = omega arith in
      (
        a,
        w,
        refl,
        subst (λ (k : ℕ). Freeing v ip k w) last f,
        subst (λ (k : ℕ). Cleared k a) last cl,
      )
  direct_loop (suc n) i a w sum f cl =
      let low : i < 12 = omega arith in
      let here : a i ≡ ip.addrs i = let b : ltb i i ≡ false = ground arith in cl i ∙ rw b refl in
      let next : suc i ≡ i + 1 = omega arith in
      elim (Bool-cases (a i == 0)) [
        | inl hole ↦
            let e : ip.addrs i ≡ 0 = sym here ∙ ==→eq _ _ hole in
            let g = skip-Freeing v ip h i w (omega arith) f (at_direct i low ∙ e) in
            let r =
              direct_loop n (i + 1) a w (omega arith) (subst (λ (k : ℕ). Freeing v ip k w) next g)
                (Cleared-skip i a cl e) in
            (r.0, r.1, direct_skip n i (with_addrs a) w hole ∙ r.2, r.3, r.4)
        | inr there ↦
            let nz : owned v ip (ord i) ≢ 0 =
              λ z. ==→ne _ _ there (here ∙ (sym (at_direct i low) ∙ z)) in
            let g = free-Freeing v ip h i w (omega arith) f nz in
            let runs : bfree (a i) w ≡ some (g.0) =
              ap (λ (b : ℕ). bfree b w) (here ∙ sym (at_direct i low)) ∙ g.1 in
            let r =
              direct_loop n (i + 1) (update a i 0) (g.0) (omega arith)
                (subst (λ (k : ℕ). Freeing v ip k (g.0)) next g.2) (Cleared-free i a cl) in
            (r.0, r.1, direct_free n i (with_addrs a) w (g.0) there runs ∙ r.2, r.3, r.4)
      ]

  module _ (there : ip.addrs 12 ≢ 0) where
    word_entry :
        (n j : ℕ) (w : Volume)
        → Freeing v ip n w
        → word_at (w.block (ip.addrs 12)) (4 * j) ≡ entry v ip j
    word_entry n j w f =
        let nz : (ip.addrs 12 == 0) ≡ false = ne→== _ _ there in
        let same : w.block (ip.addrs 12) ≡ v.block (ip.addrs 12) =
          f.others (ip.addrs 12) (λ d lo. h.not_map 12 d (omega arith) there lo) in
        rw (nz, same) refl

    pub indirect_loop :
        (n j : ℕ) (w : Volume)
        → n + j ≡ 128
        → Freeing v ip (12 + j) w
        → (w' : Volume) × (free_indirect n j (ip.addrs 12) w ≡ some w') × Freeing v ip 140 w'
    unfolding free_indirect
    indirect_loop zero j w sum f =
        let last : 12 + j ≡ 140 = omega arith in
        (w, refl, subst (λ (k : ℕ). Freeing v ip k w) last f)
    indirect_loop (suc n) j w sum f =
        let low : j < 128 = omega arith in
        let here : word_at (w.block (ip.addrs 12)) (4 * j) ≡ owned v ip (ord (12 + j)) =
          word_entry (12 + j) j w f ∙ sym (at_indirect j low) in
        let next : suc (12 + j) ≡ 12 + (j + 1) = omega arith in
        elim (Bool-cases (word_at (w.block (ip.addrs 12)) (4 * j) == 0)) [
          | inl hole ↦
              let g = skip-Freeing v ip h (12 + j) w (omega arith) f (sym here ∙ ==→eq _ _ hole) in
              let r =
                indirect_loop n (j + 1) w (omega arith)
                  (subst (λ (k : ℕ). Freeing v ip k w) next g) in
              (r.0, indirect_skip n j (ip.addrs 12) w hole ∙ r.1, r.2)
          | inr full ↦
              let g =
                free-Freeing v ip h (12 + j) w (omega arith) f (λ z. ==→ne _ _ full (here ∙ z)) in
              let runs = ap (λ (b : ℕ). bfree b w) here ∙ g.1 in
              let r =
                indirect_loop n (j + 1) (g.0) (omega arith)
                  (subst (λ (k : ℕ). Freeing v ip k (g.0)) next g.2) in
              (r.0, indirect_free n j (ip.addrs 12) w (g.0) full runs ∙ r.1, r.2)
        ]
