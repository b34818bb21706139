-- ===== src/Fs/Xv6/Inode/Map.antt =====
-- The blocks that an inode of fs/xv6fs.c owns and the map from a file's blocks to the disk's; how
-- they change when balloc gives a block.
use re_xvapor.Base.{
  ℕ, ◌+◌, ◌-◌, ◌*◌, ◌^◌, ◌≤◌, ◌<◌, ◌≡◌, ◌≢◌, refl, sym, ◌∙◌, ap, subst, true, ◌||◌, or-true,
  Bool-cases, ltb, ◌==◌, ==→eq, ==→ne, if◌then◌else◌, arith, ◌⊎◌, inl, inr,
}
use re_xvapor.Fs.Xv6.{Volume, Superblock, bblock, word_at}
use re_xvapor.Fs.Xv6.Bitmap.{used}
use re_xvapor.Fs.Xv6.Blocks.{IsLayout, Allocated}
use re_xvapor.Fs.Xv6.Inode.{Inode, iblock}

-- Entry `i` of the indirect block; none if that is missing.
abbrev pub entry : Volume → Inode → ℕ → ℕ
entry v ip i = if ip.addrs 12 == 0 then 0 else word_at (v.block (ip.addrs 12)) (4 * i)

-- The blocks that the inode owns: 12 direct ones, the indirect one (12), its 128 entries, and the one
-- that the inode is stored in (141).
abbrev pub owned : Volume → Inode → ℕ → ℕ
owned v ip p =
    if ltb p 13 then ip.addrs p else if ltb p 141 then entry v ip (p - 13) else iblock ip.inum v.sb

-- Where file block `bn` is found among them.
abbrev pub slot : ℕ → ℕ
slot bn = if ltb bn 12 then bn else bn + 1

-- The disk block of file block `bn`, or 0.
abbrev pub mapped : Volume → Inode → ℕ → ℕ
mapped v ip bn = owned v ip (slot bn)

-- The owned blocks are in use, apart from each other, the superblock and the bitmap.
pub record IsFile (v : Volume) (ip : Inode) : Type 0 where
  pub layout : IsLayout v
  pub narrow : v.sb.size ≤ 2 ^ 32
  pub boot : used v 0 ≡ true
  pub stored : iblock ip.inum v.sb ≢ 0
  pub busy : (p : ℕ) → p < 142 → owned v ip p ≢ 0 → used v (owned v ip p) ≡ true
  pub inside : (p : ℕ) → p < 142 → owned v ip p < v.sb.size
  pub not_super : (p : ℕ) → p < 142 → owned v ip p ≢ 1
  pub not_map :
      (p c : ℕ) → p < 142 → owned v ip p ≢ 0 → c < v.sb.size → owned v ip p ≢ bblock c v.sb
  pub apart : (p q : ℕ) → p < 142 → q < 142 → p ≢ q → owned v ip p ≢ 0 → owned v ip p ≢ owned v ip q

module _ (v v' : Volume) (k : ℕ) (ip : Inode) (h : IsFile v ip) (al : Allocated v k v') where
  pub new_nonzero : k ≢ 0
  new_nonzero e = cc (sym al.free, h.boot, e)

  -- A block that is owned is not the new one.
  pub owned_old : (p : ℕ) → p < 142 → owned v ip p ≢ k
  owned_old p lo e = elim (Bool-cases (owned v ip p == 0)) [
    | inl zero_e ↦ new_nonzero (sym e ∙ ==→eq _ _ zero_e)
    | inr ne ↦ cc (h.busy p lo (==→ne _ _ ne), al.free, e)
  ]

  -- Its contents stay.
  pub owned_stays :
      (p : ℕ) → p < 142 → owned v ip p ≢ 0 → v'.block (owned v ip p) ≡ v.block (owned v ip p)
  owned_stays p lo nz = al.others (owned v ip p) (owned_old p lo) (h.not_map p k lo nz al.inside)

  pub owned_alloc : (p : ℕ) → p < 142 → owned v' ip p ≡ owned v ip p
  owned_alloc p lo = elim (Bool-cases (ltb p 13)) [
    | inl direct ↦ rw direct refl
    | inr far ↦ elim (Bool-cases (ltb p 141)) [
      | inr last ↦ rw (far, last, al.same_sb) refl
      | inl indirect ↦ elim (Bool-cases (ip.addrs 12 == 0)) [
        | inl hole ↦ rw (far, indirect, hole) refl
        | inr there ↦ rw (far, indirect, there, owned_stays 12 (omega arith) (==→ne _ _ there)) refl
      ]
    ]
  ]

-- Behind a balloc of `k`: slot `p` holds it, or, with `p` 142, none does.
pub record Put (v : Volume) (ip : Inode) (k : ℕ) (p : ℕ) (v' : Volume) (ip' : Inode) : Type 0 where
  pub same_sb : v'.sb ≡ v.sb
  pub same_inum : ip'.inum ≡ ip.inum
  pub layout : IsLayout v'
  pub marked : (c : ℕ) → c < v.sb.size → used v' c ≡ (used v c || k == c)
  pub here : p < 142 → owned v' ip' p ≡ k
  pub others : (q : ℕ) → q < 142 → q ≢ p → owned v' ip' q ≡ owned v ip q

module _ (v v1 v' : Volume) (k p : ℕ) (ip ip' : Inode) (h : IsFile v ip) (al : Allocated v k v1)
    (put : Put v ip k p v' ip') where
  pub still_used : (c : ℕ) → c < v.sb.size → used v c ≡ true → used v' c ≡ true
  still_used c lo e = put.marked c lo ∙ rw e refl

  now_used : used v' k ≡ true
  now_used =
      let self : (k == k) ≡ true = ground arith in
      put.marked k al.inside ∙ rw self (or-true (used v k))

  -- A slot holds the new block or what it held.
  pub slot_cases :
      (q : ℕ) → q < 142 → (p ≡ q) × (owned v' ip' q ≡ k) ⊎ (q ≢ p) × (owned v' ip' q ≡ owned v ip q)
  slot_cases q lo = elim (Bool-cases (p == q)) [
    | inl e ↦
        let same : p ≡ q = ==→eq _ _ e in
        inl ((same, ap (owned v' ip') (sym same) ∙ put.here (omega (arith, same))))
    | inr ne ↦ let other : q ≢ p = λ e. ==→ne _ _ ne (sym e) in inr ((other, put.others q lo other))
  ]

  new_not_map : (c : ℕ) → c < v.sb.size → k ≢ bblock c v.sb
  new_not_map c lo e = cc (h.layout.bitmap c lo, al.free, e)

  -- The invariant is kept.
  pub put-IsFile : IsFile v' ip'
  put-IsFile = record {
    layout = put.layout;
    narrow = subst (λ (s : Superblock). s.size ≤ 2 ^ 32) (sym put.same_sb) h.narrow;
    boot = still_used 0 (omega (arith, h.layout.one_inside)) h.boot;
    stored = rw (put.same_sb, put.same_inum) h.stored;
    busy = λ q lo nz. elim (slot_cases q lo) [
      | inl new ↦ ap (used v') (new.1) ∙ now_used
      | inr old ↦
          ap (used v') (old.1)
          ∙ still_used (owned v ip q) (h.inside q lo) (h.busy q lo (λ e. nz (old.1 ∙ e)))
    ];
    inside = λ q lo.
        subst (λ (s : Superblock). owned v' ip' q < s.size) (sym put.same_sb)
          (elim (slot_cases q lo) [
            | inl new ↦ subst (λ (x : ℕ). x < v.sb.size) (sym new.1) al.inside
            | inr old ↦ subst (λ (x : ℕ). x < v.sb.size) (sym old.1) (h.inside q lo)
          ]);
    not_super = λ q lo e. elim (slot_cases q lo) [
      | inl new ↦ cc (h.layout.first, al.free, new.1, e)
      | inr old ↦ h.not_super q lo (sym old.1 ∙ e)
    ];
    not_map = λ q c lo nz in_size e.
        let low : c < v.sb.size = subst (λ (s : Superblock). c < s.size) put.same_sb in_size in
        let at : owned v' ip' q ≡ bblock c v.sb = e ∙ ap (bblock c) put.same_sb in
        elim (slot_cases q lo) [
          | inl new ↦ new_not_map c low (sym new.1 ∙ at)
          | inr old ↦ h.not_map q c lo (λ z. nz (old.1 ∙ z)) low (sym old.1 ∙ at)
        ];
    apart = λ q r lo lo' ne nz e. elim (slot_cases q lo) [
      | inl new ↦ elim (slot_cases r lo') [
        | inl new' ↦ ne (sym new.0 ∙ new'.0)
        | inr old' ↦ owned_old v v1 k ip h al r lo' (sym old'.1 ∙ (sym e ∙ new.1))
      ]
      | inr old ↦ elim (slot_cases r lo') [
        | inl new' ↦ owned_old v v1 k ip h al q lo (sym old.1 ∙ (e ∙ new'.1))
        | inr old' ↦ h.apart q r lo lo' ne (λ z. nz (old.1 ∙ z)) (sym old.1 ∙ (e ∙ old'.1))
      ]
    ];
  }
