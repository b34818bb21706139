-- ===== src/Fs/Xv6/Inode/Disk.antt =====
-- An inode of fs/xv6fs.c on disk: ilock reads what iupdate stored.
use re_xvapor.Base.{
  ℕ, zero, suc, ◌+◌, ◌*◌, ◌^◌, ◌≤◌, ◌<◌, ◌≡◌, ◌≢◌, refl, sym, ◌∙◌, subst, fun_ext, true, false,
  Bool-cases, some, update, update_self, ltb, ◌==◌, ==→eq, ne→==, if◌then◌else◌, arith, inl, inr,
}
use re_xvapor.Fs.Xv6.{Block, Volume, word_at, half_at, set_word, set_half}
use re_xvapor.Fs.Xv6.Words.{
  set_word_else, word_at-set_word, half_at-set_word_else, half_at-set_half, half_at-set_half_else,
}
use re_xvapor.Fs.Xv6.Inode.{Inode, iblock, dinode_at, store_addrs, put_dinode, iupdate, ilock}

-- The values are those of short and uint fields, and the inode is allocated.
pub record FitsDisk (ip : Inode) : Type 0 where
  pub type_narrow : ip.type < 2 ^ 16
  pub major_narrow : ip.major < 2 ^ 16
  pub minor_narrow : ip.minor < 2 ^ 16
  pub nlink_narrow : ip.nlink < 2 ^ 16
  pub size_narrow : ip.size < 2 ^ 32
  pub addrs_narrow : (i : ℕ) → i < 13 → ip.addrs i < 2 ^ 32
  pub has_type : ip.type ≢ 0

-- The addresses, and what stands before them.
store_else :
    (n i at : ℕ) (addrs : ℕ → ℕ) (d : Block) (x : ℕ)
    → x < at + 12 + 4 * i
    → store_addrs n i at addrs d x ≡ d x
unfolding store_addrs
store_else zero i at addrs d x lo = refl
store_else (suc n) i at addrs d x lo =
    store_else n (i + 1) at addrs (set_word (at + 12 + 4 * i) (addrs i) d) x (omega arith)
    ∙ set_word_else (at + 12 + 4 * i) (addrs i) d x (inl lo)

half_before :
    (n i at : ℕ) (addrs : ℕ → ℕ) (d : Block) (x : ℕ)
    → x + 2 ≤ at + 12 + 4 * i
    → half_at (store_addrs n i at addrs d) x ≡ half_at d x
half_before n i at addrs d x lo =
    rw (store_else n i at addrs d x (omega arith), store_else n i at addrs d (x + 1) (omega arith))
      refl

word_before :
    (n i at : ℕ) (addrs : ℕ → ℕ) (d : Block) (x : ℕ)
    → x + 4 ≤ at + 12 + 4 * i
    → word_at (store_addrs n i at addrs d) x ≡ word_at d x
word_before n i at addrs d x lo =
    let near = λ (y : ℕ) (h : y < at + 12 + 4 * i). store_else n i at addrs d y h in
    rw
      (
        near x (omega arith),
        near (x + 1) (omega arith),
        near (x + 2) (omega arith),
        near (x + 3) (omega arith),
      )
      refl

addr_stored :
    (n i at : ℕ) (addrs : ℕ → ℕ) (d : Block) (j : ℕ)
    → i ≤ j
    → j < i + n
    → addrs j < 2 ^ 32
    → word_at (store_addrs n i at addrs d) (at + 12 + 4 * j) ≡ addrs j
unfolding store_addrs
addr_stored zero i at addrs d j lo hi narrow = absurd (omega arith)
addr_stored (suc n) i at addrs d j lo hi narrow = elim (Bool-cases (i == j)) [
  | inl this ↦
      let e : i ≡ j = ==→eq _ _ this in
      word_before n (i + 1) at addrs (set_word (at + 12 + 4 * i) (addrs i) d) (at + 12 + 4 * j)
        (omega (arith, e))
      ∙ subst
          (λ (k : ℕ). word_at (set_word (at + 12 + 4 * i) (addrs i) d) (at + 12 + 4 * k) ≡ addrs k)
          e
          (word_at-set_word (at + 12 + 4 * i) (addrs i) d
            (subst (λ (k : ℕ). addrs k < 2 ^ 32) (sym e) narrow))
  | inr other ↦
      addr_stored n (i + 1) at addrs (set_word (at + 12 + 4 * i) (addrs i) d) j (ground arith)
        (omega arith) narrow
]

module _ (at : ℕ) (ip : Inode) (d : Block) (h : FitsDisk ip) where
  abbrev d1 : Block
  d1 = set_half at ip.type d

  abbrev d2 : Block
  d2 = set_half (at + 2) ip.major d1

  abbrev d3 : Block
  d3 = set_half (at + 4) ip.minor d2

  abbrev d4 : Block
  d4 = set_half (at + 6) ip.nlink d3

  abbrev d5 : Block
  d5 = set_word (at + 8) ip.size d4

  nlink_read : half_at (put_dinode at ip d) (at + 6) ≡ ip.nlink
  unfolding put_dinode
  nlink_read =
      half_before 13 0 at ip.addrs d5 (at + 6) (omega arith)
      ∙ (half_at-set_word_else (at + 8) ip.size d4 (at + 6) (omega arith)
          ∙ half_at-set_half (at + 6) ip.nlink d3 h.nlink_narrow)

  -- The earlier fields stand in `d3`.
  early : (x : ℕ) → x + 2 ≤ at + 6 → half_at (put_dinode at ip d) x ≡ half_at d3 x
  unfolding put_dinode
  early x lo =
      half_before 13 0 at ip.addrs d5 x (omega arith)
      ∙ (half_at-set_word_else (at + 8) ip.size d4 x (omega arith)
          ∙ half_at-set_half_else (at + 6) ip.nlink d3 x lo)

  minor_read : half_at (put_dinode at ip d) (at + 4) ≡ ip.minor
  minor_read = early (at + 4) (omega arith) ∙ half_at-set_half (at + 4) ip.minor d2 h.minor_narrow

  major_read : half_at (put_dinode at ip d) (at + 2) ≡ ip.major
  major_read =
      early (at + 2) (omega arith)
      ∙ (half_at-set_half_else (at + 4) ip.minor d2 (at + 2) (omega arith)
          ∙ half_at-set_half (at + 2) ip.major d1 h.major_narrow)

  type_read : half_at (put_dinode at ip d) at ≡ ip.type
  type_read =
      early at (omega arith)
      ∙ (half_at-set_half_else (at + 4) ip.minor d2 at (omega arith)
          ∙ (half_at-set_half_else (at + 2) ip.major d1 at (omega arith)
              ∙ half_at-set_half at ip.type d h.type_narrow))

  size_read : word_at (put_dinode at ip d) (at + 8) ≡ ip.size
  unfolding put_dinode
  size_read =
      word_before 13 0 at ip.addrs d5 (at + 8) (omega arith)
      ∙ word_at-set_word (at + 8) ip.size d4 h.size_narrow

  addr_read : (i : ℕ) → i < 13 → word_at (put_dinode at ip d) (at + 12 + 4 * i) ≡ ip.addrs i
  unfolding put_dinode
  addr_read i lo =
      addr_stored 13 0 at ip.addrs d5 i (omega arith) (omega arith) (h.addrs_narrow i lo)

  addrs_read :
      (λ (i : ℕ). if ltb i 13 then word_at (put_dinode at ip d) (at + 12 + 4 * i) else ip.addrs i)
      ≡ ip.addrs
  addrs_read = fun_ext λ i. elim (Bool-cases (ltb i 13)) [
    | inl low ↦ rw (low, addr_read i (ground arith)) refl
    | inr high ↦ rw high refl
  ]

module _ (ip : Inode) (v : Volume) (h : FitsDisk ip) where
  -- The block of the inode behind iupdate.
  abbrev disk : Block
  disk = put_dinode (dinode_at ip.inum) ip (v.block (iblock ip.inum v.sb))

  -- An inode that iupdate stored, whose fields are in the ranges of their types and that has a type, is
  -- what ilock reads when it is not valid in core.
  pub ilock-iupdate :
      ilock (record ip { valid = false }) (iupdate ip v) ≡ some (record ip { valid = true })
  unfolding ilock iupdate
  ilock-iupdate =
      let at = dinode_at ip.inum in
      let here : update v.block (iblock ip.inum v.sb) disk (iblock ip.inum v.sb) ≡ disk =
        update_self v.block _ disk in
      let d = v.block (iblock ip.inum v.sb) in
      let named : (ip.type == 0) ≡ false = ne→== _ _ h.has_type in
      rw
        (
          here,
          type_read at ip d h,
          major_read at ip d h,
          minor_read at ip d h,
          nlink_read at ip d h,
          size_read at ip d h,
          addrs_read at ip d h,
          named,
        )
        refl
