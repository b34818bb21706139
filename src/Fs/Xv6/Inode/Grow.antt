-- ===== src/Fs/Xv6/Inode/Grow.antt =====
-- A file of fs/xv6fs.c as its bytes: what a step that adds a block to it keeps.
use re_xvapor.Base.{
  ℕ, ◌*◌, ◌/◌, ◌%◌, ◌<◌, ◌≡◌, ◌≢◌, refl, sym, ◌∙◌, ap, subst, Bool, true, false, Bool-cases, ◌==◌,
  ==→ne, if◌then◌else◌, arith, ◌⊎◌, inl, inr,
}
use re_xvapor.Fs.Xv6.{Block, Volume, Superblock, bblock}
use re_xvapor.Fs.Xv6.Bitmap.{used}
use re_xvapor.Fs.Xv6.Blocks.{Allocated}
use re_xvapor.Fs.Xv6.Inode.{Inode}
use re_xvapor.Fs.Xv6.Inode.Map.{
  owned, slot, mapped, IsFile, new_nonzero, Put, still_used, slot_cases, put-IsFile,
}

-- Byte `i` of the file; a hole reads as zeros.
abbrev pub byte : Volume → Inode → ℕ → ℕ
byte v ip i = let a = mapped v ip (i / 512) in if a == 0 then 0 else v.block a (i % 512)

-- The file has more blocks, perhaps, and the same bytes; blocks in use that are none of the bitmap nor
-- the file's indirect one keep their contents.
pub record Grows (v : Volume) (ip : Inode) (v' : Volume) (ip' : Inode) : Type 0 where
  pub file : IsFile v' ip'
  pub same_sb : v'.sb ≡ v.sb
  pub fields : ip' ≡ record ip { addrs = ip'.addrs }
  pub bytes : (i : ℕ) → i < 140 * 512 → byte v' ip' i ≡ byte v ip i
  pub used_stays : (c : ℕ) → c < v.sb.size → used v c ≡ true → used v' c ≡ true
  pub keeps :
      (c : ℕ)
      → c < v.sb.size
      → used v c ≡ true
      → ((d : ℕ) → d < v.sb.size → c ≢ bblock d v.sb)
      → c ≢ ip.addrs 12
      → (v'.block c ≡ v.block c) × (c ≢ ip'.addrs 12)
  pub mapped_stays : (bn : ℕ) → bn < 140 → mapped v ip bn ≢ 0 → mapped v' ip' bn ≡ mapped v ip bn
  pub slots :
      (p : ℕ) → p < 142 → (owned v' ip' p ≡ owned v ip p) ⊎ (used v (owned v' ip' p) ≡ false)

pub Grows-refl : (v : Volume) (ip : Inode) → IsFile v ip → Grows v ip v ip
Grows-refl v ip h = record {
  file = h;
  same_sb = refl;
  fields = refl;
  bytes = λ i lo. refl;
  used_stays = λ c lo e. e;
  keeps = λ c lo e far ne. (refl, ne);
  mapped_stays = λ bn lo nz. refl;
  slots = λ p lo. inl refl;
}

clash : (b : Bool) → b ≡ true → b ≢ false
clash b e f = cc (e, f)

pub Grows-trans :
    (v : Volume) (ip : Inode) (v1 : Volume) (ip1 : Inode) (v2 : Volume) (ip2 : Inode)
    → Grows v ip v1 ip1
    → Grows v1 ip1 v2 ip2
    → Grows v ip v2 ip2
Grows-trans v ip v1 ip1 v2 ip2 g g' =
    let size_eq : v1.sb.size ≡ v.sb.size = ap (λ (s : Superblock). s.size) g.same_sb in
    let low = λ (c : ℕ) (lo : c < v.sb.size). subst (λ (n : ℕ). c < n) (sym size_eq) lo in
    record {
      file = g'.file;
      same_sb = g'.same_sb ∙ g.same_sb;
      fields = g'.fields ∙ ap (λ (j : Inode). record j { addrs = ip2.addrs }) g.fields;
      bytes = λ i lo. g'.bytes i lo ∙ g.bytes i lo;
      used_stays = λ c lo e. g'.used_stays c (low c lo) (g.used_stays c lo e);
      keeps = λ c lo e far ne.
          let first = g.keeps c lo e far ne in
          let far' = λ (d : ℕ) (in_size : d < v1.sb.size) (same : c ≡ bblock d v1.sb).
            far d (subst (λ (n : ℕ). d < n) size_eq in_size) (same ∙ ap (bblock d) g.same_sb) in
          let second = g'.keeps c (low c lo) (g.used_stays c lo e) far' first.1 in
          (second.0 ∙ first.0, second.1);
      mapped_stays = λ bn lo nz.
          let first = g.mapped_stays bn lo nz in
          g'.mapped_stays bn lo (λ z. nz (sym first ∙ z)) ∙ first;
      slots = λ p lo. elim (g'.slots p lo) [
        | inl same ↦ elim (g.slots p lo) [
          | inl same' ↦ inl (same ∙ same')
          | inr free ↦ inr (ap (used v) same ∙ free)
        ]
        | inr free ↦
            let in_size : owned v2 ip2 p < v.sb.size =
              subst (λ (s : Superblock). owned v2 ip2 p < s.size) (g'.same_sb ∙ g.same_sb)
                (g'.file.inside p lo) in
            inr (elim (Bool-cases (used v (owned v2 ip2 p))) [
              | inr idle ↦ idle
              | inl busy ↦ absurd (
                  clash (used v1 (owned v2 ip2 p)) (g.used_stays (owned v2 ip2 p) in_size busy)
                    free)
            ])
      ];
    }

slot_low : (bn : ℕ) → bn < 140 → slot bn < 141
slot_low bn lo = ground arith

slot_data : (bn : ℕ) → 12 ≢ slot bn
slot_data bn = ground arith

-- A new block in an empty slot makes the file grow.
module _ (v v1 v' : Volume) (k p : ℕ) (ip ip' : Inode) (h : IsFile v ip) (al : Allocated v k v1)
    (put : Put v ip k p v' ip') (fields : ip' ≡ record ip { addrs = ip'.addrs })
    (empty : p < 142 → owned v ip p ≡ 0) (zeroed : (x : ℕ) → p < 142 → p ≢ 12 → v'.block k x ≡ 0)
    (keeps : (c : ℕ)
      → c < v.sb.size
      → used v c ≡ true
      → ((d : ℕ) → d < v.sb.size → c ≢ bblock d v.sb)
      → c ≢ ip.addrs 12
      → v'.block c ≡ v.block c) where
  data_stays :
      (q : ℕ)
      → q < 142
      → 12 ≢ q
      → owned v ip q ≢ 0
      → v'.block (owned v ip q) ≡ v.block (owned v ip q)
  data_stays q lo ne nz =
      keeps (owned v ip q) (h.inside q lo) (h.busy q lo nz)
        (λ d in_size. h.not_map q d lo nz in_size)
        (h.apart q 12 lo (omega arith) (λ e. ne (sym e)) nz)

  byte_stays : (i : ℕ) → i < 140 * 512 → byte v' ip' i ≡ byte v ip i
  byte_stays i lo =
      let low : slot (i / 512) < 142 = omega (arith, slot_low (i / 512) (omega arith)) in
      elim (slot_cases v v1 v' k p ip ip' h al put (slot (i / 512)) low) [
        | inl new ↦
            let nz : (k == 0) ≡ false = ground (arith, new_nonzero v v1 k ip h al) in
            let in_range : p < 142 = omega (arith, new.0) in
            let was : owned v ip (slot (i / 512)) ≡ 0 =
              ap (owned v ip) (sym new.0) ∙ empty in_range in
            rw (new.1, nz, was)
              (zeroed (i % 512) in_range (λ e. slot_data (i / 512) (sym e ∙ new.0)))
        | inr old ↦ same_byte (slot (i / 512)) low (slot_data (i / 512)) (i % 512) (old.1)
      ]
    where
      same_byte :
          (q : ℕ)
          → q < 142
          → 12 ≢ q
          → (x : ℕ) → owned v' ip' q ≡ owned v ip q
          → (if owned v' ip' q == 0 then 0 else v'.block (owned v' ip' q) x)
            ≡ (if owned v ip q == 0 then 0 else v.block (owned v ip q) x)
      same_byte q low ne x e = elim (Bool-cases (owned v ip q == 0)) [
        | inl hole ↦ rw (e, hole) refl
        | inr there ↦
            rw (e, there) (ap (λ (d : Block). d x) (data_stays q low ne (==→ne _ _ there)))
      ]

  pub put-Grows : Grows v ip v' ip'
  put-Grows = record {
    file = put-IsFile v v1 v' k p ip ip' h al put;
    same_sb = put.same_sb;
    fields = fields;
    bytes = byte_stays;
    used_stays = still_used v v1 v' k p ip ip' h al put;
    keeps = λ c lo e far ne. (
      keeps c lo e far ne,
      λ same. elim (slot_cases v v1 v' k p ip ip' h al put 12 (omega arith)) [
        | inl new ↦ cc (e, al.free, same, new.1)
        | inr old ↦ ne (same ∙ old.1)
      ],
    );
    mapped_stays = λ bn lo nz.
        let low : slot bn < 142 = omega (arith, slot_low bn lo) in
        elim (slot_cases v v1 v' k p ip ip' h al put (slot bn) low) [
          | inl new ↦ absurd (nz (ap (owned v ip) (sym new.0) ∙ empty (omega (arith, new.0))))
          | inr old ↦ old.1
        ];
    slots = λ q lo. elim (slot_cases v v1 v' k p ip ip' h al put q lo) [
      | inl new ↦ inr (ap (used v) (new.1) ∙ al.free)
      | inr old ↦ inl (old.1)
    ];
  }
