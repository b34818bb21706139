-- ===== src/Fs/Xv6/Data/Bytes.antt =====
-- A write to a block that the inode of fs/xv6fs.c owns, seen in the file's bytes.
use re_xvapor.Base.{
  ℕ, ◌*◌, ◌/◌, ◌%◌, ◌<◌, ◌≡◌, ◌≢◌, refl, sym, ◌∙◌, ap, subst, false, Bool-cases, update_ne,
  update_eq, ◌==◌, ne→==, arith, inl, inr,
}
use re_xvapor.Fs.Xv6.{Block, Volume, superblock_of, bblock, bpb, bit_of, write_block}
use re_xvapor.Fs.Xv6.Bitmap.{used}
use re_xvapor.Fs.Xv6.Inode.{Inode}
use re_xvapor.Fs.Xv6.Inode.Map.{owned, slot, mapped, IsFile}
use re_xvapor.Fs.Xv6.Inode.Grow.{byte}

-- Slot `q`, not the indirect block's, holds a block, and that one becomes `d`.
module _ (v : Volume) (ip : Inode) (q : ℕ) (d : Block) (h : IsFile v ip) (low : q < 142)
    (ne : q ≢ 12) (nz : owned v ip q ≢ 0) where
  abbrev at : ℕ
  at = owned v ip q

  abbrev after : Volume
  after = write_block at d v

  else_block : (c : ℕ) → at ≢ c → after.block c ≡ v.block c
  else_block c other = update_ne v.block at c d other

  pub owned_write : (p : ℕ) → owned after ip p ≡ owned v ip p
  owned_write p = elim (Bool-cases (ip.addrs 12 == 0)) [
    | inl hole ↦ rw hole refl
    | inr there ↦ rw (else_block (ip.addrs 12) (h.apart q 12 low (omega arith) ne nz)) refl
  ]

  pub used_write : (c : ℕ) → c < v.sb.size → used after c ≡ used v c
  used_write c lo =
      ap (λ (e : Block). bit_of e (c % bpb)) (else_block (bblock c v.sb) (h.not_map q c low nz lo))

  pub write-IsFile : IsFile after ip
  write-IsFile = record {
    layout = record {
      bitmap = λ c lo. used_write (bblock c v.sb) (h.layout.inside c lo) ∙ h.layout.bitmap c lo;
      inside = h.layout.inside;
      first = used_write 1 h.layout.one_inside ∙ h.layout.first;
      same = ap superblock_of (else_block 1 (h.not_super q low)) ∙ h.layout.same;
      apart = h.layout.apart;
      one_inside = h.layout.one_inside;
    };
    narrow = h.narrow;
    boot = used_write 0 (omega (arith, h.layout.one_inside)) ∙ h.boot;
    stored = h.stored;
    busy = λ p lo ne.
        ap (used after) (owned_write p)
        ∙ (used_write (owned v ip p) (h.inside p lo) ∙ h.busy p lo (λ z. ne (owned_write p ∙ z)));
    inside = λ p lo. subst (λ (x : ℕ). x < v.sb.size) (sym (owned_write p)) (h.inside p lo);
    not_super = λ p lo e. h.not_super p lo (sym (owned_write p) ∙ e);
    not_map = λ p c lo ne in_size e.
        h.not_map p c lo (λ z. ne (owned_write p ∙ z)) in_size (sym (owned_write p) ∙ e);
    apart = λ p r lo lo' ne nz' e.
        h.apart p r lo lo' ne (λ z. nz' (owned_write p ∙ z))
          (sym (owned_write p) ∙ (e ∙ owned_write r));
  }

  -- A byte of a block in another slot.
  pub byte_else : (i : ℕ) → i < 140 * 512 → q ≢ slot (i / 512) → byte after ip i ≡ byte v ip i
  byte_else i lo other =
      rw (owned_write (slot (i / 512))) (elim (Bool-cases (mapped v ip (i / 512) == 0)) [
        | inl hole ↦ rw hole refl
        | inr there ↦ rw there (
            ap (λ (e : Block). e (i % 512))
              (else_block (mapped v ip (i / 512))
                (h.apart q (slot (i / 512)) low (ground arith) other nz)))
      ])

  pub byte_here : (i : ℕ) → q ≡ slot (i / 512) → byte after ip i ≡ d (i % 512)
  byte_here i same =
      let there : (owned v ip (slot (i / 512)) == 0) ≡ false =
        ne→== _ _ (λ z. nz (ap (owned v ip) same ∙ z)) in
      rw (owned_write (slot (i / 512)), there)
        (ap (λ (e : Block). e (i % 512))
          (update_eq v.block at (owned v ip (slot (i / 512))) d (ap (owned v ip) same)))

-- An inode's size is no part of the map.
pub size-IsFile :
    (v : Volume) (ip : Inode) (n : ℕ) → IsFile v ip → IsFile v (record ip { size = n })
size-IsFile v ip n h = record {
  layout = h.layout;
  narrow = h.narrow;
  boot = h.boot;
  stored = h.stored;
  busy = h.busy;
  inside = h.inside;
  not_super = h.not_super;
  not_map = h.not_map;
  apart = h.apart;
}
