-- ===== src/Fs/Xv6/Blocks.antt =====
-- balloc and bfree (fs/xv6fs.c) on the set of blocks in use.
use re_xvapor.Base.{
  ℕ, ◌%◌, ◌<◌, ◌≡◌, ◌≢◌, refl, sym, ◌∙◌, ap, Bool, true, false, not, ◌&&◌, ◌||◌, and-true, or-false,
  Bool-cases, Option, none, some, ◌∷◌, update, update_self, update_ne, ◌==◌, ==→eq, ==→ne, arith,
  inl, inr,
}
use re_xvapor.Fs.Xv6.{
  Block, Volume, Superblock, superblock_of, bpb, bblock, bit_of, mark, unmark, write_block, readsb,
  bzero, balloc, bfree,
}
use re_xvapor.Fs.Xv6.Bitmap.{
  used, taken, bit_of-mark, bit_of-unmark, Chosen, chosen, exhausted, balloc-Chosen,
}

-- The blocks of the bitmap and the superblock are in use, and the superblock is the one in core.
pub record IsLayout (v : Volume) : Type 0 where
  pub bitmap : (c : ℕ) → c < v.sb.size → used v (bblock c v.sb) ≡ true
  pub inside : (c : ℕ) → c < v.sb.size → bblock c v.sb < v.sb.size
  pub first : used v 1 ≡ true
  pub same : superblock_of (v.block 1) ≡ v.sb
  pub apart : (c : ℕ) → c < v.sb.size → bblock c v.sb ≢ 1
  pub one_inside : 1 < v.sb.size

-- Block `k` is allocated: it is in use and zero; the other blocks stay in use or free and, but for the
-- bitmap, keep their contents.
pub record Allocated (v : Volume) (k : ℕ) (v' : Volume) : Type 0 where
  pub inside : k < v.sb.size
  pub free : used v k ≡ false
  pub same_sb : v'.sb ≡ v.sb
  pub marked : (c : ℕ) → c < v.sb.size → used v' c ≡ (used v c || k == c)
  pub zeroed : (a : ℕ) → v'.block k a ≡ 0
  pub others : (c : ℕ) → c ≢ k → c ≢ bblock k v.sb → v'.block c ≡ v.block c
  pub layout : IsLayout v'
  pub logs : v'.logged ≡ k ∷ bblock k v.sb ∷ v.logged

true_ne : (a b : Bool) → a ≡ true → b ≡ false → a ≢ b
true_ne a b e f g = cc (sym e ∙ (g ∙ f))

module _ (v : Volume) (k : ℕ) (h : IsLayout v) (inside : k < v.sb.size)
    (free : used v k ≡ false) where
  abbrev at : ℕ
  at = bblock k v.sb

  -- `c` is in use, so it is not `k`.
  used_ne : (c : ℕ) → used v c ≡ true → k ≢ c
  used_ne c e same = true_ne (used v c) (used v k) e free (ap (used v) (sym same))

  block_other : (c : ℕ) → c ≢ k → c ≢ at → (taken k v).block c ≡ v.block c
  unfolding bzero
  block_other c ne ne' =
      update_ne (update v.block at (mark (k % bpb) (v.block at))) k c (λ a. 0) (λ e. ne (sym e))
      ∙ update_ne v.block at c _ (λ e. ne' (sym e))

  block_bitmap : (taken k v).block at ≡ mark (k % bpb) (v.block at)
  unfolding bzero
  block_bitmap =
      update_ne (update v.block at (mark (k % bpb) (v.block at))) k at (λ a. 0)
        (used_ne at (h.bitmap k inside))
      ∙ update_self v.block at _

  marked_taken : (c : ℕ) → c < v.sb.size → used (taken k v) c ≡ (used v c || k == c)
  unfolding bzero
  marked_taken c low = elim (Bool-cases (at == bblock c v.sb)) [
    | inl e ↦
        let one : bblock c v.sb ≡ at = sym (==→eq _ _ e) in
        let index : (k % bpb == c % bpb) ≡ (k == c) = ground (arith, one) in
        ap (λ (b : ℕ). bit_of ((taken k v).block b) (c % bpb)) one
        ∙ (ap (λ (d : Block). bit_of d (c % bpb)) block_bitmap
            ∙ (bit_of-mark (v.block at) (k % bpb) (c % bpb) ∙ rw (one, index) refl))
    | inr e ↦
        let away : bblock c v.sb ≢ k =
          λ same. used_ne (bblock c v.sb) (h.bitmap c low) (sym same) in
        let other : (k == c) ≡ false = ground (arith, ==→ne _ _ e) in
        ap (λ (d : Block). bit_of d (c % bpb))
          (block_other (bblock c v.sb) away (λ same. ==→ne _ _ e (sym same)))
        ∙ rw other (sym (or-false (used v c)))
  ]

  still_used : (c : ℕ) → c < v.sb.size → used v c ≡ true → used (taken k v) c ≡ true
  still_used c low e = marked_taken c low ∙ rw e refl

  taken-IsLayout : IsLayout (taken k v)
  unfolding bzero
  taken-IsLayout = record {
    bitmap = λ c low. still_used (bblock c v.sb) (h.inside c low) (h.bitmap c low);
    inside = h.inside;
    first = still_used 1 h.one_inside h.first;
    same =
        ap superblock_of
          (block_other 1 (λ e. used_ne 1 h.first (sym e)) (λ e. h.apart k inside (sym e)))
        ∙ h.same;
    apart = h.apart;
    one_inside = h.one_inside;
  }

  taken-Allocated : Allocated v k (taken k v)
  unfolding bzero
  taken-Allocated = record {
    inside = inside;
    free = free;
    same_sb = refl;
    marked = marked_taken;
    zeroed = λ a.
        ap (λ (d : Block). d a)
          (update_self (update v.block at (mark (k % bpb) (v.block at))) k (λ a. 0));
    others = block_other;
    layout = taken-IsLayout;
    logs = refl;
  }

-- What balloc gives: a block, or a panic when all are in use.
pub data Given (v : Volume) : Option (ℕ × Volume) → Type 0 where
  given : (k : ℕ) (v' : Volume) → Allocated v k v' → Given v (some (k, v'))
  none_free : ((j : ℕ) → j < v.sb.size → used v j ≡ true) → Given v none

Chosen-Given : (v : Volume) (o : Option (ℕ × Volume)) → IsLayout v → Chosen 0 v o → Given v o
Chosen-Given v o h (chosen k lo inside free before) =
    given k (taken k v) (taken-Allocated v k h inside free)
Chosen-Given v o h (exhausted all) = none_free (λ j low. all j (omega arith) low)

-- On a sound volume balloc returns a block that is not in use, marks it and no other, zeroes
-- it, and changes no other block but the bitmap's; it panics exactly when all blocks are in use. It
-- logs the two blocks that it changes, and the volume stays sound.
pub balloc-Given : (v : Volume) → IsLayout v → Given v (balloc v)
balloc-Given v h = Chosen-Given v (balloc v) h (balloc-Chosen v)

abbrev pub freed : ℕ → Volume → Volume
freed b v = write_block (bblock b v.sb) (unmark (b % bpb) (v.block (bblock b v.sb))) v

-- Block `b` is freed, and only it; the blocks but for the bitmap keep their contents.
pub record Freed (v : Volume) (b : ℕ) (v' : Volume) : Type 0 where
  pub same_sb : v'.sb ≡ v.sb
  pub cleared : (c : ℕ) → c < v.sb.size → used v' c ≡ (used v c && not (b == c))
  pub others : (c : ℕ) → c ≢ bblock b v.sb → v'.block c ≡ v.block c
  pub layout : IsLayout v'
  pub logs : v'.logged ≡ bblock b v.sb ∷ v.logged

readsb_same : (v : Volume) → IsLayout v → readsb v ≡ v
unfolding readsb
readsb_same v h = ap (λ (s : Superblock). record v { sb = s }) h.same

bfree_runs : (b : ℕ) (v : Volume) → IsLayout v → used v b ≡ true → bfree b v ≡ some (freed b v)
unfolding bfree
bfree_runs b v h busy = rw (bfree, readsb_same v h, busy) refl

bfree_panics : (b : ℕ) (v : Volume) → IsLayout v → used v b ≡ false → bfree b v ≡ none
unfolding bfree
bfree_panics b v h idle = rw (bfree, readsb_same v h, idle) refl

module _ (b : ℕ) (v : Volume) (h : IsLayout v) (low : b < v.sb.size) (ne1 : b ≢ 1)
    (ne : (c : ℕ) → c < v.sb.size → b ≢ bblock c v.sb) where
  cleared_freed : (c : ℕ) → c < v.sb.size → used (freed b v) c ≡ (used v c && not (b == c))
  cleared_freed c in_size = elim (Bool-cases (bblock b v.sb == bblock c v.sb)) [
    | inl e ↦
        let one : bblock c v.sb ≡ bblock b v.sb = sym (==→eq _ _ e) in
        let index : (b % bpb == c % bpb) ≡ (b == c) = ground (arith, one) in
        ap (λ (w : ℕ). bit_of ((freed b v).block w) (c % bpb)) one
        ∙ (ap (λ (d : Block). bit_of d (c % bpb)) (update_self v.block (bblock b v.sb) _)
            ∙ (bit_of-unmark (v.block (bblock b v.sb)) (b % bpb) (c % bpb) ∙ rw (one, index) refl))
    | inr e ↦
        let other : (b == c) ≡ false = ground (arith, ==→ne _ _ e) in
        ap (λ (d : Block). bit_of d (c % bpb))
          (update_ne v.block (bblock b v.sb) (bblock c v.sb) _ (==→ne _ _ e))
        ∙ rw other (sym (and-true (used v c)))
  ]

  kept_freed : (c : ℕ) → c < v.sb.size → used v c ≡ true → b ≢ c → used (freed b v) c ≡ true
  kept_freed c in_size e other =
      let differs : (b == c) ≡ false = ground (arith, other) in
      cleared_freed c in_size ∙ rw (e, differs) refl

  freed-Freed : Freed v b (freed b v)
  freed-Freed = record {
    same_sb = refl;
    cleared = cleared_freed;
    others = λ c away. update_ne v.block (bblock b v.sb) c _ (λ e. away (sym e));
    layout = record {
      bitmap = λ c in_size.
          kept_freed (bblock c v.sb) (h.inside c in_size) (h.bitmap c in_size) (ne c in_size);
      inside = h.inside;
      first = kept_freed 1 h.one_inside h.first ne1;
      same = ap superblock_of (update_ne v.block (bblock b v.sb) 1 _ (h.apart b low)) ∙ h.same;
      apart = h.apart;
      one_inside = h.one_inside;
    };
    logs = refl;
  }

  -- On a sound volume, for a block that is neither the superblock nor one of the bitmap: if it is in use
  -- bfree frees it and no other, changes no block but the bitmap's, logs that one and keeps the volume
  -- sound; if it is free bfree panics.
  pub bfree-Freed :
      (used v b ≡ true → (v' : Volume) × (bfree b v ≡ some v') × Freed v b v')
      × (used v b ≡ false → bfree b v ≡ none)
  bfree-Freed = ((λ busy. (freed b v, bfree_runs b v h busy, freed-Freed)), bfree_panics b v h)
