-- ===== src/Fs/Xv6/Bitmap.antt =====
-- The bitmap of fs/xv6fs.c: its bits, and which block balloc chooses.
use re_xvapor.Base.{
  ℕ, zero, suc, ◌+◌, ◌-◌, ◌*◌, ◌/◌, ◌%◌, ◌^◌, ◌≤◌, ◌<◌, ◌≡◌, refl, sym, ◌∙◌, ap, subst, Bool, true,
  false, not, ◌&&◌, ◌||◌, and-true, or-false, Bool-cases, Option, none, some, update_eq, update_ne,
  ltb, ◌==◌, ==→eq, ==→ne, arith, inl, inr,
}
use re_xvapor.Base.Bits.{bit, complement, bit-or, bit-and, bit-pow, bit-complement}
use re_xvapor.Fs.Xv6.{
  Block, Volume, bpb, bblock, bit_of, mark, unmark, write_block, bzero, find_free, balloc_from,
  balloc,
}

-- The bits of the bitmap's bytes.
pow_byte : (k : ℕ) → k < 8 → 2 ^ k < 2 ^ 8
pow_byte k h = small k (omega arith)
  where
    small : (k : ℕ) → k ≤ 7 → 2 ^ k < 256
    small zero h = omega arith
    small (suc zero) h = omega arith
    small (suc (suc zero)) h = omega arith
    small (suc (suc (suc zero))) h = omega arith
    small (suc (suc (suc (suc zero)))) h = omega arith
    small (suc (suc (suc (suc (suc zero))))) h = omega arith
    small (suc (suc (suc (suc (suc (suc zero)))))) h = omega arith
    small (suc (suc (suc (suc (suc (suc (suc zero))))))) h = omega arith
    small (suc (suc (suc (suc (suc (suc (suc (suc k)))))))) h = absurd (omega arith)

pub bit_of-mark : (d : Block) (bi bj : ℕ) → bit_of (mark bi d) bj ≡ (bit_of d bj || bi == bj)
bit_of-mark d bi bj = elim (Bool-cases (bi / 8 == bj / 8)) [
  | inl same ↦
      let one : bi / 8 ≡ bj / 8 = ==→eq _ _ same in
      ap (λ (w : ℕ). bit w (bj % 8)) (update_eq d (bi / 8) (bj / 8) _ one)
      ∙ (bit-or (bj % 8) (d (bi / 8)) (2 ^ (bi % 8))
          ∙ rw (one, bit-pow (bj % 8) (bi % 8))
              (ap (λ (b : Bool). bit (d (bj / 8)) (bj % 8) || b) (same_index one)))
  | inr other ↦
      let ne : (bi == bj) ≡ false = ground arith in
      ap (λ (w : ℕ). bit w (bj % 8)) (update_ne d (bi / 8) (bj / 8) _ (==→ne _ _ other))
      ∙ rw ne (sym (or-false (bit (d (bj / 8)) (bj % 8))))
]
  where
    same_index : bi / 8 ≡ bj / 8 → (bj % 8 == bi % 8) ≡ (bi == bj)
    same_index one = ground (arith, one)

pub bit_of-unmark :
    (d : Block) (bi bj : ℕ) → bit_of (unmark bi d) bj ≡ (bit_of d bj && not (bi == bj))
bit_of-unmark d bi bj = elim (Bool-cases (bi / 8 == bj / 8)) [
  | inl same ↦
      let one : bi / 8 ≡ bj / 8 = ==→eq _ _ same in
      ap (λ (w : ℕ). bit w (bj % 8)) (update_eq d (bi / 8) (bj / 8) _ one)
      ∙ (bit-and (bj % 8) (d (bi / 8)) (complement 8 (2 ^ (bi % 8)))
          ∙ rw
              (
                one,
                bit-complement (bj % 8) 8 (2 ^ (bi % 8)) (omega arith)
                    (pow_byte (bi % 8) (omega arith)),
                bit-pow (bj % 8) (bi % 8),
              )
              (ap (λ (b : Bool). bit (d (bj / 8)) (bj % 8) && not b) (same_index one)))
  | inr other ↦
      let ne : (bi == bj) ≡ false = ground arith in
      ap (λ (w : ℕ). bit w (bj % 8)) (update_ne d (bi / 8) (bj / 8) _ (==→ne _ _ other))
      ∙ rw ne (sym (and-true (bit (d (bj / 8)) (bj % 8))))
]
  where
    same_index : bi / 8 ≡ bj / 8 → (bj % 8 == bi % 8) ≡ (bi == bj)
    same_index one = ground (arith, one)

-- Whether block `c` is in use.
abbrev pub used : Volume → ℕ → Bool
used v c = bit_of (v.block (bblock c v.sb)) (c % bpb)

-- The result of the inner loop from bit `bi` on.
data Search (n bi b size : ℕ) (d : Block) : Option ℕ → Type 0 where
  found :
      (k : ℕ)
      → bi ≤ k
      → k < bi + n
      → b + k < size
      → bit_of d k ≡ false
      → ((j : ℕ) → bi ≤ j → j < k → bit_of d j ≡ true)
      → Search n bi b size d (some k)
  missing :
      ((j : ℕ) → bi ≤ j → j < bi + n → b + j < size → bit_of d j ≡ true) → Search n bi b size d none

find_free-Search : (n bi b size : ℕ) (d : Block) → Search n bi b size d (find_free n bi b size d)
unfolding find_free
find_free-Search zero bi b size d = missing (λ j lo hi in_size. absurd (omega arith))
find_free-Search (suc n) bi b size d = elim (Bool-cases (ltb (b + bi) size)) [
  | inr out ↦ rw out (missing (λ j lo hi in_size. absurd (ground arith)))
  | inl inside ↦ elim (Bool-cases (bit_of d bi)) [
    | inr free ↦
        rw (inside, free)
          (found bi (omega arith) (omega arith) (ground arith) free
            (λ j lo hi. absurd (omega arith)))
    | inl taken ↦
        rw (inside, taken)
          (later taken (find_free n (bi + 1) b size d) (find_free-Search n (bi + 1) b size d))
  ]
]
  where
    later :
        bit_of d bi ≡ true
        → (o : Option ℕ) → Search n (bi + 1) b size d o
        → Search (suc n) bi b size d o
    later taken o (found k lo hi inside free before) =
        found k (omega arith) (omega arith) inside free (λ j lo' hi'. elim (Bool-cases (bi == j)) [
          | inl e ↦ subst (λ (i : ℕ). bit_of d i ≡ true) (==→eq bi j e) taken
          | inr e ↦ before j (ground arith) hi'
        ])
    later taken o (missing all) = missing (λ j lo hi inside. elim (Bool-cases (bi == j)) [
      | inl e ↦ subst (λ (i : ℕ). bit_of d i ≡ true) (==→eq bi j e) taken
      | inr e ↦ all j (ground arith) (omega arith) inside
    ])

-- The volume behind balloc's choice of `k`.
abbrev pub taken : ℕ → Volume → Volume
taken k v = bzero k (write_block (bblock k v.sb) (mark (k % bpb) (v.block (bblock k v.sb))) v)

pub data Chosen (b : ℕ) (v : Volume) : Option (ℕ × Volume) → Type 0 where
  chosen :
      (k : ℕ)
      → b ≤ k
      → k < v.sb.size
      → used v k ≡ false
      → ((j : ℕ) → b ≤ j → j < k → used v j ≡ true)
      → Chosen b v (some (k, taken k v))
  exhausted : ((j : ℕ) → b ≤ j → j < v.sb.size → used v j ≡ true) → Chosen b v none

module _ (fuel b : ℕ) (v : Volume) where
  abbrev bits : Block
  bits = v.block (bblock b v.sb)

  balloc_stop : ltb b v.sb.size ≡ false → balloc_from (suc fuel) b v ≡ none
  unfolding balloc_from
  balloc_stop e = rw e refl

  balloc_next :
      ltb b v.sb.size ≡ true
      → find_free bpb 0 b v.sb.size bits ≡ none
      → balloc_from (suc fuel) b v ≡ balloc_from fuel (b + bpb) v
  unfolding balloc_from
  balloc_next e f = rw (e, f) refl

  balloc_hit :
      (bi : ℕ)
      → ltb b v.sb.size ≡ true
      → find_free bpb 0 b v.sb.size bits ≡ some bi
      → balloc_from (suc fuel) b v
        ≡ some (b + bi, bzero (b + bi) (write_block (bblock b v.sb) (mark bi bits) v))
  unfolding balloc_from
  balloc_hit bi e f = rw (e, f) refl

  module _ (aligned : b % bpb ≡ 0) where
    same_block : (i : ℕ) → i < bpb → bblock (b + i) v.sb ≡ bblock b v.sb
    same_block i lo = omega (arith, aligned)

    same_bit : (i : ℕ) → i < bpb → (b + i) % bpb ≡ i
    same_bit i lo = omega (arith, aligned)

    -- A bit of this bitmap block.
    used_here : (j : ℕ) → b ≤ j → j < b + bpb → used v j ≡ bit_of bits (j - b)
    used_here j lo hi =
        let at : j ≡ b + (j - b) = omega arith in
        let block : bblock j v.sb ≡ bblock b v.sb = omega (arith, aligned) in
        let index : j % bpb ≡ j - b = omega (arith, aligned) in rw (block, index) refl

    hit-Chosen :
        (bi : ℕ)
        → bi < bpb
        → b + bi < v.sb.size
        → bit_of bits bi ≡ false
        → ((j : ℕ) → j < bi → bit_of bits j ≡ true)
        → Chosen b v (some (b + bi, bzero (b + bi) (write_block (bblock b v.sb) (mark bi bits) v)))
    hit-Chosen bi lo inside free before =
        subst (λ (w : Volume). Chosen b v (some (b + bi, w))) same_volume
          (chosen (b + bi) (omega arith) inside
            (used_here (b + bi) (omega arith) (omega arith)
              ∙ (ap (λ (i : ℕ). bit_of bits i) offset ∙ free))
            (λ j lo' hi. used_here j lo' (omega arith) ∙ before (j - b) (omega arith)))
      where
        offset : b + bi - b ≡ bi
        offset = omega arith

        same_volume :
            taken (b + bi) v ≡ bzero (b + bi) (write_block (bblock b v.sb) (mark bi bits) v)
        same_volume = rw (same_block bi lo, same_bit bi lo) refl

-- No free block up to `b + bpb`.
widen-Chosen :
    (b : ℕ) (v : Volume) (o : Option (ℕ × Volume))
    → ((j : ℕ) → b ≤ j → j < b + bpb → j < v.sb.size → used v j ≡ true)
    → Chosen (b + bpb) v o
    → Chosen b v o
widen-Chosen b v o all (chosen k lo inside free before) =
    chosen k (omega arith) inside free (λ j lo' hi. elim (Bool-cases (ltb j (b + bpb))) [
      | inl first ↦ all j lo' (ground arith) (omega arith)
      | inr later ↦ before j (ground arith) hi
    ])
widen-Chosen b v o all (exhausted rest) = exhausted (λ j lo inside.
    elim (Bool-cases (ltb j (b + bpb))) [
      | inl first ↦ all j lo (ground arith) inside
      | inr later ↦ rest j (ground arith) inside
    ])

searched-Chosen :
    (fuel b : ℕ) (v : Volume) (o : Option ℕ)
    → b % bpb ≡ 0
    → ltb b v.sb.size ≡ true
    → find_free bpb 0 b v.sb.size (v.block (bblock b v.sb)) ≡ o
    → Search bpb 0 b v.sb.size (v.block (bblock b v.sb)) o
    → Chosen (b + bpb) v (balloc_from fuel (b + bpb) v)
    → Chosen b v (balloc_from (suc fuel) b v)
searched-Chosen fuel b v o al more e (found k lo hi inside free before) rest =
    subst (Chosen b v) (sym (balloc_hit fuel b v k more e))
      (hit-Chosen fuel b v al k hi inside free (λ j lo'. before j (omega arith) lo'))
searched-Chosen fuel b v o al more e (missing all) rest =
    subst (Chosen b v) (sym (balloc_next fuel b v more e)) (
      widen-Chosen b v (balloc_from fuel (b + bpb) v)
        (λ j lo hi inside.
          used_here fuel b v al j lo hi ∙ all (j - b) (omega arith) (omega arith) (omega arith))
        rest)

balloc_from-Chosen :
    (fuel b : ℕ) (v : Volume)
    → b % bpb ≡ 0
    → v.sb.size < b + fuel * bpb
    → Chosen b v (balloc_from fuel b v)
unfolding balloc_from
balloc_from-Chosen zero b v al enough = exhausted (λ j lo inside. absurd (omega arith))
balloc_from-Chosen (suc fuel) b v al enough = elim (Bool-cases (ltb b v.sb.size)) [
  | inr done ↦
      subst (Chosen b v) (sym (balloc_stop fuel b v done))
        (exhausted (λ j lo inside. absurd (ground arith)))
  | inl more ↦
      searched-Chosen fuel b v _ al more refl
        (find_free-Search bpb 0 b v.sb.size (v.block (bblock b v.sb)))
        (balloc_from-Chosen fuel (b + bpb) v (omega arith) (omega arith))
]

pub balloc-Chosen : (v : Volume) → Chosen 0 v (balloc v)
unfolding balloc
balloc-Chosen v = balloc_from-Chosen (v.sb.size / bpb + 1) 0 v (omega arith) (omega arith)
