-- ===== src/Fs/Xv6/Data/Piece.antt =====
-- The pieces of a transfer in readi and writei (fs/xv6fs.c): one block each.
use re_xvapor.Base.{
  ℕ, ◌+◌, ◌-◌, ◌/◌, ◌%◌, ◌≤◌, ◌<◌, ◌≡◌, ◌≢◌, refl, ap, true, false, ◌&&◌, Bool-cases, Option, none,
  ltb, leb, arith, inl, inr,
}
use re_xvapor.Fs.Xv6.Inode.Map.{slot}
use re_xvapor.Fs.Xv6.Data.{Memory, to_block, piece}
use re_xvapor.Fs.Xv6.Data.Stored.{blocks}

-- No copy within the range fails.
abbrev pub Copies : (ℕ → ℕ → Option ℕ) → ℕ → ℕ → Type 0
Copies fails a n = (x m : ℕ) → a ≤ x → x + m ≤ a + n → fails x m ≡ none

pub piece_bounds :
    (left off : ℕ)
    → left ≢ 0
    → (0 < piece left off) × (piece left off ≤ left) × (off % 512 + piece left off ≤ 512)
piece_bounds left off nz = ((ground (arith, nz)), (ground arith), ground arith)

pub blocks_step :
    (left off : ℕ)
    → left ≢ 0
    → blocks (off + piece left off) (left - piece left off) + 1 ≤ blocks off left
blocks_step left off nz = ground (arith, nz)

-- A directory entry stands in one block.
pub one_block : (off : ℕ) → off % 16 ≡ 0 → blocks off 16 ≤ 1
one_block off al = omega (arith, al)

-- The range [off, off + m) within a block.
pub window :
    (off m i : ℕ)
    → off / 512 ≡ i / 512
    → (leb (off % 512) (i % 512) && ltb (i % 512) (off % 512 + m)) ≡ (leb off i && ltb i (off + m))
window off m i e =
    let lo : leb (off % 512) (i % 512) ≡ leb off i = ground (arith, e) in
    let hi : ltb (i % 512) (off % 512 + m) ≡ ltb i (off + m) = ground (arith, e) in rw (lo, hi) refl

pub shift : (off i : ℕ) → off / 512 ≡ i / 512 → i % 512 - off % 512 ≡ i - off
shift off i e = omega (arith, e)

pub outside :
    (off m i : ℕ)
    → off / 512 ≢ i / 512
    → off % 512 + m ≤ 512
    → (leb off i && ltb i (off + m)) ≡ false
outside off m i ne fits = ground (arith, ne)

pub slots_differ : (x y : ℕ) → x ≢ y → slot x ≢ slot y
slots_differ x y ne = ground (arith, ne)

-- A write of `m` bytes to the block at `off`, then of the rest.
pub join :
    (src off left m : ℕ) (b : Memory) (f : ℕ → ℕ) (i : ℕ)
    → m ≤ left
    → to_block (src + m) (off + m) (left - m) b (to_block src off m b f) i
      ≡ to_block src off left b f i
join src off left m b f i lo = elim (Bool-cases (leb (off + m) i)) [
  | inl later ↦
      let at : src + m + (i - (off + m)) ≡ src + (i - off) = ground arith in
      let a : leb off i ≡ true = ground arith in
      let c : ltb i (off + m) ≡ false = ground arith in
      let e : ltb i (off + m + (left - m)) ≡ ltb i (off + left) = ap (ltb i) (omega arith) in
      rw (later, a, c, e, at) refl
  | inr early ↦
      let c : ltb i (off + m) ≡ true = ground arith in
      let e : ltb i (off + left) ≡ true = ground arith in rw (early, c, e) refl
]
