-- ===== src/Fs/Log/Head.antt =====
-- The log header on disk (read_head and write_head of fs/log.c): what is stored is loaded again.
use re_xvapor.Base.{ℕ, zero, suc, ◌+◌, ◌≤◌, ◌<◌, ◌≡◌, refl, update, arith, ◌∙◌, update_ne}
use re_xvapor.Fs.Log.{Block, load_blocks, store_blocks}

pub store_blocks-before :
    (k i : ℕ) (block : ℕ → ℕ) (hb : Block) (w : ℕ) → w ≤ i → store_blocks k i block hb w ≡ hb w
unfolding store_blocks
store_blocks-before zero i block hb w h = refl
store_blocks-before (suc k) i block hb w h =
    store_blocks-before k (i + 1) block (update hb (i + 1) (block i)) w (omega arith)
    ∙ update_ne hb (i + 1) w (block i) (omega arith)

pub store_blocks-at :
    (k i : ℕ) (block : ℕ → ℕ) (hb : Block) (j : ℕ)
    → i ≤ j
    → j < i + k
    → store_blocks k i block hb (j + 1) ≡ block j
unfolding store_blocks
store_blocks-at zero i block hb j lo hi = absurd (omega arith)
store_blocks-at (suc k) i block hb j lo hi = ground (
  arith,
  store_blocks-at k (i + 1) block (update hb (i + 1) (block i)) j,
  store_blocks-before k (i + 1) block (update hb (i + 1) (block i)) (i + 1),
)

load_blocks-before :
    (k i : ℕ) (hb : Block) (block : ℕ → ℕ) (j : ℕ) → j < i → load_blocks k i hb block j ≡ block j
unfolding load_blocks
load_blocks-before zero i hb block j h = refl
load_blocks-before (suc k) i hb block j h =
    load_blocks-before k (i + 1) hb (update block i (hb (i + 1))) j (omega arith)
    ∙ update_ne block i j (hb (i + 1)) (omega arith)

pub load_blocks-at :
    (k i : ℕ) (hb : Block) (block : ℕ → ℕ) (j : ℕ)
    → i ≤ j
    → j < i + k
    → load_blocks k i hb block j ≡ hb (j + 1)
unfolding load_blocks
load_blocks-at zero i hb block j lo hi = absurd (omega arith)
load_blocks-at (suc k) i hb block j lo hi = ground (
  arith,
  load_blocks-at k (i + 1) hb (update block i (hb (i + 1))) j,
  load_blocks-before k (i + 1) hb (update block i (hb (i + 1))) i,
)
