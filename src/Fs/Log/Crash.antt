-- ===== src/Fs/Log/Crash.antt =====
-- The states of the disk that the log (fs/log.c) moves between, for a log area of `size` blocks
-- from `start` on and a transaction that changes the blocks `blk 0 … blk (n - 1)`.
use re_xvapor.Base.{
  ℕ, zero, suc, ◌+◌, ◌≤◌, ◌<◌, ◌≡◌, ◌≢◌, ◌⊎◌, inl, inr, arith, Bool-cases, ◌==◌, ==→eq, ==→ne,
}
use re_xvapor.Fs.Log.{Block}

-- Block `b` is not in the log area.
abbrev pub IsHome : ℕ → ℕ → ℕ → Type 0
IsHome start size b = (b < start) ⊎ (start + size ≤ b)

-- `b` is among the first `n` of the block numbers, or none of them.
pub among :
    (n : ℕ) (blk : ℕ → ℕ) (b : ℕ)
    → ((j : ℕ) × (j < n) × (b ≡ blk j)) ⊎ ((j : ℕ) → j < n → b ≢ blk j)
among zero blk b = inr (λ j h. elim h [ ])
among (suc n) blk b = elim (among n blk b) [
  | inl (j, h, e) ↦ inl (j, omega arith, e)
  | inr out ↦ elim (Bool-cases (b == blk n)) [
    | inl e ↦ inl (n, omega arith, ==→eq b (blk n) e)
    | inr ne ↦ inr (λ j h e. elim (Bool-cases (j == n)) [
      | inl last ↦ ==→ne b (blk n) ne (rw (← ==→eq j n last) e)
      | inr before ↦ out j (let d : j ≢ n = ==→ne j n before in omega arith) e
    ])
  ]
]

-- The home blocks of `d` are those of `v`.
abbrev pub SameHome : ℕ → ℕ → (ℕ → Block) → (ℕ → Block) → Type 0
SameHome start size d v = (b : ℕ) → IsHome start size b → d b ≡ v b

-- The header says that there is nothing to install, and the home blocks are those of `v`.
pub record Holds (start size : ℕ) (v d : ℕ → Block) : Type 0 where
  pub empty : d start 0 ≡ 0
  pub homes : SameHome start size d v

-- The header names the transaction's blocks, the log holds what they are to be in `v`, and the
-- other home blocks are those of `v` already.
pub record Committed (start size n : ℕ) (blk : ℕ → ℕ) (v d : ℕ → Block) : Type 0 where
  pub count : d start 0 ≡ n
  pub names : (j : ℕ) → j < n → d start (j + 1) ≡ blk j
  pub logged : (j : ℕ) → j < n → d (start + j + 1) ≡ v (blk j)
  pub others : (b : ℕ) → IsHome start size b → ((j : ℕ) → j < n → b ≢ blk j) → d b ≡ v b
