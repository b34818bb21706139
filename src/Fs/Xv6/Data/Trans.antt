-- ===== src/Fs/Xv6/Data/Trans.antt =====
-- The operations of fs/xv6fs.c inside a transaction: every block that they give to log_write goes through
-- log_write of fs/log.c, with its panics.
use re_xvapor.Base.{ℕ, ◌+◌, ◌^◌, ◌≤◌, ◌<◌, ◌≡◌, Option, none, some, List, [], ◌∷◌, length}
use re_xvapor.Fs.Log.{Log, logsize, log_write}
use re_xvapor.Fs.Xv6.{Volume}
use re_xvapor.Fs.Xv6.Inode.{Inode}

-- log_write of each of the blocks, the first one last in the list; `none` is a panic.
unfoldable pub log_writes : List ℕ → Log → Option Log
log_writes [] s = some s
log_writes (b ∷ bs) s = elim (log_writes bs s) [ none ↦ none | some s' ↦ log_write b s' ]

-- A call with log `s`, on a volume that starts with nothing in `logged`; `none` is a panic of the call or of
-- a log_write in it.
unfoldable pub in_log : {A : Type 0} → (A → Volume) → Log → Option A → Option (A × Log)
unfolding log_writes
in_log volume s none = none
in_log volume s (some a) = elim (log_writes (volume a).logged s) [
  | none ↦ none
  | some s' ↦ some (a, s')
]

-- An operation is in progress, and the log takes `k` more blocks.
pub record IsOpen (s : Log) (k : ℕ) : Type 0 where
  pub running : 0 < s.outstanding
  pub few : s.outstanding < 2 ^ 31
  pub room : s.n + k ≤ logsize
  pub fits : s.n + k < s.size

-- What blocks that the log takes leave.
record Took (k : ℕ) (s s' : Log) : Type 0 where
  pub outstanding : s'.outstanding ≡ s.outstanding
  pub size : s'.size ≡ s.size
  pub n : s'.n ≤ s.n + k

-- What a call in a transaction gives, where it gives `P` by itself and logs at most `k` blocks: the log took
-- its blocks, or the call panicked, or a log_write did, in a log that is not open for as many blocks
-- as the call logged.
pub data InLog {A : Type 0} (volume : A → Volume) (P : Option A → Type 0) (k : ℕ) (s : Log)
    : Option (A × Log) → Type 0 where
  completes :
      (a : A) (s' : Log)
      → P (some a)
      → length (volume a).logged ≤ k
      → log_writes (volume a).logged s ≡ some s'
      → InLog volume P k s (some (a, s'))
  panicked : P none → InLog volume P k s none
  refused :
      (a : A)
      → P (some a)
      → length (volume a).logged ≤ k
      → (IsOpen s (length (volume a).logged) → ⊥)
      → InLog volume P k s none
