-- ===== src/Fs/Bio.antt =====
-- The buffer cache, kernel/fs/bio.c. A buffer is its number, 1 to NBUF, in the order of the array
-- `buf`, and the list's head is number 0. The locks of the buffers are the caller's part: `holding`
-- says for which buffers holdingsleep() holds.
pub mod Ring
pub mod Scan
pub mod Unique
pub mod Sound
pub mod Reach
pub mod Result
mod Tests
use re_xvapor.Base.{
  ℕ, zero, suc, ◌+◌, ◌*◌, ◌-◌, ◌%◌, ◌^◌, Bool, true, false, ◌&&◌, Option, none, some, update, ◌==◌,
  if◌then◌else◌,
}
use re_xvapor.Fs.Log.{maxopblocks}

abbrev pub nbuf : ℕ
nbuf = maxopblocks * 3

pub record Links : Type 0 where
  pub next : ℕ → ℕ
  pub prev : ℕ → ℕ

-- `bcache`, with each field of the buffers as a map; `bytes` is `data`.
pub record Bcache : Type 0 where
  pub links : Links
  pub dev : ℕ → ℕ
  pub blockno : ℕ → ℕ
  pub refcnt : ℕ → ℕ
  pub valid : ℕ → Bool
  pub bytes : ℕ → ℕ

-- b is put behind the head.
unfoldable pub push_front : ℕ → Links → Links
push_front b l =
    let next = update l.next b (l.next 0) in
    let prev = update l.prev b 0 in record { next = update next 0 b; prev = update prev (next 0) b }

-- b->next->prev = b->prev; b->prev->next = b->next
unfoldable pub unlink : ℕ → Links → Links
unlink b l =
    let prev = update l.prev (l.next b) (l.prev b) in
    record { next = update l.next (prev b) (l.next b); prev = prev }

-- The loop of binit, with `k` buffers left, from `b` on.
unfoldable pub push_from : ℕ → ℕ → Links → Links
push_from zero b l = l
push_from (suc k) b l = push_from k (b + 1) (push_front b l)

-- The globals are zero before.
unfoldable pub binit : Bcache
binit = record {
  links = push_from nbuf 1 (record { next = λ b. 0; prev = λ b. 0 });
  dev = λ b. 0;
  blockno = λ b. 0;
  refcnt = λ b. 0;
  valid = λ b. false;
  bytes = λ b. 0;
}

-- How a walk round the list ends: at a buffer, at the head, or out of fuel.
pub data Walk : Type 0 where
  found : ℕ → Walk
  ended : Walk
  unfinished : Walk

abbrev pub caches : Bcache → ℕ → ℕ → ℕ → Bool
caches s dev blockno b = s.dev b == dev && s.blockno b == blockno

-- The first loop of bget, at `b`.
unfoldable pub find_cached : ℕ → Bcache → ℕ → ℕ → ℕ → Walk
find_cached zero s dev blockno b = unfinished
find_cached (suc fuel) s dev blockno b =
    let rest = find_cached fuel s dev blockno (s.links.next b) in
    if b == 0 then ended else if caches s dev blockno b then found b else rest

-- The second loop of bget, at `b`.
unfoldable pub find_unused : ℕ → Bcache → ℕ → Walk
find_unused zero s b = unfinished
find_unused (suc fuel) s b =
    let rest = find_unused fuel s (s.links.prev b) in
    if b == 0 then ended else if s.refcnt b == 0 then found b else rest

pub data BgetResult : Type 0 where
  got : ℕ → Bcache → BgetResult
  panics : BgetResult
  loops : BgetResult

abbrev pub bpin : ℕ → Bcache → Bcache
bpin b s = record s { refcnt = update s.refcnt b ((s.refcnt b + 1) % 2 ^ 32) }

abbrev pub bunpin : ℕ → Bcache → Bcache
bunpin b s = record s { refcnt = update s.refcnt b ((s.refcnt b + 2 ^ 32 - 1) % 2 ^ 32) }

abbrev pub recycle : ℕ → ℕ → ℕ → Bcache → Bcache
recycle dev blockno b s = record s {
  dev = update s.dev b dev;
  blockno = update s.blockno b blockno;
  valid = update s.valid b false;
  refcnt = update s.refcnt b 1;
}

unfoldable pub bget : ℕ → ℕ → Bcache → BgetResult
bget dev blockno s = elim (find_cached (nbuf + 1) s dev blockno (s.links.next 0)) [
  | found b ↦ got b (bpin b s)
  | ended ↦ elim (find_unused (nbuf + 1) s (s.links.prev 0)) [
    | found b ↦ got b (recycle dev blockno b s)
    | ended ↦ panics
    | unfinished ↦ loops
  ]
  | unfinished ↦ loops
]

abbrev pub read_block : (ℕ → ℕ) → ℕ → Bcache → Bcache
read_block disk b s = record s {
  bytes = update s.bytes b (disk (s.blockno b));
  valid = update s.valid b true;
}

abbrev pub fetched : (ℕ → ℕ) → ℕ → Bcache → Bcache
fetched disk b s = if s.valid b then s else read_block disk b s

-- `disk` is what virtio_disk_rw reads for a block number.
unfoldable pub bread : (ℕ → ℕ) → ℕ → ℕ → Bcache → BgetResult
bread disk dev blockno s = elim (bget dev blockno s) [
  | got b s' ↦ got b (fetched disk b s')
  | panics ↦ panics
  | loops ↦ loops
]

-- The disk afterwards; `none` is the panic.
unfoldable pub bwrite : (ℕ → Bool) → ℕ → Bcache → (ℕ → ℕ) → Option (ℕ → ℕ)
bwrite holding b s disk = if holding b then some (update disk (s.blockno b) (s.bytes b)) else none

-- `none` is the panic.
unfoldable pub brelse : (ℕ → Bool) → ℕ → Bcache → Option Bcache
brelse holding b s =
    let s' = bunpin b s in
    if holding b
    then some
        (if s'.refcnt b == 0 then record s' { links = push_front b (unlink b s'.links) } else s')
    else none
