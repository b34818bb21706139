-- ===== src/Fs/Log/Atomic.antt =====
-- All or nothing: crashes during a commit (fs/log.c), and crashes during the recoveries after it.
use re_xvapor.Base.{ℕ, ◌<◌, ◌≡◌, ◌⊎◌, inl, inr, ◌∷◌, All, All-Among, Among}
use re_xvapor.Fs.Log.{Log, Block, Superblock, initlog, boot, commit}
use re_xvapor.Fs.Log.Crash.{IsHome, SameHome, Holds, Committed}
use re_xvapor.Fs.Log.Recovery.{initlog-Committed, initlog-Holds}
use re_xvapor.Fs.Log.Commit.{IsReady, Crashed, commit_lem}

-- The machine starts with disk `d`, and is started anew after each crash within initlog, until one
-- recovery runs to its end and leaves disk `r`.
pub data Reboots (dev : ℕ) (sb : Superblock) : (ℕ → Block) → (ℕ → Block) → Type 0 where
  recovers : {d r : ℕ → Block} → r ≡ (initlog dev sb (boot d)).disk → Reboots dev sb d r
  crashes :
      {d d' r : ℕ → Block}
      → Among d' (initlog dev sb (boot d)).history
      → Reboots dev sb d' r
      → Reboots dev sb d r

module _ (start size n : ℕ) (blk : ℕ → ℕ) (v : ℕ → Block) (fits : n < size)
    (home : (j : ℕ) → j < n → IsHome start size (blk j)) (dev : ℕ) where
  abbrev superblock : Superblock
  superblock = record { logstart = start; nlog = size }

  Reboots-Holds :
      {d r : ℕ → Block}
      → Holds start size v d
      → Reboots dev superblock d r
      → SameHome start size r v
  Reboots-Holds {d} h (recovers e) =
      rw e (initlog-Holds start size n blk v fits home dev d h).0.homes
  Reboots-Holds {d} h (crashes {d' = d'} m more) =
      Reboots-Holds
        (All-Among (Holds start size v) d' _ (initlog-Holds start size n blk v fits home dev d h).1
          m)
        more

  Reboots-Committed :
      {d r : ℕ → Block}
      → Committed start size n blk v d
      → Reboots dev superblock d r
      → SameHome start size r v
  Reboots-Committed {d} h (recovers e) =
      rw e (initlog-Committed start size n blk v fits home dev d h).0.homes
  Reboots-Committed {d} h (crashes {d' = d'} m more) =
      Reboots-Committed
        (All-Among (Committed start size n blk v) d' _
          (initlog-Committed start size n blk v fits home dev d h).1 m)
        more

-- Whatever disk a crash during the commit leaves, and however often the recovery itself is cut off,
-- the recovery that ends leaves every home block as it was on disk before the commit, or every one
-- as the transaction had it.
pub commit_atomic :
    (s : Log) (dev : ℕ) {d r : ℕ → Block}
    → IsReady s
    → Among d ((commit s).disk ∷ (commit s).history)
    → Reboots dev (record { logstart = s.start; nlog = s.size }) d r
    → SameHome s.start s.size r s.disk ⊎ SameHome s.start s.size r s.cache
commit_atomic s dev {d} {r} ready m reboots =
    outcome (All-Among (Crashed s ready) d ((commit s).disk ∷ (commit s).history) crash_points m)
  where
    crash_points : All (Crashed s ready) ((commit s).disk ∷ (commit s).history)
    crash_points = let c = commit_lem s ready in (inr (inr c.0), c.2)

    outcome :
        Crashed s ready d → SameHome s.start s.size r s.disk ⊎ SameHome s.start s.size r s.cache
    outcome (inl before) =
        inl (
          Reboots-Holds s.start s.size s.n s.block s.disk ready.fits ready.homes dev before reboots)
    outcome (inr (inl within)) = inr (
        Reboots-Committed s.start s.size s.n s.block s.cache ready.fits ready.homes dev within
          reboots)
    outcome (inr (inr after)) =
        inr (
          Reboots-Holds s.start s.size s.n s.block s.cache ready.fits ready.homes dev after reboots)

-- A commit that is not cut off brings every home block to disk as it is cached, empties the log on
-- disk and forgets the transaction's block numbers.
pub commit_installs :
    (s : Log)
    → IsReady s
    → SameHome s.start s.size (commit s).disk s.cache
      × ((commit s).disk s.start 0 ≡ 0)
      × ((commit s).n ≡ 0)
commit_installs s ready = let c = commit_lem s ready in (c.0.homes, c.0.empty, c.1)
