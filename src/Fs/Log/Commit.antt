-- ===== src/Fs/Log/Commit.antt =====
-- A transaction's commit (write_log, write_head, install_trans of fs/log.c) and the crashes within.
use re_xvapor.Base.{
  ℕ, zero, suc, ◌+◌, ◌<◌, ◌≡◌, refl, sym, subst, ◌≢◌, ◌⊎◌, inl, inr, arith, ◌∙◌, false, [], All,
  All-map, update, update_ne, update_eq, ap, lt→ltb, ◌==◌, ==→eq, ==→ne, Bool-cases, dec_lt,
}
use mathlib.Core.Path.{subst₂}
use re_xvapor.Fs.Log.{
  Log, Block, bwrite, log_one, write_log_from, write_log, install_trans, write_head, commit,
  store_blocks,
}
use re_xvapor.Fs.Log.Head.{store_blocks-before, store_blocks-at}
use re_xvapor.Fs.Log.Crash.{IsHome, Holds, Committed}
use re_xvapor.Fs.Log.Recovery.{
  Installing, install_trans-Installing, Installing-SameHome, write_head-Holds, history-write_head,
}

-- A transaction about to commit: its blocks are home blocks and fit the log, the log on disk is
-- empty, no write is recorded yet, and only the transaction's blocks differ between the cache and the disk.
pub record IsReady (s : Log) : Type 0 where
  pub fresh : s.history ≡ []
  pub fits : s.n < s.size
  pub homes : (j : ℕ) → j < s.n → IsHome s.start s.size (s.block j)
  pub empty : s.disk s.start 0 ≡ 0
  pub clean :
      (b : ℕ) → IsHome s.start s.size b → ((j : ℕ) → j < s.n → b ≢ s.block j) → s.cache b ≡ s.disk b

module _ (s : Log) (ready : IsReady s) where
  abbrev pub Before : (ℕ → Block) → Type 0
  Before = Holds s.start s.size s.disk

  abbrev pub Within : (ℕ → Block) → Type 0
  Within = Committed s.start s.size s.n s.block s.cache

  abbrev pub After : (ℕ → Block) → Type 0
  After = Holds s.start s.size s.cache

  -- The state of write_log before round `i`.
  record Logging (i : ℕ) (t : Log) : Type 0 where
    start_is : t.start ≡ s.start
    n_is : t.n ≡ s.n
    block_is : t.block ≡ s.block
    cached : (b : ℕ) → IsHome s.start s.size b → t.cache b ≡ s.cache b
    before : Before t.disk
    buffers : (j : ℕ) → j < i → t.cache (s.start + j + 1) ≡ s.cache (s.block j)
    logged : (j : ℕ) → j < i → t.disk (s.start + j + 1) ≡ s.cache (s.block j)
    crashes : All Before t.history

  log_written :
      (i : ℕ) (t : Log)
      → i < s.n
      → Logging i t
      → Logging (suc i) (bwrite (s.start + i + 1) (s.cache (s.block i)) t)
  log_written i t h g = record {
    start_is = g.start_is;
    n_is = g.n_is;
    block_is = g.block_is;
    cached = λ b hb. update_ne t.cache slot b v (λ e. outside b hb e) ∙ g.cached b hb;
    before = record {
      empty =
          ap (λ (b : Block). b 0) (update_ne t.disk slot s.start v (omega arith)) ∙ g.before.empty;
      homes = λ b hb. update_ne t.disk slot b v (λ e. outside b hb e) ∙ g.before.homes b hb;
    };
    buffers = λ j hj. stored t.cache j (g.buffers j) hj;
    logged = λ j hj. stored t.disk j (g.logged j) hj;
    crashes = (g.before, g.crashes);
  }
    where
      slot : ℕ
      slot = s.start + i + 1

      v : Block
      v = s.cache (s.block i)

      outside : (b : ℕ) → IsHome s.start s.size b → slot ≢ b
      outside b hb e = ground (arith, ready.fits)

      stored :
          (m : ℕ → Block) (j : ℕ)
          → (j < i → m (s.start + j + 1) ≡ s.cache (s.block j))
          → j < suc i
          → update m slot v (s.start + j + 1) ≡ s.cache (s.block j)
      stored m j old hj = elim (Bool-cases (i == j)) [
        | inl e ↦
            let same : i ≡ j = ==→eq i j e in
            update_eq m slot (s.start + j + 1) v (omega arith) ∙ ap (λ k. s.cache (s.block k)) same
        | inr ne ↦
            let other : i ≢ j = ==→ne i j ne in
            update_ne m slot (s.start + j + 1) v (omega arith) ∙ old (omega arith)
      ]

  log_one-Logging : (i : ℕ) (t : Log) → i < s.n → Logging i t → Logging (suc i) (log_one i t)
  log_one-Logging i t h g =
      let value : t.cache (t.block i) ≡ s.cache (s.block i) =
        ap (λ (b : ℕ → ℕ). t.cache (b i)) g.block_is ∙ g.cached (s.block i) (ready.homes i h) in
      let slot : t.start + i + 1 ≡ s.start + i + 1 = ap (λ (k : ℕ). k + i + 1) g.start_is in
      subst₂ (λ k w. Logging (suc i) (bwrite k w t)) (sym slot) (sym value) (log_written i t h g)

  write_log_from-Logging :
      (k i : ℕ) (t : Log) → i + k ≡ s.n → Logging i t → Logging s.n (write_log_from k i t)
  unfolding write_log_from
  write_log_from-Logging zero i t e g =
      let last : i ≡ s.n = omega arith in subst (λ m. Logging m t) last g
  write_log_from-Logging (suc k) i t e g =
      let one : suc i ≡ i + 1 = omega arith in
      write_log_from-Logging k (i + 1) (log_one i t) (omega arith)
        (subst (λ m. Logging m (log_one i t)) one (log_one-Logging i t (omega arith) g))

  write_log-Logging : Logging s.n (write_log s)
  unfolding write_log
  write_log-Logging = write_log_from-Logging s.n 0 s (omega arith) (record {
    start_is = refl;
    n_is = refl;
    block_is = refl;
    cached = λ b hb. refl;
    before = record { empty = ready.empty; homes = λ b hb. refl };
    buffers = λ j hj. elim hj [ ];
    logged = λ j hj. elim hj [ ];
    crashes = rw ready.fresh tt;
  })

  -- What a crash during the commit can find.
  abbrev pub Crashed : (ℕ → Block) → Type 0
  Crashed d = Before d ⊎ (Within d ⊎ After d)

  abbrev Inst : ℕ → Log → Type 0
  Inst =
      Installing s.start s.size s.n s.block s.cache ready.fits ready.homes Crashed
        (λ d c. inr (inl c))

  head-Within : (t : Log) → Logging s.n t → Within (write_head t).disk
  unfolding write_head
  head-Within t g = record {
    count =
        at 0
        ∙ store_blocks-before t.n 0 t.block (update (t.cache t.start) 0 t.n) 0 (omega arith)
        ∙ g.n_is;
    names = λ j hj.
        at (j + 1)
        ∙ store_blocks-at t.n 0 t.block (update (t.cache t.start) 0 t.n) j (omega arith)
            (rw g.n_is (omega arith))
        ∙ ap (λ (b : ℕ → ℕ). b j) g.block_is;
    logged = λ j hj.
        update_ne t.disk t.start (s.start + j + 1) hb (omega (arith, g.start_is)) ∙ g.logged j hj;
    others = λ b home out.
        update_ne t.disk t.start b hb (λ e. ground (arith, g.start_is, ready.fits))
        ∙ g.before.homes b home
        ∙ sym (ready.clean b home out);
  }
    where
      hb : Block
      hb = store_blocks t.n 0 t.block (update (t.cache t.start) 0 t.n)

      at : (w : ℕ) → update t.disk t.start hb s.start w ≡ hb w
      at w = ap (λ (b : Block). b w) (update_eq t.disk t.start s.start hb g.start_is)

  head-Installing : (t : Log) → Logging s.n t → Inst 0 (write_head t)
  unfolding write_head
  head-Installing t g = record {
    start_is = g.start_is;
    names = λ j hj. ap (λ (b : ℕ → ℕ). b j) g.block_is;
    buffers = λ j hj.
        update_ne t.cache t.start (s.start + j + 1) _ (omega (arith, g.start_is)) ∙ g.buffers j hj;
    committed = head-Within t g;
    installed = λ j hj. elim hj [ ];
    crashes = (inl g.before, All-map Before Crashed t.history (λ d c. inl c) g.crashes);
  }

  n-write_head : (t : Log) → (write_head t).n ≡ t.n
  unfolding write_head
  n-write_head t = refl

  commit_runs :
      0 < s.n
      → commit s ≡ write_head (record (install_trans false (write_head (write_log s))) { n = 0 })
  unfolding commit
  commit_runs h = rw (lt→ltb 0 s.n h)

  commit_skips : s.n ≡ 0 → commit s ≡ s
  unfolding commit
  commit_skips h = rw h

  -- After the commit the disk holds every home block as it is cached, and the log on disk is empty;
  -- each disk on the way has the blocks from before, or has the transaction committed, or is done.
  pub commit_lem : After (commit s).disk × ((commit s).n ≡ 0) × All Crashed (commit s).history
  commit_lem = elim (dec_lt 0 s.n) [
    | yes h ↦
        let t = write_log s in
        let g : Logging s.n t = write_log-Logging in
        let u = install_trans false (write_head t) in
        let k : Inst s.n u =
          install_trans-Installing s.start s.size s.n s.block s.cache ready.fits ready.homes Crashed
            (λ d c. inr (inl c)) false (write_head t) (n-write_head t ∙ g.n_is)
            (head-Installing t g) in
        rw (commit_runs h) (
          write_head-Holds s.start s.size s.n s.block s.cache ready.fits ready.homes
              (record u { n = 0 }) k.start_is refl
              (Installing-SameHome s.start s.size s.n s.block s.cache ready.fits ready.homes Crashed
                (λ d c. inr (inl c)) u k),
          n-write_head (record u { n = 0 }),
          rw
              (history-write_head s.start s.size s.n s.block s.cache ready.fits ready.homes
                (record u { n = 0 }))
              (inr (inl k.committed), k.crashes),
        )
    | no h ↦
        let none_logged : s.n ≡ 0 = omega arith in
        rw (commit_skips none_logged) (
          record {
            empty = ready.empty;
            homes = λ b home. sym (ready.clean b home (λ j hj. absurd (omega arith)));
          },
          none_logged,
          rw ready.fresh tt,
        )
  ]
