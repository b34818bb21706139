-- ===== src/Fs/Log/Recovery.antt =====
-- Recovery after a crash (initlog, recover_from_log and install_trans of fs/log.c).
use re_xvapor.Base.{
  ℕ, zero, suc, ◌+◌, ◌≤◌, ◌<◌, ◌≡◌, refl, sym, ◌≢◌, inl, inr, arith, ◌∙◌, Bool, true, false, [],
  ◌∷◌, All, update, update_ne, update_self, update_eq, ap, Bool-cases, ◌==◌, ==→eq, ==→ne, subst,
}
use re_xvapor.Fs.Log.{
  Log, Block, Superblock, bwrite, install_one, install_from, install_trans, read_head, write_head,
  recover_from_log, initlog, boot, store_blocks,
}
use re_xvapor.Fs.Log.Head.{load_blocks-at, store_blocks-before}
use re_xvapor.Fs.Log.Crash.{IsHome, among, SameHome, Holds, Committed}

module _ (start size n : ℕ) (blk : ℕ → ℕ) (v : ℕ → Block) (fits : n < size)
    (home : (j : ℕ) → j < n → IsHome start size (blk j)) where
  abbrev pub Done : (ℕ → Block) → Type 0
  Done = Committed start size n blk v

  -- A home block is no block of the log area.
  apart : (j k : ℕ) → j < n → k ≤ n → blk j ≢ start + k
  apart j k h hk = ground (arith, home j h)

  install_disk : (d : ℕ → Block) (i : ℕ) → i < n → Done d → Done (update d (blk i) (v (blk i)))
  install_disk d i h c = record {
    count = rw (update_ne d (blk i) start (v (blk i)) ne0) c.count;
    names = λ j hj. rw (update_ne d (blk i) start (v (blk i)) ne0) (c.names j hj);
    logged = λ j hj.
        update_ne d (blk i) (start + j + 1) (v (blk i))
          (λ e. apart i (j + 1) h (omega arith) (omega arith))
        ∙ c.logged j hj;
    others =
        λ b hb out. update_ne d (blk i) b (v (blk i)) (λ e. out i h (sym e)) ∙ c.others b hb out;
  }
    where
      ne0 : blk i ≢ start
      ne0 e = apart i 0 h (omega arith) (omega arith)

  install_written :
      (d : ℕ → Block) (i j : ℕ)
      → ((k : ℕ) → k < i → d (blk k) ≡ v (blk k))
      → j < suc i
      → update d (blk i) (v (blk i)) (blk j) ≡ v (blk j)
  install_written d i j before h = elim (Bool-cases (blk i == blk j)) [
    | inl e ↦
        let same : blk i ≡ blk j = ==→eq (blk i) (blk j) e in
        rw (← same) (update_self d (blk i) (v (blk i)))
    | inr ne ↦
        let other : j ≢ i = λ e. ==→ne (blk i) (blk j) ne (ap blk (sym e)) in
        update_ne d (blk i) (blk j) (v (blk i)) (==→ne (blk i) (blk j) ne) ∙ before j (omega arith)
  ]

  -- `P` holds of every disk on which the transaction is committed.
  module _ (P : (ℕ → Block) → Type 0) (keep : (d : ℕ → Block) → Done d → P d) where
    -- The state of install_trans before round `i`.
    pub record Installing (i : ℕ) (s : Log) : Type 0 where
      pub start_is : s.start ≡ start
      pub names : (j : ℕ) → j < n → s.block j ≡ blk j
      pub buffers : (j : ℕ) → j < n → s.cache (start + j + 1) ≡ v (blk j)
      pub committed : Done s.disk
      pub installed : (j : ℕ) → j < i → s.disk (blk j) ≡ v (blk j)
      pub crashes : All P s.history

    written-Installing :
        (i : ℕ) (s : Log)
        → i < n
        → Installing i s
        → Installing (suc i) (bwrite (blk i) (v (blk i)) s)
    written-Installing i s h g = record {
      start_is = g.start_is;
      names = g.names;
      buffers = λ j hj.
          update_ne s.cache (blk i) (start + j + 1) (v (blk i))
            (λ e. apart i (j + 1) h (omega arith) (omega arith))
          ∙ g.buffers j hj;
      committed = install_disk s.disk i h g.committed;
      installed = λ j hj. install_written s.disk i j g.installed hj;
      crashes = (keep s.disk g.committed, g.crashes);
    }

    pins-Installing :
        (i : ℕ) (s : Log) (pins : ℕ → ℕ) → Installing i s → Installing i (record s { pins = pins })
    pins-Installing i s pins g = record {
      start_is = g.start_is;
      names = g.names;
      buffers = g.buffers;
      committed = g.committed;
      installed = g.installed;
      crashes = g.crashes;
    }

    install_one-Installing :
        (i : ℕ) (recovering : Bool) (s : Log)
        → i < n
        → Installing i s
        → Installing (suc i) (install_one i recovering s)
    install_one-Installing i recovering s h g =
        let value : s.cache (s.start + i + 1) ≡ v (blk i) = rw g.start_is (g.buffers i h) in
        let body : Installing (suc i) (bwrite (s.block i) (s.cache (s.start + i + 1)) s) =
          rw (g.names i h, value) (written-Installing i s h g) in
        elim recovering as (λ r. Installing (suc i) (install_one i r s)) [
          | true ↦ body
          | false ↦ pins-Installing (suc i) _ _ body
        ]

    pub install_from-Installing :
        (k i : ℕ) (recovering : Bool) (s : Log)
        → i + k ≡ n
        → Installing i s
        → Installing n (install_from k i recovering s)
    unfolding install_from
    install_from-Installing zero i recovering s e g =
        let last : i ≡ n = omega arith in subst (λ m. Installing m s) last g
    install_from-Installing (suc k) i recovering s e g =
        let one : i + 1 ≡ suc i = omega arith in
        install_from-Installing k (i + 1) recovering (install_one i recovering s) (omega arith) (
          subst (λ m. Installing m (install_one i recovering s)) (sym one)
            (install_one-Installing i recovering s (omega arith) g))

    -- Once all are installed, every home block is that of `v`.
    pub Installing-SameHome : (s : Log) → Installing n s → SameHome start size s.disk v
    Installing-SameHome s g b hb = elim (among n blk b) [
      | inl (j, h, e) ↦ rw e (g.installed j h)
      | inr out ↦ g.committed.others b hb out
    ]

    pub install_trans-Installing :
        (recovering : Bool) (s : Log)
        → s.n ≡ n
        → Installing 0 s
        → Installing n (install_trans recovering s)
    unfolding install_trans
    install_trans-Installing recovering s e g =
        install_from-Installing s.n 0 recovering s (omega arith) g

  pub write_head-Holds :
      (s : Log)
      → s.start ≡ start
      → s.n ≡ 0
      → SameHome start size s.disk v
      → Holds start size v (write_head s).disk
  unfolding write_head
  write_head-Holds s at none_left same = record {
    empty = ap (λ (b : Block). b 0) (update_eq s.disk s.start start hb at) ∙ first;
    homes = λ b hb'. update_ne s.disk s.start b hb (λ e. ground arith) ∙ same b hb';
  }
    where
      hb : Block
      hb = store_blocks s.n 0 s.block (update (s.cache s.start) 0 s.n)

      first : hb 0 ≡ 0
      first =
          store_blocks-before s.n 0 s.block (update (s.cache s.start) 0 s.n) 0 (omega arith)
          ∙ none_left

  pub history-write_head : (s : Log) → (write_head s).history ≡ s.disk ∷ s.history
  unfolding write_head
  history-write_head s = refl

  abbrev superblock : Superblock
  superblock = record { logstart = start; nlog = size }

  abbrev loaded : ℕ → (ℕ → Block) → Log
  loaded dev d = read_head (record (boot d) { start = start; size = size; dev = dev })

  loaded-Installing :
      (dev : ℕ) (d : ℕ → Block) → Done d → Installing Done (λ _ c. c) 0 (loaded dev d)
  unfolding read_head
  loaded-Installing dev d c = record {
    start_is = refl;
    names = λ j hj.
        load_blocks-at (d start 0) 0 (d start) (λ _. 0) j (omega arith) (rw c.count (omega arith))
        ∙ c.names j hj;
    buffers = c.logged;
    committed = c;
    installed = λ j hj. elim hj [ ];
    crashes = tt;
  }

  loaded-n : (dev : ℕ) (d : ℕ → Block) → Done d → (loaded dev d).n ≡ n
  unfolding read_head
  loaded-n dev d c = c.count

  -- A disk on which the transaction is committed: initlog brings every home block to `v` and
  -- empties the log, and a crash at any of its writes leaves the transaction committed.
  pub initlog-Committed :
      (dev : ℕ) (d : ℕ → Block)
      → Done d
      → let s = initlog dev superblock (boot d) in Holds start size v s.disk × All Done s.history
  unfolding initlog recover_from_log
  initlog-Committed dev d c =
      let t = install_trans true (loaded dev d) in
      let g : Installing Done (λ _ c. c) n t =
        install_trans-Installing Done (λ _ c. c) true (loaded dev d) (loaded-n dev d c)
          (loaded-Installing dev d c) in
      let same : SameHome start size t.disk v = Installing-SameHome Done (λ _ c. c) t g in
      (
        write_head-Holds (record t { n = 0 }) g.start_is refl same,
        rw (history-write_head (record t { n = 0 })) (g.committed, g.crashes),
      )

  install_trans-nothing : (recovering : Bool) (s : Log) → s.n ≡ 0 → install_trans recovering s ≡ s
  unfolding install_trans install_from
  install_trans-nothing recovering s e = rw e

  loaded_empty : (dev : ℕ) (d : ℕ → Block) → Holds start size v d → (loaded dev d).n ≡ 0
  unfolding read_head
  loaded_empty dev d c = c.empty

  untouched :
      (dev : ℕ) (d : ℕ → Block)
      → Holds start size v d
      → let t = install_trans true (loaded dev d) in
        (t.start ≡ start) × (t.disk ≡ d) × (t.history ≡ [])
  unfolding read_head
  untouched dev d c =
      rw (install_trans-nothing true (loaded dev d) (loaded_empty dev d c)) (refl, refl, refl)

  -- A disk whose log is empty: initlog keeps every home block, and so does a crash within it.
  pub initlog-Holds :
      (dev : ℕ) (d : ℕ → Block)
      → Holds start size v d
      → let s = initlog dev superblock (boot d) in
        Holds start size v s.disk × All (Holds start size v) s.history
  unfolding initlog recover_from_log
  initlog-Holds dev d c =
      let t = install_trans true (loaded dev d) in
      let f = untouched dev d c in
      (
        write_head-Holds (record t { n = 0 }) f.0 refl (rw (f.1) c.homes),
        rw (history-write_head (record t { n = 0 })) (rw (f.1) c, rw (f.2) tt),
      )
