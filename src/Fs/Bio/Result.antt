-- ===== src/Fs/Bio/Result.antt =====
-- What bget (fs/bio.c) returns.
use re_xvapor.Base.{
  ℕ, ◌<◌, ◌≤◌, ◌≡◌, ◌≢◌, refl, Bool, true, false, List, [], ◌∷◌, Among, All-Among, All, update_self,
  ◌==◌, arith, ==→ne, Bool-cases, inl, inr,
}
use re_xvapor.Fs.Bio.{
  Bcache, Walk, found, ended, unfinished, nbuf, caches, bpin, recycle, BgetResult, got, panics,
  bget,
}
use re_xvapor.Fs.Bio.Scan.{first_cached, last_unused, or_else, bget_chosen, bget_recycled, bget_lem}
use re_xvapor.Fs.Bio.Unique.{first_cached-caches}
use re_xvapor.Fs.Bio.Reach.{Reach, Reach-Sound}

-- A buffer for the block, or a panic with every buffer of the cache in use: those of 1 to NBUF.
pub data Result (s : Bcache) (dev blockno : ℕ) (g : BgetResult) : Type 0 where
  gives :
      (b : ℕ) (s' : Bcache)
      → g ≡ got b s'
      → s'.dev b ≡ dev
      → s'.blockno b ≡ blockno
      → Result s dev blockno g
  full : ((b : ℕ) → 0 < b → b ≤ nbuf → s.refcnt b ≢ 0) → g ≡ panics → Result s dev blockno g

or_else_ended :
    (b : ℕ) (free : Bool) (w : Walk) → or_else b free w ≡ ended → (w ≡ ended) × (free ≡ false)
or_else_ended b free (found c) e = cc e
or_else_ended b true ended e = cc e
or_else_ended b false ended e = (refl, refl)
or_else_ended b free unfinished e = cc e

or_else_unfinished :
    (b : ℕ) (free : Bool) (w : Walk) → or_else b free w ≡ unfinished → w ≡ unfinished
or_else_unfinished b free (found c) e = e
or_else_unfinished b true ended e = cc e
or_else_unfinished b false ended e = e
or_else_unfinished b free unfinished e = e

module _ (s : Bcache) (dev blockno : ℕ) where
  first_cached_finishes : (bs : List ℕ) → first_cached s dev blockno bs ≢ unfinished
  unfolding first_cached
  first_cached_finishes [] e = cc e
  first_cached_finishes (b ∷ bs) e = elim (Bool-cases (caches s dev blockno b)) [
    | inl c ↦ ground (arith, e, c)
    | inr c ↦ ground (arith, e, c, first_cached_finishes bs)
  ]

  last_unused_finishes : (bs : List ℕ) → last_unused s bs ≢ unfinished
  unfolding last_unused
  last_unused_finishes [] e = cc e
  last_unused_finishes (b ∷ bs) e =
      last_unused_finishes bs (or_else_unfinished b (s.refcnt b == 0) (last_unused s bs) e)

  last_unused_none : (bs : List ℕ) → last_unused s bs ≡ ended → All (λ b. s.refcnt b ≢ 0) bs
  unfolding last_unused
  last_unused_none [] e = tt
  last_unused_none (b ∷ bs) e =
      let (later, used) = or_else_ended b (s.refcnt b == 0) (last_unused s bs) e in
      (==→ne (s.refcnt b) 0 used, last_unused_none bs later)

  recycled-Result :
      (bs : List ℕ) (v : Walk)
      → ((b : ℕ) → 0 < b → b ≤ nbuf → Among b bs)
      → last_unused s bs ≡ v
      → Result s dev blockno (bget_recycled dev blockno s v)
  recycled-Result bs (found b) n e =
      gives b (recycle dev blockno b s) refl (update_self s.dev b dev)
        (update_self s.blockno b blockno)
  recycled-Result bs ended n e =
      full (λ b lo hi. All-Among (λ c. s.refcnt c ≢ 0) b bs (last_unused_none bs e) (n b lo hi))
        refl
  recycled-Result bs unfinished n e = absurd (last_unused_finishes bs e)

  chosen-Result :
      (bs : List ℕ) (w : Walk)
      → ((b : ℕ) → 0 < b → b ≤ nbuf → Among b bs)
      → first_cached s dev blockno bs ≡ w
      → Result s dev blockno (bget_chosen dev blockno s bs w)
  chosen-Result bs (found b) n e =
      let hit : caches s dev blockno b ≡ true = (first_cached-caches s dev blockno bs b e).0 in
      gives b (bpin b s) refl (ground (arith, hit)) (ground (arith, hit))
  chosen-Result bs ended n e = recycled-Result bs (last_unused s bs) n refl
  chosen-Result bs unfinished n e = absurd (first_cached_finishes bs e)

-- In every state reached from binit, bget ends, with a buffer for the block asked for, or with a panic,
-- and then every one of the NBUF buffers is in use.
pub bget-Result :
    (dev blockno : ℕ) (s : Bcache) → Reach s → Result s dev blockno (bget dev blockno s)
bget-Result dev blockno s r =
    let (bs, h) = Reach-Sound s r in
    rw (bget_lem dev blockno s bs h.whole)
      (chosen-Result s dev blockno bs (first_cached s dev blockno bs) h.every refl)
