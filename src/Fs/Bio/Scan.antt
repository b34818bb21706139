-- ===== src/Fs/Bio/Scan.antt =====
-- The walks of bget (fs/bio.c) round the list, and its result on each branch.
use re_xvapor.Base.{
  ℕ, zero, suc, ◌+◌, ◌<◌, ◌≡◌, ◌≢◌, refl, sym, ◌∙◌, ap, Bool, true, false, List, [], ◌∷◌, length,
  NotIn, ◌==◌, if◌then◌else◌, arith,
}
use re_xvapor.Fs.Bio.{
  Bcache, Walk, found, ended, unfinished, nbuf, caches, find_cached, find_unused, bpin, recycle,
  BgetResult, got, panics, loops, bget,
}
use re_xvapor.Fs.Bio.Ring.{Linked, IsRing}

-- The first buffer of the list that caches the block.
unfoldable pub first_cached : Bcache → ℕ → ℕ → List ℕ → Walk
first_cached s dev blockno [] = ended
first_cached s dev blockno (b ∷ bs) =
    if caches s dev blockno b then found b else first_cached s dev blockno bs

-- The last buffer of the list that is not in use: one buffer before `w`, what is found behind it.
abbrev pub or_else : ℕ → Bool → Walk → Walk
or_else b free (found c) = found c
or_else b free ended = if free then found b else ended
or_else b free unfinished = unfinished

unfoldable pub last_unused : Bcache → List ℕ → Walk
last_unused s [] = ended
last_unused s (b ∷ bs) = or_else b (s.refcnt b == 0) (last_unused s bs)

find_cached_lem :
    (fuel : ℕ) (s : Bcache) (dev blockno a : ℕ) (bs : List ℕ)
    → Linked s.links.next s.links.prev a bs 0
    → NotIn 0 bs
    → length bs < fuel
    → find_cached fuel s dev blockno (s.links.next a) ≡ first_cached s dev blockno bs
unfolding find_cached first_cached
find_cached_lem zero s dev blockno a bs h z lt = absurd (omega arith)
find_cached_lem (suc fuel) s dev blockno a [] h z lt = rw (h.0, find_cached) refl
find_cached_lem (suc fuel) s dev blockno a (b ∷ bs) h z lt =
    let inside : (b == 0) ≡ false = ground (arith, z.0) in
    rw (h.0, inside, find_cached_lem fuel s dev blockno b bs h.2 z.1 (omega arith), find_cached)
      refl

-- The walk backwards goes on before the list when it finds nothing in it.
abbrev after : Walk → Walk → Walk
after (found c) w = found c
after ended w = w
after unfinished w = unfinished

after_step :
    (b : ℕ) (free : Bool) (w v : Walk)
    → after w (if free then found b else v) ≡ after (or_else b free w) v
after_step b free (found c) v = refl
after_step b true ended v = refl
after_step b false ended v = refl
after_step b free unfinished v = refl

find_unused_at :
    (fuel : ℕ) (s : Bcache) (a b : ℕ)
    → 0 ≢ b
    → s.links.prev b ≡ a
    → find_unused (suc fuel) s b ≡ (if s.refcnt b == 0 then found b else find_unused fuel s a)
unfolding find_unused
find_unused_at fuel s a b ne h =
    let inside : (b == 0) ≡ false = ground arith in rw (inside, h, find_unused) refl

find_unused_lem :
    (fuel : ℕ) (s : Bcache) (a z : ℕ) (bs : List ℕ)
    → Linked s.links.next s.links.prev a bs z
    → NotIn 0 bs
    → find_unused (length bs + fuel) s (s.links.prev z)
      ≡ after (last_unused s bs) (find_unused fuel s a)
unfolding last_unused
find_unused_lem fuel s a z [] h out =
    let none_more : 0 + fuel ≡ fuel = omega arith in rw (h.1, none_more) refl
find_unused_lem fuel s a z (b ∷ bs) h out =
    let one_more : suc (length bs) + fuel ≡ length bs + suc fuel = omega arith in
    ap (λ n. find_unused n s (s.links.prev z)) one_more
    ∙ (find_unused_lem (suc fuel) s b z bs h.2 out.1
        ∙ (ap (after (last_unused s bs)) (find_unused_at fuel s a b out.0 h.1)
            ∙ after_step b (s.refcnt b == 0) (last_unused s bs) (find_unused fuel s a)))

-- A cache whose list is the ring of all NBUF buffers.
pub record IsWhole (s : Bcache) (bs : List ℕ) : Type 0 where
  pub ring : IsRing s.links bs
  pub all : length bs ≡ nbuf

-- What bget is to do: pin the first buffer of the list that has the block, or make over the last
-- that is not in use, or panic.
abbrev pub bget_recycled : ℕ → ℕ → Bcache → Walk → BgetResult
bget_recycled dev blockno s (found b) = got b (recycle dev blockno b s)
bget_recycled dev blockno s ended = panics
bget_recycled dev blockno s unfinished = loops

abbrev pub bget_chosen : ℕ → ℕ → Bcache → List ℕ → Walk → BgetResult
bget_chosen dev blockno s bs (found b) = got b (bpin b s)
bget_chosen dev blockno s bs ended = bget_recycled dev blockno s (last_unused s bs)
bget_chosen dev blockno s bs unfinished = loops

cached_walk :
    (s : Bcache) (dev blockno : ℕ) (bs : List ℕ)
    → IsWhole s bs
    → find_cached (nbuf + 1) s dev blockno (s.links.next 0) ≡ first_cached s dev blockno bs
cached_walk s dev blockno bs h =
    find_cached_lem (nbuf + 1) s dev blockno 0 bs h.ring.linked h.ring.no_head
      (omega (arith, h.all))

at_head : (s : Bcache) → find_unused 1 s 0 ≡ ended
unfolding find_unused
at_head s = refl

after_ended : (w : Walk) → after w ended ≡ w
after_ended (found c) = refl
after_ended ended = refl
after_ended unfinished = refl

unused_walk :
    (s : Bcache) (bs : List ℕ)
    → IsWhole s bs
    → find_unused (nbuf + 1) s (s.links.prev 0) ≡ last_unused s bs
unused_walk s bs h =
    ap (λ n. find_unused (n + 1) s (s.links.prev 0)) (sym h.all)
    ∙ (find_unused_lem 1 s 0 0 bs h.ring.linked h.ring.no_head
        ∙ (ap (after (last_unused s bs)) (at_head s) ∙ after_ended (last_unused s bs)))

module _ (dev blockno : ℕ) (s : Bcache) where
  bget_unused :
      (v : Walk)
      → find_cached (nbuf + 1) s dev blockno (s.links.next 0) ≡ ended
      → find_unused (nbuf + 1) s (s.links.prev 0) ≡ v
      → bget dev blockno s ≡ bget_recycled dev blockno s v
  unfolding bget
  bget_unused (found b) e e' = rw (e, e', bget) refl
  bget_unused ended e e' = rw (e, e', bget) refl
  bget_unused unfinished e e' = rw (e, e', bget) refl

  bget_cached :
      (bs : List ℕ) (w : Walk)
      → find_cached (nbuf + 1) s dev blockno (s.links.next 0) ≡ w
      → find_unused (nbuf + 1) s (s.links.prev 0) ≡ last_unused s bs
      → bget dev blockno s ≡ bget_chosen dev blockno s bs w
  unfolding bget
  bget_cached bs (found b) e e' = rw (e, bget) refl
  bget_cached bs ended e e' = bget_unused (last_unused s bs) e e'
  bget_cached bs unfinished e e' = rw (e, bget) refl

-- On a whole list, bget takes the first buffer in the list's order that caches the block, or else
-- makes over the last that is not in use, or panics if there is none.
pub bget_lem :
    (dev blockno : ℕ) (s : Bcache) (bs : List ℕ)
    → IsWhole s bs
    → bget dev blockno s ≡ bget_chosen dev blockno s bs (first_cached s dev blockno bs)
bget_lem dev blockno s bs h =
    bget_cached dev blockno s bs (first_cached s dev blockno bs) (cached_walk s dev blockno bs h)
      (unused_walk s bs h)
