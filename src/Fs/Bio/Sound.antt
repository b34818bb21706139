-- ===== src/Fs/Bio/Sound.antt =====
-- The buffer cache (fs/bio.c) between calls, and how bget, bread and the pins keep it.
use re_xvapor.Base.{
  ℕ, ◌<◌, ◌≤◌, ◌≡◌, ◌≢◌, refl, sym, ◌∙◌, ap, subst, Bool, true, false, Bool-cases, List, [], ◌∷◌,
  All-map, Among, update, update_ne, ◌==◌, ==→eq, ==→ne, if◌then◌else◌, inl, inr, ◌⊎◌,
}
use re_xvapor.Fs.Bio.{
  Bcache, Walk, found, ended, unfinished, nbuf, bpin, bunpin, recycle, read_block, fetched,
  BgetResult, got, panics, loops, bget, bread,
}
use re_xvapor.Fs.Bio.Scan.{
  first_cached, last_unused, or_else, IsWhole, bget_chosen, bget_recycled, bget_lem,
}
use re_xvapor.Fs.Bio.Unique.{
  Clear, Unshadowed, first_cached-caches, first_cached-Uncached, Unshadowed-hit, Unshadowed-recycle,
}

-- The list is whole and has every buffer, buffers in use are in it, and none is shadowed.
pub record IsSound (s : Bcache) (bs : List ℕ) : Type 0 where
  pub whole : IsWhole s bs
  pub listed : (b : ℕ) → s.refcnt b ≢ 0 → Among b bs
  pub every : (b : ℕ) → 0 < b → b ≤ nbuf → Among b bs
  pub unshadowed : Unshadowed s bs

-- A state that has the same list and blocks, and no more buffers in use.
pub record Weaker (s s' : Bcache) : Type 0 where
  pub same_links : s'.links ≡ s.links
  pub same_dev : s'.dev ≡ s.dev
  pub same_blockno : s'.blockno ≡ s.blockno
  pub used_before : (b : ℕ) → s'.refcnt b ≢ 0 → s.refcnt b ≢ 0

Clear-Weaker : (s s' : Bcache) (a c : ℕ) → Weaker s s' → Clear s a c → Clear s' a c
Clear-Weaker s s' a c w h used same = h (w.used_before c used) (
  ap (λ f. f a) (sym w.same_dev) ∙ (same.0 ∙ ap (λ f. f c) w.same_dev),
  ap (λ f. f a) (sym w.same_blockno) ∙ (same.1 ∙ ap (λ f. f c) w.same_blockno),
)

pub Unshadowed-Weaker :
    (s s' : Bcache) (bs : List ℕ) → Weaker s s' → Unshadowed s bs → Unshadowed s' bs
Unshadowed-Weaker s s' [] w h = tt
Unshadowed-Weaker s s' (b ∷ bs) w h = (
  All-map (Clear s b) (Clear s' b) bs (λ c. Clear-Weaker s s' b c w) h.0,
  Unshadowed-Weaker s s' bs w h.1,
)

pub IsSound-Weaker : (s s' : Bcache) (bs : List ℕ) → Weaker s s' → IsSound s bs → IsSound s' bs
IsSound-Weaker s s' bs w h = record {
  whole = record { ring = rw w.same_links h.whole.ring; all = h.whole.all };
  listed = λ b used. h.listed b (w.used_before b used);
  every = h.every;
  unshadowed = Unshadowed-Weaker s s' bs w h.unshadowed;
}

-- A reference count that changes of a buffer in use.
used_store :
    (s : Bcache) (b v : ℕ) → s.refcnt b ≢ 0 → (c : ℕ) → update s.refcnt b v c ≢ 0 → s.refcnt c ≢ 0
used_store s b v used c h = elim (Bool-cases (b == c)) [
  | inl e ↦ λ z. used (ap s.refcnt (==→eq b c e) ∙ z)
  | inr e ↦ λ z. h (update_ne s.refcnt b c v (==→ne b c e) ∙ z)
]

pub Weaker-bpin : (s : Bcache) (b : ℕ) → s.refcnt b ≢ 0 → Weaker s (bpin b s)
Weaker-bpin s b used = record {
  same_links = refl;
  same_dev = refl;
  same_blockno = refl;
  used_before = used_store s b _ used;
}

pub Weaker-bunpin : (s : Bcache) (b : ℕ) → s.refcnt b ≢ 0 → Weaker s (bunpin b s)
Weaker-bunpin s b used = record {
  same_links = refl;
  same_dev = refl;
  same_blockno = refl;
  used_before = used_store s b _ used;
}

Weaker-fetched :
    (disk : ℕ → ℕ) (s : Bcache) (b : ℕ) (valid : Bool)
    → Weaker s (if valid then s else read_block disk b s)
Weaker-fetched disk s b true = record {
  same_links = refl;
  same_dev = refl;
  same_blockno = refl;
  used_before = λ c used. used;
}
Weaker-fetched disk s b false = record {
  same_links = refl;
  same_dev = refl;
  same_blockno = refl;
  used_before = λ c used. used;
}

last_unused-Among : (s : Bcache) (bs : List ℕ) (b : ℕ) → last_unused s bs ≡ found b → Among b bs
unfolding last_unused
last_unused-Among s [] b e = cc e
last_unused-Among s (x ∷ bs) b e = elim (last_cases x (s.refcnt x == 0) (last_unused s bs) b e) [
  | inl later ↦ inr (last_unused-Among s bs b later)
  | inr here ↦ inl here
]
  where
    last_cases :
        (x : ℕ) (free : Bool) (w : Walk) (b : ℕ)
        → or_else x free w ≡ found b
        → (w ≡ found b) ⊎ (b ≡ x)
    last_cases x free (found c) b q = inl q
    last_cases x true ended b q = inr (cc q)
    last_cases x false ended b q = cc q
    last_cases x free unfinished b q = cc q

listed_store :
    (s : Bcache) (bs : List ℕ) (b v : ℕ)
    → Among b bs
    → ((c : ℕ) → s.refcnt c ≢ 0 → Among c bs)
    → (c : ℕ) → update s.refcnt b v c ≢ 0
    → Among c bs
listed_store s bs b v here h c used = elim (Bool-cases (b == c)) [
  | inl e ↦ subst (λ x. Among x bs) (==→eq b c e) here
  | inr e ↦ h c (λ z. used (update_ne s.refcnt b c v (==→ne b c e) ∙ z))
]

got_state : (b c : ℕ) (s s' : Bcache) → got b s ≡ got c s' → s ≡ s'
got_state b c s s' e = cc e

module _ (dev blockno : ℕ) (s : Bcache) (bs : List ℕ) (h : IsSound s bs) where
  IsSound-bpin_found : (b : ℕ) → first_cached s dev blockno bs ≡ found b → IsSound (bpin b s) bs
  IsSound-bpin_found b e = record {
    whole = record { ring = h.whole.ring; all = h.whole.all };
    listed = listed_store s bs b _ (first_cached-caches s dev blockno bs b e).1 h.listed;
    every = h.every;
    unshadowed = Unshadowed-hit s dev blockno bs b h.whole.ring.distinct e h.unshadowed;
  }

  IsSound-recycle :
      (b : ℕ)
      → first_cached s dev blockno bs ≡ ended
      → last_unused s bs ≡ found b
      → IsSound (recycle dev blockno b s) bs
  IsSound-recycle b e e' = record {
    whole = record { ring = h.whole.ring; all = h.whole.all };
    listed = listed_store s bs b 1 (last_unused-Among s bs b e') h.listed;
    every = h.every;
    unshadowed =
        Unshadowed-recycle s dev blockno b bs h.whole.ring.distinct
          (first_cached-Uncached s dev blockno bs e) h.unshadowed;
  }

  recycled-IsSound :
      (b : ℕ) (s' : Bcache) (v : Walk)
      → first_cached s dev blockno bs ≡ ended
      → last_unused s bs ≡ v
      → bget_recycled dev blockno s v ≡ got b s'
      → IsSound s' bs
  recycled-IsSound b s' (found c) e e' q =
      subst (λ t. IsSound t bs) (got_state c b _ s' q) (IsSound-recycle c e e')
  recycled-IsSound b s' ended e e' q = cc q
  recycled-IsSound b s' unfinished e e' q = cc q

  chosen-IsSound :
      (b : ℕ) (s' : Bcache) (w : Walk)
      → first_cached s dev blockno bs ≡ w
      → bget_chosen dev blockno s bs w ≡ got b s'
      → IsSound s' bs
  chosen-IsSound b s' (found c) e q =
      subst (λ t. IsSound t bs) (got_state c b _ s' q) (IsSound-bpin_found c e)
  chosen-IsSound b s' ended e q = recycled-IsSound b s' (last_unused s bs) e refl q
  chosen-IsSound b s' unfinished e q = cc q

  pub bget-IsSound : (b : ℕ) (s' : Bcache) → bget dev blockno s ≡ got b s' → IsSound s' bs
  bget-IsSound b s' q =
      chosen-IsSound b s' (first_cached s dev blockno bs) refl
        (sym (bget_lem dev blockno s bs h.whole) ∙ q)

  pub bread-IsSound :
      (disk : ℕ → ℕ) (b : ℕ) (s' : Bcache) → bread disk dev blockno s ≡ got b s' → IsSound s' bs
  unfolding bread
  bread-IsSound disk b s' = read (bget dev blockno s) refl
    where
      read :
          (g : BgetResult)
          → bget dev blockno s ≡ g
          → (elim g [ got c t ↦ got c (fetched disk c t) | panics ↦ panics | loops ↦ loops ])
            ≡ got b s'
          → IsSound s' bs
      read (got c t) e q =
          subst (λ u. IsSound u bs) (got_state c b (fetched disk c t) s' q)
            (IsSound-Weaker t (fetched disk c t) bs (Weaker-fetched disk t c (t.valid c))
              (bget-IsSound c t e))
      read panics e q = cc q
      read loops e q = cc q
