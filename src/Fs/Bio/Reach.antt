-- ===== src/Fs/Bio/Reach.antt =====
-- The buffer cache (fs/bio.c) in use: any order of gets, reads, pins, unpins and releases.
use re_xvapor.Base.{
  ℕ, zero, suc, ◌+◌, ◌<◌, ◌≤◌, ◌≡◌, ◌≢◌, refl, sym, ◌∙◌, ap, subst, Bool, true, false, Bool-cases,
  some, none, List, [], ◌∷◌, ◌++◌, length, length-append, NotIn, NotIn-append_right,
  Distinct-middle, All, All-map, All-Among, All-append, All-append_left, All-append_right, Among,
  Among-front, ◌==◌, ==→eq, ==→ne, arith, inl, inr, ◌⊎◌,
}
use re_xvapor.Fs.Bio.{
  Links, Bcache, nbuf, push_front, unlink, push_from, binit, bpin, bunpin, got, bget, bread, brelse,
}
use re_xvapor.Fs.Bio.Ring.{IsRing, push_front-IsRing, unlink-IsRing}
use re_xvapor.Fs.Bio.Unique.{SameBlock, Clear, Unshadowed}
use re_xvapor.Fs.Bio.Sound.{
  IsSound, Unshadowed-Weaker, IsSound-Weaker, Weaker-bpin, Weaker-bunpin, bget-IsSound,
  bread-IsSound,
}

split : (b : ℕ) (bs : List ℕ) → Among b bs → (xs : List ℕ) × (ys : List ℕ) × (bs ≡ xs ++ b ∷ ys)
split b [] m = elim m [ ]
split b (x ∷ bs) (inl e) = ([], bs, ap (λ y. y ∷ bs) (sym e))
split b (x ∷ bs) (inr m) = let (xs, ys, e) = split b bs m in (x ∷ xs, ys, ap (◌∷◌ x) e)

All-without :
    (P : ℕ → Type 0) (b : ℕ) (xs ys : List ℕ) → All P (xs ++ b ∷ ys) → P b × All P (xs ++ ys)
All-without P b xs ys h = (
  (All-append_right P xs (b ∷ ys) h).0,
  All-append P xs ys (All-append_left P xs (b ∷ ys) h) (All-append_right P xs (b ∷ ys) h).1,
)

-- A buffer in use can go to the front.
to_front :
    (s : Bcache) (b : ℕ) (xs ys : List ℕ)
    → s.refcnt b ≢ 0
    → Unshadowed s (xs ++ b ∷ ys)
    → Unshadowed s (b ∷ xs ++ ys)
to_front s b [] ys used h = h
to_front s b (x ∷ xs) ys used h =
    let (here, rest) = All-without (Clear s x) b xs ys h.0 in
    let (clear, later) = to_front s b xs ys used h.1 in
    (((λ u same. here used (sym same.0, sym same.1)), clear), (rest, later))

relinked-IsSound :
    (s : Bcache) (b : ℕ) (xs ys : List ℕ)
    → s.refcnt b ≢ 0
    → IsSound s (xs ++ b ∷ ys)
    → let s' = bunpin b s in
      IsSound (record s' { links = push_front b (unlink b s'.links) }) (b ∷ xs ++ ys)
relinked-IsSound s b xs ys used h =
    let ring = h.whole.ring in
    let fresh = (Distinct-middle b xs ys ring.distinct).1 in
    let not_head : b ≢ 0 = λ e. (NotIn-append_right 0 xs (b ∷ ys) ring.no_head).0 (sym e) in
    record {
      whole = record {
        ring =
            push_front-IsRing b (unlink b s.links) (xs ++ ys) not_head fresh
              (unlink-IsRing b s.links xs ys ring);
        all = omega (arith, h.whole.all, length-append xs (b ∷ ys), length-append xs ys);
      };
      listed = λ c u. Among-front b c xs ys (h.listed c ((Weaker-bunpin s b used).used_before c u));
      every = λ c lo hi. Among-front b c xs ys (h.every c lo hi);
      unshadowed =
          Unshadowed-Weaker s (bunpin b s) (b ∷ xs ++ ys) (Weaker-bunpin s b used)
            (to_front s b xs ys used h.unshadowed);
    }

-- The cache is sound, with its list in some order.
abbrev pub Sound : Bcache → Type 0
Sound s = (bs : List ℕ) × IsSound s bs

some_state : (s s' : Bcache) → some s ≡ some s' → s ≡ s'
some_state s s' e = cc e

none_state : (s : Bcache) → none ≢ some s
none_state s e = cc e

module _ (holding : ℕ → Bool) (b : ℕ) (s : Bcache) where
  brelse_last :
      holding b ≡ true
      → ((bunpin b s).refcnt b == 0) ≡ true
      → brelse holding b s ≡ some (record (bunpin b s) { links = push_front b (unlink b s.links) })
  unfolding brelse
  brelse_last held last = rw (held, last) refl

  brelse_shared :
      holding b ≡ true
      → ((bunpin b s).refcnt b == 0) ≡ false
      → brelse holding b s ≡ some (bunpin b s)
  unfolding brelse
  brelse_shared held more = rw (held, more) refl

  brelse_unheld : holding b ≡ false → brelse holding b s ≡ none
  unfolding brelse
  brelse_unheld free = rw free refl

  brelse-Sound : (s' : Bcache) → s.refcnt b ≢ 0 → Sound s → brelse holding b s ≡ some s' → Sound s'
  brelse-Sound s' used (bs, h) e =
      let (xs, ys, at) = split b bs (h.listed b used) in
      elim (Bool-cases (holding b)) [
        | inl held ↦ elim (Bool-cases ((bunpin b s).refcnt b == 0)) [
          | inl last ↦
              subst Sound (some_state _ s' (sym (brelse_last held last) ∙ e))
                (b ∷ xs ++ ys, relinked-IsSound s b xs ys used (subst (IsSound s) at h))
          | inr more ↦
              subst Sound (some_state _ s' (sym (brelse_shared held more) ∙ e))
                (bs, IsSound-Weaker s (bunpin b s) bs (Weaker-bunpin s b used) h)
        ]
        | inr free ↦ absurd (none_state s' (sym (brelse_unheld free) ∙ e))
      ]

-- The first `k` pushes of binit.
push_from-IsRing :
    (k b : ℕ) (l : Links) (bs : List ℕ)
    → b ≢ 0
    → All (λ c. c < b) bs
    → IsRing l bs
    → (bs' : List ℕ) × IsRing (push_from k b l) bs'
      × (length bs' ≡ k + length bs)
      × ((c : ℕ) → Among c bs ⊎ ((b ≤ c) × (c < b + k)) → Among c bs')
unfolding push_from
push_from-IsRing zero b l bs ne h r = (
  bs,
  r,
  omega arith,
  λ c m. elim m [ inl k ↦ k | inr between ↦ absurd (omega (arith, between.0, between.1)) ],
)
push_from-IsRing (suc k) b l bs ne h r =
    let below = All-map (λ c. c < b) (λ c. c < b + 1) bs (λ c lt. omega (arith, lt)) h in
    let (bs', ring, len, pushed) =
      push_from-IsRing k (b + 1) (push_front b l) (b ∷ bs) (omega arith) (omega arith, below)
        (push_front-IsRing b l bs ne (fresh b bs h) r) in
    (bs', ring, omega (arith, len), λ c m. pushed c (next b k c bs m))
  where
    next :
        (b k c : ℕ) (bs : List ℕ)
        → Among c bs ⊎ ((b ≤ c) × (c < b + suc k))
        → Among c (b ∷ bs) ⊎ ((b + 1 ≤ c) × (c < b + 1 + k))
    next b k c bs (inl m) = inl (inr m)
    next b k c bs (inr between) = elim (Bool-cases (c == b)) [
      | inl e ↦ inl (inl (==→eq c b e))
      | inr e ↦ inr (omega (arith, between.0, ==→ne c b e), omega (arith, between.1))
    ]

    fresh : (b : ℕ) (bs : List ℕ) → All (λ c. c < b) bs → NotIn b bs
    fresh b [] h = tt
    fresh b (c ∷ cs) h = (omega (arith, h.0), fresh b cs h.1)

clear_unused : (s : Bcache) (bs : List ℕ) → ((b : ℕ) → s.refcnt b ≡ 0) → Unshadowed s bs
clear_unused s [] h = tt
clear_unused s (b ∷ bs) h = (clears b bs, clear_unused s bs h)
  where
    clears : (b : ℕ) (cs : List ℕ) → All (Clear s b) cs
    clears b [] = tt
    clears b (c ∷ cs) = ((λ used same. used (h c)), clears b cs)

binit-Sound : Sound binit
unfolding binit
binit-Sound =
    let (bs, ring, len, pushed) =
      push_from-IsRing nbuf 1 (record { next = λ b. 0; prev = λ b. 0 }) [] (omega arith) tt
        (record { linked = (refl, refl); distinct = tt; no_head = tt }) in
    (
      bs,
      record {
        whole = record { ring = ring; all = omega (arith, len) };
        listed = λ b used. absurd (used refl);
        every = λ b lo hi. pushed b (inr (omega (arith, lo), omega (arith, hi)));
        unshadowed = clear_unused binit bs (λ b. refl);
      },
    )

-- One call; pins, unpins and releases are of buffers in use.
pub data Step (s s' : Bcache) : Type 0 where
  gets : (dev blockno b : ℕ) → bget dev blockno s ≡ got b s' → Step s s'
  reads : (disk : ℕ → ℕ) (dev blockno b : ℕ) → bread disk dev blockno s ≡ got b s' → Step s s'
  pins : (b : ℕ) → s.refcnt b ≢ 0 → s' ≡ bpin b s → Step s s'
  unpins : (b : ℕ) → s.refcnt b ≢ 0 → s' ≡ bunpin b s → Step s s'
  releases :
      (holding : ℕ → Bool) (b : ℕ) → s.refcnt b ≢ 0 → brelse holding b s ≡ some s' → Step s s'

pub data Reach : Bcache → Type 0 where
  starts : Reach binit
  steps : (s s' : Bcache) → Reach s → Step s s' → Reach s'

Step-Sound : (s s' : Bcache) → Sound s → Step s s' → Sound s'
Step-Sound s s' (bs, h) (gets dev blockno b e) = (bs, bget-IsSound dev blockno s bs h b s' e)
Step-Sound s s' (bs, h) (reads disk dev blockno b e) =
    (bs, bread-IsSound dev blockno s bs h disk b s' e)
Step-Sound s s' (bs, h) (pins b used e) =
    subst Sound (sym e) (bs, IsSound-Weaker s (bpin b s) bs (Weaker-bpin s b used) h)
Step-Sound s s' (bs, h) (unpins b used e) =
    subst Sound (sym e) (bs, IsSound-Weaker s (bunpin b s) bs (Weaker-bunpin s b used) h)
Step-Sound s s' h (releases holding b used e) = brelse-Sound holding b s s' used h e

pub Reach-Sound : (s : Bcache) → Reach s → Sound s
Reach-Sound s starts = binit-Sound
Reach-Sound s (steps s₀ t r st) = Step-Sound s₀ s (Reach-Sound s₀ r) st

-- Two buffers in use of an unshadowed list that have the same block are one.
unique :
    (s : Bcache) (bs : List ℕ) (a c : ℕ)
    → Unshadowed s bs
    → Among a bs
    → Among c bs
    → s.refcnt a ≢ 0
    → s.refcnt c ≢ 0
    → SameBlock s a c
    → a ≡ c
unique s [] a c h m k used used' same = elim m [ ]
unique s (x ∷ xs) a c h (inl e) (inl e') used used' same = e ∙ sym e'
unique s (x ∷ xs) a c h (inl e) (inr k) used used' same = absurd (
    All-Among (Clear s x) c xs h.0 k used'
      (ap s.dev (sym e) ∙ same.0, ap s.blockno (sym e) ∙ same.1))
unique s (x ∷ xs) a c h (inr m) (inl e') used used' same = absurd (
    All-Among (Clear s x) a xs h.0 m used
      (ap s.dev (sym e') ∙ sym same.0, ap s.blockno (sym e') ∙ sym same.1))
unique s (x ∷ xs) a c h (inr m) (inr k) used used' same = unique s xs a c h.1 m k used used' same

-- Through any run of bget, bread, pins, unpins and releases of buffers in use from binit on, no two
-- buffers in use are for the same block of the same device.
pub one_buffer_per_block :
    (s : Bcache) (a c : ℕ)
    → Reach s
    → s.refcnt a ≢ 0
    → s.refcnt c ≢ 0
    → s.dev a ≡ s.dev c
    → s.blockno a ≡ s.blockno c
    → a ≡ c
one_buffer_per_block s a c r used used' d n =
    let (bs, h) = Reach-Sound s r in
    unique s bs a c h.unshadowed (h.listed a used) (h.listed c used') used used' (d, n)
