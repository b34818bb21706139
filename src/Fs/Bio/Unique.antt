-- ===== src/Fs/Bio/Unique.antt =====
-- No two buffers in use for one block (fs/bio.c): nothing that stands before a buffer in use, in the
-- order in which bget looks, has the same block.
use re_xvapor.Base.{
  ℕ, ◌≡◌, ◌≢◌, refl, sym, ◌∙◌, ap, subst, true, false, Bool-cases, List, [], ◌∷◌, NotIn, Distinct,
  All, All-map, Among, ==→eq, ==→ne, update_ne, ◌==◌, arith, inl, inr,
}
use re_xvapor.Fs.Bio.{Bcache, found, ended, caches, bpin, recycle}
use re_xvapor.Fs.Bio.Scan.{first_cached}

abbrev pub SameBlock : Bcache → ℕ → ℕ → Type 0
SameBlock s a c = (s.dev a ≡ s.dev c) × (s.blockno a ≡ s.blockno c)

abbrev pub Clear : Bcache → ℕ → ℕ → Type 0
Clear s a c = s.refcnt c ≢ 0 → SameBlock s a c → ⊥

abbrev pub Unshadowed : Bcache → List ℕ → Type 0
Unshadowed s [] = Unit
Unshadowed s (b ∷ bs) = All (Clear s b) bs × Unshadowed s bs

Clear-bpin : (s : Bcache) (b a c : ℕ) → b ≢ c → Clear s a c → Clear (bpin b s) a c
Clear-bpin s b a c ne h used same = h (λ z. used (update_ne s.refcnt b c _ ne ∙ z)) same

Clears-bpin :
    (s : Bcache) (b a : ℕ) (cs : List ℕ)
    → NotIn b cs
    → All (Clear s a) cs
    → All (Clear (bpin b s) a) cs
Clears-bpin s b a [] out h = tt
Clears-bpin s b a (c ∷ cs) out h = (Clear-bpin s b a c out.0 h.0, Clears-bpin s b a cs out.1 h.1)

Unshadowed-bpin :
    (s : Bcache) (b : ℕ) (cs : List ℕ) → NotIn b cs → Unshadowed s cs → Unshadowed (bpin b s) cs
Unshadowed-bpin s b [] out h = tt
Unshadowed-bpin s b (c ∷ cs) out h =
    (Clears-bpin s b c cs out.1 h.0, Unshadowed-bpin s b cs out.1 h.1)

found_inj : (a b : ℕ) → found a ≡ found b → a ≡ b
found_inj a b e = cc e

module _ (s : Bcache) (dev blockno : ℕ) where
  cached_here :
      (h : ℕ) (t : List ℕ)
      → caches s dev blockno h ≡ true
      → first_cached s dev blockno (h ∷ t) ≡ found h
  unfolding first_cached
  cached_here h t c = rw c refl

  cached_later :
      (h : ℕ) (t : List ℕ)
      → caches s dev blockno h ≡ false
      → first_cached s dev blockno (h ∷ t) ≡ first_cached s dev blockno t
  unfolding first_cached
  cached_later h t c = rw c refl

  cached_nowhere : (b : ℕ) → first_cached s dev blockno [] ≢ found b
  unfolding first_cached
  cached_nowhere b e = cc e

  pub first_cached-caches :
      (bs : List ℕ) (b : ℕ)
      → first_cached s dev blockno bs ≡ found b
      → (caches s dev blockno b ≡ true) × Among b bs
  first_cached-caches [] b e = absurd (cached_nowhere b e)
  first_cached-caches (h ∷ t) b e = elim (Bool-cases (caches s dev blockno h)) [
    | inl c ↦
        let same : h ≡ b = found_inj h b (sym (cached_here h t c) ∙ e) in
        (ap (caches s dev blockno) (sym same) ∙ c, inl (sym same))
    | inr c ↦
        let later = first_cached-caches t b (sym (cached_later h t c) ∙ e) in (later.0, inr later.1)
  ]

  -- What does not cache the block does not stand in the way of a buffer that does.
  Clear-hit :
      (b a c : ℕ)
      → caches s dev blockno a ≡ false
      → caches s dev blockno b ≡ true
      → Clear s a c
      → Clear (bpin b s) a c
  Clear-hit b a c out hit h = elim (Bool-cases (b == c)) [
    | inl e ↦ λ used same.
        ground (arith, ap s.dev (==→eq b c e), ap s.blockno (==→eq b c e), same.0, same.1)
    | inr e ↦ Clear-bpin s b a c (==→ne b c e) h
  ]

  Clears-hit :
      (b a : ℕ) (cs : List ℕ)
      → caches s dev blockno a ≡ false
      → caches s dev blockno b ≡ true
      → All (Clear s a) cs
      → All (Clear (bpin b s) a) cs
  Clears-hit b a cs out hit h =
      All-map (Clear s a) (Clear (bpin b s) a) cs (λ c. Clear-hit b a c out hit) h

  pub Unshadowed-hit :
      (bs : List ℕ) (b : ℕ)
      → Distinct bs
      → first_cached s dev blockno bs ≡ found b
      → Unshadowed s bs
      → Unshadowed (bpin b s) bs
  Unshadowed-hit [] b d e h = tt
  Unshadowed-hit (x ∷ t) b d e h = elim (Bool-cases (caches s dev blockno x)) [
    | inl c ↦
        let same : x ≡ b = found_inj x b (sym (cached_here x t c) ∙ e) in
        let out : NotIn b t = subst (λ y. NotIn y t) same d.0 in
        (Clears-bpin s b x t out h.0, Unshadowed-bpin s b t out h.1)
    | inr c ↦
        let later = sym (cached_later x t c) ∙ e in
        (Clears-hit b x t c (first_cached-caches t b later).0 h.0, Unshadowed-hit t b d.1 later h.1)
  ]

  -- No buffer of the list caches the block.
  abbrev Uncached : List ℕ → Type 0
  Uncached bs = All (λ c. caches s dev blockno c ≡ false) bs

  pub first_cached-Uncached : (bs : List ℕ) → first_cached s dev blockno bs ≡ ended → Uncached bs
  first_cached-Uncached [] e = tt
  first_cached-Uncached (x ∷ t) e = elim (Bool-cases (caches s dev blockno x)) [
    | inl c ↦ absurd (not_found x (sym (cached_here x t c) ∙ e))
    | inr c ↦ (c, first_cached-Uncached t (sym (cached_later x t c) ∙ e))
  ]
    where
      not_found : (b : ℕ) → found b ≢ ended
      not_found b q = cc q

  Clear-recycle :
      (b a c : ℕ)
      → a ≢ c
      → caches s dev blockno a ≡ false
      → caches s dev blockno c ≡ false
      → Clear s a c
      → Clear (recycle dev blockno b s) a c
  Clear-recycle b a c ne out out' h = elim (Bool-cases (b == c)) [
    | inl e ↦ λ used same. ground (arith, ne, e, same.0, same.1, out)
    | inr e ↦ elim (Bool-cases (b == a)) [
      | inl e' ↦ λ used same. ground (arith, ne, e', e, same.0, same.1, out')
      | inr e' ↦ λ used same.
          h (λ z. used (update_ne s.refcnt b c 1 (==→ne b c e) ∙ z))
            (
              sym (update_ne s.dev b a dev (==→ne b a e'))
                  ∙ (same.0 ∙ update_ne s.dev b c dev (==→ne b c e)),
              sym (update_ne s.blockno b a blockno (==→ne b a e'))
                  ∙ (same.1 ∙ update_ne s.blockno b c blockno (==→ne b c e)),
            )
    ]
  ]

  Clears-recycle :
      (b a : ℕ) (cs : List ℕ)
      → NotIn a cs
      → caches s dev blockno a ≡ false
      → Uncached cs
      → All (Clear s a) cs
      → All (Clear (recycle dev blockno b s) a) cs
  Clears-recycle b a [] d out u h = tt
  Clears-recycle b a (c ∷ cs) d out u h =
      (Clear-recycle b a c d.0 out u.0 h.0, Clears-recycle b a cs d.1 out u.1 h.1)

  pub Unshadowed-recycle :
      (b : ℕ) (bs : List ℕ)
      → Distinct bs
      → Uncached bs
      → Unshadowed s bs
      → Unshadowed (recycle dev blockno b s) bs
  Unshadowed-recycle b [] d u h = tt
  Unshadowed-recycle b (x ∷ t) d u h =
      (Clears-recycle b x t d.0 u.0 u.1 h.0, Unshadowed-recycle b t d.1 u.1 h.1)
