-- ===== src/Mm/Kalloc/Owners.antt =====
-- The allocator and its callers (mm/kalloc.c): who owns which page. A caller may kfree a page that
-- it holds, once, and does not write to a page that it does not hold.
use re_xvapor.Base.{
  ℕ, ◌+◌, ◌≤◌, ◌<◌, ◌≡◌, refl, sym, ◌≢◌, List, [], ◌∷◌, ◌++◌, some, All, NotIn, Distinct,
  Distinct-middle, All-append_left, All-append_right, All-append, Among, Among-front, Among-back,
  arith, subst, update, ◌∙◌, ◌⊎◌, inl, inr,
}
use re_xvapor.Mm.Kalloc.{Kmem, kalloc, kfree, pgsize}
use re_xvapor.Mm.Kalloc.Chain.{IsAligned, IsPage, IsFree, Chain-update}
use re_xvapor.Mm.Kalloc.Laws.{kalloc_takes_head, kalloc-null, kalloc-failed, kfree_adds_head}

-- The allocator's state, and the pages handed out and not yet returned.
pub record Owners : Type 0 where
  pub kmem : Kmem
  pub held : List ℕ

module _ (kernel_end phystop : ℕ) where
  -- A call of kalloc that succeeds, one that returns NULL, a kfree of a held page, and a holder's
  -- store to a word of its page.
  pub data Step (o o' : Owners) : Type 0 where
    allocates :
        (kalloc o.kmem).0 ≢ 0
        → o'.kmem ≡ (kalloc o.kmem).1
        → o'.held ≡ (kalloc o.kmem).0 ∷ o.held
        → Step o o'
    fails : (kalloc o.kmem).0 ≡ 0 → o'.kmem ≡ (kalloc o.kmem).1 → o'.held ≡ o.held → Step o o'
    frees :
        (p : ℕ) (before after : List ℕ)
        → o.held ≡ before ++ p ∷ after
        → kfree kernel_end phystop p o.kmem ≡ some o'.kmem
        → o'.held ≡ before ++ after
        → Step o o'
    stores :
        (p a v : ℕ) (before after : List ℕ)
        → o.held ≡ before ++ p ∷ after
        → p ≤ a
        → a < p + pgsize
        → o'.kmem ≡ record (o.kmem) { mem = update o.kmem.mem a v }
        → o'.held ≡ o.held
        → Step o o'

  pub data Reach (o : Owners) : Owners → Type 0 where
    here : Reach o o
    next : {o' o'' : Owners} → Reach o o' → Step o' o'' → Reach o o''

  -- The pages of `all`, and no other, are free or held, never both, and no page is held twice.
  pub record IsShared (all : List ℕ) (o : Owners) (xs : List ℕ) : Type 0 where
    pub free : IsFree kernel_end phystop o.kmem xs
    pub pages : All (IsPage kernel_end phystop) o.held
    pub once : Distinct o.held
    pub apart : All (λ p. NotIn p xs) o.held
    pub kept : (p : ℕ) → Among p all → Among p xs ⊎ Among p o.held
    pub none_new : (p : ℕ) → Among p xs ⊎ Among p o.held → Among p all

  -- Some list of free pages makes the state shared.
  abbrev pub Shared : List ℕ → Owners → Type 0
  Shared all o = (xs : List ℕ) × IsShared all o xs

NotIn-All : (p : ℕ) (held xs : List ℕ) → All (λ q. NotIn q (p ∷ xs)) held → NotIn p held
NotIn-All p [] xs h = tt
NotIn-All p (q ∷ held) xs h = ((λ e. h.0.0 (sym e)), NotIn-All p held xs h.1)

All-tail :
    (p : ℕ) (held xs : List ℕ) → All (λ q. NotIn q (p ∷ xs)) held → All (λ q. NotIn q xs) held
All-tail p [] xs h = tt
All-tail p (q ∷ held) xs h = (h.0.1, All-tail p held xs h.1)

All-cons :
    (p : ℕ) (held xs : List ℕ)
    → NotIn p held
    → All (λ q. NotIn q xs) held
    → All (λ q. NotIn q (p ∷ xs)) held
All-cons p [] xs n h = tt
All-cons p (q ∷ held) xs n h = (((λ e. n.0 (sym e)), h.0), All-cons p held xs n.1 h.1)

Owners_path :
    {s s' : Kmem} {h h' : List ℕ}
    → s' ≡ s
    → h' ≡ h
    → ◌≡◌ {A = Owners} (record { kmem = s; held = h }) (record { kmem = s'; held = h' })
Owners_path p q = λ i. record { kmem = sym p i; held = sym q i }

-- A page that moves from the free list to its holder, and back.
to_held :
    (p x : ℕ) (xs held : List ℕ) → Among p (x ∷ xs) ⊎ Among p held → Among p xs ⊎ Among p (x ∷ held)
to_held p x xs held (inl (inl e)) = inr (inl e)
to_held p x xs held (inl (inr m)) = inl m
to_held p x xs held (inr m) = inr (inr m)

to_free :
    (p x : ℕ) (xs held : List ℕ) → Among p xs ⊎ Among p (x ∷ held) → Among p (x ∷ xs) ⊎ Among p held
to_free p x xs held (inl m) = inl (inr m)
to_free p x xs held (inr (inl e)) = inl (inl e)
to_free p x xs held (inr (inr m)) = inr m

given_back :
    (q p : ℕ) (xs before after : List ℕ)
    → Among q xs ⊎ Among q (before ++ p ∷ after)
    → Among q (p ∷ xs) ⊎ Among q (before ++ after)
given_back q p xs before after (inl m) = inl (inr m)
given_back q p xs before after (inr m) =
    to_free q p xs (before ++ after) (inr (Among-front p q before after m))

not_given :
    (q p : ℕ) (xs before after : List ℕ)
    → Among q (p ∷ xs) ⊎ Among q (before ++ after)
    → Among q xs ⊎ Among q (before ++ p ∷ after)
not_given q p xs before after m = elim (to_held q p xs (before ++ after) m) [
  | inl k ↦ inl k
  | inr k ↦ inr (Among-back p q before after k)
]

module _ (kernel_end phystop : ℕ) (pos : 0 < kernel_end) where
  allocates-Shared :
      (all : List ℕ) (s : Kmem) (held xs : List ℕ)
      → (kalloc s).0 ≢ 0
      → IsShared kernel_end phystop all (record { kmem = s; held = held }) xs
      → Shared kernel_end phystop all (record { kmem = (kalloc s).1; held = (kalloc s).0 ∷ held })
  allocates-Shared all s held [] got h =
      absurd (got ((kalloc-null kernel_end phystop s [] h.free).1 refl))
  allocates-Shared all s held (x ∷ xs) got h =
      let after = kalloc_takes_head kernel_end phystop s x xs h.free in
      (
        xs,
        rw after.0 (record {
          free = after.1;
          pages = (h.free.pages.0, h.pages);
          once = (NotIn-All x held xs h.apart, h.once);
          apart = (h.free.distinct.0, All-tail x held xs h.apart);
          kept = λ p m. to_held p x xs held (h.kept p m);
          none_new = λ p m. h.none_new p (to_free p x xs held m);
        }),
      )

  fails-Shared :
      (all : List ℕ) (s : Kmem) (held xs : List ℕ)
      → (kalloc s).0 ≡ 0
      → IsShared kernel_end phystop all (record { kmem = s; held = held }) xs
      → Shared kernel_end phystop all (record { kmem = (kalloc s).1; held = held })
  fails-Shared all s held xs none_left h = (
    xs,
    rw (kalloc-failed s none_left) (record {
      free = record { chain = h.free.chain; pages = h.free.pages; distinct = h.free.distinct };
      pages = h.pages;
      once = h.once;
      apart = h.apart;
      kept = h.kept;
      none_new = h.none_new;
    }),
  )

  middle-Shared :
      (all : List ℕ) (s s' : Kmem) (p : ℕ) (before after xs : List ℕ)
      → kfree kernel_end phystop p s ≡ some s'
      → IsShared kernel_end phystop all (record { kmem = s; held = before ++ p ∷ after }) xs
      → Shared kernel_end phystop all (record { kmem = s'; held = before ++ after })
  middle-Shared all s s' p before after xs e h =
      let apart : NotIn p xs × All (λ q. NotIn q xs) after =
        All-append_right (λ q. NotIn q xs) before (p ∷ after) h.apart in
      let page : IsPage kernel_end phystop p × All (IsPage kernel_end phystop) after =
        All-append_right (IsPage kernel_end phystop) before (p ∷ after) h.pages in
      let (t, freed, list) = kfree_adds_head kernel_end phystop pos p s xs page.0 apart.0 h.free in
      let same : t ≡ s' = ground arith in
      let cut = Distinct-middle p before after h.once in
      (
        p ∷ xs,
        record {
          free = subst (λ u. IsFree kernel_end phystop u (p ∷ xs)) same list;
          pages =
              All-append (IsPage kernel_end phystop) before after
                (All-append_left (IsPage kernel_end phystop) before (p ∷ after) h.pages) page.1;
          once = cut.0;
          apart = All-cons p (before ++ after) xs cut.1 (
              All-append (λ q. NotIn q xs) before after
                (All-append_left (λ q. NotIn q xs) before (p ∷ after) h.apart) apart.1);
          kept = λ q m. given_back q p xs before after (h.kept q m);
          none_new = λ q m. h.none_new q (not_given q p xs before after m);
        },
      )

  word-NotIn :
      (p a : ℕ) (xs : List ℕ)
      → IsAligned p
      → All (IsPage kernel_end phystop) xs
      → NotIn p xs
      → p ≤ a
      → a < p + pgsize
      → NotIn a xs
  word-NotIn p a [] al pages out lo hi = tt
  word-NotIn p a (x ∷ xs) al pages out lo hi =
      (omega arith, word-NotIn p a xs al pages.1 out.1 lo hi)

  stores-Shared :
      (all : List ℕ) (s : Kmem) (p a v : ℕ) (before after xs : List ℕ)
      → p ≤ a
      → a < p + pgsize
      → IsShared kernel_end phystop all (record { kmem = s; held = before ++ p ∷ after }) xs
      → Shared kernel_end phystop all
          (record { kmem = record s { mem = update s.mem a v }; held = before ++ p ∷ after })
  stores-Shared all s p a v before after xs lo hi h =
      let out : NotIn p xs × All (λ q. NotIn q xs) after =
        All-append_right (λ q. NotIn q xs) before (p ∷ after) h.apart in
      let page : IsPage kernel_end phystop p × All (IsPage kernel_end phystop) after =
        All-append_right (IsPage kernel_end phystop) before (p ∷ after) h.pages in
      (
        xs,
        record {
          free = record {
            chain =
                Chain-update s.mem a v s.freelist xs
                  (word-NotIn p a xs page.0.0 h.free.pages out.0 lo hi) h.free.chain;
            pages = h.free.pages;
            distinct = h.free.distinct;
          };
          pages = h.pages;
          once = h.once;
          apart = h.apart;
          kept = h.kept;
          none_new = h.none_new;
        },
      )

  Step-Shared :
      {o o' : Owners} (all : List ℕ)
      → Step kernel_end phystop o o'
      → Shared kernel_end phystop all o
      → Shared kernel_end phystop all o'
  Step-Shared {o} {o'} all (allocates got k g) (xs, h) =
      subst (Shared kernel_end phystop all) (Owners_path k g)
        (allocates-Shared all o.kmem o.held xs got h)
  Step-Shared {o} {o'} all (fails got k g) (xs, h) =
      subst (Shared kernel_end phystop all) (Owners_path k g)
        (fails-Shared all o.kmem o.held xs got h)
  Step-Shared {o} {o'} all (frees p before after g e g') (xs, h) =
      subst (Shared kernel_end phystop all) (Owners_path refl g') (
        middle-Shared all o.kmem o'.kmem p before after xs e
          (subst (λ u. IsShared kernel_end phystop all u xs) (Owners_path refl (sym g)) h))
  Step-Shared {o} {o'} all (stores p a v before after g lo hi k g') (xs, h) =
      subst (Shared kernel_end phystop all) (Owners_path k (g' ∙ g)) (
        stores-Shared all o.kmem p a v before after xs lo hi
          (subst (λ u. IsShared kernel_end phystop all u xs) (Owners_path refl (sym g)) h))

  -- However allocations, frees and the holders' stores follow one another from a state where no
  -- page is held, the pages that were free at the start, and no others, are free or held and never
  -- both, no page is held twice, and the free list stays a list of different pages of the range.
  pub Reach-Shared :
      {o o' : Owners} (all : List ℕ)
      → o.held ≡ []
      → IsFree kernel_end phystop o.kmem all
      → Reach kernel_end phystop o o'
      → Shared kernel_end phystop all o'
  Reach-Shared {o} all e h here = (
    all,
    record {
      free = h;
      pages = rw e tt;
      once = rw e tt;
      apart = rw e tt;
      kept = λ p m. inl m;
      none_new = λ p m. no_other p (subst (λ u. Among p all ⊎ Among p u) e m);
    },
  )
    where
      no_other : (p : ℕ) → Among p all ⊎ Among p [] → Among p all
      no_other p (inl m) = m
      no_other p (inr m) = elim m [ ]
  Reach-Shared all e h (next r st) = Step-Shared all st (Reach-Shared all e h r)
