-- ===== src/Mm/Kalloc/Chain.antt =====
-- The free list as a linked list in memory: which pages a chain of `next` words links, and that
-- writing to a page outside the list leaves the chain as it is.
use re_xvapor.Base.{
  ℕ, ◌%◌, ◌≤◌, ◌<◌, ◌≡◌, ◌≢◌, List, [], ◌∷◌, All, NotIn, Distinct, update, update_ne, arith,
}
use re_xvapor.Mm.Kalloc.{Kmem, pgsize, memset_page}

-- From `p` the `next` words lead through the pages `xs` to NULL.
abbrev pub Chain : (ℕ → ℕ) → ℕ → List ℕ → Type 0
Chain mem p [] = p ≡ 0
Chain mem p (x ∷ xs) = (p ≡ x) × (p ≢ 0) × Chain mem (mem x) xs

abbrev pub IsAligned : ℕ → Type 0
IsAligned p = p % pgsize ≡ 0

pub memset_page-ne :
    (mem : ℕ → ℕ) (p q word : ℕ)
    → IsAligned p
    → IsAligned q
    → p ≢ q
    → memset_page mem p word q ≡ mem q
memset_page-ne mem p q word hp hq ne = ground arith

pub Chain-memset_page :
    (mem : ℕ → ℕ) (p word q : ℕ) (xs : List ℕ)
    → IsAligned p
    → All IsAligned xs
    → NotIn p xs
    → Chain mem q xs
    → Chain (memset_page mem p word) q xs
Chain-memset_page mem p word q [] hp al out c = c
Chain-memset_page mem p word q (x ∷ xs) hp al out c =
    let same : memset_page mem p word x ≡ mem x = memset_page-ne mem p x word hp al.0 out.0 in
    (c.0, c.1, rw same (Chain-memset_page mem p word (mem x) xs hp al.1 out.1 c.2))

pub Chain-update :
    (mem : ℕ → ℕ) (p v q : ℕ) (xs : List ℕ)
    → NotIn p xs
    → Chain mem q xs
    → Chain (update mem p v) q xs
Chain-update mem p v q [] out c = c
Chain-update mem p v q (x ∷ xs) out c =
    let same : update mem p v x ≡ mem x = update_ne mem p x v out.0 in
    (c.0, c.1, rw same (Chain-update mem p v (mem x) xs out.1 c.2))

module _ (kernel_end phystop : ℕ) where
  -- What kfree accepts.
  abbrev pub IsPage : ℕ → Type 0
  IsPage p = IsAligned p × (kernel_end ≤ p) × (p < phystop)

  -- The free list of `s` is the list of pages `xs`, each of them a different one.
  pub record IsFree (s : Kmem) (xs : List ℕ) : Type 0 where
    pub chain : Chain s.mem s.freelist xs
    pub pages : All IsPage xs
    pub distinct : Distinct xs

  pub aligned : (xs : List ℕ) → All IsPage xs → All IsAligned xs
  aligned [] h = tt
  aligned (x ∷ xs) h = (h.0.0, aligned xs h.1)
