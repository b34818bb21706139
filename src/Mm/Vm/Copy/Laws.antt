-- ===== src/Mm/Vm/Copy/Laws.antt =====
-- copyin (mm/vm.c) through the map from user addresses to physical ones.
use re_xvapor.Base.{
  ℕ, zero, suc, ◌+◌, ◌-◌, ◌*◌, ◌/◌, ◌%◌, ◌^◌, ◌≤◌, ◌<◌, ◌≡◌, ◌≢◌, refl, sym, ◌∙◌, ap, Bool, true,
  false, Bool-cases, ltb, ◌==◌, ==→eq, ==→ne, if◌then◌else◌, arith, inl, inr, ◌⊎◌,
}
use re_xvapor.Runtime.Bytes.{memmove}
use re_xvapor.Runtime.Bytes.Copy.{within, memmove_lem}
use re_xvapor.Mm.Kalloc.{Kmem, pgsize}
use re_xvapor.Mm.Pte.{maxva, pg_round_down}
use re_xvapor.Mm.Vm.{Outcome, returns, ◌>>=◌}
use re_xvapor.Mm.Vm.Space.{lookup, user_page, walkaddr_lem}
use re_xvapor.Mm.Vm.Copy.{Bytes, chunk, copyin_from, copyin}

-- The page of a user address, 0 if there is none, and the physical address.
abbrev pub frame : ℕ → Kmem → ℕ → ℕ
frame pt s va =
    if ltb (pg_round_down va) maxva then user_page (lookup pt s (pg_round_down va)) else 0

abbrev pub phys : ℕ → Kmem → ℕ → ℕ
phys pt s va = frame pt s va + va % pgsize

-- `f i` for the `n` addresses from `start` on.
abbrev pub Each : ℕ → ℕ → (ℕ → Type 0) → Type 0
Each start n P = (va : ℕ) → start ≤ va → va < start + n → P va

pub frame_inside : (pt va : ℕ) (s : Kmem) → frame pt s va ≢ 0 → va < maxva
frame_inside pt va s h = elim (Bool-cases (ltb (pg_round_down va) maxva)) [
  | inl low ↦ ground arith
  | inr high ↦ absurd (h (rw high refl))
]

pub same_frame :
    (pt va va' : ℕ) (s : Kmem)
    → pg_round_down va ≡ pg_round_down va'
    → frame pt s va ≡ frame pt s va'
same_frame pt va va' s e = ap (λ (a : ℕ). if ltb a maxva then user_page (lookup pt s a) else 0) e

module _ (fuel pt dst srcva len : ℕ) (b : Bytes) (s : Kmem) where
  copyin_done : len ≡ 0 → copyin_from (suc fuel) pt dst srcva len b s ≡ returns (true, b) s
  unfolding copyin_from
  copyin_done e = rw e refl

  copyin_missing :
      (len == 0) ≡ false
      → frame pt s srcva ≡ 0
      → copyin_from (suc fuel) pt dst srcva len b s ≡ returns (false, b) s
  unfolding copyin_from
  copyin_missing more e = rw (more, walkaddr_lem pt (pg_round_down srcva) s, ◌>>=◌, e) refl

  copyin_next :
      (pa : ℕ)
      → (len == 0) ≡ false
      → frame pt s srcva ≡ pa
      → (pa == 0) ≡ false
      → copyin_from (suc fuel) pt dst srcva len b s
        ≡ copyin_from fuel pt
            (dst + chunk srcva len)
            ((pg_round_down srcva + pgsize) % 2 ^ 64)
            (len - chunk srcva len)
            (memmove dst (pa + (srcva - pg_round_down srcva)) (chunk srcva len) b)
            s
  unfolding copyin_from
  copyin_next pa more e ne = rw (more, walkaddr_lem pt (pg_round_down srcva) s, ◌>>=◌, e, ne) refl

-- Byte by byte, the range of user addresses is copied, or one of its pages has no mapping.
pub record CopiedIn (pt dst srcva len : ℕ) (b : Bytes) (s : Kmem) (g : Outcome (Bool × Bytes))
    : Type 0 where
  pub ok : Bool
  pub bytes : Bytes
  pub runs : g ≡ returns (ok, bytes) s
  pub mapped : ok ≡ true → Each srcva len (λ va. frame pt s va ≢ 0)
  pub failed : ok ≡ false → (va : ℕ) × (srcva ≤ va) × (va < srcva + len) × (frame pt s va ≡ 0)
  pub copied : ok ≡ true → (i : ℕ) → i < len → bytes (dst + i) ≡ b (phys pt s (srcva + i))
  pub outside : (a : ℕ) → (a < dst) ⊎ (dst + len ≤ a) → bytes a ≡ b a

none_CopiedIn :
    (fuel pt dst srcva : ℕ) (b : Bytes) (s : Kmem)
    → CopiedIn pt dst srcva 0 b s (copyin_from (suc fuel) pt dst srcva 0 b s)
none_CopiedIn fuel pt dst srcva b s = record {
  ok = true;
  bytes = b;
  runs = copyin_done fuel pt dst srcva 0 b s refl;
  mapped = λ e va lo hi. absurd (omega arith);
  failed = λ e. cc e;
  copied = λ e i lo. absurd (omega arith);
  outside = λ a out. refl;
}

missing_CopiedIn :
    (fuel pt dst srcva len : ℕ) (b : Bytes) (s : Kmem)
    → 0 < len
    → frame pt s srcva ≡ 0
    → CopiedIn pt dst srcva len b s (copyin_from (suc fuel) pt dst srcva len b s)
missing_CopiedIn fuel pt dst srcva len b s more e = record {
  ok = false;
  bytes = b;
  runs = copyin_missing fuel pt dst srcva len b s (ground arith) e;
  mapped = λ e. cc e;
  failed = λ r. (srcva, omega arith, omega arith, e);
  copied = λ e. cc e;
  outside = λ a out. refl;
}

-- A round: the part of the range in its first page.
module _ (pt va len pa : ℕ) (s : Kmem) (more : 0 < len) (here : frame pt s va ≡ pa) where
  abbrev pub next_page : ℕ
  next_page = pg_round_down va + pgsize

  pub chunk_lem :
      (chunk va len ≤ len)
      × (0 < chunk va len)
      × ((chunk va len ≡ len) ⊎ (va + chunk va len ≡ next_page))
      × (va + chunk va len ≤ next_page)
  chunk_lem = ground arith

  pub phys-chunk :
      (i : ℕ) → i < chunk va len → phys pt s (va + i) ≡ pa + (va - pg_round_down va) + i
  phys-chunk i lo =
      let one : pg_round_down (va + i) ≡ pg_round_down va = omega (arith, chunk_lem) in
      omega (arith, chunk_lem, same_frame pt (va + i) va s one, here)

module _ (pt dst srcva len pa : ℕ) (b : Bytes) (s : Kmem) (more : 0 < len)
    (here : frame pt s srcva ≡ pa) (page : pa ≢ 0) where
  abbrev n : ℕ
  n = chunk srcva len

  abbrev b1 : Bytes
  b1 = memmove dst (pa + (srcva - pg_round_down srcva)) n b

  abbrev next : ℕ
  next = next_page pt srcva len pa s more here

  abbrev size : (n ≤ len) × (0 < n) × ((n ≡ len) ⊎ (srcva + n ≡ next)) × (srcva + n ≤ next)
  size = chunk_lem pt srcva len pa s more here

  next_CopiedIn :
      (fuel : ℕ)
      → ((i : ℕ) → i < len → (phys pt s (srcva + i) < dst) ⊎ (dst + len ≤ phys pt s (srcva + i)))
      → CopiedIn pt
          (dst + n)
          next
          (len - n)
          b1
          s
          (copyin_from fuel pt (dst + n) next (len - n) b1 s)
      → CopiedIn pt dst srcva len b s (copyin_from (suc fuel) pt dst srcva len b s)
  next_CopiedIn fuel apart r =
      let low = frame_inside pt srcva s (λ e. page (sym here ∙ e)) in
      let nowrap : (pg_round_down srcva + pgsize) % 2 ^ 64 ≡ next = omega arith in
      record {
        ok = r.ok;
        bytes = r.bytes;
        runs =
            copyin_next fuel pt dst srcva len b s pa (ground arith) here (ground (arith, page))
            ∙ (ap (λ (v : ℕ). copyin_from fuel pt (dst + n) v (len - n) b1 s) nowrap ∙ r.runs);
        mapped = λ t va lo hi. elim (Bool-cases (ltb va next)) [
          | inl first ↦
              let one : pg_round_down va ≡ pg_round_down srcva = ground arith in
              λ z. page (sym here ∙ (sym (same_frame pt va srcva s one) ∙ z))
          | inr later ↦ r.mapped t va (ground arith) (before_end va (ground arith) hi)
        ];
        failed = λ f.
            let (va, lo, hi, z) = r.failed f in (va, omega (arith, size), omega (arith, size), z);
        copied = λ t i lo. elim (Bool-cases (ltb i n)) [
          | inl first ↦
              r.outside (dst + i) (inl (ground arith))
              ∙ (memmove_lem dst _ n b (dst + i) ∙ moved i (ground arith))
          | inr later ↦ copied_later t i lo (ground arith)
        ];
        outside = λ a out.
            r.outside a (omega (arith, size, out))
            ∙ (memmove_lem dst _ n b a ∙ unmoved a (omega (arith, size, out)));
      }
    where
      before_end : (va : ℕ) → next ≤ va → va < srcva + len → va < next + (len - n)
      before_end va lo hi = omega (arith, size)

      unmoved :
          (a : ℕ)
          → (a < dst) ⊎ (dst + n ≤ a)
          → (if within dst n a then b (pa + (srcva - pg_round_down srcva) + (a - dst)) else b a)
            ≡ b a
      unmoved a out = let miss : within dst n a ≡ false = ground (arith, out) in rw miss refl

      moved :
          (i : ℕ)
          → i < n
          → (if within dst n (dst + i)
              then b (pa + (srcva - pg_round_down srcva) + (dst + i - dst))
              else b (dst + i))
            ≡ b (phys pt s (srcva + i))
      moved i lo =
          let hit : within dst n (dst + i) ≡ true = ground (arith, lo) in
          let at : pa + (srcva - pg_round_down srcva) + (dst + i - dst) ≡ phys pt s (srcva + i) =
            omega (arith, phys-chunk pt srcva len pa s more here i lo) in
          rw hit (ap b at)

      copied_later :
          r.ok ≡ true → (i : ℕ) → i < len → n ≤ i → r.bytes (dst + i) ≡ b (phys pt s (srcva + i))
      copied_later t i lo hi =
          let to : dst + n + (i - n) ≡ dst + i = omega (arith, size) in
          let from : next + (i - n) ≡ srcva + i = omega (arith, size) in
          let same : phys pt s (next + (i - n)) ≡ phys pt s (srcva + i) =
            ap (λ (v : ℕ). phys pt s v) from in
          sym (ap r.bytes to)
          ∙ (r.copied t (i - n) (omega (arith, size))
              ∙ (memmove_lem dst _ n b _
                  ∙ (unmoved _ (omega (arith, size, same, apart i lo)) ∙ ap b same)))

pub copyin_from-CopiedIn :
    (fuel pt dst srcva len : ℕ) (b : Bytes) (s : Kmem)
    → srcva % pgsize + len ≤ fuel * pgsize
    → ((i : ℕ) → i < len → (phys pt s (srcva + i) < dst) ⊎ (dst + len ≤ phys pt s (srcva + i)))
    → CopiedIn pt dst srcva len b s (copyin_from (suc fuel) pt dst srcva len b s)
copyin_from-CopiedIn fuel pt dst srcva zero b s enough apart = none_CopiedIn fuel pt dst srcva b s
copyin_from-CopiedIn zero pt dst srcva (suc len) b s enough apart = absurd (omega arith)
copyin_from-CopiedIn (suc fuel) pt dst srcva (suc len) b s enough apart =
    elim (Bool-cases (frame pt s srcva == 0)) [
      | inl e ↦ missing_CopiedIn (suc fuel) pt dst srcva (suc len) b s (omega arith) (==→eq _ _ e)
      | inr e ↦
          let page : frame pt s srcva ≢ 0 = ==→ne _ _ e in
          let size = chunk_lem pt srcva (suc len) _ s (omega arith) refl in
          next_CopiedIn pt dst srcva (suc len) _ b s (omega arith) refl page (suc fuel) apart (
            copyin_from-CopiedIn fuel pt (dst + chunk srcva (suc len))
              (pg_round_down srcva + pgsize) (suc len - chunk srcva (suc len)) _ s
              (omega (arith, size)) (λ i lo. rest_apart i lo))
    ]
  where
    rest_apart :
        (i : ℕ)
        → i < suc len - chunk srcva (suc len)
        → (phys pt s (pg_round_down srcva + pgsize + i) < dst + chunk srcva (suc len))
          ⊎ (dst + chunk srcva (suc len) + (suc len - chunk srcva (suc len))
              ≤ phys pt s (pg_round_down srcva + pgsize + i))
    rest_apart i lo =
        let from : pg_round_down srcva + pgsize + i ≡ srcva + (chunk srcva (suc len) + i) =
          ground arith in
        let same = ap (λ (v : ℕ). phys pt s v) from in
        let inside : chunk srcva (suc len) + i < suc len = ground arith in
        let all : dst + chunk srcva (suc len) + (suc len - chunk srcva (suc len)) ≡ dst + suc len =
          ground arith in
        omega (arith, same, apart _ inside, all)

-- copyin returns, and leaves memory outside the destination alone.
pub copyin-CopiedIn :
    (pt dst srcva len : ℕ) (b : Bytes) (s : Kmem)
    → ((i : ℕ) → i < len → (phys pt s (srcva + i) < dst) ⊎ (dst + len ≤ phys pt s (srcva + i)))
    → CopiedIn pt dst srcva len b s (copyin pt dst srcva len b s)
unfolding copyin
copyin-CopiedIn pt dst srcva len b s apart =
    let fuel : len / pgsize + 3 ≡ suc (len / pgsize + 2) = omega arith in
    rw fuel (copyin_from-CopiedIn (len / pgsize + 2) pt dst srcva len b s (omega arith) apart)
