-- ===== src/Mm/Vm/Copy/Outward.antt =====
-- copyout (mm/vm.c) through the map from user addresses to physical ones.
use re_xvapor.Base.{
  ℕ, zero, suc, ◌+◌, ◌-◌, ◌*◌, ◌/◌, ◌%◌, ◌^◌, ◌≤◌, ◌<◌, ◌≡◌, ◌≢◌, refl, sym, ◌∙◌, ap, Bool, true,
  false, Bool-cases, ltb, ◌==◌, ==→eq, ==→ne, arith, inl, inr, ◌⊎◌,
}
use re_xvapor.Runtime.Bytes.{memmove}
use re_xvapor.Runtime.Bytes.Copy.{within, memmove_lem}
use re_xvapor.Mm.Kalloc.{Kmem, pgsize}
use re_xvapor.Mm.Pte.{pg_round_down}
use re_xvapor.Mm.Vm.{Outcome, returns, ◌>>=◌}
use re_xvapor.Mm.Vm.Space.{walkaddr_lem}
use re_xvapor.Mm.Vm.Copy.{Bytes, chunk, copyout_from, copyout}
use re_xvapor.Mm.Vm.Copy.Laws.{
  Each, frame, phys, frame_inside, same_frame, next_page, chunk_lem, phys-chunk,
}

module _ (fuel pt dstva src len : ℕ) (b : Bytes) (s : Kmem) where
  copyout_done : len ≡ 0 → copyout_from (suc fuel) pt dstva src len b s ≡ returns (true, b) s
  unfolding copyout_from
  copyout_done e = rw e refl

  copyout_missing :
      (len == 0) ≡ false
      → frame pt s dstva ≡ 0
      → copyout_from (suc fuel) pt dstva src len b s ≡ returns (false, b) s
  unfolding copyout_from
  copyout_missing more e = rw (more, walkaddr_lem pt (pg_round_down dstva) s, ◌>>=◌, e) refl

  copyout_next :
      (pa : ℕ)
      → (len == 0) ≡ false
      → frame pt s dstva ≡ pa
      → (pa == 0) ≡ false
      → copyout_from (suc fuel) pt dstva src len b s
        ≡ copyout_from fuel pt
            ((pg_round_down dstva + pgsize) % 2 ^ 64)
            (src + chunk dstva len)
            (len - chunk dstva len)
            (memmove (pa + (dstva - pg_round_down dstva)) src (chunk dstva len) b)
            s
  unfolding copyout_from
  copyout_next pa more e ne = rw (more, walkaddr_lem pt (pg_round_down dstva) s, ◌>>=◌, e, ne) refl

-- Byte by byte, the range of user addresses gets the source's bytes, or one of its pages has no
-- mapping.
pub record CopiedOut (pt dstva src len : ℕ) (b : Bytes) (s : Kmem) (g : Outcome (Bool × Bytes))
    : Type 0 where
  pub ok : Bool
  pub bytes : Bytes
  pub runs : g ≡ returns (ok, bytes) s
  pub mapped : ok ≡ true → Each dstva len (λ va. frame pt s va ≢ 0)
  pub failed : ok ≡ false → (va : ℕ) × (dstva ≤ va) × (va < dstva + len) × (frame pt s va ≡ 0)
  pub copied : ok ≡ true → (i : ℕ) → i < len → bytes (phys pt s (dstva + i)) ≡ b (src + i)
  pub outside : (a : ℕ) → Each dstva len (λ va. a ≢ phys pt s va) → bytes a ≡ b a

-- The range has one physical byte for each address, none of them in the source.
pub record IsTarget (pt dstva src len : ℕ) (s : Kmem) : Type 0 where
  pub apart : Each dstva len (λ va. (phys pt s va < src) ⊎ (src + len ≤ phys pt s va))
  pub distinct :
      (va va' : ℕ) → dstva ≤ va → va < va' → va' < dstva + len → phys pt s va ≢ phys pt s va'

module _ (pt dstva src len pa : ℕ) (b : Bytes) (s : Kmem) (more : 0 < len)
    (here : frame pt s dstva ≡ pa) (page : pa ≢ 0) (h : IsTarget pt dstva src len s) where
  abbrev n : ℕ
  n = chunk dstva len

  abbrev p : ℕ
  p = pa + (dstva - pg_round_down dstva)

  abbrev b1 : Bytes
  b1 = memmove p src n b

  abbrev next : ℕ
  next = next_page pt dstva len pa s more here

  abbrev size : (n ≤ len) × (0 < n) × ((n ≡ len) ⊎ (dstva + n ≡ next)) × (dstva + n ≤ next)
  size = chunk_lem pt dstva len pa s more here

  abbrev byte_at : (i : ℕ) → i < n → phys pt s (dstva + i) ≡ p + i
  byte_at = phys-chunk pt dstva len pa s more here

  rest_IsTarget : IsTarget pt next (src + n) (len - n) s
  rest_IsTarget = record {
    apart = λ va lo hi. omega (arith, size, h.apart va (omega (arith, size)) (omega (arith, size)));
    distinct = λ va va' lo lt hi. h.distinct va va' (omega (arith, size)) lt (omega (arith, size));
  }

  -- An address that no byte of the first page is.
  unmoved : (a : ℕ) → ((i : ℕ) → i < n → a ≢ phys pt s (dstva + i)) → b1 a ≡ b a
  unmoved a away = memmove_lem p src n b a ∙ elim (Bool-cases (within p n a)) [
    | inl hit ↦
        let lo : p ≤ a = ground arith in
        let hi : a - p < n = ground arith in
        let at : a ≡ phys pt s (dstva + (a - p)) = omega (arith, byte_at (a - p) hi) in
        absurd (away (a - p) hi at)
    | inr miss ↦ rw miss refl
  ]

  source_unmoved : (i : ℕ) → i < len → b1 (src + i) ≡ b (src + i)
  source_unmoved i lo =
      unmoved (src + i)
        (λ j lj e. omega (arith, size, e, h.apart (dstva + j) (omega arith) (omega (arith, size))))

  moved : (i : ℕ) → i < n → b1 (phys pt s (dstva + i)) ≡ b (src + i)
  moved i lo =
      let at = byte_at i lo in
      let hit : within p n (p + i) ≡ true = ground (arith, lo) in
      let from : src + (p + i - p) ≡ src + i = omega arith in
      ap b1 at ∙ (memmove_lem p src n b (p + i) ∙ rw hit (ap b from))

  next_CopiedOut :
      (fuel : ℕ)
      → CopiedOut pt next
          (src + n)
          (len - n)
          b1
          s
          (copyout_from fuel pt next (src + n) (len - n) b1 s)
      → CopiedOut pt dstva src len b s (copyout_from (suc fuel) pt dstva src len b s)
  next_CopiedOut fuel r =
      let low = frame_inside pt dstva s (λ e. page (sym here ∙ e)) in
      let nowrap : (pg_round_down dstva + pgsize) % 2 ^ 64 ≡ next = omega arith in
      record {
        ok = r.ok;
        bytes = r.bytes;
        runs =
            copyout_next fuel pt dstva src len b s pa (ground arith) here (ground (arith, page))
            ∙ (ap (λ (v : ℕ). copyout_from fuel pt v (src + n) (len - n) b1 s) nowrap ∙ r.runs);
        mapped = λ t va lo hi. elim (Bool-cases (ltb va next)) [
          | inl first ↦
              let one : pg_round_down va ≡ pg_round_down dstva = ground arith in
              λ z. page (sym here ∙ (sym (same_frame pt va dstva s one) ∙ z))
          | inr later ↦ r.mapped t va (ground arith) (before_end va (ground arith) hi)
        ];
        failed = λ f.
            let (va, lo, hi, z) = r.failed f in (va, omega (arith, size), omega (arith, size), z);
        copied = λ t i lo. elim (Bool-cases (ltb i n)) [
          | inl first ↦ first_bytes i (ground arith) ∙ moved i (ground arith)
          | inr later ↦ later_bytes t i lo (ground arith)
        ];
        outside = λ a out.
            r.outside a (λ va lo hi. out va (omega (arith, size)) (omega (arith, size)))
            ∙ unmoved a (λ i lo. out (dstva + i) (omega arith) (omega (arith, size)));
      }
    where
      before_end : (va : ℕ) → next ≤ va → va < dstva + len → va < next + (len - n)
      before_end va lo hi = omega (arith, size)

      first_bytes : (i : ℕ) → i < n → r.bytes (phys pt s (dstva + i)) ≡ b1 (phys pt s (dstva + i))
      first_bytes i lo = r.outside (phys pt s (dstva + i)) (λ va lo' hi'.
          h.distinct (dstva + i) va (omega arith) (omega (arith, size)) (omega (arith, size)))

      later_bytes :
          r.ok ≡ true → (i : ℕ) → i < len → n ≤ i → r.bytes (phys pt s (dstva + i)) ≡ b (src + i)
      later_bytes t i lo hi =
          let to : next + (i - n) ≡ dstva + i = omega (arith, size) in
          let from : src + n + (i - n) ≡ src + i = omega (arith, size) in
          ap (λ (v : ℕ). r.bytes (phys pt s v)) (sym to)
          ∙ (r.copied t (i - n) (omega (arith, size)) ∙ (ap b1 from ∙ source_unmoved i lo))

none_CopiedOut :
    (fuel pt dstva src : ℕ) (b : Bytes) (s : Kmem)
    → CopiedOut pt dstva src 0 b s (copyout_from (suc fuel) pt dstva src 0 b s)
none_CopiedOut fuel pt dstva src b s = record {
  ok = true;
  bytes = b;
  runs = copyout_done fuel pt dstva src 0 b s refl;
  mapped = λ e va lo hi. absurd (omega arith);
  failed = λ e. cc e;
  copied = λ e i lo. absurd (omega arith);
  outside = λ a out. refl;
}

missing_CopiedOut :
    (fuel pt dstva src len : ℕ) (b : Bytes) (s : Kmem)
    → 0 < len
    → frame pt s dstva ≡ 0
    → CopiedOut pt dstva src len b s (copyout_from (suc fuel) pt dstva src len b s)
missing_CopiedOut fuel pt dstva src len b s more e = record {
  ok = false;
  bytes = b;
  runs = copyout_missing fuel pt dstva src len b s (ground arith) e;
  mapped = λ e. cc e;
  failed = λ r. (dstva, omega arith, omega arith, e);
  copied = λ e. cc e;
  outside = λ a out. refl;
}

copyout_from-CopiedOut :
    (fuel pt dstva src len : ℕ) (b : Bytes) (s : Kmem)
    → dstva % pgsize + len ≤ fuel * pgsize
    → IsTarget pt dstva src len s
    → CopiedOut pt dstva src len b s (copyout_from (suc fuel) pt dstva src len b s)
copyout_from-CopiedOut fuel pt dstva src zero b s enough h = none_CopiedOut fuel pt dstva src b s
copyout_from-CopiedOut zero pt dstva src (suc len) b s enough h = absurd (omega arith)
copyout_from-CopiedOut (suc fuel) pt dstva src (suc len) b s enough h =
    elim (Bool-cases (frame pt s dstva == 0)) [
      | inl e ↦ missing_CopiedOut (suc fuel) pt dstva src (suc len) b s (omega arith) (==→eq _ _ e)
      | inr e ↦
          let page : frame pt s dstva ≢ 0 = ==→ne _ _ e in
          let size = chunk_lem pt dstva (suc len) _ s (omega arith) refl in
          next_CopiedOut pt dstva src (suc len) _ b s (omega arith) refl page h (suc fuel) (
            copyout_from-CopiedOut fuel pt (pg_round_down dstva + pgsize)
              (src + chunk dstva (suc len)) (suc len - chunk dstva (suc len)) _ s
              (omega (arith, size))
              (rest_IsTarget pt dstva src (suc len) _ b s (omega arith) refl page h))
    ]

pub copyout-CopiedOut :
    (pt dstva src len : ℕ) (b : Bytes) (s : Kmem)
    → IsTarget pt dstva src len s
    → CopiedOut pt dstva src len b s (copyout pt dstva src len b s)
unfolding copyout
copyout-CopiedOut pt dstva src len b s h =
    let fuel : len / pgsize + 3 ≡ suc (len / pgsize + 2) = omega arith in
    rw fuel (copyout_from-CopiedOut (len / pgsize + 2) pt dstva src len b s (omega arith) h)
