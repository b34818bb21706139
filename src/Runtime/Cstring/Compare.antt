-- ===== src/Runtime/Cstring/Compare.antt =====
-- The comparisons of kernel/lib/string.c on strings.
use re_xvapor.Base.{
  ℕ, zero, suc, ◌+◌, ◌<◌, ◌≡◌, refl, sym, ◌∙◌, ap, Bool, true, false, not, ◌&&◌, List, [], ◌∷◌,
  length, take, some, ◌==◌, if◌then◌else◌, arith, Bool-cases, inl, inr, ◌↔◌, ==→eq, ==→ne,
}
use re_xvapor.Runtime.Bytes.{ℤ, pos, negsuc, difference}
use re_xvapor.Runtime.Bytes.Copy.{difference-pos}
use re_xvapor.Runtime.Cstring.{strcmp, strncmp, substr_cmp}
use re_xvapor.Runtime.Cstring.Layout.{IsString}

-- The order of two strings: by the first bytes that differ, and an end comes before any byte.
unfoldable pub order : List ℕ → List ℕ → ℤ
order [] [] = pos 0
order [] (d ∷ ds) = difference 0 d
order (c ∷ cs) [] = pos c
order (c ∷ cs) (d ∷ ds) = if c == d then order cs ds else difference c d

-- Whether the first string begins the second.
unfoldable pub begins : List ℕ → List ℕ → Bool
begins [] ds = true
begins (c ∷ cs) [] = false
begins (c ∷ cs) (d ∷ ds) = (c == d) && begins cs ds

strcmp_lem :
    (fuel p q : ℕ) (m : ℕ → ℕ) (cs ds : List ℕ)
    → IsString m p cs
    → IsString m q ds
    → length cs < fuel
    → strcmp fuel p q m ≡ some (order cs ds)
unfolding strcmp order difference
strcmp_lem zero p q m cs ds s t lt = absurd (omega arith)
strcmp_lem (suc fuel) p q m [] [] s t lt = rw (s, t, strcmp) refl
strcmp_lem (suc fuel) p q m [] (d ∷ ds) s t lt = rw (s, t.0, strcmp) refl
strcmp_lem (suc fuel) p q m (c ∷ cs) [] s t lt =
    let go : (not (c == 0) && c == 0) ≡ false = ground arith in rw (s.0, t, go, strcmp) refl
strcmp_lem (suc fuel) p q m (c ∷ cs) (d ∷ ds) s t lt = elim (Bool-cases (c == d)) [
  | inl e ↦
      let go : (not (c == 0) && c == d) ≡ true = ground (arith, s.1) in
      rw (s.0, t.0, go, e, strcmp) (strcmp_lem fuel (p + 1) (q + 1) m cs ds s.2 t.2 (omega arith))
  | inr e ↦
      let go : (not (c == 0) && c == d) ≡ false = ground arith in rw (s.0, t.0, go, e, strcmp) refl
]

order_zero :
    (p q : ℕ) (m : ℕ → ℕ) (cs ds : List ℕ)
    → IsString m p cs
    → IsString m q ds
    → order cs ds ≡ pos 0
    → cs ≡ ds
unfolding order difference
order_zero p q m [] [] s t h = refl
order_zero p q m [] (d ∷ ds) s t h = absurd (t.1 (sym (difference-pos 0 d h)))
order_zero p q m (c ∷ cs) [] s t h = absurd (s.1 (difference-pos c 0 h))
order_zero p q m (c ∷ cs) (d ∷ ds) s t h = elim (Bool-cases (c == d)) [
  | inl e ↦
      let rest = order_zero (p + 1) (q + 1) m cs ds s.2 t.2 (rw e refl ∙ h) in
      cc (rest, ==→eq c d e)
  | inr e ↦ absurd (==→ne c d e (difference-pos c d (rw e refl ∙ h)))
]

order_same : (cs : List ℕ) → order cs cs ≡ pos 0
unfolding order
order_same [] = refl
order_same (c ∷ cs) = ground (arith, order_same cs)

-- strcmp of two strings, with more fuel than the first is long, ends with their order, which is 0 on
-- equal strings and on no others.
pub strcmp-order :
    (fuel p q : ℕ) (m : ℕ → ℕ) (cs ds : List ℕ)
    → IsString m p cs
    → IsString m q ds
    → length cs < fuel
    → (strcmp fuel p q m ≡ some (order cs ds)) × ((order cs ds ≡ pos 0) ↔ (cs ≡ ds))
strcmp-order fuel p q m cs ds s t lt = (
  strcmp_lem fuel p q m cs ds s t lt,
  (order_zero p q m cs ds s t, λ e. ap (order cs) (sym e) ∙ order_same cs),
)

-- strncmp of two strings is the order of their first n bytes.
pub strncmp-order :
    (n p q : ℕ) (m : ℕ → ℕ) (cs ds : List ℕ)
    → IsString m p cs
    → IsString m q ds
    → strncmp p q n m ≡ order (take n cs) (take n ds)
unfolding strncmp order difference
strncmp-order zero p q m cs ds s t = refl
strncmp-order (suc n) p q m [] [] s t = rw (s, t, strncmp) refl
strncmp-order (suc n) p q m [] (d ∷ ds) s t = rw (s, t.0, strncmp) refl
strncmp-order (suc n) p q m (c ∷ cs) [] s t =
    let go : (not (c == 0) && c == 0) ≡ false = ground arith in rw (s.0, t, go, strncmp) refl
strncmp-order (suc n) p q m (c ∷ cs) (d ∷ ds) s t = elim (Bool-cases (c == d)) [
  | inl e ↦
      let go : (not (c == 0) && c == d) ≡ true = ground (arith, s.1) in
      rw (s.0, t.0, go, e, strncmp) (strncmp-order n (p + 1) (q + 1) m cs ds s.2 t.2)
  | inr e ↦
      let go : (not (c == 0) && c == d) ≡ false = ground arith in rw (s.0, t.0, go, e, strncmp) refl
]

-- substr_cmp of two strings, with more fuel than the first is long, ends with 0 if the first begins
-- the second, and with -1 else.
pub substr_cmp-begins :
    (fuel p q : ℕ) (m : ℕ → ℕ) (cs ds : List ℕ)
    → IsString m p cs
    → IsString m q ds
    → length cs < fuel
    → substr_cmp fuel p q m ≡ some (if begins cs ds then pos 0 else negsuc 0)
unfolding substr_cmp begins
substr_cmp-begins zero p q m cs ds s t lt = absurd (omega arith)
substr_cmp-begins (suc fuel) p q m [] ds s t lt = rw (s, substr_cmp) refl
substr_cmp-begins (suc fuel) p q m (c ∷ cs) [] s t lt =
    let end : (c == 0) ≡ false = ground (arith, s.1) in rw (s.0, t, end, substr_cmp) refl
substr_cmp-begins (suc fuel) p q m (c ∷ cs) (d ∷ ds) s t lt =
    let end : (c == 0) ≡ false = ground (arith, s.1) in
    elim (Bool-cases (c == d)) [
      | inl e ↦
          rw (s.0, t.0, end, e, substr_cmp)
            (substr_cmp-begins fuel (p + 1) (q + 1) m cs ds s.2 t.2 (omega arith))
      | inr e ↦ rw (s.0, t.0, end, e, substr_cmp) refl
    ]
