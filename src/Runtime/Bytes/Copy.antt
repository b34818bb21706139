-- ===== src/Runtime/Bytes/Copy.antt =====
-- What memset, memmove and memcmp of kernel/lib/string.c do to each byte.
use re_xvapor.Base.{
  ℕ, zero, suc, ◌+◌, ◌-◌, ◌%◌, ◌≤◌, ◌<◌, ◌≡◌, ◌≢◌, refl, sym, ◌∙◌, ap, Bool, ◌&&◌, update, ltb, leb,
  ◌==◌, if◌then◌else◌, arith, Bool-cases, inl, inr, ◌⊎◌,
}
use mathlib.Core.Path.{ap₂}
use re_xvapor.Runtime.Bytes.{ℤ, pos, difference, fill, memset, memcmp, copy_up, copy_down, memmove}

-- Whether `a` is one of the `n` addresses from `start` on.
abbrev pub within : ℕ → ℕ → ℕ → Bool
within start n a = leb start a && ltb a (start + n)

fill_lem :
    (n dst c : ℕ) (m : ℕ → ℕ) (a : ℕ) → fill n dst c m a ≡ (if within dst n a then c else m a)
unfolding fill
fill_lem zero dst c m a = ground arith
fill_lem (suc n) dst c m a = fill_lem n (dst + 1) c (update m dst c) a ∙ ground arith

-- memset makes every byte of the block the low byte of c, and changes no other.
pub memset_lem :
    (dst c n : ℕ) (m : ℕ → ℕ) (a : ℕ)
    → memset dst c n m a ≡ (if within dst n a then c % 256 else m a)
unfolding memset
memset_lem dst c n m a = fill_lem n dst (c % 256) m a

-- Upwards, no byte is read after it has been written.
copy_up_lem :
    (n s d : ℕ) (m : ℕ → ℕ) (a : ℕ)
    → (d ≤ s) ⊎ (s + n ≤ d)
    → copy_up n s d m a ≡ (if within d n a then m (s + (a - d)) else m a)
unfolding copy_up
copy_up_lem zero s d m a h = ground arith
copy_up_lem (suc n) s d m a h =
    copy_up_lem n (s + 1) (d + 1) (update m d (m s)) a (ground arith) ∙ grind arith

copy_down_lem :
    (n s d : ℕ) (m : ℕ → ℕ) (a : ℕ)
    → s < d
    → copy_down n (s + n) (d + n) m a ≡ (if within d n a then m (s + (a - d)) else m a)
unfolding copy_down
copy_down_lem zero s d m a h = ground arith
copy_down_lem (suc n) s d m a h =
    let s' : s + suc n - 1 ≡ s + n = omega arith in
    let d' : d + suc n - 1 ≡ d + n = omega arith in
    rw (s', d') (copy_down_lem n s d (update m (d + n) (m (s + n))) a h ∙ grind arith)

-- memmove leaves in each byte of the destination the byte that the source held before the call, also
-- where the two blocks overlap, and changes no byte outside the destination.
pub memmove_lem :
    (dst src n : ℕ) (m : ℕ → ℕ) (a : ℕ)
    → memmove dst src n m a ≡ (if within dst n a then m (src + (a - dst)) else m a)
unfolding memmove
memmove_lem dst src n m a = elim (Bool-cases (n == 0)) [
  | inl e ↦ rw e (ground arith)
  | inr e ↦ elim (Bool-cases (ltb src dst && ltb dst (src + n))) [
    | inl b ↦ rw (e, b) (copy_down_lem n src dst m a (ground arith))
    | inr b ↦ rw (e, b) (copy_up_lem n src dst m a (ground arith))
  ]
]

-- The first `i` bytes of the two blocks agree.
abbrev pub Agree : (ℕ → ℕ) → ℕ → ℕ → ℕ → Type 0
Agree m s1 s2 zero = Unit
Agree m s1 s2 (suc i) = (m s1 ≡ m s2) × Agree m (s1 + 1) (s2 + 1) i

-- Either all `n` bytes agree and the result is 0, or it is the difference of the first that do not.
pub data Compared (m : ℕ → ℕ) (s1 s2 n : ℕ) (result : ℤ) : Type 0 where
  same : Agree m s1 s2 n → result ≡ pos 0 → Compared m s1 s2 n result
  differs :
      (i : ℕ)
      → i < n
      → Agree m s1 s2 i
      → m (s1 + i) ≢ m (s2 + i)
      → result ≡ difference (m (s1 + i)) (m (s2 + i))
      → Compared m s1 s2 n result

Compared-suc :
    (m : ℕ → ℕ) (s1 s2 n : ℕ) (result : ℤ)
    → m s1 ≡ m s2
    → Compared m (s1 + 1) (s2 + 1) n result
    → Compared m s1 s2 (suc n) result
Compared-suc m s1 s2 n result e (same all r) = same (e, all) r
Compared-suc m s1 s2 n result e (differs i lt all ne r) =
    let left : s1 + 1 + i ≡ s1 + suc i = omega arith in
    let right : s2 + 1 + i ≡ s2 + suc i = omega arith in
    differs (suc i) (omega arith) (e, all) (λ q. ne (ap m left ∙ (q ∙ ap m (sym right))))
      (r ∙ ap₂ difference (ap m left) (ap m right))

-- memcmp returns 0 on blocks that agree, and else the difference of the first bytes that do not.
pub memcmp-Compared : (s1 s2 n : ℕ) (m : ℕ → ℕ) → Compared m s1 s2 n (memcmp s1 s2 n m)
unfolding memcmp
memcmp-Compared s1 s2 zero m = same tt refl
memcmp-Compared s1 s2 (suc n) m = elim (Bool-cases (m s1 == m s2)) [
  | inl e ↦
      rw (e, memcmp)
        (Compared-suc m s1 s2 n (memcmp (s1 + 1) (s2 + 1) n m) (ground arith)
          (memcmp-Compared (s1 + 1) (s2 + 1) n m))
  | inr e ↦ rw (e, memcmp) (differs 0 (omega arith) tt (ground arith) (ground arith))
]

-- A difference of bytes is 0 only if they are equal.
pub difference-pos : (a b : ℕ) → difference a b ≡ pos 0 → a ≡ b
unfolding difference
difference-pos a zero h = cc h
difference-pos zero (suc b) h = cc h
difference-pos (suc a) (suc b) h = ap suc (difference-pos a b h)
