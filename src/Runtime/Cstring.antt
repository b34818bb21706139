-- ===== src/Runtime/Cstring.antt =====
-- Strings with a NUL at the end, the rest of kernel/lib/string.c. Loops with no bound of their own
-- take fuel; a pointer result that is the first argument is left out.
pub mod Layout
pub mod Measure
pub mod Copying
pub mod Compare
mod Tests
use re_xvapor.Base.{
  ℕ, zero, suc, ◌+◌, ◌-◌, Bool, true, false, not, ◌&&◌, Option, none, some, update, ◌==◌,
  if◌then◌else◌,
}
use re_xvapor.Runtime.Bytes.{ℤ, pos, negsuc, difference, fill}

-- The loop of strlen at index `n`, with fuel.
unfoldable pub strlen_from : ℕ → ℕ → ℕ → (ℕ → ℕ) → Option ℕ
strlen_from zero n s m = none
strlen_from (suc fuel) n s m =
    let rest = strlen_from fuel (n + 1) s m in if m (s + n) == 0 then some n else rest

unfoldable pub strlen : ℕ → ℕ → (ℕ → ℕ) → Option ℕ
strlen fuel s m = strlen_from fuel 0 s m

-- The pointer `sc` at the end of the loop of strnlen.
unfoldable pub strnlen_from : ℕ → ℕ → (ℕ → ℕ) → ℕ
strnlen_from zero sc m = sc
strnlen_from (suc count) sc m =
    let rest = strnlen_from count (sc + 1) m in if m sc == 0 then sc else rest

unfoldable pub strnlen : ℕ → ℕ → (ℕ → ℕ) → ℕ
strnlen s count m = strnlen_from count s m - s

-- Copies up to the NUL, then zeroes what is left of the `n` bytes.
unfoldable pub strncpy_from : ℕ → ℕ → ℕ → (ℕ → ℕ) → ℕ → ℕ
strncpy_from zero des src m = m
strncpy_from (suc n) des src m =
    let m' = update m des (m src) in
    let rest = strncpy_from n (des + 1) (src + 1) m' in
    if m src == 0 then fill n (des + 1) 0 m' else rest

unfoldable pub strncpy : ℕ → ℕ → ℤ → (ℕ → ℕ) → ℕ → ℕ
strncpy des src (pos n) m = strncpy_from n des src m
strncpy des src (negsuc n) m = m

-- With `n` bytes that the loop may still copy; the pointer stands behind a NUL that it has copied.
unfoldable pub safestrcpy_from : ℕ → ℕ → ℕ → (ℕ → ℕ) → ℕ → ℕ
safestrcpy_from zero s t m = update m s 0
safestrcpy_from (suc n) s t m =
    let m' = update m s (m t) in
    let rest = safestrcpy_from n (s + 1) (t + 1) m' in
    if m t == 0 then update m' (s + 1) 0 else rest

unfoldable pub safestrcpy : ℕ → ℕ → ℤ → (ℕ → ℕ) → ℕ → ℕ
safestrcpy s t (negsuc n) m = m
safestrcpy s t (pos zero) m = m
safestrcpy s t (pos (suc n)) m = safestrcpy_from n s t m

unfoldable pub strcpy : ℕ → ℕ → ℕ → (ℕ → ℕ) → Option (ℕ → ℕ)
strcpy zero des src m = none
strcpy (suc fuel) des src m =
    let m' = update m des (m src) in
    let rest = strcpy fuel (des + 1) (src + 1) m' in if m src == 0 then some m' else rest

-- The first loop of strcat: the address of the NUL.
unfoldable pub end_of : ℕ → ℕ → (ℕ → ℕ) → Option ℕ
end_of zero p m = none
end_of (suc fuel) p m = let rest = end_of fuel (p + 1) m in if m p == 0 then some p else rest

-- The second loop of strcat, and the store behind it.
unfoldable pub append_at : ℕ → ℕ → ℕ → (ℕ → ℕ) → Option (ℕ → ℕ)
append_at zero p src m = none
append_at (suc fuel) p src m =
    let rest = append_at fuel (p + 1) (src + 1) (update m p (m src)) in
    if m src == 0 then some (update m p 0) else rest

unfoldable pub strcat : ℕ → ℕ → ℕ → (ℕ → ℕ) → Option (ℕ → ℕ)
strcat fuel dest src m = elim (end_of fuel dest m) [ none ↦ none | some p ↦ append_at fuel p src m ]

unfoldable pub strncmp : ℕ → ℕ → ℕ → (ℕ → ℕ) → ℤ
strncmp p q zero m = pos 0
strncmp p q (suc n) m =
    let rest = strncmp (p + 1) (q + 1) n m in
    if not (m p == 0) && m p == m q then rest else difference (m p) (m q)

unfoldable pub strcmp : ℕ → ℕ → ℕ → (ℕ → ℕ) → Option ℤ
strcmp zero p q m = none
strcmp (suc fuel) p q m =
    let rest = strcmp fuel (p + 1) (q + 1) m in
    if not (m p == 0) && m p == m q then rest else some (difference (m p) (m q))

-- 0 or -1.
unfoldable pub substr_cmp : ℕ → ℕ → ℕ → (ℕ → ℕ) → Option ℤ
substr_cmp zero shorts longs m = none
substr_cmp (suc fuel) shorts longs m =
    let rest = substr_cmp fuel (shorts + 1) (longs + 1) m in
    if not (m shorts == 0) && m shorts == m longs
    then rest
    else some (if m shorts == 0 then pos 0 else negsuc 0)
