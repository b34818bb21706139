-- ===== src/Runtime/Bytes.antt =====
-- Blocks of bytes, memset, memcmp, memmove and memcpy of kernel/lib/string.c. Memory maps addresses
-- to bytes; an object does not reach round the end of the address space.
pub mod Copy
mod Tests
use re_xvapor.Base.{
  ℕ, zero, suc, ◌+◌, ◌-◌, ◌%◌, Bool, true, false, ◌&&◌, update, ltb, ◌==◌, if◌then◌else◌,
}

-- A C int.
pub data ℤ : Type 0 where
  pos : ℕ → ℤ
  negsuc : ℕ → ℤ

-- The int `(uchar)a - (uchar)b`.
unfoldable pub difference : ℕ → ℕ → ℤ
difference a zero = pos a
difference zero (suc b) = negsuc b
difference (suc a) (suc b) = difference a b

-- The loop of memset.
unfoldable pub fill : ℕ → ℕ → ℕ → (ℕ → ℕ) → ℕ → ℕ
fill zero dst c m = m
fill (suc n) dst c m = fill n (dst + 1) c (update m dst c)

unfoldable pub memset : ℕ → ℕ → ℕ → (ℕ → ℕ) → ℕ → ℕ
memset dst c n m = fill n dst (c % 256) m

unfoldable pub memcmp : ℕ → ℕ → ℕ → (ℕ → ℕ) → ℤ
memcmp s1 s2 zero m = pos 0
memcmp s1 s2 (suc n) m =
    let rest = memcmp (s1 + 1) (s2 + 1) n m in
    if m s1 == m s2 then rest else difference (m s1) (m s2)

-- The two loops of memmove; the second one's pointers stand behind the bytes that are left.
unfoldable pub copy_up : ℕ → ℕ → ℕ → (ℕ → ℕ) → ℕ → ℕ
copy_up zero s d m = m
copy_up (suc n) s d m = copy_up n (s + 1) (d + 1) (update m d (m s))

unfoldable pub copy_down : ℕ → ℕ → ℕ → (ℕ → ℕ) → ℕ → ℕ
copy_down zero s d m = m
copy_down (suc n) s d m = copy_down n (s - 1) (d - 1) (update m (d - 1) (m (s - 1)))

unfoldable pub memmove : ℕ → ℕ → ℕ → (ℕ → ℕ) → ℕ → ℕ
memmove dst src n m =
    if n == 0
    then m
    else if ltb src dst && ltb dst (src + n)
    then copy_down n (src + n) (dst + n) m
    else copy_up n src dst m

unfoldable pub memcpy : ℕ → ℕ → ℕ → (ℕ → ℕ) → ℕ → ℕ
memcpy dst src n m = memmove dst src n m
