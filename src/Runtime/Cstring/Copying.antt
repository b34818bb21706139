-- ===== src/Runtime/Cstring/Copying.antt =====
-- The copying functions of kernel/lib/string.c on strings: strcpy and strncpy against memmove and
-- memset, safestrcpy and strcat by the string that they leave.
use re_xvapor.Base.{
  ℕ, zero, suc, ◌+◌, ◌-◌, ◌≤◌, ◌<◌, ◌≡◌, ◌≢◌, refl, ◌∙◌, ap, subst, true, false, ◌&&◌, List, [],
  ◌∷◌, ◌++◌, length, take, min, some, update, update_self, update_ne, ltb, ◌==◌, arith, ◌⊎◌, inl,
}
use re_xvapor.Runtime.Bytes.{pos, fill, memset, copy_up, memmove}
use re_xvapor.Runtime.Cstring.{
  strcpy, strncpy, strncpy_from, safestrcpy, safestrcpy_from, append_at, strcat,
}
use re_xvapor.Runtime.Cstring.Layout.{IsString, IsString-update}
use re_xvapor.Runtime.Cstring.Measure.{end_of_lem}

-- A copy of `n` bytes to `des` can go upwards: the source is not overwritten before it is read.
abbrev pub Upwards : ℕ → ℕ → ℕ → Type 0
Upwards des src n = (des ≤ src) ⊎ (src + n ≤ des)

memmove_up :
    (des src n : ℕ) (m : ℕ → ℕ) → Upwards des src n → copy_up n src des m ≡ memmove des src n m
unfolding memmove copy_up
memmove_up des src zero m h = refl
memmove_up des src (suc n) m h =
    let up : (ltb src des && ltb des (src + suc n)) ≡ false = ground arith in
    let some_bytes : (suc n == 0) ≡ false = ground arith in rw (up, some_bytes) refl

-- What is left of the source string after its first byte has been copied.
rest_of :
    (des src c : ℕ) (m : ℕ → ℕ) (cs : List ℕ)
    → Upwards des src (suc (suc (length cs)))
    → IsString m (src + 1) cs
    → IsString (update m des c) (src + 1) cs
rest_of des src c m cs h s = IsString-update m des c (src + 1) cs (ground arith) s

strcpy_up :
    (fuel des src : ℕ) (m : ℕ → ℕ) (cs : List ℕ)
    → IsString m src cs
    → length cs < fuel
    → Upwards des src (suc (length cs))
    → strcpy fuel des src m ≡ some (copy_up (suc (length cs)) src des m)
unfolding strcpy copy_up
strcpy_up zero des src m cs s lt h = absurd (omega arith)
strcpy_up (suc fuel) des src m [] s lt h = rw (s, strcpy) refl
strcpy_up (suc fuel) des src m (c ∷ cs) s lt h =
    let go : (m src == 0) ≡ false = ground (arith, s.0, s.1) in
    rw (go, strcpy)
      (strcpy_up fuel (des + 1) (src + 1) (update m des (m src)) cs
        (rest_of des src (m src) m cs h s.2) (omega arith) (ground arith))

-- strcpy of a string, with more fuel than its length, ends, and is memmove of the string and its NUL
-- wherever the two do not overlap or the destination lies below.
pub strcpy-memmove :
    (fuel des src : ℕ) (m : ℕ → ℕ) (cs : List ℕ)
    → IsString m src cs
    → length cs < fuel
    → Upwards des src (suc (length cs))
    → strcpy fuel des src m ≡ some (memmove des src (suc (length cs)) m)
strcpy-memmove fuel des src m cs s lt h =
    strcpy_up fuel des src m cs s lt h ∙ ap some (memmove_up des src (suc (length cs)) m h)

strncpy_up :
    (n des src : ℕ) (m : ℕ → ℕ) (cs : List ℕ)
    → IsString m src cs
    → Upwards des src (suc (length cs))
    → strncpy_from n des src m
      ≡ fill
          (n - suc (length cs))
          (des + suc (length cs))
          0
          (copy_up (min n (suc (length cs))) src des m)
unfolding strncpy_from copy_up fill
strncpy_up zero des src m cs s h =
    let none_left : 0 - suc (length cs) ≡ 0 = omega arith in
    let none_copied : min 0 (suc (length cs)) ≡ 0 = omega arith in rw (none_left, none_copied) refl
strncpy_up (suc n) des src m [] s h =
    let left : suc n - 1 ≡ n = omega arith in
    let copied : min (suc n) 1 ≡ 1 = omega arith in
    let nul : (m src == 0) ≡ true = ground (arith, s) in rw (left, copied, nul) refl
strncpy_up (suc n) des src m (c ∷ cs) s h =
    let left : suc n - suc (suc (length cs)) ≡ n - suc (length cs) = omega arith in
    let copied : min (suc n) (suc (suc (length cs))) ≡ suc (min n (suc (length cs))) =
      omega arith in
    let behind : des + suc (suc (length cs)) ≡ des + 1 + suc (length cs) = omega arith in
    let go : (m src == 0) ≡ false = ground (arith, s.0, s.1) in
    rw (left, copied, behind, go)
      (strncpy_up n (des + 1) (src + 1) (update m des (m src)) cs
        (rest_of des src (m src) m cs h s.2) (ground arith))

-- Where the source is not overwritten before it is read, strncpy of a string into n bytes is memmove
-- of the string and its NUL, or of its first n bytes if that is less, and then memset of what is left
-- of the n bytes to 0.
pub strncpy-memmove :
    (des src n : ℕ) (m : ℕ → ℕ) (cs : List ℕ)
    → IsString m src cs
    → Upwards des src (suc (length cs))
    → strncpy des src (pos n) m
      ≡ memset
          (des + suc (length cs))
          0
          (n - suc (length cs))
          (memmove des src (min n (suc (length cs))) m)
unfolding strncpy memset
strncpy-memmove des src n m cs s h =
    strncpy_up n des src m cs s h
    ∙ ap (fill (n - suc (length cs)) (des + suc (length cs)) 0)
        (memmove_up des src (min n (suc (length cs))) m (ground arith))

-- The string `cs` at `s`, within `size` bytes, outside which `m'` is `m`.
pub record Placed (m m' : ℕ → ℕ) (s size : ℕ) (cs : List ℕ) : Type 0 where
  pub text : IsString m' s cs
  pub elsewhere : (a : ℕ) → (a < s) ⊎ (s + size ≤ a) → m' a ≡ m a

-- A byte stored in front of a placed string.
Placed-cons :
    (m m' : ℕ → ℕ) (s size c : ℕ) (cs : List ℕ)
    → c ≢ 0
    → Placed (update m s c) m' (s + 1) size cs
    → Placed m m' s (suc size) (c ∷ cs)
Placed-cons m m' s size c cs ne h = record {
  text = (h.elsewhere s (ground arith) ∙ update_self m s c, ne, h.text);
  elsewhere = λ a out. h.elsewhere a (ground arith) ∙ update_ne m s a c (ground arith);
}

safestrcpy_from-Placed :
    (n s t : ℕ) (m : ℕ → ℕ) (cs : List ℕ)
    → IsString m t cs
    → Upwards s t (suc (length cs))
    → Placed m (safestrcpy_from n s t m) s (suc n) (take n cs)
unfolding safestrcpy_from
safestrcpy_from-Placed zero s t m cs str h = record {
  text = update_self m s 0;
  elsewhere = λ a out. update_ne m s a 0 (ground arith);
}
safestrcpy_from-Placed (suc n) s t m [] str h =
    let nul : (m t == 0) ≡ true = ground (arith, str) in
    rw (nul, safestrcpy_from)
      (record { text = ground (arith, str); elsewhere = λ a out. ground arith })
safestrcpy_from-Placed (suc n) s t m (c ∷ cs) str h =
    let go : (m t == 0) ≡ false = ground (arith, str.0, str.1) in
    let byte : m t ≡ c = str.0 in
    rw (go, safestrcpy_from)
      (Placed-cons m _ s (suc n) c (take n cs) str.1 (
        rw byte (
          safestrcpy_from-Placed n (s + 1) (t + 1) (update m s c) cs (rest_of s t c m cs h str.2)
            (ground arith))))

-- Where the source is not overwritten before it is read, safestrcpy of a string into n + 1 bytes
-- leaves a string there, of the source's first n bytes at most, and changes nothing else.
pub safestrcpy-Placed :
    (s t n : ℕ) (m : ℕ → ℕ) (cs : List ℕ)
    → IsString m t cs
    → Upwards s t (suc (length cs))
    → Placed m (safestrcpy s t (pos (suc n)) m) s (suc n) (take n cs)
unfolding safestrcpy
safestrcpy-Placed s t n m cs str h = safestrcpy_from-Placed n s t m cs str h

append_at-Placed :
    (fuel p src : ℕ) (m : ℕ → ℕ) (cs : List ℕ)
    → IsString m src cs
    → length cs < fuel
    → Upwards p src (suc (length cs))
    → (m' : ℕ → ℕ) × (append_at fuel p src m ≡ some m') × Placed m m' p (suc (length cs)) cs
unfolding append_at
append_at-Placed zero p src m cs str lt h = absurd (omega arith)
append_at-Placed (suc fuel) p src m [] str lt h =
    let nul : (m src == 0) ≡ true = ground (arith, str) in
    (
      update m p 0,
      rw (nul, append_at) refl,
      record { text = update_self m p 0; elsewhere = λ a out. update_ne m p a 0 (ground arith) },
    )
append_at-Placed (suc fuel) p src m (c ∷ cs) str lt h =
    let go : (m src == 0) ≡ false = ground (arith, str.0, str.1) in
    let byte : m src ≡ c = str.0 in
    let (m', e, placed) =
      append_at-Placed fuel (p + 1) (src + 1) (update m p c) cs (rest_of p src c m cs h str.2)
        (omega arith) (ground arith) in
    (m', rw (go, byte, append_at) e, Placed-cons m m' p (suc (length cs)) c cs str.1 placed)

-- A string whose NUL a second one has been placed on.
IsString-append :
    (m m' : ℕ → ℕ) (a : ℕ) (ds cs : List ℕ)
    → IsString m a ds
    → ((b : ℕ) → b < a + length ds → m' b ≡ m b)
    → IsString m' (a + length ds) cs
    → IsString m' a (ds ++ cs)
IsString-append m m' a [] cs h same s =
    let start : a + 0 ≡ a = omega arith in subst (λ b. IsString m' b cs) start s
IsString-append m m' a (d ∷ ds) cs h same s =
    let start : a + suc (length ds) ≡ a + 1 + length ds = omega arith in
    (
      same a (omega arith) ∙ h.0,
      h.1,
      IsString-append m m' (a + 1) ds cs h.2 (λ b lt. same b (omega arith))
          (subst (λ b. IsString m' b cs) start s),
    )

-- Where the second string is not overwritten before it is read, strcat, with more fuel than either
-- string is long, ends with the two strings one behind the other at `dest`, and changes nothing but
-- the bytes of the second one's copy.
pub strcat-IsString :
    (fuel dest src : ℕ) (m : ℕ → ℕ) (ds cs : List ℕ)
    → IsString m dest ds
    → IsString m src cs
    → length ds < fuel
    → length cs < fuel
    → Upwards (dest + length ds) src (suc (length cs))
    → (m' : ℕ → ℕ) × (strcat fuel dest src m ≡ some m')
      × IsString m' dest (ds ++ cs)
      × ((a : ℕ) → (a < dest + length ds) ⊎ (dest + length ds + suc (length cs) ≤ a) → m' a ≡ m a)
unfolding strcat
strcat-IsString fuel dest src m ds cs s t lt lt' h =
    let (m', e, placed) = append_at-Placed fuel (dest + length ds) src m cs t lt' h in
    (
      m',
      rw (end_of_lem fuel dest m ds s lt, strcat) e,
      IsString-append m m' dest ds cs s (λ b below. placed.elsewhere b (inl below)) placed.text,
      placed.elsewhere,
    )
