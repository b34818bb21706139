-- ===== src/Runtime/Cstring/Tests.antt =====
-- Two strings in memory, "ab" at 10 and "abc" at 20, and the theorems at them.
use re_xvapor.Base.{
  ℕ, ◌+◌, ◌≤◌, ◌<◌, ◌≡◌, refl, List, [], ◌∷◌, ◌++◌, map, take, min, some, arith, inr, ◌⊎◌, ◌↔◌,
  update,
}
use re_xvapor.Runtime.Bytes.{pos, negsuc, fill, memmove}
use re_xvapor.Runtime.Cstring.{
  strlen, strnlen, strncpy, strncpy_from, safestrcpy, safestrcpy_from, strcpy, strcat, strcmp,
  strncmp, substr_cmp,
}
use re_xvapor.Runtime.Cstring.Layout.{IsString}
use re_xvapor.Runtime.Cstring.Measure.{strlen_lem, strnlen_lem}
use re_xvapor.Runtime.Cstring.Copying.{strcpy-memmove, strcat-IsString, safestrcpy-Placed, Placed}
use re_xvapor.Runtime.Cstring.Compare.{order, strcmp-order, strncmp-order}

abbrev ab : List ℕ
ab = 97 ∷ 98 ∷ []

abbrev abc : List ℕ
abc = 97 ∷ 98 ∷ 99 ∷ []

abbrev memory : ℕ → ℕ
memory =
    update
      (update (update (update (update (update (update (λ a. 7) 10 97) 11 98) 12 0) 20 97) 21 98) 22
        99)
      23 0

ab-IsString : IsString memory 10 ab
ab-IsString = (refl, omega arith, (refl, omega arith, refl))

abc-IsString : IsString memory 20 abc
abc-IsString = (refl, omega arith, (refl, omega arith, (refl, omega arith, refl)))

pads : map (strncpy 30 10 (pos 4) memory) (30 ∷ 31 ∷ 32 ∷ 33 ∷ 34 ∷ []) ≡ 97 ∷ 98 ∷ 0 ∷ 0 ∷ 7 ∷ []
unfolding strncpy strncpy_from fill
pads = refl

-- No NUL when the string fills the bytes.
fills : map (strncpy 30 10 (pos 2) memory) (30 ∷ 31 ∷ 32 ∷ []) ≡ 97 ∷ 98 ∷ 7 ∷ []
unfolding strncpy strncpy_from fill
fills = refl

truncates : map (safestrcpy 30 20 (pos 3) memory) (30 ∷ 31 ∷ 32 ∷ 33 ∷ []) ≡ 97 ∷ 98 ∷ 0 ∷ 7 ∷ []
unfolding safestrcpy safestrcpy_from
truncates = refl

-- A middle part is no substring to substr_cmp.
middle : substr_cmp 9 21 20 memory ≡ some (negsuc 0)
unfolding substr_cmp
middle = refl

measures : strlen 4 20 memory ≡ some 3
measures = strlen_lem 4 20 memory abc abc-IsString (omega arith)

measures_bounded : strnlen 20 2 memory ≡ min 2 3
measures_bounded = strnlen_lem 20 2 memory abc abc-IsString

copies_whole : strcpy 5 30 20 memory ≡ some (memmove 30 20 4 memory)
copies_whole = strcpy-memmove 5 30 20 memory abc abc-IsString (omega arith) (inr (omega arith))

strcat-IsString_example :
    (m' : ℕ → ℕ) × (strcat 5 20 10 memory ≡ some m')
    × IsString m' 20 (abc ++ ab)
    × ((a : ℕ) → (a < 20 + 3) ⊎ (20 + 3 + 3 ≤ a) → m' a ≡ memory a)
strcat-IsString_example =
    strcat-IsString 5 20 10 memory abc ab abc-IsString ab-IsString (omega arith) (omega arith)
      (inr (omega arith))

strcmp-order_example :
    (strcmp 9 10 20 memory ≡ some (order ab abc)) × ((order ab abc ≡ pos 0) ↔ (ab ≡ abc))
strcmp-order_example = strcmp-order 9 10 20 memory ab abc ab-IsString abc-IsString (omega arith)

compares_bounded : strncmp 10 20 2 memory ≡ order (take 2 ab) (take 2 abc)
compares_bounded = strncmp-order 2 10 20 memory ab abc ab-IsString abc-IsString

safestrcpy-Placed_example : Placed memory (safestrcpy 30 20 (pos 3) memory) 30 3 ab
safestrcpy-Placed_example = safestrcpy-Placed 30 20 2 memory abc abc-IsString (inr (omega arith))
