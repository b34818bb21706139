-- ===== src/Runtime/Bytes/Tests.antt =====
-- Moves of four bytes within eight, both ways across an overlap, and the theorems at them.
use re_xvapor.Base.{ℕ, ◌+◌, ◌-◌, ◌%◌, ◌≡◌, refl, List, [], ◌∷◌, map, if◌then◌else◌}
use re_xvapor.Runtime.Bytes.{negsuc, difference, memset, fill, memcmp, memmove, copy_up, copy_down}
use re_xvapor.Runtime.Bytes.Copy.{within, memset_lem, memmove_lem, Compared, memcmp-Compared}

-- Byte `a` holds a.
abbrev counting : ℕ → ℕ
counting a = a

abbrev eight : List ℕ
eight = 0 ∷ 1 ∷ 2 ∷ 3 ∷ 4 ∷ 5 ∷ 6 ∷ 7 ∷ []

moves_up : map (memmove 2 0 4 counting) eight ≡ 0 ∷ 1 ∷ 0 ∷ 1 ∷ 2 ∷ 3 ∷ 6 ∷ 7 ∷ []
unfolding memmove copy_up copy_down
moves_up = refl

moves_down : map (memmove 0 2 4 counting) eight ≡ 2 ∷ 3 ∷ 4 ∷ 5 ∷ 4 ∷ 5 ∷ 6 ∷ 7 ∷ []
unfolding memmove copy_up copy_down
moves_down = refl

sets_low_byte : map (memset 1 257 3 counting) eight ≡ 0 ∷ 1 ∷ 1 ∷ 1 ∷ 4 ∷ 5 ∷ 6 ∷ 7 ∷ []
unfolding memset fill
sets_low_byte = refl

first_difference : memcmp 2 4 3 counting ≡ negsuc 1
unfolding memcmp difference
first_difference = refl

sets_inside : memset 1 257 3 counting 2 ≡ (if within 1 3 2 then 257 % 256 else counting 2)
sets_inside = memset_lem 1 257 3 counting 2

memmove_lem_example :
    memmove 2 0 4 counting 3 ≡ (if within 2 4 3 then counting (0 + (3 - 2)) else counting 3)
memmove_lem_example = memmove_lem 2 0 4 counting 3

finds_difference : Compared counting 2 4 3 (memcmp 2 4 3 counting)
finds_difference = memcmp-Compared 2 4 3 counting
