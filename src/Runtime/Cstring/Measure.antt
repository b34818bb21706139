-- ===== src/Runtime/Cstring/Measure.antt =====
-- strlen and strnlen of kernel/lib/string.c.
use re_xvapor.Base.{
  ℕ, zero, suc, ◌+◌, ◌<◌, ◌≡◌, ◌∙◌, ap, false, List, [], ◌∷◌, length, min, some, ◌==◌, arith,
}
use re_xvapor.Runtime.Cstring.{strlen, strlen_from, strnlen, strnlen_from, end_of}
use re_xvapor.Runtime.Cstring.Layout.{IsString}

strlen_from_lem :
    (fuel n s : ℕ) (m : ℕ → ℕ) (cs : List ℕ)
    → IsString m (s + n) cs
    → length cs < fuel
    → strlen_from fuel n s m ≡ some (n + length cs)
unfolding strlen_from
strlen_from_lem zero n s m cs h lt = absurd (omega arith)
strlen_from_lem (suc fuel) n s m [] h lt = rw (h, strlen_from) (ap some (omega arith))
strlen_from_lem (suc fuel) n s m (c ∷ cs) h lt =
    let go : (m (s + n) == 0) ≡ false = ground (arith, h.0, h.1) in
    let next : s + (n + 1) ≡ s + n + 1 = omega arith in
    rw (go, strlen_from)
      (strlen_from_lem fuel (n + 1) s m cs (rw next h.2) (omega arith) ∙ ap some (omega arith))

-- With more fuel than its length, strlen of a string ends with its length.
pub strlen_lem :
    (fuel s : ℕ) (m : ℕ → ℕ) (cs : List ℕ)
    → IsString m s cs
    → length cs < fuel
    → strlen fuel s m ≡ some (length cs)
unfolding strlen
strlen_lem fuel s m cs h lt =
    let start : s + 0 ≡ s = omega arith in
    strlen_from_lem fuel 0 s m cs (rw start h) lt ∙ ap some (omega arith)

strnlen_from_lem :
    (count sc : ℕ) (m : ℕ → ℕ) (cs : List ℕ)
    → IsString m sc cs
    → strnlen_from count sc m ≡ sc + min count (length cs)
unfolding strnlen_from
strnlen_from_lem zero sc m cs h = omega arith
strnlen_from_lem (suc count) sc m [] h = rw (h, strnlen_from) (omega arith)
strnlen_from_lem (suc count) sc m (c ∷ cs) h =
    let go : (m sc == 0) ≡ false = ground (arith, h.0, h.1) in
    rw (go, strnlen_from) (strnlen_from_lem count (sc + 1) m cs h.2 ∙ omega arith)

-- strnlen of a string is its length, or the limit if that is less.
pub strnlen_lem :
    (s count : ℕ) (m : ℕ → ℕ) (cs : List ℕ)
    → IsString m s cs
    → strnlen s count m ≡ min count (length cs)
unfolding strnlen
strnlen_lem s count m cs h = omega (arith, strnlen_from_lem count s m cs h)

pub end_of_lem :
    (fuel p : ℕ) (m : ℕ → ℕ) (cs : List ℕ)
    → IsString m p cs
    → length cs < fuel
    → end_of fuel p m ≡ some (p + length cs)
unfolding end_of
end_of_lem zero p m cs h lt = absurd (omega arith)
end_of_lem (suc fuel) p m [] h lt = rw (h, end_of) (ap some (omega arith))
end_of_lem (suc fuel) p m (c ∷ cs) h lt =
    let go : (m p == 0) ≡ false = ground (arith, h.0, h.1) in
    rw (go, end_of) (end_of_lem fuel (p + 1) m cs h.2 (omega arith) ∙ ap some (omega arith))
