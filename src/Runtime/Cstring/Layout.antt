-- ===== src/Runtime/Cstring/Layout.antt =====
-- Strings in memory: the bytes before the NUL as a list.
use re_xvapor.Base.{
  ℕ, ◌+◌, ◌≤◌, ◌<◌, ◌≡◌, ◌≢◌, ◌∙◌, List, [], ◌∷◌, length, update, update_ne, arith, ◌⊎◌,
}

-- `m` holds the bytes `cs` and then a NUL from `a` on.
abbrev pub IsString : (ℕ → ℕ) → ℕ → List ℕ → Type 0
IsString m a [] = m a ≡ 0
IsString m a (c ∷ cs) = (m a ≡ c) × (c ≢ 0) × IsString m (a + 1) cs

-- Two memories agree from `a` on for the string and its NUL.
pub IsString-same :
    (m m' : ℕ → ℕ) (a : ℕ) (cs : List ℕ)
    → ((b : ℕ) → a ≤ b → b ≤ a + length cs → m' b ≡ m b)
    → IsString m a cs
    → IsString m' a cs
IsString-same m m' a [] same h = same a (omega arith) (omega arith) ∙ h
IsString-same m m' a (c ∷ cs) same h = (
  same a (omega arith) (omega arith) ∙ h.0,
  h.1,
  IsString-same m m' (a + 1) cs (λ b low high. same b (omega arith) (omega arith)) h.2,
)

-- A store outside the string leaves it.
pub IsString-update :
    (m : ℕ → ℕ) (p v a : ℕ) (cs : List ℕ)
    → (p < a) ⊎ (a + length cs < p)
    → IsString m a cs
    → IsString (update m p v) a cs
IsString-update m p v a cs away h =
    IsString-same m (update m p v) a cs (λ b low high. update_ne m p b v (ground arith)) h
