-- ===== src/Base/Lists.antt =====
-- Lists measured and cut by native numbers, under the library's names, and the membership
-- predicates that the components state their invariants with.
use Prim.Native.Nat.{ℕ, zero, suc, ◌+◌, ◌-◌, min}
use mathlib.Core.Path.{◌≡◌, refl, ap, sym, subst}
use mathlib.Core.Logic.{◌≢◌, ◌⊎◌, inl, inr}
use mathlib.Core.List.{List, [], ◌∷◌, ◌++◌}
use native.Mathlib.Omega.{arith}

module _ {ℓ} {A : Type ℓ} where
  abbrev pub length : List A → ℕ
  length [] = 0
  length (x ∷ xs) = suc (length xs)

  abbrev pub take : ℕ → List A → List A
  take zero xs = []
  take (suc n) [] = []
  take (suc n) (x ∷ xs) = x ∷ take n xs

  abbrev pub drop : ℕ → List A → List A
  drop zero xs = xs
  drop (suc n) [] = []
  drop (suc n) (x ∷ xs) = drop n xs

  pub length-append : (xs ys : List A) → length (xs ++ ys) ≡ length xs + length ys
  length-append [] ys = omega arith
  length-append (x ∷ xs) ys = omega (arith, length-append xs ys)

  pub length-take : (n : ℕ) (xs : List A) → length (take n xs) ≡ min n (length xs)
  length-take zero xs = omega arith
  length-take (suc n) [] = omega arith
  length-take (suc n) (x ∷ xs) = omega (arith, length-take n xs)

  pub length-drop : (n : ℕ) (xs : List A) → length (drop n xs) ≡ length xs - n
  length-drop zero xs = omega arith
  length-drop (suc n) [] = omega arith
  length-drop (suc n) (x ∷ xs) = omega (arith, length-drop n xs)

  pub take-append-drop : (n : ℕ) (xs : List A) → take n xs ++ drop n xs ≡ xs
  take-append-drop zero xs = refl
  take-append-drop (suc n) [] = refl
  take-append-drop (suc n) (x ∷ xs) = ap (◌∷◌ x) (take-append-drop n xs)

-- The empty type, at every level.
pub data LiftedEmpty {ℓ} : Type ℓ where

-- `P` holds of each element.
abbrev pub All {ℓ κ} : {A : Type ℓ} → (A → Type κ) → List A → Type κ
All P [] = Unit
All P (x ∷ xs) = P x × All P xs

-- `x` is none of the numbers of the list.
abbrev pub NotIn : ℕ → List ℕ → Type 0
NotIn x [] = Unit
NotIn x (y ∷ ys) = (x ≢ y) × NotIn x ys

-- No number of the list occurs twice.
abbrev pub Distinct : List ℕ → Type 0
Distinct [] = Unit
Distinct (x ∷ xs) = NotIn x xs × Distinct xs

pub NotIn-append : (q : ℕ) (xs ys : List ℕ) → NotIn q xs → NotIn q ys → NotIn q (xs ++ ys)
NotIn-append q [] ys h k = k
NotIn-append q (x ∷ xs) ys h k = (h.0, NotIn-append q xs ys h.1 k)

pub NotIn-append_left : (q : ℕ) (xs ys : List ℕ) → NotIn q (xs ++ ys) → NotIn q xs
NotIn-append_left q [] ys h = tt
NotIn-append_left q (x ∷ xs) ys h = (h.0, NotIn-append_left q xs ys h.1)

pub NotIn-append_right : (q : ℕ) (xs ys : List ℕ) → NotIn q (xs ++ ys) → NotIn q ys
NotIn-append_right q [] ys h = h
NotIn-append_right q (x ∷ xs) ys h = NotIn-append_right q xs ys h.1

-- Taking one element out of the middle.
pub NotIn-without : (q p : ℕ) (xs ys : List ℕ) → NotIn q (xs ++ p ∷ ys) → NotIn q (xs ++ ys)
NotIn-without q p xs ys h =
    NotIn-append q xs ys (NotIn-append_left q xs (p ∷ ys) h) (NotIn-append_right q xs (p ∷ ys) h).1

pub Distinct-middle :
    (p : ℕ) (xs ys : List ℕ) → Distinct (xs ++ p ∷ ys) → Distinct (xs ++ ys) × NotIn p (xs ++ ys)
Distinct-middle p [] ys h = (h.1, h.0)
Distinct-middle p (x ∷ xs) ys h =
    let rest : Distinct (xs ++ ys) × NotIn p (xs ++ ys) = Distinct-middle p xs ys h.1 in
    let apart : NotIn x (p ∷ ys) = NotIn-append_right x xs (p ∷ ys) h.0 in
    ((NotIn-without x p xs ys h.0, rest.0), ((λ e. apart.0 (sym e)), rest.1))

pub All-append_right {ℓ κ} :
    {A : Type ℓ} (P : A → Type κ) (xs ys : List A) → All P (xs ++ ys) → All P ys
All-append_right P [] ys h = h
All-append_right P (x ∷ xs) ys h = All-append_right P xs ys h.1

pub All-append_left {ℓ κ} :
    {A : Type ℓ} (P : A → Type κ) (xs ys : List A) → All P (xs ++ ys) → All P xs
All-append_left P [] ys h = tt
All-append_left P (x ∷ xs) ys h = (h.0, All-append_left P xs ys h.1)

pub All-append {ℓ κ} :
    {A : Type ℓ} (P : A → Type κ) (xs ys : List A) → All P xs → All P ys → All P (xs ++ ys)
All-append P [] ys h k = k
All-append P (x ∷ xs) ys h k = (h.0, All-append P xs ys h.1 k)

pub All-map {ℓ κ μ} :
    {A : Type ℓ} (P : A → Type κ) (Q : A → Type μ) (xs : List A)
    → ((x : A) → P x → Q x)
    → All P xs
    → All Q xs
All-map P Q [] f h = tt
All-map P Q (x ∷ xs) f h = (f x h.0, All-map P Q xs f h.1)

-- `x` is one of the elements.
abbrev pub Among {ℓ} : {A : Type ℓ} → A → List A → Type ℓ
Among x [] = LiftedEmpty
Among x (y ∷ ys) = (x ≡ y) ⊎ Among x ys

pub All-Among {ℓ κ} :
    {A : Type ℓ} (P : A → Type κ) (x : A) (xs : List A) → All P xs → Among x xs → P x
All-Among P x [] h m = elim m [ ]
All-Among P x (y ∷ ys) h (inl e) = subst P (sym e) h.0
All-Among P x (y ∷ ys) h (inr m) = All-Among P x ys h.1 m

-- An element of a list put at the front, and put back.
pub Among-front : (b c : ℕ) (xs ys : List ℕ) → Among c (xs ++ b ∷ ys) → Among c (b ∷ xs ++ ys)
Among-front b c [] ys m = m
Among-front b c (x ∷ xs) ys (inl e) = inr (inl e)
Among-front b c (x ∷ xs) ys (inr m) = elim (Among-front b c xs ys m) [
  | inl e ↦ inl e
  | inr k ↦ inr (inr k)
]

pub Among-back : (b c : ℕ) (xs ys : List ℕ) → Among c (b ∷ xs ++ ys) → Among c (xs ++ b ∷ ys)
Among-back b c [] ys m = m
Among-back b c (x ∷ xs) ys (inl e) = inr (Among-back b c xs ys (inl e))
Among-back b c (x ∷ xs) ys (inr (inl e)) = inl e
Among-back b c (x ∷ xs) ys (inr (inr m)) = inr (Among-back b c xs ys (inr m))
