-- ===== src/Fs/Xv6/Free.antt =====
-- How many blocks of an fs/xv6fs.c volume are free, and what balloc takes of them.
use re_xvapor.Base.{
  ℕ, zero, suc, ◌+◌, ◌≤◌, ◌<◌, ◌≡◌, refl, sym, ◌∙◌, subst, Bool, true, false, ◌||◌, or-true,
  or-false, Bool-cases, ◌==◌, if◌then◌else◌, arith, inl, inr,
}
use re_xvapor.Fs.Xv6.{Volume, Superblock}
use re_xvapor.Fs.Xv6.Bitmap.{used}
use re_xvapor.Fs.Xv6.Blocks.{Allocated}

pub free_below : ℕ → Volume → ℕ
free_below zero v = 0
free_below (suc n) v = free_below n v + (if used v n then 0 else 1)

abbrev pub free : Volume → ℕ
free v = free_below v.sb.size v

pub free_same :
    (n : ℕ) (v v' : Volume)
    → ((c : ℕ) → c < n → used v' c ≡ used v c)
    → free_below n v' ≡ free_below n v
unfolding free_below
free_same zero v v' e = refl
free_same (suc n) v v' e = rw (free_same n v v' (λ c lo. e c (omega arith)), e n (omega arith)) refl

-- With one block marked there is one less, at most.
free_marked :
    (n : ℕ) (v v' : Volume) (k : ℕ)
    → ((c : ℕ) → c < n → used v' c ≡ (used v c || k == c))
    → free_below n v ≤ free_below n v' + 1
unfolding free_below
free_marked zero v v' k e = omega arith
free_marked (suc n) v v' k e = elim (Bool-cases (k == n)) [
  | inl this ↦
      let below : free_below n v' ≡ free_below n v = free_same n v v' (λ c lo.
        let other : (k == c) ≡ false = ground (arith, this, lo) in
        e c (omega arith) ∙ rw other (or-false (used v c))) in
      let now : used v' n ≡ true = e n (omega arith) ∙ rw this (or-true (used v n)) in
      rw (below, now) (at_most (used v n) (free_below n v))
  | inr other ↦
      let rest = free_marked n v v' k (λ c lo. e c (omega arith)) in
      let same : used v' n ≡ used v n = e n (omega arith) ∙ rw other (or-false (used v n)) in
      rw same (plus (used v n) (free_below n v) (free_below n v') rest)
]
  where
    at_most : (b : Bool) (x : ℕ) → x + (if b then 0 else 1) ≤ x + 0 + 1
    at_most true x = omega arith
    at_most false x = omega arith

    plus :
        (b : Bool) (x y : ℕ) → x ≤ y + 1 → x + (if b then 0 else 1) ≤ y + (if b then 0 else 1) + 1
    plus true x y h = omega arith
    plus false x y h = omega arith

none_below : (n : ℕ) (v : Volume) → ((c : ℕ) → c < n → used v c ≡ true) → free_below n v ≡ 0
unfolding free_below
none_below zero v all = refl
none_below (suc n) v all =
    rw (none_below n v (λ c lo. all c (omega arith)), all n (omega arith)) refl

pub none_free-free : (v : Volume) → ((c : ℕ) → c < v.sb.size → used v c ≡ true) → free v ≡ 0
none_free-free v all = none_below v.sb.size v all

pub Allocated-free : (v : Volume) (k : ℕ) (v' : Volume) → Allocated v k v' → free v ≤ free v' + 1
Allocated-free v k v' al =
    subst (λ (s : Superblock). free v ≤ free_below s.size v' + 1) (sym al.same_sb)
      (free_marked v.sb.size v v' k al.marked)
