-- ===== src/Base/Memory.antt =====
-- A memory is a function from addresses (or block numbers, or array indices) to contents.
use Prim.Native.Nat.{ℕ}
use mathlib.Core.Path.{◌≡◌, fun_ext}
use mathlib.Core.Logic.{◌≢◌}
use native.Mathlib.Omega.{arith}
use re_xvapor.Base.Tests.{◌==◌, if◌then◌else◌}

-- The memory with `v` stored at `p`.
abbrev pub update {ℓ} : {A : Type ℓ} → (ℕ → A) → ℕ → A → ℕ → A
update m p v q = if p == q then v else m q

module _ {ℓ} {A : Type ℓ} where
  pub update_self : (m : ℕ → A) (p : ℕ) (v : A) → update m p v p ≡ v
  update_self m p v = ground arith

  pub update_eq : (m : ℕ → A) (p q : ℕ) (v : A) → p ≡ q → update m p v q ≡ v
  update_eq m p q v h = ground arith

  pub update_ne : (m : ℕ → A) (p q : ℕ) (v : A) → p ≢ q → update m p v q ≡ m q
  update_ne m p q v h = ground arith

  pub update-update : (m : ℕ → A) (p : ℕ) (v w : A) → update (update m p v) p w ≡ update m p w
  update-update m p v w = fun_ext λ q. ground arith
