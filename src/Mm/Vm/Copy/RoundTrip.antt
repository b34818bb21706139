-- ===== src/Mm/Vm/Copy/RoundTrip.antt =====
-- copyout and then copyin (mm/vm.c) on one range of user addresses.
use re_xvapor.Base.{ℕ, ◌+◌, ◌≤◌, ◌<◌, ◌≡◌, ◌≢◌, refl, ◌∙◌, ap, Bool, true, false, ◌⊎◌}
use re_xvapor.Mm.Kalloc.{Kmem}
use re_xvapor.Mm.Vm.{returns}
use re_xvapor.Mm.Vm.Copy.{Bytes, copyout, copyin}
use re_xvapor.Mm.Vm.Copy.Laws.{phys, Each, frame, copyin-CopiedIn}
use re_xvapor.Mm.Vm.Copy.Outward.{IsTarget, copyout-CopiedOut}

-- Whether all pages are mapped.
module _ (pt va len : ℕ) (s : Kmem) (ok ok' : Bool) where
  same_answer :
      (ok ≡ true → Each va len (λ va'. frame pt s va' ≢ 0))
      → (ok ≡ false → (va' : ℕ) × (va ≤ va') × (va' < va + len) × (frame pt s va' ≡ 0))
      → (ok' ≡ true → Each va len (λ va'. frame pt s va' ≢ 0))
      → (ok' ≡ false → (va' : ℕ) × (va ≤ va') × (va' < va + len) × (frame pt s va' ≡ 0))
      → ok' ≡ ok
  same_answer m f m' f' = by_cases ok ok' m f m' f'
    where
      by_cases :
          (b b' : Bool)
          → (b ≡ true → Each va len (λ va'. frame pt s va' ≢ 0))
          → (b ≡ false → (va' : ℕ) × (va ≤ va') × (va' < va + len) × (frame pt s va' ≡ 0))
          → (b' ≡ true → Each va len (λ va'. frame pt s va' ≢ 0))
          → (b' ≡ false → (va' : ℕ) × (va ≤ va') × (va' < va + len) × (frame pt s va' ≡ 0))
          → b' ≡ b
      by_cases true true m f m' f' = refl
      by_cases false false m f m' f' = refl
      by_cases true false m f m' f' = let (v, lo, hi, z) = f' refl in absurd (m refl v lo hi z)
      by_cases false true m f m' f' = let (v, lo, hi, z) = f refl in absurd (m' refl v lo hi z)

-- For a range of user addresses whose physical bytes are different from each other, from the source
-- and from the destination, copyout to the range and copyin from it both return 0, and the
-- destination has the bytes of the source, or both return -1 and an address of the range has no user
-- page.
pub copyin-copyout :
    (pt va src dst len : ℕ) (b : Bytes) (s : Kmem)
    → IsTarget pt va src len s
    → ((i : ℕ) → i < len → (phys pt s (va + i) < dst) ⊎ (dst + len ≤ phys pt s (va + i)))
    → (ok : Bool) × (b1 : Bytes) × (b2 : Bytes) × (copyout pt va src len b s ≡ returns (ok, b1) s)
      × (copyin pt dst va len b1 s ≡ returns (ok, b2) s)
      × (ok ≡ true → (i : ℕ) → i < len → b2 (dst + i) ≡ b (src + i))
      × (ok ≡ false → (va' : ℕ) × (va ≤ va') × (va' < va + len) × (frame pt s va' ≡ 0))
copyin-copyout pt va src dst len b s h apart =
    let o = copyout-CopiedOut pt va src len b s h in
    let i = copyin-CopiedIn pt dst va len o.bytes s apart in
    let same = same_answer pt va len s o.ok i.ok o.mapped o.failed i.mapped i.failed in
    (
      o.ok,
      o.bytes,
      i.bytes,
      o.runs,
      i.runs ∙ ap (λ (ok : Bool). returns (ok, i.bytes) s) same,
      (λ t j lo. i.copied (same ∙ t) j lo ∙ o.copied t j lo),
      o.failed,
    )
