-- ===== src/Fs/File/Slots.antt =====
-- What filealloc, filedup and fileclose (fs/file.c) do with a slot of the table, by its references.
use re_xvapor.Base.{
  ℕ, zero, suc, ◌+◌, ◌-◌, ◌%◌, ◌^◌, ◌<◌, ◌≤◌, Bool, ◌≡◌, refl, sym, ◌∙◌, ap, subst, true, false,
  Bool-cases, ◌&&◌, Option, none, some, List, [], ◌++◌, update, ltb, leb, ◌==◌, ==→eq,
  if◌then◌else◌, arith, inl, inr,
}
use re_xvapor.Fs.File.{
  Ftable, Call, opens, no_fs, opened, closed, unreferenced, nfile, alloc_from, filealloc, filedup,
  close_calls, pipe_calls, close_slot, fileclose,
}

module _ (n j : ℕ) (ft : Ftable) where
  alloc_hit :
      (ops : ℕ × ℕ)
      → ((ft j).ref == 0) ≡ true
      → alloc_from (some ops) (suc n) j ft ≡ opens j (update ft j (opened ops (ft j)))
  unfolding alloc_from
  alloc_hit ops e = rw e refl

  alloc_no_fs : ((ft j).ref == 0) ≡ true → alloc_from none (suc n) j ft ≡ no_fs
  unfolding alloc_from
  alloc_no_fs e = rw e refl

  alloc_skip :
      (fs : Option (ℕ × ℕ))
      → ((ft j).ref == 0) ≡ false
      → alloc_from fs (suc n) j ft ≡ alloc_from fs n (j + 1) ft
  unfolding alloc_from
  alloc_skip fs e = rw e refl

same_slot : (i j : ℕ) (a b : Ftable) → opens i a ≡ opens j b → i ≡ j
same_slot i j a b e = cc e

same_table : (i j : ℕ) (a b : Ftable) → opens i a ≡ opens j b → a ≡ b
same_table i j a b e = cc e

-- filealloc finds a slot with no reference, and opens it.
alloc_from_lem :
    (fs : Option (ℕ × ℕ)) (n j i : ℕ) (ft ft' : Ftable)
    → alloc_from fs n j ft ≡ opens i ft'
    → ((ft i).ref ≡ 0) × ((ops : ℕ × ℕ) × (ft' ≡ update ft i (opened ops (ft i))))
unfolding alloc_from
alloc_from_lem fs zero j i ft ft' e = cc e
alloc_from_lem none (suc n) j i ft ft' e = elim (Bool-cases ((ft j).ref == 0)) [
  | inl z ↦ cc (sym (alloc_no_fs n j ft z) ∙ e)
  | inr z ↦ alloc_from_lem none n (j + 1) i ft ft' (sym (alloc_skip n j ft none z) ∙ e)
]
alloc_from_lem (some ops) (suc n) j i ft ft' e = elim (Bool-cases ((ft j).ref == 0)) [
  | inl z ↦
      let hit = sym (alloc_hit n j ft ops z) ∙ e in
      let at : j ≡ i = same_slot j i _ ft' hit in
      (
        subst (λ (k : ℕ). (ft k).ref ≡ 0) at (==→eq _ _ z),
        (ops, sym (same_table j i _ ft' hit) ∙ ap (λ (k : ℕ). update ft k (opened ops (ft k))) at),
      )
  | inr z ↦ alloc_from_lem (some ops) n (j + 1) i ft ft' (sym (alloc_skip n j ft (some ops) z) ∙ e)
]

pub filealloc_lem :
    (fs : Option (ℕ × ℕ)) (i : ℕ) (ft ft' : Ftable)
    → filealloc fs ft ≡ opens i ft'
    → ((ft i).ref ≡ 0) × ((ops : ℕ × ℕ) × (ft' ≡ update ft i (opened ops (ft i))))
unfolding filealloc
filealloc_lem fs i ft ft' e = alloc_from_lem fs nfile 0 i ft ft' e

-- On a slot with `n` references.
module _ (i n : ℕ) (ft : Ftable) (is : (ft i).ref ≡ n) (held : 0 < n) (fits : n < 2 ^ 31) where
  referenced : unreferenced (ft i).ref ≡ false
  referenced = rw is (ground arith)

  pub filedup_lem : filedup i ft ≡ some (update ft i (record (ft i) { ref = n + 1 }))
  unfolding filedup
  filedup_lem =
      let next : ((ft i).ref + 1) % 2 ^ 32 ≡ n + 1 = omega (arith, is) in rw (referenced, next) refl

  left : ((ft i).ref + (2 ^ 32 - 1)) % 2 ^ 32 ≡ n - 1
  left = omega (arith, is)

  pub close_more : 1 < n → close_slot i ft ≡ some (update ft i (record (ft i) { ref = n - 1 }), [])
  unfolding close_slot
  close_more more =
      let stays : (ltb 0 (n - 1) && ltb (n - 1) (2 ^ 31)) ≡ true = ground arith in
      rw (referenced, left, stays) refl

  pub close_last :
      n ≡ 1
      → close_slot i ft
        ≡ some (update ft i (closed (ft i)), close_calls i (ft i) ++ pipe_calls (ft i))
  unfolding close_slot
  close_last one =
      let ends : (ltb 0 (n - 1) && ltb (n - 1) (2 ^ 31)) ≡ false = ground (arith, one) in
      rw (referenced, left, ends) refl

abbrev pub Closing : Type 0
Closing = Option (ℕ × Ftable × List Call)

pub some_parts :
    (m n : ℕ) (a b : Ftable) (c d : List Call)
    → ◌≡◌ {A = Closing} (some (m, a, c)) (some (n, b, d))
    → a ≡ b
some_parts m n a b c d e = cc e

-- The count of open files that fileclose leaves: one less where it is asked for, an int.
abbrev pub counted_off : Bool → ℕ → ℕ
counted_off drop cnt = if drop then (cnt + (2 ^ 32 - 1)) % 2 ^ 32 else cnt

-- fileclose on a slot that can be closed, with a count of open files that stays an int above -1.
pub fileclose_lem :
    (i cnt : ℕ) (drop : Bool) (ft ft' : Ftable) (calls : List Call)
    → counted_off drop cnt < 2 ^ 31
    → close_slot i ft ≡ some (ft', calls)
    → fileclose i drop cnt ft ≡ some (counted_off drop cnt, ft', calls)
unfolding fileclose
fileclose_lem i cnt drop ft ft' calls low e =
    let fits : leb (2 ^ 31) (counted_off drop cnt) ≡ false = ground (arith, low) in
    rw (fits, e) refl

pub fileclose-negative :
    (i cnt : ℕ) (drop : Bool) (ft : Ftable)
    → 2 ^ 31 ≤ counted_off drop cnt
    → fileclose i drop cnt ft ≡ none
unfolding fileclose
fileclose-negative i cnt drop ft high =
    let over : leb (2 ^ 31) (counted_off drop cnt) ≡ true = ground (arith, high) in rw over refl

-- A close that returns had a count in range.
pub fileclose-fits :
    (i cnt cnt' : ℕ) (drop : Bool) (ft ft' : Ftable) (calls : List Call)
    → fileclose i drop cnt ft ≡ some (cnt', ft', calls)
    → counted_off drop cnt < 2 ^ 31
fileclose-fits i cnt cnt' drop ft ft' calls e =
    elim (Bool-cases (ltb (counted_off drop cnt) (2 ^ 31))) [
      | inl low ↦ ground (arith, low)
      | inr high ↦ cc (sym (fileclose-negative i cnt drop ft (ground (arith, high))) ∙ e)
    ]

-- counted_off of a count of which one can be taken.
pub counted_off_lem :
    (cnt : ℕ) (drop : Bool)
    → cnt < 2 ^ 31
    → (drop ≡ true → 0 < cnt)
    → counted_off drop cnt ≡ cnt - (if drop then 1 else 0)
counted_off_lem cnt true low some_left = let more = some_left refl in omega (arith, more, low)
counted_off_lem cnt false low some_left = omega arith
