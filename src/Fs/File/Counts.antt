-- ===== src/Fs/File/Counts.antt =====
-- The reference counts of the file table (fs/file.c) count the handles that callers hold.
use re_xvapor.Base.{
  ℕ, ◌+◌, ◌-◌, ◌^◌, ◌<◌, Bool, ◌≡◌, ◌≢◌, refl, sym, ◌∙◌, ap, subst, true, Bool-cases, Option, none,
  some, List, [], ◌++◌, update, update_self, ◌==◌, ==→eq, ==→ne, if◌then◌else◌, arith, inl, inr,
}
use re_xvapor.Fs.File.{
  File, Ftable, Call, opens, opened, closed, filealloc, filedup, close_calls, pipe_calls, fileclose,
}
use re_xvapor.Fs.File.Slots.{
  filealloc_lem, filedup_lem, close_more, close_last, some_parts, fileclose_lem, fileclose-negative,
  fileclose-fits, counted_off_lem, counted_off,
}

-- The table with the number of handles on each slot.
pub record System : Type 0 where
  pub ft : Ftable
  pub held : ℕ → ℕ

pub data Step (fs : Option (ℕ × ℕ)) (y y' : System) : Type 0 where
  allocates :
      (i : ℕ) (ft : Ftable)
      → filealloc fs y.ft ≡ opens i ft
      → y' ≡ record { ft = ft; held = update y.held i 1 }
      → Step fs y y'
  duplicates :
      (i : ℕ) (ft : Ftable)
      → 0 < y.held i
      → y.held i < 2 ^ 31 - 1
      → filedup i y.ft ≡ some ft
      → y' ≡ record { ft = ft; held = update y.held i (y.held i + 1) }
      → Step fs y y'
  -- By a process with `cnt` open files; `drop` asks to count one of them off.
  closes :
      (i cnt cnt' : ℕ) (drop : Bool) (ft : Ftable) (calls : List Call)
      → 0 < y.held i
      → fileclose i drop cnt y.ft ≡ some (cnt', ft, calls)
      → y' ≡ record { ft = ft; held = update y.held i (y.held i - 1) }
      → Step fs y y'
  -- A holder stores to other fields.
  stores :
      (i : ℕ) (f : File)
      → 0 < y.held i
      → f.ref ≡ (y.ft i).ref
      → y' ≡ record { ft = update y.ft i f; held = y.held }
      → Step fs y y'

pub data Reach (fs : Option (ℕ × ℕ)) (ft : Ftable) : System → Type 0 where
  starts : Reach fs ft (record { ft = ft; held = λ i. 0 })
  steps : (y y' : System) → Reach fs ft y → Step fs y y' → Reach fs ft y'

pub record IsCounted (y : System) : Type 0 where
  pub counts : (i : ℕ) → (y.ft i).ref ≡ y.held i
  pub fits : (i : ℕ) → y.held i < 2 ^ 31

-- A store to slot `i` with the new count.
set-IsCounted :
    (i n : ℕ) (f : File) (y : System)
    → IsCounted y
    → f.ref ≡ n
    → n < 2 ^ 31
    → IsCounted (record { ft = update y.ft i f; held = update y.held i n })
set-IsCounted i n f y h e low = record {
  counts = λ j. elim (Bool-cases (i == j)) [ inl at ↦ rw at e | inr ne ↦ rw ne (h.counts j) ];
  fits = λ j. elim (Bool-cases (i == j)) [ inl at ↦ rw at low | inr ne ↦ rw ne (h.fits j) ];
}

some_table : (a b : Ftable) → some a ≡ some b → a ≡ b
some_table a b e = cc e

-- The next state, with the table that a call left.
moved-IsCounted :
    (i n : ℕ) (f : File) (ft : Ftable) (y y' : System)
    → IsCounted y
    → f.ref ≡ n
    → n < 2 ^ 31
    → update y.ft i f ≡ ft
    → y' ≡ record { ft = ft; held = update y.held i n }
    → IsCounted y'
moved-IsCounted i n f ft y y' h e low same next =
    subst IsCounted
      (ap (λ (t : Ftable). record { ft = t; held = update y.held i n }) same ∙ sym next)
      (set-IsCounted i n f y h e low)

Step-IsCounted : (fs : Option (ℕ × ℕ)) (y y' : System) → IsCounted y → Step fs y y' → IsCounted y'
Step-IsCounted fs y y' h (allocates i ft e next) =
    let (z, (ops, e')) = filealloc_lem fs i y.ft ft e in
    moved-IsCounted i 1 (opened ops (y.ft i)) ft y y' h refl (omega arith) (sym e') next
Step-IsCounted fs y y' h (duplicates i ft held fits e next) =
    moved-IsCounted i (y.held i + 1) (record (y.ft i) { ref = y.held i + 1 }) ft y y' h refl
      (omega arith)
      (some_table _ ft (sym (filedup_lem i (y.held i) y.ft (h.counts i) held (h.fits i)) ∙ e)) next
Step-IsCounted fs y y' h (closes i cnt cnt' drop ft calls held e next) =
    let low = fileclose-fits i cnt cnt' drop y.ft ft calls e in
    elim (Bool-cases (y.held i == 1)) [
      | inl one ↦
          let none_left : 0 ≡ y.held i - 1 = omega (arith, ==→eq _ _ one) in
          moved-IsCounted i (y.held i - 1) (closed (y.ft i)) ft y y' h none_left (omega arith)
            (some_parts _ cnt' _ ft _ calls (
              sym (
                fileclose_lem i cnt drop y.ft _ _ low
                  (close_last i (y.held i) y.ft (h.counts i) held (h.fits i) (==→eq _ _ one)))
              ∙ e))
            next
      | inr more ↦
          moved-IsCounted i (y.held i - 1) (record (y.ft i) { ref = y.held i - 1 }) ft y y' h refl
            (omega (arith, h.fits i))
            (some_parts _ cnt' _ ft _ calls (
              sym (
                fileclose_lem i cnt drop y.ft _ _ low (
                  close_more i (y.held i) y.ft (h.counts i) held (h.fits i)
                    (omega (arith, ==→ne _ _ more))))
              ∙ e))
            next
    ]
Step-IsCounted fs y y' h (stores i f held same next) = subst IsCounted (sym next) (record {
  counts = λ j. elim (Bool-cases (i == j)) [
    | inl at ↦ rw at (same ∙ (h.counts i ∙ ap y.held (==→eq i j at)))
    | inr ne ↦ rw ne (h.counts j)
  ];
  fits = h.fits;
})

module _ (fs : Option (ℕ × ℕ)) (ft : Ftable) (empty : (i : ℕ) → (ft i).ref ≡ 0) where
  Reach-IsCounted : (y : System) → Reach fs ft y → IsCounted y
  Reach-IsCounted y starts = record { counts = empty; fits = λ i. omega arith }
  Reach-IsCounted y (steps x z r s) = Step-IsCounted fs x z (Reach-IsCounted x r) s

  -- Through any run of filealloc, and of filedup, fileclose and stores to other fields by holders,
  -- from a table with no references: filealloc opens no slot that has a handle, and filedup does not
  -- panic on a slot with one. Nor does fileclose where the process's count of open files is not
  -- negative, and not 0 if one is to be counted off; it then counts it off, makes no call while
  -- another handle is left, and for the last one makes those that the slot asks for and frees the
  -- slot. To count one off from 0 panics.
  pub Reach-handles :
      (y : System)
      → Reach fs ft y
      → ((i : ℕ) (ft' : Ftable) → filealloc fs y.ft ≡ opens i ft' → y.held i ≡ 0)
        × ((i : ℕ) → 0 < y.held i → filedup i y.ft ≢ none)
        × ((i cnt : ℕ) (drop : Bool)
            → cnt < 2 ^ 31
            → (drop ≡ true → 0 < cnt)
            → (1 < y.held i
                → (ft' : Ftable) × (fileclose i drop cnt y.ft
                    ≡ some (cnt - (if drop then 1 else 0), ft', []))
                  × ((ft' i).ref ≡ y.held i - 1))
              × (y.held i ≡ 1
                  → (ft' : Ftable) × (fileclose i drop cnt y.ft
                      ≡ some (
                        cnt - (if drop then 1 else 0),
                        ft',
                        close_calls i (y.ft i) ++ pipe_calls (y.ft i),
                      ))
                    × ((ft' i).ref ≡ 0)))
        × ((i : ℕ) → fileclose i true 0 y.ft ≡ none)
  Reach-handles y r =
      let h = Reach-IsCounted y r in
      (
        (λ i ft' e. sym (h.counts i) ∙ (filealloc_lem fs i y.ft ft' e).0),
        (λ i held e.
            table_some _ (sym (filedup_lem i (y.held i) y.ft (h.counts i) held (h.fits i)) ∙ e)),
        (λ i cnt drop low some_left.
            let off = counted_off_lem cnt drop low some_left in
            let fits : counted_off drop cnt < 2 ^ 31 = rw off (omega (arith, low)) in
            (
              (λ more.
                  let f = record (y.ft i) { ref = y.held i - 1 } in
                  (
                    update y.ft i f,
                    subst (λ (k : ℕ). fileclose i drop cnt y.ft ≡ some (k, update y.ft i f, [])) off
                        (fileclose_lem i cnt drop y.ft _ _ fits (
                          close_more i (y.held i) y.ft (h.counts i) (omega arith) (h.fits i) more)),
                    ap (λ (g : File). g.ref) (update_self y.ft i f),
                  )),
              (λ one.
                  let ft' = update y.ft i (closed (y.ft i)) in
                  let calls = close_calls i (y.ft i) ++ pipe_calls (y.ft i) in
                  (
                    ft',
                    subst (λ (k : ℕ). fileclose i drop cnt y.ft ≡ some (k, ft', calls)) off
                        (fileclose_lem i cnt drop y.ft _ _ fits (
                          close_last i (y.held i) y.ft (h.counts i) (omega (arith, one)) (h.fits i)
                            one)),
                    ap (λ (g : File). g.ref) (update_self y.ft i (closed (y.ft i))),
                  )),
            )),
        (λ i. fileclose-negative i 0 true y.ft (omega arith)),
      )
    where
      table_some : (t : Ftable) → some t ≡ none → ⊥
      table_some t e = cc e
