-- ===== src/Mm/Vm/Tests.antt =====
-- A small address space: three tables and one user page, at the virtual address 4096.
use re_xvapor.Base.{
  ℕ, suc, ◌+◌, ◌-◌, ◌*◌, ◌/◌, ◌%◌, ◌^◌, ◌≤◌, ◌<◌, ◌≡◌, refl, sym, ◌∙◌, ap, Bool, true, false,
  Bool-cases, none, some, [], ◌∷◌, ltb, ◌==◌, ==→eq, if◌then◌else◌, arith, inl, inr, ◌⊎◌,
}
use mathlib.Core.Path.{ap₂}
use re_xvapor.Base.Bits.{bit}
use re_xvapor.Mm.Kalloc.{Kmem, pgsize}
use re_xvapor.Mm.Pte.{is_valid, pte_to_pa, pte_flags, px, vpn, maxva, pg_round_down}
use re_xvapor.Mm.Vm.{returns, slot, walkaddr, mappages}
use re_xvapor.Mm.Vm.Table.{entry, Label, IsTable}
use re_xvapor.Mm.Vm.Map.{Mapped}
use re_xvapor.Mm.Vm.Range.{mappages-Mapped}
use re_xvapor.Mm.Vm.Mapping.{walkaddr-mappages}
use re_xvapor.Mm.Vm.User.{uvmunmap}
use re_xvapor.Mm.Vm.User.Unmap.{IsLeaf, IsPageOf, IsOwned, Cleared, freed_pages, uvmunmap-Cleared}
use re_xvapor.Mm.Vm.Copy.{Bytes, copyin, copyout}
use re_xvapor.Mm.Vm.Copy.Laws.{phys, frame}
use re_xvapor.Mm.Vm.Copy.Outward.{IsTarget}
use re_xvapor.Mm.Vm.Copy.RoundTrip.{copyin-copyout}
use re_xvapor.Mm.Vm.Space.{lookup, user_page, IsSpace}

abbrev words : ℕ → ℕ
words a =
    if a == 8192
    then 6145
    else if a == 24576
    then 7169
    else if a == 28680
    then 8215
    else if a == 12288
    then 16384
    else 0

abbrev machine : Kmem
machine = record { mem = words; freelist = 12288; freecnt = 0 }

abbrev tables : ℕ → Label
tables p =
    if p == 8192
    then some (2, 0)
    else if p == 24576
    then some (1, 0)
    else if p == 28672
    then some (0, 0)
    else none

tables_cases :
    (p : ℕ) (y : ℕ × ℕ)
    → tables p ≡ some y
    → ((p ≡ 8192) × (some y ≡ some (2, 0)))
      ⊎ (((p ≡ 24576) × (some y ≡ some (1, 0))) ⊎ ((p ≡ 28672) × (some y ≡ some (0, 0))))
tables_cases p y e = elim (Bool-cases (p == 8192)) [
  | inl a ↦ inl (==→eq _ _ a, sym e ∙ rw a refl)
  | inr a ↦ elim (Bool-cases (p == 24576)) [
    | inl b ↦ inr (inl (==→eq _ _ b, sym e ∙ rw (a, b) refl))
    | inr b ↦ elim (Bool-cases (p == 28672)) [
      | inl c ↦ inr (inr (==→eq _ _ c, sym e ∙ rw (a, b, c) refl))
      | inr c ↦ let z : tables p ≡ none = rw (a, b, c) refl in cc (sym z ∙ e)
    ]
  ]
]

label_below :
    (l level x i : ℕ)
    → ◌≡◌ {A = Label} (some (suc level, x)) (some (suc l, 0))
    → i ≡ 0
    → ◌≡◌ {A = Label} (some (l, 0)) (some (level, x * 512 + i))
label_below l level x i k z =
    ap₂ (λ (m n : ℕ). some (m, n)) (sym (first k)) (omega (arith, second k, z))
  where
    first : ◌≡◌ {A = Label} (some (suc level, x)) (some (suc l, 0)) → level ≡ l
    first k = cc k

    second : ◌≡◌ {A = Label} (some (suc level, x)) (some (suc l, 0)) → x ≡ 0
    second k = cc k

root_word :
    (p i : ℕ)
    → i < 512
    → p ≡ 8192
    → is_valid (words (p + 8 * i)) ≡ true
    → (i ≡ 0) × (words (p + 8 * i) ≡ 6145)
root_word p i low at valid = ground arith

middle_word :
    (p i : ℕ)
    → i < 512
    → p ≡ 24576
    → is_valid (words (p + 8 * i)) ≡ true
    → (i ≡ 0) × (words (p + 8 * i) ≡ 7169)
middle_word p i low at valid = ground arith

tables-IsTable : IsTable words tables
unfolding pte_to_pa
tables-IsTable = record {
  aligned = λ p y e. elim (tables_cases p y e) [
    | inl (at, k) ↦ omega (arith, at)
    | inr (inl (at, k)) ↦ omega (arith, at)
    | inr (inr (at, k)) ↦ omega (arith, at)
  ];
  child = λ p level x i e low valid. elim (tables_cases p (suc level, x) e) [
    | inl (at, k) ↦
        let (z, word) = root_word p i low at valid in
        ap (λ (w : ℕ). tables (pte_to_pa w)) word ∙ label_below 1 level x i k z
    | inr (inl (at, k)) ↦
        let (z, word) = middle_word p i low at valid in
        ap (λ (w : ℕ). tables (pte_to_pa w)) word ∙ label_below 0 level x i k z
    | inr (inr (at, k)) ↦ cc k
  ];
}

machine-IsSpace : IsSpace 4096 (2 ^ 20) machine 8192 tables (12288 ∷ 16384 ∷ [])
machine-IsSpace = record {
  vm = record {
    table = tables-IsTable;
    free = record { chain = omega arith; pages = omega arith; distinct = omega arith };
    apart = (refl, (refl, tt));
  };
  root = refl;
}

-- What the tables map.
user_entry : lookup 8192 machine 4096 ≡ 8215
unfolding entry px vpn pte_to_pa
user_entry = refl

-- The entries of the first 512 pages.
low_entry : (va : ℕ) → va < 2 ^ 21 → lookup 8192 machine va ≡ words (28672 + 8 * (va / 4096))
unfolding entry px vpn pte_to_pa
low_entry va lo =
    let top : slot 8192 2 va ≡ 8192 = omega arith in
    let middle : slot 24576 1 va ≡ 24576 = omega arith in
    let leaf : slot 28672 0 va ≡ 28672 + 8 * (va / 4096) = omega arith in
    rw (top, middle, leaf) refl

machine_free :
    (va : ℕ) → 8192 ≤ va → va < 8192 + 2 * pgsize → is_valid (lookup 8192 machine va) ≡ false
machine_free va lo hi = rw (low_entry va (omega arith)) (ground arith)

page_entry : (va : ℕ) → 4096 ≤ va → va < 8192 → lookup 8192 machine va ≡ 8215
page_entry va lo hi = rw (low_entry va (omega arith)) (ground arith)

mappages-Mapped_example :
    Mapped 4096 (2 ^ 20) machine 8192 8192 2 65536 22 (mappages 8192 8200 5000 65536 22 machine)
mappages-Mapped_example =
    mappages-Mapped 4096 (2 ^ 20) (omega arith) 8192 8200 5000 65536 22 machine tables
      (12288 ∷ 16384 ∷ []) machine-IsSpace (omega arith) (omega arith) (omega arith) machine_free

page_Leaf : (va : ℕ) → IsPageOf 4096 1 va → IsLeaf (lookup 8192 machine va)
unfolding pte_flags
page_Leaf va r = rw (page_entry va r.0 (omega arith)) (refl, ground arith)

page_Owned :
    true ≡ true → IsOwned 4096 (2 ^ 20) (lookup 8192 machine) 4096 1 tables (12288 ∷ 16384 ∷ [])
unfolding pte_to_pa
page_Owned e = record {
  page = λ va r. rw (page_entry va r.0 (omega arith)) (omega arith);
  apart = λ va r. rw (page_entry va r.0 (omega arith)) refl;
  fresh = λ va r. rw (page_entry va r.0 (omega arith)) (omega arith);
  distinct = λ va va' r r' ne. absurd (ne (omega (arith, r, r')));
}

uvmunmap-Cleared_example :
    Cleared 4096
      (2 ^ 20)
      machine
      8192
      4096
      1
      tables
      (freed_pages true (lookup 8192 machine) 4096 1 (12288 ∷ 16384 ∷ []))
      (uvmunmap 4096 (2 ^ 20) 8192 4096 1 true machine)
uvmunmap-Cleared_example =
    uvmunmap-Cleared 4096 (2 ^ 20) (omega arith) (omega arith) 1 8192 4096 true machine tables
      (12288 ∷ 16384 ∷ []) machine-IsSpace (omega arith) (omega arith) page_Leaf page_Owned

page_frame : (va : ℕ) → 4096 ≤ va → va < 8192 → phys 8192 machine va ≡ 32768 + va % 4096
unfolding pte_to_pa
page_frame va lo hi =
    let page : pg_round_down va ≡ 4096 = omega arith in
    rw (page, page_entry 4096 (omega arith) (omega arith)) refl

target : IsTarget 8192 4200 100 10 machine
target = record {
  apart = λ va lo hi. omega (arith, page_frame va (omega arith) (omega arith));
  distinct = λ va va' lo lt hi. omega (
    arith,
    page_frame va (omega arith) (omega arith),
    page_frame va' (omega arith) (omega arith),
  );
}

apart :
    (i : ℕ)
    → i < 10
    → (phys 8192 machine (4200 + i) < 200) ⊎ (200 + 10 ≤ phys 8192 machine (4200 + i))
apart i lo = omega (arith, page_frame (4200 + i) (omega arith) (omega arith))

copyin-copyout_example :
    (ok : Bool) × (b1 : Bytes) × (b2 : Bytes) × (copyout 8192 4200 100 10 (λ a. a % 256) machine
      ≡ returns (ok, b1) machine)
    × (copyin 8192 200 4200 10 b1 machine ≡ returns (ok, b2) machine)
    × (ok ≡ true → (i : ℕ) → i < 10 → b2 (200 + i) ≡ (100 + i) % 256)
    × (ok ≡ false → (va' : ℕ) × (4200 ≤ va') × (va' < 4200 + 10) × (frame 8192 machine va' ≡ 0))
copyin-copyout_example = copyin-copyout 8192 4200 100 200 10 (λ a. a % 256) machine target apart

walkaddr-mappages_example :
    (ok : Bool) × (t : Kmem) × (mappages 8192 8200 5000 65536 22 machine ≡ returns ok t)
    × (ok ≡ true
        → (va' : ℕ) → 8192 ≤ va'
        → va' < 8200 + 5000
        → walkaddr 8192 va' t
          ≡ returns (if bit 22 4 then 65536 + (pg_round_down va' - 8192) else 0) t)
    × ((va' : ℕ)
        → (va' < 8192) ⊎ (8192 + 2 * pgsize ≤ va')
        → walkaddr 8192 va' t
          ≡ returns (if ltb va' maxva then user_page (lookup 8192 machine va') else 0) t)
walkaddr-mappages_example =
    walkaddr-mappages 4096 (2 ^ 20) (omega arith) 8192 8200 5000 65536 22 machine tables
      (12288 ∷ 16384 ∷ []) machine-IsSpace (omega arith) (omega arith) (omega arith) (omega arith)
      (omega arith) machine_free
