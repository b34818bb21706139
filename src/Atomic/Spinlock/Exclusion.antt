-- ===== src/Atomic/Spinlock/Exclusion.antt =====
-- Who has the lock (kernel/atomic/spinlock.c): the invariant, and that each step keeps it.
use re_xvapor.Base.{
  ℕ, ◌≡◌, ◌≢◌, refl, sym, ◌∙◌, ap, Bool, true, false, Bool-cases, Option, update, ◌==◌, ==→eq,
  ==→ne, if◌then◌else◌, arith, inl, inr,
}
use re_xvapor.Atomic.Spinlock.{
  Cpu, is_cpu, Place, outside, spinning, locking, inside, releasing, System, goes,
}

-- From the swap that took the lock to the store that gives it back.
abbrev pub busy : Place → Bool
busy outside = false
busy spinning = false
busy locking = true
busy inside = true
busy releasing = true

abbrev pub is_inside : Place → Bool
is_inside outside = false
is_inside spinning = false
is_inside locking = false
is_inside inside = true
is_inside releasing = false

-- A lock that is free is nobody's, a lock that is not is of one CPU at most, and the lock names a
-- CPU exactly while it is inside.
pub record IsExclusive (s : System) : Type 0 where
  pub nobody : s.lock.locked ≡ false → (c : ℕ) → busy (s.place c) ≡ false
  pub alone : (c d : ℕ) → busy (s.place c) ≡ true → busy (s.place d) ≡ true → c ≡ d
  pub owner : (c : ℕ) → is_cpu c s.lock.cpu ≡ is_inside (s.place c)

busy_at :
    (f : ℕ → Place) (c : ℕ) (p : Place) (d : ℕ)
    → busy (update f c p d) ≡ (if c == d then busy p else busy (f d))
busy_at f c p d = elim (Bool-cases (c == d)) [ inl e ↦ rw e refl | inr e ↦ rw e refl ]

inside_at :
    (f : ℕ → Place) (c : ℕ) (p : Place) (d : ℕ)
    → is_inside (update f c p d) ≡ (if c == d then is_inside p else is_inside (f d))
inside_at f c p d = elim (Bool-cases (c == d)) [ inl e ↦ rw e refl | inr e ↦ rw e refl ]

inside-busy : (p : Place) → is_inside p ≡ true → busy p ≡ true
inside-busy outside e = cc e
inside-busy spinning e = cc e
inside-busy locking e = refl
inside-busy inside e = refl
inside-busy releasing e = refl

-- Another CPU is not inside while this one is busy.
other_outside :
    (s : System) (c d : ℕ)
    → IsExclusive s
    → busy (s.place c) ≡ true
    → c ≢ d
    → busy (s.place d) ≡ false
other_outside s c d h b ne = elim (Bool-cases (busy (s.place d))) [
  | inl e ↦ absurd (ne (h.alone c d b e))
  | inr e ↦ e
]

pub other_not_inside :
    (s : System) (c d : ℕ)
    → IsExclusive s
    → busy (s.place c) ≡ true
    → c ≢ d
    → is_inside (s.place d) ≡ false
other_not_inside s c d h b ne = elim (Bool-cases (is_inside (s.place d))) [
  | inl e ↦ cc (sym (inside-busy (s.place d) e) ∙ other_outside s c d h b ne)
  | inr e ↦ e
]

-- A step of `c` to a place that is as busy and as little inside, with the lock left alone.
pub quiet :
    (s : System) (c : ℕ) (p : Place) (k : ℕ → Cpu)
    → busy p ≡ busy (s.place c)
    → is_inside p ≡ is_inside (s.place c)
    → IsExclusive s
    → IsExclusive (goes c p (record s { cpus = k }))
quiet s c p k eb ei h = record {
  nobody = λ free d. same_busy d ∙ h.nobody free d;
  alone = λ d e b b'. h.alone d e (sym (same_busy d) ∙ b) (sym (same_busy e) ∙ b');
  owner = λ d. h.owner d ∙ sym (same_inside d);
}
  where
    same_busy : (d : ℕ) → busy (update s.place c p d) ≡ busy (s.place d)
    same_busy d = elim (Bool-cases (c == d)) [
      | inl e ↦ rw e (eb ∙ ap (λ x. busy (s.place x)) (==→eq c d e))
      | inr e ↦ rw e refl
    ]

    same_inside : (d : ℕ) → is_inside (update s.place c p d) ≡ is_inside (s.place d)
    same_inside d = elim (Bool-cases (c == d)) [
      | inl e ↦ rw e (ei ∙ ap (λ x. is_inside (s.place x)) (==→eq c d e))
      | inr e ↦ rw e refl
    ]

pub swapped-IsExclusive :
    (s : System) (c : ℕ)
    → s.place c ≡ spinning
    → s.lock.locked ≡ false
    → IsExclusive s
    → IsExclusive (goes c locking (record s { lock = record (s.lock) { locked = true } }))
swapped-IsExclusive s c at free h = record {
  nobody = λ e d. cc e;
  alone = λ d e b b'. sym (only d b) ∙ only e b';
  owner = λ d. h.owner d ∙ same_inside d;
}
  where
    only : (d : ℕ) → busy (update s.place c locking d) ≡ true → c ≡ d
    only d b = ground (arith, b, busy_at s.place c locking d, h.nobody free d)

    same_inside : (d : ℕ) → is_inside (s.place d) ≡ is_inside (update s.place c locking d)
    same_inside d = elim (Bool-cases (c == d)) [
      | inl e ↦ rw e (ap (λ x. is_inside (s.place x)) (sym (==→eq c d e)) ∙ ap is_inside at)
      | inr e ↦ rw e refl
    ]

-- A busy CPU that stays busy, with the lock's owner field to fit.
pub moved-IsExclusive :
    (s : System) (c : ℕ) (p : Place) (o : Option ℕ)
    → busy (s.place c) ≡ true
    → busy p ≡ true
    → is_cpu c o ≡ is_inside p
    → ((d : ℕ) → c ≢ d → is_cpu d o ≡ false)
    → IsExclusive s
    → IsExclusive (goes c p (record s { lock = record (s.lock) { cpu = o } }))
moved-IsExclusive s c p o b b' mine others h = record {
  nobody = λ free d. cc (sym b ∙ h.nobody free c);
  alone = λ d e u v. sym (only d u) ∙ only e v;
  owner = λ d. elim (Bool-cases (c == d)) [
    | inl e ↦ rw e (ap (λ x. is_cpu x o) (sym (==→eq c d e)) ∙ mine)
    | inr e ↦ rw e (others d (==→ne c d e) ∙ sym (other_not_inside s c d h b (==→ne c d e)))
  ];
}
  where
    only : (d : ℕ) → busy (update s.place c p d) ≡ true → c ≡ d
    only d u = elim (Bool-cases (c == d)) [
      | inl e ↦ ==→eq c d e
      | inr e ↦ h.alone c d b (rw (sym (busy_other d e)) u)
    ]
      where
        busy_other : (d : ℕ) → (c == d) ≡ false → busy (update s.place c p d) ≡ busy (s.place d)
        busy_other d e = rw e refl

pub left-IsExclusive :
    (s : System) (c : ℕ) (k : ℕ → Cpu)
    → s.place c ≡ releasing
    → IsExclusive s
    → IsExclusive
        (goes c outside (record s { lock = record (s.lock) { locked = false }; cpus = k }))
left-IsExclusive s c k at h = record {
  nobody = λ free d. idle d;
  alone = λ d e b b'. cc (sym b ∙ idle d);
  owner = λ d. h.owner d ∙ same_inside d;
}
  where
    idle : (d : ℕ) → busy (update s.place c outside d) ≡ false
    idle d = elim (Bool-cases (c == d)) [
      | inl e ↦ rw e refl
      | inr e ↦ rw e (other_outside s c d h (ap busy at) (==→ne c d e))
    ]

    same_inside : (d : ℕ) → is_inside (s.place d) ≡ is_inside (update s.place c outside d)
    same_inside d = elim (Bool-cases (c == d)) [
      | inl e ↦ rw e (ap (λ x. is_inside (s.place x)) (sym (==→eq c d e)) ∙ ap is_inside at)
      | inr e ↦ rw e refl
    ]
