-- ===== src/Ipc/Pipe/Read.antt =====
-- piperead (ipc/pipe.c) on the contents of the pipe.
use re_xvapor.Base.{
  ℕ, zero, suc, ◌+◌, ◌≡◌, refl, ◌≢◌, ◌⊎◌, inl, inr, List, [], ◌∷◌, length, take, drop, Bool, true,
  false, Bool-cases, ◌==◌, ==→eq, ==→ne, eq→==, ne→==, arith, ap, min, length-take,
}
use re_xvapor.Ipc.Pipe.{
  Pipe, Got, got, read_failed, read_sleeps, head_byte, skip_byte, prepend, as_got, piperead_from,
  piperead,
}
use re_xvapor.Ipc.Pipe.Contents.{
  contents, count, IsValid, contents-skip, empty_iff, length-contents,
}

-- `n` bytes are taken off the front of the contents and stored, the ends left as they were.
pub record Takes (p : Pipe) (n i : ℕ) (r : ℕ × List ℕ × Pipe) : Type 0 where
  pub valid : IsValid (r.2)
  pub stored : r.1 ≡ take n (contents p)
  pub rest : contents (r.2) ≡ drop n (contents p)
  pub counted : r.0 ≡ i + length (r.1)
  pub reader : (r.2).readopen ≡ p.readopen
  pub writer : (r.2).writeopen ≡ p.writeopen

-- Where either_copyout stores every byte.
abbrev pub Writable : (ℕ → ℕ → Bool) → Type 0
Writable copyout = (i ch : ℕ) → copyout i ch ≡ true

take-nil : (n : ℕ) → [] ≡ take {A = ℕ} n []
take-nil zero = refl
take-nil (suc n) = refl

drop-nil : (n : ℕ) → [] ≡ drop {A = ℕ} n []
drop-nil zero = refl
drop-nil (suc n) = refl

module _ (copyout : ℕ → ℕ → Bool) where
  read_empty :
      (k i : ℕ) (p : Pipe) → p.nread ≡ p.nwrite → piperead_from copyout (suc k) i p ≡ (i, [], p)
  unfolding piperead_from
  read_empty k i p e = ground (arith, eq→== p.nread p.nwrite e)

  read_more :
      (k i : ℕ) (p : Pipe)
      → p.nread ≢ p.nwrite
      → copyout i (head_byte p) ≡ true
      → piperead_from copyout (suc k) i p
        ≡ prepend (head_byte p) (piperead_from copyout k (i + 1) (skip_byte p))
  unfolding piperead_from
  read_more k i p ne w = rw (ne→== p.nread p.nwrite ne, piperead_from) (rw w refl)

  read_stop :
      (k i : ℕ) (p : Pipe)
      → p.nread ≢ p.nwrite
      → copyout i (head_byte p) ≡ false
      → piperead_from copyout (suc k) i p ≡ (i, [], skip_byte p)
  unfolding piperead_from
  read_stop k i p ne w = rw (ne→== p.nread p.nwrite ne, piperead_from) (rw w refl)

  -- A byte that cannot be stored ends the copying, but it is taken off the pipe, and is neither
  -- counted nor left for the next reader.
  pub read_fault_loses :
      (k i : ℕ) (p : Pipe)
      → IsValid p
      → p.nread ≢ p.nwrite
      → copyout i (head_byte p) ≡ false
      → let r = piperead_from copyout (suc k) i p in
        (r.0 ≡ i) × (r.1 ≡ []) × (contents p ≡ head_byte p ∷ contents (r.2))
  read_fault_loses k i p v ne w = rw (read_stop k i p ne w) (refl, refl, (contents-skip p v ne).0)

  nothing_left : (n i : ℕ) (p : Pipe) → IsValid p → contents p ≡ [] → Takes p n i (i, [], p)
  nothing_left n i p v e = record {
    valid = v;
    stored = rw e (take-nil n);
    rest = rw e (drop-nil n);
    counted = omega arith;
    reader = refl;
    writer = refl;
  }

  Takes-prepend :
      (k i : ℕ) (p : Pipe) (r : ℕ × List ℕ × Pipe)
      → IsValid p
      → p.nread ≢ p.nwrite
      → Takes (skip_byte p) k (i + 1) r
      → Takes p (suc k) i (prepend (head_byte p) r)
  Takes-prepend k i p (j, bytes, q) v ne h =
      let first : contents p ≡ head_byte p ∷ contents (skip_byte p) = (contents-skip p v ne).0 in
      record {
        valid = h.valid;
        stored = rw first (ap (λ l. head_byte p ∷ l) h.stored);
        rest = rw first h.rest;
        counted = omega (arith, h.counted);
        reader = h.reader;
        writer = h.writer;
      }

  piperead_from-zero : {i : ℕ} {p : Pipe} → piperead_from copyout zero i p ≡ (i, [], p)
  unfolding piperead_from
  piperead_from-zero = refl

  pub piperead_from-Takes :
      (k i : ℕ) (p : Pipe)
      → Writable copyout
      → IsValid p
      → Takes p k i (piperead_from copyout k i p)
  piperead_from-Takes zero i p w v = rw piperead_from-zero (record {
    valid = v;
    stored = refl;
    rest = refl;
    counted = omega arith;
    reader = refl;
    writer = refl;
  })
  piperead_from-Takes (suc k) i p w v = elim (Bool-cases (p.nread == p.nwrite)) [
    | inl e ↦
        let same : p.nread ≡ p.nwrite = ==→eq p.nread p.nwrite e in
        rw (read_empty k i p same) (nothing_left (suc k) i p v ((empty_iff p v).0 same))
    | inr ne ↦
        let other : p.nread ≢ p.nwrite = ==→ne p.nread p.nwrite ne in
        rw (read_more k i p other (w i (head_byte p))) (
          Takes-prepend k i p (piperead_from copyout k (i + 1) (skip_byte p)) v other
            (piperead_from-Takes k (i + 1) (skip_byte p) w (contents-skip p v other).1))
  ]

  -- How a stretch of piperead of at most `n` bytes ends: asleep or with -1 only on an empty pipe
  -- whose write end is open, the latter if the process is killed; otherwise with the first bytes of
  -- the contents, as many as there are up to `n`.
  pub data Reads (killed : Bool) (n : ℕ) (p : Pipe) : Got → Type 0 where
    takes :
        (i : ℕ) (bytes : List ℕ) (p' : Pipe)
        → (contents p ≢ []) ⊎ (p.writeopen ≡ false)
        → i ≡ min n (count p)
        → Takes p n 0 (i, bytes, p')
        → Reads killed n p (got i bytes p')
    dies : contents p ≡ [] → p.writeopen ≡ true → killed ≡ true → Reads killed n p (read_failed p)
    waits : contents p ≡ [] → p.writeopen ≡ true → killed ≡ false → Reads killed n p (read_sleeps p)

  as_got-Reads :
      (killed : Bool) (n : ℕ) (p : Pipe) (r : ℕ × List ℕ × Pipe)
      → (contents p ≢ []) ⊎ (p.writeopen ≡ false)
      → Takes p n 0 r
      → Reads killed n p (as_got r)
  as_got-Reads killed n p (i, bytes, q) why h =
      takes i bytes q why
        (omega
          (arith, h.counted, ap length h.stored, length-take n (contents p), length-contents p))
        h

  piperead_now :
      (killed : Bool) (n : ℕ) (p : Pipe)
      → (p.nread ≢ p.nwrite) ⊎ (p.writeopen ≡ false)
      → piperead killed copyout n p ≡ as_got (piperead_from copyout n 0 p)
  unfolding piperead
  piperead_now killed n p h = ground arith

  piperead_dies :
      (killed : Bool) (n : ℕ) (p : Pipe)
      → p.nread ≡ p.nwrite
      → p.writeopen ≡ true
      → killed ≡ true
      → piperead killed copyout n p ≡ read_failed p
  unfolding piperead
  piperead_dies killed n p h o d = ground arith

  piperead_waits :
      (killed : Bool) (n : ℕ) (p : Pipe)
      → p.nread ≡ p.nwrite
      → p.writeopen ≡ true
      → killed ≡ false
      → piperead killed copyout n p ≡ read_sleeps p
  unfolding piperead
  piperead_waits killed n p h o d = ground arith

  -- piperead of a valid pipe, where the reader's memory can be stored to, ends in the one of the
  -- three ways that fits the pipe, and leaves the rest of the contents.
  pub piperead-Reads :
      (killed : Bool) (n : ℕ) (p : Pipe)
      → Writable copyout
      → IsValid p
      → Reads killed n p (piperead killed copyout n p)
  piperead-Reads killed n p w v = elim (Bool-cases (p.nread == p.nwrite)) [
    | inl e ↦
        let same : p.nread ≡ p.nwrite = ==→eq p.nread p.nwrite e in
        let none_left : contents p ≡ [] = (empty_iff p v).0 same in
        elim (Bool-cases p.writeopen) [
          | inl o ↦ elim (Bool-cases killed) [
            | inl d ↦
                let now : piperead killed copyout n p ≡ read_failed p =
                  piperead_dies killed n p same o d in
                rw now (dies none_left o d)
            | inr d ↦
                let now : piperead killed copyout n p ≡ read_sleeps p =
                  piperead_waits killed n p same o d in
                rw now (waits none_left o d)
          ]
          | inr o ↦
              let now : piperead killed copyout n p ≡ as_got (piperead_from copyout n 0 p) =
                piperead_now killed n p (inr o) in
              rw now (
                as_got-Reads killed n p (piperead_from copyout n 0 p) (inr o)
                  (piperead_from-Takes n 0 p w v))
        ]
    | inr ne ↦
        let some_left : contents p ≢ [] = λ e. ==→ne p.nread p.nwrite ne ((empty_iff p v).1 e) in
        let now : piperead killed copyout n p ≡ as_got (piperead_from copyout n 0 p) =
          piperead_now killed n p (inl (==→ne p.nread p.nwrite ne)) in
        rw now (
          as_got-Reads killed n p (piperead_from copyout n 0 p) (inl some_left)
            (piperead_from-Takes n 0 p w v))
  ]
