-- ===== src/Ipc/Pipe/Write.antt =====
-- pipewrite (ipc/pipe.c) on the contents of the pipe.
use re_xvapor.Base.{
  ℕ, zero, suc, ◌+◌, ◌%◌, ◌^◌, ◌<◌, ◌≡◌, refl, ◌⊎◌, inl, inr, List, [], ◌∷◌, ◌++◌, length, Bool,
  true, false, not, ◌||◌, Option, none, some, Option-cases, Bool-cases, ◌==◌, ==→eq, ==→ne,
  append_assoc, append-nil, arith, ap, sym, ◌∙◌, subst,
}
use mathlib.Core.Option
use re_xvapor.Ipc.Pipe.{
  Pipe, pipesize, Wrote, wrote, write_failed, write_sleeps, put, pipewrite_from,
}
use re_xvapor.Ipc.Pipe.Contents.{contents, count, IsValid, contents-put, full_iff}

-- either_copyin reads these bytes from byte `i` on.
abbrev pub Fetched : (ℕ → Option ℕ) → ℕ → List ℕ → Type 0
Fetched copyin i [] = Unit
Fetched copyin i (ch ∷ bytes) = (copyin i ≡ some ch) × Fetched copyin (i + 1) bytes

-- The `m` bytes of the source from byte `i` on (0 where a byte cannot be read).
abbrev pub source : (ℕ → Option ℕ) → ℕ → ℕ → List ℕ
source copyin i zero = []
source copyin i (suc m) = Option.get_or (copyin i) 0 ∷ source copyin (i + 1) m

pub Fetched-source :
    (copyin : ℕ → Option ℕ) (i : ℕ) (bytes : List ℕ)
    → Fetched copyin i bytes
    → bytes ≡ source copyin i (length bytes)
Fetched-source copyin i [] h = refl
Fetched-source copyin i (ch ∷ bytes) h =
    rw (h.0) (ap (λ l. ch ∷ l) (Fetched-source copyin (i + 1) bytes h.1))

-- The ends of the pipe as they were, nothing read, and `bytes` behind the old contents.
pub record Appends (p p' : Pipe) (bytes : List ℕ) : Type 0 where
  pub valid : IsValid p'
  pub appended : contents p' ≡ contents p ++ bytes
  pub reader : p'.readopen ≡ p.readopen
  pub writer : p'.writeopen ≡ p.writeopen

-- Why a stretch that began with `k` bytes left, the next one byte `i`, ended as it did.
abbrev pub Ends : (ℕ → Bool) → (ℕ → Option ℕ) → ℕ → Wrote → Type 0
Ends killed copyin last (wrote j p) = (j ≡ last) ⊎ (copyin j ≡ none)
Ends killed copyin last (write_failed j p) = (p.readopen ≡ false) ⊎ (killed j ≡ true)
Ends killed copyin last (write_sleeps j p) = count p ≡ pipesize

abbrev pub stopped_at : Wrote → ℕ
stopped_at (wrote j p) = j
stopped_at (write_failed j p) = j
stopped_at (write_sleeps j p) = j

abbrev pub pipe_of : Wrote → Pipe
pipe_of (wrote j p) = p
pipe_of (write_failed j p) = p
pipe_of (write_sleeps j p) = p

module _ (killed : ℕ → Bool) (copyin : ℕ → Option ℕ) where
  pub record Writes (last i : ℕ) (p : Pipe) (w : Wrote) (bytes : List ℕ) : Type 0 where
    pub fetched : Fetched copyin i bytes
    pub counted : stopped_at w ≡ i + length bytes
    pub appends : Appends p (pipe_of w) bytes
    pub ends : Ends killed copyin last w

  Appends-refl : (p : Pipe) → IsValid p → Appends p p []
  Appends-refl p v = record {
    valid = v;
    appended = sym (append-nil (contents p));
    reader = refl;
    writer = refl;
  }

  abbrev Stops : ℕ → Pipe → Type 0
  Stops i p = (not p.readopen || killed i) ≡ true

  abbrev Runs : ℕ → Pipe → Type 0
  Runs i p = (not p.readopen || killed i) ≡ false

  abbrev is_full : Pipe → Bool
  is_full p = p.nwrite == (p.nread + pipesize) % 2 ^ 32

  module _ (k i : ℕ) (p : Pipe) where
    write_halts : Stops i p → pipewrite_from killed copyin (suc k) i p ≡ write_failed i p
    unfolding pipewrite_from
    write_halts h = ground arith

    write_full :
        Runs i p → is_full p ≡ true → pipewrite_from killed copyin (suc k) i p ≡ write_sleeps i p
    unfolding pipewrite_from
    write_full h f = ground arith

    write_faults :
        Runs i p
        → is_full p ≡ false
        → copyin i ≡ none
        → pipewrite_from killed copyin (suc k) i p ≡ wrote i p
    unfolding pipewrite_from
    write_faults h f e = ground arith

    write_more :
        (ch : ℕ)
        → Runs i p
        → is_full p ≡ false
        → copyin i ≡ some ch
        → pipewrite_from killed copyin (suc k) i p
          ≡ pipewrite_from killed copyin k (i + 1) (put ch p)
    unfolding pipewrite_from
    write_more ch h f e = ground arith

  pipewrite_from-zero : {i : ℕ} {p : Pipe} → pipewrite_from killed copyin zero i p ≡ wrote i p
  unfolding pipewrite_from
  pipewrite_from-zero = refl

  -- Nothing is written.
  stays :
      (last i : ℕ) (p : Pipe) (w : Wrote)
      → IsValid p
      → stopped_at w ≡ i
      → pipe_of w ≡ p
      → Ends killed copyin last w
      → Writes last i p w []
  stays last i p w v at same ends = record {
    fetched = tt;
    counted = omega (arith, at);
    appends = rw same (Appends-refl p v);
    ends = ends;
  }

  Writes-put :
      (last i ch : ℕ) (p : Pipe) (w : Wrote) (bytes : List ℕ)
      → IsValid p
      → count p < pipesize
      → copyin i ≡ some ch
      → Writes last (i + 1) (put ch p) w bytes
      → Writes last i p w (ch ∷ bytes)
  Writes-put last i ch p w bytes v room e h = record {
    fetched = (e, h.fetched);
    counted = omega (arith, h.counted);
    appends = record {
      valid = h.appends.valid;
      appended =
          h.appends.appended
          ∙ (ap (λ l. l ++ bytes) (contents-put p ch v room).0
              ∙ append_assoc (contents p) (ch ∷ []) bytes);
      reader = h.appends.reader;
      writer = h.appends.writer;
    };
    ends = h.ends;
  }

  -- Each stretch of pipewrite appends to the pipe, in order and with none left out, as many bytes
  -- of the source as it counts; it ends after the last byte or an unreadable one, with -1 if the
  -- read end is closed or the process killed, and asleep only on a full pipe.
  pub pipewrite_appends :
      (k i : ℕ) (p : Pipe)
      → IsValid p
      → (bytes : List ℕ) × Writes (i + k) i p (pipewrite_from killed copyin k i p) bytes
  pipewrite_appends zero i p v =
      ([], rw pipewrite_from-zero (stays (i + 0) i p (wrote i p) v refl refl (inl (omega arith))))
  pipewrite_appends (suc k) i p v = elim (Bool-cases (not p.readopen || killed i)) [
    | inl stop ↦ (
      [],
      rw (write_halts k i p stop)
          (stays (i + suc k) i p (write_failed i p) v refl refl (ground arith)),
    )
    | inr go ↦ elim (Bool-cases (is_full p)) [
      | inl full ↦ (
        [],
        rw (write_full k i p go full) (
            stays (i + suc k) i p (write_sleeps i p) v refl refl
              ((full_iff p v).0 (==→eq _ _ full))),
      )
      | inr room ↦ elim (Option-cases (copyin i)) [
        | inl e ↦ (
          [],
          rw (write_faults k i p go room e) (stays (i + suc k) i p (wrote i p) v refl refl (inr e)),
        )
        | inr (ch, e) ↦
            let free : count p < pipesize = omega (
              arith,
              v.fits,
              (full_iff p v).1,
              ==→ne p.nwrite ((p.nread + pipesize) % 2 ^ 32) room,
            ) in
            let (bytes, rest) =
              pipewrite_appends k (i + 1) (put ch p) (contents-put p ch v free).1 in
            let last : i + 1 + k ≡ i + suc k = omega arith in
            (
              ch ∷ bytes,
              rw (write_more k i p ch go room e) (
                  Writes-put (i + suc k) i ch p (pipewrite_from killed copyin k (i + 1) (put ch p))
                    bytes v free e
                    (subst
                      (λ m.
                        Writes m (i + 1) (put ch p)
                          (pipewrite_from killed copyin k (i + 1) (put ch p)) bytes)
                      last rest)),
            )
      ]
    ]
  ]
