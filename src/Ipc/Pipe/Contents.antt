-- ===== src/Ipc/Pipe/Contents.antt =====
-- The bytes in a pipe (ipc/pipe.c), oldest first, and the invariant under which its two wrapping
-- counters stand for a queue.
use re_xvapor.Base.{
  ℕ, zero, suc, ◌+◌, ◌-◌, ◌%◌, ◌^◌, ◌≤◌, ◌<◌, ◌≡◌, refl, ◌≢◌, List, [], ◌∷◌, ◌++◌, length, update,
  update_ne, update_eq, sym, ◌↔◌, arith, ap, ◌∙◌,
}
use mathlib.Core.Path.{ap₂}
use re_xvapor.Ipc.Pipe.{Pipe, pipesize, put, head_byte, skip_byte}

-- `n` bytes of the buffer, from counter value `r` on.
abbrev pub window : (ℕ → ℕ) → ℕ → ℕ → List ℕ
window buf r zero = []
window buf r (suc n) = buf (r % pipesize) ∷ window buf ((r + 1) % 2 ^ 32) n

-- The number of bytes in the pipe: nwrite - nread on `uint`s.
abbrev pub count : Pipe → ℕ
count p = (p.nwrite + 2 ^ 32 - p.nread) % 2 ^ 32

abbrev pub contents : Pipe → List ℕ
contents p = window p.buf p.nread (count p)

pub record IsValid (p : Pipe) : Type 0 where
  pub nread_word : p.nread < 2 ^ 32
  pub nwrite_word : p.nwrite < 2 ^ 32
  pub fits : count p ≤ pipesize

pub length-window : (buf : ℕ → ℕ) (r n : ℕ) → length (window buf r n) ≡ n
length-window buf r zero = refl
length-window buf r (suc n) = ap suc (length-window buf ((r + 1) % 2 ^ 32) n)

-- A write behind the window leaves it: the slots go round at 512, which divides 2 ^ 32.
window-update :
    (buf : ℕ → ℕ) (r n d v slot : ℕ)
    → slot ≡ (r + n + d) % 2 ^ 32 % pipesize
    → n + d < pipesize
    → window (update buf slot v) r n ≡ window buf r n
window-update buf r zero d v slot at h = refl
window-update buf r (suc n) d v slot at h =
    ap₂ ◌∷◌ (update_ne buf slot (r % pipesize) v (omega arith))
      (window-update buf ((r + 1) % 2 ^ 32) n d v slot (omega arith) (omega arith))

window-snoc :
    (buf : ℕ → ℕ) (r n v slot : ℕ)
    → slot ≡ (r + n) % 2 ^ 32 % pipesize
    → n < pipesize
    → window (update buf slot v) r (suc n) ≡ window buf r n ++ v ∷ []
window-snoc buf r zero v slot at h =
    ap (λ x. x ∷ []) (update_eq buf slot (r % pipesize) v (omega arith))
window-snoc buf r (suc n) v slot at h =
    ap₂ ◌∷◌ (update_ne buf slot (r % pipesize) v (omega arith))
      (window-snoc buf ((r + 1) % 2 ^ 32) n v slot (omega arith) (omega arith))

-- A byte put into a pipe that is not full goes to the end of its contents.
pub contents-put :
    (p : Pipe) (ch : ℕ)
    → IsValid p
    → count p < pipesize
    → (contents (put ch p) ≡ contents p ++ ch ∷ [])
      × IsValid (put ch p)
      × (count (put ch p) ≡ suc (count p))
contents-put p ch v room =
    let more : count (put ch p) ≡ suc (count p) = omega (arith, v.nread_word, v.nwrite_word) in
    (
      ap (window (put ch p).buf p.nread) more
          ∙ window-snoc p.buf p.nread (count p) ch (p.nwrite % pipesize)
              (omega (arith, v.nread_word, v.nwrite_word)) room,
      record { nread_word = v.nread_word; nwrite_word = omega arith; fits = omega (arith, more) },
      more,
    )

-- The byte at the head is the first of the contents, and skipping it leaves the rest.
pub contents-skip :
    (p : Pipe)
    → IsValid p
    → p.nread ≢ p.nwrite
    → (contents p ≡ head_byte p ∷ contents (skip_byte p))
      × IsValid (skip_byte p)
      × (count p ≡ suc (count (skip_byte p)))
contents-skip p v ne =
    let less : count p ≡ suc (count (skip_byte p)) = omega (arith, v.nread_word, v.nwrite_word) in
    (
      ap (window p.buf p.nread) less,
      record {
        nread_word = omega arith;
        nwrite_word = v.nwrite_word;
        fits = omega (arith, less, v.fits);
      },
      less,
    )

-- The two tests of the code on a valid pipe.
pub full_iff :
    (p : Pipe) → IsValid p → (p.nwrite ≡ (p.nread + pipesize) % 2 ^ 32) ↔ (count p ≡ pipesize)
full_iff p v = (
  (λ e. omega (arith, v.nread_word, v.nwrite_word)),
  (λ e. omega (arith, v.nread_word, v.nwrite_word)),
)

pub empty_iff : (p : Pipe) → IsValid p → (p.nread ≡ p.nwrite) ↔ (contents p ≡ [])
empty_iff p v = (
  (λ e.
      let none_left : count p ≡ 0 = omega (arith, v.nread_word) in
      ap (window p.buf p.nread) none_left),
  (λ e.
      let none_left : count p ≡ 0 = sym (length-window p.buf p.nread (count p)) ∙ ap length e in
      omega (arith, v.nread_word, v.nwrite_word)),
)

pub length-contents : (p : Pipe) → length (contents p) ≡ count p
length-contents p = length-window p.buf p.nread (count p)
