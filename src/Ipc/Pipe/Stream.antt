-- ===== src/Ipc/Pipe/Stream.antt =====
-- A pipe between its writers and readers (ipc/pipe.c): any order of stretches of calls.
use re_xvapor.Base.{
  ℕ, ◌-◌, length, ◌≡◌, refl, sym, ap, ◌∙◌, List, [], ◌++◌, Bool, true, false, Option, append_assoc,
  take-append-drop, arith,
}
use re_xvapor.Ipc.Pipe.{Pipe, pipewrite_from, piperead_from, pipeclose, fresh}
use re_xvapor.Ipc.Pipe.Contents.{contents, IsValid}
use re_xvapor.Ipc.Pipe.Write.{source, stopped_at, pipe_of, pipewrite_appends, Fetched-source}
use re_xvapor.Ipc.Pipe.Read.{Writable, piperead_from-Takes}

-- The pipe, all bytes that pipewrite has taken from its callers, and all that piperead has stored.
pub record Stream : Type 0 where
  pub pipe : Pipe
  pub sent : List ℕ
  pub received : List ℕ

-- A stretch of a pipewrite, whichever byte it goes on from; the copying of a piperead whose memory
-- can be stored to; the closing of an end.
pub data Step (s s' : Stream) : Type 0 where
  writes :
      (killed : ℕ → Bool) (copyin : ℕ → Option ℕ) (k i : ℕ)
      → s'.pipe ≡ pipe_of (pipewrite_from killed copyin k i s.pipe)
      → s'.sent
        ≡ s.sent ++ source copyin i (stopped_at (pipewrite_from killed copyin k i s.pipe) - i)
      → s'.received ≡ s.received
      → Step s s'
  reads :
      (copyout : ℕ → ℕ → Bool) (n : ℕ)
      → Writable copyout
      → s'.pipe ≡ (piperead_from copyout n 0 s.pipe).2
      → s'.sent ≡ s.sent
      → s'.received ≡ s.received ++ (piperead_from copyout n 0 s.pipe).1
      → Step s s'
  closes :
      (writable : Bool)
      → s'.pipe ≡ (pipeclose writable s.pipe).1
      → s'.sent ≡ s.sent
      → s'.received ≡ s.received
      → Step s s'

pub data Reach (s : Stream) : Stream → Type 0 where
  here : Reach s s
  next : {s' s'' : Stream} → Reach s s' → Step s' s'' → Reach s s''

-- What was received, and then what is in the pipe, is what was sent.
pub record IsFifo (s : Stream) : Type 0 where
  pub valid : IsValid s.pipe
  pub in_order : s.received ++ contents s.pipe ≡ s.sent

pipeclose_keeps :
    (writable : Bool) (p : Pipe)
    → IsValid p
    → IsValid (pipeclose writable p).1 × (contents (pipeclose writable p).1 ≡ contents p)
unfolding pipeclose
pipeclose_keeps true p v =
    (record { nread_word = v.nread_word; nwrite_word = v.nwrite_word; fits = v.fits }, refl)
pipeclose_keeps false p v =
    (record { nread_word = v.nread_word; nwrite_word = v.nwrite_word; fits = v.fits }, refl)

Step-IsFifo : {s s' : Stream} → Step s s' → IsFifo s → IsFifo s'
Step-IsFifo {s} {s'} (writes killed copyin k i e f g) v =
    let (bytes, w) = pipewrite_appends killed copyin k i s.pipe v.valid in
    let many : stopped_at (pipewrite_from killed copyin k i s.pipe) - i ≡ length bytes =
      omega (arith, w.counted) in
    record {
      valid = rw e w.appends.valid;
      in_order =
          rw (e, f, g, many, ← Fetched-source copyin i bytes w.fetched)
            (ap (λ l. s.received ++ l) w.appends.appended
              ∙ (sym (append_assoc s.received (contents s.pipe) bytes)
                  ∙ ap (λ l. l ++ bytes) v.in_order));
    }
Step-IsFifo {s} {s'} (reads copyout n ok e f g) v =
    let t = piperead_from-Takes copyout n 0 s.pipe ok v.valid in
    record {
      valid = rw e t.valid;
      in_order =
          rw (e, f, g, t.stored, t.rest)
            (append_assoc s.received _ _
              ∙ (ap (λ l. s.received ++ l) (take-append-drop n (contents s.pipe)) ∙ v.in_order));
    }
Step-IsFifo {s} {s'} (closes writable e f g) v =
    let t = pipeclose_keeps writable s.pipe v.valid in
    record { valid = rw e t.0; in_order = rw (e, f, g, t.1) v.in_order }

-- Through any run of writes, reads and closes of a new pipe, the bytes received are the first of
-- the bytes sent, in their order, and the rest are in the pipe: none is lost, repeated or reordered.
pub pipe_fifo :
    {s s' : Stream} (buf : ℕ → ℕ)
    → s.pipe ≡ fresh buf
    → s.sent ≡ []
    → s.received ≡ []
    → Reach s s'
    → s'.received ++ contents s'.pipe ≡ s'.sent
pipe_fifo {s} buf e f g r = (run r).in_order
  where
    start : IsFifo s
    start = record { valid = rw e (omega arith); in_order = rw (e, f, g) refl }

    run : {t : Stream} → Reach s t → IsFifo t
    run here = start
    run (next r st) = Step-IsFifo st (run r)
