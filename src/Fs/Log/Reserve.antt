-- ===== src/Fs/Log/Reserve.antt =====
-- The reservation of log space (begin_op, end_op and log_write of fs/log.c): operations in
-- progress, each with the number of blocks that it may still log.
use re_xvapor.Base.{
  ℕ, suc, ◌+◌, ◌*◌, ◌^◌, ◌≤◌, ◌<◌, ◌≡◌, refl, ◌≢◌, ◌⊎◌, inl, inr, arith, ◌∙◌, Bool, true, false,
  List, [], ◌∷◌, ◌++◌, none, some, length, length-append, All, All-append, All-append_left,
  All-append_right, sym, ap,
}
use re_xvapor.Fs.Log.Frame.{outstanding-commit, n-commit}
use re_xvapor.Fs.Log.{Log, maxopblocks, logsize, log_write, begin_op, end_op_enter, end_op_commit}

abbrev pub sum : List ℕ → ℕ
sum [] = 0
sum (x ∷ xs) = x + sum xs

sum-append : (xs ys : List ℕ) → sum (xs ++ ys) ≡ sum xs + sum ys
sum-append [] ys = omega arith
sum-append (x ∷ xs) ys = omega (arith, sum-append xs ys)

-- The log, and the budget of each operation between its begin_op and its end_op.
pub record Ops : Type 0 where
  pub log : Log
  pub budgets : List ℕ

-- The critical sections of the log, in any order. An operation that has logged its share of
-- MAXOPBLOCKS blocks logs no more.
pub data Step (o o' : Ops) : Type 0 where
  begins : begin_op o.log ≡ some o'.log → o'.budgets ≡ maxopblocks ∷ o.budgets → Step o o'
  logs :
      (b left : ℕ) (before after : List ℕ)
      → o.budgets ≡ before ++ suc left ∷ after
      → log_write b o.log ≡ some o'.log
      → o'.budgets ≡ before ++ left ∷ after
      → Step o o'
  ends :
      (left : ℕ) (last : Bool) (before after : List ℕ)
      → o.budgets ≡ before ++ left ∷ after
      → end_op_enter o.log ≡ some (last, o'.log)
      → o'.budgets ≡ before ++ after
      → Step o o'
  commits :
      o.log.committing ≡ true → o'.log ≡ end_op_commit o.log → o'.budgets ≡ o.budgets → Step o o'

pub data Reach (o : Ops) : Ops → Type 0 where
  here : Reach o o
  next : {o' o'' : Ops} → Reach o o' → Step o' o'' → Reach o o''

-- The blocks logged and the budgets together fit the log; while it commits, no operation is in
-- progress.
pub record IsReserved (o : Ops) : Type 0 where
  pub counted : o.log.outstanding ≡ length o.budgets
  pub room : o.log.n + sum o.budgets ≤ logsize
  pub each : All (λ x. x ≤ maxopblocks) o.budgets
  pub few : length o.budgets ≤ 3
  pub quiet : (o.log.committing ≡ false) ⊎ (o.budgets ≡ [])

true_ne_false : true ≢ false
true_ne_false e = cc

end_op_commit_lem :
    (s : Log) → ((end_op_commit s).outstanding ≡ s.outstanding) × ((end_op_commit s).n ≡ 0)
unfolding end_op_commit
end_op_commit_lem s = (outstanding-commit s, n-commit s)

module _ (s s' : Log) where
  begin_op_lem :
      (k : ℕ)
      → s.outstanding ≡ k
      → k ≤ 3
      → s.n ≤ logsize
      → begin_op s ≡ some s'
      → (s.committing ≡ false)
        × (s'.outstanding ≡ k + 1)
        × (s'.n ≡ s.n)
        × (s'.committing ≡ false)
        × (s.n + (k + 1) * maxopblocks ≤ logsize)
  unfolding begin_op
  begin_op_lem k e small fits h = ground arith

  log_write_lem :
      (b : ℕ)
      → log_write b s ≡ some s'
      → (s'.outstanding ≡ s.outstanding) × (s'.committing ≡ s.committing) × (s'.n ≤ s.n + 1)
  unfolding log_write
  log_write_lem b h = ground arith

  end_op_enter_lem :
      (k : ℕ) (last : Bool)
      → s.outstanding ≡ suc k
      → k ≤ 2
      → end_op_enter s ≡ some (last, s')
      → (s'.outstanding ≡ k) × (s'.n ≡ s.n) × ((s'.committing ≡ false) ⊎ (k ≡ 0))
  unfolding end_op_enter
  end_op_enter_lem k last e small h = ground arith

sum-middle : (x : ℕ) (xs ys : List ℕ) → sum (xs ++ x ∷ ys) ≡ sum (xs ++ ys) + x
sum-middle x xs ys = omega (arith, sum-append xs (x ∷ ys), sum-append xs ys)

length-middle : (x : ℕ) (xs ys : List ℕ) → length (xs ++ x ∷ ys) ≡ suc (length (xs ++ ys))
length-middle x xs ys = omega (arith, length-append xs (x ∷ ys), length-append xs ys)

sum-le : (xs : List ℕ) → All (λ x. x ≤ maxopblocks) xs → sum xs ≤ length xs * maxopblocks
sum-le [] h = omega arith
sum-le (x ∷ xs) h = omega (arith, h.0, sum-le xs h.1)

nil_of_length : (xs : List ℕ) → length xs ≡ 0 → xs ≡ []
nil_of_length [] h = refl
nil_of_length (x ∷ xs) h = absurd (omega arith)

cons_ne_nil : (x : ℕ) (xs ys : List ℕ) → xs ++ x ∷ ys ≢ []
cons_ne_nil x [] ys e = cc
cons_ne_nil x (y ∷ xs) ys e = cc

busy :
    {o : Ops} (x : ℕ) (xs ys : List ℕ)
    → IsReserved o
    → o.budgets ≡ xs ++ x ∷ ys
    → o.log.committing ≡ false
busy x xs ys v g = elim (v.quiet) [ inl q ↦ q | inr e ↦ absurd (cons_ne_nil x xs ys (sym g ∙ e)) ]

abbrev Small : ℕ → Type 0
Small x = x ≤ maxopblocks

Step-IsReserved : {o o' : Ops} → Step o o' → IsReserved o → IsReserved o'
Step-IsReserved {o} {o'} (begins h g) v =
    let f =
      begin_op_lem o.log o'.log (length o.budgets) v.counted v.few (omega (arith, v.room)) h in
    record {
      counted = rw g (omega (arith, f.1));
      room = rw g (omega (arith, f.2, f.4, sum-le o.budgets v.each));
      each = rw g (omega arith, v.each);
      few = rw g (omega (arith, f.4));
      quiet = inl f.3;
    }
Step-IsReserved {o} {o'} (logs b left before after g h g') v =
    let f = log_write_lem o.log o'.log b h in
    let small : All Small (before ++ suc left ∷ after) = rw (← g) v.each in
    let rest : Small (suc left) × All Small after =
      All-append_right Small before (suc left ∷ after) small in
    record {
      counted = rw g' (
          omega (
            arith,
            f.0,
            v.counted,
            ap length g,
            length-middle (suc left) before after,
            length-middle left before after,
          ));
      room = rw g' (
          omega (
            arith,
            f.2,
            v.room,
            ap sum g,
            sum-middle (suc left) before after,
            sum-middle left before after,
          ));
      each = rw g' (
          All-append Small before (left ∷ after)
            (All-append_left Small before (suc left ∷ after) small)
            (omega (arith, rest.0), rest.1));
      few = rw g' (
          omega (
            arith,
            v.few,
            ap length g,
            length-middle (suc left) before after,
            length-middle left before after,
          ));
      quiet = inl (f.1 ∙ busy (suc left) before after v g);
    }
Step-IsReserved {o} {o'} (ends left last before after g h g') v =
    let small : All Small (before ++ left ∷ after) = rw (← g) v.each in
    let rest : Small left × All Small after = All-append_right Small before (left ∷ after) small in
    let more : o.log.outstanding ≡ suc (length (before ++ after)) =
      v.counted ∙ (ap length g ∙ length-middle left before after) in
    let f =
      end_op_enter_lem o.log o'.log (length (before ++ after)) last more
        (omega (arith, v.few, v.counted)) h in
    record {
      counted = rw g' f.0;
      room = rw g' (omega (arith, f.1, v.room, ap sum g, sum-middle left before after));
      each = rw g' (
          All-append Small before after (All-append_left Small before (left ∷ after) small) rest.1);
      few = rw g' (omega (arith, v.few, v.counted));
      quiet = elim (f.2) [ inl q ↦ inl q | inr e ↦ inr (g' ∙ nil_of_length (before ++ after) e) ];
    }
Step-IsReserved {o} {o'} (commits c h g) v =
    let idle : o.budgets ≡ [] = elim (v.quiet) [
      | inl q ↦ absurd (true_ne_false (sym c ∙ q))
      | inr e ↦ e
    ] in
    let f = end_op_commit_lem o.log in
    record {
      counted = rw (h, g) (f.0 ∙ v.counted);
      room = rw (h, g, idle) (omega (arith, f.1));
      each = rw (g, idle) tt;
      few = rw (g, idle) (omega arith);
      quiet = inr (g ∙ idle);
    }

-- The log at boot: no operation in progress, nothing logged.
abbrev pub IsIdle : Ops → Type 0
IsIdle o = (o.budgets ≡ []) × (o.log.outstanding ≡ 0) × (o.log.n ≡ 0)

-- However operations begin, log, end and commit, the blocks logged and the blocks that the
-- operations in progress may still log fit the log together, and no operation is in progress
-- while the log commits.
pub Reach-IsReserved : {o o' : Ops} → IsIdle o → Reach o o' → IsReserved o'
Reach-IsReserved {o} h here = record {
  counted = rw (h.0) h.1;
  room = rw (h.0) (omega (arith, h.2));
  each = rw (h.0) tt;
  few = rw (h.0) (omega arith);
  quiet = inr h.0;
}
Reach-IsReserved h (next r st) = Step-IsReserved st (Reach-IsReserved h r)

pub log_write_fits :
    (b : ℕ) (s : Log)
    → s.n < logsize
    → s.n + 1 < s.size
    → 0 < s.outstanding
    → s.outstanding < 2 ^ 31
    → log_write b s ≢ none
unfolding log_write
log_write_fits b s h k l m = ground arith

pub log_write_keeps :
    (b : ℕ) (s s' : Log)
    → log_write b s ≡ some s'
    → (s'.outstanding ≡ s.outstanding) × (s'.size ≡ s.size) × (s'.n ≤ s.n + 1)
unfolding log_write
log_write_keeps b s s' h = ground arith

-- In a log of more than LOGSIZE blocks no log_write within an operation's budget ever panics.
pub no_panic_in_budget :
    {o o' : Ops} (b left : ℕ) (before after : List ℕ)
    → IsIdle o
    → Reach o o'
    → logsize < o'.log.size
    → o'.budgets ≡ before ++ suc left ∷ after
    → log_write b o'.log ≢ none
no_panic_in_budget {o} {o'} b left before after h r big g =
    let v = Reach-IsReserved h r in
    let total = ap sum g ∙ sum-middle (suc left) before after in
    let many = ap length g ∙ length-middle (suc left) before after in
    log_write_fits b o'.log (omega (arith, v.room, total)) (omega (arith, v.room, total))
      (omega (arith, v.counted, many)) (omega (arith, v.counted, v.few))

-- A log of LOGSIZE blocks, which is what mkfs makes, panics on the last block that begin_op has
-- promised: the header takes one of its blocks.
pub log_write_full : (b : ℕ) (s : Log) → s.size ≡ logsize → s.n + 1 ≡ logsize → log_write b s ≡ none
unfolding log_write
log_write_full b s h k = ground arith
