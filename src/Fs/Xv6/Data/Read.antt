-- ===== src/Fs/Xv6/Data/Read.antt =====
-- The loop of readi (fs/xv6fs.c) on the file's bytes, for copies that do not fail.
use re_xvapor.Base.{
  ℕ, zero, suc, ◌+◌, ◌-◌, ◌*◌, ◌/◌, ◌%◌, ◌≤◌, ◌<◌, ◌≡◌, ◌≢◌, refl, sym, ◌∙◌, ap, subst, false, ◌&&◌,
  Bool-cases, Option, none, some, ltb, leb, ◌==◌, ==→eq, ==→ne, ne→==, arith, inl, inr,
}
use re_xvapor.Fs.Xv6.{Volume, bsize}
use re_xvapor.Fs.Xv6.Free.{free}
use re_xvapor.Fs.Xv6.Inode.{Inode, bmap}
use re_xvapor.Fs.Xv6.Inode.Map.{mapped, IsFile}
use re_xvapor.Fs.Xv6.Inode.Grow.{byte}
use re_xvapor.Fs.Xv6.Inode.Entry.{Bmapped, got, full}
use re_xvapor.Fs.Xv6.Inode.Bmap.{bmap-Bmapped}
use re_xvapor.Fs.Xv6.Data.{Memory, to_memory, piece, Transfer, readi_from}
use re_xvapor.Fs.Xv6.Data.Stored.{
  blocks, NoRoom, NoRoom-before, Stored, Stored-refl, Stored-trans, Grows-Stored,
}
use re_xvapor.Fs.Xv6.Data.Piece.{Copies, piece_bounds, blocks_step, join}

-- A read of `left` bytes at `off`, or a panic where a file block in the range was missing and at most
-- three disk blocks for each block of the range are free.
pub data Got (dst off left tot : ℕ) (b : Memory) (v : Volume) (ip : Inode)
    : Option Transfer → Type 0 where
  got_bytes :
      (v' : Volume) (ip' : Inode) (b' : Memory)
      → Stored v ip v' ip' (byte v ip)
      → ((x : ℕ) → b' x ≡ to_memory dst off left (byte v ip) b x)
      → free v ≤ free v' + 3 * blocks off left
      → Got dst off left tot b v ip (
          some (record {
            count = tot + left;
            inode = ip';
            volume = v';
            memory = b';
            offset = off + left;
          }))
  ran_out : NoRoom off left v ip (3 * blocks off left) → Got dst off left tot b v ip none

module _ (fails : ℕ → ℕ → Option ℕ) (fuel tot dst off : ℕ) (b : Memory) where
  step_done :
      (ip : Inode) (v : Volume)
      → readi_from fails (suc fuel) tot dst off 0 ip v b
        ≡ some (record { count = tot; inode = ip; volume = v; memory = b; offset = off })
  unfolding readi_from
  step_done ip v = refl

  module _ (left : ℕ) (ip : Inode) (v : Volume) (more : (left == 0) ≡ false) where
    abbrev m : ℕ
    m = piece left off

    step_panic :
        bmap (off / bsize) ip v ≡ none → readi_from fails (suc fuel) tot dst off left ip v b ≡ none
    unfolding readi_from
    step_panic e = rw (more, e) refl

    step_next :
        (a : ℕ) (ip1 : Inode) (v1 : Volume)
        → bmap (off / bsize) ip v ≡ some (a, ip1, v1)
        → (a == 0) ≡ false
        → fails dst m ≡ none
        → readi_from fails (suc fuel) tot dst off left ip v b
          ≡ readi_from fails fuel
              (tot + m)
              (dst + m)
              (off + m)
              (left - m)
              ip1
              v1
              (to_memory dst (off % bsize) m (v1.block a) b)
    unfolding readi_from
    step_next a ip1 v1 e nz ok = rw (more, e, nz, ok) refl

result_eq :
    (dst off left tot : ℕ) (b : Memory) (v : Volume) (ip : Inode) (v' : Volume) (ip' : Inode)
    (b' : Memory) (count offset : ℕ)
    → count ≡ tot + left
    → offset ≡ off + left
    → Got dst off left tot b v ip (
        some (record {
          count = tot + left;
          inode = ip';
          volume = v';
          memory = b';
          offset = off + left;
        }))
    → Got dst off left tot b v ip
        (some (record { count = count; inode = ip'; volume = v'; memory = b'; offset = offset }))
result_eq dst off left tot b v ip v' ip' b' count offset e e' w = rw (e, e') w

-- The copy of one block, as bytes of the file.
module _ (v1 : Volume) (ip1 : Inode) (dst off m : ℕ) (b : Memory)
    (there : mapped v1 ip1 (off / 512) ≢ 0) (fits : off % 512 + m ≤ 512) where
  as_byte :
      (i : ℕ) → i / 512 ≡ off / 512 → v1.block (mapped v1 ip1 (off / 512)) (i % 512) ≡ byte v1 ip1 i
  as_byte i e =
      let nz : (mapped v1 ip1 (off / 512) == 0) ≡ false = ne→== _ _ there in
      let at : mapped v1 ip1 (i / 512) ≡ mapped v1 ip1 (off / 512) = ap (mapped v1 ip1) e in
      rw (at, nz) refl

  piece_bytes :
      (x : ℕ)
      → to_memory dst (off % 512) m (v1.block (mapped v1 ip1 (off / 512))) b x
        ≡ to_memory dst off m (byte v1 ip1) b x
  piece_bytes x = elim (Bool-cases (leb dst x && ltb x (dst + m))) [
    | inr out ↦ rw out refl
    | inl in_range ↦
        let index : off % 512 + (x - dst) ≡ (off + (x - dst)) % 512 = ground arith in
        let same : (off + (x - dst)) / 512 ≡ off / 512 = ground arith in
        rw (in_range, index) (as_byte (off + (x - dst)) same)
  ]

-- Two files with the same bytes.
memory_ext :
    (dst off left : ℕ) (f g : ℕ → ℕ) (b c : Memory) (x : ℕ)
    → off + left ≤ 140 * 512
    → ((i : ℕ) → i < 140 * 512 → f i ≡ g i)
    → b x ≡ c x
    → to_memory dst off left f b x ≡ to_memory dst off left g c x
memory_ext dst off left f g b c x fits same e =
    elim (Bool-cases (leb dst x && ltb x (dst + left))) [
      | inr out ↦ rw (out, e) refl
      | inl in_range ↦ rw in_range (same (off + (x - dst)) (ground arith))
    ]

-- One block, then the rest.
module _ (dst off left tot : ℕ) (b : Memory) (v : Volume) (ip : Inode) (v1 : Volume) (ip1 : Inode)
    (more : (left == 0) ≡ false) (fits : off + left ≤ 140 * 512)
    (s : Stored v ip v1 ip1 (byte v ip)) (there : mapped v1 ip1 (off / 512) ≢ 0)
    (cost : free v ≤ free v1 + 3) where
  abbrev n : ℕ
  n = piece left off

  abbrev b1 : Memory
  b1 = to_memory dst (off % bsize) n (v1.block (mapped v1 ip1 (off / 512))) b

  then-Got :
      (o : Option Transfer)
      → Got (dst + n) (off + n) (left - n) (tot + n) b1 v1 ip1 o
      → Got dst off left tot b v ip o
  then-Got o (got_bytes v2 ip2 b2 s2 mem cost2) =
      let bounds = piece_bounds left off (==→ne _ _ more) in
      result_eq dst off left tot b v ip v2 ip2 b2 _ _ (omega (arith, bounds.1))
        (omega (arith, bounds.1))
        (got_bytes v2 ip2 b2 (Stored-trans v ip v1 ip1 v2 ip2 _ _ _ s s2 (λ i lo bytes. bytes i lo))
          (λ x.
            mem x
            ∙ (memory_ext (dst + n) (off + n) (left - n) _ (byte v ip) b1
                  (to_memory dst off n (byte v ip) b) x (omega (arith, bounds.1)) s.bytes (first x)
                ∙ join off dst left n (byte v ip) b x bounds.1))
          (omega (arith, cost, cost2, blocks_step left off (==→ne _ _ more))))
    where
      first : (x : ℕ) → b1 x ≡ to_memory dst off n (byte v ip) b x
      first x =
          let bounds = piece_bounds left off (==→ne _ _ more) in
          piece_bytes v1 ip1 dst off n b there bounds.2 x
          ∙ memory_ext dst off n _ (byte v ip) b b x (omega (arith, bounds.1)) s.bytes refl
  then-Got o (ran_out r) =
      let bounds = piece_bounds left off (==→ne _ _ more) in
      ran_out (
        NoRoom-before off left (off + n) (left - n) v ip v1 ip1 _ (3 * blocks (off + n) (left - n))
          3 (3 * blocks off left) s (omega arith) (omega (arith, bounds.1)) fits cost
          (omega (arith, blocks_step left off (==→ne _ _ more))) r)

nothing_read :
    (dst off tot : ℕ) (b : Memory) (v : Volume) (ip : Inode)
    → IsFile v ip
    → Got dst off 0 tot b v ip
        (some (record { count = tot; inode = ip; volume = v; memory = b; offset = off }))
nothing_read dst off tot b v ip h =
    result_eq dst off 0 tot b v ip v ip b tot off (omega arith) (omega arith)
      (got_bytes v ip b (Stored-refl v ip h) (λ x. none_in x) (omega arith))
  where
    none_in : (x : ℕ) → b x ≡ to_memory dst off 0 (byte v ip) b x
    none_in x = let out : (leb dst x && ltb x (dst + 0)) ≡ false = ground arith in rw out refl

module _ (fails : ℕ → ℕ → Option ℕ) where
  after_bmap :
      (fuel tot dst off left : ℕ) (ip : Inode) (v : Volume) (b : Memory)
      → off + left ≤ 140 * 512
      → Copies fails dst left
      → (more : (left == 0) ≡ false) → (o : Option (ℕ × Inode × Volume))
      → bmap (off / bsize) ip v ≡ o
      → Bmapped v ip (off / 512) 2 o
      → ((v1 : Volume) (ip1 : Inode) (b1 : Memory)
          → IsFile v1 ip1
          → Got
              (dst + piece left off)
              (off + piece left off)
              (left - piece left off)
              (tot + piece left off)
              b1
              v1
              ip1
              (readi_from fails fuel
                (tot + piece left off)
                (dst + piece left off)
                (off + piece left off)
                (left - piece left off)
                ip1
                v1
                b1))
      → Got dst off left tot b v ip (readi_from fails (suc fuel) tot dst off left ip v b)
  after_bmap fuel tot dst off left ip v b fits ok more o e (full hole few) rest =
      subst (Got dst off left tot b v ip)
        (sym (step_panic fails fuel tot dst off b left ip v more e))
        (ran_out (record {
          hole = off;
          start = omega arith;
          below = ground arith;
          missing = hole;
          few = bound few;
        }))
    where
      bound : free v ≤ 2 → free v ≤ 3 * blocks off left
      bound few = ground (arith, few)
  after_bmap fuel tot dst off left ip v b fits ok more o e (got a ip1 v1 g here nz stays cost)
        rest =
      let bounds = piece_bounds left off (==→ne _ _ more) in
      let there : mapped v1 ip1 (off / 512) ≢ 0 = λ z. nz (sym here ∙ z) in
      let gives : bmap (off / bsize) ip v ≡ some (mapped v1 ip1 (off / 512), ip1, v1) =
        e ∙ ap (λ (x : ℕ). some (x, ip1, v1)) (sym here) in
      let s = Grows-Stored v ip v1 ip1 g in
      subst (Got dst off left tot b v ip)
        (sym (
          step_next fails fuel tot dst off b left ip v more (mapped v1 ip1 (off / 512)) ip1 v1 gives
            (ne→== _ _ there) (ok dst (piece left off) (omega arith) (omega (arith, bounds.1)))))
        (then-Got dst off left tot b v ip v1 ip1 more fits s there cost _ (rest v1 ip1 _ s.file))

  pub loop-Got :
      (fuel tot dst off left : ℕ) (ip : Inode) (v : Volume) (b : Memory)
      → IsFile v ip
      → off + left ≤ 140 * 512
      → left < fuel
      → Copies fails dst left
      → Got dst off left tot b v ip (readi_from fails fuel tot dst off left ip v b)
  loop-Got zero tot dst off left ip v b h fits enough ok = absurd (omega arith)
  loop-Got (suc fuel) tot dst off left ip v b h fits enough ok = elim (Bool-cases (left == 0)) [
    | inl done ↦ stopped fuel tot dst off left ip v b h (==→eq _ _ done)
    | inr more ↦
        let bounds = piece_bounds left off (==→ne _ _ more) in
        let r = bmap-Bmapped v ip (off / 512) h (ground arith) in
        after_bmap fuel tot dst off left ip v b fits ok more (bmap (off / bsize) ip v) refl r
          (λ v1 ip1 b1 h1.
            loop-Got fuel (tot + piece left off) (dst + piece left off) (off + piece left off)
              (left - piece left off) ip1 v1 b1 h1 (omega (arith, bounds.1))
              (omega (arith, bounds.0))
              (λ x m lo hi. ok x m (omega arith) (omega (arith, bounds.1))))
  ]
    where
      stopped :
          (fuel tot dst off left : ℕ) (ip : Inode) (v : Volume) (b : Memory)
          → IsFile v ip
          → left ≡ 0
          → Got dst off left tot b v ip (readi_from fails (suc fuel) tot dst off left ip v b)
      stopped fuel tot dst off left ip v b h e =
          rw (e, step_done fails fuel tot dst off b ip v) (nothing_read dst off tot b v ip h)
