-- ===== src/Fs/Xv6/Data/Write.antt =====
-- The loop of writei (fs/xv6fs.c) on the file's bytes, for copies that do not fail.
use re_xvapor.Base.{
  true, ℕ, zero, suc, ◌+◌, ◌-◌, ◌*◌, ◌/◌, ◌%◌, ◌≤◌, ◌<◌, ◌≡◌, ◌≢◌, refl, sym, ◌∙◌, ap, subst, false,
  ◌&&◌, Bool-cases, Option, none, some, ltb, leb, ◌==◌, ==→eq, ==→ne, ne→==, if◌then◌else◌, arith,
  inl, inr,
}
use re_xvapor.Fs.Xv6.{Block, Volume, bsize, write_block}
use re_xvapor.Fs.Xv6.Inode.{Inode, bmap}
use re_xvapor.Fs.Xv6.Inode.Map.{slot, mapped, IsFile}
use re_xvapor.Fs.Xv6.Inode.Grow.{byte, Grows}
use re_xvapor.Fs.Xv6.Free.{free}
use re_xvapor.Fs.Xv6.Inode.Entry.{Bmapped, got, full}
use re_xvapor.Fs.Xv6.Inode.Bmap.{bmap-Bmapped}
use re_xvapor.Fs.Xv6.Data.{Memory, to_block, piece, Transfer, writei_from}
use re_xvapor.Fs.Xv6.Data.Bytes.{owned_write, byte_else, byte_here}
use re_xvapor.Fs.Xv6.Data.Stored.{
  blocks, NoRoom, NoRoom-before, end_free, Stored, Stored-refl, Stored-trans, grown-Stored,
}
use re_xvapor.Fs.Xv6.Data.Piece.{
  Copies, piece_bounds, blocks_step, window, shift, outside, slots_differ, join,
}

-- A write of `left` bytes at `off`, or a panic where a file block in the range was missing and at most
-- three disk blocks for each block of the range are free.
pub data Wrote (src off left tot : ℕ) (b : Memory) (v : Volume) (ip : Inode)
    : Option Transfer → Type 0 where
  wrote :
      (v' : Volume) (ip' : Inode)
      → Stored v ip v' ip' (to_block src off left b (byte v ip))
      → ((i : ℕ) → off ≤ i → i < off + left → mapped v' ip' (i / 512) ≢ 0)
      → free v ≤ free v' + 3 * blocks off left
      → Wrote src off left tot b v ip (
          some (record {
            count = tot + left;
            inode = ip';
            volume = v';
            memory = b;
            offset = off + left;
          }))
  ran_out : NoRoom off left v ip (3 * blocks off left) → Wrote src off left tot b v ip none

module _ (fails : ℕ → ℕ → Option ℕ) (b : Memory) where
  pub step_done :
      (fuel tot src off : ℕ) (ip : Inode) (v : Volume)
      → writei_from fails (suc fuel) tot src off 0 ip v b
        ≡ some (record { count = tot; inode = ip; volume = v; memory = b; offset = off })
  unfolding writei_from
  step_done fuel tot src off ip v = refl

  module _ (fuel tot src off left : ℕ) (ip : Inode) (v : Volume) (more : (left == 0) ≡ false) where
    abbrev m : ℕ
    m = piece left off

    pub step_panic :
        bmap (off / bsize) ip v ≡ none → writei_from fails (suc fuel) tot src off left ip v b ≡ none
    unfolding writei_from
    step_panic e = rw (more, e) refl

    abbrev pub block_of : ℕ → Volume → Block
    block_of a v1 = to_block src (off % bsize) m b (v1.block a)

    pub step_zero :
        (a : ℕ) (ip1 : Inode) (v1 : Volume)
        → bmap (off / bsize) ip v ≡ some (a, ip1, v1)
        → (a == 0) ≡ true
        → writei_from fails (suc fuel) tot src off left ip v b
          ≡ some (record { count = tot; inode = ip1; volume = v1; memory = b; offset = off })
    unfolding writei_from
    step_zero a ip1 v1 e z = rw (more, e, z) refl

    pub step_next :
        (a : ℕ) (ip1 : Inode) (v1 : Volume)
        → bmap (off / bsize) ip v ≡ some (a, ip1, v1)
        → (a == 0) ≡ false
        → fails src m ≡ none
        → writei_from fails (suc fuel) tot src off left ip v b
          ≡ writei_from fails fuel
              (tot + m)
              (src + m)
              (off + m)
              (left - m)
              ip1
              (write_block a (block_of a v1) v1)
              b
    unfolding writei_from
    step_next a ip1 v1 e nz ok = rw (more, e, nz, ok) refl

    module _ (v1 : Volume) (ip1 : Inode) (g : Grows v ip v1 ip1) (low : off / 512 < 140)
        (nz : mapped v1 ip1 (off / 512) ≢ 0) where
      abbrev a : ℕ
      a = mapped v1 ip1 (off / 512)

      low_slot : slot (off / 512) < 142
      low_slot = ground (arith, low)

      data_slot : slot (off / 512) ≢ 12
      data_slot = ground arith

      -- The bytes behind the write of one block.
      piece_bytes :
          (i : ℕ)
          → i < 140 * 512
          → byte (write_block a (block_of a v1) v1) ip1 i ≡ to_block src off m b (byte v ip) i
      piece_bytes i lo = elim (Bool-cases (off / 512 == i / 512)) [
        | inl same ↦
            let e : off / 512 ≡ i / 512 = ==→eq _ _ same in
            let at : mapped v1 ip1 (i / 512) ≡ a = ap (mapped v1 ip1) (sym e) in
            let there : (a == 0) ≡ false = ne→== _ _ nz in
            let old : v1.block a (i % 512) ≡ byte v ip i =
              sym (as_byte i at there) ∙ g.bytes i lo in
            byte_here v1 ip1 (slot (off / 512)) (block_of a v1) g.file low_slot data_slot nz i
              (ap slot e)
            ∙ rw (window off m i e, shift off i e, old) refl
        | inr other ↦
            byte_else v1 ip1 (slot (off / 512)) (block_of a v1) g.file low_slot data_slot nz i lo
              (λ same. slots_differ (off / 512) (i / 512) (==→ne _ _ other) same)
            ∙ (g.bytes i lo
                ∙ rw (outside off m i (==→ne _ _ other) (piece_bounds left off (==→ne _ _ more)).2)
                    refl)
      ]
        where
          as_byte :
              (i : ℕ)
              → mapped v1 ip1 (i / 512) ≡ a
              → (a == 0) ≡ false
              → byte v1 ip1 i ≡ v1.block a (i % 512)
          as_byte i at there = rw (at, there) refl

      grown_piece :
          Stored v ip (write_block a (block_of a v1) v1) ip1 (to_block src off m b (byte v ip))
      grown_piece =
          grown-Stored v ip v1 ip1 (slot (off / 512)) (block_of a v1) _ g low_slot data_slot nz
            piece_bytes

      grown_free : free (write_block a (block_of a v1) v1) ≡ free v1
      grown_free =
          end_free v ip v1 ip1 (slot (off / 512)) (block_of a v1) (to_block src off m b (byte v ip))
            g low_slot data_slot nz piece_bytes

      grown_filled : mapped (write_block a (block_of a v1) v1) ip1 (off / 512) ≢ 0
      grown_filled z = nz (
          sym (
            owned_write v1 ip1 (slot (off / 512)) (block_of a v1) g.file low_slot data_slot nz
              (slot (off / 512)))
          ∙ z)

-- The same result, with the numbers written otherwise.
result_eq :
    (src off left tot : ℕ) (b : Memory) (v : Volume) (ip : Inode) (v' : Volume) (ip' : Inode)
    (count offset : ℕ)
    → count ≡ tot + left
    → offset ≡ off + left
    → Wrote src off left tot b v ip (
        some (record {
          count = tot + left;
          inode = ip';
          volume = v';
          memory = b;
          offset = off + left;
        }))
    → Wrote src off left tot b v ip
        (some (record { count = count; inode = ip'; volume = v'; memory = b; offset = offset }))
result_eq src off left tot b v ip v' ip' count offset e e' w = rw (e, e') w

-- One block, then the rest.
module _ (src off left tot m : ℕ) (b : Memory) (v : Volume) (ip : Inode) (v1 : Volume) (ip1 : Inode)
    (low : m ≤ left) (s : Stored v ip v1 ip1 (to_block src off m b (byte v ip)))
    (filled : mapped v1 ip1 (off / 512) ≢ 0) (cost : free v ≤ free v1 + 3)
    (fewer : blocks (off + m) (left - m) + 1 ≤ blocks off left) (one : off % 512 + m ≤ 512) where
  same_bytes :
      (i : ℕ)
      → i < 140 * 512
      → ((j : ℕ) → j < 140 * 512 → byte v1 ip1 j ≡ to_block src off m b (byte v ip) j)
      → to_block (src + m) (off + m) (left - m) b (byte v1 ip1) i
        ≡ to_block src off left b (byte v ip) i
  same_bytes i lo bytes =
      ap
        (λ (x : ℕ).
          if leb (off + m) i && ltb i (off + m + (left - m))
          then b (src + m + (i - (off + m)))
          else x)
        (bytes i lo)
      ∙ join src off left m b (byte v ip) i low

  pub then-Wrote :
      (o : Option Transfer)
      → off + left ≤ 140 * 512
      → Wrote (src + m) (off + m) (left - m) (tot + m) b v1 ip1 o
      → Wrote src off left tot b v ip o
  then-Wrote o fits (wrote v2 ip2 s2 there cost2) =
      result_eq src off left tot b v ip v2 ip2 _ _ (omega arith) (omega arith) (
        wrote v2 ip2 (Stored-trans v ip v1 ip1 v2 ip2 _ _ _ s s2 same_bytes)
          (λ i lo hi. elim (Bool-cases (leb (off + m) i)) [
            | inl later ↦ there i (ground arith) (ground arith)
            | inr early ↦
                let same : off / 512 ≡ i / 512 = ground arith in
                s2.mapped_stays (i / 512) (omega arith) (λ z. filled (ap (mapped v1 ip1) same ∙ z))
          ])
          (omega (arith, cost, cost2, fewer)))
  then-Wrote o fits (ran_out r) = ran_out (
      NoRoom-before off left (off + m) (left - m) v ip v1 ip1 _ (3 * blocks (off + m) (left - m)) 3
        (3 * blocks off left) s (omega arith) (omega arith) fits cost (omega (arith, fewer)) r)

nothing_written :
    (src off tot : ℕ) (b : Memory) (v : Volume) (ip : Inode)
    → IsFile v ip
    → Wrote src off 0 tot b v ip
        (some (record { count = tot; inode = ip; volume = v; memory = b; offset = off }))
nothing_written src off tot b v ip h =
    result_eq src off 0 tot b v ip v ip tot off (omega arith) (omega arith) (
      wrote v ip
        (Stored-trans v ip v ip v ip _ _ _ (Stored-refl v ip h) (Stored-refl v ip h)
          (λ i lo bytes. none_in i))
        (λ i lo hi. absurd (omega arith)) (omega arith))
  where
    none_in : (i : ℕ) → byte v ip i ≡ to_block src off 0 b (byte v ip) i
    none_in i = let out : (leb off i && ltb i (off + 0)) ≡ false = ground arith in rw out refl

module _ (fails : ℕ → ℕ → Option ℕ) (b : Memory) where
  after_bmap :
      (fuel tot src off left : ℕ) (ip : Inode) (v : Volume)
      → off + left ≤ 140 * 512
      → Copies fails src left
      → (more : (left == 0) ≡ false) → (o : Option (ℕ × Inode × Volume))
      → bmap (off / bsize) ip v ≡ o
      → Bmapped v ip (off / 512) 2 o
      → ((v1 : Volume) (ip1 : Inode)
          → IsFile v1 ip1
          → Wrote
              (src + piece left off)
              (off + piece left off)
              (left - piece left off)
              (tot + piece left off)
              b
              v1
              ip1
              (writei_from fails fuel
                (tot + piece left off)
                (src + piece left off)
                (off + piece left off)
                (left - piece left off)
                ip1
                v1
                b))
      → Wrote src off left tot b v ip (writei_from fails (suc fuel) tot src off left ip v b)
  after_bmap fuel tot src off left ip v fits ok more o e (full hole few) rest =
      subst (Wrote src off left tot b v ip)
        (sym (step_panic fails b fuel tot src off left ip v more e))
        (ran_out (record {
          hole = off;
          start = omega arith;
          below = ground arith;
          missing = hole;
          few = bound few;
        }))
    where
      bound : free v ≤ 2 → free v ≤ 3 * blocks off left
      bound few = ground (arith, few)
  after_bmap fuel tot src off left ip v fits ok more o e (got a ip1 v1 g here nz stays cost) rest =
      let bounds = piece_bounds left off (==→ne _ _ more) in
      let there : mapped v1 ip1 (off / 512) ≢ 0 = λ z. nz (sym here ∙ z) in
      let gives : bmap (off / bsize) ip v ≡ some (mapped v1 ip1 (off / 512), ip1, v1) =
        e ∙ ap (λ (x : ℕ). some (x, ip1, v1)) (sym here) in
      let s = grown_piece fails b fuel tot src off left ip v more v1 ip1 g (ground arith) there in
      subst (Wrote src off left tot b v ip)
        (sym (
          step_next fails b fuel tot src off left ip v more (mapped v1 ip1 (off / 512)) ip1 v1 gives
            (ne→== _ _ there) (ok src (piece left off) (omega arith) (omega (arith, bounds.1)))))
        (then-Wrote src off left tot (piece left off) b v ip _ ip1 bounds.1 s
          (grown_filled fails b fuel tot src off left ip v more v1 ip1 g (ground arith) there)
          (omega (
            arith,
            cost,
            grown_free fails b fuel tot src off left ip v more v1 ip1 g (ground arith) there,
          ))
          (blocks_step left off (==→ne _ _ more)) bounds.2 _ fits (rest _ ip1 s.file))

  pub loop-Wrote :
      (fuel tot src off left : ℕ) (ip : Inode) (v : Volume)
      → IsFile v ip
      → off + left ≤ 140 * 512
      → left < fuel
      → Copies fails src left
      → Wrote src off left tot b v ip (writei_from fails fuel tot src off left ip v b)
  loop-Wrote zero tot src off left ip v h fits enough ok = absurd (omega arith)
  loop-Wrote (suc fuel) tot src off left ip v h fits enough ok = elim (Bool-cases (left == 0)) [
    | inl done ↦ stopped fuel tot src off left ip v h (==→eq _ _ done)
    | inr more ↦
        let bounds = piece_bounds left off (==→ne _ _ more) in
        let r = bmap-Bmapped v ip (off / 512) h (ground arith) in
        after_bmap fuel tot src off left ip v fits ok more (bmap (off / bsize) ip v) refl r
          (λ v1 ip1 h1.
            loop-Wrote fuel (tot + piece left off) (src + piece left off) (off + piece left off)
              (left - piece left off) ip1 v1 h1 (omega (arith, bounds.1)) (omega (arith, bounds.0))
              (λ x m lo hi. ok x m (omega arith) (omega (arith, bounds.1))))
  ]
    where
      stopped :
          (fuel tot src off left : ℕ) (ip : Inode) (v : Volume)
          → IsFile v ip
          → left ≡ 0
          → Wrote src off left tot b v ip (writei_from fails (suc fuel) tot src off left ip v b)
      stopped fuel tot src off left ip v h e =
          rw (e, step_done fails b fuel tot src off ip v) (nothing_written src off tot b v ip h)
