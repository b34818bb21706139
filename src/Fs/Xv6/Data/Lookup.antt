-- ===== src/Fs/Xv6/Data/Lookup.antt =====
-- dirlookup (fs/xv6fs.c) on the bytes of a directory.
use re_xvapor.Base.{
  ℕ, zero, suc, ◌+◌, ◌-◌, ◌*◌, ◌/◌, ◌%◌, ◌≤◌, ◌<◌, ◌≡◌, ◌≢◌, refl, sym, ◌∙◌, ap, subst, Bool, true,
  false, not, ◌&&◌, Bool-cases, Option, none, some, leb, ◌==◌, ==→eq, ==→ne, ne→==, arith, ◌⊎◌, inl,
  inr,
}
use re_xvapor.Fs.Xv6.{Volume, bsize, half_at}
use re_xvapor.Fs.Xv6.Free.{free}
use re_xvapor.Fs.Xv6.Inode.{Inode}
use re_xvapor.Fs.Xv6.Inode.Map.{IsFile}
use re_xvapor.Fs.Xv6.Inode.Grow.{byte}
use re_xvapor.Fs.Xv6.Data.{
  Memory, maxfile, dirent_size, same_name, read_dirent, dirlookup_from, dirlookup,
}
use re_xvapor.Fs.Xv6.Data.Stored.{NoRoom, NoRoom-before, Stored, Stored-refl, Stored-trans}
use re_xvapor.Fs.Xv6.Data.Dirent.{
  number_at, is_named, Entry, entry_read, no_room, read_dirent-Entry, number_ext, is_named_ext,
  read_number, read_named,
}

-- What the search for `name` from `off` on gives.
pub data Looked (name : Memory) (off : ℕ) (v : Volume) (dp : Inode)
    : Option (Option (ℕ × ℕ) × Inode × Volume) → Type 0 where
  found :
      (o : ℕ) (dp' : Inode) (v' : Volume)
      → Stored v dp v' dp' (byte v dp)
      → off ≤ o
      → o < dp.size
      → o % 16 ≡ 0
      → is_named name (byte v dp) o ≡ true
      → ((j : ℕ) → off ≤ j → j < o → j % 16 ≡ 0 → is_named name (byte v dp) j ≡ false)
      → Looked name off v dp (some (some (o, number_at (byte v dp) o), dp', v'))
  missing :
      (dp' : Inode) (v' : Volume)
      → Stored v dp v' dp' (byte v dp)
      → ((j : ℕ) → off ≤ j → j < dp.size → j % 16 ≡ 0 → is_named name (byte v dp) j ≡ false)
      → Looked name off v dp (some (none, dp', v'))
  panicked :
      NoRoom off (dp.size - off) v dp (3 * ((dp.size - off) / 16)) → Looked name off v dp none

module _ (name : Memory) (fuel off : ℕ) (dp : Inode) (v : Volume) where
  look_end : leb dp.size off ≡ true → dirlookup_from name (suc fuel) off dp v ≡ some (none, dp, v)
  unfolding dirlookup_from
  look_end e = rw e refl

  module _ (more : leb dp.size off ≡ false) where
    look_panic : read_dirent off dp v ≡ none → dirlookup_from name (suc fuel) off dp v ≡ none
    unfolding dirlookup_from
    look_panic e = rw (more, e) refl

    module _ (b : Memory) (dp' : Inode) (v' : Volume)
        (reads : read_dirent off dp v ≡ some (b, dp', v')) where
      look_next :
          (not (half_at b 0 == 0) && same_name 14 name b 0 2) ≡ false
          → dirlookup_from name (suc fuel) off dp v
            ≡ dirlookup_from name fuel (off + dirent_size) dp' v'
      unfolding dirlookup_from
      look_next e = elim (Bool-cases (half_at b 0 == 0)) [
        | inl free ↦ rw (more, reads, free) refl
        | inr busy ↦
            let other : same_name 14 name b 0 2 ≡ false =
              subst (λ (x : Bool). (not x && same_name 14 name b 0 2) ≡ false) busy e in
            rw (more, reads, busy, other) refl
      ]

      look_hit :
          (not (half_at b 0 == 0) && same_name 14 name b 0 2) ≡ true
          → dirlookup_from name (suc fuel) off dp v ≡ some (some (off, half_at b 0), dp', v')
      unfolding dirlookup_from
      look_hit e = elim (Bool-cases (half_at b 0 == 0)) [
        | inl free ↦
            absurd (no (subst (λ (x : Bool). (not x && same_name 14 name b 0 2) ≡ true) free e))
        | inr busy ↦
            let same : same_name 14 name b 0 2 ≡ true =
              subst (λ (x : Bool). (not x && same_name 14 name b 0 2) ≡ true) busy e in
            rw (more, reads, busy, same) refl
      ]
        where
          no : false ≢ true
          no e = cc e

-- An entry that is another, then the rest.
module _ (name : Memory) (off : ℕ) (v : Volume) (dp : Inode) (v1 : Volume) (dp1 : Inode)
    (s : Stored v dp v1 dp1 (byte v dp)) (small : dp.size ≤ maxfile * bsize)
    (whole : dp.size % 16 ≡ 0) (aligned : off % 16 ≡ 0)
    (other : is_named name (byte v dp) off ≡ false) (cost : free v ≤ free v1 + 3)
    (in_dir : off + 16 ≤ dp.size) where
  same_size : dp1.size ≡ dp.size
  same_size = ap (λ (j : Inode). j.size) s.fields

  named_same :
      (j : ℕ)
      → j < dp.size
      → j % 16 ≡ 0
      → is_named name (byte v1 dp1) j ≡ is_named name (byte v dp) j
  named_same j lo al =
      is_named_ext name (byte v1 dp1) (byte v dp) j j
        (λ x in_entry. s.bytes (j + x) (omega (arith, whole, small)))

  number_same :
      (j : ℕ) → j < dp.size → j % 16 ≡ 0 → number_at (byte v1 dp1) j ≡ number_at (byte v dp) j
  number_same j lo al =
      number_ext (byte v1 dp1) (byte v dp) j j
        (λ x in_entry. s.bytes (j + x) (omega (arith, whole, small)))

  low : (j : ℕ) → j < dp.size → j < dp1.size
  low j lo = omega (arith, same_size)

  -- None in the rest, none here.
  none_before :
      (o : ℕ)
      → o ≤ dp.size
      → ((j : ℕ) → off + 16 ≤ j → j < o → j % 16 ≡ 0 → is_named name (byte v1 dp1) j ≡ false)
      → (j : ℕ) → off ≤ j
      → j < o
      → j % 16 ≡ 0
      → is_named name (byte v dp) j ≡ false
  none_before o in_dir none_in j lo hi al = elim (Bool-cases (off == j)) [
    | inl this ↦ subst (λ (k : ℕ). is_named name (byte v dp) k ≡ false) (==→eq _ _ this) other
    | inr later ↦
        sym (named_same j (omega arith) al) ∙ none_in j (entry_after (==→ne _ _ later)) hi al
  ]
    where
      entry_after : off ≢ j → off + 16 ≤ j
      entry_after ne = ground (arith, aligned)

  later-Looked :
      (o : Option (Option (ℕ × ℕ) × Inode × Volume))
      → Looked name (off + 16) v1 dp1 o
      → Looked name off v dp o
  later-Looked o (found p dp2 v2 s2 lo hi al named none_in) =
      let in_dir : p < dp.size = omega (arith, same_size) in
      subst (λ (x : ℕ). Looked name off v dp (some (some (p, x), dp2, v2)))
        (sym (number_same p in_dir al))
        (found p dp2 v2 (Stored-trans v dp v1 dp1 v2 dp2 _ _ _ s s2 (λ i lo bytes. bytes i lo))
          (omega arith) in_dir al (sym (named_same p in_dir al) ∙ named)
          (none_before p (omega arith) none_in))
  later-Looked o (missing dp2 v2 s2 none_in) =
      missing dp2 v2 (Stored-trans v dp v1 dp1 v2 dp2 _ _ _ s s2 (λ i lo bytes. bytes i lo))
        (none_before dp.size (omega arith) (λ j lo hi al. none_in j lo (low j hi) al))
  later-Looked o (panicked r) = panicked (
      NoRoom-before off (dp.size - off) (off + 16) (dp1.size - (off + 16)) v dp v1 dp1 _
        (3 * ((dp1.size - (off + 16)) / 16)) 3 (3 * ((dp.size - off) / 16)) s (omega arith)
        (omega (arith, same_size)) (omega arith) cost (omega (arith, same_size, whole, aligned)) r)

Entry-Looked :
    (name : Memory) (fuel off : ℕ) (v : Volume) (dp : Inode) (o : Option (Memory × Inode × Volume))
    → dp.size ≤ maxfile * bsize
    → dp.size % 16 ≡ 0
    → off % 16 ≡ 0
    → (leb dp.size off ≡ false) × (off + 16 ≤ dp.size)
    → read_dirent off dp v ≡ o
    → Entry off v dp o
    → ((v1 : Volume) (dp1 : Inode)
        → Stored v dp v1 dp1 (byte v dp)
        → Looked name (off + 16) v1 dp1 (dirlookup_from name fuel (off + 16) dp1 v1))
    → Looked name off v dp (dirlookup_from name (suc fuel) off dp v)
Entry-Looked name fuel off v dp o small whole al more e (no_room r) rest =
    subst (Looked name off v dp) (sym (look_panic name fuel off dp v more.0 e)) (
      panicked (record {
        hole = r.hole;
        start = r.start;
        below = omega (arith, r.below, more.1);
        missing = r.missing;
        few = omega (arith, r.few, more.1);
      }))
Entry-Looked name fuel off v dp o small whole al more e (entry_read b dp1 v1 s bytes cost) rest =
    elim (Bool-cases (is_named name (byte v dp) off)) [
      | inl named ↦
          subst (Looked name off v dp)
            (sym (
              look_hit name fuel off dp v more.0 b dp1 v1 e
                (read_named name b (byte v dp) off bytes ∙ named)
              ∙ ap (λ (x : ℕ). some (some (off, x), dp1, v1))
                  (read_number b (byte v dp) off bytes)))
            (found off dp1 v1 s (omega arith) (omega (arith, more.1)) al named
              (λ j lo hi. absurd (omega arith)))
      | inr other ↦
          subst (Looked name off v dp)
            (sym (
              look_next name fuel off dp v more.0 b dp1 v1 e
                (read_named name b (byte v dp) off bytes ∙ other)))
            (later-Looked name off v dp v1 dp1 s small whole al other cost more.1 _ (rest v1 dp1 s))
    ]

look-Looked :
    (name : Memory) (fuel off : ℕ) (v : Volume) (dp : Inode)
    → IsFile v dp
    → dp.size ≤ maxfile * bsize
    → dp.size % 16 ≡ 0
    → off % 16 ≡ 0
    → off ≤ dp.size
    → dp.size < off + fuel * 16
    → Looked name off v dp (dirlookup_from name fuel off dp v)
look-Looked name zero off v dp h small whole al in_dir enough = absurd (omega arith)
look-Looked name (suc fuel) off v dp h small whole al in_dir enough =
    elim (Bool-cases (leb dp.size off)) [
      | inl over ↦
          subst (Looked name off v dp) (sym (look_end name fuel off dp v over))
            (missing dp v (Stored-refl v dp h) (λ j lo hi. absurd (ground arith)))
      | inr more ↦
          Entry-Looked name fuel off v dp _ small whole al ((more, next_fits more)) refl
            (read_dirent-Entry off v dp h small al (next_fits more))
            (λ v1 dp1 s.
              let same : dp1.size ≡ dp.size = ap (λ (j : Inode). j.size) s.fields in
              look-Looked name fuel (off + 16) v1 dp1 s.file (omega (arith, same))
                (omega (arith, same)) (omega arith) (omega (arith, same, next_fits more))
                (omega (arith, same)))
    ]
  where
    next_fits : leb dp.size off ≡ false → off + 16 ≤ dp.size
    next_fits more = ground (arith, whole, al)

-- dirlookup in a sound directory of whole entries, of at most the largest size: it gives the first entry in
-- use with the name, its offset and inode number, or none when there is none, and leaves the
-- directory's bytes and the blocks of others as they are. It panics for a file or a device, or
-- when a block of the directory is missing and at most three blocks for each entry are free.
pub dirlookup-Looked :
    (name : Memory) (v : Volume) (dp : Inode)
    → IsFile v dp
    → dp.size ≤ maxfile * bsize
    → dp.size % 16 ≡ 0
    → ((dp.type ≢ 16) × (dp.type ≢ 17) → Looked name 0 v dp (dirlookup name dp v))
      × ((dp.type ≡ 16) ⊎ (dp.type ≡ 17) → dirlookup name dp v ≡ none)
unfolding dirlookup
dirlookup-Looked name v dp h small whole = (
  (λ ne.
      let a : (dp.type == 16) ≡ false = ne→== _ _ ne.0 in
      let b : (dp.type == 17) ≡ false = ne→== _ _ ne.1 in
      rw (a, b)
        (look-Looked name (dp.size / 16 + 2) 0 v dp h small whole (omega arith) (omega arith)
          (omega arith))),
  λ is. elim is [ inl e ↦ rw e refl | inr e ↦ rw e refl ],
)
