-- ===== src/Fs/Xv6/Logged.antt =====
-- The operations of fs/xv6fs.c change blocks through the log alone: a block with other contents is one
-- that log_write was called for.
use re_xvapor.Base.{
  ℕ, zero, suc, ◌+◌, ◌-◌, ◌/◌, ◌≡◌, refl, sym, ◌∙◌, subst, Bool, true, false, not, Bool-cases,
  Option-cases, ==→eq, ==→ne, Option, none, some, NotIn, update_ne, ltb, ◌==◌, if◌then◌else◌, arith,
  inl, inr,
}
use re_xvapor.Fs.Xv6.{Block, Volume, bsize, write_block, bzero, balloc, bfree, readsb}
use re_xvapor.Fs.Xv6.Bitmap.{taken, Chosen, chosen, exhausted, balloc-Chosen}
use re_xvapor.Fs.Xv6.Data.{Memory, Transfer, Devices, piece, writei_from, writei, finish_write}
use re_xvapor.Fs.Xv6.Data.Piece.{Copies, piece_bounds}
use re_xvapor.Fs.Xv6.Data.Write.{step_panic, step_zero, step_next, block_of}
use re_xvapor.Fs.Xv6.Inode.{
  Inode, ndirect, nindirect, with_addr, bmap_entry, bmap, iupdate, free_direct, free_indirect,
  itrunc_indirect, itrunc, ialloc, ialloc_from,
}

-- A block that is not logged by the end has its old contents.
pub record Logs (v v' : Volume) : Type 0 where
  pub unlogged : (c : ℕ) → NotIn c v'.logged → NotIn c v.logged × (v'.block c ≡ v.block c)

pub Logs-refl : (v : Volume) → Logs v v
Logs-refl v = record { unlogged = λ c out. (out, refl) }

pub Logs-trans : (v v1 v2 : Volume) → Logs v v1 → Logs v1 v2 → Logs v v2
Logs-trans v v1 v2 s s' = record {
  unlogged = λ c out. let p = s'.unlogged c out in let q = s.unlogged c p.0 in (q.0, p.1 ∙ q.1);
}

pub write_block-Logs : (b : ℕ) (d : Block) (v : Volume) → Logs v (write_block b d v)
write_block-Logs b d v = record {
  unlogged = λ c out. (out.1, update_ne v.block b c d (λ e. out.0 (sym e)));
}

-- The same for a call that may panic.
pub data Logged {A : Type 0} (volume : A → Volume) (v : Volume) : Option A → Type 0 where
  panics : Logged volume v none
  returns : (a : A) → Logs v (volume a) → Logged volume v (some a)

module _ {A : Type 0} (volume : A → Volume) where
  pub if-Logged :
      (v : Volume) (b : Bool) (x y : Option A)
      → Logged volume v x
      → Logged volume v y
      → Logged volume v (if b then x else y)
  if-Logged v true x y p q = p
  if-Logged v false x y p q = q

  pub Logged-trans :
      (v v1 : Volume) (o : Option A) → Logs v v1 → Logged volume v1 o → Logged volume v o
  Logged-trans v v1 o s panics = panics
  Logged-trans v v1 o s (returns a s') = returns a (Logs-trans v v1 (volume a) s s')

module _ {A B : Type 0} (vol : A → Volume) (vol' : B → Volume) (v : Volume) where
  pub then-Logged :
      (k : A → Option B) (o : Option A)
      → Logged vol v o
      → ((a : A) → Logged vol' (vol a) (k a))
      → Logged vol' v (elim o [ none ↦ none | some a ↦ k a ])
  then-Logged k o panics rest = panics
  then-Logged k o (returns a s) rest = Logged-trans vol' v (vol a) (k a) s (rest a)

abbrev pub second : {A : Type 0} → A × Volume → Volume
second r = r.1

abbrev third : ℕ × Inode × Volume → Volume
third r = r.2

taken-Logs : (k : ℕ) (v : Volume) → Logs v (taken k v)
unfolding bzero
taken-Logs k v = Logs-trans v _ _ (write_block-Logs _ _ v) (write_block-Logs k (λ a. 0) _)

balloc-Logged : (v : Volume) → Logged second v (balloc v)
balloc-Logged v = go (balloc v) (balloc-Chosen v)
  where
    go : (o : Option (ℕ × Volume)) → Chosen 0 v o → Logged second v o
    go o (chosen k lo inside idle before) = returns (k, taken k v) (taken-Logs k v)
    go o (exhausted all) = panics

bmap_entry-Logged : (ip : Inode) (ind i : ℕ) (v : Volume) → Logged third v (bmap_entry ip ind i v)
unfolding bmap_entry
bmap_entry-Logged ip ind i v = if-Logged third v _ _ _ (returns _ (Logs-refl v)) (
    then-Logged second third v _ _ (balloc-Logged v) (λ first.
      if-Logged third (first.1) _ _ _ (returns _ (Logs-refl (first.1))) (
        then-Logged second third (first.1) _ _ (balloc-Logged (first.1))
          (λ l. returns _ (write_block-Logs ind _ (l.1))))))

bmap-Logged : (bn : ℕ) (ip : Inode) (v : Volume) → Logged third v (bmap bn ip v)
unfolding bmap
bmap-Logged bn ip v =
    if-Logged third v (ltb bn ndirect) _ _ near
      (if-Logged third v (ltb (bn - ndirect) nindirect) _ _ far panics)
  where
    near : Logged third v (
        if not (ip.addrs bn == 0)
        then some (ip.addrs bn, ip, v)
        else elim (balloc v) [ none ↦ none | some r ↦ some (r.0, with_addr bn r.0 ip, r.1) ])
    near =
        if-Logged third v (not (ip.addrs bn == 0)) _ _ (returns (ip.addrs bn, ip, v) (Logs-refl v))
          (then-Logged second third v _ _ (balloc-Logged v)
            (λ r. returns (r.0, with_addr bn r.0 ip, r.1) (Logs-refl (r.1))))

    far : Logged third v (
        if not (ip.addrs ndirect == 0)
        then bmap_entry ip (ip.addrs ndirect) (bn - ndirect) v
        else elim (balloc v) [
          | none ↦ none
          | some r ↦
              if r.0 == 0
              then some (0, ip, r.1)
              else bmap_entry (with_addr ndirect r.0 ip) r.0 (bn - ndirect) r.1
        ])
    far =
        if-Logged third v (not (ip.addrs ndirect == 0)) _ _
          (bmap_entry-Logged ip (ip.addrs ndirect) (bn - ndirect) v)
          (then-Logged second third v _ _ (balloc-Logged v) (λ r.
            if-Logged third (r.1) (r.0 == 0) _ _ (returns (0, ip, r.1) (Logs-refl (r.1)))
              (bmap_entry-Logged (with_addr ndirect r.0 ip) (r.0) (bn - ndirect) (r.1))))

iupdate-Logs : (ip : Inode) (v : Volume) → Logs v (iupdate ip v)
unfolding iupdate
iupdate-Logs ip v = write_block-Logs _ _ v

bfree-Logged : (b : ℕ) (v : Volume) → Logged (λ (w : Volume). w) v (bfree b v)
unfolding bfree readsb
bfree-Logged b v =
    if-Logged (λ (w : Volume). w) v _ _ _ panics
      (returns _
        (record { unlogged = λ c out. (out.1, update_ne v.block _ c _ (λ e. out.0 (sym e))) }))

abbrev itself : Volume → Volume
itself w = w

abbrev pub last : Inode × Volume → Volume
last r = r.1

free_direct-Logged : (n i : ℕ) (ip : Inode) (v : Volume) → Logged last v (free_direct n i ip v)
unfolding free_direct
free_direct-Logged zero i ip v = returns _ (Logs-refl v)
free_direct-Logged (suc n) i ip v =
    if-Logged last v _ _ _ (free_direct-Logged n (i + 1) ip v)
      (then-Logged itself last v _ _ (bfree-Logged _ v) (λ w. free_direct-Logged n (i + 1) _ w))

free_indirect-Logged : (n j ind : ℕ) (v : Volume) → Logged itself v (free_indirect n j ind v)
unfolding free_indirect
free_indirect-Logged zero j ind v = returns _ (Logs-refl v)
free_indirect-Logged (suc n) j ind v =
    if-Logged itself v _ _ _ (free_indirect-Logged n (j + 1) ind v) (
      then-Logged itself itself v _ _ (bfree-Logged _ v)
        (λ w. free_indirect-Logged n (j + 1) ind w))

itrunc_indirect-Logged : (ip : Inode) (v : Volume) → Logged last v (itrunc_indirect ip v)
unfolding itrunc_indirect
itrunc_indirect-Logged ip v = if-Logged last v _ _ _ (returns _ (Logs-refl v)) (
    then-Logged itself last v _ _ (free_indirect-Logged _ _ _ v)
      (λ w. then-Logged itself last w _ _ (bfree-Logged _ w) (λ u. returns _ (Logs-refl u))))

itrunc-Logged : (ip : Inode) (v : Volume) → Logged last v (itrunc ip v)
unfolding itrunc
itrunc-Logged ip v = then-Logged last last v _ _ (free_direct-Logged _ _ ip v) (λ r.
    then-Logged last last (r.1) _ _ (itrunc_indirect-Logged (r.0) (r.1))
      (λ q. returns _ (iupdate-Logs _ (q.1))))

ialloc_from-Logged : (n inum type : ℕ) (v : Volume) → Logged second v (ialloc_from n inum type v)
unfolding ialloc_from
ialloc_from-Logged zero inum type v = panics
ialloc_from-Logged (suc n) inum type v =
    if-Logged second v _ _ _ (returns _ (write_block-Logs _ _ v))
      (ialloc_from-Logged n (inum + 1) type v)

returned :
    {A : Type 0} (vol : A → Volume) (v : Volume) (a : A) → Logged vol v (some a) → Logs v (vol a)
returned vol v a (returns c s) = s

module _ (fails : ℕ → ℕ → Option ℕ) (b : Memory) where
  writei_from-Logged :
      (fuel tot src off left : ℕ) (ip : Inode) (v : Volume)
      → Copies fails src left
      → Logged Transfer.volume v (writei_from fails fuel tot src off left ip v b)
  unfolding writei_from
  writei_from-Logged zero tot src off left ip v ok = panics
  writei_from-Logged (suc fuel) tot src off left ip v ok = elim (Bool-cases (left == 0)) [
    | inl done ↦ rw (==→eq left 0 done) (returns _ (Logs-refl v))
    | inr more ↦
        let bounds = piece_bounds left off (==→ne _ _ more) in
        let m = piece left off in
        let rest = λ (jp : Inode) (w : Volume).
          writei_from-Logged fuel (tot + m) (src + m) (off + m) (left - m) jp w
            (λ x n lo hi. ok x n (omega arith) (omega (arith, bounds.1))) in
        elim (Option-cases (bmap (off / bsize) ip v)) [
          | inl e ↦
              subst (Logged Transfer.volume v)
                (sym (step_panic fails b fuel tot src off left ip v more e)) panics
          | inr r ↦
              next more rest (r.0) r.1 (
                returned third v (r.0)
                  (subst (Logged third v) r.1 (bmap-Logged (off / bsize) ip v)))
        ]
  ]
    where
      next :
          (left == 0) ≡ false
          → ((jp : Inode) (w : Volume)
              → Logged Transfer.volume w (
                  writei_from fails fuel
                    (tot + piece left off)
                    (src + piece left off)
                    (off + piece left off)
                    (left - piece left off)
                    jp
                    w
                    b))
          → (r : ℕ × Inode × Volume) → bmap (off / bsize) ip v ≡ some r
          → Logs v (r.2)
          → Logged Transfer.volume v (writei_from fails (suc fuel) tot src off left ip v b)
      next more rest r e s = elim (Bool-cases (r.0 == 0)) [
        | inl stop ↦
            subst (Logged Transfer.volume v)
              (sym (step_zero fails b fuel tot src off left ip v more (r.0) (r.1) (r.2) e stop))
              (returns _ s)
        | inr go ↦
            let bounds = piece_bounds left off (==→ne _ _ more) in
            let m = piece left off in
            let w =
              write_block (r.0) (block_of fails b fuel tot src off left ip v more (r.0) (r.2))
                (r.2) in
            subst (Logged Transfer.volume v)
              (sym (
                step_next fails b fuel tot src off left ip v more (r.0) (r.1) (r.2) e go
                  (ok src m (omega arith) (omega (arith, bounds.1)))))
              (Logged-trans Transfer.volume v w _
                (Logs-trans v (r.2) w s (write_block-Logs (r.0) _ (r.2))) (rest (r.1) w))
      ]

finish_write-Logs : (t : Transfer) → Logs t.volume (finish_write t).volume
unfolding finish_write
finish_write-Logs t = iupdate-Logs _ t.volume

-- Whatever the volume and the inode: where no copy fails, a block that writei has not given to log_write by
-- its end keeps its contents, and so it is for itrunc and ialloc.
pub unlogged_kept :
    (devsw : Devices) (fails : ℕ → ℕ → Option ℕ) (src off n type : ℕ) (ip : Inode) (v : Volume)
    (b : Memory)
    → Copies fails src n
    → Logged Transfer.volume v (writei devsw fails src off n ip v b)
      × Logged last v (itrunc ip v)
      × Logged second v (ialloc type v)
unfolding writei ialloc
unlogged_kept devsw fails src off n type ip v b ok = (
  (if-Logged Transfer.volume v (ip.type == 17) _ _ (returns _ (Logs-refl v)) (
      if-Logged Transfer.volume v _ _ _ (returns _ (Logs-refl v)) (
        then-Logged Transfer.volume Transfer.volume v _ _
          (writei_from-Logged fails b (n + 1) 0 src off n ip v ok)
          (λ t. returns _ (finish_write-Logs t))))),
  itrunc-Logged ip v,
  ialloc_from-Logged _ 1 type v,
)
