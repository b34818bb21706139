-- ===== src/Mm/Vm/User.antt =====
-- User memory, the RISC-V half of kernel/mm/vm.c: unmapping, growing, shrinking, copying and freeing
-- the pages of a process. A loop over pages has a round for each page as its fuel.
pub mod Frame
pub mod Unmap
use re_xvapor.Base.{
  ℕ, zero, suc, ◌+◌, ◌-◌, ◌*◌, ◌/◌, ◌%◌, ◌^◌, Bool, true, false, not, ◌&&◌, ◌||◌, Option, none,
  some, bit_or, ltb, leb, ◌==◌, if◌then◌else◌,
}
use re_xvapor.Base.Bits.{bit}
use re_xvapor.Mm.Kalloc.{Kmem, pgsize, pg_round_up, sign_extend, kzalloc, kfree}
use re_xvapor.Mm.Pte.{is_valid, pte_to_pa, pte_flags, pte_v, pte_r, pte_w, pte_x, pte_u}
use re_xvapor.Mm.Vm.{
  Outcome, returns, panics, loops, M, ◌>>=◌, ◌>>◌, pure, panic, unless, load, store, alloc,
  clear_page, walk, mappages,
}

-- The slot that walk returns without allocation; a panic on NULL.
abbrev pub find : ℕ → ℕ → M ℕ
find pagetable va =
    walk pagetable va false >>= λ found. elim found [ none ↦ panic | some at ↦ pure at ]

abbrev pub zalloc : M ℕ
zalloc s = returns (kzalloc s).0 (kzalloc s).1

-- memmove(dst, src, PGSIZE)
abbrev pub copy_page : ℕ → ℕ → M (Unit {0})
copy_page dst src s = returns tt (record s {
  mem = λ a. if leb dst a && ltb a (dst + pgsize) then s.mem (src + (a - dst)) else s.mem a;
})

-- pte & ~PTE_U
abbrev pub without_user : ℕ → ℕ
without_user pte = if bit pte 4 then pte - pte_u else pte

-- pte & (PTE_R|PTE_W|PTE_X)
abbrev pub has_access : ℕ → Bool
has_access pte = bit pte 1 || (bit pte 2 || bit pte 3)

pub uvmcreate : M ℕ
uvmcreate = alloc >>= λ p. if p == 0 then pure 0 else clear_page p >> pure p

pub uvmclear : ℕ → ℕ → M (Unit {0})
uvmclear pagetable va = find pagetable va >>= λ at. load at >>= λ pte. store at (without_user pte)

pub uvmadd : ℕ → ℕ → ℕ → M (Unit {0})
uvmadd pagetable va perm = find pagetable va >>= λ at. load at >>= λ pte.
    if not (is_valid pte) || (pte_flags pte == pte_v) then panic else store at (bit_or pte perm)

module _ (kernel_end phystop : ℕ) where
  abbrev pub free_page : ℕ → M (Unit {0})
  free_page pa s = elim (kfree kernel_end phystop pa s) [ none ↦ panics | some t ↦ returns tt t ]

  -- A round of the loop of uvmunmap.
  pub unmap_page : ℕ → ℕ → Bool → M (Unit {0})
  unmap_page pagetable a do_free = find pagetable a >>= λ at. load at >>= λ pte.
      if not (is_valid pte)
      then panic
      else if pte_flags pte == pte_v
      then panic
      else (if do_free then free_page (pte_to_pa pte) else pure tt) >> store at 0

  -- The loop of uvmunmap, by its rounds.
  pub unmap_from : ℕ → ℕ → ℕ → Bool → M (Unit {0})
  unfolding unmap_page
  unmap_from zero pagetable a do_free = pure tt
  unmap_from (suc rounds) pagetable a do_free =
      unmap_page pagetable a do_free >> unmap_from rounds pagetable (a + pgsize) do_free

  -- The end of the range may wrap; `va` is then above it and there is no round.
  pub uvmunmap : ℕ → ℕ → ℕ → Bool → M (Unit {0})
  unfolding unmap_from
  uvmunmap pagetable va npages do_free =
      let rounds = ((va + npages * pgsize) % 2 ^ 64 - va) / pgsize in
      if not (va % pgsize == 0) then panic else unmap_from rounds pagetable va do_free

  -- `npages` is an int.
  pub uvmdealloc : ℕ → ℕ → ℕ → M ℕ
  unfolding uvmunmap
  uvmdealloc pagetable oldsz newsz =
      let npages = sign_extend ((pg_round_up oldsz - pg_round_up newsz) / pgsize % 2 ^ 32) in
      if leb oldsz newsz
      then pure oldsz
      else if ltb (pg_round_up newsz) (pg_round_up oldsz)
      then uvmunmap pagetable (pg_round_up newsz) npages true >> pure newsz
      else pure newsz

  -- The loop of uvmalloc, on fuel.
  pub grow_from : ℕ → ℕ → ℕ → ℕ → ℕ → ℕ → M ℕ
  unfolding uvmdealloc
  grow_from zero pagetable a oldsz newsz xperm = λ s. loops
  grow_from (suc fuel) pagetable a oldsz newsz xperm =
      let give_up = uvmdealloc pagetable a oldsz >> pure 0 in
      let next = grow_from fuel pagetable ((a + pgsize) % 2 ^ 64) oldsz newsz xperm in
      if leb newsz a
      then pure newsz
      else zalloc >>= λ p.
          if p == 0
          then give_up
          else clear_page p
            >> (mappages pagetable a pgsize p (bit_or (bit_or pte_r pte_u) xperm) >>= λ ok.
                if ok then next else free_page p >> give_up)

  pub uvmalloc : ℕ → ℕ → ℕ → ℕ → M ℕ
  unfolding grow_from
  uvmalloc pagetable oldsz newsz xperm =
      let start = pg_round_up oldsz in
      if ltb newsz oldsz
      then pure oldsz
      else grow_from ((newsz - start) / pgsize + 2) pagetable start start newsz xperm

  -- A round of the loop of freewalk, `below` being freewalk itself.
  abbrev pub free_entry : (ℕ → M (Unit {0})) → ℕ → ℕ → M (Unit {0})
  free_entry below pagetable i = load (pagetable + 8 * i) >>= λ pte.
      if is_valid pte && not (has_access pte)
      then below (pte_to_pa pte) >> store (pagetable + 8 * i) 0
      else if is_valid pte
      then panic
      else pure tt

  -- Entries 512 - n, ..., 511.
  pub free_entries : ℕ → (ℕ → M (Unit {0})) → ℕ → M (Unit {0})
  free_entries zero below pagetable = pure tt
  free_entries (suc n) below pagetable =
      free_entry below pagetable (512 - suc n) >> free_entries n below pagetable

  -- The depth of the recursion is the fuel.
  pub freewalk : ℕ → ℕ → M (Unit {0})
  unfolding free_entries
  freewalk zero pagetable = λ s. loops
  freewalk (suc depth) pagetable =
      free_entries 512 (freewalk depth) pagetable >> free_page pagetable

  -- A tree has three levels.
  pub uvmfree : ℕ → ℕ → M (Unit {0})
  unfolding uvmunmap freewalk
  uvmfree pagetable sz =
      (if ltb 0 sz then uvmunmap pagetable 0 (pg_round_up sz / pgsize) true else pure tt)
      >> freewalk 3 pagetable

  -- The loop of uvmcopy, on fuel; `true` is 0, `false` is -1.
  pub copy_from : ℕ → ℕ → ℕ → ℕ → ℕ → M Bool
  unfolding uvmunmap
  copy_from zero old new i sz = λ s. loops
  copy_from (suc fuel) old new i sz =
      let give_up = uvmunmap new 0 (i / pgsize) true >> pure false in
      let next = copy_from fuel old new ((i + pgsize) % 2 ^ 64) sz in
      if leb sz i
      then pure true
      else find old i >>= λ at. load at >>= λ pte.
          if not (is_valid pte)
          then panic
          else alloc >>= λ p.
              if p == 0
              then give_up
              else copy_page p (pte_to_pa pte)
                >> (mappages new i pgsize p (pte_flags pte) >>= λ ok.
                    if ok then next else free_page p >> give_up)

  pub uvmcopy : ℕ → ℕ → ℕ → M Bool
  unfolding copy_from
  uvmcopy old new sz = copy_from (sz / pgsize + 2) old new 0 sz

  -- THREAD_TRAPFRAME(idx), the index being small.
  abbrev pub thread_trapframe : ℕ → ℕ
  thread_trapframe idx = 2 ^ 38 - 3 * pgsize - idx * pgsize

  -- 0 is NULL.
  pub uvm_thread_trapframe : ℕ → ℕ → M ℕ
  uvm_thread_trapframe pagetable thread_idx = zalloc >>= λ pa.
      mappages pagetable (thread_trapframe thread_idx) pgsize pa (bit_or pte_r pte_w) >>= λ ok.
      if ok then pure pa else free_page pa >> pure 0

  pub map_ustack : ℕ → ℕ → ℕ → M ℕ
  unfolding uvmalloc uvmclear
  map_ustack pagetable stack_low pages =
      let low = pg_round_up stack_low in
      uvmalloc pagetable low ((low + (pages + 1) * pgsize) % 2 ^ 64) pte_w >>= λ sz1.
      if sz1 == 0 then pure 0 else uvmclear pagetable low >> pure sz1
